-- ===== src/Gc/Reached.antt =====
-- What `gc` of src/repo/mod.rs keeps and what it removes.
use bole.Base.{
  ℕ, suc, ◌+◌, true, false, not, ◌&&◌, none, some, List, [], ◌∷◌, ◌≡◌, ◌↔◌, ◌⊎◌, inl, inr, refl,
  sym, ap, arith, bytes_eq, ◌==◌, eq_iff, contains, length, filter, if◌then◌else◌, Bool-cases,
}
use bole.Base.Maps
use bole.Refs.{ObjectId, Refs}
use bole.Search.{Objects, extend}
use bole.Search.Needed.{Needed, contains-extend, Needed-mono}
use bole.Search.Correct.{search-Searched}
use bole.Gc.{marks, mark_reachable, gc_roots, sweep_loop, sweep, gc, unreachable_object_count}

-- On a path of marked edges from the roots.
abbrev pub Live : Objects → List ObjectId → ObjectId → Type 0
Live store roots = Needed (λ id. false) marks store roots

-- The marking ends, with the live ids.
pub mark_reachable-Live :
    (store : Objects) (roots : List ObjectId)
    → (reachable : List ObjectId) × (mark_reachable store roots ≡ some reachable)
      × ((x : ObjectId) → (contains reachable x ≡ true) ↔ Live store roots x)
unfolding mark_reachable
mark_reachable-Live store roots =
    let ((seen, found), finds, result) =
      search-Searched (λ id. false) marks store (extend [] roots) in
    (
      seen,
      rw (mark_reachable, finds) refl,
      λ x. (
        λ m.
            Needed-mono (extend [] roots) roots (λ y k. ground (arith, contains-extend [] roots y))
              ((result.seen_iff x).0 m),
        λ n. (result.seen_iff x).1 (
            Needed-mono roots (extend [] roots) (λ y k. ground (arith, contains-extend [] roots y))
              n),
      ),
    )

-- A sweep over some of the ids removes those that are not reachable.
get-sweep_loop :
    (reachable ids : List ObjectId) (store : Objects) (n : ℕ) (x : ObjectId)
    → Maps.get (sweep_loop reachable ids store n).0 x
      ≡ (if contains ids x && not (contains reachable x) then none else Maps.get store x)
unfolding sweep_loop
get-sweep_loop reachable [] store n x = refl
get-sweep_loop reachable (id ∷ ids) store n x = elim (Bool-cases (contains reachable id)) [
  | inl k ↦ rw k (elim (Bool-cases (x == id)) [
    | inl e ↦ ground (
      arith,
      get-sweep_loop reachable ids store n x,
      k,
      ap (contains reachable) ((eq_iff x id).0 e),
    )
    | inr f ↦ ground (arith, get-sweep_loop reachable ids store n x)
  ])
  | inr d ↦ rw d (elim (Bool-cases (x == id)) [
    | inl e ↦ ground (
      arith,
      get-sweep_loop reachable ids (Maps.remove store id) (suc n) x,
      Maps.get-remove store id x,
      d,
      ap (contains reachable) ((eq_iff x id).0 e),
    )
    | inr f ↦ ground (
      arith,
      get-sweep_loop reachable ids (Maps.remove store id) (suc n) x,
      Maps.get-remove store id x,
    )
  ])
]

count-sweep_loop :
    (reachable ids : List ObjectId) (store : Objects) (n : ℕ)
    → (sweep_loop reachable ids store n).1
      ≡ n + length (filter (λ id. not (contains reachable id)) ids)
unfolding sweep_loop
count-sweep_loop reachable [] store n = omega arith
count-sweep_loop reachable (id ∷ ids) store n = elim (Bool-cases (contains reachable id)) [
  | inl k ↦ rw k (count-sweep_loop reachable ids store n)
  | inr d ↦ rw d (omega (arith, count-sweep_loop reachable ids (Maps.remove store id) (suc n)))
]

-- A sweep leaves what is reachable.
get-sweep :
    (store : Objects) (reachable : List ObjectId) (x : ObjectId)
    → Maps.get (sweep store reachable).0 x
      ≡ (if contains reachable x then Maps.get store x else none)
get-sweep store reachable x = elim (Bool-cases (contains (Maps.keys store) x)) [
  | inl k ↦ ground (arith, get-sweep_loop reachable (Maps.keys store) store 0 x)
  | inr a ↦ ground (
    arith,
    get-sweep_loop reachable (Maps.keys store) store 0 x,
    (Maps.contains-keys store x).0 a,
  )
]

count-sweep :
    (store : Objects) (reachable : List ObjectId)
    → (sweep store reachable).1
      ≡ length (filter (λ id. not (contains reachable id)) (Maps.keys store))
count-sweep store reachable = omega (arith, count-sweep_loop reachable (Maps.keys store) store 0)

-- An object is live and stays as it was, or it is not and is gone.
abbrev pub KeepsLive : Objects → List ObjectId → Objects → Type 0
KeepsLive store roots store' =
    (x : ObjectId)
    → (Live store roots x × (Maps.get store' x ≡ Maps.get store x))
      ⊎ ((¬ Live store roots x) × (Maps.get store' x ≡ none))

-- `gc` succeeds. Every id is live and has the object it had, or it is not and has none, and the
-- number reported is what `unreachable_object_count` reports before it.
pub gc-KeepsLive :
    (refs : Refs) (store : Objects) (extra_roots : List ObjectId)
    → (store' : Objects) × (n : ℕ) × (gc refs store extra_roots ≡ some (store', n))
      × (unreachable_object_count refs store extra_roots ≡ some n)
      × KeepsLive store (gc_roots refs extra_roots) store'
unfolding gc unreachable_object_count
gc-KeepsLive refs store extra_roots =
    let (reachable, marked, iff) = mark_reachable-Live store (gc_roots refs extra_roots) in
    (
      (sweep store reachable).0,
      (sweep store reachable).1,
      rw (gc, marked) refl,
      rw (unreachable_object_count, marked) (ap some (sym (count-sweep store reachable))),
      λ x. elim (Bool-cases (contains reachable x)) [
        | inl r ↦ inl ((iff x).0 r, ground (arith, get-sweep store reachable x))
        | inr r ↦
            inr (λ k. ground (arith, r, (iff x).1 k), ground (arith, get-sweep store reachable x))
      ],
    )

pub kept-Live :
    (store : Objects) (roots : List ObjectId) (store' : Objects)
    → KeepsLive store roots store'
    → (x : ObjectId) → Live store roots x
    → Maps.get store' x ≡ Maps.get store x
kept-Live store roots store' keeps x live = elim (keeps x) [
  | inl (k, same) ↦ same
  | inr (dead, gone) ↦ absurd (dead live)
]

pub gone_dead :
    (store : Objects) (roots : List ObjectId) (store' : Objects)
    → KeepsLive store roots store'
    → (x : ObjectId) → ¬ Live store roots x
    → Maps.get store' x ≡ none
gone_dead store roots store' keeps x dead = elim (keeps x) [
  | inl (live, same) ↦ absurd (dead live)
  | inr (k, gone) ↦ gone
]
