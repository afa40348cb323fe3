-- ===== src/Negotiate/Closure.antt =====
-- What `missing_closure` of src/sync/negotiate.rs sends, and what the receiver then has.
use bole.Base.{
  ◌&&◌, refl, sym, ◌∙◌, subst, some-injective, Bool, true, false, ◌||◌, none, some, List, [], ◌≡◌,
  ◌↔◌, ◌⊎◌, inl, inr, arith, bytes_eq, contains, Bool-cases, all, all-elim,
}
use bole.Base.Maps
use bole.Refs.{ObjectId}
use bole.Search.{Objects, extend}
use bole.Search.Needed.{Needed, start, child, Refers, present, contains-extend, Needed-mono}
use bole.Search.Correct.{search-Searched}
use bole.Negotiate.{child_edges, missing_closure}

-- Reachability in the object graph, nothing skipped.
abbrev pub Reachable : Objects → List ObjectId → ObjectId → Type 0
Reachable store from = Needed (λ x. false) child_edges store from

module _ (store : Objects) (wants have : List ObjectId) where
  -- The receiver has the closure of what it has.
  abbrev pub Closed : Type 0
  Closed =
      (x y : ObjectId)
      → contains have x ≡ true
      → Refers child_edges store x y
      → contains have y ≡ true

  -- The edges of the object stored under an id lead to what the receiver has.
  abbrev pub edges_held : ObjectId → Bool
  edges_held x = elim (Maps.get store x) [
    | none ↦ true
    | some obj ↦ all (contains have) (child_edges obj)
  ]

  pub Closed-intro : all edges_held have ≡ true → Closed
  Closed-intro h x y m (obj, stored, e) =
      all-elim (contains have) (child_edges obj) y (ground (arith, all-elim edges_held have x h m))
        e

  -- The closure is computed, and holds exactly the stored ids on a path from a wanted one that no
  -- object of the receiver cuts.
  pub missing_closure_iff :
      (out : List ObjectId) × (missing_closure store wants have ≡ some out)
      × ((x : ObjectId)
          → (contains out x ≡ true)
            ↔ (Needed (contains have) child_edges store wants x × (present store x ≡ true)))
  unfolding missing_closure
  missing_closure_iff =
      let ((seen, out), finds, result) =
        search-Searched (contains have) child_edges store (extend [] wants) in
      (
        out,
        rw (missing_closure, finds) refl,
        λ x. (
          λ m.
              let (s, p) = split (contains seen x) (sym (result.out_eq x) ∙ m) in
              (
                Needed-mono (extend [] wants) wants
                    (λ y k. ground (arith, contains-extend [] wants y)) ((result.seen_iff x).0 s),
                p,
              ),
          λ (n, p).
              let s = (result.seen_iff x).1 (
                Needed-mono wants (extend [] wants)
                  (λ y k. ground (arith, contains-extend [] wants y)) n) in
              ground (arith, result.out_eq x),
        ),
      )
    where
      split : (b : Bool) {c : Bool} → (b && c) ≡ true → (b ≡ true) × (c ≡ true)
      split b h = ground arith

  -- A receiver that has what the stored objects it has refer to, and that takes what is sent, has
  -- every stored object that the wanted ids reach.
  pub missing_closure-Reachable :
      Closed
      → (out : List ObjectId) → missing_closure store wants have ≡ some out
      → (x : ObjectId) → Reachable store wants x
      → present store x ≡ true
      → (contains have x || contains out x) ≡ true
  missing_closure-Reachable closed out h x r p =
      let (sent, finds, iff) = missing_closure_iff in
      elim (cut x r) [
        | inl m ↦ ground (arith, m)
        | inr n ↦
            subst (λ o. (contains have x || contains o x) ≡ true)
              (some-injective _ _ (sym finds ∙ h)) (ground (arith, (iff x).1 (n, p)))
      ]
    where
      cut :
          (y : ObjectId)
          → Reachable store wants y
          → (contains have y ≡ true) ⊎ Needed (contains have) child_edges store wants y
      cut y (start m n) = elim (Bool-cases (contains have y)) [
        | inl a ↦ inl a
        | inr b ↦ inr (start m b)
      ]
      cut z (child {x = y} k e n) = elim (cut y k) [
        | inl a ↦ inl (closed y z a e)
        | inr b ↦ elim (Bool-cases (contains have z)) [ inl a ↦ inl a | inr c ↦ inr (child b e c) ]
      ]
