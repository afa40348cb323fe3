-- ===== src/Gc/Again.antt =====
-- A second `gc` of src/repo/mod.rs after the first.
use bole.Base.{
  ℕ, true, some, List, [], ◌∷◌, ◌≡◌, refl, sym, ◌∙◌, ap, subst, arith, bytes_eq, contains, inl, inr,
  All, All-intro, some-injective,
}
use bole.Base.Maps
use bole.Refs.{ObjectId, Refs}
use bole.Search.{Objects}
use bole.Search.Needed.{start, child}
use bole.Gc.{gc_roots, sweep_loop, gc}
use bole.Gc.Reached.{Live, mark_reachable-Live, kept-Live, gc-KeepsLive}

-- What is live stays live in a store that keeps the live objects.
Live-kept :
    (store store' : Objects) (roots : List ObjectId)
    → ((x : ObjectId) → Live store roots x → Maps.get store' x ≡ Maps.get store x)
    → (x : ObjectId) → Live store roots x
    → Live store' roots x
Live-kept store store' roots kept x (start m n) = start m n
Live-kept store store' roots kept y (child {x = x} k (obj, stored, m) n) =
    child (Live-kept store store' roots kept x k) (obj, kept x k ∙ stored, m) n

sweep_loop-All :
    (reachable ids : List ObjectId) (store : Objects) (n : ℕ)
    → All (λ id. contains reachable id ≡ true) ids
    → sweep_loop reachable ids store n ≡ (store, n)
unfolding sweep_loop
sweep_loop-All reachable [] store n h = refl
sweep_loop-All reachable (id ∷ ids) store n (r, h) = rw r (sweep_loop-All reachable ids store n h)

-- A store from which every dead object is gone loses nothing.
gc-clean :
    (refs : Refs) (store : Objects) (extra_roots : List ObjectId)
    → ((x : ObjectId)
        → contains (Maps.keys store) x ≡ true
        → Live store (gc_roots refs extra_roots) x)
    → gc refs store extra_roots ≡ some (store, 0)
unfolding gc
gc-clean refs store extra_roots clean =
    let (reachable, marked, iff) = mark_reachable-Live store (gc_roots refs extra_roots) in
    rw (gc, marked)
      (ap some (
        sweep_loop-All reachable (Maps.keys store) store 0
          (All-intro _ (Maps.keys store) (λ x k. (iff x).1 (clean x k)))))

-- What the first `gc` leaves, a second one with the same refs leaves as it is, and it reports that
-- it removed nothing.
pub gc-gc :
    (refs : Refs) (store store' : Objects) (extra_roots : List ObjectId) (n : ℕ)
    → gc refs store extra_roots ≡ some (store', n)
    → gc refs store' extra_roots ≡ some (store', 0)
gc-gc refs store store' extra_roots n h =
    let (swept, m, done, counted, keeps) = gc-KeepsLive refs store extra_roots in
    let roots = gc_roots refs extra_roots in
    let same = ap (λ p. p.0) (some-injective _ _ (sym done ∙ h)) in
    subst (λ s. gc refs s extra_roots ≡ some (s, 0)) same
      (gc-clean refs swept extra_roots (λ x k. elim (keeps x) [
        | inl (live, as_was) ↦
            Live-kept store swept roots (kept-Live store roots swept keeps) x live
        | inr (dead, gone) ↦ absurd (ground (arith, k, (Maps.contains-keys swept x).1 gone))
      ]))
