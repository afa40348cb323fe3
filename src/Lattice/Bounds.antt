-- ===== src/Lattice/Bounds.antt =====
-- What `validate` guarantees: joins are least upper bounds, meets are greatest lower bounds, the
-- order is antisymmetric, and there are a least and a greatest label.
use bole.Base.{
  Bool, true, ◌&&◌, not, some, List, [], ◌∷◌, ◌≡◌, ◌↔◌, inl, inr, arith, ◌==◌, bytes_eq, pair_eq,
  contains, filter, find, contains-filter, all-elim, find-some, Bool-cases, ok, require, >>-ok,
  require-ok, each, each-elim, storage,
}
use bole.Lattice.{
  Label, LabelLattice, dominates, bottom, top, join, meet, upper_bounds, lower_bounds, is_least,
  is_greatest, count_is_one, check_edges, check_cycles, check_pair, validate,
}
use bole.Lattice.Reach.{dominates_trans}

-- If exactly one element passes, `find` finds one.
find-count_is_one {ℓ} :
    {A : Type ℓ} (p : A → Bool) (xs : List A)
    → count_is_one (filter p xs) ≡ true
    → (x : A) × (find p xs ≡ some x)
find-count_is_one p [] h = absurd (cc)
find-count_is_one p (x ∷ xs) h = elim (Bool-cases (p x)) [
  | inl q ↦ (x, rw q)
  | inr n ↦ let (y, e) = find-count_is_one p xs (rw n at h) in (y, rw n e)
]

module _ (l : LabelLattice) where
  abbrev IsLabel : Label → Type 0
  IsLabel x = contains l.labels x ≡ true

  -- `j` bounds `a` and `b` from above, and every other bound from below.
  pub record IsJoin (a b j : Label) : Type 0 where
    pub label : contains l.labels j ≡ true
    pub above_left : dominates l j a ≡ true
    pub above_right : dominates l j b ≡ true
    pub least :
        (c : Label)
        → contains l.labels c ≡ true
        → dominates l c a ≡ true
        → dominates l c b ≡ true
        → dominates l c j ≡ true

  pub record IsMeet (a b m : Label) : Type 0 where
    pub label : contains l.labels m ≡ true
    pub below_left : dominates l a m ≡ true
    pub below_right : dominates l b m ≡ true
    pub greatest :
        (c : Label)
        → contains l.labels c ≡ true
        → dominates l a c ≡ true
        → dominates l b c ≡ true
        → dominates l m c ≡ true

  IsJoin-found :
      (a b j : Label)
      → find (is_least l (upper_bounds l a b)) (upper_bounds l a b) ≡ some j
      → IsJoin a b j
  unfolding upper_bounds
  IsJoin-found a b j h =
      let (m, least) = find-some _ (upper_bounds l a b) j h in
      let e = contains-filter (λ x. dominates l x a && dominates l x b) l.labels j in
      record {
        label = ground (arith, m, e);
        above_left = ground (arith, m, e);
        above_right = ground (arith, m, e);
        least = λ c lc ca cb.
            all-elim (λ o. dominates l o j) (upper_bounds l a b) c least
              (ground
                (arith, contains-filter (λ x. dominates l x a && dominates l x b) l.labels c));
      }

  IsMeet-found :
      (a b m : Label)
      → find (is_greatest l (lower_bounds l a b)) (lower_bounds l a b) ≡ some m
      → IsMeet a b m
  unfolding lower_bounds
  IsMeet-found a b m h =
      let (mem, greatest) = find-some _ (lower_bounds l a b) m h in
      let e = contains-filter (λ x. dominates l a x && dominates l b x) l.labels m in
      record {
        label = ground (arith, mem, e);
        below_left = ground (arith, mem, e);
        below_right = ground (arith, mem, e);
        greatest = λ c lc ac bc.
            all-elim (λ o. dominates l m o) (lower_bounds l a b) c greatest
              (ground
                (arith, contains-filter (λ x. dominates l a x && dominates l b x) l.labels c));
      }

  check_pair-join : (a b : Label) → check_pair l a b ≡ ok tt → IsJoin a b (join l a b)
  unfolding check_pair join
  check_pair-join a b h =
      let ubs = upper_bounds l a b in
      let (j, found) = find-count_is_one (is_least l ubs) ubs (require-ok _ _ (>>-ok _ _ tt h).0) in
      rw found (IsJoin-found a b j found)

  check_pair-meet : (a b : Label) → check_pair l a b ≡ ok tt → IsMeet a b (meet l a b)
  unfolding check_pair meet
  check_pair-meet a b h =
      let lbs = lower_bounds l a b in
      let (m, found) =
        find-count_is_one (is_greatest l lbs) lbs (require-ok _ _ (>>-ok _ _ tt h).1) in
      rw found (IsMeet-found a b m found)

  -- What a configuration has passed when `validate` accepts it.
  record Accepted : Type 0 where
    edges : check_edges l ≡ ok tt
    cycles : check_cycles l ≡ ok tt
    one_bottom : count_is_one (filter (is_least l l.labels) l.labels) ≡ true
    one_top : count_is_one (filter (is_greatest l l.labels) l.labels) ≡ true
    pairs : each (λ a. each (λ b. check_pair l a b) l.labels) l.labels ≡ ok tt

  accepted : validate l ≡ ok tt → Accepted
  unfolding validate
  accepted h =
      let (_, h1) = >>-ok _ _ tt h in
      let (edges, h2) = >>-ok _ _ tt h1 in
      let (cycles, h3) = >>-ok _ _ tt h2 in
      let (one_bottom, h4) = >>-ok _ _ tt h3 in
      let (one_top, pairs) = >>-ok _ _ tt h4 in
      record {
        edges = edges;
        cycles = cycles;
        one_bottom = require-ok _ _ one_bottom;
        one_top = require-ok _ _ one_top;
        pairs = pairs;
      }

  module _ (valid : validate l ≡ ok tt) where
    pair_ok : (a b : Label) → IsLabel a → IsLabel b → check_pair l a b ≡ ok tt
    pair_ok a b la lb =
        each-elim (λ y. check_pair l a y) l.labels b
          (each-elim (λ x. each (λ y. check_pair l x y) l.labels) l.labels a (accepted valid).pairs
            la)
          lb

    -- Where `validate` accepts the configuration, `join` of two labels is their least upper bound:
    -- a label that dominates both, and that every label dominating both dominates.
    pub join-IsJoin : (a b : Label) → IsLabel a → IsLabel b → IsJoin a b (join l a b)
    join-IsJoin a b la lb = check_pair-join a b (pair_ok a b la lb)

    -- Where `validate` accepts the configuration, `meet` of two labels is their greatest lower bound:
    -- a label that both dominate, and that dominates every label that both dominate.
    pub meet-IsMeet : (a b : Label) → IsLabel a → IsLabel b → IsMeet a b (meet l a b)
    meet-IsMeet a b la lb = check_pair-meet a b (pair_ok a b la lb)

    -- Where `validate` accepts the configuration, two labels that dominate one another are equal.
    pub dominates_antisym :
        (a b : Label)
        → IsLabel a
        → IsLabel b
        → dominates l a b ≡ true
        → dominates l b a ≡ true
        → a ≡ b
    unfolding check_cycles
    dominates_antisym a b la lb p q =
        let h =
          each-elim
            (λ x.
              each
                (λ y.
                  require (not (not (x == y) && dominates l x y && dominates l y x))
                    (storage "cycle: two labels mutually dominate"))
                l.labels)
            l.labels a (accepted valid).cycles la in
        let k = require-ok _ _ (
          each-elim
            (λ y.
              require (not (not (a == y) && dominates l a y && dominates l y a))
                (storage "cycle: two labels mutually dominate"))
            l.labels b h lb) in
        ground (arith, k)

    -- Where `validate` accepts the configuration, `bottom` is a label that every label dominates,
    -- and `top` is a label that dominates every label.
    pub bottom-top_bounds :
        (IsLabel (bottom l) × ((x : Label) → IsLabel x → dominates l x (bottom l) ≡ true))
        × (IsLabel (top l) × ((x : Label) → IsLabel x → dominates l (top l) x ≡ true))
    unfolding bottom top
    bottom-top_bounds =
        let (b, found) =
          find-count_is_one (is_least l l.labels) l.labels (accepted valid).one_bottom in
        let (t, found') =
          find-count_is_one (is_greatest l l.labels) l.labels (accepted valid).one_top in
        let (lb, low) = find-some _ l.labels b found in
        let (lt, high) = find-some _ l.labels t found' in
        rw (found, found')
          (
            (lb, λ x lx. all-elim (λ o. dominates l o b) l.labels x low lx),
            (lt, λ x lx. all-elim (λ o. dominates l t o) l.labels x high lx),
          )

    -- Where `validate` accepts the configuration, the join of two labels is dominated by a label
    -- exactly when both are.
    pub dominates-join :
        (a b c : Label)
        → IsLabel a
        → IsLabel b
        → IsLabel c
        → (dominates l c (join l a b) ≡ true)
          ↔ ((dominates l c a ≡ true) × (dominates l c b ≡ true))
    dominates-join a b c la lb lc =
        let j = join-IsJoin a b la lb in
        (
          λ h. (
            dominates_trans l c (join l a b) a h j.above_left,
            dominates_trans l c (join l a b) b h j.above_right,
          ),
          λ h. j.least c lc h.0 h.1,
        )
