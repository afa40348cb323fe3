-- ===== src/Merge/Side.antt =====
-- One side of the search of `find_common_ancestor`: what `expand_frontier` of src/repo/merge.rs does
-- to its frontier and its visited set.
use bole.Base.{
  Bool, true, false, ◌||◌, List, [], ◌∷◌, ◌++◌, ◌≡◌, inl, inr, sym, ap, subst, arith, bytes_eq,
  bytes_ord, ◌==◌, eq_iff, contains, contains_cases, contains_head, contains-append, Bool-cases,
  set_insert, contains-set_insert,
}
use bole.Base.Maps
use bole.Refs.{ObjectId}
use bole.Search.{Objects}
use bole.Merge.{Expansion, push_parents, parents_of, expand_each, expand_frontier}

module _ (store : Objects) (start : ObjectId) where
  abbrev pub IsParent : ObjectId → ObjectId → Type 0
  IsParent p x = contains (parents_of (Maps.get store x)) p ≡ true

  -- `start` and what its chains of parents lead to.
  pub data Ancestor : ObjectId → Type 0 where
    here : Ancestor start
    above : {x p : ObjectId} → Ancestor x → IsParent p x → Ancestor p

  -- In the middle of an expansion: `current` is what is left to expand, `extra` the parents left of
  -- the snapshot at hand.
  pub record Expanding (current extra frontier visited : List ObjectId) : Type 0 where
    pub known : (x : ObjectId) → contains visited x ≡ true → Ancestor x
    pending : (x : ObjectId) → contains current x ≡ true → Ancestor x
    fresh : (x : ObjectId) → contains frontier x ≡ true → Ancestor x
    parents : (x : ObjectId) → contains extra x ≡ true → Ancestor x
    begun : contains visited start ≡ true
    closed :
        (x p : ObjectId)
        → contains visited x ≡ true
        → IsParent p x
        → ((contains visited p || contains extra p) || (contains current x || contains frontier x))
          ≡ true

  abbrev pub Side : List ObjectId → List ObjectId → Type 0
  Side frontier visited = Expanding [] [] frontier visited

  Expanding-push :
      (current extra frontier visited : List ObjectId) (p : ObjectId)
      → Expanding current (p ∷ extra) frontier visited
      → contains visited p ≡ false
      → Expanding current extra (frontier ++ (p ∷ [])) (set_insert p visited)
  Expanding-push current extra frontier visited p e n = record {
    known = λ x m. elim (Bool-cases (x == p)) [
      | inl q ↦ subst Ancestor (sym ((eq_iff x p).0 q)) is_ancestor
      | inr k ↦ e.known x (ground (arith, m, contains-set_insert p visited x))
    ];
    pending = e.pending;
    fresh = λ x m. elim (Bool-cases (x == p)) [
      | inl q ↦ subst Ancestor (sym ((eq_iff x p).0 q)) is_ancestor
      | inr k ↦ e.fresh x (ground (arith, m, contains-append frontier (p ∷ []) x))
    ];
    parents = λ x m. e.parents x (ground (arith, m));
    begun = ground (arith, e.begun, contains-set_insert p visited start);
    closed = λ x y m r. elim (Bool-cases (x == p)) [
      | inl q ↦ ground (arith, contains-append frontier (p ∷ []) x)
      | inr k ↦
          let c = e.closed x y (ground (arith, m, contains-set_insert p visited x)) r in
          ground (arith, c, contains-append frontier (p ∷ []) x, contains-set_insert p visited y)
    ];
  }
    where
      is_ancestor : Ancestor p
      is_ancestor = e.parents p (contains_head p extra)

  Expanding-skip :
      (current extra frontier visited : List ObjectId) (p : ObjectId)
      → Expanding current (p ∷ extra) frontier visited
      → contains visited p ≡ true
      → Expanding current extra frontier visited
  Expanding-skip current extra frontier visited p e m = record {
    known = e.known;
    pending = e.pending;
    fresh = e.fresh;
    parents = λ x k. e.parents x (ground (arith, k));
    begun = e.begun;
    closed = λ x y k r. elim (Bool-cases (y == p)) [
      | inl q ↦ ground (arith, m, ap (contains visited) ((eq_iff y p).0 q))
      | inr j ↦ ground (arith, e.closed x y k r)
    ];
  }

  -- The snapshot at hand is expanded, and the next one is taken.
  Expanding-next :
      (id : ObjectId) (current frontier visited : List ObjectId)
      → Expanding (id ∷ current) [] frontier visited
      → Expanding current (parents_of (Maps.get store id)) frontier visited
  Expanding-next id current frontier visited e = record {
    known = e.known;
    pending = λ x m. e.pending x (ground (arith, m));
    fresh = e.fresh;
    parents = λ x m. above (e.pending id (contains_head id current)) m;
    begun = e.begun;
    closed = λ x y m r. elim (Bool-cases (x == id)) [
      | inl q ↦
          let k : contains (parents_of (Maps.get store id)) y ≡ true =
            subst (IsParent y) ((eq_iff x id).0 q) r in
          ground (arith, k)
      | inr j ↦ ground (arith, e.closed x y m r)
    ];
  }

  abbrev After : List ObjectId → List ObjectId → Expansion → Type 0
  After current extra (frontier, visited, found_new) = Expanding current extra frontier visited

  push_parents-After :
      (extra current frontier visited : List ObjectId) (b : Bool)
      → Expanding current extra frontier visited
      → After current [] (push_parents extra (frontier, visited, b))
  unfolding push_parents
  push_parents-After [] current frontier visited b e = e
  push_parents-After (p ∷ extra) current frontier visited b e =
      elim (Bool-cases (contains visited p)) [
        | inl m ↦
            rw (m, push_parents)
              (push_parents-After extra current frontier visited b
                (Expanding-skip current extra frontier visited p e m))
        | inr n ↦
            rw (n, push_parents)
              (push_parents-After extra current (frontier ++ (p ∷ [])) (set_insert p visited) true
                (Expanding-push current extra frontier visited p e n))
      ]

  expand_each-After :
      (current frontier visited : List ObjectId) (b : Bool)
      → Expanding current [] frontier visited
      → After [] [] (expand_each store current (frontier, visited, b))
  unfolding expand_each
  expand_each-After [] frontier visited b e = e
  expand_each-After (id ∷ current) frontier visited b e =
      let (frontier', visited', b') =
        push_parents (parents_of (Maps.get store id)) (frontier, visited, b) in
      expand_each-After current frontier' visited' b' (
        push_parents-After (parents_of (Maps.get store id)) current frontier visited b
          (Expanding-next id current frontier visited e))

  -- The frontier is taken out, and what it leads to takes its place.
  pub expand_frontier-Side :
      (frontier visited : List ObjectId)
      → Side frontier visited
      → Side (expand_frontier store frontier visited).0 (expand_frontier store frontier visited).1
  expand_frontier-Side frontier visited s = expand_each-After frontier [] visited false (record {
    known = s.known;
    pending = s.fresh;
    fresh = λ x m. absurd (cc);
    parents = s.parents;
    begun = s.begun;
    closed = λ x y m r. ground (arith, s.closed x y m r);
  })

  pub Side-begin : Side (start ∷ []) (start ∷ [])
  Side-begin = record {
    known = λ x m. is_start x m;
    pending = λ x m. absurd (cc);
    fresh = λ x m. is_start x m;
    parents = λ x m. absurd (cc);
    begun = contains_head start [];
    closed = λ x y m r. ground (arith, m);
  }
    where
      is_start : (x : ObjectId) → contains (start ∷ []) x ≡ true → Ancestor x
      is_start x m = elim (contains_cases {x = x} {y = start} [] m) [
        | inl p ↦ subst Ancestor (sym p) here
        | inr k ↦ absurd (cc)
      ]

  -- With an empty frontier every ancestor is visited.
  pub Side-complete :
      (visited : List ObjectId)
      → Side [] visited
      → (x : ObjectId) → Ancestor x
      → contains visited x ≡ true
  Side-complete visited s x here = s.begun
  Side-complete visited s y (above {x = x} k r) =
      ground (arith, s.closed x y (Side-complete visited s x k) r)
