-- ===== src/Hook/Ancestry.antt =====
-- `is_ancestor` of src/acl/hook.rs decides the ancestry of snapshots.
use bole.Base.{
  ℕ, zero, suc, ◌+◌, ◌≤◌, Bool, true, false, ◌||◌, Option, none, some, List, [], ◌∷◌, ◌≡◌, ◌≢◌, inl,
  inr, refl, sym, ap, subst, arith, bytes_eq, bytes_ord, ◌==◌, eq_iff, ne_of_eq, contains,
  contains_cases, contains_head, Bool-cases, set_insert, contains-set_insert, length,
}
use bole.Base.Maps
use bole.Refs.{ObjectId}
use bole.Search.{Objects}
use bole.Merge.{parents_of, parent_edges}
use bole.Merge.Side.{Ancestor, here, above, IsParent}
use bole.Merge.Rounds.{left, left-set_insert, left-le-length, contains-parent_edges}
use bole.Hook.{Walk, found, more, scan_parents, ancestor_walk, is_ancestor}

-- A definite answer, and the right one.
abbrev pub Decides : Type 0 → Option Bool → Type 0
Decides P none = ⊥
Decides P (some true) = P
Decides P (some false) = ¬ P

module _ (store : Objects) (ancestor descendant : ObjectId) where
  -- Between two steps; `extra` is what is left of the parents at hand.
  record Walking (extra stack seen : List ObjectId) : Type 0 where
    pending : (x : ObjectId) → contains stack x ≡ true → Ancestor store descendant x
    known : (x : ObjectId) → contains seen x ≡ true → Ancestor store descendant x
    parents : (x : ObjectId) → contains extra x ≡ true → Ancestor store descendant x
    unmet : contains seen ancestor ≡ false
    closed :
        (x p : ObjectId)
        → contains (descendant ∷ seen) x ≡ true
        → IsParent store descendant p x
        → ((contains seen p || contains extra p) || contains stack x) ≡ true

  Walking-skip :
      (extra stack seen : List ObjectId) (p : ObjectId)
      → Walking (p ∷ extra) stack seen
      → contains seen p ≡ true
      → Walking extra stack seen
  Walking-skip extra stack seen p w m = record {
    pending = w.pending;
    known = w.known;
    parents = λ x k. w.parents x (ground (arith, k));
    unmet = w.unmet;
    closed = λ x y k r. elim (Bool-cases (y == p)) [
      | inl q ↦ ground (arith, m, ap (contains seen) ((eq_iff y p).0 q))
      | inr j ↦ ground (arith, w.closed x y k r)
    ];
  }

  Walking-push :
      (extra stack seen : List ObjectId) (p : ObjectId)
      → Walking (p ∷ extra) stack seen
      → (p == ancestor) ≡ false
      → Walking extra (p ∷ stack) (set_insert p seen)
  Walking-push extra stack seen p w n =
      let is_p : Ancestor store descendant p = w.parents p (contains_head p extra) in
      record {
        pending = λ x m. elim (Bool-cases (x == p)) [
          | inl q ↦ subst (λ z. Ancestor store descendant z) (sym ((eq_iff x p).0 q)) is_p
          | inr k ↦ w.pending x (ground (arith, m))
        ];
        known = λ x m. elim (Bool-cases (x == p)) [
          | inl q ↦ subst (λ z. Ancestor store descendant z) (sym ((eq_iff x p).0 q)) is_p
          | inr k ↦ w.known x (ground (arith, m, contains-set_insert p seen x))
        ];
        parents = λ x m. w.parents x (ground (arith, m));
        unmet = ground (arith, w.unmet, contains-set_insert p seen ancestor, n);
        closed = λ x y m r. elim (Bool-cases (x == p)) [
          | inl q ↦ ground arith
          | inr k ↦
              let c = w.closed x y (ground (arith, m, contains-set_insert p seen x)) r in
              ground (arith, c, contains-set_insert p seen y)
        ];
      }

  Walking-next :
      (cur : ObjectId) (stack seen : List ObjectId)
      → Walking [] (cur ∷ stack) seen
      → Walking (parents_of (Maps.get store cur)) stack seen
  Walking-next cur stack seen w = record {
    pending = λ x m. w.pending x (ground (arith, m));
    known = w.known;
    parents = λ x m. above (w.pending cur (contains_head cur stack)) m;
    unmet = w.unmet;
    closed = λ x y m r. elim (Bool-cases (x == cur)) [
      | inl q ↦
          let k : contains (parents_of (Maps.get store cur)) y ≡ true =
            subst (λ z. IsParent store descendant y z) ((eq_iff x cur).0 q) r in
          ground (arith, k)
      | inr j ↦ ground (arith, w.closed x y m r)
    ];
  }

  -- The result of the loop over the parents.
  abbrev Walked : ℕ → Walk → Type 0
  Walked bound found = Ancestor store descendant ancestor
  Walked bound (more stack seen) =
      Walking [] stack seen × (length stack + left (parent_edges store) seen ≤ bound)

  scan_parents-Walked :
      (extra stack seen : List ObjectId)
      → Walking extra stack seen
      → ((p : ObjectId) → contains extra p ≡ true → contains (parent_edges store) p ≡ true)
      → (bound : ℕ) → length stack + left (parent_edges store) seen ≤ bound
      → Walked bound (scan_parents ancestor extra stack seen)
  unfolding scan_parents
  scan_parents-Walked [] stack seen w inside bound h = (w, h)
  scan_parents-Walked (p ∷ extra) stack seen w inside bound h =
      let rest : (q : ObjectId) → contains extra q ≡ true → contains (parent_edges store) q ≡ true =
        λ q m. inside q (ground (arith, m)) in
      elim (Bool-cases (p == ancestor)) [
        | inl q ↦
            rw (q, scan_parents)
              (subst (λ z. Ancestor store descendant z) ((eq_iff p ancestor).0 q)
                (w.parents p (contains_head p extra)))
        | inr n ↦ elim (Bool-cases (contains seen p)) [
          | inl m ↦
              rw (n, m, scan_parents)
                (scan_parents-Walked extra stack seen (Walking-skip extra stack seen p w m) rest
                  bound h)
          | inr k ↦
              rw (n, k, scan_parents)
                (scan_parents-Walked extra (p ∷ stack) (set_insert p seen)
                  (Walking-push extra stack seen p w n) rest bound
                  (omega (
                    arith,
                    left-set_insert (parent_edges store) seen p (inside p (contains_head p extra))
                        k,
                  )))
        ]
      ]

  ancestor_walk-Decides :
      (fuel : ℕ) (stack seen : List ObjectId)
      → ancestor ≢ descendant
      → Walking [] stack seen
      → length stack + left (parent_edges store) seen ≤ fuel
      → Decides (Ancestor store descendant ancestor) (ancestor_walk store ancestor fuel stack seen)
  unfolding ancestor_walk
  ancestor_walk-Decides fuel [] seen n w h = unreached
    where
      reached : (x : ObjectId) → Ancestor store descendant x → contains (descendant ∷ seen) x ≡ true
      reached x here = contains_head descendant seen
      reached y (above {x = x} k r) = ground (arith, w.closed x y (reached x k) r)

      unreached : ¬ Ancestor store descendant ancestor
      unreached k =
          elim (contains_cases {x = ancestor} {y = descendant} seen (reached ancestor k)) [
            | inl p ↦ n p
            | inr m ↦ ground (arith, m, w.unmet)
          ]
  ancestor_walk-Decides zero (cur ∷ stack) seen n w h = absurd (omega arith)
  ancestor_walk-Decides (suc fuel) (cur ∷ stack) seen n w h =
      go (scan_parents ancestor (parents_of (Maps.get store cur)) stack seen)
        (scan_parents-Walked (parents_of (Maps.get store cur)) stack seen
          (Walking-next cur stack seen w) (λ p m. contains-parent_edges store cur p m) fuel
          (omega arith))
        (λ stack' seen' w' l. ancestor_walk-Decides fuel stack' seen' n w' l)
    where
      go :
          (r : Walk)
          → Walked fuel r
          → ((stack' seen' : List ObjectId)
              → Walking [] stack' seen'
              → length stack' + left (parent_edges store) seen' ≤ fuel
              → Decides
                  (Ancestor store descendant ancestor)
                  (ancestor_walk store ancestor fuel stack' seen'))
          → Decides (Ancestor store descendant ancestor) (elim r [
            | found ↦ some true
            | more stack' seen' ↦ ancestor_walk store ancestor fuel stack' seen'
          ])
      go found a rest = a
      go (more stack' seen') (w', l) rest = rest stack' seen' w' l

  Walking-begin : Walking [] (descendant ∷ []) []
  Walking-begin = record {
    pending = λ x m. elim (contains_cases {x = x} {y = descendant} [] m) [
      | inl p ↦ subst (λ z. Ancestor store descendant z) (sym p) here
      | inr k ↦ absurd (cc)
    ];
    known = λ x m. absurd (cc);
    parents = λ x m. absurd (cc);
    unmet = refl;
    closed = λ x y m r. ground (arith, m);
  }

  -- The walk ends, and answers true exactly when a chain of parents leads from `descendant` to
  -- `ancestor`, or they are the same.
  pub is_ancestor-Decides :
      Decides (Ancestor store descendant ancestor) (is_ancestor store ancestor descendant)
  unfolding is_ancestor
  is_ancestor-Decides = elim (Bool-cases (ancestor == descendant)) [
    | inl p ↦
        rw p
          (subst (λ z. Ancestor store descendant z) (sym ((eq_iff ancestor descendant).0 p)) here)
    | inr n ↦ rw n (
        ancestor_walk-Decides (length (parent_edges store) + 1) (descendant ∷ []) []
          (ne_of_eq ancestor descendant n) Walking-begin
          (omega (arith, left-le-length (parent_edges store) [])))
  ]
