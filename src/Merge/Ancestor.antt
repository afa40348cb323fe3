-- ===== src/Merge/Ancestor.antt =====
-- What `find_common_ancestor` of src/repo/merge.rs returns.
use bole.Base.{
  ℕ, zero, suc, ◌+◌, ◌*◌, ◌≤◌, Bool, true, false, ◌&&◌, not, Option, none, some, List, [], ◌∷◌, ◌≡◌,
  inl, inr, refl, sym, ◌∙◌, subst, arith, bytes_eq, ◌==◌, eq_iff, contains, Bool-cases,
  Option-cases, find-some, find-none, length,
}
use bole.Refs.{ObjectId}
use bole.Search.{Objects}
use bole.Merge.{
  Expansion, expand_frontier, common, ancestor_loop, parent_edges, find_common_ancestor,
}
use bole.Merge.Side.{Ancestor, here, Side, Side-begin, Side-complete, expand_frontier-Side}
use bole.Merge.Rounds.{left, left-le-length, Used, expand_frontier-Used}

module _ (store : Objects) (a b : ObjectId) where
  -- An answer is an ancestor of both snapshots, or there is none.
  abbrev pub Answers : Option ObjectId → Type 0
  Answers (some c) = Ancestor store a c × Ancestor store b c
  Answers none = (x : ObjectId) → ¬ (Ancestor store a x × Ancestor store b x)

  common_left :
      (va vb : List ObjectId) (c : ObjectId) → common vb va ≡ some c → contains vb c ≡ true
  common_left va vb c h = (find-some (contains va) vb c h).0

  common_right :
      (va vb : List ObjectId) (c : ObjectId) → common vb va ≡ some c → contains va c ≡ true
  common_right va vb c h = (find-some (contains va) vb c h).1

  common-Answers :
      (fa va fb vb : List ObjectId) (c : ObjectId)
      → Side store a fa va
      → Side store b fb vb
      → common va vb ≡ some c
      → Answers (some c)
  common-Answers fa va fb vb c sa sb h =
      let (in_a, in_b) = find-some (contains vb) va c h in (sa.known c in_a, sb.known c in_b)

  -- Both frontiers are empty and no snapshot is visited on both sides.
  disjoint-Answers :
      (va vb : List ObjectId)
      → Side store a [] va
      → Side store b [] vb
      → common vb va ≡ none
      → Answers none
  disjoint-Answers va vb sa sb h x (xa, xb) = cc (
      sym (find-none (contains va) vb x h (Side-complete store b vb sb x xb))
      ∙ Side-complete store a va sa x xa)

  abbrev Answered : Option (Option ObjectId) → Type 0
  Answered none = ⊥
  Answered (some r) = Answers r

  -- Where no side has found a snapshot, both frontiers are empty.
  quiet-Answers :
      (ea eb : Expansion) (na nb : ℕ)
      → Side store a ea.0 ea.1
      → Side store b eb.0 eb.1
      → Used (parent_edges store) na ea
      → Used (parent_edges store) nb eb
      → (not ea.2 && not eb.2) ≡ true
      → common eb.1 ea.1 ≡ none
      → Answers none
  quiet-Answers (fa, va, ga) (fb, vb, gb) na nb sa sb ua ub q h =
      disjoint-Answers va vb
        (subst (λ f. Side store a f va) (emptied fa va ga na ua (ground arith)) sa)
        (subst (λ f. Side store b f vb) (emptied fb vb gb nb ub (ground arith)) sb) h
    where
      emptied :
          (f v : List ObjectId) (g : Bool) (n : ℕ)
          → Used (parent_edges store) n (f, v, g)
          → g ≡ false
          → f ≡ []
      emptied f v g n (inl (t, l)) e = cc
      emptied f v g n (inr (t, empty, l)) e = empty

  -- Where a side has found one, less is left.
  less_left :
      (ea eb : Expansion) (na nb : ℕ)
      → Used (parent_edges store) na ea
      → Used (parent_edges store) nb eb
      → (not ea.2 && not eb.2) ≡ false
      → suc (left (parent_edges store) ea.1 + left (parent_edges store) eb.1) ≤ na + nb
  less_left (fa, va, ga) (fb, vb, gb) na nb (inl (ta, la)) (inl (tb, lb)) q = omega arith
  less_left (fa, va, ga) (fb, vb, gb) na nb (inl (ta, la)) (inr (tb, eb, lb)) q = omega arith
  less_left (fa, va, ga) (fb, vb, gb) na nb (inr (ta, ea, la)) (inl (tb, lb)) q = omega arith
  less_left (fa, va, ga) (fb, vb, gb) na nb (inr (ta, ea, la)) (inr (tb, eb, lb)) q =
      absurd (ground arith)

  ancestor_loop-Answered :
      (fuel : ℕ) (fa va fb vb : List ObjectId)
      → Side store a fa va
      → Side store b fb vb
      → suc (left (parent_edges store) va + left (parent_edges store) vb) ≤ fuel
      → Answered (ancestor_loop store fuel fa va fb vb)
  unfolding ancestor_loop
  ancestor_loop-Answered zero fa va fb vb sa sb h = absurd (omega arith)
  ancestor_loop-Answered (suc fuel) fa va fb vb sa sb h =
      let ea = expand_frontier store fa va in
      let eb = expand_frontier store fb vb in
      let sa' = expand_frontier-Side store a fa va sa in
      let sb' = expand_frontier-Side store b fb vb sb in
      let ua = expand_frontier-Used store fa va in
      let ub = expand_frontier-Used store fb vb in
      elim (Option-cases (common ea.1 vb)) [
        | inr (c, e) ↦ rw (e, ancestor_loop) (common-Answers ea.0 ea.1 fb vb c sa' sb e)
        | inl n ↦
            rw (n, ancestor_loop)
              (elim (Option-cases (common eb.1 ea.1)) [
                | inr (c, e) ↦ rw e (
                  sa'.known c (common_right ea.1 eb.1 c e),
                  sb'.known c (common_left ea.1 eb.1 c e),
                )
                | inl m ↦ rw m (elim (Bool-cases (not ea.2 && not eb.2)) [
                  | inl q ↦ rw q (quiet-Answers ea eb _ _ sa' sb' ua ub q m)
                  | inr q ↦ rw q (
                      ancestor_loop-Answered fuel ea.0 ea.1 eb.0 eb.1 sa' sb'
                        (omega (arith, less_left ea eb _ _ ua ub q)))
                ])
              ])
      ]

  -- The search ends. It answers with an ancestor of both snapshots, and with none only where they
  -- have no ancestor in common.
  pub find_common_ancestor-Answers :
      (r : Option ObjectId) × (find_common_ancestor store a b ≡ some r) × Answers r
  unfolding find_common_ancestor
  find_common_ancestor-Answers = elim (Bool-cases (a == b)) [
    | inl p ↦ (
      some a,
      rw (find_common_ancestor, p) refl,
      (here, subst (λ z. Ancestor store b z) (sym ((eq_iff a b).0 p)) here),
    )
    | inr n ↦
        rw (find_common_ancestor, n)
          (answered (ancestor_loop store (2 * edges + 1) (a ∷ []) (a ∷ []) (b ∷ []) (b ∷ []))
            loop_answers)
  ]
    where
      edges : ℕ
      edges = length (parent_edges store)

      loop_answers :
          Answered (ancestor_loop store (2 * edges + 1) (a ∷ []) (a ∷ []) (b ∷ []) (b ∷ []))
      loop_answers =
          ancestor_loop-Answered (2 * edges + 1) (a ∷ []) (a ∷ []) (b ∷ []) (b ∷ [])
            (Side-begin store a) (Side-begin store b)
            (omega (
              arith,
              left-le-length (parent_edges store) (a ∷ []),
              left-le-length (parent_edges store) (b ∷ []),
            ))

      answered :
          (o : Option (Option ObjectId))
          → Answered o
          → (r : Option ObjectId) × (o ≡ some r) × Answers r
      answered none h = absurd h
      answered (some r) h = (r, refl, h)
