-- ===== src/Merge/Rounds.antt =====
-- What the rounds of `find_common_ancestor` of src/repo/merge.rs use up: the parents not visited yet.
use bole.Base.{
  ℕ, suc, ◌≤◌, true, false, not, some, List, [], ◌∷◌, ◌++◌, ◌≡◌, ◌⊎◌, inl, inr, refl, sym, ap,
  subst, arith, bytes_eq, bytes_ord, ◌==◌, eq_iff, contains, contains-append, contains_head,
  Bool-cases, set_insert, contains-set_insert, length, filter,
}
use bole.Base.Maps
use bole.Refs.{ObjectId}
use bole.Search.{Objects}
use bole.Merge.{Expansion, push_parents, parents_of, expand_each, expand_frontier, parent_edges}

-- The parent edges to snapshots that are not visited.
pub left : List ObjectId → List ObjectId → ℕ
left edges visited = length (filter (λ p. not (contains visited p)) edges)

left_mono :
    (edges visited : List ObjectId) (p : ObjectId)
    → left edges (set_insert p visited) ≤ left edges visited
unfolding left
left_mono [] visited p = omega arith
left_mono (x ∷ edges) visited p =
    ground (arith, left_mono edges visited p, contains-set_insert p visited x)

pub left-set_insert :
    (edges visited : List ObjectId) (p : ObjectId)
    → contains edges p ≡ true
    → contains visited p ≡ false
    → suc (left edges (set_insert p visited)) ≤ left edges visited
unfolding left
left-set_insert [] visited p m n = absurd (cc)
left-set_insert (x ∷ edges) visited p m n = elim (Bool-cases (p == x)) [
  | inl q ↦ ground (
    arith,
    left_mono edges visited p,
    contains-set_insert p visited x,
    ap (contains visited) ((eq_iff p x).0 q),
    (eq_iff x p).1 (sym ((eq_iff p x).0 q)),
    n,
  )
  | inr k ↦ ground (
    arith,
    left-set_insert edges visited p (ground (arith, m)) n,
    contains-set_insert p visited x,
  )
]

pub contains-parent_edges :
    (store : Objects) (id p : ObjectId)
    → contains (parents_of (Maps.get store id)) p ≡ true
    → contains (parent_edges store) p ≡ true
unfolding Maps.get parent_edges
contains-parent_edges [] id p m = absurd (cc)
contains-parent_edges ((k, obj) ∷ store) id p m = elim (Bool-cases (id == k)) [
  | inl q ↦
      let found : contains (parents_of (some obj)) p ≡ true =
        subst (λ o. contains (parents_of o) p ≡ true) (head_found q) m in
      ground (arith, contains-append (parents_of (some obj)) (parent_edges store) p)
  | inr n ↦
      let found : contains (parents_of (Maps.get store id)) p ≡ true =
        subst (λ o. contains (parents_of o) p ≡ true) (tail_found n) m in
      ground (
        arith,
        contains-append (parents_of (some obj)) (parent_edges store) p,
        contains-parent_edges store id p,
      )
]
  where
    head_found : (id == k) ≡ true → Maps.get ((k, obj) ∷ store) id ≡ some obj
    head_found q = ground arith

    tail_found : (id == k) ≡ false → Maps.get ((k, obj) ∷ store) id ≡ Maps.get store id
    tail_found n = ground arith

-- So far: a snapshot was found and an edge was used, or nothing has changed.
abbrev pub Used : List ObjectId → ℕ → Expansion → Type 0
Used edges bound (frontier, visited, found_new) =
    ((found_new ≡ true) × (suc (left edges visited) ≤ bound))
    ⊎ ((found_new ≡ false) × (frontier ≡ []) × (left edges visited ≤ bound))

push_parents-Used :
    (edges extra : List ObjectId) (bound : ℕ) (e : Expansion)
    → ((p : ObjectId) → contains extra p ≡ true → contains edges p ≡ true)
    → Used edges bound e
    → Used edges bound (push_parents extra e)
unfolding push_parents
push_parents-Used edges [] bound e inside u = u
push_parents-Used edges (p ∷ extra) bound (frontier, visited, b) inside u =
    let rest : (q : ObjectId) → contains extra q ≡ true → contains edges q ≡ true =
      λ q m. inside q (ground (arith, m)) in
    let now : left edges visited ≤ bound = elim u [
      | inl (f, l) ↦ omega arith
      | inr (f, g, l) ↦ l
    ] in
    elim (Bool-cases (contains visited p)) [
      | inl m ↦
          rw (m, push_parents) (push_parents-Used edges extra bound (frontier, visited, b) rest u)
      | inr n ↦
          rw (n, push_parents)
            (push_parents-Used edges extra bound (frontier ++ (p ∷ []), set_insert p visited, true)
              rest
              (inl (
                refl,
                omega (arith, left-set_insert edges visited p (inside p (contains_head p extra)) n),
              )))
    ]

expand_each-Used :
    (store : Objects) (current : List ObjectId) (bound : ℕ) (e : Expansion)
    → Used (parent_edges store) bound e
    → Used (parent_edges store) bound (expand_each store current e)
unfolding expand_each
expand_each-Used store [] bound e u = u
expand_each-Used store (id ∷ current) bound e u =
    expand_each-Used store current bound (push_parents (parents_of (Maps.get store id)) e) (
      push_parents-Used (parent_edges store) (parents_of (Maps.get store id)) bound e
        (λ p m. contains-parent_edges store id p m) u)

-- A round that finds a snapshot uses an edge, and one that does not leaves an empty frontier.
pub expand_frontier-Used :
    (store : Objects) (frontier visited : List ObjectId)
    → Used
        (parent_edges store)
        (left (parent_edges store) visited)
        (expand_frontier store frontier visited)
expand_frontier-Used store frontier visited =
    expand_each-Used store frontier (left (parent_edges store) visited) ([], visited, false)
      (inr (refl, refl, omega arith))

pub left-le-length : (edges visited : List ObjectId) → left edges visited ≤ length edges
unfolding left
left-le-length [] visited = omega arith
left-le-length (x ∷ edges) visited = ground (arith, left-le-length edges visited)
