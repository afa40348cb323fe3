-- ===== src/Repo/Walk.antt =====
-- walk_tree_filtered of src/repo/mod.rs: it ends, and what an accessor sees is what every walk finds,
-- less the paths that the accessor may not read.
use bole.Base.{
  ℕ, zero, suc, ◌+◌, ◌-◌, ◌≤◌, ◌<◌, Bool, true, false, Option, none, some, List, [], ◌∷◌, Bytes,
  bytes_eq, ◌==◌, eq_iff, if◌then◌else◌, leb, Result, ok, err, storage, ◌≡◌, refl, ap, arith, inl,
  inr, Bool-cases, ◌⊎◌,
}
use bole.Base.Maps
use bole.Base.Maps.{Map, get-insert}
use bole.Refs.{ObjectId}
use bole.Object.{TreeEntry, EntryKind, blob_entry, tree_entry}
use bole.Search.{Objects}
use bole.Merge.{Files}
use bole.Repo.{
  max_tree_depth, join_path, Item, entries_of, visit_entries, walk_loop, tree_costs, tree_cost,
  walk_tree,
}

kind_cases : (k : EntryKind) → (k ≡ blob_entry) ⊎ (k ≡ tree_entry)
kind_cases blob_entry = inl refl
kind_cases tree_entry = inr refl

-- `out` holds what `whole` holds at the paths that are seen.
abbrev pub Restricts : (Bytes → Bool) → Files → Files → Type 0
Restricts sees whole out =
    (p : Bytes) → Maps.get out p ≡ (if sees p then Maps.get whole p else none)

-- Two walks that end alike.
abbrev pub Alike : (Bytes → Bool) → Option (Result Files) → Option (Result Files) → Type 0
Alike sees (some (ok whole)) (some (ok out)) = Restricts sees whole out
Alike sees (some (err d)) (some (err e)) = d ≡ e
Alike sees none none = Unit
Alike sees _ _ = ⊥

pub Alike-ok :
    (sees : Bytes → Bool) (whole : Files) (o : Option (Result Files))
    → Alike sees (some (ok whole)) o
    → (out : Files) × (o ≡ some (ok out)) × Restricts sees whole out
Alike-ok sees whole none h = absurd h
Alike-ok sees whole (some (err e)) h = absurd h
Alike-ok sees whole (some (ok out)) h = (out, refl, h)

module _ (store : Objects) where
  abbrev levels : ℕ → ℕ
  levels depth = max_tree_depth - depth

  -- The rounds that the trees on the stack take.
  stack_cost : List Item → ℕ
  stack_cost [] = 0
  stack_cost ((id, pfx, depth) ∷ stack) = tree_cost store (levels depth) id + stack_cost stack

  stack_cost-visit_entries :
      (sees : Bytes → Bool) (pfx : Bytes) (depth : ℕ) (entries : Map Bytes TreeEntry)
      (stack : List Item) (out : Files)
      → stack_cost (visit_entries sees pfx depth entries stack out).0
        ≡ tree_costs (tree_cost store (levels (depth + 1))) entries + stack_cost stack
  unfolding visit_entries tree_costs stack_cost
  stack_cost-visit_entries sees pfx depth [] stack out = omega arith
  stack_cost-visit_entries sees pfx depth ((name, entry) ∷ entries) stack out = ground (
    arith,
    stack_cost-visit_entries sees pfx depth entries stack
        (if sees (join_path pfx name) then Maps.insert out (join_path pfx name) entry.id else out),
    stack_cost-visit_entries sees pfx depth entries
        ((entry.id, join_path pfx name, depth + 1) ∷ stack) out,
  )

  tree_cost_pos : (levels : ℕ) (id : ObjectId) → 0 < tree_cost store levels id
  unfolding tree_cost
  tree_cost_pos zero id = omega arith
  tree_cost_pos (suc levels) id = omega arith

  tree_cost-levels :
      (depth : ℕ) (id : ObjectId)
      → leb max_tree_depth depth ≡ false
      → tree_cost store (levels depth) id
        ≡ suc (tree_costs (tree_cost store (levels (depth + 1))) (entries_of (Maps.get store id)))
  unfolding tree_cost
  tree_cost-levels depth id more = ap (λ (n : ℕ). tree_cost store n id) one_less
    where
      one_less : levels depth ≡ suc (levels (depth + 1))
      one_less = ground (arith, more)

  walk_loop-Ends :
      (sees : Bytes → Bool) (fuel : ℕ) (stack : List Item) (out : Files)
      → stack_cost stack ≤ fuel
      → (r : Result Files) × (walk_loop sees store fuel stack out ≡ some r)
  unfolding walk_loop stack_cost
  walk_loop-Ends sees fuel [] out h = (ok out, refl)
  walk_loop-Ends sees zero ((id, pfx, depth) ∷ stack) out h =
      absurd (omega (arith, tree_cost_pos (levels depth) id))
  walk_loop-Ends sees (suc fuel) ((id, pfx, depth) ∷ stack) out h =
      elim (Bool-cases (leb max_tree_depth depth)) [
        | inl deep ↦ (err (storage "tree nesting exceeds maximum depth"), rw deep refl)
        | inr more ↦ rw more (
            walk_loop-Ends sees fuel
              (visit_entries sees pfx depth (entries_of (Maps.get store id)) stack out).0
              (visit_entries sees pfx depth (entries_of (Maps.get store id)) stack out).1
              (omega (
                arith,
                tree_cost-levels depth id more,
                stack_cost-visit_entries sees pfx depth (entries_of (Maps.get store id)) stack out,
              )))
      ]

  -- Every walk ends, with files or with the refusal of a tree that is too deep.
  pub walk_tree-Ends :
      (sees : Bytes → Bool) (id : ObjectId) (prefix : Bytes)
      → (r : Result Files) × (walk_tree sees store id prefix ≡ some r)
  unfolding walk_tree stack_cost
  walk_tree-Ends sees id prefix =
      walk_loop-Ends sees (tree_cost store max_tree_depth id) ((id, prefix, 0) ∷ []) []
        (omega arith)

  insert-Restricts :
      (sees : Bytes → Bool) (whole out : Files) (path : Bytes) (id : ObjectId)
      → Restricts sees whole out
      → Restricts sees
          (Maps.insert whole path id)
          (if sees path then Maps.insert out path id else out)
  insert-Restricts sees whole out path id h p = elim (Bool-cases (p == path)) [
    | inl e ↦
        let same = (eq_iff p path).0 e in
        ground (arith, e, h p, get-insert whole path id p, get-insert out path id p, ap sees same)
    | inr e ↦ ground (arith, e, h p, get-insert whole path id p, get-insert out path id p)
  ]

  visit_entries-Restricts :
      (sees : Bytes → Bool) (pfx : Bytes) (depth : ℕ) (entries : Map Bytes TreeEntry)
      (stack : List Item) (whole out : Files)
      → Restricts sees whole out
      → ((visit_entries sees pfx depth entries stack out).0
          ≡ (visit_entries (λ p. true) pfx depth entries stack whole).0)
        × Restricts sees
            (visit_entries (λ p. true) pfx depth entries stack whole).1
            (visit_entries sees pfx depth entries stack out).1
  unfolding visit_entries
  visit_entries-Restricts sees pfx depth [] stack whole out h = (refl, h)
  visit_entries-Restricts sees pfx depth ((name, entry) ∷ entries) stack whole out h =
      elim (kind_cases entry.kind) [
        | inl e ↦
            rw (e, visit_entries)
              (visit_entries-Restricts sees pfx depth entries stack
                (Maps.insert whole (join_path pfx name) entry.id)
                (if sees (join_path pfx name)
                  then Maps.insert out (join_path pfx name) entry.id
                  else out)
                (insert-Restricts sees whole out (join_path pfx name) entry.id h))
        | inr e ↦
            rw (e, visit_entries)
              (visit_entries-Restricts sees pfx depth entries
                ((entry.id, join_path pfx name, depth + 1) ∷ stack) whole out h)
      ]

  walk_loop-Alike :
      (sees : Bytes → Bool) (fuel : ℕ) (stack : List Item) (whole out : Files)
      → Restricts sees whole out
      → Alike sees
          (walk_loop (λ p. true) store fuel stack whole)
          (walk_loop sees store fuel stack out)
  unfolding walk_loop
  walk_loop-Alike sees fuel [] whole out h = h
  walk_loop-Alike sees zero (item ∷ stack) whole out h = tt
  walk_loop-Alike sees (suc fuel) ((id, pfx, depth) ∷ stack) whole out h =
      elim (Bool-cases (leb max_tree_depth depth)) [
        | inl deep ↦ rw deep refl
        | inr more ↦
            let entries = entries_of (Maps.get store id) in
            let (stacks, files) =
              visit_entries-Restricts sees pfx depth entries stack whole out h in
            rw (more, stacks)
              (walk_loop-Alike sees fuel (visit_entries (λ p. true) pfx depth entries stack whole).0
                (visit_entries (λ p. true) pfx depth entries stack whole).1
                (visit_entries sees pfx depth entries stack out).1 files)
      ]

  -- A filtered walk ends as the walk that sees everything does: with the same refusal, or with the
  -- files of that walk less those at the paths that are not seen.
  pub walk_tree-Alike :
      (sees : Bytes → Bool) (id : ObjectId) (prefix : Bytes)
      → Alike sees (walk_tree (λ p. true) store id prefix) (walk_tree sees store id prefix)
  unfolding walk_tree Maps.get
  walk_tree-Alike sees id prefix =
      walk_loop-Alike sees (tree_cost store max_tree_depth id) ((id, prefix, 0) ∷ []) [] []
        (λ p. elim (Bool-cases (sees p)) [ inl e ↦ rw e refl | inr e ↦ rw e refl ])
