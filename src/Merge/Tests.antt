-- ===== src/Merge/Tests.antt =====
-- Runs of the merge of src/repo/merge.rs.
use mathlib.Core.List.{Memᴰ}
use bole.Base.{
  Option, some, List, [], ◌∷◌, ◌≡◌, ◌↔◌, refl, Bytes, bytes, bytes_eq, bytes_discrete,
  option_discrete, bytes_cmp, set_insert, collect_set, ℕ_discrete,
}
use bole.Base.Maps
use bole.Object.{Object, snapshot}
use bole.Refs.{ObjectId}
use bole.Search.{Objects}
use bole.Merge.{
  MergeConflict, MergeResult, Files, classify, merge_key, merge_keys, three_way_diff, push_parents,
  expand_each, ancestor_loop, parent_edges, find_common_ancestor,
}
use bole.Merge.Rule.{taken}
use bole.Merge.Diff.{outcome, Clashes, three_way_diff-rule}
use bole.Merge.Ancestor.{Answers, find_common_ancestor-Answers}

abbrev base : Files
base = (bytes "a", bytes "1") ∷ (bytes "b", bytes "1") ∷ (bytes "c", bytes "1") ∷ []

-- `a` is changed on our side, `b` on both, `c` is deleted on theirs.
abbrev our_files : Files
our_files = (bytes "a", bytes "2") ∷ (bytes "b", bytes "2") ∷ (bytes "c", bytes "1") ∷ []

abbrev their_files : Files
their_files = (bytes "a", bytes "1") ∷ (bytes "b", bytes "3") ∷ []

merges : three_way_diff base our_files their_files ≡ record {
  merged = (bytes "a", bytes "2") ∷ [];
  conflicts = record { path = bytes "b"; ours = some (bytes "2"); theirs = some (bytes "3") } ∷ [];
}
unfolding three_way_diff merge_keys merge_key classify Maps.get Maps.insert Maps.keys collect_set
    set_insert bytes_cmp option_discrete bytes_discrete ℕ_discrete
merges = refl

three_way_diff-rule_example :
    ((p : Bytes)
      → Maps.get (MergeResult.merged (three_way_diff base our_files their_files)) p
        ≡ taken (outcome base our_files their_files p))
    × ((c : MergeConflict)
        → Memᴰ c (MergeResult.conflicts (three_way_diff base our_files their_files))
          ↔ Clashes base our_files their_files c)
three_way_diff-rule_example = three_way_diff-rule base our_files their_files

abbrev child_of : List ObjectId → Object
child_of parents =
    snapshot
      (record { root = bytes "t"; parents = parents; author = []; created_at = 1; message = [] })

-- `y` has the parents `x` and `b`, and `x` has the parent `b`.
abbrev history : Objects
history =
    (bytes "b", child_of [])
    ∷ (bytes "x", child_of (bytes "b" ∷ []))
    ∷ (bytes "y", child_of (bytes "x" ∷ bytes "b" ∷ []))
    ∷ []

-- The answer for `x` and `y` is `b`, although `x` is an ancestor of both and `b` one of `x`.
not_lowest : find_common_ancestor history (bytes "x") (bytes "y") ≡ some (some (bytes "b"))
unfolding find_common_ancestor ancestor_loop expand_each push_parents parent_edges Maps.get
    set_insert bytes_cmp bytes_discrete ℕ_discrete
not_lowest = refl

find_common_ancestor-Answers_example :
    (r : Option ObjectId) × (find_common_ancestor history (bytes "x") (bytes "y") ≡ some r)
    × Answers history (bytes "x") (bytes "y") r
find_common_ancestor-Answers_example = find_common_ancestor-Answers history (bytes "x") (bytes "y")
