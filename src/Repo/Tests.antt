-- ===== src/Repo/Tests.antt =====
-- A repository of two files and three refs, and the theorems at it.
use bole.Base.{
  ℕ, true, Option, none, some, List, [], ◌∷◌, bytes, bytes_eq, bytes_discrete, bytes_cmp,
  set_insert, collect_set, starts_with, ℕ_discrete, contains, ok, ◌≡◌, refl,
}
use bole.Base.Maps
use bole.Lattice.{Label, LabelLattice}
use bole.Rules.{LabelRule, LabelRuleSet}
use bole.Access.{Accessor, no_clearances}
use bole.Object.{snapshot, tree, Snapshot, blob_entry, tree_entry}
use bole.Refs.{ObjectId, timeline, Timeline, append, list, get_timeline}
use bole.Search.{Objects}
use bole.Merge.{Files}
use bole.Repo.{
  Repository, FilteredSnapshot, join_path, visible, visit_entries, walk_loop, tree_costs, tree_cost,
  walk_tree, get_snapshot_filtered, list_refs_served, ref_served, prune_timeline,
}
use bole.Repo.Walk.{Restricts}
use bole.Repo.Served.{list_refs_served-ref_served, get_snapshot_filtered-Restricts}
use bole.Repo.Prune.{Pruned, prune_timeline_cases}

abbrev pub low : Label
low = bytes "low"

abbrev pub mid : Label
mid = bytes "mid"

-- A lattice of three levels, `low` to `top`.
abbrev pub three_levels : LabelLattice
three_levels = record {
  labels = low ∷ mid ∷ bytes "top" ∷ [];
  cover = (low, mid) ∷ (mid, bytes "top") ∷ [];
}

abbrev pub plans_are_mid : LabelRuleSet
plans_are_mid = record { rules = LabelRule.path (bytes "plans/*") mid ∷ [] }

abbrev of_parents : ObjectId → List ObjectId → Snapshot
of_parents root parents = record {
  root = root;
  parents = parents;
  author = [];
  created_at = 1;
  message = [];
}

abbrev pub second : Snapshot
second = of_parents (bytes "t2") (bytes "s1" ∷ [])

-- `s1` has the file `a`, and `s2` the file `plans/b` beside it.
abbrev pub store : Objects
store =
    (bytes "s1", snapshot (of_parents (bytes "t1") []))
    ∷ (bytes "s2", snapshot second)
    ∷ (
      bytes "t1",
      tree (record { entries = (bytes "a", record { id = bytes "1"; kind = blob_entry }) ∷ [] }),
    )
    ∷ (
      bytes "t2",
      tree (record {
        entries =
            (bytes "a", record { id = bytes "1"; kind = blob_entry })
            ∷ (bytes "plans", record { id = bytes "p"; kind = tree_entry })
            ∷ [];
      }),
    )
    ∷ (
      bytes "p",
      tree (record { entries = (bytes "b", record { id = bytes "2"; kind = blob_entry }) ∷ [] }),
    )
    ∷ []

abbrev pub line : ObjectId → Option ℕ → Timeline
line head end = record {
  head = head;
  policy = append;
  created_at = 1;
  kind = bytes "persistent";
  expires_at = end;
}

abbrev pub repository : Repository
repository = record {
  objects = store;
  refs =
      (bytes "main", timeline (line (bytes "s1") none))
      ∷ (bytes "old", timeline (line (bytes "s2") (some 5)))
      ∷ (bytes "refs/collab/scoped/x", timeline (line (bytes "s1") none))
      ∷ [];
  lattice = three_levels;
  rules = plans_are_mid;
  hooks = [];
  audit = some [];
}

abbrev reader : Accessor
reader = record {
  lattice = three_levels;
  rules = plans_are_mid;
  clearances = no_clearances;
  actor = none;
}

abbrev whole : Files
whole = (bytes "a", bytes "1") ∷ (bytes "plans/b", bytes "2") ∷ []

whole_walk : walk_tree (λ p. true) store (bytes "t2") [] ≡ some (ok whole)
unfolding walk_tree walk_loop visit_entries tree_cost tree_costs join_path Maps.get Maps.insert
    bytes_discrete ℕ_discrete
whole_walk = refl

list_refs_served-ref_served_example :
    contains (list_refs_served repository [] reader) (bytes "main")
    ≡ ref_served repository (bytes "main") reader
list_refs_served-ref_served_example = list_refs_served-ref_served repository reader (bytes "main")

second_stored : Maps.get repository.objects (bytes "s2") ≡ some (snapshot second)
unfolding Maps.get bytes_discrete ℕ_discrete
second_stored = refl

get_snapshot_filtered-Restricts_example :
    (view : FilteredSnapshot) × (get_snapshot_filtered repository (bytes "s2") reader
      ≡ some (ok (some view)))
    × (view.parents ≡ second.parents)
    × Restricts (visible three_levels plans_are_mid reader) whole view.visible_paths
get_snapshot_filtered-Restricts_example =
    get_snapshot_filtered-Restricts repository (bytes "s2") second whole reader second_stored
      whole_walk

prunes : (prune_timeline repository (bytes "old") 5).1 ≡ ok true
unfolding prune_timeline get_timeline list starts_with collect_set set_insert bytes_cmp Maps.get
    Maps.keys bytes_discrete ℕ_discrete
prunes = refl

prune_timeline_cases_example :
    Pruned repository (bytes "old") 5 (prune_timeline repository (bytes "old") 5)
prune_timeline_cases_example = prune_timeline_cases repository (bytes "old") 5
