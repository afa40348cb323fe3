-- ===== src/Gc.antt =====
-- src/repo/mod.rs, `gc` and what it calls, and the default `sweep` of src/store/backend.rs over the
-- in-memory backend of src/store/memory.rs, whose objects are read through the codec.
pub mod Reached
pub mod Policy
pub mod Again
pub mod Tests
use bole.Base.{
  ℕ, zero, suc, Option, none, some, List, [], ◌∷◌, ◌++◌, map, Bytes, bytes_eq, contains,
  if◌then◌else◌, filter, length, not, Bool, false,
}
use bole.Base.Maps
use bole.Object.{Object, snapshot, tree, env_overlay, Snapshot, Tree, TreeEntry, EnvOverlay}
use bole.Negotiate.{secret_refs}
use bole.Refs.{ObjectId, Ref, Refs, RefName, tag, timeline, Tag, Timeline, list}
use bole.Search.{Objects, extend, search_loop, search_fuel}

-- What `mark_reachable` pushes for an object.
unfoldable pub marks : Object → List ObjectId
marks (snapshot s) = s.root ∷ s.parents
marks (tree t) = map TreeEntry.id (Maps.values t.entries)
marks (env_overlay o) = secret_refs (Maps.values o.entries)
marks _ = []

-- `none` is the end of the fuel.
unfoldable pub mark_reachable : Objects → List ObjectId → Option (List ObjectId)
mark_reachable store roots =
    let stack = extend [] roots in
    elim (search_loop (λ id. false) marks store (search_fuel marks store stack) stack [] []) [
      | none ↦ none
      | some (reachable, found) ↦ some reachable
    ]

abbrev pub targets : Option Ref → List ObjectId
targets (some (timeline t)) = t.head ∷ []
targets (some (tag t)) = t.target ∷ []
targets none = []

-- The loop of `gc` over the names.
unfoldable pub push_targets : Refs → List RefName → List ObjectId → List ObjectId
push_targets refs [] roots = roots
push_targets refs (name ∷ names) roots =
    push_targets refs names (roots ++ targets (Maps.get refs name))

abbrev pub gc_roots : Refs → List ObjectId → List ObjectId
gc_roots refs extra_roots = push_targets refs (list refs []) extra_roots

-- The loop of `sweep` over the listed ids: the store after it, and the number removed.
unfoldable pub sweep_loop : List ObjectId → List ObjectId → Objects → ℕ → Objects × ℕ
sweep_loop reachable [] store removed = (store, removed)
sweep_loop reachable (id ∷ ids) store removed =
    let delete = sweep_loop reachable ids (Maps.remove store id) (suc removed) in
    let keep = sweep_loop reachable ids store removed in
    if contains reachable id then keep else delete

abbrev pub sweep : Objects → List ObjectId → Objects × ℕ
sweep store reachable = sweep_loop reachable (Maps.keys store) store 0

unfoldable pub gc : Refs → Objects → List ObjectId → Option (Objects × ℕ)
gc refs store extra_roots = elim (mark_reachable store (gc_roots refs extra_roots)) [
  | none ↦ none
  | some reachable ↦ some (sweep store reachable)
]

unfoldable pub unreachable_object_count : Refs → Objects → List ObjectId → Option ℕ
unreachable_object_count refs store extra_roots =
    elim (mark_reachable store (gc_roots refs extra_roots)) [
      | none ↦ none
      | some reachable ↦
          some (length (filter (λ id. not (contains reachable id)) (Maps.keys store)))
    ]
