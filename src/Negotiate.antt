-- ===== src/Negotiate.antt =====
-- src/sync/negotiate.rs: the edges of the object graph, and the objects that a sender owes a receiver.
pub mod Closure
pub mod Tests
use bole.Base.{Option, none, some, List, [], ◌∷◌, ◌++◌, map, Bytes, bytes_eq, contains}
use bole.Base.Maps
use bole.Object.{
  Object, snapshot, tree, env_overlay, policy, root, Snapshot, Tree, TreeEntry, EnvOverlay,
  EnvValue, plain, secret_ref, PolicyRoot,
}
use bole.Refs.{ObjectId}
use bole.Search.{Objects, extend, search_loop, search_fuel}

-- `filter_map` over the values of an overlay.
unfoldable pub secret_refs : List EnvValue → List ObjectId
secret_refs [] = []
secret_refs (plain text ∷ values) = secret_refs values
secret_refs (secret_ref id ∷ values) = id ∷ secret_refs values

-- `if let Some(parent) = r.parent { v.push(parent) }`
abbrev pub option_list : Option ObjectId → List ObjectId
option_list none = []
option_list (some id) = id ∷ []

unfoldable pub child_edges : Object → List ObjectId
child_edges (snapshot s) = s.root ∷ s.parents
child_edges (tree t) = map TreeEntry.id (Maps.values t.entries)
child_edges (env_overlay o) = secret_refs (Maps.values o.entries)
child_edges (policy (root r)) = r.lattice ∷ r.rules ∷ option_list r.parent
child_edges _ = []

-- `none` is the end of the fuel.
unfoldable pub missing_closure : Objects → List ObjectId → List ObjectId → Option (List ObjectId)
missing_closure store wants have =
    let stack = extend [] wants in
    elim (search_loop (contains have) child_edges store (search_fuel child_edges store stack) stack
      [] []) [ none ↦ none | some (seen, out) ↦ some out ]
