-- ===== src/Merge.antt =====
-- src/repo/merge.rs: the three-way comparison of two file maps with an ancestor's, and the search
-- for a common ancestor of two snapshots.
pub mod Rule
pub mod Diff
pub mod Side
pub mod Rounds
pub mod Ancestor
pub mod Tests
use bole.Base.{
  ℕ, zero, suc, ◌+◌, ◌*◌, Bool, true, false, ◌||◌, not, ◌&&◌, Option, none, some, List, [], ◌∷◌,
  ◌++◌, Bytes, bytes_eq, bytes_ord, option_eq, ◌==◌, if◌then◌else◌, contains, find, length,
  set_insert, collect_set,
}
use bole.Base.Maps
use bole.Base.Maps.{Map}
use bole.Object.{Object, snapshot, Snapshot}
use bole.Refs.{ObjectId}
use bole.Search.{Objects}

pub record MergeConflict : Type 0 where
  pub path : Bytes
  pub ours : Option ObjectId
  pub theirs : Option ObjectId

pub record MergeResult : Type 0 where
  pub merged : Map Bytes ObjectId
  pub conflicts : List MergeConflict

abbrev pub is_clean : MergeResult → Bool
is_clean r = elim r.conflicts [ [] ↦ true | c ∷ cs ↦ false ]

abbrev pub Files : Type 0
Files = Map Bytes ObjectId

abbrev take : MergeResult → Bytes → ObjectId → MergeResult
take r key id = record r { merged = Maps.insert r.merged key id }

abbrev conflict : MergeResult → Bytes → Option ObjectId → Option ObjectId → MergeResult
conflict r key our thr = record r {
  conflicts = r.conflicts ++ (record { path = key; ours = our; theirs = thr } ∷ []);
}

-- `match (anc, our, thr)`
unfoldable pub classify :
    MergeResult → Bytes → Option ObjectId → Option ObjectId → Option ObjectId → MergeResult
classify r key anc (some o) (some t) =
    if anc == some o
    then take r key t
    else (if anc == some t then take r key o else conflict r key (some o) (some t))
classify r key (some a) (some o) none = if o == a then r else conflict r key (some o) none
classify r key none (some o) none = take r key o
classify r key (some a) none (some t) = if t == a then r else conflict r key none (some t)
classify r key none none (some t) = take r key t
classify r key anc none none = r

-- One round of the loop over the keys.
unfoldable pub merge_key :
    MergeResult → Bytes → Option ObjectId → Option ObjectId → Option ObjectId → MergeResult
merge_key r key anc our thr =
    if our == thr
    then (elim our [ none ↦ r | some id ↦ take r key id ])
    else classify r key anc our thr

unfoldable pub merge_keys : Files → Files → Files → List Bytes → MergeResult → MergeResult
merge_keys ancestor ours theirs [] r = r
merge_keys ancestor ours theirs (key ∷ keys) r =
    merge_keys ancestor ours theirs keys
      (merge_key r key (Maps.get ancestor key) (Maps.get ours key) (Maps.get theirs key))

unfoldable pub three_way_diff : Files → Files → Files → MergeResult
three_way_diff ancestor ours theirs =
    merge_keys ancestor ours theirs
      (collect_set (Maps.keys ancestor ++ Maps.keys ours ++ Maps.keys theirs))
      (record { merged = []; conflicts = [] })

-- The frontier, the visited set, and whether a snapshot was found that is new.
abbrev pub Expansion : Type 0
Expansion = List ObjectId × List ObjectId × Bool

-- `for parent in snap.parents`
unfoldable pub push_parents : List ObjectId → Expansion → Expansion
push_parents [] e = e
push_parents (parent ∷ parents) (frontier, visited, found_new) = push_parents parents (
    if contains visited parent
    then (frontier, visited, found_new)
    else (frontier ++ (parent ∷ []), set_insert parent visited, true))

abbrev pub parents_of : Option Object → List ObjectId
parents_of (some (snapshot s)) = s.parents
parents_of _ = []

-- `for id in current`
unfoldable pub expand_each : Objects → List ObjectId → Expansion → Expansion
expand_each store [] e = e
expand_each store (id ∷ ids) e =
    expand_each store ids (push_parents (parents_of (Maps.get store id)) e)

abbrev pub expand_frontier : Objects → List ObjectId → List ObjectId → Expansion
expand_frontier store frontier visited = expand_each store frontier ([], visited, false)

abbrev pub common : List ObjectId → List ObjectId → Option ObjectId
common xs ys = find (contains ys) xs

-- The loop of `find_common_ancestor`; the outer `none` is the end of the fuel.
unfoldable pub ancestor_loop :
    Objects
    → ℕ
    → List ObjectId
    → List ObjectId
    → List ObjectId
    → List ObjectId
    → Option (Option ObjectId)
ancestor_loop store zero frontier_a visited_a frontier_b visited_b = none
ancestor_loop store (suc fuel) frontier_a visited_a frontier_b visited_b =
    let (frontier_a', visited_a', grew_a) = expand_frontier store frontier_a visited_a in
    let (frontier_b', visited_b', grew_b) = expand_frontier store frontier_b visited_b in
    let rest = ancestor_loop store fuel frontier_a' visited_a' frontier_b' visited_b' in
    elim (common visited_a' visited_b) [
      | some c ↦ some (some c)
      | none ↦ elim (common visited_b' visited_a') [
        | some c ↦ some (some c)
        | none ↦ if not grew_a && not grew_b then some none else rest
      ]
    ]

-- Every parent edge of the store.
unfoldable pub parent_edges : Objects → List ObjectId
parent_edges [] = []
parent_edges ((id, obj) ∷ store) = parents_of (some obj) ++ parent_edges store

unfoldable pub find_common_ancestor : Objects → ObjectId → ObjectId → Option (Option ObjectId)
find_common_ancestor store a b =
    if a == b
    then some (some a)
    else ancestor_loop store (2 * length (parent_edges store) + 1) (a ∷ []) (a ∷ []) (b ∷ [])
        (b ∷ [])
