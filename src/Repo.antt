-- ===== src/Repo.antt =====
-- src/repo/mod.rs and the events of src/audit.rs: what a repository holds, the walk of a tree that an
-- accessor sees, the refs that it is served, the policies that bind, and the pruning of timelines. The
-- calls of the access control store give its lattice and its rules, and do not fail.
pub mod Walk
pub mod Served
pub mod Prune
pub mod Tests
use bole.Base.{
  ℕ, zero, suc, ◌+◌, ◌-◌, Bool, true, false, ◌&&◌, ◌||◌, not, Option, none, some, is_some, List, [],
  ◌∷◌, ◌++◌, Bytes, bytes, bytes_eq, nat_eq, ◌==◌, if◌then◌else◌, leb, any, filter, starts_with,
  String, Error, storage, policy_violation, Result, ok, err, ◌>>=◌,
}
use bole.Base.Maps
use bole.Base.Maps.{Map}
use bole.Lattice.{LabelLattice, bottom}
use bole.Rules.{LabelRuleSet, label_for_path, label_for_timeline}
use bole.Access.{Accessor, ResourceRef, can_read}
use bole.Refs.{
  ObjectId, RefName, Ref, tag, timeline, Tag, Timeline, Refs, list, get_timeline, delete_ref,
  Outcome,
}
use bole.Refs.Name.{slash, is_empty}
use bole.Object.{
  Object, snapshot, tree, policy, root, Snapshot, Tree, TreeEntry, blob_entry, tree_entry,
  PolicyRoot, HookSpec,
}
use bole.Search.{Objects}
use bole.Merge.{Files}
use bole.Hook.{PolicyHook, registry_new, push}
use bole.Approval.{Ed25519, resolve_hook}

pub data AuditDecision : Type 0 where
  allowed : AuditDecision
  denied : String → AuditDecision
  approval_required : ℕ → String → AuditDecision

pub record AuditEvent : Type 0 where
  pub timeline : RefName
  pub actor : Option Bytes
  pub old_head : ObjectId
  pub new_head : ObjectId
  pub decision : AuditDecision

-- `audit` is what the sink has recorded, if there is one.
pub record Repository : Type 0 where
  pub objects : Objects
  pub refs : Refs
  pub lattice : LabelLattice
  pub rules : LabelRuleSet
  pub hooks : List HookSpec
  pub audit : Option (List AuditEvent)

abbrev pub max_tree_depth : ℕ
max_tree_depth = 256

unfoldable pub join_path : Bytes → Bytes → Bytes
join_path pfx name = if is_empty pfx then name else pfx ++ (slash ∷ name)

-- The test of a blob's path in the walk.
unfoldable pub visible : LabelLattice → LabelRuleSet → Accessor → Bytes → Bool
visible lattice rules accessor path =
    let label = label_for_path rules lattice path in
    label == bottom lattice || can_read accessor label (ResourceRef.path path)

-- A tree to walk, its path and its depth.
abbrev pub Item : Type 0
Item = ObjectId × Bytes × ℕ

abbrev pub entries_of : Option Object → Map Bytes TreeEntry
entries_of (some (tree t)) = t.entries
entries_of _ = []

-- `for (name, entry) in &tree.entries`
unfoldable pub visit_entries :
    (Bytes → Bool) → Bytes → ℕ → Map Bytes TreeEntry → List Item → Files → List Item × Files
visit_entries sees pfx depth [] stack out = (stack, out)
visit_entries sees pfx depth ((name, entry) ∷ entries) stack out =
    let path = join_path pfx name in
    elim entry.kind [
      | blob_entry ↦
          visit_entries sees pfx depth entries stack
            (if sees path then Maps.insert out path entry.id else out)
      | tree_entry ↦ visit_entries sees pfx depth entries ((entry.id, path, depth + 1) ∷ stack) out
    ]

-- The loop of `walk_tree_filtered`; the outer `none` is the end of the fuel.
unfoldable pub walk_loop : (Bytes → Bool) → Objects → ℕ → List Item → Files → Option (Result Files)
unfolding visit_entries
walk_loop sees store fuel [] out = some (ok out)
walk_loop sees store zero (item ∷ stack) out = none
walk_loop sees store (suc fuel) ((id, pfx, depth) ∷ stack) out =
    let (stack', out') = visit_entries sees pfx depth (entries_of (Maps.get store id)) stack out in
    let rest = walk_loop sees store fuel stack' out' in
    if leb max_tree_depth depth
    then some (err (storage "tree nesting exceeds maximum depth"))
    else rest

unfoldable pub tree_costs : (ObjectId → ℕ) → Map Bytes TreeEntry → ℕ
tree_costs cost [] = 0
tree_costs cost ((name, entry) ∷ entries) = elim entry.kind [
  | blob_entry ↦ tree_costs cost entries
  | tree_entry ↦ cost entry.id + tree_costs cost entries
]

-- The rounds that a tree takes, which stands so many levels above the depth that is refused.
unfoldable pub tree_cost : Objects → ℕ → ObjectId → ℕ
unfolding tree_costs
tree_cost store zero id = 1
tree_cost store (suc levels) id =
    suc (tree_costs (tree_cost store levels) (entries_of (Maps.get store id)))

unfoldable pub walk_tree : (Bytes → Bool) → Objects → ObjectId → Bytes → Option (Result Files)
unfolding walk_loop tree_cost
walk_tree sees store id prefix =
    walk_loop sees store (tree_cost store max_tree_depth id) ((id, prefix, 0) ∷ []) []

abbrev pub walk_tree_filtered :
    Objects → LabelLattice → LabelRuleSet → ObjectId → Bytes → Accessor → Option (Result Files)
walk_tree_filtered store lattice rules id prefix accessor =
    walk_tree (visible lattice rules accessor) store id prefix

pub record FilteredSnapshot : Type 0 where
  pub id : ObjectId
  pub author : Bytes
  pub created_at : ℕ
  pub message : Bytes
  pub parents : List ObjectId
  pub visible_paths : Files

abbrev pub project : ObjectId → Snapshot → Files → FilteredSnapshot
project id snap paths = record {
  id = id;
  author = snap.author;
  created_at = snap.created_at;
  message = snap.message;
  parents = snap.parents;
  visible_paths = paths;
}

unfoldable pub get_snapshot_filtered :
    Repository → ObjectId → Accessor → Option (Result (Option FilteredSnapshot))
get_snapshot_filtered r id accessor = elim (Maps.get r.objects id) [
  | some (snapshot snap) ↦
      elim (walk_tree_filtered r.objects r.lattice r.rules snap.root [] accessor) [
        | none ↦ none
        | some walked ↦ some (do paths ← walked; ok (some (project id snap paths)))
      ]
  | _ ↦ some (ok none)
]

unfoldable pub timeline_readable_with : LabelLattice → LabelRuleSet → RefName → Accessor → Bool
timeline_readable_with lattice rules name accessor =
    let label = label_for_timeline rules lattice name in
    label == bottom lattice || can_read accessor label (ResourceRef.timeline name)

unfoldable pub list_refs_filtered : Repository → Bytes → Accessor → List RefName
list_refs_filtered r prefix accessor =
    filter (λ n. timeline_readable_with r.lattice r.rules n accessor) (list r.refs prefix)

abbrev pub collab_scoped_prefix : Bytes
collab_scoped_prefix = bytes "refs/collab/scoped/"

unfoldable pub list_refs_served : Repository → Bytes → Accessor → List RefName
unfolding list_refs_filtered
list_refs_served r prefix accessor =
    filter (λ n. not (starts_with n collab_scoped_prefix)) (list_refs_filtered r prefix accessor)

unfoldable pub ref_served : Repository → RefName → Accessor → Bool
ref_served r name accessor =
    if starts_with name collab_scoped_prefix
    then false
    else timeline_readable_with r.lattice r.rules name accessor && is_some (Maps.get r.refs name)

abbrev pub policy_root_ref : RefName
policy_root_ref = bytes "refs/policy/root"

abbrev stored_root : ObjectId → Option Object → Result (Option (ObjectId × PolicyRoot))
stored_root target (some (policy (root r))) = ok (some (target, r))
stored_root target _ =
    err (policy_violation "refs/policy/root does not point at a stored policy root (fail-closed)")

unfoldable pub policy_root : Repository → Result (Option (ObjectId × PolicyRoot))
policy_root r = elim (Maps.get r.refs policy_root_ref) [
  | some (tag t) ↦ stored_root t.target (Maps.get r.objects t.target)
  | some (timeline t) ↦
      err (policy_violation "refs/policy/root is a timeline, not a policy-root tag (fail-closed)")
  | none ↦ ok none
]

module _ (ed : Ed25519) where
  -- `for spec in specs { reg.push(resolve_hook(spec)?); }`
  unfoldable pub push_hooks : List PolicyHook → List HookSpec → Result (List PolicyHook)
  push_hooks reg [] = ok reg
  push_hooks reg (spec ∷ specs) = do hook ← resolve_hook ed spec; push_hooks (push reg hook) specs

  abbrev root_hooks : Option (ObjectId × PolicyRoot) → List HookSpec
  root_hooks none = []
  root_hooks (some (id, r)) = r.hooks

  unfoldable pub policy_registry : Repository → Result (List PolicyHook)
  unfolding push_hooks policy_root
  policy_registry r = do
    reg ← push_hooks registry_new r.hooks
    pinned ← policy_root r
    push_hooks reg (root_hooks pinned)

-- `if tag.target == tl.head`
abbrev pub tags_head : Refs → ObjectId → RefName → Bool
tags_head refs head name = elim (Maps.get refs name) [ some (tag t) ↦ t.target == head | _ ↦ false ]

abbrev pub expired : Option ℕ → ℕ → Bool
expired none now = false
expired (some exp) now = leb exp now

unfoldable pub prune_timeline : Repository → RefName → ℕ → Repository × Result Bool
unfolding delete_ref
prune_timeline r name now = elim (get_timeline r.refs name) [
  | err e ↦ (r, err e)
  | ok none ↦ (r, ok false)
  | ok (some tl) ↦
      if not (expired tl.expires_at now)
      then (r, ok false)
      else if any (tags_head r.refs tl.head) (list r.refs [])
      then (r, ok false)
      else (record r { refs = (delete_ref r.refs name).0 }, ok true)
]
