-- ===== src/Hook/Tests.antt =====
-- Runs of the hooks of src/acl/hook.rs.
use bole.Base.{
  true, none, List, [], ◌∷◌, ◌≡◌, refl, bytes, bytes_eq, bytes_discrete, bytes_cmp, set_insert,
  ℕ_discrete,
}
use bole.Base.Maps
use bole.Object.{Object, snapshot}
use bole.Access
use bole.Refs.{ObjectId, Refs, timeline, append, get_timeline}
use bole.Search.{Objects}
use bole.Merge.{parent_edges}
use bole.Hook.{
  allow, deny, PolicyContext, advance, PolicyHook, more_restrictive, scan_parents, ancestor_walk,
  is_ancestor, evaluate_from, evaluate, check_timeline, registry_new, push,
}

abbrev child_of : List ObjectId → Object
child_of parents =
    snapshot
      (record { root = bytes "t"; parents = parents; author = []; created_at = 1; message = [] })

abbrev history : Objects
history =
    (bytes "s1", child_of [])
    ∷ (bytes "s2", child_of (bytes "s1" ∷ []))
    ∷ (bytes "s3", child_of (bytes "s2" ∷ bytes "s1" ∷ []))
    ∷ []

abbrev refs : Refs
refs =
    (
      bytes "main",
      timeline (record {
        head = bytes "s1";
        policy = append;
        created_at = 1;
        kind = bytes "persistent";
        expires_at = none;
      }),
    )
    ∷ []

abbrev move : ObjectId → ObjectId → PolicyContext
move old_head new_head = record {
  event = advance (bytes "main") old_head new_head;
  accessor = Access.privileged;
  objects = history;
  refs = refs;
  now = 0;
}

abbrev deny_all : PolicyHook
deny_all = record { name = bytes "deny-all"; check = λ ctx. deny "nope"; deterministic = true }

forward_allowed : evaluate registry_new (move (bytes "s1") (bytes "s3")) ≡ allow
unfolding evaluate_from more_restrictive check_timeline get_timeline is_ancestor ancestor_walk
    scan_parents parent_edges Maps.get set_insert bytes_cmp bytes_discrete ℕ_discrete
forward_allowed = refl

backward_denied :
    evaluate registry_new (move (bytes "s3") (bytes "s1"))
    ≡ deny "new head is not a descendant of current head"
unfolding evaluate_from more_restrictive check_timeline get_timeline is_ancestor ancestor_walk
    scan_parents parent_edges Maps.get set_insert bytes_cmp bytes_discrete ℕ_discrete
backward_denied = refl

most_restrictive_composition :
    evaluate (push registry_new deny_all) (move (bytes "s1") (bytes "s3")) ≡ deny "nope"
unfolding evaluate_from more_restrictive check_timeline get_timeline is_ancestor ancestor_walk
    scan_parents parent_edges Maps.get set_insert bytes_cmp bytes_discrete ℕ_discrete
most_restrictive_composition = refl
