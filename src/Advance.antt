-- ===== src/Advance.antt =====
-- advance_timeline_expecting and merge_timelines of src/repo/mod.rs, with the audit trail of
-- src/audit.rs. What stands before the commit is a chain of checks; a refusal carries the entry of
-- the audit trail, if the code records one, and the error.
pub mod Ends
pub mod Guards
pub mod Outcomes
pub mod Passes
pub mod Blind
pub mod Tests
use bole.Base.{
  Bool, true, false, not, Option, none, some, List, [], ◌∷◌, ◌++◌, Bytes, bytes_eq, ◌==◌,
  if◌then◌else◌, contains, filter, all, String, Error, storage, access_denied, policy_violation,
  approval_required, transaction_conflict, Result, ok, err,
}
use bole.Base.Checks.{Check, stalled, refused, passed, ◌>>=◌, ◌>>◌, demand, of_result, of_search}
use bole.Base.Maps
use bole.Access.{Accessor, ResourceRef, can_write, can_write_timeline, privileged}
use bole.Rules.{label_for_path, label_for_timeline}
use bole.Refs.{
  ObjectId, RefName, Refs, Timeline, get_timeline, advance_head_if_op, commit_transaction,
}
use bole.Object.{Object, snapshot, Snapshot}
use bole.Merge.{Files, MergeResult, three_way_diff, find_common_ancestor}
use bole.Hook.{
  PolicyDecision, allow, deny, requires_approval, PolicyContext, advance, PolicyHook, evaluate,
}
use bole.Approval.{Ed25519}
use bole.Repo.{
  Repository, AuditDecision, AuditEvent, allowed, denied, walk_tree_filtered, policy_registry,
}

-- The old head and the decision to record, and the error to return.
abbrev pub Refusal : Type 0
Refusal = Option (Option ObjectId × AuditDecision) × Error

abbrev pub unaudited : Error → Refusal
unaudited e = (none, e)

abbrev pub denial : Option ObjectId → String → Refusal
denial old reason = (some (old, denied reason), access_denied reason)

abbrev pub head_of : Option Timeline → Option ObjectId
head_of none = none
head_of (some tl) = some tl.head

unfoldable pub snapshot_of : Option Object → Check Refusal Snapshot
snapshot_of (some (snapshot s)) = passed s
snapshot_of _ = refused (unaudited (storage "snapshot not found"))

unfoldable pub found_timeline : Option Timeline → Check Refusal Timeline
found_timeline none = refused (unaudited (storage "timeline not found"))
found_timeline (some tl) = passed tl

abbrev pub as_expected : Option ObjectId → ObjectId → Bool
as_expected none head = true
as_expected (some expected) head = head == expected

module _ (r : Repository) where
  -- A walk by the accessor that is to read everything.
  unfoldable pub walk_all : ObjectId → Check Refusal Files
  walk_all id = do
    walked ← of_search (walk_tree_filtered r.objects r.lattice r.rules id [] privileged)
    of_result unaudited walked

  -- `tree_as_map` at a head, which may be no snapshot.
  unfoldable pub files_of : Option Object → Check Refusal Files
  unfolding walk_all
  files_of (some (snapshot s)) = walk_all s.root
  files_of _ = passed []

  unfoldable pub writes_path : Accessor → Bytes → Bool
  writes_path accessor path =
      can_write accessor (label_for_path r.rules r.lattice path) (ResourceRef.path path)

  -- The old head's paths that the new snapshot removes.
  abbrev pub dropped_paths : Files → Files → List Bytes
  dropped_paths old new = filter (λ p. not (contains (Maps.keys new) p)) (Maps.keys old)

  unfoldable pub verdict : ObjectId → PolicyDecision → Check Refusal (Unit {0})
  verdict old allow = passed tt
  verdict old (deny reason) = refused (some (some old, denied reason), policy_violation reason)
  verdict old (requires_approval reason needed) = refused (
    some (some old, AuditDecision.approval_required needed reason),
    approval_required reason needed,
  )

  module _ (ed : Ed25519) (name : RefName) (snapshot_id : ObjectId) (accessor : Accessor) where
    abbrev pub context : ObjectId → PolicyContext
    context old = record {
      event = advance name old snapshot_id;
      accessor = accessor;
      objects = r.objects;
      refs = r.refs;
      now = 0;
    }

    -- What is checked before the commit; the timeline that it is to move.
    unfoldable pub check_advance : Option ObjectId → Check Refusal Timeline
    unfolding walk_all writes_path snapshot_of found_timeline files_of verdict
    check_advance expected_old = do
      before ← of_result unaudited (get_timeline r.refs name)
      demand
          (can_write accessor (label_for_timeline r.rules r.lattice name)
            (ResourceRef.timeline name))
          (denial (head_of before) "write denied on timeline")
      snap ← snapshot_of (Maps.get r.objects snapshot_id)
      paths ← walk_all snap.root
      demand (all (writes_path accessor) (Maps.keys paths))
          (denial (head_of before) "write denied on path")
      current ← of_result unaudited (get_timeline r.refs name)
      tl ← found_timeline current
      demand (as_expected expected_old tl.head)
          (unaudited (transaction_conflict "timeline moved from the expected head"))
      old_paths ← files_of (Maps.get r.objects tl.head)
      demand (all (writes_path accessor) (dropped_paths old_paths paths))
          (denial (head_of before) "write denied on removed path")
      registry ← of_result unaudited (policy_registry ed r)
      verdict tl.head (evaluate registry (context tl.head))
      passed tl

    -- `audit_advance`: an entry where there is a sink and the timeline has a head.
    unfoldable pub audit_advance : Repository → Option ObjectId → AuditDecision → Repository
    audit_advance r' (some old) decision = record r' {
      audit = elim r'.audit [
        | none ↦ none
        | some events ↦ some (
            events
            ++ (record {
              timeline = name;
              actor = accessor.actor;
              old_head = old;
              new_head = snapshot_id;
              decision = decision;
            }
                ∷ []))
      ];
    }
    audit_advance r' none decision = r'

    abbrev pub refuse_with : Refusal → Repository × Result (Unit {0})
    unfolding audit_advance
    refuse_with (none, e) = (r, err e)
    refuse_with (some (old, decision), e) = (audit_advance r old decision, err e)

    abbrev pub conclude : ObjectId → Refs × Result (Unit {0}) → Repository × Result (Unit {0})
    unfolding audit_advance
    conclude old (refs, err e) = (record r { refs = refs }, err e)
    conclude old (refs, ok done) =
        (audit_advance (record r { refs = refs }) (some old) allowed, ok done)

    -- `none` is the end of a search's fuel.
    unfoldable pub advance_timeline_expecting :
        Option ObjectId → Option (Repository × Result (Unit {0}))
    unfolding check_advance audit_advance
    advance_timeline_expecting expected_old = elim (check_advance expected_old) [
      | stalled ↦ none
      | refused refusal ↦ some (refuse_with refusal)
      | passed tl ↦ some (
          conclude tl.head
            (commit_transaction r.refs (advance_head_if_op name tl.head snapshot_id ∷ [])))
    ]

    abbrev pub advance_timeline : Option (Repository × Result (Unit {0}))
    unfolding advance_timeline_expecting
    advance_timeline = advance_timeline_expecting none

  -- The files of an ancestor, if there is one.
  unfoldable pub ancestor_files : Option ObjectId → Check Refusal Files
  unfolding files_of
  ancestor_files none = passed []
  ancestor_files (some id) = files_of (Maps.get r.objects id)

  unfoldable pub merge_timelines : RefName → RefName → Accessor → Check Refusal MergeResult
  unfolding walk_all snapshot_of found_timeline ancestor_files
  merge_timelines source target accessor = do
    demand (can_write_timeline accessor target)
        (unaudited (access_denied "write denied on timeline"))
    at_source ← of_result unaudited (get_timeline r.refs source)
    source_tl ← found_timeline at_source
    at_target ← of_result unaudited (get_timeline r.refs target)
    target_tl ← found_timeline at_target
    ancestor ← of_search (find_common_ancestor r.objects source_tl.head target_tl.head)
    source_snap ← snapshot_of (Maps.get r.objects source_tl.head)
    target_snap ← snapshot_of (Maps.get r.objects target_tl.head)
    ancestor_tree ← ancestor_files ancestor
    source_tree ← walk_all source_snap.root
    target_tree ← walk_all target_snap.root
    passed (three_way_diff ancestor_tree target_tree source_tree)
