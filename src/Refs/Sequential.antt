-- ===== src/Refs/Sequential.antt =====
-- The specification of a transaction: its operations one after another on the store, by the store's
-- own methods, up to the first that is refused.
use bole.Base.{
  none, some, List, [], ◌∷◌, bytes_eq, option_eq, ◌==◌, if◌then◌else◌, storage, wrong_ref_kind,
  transaction_conflict, Result, ok, err, ◌>>=◌,
}
use bole.Base.Maps
use bole.Refs.{
  Refs, tag, timeline, ref_eq, Outcome, set_raw, delete_ref, create_tag, move_tag, create_timeline,
  advance_head, RefOp, create_tag_op, move_tag_op, create_timeline_op, advance_head_op, set_op,
  delete_op, expect_op, advance_head_if_op,
}

unfoldable pub perform : Refs → RefOp → Outcome
perform refs (create_tag_op name target message now) = create_tag refs name target message now
perform refs (move_tag_op name target) = move_tag refs name target
perform refs (create_timeline_op name head policy now kind expires_at) =
    create_timeline refs name head policy now kind expires_at
perform refs (advance_head_op name new_head) = advance_head refs name new_head
perform refs (set_op name value) = set_raw refs name value
perform refs (delete_op name) = delete_ref refs name
perform refs (expect_op name expected) =
    if Maps.get refs name == expected
    then (refs, ok tt)
    else (refs, err (transaction_conflict "precondition failed"))
perform refs (advance_head_if_op name expected_old new_head) = elim (Maps.get refs name) [
  | some (timeline t) ↦
      (if t.head == expected_old
        then advance_head refs name new_head
        else (refs, err (transaction_conflict "head is not the expected value")))
  | some (tag t) ↦ (refs, err (wrong_ref_kind "is a tag, not a timeline"))
  | none ↦ (refs, err (storage "ref not found"))
]

abbrev pub store_of : Outcome → Result Refs
store_of (refs, ok u) = ok refs
store_of (refs, err e) = err e

unfoldable pub sequential : Refs → List RefOp → Result Refs
sequential refs [] = ok refs
sequential refs (op ∷ ops) = do refs' ← store_of (perform refs op); sequential refs' ops
