-- ===== src/Refs.antt =====
-- src/refs/{tag,timeline,ref_type,backend,memory,mod,transaction}.rs: named pointers, the store's
-- methods over the in-memory backend, and atomic transactions. A method returns the store after it
-- beside its result. The commit lock makes a commit one step.
pub mod Name
pub mod Commit
pub mod Sequential
pub mod Methods
pub mod Tests
use bole.Base.{
  ℕ, Bool, true, false, Option, none, some, List, [], ◌∷◌, Bytes, bytes_discrete, bytes_eq, nat_eq,
  option_eq, Eq, ◌==◌, if◌then◌else◌, Error, storage, wrong_ref_kind, transaction_conflict, Result,
  ok, err, ◌>>=◌, collect_set, bytes_ord, filter, starts_with, ℕ_discrete, option_discrete,
}
use bole.Base.Maps
use bole.Base.Maps.{Map}

abbrev pub ObjectId : Type 0
ObjectId = Bytes

-- A validated name: `Name.new` makes them.
abbrev pub RefName : Type 0
RefName = Bytes

pub record Tag : Type 0 where
  pub target : ObjectId
  pub created_at : ℕ
  pub message : Option Bytes

pub data TimelinePolicy : Type 0 where
  fast_forward_only append unrestricted : TimelinePolicy

pub record Timeline : Type 0 where
  pub head : ObjectId
  pub policy : TimelinePolicy
  pub created_at : ℕ
  pub kind : Bytes
  pub expires_at : Option ℕ

pub data Ref : Type 0 where
  tag : Tag → Ref
  timeline : Timeline → Ref

-- `derive(PartialEq)`
policy_discrete : Discrete TimelinePolicy
policy_discrete = hlevel

unfoldable pub ref_discrete : Discrete Ref
ref_discrete = hlevel (ℕ_discrete, bytes_discrete, option_discrete)

instance abbrev pub ref_eq : Eq Ref
ref_eq = record { dec = ref_discrete }

-- The in-memory backend, name to ref.
abbrev pub Refs : Type 0
Refs = Map RefName Ref

-- `MemoryRefBackend::list`: the names with a prefix, in ascending order.
unfoldable pub list : Refs → Bytes → List RefName
list refs prefix = collect_set (filter (λ n. starts_with n prefix) (Maps.keys refs))

-- What a method leaves and returns. A refusal leaves the store as it was.
abbrev pub Outcome : Type 0
Outcome = Refs × Result (Unit {0})

abbrev refuse : Refs → Error → Outcome
refuse refs e = (refs, err e)

abbrev done : Refs → Outcome
done refs = (refs, ok tt)

unfoldable pub set_raw : Refs → RefName → Ref → Outcome
set_raw refs name r = done (Maps.insert refs name r)

unfoldable pub delete_ref : Refs → RefName → Outcome
delete_ref refs name = done (Maps.remove refs name)

unfoldable pub create_tag : Refs → RefName → ObjectId → Option Bytes → ℕ → Outcome
create_tag refs name target message now = elim (Maps.get refs name) [
  | some r ↦ refuse refs (storage "ref already exists")
  | none ↦ set_raw refs name (tag (record { target = target; created_at = now; message = message }))
]

unfoldable pub move_tag : Refs → RefName → ObjectId → Outcome
move_tag refs name target = elim (Maps.get refs name) [
  | some (tag t) ↦ set_raw refs name (tag (record t { target = target }))
  | some (timeline t) ↦ refuse refs (wrong_ref_kind "is a timeline, not a tag")
  | none ↦ refuse refs (storage "ref not found")
]

unfoldable pub get_tag : Refs → RefName → Result (Option Tag)
get_tag refs name = elim (Maps.get refs name) [
  | some (tag t) ↦ ok (some t)
  | some (timeline t) ↦ err (wrong_ref_kind "is a timeline, not a tag")
  | none ↦ ok none
]

unfoldable pub create_timeline :
    Refs → RefName → ObjectId → TimelinePolicy → ℕ → Bytes → Option ℕ → Outcome
create_timeline refs name head policy now kind expires_at = elim (Maps.get refs name) [
  | some r ↦ refuse refs (storage "ref already exists")
  | none ↦ set_raw refs name (
      timeline (record {
        head = head;
        policy = policy;
        created_at = now;
        kind = kind;
        expires_at = expires_at;
      }))
]

unfoldable pub advance_head : Refs → RefName → ObjectId → Outcome
advance_head refs name new_head = elim (Maps.get refs name) [
  | some (timeline t) ↦ set_raw refs name (timeline (record t { head = new_head }))
  | some (tag t) ↦ refuse refs (wrong_ref_kind "is a tag, not a timeline")
  | none ↦ refuse refs (storage "ref not found")
]

unfoldable pub get_timeline : Refs → RefName → Result (Option Timeline)
get_timeline refs name = elim (Maps.get refs name) [
  | some (timeline t) ↦ ok (some t)
  | some (tag t) ↦ err (wrong_ref_kind "is a tag, not a timeline")
  | none ↦ ok none
]

pub data RefOp : Type 0 where
  create_tag_op : RefName → ObjectId → Option Bytes → ℕ → RefOp
  move_tag_op : RefName → ObjectId → RefOp
  create_timeline_op : RefName → ObjectId → TimelinePolicy → ℕ → Bytes → Option ℕ → RefOp
  advance_head_op : RefName → ObjectId → RefOp
  set_op : RefName → Ref → RefOp
  delete_op : RefName → RefOp
  expect_op : RefName → Option Ref → RefOp
  advance_head_if_op : RefName → ObjectId → ObjectId → RefOp

-- The final values so far: `none` is a tombstone.
abbrev pub Overlay : Type 0
Overlay = Map RefName (Option Ref)

-- `current`: the overlay's value of a name, or else the backend's.
unfoldable pub current : Refs → Overlay → RefName → Option Ref
current refs overlay name = elim (Maps.get overlay name) [ some v ↦ v | none ↦ Maps.get refs name ]

abbrev put_ref : Overlay → RefName → Ref → Result Overlay
put_ref overlay name r = ok (Maps.insert overlay name (some r))

-- One round of the loop of `resolve`.
unfoldable pub resolve_op : Refs → Overlay → RefOp → Result Overlay
resolve_op refs overlay (create_tag_op name target message now) = elim (current refs overlay name) [
  | some r ↦ err (storage "ref already exists")
  | none ↦
      put_ref overlay name (tag (record { target = target; created_at = now; message = message }))
]
resolve_op refs overlay (move_tag_op name target) = elim (current refs overlay name) [
  | some (tag t) ↦ put_ref overlay name (tag (record t { target = target }))
  | some (timeline t) ↦ err (wrong_ref_kind "is a timeline, not a tag")
  | none ↦ err (storage "ref not found")
]
resolve_op refs overlay (create_timeline_op name head policy now kind expires_at) =
    elim (current refs overlay name) [
      | some r ↦ err (storage "ref already exists")
      | none ↦ put_ref overlay name (
          timeline (record {
            head = head;
            policy = policy;
            created_at = now;
            kind = kind;
            expires_at = expires_at;
          }))
    ]
resolve_op refs overlay (advance_head_op name new_head) = elim (current refs overlay name) [
  | some (timeline t) ↦ put_ref overlay name (timeline (record t { head = new_head }))
  | some (tag t) ↦ err (wrong_ref_kind "is a tag, not a timeline")
  | none ↦ err (storage "ref not found")
]
resolve_op refs overlay (set_op name value) = put_ref overlay name value
resolve_op refs overlay (delete_op name) = ok (Maps.insert overlay name none)
resolve_op refs overlay (expect_op name expected) =
    if current refs overlay name == expected
    then ok overlay
    else err (transaction_conflict "precondition failed")
resolve_op refs overlay (advance_head_if_op name expected_old new_head) =
    elim (current refs overlay name) [
      | some (timeline t) ↦
          (if t.head == expected_old
            then put_ref overlay name (timeline (record t { head = new_head }))
            else err (transaction_conflict "head is not the expected value"))
      | some (tag t) ↦ err (wrong_ref_kind "is a tag, not a timeline")
      | none ↦ err (storage "ref not found")
    ]

-- `for op in ops { … }`
unfoldable pub resolve_ops : Refs → Overlay → List RefOp → Result Overlay
resolve_ops refs overlay [] = ok overlay
resolve_ops refs overlay (op ∷ ops) = do
  overlay' ← resolve_op refs overlay op
  resolve_ops refs overlay' ops

unfoldable pub resolve : Refs → List RefOp → Result (List (RefName × Option Ref))
unfolding resolve_ops resolve_op current
resolve refs ops = resolve_ops refs [] ops

-- `RefBackend::apply_atomic`, whose backend calls cannot fail in memory.
unfoldable pub apply_atomic : Refs → List (RefName × Option Ref) → Refs
apply_atomic refs [] = refs
apply_atomic refs ((name, some r) ∷ plan) = apply_atomic (Maps.insert refs name r) plan
apply_atomic refs ((name, none) ∷ plan) = apply_atomic (Maps.remove refs name) plan

abbrev settle : Refs → Result (List (RefName × Option Ref)) → Outcome
settle refs (ok plan) = done (apply_atomic refs plan)
settle refs (err e) = refuse refs e

unfoldable pub commit_transaction : Refs → List RefOp → Outcome
commit_transaction refs ops = settle refs (resolve refs ops)
