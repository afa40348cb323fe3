-- ===== src/Object.antt =====
-- src/object/*.rs, src/acl/policy_object.rs and the records of src/acl/attestation.rs: the kinds of stored objects. A payload that nothing
-- here looks into (a ciphertext, a signed record) is its serialised bytes.
use bole.Base.{ℕ, Option, List, Bytes}
use bole.Base.Maps.{Map}
use bole.Lattice.{LabelLattice}
use bole.Rules.{LabelRuleSet}
use bole.Access.{ClearanceSet}
use bole.Refs.{ObjectId}

pub record Blob : Type 0 where
  pub bytes : Bytes

pub data EntryKind : Type 0 where
  blob_entry tree_entry : EntryKind

pub record TreeEntry : Type 0 where
  pub id : ObjectId
  pub kind : EntryKind

pub record Tree : Type 0 where
  pub entries : Map Bytes TreeEntry

pub record Snapshot : Type 0 where
  pub root : ObjectId
  pub parents : List ObjectId
  pub author : Bytes
  pub created_at : ℕ
  pub message : Bytes

pub data EnvValue : Type 0 where
  plain : Bytes → EnvValue
  secret_ref : ObjectId → EnvValue

pub record EnvOverlay : Type 0 where
  pub entries : Map Bytes EnvValue

pub record HookSpec : Type 0 where
  pub kind : Bytes
  pub pattern : Bytes
  pub params : Map Bytes ℕ

pub record PolicyRoot : Type 0 where
  pub lattice : ObjectId
  pub rules : ObjectId
  pub parent : Option ObjectId
  pub hooks : List HookSpec

pub record ClearanceGrant : Type 0 where
  pub actor : Bytes
  pub clearances : ClearanceSet
  pub signature : Option Bytes

pub record Approver : Type 0 where
  pub key_id : Bytes
  pub public_key : Bytes

pub record ApproverRegistry : Type 0 where
  pub approvers : List Approver

pub record Attestation : Type 0 where
  pub target : Bytes
  pub head : ObjectId
  pub approver_key_id : Bytes
  pub sig : Bytes

pub data PolicyObject : Type 0 where
  lattice : LabelLattice → PolicyObject
  rule_set : LabelRuleSet → PolicyObject
  grant : ClearanceGrant → PolicyObject
  root : PolicyRoot → PolicyObject
  approvers : ApproverRegistry → PolicyObject
  attestation : Attestation → PolicyObject

pub data Object : Type 0 where
  blob : Blob → Object
  tree : Tree → Object
  snapshot : Snapshot → Object
  secret : Bytes → Object
  env_overlay : EnvOverlay → Object
  policy : PolicyObject → Object
  secret_v2 : Bytes → Object
  multi_recipient_secret : Bytes → Object
  collab : Bytes → Object
  change_proposal : Bytes → Object
  review_comment : Bytes → Object
  post : Bytes → Object
  repo_record : Bytes → Object
