-- ===== src/Approval.antt =====
-- src/acl/attestation.rs: signed approvals, and the hook that counts them; resolve_hook of
-- src/acl/hook.rs. The Ed25519 package is a parameter.
pub mod Count
pub mod Messages
pub mod Verdicts
pub mod Loaded
pub mod Decided
pub mod Tests
use bole.Base.{
  ℕ, ◌-◌, ◌%◌, ◌^◌, Bool, true, false, ◌&&◌, Option, none, some, List, [], ◌∷◌, ◌++◌, Bytes, bytes,
  bytes_eq, bytes_ord, nat_eq, ◌==◌, if◌then◌else◌, ltb, find, length, set_insert, Result, ok, err,
  ◌>>=◌, policy_violation, Error,
}
use bole.Base.Maps
use bole.Glob.{glob_matches}
use bole.Object.{
  Object, policy, approvers, attestation, Approver, ApproverRegistry, Attestation, HookSpec,
}
use bole.Refs.{ObjectId, RefName, Refs, Tag, get_tag, list}
use bole.Search.{Objects}
use bole.Hook.{
  PolicyDecision, allow, deny, requires_approval, PolicyEvent, advance, merge, PolicyContext,
  PolicyHook, timeline_policy_hook,
}

-- `VerifyingKey::from_bytes` and `verify` of the ed25519_dalek package.
pub record Ed25519 : Type 1 where
  pub VerifyingKey : Type 0
  pub from_bytes : Bytes → Option VerifyingKey
  pub verify : VerifyingKey → Bytes → Bytes → Bool

abbrev pub approvers_ref : RefName
approvers_ref = bytes "refs/policy/approvers"

abbrev pub attestations_prefix : Bytes
attestations_prefix = bytes "refs/attestations/"

abbrev pub registry_of : Option Object → ApproverRegistry
registry_of (some (policy (approvers registry))) = registry
registry_of _ = record { approvers = [] }

unfoldable pub load_approvers : Refs → Objects → Result ApproverRegistry
load_approvers refs store = elim (get_tag refs approvers_ref) [
  | err e ↦ err e
  | ok none ↦ ok (record { approvers = [] })
  | ok (some t) ↦ ok (registry_of (Maps.get store (Tag.target t)))
]

abbrev pub attestation_of : Option Object → List Attestation
attestation_of (some (policy (attestation att))) = att ∷ []
attestation_of _ = []

-- The attestation that a name's tag leads to, if it does.
abbrev pub attestation_at : Objects → Option Tag → List Attestation
attestation_at store none = []
attestation_at store (some t) = attestation_of (Maps.get store (Tag.target t))

-- The loop of `load_attestations` over the names.
unfoldable pub load_each :
    Refs → Objects → List RefName → List Attestation → Result (List Attestation)
load_each refs store [] out = ok out
load_each refs store (name ∷ names) out = do
  t ← get_tag refs name
  load_each refs store names (out ++ attestation_at store t)

abbrev pub load_attestations : Refs → Objects → Result (List Attestation)
load_attestations refs store = load_each refs store (list refs attestations_prefix) []

abbrev pub find_approver : ApproverRegistry → Bytes → Option Approver
find_approver registry key_id = find (λ (a : Approver). a.key_id == key_id) registry.approvers

abbrev pub attestation_domain : Bytes
attestation_domain = bytes "bole-attestation-v1" ++ (0 ∷ [])

unfoldable pub attestation_message : Bytes → ObjectId → Bytes
attestation_message target head = attestation_domain ++ (target ++ (0 ∷ head))

module _ (ed : Ed25519) where
  abbrev pub verify_with : Option ed.VerifyingKey → Bytes → Bytes → Bool
  verify_with none message sig = false
  verify_with (some vk) message sig = length sig == 64 && ed.verify vk message sig

  abbrev pub verify_by : Option Approver → Attestation → Bool
  verify_by none att = false
  verify_by (some a) att =
      verify_with (ed.from_bytes a.public_key) (attestation_message att.target att.head) att.sig

  unfoldable pub verify_attestation : Attestation → ApproverRegistry → Bool
  verify_attestation att registry = verify_by (find_approver registry att.approver_key_id) att

  abbrev pub counts : ApproverRegistry → Bytes → ObjectId → Attestation → Bool
  counts registry target head att =
      att.target == target && (att.head == head && verify_attestation att registry)

  -- `for att in attestations`
  unfoldable pub collect_approvers :
      ApproverRegistry → Bytes → ObjectId → List Attestation → List Bytes → List Bytes
  collect_approvers registry target head [] keys = keys
  collect_approvers registry target head (att ∷ atts) keys =
      collect_approvers registry target head atts
        (if counts registry target head att then set_insert att.approver_key_id keys else keys)

  -- `approvers.len() as u32`
  unfoldable pub count_valid_approvals : List Attestation → ApproverRegistry → Bytes → ObjectId → ℕ
  count_valid_approvals atts registry target head =
      length (collect_approvers registry target head atts []) % 2 ^ 32

  abbrev pub moved : PolicyEvent → RefName × ObjectId
  moved (merge source target old_head result_head) = (target, result_head)
  moved (advance timeline old_head new_head) = (timeline, new_head)

  abbrev pub tally :
      ℕ → Bytes → ObjectId → Result ApproverRegistry → Result (List Attestation) → PolicyDecision
  tally needed target head (err e) atts = deny "approver load failed"
  tally needed target head (ok registry) (err e) = deny "attestation load failed"
  tally needed target head (ok registry) (ok atts) =
      let have = count_valid_approvals atts registry target head in
      if ltb have needed
      then requires_approval "needs signed approvals of head" (needed - have)
      else allow

  -- `SignedApprovalHook::check`
  unfoldable pub check_signed : Bytes → ℕ → PolicyContext → PolicyDecision
  check_signed pattern needed ctx =
      let (target, head) = moved ctx.event in
      if glob_matches pattern target
      then tally needed target head (load_approvers ctx.refs ctx.objects)
          (load_attestations ctx.refs ctx.objects)
      else allow

  abbrev pub signed_approval_hook : Bytes → ℕ → PolicyHook
  signed_approval_hook pattern needed = record {
    name = bytes "signed-approval";
    check = check_signed pattern needed;
    deterministic = false;
  }

  abbrev pub needed_of : Option ℕ → ℕ
  needed_of none = 1
  needed_of (some n) = n % 2 ^ 32

  unfoldable pub resolve_hook : HookSpec → Result PolicyHook
  resolve_hook spec =
      if spec.kind == bytes "signed-approval"
      then ok
          (signed_approval_hook spec.pattern (needed_of (Maps.get spec.params (bytes "needed"))))
      else (if spec.kind == bytes "timeline-policy"
          then ok timeline_policy_hook
          else err (policy_violation "unknown policy hook kind (fail-closed)"))
