-- ===== src/Approval/Tests.antt =====
-- Runs of the approvals of src/acl/attestation.rs, under a toy scheme in which one key accepts
-- every signature.
use bole.Base.{
  ℕ, suc, zero, ◌%◌, ◌^◌, true, none, some, List, [], ◌∷◌, ◌≡◌, ◌↔◌, refl, Bytes, bytes, bytes_eq,
  bytes_discrete, bytes_cmp, set_insert, collect_set, starts_with, ℕ_discrete, ◌==◌, contains,
  length, ok,
}
use bole.Base.Maps
use bole.Access
use bole.Glob.{glob_matches}
use bole.Object.{policy, approvers, attestation, Approver, ApproverRegistry, Attestation, HookSpec}
use bole.Refs.{Refs, tag, get_tag, list}
use bole.Search.{Objects}
use bole.Hook.{allow, PolicyContext, advance, PolicyHook}
use bole.Approval.{
  Ed25519, load_approvers, load_each, load_attestations, verify_attestation, collect_approvers,
  count_valid_approvals, check_signed, resolve_hook, approvers_ref,
}
use bole.Approval.Count.{Ascending, ApprovedBy, count_valid_approvals-Ascending}
use bole.Approval.Messages.{attestation_message-inj}
use bole.Approval.Verdicts.{resolve_hook-wraps}
use bole.Approval.Decided.{Decided}

abbrev zeros : ℕ → Bytes
zeros zero = []
zeros (suc k) = 0 ∷ zeros k

abbrev toy : Ed25519
toy = record {
  VerifyingKey = Bytes;
  from_bytes = λ key. some key;
  verify = λ key message sig. key == bytes "public";
}

abbrev alice : Approver
alice = record { key_id = bytes "alice"; public_key = bytes "public" }

abbrev registry : ApproverRegistry
registry = record { approvers = alice ∷ [] }

abbrev approval : Attestation
approval = record {
  target = bytes "main";
  head = bytes "s2";
  approver_key_id = bytes "alice";
  sig = zeros 64;
}

abbrev store : Objects
store = (bytes "r", policy (approvers registry)) ∷ (bytes "a", policy (attestation approval)) ∷ []

abbrev refs : Refs
refs =
    (approvers_ref, tag (record { target = bytes "r"; created_at = 0; message = none }))
    ∷ (
      bytes "refs/attestations/a",
      tag (record { target = bytes "a"; created_at = 0; message = none }),
    )
    ∷ []

abbrev move : PolicyContext
move = record {
  event = advance (bytes "main") (bytes "s1") (bytes "s2");
  accessor = Access.privileged;
  objects = store;
  refs = refs;
  now = 0;
}

loads_approvers : load_approvers refs store ≡ ok registry
unfolding load_approvers get_tag Maps.get bytes_discrete ℕ_discrete
loads_approvers = refl

loads_attestations : load_attestations refs store ≡ ok (approval ∷ [])
unfolding load_each list get_tag Maps.get Maps.keys collect_set set_insert bytes_cmp starts_with
    bytes_discrete ℕ_discrete
loads_attestations = refl

-- The same approval twice counts once.
counts_once :
    count_valid_approvals toy (approval ∷ approval ∷ []) registry (bytes "main") (bytes "s2") ≡ 1
unfolding count_valid_approvals collect_approvers verify_attestation set_insert bytes_cmp
    bytes_discrete ℕ_discrete
counts_once = refl

wrong_head : count_valid_approvals toy (approval ∷ []) registry (bytes "main") (bytes "s3") ≡ 0
unfolding count_valid_approvals collect_approvers verify_attestation set_insert bytes_cmp
    bytes_discrete ℕ_discrete
wrong_head = refl

count_valid_approvals-Ascending_example :
    (keys : List Bytes) × Ascending keys
    × ((key : Bytes)
        → (contains keys key ≡ true)
          ↔ ApprovedBy toy registry (bytes "main") (bytes "s2") (approval ∷ approval ∷ []) key)
    × (count_valid_approvals toy (approval ∷ approval ∷ []) registry (bytes "main") (bytes "s2")
        ≡ length keys % 2 ^ 32)
count_valid_approvals-Ascending_example =
    count_valid_approvals-Ascending toy registry (bytes "main") (bytes "s2")
      (approval ∷ approval ∷ [])

attestation_message-inj_example : (bytes "main" ≡ bytes "main") × (bytes "s2" ≡ bytes "s2")
attestation_message-inj_example =
    attestation_message-inj (bytes "main") (bytes "main") (bytes "s2") (bytes "s2") refl refl

-- One valid approval is enough.
one_allows : check_signed toy (bytes "main") 1 move ≡ allow
unfolding check_signed load_approvers load_each list get_tag Maps.get Maps.keys collect_set
    set_insert bytes_cmp starts_with glob_matches count_valid_approvals collect_approvers
    verify_attestation bytes_discrete ℕ_discrete
one_allows = refl

abbrev spec : HookSpec
spec = record {
  kind = bytes "signed-approval";
  pattern = bytes "main";
  params = (bytes "needed", 4294967296) ∷ [];
}

params_needed : Maps.get (HookSpec.params spec) (bytes "needed") ≡ some 4294967296
unfolding Maps.get bytes_discrete ℕ_discrete
params_needed = refl

resolve_hook-wraps_example :
    (hook : PolicyHook) × (resolve_hook toy spec ≡ ok hook) × (hook.check move ≡ allow)
resolve_hook-wraps_example =
    resolve_hook-wraps toy spec 4294967296 move registry (approval ∷ []) refl params_needed refl
      loads_approvers loads_attestations
