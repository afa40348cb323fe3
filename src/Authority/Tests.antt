-- ===== src/Authority/Tests.antt =====
-- Runs of the policy authority of src/acl/authority.rs, under a toy scheme in which one key accepts
-- every signature.
use bole.Base.{
  ℕ, suc, zero, Option, none, some, List, [], ◌∷◌, ◌≡◌, refl, Bytes, bytes, bytes_eq,
  bytes_discrete, bytes_cmp, set_insert, ℕ_discrete, ◌==◌, ok,
}
use bole.Base.Maps
use bole.Lattice
use bole.Object.{Object, policy, root, lattice, rule_set, HookSpec}
use bole.Refs.{ObjectId}
use bole.Search.{Objects}
use bole.Approval.{Ed25519, resolve_hook}
use bole.Authority.{
  TrustStore, RootSignature, SignatureStore, PolicyVerdict, accept, reject, chain_loop, chain_of,
  verify_root_signature, check_hooks, check_root, check_roots, verify_chain,
}
use bole.Authority.Verified.{IsRight, verify_chain-IsRight}

abbrev toy : Ed25519
toy = record {
  VerifyingKey = Bytes;
  from_bytes = λ key. some key;
  verify = λ key message sig. key == bytes "public";
}

abbrev zeros : ℕ → Bytes
zeros zero = []
zeros (suc k) = 0 ∷ zeros k

abbrev trust : TrustStore
trust = record { anchors = record { key_id = bytes "admin"; public_key = bytes "public" } ∷ [] }

abbrev rooted : Option ObjectId → List HookSpec → Object
rooted parent hooks =
    policy
      (root (record { lattice = bytes "l"; rules = bytes "u"; parent = parent; hooks = hooks }))

abbrev store : Objects
store =
    (bytes "p1", rooted none [])
    ∷ (bytes "p2", rooted (some (bytes "p1")) [])
    ∷ (
      bytes "p3",
      rooted (some (bytes "p1")) (record { kind = bytes "?"; pattern = []; params = [] } ∷ []),
    )
    ∷ (bytes "l", policy (lattice (Lattice.new (bytes "public" ∷ []) [])))
    ∷ (bytes "u", policy (rule_set (record { rules = [] })))
    ∷ []

abbrev signature_on : ObjectId → RootSignature
signature_on id = record { root_id = id; key_id = bytes "admin"; sig = zeros 64 }

abbrev sigs : SignatureStore
sigs =
    (bytes "p1", signature_on (bytes "p1"))
    ∷ (bytes "p2", signature_on (bytes "p2"))
    ∷ (bytes "p3", signature_on (bytes "p3"))
    ∷ []

accepts_signed_chain : verify_chain toy store (bytes "p2") sigs trust ≡ some (ok (accept 2))
unfolding verify_chain chain_of chain_loop check_roots check_root check_hooks verify_root_signature
    Maps.get set_insert bytes_cmp bytes_discrete ℕ_discrete
accepts_signed_chain = refl

rejects_unknown_hook :
    verify_chain toy store (bytes "p3") sigs trust ≡ some (ok (reject "unknown hook kind in root"))
unfolding verify_chain chain_of chain_loop check_roots check_root check_hooks resolve_hook
    verify_root_signature Maps.get set_insert bytes_cmp bytes_discrete ℕ_discrete
rejects_unknown_hook = refl

rejects_unsigned :
    verify_chain toy store (bytes "p2") [] trust ≡ some (ok (reject "unsigned policy root"))
unfolding verify_chain chain_of chain_loop check_roots check_root check_hooks verify_root_signature
    Maps.get set_insert bytes_cmp bytes_discrete ℕ_discrete
rejects_unsigned = refl

verify_chain-IsRight_example :
    (v : PolicyVerdict) × (verify_chain toy store (bytes "p2") sigs trust ≡ some (ok v))
    × IsRight toy store sigs trust (bytes "p2") v
verify_chain-IsRight_example = verify_chain-IsRight toy store sigs trust (bytes "p2")
