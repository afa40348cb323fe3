-- ===== src/Authority.antt =====
-- src/acl/authority.rs: chains of policy roots and their verification. The
-- Ed25519 package is a parameter.
pub mod Chain
pub mod Verified
pub mod Tests
use bole.Base.{
  ℕ, zero, suc, ◌+◌, Bool, true, false, ◌&&◌, not, Option, none, some, is_some, List, [], ◌∷◌, ◌++◌,
  Bytes, bytes, bytes_eq, nat_eq, option_eq, ◌==◌, if◌then◌else◌, contains, find, length, Result,
  ok, err, ◌>>=◌, Error, policy_violation, String, set_insert, bytes_ord,
}
use bole.Base.Maps
use bole.Base.Maps.{Map}
use bole.Object.{Object, policy, root, PolicyRoot, HookSpec}
use bole.Refs.{ObjectId}
use bole.Search.{Objects}
use bole.Hook.{PolicyHook}
use bole.Approval.{Ed25519, resolve_hook}

pub record TrustAnchor : Type 0 where
  pub key_id : Bytes
  pub public_key : Bytes

pub record TrustStore : Type 0 where
  pub anchors : List TrustAnchor

pub record RootSignature : Type 0 where
  pub root_id : ObjectId
  pub key_id : Bytes
  pub sig : Bytes

abbrev pub SignatureStore : Type 0
SignatureStore = Map ObjectId RootSignature

abbrev pub insert_signature : SignatureStore → RootSignature → SignatureStore
insert_signature sigs sig = Maps.insert sigs sig.root_id sig

abbrev pub find_anchor : TrustStore → Bytes → Option TrustAnchor
find_anchor trust key_id = find (λ (a : TrustAnchor). a.key_id == key_id) trust.anchors

abbrev pub policy_root_message : ObjectId → Bytes
policy_root_message id = (bytes "bole-policy-root-v1" ++ (0 ∷ [])) ++ id

-- The reason of a rejection keeps its fixed text.
pub data PolicyVerdict : Type 0 where
  accept : ℕ → PolicyVerdict
  reject : String → PolicyVerdict

abbrev pub root_of : Option Object → Option PolicyRoot
root_of (some (policy (root r))) = some r
root_of _ = none

abbrev pub load_root : Objects → ObjectId → Option PolicyRoot
load_root store id = root_of (Maps.get store id)

-- The loop of `chain_of`; the outer `none` is the end of the fuel.
unfoldable pub chain_loop :
    Objects → ℕ → List ObjectId → List ObjectId → Option ObjectId → Option (Result (List ObjectId))
chain_loop store fuel seen chain none = some (ok chain)
chain_loop store zero seen chain (some id) = none
chain_loop store (suc fuel) seen chain (some id) =
    let next = λ (r : PolicyRoot).
      chain_loop store fuel (set_insert id seen) (chain ++ (id ∷ [])) r.parent in
    if contains seen id
    then some (err (policy_violation "policy chain has a cycle"))
    else elim (load_root store id) [
      | none ↦ some (err (policy_violation "policy root not found"))
      | some r ↦ next r
    ]

-- A round that goes on has seen one stored id more.
unfoldable pub chain_of : Objects → ObjectId → Option (Result (List ObjectId))
chain_of store tip = chain_loop store (length store + 1) [] [] (some tip)

module _ (ed : Ed25519) where
  abbrev pub verify_with_key : Option ed.VerifyingKey → ObjectId → Bytes → Bool
  verify_with_key none id sig = false
  verify_with_key (some vk) id sig = length sig == 64 && ed.verify vk (policy_root_message id) sig

  abbrev pub verify_by_anchor : Option TrustAnchor → ObjectId → RootSignature → Bool
  verify_by_anchor none id sig = false
  verify_by_anchor (some a) id sig = verify_with_key (ed.from_bytes a.public_key) id sig.sig

  unfoldable pub verify_root_signature : ObjectId → RootSignature → TrustStore → Bool
  verify_root_signature id sig trust =
      sig.root_id == id && verify_by_anchor (find_anchor trust sig.key_id) id sig

  abbrev resolved : Result PolicyHook → Bool
  resolved (ok hook) = true
  resolved (err e) = false

  -- Why a root is rejected, `none` where it is not: `for hook in &root.hooks`,
  unfoldable pub check_hooks : List HookSpec → Option String
  check_hooks [] = none
  check_hooks (hook ∷ hooks) =
      let rest = check_hooks hooks in
      if resolved (resolve_hook ed hook) then rest else some "unknown hook kind in root"

  -- `match sigs.get(id)`,
  abbrev pub check_signature : ObjectId → TrustStore → Option RootSignature → Option String
  check_signature id trust none = some "unsigned policy root"
  check_signature id trust (some sig) =
      if verify_root_signature id sig trust then none else some "bad signature on root"

  -- and the whole round of the loop of `verify_chain`.
  unfoldable pub check_root :
      Objects → SignatureStore → TrustStore → ObjectId → PolicyRoot → Option String
  check_root store sigs trust id r =
      let by_hooks = check_hooks r.hooks in
      let by_signature = check_signature id trust (Maps.get sigs id) in
      if not (is_some (Maps.get store r.lattice))
      then some "missing lattice for root"
      else (if not (is_some (Maps.get store r.rules))
          then some "missing rules for root"
          else (elim by_hooks [ some reason ↦ some reason | none ↦ by_signature ]))

  -- The loop of `verify_chain`. `none` is the panic of `expect`.
  unfoldable pub check_roots :
      Objects → SignatureStore → TrustStore → ℕ → List ObjectId → Option PolicyVerdict
  check_roots store sigs trust depth [] = some (accept depth)
  check_roots store sigs trust depth (id ∷ ids) =
      let rest = check_roots store sigs trust depth ids in
      elim (load_root store id) [
        | none ↦ none
        | some r ↦ elim (check_root store sigs trust id r) [
          | some reason ↦ some (reject reason)
          | none ↦ rest
        ]
      ]

  -- `match chain_of(…)`; only the memory backend's calls cannot fail otherwise.
  abbrev pub verify_found :
      Objects → SignatureStore → TrustStore → Result (List ObjectId) → Option (Result PolicyVerdict)
  verify_found store sigs trust (ok chain) =
      elim (check_roots store sigs trust (length chain) chain) [
        | none ↦ none
        | some v ↦ some (ok v)
      ]
  verify_found store sigs trust (err (policy_violation reason)) = some (ok (reject reason))
  verify_found store sigs trust (err e) = some (err e)

  unfoldable pub verify_chain :
      Objects → ObjectId → SignatureStore → TrustStore → Option (Result PolicyVerdict)
  verify_chain store tip sigs trust = elim (chain_of store tip) [
    | none ↦ none
    | some found ↦ verify_found store sigs trust found
  ]
