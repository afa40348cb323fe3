-- ===== src/Authority/Verified.antt =====
-- What `verify_chain` of src/acl/authority.rs accepts.
use bole.Base.{
  ℕ, true, Option, none, some, is_some, some-injective, List, [], ◌∷◌, String, ◌≡◌, ◌↔◌, inl, inr,
  refl, sym, ◌∙◌, subst, arith, bytes_eq, All, length, Bool-cases, Option-cases, Result, ok, err,
  policy_violation,
}
use bole.Base.Maps
use bole.Object.{PolicyRoot, HookSpec}
use bole.Refs.{ObjectId}
use bole.Search.{Objects}
use bole.Hook.{PolicyHook}
use bole.Approval.{Ed25519, resolve_hook}
use bole.Authority.{
  TrustStore, SignatureStore, RootSignature, PolicyVerdict, accept, reject, load_root, chain_of,
  verify_root_signature, resolved, check_hooks, check_signature, check_root, check_roots,
  verify_found, verify_chain,
}
use bole.Authority.Chain.{Lineage, step, Lineage-unique, Finds, chain_of-Finds}

module _ (ed : Ed25519) (store : Objects) (sigs : SignatureStore) (trust : TrustStore) where
  -- The hook's kind resolves.
  abbrev pub Resolves : HookSpec → Type 0
  Resolves spec = (hook : PolicyHook) × (resolve_hook ed spec ≡ ok hook)

  -- The lattice and the rules are stored, every hook resolves, and a trusted key signed the root.
  pub record IsVerified (id : ObjectId) (r : PolicyRoot) : Type 0 where
    pub lattice_present : is_some (Maps.get store r.lattice) ≡ true
    pub rules_present : is_some (Maps.get store r.rules) ≡ true
    pub hooks_resolve : All Resolves r.hooks
    pub signed :
        (sig : RootSignature) × (Maps.get sigs id ≡ some sig)
        × (verify_root_signature ed id sig trust ≡ true)

  resolved_iff : (spec : HookSpec) → (resolved ed (resolve_hook ed spec) ≡ true) ↔ Resolves spec
  resolved_iff spec = go (resolve_hook ed spec)
    where
      go : (r : Result PolicyHook) → (resolved ed r ≡ true) ↔ ((hook : PolicyHook) × (r ≡ ok hook))
      go (ok hook) = (λ h. (hook, refl), λ h. refl)
      go (err e) = (λ h. absurd (cc), λ (k, q). absurd (cc))

  check_hooks_iff : (hooks : List HookSpec) → (check_hooks ed hooks ≡ none) ↔ All Resolves hooks
  unfolding check_hooks
  check_hooks_iff [] = (λ h. tt, λ h. refl)
  check_hooks_iff (spec ∷ hooks) = elim (Bool-cases (resolved ed (resolve_hook ed spec))) [
    | inl p ↦
        let (forth, back) = check_hooks_iff hooks in
        rw (p, check_hooks) (λ h. ((resolved_iff spec).0 p, forth h), λ (r, rest). back rest)
    | inr n ↦
        rw (n, check_hooks)
          (λ h. absurd (cc), λ (r, rest). absurd (ground (arith, n, (resolved_iff spec).1 r)))
  ]

  check_signature_iff :
      (id : ObjectId) (o : Option RootSignature)
      → (check_signature ed id trust o ≡ none)
        ↔ ((sig : RootSignature) × (o ≡ some sig) × (verify_root_signature ed id sig trust ≡ true))
  check_signature_iff id none = (λ h. absurd (cc), λ (s, q, v). absurd (cc))
  check_signature_iff id (some sig) = elim (Bool-cases (verify_root_signature ed id sig trust)) [
    | inl p ↦ rw (p, check_signature) (λ h. (sig, refl, p), λ h. refl)
    | inr n ↦
        rw (n, check_signature)
          (
            λ h. absurd (cc),
            λ (s, q, v). absurd (
                cc (
                  subst (λ z. verify_root_signature ed id z trust ≡ true)
                    (sym (some-injective sig s q)) v)),
          )
  ]

  check_root_iff :
      (id : ObjectId) (r : PolicyRoot)
      → (check_root ed store sigs trust id r ≡ none) ↔ IsVerified id r
  unfolding check_root
  check_root_iff id r = elim (Bool-cases (is_some (Maps.get store r.lattice))) [
    | inr n ↦ rw (n, check_root) (λ h. absurd (cc), λ v. absurd (cc (sym n ∙ v.lattice_present)))
    | inl p ↦ elim (Bool-cases (is_some (Maps.get store r.rules))) [
      | inr n ↦ rw (p, n, check_root) (λ h. absurd (cc), λ v. absurd (cc (sym n ∙ v.rules_present)))
      | inl q ↦ elim (Option-cases (check_hooks ed r.hooks)) [
        | inr (reason, e) ↦
            rw (p, q, e, check_root)
              (
                λ h. absurd (cc),
                λ v. absurd (cc (sym e ∙ (check_hooks_iff r.hooks).1 v.hooks_resolve)),
              )
        | inl e ↦
            let (forth, back) = check_signature_iff id (Maps.get sigs id) in
            rw (p, q, e, check_root)
              (
                λ h. record {
                  lattice_present = p;
                  rules_present = q;
                  hooks_resolve = (check_hooks_iff r.hooks).0 e;
                  signed = forth h;
                },
                λ v. back v.signed,
              )
      ]
    ]
  ]

  abbrev pub Verified : ObjectId → Type 0
  Verified id = (r : PolicyRoot) × (load_root store id ≡ some r) × IsVerified id r

  -- A lineage of verified roots is accepted with its length, any other is rejected.
  abbrev Judges : ℕ → List ObjectId → Option PolicyVerdict → Type 0
  Judges depth ids none = ⊥
  Judges depth ids (some (accept d)) = (d ≡ depth) × All Verified ids
  Judges depth ids (some (reject reason)) = ¬ All Verified ids

  check_roots-Judges :
      (depth : ℕ) (c : Option ObjectId) (ids : List ObjectId)
      → Lineage store c ids
      → Judges depth ids (check_roots ed store sigs trust depth ids)
  unfolding check_roots
  check_roots-Judges depth c [] l = (refl, tt)
  check_roots-Judges depth none (x ∷ ids) l = elim l [ ]
  check_roots-Judges depth (some x) (y ∷ ids) (step {r = r} e l) =
      let rest = check_roots-Judges depth r.parent ids l in
      let (forth, back) = check_root_iff x r in
      elim (Option-cases (check_root ed store sigs trust x r)) [
        | inr (reason, q) ↦ rw (e, q, check_roots) (λ a. unverified a.0 q)
        | inl q ↦
            rw (e, q, check_roots)
              (extend (check_roots ed store sigs trust depth ids) rest (r, e, forth q))
      ]
    where
      unverified :
          {reason : String} → Verified x → check_root ed store sigs trust x r ≡ some reason → ⊥
      unverified (s, g, v) q =
          cc (
            sym q
            ∙ (check_root_iff x r).1 (subst (IsVerified x) (some-injective s r (sym g ∙ e)) v))

      extend :
          (o : Option PolicyVerdict) → Judges depth ids o → Verified x → Judges depth (x ∷ ids) o
      extend none j v = j
      extend (some (accept d)) (q, a) v = (q, (v, a))
      extend (some (reject reason)) j v = λ a. j a.1

  -- A verdict that is right: accepted with its depth, or there is no lineage of verified roots.
  abbrev pub IsRight : ObjectId → PolicyVerdict → Type 0
  IsRight tip (accept depth) =
      (chain : List ObjectId) × Lineage store (some tip) chain
      × (length chain ≡ depth)
      × All Verified chain
  IsRight tip (reject reason) =
      (chain : List ObjectId) → Lineage store (some tip) chain → ¬ All Verified chain

  -- The verification ends with a verdict: it accepts the tip exactly where its parents lead to a root
  -- without a parent and every root on the way is verified, with the number of the roots.
  pub verify_chain-IsRight :
      (tip : ObjectId)
      → (v : PolicyVerdict) × (verify_chain ed store tip sigs trust ≡ some (ok v)) × IsRight tip v
  unfolding verify_chain
  verify_chain-IsRight tip = go (chain_of store tip) refl (chain_of-Finds store tip)
    where
      judged :
          (chain : List ObjectId)
          → Lineage store (some tip) chain
          → (o : Option PolicyVerdict) → check_roots ed store sigs trust (length chain) chain ≡ o
          → Judges (length chain) chain o
          → (v : PolicyVerdict) × (verify_found ed store sigs trust (ok chain) ≡ some (ok v))
            × IsRight tip v
      judged chain l none q j = absurd j
      judged chain l (some (accept d)) q (e, a) =
          (accept d, rw (q, verify_found) refl, (chain, l, sym e, a))
      judged chain l (some (reject reason)) q j = (
        reject reason,
        rw (q, verify_found) refl,
        λ other k a. j (subst (All Verified) (Lineage-unique store (some tip) other chain k l) a),
      )

      go :
          (o : Option (Result (List ObjectId)))
          → chain_of store tip ≡ o
          → Finds store tip o
          → (v : PolicyVerdict) × (verify_chain ed store tip sigs trust ≡ some (ok v))
            × IsRight tip v
      go none q f = absurd f
      go (some (ok chain)) q f =
          rw (q, verify_chain)
            (judged chain f (check_roots ed store sigs trust (length chain) chain) refl
              (check_roots-Judges (length chain) (some tip) chain f))
      go (some (err (policy_violation reason))) q f =
          (reject reason, rw (q, verify_chain) refl, λ chain l a. f chain l)
      go (some (err e)) q f = absurd f
