-- ===== src/Approval/Verdicts.antt =====
-- What the approval hook of src/acl/attestation.rs allows, and what resolve_hook of src/acl/hook.rs
-- makes of the number in its specification.
use bole.Base.{
  ℕ, ◌≤◌, ◌%◌, ◌^◌, true, false, some, List, Bytes, bytes, bytes_eq, eq_iff, ◌≡◌, ◌↔◌, ◌⊎◌, inl,
  inr, refl, sym, ap, ◌∙◌, subst, arith, ltb, Bool-cases, Result, ok, err,
}
use bole.Base.Maps
use bole.Glob.{glob_matches}
use bole.Object.{ApproverRegistry, Attestation, HookSpec}
use bole.Refs.{ObjectId}
use bole.Hook.{allow, PolicyContext, PolicyHook}
use bole.Approval.{
  Ed25519, load_approvers, load_attestations, count_valid_approvals, moved, tally, check_signed,
  signed_approval_hook, needed_of, resolve_hook,
}

ok_inj : {A : Type 0} {x y : A} → ok x ≡ ok y → x ≡ y
ok_inj p = cc

module _ (ed : Ed25519) where
  -- The approvers and the attestations load, and enough of them count.
  abbrev pub Enough : ℕ → PolicyContext → Type 0
  Enough needed ctx =
      (registry : ApproverRegistry) × (atts : List Attestation) × (load_approvers ctx.refs
          ctx.objects
        ≡ ok registry)
      × (load_attestations ctx.refs ctx.objects ≡ ok atts)
      × (needed
          ≤ count_valid_approvals ed atts registry (moved ed ctx.event).0 (moved ed ctx.event).1)

  tally-allow :
      (needed : ℕ) (target : Bytes) (head : ObjectId) (a : Result ApproverRegistry)
      (b : Result (List Attestation))
      → (tally ed needed target head a b ≡ allow) ↔ (
          (registry : ApproverRegistry) × (atts : List Attestation) × (a ≡ ok registry)
          × (b ≡ ok atts)
          × (needed ≤ count_valid_approvals ed atts registry target head))
  tally-allow needed target head (err e) b = (λ h. absurd (cc), λ (r, s, p, q, l). absurd (cc))
  tally-allow needed target head (ok r) (err e) = (λ h. absurd (cc), λ (t, s, p, q, l). absurd (cc))
  tally-allow needed target head (ok r) (ok s) = (
    λ h. (r, s, refl, refl, within h),
    λ (r', s', p, q, l). allowed (
        subst (λ z. needed ≤ count_valid_approvals ed s z target head) (sym (ok_inj p))
          (subst (λ z. needed ≤ count_valid_approvals ed z r' target head) (sym (ok_inj q)) l)),
  )
    where
      within :
          tally ed needed target head (ok r) (ok s) ≡ allow
          → needed ≤ count_valid_approvals ed s r target head
      within h = elim (Bool-cases (ltb (count_valid_approvals ed s r target head) needed)) [
        | inl p ↦ absurd (cc (rw (p, tally) at h))
        | inr n ↦ ground (arith, n)
      ]

      allowed :
          needed ≤ count_valid_approvals ed s r target head
          → tally ed needed target head (ok r) (ok s) ≡ allow
      allowed l = elim (Bool-cases (ltb (count_valid_approvals ed s r target head) needed)) [
        | inl p ↦ absurd (ground (arith, p, l))
        | inr n ↦ rw (n, tally) refl
      ]

  -- The hook allows a move exactly where its pattern does not match the target, or the approvers and
  -- the attestations load and the approvals that count reach the number needed.
  pub check_signed_iff :
      (pattern : Bytes) (needed : ℕ) (ctx : PolicyContext)
      → (check_signed ed pattern needed ctx ≡ allow) ↔ (
          (glob_matches pattern (moved ed ctx.event).0 ≡ false)
          ⊎ ((glob_matches pattern (moved ed ctx.event).0 ≡ true) × Enough needed ctx))
  unfolding check_signed
  check_signed_iff pattern needed ctx =
      elim (Bool-cases (glob_matches pattern (moved ed ctx.event).0)) [
        | inl p ↦
            let (forth, back) =
              tally-allow needed (moved ed ctx.event).0 (moved ed ctx.event).1
                (load_approvers ctx.refs ctx.objects) (load_attestations ctx.refs ctx.objects) in
            rw (p, check_signed)
              (λ h. inr (refl, forth h), λ h. elim h [ inl q ↦ absurd (cc) | inr (q, k) ↦ back k ])
        | inr n ↦ rw (n, check_signed) (λ h. inl refl, λ h. refl)
      ]

  -- A specification of signed approvals whose number is a multiple of 2 to the 32nd, zero or not,
  -- resolves to a hook that allows every move for which the approvers and the attestations load.
  pub resolve_hook-wraps :
      (spec : HookSpec) (n : ℕ) (ctx : PolicyContext) (registry : ApproverRegistry)
      (atts : List Attestation)
      → spec.kind ≡ bytes "signed-approval"
      → Maps.get spec.params (bytes "needed") ≡ some n
      → n % 2 ^ 32 ≡ 0
      → load_approvers ctx.refs ctx.objects ≡ ok registry
      → load_attestations ctx.refs ctx.objects ≡ ok atts
      → (hook : PolicyHook) × (resolve_hook ed spec ≡ ok hook) × (hook.check ctx ≡ allow)
  unfolding resolve_hook
  resolve_hook-wraps spec n ctx registry atts is_signed has wraps loads_a loads_b =
      let needed = needed_of ed (Maps.get spec.params (bytes "needed")) in
      let none_needed : needed ≡ 0 = ap (needed_of ed) has ∙ wraps in
      (
        signed_approval_hook ed spec.pattern needed,
        rw (resolve_hook, (eq_iff spec.kind (bytes "signed-approval")).1 is_signed) refl,
        (check_signed_iff spec.pattern needed ctx).1
            (elim (Bool-cases (glob_matches spec.pattern (moved ed ctx.event).0)) [
              | inl p ↦ inr (p, (registry, atts, loads_a, loads_b, omega (arith, none_needed)))
              | inr q ↦ inl q
            ]),
      )
