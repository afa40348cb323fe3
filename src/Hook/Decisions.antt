-- ===== src/Hook/Decisions.antt =====
-- What the registry of src/acl/hook.rs decides from its hooks, and what the built-in hook decides.
use mathlib.Core.List.{Memᴰ}
use mathlib.Core.List.Memᴰ
use bole.Base.{
  ◌≤◌, Bool, true, false, Option, none, some, List, [], ◌∷◌, Bytes, ◌≡◌, ◌↔◌, ◌⊎◌, inl, inr, refl,
  sym, ap, ◌∙◌, subst, arith, bytes_eq, ltb, Bool-cases,
}
use bole.Base.Maps
use bole.Refs.{
  ObjectId, RefName, Ref, tag, timeline, Timeline, TimelinePolicy, fast_forward_only, append,
  unrestricted, get_timeline,
}
use bole.Search.{Objects}
use bole.Merge.Side.{Ancestor}
use bole.Hook.{
  PolicyDecision, allow, deny, requires_approval, PolicyContext, advance, PolicyHook, rank,
  more_restrictive, evaluate_from, evaluate, non_deterministic, evaluate_replayable, is_ancestor,
  check_policy, check_advance, check_timeline,
}
use bole.Hook.Ancestry.{Decides, is_ancestor-Decides}

-- No hook is more restrictive than the decision, and the decision is a hook's, or nothing objects.
pub record IsMostRestrictive (hooks : List PolicyHook) (ctx : PolicyContext) (d : PolicyDecision)
    : Type 0 where
  pub bound : (h : PolicyHook) → Memᴰ h hooks → rank (h.check ctx) ≤ rank d
  pub origin : (d ≡ allow) ⊎ ((h : PolicyHook) × Memᴰ h hooks × (d ≡ h.check ctx))

-- The same with a decision to start from.
record Restricts (hooks : List PolicyHook) (ctx : PolicyContext) (from d : PolicyDecision)
    : Type 0 where
  start : rank from ≤ rank d
  bound : (h : PolicyHook) → Memᴰ h hooks → rank (h.check ctx) ≤ rank d
  origin : (d ≡ from) ⊎ ((h : PolicyHook) × Memᴰ h hooks × (d ≡ h.check ctx))

more_restrictive_cases :
    (a b : PolicyDecision)
    → (rank a ≤ rank (more_restrictive a b))
      × (rank b ≤ rank (more_restrictive a b))
      × ((more_restrictive a b ≡ a) ⊎ (more_restrictive a b ≡ b))
unfolding more_restrictive
more_restrictive_cases a b = elim (Bool-cases (ltb (rank a) (rank b))) [
  | inl p ↦ rw p (ground arith, omega arith, inr refl)
  | inr n ↦ rw n (omega arith, ground arith, inl refl)
]

evaluate_from-Restricts :
    (from : PolicyDecision) (hooks : List PolicyHook) (ctx : PolicyContext)
    → Restricts hooks ctx from (evaluate_from from hooks ctx)
unfolding evaluate_from
evaluate_from-Restricts from [] ctx = record {
  start = omega arith;
  bound = λ h m. absurd (Memᴰ.not-nil m);
  origin = inl refl;
}
evaluate_from-Restricts from (hook ∷ hooks) ctx =
    let next = more_restrictive from (hook.check ctx) in
    let (above_from, above_hook, chosen) = more_restrictive_cases from (hook.check ctx) in
    let rest = evaluate_from-Restricts next hooks ctx in
    record {
      start = omega (arith, rest.start);
      bound = λ h m. elim (Memᴰ.cases_cons m) [
        | inl e ↦
            subst (λ (k : PolicyHook). rank (k.check ctx) ≤ rank (evaluate_from next hooks ctx))
              (sym e) (omega (arith, rest.start))
        | inr k ↦ rest.bound h k
      ];
      origin = elim rest.origin [
        | inl e ↦ elim chosen [ inl c ↦ inl (e ∙ c) | inr c ↦ inr (hook, Memᴰ.head refl, e ∙ c) ]
        | inr (h, m, e) ↦ inr (h, Memᴰ.tail m, e)
      ];
    }

-- The registry's decision is no less restrictive than any of its hooks' decisions, and it is one of
-- them, or it allows.
pub evaluate-IsMostRestrictive :
    (hooks : List PolicyHook) (ctx : PolicyContext)
    → IsMostRestrictive hooks ctx (evaluate hooks ctx)
evaluate-IsMostRestrictive hooks ctx =
    let r = evaluate_from-Restricts allow hooks ctx in record { bound = r.bound; origin = r.origin }

rank-allow : (d : PolicyDecision) → rank d ≤ 0 → d ≡ allow
rank-allow allow h = refl
rank-allow (deny reason) h = absurd (omega arith)
rank-allow (requires_approval reason needed) h = absurd (omega arith)

-- Every hook can be replayed and allows.
abbrev pub AllAllow : List PolicyHook → PolicyContext → Type 0
AllAllow hooks ctx =
    (h : PolicyHook) → Memᴰ h hooks → (h.deterministic ≡ true) × (h.check ctx ≡ allow)

non_deterministic-nil :
    (hooks : List PolicyHook)
    → non_deterministic hooks ≡ []
    → (h : PolicyHook) → Memᴰ h hooks
    → h.deterministic ≡ true
unfolding non_deterministic
non_deterministic-nil [] e h m = absurd (Memᴰ.not-nil m)
non_deterministic-nil (hook ∷ hooks) e h m = elim (Bool-cases (hook.deterministic)) [
  | inl p ↦ elim (Memᴰ.cases_cons m) [
    | inl q ↦ ap (λ (k : PolicyHook). k.deterministic) q ∙ p
    | inr k ↦ non_deterministic-nil hooks (ground (arith, e, p)) h k
  ]
  | inr n ↦ absurd (cc (rw n at e))
]

nil-non_deterministic :
    (hooks : List PolicyHook)
    → ((h : PolicyHook) → Memᴰ h hooks → h.deterministic ≡ true)
    → non_deterministic hooks ≡ []
unfolding non_deterministic
nil-non_deterministic [] f = refl
nil-non_deterministic (hook ∷ hooks) f =
    rw (f hook (Memᴰ.head refl)) (nil-non_deterministic hooks (λ h m. f h (Memᴰ.tail m)))

evaluate-allow :
    (hooks : List PolicyHook) (ctx : PolicyContext)
    → (evaluate hooks ctx ≡ allow) ↔ ((h : PolicyHook) → Memᴰ h hooks → h.check ctx ≡ allow)
evaluate-allow hooks ctx =
    let r = evaluate-IsMostRestrictive hooks ctx in
    (
      λ e h m. rank-allow (h.check ctx) (subst (λ d. rank (h.check ctx) ≤ rank d) e (r.bound h m)),
      λ f. elim r.origin [ inl e ↦ e | inr (h, m, e) ↦ e ∙ f h m ],
    )

-- A replicated decision point is passed exactly where every hook can be replayed and allows it.
pub evaluate_replayable-AllAllow :
    (hooks : List PolicyHook) (ctx : PolicyContext)
    → (evaluate_replayable hooks ctx ≡ allow) ↔ AllAllow hooks ctx
unfolding evaluate_replayable
evaluate_replayable-AllAllow hooks ctx = (
  λ e. go (non_deterministic hooks) refl e,
  λ f.
      rw (evaluate_replayable, nil-non_deterministic hooks (λ h m. (f h m).0))
        ((evaluate-allow hooks ctx).1 (λ h m. (f h m).1)),
)
  where
    go :
        (names : List Bytes)
        → non_deterministic hooks ≡ names
        → (elim names [
          | name ∷ names' ↦
              deny "non-deterministic policy hook(s) cannot gate a replicated advance (fail-closed)"
          | [] ↦ evaluate hooks ctx
        ])
          ≡ allow
        → AllAllow hooks ctx
    go [] e h = λ k m. (non_deterministic-nil hooks e k m, (evaluate-allow hooks ctx).0 h k m)
    go (name ∷ names) e h = absurd (cc)

-- The timeline is there, and it is unrestricted or the new head descends from the old one.
abbrev pub MayAdvance : PolicyContext → RefName → ObjectId → ObjectId → Type 0
MayAdvance ctx name old_head new_head =
    (t : Timeline) × (Maps.get ctx.refs name ≡ some (timeline t))
    × ((t.policy ≡ unrestricted) ⊎ Ancestor ctx.objects new_head old_head)

check_policy-allow :
    (store : Objects) (p : TimelinePolicy) (old_head new_head : ObjectId)
    → (check_policy store p old_head new_head ≡ allow)
      ↔ ((p ≡ unrestricted) ⊎ Ancestor store new_head old_head)
check_policy-allow store p old_head new_head =
    go p (is_ancestor store old_head new_head) refl (is_ancestor-Decides store old_head new_head)
  where
    go :
        (p : TimelinePolicy) (r : Option Bool)
        → is_ancestor store old_head new_head ≡ r
        → Decides (Ancestor store new_head old_head) r
        → (check_policy store p old_head new_head ≡ allow)
          ↔ ((p ≡ unrestricted) ⊎ Ancestor store new_head old_head)
    go unrestricted r e d = (λ h. inl refl, λ h. refl)
    go append (some true) e d = (λ h. inr d, λ h. rw (check_policy, e) refl)
    go append (some false) e d = (
      λ h. absurd (cc (rw (e, check_policy) at h)),
      λ h. elim h [ inl q ↦ absurd (cc) | inr k ↦ absurd (d k) ],
    )
    go append none e d = absurd d
    go fast_forward_only (some true) e d = (λ h. inr d, λ h. rw (check_policy, e) refl)
    go fast_forward_only (some false) e d = (
      λ h. absurd (cc (rw (e, check_policy) at h)),
      λ h. elim h [ inl q ↦ absurd (cc) | inr k ↦ absurd (d k) ],
    )
    go fast_forward_only none e d = absurd d

-- The built-in hook allows an advance exactly where the timeline is there, and it is unrestricted or
-- the new head is the old one or descends from it.
pub check_timeline_iff :
    (ctx : PolicyContext) (name : RefName) (old_head new_head : ObjectId)
    → ctx.event ≡ advance name old_head new_head
    → (check_timeline ctx ≡ allow) ↔ MayAdvance ctx name old_head new_head
unfolding check_timeline get_timeline
check_timeline_iff ctx name old_head new_head e =
    rw (e, check_timeline) (go (Maps.get ctx.refs name) refl)
  where
    timeline_inj : {t u : Timeline} → some (timeline t) ≡ some (timeline u) → t ≡ u
    timeline_inj q = cc

    go :
        (o : Option Ref)
        → Maps.get ctx.refs name ≡ o
        → (check_advance ctx.objects (get_timeline ctx.refs name) old_head new_head ≡ allow)
          ↔ MayAdvance ctx name old_head new_head
    go none g = rw (g, get_timeline) (λ h. absurd (cc), λ (t, q, k). absurd (cc))
    go (some (tag t)) g = rw (g, get_timeline) (λ h. absurd (cc), λ (u, q, k). absurd (cc))
    go (some (timeline t)) g =
        let (forth, back) = check_policy-allow ctx.objects t.policy old_head new_head in
        rw (g, get_timeline)
          (
            λ h. (t, refl, forth h),
            λ (u, q, k). back (
                subst
                  (λ (z : Timeline).
                    (z.policy ≡ unrestricted) ⊎ Ancestor ctx.objects new_head old_head)
                  (sym (timeline_inj q)) k),
          )
