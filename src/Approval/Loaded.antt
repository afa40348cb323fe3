-- ===== src/Approval/Loaded.antt =====
-- Which attestations load_attestations of src/acl/attestation.rs loads.
use mathlib.Core.List.{Memᴰ}
use mathlib.Core.List.Memᴰ
use bole.Base.{
  ◌&&◌, true, Option, none, some, is_some, List, [], ◌∷◌, ◌++◌, Bytes, bytes_eq, nat_eq, bytes_ord,
  ◌≡◌, ◌↔◌, ◌⊎◌, inl, inr, refl, sym, ap, ◌∙◌, subst, arith, contains, contains_cases,
  contains_head, contains-filter, contains-collect_set, filter, starts_with, Result-cases, ok,
}
use bole.Base.Maps
use bole.Base.Maps.{contains-keys_some}
use bole.Object.{Object, PolicyObject, policy, attestation, Attestation}
use bole.Refs.{RefName, Refs, Tag, tag, get_tag, list}
use bole.Refs.Methods.{ref_cases}
use bole.Search.{Objects}
use bole.Approval.{
  attestations_prefix, attestation_of, attestation_at, load_each, load_attestations,
}

attestation_of_cases :
    (o : Option Object)
    → ((att : Attestation) × (o ≡ some (policy (attestation att)))) ⊎ (attestation_of o ≡ [])
attestation_of_cases none = inr refl
attestation_of_cases (some (policy (attestation att))) = inl (att, refl)
attestation_of_cases (some (policy (PolicyObject.lattice x))) = inr refl
attestation_of_cases (some (policy (PolicyObject.rule_set x))) = inr refl
attestation_of_cases (some (policy (PolicyObject.grant x))) = inr refl
attestation_of_cases (some (policy (PolicyObject.root x))) = inr refl
attestation_of_cases (some (policy (PolicyObject.approvers x))) = inr refl
attestation_of_cases (some (Object.blob x)) = inr refl
attestation_of_cases (some (Object.tree x)) = inr refl
attestation_of_cases (some (Object.snapshot x)) = inr refl
attestation_of_cases (some (Object.secret x)) = inr refl
attestation_of_cases (some (Object.env_overlay x)) = inr refl
attestation_of_cases (some (Object.secret_v2 x)) = inr refl
attestation_of_cases (some (Object.multi_recipient_secret x)) = inr refl
attestation_of_cases (some (Object.collab x)) = inr refl
attestation_of_cases (some (Object.change_proposal x)) = inr refl
attestation_of_cases (some (Object.review_comment x)) = inr refl
attestation_of_cases (some (Object.post x)) = inr refl
attestation_of_cases (some (Object.repo_record x)) = inr refl

attestation_of-Mem :
    (o : Option Object) (att : Attestation)
    → Memᴰ att (attestation_of o) ↔ (o ≡ some (policy (attestation att)))
attestation_of-Mem o att = elim (attestation_of_cases o) [
  | inr e ↦
      (λ m. absurd (Memᴰ.not-nil (subst (Memᴰ att) e m)), λ q. absurd (cc (e, ap attestation_of q)))
  | inl (a, e) ↦ (
    λ m.
        e
        ∙ ap (λ z. some (policy (attestation z)))
            (sym (Memᴰ.eq_of_singleton (subst (Memᴰ att) (ap attestation_of e) m))),
    λ q. subst (Memᴰ att) (sym (ap attestation_of q)) (Memᴰ.head refl),
  )
]

module _ (refs : Refs) (store : Objects) where
  -- The name is of a tag that points to the stored attestation.
  abbrev pub Attests : RefName → Attestation → Type 0
  Attests name att =
      (t : Tag) × (Maps.get refs name ≡ some (tag t))
      × (Maps.get store t.target ≡ some (policy (attestation att)))

  -- The attestation is stored, and a tag below `refs/attestations/` points to it.
  abbrev pub IsPublished : Attestation → Type 0
  IsPublished att =
      (name : RefName) × (starts_with name attestations_prefix ≡ true) × Attests name att

  attestation_at-Attests :
      (name : RefName) (o : Option Tag) (att : Attestation)
      → get_tag refs name ≡ ok o
      → Memᴰ att (attestation_at store o) ↔ Attests name att
  unfolding get_tag
  attestation_at-Attests name o att h = elim (ref_cases (Maps.get refs name)) [
    | inl e ↦
        let is_none : none ≡ o = cc (rw (e, get_tag) at h) in
        (
          λ m.
              absurd
                (Memᴰ.not-nil (subst (λ z. Memᴰ att (attestation_at store z)) (sym is_none) m)),
          λ (t, q, k). absurd (cc (e, q)),
        )
    | inr (inl (t, e)) ↦
        let is_some_t : some t ≡ o = cc (rw (e, get_tag) at h) in
        (
          λ m. (
            t,
            e,
            (attestation_of-Mem (Maps.get store t.target) att).0
                (subst (λ z. Memᴰ att (attestation_at store z)) (sym is_some_t) m),
          ),
          λ (t', q, k).
              let same : t' ≡ t = cc (e, q) in
              subst (λ z. Memᴰ att (attestation_at store z)) is_some_t
                ((attestation_of-Mem (Maps.get store t.target) att).1 (
                  subst (λ (z : Tag). Maps.get store z.target ≡ some (policy (attestation att)))
                    same k)),
        )
    | inr (inr (t, e)) ↦ absurd (cc (rw (e, get_tag) at h))
  ]

  -- What the loop adds to the attestations before it.
  load_each-Attests :
      (names : List RefName) (out atts : List Attestation) (att : Attestation)
      → load_each refs store names out ≡ ok atts
      → Memᴰ att atts
        ↔ (Memᴰ att out ⊎ ((name : RefName) × (contains names name ≡ true) × Attests name att))
  unfolding load_each
  load_each-Attests [] out atts att h =
      let same : out ≡ atts = cc in
      (
        λ m. inl (subst (Memᴰ att) (sym same) m),
        λ k. elim k [ inl m ↦ subst (Memᴰ att) same m | inr (n, c, a) ↦ absurd (cc) ],
      )
  load_each-Attests (name ∷ names) out atts att h = elim (Result-cases (get_tag refs name)) [
    | inr (d, e) ↦ absurd (cc (rw e at h))
    | inl (o, e) ↦
        let rest = load_each-Attests names (out ++ attestation_at store o) atts att (rw e at h) in
        let one = attestation_at-Attests name o att e in
        (
          λ m. elim (rest.0 m) [
            | inl k ↦ elim (Memᴰ.append_cases out k) [
              | inl before ↦ inl before
              | inr new ↦ inr (name, contains_head name names, one.0 new)
            ]
            | inr (n, c, a) ↦ inr (n, ground (arith, c), a)
          ],
          λ k. elim k [
            | inl before ↦ rest.1 (inl (Memᴰ.append_left _ before))
            | inr (n, c, a) ↦ elim (contains_cases {x = n} {y = name} names c) [
              | inl same ↦
                  rest.1 (inl (Memᴰ.append_right out (one.1 (subst (λ z. Attests z att) same a))))
              | inr later ↦ rest.1 (inr (n, later, a))
            ]
          ],
        )
  ]

  contains-list_prefix :
      (prefix : Bytes) (n : RefName)
      → contains (list refs prefix) n ≡ (starts_with n prefix && is_some (Maps.get refs n))
  unfolding list
  contains-list_prefix prefix n =
      contains-collect_set (filter (λ m. starts_with m prefix) (Maps.keys refs)) n
      ∙ contains-filter (λ m. starts_with m prefix) (Maps.keys refs) n
      ∙ rw (contains-keys_some refs n)

  -- What is loaded are the attestations that are published.
  pub load_attestations-IsPublished :
      (atts : List Attestation) (att : Attestation)
      → load_attestations refs store ≡ ok atts
      → Memᴰ att atts ↔ IsPublished att
  load_attestations-IsPublished atts att h =
      let loaded = load_each-Attests (list refs attestations_prefix) [] atts att h in
      (
        λ m. elim (loaded.0 m) [
          | inl k ↦ absurd (Memᴰ.not-nil k)
          | inr (n, c, a) ↦ (n, ground (arith, c, contains-list_prefix attestations_prefix n), a)
        ],
        λ (n, below, (t, there, stored)).
            let exists : is_some (Maps.get refs n) ≡ true = rw there refl in
            loaded.1 (
              inr (
                n,
                contains-list_prefix attestations_prefix n ∙ rw (below, exists) refl,
                (t, there, stored),
              )),
      )
