-- ===== src/Approval/Count.antt =====
-- What `count_valid_approvals` of src/acl/attestation.rs counts.
use mathlib.Core.List.{Memᴰ}
use mathlib.Core.List.Memᴰ
use Prim.Native.Nat.{Ordering}
use bole.Base.{
  ◌%◌, ◌^◌, true, List, [], ◌∷◌, Bytes, bytes_eq, bytes_ord, bytes_cmp, bytes_cmp_flip,
  bytes_cmp_trans, ◌==◌, eq_iff, ◌≡◌, ◌↔◌, ◌⊎◌, inl, inr, refl, sym, subst, arith, contains, All,
  set_insert, contains-set_insert, length, Bool-cases,
}
use bole.Object.{ApproverRegistry, Attestation}
use bole.Refs.{ObjectId}
use bole.Approval.{Ed25519, counts, collect_approvers, verify_attestation, count_valid_approvals}

-- In ascending order, so that no byte string stands twice.
abbrev pub Ascending : List Bytes → Type 0
Ascending [] = Unit
Ascending (x ∷ xs) = All (λ y. bytes_cmp x y ≡ Ordering.lt) xs × Ascending xs

All-set_insert :
    (P : Bytes → Type 0) (x : Bytes) (ys : List Bytes) → P x → All P ys → All P (set_insert x ys)
unfolding set_insert
All-set_insert P x [] p a = (p, tt)
All-set_insert P x (y ∷ ys) p (q, a) = go (bytes_cmp x y) (All-set_insert P x ys p a)
  where
    go :
        (o : Ordering)
        → All P (set_insert x ys)
        → All P (elim o [
          | Ordering.lt ↦ x ∷ y ∷ ys
          | Ordering.eq ↦ y ∷ ys
          | Ordering.gt ↦ y ∷ set_insert x ys
        ])
    go Ordering.lt rest = (p, (q, a))
    go Ordering.eq rest = (q, a)
    go Ordering.gt rest = (q, rest)

All-map : (P Q : Bytes → Type 0) (ys : List Bytes) → ((y : Bytes) → P y → Q y) → All P ys → All Q ys
All-map P Q [] f a = tt
All-map P Q (y ∷ ys) f (p, a) = (f y p, All-map P Q ys f a)

set_insert-Ascending : (x : Bytes) (ys : List Bytes) → Ascending ys → Ascending (set_insert x ys)
unfolding set_insert
set_insert-Ascending x [] a = (tt, tt)
set_insert-Ascending x (y ∷ ys) (low, a) = go (bytes_cmp x y) refl (set_insert-Ascending x ys a)
  where
    go :
        (o : Ordering)
        → bytes_cmp x y ≡ o
        → Ascending (set_insert x ys)
        → Ascending (elim o [
          | Ordering.lt ↦ x ∷ y ∷ ys
          | Ordering.eq ↦ y ∷ ys
          | Ordering.gt ↦ y ∷ set_insert x ys
        ])
    go Ordering.lt e rest = ((e, All-map _ _ ys (λ z k. bytes_cmp_trans x y z e k) low), (low, a))
    go Ordering.eq e rest = (low, a)
    go Ordering.gt e rest =
        (All-set_insert (λ z. bytes_cmp y z ≡ Ordering.lt) x ys (bytes_cmp_flip x y e) low, rest)

module _ (ed : Ed25519) (registry : ApproverRegistry) (target : Bytes) (head : ObjectId) where
  -- A valid approval of the head of the target by the key.
  abbrev pub IsApproval : Bytes → Attestation → Type 0
  IsApproval key att =
      (att.approver_key_id ≡ key)
      × (att.target ≡ target)
      × (att.head ≡ head)
      × (verify_attestation ed att registry ≡ true)

  abbrev pub ApprovedBy : List Attestation → Bytes → Type 0
  ApprovedBy atts key = (att : Attestation) × Memᴰ att atts × IsApproval key att

  counts_iff :
      (att : Attestation)
      → (counts ed registry target head att ≡ true) ↔ IsApproval att.approver_key_id att
  counts_iff att = (
    λ h. (
      refl,
      (eq_iff att.target target).0 (ground (arith, h)),
      (eq_iff att.head head).0 (ground (arith, h)),
      ground (arith, h),
    ),
    λ (k, t, n, v). ground (arith, (eq_iff att.target target).1 t, (eq_iff att.head head).1 n, v),
  )

  collect_approvers-Ascending :
      (atts : List Attestation) (keys : List Bytes)
      → Ascending keys
      → Ascending (collect_approvers ed registry target head atts keys)
  unfolding collect_approvers
  collect_approvers-Ascending [] keys a = a
  collect_approvers-Ascending (att ∷ atts) keys a =
      elim (Bool-cases (counts ed registry target head att)) [
        | inl p ↦
            rw (p, collect_approvers)
              (collect_approvers-Ascending atts (set_insert att.approver_key_id keys)
                (set_insert-Ascending att.approver_key_id keys a))
        | inr n ↦ rw (n, collect_approvers) (collect_approvers-Ascending atts keys a)
      ]

  counted :
      (att : Attestation) (key : Bytes)
      → IsApproval key att
      → counts ed registry target head att ≡ true
  counted att key (k, t, n, v) = (counts_iff att).1 (refl, t, n, v)

  -- The first attestation, and those after it.
  ApprovedBy-cons :
      (att : Attestation) (atts : List Attestation) (key : Bytes)
      → ApprovedBy (att ∷ atts) key ↔ (IsApproval key att ⊎ ApprovedBy atts key)
  ApprovedBy-cons att atts key = (
    λ (a, m, i). elim (Memᴰ.cases_cons m) [
      | inl e ↦ inl (subst (IsApproval key) e i)
      | inr k ↦ inr (a, k, i)
    ],
    λ h. elim h [ inl i ↦ (att, Memᴰ.head refl, i) | inr (a, k, i) ↦ (a, Memᴰ.tail k, i) ],
  )

  by_key :
      (key : Bytes) (att : Attestation)
      → key ≡ att.approver_key_id
      → counts ed registry target head att ≡ true
      → IsApproval key att
  by_key key att e p = let (k, t, n, v) = (counts_iff att).0 p in (sym e, t, n, v)

  contains-collect_approvers :
      (atts : List Attestation) (keys : List Bytes) (key : Bytes)
      → (contains (collect_approvers ed registry target head atts keys) key ≡ true)
        ↔ ((contains keys key ≡ true) ⊎ ApprovedBy atts key)
  unfolding collect_approvers
  contains-collect_approvers [] keys key =
      (λ m. inl m, λ h. elim h [ inl m ↦ m | inr (a, m, i) ↦ absurd (Memᴰ.not-nil m) ])
  contains-collect_approvers (att ∷ atts) keys key =
      let next = set_insert att.approver_key_id keys in
      let found = contains-collect_approvers atts next key in
      let passed = contains-collect_approvers atts keys key in
      let split = ApprovedBy-cons att atts key in
      let here = contains-set_insert att.approver_key_id keys key in
      elim (Bool-cases (counts ed registry target head att)) [
        | inl p ↦
            rw (p, collect_approvers)
              (
                λ m. elim (found.0 m) [
                  | inl c ↦ elim (Bool-cases (key == att.approver_key_id)) [
                    | inl q ↦
                        inr
                          (split.1 (inl (by_key key att ((eq_iff key att.approver_key_id).0 q) p)))
                    | inr k ↦ inl (ground (arith, c, here, k))
                  ]
                  | inr a ↦ inr (split.1 (inr a))
                ],
                λ h. elim h [
                  | inl m ↦ found.1 (inl (ground (arith, m, here)))
                  | inr a ↦ elim (split.0 a) [
                    | inl i ↦
                        found.1
                          (inl (ground (arith, here, (eq_iff key att.approver_key_id).1 (sym i.0))))
                    | inr b ↦ found.1 (inr b)
                  ]
                ],
              )
        | inr n ↦
            rw (n, collect_approvers)
              (
                λ m. elim (passed.0 m) [ inl c ↦ inl c | inr a ↦ inr (split.1 (inr a)) ],
                λ h. elim h [
                  | inl m ↦ passed.1 (inl m)
                  | inr a ↦ elim (split.0 a) [
                    | inl i ↦ absurd (ground (arith, n, counted att key i))
                    | inr b ↦ passed.1 (inr b)
                  ]
                ],
              )
      ]

  -- The count is the number, modulo 2 to the 32nd, of the keys in an ascending list, and the list
  -- holds exactly the keys by which some attestation validly approves the head of the target.
  pub count_valid_approvals-Ascending :
      (atts : List Attestation)
      → (keys : List Bytes) × Ascending keys
        × ((key : Bytes) → (contains keys key ≡ true) ↔ ApprovedBy atts key)
        × (count_valid_approvals ed atts registry target head ≡ length keys % 2 ^ 32)
  unfolding count_valid_approvals
  count_valid_approvals-Ascending atts = (
    collect_approvers ed registry target head atts [],
    collect_approvers-Ascending atts [] tt,
    λ key.
        let (forth, back) = contains-collect_approvers atts [] key in
        (λ m. elim (forth m) [ inl c ↦ absurd (cc) | inr a ↦ a ], λ a. back (inr a)),
    refl,
  )
