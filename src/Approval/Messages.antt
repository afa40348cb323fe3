-- ===== src/Approval/Messages.antt =====
-- What a signature of src/acl/attestation.rs is bound to.
use bole.Base.{ℕ, suc, [], ◌∷◌, ◌++◌, Bytes, ◌≡◌, refl, ap, ap₂, arith, length, length-append}
use bole.Refs.{ObjectId}
use bole.Approval.{attestation_domain, attestation_message}

head_eq : {x y : ℕ} {xs ys : Bytes} → (x ∷ xs) ≡ (y ∷ ys) → x ≡ y
head_eq p = cc

tail_eq : {x y : ℕ} {xs ys : Bytes} → (x ∷ xs) ≡ (y ∷ ys) → xs ≡ ys
tail_eq p = cc

append-cancel : (xs us vs : Bytes) → xs ++ us ≡ xs ++ vs → us ≡ vs
append-cancel [] us vs e = e
append-cancel (x ∷ xs) us vs e = append-cancel xs us vs (tail_eq e)

append-inj :
    (xs ys us vs : Bytes) → length us ≡ length vs → xs ++ us ≡ ys ++ vs → (xs ≡ ys) × (us ≡ vs)
append-inj [] [] us vs l e = (refl, e)
append-inj [] (y ∷ ys) us vs l e = absurd (omega (arith, l, ap length e, length-append ys vs))
append-inj (x ∷ xs) [] us vs l e = absurd (omega (arith, l, ap length e, length-append xs us))
append-inj (x ∷ xs) (y ∷ ys) us vs l e =
    let (same, rest) = append-inj xs ys us vs l (tail_eq e) in (ap₂ ◌∷◌ (head_eq e) same, rest)

-- Two approvals whose heads are of one length, as the 32 bytes of an id are, have the same signed
-- message only if they approve the same head of the same target.
pub attestation_message-inj :
    (target target' : Bytes) (head head' : ObjectId)
    → length head ≡ length head'
    → attestation_message target head ≡ attestation_message target' head'
    → (target ≡ target') × (head ≡ head')
unfolding attestation_message
attestation_message-inj target target' head head' l e =
    let (same, rest) =
      append-inj target target' (0 ∷ head) (0 ∷ head') (ap suc l)
        (append-cancel attestation_domain (target ++ (0 ∷ head)) (target' ++ (0 ∷ head')) e) in
    (same, tail_eq rest)
