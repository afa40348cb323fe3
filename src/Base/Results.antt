-- ===== src/Base/Results.antt =====
-- error.rs: the errors of fallible operations, and `?` on them. An error that carries a formatted
-- message keeps the fixed part of the message's text.
use Prim.Native.String.{String}
use Prim.Native.Nat.{ℕ}
use mathlib.Core.Logic.{◌⊎◌, inl, inr}
use mathlib.Core.Path.{◌≡◌, refl}
use mathlib.Core.Bool.{Bool, true, false}
use mathlib.Core.List.{List, [], ◌∷◌}
use bole.Base.Equality.{Eq, contains}
use bole.Base.Lists.{All, All-elim}

pub data Error : Type 0 where
  codec : String → Error
  storage : String → Error
  io : Error
  invalid_ref_name : String → Error
  wrong_ref_kind : String → Error
  access_denied : String → Error
  decryption_failed : Error
  secret_not_utf8 : Error
  git_projection : String → Error
  policy_violation : String → Error
  approval_required : String → ℕ → Error
  transaction_conflict : String → Error

pub data Result {ℓ} (T : Type ℓ) : Type ℓ where
  err : Error → Result T
  ok : T → Result T

-- `match r { Err(e) => Err(e), Ok(x) => next(x) }`, which `?` abbreviates.
infixl 5 ◌>>=◌
abbrev pub ◌>>=◌ {ℓ κ} : {S : Type ℓ} {T : Type κ} → Result S → (S → Result T) → Result T
err failure >>= next = err failure
ok x >>= next = next x

infixl 5 ◌>>◌
abbrev pub ◌>>◌ {κ} : {T : Type κ} → Result (Unit {0}) → Result T → Result T
first >> second = first >>= (λ done. second)

-- `if !test { return Err(e) }`
abbrev pub require : Bool → Error → Result (Unit {0})
require true e = ok tt
require false e = err e

pub Result-cases {ℓ} :
    {A : Type ℓ} (r : Result A) → ((a : A) × (r ≡ ok a)) ⊎ ((e : Error) × (r ≡ err e))
Result-cases (ok a) = inl (a, refl)
Result-cases (err e) = inr (e, refl)

-- `for x in xs { body(x)?; }`
unfoldable pub each {ℓ} : {A : Type ℓ} → (A → Result (Unit {0})) → List A → Result (Unit {0})
each body [] = ok tt
each body (x ∷ xs) = let rest = each body xs in (body x >>= λ _. rest)

-- The loop ends well only if every round does.
pub each-All {ℓ} :
    {A : Type ℓ} (body : A → Result (Unit {0})) (xs : List A)
    → each body xs ≡ ok tt
    → All (λ x. body x ≡ ok tt) xs
unfolding each
each-All body [] h = tt
each-All body (x ∷ xs) h = elim (Result-cases (body x)) [
  | inl (u, e) ↦ (e, each-All body xs (rw e at h))
  | inr (d, e) ↦ absurd (cc (rw e at h))
]

pub each-intro {ℓ} :
    {A : Type ℓ} (body : A → Result (Unit {0})) (xs : List A)
    → All (λ x. body x ≡ ok tt) xs
    → each body xs ≡ ok tt
unfolding each
each-intro body [] h = refl
each-intro body (x ∷ xs) h = rw (h.0, each-intro body xs h.1)

pub each-elim {ℓ} :
    {A : Type ℓ} ⦃e : Eq A⦄ (body : A → Result (Unit {0})) (xs : List A) (x : A)
    → each body xs ≡ ok tt
    → contains xs x ≡ true
    → body x ≡ ok tt
each-elim body xs x h m = All-elim (λ y. body y ≡ ok tt) xs x (each-All body xs h) m

pub >>-ok {ℓ} :
    {B : Type ℓ} (m : Result (Unit {0})) (k : Result B) (b : B)
    → (m >> k) ≡ ok b
    → (m ≡ ok tt) × (k ≡ ok b)
>>-ok (ok u) k b h = (refl, h)
>>-ok (err e) k b h = absurd (cc)

pub require-ok : (b : Bool) (e : Error) → require b e ≡ ok tt → b ≡ true
require-ok true e h = refl
require-ok false e h = absurd (cc)
