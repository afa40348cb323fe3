-- ===== src/Base/Equality.antt =====
-- `==` of the program's types, by an instance, and byte strings.
use Prim.Native.Nat.{ℕ}
use Prim.Native.Char.{code}
use Prim.Native.String.{String}
use mathlib.Core.Path.{◌≡◌, refl, ap, ap₂}
use mathlib.Core.Logic.{ite, dite, ◌↔◌, ◌≢◌}
use mathlib.Core.Bool.{Bool, true, false, ◌||◌}
use mathlib.Core.List.{List, [], ◌∷◌}
use mathlib.Core.Option.{Option, none, some, none-ne-some, some-ne-none, some-injective}
use native.Mathlib.Omega.{arith}
use native.Mathlib.Decide.{ℕ_discrete}

pub record Eq {ℓ} (A : Type ℓ) : Type ℓ where
  pub dec : Discrete A

module _ {ℓ} {A : Type ℓ} ⦃e : Eq A⦄ where
  infix 50 ◌==◌
  abbrev pub ◌==◌ : A → A → Bool
  a == b = ite (e.dec a b) true false

  abbrev pub contains : List A → A → Bool
  contains [] a = false
  contains (x ∷ xs) a = a == x || contains xs a

  pub eq_iff : (a b : A) → ((a == b) ≡ true) ↔ (a ≡ b)
  eq_iff a b = ground arith

module _ {ℓ} {A : Type ℓ} ⦃e : Eq A⦄ where
  pub ne_of_eq : (a b : A) → (a == b) ≡ false → a ≢ b
  ne_of_eq a b n p = cc ((eq_iff a b).1 p)

instance abbrev pub nat_eq : Eq ℕ
nat_eq = record { dec = ℕ_discrete }

cons_head : {x y : ℕ} {xs ys : List ℕ} → (x ∷ xs) ≡ (y ∷ ys) → x ≡ y
cons_head p = cc

cons_tail : {x y : ℕ} {xs ys : List ℕ} → (x ∷ xs) ≡ (y ∷ ys) → xs ≡ ys
cons_tail p = cc

-- A Rust string or a digest: its bytes.
abbrev pub Bytes : Type 0
Bytes = List ℕ

unfoldable pub bytes_discrete : Discrete Bytes
unfolding ℕ_discrete cons_head cons_tail
bytes_discrete [] [] = yes refl
bytes_discrete [] (y ∷ ys) = no (λ p. cc)
bytes_discrete (x ∷ xs) [] = no (λ p. cc)
bytes_discrete (x ∷ xs) (y ∷ ys) = elim (bytes_discrete xs ys) [
  | yes q ↦ dite (ℕ_discrete x y) (λ p. yes (ap₂ ◌∷◌ p q)) (λ n. no (λ p. n (cons_head p)))
  | no n ↦ no (λ p. n (cons_tail p))
]

instance abbrev pub bytes_eq : Eq Bytes
bytes_eq = record { dec = bytes_discrete }

-- The bytes of an ASCII literal.
abbrev pub bytes : String → Bytes
bytes String.[] = []
bytes (String.◌∷◌ c s) = code c ∷ bytes s

-- Derived equality of pairs and of options.
module _ {ℓ κ} {A : Type ℓ} {B : Type κ} ⦃e : Eq A⦄ ⦃f : Eq B⦄ where
  unfoldable pub pair_discrete : Discrete (A × B)
  pair_discrete (a, b) (c, d) = elim (e.dec a c) [
    | yes p ↦
        dite (f.dec b d) (λ q. yes (λ i. (p i, q i))) (λ n. no (λ r. n (ap (λ (t : A × B). t.1) r)))
    | no n ↦ no (λ r. n (ap (λ (t : A × B). t.0) r))
  ]

  instance abbrev pub pair_eq : Eq (A × B)
  pair_eq = record { dec = pair_discrete }

module _ {ℓ} {A : Type ℓ} ⦃e : Eq A⦄ where
  unfoldable pub option_discrete : Discrete (Option A)
  option_discrete none none = yes refl
  option_discrete none (some b) = no (none-ne-some b)
  option_discrete (some a) none = no (some-ne-none a)
  option_discrete (some a) (some b) =
      dite (e.dec a b) (λ p. yes (ap some p)) (λ n. no (λ p. n (some-injective a b p)))

  instance abbrev pub option_eq : Eq (Option A)
  option_eq = record { dec = option_discrete }
