-- ===== src/Base/Bits.antt =====
-- `&` and `|` on native numbers: a mask of the low bits, and an `|` whose operands share no bit.
use Prim.Native.Nat.{
  ℕ, zero, suc, ◌+◌, ◌*◌, ◌/◌, ◌%◌, ◌^◌, ◌≤◌, ◌<◌, min, max, bit_and, bit_or, digits,
  bit_and-bitwise, bit_or-bitwise,
}
use mathlib.Core.Path.{◌≡◌, refl, ap, ◌∙◌}
use mathlib.Core.Bool.{Bool, true, false}
use mathlib.Core.Logic.{ite}
use native.Mathlib.Decide.{ℕ_discrete}
use native.Mathlib.Omega.{arith}
use native.Mathlib.Numerals.{unary_clauses}

-- The recursions on binary digits that the two operations stand for, with a count of digits to go.
abbrev and_digits : ℕ → ℕ → ℕ → ℕ
and_digits count x mask = digits (λ y. zero) min count x mask

abbrev or_digits : ℕ → ℕ → ℕ → ℕ
or_digits count x y = digits (λ y. y) max count x y

-- Powers of two, and their multiples, halve exactly.
pow_double : (s : ℕ) → 2 ^ suc s ≡ 2 * 2 ^ s
pow_double s = simp unary_clauses (omega arith)

multiple_double : (s c : ℕ) → c * 2 ^ suc s ≡ 2 * (c * 2 ^ s)
multiple_double s c = ap (λ (t : ℕ). c * t) (pow_double s) ∙ omega arith

or_digits_add :
    (s count low c : ℕ)
    → low < 2 ^ s
    → low ≤ count
    → or_digits count low (c * 2 ^ s) ≡ low + c * 2 ^ s
or_digits_add s (suc count) zero c small enough = omega arith
or_digits_add s zero zero c small enough = omega arith
or_digits_add s zero (suc low) c small enough = absurd (omega arith)
or_digits_add zero (suc count) (suc low) c small enough = absurd (omega arith)
or_digits_add (suc s) (suc count) (suc low) c small enough = omega (
  arith,
  multiple_double s c,
  ap (or_digits count (suc low / 2)) halved,
  or_digits_add s count (suc low / 2) c (omega (arith, pow_double s)) (omega arith),
)
  where
    halved : c * 2 ^ suc s / 2 ≡ c * 2 ^ s
    halved = omega (arith, multiple_double s c)

-- Operands that share no bit are added.
pub bit_or_disjoint : (s a c : ℕ) → a < 2 ^ s → bit_or a (c * 2 ^ s) ≡ a + c * 2 ^ s
bit_or_disjoint s a c h = bit_or-bitwise a _ ∙ or_digits_add s a a c h (omega arith)

or_digits-lt : (s count x y : ℕ) → x < 2 ^ s → y < 2 ^ s → or_digits count x y < 2 ^ s
or_digits-lt s zero x y hx hy = hy
or_digits-lt s (suc count) zero y hx hy = hy
or_digits-lt zero (suc count) (suc x) y hx hy = absurd (omega arith)
or_digits-lt (suc s) (suc count) (suc x) y hx hy =
    let halves =
      or_digits-lt s count (suc x / 2) (y / 2) (omega (arith, pow_double s))
        (omega (arith, pow_double s)) in
    omega (arith, pow_double s, halves)

pub bit_or-lt : (s a b : ℕ) → a < 2 ^ s → b < 2 ^ s → bit_or a b < 2 ^ s
bit_or-lt s a b p q = rw bit_or-bitwise (or_digits-lt s a a b p q)

-- The mask `m` keeps the remainder by `t`.
abbrev Masks : ℕ → ℕ → Type 0
Masks m t = (count x : ℕ) → x ≤ count → and_digits count x m ≡ x % t

-- A mask with one more bit, where the remainder by `2 * t` has a last bit and the others.
wider : (m t t' : ℕ) → ((x : ℕ) → x % t' ≡ x / 2 % t * 2 + x % 2) → Masks m t → Masks (m * 2 + 1) t'
wider m t t' last ih zero zero enough = omega (arith, last 0, ih 0 0 (omega arith))
wider m t t' last ih (suc count) zero enough = omega (arith, last 0, ih 0 0 (omega arith))
wider m t t' last ih zero (suc x) enough = absurd (omega arith)
wider m t t' last ih (suc count) (suc x) enough = omega (
  arith,
  last (suc x),
  ap (and_digits count (suc x / 2)) shifted,
  ih count (suc x / 2) (omega arith),
)
  where
    shifted : (m * 2 + 1) / 2 ≡ m
    shifted = omega arith

no_mask : Masks 0 1
no_mask zero x enough = omega arith
no_mask (suc count) zero enough = refl
no_mask (suc count) (suc x) enough = omega (arith, no_mask count (suc x / 2) (omega arith))

mask_15 : Masks 0xf 16
mask_15 =
    wider 7 8 16 (λ x. omega arith)
      (wider 3 4 8 (λ x. omega arith)
        (wider 1 2 4 (λ x. omega arith) (wider 0 1 2 (λ x. omega arith) no_mask)))

mask_127 : Masks 0x7f 128
mask_127 =
    wider 63 64 128 (λ x. omega arith)
      (wider 31 32 64 (λ x. omega arith) (wider 15 16 32 (λ x. omega arith) mask_15))

-- `a & 0x7f`
pub low_bits : (a : ℕ) → bit_and a 0x7f ≡ a % 128
low_bits a = bit_and-bitwise a 0x7f ∙ mask_127 a a (omega arith)

module _ (f g : ℕ → ℕ) where
  agree_below : ℕ → Bool
  unfolding ℕ_discrete
  agree_below zero = true
  agree_below (suc n) = ite (ℕ_discrete (f n) (g n)) (agree_below n) false

  agree_below→eq : (n : ℕ) → agree_below n ≡ true → (i : ℕ) → i < n → f i ≡ g i
  unfolding agree_below
  agree_below→eq zero e i h = absurd (omega arith)
  agree_below→eq (suc n) e i h = ground (arith, agree_below→eq n (ground arith) i)

-- `a & 0x80` on a byte
pub top_bit : (a : ℕ) → a < 256 → bit_and a 0x80 ≡ a / 128 * 128
unfolding agree_below
top_bit = agree_below→eq _ _ 256 refl

-- `a | 0x80` on seven bits
pub set_top_bit : (a : ℕ) → a < 128 → bit_or a 0x80 ≡ a + 128
set_top_bit a h = bit_or_disjoint 7 a 1 h
