-- ===== src/Base/Slices.antt =====
-- Byte slices by native indices, and little-endian words.
use Prim.Native.Nat.{ℕ, zero, suc, ◌+◌, ◌-◌, ◌*◌, ◌/◌, ◌%◌, ◌^◌, ◌≤◌, ◌<◌}
use mathlib.Core.Path.{◌≡◌, refl, ap, subst, ◌∙◌}
use mathlib.Core.Bool.{true, ◌&&◌}
use mathlib.Core.Option.{Option, none, some, some-injective}
use mathlib.Core.List.{List, [], ◌∷◌, ◌++◌}
use native.Mathlib.Omega.{arith}
use native.Mathlib.Numerals.{unary_clauses}
use bole.Base.Logic.{if◌then◌else◌, leb}
use bole.Base.Equality.{Bytes}
use bole.Base.Lists.{length, length-append, All}

pub leb-true : (a b : ℕ) → a ≤ b → leb a b ≡ true
leb-true a b h = ground arith

module _ {ℓ} {A : Type ℓ} where
  -- `s.get(i)`
  abbrev pub get_elem? : List A → ℕ → Option A
  get_elem? [] i = none
  get_elem? (x ∷ xs) zero = some x
  get_elem? (x ∷ xs) (suc i) = get_elem? xs i

  abbrev pub take : ℕ → List A → List A
  take zero xs = []
  take (suc n) [] = []
  take (suc n) (x ∷ xs) = x ∷ take n xs

  abbrev pub drop : ℕ → List A → List A
  drop zero xs = xs
  drop (suc n) [] = []
  drop (suc n) (x ∷ xs) = drop n xs

  -- `s[i..j]` where the bounds are known to hold
  unfoldable pub slice : List A → ℕ → ℕ → List A
  slice xs i j = take (j - i) (drop i xs)

  -- `s.get(i..j)`
  unfoldable pub get_range : List A → ℕ → ℕ → Option (List A)
  get_range xs i j = if leb i j && leb j (length xs) then some (slice xs i j) else none

  abbrev pub replicate : ℕ → A → List A
  replicate zero x = []
  replicate (suc n) x = x ∷ replicate n x

  pub get_elem?-append :
      (xs : List A) (y : A) (ys : List A) → get_elem? (xs ++ (y ∷ ys)) (length xs) ≡ some y
  get_elem?-append [] y ys = refl
  get_elem?-append (x ∷ xs) y ys = get_elem?-append xs y ys

  pub get_elem?-lt : (xs : List A) (i : ℕ) (x : A) → get_elem? xs i ≡ some x → i < length xs
  get_elem?-lt [] i x h = absurd (cc)
  get_elem?-lt (y ∷ xs) zero x h = omega arith
  get_elem?-lt (y ∷ xs) (suc i) x h = omega (arith, get_elem?-lt xs i x h)

  pub drop-append : (xs ys : List A) → drop (length xs) (xs ++ ys) ≡ ys
  drop-append [] ys = refl
  drop-append (x ∷ xs) ys = drop-append xs ys

  pub take-append : (xs ys : List A) → take (length xs) (xs ++ ys) ≡ xs
  take-append [] ys = refl
  take-append (x ∷ xs) ys = ap (◌∷◌ x) (take-append xs ys)

  pub length-take : (n : ℕ) (xs : List A) → n ≤ length xs → length (take n xs) ≡ n
  length-take zero xs h = refl
  length-take (suc n) [] h = absurd (omega arith)
  length-take (suc n) (x ∷ xs) h = omega (arith, length-take n xs (omega arith))

  pub length-replicate : (n : ℕ) (x : A) → length (replicate n x) ≡ n
  length-replicate zero x = refl
  length-replicate (suc n) x = omega (arith, length-replicate n x)

  pub take_all : (n : ℕ) (xs : List A) → length xs ≤ n → take n xs ≡ xs
  take_all zero [] h = refl
  take_all zero (x ∷ xs) h = absurd (omega arith)
  take_all (suc n) [] h = refl
  take_all (suc n) (x ∷ xs) h = ap (◌∷◌ x) (take_all n xs (omega arith))

  pub get_elem?-drop :
      (n : ℕ) (xs : List A) (i : ℕ) → get_elem? (drop n xs) i ≡ get_elem? xs (n + i)
  get_elem?-drop zero xs i = ap (get_elem? xs) {x = i} (omega arith)
  get_elem?-drop (suc n) [] i = refl
  get_elem?-drop (suc n) (x ∷ xs) i =
      get_elem?-drop n xs i ∙ ap (get_elem? (x ∷ xs)) {x = suc (n + i)} (omega arith)

  pub get_elem?-take :
      (n : ℕ) (xs : List A) (i : ℕ) → i < n → get_elem? (take n xs) i ≡ get_elem? xs i
  get_elem?-take zero xs i h = absurd (omega arith)
  get_elem?-take (suc n) [] i h = refl
  get_elem?-take (suc n) (x ∷ xs) zero h = refl
  get_elem?-take (suc n) (x ∷ xs) (suc i) h = get_elem?-take n xs i (omega arith)

  pub get_elem?-take_lt :
      (n : ℕ) (xs : List A) (i : ℕ) (x : A) → get_elem? (take n xs) i ≡ some x → i < n
  get_elem?-take_lt zero xs i x h = absurd (cc)
  get_elem?-take_lt (suc n) [] i x h = absurd (cc)
  get_elem?-take_lt (suc n) (y ∷ xs) zero x h = omega arith
  get_elem?-take_lt (suc n) (y ∷ xs) (suc i) x h = omega (arith, get_elem?-take_lt n xs i x h)

  -- The elements of a slice are those at its positions.
  pub get_elem?-slice :
      (xs : List A) (lo hi i : ℕ)
      → lo + i < hi
      → get_elem? (slice xs lo hi) i ≡ get_elem? xs (lo + i)
  unfolding slice
  get_elem?-slice xs lo hi i h =
      get_elem?-take (hi - lo) (drop lo xs) i (omega arith) ∙ get_elem?-drop lo xs i

  pub get_elem?-slice_lt :
      (xs : List A) (lo hi i : ℕ) (x : A) → get_elem? (slice xs lo hi) i ≡ some x → lo + i < hi
  unfolding slice
  get_elem?-slice_lt xs lo hi i x h = omega (arith, get_elem?-take_lt (hi - lo) (drop lo xs) i x h)

  -- The part of a list that stands behind `xs`.
  pub slice-append :
      (xs ys zs : List A) {source : List A} {i j : ℕ}
      → source ≡ xs ++ (ys ++ zs)
      → i ≡ length xs
      → j ≡ length xs + length ys
      → slice source i j ≡ ys
  unfolding slice
  slice-append xs ys zs s p q = rw (s, p, q, drop-append) (rw (width) (take-append ys zs))
    where
      width : length xs + length ys - length xs ≡ length ys
      width = omega arith

  pub get_range-append :
      (xs ys zs : List A) {source : List A} {i j : ℕ}
      → source ≡ xs ++ (ys ++ zs)
      → i ≡ length xs
      → j ≡ length xs + length ys
      → get_range source i j ≡ some ys
  unfolding get_range
  get_range-append xs ys zs {source} {i} {j} s p q =
      rw (s) (rw (slice-append xs ys zs refl p q, leb-true i j (omega arith), inside) refl)
    where
      inside : leb j (length (xs ++ (ys ++ zs))) ≡ true
      inside = leb-true j _ (omega (arith, length-append xs (ys ++ zs), length-append ys zs))

module _ {ℓ κ} {A : Type ℓ} (P : A → Type κ) where
  -- What holds of all elements holds of the one at `i`.
  pub All-at : (xs : List A) (i : ℕ) (x : A) → All P xs → get_elem? xs i ≡ some x → P x
  All-at [] i x h p = absurd (cc)
  All-at (y ∷ xs) zero x (q, h) p = subst P (some-injective y x p) q
  All-at (y ∷ xs) (suc i) x (q, h) p = All-at xs i x h p

-- `to_le_bytes` of a word of `n` bytes, and `from_le_bytes`.
abbrev pub to_le_bytes : ℕ → ℕ → Bytes
to_le_bytes zero v = []
to_le_bytes (suc n) v = v % 256 ∷ to_le_bytes n (v / 256)

abbrev pub from_le_bytes : Bytes → ℕ
from_le_bytes [] = 0
from_le_bytes (b ∷ bs) = b + 256 * from_le_bytes bs

pub length-to_le_bytes : (n v : ℕ) → length (to_le_bytes n v) ≡ n
length-to_le_bytes zero v = refl
length-to_le_bytes (suc n) v = omega (arith, length-to_le_bytes n (v / 256))

pub from_le_bytes-to_le_bytes : (n v : ℕ) → v < 256 ^ n → from_le_bytes (to_le_bytes n v) ≡ v
from_le_bytes-to_le_bytes zero v h = omega arith
from_le_bytes-to_le_bytes (suc n) v h =
    omega (arith, from_le_bytes-to_le_bytes n (v / 256) (omega (arith, split)))
  where
    split : 256 ^ suc n ≡ 256 * 256 ^ n
    split = simp unary_clauses (omega arith)

abbrev pub IsByte : ℕ → Type 0
IsByte b = b < 256
