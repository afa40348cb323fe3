-- ===== src/Refs/Name.antt =====
-- src/refs/name.rs: what a ref name may be.
pub mod Segments
pub mod Accepted
pub mod Prefix
use bole.Base.{
  ℕ, Bool, true, false, not, Option, none, some, List, [], ◌∷◌, ◌++◌, ◌≡◌, refl, ◌≢◌, ◌⊎◌, ◌↔◌, inl,
  inr, arith, sym, ap, ap₂, subst, ◌∙◌, Bytes, bytes_eq, nat_eq, ◌==◌, eq_iff, contains, All,
  if◌then◌else◌, Bool-cases, invalid_ref_name, Result, ok, ◌>>◌, require, each, each-All,
  each-intro,
}

abbrev pub slash : ℕ
slash = b'/'

abbrev pub dot : ℕ
dot = b'.'

cons_first : ℕ → List Bytes → List Bytes
cons_first c [] = (c ∷ []) ∷ []
cons_first c (seg ∷ segs) = (c ∷ seg) ∷ segs

-- `s.split('/')`: the pieces between separators, at least one.
unfoldable pub split : Bytes → List Bytes
unfolding cons_first
split [] = [] ∷ []
split (c ∷ s) = let rest = split s in if c == slash then [] ∷ rest else cons_first c rest

abbrev pub is_empty : Bytes → Bool
is_empty [] = true
is_empty (c ∷ s) = false

-- `s.starts_with(c)`
abbrev pub first_is : ℕ → Bytes → Bool
first_is b [] = false
first_is b (c ∷ s) = c == b

-- `s.ends_with(c)`
abbrev pub last_is : ℕ → Bytes → Bool
last_is b [] = false
last_is b (c ∷ []) = c == b
last_is b (c ∷ d ∷ s) = last_is b (d ∷ s)

-- The body of the loop over the segments.
unfoldable pub check_segment : Bytes → Result (Unit {0})
check_segment seg = do
  require (not (is_empty seg)) (invalid_ref_name "consecutive slashes produce empty segment")
  require (not (first_is dot seg)) (invalid_ref_name "segment must not start with '.'")
  require (not (contains seg 0)) (invalid_ref_name "null byte in segment")

unfoldable pub new : Bytes → Result Bytes
unfolding check_segment split
new s = do
  require (not (is_empty s)) (invalid_ref_name "name must not be empty")
  require (not (first_is slash s)) (invalid_ref_name "name must not start with '/'")
  require (not (last_is slash s)) (invalid_ref_name "name must not end with '/'")
  each check_segment (split s)
  ok s

-- `rfind('/')`, with the text before it.
before_last : Bytes → Option Bytes
before_last [] = none
before_last (c ∷ s) = elim (before_last s) [
  | some p ↦ some (c ∷ p)
  | none ↦ if c == slash then some [] else none
]

unfoldable pub prefix : Bytes → Bytes
unfolding before_last
prefix s = elim (before_last s) [ some p ↦ p | none ↦ [] ]
