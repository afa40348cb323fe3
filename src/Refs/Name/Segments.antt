-- ===== src/Refs/Name/Segments.antt =====
-- The segments of a name of src/refs/name.rs: splitting and joining.
use bole.Base.{
  ℕ, Bool, true, false, List, [], ◌∷◌, ◌++◌, ◌≡◌, refl, ◌≢◌, inl, inr, arith, sym, ap, ap₂, ◌∙◌,
  Bytes, bytes_eq, nat_eq, ◌==◌, eq_iff, contains, All, if◌then◌else◌, Bool-cases,
}
use bole.Refs.Name.{slash, dot, cons_first, split, is_empty, first_is, last_is}

-- The text that the segments make with a separator between each two.
abbrev pub join_segments : List Bytes → Bytes
join_segments [] = []
join_segments (seg ∷ []) = seg
join_segments (seg ∷ segs) = seg ++ slash ∷ join_segments segs

-- A segment is not empty, does not start with a dot, and holds neither a NUL nor a separator.
pub record IsSegment (seg : Bytes) : Type 0 where
  pub some_byte : is_empty seg ≡ false
  pub no_dot : first_is dot seg ≡ false
  pub no_nul : contains seg 0 ≡ false
  pub no_slash : contains seg slash ≡ false

cons_first-join :
    (c : ℕ) (segs : List Bytes)
    → segs ≢ []
    → join_segments (cons_first c segs) ≡ (c ∷ join_segments segs)
unfolding cons_first
cons_first-join c [] n = absurd (n refl)
cons_first-join c (seg ∷ []) n = refl
cons_first-join c (seg ∷ t ∷ segs) n = refl

pub split_some : (s : Bytes) → split s ≢ []
unfolding split
split_some [] h = cc
split_some (c ∷ s) h = some_first (split s) (c == slash) h
  where
    some_first : (r : List Bytes) (b : Bool) → (if b then [] ∷ r else cons_first c r) ≢ []
    some_first r true e = cc
    some_first [] false e = cc
    some_first (seg ∷ segs) false e = cc

join-nil :
    (segs : List Bytes) → segs ≢ [] → join_segments ([] ∷ segs) ≡ (slash ∷ join_segments segs)
join-nil [] n = absurd (n refl)
join-nil (seg ∷ segs) n = refl

pub join-split : (s : Bytes) → join_segments (split s) ≡ s
unfolding split
join-split [] = unfold split in refl
join-split (c ∷ s) = elim (Bool-cases (c == slash)) [
  | inl p ↦
      rw (split, p)
        (join-nil (split s) (split_some s) ∙ ap₂ ◌∷◌ (sym ((eq_iff c slash).0 p)) (join-split s))
  | inr n ↦
      rw (split, n) (cons_first-join c (split s) (split_some s) ∙ ap (λ t. c ∷ t) (join-split s))
]

abbrev pub NoSlash : Bytes → Type 0
NoSlash seg = contains seg slash ≡ false

All-cons_first :
    (c : ℕ) (segs : List Bytes)
    → (c == slash) ≡ false
    → All NoSlash segs
    → All NoSlash (cons_first c segs)
unfolding cons_first
All-cons_first c [] n a = (ground arith, tt)
All-cons_first c (seg ∷ segs) n a = (ground (arith, a.0), a.1)

pub segments-NoSlash : (s : Bytes) → All NoSlash (split s)
unfolding split
segments-NoSlash [] = unfold split in (refl, tt)
segments-NoSlash (c ∷ s) = elim (Bool-cases (c == slash)) [
  | inl p ↦ rw (split, p) (refl, segments-NoSlash s)
  | inr n ↦ rw (split, n) (All-cons_first c (split s) n (segments-NoSlash s))
]

-- A segment in front of a separator, and the last one.
split-segment : (seg t : Bytes) → NoSlash seg → split (seg ++ slash ∷ t) ≡ (seg ∷ split t)
unfolding split
split-segment [] t n = rw (split, (eq_iff slash slash).1 refl)
split-segment (c ∷ seg) t n =
    rw (split, not_slash)
      (ap (cons_first c) (split-segment seg t (ground (arith, n))) ∙ unfold cons_first in refl)
  where
    not_slash : (c == slash) ≡ false
    not_slash = ground (arith, n)

split-last : (seg : Bytes) → NoSlash seg → split seg ≡ (seg ∷ [])
unfolding split
split-last [] n = unfold split in refl
split-last (c ∷ seg) n =
    rw (split, not_slash)
      (ap (cons_first c) (split-last seg (ground (arith, n))) ∙ unfold cons_first in refl)
  where
    not_slash : (c == slash) ≡ false
    not_slash = ground (arith, n)

pub split-join :
    (segs : List Bytes) → segs ≢ [] → All NoSlash segs → split (join_segments segs) ≡ segs
split-join [] n a = absurd (n refl)
split-join (seg ∷ []) n a = split-last seg a.0
split-join (seg ∷ t ∷ segs) n a =
    split-segment seg (join_segments (t ∷ segs)) a.0
    ∙ ap (λ r. seg ∷ r) (split-join (t ∷ segs) (λ e. cc) a.1)

-- A name that ends in the separator has an empty segment after the first.
abbrev pub Filled : List Bytes → Type 0
Filled = All (λ seg. is_empty seg ≡ false)

abbrev FilledTail : List Bytes → Type 0
FilledTail [] = Unit
FilledTail (seg ∷ segs) = Filled segs

pub FilledTail-Filled : (segs : List Bytes) → Filled segs → FilledTail segs
FilledTail-Filled [] a = tt
FilledTail-Filled (seg ∷ segs) a = a.1

FilledTail-cons_first :
    (c : ℕ) (segs : List Bytes) → FilledTail (cons_first c segs) → FilledTail segs
unfolding cons_first
FilledTail-cons_first c [] a = tt
FilledTail-cons_first c (seg ∷ segs) a = a

pub last_is-split : (s : Bytes) → last_is slash s ≡ true → ¬ FilledTail (split s)
unfolding split
last_is-split [] h a = cc
last_is-split (c ∷ []) h a = elim (Bool-cases (c == slash)) [
  | inl p ↦ cc ((rw (p, split) at a).0)
  | inr n ↦ cc
]
last_is-split (c ∷ d ∷ s) h a = elim (Bool-cases (c == slash)) [
  | inl p ↦ last_is-split (d ∷ s) h (FilledTail-Filled (split (d ∷ s)) (rw (p, split) at a))
  | inr n ↦ last_is-split (d ∷ s) h (FilledTail-cons_first c (split (d ∷ s)) (rw (n, split) at a))
]
