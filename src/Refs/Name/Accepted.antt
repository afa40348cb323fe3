-- ===== src/Refs/Name/Accepted.antt =====
-- Which names `RefName::new` of src/refs/name.rs accepts.
use bole.Base.{
  false, List, [], ◌∷◌, ◌≡◌, refl, ◌≢◌, ◌↔◌, inl, inr, arith, sym, ap, subst, ◌∙◌, Bytes, bytes_eq,
  nat_eq, ◌==◌, All, Bool-cases, ok, each, each-All, each-intro,
}
use bole.Refs.Name.{slash, split, is_empty, first_is, last_is, check_segment, new}
use bole.Refs.Name.Segments.{
  join_segments, IsSegment, split_some, join-split, NoSlash, segments-NoSlash, split-join, Filled,
  FilledTail-Filled, last_is-split,
}

check_segment-ok : (seg : Bytes) → NoSlash seg → check_segment seg ≡ ok tt → IsSegment seg
unfolding check_segment
check_segment-ok seg n h = record {
  some_byte = ground arith;
  no_dot = ground arith;
  no_nul = ground arith;
  no_slash = n;
}

IsSegment-check : (seg : Bytes) → IsSegment seg → check_segment seg ≡ ok tt
unfolding check_segment
IsSegment-check seg i = rw (i.some_byte, i.no_dot, i.no_nul)

All-checked :
    (segs : List Bytes)
    → All NoSlash segs
    → All (λ seg. check_segment seg ≡ ok tt) segs
    → All IsSegment segs
All-checked [] n h = tt
All-checked (seg ∷ segs) n h = (check_segment-ok seg n.0 h.0, All-checked segs n.1 h.1)

All-segments :
    (segs : List Bytes)
    → All IsSegment segs
    → All NoSlash segs × All (λ seg. check_segment seg ≡ ok tt) segs × Filled segs
All-segments [] a = (tt, tt, tt)
All-segments (seg ∷ segs) a =
    let (n, c, f) = All-segments segs a.1 in
    ((a.0.no_slash, n), (IsSegment-check seg a.0, c), (a.0.some_byte, f))

-- The text is one segment or several, joined by separators.
abbrev pub IsName : Bytes → Type 0
IsName s = (segs : List Bytes) × (segs ≢ []) × All IsSegment segs × (join_segments segs ≡ s)

new-IsName : (s : Bytes) → new s ≡ ok s → IsName s
unfolding new
new-IsName s h =
    let checks : each check_segment (split s) ≡ ok tt = ground arith in
    (
      split s,
      split_some s,
      All-checked (split s) (segments-NoSlash s) (each-All check_segment (split s) checks),
      join-split s,
    )

Filled-start : (s : Bytes) → Filled (split s) → (is_empty s ≡ false) × (first_is slash s ≡ false)
unfolding split
Filled-start [] a = absurd (cc a.0)
Filled-start (c ∷ s) a = elim (Bool-cases (c == slash)) [
  | inl p ↦ absurd (cc ((rw (p, split) at a).0))
  | inr n ↦ (refl, n)
]

Filled-end : (s : Bytes) → Filled (split s) → last_is slash s ≡ false
Filled-end s a = elim (Bool-cases (last_is slash s)) [
  | inl p ↦ absurd (last_is-split s p (FilledTail-Filled (split s) a))
  | inr n ↦ n
]

new-of_split :
    (s : Bytes) → Filled (split s) → All (λ seg. check_segment seg ≡ ok tt) (split s) → new s ≡ ok s
unfolding new
new-of_split s filled checked = rw (
  (Filled-start s filled).0,
  (Filled-start s filled).1,
  Filled-end s filled,
  each-intro check_segment (split s) checked,
)

IsName-new : (s : Bytes) → IsName s → new s ≡ ok s
IsName-new s (segs, n, a, e) =
    let (no_slash, checked, filled) = All-segments segs a in
    let same = ap split (sym e) ∙ split-join segs n no_slash in
    new-of_split s (subst Filled (sym same) filled)
      (subst (All (λ seg. check_segment seg ≡ ok tt)) (sym same) checked)

-- A name is accepted exactly when it is one segment or several, joined by separators, where no
-- segment is empty, starts with a dot, or holds a NUL or a separator.
pub new_iff : (s : Bytes) → (new s ≡ ok s) ↔ IsName s
new_iff s = (new-IsName s, IsName-new s)
