-- ===== src/Glob/Spec.antt =====
-- What it means for a path to match a glob, with no search order and no memo in it.
use bole.Base.{
  ℕ, ◌≤◌, ◌<◌, Bool, true, false, [], ◌∷◌, ◌≡◌, refl, ◌≢◌, ◌⊎◌, inl, inr, arith, sym, ap, ◌∙◌,
  subst, Bytes, ◌==◌, nat_eq, length, if◌then◌else◌,
}
use bole.Glob.{Shape, empty, deep_slash, deep, wild, literal, slash, shape, star_shape, deep_shape}

-- `t` is what follows some separator of `s`.
abbrev pub AfterSlash : Bytes → Bytes → Type 0
AfterSlash [] t = ⊥
AfterSlash (c ∷ s) t = ((c ≡ slash) × (s ≡ t)) ⊎ AfterSlash s t

-- `s` is a run of bytes other than the separator, and then `t`.
abbrev pub InSegment : Bytes → Bytes → Type 0
InSegment [] t = t ≡ []
InSegment (c ∷ s) t = (t ≡ (c ∷ s)) ⊎ ((c ≢ slash) × InSegment s t)

pub data Matches : Bytes → Bytes → Type 0 where
  -- The empty pattern matches the empty path.
  nothing : {p s : Bytes} → shape p ≡ empty → s ≡ [] → Matches p s
  -- `**/` stands for nothing, or for a part of the path that ends in a separator.
  no_directory : {p r s : Bytes} → shape p ≡ deep_slash r → Matches r s → Matches p s
  directories :
      {p r s t : Bytes} → shape p ≡ deep_slash r → AfterSlash s t → Matches p t → Matches p s
  -- `**` stands for nothing, for a part that ends in a separator, or for the whole path.
  deep_nothing : {p r s : Bytes} → shape p ≡ deep r → Matches r s → Matches p s
  deep_part : {p r s t : Bytes} → shape p ≡ deep r → AfterSlash s t → Matches r t → Matches p s
  deep_all : {p r s : Bytes} → shape p ≡ deep r → Matches r [] → Matches p s
  -- `*` stands for a run without separators.
  star : {p r s t : Bytes} → shape p ≡ wild r → InSegment s t → Matches r t → Matches p s
  -- Any other byte stands for itself.
  byte : {p r s t : Bytes} {c : ℕ} → shape p ≡ literal c r → s ≡ (c ∷ t) → Matches r t → Matches p s

-- The ways to match, by the shape of the pattern.
abbrev pub Ways : Shape → Bytes → Bytes → Type 0
Ways empty p s = s ≡ []
Ways (deep_slash r) p s = Matches r s ⊎ ((t : Bytes) × AfterSlash s t × Matches p t)
Ways (deep r) p s = Matches r s ⊎ (((t : Bytes) × AfterSlash s t × Matches r t) ⊎ Matches r [])
Ways (wild r) p s = (t : Bytes) × InSegment s t × Matches r t
Ways (literal c r) p s = (t : Bytes) × (s ≡ (c ∷ t)) × Matches r t

pub Matches→Ways : {p s : Bytes} → Matches p s → Ways (shape p) p s
Matches→Ways (nothing e h) = rw e h
Matches→Ways (no_directory e d) = rw e (inl d)
Matches→Ways (directories {t = t} e a d) = rw e (inr (t, a, d))
Matches→Ways (deep_nothing e d) = rw e (inl d)
Matches→Ways (deep_part {t = t} e a d) = rw e (inr (inl (t, a, d)))
Matches→Ways (deep_all e d) = rw e (inr (inr d))
Matches→Ways (star {t = t} e a d) = rw e (t, a, d)
Matches→Ways (byte {t = t} e h d) = rw e (t, h, d)

pub Ways→Matches : (h : Shape) {p s : Bytes} → shape p ≡ h → Ways h p s → Matches p s
Ways→Matches empty e w = nothing e w
Ways→Matches (deep_slash r) e (inl d) = no_directory e d
Ways→Matches (deep_slash r) e (inr (t, a, d)) = directories e a d
Ways→Matches (deep r) e (inl d) = deep_nothing e d
Ways→Matches (deep r) e (inr (inl (t, a, d))) = deep_part e a d
Ways→Matches (deep r) e (inr (inr d)) = deep_all e d
Ways→Matches (wild r) e (t, a, d) = star e a d
Ways→Matches (literal c r) e (t, h, d) = byte e h d

-- `t` is a suffix of `s`: every slice that the matcher takes is one.
abbrev pub IsTail : Bytes → Bytes → Type 0
IsTail t [] = t ≡ []
IsTail t (c ∷ s) = (t ≡ (c ∷ s)) ⊎ IsTail t s

pub IsTail-refl : (s : Bytes) → IsTail s s
IsTail-refl [] = refl
IsTail-refl (c ∷ s) = inl refl

pub IsTail-nil : (s : Bytes) → IsTail [] s
IsTail-nil [] = refl
IsTail-nil (c ∷ s) = inr (IsTail-nil s)

cons_tail : {a b : ℕ} {u v : Bytes} → (a ∷ u) ≡ (b ∷ v) → u ≡ v
cons_tail p = cc

pub IsTail-rest : (c : ℕ) (t s : Bytes) → IsTail (c ∷ t) s → IsTail t s
IsTail-rest c t [] h = absurd (cc)
IsTail-rest c t (d ∷ s) (inl e) = inr (subst (λ u. IsTail u s) (cons_tail (sym e)) (IsTail-refl s))
IsTail-rest c t (d ∷ s) (inr h) = inr (IsTail-rest c t s h)

pub IsTail-trans : (r t s : Bytes) → IsTail r t → IsTail t s → IsTail r s
IsTail-trans r [] s h k = subst (λ u. IsTail u s) (sym h) (IsTail-nil s)
IsTail-trans r (c ∷ t) s (inl e) k = subst (λ u. IsTail u s) (sym e) k
IsTail-trans r (c ∷ t) s (inr h) k = IsTail-trans r t s h (IsTail-rest c t s k)

IsTail-length-le : (t s : Bytes) → IsTail t s → length t ≤ length s
IsTail-length-le t [] h = ground arith
IsTail-length-le t (c ∷ s) (inl e) = ground arith
IsTail-length-le t (c ∷ s) (inr h) = omega (arith, IsTail-length-le t s h)

-- Two suffixes of one length are one: why a pair of lengths is a sound key.
pub IsTail-unique : (s t u : Bytes) → IsTail t s → IsTail u s → length t ≡ length u → t ≡ u
IsTail-unique [] t u h k e = h ∙ sym k
IsTail-unique (c ∷ s) t u (inl h) (inl k) e = h ∙ sym k
IsTail-unique (c ∷ s) t u (inl h) (inr k) e =
    absurd (omega (arith, ap (λ (v : Bytes). length v) h, IsTail-length-le u s k))
IsTail-unique (c ∷ s) t u (inr h) (inl k) e =
    absurd (omega (arith, ap (λ (v : Bytes). length v) k, IsTail-length-le t s h))
IsTail-unique (c ∷ s) t u (inr h) (inr k) e = IsTail-unique s t u h k e

-- What a shape leaves of the pattern is a proper suffix of it.
abbrev pub Leaves : Shape → Bytes → Type 0
Leaves empty p = Unit
Leaves (deep_slash r) p = IsTail r p × (length r < length p)
Leaves (deep r) p = IsTail r p × (length r < length p)
Leaves (wild r) p = IsTail r p × (length r < length p)
Leaves (literal c r) p = IsTail r p × (length r < length p)

IsTail-step :
    (n : ℕ) (r p : Bytes)
    → IsTail r p × (length r < length p)
    → IsTail r (n ∷ p) × (length r < length (n ∷ p))
IsTail-step n r p (h, k) = (inr h, omega arith)

Leaves-step : (n : ℕ) (h : Shape) (p : Bytes) → Leaves h p → Leaves h (n ∷ p)
Leaves-step n empty p l = tt
Leaves-step n (deep_slash r) p l = IsTail-step n r p l
Leaves-step n (deep r) p l = IsTail-step n r p l
Leaves-step n (wild r) p l = IsTail-step n r p l
Leaves-step n (literal c r) p l = IsTail-step n r p l

IsTail-drop_one : (n : ℕ) (p : Bytes) → IsTail p (n ∷ p) × (length p < length (n ∷ p))
IsTail-drop_one n p = (inr (IsTail-refl p), omega arith)

deep_shape-Leaves : (n : ℕ) (p : Bytes) → Leaves (deep_shape p) (n ∷ p)
unfolding deep_shape
deep_shape-Leaves n [] = IsTail-drop_one n []
deep_shape-Leaves n (c ∷ p) = choose (c == slash)
  where
    choose : (b : Bool) → Leaves (if b then deep_slash p else deep (c ∷ p)) (n ∷ c ∷ p)
    choose true = IsTail-step n p (c ∷ p) (IsTail-drop_one c p)
    choose false = IsTail-drop_one n (c ∷ p)

star_shape-Leaves : (n : ℕ) (p : Bytes) → Leaves (star_shape p) (n ∷ p)
unfolding star_shape
star_shape-Leaves n [] = IsTail-drop_one n []
star_shape-Leaves n (c ∷ p) = choose (c == b'*')
  where
    choose : (b : Bool) → Leaves (if b then deep_shape p else wild (c ∷ p)) (n ∷ c ∷ p)
    choose true = Leaves-step n (deep_shape p) (c ∷ p) (deep_shape-Leaves c p)
    choose false = IsTail-drop_one n (c ∷ p)

pub shape-Leaves : (p : Bytes) → Leaves (shape p) p
unfolding shape
shape-Leaves [] = tt
shape-Leaves (c ∷ p) = choose (c == b'*')
  where
    choose : (b : Bool) → Leaves (if b then star_shape p else literal c p) (c ∷ p)
    choose true = star_shape-Leaves c p
    choose false = IsTail-drop_one c p
