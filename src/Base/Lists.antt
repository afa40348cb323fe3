-- ===== src/Base/Lists.antt =====
-- Lists measured by native numbers, and the tests on lists that the program makes.
use Prim.Native.Nat.{ℕ, suc, ◌+◌}
use mathlib.Core.Logic.{◌⊎◌, inl, inr}
use mathlib.Core.Path.{◌≡◌, refl, sym, subst, ap, ◌∙◌}
use mathlib.Core.Bool.{Bool, true, false, ◌&&◌, ◌||◌}
use mathlib.Core.Option.{Option, none, some}
use mathlib.Core.List.{List, [], ◌∷◌, ◌++◌, map, Memᴰ}
use native.Mathlib.Omega.{arith}
use bole.Base.Logic.{if◌then◌else◌, Bool-cases}
use bole.Base.Equality.{Eq, ◌==◌, contains, eq_iff}

module _ {ℓ} {A : Type ℓ} where
  abbrev pub length : List A → ℕ
  length [] = 0
  length (x ∷ xs) = suc (length xs)

  -- `iter().any(p)`
  abbrev pub any : (A → Bool) → List A → Bool
  any p [] = false
  any p (x ∷ xs) = p x || any p xs

  -- `iter().all(p)`
  abbrev pub all : (A → Bool) → List A → Bool
  all p [] = true
  all p (x ∷ xs) = p x && all p xs

  -- `iter().filter(p)`
  abbrev pub filter : (A → Bool) → List A → List A
  filter p [] = []
  filter p (x ∷ xs) = let rest = filter p xs in if p x then x ∷ rest else rest

  -- `iter().find(p)`
  abbrev pub find : (A → Bool) → List A → Option A
  find p [] = none
  find p (x ∷ xs) = if p x then some x else find p xs

  -- `reverse()`
  abbrev pub reverse : List A → List A
  reverse [] = []
  reverse (x ∷ xs) = reverse xs ++ (x ∷ [])

  pub length-append : (xs ys : List A) → length (xs ++ ys) ≡ length xs + length ys
  length-append [] ys = omega arith
  length-append (x ∷ xs) ys = omega (arith, length-append xs ys)

  abbrev pub All {κ} : (A → Type κ) → List A → Type κ
  All P [] = Unit
  All P (x ∷ xs) = P x × All P xs

  pub All-map {κ ι} :
      {P : A → Type κ} {Q : A → Type ι} (xs : List A) → ((x : A) → P x → Q x) → All P xs → All Q xs
  All-map [] f h = tt
  All-map (x ∷ xs) f (p, h) = (f x p, All-map xs f h)

module _ {ℓ} {A : Type ℓ} ⦃e : Eq A⦄ where
  pub contains_head : (x : A) (xs : List A) → contains (x ∷ xs) x ≡ true
  contains_head x xs = ground arith

  pub contains_cases :
      {x y : A} (ys : List A) → contains (y ∷ ys) x ≡ true → (x ≡ y) ⊎ (contains ys x ≡ true)
  contains_cases {x} {y} ys m = elim (Bool-cases (x == y)) [
    | inl p ↦ inl ((eq_iff x y).0 p)
    | inr n ↦ inr (ground (arith, m))
  ]

  pub All-intro {κ} :
      (P : A → Type κ) (xs : List A) → ((x : A) → contains xs x ≡ true → P x) → All P xs
  All-intro P [] h = tt
  All-intro P (x ∷ xs) h =
      (h x (contains_head x xs), All-intro P xs (λ y m. h y (ground (arith, m))))

  pub All-elim {κ} : (P : A → Type κ) (xs : List A) (x : A) → All P xs → contains xs x ≡ true → P x
  All-elim P [] x h m = cc
  All-elim P (y ∷ ys) x (hy, hys) m = elim (Bool-cases (x == y)) [
    | inl p ↦ subst P (sym ((eq_iff x y).0 p)) hy
    | inr n ↦ All-elim P ys x hys (ground (arith, m))
  ]

  pub contains-append :
      (xs ys : List A) (x : A) → contains (xs ++ ys) x ≡ (contains xs x || contains ys x)
  contains-append [] ys x = refl
  contains-append (y ∷ xs) ys x = ground (arith, contains-append xs ys x)

  pub contains-reverse : (xs : List A) (x : A) → contains (reverse xs) x ≡ contains xs x
  contains-reverse [] x = refl
  contains-reverse (y ∷ ys) x =
      ground (arith, contains-reverse ys x, contains-append (reverse ys) (y ∷ []) x)

  -- What a filtered list holds.
  pub contains-filter :
      (p : A → Bool) (xs : List A) (x : A) → contains (filter p xs) x ≡ (p x && contains xs x)
  contains-filter p [] x = ground arith
  contains-filter p (y ∷ ys) x = elim (Bool-cases (x == y)) [
    | inl q ↦ rw ((eq_iff x y).0 q) (ground (arith, contains-filter p ys y))
    | inr n ↦ ground (arith, contains-filter p ys x)
  ]

  pub all-elim :
      (p : A → Bool) (xs : List A) (x : A) → all p xs ≡ true → contains xs x ≡ true → p x ≡ true
  all-elim p [] x h m = cc
  all-elim p (y ∷ ys) x h m = elim (Bool-cases (x == y)) [
    | inl q ↦ rw ((eq_iff x y).0 q) (ground arith)
    | inr n ↦ all-elim p ys x (ground arith) (ground arith)
  ]

  pub all-intro :
      (p : A → Bool) (xs : List A) → ((x : A) → contains xs x ≡ true → p x ≡ true) → all p xs ≡ true
  all-intro p [] h = refl
  all-intro p (x ∷ xs) h =
      rw (h x (contains_head x xs)) (all-intro p xs (λ y m. h y (ground (arith, m))))

  pub any-intro :
      (p : A → Bool) (xs : List A) (x : A) → contains xs x ≡ true → p x ≡ true → any p xs ≡ true
  any-intro p [] x m h = cc
  any-intro p (y ∷ ys) x m h = elim (Bool-cases (x == y)) [
    | inl q ↦ rw (← (eq_iff x y).0 q, h) refl
    | inr n ↦ ground (arith, any-intro p ys x)
  ]

  pub any-elim :
      (p : A → Bool) (xs : List A)
      → any p xs ≡ true
      → (x : A) × (contains xs x ≡ true) × (p x ≡ true)
  any-elim p [] h = absurd (cc)
  any-elim p (x ∷ xs) h = elim (Bool-cases (p x)) [
    | inl q ↦ (x, contains_head x xs, q)
    | inr n ↦ let (y, m, q) = any-elim p xs (ground arith) in (y, ground (arith, m), q)
  ]

  -- The first element that passes is an element, and passes.
  pub find-some :
      (p : A → Bool) (xs : List A) (x : A)
      → find p xs ≡ some x
      → (contains xs x ≡ true) × (p x ≡ true)
  find-some p [] x h = absurd (cc)
  find-some p (y ∷ ys) x h = elim (Bool-cases (p y)) [
    | inl q ↦ (ground arith, ground arith)
    | inr n ↦ let (m, q) = find-some p ys x (ground arith) in (ground (arith, m), q)
  ]

  pub find-none :
      (p : A → Bool) (xs : List A) (x : A) → find p xs ≡ none → contains xs x ≡ true → p x ≡ false
  find-none p [] x h m = absurd (cc)
  find-none p (y ∷ ys) x h m = elim (Bool-cases (x == y)) [
    | inl q ↦ rw ((eq_iff x y).0 q) (ground arith)
    | inr n ↦ find-none p ys x (ground arith) (ground arith)
  ]

-- `str::starts_with`, the text first.
module _ {ℓ} {A : Type ℓ} ⦃e : Eq A⦄ where
  unfoldable pub starts_with : List A → List A → Bool
  starts_with s [] = true
  starts_with [] (p ∷ ps) = false
  starts_with (c ∷ s) (p ∷ ps) = c == p && starts_with s ps

-- The same for lists whose elements have no decided equality, by the library's membership.
module _ {ℓ} {A : Type ℓ} where
  pub any-Mem : (p : A → Bool) (xs : List A) → any p xs ≡ true → (x : A) × Memᴰ x xs × (p x ≡ true)
  any-Mem p [] h = absurd (cc)
  any-Mem p (x ∷ xs) h = elim (Bool-cases (p x)) [
    | inl q ↦ (x, Memᴰ.head refl, q)
    | inr n ↦ let (y, m, q) = any-Mem p xs (ground arith) in (y, Memᴰ.tail m, q)
  ]

  pub Mem-any : (p : A → Bool) {x : A} {xs : List A} → Memᴰ x xs → p x ≡ true → any p xs ≡ true
  Mem-any p (Memᴰ.head e) h = rw (ap p (sym e) ∙ h)
  Mem-any p {xs = y ∷ ys} (Memᴰ.tail m) h = ground (arith, Mem-any p m h)

  pub any_mono :
      (p q : A → Bool) (xs : List A)
      → ((x : A) → p x ≡ true → q x ≡ true)
      → any p xs ≡ true
      → any q xs ≡ true
  any_mono p q xs f h = let (x, m, e) = any-Mem p xs h in Mem-any q m (f x e)

  pub any-append : (p : A → Bool) (xs ys : List A) → any p (xs ++ ys) ≡ (any p xs || any p ys)
  any-append p [] ys = refl
  any-append p (x ∷ xs) ys = ground (arith, any-append p xs ys)

  pub any-map {κ} :
      {B : Type κ} (p : B → Bool) (f : A → B) (xs : List A)
      → any p (map f xs) ≡ any (λ x. p (f x)) xs
  any-map p f [] = refl
  any-map p f (x ∷ xs) = rw (any-map p f xs)
