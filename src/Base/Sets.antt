-- ===== src/Base/Sets.antt =====
-- BTreeSet: a list in ascending order, by the derived order of its keys.
use Prim.Native.Nat.{compare, Ordering}
use mathlib.Core.Path.{◌≡◌, refl}
use mathlib.Core.Bool.{◌||◌}
use mathlib.Core.List.{List, [], ◌∷◌, foldl}
use native.Mathlib.Omega.{arith}
use bole.Base.Equality.{Eq, ◌==◌, contains, Bytes}

pub record Ord {ℓ} (A : Type ℓ) : Type ℓ where
  pub cmp : A → A → Ordering
  pub cmp_eq : (a b : A) → cmp a b ≡ Ordering.eq → a ≡ b

-- The order of byte strings: by the first byte that differs, a prefix before its extensions.
unfoldable pub bytes_cmp : Bytes → Bytes → Ordering
bytes_cmp [] [] = Ordering.eq
bytes_cmp [] (y ∷ ys) = Ordering.lt
bytes_cmp (x ∷ xs) [] = Ordering.gt
bytes_cmp (x ∷ xs) (y ∷ ys) =
    let rest = bytes_cmp xs ys in
    elim (compare x y) [
      | Ordering.lt ↦ Ordering.lt
      | Ordering.eq ↦ rest
      | Ordering.gt ↦ Ordering.gt
    ]

pub bytes_cmp_eq : (a b : Bytes) → bytes_cmp a b ≡ Ordering.eq → a ≡ b
unfolding bytes_cmp
bytes_cmp_eq [] [] h = refl
bytes_cmp_eq [] (y ∷ ys) h = absurd (cc)
bytes_cmp_eq (x ∷ xs) [] h = absurd (cc)
bytes_cmp_eq (x ∷ xs) (y ∷ ys) h = ground (arith, bytes_cmp_eq xs ys)

instance abbrev pub bytes_ord : Ord Bytes
bytes_ord = record { cmp = bytes_cmp; cmp_eq = bytes_cmp_eq }

module _ {ℓ} {A B : Type ℓ} ⦃o : Ord A⦄ ⦃q : Ord B⦄ where
  unfoldable pub pair_cmp : A × B → A × B → Ordering
  pair_cmp (a, b) (c, d) = elim (o.cmp a c) [
    | Ordering.lt ↦ Ordering.lt
    | Ordering.eq ↦ q.cmp b d
    | Ordering.gt ↦ Ordering.gt
  ]

  pub pair_cmp_eq : (s t : A × B) → pair_cmp s t ≡ Ordering.eq → s ≡ t
  unfolding pair_cmp
  pair_cmp_eq (a, b) (c, d) h = ground (arith, o.cmp_eq a c, q.cmp_eq b d)

  instance abbrev pub pair_ord : Ord (A × B)
  pair_ord = record { cmp = pair_cmp; cmp_eq = pair_cmp_eq }

module _ {ℓ} {A : Type ℓ} ⦃e : Eq A⦄ ⦃o : Ord A⦄ where
  -- `BTreeSet::insert`
  unfoldable pub set_insert : A → List A → List A
  set_insert x [] = x ∷ []
  set_insert x (y ∷ ys) =
      let rest = set_insert x ys in
      elim (o.cmp x y) [ Ordering.lt ↦ x ∷ y ∷ ys | Ordering.eq ↦ y ∷ ys | Ordering.gt ↦ y ∷ rest ]

  -- `iter.collect::<BTreeSet<_>>()`
  unfoldable pub collect_set : List A → List A
  unfolding set_insert
  collect_set = foldl (λ s x. set_insert x s) []

  pub contains-set_insert :
      (x : A) (s : List A) (y : A) → contains (set_insert x s) y ≡ (y == x || contains s y)
  unfolding set_insert
  contains-set_insert x [] y = refl
  contains-set_insert x (z ∷ s) y = ground (arith, o.cmp_eq x z, contains-set_insert x s y)

  contains-fold :
      (xs s : List A) (y : A)
      → contains (foldl (λ s x. set_insert x s) s xs) y ≡ (contains xs y || contains s y)
  contains-fold [] s y = refl
  contains-fold (x ∷ xs) s y =
      ground (arith, contains-fold xs (set_insert x s) y, contains-set_insert x s y)

  -- A collected set holds what the list holds.
  pub contains-collect_set : (xs : List A) (y : A) → contains (collect_set xs) y ≡ contains xs y
  unfolding collect_set
  contains-collect_set xs y = ground (arith, contains-fold xs [] y)

-- The order of byte strings is strict and total.
pub bytes_cmp_flip : (a b : Bytes) → bytes_cmp a b ≡ Ordering.gt → bytes_cmp b a ≡ Ordering.lt
unfolding bytes_cmp
bytes_cmp_flip [] [] h = absurd (cc)
bytes_cmp_flip [] (y ∷ ys) h = absurd (cc)
bytes_cmp_flip (x ∷ xs) [] h = refl
bytes_cmp_flip (x ∷ xs) (y ∷ ys) h = ground (arith, bytes_cmp_flip xs ys)

pub bytes_cmp_trans :
    (a b c : Bytes)
    → bytes_cmp a b ≡ Ordering.lt
    → bytes_cmp b c ≡ Ordering.lt
    → bytes_cmp a c ≡ Ordering.lt
unfolding bytes_cmp
bytes_cmp_trans [] [] c h k = absurd (cc)
bytes_cmp_trans [] (y ∷ ys) [] h k = absurd (cc)
bytes_cmp_trans [] (y ∷ ys) (z ∷ zs) h k = refl
bytes_cmp_trans (x ∷ xs) [] c h k = absurd (cc)
bytes_cmp_trans (x ∷ xs) (y ∷ ys) [] h k = absurd (cc)
bytes_cmp_trans (x ∷ xs) (y ∷ ys) (z ∷ zs) h k = ground (arith, bytes_cmp_trans xs ys zs)

pub bytes_cmp_irrefl : (a : Bytes) → bytes_cmp a a ≡ Ordering.lt → ⊥
unfolding bytes_cmp
bytes_cmp_irrefl [] h = cc
bytes_cmp_irrefl (x ∷ xs) h = ground (arith, bytes_cmp_irrefl xs)

pub bytes_cmp_flip_lt : (a b : Bytes) → bytes_cmp a b ≡ Ordering.lt → bytes_cmp b a ≡ Ordering.gt
unfolding bytes_cmp
bytes_cmp_flip_lt [] [] h = absurd (cc)
bytes_cmp_flip_lt [] (y ∷ ys) h = refl
bytes_cmp_flip_lt (x ∷ xs) [] h = absurd (cc)
bytes_cmp_flip_lt (x ∷ xs) (y ∷ ys) h = ground (arith, bytes_cmp_flip_lt xs ys)

pub bytes_cmp_refl : (a : Bytes) → bytes_cmp a a ≡ Ordering.eq
unfolding bytes_cmp
bytes_cmp_refl [] = refl
bytes_cmp_refl (x ∷ xs) = ground (arith, bytes_cmp_refl xs)
