-- ===== src/Refs/Name/Prefix.antt =====
-- What `prefix` of src/refs/name.rs gives.
use bole.Base.{
  Bool, true, false, Option, none, some, [], ◌∷◌, ◌++◌, ◌≡◌, refl, ◌⊎◌, inl, inr, arith, ap, Bytes,
  bytes_eq, nat_eq, ◌==◌, eq_iff, contains, if◌then◌else◌,
}
use bole.Refs.Name.{slash, before_last, prefix}

abbrev PrefixOf : Bytes → Option Bytes → Type 0
PrefixOf s none = contains s slash ≡ false
PrefixOf s (some p) = (l : Bytes) × (s ≡ p ++ slash ∷ l) × (contains l slash ≡ false)

before_last-PrefixOf : (s : Bytes) → PrefixOf s (before_last s)
unfolding before_last
before_last-PrefixOf [] = refl
before_last-PrefixOf (c ∷ s) = extend (before_last s) (c == slash) refl (before_last-PrefixOf s)
  where
    extend :
        (o : Option Bytes) (b : Bool)
        → (c == slash) ≡ b
        → PrefixOf s o
        → PrefixOf (c ∷ s) (elim o [ some p ↦ some (c ∷ p) | none ↦ if b then some [] else none ])
    extend (some p) b e (l, h, n) = (l, ap (λ t. c ∷ t) h, n)
    extend none true e h = (s, ap (λ d. d ∷ s) ((eq_iff c slash).0 e), h)
    extend none false e h = ground (arith, h)

-- `prefix` is what stands before the last separator, or nothing where there is none.
pub prefix_cases :
    (s : Bytes)
    → ((l : Bytes) × (s ≡ prefix s ++ slash ∷ l) × (contains l slash ≡ false))
      ⊎ ((prefix s ≡ []) × (contains s slash ≡ false))
unfolding prefix
prefix_cases s = go (before_last s) (before_last-PrefixOf s)
  where
    go :
        (o : Option Bytes)
        → PrefixOf s o
        → ((l : Bytes) × (s ≡ (elim o [ some p ↦ p | none ↦ [] ]) ++ slash ∷ l)
            × (contains l slash ≡ false))
          ⊎ (((elim o [ some p ↦ p | none ↦ [] ]) ≡ []) × (contains s slash ≡ false))
    go (some p) h = inl h
    go none h = inr (refl, h)
