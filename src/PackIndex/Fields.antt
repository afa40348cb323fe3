-- ===== src/PackIndex/Fields.antt =====
-- The columns of an encoded PackIndex of src/store/pack.rs: fields of equal width, one behind the
-- other.
use bole.Base.{
  ℕ, zero, suc, ◌+◌, ◌*◌, ◌≡◌, refl, sym, ap, arith, ◌∙◌, some, List, [], ◌∷◌, ◌++◌, Bytes, length,
  length-append, All, some-injective, nat_eq, bytes_eq,
}
use bole.Base.Slices.{get_elem?, All-at, slice, slice-append}
use bole.PackIndex.{flat_map}
use mathlib.Core.List.{append_assoc}

module _ {ℓ} {A : Type ℓ} (f : A → Bytes) (w : ℕ) where
  pub length-flat_map :
      (xs : List A) → All (λ x. length (f x) ≡ w) xs → length (flat_map f xs) ≡ length xs * w
  unfolding flat_map
  length-flat_map [] h = omega arith
  length-flat_map (x ∷ xs) (e, h) =
      omega (arith, length-append (f x) (flat_map f xs), e, length-flat_map xs h)

  -- What stands before and behind the bytes of the element at `i`.
  flat_map_split :
      (xs : List A) (i : ℕ) (x : A)
      → All (λ y. length (f y) ≡ w) xs
      → get_elem? xs i ≡ some x
      → (front : Bytes) × (back : Bytes) × (flat_map f xs ≡ front ++ (f x ++ back))
        × (length front ≡ i * w)
  unfolding flat_map
  flat_map_split [] i x h p = absurd (cc)
  flat_map_split (y ∷ xs) zero x (e, h) p =
      ([], flat_map f xs, ap (λ (t : A). f t ++ flat_map f xs) (some-injective y x p), omega arith)
  flat_map_split (y ∷ xs) (suc i) x (e, h) p =
      let (front, back, q, l) = flat_map_split xs i x h p in
      (
        f y ++ front,
        back,
        ap (◌++◌ (f y)) q ∙ sym (append_assoc (f y) front _),
        omega (arith, length-append (f y) front, e, l),
      )

  pub slice-flat_map :
      (xs : List A) (i : ℕ) (x : A) (pre rest source : Bytes) (start : ℕ)
      → All (λ y. length (f y) ≡ w) xs
      → get_elem? xs i ≡ some x
      → source ≡ pre ++ (flat_map f xs ++ rest)
      → start ≡ length pre
      → slice source (start + i * w) (start + i * w + w) ≡ f x
  slice-flat_map xs i x pre rest source start h p s q =
      let (front, back, e, l) = flat_map_split xs i x h p in
      slice-append (pre ++ front) (f x) (back ++ rest)
        (s ∙ ap (λ (t : Bytes). pre ++ (t ++ rest)) e ∙ simp append_assoc refl)
        (omega (arith, length-append pre front, l, q))
        (omega (arith, length-append pre front, l, q, All-at (λ y. length (f y) ≡ w) xs i x h p))
