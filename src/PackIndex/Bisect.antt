-- ===== src/PackIndex/Bisect.antt =====
-- The binary search that PackIndex of src/store/pack.rs calls: what it finds, and what a miss says.
use bole.Base.{
  ℕ, zero, suc, ◌+◌, ◌-◌, ◌/◌, ◌≤◌, ◌<◌, ◌≡◌, refl, subst, arith, true, false, Bool-cases, List,
  length, ltb, inl, inr, ◌⊎◌, ◌≢◌, ◌==◌, nat_eq, eq_iff,
}
use bole.PackIndex.{found, missing, bisect_loop, probe_of, binary_search_by}
use Prim.Native.Nat.{Ordering}

gt-cases : (o : Ordering) → (o ≡ Ordering.gt) ⊎ (o ≢ Ordering.gt)
gt-cases Ordering.lt = inr (λ p. cc)
gt-cases Ordering.eq = inr (λ p. cc)
gt-cases Ordering.gt = inl refl

kept_side :
    (o : Ordering) (a b : ℕ) → o ≢ Ordering.gt → elim o as (λ _. ℕ) [ Ordering.gt ↦ a | _ ↦ b ] ≡ b
kept_side Ordering.lt a b h = refl
kept_side Ordering.eq a b h = refl
kept_side Ordering.gt a b h = absurd (h refl)

order : (a b : ℕ) → a ≤ b → (a ≡ b) ⊎ (a < b)
order a b h = omega arith

Ordering-cases : (o : Ordering) → (o ≡ Ordering.lt) ⊎ ((o ≡ Ordering.eq) ⊎ (o ≡ Ordering.gt))
Ordering-cases Ordering.lt = inl refl
Ordering-cases Ordering.eq = inr (inl refl)
Ordering-cases Ordering.gt = inr (inr refl)

ltb-lt : (a b : ℕ) → ltb a b ≡ true → a < b
ltb-lt a b h = ground arith

ltb-ge : (a b : ℕ) → ltb a b ≡ false → b ≤ a
ltb-ge a b h = ground arith

-- The answers of a probe at ascending positions: `lt`, then `eq`, then `gt`.
abbrev pub IsRising : (ℕ → Ordering) → ℕ → Type 0
IsRising probe n = (i j : ℕ) → i < j → j < n → ((probe i ≡ Ordering.lt) ⊎ (probe j ≡ Ordering.gt))

module _ (probe : ℕ → Ordering) (n : ℕ) (rising : IsRising probe n) where
  -- What the loop keeps of `base` and `size`: the position sought, if any, lies between.
  record Between (base size : ℕ) : Type 0 where
    nonempty : 1 ≤ size
    inside : base + size ≤ n
    below : (base ≡ 0) ⊎ (probe base ≢ Ordering.gt)
    above : (j : ℕ) → base + size ≤ j → j < n → probe j ≡ Ordering.gt

  lower :
      (base size : ℕ)
      → Between base size
      → probe (base + size / 2) ≡ Ordering.gt
      → 1 < size
      → Between base (size - size / 2)
  lower base size b e more = record {
    nonempty = omega arith;
    inside = omega (arith, b.inside);
    below = b.below;
    above = λ j lo hi. above_mid j (omega arith) hi;
  }
    where
      above_mid : (j : ℕ) → base + size / 2 ≤ j → j < n → probe j ≡ Ordering.gt
      above_mid j lo hi = ground (arith, e, rising (base + size / 2) j, hi)

  upper :
      (base size : ℕ)
      → Between base size
      → probe (base + size / 2) ≢ Ordering.gt
      → 1 < size
      → Between (base + size / 2) (size - size / 2)
  upper base size b e more = record {
    nonempty = omega arith;
    inside = omega (arith, b.inside);
    below = inr e;
    above = λ j lo hi. b.above j (omega arith) hi;
  }

  bisect_loop-Between :
      (fuel base size : ℕ)
      → size ≤ suc fuel
      → Between base size
      → Between (bisect_loop fuel probe base size) 1
  unfolding bisect_loop
  bisect_loop-Between zero base size enough b = subst (Between base) (sizes_one) b
    where
      sizes_one : size ≡ 1
      sizes_one = omega (arith, b.nonempty)
  bisect_loop-Between (suc fuel) base size enough b = elim (Bool-cases (ltb 1 size)) [
    | inl more ↦ elim (gt-cases (probe (base + size / 2))) [
      | inl e ↦
          rw (more, e)
            (bisect_loop-Between fuel base (size - size / 2) (omega (arith, b.nonempty))
              (lower base size b e (ltb-lt 1 size more)))
      | inr e ↦
          rw (more, kept_side _ base (base + size / 2) e)
            (bisect_loop-Between fuel (base + size / 2) (size - size / 2)
              (omega (arith, b.nonempty)) (upper base size b e (ltb-lt 1 size more)))
    ]
    | inr last ↦ rw last (subst (Between base) (omega (arith, b.nonempty, ltb-ge 1 size last)) b)
  ]

-- What a miss at `k` says: every probe before it is low, every one from it on is high.
abbrev pub Splits : (ℕ → Ordering) → ℕ → ℕ → Type 0
Splits probe n k =
    (k ≤ n)
    × ((j : ℕ) → j < k → probe j ≡ Ordering.lt)
    × ((j : ℕ) → k ≤ j → j < n → probe j ≡ Ordering.gt)

module _ (probe : ℕ → Ordering) (n : ℕ) (rising : IsRising probe n) where
  whole : 1 ≤ n → Between probe n rising 0 n
  whole h = record {
    nonempty = h;
    inside = omega arith;
    below = inl refl;
    above = λ j lo hi. absurd (omega arith);
  }

  low-Splits :
      (base : ℕ)
      → Between probe n rising base 1
      → probe base ≡ Ordering.lt
      → Splits probe n (base + 1)
  low-Splits base b e = (b.inside, before, b.above)
    where
      before : (j : ℕ) → j < base + 1 → probe j ≡ Ordering.lt
      before j h = elim (order j base (omega arith)) [
        | inl q ↦ rw q e
        | inr q ↦ elim (rising j base q (omega (arith, b.inside))) [
          | inl r ↦ r
          | inr r ↦ absurd (cc)
        ]
      ]

  high-Splits :
      (base : ℕ) → Between probe n rising base 1 → probe base ≡ Ordering.gt → Splits probe n base
  high-Splits base b e = elim b.below [
    | inl q ↦ (omega (arith, b.inside), λ j h. absurd (omega (arith, q)), after)
    | inr r ↦ absurd (r e)
  ]
    where
      after : (j : ℕ) → base ≤ j → j < n → probe j ≡ Ordering.gt
      after j lo hi = elim (order base j lo) [
        | inl q ↦ rw (← q) e
        | inr q ↦ b.above j (omega arith) hi
      ]

module _ {ℓ} {A : Type ℓ} (f : A → Ordering) (xs : List A)
    (rising : IsRising (probe_of f xs) (length xs)) where
  base : ℕ
  base = bisect_loop (length xs) (probe_of f xs) 0 (length xs)

  base-Between : 1 ≤ length xs → Between (probe_of f xs) (length xs) rising base 1
  unfolding base
  base-Between h =
      bisect_loop-Between (probe_of f xs) (length xs) rising (length xs) 0 (length xs) (omega arith)
        (whole (probe_of f xs) (length xs) rising h)

  -- A hit is at a position that the probe calls equal; a miss splits the list.
  pub binary_search_by-Right :
      ((i : ℕ) × (binary_search_by f xs ≡ found i) × (probe_of f xs i ≡ Ordering.eq))
      ⊎ ((k : ℕ) × (binary_search_by f xs ≡ missing k) × Splits (probe_of f xs) (length xs) k)
  unfolding binary_search_by base
  binary_search_by-Right = elim (Bool-cases (length xs == 0)) [
    | inl e ↦ inr (
      0,
      rw e refl,
      (
        omega arith,
        λ j h. absurd (omega arith),
        λ j lo hi. absurd (omega (arith, (eq_iff (length xs) 0).0 e)),
      ),
    )
    | inr e ↦
        let b = base-Between (ground (arith, e)) in
        elim (Ordering-cases (probe_of f xs base)) [
          | inl q ↦
              inr (base + 1, rw (e, q) refl, low-Splits (probe_of f xs) (length xs) rising base b q)
          | inr (inl q) ↦ inl (base, rw (e, q) refl, q)
          | inr (inr q) ↦
              inr (base, rw (e, q) refl, high-Splits (probe_of f xs) (length xs) rising base b q)
        ]
  ]
