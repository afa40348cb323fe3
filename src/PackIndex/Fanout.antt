-- ===== src/PackIndex/Fanout.antt =====
-- PackIndex::fanout_at of src/store/pack.rs on a table in ascending order of ids, and the probes of
-- the searches in it.
use bole.Base.{
  ℕ, zero, suc, ◌≤◌, ◌<◌, ◌≡◌, refl, sym, subst, arith, ◌∙◌, Bool-cases, some, List, [], ◌∷◌,
  length, leb, if◌then◌else◌, inl, inr, ◌⊎◌, nat_eq, bytes_cmp, Option-cases, Bytes, bytes_cmp_eq,
  bytes_cmp_flip, bytes_cmp_flip_lt, bytes_cmp_trans,
}
use bole.Base.Slices.{get_elem?, get_elem?-lt}
use bole.Refs.{ObjectId}
use bole.Pack.{PackEntry}
use bole.PackIndex.{PackIndex, probe_of, partition_point, id_byte, fanout_at}
use bole.PackIndex.Bisect.{IsRising, Splits, binary_search_by-Right}
use Prim.Native.Nat.{Ordering}

-- Every id is below those that stand after it.
abbrev pub IsAscending : List PackEntry → Type 0
IsAscending entries =
    (i j : ℕ) (a b : PackEntry)
    → i < j
    → get_elem? entries i ≡ some a
    → get_elem? entries j ≡ some b
    → bytes_cmp a.id b.id ≡ Ordering.lt

id_byte_mono : (a b : ObjectId) → bytes_cmp a b ≡ Ordering.lt → id_byte a ≤ id_byte b
unfolding bytes_cmp
id_byte_mono [] b h = omega arith
id_byte_mono (x ∷ xs) [] h = absurd (cc)
id_byte_mono (x ∷ xs) (y ∷ ys) h = ground arith

-- A list at whose positions `f` rises.
module _ {ℓ} {A : Type ℓ} (f : A → Ordering) (xs : List A) where
  pub probe_of-some : (i : ℕ) (x : A) → get_elem? xs i ≡ some x → probe_of f xs i ≡ f x
  unfolding probe_of
  probe_of-some i x e = rw (e, probe_of) refl

  elem_at : (i : ℕ) → i < length xs → (x : A) × (get_elem? xs i ≡ some x)
  elem_at = go xs
    where
      go : (ys : List A) (i : ℕ) → i < length ys → (x : A) × (get_elem? ys i ≡ some x)
      go [] i h = absurd (omega arith)
      go (y ∷ ys) zero h = (y, refl)
      go (y ∷ ys) (suc i) h = go ys i (omega arith)

  pub IsRising-of :
      ((i j : ℕ) (a b : A)
        → i < j
        → get_elem? xs i ≡ some a
        → get_elem? xs j ≡ some b
        → (f a ≡ Ordering.lt) ⊎ (f b ≡ Ordering.gt))
      → IsRising (probe_of f xs) (length xs)
  IsRising-of h i j lt hi =
      let (a, p) = elem_at i (omega arith) in
      let (b, q) = elem_at j hi in rw (probe_of-some i a p, probe_of-some j b q) (h i j a b lt p q)

module _ (id a b : ObjectId) (lt : bytes_cmp a b ≡ Ordering.lt) where
  pub id_rises : (bytes_cmp a id ≡ Ordering.lt) ⊎ (bytes_cmp b id ≡ Ordering.gt)
  id_rises = by_case (bytes_cmp a id) refl
    where
      by_case :
          (o : Ordering)
          → bytes_cmp a id ≡ o
          → (bytes_cmp a id ≡ Ordering.lt) ⊎ (bytes_cmp b id ≡ Ordering.gt)
      by_case Ordering.lt e = inl e
      by_case Ordering.eq e = inr (
          subst (λ (t : Bytes). bytes_cmp b t ≡ Ordering.gt) (bytes_cmp_eq a id e)
            (bytes_cmp_flip_lt a b lt))
      by_case Ordering.gt e =
          inr (bytes_cmp_flip_lt id b (bytes_cmp_trans id a b (bytes_cmp_flip a id e) lt))

  byte_rises :
      (byte : ℕ)
      → ((if leb (id_byte a) byte then Ordering.lt else Ordering.gt) ≡ Ordering.lt)
        ⊎ ((if leb (id_byte b) byte then Ordering.lt else Ordering.gt) ≡ Ordering.gt)
  byte_rises byte = elim (Bool-cases (leb (id_byte a) byte)) [
    | inl e ↦ inl (rw e refl)
    | inr e ↦ inr (ground (arith, e, id_byte_mono a b lt))
  ]

-- `fanout_at` asks this of an entry.
abbrev byte_side : ℕ → PackEntry → Ordering
byte_side byte e = if leb (id_byte e.id) byte then Ordering.lt else Ordering.gt

byte_side-low : (byte : ℕ) (e : PackEntry) → byte_side byte e ≡ Ordering.lt → id_byte e.id ≤ byte
byte_side-low byte e h = ground (arith, h)

byte_side-high : (byte : ℕ) (e : PackEntry) → byte_side byte e ≡ Ordering.gt → byte < id_byte e.id
byte_side-high byte e h = ground (arith, h)

never_eq :
    (byte : ℕ) (entries : List PackEntry) (i : ℕ)
    → probe_of (byte_side byte) entries i ≡ Ordering.eq
    → ⊥
unfolding probe_of
never_eq byte entries i h = elim (Option-cases (get_elem? entries i)) [
  | inl e ↦ cc (rw (e, probe_of) at h)
  | inr (x, e) ↦ elim (Bool-cases (leb (id_byte x.id) byte)) [
    | inl q ↦ cc (rw (e, q, probe_of) at h)
    | inr q ↦ cc (rw (e, q, probe_of) at h)
  ]
]

-- The entries before `k` are those whose first byte is at most `byte`.
abbrev pub Counts : List PackEntry → ℕ → ℕ → Type 0
Counts entries byte k =
    (k ≤ length entries)
    × ((i : ℕ) (e : PackEntry) → get_elem? entries i ≡ some e → i < k → id_byte e.id ≤ byte)
    × ((i : ℕ) (e : PackEntry) → get_elem? entries i ≡ some e → k ≤ i → byte < id_byte e.id)

Splits-Counts :
    (entries : List PackEntry) (byte k : ℕ)
    → Splits (probe_of (byte_side byte) entries) (length entries) k
    → Counts entries byte k
Splits-Counts entries byte k (le, before, after) = (
  le,
  λ i e p h. byte_side-low byte e (sym (probe_of-some (byte_side byte) entries i e p) ∙ before i h),
  λ i e p h.
      byte_side-high byte e (
        sym (probe_of-some (byte_side byte) entries i e p)
        ∙ after i h (get_elem?-lt entries i e p)),
)

module _ (index : PackIndex) (ascending : IsAscending index.entries) where
  pub fanout_at-Counts : (byte : ℕ) → Counts index.entries byte (fanout_at index byte)
  unfolding fanout_at partition_point
  fanout_at-Counts byte =
      elim (binary_search_by-Right (byte_side byte) index.entries (
        IsRising-of (byte_side byte) index.entries
          (λ i j a b lt p q. byte_rises a.id a.id b.id (ascending i j a b lt p q) byte))) [
            | inl (i, e, q) ↦ absurd (never_eq byte index.entries i q)
            | inr (k, e, splits) ↦
                rw (e, partition_point, fanout_at) (Splits-Counts index.entries byte k splits)
          ]
