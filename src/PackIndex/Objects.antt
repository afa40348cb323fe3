-- ===== src/PackIndex/Objects.antt =====
-- A pack and its index of src/store/pack.rs together: what the entries of a finished pack locate.
use bole.Base.{
  ℕ, ◌<◌, ◌^◌, ◌≡◌, ◌≢◌, refl, sym, ap, subst, arith, ◌∙◌, List, [], ◌∷◌, Bytes, All, All-map, ok,
  inl, inr, length, bytes_eq,
}
use bole.Refs.{ObjectId}
use bole.Pack.{Zstd, PackEntry, read_frame_at, checked_end}
use bole.Pack.Appended.{Locates}
use bole.PackIndex.Sort.{DistinctIds}
use mathlib.Core.List.{Memᴰ}
use mathlib.Core.List.Memᴰ

-- No id stands twice.
abbrev pub DistinctObjects : List (ObjectId × Bytes) → Type 0
DistinctObjects [] = Unit
DistinctObjects (o ∷ os) = All (λ (p : ObjectId × Bytes). o.0 ≢ p.0) os × DistinctObjects os

module _ (z : Zstd) (hash : Bytes → Bytes) (source : Bytes) where
  Locates-All :
      (P : ObjectId → Type 0) (os : List (ObjectId × Bytes)) (es : List PackEntry)
      → Locates z hash source os es
      → All (λ (o : ObjectId × Bytes). P o.0) os
      → All (λ (e : PackEntry). P e.id) es
  Locates-All P [] [] l h = tt
  Locates-All P [] (e ∷ es) l h = absurd l
  Locates-All P (o ∷ os) [] l h = absurd l
  Locates-All P (o ∷ os) (e ∷ es) (same, read, l) (p, h) =
      (subst P (sym same) p, Locates-All P os es l h)

  pub Locates-DistinctIds :
      (os : List (ObjectId × Bytes)) (es : List PackEntry)
      → Locates z hash source os es
      → DistinctObjects os
      → DistinctIds es
  Locates-DistinctIds [] [] l d = tt
  Locates-DistinctIds [] (e ∷ es) l d = absurd l
  Locates-DistinctIds (o ∷ os) [] l d = absurd l
  Locates-DistinctIds (o ∷ os) (e ∷ es) (same, read, l) (fresh, d) = (
    Locates-All (λ id. e.id ≢ id) os es l (All-map os (λ p ne q. ne (sym same ∙ q)) fresh),
    Locates-DistinctIds os es l d,
  )

  -- An object has an entry that reads it back.
  pub Locates-Mem :
      (os : List (ObjectId × Bytes)) (es : List PackEntry) (o : ObjectId × Bytes)
      → Locates z hash source os es
      → Memᴰ o os
      → (e : PackEntry) × Memᴰ e es
        × (e.id ≡ o.0)
        × (read_frame_at z hash source e.offset e.len ≡ ok o)
  Locates-Mem [] es o l m = elim m [ ]
  Locates-Mem (p ∷ os) [] o l m = absurd l
  Locates-Mem (p ∷ os) (e ∷ es) o (same, read, l) m = elim (Memᴰ.cases_cons m) [
    | inl q ↦
        (e, Memᴰ.head refl, same ∙ ap (λ (t : ObjectId × Bytes). t.0) (sym q), read ∙ ap ok (sym q))
    | inr k ↦
        let (f, mem, same', read') = Locates-Mem os es o l k in (f, Memᴰ.tail mem, same', read')
  ]

  -- The entries number as many as the objects, and their offsets and lengths are 64-bit words.
  pub Locates-length :
      (os : List (ObjectId × Bytes)) (es : List PackEntry)
      → Locates z hash source os es
      → length es ≡ length os
  Locates-length [] [] l = refl
  Locates-length [] (e ∷ es) l = absurd l
  Locates-length (o ∷ os) [] l = absurd l
  Locates-length (o ∷ os) (e ∷ es) (same, read, l) = omega (arith, Locates-length os es l)

  read_frame_at_bounds :
      (offset len : ℕ) (o : ObjectId × Bytes)
      → read_frame_at z hash source offset len ≡ ok o
      → (offset < 2 ^ 64) × (len < 2 ^ 64)
  unfolding read_frame_at checked_end
  read_frame_at_bounds offset len o h = ground (arith, h)

  pub Locates-bounds :
      (os : List (ObjectId × Bytes)) (es : List PackEntry)
      → Locates z hash source os es
      → All (λ (o : ObjectId × Bytes). length o.0 ≡ 32) os
      → All (λ (e : PackEntry). (length e.id ≡ 32) × (e.offset < 2 ^ 64) × (e.len < 2 ^ 64)) es
  Locates-bounds [] [] l h = tt
  Locates-bounds [] (e ∷ es) l h = absurd l
  Locates-bounds (o ∷ os) [] l h = absurd l
  Locates-bounds (o ∷ os) (e ∷ es) (same, read, l) (w, h) =
      let (off, len) = read_frame_at_bounds e.offset e.len o read in
      ((ap length same ∙ w, off, len), Locates-bounds os es l h)
