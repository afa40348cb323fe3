-- ===== src/Packed/Reads.antt =====
-- Reads of a packed store in src/store/packed.rs: what get answers from the loose objects and from
-- the packs.
use bole.Base.{
  ◌>>=◌, ℕ, ◌≡◌, refl, sym, arith, ◌∙◌, true, Option, none, some, List, [], ◌∷◌, ◌++◌, map, Bytes,
  bytes_eq, contains, contains-append, if◌then◌else◌, Result, ok, Bool-cases, Option-cases, inl,
  inr,
}
use bole.Base.Maps
use bole.Base.Maps.{Map, get-insert, contains-keys}
use bole.Refs.{ObjectId}
use bole.Disk
use bole.Disk.Laws.{get-delete, get-listed}
use bole.Pack.{Zstd, PackEntry, read_frame_at, checked_end}
use bole.PackIndex.{lookup}
use bole.PackIndex.Lookup.{lookup-listed}
use bole.Packed.{
  Pack, PackedDiskBackend, in_any_pack, packed_ids, read_pack_frame, get, delete, delete_all,
}

pub in_any_pack-listed :
    (packs : List Pack) (id : ObjectId) (answer : Bytes × ℕ × ℕ)
    → in_any_pack packs id ≡ some answer
    → contains (packed_ids packs) id ≡ true
unfolding in_any_pack packed_ids
in_any_pack-listed [] id answer h = absurd (cc)
in_any_pack-listed (p ∷ packs) id answer h = elim (Option-cases (lookup p.idx id)) [
  | inl n ↦
      rw (contains-append (map PackEntry.id p.idx.entries) (packed_ids packs) id)
        (ground (arith, in_any_pack-listed packs id answer (rw (n, in_any_pack) at h)))
  | inr (a, q) ↦
      rw (contains-append (map PackEntry.id p.idx.entries) (packed_ids packs) id)
        (ground (arith, lookup-listed p.idx id a q))
]

module _ (z : Zstd) (hash : Bytes → Bytes) where
  -- Deleting the loose copies leaves the packs, and of the loose objects those not named.
  pub delete_all-Loose :
      (ids : List ObjectId) (b : PackedDiskBackend)
      → ((delete_all z hash b ids).packs ≡ b.packs)
        × ((delete_all z hash b ids).pack_files ≡ b.pack_files)
        × ((id : ObjectId)
            → Disk.get z (delete_all z hash b ids).loose id
              ≡ (if contains ids id then ok none else Disk.get z b.loose id))
  unfolding delete_all delete
  delete_all-Loose [] b = (refl, refl, λ id. refl)
  delete_all-Loose (i ∷ ids) b =
      let (p, q, r) = delete_all-Loose ids (delete z hash b i) in
      (p, q, λ id. r id ∙ ground (arith, get-delete z b.loose i id))

  pub get-packed :
      (b : PackedDiskBackend) (id : ObjectId) (path : Bytes) (offset len : ℕ) (content : Bytes)
      → Disk.get z b.loose id ≡ ok none
      → in_any_pack b.packs id ≡ some (path, offset, len)
      → read_pack_frame z hash b.pack_files path offset len ≡ ok content
      → get z hash b id ≡ ok (some content)
  unfolding get
  get-packed b id path offset len content p q r = ground (arith, p, q, r)

  pub get-loose :
      (b : PackedDiskBackend) (id : ObjectId) (content : Bytes)
      → Disk.get z b.loose id ≡ ok (some content)
      → get z hash b id ≡ ok (some content)
  unfolding get
  get-loose b id content p = rw (p, get) refl

  pub get-absent :
      (b : PackedDiskBackend) (id : ObjectId)
      → Disk.get z b.loose id ≡ ok none
      → in_any_pack b.packs id ≡ none
      → get z hash b id ≡ ok none
  unfolding get
  get-absent b id p q = ground (arith, p, q)

  -- Reading an entry of a pack file is `read_frame_at` on its bytes.
  pub read_pack_frame-read_frame_at :
      (pack_files : Map Bytes Bytes) (path text : Bytes) (offset len : ℕ) (o : ObjectId × Bytes)
      → Maps.get pack_files path ≡ some text
      → read_frame_at z hash text offset len ≡ ok o
      → read_pack_frame z hash pack_files path offset len ≡ ok o.1
  unfolding read_pack_frame read_frame_at checked_end
  read_pack_frame-read_frame_at pack_files path text offset len o p h =
      rw (p, read_pack_frame) (ground (arith, h))

  -- What the store answers something for is loose or listed by a pack.
  pub get_listed :
      (b : PackedDiskBackend) (id : ObjectId) (content : Bytes)
      → get z hash b id ≡ ok (some content)
      → contains (Disk.list b.loose ++ packed_ids b.packs) id ≡ true
  unfolding get
  get_listed b id content h = elim (Bool-cases (contains (Disk.list b.loose) id)) [
    | inl m ↦ rw (contains-append (Disk.list b.loose) (packed_ids b.packs) id) (ground (arith, m))
    | inr m ↦ elim (Option-cases (in_any_pack b.packs id)) [
      | inl n ↦ absurd (cc (sym (get-absent b id (get-listed z b.loose id m) n) ∙ h))
      | inr (a, q) ↦
          rw (contains-append (Disk.list b.loose) (packed_ids b.packs) id)
            (ground (arith, in_any_pack-listed b.packs id a q))
    ]
  ]

  -- What `get` does with what it reads.
  abbrev answer :
      Result (Option Bytes) → List Pack → Map Bytes Bytes → ObjectId → Result (Option Bytes)
  answer found packs pack_files id = found >>= λ loose. elim loose [
    | some content ↦ ok (some content)
    | none ↦ elim (in_any_pack packs id) [
      | none ↦ ok none
      | some (path, offset, len) ↦
          read_pack_frame z hash pack_files path offset len >>= (λ content. ok (some content))
    ]
  ]

  -- A read depends on the loose copy, on the packs and on their files.
  pub get-Same :
      (s t : PackedDiskBackend) (id : ObjectId)
      → Disk.get z s.loose id ≡ Disk.get z t.loose id
      → s.packs ≡ t.packs
      → s.pack_files ≡ t.pack_files
      → get z hash s id ≡ get z hash t id
  unfolding get
  get-Same s t id p q f = λ i. answer (p i) (q i) (f i) id
