-- ===== src/Packed/Ops.antt =====
-- put, exists and list of src/store/packed.rs, as the reads see them.
use bole.Base.{
  ℕ, suc, ◌≡◌, refl, sym, ap, ap₂, arith, ◌∙◌, true, false, ◌||◌, some, is_some, List, [], ◌∷◌,
  ◌++◌, map, Bytes, bytes_eq, bytes_ord, contains, contains-append, contains-collect_set, All,
  if◌then◌else◌, ok, ◌==◌, eq_iff, Bool-cases, Option-cases, Result-cases, inl, inr, ◌⊎◌,
}
use bole.Base.Slices.{get_elem?}
use bole.Refs.{ObjectId}
use bole.Disk
use bole.Disk.Laws.{get-put, list-exists_files}
use bole.Pack.{Zstd, PackEntry}
use bole.Pack.Frame.{RoundTrips}
use bole.PackIndex.{lookup}
use bole.PackIndex.Fanout.{IsAscending}
use bole.PackIndex.Lookup.{lookup_iff}
use bole.Packed.{Pack, PackedDiskBackend, in_any_pack, packed_ids, get, put, exists, list}
use bole.Packed.Reads.{get-Same, get-loose, in_any_pack-listed}

ok_is : {a b : PackedDiskBackend} → ok a ≡ ok b → a ≡ b
ok_is h = cc

kept_file :
    (z : Zstd) (files : Disk.LooseFiles) (id : ObjectId) (content : Bytes)
    → Disk.exists files id ≡ true
    → Disk.put z files id content ≡ ok files
unfolding Disk.put
kept_file z files id content h = rw (h, Disk.put) refl

module _ (z : Zstd) (hash : Bytes → Bytes) where
  written :
      (b : PackedDiskBackend) (loose : Disk.LooseFiles) (id : ObjectId) (content : Bytes)
      → RoundTrips z
      → Disk.exists b.loose id ≡ false
      → Disk.put z b.loose id content ≡ ok loose
      → (j : ObjectId)
      → get z hash (record b { loose = loose }) j
        ≡ (if j == id then ok (some content) else get z hash b j)
  written b loose id content trips l e j =
      let there = get-put z b.loose loose id content trips l e j in
      elim (Bool-cases (j == id)) [
        | inl q ↦ rw q (get-loose z hash (record b { loose = loose }) j content (there ∙ rw q refl))
        | inr q ↦
            rw q (get-Same z hash (record b { loose = loose }) b j (there ∙ rw q refl) refl refl)
      ]

  -- A successful `put` of an object that exists changes nothing. Of another, it makes `get` answer
  -- the object for its id, and leaves what `get` answers for the other ids.
  pub put-Decides :
      (b b' : PackedDiskBackend) (id : ObjectId) (content : Bytes)
      → RoundTrips z
      → put z hash b id content ≡ ok b'
      → ((exists z hash b id ≡ true) × (b' ≡ b))
        ⊎ ((exists z hash b id ≡ false)
            × ((j : ObjectId)
                → get z hash b' j ≡ (if j == id then ok (some content) else get z hash b j)))
  unfolding put exists
  put-Decides b b' id content trips h = elim (Bool-cases (is_some (in_any_pack b.packs id))) [
    | inl p ↦ inl (ground (arith, p), ok_is (sym (rw (p, put) at h)))
    | inr p ↦ elim (Bool-cases (Disk.exists b.loose id)) [
      | inl l ↦ inl (
        ground (arith, l),
        ok_is (sym (rw (p, put) at h) ∙ rw (kept_file z b.loose id content l) refl),
      )
      | inr l ↦ elim (Result-cases (Disk.put z b.loose id content)) [
        | inl (loose, e) ↦ inr (
          ground (arith, p, l),
          λ j.
              ap (λ (t : PackedDiskBackend). get z hash t j) (ok_is (sym (rw (p, e, put) at h)))
              ∙ written b loose id content trips l e j,
        )
        | inr (d, e) ↦ absurd (cc (rw (p, e, put) at h))
      ]
    ]
  ]

position :
    (entries : List PackEntry) (id : ObjectId)
    → contains (map PackEntry.id entries) id ≡ true
    → (i : ℕ) × (e : PackEntry) × (get_elem? entries i ≡ some e) × (e.id ≡ id)
position [] id h = absurd (cc)
position (e ∷ entries) id h = elim (Bool-cases (id == e.id)) [
  | inl q ↦ (0, e, refl, sym ((eq_iff id e.id).0 q))
  | inr q ↦ let (i, d, p, same) = position entries id (ground (arith, h, q)) in (suc i, d, p, same)
]

-- Each pack's table is in ascending order of ids.
abbrev pub Ordered : List Pack → Type 0
Ordered = All (λ (p : Pack). IsAscending p.idx.entries)

listed-in_any_pack :
    (packs : List Pack) (id : ObjectId)
    → Ordered packs
    → contains (packed_ids packs) id ≡ true
    → is_some (in_any_pack packs id) ≡ true
unfolding in_any_pack packed_ids
listed-in_any_pack [] id o h = absurd (cc)
listed-in_any_pack (p ∷ packs) id (asc, o) h = elim (Option-cases (lookup p.idx id)) [
  | inr (a, q) ↦ rw (q, in_any_pack) refl
  | inl n ↦ elim (Bool-cases (contains (map PackEntry.id p.idx.entries) id)) [
    | inl c ↦
        let (i, e, at, same) = position p.idx.entries id c in
        absurd
          (cc (sym n ∙ (lookup_iff p.idx asc id e.offset e.len).1 (i, e, at, same, refl, refl)))
    | inr c ↦
        rw (n, in_any_pack)
          (listed-in_any_pack packs id o (
            ground (
              arith,
              c,
              contains-append (map PackEntry.id p.idx.entries) (packed_ids packs) id,
              h,
            )))
  ]
]

-- `list` names exactly the ids for which `exists` holds, where the tables of the packs are in
-- ascending order.
pub list-exists :
    (z : Zstd) (hash : Bytes → Bytes) (b : PackedDiskBackend) (id : ObjectId)
    → Ordered b.packs
    → contains (list z hash b) id ≡ exists z hash b id
unfolding list exists
list-exists z hash b id o =
    contains-collect_set (Disk.list b.loose ++ packed_ids b.packs) id
    ∙ contains-append (Disk.list b.loose) (packed_ids b.packs) id
    ∙ ap₂ ◌||◌ (list-exists_files b.loose id) (packed_side b.packs o)
  where
    packed_side :
        (packs : List Pack)
        → Ordered packs
        → contains (packed_ids packs) id ≡ is_some (in_any_pack packs id)
    packed_side packs o = elim (Bool-cases (contains (packed_ids packs) id)) [
      | inl c ↦ c ∙ sym (listed-in_any_pack packs id o c)
      | inr c ↦ elim (Option-cases (in_any_pack packs id)) [
        | inl n ↦ rw (n, c) refl
        | inr (a, q) ↦ absurd (cc (sym c ∙ in_any_pack-listed packs id a q))
      ]
    ]
