-- ===== src/Packed/Repack.antt =====
-- repack_keeping of src/store/packed.rs: every object that it keeps is still read, where the new
-- pack has a name of its own, and none is where the name is that of a pack from before.
use bole.Base.{
  ◌≤◌, ◌<◌, ◌^◌, ◌≡◌, refl, sym, ap, subst, false, Option, none, some, is_some, List, [], ◌∷◌, ◌++◌,
  map, Bytes, bytes, bytes_eq, contains, length, Result, ok, err, Bool-cases, Result-cases, inl,
  inr, ◌⊎◌,
}
use bole.Base.Maps
use bole.Base.Maps.{Map, get-insert, contains-keys}
use bole.Refs.{ObjectId}
use bole.Disk
use bole.Pack.{Zstd, PackEntry, PackBuilder, no_objects, finish, max_object_len}
use bole.PackIndex.{build, encode}
use bole.Packed.{
  Pack, PackedDiskBackend, hex32, packed_ids, load_packs, get, gather, reload_packs,
  write_pack_atomic, remove_packs, delete_all, replace_packs, retire_all_packs, repack_keeping,
  and_then,
}
use bole.Packed.Gather.{Gathered, gather-Gathered}

-- The name of the pack that a repack with this digest writes.
abbrev pub pack_name : Bytes → Bytes
pack_name digest = bytes "pack-" ++ hex32 digest

abbrev pub outcome : PackedDiskBackend → Bytes → PackedDiskBackend × Result (Option Bytes)
outcome b digest = (b, ok (some digest))

no_digest :
    (r : PackedDiskBackend × Result (Unit {0})) (b : PackedDiskBackend) (digest : Bytes)
    → and_then r (λ retired done. (retired, ok none)) ≡ outcome b digest
    → ⊥
no_digest (s, ok u) b digest h = cc (ap (λ (r : PackedDiskBackend × Result (Option Bytes)). r.1) h)
no_digest (s, err d) b digest h = cc (ap (λ (r : PackedDiskBackend × Result (Option Bytes)). r.1) h)

List-cases :
    (os : List (ObjectId × Bytes))
    → (os ≡ []) ⊎ ((o : ObjectId × Bytes) × (rest : List (ObjectId × Bytes)) × (os ≡ o ∷ rest))
List-cases [] = inl refl
List-cases (o ∷ os) = inr (o, os, refl)

-- What is asked of a store before a repack that keeps `keep`.
pub record Sound (z : Zstd) (hash : Bytes → Bytes) (b : PackedDiskBackend) : Type 0 where
  -- Each object is named by its digest, and a pack can hold it.
  pub addressed :
      (id : ObjectId) (content : Bytes)
      → get z hash b id ≡ ok (some content)
      → (id ≡ hash content) × (length content ≤ max_object_len)
  -- Each index in packs/ belongs to a pack that is loaded.
  pub indexed :
      (path : Bytes)
      → contains (map Pack.pack_path b.packs) path ≡ false
      → Maps.get b.idx_files path ≡ none
  pub few : length (Disk.list b.loose ++ packed_ids b.packs) < 2 ^ 32

module _ (z : Zstd) (hash : Bytes → Bytes) (b : PackedDiskBackend)
    (keep : Option (List ObjectId)) where
  abbrev pub olds : List Bytes
  olds = map Pack.pack_path b.packs

  -- The files once the new pack is written and those of before are removed.
  abbrev pub after : Bytes → List PackEntry → Bytes → PackedDiskBackend
  after pack entries digest =
      remove_packs z hash
        (write_pack_atomic z hash b (pack_name digest) pack (encode hash (build entries digest)))
        olds

  -- A repack that ended with a digest, taken apart.
  pub record Repacked (b' : PackedDiskBackend) (digest : Bytes) : Type 0 where
    pub builder : PackBuilder
    pub pack : Bytes
    pub entries : List PackEntry
    pub packs : List Pack
    pub gathered :
        Gathered z hash b keep (Disk.list b.loose ++ packed_ids b.packs) [] no_objects builder
    pub finished : finish z hash builder ≡ ok (pack, entries, digest)
    pub loaded :
        load_packs z hash
          (after pack entries digest).pack_files
          (after pack entries digest).idx_files
        ≡ ok packs
    pub result :
        b'
        ≡ delete_all z hash
            (record (after pack entries digest) { packs = packs })
            (map (λ (o : ObjectId × Bytes). o.0) builder.objects)

  result_pair :
      (s t : PackedDiskBackend) (d e : Bytes) → outcome s d ≡ outcome t e → (s ≡ t) × (d ≡ e)
  result_pair s t d e h = (
    ap (λ (r : PackedDiskBackend × Result (Option Bytes)). r.0) h,
    cc (ap (λ (r : PackedDiskBackend × Result (Option Bytes)). r.1) h),
  )

  replace_packs-Repacked :
      (builder : PackBuilder) (b' : PackedDiskBackend) (digest : Bytes)
      → Gathered z hash b keep (Disk.list b.loose ++ packed_ids b.packs) [] no_objects builder
      → replace_packs z hash b builder ≡ (b', ok (some digest))
      → Repacked b' digest
  unfolding replace_packs reload_packs
  replace_packs-Repacked builder b' digest g h = elim (Result-cases (finish z hash builder)) [
    | inl ((pack, entries, digest'), e) ↦
        elim (Result-cases (
          load_packs z hash (after pack entries digest').pack_files
            (after pack entries digest').idx_files)) [
              | inl (packs, l) ↦
                  let (state, same) =
                    result_pair _ _ _ _ (rw (e, l, replace_packs, reload_packs) at h) in
                  subst (Repacked b') same (record {
                    builder = builder;
                    pack = pack;
                    entries = entries;
                    packs = packs;
                    gathered = g;
                    finished = e;
                    loaded = l;
                    result = sym state;
                  })
              | inr (d, l) ↦ absurd (cc (rw (e, l, replace_packs, reload_packs) at h))
            ]
    | inr (d, e) ↦ absurd (cc (rw (e, replace_packs) at h))
  ]

  pub repack_keeping-Repacked :
      (b' : PackedDiskBackend) (digest : Bytes)
      → repack_keeping z hash b keep ≡ (b', ok (some digest))
      → Repacked b' digest
  unfolding repack_keeping
  repack_keeping-Repacked b' digest h =
      elim (Result-cases
        (gather z hash b keep (Disk.list b.loose ++ packed_ids b.packs) [] no_objects)) [
          | inl (builder, e) ↦ elim (List-cases builder.objects) [
            | inl c ↦ elim (Bool-cases (is_some keep)) [
              | inl k ↦ absurd (
                  no_digest (retire_all_packs z hash b) b' digest
                    (rw (e, c, k, repack_keeping) at h))
              | inr k ↦ absurd (
                  cc (
                    ap (λ (r : PackedDiskBackend × Result (Option Bytes)). r.1)
                      (rw (e, c, k, repack_keeping) at h)))
            ]
            | inr (o, os, c) ↦
                replace_packs-Repacked builder b' digest
                  (gather-Gathered z hash b keep _ [] no_objects builder e)
                  (rw (e, c, repack_keeping) at h)
          ]
          | inr (d, e) ↦ absurd (
              cc (
                ap (λ (r : PackedDiskBackend × Result (Option Bytes)). r.1)
                  (rw (e, repack_keeping) at h)))
        ]
