-- ===== src/Packed/Kept.antt =====
-- repack_keeping of src/store/packed.rs: the objects that it keeps are read as before.
use bole.Base.{
  ℕ, suc, ◌<◌, ◌^◌, ◌≡◌, refl, sym, ap, subst, arith, ◌∙◌, true, false, Option, none, some, List,
  [], ◌∷◌, map, Bytes, bytes_eq, contains, length, All, All-map, if◌then◌else◌, ok, ◌==◌, eq_iff,
  Bool-cases, inl, inr,
}
use bole.Base.Maps
use bole.Base.Maps.{Map, get-insert, contains-keys}
use bole.Base.Slices.{replicate}
use bole.Refs.{ObjectId}
use bole.Disk
use bole.Pack.{Zstd, no_objects}
use bole.Pack.Frame.{RoundTrips, Digests32}
use bole.Pack.Appended.{IsStorable, Locates}
use bole.Pack.RoundTrip.{finish-Locates, finish_digest}
use bole.PackIndex.{PackIndex, build, encode, parse}
use bole.PackIndex.RoundTrip.{EntryFits, parse-encode}
use bole.PackIndex.Sort.{lookup-build, build-All}
use bole.PackIndex.Objects.{
  DistinctObjects, Locates-DistinctIds, Locates-Mem, Locates-length, Locates-bounds,
}
use bole.Packed.{Pack, PackedDiskBackend, in_any_pack, kept, get, write_pack_atomic}
use bole.Packed.Reload.{
  remove_packs-Removed, remove_packs_loose, load_packs-only, load_packs_none, in_any_pack-replicate,
}
use bole.Packed.Reads.{
  delete_all-Loose, get-packed, get-absent, read_pack_frame-read_frame_at, get_listed,
}
use bole.Packed.Repack.{pack_name, Sound, Repacked, after, olds}
use mathlib.Core.List.{Memᴰ}
use mathlib.Core.List.Memᴰ

in_no_pack : (id : ObjectId) → in_any_pack [] id ≡ none
unfolding in_any_pack
in_no_pack id = refl

ok_is : {ps qs : List Pack} → ok ps ≡ ok qs → ps ≡ qs
ok_is h = cc

Mem-ids :
    (o : ObjectId × Bytes) (os : List (ObjectId × Bytes))
    → Memᴰ o os
    → contains (map (λ (p : ObjectId × Bytes). p.0) os) o.0 ≡ true
Mem-ids o [] m = elim m [ ]
Mem-ids o (p ∷ os) m = elim (Memᴰ.cases_cons m) [
  | inl q ↦ ground (arith, (eq_iff o.0 p.0).1 (ap (λ (t : ObjectId × Bytes). t.0) q))
  | inr k ↦ ground (arith, Mem-ids o os k)
]

not_wanted :
    (keep : Option (List ObjectId)) (os : List (ObjectId × Bytes)) (id : ObjectId)
    → All (λ (o : ObjectId × Bytes). kept keep o.0 ≡ true) os
    → kept keep id ≡ false
    → contains (map (λ (p : ObjectId × Bytes). p.0) os) id ≡ false
not_wanted keep [] id h k = refl
not_wanted keep (o ∷ os) id (w, h) k = elim (Bool-cases (id == o.0)) [
  | inl e ↦ absurd (cc (sym k ∙ ap (kept keep) ((eq_iff id o.0).0 e) ∙ w))
  | inr e ↦ ground (arith, e, not_wanted keep os id h k)
]

module _ (z : Zstd) (hash : Bytes → Bytes) (trips : RoundTrips z) (h32 : Digests32 hash)
    (b : PackedDiskBackend) (keep : Option (List ObjectId)) (sound : Sound z hash b) where
  -- The objects of the builder, whatever the new pack is called.
  module _ (b' : PackedDiskBackend) (digest : Bytes) (r : Repacked z hash b keep b' digest) where
    objects_are : r.builder.objects ≡ r.gathered.new
    unfolding no_objects
    objects_are = r.gathered.objects_are

    storable : IsStorable hash r.builder.objects
    storable =
        subst (IsStorable hash) (sym objects_are)
          (All-map r.gathered.new (λ o e. sound.addressed o.0 o.1 e) r.gathered.answered)

    distinct : DistinctObjects r.builder.objects
    distinct = subst DistinctObjects (sym objects_are) r.gathered.distinct

    -- An object that is kept is in the builder.
    pub taken :
        (id : ObjectId) (content : Bytes)
        → kept keep id ≡ true
        → get z hash b id ≡ ok (some content)
        → Memᴰ (id, content) r.builder.objects
    taken id content k e =
        subst (Memᴰ (id, content)) (sym objects_are)
          (r.gathered.complete id content (get_listed z hash b id content e) refl k e)

    abbrev files : PackedDiskBackend
    files = after z hash b keep r.pack r.entries digest

    pub files_are :
        (b'.pack_files ≡ files.pack_files)
        × (b'.packs ≡ r.packs)
        × ((id : ObjectId)
            → contains (map (λ (p : ObjectId × Bytes). p.0) r.builder.objects) id ≡ true
            → Disk.get z b'.loose id ≡ ok none)
    files_are =
        let (p, q, l) =
          delete_all-Loose z hash (map (λ (p : ObjectId × Bytes). p.0) r.builder.objects)
            (record files { packs = r.packs }) in
        subst
          (λ (t : PackedDiskBackend).
            (t.pack_files ≡ files.pack_files)
            × (t.packs ≡ r.packs)
            × ((id : ObjectId)
                → contains (map (λ (p : ObjectId × Bytes). p.0) r.builder.objects) id ≡ true
                → Disk.get z t.loose id ≡ ok none))
          (sym r.result) (q, p, λ id m. l id ∙ rw m refl)

    -- Loose copies of objects that are not in the builder stay.
    pub loose_else :
        (id : ObjectId) → kept keep id ≡ false → Disk.get z b'.loose id ≡ Disk.get z b.loose id
    unfolding write_pack_atomic
    loose_else id k =
        let ids = map (λ (p : ObjectId × Bytes). p.0) r.builder.objects in
        let (p, q, l) = delete_all-Loose z hash ids (record files { packs = r.packs }) in
        ap (λ (t : PackedDiskBackend). Disk.get z t.loose id) r.result
        ∙ l id
        ∙ rw
            (not_wanted keep r.builder.objects id
              (subst (All (λ (o : ObjectId × Bytes). kept keep o.0 ≡ true)) (sym objects_are)
                r.gathered.wanted)
              k)
            (ap (λ (t : Disk.LooseFiles). Disk.get z t id)
              (remove_packs_loose z hash (olds z hash b keep) (
                write_pack_atomic z hash b (pack_name digest) r.pack
                  (encode hash (build r.entries digest)))))

    -- The index files that are left are those of the new pack, unless it is removed.
    left :
        (p : Bytes)
        → Maps.get files.idx_files p ≡ (
            if contains (olds z hash b keep) p
            then none
            else if p == pack_name digest
            then some (encode hash (build r.entries digest))
            else Maps.get b.idx_files p)
    unfolding write_pack_atomic
    left p =
        (remove_packs-Removed z hash (olds z hash b keep)
          (write_pack_atomic z hash b (pack_name digest) r.pack
            (encode hash (build r.entries digest)))
          p).1
        ∙ ap (λ (t : Option Bytes). if contains (olds z hash b keep) p then none else t)
            (get-insert b.idx_files (pack_name digest) (encode hash (build r.entries digest)) p)

    left_pack :
        (p : Bytes)
        → Maps.get files.pack_files p ≡ (
            if contains (olds z hash b keep) p
            then none
            else if p == pack_name digest
            then some r.pack
            else Maps.get b.pack_files p)
    unfolding write_pack_atomic
    left_pack p =
        (remove_packs-Removed z hash (olds z hash b keep)
          (write_pack_atomic z hash b (pack_name digest) r.pack
            (encode hash (build r.entries digest)))
          p).0
        ∙ ap (λ (t : Option Bytes). if contains (olds z hash b keep) p then none else t)
            (get-insert b.pack_files (pack_name digest) r.pack p)

    self : (pack_name digest == pack_name digest) ≡ true
    self = (eq_iff (pack_name digest) (pack_name digest)).1 refl

    pub pack_written :
        contains (olds z hash b keep) (pack_name digest) ≡ false
        → Maps.get files.pack_files (pack_name digest) ≡ some r.pack
    pack_written fresh = left_pack (pack_name digest) ∙ rw (fresh, self) refl

    -- Under a name from before, the new pack is removed with the others.
    pub reads_nothing :
        contains (olds z hash b keep) (pack_name digest) ≡ true
        → (id : ObjectId) (content : Bytes) → Memᴰ (id, content) r.builder.objects
        → get z hash b' id ≡ ok none
    reads_nothing old id content m =
        let none_left =
          load_packs_none z hash files.pack_files files.idx_files
            (λ p. (contains-keys files.idx_files p).1 (left p ∙ gone p)) in
        let (pf, ps, loose) = files_are in
        get-absent z hash b' id (loose id (Mem-ids (id, content) r.builder.objects m)) (
          ap (λ (t : List Pack). in_any_pack t id) (ps ∙ ok_is (sym r.loaded ∙ none_left))
          ∙ in_no_pack id)
      where
        gone :
            (p : Bytes)
            → (if contains (olds z hash b keep) p
                then none
                else if p == pack_name digest
                then some (encode hash (build r.entries digest))
                else Maps.get b.idx_files p)
              ≡ none
        gone p = elim (Bool-cases (contains (olds z hash b keep) p)) [
          | inl o ↦ rw o refl
          | inr o ↦ elim (Bool-cases (p == pack_name digest)) [
            | inl e ↦ absurd (
                cc (
                  sym o
                  ∙ ap (contains (olds z hash b keep)) ((eq_iff p (pack_name digest)).0 e)
                  ∙ old))
            | inr e ↦ rw (o, e) (sound.indexed p o)
          ]
        ]

    module _ (fresh : contains (olds z hash b keep) (pack_name digest) ≡ false)
        (small : length r.pack < 2 ^ 64) where
      index : PackIndex
      index = build r.entries digest

      located : Locates z hash r.pack r.builder.objects r.entries
      located =
          finish-Locates z hash trips h32 r.builder r.pack r.entries digest storable r.finished
            small

      index_parses : parse hash (encode hash index) ≡ ok index
      unfolding index
      index_parses =
          let ids : All (λ (o : ObjectId × Bytes). length o.0 ≡ 32) r.builder.objects =
            All-map r.builder.objects (λ o h. ap length h.0 ∙ h32 o.1) storable in
          let (width, all, same) =
            build-All EntryFits r.entries digest
              (Locates-bounds z hash r.pack r.builder.objects r.entries located ids) in
          parse-encode hash h32 index (
            omega (
              arith,
              width,
              Locates-length z hash r.pack r.builder.objects r.entries located,
              ap length objects_are,
              r.gathered.bounded,
              sound.few,
            ),
            all,
            ap length same
                ∙ finish_digest z hash trips h32 r.builder r.pack r.entries digest r.finished,
          )

      pack_there : Maps.get files.pack_files (pack_name digest) ≡ some r.pack
      pack_there = pack_written fresh

      index_there : Maps.get files.idx_files (pack_name digest) ≡ some (encode hash index)
      unfolding index
      index_there = left (pack_name digest) ∙ rw (fresh, self) refl

      only_index :
          (p : Bytes) → contains (Maps.keys files.idx_files) p ≡ true → p ≡ pack_name digest
      only_index p m = elim (Bool-cases (p == pack_name digest)) [
        | inl e ↦ (eq_iff p (pack_name digest)).0 e
        | inr e ↦ absurd (cc (sym ((contains-keys files.idx_files p).1 (left p ∙ gone e)) ∙ m))
      ]
        where
          gone :
              (p == pack_name digest) ≡ false
              → (if contains (olds z hash b keep) p
                  then none
                  else if p == pack_name digest
                  then some (encode hash (build r.entries digest))
                  else Maps.get b.idx_files p)
                ≡ none
          gone e = elim (Bool-cases (contains (olds z hash b keep) p)) [
            | inl o ↦ rw o refl
            | inr o ↦ rw (o, e) (sound.indexed p o)
          ]

      packs_are :
          (n : ℕ) × (r.packs
            ≡ replicate (suc n) (record { idx = index; pack_path = pack_name digest }))
      packs_are =
          let (n, e) =
            load_packs-only z hash files.pack_files files.idx_files (pack_name digest)
              (encode hash index) index index_there index_parses (rw pack_there refl) only_index in
          (n, ok_is (sym r.loaded ∙ e))

      -- An object of the builder is read from the new pack.
      pub reads :
          (id : ObjectId) (content : Bytes)
          → Memᴰ (id, content) r.builder.objects
          → get z hash b' id ≡ ok (some content)
      unfolding index
      reads id content m =
          let (e, mem, same, read) =
            Locates-Mem z hash r.pack r.builder.objects r.entries (id, content) located m in
          let hit =
            (lookup-build r.entries digest id e.offset e.len
                (Locates-DistinctIds z hash r.pack r.builder.objects r.entries located distinct)).1
              (e, mem, same, refl, refl) in
          let (n, packs) = packs_are in
          let (pf, ps, loose) = files_are in
          get-packed z hash b' id (pack_name digest) e.offset e.len content
            (loose id (Mem-ids (id, content) r.builder.objects m))
            (rw (ps, packs) (in_any_pack-replicate n _ id ∙ rw hit refl))
            (rw (pf) (
              read_pack_frame-read_frame_at z hash files.pack_files (pack_name digest) r.pack
                e.offset e.len (id, content) pack_there read))
