-- ===== src/Packed/Sweep.antt =====
-- repack_keeping and sweep of src/store/packed.rs: which objects are read afterwards.
use bole.Base.{
  ℕ, ◌-◌, ◌<◌, ◌^◌, ◌≡◌, refl, ap, arith, ◌∙◌, Bool, true, false, not, ◌&&◌, Option, none, some,
  List, [], ◌∷◌, map, Bytes, bytes_eq, contains, length, if◌then◌else◌, Result, ok, ◌==◌, eq_iff,
  Bool-cases, inl, inr,
}
use bole.Base.Maps
use bole.Base.Maps.{Map}
use bole.Refs.{ObjectId}
use bole.Disk
use bole.Disk.Laws.{get-delete, get-listed}
use bole.Pack.{Zstd}
use bole.Pack.Frame.{RoundTrips, Digests32}
use bole.Packed.{
  count, Pack, PackedDiskBackend, kept, get, delete, repack_keeping, in_grace, sweep_loose, sweep,
  and_then,
}
use bole.Packed.Reads.{get-Same}
use bole.Packed.Repack.{pack_name, outcome, Sound, Repacked, repack_keeping-Repacked}
use bole.Packed.Kept.{loose_else, taken, files_are, pack_written, reads, reads_nothing}

module _ (z : Zstd) (hash : Bytes → Bytes) (trips : RoundTrips z) (h32 : Digests32 hash)
    (b b' : PackedDiskBackend) (keep : Option (List ObjectId)) (digest : Bytes)
    (sound : Sound z hash b) (done : repack_keeping z hash b keep ≡ outcome b' digest) where
  r : Repacked z hash b keep b' digest
  r = repack_keeping-Repacked z hash b keep b' digest done

  -- After a repack every object that it was to keep reads as before, where the name of the new pack
  -- is not that of a pack from before, and the new pack is shorter than 2^64 bytes. Before, each
  -- object carries the digest of its content and is within the limit of one object, each index in
  -- packs/ belongs to a loaded pack, and there are fewer than 2^32 objects.
  pub repack_keeping-Keeps :
      contains (map Pack.pack_path b.packs) (pack_name digest) ≡ false
      → ((text : Bytes)
          → Maps.get b'.pack_files (pack_name digest) ≡ some text
          → length text < 2 ^ 64)
      → (id : ObjectId) (content : Bytes) → kept keep id ≡ true
      → get z hash b id ≡ ok (some content)
      → get z hash b' id ≡ ok (some content)
  repack_keeping-Keeps fresh small id content k e =
      let (pf, ps, loose) = files_are z hash trips h32 b keep sound b' digest r in
      reads z hash trips h32 b keep sound b' digest r fresh
        (small r.pack (
          ap (λ t. Maps.get t (pack_name digest)) pf
          ∙ pack_written z hash trips h32 b keep sound b' digest r fresh))
        id content (taken z hash trips h32 b keep sound b' digest r id content k e)

  -- After a repack whose new pack has the name of a pack from before, the store answers none of the
  -- objects that it was to keep.
  pub repack_keeping-Loses :
      contains (map Pack.pack_path b.packs) (pack_name digest) ≡ true
      → (id : ObjectId) (content : Bytes) → kept keep id ≡ true
      → get z hash b id ≡ ok (some content)
      → get z hash b' id ≡ ok none
  repack_keeping-Loses old id content k e =
      reads_nothing z hash trips h32 b keep sound b' digest r old id content
        (taken z hash trips h32 b keep sound b' digest r id content k e)

module _ (z : Zstd) (hash : Bytes → Bytes) where
  module _ (mtime : ObjectId → Option ℕ) (reachable : List ObjectId) (grace_secs now : ℕ) where
    -- Whether the loop of `sweep` deletes the loose copy.
    abbrev dropped : ObjectId → Bool
    dropped id =
        not (contains reachable id) && not (in_grace z hash mtime reachable grace_secs now id)

    stays :
        (i : ObjectId) (ids : List ObjectId) (b : PackedDiskBackend) (id : ObjectId)
        → dropped i ≡ false
        → (if contains ids id && dropped id then ok none else Disk.get z b.loose id)
          ≡ (if contains (i ∷ ids) id && dropped id then ok none else Disk.get z b.loose id)
    stays i ids b id d = elim (Bool-cases (id == i)) [
      | inl e ↦ rw (ap dropped ((eq_iff id i).0 e) ∙ d) (ground arith)
      | inr e ↦ rw e refl
    ]

    goes :
        (i : ObjectId) (ids : List ObjectId) (b : PackedDiskBackend) (id : ObjectId)
        → dropped i ≡ true
        → (if contains ids id && dropped id then ok none else Disk.get z (Disk.delete b.loose i) id)
          ≡ (if contains (i ∷ ids) id && dropped id then ok none else Disk.get z b.loose id)
    goes i ids b id d = elim (Bool-cases (id == i)) [
      | inl e ↦ rw (ap dropped ((eq_iff id i).0 e) ∙ d, get-delete z b.loose i id, e) (ground arith)
      | inr e ↦ rw (get-delete z b.loose i id, e) refl
    ]

    sweep_loose-Loose :
        (ids : List ObjectId) (b : PackedDiskBackend)
        → ((sweep_loose z hash mtime reachable grace_secs now ids b).packs ≡ b.packs)
          × ((sweep_loose z hash mtime reachable grace_secs now ids b).pack_files ≡ b.pack_files)
          × ((id : ObjectId)
              → Disk.get z (sweep_loose z hash mtime reachable grace_secs now ids b).loose id
                ≡ (if contains ids id && dropped id then ok none else Disk.get z b.loose id))
    unfolding sweep_loose delete
    sweep_loose-Loose [] b = (refl, refl, λ id. refl)
    sweep_loose-Loose (i ∷ ids) b =
        let (p, q, l) = sweep_loose-Loose ids b in
        let (p', q', l') = sweep_loose-Loose ids (delete z hash b i) in
        elim (Bool-cases (contains reachable i)) [
          | inl m ↦ rw m (p, q, λ id. l id ∙ stays i ids b id (rw m refl))
          | inr m ↦ elim (Bool-cases (in_grace z hash mtime reachable grace_secs now i)) [
            | inl g ↦ rw (m, g) (p, q, λ id. l id ∙ stays i ids b id (rw (m, g) refl))
            | inr g ↦ rw (m, g) (p', q', λ id. l' id ∙ goes i ids b id (rw (m, g) refl))
          ]
        ]

-- The state that a sweep leaves, where its repack succeeds.
module _ (z : Zstd) (hash : Bytes → Bytes) (trips : RoundTrips z) (h32 : Digests32 hash)
    (b packed : PackedDiskBackend) (mtime : ObjectId → Option ℕ) (reachable : List ObjectId)
    (grace_secs now : ℕ) (digest : Bytes) (sound : Sound z hash b)
    (done : repack_keeping z hash b (some reachable) ≡ outcome packed digest) where
  abbrev swept : PackedDiskBackend
  swept = (sweep z hash mtime reachable grace_secs now b).0

  swept-loop :
      swept ≡ sweep_loose z hash mtime reachable grace_secs now (Disk.list packed.loose) packed
  unfolding sweep
  swept-loop =
      ap
        (λ (t : PackedDiskBackend × Result (Option Bytes)).
          (and_then t (λ packed digest.
            let swept =
              sweep_loose z hash mtime reachable grace_secs now (Disk.list packed.loose) packed in
            (swept, ok (count z hash b - count z hash swept)))).0)
        done

  -- A sweep keeps every reachable object readable, under the conditions of `repack_keeping-Keeps`
  -- on the repack that it begins with.
  pub sweep-Keeps :
      contains (map Pack.pack_path b.packs) (pack_name digest) ≡ false
      → ((text : Bytes)
          → Maps.get packed.pack_files (pack_name digest) ≡ some text
          → length text < 2 ^ 64)
      → (id : ObjectId) (content : Bytes) → contains reachable id ≡ true
      → get z hash b id ≡ ok (some content)
      → get z hash swept id ≡ ok (some content)
  sweep-Keeps fresh small id content m e =
      let (p, q, l) =
        sweep_loose-Loose z hash mtime reachable grace_secs now (Disk.list packed.loose) packed in
      ap (λ (t : PackedDiskBackend). get z hash t id) swept-loop
      ∙ get-Same z hash _ packed id (l id ∙ reach_stays id m) p q
      ∙ repack_keeping-Keeps z hash trips h32 b packed (some reachable) digest sound done fresh
          small id content m e
    where
      reach_stays :
          (id : ObjectId)
          → contains reachable id ≡ true
          → (if contains (Disk.list packed.loose) id
                && dropped z hash mtime reachable grace_secs now id
              then ok none
              else Disk.get z packed.loose id)
            ≡ Disk.get z packed.loose id
      reach_stays id m = rw m (ground arith)

  -- Of the loose objects that are not reachable, a sweep whose repack succeeds keeps those in the
  -- grace window as they were, and deletes the others.
  pub sweep_unreachable :
      (id : ObjectId)
      → contains reachable id ≡ false
      → Disk.get z swept.loose id ≡ (
          if in_grace z hash mtime reachable grace_secs now id
          then Disk.get z b.loose id
          else ok none)
  sweep_unreachable id m =
      let (p, q, l) =
        sweep_loose-Loose z hash mtime reachable grace_secs now (Disk.list packed.loose) packed in
      let same =
        loose_else z hash trips h32 b (some reachable) sound packed digest
          (repack_keeping-Repacked z hash b (some reachable) packed digest done) id m in
      ap (λ (t : PackedDiskBackend). Disk.get z t.loose id) swept-loop
      ∙ l id
      ∙ elim (Bool-cases (in_grace z hash mtime reachable grace_secs now id)) [
        | inl g ↦ rw (m, g) (rw same (ground arith))
        | inr g ↦ elim (Bool-cases (contains (Disk.list packed.loose) id)) [
          | inl c ↦ rw (m, g, c) refl
          | inr c ↦ rw (m, g, c) (get-listed z packed.loose id c)
        ]
      ]
