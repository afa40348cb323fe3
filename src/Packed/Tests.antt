-- ===== src/Packed/Tests.antt =====
-- Runs of src/store/packed.rs: a store of one loose object, packed once and twice.
use bole.Base.{
  ℕ, ◌≡◌, refl, sym, ap, subst, arith, ◌∙◌, true, false, Option, none, some, some-injective, List,
  [], ◌∷◌, Bytes, map, contains, All, All-elim, bytes_eq, bytes_cmp, Result, ok, bytes_discrete,
  ℕ_discrete, length, ◌++◌, ◌≤◌, ◌<◌, ◌^◌,
}
use bole.Base.Maps
use bole.Base.Slices.{get_range, slice}
use native.Mathlib.Decide.{dec_lt}
use bole.Refs.{ObjectId}
use bole.Disk
use bole.Pack.{
  write_varint_loop, write_varint, lt_wf, push_frame, push_frames, header, finish, no_objects, add,
  read_varint_loop, read_varint, decode_frame, checked_end, zstd_decode_bounded, max_object_len,
}
use bole.Pack.Tests.{sample_hash, sample_hash-Digests32, stored, stored-RoundTrips}
use bole.PackIndex.{
  bisect_loop, probe_of, binary_search_by, partition_point, insert_by, sort_by, build, fanout_at,
  lookup, flat_map, fanout_bytes, encode_head, encode, read_entries, need, parse,
}
use bole.Packed.{
  Pack, PackedDiskBackend, hex32, in_any_pack, packed_ids, load_named, load_packs, read_pack_frame,
  get, sweep, gather, reload_packs, write_pack_atomic, remove_packs, retire_all_packs, delete,
  delete_all, replace_packs, repack_keeping,
}
use bole.Packed.Reads.{get_listed}
use bole.Packed.Sweep.{repack_keeping-Keeps, repack_keeping-Loses, sweep-Keeps}
use bole.Packed.Repack.{pack_name, outcome, Sound}

abbrev content : Bytes
content = 1 ∷ 2 ∷ []

abbrev id : ObjectId
id = sample_hash content

abbrev loose_only : PackedDiskBackend
loose_only = record { loose = (id, content) ∷ []; packs = []; pack_files = []; idx_files = [] }

abbrev no_outcome : PackedDiskBackend
no_outcome = record { loose = []; packs = []; pack_files = []; idx_files = [] }

abbrev state_and_digest : PackedDiskBackend × Result (Option Bytes) → PackedDiskBackend × Bytes
state_and_digest (b, ok (some digest)) = (b, digest)
state_and_digest (b, _) = (no_outcome, [])

-- A repack, with all that it computes with.
repacked : PackedDiskBackend → Option (List ObjectId) → PackedDiskBackend × Bytes
unfolding write_varint_loop write_varint lt_wf push_frame push_frames header finish no_objects add
    dec_lt read_varint_loop read_varint decode_frame checked_end zstd_decode_bounded bisect_loop
    probe_of binary_search_by partition_point insert_by sort_by build fanout_at lookup flat_map
    fanout_bytes encode_head encode read_entries need parse hex32 in_any_pack packed_ids load_named
    load_packs read_pack_frame get gather reload_packs write_pack_atomic remove_packs
    retire_all_packs delete delete_all replace_packs repack_keeping Maps.get Maps.insert Maps.remove
    Maps.keys Disk.get Disk.list Disk.delete bytes_discrete ℕ_discrete bytes_cmp get_range slice
repacked b keep = state_and_digest (repack_keeping stored sample_hash b keep)

abbrev once : PackedDiskBackend × Bytes
unfolding repacked
once = repacked loose_only none

done : repack_keeping stored sample_hash loose_only none ≡ outcome once.0 once.1
unfolding repacked
done = refl

ok_some : (c d : Bytes) → ok (some c) ≡ ok (some d) → c ≡ d
ok_some c d h = cc

abbrev Stored : PackedDiskBackend → ObjectId → Type 0
Stored b j =
    (c : Bytes) × (get stored sample_hash b j ≡ ok (some c))
    × (j ≡ sample_hash c)
    × (length c ≤ max_object_len)

-- A store that lists these ids, and answers an object of theirs for each.
listed-Sound :
    (b : PackedDiskBackend) (ids : List ObjectId)
    → Disk.list b.loose ++ packed_ids b.packs ≡ ids
    → length ids < 2 ^ 32
    → All (Stored b) ids
    → ((path : Bytes)
        → contains (map Pack.pack_path b.packs) path ≡ false
        → Maps.get b.idx_files path ≡ none)
    → Sound stored sample_hash b
listed-Sound b ids lists few answers names = record {
  addressed = λ j c e.
      let (d, answer, digest, lim) = All-elim (Stored b) ids j answers (
        subst (λ (t : List ObjectId). contains t j ≡ true) lists
          (get_listed stored sample_hash b j c e)) in
      let same = ok_some d c (sym answer ∙ e) in
      (digest ∙ ap sample_hash same, subst (λ (t : Bytes). length t ≤ max_object_len) same lim);
  indexed = names;
  few = subst (λ (t : List ObjectId). length t < 2 ^ 32) (sym lists) few;
}

loose_only-Sound : Sound stored sample_hash loose_only
unfolding Disk.list packed_ids get Disk.get Maps.get Maps.keys bytes_discrete ℕ_discrete
loose_only-Sound =
    listed-Sound loose_only (id ∷ []) refl (omega arith) ((content, refl, refl, omega arith), tt)
      (λ path m. refl)

short :
    (file : Bytes)
    → length file < 2 ^ 64
    → (text : Bytes) → some file ≡ some text
    → length text < 2 ^ 64
short file h text e = subst (λ (t : Bytes). length t < 2 ^ 64) (some-injective file text e) h

abbrev pack_file : Bytes
unfolding repacked
pack_file = elim (Maps.get once.0.pack_files (pack_name once.1)) [ none ↦ [] | some file ↦ file ]

file_there : Maps.get once.0.pack_files (pack_name once.1) ≡ some pack_file
unfolding repacked pack_file
file_there = refl

file_short : length pack_file < 2 ^ 64
unfolding repacked pack_file
file_short = omega arith

repack_keeping-Keeps_example : get stored sample_hash once.0 id ≡ ok (some content)
unfolding repacked
repack_keeping-Keeps_example =
    repack_keeping-Keeps stored sample_hash stored-RoundTrips sample_hash-Digests32 loose_only
      once.0 none once.1 loose_only-Sound done refl
      (λ text e. short pack_file file_short text (sym file_there ∙ e)) id content refl refl

once-Sound : Sound stored sample_hash once.0
unfolding repacked
once-Sound =
    listed-Sound once.0 (id ∷ []) refl (omega arith) ((content, refl, refl, omega arith), tt)
      (λ path m. ground (arith, m))

-- A second repack of the store that the first one left.
abbrev twice : PackedDiskBackend × Bytes
unfolding repacked
twice = repacked once.0 none

again : repack_keeping stored sample_hash once.0 none ≡ outcome twice.0 twice.1
unfolding repacked twice
again = refl

repack_keeping-Loses_example : get stored sample_hash twice.0 id ≡ ok none
unfolding repacked twice
repack_keeping-Loses_example =
    repack_keeping-Loses stored sample_hash stored-RoundTrips sample_hash-Digests32 once.0 twice.0
      none twice.1 once-Sound again refl id content refl refl

-- Two loose objects, of which the second is not reachable.
abbrev other : Bytes
other = 7 ∷ []

abbrev other_id : ObjectId
other_id = sample_hash other

abbrev two_loose : PackedDiskBackend
two_loose = record {
  loose = (id, content) ∷ (other_id, other) ∷ [];
  packs = [];
  pack_files = [];
  idx_files = [];
}

two_loose-Sound : Sound stored sample_hash two_loose
unfolding repacked
two_loose-Sound =
    listed-Sound two_loose (id ∷ other_id ∷ []) refl (omega arith)
      ((content, refl, refl, omega arith), ((other, refl, refl, omega arith), tt)) (λ path m. refl)

abbrev mtime : ObjectId → Option ℕ
mtime j = some 100

abbrev packed_two : PackedDiskBackend × Bytes
unfolding repacked
packed_two = repacked two_loose (some (id ∷ []))

done_two :
    repack_keeping stored sample_hash two_loose (some (id ∷ [])) ≡ outcome packed_two.0 packed_two.1
unfolding repacked packed_two
done_two = refl

sweep-Keeps_example :
    get stored sample_hash (sweep stored sample_hash mtime (id ∷ []) 50 120 two_loose).0 id
    ≡ ok (some content)
unfolding repacked packed_two pack_file
sweep-Keeps_example =
    sweep-Keeps stored sample_hash stored-RoundTrips sample_hash-Digests32 two_loose packed_two.0
      mtime (id ∷ []) 50 120 packed_two.1 two_loose-Sound done_two refl
      (λ text e. short pack_file file_short text e) id content refl refl
