-- ===== src/Packed.antt =====
-- src/store/packed.rs: loose objects together with immutable packs. A file of packs/ is named by
-- its stem; file operations succeed unless a file is missing or too short.
pub mod Gather
pub mod Reload
pub mod Reads
pub mod Ops
pub mod Repack
pub mod Kept
pub mod Sweep
pub mod Tests
use bole.Base.{
  ℕ, zero, suc, ◌+◌, ◌-◌, ◌/◌, ◌%◌, ◌^◌, ◌≤◌, ◌<◌, Bool, true, false, not, ◌&&◌, ◌||◌, Option, none,
  some, List, [], ◌∷◌, ◌++◌, map, Bytes, bytes, bytes_eq, bytes_ord, bytes_cmp, contains, length,
  any, reverse, filter, ltb, leb, is_some, if◌then◌else◌, collect_set, Result, ok, err, io, ◌>>=◌,
  ◌>>◌,
}
use bole.Base.Maps
use bole.Base.Maps.{Map}
use bole.Base.Slices.{slice}
use bole.Refs.{ObjectId}
use bole.Disk
use bole.Disk.{LooseFiles}
use bole.Pack.{Zstd, PackBuilder, no_objects, add, finish, decode_frame}
use bole.PackIndex.{PackIndex, sort_by, build, lookup, count as index_count, encode, parse}
use Prim.Native.Nat.{min}
use mathlib.Core.List.{foldl}

pub record Pack : Type 0 where
  pub idx : PackIndex
  pub pack_path : Bytes

pub record PackedDiskBackend : Type 0 where
  pub loose : LooseFiles
  -- The order in which packs are probed.
  pub packs : List Pack
  -- The contents of packs/*.pack and of packs/*.idx.
  pub pack_files : Map Bytes Bytes
  pub idx_files : Map Bytes Bytes

abbrev pub hex_digit : ℕ → ℕ
hex_digit n = if ltb n 10 then 48 + n else 87 + n

unfoldable pub hex32 : Bytes → Bytes
hex32 [] = []
hex32 (b ∷ bs) = hex_digit (b / 16) ∷ hex_digit (b % 16) ∷ hex32 bs

unfoldable pub in_any_pack : List Pack → ObjectId → Option (Bytes × ℕ × ℕ)
in_any_pack [] id = none
in_any_pack (p ∷ packs) id =
    let rest = in_any_pack packs id in
    elim (lookup p.idx id) [ none ↦ rest | some (offset, len) ↦ some (p.pack_path, offset, len) ]

unfoldable pub packed_ids : List Pack → List ObjectId
packed_ids [] = []
packed_ids (p ∷ packs) = map (λ e. e.id) p.idx.entries ++ packed_ids packs

-- `?` on a step that changes the state.
abbrev pub and_then {ℓ κ} :
    {A : Type ℓ} {B : Type κ}
    → PackedDiskBackend × Result A
    → (PackedDiskBackend → A → PackedDiskBackend × Result B)
    → PackedDiskBackend × Result B
and_then (b, err e) next = (b, err e)
and_then (b, ok a) next = next b a

-- `keep.is_none_or(|keep| keep.contains(id))`
abbrev pub kept : Option (List ObjectId) → ObjectId → Bool
kept none id = true
kept (some keep) id = contains keep id

module _ (z : Zstd) (hash : Bytes → Bytes) where
  -- The packs of the named indexes, in that order; an index without its pack is skipped.
  unfoldable pub load_named : Map Bytes Bytes → Map Bytes Bytes → List Bytes → Result (List Pack)
  load_named pack_files idx_files [] = ok []
  load_named pack_files idx_files (path ∷ paths) =
      let rest = load_named pack_files idx_files paths in
      elim (Maps.get idx_files path) [
        | none ↦ err io
        | some text ↦ parse hash text >>= λ idx.
            if is_some (Maps.get pack_files path)
            then rest >>= (λ packs. ok (record { idx = idx; pack_path = path } ∷ packs))
            else rest
      ]

  unfoldable pub load_packs : Map Bytes Bytes → Map Bytes Bytes → Result (List Pack)
  load_packs pack_files idx_files =
      load_named pack_files idx_files (reverse (sort_by bytes_cmp (Maps.keys idx_files)))

  -- `read_exact` of a file that is too short is an error.
  unfoldable pub read_pack_frame : Map Bytes Bytes → Bytes → ℕ → ℕ → Result Bytes
  read_pack_frame pack_files path offset len = elim (Maps.get pack_files path) [
    | none ↦ err io
    | some text ↦
        if leb (offset + len) (length text)
        then decode_frame z hash (slice text offset (offset + len)) >>= (λ frame. ok frame.1)
        else err io
  ]

  module _ (b : PackedDiskBackend) where
    unfoldable pub get : ObjectId → Result (Option Bytes)
    get id = do
      loose ← Disk.get z b.loose id
      elim loose [
        | some content ↦ ok (some content)
        | none ↦ elim (in_any_pack b.packs id) [
          | none ↦ ok none
          | some (path, offset, len) ↦
              read_pack_frame b.pack_files path offset len >>= (λ content. ok (some content))
        ]
      ]

    unfoldable pub exists : ObjectId → Bool
    exists id = Disk.exists b.loose id || is_some (in_any_pack b.packs id)

    unfoldable pub put : ObjectId → Bytes → Result PackedDiskBackend
    put id content =
        if is_some (in_any_pack b.packs id)
        then ok b
        else Disk.put z b.loose id content >>= (λ loose. ok (record b { loose = loose }))

    -- Packed objects stay.
    unfoldable pub delete : ObjectId → PackedDiskBackend
    delete id = record b { loose = Disk.delete b.loose id }

    unfoldable pub list : List ObjectId
    list = collect_set (Disk.list b.loose ++ packed_ids b.packs)

    unfoldable pub count : ℕ
    count =
        foldl (λ (n : ℕ) (p : Pack). n + index_count p.idx) 0 b.packs
        + length (
            filter (λ id. not (any (λ (p : Pack). is_some (lookup p.idx id)) b.packs))
              (Disk.list b.loose))

    -- The loop that fills the builder of a repack, with the ids that it has seen. `keep` is the set
    -- that a collection keeps.
    unfoldable pub gather :
        Option (List ObjectId) → List ObjectId → List ObjectId → PackBuilder → Result PackBuilder
    gather keep [] seen builder = ok builder
    gather keep (id ∷ ids) seen builder =
        let skip = gather keep ids (id ∷ seen) builder in
        let again = gather keep ids seen builder in
        let packed = get id >>= λ found. elim found [
          | none ↦ skip
          | some content ↦ gather keep ids (id ∷ seen) (add builder id content)
        ] in
        if contains seen id then again else if not (kept keep id) then skip else packed

    -- `reload_packs`, with the packs of before if an index does not parse.
    unfoldable pub reload_packs : PackedDiskBackend × Result (Unit {0})
    reload_packs = elim (load_packs b.pack_files b.idx_files) [
      | ok packs ↦ (record b { packs = packs }, ok tt)
      | err e ↦ (b, err e)
    ]

  -- The files of a pack, the index last.
  unfoldable pub write_pack_atomic : PackedDiskBackend → Bytes → Bytes → Bytes → PackedDiskBackend
  write_pack_atomic b path pack idx = record b {
    pack_files = Maps.insert b.pack_files path pack;
    idx_files = Maps.insert b.idx_files path idx;
  }

  unfoldable pub remove_packs : PackedDiskBackend → List Bytes → PackedDiskBackend
  remove_packs b [] = b
  remove_packs b (path ∷ paths) =
      remove_packs
        (record b {
          pack_files = Maps.remove b.pack_files path;
          idx_files = Maps.remove b.idx_files path;
        })
        paths

  unfoldable pub retire_all_packs : PackedDiskBackend → PackedDiskBackend × Result (Unit {0})
  retire_all_packs b = reload_packs (remove_packs b (map Pack.pack_path b.packs))

  unfoldable pub delete_all : PackedDiskBackend → List ObjectId → PackedDiskBackend
  delete_all b ids = foldl (λ (s : PackedDiskBackend) (id : ObjectId). delete s id) b ids

  -- From a finished builder on: the new pack is written, those of before are removed, the packs are
  -- read again, and the loose copies are deleted.
  unfoldable pub replace_packs :
      PackedDiskBackend → PackBuilder → PackedDiskBackend × Result (Option Bytes)
  replace_packs b builder = elim (finish z hash builder) [
    | err e ↦ (b, err e)
    | ok (pack, entries, digest) ↦
        let path = bytes "pack-" ++ hex32 digest in
        let written = write_pack_atomic b path pack (encode hash (build entries digest)) in
        and_then (reload_packs (remove_packs written (map Pack.pack_path b.packs)))
          (λ reloaded done.
            (delete_all reloaded (map (λ object. object.0) builder.objects), ok (some digest)))
  ]

  unfoldable pub repack_keeping :
      PackedDiskBackend → Option (List ObjectId) → PackedDiskBackend × Result (Option Bytes)
  repack_keeping b keep =
      elim (gather b keep (Disk.list b.loose ++ packed_ids b.packs) [] no_objects) [
        | err e ↦ (b, err e)
        | ok builder ↦ elim builder.objects [
          | [] ↦
              if is_some keep
              then and_then (retire_all_packs b) (λ retired done. (retired, ok none))
              else (b, ok none)
          | object ∷ objects ↦ replace_packs b builder
        ]
      ]

  unfoldable pub repack : PackedDiskBackend → PackedDiskBackend × Result (Option Bytes)
  repack b = repack_keeping b none

  unfoldable pub compact : PackedDiskBackend → PackedDiskBackend × Result ℕ
  compact b = and_then (repack b) (λ packed digest. (packed, ok (length (Disk.list b.loose))))

  -- `mtime` is the modification time of a loose file, where it can be read.
  module _ (mtime : ObjectId → Option ℕ) (reachable : List ObjectId) (grace_secs now : ℕ) where
    -- `now < mtime.saturating_add(grace_secs)`
    unfoldable pub in_grace : ObjectId → Bool
    in_grace id = elim (mtime id) [
      | none ↦ false
      | some modified ↦ ltb now (min (modified + grace_secs) (2 ^ 64 - 1))
    ]

    unfoldable pub sweep_loose : List ObjectId → PackedDiskBackend → PackedDiskBackend
    sweep_loose [] b = b
    sweep_loose (id ∷ ids) b =
        let kept = sweep_loose ids b in
        let dropped = sweep_loose ids (delete b id) in
        if contains reachable id then kept else if in_grace id then kept else dropped

    unfoldable pub sweep : PackedDiskBackend → PackedDiskBackend × Result ℕ
    sweep b = and_then (repack_keeping b (some reachable)) (λ packed digest.
        let swept = sweep_loose (Disk.list packed.loose) packed in
        (swept, ok (count b - count swept)))
