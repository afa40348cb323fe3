-- ===== src/Pack/Tests.antt =====
-- Runs of src/store/pack.rs on small inputs, with a compression that keeps the bytes.
use bole.Base.{
  ◌%◌, ◌^◌, ◌≤◌, ◌<◌, ◌≡◌, refl, sym, ap, subst, arith, false, Bool-cases, none, some, List, [],
  ◌∷◌, ◌++◌, Bytes, length, Result, ok, err, storage, ℕ_discrete, inl, inr, ltb, if◌then◌else◌,
}
use bole.Base.Slices.{replicate}
use native.Mathlib.Decide.{dec_lt}
use bole.Refs.{ObjectId}
use bole.Pack.{
  Zstd, zstd_window_log_max, PackEntry, PackBuilder, write_varint_loop, write_varint, lt_wf,
  push_frame, push_frames, header, finish, read_varint_loop, read_varint, decode_pack,
  max_pack_objects, max_pack_total_len, no_objects, add,
}
use bole.Pack.Varint.{read_varint-write_varint}
use bole.Pack.Reads.{Reads, read_varint-Reads}
use bole.Pack.Frame.{RoundTrips, Digests32}
use bole.Pack.Appended.{IsStorable, total_len, Locates}
use bole.Pack.RoundTrip.{decode_pack-finish, finish-Locates}
use bole.Pack.Sound.{decode_pack-IsStorable, decode_pack_total}

abbrev pub sample_hash : Bytes → Bytes
sample_hash b = length b % 256 ∷ replicate 31 0

pub sample_hash-Digests32 : Digests32 sample_hash
sample_hash-Digests32 b = refl

abbrev pub stored : Zstd
stored = record {
  encode_all = λ content. if ltb (length content) (2 ^ 64) then some content else none;
  decode_all = some;
  Decoder = Bytes;
  new = some;
  window_log_max = λ dec log. some dec;
  output = λ dec. (dec, false);
}

stored_kept :
    {content zstd : Bytes}
    → length content < 2 ^ 64
    → content ≡ zstd
    → (length zstd < 2 ^ 64)
      × (stored.decode_all zstd ≡ some content)
      × (dec : Bytes) × (bounded : Bytes) × (stored.new zstd ≡ some dec)
      × (stored.window_log_max dec zstd_window_log_max ≡ some bounded)
      × (stored.output bounded ≡ (content, false))
stored_kept {content} h e = (
  subst (λ (t : Bytes). length t < 2 ^ 64) e h,
  ap some (sym e),
  _,
  _,
  refl,
  refl,
  ap (λ (t : Bytes). (t, false)) (sym e),
)

pub stored-RoundTrips : RoundTrips stored
stored-RoundTrips content zstd e = elim (Bool-cases (ltb (length content) (2 ^ 64))) [
  | inl small ↦ stored_kept (ground (arith, small)) (cc (rw small at e))
  | inr large ↦ absurd (cc (rw large at e))
]

abbrev objects : List (ObjectId × Bytes)
objects = (sample_hash (1 ∷ 2 ∷ []), 1 ∷ 2 ∷ []) ∷ (sample_hash (7 ∷ []), 7 ∷ []) ∷ []

abbrev builder : PackBuilder
unfolding no_objects add
builder =
    add (add no_objects (sample_hash (1 ∷ 2 ∷ [])) (1 ∷ 2 ∷ [])) (sample_hash (7 ∷ [])) (7 ∷ [])

abbrev packed : Bytes × List PackEntry × Bytes
unfolding builder write_varint_loop write_varint lt_wf push_frame push_frames header finish dec_lt
packed = elim (finish stored sample_hash builder) [ err e ↦ ([], [], []) | ok made ↦ made ]

abbrev pack : Bytes
unfolding packed
pack = packed.0

made : finish stored sample_hash builder ≡ ok (pack, packed.1, packed.2)
unfolding pack packed builder write_varint_loop write_varint lt_wf push_frame push_frames header
    finish dec_lt
made = refl

objects-IsStorable : IsStorable sample_hash objects
objects-IsStorable = ((refl, omega arith), ((refl, omega arith), tt))

decode_pack-finish_example : decode_pack stored sample_hash pack ≡ some (ok objects)
unfolding pack packed builder write_varint_loop write_varint lt_wf push_frame push_frames header
    finish dec_lt no_objects add
decode_pack-finish_example =
    decode_pack-finish stored sample_hash stored-RoundTrips sample_hash-Digests32 builder pack
      packed.1 packed.2 objects-IsStorable made (omega arith) (omega arith) (omega arith)

finish-Locates_example : Locates stored sample_hash pack objects packed.1
unfolding pack packed builder write_varint_loop write_varint lt_wf push_frame push_frames header
    finish dec_lt no_objects add
finish-Locates_example =
    finish-Locates stored sample_hash stored-RoundTrips sample_hash-Digests32 builder pack packed.1
      packed.2 objects-IsStorable made (omega arith)

decode_pack-IsStorable_example :
    IsStorable sample_hash objects
    × (length objects ≤ max_pack_objects)
    × (total_len objects ≤ max_pack_total_len)
decode_pack-IsStorable_example =
    decode_pack-IsStorable stored sample_hash pack objects decode_pack-finish_example

decode_pack_total_example :
    (r : Result (List (ObjectId × Bytes))) × (decode_pack stored sample_hash (1 ∷ []) ≡ some r)
decode_pack_total_example = decode_pack_total stored sample_hash (1 ∷ [])

read_varint-write_varint_example :
    read_varint (write_varint (9 ∷ []) 300 ++ (7 ∷ [])) 1
    ≡ ok (300, length (write_varint (9 ∷ []) 300))
read_varint-write_varint_example = read_varint-write_varint (9 ∷ []) (7 ∷ []) 300 (omega arith)

two_bytes : read_varint (128 ∷ 1 ∷ 5 ∷ []) 0 ≡ ok (128, 2)
unfolding read_varint read_varint_loop ℕ_discrete
two_bytes = refl

read_varint-Reads_example : Reads (128 ∷ 1 ∷ 5 ∷ []) 0 (read_varint (128 ∷ 1 ∷ 5 ∷ []) 0)
read_varint-Reads_example = read_varint-Reads (128 ∷ 1 ∷ 5 ∷ []) 0

-- The tenth byte keeps one of its seven bits: what it carries beyond 64 bits is lost without an error.
tenth_byte_wraps : read_varint (replicate 9 128 ++ (2 ∷ [])) 0 ≡ ok (0, 10)
unfolding read_varint read_varint_loop ℕ_discrete
tenth_byte_wraps = refl

an_eleventh_byte :
    read_varint (replicate 10 128 ++ (0 ∷ [])) 0 ≡ err (storage "pack: varint overflow")
unfolding read_varint read_varint_loop ℕ_discrete
an_eleventh_byte = refl
