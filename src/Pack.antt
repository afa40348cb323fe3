-- ===== src/Pack.antt =====
-- src/store/pack.rs: the bytes of a pack, its builder, and the decoders that verify it. The index
-- is in PackIndex. zstd and BLAKE3 are parameters.
pub mod Varint
pub mod Reads
pub mod Frame
pub mod Envelope
pub mod Appended
pub mod RoundTrip
pub mod Sound
pub mod Tests
use bole.Base.{
  ℕ, zero, suc, ◌+◌, ◌-◌, ◌/◌, ◌%◌, ◌^◌, ◌<◌, ◌*◌, ◌≡◌, arith, Bool, true, false, Option, none,
  some, List, [], ◌∷◌, ◌++◌, Bytes, bytes, bytes_eq, nat_eq, ◌==◌, length, ltb, leb, if◌then◌else◌,
  Result, ok, err, storage, require, ◌>>=◌, ◌>>◌,
}
use bole.Base.Slices.{
  get_elem?, take, drop, slice, get_range, replicate, to_le_bytes, from_le_bytes,
}
use bole.Refs.{ObjectId}
use Prim.Native.Nat.{bit_and, bit_or, min}
use mathlib.Core.Logic.{dite}
use mathlib.Core.WellFounded.{Acc, WellFounded}
use native.Mathlib.Decide.{dec_lt}

abbrev pub pack_magic : Bytes
pack_magic = bytes "BOLEPACK"

abbrev pub end_magic : Bytes
end_magic = bytes "BOLEPKND"

abbrev pub pack_version : ℕ
pack_version = 1

abbrev pub record_object : ℕ
record_object = 1

abbrev pub header_len : ℕ
header_len = 32

abbrev pub trailer_len : ℕ
trailer_len = 40

abbrev pub max_object_len : ℕ
max_object_len = 128 * 1024 * 1024

abbrev pub max_pack_objects : ℕ
max_pack_objects = 8000000

abbrev pub max_pack_total_len : ℕ
max_pack_total_len = 1024 * 1024 * 1024

abbrev pub zstd_window_log_max : ℕ
zstd_window_log_max = 27

-- What the code calls of the zstd crate. `encode_all` is at level 3. `output` is what a decoder
-- yields, and whether an error ends it; `none` elsewhere is an error.
pub record Zstd : Type 1 where
  pub encode_all : Bytes → Option Bytes
  pub decode_all : Bytes → Option Bytes
  pub Decoder : Type 0
  pub new : Bytes → Option Decoder
  pub window_log_max : Decoder → ℕ → Option Decoder
  pub output : Decoder → Bytes × Bool

-- `ok_or_else`
abbrev pub ok_or {ℓ} : {A : Type ℓ} → Option A → Prim.Native.String.String → Result A
ok_or none message = err (storage message)
ok_or (some a) message = ok a

-- `take(n).read_to_end(..)`: an error past the first `n` bytes is not met.
abbrev pub read_at_most : ℕ → Bytes × Bool → Result Bytes
read_at_most n (out, fails) =
    if leb n (length out)
    then ok (take n out)
    else if fails
    then err (storage "pack: zstd decode: ")
    else ok out

acc_below : (k n : ℕ) → n < k → Acc ◌<◌ n
acc_below zero n h = absurd (omega arith)
acc_below (suc k) n h = Acc.intro n (λ m hm. acc_below k m (omega arith))

unfoldable pub lt_wf : WellFounded ◌<◌
unfolding acc_below
lt_wf = record { apply = λ n. acc_below (suc n) n (omega arith) }

shift_shrinks : (v : ℕ) → 0 < v / 128 → v / 128 < v
shift_shrinks v h = omega arith

-- `v & 0x7f` fits a byte; `v >>= 7` is `v / 128`.
unfoldable pub write_varint_loop : Bytes → (v : ℕ) → Acc ◌<◌ v → Bytes
unfolding shift_shrinks
write_varint_loop out v (Acc.intro _ smaller) =
    let byte = bit_and v 0x7f in
    dite (dec_lt 0 (v / 128))
      (λ more.
        write_varint_loop (out ++ (bit_or byte 0x80 ∷ [])) (v / 128)
          (smaller _ (shift_shrinks v more)))
      (λ _. out ++ (byte ∷ []))

unfoldable pub write_varint : Bytes → ℕ → Bytes
write_varint out v = write_varint_loop out v (lt_wf.apply v)

-- The value read and the position behind it. A round takes a byte, so with one round more than there
-- are bytes the loop has met the end of the source before the first clause is reached.
unfoldable pub read_varint_loop : ℕ → Bytes → ℕ → ℕ → ℕ → Result (ℕ × ℕ)
read_varint_loop zero source pos result shift = err (storage "pack: varint truncated")
read_varint_loop (suc fuel) source pos result shift = elim (get_elem? source pos) [
  | none ↦ err (storage "pack: varint truncated")
  | some byte ↦
      let result' = bit_or result (bit_and byte 0x7f * 2 ^ shift % 2 ^ 64) in
      let more = read_varint_loop fuel source (pos + 1) result' (shift + 7) in
      if bit_and byte 0x80 == 0
      then ok (result', pos + 1)
      else if leb 64 (shift + 7)
      then err (storage "pack: varint overflow")
      else more
]

unfoldable pub read_varint : Bytes → ℕ → Result (ℕ × ℕ)
read_varint source pos = read_varint_loop (suc (length source)) source pos 0 0

pub record PackEntry : Type 0 where
  pub id : ObjectId
  pub offset : ℕ
  pub len : ℕ

pub record PackBuilder : Type 0 where
  pub objects : List (ObjectId × Bytes)

unfoldable pub no_objects : PackBuilder
no_objects = record { objects = [] }

unfoldable pub add : PackBuilder → ObjectId → Bytes → PackBuilder
add builder id canonical = record { objects = builder.objects ++ ((id, canonical) ∷ []) }

-- `a.checked_add(b).filter(|e| *e <= limit)`
unfoldable pub checked_end : ℕ → ℕ → ℕ → Option ℕ
checked_end a b limit =
    if ltb (a + b) (2 ^ 64) then if leb (a + b) limit then some (a + b) else none else none

module _ (z : Zstd) (hash : Bytes → Bytes) where
  unfoldable pub zstd_decode_bounded : Bytes → ℕ → Result Bytes
  zstd_decode_bounded zstd max_out = do
    dec ← ok_or (z.new zstd) "pack: zstd init: "
    bounded ← ok_or (z.window_log_max dec zstd_window_log_max) "pack: zstd window: "
    read_at_most (max_out + 1) (z.output bounded)

  -- One round of the loop of `finish`: the buffer with the frame of an object.
  unfoldable pub push_frame : Bytes → ObjectId → Bytes → Bytes → Bytes
  push_frame buf id canonical zstd =
      write_varint (write_varint ((buf ++ (record_object ∷ [])) ++ id) (length canonical))
        (length zstd)
      ++ zstd

  unfoldable pub push_frames :
      Bytes → List PackEntry → List (ObjectId × Bytes) → Result (Bytes × List PackEntry)
  push_frames buf entries [] = ok (buf, entries)
  push_frames buf entries ((id, canonical) ∷ objects) = elim (z.encode_all canonical) [
    | none ↦ err (storage "pack: zstd encode: ")
    | some zstd ↦
        let buf' = push_frame buf id canonical zstd in
        let entry : PackEntry = record {
          id = id;
          offset = length buf;
          len = length buf' - length buf;
        } in
        push_frames buf' (entries ++ (entry ∷ [])) objects
  ]

  -- Magic, version, flags, the number of objects and eight reserved bytes.
  unfoldable pub header : ℕ → Bytes
  header n =
      (((pack_magic ++ to_le_bytes 4 pack_version) ++ to_le_bytes 4 0) ++ to_le_bytes 8 n)
      ++ replicate 8 0

  -- The pack, its entries and its digest.
  unfoldable pub finish : PackBuilder → Result (Bytes × List PackEntry × Bytes)
  finish builder = do
    (buf, entries) ← push_frames (header (length builder.objects)) [] builder.objects
    ok ((buf ++ end_magic) ++ hash buf, entries, hash buf)

  -- `get(pos..pos + slen)` adds in 64 bits.
  unfoldable pub decode_frame : Bytes → Result (ObjectId × Bytes)
  decode_frame frame = do
    rt ← ok_or (get_elem? frame 0) "pack: empty frame"
    require (rt == record_object) (storage "pack: unknown record type ")
    id ← ok_or (get_range frame 1 33) "pack: frame id truncated"
    (ulen, ulen_end) ← read_varint frame 33
    require (leb ulen max_object_len) (storage "pack: object length ")
    (slen, pos) ← read_varint frame ulen_end
    zstd ← ok_or (get_range frame pos ((pos + slen) % 2 ^ 64)) "pack: frame body truncated"
    canonical ← zstd_decode_bounded zstd ulen
    require (length canonical == ulen) (storage "pack: uncompressed length mismatch")
    require (hash canonical == id) (storage "pack: frame id does not match content")
    ok (id, canonical)

  unfoldable pub read_frame_at : Bytes → ℕ → ℕ → Result (ObjectId × Bytes)
  read_frame_at pack offset len = do
    end ← ok_or (checked_end offset len (length pack)) "pack: frame range out of bounds"
    decode_frame (slice pack offset end)

  -- One round of the loop of `decode_pack`: the object, the running total and the next position.
  unfoldable pub next_frame : Bytes → ℕ → ℕ → Result ((ObjectId × Bytes) × ℕ × ℕ)
  next_frame body pos total_out = do
    rt ← ok_or (get_elem? body pos) "pack: empty frame"
    require (rt == record_object) (storage "pack: unknown record type ")
    id_end ← ok_or (checked_end (pos + 1) 32 (length body)) "pack: frame id truncated"
    (ulen, ulen_end) ← read_varint body id_end
    (slen, start) ← read_varint body ulen_end
    frame_end ← ok_or (checked_end start slen (length body)) "pack: frame body truncated"
    (id, canonical) ← decode_frame (slice body pos frame_end)
    total ← ok (min (total_out + length canonical) (2 ^ 64 - 1))
    require (leb total max_pack_total_len) (storage "pack: total uncompressed size exceeds cap ")
    ok ((id, canonical), total, frame_end)

  -- `none` is the end of the fuel.
  unfoldable pub decode_frames :
      ℕ → Bytes → ℕ → ℕ → List (ObjectId × Bytes) → Option (Result (List (ObjectId × Bytes)))
  decode_frames zero body pos total_out out = if ltb pos (length body) then none else some (ok out)
  decode_frames (suc fuel) body pos total_out out =
      let round : Option (Result (List (ObjectId × Bytes))) = elim (next_frame body pos total_out) [
        | err e ↦ some (err e)
        | ok (object, total, frame_end) ↦
            decode_frames fuel body frame_end total (out ++ (object ∷ []))
      ] in
      if ltb pos (length body) then round else some (ok out)

  -- The checks before the loop of `decode_pack`: the number of objects that the header names, and
  -- the bytes before the trailer.
  unfoldable pub open_pack : Bytes → Result (ℕ × Bytes)
  open_pack pack = do
    require (leb (header_len + trailer_len) (length pack))
        (storage "pack: shorter than header+trailer")
    require (slice pack 0 8 == pack_magic) (storage "pack: bad magic")
    require (from_le_bytes (slice pack 8 12) == pack_version) (storage "pack: unsupported version ")
    require (leb (from_le_bytes (slice pack 16 24)) max_pack_objects)
        (storage "pack: object count ")
    body_end ← ok (length pack - trailer_len)
    require (slice (drop body_end pack) 0 8 == end_magic) (storage "pack: bad end magic")
    require (hash (take body_end pack) == slice (drop body_end pack) 8 40)
        (storage "pack: digest mismatch")
    ok (from_le_bytes (slice pack 16 24), take body_end pack)

  -- Each round takes a byte at least, so as many rounds as there are bytes are enough.
  unfoldable pub decode_pack : Bytes → Option (Result (List (ObjectId × Bytes)))
  decode_pack pack = elim (open_pack pack) [
    | err e ↦ some (err e)
    | ok (count, body) ↦ elim (decode_frames (length body) body header_len 0 []) [
      | none ↦ none
      | some decoded ↦ some (
          decoded >>= λ out.
          require (length out == count) (storage "pack: object count mismatch") >> ok out)
    ]
  ]
