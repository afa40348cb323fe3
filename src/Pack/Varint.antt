-- ===== src/Pack/Varint.antt =====
-- write_varint and read_varint of src/store/pack.rs: what is written, and reading it back.
use bole.Base.{
  ℕ, zero, suc, ◌+◌, ◌*◌, ◌/◌, ◌%◌, ◌^◌, ◌≤◌, ◌<◌, ◌≡◌, refl, sym, ap, arith, ◌∙◌, [], ◌∷◌, ◌++◌,
  Bytes, nat_eq, ◌==◌, length, length-append, ltb, leb, ◌⊎◌, if◌then◌else◌, All, ok, err, some,
  Bool-cases, storage, inl, inr,
}
use bole.Base.Slices.{get_elem?, get_elem?-append, IsByte}
use bole.Base.Bits.{bit_or_disjoint, low_bits, top_bit, set_top_bit}
use bole.Pack.{write_varint_loop, write_varint, read_varint_loop, read_varint}
use Prim.Native.Nat.{bit_and, bit_or}
use mathlib.Core.List.{append_assoc}
use mathlib.Core.WellFounded.{Acc}
use native.Mathlib.Numerals.{towards_suc}

-- The byte of the low seven bits of a value, before the bytes `more` of its higher bits if it has any.
unfoldable group_before : ℕ → Bytes → Bytes
group_before v more = if leb 128 v then (128 + v % 128) ∷ more else v ∷ []

-- `v` in at most `k + 1` groups of seven bits, lowest first.
unfoldable pub encoding : ℕ → ℕ → Bytes
unfolding group_before
encoding zero v = v ∷ []
encoding (suc k) v = group_before v (encoding k (v / 128))

seven_bits : (v : ℕ) → (v < 128) ⊎ (128 ≤ v)
seven_bits v = elim (Bool-cases (ltb v 128)) [
  | inl small ↦ inl (ground (arith, small))
  | inr large ↦ inr (ground (arith, large))
]

group_before_last : (v : ℕ) (more : Bytes) → v < 128 → group_before v more ≡ v ∷ []
unfolding group_before
group_before_last v more small = ground arith

group_before_more : (v : ℕ) (more : Bytes) → 128 ≤ v → group_before v more ≡ (128 + v % 128) ∷ more
unfolding group_before
group_before_more v more large = ground arith

-- The loop on a value of seven bits, and on a larger one.
write_last :
    (v : ℕ) (below : Acc ◌<◌ v) (out : Bytes)
    → v < 128
    → write_varint_loop out v below ≡ out ++ (v ∷ [])
unfolding write_varint_loop
write_last v (Acc.intro _ below) out small = ground (arith, low_bits v)

write_more :
    (v : ℕ) (below : Acc ◌<◌ v) (out tail : Bytes)
    → 128 ≤ v
    → ((start : Bytes) (rest : Acc ◌<◌ (v / 128))
        → write_varint_loop start (v / 128) rest ≡ start ++ tail)
    → write_varint_loop out v below ≡ out ++ ((128 + v % 128) ∷ tail)
unfolding write_varint_loop
write_more v (Acc.intro _ below) out tail large higher = grind (
  arith,
  low_bits v,
  set_top_bit (v % 128) (omega arith),
  higher (out ++ ((128 + v % 128) ∷ [])),
  append_assoc out ((128 + v % 128) ∷ []) tail,
)

write_varint_loop-encoding :
    (v : ℕ) (below : Acc ◌<◌ v) (k : ℕ) (out : Bytes)
    → v < 128 ^ suc k
    → write_varint_loop out v below ≡ out ++ encoding k v
unfolding encoding
write_varint_loop-encoding v below zero out fits = write_last v below out (omega arith)
write_varint_loop-encoding v below (suc k) out fits = elim (seven_bits v) [
  | inl small ↦ rw (group_before_last v _ small) (write_last v below out small)
  | inr large ↦ rw (group_before_more v (encoding k (v / 128)) large) (
      write_more v below out (encoding k (v / 128)) large
        (λ start rest. write_varint_loop-encoding (v / 128) rest k start (omega arith)))
]

-- A 64-bit value is appended as at most ten groups.
pub write_varint-encoding :
    (out : Bytes) (v : ℕ) → v < 2 ^ 64 → write_varint out v ≡ out ++ encoding 9 v
unfolding write_varint
write_varint-encoding out v h = write_varint_loop-encoding v _ 9 out (omega arith)

-- Each group is a byte, there is one at least, and `k + 1` at most.
encoding_bytes :
    (v k : ℕ)
    → v < 128 ^ suc k
    → (length (encoding k v) < k + 2) × (0 < length (encoding k v)) × All IsByte (encoding k v)
unfolding encoding group_before
encoding_bytes v zero fits = omega arith
encoding_bytes v (suc k) fits = ground (arith, encoding_bytes (v / 128) k (omega arith))

module _ (fuel : ℕ) (source : Bytes) (pos result shift byte : ℕ) where
  -- One round of the loop on the byte that stands at `pos`.
  pub read_varint_round :
      get_elem? source pos ≡ some byte
      → read_varint_loop (suc fuel) source pos result shift ≡ (
          let result' = bit_or result (bit_and byte 0x7f * 2 ^ shift % 2 ^ 64) in
          let more = read_varint_loop fuel source (pos + 1) result' (shift + 7) in
          if bit_and byte 0x80 == 0
          then ok (result', pos + 1)
          else if leb 64 (shift + 7)
          then err (storage "pack: varint overflow")
          else more)
  unfolding read_varint_loop
  read_varint_round e = rw (e, read_varint_loop) refl

  -- Adding a group to a result that it shares no bit with.
  add_group :
      (g : ℕ)
      → byte % 128 ≡ g
      → result < 2 ^ shift
      → g * 2 ^ shift < 2 ^ 64
      → bit_or result (bit_and byte 0x7f * 2 ^ shift % 2 ^ 64) ≡ result + g * 2 ^ shift
  add_group g hg hr fits = rw (low_bits, hg, modulo) (bit_or_disjoint shift result g hr)
    where
      modulo : g * 2 ^ shift % 2 ^ 64 ≡ g * 2 ^ shift
      modulo = omega arith

  last_round :
      get_elem? source pos ≡ some byte
      → byte < 128
      → result < 2 ^ shift
      → byte * 2 ^ shift < 2 ^ 64
      → read_varint_loop (suc fuel) source pos result shift
        ≡ ok (result + byte * 2 ^ shift, pos + 1)
  last_round e hb hr fits =
      ground (
        arith,
        read_varint_round e,
        add_group byte (omega arith) hr fits,
        top_bit byte (omega arith),
      )

  inner_round :
      (g : ℕ)
      → get_elem? source pos ≡ some byte
      → byte ≡ g + 128
      → g < 128
      → result < 2 ^ shift
      → g * 2 ^ shift < 2 ^ 64
      → shift + 7 < 64
      → read_varint_loop (suc fuel) source pos result shift
        ≡ read_varint_loop fuel source (pos + 1) (result + g * 2 ^ shift) (shift + 7)
  inner_round g e hb hg hr fits more =
      ground
        (arith, read_varint_round e, add_group g (omega arith) hr fits, top_bit byte (omega arith))

next_shift : (shift : ℕ) → 2 ^ (shift + 7) ≡ 2 ^ shift * 128
next_shift shift = simp towards_suc (omega arith)

weighted : (low high t : ℕ) → low * t + high * (t * 128) ≡ (high * 128 + low) * t
weighted low high t = grind arith

-- What the lowest group of `value` and the rest count for, from the bit `shift` on.
regroup :
    (shift value : ℕ) → value % 128 * 2 ^ shift + value / 128 * 2 ^ (shift + 7) ≡ value * 2 ^ shift
regroup shift value =
    rw (next_shift, weighted (value % 128) (value / 128) (2 ^ shift))
      (ap (λ (n : ℕ). n * 2 ^ shift) whole)
  where
    whole : value / 128 * 128 + value % 128 ≡ value
    whole = omega arith

group_fits : (g t result : ℕ) → g < 128 → result < t → result + g * t < t * 128
group_fits g t result hg hr = grind arith

-- The byte behind `pre`.
byte_at :
    (pre : Bytes) (byte : ℕ) (rest : Bytes) {source : Bytes} {pos : ℕ}
    → source ≡ pre ++ (byte ∷ rest)
    → pos ≡ length pre
    → get_elem? source pos ≡ some byte
byte_at pre byte rest p q = rw (p, q) (get_elem?-append pre byte rest)

-- The loop reads `value` from `bytes`, wherever they stand, and adds it from any bit on that leaves room
-- for `k + 1` groups, with a round for each byte.
abbrev ReadsBack : ℕ → ℕ → Bytes → Type 0
ReadsBack k value bytes =
    (fuel : ℕ) (source pre rest : Bytes) (pos result shift : ℕ)
    → length bytes ≤ suc fuel
    → source ≡ pre ++ (bytes ++ rest)
    → pos ≡ length pre
    → result < 2 ^ shift
    → shift + 7 * k < 64
    → value * 2 ^ shift < 2 ^ 64
    → read_varint_loop (suc fuel) source pos result shift
      ≡ ok (result + value * 2 ^ shift, pos + length bytes)

reads_last : (k value : ℕ) → value < 128 → ReadsBack k value (value ∷ [])
reads_last k value small fuel source pre rest pos result shift one stands at_end below room fits =
    last_round fuel source pos result shift value (byte_at pre value rest stands at_end) small below
      fits

reads_more :
    (k value : ℕ) (more : Bytes)
    → 0 < length more
    → ReadsBack k (value / 128) more
    → ReadsBack (suc k) value ((128 + value % 128) ∷ more)
reads_more k value more some_more higher zero source pre rest pos result shift rounds stands at_end
      below room fits =
    absurd (omega arith)
reads_more k value more some_more higher (suc fuel) source pre rest pos result shift rounds stands
      at_end below room fits =
    inner_round (suc fuel) source pos result shift byte low (byte_at pre _ _ stands at_end)
      (omega arith) (omega arith) below (omega (arith, regroup shift value)) (omega arith)
    ∙ higher fuel source (pre ++ (byte ∷ [])) rest (pos + 1) (result + low * 2 ^ shift) (shift + 7)
        (omega arith) (stands ∙ sym (append_assoc pre _ _))
        (omega (arith, at_end, length-append pre (byte ∷ [])))
        (rw next_shift (group_fits low (2 ^ shift) result (omega arith) below)) (omega arith)
        (omega (arith, regroup shift value))
    ∙ ap ok (λ i. (total i, place i))
  where
    low : ℕ
    low = value % 128

    byte : ℕ
    byte = 128 + low

    total : result + low * 2 ^ shift + value / 128 * 2 ^ (shift + 7) ≡ result + value * 2 ^ shift
    total = omega (arith, regroup shift value)

    place : pos + 1 + length more ≡ pos + length (byte ∷ more)
    place = omega arith

encoding-ReadsBack : (k value : ℕ) → value < 128 ^ suc k → ReadsBack k value (encoding k value)
unfolding encoding
encoding-ReadsBack zero value small = reads_last zero value (omega arith)
encoding-ReadsBack (suc k) value small = elim (seven_bits value) [
  | inl one ↦ rw (group_before_last value _ one) (reads_last (suc k) value one)
  | inr several ↦ rw (group_before_more value (encoding k (value / 128)) several) (
      reads_more k value _ (encoding_bytes (value / 128) k (omega arith)).1
        (encoding-ReadsBack k (value / 128) (omega arith)))
]

-- Reading back the encoding of a 64-bit value that stands behind `pre`.
pub read_varint-encoding :
    (v : ℕ) (source pre rest : Bytes) (pos : ℕ)
    → v < 2 ^ 64
    → source ≡ pre ++ (encoding 9 v ++ rest)
    → pos ≡ length pre
    → read_varint source pos ≡ ok (v, pos + length (encoding 9 v))
unfolding read_varint
read_varint-encoding v source pre rest pos h p q =
    encoding-ReadsBack 9 v (omega arith) (length source) source pre rest pos 0 0 fuel_left p q
      (omega arith) (omega arith) (omega arith)
    ∙ ap ok (λ i. (sum i, pos + length (encoding 9 v)))
  where
    sum : 0 + v * 2 ^ 0 ≡ v
    sum = omega arith

    fuel_left : length (encoding 9 v) ≤ suc (length source)
    fuel_left = omega (
      arith,
      ap length p,
      length-append pre (encoding 9 v ++ rest),
      length-append (encoding 9 v) rest,
    )

-- `read_varint` at the place where `write_varint` appended a 64-bit value returns the value and the
-- position behind its bytes, whatever follows.
pub read_varint-write_varint :
    (out rest : Bytes) (v : ℕ)
    → v < 2 ^ 64
    → read_varint (write_varint out v ++ rest) (length out) ≡ ok (v, length (write_varint out v))
read_varint-write_varint out rest v h =
    rw (write_varint-encoding out v h, length-append)
      (read_varint-encoding v _ out rest (length out) h (append_assoc out _ rest) refl)

-- A 64-bit value is written as one to ten bytes.
pub write_varint_bounds :
    (v : ℕ)
    → v < 2 ^ 64
    → All IsByte (write_varint [] v)
      × (1 ≤ length (write_varint [] v))
      × (length (write_varint [] v) ≤ 10)
write_varint_bounds v h =
    let (most, least, bytes) = encoding_bytes v 9 (omega arith) in
    rw (write_varint-encoding [] v h) (bytes, omega arith, omega arith)
