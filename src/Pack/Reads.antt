-- ===== src/Pack/Reads.antt =====
-- What read_varint of src/store/pack.rs comes to on any bytes.
use bole.Base.{
  ℕ, zero, suc, ◌+◌, ◌*◌, ◌%◌, ◌^◌, ◌≤◌, ◌<◌, ◌≡◌, refl, sym, ap, subst, arith, ◌∙◌, true, false,
  some, none, Bytes, nat_eq, ◌==◌, length, leb, ◌⊎◌, Result, ok, err, Bool-cases, storage, inl, inr,
  Option-cases,
}
use bole.Base.Slices.{get_elem?, get_elem?-lt}
use bole.Base.Bits.{bit_or-lt}
use bole.Pack.{read_varint_loop, read_varint}
use bole.Pack.Varint.{read_varint_round}
use Prim.Native.Nat.{bit_and, bit_or}

-- The byte at a position has its top bit set, so that another is to follow it.
abbrev pub Continues : Bytes → ℕ → Type 0
Continues source i =
    (byte : ℕ) × (get_elem? source i ≡ some byte) × ((bit_and byte 0x80 == 0) ≡ false)

abbrev pub Stops : Bytes → ℕ → Type 0
Stops source i = (byte : ℕ) × (get_elem? source i ≡ some byte) × ((bit_and byte 0x80 == 0) ≡ true)

-- Each of the `n` bytes from `pos` on is to be followed by another.
abbrev pub Run : Bytes → ℕ → ℕ → Type 0
Run source pos n = (i : ℕ) → i < n → Continues source (pos + i)

-- Fewer than ten bytes and then the last one are read, to a value of 64 bits; or ten bytes are each
-- to be followed by another; or the source ends behind fewer than ten such bytes.
abbrev pub Reads : Bytes → ℕ → Result (ℕ × ℕ) → Type 0
Reads source pos (ok (v, end)) =
    (v < 2 ^ 64)
    × (n : ℕ) × (n < 10)
    × Run source pos n
    × Stops source (pos + n)
    × (end ≡ pos + n + 1)
Reads source pos (err e) =
    (Run source pos 10 × (e ≡ storage "pack: varint overflow"))
    ⊎ ((n : ℕ) × (n < 10)
        × Run source pos n
        × (get_elem? source (pos + n) ≡ none)
        × (e ≡ storage "pack: varint truncated"))

Run-suc :
    (source : Bytes) (pos n : ℕ)
    → Run source pos n
    → Continues source (pos + n)
    → Run source pos (suc n)
Run-suc source pos n run c i h = elim (Bool-cases (i == n)) [
  | inl e ↦ subst (λ j. Continues source (pos + j)) (same e) c
  | inr other ↦ run i (ground (arith, other, h))
]
  where
    same : (i == n) ≡ true → n ≡ i
    same e = ground (arith, e)

behind_end : (source : Bytes) (i : ℕ) → length source ≤ i → get_elem? source i ≡ none
behind_end source i h = elim (Option-cases (get_elem? source i)) [
  | inl e ↦ e
  | inr (byte, e) ↦ absurd (omega (arith, get_elem?-lt source i byte e))
]

-- The loop behind `n` bytes that are each to be followed by another.
read_varint_loop-Reads :
    (fuel : ℕ) (source : Bytes) (pos n at result shift : ℕ)
    → n < 10
    → at ≡ pos + n
    → shift ≡ 7 * n
    → length source < at + fuel
    → Run source pos n
    → result < 2 ^ 64
    → Reads source pos (read_varint_loop fuel source at result shift)
unfolding read_varint_loop
read_varint_loop-Reads zero source pos n at result shift few here bits rounds run small =
    inr (n, few, run, behind_end source (pos + n) (omega arith), refl)
read_varint_loop-Reads (suc fuel) source pos n at result shift few here bits rounds run small =
    elim (Option-cases (get_elem? source at)) [
      | inl e ↦
          rw (e, read_varint_loop) (inr (n, few, run, ap (get_elem? source) (sym here) ∙ e, refl))
      | inr (byte, e) ↦
          let there : get_elem? source (pos + n) ≡ some byte =
            ap (get_elem? source) (sym here) ∙ e in
          let wide =
            bit_or-lt 64 result (bit_and byte 0x7f * 2 ^ shift % 2 ^ 64) small (omega arith) in
          rw (read_varint_round fuel source at result shift byte e)
            (elim (Bool-cases (bit_and byte 0x80 == 0)) [
              | inl last ↦ rw last (wide, n, few, run, (byte, there, last), omega arith)
              | inr more ↦ elim (Bool-cases (leb 64 (shift + 7))) [
                | inl full ↦
                    rw (more, full) (inl (ten (ground (arith, full)) (byte, there, more), refl))
                | inr room ↦
                    rw (more, room)
                      (read_varint_loop-Reads fuel source pos (suc n) (at + 1)
                        (bit_or result (bit_and byte 0x7f * 2 ^ shift % 2 ^ 64)) (shift + 7)
                        (ground (arith, room)) (omega arith) (omega arith) (omega arith)
                        (Run-suc source pos n run (byte, there, more)) wide)
              ]
            ])
    ]
  where
    ten : n ≡ 9 → Continues source (pos + n) → Run source pos 10
    ten e c = subst (Run source pos) {x = suc n} (ap suc e) (Run-suc source pos n run c)

-- A read takes at most ten bytes, up to the first without its top bit, and gives a 64-bit value; it
-- fails with an overflow only where the ten bytes from the position on have the top bit, and as
-- truncated only where the source ends behind fewer than ten such bytes.
pub read_varint-Reads : (source : Bytes) (pos : ℕ) → Reads source pos (read_varint source pos)
unfolding read_varint
read_varint-Reads source pos =
    read_varint_loop-Reads (suc (length source)) source pos 0 pos 0 0 (omega arith) (omega arith)
      (omega arith) (omega arith) (λ i h. absurd (omega arith)) (omega arith)

-- A successful read moves on.
pub read_varint_forward :
    (source : Bytes) (pos v end : ℕ) → read_varint source pos ≡ ok (v, end) → pos < end
read_varint_forward source pos v end h =
    let (wide, n, few, run, stops, ends) =
      subst (Reads source pos) h (read_varint-Reads source pos) in
    omega arith
