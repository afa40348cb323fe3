-- ===== src/Pack/Frame.antt =====
-- One frame of src/store/pack.rs: its bytes, and decoding them. That zstd decodes what it encoded,
-- and that a digest has 32 bytes, are hypotheses.
use bole.Base.{
  ℕ, ◌+◌, ◌-◌, ◌%◌, ◌^◌, ◌≤◌, ◌<◌, ◌≡◌, refl, sym, ap, arith, ◌∙◌, true, false, [], ◌∷◌, ◌++◌,
  Bytes, nat_eq, eq_iff, length, length-append, ltb, leb, ok, some, bytes_eq, ℕ_discrete,
}
use Prim.Native.Nat.{min}
use bole.Base.Slices.{
  get_elem?-append, slice, slice-append, get_elem?, get_range, get_range-append, leb-true,
}
use bole.Refs.{ObjectId}
use bole.Pack.{
  Zstd, zstd_window_log_max, max_object_len, record_object, read_varint, zstd_decode_bounded,
  push_frame, decode_frame, read_frame_at, next_frame, checked_end, max_pack_total_len,
}
use bole.Pack.Varint.{encoding, write_varint-encoding, read_varint-encoding}
use mathlib.Core.List.{append_assoc, append-nil}

-- What `encode_all` gives fits the memory, and a decoder with the window that the code allows
-- yields what it took, without an error.
abbrev pub RoundTrips : Zstd → Type 0
RoundTrips z =
    (content zstd : Bytes)
    → z.encode_all content ≡ some zstd
    → (length zstd < 2 ^ 64)
      × (z.decode_all zstd ≡ some content)
      × (dec : z.Decoder) × (bounded : z.Decoder) × (z.new zstd ≡ some dec)
      × (z.window_log_max dec zstd_window_log_max ≡ some bounded)
      × (z.output bounded ≡ (content, false))

-- Every digest has 32 bytes.
abbrev pub Digests32 : (Bytes → Bytes) → Type 0
Digests32 hash = (b : Bytes) → length (hash b) ≡ 32

-- The bytes that `finish` appends for an object.
unfoldable pub frame_bytes : ObjectId → Bytes → Bytes → Bytes
frame_bytes id content zstd =
    record_object ∷ (id ++ (encoding 9 (length content) ++ (encoding 9 (length zstd) ++ zstd)))

checked_end-some :
    (a b limit c : ℕ) → a + b ≡ c → c ≤ limit → limit < 2 ^ 64 → checked_end a b limit ≡ some c
unfolding checked_end
checked_end-some a b limit c e p q = rw (e) (rw (word, leb-true c limit p) refl)
  where
    word : ltb c (2 ^ 64) ≡ true
    word = ground arith

module _ (z : Zstd) (hash : Bytes → Bytes) where
  pub push_frame-frame_bytes :
      (buf : Bytes) (id : ObjectId) (content zstd : Bytes)
      → length content < 2 ^ 64
      → length zstd < 2 ^ 64
      → push_frame z hash buf id content zstd ≡ buf ++ frame_bytes id content zstd
  unfolding push_frame frame_bytes
  push_frame-frame_bytes buf id content zstd hc hz =
      rw (write_varint-encoding _ _ hc, write_varint-encoding _ _ hz) (simp append_assoc refl)

  module _ (trips : RoundTrips z) (content zstd : Bytes)
      (e : z.encode_all content ≡ some zstd) where
    zstd_decode_bounded-encode_all : zstd_decode_bounded z hash zstd (length content) ≡ ok content
    unfolding zstd_decode_bounded
    zstd_decode_bounded-encode_all =
        let (_, _, dec, bounded, p, q, r) = trips content zstd e in rw (p, q, r, room) refl
      where
        room : leb (length content + 1) (length content) ≡ false
        room = ground arith

    module _ (id : ObjectId) (digest : id ≡ hash content) (h32 : Digests32 hash)
        (cap : length content ≤ max_object_len) where
      small : length zstd < 2 ^ 64
      small = (trips content zstd e).0

      abbrev e1 : Bytes
      e1 = encoding 9 (length content)

      abbrev e2 : Bytes
      e2 = encoding 9 (length zstd)

      body_start : ℕ
      body_start = 33 + length e1 + length e2

      id_32 : length id ≡ 32
      id_32 = rw digest (h32 content)

      length-frame_bytes : length (frame_bytes id content zstd) ≡ body_start + length zstd
      unfolding frame_bytes body_start
      length-frame_bytes = rw (length-append, length-append, length-append) (omega (arith, id_32))

      -- The fields read back at the places where they stand, whatever follows.
      module _ (pre rest source : Bytes) (pos : ℕ)
          (s : source ≡ pre ++ (frame_bytes id content zstd ++ rest)) (p : pos ≡ length pre) where
        read_ulen : read_varint source (pos + 33) ≡ ok (length content, pos + 33 + length e1)
        unfolding frame_bytes
        read_ulen =
            read_varint-encoding (length content) source (pre ++ (record_object ∷ id))
              ((encoding 9 (length zstd) ++ zstd) ++ rest) (pos + 33) (omega arith)
              (s ∙ simp append_assoc refl)
              (omega (arith, p, id_32, length-append pre (record_object ∷ id)))

        read_slen : read_varint source (pos + 33 + length e1) ≡ ok (length zstd, pos + body_start)
        unfolding frame_bytes body_start
        read_slen =
            read_varint-encoding (length zstd) source ((pre ++ (record_object ∷ id)) ++ e1)
              (zstd ++ rest) (pos + 33 + length e1) small (s ∙ simp append_assoc refl)
              (omega (
                arith,
                p,
                id_32,
                length-append pre (record_object ∷ id),
                length-append (pre ++ (record_object ∷ id)) e1,
              ))
            ∙ ap ok (λ i. (length zstd, place i))
          where
            place : pos + 33 + length e1 + length e2 ≡ pos + body_start
            place = omega arith

      decode_frame-frame_bytes :
          length (frame_bytes id content zstd) < 2 ^ 64
          → decode_frame z hash (frame_bytes id content zstd) ≡ ok (id, content)
      unfolding decode_frame frame_bytes ℕ_discrete body_start
      decode_frame-frame_bytes fits =
          rw
            (
              id_at,
              read_ulen [] [] frame 0 whole refl,
              leb-true _ _ cap,
              slen,
              body,
              zstd_decode_bounded-encode_all,
              (eq_iff (length content) (length content)).1 refl,
              (eq_iff (hash content) id).1 (sym digest),
            )
            refl
        where
          frame : Bytes
          frame = frame_bytes id content zstd

          whole : frame ≡ frame ++ []
          whole = sym (append-nil frame)

          place : 0 + body_start ≡ body_start
          place = omega arith

          id_at : get_range frame 1 33 ≡ some id
          id_at =
              get_range-append (record_object ∷ []) id (e1 ++ (e2 ++ zstd)) refl refl
                (omega (arith, id_32))

          slen : read_varint frame (33 + length e1) ≡ ok (length zstd, body_start)
          slen = read_slen [] [] frame 0 whole refl ∙ ap ok (λ i. (length zstd, place i))

          body : get_range frame body_start ((body_start + length zstd) % 2 ^ 64) ≡ some zstd
          body =
              get_range-append ((record_object ∷ id) ++ (e1 ++ e2)) zstd []
                (simp (append_assoc, append-nil) refl)
                (omega (
                  arith,
                  id_32,
                  length-append e1 e2,
                  length-append (record_object ∷ id) (e1 ++ e2),
                ))
                (omega (
                  arith,
                  id_32,
                  fits,
                  length-frame_bytes,
                  length-append e1 e2,
                  length-append (record_object ∷ id) (e1 ++ e2),
                ))

      module _ (pre rest source : Bytes) (pos : ℕ)
          (s : source ≡ pre ++ (frame_bytes id content zstd ++ rest)) (p : pos ≡ length pre)
          (fits : length source < 2 ^ 64) where
        kind : get_elem? source pos ≡ some record_object
        unfolding frame_bytes
        kind = rw (s, p) (get_elem?-append pre record_object _)

        length-source : length source ≡ pos + (length (frame_bytes id content zstd) + length rest)
        length-source = rw (s, length-append, length-append, p) refl

        -- The frame is cut out of the source and decoded.
        cut_frame :
            (end : ℕ)
            → end ≡ pos + length (frame_bytes id content zstd)
            → decode_frame z hash (slice source pos end) ≡ ok (id, content)
        cut_frame end q = rw (cut) (decode_frame-frame_bytes (omega (arith, length-source)))
          where
            cut : slice source pos end ≡ frame_bytes id content zstd
            cut = slice-append pre (frame_bytes id content zstd) rest s p (omega (arith, p, q))

        pub read_frame_at-frame_bytes :
            read_frame_at z hash source pos (length (frame_bytes id content zstd))
            ≡ ok (id, content)
        unfolding read_frame_at
        read_frame_at-frame_bytes =
            rw
              (checked_end-some pos (length (frame_bytes id content zstd)) (length source) _ refl
                (omega (arith, length-source)) fits)
              (cut_frame _ refl)

        -- A round of the loop takes the frame.
        pub next_frame-frame_bytes :
            (total : ℕ)
            → total + length content ≤ max_pack_total_len
            → next_frame z hash source pos total
              ≡ ok (
                (id, content),
                total + length content,
                pos + length (frame_bytes id content zstd),
              )
        unfolding next_frame ℕ_discrete body_start
        next_frame-frame_bytes total budget =
            rw
              (
                kind,
                id_end,
                read_ulen pre rest source pos s p,
                read_slen pre rest source pos s p,
                frame_end,
                cut_frame _ refl,
                capped,
                leb-true _ _ budget,
              )
              refl
          where
            id_end : checked_end (pos + 1) 32 (length source) ≡ some (pos + 33)
            id_end =
                checked_end-some (pos + 1) 32 (length source) (pos + 33) (omega arith)
                  (omega (arith, length-source, length-frame_bytes)) fits

            frame_end :
                checked_end (pos + body_start) (length zstd) (length source)
                ≡ some (pos + length (frame_bytes id content zstd))
            frame_end =
                checked_end-some (pos + body_start) (length zstd) (length source) _
                  (omega (arith, length-frame_bytes))
                  (omega (arith, length-source, length-frame_bytes)) fits

            capped : min (total + length content) (2 ^ 64 - 1) ≡ total + length content
            capped = omega arith
