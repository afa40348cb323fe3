-- ===== src/Pack/Envelope.antt =====
-- The header and the trailer of a pack of src/store/pack.rs, as the checks of decode_pack see them.
use bole.Base.{
  ℕ, ◌+◌, ◌-◌, ◌≤◌, ◌≡◌, refl, sym, ap, arith, [], ◌++◌, Bytes, length, length-append, ok, eq_iff,
  nat_eq, bytes_eq, ℕ_discrete, bytes_discrete,
}
use bole.Base.Slices.{
  slice, slice-append, leb-true, drop, drop-append, take, take-append, from_le_bytes,
  from_le_bytes-to_le_bytes, replicate,
}
use bole.Pack.{
  max_pack_objects, pack_magic, pack_version, end_magic, header, open_pack, header_len, trailer_len,
  Zstd,
}
use bole.Pack.Frame.{Digests32}
use mathlib.Core.List.{append_assoc, append-nil}

-- What follows the number of objects in the header.
abbrev after_count : Bytes
after_count = replicate 8 0

pub length-header : (z : Zstd) (hash : Bytes → Bytes) (n : ℕ) → length (header z hash n) ≡ 32
unfolding header
length-header z hash n = refl

module _ (z : Zstd) (hash : Bytes → Bytes) (h32 : Digests32 hash) (n : ℕ) (tail : Bytes)
    (cap_n : n ≤ max_pack_objects) where
  abbrev buf : Bytes
  buf = header z hash n ++ tail

  abbrev pack : Bytes
  pack = (buf ++ end_magic) ++ hash buf

  magic_at : slice pack 0 8 ≡ pack_magic
  unfolding header slice
  magic_at = refl

  version_at : from_le_bytes (slice pack 8 12) ≡ pack_version
  unfolding header slice
  version_at = refl

  count_at : from_le_bytes (slice pack 16 24) ≡ n
  unfolding header slice
  count_at = from_le_bytes-to_le_bytes 8 n (omega arith)

  length_pack : length pack ≡ length buf + 40
  length_pack = rw (length-append, length-append) (omega (arith, h32 buf))

  long_enough : 32 ≤ length buf
  long_enough = omega (arith, length-append (header z hash n) tail, length-header z hash n)

  body_end : length pack - trailer_len ≡ length buf
  body_end = omega (arith, length_pack)

  body_is : take (length pack - trailer_len) pack ≡ buf
  body_is = rw (body_end, append_assoc) (take-append buf (end_magic ++ hash buf))

  trailer_is : drop (length pack - trailer_len) pack ≡ end_magic ++ hash buf
  trailer_is = rw (body_end, append_assoc) (drop-append buf (end_magic ++ hash buf))

  digest_at : slice (end_magic ++ hash buf) 8 40 ≡ hash buf
  digest_at =
      slice-append end_magic (hash buf) [] (ap (◌++◌ end_magic) (sym (append-nil (hash buf)))) refl
        (omega (arith, h32 buf))

  end_magic_at : slice (end_magic ++ hash buf) 0 8 ≡ end_magic
  unfolding slice
  end_magic_at = refl

  -- The checks before the loop of `decode_pack` pass on a pack with this header and trailer.
  pub open_pack-envelope : open_pack z hash pack ≡ ok (n, buf)
  unfolding open_pack bytes_discrete ℕ_discrete
  open_pack-envelope =
      rw
        (
          magic_at,
          version_at,
          count_at,
          body_is,
          trailer_is,
          end_magic_at,
          digest_at,
          leb-true _ _ long_enough',
          leb-true _ _ cap_n,
          (eq_iff (hash buf) (hash buf)).1 refl,
        )
        refl
    where
      long_enough' : header_len + trailer_len ≤ length pack
      long_enough' = omega (arith, long_enough, length_pack)
