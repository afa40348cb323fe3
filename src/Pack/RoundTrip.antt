-- ===== src/Pack/RoundTrip.antt =====
-- finish and decode_pack of src/store/pack.rs: a pack that the builder wrote decodes to its objects,
-- and each of its entries locates one of them.
use bole.Base.{
  ℕ, ◌+◌, ◌^◌, ◌≤◌, ◌<◌, ◌≡◌, refl, sym, ap, subst, arith, ◌∙◌, List, [], ◌++◌, Bytes, length,
  length-append, ok, some, eq_iff, nat_eq, ℕ_discrete, Result-cases, inl, inr,
}
use bole.Pack.{
  Zstd, PackEntry, PackBuilder, max_pack_objects, max_pack_total_len, end_magic, push_frames,
  header, header_len, finish, decode_frames, open_pack, decode_pack,
}
use bole.Pack.Envelope.{open_pack-envelope, length-header}
use bole.Pack.Frame.{RoundTrips, Digests32}
use bole.Pack.Appended.{
  IsStorable, total_len, Locates, Appended, push_frames-Appended, decode_frames-push_frames,
  ok-triple,
}
use mathlib.Core.List.{append_assoc}

module _ (z : Zstd) (hash : Bytes → Bytes) (trips : RoundTrips z) (h32 : Digests32 hash) where
  -- A finished pack is the buffer of the loop, the end magic and the digest of the buffer.
  record Finished (builder : PackBuilder) (pack : Bytes) (entries : List PackEntry) : Type 0 where
    buf : Bytes
    built :
        push_frames z hash (header z hash (length builder.objects)) [] builder.objects
        ≡ ok (buf, entries)
    sealed : pack ≡ (buf ++ end_magic) ++ hash buf

  finish-Finished :
      (builder : PackBuilder) (pack : Bytes) (entries : List PackEntry) (digest : Bytes)
      → finish z hash builder ≡ ok (pack, entries, digest)
      → Finished builder pack entries
  unfolding finish
  finish-Finished builder pack entries digest h =
      elim (Result-cases
        (push_frames z hash (header z hash (length builder.objects)) [] builder.objects)) [
          | inl ((buf, es), e) ↦
              let same =
                ok-triple ((buf ++ end_magic) ++ hash buf, es, hash buf) (pack, entries, digest)
                  (rw (e, finish) at h) in
              record {
                buf = buf;
                built = e ∙ ap (λ (t : List PackEntry). ok (buf, t)) same.1;
                sealed = sym same.0;
              }
          | inr (d, e) ↦ absurd (cc (rw (e, finish) at h))
        ]

  -- The digest of a finished pack has 32 bytes.
  pub finish_digest :
      (builder : PackBuilder) (pack : Bytes) (entries : List PackEntry) (digest : Bytes)
      → finish z hash builder ≡ ok (pack, entries, digest)
      → length digest ≡ 32
  unfolding finish
  finish_digest builder pack entries digest h =
      elim (Result-cases
        (push_frames z hash (header z hash (length builder.objects)) [] builder.objects)) [
          | inl ((buf, es), e) ↦ ap length (sym (cc (rw (e, finish) at h))) ∙ h32 buf
          | inr (d, e) ↦ absurd (cc (rw (e, finish) at h))
        ]

  module _ (builder : PackBuilder) (pack : Bytes) (entries : List PackEntry) (digest : Bytes)
      (stored : IsStorable hash builder.objects)
      (made : finish z hash builder ≡ ok (pack, entries, digest))
      (fits : length pack < 2 ^ 64) where
    finished : Finished builder pack entries
    finished = finish-Finished builder pack entries digest made

    appended :
        Appended z hash trips h32 builder.objects
          (header z hash (length builder.objects))
          finished.buf
          []
          entries
    appended =
        push_frames-Appended z hash trips h32 builder.objects _ [] finished.buf entries stored
          finished.built

    -- Every entry that `finish` returns names its object and, by `read_frame_at`, reads it back from
    -- the pack; the entries stand in the order of the objects. For objects that carry the digest of
    -- their content and keep within the limit of one object.
    pub finish-Locates : Locates z hash pack builder.objects entries
    finish-Locates =
        subst (λ (t : Bytes). Locates z hash t builder.objects entries) (sym whole)
          (subst
            (λ (t : List PackEntry).
              Locates z hash (finished.buf ++ (end_magic ++ hash finished.buf)) builder.objects t)
            (sym appended.entries_are)
            (appended.locates (end_magic ++ hash finished.buf)
              (subst (λ (t : Bytes). length t < 2 ^ 64) whole fits)))
      where
        whole : pack ≡ finished.buf ++ (end_magic ++ hash finished.buf)
        whole = finished.sealed ∙ append_assoc finished.buf end_magic (hash finished.buf)

    -- `decode_pack` returns exactly the objects that `finish` packed, in their order, where the
    -- objects carry the digest of their content and the limits on one object, on their number and
    -- on their total length hold.
    pub decode_pack-finish :
        length builder.objects ≤ max_pack_objects
        → total_len builder.objects ≤ max_pack_total_len
        → decode_pack z hash pack ≡ some (ok builder.objects)
    unfolding decode_pack ℕ_discrete
    decode_pack-finish many budget =
        rw (finished.sealed) (rw (opened, decoded, decode_pack, (eq_iff n n).1 refl) refl)
      where
        n : ℕ
        n = length builder.objects

        buf : Bytes
        buf = finished.buf

        shape : buf ≡ header z hash n ++ appended.tail
        shape = appended.pack_is

        opened : open_pack z hash ((buf ++ end_magic) ++ hash buf) ≡ ok (n, buf)
        opened = rw (shape) (open_pack-envelope z hash h32 n appended.tail many)

        length_buf : length buf ≡ 32 + length appended.tail
        length_buf = rw (shape, length-append) (omega (arith, length-header z hash n))

        decoded : decode_frames z hash (length buf) buf header_len 0 [] ≡ some (ok builder.objects)
        decoded = rw (← length-header z hash n) (
            decode_frames-push_frames z hash trips h32 builder.objects (header z hash n) [] buf
              entries (length buf) 0 [] stored finished.built
              (omega (
                arith,
                fits,
                ap length finished.sealed,
                length-append (buf ++ end_magic) (hash buf),
                length-append buf end_magic,
              ))
              (omega arith) (omega (arith, appended.room, length_buf)))
