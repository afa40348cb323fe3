-- ===== src/Pack/Sound.antt =====
-- decode_frame, read_frame_at and decode_pack of src/store/pack.rs on any bytes: what an accepted
-- pack holds, and that the loop ends.
use bole.Base.{
  ℕ, zero, suc, ◌+◌, ◌≤◌, ◌<◌, ◌≡◌, refl, sym, ap, subst, arith, ◌∙◌, true, List, [], ◌∷◌, ◌++◌,
  Bytes, length, ltb, leb, Result, ok, err, Option, some, none, require, storage, Result-cases,
  Bool-cases, inl, inr, ◌>>=◌, ◌>>◌, ◌==◌, nat_eq, bytes_eq,
}
use bole.Base.Slices.{slice}
use bole.Refs.{ObjectId}
use bole.Pack.{
  Zstd, max_object_len, max_pack_objects, max_pack_total_len, ok_or, read_varint, decode_frame,
  next_frame, decode_frames, open_pack, decode_pack, checked_end,
}
use bole.Pack.Reads.{read_varint_forward}
use bole.Pack.Appended.{IsStorable, total_len}

module _ {ℓ κ} {S : Type ℓ} {T : Type κ} where
  >>=-ok :
      (r : Result S) (next : S → Result T) (b : T)
      → (r >>= next) ≡ ok b
      → (a : S) × (r ≡ ok a) × (next a ≡ ok b)
  >>=-ok (ok a) next b h = (a, refl, h)
  >>=-ok (err e) next b h = absurd (cc)

ok_or-ok {ℓ} :
    {A : Type ℓ} (o : Option A) (message : Prim.Native.String.String) (a : A)
    → ok_or o message ≡ ok a
    → o ≡ some a
ok_or-ok none message a h = absurd (cc)
ok_or-ok (some b) message a h = cc

leb-le : (a b : ℕ) → leb a b ≡ true → a ≤ b
leb-le a b h = ground arith

module _ (z : Zstd) (hash : Bytes → Bytes) where
  -- An object named by its digest and within the limit of one object.
  abbrev pub IsVerified : ObjectId × Bytes → Type 0
  IsVerified (id, content) = (id ≡ hash content) × (length content ≤ max_object_len)

  decode_frame-IsVerified :
      (frame : Bytes) (object : ObjectId × Bytes)
      → decode_frame z hash frame ≡ ok object
      → IsVerified object
  unfolding decode_frame
  decode_frame-IsVerified frame object h = ground (arith, h)

  -- What a round of the loop has checked.
  next_frame-Checked :
      (body : Bytes) (pos total : ℕ) (id : ObjectId) (content : Bytes) (total' end : ℕ)
      → next_frame z hash body pos total ≡ ok ((id, content), total', end)
      → IsVerified (id, content) × (total' ≡ total + length content) × (total' ≤ max_pack_total_len)
  unfolding next_frame checked_end
  next_frame-Checked body pos total id content total' end h =
      ground (arith, h, decode_frame-IsVerified (slice body pos end) (id, content))

  -- A round ends behind the place where it began.
  next_frame_forward :
      (body : Bytes) (pos total : ℕ) (object : ObjectId × Bytes) (total' end : ℕ)
      → next_frame z hash body pos total ≡ ok (object, total', end)
      → pos < end
  unfolding next_frame checked_end
  next_frame_forward body pos total object total' end h =
      elim (Result-cases (read_varint body (pos + 1 + 32))) [
        | inl ((ulen, ulen_end), e) ↦ elim (Result-cases (read_varint body ulen_end)) [
          | inl ((slen, start), e') ↦ ground (
            arith,
            h,
            e,
            e',
            read_varint_forward body (pos + 1 + 32) ulen ulen_end e,
            read_varint_forward body ulen_end slen start e',
          )
          | inr (d, e') ↦ ground (arith, h, e, e')
        ]
        | inr (d, e) ↦ ground (arith, h, e)
      ]

  -- The objects collected so far are verified, and the running total is that of their lengths.
  abbrev IsCollected : ℕ → List (ObjectId × Bytes) → Type 0
  IsCollected total out =
      IsStorable hash out × (total_len out ≡ total) × (total ≤ max_pack_total_len)

  push-IsCollected :
      (total total' : ℕ) (out : List (ObjectId × Bytes)) (id : ObjectId) (content : Bytes)
      → IsCollected total out
      → IsVerified (id, content)
      → total' ≡ total + length content
      → total' ≤ max_pack_total_len
      → IsCollected total' (out ++ ((id, content) ∷ []))
  push-IsCollected total total' out id content (st, e, _) v e' lim =
      (IsStorable-append out st, length_is out ∙ ap (λ (t : ℕ). t + length content) e ∙ sym e', lim)
    where
      IsStorable-append :
          (os : List (ObjectId × Bytes))
          → IsStorable hash os
          → IsStorable hash (os ++ ((id, content) ∷ []))
      IsStorable-append [] st = (v, tt)
      IsStorable-append (o ∷ os) (x, st) = (x, IsStorable-append os st)

      length_is :
          (os : List (ObjectId × Bytes))
          → total_len (os ++ ((id, content) ∷ [])) ≡ total_len os + length content
      length_is [] = omega arith
      length_is ((i, c) ∷ os) = omega (arith, length_is os)

  at_end :
      (total : ℕ) (out objects : List (ObjectId × Bytes))
      → IsCollected total out
      → some (ok out) ≡ some (ok objects)
      → IsStorable hash objects × (total_len objects ≤ max_pack_total_len)
  at_end total out objects (st, e, lim) h =
      subst
        (λ (t : List (ObjectId × Bytes)). IsStorable hash t × (total_len t ≤ max_pack_total_len))
        (cc) (st, omega (arith, e, lim))

  decode_frames-IsCollected :
      (fuel : ℕ) (body : Bytes) (pos total : ℕ) (out objects : List (ObjectId × Bytes))
      → IsCollected total out
      → decode_frames z hash fuel body pos total out ≡ some (ok objects)
      → IsStorable hash objects × (total_len objects ≤ max_pack_total_len)
  unfolding decode_frames
  decode_frames-IsCollected zero body pos total out objects (st, e, lim) h =
      elim (Bool-cases (ltb pos (length body))) [
        | inl more ↦ absurd (cc (rw (more, decode_frames) at h))
        | inr end ↦ at_end total out objects (st, e, lim) (rw (end, decode_frames) at h)
      ]
  decode_frames-IsCollected (suc fuel) body pos total out objects (st, e, lim) h =
      elim (Bool-cases (ltb pos (length body))) [
        | inl more ↦ elim (Result-cases (next_frame z hash body pos total)) [
          | inl (((id, content), total', end), r) ↦
              let (v, sum, lim') = next_frame-Checked body pos total id content total' end r in
              decode_frames-IsCollected fuel body end total' (out ++ ((id, content) ∷ [])) objects
                (push-IsCollected total total' out id content (st, e, lim) v sum lim')
                (rw (more, r, decode_frames) at h)
          | inr (d, r) ↦ absurd (cc (rw (more, r, decode_frames) at h))
        ]
        | inr end ↦ at_end total out objects (st, e, lim) (rw (end, decode_frames) at h)
      ]

  -- Rounds enough for the bytes that are left.
  decode_frames_total :
      (fuel : ℕ) (body : Bytes) (pos total : ℕ) (out : List (ObjectId × Bytes))
      → length body ≤ pos + fuel
      → (r : Result (List (ObjectId × Bytes))) × (decode_frames z hash fuel body pos total out
          ≡ some r)
  unfolding decode_frames
  decode_frames_total zero body pos total out enough = (ok out, ground arith)
  decode_frames_total (suc fuel) body pos total out enough =
      elim (Bool-cases (ltb pos (length body))) [
        | inl more ↦ elim (Result-cases (next_frame z hash body pos total)) [
          | inl ((object, total', end), r) ↦
              let (res, e) =
                decode_frames_total fuel body end total' (out ++ (object ∷ []))
                  (omega (arith, next_frame_forward body pos total object total' end r)) in
              (res, rw (more, r, decode_frames) e)
          | inr (d, r) ↦ (err d, rw (more, r, decode_frames) refl)
        ]
        | inr end ↦ (ok out, rw (end, decode_frames) refl)
      ]

  open_pack_limit :
      (pack : Bytes) (count : ℕ) (body : Bytes)
      → open_pack z hash pack ≡ ok (count, body)
      → count ≤ max_pack_objects
  unfolding open_pack
  open_pack_limit pack count body h = ground (arith, h)

  counted :
      (out objects : List (ObjectId × Bytes)) (count : ℕ)
      → some (require (length out == count) (storage "pack: object count mismatch") >> ok out)
        ≡ some (ok objects)
      → (out ≡ objects) × (length out ≡ count)
  counted out objects count h = ground (arith, h)

  -- On any bytes, what `decode_pack` accepts is a list of objects each named by the digest of its
  -- content, and the limits hold: on each object, on their number and on their total length.
  pub decode_pack-IsStorable :
      (pack : Bytes) (objects : List (ObjectId × Bytes))
      → decode_pack z hash pack ≡ some (ok objects)
      → IsStorable hash objects
        × (length objects ≤ max_pack_objects)
        × (total_len objects ≤ max_pack_total_len)
  unfolding decode_pack
  decode_pack-IsStorable pack objects h = elim (Result-cases (open_pack z hash pack)) [
    | inl ((count, body), e) ↦
        let (decoded, d) = decode_frames_total (length body) body 32 0 [] (omega arith) in
        elim (Result-cases decoded) [
          | inl (out, q) ↦
              let r = d ∙ ap some q in
              let (same, number) = counted out objects count (rw (e, r, decode_pack) at h) in
              let (st, sum) =
                decode_frames-IsCollected (length body) body 32 0 [] objects (tt, refl, omega arith)
                  (r ∙ ap (λ (t : List (ObjectId × Bytes)). some (ok t)) same) in
              (
                st,
                subst (λ (t : List (ObjectId × Bytes)). length t ≤ max_pack_objects) same
                    (omega (arith, number, open_pack_limit pack count body e)),
                sum,
              )
          | inr (f, q) ↦ absurd (cc (rw (e, d ∙ ap some q, decode_pack) at h))
        ]
    | inr (d, e) ↦ absurd (cc (rw (e, decode_pack) at h))
  ]

  -- `decode_pack` ends on any bytes, with objects or with an error.
  pub decode_pack_total :
      (pack : Bytes) → (r : Result (List (ObjectId × Bytes))) × (decode_pack z hash pack ≡ some r)
  unfolding decode_pack
  decode_pack_total pack = elim (Result-cases (open_pack z hash pack)) [
    | inl ((count, body), e) ↦
        let (r, d) = decode_frames_total (length body) body 32 0 [] (omega arith) in
        (
          r >>= λ out.
              require (length out == count) (storage "pack: object count mismatch") >> ok out,
          rw (e, d, decode_pack) refl,
        )
    | inr (d, e) ↦ (err d, rw (e, decode_pack) refl)
  ]
