-- ===== src/Pack/Appended.antt =====
-- The loops of finish and of decode_pack in src/store/pack.rs: what the first appends, and that the
-- second reads it back.
use bole.Base.{
  ℕ, zero, suc, ◌+◌, ◌-◌, ◌^◌, ◌≤◌, ◌<◌, ◌≡◌, refl, sym, ap, arith, ◌∙◌, true, List, [], ◌∷◌, ◌++◌,
  Bytes, length, length-append, ltb, All, ok, some, nat_eq, Option-cases, inl, inr,
}
use bole.Refs.{ObjectId}
use bole.Pack.{
  Zstd, PackEntry, max_object_len, max_pack_total_len, push_frames, read_frame_at, next_frame,
  decode_frames,
}
use bole.Pack.Frame.{
  RoundTrips, Digests32, frame_bytes, push_frame-frame_bytes, read_frame_at-frame_bytes,
  next_frame-frame_bytes,
}
use mathlib.Core.List.{append_assoc, append-nil}

-- Each object is named by its digest and within the limit of one object.
abbrev pub IsStorable : (Bytes → Bytes) → List (ObjectId × Bytes) → Type 0
IsStorable hash = All (λ object. (object.0 ≡ hash object.1) × (length object.1 ≤ max_object_len))

abbrev pub total_len : List (ObjectId × Bytes) → ℕ
total_len [] = 0
total_len ((id, content) ∷ objects) = length content + total_len objects

-- Entry by entry, the entries name the objects and read them back from `source`.
abbrev pub Locates :
    Zstd → (Bytes → Bytes) → Bytes → List (ObjectId × Bytes) → List PackEntry → Type 0
Locates z hash source [] [] = Unit
Locates z hash source [] (e ∷ es) = ⊥
Locates z hash source (o ∷ os) [] = ⊥
Locates z hash source (o ∷ os) (e ∷ es) =
    (e.id ≡ o.0) × (read_frame_at z hash source e.offset e.len ≡ ok o) × Locates z hash source os es

pub ok-pair : {A B : Type 0} (s t : A × B) → ok s ≡ ok t → (s.0 ≡ t.0) × (s.1 ≡ t.1)
ok-pair s t h = (cc, cc)

pub ok-triple : {A B C : Type 0} (s t : A × B × C) → ok s ≡ ok t → (s.0 ≡ t.0) × (s.1 ≡ t.1)
ok-triple s t h = (cc, cc)

frame_nonempty : (id : ObjectId) (content zstd : Bytes) → 1 ≤ length (frame_bytes id content zstd)
unfolding frame_bytes
frame_nonempty id content zstd = omega arith

module _ (z : Zstd) (hash : Bytes → Bytes) where
  decode_frames-end :
      (fuel : ℕ) (body : Bytes) (pos total : ℕ) (out : List (ObjectId × Bytes))
      → length body ≤ pos
      → decode_frames z hash fuel body pos total out ≡ some (ok out)
  unfolding decode_frames
  decode_frames-end zero body pos total out h = ground arith
  decode_frames-end (suc fuel) body pos total out h = ground arith

  decode_frames_round :
      (fuel : ℕ) (body : Bytes) (pos total : ℕ) (out : List (ObjectId × Bytes))
      (object : ObjectId × Bytes) (total' end : ℕ)
      → pos < length body
      → next_frame z hash body pos total ≡ ok (object, total', end)
      → decode_frames z hash (suc fuel) body pos total out
        ≡ decode_frames z hash fuel body end total' (out ++ (object ∷ []))
  unfolding decode_frames
  decode_frames_round fuel body pos total out object total' end h e = rw (inside, e) refl
    where
      inside : ltb pos (length body) ≡ true
      inside = ground arith

module _ (z : Zstd) (hash : Bytes → Bytes) (trips : RoundTrips z) (h32 : Digests32 hash) where
  -- What a round of `finish` leaves to the next ones.
  push_frames_step :
      (buf : Bytes) (es : List PackEntry) (id : ObjectId) (content zstd : Bytes)
      (objects : List (ObjectId × Bytes))
      → z.encode_all content ≡ some zstd
      → length content ≤ max_object_len
      → push_frames z hash buf es ((id, content) ∷ objects)
        ≡ push_frames z hash
            (buf ++ frame_bytes id content zstd)
            (es
              ++ (record {
                id = id;
                offset = length buf;
                len = length (frame_bytes id content zstd);
              }
                  ∷ []))
            objects
  unfolding push_frames
  push_frames_step buf es id content zstd objects e lim =
      rw (e, push_frames)
        (rw
          (push_frame-frame_bytes z hash buf id content zstd (omega arith) (trips content zstd e).0)
          (rw (width) refl))
    where
      width :
          length (buf ++ frame_bytes id content zstd) - length buf
          ≡ length (frame_bytes id content zstd)
      width = omega (arith, length-append buf (frame_bytes id content zstd))

  -- What the loop of `finish` has appended to a buffer and to the entries.
  pub record Appended (objects : List (ObjectId × Bytes)) (buf pack : Bytes)
      (es entries : List PackEntry) : Type 0 where
    pub tail : Bytes
    pub new : List PackEntry
    pub pack_is : pack ≡ buf ++ tail
    pub entries_are : entries ≡ es ++ new
    pub room : length objects ≤ length tail
    pub locates :
        (back : Bytes) → length (pack ++ back) < 2 ^ 64 → Locates z hash (pack ++ back) objects new

  pub push_frames-Appended :
      (objects : List (ObjectId × Bytes)) (buf : Bytes) (es : List PackEntry) (pack : Bytes)
      (entries : List PackEntry)
      → IsStorable hash objects
      → push_frames z hash buf es objects ≡ ok (pack, entries)
      → Appended objects buf pack es entries
  unfolding push_frames
  push_frames-Appended [] buf es pack entries st h = record {
    tail = [];
    new = [];
    pack_is = sym (nothing.0) ∙ sym (append-nil buf);
    entries_are = sym (nothing.1) ∙ sym (append-nil es);
    room = omega arith;
    locates = λ back fits. tt;
  }
    where
      nothing : (buf ≡ pack) × (es ≡ entries)
      nothing = ok-pair (buf, es) (pack, entries) (unfold push_frames in h)
  push_frames-Appended ((id, content) ∷ objects) buf es pack entries ((d, lim), st) h =
      elim (Option-cases (z.encode_all content)) [
        | inl e ↦ absurd (cc (rw (e, push_frames) at h))
        | inr (zstd, e) ↦
            let frame = frame_bytes id content zstd in
            let entry : PackEntry = record { id = id; offset = length buf; len = length frame } in
            let rest =
              push_frames-Appended objects (buf ++ frame) (es ++ (entry ∷ [])) pack entries st
                (sym (push_frames_step buf es id content zstd objects e lim) ∙ h) in
            record {
              tail = frame ++ rest.tail;
              new = entry ∷ rest.new;
              pack_is = rest.pack_is ∙ append_assoc buf frame rest.tail;
              entries_are = rest.entries_are ∙ append_assoc es (entry ∷ []) rest.new;
              room =
                  omega (
                    arith,
                    rest.room,
                    length-append frame rest.tail,
                    frame_nonempty id content zstd,
                  );
              locates = λ back fits. (
                refl,
                read_frame_at-frame_bytes z hash trips content zstd e id d h32 lim buf
                    (rest.tail ++ back) (pack ++ back) (length buf)
                    (ap (λ t. t ++ back) rest.pack_is ∙ simp append_assoc refl) refl fits,
                rest.locates back fits,
              );
            }
      ]

  -- The loop of `decode_pack` reads back what the loop of `finish` appended.
  pub decode_frames-push_frames :
      (objects : List (ObjectId × Bytes)) (buf : Bytes) (es : List PackEntry) (pack : Bytes)
      (entries : List PackEntry) (fuel total : ℕ) (out : List (ObjectId × Bytes))
      → IsStorable hash objects
      → push_frames z hash buf es objects ≡ ok (pack, entries)
      → length pack < 2 ^ 64
      → total + total_len objects ≤ max_pack_total_len
      → length objects ≤ fuel
      → decode_frames z hash fuel pack (length buf) total out ≡ some (ok (out ++ objects))
  unfolding push_frames
  decode_frames-push_frames [] buf es pack entries fuel total out st h fits budget enough =
      rw (append-nil)
        (decode_frames-end z hash fuel pack (length buf) total out (omega (arith, nothing)))
    where
      nothing : length buf ≡ length pack
      nothing = ap length (ok-pair (buf, es) (pack, entries) (unfold push_frames in h)).0
  decode_frames-push_frames (o ∷ objects) buf es pack entries zero total out st h fits budget
        enough =
      absurd (omega arith)
  decode_frames-push_frames ((id, content) ∷ objects) buf es pack entries (suc fuel) total out
        ((d, lim), st) h fits budget enough =
      elim (Option-cases (z.encode_all content)) [
        | inl e ↦ absurd (cc (rw (e, push_frames) at h))
        | inr (zstd, e) ↦
            let frame = frame_bytes id content zstd in
            let entry : PackEntry = record { id = id; offset = length buf; len = length frame } in
            let h' = sym (push_frames_step buf es id content zstd objects e lim) ∙ h in
            let rest =
              push_frames-Appended objects (buf ++ frame) (es ++ (entry ∷ [])) pack entries st h' in
            let shape : pack ≡ buf ++ (frame ++ rest.tail) =
              rest.pack_is ∙ append_assoc buf frame rest.tail in
            decode_frames_round z hash fuel pack (length buf) total out _ _ _
              (omega (
                arith,
                ap length shape,
                length-append buf (frame ++ rest.tail),
                length-append frame rest.tail,
                frame_nonempty id content zstd,
              ))
              (next_frame-frame_bytes z hash trips content zstd e id d h32 lim buf rest.tail pack
                (length buf) shape refl fits total (omega arith))
            ∙ rw (← length-append buf frame) (
                decode_frames-push_frames objects (buf ++ frame) (es ++ (entry ∷ [])) pack entries
                  fuel (total + length content) (out ++ ((id, content) ∷ [])) st h' fits
                  (omega arith) (omega arith))
            ∙ ap (λ t. some (ok t)) (append_assoc out ((id, content) ∷ []) objects)
      ]
