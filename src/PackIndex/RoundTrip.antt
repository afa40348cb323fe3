-- ===== src/PackIndex/RoundTrip.antt =====
-- PackIndex::encode and parse of src/store/pack.rs: the bytes of an index parse to it.
use bole.Base.{
  ℕ, zero, suc, ◌+◌, ◌-◌, ◌*◌, ◌^◌, ◌≤◌, ◌<◌, ◌≡◌, refl, sym, ap, arith, ◌∙◌, some, List, [], ◌∷◌,
  ◌++◌, Bytes, length, length-append, All, All-map, ok, eq_iff, nat_eq, bytes_eq, ℕ_discrete,
  bytes_discrete,
}
use bole.Base.Slices.{
  get_elem?, get_elem?-append, All-at, slice, slice-append, leb-true, take, take-append, drop,
  drop-append, to_le_bytes, from_le_bytes, length-to_le_bytes, from_le_bytes-to_le_bytes,
}
use bole.Pack.{PackEntry}
use bole.Pack.Frame.{Digests32}
use bole.PackIndex.{
  PackIndex, idx_magic, idx_version, flat_map, fanout_at, fanout_bytes, encode_head, encode,
  read_entries, need, parse,
}
use mathlib.Core.List.{append_assoc, append-nil}
use bole.PackIndex.Fields.{length-flat_map, slice-flat_map}

length-fanout_bytes : (index : PackIndex) (n b : ℕ) → length (fanout_bytes index n b) ≡ 4 * n
unfolding fanout_bytes
length-fanout_bytes index zero b = refl
length-fanout_bytes index (suc n) b = omega (
  arith,
  length-append (to_le_bytes 4 (fanout_at index b)) (fanout_bytes index n (b + 1)),
  length-to_le_bytes 4 (fanout_at index b),
  length-fanout_bytes index n (b + 1),
)

abbrev pub EntryFits : PackEntry → Type 0
EntryFits e = (length e.id ≡ 32) × (e.offset < 2 ^ 64) × (e.len < 2 ^ 64)

-- An index whose numbers fit their fields.
abbrev pub Fits : PackIndex → Type 0
Fits index =
    (length index.entries < 2 ^ 32) × All EntryFits index.entries × (length index.pack_digest ≡ 32)

module _ (hash : Bytes → Bytes) (h32 : Digests32 hash) (index : PackIndex) (fits : Fits index) where
  abbrev entries : List PackEntry
  entries = index.entries

  abbrev n : ℕ
  n = length entries

  abbrev offset_bytes : PackEntry → Bytes
  offset_bytes e = to_le_bytes 8 e.offset

  abbrev len_bytes : PackEntry → Bytes
  len_bytes e = to_le_bytes 8 e.len

  abbrev head : Bytes
  head = encode_head hash index

  ids_32 : All (λ (e : PackEntry). length e.id ≡ 32) entries
  ids_32 = All-map entries (λ e h. h.0) fits.1

  offsets_8 : All (λ (e : PackEntry). length (offset_bytes e) ≡ 8) entries
  offsets_8 = All-map entries (λ e h. length-to_le_bytes 8 e.offset) fits.1

  lens_8 : All (λ (e : PackEntry). length (len_bytes e) ≡ 8) entries
  lens_8 = All-map entries (λ e h. length-to_le_bytes 8 e.len) fits.1

  -- The parts of the head, one behind the other.
  abbrev fixed : Bytes
  fixed = idx_magic ++ (to_le_bytes 4 idx_version ++ (to_le_bytes 4 n ++ fanout_bytes index 256 0))

  abbrev ids : Bytes
  ids = flat_map PackEntry.id entries

  abbrev offsets : Bytes
  offsets = flat_map offset_bytes entries

  abbrev lens : Bytes
  lens = flat_map len_bytes entries

  head_parts : head ≡ fixed ++ (ids ++ (offsets ++ (lens ++ index.pack_digest)))
  unfolding encode_head
  head_parts = simp append_assoc refl

  length-fixed : length fixed ≡ 1040
  length-fixed = omega (
    arith,
    length-fanout_bytes index 256 0,
    length-append (to_le_bytes 4 n) (fanout_bytes index 256 0),
  )

  length-ids : length ids ≡ n * 32
  length-ids = length-flat_map PackEntry.id 32 entries ids_32

  length-offsets : length offsets ≡ n * 8
  length-offsets = length-flat_map offset_bytes 8 entries offsets_8

  length-lens : length lens ≡ n * 8
  length-lens = length-flat_map len_bytes 8 entries lens_8

  length_head : length head ≡ 1040 + n * 32 + n * 8 + n * 8 + 32
  length_head =
      ap length head_parts
      ∙ omega (
        arith,
        length-append fixed (ids ++ (offsets ++ (lens ++ index.pack_digest))),
        length-append ids (offsets ++ (lens ++ index.pack_digest)),
        length-append offsets (lens ++ index.pack_digest),
        length-append lens index.pack_digest,
        length-fixed,
        length-ids,
        length-offsets,
        length-lens,
        fits.2,
      )

  read_entries-entry :
      (i : ℕ) (e : PackEntry)
      → get_elem? entries i ≡ some e
      → (slice head (1040 + i * 32) (1040 + i * 32 + 32) ≡ e.id)
        × (from_le_bytes (slice head (1040 + n * 32 + i * 8) (1040 + n * 32 + i * 8 + 8))
            ≡ e.offset)
        × (from_le_bytes
              (slice head (1040 + n * 32 + n * 8 + i * 8) (1040 + n * 32 + n * 8 + i * 8 + 8))
            ≡ e.len)
  read_entries-entry i e p =
      let (_, off_64, len_64) = All-at EntryFits entries i e fits.1 p in
      (
        slice-flat_map PackEntry.id 32 entries i e fixed (offsets ++ (lens ++ index.pack_digest))
            head 1040 ids_32 p head_parts (sym length-fixed),
        ap from_le_bytes (
              slice-flat_map offset_bytes 8 entries i e (fixed ++ ids) (lens ++ index.pack_digest)
                head (1040 + n * 32) offsets_8 p (head_parts ∙ simp append_assoc refl)
                (omega (arith, length-append fixed ids, length-fixed, length-ids)))
            ∙ from_le_bytes-to_le_bytes 8 e.offset (omega (arith, off_64)),
        ap from_le_bytes (
              slice-flat_map len_bytes 8 entries i e ((fixed ++ ids) ++ offsets) index.pack_digest
                head (1040 + n * 32 + n * 8) lens_8 p (head_parts ∙ simp append_assoc refl)
                (omega (
                  arith,
                  length-append (fixed ++ ids) offsets,
                  length-append fixed ids,
                  length-fixed,
                  length-ids,
                  length-offsets,
                )))
            ∙ from_le_bytes-to_le_bytes 8 e.len (omega (arith, len_64)),
      )

  read_entries-back :
      (front back : List PackEntry) (i : ℕ)
      → entries ≡ front ++ back
      → i ≡ length front
      → read_entries head 1040 (1040 + n * 32) (1040 + n * 32 + n * 8) (length back) i ≡ back
  unfolding read_entries
  read_entries-back front [] i s q = refl
  read_entries-back front (e ∷ back) i s q =
      let (id, offset, len) = read_entries-entry i e (rw (s, q) (get_elem?-append front e back)) in
      rw (id, offset, len)
        (ap (◌∷◌ e) (
          read_entries-back (front ++ (e ∷ [])) back (i + 1)
            (s ∙ sym (append_assoc front (e ∷ []) back))
            (omega (arith, q, length-append front (e ∷ [])))))

  digest_at :
      slice head (1040 + n * 32 + n * 8 + n * 8) (1040 + n * 32 + n * 8 + n * 8 + 32)
      ≡ index.pack_digest
  digest_at =
      slice-append (((fixed ++ ids) ++ offsets) ++ lens) index.pack_digest []
        (head_parts ∙ simp (append_assoc, append-nil) refl)
        (omega (
          arith,
          length-append ((fixed ++ ids) ++ offsets) lens,
          length-append (fixed ++ ids) offsets,
          length-append fixed ids,
          length-fixed,
          length-ids,
          length-offsets,
          length-lens,
        ))
        (omega (
          arith,
          length-append ((fixed ++ ids) ++ offsets) lens,
          length-append (fixed ++ ids) offsets,
          length-append fixed ids,
          length-fixed,
          length-ids,
          length-offsets,
          length-lens,
          fits.2,
        ))

  abbrev source : Bytes
  source = head ++ hash head

  length-source : length source ≡ length head + 32
  length-source = omega (arith, length-append head (hash head), h32 head)

  magic_at : slice source 0 8 ≡ idx_magic
  unfolding slice encode_head
  magic_at = refl

  version_at : from_le_bytes (slice source 8 12) ≡ idx_version
  unfolding slice encode_head
  version_at = refl

  count_at : from_le_bytes (slice source 12 16) ≡ n
  unfolding slice encode_head
  count_at = from_le_bytes-to_le_bytes 4 n (omega (arith, fits.0))

  head_at : take (length source - 32) source ≡ head
  head_at =
      ap (λ (k : ℕ). take k source) {x = length source - 32} (omega (arith, length-source))
      ∙ take-append head (hash head)

  trailer_at : drop (length source - 32) source ≡ hash head
  trailer_at =
      ap (λ (k : ℕ). drop k source) {x = length source - 32} (omega (arith, length-source))
      ∙ drop-append head (hash head)

  enough : (pos k : ℕ) (b : Bytes) → pos + k ≤ length b → need pos k b ≡ ok tt
  unfolding need
  enough pos k b h = rw (leb-true (pos + k) (length b) h) refl

  -- `parse` gives back the index that `encode` wrote, where every number fits its field.
  pub parse-encode : parse hash (encode hash index) ≡ ok index
  unfolding parse encode bytes_discrete ℕ_discrete
  parse-encode =
      rw
        (
          enough 0 16 source (omega (arith, length-source, length_head)),
          magic_at,
          version_at,
          count_at,
          enough 0 32 source (omega (arith, length-source)),
          head_at,
          trailer_at,
          (eq_iff (hash head) (hash head)).1 refl,
          enough 1040 (n * 32 + n * 8 + n * 8 + 32) head (omega (arith, length_head)),
          digest_at,
          read_entries-back [] entries 0 refl refl,
        )
        refl
