-- ===== src/PackIndex.antt =====
-- PackIndex of src/store/pack.rs: the sorted table of a pack's entries, its lookup and its bytes.
pub mod Bisect
pub mod Fanout
pub mod Lookup
pub mod Sort
pub mod Objects
pub mod Fields
pub mod RoundTrip
pub mod Tests
use bole.Base.{
  ℕ, zero, suc, ◌+◌, ◌-◌, ◌*◌, ◌/◌, ◌%◌, ◌^◌, ◌<◌, ◌≤◌, Bool, true, false, Option, none, some, List,
  [], ◌∷◌, ◌++◌, Bytes, bytes, bytes_eq, nat_eq, ◌==◌, bytes_cmp, length, ltb, leb, if◌then◌else◌,
  Result, ok, err, storage, require, ◌>>=◌, ◌>>◌,
}
use bole.Base.Slices.{get_elem?, take, drop, slice, to_le_bytes, from_le_bytes}
use bole.Refs.{ObjectId}
use bole.Pack.{PackEntry}
use Prim.Native.Nat.{Ordering}

abbrev pub idx_magic : Bytes
idx_magic = bytes "BOLEIDX" ++ (0 ∷ [])

abbrev pub idx_version : ℕ
idx_version = 1

pub record PackIndex : Type 0 where
  pub entries : List PackEntry
  pub pack_digest : Bytes

-- `Result<usize, usize>` of a binary search.
pub data Search : Type 0 where
  found missing : ℕ → Search

-- `unwrap_or_else(|i| i)`
abbrev pub position_of : Search → ℕ
position_of (found i) = i
position_of (missing i) = i

-- The loop of `slice::binary_search_by`: `size` halves, rounded up, until it is 1.
unfoldable pub bisect_loop : ℕ → (ℕ → Ordering) → ℕ → ℕ → ℕ
bisect_loop zero probe base size = base
bisect_loop (suc fuel) probe base size =
    let mid = base + size / 2 in
    let base' : ℕ = elim (probe mid) [ Ordering.gt ↦ base | _ ↦ mid ] in
    let rest = bisect_loop fuel probe base' (size - size / 2) in if ltb 1 size then rest else base

module _ {ℓ} {A : Type ℓ} where
  unfoldable pub probe_of : (A → Ordering) → List A → ℕ → Ordering
  probe_of f xs i = elim (get_elem? xs i) [ none ↦ Ordering.gt | some x ↦ f x ]

  unfoldable pub binary_search_by : (A → Ordering) → List A → Search
  binary_search_by f xs =
      let base = bisect_loop (length xs) (probe_of f xs) 0 (length xs) in
      if length xs == 0 then missing 0 else elim (probe_of f xs base) [
        | Ordering.lt ↦ missing (base + 1)
        | Ordering.eq ↦ found base
        | Ordering.gt ↦ missing base
      ]

  unfoldable pub partition_point : (A → Bool) → List A → ℕ
  partition_point p xs =
      position_of (binary_search_by (λ x. if p x then Ordering.lt else Ordering.gt) xs)

  -- One step of `sort_by`, which keeps the order of equal elements.
  unfoldable pub insert_by : (A → A → Ordering) → A → List A → List A
  insert_by cmp x [] = x ∷ []
  insert_by cmp x (y ∷ ys) =
      let rest = insert_by cmp x ys in elim (cmp x y) [ Ordering.gt ↦ y ∷ rest | _ ↦ x ∷ y ∷ ys ]

  unfoldable pub sort_by : (A → A → Ordering) → List A → List A
  sort_by cmp [] = []
  sort_by cmp (x ∷ xs) = insert_by cmp x (sort_by cmp xs)

unfoldable pub build : List PackEntry → Bytes → PackIndex
build entries pack_digest = record {
  entries = sort_by (λ (a : PackEntry) (b : PackEntry). bytes_cmp a.id b.id) entries;
  pack_digest = pack_digest;
}

-- `id[0]`; an id has 32 bytes.
abbrev pub id_byte : ObjectId → ℕ
id_byte [] = 0
id_byte (b ∷ bs) = b

module _ (index : PackIndex) where
  unfoldable pub count : ℕ
  count = length index.entries

  -- The number of entries whose first byte is at most `byte`.
  unfoldable pub fanout_at : ℕ → ℕ
  fanout_at byte = partition_point (λ (e : PackEntry). leb (id_byte e.id) byte) index.entries

  unfoldable pub lookup : ObjectId → Option (ℕ × ℕ)
  lookup id =
      let lo = if id_byte id == 0 then 0 else fanout_at (id_byte id - 1) in
      let part = slice index.entries lo (fanout_at (id_byte id)) in
      elim (binary_search_by (λ (e : PackEntry). bytes_cmp e.id id) part) [
        | missing i ↦ none
        | found i ↦ elim (get_elem? part i) [ none ↦ none | some e ↦ some (e.offset, e.len) ]
      ]

unfoldable pub flat_map {ℓ} : {A : Type ℓ} → (A → Bytes) → List A → Bytes
flat_map f [] = []
flat_map f (x ∷ xs) = f x ++ flat_map f xs

-- `(0u16..256)`, of which the loop runs through the last `n`.
unfoldable pub fanout_bytes : PackIndex → ℕ → ℕ → Bytes
fanout_bytes index zero b = []
fanout_bytes index (suc n) b = to_le_bytes 4 (fanout_at index b) ++ fanout_bytes index n (b + 1)

-- The rounds of `parse` that are left, from entry `i` on.
unfoldable pub read_entries : Bytes → ℕ → ℕ → ℕ → ℕ → ℕ → List PackEntry
read_entries head ids_start offsets_start lens_start zero i = []
read_entries head ids_start offsets_start lens_start (suc left) i =
    record {
      id = slice head (ids_start + i * 32) (ids_start + i * 32 + 32);
      offset = from_le_bytes (slice head (offsets_start + i * 8) (offsets_start + i * 8 + 8));
      len = from_le_bytes (slice head (lens_start + i * 8) (lens_start + i * 8 + 8));
    }
    ∷ read_entries head ids_start offsets_start lens_start left (i + 1)

unfoldable pub need : ℕ → ℕ → Bytes → Result (Unit {0})
need pos n source = require (leb (pos + n) (length source)) (storage "idx: truncated")

module _ (hash : Bytes → Bytes) where
  -- All that the trailing digest covers.
  unfoldable pub encode_head : PackIndex → Bytes
  encode_head index =
      idx_magic
      ++ (to_le_bytes 4 idx_version
          ++ (to_le_bytes 4 (length index.entries)
              ++ (fanout_bytes index 256 0
                  ++ (flat_map PackEntry.id index.entries
                      ++ (flat_map (λ (e : PackEntry). to_le_bytes 8 e.offset) index.entries
                          ++ (flat_map (λ (e : PackEntry). to_le_bytes 8 e.len) index.entries
                              ++ index.pack_digest))))))

  unfoldable pub encode : PackIndex → Bytes
  encode index = encode_head index ++ hash (encode_head index)

  unfoldable pub parse : Bytes → Result PackIndex
  parse source = do
    need 0 16 source
    require (slice source 0 8 == idx_magic) (storage "idx: bad magic")
    require (from_le_bytes (slice source 8 12) == idx_version) (storage "idx: unsupported version ")
    n ← ok (from_le_bytes (slice source 12 16))
    need 0 32 source
    head ← ok (take (length source - 32) source)
    require (hash head == drop (length source - 32) source) (storage "idx: digest mismatch")
    need 1040 (n * 32 + n * 8 + n * 8 + 32) head
    offsets_start ← ok (1040 + n * 32)
    lens_start ← ok (offsets_start + n * 8)
    digest_start ← ok (lens_start + n * 8)
    ok (record {
      entries = read_entries head 1040 offsets_start lens_start n 0;
      pack_digest = slice head digest_start (digest_start + 32);
    })
