-- ===== src/Disk/Laws.antt =====
-- The loose objects of src/store/disk.rs: each operation as the reads see it.
use bole.Base.{
  ◌≡◌, refl, arith, false, none, some, Bytes, bytes_eq, contains, if◌then◌else◌, ok, ◌==◌,
  Option-cases, Bool-cases, sym, ◌∙◌, inl, inr, ◌∙◌,
}
use bole.Base.Maps
use bole.Base.Maps.{get-remove, get-insert, contains-keys}
use bole.Refs.{ObjectId}
use bole.Pack.{Zstd}
use bole.Pack.Frame.{RoundTrips}
use bole.Disk.{LooseFiles, exists, put, get, delete, list}

-- A deleted object is gone, and the others stay.
pub get-delete :
    (z : Zstd) (files : LooseFiles) (id j : ObjectId)
    → get z (delete files id) j ≡ (if j == id then ok none else get z files j)
unfolding get delete
get-delete z files id j = ground (arith, get-remove files id j)

-- What the store answers something for, it lists.
pub get-listed :
    (z : Zstd) (files : LooseFiles) (id : ObjectId)
    → contains (list files) id ≡ false
    → get z files id ≡ ok none
unfolding get list
get-listed z files id h = rw ((contains-keys files id).0 h, get) refl

-- A new object is read back, and the others stay as they were.
pub get-put :
    (z : Zstd) (files files' : LooseFiles) (id : ObjectId) (content : Bytes)
    → RoundTrips z
    → exists files id ≡ false
    → put z files id content ≡ ok files'
    → (j : ObjectId) → get z files' j ≡ (if j == id then ok (some content) else get z files j)
unfolding get put
get-put z files files' id content trips new h j = elim (Option-cases (z.encode_all content)) [
  | inl e ↦ absurd (cc (rw (new, e, put) at h))
  | inr (zstd, e) ↦
      ground (arith, rw (new, e, put) at h, get-insert files id zstd j, (trips content zstd e).1)
]

-- The files that are listed are those that exist.
pub list-exists_files :
    (files : LooseFiles) (id : ObjectId) → contains (list files) id ≡ exists files id
unfolding list exists
list-exists_files files id = elim (Option-cases (Maps.get files id)) [
  | inl n ↦ (contains-keys files id).1 n ∙ rw (n, exists) refl
  | inr (a, e) ↦ elim (Bool-cases (contains (Maps.keys files) id)) [
    | inl c ↦ c ∙ rw (e, exists) refl
    | inr c ↦ absurd (cc (sym e ∙ (contains-keys files id).0 c))
  ]
]
