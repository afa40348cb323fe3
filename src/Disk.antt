-- ===== src/Disk.antt =====
-- src/store/disk.rs: the loose objects, one compressed file for each id. Reads and writes of files
-- succeed here; the file of an id is named by the id's hexadecimal digits.
pub mod Laws
use bole.Base.{
  Option, none, some, List, Bytes, bytes_eq, is_some, Result, ok, err, storage, if◌then◌else◌, Bool,
}
use bole.Base.Maps
use bole.Base.Maps.{Map}
use bole.Refs.{ObjectId}
use bole.Pack.{Zstd}

abbrev pub LooseFiles : Type 0
LooseFiles = Map ObjectId Bytes

unfoldable pub exists : LooseFiles → ObjectId → Bool
exists files id = is_some (Maps.get files id)

-- A file that is there is kept.
unfoldable pub put : Zstd → LooseFiles → ObjectId → Bytes → Result LooseFiles
put z files id content =
    let written : Result LooseFiles = elim (z.encode_all content) [
      | none ↦ err (storage "")
      | some compressed ↦ ok (Maps.insert files id compressed)
    ] in
    if exists files id then ok files else written

unfoldable pub get : Zstd → LooseFiles → ObjectId → Result (Option Bytes)
get z files id = elim (Maps.get files id) [
  | none ↦ ok none
  | some compressed ↦ elim (z.decode_all compressed) [
    | none ↦ err (storage "")
    | some content ↦ ok (some content)
  ]
]

unfoldable pub delete : LooseFiles → ObjectId → LooseFiles
delete files id = Maps.remove files id

unfoldable pub list : LooseFiles → List ObjectId
list files = Maps.keys files
