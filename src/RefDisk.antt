-- ===== src/RefDisk.antt =====
-- src/refs/disk.rs: refs as files under refs/, and transactions through a journal. An operation is the
-- list of its calls of the file system, so that a crash is a prefix of the list. A call fails where a
-- file stands in the place of a directory, or a directory in the place of a file.
pub mod Steps
pub mod Planned
pub mod Recovery
pub mod Stuck
pub mod Reads
pub mod Tests
use bole.Base.{
  Bool, true, false, not, Option, none, some, is_some, List, [], ◌∷◌, ◌++◌, map, any, filter, Bytes,
  bytes_eq, nat_eq, ◌==◌, ◌&&◌, contains, bytes_ord, if◌then◌else◌, io, Result, ok, err,
  collect_set, starts_with,
}
use bole.Base.Maps
use bole.Base.Maps.{Map}
use bole.Refs.{RefName, Ref}
use bole.Refs.Name
use bole.Refs.Name.{slash}

abbrev pub Plan : Type 0
Plan = Map RefName (Option Ref)

-- The postcard package, on a ref and on a plan.
pub record Postcard : Type 0 where
  pub ref_bytes : Ref → Bytes
  pub read_ref : Bytes → Result Ref
  pub plan_bytes : Plan → Bytes
  pub read_plan : Bytes → Result Plan

-- The files of refs by their names, the directories above them, and the temporary files, which no
-- name denotes since its segments do not start with a dot. The same for the files of refs/.txn.
pub record DiskRefBackend : Type 0 where
  pub files : Map RefName Bytes
  pub dirs : List RefName
  pub temps : Map RefName Bytes
  pub journals : Map Bytes Bytes
  pub journal_temps : Map Bytes Bytes

-- The directories of `ref_path` below refs/.
unfoldable pub ancestors : RefName → List RefName
ancestors [] = []
ancestors (c ∷ s) =
    let longer = map (λ (p : Bytes). c ∷ p) (ancestors s) in
    if c == slash then [] ∷ longer else longer

-- A file stands in the place of one of the name's directories.
unfoldable pub blocked : DiskRefBackend → RefName → Bool
blocked d name = any (λ a. is_some (Maps.get d.files a)) (ancestors name)

pub data Call : Type 0 where
  create_dirs : RefName → Call
  write_temp : RefName → Bytes → Call
  rename_temp : RefName → Call
  remove_file : RefName → Call
  write_journal : Bytes → Bytes → Call
  rename_journal : Bytes → Call
  remove_journal : Bytes → Call

abbrev pub Outcome : Type 0
Outcome = DiskRefBackend × Result (Unit {0})

abbrev pub test_first : Bool → DiskRefBackend → DiskRefBackend → Outcome
test_first refused before after = if refused then (before, err io) else (after, ok tt)

-- `fs::rename` fails on a missing file, and onto a directory. `delete` takes a missing file for done.
unfoldable pub call : DiskRefBackend → Call → Outcome
unfolding ancestors blocked
call d (create_dirs name) =
    test_first (blocked d name) d (record d { dirs = ancestors name ++ d.dirs })
call d (write_temp name bytes) = (record d { temps = Maps.insert d.temps name bytes }, ok tt)
call d (rename_temp name) = elim (Maps.get d.temps name) [
  | none ↦ (d, err io)
  | some bytes ↦
      test_first (contains d.dirs name) d
        (record d { files = Maps.insert d.files name bytes; temps = Maps.remove d.temps name })
]
call d (remove_file name) =
    if blocked d name
    then (d, err io)
    else test_first (contains d.dirs name) d (record d { files = Maps.remove d.files name })
call d (write_journal path bytes) =
    (record d { journal_temps = Maps.insert d.journal_temps path bytes }, ok tt)
call d (rename_journal path) = elim (Maps.get d.journal_temps path) [
  | none ↦ (d, err io)
  | some bytes ↦ (
    record d {
      journals = Maps.insert d.journals path bytes;
      journal_temps = Maps.remove d.journal_temps path;
    },
    ok tt,
  )
]
call d (remove_journal path) = (record d { journals = Maps.remove d.journals path }, ok tt)

-- The calls one after another, up to the first that fails.
unfoldable pub run : DiskRefBackend → List Call → Outcome
run d [] = (d, ok tt)
run d (x ∷ xs) =
    let after = call d x in
    let rest = run after.0 xs in elim after.1 [ ok done ↦ rest | err e ↦ (after.0, err e) ]

module _ (c : Postcard) where
  unfoldable pub get : DiskRefBackend → RefName → Result (Option Ref)
  get d name =
      let found : Result (Option Ref) = elim (Maps.get d.files name) [
        | none ↦ ok none
        | some bytes ↦ elim (c.read_ref bytes) [ ok r ↦ ok (some r) | err e ↦ err e ]
      ] in
      if blocked d name then err io else if contains d.dirs name then err io else found

  unfoldable pub set_calls : RefName → Ref → List Call
  set_calls name r = create_dirs name ∷ write_temp name (c.ref_bytes r) ∷ rename_temp name ∷ []

  unfoldable pub set : DiskRefBackend → RefName → Ref → Outcome
  set d name r = run d (set_calls name r)

  unfoldable pub delete : DiskRefBackend → RefName → Outcome
  delete d name = run d (remove_file name ∷ [])

  unfoldable pub apply_plan : Plan → List Call
  unfolding set_calls
  apply_plan [] = []
  apply_plan ((name, some r) ∷ plan) = set_calls name r ++ apply_plan plan
  apply_plan ((name, none) ∷ plan) = remove_file name ∷ apply_plan plan

  -- `journal` is the path of a new file: a digest of the plan, the process and a count.
  unfoldable pub commit_calls : Bytes → Plan → List Call
  commit_calls journal [] = []
  commit_calls journal (step ∷ plan) =
      write_journal journal (c.plan_bytes (step ∷ plan))
      ∷ rename_journal journal
      ∷ (apply_plan (step ∷ plan) ++ (remove_journal journal ∷ []))

  unfoldable pub apply_atomic : DiskRefBackend → Bytes → Plan → Outcome
  apply_atomic d journal plan = run d (commit_calls journal plan)

  -- The journals that the directory listed at the start, in its order.
  unfoldable pub recover_loop : Map Bytes Bytes → DiskRefBackend → Outcome
  recover_loop [] d = (d, ok tt)
  recover_loop ((path, bytes) ∷ entries) d = elim (c.read_plan bytes) [
    | err e ↦ (d, err e)
    | ok plan ↦
        let after = run d (apply_plan plan ++ (remove_journal path ∷ [])) in
        let rest = recover_loop entries after.0 in
        elim after.1 [ ok done ↦ rest | err e ↦ (after.0, err e) ]
  ]

  unfoldable pub recover : DiskRefBackend → Outcome
  recover d = recover_loop d.journals d

-- Every file below refs/ that no dot hides; one whose path is no valid name is left out.
unfoldable pub walk_refs : DiskRefBackend → Bytes → List RefName
walk_refs d prefix =
    filter (λ n. starts_with n prefix && elim (Name.new n) [ ok name ↦ true | err e ↦ false ])
      (Maps.keys d.files)

unfoldable pub list : DiskRefBackend → Bytes → List RefName
unfolding walk_refs
list d prefix = collect_set (walk_refs d prefix)
