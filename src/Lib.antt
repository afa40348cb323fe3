-- ===== src/Lib.antt =====
-- bole: a version-controlled object store with labels on what it stores.
--
-- A repository is a store of content-addressed objects (snapshots, trees, blobs, overlays, policy
-- objects), a store of named refs (tags and timelines) that point to objects, and an access policy.
-- The policy is a lattice of labels, rules that give labels to paths, timelines and secrets by glob,
-- and accessors, whose clearances decide what they read and write. Peers negotiate which objects one
-- owes the other, garbage collection removes what no ref reaches, and a merge combines two snapshots
-- with an ancestor of both.
--
-- Which file models what; a file's children hold proofs unless said otherwise:
--   Base      the error type of src/error.rs; equality, lists, ordered sets and maps of the language
--   Lattice   LabelLattice of src/acl/lattice.rs: dominates, join, meet, bottom, top, validate
--   Glob      glob_matches of src/acl/glob.rs, its loops and its memo
--   Rules     LabelRule and LabelRuleSet of src/acl/rules.rs
--   Access    Clearance of src/acl/clearance.rs and Accessor of src/acl/mod.rs
--   Refs      src/refs/{tag,timeline,ref_type,backend,memory,mod,transaction}.rs: the methods of
--             RefStore over MemoryRefBackend, resolve and commit_transaction. Refs/Name models
--             RefName::new and prefix; Refs/Sequential is the specification of a transaction
--   Object    src/object/*.rs and src/acl/policy_object.rs: the kinds of objects
--   Search    the loop that missing_closure and mark_reachable share
--   Negotiate child_edges and missing_closure of src/sync/negotiate.rs
--   Gc        gc, mark_reachable and unreachable_object_count of src/repo/mod.rs, and the default
--             sweep of src/store/backend.rs
--   Merge     three_way_diff and find_common_ancestor of src/repo/merge.rs
--   Hook      the decisions, the registry and the timeline hook of src/acl/hook.rs
--   Approval  the signed approvals of src/acl/attestation.rs and their hook, and resolve_hook of
--             src/acl/hook.rs, over a parameter for the Ed25519 package
--   Authority chain_of and verify_chain of src/acl/authority.rs, over the same parameter
--   Pack      src/store/pack.rs: varints, frames, PackBuilder and the decoders, over parameters for
--             zstd and BLAKE3; Pack/Frame names what is asked of them
--   PackIndex PackIndex of src/store/pack.rs: build, lookup, encode and parse, with the binary search
--             of the standard library
--   Disk      DiskBackend of src/store/disk.rs
--   Packed    PackedDiskBackend of src/store/packed.rs, over Disk, Pack and PackIndex
--   RefDisk   DiskRefBackend of src/refs/disk.rs: get, set, delete, list, apply_atomic with its journal
--             and recover, over a parameter for postcard; an operation is the list of its calls of
--             the file system, and a crash is a prefix of the list
--   Repo      of src/repo/mod.rs: walk_tree_filtered, get_snapshot_filtered, the refs that are served,
--             policy_root, policy_registry and prune_timeline, with the events of src/audit.rs
--   Advance   advance_timeline_expecting, advance_timeline, audit_advance, tree_as_map and
--             merge_timelines of src/repo/mod.rs, over Repo, Hook, Refs and Merge
--
-- How the code is read. A string is the list of its bytes, an object id the bytes of its digest, a
-- BTreeSet an ascending list, a HashMap or a BTreeMap an association list that the proofs know by
-- the laws of its lookup. A method that changes state returns the state after it beside its
-- result. A lock around a method makes it one step, so a commit, which holds the commit lock from
-- resolution to the last write, is one function. The in-memory backends are modelled, whose calls
-- cannot fail. An advance reads the timeline twice and commits by compare-and-swap; nothing moves
-- it in between in the model. The store holds decoded objects, so an object that does not decode
-- is not in it.
--
-- Fuel. Loops over a work list recurse on fuel and give none at its end. dominates gets one unit
-- more than there are covering edges, since a label is expanded once. The glob matcher recurses on
-- the lengths of pattern and path, which every call shortens. A search over objects gets the
-- number of its first ids and of all edges in the store, since an object is expanded once. The
-- search for a common ancestor gets one unit more than twice the number of parent edges, since
-- every round but the last visits a new id on one side. is_ancestor gets one unit more than there
-- are parent edges, since it pushes an id once, and chain_of one unit more than there are objects
-- in the store, since every round but the last sees a new one. decode_pack gets as many rounds as
-- there are bytes, since a frame takes a byte, and read_varint one round more than there are
-- bytes. A binary search gets the length of its list. The walk of a tree gets one unit for each
-- tree that it comes to down to the depth that is refused. A chain of checks ends in stalled where
-- a search in it has no fuel left.
--
-- Not modelled: serialisation, hashing, compression and encryption, which other packages do;
-- failing input and output, crashes between two writes of the object store, sockets, HTTP and the
-- git program; the command line and the HTTP service, which call the library; the reconciliation
-- of two policies, the adoption of a policy root, check_merge and explain_path of the repository,
-- collaboration records and the sync session.
pub mod Base
pub mod Lattice
pub mod Glob
pub mod Rules
pub mod Access
pub mod Refs
pub mod Object
pub mod Search
pub mod Negotiate
pub mod Gc
pub mod Merge
pub mod Hook
pub mod Approval
pub mod Authority
pub mod Pack
pub mod PackIndex
pub mod Disk
pub mod Packed
pub mod RefDisk
pub mod Repo
pub mod Advance
