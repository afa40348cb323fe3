-- ===== src/Gc/Tests.antt =====
-- Runs of `gc` of src/repo/mod.rs.
use bole.Base.{
  ℕ, none, some, [], ◌∷◌, ◌≡◌, true, false, refl, inl, bytes, bytes_eq, bytes_discrete, contains,
  ℕ_discrete, collect_set, bytes_cmp, set_insert, starts_with,
}
use bole.Base.Maps
use bole.Object.{snapshot, tree, blob, policy, root, lattice, PolicyRoot}
use bole.Lattice
use bole.Refs.{Refs, tag, timeline, append, list}
use bole.Search.{Objects, search_loop, round, edge_count, extend}
use bole.Negotiate.Closure.{Reachable}
use bole.Gc.{
  marks, mark_reachable, push_targets, gc_roots, sweep_loop, gc, unreachable_object_count,
}
use bole.Gc.Reached.{KeepsLive, gc-KeepsLive}
use bole.Gc.Policy.{Uncomposed, Uncomposed-intro, gc-policy_root}
use bole.Gc.Again.{gc-gc}

abbrev pinned_root : PolicyRoot
pinned_root = record { lattice = bytes "l"; rules = bytes "r"; parent = none; hooks = [] }

-- A snapshot with its tree, a policy root with its lattice, and a blob that nothing names.
abbrev store : Objects
store =
    (
      bytes "s",
      snapshot
          (record { root = bytes "t"; parents = []; author = []; created_at = 1; message = [] }),
    )
    ∷ (bytes "t", tree (record { entries = [] }))
    ∷ (bytes "p", policy (root pinned_root))
    ∷ (bytes "l", policy (lattice (Lattice.new (bytes "public" ∷ []) [])))
    ∷ (bytes "b", blob (record { bytes = bytes "text" }))
    ∷ []

abbrev refs : Refs
refs =
    (
      bytes "main",
      timeline (record {
        head = bytes "s";
        policy = append;
        created_at = 1;
        kind = bytes "persistent";
        expires_at = none;
      }),
    )
    ∷ (
      bytes "refs/policy/root",
      tag (record { target = bytes "p"; created_at = 0; message = none }),
    )
    ∷ []

abbrev left : Objects
left =
    (
      bytes "s",
      snapshot
          (record { root = bytes "t"; parents = []; author = []; created_at = 1; message = [] }),
    )
    ∷ (bytes "t", tree (record { entries = [] }))
    ∷ (bytes "p", policy (root pinned_root))
    ∷ []

collected : gc refs store [] ≡ some (left, 2)
unfolding set_insert gc mark_reachable marks push_targets sweep_loop search_loop round edge_count
    extend Maps.get Maps.keys Maps.remove Maps.values collect_set bytes_cmp starts_with list
    bytes_discrete ℕ_discrete
collected = refl

gc-KeepsLive_example :
    (store' : Objects) × (n : ℕ) × (gc refs store [] ≡ some (store', n))
    × (unreachable_object_count refs store [] ≡ some n)
    × KeepsLive store (gc_roots refs []) store'
gc-KeepsLive_example = gc-KeepsLive refs store []

gc-gc_example : gc refs left [] ≡ some (left, 0)
gc-gc_example = gc-gc refs store left [] 2 collected

lattice-Uncomposed : Uncomposed store (bytes "l")
unfolding Maps.values bytes_discrete ℕ_discrete
lattice-Uncomposed = Uncomposed-intro store (bytes "l") refl

root-pinned :
    (contains (gc_roots refs []) (bytes "p") ≡ true)
    × (Maps.get store (bytes "p") ≡ some (policy (root pinned_root)))
    × (contains (gc_roots refs []) pinned_root.lattice ≡ false)
unfolding push_targets Maps.get Maps.keys collect_set set_insert bytes_cmp list starts_with
    bytes_discrete ℕ_discrete
root-pinned = (refl, refl, refl)

gc-policy_root_example :
    (store' : Objects) × (n : ℕ) × (gc refs store [] ≡ some (store', n))
    × (Maps.get store' (bytes "p") ≡ some (policy (root pinned_root)))
    × Reachable store' (gc_roots refs []) pinned_root.lattice
    × (Maps.get store' pinned_root.lattice ≡ none)
gc-policy_root_example =
    gc-policy_root refs store [] (bytes "p") pinned_root (bytes "l") root-pinned.0 root-pinned.1
      (inl refl) root-pinned.2 lattice-Uncomposed
