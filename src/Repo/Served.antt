-- ===== src/Repo/Served.antt =====
-- The reads of src/repo/mod.rs: which refs an accessor is served, and what it sees of a snapshot.
use bole.Base.{
  true, ◌&&◌, not, Option, some, is_some, [], ◌∷◌, Bytes, bytes_eq, nat_eq, bytes_ord, contains,
  contains-filter, contains-collect_set, filter, starts_with, Result, ok, ◌≡◌, refl, subst, ◌∙◌,
  arith,
}
use bole.Base.Maps
use bole.Base.Maps.{contains-keys_some}
use bole.Refs.{ObjectId, RefName, Refs, list}
use bole.Object.{snapshot, Snapshot}
use bole.Access.{Accessor}
use bole.Merge.{Files}
use bole.Repo.{
  Repository, visible, walk_tree, FilteredSnapshot, project, get_snapshot_filtered,
  timeline_readable_with, list_refs_filtered, collab_scoped_prefix, list_refs_served, ref_served,
}
use bole.Repo.Walk.{Restricts, Alike, Alike-ok, walk_tree-Alike}

starts_with_nil : (s : Bytes) → starts_with s [] ≡ true
unfolding starts_with
starts_with_nil [] = refl
starts_with_nil (c ∷ s) = refl

pub contains-list :
    (refs : Refs) (n : RefName) → contains (list refs []) n ≡ is_some (Maps.get refs n)
unfolding list
contains-list refs n =
    contains-collect_set (filter (λ m. starts_with m []) (Maps.keys refs)) n
    ∙ contains-filter (λ m. starts_with m []) (Maps.keys refs) n
    ∙ rw (starts_with_nil n) (contains-keys_some refs n)

-- The point lookup answers what the listing would: a name is served exactly if the listing of all
-- served refs has it.
pub list_refs_served-ref_served :
    (r : Repository) (accessor : Accessor) (name : RefName)
    → contains (list_refs_served r [] accessor) name ≡ ref_served r name accessor
unfolding list_refs_served ref_served list_refs_filtered
list_refs_served-ref_served r accessor name =
    contains-filter (λ n. not (starts_with n collab_scoped_prefix))
      (list_refs_filtered r [] accessor) name
    ∙ rw (listed, contains-list r.refs name) (ground arith)
  where
    listed :
        contains (list_refs_filtered r [] accessor) name
        ≡ (timeline_readable_with r.lattice r.rules name accessor && contains (list r.refs []) name)
    listed =
        contains-filter (λ n. timeline_readable_with r.lattice r.rules n accessor) (list r.refs [])
          name

-- An accessor's view of a snapshot whose tree is not too deep holds, of the files in the tree,
-- exactly those that it may read.
pub get_snapshot_filtered-Restricts :
    (r : Repository) (id : ObjectId) (snap : Snapshot) (whole : Files) (accessor : Accessor)
    → Maps.get r.objects id ≡ some (snapshot snap)
    → walk_tree (λ p. true) r.objects snap.root [] ≡ some (ok whole)
    → (view : FilteredSnapshot) × (get_snapshot_filtered r id accessor ≡ some (ok (some view)))
      × (view.parents ≡ snap.parents)
      × Restricts (visible r.lattice r.rules accessor) whole view.visible_paths
unfolding get_snapshot_filtered
get_snapshot_filtered-Restricts r id snap whole accessor e h =
    let (out, walked, restricts) =
      Alike-ok (visible r.lattice r.rules accessor) whole
        (walk_tree (visible r.lattice r.rules accessor) r.objects snap.root [])
        (subst
          (λ (o : Option (Result Files)).
            Alike (visible r.lattice r.rules accessor) o
              (walk_tree (visible r.lattice r.rules accessor) r.objects snap.root []))
          h (walk_tree-Alike r.objects (visible r.lattice r.rules accessor) snap.root [])) in
    (project id snap out, rw (e, get_snapshot_filtered, walked) refl, refl, restricts)
