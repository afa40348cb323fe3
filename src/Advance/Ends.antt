-- ===== src/Advance/Ends.antt =====
-- The searches in advance_timeline_expecting and merge_timelines of src/repo/mod.rs end.
use bole.Base.{Error, ◌≢◌, ◌≡◌, Result, Option, none, some, [], bytes_eq, refl}
use bole.Base.Checks.{of_result, Ends, >>=-Ends, demand-Ends, of_result-Ends, of_search-Ends}
use bole.Base.Maps
use bole.Access.{Accessor, privileged}
use bole.Refs.{ObjectId, RefName, Timeline}
use bole.Object.{Object, snapshot, Snapshot}
use bole.Merge.Ancestor.{find_common_ancestor-Answers}
use bole.Hook.{PolicyDecision, allow, deny, requires_approval}
use bole.Approval.{Ed25519}
use bole.Repo.{allowed, Repository, visible}
use bole.Repo.Walk.{walk_tree-Ends}
use bole.Advance.{
  Refusal, unaudited, snapshot_of, found_timeline, walk_all, files_of, verdict, check_advance,
  ancestor_files, merge_timelines,
}

-- A refusal that records no allowed advance.
abbrev pub Unallowed : Refusal → Type 0
Unallowed (none, e) = Unit
Unallowed (some (old, decision), e) = decision ≢ allowed

-- A refusal that records nothing.
abbrev pub Unrecorded : Refusal → Type 0
Unrecorded refusal = refusal.0 ≡ none

-- What refuses with no entry in the trail.
module _ (P : Refusal → Type 0) (quiet : (e : Error) → P (unaudited e)) where
  snapshot_of-Ends : (o : Option Object) → Ends P (snapshot_of o)
  unfolding snapshot_of
  snapshot_of-Ends (some (snapshot s)) = record { ended = tt }
  snapshot_of-Ends _ = record { ended = quiet _ }

  found_timeline-Ends : (o : Option Timeline) → Ends P (found_timeline o)
  unfolding found_timeline
  found_timeline-Ends none = record { ended = quiet _ }
  found_timeline-Ends (some tl) = record { ended = tt }

  result-Ends : {T : Type 0} (m : Result T) → Ends P (of_result unaudited m)
  result-Ends m = of_result-Ends P unaudited m quiet

  module _ (r : Repository) where
    walk_all-Ends : (id : ObjectId) → Ends P (walk_all r id)
    unfolding walk_all
    walk_all-Ends id =
        let (w, e) = walk_tree-Ends r.objects (visible r.lattice r.rules privileged) id [] in
        >>=-Ends P _ _ (of_search-Ends P _ e) (λ walked. result-Ends walked)

    files_of-Ends : (o : Option Object) → Ends P (files_of r o)
    unfolding files_of
    files_of-Ends (some (snapshot s)) = walk_all-Ends s.root
    files_of-Ends _ = record { ended = tt }

    ancestor_files-Ends : (o : Option ObjectId) → Ends P (ancestor_files r o)
    unfolding ancestor_files
    ancestor_files-Ends none = record { ended = tt }
    ancestor_files-Ends (some id) = files_of-Ends (Maps.get r.objects id)

module _ (r : Repository) where
  verdict-Ends : (old : ObjectId) (d : PolicyDecision) → Ends Unallowed (verdict r old d)
  unfolding verdict
  verdict-Ends old allow = record { ended = tt }
  verdict-Ends old (deny reason) = record { ended = λ e. cc }
  verdict-Ends old (requires_approval reason needed) = record { ended = λ e. cc }

  -- The checks of an advance end, in a refusal only if it records no allowed advance.
  pub check_advance-Ends :
      (ed : Ed25519) (name : RefName) (snapshot_id : ObjectId) (accessor : Accessor)
      (expected : Option ObjectId)
      → Ends Unallowed (check_advance r ed name snapshot_id accessor expected)
  unfolding check_advance
  check_advance-Ends ed name snapshot_id accessor expected =
      let P = Unallowed in
      let quiet : (e : Error) → Unallowed (unaudited e) = λ e. tt in
      >>=-Ends P _ _ (result-Ends P quiet _) (λ before.
        >>=-Ends P _ _ (demand-Ends P _ _ (λ e. cc)) (λ u2.
          >>=-Ends P _ _ (snapshot_of-Ends P quiet _) (λ (snap : Snapshot).
            >>=-Ends P _ _ (walk_all-Ends P quiet r snap.root) (λ paths.
              >>=-Ends P _ _ (demand-Ends P _ _ (λ e. cc)) (λ u5.
                >>=-Ends P _ _ (result-Ends P quiet _) (λ cur.
                  >>=-Ends P _ _ (found_timeline-Ends P quiet cur) (λ (tl : Timeline).
                    >>=-Ends P _ _ (demand-Ends P _ _ tt) (λ u8.
                      >>=-Ends P _ _ (files_of-Ends P quiet r _) (λ old.
                        >>=-Ends P _ _ (demand-Ends P _ _ (λ e. cc)) (λ u10.
                          >>=-Ends P _ _ (result-Ends P quiet _) (λ reg.
                            >>=-Ends P _ _ (verdict-Ends tl.head _)
                              (λ u12. record { ended = tt }))))))))))))

  -- A merge of two timelines ends, in files and conflicts or in a refusal without an entry in the
  -- trail.
  pub merge_timelines-Ends :
      (source target : RefName) (accessor : Accessor)
      → Ends Unrecorded (merge_timelines r source target accessor)
  unfolding merge_timelines
  merge_timelines-Ends source target accessor =
      let P = Unrecorded in
      let quiet : (e : Error) → Unrecorded (unaudited e) = λ e. refl in
      >>=-Ends P _ _ (demand-Ends P _ _ refl) (λ u. >>=-Ends P _ _ (result-Ends P quiet _) (λ s.
        >>=-Ends P _ _ (found_timeline-Ends P quiet s) (λ (source_tl : Timeline).
          >>=-Ends P _ _ (result-Ends P quiet _) (λ t.
            >>=-Ends P _ _ (found_timeline-Ends P quiet t) (λ (target_tl : Timeline).
              >>=-Ends P _ _
                (of_search-Ends P _
                  (find_common_ancestor-Answers r.objects source_tl.head target_tl.head).1)
                (λ ancestor. >>=-Ends P _ _ (snapshot_of-Ends P quiet _) (λ (ss : Snapshot).
                  >>=-Ends P _ _ (snapshot_of-Ends P quiet _) (λ (ts : Snapshot).
                    >>=-Ends P _ _ (ancestor_files-Ends P quiet r ancestor) (λ base.
                      >>=-Ends P _ _ (walk_all-Ends P quiet r ss.root) (λ theirs.
                        >>=-Ends P _ _ (walk_all-Ends P quiet r ts.root)
                          (λ ours. record { ended = tt })))))))))))
