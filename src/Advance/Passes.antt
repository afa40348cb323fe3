-- ===== src/Advance/Passes.antt =====
-- That a cleared advance of src/repo/mod.rs goes through.
use bole.Base.{
  Bool, true, not, Option, none, some, is_some, Bytes, bytes_eq, eq_iff, contains, contains-filter,
  all, all-intro, ok, ◌≡◌, refl, sym, ◌∙◌, arith, ◌&&◌, inl, inr, Option-cases,
}
use bole.Base.Checks.{passed, >>=-pass, demand-true, of_result-ok}
use bole.Base.Maps
use bole.Base.Maps.{contains-keys_some}
use bole.Access.{Accessor}
use bole.Refs.{ObjectId, RefName, Timeline, timeline}
use bole.Object.{Object, snapshot, Snapshot}
use bole.Hook.{PolicyDecision, allow}
use bole.Merge.{Files}
use bole.Approval.{Ed25519}
use bole.Repo.{Repository, allowed}
use bole.Advance.{
  unaudited, snapshot_of, found_timeline, as_expected, writes_path, dropped_paths, verdict,
  check_advance, audit_advance, advance_timeline_expecting,
}
use bole.Advance.Guards.{Cleared}
use bole.Advance.Outcomes.{swap_head-found}

as_expected-intro :
    (expected : Option ObjectId) (head : ObjectId)
    → ((e : ObjectId) → expected ≡ some e → head ≡ e)
    → as_expected expected head ≡ true
as_expected-intro none head h = refl
as_expected-intro (some e) head h = (eq_iff head e).1 (h e refl)

all-keys :
    (p : Bytes → Bool) (files : Files)
    → ((path : Bytes) → is_some (Maps.get files path) ≡ true → p path ≡ true)
    → all p (Maps.keys files) ≡ true
all-keys p files h =
    all-intro p (Maps.keys files) (λ path m. h path (sym (contains-keys_some files path) ∙ m))

snapshot_of-stored :
    (o : Option Object) {s : Snapshot} → o ≡ some (snapshot s) → snapshot_of o ≡ passed s
unfolding snapshot_of
snapshot_of-stored o h = rw h refl

module _ (r : Repository) where
  verdict-allow : (old : ObjectId) (d : PolicyDecision) → d ≡ allow → verdict r old d ≡ passed tt
  unfolding verdict
  verdict-allow old d h = rw h refl

  all-dropped_paths :
      (p : Bytes → Bool) (old new : Files)
      → ((path : Bytes)
          → is_some (Maps.get old path) ≡ true
          → Maps.get new path ≡ none
          → p path ≡ true)
      → all p (dropped_paths r old new) ≡ true
  all-dropped_paths p old new h = all-intro p (dropped_paths r old new) (λ path m.
      let both : (not (is_some (Maps.get new path)) && is_some (Maps.get old path)) ≡ true =
        rw (← contains-keys_some new path, ← contains-keys_some old path)
          (sym (contains-filter (λ q. not (contains (Maps.keys new) q)) (Maps.keys old) path)
            ∙ m) in
      elim (Option-cases (Maps.get new path)) [
        | inl gone ↦ h path (ground (arith, both, gone)) gone
        | inr (id, there) ↦ absurd (ground (arith, both, there))
      ])

  module _ (ed : Ed25519) (name : RefName) (snapshot_id : ObjectId) (accessor : Accessor)
      (expected : Option ObjectId) (tl : Timeline)
      (c : Cleared r ed name snapshot_id accessor expected tl) where
    check_advance-passes : check_advance r ed name snapshot_id accessor expected ≡ passed tl
    unfolding check_advance found_timeline
    check_advance-passes = >>=-pass _ _ (of_result-ok unaudited _ c.there) (
        >>=-pass _ _ (demand-true _ _ c.may_write) (
          >>=-pass _ _ (snapshot_of-stored _ c.stored) (
            >>=-pass _ _ c.walked (
              >>=-pass _ _ (demand-true _ _ (all-keys (writes_path r accessor) c.paths c.writes)) (
                >>=-pass _ _ (of_result-ok unaudited _ c.there) (
                  >>=-pass _ _ refl (
                    >>=-pass _ _ (demand-true _ _ (as_expected-intro expected tl.head c.at_head)) (
                      >>=-pass _ _ c.old_walked (
                        >>=-pass _ _
                          (demand-true _ _ (
                            all-dropped_paths (writes_path r accessor) c.old_paths c.paths c.drops))
                          (>>=-pass _ _ (of_result-ok unaudited _ c.binding)
                            (>>=-pass _ _ (verdict-allow tl.head _ c.allows) refl)))))))))))

    -- An advance that is cleared succeeds, and leaves the timeline at the new head, with an entry in
    -- the trail that allows it.
    pub advance_timeline_expecting-Cleared :
        advance_timeline_expecting r ed name snapshot_id accessor expected
        ≡ some (
          audit_advance r ed name snapshot_id accessor
              (record r {
                refs = Maps.insert r.refs name (timeline (record tl { head = snapshot_id }));
              })
              (some tl.head)
              allowed,
          ok tt,
        )
    unfolding advance_timeline_expecting
    advance_timeline_expecting-Cleared =
        rw (check_advance-passes, advance_timeline_expecting)
          (rw (swap_head-found r.refs name snapshot_id tl c.there) refl)
