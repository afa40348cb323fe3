-- ===== src/Advance/Guards.antt =====
-- What holds when a chain of checks of src/repo/mod.rs lets a timeline advance.
use bole.Base.{
  Bool, true, not, Option, none, some, is_some, List, Bytes, bytes_eq, eq_iff, contains,
  contains-filter, all, all-elim, ok, ◌≡◌, refl, ap, ◌∙◌,
}
use bole.Base.Checks.{passed, >>=-Post, passed-Post, Post, demand-passed, of_result-passed}
use bole.Base.Maps
use bole.Base.Maps.{contains-keys_some}
use bole.Access.{Accessor, ResourceRef, can_write}
use bole.Rules.{label_for_timeline}
use bole.Refs.{ObjectId, RefName, Timeline, get_timeline}
use bole.Object.{Object, snapshot, Snapshot}
use bole.Merge.{Files}
use bole.Hook.{PolicyDecision, allow, deny, requires_approval, PolicyHook, evaluate}
use bole.Approval.{Ed25519}
use bole.Repo.{Repository, policy_registry}
use bole.Advance.{
  unaudited, snapshot_of, found_timeline, as_expected, walk_all, files_of, writes_path,
  dropped_paths, verdict, context, check_advance,
}

snapshot_of-passed :
    (o : Option Object) {s : Snapshot} → snapshot_of o ≡ passed s → o ≡ some (snapshot s)
unfolding snapshot_of
snapshot_of-passed (some (snapshot s)) h = cc
snapshot_of-passed none h = absurd (cc)
snapshot_of-passed (some (Object.blob x)) h = absurd (cc)
snapshot_of-passed (some (Object.tree x)) h = absurd (cc)
snapshot_of-passed (some (Object.policy x)) h = absurd (cc)
snapshot_of-passed (some (Object.secret x)) h = absurd (cc)
snapshot_of-passed (some (Object.env_overlay x)) h = absurd (cc)
snapshot_of-passed (some (Object.secret_v2 x)) h = absurd (cc)
snapshot_of-passed (some (Object.multi_recipient_secret x)) h = absurd (cc)
snapshot_of-passed (some (Object.collab x)) h = absurd (cc)
snapshot_of-passed (some (Object.change_proposal x)) h = absurd (cc)
snapshot_of-passed (some (Object.review_comment x)) h = absurd (cc)
snapshot_of-passed (some (Object.post x)) h = absurd (cc)
snapshot_of-passed (some (Object.repo_record x)) h = absurd (cc)

found_timeline-passed :
    (o : Option Timeline) {tl : Timeline} → found_timeline o ≡ passed tl → o ≡ some tl
unfolding found_timeline
found_timeline-passed (some t) h = cc
found_timeline-passed none h = absurd (cc)

as_expected_head :
    (expected : Option ObjectId) (head e : ObjectId)
    → as_expected expected head ≡ true
    → expected ≡ some e
    → head ≡ e
as_expected_head none head e h q = absurd (cc)
as_expected_head (some x) head e h q = (eq_iff head x).0 h ∙ cc

module _ (r : Repository) where
  verdict-passed :
      (old : ObjectId) (d : PolicyDecision) {u : Unit {0}} → verdict r old d ≡ passed u → d ≡ allow
  unfolding verdict
  verdict-passed old allow h = refl
  verdict-passed old (deny reason) h = absurd (cc)
  verdict-passed old (requires_approval reason needed) h = absurd (cc)

  all_keys :
      (p : Bytes → Bool) (files : Files) (path : Bytes)
      → all p (Maps.keys files) ≡ true
      → is_some (Maps.get files path) ≡ true
      → p path ≡ true
  all_keys p files path h there =
      all-elim p (Maps.keys files) path h (contains-keys_some files path ∙ there)

  contains-dropped_paths :
      (old new : Files) (path : Bytes)
      → is_some (Maps.get old path) ≡ true
      → Maps.get new path ≡ none
      → contains (dropped_paths r old new) path ≡ true
  contains-dropped_paths old new path there gone =
      contains-filter (λ p. not (contains (Maps.keys new) p)) (Maps.keys old) path
      ∙ rw (contains-keys_some new path, contains-keys_some old path, gone, there) refl

  module _ (ed : Ed25519) (name : RefName) (snapshot_id : ObjectId) (accessor : Accessor) where
    -- The accessor may write the timeline and every path that the walks find in the new snapshot, or
    -- in the old one only; the timeline stands at the head that is expected; the new head is a stored
    -- snapshot; and the hooks that bind allow the advance.
    pub record Cleared (expected : Option ObjectId) (tl : Timeline) : Type 0 where
      pub may_write :
          can_write accessor (label_for_timeline r.rules r.lattice name) (ResourceRef.timeline name)
          ≡ true
      pub there : get_timeline r.refs name ≡ ok (some tl)
      pub at_head : (e : ObjectId) → expected ≡ some e → tl.head ≡ e
      pub snap : Snapshot
      pub stored : Maps.get r.objects snapshot_id ≡ some (snapshot snap)
      pub paths : Files
      pub walked : walk_all r snap.root ≡ passed paths
      pub old_paths : Files
      pub old_walked : files_of r (Maps.get r.objects tl.head) ≡ passed old_paths
      pub writes : (p : Bytes) → is_some (Maps.get paths p) ≡ true → writes_path r accessor p ≡ true
      pub drops :
          (p : Bytes)
          → is_some (Maps.get old_paths p) ≡ true
          → Maps.get paths p ≡ none
          → writes_path r accessor p ≡ true
      pub registry : List PolicyHook
      pub binding : policy_registry ed r ≡ ok registry
      pub allows : evaluate registry (context r ed name snapshot_id accessor tl.head) ≡ allow

    -- A timeline that the checks let advance is cleared for it.
    pub check_advance-Cleared :
        (expected : Option ObjectId)
        → Post (Cleared expected) (check_advance r ed name snapshot_id accessor expected)
    unfolding check_advance
    check_advance-Cleared expected =
        let P = Cleared expected in
        >>=-Post P _ _ (λ before e1. >>=-Post P _ _ (λ u2 may. >>=-Post P _ _ (λ snap is_there.
          >>=-Post P _ _ (λ paths walk. >>=-Post P _ _ (λ u5 each. >>=-Post P _ _ (λ cur now.
            >>=-Post P _ _ (λ tl found. >>=-Post P _ _ (λ u8 at. >>=-Post P _ _ (λ old walk_old.
              >>=-Post P _ _ (λ u10 gone. >>=-Post P _ _ (λ reg bound.
                >>=-Post P _ _ (λ u12 allowed. passed-Post P (record {
                  may_write = demand-passed _ _ may;
                  there =
                      of_result-passed unaudited _ now ∙ ap ok (found_timeline-passed cur found);
                  at_head = λ e q. as_expected_head expected tl.head e (demand-passed _ _ at) q;
                  snap = snap;
                  stored = snapshot_of-passed _ is_there;
                  paths = paths;
                  walked = walk;
                  old_paths = old;
                  old_walked = walk_old;
                  writes = λ p has.
                      all_keys (writes_path r accessor) paths p (demand-passed _ _ each) has;
                  drops = λ p was is_not.
                      all-elim (writes_path r accessor) (dropped_paths r old paths) p
                        (demand-passed _ _ gone) (contains-dropped_paths old paths p was is_not);
                  registry = reg;
                  binding = of_result-passed unaudited _ bound;
                  allows = verdict-passed tl.head _ allowed;
                })))))))))))))
