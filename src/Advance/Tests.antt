-- ===== src/Advance/Tests.antt =====
-- Advances of a timeline in a repository of three levels, and the theorems at them.
use bole.Base.{
  false, ◌==◌, eq_iff, none, some, [], ◌∷◌, Bytes, bytes, bytes_eq, bytes_discrete, pair_discrete,
  bytes_cmp, pair_cmp, set_insert, collect_set, ℕ_discrete, Result, ok, ◌≡◌, ◌≢◌, refl, sym, ◌∙◌,
}
use bole.Base.Checks.{passed, ◌>>=◌, demand, of_result, of_search, Ends}
use bole.Base.Maps
use bole.Lattice.{Label, public, protected, two_point, top, bottom, join, dominates}
use bole.Glob.{glob_matches}
use bole.Rules.{label_for_path, label_for_timeline}
use bole.Access.{
  Accessor, ResourceRef, has_cap, scope_applies, qualifies, can_read, can_write, privileged,
}
use bole.Approval.{Ed25519}
use bole.Refs.{timeline, get_timeline}
use bole.Merge.{Files, parent_edges}
use bole.Hook.{
  more_restrictive, scan_parents, ancestor_walk, is_ancestor, evaluate_from, check_timeline,
}
use bole.Repo.{
  allowed, Repository, visible, join_path, visit_entries, walk_loop, tree_costs, tree_cost,
  walk_tree, policy_root, push_hooks, policy_registry,
}
use bole.Repo.Tests.{line, mid, three_levels, plans_are_mid, repository}
use bole.Advance.{
  snapshot_of, found_timeline, walk_all, files_of, writes_path, verdict, check_advance,
  audit_advance, advance_timeline_expecting, merge_timelines,
}
use bole.Advance.Ends.{Unrecorded, merge_timelines-Ends}
use bole.Advance.Guards.{check_advance-Cleared}
use bole.Advance.Passes.{advance_timeline_expecting-Cleared}
use bole.Advance.Outcomes.{Comes, advance_timeline_expecting_cases}
use bole.Advance.Blind.{Unseen, walk_all-Unseen}

abbrev toy : Ed25519
toy = record {
  VerifyingKey = Bytes;
  from_bytes = λ key. some key;
  verify = λ key message sig. key == bytes "public";
}

-- It may write what is `low`, and nothing else.
abbrev writer : Accessor
writer = record {
  lattice = three_levels;
  rules = plans_are_mid;
  clearances = record {
    clearances = record { ceiling = bytes "low"; cap = 2; scope = none } ∷ [];
    confined = false;
  };
  actor = none;
}

plan_is_mid : label_for_path plans_are_mid three_levels (bytes "plans/b") ≡ mid
unfolding label_for_path bottom join dominates glob_matches bytes_cmp bytes_discrete pair_discrete
    ℕ_discrete
plan_is_mid = refl

may_not_write : can_write writer mid (ResourceRef.path (bytes "plans/b")) ≡ false
unfolding can_write qualifies has_cap scope_applies dominates bytes_cmp bytes_discrete ℕ_discrete
may_not_write = refl

-- The new head has a file that the writer may not write, and yet the checks pass.
checks :
    check_advance repository toy (bytes "main") (bytes "s2") writer (some (bytes "s1"))
    ≡ passed (line (bytes "s1") none)
unfolding check_advance walk_all walk_tree walk_loop visit_entries tree_cost tree_costs join_path
    visible ◌>>=◌ demand of_result of_search snapshot_of found_timeline files_of writes_path verdict
    get_timeline policy_registry policy_root push_hooks label_for_path label_for_timeline bottom
    join dominates glob_matches can_write can_read qualifies has_cap scope_applies privileged
    two_point top evaluate_from more_restrictive check_timeline is_ancestor ancestor_walk
    scan_parents parent_edges Maps.get Maps.insert Maps.keys set_insert collect_set bytes_cmp
    pair_cmp bytes_discrete pair_discrete ℕ_discrete
checks = refl

advance_timeline_expecting_cases_example :
    (o : Repository × Result (Unit {0})) × (advance_timeline_expecting repository toy
        (bytes "main")
        (bytes "s2")
        writer
        (some (bytes "s1"))
      ≡ some o)
    × Comes repository toy (bytes "main") (bytes "s2") writer (some (bytes "s1")) o
advance_timeline_expecting_cases_example =
    advance_timeline_expecting_cases repository toy (bytes "main") (bytes "s2") writer
      (some (bytes "s1"))

merge_timelines-Ends_example :
    Ends Unrecorded (merge_timelines repository (bytes "old") (bytes "main") writer)
merge_timelines-Ends_example = merge_timelines-Ends repository (bytes "old") (bytes "main") writer

abbrev seen : Files
seen = (bytes "a", bytes "1") ∷ []

walked : walk_all repository (bytes "t2") ≡ passed seen
unfolding walk_all walk_tree walk_loop visit_entries tree_cost tree_costs join_path visible ◌>>=◌
    of_result of_search label_for_path bottom join dominates glob_matches can_read qualifies has_cap
    scope_applies privileged two_point top Maps.get Maps.insert set_insert collect_set bytes_cmp
    pair_cmp bytes_discrete pair_discrete ℕ_discrete
walked = refl

not_mid :
    (l : Label)
    → (mid == l) ≡ false
    → label_for_path plans_are_mid three_levels (bytes "plans/b") ≢ l
not_mid l n = λ e. cc (n, (eq_iff mid l).1 (sym plan_is_mid ∙ e))

plan-Unseen : Unseen repository (bytes "plans/b")
unfolding bottom dominates bytes_cmp bytes_discrete pair_discrete ℕ_discrete
plan-Unseen = (not_mid (bottom three_levels) refl, not_mid public refl, not_mid protected refl)

walk_all-Unseen_example : Maps.get seen (bytes "plans/b") ≡ none
walk_all-Unseen_example =
    walk_all-Unseen repository (bytes "t2") seen (bytes "plans/b") walked plan-Unseen

advance_timeline_expecting-Cleared_example :
    advance_timeline_expecting repository toy (bytes "main") (bytes "s2") writer (some (bytes "s1"))
    ≡ some (
      audit_advance repository toy
          (bytes "main")
          (bytes "s2")
          writer
          (record repository {
            refs = Maps.insert repository.refs (bytes "main") (timeline (line (bytes "s2") none));
          })
          (some (bytes "s1"))
          allowed,
      ok tt,
    )
advance_timeline_expecting-Cleared_example =
    advance_timeline_expecting-Cleared repository toy (bytes "main") (bytes "s2") writer
      (some (bytes "s1")) (line (bytes "s1") none)
      ((check_advance-Cleared repository toy (bytes "main") (bytes "s2") writer
          (some (bytes "s1"))).holds
        (line (bytes "s1") none) checks)
