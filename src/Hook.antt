-- ===== src/Hook.antt =====
-- src/acl/hook.rs: the checks at a write decision point and their composition. A denial keeps the
-- fixed text of its reason.
pub mod Ancestry
pub mod Decisions
pub mod Tests
use bole.Base.{
  ℕ, zero, suc, ◌+◌, Bool, true, false, not, Option, none, some, List, [], ◌∷◌, ◌++◌, Bytes, bytes,
  bytes_eq, bytes_ord, String, ◌==◌, if◌then◌else◌, ltb, contains, length, filter, map, all,
  set_insert, Result, ok, err,
}
use bole.Base.Maps
use bole.Object.{Object}
use bole.Access.{Accessor}
use bole.Refs.{
  ObjectId, RefName, Refs, Timeline, TimelinePolicy, fast_forward_only, append, unrestricted,
  get_timeline,
}
use bole.Search.{Objects}
use bole.Merge.{parents_of, parent_edges}

pub data PolicyDecision : Type 0 where
  allow : PolicyDecision
  deny : String → PolicyDecision
  requires_approval : String → ℕ → PolicyDecision

pub data PolicyEvent : Type 0 where
  advance : RefName → ObjectId → ObjectId → PolicyEvent
  merge : RefName → RefName → ObjectId → ObjectId → PolicyEvent

pub record PolicyContext : Type 0 where
  pub event : PolicyEvent
  pub accessor : Accessor
  pub objects : Objects
  pub refs : Refs
  pub now : ℕ

pub record PolicyHook : Type 0 where
  pub name : Bytes
  pub check : PolicyContext → PolicyDecision
  pub deterministic : Bool

abbrev pub rank : PolicyDecision → ℕ
rank allow = 0
rank (requires_approval reason needed) = 1
rank (deny reason) = 2

unfoldable pub more_restrictive : PolicyDecision → PolicyDecision → PolicyDecision
more_restrictive a b = if ltb (rank a) (rank b) then b else a

-- What the loop over the parents comes to: it returns, or leaves a stack and a set behind.
pub data Walk : Type 0 where
  found : Walk
  more : List ObjectId → List ObjectId → Walk

-- `for p in s.parents`
unfoldable pub scan_parents : ObjectId → List ObjectId → List ObjectId → List ObjectId → Walk
scan_parents ancestor [] stack seen = more stack seen
scan_parents ancestor (p ∷ parents) stack seen =
    let skipped = scan_parents ancestor parents stack seen in
    let pushed = scan_parents ancestor parents (p ∷ stack) (set_insert p seen) in
    if p == ancestor then found else (if contains seen p then skipped else pushed)

-- The `while` loop of `is_ancestor`; `none` is the end of the fuel.
unfoldable pub ancestor_walk : Objects → ObjectId → ℕ → List ObjectId → List ObjectId → Option Bool
ancestor_walk store ancestor fuel [] seen = some false
ancestor_walk store ancestor zero (cur ∷ stack) seen = none
ancestor_walk store ancestor (suc fuel) (cur ∷ stack) seen =
    elim (scan_parents ancestor (parents_of (Maps.get store cur)) stack seen) [
      | found ↦ some true
      | more stack' seen' ↦ ancestor_walk store ancestor fuel stack' seen'
    ]

unfoldable pub is_ancestor : Objects → ObjectId → ObjectId → Option Bool
is_ancestor store ancestor descendant =
    if ancestor == descendant
    then some true
    else ancestor_walk store ancestor (length (parent_edges store) + 1) (descendant ∷ []) []

-- `PolicyRegistry::evaluate`, the loop over the hooks.
unfoldable pub evaluate_from : PolicyDecision → List PolicyHook → PolicyContext → PolicyDecision
evaluate_from decision [] ctx = decision
evaluate_from decision (hook ∷ hooks) ctx =
    evaluate_from (more_restrictive decision (hook.check ctx)) hooks ctx

abbrev pub evaluate : List PolicyHook → PolicyContext → PolicyDecision
evaluate hooks ctx = evaluate_from allow hooks ctx

unfoldable pub registry_deterministic : List PolicyHook → Bool
registry_deterministic hooks = all PolicyHook.deterministic hooks

unfoldable pub non_deterministic : List PolicyHook → List Bytes
non_deterministic hooks = map PolicyHook.name (filter (λ h. not (PolicyHook.deterministic h)) hooks)

unfoldable pub evaluate_replayable : List PolicyHook → PolicyContext → PolicyDecision
evaluate_replayable hooks ctx = elim (non_deterministic hooks) [
  | name ∷ names ↦
      deny "non-deterministic policy hook(s) cannot gate a replicated advance (fail-closed)"
  | [] ↦ evaluate hooks ctx
]

-- `match tl.policy`
abbrev pub check_policy : Objects → TimelinePolicy → ObjectId → ObjectId → PolicyDecision
check_policy store unrestricted old_head new_head = allow
check_policy store _ old_head new_head = elim (is_ancestor store old_head new_head) [
  | some true ↦ allow
  | some false ↦ deny "new head is not a descendant of current head"
  | none ↦ deny "ancestry check failed"
]

-- `match ctx.refs.get_timeline(timeline)`
abbrev pub check_advance : Objects → Result (Option Timeline) → ObjectId → ObjectId → PolicyDecision
check_advance store (ok (some tl)) old_head new_head =
    check_policy store tl.policy old_head new_head
check_advance store (ok none) old_head new_head = deny "timeline not found"
check_advance store (err e) old_head new_head = deny "timeline lookup failed"

unfoldable pub check_timeline : PolicyContext → PolicyDecision
check_timeline ctx = elim ctx.event [
  | advance name old_head new_head ↦
      check_advance ctx.objects (get_timeline ctx.refs name) old_head new_head
  | merge source target old_head result_head ↦ allow
]

abbrev pub timeline_policy_hook : PolicyHook
timeline_policy_hook = record {
  name = bytes "timeline-policy";
  check = check_timeline;
  deterministic = true;
}

abbrev pub registry_new : List PolicyHook
registry_new = timeline_policy_hook ∷ []

abbrev pub push : List PolicyHook → PolicyHook → List PolicyHook
push hooks hook = hooks ++ (hook ∷ [])
