-- ===== src/Access.antt =====
-- src/acl/clearance.rs and the evaluator of src/acl/mod.rs: an accessor holds a lattice, rules and
-- clearances, and answers whether a resource of a label may be read or written.
pub mod Verdicts
pub mod Trace
pub mod Roles
pub mod Tests
use Prim.Native.Nat.{bit_and}
use bole.Base.{
  ℕ, Bool, true, false, ◌&&◌, ◌||◌, not, Option, none, some, List, [], ◌∷◌, ◌++◌, map, Bytes, bytes,
  ◌==◌, bytes_eq, nat_eq, any, if◌then◌else◌,
}
use bole.Glob.{glob_matches}
use bole.Lattice.{Label, LabelLattice, protected, two_point, top, dominates, strictly_dominates}
use bole.Rules.{LabelRule, LabelRuleSet, label_for_path, label_for_timeline, label_for_secret}

-- The bit flags READ and WRITE in a byte.
abbrev pub Capability : Type 0
Capability = ℕ

abbrev pub cap_read : Capability
cap_read = 1

abbrev pub cap_write : Capability
cap_write = 2

-- `cap.contains(bit)` of bitflags
unfoldable pub has_cap : Capability → Capability → Bool
has_cap cap bit = bit_and cap bit == bit

pub data Permission : Type 0 where
  read write : Permission

-- `From<Permission> for Capability`
abbrev pub capability_of : Permission → Capability
capability_of read = cap_read
capability_of write = cap_write

pub record PathRole : Type 0 where
  pub glob : Bytes
  pub permission : Permission

pub record TimelineRole : Type 0 where
  pub pattern : Bytes
  pub permission : Permission

pub data ClearanceScope : Type 0 where
  path : Bytes → ClearanceScope
  timeline : Bytes → ClearanceScope
  secret : Bytes → ClearanceScope

pub data ResourceRef : Type 0 where
  path : Bytes → ResourceRef
  timeline : Bytes → ResourceRef
  secret : Bytes → ResourceRef

pub record Clearance : Type 0 where
  pub ceiling : Label
  pub cap : Capability
  pub scope : Option ClearanceScope

pub record ClearanceSet : Type 0 where
  pub clearances : List Clearance
  pub confined : Bool

abbrev pub no_clearances : ClearanceSet
no_clearances = record { clearances = []; confined = false }

unfoldable pub scope_applies : Option ClearanceScope → ResourceRef → Bool
scope_applies none r = true
scope_applies (some (ClearanceScope.path g)) (ResourceRef.path p) = glob_matches g p
scope_applies (some (ClearanceScope.timeline g)) (ResourceRef.timeline t) = glob_matches g t
scope_applies (some (ClearanceScope.secret s)) (ResourceRef.secret n) = glob_matches s n
scope_applies _ _ = false

render : ClearanceScope → Bytes
render (ClearanceScope.path g) = bytes "path:" ++ g
render (ClearanceScope.timeline g) = bytes "timeline:" ++ g
render (ClearanceScope.secret g) = bytes "secret:" ++ g

unfoldable pub render_scope : Option ClearanceScope → Option Bytes
unfolding render
render_scope none = none
render_scope (some s) = some (render s)

pub record Accessor : Type 0 where
  pub lattice : LabelLattice
  pub rules : LabelRuleSet
  pub clearances : ClearanceSet
  pub actor : Option Bytes

-- `Default for Accessor`, and `Accessor::new`
pub new : Accessor
new = record {
  lattice = two_point;
  rules = record { rules = [] };
  clearances = no_clearances;
  actor = none;
}

pub from_parts : LabelLattice → LabelRuleSet → ClearanceSet → Accessor
from_parts lattice rules clearances = record {
  lattice = lattice;
  rules = rules;
  clearances = clearances;
  actor = none;
}

pub with_actor : Accessor → Bytes → Accessor
with_actor a actor = record a { actor = some actor }

pub push_clearance : ClearanceSet → Clearance → ClearanceSet
push_clearance set c = record set { clearances = set.clearances ++ (c ∷ []) }

push_rule : LabelRuleSet → LabelRule → LabelRuleSet
push_rule set r = record { rules = set.rules ++ (r ∷ []) }

pub with_path_role : Accessor → PathRole → Accessor
unfolding push_clearance push_rule
with_path_role a role = record a {
  rules = push_rule a.rules (LabelRule.path role.glob protected);
  clearances = push_clearance a.clearances (record {
    ceiling = protected;
    cap = capability_of role.permission;
    scope = some (ClearanceScope.path role.glob);
  });
}

pub with_timeline_role : Accessor → TimelineRole → Accessor
unfolding push_clearance push_rule
with_timeline_role a role = record a {
  rules = push_rule a.rules (LabelRule.timeline role.pattern protected);
  clearances = push_clearance a.clearances (record {
    ceiling = protected;
    cap = capability_of role.permission;
    scope = some (ClearanceScope.timeline role.pattern);
  });
}

unfoldable pub privileged : Accessor
privileged = record {
  lattice = two_point;
  rules = record { rules = [] };
  clearances = record {
    clearances = record { ceiling = top two_point; cap = cap_read; scope = none } ∷ [];
    confined = false;
  };
  actor = none;
}

pub has_write_capability : Accessor → Bool
has_write_capability a = any (λ (c : Clearance). has_cap c.cap cap_write) a.clearances.clearances

-- The three conjuncts that `can_read` and `can_write` ask of a clearance.
unfoldable pub qualifies : Accessor → Label → ResourceRef → Capability → Clearance → Bool
qualifies a label r bit c =
    has_cap c.cap bit && (scope_applies c.scope r && dominates a.lattice c.ceiling label)

unfoldable pub can_read : Accessor → Label → ResourceRef → Bool
unfolding qualifies
can_read a label r = any (qualifies a label r cap_read) a.clearances.clearances

-- A qualifying clearance whose ceiling is the label itself.
unfoldable pub at_level : Accessor → Label → ResourceRef → Capability → Clearance → Bool
at_level a label r bit c =
    has_cap c.cap bit
    && (scope_applies c.scope r
        && (dominates a.lattice c.ceiling label
            && not (strictly_dominates a.lattice c.ceiling label)))

unfoldable pub can_write : Accessor → Label → ResourceRef → Bool
unfolding qualifies at_level
can_write a label r =
    if not (any (qualifies a label r cap_write) a.clearances.clearances)
    then false
    else if a.clearances.confined
    then any (at_level a label r cap_write) a.clearances.clearances
    else true

pub can_read_path : Accessor → Bytes → Bool
can_read_path a p = can_read a (label_for_path a.rules a.lattice p) (ResourceRef.path p)

pub can_write_path : Accessor → Bytes → Bool
can_write_path a p = can_write a (label_for_path a.rules a.lattice p) (ResourceRef.path p)

pub can_read_timeline : Accessor → Bytes → Bool
can_read_timeline a n = can_read a (label_for_timeline a.rules a.lattice n) (ResourceRef.timeline n)

pub can_write_timeline : Accessor → Bytes → Bool
can_write_timeline a n =
    can_write a (label_for_timeline a.rules a.lattice n) (ResourceRef.timeline n)

pub can_read_secret : Accessor → Bytes → Bool
can_read_secret a n = can_read a (label_for_secret a.rules a.lattice n) (ResourceRef.secret n)

pub record ClearanceEval : Type 0 where
  pub ceiling : Label
  pub scope : Option Bytes
  pub in_scope : Bool
  pub grants_capability : Bool
  pub dominated : Bool
  pub strictly : Bool
  pub decisive : Bool

pub record CapabilityTrace : Type 0 where
  pub allowed : Bool
  pub confined_write_down_block : Bool
  pub clearances : List ClearanceEval

unfoldable pub evaluate : Accessor → Label → ResourceRef → Capability → Clearance → ClearanceEval
evaluate a label r cap c = record {
  ceiling = c.ceiling;
  scope = render_scope c.scope;
  in_scope = scope_applies c.scope r;
  grants_capability = has_cap c.cap cap;
  dominated = dominates a.lattice c.ceiling label;
  strictly = strictly_dominates a.lattice c.ceiling label;
  decisive = false;
}

abbrev pub eval_qualifies : ClearanceEval → Bool
eval_qualifies e = e.grants_capability && (e.in_scope && e.dominated)

abbrev pub eval_at_level : ClearanceEval → Bool
eval_at_level e = e.grants_capability && (e.in_scope && (e.dominated && not e.strictly))

-- `if let Some(e) = evals.iter_mut().find(…) { e.decisive = true; }`
unfoldable pub mark_first : List ClearanceEval → List ClearanceEval
mark_first [] = []
mark_first (e ∷ es) =
    let rest = mark_first es in
    if eval_qualifies e then record e { decisive = true } ∷ es else e ∷ rest

unfoldable pub eval_cap : Accessor → Label → ResourceRef → Capability → CapabilityTrace
unfolding evaluate mark_first
eval_cap a label r cap =
    let evals = map (evaluate a label r cap) a.clearances.clearances in
    let dominated = any eval_qualifies evals in
    let level = any eval_at_level evals in
    let confined = has_cap cap cap_write && a.clearances.confined in
    let allowed = (if not dominated then false else if confined then level else true) in
    record {
      allowed = allowed;
      confined_write_down_block = dominated && (confined && not level);
      clearances = if allowed then mark_first evals else evals;
    }

unfoldable pub explain : Accessor → Label → ResourceRef → CapabilityTrace × CapabilityTrace
unfolding eval_cap
explain a label r = (eval_cap a label r cap_read, eval_cap a label r cap_write)
