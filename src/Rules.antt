-- ===== src/Rules.antt =====
-- src/acl/rules.rs: rules that give labels to resources by glob.
pub mod Bounds
pub mod Tests
use bole.Base.{Bool, true, false, Option, none, some, List, [], ◌∷◌, Bytes, if◌then◌else◌}
use bole.Glob.{glob_matches}
use bole.Lattice.{Label, LabelLattice, bottom, join}

pub data LabelRule : Type 0 where
  path : Bytes → Label → LabelRule
  timeline : Bytes → Label → LabelRule
  secret : Bytes → Label → LabelRule

pub record LabelRuleSet : Type 0 where
  pub rules : List LabelRule

-- The label that a rule gives to a path, if it is a path rule that matches; so for the other kinds.
unfoldable pub for_path : Bytes → LabelRule → Option Label
for_path name (path glob label) = if glob_matches glob name then some label else none
for_path name _ = none

unfoldable pub for_timeline : Bytes → LabelRule → Option Label
for_timeline name (timeline pattern label) = if glob_matches pattern name then some label else none
for_timeline name _ = none

unfoldable pub for_secret : Bytes → LabelRule → Option Label
for_secret name (secret rname label) = if glob_matches rname name then some label else none
for_secret name _ = none

abbrev pub join_matched : LabelLattice → Label → Option Label → Label
join_matched lattice acc none = acc
join_matched lattice acc (some label) = join lattice acc label

-- `for rule in &self.rules { … acc = lattice.join(&acc, label); }`
unfoldable pub join_rules :
    LabelLattice → (LabelRule → Option Label) → Label → List LabelRule → Label
join_rules lattice matched acc [] = acc
join_rules lattice matched acc (rule ∷ rules) =
    join_rules lattice matched (join_matched lattice acc (matched rule)) rules

unfoldable pub label_for_path : LabelRuleSet → LabelLattice → Bytes → Label
unfolding join_rules for_path
label_for_path set lattice name = join_rules lattice (for_path name) (bottom lattice) set.rules

unfoldable pub label_for_timeline : LabelRuleSet → LabelLattice → Bytes → Label
unfolding join_rules for_timeline
label_for_timeline set lattice name =
    join_rules lattice (for_timeline name) (bottom lattice) set.rules

unfoldable pub label_for_secret : LabelRuleSet → LabelLattice → Bytes → Label
unfolding join_rules for_secret
label_for_secret set lattice name = join_rules lattice (for_secret name) (bottom lattice) set.rules
