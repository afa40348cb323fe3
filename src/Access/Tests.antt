-- ===== src/Access/Tests.antt =====
-- Accessors of the unit tests, and the theorems at them.
use bole.Base.{
  true, false, none, List, [], ◌∷◌, ◌≡◌, refl, ◌↔◌, bytes, bytes_discrete, ℕ_discrete, bytes_cmp,
  pair_cmp, any,
}
use bole.Lattice.{public, protected, top, bottom, two_point, dominates, strictly_dominates}
use bole.Rules.{label_for_path}
use bole.Access.{
  read, write, PathRole, ResourceRef, Accessor, cap_write, has_cap, scope_applies, can_read,
  can_write, can_read_path, privileged,
}
use bole.Access.Verdicts.{Holds, can_write_confined}
use bole.Access.Roles.{with_path_roles, reads, can_read_path-roles}

-- A confined agent with a write clearance at the top, for everything.
abbrev agent : Accessor
agent = record {
  lattice = two_point;
  rules = record { rules = [] };
  clearances = record {
    clearances = record { ceiling = protected; cap = 3; scope = none } ∷ [];
    confined = true;
  };
  actor = none;
}

abbrev free_agent : Accessor
free_agent = record agent {
  clearances = record { clearances = agent.clearances.clearances; confined = false };
}

abbrev readme : ResourceRef
readme = ResourceRef.path (bytes "README.md")

no_write_down :
    (can_write agent public readme ≡ false) × (can_write free_agent public readme ≡ true)
unfolding can_write scope_applies has_cap strictly_dominates dominates two_point bytes_cmp pair_cmp
    bytes_discrete ℕ_discrete
no_write_down = (refl, refl)

privileged_reads : can_read_path privileged (bytes "a/b") ≡ true
unfolding can_read_path privileged can_read scope_applies top bottom has_cap dominates two_point
    label_for_path bytes_cmp pair_cmp bytes_discrete ℕ_discrete
privileged_reads = refl

can_write_confined_example :
    (can_write agent public readme ≡ true)
    ↔ Holds agent readme cap_write (λ ceiling. ceiling ≡ public)
can_write_confined_example = can_write_confined agent public readme refl

protected_over_public : dominates two_point protected public ≡ true
unfolding dominates two_point bytes_cmp pair_cmp bytes_discrete ℕ_discrete
protected_over_public = refl

abbrev two_roles : List PathRole
two_roles =
    record { glob = bytes "src/**"; permission = read }
    ∷ record { glob = bytes "doc/**"; permission = write }
    ∷ []

can_read_path-roles_example :
    can_read_path (with_path_roles two_roles) (bytes "src/a")
    ≡ any (reads (bytes "src/a")) two_roles
can_read_path-roles_example = can_read_path-roles two_roles (bytes "src/a")
