-- ===== src/Access/Roles.antt =====
-- The legacy roles: an accessor built from path roles reads what some read role's glob matches.
use mathlib.Core.List.{foldl, append-nil}
use bole.Base.{
  Bool, true, false, ◌&&◌, none, some, List, [], ◌∷◌, ◌++◌, map, ◌≡◌, refl, ◌⊎◌, inl, inr, arith,
  Bytes, bytes_eq, any, if◌then◌else◌, ap, sym, ◌∙◌, ℕ_discrete, bytes_discrete, bytes_cmp,
  pair_cmp,
}
use bole.Glob.{glob_matches}
use bole.Lattice.{Label, public, protected, two_point, bottom, join, dominates}
use bole.Rules.{LabelRule, for_path, join_matched, join_rules, label_for_path}
use bole.Access.{
  Permission, read, write, PathRole, cap_read, capability_of, has_cap, scope_applies, Clearance,
  ClearanceScope, ResourceRef, Accessor, new, with_path_role, qualifies, can_read, can_read_path,
}

-- `Accessor::new().with_path_role(r1).with_path_role(r2)…`
abbrev pub with_path_roles : List PathRole → Accessor
with_path_roles = foldl with_path_role new

abbrev is_read : Permission → Bool
is_read read = true
is_read write = false

abbrev pub reads : Bytes → PathRole → Bool
reads p role = is_read role.permission && glob_matches role.glob p

rule_of : PathRole → LabelRule
rule_of role = LabelRule.path role.glob protected

clearance_of : PathRole → Clearance
clearance_of role = record {
  ceiling = protected;
  cap = capability_of role.permission;
  scope = some (ClearanceScope.path role.glob);
}

append_assoc_snoc {ℓ} :
    {A : Type ℓ} (xs : List A) (x : A) (ys : List A) → (xs ++ x ∷ []) ++ ys ≡ xs ++ x ∷ ys
append_assoc_snoc [] x ys = refl
append_assoc_snoc (z ∷ xs) x ys = ap (λ t. z ∷ t) (append_assoc_snoc xs x ys)

-- What the chain of calls leaves in the accessor.
fold_parts :
    (roles : List PathRole) (a : Accessor)
    → ((foldl with_path_role a roles).lattice ≡ a.lattice)
      × ((foldl with_path_role a roles).rules.rules ≡ a.rules.rules ++ map rule_of roles)
      × ((foldl with_path_role a roles).clearances.clearances
          ≡ a.clearances.clearances ++ map clearance_of roles)
unfolding with_path_role rule_of clearance_of
fold_parts [] a = (refl, sym (append-nil a.rules.rules), sym (append-nil a.clearances.clearances))
fold_parts (role ∷ roles) a =
    let (l, r, c) = fold_parts roles (with_path_role a role) in
    (l, r ∙ append_assoc_snoc a.rules.rules _ _, c ∙ append_assoc_snoc a.clearances.clearances _ _)

abbrev IsPoint : Label → Type 0
IsPoint x = (x ≡ public) ⊎ (x ≡ protected)

join-public : join two_point public protected ≡ protected
unfolding join dominates two_point bytes_cmp pair_cmp bytes_discrete ℕ_discrete
join-public = refl

join-protected : join two_point protected protected ≡ protected
unfolding join dominates two_point bytes_cmp pair_cmp bytes_discrete ℕ_discrete
join-protected = refl

bottom-two_point : bottom two_point ≡ public
unfolding bottom dominates two_point bytes_cmp pair_cmp bytes_discrete ℕ_discrete
bottom-two_point = refl

protected_top :
    (dominates two_point protected public ≡ true) × (dominates two_point protected protected ≡ true)
unfolding dominates two_point bytes_cmp pair_cmp bytes_discrete ℕ_discrete
protected_top = (refl, refl)

join-IsPoint : (x : Label) → IsPoint x → IsPoint (join two_point x protected)
join-IsPoint x (inl e) = inr (ap (λ y. join two_point y protected) e ∙ join-public)
join-IsPoint x (inr e) = inr (ap (λ y. join two_point y protected) e ∙ join-protected)

join_matched-IsPoint :
    (acc : Label) (b : Bool)
    → IsPoint acc
    → IsPoint (join_matched two_point acc (if b then some protected else none))
join_matched-IsPoint acc true h = join-IsPoint acc h
join_matched-IsPoint acc false h = h

join_rules-IsPoint :
    (p : Bytes) (acc : Label) (roles : List PathRole)
    → IsPoint acc
    → IsPoint (join_rules two_point (for_path p) acc (map rule_of roles))
unfolding join_rules for_path rule_of
join_rules-IsPoint p acc [] h = h
join_rules-IsPoint p acc (role ∷ roles) h =
    join_rules-IsPoint p (join_matched two_point acc (for_path p (rule_of role))) roles
      (join_matched-IsPoint acc (glob_matches role.glob p) h)

protected-dominates : (x : Label) → IsPoint x → dominates two_point protected x ≡ true
protected-dominates x (inl e) = ap (dominates two_point protected) e ∙ protected_top.0
protected-dominates x (inr e) = ap (dominates two_point protected) e ∙ protected_top.1

any-roles :
    (a : Accessor) (label : Label) (p : Bytes) (roles : List PathRole)
    → dominates a.lattice protected label ≡ true
    → any (qualifies a label (ResourceRef.path p) cap_read) (map clearance_of roles)
      ≡ any (reads p) roles
unfolding qualifies has_cap scope_applies clearance_of ℕ_discrete
any-roles a label p [] d = refl
any-roles a label p (role ∷ roles) d = ground (arith, any-roles a label p roles)

module _ (a : Accessor) (roles : List PathRole) (p : Bytes) where
  label-IsPoint :
      a.lattice ≡ two_point
      → a.rules.rules ≡ map rule_of roles
      → IsPoint (join_rules a.lattice (for_path p) (bottom a.lattice) a.rules.rules)
  label-IsPoint l r =
      rw (l, r) (join_rules-IsPoint p (bottom two_point) roles (inl bottom-two_point))

  can_read_path-of_parts :
      a.lattice ≡ two_point
      → a.rules.rules ≡ map rule_of roles
      → a.clearances.clearances ≡ map clearance_of roles
      → can_read_path a p ≡ any (reads p) roles
  unfolding can_read_path can_read label_for_path
  can_read_path-of_parts l r c =
      let label = join_rules a.lattice (for_path p) (bottom a.lattice) a.rules.rules in
      ap (any (qualifies a label (ResourceRef.path p) cap_read)) c
      ∙ any-roles a label p roles
          (ap (λ x. dominates x protected label) l ∙ protected-dominates label (label-IsPoint l r))

-- An accessor built from nothing but path roles may read a path exactly when one of the read roles
-- has a glob that matches the path.
pub can_read_path-roles :
    (roles : List PathRole) (p : Bytes)
    → can_read_path (with_path_roles roles) p ≡ any (reads p) roles
unfolding new
can_read_path-roles roles p =
    let (l, r, c) = fold_parts roles new in
    can_read_path-of_parts (with_path_roles roles) roles p l r c
