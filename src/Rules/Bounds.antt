-- ===== src/Rules/Bounds.antt =====
-- The effective label of a resource is the least label above all that the matching rules give.
use bole.Base.{
  true, Option, none, some, List, [], ◌∷◌, Bytes, ◌≡◌, refl, ◌↔◌, contains, bytes_eq, ok, subst,
}
use bole.Lattice.{Label, LabelLattice, bottom, dominates, validate}
use bole.Lattice.Bounds.{join-IsJoin, dominates-join, bottom-top_bounds}
use bole.Rules.{
  LabelRule, LabelRuleSet, for_path, for_timeline, for_secret, join_matched, join_rules,
  label_for_path, label_for_timeline, label_for_secret,
}

module _ (l : LabelLattice) (matched : LabelRule → Option Label) where
  -- Every label that a rule of the list gives is one of the lattice's.
  abbrev pub GivesLabels : List LabelRule → Type 0
  GivesLabels [] = Unit
  GivesLabels (r ∷ rs) =
      ((x : Label) → matched r ≡ some x → contains l.labels x ≡ true) × GivesLabels rs

  -- `c` is above every label that a rule of the list gives.
  abbrev pub AboveAll : Label → List LabelRule → Type 0
  AboveAll c [] = Unit
  AboveAll c (r ∷ rs) = ((x : Label) → matched r ≡ some x → dominates l c x ≡ true) × AboveAll c rs

module _ (l : LabelLattice) (valid : validate l ≡ ok tt) (matched : LabelRule → Option Label) where
  matched_step :
      (acc : Label) (o : Option Label) (c : Label)
      → contains l.labels acc ≡ true
      → ((x : Label) → o ≡ some x → contains l.labels x ≡ true)
      → contains l.labels c ≡ true
      → (contains l.labels (join_matched l acc o) ≡ true)
        × ((dominates l c (join_matched l acc o) ≡ true)
            ↔ ((dominates l c acc ≡ true) × ((x : Label) → o ≡ some x → dominates l c x ≡ true)))
  matched_step acc none c la lo lc = (la, (λ h. (h, λ x e. absurd (cc)), λ h. h.0))
  matched_step acc (some x) c la lo lc =
      let e = dominates-join l valid acc x c la (lo x refl) lc in
      (
        (join-IsJoin l valid acc x la (lo x refl)).label,
        (
          λ h. ((e.0 h).0, λ y p. subst (λ z. dominates l c z ≡ true) (some_inj p) (e.0 h).1),
          λ h. e.1 (h.0, h.1 x refl),
        ),
      )
    where
      some_inj : {a b : Label} → some a ≡ some b → a ≡ b
      some_inj p = cc

  pub join_rules_bounds :
      (acc : Label) (rules : List LabelRule) (c : Label)
      → contains l.labels acc ≡ true
      → GivesLabels l matched rules
      → contains l.labels c ≡ true
      → (contains l.labels (join_rules l matched acc rules) ≡ true)
        × ((dominates l c (join_rules l matched acc rules) ≡ true)
            ↔ ((dominates l c acc ≡ true) × AboveAll l matched c rules))
  unfolding join_rules
  join_rules_bounds acc [] c la g lc = (la, (λ h. (h, tt), λ h. h.0))
  join_rules_bounds acc (r ∷ rs) c la g lc =
      let (l1, e1) = matched_step acc (matched r) c la g.0 lc in
      let (l2, e2) = join_rules_bounds (join_matched l acc (matched r)) rs c l1 g.1 lc in
      (
        l2,
        (
          λ h. let (d, above) = e2.0 h in let (da, dx) = e1.0 d in (da, (dx, above)),
          λ h. e2.1 (e1.1 (h.0, h.1.0), h.1.1),
        ),
      )

  -- With the bottom to start from, the bound is that of the rules alone.
  pub join_rules_from_bottom :
      (rules : List LabelRule) (c : Label)
      → GivesLabels l matched rules
      → contains l.labels c ≡ true
      → (contains l.labels (join_rules l matched (bottom l) rules) ≡ true)
        × ((dominates l c (join_rules l matched (bottom l) rules) ≡ true)
            ↔ AboveAll l matched c rules)
  join_rules_from_bottom rules c g lc =
      let (lb, low) = (bottom-top_bounds l valid).0 in
      let (lj, e) = join_rules_bounds (bottom l) rules c lb g lc in
      (lj, (λ h. (e.0 h).1, λ h. e.1 (low c lc, h)))

module _ (set : LabelRuleSet) (l : LabelLattice) (name : Bytes) (c : Label) where
  -- Over a lattice that `validate` accepts, where the matching rules give labels of the lattice,
  -- the effective label of a path, of a timeline and of a secret is a label of the lattice, and a label dominates
  -- it exactly when it dominates the label of every rule of that kind that matches.
  pub label_for_bounds :
      validate l ≡ ok tt
      → contains l.labels c ≡ true
      → GivesLabels l (for_path name) set.rules
      → GivesLabels l (for_timeline name) set.rules
      → GivesLabels l (for_secret name) set.rules
      → ((contains l.labels (label_for_path set l name) ≡ true)
          × ((dominates l c (label_for_path set l name) ≡ true)
              ↔ AboveAll l (for_path name) c set.rules))
        × ((contains l.labels (label_for_timeline set l name) ≡ true)
            × ((dominates l c (label_for_timeline set l name) ≡ true)
                ↔ AboveAll l (for_timeline name) c set.rules))
        × ((contains l.labels (label_for_secret set l name) ≡ true)
            × ((dominates l c (label_for_secret set l name) ≡ true)
                ↔ AboveAll l (for_secret name) c set.rules))
  unfolding label_for_path label_for_timeline label_for_secret
  label_for_bounds valid lc gp gt gs = (
    join_rules_from_bottom l valid (for_path name) set.rules c gp lc,
    join_rules_from_bottom l valid (for_timeline name) set.rules c gt lc,
    join_rules_from_bottom l valid (for_secret name) set.rules c gs lc,
  )
