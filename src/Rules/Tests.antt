-- ===== src/Rules/Tests.antt =====
-- Rules over the two-point lattice.
use bole.Base.{
  subst, some-inv, true, [], ◌∷◌, ◌≡◌, refl, ◌↔◌, bytes, bytes_eq, contains, bytes_discrete,
  ℕ_discrete, pair_discrete, bytes_cmp, pair_cmp,
}
use bole.Glob.{glob_matches}
use bole.Lattice.{public, protected, join, bottom, two_point, dominates}
use bole.Lattice.Tests.{two_point_valid}
use bole.Rules.{
  LabelRuleSet, path, for_path, for_timeline, for_secret, label_for_path, label_for_timeline,
  label_for_secret,
}
use bole.Rules.Bounds.{GivesLabels, AboveAll, label_for_bounds}

abbrev secrets_rule : LabelRuleSet
secrets_rule = record { rules = path (bytes "secrets/**") protected ∷ [] }

secret_is_protected : label_for_path secrets_rule two_point (bytes "secrets/prod.key") ≡ protected
unfolding label_for_path two_point dominates join bottom glob_matches bytes_cmp pair_cmp
    bytes_discrete ℕ_discrete pair_discrete
secret_is_protected = refl

source_is_public : label_for_path secrets_rule two_point (bytes "src/main.rs") ≡ public
unfolding label_for_path two_point dominates join bottom glob_matches bytes_cmp pair_cmp
    bytes_discrete ℕ_discrete pair_discrete
source_is_public = refl

protected_label : contains two_point.labels protected ≡ true
unfolding two_point bytes_cmp pair_cmp bytes_discrete ℕ_discrete
protected_label = refl

gives_paths : GivesLabels two_point (for_path (bytes "secrets/a")) secrets_rule.rules
unfolding for_path
gives_paths = (
  (λ x e.
      subst (λ z. contains two_point.labels z ≡ true)
        (some-inv (glob_matches (bytes "secrets/**") (bytes "secrets/a")) e) protected_label),
  tt,
)

gives_timelines : GivesLabels two_point (for_timeline (bytes "secrets/a")) secrets_rule.rules
unfolding for_timeline
gives_timelines = ((λ x e. absurd (cc)), tt)

gives_secrets : GivesLabels two_point (for_secret (bytes "secrets/a")) secrets_rule.rules
unfolding for_secret
gives_secrets = ((λ x e. absurd (cc)), tt)

label_for_bounds_example :
    ((contains two_point.labels (label_for_path secrets_rule two_point (bytes "secrets/a")) ≡ true)
      × ((dominates two_point protected (label_for_path secrets_rule two_point (bytes "secrets/a"))
            ≡ true)
          ↔ AboveAll two_point (for_path (bytes "secrets/a")) protected secrets_rule.rules))
    × ((contains two_point.labels (label_for_timeline secrets_rule two_point (bytes "secrets/a"))
          ≡ true)
        × ((dominates two_point protected
                (label_for_timeline secrets_rule two_point (bytes "secrets/a"))
              ≡ true)
            ↔ AboveAll two_point (for_timeline (bytes "secrets/a")) protected secrets_rule.rules))
    × ((contains two_point.labels (label_for_secret secrets_rule two_point (bytes "secrets/a"))
          ≡ true)
        × ((dominates two_point protected
                (label_for_secret secrets_rule two_point (bytes "secrets/a"))
              ≡ true)
            ↔ AboveAll two_point (for_secret (bytes "secrets/a")) protected secrets_rule.rules))
label_for_bounds_example =
    label_for_bounds secrets_rule two_point (bytes "secrets/a") protected two_point_valid
      protected_label gives_paths gives_timelines gives_secrets
