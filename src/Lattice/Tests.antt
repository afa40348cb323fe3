-- ===== src/Lattice/Tests.antt =====
-- The two-point lattice and the diamond of the unit tests, and the theorems at them.
use bole.Base.{
  true, false, [], ◌∷◌, ◌≡◌, refl, ◌↔◌, bytes, bytes_discrete, ℕ_discrete, pair_discrete, bytes_cmp,
  pair_cmp, each, ok, contains, bytes_eq, ◌≢◌,
}
use bole.Lattice.{
  LabelLattice, public, protected, two_point, dominates, join, validate, check_edges, check_cycles,
  check_pair, upper_bounds, lower_bounds,
}
use bole.Lattice.Reach.{Below, dominates_iff}
use bole.Lattice.Bounds.{IsJoin, join-IsJoin}

abbrev diamond : LabelLattice
diamond = record {
  labels = bytes "a" ∷ bytes "b" ∷ bytes "bottom" ∷ bytes "top" ∷ [];
  cover =
      (bytes "a", bytes "top")
      ∷ (bytes "b", bytes "top")
      ∷ (bytes "bottom", bytes "a")
      ∷ (bytes "bottom", bytes "b")
      ∷ [];
}

two_point_order :
    (dominates two_point protected public ≡ true) × (dominates two_point public protected ≡ false)
unfolding dominates two_point bytes_cmp pair_cmp bytes_discrete ℕ_discrete pair_discrete
two_point_order = (refl, refl)

diamond-join : join diamond (bytes "a") (bytes "b") ≡ bytes "top"
unfolding join dominates bytes_discrete ℕ_discrete
diamond-join = refl

diamond_valid : validate diamond ≡ ok tt
unfolding validate check_edges check_cycles check_pair upper_bounds lower_bounds each dominates
    bytes_discrete ℕ_discrete
diamond_valid = refl

missing_top :
    validate (record {
      labels = bytes "a" ∷ bytes "b" ∷ bytes "bottom" ∷ [];
      cover = (bytes "bottom", bytes "a") ∷ (bytes "bottom", bytes "b") ∷ [];
    })
    ≢ ok tt
unfolding validate check_edges check_cycles check_pair upper_bounds lower_bounds each dominates
    bytes_discrete ℕ_discrete
missing_top h = cc

is_a : contains diamond.labels (bytes "a") ≡ true
unfolding bytes_discrete ℕ_discrete
is_a = refl

is_b : contains diamond.labels (bytes "b") ≡ true
unfolding bytes_discrete ℕ_discrete
is_b = refl

a_self : dominates diamond (bytes "a") (bytes "a") ≡ true
unfolding dominates bytes_discrete ℕ_discrete
a_self = refl

dominates_iff_example :
    (dominates diamond (bytes "top") (bytes "a") ≡ true)
    ↔ Below diamond.cover (bytes "a") (bytes "top")
dominates_iff_example = dominates_iff diamond (bytes "top") (bytes "a")

join-IsJoin_example : IsJoin diamond (bytes "a") (bytes "b") (join diamond (bytes "a") (bytes "b"))
join-IsJoin_example = join-IsJoin diamond diamond_valid (bytes "a") (bytes "b") is_a is_b

pub two_point_valid : validate two_point ≡ ok tt
unfolding validate two_point bytes_cmp pair_cmp check_edges check_cycles check_pair upper_bounds
    lower_bounds each dominates bytes_discrete ℕ_discrete
two_point_valid = refl
