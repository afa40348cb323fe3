-- ===== src/Glob/Tests.antt =====
-- Unit tests of glob.rs, and the theorems at concrete patterns.
use bole.Base.{◌≤◌, true, false, ◌≡◌, refl, ◌↔◌, bytes, ℕ_discrete, pair_discrete, length}
use bole.Glob.{glob_matches, max_glob_len}
use bole.Glob.Spec.{Matches}
use bole.Glob.Correct.{glob_matches_iff}

double_star_in_middle : glob_matches (bytes "a/**/z") (bytes "a/b/c/z") ≡ true
unfolding glob_matches ℕ_discrete pair_discrete
double_star_in_middle = refl

double_star_zero : glob_matches (bytes "a/**/z") (bytes "a/z") ≡ true
unfolding glob_matches ℕ_discrete pair_discrete
double_star_zero = refl

one_segment_only : glob_matches (bytes "src/*/mod.rs") (bytes "src/a/b/mod.rs") ≡ false
unfolding glob_matches ℕ_discrete pair_discrete
one_segment_only = refl

trailing_requires_descendant : glob_matches (bytes "src/**") (bytes "src") ≡ false
unfolding glob_matches ℕ_discrete pair_discrete
trailing_requires_descendant = refl

many_double_stars : glob_matches (bytes "**/**/**/**/**/**/x") (bytes "a/a/a/a/a/a/a/a/a/a") ≡ false
unfolding glob_matches ℕ_discrete pair_discrete
many_double_stars = refl

glob_matches_iff_example : (glob_matches (bytes "*.rs") (bytes "main.rs") ≡ true) ↔ (
    (length (bytes "*.rs") ≤ max_glob_len)
    × (length (bytes "main.rs") ≤ max_glob_len)
    × Matches (bytes "*.rs") (bytes "main.rs"))
glob_matches_iff_example = glob_matches_iff (bytes "*.rs") (bytes "main.rs")
