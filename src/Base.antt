-- ===== src/Base.antt =====
-- The names that every module shares: the libraries', passed on, and those of the children.
mod Logic
mod Lists
mod Equality
mod Sets
pub mod Maps
pub mod Bits
pub mod Slices
pub mod Checks
mod Results
pub use Logic.*
pub use Lists.*
pub use Equality.*
pub use Sets.*
pub use Results.*
pub use Prim.Native.Nat.{ℕ, zero, suc, ◌+◌, ◌-◌, ◌*◌, ◌/◌, ◌%◌, ◌^◌, ◌≤◌, ◌<◌}
pub use Prim.Native.String.{String}
pub use mathlib.Core.Path.{◌≡◌, refl, sym, ap, ap₂, subst, ◌∙◌}
pub use mathlib.Core.Logic.{◌≢◌, ◌↔◌, ◌⊎◌, inl, inr}
pub use mathlib.Core.Bool.{Bool, true, false, ◌&&◌, ◌||◌, not}
pub use mathlib.Core.Option.{Option, none, some, some-injective}
pub use mathlib.Core.List.{List, [], ◌∷◌, ◌++◌, map}
pub use native.Mathlib.Omega.{arith}
unfoldable pub use Equality.{bytes_discrete, pair_discrete, option_discrete}
unfoldable pub use Lists.{starts_with}
unfoldable pub use Sets.{bytes_cmp, pair_cmp, set_insert, collect_set}
unfoldable pub use Results.{each}
unfoldable pub use native.Mathlib.Decide.{ℕ_discrete}
