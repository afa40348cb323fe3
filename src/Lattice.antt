-- ===== src/Lattice.antt =====
-- src/acl/lattice.rs: labels, their order by reachability over covering edges, bounds of labels,
-- and the check that a configuration is a bounded lattice.
pub mod Reach
pub mod Bounds
pub mod Tests
use bole.Base.{
  ℕ, zero, suc, ◌+◌, Bool, true, false, ◌&&◌, ◌||◌, not, Option, none, some, List, [], ◌∷◌, Bytes,
  bytes, ◌==◌, bytes_eq, pair_eq, bytes_ord, pair_ord, contains, length, any, all, filter, find,
  if◌then◌else◌, collect_set, Error, storage, Result, ok, err, ◌>>=◌, ◌>>◌, require, each,
}

-- `Label(pub String)`
abbrev pub Label : Type 0
Label = Bytes

-- A covering edge (lower, higher).
abbrev pub Edge : Type 0
Edge = Label × Label

abbrev pub public : Label
public = bytes "public"

abbrev pub protected : Label
protected = bytes "protected"

-- The two sets are lists in ascending order.
pub record LabelLattice : Type 0 where
  pub labels : List Label
  pub cover : List Edge

unfoldable pub new : List Label → List Edge → LabelLattice
new labels cover = record { labels = collect_set labels; cover = collect_set cover }

unfoldable pub two_point : LabelLattice
unfolding new collect_set
two_point = new (public ∷ protected ∷ []) ((public, protected) ∷ [])

-- What the `for` loop over the edges comes to: it returns, or leaves a stack and a set behind.
pub data Scan : Type 0 where
  found : Scan
  more : List Label → List Label → Scan

-- The `for` loop of `dominates` at the popped label `cur`.
pub scan : Label → Label → List Edge → List Label → List Label → Scan
scan a cur [] stack seen = more stack seen
scan a cur ((lo, hi) ∷ es) stack seen =
    let skipped = scan a cur es stack seen in
    let pushed = scan a cur es (hi ∷ stack) (hi ∷ seen) in
    if lo == cur
    then (if hi == a then found else if contains seen hi then skipped else pushed)
    else skipped

-- The `while` loop of `dominates`, the end of the vector first. `none` is the end of the fuel.
pub dominates_loop : ℕ → Label → List Edge → List Label → List Label → Option Bool
dominates_loop fuel a cover [] seen = some false
dominates_loop zero a cover (cur ∷ stack) seen = none
dominates_loop (suc fuel) a cover (cur ∷ stack) seen = elim (scan a cur cover stack seen) [
  | found ↦ some true
  | more stack' seen' ↦ dominates_loop fuel a cover stack' seen'
]

-- Each label is pushed once for an edge that leads to it, and `b` once more.
pub dominates_run : LabelLattice → Label → Label → Option Bool
dominates_run l a b =
    if a == b then some true else dominates_loop (length l.cover + 1) a l.cover (b ∷ []) []

abbrev pub answer : Option Bool → Bool
answer none = false
answer (some b) = b

unfoldable pub dominates : LabelLattice → Label → Label → Bool
unfolding dominates_run dominates_loop scan
dominates l a b = answer (dominates_run l a b)

unfoldable pub strictly_dominates : LabelLattice → Label → Label → Bool
strictly_dominates l a b = not (a == b) && dominates l a b

pub upper_bounds : LabelLattice → Label → Label → List Label
upper_bounds l a b = filter (λ x. dominates l x a && dominates l x b) l.labels

pub lower_bounds : LabelLattice → Label → Label → List Label
lower_bounds l a b = filter (λ x. dominates l a x && dominates l b x) l.labels

-- Is `c` below every bound in the list?
abbrev pub is_least : LabelLattice → List Label → Label → Bool
is_least l bs c = all (λ o. dominates l o c) bs

abbrev pub is_greatest : LabelLattice → List Label → Label → Bool
is_greatest l bs c = all (λ o. dominates l c o) bs

abbrev pub unwrap_or : Option Label → Label → Label
unwrap_or none d = d
unwrap_or (some x) d = x

unfoldable pub bottom : LabelLattice → Label
bottom l = unwrap_or (find (is_least l l.labels) l.labels) public

unfoldable pub top : LabelLattice → Label
top l = unwrap_or (find (is_greatest l l.labels) l.labels) public

unfoldable pub join : LabelLattice → Label → Label → Label
unfolding upper_bounds top
join l a b = let ubs = upper_bounds l a b in unwrap_or (find (is_least l ubs) ubs) (top l)

unfoldable pub meet : LabelLattice → Label → Label → Label
unfolding lower_bounds bottom
meet l a b = let lbs = lower_bounds l a b in unwrap_or (find (is_greatest l lbs) lbs) (bottom l)

abbrev pub is_empty {ℓ} : {A : Type ℓ} → List A → Bool
is_empty [] = true
is_empty (x ∷ xs) = false

abbrev pub count_is_one {ℓ} : {A : Type ℓ} → List A → Bool
count_is_one (x ∷ []) = true
count_is_one _ = false

pub check_edges : LabelLattice → Result (Unit {0})
check_edges l =
    each
      (λ (lo, hi).
        require (contains l.labels lo && contains l.labels hi)
          (storage "cover edge references an unknown label"))
      l.cover

pub check_cycles : LabelLattice → Result (Unit {0})
check_cycles l =
    each
      (λ a.
        each
          (λ b.
            require (not (not (a == b) && dominates l a b && dominates l b a))
              (storage "cycle: two labels mutually dominate"))
          l.labels)
      l.labels

-- The body of the last pair of loops.
pub check_pair : LabelLattice → Label → Label → Result (Unit {0})
check_pair l a b = do
  let ubs = upper_bounds l a b
  require (count_is_one (filter (is_least l ubs) ubs)) (storage "pair lacks a unique join")
  let lbs = lower_bounds l a b
  require (count_is_one (filter (is_greatest l lbs) lbs)) (storage "pair lacks a unique meet")

pub validate : LabelLattice → Result (Unit {0})
validate l = do
  require (not (is_empty l.labels)) (storage "lattice has no labels")
  check_edges l
  check_cycles l
  require (count_is_one (filter (is_least l l.labels) l.labels))
      (storage "expected exactly one bottom")
  require (count_is_one (filter (is_greatest l l.labels) l.labels))
      (storage "expected exactly one top")
  each (λ a. each (λ b. check_pair l a b) l.labels) l.labels
