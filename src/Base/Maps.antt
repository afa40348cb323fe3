-- ===== src/Base/Maps.antt =====
-- HashMap and BTreeMap: an association list. Proofs elsewhere go by the laws of `get`.
use mathlib.Core.Path.{◌≡◌, refl}
use mathlib.Core.Logic.{◌↔◌}
use mathlib.Core.Option.{Option, none, some}
use mathlib.Core.Bool.{false}
use mathlib.Core.List.{List, [], ◌∷◌}
use native.Mathlib.Omega.{arith}
use bole.Base.Logic.{if◌then◌else◌, is_some}
use bole.Base.Equality.{Eq, ◌==◌, contains}

abbrev pub Map {ℓ κ} : Type ℓ → Type κ → Type (ℓ ⊔ κ)
Map K V = List (K × V)

unfoldable pub keys {ℓ κ} : {K : Type ℓ} {V : Type κ} → Map K V → List K
keys [] = []
keys ((k, v) ∷ m) = k ∷ keys m

unfoldable pub values {ℓ κ} : {K : Type ℓ} {V : Type κ} → Map K V → List V
values [] = []
values ((k, v) ∷ m) = v ∷ values m

module _ {ℓ κ} {K : Type ℓ} {V : Type κ} ⦃e : Eq K⦄ where
  unfoldable pub get : Map K V → K → Option V
  get [] k = none
  get ((j, v) ∷ m) k = if k == j then some v else get m k

  -- A new key goes to the end, an old one keeps its place.
  unfoldable pub insert : Map K V → K → V → Map K V
  insert [] k v = (k, v) ∷ []
  insert ((j, w) ∷ m) k v = let rest = insert m k v in if k == j then (k, v) ∷ m else (j, w) ∷ rest

  unfoldable pub remove : Map K V → K → Map K V
  remove [] k = []
  remove ((j, w) ∷ m) k = let rest = remove m k in if k == j then rest else (j, w) ∷ rest

  pub get-insert :
      (m : Map K V) (k : K) (v : V) (j : K)
      → get (insert m k v) j ≡ (if j == k then some v else get m j)
  unfolding get insert
  get-insert [] k v j = refl
  get-insert ((i, w) ∷ m) k v j = ground (arith, get-insert m k v j)

  pub get-remove : (m : Map K V) (k j : K) → get (remove m k) j ≡ (if j == k then none else get m j)
  unfolding get remove
  get-remove [] k j = ground arith
  get-remove ((i, w) ∷ m) k j = ground (arith, get-remove m k j)

  -- The keys of a map are those that it gives a value.
  pub contains-keys : (m : Map K V) (k : K) → (contains (keys m) k ≡ false) ↔ (get m k ≡ none)
  unfolding keys get
  contains-keys [] k = (λ _. refl, λ _. refl)
  contains-keys ((j, w) ∷ m) k = ground (arith, contains-keys m k)

  pub contains-keys_some : (m : Map K V) (k : K) → contains (keys m) k ≡ is_some (get m k)
  unfolding keys get
  contains-keys_some [] k = refl
  contains-keys_some ((j, w) ∷ m) k = ground (arith, contains-keys_some m k)

  -- No key stands twice.
  abbrev pub NodupKeys : Map K V → Type κ
  NodupKeys [] = Unit
  NodupKeys ((k, v) ∷ m) = (get m k ≡ none) × NodupKeys m

  pub insert-NodupKeys : (m : Map K V) (k : K) (v : V) → NodupKeys m → NodupKeys (insert m k v)
  unfolding insert get
  insert-NodupKeys [] k v u = (refl, tt)
  insert-NodupKeys ((j, w) ∷ m) k v (fresh, u) =
      ground (arith, insert-NodupKeys m k v u, get-insert m k v j)
