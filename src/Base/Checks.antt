-- ===== src/Base/Checks.antt =====
-- The outcome of a chain of checks: a refusal ends it, and a search in it may end for lack of fuel.
use mathlib.Core.Bool.{Bool, true, false}
use mathlib.Core.Option.{Option, none, some}
use mathlib.Core.Path.{◌≡◌, refl, subst}
use bole.Base.Results.{Result, ok, err, Error}

pub data Check (R T : Type 0) : Type 0 where
  stalled : Check R T
  refused : R → Check R T
  passed : T → Check R T

infixl 5 ◌>>=◌ ◌>>◌
unfoldable pub ◌>>=◌ : {R S T : Type 0} → Check R S → (S → Check R T) → Check R T
stalled >>= next = stalled
refused r >>= next = refused r
passed x >>= next = next x

abbrev pub ◌>>◌ : {R S T : Type 0} → Check R S → Check R T → Check R T
first >> second = first >>= (λ done. second)

unfoldable pub demand : {R : Type 0} → Bool → R → Check R (Unit {0})
demand true r = passed tt
demand false r = refused r

unfoldable pub of_result : {R T : Type 0} → (Error → R) → Result T → Check R T
of_result refusal (ok x) = passed x
of_result refusal (err e) = refused (refusal e)

-- The result of a search that takes fuel.
unfoldable pub of_search : {R T : Type 0} → Option T → Check R T
of_search none = stalled
of_search (some x) = passed x

-- Every result that the check passes has the property.
pub record Post {R T : Type 0} (P : T → Type 0) (c : Check R T) : Type 0 where
  pub holds : (x : T) → c ≡ passed x → P x

pub passed-Post : {R T : Type 0} (P : T → Type 0) {x : T} → P x → Post {R = R} P (passed x)
passed-Post P h = record { holds = λ y e. subst (passes P) e h }
  where
    passes : {R T : Type 0} → (T → Type 0) → Check R T → Type 0
    passes P (passed x) = P x
    passes P _ = Unit

pub >>=-Post :
    {R S T : Type 0} (P : T → Type 0) (m : Check R S) (f : S → Check R T)
    → ((a : S) → m ≡ passed a → Post P (f a))
    → Post P (m >>= f)
unfolding ◌>>=◌
>>=-Post P stalled f h = record { holds = λ x e. absurd (cc) }
>>=-Post P (refused r) f h = record { holds = λ x e. absurd (cc) }
>>=-Post P (passed a) f h = h a refl

pub demand-passed :
    {R : Type 0} (b : Bool) (r : R) {u : Unit {0}} → demand b r ≡ passed u → b ≡ true
unfolding demand
demand-passed true r h = refl
demand-passed false r h = absurd (cc)

abbrev pub Finishes : {R T : Type 0} → (R → Type 0) → Check R T → Type 0
Finishes P stalled = ⊥
Finishes P (refused r) = P r
Finishes P (passed x) = Unit

-- A check that ends, in a refusal only if it has the property.
pub record Ends {R T : Type 0} (P : R → Type 0) (c : Check R T) : Type 0 where
  pub ended : Finishes P c

pub >>=-Ends :
    {R S T : Type 0} (P : R → Type 0) (m : Check R S) (f : S → Check R T)
    → Ends P m
    → ((a : S) → Ends P (f a))
    → Ends P (m >>= f)
unfolding ◌>>=◌
>>=-Ends P stalled f h k = absurd h.ended
>>=-Ends P (refused r) f h k = record { ended = h.ended }
>>=-Ends P (passed a) f h k = k a

pub demand-Ends : {R : Type 0} (P : R → Type 0) (b : Bool) (r : R) → P r → Ends P (demand b r)
unfolding demand
demand-Ends P true r h = record { ended = tt }
demand-Ends P false r h = record { ended = h }

pub of_result-Ends :
    {R T : Type 0} (P : R → Type 0) (refusal : Error → R) (m : Result T)
    → ((e : Error) → P (refusal e))
    → Ends P (of_result refusal m)
unfolding of_result
of_result-Ends P refusal (ok x) h = record { ended = tt }
of_result-Ends P refusal (err e) h = record { ended = h e }

pub of_result-passed :
    {R T : Type 0} (refusal : Error → R) (m : Result T) {x : T}
    → of_result refusal m ≡ passed x
    → m ≡ ok x
unfolding of_result
of_result-passed refusal (ok y) h = cc
of_result-passed refusal (err e) h = absurd (cc)

pub of_search-Ends :
    {R T : Type 0} (P : R → Type 0) (m : Option T) {x : T} → m ≡ some x → Ends P (of_search m)
unfolding of_search
of_search-Ends P none h = absurd (cc)
of_search-Ends P (some y) h = record { ended = tt }

pub of_search-passed :
    (R : Type 0) {T : Type 0} (m : Option T) {x : T} → of_search {R = R} m ≡ passed x → m ≡ some x
unfolding of_search
of_search-passed R none h = absurd (cc)
of_search-passed R (some y) h = cc

pub >>=-pass :
    {R S T : Type 0} (m : Check R S) (f : S → Check R T) {a : S} {c : Check R T}
    → m ≡ passed a
    → f a ≡ c
    → (m >>= f) ≡ c
unfolding ◌>>=◌
>>=-pass m f e h = rw e h

pub demand-true : {R : Type 0} (b : Bool) (r : R) → b ≡ true → demand b r ≡ passed tt
unfolding demand
demand-true b r h = rw h refl

pub of_result-ok :
    {R T : Type 0} (refusal : Error → R) (m : Result T) {x : T}
    → m ≡ ok x
    → of_result refusal m ≡ passed x
unfolding of_result
of_result-ok refusal m h = rw h refl
