-- ===== src/Search/Needed.antt =====
-- What a search over the object graph must visit, and lemmas on its stack.
use bole.Base.{
  is_some, ◌+◌, Bool, true, false, ◌||◌, some, List, [], ◌∷◌, ◌++◌, ◌≡◌, refl, arith, bytes_eq,
  ◌==◌, contains, length,
}
use bole.Base.Maps
use bole.Object.{Object}
use bole.Refs.{ObjectId}
use bole.Search.{Objects, extend}

pub length-extend :
    (stack ids : List ObjectId) → length (extend stack ids) ≡ length stack + length ids
unfolding extend
length-extend stack [] = omega arith
length-extend stack (id ∷ ids) = omega (arith, length-extend (id ∷ stack) ids)

pub contains-extend :
    (stack ids : List ObjectId) (x : ObjectId)
    → contains (extend stack ids) x ≡ (contains ids x || contains stack x)
unfolding extend
contains-extend stack [] x = refl
contains-extend stack (id ∷ ids) x = ground (arith, contains-extend (id ∷ stack) ids x)

pub contains-snoc :
    (xs : List ObjectId) (y x : ObjectId)
    → contains (xs ++ (y ∷ [])) x ≡ (contains xs x || (x == y))
contains-snoc [] y x = ground arith
contains-snoc (z ∷ xs) y x = ground (arith, contains-snoc xs y x)

-- An object is stored under the id.
unfoldable pub present : Objects → ObjectId → Bool
present store x = is_some (Maps.get store x)

-- `y` is one of the ids that the object stored under `x` refers to.
abbrev pub Refers : (Object → List ObjectId) → Objects → ObjectId → ObjectId → Type 0
Refers edges store x y =
    (obj : Object) × (Maps.get store x ≡ some obj) × (contains (edges obj) y ≡ true)

module _ (skip : ObjectId → Bool) (edges : Object → List ObjectId) (store : Objects)
    (from : List ObjectId) where
  -- What a search from `from` must visit: it stops at the ids that `skip` names.
  pub data Needed : ObjectId → Type 0 where
    start : {x : ObjectId} → contains from x ≡ true → skip x ≡ false → Needed x
    child : {x y : ObjectId} → Needed x → Refers edges store x y → skip y ≡ false → Needed y

-- A search from more ids needs no less.
pub Needed-mono :
    {skip : ObjectId → Bool} {edges : Object → List ObjectId} {store : Objects}
    (from from' : List ObjectId)
    → ((x : ObjectId) → contains from x ≡ true → contains from' x ≡ true)
    → {x : ObjectId} → Needed skip edges store from x
    → Needed skip edges store from' x
Needed-mono from from' f (start m n) = start (f _ m) n
Needed-mono from from' f (child k r n) = child (Needed-mono from from' f k) r n
