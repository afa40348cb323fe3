-- ===== src/Search.antt =====
-- The search over the object graph that `missing_closure` of src/sync/negotiate.rs and
-- `mark_reachable` of src/repo/mod.rs share: a stack, a set of the ids seen, and the ids found.
pub mod Needed
pub mod Unseen
pub mod Correct
use mathlib.Core.List.{foldl}
use bole.Base.{
  ℕ, zero, suc, ◌+◌, Bool, true, false, ◌||◌, Option, none, some, List, [], ◌∷◌, ◌++◌, bytes_eq,
  contains, length, if◌then◌else◌,
}
use bole.Base.Maps
use bole.Base.Maps.{Map}
use bole.Object.{Object}
use bole.Refs.{ObjectId}

-- The objects of a store by id.
abbrev pub Objects : Type 0
Objects = Map ObjectId Object

-- `stack.extend(ids)`, with the top of the stack first.
unfoldable pub extend : List ObjectId → List ObjectId → List ObjectId
extend stack [] = stack
extend stack (id ∷ ids) = extend (id ∷ stack) ids

abbrev pub State : Type 0
State = List ObjectId × List ObjectId × List ObjectId

module _ (skip : ObjectId → Bool) (edges : Object → List ObjectId) (store : Objects) where
  abbrev pub found :
      ObjectId → List ObjectId → List ObjectId → List ObjectId → Option Object → State
  found id stack seen out none = (stack, id ∷ seen, out)
  found id stack seen out (some obj) = (extend stack (edges obj), id ∷ seen, out ++ (id ∷ []))

  -- One round at the popped id: the stack, the ids seen and the ids found after it.
  unfoldable pub round : ObjectId → List ObjectId → List ObjectId → List ObjectId → State
  round id stack seen out =
      if skip id || contains seen id
      then (stack, seen, out)
      else found id stack seen out (Maps.get store id)

  -- The ids seen and found when the stack is empty. `none` is the end of the fuel.
  unfoldable pub search_loop :
      ℕ → List ObjectId → List ObjectId → List ObjectId → Option (List ObjectId × List ObjectId)
  unfolding round
  search_loop fuel [] seen out = some (seen, out)
  search_loop zero (id ∷ stack) seen out = none
  search_loop (suc fuel) (id ∷ stack) seen out =
      let (stack', seen', out') = round id stack seen out in search_loop fuel stack' seen' out'

-- The edges that leave the objects of the store: each object is expanded once at most.
unfoldable pub edge_count : (Object → List ObjectId) → Objects → ℕ
edge_count edges [] = 0
edge_count edges ((id, obj) ∷ store) = length (edges obj) + edge_count edges store

abbrev pub search_fuel : (Object → List ObjectId) → Objects → List ObjectId → ℕ
search_fuel edges store from = length from + edge_count edges store
