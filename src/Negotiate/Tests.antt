-- ===== src/Negotiate/Tests.antt =====
-- Runs of the negotiation of src/sync/negotiate.rs.
use bole.Base.{
  some, List, [], ◌∷◌, ◌≡◌, ◌↔◌, true, refl, bytes, bytes_eq, bytes_discrete, contains, ℕ_discrete,
}
use bole.Base.Maps
use bole.Object.{Object, snapshot, tree, blob, blob_entry}
use bole.Refs.{ObjectId}
use bole.Search.{Objects, search_loop, round, edge_count, extend}
use bole.Search.Needed.{Needed, start, child, present}
use bole.Negotiate.{child_edges, missing_closure}
use bole.Negotiate.Closure.{Closed, Closed-intro, Reachable, missing_closure_iff}

abbrev first_id : ObjectId
first_id = bytes "s1"

abbrev second_id : ObjectId
second_id = bytes "s2"

abbrev tree_id : ObjectId
tree_id = bytes "t"

abbrev blob_id : ObjectId
blob_id = bytes "b"

abbrev second : Object
second =
    snapshot (record {
      root = tree_id;
      parents = first_id ∷ [];
      author = [];
      created_at = 2;
      message = [];
    })

abbrev first : Object
first =
    snapshot (record { root = tree_id; parents = []; author = []; created_at = 1; message = [] })

-- Two snapshots of one tree, the first the parent of the second.
abbrev store : Objects
store =
    (second_id, second)
    ∷ (first_id, first)
    ∷ (
      tree_id,
      tree (record { entries = (bytes "a.txt", record { id = blob_id; kind = blob_entry }) ∷ [] }),
    )
    ∷ (blob_id, blob (record { bytes = bytes "text" }))
    ∷ []

abbrev have : List ObjectId
have = first_id ∷ tree_id ∷ blob_id ∷ []

sends_new : missing_closure store (second_id ∷ []) have ≡ some (second_id ∷ [])
unfolding missing_closure search_loop round edge_count extend child_edges Maps.get Maps.values
    bytes_discrete ℕ_discrete
sends_new = refl

sends_all :
    missing_closure store (second_id ∷ []) [] ≡ some (second_id ∷ first_id ∷ tree_id ∷ blob_id ∷ [])
unfolding missing_closure search_loop round edge_count extend child_edges Maps.get Maps.values
    bytes_discrete ℕ_discrete
sends_all = refl

abbrev wants : List ObjectId
wants = second_id ∷ []

missing_closure_iff_example :
    (out : List ObjectId) × (missing_closure store wants have ≡ some out)
    × ((x : ObjectId)
        → (contains out x ≡ true)
          ↔ (Needed (contains have) child_edges store wants x × (present store x ≡ true)))
missing_closure_iff_example = missing_closure_iff store wants have

have-Closed : Closed store wants have
unfolding child_edges Maps.get Maps.values bytes_discrete ℕ_discrete
have-Closed = Closed-intro store wants have refl

first-Reachable : Reachable store wants first_id
unfolding child_edges Maps.get Maps.values bytes_discrete ℕ_discrete
first-Reachable = child {x = second_id} (start refl refl) (second, refl, refl) refl
