-- ===== src/Search/Unseen.antt =====
-- The measure of a search: the edges of the objects that it has not seen.
use bole.Base.{
  ℕ, ◌+◌, ◌≤◌, false, some, List, [], ◌∷◌, ◌≡◌, inl, inr, arith, bytes_eq, ◌==◌, contains, length,
  if◌then◌else◌, Bool-cases,
}
use bole.Base.Maps
use bole.Object.{Object}
use bole.Refs.{ObjectId}
use bole.Search.{Objects, edge_count}

module _ (edges : Object → List ObjectId) where
  -- The edges of the objects that were not seen bound the pushes that are left.
  pub unseen : Objects → List ObjectId → ℕ
  unseen [] seen = 0
  unseen ((id, obj) ∷ objs) seen =
      (if contains seen id then 0 else length (edges obj)) + unseen objs seen

  pub unseen-le-edge_count :
      (objs : Objects) (seen : List ObjectId) → unseen objs seen ≤ edge_count edges objs
  unfolding unseen edge_count
  unseen-le-edge_count [] seen = omega arith
  unseen-le-edge_count ((id, obj) ∷ objs) seen = ground (arith, unseen-le-edge_count objs seen)

  pub unseen_mono :
      (objs : Objects) (seen : List ObjectId) (x : ObjectId)
      → unseen objs (x ∷ seen) ≤ unseen objs seen
  unfolding unseen
  unseen_mono [] seen x = omega arith
  unseen_mono ((id, obj) ∷ objs) seen x = ground (arith, unseen_mono objs seen x)

  pub unseen-cons :
      (objs : Objects) (seen : List ObjectId) (x : ObjectId) (obj : Object)
      → Maps.get objs x ≡ some obj
      → contains seen x ≡ false
      → unseen objs (x ∷ seen) + length (edges obj) ≤ unseen objs seen
  unfolding unseen Maps.get
  unseen-cons [] seen x obj h n = absurd (cc)
  unseen-cons ((id, o) ∷ objs) seen x obj h n = elim (Bool-cases (x == id)) [
    | inl p ↦ ground (arith, unseen_mono objs seen x, h)
    | inr q ↦ ground (arith, unseen-cons objs seen x obj, unseen_mono objs seen x, h)
  ]
