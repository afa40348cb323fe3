-- ===== src/Gc/Policy.antt =====
-- What `gc` of src/repo/mod.rs does to the objects that a pinned policy root names.
use bole.Base.{
  ◌||◌, ◌⊎◌, Bool, eq_iff, map, true, false, none, some, List, [], ◌∷◌, ◌≡◌, refl, arith, bytes_eq,
  contains, any, ◌==◌, Bool-cases, inl, inr, ap, some-injective, ◌∙◌, ℕ,
}
use bole.Base.Maps
use bole.Object.{
  Object, snapshot, tree, env_overlay, policy, root, PolicyRoot, TreeEntry, EnvValue, plain,
  secret_ref,
}
use bole.Refs.{ObjectId, Refs}
use bole.Search.{Objects}
use bole.Search.Needed.{start, child}
use bole.Negotiate.{child_edges, option_list, secret_refs}
use bole.Negotiate.Closure.{Reachable}
use bole.Gc.{marks, gc_roots, gc}
use bole.Gc.Reached.{Live, gc-KeepsLive, kept-Live, gone_dead}

eq_flip : (x y : ObjectId) → (x == y) ≡ (y == x)
eq_flip x y = ground arith

-- The ids that a policy root names are its child edges.
named_child :
    (r : PolicyRoot) (x : ObjectId)
    → (x ≡ r.lattice) ⊎ ((x ≡ r.rules) ⊎ (r.parent ≡ some x))
    → contains (r.lattice ∷ r.rules ∷ option_list r.parent) x ≡ true
named_child r x (inl e) = ground (arith, (eq_iff x r.lattice).1 e)
named_child r x (inr (inl e)) = ground (arith, (eq_iff x r.rules).1 e)
named_child r x (inr (inr e)) = rw (ap option_list e) (ground (arith, (eq_iff x x).1 refl))

-- Does a snapshot, a tree or an overlay have the id among what it is made of? No other object has.
abbrev pub is_secret : ObjectId → EnvValue → Bool
is_secret x (plain text) = false
is_secret x (secret_ref id) = id == x

abbrev pub composed_of : Object → ObjectId → Bool
composed_of (snapshot s) x = s.root == x || contains s.parents x
composed_of (tree t) x = any (λ (e : TreeEntry). e.id == x) (Maps.values t.entries)
composed_of (env_overlay o) x = any (is_secret x) (Maps.values o.entries)
composed_of _ x = false

-- No object in the store is composed of the id.
abbrev pub Uncomposed : Objects → ObjectId → Type 0
Uncomposed store x =
    (y : ObjectId) (o : Object) → Maps.get store y ≡ some o → composed_of o x ≡ false

-- The objects in the store that are composed of an id are found by a walk over it.
pub Uncomposed-intro :
    (store : Objects) (x : ObjectId)
    → any (λ (entry : ObjectId × Object). composed_of entry.1 x) store ≡ false
    → Uncomposed store x
unfolding Maps.get
Uncomposed-intro [] x h y obj stored = absurd (cc)
Uncomposed-intro ((id, o) ∷ store) x h y obj stored = elim (Bool-cases (y == id)) [
  | inl e ↦
      let same : o ≡ obj = ground (arith, some-injective o obj) in
      ground (arith, h, ap (λ (z : Object). composed_of z x) same)
  | inr n ↦ Uncomposed-intro store x (ground arith) y obj (ground arith)
]

contains-entries :
    (entries : List TreeEntry) (x : ObjectId)
    → contains (map TreeEntry.id entries) x ≡ any (λ (e : TreeEntry). e.id == x) entries
contains-entries [] x = refl
contains-entries (e ∷ entries) x = ground (arith, contains-entries entries x, eq_flip x e.id)

contains-secret_refs :
    (values : List EnvValue) (x : ObjectId)
    → contains (secret_refs values) x ≡ any (is_secret x) values
unfolding secret_refs
contains-secret_refs [] x = refl
contains-secret_refs (plain text ∷ values) x = contains-secret_refs values x
contains-secret_refs (secret_ref id ∷ values) x =
    ground (arith, contains-secret_refs values x, eq_flip x id)

-- What is pushed for an object is what it is composed of.
contains-marks : (o : Object) (x : ObjectId) → contains (marks o) x ≡ composed_of o x
unfolding marks
contains-marks (snapshot s) x = ground (arith, eq_flip x s.root)
contains-marks (tree t) x = contains-entries (Maps.values t.entries) x
contains-marks (env_overlay o) x = contains-secret_refs (Maps.values o.entries) x
contains-marks (Object.blob a) x = refl
contains-marks (Object.secret a) x = refl
contains-marks (Object.policy a) x = refl
contains-marks (Object.secret_v2 a) x = refl
contains-marks (Object.multi_recipient_secret a) x = refl
contains-marks (Object.collab a) x = refl
contains-marks (Object.change_proposal a) x = refl
contains-marks (Object.review_comment a) x = refl
contains-marks (Object.post a) x = refl
contains-marks (Object.repo_record a) x = refl

-- An id that is no root of the marking, and that no object in the store is composed of, is not live.
Uncomposed-dead :
    (store : Objects) (roots : List ObjectId) (x : ObjectId)
    → contains roots x ≡ false
    → Uncomposed store x
    → ¬ Live store roots x
Uncomposed-dead store roots x n h (start m k) = cc
Uncomposed-dead store roots x n h (child {x = y} k r e) =
    let (obj, stored, m) = r in cc (m, contains-marks obj x, h y obj stored)

-- Where a root of the marking is a stored policy root, `gc` keeps it and removes each of its lattice,
-- its rules and its parent that is neither a root of the marking itself nor a part of a stored
-- snapshot, tree or overlay, although child edges lead to it from the roots.
pub gc-policy_root :
    (refs : Refs) (store : Objects) (extra_roots : List ObjectId) (id : ObjectId) (r : PolicyRoot)
    (x : ObjectId)
    → contains (gc_roots refs extra_roots) id ≡ true
    → Maps.get store id ≡ some (policy (root r))
    → (x ≡ r.lattice) ⊎ ((x ≡ r.rules) ⊎ (r.parent ≡ some x))
    → contains (gc_roots refs extra_roots) x ≡ false
    → Uncomposed store x
    → (store' : Objects) × (n : ℕ) × (gc refs store extra_roots ≡ some (store', n))
      × (Maps.get store' id ≡ some (policy (root r)))
      × Reachable store' (gc_roots refs extra_roots) x
      × (Maps.get store' x ≡ none)
unfolding child_edges
gc-policy_root refs store extra_roots id r x pinned stored named free uncomposed =
    let (store', n, done, counted, keeps) = gc-KeepsLive refs store extra_roots in
    let roots = gc_roots refs extra_roots in
    let stays = kept-Live store roots store' keeps id (start pinned refl) ∙ stored in
    (
      store',
      n,
      done,
      stays,
      child (start pinned refl) (policy (root r), stays, named_child r x named) refl,
      gone_dead store roots store' keeps x (Uncomposed-dead store roots x free uncomposed),
    )
