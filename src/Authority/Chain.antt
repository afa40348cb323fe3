-- ===== src/Authority/Chain.antt =====
-- What `chain_of` of src/acl/authority.rs finds.
use mathlib.Core.List.{append-nil}
use bole.Base.{
  ℕ, zero, suc, ◌+◌, ◌≤◌, ◌<◌, true, Option, none, some, some-injective, List, [], ◌∷◌, ◌++◌, ◌≡◌,
  inl, inr, refl, sym, ap, ◌∙◌, subst, arith, bytes_eq, bytes_ord, ◌==◌, eq_iff, contains,
  contains-append, length, length-append, Bool-cases, Option-cases, set_insert, contains-set_insert,
  Result, ok, err, policy_violation,
}
use bole.Base.Maps
use bole.Object.{PolicyRoot}
use bole.Refs.{ObjectId}
use bole.Search.{Objects}
use bole.Merge.Rounds.{left, left-set_insert, left-le-length}
use bole.Authority.{load_root, chain_loop, chain_of}

-- The roots from an id up by their parents, to one without a parent.
pub data Lineage (store : Objects) : Option ObjectId → List ObjectId → Type 0 where
  done : Lineage store none []
  step :
      {id : ObjectId} {r : PolicyRoot} {ids : List ObjectId}
      → load_root store id ≡ some r
      → Lineage store r.parent ids
      → Lineage store (some id) (id ∷ ids)

module _ (store : Objects) where
  -- An id has one lineage at most.
  pub Lineage-unique :
      (c : Option ObjectId) (xs ys : List ObjectId)
      → Lineage store c xs
      → Lineage store c ys
      → xs ≡ ys
  Lineage-unique none [] [] done done = refl
  Lineage-unique none [] (y ∷ ys) l k = elim k [ ]
  Lineage-unique none (x ∷ xs) ys l k = elim l [ ]
  Lineage-unique (some id) [] ys l k = elim l [ ]
  Lineage-unique (some id) (x ∷ xs) [] l k = elim k [ ]
  Lineage-unique (some id) (x ∷ xs) (y ∷ ys) (step {r = r} e l) (step {r = s} f k) =
      ap (λ zs. id ∷ zs)
        (Lineage-unique s.parent xs ys
          (subst (λ (z : PolicyRoot). Lineage store z.parent xs) (some-injective r s (sym e ∙ f)) l)
          k)

  -- From an id in the middle there is a lineage that is longer than what follows.
  Lineage-from :
      (c : Option ObjectId) (xs rest : List ObjectId) (id : ObjectId)
      → Lineage store c (xs ++ rest)
      → contains xs id ≡ true
      → (ys : List ObjectId) × Lineage store (some id) ys × (length rest < length ys)
  Lineage-from c [] rest id l m = absurd (cc)
  Lineage-from none (x ∷ xs) rest id l m = elim l [ ]
  Lineage-from (some x) (x' ∷ xs) rest id (step {r = r} e l) m = elim (Bool-cases (id == x)) [
    | inl q ↦
        subst (λ z. (ys : List ObjectId) × Lineage store (some z) ys × (length rest < length ys))
          (sym ((eq_iff id x).0 q))
          (x ∷ (xs ++ rest), step e l, omega (arith, length-append xs rest))
    | inr n ↦ Lineage-from r.parent xs rest id l (ground (arith, m))
  ]

  snoc-append :
      (xs : List ObjectId) (id : ObjectId) (rest : List ObjectId)
      → (xs ++ (id ∷ [])) ++ rest ≡ xs ++ (id ∷ rest)
  snoc-append [] id rest = refl
  snoc-append (x ∷ xs) id rest = ap (λ zs. x ∷ zs) (snoc-append xs id rest)

  module _ (tip : ObjectId) where
    -- The roots so far, the id that comes next, and the ids seen.
    record Following (chain : List ObjectId) (cur : Option ObjectId) (seen : List ObjectId)
        : Type 0 where
      same : (x : ObjectId) → contains seen x ≡ contains chain x
      forth :
          (rest : List ObjectId) → Lineage store cur rest → Lineage store (some tip) (chain ++ rest)
      back :
          (full : List ObjectId)
          → Lineage store (some tip) full
          → (rest : List ObjectId) × (full ≡ chain ++ rest) × Lineage store cur rest

    -- The lineage of the tip, or it has none.
    abbrev pub Finds : Option (Result (List ObjectId)) → Type 0
    Finds none = ⊥
    Finds (some (ok chain)) = Lineage store (some tip) chain
    Finds (some (err (policy_violation reason))) =
        (chain : List ObjectId) → ¬ Lineage store (some tip) chain
    Finds (some (err e)) = ⊥

    Following-next :
        (chain seen : List ObjectId) (id : ObjectId) (r : PolicyRoot)
        → Following chain (some id) seen
        → load_root store id ≡ some r
        → Following (chain ++ (id ∷ [])) r.parent (set_insert id seen)
    Following-next chain seen id r f e = record {
      same = λ x.
          ground
            (arith, f.same x, contains-set_insert id seen x, contains-append chain (id ∷ []) x);
      forth = λ rest l.
          subst (Lineage store (some tip)) (sym (snoc-append chain id rest))
            (f.forth (id ∷ rest) (step e l));
      back = λ full l. next full (f.back full l);
    }
      where
        next :
            (full : List ObjectId)
            → ((rest : List ObjectId) × (full ≡ chain ++ rest) × Lineage store (some id) rest)
            → (rest : List ObjectId) × (full ≡ (chain ++ (id ∷ [])) ++ rest)
              × Lineage store r.parent rest
        next full ([], q, l) = elim l [ ]
        next full (x ∷ rest, q, step {r = s} g l) = (
          rest,
          q ∙ sym (snoc-append chain id rest),
          subst (λ (z : PolicyRoot). Lineage store z.parent rest) (some-injective s r (sym g ∙ e))
              l,
        )

    -- An id that was seen leads back to itself, so the tip has no lineage.
    cycle-none :
        (chain seen : List ObjectId) (id : ObjectId)
        → Following chain (some id) seen
        → contains seen id ≡ true
        → (full : List ObjectId) → ¬ Lineage store (some tip) full
    cycle-none chain seen id f m full l =
        let (rest, q, k) = f.back full l in
        let (ys, j, longer) =
          Lineage-from (some tip) chain rest id (subst (Lineage store (some tip)) q l)
            (sym (f.same id) ∙ m) in
        absurd (omega (arith, longer, ap length (Lineage-unique (some id) ys rest j k)))

    missing-none :
        (chain seen : List ObjectId) (id : ObjectId)
        → Following chain (some id) seen
        → load_root store id ≡ none
        → (full : List ObjectId) → ¬ Lineage store (some tip) full
    missing-none chain seen id f e full l = go (f.back full l)
      where
        go : ((rest : List ObjectId) × (full ≡ chain ++ rest) × Lineage store (some id) rest) → ⊥
        go ([], q, k) = elim k [ ]
        go (x ∷ rest, q, step g k) = cc (sym g ∙ e)

    stored :
        (id : ObjectId) (r : PolicyRoot)
        → load_root store id ≡ some r
        → contains (Maps.keys store) id ≡ true
    stored id r e = elim (Bool-cases (contains (Maps.keys store) id)) [
      | inl m ↦ m
      | inr n ↦ absurd (cc (rw ((Maps.contains-keys store id).0 n) at e))
    ]

    chain_loop-Finds :
        (fuel : ℕ) (seen chain : List ObjectId) (cur : Option ObjectId)
        → Following chain cur seen
        → suc (left (Maps.keys store) seen) ≤ fuel
        → Finds (chain_loop store fuel seen chain cur)
    unfolding chain_loop
    chain_loop-Finds fuel seen chain none f h =
        subst (Lineage store (some tip)) (append-nil chain) (f.forth [] done)
    chain_loop-Finds zero seen chain (some id) f h = absurd (omega arith)
    chain_loop-Finds (suc fuel) seen chain (some id) f h = elim (Bool-cases (contains seen id)) [
      | inl m ↦ rw (m, chain_loop) (cycle-none chain seen id f m)
      | inr n ↦ elim (Option-cases (load_root store id)) [
        | inl e ↦ rw (n, e, chain_loop) (missing-none chain seen id f e)
        | inr (r, e) ↦
            rw (n, e, chain_loop)
              (chain_loop-Finds fuel (set_insert id seen) (chain ++ (id ∷ [])) r.parent
                (Following-next chain seen id r f e)
                (omega (arith, left-set_insert (Maps.keys store) seen id (stored id r e) n)))
      ]
    ]

    length-keys : (objs : Objects) → length (Maps.keys objs) ≡ length objs
    unfolding Maps.keys
    length-keys [] = refl
    length-keys ((id, obj) ∷ objs) = ap suc (length-keys objs)

    Following-begin : Following [] (some tip) []
    Following-begin = record {
      same = λ x. refl;
      forth = λ rest l. l;
      back = λ full l. (full, refl, l);
    }

    -- The walk ends, with the lineage of the tip, or with a policy violation where it has none.
    pub chain_of-Finds : Finds (chain_of store tip)
    unfolding chain_of
    chain_of-Finds =
        chain_loop-Finds (length store + 1) [] [] (some tip) Following-begin
          (omega (arith, left-le-length (Maps.keys store) [], length-keys store))
