-- ===== src/Packed/Gather.antt =====
-- The loop that fills the builder of a repack in src/store/packed.rs: which objects it takes.
use bole.Base.{
  ◌≤◌, ◌≡◌, ◌≢◌, sym, ap, ap₂, arith, ◌∙◌, true, false, Option, none, some, List, [], ◌∷◌, ◌++◌,
  Bytes, bytes_eq, contains, length, All, All-map, ok, ◌==◌, eq_iff, ne_of_eq, Bool-cases,
  Result-cases, inl, inr,
}
use bole.Refs.{ObjectId}
use bole.Pack.{Zstd, PackBuilder, add}
use bole.PackIndex.Objects.{DistinctObjects}
use bole.Packed.{PackedDiskBackend, kept, get, gather}
use mathlib.Core.List.{Memᴰ, append_assoc, append-nil}

ok_is : (a b : PackBuilder) → ok a ≡ ok b → b ≡ a
ok_is a b h = cc

ok_some : (c d : Bytes) → ok (some c) ≡ ok (some d) → c ≡ d
ok_some c d h = cc

abbrev pair : ObjectId → Bytes → ObjectId × Bytes
pair id content = (id, content)

unseen_next :
    (id j : ObjectId) (seen : List ObjectId)
    → j ≢ id
    → contains seen j ≡ false
    → contains (id ∷ seen) j ≡ false
unseen_next id j seen ne s = elim (Bool-cases (j == id)) [
  | inl p ↦ absurd (ne ((eq_iff j id).0 p))
  | inr p ↦ ground (arith, s, p)
]

module _ (z : Zstd) (hash : Bytes → Bytes) (b : PackedDiskBackend)
    (keep : Option (List ObjectId)) where
  -- What the loop adds to a builder on the way through `ids`.
  pub record Gathered (ids seen : List ObjectId) (before after : PackBuilder) : Type 0 where
    pub new : List (ObjectId × Bytes)
    pub objects_are : after.objects ≡ before.objects ++ new
    -- Each is what the store answers for its id.
    pub answered : All (λ (o : ObjectId × Bytes). get z hash b o.0 ≡ ok (some o.1)) new
    pub wanted : All (λ (o : ObjectId × Bytes). kept keep o.0 ≡ true) new
    pub unseen : All (λ (o : ObjectId × Bytes). contains seen o.0 ≡ false) new
    pub distinct : DistinctObjects new
    pub bounded : length new ≤ length ids
    pub complete :
        (id : ObjectId) (content : Bytes)
        → contains ids id ≡ true
        → contains seen id ≡ false
        → kept keep id ≡ true
        → get z hash b id ≡ ok (some content)
        → Memᴰ (id, content) new

  contains_seen :
      (seen : List ObjectId) (id j : ObjectId)
      → contains (id ∷ seen) j ≡ false
      → (contains seen j ≡ false) × (id ≢ j)
  contains_seen seen id j h = (ground (arith, h), λ p. ne_of_eq j id (ground (arith, h)) (sym p))

  -- A round that adds nothing.
  pass_over :
      (id : ObjectId) (ids seen seen' : List ObjectId) (before after : PackBuilder)
      → Gathered ids seen' before after
      → ((j : ObjectId) → contains seen' j ≡ false → contains seen j ≡ false)
      → ((j : ObjectId) (content : Bytes)
          → contains seen j ≡ false
          → kept keep j ≡ true
          → get z hash b j ≡ ok (some content)
          → (j ≢ id) × (contains seen' j ≡ false))
      → Gathered (id ∷ ids) seen before after
  pass_over id ids seen seen' before after g weaker other = record {
    new = g.new;
    objects_are = g.objects_are;
    answered = g.answered;
    wanted = g.wanted;
    unseen = All-map g.new (λ o. weaker o.0) g.unseen;
    distinct = g.distinct;
    bounded = omega (arith, g.bounded);
    complete = λ j content m s k e.
        let (ne, s') = other j content s k e in g.complete j content (ground (arith, m, ne)) s' k e;
  }

  skip :
      (id : ObjectId) (ids seen : List ObjectId) (before after : PackBuilder)
      → Gathered ids (id ∷ seen) before after
      → ((j : ObjectId) (content : Bytes)
          → kept keep j ≡ true
          → get z hash b j ≡ ok (some content)
          → j ≢ id)
      → Gathered (id ∷ ids) seen before after
  skip id ids seen before after g other =
      pass_over id ids seen (id ∷ seen) before after g (λ j h. (contains_seen seen id j h).0)
        (λ j content s k e. (other j content k e, unseen_next id j seen (other j content k e) s))

  same_object :
      (j id : ObjectId) (c content : Bytes)
      → j ≡ id
      → get z hash b j ≡ ok (some c)
      → get z hash b id ≡ ok (some content)
      → pair j c ≡ pair id content
  same_object j id c content q e' e =
      ap₂ pair q (ok_some c content (sym e' ∙ ap (get z hash b) q ∙ e))

  take_object :
      (id : ObjectId) (content : Bytes) (ids seen : List ObjectId) (before after : PackBuilder)
      → get z hash b id ≡ ok (some content)
      → contains seen id ≡ false
      → kept keep id ≡ true
      → Gathered ids (id ∷ seen) (add before id content) after
      → Gathered (id ∷ ids) seen before after
  unfolding add
  take_object id content ids seen before after e s w g = record {
    new = (id, content) ∷ g.new;
    objects_are = g.objects_are ∙ append_assoc before.objects ((id, content) ∷ []) g.new;
    answered = (e, g.answered);
    wanted = (w, g.wanted);
    unseen = (s, All-map g.new (λ o h. (contains_seen seen id o.0 h).0) g.unseen);
    distinct = (All-map g.new (λ o h. (contains_seen seen id o.0 h).1) g.unseen, g.distinct);
    bounded = omega (arith, g.bounded);
    complete = λ j c m s' k e'. elim (Bool-cases (j == id)) [
      | inl p ↦ Memᴰ.head (same_object j id c content ((eq_iff j id).0 p) e' e)
      | inr p ↦ Memᴰ.tail (g.complete j c (ground (arith, m, p)) (ground (arith, s', p)) k e')
    ];
  }

  pub gather-Gathered :
      (ids seen : List ObjectId) (before after : PackBuilder)
      → gather z hash b keep ids seen before ≡ ok after
      → Gathered ids seen before after
  unfolding gather
  gather-Gathered [] seen before after h = record {
    new = [];
    objects_are =
        ap PackBuilder.objects (ok_is before after (unfold gather in h))
        ∙ sym (append-nil before.objects);
    answered = tt;
    wanted = tt;
    unseen = tt;
    distinct = tt;
    bounded = omega arith;
    complete = λ id content m s k e. absurd (cc);
  }
  gather-Gathered (id ∷ ids) seen before after h = elim (Bool-cases (contains seen id)) [
    | inl s ↦
        pass_over id ids seen seen before after
          (gather-Gathered ids seen before after (rw (s, gather) at h)) (λ j p. p)
          (λ j content p k e. (λ q. cc (sym s ∙ ap (contains seen) (sym q) ∙ p), p))
    | inr s ↦ elim (Bool-cases (kept keep id)) [
      | inl k ↦ elim (Result-cases (get z hash b id)) [
        | inl (some content, e) ↦ take_object id content ids seen before after e s k (
            gather-Gathered ids (id ∷ seen) (add before id content) after
              (rw (s, k, e, gather) at h))
        | inl (none, e) ↦
            skip id ids seen before after
              (gather-Gathered ids (id ∷ seen) before after (rw (s, k, e, gather) at h))
              (λ j content k' e' q. cc (sym e ∙ ap (get z hash b) (sym q) ∙ e'))
        | inr (d, e) ↦ absurd (cc (rw (s, k, e, gather) at h))
      ]
      | inr k ↦
          skip id ids seen before after
            (gather-Gathered ids (id ∷ seen) before after (rw (s, k, gather) at h))
            (λ j content k' e' q. cc (sym k ∙ ap (kept keep) (sym q) ∙ k'))
    ]
  ]
