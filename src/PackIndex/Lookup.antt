-- ===== src/PackIndex/Lookup.antt =====
-- PackIndex::lookup and fanout_at of src/store/pack.rs on a table in ascending order of ids.
use bole.Base.{
  ◌∷◌, [], bytes_eq, true, zero, suc, contains, contains_head, map, ℕ, ◌+◌, ◌-◌, ◌≤◌, ◌<◌, ◌≡◌,
  refl, sym, ap, ap₂, some-injective, subst, arith, ◌∙◌, Bool-cases, Option, none, some, List,
  length, if◌then◌else◌, inl, inr, ◌⊎◌, ◌↔◌, ◌==◌, nat_eq, bytes_cmp, Option-cases, Bytes,
  bytes_cmp_eq, bytes_cmp_refl, bytes_cmp_irrefl, ne_of_eq,
}
use bole.Base.Slices.{get_elem?, get_elem?-lt, get_elem?-slice, get_elem?-slice_lt, slice}
use bole.Refs.{ObjectId}
use bole.Pack.{PackEntry}
use bole.PackIndex.{
  Search, missing, PackIndex, found, probe_of, binary_search_by, id_byte, fanout_at, lookup,
}
use bole.PackIndex.Bisect.{IsRising, binary_search_by-Right}
use Prim.Native.Nat.{Ordering}
use bole.PackIndex.Fanout.{IsAscending, probe_of-some, IsRising-of, id_rises, fanout_at-Counts}

below_or_not : (i k : ℕ) → (i < k) ⊎ (k ≤ i)
below_or_not i k = omega arith

abbrev some_pair : ℕ → ℕ → Option (ℕ × ℕ)
some_pair a b = some (a, b)

pair_of_some : (a b c d : ℕ) → some_pair a b ≡ some_pair c d → (a ≡ c) × (b ≡ d)
pair_of_some a b c d h = (ap first_of h, ap second_of h)
  where
    first_of : Option (ℕ × ℕ) → ℕ
    first_of none = 0
    first_of (some (x, y)) = x

    second_of : Option (ℕ × ℕ) → ℕ
    second_of none = 0
    second_of (some (x, y)) = y

trichotomy : (i j : ℕ) → (i < j) ⊎ ((i ≡ j) ⊎ (j < i))
trichotomy i j = omega arith

module _ (index : PackIndex) (ascending : IsAscending index.entries) where
  abbrev part : ObjectId → List PackEntry
  part id =
      slice index.entries (if id_byte id == 0 then 0 else fanout_at index (id_byte id - 1))
        (fanout_at index (id_byte id))

  part-IsAscending :
      (id : ObjectId)
      → IsRising (probe_of (λ (e : PackEntry). bytes_cmp e.id id) (part id)) (length (part id))
  part-IsAscending id =
      IsRising-of (λ (e : PackEntry). bytes_cmp e.id id) (part id)
        (λ i j a b lt p q.
          id_rises id a.id b.id
            (ascending (lo + i) (lo + j) a b (omega arith) (whole i a p) (whole j b q)))
    where
      lo : ℕ
      lo = if id_byte id == 0 then 0 else fanout_at index (id_byte id - 1)

      whole :
          (i : ℕ) (e : PackEntry)
          → get_elem? (part id) i ≡ some e
          → get_elem? index.entries (lo + i) ≡ some e
      whole i e p =
          sym (
            get_elem?-slice index.entries lo (fanout_at index (id_byte id)) i
              (get_elem?-slice_lt index.entries lo _ i e p))
          ∙ p

  abbrev sought : ObjectId → PackEntry → Ordering
  sought id e = bytes_cmp e.id id

  abbrev start : ObjectId → ℕ
  start id = if id_byte id == 0 then 0 else fanout_at index (id_byte id - 1)

  -- An entry stands in the part that is searched for its id.
  in_part :
      (i : ℕ) (e : PackEntry)
      → get_elem? index.entries i ≡ some e
      → (start e.id ≤ i) × (i < fanout_at index (id_byte e.id))
  in_part i e p = (from_start, before_end)
    where
      from_start : start e.id ≤ i
      from_start = elim (Bool-cases (id_byte e.id == 0)) [
        | inl z ↦ rw z (omega arith)
        | inr z ↦
            let (_, low, _) = fanout_at-Counts index ascending (id_byte e.id - 1) in
            rw z (ground (arith, low i e p, ne_of_eq (id_byte e.id) 0 z))
      ]

      before_end : i < fanout_at index (id_byte e.id)
      before_end =
          let (_, _, high) = fanout_at-Counts index ascending (id_byte e.id) in
          ground (arith, high i e p)

  -- Positions of equal ids are equal.
  one_position :
      (i j : ℕ) (a b : PackEntry)
      → get_elem? index.entries i ≡ some a
      → get_elem? index.entries j ≡ some b
      → a.id ≡ b.id
      → i ≡ j
  one_position i j a b p q e = elim (trichotomy i j) [
    | inl h ↦ absurd (bytes_cmp_irrefl a.id (rw (← e) at (ascending i j a b h p q)))
    | inr (inl h) ↦ h
    | inr (inr h) ↦ absurd (bytes_cmp_irrefl a.id (rw (← e) at (ascending j i b a h q p)))
  ]

  -- An entry of the table with this id, offset and length.
  abbrev pub Located : ObjectId → ℕ → ℕ → Type 0
  Located id offset len =
      (i : ℕ) × (e : PackEntry) × (get_elem? index.entries i ≡ some e)
      × (e.id ≡ id)
      × (e.offset ≡ offset)
      × (e.len ≡ len)

  hit :
      (id : ObjectId) (i : ℕ)
      → binary_search_by (sought id) (part id) ≡ found i
      → probe_of (sought id) (part id) i ≡ Ordering.eq
      → (e : PackEntry) × (lookup index id ≡ some (e.offset, e.len))
        × (get_elem? index.entries (start id + i) ≡ some e)
        × (e.id ≡ id)
  unfolding lookup probe_of
  hit id i b q = elim (Option-cases (get_elem? (part id) i)) [
    | inl n ↦ absurd (cc (rw (n, probe_of) at q))
    | inr (e, p) ↦ (
      e,
      rw (b, p, lookup) refl,
      sym (
            get_elem?-slice index.entries (start id) _ i
              (get_elem?-slice_lt index.entries (start id) _ i e p))
          ∙ p,
      bytes_cmp_eq e.id id (rw (p, probe_of) at q),
    )
  ]

  in_part_at :
      (j : ℕ) (d : PackEntry) (id : ObjectId)
      → get_elem? index.entries j ≡ some d
      → d.id ≡ id
      → get_elem? (part id) (j - start id) ≡ some d
  in_part_at j d id at same =
      subst (λ (t : Bytes). get_elem? (part t) (j - start t) ≡ some d) same
        (let (lo, hi) = in_part j d at in
          get_elem?-slice index.entries (start d.id) _ (j - start d.id) (omega (arith, lo, hi))
          ∙ ap (get_elem? index.entries) {x = start d.id + (j - start d.id)} (omega (arith, lo))
          ∙ at)

  no_hit :
      (id : ObjectId) (k : ℕ)
      → k ≤ length (part id)
      → ((j : ℕ) → j < k → probe_of (sought id) (part id) j ≡ Ordering.lt)
      → ((j : ℕ) → k ≤ j → j < length (part id) → probe_of (sought id) (part id) j ≡ Ordering.gt)
      → (j : ℕ) (d : PackEntry) → get_elem? index.entries j ≡ some d
      → d.id ≡ id
      → ⊥
  no_hit id k le before after j d at same = elim (below_or_not (j - start id) k) [
    | inl h ↦ cc (sym (before (j - start id) h) ∙ equal)
    | inr h ↦ cc (sym (after (j - start id) h (get_elem?-lt (part id) _ d there)) ∙ equal)
  ]
    where
      there : get_elem? (part id) (j - start id) ≡ some d
      there = in_part_at j d id at same

      equal : probe_of (sought id) (part id) (j - start id) ≡ Ordering.eq
      equal =
          probe_of-some (sought id) (part id) (j - start id) d there ∙ rw same (bytes_cmp_refl id)

  -- On a table in strictly ascending order of ids, `lookup` answers an offset and a length exactly
  -- if an entry with that id has them.
  pub lookup_iff :
      (id : ObjectId) (offset len : ℕ)
      → (lookup index id ≡ some (offset, len)) ↔ Located id offset len
  unfolding lookup
  lookup_iff id offset len =
      elim (binary_search_by-Right (sought id) (part id) (part-IsAscending id)) [
        | inl (i, b, q) ↦
            let (e, answer, at, same) = hit id i b q in
            (
              λ h.
                  let (off, l) = pair_of_some _ _ _ _ (sym answer ∙ h) in
                  (start id + i, e, at, same, off, l),
              λ (j, d, at', same', off, l).
                  let p = one_position (start id + i) j e d at at' (same ∙ sym same') in
                  let q : some e ≡ some d = sym at ∙ ap (get_elem? index.entries) p ∙ at' in
                  answer
                  ∙ ap (λ (t : PackEntry). some (t.offset, t.len)) (some-injective e d q)
                  ∙ ap₂ some_pair off l,
            )
        | inr (k, b, (le, before, after)) ↦ (
          λ h. absurd (cc (rw (b, lookup) at h)),
          λ (j, d, at, same, off, l). absurd (no_hit id k le before after j d at same),
        )
      ]

Search-cases : (s : Search) → ((i : ℕ) × (s ≡ found i)) ⊎ ((i : ℕ) × (s ≡ missing i))
Search-cases (found i) = inl (i, refl)
Search-cases (missing i) = inr (i, refl)

contains_at :
    (entries : List PackEntry) (i : ℕ) (e : PackEntry) (id : ObjectId)
    → get_elem? entries i ≡ some e
    → e.id ≡ id
    → contains (map PackEntry.id entries) id ≡ true
contains_at [] i e id p q = absurd (cc)
contains_at (x ∷ entries) zero e id p q =
    rw (sym q ∙ ap PackEntry.id (sym (some-injective x e p)))
      (contains_head x.id (map PackEntry.id entries))
contains_at (x ∷ entries) (suc i) e id p q = ground (arith, contains_at entries i e id p q)

found-eq :
    {A : Type 0} (f : A → Ordering) (xs : List A) (i : ℕ)
    → binary_search_by f xs ≡ found i
    → probe_of f xs i ≡ Ordering.eq
unfolding binary_search_by
found-eq f xs i h = ground (arith, h)

-- What `lookup` answers for is listed, in whatever order the table is.
pub lookup-listed :
    (index : PackIndex) (id : ObjectId) (answer : ℕ × ℕ)
    → lookup index id ≡ some answer
    → contains (map PackEntry.id index.entries) id ≡ true
unfolding lookup
lookup-listed index id answer h = elim (Search-cases (binary_search_by f part)) [
  | inl (i, e) ↦ elim (Option-cases (get_elem? part i)) [
    | inl n ↦ absurd (cc (rw (e, n, lookup) at h))
    | inr (x, p) ↦
        contains_at index.entries (lo + i) x id
          (sym
              (get_elem?-slice index.entries lo hi i (get_elem?-slice_lt index.entries lo hi i x p))
            ∙ p)
          (bytes_cmp_eq x.id id (sym (probe_of-some f part i x p) ∙ found-eq f part i e))
  ]
  | inr (i, e) ↦ absurd (cc (rw (e, lookup) at h))
]
  where
    lo : ℕ
    lo = if id_byte id == 0 then 0 else fanout_at index (id_byte id - 1)

    hi : ℕ
    hi = fanout_at index (id_byte id)

    part : List PackEntry
    part = slice index.entries lo hi

    f : PackEntry → Ordering
    f e = bytes_cmp e.id id
