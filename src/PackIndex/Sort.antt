-- ===== src/PackIndex/Sort.antt =====
-- PackIndex::build of src/store/pack.rs: the sorted table of entries with distinct ids, and what a
-- lookup in it answers.
use bole.Base.{
  ◌∙◌, suc, length, ℕ, zero, suc, ◌≡◌, ◌≢◌, refl, sym, ap, subst, arith, some, List, [], ◌∷◌, inl,
  inr, ◌⊎◌, ◌↔◌, bytes_cmp, Bytes, bytes_cmp_eq, bytes_cmp_flip, bytes_cmp_trans, All, All-map,
  some-injective,
}
use bole.Base.Slices.{get_elem?, All-at}
use bole.Refs.{ObjectId}
use bole.Pack.{PackEntry}
use bole.PackIndex.{insert_by, sort_by, build, lookup}
use bole.PackIndex.Fanout.{IsAscending}
use bole.PackIndex.Lookup.{lookup_iff}
use mathlib.Core.List.{Memᴰ}
use mathlib.Core.List.Memᴰ
use Prim.Native.Nat.{Ordering}

abbrev by_id : PackEntry → PackEntry → Ordering
by_id a b = bytes_cmp a.id b.id

-- No id stands twice.
abbrev pub DistinctIds : List PackEntry → Type 0
DistinctIds [] = Unit
DistinctIds (a ∷ es) = All (λ (b : PackEntry). a.id ≢ b.id) es × DistinctIds es

-- The head's id is below those of the rest, and so on.
abbrev Ascending : List PackEntry → Type 0
Ascending [] = Unit
Ascending (a ∷ es) = All (λ b. by_id a b ≡ Ordering.lt) es × Ascending es

-- An entry is put before the head, or behind it.
insert_by-cons :
    (a b : PackEntry) (es : List PackEntry)
    → ((by_id a b ≡ Ordering.gt) × (insert_by by_id a (b ∷ es) ≡ b ∷ insert_by by_id a es))
      ⊎ ((by_id a b ≢ Ordering.gt) × (insert_by by_id a (b ∷ es) ≡ a ∷ b ∷ es))
unfolding insert_by
insert_by-cons a b es = by_case (by_id a b) refl
  where
    by_case :
        (o : Ordering)
        → by_id a b ≡ o
        → ((by_id a b ≡ Ordering.gt) × (insert_by by_id a (b ∷ es) ≡ b ∷ insert_by by_id a es))
          ⊎ ((by_id a b ≢ Ordering.gt) × (insert_by by_id a (b ∷ es) ≡ a ∷ b ∷ es))
    by_case Ordering.lt e = inr (λ p. cc, rw (e, insert_by) refl)
    by_case Ordering.eq e = inr (λ p. cc, rw (e, insert_by) refl)
    by_case Ordering.gt e = inl (e, rw (e, insert_by) refl)

module _ {ℓ} (P : PackEntry → Type ℓ) where
  All-insert_by :
      (a : PackEntry) (es : List PackEntry) → P a → All P es → All P (insert_by by_id a es)
  unfolding insert_by
  All-insert_by a [] p h = (p, h)
  All-insert_by a (b ∷ es) p (q, h) = elim (insert_by-cons a b es) [
    | inl (o, e) ↦ subst (All P) (sym e) (q, All-insert_by a es p h)
    | inr (o, e) ↦ subst (All P) (sym e) (p, (q, h))
  ]

  All-sort_by : (es : List PackEntry) → All P es → All P (sort_by by_id es)
  unfolding sort_by
  All-sort_by [] h = h
  All-sort_by (a ∷ es) (p, h) = All-insert_by a (sort_by by_id es) p (All-sort_by es h)

length-insert_by :
    (a : PackEntry) (es : List PackEntry) → length (insert_by by_id a es) ≡ suc (length es)
unfolding insert_by
length-insert_by a [] = refl
length-insert_by a (b ∷ es) = elim (insert_by-cons a b es) [
  | inl (o, e) ↦ ap length e ∙ ap suc (length-insert_by a es)
  | inr (o, e) ↦ ap length e
]

length-sort_by : (es : List PackEntry) → length (sort_by by_id es) ≡ length es
unfolding sort_by
length-sort_by [] = refl
length-sort_by (a ∷ es) = length-insert_by a (sort_by by_id es) ∙ ap suc (length-sort_by es)

-- The table has as many entries, and what holds of all of them holds of those in it.
pub build-All :
    (P : PackEntry → Type 0) (entries : List PackEntry) (digest : Bytes)
    → All P entries
    → (length (build entries digest).entries ≡ length entries)
      × All P (build entries digest).entries
      × ((build entries digest).pack_digest ≡ digest)
unfolding build
build-All P entries digest h = (length-sort_by entries, All-sort_by P entries h, refl)

before : (a b : PackEntry) → a.id ≢ b.id → by_id a b ≢ Ordering.gt → by_id a b ≡ Ordering.lt
before a b ne o = by_case (by_id a b) refl
  where
    by_case : (p : Ordering) → by_id a b ≡ p → by_id a b ≡ Ordering.lt
    by_case Ordering.lt e = e
    by_case Ordering.eq e = absurd (ne (bytes_cmp_eq a.id b.id e))
    by_case Ordering.gt e = absurd (o e)

insert_by-Ascending :
    (a : PackEntry) (es : List PackEntry)
    → All (λ (b : PackEntry). a.id ≢ b.id) es
    → Ascending es
    → Ascending (insert_by by_id a es)
unfolding insert_by
insert_by-Ascending a [] fresh h = (tt, tt)
insert_by-Ascending a (b ∷ es) (ne, fresh) (low, h) = elim (insert_by-cons a b es) [
  | inl (o, e) ↦ subst Ascending (sym e) (
    All-insert_by (λ c. by_id b c ≡ Ordering.lt) a es (bytes_cmp_flip a.id b.id o) low,
    insert_by-Ascending a es fresh h,
  )
  | inr (o, e) ↦ subst Ascending (sym e) (
    (before a b ne o, All-map es (λ c p. bytes_cmp_trans a.id b.id c.id (before a b ne o) p) low),
    (low, h),
  )
]

sort_by-Ascending : (es : List PackEntry) → DistinctIds es → Ascending (sort_by by_id es)
unfolding sort_by
sort_by-Ascending [] d = tt
sort_by-Ascending (a ∷ es) (fresh, d) =
    insert_by-Ascending a (sort_by by_id es) (All-sort_by (λ (b : PackEntry). a.id ≢ b.id) es fresh)
      (sort_by-Ascending es d)

Ascending-IsAscending : (es : List PackEntry) → Ascending es → IsAscending es
Ascending-IsAscending [] h i j a b lt p q = absurd (cc)
Ascending-IsAscending (x ∷ es) (low, h) zero zero a b lt p q = absurd (omega arith)
Ascending-IsAscending (x ∷ es) (low, h) zero (suc j) a b lt p q =
    subst (λ (t : PackEntry). by_id t b ≡ Ordering.lt) (some-injective x a p)
      (All-at (λ c. by_id x c ≡ Ordering.lt) es j b low q)
Ascending-IsAscending (x ∷ es) (low, h) (suc i) zero a b lt p q = absurd (omega arith)
Ascending-IsAscending (x ∷ es) (low, h) (suc i) (suc j) a b lt p q =
    Ascending-IsAscending es h i j a b (omega arith) p q

pub build-IsAscending :
    (entries : List PackEntry) (digest : Bytes)
    → DistinctIds entries
    → IsAscending (build entries digest).entries
unfolding build
build-IsAscending entries digest d = Ascending-IsAscending _ (sort_by-Ascending entries d)

module _ {e : PackEntry} where
  Mem-insert_by_head : (a : PackEntry) (es : List PackEntry) → e ≡ a → Memᴰ e (insert_by by_id a es)
  unfolding insert_by
  Mem-insert_by_head a [] p = Memᴰ.head p
  Mem-insert_by_head a (b ∷ es) p = elim (insert_by-cons a b es) [
    | inl (o, q) ↦ subst (Memᴰ e) (sym q) (Memᴰ.tail (Mem-insert_by_head a es p))
    | inr (o, q) ↦ subst (Memᴰ e) (sym q) (Memᴰ.head p)
  ]

  Mem-insert_by : (a : PackEntry) (es : List PackEntry) → Memᴰ e es → Memᴰ e (insert_by by_id a es)
  unfolding insert_by
  Mem-insert_by a [] m = elim m [ ]
  Mem-insert_by a (b ∷ es) m = elim (insert_by-cons a b es) [
    | inl (o, q) ↦ elim (Memᴰ.cases_cons m) [
      | inl p ↦ subst (Memᴰ e) (sym q) (Memᴰ.head p)
      | inr k ↦ subst (Memᴰ e) (sym q) (Memᴰ.tail (Mem-insert_by a es k))
    ]
    | inr (o, q) ↦ subst (Memᴰ e) (sym q) (Memᴰ.tail m)
  ]

  Mem-sort_by : (es : List PackEntry) → Memᴰ e es → Memᴰ e (sort_by by_id es)
  unfolding sort_by
  Mem-sort_by [] m = elim m [ ]
  Mem-sort_by (a ∷ es) m = elim (Memᴰ.cases_cons m) [
    | inl p ↦ Mem-insert_by_head a (sort_by by_id es) p
    | inr k ↦ Mem-insert_by a (sort_by by_id es) (Mem-sort_by es k)
  ]

  position : (es : List PackEntry) → Memᴰ e es → (i : ℕ) × (get_elem? es i ≡ some e)
  position [] m = elim m [ ]
  position (a ∷ es) m = elim (Memᴰ.cases_cons m) [
    | inl p ↦ (0, ap some (sym p))
    | inr k ↦ let (i, q) = position es k in (suc i, q)
  ]

All-Mem : (es : List PackEntry) → All (λ e. Memᴰ e es) es
All-Mem [] = tt
All-Mem (a ∷ es) = (Memᴰ.head refl, All-map es (λ b m. Memᴰ.tail m) (All-Mem es))

-- An entry of the list with this id, offset and length.
abbrev pub Holds : List PackEntry → ObjectId → ℕ → ℕ → Type 0
Holds entries id offset len =
    (e : PackEntry) × Memᴰ e entries × (e.id ≡ id) × (e.offset ≡ offset) × (e.len ≡ len)

-- In the table that `build` makes of entries with distinct ids, in any order, `lookup` answers an
-- offset and a length exactly if one of the entries has them with that id.
pub lookup-build :
    (entries : List PackEntry) (digest : Bytes) (id : ObjectId) (offset len : ℕ)
    → DistinctIds entries
    → (lookup (build entries digest) id ≡ some (offset, len)) ↔ Holds entries id offset len
unfolding build
lookup-build entries digest id offset len d =
    let (there, back) =
      lookup_iff (build entries digest) (build-IsAscending entries digest d) id offset len in
    (
      λ h.
          let (i, e, at, same, off, l) = there h in
          (
            e,
            All-at (λ e. Memᴰ e entries) (sort_by by_id entries) i e
                (All-sort_by (λ e. Memᴰ e entries) entries (All-Mem entries)) at,
            same,
            off,
            l,
          ),
      λ (e, m, same, off, l).
          let (i, at) = position (sort_by by_id entries) (Mem-sort_by entries m) in
          back (i, e, at, same, off, l),
    )
