-- ===== src/Packed/Reload.antt =====
-- The files of packs/ in src/store/packed.rs: what remove_packs leaves, and what load_packs reads.
use bole.Base.{
  ℕ, zero, suc, ◌≡◌, refl, sym, ap, subst, arith, ◌∙◌, Bool, true, false, ◌||◌, Option, none, some,
  is_some, List, [], ◌∷◌, Bytes, bytes_eq, bytes_cmp, contains, contains-reverse, contains_head,
  reverse, length, if◌then◌else◌, ok, ◌==◌, Bool-cases, Option-cases, inl, inr,
}
use bole.Base.Maps
use bole.Base.Maps.{Map, get-remove, get-insert, contains-keys}
use bole.Base.Slices.{replicate}
use bole.Refs.{ObjectId}
use bole.Pack.{Zstd}
use bole.PackIndex.{PackIndex, sort_by, insert_by, lookup, parse}
use bole.Packed.{Pack, PackedDiskBackend, in_any_pack, load_named, load_packs, remove_packs}
use Prim.Native.Nat.{Ordering}

contains-insert_by :
    (cmp : Bytes → Bytes → Ordering) (x : Bytes) (xs : List Bytes) (y : Bytes)
    → contains (insert_by cmp x xs) y ≡ (y == x || contains xs y)
unfolding insert_by
contains-insert_by cmp x [] y = refl
contains-insert_by cmp x (w ∷ xs) y = ground (arith, contains-insert_by cmp x xs y)

contains-sort_by :
    (cmp : Bytes → Bytes → Ordering) (xs : List Bytes) (y : Bytes)
    → contains (sort_by cmp xs) y ≡ contains xs y
unfolding sort_by
contains-sort_by cmp [] y = refl
contains-sort_by cmp (x ∷ xs) y =
    contains-insert_by cmp x (sort_by cmp xs) y
    ∙ ap (λ (t : Bool). y == x || t) (contains-sort_by cmp xs y)

contains-paths :
    (files : Map Bytes Bytes) (p : Bytes)
    → contains (reverse (sort_by bytes_cmp (Maps.keys files))) p ≡ contains (Maps.keys files) p
contains-paths files p =
    contains-reverse (sort_by bytes_cmp (Maps.keys files)) p
    ∙ contains-sort_by bytes_cmp (Maps.keys files) p

nonempty : (xs : List Bytes) (y : Bytes) → contains xs y ≡ true → (n : ℕ) × (length xs ≡ suc n)
nonempty [] y h = absurd (cc)
nonempty (x ∷ xs) y h = (length xs, refl)

no_elements : (xs : List Bytes) → ((y : Bytes) → contains xs y ≡ false) → xs ≡ []
no_elements [] h = refl
no_elements (x ∷ xs) h = absurd (cc (sym (contains_head x xs) ∙ h x))

in_any_pack_next :
    (p : Pack) (packs : List Pack) (id : ObjectId)
    → lookup p.idx id ≡ none
    → in_any_pack (p ∷ packs) id ≡ in_any_pack packs id
unfolding in_any_pack
in_any_pack_next p packs id e = rw (e, in_any_pack) refl

module _ (z : Zstd) (hash : Bytes → Bytes) where
  -- The removed packs are gone, with their indexes, and nothing else changes.
  pub remove_packs-Removed :
      (paths : List Bytes) (b : PackedDiskBackend) (k : Bytes)
      → (Maps.get (remove_packs z hash b paths).pack_files k
          ≡ (if contains paths k then none else Maps.get b.pack_files k))
        × (Maps.get (remove_packs z hash b paths).idx_files k
            ≡ (if contains paths k then none else Maps.get b.idx_files k))
  unfolding remove_packs
  remove_packs-Removed [] b k = (refl, refl)
  remove_packs-Removed (path ∷ paths) b k =
      let b' : PackedDiskBackend = record b {
        pack_files = Maps.remove b.pack_files path;
        idx_files = Maps.remove b.idx_files path;
      } in
      let (p, q) = remove_packs-Removed paths b' k in
      (
        p ∙ ground (arith, get-remove b.pack_files path k),
        q ∙ ground (arith, get-remove b.idx_files path k),
      )

  pub remove_packs_loose :
      (paths : List Bytes) (b : PackedDiskBackend) → (remove_packs z hash b paths).loose ≡ b.loose
  unfolding remove_packs
  remove_packs_loose [] b = refl
  remove_packs_loose (path ∷ paths) b = remove_packs_loose paths _

  module _ (pack_files idx_files : Map Bytes Bytes) (path text : Bytes) (idx : PackIndex)
      (there : Maps.get idx_files path ≡ some text) (parsed : parse hash text ≡ ok idx)
      (has_pack : is_some (Maps.get pack_files path) ≡ true) where
    abbrev only : Pack
    only = record { idx = idx; pack_path = path }

    load_named-only :
        (paths : List Bytes)
        → ((p : Bytes) → contains paths p ≡ true → p ≡ path)
        → load_named z hash pack_files idx_files paths ≡ ok (replicate (length paths) only)
    unfolding load_named
    load_named-only [] h = refl
    load_named-only (p ∷ paths) h =
        let q = h p (contains_head p paths) in
        let rest = load_named-only paths (λ r m. h r (ground (arith, m))) in
        subst
          (λ (t : Bytes).
            load_named z hash pack_files idx_files (t ∷ paths)
            ≡ ok (replicate (suc (length paths)) only))
          (sym q) (rw (load_named, there, parsed, has_pack, rest) refl)

    -- A directory with one index loads as that pack.
    pub load_packs-only :
        ((p : Bytes) → contains (Maps.keys idx_files) p ≡ true → p ≡ path)
        → (n : ℕ) × (load_packs z hash pack_files idx_files ≡ ok (replicate (suc n) only))
    unfolding load_packs
    load_packs-only h =
        let paths = reverse (sort_by bytes_cmp (Maps.keys idx_files)) in
        let (n, width) = nonempty paths path (rw (contains-paths idx_files path) listed) in
        (
          n,
          load_named-only paths (λ p m. h p (rw (contains-paths idx_files p) at m))
              ∙ ap (λ (k : ℕ). ok (replicate k only)) width,
        )
      where
        listed : contains (Maps.keys idx_files) path ≡ true
        listed = elim (Bool-cases (contains (Maps.keys idx_files) path)) [
          | inl m ↦ m
          | inr m ↦ absurd (cc (sym there ∙ (contains-keys idx_files path).0 m))
        ]

  -- A directory without an index loads as no pack.
  pub load_packs_none :
      (pack_files idx_files : Map Bytes Bytes)
      → ((p : Bytes) → contains (Maps.keys idx_files) p ≡ false)
      → load_packs z hash pack_files idx_files ≡ ok []
  unfolding load_packs load_named
  load_packs_none pack_files idx_files h = ap (load_named z hash pack_files idx_files) (
      no_elements (reverse (sort_by bytes_cmp (Maps.keys idx_files)))
        (λ p. contains-paths idx_files p ∙ h p))

-- Packs that are all the same locate what that one does.
pub in_any_pack-replicate :
    (n : ℕ) (p : Pack) (id : ObjectId)
    → in_any_pack (replicate (suc n) p) id
      ≡ elim (lookup p.idx id) as (λ _. Option (Bytes × ℕ × ℕ)) [
        | none ↦ none
        | some (offset, len) ↦ some (p.pack_path, offset, len)
      ]
unfolding in_any_pack
in_any_pack-replicate zero p id = refl
in_any_pack-replicate (suc n) p id = elim (Option-cases (lookup p.idx id)) [
  | inl e ↦ in_any_pack_next p (replicate (suc n) p) id e ∙ in_any_pack-replicate n p id
  | inr (a, e) ↦ rw (e, in_any_pack) refl
]
