-- ===== src/Merge/Diff.antt =====
-- What `three_way_diff` of src/repo/merge.rs merges and what it reports, by path.
use mathlib.Core.List.{Memᴰ}
use mathlib.Core.List.Memᴰ
use bole.Base.{
  true, false, ◌||◌, Option, none, some, List, [], ◌∷◌, ◌++◌, ◌≡◌, ◌↔◌, ◌⊎◌, inl, inr, refl, sym,
  ap, ◌∙◌, subst, arith, Bytes, bytes_eq, bytes_ord, option_eq, option_discrete, ◌==◌, eq_iff,
  contains, contains_head, contains_cases, if◌then◌else◌, Bool-cases, collect_set,
  contains-collect_set, contains-append,
}
use bole.Base.Maps
use bole.Base.Maps.{get-insert}
use bole.Refs.{ObjectId}
use bole.Merge.{MergeConflict, MergeResult, Files, merge_keys, three_way_diff}
use bole.Merge.Rule.{Outcome, take, clash, rule, taken, applied, merge_key-applied}

module _ (ancestor ours theirs : Files) where
  -- The outcome that the rule gives a path.
  abbrev pub outcome : Bytes → Outcome
  outcome p = rule (Maps.get ancestor p) (Maps.get ours p) (Maps.get theirs p)

  -- A conflict that the rule finds, with what both sides have there.
  abbrev pub Clashes : MergeConflict → Type 0
  Clashes c =
      (outcome c.path ≡ clash)
      × (c.ours ≡ Maps.get ours c.path)
      × (c.theirs ≡ Maps.get theirs c.path)

  pick : Outcome → Option ObjectId → Option ObjectId
  pick (take (some id)) old = some id
  pick (take none) old = old
  pick clash old = old

  pick-pick : (o : Outcome) (old : Option ObjectId) → pick o (pick o old) ≡ pick o old
  unfolding pick
  pick-pick (take (some id)) old = refl
  pick-pick (take none) old = refl
  pick-pick clash old = refl

  pick-none : (o : Outcome) → pick o none ≡ taken o
  unfolding pick
  pick-none (take (some id)) = refl
  pick-none (take none) = refl
  pick-none clash = refl

  get-applied :
      (r : MergeResult) (key : Bytes) (our thr : Option ObjectId) (o : Outcome) (p : Bytes)
      → Maps.get (MergeResult.merged (applied r key our thr o)) p
        ≡ (if p == key then pick o (Maps.get r.merged p) else Maps.get r.merged p)
  unfolding pick
  get-applied r key our thr (take (some id)) p = ground (arith, get-insert r.merged key id p)
  get-applied r key our thr (take none) p = ground arith
  get-applied r key our thr clash p = ground arith

  get-merge_keys :
      (keys : List Bytes) (r : MergeResult) (p : Bytes)
      → Maps.get (MergeResult.merged (merge_keys ancestor ours theirs keys r)) p
        ≡ (if contains keys p then pick (outcome p) (Maps.get r.merged p) else Maps.get r.merged p)
  unfolding merge_keys
  get-merge_keys [] r p = refl
  get-merge_keys (key ∷ keys) r p =
      let r' = applied r key (Maps.get ours key) (Maps.get theirs key) (outcome key) in
      rw (merge_key-applied r key (Maps.get ancestor key) (Maps.get ours key) (Maps.get theirs key))
        (elim (Bool-cases (p == key)) [
          | inl e ↦ rw ((eq_iff p key).0 e) (
              ground (
                arith,
                get-merge_keys keys r' key,
                get-applied r key (Maps.get ours key) (Maps.get theirs key) (outcome key) key,
                pick-pick (outcome key) (Maps.get r.merged key),
                (eq_iff key key).1 refl,
              ))
          | inr n ↦ ground (
            arith,
            get-merge_keys keys r' p,
            get-applied r key (Maps.get ours key) (Maps.get theirs key) (outcome key) p,
          )
        ])

  -- The conflicts that a round adds.
  Memᴰ-applied :
      (r : MergeResult) (key : Bytes) (o : Outcome) (c : MergeConflict)
      → Memᴰ c (MergeResult.conflicts (applied r key (Maps.get ours key) (Maps.get theirs key) o))
        ↔ (Memᴰ c r.conflicts
            ⊎ ((o ≡ clash)
                × (c ≡ record {
                  path = key;
                  ours = Maps.get ours key;
                  theirs = Maps.get theirs key;
                })))
  Memᴰ-applied r key (take none) c = (inl, λ h. elim h [ inl m ↦ m | inr (e, q) ↦ absurd (cc) ])
  Memᴰ-applied r key (take (some id)) c =
      (inl, λ h. elim h [ inl m ↦ m | inr (e, q) ↦ absurd (cc) ])
  Memᴰ-applied r key clash c = (
    λ m. elim (Memᴰ.append_cases r.conflicts m) [
      | inl k ↦ inl k
      | inr k ↦ inr (refl, Memᴰ.eq_of_singleton k)
    ],
    λ h. elim h [
      | inl m ↦ Memᴰ.append_left _ m
      | inr (e, q) ↦ Memᴰ.append_right r.conflicts (Memᴰ.head q)
    ],
  )

  abbrev conflict_at : Bytes → MergeConflict
  conflict_at key = record { path = key; ours = Maps.get ours key; theirs = Maps.get theirs key }

  abbrev ClashesIn : List Bytes → MergeConflict → Type 0
  ClashesIn keys c = (contains keys c.path ≡ true) × Clashes c

  ClashesIn-cons :
      (key : Bytes) (keys : List Bytes) (c : MergeConflict)
      → (((outcome key ≡ clash) × (c ≡ conflict_at key)) ⊎ ClashesIn keys c)
        ↔ ClashesIn (key ∷ keys) c
  ClashesIn-cons key keys c = (
    λ h. elim h [
      | inl (e, q) ↦
          subst (ClashesIn (key ∷ keys)) (sym q) (contains_head key keys, (e, refl, refl))
      | inr (m, k) ↦ (ground (arith, m), k)
    ],
    λ (m, (e, o, t)). elim (contains_cases keys m) [
      | inl p ↦ inl (
        subst (λ z. outcome z ≡ clash) p e,
        λ i. record {
          path = p i;
          ours = (o ∙ ap (Maps.get ours) p) i;
          theirs = (t ∙ ap (Maps.get theirs) p) i;
        },
      )
      | inr k ↦ inr (k, (e, o, t))
    ],
  )

  Memᴰ-merge_keys :
      (keys : List Bytes) (r : MergeResult) (c : MergeConflict)
      → Memᴰ c (MergeResult.conflicts (merge_keys ancestor ours theirs keys r))
        ↔ (Memᴰ c r.conflicts ⊎ ClashesIn keys c)
  unfolding merge_keys
  Memᴰ-merge_keys [] r c = (inl, λ h. elim h [ inl m ↦ m | inr (e, q) ↦ absurd (cc) ])
  Memᴰ-merge_keys (key ∷ keys) r c =
      let r' = applied r key (Maps.get ours key) (Maps.get theirs key) (outcome key) in
      let rest = Memᴰ-merge_keys keys r' c in
      let here = Memᴰ-applied r key (outcome key) c in
      let cons = ClashesIn-cons key keys c in
      rw (merge_key-applied r key (Maps.get ancestor key) (Maps.get ours key) (Maps.get theirs key))
        (
          λ m. elim (rest.0 m) [
            | inl k ↦ elim (here.0 k) [ inl a ↦ inl a | inr b ↦ inr (cons.0 (inl b)) ]
            | inr k ↦ inr (cons.0 (inr k))
          ],
          λ h. elim h [
            | inl m ↦ rest.1 (inl (here.1 (inl m)))
            | inr k ↦ elim (cons.1 k) [
              | inl b ↦ rest.1 (inl (here.1 (inr b)))
              | inr b ↦ rest.1 (inr b)
            ]
          ],
        )

  all_keys : List Bytes
  all_keys = collect_set (Maps.keys ancestor ++ Maps.keys ours ++ Maps.keys theirs)

  -- A path that is not looked at has no file anywhere.
  outcome-absent : (p : Bytes) → contains all_keys p ≡ false → outcome p ≡ take none
  unfolding all_keys rule option_discrete
  outcome-absent p n =
      rw
        (
          absent ancestor (ground (arith, none_of)),
          absent ours (ground (arith, none_of)),
          absent theirs (ground (arith, none_of)),
        )
        refl
    where
      absent : (files : Files) → contains (Maps.keys files) p ≡ false → Maps.get files p ≡ none
      absent files m = (Maps.contains-keys files p).0 m

      none_of :
          (contains (Maps.keys ancestor) p
            || (contains (Maps.keys ours) p || contains (Maps.keys theirs) p))
          ≡ false
      none_of = ground (
        arith,
        n,
        contains-collect_set (Maps.keys ancestor ++ Maps.keys ours ++ Maps.keys theirs) p,
        contains-append (Maps.keys ancestor ++ Maps.keys ours) (Maps.keys theirs) p,
        contains-append (Maps.keys ancestor) (Maps.keys ours) p,
      )

  -- A path has the file that the rule gives it, and the conflicts reported are those of the rule,
  -- each with what both sides have there.
  pub three_way_diff-rule :
      ((p : Bytes)
        → Maps.get (MergeResult.merged (three_way_diff ancestor ours theirs)) p ≡ taken (outcome p))
      × ((c : MergeConflict)
          → Memᴰ c (MergeResult.conflicts (three_way_diff ancestor ours theirs)) ↔ Clashes c)
  unfolding three_way_diff all_keys Maps.get
  three_way_diff-rule = (
    λ p. get-merge_keys all_keys begin p ∙ (elim (Bool-cases (contains all_keys p)) [
      | inl k ↦ rw k (pick-none (outcome p))
      | inr n ↦ rw (n, outcome-absent p n) refl
    ]),
    λ c. (
      λ m. elim ((Memᴰ-merge_keys all_keys begin c).0 m) [
        | inl k ↦ absurd (Memᴰ.not-nil k)
        | inr (k, clashes) ↦ clashes
      ],
      λ clashes. elim (Bool-cases (contains all_keys c.path)) [
        | inl k ↦ (Memᴰ-merge_keys all_keys begin c).1 (inr (k, clashes))
        | inr n ↦ absurd (no_clash (sym (outcome-absent c.path n) ∙ clashes.0))
      ],
    ),
  )
    where
      begin : MergeResult
      begin = record { merged = []; conflicts = [] }

      no_clash : take none ≡ clash → ⊥
      no_clash e = cc
