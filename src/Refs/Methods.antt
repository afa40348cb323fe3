-- ===== src/Refs/Methods.antt =====
-- What the methods of the store, and compare-and-swap, do to the refs.
use bole.Base.{
  ℕ, false, Option, none, some, [], ◌∷◌, Bytes, bytes_eq, option_eq, ◌==◌, if◌then◌else◌, storage,
  wrong_ref_kind, Error, Option-cases, transaction_conflict, ok, err, ◌≡◌, refl, ◌⊎◌, inl, inr,
  arith, ◌∙◌, Bool-cases, ◌≢◌, eq_iff, ap,
}
use bole.Base.Maps
use bole.Base.Maps.{get-insert, get-remove}
use bole.Refs.{
  ObjectId, RefName, Refs, Ref, tag, timeline, Tag, Timeline, TimelinePolicy, ref_eq, Outcome,
  set_raw, create_tag, move_tag, create_timeline, advance_head, advance_head_if_op, resolve_op,
  resolve, apply_atomic, commit_transaction,
}

-- The store after the method gives `name` the ref `r`, and every other name what it had.
abbrev pub Writes : Refs → Outcome → RefName → Ref → Type 0
Writes refs (after, result) name r =
    (result ≡ ok tt)
    × ((n : RefName) → Maps.get after n ≡ (if n == name then some r else Maps.get refs n))

-- The method fails and changes nothing.
abbrev pub Refuses : Refs → Outcome → Type 0
Refuses refs (after, ok u) = ⊥
Refuses refs (after, err e) = after ≡ refs

pub ref_cases :
    (o : Option Ref)
    → (o ≡ none) ⊎ (((t : Tag) × (o ≡ some (tag t))) ⊎ ((t : Timeline) × (o ≡ some (timeline t))))
ref_cases none = inl refl
ref_cases (some (tag t)) = inr (inl (t, refl))
ref_cases (some (timeline t)) = inr (inr (t, refl))

module _ (refs : Refs) (name : RefName) where
  set_raw-Writes : (r : Ref) → Writes refs (set_raw refs name r) name r
  unfolding set_raw
  set_raw-Writes r = (refl, λ n. get-insert refs name r n)

  -- A free name takes the tag or the timeline; under a taken one both methods fail and change
  -- nothing.
  pub create_free :
      (target : ObjectId) (message : Option Bytes) (policy : TimelinePolicy) (now : ℕ)
      (life : Bytes) (expires_at : Option ℕ)
      → ((Maps.get refs name ≡ none)
          × Writes refs
              (create_tag refs name target message now)
              name
              (tag (record { target = target; created_at = now; message = message }))
          × Writes refs (create_timeline refs name target policy now life expires_at) name (
              timeline (record {
                head = target;
                policy = policy;
                created_at = now;
                kind = life;
                expires_at = expires_at;
              })))
        ⊎ ((r : Ref) × (Maps.get refs name ≡ some r)
            × Refuses refs (create_tag refs name target message now)
            × Refuses refs (create_timeline refs name target policy now life expires_at))
  unfolding create_tag create_timeline
  create_free target message policy now life expires_at = elim (Option-cases (Maps.get refs name)) [
    | inl e ↦
        inl (e, rw (e, create_tag) (set_raw-Writes _), rw (e, create_timeline) (set_raw-Writes _))
    | inr (r, e) ↦ inr (r, e, rw (e, create_tag) refl, rw (e, create_timeline) refl)
  ]

  -- Under a tag's name `move_tag` moves the tag and keeps its time and message, and `advance_head`
  -- fails; under a timeline's name `advance_head` moves the head and keeps the rest of the timeline,
  -- and `move_tag` fails; under a free name both fail. What fails changes nothing.
  pub move_kinds :
      (to : ObjectId)
      → ((t : Tag) × (Maps.get refs name ≡ some (tag t))
          × Writes refs (move_tag refs name to) name (tag (record t { target = to }))
          × Refuses refs (advance_head refs name to))
        ⊎ (((t : Timeline) × (Maps.get refs name ≡ some (timeline t))
              × Writes refs (advance_head refs name to) name (timeline (record t { head = to }))
              × Refuses refs (move_tag refs name to))
            ⊎ ((Maps.get refs name ≡ none)
                × Refuses refs (move_tag refs name to)
                × Refuses refs (advance_head refs name to)))
  unfolding move_tag advance_head
  move_kinds to = elim (ref_cases (Maps.get refs name)) [
    | inl e ↦ inr (inr (e, rw (e, move_tag) refl, rw (e, advance_head) refl))
    | inr (inl (t, e)) ↦ inl (t, e, rw (e, move_tag) (set_raw-Writes _), rw (e, advance_head) refl)
    | inr (inr (t, e)) ↦
        inr (inl (t, e, rw (e, advance_head) (set_raw-Writes _), rw (e, move_tag) refl))
  ]

abbrev pub swap_head : Refs → RefName → ObjectId → ObjectId → Outcome
swap_head refs name old new = commit_transaction refs (advance_head_if_op name old new ∷ [])

module _ (refs : Refs) (name : RefName) (old new : ObjectId) where
  pub swap_head-timeline :
      (t : Timeline)
      → Maps.get refs name ≡ some (timeline t)
      → swap_head refs name old new ≡ (
          if t.head == old
          then (Maps.insert refs name (timeline (record t { head = new })), ok tt)
          else (refs, err (transaction_conflict "head is not the expected value")))
  unfolding commit_transaction resolve apply_atomic Maps.insert Maps.get
  swap_head-timeline t e = elim (Bool-cases (t.head == old)) [
    | inl p ↦ rw (e, resolve_op, p)
    | inr n ↦ rw (e, resolve_op, n)
  ]

  swap_head-none :
      Maps.get refs name ≡ none
      → swap_head refs name old new ≡ (refs, err (storage "ref not found"))
  unfolding commit_transaction resolve Maps.get
  swap_head-none e = rw (e, resolve_op)

  swap_head-tag :
      (t : Tag)
      → Maps.get refs name ≡ some (tag t)
      → swap_head refs name old new ≡ (refs, err (wrong_ref_kind "is a tag, not a timeline"))
  unfolding commit_transaction resolve Maps.get
  swap_head-tag t e = rw (e, resolve_op)

  refused : (o : Outcome) (e : Error) → o ≡ (refs, err e) → o.1 ≡ ok tt → ⊥
  refused o e q h = cc (ap (λ (x : Outcome). x.1) q)

  -- A compare-and-swap succeeds only on a timeline whose head is the expected one, and writes the
  -- new head.
  pub swap_head-ok :
      (swap_head refs name old new).1 ≡ ok tt
      → (t : Timeline) × (Maps.get refs name ≡ some (timeline t))
        × (t.head ≡ old)
        × (swap_head refs name old new
            ≡ (Maps.insert refs name (timeline (record t { head = new })), ok tt))
  swap_head-ok h = elim (ref_cases (Maps.get refs name)) [
    | inl e ↦ absurd (refused (swap_head refs name old new) _ (swap_head-none e) h)
    | inr (inl (t, e)) ↦ absurd (refused (swap_head refs name old new) _ (swap_head-tag t e) h)
    | inr (inr (t, e)) ↦ elim (Bool-cases (t.head == old)) [
      | inl p ↦ (t, e, (eq_iff t.head old).0 p, swap_head-timeline t e ∙ rw p)
      | inr n ↦ absurd (
          refused (swap_head refs name old new)
            (transaction_conflict "head is not the expected value") (swap_head-timeline t e ∙ rw n)
            h)
    ]
  ]

not_eq : (a b : ObjectId) → a ≢ b → (a == b) ≡ false
not_eq a b n = ground arith

-- Of two compare-and-swaps from one expected head only the first can succeed: the second, on the
-- store that the first leaves, fails with a conflict, unless the first put the same head back.
pub swap_head_exclusive :
    (refs : Refs) (name : RefName) (old a b : ObjectId)
    → a ≢ old
    → (swap_head refs name old a).1 ≡ ok tt
    → swap_head (swap_head refs name old a).0 name old b
      ≡ ((swap_head refs name old a).0, err (transaction_conflict "head is not the expected value"))
swap_head_exclusive refs name old a b ne h =
    let (t, e, same, done) = swap_head-ok refs name old a h in
    let after = Maps.insert refs name (timeline (record t { head = a })) in
    rw done (
      swap_head-timeline after name old b (record t { head = a })
        (get-insert refs name (timeline (record t { head = a })) name
          ∙ rw ((eq_iff name name).1 refl))
      ∙ rw (not_eq a old ne))
