-- ===== src/Refs/Commit.antt =====
-- A commit does what its operations do one after another, all or nothing.
use bole.Base.{
  Option, none, some, List, [], ◌∷◌, bytes_eq, option_eq, ◌==◌, Result, ok, err, ◌>>=◌, ◌≡◌, refl,
  ◌⊎◌, inl, inr, arith, ◌∙◌, Bool-cases, ap,
}
use bole.Base.Maps
use bole.Base.Maps.{NodupKeys, insert-NodupKeys, get-insert, get-remove}
use bole.Refs.{
  RefName, Refs, Ref, tag, timeline, Tag, Timeline, ref_eq, Outcome, set_raw, delete_ref,
  create_tag, move_tag, create_timeline, advance_head, RefOp, create_tag_op, move_tag_op,
  create_timeline_op, advance_head_op, set_op, delete_op, expect_op, advance_head_if_op, Overlay,
  current, resolve_op, resolve_ops, resolve, apply_atomic, settle, commit_transaction,
}
use bole.Refs.Sequential.{perform, store_of, sequential}

ruleset opened = (resolve_op, perform, create_tag, move_tag, create_timeline, advance_head)

module _ (base : Refs) where
  -- The overlay over the base shows what the store holds.
  record Shows (overlay : Overlay) (refs : Refs) : Type 0 where
    keys : NodupKeys overlay
    same : (n : RefName) → current base overlay n ≡ Maps.get refs n

  abbrev Agree : Result Overlay → Result Refs → Type 0
  Agree (ok overlay) (ok refs) = Shows overlay refs
  Agree (err d) (err e) = d ≡ e
  Agree _ _ = ⊥

  Shows-insert :
      (overlay : Overlay) (refs : Refs) (name : RefName) (r : Ref)
      → Shows overlay refs
      → Shows (Maps.insert overlay name (some r)) (Maps.insert refs name r)
  unfolding current
  Shows-insert overlay refs name r s = record {
    keys = insert-NodupKeys overlay name (some r) s.keys;
    same =
        λ n. ground (arith, s.same n, get-insert overlay name (some r) n, get-insert refs name r n);
  }

  Shows-remove :
      (overlay : Overlay) (refs : Refs) (name : RefName)
      → Shows overlay refs
      → Shows (Maps.insert overlay name none) (Maps.remove refs name)
  unfolding current
  Shows-remove overlay refs name s = record {
    keys = insert-NodupKeys overlay name none s.keys;
    same = λ n. ground (arith, s.same n, get-insert overlay name none n, get-remove refs name n);
  }

  abbrev Kind : Option Ref → Type 0
  Kind o =
      (o ≡ none) ⊎ (((t : Tag) × (o ≡ some (tag t))) ⊎ ((t : Timeline) × (o ≡ some (timeline t))))

  kind : (o : Option Ref) → Kind o
  kind none = inl refl
  kind (some (tag t)) = inr (inl (t, refl))
  kind (some (timeline t)) = inr (inr (t, refl))

  resolve_op-Agree :
      (overlay : Overlay) (refs : Refs) (op : RefOp)
      → Shows overlay refs
      → Agree (resolve_op base overlay op) (store_of (perform refs op))
  unfolding resolve_op perform set_raw delete_ref create_tag move_tag create_timeline advance_head
  resolve_op-Agree overlay refs (create_tag_op name target message now) s =
      elim (kind (Maps.get refs name)) [
        | inl e ↦ rw (s.same name ∙ e, e, opened) (Shows-insert overlay refs name _ s)
        | inr (inl (t, e)) ↦ rw (s.same name ∙ e, e, opened) refl
        | inr (inr (t, e)) ↦ rw (s.same name ∙ e, e, opened) refl
      ]
  resolve_op-Agree overlay refs (move_tag_op name target) s = elim (kind (Maps.get refs name)) [
    | inl e ↦ rw (s.same name ∙ e, e, opened) refl
    | inr (inl (t, e)) ↦ rw (s.same name ∙ e, e, opened) (Shows-insert overlay refs name _ s)
    | inr (inr (t, e)) ↦ rw (s.same name ∙ e, e, opened) refl
  ]
  resolve_op-Agree overlay refs (create_timeline_op name head policy now life expires_at) s =
      elim (kind (Maps.get refs name)) [
        | inl e ↦ rw (s.same name ∙ e, e, opened) (Shows-insert overlay refs name _ s)
        | inr (inl (t, e)) ↦ rw (s.same name ∙ e, e, opened) refl
        | inr (inr (t, e)) ↦ rw (s.same name ∙ e, e, opened) refl
      ]
  resolve_op-Agree overlay refs (advance_head_op name new_head) s =
      elim (kind (Maps.get refs name)) [
        | inl e ↦ rw (s.same name ∙ e, e, opened) refl
        | inr (inl (t, e)) ↦ rw (s.same name ∙ e, e, opened) refl
        | inr (inr (t, e)) ↦ rw (s.same name ∙ e, e, opened) (Shows-insert overlay refs name _ s)
      ]
  resolve_op-Agree overlay refs (set_op name value) s = Shows-insert overlay refs name value s
  resolve_op-Agree overlay refs (delete_op name) s = Shows-remove overlay refs name s
  resolve_op-Agree overlay refs (expect_op name expected) s =
      rw (s.same name, opened)
        (elim (Bool-cases (Maps.get refs name == expected)) [ inl p ↦ rw p s | inr n ↦ rw n refl ])
  resolve_op-Agree overlay refs (advance_head_if_op name expected_old new_head) s =
      elim (kind (Maps.get refs name)) [
        | inl e ↦ rw (s.same name ∙ e, e, opened) refl
        | inr (inl (t, e)) ↦ rw (s.same name ∙ e, e, opened) refl
        | inr (inr (t, e)) ↦
            rw (s.same name ∙ e, e, opened)
              (elim (Bool-cases (t.head == expected_old)) [
                | inl p ↦ rw (p, e, opened) (Shows-insert overlay refs name _ s)
                | inr n ↦ rw n refl
              ])
      ]

  resolve_ops-Agree :
      (ops : List RefOp) (overlay : Overlay) (refs : Refs)
      → Shows overlay refs
      → Agree (resolve_ops base overlay ops) (sequential refs ops)
  unfolding resolve_ops sequential
  resolve_ops-Agree [] overlay refs s = s
  resolve_ops-Agree (op ∷ ops) overlay refs s =
      next (resolve_op base overlay op) (store_of (perform refs op))
        (resolve_op-Agree overlay refs op s) (resolve_ops-Agree ops)
    where
      next :
          (r : Result Overlay) (q : Result Refs)
          → Agree r q
          → ((o : Overlay) (s : Refs)
              → Shows o s
              → Agree (resolve_ops base o ops) (sequential s ops))
          → Agree (r >>= λ o. resolve_ops base o ops) (q >>= λ s. sequential s ops)
      next (ok o) (ok s) a ih = ih o s a
      next (err d) (err e) a ih = a
      next (ok o) (err e) a ih = absurd a
      next (err d) (ok s) a ih = absurd a

  Shows-begin : Shows [] base
  unfolding current Maps.get
  Shows-begin = record { keys = tt; same = λ n. refl }

-- The plan's names are distinct, so their order does not matter.
pub get-apply_atomic :
    (base : Refs) (plan : Overlay) (n : RefName)
    → NodupKeys plan
    → Maps.get (apply_atomic base plan) n ≡ current base plan n
unfolding apply_atomic current Maps.get
get-apply_atomic base [] n u = refl
get-apply_atomic base ((k, some r) ∷ plan) n u =
    ground (arith, get-apply_atomic (Maps.insert base k r) plan n u.1, get-insert base k r n, u.0)
get-apply_atomic base ((k, none) ∷ plan) n u =
    ground (arith, get-apply_atomic (Maps.remove base k) plan n u.1, get-remove base k n, u.0)

-- What a commit leaves and returns, against the run of its operations.
abbrev pub CommitsAs : Refs → Outcome → Result Refs → Type 0
CommitsAs base (after, r) (ok s) = (r ≡ ok tt) × ((n : RefName) → Maps.get after n ≡ Maps.get s n)
CommitsAs base (after, r) (err e) = (r ≡ err e) × (after ≡ base)

settle-CommitsAs :
    (base : Refs) (r : Result Overlay) (q : Result Refs)
    → Agree base r q
    → CommitsAs base (settle base r) q
settle-CommitsAs base (ok plan) (ok s) a =
    (refl, λ n. get-apply_atomic base plan n a.keys ∙ a.same n)
settle-CommitsAs base (err d) (err e) a = (ap err a, refl)
settle-CommitsAs base (ok plan) (err e) a = absurd a
settle-CommitsAs base (err d) (ok s) a = absurd a

-- A transaction acts as its operations one after another by the store's own methods: if all of them
-- succeed, every name ends with the ref that they leave there, and if one is refused, the commit
-- fails with the error of the first that is, and the store is as it was.
pub commit-sequential :
    (refs : Refs) (ops : List RefOp)
    → CommitsAs refs (commit_transaction refs ops) (sequential refs ops)
unfolding commit_transaction resolve
commit-sequential refs ops =
    settle-CommitsAs refs (resolve_ops refs [] ops) (sequential refs ops)
      (resolve_ops-Agree refs ops [] refs (Shows-begin refs))
