-- ===== src/Repo/Prune.antt =====
-- prune_timeline of src/repo/mod.rs.
use bole.Base.{
  ℕ, ◌≤◌, Bool, true, false, not, Option, none, some, [], bytes_eq, ◌==◌, any, any-intro,
  if◌then◌else◌, leb, Result, ok, err, Error, wrong_ref_kind, ◌≡◌, ◌⊎◌, refl, sym, ◌∙◌, arith, inl,
  inr, Bool-cases,
}
use bole.Base.Maps
use bole.Base.Maps.{get-remove}
use bole.Refs.{ObjectId, RefName, tag, timeline, Tag, Timeline, list, get_timeline, delete_ref}
use bole.Refs.Methods.{ref_cases}
use bole.Repo.{expired, Repository, tags_head, prune_timeline}
use bole.Repo.Served.{contains-list}

module _ (r : Repository) (name : RefName) (now : ℕ) where
  -- The timeline is past its end, and no tag points to its head.
  pub record IsPrunable (tl : Timeline) : Type 0 where
    pub there : Maps.get r.refs name ≡ some (timeline tl)
    pub end : ℕ
    pub ends : tl.expires_at ≡ some end
    pub past : end ≤ now
    pub untagged :
        (n : RefName) (t : Tag) → Maps.get r.refs n ≡ some (tag t) → (t.target == tl.head) ≡ false

  untagged_of :
      (head : ObjectId)
      → any (tags_head r.refs head) (list r.refs []) ≡ false
      → (n : RefName) (t : Tag) → Maps.get r.refs n ≡ some (tag t)
      → (t.target == head) ≡ false
  untagged_of head h n t e = elim (Bool-cases (t.target == head)) [
    | inr other ↦ other
    | inl hit ↦ absurd (
        cc (
          sym h
          ∙ any-intro (tags_head r.refs head) (list r.refs []) n
              (contains-list r.refs n ∙ rw e refl) (rw (e, tags_head) hit)))
  ]

  abbrev pub Pruned : Repository × Result Bool → Type 0
  Pruned o =
      (o ≡ (r, ok false))
      ⊎ (((e : Error) × (o ≡ (r, err e)))
          ⊎ ((tl : Timeline) × IsPrunable tl
              × (o.1 ≡ ok true)
              × ((n : RefName)
                  → Maps.get o.0.refs n ≡ (if n == name then none else Maps.get r.refs n))))

  -- The three tests on a timeline that is there.
  timeline-Pruned :
      (tl : Timeline) (end : Option ℕ)
      → Maps.get r.refs name ≡ some (timeline tl)
      → tl.expires_at ≡ end
      → Pruned (
          if not (expired end now)
          then (r, ok false)
          else if any (tags_head r.refs tl.head) (list r.refs [])
          then (r, ok false)
          else (record r { refs = (delete_ref r.refs name).0 }, ok true))
  unfolding delete_ref
  timeline-Pruned tl none e q = inl refl
  timeline-Pruned tl (some end) e q = elim (Bool-cases (leb end now)) [
    | inr early ↦ rw early (inl refl)
    | inl past ↦ elim (Bool-cases (any (tags_head r.refs tl.head) (list r.refs []))) [
      | inl tagged ↦ rw (past, tagged) (inl refl)
      | inr free ↦
          rw (past, free)
            (inr (
              inr (
                tl,
                record {
                  there = e;
                  end = end;
                  ends = q;
                  past = ground (arith, past);
                  untagged = untagged_of tl.head free;
                },
                refl,
                λ n. get-remove r.refs name n,
              )))
    ]
  ]

  -- Pruning removes the named timeline and no other ref, where the timeline is past its end and no
  -- tag points to its head, and answers true; or it answers false, or fails, and changes nothing.
  pub prune_timeline_cases : Pruned (prune_timeline r name now)
  unfolding prune_timeline get_timeline
  prune_timeline_cases = elim (ref_cases (Maps.get r.refs name)) [
    | inl e ↦ rw (e, prune_timeline, get_timeline) (inl refl)
    | inr (inl (t, e)) ↦
        rw (e, prune_timeline, get_timeline)
          (inr (inl (wrong_ref_kind "is a tag, not a timeline", refl)))
    | inr (inr (tl, e)) ↦
        rw (e, prune_timeline, get_timeline) (timeline-Pruned tl tl.expires_at e refl)
  ]
