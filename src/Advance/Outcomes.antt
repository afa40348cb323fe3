-- ===== src/Advance/Outcomes.antt =====
-- What advance_timeline_expecting of src/repo/mod.rs leaves behind.
use bole.Base.{
  Option, none, some, bytes_eq, ◌==◌, eq_iff, if◌then◌else◌, Result, ok, err, ◌≡◌, ◌≢◌, refl, ◌∙◌,
  ◌⊎◌, inl, inr,
}
use bole.Base.Checks.{Check, stalled, refused, passed, Ends}
use bole.Base.Maps
use bole.Base.Maps.{get-insert}
use bole.Access.{Accessor}
use bole.Refs.{ObjectId, RefName, Refs, timeline, Timeline, get_timeline}
use bole.Refs.Methods.{ref_cases, swap_head, swap_head-timeline}
use bole.Approval.{Ed25519}
use bole.Repo.{AuditDecision, Repository, allowed}
use bole.Advance.{Refusal, audit_advance, refuse_with, conclude, advance_timeline_expecting}
use bole.Advance.Ends.{Unallowed, check_advance-Ends}
use bole.Advance.Guards.{Cleared, check_advance-Cleared}

check_cases :
    {R T : Type 0} (P : R → Type 0) (c : Check R T)
    → Ends P c
    → ((r : R) × (c ≡ refused r) × P r) ⊎ ((x : T) × (c ≡ passed x))
check_cases P stalled h = absurd h.ended
check_cases P (refused r) h = inl (r, refl, h.ended)
check_cases P (passed x) h = inr (x, refl)

get_timeline-some :
    (refs : Refs) (name : RefName) (tl : Timeline)
    → get_timeline refs name ≡ ok (some tl)
    → Maps.get refs name ≡ some (timeline tl)
unfolding get_timeline
get_timeline-some refs name tl h = elim (ref_cases (Maps.get refs name)) [
  | inl e ↦ absurd (cc (rw (e, get_timeline) at h))
  | inr (inl (t, e)) ↦ absurd (cc (rw (e, get_timeline) at h))
  | inr (inr (t, e)) ↦ e ∙ cc (rw (e, get_timeline) at h)
]

-- The commit moves a timeline that is where the checks found it.
pub swap_head-found :
    (refs : Refs) (name : RefName) (new : ObjectId) (tl : Timeline)
    → get_timeline refs name ≡ ok (some tl)
    → swap_head refs name tl.head new
      ≡ (Maps.insert refs name (timeline (record tl { head = new })), ok tt)
swap_head-found refs name new tl h =
    swap_head-timeline refs name tl.head new tl (get_timeline-some refs name tl h)
    ∙ rw ((eq_iff tl.head tl.head).1 refl)

module _ (r : Repository) (ed : Ed25519) (name : RefName) (snapshot_id : ObjectId)
    (accessor : Accessor) where
  -- A cleared timeline stands at the new head, every other ref is as it was, and the trail has an
  -- entry that allows the advance.
  pub record IsAdvanced (expected : Option ObjectId) (after : Repository) : Type 0 where
    pub tl : Timeline
    pub cleared : Cleared r ed name snapshot_id accessor expected tl
    pub heads :
        (n : RefName)
        → Maps.get after.refs n ≡ (
            if n == name
            then some (timeline (record tl { head = snapshot_id }))
            else Maps.get r.refs n)
    pub trail :
        after
        ≡ audit_advance r ed name snapshot_id accessor
            (record r { refs = after.refs })
            (some tl.head)
            allowed

  -- Nothing has changed, or there is one entry more in the trail, which does not allow the advance.
  abbrev pub IsRefused : Repository → Type 0
  IsRefused after =
      (after ≡ r)
      ⊎ ((old : ObjectId) × (decision : AuditDecision) × (decision ≢ allowed)
          × (after ≡ audit_advance r ed name snapshot_id accessor r (some old) decision))

  abbrev pub Comes : Option ObjectId → Repository × Result (Unit {0}) → Type 0
  Comes expected (after, ok done) = IsAdvanced expected after
  Comes expected (after, err e) = IsRefused after

  refuse_with-Comes :
      (expected : Option ObjectId) (refusal : Refusal)
      → Unallowed refusal
      → Comes expected (refuse_with r ed name snapshot_id accessor refusal)
  unfolding audit_advance
  refuse_with-Comes expected (none, e) h = inl refl
  refuse_with-Comes expected (some (none, decision), e) h = inl refl
  refuse_with-Comes expected (some (some old, decision), e) h = inr (old, decision, h, refl)

  -- An advance ends. It succeeds by moving a cleared timeline to the new head, with an entry in the
  -- trail that allows it, and leaves every other ref as it was; or it fails, and changes nothing, or
  -- nothing but the trail, which has one more entry that does not allow the advance.
  pub advance_timeline_expecting_cases :
      (expected : Option ObjectId)
      → (o : Repository × Result (Unit {0})) × (advance_timeline_expecting r ed name snapshot_id
            accessor expected
          ≡ some o)
        × Comes expected o
  unfolding advance_timeline_expecting audit_advance
  advance_timeline_expecting_cases expected =
      elim (check_cases Unallowed _ (check_advance-Ends r ed name snapshot_id accessor expected)) [
        | inl (refusal, e, unallowed) ↦ (
          refuse_with r ed name snapshot_id accessor refusal,
          rw (e, advance_timeline_expecting) refl,
          refuse_with-Comes expected refusal unallowed,
        )
        | inr (tl, e) ↦
            let cleared =
              (check_advance-Cleared r ed name snapshot_id accessor expected).holds tl e in
            let after = Maps.insert r.refs name (timeline (record tl { head = snapshot_id })) in
            let swapped = swap_head-found r.refs name snapshot_id tl cleared.there in
            (
              conclude r ed name snapshot_id accessor tl.head (after, ok tt),
              rw (e, advance_timeline_expecting) (rw swapped refl),
              record {
                tl = tl;
                cleared = cleared;
                heads = λ n. get-insert r.refs name (timeline (record tl { head = snapshot_id })) n;
                trail = refl;
              },
            )
      ]
