-- ===== src/Advance/Blind.antt =====
-- What the walks in advance_timeline_expecting and merge_timelines of src/repo/mod.rs find: they go by
-- Accessor::privileged of src/acl/mod.rs, whose lattice is the two-point one.
use bole.Base.{
  Bool, true, false, Option, none, some, [], Bytes, bytes_eq, pair_eq, ◌==◌, eq_iff, contains,
  contains_cases, Result, ok, err, ◌≡◌, ◌≢◌, refl, sym, ap, subst, ◌∙◌, arith, inl, inr, Bool-cases,
  ℕ_discrete, bytes_discrete, bytes_cmp, pair_cmp,
}
use bole.Base.Checks.{passed, Post, >>=-Post, of_result-passed, of_search-passed}
use bole.Base.Maps
use bole.Lattice.{Label, Edge, public, protected, two_point, bottom, top, dominates}
use bole.Lattice.Reach.{Below, here, up, dominates_iff}
use bole.Rules.{label_for_path}
use bole.Access.{ResourceRef, qualifies, can_read, privileged}
use bole.Refs.{ObjectId}
use bole.Merge.{Files}
use bole.Repo.{Repository, visible, walk_tree}
use bole.Repo.Walk.{Alike, walk_tree-Alike}
use bole.Advance.{Refusal, unaudited, walk_all}

top-two_point : top two_point ≡ protected
unfolding top dominates two_point bytes_cmp pair_cmp bytes_discrete ℕ_discrete
top-two_point = refl

-- The one covering edge leads up from `public` to `protected`.
edge-two_point :
    (x y : Label) → contains two_point.cover (x, y) ≡ true → (x ≡ public) × (y ≡ protected)
unfolding two_point bytes_cmp pair_cmp bytes_discrete ℕ_discrete
edge-two_point x y h =
    elim (contains_cases {A = Edge} {x = (x, y)} {y = (public, protected)} [] h) [
      | inl e ↦ (ap (λ (p : Edge). p.0) e, ap (λ (p : Edge). p.1) e)
      | inr n ↦ absurd (cc n)
    ]

public_below_protected : public ≢ protected
public_below_protected = λ e. cc

Below-public : {x y : Label} → Below two_point.cover x y → y ≡ public → x ≡ public
Below-public here e = e
Below-public (up {x} {y} q m) e = absurd (public_below_protected (sym e ∙ (edge-two_point x y m).1))

Below-protected :
    {x y : Label} → Below two_point.cover x y → y ≡ protected → x ≢ protected → x ≡ public
Below-protected here e ne = absurd (ne e)
Below-protected (up {x} {y} q m) e ne = Below-public q (edge-two_point x y m).0

-- The reader of everything reads no label but `public` and `protected`.
can_read-privileged :
    (label : Label) (at : ResourceRef)
    → label ≢ public
    → label ≢ protected
    → can_read privileged label at ≡ false
unfolding can_read privileged qualifies
can_read-privileged label at np nq = elim (Bool-cases (dominates two_point (top two_point) label)) [
  | inr n ↦ rw n (ground arith)
  | inl d ↦
      absurd (
        np (Below-protected ((dominates_iff two_point (top two_point) label).0 d) top-two_point nq))
]

module _ (r : Repository) where
  -- A path of a label of the repository's own lattice that stands above its bottom.
  abbrev pub Unseen : Bytes → Type 0
  Unseen p =
      (label_for_path r.rules r.lattice p ≢ bottom r.lattice)
      × (label_for_path r.rules r.lattice p ≢ public)
      × (label_for_path r.rules r.lattice p ≢ protected)

  visible-privileged : (p : Bytes) → Unseen p → visible r.lattice r.rules privileged p ≡ false
  unfolding visible
  visible-privileged p (nb, np, nq) =
      elim (Bool-cases (label_for_path r.rules r.lattice p == bottom r.lattice)) [
        | inl e ↦ absurd (nb ((eq_iff (label_for_path r.rules r.lattice p) (bottom r.lattice)).0 e))
        | inr n ↦
            rw
              (
                n,
                can_read-privileged (label_for_path r.rules r.lattice p) (ResourceRef.path p) np nq,
              )
              refl
      ]

  Alike-unseen :
      (sees : Bytes → Bool) (o : Option (Result Files)) (out : Files) (p : Bytes)
      → sees p ≡ false
      → Alike sees o (some (ok out))
      → Maps.get out p ≡ none
  Alike-unseen sees none out p u h = absurd h
  Alike-unseen sees (some (err e)) out p u h = absurd h
  Alike-unseen sees (some (ok whole)) out p u h = h p ∙ rw u refl

  -- The walk that the checks of an advance and a merge go by finds no file at a path whose label is
  -- neither the repository's bottom nor `public` nor `protected`, whatever the tree holds.
  pub walk_all-Unseen :
      (id : ObjectId) (paths : Files) (p : Bytes)
      → walk_all r id ≡ passed paths
      → Unseen p
      → Maps.get paths p ≡ none
  unfolding walk_all
  walk_all-Unseen id paths p h unseen = unseen_walk.holds paths h
    where
      P : Files → Type 0
      P files = Maps.get files p ≡ none

      unseen_walk : Post P (walk_all r id)
      unseen_walk = >>=-Post P _ _ (λ walked e. record {
        holds = λ files q.
            Alike-unseen (visible r.lattice r.rules privileged)
              (walk_tree (λ n. true) r.objects id []) files p (visible-privileged p unseen)
              (subst
                (λ o.
                  Alike (visible r.lattice r.rules privileged)
                    (walk_tree (λ n. true) r.objects id []) o)
                (of_search-passed Refusal _ e ∙ ap some (of_result-passed unaudited walked q))
                (walk_tree-Alike r.objects (visible r.lattice r.rules privileged) id []));
      })
