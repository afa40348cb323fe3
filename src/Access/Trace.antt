-- ===== src/Access/Trace.antt =====
-- The decision traces agree with the decisions.
use bole.Base.{
  ℕ, ◌+◌, Bool, true, false, List, [], ◌∷◌, map, ◌≡◌, refl, ◌↔◌, arith, bytes_eq, any, any-map,
  if◌then◌else◌, Bool-cases, inl, inr, ℕ_discrete,
}
use bole.Lattice.{Label}
use bole.Access.{
  Capability, cap_read, cap_write, has_cap, ResourceRef, Clearance, Accessor, qualifies, at_level,
  can_read, can_write, ClearanceEval, evaluate, eval_qualifies, eval_at_level, mark_first, eval_cap,
  explain,
}

abbrev pub clear_mark : ClearanceEval → ClearanceEval
clear_mark e = record e { decisive = false }

-- How many entries are marked as decisive.
abbrev pub marks : List ClearanceEval → ℕ
marks [] = 0
marks (e ∷ es) = (if e.decisive then 1 else 0) + marks es

-- Every entry that is marked as decisive qualifies.
abbrev pub MarksQualify : List ClearanceEval → Type 0
MarksQualify [] = Unit
MarksQualify (e ∷ es) = (e.decisive ≡ true → eval_qualifies e ≡ true) × MarksQualify es

abbrev Unmarked : List ClearanceEval → Type 0
Unmarked [] = Unit
Unmarked (e ∷ es) = (e.decisive ≡ false) × Unmarked es

marks-Unmarked : (es : List ClearanceEval) → Unmarked es → marks es ≡ 0
marks-Unmarked [] u = refl
marks-Unmarked (e ∷ es) u = ground (arith, marks-Unmarked es u.1)

MarksQualify-Unmarked : (es : List ClearanceEval) → Unmarked es → MarksQualify es
MarksQualify-Unmarked [] u = tt
MarksQualify-Unmarked (e ∷ es) u = (λ h. cc, MarksQualify-Unmarked es u.1)

clear-Unmarked : (es : List ClearanceEval) → Unmarked es → map clear_mark es ≡ es
clear-Unmarked [] u = refl
clear-Unmarked (e ∷ es) u = ground (arith, clear-Unmarked es u.1)

marks-mark_first :
    (es : List ClearanceEval)
    → Unmarked es
    → any eval_qualifies es ≡ true
    → marks (mark_first es) ≡ 1
unfolding mark_first
marks-mark_first [] u h = absurd (cc)
marks-mark_first (e ∷ es) u h = ground (arith, marks-mark_first es u.1, marks-Unmarked es u.1)

mark_first-MarksQualify : (es : List ClearanceEval) → Unmarked es → MarksQualify (mark_first es)
unfolding mark_first
mark_first-MarksQualify [] u = tt
mark_first-MarksQualify (e ∷ es) u = elim (Bool-cases (eval_qualifies e)) [
  | inl q ↦ rw q ((λ _. q), MarksQualify-Unmarked es u.1)
  | inr n ↦ rw n ((λ h. cc), mark_first-MarksQualify es u.1)
]

clear-mark_first : (es : List ClearanceEval) → Unmarked es → map clear_mark (mark_first es) ≡ es
unfolding mark_first
clear-mark_first [] u = refl
clear-mark_first (e ∷ es) u = ground (arith, clear-mark_first es u.1, clear-Unmarked es u.1)

marked :
    (es : List ClearanceEval) (allowed : Bool)
    → Unmarked es
    → (allowed ≡ true → any eval_qualifies es ≡ true)
    → (map clear_mark (if allowed then mark_first es else es) ≡ es)
      × (marks (if allowed then mark_first es else es) ≡ (if allowed then 1 else 0))
      × MarksQualify (if allowed then mark_first es else es)
marked es true u h =
    (clear-mark_first es u, marks-mark_first es u (h refl), mark_first-MarksQualify es u)
marked es false u h = (clear-Unmarked es u, marks-Unmarked es u, MarksQualify-Unmarked es u)

module _ (a : Accessor) (label : Label) (r : ResourceRef) where
  evaluate-Unmarked :
      (cap : Capability) (cs : List Clearance) → Unmarked (map (evaluate a label r cap) cs)
  evaluate-Unmarked cap [] = tt
  evaluate-Unmarked cap (c ∷ cs) = (unfold evaluate in refl, evaluate-Unmarked cap cs)

  any-evaluate :
      (cap : Capability) (cs : List Clearance)
      → any eval_qualifies (map (evaluate a label r cap) cs) ≡ any (qualifies a label r cap) cs
  unfolding evaluate qualifies
  any-evaluate cap cs = any-map eval_qualifies (evaluate a label r cap) cs

  any_level-evaluate :
      (cap : Capability) (cs : List Clearance)
      → any eval_at_level (map (evaluate a label r cap) cs) ≡ any (at_level a label r cap) cs
  unfolding evaluate at_level
  any_level-evaluate cap cs = any-map eval_at_level (evaluate a label r cap) cs

  -- The verdicts of `explain` are those of `can_read` and `can_write`.
  pub explain_verdicts :
      ((explain a label r).0.allowed ≡ can_read a label r)
      × ((explain a label r).1.allowed ≡ can_write a label r)
  unfolding explain can_read can_write has_cap ℕ_discrete
  explain_verdicts =
      let cs = a.clearances.clearances in
      (
        ground (arith, any-evaluate cap_read cs),
        ground (arith, any-evaluate cap_write cs, any_level-evaluate cap_write cs),
      )

  -- A trace lists the evaluation of every clearance in order; where access is allowed exactly one
  -- is marked as decisive, and it qualifies, and where access is refused none is marked.
  pub eval_cap-marks :
      (cap : Capability)
      → (map clear_mark (eval_cap a label r cap).clearances
          ≡ map (evaluate a label r cap) a.clearances.clearances)
        × (marks (eval_cap a label r cap).clearances
            ≡ (if (eval_cap a label r cap).allowed then 1 else 0))
        × MarksQualify (eval_cap a label r cap).clearances
  unfolding eval_cap
  eval_cap-marks cap =
      marked (map (evaluate a label r cap) a.clearances.clearances) _
        (evaluate-Unmarked cap a.clearances.clearances) (λ h. ground arith)

  -- The trace of a write reports a blocked write-down exactly where the accessor is confined, a
  -- clearance qualifies, and the write is refused all the same.
  pub write_down_block : ((eval_cap a label r cap_write).confined_write_down_block ≡ true) ↔ (
      (a.clearances.confined ≡ true)
      × (any (qualifies a label r cap_write) a.clearances.clearances ≡ true)
      × (can_write a label r ≡ false))
  unfolding eval_cap can_write has_cap ℕ_discrete
  write_down_block =
      let cs = a.clearances.clearances in
      (
        λ h. (
          ground arith,
          ground (arith, any-evaluate cap_write cs),
          ground (arith, any-evaluate cap_write cs, any_level-evaluate cap_write cs),
        ),
        λ h. ground (arith, any-evaluate cap_write cs, any_level-evaluate cap_write cs),
      )
