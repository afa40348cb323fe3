-- ===== src/RefDisk/Recovery.antt =====
-- src/refs/disk.rs: a transaction on disk against the backend in memory, with and without a crash.
use bole.Base.{
  none, some, List, [], ◌∷◌, ◌++◌, Bytes, bytes_eq, ok, ◌≡◌, refl, sym, ap, subst, ◌∙◌, inl, inr,
  eq_iff, ◌⊎◌, Option-cases, ℕ, zero, suc,
}
use bole.Base.Maps
use bole.Base.Maps.{Map, NodupKeys, get-insert, contains-keys}
use bole.Base.Slices.{take}
use bole.Refs.{RefName, Ref, Refs, current}
use bole.Refs
use bole.Refs.Commit.{get-apply_atomic}
use bole.RefDisk.{
  Postcard, Plan, DiskRefBackend, Call, write_journal, rename_journal, remove_journal, call, run,
  Outcome, apply_plan, commit_calls, apply_atomic, recover_loop, recover,
}
use bole.RefDisk.Steps.{Apart, Clear, Near, About, run-Near}
use bole.RefDisk.Planned.{
  began, run-began, Shows, Decodes, EndsAs, apply_plan-Applied, apply_plan-About, take_cases,
}
use mathlib.Core.Option

commit_calls_cases :
    (c : Postcard) (journal : Bytes) (plan : Plan)
    → (plan ≡ [])
      ⊎ (commit_calls c journal plan
          ≡ write_journal journal (c.plan_bytes plan)
            ∷ rename_journal journal
            ∷ (apply_plan c plan ++ (remove_journal journal ∷ [])))
unfolding commit_calls
commit_calls_cases c journal [] = inl refl
commit_calls_cases c journal (step ∷ plan) = inr refl

module _ (c : Postcard) (d : DiskRefBackend) (refs : Refs) (plan : Plan) (journal : Bytes)
    (decodes : Decodes c plan) (apart : Apart (Maps.keys plan)) (distinct : NodupKeys plan)
    (clear : Clear (Maps.keys plan) d) (no_journal : d.journals ≡ []) (shows : Shows c d refs) where
  abbrev names : List RefName
  names = Maps.keys plan

  -- The state in which the journal has its name.
  abbrev begun : DiskRefBackend
  begun = began c d journal plan

  begun_journals : begun.journals ≡ (journal, c.plan_bytes plan) ∷ []
  unfolding Maps.insert
  begun_journals =
      ap (λ (m : Map Bytes Bytes). Maps.insert m journal (c.plan_bytes plan)) no_journal

  removed : Maps.remove ((journal, c.plan_bytes plan) ∷ []) journal ≡ []
  unfolding Maps.remove
  removed = rw ((eq_iff journal journal).1 refl) refl

  planned :
      (d' : DiskRefBackend) (j : RefName)
      → Near names begun d'
      → elim (Maps.get plan j) [ some v ↦ Option.map c.ref_bytes v | none ↦ Maps.get d'.files j ]
        ≡ Option.map c.ref_bytes (Maps.get (Refs.apply_atomic refs plan) j)
  unfolding current
  planned d' j near = elim (Option-cases (Maps.get plan j)) [
    | inl e ↦
        rw (get-apply_atomic refs plan j distinct, current, e)
          (near.outside j ((contains-keys plan j).1 e) ∙ shows j)
    | inr (v, e) ↦ rw (get-apply_atomic refs plan j distinct, current, e) refl
  ]

  -- The plan's calls made once more, from wherever they stopped.
  replay :
      (d' : DiskRefBackend)
      → Near names begun d'
      → EndsAs c
          (run d' (apply_plan c plan ++ (remove_journal journal ∷ [])))
          (Refs.apply_atomic refs plan)
  unfolding run call
  replay d' near =
      let (after, a) = apply_plan-Applied c names apart plan d' (λ n k. k) distinct near.clear in
      subst (λ (o : Outcome). EndsAs c o (Refs.apply_atomic refs plan))
        (sym (a.runs (remove_journal journal ∷ [])))
        (
          refl,
          ap (λ (m : Map Bytes Bytes). Maps.remove m journal)
                (a.journals_same ∙ near.same ∙ begun_journals)
              ∙ removed,
          λ j. a.shows j ∙ planned d' j near,
        )

  start : Near names begun begun
  start = record {
    clear = record { above = clear.above; no_dir = clear.no_dir };
    outside = λ j h. refl;
    same = refl;
  }

  -- Opening the store after a crash that left no journal.
  recover_none :
      (d' : DiskRefBackend) (rs : Refs)
      → d'.journals ≡ []
      → Shows c d' rs
      → EndsAs c (recover c d') rs
  unfolding recover recover_loop
  recover_none d' rs e h =
      subst (λ (m : Map Bytes Bytes). EndsAs c (recover_loop c m d') rs) (sym e) (refl, e, h)

  recover_one :
      (d' : DiskRefBackend)
      → Near names begun d'
      → EndsAs c (recover c d') (Refs.apply_atomic refs plan)
  unfolding recover recover_loop
  recover_one d' near =
      let (ended, none_left, same) = replay d' near in
      subst (λ (m : Map Bytes Bytes). EndsAs c (recover_loop c m d') (Refs.apply_atomic refs plan))
        (sym (near.same ∙ begun_journals))
        (subst (λ (o : Outcome). EndsAs c o (Refs.apply_atomic refs plan)) (sym (one ended))
          (refl, none_left, same))
    where
      one :
          (run d' (apply_plan c plan ++ (remove_journal journal ∷ []))).1 ≡ ok tt
          → recover_loop c ((journal, c.plan_bytes plan) ∷ []) d'
            ≡ ((run d' (apply_plan c plan ++ (remove_journal journal ∷ []))).0, ok tt)
      one ended = rw (recover_loop, decodes, ended) refl

  -- A transaction on disk ends well, leaves no journal, and leaves the refs that it leaves in memory.
  -- The names of the plan are distinct, none is a directory of another, no file or directory is in
  -- their way, no journal is left from before, and the bytes of the plan are read back.
  pub apply_atomic-EndsAs : EndsAs c (apply_atomic c d journal plan) (Refs.apply_atomic refs plan)
  unfolding apply_atomic commit_calls run Refs.apply_atomic
  apply_atomic-EndsAs = elim (commit_calls_cases c journal plan) [
    | inl e ↦
        subst (λ (p : Plan). EndsAs c (run d (commit_calls c journal p)) (Refs.apply_atomic refs p))
          (sym e) (refl, no_journal, shows)
    | inr e ↦
        subst (λ (o : Outcome). EndsAs c o (Refs.apply_atomic refs plan))
          (sym (ap (run d) e ∙ run-began c d journal plan _)) (replay begun start)
  ]

  abbrev Recovered : List Call → Type 0
  Recovered xs =
      EndsAs c (recover c (run d xs).0) refs
      ⊎ EndsAs c (recover c (run d xs).0) (Refs.apply_atomic refs plan)

  -- After the first two calls.
  past_begin :
      (k : ℕ)
      → EndsAs c
          (recover c (run begun (take k (apply_plan c plan ++ (remove_journal journal ∷ [])))).0)
          (Refs.apply_atomic refs plan)
  past_begin k =
      elim (take_cases (About names) k (apply_plan c plan) (remove_journal journal)
        (apply_plan-About c names apart plan (λ n h. h))) [
          | inl about ↦ recover_one _ (run-Near names apart _ begun begun about start)
          | inr all ↦
              let (ended, none_left, same) = replay begun start in
              subst
                (λ (xs : List Call).
                  EndsAs c (recover c (run begun xs).0) (Refs.apply_atomic refs plan))
                (sym all) (recover_none _ _ none_left same)
        ]

  any_point :
      (k : ℕ)
      → Recovered (
          take k (
            write_journal journal (c.plan_bytes plan)
            ∷ rename_journal journal
            ∷ (apply_plan c plan ++ (remove_journal journal ∷ []))))
  unfolding run call
  any_point zero = inl (recover_none d refs no_journal shows)
  any_point (suc zero) = inl (recover_none _ refs no_journal shows)
  any_point (suc (suc k)) = inr (
      subst (λ (o : Outcome). EndsAs c (recover c o.0) (Refs.apply_atomic refs plan))
        (sym (
          run-began c d journal plan (take k (apply_plan c plan ++ (remove_journal journal ∷ [])))))
        (past_begin k))

  no_calls : (k : ℕ) → Recovered (take k [])
  unfolding run
  no_calls zero = inl (recover_none d refs no_journal shows)
  no_calls (suc k) = inl (recover_none d refs no_journal shows)

  -- A transaction that a crash stops after any number of its calls is undone or completed when the
  -- store is next opened: recovery ends well, leaves no journal, and leaves all refs as they were
  -- or all as the transaction leaves them in memory. The names of the plan are distinct, none is a
  -- directory of another, no file or directory is in their way, no journal is left from before, and
  -- the bytes of the plan are read back.
  pub recover-Atomic :
      (k : ℕ)
      → EndsAs c (recover c (run d (take k (commit_calls c journal plan))).0) refs
        ⊎ EndsAs c
            (recover c (run d (take k (commit_calls c journal plan))).0)
            (Refs.apply_atomic refs plan)
  unfolding commit_calls
  recover-Atomic k = elim (commit_calls_cases c journal plan) [
    | inl e ↦
        subst (λ (p : Plan). Recovered (take k (commit_calls c journal p))) (sym e) (no_calls k)
    | inr e ↦ subst (λ (xs : List Call). Recovered (take k xs)) (sym e) (any_point k)
  ]
