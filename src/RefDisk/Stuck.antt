-- ===== src/RefDisk/Stuck.antt =====
-- src/refs/disk.rs: a transaction that sets a name and a name below it, which the backend in memory
-- takes.
use bole.Base.{
  Bool, true, false, some, is_some, List, [], ◌∷◌, ◌++◌, any, Bytes, bytes_eq, ◌==◌, contains,
  contains_head, io, err, ◌≡◌, refl, sym, ap, subst, ◌∙◌, arith, inl, inr, eq_iff, Bool-cases,
}
use bole.Base.Maps
use bole.Base.Maps.{Map, get-insert}
use bole.Refs.{RefName, Ref}
use bole.RefDisk.{
  Postcard, Plan, DiskRefBackend, ancestors, blocked, Call, create_dirs, call, run, set_calls,
  apply_plan, commit_calls, apply_atomic, recover_loop, recover,
}
use bole.RefDisk.Steps.{Apart, Clear, insert-Clear, dirs-Clear}
use bole.RefDisk.Planned.{Decodes, set_run, stored, run_fail, began, run-began}

any-found :
    (p : RefName → Bool) (xs : List RefName) (a : RefName)
    → contains xs a ≡ true
    → p a ≡ true
    → any p xs ≡ true
any-found p (x ∷ xs) a m h = elim (Bool-cases (a == x)) [
  | inl e ↦ rw (sym (ap p ((eq_iff a x).0 e)) ∙ h) refl
  | inr e ↦ ground (arith, e, any-found p xs a)
]
any-found p [] a m h = absurd (cc)

-- What is left of a commit that failed.
pub record IsStuck (c : Postcard) (d : DiskRefBackend) (journal : Bytes) (n m : RefName) (r s : Ref)
    (b : DiskRefBackend) : Type 0 where
  pub journal_there : b.journals ≡ (journal, c.plan_bytes ((n, some r) ∷ (m, some s) ∷ [])) ∷ []
  pub first_there : Maps.get b.files n ≡ some (c.ref_bytes r)
  pub second_missing : Maps.get b.files m ≡ Maps.get d.files m
  pub next_open : (recover c b).1 ≡ err io

module _ (c : Postcard) (d : DiskRefBackend) (journal : Bytes) (n m : RefName) (r s : Ref)
    (decodes : Decodes c ((n, some r) ∷ (m, some s) ∷ [])) (apart : Apart (n ∷ []))
    (clear : Clear (n ∷ []) d) (nested : contains (ancestors m) n ≡ true) where
  -- What `set` of the first name leaves.
  abbrev first_set : DiskRefBackend → DiskRefBackend
  first_set b = stored c (n ∷ []) apart b n (c.ref_bytes r)

  first_set-Clear : (b : DiskRefBackend) → Clear (n ∷ []) b → Clear (n ∷ []) (first_set b)
  first_set-Clear b h =
      insert-Clear (n ∷ []) apart (record b { dirs = ancestors n ++ b.dirs }) n _ _
        (contains_head n []) (dirs-Clear (n ∷ []) apart b n (contains_head n []) h)

  first_blocks : (b : DiskRefBackend) → blocked (first_set b) m ≡ true
  unfolding blocked
  first_blocks b = any-found _ (ancestors m) n nested there
    where
      there : is_some (Maps.get (Maps.insert b.files n (c.ref_bytes r)) n) ≡ true
      there = rw (get-insert b.files n (c.ref_bytes r) n, (eq_iff n n).1 refl) refl

  second_fails :
      (b : DiskRefBackend) (rest : List Call)
      → Clear (n ∷ []) b
      → run b (set_calls c n r ++ (create_dirs m ∷ rest)) ≡ (first_set b, err io)
  unfolding call
  second_fails b rest h =
      set_run c (n ∷ []) apart b n r (create_dirs m ∷ rest) (contains_head n []) h
      ∙ run_fail (first_set b) (first_set b) (create_dirs m) rest io
          (rw (first_blocks b, call) refl)

  abbrev plan : Plan
  plan = (n, some r) ∷ (m, some s) ∷ []

  after_failure : DiskRefBackend
  after_failure = first_set (began c d journal plan)

  began-Clear : Clear (n ∷ []) (began c d journal plan)
  began-Clear = record { above = clear.above; no_dir = clear.no_dir }

  differs : (m == n) ≡ false
  differs = elim (Bool-cases (m == n)) [
    | inl e ↦ absurd (
        cc (
          sym (apart n n (contains_head n []) (contains_head n []))
          ∙ ap (λ (x : RefName). contains (ancestors x) n) (sym ((eq_iff m n).0 e))
          ∙ nested))
    | inr e ↦ e
  ]

  fails_again :
      (b : DiskRefBackend)
      → Clear (n ∷ []) b
      → (recover_loop c ((journal, c.plan_bytes plan) ∷ []) b).1 ≡ err io
  unfolding recover_loop apply_plan set_calls
  fails_again b h = rw (recover_loop, decodes, second_fails b _ h) refl

  -- A transaction that sets a name and then a name below it fails between the two: the first ref is
  -- written, the second is not, and the journal stays, with which the next opening of the store
  -- fails. Nothing is in the way of the first name, no journal is left from before, and the bytes of
  -- the plan are read back.
  pub apply_atomic-IsStuck :
      d.journals ≡ []
      → (b : DiskRefBackend) × (apply_atomic c d journal plan ≡ (b, err io))
        × IsStuck c d journal n m r s b
  unfolding apply_atomic commit_calls after_failure apply_plan set_calls recover Maps.insert
  apply_atomic-IsStuck no_journal = (
    after_failure,
    run-began c d journal plan _ ∙ second_fails (began c d journal plan) _ began-Clear,
    record {
      journal_there = journals;
      first_there = get-insert d.files n (c.ref_bytes r) n ∙ rw ((eq_iff n n).1 refl) refl;
      second_missing = get-insert d.files n (c.ref_bytes r) m ∙ rw differs refl;
      next_open =
          subst (λ (j : Map Bytes Bytes). (recover_loop c j after_failure).1 ≡ err io)
            (sym journals) (fails_again after_failure (first_set-Clear _ began-Clear));
    },
  )
    where
      journals : after_failure.journals ≡ (journal, c.plan_bytes plan) ∷ []
      journals = ap (λ (j : Map Bytes Bytes). Maps.insert j journal (c.plan_bytes plan)) no_journal
