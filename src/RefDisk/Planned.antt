-- ===== src/RefDisk/Planned.antt =====
-- apply_plan of src/refs/disk.rs: a plan applied from a state that is clear of its names.
use bole.Base.{
  true, false, none, some, List, [], ◌∷◌, ◌++◌, Bytes, bytes_eq, contains, All, Error, ok, err, ◌≡◌,
  refl, ap, ◌∙◌, arith, inl, inr, eq_iff, ◌⊎◌, ℕ, zero, suc,
}
use bole.Base.Maps
use bole.Base.Maps.{Map, NodupKeys, get-insert, get-remove}
use bole.Base.Slices.{take}
use bole.Refs.{RefName, Ref, Refs}
use bole.RefDisk.{
  Postcard, Plan, DiskRefBackend, ancestors, Call, remove_file, write_journal, rename_journal, call,
  run, Outcome, set_calls, apply_plan,
}
use bole.RefDisk.Steps.{Apart, Clear, About, blocked-Clear, insert-Clear, remove-Clear, dirs-Clear}
use mathlib.Core.Option

pub run-call :
    (d d' : DiskRefBackend) (x : Call) (xs : List Call)
    → call d x ≡ (d', ok tt)
    → run d (x ∷ xs) ≡ run d' xs
unfolding run
run-call d d' x xs e = rw (ap (λ (o : Outcome). o.1) e, run) (ap (λ (o : Outcome). run o.0 xs) e)

pub run_fail :
    (d d' : DiskRefBackend) (x : Call) (xs : List Call) (e : Error)
    → call d x ≡ (d', err e)
    → run d (x ∷ xs) ≡ (d', err e)
unfolding run
run_fail d d' x xs e h =
    rw (ap (λ (o : Outcome). o.1) h, run) (ap (λ (o : Outcome). (o.0, err e)) h)

-- A commit up to the point where the journal has its name.
module _ (c : Postcard) (d : DiskRefBackend) (journal : Bytes) (plan : Plan) where
  abbrev journal_written : DiskRefBackend
  journal_written = record d {
    journal_temps = Maps.insert d.journal_temps journal (c.plan_bytes plan);
  }

  abbrev pub began : DiskRefBackend
  began = record d {
    journals = Maps.insert d.journals journal (c.plan_bytes plan);
    journal_temps = Maps.remove (Maps.insert d.journal_temps journal (c.plan_bytes plan)) journal;
  }

  pub run-began :
      (xs : List Call)
      → run d (write_journal journal (c.plan_bytes plan) ∷ rename_journal journal ∷ xs)
        ≡ run began xs
  unfolding call
  run-began xs =
      run-call d journal_written _ _ refl
      ∙ run-call journal_written began _ _ (rw (there, call) refl)
    where
      there :
          Maps.get (Maps.insert d.journal_temps journal (c.plan_bytes plan)) journal
          ≡ some (c.plan_bytes plan)
      there =
          get-insert d.journal_temps journal (c.plan_bytes plan) journal
          ∙ rw ((eq_iff journal journal).1 refl) refl

module _ (c : Postcard) where
  -- The files hold the refs of a store in memory.
  abbrev pub Shows : DiskRefBackend → Refs → Type 0
  Shows d refs = (j : RefName) → Maps.get d.files j ≡ Option.map c.ref_bytes (Maps.get refs j)

  -- What a run ended in: the files of this store, and no journal.
  abbrev pub EndsAs : Outcome → Refs → Type 0
  EndsAs o refs = (o.1 ≡ ok tt) × (o.0.journals ≡ []) × Shows o.0 refs

  -- The bytes of the plan are read back.
  abbrev pub Decodes : Plan → Type 0
  Decodes plan = c.read_plan (c.plan_bytes plan) ≡ ok plan

  module _ (names : List RefName) (apart : Apart names) where
    -- The state that `set` leaves.
    abbrev pub stored : DiskRefBackend → RefName → Bytes → DiskRefBackend
    stored d n bytes = record d {
      files = Maps.insert d.files n bytes;
      dirs = ancestors n ++ d.dirs;
      temps = Maps.remove (Maps.insert d.temps n bytes) n;
    }

    pub set_run :
        (d : DiskRefBackend) (n : RefName) (r : Ref) (rest : List Call)
        → contains names n ≡ true
        → Clear names d
        → run d (set_calls c n r ++ rest) ≡ run (stored d n (c.ref_bytes r)) rest
    unfolding set_calls call
    set_run d n r rest hn h =
        run-call d made _ _ (rw (blocked-Clear names d n h hn) refl)
        ∙ run-call made written _ _ refl
        ∙ run-call written _ _ _ (rw (there, call, no_dir) refl)
      where
        made : DiskRefBackend
        made = record d { dirs = ancestors n ++ d.dirs }

        written : DiskRefBackend
        written = record made { temps = Maps.insert d.temps n (c.ref_bytes r) }

        there : Maps.get (Maps.insert d.temps n (c.ref_bytes r)) n ≡ some (c.ref_bytes r)
        there = get-insert d.temps n (c.ref_bytes r) n ∙ rw ((eq_iff n n).1 refl) refl

        no_dir : contains (ancestors n ++ d.dirs) n ≡ false
        no_dir = (dirs-Clear names apart d n hn h).no_dir n hn

    delete_run :
        (d : DiskRefBackend) (n : RefName) (rest : List Call)
        → contains names n ≡ true
        → Clear names d
        → run d (remove_file n ∷ rest) ≡ run (record d { files = Maps.remove d.files n }) rest
    unfolding call
    delete_run d n rest hn h =
        run-call d _ _ rest (rw (blocked-Clear names d n h hn, h.no_dir n hn) refl)

    -- The plan applied, from a state that is clear of its names.
    pub record Applied (plan : Plan) (d d' : DiskRefBackend) : Type 0 where
      pub runs : (rest : List Call) → run d (apply_plan c plan ++ rest) ≡ run d' rest
      pub journals_same : d'.journals ≡ d.journals
      pub shows :
          (j : RefName)
          → Maps.get d'.files j ≡ elim (Maps.get plan j) [
            | some v ↦ Option.map c.ref_bytes v
            | none ↦ Maps.get d.files j
          ]

    pub apply_plan-Applied :
        (plan : Plan) (d : DiskRefBackend)
        → ((n : RefName) → contains (Maps.keys plan) n ≡ true → contains names n ≡ true)
        → NodupKeys plan
        → Clear names d
        → (d' : DiskRefBackend) × Applied plan d d'
    unfolding apply_plan Maps.keys Maps.get
    apply_plan-Applied [] d sub u h =
        (d, record { runs = λ rest. refl; journals_same = refl; shows = λ j. refl })
    apply_plan-Applied ((n, some r) ∷ plan) d sub (fresh, u) h =
        let (d', rest_applied) =
          apply_plan-Applied plan (stored d n (c.ref_bytes r)) (λ m k. sub m (ground (arith, k))) u
            (insert-Clear names apart (record d { dirs = ancestors n ++ d.dirs }) n _ _ here
              (dirs-Clear names apart d n here h)) in
        (
          d',
          record {
            runs =
                λ rest. set_run d n r (apply_plan c plan ++ rest) here h ∙ rest_applied.runs rest;
            journals_same = rest_applied.journals_same;
            shows = λ j.
                ground (arith, fresh, rest_applied.shows j, get-insert d.files n (c.ref_bytes r) j);
          },
        )
      where
        here : contains names n ≡ true
        here = sub n (ground arith)
    apply_plan-Applied ((n, none) ∷ plan) d sub (fresh, u) h =
        let (d', rest_applied) =
          apply_plan-Applied plan (record d { files = Maps.remove d.files n })
            (λ m k. sub m (ground (arith, k))) u (remove-Clear names apart d n here h) in
        (
          d',
          record {
            runs =
                λ rest. delete_run d n (apply_plan c plan ++ rest) here h ∙ rest_applied.runs rest;
            journals_same = rest_applied.journals_same;
            shows = λ j. ground (arith, fresh, rest_applied.shows j, get-remove d.files n j);
          },
        )
      where
        here : contains names n ≡ true
        here = sub n (ground arith)

    -- The calls of a plan are all for its names.
    pub apply_plan-About :
        (plan : Plan)
        → ((n : RefName) → contains (Maps.keys plan) n ≡ true → contains names n ≡ true)
        → All (About names) (apply_plan c plan)
    unfolding apply_plan set_calls Maps.keys
    apply_plan-About [] sub = tt
    apply_plan-About ((n, some r) ∷ plan) sub =
        let here = sub n (ground arith) in
        (here, (here, (here, apply_plan-About plan (λ m k. sub m (ground (arith, k))))))
    apply_plan-About ((n, none) ∷ plan) sub =
        (sub n (ground arith), apply_plan-About plan (λ m k. sub m (ground (arith, k))))

-- The first calls of a list and one more are calls of the list, or all of them.
pub take_cases :
    {A : Type 0} (P : A → Type 0) (k : ℕ) (xs : List A) (y : A)
    → All P xs
    → All P (take k (xs ++ (y ∷ []))) ⊎ (take k (xs ++ (y ∷ [])) ≡ xs ++ (y ∷ []))
take_cases P zero xs y h = inl tt
take_cases P (suc zero) [] y h = inr refl
take_cases P (suc (suc k)) [] y h = inr refl
take_cases P (suc k) (x ∷ xs) y (hx, h) = elim (take_cases P k xs y h) [
  | inl a ↦ inl (hx, a)
  | inr e ↦ inr (ap (◌∷◌ x) e)
]
