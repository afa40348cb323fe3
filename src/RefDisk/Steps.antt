-- ===== src/RefDisk/Steps.antt =====
-- src/refs/disk.rs: what a call of the file system for one of a plan's names leaves as it was.
use bole.Base.{
  Bool, true, false, none, List, [], ◌∷◌, ◌++◌, any, Bytes, bytes_eq, ◌==◌, contains,
  contains-append, All, All-elim, ◌≡◌, refl, sym, ap, ◌∙◌, arith, inl, inr, eq_iff, Bool-cases,
  Option-cases, Result-cases,
}
use bole.Base.Maps
use bole.Base.Maps.{Map, get-insert, get-remove}
use bole.Refs.{RefName}
use bole.RefDisk.{
  DiskRefBackend, ancestors, blocked, Call, create_dirs, write_temp, rename_temp, remove_file,
  write_journal, rename_journal, remove_journal, call, run,
}

any-none :
    (p : RefName → Bool) (xs : List RefName)
    → ((a : RefName) → contains xs a ≡ true → p a ≡ false)
    → any p xs ≡ false
any-none p [] h = refl
any-none p (x ∷ xs) h = rw (h x (ground arith), any-none p xs (λ a m. h a (ground (arith, m)))) refl

-- No name of these is a directory of another.
abbrev pub Apart : List RefName → Type 0
Apart names =
    (n m : RefName)
    → contains names n ≡ true
    → contains names m ≡ true
    → contains (ancestors n) m ≡ false

-- On a given list, name by name.
pub Apart-All :
    (names : List RefName)
    → All (λ n. All (λ m. contains (ancestors n) m ≡ false) names) names
    → Apart names
Apart-All names h n m hn hm =
    All-elim _ names m
      (All-elim (λ n. All (λ m. contains (ancestors n) m ≡ false) names) names n h hn) hm

module _ (names : List RefName) where
  -- There is no file in the place of a directory of these names, and no directory in theirs.
  pub record Clear (d : DiskRefBackend) : Type 0 where
    pub above :
        (n a : RefName)
        → contains names n ≡ true
        → contains (ancestors n) a ≡ true
        → Maps.get d.files a ≡ none
    pub no_dir : (n : RefName) → contains names n ≡ true → contains d.dirs n ≡ false

  pub Clear-All :
      (d : DiskRefBackend)
      → All
          (λ n. All (λ a. Maps.get d.files a ≡ none) (ancestors n) × (contains d.dirs n ≡ false))
          names
      → Clear d
  Clear-All d h = record {
    above = λ n a hn k. All-elim _ (ancestors n) a (at n hn).0 k;
    no_dir = λ n hn. (at n hn).1;
  }
    where
      at :
          (n : RefName)
          → contains names n ≡ true
          → All (λ a. Maps.get d.files a ≡ none) (ancestors n) × (contains d.dirs n ≡ false)
      at n hn = All-elim _ names n h hn

  pub blocked-Clear :
      (d : DiskRefBackend) (n : RefName) → Clear d → contains names n ≡ true → blocked d n ≡ false
  unfolding blocked
  blocked-Clear d n h m = any-none _ (ancestors n) (λ a k. rw (h.above n a m k) refl)

  -- Calls for these names, from `d` to `d'`.
  pub record Near (d d' : DiskRefBackend) : Type 0 where
    pub clear : Clear d'
    pub outside :
        (j : RefName) → contains names j ≡ false → Maps.get d'.files j ≡ Maps.get d.files j
    pub same : d'.journals ≡ d.journals

  abbrev pub About : Call → Type 0
  About (create_dirs n) = contains names n ≡ true
  About (write_temp n bytes) = contains names n ≡ true
  About (rename_temp n) = contains names n ≡ true
  About (remove_file n) = contains names n ≡ true
  About (write_journal path bytes) = ⊥
  About (rename_journal path) = ⊥
  About (remove_journal path) = ⊥

  module _ (apart : Apart names) where
    differs :
        (n m a : RefName)
        → contains names n ≡ true
        → contains names m ≡ true
        → contains (ancestors m) a ≡ true
        → (a == n) ≡ false
    differs n m a hn hm k = elim (Bool-cases (a == n)) [
      | inl e ↦
          absurd
            (cc (sym (apart m n hm hn) ∙ ap (contains (ancestors m)) (sym ((eq_iff a n).0 e)) ∙ k))
      | inr e ↦ e
    ]

    not_among :
        (n j : RefName) → contains names n ≡ true → contains names j ≡ false → (j == n) ≡ false
    not_among n j hn hj = elim (Bool-cases (j == n)) [
      | inl e ↦ absurd (cc (sym hj ∙ ap (contains names) ((eq_iff j n).0 e) ∙ hn))
      | inr e ↦ e
    ]

    pub insert-Clear :
        (d : DiskRefBackend) (n : RefName) (bytes : Bytes) (temps : Map RefName Bytes)
        → contains names n ≡ true
        → Clear d
        → Clear (record d { files = Maps.insert d.files n bytes; temps = temps })
    insert-Clear d n bytes temps hn h = record {
      above =
          λ m a hm k. get-insert d.files n bytes a ∙ rw (differs n m a hn hm k) (h.above m a hm k);
      no_dir = h.no_dir;
    }

    pub remove-Clear :
        (d : DiskRefBackend) (n : RefName)
        → contains names n ≡ true
        → Clear d
        → Clear (record d { files = Maps.remove d.files n })
    remove-Clear d n hn h = record {
      above = λ m a hm k. get-remove d.files n a ∙ rw (differs n m a hn hm k) (h.above m a hm k);
      no_dir = h.no_dir;
    }

    pub dirs-Clear :
        (d : DiskRefBackend) (n : RefName)
        → contains names n ≡ true
        → Clear d
        → Clear (record d { dirs = ancestors n ++ d.dirs })
    dirs-Clear d n hn h = record {
      above = h.above;
      no_dir =
          λ m hm. contains-append (ancestors n) d.dirs m ∙ rw (apart n m hn hm, h.no_dir m hm) refl;
    }

    pub call-Near : (d d' : DiskRefBackend) (x : Call) → About x → Near d d' → Near d (call d' x).0
    unfolding call
    call-Near d d' (create_dirs n) hn h = elim (Bool-cases (blocked d' n)) [
      | inl e ↦ rw e h
      | inr e ↦
          rw e (record { clear = dirs-Clear d' n hn h.clear; outside = h.outside; same = h.same })
    ]
    call-Near d d' (write_temp n bytes) hn h = record {
      clear = record { above = h.clear.above; no_dir = h.clear.no_dir };
      outside = h.outside;
      same = h.same;
    }
    call-Near d d' (rename_temp n) hn h = elim (Option-cases (Maps.get d'.temps n)) [
      | inl e ↦ rw (e, call) h
      | inr (bytes, e) ↦
          rw (e, call, h.clear.no_dir n hn)
            (record {
              clear = insert-Clear d' n bytes (Maps.remove d'.temps n) hn h.clear;
              outside =
                  λ j hj. get-insert d'.files n bytes j ∙ rw (not_among n j hn hj) (h.outside j hj);
              same = h.same;
            })
    ]
    call-Near d d' (remove_file n) hn h =
        rw (blocked-Clear d' n h.clear hn, h.clear.no_dir n hn)
          (record {
            clear = remove-Clear d' n hn h.clear;
            outside = λ j hj. get-remove d'.files n j ∙ rw (not_among n j hn hj) (h.outside j hj);
            same = h.same;
          })
    call-Near d d' (write_journal path bytes) hn h = absurd hn
    call-Near d d' (rename_journal path) hn h = absurd hn
    call-Near d d' (remove_journal path) hn h = absurd hn

    -- However far the calls get.
    pub run-Near :
        (xs : List Call) (d d' : DiskRefBackend) → All About xs → Near d d' → Near d (run d' xs).0
    unfolding run
    run-Near [] d d' about h = h
    run-Near (x ∷ xs) d d' (a, about) h =
        let next = call-Near d d' x a h in
        elim (Result-cases (call d' x).1) [
          | inl (u, e) ↦ rw (e, run) (run-Near xs d (call d' x).0 about next)
          | inr (e', e) ↦ rw (e, run) next
        ]
