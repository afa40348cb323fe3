-- ===== src/Glob/Loops.antt =====
-- The loops of the matcher answer rightly, and keep the memo sound, where the calls that they make do.
use bole.Base.{
  ℕ, suc, ◌≤◌, Bool, true, false, none, some, [], ◌∷◌, ◌≡◌, refl, ◌≢◌, ◌⊎◌, ◌↔◌, inl, inr, arith,
  sym, ap, subst, Bytes, ◌==◌, nat_eq, pair_eq, eq_iff, contains, length, Bool-cases,
}
use bole.Glob.{slash, Memo, Run, or_else, after_slashes, segment_tails, within_segment, first_byte}
use bole.Glob.Spec.{AfterSlash, InSegment, Matches, IsTail, IsTail-rest}

cons_head : {a b : ℕ} {u v : Bytes} → (a ∷ u) ≡ (b ∷ v) → a ≡ b
cons_head p = cc

cons_tail : {a b : ℕ} {u v : Bytes} → (a ∷ u) ≡ (b ∷ v) → u ≡ v
cons_tail p = cc

-- The pattern and the path of the outermost call.
module _ (whole_pattern whole_path : Bytes) where
  -- What the memo says is true.
  abbrev pub IsSound : Memo → Type 0
  IsSound memo =
      (p t : Bytes)
      → IsTail p whole_pattern
      → IsTail t whole_path
      → contains memo (length p, length t) ≡ true
      → ¬ Matches p t

  abbrev pub Answers : Type 0 → Bool → Type 0
  Answers G true = G
  Answers G false = ¬ G

  -- The run ended, its answer to the question `G` is right, and so is its memo.
  abbrev pub IsRight : Type 0 → Run → Type 0
  IsRight G none = ⊥
  IsRight G (some (b, memo)) = Answers G b × IsSound memo

  pub IsRight-iff : (G H : Type 0) (r : Run) → G ↔ H → IsRight G r → IsRight H r
  IsRight-iff G H none e h = h
  IsRight-iff G H (some (true, memo)) e h = (e.0 h.0, h.1)
  IsRight-iff G H (some (false, memo)) e h = (λ x. h.0 (e.1 x), h.1)

  pub neither : {G H : Type 0} → ¬ G → H ↔ (G ⊎ H)
  neither n = (inr, λ x. elim x [ inl g ↦ absurd (n g) | inr y ↦ y ])

  pub or_else-IsRight :
      (G H : Type 0) (r : Run) (next : Memo → Run)
      → IsRight G r
      → ((memo : Memo) → IsSound memo → IsRight H (next memo))
      → IsRight (G ⊎ H) (or_else r next)
  or_else-IsRight G H none next h k = h
  or_else-IsRight G H (some (true, memo)) next h k = (inl h.0, h.1)
  or_else-IsRight G H (some (false, memo)) next h k =
      IsRight-iff H (G ⊎ H) (next memo) (neither h.0) (k memo h.1)

  -- `call` answers `Q` on every suffix of the path of length `n` at most.
  abbrev pub Serves : ℕ → (Bytes → Type 0) → (Bytes → Memo → Run) → Type 0
  Serves n Q call =
      (t : Bytes) (memo : Memo)
      → IsTail t whole_path
      → length t ≤ n
      → IsSound memo
      → IsRight (Q t) (call t memo)

  module _ (Q : Bytes → Type 0) where
    -- `Q` holds behind a separator of the text, or at a place of its first segment.
    abbrev pub Behind : Bytes → Type 0
    Behind s = (t : Bytes) × AfterSlash s t × Q t

    abbrev pub InFirst : Bytes → Type 0
    InFirst s = (t : Bytes) × InSegment s t × Q t

    Behind-to : (c : ℕ) (s : Bytes) → c ≡ slash → Q s ⊎ Behind s → Behind (c ∷ s)
    Behind-to c s e (inl q) = (s, inl (e, refl), q)
    Behind-to c s e (inr (t, a, q)) = (t, inr a, q)

    Behind-from : (c : ℕ) (s : Bytes) → Behind (c ∷ s) → Q s ⊎ Behind s
    Behind-from c s (t, inl (_, e), q) = inl (subst Q (sym e) q)
    Behind-from c s (t, inr a, q) = inr (t, a, q)

    Behind-other : (c : ℕ) (s : Bytes) → c ≢ slash → Behind s ↔ Behind (c ∷ s)
    Behind-other c s n = (λ (t, a, q). (t, inr a, q), from)
      where
        from : Behind (c ∷ s) → Behind s
        from (t, inl (e, _), q) = absurd (n e)
        from (t, inr a, q) = (t, a, q)

    InFirst-to : (c : ℕ) (s : Bytes) → c ≢ slash → Q (c ∷ s) ⊎ InFirst s → InFirst (c ∷ s)
    InFirst-to c s n (inl q) = ((c ∷ s), inl refl, q)
    InFirst-to c s n (inr (t, a, q)) = (t, inr (n, a), q)

    InFirst-from : (c : ℕ) (s : Bytes) → InFirst (c ∷ s) → Q (c ∷ s) ⊎ InFirst s
    InFirst-from c s (t, inl e, q) = inl (subst Q e q)
    InFirst-from c s (t, inr (_, a), q) = inr (t, a, q)

    InFirst-end : (c : ℕ) (s : Bytes) → c ≡ slash → (Q (c ∷ s) ⊎ ⊥) ↔ InFirst (c ∷ s)
    InFirst-end c s e = (to, from)
      where
        to : Q (c ∷ s) ⊎ ⊥ → InFirst (c ∷ s)
        to (inl q) = ((c ∷ s), inl refl, q)
        to (inr x) = absurd x

        from : InFirst (c ∷ s) → Q (c ∷ s) ⊎ ⊥
        from (t, inl p, q) = inl (subst Q p q)
        from (t, inr (n, _), q) = absurd (n e)

    -- In the empty path nothing is called.
    pub after_slashes-nil :
        (call : Bytes → Memo → Run) (memo : Memo)
        → IsSound memo
        → IsRight (Behind []) (after_slashes call [] memo)
    unfolding after_slashes
    after_slashes-nil call memo i = (λ x. x.1, i)

    module _ (n : ℕ) (call : Bytes → Memo → Run) (serves : Serves n Q call) where
      pub after_slashes-IsRight :
          (s : Bytes) (memo : Memo)
          → IsTail s whole_path
          → length s ≤ suc n
          → IsSound memo
          → IsRight (Behind s) (after_slashes call s memo)
      unfolding after_slashes
      after_slashes-IsRight [] memo m l i = (λ x. x.1, i)
      after_slashes-IsRight (c ∷ s) memo m l i =
          let rest = IsTail-rest c s whole_path m in
          elim (Bool-cases (c == slash)) [
            | inl p ↦ rw p (
                IsRight-iff (Q s ⊎ Behind s) (Behind (c ∷ s)) _
                  (Behind-to c s ((eq_iff c slash).0 p), Behind-from c s)
                  (or_else-IsRight (Q s) (Behind s) (call s memo) (after_slashes call s)
                    (serves s memo rest (omega arith) i)
                    (λ memo' i'. after_slashes-IsRight s memo' rest (omega arith) i')))
            | inr other ↦ rw other (
                IsRight-iff (Behind s) (Behind (c ∷ s)) _
                  (Behind-other c s (λ e. cc ((eq_iff c slash).1 e)))
                  (after_slashes-IsRight s memo rest (omega arith) i))
          ]

      abbrev pub Ahead : Bytes → Type 0
      Ahead s = Behind s ⊎ Q []

      Ahead-assoc : (c : ℕ) (s : Bytes) → c ≡ slash → (Q s ⊎ Ahead s) ↔ Ahead (c ∷ s)
      Ahead-assoc c s e = (to, from)
        where
          to : Q s ⊎ Ahead s → Ahead (c ∷ s)
          to (inl q) = inl (Behind-to c s e (inl q))
          to (inr (inl b)) = inl (Behind-to c s e (inr b))
          to (inr (inr q)) = inr q

          back : Q s ⊎ Behind s → Q s ⊎ Ahead s
          back (inl q) = inl q
          back (inr b) = inr (inl b)

          from : Ahead (c ∷ s) → Q s ⊎ Ahead s
          from (inl b) = back (Behind-from c s b)
          from (inr q) = inr (inr q)

      Ahead-other : (c : ℕ) (s : Bytes) → c ≢ slash → Ahead s ↔ Ahead (c ∷ s)
      Ahead-other c s n = (to, from)
        where
          to : Ahead s → Ahead (c ∷ s)
          to (inl b) = inl ((Behind-other c s n).0 b)
          to (inr q) = inr q

          from : Ahead (c ∷ s) → Ahead s
          from (inl b) = inl ((Behind-other c s n).1 b)
          from (inr q) = inr q

      nothing_behind : Q [] ↔ Ahead []
      nothing_behind = (inr, λ x. elim x [ inl b ↦ absurd b.1 | inr q ↦ q ])

      pub segment_tails-IsRight :
          (s : Bytes) (memo : Memo)
          → IsTail s whole_path
          → length s ≤ n
          → IsSound memo
          → IsRight (Ahead s) (segment_tails call s memo)
      unfolding segment_tails
      segment_tails-IsRight [] memo m l i =
          IsRight-iff (Q []) (Ahead []) _ nothing_behind (serves [] memo m l i)
      segment_tails-IsRight (c ∷ s) memo m l i =
          let rest = IsTail-rest c s whole_path m in
          elim (Bool-cases (c == slash)) [
            | inl p ↦ rw p (
                IsRight-iff (Q s ⊎ Ahead s) (Ahead (c ∷ s)) _
                  (Ahead-assoc c s ((eq_iff c slash).0 p))
                  (or_else-IsRight (Q s) (Ahead s) (call s memo) (segment_tails call s)
                    (serves s memo rest (omega arith) i)
                    (λ memo' i'. segment_tails-IsRight s memo' rest (omega arith) i')))
            | inr other ↦ rw other (
                IsRight-iff (Ahead s) (Ahead (c ∷ s)) _
                  (Ahead-other c s (λ e. cc ((eq_iff c slash).1 e)))
                  (segment_tails-IsRight s memo rest (omega arith) i))
          ]

      only_here : Q [] ↔ InFirst []
      only_here = (λ q. ([], refl, q), λ (t, e, q). subst Q e q)

      pub within_segment-IsRight :
          (s : Bytes) (memo : Memo)
          → IsTail s whole_path
          → length s ≤ n
          → IsSound memo
          → IsRight (InFirst s) (within_segment call s memo)
      unfolding within_segment
      within_segment-IsRight [] memo m l i =
          IsRight-iff (Q []) (InFirst []) _ only_here (serves [] memo m l i)
      within_segment-IsRight (c ∷ s) memo m l i =
          let rest = IsTail-rest c s whole_path m in
          elim (Bool-cases (c == slash)) [
            | inl p ↦ rw p (
                IsRight-iff (Q (c ∷ s) ⊎ ⊥) (InFirst (c ∷ s)) _
                  (InFirst-end c s ((eq_iff c slash).0 p))
                  (or_else-IsRight (Q (c ∷ s)) ⊥ (call (c ∷ s) memo) _ (serves (c ∷ s) memo m l i)
                    (λ memo' i'. (λ x. x, i'))))
            | inr other ↦ rw other (
                IsRight-iff (Q (c ∷ s) ⊎ InFirst s) (InFirst (c ∷ s)) _
                  (InFirst-to c s (λ e. cc ((eq_iff c slash).1 e)), InFirst-from c s)
                  (or_else-IsRight (Q (c ∷ s)) (InFirst s) (call (c ∷ s) memo)
                    (within_segment call s) (serves (c ∷ s) memo m l i)
                    (λ memo' i'. within_segment-IsRight s memo' rest (omega arith) i')))
          ]

      abbrev pub FirstIs : ℕ → Bytes → Type 0
      FirstIs p s = (t : Bytes) × (s ≡ (p ∷ t)) × Q t

      pub first_byte-IsRight :
          (p : ℕ) (s : Bytes) (memo : Memo)
          → IsTail s whole_path
          → length s ≤ n
          → IsSound memo
          → IsRight (FirstIs p s) (first_byte call p s memo)
      unfolding first_byte
      first_byte-IsRight p [] memo m l i = (λ x. cc x.1, i)
      first_byte-IsRight p (c ∷ s) memo m l i =
          let rest = IsTail-rest c s whole_path m in
          elim (Bool-cases (p == c)) [
            | inl e ↦ rw e (
                IsRight-iff (Q s) (FirstIs p (c ∷ s)) _
                  (
                    λ q. (s, ap (λ d. d ∷ s) (sym ((eq_iff p c).0 e)), q),
                    λ (t, h, q). subst Q (cons_tail (sym h)) q,
                  )
                  (serves s memo rest (omega arith) i))
            | inr n ↦ rw n (λ (t, h, q). cc ((eq_iff p c).1 (sym (cons_head h))), i)
          ]
