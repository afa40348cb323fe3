-- ===== src/Glob/Correct.antt =====
-- The memoized matcher ends, and accepts exactly the paths that match.
use bole.Base.{
  ℕ, zero, suc, ◌+◌, ◌≤◌, ◌<◌, Bool, true, false, ◌||◌, none, some, [], ◌∷◌, ◌≡◌, refl, ◌↔◌, inl,
  inr, arith, ap, subst, Bytes, nat_eq, pair_eq, contains, contains_cases, length, if◌then◌else◌,
  Bool-cases, ltb,
}
use bole.Glob.{
  Shape, empty, deep_slash, deep, wild, literal, shape, Memo, Run, by_shape, remember, matches,
  answer, glob_matches, max_glob_len,
}
use bole.Glob.Spec.{
  Matches, Ways, Matches→Ways, Ways→Matches, IsTail, IsTail-refl, IsTail-trans, IsTail-unique,
  Leaves, shape-Leaves,
}
use bole.Glob.Loops.{
  after_slashes-nil, IsSound, IsRight, IsRight-iff, Serves, or_else-IsRight, after_slashes-IsRight,
  segment_tails-IsRight, within_segment-IsRight, first_byte-IsRight, Behind,
}

module _ (P S : Bytes) where
  -- A failed call may be written down: its lengths name its pattern and its path.
  IsSound-insert :
      (p s : Bytes) (memo : Memo)
      → IsTail p P
      → IsTail s S
      → ¬ Matches p s
      → IsSound P S memo
      → IsSound P S ((length p, length s) ∷ memo)
  IsSound-insert p s memo mp ms no_match i q t mq mt h = elim (contains_cases memo h) [
    | inl e ↦
        let ep = IsTail-unique P q p mq mp (ap (λ (k : ℕ × ℕ). k.0) e) in
        let es = IsTail-unique S t s mt ms (ap (λ (k : ℕ × ℕ). k.1) e) in
        λ d. no_match (subst (λ x. Matches x s) ep (subst (Matches q) es d))
    | inr old ↦ i q t mq mt old
  ]

  remember-IsRight :
      (p s : Bytes) (r : Run)
      → IsTail p P
      → IsTail s S
      → IsRight P S (Matches p s) r
      → IsRight P S (Matches p s) (remember (length p, length s) r)
  remember-IsRight p s none mp ms h = h
  remember-IsRight p s (some (true, memo)) mp ms h = h
  remember-IsRight p s (some (false, memo)) mp ms h = (h.0, IsSound-insert p s memo mp ms h.0 h.1)

  -- `call` answers every question about shorter suffixes: `m` bounds both lengths together.
  abbrev Answering : ℕ → (Bytes → Bytes → Memo → Run) → Type 0
  Answering m call =
      (p s : Bytes) (memo : Memo)
      → IsTail p P
      → IsTail s S
      → length p + length s < m
      → IsSound P S memo
      → IsRight P S (Matches p s) (call p s memo)

  module _ (m : ℕ) (call : Bytes → Bytes → Memo → Run) (ih : Answering m call) where
    serve : (p : Bytes) (n : ℕ) → IsTail p P → length p + n < m → Serves P S n (Matches p) (call p)
    serve p n mp l t memo mt lt i = ih p t memo mp mt (omega arith) i

    by_shape-IsRight :
        (h : Shape) (p s : Bytes) (memo : Memo)
        → Leaves h p
        → shape p ≡ h
        → IsTail p P
        → IsTail s S
        → length p + length s ≤ m
        → IsSound P S memo
        → IsRight P S (Ways h p s) (by_shape call h p s memo)
    unfolding by_shape
    by_shape-IsRight empty p [] memo l e mp ms b i = (refl, i)
    by_shape-IsRight empty p (c ∷ s) memo l e mp ms b i = (λ q. cc, i)
    by_shape-IsRight (deep_slash r) p [] memo l e mp ms b i =
        or_else-IsRight P S (Matches r []) (Behind P S (Matches p) []) _ _
          (ih r [] memo (IsTail-trans r p P l.0 mp) ms (omega arith) i)
          (λ memo' i'. after_slashes-nil P S (Matches p) (call p) memo' i')
    by_shape-IsRight (deep_slash r) p (c ∷ s) memo l e mp ms b i =
        or_else-IsRight P S (Matches r (c ∷ s)) (Behind P S (Matches p) (c ∷ s)) _ _
          (ih r (c ∷ s) memo (IsTail-trans r p P l.0 mp) ms (omega arith) i)
          (λ memo' i'.
            after_slashes-IsRight P S (Matches p) (length s) (call p)
              (serve p (length s) mp (omega arith)) (c ∷ s) memo' ms (omega arith) i')
    by_shape-IsRight (deep r) p s memo l e mp ms b i =
        let mr = IsTail-trans r p P l.0 mp in
        or_else-IsRight P S (Matches r s) _ _ _ (ih r s memo mr ms (omega arith) i) (λ memo' i'.
          segment_tails-IsRight P S (Matches r) (length s) (call r)
            (serve r (length s) mr (omega arith)) s memo' ms (omega arith) i')
    by_shape-IsRight (wild r) p s memo l e mp ms b i =
        within_segment-IsRight P S (Matches r) (length s) (call r)
          (serve r (length s) (IsTail-trans r p P l.0 mp) (omega arith)) s memo ms (omega arith) i
    by_shape-IsRight (literal c r) p s memo l e mp ms b i =
        first_byte-IsRight P S (Matches r) (length s) (call r)
          (serve r (length s) (IsTail-trans r p P l.0 mp) (omega arith)) c s memo ms (omega arith) i

  matches-IsRight : (fuel : ℕ) → Answering fuel (matches fuel)
  unfolding matches
  matches-IsRight zero p s memo mp ms l i = absurd (omega arith)
  matches-IsRight (suc fuel) p s memo mp ms l i =
      elim (Bool-cases (contains memo (length p, length s))) [
        | inl known ↦ rw known (i p s mp ms known, i)
        | inr new ↦ rw new (
            remember-IsRight p s _ mp ms (
              IsRight-iff P S (Ways (shape p) p s) (Matches p s) _
                (Ways→Matches (shape p) refl, Matches→Ways)
                (by_shape-IsRight fuel (matches fuel) (matches-IsRight fuel) (shape p) p s memo
                  (shape-Leaves p) refl mp ms (omega arith) i)))
      ]

-- The fuel of `glob_matches` suffices: its search ends, and its answer is right.
pub matches_total :
    (pattern path : Bytes)
    → IsRight pattern path
        (Matches pattern path)
        (matches (length pattern + length path + 1) pattern path [])
matches_total pattern path =
    matches-IsRight pattern path _ pattern path [] (IsTail-refl pattern) (IsTail-refl path)
      (omega arith) (λ p t mp mt h. absurd (cc))

answer_iff : (P S : Bytes) (G : Type 0) (r : Run) → IsRight P S G r → (answer r ≡ true) ↔ G
answer_iff P S G none h = absurd h
answer_iff P S G (some (true, memo)) h = (λ _. h.0, λ _. refl)
answer_iff P S G (some (false, memo)) h = (λ e. absurd (cc), λ g. absurd (h.0 g))

guard_iff :
    (m a b : ℕ) (G : Type 0) (r : Bool)
    → (r ≡ true) ↔ G
    → ((if ltb m a || ltb m b then false else r) ≡ true) ↔ ((a ≤ m) × (b ≤ m) × G)
guard_iff m a b G r e =
    (λ h. (ground arith, ground arith, e.0 (ground arith)), λ (x, y, g). ground (arith, e.1 g))

-- `glob_matches` accepts a path exactly when neither text is longer than 8192 bytes and the path
-- matches the pattern, in the sense of `Matches`, which knows no memo.
pub glob_matches_iff :
    (pattern path : Bytes)
    → (glob_matches pattern path ≡ true)
      ↔ ((length pattern ≤ max_glob_len) × (length path ≤ max_glob_len) × Matches pattern path)
unfolding glob_matches
glob_matches_iff pattern path =
    guard_iff max_glob_len (length pattern) (length path) (Matches pattern path) _
      (answer_iff pattern path (Matches pattern path) _ (matches_total pattern path))
