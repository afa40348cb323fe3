-- ===== src/Lattice/Reach.antt =====
-- The search of `dominates` ends within its fuel, and finds exactly what the edges reach.
use bole.Base.{
  ℕ, zero, suc, ◌+◌, ◌≤◌, Bool, true, false, ◌||◌, Option, none, some, List, [], ◌∷◌, ◌≡◌, refl,
  ◌≢◌, ◌↔◌, ◌⊎◌, inl, inr, arith, sym, ◌∙◌, ap, subst, ◌==◌, bytes_eq, pair_eq, contains,
  contains_head, contains_cases, eq_iff, length, All, All-intro, if◌then◌else◌, Bool-cases,
}
use bole.Lattice.{
  Label, Edge, LabelLattice, Scan, found, more, scan, dominates_loop, dominates_run, answer,
  dominates,
}

-- `Below cover b a`: a chain of covering edges leads up from `b` to `a`.
pub data Below (cover : List Edge) (b : Label) : Label → Type 0 where
  here : Below cover b b
  up : {x y : Label} → Below cover b x → contains cover (x, y) ≡ true → Below cover b y

pub Below-trans :
    {cover : List Edge} {a b c : Label} → Below cover a b → Below cover b c → Below cover a c
Below-trans p here = p
Below-trans p (up q e) = up (Below-trans p q) e

-- The edges whose upper label has not been seen bound the pushes that are left.
unseen : List Edge → List Label → ℕ
unseen [] seen = 0
unseen ((lo, hi) ∷ es) seen = (if contains seen hi then 0 else 1) + unseen es seen

unseen-le-length : (es : List Edge) (seen : List Label) → unseen es seen ≤ length es
unfolding unseen
unseen-le-length [] seen = omega arith
unseen-le-length ((lo, hi) ∷ es) seen = ground (arith, unseen-le-length es seen)

unseen_mono :
    (es : List Edge) (seen : List Label) (h : Label) → unseen es (h ∷ seen) ≤ unseen es seen
unfolding unseen
unseen_mono [] seen h = omega arith
unseen_mono ((lo, hi) ∷ es) seen h = ground (arith, unseen_mono es seen h)

unseen-insert :
    (es : List Edge) (seen : List Label) (l h : Label)
    → contains es (l, h) ≡ true
    → contains seen h ≡ false
    → unseen es (h ∷ seen) + 1 ≤ unseen es seen
unfolding unseen
unseen-insert [] seen l h m n = absurd (cc)
unseen-insert ((lo, hi) ∷ es) seen l h m n =
    ground (arith, unseen-insert es seen l h, unseen_mono es seen h)

module _ (cover : List Edge) (a b : Label) where
  abbrev Visited : List Label → Label → Type 0
  Visited seen x = (x == b || contains seen x) ≡ true

  abbrev IsOld : List Label → Label → Type 0
  IsOld seen y = (y ≢ a) × (contains seen y ≡ true)

  -- Between two rounds of the `while` loop.
  record Between (stack seen : List Label) : Type 0 where
    below : (x : Label) → contains stack x ≡ true → Below cover b x
    closed :
        (x y : Label)
        → Visited seen x
        → contains stack x ≡ false
        → contains cover (x, y) ≡ true
        → IsOld seen y

  -- In the `for` loop at `cur`, with the edges `es` to go.
  record Within (cur : Label) (es : List Edge) (stack seen : List Label) : Type 0 where
    from : Below cover b cur
    below : (x : Label) → contains stack x ≡ true → Below cover b x
    closed :
        (x y : Label)
        → Visited seen x
        → x ≢ cur
        → contains stack x ≡ false
        → contains cover (x, y) ≡ true
        → IsOld seen y
    current :
        (y : Label) → contains cover (cur, y) ≡ true → IsOld seen y ⊎ (contains es (cur, y) ≡ true)
    edges : All (λ e. contains cover e ≡ true) es

  Within-begin :
      {cur : Label} {stack seen : List Label}
      → Between (cur ∷ stack) seen
      → Within cur cover stack seen
  Within-begin {cur} {stack} {seen} i = record {
    from = i.below cur (contains_head cur stack);
    below = λ x m. i.below x (ground (arith, m));
    closed = λ x y v n m e. i.closed x y v (ground arith) e;
    current = λ y e. inr e;
    edges = All-intro (λ e. contains cover e ≡ true) cover (λ e m. m);
  }

  Within-end :
      {cur : Label} {stack seen : List Label} → Within cur [] stack seen → Between stack seen
  Within-end {cur} {stack} {seen} i = record {
    below = i.below;
    closed = λ x y v m e. elim (Bool-cases (x == cur)) [
      | inl p ↦
          elim (i.current y (subst (λ z. contains cover (z, y) ≡ true) ((eq_iff x cur).0 p) e)) [
            | inl old ↦ old
            | inr none_left ↦ absurd (cc)
          ]
      | inr n ↦ i.closed x y v (λ q. cc ((eq_iff x cur).1 q)) m e
    ];
  }

  -- An edge that starts elsewhere, or that leads to a label seen before, changes nothing.
  Within-skip :
      {cur lo hi : Label} {es : List Edge} {stack seen : List Label}
      → Within cur ((lo, hi) ∷ es) stack seen
      → (lo ≡ cur → IsOld seen hi)
      → Within cur es stack seen
  Within-skip {cur} {lo} {hi} {es} {stack} {seen} i old = record {
    from = i.from;
    below = i.below;
    closed = i.closed;
    current = λ y e. elim (i.current y e) [
      | inl o ↦ inl o
      | inr m ↦ elim (contains_cases es m) [
        | inl q ↦ inl (
            subst (IsOld seen) (sym (ap (λ (t : Edge). t.1) q))
              (old (sym (ap (λ (t : Edge). t.0) q))))
        | inr later ↦ inr later
      ]
    ];
    edges = i.edges.1;
  }

  IsOld-new : {y hi : Label} (seen : List Label) → y ≡ hi → hi ≢ a → IsOld (hi ∷ seen) y
  IsOld-new seen q ne = (λ p. ne (sym q ∙ p), ground arith)

  -- An edge to a new label pushes it.
  Within-push :
      {cur hi : Label} {es : List Edge} {stack seen : List Label}
      → Within cur ((cur, hi) ∷ es) stack seen
      → hi ≢ a
      → Within cur es (hi ∷ stack) (hi ∷ seen)
  Within-push {cur} {hi} {es} {stack} {seen} i ne = record {
    from = i.from;
    below = λ x m. elim (Bool-cases (x == hi)) [
      | inl p ↦ subst (Below cover b) (sym ((eq_iff x hi).0 p)) (up i.from i.edges.0)
      | inr n ↦ i.below x (ground (arith, m))
    ];
    closed = λ x y v n m e.
        let o = i.closed x y (ground arith) n (ground arith) e in (o.0, ground (arith, o.1));
    current = λ y e. elim (i.current y e) [
      | inl o ↦ inl (o.0, ground (arith, o.1))
      | inr m ↦ elim (contains_cases es m) [
        | inl q ↦ inl (IsOld-new seen (ap (λ (t : Edge). t.1) q) ne)
        | inr later ↦ inr later
      ]
    ];
    edges = i.edges.1;
  }

  abbrev Outcome : Scan → ℕ → Type 0
  Outcome found room = Below cover b a
  Outcome (more stack seen) room = Between stack seen × (length stack + unseen cover seen ≤ room)

  Outcome-mono : (r : Scan) {m n : ℕ} → m ≤ n → Outcome r m → Outcome r n
  Outcome-mono found h o = o
  Outcome-mono (more stack seen) h o = (o.0, omega arith)

  same_start :
      {cur lo hi : Label} {es : List Edge} {stack seen : List Label}
      → Within cur ((lo, hi) ∷ es) stack seen
      → lo ≡ cur
      → Within cur ((cur, hi) ∷ es) stack seen
  same_start {cur} {lo} {hi} {es} {stack} {seen} i p =
      subst (λ z. Within cur ((z, hi) ∷ es) stack seen) p i

  scan-Outcome :
      (cur : Label) (es : List Edge) (stack seen : List Label)
      → Within cur es stack seen
      → Outcome (scan a cur es stack seen) (length stack + unseen cover seen)
  unfolding scan
  scan-Outcome cur [] stack seen i = (Within-end i, omega arith)
  scan-Outcome cur ((lo, hi) ∷ es) stack seen i = elim (Bool-cases (lo == cur)) [
    | inr n ↦ rw n (scan-Outcome cur es stack seen (Within-skip i (λ q. cc ((eq_iff lo cur).1 q))))
    | inl p ↦ rw p (elim (Bool-cases (hi == a)) [
      | inl q ↦ rw q (
          subst (Below cover b) ((eq_iff hi a).0 q)
            (up i.from (same_start i ((eq_iff lo cur).0 p)).edges.0))
      | inr m ↦ rw m (elim (Bool-cases (contains seen hi)) [
        | inl o ↦
            rw o (
              scan-Outcome cur es stack seen
                (Within-skip i (λ _. (λ q. cc ((eq_iff hi a).1 q), o))))
        | inr o ↦ rw o (
            Outcome-mono (scan a cur es (hi ∷ stack) (hi ∷ seen))
              (omega (arith, unseen-insert cover seen lo hi i.edges.0 o))
              (scan-Outcome cur es (hi ∷ stack) (hi ∷ seen)
                (Within-push (same_start i ((eq_iff lo cur).0 p)) (λ q. cc ((eq_iff hi a).1 q)))))
      ])
    ])
  ]

  Between-begin : Between (b ∷ []) []
  Between-begin = record {
    below = λ x m. elim (contains_cases {x = x} {y = b} [] m) [
      | inl p ↦ subst (Below cover b) (sym p) here
      | inr none_left ↦ absurd (cc)
    ];
    closed = λ x y v m e. absurd (ground arith);
  }

  -- With an empty stack the seen labels are closed under the edges, and `a` is not among them.
  Below-closed :
      {seen : List Label} {x : Label} → Between [] seen → Below cover b x → Visited seen x
  Below-closed i here = ground arith
  Below-closed {seen} i (up {x} {y} d e) =
      ground (arith, (i.closed x y (Below-closed i d) refl e).1)

  not-Below : {seen : List Label} → b ≢ a → Between [] seen → ¬ Below cover b a
  not-Below ne i d = go d refl
    where
      go : {z : Label} → Below cover b z → z ≡ a → ⊥
      go here p = ne p
      go (up {x} {y} d e) p = (i.closed x y (Below-closed i d) refl e).0 p

  -- A run with enough fuel gives an answer, and the answer is right.
  abbrev pub Decides : Option Bool → Type 0
  Decides none = ⊥
  Decides (some true) = Below cover b a
  Decides (some false) = ¬ Below cover b a

  loop-Decides :
      (fuel : ℕ) (stack seen : List Label)
      → b ≢ a
      → Between stack seen
      → length stack + unseen cover seen ≤ fuel
      → Decides (dominates_loop fuel a cover stack seen)
  unfolding dominates_loop
  loop-Decides fuel [] seen ne i h = not-Below ne i
  loop-Decides zero (cur ∷ stack) seen ne i h = absurd (omega arith)
  loop-Decides (suc fuel) (cur ∷ stack) seen ne i h =
      after (scan a cur cover stack seen) (scan-Outcome cur cover stack seen (Within-begin i))
        (loop-Decides fuel)
    where
      after :
          (r : Scan)
          → Outcome r (length stack + unseen cover seen)
          → ((st se : List Label)
              → b ≢ a
              → Between st se
              → length st + unseen cover se ≤ fuel
              → Decides (dominates_loop fuel a cover st se))
          → Decides (elim r [ found ↦ some true | more st se ↦ dominates_loop fuel a cover st se ])
      after found o ih = o
      after (more st se) o ih = ih st se ne o.0 (omega arith)

  run-Decides :
      (labels : List Label)
      → Decides (dominates_run (record { labels = labels; cover = cover }) a b)
  unfolding dominates_run
  run-Decides labels = elim (Bool-cases (a == b)) [
    | inl p ↦ rw p (subst (Below cover b) (sym ((eq_iff a b).0 p)) here)
    | inr n ↦ rw n (
        loop-Decides (length cover + 1) (b ∷ []) [] (λ q. cc ((eq_iff a b).1 (sym q))) Between-begin
          (omega (arith, unseen-le-length cover [])))
  ]

-- The search of `dominates` never runs out of fuel, and answers `true` exactly when a chain of
-- covering edges leads up from `b` to `a`.
pub dominates_run-Decides :
    (l : LabelLattice) (a b : Label) → Decides l.cover a b (dominates_run l a b)
dominates_run-Decides l a b = run-Decides l.cover a b l.labels

answer_iff :
    (cover : List Edge) (a b : Label) (r : Option Bool)
    → Decides cover a b r
    → (answer r ≡ true) ↔ Below cover b a
answer_iff cover a b none d = absurd d
answer_iff cover a b (some true) d = (λ _. d, λ _. refl)
answer_iff cover a b (some false) d = (λ h. absurd (cc), λ h. absurd (d h))

-- `dominates` answers `true` exactly when a chain of covering edges leads up from `b` to `a`.
pub dominates_iff : (l : LabelLattice) (a b : Label) → (dominates l a b ≡ true) ↔ Below l.cover b a
unfolding dominates
dominates_iff l a b = answer_iff l.cover a b (dominates_run l a b) (dominates_run-Decides l a b)

module _ (l : LabelLattice) where
  pub dominates_refl : (a : Label) → dominates l a a ≡ true
  dominates_refl a = (dominates_iff l a a).1 here

  pub dominates_trans :
      (a b c : Label) → dominates l a b ≡ true → dominates l b c ≡ true → dominates l a c ≡ true
  dominates_trans a b c p q =
      (dominates_iff l a c).1 (Below-trans ((dominates_iff l b c).0 q) ((dominates_iff l a b).0 p))
