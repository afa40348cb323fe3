-- ===== src/Search/Correct.antt =====
-- The search ends within its fuel, and sees exactly the ids that the edges lead to.
use bole.Base.{
  some-injective, is_some, ℕ, zero, suc, ◌+◌, ◌≤◌, ◌<◌, Bool, true, false, ◌||◌, ◌&&◌, Option, none,
  some, List, [], ◌∷◌, ◌++◌, ◌≡◌, ◌↔◌, inl, inr, refl, sym, ap, ◌∙◌, subst, arith, bytes_eq, ◌==◌,
  eq_iff, contains, contains_cases, contains_head, length, Bool-cases,
}
use bole.Base.Maps
use bole.Object.{Object}
use bole.Refs.{ObjectId}
use bole.Search.{Objects, extend, State, found, round, search_loop, search_fuel}
use bole.Search.Needed.{
  length-extend, contains-extend, contains-snoc, present, Refers, Needed, start, child,
}
use bole.Search.Unseen.{unseen, unseen-le-edge_count, unseen_mono, unseen-cons}

module _ (skip : ObjectId → Bool) (edges : Object → List ObjectId) (store : Objects)
    (from : List ObjectId) where
  -- Between two rounds.
  pub record Searching (stack seen out : List ObjectId) : Type 0 where
    candidates :
        (x : ObjectId) → contains stack x ≡ true → skip x ≡ false → Needed skip edges store from x
    needed : (x : ObjectId) → contains seen x ≡ true → Needed skip edges store from x
    starts :
        (x : ObjectId)
        → contains from x ≡ true
        → skip x ≡ false
        → (contains seen x || contains stack x) ≡ true
    closed :
        (x y : ObjectId)
        → contains seen x ≡ true
        → Refers edges store x y
        → skip y ≡ false
        → (contains seen y || contains stack y) ≡ true
    outputs : (x : ObjectId) → contains out x ≡ (contains seen x && present store x)

  Searching-begin : Searching from [] []
  Searching-begin = record {
    candidates = λ x m n. start m n;
    needed = λ x m. absurd (cc);
    starts = λ x m n. m;
    closed = λ x y m r n. absurd (cc);
    outputs = λ x. refl;
  }

  abbrev pub Between : State → Type 0
  Between (stack, seen, out) = Searching stack seen out

  covered-drop :
      (id x : ObjectId) (stack seen : List ObjectId)
      → (skip id || contains seen id) ≡ true
      → skip x ≡ false
      → (contains seen x || contains (id ∷ stack) x) ≡ true
      → (contains seen x || contains stack x) ≡ true
  covered-drop id x stack seen h n c = elim (Bool-cases (x == id)) [
    | inl p ↦ let e = (eq_iff x id).0 p in ground (arith, h, n, ap skip e, ap (contains seen) e)
    | inr q ↦ ground (arith, c)
  ]

  covered-push :
      (id x : ObjectId) (stack seen ids : List ObjectId)
      → (contains seen x || contains (id ∷ stack) x) ≡ true
      → (contains (id ∷ seen) x || contains (extend stack ids) x) ≡ true
  covered-push id x stack seen ids c = ground (arith, c, contains-extend stack ids x)

  -- An id that is skipped or was seen is dropped.
  Searching-drop :
      {id : ObjectId} {stack seen out : List ObjectId}
      → Searching (id ∷ stack) seen out
      → (skip id || contains seen id) ≡ true
      → Searching stack seen out
  Searching-drop {id} {stack} {seen} s h = record {
    candidates = λ x m n. s.candidates x (ground (arith, m)) n;
    needed = s.needed;
    starts = λ x m n. covered-drop _ _ _ _ h n (s.starts x m n);
    closed = λ x y m r n. covered-drop _ _ _ _ h n (s.closed x y m r n);
    outputs = s.outputs;
  }

  -- Any other id is seen, and the ids that it refers to go on the stack.
  Searching-push :
      {id : ObjectId} {stack seen out : List ObjectId}
      → Searching (id ∷ stack) seen out
      → skip id ≡ false
      → (ids out' : List ObjectId)
      → ((y : ObjectId) → (contains ids y ≡ true) ↔ Refers edges store id y)
      → ((x : ObjectId) → contains out' x ≡ (contains (id ∷ seen) x && present store x))
      → Searching (extend stack ids) (id ∷ seen) out'
  Searching-push {id} {stack} {seen} s n ids out' refers outputs =
      let id_needed = s.candidates id (contains_head id stack) n in
      record {
        candidates = λ x m k. elim (Bool-cases (contains ids x)) [
          | inl p ↦ child id_needed ((refers x).0 p) k
          | inr q ↦ s.candidates x (ground (arith, m, contains-extend stack ids x)) k
        ];
        needed = λ x m. elim (contains_cases seen m) [
          | inl p ↦ subst (Needed skip edges store from) (sym p) id_needed
          | inr q ↦ s.needed x q
        ];
        starts = λ x m k. covered-push _ _ _ _ ids (s.starts x m k);
        closed = λ x y m r k. elim (contains_cases seen m) [
          | inl p ↦
              let e = (refers y).1 (subst (λ z. Refers edges store z y) p r) in
              ground (arith, contains-extend stack ids y)
          | inr q ↦ covered-push _ _ _ _ ids (s.closed x y q r k)
        ];
        outputs = outputs;
      }

  outputs-snoc :
      (id x : ObjectId) (seen out : List ObjectId)
      → present store id ≡ true
      → contains out x ≡ (contains seen x && present store x)
      → contains (out ++ (id ∷ [])) x ≡ (contains (id ∷ seen) x && present store x)
  outputs-snoc id x seen out p o = elim (Bool-cases (x == id)) [
    | inl q ↦ ground (arith, p, o, contains-snoc out id x, ap (present store) ((eq_iff x id).0 q))
    | inr q ↦ ground (arith, o, contains-snoc out id x)
  ]

  outputs-absent :
      (id x : ObjectId) (seen out : List ObjectId)
      → present store id ≡ false
      → contains out x ≡ (contains seen x && present store x)
      → contains out x ≡ (contains (id ∷ seen) x && present store x)
  outputs-absent id x seen out p o = elim (Bool-cases (x == id)) [
    | inl q ↦ ground (arith, p, o, ap (present store) ((eq_iff x id).0 q))
    | inr q ↦ ground (arith, o)
  ]

  -- Any other id is seen, and the ids that its object refers to go on the stack.
  Searching-found :
      {id : ObjectId} {stack seen out : List ObjectId}
      → Searching (id ∷ stack) seen out
      → skip id ≡ false
      → (o : Option Object) → Maps.get store id ≡ o
      → Between (found skip edges store id stack seen out o)
  unfolding extend present
  Searching-found {id} {stack} {seen} {out} s n none h =
      Searching-push s n [] out (λ y. (λ m. absurd (cc), λ (o, g, m). absurd (cc)))
        (λ x. outputs-absent id x seen out (ap is_some h) (s.outputs x))
  Searching-found {id} {stack} {seen} {out} s n (some obj) h =
      Searching-push s n (edges obj) (out ++ (id ∷ []))
        (λ y. (
          λ m. (obj, h, m),
          λ (o, g, m). subst (λ z. contains (edges z) y ≡ true) (some-injective _ _ (sym g ∙ h)) m,
        ))
        (λ x. outputs-snoc id x seen out (ap is_some h) (s.outputs x))

  Searching-round :
      {id : ObjectId} {stack seen out : List ObjectId}
      → Searching (id ∷ stack) seen out
      → Between (round skip edges store id stack seen out)
  unfolding round
  Searching-round {id} {stack} {seen} {out} s = elim (Bool-cases (skip id || contains seen id)) [
    | inl p ↦ rw p (Searching-drop s p)
    | inr n ↦ rw n (Searching-found s (ground arith) (Maps.get store id) refl)
  ]

  -- What a round leaves to do.
  todo : State → ℕ
  todo (stack, seen, out) = length stack + unseen edges store seen

  todo-found :
      (id : ObjectId) (stack seen out : List ObjectId) (o : Option Object)
      → Maps.get store id ≡ o
      → contains seen id ≡ false
      → todo (found skip edges store id stack seen out o) < todo (id ∷ stack, seen, out)
  unfolding todo
  todo-found id stack seen out none h n = omega (arith, unseen_mono edges store seen id)
  todo-found id stack seen out (some obj) h n =
      omega (arith, length-extend stack (edges obj), unseen-cons edges store seen id obj h n)

  todo-round :
      (id : ObjectId) (stack seen out : List ObjectId)
      → todo (round skip edges store id stack seen out) < todo (id ∷ stack, seen, out)
  unfolding round todo
  todo-round id stack seen out = elim (Bool-cases (skip id || contains seen id)) [
    | inl p ↦ rw p (omega arith)
    | inr n ↦ rw n (todo-found id stack seen out (Maps.get store id) refl (ground arith))
  ]

  -- The result of a search.
  pub record Searched (seen out : List ObjectId) : Type 0 where
    pub seen_iff : (x : ObjectId) → (contains seen x ≡ true) ↔ Needed skip edges store from x
    pub out_eq : (x : ObjectId) → contains out x ≡ (contains seen x && present store x)

  Searching-end : {seen out : List ObjectId} → Searching [] seen out → Searched seen out
  Searching-end {seen} s = record { seen_iff = λ x. (s.needed x, visited x); out_eq = s.outputs }
    where
      visited : (x : ObjectId) → Needed skip edges store from x → contains seen x ≡ true
      visited x (start m n) = ground (arith, s.starts x m n)
      visited y (child {x} k r n) = ground (arith, s.closed x y (visited x k) r n)

  search_loop-Searched :
      (fuel : ℕ) (stack seen out : List ObjectId)
      → Searching stack seen out
      → todo (stack, seen, out) ≤ fuel
      → (r : List ObjectId × List ObjectId) × (search_loop skip edges store fuel stack seen out
          ≡ some r)
        × Searched r.0 r.1
  unfolding search_loop todo
  search_loop-Searched fuel [] seen out s h = ((seen, out), refl, Searching-end s)
  search_loop-Searched zero (id ∷ stack) seen out s h = absurd (omega arith)
  search_loop-Searched (suc fuel) (id ∷ stack) seen out s h =
      let (stack', seen', out') = round skip edges store id stack seen out in
      search_loop-Searched fuel stack' seen' out' (Searching-round s)
        (omega (arith, todo-round id stack seen out))

  -- Every search ends within its fuel.
  pub search-Searched :
      (r : List ObjectId × List ObjectId) × (search_loop skip edges store
          (search_fuel edges store from)
          from
          []
          []
        ≡ some r)
      × Searched r.0 r.1
  unfolding todo
  search-Searched =
      search_loop-Searched (search_fuel edges store from) from [] [] Searching-begin
        (omega (arith, unseen-le-edge_count edges store []))
