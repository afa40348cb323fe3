-- ===== src/Merge/Rule.antt =====
-- The rule of a three-way merge, and how a round of `three_way_diff` of src/repo/merge.rs follows it.
use bole.Base.{
  Option, none, some, [], ◌∷◌, ◌++◌, ◌≡◌, inl, inr, refl, arith, Bytes, bytes_eq, bytes_ord,
  option_eq, option_discrete, ◌==◌, if◌then◌else◌, Bool-cases,
}
use bole.Base.Maps
use bole.Base.Maps.{get-insert}
use bole.Refs.{ObjectId}
use bole.Merge.{MergeResult, classify, merge_key}

-- The outcome for one path: a value, where `none` is no file, or a conflict.
pub data Outcome : Type 0 where
  take : Option ObjectId → Outcome
  clash : Outcome

-- The rule of a three-way merge: the side that agrees with the ancestor gives way to the other.
unfoldable pub rule : Option ObjectId → Option ObjectId → Option ObjectId → Outcome
rule anc our thr =
    if our == thr
    then take our
    else (if anc == our then take thr else (if anc == thr then take our else clash))

abbrev pub taken : Outcome → Option ObjectId
taken (take v) = v
taken clash = none

-- What a round does, by the rule.
abbrev pub applied : MergeResult → Bytes → Option ObjectId → Option ObjectId → Outcome → MergeResult
applied r key our thr (take none) = r
applied r key our thr (take (some id)) = record r { merged = Maps.insert r.merged key id }
applied r key our thr clash = record r {
  conflicts = r.conflicts ++ (record { path = key; ours = our; theirs = thr } ∷ []);
}

some-eq : (a b : ObjectId) → (some a == some b) ≡ (b == a)
unfolding option_discrete
some-eq a b = ground arith

pub merge_key-applied :
    (r : MergeResult) (key : Bytes) (anc our thr : Option ObjectId)
    → merge_key r key anc our thr ≡ applied r key our thr (rule anc our thr)
unfolding merge_key classify rule option_discrete
merge_key-applied r key none none none = refl
merge_key-applied r key none none (some t) = refl
merge_key-applied r key none (some o) none = refl
merge_key-applied r key none (some o) (some t) = elim (Bool-cases (some o == some t)) [
  | inl p ↦ rw p refl
  | inr n ↦ rw n refl
]
merge_key-applied r key (some a) none none = refl
merge_key-applied r key (some a) none (some t) = elim (Bool-cases (t == a)) [
  | inl p ↦ rw (some-eq a t, p) refl
  | inr n ↦ rw (some-eq a t, n) refl
]
merge_key-applied r key (some a) (some o) none = elim (Bool-cases (o == a)) [
  | inl p ↦ rw (some-eq a o, p) refl
  | inr n ↦ rw (some-eq a o, n) refl
]
merge_key-applied r key (some a) (some o) (some t) = elim (Bool-cases (some o == some t)) [
  | inl p ↦ rw p refl
  | inr n ↦ rw n (elim (Bool-cases (some a == some o)) [
    | inl p ↦ rw p refl
    | inr m ↦ rw m (elim (Bool-cases (some a == some t)) [ inl p ↦ rw p refl | inr k ↦ rw k refl ])
  ])
]
