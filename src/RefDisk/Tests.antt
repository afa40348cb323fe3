-- ===== src/RefDisk/Tests.antt =====
-- Runs of src/refs/disk.rs: a tag moved to a nested name, and a name set above another.
use bole.Base.{
  ℕ, zero, suc, ◌+◌, true, none, some, [], ◌∷◌, ◌++◌, Bytes, bytes_eq, nat_eq, ◌==◌, contains,
  length, if◌then◌else◌, io, ok, err, ◌≡◌, refl, ◌⊎◌, bytes_discrete, ℕ_discrete, Bool-cases, subst,
  some-injective, inl, inr,
}
use bole.Base.Maps
use bole.Base.Maps.{NodupKeys}
use bole.Base.Slices.{take, drop}
use bole.Refs.{RefName, Ref, Refs, Tag, tag, timeline}
use bole.Refs
use bole.RefDisk.{
  Postcard, Plan, DiskRefBackend, ancestors, run, commit_calls, apply_atomic, recover,
}
use bole.RefDisk.Steps.{Apart, Clear, Apart-All, Clear-All}
use bole.RefDisk.Planned.{Shows, EndsAs, Decodes}
use bole.RefDisk.Recovery.{recover-Atomic, apply_atomic-EndsAs}
use bole.RefDisk.Stuck.{IsStuck, apply_atomic-IsStuck}

-- A format of lengths and bytes, for tags with a time and no message.
abbrev text_bytes : Bytes → Bytes
text_bytes s = length s ∷ s

abbrev tag_bytes : Ref → Bytes
tag_bytes (tag t) = t.created_at ∷ text_bytes t.target
tag_bytes (timeline t) = []

abbrev steps_bytes : Plan → Bytes
steps_bytes [] = []
steps_bytes ((name, none) ∷ plan) = text_bytes name ++ (0 ∷ steps_bytes plan)
steps_bytes ((name, some r) ∷ plan) = text_bytes name ++ (1 ∷ (tag_bytes r ++ steps_bytes plan))

abbrev read_text : Bytes → Bytes × Bytes
read_text [] = ([], [])
read_text (n ∷ s) = (take n s, drop n s)

abbrev read_tag : Bytes → Ref × Bytes
read_tag [] = (tag (record { target = []; created_at = 0; message = none }), [])
read_tag (t ∷ s) =
    let (target, rest) = read_text s in
    (tag (record { target = target; created_at = t; message = none }), rest)

abbrev read_steps : ℕ → Bytes → Plan
read_steps zero s = []
read_steps (suc fuel) [] = []
read_steps (suc fuel) (n ∷ s) =
    let name = take n s in
    let (r, after) = read_tag (drop (n + 1) s) in
    let removed = read_steps fuel (drop (n + 1) s) in
    let kept = read_steps fuel after in
    if take 1 (drop n s) == (0 ∷ []) then (name, none) ∷ removed else (name, some r) ∷ kept

abbrev sample : Postcard
sample = record {
  ref_bytes = tag_bytes;
  read_ref = λ s. ok (read_tag s).0;
  plan_bytes = steps_bytes;
  read_plan = λ s. ok (read_steps (length s) s);
}

abbrev old_tag : Ref
old_tag = tag (record { target = 5 ∷ 6 ∷ []; created_at = 1; message = none })

abbrev new_tag : Ref
new_tag = tag (record { target = 7 ∷ []; created_at = 2; message = none })

abbrev v : RefName
v = b'v' ∷ []

abbrev nested : RefName
nested = b'a' ∷ b'/' ∷ b'b' ∷ []

abbrev refs : Refs
refs = (v, old_tag) ∷ []

abbrev disk : DiskRefBackend
disk = record {
  files = (v, tag_bytes old_tag) ∷ [];
  dirs = [];
  temps = [];
  journals = [];
  journal_temps = [];
}

abbrev move : Plan
move = (v, none) ∷ (nested, some new_tag) ∷ []

abbrev journal : Bytes
journal = b'j' ∷ []

move-Apart : Apart (Maps.keys move)
unfolding Maps.keys ancestors bytes_discrete ℕ_discrete
move-Apart = Apart-All (Maps.keys move) ((refl, (refl, tt)), ((refl, (refl, tt)), tt))

move-Clear : Clear (Maps.keys move) disk
unfolding Maps.keys Maps.get ancestors bytes_discrete ℕ_discrete
move-Clear = Clear-All (Maps.keys move) disk ((tt, refl), (((refl, tt), refl), tt))

disk-Shows : Shows sample disk refs
unfolding Maps.get
disk-Shows j = elim (Bool-cases (j == v)) [ inl e ↦ rw e refl | inr e ↦ rw e refl ]

move-Decodes : Decodes sample move
unfolding bytes_discrete ℕ_discrete
move-Decodes = refl

apply_atomic-EndsAs_example :
    EndsAs sample (apply_atomic sample disk journal move) (Refs.apply_atomic refs move)
unfolding Maps.get Maps.keys bytes_discrete ℕ_discrete
apply_atomic-EndsAs_example =
    apply_atomic-EndsAs sample disk refs move journal move-Decodes move-Apart (refl, (refl, tt))
      move-Clear refl disk-Shows

-- After the first tag is gone and the directory of the second is made.
recover-Atomic_example :
    EndsAs sample (recover sample (run disk (take 4 (commit_calls sample journal move))).0) refs
    ⊎ EndsAs sample
        (recover sample (run disk (take 4 (commit_calls sample journal move))).0)
        (Refs.apply_atomic refs move)
unfolding Maps.get Maps.keys bytes_discrete ℕ_discrete
recover-Atomic_example =
    recover-Atomic sample disk refs move journal move-Decodes move-Apart (refl, (refl, tt))
      move-Clear refl disk-Shows 4

v-Clear : Clear (v ∷ []) disk
unfolding ancestors bytes_discrete ℕ_discrete
v-Clear = Clear-All (v ∷ []) disk ((tt, refl), tt)

reads_back : (r : Ref) → Maps.get refs v ≡ some r → sample.read_ref (sample.ref_bytes r) ≡ ok r
unfolding Maps.get bytes_discrete ℕ_discrete
reads_back r e =
    subst (λ (t : Ref). sample.read_ref (sample.ref_bytes t) ≡ ok t) (some-injective old_tag r e)
      refl

abbrev above : RefName
above = b'a' ∷ []

above-Apart : Apart (above ∷ [])
unfolding ancestors bytes_discrete ℕ_discrete
above-Apart = Apart-All (above ∷ []) ((refl, tt), tt)

above-Clear : Clear (above ∷ []) disk
unfolding Maps.get ancestors bytes_discrete ℕ_discrete
above-Clear = Clear-All (above ∷ []) disk ((tt, refl), tt)

above-Decodes : Decodes sample ((above, some old_tag) ∷ (nested, some new_tag) ∷ [])
unfolding bytes_discrete ℕ_discrete
above-Decodes = refl

is_above : contains (ancestors nested) above ≡ true
unfolding ancestors bytes_discrete ℕ_discrete
is_above = refl

apply_atomic-IsStuck_example :
    (b : DiskRefBackend) × (apply_atomic sample disk journal
        ((above, some old_tag) ∷ (nested, some new_tag) ∷ [])
      ≡ (b, err io))
    × IsStuck sample disk journal above nested old_tag new_tag b
apply_atomic-IsStuck_example =
    apply_atomic-IsStuck sample disk journal above nested old_tag new_tag above-Decodes above-Apart
      above-Clear is_above refl
