-- ===== src/Refs/Tests.antt =====
-- Unit tests of the refs, and the theorems at them.
use bole.Base.{
  ne_of_eq, storage, none, List, [], ◌∷◌, bytes, bytes_eq, bytes_discrete, ℕ_discrete, ◌≡◌, ◌≢◌,
  ◌↔◌, refl, nat_eq, each, err, ok, invalid_ref_name, transaction_conflict,
}
use bole.Base.Maps
use bole.Refs.{
  Refs, timeline, Timeline, append, commit_transaction, RefOp, create_tag_op, advance_head_op,
  advance_head_if_op, delete_op, apply_atomic, resolve,
}
use bole.Refs.Name
use bole.Refs.Name.{prefix, slash}
use bole.Refs.Name.Accepted.{IsName, new_iff}
use bole.Refs.Sequential.{sequential}
use bole.Refs.Commit.{CommitsAs, commit-sequential}
use bole.Refs.Methods.{swap_head, swap_head_exclusive}

abbrev main_head : Timeline
main_head = record {
  head = bytes "s1";
  policy = append;
  created_at = 1;
  kind = bytes "persistent";
  expires_at = none;
}

abbrev one_timeline : Refs
one_timeline = (bytes "main", timeline main_head) ∷ []

hierarchical : Name.new (bytes "experiment/foo") ≡ ok (bytes "experiment/foo")
unfolding Name.new each bytes_discrete ℕ_discrete
hierarchical = refl

rejects_dotdot :
    Name.new (bytes "a/../b") ≡ err (invalid_ref_name "segment must not start with '.'")
unfolding Name.new each bytes_discrete ℕ_discrete
rejects_dotdot = refl

prefix_of_hierarchical : prefix (bytes "a/b/c") ≡ bytes "a/b"
unfolding prefix ℕ_discrete
prefix_of_hierarchical = refl

-- A transaction whose last operation fails leaves no trace of the first.
all_or_nothing :
    commit_transaction one_timeline
      (delete_op (bytes "main") ∷ advance_head_op (bytes "main") (bytes "s2") ∷ [])
    ≡ (one_timeline, err (storage "ref not found"))
unfolding commit_transaction resolve Maps.get Maps.insert bytes_discrete ℕ_discrete
all_or_nothing = refl

new_iff_example : (Name.new (bytes "a/b") ≡ ok (bytes "a/b")) ↔ IsName (bytes "a/b")
new_iff_example = new_iff (bytes "a/b")

abbrev two_ops : List RefOp
two_ops =
    advance_head_if_op (bytes "main") (bytes "s1") (bytes "s2")
    ∷ create_tag_op (bytes "v1") (bytes "s2") none 7
    ∷ []

commit-sequential_example :
    CommitsAs one_timeline
      (commit_transaction one_timeline two_ops)
      (sequential one_timeline two_ops)
commit-sequential_example = commit-sequential one_timeline two_ops

s2_differs : bytes "s2" ≢ bytes "s1"
unfolding bytes_discrete ℕ_discrete
s2_differs = ne_of_eq (bytes "s2") (bytes "s1") refl

first_swap : (swap_head one_timeline (bytes "main") (bytes "s1") (bytes "s2")).1 ≡ ok tt
unfolding commit_transaction resolve apply_atomic Maps.get Maps.insert bytes_discrete ℕ_discrete
first_swap = refl

swap_head_exclusive_example :
    swap_head
      (swap_head one_timeline (bytes "main") (bytes "s1") (bytes "s2")).0
      (bytes "main")
      (bytes "s1")
      (bytes "s3")
    ≡ (
      (swap_head one_timeline (bytes "main") (bytes "s1") (bytes "s2")).0,
      err (transaction_conflict "head is not the expected value"),
    )
swap_head_exclusive_example =
    swap_head_exclusive one_timeline (bytes "main") (bytes "s1") (bytes "s2") (bytes "s3")
      s2_differs first_swap
