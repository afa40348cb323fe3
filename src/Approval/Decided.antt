-- ===== src/Approval/Decided.antt =====
-- What the approval hook of src/acl/attestation.rs decides of an advance or a merge.
use bole.Base.{
  ℕ, ◌-◌, ◌%◌, ◌^◌, ◌≤◌, ◌<◌, true, false, List, Bytes, bytes_eq, ◌≡◌, ◌↔◌, ◌⊎◌, length, contains,
  Error, ok, err, String,
}
use bole.Glob.{glob_matches}
use bole.Object.{ApproverRegistry, Attestation}
use bole.Refs.{ObjectId, RefName}
use bole.Hook.{
  PolicyDecision, allow, deny, requires_approval, PolicyEvent, advance, merge, PolicyContext,
}
use bole.Approval.{Ed25519, load_approvers, load_attestations}
use bole.Approval.Count.{Ascending, IsApproval}
use bole.Approval.Loaded.{IsPublished}

-- The timeline that an event moves, and the head that it moves it to.
pub data Moves : PolicyEvent → RefName → ObjectId → Type 0 where
  advanced :
      (timeline : RefName) (old new : ObjectId) → Moves (advance timeline old new) timeline new
  merged :
      (source target : RefName) (old result : ObjectId)
      → Moves (merge source target old result) target result

module _ (ed : Ed25519) (needed : ℕ) (target : RefName) (head : ObjectId)
    (ctx : PolicyContext) where
  -- The keys in ascending order, so that none stands twice, by which a published attestation validly
  -- approves the head of the target.
  abbrev pub IsTally : ApproverRegistry → List Bytes → Type 0
  IsTally registry keys =
      Ascending keys
      × ((key : Bytes)
          → (contains keys key ≡ true) ↔ (
              (att : Attestation) × IsPublished ctx.refs ctx.objects att
              × IsApproval ed registry target head key att))

  abbrev pub Weighs : ℕ → PolicyDecision → Type 0
  Weighs count d =
      ((needed ≤ count) × (d ≡ allow))
      ⊎ ((count < needed) × (reason : String) × (d ≡ requires_approval reason (needed - count)))

  -- What does not load is denied; else the keys are counted.
  abbrev pub Counted : PolicyDecision → Type 0
  Counted d =
      ((reason : String) × (d ≡ deny reason)
        × (((e : Error) × (load_approvers ctx.refs ctx.objects ≡ err e))
            ⊎ ((e : Error) × (load_attestations ctx.refs ctx.objects ≡ err e))))
      ⊎ ((registry : ApproverRegistry) × (load_approvers ctx.refs ctx.objects ≡ ok registry)
          × (keys : List Bytes) × IsTally registry keys
          × Weighs (length keys % 2 ^ 32) d)

  abbrev pub Decided : Bytes → PolicyDecision → Type 0
  Decided pattern d =
      ((glob_matches pattern target ≡ false) × (d ≡ allow))
      ⊎ ((glob_matches pattern target ≡ true) × Counted d)
