-- ===== src/Access/Verdicts.antt =====
-- Whom an accessor lets read and write, in terms of the clearances that it holds.
use mathlib.Core.List.{Memᴰ}
use bole.Base.{true, false, ◌≡◌, ◌↔◌, arith, bytes_eq, any, any-Mem, Mem-any, any_mono}
use bole.Lattice.{Label, dominates, strictly_dominates}
use bole.Lattice.Reach.{Below, dominates_iff, dominates_refl, dominates_trans}
use bole.Access.{
  Capability, cap_read, cap_write, has_cap, ResourceRef, Clearance, scope_applies, Accessor,
  qualifies, at_level, can_read, can_write,
}

-- The accessor holds a clearance with the capability `bit`, in scope for `r`, whose ceiling fits.
abbrev pub Holds : Accessor → ResourceRef → Capability → (Label → Type 0) → Type 0
Holds a r bit Fits =
    (c : Clearance) × Memᴰ c a.clearances.clearances
    × (has_cap c.cap bit ≡ true)
    × (scope_applies c.scope r ≡ true)
    × Fits c.ceiling

module _ (a : Accessor) (label : Label) (r : ResourceRef) where
  qualifies_iff :
      (bit : Capability)
      → (any (qualifies a label r bit) a.clearances.clearances ≡ true)
        ↔ Holds a r bit (Below a.lattice.cover label)
  qualifies_iff bit = (to, from)
    where
      to :
          any (qualifies a label r bit) a.clearances.clearances ≡ true
          → Holds a r bit (Below a.lattice.cover label)
      to h =
          let (c, m, q) = any-Mem (qualifies a label r bit) a.clearances.clearances h in
          (
            c,
            m,
            unfold qualifies in ground arith,
            unfold qualifies in ground arith,
            (dominates_iff a.lattice c.ceiling label).0 (unfold qualifies in ground arith),
          )

      from :
          Holds a r bit (Below a.lattice.cover label)
          → any (qualifies a label r bit) a.clearances.clearances ≡ true
      from (c, m, has, applies, d) =
          Mem-any (qualifies a label r bit) m
            (unfold qualifies in ground (arith, (dominates_iff a.lattice c.ceiling label).1 d))

  at_level_iff :
      (bit : Capability)
      → (any (at_level a label r bit) a.clearances.clearances ≡ true)
        ↔ Holds a r bit (λ ceiling. ceiling ≡ label)
  at_level_iff bit = (to, from)
    where
      to :
          any (at_level a label r bit) a.clearances.clearances ≡ true
          → Holds a r bit (λ ceiling. ceiling ≡ label)
      to h =
          let (c, m, q) = any-Mem (at_level a label r bit) a.clearances.clearances h in
          (
            c,
            m,
            unfold at_level in ground arith,
            unfold at_level in ground arith,
            unfold at_level strictly_dominates in ground arith,
          )

      from :
          Holds a r bit (λ ceiling. ceiling ≡ label)
          → any (at_level a label r bit) a.clearances.clearances ≡ true
      from (c, m, has, applies, e) =
          Mem-any (at_level a label r bit) m
            (unfold at_level strictly_dominates in ground (arith, dominates_refl a.lattice label))

  at_level→qualifies :
      (bit : Capability)
      → any (at_level a label r bit) a.clearances.clearances ≡ true
      → any (qualifies a label r bit) a.clearances.clearances ≡ true
  unfolding at_level qualifies
  at_level→qualifies bit =
      any_mono (at_level a label r bit) (qualifies a label r bit) a.clearances.clearances
        (λ c h. ground arith)

  -- A resource may be read exactly when the accessor holds a read clearance, in scope for the
  -- resource, whose ceiling is reached from the resource's label by covering edges.
  pub can_read_iff : (can_read a label r ≡ true) ↔ Holds a r cap_read (Below a.lattice.cover label)
  unfolding can_read
  can_read_iff = qualifies_iff cap_read

  -- A confined accessor may write exactly where it holds a write clearance, in scope, whose ceiling
  -- is the resource's label itself.
  pub can_write_confined :
      a.clearances.confined ≡ true
      → (can_write a label r ≡ true) ↔ Holds a r cap_write (λ ceiling. ceiling ≡ label)
  unfolding can_write
  can_write_confined confined = (
    λ h. (at_level_iff cap_write).0 (ground arith),
    λ h. let l = (at_level_iff cap_write).1 h in ground (arith, l, at_level→qualifies cap_write l),
  )

  -- An accessor that is not confined may write exactly where it holds a write clearance, in scope,
  -- whose ceiling is reached from the resource's label by covering edges.
  pub can_write_unconfined :
      a.clearances.confined ≡ false
      → (can_write a label r ≡ true) ↔ Holds a r cap_write (Below a.lattice.cover label)
  unfolding can_write
  can_write_unconfined free = (
    λ h. (qualifies_iff cap_write).0 (ground arith),
    λ h. ground (arith, (qualifies_iff cap_write).1 h),
  )

module _ (a : Accessor) (label lower : Label) (r : ResourceRef) where
  -- Who may read a resource of some label, or write one without being confined, may do so for a
  -- resource of every label below it.
  pub access_down :
      dominates a.lattice label lower ≡ true
      → (can_read a label r ≡ true → can_read a lower r ≡ true)
        × (a.clearances.confined ≡ false → can_write a label r ≡ true → can_write a lower r ≡ true)
  access_down d = (read_down, write_down)
    where
      down :
          (bit : Capability)
          → any (qualifies a label r bit) a.clearances.clearances ≡ true
          → any (qualifies a lower r bit) a.clearances.clearances ≡ true
      down bit =
          any_mono (qualifies a label r bit) (qualifies a lower r bit) a.clearances.clearances
            (λ c h.
              unfold qualifies in
              ground (arith, dominates_trans a.lattice c.ceiling label lower, d))

      read_down : can_read a label r ≡ true → can_read a lower r ≡ true
      read_down h = unfold can_read in down cap_read h

      write_down :
          a.clearances.confined ≡ false → can_write a label r ≡ true → can_write a lower r ≡ true
      write_down free h = unfold can_write in ground (arith, down cap_write)
