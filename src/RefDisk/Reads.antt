-- ===== src/RefDisk/Reads.antt =====
-- get and list of src/refs/disk.rs: what they answer of the refs that the files hold.
use bole.Base.{
  Bool, true, false, ◌&&◌, some, [], ◌∷◌, Bytes, bytes_eq, nat_eq, bytes_ord, contains,
  contains_head, contains-filter, contains-collect_set, filter, starts_with, ok, err, ◌≡◌, refl,
  sym, ap, ◌∙◌, inl, inr, Option-cases,
}
use bole.Base.Maps
use bole.Base.Maps.{Map, contains-keys_some}
use bole.Refs.{RefName, Ref, Refs}
use bole.Refs.Name
use bole.RefDisk.{Postcard, DiskRefBackend, get, list}
use bole.RefDisk.Steps.{Clear, blocked-Clear}
use bole.RefDisk.Planned.{Shows}

abbrev pub is_valid : RefName → Bool
is_valid n = elim (Name.new n) [ ok name ↦ true | err e ↦ false ]

module _ (c : Postcard) (d : DiskRefBackend) (refs : Refs) (shows : Shows c d refs) where
  -- `get` answers as the backend in memory, for a name that no file or directory stands in the way of,
  -- where the bytes of its ref are read back.
  pub get_lem :
      (name : RefName)
      → ((r : Ref) → Maps.get refs name ≡ some r → c.read_ref (c.ref_bytes r) ≡ ok r)
      → Clear (name ∷ []) d
      → get c d name ≡ ok (Maps.get refs name)
  unfolding get
  get_lem name reads clear =
      rw
        (
          blocked-Clear (name ∷ []) d name clear (contains_head name []),
          clear.no_dir name (contains_head name []),
        )
        (elim (Option-cases (Maps.get refs name)) [
          | inl e ↦ rw (shows name, e, get) refl
          | inr (r, e) ↦ rw (shows name, e, get, reads r e) refl
        ])

  -- `list` names the refs of the store in memory whose names are valid and have the prefix.
  pub list_lem :
      (prefix : Bytes) (name : RefName)
      → contains (list d prefix) name
        ≡ ((starts_with name prefix && is_valid name) && contains (Maps.keys refs) name)
  unfolding list
  list_lem prefix name =
      contains-collect_set (filter (λ n. starts_with n prefix && is_valid n) (Maps.keys d.files))
        name
      ∙ contains-filter (λ n. starts_with n prefix && is_valid n) (Maps.keys d.files) name
      ∙ ap (λ (b : Bool). (starts_with name prefix && is_valid name) && b) same
    where
      same : contains (Maps.keys d.files) name ≡ contains (Maps.keys refs) name
      same =
          contains-keys_some d.files name
          ∙ elim (Option-cases (Maps.get refs name)) [
            | inl e ↦ rw (shows name, e) refl
            | inr (r, e) ↦ rw (shows name, e) refl
          ]
          ∙ sym (contains-keys_some refs name)
