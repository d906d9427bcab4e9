-- ===== src/Fuse/ShownFiles.antt =====
-- What `files_fuse` of src/core/bep_state.rs shows of a file.
use grizol.Prelude.{
  ◌≡◌, refl, sym, ap, ◌∙◌, subst, Bool, true, false, Bool-cases, Option, none, some, List, [], ◌∷◌,
  ◌++◌, if◌then◌else◌, inl, inr,
}
use grizol.Prelude.Int.{ℤ}
use grizol.Prelude.Keys.{bytes_eq, Dict, lookup}
use grizol.DeviceId.{DeviceId}
use grizol.Config.{device_id_eq}
use grizol.State.Tables.{FileKey, file_key_eq, FileColumns, LocationRow, Database}
use grizol.Fuse.{GrizolFileInfo}
use grizol.Fuse.Shown.{
  JoinRow, join_file, locations_of, of_device, join_files, FilesFuse, add_rows, files_by_key,
}
use grizol.Fuse.ShownRows.{shown_file, add_rows-append, lookup-join_file_other, lookup-join_file}

-- PRIMARY KEY(folder, device, name)
abbrev pub HasOneRow : Dict FileKey FileColumns → Type 0
HasOneRow [] = Unit
HasOneRow ((k, r) ∷ rows) = (lookup k rows ≡ none) × HasOneRow rows

module _ (rowid : FileKey → ℤ) where
  lookup_cons_same :
      (k j : FileKey) (r : FileColumns) (rows : Dict FileKey FileColumns)
      → file_key_eq.beq k j ≡ true
      → lookup j ((k, r) ∷ rows) ≡ some r
  lookup_cons_same k j r rows e = ap (λ b. if b then some r else lookup j rows) e

  lookup_cons_other :
      (k j : FileKey) (r : FileColumns) (rows : Dict FileKey FileColumns)
      → file_key_eq.beq k j ≡ false
      → lookup j ((k, r) ∷ rows) ≡ lookup j rows
  lookup_cons_other k j r rows e = ap (λ b. if b then some r else lookup j rows) e

  -- The rows of another file, if it is of the device.
  add_rows_other :
      (k j : FileKey) (r : FileColumns) (ls : List LocationRow) (later : List JoinRow)
      (m : FilesFuse) (b : Bool) (o : Option GrizolFileInfo)
      → file_key_eq.beq k j ≡ false
      → ((m' : FilesFuse) → lookup j m' ≡ lookup j m → lookup j (add_rows rowid later m') ≡ o)
      → lookup j (add_rows rowid (if b then join_file k r ls ++ later else later) m) ≡ o
  add_rows_other k j r ls later m true o e next_rows =
      ap (λ m'. lookup j m') (add_rows-append rowid (join_file k r ls) later m)
      ∙ next_rows (add_rows rowid (join_file k r ls) m) (lookup-join_file_other rowid k j r ls m e)
  add_rows_other k j r ls later m false o e next_rows = next_rows m refl

  -- A file without a row.
  lookup-join_files_other :
      (device : DeviceId) (j : FileKey) (rows : Dict FileKey FileColumns) (ls : List LocationRow)
      (m : FilesFuse)
      → lookup j rows ≡ none
      → lookup j (add_rows rowid (join_files device rows ls) m) ≡ lookup j m
  lookup-join_files_other device j [] ls m h = refl
  lookup-join_files_other device j ((k, r) ∷ rows) ls m h =
      elim (Bool-cases (file_key_eq.beq k j)) [
        | inl e ↦ let found = lookup_cons_same k j r rows e in absurd (cc)
        | inr e ↦
            let missing = sym (lookup_cons_other k j r rows e) ∙ h in
            add_rows_other k j r (locations_of k ls) (join_files device rows ls) m
              (of_device device k) (lookup j m) e
              (λ m' same. lookup-join_files_other device j rows ls m' missing ∙ same)
      ]

  lookup-join_files_first :
      (device : DeviceId) (k : FileKey) (r : FileColumns) (rows : Dict FileKey FileColumns)
      (ls : List LocationRow) (m : FilesFuse)
      → lookup k rows ≡ none
      → of_device device k ≡ true
      → lookup k m ≡ none
      → lookup k (add_rows rowid (join_files device ((k, r) ∷ rows) ls) m)
        ≡ shown_file rowid k ls (some r)
  lookup-join_files_first device k r rows ls m h d e =
      let later = join_files device rows ls in
      let own = join_file k r (locations_of k ls) in
      ap (λ b. lookup k (add_rows rowid (if b then own ++ later else later) m)) d
      ∙ ap (λ m'. lookup k m') (add_rows-append rowid own later m)
      ∙ lookup-join_files_other device k rows ls (add_rows rowid own m) h
      ∙ lookup-join_file rowid k r (locations_of k ls) m e

  lookup-join_files :
      (device : DeviceId) (j : FileKey) (rows : Dict FileKey FileColumns) (ls : List LocationRow)
      (m : FilesFuse)
      → HasOneRow rows
      → of_device device j ≡ true
      → lookup j m ≡ none
      → lookup j (add_rows rowid (join_files device rows ls) m)
        ≡ shown_file rowid j ls (lookup j rows)
  lookup-join_files device j [] ls m h d e = e
  lookup-join_files device j ((k, r) ∷ rows) ls m h d e = elim (Bool-cases (file_key_eq.beq k j)) [
    | inl same ↦
        let q : k ≡ j = (file_key_eq.beq_iff k j).0 same in
        subst
          (λ x.
            lookup x (add_rows rowid (join_files device ((k, r) ∷ rows) ls) m)
            ≡ shown_file rowid x ls (some r))
          q
          (lookup-join_files_first device k r rows ls m h.0
            (subst (λ x. of_device device x ≡ true) (sym q) d)
            (subst (λ x. lookup x m ≡ none) (sym q) e))
        ∙ ap (shown_file rowid j ls) (sym (lookup_cons_same k j r rows same))
    | inr other ↦
        add_rows_other k j r (locations_of k ls) (join_files device rows ls) m (of_device device k)
          (shown_file rowid j ls (lookup j rows)) other
          (λ m' kept. lookup-join_files device j rows ls m' h.1 d (kept ∙ e))
        ∙ ap (shown_file rowid j ls) (sym (lookup_cons_other k j r rows other))
  ]

  -- A file of another device.
  lookup-join_files_foreign :
      (device : DeviceId) (j : FileKey) (rows : Dict FileKey FileColumns) (ls : List LocationRow)
      (m : FilesFuse)
      → of_device device j ≡ false
      → lookup j (add_rows rowid (join_files device rows ls) m) ≡ lookup j m
  lookup-join_files_foreign device j [] ls m d = refl
  lookup-join_files_foreign device j ((k, r) ∷ rows) ls m d =
      let later = join_files device rows ls in
      elim (Bool-cases (file_key_eq.beq k j)) [
        | inl same ↦
            let q : k ≡ j = (file_key_eq.beq_iff k j).0 same in
            ap
              (λ b. lookup j (
                add_rows rowid (if b then join_file k r (locations_of k ls) ++ later else later) m))
              (subst (λ x. of_device device x ≡ false) (sym q) d)
            ∙ lookup-join_files_foreign device j rows ls m d
        | inr other ↦
            add_rows_other k j r (locations_of k ls) later m (of_device device k) (lookup j m) other
              (λ m' kept. lookup-join_files_foreign device j rows ls m' d ∙ kept)
      ]

  -- Where bep_file_info has one row for each key at most, files_fuse has for a key of the device the
  -- columns of its row, if there is one, with all its remote locations in the order of their rows
  -- and none of the local ones, and nothing for a key of another device.
  pub files_by_key-shown_file :
      (device : DeviceId) (db : Database) (k : FileKey)
      → HasOneRow db.files
      → lookup k (files_by_key rowid device db)
        ≡ (if of_device device k then shown_file rowid k db.locations (lookup k db.files) else none)
  unfolding files_by_key
  files_by_key-shown_file device db k h =
      let shown = shown_file rowid k db.locations (lookup k db.files) in
      elim (Bool-cases (of_device device k)) [
        | inl d ↦
            lookup-join_files device k db.files db.locations [] h d refl
            ∙ sym (ap (λ b. if b then shown else none) d)
        | inr d ↦
            lookup-join_files_foreign device k db.files db.locations [] d
            ∙ sym (ap (λ b. if b then shown else none) d)
      ]
