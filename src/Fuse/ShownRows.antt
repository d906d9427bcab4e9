-- ===== src/Fuse/ShownRows.antt =====
-- What the rows of one file add to the files of `files_fuse` of src/core/bep_state.rs.
use grizol.Prelude.{
  ◌≡◌, refl, sym, ap, ◌∙◌, Bool, true, false, Bool-cases, Option, none, some, List, [], ◌∷◌, ◌++◌,
  map, append-nil, append_assoc, if◌then◌else◌, inl, inr, arith,
}
use grizol.Prelude.Int.{ℤ}
use grizol.Prelude.Keys.{bytes_eq, lookup, insert, lookup-insert}
use grizol.Config.{device_id_eq}
use grizol.State.{FileLocation}
use grizol.State.Tables.{FileKey, file_key_eq, FileColumns, LocationRow}
use grizol.Fuse.{GrizolFileInfo}
use grizol.Fuse.Shown.{
  JoinRow, located_row, join_file, locations_of, FilesFuse, new_file, or_insert, push_location,
  is_local, add_location, add_row, add_rows,
}

module _ (rowid : FileKey → ℤ) where
  -- The locations that are not local, in order.
  abbrev pub remote_locations : List LocationRow → List FileLocation
  remote_locations [] = []
  remote_locations (l ∷ ls) =
      let rest = remote_locations ls in
      if is_local l then rest else (l.storage_backend, l.location) ∷ rest

  abbrev pub shown_file : FileKey → List LocationRow → Option FileColumns → Option GrizolFileInfo
  shown_file k ls none = none
  shown_file k ls (some r) =
      some (record (new_file rowid k r) { file_locations = remote_locations (locations_of k ls) })

  abbrev pub with_more : GrizolFileInfo → List LocationRow → GrizolFileInfo
  with_more f ls = record f { file_locations = f.file_locations ++ remote_locations ls }

  lookup-insert_same :
      (k : FileKey) (f : GrizolFileInfo) (m : FilesFuse) → lookup k (insert k f m) ≡ some f
  lookup-insert_same k f m = ground (arith, lookup-insert k k f m, file_key_eq.beq_iff k k)

  lookup-insert_other :
      (k j : FileKey) (f : GrizolFileInfo) (m : FilesFuse)
      → file_key_eq.beq k j ≡ false
      → lookup j (insert k f m) ≡ lookup j m
  lookup-insert_other k j f m e = ground (arith, lookup-insert k j f m, e)

  pub add_rows-append :
      (xs ys : List JoinRow) (m : FilesFuse)
      → add_rows rowid (xs ++ ys) m ≡ add_rows rowid ys (add_rows rowid xs m)
  add_rows-append [] ys m = refl
  add_rows-append (x ∷ xs) ys m = add_rows-append xs ys (add_row rowid x m)

  lookup-or_insert_other :
      (k j : FileKey) (f : GrizolFileInfo) (o : Option GrizolFileInfo) (m : FilesFuse)
      → file_key_eq.beq k j ≡ false
      → lookup j (or_insert rowid k f o m) ≡ lookup j m
  lookup-or_insert_other k j f none m e = lookup-insert_other k j f m e
  lookup-or_insert_other k j f (some g) m e = refl

  lookup-push_location_other :
      (k j : FileKey) (l : FileLocation) (o : Option GrizolFileInfo) (m : FilesFuse)
      → file_key_eq.beq k j ≡ false
      → lookup j (push_location rowid k l o m) ≡ lookup j m
  lookup-push_location_other k j l none m e = refl
  lookup-push_location_other k j l (some f) m e =
      lookup-insert_other k j (record f { file_locations = f.file_locations ++ l ∷ [] }) m e

  lookup-add_location_other :
      (k j : FileKey) (o : Option LocationRow) (m : FilesFuse)
      → file_key_eq.beq k j ≡ false
      → lookup j (add_location rowid k o m) ≡ lookup j m
  lookup-add_location_other k j none m e = refl
  lookup-add_location_other k j (some l) m e =
      ground
        (arith, lookup-push_location_other k j (l.storage_backend, l.location) (lookup k m) m e)

  lookup-add_row_other :
      (row : JoinRow) (j : FileKey) (m : FilesFuse)
      → file_key_eq.beq row.key j ≡ false
      → lookup j (add_row rowid row m) ≡ lookup j m
  lookup-add_row_other row j m e =
      lookup-add_location_other row.key j row.location _ e
      ∙ lookup-or_insert_other row.key j (new_file rowid row.key row.columns) (lookup row.key m) m e

  lookup-located_other :
      (k j : FileKey) (r : FileColumns) (ls : List LocationRow) (m : FilesFuse)
      → file_key_eq.beq k j ≡ false
      → lookup j (add_rows rowid (map (located_row k r) ls) m) ≡ lookup j m
  lookup-located_other k j r [] m e = refl
  lookup-located_other k j r (l ∷ ls) m e =
      lookup-located_other k j r ls (add_row rowid (located_row k r l) m) e
      ∙ lookup-add_row_other (located_row k r l) j m e

  pub lookup-join_file_other :
      (k j : FileKey) (r : FileColumns) (ls : List LocationRow) (m : FilesFuse)
      → file_key_eq.beq k j ≡ false
      → lookup j (add_rows rowid (join_file k r ls) m) ≡ lookup j m
  lookup-join_file_other k j r [] m e =
      lookup-add_row_other (record { key = k; columns = r; location = none }) j m e
  lookup-join_file_other k j r (l ∷ ls) m e = lookup-located_other k j r (l ∷ ls) m e

  lookup-push_if :
      (k : FileKey) (l : FileLocation) (f : GrizolFileInfo) (m : FilesFuse) (b : Bool)
      → lookup k m ≡ some f
      → lookup k (if b then m else push_location rowid k l (lookup k m) m)
        ≡ some (record f { file_locations = f.file_locations ++ (if b then [] else l ∷ []) })
  lookup-push_if k l f m true e =
      e ∙ ap (λ ls. some (record f { file_locations = ls })) (sym (append-nil f.file_locations))
  lookup-push_if k l f m false e =
      ap (λ o. lookup k (push_location rowid k l o m)) e
      ∙ lookup-insert_same k (record f { file_locations = f.file_locations ++ l ∷ [] }) m

  -- A row of a file that is there.
  lookup-add_row :
      (k : FileKey) (r : FileColumns) (l : LocationRow) (f : GrizolFileInfo) (m : FilesFuse)
      → lookup k m ≡ some f
      → lookup k (add_row rowid (located_row k r l) m) ≡ some (with_more f (l ∷ []))
  lookup-add_row k r l f m e =
      ap
        (λ o. lookup k (add_location rowid k (some l) (or_insert rowid k (new_file rowid k r) o m)))
        e
      ∙ lookup-push_if k (l.storage_backend, l.location) f m (is_local l) e

  remote_locations-cons :
      (l : LocationRow) (ls : List LocationRow)
      → remote_locations (l ∷ ls) ≡ remote_locations (l ∷ []) ++ remote_locations ls
  remote_locations-cons l ls = elim (Bool-cases (is_local l)) [
    | inl e ↦ ground (arith, e)
    | inr e ↦ ground (arith, e)
  ]

  with_more_twice :
      (f : GrizolFileInfo) (l : LocationRow) (ls : List LocationRow)
      → with_more (with_more f (l ∷ [])) ls ≡ with_more f (l ∷ ls)
  with_more_twice f l ls =
      ap (λ xs. record f { file_locations = xs })
        (append_assoc f.file_locations (remote_locations (l ∷ [])) (remote_locations ls)
          ∙ ap (λ xs. f.file_locations ++ xs) (sym (remote_locations-cons l ls)))

  lookup-located :
      (k : FileKey) (r : FileColumns) (ls : List LocationRow) (f : GrizolFileInfo) (m : FilesFuse)
      → lookup k m ≡ some f
      → lookup k (add_rows rowid (map (located_row k r) ls) m) ≡ some (with_more f ls)
  lookup-located k r [] f m e =
      e ∙ ap (λ ls. some (record f { file_locations = ls })) (sym (append-nil f.file_locations))
  lookup-located k r (l ∷ ls) f m e =
      lookup-located k r ls (with_more f (l ∷ [])) (add_row rowid (located_row k r l) m)
        (lookup-add_row k r l f m e)
      ∙ ap some (with_more_twice f l ls)

  -- The rows of a file that is not there yet.
  pub lookup-join_file :
      (k : FileKey) (r : FileColumns) (ls : List LocationRow) (m : FilesFuse)
      → lookup k m ≡ none
      → lookup k (add_rows rowid (join_file k r ls) m) ≡ some (with_more (new_file rowid k r) ls)
  lookup-join_file k r [] m e =
      ap (λ o. lookup k (or_insert rowid k (new_file rowid k r) o m)) e
      ∙ lookup-insert_same k (new_file rowid k r) m
  lookup-join_file k r (l ∷ ls) m e =
      let new = new_file rowid k r in
      let m' = insert k new m in
      ap
        (λ o. lookup k (
          add_rows rowid (map (located_row k r) ls)
            (add_location rowid k (some l) (or_insert rowid k new o m))))
        e
      ∙ lookup-located k r ls (with_more new (l ∷ [])) (add_location rowid k (some l) m') (
          lookup-push_if k (l.storage_backend, l.location) new m' (is_local l)
            (lookup-insert_same k new m))
      ∙ ap some (with_more_twice new l ls)
