-- ===== src/Fuse/Moved.antt =====
-- The rows of a file that `rename_db` of src/fuse.rs moves.
use grizol.Prelude.{◌≡◌, sym, ap, ◌∙◌, Bool, Option, none, some, List, [], ◌∷◌, if◌then◌else◌}
use grizol.Prelude.Int.{ℤ}
use grizol.Prelude.Keys.{bytes_eq, lookup, lookup-insert}
use grizol.Prelude.Outcome.{Outcome, ok, assert, unwrap, >>=-eq-ok}
use grizol.Prelude.Bytes.{Bytes}
use grizol.Proto.{BlockInfo, Counter}
use grizol.Indices.{folder_device_eq}
use grizol.State.{BepState, file_key, insert_file_infos, update_file_locations, rm_file_info}
use grizol.State.Tables.{FileKey, file_key_eq, FileColumns, columns_of}
use grizol.State.Reads.{file_info, blocks_of, counters_of, with_row}
use grizol.Storage.Copies.{Execute, cp, rm_remote}
use grizol.Fuse.Attributes.{GrizolFs}
use grizol.Fuse.RenameDb.{path_below, move_file}
use grizol.State.Inserted.{
  ok_inj, insert_file_infos-files, update_file_locations-files, with_row-columns,
  rm_file_info-files,
}

module _ {E : Type 0} (listed_blocks : List BlockInfo → List BlockInfo)
    (listed_counters : List Counter → List Counter) (execute : Execute)
    (storage_backends : List Bytes) (is_utf8 : Bytes → Bool) where
  -- When the part of rename_db that moves a file returns, the file had a row, and afterwards a key
  -- has none if it is the old one, or else the columns of the old row with another sequence number
  -- if it is the new one, or else what it had; so a file that is renamed to its own name has no row
  -- left.
  pub move_file-lookup :
      (fs : GrizolFs) (orig_folder orig_name dest_folder : Bytes) (dest_dir : Option Bytes)
      (dest_name : Bytes) (s s' : BepState) (j : FileKey)
      → ◌≡◌ {A = Outcome E BepState}
          (move_file listed_blocks listed_counters execute storage_backends is_utf8 fs orig_folder
            orig_name dest_folder dest_dir dest_name s)
          (ok s')
      → (r : FileColumns) × (n : ℤ) × (lookup
            (file_key orig_folder fs.config.local_device_id orig_name)
            s.db.files
          ≡ some r)
        × (lookup j s'.db.files ≡ (
            if file_key_eq.beq (file_key orig_folder fs.config.local_device_id orig_name) j
            then none
            else if file_key_eq.beq
                (file_key dest_folder fs.config.local_device_id (path_below dest_dir dest_name))
                j
            then some (record r { sequence = n })
            else lookup j s.db.files))
  unfolding move_file file_info
  move_file-lookup fs orig_folder orig_name dest_folder dest_dir dest_name s s' j e =
      let device_id = fs.config.local_device_id in
      let path = path_below dest_dir dest_name in
      let orig = file_key orig_folder device_id orig_name in
      let dest = file_key dest_folder device_id path in
      let blocks = listed_blocks (blocks_of orig s.db) in
      let counters = listed_counters (counters_of orig s.db) in
      let (f, read, e₁) =
        >>=-eq-ok {E = E} (unwrap (with_row orig (lookup orig s.db.files) blocks counters)) _ e in
      let (row, name) =
        with_row-columns {E = E} orig (lookup orig s.db.files) blocks counters f read in
      let (u, utf8, e₂) = >>=-eq-ok {E = E} (assert {E = E} (is_utf8 dest_name)) _ e₁ in
      let (res, copied, e₃) =
        >>=-eq-ok {E = E}
          (cp {E = E} execute fs.config storage_backends orig_folder f.name dest_folder path) _
          e₂ in
      let (s₁, inserted, e₄) =
        >>=-eq-ok {E = E}
          (insert_file_infos {E = E} dest_folder device_id (record f { name = path } ∷ []) s) _
          e₃ in
      let (s₂, located, e₅) =
        >>=-eq-ok {E = E} (update_file_locations {E = E} dest_folder device_id path res s₁) _ e₄ in
      let (gone, removed, e₆) =
        >>=-eq-ok {E = E} (rm_remote {E = E} execute fs.config storage_backends orig_folder f.name)
          _ e₅ in
      let (n, files) =
        insert_file_infos-files {E = E} dest_folder device_id (record f { name = path }) s s₁
          inserted in
      let new : FileColumns = record (columns_of f) { sequence = n } in
      let old_rows =
        update_file_locations-files {E = E} dest_folder device_id path res s₁ s₂ located ∙ files in
      (
        columns_of f,
        n,
        row,
        ap (λ (t : BepState). lookup j t.db.files)
              (sym (ok_inj {E = E} (rm_file_info orig_folder device_id f.name s₂) s' e₆))
            ∙ rm_file_info-files orig_folder device_id f.name s₂ j
            ∙ ap
                (λ x.
                  if file_key_eq.beq (file_key orig_folder device_id x) j
                  then none
                  else lookup j s₂.db.files)
                name
            ∙ ap (λ rows. if file_key_eq.beq orig j then none else lookup j rows) old_rows
            ∙ ap (λ o. if file_key_eq.beq orig j then none else o)
                (lookup-insert dest j new s.db.files),
      )
