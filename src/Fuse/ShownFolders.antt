-- ===== src/Fuse/ShownFolders.antt =====
-- The folders of `top_folders_fuse` of src/core/bep_state.rs that the files of `files_fuse` are in.
use grizol.Prelude.{
  ◌≡◌, refl, sym, ap, ◌∙◌, subst, Bool, true, false, Bool-cases, Option, none, some, List, [], ◌∷◌,
  if◌then◌else◌, inl, inr, arith,
}
use grizol.Prelude.Int.{ℤ}
use grizol.Prelude.Keys.{bytes_eq, Dict, lookup}
use grizol.Prelude.Bytes.{Bytes}
use grizol.DeviceId.{DeviceId}
use grizol.Config.{device_id_eq}
use grizol.Indices.{folder_device_eq}
use grizol.State.Tables.{FileKey, file_key_eq, FileColumns, LocationRow, Database, any}
use grizol.State.Cluster.{ClusterTables, FolderRow}
use grizol.Fuse.{GrizolFolder, GrizolFileInfo}
use grizol.Fuse.Shown.{of_device, push_folder, folders_in, top_folders_fuse, files_by_key}
use grizol.Fuse.ShownFiles.{HasOneRow, files_by_key-shown_file}
use grizol.Fuse.ShownRows.{shown_file}

abbrev pub is_folder : Bytes → GrizolFolder → Bool
is_folder id g = bytes_eq.beq g.folder.id id

-- Whether bep_index has a row of the folder and the device.
abbrev pub has_index : Bytes → DeviceId → Database → Bool
has_index id device db =
    any (folder_device_eq.beq (record { folder = id; device_id = device })) db.indexes

any-push_folder :
    (j id : Bytes) (r : FolderRow) (n : Option ℤ) (rest : List GrizolFolder)
    → any (is_folder j) rest ≡ true
    → any (is_folder j) (push_folder id r n rest) ≡ true
any-push_folder j id r none rest h = h
any-push_folder j id r (some n) rest h = ground (arith, h)

any-push_folder_same :
    (id : Bytes) (r : FolderRow) (n : ℤ) (o : Option ℤ) (rest : List GrizolFolder)
    → o ≡ some n
    → any (is_folder id) (push_folder id r o rest) ≡ true
any-push_folder_same id r n none rest e = absurd (cc)
any-push_folder_same id r n (some m) rest e = ground (arith, bytes_eq.beq_iff id id)

any-if_push :
    (j id : Bytes) (r : FolderRow) (n : Option ℤ) (rest : List GrizolFolder) (b : Bool)
    → any (is_folder j) rest ≡ true
    → any (is_folder j) (if b then push_folder id r n rest else rest) ≡ true
any-if_push j id r n rest true h = any-push_folder j id r n rest h
any-if_push j id r n rest false h = h

any-if_push_same :
    (id : Bytes) (r : FolderRow) (n : ℤ) (o : Option ℤ) (rest : List GrizolFolder) (b : Bool)
    → b ≡ true
    → o ≡ some n
    → any (is_folder id) (if b then push_folder id r o rest else rest) ≡ true
any-if_push_same id r n o rest true i e = any-push_folder_same id r n o rest e
any-if_push_same id r n o rest false i e = absurd (cc)

module _ (rowid : Bytes → Option ℤ) (device : DeviceId) (db : Database) where
  any-folders_in :
      (j : Bytes) (n : ℤ) (row : FolderRow) (rows : Dict Bytes FolderRow)
      → has_index j device db ≡ true
      → lookup j rows ≡ some row
      → rowid j ≡ some n
      → any (is_folder j) (folders_in rowid device db.indexes rows) ≡ true
  any-folders_in j n row [] i l e = absurd (cc)
  any-folders_in j n row ((id, r) ∷ rows) i l e =
      let rest = folders_in rowid device db.indexes rows in
      elim (Bool-cases (bytes_eq.beq id j)) [
        | inl same ↦
            let q : id ≡ j = (bytes_eq.beq_iff id j).0 same in
            subst
              (λ x.
                any (is_folder j)
                  (if has_index x device db then push_folder x r (rowid x) rest else rest)
                ≡ true)
              (sym q) (any-if_push_same j r n (rowid j) rest (has_index j device db) i e)
        | inr other ↦ any-if_push j id r (rowid id) rest (has_index id device db) (
            any-folders_in j n row rows i
              (sym (ap (λ b. if b then some r else lookup j rows) other) ∙ l) e)
      ]

folder-shown_file :
    (rowid : FileKey → ℤ) (k : FileKey) (ls : List LocationRow) (o : Option FileColumns)
    (f : GrizolFileInfo)
    → shown_file rowid k ls o ≡ some f
    → k.folder_device.folder ≡ f.folder
folder-shown_file rowid k ls none f e = absurd (cc)
folder-shown_file rowid k ls (some r) f e =
    ap (λ o. elim o [ none ↦ f.folder | some g ↦ g.folder ]) e

if_some :
    (o : Option GrizolFileInfo) (f : GrizolFileInfo) (b : Bool)
    → (if b then o else none) ≡ some f
    → (b ≡ true) × (o ≡ some f)
if_some o f true e = (refl, e)
if_some o f false e = absurd (cc)

-- Where bep_file_info has one row for each key at most, and the foreign keys of the row of a file
-- lead to a row of bep_index and to a row of bep_folders with a row number, the folder of the file
-- that files_fuse has for the key is one of top_folders_fuse.
pub top_folders_fuse-files_by_key :
    (folder_rowid : Bytes → Option ℤ) (file_rowid : FileKey → ℤ) (device : DeviceId)
    (t : ClusterTables) (db : Database) (k : FileKey) (f : GrizolFileInfo) (row : FolderRow) (n : ℤ)
    → HasOneRow db.files
    → lookup k (files_by_key file_rowid device db) ≡ some f
    → any (folder_device_eq.beq k.folder_device) db.indexes ≡ true
    → lookup k.folder_device.folder t.folders ≡ some row
    → folder_rowid k.folder_device.folder ≡ some n
    → any (is_folder f.folder) (top_folders_fuse folder_rowid device t db) ≡ true
unfolding top_folders_fuse
top_folders_fuse-files_by_key folder_rowid file_rowid device t db k f row n h found i l e =
    let (d, shown) =
      if_some (shown_file file_rowid k db.locations (lookup k db.files)) f (of_device device k)
        (sym (files_by_key-shown_file file_rowid device db k h) ∙ found) in
    let own : k.folder_device.device_id ≡ device =
      (device_id_eq.beq_iff k.folder_device.device_id device).0 d in
    let i' = subst (λ x. has_index k.folder_device.folder x db ≡ true) own i in
    subst (λ x. any (is_folder x) (folders_in folder_rowid device db.indexes t.folders) ≡ true)
      (folder-shown_file file_rowid k db.locations (lookup k db.files) f shown)
      (any-folders_in folder_rowid device db k.folder_device.folder n row t.folders i' l e)
