-- ===== src/Fuse/Shown.antt =====
-- The folders and the files that the file system gets from the database, `top_folders_fuse` and `files_fuse`
-- of src/core/bep_state.rs. The row numbers of the database are parameters. Folders, files and the
-- locations of a file come in the order of their rows, which no statement promises.
use grizol.Prelude.{Bool, Option, none, some, List, [], ◌∷◌, ◌++◌, map, if◌then◌else◌}
use grizol.Prelude.Int.{ℤ}
use grizol.Prelude.Keys.{bytes_eq, Dict, lookup, insert}
use grizol.Prelude.Bytes.{Bytes}
use grizol.Proto.{Folder}
use grizol.DeviceId.{DeviceId}
use grizol.Config.{device_id_eq}
use grizol.Indices.{FolderDevice, folder_device_eq}
use grizol.State.{FileLocation}
use grizol.State.Tables.{FileKey, file_key_eq, FileColumns, LocationRow, Database, any, filter}
use grizol.State.Reads.{file_of_row}
use grizol.State.Cluster.{ClusterTables, FolderRow}
use grizol.Fuse.{GrizolFolder, GrizolFileInfo}

abbrev pub folder_of : Bytes → FolderRow → Folder
folder_of id r = record {
  id = id;
  label = r.label;
  read_only = r.read_only;
  ignore_permissions = r.ignore_permissions;
  ignore_delete = r.ignore_delete;
  disable_temp_indexes = r.disable_temp_indexes;
  paused = r.paused;
  devices = [];
}

-- Those without a row number are left out.
abbrev pub push_folder : Bytes → FolderRow → Option ℤ → List GrizolFolder → List GrizolFolder
push_folder id r none rest = rest
push_folder id r (some n) rest = record { folder = folder_of id r; id = n } ∷ rest

-- A folder has one row with the device in bep_index at most, the key of that table.
abbrev pub folders_in :
    (Bytes → Option ℤ) → DeviceId → List FolderDevice → Dict Bytes FolderRow → List GrizolFolder
folders_in rowid device indexes [] = []
folders_in rowid device indexes ((id, r) ∷ rows) =
    let rest = folders_in rowid device indexes rows in
    if any (folder_device_eq.beq (record { folder = id; device_id = device })) indexes
    then push_folder id r (rowid id) rest
    else rest

unfoldable pub top_folders_fuse :
    (Bytes → Option ℤ) → DeviceId → ClusterTables → Database → List GrizolFolder
top_folders_fuse rowid device t db = folders_in rowid device db.indexes t.folders

-- A row of the join of a file with its locations.
pub record JoinRow : Type 0 where
  pub key : FileKey
  pub columns : FileColumns
  pub location : Option LocationRow

abbrev pub located_row : FileKey → FileColumns → LocationRow → JoinRow
located_row k r l = record { key = k; columns = r; location = some l }

abbrev pub join_file : FileKey → FileColumns → List LocationRow → List JoinRow
join_file k r [] = record { key = k; columns = r; location = none } ∷ []
join_file k r (l ∷ ls) = map (located_row k r) (l ∷ ls)

abbrev pub locations_of : FileKey → List LocationRow → List LocationRow
locations_of k rows = filter (λ row. file_key_eq.beq row.file k) rows

abbrev pub of_device : DeviceId → FileKey → Bool
of_device device k = device_id_eq.beq k.folder_device.device_id device

abbrev pub join_files : DeviceId → Dict FileKey FileColumns → List LocationRow → List JoinRow
join_files device [] locations = []
join_files device ((k, r) ∷ rows) locations =
    let rest = join_files device rows locations in
    if of_device device k then join_file k r (locations_of k locations) ++ rest else rest

abbrev pub FilesFuse : Type 0
FilesFuse = Dict FileKey GrizolFileInfo

-- `"local"`
abbrev pub is_local : LocationRow → Bool
is_local l = bytes_eq.beq l.storage_backend (108 ∷ 111 ∷ 99 ∷ 97 ∷ 108 ∷ [])

module _ (rowid : FileKey → ℤ) where
  abbrev pub new_file : FileKey → FileColumns → GrizolFileInfo
  new_file k r = record {
    file_info = record (file_of_row k r [] []) { version = none };
    id = rowid k;
    file_locations = [];
    folder = k.folder_device.folder;
  }

  -- `entry(key).or_insert(file)`
  abbrev pub or_insert : FileKey → GrizolFileInfo → Option GrizolFileInfo → FilesFuse → FilesFuse
  or_insert k f none m = insert k f m
  or_insert k f (some g) m = m

  -- `get_mut(key)` and `push`
  abbrev pub push_location : FileKey → FileLocation → Option GrizolFileInfo → FilesFuse → FilesFuse
  push_location k l none m = m
  push_location k l (some f) m =
      insert k (record f { file_locations = f.file_locations ++ l ∷ [] }) m

  abbrev pub add_location : FileKey → Option LocationRow → FilesFuse → FilesFuse
  add_location k none m = m
  add_location k (some l) m =
      if is_local l then m else push_location k (l.storage_backend, l.location) (lookup k m) m

  abbrev pub add_row : JoinRow → FilesFuse → FilesFuse
  add_row row m =
      add_location row.key row.location
        (or_insert row.key (new_file row.key row.columns) (lookup row.key m) m)

  abbrev pub add_rows : List JoinRow → FilesFuse → FilesFuse
  add_rows [] m = m
  add_rows (row ∷ rows) m = add_rows rows (add_row row m)

  unfoldable pub files_by_key : DeviceId → Database → FilesFuse
  files_by_key device db = add_rows (join_files device db.files db.locations) []

  unfoldable pub files_fuse : DeviceId → Database → List GrizolFileInfo
  files_fuse device db =
      map (λ (entry : FileKey × GrizolFileInfo). entry.1) (files_by_key device db)
