-- ===== src/Fuse/ShownTests.antt =====
-- A database with a file `a` that has a remote and a local location, in the folder `f` of a device, and an
-- instance of each theorem on what is shown of it.
use grizol.Prelude.{◌≡◌, refl, true, false, Option, some, [], ◌∷◌}
use grizol.Prelude.Int.{ℤ, pos}
use grizol.Prelude.Keys.{lookup}
use grizol.Prelude.Bytes.{Bytes}
use grizol.DeviceId.{DeviceId}
use grizol.State.Tables.{FileKey, file_key_eq, FileColumns, Database, any}
use grizol.State.Cluster.{ClusterTables, FolderRow}
use grizol.Fuse.{GrizolFileInfo}
use grizol.Fuse.Shown.{new_file, files_by_key, files_fuse, folder_of, top_folders_fuse}
use grizol.Fuse.ShownFiles.{files_by_key-shown_file}
use grizol.Fuse.ShownFolders.{is_folder, top_folders_fuse-files_by_key}

abbrev pub a_device : DeviceId
a_device = record { id = 1 ∷ [] }

abbrev pub a_key : FileKey
a_key = record {
  folder_device = record { folder = 102 ∷ []; device_id = a_device };
  name = 97 ∷ [];
}

abbrev pub columns : FileColumns
columns = record {
  type_code = pos 0;
  size = pos 6;
  permissions = 420;
  modified_s = pos 7;
  modified_ns = pos 0;
  modified_by = 0;
  deleted = false;
  invalid = false;
  no_permissions = false;
  sequence = pos 1;
  block_size = pos 4;
  symlink_target = [];
}

abbrev pub row : FolderRow
row = record {
  label = [];
  read_only = false;
  ignore_permissions = false;
  ignore_delete = false;
  disable_temp_indexes = false;
  paused = false;
}

abbrev pub a_table : Database
a_table = record {
  indexes = a_key.folder_device ∷ [];
  files = (a_key, columns) ∷ [];
  versions = [];
  blocks = [];
  locations =
      record { file = a_key; storage_backend = 108 ∷ 111 ∷ 99 ∷ 97 ∷ 108 ∷ []; location = 1 ∷ [] }
      ∷ record { file = a_key; storage_backend = 98 ∷ []; location = 2 ∷ [] }
      ∷ [];
  cache = [];
}

abbrev tables : ClusterTables
tables = record { folders = (102 ∷ [], row) ∷ []; devices = [] }

abbrev file_rowid : FileKey → ℤ
file_rowid k = pos 2

abbrev folder_rowid : Bytes → Option ℤ
folder_rowid id = some (pos 1)

abbrev pub shown : GrizolFileInfo
shown = record (new_file file_rowid a_key columns) { file_locations = (98 ∷ [], 2 ∷ []) ∷ [] }

is_shown : files_fuse file_rowid a_device a_table ≡ shown ∷ []
unfolding files_fuse files_by_key
is_shown = refl

folder_shown :
    top_folders_fuse folder_rowid a_device tables a_table
    ≡ record { folder = folder_of (102 ∷ []) row; id = pos 1 } ∷ []
unfolding top_folders_fuse
folder_shown = refl

files_by_key-shown_file_example :
    lookup a_key (files_by_key file_rowid a_device a_table) ≡ some shown
files_by_key-shown_file_example =
    files_by_key-shown_file file_rowid a_device a_table a_key (refl, tt)

top_folders_fuse-files_by_key_example :
    any (is_folder (102 ∷ [])) (top_folders_fuse folder_rowid a_device tables a_table) ≡ true
top_folders_fuse-files_by_key_example =
    top_folders_fuse-files_by_key folder_rowid file_rowid a_device tables a_table a_key shown row
      (pos 1) (refl, tt) files_by_key-shown_file_example refl refl refl
