-- ===== src/Fuse/CallTests.antt =====
-- An instance of each theorem on callbacks, on the folder `f` with the directory `a` and the file `a/b`.
use grizol.Prelude.{arith, ◌≡◌, refl, true, false, ltb, length, none, some, List, [], ◌∷◌, All}
use grizol.Prelude.Int.{pos}
use grizol.Prelude.Outcome.{Outcome, ok, panic, ◌>>=◌}
use grizol.Proto.{FileInfo}
use grizol.Config.{GrizolConfig, local_remote}
use grizol.Fuse.{
  GrizolFolder, GrizolFileInfo, GrizolFsMem, folder, file, node, child, empty, top_dir_id,
  insert_folder,
}
use grizol.Fuse.Attributes.{
  directory, regular_file, AttrReply, attr, attr_from_file, GrizolFs, folders_files,
}
use grizol.Fuse.Memory.{Called, DirEntry, getattr_mem}
use grizol.Fuse.Database.{getattr_db}
use grizol.Fuse.Listing.{list_dir, list_dir-all_entries}
use grizol.Fuse.Numbered.{number}
use grizol.Fuse.Agree.{getattr_mem-getattr_db}
use grizol.Fuse.Dangling.{getattr_mem-panic}

abbrev pub a_folder : GrizolFolder
a_folder = record {
  folder = record {
    id = 102 ∷ [];
    label = [];
    read_only = false;
    ignore_permissions = false;
    ignore_delete = false;
    disable_temp_indexes = false;
    paused = false;
    devices = [];
  };
  id = pos 1;
}

abbrev pub no_file : FileInfo
no_file = record {
  name = [];
  type_code = pos 0;
  size = pos 6;
  permissions = 420;
  modified_s = pos 7;
  modified_ns = pos 0;
  modified_by = 0;
  deleted = false;
  invalid = false;
  no_permissions = false;
  version = none;
  sequence = pos 0;
  block_size = pos 4;
  blocks = [];
  symlink_target = [];
}

abbrev a_directory : GrizolFileInfo
a_directory = record {
  file_info = record no_file { name = 97 ∷ []; type_code = pos 1 };
  id = pos 1;
  file_locations = [];
  folder = 102 ∷ [];
}

abbrev a_file : GrizolFileInfo
a_file = record {
  file_info = record no_file { name = 97 ∷ 47 ∷ 98 ∷ [] };
  id = pos 2;
  file_locations = [];
  folder = 102 ∷ [];
}

abbrev pub a_config : GrizolConfig
a_config = record {
  local_device_id = record { id = 1 ∷ [] };
  name = [];
  trusted_peers = [];
  local_base_dir = [];
  net_address = [];
  db_url = [];
  storage_strategy = local_remote;
  rclone_config = none;
  remote_base_dir = [];
  read_cache_dir = [];
  read_cache_size = 100;
  mountpoint = none;
  fuse_refresh_rate = 1;
  uid = 1000;
  gid = 1000;
  max_pending_requests = 10;
  max_total_pending_requests_size = 100;
  fuse_inmem = true;
}

-- The directory has the file and a link.
abbrev full_tree : GrizolFsMem
full_tree = record {
  root = node 1 (folder a_folder) (
      child (102 ∷ [])
        (node 11 (folder a_folder) (
          child (97 ∷ [])
            (node (number a_directory) (file a_directory)
              (child (98 ∷ []) (node (number a_file) (file a_file) empty) empty))
            (child (99 ∷ []) (node 4294967300 (file a_file) empty) empty)))
        empty);
  nodes =
      (1, [])
      ∷ (11, (102 ∷ []) ∷ [])
      ∷ (number a_directory, (102 ∷ []) ∷ (97 ∷ []) ∷ [])
      ∷ (number a_file, (102 ∷ []) ∷ (97 ∷ []) ∷ (98 ∷ []) ∷ [])
      ∷ (4294967300, (102 ∷ []) ∷ (99 ∷ []) ∷ [])
      ∷ [];
}

abbrev pub empty_tree : GrizolFsMem
empty_tree = record { root = node 1 (folder a_folder) empty; nodes = (1, []) ∷ [] }

abbrev pub with_tree : GrizolFsMem → GrizolFs
with_tree m = record { config = a_config; folders = []; files = []; fs_mem = m }

-- The buffer takes one entry.
list_dir-all_entries_example :
    ◌≡◌ {A = Outcome Unit (List DirEntry)}
      (list_dir 3 (λ cs. cs) (λ k added e. ltb 0 (length added)) 11 0 (with_tree full_tree))
      (ok (
        record { ino = number a_directory; offset = 1; kind = directory; name = 97 ∷ [] }
        ∷ record { ino = 4294967300; offset = 2; kind = regular_file; name = 99 ∷ [] }
        ∷ []))
list_dir-all_entries_example =
    list_dir-all_entries (λ cs. cs) (λ k added e. ltb 0 (length added)) 11 (with_tree full_tree)
      (node 11 (folder a_folder) (
        child (97 ∷ [])
          (node (number a_directory) (file a_directory)
            (child (98 ∷ []) (node (number a_file) (file a_file) empty) empty))
          (child (99 ∷ []) (node 4294967300 (file a_file) empty) empty)))
      3 refl ((directory, refl), ((regular_file, refl), tt)) (λ k e. refl) (omega arith)

getattr_mem-getattr_db_example :
    (fs' : GrizolFs) × (◌≡◌ {A = Outcome Unit GrizolFs}
      (folders_files 3 (some (a_folder ∷ [], a_file ∷ a_directory ∷ [])) (with_tree empty_tree))
      (ok fs'))
    × (fs'.files ≡ a_file ∷ a_directory ∷ [])
    × (All
        (λ (f : GrizolFileInfo).
          (getattr_mem {E = Unit} 3
              (some (a_folder ∷ [], a_file ∷ a_directory ∷ []))
              (number f)
              (with_tree empty_tree)
            ≡ (attr_from_file a_config f >>= λ a. ok (attr a, fs')))
          × (getattr_db {E = Unit} 3
                (some (a_folder ∷ [], a_file ∷ a_directory ∷ []))
                (number f)
                (with_tree empty_tree)
              ≡ (attr_from_file a_config f >>= λ a. ok (attr a, fs'))))
        (a_file ∷ a_directory ∷ []))
unfolding insert_folder top_dir_id
getattr_mem-getattr_db_example =
    getattr_mem-getattr_db Unit 3 (a_folder ∷ []) (a_file ∷ a_directory ∷ []) (with_tree empty_tree)
      _ refl ((refl, (refl, tt)), (refl, (refl, tt)), (refl, (refl, tt)), ((refl, tt), (tt, tt)))
      ((refl, tt), (tt, tt)) (omega arith)

-- The file is removed, and its directory stays.
getattr_mem-panic_example :
    ◌≡◌ {A = Called Unit AttrReply}
      (getattr_mem 1 (some (a_folder ∷ [], a_directory ∷ [])) (number a_file) (with_tree full_tree))
      panic
unfolding insert_folder top_dir_id
getattr_mem-panic_example =
    getattr_mem-panic Unit 1 (a_folder ∷ []) (a_directory ∷ []) a_file (with_tree full_tree) _ refl
      refl refl (refl, tt) refl ((refl, tt), (refl, tt), (refl, tt), (tt, tt)) (tt, tt)
      (omega arith)
