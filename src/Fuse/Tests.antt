-- ===== src/Fuse/Tests.antt =====
-- An instance of each theorem on a folder with a directory and a file in it.
use grizol.Prelude.{arith, ◌≡◌, refl, ◌||◌, false, none, List, [], ◌∷◌}
use grizol.Prelude.Int.{pos}
use grizol.Prelude.Outcome.{Outcome, diverge, ok}
use grizol.Prelude.Bytes.{Bytes}
use grizol.Proto.{FileInfo}
use grizol.Fuse.{
  GrizolFolder, GrizolFileInfo, GrizolFsMem, folder, node, child, empty, insert_files,
}
use grizol.Fuse.Paths.{has_path}
use grizol.Fuse.Waiting.{is_path_of}
use grizol.Fuse.Refresh.{insert_files-has_path}
use grizol.Fuse.Missing.{insert_files-diverge}

abbrev a_folder : GrizolFolder
a_folder = record {
  folder = record {
    id = 102 ∷ [];
    label = [];
    read_only = false;
    ignore_permissions = false;
    ignore_delete = false;
    disable_temp_indexes = false;
    paused = false;
    devices = [];
  };
  id = pos 1;
}

abbrev a_tree : GrizolFsMem
a_tree = record {
  root = node 1 (folder a_folder) (child (102 ∷ []) (node 11 (folder a_folder) empty) empty);
  nodes = (1, []) ∷ (11, (102 ∷ []) ∷ []) ∷ [];
}

abbrev no_file : FileInfo
no_file = record {
  name = [];
  type_code = pos 0;
  size = pos 0;
  permissions = 0;
  modified_s = pos 0;
  modified_ns = pos 0;
  modified_by = 0;
  deleted = false;
  invalid = false;
  no_permissions = false;
  version = none;
  sequence = pos 0;
  block_size = pos 0;
  blocks = [];
  symlink_target = [];
}

-- `f/a`
abbrev a_directory : GrizolFileInfo
a_directory = record {
  file_info = record no_file { name = 97 ∷ [] };
  id = pos 1;
  file_locations = [];
  folder = 102 ∷ [];
}

-- `f/a/b`
abbrev a_file : GrizolFileInfo
a_file = record {
  file_info = record no_file { name = 97 ∷ 47 ∷ 98 ∷ [] };
  id = pos 2;
  file_locations = [];
  folder = 102 ∷ [];
}

-- The file waits for its directory.
insert_files-has_path_example :
    (m' : GrizolFsMem) × (◌≡◌ {A = Outcome Unit GrizolFsMem}
      (insert_files 3 (a_file ∷ a_directory ∷ []) a_tree)
      (ok m'))
    × ((q : List Bytes)
        → has_path q m'.root ≡ (is_path_of q (a_file ∷ a_directory ∷ []) || has_path q a_tree.root))
insert_files-has_path_example =
    insert_files-has_path (a_file ∷ a_directory ∷ []) a_tree 3
      ((refl, (refl, tt)), (refl, (refl, tt)), (refl, (refl, tt)), ((refl, tt), (tt, tt)))
      (omega arith)

-- Without the directory, a thousand rounds are not enough.
insert_files-diverge_example :
    ◌≡◌ {A = Outcome Unit GrizolFsMem} (insert_files 1000 (a_file ∷ []) a_tree) diverge
insert_files-diverge_example = insert_files-diverge 1000 [] a_file [] a_tree (refl, tt) (refl, refl)
