-- ===== src/Fuse/RenameTests.antt =====
-- A file that is renamed in the tree, and in the database to its own name.
use grizol.Prelude.{◌≡◌, refl, true, none, some, Option, [], ◌∷◌}
use grizol.Prelude.Int.{ℤ, pos, ◌+ℤ◌}
use grizol.Prelude.Keys.{Dict, lookup}
use grizol.Prelude.Outcome.{Outcome, ok}
use grizol.Indices.{remove_file_info, insert_file_info}
use grizol.State.{
  BepState, mv_file_info, next_sequence_id, insert_locations, insert_file_infos, number_files,
  insert_files, insert_file, update_file_locations, rm_file_info,
}
use grizol.State.Tables.{
  FileKey, file_key_eq, FileColumns, insert_file_row, insert_versions, insert_blocks, delete_files,
}
use grizol.State.Reads.{file_info}
use grizol.Storage.Copies.{Execute, cp, cp_remote_to_remote, rm_remote, run_rclone}
use grizol.Fuse.{GrizolFsMem, folder, file, node, child, empty, top_dir_id}
use grizol.Fuse.Attributes.{GrizolFs, folders_files}
use grizol.Fuse.FilePath.{is_file_in_current_dir}
use grizol.Fuse.Database.{find_id}
use grizol.Fuse.Shown.{folder_of}
use grizol.Fuse.Rename.{Renamed, empty_ok, rename_mem, traverse_post, move_nodes, replace_first}
use grizol.Fuse.RenameDb.{rename_db, parent_dirs, find_orig_file, move_file}
use grizol.Fuse.Moved.{move_file-lookup}
use grizol.Fuse.CallTests.{a_folder, with_tree}
use grizol.Fuse.ShownTests.{a_key, columns, row, a_table, shown}

abbrev a_state : BepState
a_state = record { db = a_table; sequence = some (pos 1); indices = record { indices = [] } }

-- The commands print nothing.
abbrev print_nothing : Execute
print_nothing command = some []

abbrev b_key : FileKey
b_key = record a_key { name = 98 ∷ [] }

-- The tree has the file, which is renamed to `b`.
abbrev a_tree : GrizolFsMem
a_tree = record {
  root = node 1 (folder a_folder) (
      child (102 ∷ [])
        (node 11 (folder a_folder) (child (97 ∷ []) (node 4294967298 (file shown) empty) empty))
        empty);
  nodes = (1, []) ∷ (11, (102 ∷ []) ∷ []) ∷ (4294967298, (102 ∷ []) ∷ (97 ∷ []) ∷ []) ∷ [];
}

abbrev files_after : Renamed Unit → Option (Dict FileKey FileColumns)
files_after (ok (empty_ok, (fs, s))) = some s.db.files
files_after other = none

is_renamed_mem :
    files_after (
      rename_mem print_nothing
        ((98 ∷ []) ∷ [])
        (λ name. true)
        (λ cs. cs)
        (λ ns. ns)
        1
        none
        11
        (97 ∷ [])
        11
        (98 ∷ [])
        (with_tree a_tree)
        a_state)
    ≡ some ((b_key, record columns { sequence = pos 2 }) ∷ [])
unfolding rename_mem folders_files traverse_post move_nodes cp_remote_to_remote rm_remote run_rclone
    replace_first mv_file_info next_sequence_id insert_locations ◌+ℤ◌
is_renamed_mem = refl

abbrev shown_fs : GrizolFs
shown_fs = record (with_tree a_tree) {
  folders = record { folder = folder_of (102 ∷ []) row; id = pos 1 } ∷ [];
  files = shown ∷ [];
}

-- To its own name, and the file is lost.
is_lost :
    files_after (
      rename_db
        (λ bs. bs)
        (λ cs. cs)
        print_nothing
        ((98 ∷ []) ∷ [])
        (λ name. true)
        1
        none
        11
        (97 ∷ [])
        11
        (97 ∷ [])
        shown_fs
        a_state)
    ≡ some []
unfolding rename_db folders_files parent_dirs find_id top_dir_id find_orig_file
    is_file_in_current_dir move_file file_info cp rm_remote run_rclone insert_file_infos
    number_files next_sequence_id insert_files insert_file insert_file_row insert_versions
    insert_blocks update_file_locations insert_locations rm_file_info delete_files ◌+ℤ◌
    remove_file_info insert_file_info
is_lost = refl

abbrev after_move : BepState
after_move = record a_state {
  db = record a_table { files = []; locations = [] };
  sequence = some (pos 2);
  indices = record { indices = (a_key.folder_device, record { folder = []; files = [] }) ∷ [] };
}

is_moved :
    ◌≡◌ {A = Outcome Unit BepState}
      (move_file
        (λ bs. bs)
        (λ cs. cs)
        print_nothing
        ((98 ∷ []) ∷ [])
        (λ name. true)
        shown_fs
        (102 ∷ [])
        (97 ∷ [])
        (102 ∷ [])
        none
        (97 ∷ [])
        a_state)
      (ok after_move)
unfolding move_file file_info cp rm_remote run_rclone insert_file_infos number_files
    next_sequence_id insert_files insert_file insert_file_row insert_versions insert_blocks
    update_file_locations insert_locations rm_file_info delete_files ◌+ℤ◌ remove_file_info
    insert_file_info
is_moved = refl

move_file-lookup_example :
    (r : FileColumns) × (n : ℤ) × (lookup a_key a_table.files ≡ some r)
    × (lookup a_key after_move.db.files ≡ none)
move_file-lookup_example =
    move_file-lookup (λ bs. bs) (λ cs. cs) print_nothing ((98 ∷ []) ∷ []) (λ name. true) shown_fs
      (102 ∷ []) (97 ∷ []) (102 ∷ []) none (97 ∷ []) a_state after_move a_key is_moved
