-- ===== src/Storage/Copies.antt =====
-- The copies and removals of src/storage.rs. The commands of the program rclone and the removal of a local
-- file are arguments: `execute` is what a command prints, `none` where it cannot be run. That a command which
-- runs may still fail, the code does not look at.
use grizol.Prelude.{Bool, true, false, Option, none, some, List, [], ◌∷◌, ◌++◌, if◌then◌else◌}
use grizol.Prelude.Keys.{bytes_eq}
use grizol.Prelude.Outcome.{Outcome, ok, panic, ◌>>=◌}
use grizol.Prelude.Bytes.{Bytes}
use grizol.Config.{GrizolConfig}
use grizol.State.{FileLocation}

abbrev pub Execute : Type 0
Execute = List Bytes → Option Bytes

-- The texts `rclone`, `copyto`, `delete`, `ls`, `gcs` and `--config=`.
abbrev pub rclone_text : Bytes
rclone_text = 114 ∷ 99 ∷ 108 ∷ 111 ∷ 110 ∷ 101 ∷ []

abbrev pub copyto_text : Bytes
copyto_text = 99 ∷ 111 ∷ 112 ∷ 121 ∷ 116 ∷ 111 ∷ []

abbrev pub delete_text : Bytes
delete_text = 100 ∷ 101 ∷ 108 ∷ 101 ∷ 116 ∷ 101 ∷ []

abbrev pub ls_text : Bytes
ls_text = 108 ∷ 115 ∷ []

abbrev pub gcs_text : Bytes
gcs_text = 103 ∷ 99 ∷ 115 ∷ []

abbrev pub config_text : Bytes
config_text = 45 ∷ 45 ∷ 99 ∷ 111 ∷ 110 ∷ 102 ∷ 105 ∷ 103 ∷ 61 ∷ []

-- `{folder}/{name}` below a directory.
abbrev pub path_in : Bytes → Bytes → Bytes → Bytes
path_in dir folder name = dir ++ (47 ∷ folder) ++ (47 ∷ name)

-- `{storage_backend}:{bucket}/{folder}/{name}`
abbrev pub remote_path : Bytes → Bytes → Bytes → Bytes → Bytes
remote_path storage_backend bucket folder name =
    storage_backend ++ (58 ∷ path_in bucket folder name)

abbrev pub config_location : Option Bytes → Bytes
config_location none = []
config_location (some x) = config_text ++ x

unfoldable pub run_rclone : Execute → GrizolConfig → List Bytes → Option Bytes
run_rclone execute config command =
    execute (rclone_text ∷ config_location config.rclone_config ∷ command)

-- `none` is an `Err`.
unfoldable pub cp_remote_to_remote :
    Execute → GrizolConfig → Bytes → Bytes → List FileLocation → Option (List FileLocation)
cp_remote_to_remote execute config folder dest_file_name [] = some []
cp_remote_to_remote execute config folder dest_file_name ((storage_backend, location) ∷ ls) =
    let dest = remote_path storage_backend config.remote_base_dir folder dest_file_name in
    elim (run_rclone execute config (copyto_text ∷ location ∷ dest ∷ [])) [
      | none ↦ none
      | some out ↦ elim (cp_remote_to_remote execute config folder dest_file_name ls) [
        | none ↦ none
        | some rest ↦ some ((storage_backend, dest) ∷ rest)
      ]
    ]

abbrev pub on_gcs : List FileLocation → Option FileLocation
on_gcs [] = none
on_gcs (l ∷ ls) = let rest = on_gcs ls in if bytes_eq.beq l.0 gcs_text then some l else rest

copy_found : Execute → GrizolConfig → Bytes → Bytes → Option FileLocation → Option Bytes
copy_found execute config folder name none = none
copy_found execute config folder name (some (storage_backend, orig)) =
    let dest = path_in config.read_cache_dir folder name in
    elim (run_rclone execute config (ls_text ∷ orig ∷ [])) [
      | none ↦ none
      | some [] ↦ none
      | some (c ∷ cs) ↦ elim (run_rclone execute config (copyto_text ∷ orig ∷ dest ∷ [])) [
        | none ↦ none
        | some out ↦ some dest
      ]
    ]

-- The path of the copy; `none` is an `Err`.
unfoldable pub cp_remote_to_read_cache :
    Execute → GrizolConfig → Bytes → Bytes → List FileLocation → Option Bytes
unfolding copy_found
cp_remote_to_read_cache execute config folder name file_locations =
    copy_found execute config folder name (on_gcs file_locations)

-- The `expect` on a command that cannot be run.
executed : {E : Type 0} → Option Bytes → Outcome E (Unit {0})
executed none = panic
executed (some out) = ok tt

-- The new locations, one for each storage backend.
unfoldable pub cp :
    {E : Type 0}
    → Execute
    → GrizolConfig
    → List Bytes
    → Bytes
    → Bytes
    → Bytes
    → Bytes
    → Outcome E (List FileLocation)
unfolding executed
cp execute config [] orig_folder orig_name dest_folder dest_name = ok []
cp execute config (b ∷ bs) orig_folder orig_name dest_folder dest_name = do
  let orig = remote_path b config.remote_base_dir orig_folder orig_name
  let dest = remote_path b config.remote_base_dir dest_folder dest_name
  done ← executed (run_rclone execute config (copyto_text ∷ orig ∷ dest ∷ []))
  rest ← cp execute config bs orig_folder orig_name dest_folder dest_name
  ok ((b, dest) ∷ rest)

-- The locations that are removed, one for each storage backend.
unfoldable pub rm_remote :
    {E : Type 0}
    → Execute
    → GrizolConfig
    → List Bytes
    → Bytes
    → Bytes
    → Outcome E (List FileLocation)
unfolding executed
rm_remote execute config [] folder file_name = ok []
rm_remote execute config (b ∷ bs) folder file_name = do
  let path = remote_path b config.remote_base_dir folder file_name
  done ← executed (run_rclone execute config (delete_text ∷ path ∷ []))
  rest ← rm_remote execute config bs folder file_name
  ok ((b, path) ∷ rest)

-- Whether all files are removed from the directory of the cache. The removals run side by side, and after
-- one that fails the others may or may not be made.
unfoldable pub free_cached_files : (Bytes → Bool) → GrizolConfig → List (Bytes × Bytes) → Bool
free_cached_files remove_file config [] = true
free_cached_files remove_file config ((folder, name) ∷ fs) =
    let rest = free_cached_files remove_file config fs in
    if remove_file (path_in config.read_cache_dir folder name) then rest else false
