-- ===== src/Fuse/RenameDb.antt =====
-- `rename_db` of src/fuse.rs: the row of one file or directory moves, by a new row and new copies and the
-- removal of the old ones.
use grizol.Prelude.{
  ℕ, Bool, false, ◌&&◌, Option, none, some, List, [], ◌∷◌, ◌++◌, ltb, ◌==◌, if◌then◌else◌,
}
use grizol.Prelude.Keys.{bytes_eq}
use grizol.Prelude.Outcome.{Outcome, ok, ◌>>=◌, ◌>>◌, assert, unwrap}
use grizol.Prelude.Bytes.{Bytes}
use grizol.Proto.{BlockInfo, Counter}
use grizol.State.{BepState, insert_file_infos, update_file_locations, rm_file_info}
use grizol.State.Reads.{file_info}
use grizol.Storage.Copies.{Execute, cp, rm_remote}
use grizol.Fuse.{GrizolFolder, GrizolFileInfo, entries_start}
use grizol.Fuse.FilePath.{is_file_in_current_dir}
use grizol.Fuse.Attributes.{enoent, GrizolFs, Expired, folders_files}
use grizol.Fuse.Database.{find_folder, find_file, map_some}
use grizol.Fuse.Rename.{empty_ok, empty_error, Renamed}

-- A directory by its folder and its path within it.
pub record Dirs : Type 0 where
  pub top_folder : Option Bytes
  pub dir : Option Bytes

unfoldable pub parent_dirs :
    {E : Type 0} → ℕ → List GrizolFolder → List GrizolFileInfo → Outcome E (Option Dirs)
parent_dirs ino folders files =
    if ino == 1
    then ok (some (record { top_folder = none; dir = none }))
    else if ltb ino entries_start
    then (find_folder ino folders >>= λ f.
        ok
          (map_some (λ (x : GrizolFolder). record { top_folder = some x.folder.id; dir = none }) f))
    else (find_file ino files >>= λ f. ok (
        map_some
          (λ (x : GrizolFileInfo). record {
            top_folder = some x.folder;
            dir = some x.file_info.name;
          })
          f))

abbrev pub same_text : Option Bytes → Bytes → Bool
same_text none x = false
same_text (some d) x = bytes_eq.beq d x

abbrev pub text_or_empty : Option Bytes → Bytes
text_or_empty none = []
text_or_empty (some d) = d

-- The path of a name in a directory.
abbrev pub path_below : Option Bytes → Bytes → Bytes
path_below none name = name
path_below (some d) name = d ++ 47 ∷ name

abbrev pub is_orig_file : Dirs → Bytes → GrizolFileInfo → Bool
is_orig_file parent name f =
    same_text parent.top_folder f.folder
    && bytes_eq.beq (path_below parent.dir name) f.file_info.name
    && is_file_in_current_dir (text_or_empty parent.dir) f

-- The `unwrap` of `to_str` is made for each file that is compared.
unfoldable pub find_orig_file :
    {E : Type 0} → Bool → Dirs → Bytes → List GrizolFileInfo → Outcome E (Option GrizolFileInfo)
find_orig_file is_utf8 parent name [] = ok none
find_orig_file is_utf8 parent name (f ∷ fs) =
    assert is_utf8
    >> let rest = find_orig_file is_utf8 parent name fs in
      if is_orig_file parent name f then ok (some f) else rest

abbrev pub find_dest_folder : Dirs → List GrizolFolder → Option Bytes
find_dest_folder parent [] = none
find_dest_folder parent (f ∷ fs) =
    let rest = find_dest_folder parent fs in
    if same_text parent.top_folder f.folder.id then some f.folder.id else rest

module _ {E : Type 0} (listed_blocks : List BlockInfo → List BlockInfo)
    (listed_counters : List Counter → List Counter) (execute : Execute)
    (storage_backends : List Bytes) (is_utf8 : Bytes → Bool) where
  unfoldable pub move_file :
      GrizolFs → Bytes → Bytes → Bytes → Option Bytes → Bytes → BepState → Outcome E BepState
  move_file fs orig_folder orig_name dest_folder dest_dir dest_name s = do
    let device_id = fs.config.local_device_id
    f ← unwrap (file_info listed_blocks listed_counters orig_folder device_id orig_name s.db)
    assert (is_utf8 dest_name)
    let dest_file_path = path_below dest_dir dest_name
    res ← cp execute fs.config storage_backends orig_folder f.name dest_folder dest_file_path
    s₁ ← insert_file_infos dest_folder device_id (record f { name = dest_file_path } ∷ []) s
    s₂ ← update_file_locations dest_folder device_id dest_file_path res s₁
    removed ← rm_remote execute fs.config storage_backends orig_folder f.name
    ok (rm_file_info orig_folder device_id f.name s₂)

  abbrev pub rename_file_to :
      Option GrizolFileInfo → Option Bytes → Dirs → Bytes → GrizolFs → BepState → Renamed E
  rename_file_to none dest_folder dest dest_name fs s = ok (empty_error enoent, (fs, s))
  rename_file_to (some f) none dest dest_name fs s = ok (empty_error enoent, (fs, s))
  rename_file_to (some f) (some dest_folder) dest dest_name fs s =
      move_file fs f.folder f.file_info.name dest_folder dest.dir dest_name s >>= λ s'.
      ok (empty_ok, (fs, s'))

  abbrev pub rename_between :
      Option Dirs → Option Dirs → Bytes → Bytes → GrizolFs → BepState → Renamed E
  rename_between none dest orig_name dest_name fs s = ok (empty_error enoent, (fs, s))
  rename_between (some orig) none orig_name dest_name fs s = ok (empty_error enoent, (fs, s))
  rename_between (some orig) (some dest) orig_name dest_name fs s = do
    orig_file ← find_orig_file (is_utf8 orig_name) orig orig_name fs.files
    rename_file_to orig_file (find_dest_folder dest fs.folders) dest dest_name fs s

  unfoldable pub rename_db : ℕ → Expired → ℕ → Bytes → ℕ → Bytes → GrizolFs → BepState → Renamed E
  rename_db rounds expired orig_ino orig_name dest_ino dest_name fs s = do
    fs' ← folders_files rounds expired fs
    orig ← parent_dirs orig_ino fs'.folders fs'.files
    dest ← parent_dirs dest_ino fs'.folders fs'.files
    rename_between orig dest orig_name dest_name fs' s
