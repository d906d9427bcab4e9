-- ===== src/Fuse/Rename.antt =====
-- `rename_mem` of src/fuse.rs: a file or a directory with all below it moves file by file, on the remote
-- storage and in the database. `listed` and `arranged` are the orders in which maps of children are gone
-- through.
use grizol.Prelude.{
  ℕ, Bool, true, false, Option, none, some, List, [], ◌∷◌, ◌++◌, ◌==◌, if◌then◌else◌,
}
use grizol.Prelude.Keys.{bytes_eq}
use grizol.Prelude.Outcome.{Outcome, ok, panic, ◌>>=◌, ◌>>◌, assert, unwrap}
use grizol.Prelude.Bytes.{Bytes}
use grizol.State.{BepState, FileLocation, mv_file_info}
use grizol.Storage.Copies.{Execute, cp_remote_to_remote, rm_remote}
use grizol.Fuse.{
  GrizolFileInfo, GrizolFsFileType, file, folder, FsNode, node, Children, empty, child, children_of,
}
use grizol.Fuse.Attributes.{
  Errno, enoent, eio, eperm, type_of, get_node, GrizolFs, Expired, folders_files,
}
use grizol.Fuse.Memory.{Listed, children_list}

-- What `ReplyEmpty` gets.
pub data EmptyReply : Type 0 where
  empty_ok : EmptyReply
  empty_error : Errno → EmptyReply

abbrev pub Renamed : Type 0 → Type 0
Renamed E = Outcome E (EmptyReply × (GrizolFs × BepState))

abbrev pub Arranged : Type 0
Arranged = List (List FsNode) → List (List FsNode)

abbrev concat : List (List FsNode) → List FsNode
concat [] = []
concat (ns ∷ rest) = ns ++ concat rest

unfoldable mutual
  pub traverse_post : Arranged → FsNode → List FsNode
  traverse_post arranged (node id t cs) =
      concat (arranged (traverse_children arranged cs)) ++ node id t cs ∷ []

  pub traverse_children : Arranged → Children → List (List FsNode)
  traverse_children arranged empty = []
  traverse_children arranged (child name n cs) =
      traverse_post arranged n ∷ traverse_children arranged cs

-- What is left of a text after a prefix that it has.
abbrev pub after_prefix : Bytes → Bytes → Option Bytes
after_prefix [] text = some text
after_prefix (p ∷ ps) [] = none
after_prefix (p ∷ ps) (c ∷ cs) = let rest = after_prefix ps cs in if p == c then rest else none

abbrev pub or_later : Bytes → Option Bytes → Bytes → Bytes
or_later dest none later = later
or_later dest (some rest) later = dest ++ rest

-- `replacen(orig, dest, 1)`
unfoldable pub replace_first : Bytes → Bytes → Bytes → Bytes
replace_first orig dest [] = or_later dest (after_prefix orig []) []
replace_first orig dest (c ∷ cs) =
    let later = replace_first orig dest cs in or_later dest (after_prefix orig (c ∷ cs)) (c ∷ later)

abbrev pub is_some : Option Bytes → Bool
is_some none = false
is_some (some x) = true

-- The path of a name within the folder of its directory.
abbrev pub name_prefix : GrizolFsFileType → Bytes → Bytes
name_prefix (file f) name = f.file_info.name ++ 47 ∷ name
name_prefix (folder f) name = name

-- A folder is a `todo!()`.
abbrev pub find_child : {E : Type 0} → Bytes → List (Bytes × FsNode) → Outcome E (Option FsNode)
find_child prefix [] = ok none
find_child prefix ((name, n) ∷ rest) = elim (type_of n) [
  | file f ↦
      let later = find_child prefix rest in
      if bytes_eq.beq f.file_info.name prefix then ok (some n) else later
  | folder f ↦ panic
]

module _ {E : Type 0} (execute : Execute) (storage_backends : List Bytes) where
  abbrev pub moved_file :
      Bytes → GrizolFs → GrizolFileInfo → Option (List FileLocation) → BepState → Outcome E BepState
  moved_file dest fs f none s = ok s
  moved_file dest fs f (some file_locations) s = do
    s₁ ← mv_file_info f.folder fs.config.local_device_id f.file_info dest file_locations s
    removed ← rm_remote execute fs.config storage_backends f.folder f.file_info.name
    ok s₁

  -- A copy that cannot be run leaves the file as it is.
  abbrev pub move_node : Bytes → Bytes → GrizolFs → GrizolFsFileType → BepState → Outcome E BepState
  move_node orig dest fs (folder f) s = panic
  move_node orig dest fs (file f) s =
      let dest_file_name = replace_first orig dest f.file_info.name in
      assert (is_some (after_prefix orig f.file_info.name))
      >> moved_file dest_file_name fs f
          (cp_remote_to_remote execute fs.config f.folder dest_file_name f.file_locations) s

  unfoldable pub move_nodes : Bytes → Bytes → GrizolFs → List FsNode → BepState → Outcome E BepState
  move_nodes orig dest fs [] s = ok s
  move_nodes orig dest fs (n ∷ ns) s =
      move_node orig dest fs (type_of n) s >>= move_nodes orig dest fs ns

  module _ (is_utf8 : Bytes → Bool) (listed : Listed) (arranged : Arranged) where
    abbrev pub rename_found :
        Bytes → Bytes → Option FsNode → FsNode → GrizolFs → BepState → Renamed E
    rename_found orig_name_prefix dest_name none dest_parent fs s = ok (empty_error enoent, (fs, s))
    rename_found orig_name_prefix dest_name (some orig_file) dest_parent fs s = do
      assert (is_utf8 dest_name)
      s₁ ←
          move_nodes orig_name_prefix (name_prefix (type_of dest_parent) dest_name) fs
            (traverse_post arranged orig_file) s
      ok (empty_ok, (fs, s₁))

    abbrev pub rename_to : Bytes → Bytes → FsNode → Option FsNode → GrizolFs → BepState → Renamed E
    rename_to orig_name dest_name orig_parent none fs s = ok (empty_error eio, (fs, s))
    rename_to orig_name dest_name orig_parent (some dest_parent) fs s = do
      assert (is_utf8 orig_name)
      let orig_name_prefix = name_prefix (type_of orig_parent) orig_name
      orig_file ← find_child orig_name_prefix (listed (children_list (children_of orig_parent)))
      rename_found orig_name_prefix dest_name orig_file dest_parent fs s

    abbrev pub rename_from : Bytes → ℕ → Bytes → Option FsNode → GrizolFs → BepState → Renamed E
    rename_from orig_name dest_ino dest_name none fs s = ok (empty_error eio, (fs, s))
    rename_from orig_name dest_ino dest_name (some orig_parent) fs s = do
      dest_parent ← unwrap (get_node dest_ino fs.fs_mem)
      rename_to orig_name dest_name orig_parent dest_parent fs s

    unfoldable pub rename_mem :
        ℕ → Expired → ℕ → Bytes → ℕ → Bytes → GrizolFs → BepState → Renamed E
    rename_mem rounds expired orig_ino orig_name dest_ino dest_name fs s =
        if orig_ino == 1 then ok (empty_error eperm, (fs, s)) else (do
          fs' ← folders_files rounds expired fs
          orig_parent ← unwrap (get_node orig_ino fs'.fs_mem)
          rename_from orig_name dest_ino dest_name orig_parent fs' s)
