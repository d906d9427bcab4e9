-- ===== src/Fuse/Database.antt =====
-- The callbacks of src/fuse.rs on the lists of folders and files: `getattr_db`, `lookup_db`,
-- `readdir_db` and their helpers.
use grizol.Prelude.{
  ℕ, ◌+◌, Bool, false, ◌&&◌, Option, none, some, List, [], ◌∷◌, ◌++◌, length, ltb, ◌==◌,
  if◌then◌else◌,
}
use grizol.Prelude.Int.{ℤ}
use grizol.Prelude.Keys.{bytes_eq}
use grizol.Prelude.Outcome.{Outcome, ok, ◌>>=◌, ◌>>◌, assert, unwrap}
use grizol.Prelude.Bytes.{Bytes}
use grizol.State.Tables.{filter}
use grizol.Fuse.{GrizolFolder, GrizolFileInfo, as_u64, entries_start, entry_id, top_dir_id}
use grizol.Fuse.FilePath.{components, strip_prefix, file_name, is_file_in_current_dir}
use grizol.Fuse.Attributes.{
  directory, enoent, FileAttr, AttrReply, attr, attr_error, file_type, root_dir_attr,
  attr_from_folder, attr_from_file, GrizolFs, Expired, folders_files,
}
use grizol.Fuse.Memory.{Called, DirEntry, DirReply, entries, dir_error, IsFull, skip}

-- `find` by a number that is computed.
unfoldable pub find_id : {E A : Type 0} → (A → Outcome E ℕ) → ℕ → List A → Outcome E (Option A)
find_id number ino [] = ok none
find_id number ino (x ∷ xs) =
    number x >>= λ id. let rest = find_id number ino xs in if id == ino then ok (some x) else rest

abbrev pub find_folder : {E : Type 0} → ℕ → List GrizolFolder → Outcome E (Option GrizolFolder)
find_folder = find_id (λ (f : GrizolFolder). top_dir_id f.id)

abbrev pub find_file : {E : Type 0} → ℕ → List GrizolFileInfo → Outcome E (Option GrizolFileInfo)
find_file = find_id (λ (f : GrizolFileInfo). entry_id f.id)

abbrev pub attr_if :
    {E A : Type 0} → (A → Outcome E FileAttr) → Option A → GrizolFs → Called E AttrReply
attr_if attr_of none fs = ok (attr_error enoent, fs)
attr_if attr_of (some x) fs = attr_of x >>= λ a. ok (attr a, fs)

abbrev pub getattr_of : {E : Type 0} → ℕ → GrizolFs → Called E AttrReply
getattr_of ino fs =
    if ltb ino entries_start
    then (find_folder ino fs.folders >>= λ f. attr_if (attr_from_folder fs.config) f fs)
    else (find_file ino fs.files >>= λ f. attr_if (attr_from_file fs.config) f fs)

unfoldable pub getattr_db : {E : Type 0} → ℕ → Expired → ℕ → GrizolFs → Called E AttrReply
getattr_db rounds expired ino fs =
    if ino == 1
    then ok (attr (root_dir_attr fs.config), fs)
    else (folders_files rounds expired fs >>= getattr_of ino)

abbrev pub map_some : {A B : Type 0} → (A → B) → Option A → Option B
map_some f none = none
map_some f (some x) = some (f x)

unfoldable pub top_folder :
    {E : Type 0} → ℕ → List GrizolFolder → List GrizolFileInfo → Outcome E (Option Bytes)
top_folder ino folders files =
    if ltb ino entries_start
    then (find_folder ino folders >>= λ f. ok (map_some (λ (x : GrizolFolder). x.folder.id) f))
    else (find_file ino files >>= λ f. ok (map_some (λ (x : GrizolFileInfo). x.folder) f))

unfoldable pub parent_dir : {E : Type 0} → List GrizolFileInfo → ℕ → Outcome E Bytes
parent_dir files parent_ino =
    if ltb parent_ino entries_start
    then ok []
    else (find_file parent_ino files >>= λ f.
        unwrap (map_some (λ (x : GrizolFileInfo). x.file_info.name) f))

unfoldable pub base_dir : {E : Type 0} → ℕ → List GrizolFileInfo → Outcome E (Option Bytes)
base_dir ino files =
    if ltb ino entries_start
    then ok (some [])
    else (find_file ino files >>= λ f. ok (map_some (λ (x : GrizolFileInfo). x.file_info.name) f))

-- The `unwrap` of `to_str` is made for each folder that is compared.
abbrev pub folder_named :
    {E : Type 0} → Bool → Bytes → List GrizolFolder → Outcome E (Option GrizolFolder)
folder_named is_utf8 name [] = ok none
folder_named is_utf8 name (f ∷ fs) =
    assert is_utf8
    >> let rest = folder_named is_utf8 name fs in
      if bytes_eq.beq f.folder.id name then ok (some f) else rest

abbrev pub is_named : Bytes → Option Bytes → Bool
is_named name none = false
is_named name (some x) = bytes_eq.beq x name

abbrev pub first : List GrizolFileInfo → Option GrizolFileInfo
first [] = none
first (f ∷ fs) = some f

abbrev pub lookup_of : {E : Type 0} → (Bytes → Bool) → ℕ → Bytes → GrizolFs → Called E AttrReply
lookup_of is_utf8 parent_ino name fs =
    if parent_ino == 1
    then (folder_named (is_utf8 name) name fs.folders >>= λ f.
        attr_if (attr_from_folder fs.config) f fs)
    else (parent_dir fs.files parent_ino >>= λ dir.
        attr_if (attr_from_file fs.config)
          (first (
            filter
              (λ (f : GrizolFileInfo).
                is_named name (file_name (components f.file_info.name))
                && is_file_in_current_dir dir f)
              fs.files))
          fs)

unfoldable pub lookup_db :
    {E : Type 0} → (Bytes → Bool) → ℕ → Expired → ℕ → Bytes → GrizolFs → Called E AttrReply
lookup_db is_utf8 rounds expired parent_ino name fs =
    folders_files rounds expired fs >>= lookup_of is_utf8 parent_ino name

-- The loop over folders or files from the number `i` on.
unfoldable pub add_all :
    {E A : Type 0}
    → (ℕ → A → Outcome E DirEntry)
    → IsFull
    → ℕ
    → List DirEntry
    → List A
    → Outcome E (List DirEntry)
add_all entry is_full i added [] = ok added
add_all entry is_full i added (x ∷ xs) = do
  next ← entry i x
  let more = add_all entry is_full (i + 1) (added ++ next ∷ []) xs
  if is_full added next then ok added else more

-- The loop is skipped where the offset is the length.
abbrev pub entries_from :
    {E A : Type 0}
    → (ℕ → A → Outcome E DirEntry)
    → IsFull
    → ℕ
    → List A
    → GrizolFs
    → Called E DirReply
entries_from entry is_full offset xs fs =
    if offset == length xs
    then ok (entries [], fs)
    else (add_all entry is_full offset [] (skip offset xs) >>= λ added. ok (entries added, fs))

abbrev pub entry_of_folder : {E : Type 0} → ℕ → GrizolFolder → Outcome E DirEntry
entry_of_folder i f = top_dir_id f.id >>= λ ino.
    ok (record { ino = ino; offset = i + 1; kind = directory; name = f.folder.id })

-- The text of what is left of the path; it has one component.
abbrev pub name_below : {E : Type 0} → Bytes → Bytes → Outcome E Bytes
name_below base_dir name = unwrap (strip_prefix (components base_dir) (components name)) >>= λ path.
    unwrap (file_name path)

abbrev pub entry_of_file : {E : Type 0} → Bytes → ℕ → GrizolFileInfo → Outcome E DirEntry
entry_of_file base_dir i f = do
  name ← name_below base_dir f.file_info.name
  ino ← entry_id f.id
  kind ← file_type f.file_info.type_code
  ok (record { ino = ino; offset = i + 1; kind = kind; name = name })

abbrev pub readdir_below :
    {E : Type 0} → IsFull → ℕ → Option Bytes → Option Bytes → GrizolFs → Called E DirReply
readdir_below is_full offset none base_dir fs = ok (dir_error enoent, fs)
readdir_below is_full offset (some top_folder) none fs = ok (dir_error enoent, fs)
readdir_below is_full offset (some top_folder) (some base_dir) fs =
    entries_from (entry_of_file base_dir) is_full offset
      (filter
        (λ (f : GrizolFileInfo).
          bytes_eq.beq f.folder top_folder && is_file_in_current_dir base_dir f)
        fs.files)
      fs

abbrev pub readdir_of : {E : Type 0} → IsFull → ℕ → ℕ → GrizolFs → Called E DirReply
readdir_of is_full ino offset fs =
    if ino == 1 then entries_from entry_of_folder is_full offset fs.folders fs else (do
      top ← top_folder ino fs.folders fs.files
      base ← base_dir ino fs.files
      readdir_below is_full offset top base fs)

unfoldable pub readdir_db :
    {E : Type 0} → IsFull → ℕ → Expired → ℕ → ℤ → GrizolFs → Called E DirReply
unfolding top_folder base_dir
readdir_db is_full rounds expired ino offset fs =
    folders_files rounds expired fs >>= readdir_of is_full ino (as_u64 offset)
