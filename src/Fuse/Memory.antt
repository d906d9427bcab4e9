-- ===== src/Fuse/Memory.antt =====
-- The callbacks of src/fuse.rs on the tree in memory: `getattr_mem`, `lookup_mem`, `readdir_mem` and the
-- tests of `read_mem`. The map of children has no order that is promised: `listed` is its iteration.
use grizol.Prelude.{
  ℕ, ◌+◌, Bool, Option, none, some, List, [], ◌∷◌, ◌++◌, if◌then◌else◌, zero, suc, ◌==◌,
}
use grizol.Prelude.Int.{ℤ}
use grizol.Prelude.Outcome.{Outcome, ok, panic, ◌>>=◌}
use grizol.Prelude.Bytes.{Bytes}
use grizol.Fuse.{
  GrizolFsFileType, file, folder, FsNode, Children, empty, child, as_u64, get_child, children_of,
}
use grizol.Fuse.Attributes.{
  FileKind, directory, Errno, enoent, efault, AttrReply, attr, attr_error, file_type, root_dir_attr,
  attr_from, type_of, id_of, get_node, GrizolFs, Expired, folders_files,
}

-- A call with the file system after it.
abbrev pub Called : Type 0 → Type 0 → Type 0
Called E A = Outcome E (A × GrizolFs)

-- `upgrade().unwrap()` of a reference that is there.
abbrev pub upgraded : {E : Type 0} → Option FsNode → Outcome E FsNode
upgraded none = panic
upgraded (some n) = ok n

-- The reply with the attributes of a node.
abbrev pub reply_attr : {E : Type 0} → GrizolFsFileType → GrizolFs → Called E AttrReply
reply_attr t fs = attr_from fs.config t >>= λ a. ok (attr a, fs)

abbrev pub attr_of_found : {E : Type 0} → Option (Option FsNode) → GrizolFs → Called E AttrReply
attr_of_found none fs = ok (attr_error enoent, fs)
attr_of_found (some r) fs = upgraded r >>= λ n. reply_attr (type_of n) fs

abbrev pub getattr_in : {E : Type 0} → ℕ → GrizolFs → Called E AttrReply
getattr_in ino fs =
    if ino == 1
    then ok (attr (root_dir_attr fs.config), fs)
    else attr_of_found (get_node ino fs.fs_mem) fs

unfoldable pub getattr_mem : {E : Type 0} → ℕ → Expired → ℕ → GrizolFs → Called E AttrReply
getattr_mem rounds expired ino fs = folders_files rounds expired fs >>= getattr_in ino

abbrev attr_of_child : {E : Type 0} → Option FsNode → GrizolFs → Called E AttrReply
attr_of_child none fs = ok (attr_error enoent, fs)
attr_of_child (some n) fs = reply_attr (type_of n) fs

abbrev child_of_found :
    {E : Type 0} → Option (Option FsNode) → Bytes → GrizolFs → Called E AttrReply
child_of_found none name fs = ok (attr_error enoent, fs)
child_of_found (some r) name fs =
    upgraded r >>= λ parent. attr_of_child (get_child name (children_of parent)) fs

-- `is_utf8` is whether `to_str` succeeds.
unfoldable pub lookup_mem :
    {E : Type 0} → (Bytes → Bool) → ℕ → Expired → ℕ → Bytes → GrizolFs → Called E AttrReply
lookup_mem is_utf8 rounds expired parent_ino name fs = folders_files rounds expired fs >>= λ fs'.
    if is_utf8 name
    then child_of_found (get_node parent_ino fs'.fs_mem) name fs'
    else ok (attr_error efault, fs')

-- What `ReplyDirectory::add` gets.
pub record DirEntry : Type 0 where
  pub ino : ℕ
  pub offset : ℕ
  pub kind : FileKind
  pub name : Bytes

pub data DirReply : Type 0 where
  entries : List DirEntry → DirReply
  dir_error : Errno → DirReply

-- Whether the buffer with some entries has no room for the next one, which is not added then.
abbrev pub IsFull : Type 0
IsFull = List DirEntry → DirEntry → Bool

abbrev pub kind_of : {E : Type 0} → GrizolFsFileType → Outcome E FileKind
kind_of (folder f) = ok directory
kind_of (file f) = file_type f.file_info.type_code

abbrev pub children_list : Children → List (Bytes × FsNode)
children_list empty = []
children_list (child name n cs) = (name, n) ∷ children_list cs

-- `skip(n)`
abbrev pub skip {ℓ} : {A : Type ℓ} → ℕ → List A → List A
skip n [] = []
skip zero (x ∷ xs) = x ∷ xs
skip (suc n) (x ∷ xs) = skip n xs

-- The loop over the children from the number `i` on.
unfoldable pub add_nodes :
    {E : Type 0} → IsFull → ℕ → List DirEntry → List (Bytes × FsNode) → Outcome E (List DirEntry)
add_nodes is_full i added [] = ok added
add_nodes is_full i added ((name, n) ∷ rest) = do
  kind ← kind_of (type_of n)
  let next : DirEntry = record { ino = id_of n; offset = i + 1; kind = kind; name = name }
  let more = add_nodes is_full (i + 1) (added ++ next ∷ []) rest
  if is_full added next then ok added else more

abbrev pub Listed : Type 0
Listed = List (Bytes × FsNode) → List (Bytes × FsNode)

abbrev pub entries_of_found :
    {E : Type 0} → Listed → IsFull → ℕ → Option (Option FsNode) → GrizolFs → Called E DirReply
entries_of_found listed is_full offset none fs = ok (dir_error enoent, fs)
entries_of_found listed is_full offset (some r) fs = do
  dir ← upgraded r
  let children = listed (children_list (children_of dir))
  added ← add_nodes is_full offset [] (skip offset children)
  ok (entries added, fs)

abbrev pub readdir_in : {E : Type 0} → Listed → IsFull → ℕ → ℤ → GrizolFs → Called E DirReply
readdir_in listed is_full ino offset fs =
    entries_of_found listed is_full (as_u64 offset) (get_node ino fs.fs_mem) fs

unfoldable pub readdir_mem :
    {E : Type 0} → Listed → IsFull → ℕ → Expired → ℕ → ℤ → GrizolFs → Called E DirReply
readdir_mem listed is_full rounds expired ino offset fs =
    folders_files rounds expired fs >>= readdir_in listed is_full ino offset
