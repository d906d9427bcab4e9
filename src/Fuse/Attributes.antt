-- ===== src/Fuse/Attributes.antt =====
-- The attributes of folders and files in src/fuse.rs, and what a callback gets from the tree in memory.
-- The four times of a file are one here, and the fields that are always 0 are left out.
use grizol.Prelude.{
  ℕ, ◌+◌, ◌-◌, ◌*◌, ◌/◌, ◌%◌, ◌^◌, Option, none, some, List, [], ◌∷◌, ltb, ◌==◌, if◌then◌else◌,
}
use grizol.Prelude.Int.{ℤ, pos, negsuc}
use grizol.Prelude.Keys.{nat_eq, lookup}
use grizol.Prelude.Outcome.{Outcome, ok, panic, ◌>>=◌, ◌>>◌, assert}
use grizol.Prelude.Bytes.{Bytes}
use grizol.Config.{GrizolConfig}
use grizol.Fuse.{
  GrizolFolder, GrizolFileInfo, GrizolFsFileType, file, folder, FsNode, node, GrizolFsMem, as_u64,
  entry_id, top_dir_id, get_child, children_of, and_then, refresh,
}

-- `fuser::FileType`, as far as it is used.
pub data FileKind : Type 0 where
  regular_file directory symlink : FileKind

pub data Errno : Type 0 where
  enoent eisdir efault efbig eio eperm : Errno

-- `mtime` is the time since the epoch in nanoseconds.
pub record FileAttr : Type 0 where
  pub ino : ℕ
  pub size : ℕ
  pub mtime : ℕ
  pub kind : FileKind
  pub perm : ℕ
  pub uid : ℕ
  pub gid : ℕ
  pub blksize : ℕ

-- What `ReplyAttr` and `ReplyEntry` get.
pub data AttrReply : Type 0 where
  attr : FileAttr → AttrReply
  attr_error : Errno → AttrReply

-- Another code is a `todo!()`.
abbrev pub file_type : {E : Type 0} → ℤ → Outcome E FileKind
file_type (pos n) =
    if n == 0
    then ok regular_file
    else if n == 1
    then ok directory
    else if ltb n 5
    then ok symlink
    else panic
file_type (negsuc n) = panic

abbrev nanos : ℕ
nanos = 1000000000

-- The sum of `UNIX_EPOCH` and the two durations, whose seconds fit an `i64`.
abbrev pub modified_ts : {E : Type 0} → ℤ → ℤ → Outcome E ℕ
modified_ts modified_s modified_ns = do
  assert (ltb (as_u64 modified_s) (2 ^ 63))
  let ts = as_u64 modified_s * nanos + as_u64 modified_ns
  assert (ltb (ts / nanos) (2 ^ 63))
  ok ts

-- `as u32` of an `i32`.
abbrev pub as_u32 : ℤ → ℕ
as_u32 (pos n) = n
as_u32 (negsuc n) = 2 ^ 32 - 1 - n

unfoldable pub root_dir_attr : GrizolConfig → FileAttr
root_dir_attr config = record {
  ino = 1;
  size = 0;
  mtime = 0;
  kind = directory;
  perm = 0o755;
  uid = config.uid;
  gid = config.gid;
  blksize = 512;
}

unfoldable pub attr_from_folder : {E : Type 0} → GrizolConfig → GrizolFolder → Outcome E FileAttr
attr_from_folder config g_folder = top_dir_id g_folder.id >>= λ ino. ok (record {
  ino = ino;
  size = 0;
  mtime = 0;
  kind = directory;
  perm = 0o755;
  uid = config.uid;
  gid = config.gid;
  blksize = 1024;
})

unfoldable pub attr_from_file : {E : Type 0} → GrizolConfig → GrizolFileInfo → Outcome E FileAttr
attr_from_file config g_file = do
  let f = g_file.file_info
  ts ← modified_ts f.modified_s f.modified_ns
  ino ← entry_id g_file.id
  kind ← file_type f.type_code
  ok (record {
    ino = ino;
    size = as_u64 f.size;
    mtime = ts;
    kind = kind;
    perm = f.permissions % 2 ^ 16;
    uid = config.uid;
    gid = config.gid;
    blksize = as_u32 f.block_size;
  })

abbrev pub attr_from : {E : Type 0} → GrizolConfig → GrizolFsFileType → Outcome E FileAttr
attr_from config (file f) = attr_from_file config f
attr_from config (folder f) = attr_from_folder config f

abbrev pub type_of : FsNode → GrizolFsFileType
type_of (node id t cs) = t

abbrev pub id_of : FsNode → ℕ
id_of (node id t cs) = id

-- The walk along the names.
abbrev pub node_at : List Bytes → FsNode → Option FsNode
node_at [] n = some n
node_at (x ∷ xs) n = and_then (get_child x (children_of n)) (node_at xs)

abbrev pub has_id : ℕ → FsNode → Option FsNode
has_id ino n = if id_of n == ino then some n else none

-- `upgrade()` of the reference under the number: the node that was inserted last with the number is
-- still in the tree exactly if its path has a node with the number.
abbrev pub upgrade : ℕ → List Bytes → FsNode → Option FsNode
upgrade ino path root = and_then (node_at path root) (has_id ino)

-- `nodes.get(&ino)`, and `upgrade()` with it.
abbrev pub get_node : ℕ → GrizolFsMem → Option (Option FsNode)
get_node ino m = and_then (lookup ino m.nodes) (λ path. some (upgrade ino path m.root))

-- The part of `GrizolFS` that the callbacks use.
pub record GrizolFs : Type 0 where
  pub config : GrizolConfig
  pub folders : List GrizolFolder
  pub files : List GrizolFileInfo
  pub fs_mem : GrizolFsMem

-- What the state has, if it is time to read it again.
abbrev pub Expired : Type 0
Expired = Option (List GrizolFolder × List GrizolFileInfo)

unfoldable pub folders_files : {E : Type 0} → ℕ → Expired → GrizolFs → Outcome E GrizolFs
folders_files rounds none fs = ok fs
folders_files rounds (some (folders, files)) fs = refresh rounds folders files fs.fs_mem >>= λ m.
    ok (record fs { folders = folders; files = files; fs_mem = m })
