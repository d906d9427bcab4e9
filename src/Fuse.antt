-- ===== src/Fuse.antt =====
-- The tree of folders and files that the file system shows, src/fuse.rs. A node holds its children by name;
-- the references to nodes by number, and to parents, are weak: of the former the paths are kept here at
-- which the nodes were inserted, the latter are left out.
pub mod Paths
pub mod Attributes
pub mod FilePath
pub mod Memory
pub mod Database
pub mod Read
pub mod Shown
pub mod Rename
pub mod RenameDb
pub mod Moved
pub mod ShownRows
pub mod ShownFiles
pub mod ShownFolders
pub mod Callbacks
pub mod Listing
pub mod Headers
pub mod Numbered
pub mod Agree
pub mod Dangling
pub mod Waiting
pub mod Refresh
pub mod Missing
mod Tests
mod CallTests
mod ShownTests
mod RenameTests
use grizol.Prelude.{
  ℕ, zero, suc, ◌+◌, ◌-◌, ◌^◌, ◌≡◌, refl, Bool, true, false, not, ◌&&◌, Option, none, some, List,
  [], ◌∷◌, ◌++◌, ltb, leb, ◌==◌, if◌then◌else◌,
}
use grizol.Prelude.Int.{ℤ, pos, negsuc}
use grizol.Prelude.Keys.{bytes_eq, nat_eq, Dict, insert}
use grizol.Prelude.Outcome.{Outcome, ok, panic, diverge, ◌>>=◌, unwrap}
use grizol.Prelude.Bytes.{Bytes}
use grizol.Proto.{Folder, FileInfo}
use grizol.State.{FileLocation}

pub record GrizolFolder : Type 0 where
  pub folder : Folder
  pub id : ℤ

pub record GrizolFileInfo : Type 0 where
  pub file_info : FileInfo
  pub id : ℤ
  pub file_locations : List FileLocation
  pub folder : Bytes

pub data GrizolFsFileType : Type 0 where
  file : GrizolFileInfo → GrizolFsFileType
  folder : GrizolFolder → GrizolFsFileType

-- The children are in the order of their insertion.
mutual
  pub data FsNode : Type 0 where
    node : ℕ → GrizolFsFileType → Children → FsNode

  pub data Children : Type 0 where
    empty : Children
    child : Bytes → FsNode → Children → Children

pub record GrizolFsMem : Type 0 where
  pub root : FsNode
  pub nodes : Dict ℕ (List Bytes)

abbrev pub entries_start : ℕ
entries_start = 2 ^ 32

abbrev pub top_dirs_start : ℕ
top_dirs_start = 10

-- `id as u64` of an `i64`.
abbrev pub as_u64 : ℤ → ℕ
as_u64 (pos n) = n
as_u64 (negsuc n) = 2 ^ 64 - 1 - n

abbrev pub add_u64 : {E : Type 0} → ℕ → ℕ → Outcome E ℕ
add_u64 a b = if ltb (a + b) (2 ^ 64) then ok (a + b) else panic

unfoldable pub entry_id : {E : Type 0} → ℤ → Outcome E ℕ
entry_id e_id = add_u64 (as_u64 e_id) entries_start

unfoldable pub top_dir_id : {E : Type 0} → ℤ → Outcome E ℕ
top_dir_id d_id =
    add_u64 (as_u64 d_id) top_dirs_start >>= λ res. if leb entries_start res then panic else ok res

-- `children.get(name)`
abbrev pub get_child : Bytes → Children → Option FsNode
get_child name empty = none
get_child name (child k n cs) = if bytes_eq.beq k name then some n else get_child name cs

-- `children.insert(name, node)`
abbrev pub insert_child : Bytes → FsNode → Children → Children
insert_child name new empty = child name new empty
insert_child name new (child k n cs) =
    let rest = insert_child name new cs in
    if bytes_eq.beq k name then child name new cs else child k n rest

abbrev pub children_of : FsNode → Children
children_of (node id file_type cs) = cs

abbrev pub with_children : FsNode → Children → FsNode
with_children (node id file_type old) cs = node id file_type cs

-- `GrizolFsMem::new`, on the default folder.
abbrev pub new_fs_mem : Folder → GrizolFsMem
new_fs_mem default = record {
  root = node 1 (folder (record { folder = default; id = pos 1 })) empty;
  nodes = (1, []) ∷ [];
}

-- The node of a folder is new and has no children.
unfoldable pub insert_folder : {E : Type 0} → GrizolFolder → GrizolFsMem → Outcome E GrizolFsMem
insert_folder f m = top_dir_id f.id >>= λ folder_id. ok (record {
  root =
      with_children m.root
        (insert_child f.folder.id (node folder_id (folder f) empty) (children_of m.root));
  nodes = insert folder_id (f.folder.id ∷ []) m.nodes;
})

abbrev pub push_byte : ℕ → List Bytes → List Bytes
push_byte c [] = (c ∷ []) ∷ []
push_byte c (w ∷ ws) = (c ∷ w) ∷ ws

-- `name.split("/")`
abbrev pub split_slash : Bytes → List Bytes
split_slash [] = [] ∷ []
split_slash (c ∷ cs) = let rest = split_slash cs in if c == 47 then [] ∷ rest else push_byte c rest

abbrev pub split_path : GrizolFileInfo → List Bytes
split_path f = f.folder ∷ split_slash f.file_info.name

-- `take(len() - 1)` and `last()`
abbrev pub parents : List Bytes → List Bytes
parents [] = []
parents (x ∷ []) = []
parents (x ∷ y ∷ ys) = x ∷ parents (y ∷ ys)

abbrev pub last : List Bytes → Option Bytes
last [] = none
last (x ∷ []) = some x
last (x ∷ y ∷ ys) = last (y ∷ ys)

abbrev pub and_then : {A B : Type 0} → Option A → (A → Option B) → Option B
and_then none f = none
and_then (some a) f = f a

abbrev pub put_child : Bytes → FsNode → FsNode → FsNode
put_child name new parent = with_children parent (insert_child name new (children_of parent))

-- The walk from a node along the names to the node that gets the new one; `none` is `NoParent`.
abbrev pub insert_at : List Bytes → Bytes → FsNode → FsNode → Option FsNode
insert_at [] name new parent = some (put_child name new parent)
insert_at (x ∷ xs) name new parent =
    and_then (get_child x (children_of parent))
      (λ n. and_then (insert_at xs name new n) (λ n'. some (put_child x n' parent)))

mem_of :
    {E : Type 0} → GrizolFileInfo → GrizolFsMem → Option FsNode → Outcome E (Option GrizolFsMem)
mem_of f m none = ok none
mem_of f m (some root) = entry_id f.id >>= λ node_id.
    ok (some (record { root = root; nodes = insert node_id (split_path f) m.nodes }))

-- The number of the node is checked where a parent is found.
unfoldable pub insert_file :
    {E : Type 0} → GrizolFileInfo → GrizolFsMem → Outcome E (Option GrizolFsMem)
unfolding mem_of
insert_file f m = do
  let path = split_path f
  node_name ← unwrap (last path)
  mem_of f m (
      insert_at (parents path) node_name (node (as_u64 f.id + entries_start) (file f) empty) m.root)

abbrev pub insert_folders : {E : Type 0} → List GrizolFolder → GrizolFsMem → Outcome E GrizolFsMem
insert_folders [] m = ok m
insert_folders (f ∷ fs) m = insert_folder f m >>= insert_folders fs

-- A file that has no parent goes to the end of the queue.
abbrev pub insert_or_wait :
    {E : Type 0}
    → Option GrizolFsMem
    → (GrizolFsMem → Outcome E GrizolFsMem)
    → (Unit {0} → Outcome E GrizolFsMem)
    → Outcome E GrizolFsMem
insert_or_wait none inserted wait = wait tt
insert_or_wait (some m) inserted wait = inserted m

-- The loop over the queue of files. Each round takes a unit of fuel.
unfoldable pub insert_files :
    {E : Type 0} → ℕ → List GrizolFileInfo → GrizolFsMem → Outcome E GrizolFsMem
insert_files rounds [] m = ok m
insert_files zero (f ∷ fs) m = diverge
insert_files (suc rounds) (f ∷ fs) m = insert_file f m >>= λ r.
    insert_or_wait r (λ m'. insert_files rounds fs m') (λ _. insert_files rounds (fs ++ f ∷ []) m)

-- What `refresh_expired_folders_files` does with what it has read.
unfoldable pub refresh :
    {E : Type 0} → ℕ → List GrizolFolder → List GrizolFileInfo → GrizolFsMem → Outcome E GrizolFsMem
refresh rounds folders files m = insert_folders folders m >>= insert_files rounds files
