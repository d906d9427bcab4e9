-- ===== src/Fuse/Callbacks.antt =====
-- The calls of the kernel in src/fuse.rs, each by the configuration on the tree or on the lists.
use grizol.Prelude.{ℕ, Bool, List, if◌then◌else◌}
use grizol.Prelude.Int.{ℤ}
use grizol.Prelude.Outcome.{panic}
use grizol.Prelude.Bytes.{Bytes}
use grizol.Proto.{BlockInfo, Counter}
use grizol.State.{BepState}
use grizol.State.Tables.{Database}
use grizol.Storage.Copies.{Execute}
use grizol.Fuse.Attributes.{AttrReply, GrizolFs, Expired}
use grizol.Fuse.Memory.{Called, DirReply, IsFull, Listed, getattr_mem, lookup_mem, readdir_mem}
use grizol.Fuse.Database.{getattr_db, lookup_db, readdir_db}
use grizol.Fuse.Rename.{Arranged, Renamed, rename_mem}
use grizol.Fuse.RenameDb.{rename_db}
use grizol.Fuse.Read.{CacheDisk, ReadCall, read_mem}

unfoldable pub getattr : {E : Type 0} → ℕ → Expired → ℕ → GrizolFs → Called E AttrReply
getattr rounds expired ino fs =
    if fs.config.fuse_inmem
    then getattr_mem rounds expired ino fs
    else getattr_db rounds expired ino fs

unfoldable pub lookup_entry :
    {E : Type 0} → (Bytes → Bool) → ℕ → Expired → ℕ → Bytes → GrizolFs → Called E AttrReply
lookup_entry is_utf8 rounds expired parent_ino name fs =
    if fs.config.fuse_inmem
    then lookup_mem is_utf8 rounds expired parent_ino name fs
    else lookup_db is_utf8 rounds expired parent_ino name fs

unfoldable pub readdir :
    {E : Type 0} → Listed → IsFull → ℕ → Expired → ℕ → ℤ → GrizolFs → Called E DirReply
readdir listed is_full rounds expired ino offset fs =
    if fs.config.fuse_inmem
    then readdir_mem listed is_full rounds expired ino offset fs
    else readdir_db is_full rounds expired ino offset fs

-- On the lists it is a `todo!()`.
unfoldable pub read :
    {E : Type 0} → CacheDisk → ℤ → ℤ → ℕ → ℕ → Expired → ℕ → GrizolFs → Database → ReadCall E
read disk now offset size rounds expired ino fs db =
    if fs.config.fuse_inmem then read_mem disk now offset size rounds expired ino fs db else panic

-- The flags are not looked at.
module _ {E : Type 0} (listed : Listed) (arranged : Arranged)
    (listed_blocks : List BlockInfo → List BlockInfo)
    (listed_counters : List Counter → List Counter) (execute : Execute)
    (storage_backends : List Bytes) (is_utf8 : Bytes → Bool) where
  unfoldable pub rename : ℕ → Expired → ℕ → Bytes → ℕ → Bytes → GrizolFs → BepState → Renamed E
  rename rounds expired orig_ino orig_name dest_ino dest_name fs s =
      if fs.config.fuse_inmem
      then rename_mem execute storage_backends is_utf8 listed arranged rounds expired orig_ino
          orig_name dest_ino dest_name fs s
      else rename_db listed_blocks listed_counters execute storage_backends is_utf8 rounds expired
          orig_ino orig_name dest_ino dest_name fs s
