-- ===== src/Fuse/Read.antt =====
-- The reading of a file through the cache, `read_from_local_cache` and `read_mem` of src/fuse.rs, over the
-- tables of the database. The disk is an argument: the program rclone, the removal of a file, what a path has,
-- and how many bytes a read gets; so are the clock and the time of the last refresh.
use grizol.Prelude.{ℕ, Bool, Option, none, some, List, map, ltb, if◌then◌else◌}
use grizol.Prelude.Int.{ℤ}
use grizol.Prelude.Outcome.{Outcome, ok, ◌>>=◌}
use grizol.Prelude.Bytes.{Bytes}
use grizol.Config.{GrizolConfig}
use grizol.Storage.Copies.{Execute, path_in, cp_remote_to_read_cache, free_cached_files}
use grizol.Storage.Reading.{Reads, read_cached}
use grizol.State.Tables.{Database}
use grizol.State.Cache.{
  CachedFile, to_u64, is_file_in_read_cache, free_read_cache, update_read_cache,
}
use grizol.Fuse.{GrizolFileInfo, GrizolFsFileType, file, folder, FsNode, entries_start}
use grizol.Fuse.Attributes.{
  Errno, enoent, eisdir, efbig, eio, type_of, get_node, GrizolFs, Expired, folders_files,
}
use grizol.Fuse.Memory.{upgraded}

pub record CacheDisk : Type 0 where
  pub execute : Execute
  pub remove_file : Bytes → Bool
  pub contents : Bytes → Option Bytes
  pub reads : Reads

-- `none` is an `Err`.
abbrev pub ReadBytes : Type 0 → Type 0
ReadBytes E = Outcome E (Option Bytes × Database)

abbrev folder_and_name : CachedFile → Bytes × Bytes
folder_and_name f = (f.file.folder_device.folder, f.file.name)

-- `update_read_cache`, and then `read_cached`.
unfoldable pub read_found :
    {E : Type 0} → CacheDisk → GrizolConfig → ℤ → GrizolFileInfo → ℤ → ℕ → Database → ReadBytes E
read_found disk config now f offset size db = do
  let name = f.file_info.name
  db' ← update_read_cache now config.local_device_id f.folder name db
  res ←
      read_cached disk.reads (disk.contents (path_in config.read_cache_dir f.folder name)) offset
        size
  ok (res, db')

unfoldable pub read_copied :
    {E : Type 0}
    → Option Bytes
    → CacheDisk
    → GrizolConfig
    → ℤ
    → GrizolFileInfo
    → ℤ
    → ℕ
    → Database
    → ReadBytes E
read_copied none disk config now f offset size db = ok (none, db)
read_copied (some path) disk config now f offset size db =
    read_found disk config now f offset size db

-- The files are removed from the disk, and the file is copied.
unfoldable pub read_freed :
    {E : Type 0}
    → CacheDisk
    → GrizolConfig
    → ℤ
    → GrizolFileInfo
    → ℤ
    → ℕ
    → List CachedFile
    → Database
    → ReadBytes E
unfolding read_copied
read_freed disk config now f offset size removed db =
    if free_cached_files disk.remove_file config (map folder_and_name removed)
    then read_copied
        (cp_remote_to_read_cache disk.execute config f.folder f.file_info.name f.file_locations)
        disk config now f offset size db
    else ok (none, db)

unfoldable pub read_from_local_cache :
    {E : Type 0} → CacheDisk → GrizolConfig → ℤ → GrizolFileInfo → ℤ → ℕ → Database → ReadBytes E
unfolding read_freed
read_from_local_cache disk config now f offset size db =
    if is_file_in_read_cache config.local_device_id f.folder f.file_info.name db
    then read_found disk config now f offset size db
    else (do
      needed_bytes ← to_u64 f.file_info.size
      (removed, db') ← free_read_cache config.read_cache_size needed_bytes db
      read_freed disk config now f offset size removed db')

-- What `ReplyData` gets.
pub data DataReply : Type 0 where
  bytes : Bytes → DataReply
  data_error : Errno → DataReply

abbrev pub ReadCall : Type 0 → Type 0
ReadCall E = Outcome E (DataReply × (GrizolFs × Database))

reply_bytes : Option Bytes → DataReply
reply_bytes none = data_error eio
reply_bytes (some b) = bytes b

module _ {E : Type 0} (disk : CacheDisk) (now : ℤ) (offset : ℤ) (size : ℕ) where
  read_sized : GrizolFileInfo → ℕ → GrizolFs → Database → ReadCall E
  unfolding reply_bytes
  read_sized f file_size fs db =
      if ltb fs.config.read_cache_size file_size
      then ok (data_error efbig, (fs, db))
      else (read_from_local_cache disk fs.config now f offset size db >>= λ x.
          ok (reply_bytes x.0, (fs, x.1)))

  read_type : GrizolFsFileType → GrizolFs → Database → ReadCall E
  unfolding read_sized
  read_type (folder f) fs db = ok (data_error eisdir, (fs, db))
  read_type (file f) fs db = to_u64 f.file_info.size >>= λ file_size. read_sized f file_size fs db

  read_node : Option (Option FsNode) → GrizolFs → Database → ReadCall E
  unfolding read_type
  read_node none fs db = ok (data_error enoent, (fs, db))
  read_node (some r) fs db = upgraded r >>= λ n. read_type (type_of n) fs db

  unfoldable pub read_mem : ℕ → Expired → ℕ → GrizolFs → Database → ReadCall E
  unfolding read_node
  read_mem rounds expired ino fs db = folders_files rounds expired fs >>= λ fs'.
      if ltb ino entries_start
      then ok (data_error eisdir, (fs', db))
      else read_node (get_node ino fs'.fs_mem) fs' db
