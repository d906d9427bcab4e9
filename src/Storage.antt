-- ===== src/Storage.antt =====
-- The writing of blocks, src/storage.rs: which writer a block goes to, and when the file is put together. The
-- directory of the program holds, by path, the chunk files and the files that are there when a writer is
-- made. Opening directories is I/O, and an argument; so is what happens to the chunk.
pub mod Blocks
pub mod Copies
pub mod Reading
mod Tests
use grizol.Prelude.{ℕ, ◌+◌, ◌≡◌, Option, none, some, List, [], ◌∷◌, ◌++◌, if◌then◌else◌}
use grizol.Prelude.Int.{ℤ, pos, negsuc}
use grizol.Prelude.Keys.{bytes_eq, Dict, lookup, insert}
use grizol.Prelude.Outcome.{Outcome, ok, panic, ◌>>=◌}
use grizol.Prelude.Bytes.{Bytes}
use grizol.Proto.{Request}
use grizol.FileWriter.{FileWriter, IoError, ChunkIo, new_file_writer, write_chunk, consolidate}

-- `local_base_dir` of the configuration, and the writers by relative path.
pub record StorageManager : Type 0 where
  pub local_base_dir : Bytes
  pub file_writers : Dict Bytes FileWriter

-- By path, the chunk files and the file.
abbrev pub Directory : Type 0
Directory = Bytes → Dict ℕ Bytes × Option Bytes

abbrev pub file_rel_path : Request → Bytes
file_rel_path request = request.folder ++ 47 ∷ request.name

abbrev pub writer_or : FileWriter → Option FileWriter → FileWriter
writer_or fresh none = fresh
writer_or fresh (some w) = w

-- `entry(rel_path).or_insert(FileWriter::new(path, ..))`: the new writer is made in any case.
unfoldable pub writer_of :
    {E : Type 0} → Directory → Bytes → Bytes → ℕ → ℕ → StorageManager → Outcome E FileWriter
writer_of directory rel_path path file_size chunk_size s = do
  fresh ← new_file_writer file_size chunk_size (directory path).0 (directory path).1
  ok (writer_or fresh (lookup rel_path s.file_writers))

abbrev pub put_writer : Bytes → FileWriter → StorageManager → StorageManager
put_writer rel_path w s = record s { file_writers = insert rel_path w s.file_writers }

-- `request.offset.try_into().unwrap()`
abbrev pub to_usize : {E : Type 0} → ℤ → Outcome E ℕ
to_usize (pos n) = ok n
to_usize (negsuc n) = panic

-- `none` is `Ok(())`.
abbrev pub StorageResult : Type 0 → Type 0
StorageResult E = Outcome E (Option IoError × StorageManager)

-- The third argument is the error of `create_dir_all`.
unfoldable pub store_block_concurrently :
    {E : Type 0}
    → Directory
    → ChunkIo
    → Option IoError
    → Bytes
    → Request
    → ℕ
    → ℕ
    → StorageManager
    → StorageResult E
store_block_concurrently directory io (some e) bytes request file_size chunk_size s = ok (some e, s)
store_block_concurrently directory io none bytes request file_size chunk_size s = do
  let rel_path = file_rel_path request
  w ← writer_of directory rel_path (s.local_base_dir ++ 47 ∷ rel_path) file_size chunk_size s
  offset ← to_usize request.offset
  (res, w') ← write_chunk io bytes offset w
  ok (res, put_writer rel_path w' s)

-- A writer that is made here is given the relative path.
unfoldable pub conclude_block_storage :
    {E : Type 0} → Directory → Request → ℕ → ℕ → StorageManager → StorageResult E
conclude_block_storage directory request file_size chunk_size s = do
  let rel_path = file_rel_path request
  w ← writer_of directory rel_path rel_path file_size chunk_size s
  (res, w') ← consolidate w
  ok (res, put_writer rel_path w' s)
