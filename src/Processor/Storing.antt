-- ===== src/Processor/Storing.antt =====
-- The storing of a response's data, `store_response_data` of src/core/bep_processor.rs, over the state and the
-- storage. SHA-256, the disk and the copies to remote storage are parameters.
use grizol.Prelude.{
  ℕ, Bool, true, false, Option, none, some, List, [], ◌∷◌, ◌++◌, map, if◌then◌else◌,
}
use grizol.Prelude.Keys.{bytes_eq}
use grizol.Prelude.Outcome.{Outcome, ok, ◌>>=◌}
use grizol.Prelude.Bytes.{Bytes}
use grizol.Proto.{FileInfo, BlockInfo, Counter, Request, Response}
use grizol.DeviceId.{DeviceId}
use grizol.Config.{StorageStrategy, remote, local_remote}
use grizol.FileWriter.{IoError, ChunkIo}
use grizol.Storage.{StorageManager, Directory, store_block_concurrently, conclude_block_storage}
use grizol.Processor.Responses.{
  BepProcessorError, wrong_data_in_response, file_not_in_index, storage_error, state_error,
}
use grizol.Processor.Handlers.{ServerState}
use grizol.State.{FileLocation, update_file_locations, remove_file_locations}
use grizol.State.Reads.{file_info}
use grizol.State.Cache.{to_u64}
use grizol.State.Uploads.{
  UploadResult, uploaded, too_many_blocks, all_blocks, blocks_missing, update_block_storage_state,
}

-- The parts of the configuration and of the storage manager that are used.
pub record Remotes : Type 0 where
  pub local_device_id : DeviceId
  pub storage_strategy : StorageStrategy
  pub storage_backends : List Bytes
  pub remote_base_dir : Bytes

-- What the disk does with a block: the directory, the writing of the chunk, the making of the parent
-- directory, and the removal of the local file, `none` where it works.
pub record Disk : Type 0 where
  pub directory : Directory
  pub chunk_io : ChunkIo
  pub dir_error : Option IoError
  pub remove_error : Option IoError

-- The locations that `cp_local_to_remote` returns, one for each backend, whatever the copies did.
unfoldable pub cp_local_to_remote : Remotes → Bytes → Bytes → List FileLocation
cp_local_to_remote r folder name =
    map (λ (b : Bytes). (b, b ++ (58 ∷ r.remote_base_dir) ++ (47 ∷ folder) ++ (47 ∷ name)))
      r.storage_backends

abbrev pub is_remote : StorageStrategy → Bool
is_remote remote = true
is_remote local_remote = false

abbrev pub as_storage_error : Option IoError → Option BepProcessorError
as_storage_error none = none
as_storage_error (some e) = some storage_error

-- `none` is `Ok(())`.
abbrev pub StoredData : Type 0 → Type 0
StoredData E = Outcome E (Option BepProcessorError × (ServerState × StorageManager))

-- The text `local`.
abbrev pub local_text : Bytes
local_text = 108 ∷ 111 ∷ 99 ∷ 97 ∷ 108 ∷ []

module _ {E : Type 0} (listed_blocks : List BlockInfo → List BlockInfo)
    (listed_counters : List Counter → List Counter) (sha256 : Bytes → Bytes) (disk : Disk)
    (r : Remotes) where
  -- The file is whole. Both strategies copy it, and one removes the local file.
  unfoldable pub move_to_remote : Request → ServerState → StorageManager → StoredData E
  move_to_remote request s m = do
    let locations = cp_local_to_remote r request.folder request.name
    tables ← update_file_locations request.folder r.local_device_id request.name locations s.tables
    let kept =
        if is_remote r.storage_strategy
        then remove_file_locations request.folder r.local_device_id request.name (local_text ∷ [])
            tables
        else tables
    let error = if is_remote r.storage_strategy then as_storage_error disk.remove_error else none
    ok (error, (record s { tables = kept }, m))

  unfoldable pub concluded : Option IoError → Request → ServerState → StorageManager → StoredData E
  concluded (some e) request s m = ok (some storage_error, (s, m))
  concluded none request s m = move_to_remote request s m

  unfoldable pub with_status :
      UploadResult → Request → ℕ → ℕ → ServerState → StorageManager → StoredData E
  with_status too_many_blocks request file_size block_size s m = ok (some state_error, (s, m))
  with_status (uploaded blocks_missing) request file_size block_size s m = ok (none, (s, m))
  with_status (uploaded all_blocks) request file_size block_size s m = do
    (res, m') ← conclude_block_storage disk.directory request file_size block_size m
    concluded res request s m'

  unfoldable pub written :
      Option IoError → Request → Response → ℕ → ℕ → ServerState → StorageManager → StoredData E
  written (some e) request response file_size block_size s m = ok (some storage_error, (s, m))
  written none request response file_size block_size s m = do
    (status, db) ←
        update_block_storage_state s.requests.outgoing_requests response.id r.local_device_id
          s.tables.db
    with_status status request file_size block_size
        (record s { tables = record s.tables { db = db } }) m

  unfoldable pub with_file :
      Option FileInfo → Request → Response → ServerState → StorageManager → StoredData E
  with_file none request response s m = ok (some file_not_in_index, (s, m))
  with_file (some f) request response s m = do
    file_size ← to_u64 f.size
    block_size ← to_u64 f.block_size
    (res, m') ←
        store_block_concurrently disk.directory disk.chunk_io disk.dir_error response.bytes request
          file_size block_size m
    written res request response file_size block_size s m'

  unfoldable pub store_response_data :
      Request → Response → ServerState → StorageManager → StoredData E
  unfolding with_file written with_status concluded
  store_response_data request response s m =
      if bytes_eq.beq (sha256 response.bytes) request.hash
      then with_file
          (file_info listed_blocks listed_counters request.folder r.local_device_id request.name
            s.tables.db)
          request response s m
      else ok (some wrong_data_in_response, (s, m))
