-- ===== src/Processor/StoringTests.antt =====
-- The data of the last block of a file, which is then copied to a bucket and removed from the disk.
use grizol.Prelude.{ℕ, ◌≡◌, refl, ◌⊎◌, true, false, Option, none, [], ◌∷◌, map}
use grizol.Prelude.Int.{pos, ◌+ℤ◌, ◌-ℤ◌}
use grizol.Prelude.Outcome.{ok, err, panic, diverge}
use grizol.Prelude.Bytes.{Bytes}
use grizol.Proto.{FileInfo, Request, Response}
use grizol.Config.{remote}
use grizol.FileWriter.{works, new_file_writer, refused, write_chunk, consolidate, consolidate_loop}
use grizol.Requests.{new_requests, is_some}
use grizol.Storage.{StorageManager, writer_of, store_block_concurrently, conclude_block_storage}
use grizol.Processor.Responses.{BepProcessorError}
use grizol.Processor.Handlers.{ServerState}
use grizol.Processor.Storing.{
  Remotes, Disk, StoredData, cp_local_to_remote, move_to_remote, store_response_data,
}
use grizol.Processor.Integrity.{store_response_data-blocks}
use grizol.State.{file_key, insert_locations, update_file_locations, remove_file_locations}
use grizol.State.Tables.{block_row, columns_of}
use grizol.State.Reads.{file_info}
use grizol.State.Uploads.{mark_stored, count_blocks, expected_blocks, update_block_storage_state}

abbrev a_remotes : Remotes
a_remotes = record {
  local_device_id = record { id = 1 ∷ [] };
  storage_strategy = remote;
  storage_backends = (115 ∷ []) ∷ [];
  remote_base_dir = 98 ∷ [];
}

abbrev a_disk : Disk
a_disk = record {
  directory = λ path. ([], none);
  chunk_io = works;
  dir_error = none;
  remove_error = none;
}

abbrev a_request : Request
a_request = record {
  id = pos 5;
  folder = 102 ∷ [];
  name = 97 ∷ [];
  offset = pos 0;
  size = pos 4;
  hash = 7 ∷ [];
  from_temporary = false;
}

abbrev a_response : Response
a_response = record { id = pos 5; bytes = 1 ∷ 2 ∷ 3 ∷ 4 ∷ []; code = pos 0 }

abbrev a_file : FileInfo
a_file = record {
  name = 97 ∷ [];
  type_code = pos 0;
  size = pos 4;
  permissions = 0;
  modified_s = pos 7;
  modified_ns = pos 0;
  modified_by = 1;
  deleted = false;
  invalid = false;
  no_permissions = true;
  version = none;
  sequence = pos 1;
  block_size = pos 4;
  blocks = record { offset = pos 0; size = pos 4; hash = 7 ∷ []; weak_hash = 0 } ∷ [];
  symlink_target = [];
}

abbrev a_state : ServerState
a_state = record {
  tables = record {
    db = record {
      indexes = record { folder = 102 ∷ []; device_id = a_remotes.local_device_id } ∷ [];
      files = (file_key (102 ∷ []) a_remotes.local_device_id (97 ∷ []), columns_of a_file) ∷ [];
      versions = [];
      blocks =
          map (block_row (file_key (102 ∷ []) a_remotes.local_device_id (97 ∷ []))) a_file.blocks;
      locations = [];
      cache = [];
    };
    sequence = none;
    indices = record { indices = [] };
  };
  cluster = record { folders = []; devices = [] };
  requests = record {
    request_id = pos 6;
    outgoing_requests = record new_requests { requests_by_id = (pos 5, a_request) ∷ [] };
  };
}

abbrev no_writers : StorageManager
no_writers = record { local_base_dir = 100 ∷ []; file_writers = [] }

abbrev stored : StoredData ℕ
stored =
    store_response_data (λ bs. bs) (λ cs. cs) (λ bytes. 7 ∷ []) a_disk a_remotes a_request
      a_response a_state no_writers

abbrev result_of : StoredData ℕ → Option BepProcessorError × (ServerState × StorageManager)
result_of (ok x) = x
result_of (err e) = (none, (a_state, no_writers))
result_of panic = (none, (a_state, no_writers))
result_of diverge = (none, (a_state, no_writers))

store_response_data-blocks_example :
    ((result_of stored).1.0.requests ≡ a_state.requests)
    × ((((result_of stored).1.0.tables.db.blocks ≡ a_state.tables.db.blocks)
          × (is_some (result_of stored).0 ≡ true))
        ⊎ ((◌≡◌ {A = Bytes} (7 ∷ []) a_request.hash)
            × ((result_of stored).1.0.tables.db.blocks
                ≡ map
                    (mark_stored (file_key (102 ∷ []) a_remotes.local_device_id (97 ∷ [])) (7 ∷ []))
                    a_state.tables.db.blocks)))
unfolding store_response_data move_to_remote cp_local_to_remote file_info store_block_concurrently
    conclude_block_storage writer_of new_file_writer refused write_chunk consolidate
    consolidate_loop update_block_storage_state count_blocks expected_blocks update_file_locations
    insert_locations remove_file_locations ◌+ℤ◌ ◌-ℤ◌
store_response_data-blocks_example =
    store_response_data-blocks ℕ (λ bs. bs) (λ cs. cs) (λ bytes. 7 ∷ []) a_disk a_remotes a_request
      a_response a_state (result_of stored).1.0 no_writers (result_of stored).1.1
      (result_of stored).0 refl refl
