-- ===== src/State/Tests.antt =====
-- An instance of each theorem on a database with a file of two blocks.
use grizol.Prelude.{◌≡◌, refl, true, false, none, some, [], ◌∷◌, if◌then◌else◌, arith}
use grizol.Prelude.Int.{pos, ◌+ℤ◌}
use grizol.Prelude.Outcome.{Outcome, ok}
use grizol.Prelude.Bytes.{Bytes}
use grizol.Proto.{FileInfo, BlockInfo, Vector, Request}
use grizol.DeviceId.{DeviceId}
use grizol.Indices.{insert_file_info}
use grizol.Indices.Lookups.{last_named}
use grizol.Requests.{OutgoingRequests, new_requests, contains}
use grizol.State.{BepState, file_key, in_index, rm_replace_file_info}
use grizol.State.Tables.{FileKey, file_key_eq, Database, columns_of, block_row}
use grizol.State.Numbers.{IsNumbered}
use grizol.State.Replaced.{stored_file}
use grizol.State.Stored.{
  kept_files, IsCoherent, rm_replace_file_info-stored_file, rm_replace_file_info-IsCoherent,
}
use grizol.State.Uploads.{
  UploadResult, uploaded, all_blocks, update_block_storage_state, with_blocks, mark_all,
  update_block_storage_state-all_blocks,
}

abbrev a_device : DeviceId
a_device = record { id = 1 ∷ [] }

abbrev a_folder : Bytes
a_folder = 102 ∷ []

abbrev a_name : Bytes
a_name = 97 ∷ []

abbrev a_block : BlockInfo
a_block = record { offset = pos 0; size = pos 4; hash = 7 ∷ []; weak_hash = 0 }

abbrev next_block : BlockInfo
next_block = record { offset = pos 4; size = pos 2; hash = 8 ∷ []; weak_hash = 0 }

abbrev a_version : Vector
a_version = record { counters = record { id = 1; value = 2 } ∷ [] }

abbrev a_file : FileInfo
a_file = record {
  name = a_name;
  type_code = pos 0;
  size = pos 6;
  permissions = 0;
  modified_s = pos 7;
  modified_ns = pos 0;
  modified_by = 1;
  deleted = false;
  invalid = false;
  no_permissions = true;
  version = some a_version;
  sequence = pos 0;
  block_size = pos 4;
  blocks = a_block ∷ next_block ∷ [];
  symlink_target = [];
}

abbrev empty_database : Database
empty_database = record {
  indexes = record { folder = a_folder; device_id = a_device } ∷ [];
  files = [];
  versions = [];
  blocks = [];
  locations = [];
  cache = [];
}

abbrev empty_state : BepState
empty_state = record { db = empty_database; sequence = none; indices = record { indices = [] } }

abbrev file_a : FileKey
file_a = file_key a_folder a_device a_name

abbrev a_database : Database
a_database = record empty_database {
  files = (file_a, columns_of a_file) ∷ [];
  blocks = block_row file_a a_block ∷ block_row file_a next_block ∷ [];
  cache = (file_a, pos 3) ∷ [];
}

abbrev a_state : BepState
a_state = record empty_state { db = a_database }

-- The file is there already.
rm_replace_file_info-stored_file_example :
    (s' : BepState) × (◌≡◌ {A = Outcome Unit BepState}
      (rm_replace_file_info a_folder a_device (a_file ∷ []) a_state)
      (ok s'))
    × IsNumbered s'
    × (s'.indices
        ≡ insert_file_info a_folder a_device (kept_files (a_file ∷ []) a_state) a_state.indices)
    × ((j : FileKey)
        → stored_file j s'.db ≡ (
            if in_index a_folder a_device j
            then last_named j.name (kept_files (a_file ∷ []) a_state) (stored_file j a_state.db)
            else stored_file j a_state.db))
unfolding ◌+ℤ◌
rm_replace_file_info-stored_file_example =
    rm_replace_file_info-stored_file a_folder a_device (a_file ∷ []) a_state (refl, tt) refl
      ((a_version, (refl, (refl, tt), (refl, tt), (refl, (refl, tt)), refl)), tt) refl

rm_replace_file_info-IsCoherent_example :
    (s' : BepState) × (◌≡◌ {A = Outcome Unit BepState}
      (rm_replace_file_info a_folder a_device (a_file ∷ []) empty_state)
      (ok s'))
    × IsCoherent (record { folder = a_folder; device_id = a_device }) s'
unfolding ◌+ℤ◌
rm_replace_file_info-IsCoherent_example =
    rm_replace_file_info-IsCoherent a_folder a_device (a_file ∷ []) empty_state
      (record { folder = a_folder; device_id = a_device }) tt refl
      ((a_version, (refl, (refl, tt), (refl, tt), (refl, (refl, tt)), refl)), tt) refl
      (λ name. refl)

abbrev a_request : Request
a_request = record {
  id = pos 5;
  folder = a_folder;
  name = a_name;
  offset = pos 4;
  size = pos 2;
  hash = 8 ∷ [];
  from_temporary = false;
}

abbrev a_queue : OutgoingRequests
a_queue = record new_requests { requests_by_id = (pos 5, a_request) ∷ [] }

-- The second of the two blocks is the last.
update_block_storage_state-all_blocks_example :
    ◌≡◌ {A = Outcome Unit (UploadResult × Database)}
      (update_block_storage_state a_queue
        (pos 5)
        a_device
        (with_blocks a_database (mark_all file_a ((7 ∷ []) ∷ []) a_database.blocks)))
      (ok (
        uploaded all_blocks,
        with_blocks a_database (mark_all file_a ((7 ∷ []) ∷ (8 ∷ []) ∷ []) a_database.blocks),
      ))
unfolding contains
update_block_storage_state-all_blocks_example =
    update_block_storage_state-all_blocks {E = Unit} a_queue (pos 5) a_request a_device a_database
      (columns_of a_file) ((7 ∷ []) ∷ []) 6 4 2 refl refl refl refl (omega arith) (omega arith)
      (omega arith) refl refl
