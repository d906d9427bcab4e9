-- ===== src/Processor/HandlerTests.antt =====
-- An index update with a file of one block, which the device does not have.
use grizol.Prelude.{ℕ, ◌≡◌, refl, true, false, none, some, List, [], ◌∷◌}
use grizol.Prelude.Int.{pos, ◌+ℤ◌, ◌-ℤ◌}
use grizol.Prelude.Outcome.{ok, err, panic, diverge}
use grizol.Prelude.Bytes.{Bytes}
use grizol.Proto.{FileInfo}
use grizol.Parser.Decode.{CompleteMessage}
use grizol.DeviceId.{DeviceId}
use grizol.Requests.{new_requests}
use grizol.Processor.Responses.{EventResult}
use grizol.Processor.Handlers.{
  ServerState, Processor, Handled, handle_complete_message, handle_index_update, index_or_panic,
  request_blocks, update_index,
}
use grizol.Processor.Queued.{AreQueued}
use grizol.Processor.Requested.{handle_complete_message-Asks}
use grizol.Processor.Responses.{event}
use grizol.Wire.{request_created}
use grizol.State.Reads.{index, blocks_info}
use grizol.Indices.{index_of, insert_index, insert_file_info}
use grizol.Processor.{
  diff_indices, diff_loop, place, place_existing, max_counter, partial_cmp_file_version, insert_all,
  insert_requests, requests_from_blocks, store_outgoing_requests,
}
use grizol.State.{rm_replace_file_info, number_files, next_sequence_id, replace_files, replace_file}
use grizol.State.Tables.{insert_file_row, delete_files, insert_versions, push_blocks}
use grizol.Requests.{insert_request, remove_old_requests, contains}

abbrev state_of : Handled ℕ → ServerState → ServerState
state_of (ok (res, s)) other = s
state_of (err e) other = other
state_of panic other = other
state_of diverge other = other

abbrev results_of : Handled ℕ → List EventResult
results_of (ok (res, s)) = res
results_of (err e) = []
results_of panic = []
results_of diverge = []

abbrev a_peer : DeviceId
a_peer = record { id = 2 ∷ [] }

abbrev a_processor : Processor
a_processor = record {
  local_device_id = record { id = 1 ∷ [] };
  name = 97 ∷ [];
  client_name = 98 ∷ [];
  client_version = 99 ∷ [];
}

abbrev a_hash : Bytes
a_hash =
    7 ∷ 7 ∷ 7 ∷ 7 ∷ 7 ∷ 7 ∷ 7 ∷ 7 ∷ 7 ∷ 7 ∷ 7 ∷ 7 ∷ 7 ∷ 7 ∷ 7 ∷ 7 ∷ 7 ∷ 7 ∷ 7 ∷ 7 ∷ 7 ∷ 7 ∷ 7 ∷ 7
    ∷ 7 ∷ 7 ∷ 7 ∷ 7 ∷ 7 ∷ 7 ∷ 7 ∷ 7 ∷ []

abbrev a_file : FileInfo
a_file = record {
  name = 97 ∷ [];
  type_code = pos 0;
  size = pos 4;
  permissions = 0;
  modified_s = pos 7;
  modified_ns = pos 0;
  modified_by = 1;
  deleted = false;
  invalid = false;
  no_permissions = true;
  version = some (record { counters = record { id = 1; value = 2 } ∷ [] });
  sequence = pos 0;
  block_size = pos 4;
  blocks = record { offset = pos 0; size = pos 4; hash = a_hash; weak_hash = 0 } ∷ [];
  symlink_target = [];
}

abbrev a_state : ServerState
a_state = record {
  tables = record {
    db = record {
      indexes =
          record { folder = 102 ∷ []; device_id = a_processor.local_device_id }
          ∷ record { folder = 102 ∷ []; device_id = a_peer }
          ∷ [];
      files = [];
      versions = [];
      blocks = [];
      locations = [];
      cache = [];
    };
    sequence = none;
    indices = record { indices = [] };
  };
  cluster = record { folders = []; devices = [] };
  requests = record { request_id = pos 0; outgoing_requests = new_requests };
}

abbrev handled : Handled ℕ
handled =
    handle_complete_message (λ bs. bs) (λ cs. cs) 0 (λ r. 0) a_processor (λ x s. ok ([], s))
      (CompleteMessage.index_update (record { folder = 102 ∷ []; files = a_file ∷ [] })) a_peer
      a_state

handle_complete_message-Asks_example :
    (results_of handled ≡ event request_created ∷ [])
    × (update_index {E = ℕ}
          (λ bs. bs)
          (λ cs. cs)
          0
          (λ r. 0)
          a_processor
          (record { folder = 102 ∷ []; files = a_file ∷ [] })
          a_peer
          a_state.tables
        ≡ ok (state_of handled a_state).tables)
    × AreQueued a_processor
        (state_of handled a_state).tables.db
        (state_of handled a_state).requests.outgoing_requests
unfolding handle_complete_message handle_index_update index_or_panic request_blocks update_index
    index blocks_info index_of insert_index insert_file_info diff_indices diff_loop place
    place_existing max_counter partial_cmp_file_version insert_all insert_requests
    requests_from_blocks store_outgoing_requests rm_replace_file_info number_files next_sequence_id
    replace_files replace_file insert_file_row delete_files insert_versions push_blocks
    insert_request remove_old_requests contains ◌+ℤ◌ ◌-ℤ◌
handle_complete_message-Asks_example =
    handle_complete_message-Asks {E = ℕ} (λ bs. bs) (λ cs. cs) 0 (λ r. 0) a_processor
      (λ x s. ok ([], s))
      (CompleteMessage.index_update (record { folder = 102 ∷ []; files = a_file ∷ [] })) a_peer
      a_state (state_of handled a_state) (results_of handled) refl
