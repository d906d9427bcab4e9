-- ===== src/Processor/Tests.antt =====
-- Files in two versions, a block to ask for and its response, and an instance of each theorem on them.
use grizol.Prelude.{ℕ, ◌≡◌, refl, true, false, none, some, [], ◌∷◌}
use grizol.Prelude.Int.{pos, ◌+ℤ◌, ◌-ℤ◌}
use grizol.Prelude.Outcome.{ok, panic}
use grizol.Prelude.Bytes.{Bytes}
use grizol.Proto.{FileInfo, Index, Request, Response}
use grizol.Requests.{
  OutgoingRequests, new_requests, contains, add, discard, send_if_new, insert_request, remove,
  remove_old_requests, update_pending_requests,
}
use grizol.Requests.Steps.{Reachable, start, step, inserted, updated}
use grizol.Processor.{
  IndexDiff, max_counter, partial_cmp_file_version, files_by_name, place, diff_loop, diff_indices,
  BlockInfoExt, request_of, requests_from_blocks, RequestState, insert_all, insert_requests,
  store_outgoing_requests,
}
use grizol.Processor.Diff.{place-tie, newer_files, diff_indices-newer}
use grizol.Processor.Responses.{Stored, event, process_response, handle_response}
use grizol.Processor.Answers.{Answered, handle_response-Answered}
use grizol.Wire.{request_processed}

-- A file that the device `device` changed last, in the version `value`.
abbrev some_file : Bytes → ℕ → ℕ → FileInfo
some_file name device value = record {
  name = name;
  type_code = pos 0;
  size = pos 40;
  permissions = 0;
  modified_s = pos 7;
  modified_ns = pos 0;
  modified_by = device;
  deleted = false;
  invalid = false;
  no_permissions = true;
  version = some (record {
    counters = record { id = 9; value = 1 } ∷ record { id = device; value = value } ∷ [];
  });
  sequence = pos 1;
  block_size = pos 40;
  blocks = [];
  symlink_target = [];
}

abbrev no_diff : IndexDiff
no_diff = record {
  newly_added_files = [];
  newly_added_conflicting_files = [];
  existing_conflicting_files = [];
}

place-tie_example : place (some (some_file [] 1 4)) (some_file [] 2 4) no_diff ≡ panic
unfolding partial_cmp_file_version max_counter
place-tie_example = place-tie (some_file [] 1 4) (some_file [] 2 4) no_diff refl refl refl

abbrev received : Index
received = record {
  folder = 102 ∷ [];
  files = some_file (97 ∷ []) 1 3 ∷ some_file (98 ∷ []) 1 3 ∷ some_file (99 ∷ []) 1 3 ∷ [];
}

abbrev known : Index
known = record { folder = 102 ∷ []; files = some_file (97 ∷ []) 1 2 ∷ some_file (98 ∷ []) 1 3 ∷ [] }

abbrev found : IndexDiff
found = record no_diff {
  newly_added_files = some_file (97 ∷ []) 1 3 ∷ some_file (99 ∷ []) 1 3 ∷ [];
}

is_found : diff_indices (102 ∷ []) received known ≡ ok found
unfolding diff_indices diff_loop place partial_cmp_file_version max_counter
is_found = refl

diff_indices-newer_example :
    found.newly_added_files ≡ newer_files (files_by_name known.files []) received.files
diff_indices-newer_example = diff_indices-newer (102 ∷ []) received known found is_found

abbrev some_block : BlockInfoExt
some_block = record {
  device_id = record { id = [] };
  folder = 102 ∷ [];
  name = 97 ∷ [];
  hash =
      7 ∷ 7 ∷ 7 ∷ 7 ∷ 7 ∷ 7 ∷ 7 ∷ 7 ∷ 7 ∷ 7 ∷ 7 ∷ 7 ∷ 7 ∷ 7 ∷ 7 ∷ 7 ∷ 7 ∷ 7 ∷ 7 ∷ 7 ∷ 7 ∷ 7 ∷ 7 ∷ 7
      ∷ 7 ∷ 7 ∷ 7 ∷ 7 ∷ 7 ∷ 7 ∷ 7 ∷ 7 ∷ [];
  size = pos 40;
  offset = pos 0;
}

abbrev block_request : Request
block_request = request_of (pos 6) some_block

abbrev block_queued : OutgoingRequests
block_queued = record {
  requests_by_id = (pos 6, block_request) ∷ [];
  requests_by_request =
      (
        record {
          folder = 102 ∷ [];
          name = 97 ∷ [];
          offset = pos 0;
          size = pos 40;
          hash = some_block.hash;
          from_temporary = false;
        },
        (pos 6, 3),
      )
      ∷ [];
  pending_requests = [];
  requested_size = 0;
}

abbrev before_store : RequestState
before_store = record { request_id = pos 5; outgoing_requests = new_requests }

abbrev after_store : RequestState
after_store = record { request_id = pos 6; outgoing_requests = block_queued }

is_stored :
    store_outgoing_requests {E = ℕ} 3 (λ _. 3) (some_block ∷ []) before_store
    ≡ ok (block_request ∷ [], after_store)
unfolding store_outgoing_requests requests_from_blocks insert_requests insert_all insert_request
    remove_old_requests ◌+ℤ◌ ◌-ℤ◌
is_stored = refl

abbrev block_pending : OutgoingRequests
block_pending = record block_queued {
  pending_requests =
      record {
        folder = 102 ∷ [];
        name = 97 ∷ [];
        offset = pos 0;
        size = pos 40;
        hash = some_block.hash;
        from_temporary = false;
      }
      ∷ [];
  requested_size = 40;
}

block_pending-Reachable : Reachable ℕ 2 100 block_pending
unfolding insert_request update_pending_requests send_if_new contains add
block_pending-Reachable =
    step (step start (inserted 3 (pos 6) block_request (some block_request) refl))
      (updated (block_request ∷ []) refl)

-- Storing works, and no other task touches the queue.
abbrev quiet : Stored ℕ
quiet request response s = ok (none, s)

abbrev some_response : Response
some_response = record { id = pos 6; bytes = []; code = pos 0 }

is_processed :
    process_response quiet some_response block_pending ≡ ok (event request_processed, new_requests)
unfolding process_response remove contains discard
is_processed = refl

is_handled :
    handle_response quiet some_response block_pending
    ≡ ok (event request_processed ∷ [], new_requests)
unfolding handle_response process_response remove contains discard
is_handled = refl

handle_response-Answered_example :
    Answered quiet some_response block_pending new_requests (event request_processed ∷ [])
handle_response-Answered_example =
    handle_response-Answered quiet some_response block_pending new_requests
      (event request_processed ∷ []) is_handled
