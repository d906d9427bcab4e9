-- ===== src/Processor/Responses.antt =====
-- What a response does, `handle_response` and `process_response` of src/core/bep_processor.rs, on the
-- queue of requests. Storing the data is I/O, during which the lock on the queue is free, and a
-- parameter: `stored` is what `store_response_data` returns for a request and its response, `none` for
-- `Ok(())`, with what other tasks have made of the queue meanwhile.
use grizol.Prelude.{ℕ, zero, suc, Option, none, some, List, [], ◌∷◌}
use grizol.Prelude.Int.{ℤ, pos, negsuc}
use grizol.Prelude.Keys.{int_eq}
use grizol.Prelude.Outcome.{Outcome, ok, panic, ◌>>=◌}
use grizol.Proto.{Request, Response}
use grizol.Wire.{GrizolEvent, request_processed}
use grizol.Requests.{OutgoingRequests, get, remove}

pub data BepProcessorError : Type 0 where
  no_associated_request wrong_data_in_response error_in_response : BepProcessorError
  file_not_in_index storage_error state_error : BepProcessorError

-- `Result<GrizolEvent, BepProcessorError>`
pub data EventResult : Type 0 where
  event : GrizolEvent → EventResult
  failed : BepProcessorError → EventResult

pub data ErrorCode : Type 0 where
  no_error generic no_such_file invalid_file : ErrorCode

abbrev nth_error_code : ℕ → Option ErrorCode
nth_error_code zero = some no_error
nth_error_code (suc zero) = some generic
nth_error_code (suc (suc zero)) = some no_such_file
nth_error_code (suc (suc (suc zero))) = some invalid_file
nth_error_code (suc (suc (suc (suc n)))) = none

-- `ErrorCode::try_from(code)`
abbrev pub error_code_of : ℤ → Option ErrorCode
error_code_of (pos n) = nth_error_code n
error_code_of (negsuc n) = none

abbrev pub result_of : Option BepProcessorError → EventResult
result_of none = event request_processed
result_of (some e) = failed e

abbrev pub Stored : Type 0 → Type 0
Stored E =
    Request → Response → OutgoingRequests → Outcome E (Option BepProcessorError × OutgoingRequests)

module _ {E : Type 0} (stored : Stored E) where
  process_found :
      Option Request → Response → OutgoingRequests → Outcome E (EventResult × OutgoingRequests)
  process_found none response s = ok (failed no_associated_request, s)
  process_found (some request) response s = do
    (res, s') ← stored request response s
    (gone, s'') ← remove response.id s'
    ok (result_of res, s'')

  unfoldable pub process_response :
      Response → OutgoingRequests → Outcome E (EventResult × OutgoingRequests)
  unfolding process_found
  process_response response s = process_found (get response.id s) response s

  handle_code :
      Option ErrorCode
      → Response
      → OutgoingRequests
      → Outcome E (List EventResult × OutgoingRequests)
  handle_code none response s = panic
  handle_code (some no_error) response s = process_response response s >>= λ x. ok (x.0 ∷ [], x.1)
  handle_code (some generic) response s = ok (failed error_in_response ∷ [], s)
  handle_code (some no_such_file) response s = ok (failed error_in_response ∷ [], s)
  handle_code (some invalid_file) response s = ok (failed error_in_response ∷ [], s)

  unfoldable pub handle_response :
      Response → OutgoingRequests → Outcome E (List EventResult × OutgoingRequests)
  unfolding handle_code
  handle_response response s = handle_code (error_code_of response.code) response s
