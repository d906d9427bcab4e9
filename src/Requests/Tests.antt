-- ===== src/Requests/Tests.antt =====
-- A request that is queued, sent and answered, and an instance of each theorem on the way.
use grizol.Prelude.{ℕ, ◌+◌, ◌≤◌, ◌≡◌, refl, false, some, [], ◌∷◌, length, arith}
use grizol.Prelude.Int.{pos}
use grizol.Prelude.Keys.{int_eq}
use grizol.Prelude.Outcome.{ok}
use grizol.Proto.{Request}
use grizol.Requests.Keys.{OutgoingRequest}
use grizol.Requests.{
  OutgoingRequests, new_requests, sum_sizes, contains, add, discard, send_if_new, remove,
  insert_request, remove_old_requests, update_pending_requests,
}
use grizol.Requests.Accounts.{Distinct}
use grizol.Requests.Limits.{update_pending_requests-limits}
use grizol.Requests.Steps.{
  IsAccounted, inserted, updated, Reachable, start, step, reachable-IsAccounted,
  remove_old_requests-returns,
}

abbrev some_request : Request
some_request = record {
  id = pos 5;
  folder = 102 ∷ [];
  name = 110 ∷ [];
  offset = pos 0;
  size = pos 40;
  hash =
      7 ∷ 7 ∷ 7 ∷ 7 ∷ 7 ∷ 7 ∷ 7 ∷ 7 ∷ 7 ∷ 7 ∷ 7 ∷ 7 ∷ 7 ∷ 7 ∷ 7 ∷ 7 ∷ 7 ∷ 7 ∷ 7 ∷ 7 ∷ 7 ∷ 7 ∷ 7 ∷ 7
      ∷ 7 ∷ 7 ∷ 7 ∷ 7 ∷ 7 ∷ 7 ∷ 7 ∷ 7 ∷ [];
  from_temporary = false;
}

abbrev some_key : OutgoingRequest
some_key = record {
  folder = some_request.folder;
  name = some_request.name;
  offset = pos 0;
  size = pos 40;
  hash = some_request.hash;
  from_temporary = false;
}

abbrev queued : OutgoingRequests
queued = record {
  requests_by_id = (pos 5, some_request) ∷ [];
  requests_by_request = (some_key, (pos 5, 1000)) ∷ [];
  pending_requests = [];
  requested_size = 0;
}

abbrev waiting : OutgoingRequests
waiting = record queued { pending_requests = some_key ∷ []; requested_size = 40 }

is_queued :
    insert_request {E = ℕ} 1000 (pos 5) some_request new_requests ≡ ok (some some_request, queued)
unfolding insert_request
is_queued = refl

is_waiting : update_pending_requests {E = ℕ} 2 100 queued ≡ ok (some_request ∷ [], waiting)
unfolding update_pending_requests send_if_new contains add
is_waiting = refl

is_answered : remove {E = ℕ} (pos 5) waiting ≡ ok (some some_request, new_requests)
unfolding remove contains discard
is_answered = refl

-- Twelve hours later it is gone, and its bytes are free again.
is_expired : remove_old_requests {E = ℕ} (1000 + 43200000000000) waiting ≡ ok new_requests
unfolding remove_old_requests contains
is_expired = refl

waiting-Reachable : Reachable ℕ 2 100 waiting
waiting-Reachable =
    step (step start (inserted 1000 (pos 5) some_request (some some_request) is_queued))
      (updated (some_request ∷ []) is_waiting)

update_pending_requests-limits_example :
    (length waiting.pending_requests ≤ 2)
    × Distinct waiting.pending_requests
    × (waiting.requested_size ≤ 100)
    × (waiting.requested_size ≡ sum_sizes waiting.pending_requests)
    × (length waiting.pending_requests
        ≡ length queued.pending_requests + length (some_request ∷ []))
update_pending_requests-limits_example =
    update_pending_requests-limits 2 100 queued waiting (some_request ∷ []) tt refl (omega arith)
      is_waiting

reachable-IsAccounted_example : IsAccounted 2 100 waiting
reachable-IsAccounted_example = reachable-IsAccounted 2 100 waiting waiting-Reachable

remove_old_requests-returns_example :
    (s' : OutgoingRequests) × (remove_old_requests {E = ℕ} 43200000001000 waiting ≡ ok s')
remove_old_requests-returns_example =
    remove_old_requests-returns 2 100 43200000001000 waiting waiting-Reachable
