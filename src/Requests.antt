-- ===== src/Requests.antt =====
-- The queue of requests to a peer, src/core/outgoing_requests.rs. An `Instant` is a number of
-- nanoseconds, the clock is an argument, and the difference of two instants stops at zero.
pub mod Keys
pub mod Limits
pub mod Accounts
pub mod Steps
mod Tests
use grizol.Prelude.{
  ℕ, ◌+◌, ◌-◌, ◌*◌, ◌^◌, ◌≡◌, refl, Bool, true, false, not, ◌&&◌, ◌||◌, Option, none, some, List,
  [], ◌∷◌, ◌++◌, map, length, ltb, leb, ◌==◌, if◌then◌else◌,
}
use grizol.Prelude.Int.{ℤ, pos, negsuc}
use grizol.Prelude.Keys.{Eq, int_eq, nat_eq, bytes_eq, Dict, lookup, insert, erase}
use grizol.Prelude.Outcome.{Outcome, ok, panic, ◌>>=◌, ◌>>◌, assert, unwrap}
use grizol.Prelude.Bytes.{Bytes}
use grizol.Proto.{Request}
use grizol.Parser.Incoming.{sub_usize}
use grizol.Requests.Keys.{OutgoingRequest, key_eq, to_outgoing, before}

abbrev pub Instant : Type 0
Instant = ℕ

-- MAX_TIME_IN_QUEUE, twelve hours.
abbrev pub max_time_in_queue : ℕ
max_time_in_queue = 60 * 60 * 12 * 1000000000

-- `size as usize` of an `i32`.
abbrev pub as_usize : ℤ → ℕ
as_usize (pos n) = n
as_usize (negsuc n) = 2 ^ 64 - 1 - n

abbrev pub add_usize : {E : Type 0} → ℕ → ℕ → Outcome E ℕ
add_usize a b = if ltb (a + b) (2 ^ 64) then ok (a + b) else panic

-- The entries of `requests_by_request`, in the order of their keys.
abbrev pub Queue : Type 0
Queue = Dict OutgoingRequest (ℤ × Instant)

abbrev pub insert_in_order : OutgoingRequest → ℤ × Instant → Queue → Queue
insert_in_order k v [] = (k, v) ∷ []
insert_in_order k v ((j, w) ∷ m) =
    if key_eq.beq j k
    then (k, v) ∷ m
    else if before k j
    then (k, v) ∷ (j, w) ∷ m
    else (j, w) ∷ insert_in_order k v m

module _ {A : Type 0} ⦃e : Eq A⦄ where
  -- A `HashSet`, as a list without repetition.
  unfoldable pub contains : A → List A → Bool
  contains a [] = false
  contains a (x ∷ xs) = e.beq x a || contains a xs

  unfoldable pub add : A → List A → List A
  add a xs = if contains a xs then xs else xs ++ a ∷ []

  pub add_new : (a : A) (xs : List A) → contains a xs ≡ false → add a xs ≡ xs ++ a ∷ []
  unfolding add
  add_new a xs h = rw h

  unfoldable pub discard : A → List A → List A
  discard a [] = []
  discard a (x ∷ xs) = let rest = discard a xs in if e.beq x a then rest else x ∷ rest

pub record OutgoingRequests : Type 0 where
  pub requests_by_id : Dict ℤ Request
  pub requests_by_request : Queue
  pub pending_requests : List OutgoingRequest
  pub requested_size : ℕ

abbrev pub new_requests : OutgoingRequests
new_requests = record {
  requests_by_id = [];
  requests_by_request = [];
  pending_requests = [];
  requested_size = 0;
}

abbrev pub get : ℤ → OutgoingRequests → Option Request
get request_id s = lookup request_id s.requests_by_id

abbrev pub is_some {ℓ} : {A : Type ℓ} → Option A → Bool
is_some none = false
is_some (some a) = true

remove_found :
    {E : Type 0}
    → ℤ
    → Option Request
    → OutgoingRequests
    → Outcome E (Option Request × OutgoingRequests)
remove_found request_id none s = ok (none, s)
remove_found request_id (some r) s = do
  outgoing_request ← to_outgoing r
  assert (is_some (lookup outgoing_request s.requests_by_request))
  assert (contains outgoing_request s.pending_requests)
  assert (leb (as_usize outgoing_request.size) s.requested_size)
  ok (
    some r,
    record {
      requests_by_id = erase request_id s.requests_by_id;
      requests_by_request = erase outgoing_request s.requests_by_request;
      pending_requests = discard outgoing_request s.pending_requests;
      requested_size = s.requested_size - as_usize outgoing_request.size;
    },
  )

unfoldable pub remove :
    {E : Type 0} → ℤ → OutgoingRequests → Outcome E (Option Request × OutgoingRequests)
unfolding remove_found
remove request_id s = remove_found request_id (get request_id s) s

-- `None` for a request that is in the queue.
unfoldable pub insert_request :
    {E : Type 0}
    → Instant
    → ℤ
    → Request
    → OutgoingRequests
    → Outcome E (Option Request × OutgoingRequests)
insert_request now request_id request s = do
  outgoing_request ← to_outgoing request
  if is_some (lookup outgoing_request s.requests_by_request)
      then ok (none, s)
      else ok (
        some request,
        record s {
          requests_by_request =
              insert_in_order outgoing_request (request_id, now) s.requests_by_request;
          requests_by_id = insert request_id request s.requests_by_id;
        },
      )

-- The ids of the requests that have been in the queue for less than the limit.
abbrev pub waiting_ids : Instant → Queue → List ℤ
waiting_ids now [] = []
waiting_ids now ((k, (id, created)) ∷ m) =
    let rest = waiting_ids now m in
    if ltb (now - created) max_time_in_queue then id ∷ rest else rest

-- The two `retain` calls.
abbrev pub retain_ids : List ℤ → Dict ℤ Request → Dict ℤ Request
retain_ids ids [] = []
retain_ids ids ((id, r) ∷ m) =
    let rest = retain_ids ids m in if contains id ids then (id, r) ∷ rest else rest

abbrev pub retain_entries : List ℤ → Queue → Queue
retain_entries ids [] = []
retain_entries ids ((k, v) ∷ m) =
    let rest = retain_entries ids m in if contains v.0 ids then (k, v) ∷ rest else rest

abbrev pub sum_sizes : List OutgoingRequest → ℕ
sum_sizes [] = 0
sum_sizes (k ∷ ks) = as_usize k.size + sum_sizes ks

-- The pending requests that are (`keep` is true) or are not in the queue.
abbrev pub in_queue : Bool → Queue → List OutgoingRequest → List OutgoingRequest
in_queue keep queue [] = []
in_queue keep queue (k ∷ ks) =
    let rest = in_queue keep queue ks in
    let there = is_some (lookup k queue) in
    if (if keep then there else not there) then k ∷ rest else rest

unfoldable pub remove_old_requests :
    {E : Type 0} → Instant → OutgoingRequests → Outcome E OutgoingRequests
remove_old_requests now s = do
  let waiting = waiting_ids now s.requests_by_request
  let queue = retain_entries waiting s.requests_by_request
  let size_to_remove = sum_sizes (in_queue false queue s.pending_requests)
  assert (leb size_to_remove s.requested_size)
  ok (record {
    requests_by_id = retain_ids waiting s.requests_by_id;
    requests_by_request = queue;
    pending_requests = in_queue true queue s.pending_requests;
    requested_size = s.requested_size - size_to_remove;
  })

-- The locals of the loop of `update_pending_requests`, with the fields that it changes.
pub record Round : Type 0 where
  pub processed_requests : List Request
  pub pending_requests : List OutgoingRequest
  pub requested_size : ℕ
  pub file_names : List Bytes

-- The body of the loop below its three `break`s.
unfoldable pub send_if_new :
    {E : Type 0} → Dict ℤ Request → OutgoingRequest → ℤ → ℕ → Round → Outcome E Round
send_if_new by_id k id size r =
    if contains k r.pending_requests
    then ok r
    else (unwrap (lookup id by_id) >>= λ request. ok (record {
      processed_requests = r.processed_requests ++ request ∷ [];
      pending_requests = add k r.pending_requests;
      requested_size = size;
      file_names = add k.name r.file_names;
    }))

abbrev pub max_files : ℕ
max_files = 10

unfoldable pub update_loop : {E : Type 0} → ℕ → ℕ → Dict ℤ Request → Queue → Round → Outcome E Round
update_loop free_slots max_storage_area by_id [] r = ok r
update_loop free_slots max_storage_area by_id ((k, (id, created)) ∷ queue) r =
    let go_on = (do
      size ← add_usize r.requested_size (as_usize k.size)
      let sent =
          (send_if_new by_id k id size r >>= update_loop free_slots max_storage_area by_id queue)
      if ltb max_storage_area size then ok r else sent) in
    if leb max_files (length r.file_names) && not (contains k.name r.file_names)
    then ok r
    else if leb free_slots (length r.processed_requests)
    then ok r
    else go_on

abbrev names_of : List OutgoingRequest → List Bytes
names_of [] = []
names_of (k ∷ ks) = add k.name (names_of ks)

unfoldable pub update_pending_requests :
    {E : Type 0} → ℕ → ℕ → OutgoingRequests → Outcome E (List Request × OutgoingRequests)
unfolding update_loop
update_pending_requests max_pending max_storage_area s = do
  free_slots ← sub_usize max_pending (length s.pending_requests)
  r ← update_loop free_slots max_storage_area s.requests_by_id s.requests_by_request (record {
    processed_requests = [];
    pending_requests = s.pending_requests;
    requested_size = s.requested_size;
    file_names = names_of s.pending_requests;
  })
  ok (
    r.processed_requests,
    record s { pending_requests = r.pending_requests; requested_size = r.requested_size },
  )
