-- ===== src/Requests/Steps.antt =====
-- The states that the operations of `OutgoingRequests` reach.
use grizol.Prelude.{
  ℕ, ◌≤◌, ◌≡◌, refl, Bool, true, false, Option, none, some, List, length, leb, ◌⊎◌, inl, inr,
  Option-cases, if◌then◌else◌, arith,
}
use grizol.Prelude.Int.{ℤ}
use grizol.Prelude.Keys.{int_eq, lookup, lookup-insert, lookup-erase}
use grizol.Prelude.Outcome.{ok, panic, ◌>>◌, assert}
use grizol.Proto.{Request}
use grizol.Requests.Keys.{OutgoingRequest, key_eq, to_outgoing}
use grizol.Requests.{
  Instant, OutgoingRequests, new_requests, get, contains, sum_sizes, in_queue, retain_entries,
  waiting_ids, remove, insert_request, remove_old_requests, update_pending_requests,
}
use grizol.Requests.Accounts.{
  Distinct, discard-Distinct, sum_sizes-discard, in_queue-Distinct, sum_sizes-in_queue,
  length-in_queue, length-discard,
}
use grizol.Requests.Limits.{update_pending_requests-limits}

-- The pending requests are distinct, counted and within the limits.
pub record IsAccounted (max_pending max_storage_area : ℕ) (s : OutgoingRequests) : Type 0 where
  pub distinct : Distinct s.pending_requests
  pub counted : s.requested_size ≡ sum_sizes s.pending_requests
  pub few : length s.pending_requests ≤ max_pending
  pub small : s.requested_size ≤ max_storage_area

-- One call that returned, on the limits of the configuration.
pub data Step (E : Type 0) (max_pending max_storage_area : ℕ) (s s' : OutgoingRequests)
    : Type 0 where
  inserted :
      (now : Instant) (id : ℤ) (request : Request) (res : Option Request)
      → insert_request {E = E} now id request s ≡ ok (res, s')
      → Step E max_pending max_storage_area s s'
  removed :
      (id : ℤ) (res : Option Request)
      → remove {E = E} id s ≡ ok (res, s')
      → Step E max_pending max_storage_area s s'
  expired :
      (now : Instant)
      → remove_old_requests {E = E} now s ≡ ok s'
      → Step E max_pending max_storage_area s s'
  updated :
      (sent : List Request)
      → update_pending_requests {E = E} max_pending max_storage_area s ≡ ok (sent, s')
      → Step E max_pending max_storage_area s s'

pub data Reachable (E : Type 0) (max_pending max_storage_area : ℕ) : OutgoingRequests → Type 0 where
  start : Reachable E max_pending max_storage_area new_requests
  step :
      {s s' : OutgoingRequests}
      → Reachable E max_pending max_storage_area s
      → Step E max_pending max_storage_area s s'
      → Reachable E max_pending max_storage_area s'

remove-IsAccounted :
    {E : Type 0} (p a : ℕ) (s s' : OutgoingRequests) (id : ℤ) (res : Option Request)
    → IsAccounted p a s
    → remove {E = E} id s ≡ ok (res, s')
    → IsAccounted p a s'
unfolding remove
remove-IsAccounted p a s s' id res h e = elim (Option-cases (lookup id s.requests_by_id)) [
  | inl absent ↦ ground arith
  | inr (r, there) ↦
      let k : OutgoingRequest = record {
        folder = r.folder;
        name = r.name;
        offset = r.offset;
        size = r.size;
        hash = r.hash;
        from_temporary = r.from_temporary;
      } in
      ground (
        arith,
        sum_sizes-discard k s.pending_requests,
        discard-Distinct k s.pending_requests,
        length-discard k s.pending_requests,
      )
]

insert_request-IsAccounted :
    {E : Type 0} (p a : ℕ) (s s' : OutgoingRequests) (now : Instant) (id : ℤ) (request : Request)
    (res : Option Request)
    → IsAccounted p a s
    → insert_request {E = E} now id request s ≡ ok (res, s')
    → IsAccounted p a s'
unfolding insert_request
insert_request-IsAccounted p a s s' now id request res h e = ground arith

remove_old_requests-IsAccounted :
    {E : Type 0} (p a : ℕ) (s s' : OutgoingRequests) (now : Instant)
    → IsAccounted p a s
    → remove_old_requests {E = E} now s ≡ ok s'
    → IsAccounted p a s'
unfolding remove_old_requests
remove_old_requests-IsAccounted p a s s' now h e =
    let queue = retain_entries (waiting_ids now s.requests_by_request) s.requests_by_request in
    ground (
      arith,
      sum_sizes-in_queue queue s.pending_requests,
      in_queue-Distinct true queue s.pending_requests,
      length-in_queue queue s.pending_requests,
    )

Step-IsAccounted :
    {E : Type 0} (p a : ℕ) (s s' : OutgoingRequests)
    → IsAccounted p a s
    → Step E p a s s'
    → IsAccounted p a s'
Step-IsAccounted p a s s' h (inserted now id request res e) =
    insert_request-IsAccounted p a s s' now id request res h e
Step-IsAccounted p a s s' h (removed id res e) = remove-IsAccounted p a s s' id res h e
Step-IsAccounted p a s s' h (expired now e) = remove_old_requests-IsAccounted p a s s' now h e
Step-IsAccounted p a s s' h (updated sent e) =
    let (few, distinct, small, counted, more) =
      update_pending_requests-limits p a s s' sent h.distinct h.counted h.small e in
    record { distinct = distinct; counted = counted; few = few; small = small }

-- In every state that calls of insert, remove, remove_old_requests and update_pending_requests reach
-- from the empty queue, with the same limits in every update, the pending requests are distinct,
-- requested_size is the sum of their sizes, there are at most max_pending of them, and they ask for
-- at most max_storage_area bytes.
pub reachable-IsAccounted :
    {E : Type 0} (max_pending max_storage_area : ℕ) (s : OutgoingRequests)
    → Reachable E max_pending max_storage_area s
    → IsAccounted max_pending max_storage_area s
reachable-IsAccounted p a s start = record {
  distinct = tt;
  counted = refl;
  few = omega arith;
  small = omega arith;
}
reachable-IsAccounted p a s' (step {s} before now) =
    Step-IsAccounted p a s s' (reachable-IsAccounted p a s before) now

assert-returns :
    {E A : Type 0} (b : Bool) (a : A) → b ≡ true → (x : A) × ((assert {E = E} b >> ok a) ≡ ok x)
assert-returns true a h = (a, refl)
assert-returns false a h = absurd (cc)

-- In every reachable state remove_old_requests returns: its assertion on requested_size holds.
pub remove_old_requests-returns :
    {E : Type 0} (max_pending max_storage_area : ℕ) (now : Instant) (s : OutgoingRequests)
    → Reachable E max_pending max_storage_area s
    → (s' : OutgoingRequests) × (remove_old_requests {E = E} now s ≡ ok s')
unfolding remove_old_requests
remove_old_requests-returns p a now s h =
    let i = reachable-IsAccounted p a s h in
    let queue = retain_entries (waiting_ids now s.requests_by_request) s.requests_by_request in
    let fits : leb (sum_sizes (in_queue false queue s.pending_requests)) s.requested_size ≡ true =
      let both = sum_sizes-in_queue queue s.pending_requests in
      let total = i.counted in ground arith in
    assert-returns _ _ fits

-- An insert that returns either refuses the request and changes nothing, or takes it: then the
-- request is found by its id, the other ids keep their requests, and nothing becomes pending.
pub insert_request-get :
    {E : Type 0} (now : Instant) (id other : ℤ) (request : Request) (s s' : OutgoingRequests)
    (res : Option Request)
    → insert_request {E = E} now id request s ≡ ok (res, s')
    → ((res ≡ none) × (s' ≡ s))
      ⊎ ((res ≡ some request)
          × (get other s' ≡ (if int_eq.beq id other then some request else get other s))
          × (s'.pending_requests ≡ s.pending_requests))
unfolding insert_request
insert_request-get now id other request s s' res h =
    ground (arith, lookup-insert id other request s.requests_by_id)

-- A remove that returns gives what the id had; the id has no request any more, and the other ids
-- keep theirs.
pub remove-get :
    {E : Type 0} (id other : ℤ) (s s' : OutgoingRequests) (res : Option Request)
    → remove {E = E} id s ≡ ok (res, s')
    → (res ≡ get id s) × (get other s' ≡ (if int_eq.beq id other then none else get other s))
unfolding remove
remove-get id other s s' res h = ground (arith, lookup-erase id other s.requests_by_id)

-- If an id has a request whose hash has 32 bytes and that is not pending, then remove of this id
-- unwinds.
pub remove-unsent :
    {E : Type 0} (id : ℤ) (s : OutgoingRequests) (r : Request) (k : OutgoingRequest)
    → get id s ≡ some r
    → to_outgoing {E = E} r ≡ ok k
    → contains k s.pending_requests ≡ false
    → remove {E = E} id s ≡ panic
unfolding remove
remove-unsent id s r k h g f = ground arith
