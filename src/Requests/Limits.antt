-- ===== src/Requests/Limits.antt =====
-- `update_pending_requests` keeps to its limits, and accounts for what it sends.
use grizol.Prelude.{
  ℕ, ◌+◌, ◌≤◌, ◌<◌, ◌≡◌, refl, List, [], ◌∷◌, ◌++◌, length, length-append, inl, inr, Option-cases,
  arith,
}
use grizol.Prelude.Int.{ℤ}
use grizol.Prelude.Keys.{Dict, int_eq, lookup}
use grizol.Prelude.Outcome.{ok, ◌>>=◌, >>=-eq-ok}
use grizol.Proto.{Request}
use grizol.Parser.Incoming.{sub_usize}
use grizol.Requests.Keys.{OutgoingRequest, key_eq}
use grizol.Requests.Accounts.{Distinct, append-Distinct}
use grizol.Requests.{
  Queue, Round, OutgoingRequests, as_usize, add_new, sum_sizes, send_if_new, update_loop,
  update_pending_requests, names_of,
}

sum_sizes-append :
    (xs ys : List OutgoingRequest) → sum_sizes (xs ++ ys) ≡ sum_sizes xs + sum_sizes ys
sum_sizes-append [] ys = omega arith
sum_sizes-append (x ∷ xs) ys = omega (arith, sum_sizes-append xs ys)

-- What holds in every round: `most` requests may be processed, and `area` bytes may be pending.
pub record InLimits (start most area : ℕ) (r : Round) : Type 0 where
  pub slots : length r.processed_requests ≤ most
  pub counted : length r.pending_requests ≡ start + length r.processed_requests
  pub sized : r.requested_size ≡ sum_sizes r.pending_requests
  pub fits : r.requested_size ≤ area
  pub distinct : Distinct r.pending_requests

processed_one :
    (r : Round) (x : Request)
    → length (r.processed_requests ++ x ∷ []) ≡ length r.processed_requests + 1
processed_one r x = omega (arith, length-append r.processed_requests (x ∷ []))

send_if_new-InLimits :
    {E : Type 0} (start most area : ℕ) (by_id : Dict ℤ Request) (k : OutgoingRequest) (id : ℤ)
    (size : ℕ) (r q : Round)
    → InLimits start most area r
    → length r.processed_requests < most
    → size ≡ r.requested_size + as_usize k.size
    → size ≤ area
    → send_if_new {E = E} by_id k id size r ≡ ok q
    → InLimits start most area q
unfolding send_if_new
send_if_new-InLimits start most area by_id k id size r q h m e f g =
    elim (Option-cases (lookup id by_id)) [
      | inl none_there ↦ ground arith
      | inr (x, there) ↦ ground (
        arith,
        add_new k r.pending_requests,
        length-append r.pending_requests (k ∷ []),
        sum_sizes-append r.pending_requests (k ∷ []),
        processed_one r x,
        append-Distinct k r.pending_requests,
      )
    ]

update_loop-InLimits :
    {E : Type 0} (start most area : ℕ) (by_id : Dict ℤ Request) (queue : Queue) (r q : Round)
    → InLimits start most area r
    → update_loop {E = E} most area by_id queue r ≡ ok q
    → InLimits start most area q
unfolding update_loop
update_loop-InLimits start most area by_id [] r q h e = ground arith
update_loop-InLimits {E} start most area by_id ((k, (id, created)) ∷ queue) r q h e =
    let size = r.requested_size + as_usize k.size in
    let sent = send_if_new {E = E} by_id k id size r >>= update_loop most area by_id queue in
    let by_sent : length r.processed_requests < most
        → size ≤ area
        → sent ≡ ok q
        → InLimits start most area q =
      λ few fits g.
        let (r', here, rest) =
          >>=-eq-ok (send_if_new by_id k id size r) (update_loop most area by_id queue) g in
        update_loop-InLimits start most area by_id queue r' q
          (send_if_new-InLimits start most area by_id k id size r r' h few refl fits here) rest in
    ground (arith, by_sent)

-- If update_pending_requests returns on a state with distinct pending requests, whose sizes sum to
-- requested_size, which is at most max_storage_area, then all this holds of the new state, which has
-- at most max_pending pending requests: one more than before for every request returned.
pub update_pending_requests-limits :
    {E : Type 0} (max_pending max_storage_area : ℕ) (s s' : OutgoingRequests) (sent : List Request)
    → Distinct s.pending_requests
    → s.requested_size ≡ sum_sizes s.pending_requests
    → s.requested_size ≤ max_storage_area
    → update_pending_requests {E = E} max_pending max_storage_area s ≡ ok (sent, s')
    → (length s'.pending_requests ≤ max_pending)
      × Distinct s'.pending_requests
      × (s'.requested_size ≤ max_storage_area)
      × (s'.requested_size ≡ sum_sizes s'.pending_requests)
      × (length s'.pending_requests ≡ length s.pending_requests + length sent)
unfolding update_pending_requests
update_pending_requests-limits {E} max_pending area s s' sent d h f e =
    let start : Round = record {
      processed_requests = [];
      pending_requests = s.pending_requests;
      requested_size = s.requested_size;
      file_names = names_of s.pending_requests;
    } in
    let (free, slots, rest) =
      >>=-eq-ok (sub_usize {E = E} max_pending (length s.pending_requests)) _ e in
    let (r, loop, done) =
      >>=-eq-ok (update_loop {E = E} free area s.requests_by_id s.requests_by_request start) _
        rest in
    let i =
      update_loop-InLimits (length s.pending_requests) free area s.requests_by_id
        s.requests_by_request start r
        (record { slots = omega arith; counted = omega arith; sized = h; fits = f; distinct = d })
        loop in
    ground (arith, i.slots, i.counted, i.sized, i.fits, i.distinct)
