-- ===== src/Processor/Answers.antt =====
-- What a response makes of the queue of requests, src/core/bep_processor.rs.
use grizol.Prelude.{
  ℕ, zero, suc, ◌+◌, ◌≤◌, ◌<◌, ◌∙◌, ◌≡◌, refl, sym, subst, ◌⊎◌, inl, inr, true, false, length, ◌==◌,
  Option, none, some, List, [], ◌∷◌, if◌then◌else◌, arith,
}
use grizol.Prelude.Int.{ℤ, pos, negsuc}
use grizol.Prelude.Keys.{int_eq, lookup, erase, lookup-erase}
use grizol.Prelude.Outcome.{Outcome, ok, panic, ◌>>=◌, >>=-eq-ok}
use grizol.Proto.{Request, Response}
use grizol.Requests.Keys.{OutgoingRequest, key_eq, to_outgoing}
use grizol.Requests.{OutgoingRequests, as_usize, contains, discard, get, remove}
use grizol.Processor.Responses.{
  BepProcessorError, no_associated_request, error_in_response, EventResult, failed, result_of,
  Stored, process_response, handle_response,
}

contains-discard :
    (k : OutgoingRequest) (xs : List OutgoingRequest) → contains k (discard k xs) ≡ false
unfolding contains discard
contains-discard k [] = refl
contains-discard k (x ∷ xs) = ground (arith, contains-discard k xs)

-- The queue `t` without the request of an id, which is not pending any more and whose bytes are given back.
abbrev pub Forgets : Type 0 → ℤ → OutgoingRequests → OutgoingRequests → Type 0
Forgets E id t s' =
    ((get id t ≡ none) × (s' ≡ t))
    ⊎ ((r : Request) × (k : OutgoingRequest) × (get id t ≡ some r)
        × (◌≡◌ {A = Outcome E OutgoingRequest} (to_outgoing r) (ok k))
        × (contains k s'.pending_requests ≡ false)
        × (s'.requested_size + as_usize k.size ≡ t.requested_size)
        × ((j : ℤ) → get j s' ≡ (if int_eq.beq id j then none else get j t)))

RemovedQueue : ℤ → OutgoingRequest → OutgoingRequests → OutgoingRequests → Type 0
RemovedQueue id k t s' =
    (s'.requests_by_id ≡ erase id t.requests_by_id)
    × (s'.pending_requests ≡ discard k t.pending_requests)
    × (s'.requested_size + as_usize k.size ≡ t.requested_size)

key_of : Request → OutgoingRequest
key_of r = record {
  folder = r.folder;
  name = r.name;
  offset = r.offset;
  size = r.size;
  hash = r.hash;
  from_temporary = r.from_temporary;
}

remove-removed :
    {E : Type 0} (id : ℤ) (t s' : OutgoingRequests) (res : Option Request) (r : Request)
    → get id t ≡ some r
    → remove {E = E} id t ≡ ok (res, s')
    → ((length r.hash == 32) ≡ true) × RemovedQueue id (key_of r) t s'
unfolding remove key_of RemovedQueue
remove-removed id t s' res r g h = ground (arith, g, h)

remove-none :
    {E : Type 0} (id : ℤ) (t s' : OutgoingRequests) (res : Option Request)
    → get id t ≡ none
    → remove {E = E} id t ≡ ok (res, s')
    → s' ≡ t
unfolding remove
remove-none id t s' res g h = ground (arith, g, h)

remove-Forgets_from :
    {E : Type 0} (id : ℤ) (t s' : OutgoingRequests) (res o : Option Request)
    → get id t ≡ o
    → remove {E = E} id t ≡ ok (res, s')
    → Forgets E id t s'
unfolding key_of RemovedQueue
remove-Forgets_from {E} id t s' res none g h = inl (g, remove-none {E = E} id t s' res g h)
remove-Forgets_from {E} id t s' res (some r) g h =
    let (long, (ids, pending, size)) = remove-removed {E = E} id t s' res r g h in
    inr (
      r,
      key_of r,
      g,
      rw long refl,
      subst (λ xs. contains (key_of r) xs ≡ false) (sym pending)
          (contains-discard (key_of r) t.pending_requests),
      size,
      λ j.
          subst (λ m. lookup j m ≡ (if int_eq.beq id j then none else lookup j t.requests_by_id))
            (sym ids) (lookup-erase id j t.requests_by_id),
    )

pair_eq :
    {E A : Type 0} (a b : A) (s t : OutgoingRequests)
    → ◌≡◌ {A = Outcome E (A × OutgoingRequests)} (ok (a, s)) (ok (b, t))
    → (b ≡ a) × (t ≡ s)
pair_eq a b s t e = (cc, cc)

module _ {E : Type 0} (stored : Stored E) where
  -- What `handle_response` answers, and what it makes of the queue.
  pub data Answered (response : Response) (s s' : OutgoingRequests)
      : List EventResult → Type 0 where
    -- The data went to `store_response_data`, which left the queue `t`.
    processed :
        (request : Request) (e : Option BepProcessorError) (t : OutgoingRequests)
        → response.code ≡ pos 0
        → get response.id s ≡ some request
        → stored request response s ≡ ok (e, t)
        → Forgets E response.id t s'
        → Answered response s s' (result_of e ∷ [])
    unknown :
        response.code ≡ pos 0
        → get response.id s ≡ none
        → s' ≡ s
        → Answered response s s' (failed no_associated_request ∷ [])
    refused :
        (n : ℕ)
        → response.code ≡ pos n
        → 1 ≤ n
        → n ≤ 3
        → s' ≡ s
        → Answered response s s' (failed error_in_response ∷ [])

  process_unknown :
      (response : Response) (s : OutgoingRequests)
      → get response.id s ≡ none
      → process_response stored response s ≡ ok (failed no_associated_request, s)
  unfolding process_response
  process_unknown response s g = rw g refl

  process_known :
      (response : Response) (s : OutgoingRequests) (request : Request)
      → get response.id s ≡ some request
      → process_response stored response s ≡ (
          stored request response s >>= λ x.
          remove response.id x.1 >>= λ y. ok (result_of x.0, y.1))
  unfolding process_response
  process_known response s request g = rw g refl

  process-Answered :
      (response : Response) (s s' : OutgoingRequests) (res : EventResult) (o : Option Request)
      → response.code ≡ pos 0
      → get response.id s ≡ o
      → process_response stored response s ≡ ok (res, s')
      → Answered response s s' (res ∷ [])
  process-Answered response s s' res none c g h =
      let (same, left) =
        pair_eq {E = E} (failed no_associated_request) res s s'
          (sym (process_unknown response s g) ∙ h) in
      subst (λ r. Answered response s s' (r ∷ [])) (sym same) (unknown c g left)
  process-Answered response s s' res (some request) c g h =
      let (x, e₁, e₂) =
        >>=-eq-ok (stored request response s) _ (sym (process_known response s request g) ∙ h) in
      let (y, e₃, e₄) = >>=-eq-ok (remove {E = E} response.id x.1) _ e₂ in
      let (same, left) = pair_eq {E = E} (result_of x.0) res y.1 s' e₄ in
      subst (λ r. Answered response s s' (r ∷ [])) (sym same)
        (processed request x.0 x.1 c g e₁ (
          subst (Forgets E response.id x.1) (sym left)
            (remove-Forgets_from {E = E} response.id x.1 y.1 y.0 (get response.id x.1) refl e₃)))

  handle_no_error :
      (response : Response) (s : OutgoingRequests)
      → response.code ≡ pos 0
      → handle_response stored response s
        ≡ (process_response stored response s >>= λ x. ok (x.0 ∷ [], x.1))
  unfolding handle_response
  handle_no_error response s c = rw c refl

  handle_error :
      (response : Response) (s : OutgoingRequests) (n : ℕ)
      → n < 3
      → response.code ≡ pos (suc n)
      → handle_response stored response s ≡ ok (failed error_in_response ∷ [], s)
  unfolding handle_response
  handle_error response s zero l c = rw c refl
  handle_error response s (suc zero) l c = rw c refl
  handle_error response s (suc (suc zero)) l c = rw c refl
  handle_error response s (suc (suc (suc n))) l c = absurd (omega arith)

  handle_unknown_code :
      (response : Response) (s : OutgoingRequests) (n : ℕ)
      → response.code ≡ pos (suc (suc (suc (suc n))))
      → handle_response stored response s ≡ panic
  unfolding handle_response
  handle_unknown_code response s n c = rw c refl

  handle_negative :
      (response : Response) (s : OutgoingRequests) (n : ℕ)
      → response.code ≡ negsuc n
      → handle_response stored response s ≡ panic
  unfolding handle_response
  handle_negative response s n c = rw c refl

  refused-Answered :
      (response : Response) (s s' : OutgoingRequests) (res : List EventResult) (n : ℕ)
      → n < 3
      → response.code ≡ pos (suc n)
      → handle_response stored response s ≡ ok (res, s')
      → Answered response s s' res
  refused-Answered response s s' res n l c h =
      let (same, left) =
        pair_eq {E = E} (failed error_in_response ∷ []) res s s'
          (sym (handle_error response s n l c) ∙ h) in
      subst (Answered response s s') (sym same) (refused (suc n) c (omega arith) (omega arith) left)

  handle-Answered :
      (response : Response) (s s' : OutgoingRequests) (res : List EventResult) (c : ℤ)
      → response.code ≡ c
      → handle_response stored response s ≡ ok (res, s')
      → Answered response s s' res
  handle-Answered response s s' res (pos zero) c h =
      let (x, e₁, e₂) =
        >>=-eq-ok (process_response stored response s) _ (sym (handle_no_error response s c) ∙ h) in
      let (same, left) = pair_eq {E = E} (x.0 ∷ []) res x.1 s' e₂ in
      subst (Answered response s s') (sym same) (
        process-Answered response s s' x.0 (get response.id s) c refl
          (subst (λ t. process_response stored response s ≡ ok (x.0, t)) (sym left) e₁))
  handle-Answered response s s' res (pos (suc zero)) c h =
      refused-Answered response s s' res 0 (omega arith) c h
  handle-Answered response s s' res (pos (suc (suc zero))) c h =
      refused-Answered response s s' res 1 (omega arith) c h
  handle-Answered response s s' res (pos (suc (suc (suc zero)))) c h =
      refused-Answered response s s' res 2 (omega arith) c h
  handle-Answered response s s' res (pos (suc (suc (suc (suc n))))) c h =
      let unwinds = handle_unknown_code response s n c in absurd (cc)
  handle-Answered response s s' res (negsuc n) c h =
      let unwinds = handle_negative response s n c in absurd (cc)

  -- When handle_response returns, the code of the response is one of the four known ones. If it is
  -- no error and the queue has a request for the id, then the data was given to store_response_data
  -- with this request, the event tells its outcome, and of the queue that it left the request of the
  -- id is gone, also from the pending ones, its bytes are given back, and the other ids keep theirs,
  -- or the id had none there any more and the queue stays; if the queue has no request for the id,
  -- the answer is no_associated_request and the queue stays; for the other codes it is
  -- error_in_response, and the queue stays, with the request.
  pub handle_response-Answered :
      (response : Response) (s s' : OutgoingRequests) (res : List EventResult)
      → handle_response stored response s ≡ ok (res, s')
      → Answered response s s' res
  handle_response-Answered response s s' res h =
      handle-Answered response s s' res response.code refl h
