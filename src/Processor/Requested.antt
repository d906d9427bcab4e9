-- ===== src/Processor/Requested.antt =====
-- The blocks that the handlers of src/core/bep_processor.rs ask for.
use grizol.Prelude.{◌≡◌, sym, ap, ◌∙◌, subst, true, ◌||◌, none, some, List, [], ◌∷◌}
use grizol.Prelude.Outcome.{ok, >>=-eq-ok}
use grizol.Proto.{Index, IndexUpdate, ClusterConfig, BlockInfo, Counter, Request, Response}
use grizol.Parser.Decode.{CompleteMessage}
use grizol.DeviceId.{DeviceId}
use grizol.Config.{device_id_eq}
use grizol.Wire.{request_created}
use grizol.Requests.Keys.{key_eq}
use grizol.Requests.{Instant, remove_old_requests}
use grizol.Processor.{
  BlockInfoExt, RequestState, requests_from_blocks, insert_requests, store_outgoing_requests,
  add_i32, sub_i32, unwrap_or, max_id,
}
use grizol.Processor.Ids.{requests_from_blocks-numbered}
use grizol.Processor.Responses.{EventResult, event}
use grizol.Processor.Handlers.{
  ServerState, Processor, Handled, request_blocks, update_index, take_index, handle_index_update,
  handle_index, shared_with_me, init_indices, handle_cluster_config, handle_complete_message,
}
use grizol.State.Tables.{not_stored}
use grizol.State.Reads.{blocks_info, indices}
use grizol.State.Cluster.{update_cluster_config}
use grizol.Processor.Queued.{
  asks, is_queued, ok_snd, insert_all-is_queued, Covers, rows-done, AreQueued,
}

module _ {E : Type 0} (listed_blocks : List BlockInfo → List BlockInfo)
    (listed_counters : List Counter → List Counter) (now : Instant) (clock : Request → Instant)
    (p : Processor) where
  store_outgoing_requests-asks :
      (bs : List BlockInfoExt) (state state' : RequestState) (res : List Request)
      → store_outgoing_requests {E = E} now clock bs state ≡ ok (res, state')
      → Covers p state.request_id bs (λ j. is_queued j state'.outgoing_requests)
  unfolding store_outgoing_requests insert_requests
  store_outgoing_requests-asks bs state state' res e j a =
      let (rs, e₁, e₂) = >>=-eq-ok (requests_from_blocks {E = E} state.request_id bs) _ e in
      let last = unwrap_or state.request_id (max_id rs) in
      let (val, e₃, e₄) = >>=-eq-ok (sub_i32 {E = E} last state.request_id) _ e₂ in
      let (id, e₅, e₆) = >>=-eq-ok (add_i32 {E = E} state.request_id val) _ e₄ in
      let (x, e₇, e₈) =
        >>=-eq-ok (insert_requests {E = E} now clock rs state.outgoing_requests) _ e₆ in
      let (old, e₉, e₁₀) =
        >>=-eq-ok (remove_old_requests {E = E} now state.outgoing_requests) _ e₇ in
      let same = requests_from_blocks-numbered {E = E} state.request_id bs rs e₁ in
      let asked : asks j rs ≡ true = ap (asks j) same ∙ a in
      let queue =
        ok_snd {E = E} x.0 res (record { request_id = id; outgoing_requests = x.1 }) state' e₈ in
      ap (λ (t : RequestState). is_queued j t.outgoing_requests) queue
      ∙ insert_all-is_queued {E = E} clock rs x.0 old x.1 j e₁₀
      ∙ ap (λ b. b || is_queued j old) asked

  -- What handling a message of each kind makes of the tables and the queue.
  abbrev pub Asks :
      (Response → ServerState → Handled E)
      → CompleteMessage
      → DeviceId
      → ServerState
      → ServerState
      → List EventResult
      → Type 0
  Asks respond (CompleteMessage.index x) client s s' res =
      (res ≡ event request_created ∷ [])
      × (take_index {E = E} listed_blocks listed_counters now clock p x client s.tables
          ≡ ok s'.tables)
      × AreQueued p s'.tables.db s'.requests.outgoing_requests
  Asks respond (CompleteMessage.index_update x) client s s' res =
      (res ≡ event request_created ∷ [])
      × (update_index {E = E} listed_blocks listed_counters now clock p x client s.tables
          ≡ ok s'.tables)
      × AreQueued p s'.tables.db s'.requests.outgoing_requests
  Asks respond (CompleteMessage.response x) client s s' res = respond x s ≡ ok (res, s')
  Asks respond (CompleteMessage.download_progress x) client s s' res = ⊥
  Asks respond other client s s' res = s'.requests ≡ s.requests

  same_parts :
      (a b : List EventResult) (s t : ServerState)
      → ◌≡◌ {A = Handled E} (ok (a, s)) (ok (b, t))
      → (b ≡ a) × (t ≡ s)
  same_parts a b s t e = (cc, cc)

  request_blocks-AreQueued :
      (s s' : ServerState) (res : List EventResult)
      → ◌≡◌ {A = Handled E}
          (request_blocks listed_blocks listed_counters now clock p s)
          (ok (res, s'))
      → (res ≡ event request_created ∷ [])
        × (s'.tables ≡ s.tables)
        × AreQueued p s'.tables.db s'.requests.outgoing_requests
  unfolding request_blocks blocks_info
  request_blocks-AreQueued s s' res e =
      let bs = blocks_info p.local_device_id not_stored s.tables.db in
      let (x, e₁, e₂) = >>=-eq-ok (store_outgoing_requests {E = E} now clock bs s.requests) _ e in
      let (results, state) =
        same_parts (event request_created ∷ []) res (record s { requests = x.1 }) s' e₂ in
      let queued =
        rows-done p s.tables.db.blocks s.requests.request_id
          (λ j. is_queued j x.1.outgoing_requests)
          (store_outgoing_requests-asks bs s.requests x.1 x.0 e₁) in
      (
        results,
        ap (λ (t : ServerState). t.tables) state,
        subst (λ (t : ServerState). AreQueued p t.tables.db t.requests.outgoing_requests)
            (sym state) queued,
      )

  handle_cluster_config-requests :
      (c : ClusterConfig) (client : DeviceId) (s s' : ServerState) (res : List EventResult)
      → ◌≡◌ {A = Handled E}
          (handle_cluster_config listed_blocks listed_counters now clock p c client s)
          (ok (res, s'))
      → s'.requests ≡ s.requests
  unfolding handle_cluster_config
  handle_cluster_config-requests c client s s' res e =
      let (cluster, _, e₁) =
        >>=-eq-ok (update_cluster_config {E = E} c p.local_device_id s.cluster) _ e in
      let (folders, _, e₂) =
        >>=-eq-ok (shared_with_me {E = E} listed_blocks listed_counters now clock p c.folders) _
          e₁ in
      let (tables, _, e₃) =
        >>=-eq-ok
          (init_indices {E = E} listed_blocks listed_counters now clock p folders client cluster
            s.tables)
          _ e₂ in
      let (found, _, e₄) =
        >>=-eq-ok
          (indices listed_blocks listed_counters {E = E} none (some p.local_device_id) client
            tables)
          _ e₃ in
      ap (λ (t : ServerState). t.requests) (same_parts _ res _ s' e₄).1

  handle_index-Asks :
      (x : Index) (client : DeviceId) (s s' : ServerState) (res : List EventResult)
      → ◌≡◌ {A = Handled E}
          (handle_index listed_blocks listed_counters now clock p x client s)
          (ok (res, s'))
      → (res ≡ event request_created ∷ [])
        × (take_index {E = E} listed_blocks listed_counters now clock p x client s.tables
            ≡ ok s'.tables)
        × AreQueued p s'.tables.db s'.requests.outgoing_requests
  unfolding handle_index
  handle_index-Asks x client s s' res e =
      let (tables, e₁, e₂) =
        >>=-eq-ok (take_index {E = E} listed_blocks listed_counters now clock p x client s.tables) _
          e in
      let (results, same, queued) =
        request_blocks-AreQueued (record s { tables = tables }) s' res e₂ in
      (results, e₁ ∙ ap ok (sym same), queued)

  handle_index_update-Asks :
      (x : IndexUpdate) (client : DeviceId) (s s' : ServerState) (res : List EventResult)
      → ◌≡◌ {A = Handled E}
          (handle_index_update listed_blocks listed_counters now clock p x client s)
          (ok (res, s'))
      → (res ≡ event request_created ∷ [])
        × (update_index {E = E} listed_blocks listed_counters now clock p x client s.tables
            ≡ ok s'.tables)
        × AreQueued p s'.tables.db s'.requests.outgoing_requests
  unfolding handle_index_update
  handle_index_update-Asks x client s s' res e =
      let (tables, e₁, e₂) =
        >>=-eq-ok (update_index {E = E} listed_blocks listed_counters now clock p x client s.tables)
          _ e in
      let (results, same, queued) =
        request_blocks-AreQueued (record s { tables = tables }) s' res e₂ in
      (results, e₁ ∙ ap ok (sym same), queued)

  unchanged :
      (a res : List EventResult) (s s' : ServerState)
      → ◌≡◌ {A = Handled E} (ok (a, s)) (ok (res, s'))
      → s'.requests ≡ s.requests
  unchanged a res s s' e = ap (λ (t : ServerState). t.requests) (same_parts a res s s' e).1

  -- When handle_complete_message returns for an index or an index update, its result is the event
  -- request_created, the tables are those that taking the index or the update gives, and each block
  -- of this device in them that is not stored has its request in the queue; for a response it
  -- returns what handle_response returns, it never returns for a download progress, and for any
  -- other message the requests and the request id are unchanged.
  pub handle_complete_message-Asks :
      (respond : Response → ServerState → Handled E) (m : CompleteMessage) (client : DeviceId)
      (s s' : ServerState) (res : List EventResult)
      → ◌≡◌ {A = Handled E}
          (handle_complete_message listed_blocks listed_counters now clock p respond m client s)
          (ok (res, s'))
      → Asks respond m client s s' res
  unfolding handle_complete_message
  handle_complete_message-Asks respond (CompleteMessage.hello x) client s s' res e =
      unchanged _ res s s' e
  handle_complete_message-Asks respond (CompleteMessage.cluster_config x) client s s' res e =
      handle_cluster_config-requests x client s s' res e
  handle_complete_message-Asks respond (CompleteMessage.index x) client s s' res e =
      handle_index-Asks x client s s' res e
  handle_complete_message-Asks respond (CompleteMessage.index_update x) client s s' res e =
      handle_index_update-Asks x client s s' res e
  handle_complete_message-Asks respond (CompleteMessage.request x) client s s' res e =
      unchanged _ res s s' e
  handle_complete_message-Asks respond (CompleteMessage.response x) client s s' res e = e
  handle_complete_message-Asks respond (CompleteMessage.download_progress x) client s s' res e =
      absurd (cc)
  handle_complete_message-Asks respond (CompleteMessage.ping x) client s s' res e =
      unchanged _ res s s' e
  handle_complete_message-Asks respond (CompleteMessage.close x) client s s' res e =
      unchanged _ res s s' e
