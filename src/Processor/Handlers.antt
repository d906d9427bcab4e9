-- ===== src/Processor/Handlers.antt =====
-- The handlers of messages, `handle_complete_message` and what it calls, src/core/bep_processor.rs, on the
-- state of src/core/bep_state.rs. A handler holds the lock on the state while it works on the indices.
use grizol.Prelude.{Bool, true, false, none, some, List, [], ◌∷◌, map, if◌then◌else◌}
use grizol.Prelude.Keys.{bytes_eq}
use grizol.Prelude.Outcome.{Outcome, ok, panic, ◌>>=◌, unwrap, expect}
use grizol.Prelude.Bytes.{Bytes}
use grizol.Proto.{
  Hello, ClusterConfig, Folder, Device, Index, IndexUpdate, BlockInfo, Counter, Request, Response,
}
use grizol.Parser.Decode.{CompleteMessage}
use grizol.Wire.{message, request_created}
use grizol.DeviceId.{DeviceId, try_from_bytes}
use grizol.Config.{device_id_eq}
use grizol.Requests.{Instant}
use grizol.Processor.{RequestState, diff_indices, store_outgoing_requests}
use grizol.Processor.Responses.{EventResult, event}
use grizol.State.{BepState, init_index, replace_index, insert_file_infos, rm_replace_file_info}
use grizol.State.Tables.{not_stored}
use grizol.State.Reads.{index, indices, blocks_info}
use grizol.State.Cluster.{ClusterTables, update_cluster_config, cluster_config}

-- The state behind the lock.
pub record ServerState : Type 0 where
  pub tables : BepState
  pub cluster : ClusterTables
  pub requests : RequestState

-- The device, and the name and the version of the program.
pub record Processor : Type 0 where
  pub local_device_id : DeviceId
  pub name : Bytes
  pub client_name : Bytes
  pub client_version : Bytes

abbrev pub Handled : Type 0 → Type 0
Handled E = Outcome E (List EventResult × ServerState)

unfoldable pub handle_hello : Processor → Hello → List EventResult
handle_hello p hello =
    event (
      message (
        CompleteMessage.hello (record {
          device_name = p.name;
          client_name = p.client_name;
          client_version = p.client_version;
        })))
    ∷ []

-- What the statements that read list, and the clock.
module _ {E : Type 0} (listed_blocks : List BlockInfo → List BlockInfo)
    (listed_counters : List Counter → List Counter) (now : Instant) (clock : Request → Instant)
    (p : Processor) where
  -- The state is locked a second time here.
  unfoldable pub request_blocks : ServerState → Handled E
  request_blocks s = do
    (requests, state) ←
        store_outgoing_requests now clock (blocks_info p.local_device_id not_stored s.tables.db)
          s.requests
    ok (event request_created ∷ [], record s { requests = state })

  -- `index(..).expect(..)`
  unfoldable pub index_or_panic : Bytes → DeviceId → BepState → Outcome E (Index × BepState)
  index_or_panic folder device_id s =
      let found = index listed_blocks listed_counters folder device_id s in
      unwrap found.0 >>= λ i. ok (i, found.1)

  unfoldable pub update_index : IndexUpdate → DeviceId → BepState → Outcome E BepState
  update_index index_update client_device_id s = do
    let folder = index_update.folder
    let received : Index = record { folder = folder; files = index_update.files }
    (other, s₁) ← index_or_panic folder client_device_id s
    diff ← expect (diff_indices folder received other)
    s₂ ← rm_replace_file_info folder client_device_id diff.newly_added_files s₁
    (own, s₃) ← index_or_panic folder p.local_device_id s₂
    (other', s₄) ← index_or_panic folder client_device_id s₃
    diff' ← expect (diff_indices folder other' own)
    rm_replace_file_info folder p.local_device_id diff'.newly_added_files s₄

  unfoldable pub handle_index_update : IndexUpdate → DeviceId → ServerState → Handled E
  unfolding update_index index_or_panic request_blocks
  handle_index_update index_update client_device_id s =
      update_index index_update client_device_id s.tables >>= λ tables.
      request_blocks (record s { tables = tables })

  unfoldable pub take_index : Index → DeviceId → BepState → Outcome E BepState
  take_index received client_device_id s = do
    let folder = received.folder
    s₁ ← replace_index received client_device_id s
    (own, s₂) ← index_or_panic folder p.local_device_id s₁
    diff ← expect (diff_indices folder received own)
    insert_file_infos folder p.local_device_id diff.newly_added_files s₂

  unfoldable pub handle_index : Index → DeviceId → ServerState → Handled E
  unfolding take_index index_or_panic request_blocks
  handle_index received client_device_id s =
      take_index received client_device_id s.tables >>= λ tables.
      request_blocks (record s { tables = tables })

  unfoldable pub has_device : List Device → Outcome E Bool
  has_device [] = ok false
  has_device (d ∷ ds) = do
    id ← expect (try_from_bytes d.id)
    if device_id_eq.beq id p.local_device_id then ok true else has_device ds

  -- The folders that the message shares with this device.
  unfoldable pub shared_with_me : List Folder → Outcome E (List Bytes)
  shared_with_me [] = ok []
  shared_with_me (f ∷ fs) = do
    shared ← has_device f.devices
    rest ← shared_with_me fs
    ok (if shared then f.id ∷ rest else rest)

  unfoldable pub init_indices :
      List Bytes → DeviceId → ClusterTables → BepState → Outcome E BepState
  init_indices [] client_device_id t s = ok s
  init_indices (f ∷ fs) client_device_id t s = do
    s₁ ← init_index f client_device_id t s
    s₂ ← init_index f p.local_device_id t s₁
    init_indices fs client_device_id t s₂

  unfoldable pub handle_cluster_config : ClusterConfig → DeviceId → ServerState → Handled E
  unfolding init_indices shared_with_me has_device
  handle_cluster_config config client_device_id s = do
    cluster ← update_cluster_config config p.local_device_id s.cluster
    folders ← shared_with_me config.folders
    tables ← init_indices folders client_device_id cluster s.tables
    (found, tables') ←
        indices listed_blocks listed_counters none (some p.local_device_id) client_device_id tables
    let answer = cluster_config p.local_device_id client_device_id cluster
    ok (
      event (message (CompleteMessage.cluster_config answer))
          ∷ map (λ (i : Index). event (message (CompleteMessage.index i))) found,
      record s { tables = tables'; cluster = cluster },
    )

  -- `respond` is `handle_response` on the whole state.
  unfoldable pub handle_complete_message :
      (Response → ServerState → Handled E) → CompleteMessage → DeviceId → ServerState → Handled E
  handle_complete_message respond (CompleteMessage.hello x) client s = ok (handle_hello p x, s)
  handle_complete_message respond (CompleteMessage.cluster_config x) client s =
      handle_cluster_config x client s
  handle_complete_message respond (CompleteMessage.index x) client s = handle_index x client s
  handle_complete_message respond (CompleteMessage.index_update x) client s =
      handle_index_update x client s
  handle_complete_message respond (CompleteMessage.request x) client s = ok ([], s)
  handle_complete_message respond (CompleteMessage.response x) client s = respond x s
  handle_complete_message respond (CompleteMessage.download_progress x) client s = panic
  handle_complete_message respond (CompleteMessage.ping x) client s = ok ([], s)
  handle_complete_message respond (CompleteMessage.close x) client s = ok ([], s)
