-- ===== src/Processor/Integrity.antt =====
-- Which blocks count as stored after `store_response_data` of src/core/bep_processor.rs.
use grizol.Prelude.{ℕ, ◌≡◌, refl, ◌∙◌, true, ◌⊎◌, inl, inr, Option, none, some, List, [], ◌∷◌, map}
use grizol.Prelude.Keys.{bytes_eq}
use grizol.Prelude.Outcome.{ok}
use grizol.Prelude.Always.{Always, Always-bind, Always-any, Always-weaken, Always-if, Always-ok}
use grizol.Prelude.Bytes.{Bytes}
use grizol.Proto.{FileInfo, BlockInfo, Counter, Request, Response}
use grizol.Requests.{get, is_some}
use grizol.FileWriter.{IoError}
use grizol.Storage.{StorageManager, store_block_concurrently, conclude_block_storage}
use grizol.Processor.{RequestState}
use grizol.Processor.Responses.{BepProcessorError}
use grizol.Processor.Handlers.{ServerState}
use grizol.Processor.Storing.{
  Remotes, Disk, is_remote, local_text, cp_local_to_remote, move_to_remote, concluded, with_status,
  written, with_file, store_response_data,
}
use grizol.State.{BepState, file_key, update_file_locations, remove_file_locations}
use grizol.State.Tables.{BlockRow, Database}
use grizol.State.Reads.{file_info}
use grizol.State.Cache.{to_u64}
use grizol.State.Uploads.{
  UploadResult, uploaded, too_many_blocks, all_blocks, blocks_missing, mark_stored,
  update_block_storage_state,
}
use grizol.State.Blocks.{
  HasBlocks, if-HasBlocks, marked, update_file_locations-HasBlocks, remove_file_locations-HasBlocks,
  update_block_storage_state-marked,
}

-- The requests and the blocks are these after the call, whatever it answered.
abbrev Leaves :
    RequestState
    → List BlockRow
    → Option BepProcessorError × (ServerState × StorageManager)
    → Type 0
Leaves requests rows x = (x.1.0.requests ≡ requests) × HasBlocks rows x.1.0.tables.db

module _ (E : Type 0) (listed_blocks : List BlockInfo → List BlockInfo)
    (listed_counters : List Counter → List Counter) (sha256 : Bytes → Bytes) (disk : Disk)
    (r : Remotes) where
  move_to_remote-Leaves :
      (request : Request) (s : ServerState) (m : StorageManager)
      → Always {E = E}
          (Leaves s.requests s.tables.db.blocks)
          (move_to_remote listed_blocks listed_counters sha256 disk r request s m)
  unfolding move_to_remote
  move_to_remote-Leaves request s m =
      let locations = cp_local_to_remote r request.folder request.name in
      Always-bind (λ (t : BepState). HasBlocks s.tables.db.blocks t.db)
        (Leaves s.requests s.tables.db.blocks)
        (update_file_locations request.folder r.local_device_id request.name locations s.tables) _
        (update_file_locations-HasBlocks E request.folder r.local_device_id request.name locations
          s.tables)
        (λ t e. (
          refl,
          if-HasBlocks (is_remote r.storage_strategy) s.tables.db.blocks
              (remove_file_locations request.folder r.local_device_id request.name (local_text ∷ [])
                t)
              t
              (remove_file_locations-HasBlocks request.folder r.local_device_id request.name
                  (local_text ∷ []) t
                ∙ e)
              e,
        ))

  concluded-Leaves :
      (res : Option IoError) (request : Request) (s : ServerState) (m : StorageManager)
      → Always {E = E}
          (Leaves s.requests s.tables.db.blocks)
          (concluded listed_blocks listed_counters sha256 disk r res request s m)
  unfolding concluded
  concluded-Leaves (some e) request s m = (refl, refl)
  concluded-Leaves none request s m = move_to_remote-Leaves request s m

  with_status-Leaves :
      (status : UploadResult) (request : Request) (file_size block_size : ℕ) (s : ServerState)
      (m : StorageManager)
      → Always {E = E} (Leaves s.requests s.tables.db.blocks) (
          with_status listed_blocks listed_counters sha256 disk r status request file_size
            block_size s m)
  unfolding with_status
  with_status-Leaves too_many_blocks request file_size block_size s m = (refl, refl)
  with_status-Leaves (uploaded blocks_missing) request file_size block_size s m = (refl, refl)
  with_status-Leaves (uploaded all_blocks) request file_size block_size s m =
      Always-any (Leaves s.requests s.tables.db.blocks)
        (conclude_block_storage disk.directory request file_size block_size m) _
        (λ x. concluded-Leaves x.0 request s x.1)

  -- The blocks are as before with an error, or the requested one is stored.
  abbrev Stores :
      Request → ServerState → Option BepProcessorError × (ServerState × StorageManager) → Type 0
  Stores request s x =
      (x.1.0.requests ≡ s.requests)
      × ((HasBlocks s.tables.db.blocks x.1.0.tables.db × (is_some x.0 ≡ true))
          ⊎ HasBlocks (marked r.local_device_id request s.tables.db.blocks) x.1.0.tables.db)

  written-Stores :
      (res : Option IoError) (request : Request) (response : Response) (file_size block_size : ℕ)
      (s : ServerState) (m : StorageManager)
      → get response.id s.requests.outgoing_requests ≡ some request
      → Always {E = E} (Stores request s) (
          written listed_blocks listed_counters sha256 disk r res request response file_size
            block_size s m)
  unfolding written
  written-Stores (some e) request response file_size block_size s m g = (refl, inl (refl, refl))
  written-Stores none request response file_size block_size s m g =
      let rows = marked r.local_device_id request s.tables.db.blocks in
      Always-bind (λ (x : UploadResult × Database). HasBlocks rows x.1) (Stores request s)
        (update_block_storage_state s.requests.outgoing_requests response.id r.local_device_id
          s.tables.db)
        _
        (update_block_storage_state-marked E s.requests.outgoing_requests request response.id
          r.local_device_id s.tables.db g)
        (λ x p.
          let t = record s { tables = record s.tables { db = x.1 } } in
          Always-weaken (Leaves s.requests x.1.blocks) (Stores request s)
            (with_status listed_blocks listed_counters sha256 disk r x.0 request file_size
              block_size t m)
            (λ y q. (q.0, inr (q.1 ∙ p))) (with_status-Leaves x.0 request file_size block_size t m))

  with_file-Stores :
      (file : Option FileInfo) (request : Request) (response : Response) (s : ServerState)
      (m : StorageManager)
      → get response.id s.requests.outgoing_requests ≡ some request
      → Always {E = E}
          (Stores request s)
          (with_file listed_blocks listed_counters sha256 disk r file request response s m)
  unfolding with_file
  with_file-Stores none request response s m g = (refl, inl (refl, refl))
  with_file-Stores (some f) request response s m g =
      let Q = Stores request s in
      Always-any Q (to_u64 f.size) _ (λ file_size.
        Always-any Q (to_u64 f.block_size) _ (λ block_size.
          Always-any Q
            (store_block_concurrently disk.directory disk.chunk_io disk.dir_error response.bytes
              request file_size block_size m)
            _ (λ x. written-Stores x.0 request response file_size block_size s x.1 g)))

  -- The blocks are as before with an error, or the requested one is stored and its data has the hash.
  abbrev StoresData :
      Request
      → Response
      → ServerState
      → Option BepProcessorError × (ServerState × StorageManager)
      → Type 0
  StoresData request response s x =
      (x.1.0.requests ≡ s.requests)
      × ((HasBlocks s.tables.db.blocks x.1.0.tables.db × (is_some x.0 ≡ true))
          ⊎ ((sha256 response.bytes ≡ request.hash)
              × HasBlocks (marked r.local_device_id request s.tables.db.blocks) x.1.0.tables.db))

  with_hash :
      (request : Request) (response : Response) (s : ServerState)
      (x : Option BepProcessorError × (ServerState × StorageManager))
      → sha256 response.bytes ≡ request.hash
      → Stores request s x
      → StoresData request response s x
  with_hash request response s x h (same, inl p) = (same, inl p)
  with_hash request response s x h (same, inr p) = (same, inr (h, p))

  store_response_data-StoresData :
      (request : Request) (response : Response) (s : ServerState) (m : StorageManager)
      → get response.id s.requests.outgoing_requests ≡ some request
      → Always {E = E}
          (StoresData request response s)
          (store_response_data listed_blocks listed_counters sha256 disk r request response s m)
  unfolding store_response_data
  store_response_data-StoresData request response s m g =
      let file =
        file_info listed_blocks listed_counters request.folder r.local_device_id request.name
          s.tables.db in
      Always-if (StoresData request response s) (bytes_eq.beq (sha256 response.bytes) request.hash)
        (with_file listed_blocks listed_counters sha256 disk r file request response s m) _
        (λ b.
          Always-weaken (Stores request s) (StoresData request response s)
            (with_file listed_blocks listed_counters sha256 disk r file request response s m)
            (λ x p.
              with_hash request response s x
                ((bytes_eq.beq_iff (sha256 response.bytes) request.hash).0 b) p)
            (with_file-Stores file request response s m g))
        (refl, inl (refl, refl))

  -- If a call of store_response_data with the request of the response's identifier returns, then the
  -- queue of requests and the request id are unchanged, and either it answers an error and the rows
  -- of the blocks are unchanged, or the data has the SHA-256 hash of the request and exactly the
  -- rows of the requested file with that hash are marked as stored; so the answer Ok(()) implies the
  -- latter.
  pub store_response_data-blocks :
      (request : Request) (response : Response) (s t : ServerState) (m n : StorageManager)
      (res : Option BepProcessorError)
      → get response.id s.requests.outgoing_requests ≡ some request
      → store_response_data {E = E} listed_blocks listed_counters sha256 disk r request response s m
        ≡ ok (res, (t, n))
      → (t.requests ≡ s.requests)
        × (((t.tables.db.blocks ≡ s.tables.db.blocks) × (is_some res ≡ true))
            ⊎ ((sha256 response.bytes ≡ request.hash)
                × (t.tables.db.blocks
                    ≡ map
                        (mark_stored
                          (file_key request.folder r.local_device_id request.name)
                          request.hash)
                        s.tables.db.blocks)))
  store_response_data-blocks request response s t m n res g e =
      Always-ok (StoresData request response s)
        (store_response_data listed_blocks listed_counters sha256 disk r request response s m)
        (store_response_data-StoresData request response s m g) e
