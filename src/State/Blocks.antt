-- ===== src/State/Blocks.antt =====
-- What the statements of src/core/bep_state.rs on other tables and `update_block_storage_state` do to the
-- rows of the blocks.
use grizol.Prelude.{
  ◌≡◌, refl, ap, sym, Bool, true, false, some, List, [], ◌∷◌, map, if◌then◌else◌, subst,
}
use grizol.Prelude.Int.{ℤ}
use grizol.Prelude.Outcome.{assert, unwrap}
use grizol.Prelude.Always.{Always, Always-bind, Always-any}
use grizol.Prelude.Bytes.{Bytes}
use grizol.DeviceId.{DeviceId}
use grizol.Proto.{Request}
use grizol.Requests.{OutgoingRequests, get}
use grizol.State.{
  BepState, file_key, FileLocation, has_file, insert_locations, update_file_locations,
  remove_file_locations,
}
use grizol.State.Tables.{FileKey, BlockRow, Database}
use grizol.State.Uploads.{
  UploadResult, mark_stored, count_blocks, expected_blocks, update_block_storage_state,
}

abbrev pub HasBlocks : List BlockRow → Database → Type 0
HasBlocks rows db = db.blocks ≡ rows

pub insert_locations-HasBlocks :
    (E : Type 0) (k : FileKey) (ls : List FileLocation) (db : Database)
    → Always {E = E} (HasBlocks db.blocks) (insert_locations k ls db)
unfolding insert_locations
insert_locations-HasBlocks E k [] db = refl
insert_locations-HasBlocks E k (l ∷ ls) db =
    Always-any (HasBlocks db.blocks) (assert (has_file k db)) _
      (λ u. insert_locations-HasBlocks E k ls _)

pub update_file_locations-HasBlocks :
    (E : Type 0) (folder : Bytes) (device_id : DeviceId) (file_name : Bytes)
    (ls : List FileLocation) (s : BepState)
    → Always {E = E}
        (λ (t : BepState). HasBlocks s.db.blocks t.db)
        (update_file_locations folder device_id file_name ls s)
unfolding update_file_locations
update_file_locations-HasBlocks E folder device_id file_name ls s =
    Always-bind (HasBlocks s.db.blocks) _
      (insert_locations (file_key folder device_id file_name) ls s.db) _
      (insert_locations-HasBlocks E (file_key folder device_id file_name) ls s.db) (λ db e. e)

-- Either of two states with these blocks.
pub if-HasBlocks :
    (c : Bool) (rows : List BlockRow) (a b : BepState)
    → HasBlocks rows a.db
    → HasBlocks rows b.db
    → HasBlocks rows (if c then a else b).db
if-HasBlocks true rows a b p q = p
if-HasBlocks false rows a b p q = q

pub remove_file_locations-HasBlocks :
    (folder : Bytes) (device_id : DeviceId) (file_name : Bytes) (bs : List Bytes) (s : BepState)
    → HasBlocks s.db.blocks (remove_file_locations folder device_id file_name bs s).db
unfolding remove_file_locations
remove_file_locations-HasBlocks folder device_id file_name bs s = refl

-- The rows once the requested block is stored.
abbrev pub marked : DeviceId → Request → List BlockRow → List BlockRow
marked device_id request rows =
    map (mark_stored (file_key request.folder device_id request.name) request.hash) rows

pub update_block_storage_state-marked :
    (E : Type 0) (o : OutgoingRequests) (request : Request) (request_id : ℤ) (device_id : DeviceId)
    (db : Database)
    → get request_id o ≡ some request
    → Always {E = E}
        (λ (x : UploadResult × Database). HasBlocks (marked device_id request db.blocks) x.1)
        (update_block_storage_state o request_id device_id db)
unfolding update_block_storage_state
update_block_storage_state-marked E o request request_id device_id db e =
    let Q = λ (x : UploadResult × Database). HasBlocks (marked device_id request db.blocks) x.1 in
    Always-bind (λ (q : Request). q ≡ request) Q (unwrap (get request_id o)) _
      (subst (λ x. Always {E = E} (λ (q : Request). q ≡ request) (unwrap x)) (sym e) refl)
      (λ q p. Always-any Q (count_blocks (file_key q.folder device_id q.name) _) _ (λ c.
        Always-any Q (expected_blocks c.0.size c.0.block_size) _
          (λ n. ap (λ (q : Request). marked device_id q db.blocks) p)))
