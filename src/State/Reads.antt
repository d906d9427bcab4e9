-- ===== src/State/Reads.antt =====
-- What src/core/bep_state.rs reads from the tables: a file, the blocks with a status, an index, and the
-- indices of a folder or a device. In which order the database lists the blocks and the versions of a file
-- is left open by the statements, and a parameter; files, folders and devices come in the order of their
-- rows, which no statement here promises. A number that is read has the type it was written with,
-- so that its conversion does not fail.
use grizol.Prelude.{Bool, ◌&&◌, Option, none, some, List, [], ◌∷◌, ◌++◌, map, ◌==◌, if◌then◌else◌}
use grizol.Prelude.Keys.{bytes_eq, Dict, lookup}
use grizol.Prelude.Outcome.{Outcome, ok, panic, ◌>>=◌}
use grizol.Prelude.Bytes.{Bytes}
use grizol.Proto.{FileInfo, BlockInfo, Counter, Index}
use grizol.DeviceId.{DeviceId}
use grizol.Config.{device_id_eq}
use grizol.Indices.{FolderDevice, folder_device_eq, index_of, insert_index}
use grizol.Processor.{BlockInfoExt}
use grizol.State.{BepState, file_key, in_index}
use grizol.State.Tables.{
  FileKey, file_key_eq, FileColumns, VersionRow, BlockRow, Database, StorageStatus,
  storage_status_code, any, filter,
}

abbrev pub block_of : BlockRow → BlockInfo
block_of row = record {
  offset = row.offset;
  size = row.bi_size;
  hash = row.hash;
  weak_hash = row.weak_hash;
}

abbrev pub counter_of : VersionRow → Counter
counter_of row = record { id = row.id; value = row.value }

abbrev pub blocks_of : FileKey → Database → List BlockInfo
blocks_of k db = map block_of (filter (λ row. file_key_eq.beq k row.file) db.blocks)

abbrev pub counters_of : FileKey → Database → List Counter
counters_of k db = map counter_of (filter (λ row. file_key_eq.beq k row.file) db.versions)

abbrev pub file_of_row : FileKey → FileColumns → List BlockInfo → List Counter → FileInfo
file_of_row k r blocks counters = record {
  name = k.name;
  type_code = r.type_code;
  size = r.size;
  permissions = r.permissions;
  modified_s = r.modified_s;
  modified_ns = r.modified_ns;
  modified_by = r.modified_by;
  deleted = r.deleted;
  invalid = r.invalid;
  no_permissions = r.no_permissions;
  version = some (record { counters = counters });
  sequence = r.sequence;
  block_size = r.block_size;
  blocks = blocks;
  symlink_target = r.symlink_target;
}

abbrev pub with_row : FileKey → Option FileColumns → List BlockInfo → List Counter → Option FileInfo
with_row k none blocks counters = none
with_row k (some r) blocks counters = some (file_of_row k r blocks counters)

-- The status `storage_status`, of the device.
unfoldable pub blocks_info : DeviceId → StorageStatus → Database → List BlockInfoExt
blocks_info device_id storage_status db =
    map
      (λ (row : BlockRow). record {
        device_id = device_id;
        folder = row.file.folder_device.folder;
        name = row.file.name;
        hash = row.hash;
        size = row.bi_size;
        offset = row.offset;
      })
      (filter
        (λ row.
          device_id_eq.beq row.file.folder_device.device_id device_id
          && row.storage_status == storage_status_code storage_status)
        db.blocks)

module _ (listed_blocks : List BlockInfo → List BlockInfo)
    (listed_counters : List Counter → List Counter) where
  abbrev pub read_file : FileKey → Option FileColumns → Database → Option FileInfo
  read_file k r db =
      with_row k r (listed_blocks (blocks_of k db)) (listed_counters (counters_of k db))

  unfoldable pub file_info : Bytes → DeviceId → Bytes → Database → Option FileInfo
  file_info folder_name device_id file_name db =
      let k = file_key folder_name device_id file_name in read_file k (lookup k db.files) db

  -- The files of the joins, each with its blocks and versions.
  abbrev pub files_of : (FileKey → Bool) → Dict FileKey FileColumns → Database → List FileInfo
  files_of p [] db = []
  files_of p ((k, r) ∷ rows) db =
      let rest = files_of p rows db in
      if p k
      then file_of_row k r (listed_blocks (blocks_of k db)) (listed_counters (counters_of k db))
        ∷ rest
      else rest

  index_from : Option Index → Bytes → DeviceId → BepState → Option Index × BepState
  index_from (some i) folder device_id s = (some i, s)
  index_from none folder device_id s =
      let index : Index = record {
        folder = folder;
        files = files_of (in_index folder device_id) s.db.files s.db;
      } in
      (some index, record s { indices = (insert_index device_id index s.indices).1 })

  -- The index in memory, or else that of the database, which is kept in memory.
  unfoldable pub index : Bytes → DeviceId → BepState → Option Index × BepState
  unfolding index_from
  index folder device_id s =
      index_from (index_of (record { folder = folder; device_id = device_id }) s.indices) folder
        device_id s

  push_index : Option Index → List Index → List Index
  push_index none res = res
  push_index (some i) res = res ++ i ∷ []

  indices_of_devices : Bytes → List DeviceId → List Index × BepState → List Index × BepState
  indices_of_devices folder [] x = x
  indices_of_devices folder (d ∷ ds) x =
      let found = index folder d x.1 in
      indices_of_devices folder ds (push_index found.0 x.0, found.1)

  indices_of_folders : List Bytes → List DeviceId → List Index × BepState → List Index × BepState
  indices_of_folders [] ds x = x
  indices_of_folders (f ∷ fs) ds x = indices_of_folders fs ds (indices_of_devices f ds x)

  devices_of : {E : Type 0} → Option Bytes → Option DeviceId → Database → Outcome E (List DeviceId)
  devices_of folder (some id) db = ok (id ∷ [])
  devices_of none none db = panic
  devices_of (some f) none db = ok (
      map (λ (i : FolderDevice). i.device_id)
        (filter (λ (i : FolderDevice). bytes_eq.beq i.folder f) db.indexes))

  -- The folders of the first device that the client has too.
  shared_folders : DeviceId → DeviceId → Database → List Bytes
  shared_folders id client_device_id db =
      map (λ (i : FolderDevice). i.folder)
        (filter
          (λ (i : FolderDevice).
            device_id_eq.beq i.device_id id
            && any
                (folder_device_eq.beq (record { folder = i.folder; device_id = client_device_id }))
                db.indexes)
          db.indexes)

  folders_of :
      {E : Type 0} → Option Bytes → List DeviceId → DeviceId → Database → Outcome E (List Bytes)
  folders_of (some f) ids client_device_id db = ok (f ∷ [])
  folders_of none [] client_device_id db = panic
  folders_of none (id ∷ ids) client_device_id db = ok (shared_folders id client_device_id db)

  unfoldable pub indices :
      {E : Type 0}
      → Option Bytes
      → Option DeviceId
      → DeviceId
      → BepState
      → Outcome E (List Index × BepState)
  unfolding indices_of_folders indices_of_devices push_index devices_of folders_of shared_folders
  indices folder device_id client_device_id s = do
    device_ids ← devices_of folder device_id s.db
    folders ← folders_of folder device_ids client_device_id s.db
    ok (indices_of_folders folders device_ids ([], s))
