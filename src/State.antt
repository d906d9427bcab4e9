-- ===== src/State.antt =====
-- The persistent state, src/core/bep_state.rs: the database, the sequence number that was given last, and
-- the indices in memory. The requests of the same struct are with the message processor. The calls of the
-- database succeed where its constraints hold, and foreign keys are enforced, the default of sqlx.
pub mod Tables
pub mod Reads
pub mod Uploads
pub mod Blocks
pub mod Rows
pub mod Numbers
pub mod Replaced
pub mod Stored
pub mod Inserted
pub mod Cache
pub mod ByAge
pub mod Evicted
pub mod Cluster
mod Tests
use grizol.Prelude.{
  ℕ, ◌^◌, ◌≡◌, Bool, true, false, not, ◌&&◌, Option, none, some, List, [], ◌∷◌, ◌++◌, map, ltb,
  if◌then◌else◌,
}
use grizol.Prelude.Int.{ℤ, pos, ltb_ℤ, ◌+ℤ◌}
use grizol.Prelude.Keys.{bytes_eq, bool_eq, Dict, lookup}
use grizol.Prelude.Outcome.{Outcome, ok, panic, ◌>>=◌, ◌>>◌, assert, unwrap}
use grizol.Prelude.Bytes.{Bytes}
use grizol.Proto.{FileInfo, Index}
use grizol.DeviceId.{DeviceId}
use grizol.Indices.{
  FolderDevice, folder_device_eq, GrizolIndices, insert_index, insert_file_info, remove_file_info,
}
use grizol.Config.{device_id_eq}
use grizol.State.Cluster.{ClusterTables, DeviceRow, FolderRow}
use grizol.State.Tables.{
  FileKey, file_key_eq, FileColumns, VersionRow, BlockRow, LocationRow, Database, any, filter,
  insert_or_ignore, same_location, sequence_taken, columns_of, insert_file_row, insert_versions,
  insert_blocks, push_blocks, delete_files, max_sequence,
}

pub record BepState : Type 0 where
  pub db : Database
  pub sequence : Option ℤ
  pub indices : GrizolIndices

abbrev pub file_key : Bytes → DeviceId → Bytes → FileKey
file_key folder device_id name = record {
  folder_device = record { folder = folder; device_id = device_id };
  name = name;
}

abbrev pub or_else : {A : Type 0} → Option A → Option A → Option A
or_else none o = o
or_else (some a) o = some a

-- `*s += 1` of an `i64`, or 1 if there is no number yet.
abbrev pub sequence_after : {E : Type 0} → Option ℤ → Outcome E ℤ
sequence_after none = ok (pos 1)
sequence_after (some s) = if ltb_ℤ (s +ℤ pos 1) (pos (2 ^ 63)) then ok (s +ℤ pos 1) else panic

-- The tables are those before the transaction that is open.
unfoldable pub next_sequence_id : {E : Type 0} → BepState → Outcome E (ℤ × BepState)
next_sequence_id s = sequence_after (or_else s.sequence (max_sequence s.db.files)) >>= λ n.
    ok (n, record s { sequence = some n })

-- The loop that gives each file a number.
unfoldable pub number_files :
    {E : Type 0} → List FileInfo → BepState → Outcome E (List FileInfo × BepState)
number_files [] s = ok ([], s)
number_files (f ∷ fs) s = do
  (n, s₁) ← next_sequence_id s
  (fs', s₂) ← number_files fs s₁
  ok (record f { sequence = n } ∷ fs', s₂)

-- The row of a file, its versions, and its blocks that are new.
unfoldable pub insert_file : {E : Type 0} → FileKey → FileInfo → Database → Outcome E Database
insert_file k f db = do
  db₁ ← insert_file_row k (columns_of f) db
  version ← unwrap f.version
  db₂ ← insert_versions k version.counters db₁
  ok (insert_blocks k f.blocks db₂)

unfoldable pub insert_files :
    {E : Type 0} → Bytes → DeviceId → List FileInfo → Database → Outcome E Database
insert_files folder device_id [] db = ok db
insert_files folder device_id (f ∷ fs) db = do
  db₁ ← insert_file (file_key folder device_id f.name) f db
  insert_files folder device_id fs db₁

abbrev pub in_index : Bytes → DeviceId → FileKey → Bool
in_index folder device_id k =
    folder_device_eq.beq (record { folder = folder; device_id = device_id }) k.folder_device

-- The row refers to the device and to the folder.
unfoldable pub init_index :
    {E : Type 0} → Bytes → DeviceId → ClusterTables → BepState → Outcome E BepState
init_index folder device_id t s = do
  let row : FolderDevice = record { folder = folder; device_id = device_id }
  assert (any (λ (r : DeviceId × DeviceRow). device_id_eq.beq r.0 device_id) t.devices)
  assert (any (λ (r : Bytes × FolderRow). bytes_eq.beq r.0 folder) t.folders)
  ok (record s {
    db = record s.db { indexes = insert_or_ignore folder_device_eq.beq row s.db.indexes };
  })

unfoldable pub replace_index : {E : Type 0} → Index → DeviceId → BepState → Outcome E BepState
replace_index index device_id s = do
  (files, s₁) ← number_files index.files s
  db ←
      insert_files index.folder device_id files
        (delete_files (in_index index.folder device_id) s₁.db)
  ok (record s₁ {
    db = db;
    indices =
        (insert_index device_id (record { folder = index.folder; files = files }) s₁.indices).1;
  })

unfoldable pub insert_file_infos :
    {E : Type 0} → Bytes → DeviceId → List FileInfo → BepState → Outcome E BepState
insert_file_infos folder device_id file_info s = do
  (files, s₁) ← number_files file_info s
  db ← insert_files folder device_id files s₁.db
  ok (record s₁ { db = db; indices = insert_file_info folder device_id files s₁.indices })

-- The row of a file with its versions and blocks, after the old rows are deleted.
unfoldable pub replace_file : {E : Type 0} → FileKey → FileInfo → Database → Outcome E Database
replace_file k f db = do
  db₁ ← insert_file_row k (columns_of f) (delete_files (file_key_eq.beq k) db)
  version ← unwrap f.version
  db₂ ← insert_versions k version.counters db₁
  push_blocks k f.blocks db₂

unfoldable pub replace_files :
    {E : Type 0} → Bytes → DeviceId → List FileInfo → Database → Outcome E Database
replace_files folder device_id [] db = ok db
replace_files folder device_id (f ∷ fs) db = do
  db₁ ← replace_file (file_key folder device_id f.name) f db
  replace_files folder device_id fs db₁

abbrev pub not_deleted : FileInfo → Bool
not_deleted f = not f.deleted

-- `replace_file_info` without the move, whose first statement is an assertion that fails.
unfoldable pub rm_replace_file_info :
    {E : Type 0} → Bytes → DeviceId → List FileInfo → BepState → Outcome E BepState
rm_replace_file_info folder device_id file_info s = do
  (numbered, s₁) ← number_files file_info s
  let files = filter not_deleted numbered
  db ← replace_files folder device_id files s₁.db
  ok (record s₁ { db = db; indices = insert_file_info folder device_id files s₁.indices })

unfoldable pub rm_file_info : Bytes → DeviceId → Bytes → BepState → BepState
rm_file_info folder device_id file_name s = record s {
  db = delete_files (file_key_eq.beq (file_key folder device_id file_name)) s.db;
  indices = (remove_file_info folder device_id file_name s.indices).1;
}

-- `storage_backend` and `location`
abbrev pub FileLocation : Type 0
FileLocation = Bytes × Bytes

abbrev pub has_file : FileKey → Database → Bool
has_file k db = any (λ row. file_key_eq.beq row.0 k) db.files

-- The rows refer to the file.
unfoldable pub insert_locations :
    {E : Type 0} → FileKey → List FileLocation → Database → Outcome E Database
insert_locations k [] db = ok db
insert_locations k (l ∷ ls) db = do
  assert (has_file k db)
  let row : LocationRow = record { file = k; storage_backend = l.0; location = l.1 }
  insert_locations k ls (record db { locations = insert_or_ignore same_location row db.locations })

unfoldable pub update_file_locations :
    {E : Type 0} → Bytes → DeviceId → Bytes → List FileLocation → BepState → Outcome E BepState
update_file_locations folder device_id file_name locations s =
    insert_locations (file_key folder device_id file_name) locations s.db >>= λ db.
    ok (record s { db = db })

abbrev pub remove_locations : FileKey → List Bytes → List LocationRow → List LocationRow
remove_locations k [] rows = rows
remove_locations k (b ∷ bs) rows =
    remove_locations k bs
      (filter (λ row. not (file_key_eq.beq row.file k && bytes_eq.beq row.storage_backend b)) rows)

unfoldable pub remove_file_locations : Bytes → DeviceId → Bytes → List Bytes → BepState → BepState
remove_file_locations folder device_id file_name storage_backends s = record s {
  db = record s.db {
    locations =
        remove_locations (file_key folder device_id file_name) storage_backends s.db.locations;
  };
}

abbrev renamed : FileKey → FileKey → FileKey → FileKey
renamed orig dest k = if file_key_eq.beq k orig then dest else k

rename_files : FileKey → FileKey → ℤ → Dict FileKey FileColumns → Dict FileKey FileColumns
rename_files orig dest n [] = []
rename_files orig dest n ((k, r) ∷ rows) =
    let rest = rename_files orig dest n rows in
    if file_key_eq.beq k orig then (dest, record r { sequence = n }) ∷ rest else (k, r) ∷ rest

-- UPDATE bep_file_info SET name, sequence, with the rows that refer to the file.
rename_file : {E : Type 0} → FileKey → FileKey → ℤ → Database → Outcome E Database
unfolding rename_files
rename_file orig dest n db = do
  let found = has_file orig db
  assert (not (found && has_file dest db && not (file_key_eq.beq orig dest)))
  assert (not (found && sequence_taken orig n db.files))
  ok (record db {
    files = rename_files orig dest n db.files;
    versions =
        map (λ (row : VersionRow). record row { file = renamed orig dest row.file }) db.versions;
    blocks = map (λ (row : BlockRow). record row { file = renamed orig dest row.file }) db.blocks;
    locations =
        map (λ (row : LocationRow). record row { file = renamed orig dest row.file }) db.locations;
    cache = map (λ (row : FileKey × ℤ). (renamed orig dest row.0, row.1)) db.cache;
  })

-- The indices in memory stay as they are.
unfoldable pub mv_file_info :
    {E : Type 0}
    → Bytes
    → DeviceId
    → FileInfo
    → Bytes
    → List FileLocation
    → BepState
    → Outcome E BepState
unfolding rename_file
mv_file_info folder device_id orig_file_info dest_file_name dest_file_locations s = do
  (n, s₁) ← next_sequence_id s
  let dest = file_key folder device_id dest_file_name
  db₁ ← rename_file (file_key folder device_id orig_file_info.name) dest n s₁.db
  db₂ ← insert_locations dest dest_file_locations (record db₁ {
    locations = filter (λ row. not (file_key_eq.beq row.file dest)) db₁.locations;
    cache = filter (λ row. not (file_key_eq.beq row.0 dest)) db₁.cache;
  })
  ok (record s₁ { db = db₂ })
