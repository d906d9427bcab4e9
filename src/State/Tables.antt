-- ===== src/State/Tables.antt =====
-- The tables of the database, migrations/20231005195238_grizol.sql, and the statements on them that
-- src/core/bep_state.rs executes. A table is the list of its rows in the order of their insertion, or,
-- where no other column is left, a map from its primary key. A column `device` has the text of an id,
-- which determines the id, and is the id here; a Boolean column is a Boolean. A statement that violates a
-- constraint fails, and the `expect` on its result unwinds.
use grizol.Prelude.{
  ℕ, ◌^◌, ◌≡◌, ◌↔◌, Bool, true, false, not, ◌&&◌, ◌||◌, Option, none, some, List, [], ◌∷◌, ◌++◌,
  ltb, if◌then◌else◌, arith,
}
use grizol.Prelude.Int.{ℤ, pos, negsuc, ltb_ℤ}
use grizol.Prelude.Keys.{Eq, nat_eq, int_eq, bytes_eq, Dict, insert}
use grizol.Prelude.Outcome.{Outcome, ok, ◌>>◌, assert}
use grizol.Prelude.Bytes.{Bytes}
use grizol.Proto.{FileInfo, BlockInfo, Counter}
use grizol.Indices.{FolderDevice, folder_device_eq}

-- PRIMARY KEY(folder, device, name)
pub record FileKey : Type 0 where
  pub folder_device : FolderDevice
  pub name : Bytes

abbrev file_key_beq : FileKey → FileKey → Bool
file_key_beq a b =
    folder_device_eq.beq a.folder_device b.folder_device && bytes_eq.beq a.name b.name

pub file_key_beq_iff : (a b : FileKey) → (file_key_beq a b ≡ true) ↔ (a ≡ b)
file_key_beq_iff a b = ground (
  arith,
  folder_device_eq.beq_iff a.folder_device b.folder_device,
  bytes_eq.beq_iff a.name b.name,
)

instance abbrev pub file_key_eq : Eq FileKey
file_key_eq = record { beq = file_key_beq; beq_iff = file_key_beq_iff }

-- The other columns of bep_file_info.
pub record FileColumns : Type 0 where
  pub type_code : ℤ
  pub size : ℤ
  pub permissions : ℕ
  pub modified_s : ℤ
  pub modified_ns : ℤ
  pub modified_by : ℕ
  pub deleted : Bool
  pub invalid : Bool
  pub no_permissions : Bool
  pub sequence : ℤ
  pub block_size : ℤ
  pub symlink_target : Bytes

-- A row of bep_file_version. All its columns are its key.
pub record VersionRow : Type 0 where
  pub file : FileKey
  pub id : ℕ
  pub value : ℕ

-- A row of bep_block_info.
pub record BlockRow : Type 0 where
  pub file : FileKey
  pub offset : ℤ
  pub bi_size : ℤ
  pub hash : Bytes
  pub weak_hash : ℕ
  pub storage_status : ℕ

-- A row of bep_file_location. All its columns are its key.
pub record LocationRow : Type 0 where
  pub file : FileKey
  pub storage_backend : Bytes
  pub location : Bytes

-- `cache` is bep_local_cache, with timestamp_added.
pub record Database : Type 0 where
  pub indexes : List FolderDevice
  pub files : Dict FileKey FileColumns
  pub versions : List VersionRow
  pub blocks : List BlockRow
  pub locations : List LocationRow
  pub cache : Dict FileKey ℤ

pub data StorageStatus : Type 0 where
  not_stored stored_locally stored_remotely : StorageStatus

abbrev pub storage_status_code : StorageStatus → ℕ
storage_status_code not_stored = 0
storage_status_code stored_locally = 1
storage_status_code stored_remotely = 2

abbrev pub same_version : VersionRow → VersionRow → Bool
same_version a b =
    file_key_eq.beq a.file b.file && nat_eq.beq a.id b.id && nat_eq.beq a.value b.value

abbrev pub same_location : LocationRow → LocationRow → Bool
same_location a b =
    file_key_eq.beq a.file b.file
    && bytes_eq.beq a.storage_backend b.storage_backend
    && bytes_eq.beq a.location b.location

-- PRIMARY KEY (file_name, file_folder, file_device, offset, bi_size, hash)
abbrev pub same_block : BlockRow → BlockRow → Bool
same_block a b =
    file_key_eq.beq a.file b.file
    && int_eq.beq a.offset b.offset
    && int_eq.beq a.bi_size b.bi_size
    && bytes_eq.beq a.hash b.hash

module _ {A : Type 0} where
  abbrev pub any : (A → Bool) → List A → Bool
  any p [] = false
  any p (x ∷ xs) = p x || any p xs

  -- `SELECT ... WHERE p`, and what `DELETE ... WHERE NOT p` leaves.
  abbrev pub filter : (A → Bool) → List A → List A
  filter p [] = []
  filter p (x ∷ xs) = let rest = filter p xs in if p x then x ∷ rest else rest

  -- INSERT of a row that `same` has for a row with the same key, ON CONFLICT DO NOTHING.
  abbrev pub insert_or_ignore : (A → A → Bool) → A → List A → List A
  insert_or_ignore same r rows = if any (same r) rows then rows else rows ++ r ∷ []

-- FOREIGN KEY(type)
abbrev pub known_type : ℤ → Bool
known_type (pos n) = ltb n 5
known_type (negsuc n) = false

-- UNIQUE(sequence): whether a row of another file has the number.
abbrev pub sequence_taken : FileKey → ℤ → Dict FileKey FileColumns → Bool
sequence_taken k n [] = false
sequence_taken k n ((j, r) ∷ rows) =
    (not (file_key_eq.beq j k) && int_eq.beq r.sequence n) || sequence_taken k n rows

abbrev pub columns_of : FileInfo → FileColumns
columns_of f = record {
  type_code = f.type_code;
  size = f.size;
  permissions = f.permissions;
  modified_s = f.modified_s;
  modified_ns = f.modified_ns;
  modified_by = f.modified_by;
  deleted = f.deleted;
  invalid = f.invalid;
  no_permissions = f.no_permissions;
  sequence = f.sequence;
  block_size = f.block_size;
  symlink_target = f.symlink_target;
}

-- INSERT INTO bep_file_info, ON CONFLICT(folder, device, name) DO UPDATE
unfoldable pub insert_file_row :
    {E : Type 0} → FileKey → FileColumns → Database → Outcome E Database
insert_file_row k r db = do
  assert (any (folder_device_eq.beq k.folder_device) db.indexes)
  assert (known_type r.type_code)
  assert (not (sequence_taken k r.sequence db.files))
  ok (record db { files = insert k r db.files })

-- INSERT INTO bep_file_version for each counter, whose value has to fit an `i64`.
unfoldable pub insert_versions :
    {E : Type 0} → FileKey → List Counter → Database → Outcome E Database
insert_versions k [] db = ok db
insert_versions k (c ∷ cs) db = do
  assert (ltb c.value (2 ^ 63))
  let row : VersionRow = record { file = k; id = c.id; value = c.value }
  insert_versions k cs (record db { versions = insert_or_ignore same_version row db.versions })

abbrev pub block_row : FileKey → BlockInfo → BlockRow
block_row k b = record {
  file = k;
  offset = b.offset;
  bi_size = b.size;
  hash = b.hash;
  weak_hash = b.weak_hash;
  storage_status = storage_status_code not_stored;
}

-- INSERT INTO bep_block_info for each block, ON CONFLICT DO NOTHING
unfoldable pub insert_blocks : FileKey → List BlockInfo → Database → Database
insert_blocks k [] db = db
insert_blocks k (b ∷ bs) db =
    insert_blocks k bs
      (record db { blocks = insert_or_ignore same_block (block_row k b) db.blocks })

-- INSERT INTO bep_block_info of all blocks in one statement, where a conflict fails.
unfoldable pub push_blocks : {E : Type 0} → FileKey → List BlockInfo → Database → Outcome E Database
push_blocks k [] db = ok db
push_blocks k (b ∷ bs) db = do
  assert (not (any (same_block (block_row k b)) db.blocks))
  push_blocks k bs (record db { blocks = db.blocks ++ block_row k b ∷ [] })

-- DELETE FROM bep_file_info WHERE `p` holds for the file, with the rows that refer to it.
unfoldable pub delete_files : (FileKey → Bool) → Database → Database
delete_files p db = record db {
  files = filter (λ row. not (p row.0)) db.files;
  versions = filter (λ row. not (p row.file)) db.versions;
  blocks = filter (λ row. not (p row.file)) db.blocks;
  locations = filter (λ row. not (p row.file)) db.locations;
  cache = filter (λ row. not (p row.0)) db.cache;
}

-- SELECT MAX(sequence) FROM bep_file_info
abbrev pub max_from : ℤ → Dict FileKey FileColumns → ℤ
max_from n [] = n
max_from n ((k, r) ∷ rows) = max_from (if ltb_ℤ n r.sequence then r.sequence else n) rows

abbrev pub max_sequence : Dict FileKey FileColumns → Option ℤ
max_sequence [] = none
max_sequence ((k, r) ∷ rows) = some (max_from r.sequence rows)
