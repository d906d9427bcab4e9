-- ===== src/Indices.antt =====
-- The indices that are kept in memory, src/core/indices.rs: for a folder and a device, the files by name.
pub mod Lookups
use grizol.Prelude.{
  ℕ, ◌≡◌, ◌↔◌, Bool, true, false, ◌&&◌, Option, none, some, List, [], ◌∷◌, if◌then◌else◌, arith,
}
use grizol.Prelude.Keys.{Eq, bytes_eq, Dict, lookup, insert, erase}
use grizol.Prelude.Bytes.{Bytes}
use grizol.Proto.{FileInfo, Index}
use grizol.DeviceId.{DeviceId}

pub record FolderDevice : Type 0 where
  pub folder : Bytes
  pub device_id : DeviceId

-- The derived `Eq`.
abbrev pub folder_device_beq : FolderDevice → FolderDevice → Bool
folder_device_beq a b = bytes_eq.beq a.folder b.folder && bytes_eq.beq a.device_id.id b.device_id.id

pub folder_device_beq_iff : (a b : FolderDevice) → (folder_device_beq a b ≡ true) ↔ (a ≡ b)
folder_device_beq_iff a b =
    ground
      (arith, bytes_eq.beq_iff a.folder b.folder, bytes_eq.beq_iff a.device_id.id b.device_id.id)

instance abbrev pub folder_device_eq : Eq FolderDevice
folder_device_eq = record { beq = folder_device_beq; beq_iff = folder_device_beq_iff }

pub record GrizolIndex : Type 0 where
  pub folder : Bytes
  pub files : Dict Bytes FileInfo

pub record GrizolIndices : Type 0 where
  pub indices : Dict FolderDevice GrizolIndex

abbrev pub default_index : GrizolIndex
default_index = record { folder = []; files = [] }

-- The loop that inserts files under their names.
abbrev pub insert_files : List FileInfo → Dict Bytes FileInfo → Dict Bytes FileInfo
insert_files [] m = m
insert_files (f ∷ fs) m = insert_files fs (insert f.name f m)

-- `GrizolIndex::from(index)`
abbrev pub from_index : Index → GrizolIndex
from_index value = record { folder = value.folder; files = insert_files value.files [] }

abbrev pub values : Dict Bytes FileInfo → List FileInfo
values [] = []
values ((name, f) ∷ m) = f ∷ values m

-- `Index::from(grizol_index)`
abbrev pub to_index : GrizolIndex → Index
to_index value = record { folder = value.folder; files = values value.files }

abbrev pub map_index : Option GrizolIndex → Option Index
map_index none = none
map_index (some i) = some (to_index i)

-- `insert`, which returns the index that it replaces.
unfoldable pub insert_index : DeviceId → Index → GrizolIndices → Option Index × GrizolIndices
insert_index device_id index s =
    let key : FolderDevice = record { folder = index.folder; device_id = device_id } in
    (map_index (lookup key s.indices), record { indices = insert key (from_index index) s.indices })

-- `index`
unfoldable pub index_of : FolderDevice → GrizolIndices → Option Index
index_of folder_device s = map_index (lookup folder_device s.indices)

abbrev pub or_default : Option GrizolIndex → GrizolIndex
or_default none = default_index
or_default (some i) = i

unfoldable pub insert_file_info : Bytes → DeviceId → List FileInfo → GrizolIndices → GrizolIndices
insert_file_info folder device_id file_info s =
    let folder_device : FolderDevice = record { folder = folder; device_id = device_id } in
    let index = or_default (lookup folder_device s.indices) in
    record {
      indices =
          insert folder_device (record index { files = insert_files file_info index.files })
            s.indices;
    }

unfoldable pub remove_file_info :
    Bytes → DeviceId → Bytes → GrizolIndices → Option FileInfo × GrizolIndices
remove_file_info folder device_id file_name s =
    let folder_device : FolderDevice = record { folder = folder; device_id = device_id } in
    let index = or_default (lookup folder_device s.indices) in
    (
      lookup file_name index.files,
      record {
        indices =
            insert folder_device (record index { files = erase file_name index.files }) s.indices;
      },
    )
