-- ===== src/Indices/Lookups.antt =====
-- What the indices have under a name after a file was inserted or removed.
use grizol.Prelude.{◌≡◌, refl, ap, ◌∙◌, Option, none, some, List, [], ◌∷◌, if◌then◌else◌, arith}
use grizol.Prelude.Keys.{bytes_eq, Dict, lookup, lookup-insert, lookup-erase, insert, erase}
use grizol.Prelude.Bytes.{Bytes}
use grizol.Proto.{FileInfo}
use grizol.DeviceId.{DeviceId}
use grizol.Indices.{
  FolderDevice, folder_device_eq, GrizolIndices, insert_files, or_default, insert_file_info,
  remove_file_info,
}

-- The file of a name, of a folder on a device.
abbrev pub file_of : FolderDevice → Bytes → GrizolIndices → Option FileInfo
file_of folder_device name s = lookup name (or_default (lookup folder_device s.indices)).files

-- The last file of the list with the name, or else `o`.
abbrev pub last_named : Bytes → List FileInfo → Option FileInfo → Option FileInfo
last_named name [] o = o
last_named name (f ∷ fs) o = last_named name fs (if bytes_eq.beq f.name name then some f else o)

lookup-insert_files :
    (name : Bytes) (fs : List FileInfo) (m : Dict Bytes FileInfo)
    → lookup name (insert_files fs m) ≡ last_named name fs (lookup name m)
lookup-insert_files name [] m = refl
lookup-insert_files name (f ∷ fs) m =
    lookup-insert_files name fs (insert f.name f m)
    ∙ ap (last_named name fs) (lookup-insert f.name name f m)

-- After insert_file_info, a name has in the folder on the device the last of the inserted files with
-- that name, or else what it had; other folders and devices keep theirs.
pub file_of-insert_file_info :
    (folder name : Bytes) (device_id : DeviceId) (fs : List FileInfo) (other : FolderDevice)
    (s : GrizolIndices)
    → file_of other name (insert_file_info folder device_id fs s) ≡ (
        if folder_device_eq.beq (record { folder = folder; device_id = device_id }) other
        then last_named name fs (file_of other name s)
        else file_of other name s)
unfolding insert_file_info
file_of-insert_file_info folder name device_id fs other s =
    let key : FolderDevice = record { folder = folder; device_id = device_id } in
    let index = or_default (lookup key s.indices) in
    ground (
      arith,
      lookup-insert key other (record index { files = insert_files fs index.files }) s.indices,
      lookup-insert_files name fs index.files,
      folder_device_eq.beq_iff key other,
    )

-- Remove_file_info returns what the name had in the folder on the device; the name has no file
-- afterwards, and the other names keep theirs.
remove_file_info-file_of :
    (folder name file_name : Bytes) (device_id : DeviceId) (s : GrizolIndices)
    → ((remove_file_info folder device_id file_name s).0
        ≡ file_of (record { folder = folder; device_id = device_id }) file_name s)
      × (file_of
            (record { folder = folder; device_id = device_id })
            name
            (remove_file_info folder device_id file_name s).1
          ≡ (if bytes_eq.beq file_name name
              then none
              else file_of (record { folder = folder; device_id = device_id }) name s))
unfolding remove_file_info
remove_file_info-file_of folder name file_name device_id s =
    let key : FolderDevice = record { folder = folder; device_id = device_id } in
    let index = or_default (lookup key s.indices) in
    (
      refl,
      ground (
        arith,
        lookup-insert key key (record index { files = erase file_name index.files }) s.indices,
        lookup-erase file_name name index.files,
        folder_device_eq.beq_iff key key,
      ),
    )
