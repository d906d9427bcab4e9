-- ===== src/State/Cluster.antt =====
-- The folders and the devices of a cluster configuration in the database, the part of
-- src/core/bep_state.rs that keeps them and reads them back. The rows come in the order of their insertion.
use grizol.Prelude.{
  ℕ, Bool, false, ◌||◌, Option, none, some, List, [], ◌∷◌, ◌++◌, map, ltb, ◌==◌, if◌then◌else◌,
}
use grizol.Prelude.Int.{ℤ, pos, negsuc}
use grizol.Prelude.Keys.{bytes_eq, Dict, lookup, insert}
use grizol.Prelude.Outcome.{Outcome, ok, ◌>>=◌, ◌>>◌, assert, expect}
use grizol.Prelude.Bytes.{Bytes}
use grizol.Proto.{Folder, Device, ClusterConfig}
use grizol.DeviceId.{DeviceId, try_from_bytes}
use grizol.Config.{device_id_eq}
use grizol.State.Tables.{filter}

-- The columns of bep_folders but for the id.
pub record FolderRow : Type 0 where
  pub label : Bytes
  pub read_only : Bool
  pub ignore_permissions : Bool
  pub ignore_delete : Bool
  pub disable_temp_indexes : Bool
  pub paused : Bool

-- The columns of bep_devices but for the id, which alone is the key.
pub record DeviceRow : Type 0 where
  pub folder : Bytes
  pub name : Bytes
  pub addresses : Bytes
  pub compression : ℤ
  pub cert_name : Bytes
  pub max_sequence : ℤ
  pub introducer : Bool
  pub index_id : ℕ
  pub skip_introduction_removals : Bool
  pub encryption_password_token : Bytes

pub record ClusterTables : Type 0 where
  pub folders : Dict Bytes FolderRow
  pub devices : Dict DeviceId DeviceRow

-- `join(",")`
unfoldable pub join_comma : List Bytes → Bytes
join_comma [] = []
join_comma (a ∷ []) = a
join_comma (a ∷ b ∷ bs) = a ++ 44 ∷ join_comma (b ∷ bs)

abbrev pub push_byte : ℕ → List Bytes → List Bytes
push_byte c [] = (c ∷ []) ∷ []
push_byte c (w ∷ ws) = (c ∷ w) ∷ ws

-- `split(',')`
unfoldable pub split_comma : Bytes → List Bytes
split_comma [] = [] ∷ []
split_comma (c ∷ cs) = let rest = split_comma cs in if c == 44 then [] ∷ rest else push_byte c rest

-- FOREIGN KEY(compression)
abbrev pub known_compression : ℤ → Bool
known_compression (pos n) = ltb n 3
known_compression (negsuc n) = false

-- The index id of the local device is not kept.
abbrev pub device_row : Bytes → Device → DeviceId → DeviceRow
device_row folder device local_device_id = record {
  folder = folder;
  name = device.name;
  addresses = join_comma device.addresses;
  compression = device.compression;
  cert_name = device.cert_name;
  max_sequence = pos 0;
  introducer = device.introducer;
  index_id = if bytes_eq.beq device.id local_device_id.id then 0 else device.index_id;
  skip_introduction_removals = device.skip_introduction_removals;
  encryption_password_token = device.encryption_password_token;
}

unfoldable pub insert_devices :
    {E : Type 0} → Bytes → List Device → DeviceId → ClusterTables → Outcome E ClusterTables
insert_devices folder [] local_device_id t = ok t
insert_devices folder (d ∷ ds) local_device_id t = do
  device_id ← expect (try_from_bytes d.id)
  assert (known_compression d.compression)
  insert_devices folder ds local_device_id
      (record t { devices = insert device_id (device_row folder d local_device_id) t.devices })

abbrev pub folder_row : Folder → FolderRow
folder_row f = record {
  label = f.label;
  read_only = f.read_only;
  ignore_permissions = f.ignore_permissions;
  ignore_delete = f.ignore_delete;
  disable_temp_indexes = f.disable_temp_indexes;
  paused = f.paused;
}

unfoldable pub insert_folders :
    {E : Type 0} → List Folder → DeviceId → ClusterTables → Outcome E ClusterTables
insert_folders [] local_device_id t = ok t
insert_folders (f ∷ fs) local_device_id t = do
  t₁ ←
      insert_devices f.id f.devices local_device_id
        (record t { folders = insert f.id (folder_row f) t.folders })
  insert_folders fs local_device_id t₁

-- The results of the statements, which the callers drop, are left out.
unfoldable pub update_cluster_config :
    {E : Type 0} → ClusterConfig → DeviceId → ClusterTables → Outcome E ClusterTables
update_cluster_config other local_device_id t = insert_folders other.folders local_device_id t

-- `Compression::Never`
abbrev pub compression_never : ℤ
compression_never = pos 1

abbrev pub device_of : DeviceId × DeviceRow → Bytes × Device
device_of (id, r) = (
  r.folder,
  record {
    id = id.id;
    name = r.name;
    addresses = split_comma r.addresses;
    compression = compression_never;
    cert_name = r.cert_name;
    max_sequence = r.max_sequence;
    introducer = r.introducer;
    index_id = r.index_id;
    skip_introduction_removals = r.skip_introduction_removals;
    encryption_password_token = r.encryption_password_token;
  },
)

abbrev pub folder_of : List (Bytes × Device) → Bytes → FolderRow → Folder
folder_of devices id r = record {
  id = id;
  label = r.label;
  read_only = r.read_only;
  ignore_permissions = r.ignore_permissions;
  ignore_delete = r.ignore_delete;
  disable_temp_indexes = r.disable_temp_indexes;
  paused = r.paused;
  devices = map (λ (x : Bytes × Device). x.1) (filter (λ x. bytes_eq.beq x.0 id) devices);
}

folder_in : List (Bytes × Device) → Bytes → Option FolderRow → List Folder
folder_in devices id none = []
folder_in devices id (some r) = folder_of devices id r ∷ []

-- The join of the folders with the row of the client.
folders_of_client : List (Bytes × Device) → Option DeviceRow → Dict Bytes FolderRow → List Folder
folders_of_client devices none folders = []
folders_of_client devices (some r) folders = folder_in devices r.folder (lookup r.folder folders)

unfoldable pub cluster_config : DeviceId → DeviceId → ClusterTables → ClusterConfig
unfolding folders_of_client folder_in
cluster_config local_device_id client_device_id t =
    let devices = map device_of (
      filter
        (λ (row : DeviceId × DeviceRow).
          device_id_eq.beq row.0 local_device_id || device_id_eq.beq row.0 client_device_id)
        t.devices) in
    record { folders = folders_of_client devices (lookup client_device_id t.devices) t.folders }
