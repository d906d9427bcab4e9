-- ===== src/Config.antt =====
-- The configuration, src/core.rs: the conversion from the message of src/proto/config.proto. The
-- parser of sizes is another crate, the user's ids are the system's, and the certificate is read from
-- a file: these are a parameter. A duration is in milliseconds.
pub mod Peers
mod Tests
use grizol.Prelude.{
  ℕ, zero, suc, ◌^◌, ◌≡◌, ◌↔◌, Bool, true, false, Option, none, some, List, [], ◌∷◌, ltb,
  if◌then◌else◌, arith,
}
use grizol.Prelude.Int.{ℤ, pos, negsuc}
use grizol.Prelude.Keys.{Eq, bytes_eq}
use grizol.Prelude.Outcome.{Outcome, ok, err, panic, diverge, ◌>>=◌, unwrap}
use grizol.Prelude.Bytes.{Bytes}
use grizol.DeviceId.{DeviceId, Base32, IdError, try_from_text}
use grizol.Requests.{add}

pub data StorageStrategy : Type 0 where
  remote local_remote : StorageStrategy

pub record ProtoConfig : Type 0 where
  pub name : Bytes
  pub address : Bytes
  pub cert : Bytes
  pub key : Bytes
  pub trusted_peers : List Bytes
  pub base_dir : Bytes
  pub db_url : Bytes
  pub storage_strategy : ℤ
  pub rclone_config : Bytes
  pub remote_base_dir : Bytes
  pub mountpoint : Bytes
  pub read_cache_dir : Bytes
  pub read_cache_size : Bytes
  pub fuse_refresh_rate_ms : Option ℕ
  pub max_pending_requests : Option ℕ
  pub max_total_pending_requests_size : Bytes
  pub fuse_inmem : Bool

pub record Environment : Type 0 where
  pub parse_size : Bytes → Option ℕ
  pub read_certificate : Bytes → Outcome IdError DeviceId
  pub euid : ℕ
  pub egid : ℕ
  pub base32 : Base32

pub record GrizolConfig : Type 0 where
  pub local_device_id : DeviceId
  pub name : Bytes
  pub trusted_peers : List DeviceId
  pub local_base_dir : Bytes
  pub net_address : Bytes
  pub db_url : Bytes
  pub storage_strategy : StorageStrategy
  pub rclone_config : Option Bytes
  pub remote_base_dir : Bytes
  pub read_cache_dir : Bytes
  pub read_cache_size : ℕ
  pub mountpoint : Option Bytes
  pub fuse_refresh_rate : ℕ
  pub uid : ℕ
  pub gid : ℕ
  pub max_pending_requests : ℕ
  pub max_total_pending_requests_size : ℕ
  pub fuse_inmem : Bool

abbrev pub default_name : Bytes
default_name = 71 ∷ 114 ∷ 105 ∷ 122 ∷ 111 ∷ 108 ∷ 32 ∷ 83 ∷ 101 ∷ 114 ∷ 118 ∷ 101 ∷ 114 ∷ []

abbrev pub default_address : Bytes
default_address = 48 ∷ 46 ∷ 48 ∷ 46 ∷ 48 ∷ 46 ∷ 48 ∷ 58 ∷ 50 ∷ 51 ∷ 52 ∷ 53 ∷ 54 ∷ []

abbrev pub default_base_dir : Bytes
default_base_dir =
    126 ∷ 47 ∷ 103 ∷ 114 ∷ 105 ∷ 122 ∷ 111 ∷ 108 ∷ 47 ∷ 115 ∷ 116 ∷ 97 ∷ 103 ∷ 105 ∷ 110 ∷ 103 ∷ 95
    ∷ 97 ∷ 114 ∷ 101 ∷ 97 ∷ []

abbrev pub default_db_url : Bytes
default_db_url =
    115 ∷ 113 ∷ 108 ∷ 105 ∷ 116 ∷ 101 ∷ 58 ∷ 126 ∷ 47 ∷ 46 ∷ 103 ∷ 114 ∷ 105 ∷ 122 ∷ 111 ∷ 108 ∷ 47
    ∷ 103 ∷ 114 ∷ 105 ∷ 122 ∷ 111 ∷ 108 ∷ 46 ∷ 100 ∷ 98 ∷ []

abbrev pub default_remote_base_dir : Bytes
default_remote_base_dir = 103 ∷ 114 ∷ 105 ∷ 122 ∷ 111 ∷ 108 ∷ []

abbrev pub default_read_cache_dir : Bytes
default_read_cache_dir =
    126 ∷ 47 ∷ 46 ∷ 103 ∷ 114 ∷ 105 ∷ 122 ∷ 111 ∷ 108 ∷ 47 ∷ 114 ∷ 101 ∷ 97 ∷ 100 ∷ 95 ∷ 99 ∷ 97
    ∷ 99 ∷ 104 ∷ 101 ∷ []

-- The derived `Eq` of device ids.
abbrev pub device_id_beq : DeviceId → DeviceId → Bool
device_id_beq a b = bytes_eq.beq a.id b.id

pub device_id_beq_iff : (a b : DeviceId) → (device_id_beq a b ≡ true) ↔ (a ≡ b)
device_id_beq_iff a b = ground (arith, bytes_eq.beq_iff a.id b.id)

instance abbrev pub device_id_eq : Eq DeviceId
device_id_eq = record { beq = device_id_beq; beq_iff = device_id_beq_iff }

abbrev pub or_text : Bytes → Bytes → Bytes
or_text [] default = default
or_text (c ∷ cs) default = c ∷ cs

abbrev pub some_text : Bytes → Option Bytes
some_text [] = none
some_text (c ∷ cs) = some (c ∷ cs)

abbrev pub or_number : Option ℕ → ℕ → ℕ
or_number none default = default
or_number (some n) default = n

-- An unknown strategy is `Remote`.
abbrev pub storage_strategy_of : ℤ → StorageStrategy
storage_strategy_of (pos zero) = remote
storage_strategy_of (pos (suc zero)) = local_remote
storage_strategy_of (pos (suc (suc n))) = remote
storage_strategy_of (negsuc n) = remote

-- A text that is no size unwinds.
abbrev pub size_or : Environment → Bytes → ℕ → Outcome IdError ℕ
size_or env [] default = ok default
size_or env (c ∷ cs) default = unwrap (env.parse_size (c ∷ cs))

-- `result.unwrap()`
abbrev pub unwrap_result : {A : Type 0} → Outcome IdError A → Outcome IdError A
unwrap_result (ok a) = ok a
unwrap_result (err e) = panic
unwrap_result panic = panic
unwrap_result diverge = diverge

-- The set of the trusted peers, behind those that are in it already.
unfoldable pub peers_of : Base32 → List Bytes → List DeviceId → Outcome IdError (List DeviceId)
peers_of base32 [] peers = ok peers
peers_of base32 (x ∷ xs) peers = do
  d ← unwrap_result (try_from_text base32 x)
  peers_of base32 xs (add d peers)

-- The record of what the conversion has computed.
abbrev pub config_of : Environment → ProtoConfig → ℕ → ℕ → DeviceId → List DeviceId → GrizolConfig
config_of env c read_cache_size max_total_pending_requests_size local_device_id trusted_peers =
    record {
      local_device_id = local_device_id;
      name = or_text c.name default_name;
      trusted_peers = trusted_peers;
      local_base_dir = or_text c.base_dir default_base_dir;
      net_address = or_text c.address default_address;
      db_url = or_text c.db_url default_db_url;
      storage_strategy = storage_strategy_of c.storage_strategy;
      rclone_config = some_text c.rclone_config;
      remote_base_dir = or_text c.remote_base_dir default_remote_base_dir;
      read_cache_dir = or_text c.read_cache_dir default_read_cache_dir;
      read_cache_size = read_cache_size;
      mountpoint = some_text c.mountpoint;
      fuse_refresh_rate = or_number c.fuse_refresh_rate_ms 0;
      uid = env.euid;
      gid = env.egid;
      max_pending_requests = or_number c.max_pending_requests 10000;
      max_total_pending_requests_size = max_total_pending_requests_size;
      fuse_inmem = c.fuse_inmem;
    }

unfoldable pub from_proto : Environment → ProtoConfig → Outcome IdError GrizolConfig
from_proto env c = do
  read_cache_size ← size_or env c.read_cache_size 1000000000
  max_total_pending_requests_size ← size_or env c.max_total_pending_requests_size 1000000000
  local_device_id ← env.read_certificate c.cert
  trusted_peers ← peers_of env.base32 c.trusted_peers []
  ok (config_of env c read_cache_size max_total_pending_requests_size local_device_id trusted_peers)
