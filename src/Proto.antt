-- ===== src/Proto.antt =====
-- The messages of src/proto/bep.proto, as the structs generated from it have them. A `string` is its
-- bytes, an `enum` field is the `i32` on the wire, and a `uint64` is a number.
use grizol.Prelude.{ℕ, zero, suc, Bool, Option, none, some, List}
use grizol.Prelude.Int.{ℤ, pos}
use grizol.Prelude.Bytes.{Bytes}

pub record Hello : Type 0 where
  pub device_name : Bytes
  pub client_name : Bytes
  pub client_version : Bytes

-- The field `type` is `type_code`.
pub record Header : Type 0 where
  pub type_code : ℤ
  pub compression : ℤ

pub data MessageType : Type 0 where
  cluster_config index index_update request response download_progress ping close : MessageType

pub data MessageCompression : Type 0 where
  uncompressed lz4 : MessageCompression

-- `i32::from(message_type)`
abbrev pub message_type_code : MessageType → ℤ
message_type_code MessageType.cluster_config = pos 0
message_type_code MessageType.index = pos 1
message_type_code MessageType.index_update = pos 2
message_type_code MessageType.request = pos 3
message_type_code MessageType.response = pos 4
message_type_code MessageType.download_progress = pos 5
message_type_code MessageType.ping = pos 6
message_type_code MessageType.close = pos 7

abbrev nth_message_type : ℕ → Option MessageType
nth_message_type zero = some MessageType.cluster_config
nth_message_type (suc zero) = some MessageType.index
nth_message_type (suc (suc zero)) = some MessageType.index_update
nth_message_type (suc (suc (suc zero))) = some MessageType.request
nth_message_type (suc (suc (suc (suc zero)))) = some MessageType.response
nth_message_type (suc (suc (suc (suc (suc zero))))) = some MessageType.download_progress
nth_message_type (suc (suc (suc (suc (suc (suc zero)))))) = some MessageType.ping
nth_message_type (suc (suc (suc (suc (suc (suc (suc zero))))))) = some MessageType.close
nth_message_type (suc (suc (suc (suc (suc (suc (suc (suc n)))))))) = none

-- `MessageType::try_from(code)`
abbrev pub message_type_of : ℤ → Option MessageType
message_type_of (pos n) = nth_message_type n
message_type_of (ℤ.negsuc n) = none

-- `MessageCompression::try_from(code)`
abbrev pub compression_of : ℤ → Option MessageCompression
compression_of (pos zero) = some MessageCompression.uncompressed
compression_of (pos (suc zero)) = some MessageCompression.lz4
compression_of (pos (suc (suc n))) = none
compression_of (ℤ.negsuc n) = none

pub record Device : Type 0 where
  pub id : Bytes
  pub name : Bytes
  pub addresses : List Bytes
  pub compression : ℤ
  pub cert_name : Bytes
  pub max_sequence : ℤ
  pub introducer : Bool
  pub index_id : ℕ
  pub skip_introduction_removals : Bool
  pub encryption_password_token : Bytes

pub record Folder : Type 0 where
  pub id : Bytes
  pub label : Bytes
  pub read_only : Bool
  pub ignore_permissions : Bool
  pub ignore_delete : Bool
  pub disable_temp_indexes : Bool
  pub paused : Bool
  pub devices : List Device

pub record ClusterConfig : Type 0 where
  pub folders : List Folder

pub record Counter : Type 0 where
  pub id : ℕ
  pub value : ℕ

pub record Vector : Type 0 where
  pub counters : List Counter

pub record BlockInfo : Type 0 where
  pub offset : ℤ
  pub size : ℤ
  pub hash : Bytes
  pub weak_hash : ℕ

-- The field `type` is `type_code`.
pub record FileInfo : Type 0 where
  pub name : Bytes
  pub type_code : ℤ
  pub size : ℤ
  pub permissions : ℕ
  pub modified_s : ℤ
  pub modified_ns : ℤ
  pub modified_by : ℕ
  pub deleted : Bool
  pub invalid : Bool
  pub no_permissions : Bool
  pub version : Option Vector
  pub sequence : ℤ
  pub block_size : ℤ
  pub blocks : List BlockInfo
  pub symlink_target : Bytes

pub record Index : Type 0 where
  pub folder : Bytes
  pub files : List FileInfo

pub record IndexUpdate : Type 0 where
  pub folder : Bytes
  pub files : List FileInfo

pub record Request : Type 0 where
  pub id : ℤ
  pub folder : Bytes
  pub name : Bytes
  pub offset : ℤ
  pub size : ℤ
  pub hash : Bytes
  pub from_temporary : Bool

-- The field `data` is `bytes`.
pub record Response : Type 0 where
  pub id : ℤ
  pub bytes : Bytes
  pub code : ℤ

pub record FileDownloadProgressUpdate : Type 0 where
  pub update_type : ℤ
  pub name : Bytes
  pub version : Option Vector
  pub block_indexes : List ℤ

pub record DownloadProgress : Type 0 where
  pub folder : Bytes
  pub updates : List FileDownloadProgressUpdate

pub data Ping : Type 0 where
  empty : Ping

pub record Close : Type 0 where
  pub reason : Bytes
