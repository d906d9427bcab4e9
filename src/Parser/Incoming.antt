-- ===== src/Parser/Incoming.antt =====
-- `IncomingMessage` and `try_parse_header` of src/core/bep_data_parser.rs.
-- The protobuf and LZ4 decoders are other crates: `Decoders` is what the parser calls of them.
use grizol.Prelude.{
  ℕ, ◌+◌, ◌-◌, Bool, true, false, Option, none, some, [], ◌++◌, length, ltb, leb, ◌==◌,
  if◌then◌else◌,
}
use grizol.Prelude.Outcome.{Outcome, ok, err, panic, diverge, ◌>>=◌}
use grizol.Prelude.Bytes.{Bytes, slice, from_be_bytes}
use grizol.Proto.{
  Hello, Header, ClusterConfig, Index, IndexUpdate, Request, Response, DownloadProgress, Ping,
  Close,
}

-- `none` is an `Err` of the decoder.
pub record Decoders : Type 0 where
  pub header : Bytes → Option Header
  pub hello : Bytes → Option Hello
  pub cluster_config : Bytes → Option ClusterConfig
  pub index : Bytes → Option Index
  pub index_update : Bytes → Option IndexUpdate
  pub request : Bytes → Option Request
  pub response : Bytes → Option Response
  pub download_progress : Bytes → Option DownloadProgress
  pub ping : Bytes → Option Ping
  pub close : Bytes → Option Close
  pub decompress : Bytes → ℕ → Option Bytes

pub data ParseError : Type 0 where
  no_incoming_message_yet not_enough_header_len_data not_enough_header_data : ParseError
  no_magic_hello generic : ParseError

pub data BepAuthStatus : Type 0 where
  pre_hello post_hello : BepAuthStatus

pub data IncomingMessageStatus : Type 0 where
  incomplete complete : IncomingMessageStatus

abbrev pub hello_len_start : ℕ
hello_len_start = 4

abbrev pub hello_start : ℕ
hello_start = 6

abbrev pub header_start : ℕ
header_start = 2

pub record IncomingMessage : Type 0 where
  pub auth_status : BepAuthStatus
  pub data_bytes : Bytes
  pub header : Option Header

-- `a - b` on `usize`, which unwinds below zero.
abbrev pub sub_usize : {E : Type 0} → ℕ → ℕ → Outcome E ℕ
sub_usize a b = if leb b a then ok (a - b) else panic

-- `IncomingMessage::new`
abbrev pub new_message : BepAuthStatus → IncomingMessage
new_message s = record { auth_status = s; data_bytes = []; header = none }

abbrev pub total_byte_len : IncomingMessage → ℕ
total_byte_len im = length im.data_bytes

-- The number in `data[from..to]`.
abbrev pub read_be : {E : Type 0} → ℕ → ℕ → Bytes → Outcome E ℕ
read_be from to d = slice from to d >>= λ s. ok (from_be_bytes s)

unfoldable pub message_start_pos : {E : Type 0} → IncomingMessage → Outcome E (Option ℕ)
message_start_pos im = do
  header_byte_len ← read_be 0 header_start im.data_bytes
  ok (some (header_start + header_byte_len + 4))

pre_hello_byte_len : {E : Type 0} → IncomingMessage → Outcome E (Option ℕ)
pre_hello_byte_len im =
    if leb hello_start (length im.data_bytes)
    then (read_be hello_len_start hello_start im.data_bytes >>= λ n. ok (some n))
    else ok none

post_hello_byte_len : {E : Type 0} → Option Header → IncomingMessage → Outcome E (Option ℕ)
post_hello_byte_len none im = ok none
post_hello_byte_len (some h) im = do
  header_byte_len ← read_be 0 header_start im.data_bytes
  let message_len_start = header_start + header_byte_len
  let message_start = message_len_start + 4
  if leb message_start (length im.data_bytes)
      then (read_be message_len_start message_start im.data_bytes >>= λ n. ok (some n))
      else ok none

message_byte_len_at : {E : Type 0} → BepAuthStatus → IncomingMessage → Outcome E (Option ℕ)
message_byte_len_at pre_hello im = pre_hello_byte_len im
message_byte_len_at post_hello im = post_hello_byte_len im.header im

unfoldable pub message_byte_len : {E : Type 0} → IncomingMessage → Outcome E (Option ℕ)
unfolding message_byte_len_at pre_hello_byte_len post_hello_byte_len
message_byte_len im = message_byte_len_at im.auth_status im

unfoldable pub header_byte_len : {E : Type 0} → IncomingMessage → Outcome E (Option ℕ)
header_byte_len im =
    if ltb (length im.data_bytes) header_start
    then ok none
    else (read_be 0 header_start im.data_bytes >>= λ n. ok (some n))

-- `o.map(f)` where `f` may unwind.
abbrev pub map_opt : {E A B : Type 0} → (A → Outcome E B) → Option A → Outcome E (Option B)
map_opt f none = ok none
map_opt f (some a) = f a >>= λ b. ok (some b)

unfoldable pub missing_header_bytes : {E : Type 0} → IncomingMessage → Outcome E (Option ℕ)
unfolding header_byte_len
missing_header_bytes im = do
  len ← header_byte_len im
  map_opt (λ n. sub_usize (header_start + n) (total_byte_len im)) len

missing_from : {E : Type 0} → IncomingMessage → Option ℕ → Outcome E (Option ℕ)
missing_from im none = ok none
missing_from im (some start) = do
  len ← message_byte_len im
  map_opt (λ mbl. sub_usize (mbl + start) (length im.data_bytes)) len

missing_message_bytes_at : {E : Type 0} → BepAuthStatus → IncomingMessage → Outcome E (Option ℕ)
missing_message_bytes_at pre_hello im = do
  len ← message_byte_len im
  map_opt (λ mbl. sub_usize (mbl + hello_start) (length im.data_bytes)) len
missing_message_bytes_at post_hello im = do start ← message_start_pos im; missing_from im start

unfoldable pub missing_message_bytes : {E : Type 0} → IncomingMessage → Outcome E (Option ℕ)
unfolding missing_message_bytes_at missing_from message_start_pos message_byte_len
missing_message_bytes im = missing_message_bytes_at im.auth_status im

abbrev complete_if : Bool → IncomingMessageStatus
complete_if true = complete
complete_if false = incomplete

pre_hello_status : IncomingMessage → Option ℕ → IncomingMessageStatus
pre_hello_status im none = incomplete
pre_hello_status im (some mbl) = complete_if (length im.data_bytes == hello_start + mbl)

post_hello_status : Option ℕ → IncomingMessageStatus
post_hello_status none = incomplete
post_hello_status (some missing) = complete_if (missing == 0)

status_at :
    {E : Type 0} → BepAuthStatus → Option Header → IncomingMessage → Outcome E IncomingMessageStatus
status_at pre_hello h im = message_byte_len im >>= λ len. ok (pre_hello_status im len)
status_at post_hello none im = ok incomplete
status_at post_hello (some h) im =
    missing_message_bytes im >>= λ missing. ok (post_hello_status missing)

-- `IncomingMessage::status`
unfoldable pub status : {E : Type 0} → IncomingMessage → Outcome E IncomingMessageStatus
unfolding status_at pre_hello_status post_hello_status message_byte_len missing_message_bytes
status im = status_at im.auth_status im.header im

module _ (decoders : Decoders) where
  unfoldable pub try_parse_header : Bytes → Outcome ParseError Header
  try_parse_header buf =
      if ltb (length buf) header_start then err not_enough_header_len_data else do
        header_byte_len ← read_be 0 header_start buf
        let header_end = header_start + header_byte_len
        if ltb (length buf) header_end then err not_enough_header_data else do
          s ← slice header_start header_end buf
          elim (decoders.header s) [ none ↦ panic | some h ↦ ok h ]

  -- Every error of `try_parse_header` is logged and ignored.
  keep_header : IncomingMessage → Outcome ParseError Header → Outcome ParseError IncomingMessage
  keep_header im (ok h) = ok (record im { header = some h })
  keep_header im (err e) = ok im
  keep_header im panic = panic
  keep_header im diverge = diverge

  parse_header_at :
      BepAuthStatus → Option Header → IncomingMessage → Outcome ParseError IncomingMessage
  parse_header_at pre_hello h im = ok im
  parse_header_at post_hello (some h) im = ok im
  parse_header_at post_hello none im = keep_header im (try_parse_header im.data_bytes)

  -- `IncomingMessage::add_data`
  unfoldable pub add_data : IncomingMessage → Bytes → Outcome ParseError IncomingMessage
  unfolding parse_header_at keep_header try_parse_header
  add_data im buf =
      let im' = record im { data_bytes = im.data_bytes ++ buf } in
      parse_header_at im.auth_status im.header im'
