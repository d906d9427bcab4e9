-- ===== src/Wire.antt =====
-- The sending half of a connection, src/main.rs: the loop of `handle_incoming_data` that turns events
-- into bytes, `serialize_message` and `serialize_hello`; and its reading loop over the parser.
-- `GrizolEvent` is that of src/core.rs. The protobuf encoders are another crate, and a parameter.
pub mod Frames
pub mod Bodies
pub mod Hellos
pub mod RoundTrip
mod Tests
use grizol.Prelude.{
  ℕ, ◌^◌, Bool, Option, none, some, List, [], ◌∷◌, ◌++◌, length, map, ltb, if◌then◌else◌,
}
use grizol.Prelude.Outcome.{Outcome, ok, panic, ◌>>=◌, ◌>>◌, unwrap}
use grizol.Prelude.Bytes.{Bytes, u16_to_be_bytes, u32_to_be_bytes}
use grizol.Prelude.Int.{pos}
use grizol.Proto.{
  Hello, Header, ClusterConfig, Index, IndexUpdate, Request, Response, DownloadProgress, Ping,
  Close, MessageType, message_type_code,
}
use grizol.Parser.Incoming.{Decoders, ParseError}
use grizol.Parser.Decode.{CompleteMessage, magic_number}
use grizol.Parser.Machine.{BepDataParser, parse_incoming_data}

-- `encode_to_vec` of each message.
pub record Encoders : Type 0 where
  pub header : Header → Bytes
  pub hello : Hello → Bytes
  pub cluster_config : ClusterConfig → Bytes
  pub index : Index → Bytes
  pub index_update : IndexUpdate → Bytes
  pub request : Request → Bytes
  pub response : Response → Bytes
  pub download_progress : DownloadProgress → Bytes
  pub ping : Ping → Bytes
  pub close : Close → Bytes

pub data GrizolEvent : Type 0 where
  message : CompleteMessage → GrizolEvent
  request_processed request_created : GrizolEvent

-- `n.try_into().unwrap()` to an unsigned integer of `bits` bits.
abbrev pub try_into_bits : {E : Type 0} → ℕ → ℕ → Outcome E ℕ
try_into_bits bits n = if ltb n (2 ^ bits) then ok n else panic

unfoldable pub serialize_hello : {E : Type 0} → Bytes → Outcome E Bytes
serialize_hello message_bytes = do
  message_len ← try_into_bits 16 (length message_bytes)
  ok (magic_number ++ (u16_to_be_bytes message_len ++ message_bytes))

-- `map(f).flatten()` where `f` may unwind.
abbrev pub flat_map_or_panic :
    {E : Type 0} → (Bytes → Outcome E Bytes) → List Bytes → Outcome E Bytes
flat_map_or_panic f [] = ok []
flat_map_or_panic f (x ∷ xs) = f x >>= λ a. flat_map_or_panic f xs >>= λ b. ok (a ++ b)

abbrev pub outgoing_header : MessageType → Header
outgoing_header t = record { type_code = message_type_code t; compression = pos 0 }

abbrev first_body : List Bytes → Option Bytes
first_body [] = none
first_body (b ∷ bs) = some b

module _ (encoders : Encoders) where
  unfoldable pub serialize_message : {E : Type 0} → Header → Bytes → Outcome E Bytes
  serialize_message header message_bytes = do
    let header_bytes = encoders.header header
    header_len ← try_into_bits 16 (length header_bytes)
    message_len ← try_into_bits 32 (length message_bytes)
    ok (
        u16_to_be_bytes header_len
        ++ (header_bytes ++ (u32_to_be_bytes message_len ++ message_bytes)))

  -- The type and the bodies for a message. A `Request` is not sent this way.
  unfoldable pub message_bodies :
      {E : Type 0} → CompleteMessage → Outcome E (Option MessageType × List Bytes)
  message_bodies (CompleteMessage.hello m) = ok (none, encoders.hello m ∷ [])
  message_bodies (CompleteMessage.cluster_config m) =
      ok (some MessageType.cluster_config, encoders.cluster_config m ∷ [])
  message_bodies (CompleteMessage.index m) = ok (some MessageType.index, encoders.index m ∷ [])
  message_bodies (CompleteMessage.index_update m) =
      ok (some MessageType.index_update, encoders.index_update m ∷ [])
  message_bodies (CompleteMessage.request m) = panic
  message_bodies (CompleteMessage.response m) =
      ok (some MessageType.response, encoders.response m ∷ [])
  message_bodies (CompleteMessage.download_progress m) =
      ok (some MessageType.download_progress, encoders.download_progress m ∷ [])
  message_bodies (CompleteMessage.ping m) = ok (some MessageType.ping, encoders.ping m ∷ [])
  message_bodies (CompleteMessage.close m) = ok (some MessageType.close, encoders.close m ∷ [])

  -- `throttled` is what `throttled_requests` returned for this event.
  unfoldable pub event_bodies :
      {E : Type 0} → GrizolEvent → List Request → Outcome E (Option MessageType × List Bytes)
  unfolding message_bodies
  event_bodies (message m) throttled = message_bodies m
  event_bodies request_processed throttled =
      ok (some MessageType.request, map encoders.request throttled)
  event_bodies request_created throttled =
      ok (some MessageType.request, map encoders.request throttled)

  serialize_bodies : {E : Type 0} → Option MessageType → List Bytes → Outcome E Bytes
  serialize_bodies (some t) bodies =
      flat_map_or_panic (serialize_message (outgoing_header t)) bodies
  serialize_bodies none bodies = unwrap (first_body bodies) >>= serialize_hello

  -- The bytes written for one event.
  unfoldable pub outgoing_data : {E : Type 0} → GrizolEvent → List Request → Outcome E Bytes
  unfolding serialize_bodies event_bodies
  outgoing_data event throttled = do
    bodies ← event_bodies event throttled
    serialize_bodies bodies.0 bodies.1

module _ (decoders : Decoders) where
  -- The reading loop: the messages of each read, in order. The end of the stream ends the list.
  unfoldable pub read_all :
      BepDataParser → List Bytes → Outcome ParseError (BepDataParser × List CompleteMessage)
  read_all p [] = ok (p, [])
  read_all p (buf ∷ reads) = do
    (p', complete_messages) ← parse_incoming_data decoders p buf
    (p'', more) ← read_all p' reads
    ok (p'', complete_messages ++ more)
