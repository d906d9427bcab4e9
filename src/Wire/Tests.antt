-- ===== src/Wire/Tests.antt =====
-- Runs of the parser and the writer on a connection with a hello, a ping and a request, and an
-- instance of each of their theorems. The codecs read and write only these.
use grizol.Prelude.{◌≡◌, refl, false, Option, none, some, [], ◌∷◌, ◌++◌, if◌then◌else◌}
use grizol.Prelude.Int.{pos}
use grizol.Prelude.Keys.{bytes_eq}
use grizol.Prelude.Outcome.{ok, panic, ◌>>=◌}
use grizol.Prelude.Bytes.{Bytes}
use grizol.Proto.{Hello, Header, MessageType, Request, Ping}
use grizol.Parser.Incoming.{Decoders, ParseError, add_data, status, missing_header_bytes}
use grizol.Parser.Decode.{
  CompleteMessage, decode, decode_as, decode_hello, decode_post_hello_message,
}
use grizol.Parser.Machine.{new_parser, populate, take_complete, parse_incoming_data}
use grizol.Parser.Machine.Steps.{IsValid}
use grizol.Parser.Machine.Stream.{behind, parse_bytes, parse_incoming_data-eq-parse_bytes}
use grizol.Parser.Machine.Chunks.{parse_incoming_data-IsValid, parse_incoming_data-append}
use grizol.Parser.Machine.Refused.{Fails}
use grizol.Parser.Machine.Unwinds.{Refusal, parse_incoming_data_ends}
use grizol.Wire.{
  Encoders, serialize_hello, serialize_message, outgoing_data, request_processed, read_all,
  outgoing_header,
}
use grizol.Wire.Frames.{between}
use grizol.Wire.RoundTrip.{
  Sent, IsSent, read_all-eq-parse, parse-IsSent, read_all-sent, outgoing_data-requests,
}

abbrev a_hello : Hello
a_hello = record { device_name = 97 ∷ []; client_name = []; client_version = [] }

abbrev a_request : Request
a_request = record {
  id = pos 5;
  folder = 102 ∷ [];
  name = 110 ∷ [];
  offset = pos 0;
  size = pos 4;
  hash = [];
  from_temporary = false;
}

abbrev only {ℓ} : {A : Type ℓ} → Bytes → A → Bytes → Option A
only xs a ys = if bytes_eq.beq xs ys then some a else none

abbrev read_header : Bytes → Option Header
read_header s =
    if bytes_eq.beq (8 ∷ 6 ∷ []) s
    then some (outgoing_header MessageType.ping)
    else only (8 ∷ 3 ∷ []) (outgoing_header MessageType.request) s

abbrev write_header : Header → Bytes
write_header h = elim h.type_code [ pos n ↦ 8 ∷ n ∷ [] | _ ↦ [] ]

abbrev some_decoders : Decoders
some_decoders = record {
  header = read_header;
  hello = only (10 ∷ 1 ∷ 97 ∷ []) a_hello;
  cluster_config = λ _. none;
  index = λ _. none;
  index_update = λ _. none;
  request = only (8 ∷ 5 ∷ []) a_request;
  response = λ _. none;
  download_progress = λ _. none;
  ping = only [] Ping.empty;
  close = λ _. none;
  decompress = λ _ _. none;
}

abbrev some_encoders : Encoders
some_encoders = record {
  header = write_header;
  hello = λ _. 10 ∷ 1 ∷ 97 ∷ [];
  cluster_config = λ _. [];
  index = λ _. [];
  index_update = λ _. [];
  request = λ _. 8 ∷ 5 ∷ [];
  response = λ _. [];
  download_progress = λ _. [];
  ping = λ _. [];
  close = λ _. [];
}

abbrev hello_bytes : Bytes
hello_bytes = 46 ∷ 167 ∷ 217 ∷ 11 ∷ 0 ∷ 3 ∷ 10 ∷ 1 ∷ 97 ∷ []

abbrev ping_bytes : Bytes
ping_bytes = 0 ∷ 2 ∷ 8 ∷ 6 ∷ 0 ∷ 0 ∷ 0 ∷ 0 ∷ []

abbrev request_bytes : Bytes
request_bytes = 0 ∷ 2 ∷ 8 ∷ 3 ∷ 0 ∷ 0 ∷ 0 ∷ 2 ∷ 8 ∷ 5 ∷ []

abbrev a_sent_ping : Sent
a_sent_ping = record {
  message_type = MessageType.ping;
  body = [];
  bytes = ping_bytes;
  received = CompleteMessage.ping Ping.empty;
}

a_sent_ping-IsSent : IsSent some_decoders some_encoders a_sent_ping
unfolding serialize_message decode_as
a_sent_ping-IsSent = record { serialized = refl; header_back = refl; body_back = refl }

hello_serialized : serialize_hello {E = ParseError} (10 ∷ 1 ∷ 97 ∷ []) ≡ ok hello_bytes
unfolding serialize_hello
hello_serialized = refl

request_written :
    outgoing_data some_encoders {E = ParseError} request_processed (a_request ∷ [])
    ≡ ok request_bytes
unfolding outgoing_data serialize_message
request_written = refl

-- A message can come byte by byte, or in one read with the hello.
hello_and_ping :
    parse_incoming_data some_decoders new_parser (hello_bytes ++ ping_bytes)
    ≡ ok (between, CompleteMessage.hello a_hello ∷ CompleteMessage.ping Ping.empty ∷ [])
unfolding parse_incoming_data populate take_complete decode add_data status decode_hello
    missing_header_bytes decode_post_hello_message
hello_and_ping = refl

ping_parsed :
    parse_incoming_data some_decoders between ping_bytes
    ≡ ok (between, CompleteMessage.ping Ping.empty ∷ [])
ping_parsed = parse-IsSent some_decoders some_encoders a_sent_ping a_sent_ping-IsSent

parse_incoming_data-eq-parse_bytes_example :
    parse_incoming_data some_decoders new_parser (hello_bytes ++ ping_bytes)
    ≡ parse_bytes some_decoders new_parser (hello_bytes ++ ping_bytes)
parse_incoming_data-eq-parse_bytes_example =
    parse_incoming_data-eq-parse_bytes some_decoders new_parser (hello_bytes ++ ping_bytes) tt

parse_incoming_data-append_example :
    parse_incoming_data some_decoders new_parser (hello_bytes ++ ping_bytes) ≡ (
      parse_incoming_data some_decoders new_parser hello_bytes >>= λ x.
      parse_incoming_data some_decoders x.0 ping_bytes >>= behind x.1)
parse_incoming_data-append_example =
    parse_incoming_data-append some_decoders new_parser hello_bytes ping_bytes tt

parse_incoming_data-IsValid_example : IsValid between
parse_incoming_data-IsValid_example =
    parse_incoming_data-IsValid some_decoders between between ping_bytes
      (CompleteMessage.ping Ping.empty ∷ []) tt ping_parsed

-- The header after the hello has one byte, which does not decode.
refused_header :
    parse_incoming_data some_decoders new_parser (hello_bytes ++ (0 ∷ 1 ∷ 9 ∷ 0 ∷ [])) ≡ panic
unfolding parse_incoming_data populate take_complete decode add_data status decode_hello
    missing_header_bytes decode_post_hello_message
refused_header = refl

parse_incoming_data_ends_example :
    Fails some_decoders
      (Refusal some_decoders new_parser (hello_bytes ++ (0 ∷ 1 ∷ 9 ∷ 0 ∷ [])))
      (parse_incoming_data some_decoders new_parser (hello_bytes ++ (0 ∷ 1 ∷ 9 ∷ 0 ∷ [])))
parse_incoming_data_ends_example =
    parse_incoming_data_ends some_decoders new_parser (hello_bytes ++ (0 ∷ 1 ∷ 9 ∷ 0 ∷ [])) tt tt

read_all-eq-parse_example :
    read_all some_decoders new_parser ((46 ∷ 167 ∷ []) ∷ (217 ∷ 11 ∷ 0 ∷ 3 ∷ 10 ∷ 1 ∷ 97 ∷ []) ∷ [])
    ≡ parse_incoming_data some_decoders new_parser hello_bytes
read_all-eq-parse_example =
    read_all-eq-parse some_decoders ((46 ∷ 167 ∷ []) ∷ (217 ∷ 11 ∷ 0 ∷ 3 ∷ 10 ∷ 1 ∷ 97 ∷ []) ∷ [])
      new_parser tt

parse-IsSent_example :
    parse_incoming_data some_decoders between ping_bytes
    ≡ ok (between, CompleteMessage.ping Ping.empty ∷ [])
parse-IsSent_example = parse-IsSent some_decoders some_encoders a_sent_ping a_sent_ping-IsSent

read_all-sent_example :
    read_all some_decoders new_parser (
      (46 ∷ 167 ∷ [])
      ∷ (217 ∷ 11 ∷ 0 ∷ 3 ∷ 10 ∷ 1 ∷ 97 ∷ 0 ∷ [])
      ∷ (2 ∷ 8 ∷ 6 ∷ 0 ∷ 0 ∷ 0 ∷ 0 ∷ [])
      ∷ [])
    ≡ ok (between, CompleteMessage.hello a_hello ∷ CompleteMessage.ping Ping.empty ∷ [])
read_all-sent_example =
    read_all-sent some_decoders some_encoders
      ((46 ∷ 167 ∷ [])
        ∷ (217 ∷ 11 ∷ 0 ∷ 3 ∷ 10 ∷ 1 ∷ 97 ∷ 0 ∷ [])
        ∷ (2 ∷ 8 ∷ 6 ∷ 0 ∷ 0 ∷ 0 ∷ 0 ∷ [])
        ∷ [])
      (10 ∷ 1 ∷ 97 ∷ []) hello_bytes a_hello (a_sent_ping ∷ []) hello_serialized refl
      (a_sent_ping-IsSent, tt) refl

outgoing_data-requests_example :
    parse_incoming_data some_decoders between request_bytes
    ≡ ok (between, CompleteMessage.request a_request ∷ [])
outgoing_data-requests_example =
    outgoing_data-requests some_decoders some_encoders request_processed (a_request ∷ [])
      request_bytes refl refl (refl, tt) request_written
