-- ===== src/Wire/RoundTrip.antt =====
-- What one side sends, the other side's parser returns, in order, however the bytes are cut into reads.
use grizol.Prelude.{
  ◌<◌, ◌≡◌, refl, ap, sym, ◌∙◌, some, Bool, true, false, List, [], ◌∷◌, ◌++◌, length, map, All,
  arith,
}
use grizol.Prelude.Outcome.{ok, ◌>>=◌, >>=_cong, >>=-eq-ok}
use grizol.Prelude.Bytes.{Bytes}
use grizol.Proto.{Request, Hello, Header, MessageType, message_type_of, message_type_code}
use grizol.Parser.Incoming.{Decoders, ParseError}
use grizol.Parser.Decode.{CompleteMessage, decode_as}
use grizol.Parser.Machine.{BepDataParser, new_parser, parse_incoming_data}
use grizol.Parser.Machine.Steps.{IsValid}
use grizol.Parser.Machine.Stream.{behind, parse_incoming_data-eq-parse_bytes}
use grizol.Parser.Machine.Chunks.{parse_incoming_data-IsValid, parse_incoming_data-append}
use grizol.Wire.{
  Encoders, serialize_hello, serialize_message, outgoing_header, read_all, flat_map_or_panic,
  outgoing_data, GrizolEvent, message, request_processed, request_created,
}
use grizol.Wire.Frames.{frame, between}
use grizol.Wire.Bodies.{parse_frame}
use grizol.Wire.Hellos.{hello_prefix, parse_hello}

-- All events but those with a message.
abbrev pub sends_requests : GrizolEvent → Bool
sends_requests (message m) = false
sends_requests request_processed = true
sends_requests request_created = true

message_type_back : (t : MessageType) → message_type_of (message_type_code t) ≡ some t
message_type_back t = ground arith

serialize_hello-eq-ok :
    (body bytes : Bytes)
    → serialize_hello {E = ParseError} body ≡ ok bytes
    → (length body < 65536) × (bytes ≡ hello_prefix body ++ body)
unfolding serialize_hello
serialize_hello-eq-ok body bytes e = ground arith

serialize_message-eq-ok :
    (encoders : Encoders) (h : Header) (body bytes : Bytes)
    → serialize_message encoders {E = ParseError} h body ≡ ok bytes
    → (length (encoders.header h) < 65536)
      × (length body < 4294967296)
      × (bytes ≡ frame (encoders.header h) body)
unfolding serialize_message
serialize_message-eq-ok encoders h body bytes e = ground arith

abbrev request_header : Header
request_header = outgoing_header MessageType.request

-- The bytes of a list of reads, one after the other.
abbrev pub joined : List Bytes → Bytes
joined [] = []
joined (x ∷ xs) = x ++ joined xs

-- A message of type `message_type` on the wire: what was sent, and what its body decodes to.
pub record Sent : Type 0 where
  pub message_type : MessageType
  pub body : Bytes
  pub bytes : Bytes
  pub received : CompleteMessage

abbrev pub bytes_of : List Sent → Bytes
bytes_of [] = []
bytes_of (s ∷ ss) = s.bytes ++ bytes_of ss

abbrev pub received_of : List Sent → List CompleteMessage
received_of [] = []
received_of (s ∷ ss) = s.received ∷ received_of ss

module _ (decoders : Decoders) where
  -- The bytes that serialize_hello writes for a body are read by a new parser as the hello that the
  -- body decodes to.
  pub parse-serialize_hello :
      (body bytes : Bytes) (h : Hello)
      → serialize_hello {E = ParseError} body ≡ ok bytes
      → decoders.hello body ≡ some h
      → parse_incoming_data decoders new_parser bytes ≡ ok (between, CompleteMessage.hello h ∷ [])
  parse-serialize_hello body bytes h e d =
      let (fits, same) = serialize_hello-eq-ok body bytes e in
      rw same (
        parse_incoming_data-eq-parse_bytes decoders new_parser (hello_prefix body ++ body) tt
        ∙ parse_hello decoders body h fits d)

  -- From a valid parser, the reading loop gives for any list of reads what one call of
  -- parse_incoming_data gives for all their bytes.
  pub read_all-eq-parse :
      (reads : List Bytes) (p : BepDataParser)
      → IsValid p
      → read_all decoders p reads ≡ parse_incoming_data decoders p (joined reads)
  unfolding read_all
  read_all-eq-parse [] p v = unfold parse_incoming_data in refl
  read_all-eq-parse (buf ∷ reads) p v =
      >>=_cong (parse_incoming_data decoders p buf) _ _ (λ x e.
        ap (λ r. r >>= behind x.1)
          (read_all-eq-parse reads x.0 (parse_incoming_data-IsValid decoders p x.0 buf x.1 v e)))
      ∙ sym (parse_incoming_data-append decoders p buf (joined reads) v)

  request_decoded :
      (body : Bytes) (r : Request)
      → decoders.request body ≡ some r
      → decode_as decoders MessageType.request body ≡ ok (CompleteMessage.request r)
  unfolding decode_as
  request_decoded body r e = rw e

  module _ (encoders : Encoders) where
    -- The bytes are those that `serialize_message` writes, and the decoders read back what the
    -- encoders wrote.
    pub record IsSent (s : Sent) : Type 0 where
      pub serialized :
          serialize_message encoders {E = ParseError} (outgoing_header s.message_type) s.body
          ≡ ok s.bytes
      pub header_back :
          decoders.header (encoders.header (outgoing_header s.message_type))
          ≡ some (outgoing_header s.message_type)
      pub body_back : decode_as decoders s.message_type s.body ≡ ok s.received

    -- The bytes that serialize_message writes for a message, with the header that the sending loop
    -- gives it, are read by a parser that is between two messages as that message, if the decoders
    -- read back what the encoders wrote.
    pub parse-IsSent :
        (s : Sent)
        → IsSent s
        → parse_incoming_data decoders between s.bytes ≡ ok (between, s.received ∷ [])
    parse-IsSent s i =
        let header = outgoing_header s.message_type in
        let (fits, body_fits, same) =
          serialize_message-eq-ok encoders header s.body s.bytes i.serialized in
        rw same (
          parse_incoming_data-eq-parse_bytes decoders between
            (frame (encoders.header header) s.body) tt
          ∙ parse_frame decoders (encoders.header header) header s.body s.message_type s.received
              fits i.header_back body_fits refl (message_type_back s.message_type) i.body_back)

    parse_stream :
        (ss : List Sent)
        → All IsSent ss
        → parse_incoming_data decoders between (bytes_of ss) ≡ ok (between, received_of ss)
    parse_stream [] h = unfold parse_incoming_data in refl
    parse_stream (s ∷ ss) h =
        parse_incoming_data-append decoders between s.bytes (bytes_of ss) tt
        ∙ rw (parse-IsSent s h.0, parse_stream ss h.1)

    -- A connection on which one side sends a hello and any list of messages, each written by
    -- serialize_message, is read by a new parser as that hello and those messages, in order, however
    -- the bytes are cut into reads, if the decoders read back what the encoders wrote.
    pub read_all-sent :
        (reads : List Bytes) (hello_body hello_bytes : Bytes) (h : Hello) (ss : List Sent)
        → serialize_hello {E = ParseError} hello_body ≡ ok hello_bytes
        → decoders.hello hello_body ≡ some h
        → All IsSent ss
        → joined reads ≡ hello_bytes ++ bytes_of ss
        → read_all decoders new_parser reads
          ≡ ok (between, CompleteMessage.hello h ∷ received_of ss)
    read_all-sent reads hello_body hello_bytes h ss e d sent cut =
        read_all-eq-parse reads new_parser tt
        ∙ ap (parse_incoming_data decoders new_parser) cut
        ∙ parse_incoming_data-append decoders new_parser hello_bytes (bytes_of ss) tt
        ∙ rw (parse-serialize_hello hello_body hello_bytes h e d, parse_stream ss sent)

    -- The requests of one event are written back to back, and the peer receives each, in order.
    requests_stream :
        (rs : List Request) (bytes : Bytes)
        → decoders.header (encoders.header request_header) ≡ some request_header
        → All (λ r. decoders.request (encoders.request r) ≡ some r) rs
        → flat_map_or_panic {E = ParseError}
            (serialize_message encoders request_header)
            (map encoders.request rs)
          ≡ ok bytes
        → parse_incoming_data decoders between bytes ≡ ok (between, map CompleteMessage.request rs)
    requests_stream [] bytes hb rb e = ground (arith, parse_stream [] tt)
    requests_stream (r ∷ rs) bytes hb rb e =
        let (a, e1, e2) =
          >>=-eq-ok (serialize_message encoders request_header (encoders.request r)) _ e in
        let (b, e3, e4) =
          >>=-eq-ok
            (flat_map_or_panic (serialize_message encoders request_header)
              (map encoders.request rs))
            _ e2 in
        let whole : bytes ≡ a ++ b = cc in
        let first : parse_incoming_data decoders between a
            ≡ ok (between, CompleteMessage.request r ∷ []) =
          parse-IsSent
            (record {
              message_type = MessageType.request;
              body = encoders.request r;
              bytes = a;
              received = CompleteMessage.request r;
            })
            (record {
              serialized = e1;
              header_back = hb;
              body_back = request_decoded (encoders.request r) r rb.0;
            }) in
        ap (parse_incoming_data decoders between) whole
        ∙ parse_incoming_data-append decoders between a b tt
        ∙ rw (first, requests_stream rs b hb rb.1 e3)

    -- The bytes that the sending loop writes for request_created or request_processed and any
    -- requests are read by a parser that is between two messages as those requests, in order, if the
    -- decoders read back the header of a request and each request.
    pub outgoing_data-requests :
        (event : GrizolEvent) (rs : List Request) (bytes : Bytes)
        → sends_requests event ≡ true
        → decoders.header (encoders.header request_header) ≡ some request_header
        → All (λ r. decoders.request (encoders.request r) ≡ some r) rs
        → outgoing_data encoders {E = ParseError} event rs ≡ ok bytes
        → parse_incoming_data decoders between bytes ≡ ok (between, map CompleteMessage.request rs)
    unfolding outgoing_data
    outgoing_data-requests (message m) rs bytes h hb rb e = absurd (cc)
    outgoing_data-requests request_processed rs bytes h hb rb e = requests_stream rs bytes hb rb e
    outgoing_data-requests request_created rs bytes h hb rb e = requests_stream rs bytes hb rb e
