-- ===== src/Parser/Decode.antt =====
-- `CompleteMessage` and the decoding of a collected message, src/core/bep_data_parser.rs.
use grizol.Prelude.{
  ℕ, ◌+◌, ◌≢◌, arith, Bool, false, Option, none, some, [], ◌∷◌, length, leb, if◌then◌else◌, true,
  take, drop, ◌≡◌, refl, ◌≤◌, ◌<◌, ltb, Bool-cases, inl, inr,
}
use grizol.Prelude.Keys.{bytes_eq}
use grizol.Prelude.Outcome.{Outcome, ok, err, panic, diverge, ◌>>=◌, ◌>>◌, ensure, unwrap}
use grizol.Prelude.Bytes.{Bytes, slice, slice_from, number_at, slice_in_range}
use grizol.Proto.{
  Hello, ClusterConfig, Header, Index, IndexUpdate, Request, Response, DownloadProgress, Ping,
  Close, MessageType, MessageCompression, message_type_of, compression_of,
}
use grizol.Parser.Incoming.{
  Decoders, ParseError, generic, no_magic_hello, no_incoming_message_yet, BepAuthStatus, pre_hello,
  post_hello, IncomingMessage, hello_len_start, hello_start, read_be, message_start_pos,
}

pub data CompleteMessage : Type 0 where
  hello : Hello → CompleteMessage
  cluster_config : ClusterConfig → CompleteMessage
  index : Index → CompleteMessage
  index_update : IndexUpdate → CompleteMessage
  request : Request → CompleteMessage
  response : Response → CompleteMessage
  download_progress : DownloadProgress → CompleteMessage
  ping : Ping → CompleteMessage
  close : Close → CompleteMessage

abbrev pub magic_number : Bytes
magic_number = 0x2e ∷ 0xa7 ∷ 0xd9 ∷ 0x0b ∷ []

-- The second half of the test is not reached on a short buffer.
unfoldable pub starts_with_magic_number : Bytes → Outcome ParseError Bool
starts_with_magic_number buf =
    if leb hello_len_start (length buf)
    then (slice 0 hello_len_start buf >>= λ s. ok (bytes_eq.beq s magic_number))
    else ok false

-- `result.map(constructor)`, and `map_err` to `ParseError::Generic`.
abbrev wrap : {A : Type 0} → (A → CompleteMessage) → Option A → Outcome ParseError CompleteMessage
wrap f none = err generic
wrap f (some a) = ok (f a)

module _ (decoders : Decoders) where
  unfoldable pub decode_hello : Bytes → Outcome ParseError CompleteMessage
  unfolding starts_with_magic_number
  decode_hello buf = do
    magic ← starts_with_magic_number buf
    ensure magic no_magic_hello
    message_byte_size ← read_be hello_len_start hello_start buf
    s ← slice hello_start (hello_start + message_byte_size) buf
    h ← unwrap (decoders.hello s)
    ok (CompleteMessage.hello h)

  -- The bytes of the message, decompressed where the header says LZ4.
  raw_message : Option MessageCompression → IncomingMessage → ℕ → Outcome ParseError Bytes
  raw_message (some MessageCompression.lz4) im message_start_pos = do
    let size_end = message_start_pos + 4
    decompressed_byte_size ← read_be message_start_pos size_end im.data_bytes
    compressed ← slice_from size_end im.data_bytes
    unwrap (decoders.decompress compressed decompressed_byte_size)
  raw_message (some MessageCompression.uncompressed) im start = slice_from start im.data_bytes
  raw_message none im start = slice_from start im.data_bytes

  unfoldable pub decode_as : MessageType → Bytes → Outcome ParseError CompleteMessage
  decode_as MessageType.cluster_config raw =
      wrap CompleteMessage.cluster_config (decoders.cluster_config raw)
  decode_as MessageType.index raw = wrap CompleteMessage.index (decoders.index raw)
  decode_as MessageType.index_update raw =
      wrap CompleteMessage.index_update (decoders.index_update raw)
  decode_as MessageType.request raw = wrap CompleteMessage.request (decoders.request raw)
  decode_as MessageType.response raw = wrap CompleteMessage.response (decoders.response raw)
  decode_as MessageType.download_progress raw =
      wrap CompleteMessage.download_progress (decoders.download_progress raw)
  decode_as MessageType.ping raw = wrap CompleteMessage.ping (decoders.ping raw)
  decode_as MessageType.close raw = wrap CompleteMessage.close (decoders.close raw)

  unfoldable pub decode_post_hello_message : IncomingMessage → Outcome ParseError CompleteMessage
  unfolding message_start_pos raw_message decode_as
  decode_post_hello_message im = do
    start ← message_start_pos im
    message_start_pos ← unwrap start
    header ← unwrap im.header
    raw_msg ← raw_message (compression_of header.compression) im message_start_pos
    message_type ← unwrap (message_type_of header.type_code)
    decode_as message_type raw_msg

  decode_at : BepAuthStatus → IncomingMessage → Outcome ParseError CompleteMessage
  decode_at pre_hello im = decode_hello im.data_bytes
  decode_at post_hello im = decode_post_hello_message im

  -- `CompleteMessage::try_from(&incoming_message)`
  unfoldable pub decode : IncomingMessage → Outcome ParseError CompleteMessage
  unfolding decode_at
  decode im = decode_at im.auth_status im

  decode_post-ne-waiting :
      (im : IncomingMessage) → decode_post_hello_message im ≢ err no_incoming_message_yet
  unfolding decode_post_hello_message
  decode_post-ne-waiting im = ground arith

  decode_hello-ne-waiting : (buf : Bytes) → decode_hello buf ≢ err no_incoming_message_yet
  unfolding decode_hello
  decode_hello-ne-waiting buf = ground arith

  -- The decoding of a message never asks for more bytes.
  pub decode-ne-waiting : (im : IncomingMessage) → decode im ≢ err no_incoming_message_yet
  unfolding decode_at decode
  decode-ne-waiting im =
      ground (arith, decode_hello-ne-waiting im.data_bytes, decode_post-ne-waiting im)

  decode_post-ne-diverge : (im : IncomingMessage) → decode_post_hello_message im ≢ diverge
  unfolding decode_post_hello_message
  decode_post-ne-diverge im = ground arith

  decode_hello-ne-diverge : (buf : Bytes) → decode_hello buf ≢ diverge
  unfolding decode_hello
  decode_hello-ne-diverge buf = ground arith

  pub decode-ne-diverge : (im : IncomingMessage) → decode im ≢ diverge
  unfolding decode_at decode
  decode-ne-diverge im =
      ground (arith, decode_hello-ne-diverge im.data_bytes, decode_post-ne-diverge im)

  -- The bytes `d` of a message behind its header `h`, from position `start` on, give no message: the
  -- type is not known, or they are to be decompressed and have no length, or do not decompress.
  pub data BadBody (h : Header) (start : ℕ) (d : Bytes) : Type 0 where
    no_type : message_type_of h.type_code ≡ none → BadBody h start d
    no_length :
        compression_of h.compression ≡ some MessageCompression.lz4
        → length d < start + 4
        → BadBody h start d
    not_compressed :
        compression_of h.compression ≡ some MessageCompression.lz4
        → start + 4 ≤ length d
        → decoders.decompress (drop (start + 4) d) (number_at 4 start d) ≡ none
        → BadBody h start d

  -- A hello has the magic number and all its bytes, and these are refused.
  pub record BadHello (d : Bytes) : Type 0 where
    pub magic : bytes_eq.beq (take 4 d) magic_number ≡ true
    pub refused : decoders.hello (take (number_at 2 4 d) (drop 6 d)) ≡ none

  decode_hello-panic :
      (d : Bytes) → 6 + number_at 2 4 d ≤ length d → decode_hello d ≡ panic → BadHello d
  unfolding decode_hello starts_with_magic_number
  decode_hello-panic d l e = record { magic = ground arith; refused = ground arith }

  decode_as-ne-panic : (t : MessageType) (raw : Bytes) → decode_as t raw ≢ panic
  unfolding decode_as
  decode_as-ne-panic t raw = ground arith

  raw_message-panic :
      (h : Header) (c : Option MessageCompression) (im : IncomingMessage) (start : ℕ)
      → compression_of h.compression ≡ c
      → start ≤ length im.data_bytes
      → raw_message c im start ≡ panic
      → BadBody h start im.data_bytes
  unfolding raw_message
  raw_message-panic h none im start c l e = absurd (ground arith)
  raw_message-panic h (some MessageCompression.uncompressed) im start c l e = absurd (ground arith)
  raw_message-panic h (some MessageCompression.lz4) im start c l e =
      elim (Bool-cases (ltb (length im.data_bytes) (start + 4))) [
        | inl short ↦ no_length c (ground arith)
        | inr long ↦ not_compressed c (ground arith) (ground arith)
      ]

  after_raw-panic :
      (h : Header) (im : IncomingMessage) (start : ℕ) (r : Outcome ParseError Bytes)
      (t : Option MessageType)
      → raw_message (compression_of h.compression) im start ≡ r
      → message_type_of h.type_code ≡ t
      → start ≤ length im.data_bytes
      → (r >>= λ raw. unwrap t >>= λ m. decode_as m raw) ≡ panic
      → BadBody h start im.data_bytes
  after_raw-panic h im start (ok raw) none f g l e = no_type g
  after_raw-panic h im start (ok raw) (some m) f g l e = absurd (decode_as-ne-panic m raw e)
  after_raw-panic h im start (err x) t f g l e = absurd (cc)
  after_raw-panic h im start panic t f g l e =
      raw_message-panic h (compression_of h.compression) im start refl l f
  after_raw-panic h im start diverge t f g l e = absurd (cc)

  decode_post_hello_message-panic :
      (h : Header) (im : IncomingMessage)
      → im.header ≡ some h
      → 2 + number_at 2 0 im.data_bytes + 4 ≤ length im.data_bytes
      → decode_post_hello_message im ≡ panic
      → BadBody h (2 + number_at 2 0 im.data_bytes + 4) im.data_bytes
  unfolding decode_post_hello_message message_start_pos
  decode_post_hello_message-panic h im f l e =
      after_raw-panic h im (2 + number_at 2 0 im.data_bytes + 4) _ _ refl refl l
        (ground (arith, slice_in_range {E = ParseError} 0 2 im.data_bytes))

  pub decode-panic_post :
      (h : Header) (d : Bytes)
      → 2 + number_at 2 0 d + 4 ≤ length d
      → decode (record { auth_status = post_hello; data_bytes = d; header = some h }) ≡ panic
      → BadBody h (2 + number_at 2 0 d + 4) d
  unfolding decode decode_at
  decode-panic_post h d l e =
      decode_post_hello_message-panic h
        (record { auth_status = post_hello; data_bytes = d; header = some h }) refl l e

  pub decode-panic_pre :
      (o : Option Header) (d : Bytes)
      → 6 + number_at 2 4 d ≤ length d
      → decode (record { auth_status = pre_hello; data_bytes = d; header = o }) ≡ panic
      → BadHello d
  unfolding decode decode_at
  decode-panic_pre o d l e = decode_hello-panic d l e
