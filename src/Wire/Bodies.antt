-- ===== src/Wire/Bodies.antt =====
-- A whole message on the wire: the parser returns it at its last byte and is ready for the next.
use grizol.Prelude.{
  ◌+◌, ◌≤◌, ◌<◌, ◌≡◌, refl, ap, subst, ◌∙◌, Bool, true, false, some, [], ◌∷◌, ◌++◌, append_assoc,
  length, length-append, ◌==◌, ==_iff, arith,
}
use grizol.Prelude.Outcome.{ok}
use grizol.Prelude.Bytes.{
  Bytes, u32_to_be_bytes, slice_from, number_at, number_at_middle, slice_from-append,
  from_be_bytes-u32,
}
use grizol.Proto.{Header, MessageType, MessageCompression, message_type_of, compression_of}
use grizol.Parser.Incoming.{Decoders, ParseError, IncomingMessage, add_data, message_start_pos}
use grizol.Parser.Decode.{CompleteMessage, decode, decode_post_hello_message, decode_as}
use grizol.Parser.Target.{IsLoaded, target}
use grizol.Parser.Machine.{BepDataParser}
use grizol.Parser.Machine.Steps.{IsValid, need, step, take_complete_waiting, take_complete_decoded}
use grizol.Parser.Machine.Stream.{
  behind_none, then_bytes, parse_bytes, parse_bytes-append, parse_bytes_one_step,
}
use grizol.Wire.Frames.{
  header_part, body_part, frame, between, holding, message_of, header_number, header_waits,
  parse_header_part,
}

module _ (decoders : Decoders) (hb : Bytes) (h : Header) (body : Bytes) (t : MessageType)
    (m : CompleteMessage) (fits : length hb < 65536) (reads : decoders.header hb ≡ some h)
    (body_fits : length body < 4294967296)
    (plain : compression_of h.compression ≡ some MessageCompression.uncompressed)
    (kind : message_type_of h.type_code ≡ some t) (decodes : decode_as decoders t body ≡ ok m) where
  len_part : Bytes
  len_part = u32_to_be_bytes (length body)

  body_number :
      (zs : Bytes) → number_at 4 (2 + length hb) (header_part hb ++ (len_part ++ zs)) ≡ length body
  unfolding len_part
  body_number zs =
      number_at_middle 4 (2 + length hb) (header_part hb) len_part zs (omega arith) (omega arith)
      ∙ from_be_bytes-u32 (length body) body_fits

  body_start :
      slice_from {E = ParseError} (2 + length hb + 4) (header_part hb ++ (len_part ++ body))
      ≡ ok body
  unfolding len_part
  body_start =
      subst (λ l. slice_from {E = ParseError} (2 + length hb + 4) l ≡ ok body)
        (append_assoc (header_part hb) (u32_to_be_bytes (length body)) body)
        (slice_from-append (2 + length hb + 4) (header_part hb ++ u32_to_be_bytes (length body))
          body (omega (arith, length-append (header_part hb) (u32_to_be_bytes (length body)))))

  whole : IncomingMessage
  whole = message_of (some h) (header_part hb ++ (len_part ++ body))

  whole_start : message_start_pos {E = ParseError} whole ≡ ok (some (2 + length hb + 4))
  unfolding whole message_start_pos
  whole_start = ground (arith, header_number decoders hb h fits reads)

  whole_decodes : decode decoders whole ≡ ok m
  unfolding whole decode decode_post_hello_message
  whole_decodes = rw (whole_start, plain, body_start, kind) decodes

  whole_full : IsLoaded whole × (length whole.data_bytes ≡ target whole)
  unfolding whole len_part
  whole_full = ground (
    arith,
    body_number body,
    header_number decoders hb h fits reads,
    length-append hb (u32_to_be_bytes (length body) ++ body),
    length-append (u32_to_be_bytes (length body)) body,
  )

  add_more :
      (d xs : Bytes)
      → add_data decoders (message_of (some h) d) xs ≡ ok (message_of (some h) (d ++ xs))
  unfolding add_data
  add_more d xs = refl

  -- The step whose bytes make the message whole.
  last_step :
      (d xs : Bytes)
      → d ++ xs ≡ header_part hb ++ (len_part ++ body)
      → step decoders (holding (message_of (some h) d)) xs ≡ ok (between, m ∷ [])
  last_step d xs e =
      rw (add_more d xs, e)
        (unfold whole in
          take_complete_decoded decoders between whole whole_full.0 whole_full.1 whole_decodes)

  start-IsValid : IsValid (holding (message_of (some h) (header_part hb)))
  start-IsValid = (refl, omega arith, header_waits decoders hb h fits reads)

  at_len : BepDataParser
  at_len = holding (message_of (some h) (header_part hb ++ len_part))

  at_len-IsValid : 1 ≤ length body → IsValid at_len
  unfolding at_len len_part
  at_len-IsValid ne = (
    refl,
    omega arith,
    ground (
      arith,
      body_number [],
      header_number decoders hb h fits reads,
      length-append hb (u32_to_be_bytes (length body)),
    ),
  )

  need_start : need (holding (message_of (some h) (header_part hb))) ≡ 4
  need_start = ground (arith, header_number decoders hb h fits reads)

  need-at_len : need at_len ≡ length body
  unfolding at_len len_part
  need-at_len = ground (
    arith,
    body_number [],
    header_number decoders hb h fits reads,
    length-append hb (u32_to_be_bytes (length body)),
  )

  len_step :
      1 ≤ length body
      → step decoders (holding (message_of (some h) (header_part hb))) len_part ≡ ok (at_len, [])
  unfolding at_len
  len_step ne = rw (add_more (header_part hb) len_part) (
      take_complete_waiting decoders between (message_of (some h) (header_part hb ++ len_part))
        (at_len-IsValid ne).2)

  body_after_len :
      (b : Bool)
      → (length body == 0) ≡ b
      → parse_bytes decoders (holding (message_of (some h) (header_part hb))) (body_part body)
        ≡ ok (between, m ∷ [])
  unfolding len_part
  body_after_len true e =
      let start : BepDataParser = holding (message_of (some h) (header_part hb)) in
      let empty : length body ≡ 0 = (==_iff _ _).0 e in
      parse_bytes_one_step decoders (body_part body) start start-IsValid (omega arith)
        (omega (arith, need_start))
      ∙ last_step (header_part hb) (body_part body) refl
  body_after_len false e =
      let start : BepDataParser = holding (message_of (some h) (header_part hb)) in
      let ne : 1 ≤ length body = ground arith in
      parse_bytes-append decoders len_part body start
      ∙ ap (λ r. then_bytes decoders r body)
          (parse_bytes_one_step decoders len_part start start-IsValid (omega arith)
              (omega (arith, need_start))
            ∙ len_step ne)
      ∙ behind_none (parse_bytes decoders at_len body)
      ∙ parse_bytes_one_step decoders body at_len (at_len-IsValid ne) ne
          (omega (arith, need-at_len))
      ∙ unfold at_len in
        last_step (header_part hb ++ len_part) body (append_assoc (header_part hb) len_part body)

  -- A message with its header, sent uncompressed, is what the parser returns.
  pub parse_frame : parse_bytes decoders between (frame hb body) ≡ ok (between, m ∷ [])
  parse_frame =
      parse_bytes-append decoders (header_part hb) (body_part body) between
      ∙ ap (λ r. then_bytes decoders r (body_part body))
          (parse_header_part decoders hb h fits reads)
      ∙ behind_none
          (parse_bytes decoders (holding (message_of (some h) (header_part hb))) (body_part body))
      ∙ body_after_len (length body == 0) refl
