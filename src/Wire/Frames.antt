-- ===== src/Wire/Frames.antt =====
-- One message on the wire: what the parser holds after the header, and what it returns at the end.
use grizol.Prelude.{
  ◌+◌, ◌-◌, ◌≤◌, ◌<◌, ◌≡◌, refl, ap, ◌∙◌, Bool, true, false, Option, none, some, [], ◌++◌, length,
  take_all, ◌==◌, arith,
}
use grizol.Prelude.Outcome.{ok}
use grizol.Prelude.Bytes.{Bytes, u16_to_be_bytes, u32_to_be_bytes, number_at, from_be_bytes-u16}
use grizol.Proto.{Header}
use grizol.Parser.Incoming.{
  Decoders, post_hello, IncomingMessage, new_message, add_data, try_parse_header,
}
use grizol.Parser.Target.{IsWaiting}
use grizol.Parser.Machine.{BepDataParser, take_complete}
use grizol.Parser.Machine.Steps.{IsValid, current, step, take_complete_waiting}
use grizol.Parser.Machine.Stream.{
  behind_none, then_bytes, parse_bytes, parse_bytes-append, parse_bytes_one_step,
}

-- The length of the header, and the header.
abbrev pub header_part : Bytes → Bytes
header_part hb = u16_to_be_bytes (length hb) ++ hb

-- The length of the body, and the body.
abbrev pub body_part : Bytes → Bytes
body_part body = u32_to_be_bytes (length body) ++ body

abbrev pub frame : Bytes → Bytes → Bytes
frame hb body = header_part hb ++ body_part body

-- The parser between two messages, after the hello.
abbrev pub between : BepDataParser
between = record { bep_auth_status = post_hello; incoming_message = none }

abbrev pub holding : IncomingMessage → BepDataParser
holding im = record { bep_auth_status = post_hello; incoming_message = some im }

abbrev pub message_of : Option Header → Bytes → IncomingMessage
message_of h d = record { auth_status = post_hello; data_bytes = d; header = h }

module _ (decoders : Decoders) (hb : Bytes) (h : Header) (fits : length hb < 65536)
    (reads : decoders.header hb ≡ some h) where
  pub header_number : number_at 2 0 (header_part hb) ≡ length hb
  header_number = from_be_bytes-u16 (length hb) fits

  header_parsed : try_parse_header decoders (header_part hb) ≡ ok h
  unfolding try_parse_header
  header_parsed =
      ground (arith, header_number, take_all (2 + number_at 2 0 (header_part hb) - 2) hb)

  add_header :
      (d xs : Bytes)
      → d ++ xs ≡ header_part hb
      → add_data decoders (message_of none d) xs ≡ ok (message_of (some h) (header_part hb))
  unfolding add_data
  add_header d xs e = rw (e, header_parsed)

  pub header_waits : IsWaiting (message_of (some h) (header_part hb))
  header_waits = ground arith

  header_kept :
      (p : BepDataParser)
      → take_complete decoders
          (record p { incoming_message = some (message_of (some h) (header_part hb)) })
        ≡ ok (record p { incoming_message = some (message_of (some h) (header_part hb)) }, [])
  header_kept p =
      take_complete_waiting decoders p (message_of (some h) (header_part hb)) header_waits

  header_step :
      (d xs : Bytes) (p : BepDataParser)
      → p.bep_auth_status ≡ post_hello
      → current p ≡ message_of none d
      → d ++ xs ≡ header_part hb
      → step decoders p xs ≡ ok (holding (message_of (some h) (header_part hb)), [])
  header_step d xs p a c e =
      rw (c, add_header d xs e)
        (header_kept p
          ∙ ap
              (λ s. ok (
                record {
                  bep_auth_status = s;
                  incoming_message = some (message_of (some h) (header_part hb));
                },
                [],
              ))
              a)

  add_len :
      1 ≤ length hb
      → add_data decoders (new_message post_hello) (u16_to_be_bytes (length hb))
        ≡ ok (message_of none (u16_to_be_bytes (length hb)))
  unfolding add_data try_parse_header
  add_len ne = ground (arith, header_number)

  len_waits : 1 ≤ length hb → IsValid (holding (message_of none (u16_to_be_bytes (length hb))))
  len_waits ne = (refl, omega arith, (omega (arith, header_number), omega (arith, header_number)))

  len_step :
      1 ≤ length hb
      → step decoders between (u16_to_be_bytes (length hb))
        ≡ ok (holding (message_of none (u16_to_be_bytes (length hb))), [])
  len_step ne = rw (add_len ne) (
      take_complete_waiting decoders between (message_of none (u16_to_be_bytes (length hb)))
        (len_waits ne).2)

  header_after_len :
      (b : Bool)
      → (length hb == 0) ≡ b
      → parse_bytes decoders between (header_part hb)
        ≡ ok (holding (message_of (some h) (header_part hb)), [])
  header_after_len true e =
      parse_bytes_one_step decoders (header_part hb) between tt (omega arith) (ground arith)
      ∙ header_step [] (header_part hb) between refl refl refl
  header_after_len false e =
      let len : Bytes = u16_to_be_bytes (length hb) in
      let ne : 1 ≤ length hb = ground arith in
      let q : BepDataParser = holding (message_of none len) in
      parse_bytes-append decoders len hb between
      ∙ ap (λ r. then_bytes decoders r hb)
          (parse_bytes_one_step decoders len between tt (omega arith) (omega arith) ∙ len_step ne)
      ∙ behind_none (parse_bytes decoders q hb)
      ∙ parse_bytes_one_step decoders hb q (len_waits ne) ne (omega (arith, header_number))
      ∙ header_step len hb q refl refl refl

  -- The header arrives: the parser holds the decoded header, and waits.
  pub parse_header_part :
      parse_bytes decoders between (header_part hb)
      ≡ ok (holding (message_of (some h) (header_part hb)), [])
  parse_header_part = header_after_len (length hb == 0) refl
