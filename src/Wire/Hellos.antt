-- ===== src/Wire/Hellos.antt =====
-- The hello on the wire: the first message of a connection, behind the magic number.
use grizol.Prelude.{
  ◌+◌, ◌-◌, ◌≤◌, ◌<◌, ◌≡◌, refl, ap, ◌∙◌, Bool, true, false, none, some, [], ◌∷◌, ◌++◌, length,
  take_all, ◌==◌, arith,
}
use grizol.Prelude.Outcome.{ok}
use grizol.Prelude.Bytes.{Bytes, u16_to_be_bytes, number_at, from_be_bytes-u16}
use grizol.Proto.{Hello}
use grizol.Parser.Incoming.{Decoders, pre_hello, IncomingMessage, add_data}
use grizol.Parser.Decode.{CompleteMessage, magic_number, decode, decode_hello}
use grizol.Parser.Target.{IsLoaded, target}
use grizol.Parser.Machine.{BepDataParser, new_parser}
use grizol.Parser.Machine.Steps.{
  IsValid, current, step, take_complete_waiting, take_complete_decoded,
}
use grizol.Parser.Machine.Stream.{
  behind_none, then_bytes, parse_bytes, parse_bytes-append, parse_bytes_one_step,
}
use grizol.Wire.Frames.{between}

-- The magic number and the length.
abbrev pub hello_prefix : Bytes → Bytes
hello_prefix body = magic_number ++ u16_to_be_bytes (length body)

abbrev hello_message : Bytes → IncomingMessage
hello_message d = record { auth_status = pre_hello; data_bytes = d; header = none }

abbrev greeting : Bytes → BepDataParser
greeting d = record { bep_auth_status = pre_hello; incoming_message = some (hello_message d) }

module _ (decoders : Decoders) (body : Bytes) (h : Hello) (fits : length body < 65536)
    (reads : decoders.hello body ≡ some h) where
  hello_number : number_at 2 4 (hello_prefix body) ≡ length body
  hello_number = from_be_bytes-u16 (length body) fits

  hello_decodes :
      decode decoders (hello_message (hello_prefix body ++ body)) ≡ ok (CompleteMessage.hello h)
  unfolding decode decode_hello
  hello_decodes =
      ground (arith, hello_number, take_all (6 + number_at 2 4 (hello_prefix body) - 6) body)

  hello_full :
      IsLoaded (hello_message (hello_prefix body ++ body))
      × (length (hello_prefix body ++ body) ≡ target (hello_message (hello_prefix body ++ body)))
  hello_full = ground (arith, hello_number)

  add_more : (d xs : Bytes) → add_data decoders (hello_message d) xs ≡ ok (hello_message (d ++ xs))
  unfolding add_data
  add_more d xs = refl

  last_step :
      (d xs : Bytes) (p : BepDataParser)
      → current p ≡ hello_message d
      → d ++ xs ≡ hello_prefix body ++ body
      → step decoders p xs ≡ ok (between, CompleteMessage.hello h ∷ [])
  last_step d xs p c e =
      rw (c, add_more d xs, e)
        (take_complete_decoded decoders p (hello_message (hello_prefix body ++ body)) hello_full.0
          hello_full.1 hello_decodes)

  prefix-IsValid : 1 ≤ length body → IsValid (greeting (hello_prefix body))
  prefix-IsValid ne = (refl, omega arith, ground (arith, hello_number))

  prefix_step :
      1 ≤ length body
      → step decoders new_parser (hello_prefix body) ≡ ok (greeting (hello_prefix body), [])
  prefix_step ne = rw (add_more [] (hello_prefix body)) (
      take_complete_waiting decoders new_parser (hello_message (hello_prefix body))
        (prefix-IsValid ne).2)

  after_prefix :
      (b : Bool)
      → (length body == 0) ≡ b
      → parse_bytes decoders new_parser (hello_prefix body ++ body)
        ≡ ok (between, CompleteMessage.hello h ∷ [])
  after_prefix true e =
      parse_bytes_one_step decoders (hello_prefix body ++ body) new_parser tt (omega arith)
        (ground arith)
      ∙ last_step [] (hello_prefix body ++ body) new_parser refl refl
  after_prefix false e =
      let ne : 1 ≤ length body = ground arith in
      parse_bytes-append decoders (hello_prefix body) body new_parser
      ∙ ap (λ r. then_bytes decoders r body)
          (parse_bytes_one_step decoders (hello_prefix body) new_parser tt (omega arith)
              (omega arith)
            ∙ prefix_step ne)
      ∙ behind_none (parse_bytes decoders (greeting (hello_prefix body)) body)
      ∙ parse_bytes_one_step decoders body (greeting (hello_prefix body)) (prefix-IsValid ne) ne
          (ground (arith, hello_number))
      ∙ last_step (hello_prefix body) body (greeting (hello_prefix body)) refl refl

  -- The hello that opens a connection is what a new parser returns, and it is after the hello then.
  pub parse_hello :
      parse_bytes decoders new_parser (hello_prefix body ++ body)
      ≡ ok (between, CompleteMessage.hello h ∷ [])
  parse_hello = after_prefix (length body == 0) refl
