-- ===== src/Parser/Machine.antt =====
-- `BepDataParser` of src/core/bep_data_parser.rs: the bytes of a connection, as they arrive, become
-- complete messages. The state after an `Err` is left out: the only caller unwraps the result.
pub mod Steps
pub mod Stream
pub mod HeaderRead
pub mod Refused
pub mod Unwinds
pub mod Chunks
use grizol.Prelude.{
  ℕ, zero, suc, ◌+◌, min, Bool, true, false, Option, none, some, List, [], ◌∷◌, ◌++◌, length, take,
  drop, ltb, leb, if◌then◌else◌,
}
use grizol.Prelude.Outcome.{Outcome, ok, err, panic, diverge, ◌>>=◌, ◌>>◌, assert, unwrap}
use grizol.Prelude.Bytes.{Bytes}
use grizol.Proto.{Header}
use grizol.Parser.Incoming.{
  Decoders, ParseError, no_incoming_message_yet, BepAuthStatus, pre_hello, post_hello,
  IncomingMessageStatus, incomplete, complete, IncomingMessage, new_message, total_byte_len, status,
  add_data, missing_header_bytes, missing_message_bytes, read_be, sub_usize, hello_start,
  header_start,
}
use grizol.Parser.Decode.{CompleteMessage, decode}

pub record BepDataParser : Type 0 where
  pub bep_auth_status : BepAuthStatus
  pub incoming_message : Option IncomingMessage

-- `BepDataParser::new`
abbrev pub new_parser : BepDataParser
new_parser = record { bep_auth_status = pre_hello; incoming_message = none }

-- What the populate functions and one round of the loop give back.
abbrev pub Populated : Type 0
Populated = Outcome ParseError (ℕ × BepDataParser)

abbrev or_zero : Option ℕ → ℕ
or_zero none = 0
or_zero (some n) = n

module _ (decoders : Decoders) where
  -- `im.add_data(&buf[..n])`, and `n` bytes are processed. Every caller has `n` at most `buf.len()`.
  add_prefix : BepDataParser → IncomingMessage → Bytes → ℕ → Populated
  add_prefix p im buf n = do
    im' ← add_data decoders im (take n buf)
    ok (n, record p { incoming_message = some im' })

  more_hello : BepDataParser → IncomingMessage → Bytes → Populated
  more_hello p im buf =
      if ltb (total_byte_len im) hello_start
      then (do
        missing ← sub_usize hello_start (total_byte_len im)
        add_prefix p im buf (min (length buf) missing))
      else (do
        missing ← missing_message_bytes im
        if ltb 0 (or_zero missing)
            then (unwrap missing >>= λ m. add_prefix p im buf (min (length buf) m))
            else ok (0, p))

  populate_hello_on : Option IncomingMessage → BepDataParser → Bytes → Populated
  populate_hello_on (some im) p buf = assert (leb 1 (total_byte_len im)) >> more_hello p im buf
  populate_hello_on none p buf =
      let available_for_hello = min (length buf) hello_start in
      if ltb 0 available_for_hello
      then add_prefix p (new_message p.bep_auth_status) buf available_for_hello
      else ok (0, p)

  unfoldable pub populate_hello : BepDataParser → Bytes → Populated
  unfolding populate_hello_on more_hello add_prefix
  populate_hello p buf = populate_hello_on p.incoming_message p buf

  more_header : BepDataParser → IncomingMessage → Bytes → Populated
  more_header p im buf =
      if ltb (total_byte_len im) header_start
      then (if leb 1 (length buf) then add_prefix p im buf 1 else panic)
      else (do
        missing ← missing_header_bytes im
        m ← unwrap missing
        add_prefix p im buf (min (length buf) m))

  populate_header_on : Option IncomingMessage → BepDataParser → Bytes → Populated
  populate_header_on (some im) p buf = assert (leb 1 (total_byte_len im)) >> more_header p im buf
  populate_header_on none p buf =
      let available_for_header = min (length buf) 2 in
      if ltb 0 available_for_header
      then add_prefix p (new_message p.bep_auth_status) buf available_for_header
      else ok (0, p)

  unfoldable pub populate_header : BepDataParser → Bytes → Populated
  unfolding populate_header_on more_header add_prefix
  populate_header p buf = populate_header_on p.incoming_message p buf

  more_message : BepDataParser → IncomingMessage → Bytes → Option ℕ → Populated
  more_message p im buf (some missing_message_bytes) =
      add_prefix p im buf (min missing_message_bytes (length buf))
  more_message p im buf none = do
    header_byte_len ← read_be 0 header_start im.data_bytes
    let message_start = header_start + header_byte_len + 4
    missing_message_len_bytes ← sub_usize message_start (length im.data_bytes)
    add_prefix p im buf (min missing_message_len_bytes (length buf))

  populate_message_on : Option IncomingMessage → BepDataParser → Bytes → Populated
  populate_message_on none p buf = panic
  populate_message_on (some im) p buf = missing_message_bytes im >>= more_message p im buf

  unfoldable pub populate_message : BepDataParser → Bytes → Populated
  unfolding populate_message_on more_message add_prefix
  populate_message p buf = populate_message_on p.incoming_message p buf

  abbrev has_header : Option IncomingMessage → Bool
  has_header none = false
  has_header (some im) = elim im.header [ none ↦ false | some _ ↦ true ]

  populate_at : BepAuthStatus → BepDataParser → Bytes → Populated
  populate_at pre_hello p buf = populate_hello p buf
  populate_at post_hello p buf =
      if has_header p.incoming_message then populate_message p buf else populate_header p buf

  -- The first `match` of the loop body.
  unfoldable pub populate : BepDataParser → Bytes → Populated
  unfolding populate_at populate_hello populate_header populate_message
  populate p buf = populate_at p.bep_auth_status p buf

  -- A decoded message leaves the parser. `NoIncomingMessageYet` is not an error to the loop.
  keep_message :
      BepDataParser
      → Outcome ParseError CompleteMessage
      → Outcome ParseError (BepDataParser × List CompleteMessage)
  keep_message p (ok cm) = ok (record p { incoming_message = none }, cm ∷ [])
  keep_message p (err no_incoming_message_yet) = ok (p, [])
  keep_message p (err e) = err e
  keep_message p panic = panic
  keep_message p diverge = diverge

  complete_with :
      BepDataParser
      → IncomingMessage
      → IncomingMessageStatus
      → Outcome ParseError (BepDataParser × List CompleteMessage)
  complete_with p im incomplete = keep_message p (err no_incoming_message_yet)
  complete_with p im complete =
      keep_message (record p { bep_auth_status = post_hello }) (decode decoders im)

  complete_on :
      Option IncomingMessage
      → BepDataParser
      → Outcome ParseError (BepDataParser × List CompleteMessage)
  complete_on none p = keep_message p (err no_incoming_message_yet)
  complete_on (some im) p = status im >>= complete_with p im

  -- The rest of the loop body: a complete message is decoded.
  unfoldable pub take_complete :
      BepDataParser → Outcome ParseError (BepDataParser × List CompleteMessage)
  unfolding complete_on complete_with keep_message
  take_complete p = complete_on p.incoming_message p

  -- The loop over what is left of the buffer, one unit of fuel a round.
  parse_loop :
      ℕ
      → BepDataParser
      → Bytes
      → List CompleteMessage
      → Outcome ParseError (BepDataParser × List CompleteMessage)
  parse_loop fuel p [] res = ok (p, res)
  parse_loop zero p (b ∷ bs) res = diverge
  parse_loop (suc fuel) p (b ∷ bs) res = do
    (n, p') ← populate p (b ∷ bs)
    (p'', messages) ← take_complete p'
    parse_loop fuel p'' (drop n (b ∷ bs)) (res ++ messages)

  -- A round takes a byte at least, so as many rounds as bytes are enough.
  unfoldable pub parse_incoming_data :
      BepDataParser → Bytes → Outcome ParseError (BepDataParser × List CompleteMessage)
  unfolding parse_loop
  parse_incoming_data p buf = parse_loop (length buf) p buf []
