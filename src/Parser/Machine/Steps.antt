-- ===== src/Parser/Machine/Steps.antt =====
-- One round of the loop of `parse_incoming_data`, on a parser that waits for more bytes.
use grizol.Prelude.{
  ℕ, ◌-◌, ◌≤◌, ◌<◌, min, ◌≡◌, refl, ap, ◌∙◌, subst, Option, none, some, List, [], ◌∷◌, ◌++◌, length,
  length-append, take, arith, inl, inr,
}
use grizol.Prelude.Outcome.{Outcome, ok, err, panic, diverge, ◌>>=◌}
use grizol.Prelude.Bytes.{Bytes}
use grizol.Proto.{Header}
use grizol.Parser.Incoming.{
  Decoders, ParseError, BepAuthStatus, pre_hello, post_hello, IncomingMessage, new_message,
  add_data, missing_header_bytes, missing_message_bytes,
}
use grizol.Parser.Decode.{CompleteMessage, decode, decode-ne-waiting}
use grizol.Parser.Target.{
  missing_message_bytes_post, length-le-target, target, target_of, IsLoaded, IsWaiting,
  status-IsLoaded, target-append, add_data_short, add_data_again, add_data_full,
}
use grizol.Parser.Machine.{BepDataParser, populate, take_complete}

abbrev pub ValidAt : BepAuthStatus → Option IncomingMessage → Type 0
ValidAt s none = Unit
ValidAt s (some im) = (im.auth_status ≡ s) × (1 ≤ length im.data_bytes) × IsWaiting im

-- Between two rounds the parser holds no message, or one that has bytes and lacks bytes.
abbrev pub IsValid : BepDataParser → Type 0
IsValid p = ValidAt p.bep_auth_status p.incoming_message

abbrev pub current_of : BepAuthStatus → Option IncomingMessage → IncomingMessage
current_of s none = new_message s
current_of s (some im) = im

-- The message that the next bytes belong to.
abbrev pub current : BepDataParser → IncomingMessage
current p = current_of p.bep_auth_status p.incoming_message

-- How many bytes the parser asks for next.
abbrev pub need : BepDataParser → ℕ
need p = target (current p) - length (current p).data_bytes

new-IsWaiting : (s : BepAuthStatus) → IsWaiting (new_message s)
new-IsWaiting pre_hello = omega arith
new-IsWaiting post_hello = omega arith

current-IsWaiting_at :
    (s : BepAuthStatus) (o : Option IncomingMessage) → ValidAt s o → IsWaiting (current_of s o)
current-IsWaiting_at s none v = new-IsWaiting s
current-IsWaiting_at s (some im) v = v.2

pub current-IsWaiting : (p : BepDataParser) → IsValid p → IsWaiting (current p)
current-IsWaiting p v = current-IsWaiting_at p.bep_auth_status p.incoming_message v

current_status_at :
    (s : BepAuthStatus) (o : Option IncomingMessage)
    → ValidAt s o
    → (current_of s o).auth_status ≡ s
current_status_at s none v = refl
current_status_at s (some im) v = v.0

module _ (decoders : Decoders) where
  abbrev populated :
      BepAuthStatus
      → Option IncomingMessage
      → IncomingMessage
      → Bytes
      → ℕ
      → Outcome ParseError (ℕ × BepDataParser)
  populated s o im buf n = add_data decoders im (take n buf) >>= λ im'.
      ok (n, record { bep_auth_status = s; incoming_message = some im' })

  populate-some :
      (a : BepAuthStatus) (h : Option Header) (d : Bytes) (buf : Bytes)
      → 1 ≤ length d
      → IsWaiting (record { auth_status = a; data_bytes = d; header = h })
      → 1 ≤ length buf
      → populate decoders
          (record {
            bep_auth_status = a;
            incoming_message = some (record { auth_status = a; data_bytes = d; header = h });
          })
          buf
        ≡ populated a
            (some (record { auth_status = a; data_bytes = d; header = h }))
            (record { auth_status = a; data_bytes = d; header = h })
            buf
            (min (length buf) (target_of a h d - length d))
  unfolding populate missing_header_bytes
  populate-some pre_hello none d buf ne w b = unfold missing_message_bytes in ground arith
  populate-some pre_hello (some h) d buf ne w b = absurd w.0
  populate-some post_hello none d buf ne w b = ground arith
  populate-some post_hello (some h) d buf ne w b =
      rw (missing_message_bytes_post h d w.0) (ground arith)

  populate-none :
      (s : BepAuthStatus) (buf : Bytes)
      → 1 ≤ length buf
      → populate decoders (record { bep_auth_status = s; incoming_message = none }) buf
        ≡ populated s none
            (new_message s)
            buf
            (min (length buf) (need (record { bep_auth_status = s; incoming_message = none })))
  unfolding populate
  populate-none pre_hello buf b = ground arith
  populate-none post_hello buf b = ground arith

  populate_at_need :
      (s : BepAuthStatus) (o : Option IncomingMessage) (buf : Bytes)
      → ValidAt s o
      → 1 ≤ length buf
      → populate decoders (record { bep_auth_status = s; incoming_message = o }) buf
        ≡ populated s o
            (current_of s o)
            buf
            (min (length buf) (need (record { bep_auth_status = s; incoming_message = o })))
  populate_at_need s none buf v b = populate-none s buf b
  populate_at_need s (some im) buf v b =
      subst
        (λ a.
          populate decoders (record { bep_auth_status = a; incoming_message = some im }) buf
          ≡ populated a (some im) im buf (min (length buf) (target im - length im.data_bytes)))
        v.0 (populate-some im.auth_status im.header im.data_bytes buf v.1 v.2 b)

  -- A round adds as many bytes as the parser needs, or all that there are.
  pub populate_lem :
      (p : BepDataParser) (buf : Bytes)
      → IsValid p
      → 1 ≤ length buf
      → populate decoders p buf ≡ (
          add_data decoders (current p) (take (min (length buf) (need p)) buf) >>= λ im.
          ok (min (length buf) (need p), record p { incoming_message = some im }))
  populate_lem p buf v b = populate_at_need p.bep_auth_status p.incoming_message buf v b

  -- `xs` go into the current message, which is decoded if that completes it.
  abbrev pub step :
      BepDataParser → Bytes → Outcome ParseError (BepDataParser × List CompleteMessage)
  step p xs = add_data decoders (current p) xs >>= λ im.
      take_complete decoders (record p { incoming_message = some im })

  pub take_complete_waiting :
      (p : BepDataParser) (im : IncomingMessage)
      → IsWaiting im
      → take_complete decoders (record p { incoming_message = some im })
        ≡ ok (record p { incoming_message = some im }, [])
  unfolding take_complete
  take_complete_waiting p im w = rw (status-IsLoaded im w.0) (ground arith)

  -- The parser after `xs`, where they do not reach the target.
  abbrev pub extended : BepDataParser → Bytes → BepDataParser
  extended p xs =
      let im = current p in
      record p { incoming_message = some (record im { data_bytes = im.data_bytes ++ xs }) }

  target-extended :
      (p : BepDataParser) (xs : Bytes)
      → IsValid p
      → length xs < need p
      → target (current (extended p xs)) ≡ target (current p)
  target-extended p xs v m =
      let im = current p in
      target-append im.auth_status im.header im.data_bytes xs (current-IsWaiting p v).0
        (omega arith)

  extended-IsWaiting :
      (p : BepDataParser) (xs : Bytes)
      → IsValid p
      → length xs < need p
      → IsWaiting (current (extended p xs))
  extended-IsWaiting p xs v m =
      let w = current-IsWaiting p v in
      let short = add_data_short decoders (current p) xs w (omega arith) in
      (
        (add_data_full decoders (current p) xs w (omega arith) short).0,
        rw (target-extended p xs v m) (omega (arith, length-append (current p).data_bytes xs)),
      )

  pub extended-IsValid :
      (p : BepDataParser) (xs : Bytes)
      → IsValid p
      → 1 ≤ length xs
      → length xs < need p
      → IsValid (extended p xs)
  extended-IsValid p xs v b m = (
    current_status_at p.bep_auth_status p.incoming_message v,
    omega (arith, length-append (current p).data_bytes xs),
    extended-IsWaiting p xs v m,
  )

  pub need-extended :
      (p : BepDataParser) (xs : Bytes)
      → IsValid p
      → length xs < need p
      → need (extended p xs) ≡ need p - length xs
  need-extended p xs v m =
      omega (arith, target-extended p xs v m, length-append (current p).data_bytes xs)

  -- Bytes that do not reach the target are kept, and give no message.
  pub step_short :
      (p : BepDataParser) (xs : Bytes)
      → IsValid p
      → length xs < need p
      → step p xs ≡ ok (extended p xs, [])
  step_short p xs v m =
      rw (add_data_short decoders (current p) xs (current-IsWaiting p v) (omega arith))
        (take_complete_waiting p (current (extended p xs)) (extended-IsWaiting p xs v m))

  pub step_again : (p : BepDataParser) (xs ys : Bytes) → step (extended p xs) ys ≡ step p (xs ++ ys)
  step_again p xs ys =
      ap (λ m. m >>= λ im. take_complete decoders (record p { incoming_message = some im }))
        (add_data_again decoders (current p) xs ys)

  take_complete_full :
      (p q : BepDataParser) (im : IncomingMessage) (ms : List CompleteMessage)
      → IsLoaded im
      → length im.data_bytes ≡ target im
      → take_complete decoders (record p { incoming_message = some im }) ≡ ok (q, ms)
      → IsValid q
  unfolding take_complete
  take_complete_full p q im ms l f e =
      ground (arith, status-IsLoaded {E = ParseError} im l, decode-ne-waiting decoders im)

  -- A complete message leaves the parser, which is after the hello then.
  pub take_complete_decoded :
      (p : BepDataParser) (im : IncomingMessage) {m : CompleteMessage}
      → IsLoaded im
      → length im.data_bytes ≡ target im
      → decode decoders im ≡ ok m
      → take_complete decoders (record p { incoming_message = some im })
        ≡ ok (record { bep_auth_status = post_hello; incoming_message = none }, m ∷ [])
  unfolding take_complete
  take_complete_decoded p im l f e = ground (arith, status-IsLoaded {E = ParseError} im l)

  take_complete-IsValid :
      (p q : BepDataParser) (im : IncomingMessage) (ms : List CompleteMessage)
      → IsLoaded im
      → im.auth_status ≡ p.bep_auth_status
      → 1 ≤ length im.data_bytes
      → take_complete decoders (record p { incoming_message = some im }) ≡ ok (q, ms)
      → IsValid q
  take_complete-IsValid p q im ms l a b e = elim (length-le-target im l) [
    | inl full ↦ take_complete_full p q im ms l full e
    | inr less ↦ ground (arith, take_complete_waiting p im (l, less))
  ]

  step-IsValid_from :
      (p q : BepDataParser) (xs : Bytes) (ms : List CompleteMessage)
      (r : Outcome ParseError IncomingMessage)
      → IsValid p
      → 1 ≤ length xs
      → length xs ≤ need p
      → add_data decoders (current p) xs ≡ r
      → (r >>= λ im. take_complete decoders (record p { incoming_message = some im })) ≡ ok (q, ms)
      → IsValid q
  step-IsValid_from p q xs ms (ok im) v b m e f =
      let (l, d, a) =
        add_data_full decoders (current p) xs (current-IsWaiting p v) (omega arith) e in
      take_complete-IsValid p q im ms l
        (a ∙ current_status_at p.bep_auth_status p.incoming_message v)
        (rw d (omega (arith, length-append (current p).data_bytes xs))) f
  step-IsValid_from p q xs ms (err x) v b m e f = absurd (cc)
  step-IsValid_from p q xs ms panic v b m e f = absurd (cc)
  step-IsValid_from p q xs ms diverge v b m e f = absurd (cc)

  -- A step of at most the bytes needed leaves a valid parser.
  pub step-IsValid :
      (p q : BepDataParser) (xs : Bytes) (ms : List CompleteMessage)
      → IsValid p
      → 1 ≤ length xs
      → length xs ≤ need p
      → step p xs ≡ ok (q, ms)
      → IsValid q
  step-IsValid p q xs ms v b m e =
      step-IsValid_from p q xs ms (add_data decoders (current p) xs) v b m refl e
