-- ===== src/Parser/Machine/HeaderRead.antt =====
-- The header that a message holds is the one that its bytes give, src/core/bep_data_parser.rs.
use grizol.Prelude.{
  take, drop, ap, subst, ◌∙◌, ◌+◌, ◌≤◌, ◌≡◌, refl, Option, none, some, ◌++◌, length, take-append_le,
  drop-append_le, length-drop, arith,
}
use grizol.Prelude.Outcome.{Outcome, ok, err, panic, diverge}
use grizol.Prelude.Bytes.{Bytes, number_at, slice_in_range}
use grizol.Proto.{Header}
use grizol.Parser.Incoming.{
  Decoders, ParseError, BepAuthStatus, pre_hello, post_hello, IncomingMessage, add_data,
  try_parse_header,
}
use grizol.Parser.Target.{header_end, number_at-append, LoadedAt}

-- The bytes of the header, behind the two of its length.
abbrev pub header_bytes : Bytes → Bytes
header_bytes d = take (number_at 2 0 d) (drop 2 d)

header_bytes-append :
    (d xs : Bytes)
    → 2 ≤ length d
    → header_end d ≤ length d
    → header_bytes (d ++ xs) ≡ header_bytes d
header_bytes-append d xs two l =
    rw (number_at-append 2 0 d xs two, drop-append_le 2 d xs two)
      (take-append_le (number_at 2 0 d) (drop 2 d) xs (omega (arith, length-drop 2 d)))

ok_eq : (a b : IncomingMessage) → ◌≡◌ {A = Outcome ParseError IncomingMessage} (ok a) (ok b) → a ≡ b
ok_eq a b e = cc

module _ (decoders : Decoders) where
  abbrev pub HeaderAt : Option Header → Bytes → Type 0
  HeaderAt none d = Unit
  HeaderAt (some h) d = decoders.header (header_bytes d) ≡ some h

  -- The header that is held, if any, is what the decoder gives for the bytes.
  abbrev pub HasReadHeader : IncomingMessage → Type 0
  HasReadHeader im = HeaderAt im.header im.data_bytes

  decoded_header :
      (o : Option Header) (h : Header)
      → ◌≡◌ {A = Outcome ParseError Header} (elim o [ none ↦ panic | some k ↦ ok k ]) (ok h)
      → o ≡ some h
  decoded_header none h e = absurd (cc)
  decoded_header (some k) h e = cc

  try_parse_header-ok :
      (buf : Bytes) (h : Header)
      → try_parse_header decoders buf ≡ ok h
      → decoders.header (header_bytes buf) ≡ some h
  unfolding try_parse_header
  try_parse_header-ok buf h e =
      decoded_header (decoders.header (header_bytes buf)) h
        (ground (arith, slice_in_range {E = ParseError} 2 (2 + number_at 2 0 buf) buf))

  keep_header-HasReadHeader :
      (d : Bytes) (r : Outcome ParseError Header) (im' : IncomingMessage)
      → ((h : Header) → r ≡ ok h → HeaderAt (some h) d)
      → ◌≡◌ {A = Outcome ParseError IncomingMessage}
          (elim r [
            | ok h ↦ ok (record { auth_status = post_hello; data_bytes = d; header = some h })
            | err e ↦ ok (record { auth_status = post_hello; data_bytes = d; header = none })
            | panic ↦ panic
            | diverge ↦ diverge
          ])
          (ok im')
      → HasReadHeader im'
  keep_header-HasReadHeader d (ok h) im' read e = subst HasReadHeader (ok_eq _ im' e) (read h refl)
  keep_header-HasReadHeader d (err x) im' read e = subst HasReadHeader (ok_eq _ im' e) tt
  keep_header-HasReadHeader d panic im' read e = absurd (cc)
  keep_header-HasReadHeader d diverge im' read e = absurd (cc)

  pub add_data-HasReadHeader :
      (s : BepAuthStatus) (h : Option Header) (d xs : Bytes) (im' : IncomingMessage)
      → LoadedAt s h d
      → HeaderAt h d
      → add_data decoders (record { auth_status = s; data_bytes = d; header = h }) xs ≡ ok im'
      → HasReadHeader im'
  unfolding add_data
  add_data-HasReadHeader pre_hello none d xs im' l r e = subst HasReadHeader (ok_eq _ im' e) tt
  add_data-HasReadHeader pre_hello (some h) d xs im' l r e = absurd l
  add_data-HasReadHeader post_hello none d xs im' l r e =
      keep_header-HasReadHeader (d ++ xs) (try_parse_header decoders (d ++ xs)) im'
        (try_parse_header-ok (d ++ xs)) e
  add_data-HasReadHeader post_hello (some h) d xs im' l r e =
      subst HasReadHeader (ok_eq _ im' e)
        (ap decoders.header (header_bytes-append d xs l.0 l.1) ∙ r)
