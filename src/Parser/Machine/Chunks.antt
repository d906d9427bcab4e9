-- ===== src/Parser/Machine/Chunks.antt =====
-- What the parser does on every input: it ends, it stays valid, and reads may be joined or split.
use grizol.Prelude.{◌≡◌, refl, ◌∙◌, sym, ap, subst, List, [], ◌∷◌, ◌++◌, arith}
use grizol.Prelude.Outcome.{Outcome, ok, err, panic, diverge, ◌>>=◌, >>=_cong}
use grizol.Prelude.Bytes.{Bytes}
use grizol.Parser.Incoming.{Decoders, ParseError}
use grizol.Parser.Decode.{CompleteMessage}
use grizol.Parser.Machine.{BepDataParser, parse_incoming_data}
use grizol.Parser.Machine.Steps.{IsValid, current-IsWaiting, step, step-IsValid}
use grizol.Parser.Machine.Stream.{
  Parsed, behind, parse_bytes, parse_bytes-append, parse_incoming_data-eq-parse_bytes,
}

module _ (decoders : Decoders) where
  parse_bytes_valid_from :
      (r : Parsed) (ms ns : List CompleteMessage) (q : BepDataParser)
      → (r >>= behind ms) ≡ ok (q, ns)
      → (ks : List CompleteMessage) × (r ≡ ok (q, ks))
  parse_bytes_valid_from (ok (p, ks)) ms ns q e = (ks, cc)
  parse_bytes_valid_from (err x) ms ns q e = absurd (cc)
  parse_bytes_valid_from panic ms ns q e = absurd (cc)
  parse_bytes_valid_from diverge ms ns q e = absurd (cc)

  bind_ok :
      {A : Type 0} (r : Parsed) (f : BepDataParser × List CompleteMessage → Outcome ParseError A)
      {a : A}
      → (r >>= f) ≡ ok a
      → (x : BepDataParser × List CompleteMessage) × (r ≡ ok x) × (f x ≡ ok a)
  bind_ok (ok x) f e = (x, refl, e)
  bind_ok (err x) f e = absurd (cc)
  bind_ok panic f e = absurd (cc)
  bind_ok diverge f e = absurd (cc)

  parse_bytes-IsValid :
      (bs : Bytes) (p q : BepDataParser) (ms : List CompleteMessage)
      → IsValid p
      → parse_bytes decoders p bs ≡ ok (q, ms)
      → IsValid q
  unfolding parse_bytes
  parse_bytes-IsValid [] p q ms v e = subst IsValid (ok_fst e) v
    where
      ok_fst :
          {a b : BepDataParser} {k l : List CompleteMessage}
          → ◌≡◌ {A = Parsed} (ok (a, k)) (ok (b, l))
          → a ≡ b
      ok_fst h = cc
  parse_bytes-IsValid (b ∷ bs) p q ms v e =
      let (x, e1, e2) = bind_ok (step decoders p (b ∷ [])) _ e in
      let (ks, e3) = parse_bytes_valid_from (parse_bytes decoders x.0 bs) x.1 ms q e2 in
      let w = current-IsWaiting p v in
      parse_bytes-IsValid bs x.0 q ks
        (step-IsValid decoders p x.0 (b ∷ []) x.1 v (omega arith) (omega arith) e1) e3

  -- A parser that parse_incoming_data returns is valid if the one it was called on is: the message
  -- it holds has a byte at least and fewer than it needs, and its header is there from the moment
  -- its bytes are.
  pub parse_incoming_data-IsValid :
      (p q : BepDataParser) (buf : Bytes) (ms : List CompleteMessage)
      → IsValid p
      → parse_incoming_data decoders p buf ≡ ok (q, ms)
      → IsValid q
  parse_incoming_data-IsValid p q buf ms v e =
      parse_bytes-IsValid buf p q ms v
        (sym (parse_incoming_data-eq-parse_bytes decoders p buf v) ∙ e)

  -- On a valid parser, one call of parse_incoming_data on two reads joined gives the same messages,
  -- error and parser as one call on the first read and then one on the second.
  pub parse_incoming_data-append :
      (p : BepDataParser) (xs ys : Bytes)
      → IsValid p
      → parse_incoming_data decoders p (xs ++ ys) ≡ (
          parse_incoming_data decoders p xs >>= λ x.
          parse_incoming_data decoders x.0 ys >>= behind x.1)
  parse_incoming_data-append p xs ys v =
      parse_incoming_data-eq-parse_bytes decoders p (xs ++ ys) v
      ∙ parse_bytes-append decoders xs ys p
      ∙ ap (λ r. r >>= λ x. parse_bytes decoders x.0 ys >>= behind x.1)
          (sym (parse_incoming_data-eq-parse_bytes decoders p xs v))
      ∙ >>=_cong (parse_incoming_data decoders p xs) _ _ (λ x e.
        ap (λ r. r >>= behind x.1)
          (sym (
            parse_incoming_data-eq-parse_bytes decoders x.0 ys
              (parse_incoming_data-IsValid p x.0 xs x.1 v e))))
