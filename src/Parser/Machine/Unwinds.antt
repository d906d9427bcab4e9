-- ===== src/Parser/Machine/Unwinds.antt =====
-- How a call of the parser may fail: it never loops, and it unwinds only where a decoder refuses.
use grizol.Prelude.{
  ℕ, List, ap, sym, subst, ◌∙◌, append-nil, append_assoc, ◌≡◌, refl, inl, inr, none, some, [], ◌∷◌,
  ◌++◌, length, arith,
}
use grizol.Prelude.Outcome.{Outcome, ok, >>=-ok, >>=-eq-ok}
use grizol.Prelude.Bytes.{Bytes}
use grizol.Parser.Incoming.{Decoders, ParseError, IncomingMessage, add_data}
use grizol.Parser.Decode.{CompleteMessage, decode-ne-waiting}
use grizol.Parser.Target.{target, IsLoaded, length-le-target, status-IsLoaded, add_data_full}
use grizol.Parser.Machine.{BepDataParser, take_complete, parse_incoming_data}
use grizol.Parser.Machine.Steps.{
  current_of, IsValid, take_complete_waiting, current, current-IsWaiting, step, step-IsValid,
}
use grizol.Parser.Machine.Stream.{behind, parse_bytes, parse_incoming_data-eq-parse_bytes}
use grizol.Parser.Machine.HeaderRead.{HasReadHeader, add_data-HasReadHeader}
use grizol.Parser.Machine.Refused.{Refused, Fails, Fails->>=, Fails-map, step-Fails}

ok_fst :
    (a b : BepDataParser) (xs ys : List CompleteMessage)
    → ◌≡◌ {A = Outcome ParseError (BepDataParser × List CompleteMessage)} (ok (a, xs)) (ok (b, ys))
    → a ≡ b
ok_fst a b xs ys e = cc

module _ (decoders : Decoders) where
  -- The bytes that a parser holds, of a message that is not complete.
  abbrev pub held : BepDataParser → Bytes
  held p = (current p).data_bytes

  -- The bytes `before` of the buffer are read, `q` holds the end of what came so far, and then `byte` is
  -- refused.
  pub record Refusal (p : BepDataParser) (buf : Bytes) : Type 0 where
    pub before : Bytes
    pub byte : ℕ
    pub after : Bytes
    pub q : BepDataParser
    pub messages : List CompleteMessage
    pub front : Bytes
    pub cut : buf ≡ before ++ byte ∷ after
    pub read : parse_incoming_data decoders p before ≡ ok (q, messages)
    pub rest : held p ++ before ≡ front ++ held q
    pub refused : Refused decoders (current q).auth_status (held q ++ byte ∷ [])

  take_complete_empty :
      (p q : BepDataParser) (im : IncomingMessage) (ms : List CompleteMessage)
      → IsLoaded im
      → length im.data_bytes ≡ target im
      → take_complete decoders (record p { incoming_message = some im }) ≡ ok (q, ms)
      → q.incoming_message ≡ none
  unfolding take_complete
  take_complete_empty p q im ms l f e =
      ground (arith, status-IsLoaded {E = ParseError} im l, decode-ne-waiting decoders im)

  -- A byte is held, or completes what was held.
  step-held :
      (p q : BepDataParser) (byte : ℕ) (ms : List CompleteMessage)
      → IsValid p
      → step decoders p (byte ∷ []) ≡ ok (q, ms)
      → (front : Bytes) × (held p ++ byte ∷ [] ≡ front ++ held q)
  step-held p q byte ms v e =
      let w = current-IsWaiting p v in
      let (im, e₁, e₂) = >>=-eq-ok (add_data decoders (current p) (byte ∷ [])) _ e in
      let (l, d, a) = add_data_full decoders (current p) (byte ∷ []) w (omega arith) e₁ in
      elim (length-le-target im l) [
        | inl full ↦
            let gone : held q ≡ [] =
              ap (λ o. (current_of q.bep_auth_status o).data_bytes)
                (take_complete_empty p q im ms l full e₂) in
            (
              held p ++ byte ∷ [],
              sym (append-nil (held p ++ byte ∷ []))
                  ∙ ap (λ ys. (held p ++ byte ∷ []) ++ ys) (sym gone),
            )
        | inr less ↦
            let kept =
              ok_fst _ q [] ms (sym (take_complete_waiting decoders p im (l, less)) ∙ e₂) in
            ([], sym d ∙ ap held kept)
      ]

  take_complete-HasReadHeader :
      (p q : BepDataParser) (im : IncomingMessage) (ms : List CompleteMessage)
      → IsLoaded im
      → HasReadHeader decoders im
      → take_complete decoders (record p { incoming_message = some im }) ≡ ok (q, ms)
      → HasReadHeader decoders (current q)
  take_complete-HasReadHeader p q im ms l r e = elim (length-le-target im l) [
    | inl full ↦
        subst (λ o. HasReadHeader decoders (current_of q.bep_auth_status o))
          (sym (take_complete_empty p q im ms l full e)) tt
    | inr less ↦
        subst (λ x. HasReadHeader decoders (current x))
          (ok_fst _ q [] ms (sym (take_complete_waiting decoders p im (l, less)) ∙ e)) r
  ]

  step-HasReadHeader :
      (p q : BepDataParser) (byte : ℕ) (ms : List CompleteMessage)
      → IsValid p
      → HasReadHeader decoders (current p)
      → step decoders p (byte ∷ []) ≡ ok (q, ms)
      → HasReadHeader decoders (current q)
  step-HasReadHeader p q byte ms v r e =
      let im = current p in
      let w = current-IsWaiting p v in
      let (im', e₁, e₂) = >>=-eq-ok (add_data decoders im (byte ∷ [])) _ e in
      take_complete-HasReadHeader p q im' ms
        (add_data_full decoders im (byte ∷ []) w (omega arith) e₁).0
        (add_data-HasReadHeader decoders im.auth_status im.header im.data_bytes (byte ∷ []) im' w.0
          r e₁)
        e₂

  read_first :
      (p q : BepDataParser) (byte : ℕ) (before : Bytes) (ms : List CompleteMessage)
      (q' : BepDataParser) (ns : List CompleteMessage)
      → step decoders p (byte ∷ []) ≡ ok (q, ms)
      → parse_bytes decoders q before ≡ ok (q', ns)
      → parse_bytes decoders p (byte ∷ before) ≡ ok (q', ms ++ ns)
  unfolding parse_bytes
  read_first p q byte before ms q' ns e f = >>=-ok _ e (>>=-ok (behind ms) f refl)

  -- The first byte is refused.
  here :
      (p : BepDataParser) (byte : ℕ) (after : Bytes)
      → IsValid p
      → Refused decoders (current p).auth_status (held p ++ byte ∷ [])
      → Refusal p (byte ∷ after)
  unfolding parse_bytes
  here p byte after v refused = record {
    before = [];
    byte = byte;
    after = after;
    q = p;
    messages = [];
    front = [];
    cut = refl;
    read = parse_incoming_data-eq-parse_bytes decoders p [] v;
    rest = append-nil (held p);
    refused = refused;
  }

  -- A byte before the ones that are refused.
  prepend :
      (p q : BepDataParser) (byte : ℕ) (buf : Bytes) (ms : List CompleteMessage)
      → IsValid p
      → step decoders p (byte ∷ []) ≡ ok (q, ms)
      → Refusal q buf
      → Refusal p (byte ∷ buf)
  prepend p q byte buf ms v e r =
      let (front, first) = step-held p q byte ms v e in
      let v' =
        step-IsValid decoders p q (byte ∷ []) ms v (omega arith)
          (omega (arith, (current-IsWaiting p v).1)) e in
      record {
        before = byte ∷ r.before;
        byte = r.byte;
        after = r.after;
        q = r.q;
        messages = ms ++ r.messages;
        front = front ++ r.front;
        cut = ap (λ ys. byte ∷ ys) r.cut;
        read =
            parse_incoming_data-eq-parse_bytes decoders p (byte ∷ r.before) v
            ∙ read_first p q byte r.before ms r.q r.messages e
                (sym (parse_incoming_data-eq-parse_bytes decoders q r.before v') ∙ r.read);
        rest =
            sym (append_assoc (held p) (byte ∷ []) r.before)
            ∙ ap (λ ys. ys ++ r.before) first
            ∙ append_assoc front (held q) r.before
            ∙ ap (λ ys. front ++ ys) r.rest
            ∙ sym (append_assoc front r.front (held r.q));
        refused = r.refused;
      }

  parse_bytes-Fails :
      (bs : Bytes) (p : BepDataParser)
      → IsValid p
      → HasReadHeader decoders (current p)
      → Fails decoders (Refusal p bs) (parse_bytes decoders p bs)
  unfolding parse_bytes
  parse_bytes-Fails [] p v r = tt
  parse_bytes-Fails (b ∷ bs) p v r =
      let w = current-IsWaiting p v in
      Fails->>= decoders _ (step decoders p (b ∷ [])) _
        (Fails-map decoders (λ refused. here p b bs v refused) (step decoders p (b ∷ []))
          (step-Fails decoders p (b ∷ []) v r (omega arith)))
        (λ x e.
          Fails->>= decoders _ (parse_bytes decoders x.0 bs) (behind x.1)
            (Fails-map decoders (prepend p x.0 b bs x.1 v e) (parse_bytes decoders x.0 bs) (
              parse_bytes-Fails bs x.0
                (step-IsValid decoders p x.0 (b ∷ []) x.1 v (omega arith) (omega arith) e)
                (step-HasReadHeader p x.0 b x.1 v r e)))
            (λ y f. tt))

  -- On a valid parser whose header, if it holds one, is the one that its bytes give, and any bytes,
  -- parse_incoming_data does not run out of fuel, and if it unwinds, then the bytes before some byte
  -- of the buffer are read without, and the bytes that the parser holds then, which are the last
  -- ones that came, with this byte are refused: after the hello, the header decoder refuses the
  -- bytes after the first two, of the length that these give; or they are a whole hello, with the
  -- magic number, and the hello decoder refuses the bytes of its length; or they are a whole message
  -- whose header has an unknown type, or is for LZ4 and the bytes behind the length of the message
  -- have no length of the data or do not decompress.
  pub parse_incoming_data_ends :
      (p : BepDataParser) (buf : Bytes)
      → IsValid p
      → HasReadHeader decoders (current p)
      → Fails decoders (Refusal p buf) (parse_incoming_data decoders p buf)
  parse_incoming_data_ends p buf v r =
      rw (parse_incoming_data-eq-parse_bytes decoders p buf v) (parse_bytes-Fails buf p v r)
