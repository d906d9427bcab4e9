-- ===== src/Parser/Machine/Refused.antt =====
-- Why the bytes that go to one message make the parser unwind.
use grizol.Prelude.{
  take, drop, ap, sym, subst, ◌∙◌, ◌-◌, ◌+◌, ◌≤◌, ◌≡◌, refl, inl, inr, Option, none, some, ◌++◌,
  length, Bool-cases, ltb, ◌==◌, ==_iff, true, arith,
}
use grizol.Prelude.Outcome.{Outcome, ok, err, panic, diverge, ◌>>=◌}
use grizol.Prelude.Bytes.{Bytes, number_at, slice_in_range}
use grizol.Proto.{Header}
use grizol.Parser.Incoming.{
  Decoders, ParseError, BepAuthStatus, pre_hello, post_hello, IncomingMessage, add_data,
  try_parse_header,
}
use grizol.Parser.Decode.{
  CompleteMessage, decode, decode-ne-diverge, BadBody, BadHello, decode-panic_pre,
  decode-panic_post,
}
use grizol.Parser.Machine.HeaderRead.{header_bytes, HeaderAt, HasReadHeader, add_data-HasReadHeader}
use grizol.Parser.Target.{
  header_end, target_of, LoadedAt, target, IsLoaded, length-le-target, status-IsLoaded,
  add_data_full,
}
use grizol.Parser.Machine.{BepDataParser, take_complete, keep_message}
use grizol.Parser.Machine.Steps.{
  IsValid, need, take_complete_waiting, current, current-IsWaiting, step,
}

module _ (decoders : Decoders) where
  -- Why the bytes `d` of one message, before or behind the hello, make the parser unwind: they have a
  -- header that does not decode, or are a whole hello or a whole message that is refused.
  pub data Refused (s : BepAuthStatus) (d : Bytes) : Type 0 where
    bad_header :
        s ≡ post_hello
        → header_end d ≤ length d
        → decoders.header (header_bytes d) ≡ none
        → Refused s d
    bad_hello : s ≡ pre_hello → length d ≡ 6 + number_at 2 4 d → BadHello decoders d → Refused s d
    bad_message :
        s ≡ post_hello
        → (h : Header) → decoders.header (header_bytes d) ≡ some h
        → length d ≡ header_end d + 4 + number_at 4 (header_end d) d
        → BadBody decoders h (header_end d + 4) d
        → Refused s d

  -- The failures of a call: there is a reason for a panic, and there is no divergence.
  abbrev pub Fails : Type 0 → {A : Type 0} → Outcome ParseError A → Type 0
  Fails reason (ok a) = Unit
  Fails reason (err e) = Unit
  Fails reason panic = reason
  Fails reason diverge = ⊥

  pub Fails->>= :
      {A B : Type 0} (R : Type 0) (r : Outcome ParseError A) (f : A → Outcome ParseError B)
      → Fails R r
      → ((a : A) → r ≡ ok a → Fails R (f a))
      → Fails R (r >>= f)
  Fails->>= R (ok a) f h k = k a refl
  Fails->>= R (err e) f h k = tt
  Fails->>= R panic f h k = h
  Fails->>= R diverge f h k = h

  pub Fails-map : {R S A : Type 0} (f : R → S) (r : Outcome ParseError A) → Fails R r → Fails S r
  Fails-map f (ok a) h = tt
  Fails-map f (err e) h = tt
  Fails-map f panic h = f h
  Fails-map f diverge h = h

  header-Fails :
      (R : Type 0) (o : Option Header)
      → (o ≡ none → R)
      → Fails R {A = Header} (elim o [ none ↦ panic | some h ↦ ok h ])
  header-Fails R none why = why refl
  header-Fails R (some h) why = tt

  try_parse_header-Fails :
      (R : Type 0) (buf : Bytes)
      → (2 + number_at 2 0 buf ≤ length buf
          → decoders.header (take (number_at 2 0 buf) (drop 2 buf)) ≡ none
          → R)
      → Fails R (try_parse_header decoders buf)
  unfolding try_parse_header
  try_parse_header-Fails R buf why = elim (Bool-cases (ltb (length buf) 2)) [
    | inl short ↦ rw short tt
    | inr long ↦
        rw (long, slice_in_range {E = ParseError} 0 2 buf (omega arith) (ground arith))
          (elim (Bool-cases (ltb (length buf) (2 + number_at 2 0 buf))) [
            | inl less ↦ rw less tt
            | inr enough ↦
                let n = number_at 2 0 buf in
                let back : 2 + n - 2 ≡ n = omega arith in
                rw
                  (
                    enough,
                    slice_in_range {E = ParseError} 2 (2 + number_at 2 0 buf) buf (omega arith)
                        (ground arith),
                  )
                  (header-Fails R _ (λ e.
                    why (ground arith)
                      (ap (λ k. decoders.header (take k (drop 2 buf))) (sym back) ∙ e)))
          ])
  ]

  keep_header-Fails :
      (R : Type 0) (im : IncomingMessage) (r : Outcome ParseError Header)
      → Fails R r
      → Fails R {A = IncomingMessage} (elim r [
        | ok h ↦ ok (record im { header = some h })
        | err e ↦ ok im
        | panic ↦ panic
        | diverge ↦ diverge
      ])
  keep_header-Fails R im (ok h) f = tt
  keep_header-Fails R im (err e) f = tt
  keep_header-Fails R im panic f = f
  keep_header-Fails R im diverge f = f

  add_data-Fails_at :
      (s : BepAuthStatus) (h : Option Header) (d xs : Bytes)
      → Fails
          (Refused s (d ++ xs))
          (add_data decoders (record { auth_status = s; data_bytes = d; header = h }) xs)
  unfolding add_data
  add_data-Fails_at pre_hello h d xs = tt
  add_data-Fails_at post_hello (some h) d xs = tt
  add_data-Fails_at post_hello none d xs =
      keep_header-Fails _ (record { auth_status = post_hello; data_bytes = d ++ xs; header = none })
        (try_parse_header decoders (d ++ xs))
        (try_parse_header-Fails _ (d ++ xs) (λ l e. bad_header refl l e))

  keep_message-Fails :
      (R : Type 0) (p : BepDataParser) (r : Outcome ParseError CompleteMessage)
      → Fails R r
      → Fails R (keep_message decoders p r)
  unfolding keep_message
  keep_message-Fails R p (ok m) f = tt
  keep_message-Fails R p (err ParseError.no_incoming_message_yet) f = tt
  keep_message-Fails R p (err ParseError.not_enough_header_len_data) f = tt
  keep_message-Fails R p (err ParseError.not_enough_header_data) f = tt
  keep_message-Fails R p (err ParseError.no_magic_hello) f = tt
  keep_message-Fails R p (err ParseError.generic) f = tt
  keep_message-Fails R p panic f = f
  keep_message-Fails R p diverge f = f

  decode-Fails :
      (R : Type 0) (im : IncomingMessage) (r : Outcome ParseError CompleteMessage)
      → decode decoders im ≡ r
      → (r ≡ panic → R)
      → Fails R r
  decode-Fails R im (ok m) e why = tt
  decode-Fails R im (err x) e why = tt
  decode-Fails R im panic e why = why refl
  decode-Fails R im diverge e why = decode-ne-diverge decoders im e

  complete-Fails :
      (R : Type 0) (p : BepDataParser) (im : IncomingMessage)
      → IsLoaded im
      → length im.data_bytes ≡ target im
      → (decode decoders im ≡ panic → R)
      → Fails R (take_complete decoders (record p { incoming_message = some im }))
  unfolding take_complete
  complete-Fails R p im l full why =
      let is_full : (length im.data_bytes == target im) ≡ true = (==_iff _ _).1 full in
      rw (status-IsLoaded {E = ParseError} im l, is_full)
        (keep_message-Fails R (record { bep_auth_status = post_hello; incoming_message = some im })
          (decode decoders im) (decode-Fails R im (decode decoders im) refl why))

  take_complete-Fails :
      (R : Type 0) (p : BepDataParser) (im : IncomingMessage)
      → IsLoaded im
      → (length im.data_bytes ≡ target im → decode decoders im ≡ panic → R)
      → Fails R (take_complete decoders (record p { incoming_message = some im }))
  take_complete-Fails R p im l why = elim (length-le-target im l) [
    | inl full ↦ complete-Fails R p im l full (why full)
    | inr less ↦ rw (take_complete_waiting decoders p im (l, less)) tt
  ]

  decode-Refused_at :
      (s : BepAuthStatus) (h : Option Header) (d : Bytes)
      → LoadedAt s h d
      → HeaderAt decoders h d
      → length d ≡ target_of s h d
      → decode decoders (record { auth_status = s; data_bytes = d; header = h }) ≡ panic
      → Refused s d
  decode-Refused_at pre_hello none d l r full e =
      let all : length d ≡ 6 + number_at 2 4 d = grind arith in
      bad_hello refl all (decode-panic_pre decoders none d (omega arith) e)
  decode-Refused_at pre_hello (some h) d l r full e = absurd l
  decode-Refused_at post_hello none d l r full e = absurd (omega arith)
  decode-Refused_at post_hello (some h) d l r full e =
      let all : length d ≡ header_end d + 4 + number_at 4 (header_end d) d = grind arith in
      bad_message refl h r all (decode-panic_post decoders h d (omega arith) e)

  decode-Refused :
      (im : IncomingMessage)
      → IsLoaded im
      → HasReadHeader decoders im
      → length im.data_bytes ≡ target im
      → decode decoders im ≡ panic
      → Refused im.auth_status im.data_bytes
  decode-Refused im l r full e = decode-Refused_at im.auth_status im.header im.data_bytes l r full e

  pub step-Fails :
      (p : BepDataParser) (xs : Bytes)
      → IsValid p
      → HasReadHeader decoders (current p)
      → length xs ≤ need p
      → Fails (Refused (current p).auth_status ((current p).data_bytes ++ xs)) (step decoders p xs)
  step-Fails p xs v r m =
      let im = current p in
      let w = current-IsWaiting p v in
      Fails->>= _ (add_data decoders im xs) _
        (add_data-Fails_at im.auth_status im.header im.data_bytes xs)
        (λ im' e.
          let (l, d, a) = add_data_full decoders im xs w (omega arith) e in
          let r' =
            add_data-HasReadHeader decoders im.auth_status im.header im.data_bytes xs im' w.0 r e in
          take_complete-Fails _ p im' l (λ full refused.
            subst (λ ys. Refused im.auth_status ys) d
              (subst (λ s. Refused s im'.data_bytes) a (decode-Refused im' l r' full refused))))
