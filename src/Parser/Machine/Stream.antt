-- ===== src/Parser/Machine/Stream.antt =====
-- The parser against a reference that takes one byte at a time: how the bytes of a connection are
-- cut into reads makes no difference to the messages.
use grizol.Prelude.{
  ℕ, zero, suc, ◌≤◌, min, ◌≡◌, refl, ap, sym, ◌∙◌, List, [], ◌∷◌, ◌++◌, append-nil, append_assoc,
  length, length-take, length-drop, take, drop, take-append-drop, arith,
}
use grizol.Prelude.Outcome.{Outcome, ok, err, panic, diverge, ◌>>=◌, >>=_assoc, >>=_cong}
use grizol.Prelude.Bytes.{Bytes}
use grizol.Parser.Incoming.{Decoders, ParseError, add_data}
use grizol.Parser.Decode.{CompleteMessage}
use grizol.Parser.Machine.{BepDataParser, parse_loop, parse_incoming_data}
use grizol.Parser.Machine.Steps.{
  IsValid, need, current, current-IsWaiting, step, step_short, step_again, extended,
  extended-IsValid, need-extended, step-IsValid, populate_lem,
}

abbrev pub Parsed : Type 0
Parsed = Outcome ParseError (BepDataParser × List CompleteMessage)

-- The messages of a later part, behind those of an earlier one.
abbrev pub behind : List CompleteMessage → BepDataParser × List CompleteMessage → Parsed
behind ms (p, ns) = ok (p, ms ++ ns)

pub behind_none : (r : Parsed) → (r >>= behind []) ≡ r
behind_none (ok (p, ms)) = refl
behind_none (err e) = refl
behind_none panic = refl
behind_none diverge = refl

ends_there : (r : Parsed) → (r >>= λ x. ok (x.0, x.1 ++ [])) ≡ r
ends_there (ok (p, ms)) = rw (append-nil ms)
ends_there (err e) = refl
ends_there panic = refl
ends_there diverge = refl

behind-behind :
    (ms ns : List CompleteMessage) (r : Parsed)
    → (r >>= behind ns >>= behind ms) ≡ (r >>= behind (ms ++ ns))
behind-behind ms ns (ok (p, ks)) = rw (append_assoc ms ns ks)
behind-behind ms ns (err e) = refl
behind-behind ms ns panic = refl
behind-behind ms ns diverge = refl

module _ (decoders : Decoders) where
  -- The reference: every byte is a step of its own.
  unfoldable pub parse_bytes : BepDataParser → Bytes → Parsed
  parse_bytes p [] = ok (p, [])
  parse_bytes p (b ∷ bs) = step decoders p (b ∷ []) >>= λ x. parse_bytes x.0 bs >>= behind x.1

  -- `xs`, and then `ys` on the parser that `xs` left.
  abbrev pub then_bytes : Parsed → Bytes → Parsed
  then_bytes r ys = r >>= λ x. parse_bytes x.0 ys >>= behind x.1

  then_bytes-behind :
      (ms : List CompleteMessage) (r : Parsed) (ys : Bytes)
      → (then_bytes r ys >>= behind ms) ≡ then_bytes (r >>= behind ms) ys
  then_bytes-behind ms (ok (p, ns)) ys = behind-behind ms ns (parse_bytes p ys)
  then_bytes-behind ms (err e) ys = refl
  then_bytes-behind ms panic ys = refl
  then_bytes-behind ms diverge ys = refl

  pub parse_bytes-append :
      (xs ys : Bytes) (p : BepDataParser)
      → parse_bytes p (xs ++ ys) ≡ then_bytes (parse_bytes p xs) ys
  unfolding parse_bytes
  parse_bytes-append [] ys p = sym (behind_none (parse_bytes p ys))
  parse_bytes-append (b ∷ xs) ys p =
      >>=_cong m _ _ (λ x e.
        ap (λ r. r >>= behind x.1) (parse_bytes-append xs ys x.0)
        ∙ then_bytes-behind x.1 (parse_bytes x.0 xs) ys)
      ∙ sym (>>=_assoc m _ _)
    where
      m : Parsed
      m = step decoders p (b ∷ [])

  -- A run of at most the bytes needed is one step.
  parse_bytes-step :
      (b : ℕ) (xs : Bytes) (p : BepDataParser)
      → IsValid p
      → length (b ∷ xs) ≤ need p
      → parse_bytes p (b ∷ xs) ≡ step decoders p (b ∷ xs)
  unfolding parse_bytes
  parse_bytes-step b [] p v m = ends_there (step decoders p (b ∷ []))
  parse_bytes-step b (c ∷ xs) p v m =
      let one : List ℕ = b ∷ [] in
      rw (step_short decoders p one v (omega arith)) (
        behind_none (parse_bytes (extended decoders p one) (c ∷ xs))
        ∙ parse_bytes-step c xs (extended decoders p one)
            (extended-IsValid decoders p one v (omega arith) (omega arith))
            (omega (arith, need-extended decoders p one v (omega arith)))
        ∙ step_again decoders p one (c ∷ xs))

  pub parse_bytes_one_step :
      (xs : Bytes) (p : BepDataParser)
      → IsValid p
      → 1 ≤ length xs
      → length xs ≤ need p
      → parse_bytes p xs ≡ step decoders p xs
  parse_bytes_one_step [] p v b m = absurd (omega arith)
  parse_bytes_one_step (x ∷ xs) p v b m = parse_bytes-step x xs p v m

  -- A round on the first `n` bytes, and the reference on the rest.
  parse_bytes_cut :
      (n : ℕ) (buf : Bytes) (p : BepDataParser)
      → IsValid p
      → 1 ≤ length (take n buf)
      → length (take n buf) ≤ need p
      → parse_bytes p buf ≡ then_bytes (step decoders p (take n buf)) (drop n buf)
  parse_bytes_cut n buf p v b m =
      ap (parse_bytes p) (sym (take-append-drop n buf))
      ∙ parse_bytes-append (take n buf) (drop n buf) p
      ∙ ap (λ r. then_bytes r (drop n buf)) (parse_bytes_one_step (take n buf) p v b m)

  parse_loop_round :
      (fuel b n : ℕ) (bs : Bytes) (p : BepDataParser) (res : List CompleteMessage)
      → IsValid p
      → n ≡ min (length (b ∷ bs)) (need p)
      → parse_loop decoders (suc fuel) p (b ∷ bs) res ≡ (
          step decoders p (take n (b ∷ bs)) >>= λ x.
          parse_loop decoders fuel x.0 (drop n (b ∷ bs)) (res ++ x.1))
  unfolding parse_loop
  parse_loop_round fuel b n bs p res v e =
      rw (populate_lem decoders p (b ∷ bs) v (omega arith), ← e)
        (>>=_assoc (add_data decoders (current p) (take n (b ∷ bs))) _ _
          ∙ sym (>>=_assoc (add_data decoders (current p) (take n (b ∷ bs))) _ _))

  -- The loop is the reference, and the fuel suffices.
  parse_loop_lem :
      (fuel : ℕ) (buf : Bytes) (p : BepDataParser) (res : List CompleteMessage)
      → IsValid p
      → length buf ≤ fuel
      → parse_loop decoders fuel p buf res ≡ (parse_bytes p buf >>= behind res)
  parse_loop_lem fuel [] p res v h = unfold parse_loop parse_bytes in rw append-nil
  parse_loop_lem zero (b ∷ bs) p res v h = absurd (omega arith)
  parse_loop_lem (suc fuel) (b ∷ bs) p res v h =
      let n : ℕ = min (length (b ∷ bs)) (need p) in
      let waits = current-IsWaiting p v in
      let l = length-take n (b ∷ bs) in
      parse_loop_round fuel b n bs p res v refl
      ∙ >>=_cong (step decoders p (take n (b ∷ bs))) _ _ (λ x e.
        parse_loop_lem fuel (drop n (b ∷ bs)) x.0 (res ++ x.1)
          (step-IsValid decoders p x.0 (take n (b ∷ bs)) x.1 v (omega arith) (omega arith) e)
          (omega (arith, length-drop n (b ∷ bs)))
        ∙ sym (behind-behind res x.1 (parse_bytes x.0 (drop n (b ∷ bs)))))
      ∙ sym (>>=_assoc (step decoders p (take n (b ∷ bs))) _ _)
      ∙ ap (λ r. r >>= behind res)
          (sym (parse_bytes_cut n (b ∷ bs) p v (omega arith) (omega arith)))

  -- On a valid parser, parse_incoming_data gives what the reference parser gives that takes the
  -- bytes one at a time.
  pub parse_incoming_data-eq-parse_bytes :
      (p : BepDataParser) (buf : Bytes)
      → IsValid p
      → parse_incoming_data decoders p buf ≡ parse_bytes p buf
  unfolding parse_incoming_data
  parse_incoming_data-eq-parse_bytes p buf v =
      parse_loop_lem (length buf) buf p [] v (omega arith) ∙ behind_none (parse_bytes p buf)
