-- ===== src/FileWriter/Race.antt =====
-- Two calls of `write_chunk` of src/file_writer.rs for one chunk.
use grizol.Prelude.{
  ℕ, zero, suc, ◌+◌, ◌/◌, ◌≡◌, refl, sym, ap, ◌∙◌, Bool, true, none, List, [], ◌∷◌,
}
use grizol.Prelude.Keys.{nat_eq, insert}
use grizol.Prelude.Outcome.{Outcome, ok, >>=-ok, >>=-eq-ok}
use grizol.Prelude.Bytes.{Bytes}
use grizol.FileWriter.{writing_chunks, FileWriter, refused, set_flag}
use grizol.FileWriter.Steps.{
  counted, flagged, opened, Flags, enter, flag, create, here, there, call_write, Reachable, new,
  next,
}

cons_inj :
    {E : Type 0} (x : Bool) (xs ys : List Bool)
    → ◌≡◌ {A = Outcome E (List Bool)} (ok (x ∷ xs)) (ok ys)
    → ys ≡ x ∷ xs
cons_inj x xs ys e = cc

-- A flag that is set can be set again.
set_flag_again :
    {E : Type 0} (i : ℕ) (b : Bool) (flags flags' : List Bool)
    → ◌≡◌ {A = Outcome E (List Bool)} (set_flag i b flags) (ok flags')
    → ◌≡◌ {A = Outcome E (List Bool)} (set_flag i b flags') (ok flags')
set_flag_again i b [] flags' e = absurd (cc)
set_flag_again {E} zero b (x ∷ xs) flags' e =
    let same = cons_inj b xs flags' e in
    ap (λ ys. set_flag {E = E} zero b ys) same ∙ ap ok (sym same)
set_flag_again {E} (suc i) b (x ∷ xs) flags' e =
    let (ys, e₁, e₂) = >>=-eq-ok (set_flag {E = E} i b xs) (λ ys. ok (x ∷ ys)) e in
    let same = cons_inj x ys flags' e₂ in
    ap (λ ys. set_flag {E = E} (suc i) b ys) same
    ∙ >>=-ok (λ ys. ok (x ∷ ys)) (set_flag_again i b xs ys e₁) (ap ok (sym same))

-- On a new writer, for any two data that the guards accept at one offset whose position has a flag,
-- two calls of write_chunk reach a state in which both have the empty chunk file of that position
-- open, since the test of the flag never refuses the second one.
pub reachable-race :
    (start : FileWriter) (a b : Bytes) (offset : ℕ) (flags : List Bool)
    → start.state ≡ writing_chunks 0
    → refused start a offset ≡ none
    → refused start b offset ≡ none
    → Flags start (offset / start.chunk_size) true flags
    → (w : FileWriter) × Reachable start w
        (opened a (offset / start.chunk_size) ∷ opened b (offset / start.chunk_size) ∷ [])
unfolding refused
reachable-race start a b offset flags s accepted accepted_too set =
    let i = offset / start.chunk_size in
    let w₁ : FileWriter = record start { state = writing_chunks (0 + 1) } in
    let w₂ : FileWriter = record start { state = writing_chunks (0 + 1 + 1) } in
    let w₃ : FileWriter = record w₂ { writing_chunk = flags } in
    let w₄ : FileWriter = record w₃ { chunks = insert i [] start.chunks } in
    let again = set_flag_again {E = Unit} i true start.writing_chunk flags set in
    let first : Reachable start w₁ (counted a i ∷ []) =
      next (next (new s) (call_write a offset)) (here (enter accepted s)) in
    let both : Reachable start w₂ (counted a i ∷ counted b i ∷ []) =
      next (next first (there (call_write b offset))) (there (here (enter accepted_too refl))) in
    let flags_set : Reachable start w₃ (flagged a i ∷ flagged b i ∷ []) =
      next (next both (here (flag set))) (there (here (flag again))) in
    (
      record w₄ { chunks = insert i [] w₄.chunks },
      next (next flags_set (here create)) (there (here create)),
    )
