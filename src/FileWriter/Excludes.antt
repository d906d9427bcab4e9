-- ===== src/FileWriter/Excludes.antt =====
-- `write_chunk` and `consolidate` of src/file_writer.rs do not run at the same time.
use grizol.Prelude.{
  ℕ, zero, suc, ◌+◌, ◌≤◌, ◌≡◌, refl, ◌⊎◌, inl, inr, sym, subst, Bool-cases, Bool, true, false, List,
  [], ◌∷◌, arith,
}
use grizol.Prelude.Keys.{nat_eq}
use grizol.State.Tables.{any}
use grizol.FileWriter.{FileWriterState, writing_chunks, consolidating, FileWriter}
use grizol.FileWriter.Steps.{
  Task, called, counted, flagged, opened, written, leaving, merging, locked, copying, ending, ended,
  Move, empty, empty_fails, refuse, busy, enter, flag, create, create_fails, write, write_fails,
  unflag, leave, lost, merge_refused, merge_busy, lock, skip, begin, begin_fails, copy, copy_fails,
  copied, release, Step, here, there, call_write, call_consolidate, Reachable, new, next, writes,
  merges, sum_of, is_leaving,
}

-- What the state says of how many calls write and consolidate.
abbrev Counts : FileWriterState → ℕ → ℕ → Type 0
Counts (writing_chunks x) writers mergers = (writers ≤ x) × (mergers ≡ 0)
Counts consolidating writers mergers = (writers ≡ 0) × (mergers ≤ 1)

transport-Counts :
    (s : FileWriterState) (a a' b b' : ℕ) → a ≡ a' → b ≡ b' → Counts s a b → Counts s a' b'
transport-Counts (writing_chunks x) a a' b b' p q c = omega arith
transport-Counts consolidating a a' b b' p q c = omega arith

fewer_writers : (s : FileWriterState) (a b : ℕ) → Counts s (a + 1) b → Counts s (a + 0) b
fewer_writers (writing_chunks x) a b c = omega arith
fewer_writers consolidating a b c = omega arith

fewer_mergers : (s : FileWriterState) (a b : ℕ) → Counts s a (b + 1) → Counts s a (b + 0)
fewer_mergers (writing_chunks x) a b c = omega arith
fewer_mergers consolidating a b c = omega arith

last_merger : (s : FileWriterState) (a b : ℕ) → Counts s a (b + 1) → (a ≤ 0) × (b + 0 ≡ 0)
last_merger (writing_chunks x) a b c = absurd (omega arith)
last_merger consolidating a b c = omega arith

Move-Counts :
    {w w' : FileWriter} {t t' : Task} (a b : ℕ)
    → Move w t w' t'
    → Counts w.state (a + writes t) (b + merges t)
    → Counts w'.state (a + writes t') (b + merges t')
Move-Counts a b (empty z) c = c
Move-Counts a b (empty_fails e z) c = c
Move-Counts a b (refuse n e) c = c
Move-Counts a b (busy e s) c = c
Move-Counts {w} a b (enter {x = x} e s) c =
    let c' = subst (λ s. Counts s (a + 0) (b + 0)) s c in omega arith
Move-Counts a b (flag f) c = c
Move-Counts a b create c = c
Move-Counts {w} a b (create_fails e f) c = fewer_writers w.state a (b + 0) c
Move-Counts a b write c = c
Move-Counts {w} a b (write_fails e left) c = fewer_writers w.state a (b + 0) c
Move-Counts a b (unflag f) c = c
Move-Counts a b (leave {x = x} s) c =
    let c' = subst (λ s. Counts s (a + 1) (b + 0)) s c in omega arith
Move-Counts {w} a b (lost s) c = fewer_writers w.state a (b + 0) c
Move-Counts a b (merge_refused s) c = c
Move-Counts a b (merge_busy s) c = c
Move-Counts a b (lock s) c = let c' = subst (λ s. Counts s (a + 0) (b + 0)) s c in omega arith
Move-Counts a b (skip i) c = c
Move-Counts a b (begin i) c = c
Move-Counts {w} a b (begin_fails e i) c = fewer_mergers w.state (a + 0) b c
Move-Counts a b (copy l f g) c = c
Move-Counts {w} a b (copy_fails e chunks file l) c = fewer_mergers w.state (a + 0) b c
Move-Counts a b (copied l) c = c
Move-Counts {w} a b release c = last_merger w.state (a + 0) b c

Step-Counts :
    {w w' : FileWriter} {ts ts' : List Task} (a b : ℕ)
    → Step w ts w' ts'
    → Counts w.state (a + sum_of writes ts) (b + sum_of merges ts)
    → Counts w'.state (a + sum_of writes ts') (b + sum_of merges ts')
Step-Counts a b (here {w = w} {w' = w'} {t = t} {t' = t'} {ts = ts} m) c =
    let others = sum_of writes ts in
    let other_mergers = sum_of merges ts in
    transport-Counts w'.state (a + others + writes t') _ (b + other_mergers + merges t') _
      (omega arith) (omega arith)
      (Move-Counts (a + others) (b + other_mergers) m (
        transport-Counts w.state (a + (writes t + others)) _ (b + (merges t + other_mergers)) _
          (omega arith) (omega arith) c))
Step-Counts a b (there {w = w} {w' = w'} {t = t} {ts = ts} {ts' = ts'} st) c =
    transport-Counts w'.state (a + writes t + sum_of writes ts') _
      (b + merges t + sum_of merges ts') _ (omega arith) (omega arith)
      (Step-Counts (a + writes t) (b + merges t) st (
        transport-Counts w.state (a + (writes t + sum_of writes ts)) _
          (b + (merges t + sum_of merges ts)) _ (omega arith) (omega arith) c))
Step-Counts a b (call_write bytes offset) c = c
Step-Counts a b call_consolidate c = c

Reachable-Counts :
    {start w : FileWriter} {ts : List Task}
    → Reachable start w ts
    → Counts w.state (0 + sum_of writes ts) (0 + sum_of merges ts)
Reachable-Counts {start} (new e) = subst (λ s. Counts s 0 0) (sym e) (omega arith)
Reachable-Counts (next r st) = Step-Counts 0 0 st (Reachable-Counts r)

leaving_writes : (t : Task) → is_leaving t ≡ true → writes t ≡ 1
leaving_writes leaving e = refl
leaving_writes (called bytes i) e = absurd (cc)
leaving_writes (counted bytes i) e = refl
leaving_writes (flagged bytes i) e = refl
leaving_writes (opened bytes i) e = refl
leaving_writes (written i) e = refl
leaving_writes merging e = absurd (cc)
leaving_writes locked e = absurd (cc)
leaving_writes (copying i) e = absurd (cc)
leaving_writes ending e = absurd (cc)
leaving_writes (ended r) e = absurd (cc)

any_leaving : (ts : List Task) → (any is_leaving ts ≡ false) ⊎ (1 ≤ sum_of writes ts)
any_leaving [] = inl refl
any_leaving (t ∷ ts) = elim (Bool-cases (is_leaving t)) [
  | inl e ↦ inr (omega (arith, leaving_writes t e))
  | inr e ↦ elim (any_leaving ts) [
    | inl none_left ↦ inl (ground (arith, e, none_left))
    | inr some_left ↦ inr (omega arith)
  ]
]

counted_in :
    (s : FileWriterState) (writers mergers : ℕ) (b : Bool)
    → Counts s writers mergers
    → (b ≡ false) ⊎ (1 ≤ writers)
    → ((mergers ≡ 0) ⊎ ((mergers ≡ 1) × (writers ≡ 0)))
      × ((b ≡ false) ⊎ ((x : ℕ) × (s ≡ writing_chunks (suc x))))
counted_in (writing_chunks x) writers mergers b c (inl none_left) = (inl c.1, inl none_left)
counted_in (writing_chunks zero) writers mergers b c (inr h) = absurd (omega arith)
counted_in (writing_chunks (suc x)) writers mergers b c (inr h) = (inl c.1, inr (x, refl))
counted_in consolidating writers zero b c (inl none_left) = (inl refl, inl none_left)
counted_in consolidating writers (suc m) b c (inl none_left) =
    (inr (omega arith, c.0), inl none_left)
counted_in consolidating writers mergers b c (inr h) = absurd (omega arith)

-- In every state that steps of calls of write_chunk and consolidate reach, side by side in any
-- number, from a new writer, with failures of the files among them, at most one call of consolidate
-- is between taking the state and giving it back, and then no call of write_chunk is between its
-- counting and its end; and where a call of write_chunk is about to count itself out, the state
-- counts one writer at least, so that the subtraction does not go below zero and the error of the
-- last test is not returned.
pub reachable-Excludes :
    (start w : FileWriter) (ts : List Task)
    → Reachable start w ts
    → ((sum_of merges ts ≡ 0) ⊎ ((sum_of merges ts ≡ 1) × (sum_of writes ts ≡ 0)))
      × ((any is_leaving ts ≡ false) ⊎ ((x : ℕ) × (w.state ≡ writing_chunks (suc x))))
reachable-Excludes start w ts r =
    counted_in w.state (sum_of writes ts) (sum_of merges ts) (any is_leaving ts)
      (transport-Counts w.state (0 + sum_of writes ts) _ (0 + sum_of merges ts) _ (omega arith)
        (omega arith) (Reachable-Counts r))
      (any_leaving ts)
