-- ===== src/State/Numbers.antt =====
-- The sequence numbers that src/core/bep_state.rs gives to files: each is one more than the number that was
-- given last, or than the largest one in the database.
use grizol.Prelude.{
  ℕ, suc, ◌^◌, ◌≡◌, refl, sym, ap, subst, ◌∙◌, Bool, true, false, Option, none, some, List, [], ◌∷◌,
  length, if◌then◌else◌, arith, All,
}
use grizol.Prelude.Int.{ℤ, pos, ltb_ℤ, ◌+ℤ◌, +ℤ_parts, eq_of_parts}
use grizol.Prelude.Keys.{int_eq, Dict, insert}
use grizol.Prelude.Outcome.{Outcome, ok, ◌>>=◌}
use grizol.Proto.{FileInfo}
use grizol.State.{BepState, or_else, sequence_after, next_sequence_id, number_files, not_deleted}
use grizol.State.Tables.{
  FileKey, file_key_eq, FileColumns, filter, sequence_taken, max_from, max_sequence,
}

abbrev pub first_after : Option ℤ → ℤ
first_after none = pos 1
first_after (some m) = m +ℤ pos 1

-- The number that the next file gets.
abbrev pub first_number : BepState → ℤ
first_number s = first_after (or_else s.sequence (max_sequence s.db.files))

-- The files with the numbers from `n` on.
abbrev pub numbered : ℤ → List FileInfo → List FileInfo
numbered n [] = []
numbered n (f ∷ fs) = record f { sequence = n } ∷ numbered (n +ℤ pos 1) fs

-- What is kept of the number that was given last.
abbrev pub after_files : List FileInfo → Option ℤ → Option ℤ → Option ℤ
after_files [] o m = o
after_files (f ∷ fs) o m = after_files fs (some (first_after (or_else o m))) m

abbrev pub after_numbers : List FileInfo → BepState → BepState
after_numbers fs s = record s { sequence = after_files fs s.sequence (max_sequence s.db.files) }

-- The numbers of the rows are smaller than `n`.
abbrev pub AreBelow : ℤ → Dict FileKey FileColumns → Type 0
AreBelow n rows = All (λ (row : FileKey × FileColumns). ltb_ℤ row.1.sequence n ≡ true) rows

-- The numbers in the database are smaller than the next one.
abbrev pub IsNumbered : BepState → Type 0
IsNumbered s = AreBelow (first_number s) s.db.files

-- Starting from `n`, the numbers increase, and stay below `m`.
abbrev pub Ascends : ℤ → ℤ → List FileInfo → Type 0
Ascends n m [] = ltb_ℤ m n ≡ false
Ascends n m (f ∷ fs) = (ltb_ℤ f.sequence n ≡ false) × Ascends (f.sequence +ℤ pos 1) m fs

pub suc_add : (n : ℤ) (k : ℕ) → n +ℤ pos 1 +ℤ pos k ≡ n +ℤ pos (suc k)
suc_add n k =
    eq_of_parts (n +ℤ pos 1 +ℤ pos k) (n +ℤ pos (suc k))
      (ground (arith, +ℤ_parts (n +ℤ pos 1) (pos k), +ℤ_parts n (pos 1), +ℤ_parts n (pos (suc k))))

add_zero : (n : ℤ) → n +ℤ pos 0 ≡ n
add_zero n = eq_of_parts (n +ℤ pos 0) n (ground (arith, +ℤ_parts n (pos 0)))

sequence_after-in_range :
    {E : Type 0} (o : Option ℤ)
    → ltb_ℤ (first_after o) (pos (2 ^ 63)) ≡ true
    → ◌≡◌ {A = Outcome E ℤ} (sequence_after o) (ok (first_after o))
sequence_after-in_range none h = refl
sequence_after-in_range (some m) h = rw h refl

pub AreBelow_mono :
    (n m : ℤ) (rows : Dict FileKey FileColumns)
    → ltb_ℤ m n ≡ false
    → AreBelow n rows
    → AreBelow m rows
AreBelow_mono n m [] h b = tt
AreBelow_mono n m ((k, r) ∷ rows) h (b, below) = (ground arith, AreBelow_mono n m rows h below)

max_from_ge : (n : ℤ) (rows : Dict FileKey FileColumns) → ltb_ℤ (max_from n rows) n ≡ false
max_from_ge n [] = ground arith
max_from_ge n ((k, r) ∷ rows) =
    ground (arith, max_from_ge (if ltb_ℤ n r.sequence then r.sequence else n) rows)

pub below_succ : (n m : ℤ) → ltb_ℤ m n ≡ false → ltb_ℤ n (m +ℤ pos 1) ≡ true
below_succ n m h = ground (arith, +ℤ_parts m (pos 1))

max_from-AreBelow :
    (n : ℤ) (rows : Dict FileKey FileColumns) → AreBelow (max_from n rows +ℤ pos 1) rows
max_from-AreBelow n [] = tt
max_from-AreBelow n ((k, r) ∷ rows) =
    let m = if ltb_ℤ n r.sequence then r.sequence else n in
    (
      below_succ r.sequence (max_from m rows) (ground (arith, max_from_ge m rows)),
      max_from-AreBelow m rows,
    )

max_AreBelow : (rows : Dict FileKey FileColumns) → AreBelow (first_after (max_sequence rows)) rows
max_AreBelow [] = tt
max_AreBelow ((k, r) ∷ rows) = (
  below_succ r.sequence (max_from r.sequence rows) (max_from_ge r.sequence rows),
  max_from-AreBelow r.sequence rows,
)

-- A state that has not given a number yet.
pub fresh-IsNumbered : (s : BepState) → s.sequence ≡ none → IsNumbered s
fresh-IsNumbered s e =
    subst (λ o. AreBelow (first_after (or_else o (max_sequence s.db.files))) s.db.files) (sym e)
      (max_AreBelow s.db.files)

pub number_files-numbered :
    {E : Type 0} (fs : List FileInfo) (s : BepState)
    → ltb_ℤ (first_number s +ℤ pos (length fs)) (pos (2 ^ 63)) ≡ true
    → ◌≡◌ {A = Outcome E (List FileInfo × BepState)}
        (number_files fs s)
        (ok (numbered (first_number s) fs, after_numbers fs s))
unfolding number_files next_sequence_id
number_files-numbered [] s h = refl
number_files-numbered {E} (f ∷ fs) s h =
    let n = first_number s in
    let s₁ : BepState = record s { sequence = some n } in
    let small : ltb_ℤ n (pos (2 ^ 63)) ≡ true =
      ground (arith, +ℤ_parts n (pos (suc (length fs)))) in
    rw (sequence_after-in_range (or_else s.sequence (max_sequence s.db.files)) small) (
      ap
        (λ (call : Outcome E (List FileInfo × BepState)).
          call >>= λ x. ok (record f { sequence = n } ∷ x.0, x.1))
        (number_files-numbered fs s₁
          (ap (λ m. ltb_ℤ m (pos (2 ^ 63))) (suc_add n (length fs)) ∙ h)))

-- The next number is larger by the number of files.
pub first_number-after_numbers :
    (fs : List FileInfo) (s : BepState)
    → first_number (after_numbers fs s) ≡ first_number s +ℤ pos (length fs)
first_number-after_numbers [] s = sym (add_zero (first_number s))
first_number-after_numbers (f ∷ fs) s =
    first_number-after_numbers fs (record s { sequence = some (first_number s) })
    ∙ suc_add (first_number s) (length fs)

pub Ascends_mono :
    (n n' m : ℤ) (fs : List FileInfo) → ltb_ℤ n' n ≡ false → Ascends n' m fs → Ascends n m fs
Ascends_mono n n' m [] h a = ground arith
Ascends_mono n n' m (f ∷ fs) h (a, rest) = (ground arith, rest)

keep :
    (b : Bool) (n m : ℤ) (f : FileInfo) (fs : List FileInfo)
    → ltb_ℤ f.sequence n ≡ false
    → Ascends (f.sequence +ℤ pos 1) m fs
    → Ascends n m (if b then f ∷ fs else fs)
keep true n m f fs a rest = (a, rest)
keep false n m f fs a rest =
    Ascends_mono n (f.sequence +ℤ pos 1) m fs (ground (arith, +ℤ_parts f.sequence (pos 1))) rest

pub filter-Ascends :
    (n m : ℤ) (fs : List FileInfo) → Ascends n m fs → Ascends n m (filter not_deleted fs)
filter-Ascends n m [] a = a
filter-Ascends n m (f ∷ fs) (a, rest) =
    keep (not_deleted f) n m f (filter not_deleted fs) a
      (filter-Ascends (f.sequence +ℤ pos 1) m fs rest)

pub numbered-Ascends :
    (n : ℤ) (fs : List FileInfo) → Ascends n (n +ℤ pos (length fs)) (numbered n fs)
numbered-Ascends n [] = ground (arith, +ℤ_parts n (pos 0))
numbered-Ascends n (f ∷ fs) = (
  ground arith,
  subst (λ m. Ascends (n +ℤ pos 1) m (numbered (n +ℤ pos 1) fs)) (suc_add n (length fs))
      (numbered-Ascends (n +ℤ pos 1) fs),
)

placed :
    (b : Bool) (n : ℤ) (k j : FileKey) (r q : FileColumns) (rows : Dict FileKey FileColumns)
    → ltb_ℤ r.sequence n ≡ true
    → ltb_ℤ q.sequence n ≡ true
    → AreBelow n rows
    → AreBelow n (insert k r rows)
    → AreBelow n (if b then (k, r) ∷ rows else (j, q) ∷ insert k r rows)
placed true n k j r q rows h g below ih = (h, below)
placed false n k j r q rows h g below ih = (g, ih)

-- The numbers of the rows once a file of the next number is inserted.
pub AreBelow-insert :
    (n : ℤ) (k : FileKey) (r : FileColumns) (rows : Dict FileKey FileColumns)
    → ltb_ℤ r.sequence n ≡ true
    → AreBelow n rows
    → AreBelow n (insert k r rows)
AreBelow-insert n k r [] h b = (h, tt)
AreBelow-insert n k r ((j, q) ∷ rows) h (b, below) =
    placed (file_key_eq.beq j k) n k j r q rows h b below (AreBelow-insert n k r rows h below)

kept :
    (b : Bool) (n : ℤ) (row : FileKey × FileColumns) (rows : Dict FileKey FileColumns)
    → ltb_ℤ row.1.sequence n ≡ true
    → AreBelow n rows
    → AreBelow n (if b then row ∷ rows else rows)
kept true n row rows h below = (h, below)
kept false n row rows h below = below

pub AreBelow-filter :
    (n : ℤ) (p : FileKey × FileColumns → Bool) (rows : Dict FileKey FileColumns)
    → AreBelow n rows
    → AreBelow n (filter p rows)
AreBelow-filter n p [] b = tt
AreBelow-filter n p (row ∷ rows) (b, below) =
    kept (p row) n row (filter p rows) b (AreBelow-filter n p rows below)

-- A number that is larger than those of the rows is free.
pub sequence_taken-AreBelow :
    (k : FileKey) (n : ℤ) (rows : Dict FileKey FileColumns)
    → AreBelow n rows
    → sequence_taken k n rows ≡ false
sequence_taken-AreBelow k n [] b = refl
sequence_taken-AreBelow k n ((j, r) ∷ rows) (b, below) =
    ground (arith, sequence_taken-AreBelow k n rows below)

-- Whether a number was given already does not depend on the tables.
pub AreBelow-IsNumbered :
    (s : BepState) (o m : Option ℤ)
    → s.sequence ≡ o
    → AreBelow (first_after (or_else o m)) s.db.files
    → IsNumbered s
AreBelow-IsNumbered s none m e below = fresh-IsNumbered s e
AreBelow-IsNumbered s (some x) m e below =
    subst (λ o. AreBelow (first_after (or_else o (max_sequence s.db.files))) s.db.files) (sym e)
      below
