-- ===== src/FileWriter/Steps.antt =====
-- Calls of `write_chunk` and `consolidate` of src/file_writer.rs side by side, on one writer. A step is what a
-- call does between two points where others may run; reading the flags is one, and so is taking a chunk over.
use grizol.Prelude.{
  ℕ, suc, ◌+◌, ◌*◌, ◌/◌, ◌≤◌, ◌<◌, ◌≡◌, Bool, true, false, ◌&&◌, ◌==◌, Option, none, some, List, [],
  ◌∷◌, length,
}
use grizol.Prelude.Keys.{nat_eq, Dict, lookup, insert, erase}
use grizol.Prelude.Outcome.{Outcome, ok}
use grizol.Prelude.Bytes.{Bytes}
use grizol.FileWriter.{
  writing_chunks, consolidating, IoError, other, FileWriter, refused, set_flag, write_at, all_idle,
}

-- Where a call stands, with what it still needs.
pub data Task : Type 0 where
  -- `write_chunk`: called, counted, with its flag, with an empty chunk file, with the bytes, without its flag
  called counted flagged opened : Bytes → ℕ → Task
  written : ℕ → Task
  leaving : Task
  -- `consolidate`: called, with the state, before a chunk, before it gives the state back
  merging locked : Task
  copying : ℕ → Task
  ending : Task
  ended : Option IoError → Task

abbrev pub Flags : FileWriter → ℕ → Bool → List Bool → Type 0
Flags w i b flags = ◌≡◌ {A = Outcome Unit (List Bool)} (set_flag i b w.writing_chunk) (ok flags)

-- A step of one call. A subtraction below zero at the end of `write_chunk` is no step.
pub data Move (w : FileWriter) : Task → FileWriter → Task → Type 0 where
  empty :
      {bytes : Bytes}
      → w.file_size ≡ 0
      → Move w (called bytes 0) (record w { chunks = insert 0 [] w.chunks }) (ended none)
  empty_fails :
      {bytes : Bytes} (e : IoError) → w.file_size ≡ 0 → Move w (called bytes 0) w (ended (some e))
  refuse :
      {bytes : Bytes} {offset : ℕ} {e : IoError}
      → (offset == 0) && (w.file_size == 0) ≡ false
      → refused w bytes offset ≡ some e
      → Move w (called bytes offset) w (ended (some e))
  busy :
      {bytes : Bytes} {offset : ℕ}
      → refused w bytes offset ≡ none
      → w.state ≡ consolidating
      → Move w (called bytes offset) w (ended (some other))
  enter :
      {bytes : Bytes} {offset x : ℕ}
      → refused w bytes offset ≡ none
      → w.state ≡ writing_chunks x
      → Move w
          (called bytes offset)
          (record w { state = writing_chunks (x + 1) })
          (counted bytes (offset / w.chunk_size))
  -- The result of `compare_exchange` is never `Ok(true)`.
  flag :
      {bytes : Bytes} {i : ℕ} {flags : List Bool}
      → Flags w i true flags
      → Move w (counted bytes i) (record w { writing_chunk = flags }) (flagged bytes i)
  create :
      {bytes : Bytes} {i : ℕ}
      → Move w (flagged bytes i) (record w { chunks = insert i [] w.chunks }) (opened bytes i)
  create_fails :
      {bytes : Bytes} {i : ℕ} {flags : List Bool} (e : IoError)
      → Flags w i false flags
      → Move w (flagged bytes i) (record w { writing_chunk = flags }) (ended (some e))
  write :
      {bytes : Bytes} {i : ℕ}
      → Move w (opened bytes i) (record w { chunks = insert i bytes w.chunks }) (written i)
  write_fails :
      {bytes : Bytes} {i : ℕ} (e : IoError) (left : Bytes)
      → Move w (opened bytes i) (record w { chunks = insert i left w.chunks }) (ended (some e))
  unflag :
      {i : ℕ} {flags : List Bool}
      → Flags w i false flags
      → Move w (written i) (record w { writing_chunk = flags }) leaving
  leave :
      {x : ℕ}
      → w.state ≡ writing_chunks (suc x)
      → Move w leaving (record w { state = writing_chunks x }) (ended none)
  lost : w.state ≡ consolidating → Move w leaving w (ended (some other))
  merge_refused : w.state ≡ consolidating → Move w merging w (ended (some other))
  merge_busy : {x : ℕ} → w.state ≡ writing_chunks (suc x) → Move w merging w (ended (some other))
  lock : w.state ≡ writing_chunks 0 → Move w merging (record w { state = consolidating }) locked
  skip : all_idle w.writing_chunk ≡ false → Move w locked w ending
  begin : all_idle w.writing_chunk ≡ true → Move w locked (record w { file = some [] }) (copying 0)
  begin_fails : (e : IoError) → all_idle w.writing_chunk ≡ true → Move w locked w (ended (some e))
  copy :
      {i : ℕ} {buf file : Bytes}
      → i < length w.writing_chunk
      → lookup i w.chunks ≡ some buf
      → w.file ≡ some file
      → Move w
          (copying i)
          (record w {
            chunks = erase i w.chunks;
            file = some (write_at (i * w.chunk_size) buf file);
          })
          (copying (suc i))
  -- The chunk files and the file are left in some state.
  copy_fails :
      {i : ℕ} (e : IoError) (chunks : Dict ℕ Bytes) (file : Option Bytes)
      → i < length w.writing_chunk
      → Move w (copying i) (record w { chunks = chunks; file = file }) (ended (some e))
  copied : {i : ℕ} → length w.writing_chunk ≤ i → Move w (copying i) w ending
  release : Move w ending (record w { state = writing_chunks 0 }) (ended none)

-- A step of one of the calls, or a new call.
pub data Step : FileWriter → List Task → FileWriter → List Task → Type 0 where
  here :
      {w w' : FileWriter} {t t' : Task} {ts : List Task}
      → Move w t w' t'
      → Step w (t ∷ ts) w' (t' ∷ ts)
  there :
      {w w' : FileWriter} {t : Task} {ts ts' : List Task}
      → Step w ts w' ts'
      → Step w (t ∷ ts) w' (t ∷ ts')
  call_write :
      {w : FileWriter} (bytes : Bytes) (offset : ℕ) → Step w [] w (called bytes offset ∷ [])
  call_consolidate : {w : FileWriter} → Step w [] w (merging ∷ [])

-- From a writer that is new.
pub data Reachable (start : FileWriter) : FileWriter → List Task → Type 0 where
  new : start.state ≡ writing_chunks 0 → Reachable start start []
  next :
      {w w' : FileWriter} {ts ts' : List Task}
      → Reachable start w ts
      → Step w ts w' ts'
      → Reachable start w' ts'

-- Between the counting and the end, and between taking the state and giving it back.
abbrev pub writes : Task → ℕ
writes (counted bytes i) = 1
writes (flagged bytes i) = 1
writes (opened bytes i) = 1
writes (written i) = 1
writes leaving = 1
writes other_task = 0

abbrev pub merges : Task → ℕ
merges locked = 1
merges (copying i) = 1
merges ending = 1
merges other_task = 0

abbrev pub sum_of : (Task → ℕ) → List Task → ℕ
sum_of f [] = 0
sum_of f (t ∷ ts) = f t + sum_of f ts

-- Whether a call of `write_chunk` is about to count itself out.
abbrev pub is_leaving : Task → Bool
is_leaving leaving = true
is_leaving other_task = false
