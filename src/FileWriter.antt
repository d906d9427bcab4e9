-- ===== src/FileWriter.antt =====
-- A file written in chunks, src/file_writer.rs, one call at a time. The chunk files are a map from
-- their positions, since a path and a suffix are fixed for a writer. What the operating system does
-- with a chunk is an argument.
pub mod Chunks
pub mod Steps
pub mod Excludes
pub mod Race
mod Tests
use grizol.Prelude.{
  ℕ, zero, suc, ◌+◌, ◌-◌, ◌*◌, ◌/◌, ◌%◌, Bool, true, false, not, ◌&&◌, ◌||◌, Option, none, some,
  List, [], ◌∷◌, ◌++◌, length, take, drop, ltb, leb, ◌==◌, if◌then◌else◌,
}
use grizol.Prelude.Keys.{nat_eq, Dict, lookup, insert, erase}
use grizol.Prelude.Outcome.{Outcome, ok, panic, ◌>>=◌, ◌>>◌, assert, unwrap}
use grizol.Prelude.Bytes.{Bytes}

pub data FileWriterState : Type 0 where
  writing_chunks : ℕ → FileWriterState
  consolidating : FileWriterState

pub data IoError : Type 0 where
  invalid_data already_exists other not_found : IoError

-- `chunks` and `file` are the chunk files and the file on disk.
pub record FileWriter : Type 0 where
  pub file_size : ℕ
  pub chunk_size : ℕ
  pub writing_chunk : List Bool
  pub state : FileWriterState
  pub chunks : Dict ℕ Bytes
  pub file : Option Bytes

-- How the opening and the writing of a chunk file end: a write that fails leaves some bytes.
pub data ChunkIo : Type 0 where
  works : ChunkIo
  open_fails : IoError → ChunkIo
  write_fails : IoError → Bytes → ChunkIo

abbrev pub repeat_false : ℕ → List Bool
repeat_false zero = []
repeat_false (suc n) = false ∷ repeat_false n

-- `FileWriter::new` on a directory with some chunk files and the file. A `chunk_size` of zero divides by zero.
unfoldable pub new_file_writer :
    {E : Type 0} → ℕ → ℕ → Dict ℕ Bytes → Option Bytes → Outcome E FileWriter
new_file_writer file_size chunk_size chunks file = do
  assert (leb 1 chunk_size)
  ok (record {
    file_size = file_size;
    chunk_size = chunk_size;
    writing_chunk = repeat_false ((file_size + chunk_size - 1) / chunk_size);
    state = writing_chunks 0;
    chunks = chunks;
    file = file;
  })

-- The guards of `write_chunk` on the offset and the length of `data` (here `bytes`).
unfoldable pub refused : FileWriter → Bytes → ℕ → Option IoError
refused w bytes offset =
    let last_offset = w.file_size / w.chunk_size * w.chunk_size in
    if not (offset % w.chunk_size == 0)
    then some invalid_data
    else if leb w.file_size offset
    then some invalid_data
    else if not (length bytes == w.chunk_size)
        && not (ltb (length bytes) w.chunk_size && offset == last_offset)
    then some invalid_data
    else none

-- The value of an index, which unwinds out of range.
abbrev pub set_flag : {E : Type 0} → ℕ → Bool → List Bool → Outcome E (List Bool)
set_flag i b [] = panic
set_flag zero b (x ∷ xs) = ok (b ∷ xs)
set_flag (suc i) b (x ∷ xs) = set_flag i b xs >>= λ ys. ok (x ∷ ys)

-- `none` is `Ok(())`.
abbrev pub Written : Type 0 → Type 0
Written E = Outcome E (Option IoError × FileWriter)

-- The count of writers goes down at the end.
finish : {E : Type 0} → FileWriterState → FileWriter → Written E
finish (writing_chunks x) w =
    if leb 1 x then ok (none, record w { state = writing_chunks (x - 1) }) else panic
finish consolidating w = ok (some other, w)

write_open : {E : Type 0} → ChunkIo → Bytes → ℕ → FileWriter → Written E
write_open works bytes chunk_pos w = do
  flags ← set_flag chunk_pos false w.writing_chunk
  finish w.state (record w { writing_chunk = flags; chunks = insert chunk_pos bytes w.chunks })
write_open (open_fails e) bytes chunk_pos w = do
  flags ← set_flag chunk_pos false w.writing_chunk
  ok (some e, record w { writing_chunk = flags })
write_open (write_fails e left) bytes chunk_pos w =
    ok (some e, record w { chunks = insert chunk_pos left w.chunks })

-- `compare_exchange` sets the flag. The pattern `Ok(true)` on its result never matches.
write_counted : {E : Type 0} → ChunkIo → FileWriterState → Bytes → ℕ → FileWriter → Written E
write_counted io consolidating bytes offset w = ok (some other, w)
write_counted io (writing_chunks x) bytes offset w = do
  let chunk_pos = offset / w.chunk_size
  flags ← set_flag chunk_pos true w.writing_chunk
  write_open io bytes chunk_pos (record w { state = writing_chunks (x + 1); writing_chunk = flags })

write_checked : {E : Type 0} → Option IoError → ChunkIo → Bytes → ℕ → FileWriter → Written E
write_checked (some e) io bytes offset w = ok (some e, w)
write_checked none io bytes offset w = write_counted io w.state bytes offset w

-- A file of size zero gets one empty chunk file.
write_empty : {E : Type 0} → ChunkIo → FileWriter → Written E
write_empty works w = ok (none, record w { chunks = insert 0 [] w.chunks })
write_empty (open_fails e) w = ok (some e, w)
write_empty (write_fails e left) w = ok (none, record w { chunks = insert 0 [] w.chunks })

unfoldable pub write_chunk : {E : Type 0} → ChunkIo → Bytes → ℕ → FileWriter → Written E
unfolding write_empty write_checked write_counted write_open finish
write_chunk io bytes offset w =
    if offset == 0 && w.file_size == 0
    then write_empty io w
    else (assert (leb 1 w.chunk_size) >> write_checked (refused w bytes offset) io bytes offset w)

abbrev pub zeros : ℕ → Bytes
zeros zero = []
zeros (suc n) = 0 ∷ zeros n

-- `seek` to a position and `write_all`; a gap is filled with zeros.
abbrev pub write_at : ℕ → Bytes → Bytes → Bytes
write_at pos buf file =
    take pos (file ++ zeros (pos - length file)) ++ (buf ++ drop (pos + length buf) file)

-- What `consolidate` has come to: an error, the chunk files that are left, and the file.
abbrev pub Progress : Type 0
Progress = Option IoError × (Dict ℕ Bytes × Bytes)

-- A missing chunk file ends the loop.
abbrev pub or_missing : Option Bytes → Dict ℕ Bytes → Bytes → (Bytes → Progress) → Progress
or_missing none chunks file next = (some not_found, (chunks, file))
or_missing (some buf) chunks file next = next buf

-- The loop of `consolidate` over the positions from `i` on.
unfoldable pub consolidate_loop : ℕ → ℕ → ℕ → Dict ℕ Bytes → Bytes → Progress
consolidate_loop zero i chunk_size chunks file = (none, (chunks, file))
consolidate_loop (suc rounds) i chunk_size chunks file =
    or_missing (lookup i chunks) chunks file (λ buf.
      consolidate_loop rounds (i + 1) chunk_size (erase i chunks)
        (write_at (i * chunk_size) buf file))

abbrev pub all_idle : List Bool → Bool
all_idle [] = true
all_idle (b ∷ bs) = not b && all_idle bs

-- An error of the loop leaves the writer consolidating.
consolidated : {E : Type 0} → Progress → FileWriter → Written E
consolidated (none, (chunks, file)) w =
    ok (none, record w { chunks = chunks; file = some file; state = writing_chunks 0 })
consolidated (some e, (chunks, file)) w =
    ok (some e, record w { chunks = chunks; file = some file; state = consolidating })

consolidate_at : {E : Type 0} → FileWriterState → FileWriter → Written E
consolidate_at consolidating w = ok (some other, w)
consolidate_at (writing_chunks (suc x)) w = ok (some other, w)
consolidate_at (writing_chunks zero) w =
    if all_idle w.writing_chunk
    then consolidated (consolidate_loop (length w.writing_chunk) 0 w.chunk_size w.chunks []) w
    else ok (none, w)

unfoldable pub consolidate : {E : Type 0} → FileWriter → Written E
unfolding consolidate_at consolidated
consolidate w = consolidate_at w.state w
