-- ===== src/FileWriter/Tests.antt =====
-- A file of five bytes in chunks of two, and an instance of each theorem on it.
use grizol.Prelude.{ℕ, zero, suc, ◌/◌, ◌<◌, ◌≡◌, ◌⊎◌, refl, true, false, none, some, [], ◌∷◌, arith}
use grizol.Prelude.Keys.{nat_eq, Dict, lookup}
use grizol.Prelude.Outcome.{ok}
use grizol.Prelude.Bytes.{Bytes}
use grizol.FileWriter.{
  FileWriter, writing_chunks, open_fails, other, new_file_writer, refused, write_chunk, consolidate,
}
use grizol.FileWriter.Chunks.{chunk_of, after_failure, consolidate-content, write_chunk-open_fails}
use grizol.FileWriter.Steps.{
  opened, counted, enter, merge_busy, here, there, call_write, call_consolidate, Reachable, new,
  next, ended, merges, writes, sum_of, is_leaving,
}
use grizol.FileWriter.Excludes.{reachable-Excludes}
use grizol.FileWriter.Race.{reachable-race}
use grizol.State.Tables.{any}

abbrev content : Bytes
content = 1 ∷ 2 ∷ 3 ∷ 4 ∷ 5 ∷ []

abbrev fresh : FileWriter
fresh = record {
  file_size = 5;
  chunk_size = 2;
  writing_chunk = false ∷ false ∷ false ∷ [];
  state = writing_chunks 0;
  chunks = [];
  file = none;
}

is_fresh : new_file_writer {E = ℕ} 5 2 [] none ≡ ok fresh
unfolding new_file_writer
is_fresh = refl

abbrev written : FileWriter
written = record fresh { chunks = (2, 5 ∷ []) ∷ (0, 1 ∷ 2 ∷ []) ∷ (1, 3 ∷ 4 ∷ []) ∷ [] }

written-chunks : (j : ℕ) → j < 3 → lookup j written.chunks ≡ some (chunk_of 2 j content)
written-chunks zero h = refl
written-chunks (suc zero) h = refl
written-chunks (suc (suc zero)) h = refl
written-chunks (suc (suc (suc j))) h = absurd (omega arith)

consolidate-content_example :
    (m : Dict ℕ Bytes) × (consolidate {E = ℕ} written
      ≡ ok (none, record written { chunks = m; file = some content }))
consolidate-content_example =
    consolidate-content written content refl refl (omega arith) (omega arith) written-chunks

write_chunk-open_fails_example :
    (write_chunk {E = ℕ} (open_fails other) (5 ∷ []) 4 fresh
      ≡ ok (some other, after_failure 0 fresh))
    × (consolidate {E = ℕ} (after_failure 0 fresh) ≡ ok (some other, after_failure 0 fresh))
unfolding refused
write_chunk-open_fails_example =
    write_chunk-open_fails (5 ∷ []) 4 0 other fresh (omega arith) refl refl (omega arith) refl

-- A call that writes, and one that consolidates and is refused.
abbrev one_writer : FileWriter
one_writer = record fresh { state = writing_chunks 1 }

one_writer-Reachable : Reachable fresh one_writer (counted (5 ∷ []) 2 ∷ ended (some other) ∷ [])
unfolding refused
one_writer-Reachable =
    next
      (next (next (next (new refl) (call_write (5 ∷ []) 4)) (here (enter {offset = 4} refl refl)))
        (there call_consolidate))
      (there (here (merge_busy refl)))

reachable-Excludes_example :
    ((sum_of merges (counted (5 ∷ []) 2 ∷ ended (some other) ∷ []) ≡ 0)
      ⊎ ((sum_of merges (counted (5 ∷ []) 2 ∷ ended (some other) ∷ []) ≡ 1)
          × (sum_of writes (counted (5 ∷ []) 2 ∷ ended (some other) ∷ []) ≡ 0)))
    × ((any is_leaving (counted (5 ∷ []) 2 ∷ ended (some other) ∷ []) ≡ false)
        ⊎ ((x : ℕ) × (one_writer.state ≡ writing_chunks (suc x))))
reachable-Excludes_example =
    reachable-Excludes fresh one_writer (counted (5 ∷ []) 2 ∷ ended (some other) ∷ [])
      one_writer-Reachable

reachable-race_example :
    (w : FileWriter) × Reachable fresh w (opened (5 ∷ []) (4 / 2) ∷ opened (5 ∷ []) (4 / 2) ∷ [])
unfolding refused
reachable-race_example =
    reachable-race fresh (5 ∷ []) (5 ∷ []) 4 (false ∷ false ∷ true ∷ []) refl refl refl refl
