-- ===== src/Storage/Tests.antt =====
-- A file of five bytes in blocks of two, which arrive from the last to the second.
use grizol.Prelude.{
  ℕ, zero, suc, min, ◌<◌, ◌≡◌, ◌==◌, if◌then◌else◌, refl, Option, true, false, none, some, [], ◌∷◌,
  arith,
}
use grizol.Prelude.Int.{pos}
use grizol.Prelude.Keys.{nat_eq, bytes_eq, Dict, lookup}
use grizol.Prelude.Outcome.{Outcome, ok}
use grizol.Prelude.Bytes.{Bytes}
use grizol.Proto.{Request}
use grizol.Requests.{contains}
use grizol.FileWriter.{IoError}
use grizol.Storage.{StorageManager, Directory, file_rel_path, conclude_block_storage}
use grizol.Storage.Blocks.{store_blocks, writer_with, store_blocks-conclude}
use grizol.Storage.Reading.{Reads, EndsWell, read_cached, read_cached-full, read_cached-short}

abbrev content : Bytes
content = 1 ∷ 2 ∷ 3 ∷ 4 ∷ 5 ∷ []

abbrev a_request : Request
a_request = record {
  id = pos 1;
  folder = 102 ∷ [];
  name = 97 ∷ [];
  offset = pos 0;
  size = pos 2;
  hash = [];
  from_temporary = false;
}

abbrev nothing : Directory
nothing path = ([], none)

abbrev no_writers : StorageManager
no_writers = record { local_base_dir = 100 ∷ []; file_writers = [] }

covers : (j : ℕ) → j < 3 → contains j (2 ∷ 0 ∷ 1 ∷ []) ≡ true
unfolding contains
covers zero h = refl
covers (suc zero) h = refl
covers (suc (suc zero)) h = refl
covers (suc (suc (suc j))) h = absurd (omega arith)

store_blocks-conclude_example :
    (s' : StorageManager) × (s'' : StorageManager) × (m : Dict ℕ Bytes) × (store_blocks nothing
        content a_request 2
        (2 ∷ 0 ∷ 1 ∷ [])
        no_writers
      ≡ ok s')
    × (◌≡◌ {A = Outcome IoError (Option IoError × StorageManager)}
        (conclude_block_storage nothing a_request 5 2 s')
        (ok (none, s'')))
    × (lookup (file_rel_path a_request) s''.file_writers
        ≡ some (writer_with nothing content a_request 2 m (some content)))
store_blocks-conclude_example =
    store_blocks-conclude nothing content a_request 2 2 (0 ∷ 1 ∷ []) no_writers (omega arith) refl
      (omega arith, (omega arith, (omega arith, tt))) covers

-- Reads that get all there is.
read_cached-full_example :
    ◌≡◌ {A = Outcome IoError (Option Bytes)}
      (read_cached (λ position k. some k) (some content) (pos 2) 4)
      (ok (some (3 ∷ 4 ∷ 5 ∷ 0 ∷ [])))
read_cached-full_example =
    read_cached-full (λ position k. some k) content 2 4 (λ position. refl) refl

one_byte_first : Reads
one_byte_first position k = if position == 0 then some (min 1 k) else some k

one_byte_first_ends : EndsWell one_byte_first
unfolding one_byte_first
one_byte_first_ends position = ground arith

-- The first read gets one byte, and the first byte of the reply is the third one of the file.
read_cached-short_example :
    ◌≡◌ {A = Outcome IoError (Option Bytes)}
      (read_cached one_byte_first (some content) (pos 0) 3)
      (ok (some (3 ∷ 4 ∷ 5 ∷ [])))
unfolding one_byte_first
read_cached-short_example =
    read_cached-short one_byte_first content 0 3 0 one_byte_first_ends refl (omega arith) refl
