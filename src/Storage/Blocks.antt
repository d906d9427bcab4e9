-- ===== src/Storage/Blocks.antt =====
-- The file that comes of its blocks, stored in any order.
use grizol.Prelude.{
  ℕ, zero, suc, ◌+◌, ◌-◌, ◌*◌, ◌/◌, ◌%◌, ◌≤◌, ◌<◌, ◌≡◌, refl, sym, ap, subst, ◌∙◌, true, ◌==◌, leb,
  Option, none, some, List, [], ◌∷◌, ◌++◌, length, length-take, length-drop, drop, if◌then◌else◌,
  arith, All,
}
use native.Mathlib.Nat.{mul-div_cancel, mul-mod_left, le-div_iff_mul-le, div-mul-le_self, suc-mul}
use grizol.Prelude.Int.{pos}
use grizol.Prelude.Keys.{nat_eq, bytes_eq, Dict, lookup, insert, lookup-insert}
use grizol.Prelude.Outcome.{Outcome, ok, err, ◌>>=◌, >>=-ok}
use grizol.Prelude.Bytes.{Bytes}
use grizol.Proto.{Request}
use grizol.Requests.{contains}
use grizol.FileWriter.{
  FileWriter, writing_chunks, works, IoError, new_file_writer, repeat_false, refused, all_idle,
}
use grizol.FileWriter.Chunks.{chunk_of, consolidate-content, write_chunk-insert}
use grizol.Storage.{
  StorageManager, Directory, file_rel_path, writer_or, writer_of, put_writer,
  store_block_concurrently, conclude_block_storage,
}

-- How many chunks a file has.
abbrev pub chunk_count : ℕ → ℕ → ℕ
chunk_count file_size chunk_size = (file_size + chunk_size - 1) / chunk_size

chunk_count_le : (n c : ℕ) → 1 ≤ c → n ≤ chunk_count n c * c
chunk_count_le n c h = ground (
  arith,
  le-div_iff_mul-le {x = suc (chunk_count n c)} {y = n + c - 1} h,
  suc-mul (chunk_count n c) c,
)

chunk_count_lt : (n c : ℕ) → 1 ≤ c → chunk_count n c * c < n + c
chunk_count_lt n c h = ground (arith, div-mul-le_self (n + c - 1) c)

-- Chunk `j` is one of the chunks if it starts in the file.
below_count : (n c j : ℕ) → 1 ≤ c → j < chunk_count n c → j * c < n
below_count n c j h lt =
    ground (arith, le-div_iff_mul-le {x = suc j} {y = n + c - 1} h, suc-mul j c)

-- What is not shorter than a chunk starts one.
last_chunk : (n c j : ℕ) → 1 ≤ c → j * c < n → n < j * c + c → n / c ≡ j
last_chunk n c j h lo hi = ground (
  arith,
  le-div_iff_mul-le {x = j} {y = n} h,
  le-div_iff_mul-le {x = suc j} {y = n} h,
  suc-mul j c,
)

refused-chunk :
    (w : FileWriter) (content : Bytes) (j : ℕ)
    → 1 ≤ w.chunk_size
    → w.file_size ≡ length content
    → j * w.chunk_size < length content
    → refused w (chunk_of w.chunk_size j content) (j * w.chunk_size) ≡ none
unfolding refused
refused-chunk w content j h e lt =
    let c = w.chunk_size in
    let size = length-take c (drop (j * c) content) in
    let left = length-drop (j * c) content in
    let starts : (j * c % c == 0) ≡ true = ground (arith, mul-mod_left j c) in
    rw starts (ground (arith, size, left, e, lt, last_chunk w.file_size c j h))

length-repeat_false : (n : ℕ) → length (repeat_false n) ≡ n
length-repeat_false zero = refl
length-repeat_false (suc n) = ap suc (length-repeat_false n)

repeat_false_idle : (n : ℕ) → all_idle (repeat_false n) ≡ true
repeat_false_idle zero = refl
repeat_false_idle (suc n) = repeat_false_idle n

-- The request for the block at a position.
abbrev pub request_at : Request → ℕ → ℕ → Request
request_at request chunk_size j = record request { offset = pos (j * chunk_size) }

-- An error ends the run.
abbrev pub or_stop : Option IoError × StorageManager → Outcome IoError StorageManager
or_stop (none, s) = ok s
or_stop (some e, s) = err e

module _ (directory : Directory) (content : Bytes) (request : Request) (chunk_size : ℕ) where
  -- The blocks of a content are stored one after the other, in the order of the positions.
  abbrev pub store_blocks : List ℕ → StorageManager → Outcome IoError StorageManager
  store_blocks [] s = ok s
  store_blocks (j ∷ js) s = do
    res ←
        store_block_concurrently directory works none (chunk_of chunk_size j content)
          (request_at request chunk_size j) (length content) chunk_size s
    s' ← or_stop res
    store_blocks js s'

  -- A writer with the chunk files, on the file that was there.
  abbrev pub writer_with : Dict ℕ Bytes → Option Bytes → FileWriter
  writer_with chunks old = record {
    file_size = length content;
    chunk_size = chunk_size;
    writing_chunk = repeat_false (chunk_count (length content) chunk_size);
    state = writing_chunks 0;
    chunks = chunks;
    file = old;
  }

  fresh_writer :
      {E : Type 0} (chunks : Dict ℕ Bytes) (old : Option Bytes)
      → 1 ≤ chunk_size
      → ◌≡◌ {A = Outcome E FileWriter}
          (new_file_writer (length content) chunk_size chunks old)
          (ok (writer_with chunks old))
  unfolding new_file_writer
  fresh_writer chunks old h = let sized : leb 1 chunk_size ≡ true = ground arith in rw sized refl

  abbrev Found : Dict ℕ Bytes → Option Bytes → StorageManager → Type 0
  Found chunks old s = lookup (file_rel_path request) s.file_writers ≡ some (writer_with chunks old)

  store_block_lem :
      (j : ℕ) (chunks : Dict ℕ Bytes) (old : Option Bytes) (s : StorageManager)
      → 1 ≤ chunk_size
      → j < chunk_count (length content) chunk_size
      → writer_or
          (writer_with
            (directory (s.local_base_dir ++ 47 ∷ file_rel_path request)).0
            (directory (s.local_base_dir ++ 47 ∷ file_rel_path request)).1)
          (lookup (file_rel_path request) s.file_writers)
        ≡ writer_with chunks old
      → ◌≡◌ {A = Outcome IoError (Option IoError × StorageManager)}
          (store_block_concurrently directory works none
            (chunk_of chunk_size j content)
            (request_at request chunk_size j)
            (length content)
            chunk_size
            s)
          (ok (
            none,
            put_writer
                (file_rel_path request)
                (writer_with (insert j (chunk_of chunk_size j content) chunks) old)
                s,
          ))
  unfolding store_block_concurrently writer_of
  store_block_lem j chunks old s h lt found =
      let path = s.local_base_dir ++ 47 ∷ file_rel_path request in
      let w = writer_with chunks old in
      let in_file = below_count (length content) chunk_size j h lt in
      let here = mul-div_cancel j h in
      let written =
        write_chunk-insert {E = IoError} (chunk_of chunk_size j content) (j * chunk_size) 0 w h
          (refused-chunk w content j h refl in_file) refl
          (ground (arith, here, length-repeat_false (chunk_count (length content) chunk_size)))
          (repeat_false_idle (chunk_count (length content) chunk_size)) in
      >>=-ok _ (>>=-ok _ (fresh_writer (directory path).0 (directory path).1 h) (ap ok found)) (
        >>=-ok _ written (
          ap
            (λ i. ok (
              none,
              put_writer (file_rel_path request)
                  (writer_with (insert i (chunk_of chunk_size j content) chunks) old) s,
            ))
            here))

  -- The chunk files after the blocks at the positions are stored.
  abbrev chunks_after : List ℕ → Dict ℕ Bytes → Dict ℕ Bytes
  chunks_after [] chunks = chunks
  chunks_after (j ∷ js) chunks = chunks_after js (insert j (chunk_of chunk_size j content) chunks)

  lookup-chunks_after :
      (i : ℕ) (js : List ℕ) (chunks : Dict ℕ Bytes)
      → lookup i (chunks_after js chunks)
        ≡ (if contains i js then some (chunk_of chunk_size i content) else lookup i chunks)
  unfolding contains
  lookup-chunks_after i [] chunks = refl
  lookup-chunks_after i (j ∷ js) chunks =
      lookup-chunks_after i js (insert j (chunk_of chunk_size j content) chunks)
      ∙ ground (arith, lookup-insert j i (chunk_of chunk_size j content) chunks)

  store_next :
      (j : ℕ) (js : List ℕ) (chunks : Dict ℕ Bytes) (old : Option Bytes) (s : StorageManager)
      → 1 ≤ chunk_size
      → j < chunk_count (length content) chunk_size
      → writer_or
          (writer_with
            (directory (s.local_base_dir ++ 47 ∷ file_rel_path request)).0
            (directory (s.local_base_dir ++ 47 ∷ file_rel_path request)).1)
          (lookup (file_rel_path request) s.file_writers)
        ≡ writer_with chunks old
      → ((s₁ : StorageManager)
          → Found (insert j (chunk_of chunk_size j content) chunks) old s₁
          → (s' : StorageManager) × (store_blocks js s₁ ≡ ok s')
            × Found (chunks_after (j ∷ js) chunks) old s')
      → (s' : StorageManager) × (store_blocks (j ∷ js) s ≡ ok s')
        × Found (chunks_after (j ∷ js) chunks) old s'
  store_next j js chunks old s h lt found rest =
      let key = file_rel_path request in
      let w = writer_with (insert j (chunk_of chunk_size j content) chunks) old in
      let (s', e, found') =
        rest (put_writer key w s)
          (lookup-insert key key w s.file_writers ∙ ground (arith, bytes_eq.beq_iff key key)) in
      (s', >>=-ok _ (store_block_lem j chunks old s h lt found) e, found')

  store_blocks-Found :
      (js : List ℕ) (chunks : Dict ℕ Bytes) (old : Option Bytes) (s : StorageManager)
      → 1 ≤ chunk_size
      → All (λ j. j < chunk_count (length content) chunk_size) js
      → Found chunks old s
      → (s' : StorageManager) × (store_blocks js s ≡ ok s') × Found (chunks_after js chunks) old s'
  store_blocks-Found [] chunks old s h lt found = (s, refl, found)
  store_blocks-Found (j ∷ js) chunks old s h (lt, all_lt) found =
      store_next j js chunks old s h lt
        (ap
          (writer_or (
            writer_with (directory (s.local_base_dir ++ 47 ∷ file_rel_path request)).0
              (directory (s.local_base_dir ++ 47 ∷ file_rel_path request)).1))
          found)
        (λ s₁ found₁.
          store_blocks-Found js (insert j (chunk_of chunk_size j content) chunks) old s₁ h all_lt
            found₁)

  conclude-content :
      (chunks : Dict ℕ Bytes) (old : Option Bytes) (s : StorageManager)
      → 1 ≤ chunk_size
      → Found chunks old s
      → ((j : ℕ)
          → j < chunk_count (length content) chunk_size
          → lookup j chunks ≡ some (chunk_of chunk_size j content))
      → (s' : StorageManager) × (m : Dict ℕ Bytes) × (◌≡◌
          {A = Outcome IoError (Option IoError × StorageManager)}
          (conclude_block_storage directory request (length content) chunk_size s)
          (ok (none, s')))
        × Found m (some content) s'
  unfolding conclude_block_storage writer_of
  conclude-content chunks old s h found there =
      let key = file_rel_path request in
      let n = chunk_count (length content) chunk_size in
      let flags = length-repeat_false n in
      let w = writer_with chunks old in
      let (m, done) =
        consolidate-content {E = IoError} w content refl (repeat_false_idle n)
          (subst (λ k. length content ≤ k * chunk_size) (sym flags)
            (chunk_count_le (length content) chunk_size h))
          (subst (λ k. k * chunk_size < length content + chunk_size) (sym flags)
            (chunk_count_lt (length content) chunk_size h))
          (λ j lt. there j (subst (λ k. j < k) flags lt)) in
      let w' = writer_with m (some content) in
      (
        put_writer key w' s,
        m,
        >>=-ok _
            (>>=-ok _ (fresh_writer (directory key).0 (directory key).1 h)
              (ap (λ o. ok (writer_or (writer_with (directory key).0 (directory key).1) o)) found))
            (>>=-ok _ done refl),
        lookup-insert key key w' s.file_writers ∙ ground (arith, bytes_eq.beq_iff key key),
      )

  -- Where no writer is there for a file yet, whatever chunk files the directory has, storing the
  -- blocks of a content, all of them and some even twice, in any order, succeeds each time, and
  -- conclude_block_storage then succeeds and leaves the content in the file, for any content that is
  -- not empty and any size of blocks that is not zero.
  pub store_blocks-conclude :
      (p : ℕ) (ps : List ℕ) (s : StorageManager)
      → 1 ≤ chunk_size
      → lookup (file_rel_path request) s.file_writers ≡ none
      → All (λ j. j < chunk_count (length content) chunk_size) (p ∷ ps)
      → ((j : ℕ) → j < chunk_count (length content) chunk_size → contains j (p ∷ ps) ≡ true)
      → (s' : StorageManager) × (s'' : StorageManager) × (m : Dict ℕ Bytes) × (store_blocks
            (p ∷ ps)
            s
          ≡ ok s')
        × (◌≡◌ {A = Outcome IoError (Option IoError × StorageManager)}
            (conclude_block_storage directory request (length content) chunk_size s')
            (ok (none, s'')))
        × (lookup (file_rel_path request) s''.file_writers ≡ some (writer_with m (some content)))
  store_blocks-conclude p ps s h new (lt, all_lt) covers =
      let at = directory (s.local_base_dir ++ 47 ∷ file_rel_path request) in
      let (s', e, found) =
        store_next p ps at.0 at.1 s h lt (ap (writer_or (writer_with at.0 at.1)) new) (λ s₁ found₁.
          store_blocks-Found ps (insert p (chunk_of chunk_size p content) at.0) at.1 s₁ h all_lt
            found₁) in
      let (s'', m, e', found') =
        conclude-content (chunks_after (p ∷ ps) at.0) at.1 s' h found
          (λ j lt. lookup-chunks_after j (p ∷ ps) at.0 ∙ ground (arith, covers j lt)) in
      (s', s'', m, e, e', found')
