-- ===== src/FileWriter/Chunks.antt =====
-- Consolidating the chunks of a file gives the file.
use grizol.Prelude.{
  ℕ, zero, suc, ◌+◌, ◌-◌, ◌*◌, ◌/◌, ◌≤◌, ◌<◌, ◌≡◌, refl, ap, sym, ◌∙◌, Bool, true, false, none,
  some, List, [], ◌∷◌, ◌++◌, append-nil, length, length-take, take, drop, take_all, leb, ◌&&◌, ◌==◌,
  if◌then◌else◌, arith,
}
use grizol.Prelude.Keys.{nat_eq, Dict, lookup, insert, erase, lookup-erase}
use grizol.Prelude.Outcome.{ok}
use grizol.Prelude.Bytes.{Bytes}
use grizol.FileWriter.{
  works, open_fails, other, IoError, refused, write_chunk, set_flag, FileWriter, writing_chunks,
  write_at, consolidate_loop, consolidate, all_idle,
}

-- The chunk at a position, shorter at the end.
abbrev pub chunk_of : ℕ → ℕ → Bytes → Bytes
chunk_of chunk_size i content = take chunk_size (drop (i * chunk_size) content)

drop_past : (n : ℕ) (xs : Bytes) → length xs ≤ n → drop n xs ≡ []
drop_past zero [] h = refl
drop_past zero (x ∷ xs) h = absurd (omega arith)
drop_past (suc n) [] h = refl
drop_past (suc n) (x ∷ xs) h = drop_past n xs (omega arith)

take_nil : (n : ℕ) → take {A = ℕ} n [] ≡ []
take_nil zero = refl
take_nil (suc n) = refl

take_add : (m n : ℕ) (xs : Bytes) → take m xs ++ take n (drop m xs) ≡ take (m + n) xs
take_add zero n xs = ap (λ k. take k xs) (omega arith)
take_add (suc m) zero [] = sym (take_nil (suc m + 0))
take_add (suc m) (suc n) [] = sym (take_nil (suc m + suc n))
take_add (suc m) n (x ∷ xs) =
    let sum : suc (m + n) ≡ suc m + n = omega arith in
    ap (λ l. x ∷ l) (take_add m n xs) ∙ ap (λ k. take k (x ∷ xs)) sum

write_at_end :
    (pos : ℕ) (buf file : Bytes) → length file ≡ pos → write_at pos buf file ≡ file ++ buf
write_at_end pos buf file h =
    let none_missing : pos - length file ≡ 0 = omega arith in
    rw
      (
        none_missing,
        append-nil file,
        drop_past (pos + length buf) file (omega arith),
        append-nil buf,
      )
      (ap (λ l. l ++ buf) (take_all pos file (omega arith)))

rounds_mul : (i r c : ℕ) → (i + suc r) * c ≡ i * c + c + r * c
rounds_mul i r c = omega arith

next_mul : (i c : ℕ) → (i + 1) * c ≡ i * c + c
next_mul i c = omega arith

consolidate_loop-content :
    (rounds i chunk_size : ℕ) (chunks : Dict ℕ Bytes) (content : Bytes)
    → length content ≤ (i + rounds) * chunk_size
    → (i + rounds) * chunk_size < length content + chunk_size
    → ((j : ℕ) → i ≤ j → j < i + rounds → lookup j chunks ≡ some (chunk_of chunk_size j content))
    → (m : Dict ℕ Bytes) × (consolidate_loop rounds i chunk_size chunks
          (take (i * chunk_size) content)
        ≡ (none, (m, content)))
unfolding consolidate_loop
consolidate_loop-content zero i chunk_size chunks content h k there =
    (chunks, ap (λ l. (none, (chunks, l))) (take_all (i * chunk_size) content (omega arith)))
consolidate_loop-content (suc rounds) i chunk_size chunks content h k there =
    let here = there i (omega arith) (omega arith) in
    let mul = rounds_mul i rounds chunk_size in
    let full : length (take (i * chunk_size) content) ≡ i * chunk_size =
      omega (arith, length-take (i * chunk_size) content) in
    let written : write_at (i * chunk_size) (chunk_of chunk_size i content)
          (take (i * chunk_size) content)
        ≡ take ((i + 1) * chunk_size) content =
      write_at_end (i * chunk_size) (chunk_of chunk_size i content) (take (i * chunk_size) content)
        full
      ∙ take_add (i * chunk_size) chunk_size content
      ∙ ap (λ k. take k content) (sym (next_mul i chunk_size)) in
    let more : (j : ℕ)
        → i + 1 ≤ j
        → j < i + 1 + rounds
        → lookup j (erase i chunks) ≡ some (chunk_of chunk_size j content) =
      λ j lo hi. lookup-erase i j chunks ∙ other j lo ∙ there j (omega arith) (omega arith) in
    let same : (i + 1 + rounds) * chunk_size ≡ (i + suc rounds) * chunk_size =
      ap (λ k. k * chunk_size) (omega arith) in
    let (m, e) =
      consolidate_loop-content rounds (i + 1) chunk_size (erase i chunks) content (omega arith)
        (omega arith) more in
    (m, rw (here, written) e)
  where
    other :
        (j : ℕ) → i + 1 ≤ j → (if nat_eq.beq i j then none else lookup j chunks) ≡ lookup j chunks
    other j lo = ground arith

-- On an idle writer with all chunks of a content on disk, as many as the flags, in any order of
-- writing, consolidate succeeds and leaves the content in the file.
pub consolidate-content :
    {E : Type 0} (w : FileWriter) (content : Bytes)
    → w.state ≡ writing_chunks 0
    → all_idle w.writing_chunk ≡ true
    → length content ≤ length w.writing_chunk * w.chunk_size
    → length w.writing_chunk * w.chunk_size < length content + w.chunk_size
    → ((j : ℕ)
        → j < length w.writing_chunk
        → lookup j w.chunks ≡ some (chunk_of w.chunk_size j content))
    → (m : Dict ℕ Bytes) × (consolidate {E = E} w
        ≡ ok (none, record w { chunks = m; file = some content }))
unfolding consolidate
consolidate-content w content idle flags h k there =
    let n = length w.writing_chunk in
    let total : (0 + n) * w.chunk_size ≡ n * w.chunk_size =
      ap (λ k. k * w.chunk_size) (omega arith) in
    let (m, e) =
      consolidate_loop-content n 0 w.chunk_size w.chunks content (omega arith) (omega arith)
        (λ j lo hi. there j (omega arith)) in
    let zero_mul : 0 * w.chunk_size ≡ 0 = omega arith in
    let none_yet : take (0 * w.chunk_size) content ≡ [] = ap (λ k. take k content) zero_mul in
    let loop = rw none_yet at e in (m, rw (idle, flags, loop) refl)

abbrev pub put : ℕ → Bool → List Bool → List Bool
put i b [] = []
put zero b (x ∷ xs) = b ∷ xs
put (suc i) b (x ∷ xs) = x ∷ put i b xs

set_flag-put :
    {E : Type 0} (i : ℕ) (b : Bool) (xs : List Bool)
    → i < length xs
    → set_flag {E = E} i b xs ≡ ok (put i b xs)
set_flag-put i b [] h = absurd (omega arith)
set_flag-put zero b (x ∷ xs) h = refl
set_flag-put {E} (suc i) b (x ∷ xs) h = rw (set_flag-put {E = E} i b xs (omega arith)) refl

put_twice : (i : ℕ) (b c : Bool) (xs : List Bool) → put i b (put i c xs) ≡ put i b xs
put_twice i b c [] = refl
put_twice zero b c (x ∷ xs) = refl
put_twice (suc i) b c (x ∷ xs) = ap (λ l. x ∷ l) (put_twice i b c xs)

length-put : (i : ℕ) (b : Bool) (xs : List Bool) → length (put i b xs) ≡ length xs
length-put i b [] = refl
length-put zero b (x ∷ xs) = refl
length-put (suc i) b (x ∷ xs) = ap (λ n. suc n) (length-put i b xs)

put_idle : (i : ℕ) (xs : List Bool) → all_idle xs ≡ true → put i false xs ≡ xs
put_idle i [] h = refl
put_idle zero (x ∷ xs) h = ground arith
put_idle (suc i) (x ∷ xs) h = ground (arith, put_idle i xs)

refused-none :
    (w : FileWriter) (bytes : Bytes) (offset : ℕ)
    → refused w bytes offset ≡ none
    → offset < w.file_size
unfolding refused
refused-none w bytes offset h = ground arith

not_empty : (offset n : ℕ) → offset < n → (offset == 0 && n == 0) ≡ false
not_empty offset n h = ground arith

-- On a writer that is not consolidating and whose flags are all false, write_chunk with data and an
-- offset that its guards accept, and with working files, succeeds, puts the data in the chunk file
-- at the position of the offset, and leaves count and flags as they were.
pub write_chunk-insert :
    {E : Type 0} (bytes : Bytes) (offset x : ℕ) (w : FileWriter)
    → 1 ≤ w.chunk_size
    → refused w bytes offset ≡ none
    → w.state ≡ writing_chunks x
    → offset / w.chunk_size < length w.writing_chunk
    → all_idle w.writing_chunk ≡ true
    → write_chunk {E = E} works bytes offset w
      ≡ ok (none, record w { chunks = insert (offset / w.chunk_size) bytes w.chunks })
unfolding write_chunk
write_chunk-insert {E} bytes offset x w c r s i idle =
    let pos = offset / w.chunk_size in
    let up = set_flag-put {E = E} pos true w.writing_chunk i in
    let len = length-put pos true w.writing_chunk in
    let down = set_flag-put {E = E} pos false (put pos true w.writing_chunk) (omega arith) in
    let same : put pos false (put pos true w.writing_chunk) ≡ w.writing_chunk =
      put_twice pos false true w.writing_chunk ∙ put_idle pos w.writing_chunk idle in
    let guarded = not_empty offset w.file_size (refused-none w bytes offset r) in
    let sized : leb 1 w.chunk_size ≡ true = ground arith in
    let started : leb 1 (x + 1) ≡ true = ground arith in
    let restored : x + 1 - 1 ≡ x = omega arith in
    rw (guarded, sized, r, s, up, down, same, started, restored) refl

abbrev pub after_failure : ℕ → FileWriter → FileWriter
after_failure x w = record w { state = writing_chunks (x + 1) }

-- When the chunk file of an accepted write cannot be opened, write_chunk returns the error with the
-- count of writers one higher than before, and consolidate is refused in the state that it leaves.
pub write_chunk-open_fails :
    {E : Type 0} (bytes : Bytes) (offset x : ℕ) (e : IoError) (w : FileWriter)
    → 1 ≤ w.chunk_size
    → refused w bytes offset ≡ none
    → w.state ≡ writing_chunks x
    → offset / w.chunk_size < length w.writing_chunk
    → all_idle w.writing_chunk ≡ true
    → (write_chunk {E = E} (open_fails e) bytes offset w ≡ ok (some e, after_failure x w))
      × (consolidate {E = E} (after_failure x w) ≡ ok (some other, after_failure x w))
unfolding write_chunk consolidate
write_chunk-open_fails {E} bytes offset x e w c r s i idle =
    let pos = offset / w.chunk_size in
    let up = set_flag-put {E = E} pos true w.writing_chunk i in
    let len = length-put pos true w.writing_chunk in
    let down = set_flag-put {E = E} pos false (put pos true w.writing_chunk) (omega arith) in
    let same : put pos false (put pos true w.writing_chunk) ≡ w.writing_chunk =
      put_twice pos false true w.writing_chunk ∙ put_idle pos w.writing_chunk idle in
    let guarded = not_empty offset w.file_size (refused-none w bytes offset r) in
    let sized : leb 1 w.chunk_size ≡ true = ground arith in
    let more : x + 1 ≡ suc x = omega arith in
    (rw (guarded, sized, r, s, up, down, same) refl, rw more refl)
