-- ===== src/Storage/Reading.antt =====
-- The reading of a cached file, `read_cached` of src/storage.rs. How many bytes a read gets from the operating
-- system is an argument.
use grizol.Prelude.{
  ℕ, zero, suc, ◌+◌, ◌-◌, ◌≤◌, ◌<◌, ◌≡◌, refl, sym, ap, ◌∙◌, min, Bool, true, false, Option, none,
  some, ◌++◌, ◌⊎◌, inl, inr, length, take, drop, ltb, leb, Bool-cases, length-take, length-drop,
  if◌then◌else◌, if_false, arith,
}
use grizol.Prelude.Int.{ℤ, pos, negsuc}
use grizol.Prelude.Outcome.{Outcome, ok, panic, diverge, ◌>>=◌}
use grizol.Prelude.Bytes.{Bytes}
use grizol.FileWriter.{zeros}

-- How many bytes a read at a position gets, of those that the file and the buffer have room for; `none` is an
-- error.
abbrev pub Reads : Type 0
Reads = ℕ → ℕ → Option ℕ

abbrev pub available : ℕ → ℕ → Bytes → ℕ
available size position content = min size (length content - position)

-- A read writes to the start of the buffer.
abbrev pub write_front : Bytes → Bytes → Bytes
write_front bytes buffer = bytes ++ drop (length bytes) buffer

abbrev after_read :
    {E : Type 0} → Option ℕ → Bytes → (ℕ → Outcome E (Option Bytes)) → Outcome E (Option Bytes)
after_read none buffer next = ok none
after_read (some zero) buffer next = ok (some buffer)
after_read (some (suc n)) buffer next = next (suc n)

-- The loop. A read moves the position, and the `seek` after it does so again. Each round takes a unit of fuel.
unfoldable pub read_loop :
    {E : Type 0} → Reads → ℕ → ℕ → Bytes → ℕ → ℕ → Bytes → Outcome E (Option Bytes)
read_loop reads zero size content position total buffer = diverge
read_loop reads (suc rounds) size content position total buffer =
    if ltb total size
    then after_read (reads position (available size position content)) buffer (λ n.
      read_loop reads rounds size content (position + n + n) (total + n)
        (write_front (take n (drop position content)) buffer))
    else ok (some buffer)

abbrev pub start_of : {E : Type 0} → ℤ → Outcome E ℕ
start_of (pos n) = ok n
start_of (negsuc n) = panic

-- A file that cannot be opened is `none` and gives an `Err`, which is `none` too. A round of the loop reads a
-- byte at least, so `size + 1` rounds are enough.
unfoldable pub read_cached : {E : Type 0} → Reads → Option Bytes → ℤ → ℕ → Outcome E (Option Bytes)
read_cached reads none base_offset size = ok none
read_cached reads (some content) base_offset size = start_of base_offset >>= λ position.
    read_loop reads (suc size) size content position 0 (zeros size)

-- At the end of the file a read gets nothing.
abbrev pub EndsWell : Reads → Type 0
EndsWell reads = (position : ℕ) → reads position 0 ≡ some 0

one_round :
    {E : Type 0} (reads : Reads) (rounds size : ℕ) (content : Bytes) (position total n : ℕ)
    (buffer : Bytes)
    → total < size
    → reads position (available size position content) ≡ some n
    → ◌≡◌ {A = Outcome E (Option Bytes)}
        (read_loop reads (suc rounds) size content position total buffer)
        (after_read (some n) buffer (λ n.
          read_loop reads rounds size content
            (position + n + n)
            (total + n)
            (write_front (take n (drop position content)) buffer)))
unfolding read_loop
one_round reads rounds size content position total n buffer more e =
    let test : ltb total size ≡ true = ground arith in rw test (rw e refl)

-- Where the buffer was filled, or the end of the file was reached.
if_same : {A : Type 0} {x y : A} (b : Bool) → x ≡ y → (if b then x else y) ≡ y
if_same true e = e
if_same false e = refl

either_end :
    (n size position total len : ℕ)
    → n ≡ min size (len - position)
    → (size ≤ total + n) ⊎ (len ≤ position + n + n)
either_end n size position total len e = elim (Bool-cases (leb size (len - position))) [
  | inl h ↦ inl (ground arith)
  | inr h ↦ inr (ground arith)
]

last_step :
    {E : Type 0} (reads : Reads) (rounds size : ℕ) (content : Bytes) (position total : ℕ)
    (buffer : Bytes)
    → EndsWell reads
    → (size ≤ total) ⊎ (length content ≤ position)
    → ◌≡◌ {A = Outcome E (Option Bytes)}
        (read_loop reads (suc rounds) size content position total buffer)
        (ok (some buffer))
unfolding read_loop
last_step reads rounds size content position total buffer ends (inl full) =
    if_false (ltb total size) _ _ (ground arith)
last_step {E} reads rounds size content position total buffer ends (inr end) =
    let none_left : available size position content ≡ 0 = omega arith in
    let done = ap (reads position) none_left ∙ ends position in
    if_same (ltb total size) (
      ap
        (λ r. after_read {E = E} r buffer (λ n.
          read_loop reads rounds size content (position + n + n) (total + n)
            (write_front (take n (drop position content)) buffer)))
        done)

-- The bytes of the file from a position on that the buffer has room for, at the start of the buffer.
abbrev pub front_at : ℕ → Bytes → ℕ → Bytes → Bytes
front_at size content position buffer =
    write_front (take (available size position content) (drop position content)) buffer

after_all :
    {E : Type 0} (n size position total : ℕ) (reads : Reads) (rounds : ℕ) (content buffer : Bytes)
    → EndsWell reads
    → n ≡ available size position content
    → ◌≡◌ {A = Outcome E (Option Bytes)}
        (after_read (some n) buffer (λ n.
          read_loop reads
            (suc rounds)
            size
            content
            (position + n + n)
            (total + n)
            (write_front (take n (drop position content)) buffer)))
        (ok (some (write_front (take n (drop position content)) buffer)))
after_all zero size position total reads rounds content buffer ends e = refl
after_all (suc n) size position total reads rounds content buffer ends e =
    last_step reads rounds size content _ _ _ ends
      (either_end (suc n) size position total (length content) e)

-- A read that gets all there is, is the last one.
last_read :
    {E : Type 0} (reads : Reads) (rounds size : ℕ) (content : Bytes) (position total : ℕ)
    (buffer : Bytes)
    → EndsWell reads
    → total < size
    → reads position (available size position content) ≡ some (available size position content)
    → ◌≡◌ {A = Outcome E (Option Bytes)}
        (read_loop reads (suc (suc rounds)) size content position total buffer)
        (ok (some (front_at size content position buffer)))
last_read reads rounds size content position total buffer ends more all =
    one_round reads (suc rounds) size content position total (available size position content)
      buffer more all
    ∙ after_all (available size position content) size position total reads rounds content buffer
        ends refl

drop-zeros : (k n : ℕ) → drop k (zeros n) ≡ zeros (n - k)
drop-zeros zero n = let same : n ≡ n - 0 = omega arith in ap zeros same
drop-zeros (suc k) zero = let same : 0 ≡ 0 - suc k = omega arith in ap zeros same
drop-zeros (suc k) (suc n) =
    let same : n - k ≡ suc n - suc k = omega arith in drop-zeros k n ∙ ap zeros same

front-zeros :
    (n size : ℕ) (bytes : Bytes)
    → n ≤ size
    → n ≤ length bytes
    → write_front (take n bytes) (zeros size) ≡ take n bytes ++ zeros (size - n)
front-zeros n size bytes le fits =
    let len : length (take n bytes) ≡ n = omega (arith, length-take {0} n bytes) in
    ap (λ k. take n bytes ++ drop k (zeros size)) len
    ∙ ap (λ b. take n bytes ++ b) (drop-zeros n size)

-- Where the first read gets all the bytes of the file from the offset on that the buffer has room
-- for, and reads at the end of the file get nothing, read_cached returns these bytes, and zeros up
-- to the size.
pub read_cached-full :
    {E : Type 0} (reads : Reads) (content : Bytes) (offset size : ℕ)
    → EndsWell reads
    → reads offset (available size offset content) ≡ some (available size offset content)
    → ◌≡◌ {A = Outcome E (Option Bytes)} (read_cached reads (some content) (pos offset) size) (
        ok (
          some (
            take (available size offset content) (drop offset content)
            ++ zeros (size - available size offset content))))
unfolding read_cached read_loop
read_cached-full reads content offset zero ends all =
    let nothing : available 0 offset content ≡ 0 = omega arith in
    ap (λ k. ok (some (take k (drop offset content) ++ zeros (0 - k)))) (sym nothing)
read_cached-full reads content offset (suc size) ends all =
    last_read reads size (suc size) content offset 0 (zeros (suc size)) ends (omega arith) all
    ∙ ap (λ b. ok (some b))
        (front-zeros (available (suc size) offset content) (suc size) (drop offset content)
          (omega arith) (omega (arith, length-drop {0} offset content)))

-- Where the first read gets n bytes, fewer than there are, and the second one all that is left for
-- it, read_cached returns at the start of the reply the bytes from 2n after the offset on, in place
-- of those at the offset.
pub read_cached-short :
    {E : Type 0} (reads : Reads) (content : Bytes) (offset size n : ℕ)
    → EndsWell reads
    → reads offset (available size offset content) ≡ some (suc n)
    → suc n < available size offset content
    → reads (offset + suc n + suc n) (available size (offset + suc n + suc n) content)
      ≡ some (available size (offset + suc n + suc n) content)
    → ◌≡◌ {A = Outcome E (Option Bytes)} (read_cached reads (some content) (pos offset) size) (
        ok (
          some (
            front_at size content
              (offset + suc n + suc n)
              (take (suc n) (drop offset content) ++ zeros (size - suc n)))))
unfolding read_cached
read_cached-short reads content offset size n ends first short second =
    let next = offset + suc n + suc n in
    let more : 0 < size = omega arith in
    let room : suc size ≡ suc (suc (suc (size - 2))) = omega arith in
    ap (λ rounds. read_loop reads rounds size content offset 0 (zeros size)) room
    ∙ one_round reads (suc (suc (size - 2))) size content offset 0 (suc n) (zeros size) more first
    ∙ last_read reads (size - 2) size content next (0 + suc n) _ ends (omega arith) second
    ∙ ap (λ b. ok (some (front_at size content next b)))
        (front-zeros (suc n) size (drop offset content) (omega arith)
          (omega (arith, length-drop {0} offset content)))
