-- ===== src/State/Uploads.antt =====
-- What has been stored of a file: `update_block_storage_state` of src/core/bep_state.rs.
use native.Mathlib.Nat.{suc-mul, div-eq_of_lt-le, div-eq_of_lt, div-le_self}
use grizol.Prelude.{
  ℕ, zero, suc, ◌+◌, ◌*◌, ◌<◌, ◌⊎◌, inl, inr, subst, ◌-◌, ◌/◌, ◌^◌, ◌≤◌, ◌≡◌, refl, ap, sym, ◌∙◌,
  ◌++◌, append-nil, Bool, true, not, ◌&&◌, ◌||◌, arith, some, List, [], ◌∷◌, map, length, ltb, leb,
  ◌==◌, if◌then◌else◌,
}
use grizol.Prelude.Int.{ℤ, pos, negsuc, ltb_ℤ, ◌+ℤ◌, ◌-ℤ◌}
use grizol.Prelude.Keys.{int_eq, bytes_eq, lookup}
use grizol.Prelude.Outcome.{Outcome, ok, ◌>>=◌, ◌>>◌, assert, unwrap}
use grizol.Prelude.Bytes.{Bytes}
use grizol.Proto.{Request}
use grizol.DeviceId.{DeviceId}
use grizol.Requests.{OutgoingRequests, get, contains}
use grizol.State.{file_key}
use grizol.State.Tables.{
  FileKey, file_key_eq, FileColumns, BlockRow, Database, stored_locally, storage_status_code, any,
  filter,
}

pub data UploadStatus : Type 0 where
  blocks_missing all_blocks : UploadStatus

pub data UploadResult : Type 0 where
  uploaded : UploadStatus → UploadResult
  too_many_blocks : UploadResult

-- `a / b` of two `i64`s, which rounds to zero, or 0 where it is negative; a divisor of zero and a quotient
-- out of range unwind.
abbrev quotient : ℤ → ℤ → ℕ
quotient (pos a) (pos b) = a / b
quotient (pos a) (negsuc b) = 0
quotient (negsuc a) (pos b) = 0
quotient (negsuc a) (negsuc b) = suc a / suc b

abbrev in_i64 : ℤ → Bool
in_i64 a = ltb_ℤ a (pos (2 ^ 63)) && not (ltb_ℤ a (negsuc (2 ^ 63 - 1)))

-- Even an empty file has a block.
unfoldable pub expected_blocks : {E : Type 0} → ℤ → ℤ → Outcome E ℕ
expected_blocks byte_size block_size = do
  assert (in_i64 (byte_size +ℤ block_size) && in_i64 (byte_size +ℤ block_size -ℤ pos 1))
  assert (not (int_eq.beq block_size (pos 0)))
  let blocks = quotient (byte_size +ℤ block_size -ℤ pos 1) block_size
  assert (ltb blocks (2 ^ 63))
  ok (if leb 1 blocks then blocks else 1)

abbrev pub mark_stored : FileKey → Bytes → BlockRow → BlockRow
mark_stored k hash row =
    if file_key_eq.beq row.file k && bytes_eq.beq row.hash hash
    then record row { storage_status = storage_status_code stored_locally }
    else row

abbrev pub is_stored : FileKey → BlockRow → Bool
is_stored k row =
    file_key_eq.beq row.file k && row.storage_status == storage_status_code stored_locally

-- COUNT(*) of the blocks of the file that are stored.
abbrev pub stored_blocks : FileKey → List BlockRow → ℕ
stored_blocks k rows = length (filter (is_stored k) rows)

-- The rows of the join are none where no block is stored, and `fetch_one` fails.
unfoldable pub count_blocks : {E : Type 0} → FileKey → Database → Outcome E (FileColumns × ℕ)
count_blocks k db = do
  r ← unwrap (lookup k db.files)
  assert (leb 1 (stored_blocks k db.blocks))
  ok (r, stored_blocks k db.blocks)

abbrev pub compare_blocks : ℕ → ℕ → UploadResult
compare_blocks stored expected =
    if stored == expected
    then uploaded all_blocks
    else if ltb stored expected
    then uploaded blocks_missing
    else too_many_blocks

unfoldable pub update_block_storage_state :
    {E : Type 0} → OutgoingRequests → ℤ → DeviceId → Database → Outcome E (UploadResult × Database)
update_block_storage_state outgoing_requests request_id device_id db = do
  request ← unwrap (get request_id outgoing_requests)
  let k = file_key request.folder device_id request.name
  let marked : Database = record db { blocks = map (mark_stored k request.hash) db.blocks }
  counted ← count_blocks k marked
  expected ← expected_blocks counted.0.size counted.0.block_size
  ok (compare_blocks counted.1 expected, marked)

-- The rows of the file, and whether all of them are stored.
abbrev pub of_file : FileKey → BlockRow → Bool
of_file k row = file_key_eq.beq row.file k

abbrev pub all_stored : FileKey → List BlockRow → Bool
all_stored k [] = true
all_stored k (row ∷ rows) = (not (of_file k row) || is_stored k row) && all_stored k rows

-- The rows once the blocks with these hashes are stored.
abbrev pub mark_all : FileKey → List Bytes → List BlockRow → List BlockRow
mark_all k [] rows = rows
mark_all k (h ∷ hs) rows = mark_all k hs (map (mark_stored k h) rows)

-- Whether each block of the file is stored or has one of the hashes.
abbrev pub covered : FileKey → List Bytes → List BlockRow → Bool
covered k hs [] = true
covered k hs (row ∷ rows) =
    (not (of_file k row) || is_stored k row || contains row.hash hs) && covered k hs rows

stored_le :
    (k : FileKey) (rows : List BlockRow) → stored_blocks k rows ≤ length (filter (of_file k) rows)
stored_le k [] = omega arith
stored_le k (row ∷ rows) = ground (arith, stored_le k rows)

stored-all :
    (k : FileKey) (rows : List BlockRow)
    → (stored_blocks k rows == length (filter (of_file k) rows)) ≡ all_stored k rows
stored-all k [] = refl
stored-all k (row ∷ rows) = ground (arith, stored-all k rows, stored_le k rows)

filter-mark :
    (k : FileKey) (h : Bytes) (rows : List BlockRow)
    → length (filter (of_file k) (map (mark_stored k h) rows)) ≡ length (filter (of_file k) rows)
filter-mark k h [] = refl
filter-mark k h (row ∷ rows) = ground (arith, filter-mark k h rows)

covered-mark :
    (k : FileKey) (h : Bytes) (hs : List Bytes) (rows : List BlockRow)
    → covered k hs (map (mark_stored k h) rows) ≡ covered k (h ∷ hs) rows
unfolding contains
covered-mark k h hs [] = refl
covered-mark k h hs (row ∷ rows) =
    ground
      (arith, covered-mark k h hs rows, bytes_eq.beq_iff row.hash h, bytes_eq.beq_iff h row.hash)

covered_nil : (k : FileKey) (rows : List BlockRow) → covered k [] rows ≡ all_stored k rows
unfolding contains
covered_nil k [] = refl
covered_nil k (row ∷ rows) = ground (arith, covered_nil k rows)

abbrev pub has_hash : FileKey → Bytes → List BlockRow → Bool
has_hash k h rows = any (λ row. of_file k row && bytes_eq.beq row.hash h) rows

has_hash-mark :
    (k : FileKey) (h g : Bytes) (rows : List BlockRow)
    → has_hash k h (map (mark_stored k g) rows) ≡ has_hash k h rows
has_hash-mark k h g [] = refl
has_hash-mark k h g (row ∷ rows) = ground (arith, has_hash-mark k h g rows)

stored-mark :
    (k : FileKey) (h : Bytes) (rows : List BlockRow)
    → has_hash k h rows ≡ true
    → 1 ≤ stored_blocks k (map (mark_stored k h) rows)
stored-mark k h [] e = ground arith
stored-mark k h (row ∷ rows) e = ground (arith, stored-mark k h rows)

has_hash-mark_all :
    (k : FileKey) (h : Bytes) (hs : List Bytes) (rows : List BlockRow)
    → has_hash k h (mark_all k hs rows) ≡ has_hash k h rows
has_hash-mark_all k h [] rows = refl
has_hash-mark_all k h (g ∷ hs) rows =
    has_hash-mark_all k h hs (map (mark_stored k g) rows) ∙ has_hash-mark k h g rows

filter-mark_all :
    (k : FileKey) (hs : List Bytes) (rows : List BlockRow)
    → length (filter (of_file k) (mark_all k hs rows)) ≡ length (filter (of_file k) rows)
filter-mark_all k [] rows = refl
filter-mark_all k (h ∷ hs) rows =
    filter-mark_all k hs (map (mark_stored k h) rows) ∙ filter-mark k h rows

covered-mark_all :
    (k : FileKey) (hs gs : List Bytes) (rows : List BlockRow)
    → covered k gs (mark_all k hs rows) ≡ covered k (hs ++ gs) rows
covered-mark_all k [] gs rows = refl
covered-mark_all k (h ∷ hs) gs rows =
    covered-mark_all k hs gs (map (mark_stored k h) rows) ∙ covered-mark k h (hs ++ gs) rows

mark_all-append :
    (k : FileKey) (hs : List Bytes) (h : Bytes) (rows : List BlockRow)
    → mark_all k (hs ++ h ∷ []) rows ≡ map (mark_stored k h) (mark_all k hs rows)
mark_all-append k [] h rows = refl
mark_all-append k (g ∷ hs) h rows = mark_all-append k hs h (map (mark_stored k g) rows)

stored-covered :
    (k : FileKey) (hs : List Bytes) (rows : List BlockRow)
    → (stored_blocks k (mark_all k hs rows) == length (filter (of_file k) rows)) ≡ covered k hs rows
stored-covered k hs rows =
    ap (λ n. stored_blocks k (mark_all k hs rows) == n) (sym (filter-mark_all k hs rows))
    ∙ stored-all k (mark_all k hs rows)
    ∙ sym (covered_nil k (mark_all k hs rows))
    ∙ covered-mark_all k hs [] rows
    ∙ ap (λ gs. covered k gs rows) (append-nil hs)

compare-covered :
    (k : FileKey) (hs : List Bytes) (rows : List BlockRow) (expected : ℕ)
    → length (filter (of_file k) rows) ≡ expected
    → compare_blocks (stored_blocks k (mark_all k hs rows)) expected
      ≡ uploaded (if covered k hs rows then all_blocks else blocks_missing)
compare-covered k hs rows expected e =
    ground
      (arith, stored-covered k hs rows, stored_le k (mark_all k hs rows), filter-mark_all k hs rows)

abbrev pub with_blocks : Database → List BlockRow → Database
with_blocks db rows = record db { blocks = rows }

-- How many blocks a file of a size has: the fewest that hold its bytes, and one at least.
abbrev pub IsBlockCount : ℕ → ℕ → ℕ → Type 0
IsBlockCount n size block_size =
    (1 ≤ n) × (size ≤ n * block_size) × ((n ≡ 1) ⊎ ((n - 1) * block_size < size))

at_least : ℕ → ℕ
at_least n = if leb 1 n then n else 1

at_least-suc : (n : ℕ) → at_least (suc n) ≡ suc n
unfolding at_least
at_least-suc n = ground arith

-- The rounded quotient.
quotient_up :
    (m size block_size : ℕ)
    → 1 ≤ block_size
    → size ≤ suc m * block_size
    → m * block_size < size
    → (size + block_size - 1) / block_size ≡ suc m
quotient_up m size block_size b h l =
    div-eq_of_lt-le {k = suc m} block_size (omega (arith, suc-mul m block_size))
      (omega (arith, suc-mul m block_size, suc-mul (suc m) block_size))

no_bytes : (block_size : ℕ) → 1 ≤ block_size → (0 + block_size - 1) / block_size ≡ 0
no_bytes block_size b = div-eq_of_lt (omega arith)

blocks_by_size :
    (n size block_size : ℕ)
    → 1 ≤ block_size
    → IsBlockCount n size block_size
    → at_least ((size + block_size - 1) / block_size) ≡ n
unfolding at_least
blocks_by_size zero size block_size b h = absurd (omega arith)
blocks_by_size (suc m) zero block_size b (one, fits, inl e) = rw (no_bytes block_size b) (sym e)
blocks_by_size (suc m) zero block_size b (one, fits, inr l) = absurd (omega arith)
blocks_by_size (suc m) (suc size) block_size b (one, fits, inl e) =
    let m_zero : m ≡ 0 = omega arith in
    ap at_least (
      quotient_up m (suc size) block_size b fits
        (subst (λ x. x * block_size < suc size) (sym m_zero) (omega arith)))
    ∙ at_least-suc m
blocks_by_size (suc m) (suc size) block_size b (one, fits, inr l) =
    let whole : suc m - 1 ≡ m = omega arith in
    ap at_least
      (quotient_up m (suc size) block_size b fits (subst (λ x. x * block_size < suc size) whole l))
    ∙ at_least-suc m

expected_blocks-count :
    {E : Type 0} (n size block_size : ℕ)
    → 1 ≤ block_size
    → size + block_size < 2 ^ 63
    → IsBlockCount n size block_size
    → ◌≡◌ {A = Outcome E ℕ} (expected_blocks (pos size) (pos block_size)) (ok n)
unfolding expected_blocks at_least ◌+ℤ◌ ◌-ℤ◌
expected_blocks-count n size block_size b small h =
    ground
      (arith, blocks_by_size n size block_size b h, div-le_self (size + block_size - 1) block_size)

-- For a request of a block of a file whose blocks in the database are the fewest that hold its size,
-- and one at least, update_block_storage_state returns, after the blocks with any hashes were marked
-- as stored before, that all blocks are there exactly if each block of the file was stored or has
-- one of these hashes or that of the request, and else that blocks are missing; the size and the
-- block size, which is not zero, sum to less than 2^63.
pub update_block_storage_state-all_blocks :
    {E : Type 0} (q : OutgoingRequests) (request_id : ℤ) (request : Request) (device_id : DeviceId)
    (db : Database) (r : FileColumns) (hs : List Bytes) (size block_size expected : ℕ)
    → get request_id q ≡ some request
    → lookup (file_key request.folder device_id request.name) db.files ≡ some r
    → r.size ≡ pos size
    → r.block_size ≡ pos block_size
    → 1 ≤ block_size
    → size + block_size < 2 ^ 63
    → IsBlockCount expected size block_size
    → length (filter (of_file (file_key request.folder device_id request.name)) db.blocks)
      ≡ expected
    → has_hash (file_key request.folder device_id request.name) request.hash db.blocks ≡ true
    → ◌≡◌ {A = Outcome E (UploadResult × Database)}
        (update_block_storage_state q request_id device_id
          (with_blocks db (mark_all (file_key request.folder device_id request.name) hs db.blocks)))
        (ok (
          uploaded (
              if covered
                (file_key request.folder device_id request.name)
                (hs ++ request.hash ∷ [])
                db.blocks
              then all_blocks
              else blocks_missing),
          with_blocks db (
              mark_all
                (file_key request.folder device_id request.name)
                (hs ++ request.hash ∷ [])
                db.blocks),
        ))
unfolding update_block_storage_state count_blocks
update_block_storage_state-all_blocks {E} q request_id request device_id db r hs size block_size
      expected e f by_size by_block b small count n h =
    let k = file_key request.folder device_id request.name in
    let rows = mark_all k hs db.blocks in
    let g : ◌≡◌ {A = Outcome E ℕ} (expected_blocks r.size r.block_size) (ok expected) =
      rw (by_size, by_block)
        (expected_blocks-count {E = E} expected size block_size b small count) in
    let some_stored : leb 1 (stored_blocks k (map (mark_stored k request.hash) rows)) ≡ true =
      ground
        (arith, stored-mark k request.hash rows, has_hash-mark_all k request.hash hs db.blocks) in
    rw
      (
        e,
        f,
        some_stored,
        g,
        sym (mark_all-append k hs request.hash db.blocks),
        compare-covered k (hs ++ request.hash ∷ []) db.blocks expected n,
      )
      refl
