-- ===== src/State/Cache.antt =====
-- The cache of files that are read from a remote storage, its part of src/core/bep_state.rs: the files that
-- are in it, and which of them make room for a new one. Of two files of the same age the one of the earlier
-- row goes first, which the statement leaves open. The clock is an argument.
use grizol.Prelude.{
  ℕ, ◌-◌, Bool, Option, none, some, List, [], ◌∷◌, ◌++◌, length, leb, ◌==◌, if◌then◌else◌,
}
use grizol.Prelude.Int.{ℤ, pos, negsuc, ltb_ℤ}
use grizol.Prelude.Keys.{int_eq, Dict, lookup, erase}
use grizol.Prelude.Outcome.{Outcome, ok, panic, ◌>>=◌, ◌>>◌, assert}
use grizol.Prelude.Bytes.{Bytes}
use grizol.DeviceId.{DeviceId}
use grizol.Requests.{add_usize}
use grizol.State.{file_key, has_file}
use grizol.State.Tables.{FileKey, file_key_eq, FileColumns, Database, any, filter}

-- COUNT of the rows of the file; any other count than one is `false`.
unfoldable pub is_file_in_read_cache : DeviceId → Bytes → Bytes → Database → Bool
is_file_in_read_cache device_id folder file db =
    length (filter (λ row. file_key_eq.beq row.0 (file_key folder device_id file)) db.cache) == 1

-- A file that is in the cache keeps its timestamp.
unfoldable pub update_read_cache :
    {E : Type 0} → ℤ → DeviceId → Bytes → Bytes → Database → Outcome E Database
update_read_cache now device_id folder file db = do
  let k = file_key folder device_id file
  assert (has_file k db)
  ok (
      if any (λ row. file_key_eq.beq row.0 k) db.cache
      then db
      else record db { cache = db.cache ++ (k, now) ∷ [] })

pub record CachedFile : Type 0 where
  pub file : FileKey
  pub timestamp_added : ℤ
  pub size : ℤ

-- The files of the type `FILE` alone are counted.
abbrev pub with_size : FileKey → ℤ → Option FileColumns → List CachedFile → List CachedFile
with_size k t none rest = rest
with_size k t (some r) rest =
    if int_eq.beq r.type_code (pos 0)
    then record { file = k; timestamp_added = t; size = r.size } ∷ rest
    else rest

abbrev pub join_sizes : Dict FileKey FileColumns → Dict FileKey ℤ → List CachedFile
join_sizes files [] = []
join_sizes files ((k, t) ∷ rows) = with_size k t (lookup k files) (join_sizes files rows)

abbrev pub place_by_age : CachedFile → List CachedFile → List CachedFile
place_by_age f [] = f ∷ []
place_by_age f (g ∷ gs) =
    let rest = place_by_age f gs in
    if ltb_ℤ g.timestamp_added f.timestamp_added then g ∷ rest else f ∷ g ∷ gs

abbrev pub sort_by_age : List CachedFile → List CachedFile
sort_by_age [] = []
sort_by_age (f ∷ fs) = place_by_age f (sort_by_age fs)

-- SELECT ... JOIN ... ORDER BY timestamp_added ASC
unfoldable pub cached_files : Database → List CachedFile
cached_files db = sort_by_age (join_sizes db.files db.cache)

-- `u64::try_from(size).unwrap()`
abbrev pub to_u64 : {E : Type 0} → ℤ → Outcome E ℕ
to_u64 (pos n) = ok n
to_u64 (negsuc n) = panic

unfoldable pub sum_from : {E : Type 0} → ℕ → List CachedFile → Outcome E ℕ
sum_from n [] = ok n
sum_from n (f ∷ fs) = do size ← to_u64 f.size; sum ← add_usize n size; sum_from sum fs

-- The loop that takes files until enough bytes are available.
unfoldable pub take_files : {E : Type 0} → ℕ → ℕ → List CachedFile → Outcome E (List CachedFile)
take_files needed_bytes available_bytes [] = ok []
take_files needed_bytes available_bytes (f ∷ fs) =
    if leb needed_bytes available_bytes then ok [] else do
      size ← to_u64 f.size
      available ← add_usize available_bytes size
      rest ← take_files needed_bytes available fs
      ok (f ∷ rest)

abbrev pub erase_files : List CachedFile → Dict FileKey ℤ → Dict FileKey ℤ
erase_files [] rows = rows
erase_files (f ∷ fs) rows = erase_files fs (erase f.file rows)

-- What is returned are the folders and the names of these files. `cache_size - used_bytes` unwinds where
-- more is used.
unfoldable pub free_read_cache :
    {E : Type 0} → ℕ → ℕ → Database → Outcome E (List CachedFile × Database)
free_read_cache cache_size needed_bytes db = do
  let files = cached_files db
  used_bytes ← sum_from 0 files
  assert (leb used_bytes cache_size)
  removed_files ← take_files needed_bytes (cache_size - used_bytes) files
  ok (removed_files, record db { cache = erase_files removed_files db.cache })
