-- ===== src/Processor.antt =====
-- The pure part of the message processor, src/core/bep_processor.rs: which files of a received index
-- are new, and the requests for the blocks that are not stored. `RequestState` is the part of
-- `BepState`, src/core/bep_state.rs, that the requests use.
pub mod Diff
pub mod Ids
pub mod Responses
pub mod Answers
pub mod Handlers
pub mod Queued
pub mod Requested
pub mod Storing
pub mod Integrity
pub mod StoringTests
mod Tests
mod HandlerTests
use grizol.Prelude.{
  ℕ, ◌+◌, ◌-◌, ◌^◌, Bool, true, false, not, ◌&&◌, ◌||◌, Option, none, some, List, [], ◌∷◌, ◌++◌,
  ltb, leb, ◌==◌, if◌then◌else◌,
}
use grizol.Prelude.Int.{ℤ, pos, negsuc, ◌+ℤ◌, ◌-ℤ◌, ltb_ℤ, eqb_ℤ}
use grizol.Prelude.Keys.{bytes_eq, Dict, lookup, insert}
use grizol.Prelude.Outcome.{Outcome, ok, err, panic, ◌>>=◌, ◌>>◌, assert, ensure, unwrap}
use grizol.Prelude.Bytes.{Bytes}
use grizol.Proto.{Counter, FileInfo, Index, Request}
use grizol.DeviceId.{DeviceId}
use grizol.Requests.{Instant, OutgoingRequests, insert_request, remove_old_requests}

pub data Ordering : Type 0 where
  less equal greater : Ordering

abbrev pub compare_values : ℕ → ℕ → Ordering
compare_values a b = if ltb a b then less else if a == b then equal else greater

-- `max_by_key(|c| c.value)`, which takes the last of several.
abbrev pub max_from : Counter → List Counter → Counter
max_from best [] = best
max_from best (c ∷ cs) = max_from (if ltb c.value best.value then best else c) cs

abbrev pub max_by_value : List Counter → Option Counter
max_by_value [] = none
max_by_value (c ∷ cs) = some (max_from c cs)

pub data DiffError : Type 0 where
  different_folders : DiffError

-- `max_counter_a` and `max_counter_b`: a file without a version or without counters unwinds.
unfoldable pub max_counter : FileInfo → Outcome DiffError Counter
max_counter a = do version ← unwrap a.version; unwrap (max_by_value version.counters)

abbrev pub cmp_counters : Counter → Counter → Option Ordering
cmp_counters a b =
    if ltb a.value b.value
    then some less
    else if ltb b.value a.value
    then some greater
    else if a.value == b.value && a.id == b.id
    then some equal
    else none

unfoldable pub partial_cmp_file_version : FileInfo → FileInfo → Outcome DiffError (Option Ordering)
partial_cmp_file_version a b = do
  max_counter_a ← max_counter a
  max_counter_b ← max_counter b
  ok (cmp_counters max_counter_a max_counter_b)

unfoldable pub partial_cmp_file_timestamp : FileInfo → FileInfo → Outcome DiffError Ordering
partial_cmp_file_timestamp a b =
    let by_counters = (do
      max_counter_a ← max_counter a
      max_counter_b ← max_counter b
      ok (compare_values max_counter_a.value max_counter_b.value)) in
    if ltb_ℤ a.modified_s b.modified_s
      || (eqb_ℤ a.modified_s b.modified_s && ltb_ℤ a.modified_ns b.modified_ns)
    then ok less
    else if ltb_ℤ b.modified_s a.modified_s
        || (eqb_ℤ a.modified_s b.modified_s && ltb_ℤ b.modified_ns a.modified_ns)
    then ok greater
    else by_counters

pub record IndexDiff : Type 0 where
  pub newly_added_files : List FileInfo
  pub newly_added_conflicting_files : List FileInfo
  pub existing_conflicting_files : List FileInfo

-- `existing_files`: of two files with one name, the last stays.
abbrev pub files_by_name : List FileInfo → Dict Bytes FileInfo → Dict Bytes FileInfo
files_by_name [] m = m
files_by_name (f ∷ fs) m = files_by_name fs (insert f.name f m)

place_conflict : FileInfo → IndexDiff → Ordering → Outcome DiffError IndexDiff
place_conflict f d less =
    ok (record d { newly_added_conflicting_files = d.newly_added_conflicting_files ++ f ∷ [] })
place_conflict f d greater =
    ok (record d { existing_conflicting_files = d.existing_conflicting_files ++ f ∷ [] })
place_conflict f d equal = panic

place_existing : FileInfo → FileInfo → IndexDiff → Option Ordering → Outcome DiffError IndexDiff
place_existing e f d (some less) =
    ok (record d { newly_added_files = d.newly_added_files ++ f ∷ [] })
place_existing e f d (some equal) = ok d
place_existing e f d (some greater) = ok d
place_existing e f d none = partial_cmp_file_timestamp e f >>= place_conflict f d

-- The body of the loop of `diff_indices`, on what `existing_files` has under the name.
unfoldable pub place : Option FileInfo → FileInfo → IndexDiff → Outcome DiffError IndexDiff
unfolding place_existing place_conflict
place none f d = ok (record d { newly_added_files = d.newly_added_files ++ f ∷ [] })
place (some e) f d = partial_cmp_file_version e f >>= place_existing e f d

unfoldable pub diff_loop :
    Dict Bytes FileInfo → List FileInfo → IndexDiff → Outcome DiffError IndexDiff
diff_loop existing [] d = ok d
diff_loop existing (f ∷ fs) d = place (lookup f.name existing) f d >>= diff_loop existing fs

unfoldable pub diff_indices : Bytes → Index → Index → Outcome DiffError IndexDiff
diff_indices folder added_index existing_index = do
  ensure (bytes_eq.beq added_index.folder folder || bytes_eq.beq existing_index.folder folder)
      different_folders
  diff_loop (files_by_name existing_index.files []) added_index.files (record {
    newly_added_files = [];
    newly_added_conflicting_files = [];
    existing_conflicting_files = [];
  })

pub record BlockInfoExt : Type 0 where
  pub device_id : DeviceId
  pub folder : Bytes
  pub name : Bytes
  pub hash : Bytes
  pub size : ℤ
  pub offset : ℤ

-- `a + b` on `i32`, which unwinds out of range.
abbrev pub add_i32 : {E : Type 0} → ℤ → ℤ → Outcome E ℤ
add_i32 a b =
    let r = a +ℤ b in
    if ltb_ℤ r (pos (2 ^ 31)) && not (ltb_ℤ r (negsuc (2 ^ 31 - 1))) then ok r else panic

abbrev pub sub_i32 : {E : Type 0} → ℤ → ℤ → Outcome E ℤ
sub_i32 a b =
    let r = a -ℤ b in
    if ltb_ℤ r (pos (2 ^ 31)) && not (ltb_ℤ r (negsuc (2 ^ 31 - 1))) then ok r else panic

abbrev pub request_of : ℤ → BlockInfoExt → Request
request_of request_id b = record {
  id = request_id;
  folder = b.folder;
  name = b.name;
  offset = b.offset;
  size = b.size;
  hash = b.hash;
  from_temporary = false;
}

-- The argument is `request_id`, the id of the block before.
unfoldable pub requests_from_blocks :
    {E : Type 0} → ℤ → List BlockInfoExt → Outcome E (List Request)
requests_from_blocks request_id [] = ok []
requests_from_blocks request_id (b ∷ bs) = do
  next ← add_i32 request_id (pos 1)
  rest ← requests_from_blocks next bs
  ok (request_of next b ∷ rest)

abbrev pub later : ℤ → Option ℤ → ℤ
later a none = a
later a (some b) = if ltb_ℤ b a then a else b

-- `requests.iter().map(|x| x.id).max()`
abbrev pub max_id : List Request → Option ℤ
max_id [] = none
max_id (r ∷ rs) = some (later r.id (max_id rs))

abbrev pub unwrap_or : ℤ → Option ℤ → ℤ
unwrap_or a none = a
unwrap_or a (some b) = b

pub record RequestState : Type 0 where
  pub request_id : ℤ
  pub outgoing_requests : OutgoingRequests

abbrev push_some : Option Request → List Request → List Request
push_some none rs = rs
push_some (some r) rs = r ∷ rs

-- The `filter_map` of `insert_requests`. `clock` is the time at which a request is inserted.
unfoldable pub insert_all :
    {E : Type 0}
    → (Request → Instant)
    → List Request
    → OutgoingRequests
    → Outcome E (List Request × OutgoingRequests)
insert_all clock [] s = ok ([], s)
insert_all clock (r ∷ rs) s = do
  (res, s') ← insert_request (clock r) r.id r s
  (more, s'') ← insert_all clock rs s'
  ok (push_some res more, s'')

unfoldable pub insert_requests :
    {E : Type 0}
    → Instant
    → (Request → Instant)
    → List Request
    → OutgoingRequests
    → Outcome E (List Request × OutgoingRequests)
insert_requests now clock requests s = remove_old_requests now s >>= insert_all clock requests

unfoldable pub store_outgoing_requests :
    {E : Type 0}
    → Instant
    → (Request → Instant)
    → List BlockInfoExt
    → RequestState
    → Outcome E (List Request × RequestState)
store_outgoing_requests now clock unstored_blocks state = do
  requests ← requests_from_blocks state.request_id unstored_blocks
  let max_req_id = unwrap_or state.request_id (max_id requests)
  val ← sub_i32 max_req_id state.request_id
  request_id ← add_i32 state.request_id val
  (inserted, outgoing_requests) ← insert_requests now clock requests state.outgoing_requests
  ok (inserted, record { request_id = request_id; outgoing_requests = outgoing_requests })
