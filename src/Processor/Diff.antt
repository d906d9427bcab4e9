-- ===== src/Processor/Diff.antt =====
-- The order of file versions, and what `diff_indices` of src/core/bep_processor.rs finds.
use grizol.Prelude.{
  ◌≡◌, refl, ap, ◌∙◌, Bool, true, false, ◌||◌, Option, none, some, List, [], ◌∷◌, ◌++◌, append-nil,
  append_assoc, if◌then◌else◌, arith,
}
use grizol.Prelude.Keys.{bytes_eq, Dict, lookup}
use grizol.Prelude.Outcome.{Outcome, ok, err, panic, >>=-eq-ok, ensure}
use grizol.Prelude.Bytes.{Bytes}
use grizol.Proto.{FileInfo, Index}
use grizol.Processor.{
  Ordering, less, equal, greater, DiffError, different_folders, IndexDiff, partial_cmp_file_version,
  partial_cmp_file_timestamp, files_by_name, place, diff_loop, diff_indices,
}

-- A file version older than a second, which is older than a third, is older than the third.
partial_cmp_file_version_trans :
    (a b c : FileInfo)
    → partial_cmp_file_version a b ≡ ok (some less)
    → partial_cmp_file_version b c ≡ ok (some less)
    → partial_cmp_file_version a c ≡ ok (some less)
unfolding partial_cmp_file_version
partial_cmp_file_version_trans a b c h k = ground arith

-- A tie of the versions and of the times is a tie of the comparison by time.
pub partial_cmp_file_timestamp_tie :
    (a b : FileInfo)
    → partial_cmp_file_version a b ≡ ok none
    → a.modified_s ≡ b.modified_s
    → a.modified_ns ≡ b.modified_ns
    → partial_cmp_file_timestamp a b ≡ ok equal
unfolding partial_cmp_file_version partial_cmp_file_timestamp
partial_cmp_file_timestamp_tie a b h s n = ground arith

-- A received file that is in conflict with the existing one, neither version being newer, and has
-- the same modification time makes the loop of diff_indices unwind.
pub place-tie :
    (e f : FileInfo) (d : IndexDiff)
    → partial_cmp_file_version e f ≡ ok none
    → e.modified_s ≡ f.modified_s
    → e.modified_ns ≡ f.modified_ns
    → place (some e) f d ≡ panic
unfolding place
place-tie e f d h s n = rw (h, partial_cmp_file_timestamp_tie e f h s n) refl

abbrev is_less : Outcome DiffError (Option Ordering) → Bool
is_less (ok (some less)) = true
is_less (ok (some equal)) = false
is_less (ok (some greater)) = false
is_less (ok none) = false
is_less (err x) = false
is_less panic = false
is_less Outcome.diverge = false

-- A file is new if there is none of its name, or an older one.
abbrev is_newer_than : Option FileInfo → FileInfo → Bool
is_newer_than none f = true
is_newer_than (some e) f = is_less (partial_cmp_file_version e f)

abbrev pub newer_files : Dict Bytes FileInfo → List FileInfo → List FileInfo
newer_files existing [] = []
newer_files existing (f ∷ fs) =
    let rest = newer_files existing fs in
    if is_newer_than (lookup f.name existing) f then f ∷ rest else rest

place-newer :
    (o : Option FileInfo) (f : FileInfo) (d d' : IndexDiff)
    → place o f d ≡ ok d'
    → d'.newly_added_files ≡ d.newly_added_files ++ (if is_newer_than o f then f ∷ [] else [])
unfolding place
place-newer none f d d' h = ground arith
place-newer (some e) f d d' h = ground (arith, append-nil d.newly_added_files)

add_if :
    (b : Bool) (f : FileInfo) (xs ys : List FileInfo)
    → (xs ++ (if b then f ∷ [] else [])) ++ ys ≡ xs ++ (if b then f ∷ ys else ys)
add_if true f xs ys = append_assoc xs (f ∷ []) ys
add_if false f xs ys = ap (λ zs. zs ++ ys) (append-nil xs)

diff_loop-newer :
    (existing : Dict Bytes FileInfo) (fs : List FileInfo) (d d' : IndexDiff)
    → diff_loop existing fs d ≡ ok d'
    → d'.newly_added_files ≡ d.newly_added_files ++ newer_files existing fs
unfolding diff_loop
diff_loop-newer existing [] d d' h = ground (arith, append-nil d.newly_added_files)
diff_loop-newer existing (f ∷ fs) d d' h =
    let (x, e1, e2) = >>=-eq-ok (place (lookup f.name existing) f d) (diff_loop existing fs) h in
    let here = place-newer (lookup f.name existing) f d x e1 in
    let there = diff_loop-newer existing fs x d' e2 in
    there
    ∙ ap (λ xs. xs ++ newer_files existing fs) here
    ∙ add_if (is_newer_than (lookup f.name existing) f) f d.newly_added_files
        (newer_files existing fs)

-- If diff_indices returns, its newly added files are those of the added index, in order, of whose
-- name the existing index has none, or an older version by partial_cmp_file_version.
pub diff_indices-newer :
    (folder : Bytes) (added existing : Index) (d : IndexDiff)
    → diff_indices folder added existing ≡ ok d
    → d.newly_added_files ≡ newer_files (files_by_name existing.files []) added.files
unfolding diff_indices
diff_indices-newer folder added existing d h =
    let (x, e1, e2) =
      >>=-eq-ok
        (ensure (bytes_eq.beq added.folder folder || bytes_eq.beq existing.folder folder)
          different_folders)
        _ h in
    diff_loop-newer (files_by_name existing.files []) added.files _ d e2
