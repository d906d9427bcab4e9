-- ===== src/Fuse/Listing.antt =====
-- What a caller of `readdir_mem` of src/fuse.rs gets that goes on from the offset of the last entry, as the
-- kernel does.
use grizol.Prelude.{
  ℕ, zero, suc, ◌+◌, ◌-◌, ◌≤◌, ◌<◌, ◌≡◌, refl, sym, ap, ◌∙◌, Bool, true, false, Option, none, some,
  List, [], ◌∷◌, ◌++◌, append-nil, append_assoc, length, ltb, ◌==◌, if◌then◌else◌, arith, All,
}
use grizol.Prelude.Int.{ℤ, pos, negsuc}
use grizol.Prelude.Outcome.{Outcome, ok, diverge, ◌>>=◌, >>=-ok}
use grizol.Prelude.Bytes.{Bytes}
use grizol.Fuse.{GrizolFsFileType, file, folder, FsNode, children_of}
use grizol.Fuse.Attributes.{
  FileKind, regular_file, directory, symlink, file_type, type_of, id_of, get_node, GrizolFs,
  folders_files,
}
use grizol.Fuse.Memory.{
  DirEntry, DirReply, entries, dir_error, IsFull, kind_of, children_list, skip, add_nodes, Listed,
  readdir_mem, readdir_in, entries_of_found, Called,
}

-- The caller, with a buffer for each of its calls.
next_offset : ℕ → List DirEntry → ℕ
next_offset i [] = i
next_offset i (e ∷ es) = next_offset e.offset es

abbrev and_more :
    {E : Type 0} → DirReply → (ℕ → Outcome E (List DirEntry)) → Outcome E (List DirEntry)
and_more (dir_error e) more = ok []
and_more (entries []) more = ok []
and_more (entries (e ∷ es)) more = more (next_offset e.offset es) >>= λ rest. ok ((e ∷ es) ++ rest)

unfoldable pub list_dir :
    {E : Type 0} → ℕ → Listed → (ℕ → IsFull) → ℕ → ℕ → GrizolFs → Outcome E (List DirEntry)
unfolding next_offset
list_dir zero listed buffers ino offset fs = diverge
list_dir (suc calls) listed buffers ino offset fs =
    readdir_mem listed (buffers calls) 0 none ino (pos offset) fs >>= λ x.
    and_more x.0 (λ next. list_dir calls listed buffers ino next x.1)

-- Whether the type of the node is known, and which it is.
abbrev pub kind_of_code : ℤ → Option FileKind
kind_of_code (pos n) =
    if n == 0
    then some regular_file
    else if n == 1
    then some directory
    else if ltb n 5
    then some symlink
    else none
kind_of_code (negsuc n) = none

abbrev pub kind_at : GrizolFsFileType → Option FileKind
kind_at (folder f) = some directory
kind_at (file f) = kind_of_code f.file_info.type_code

abbrev kind_or : Option FileKind → FileKind
kind_or none = directory
kind_or (some k) = k

abbrev pub HasKind : Bytes × FsNode → Type 0
HasKind c = (k : FileKind) × (kind_at (type_of c.1) ≡ some k)

abbrev entry_at : ℕ → Bytes → FsNode → DirEntry
entry_at i name n = record {
  ino = id_of n;
  offset = i + 1;
  kind = kind_or (kind_at (type_of n));
  name = name;
}

-- The entries of the children from the number `i` on.
abbrev pub all_entries : ℕ → List (Bytes × FsNode) → List DirEntry
all_entries i [] = []
all_entries i ((name, n) ∷ cs) = entry_at i name n ∷ all_entries (i + 1) cs

fill : IsFull → List DirEntry → List DirEntry → List DirEntry
fill is_full added [] = added
fill is_full added (e ∷ es) =
    let more = fill is_full (added ++ e ∷ []) es in if is_full added e then added else more

file_type-kind_of_code :
    {E : Type 0} (n : ℤ) (k : FileKind)
    → kind_of_code n ≡ some k
    → ◌≡◌ {A = Outcome E FileKind} (file_type n) (ok (kind_or (kind_of_code n)))
file_type-kind_of_code (pos n) k e = ground arith
file_type-kind_of_code (negsuc n) k e = ground arith

kind_of-kind_at :
    {E : Type 0} (t : GrizolFsFileType) (k : FileKind)
    → kind_at t ≡ some k
    → ◌≡◌ {A = Outcome E FileKind} (kind_of t) (ok (kind_or (kind_at t)))
kind_of-kind_at (folder f) k e = refl
kind_of-kind_at (file f) k e = file_type-kind_of_code f.file_info.type_code k e

ok_if :
    {E A : Type 0} (b : Bool) (x y : A) (r : Outcome E A)
    → r ≡ ok y
    → (if b then ok x else r) ≡ ok (if b then x else y)
ok_if true x y r e = refl
ok_if false x y r e = e

add_nodes-fill :
    {E : Type 0} (is_full : IsFull) (i : ℕ) (added : List DirEntry) (cs : List (Bytes × FsNode))
    → All HasKind cs
    → ◌≡◌ {A = Outcome E (List DirEntry)}
        (add_nodes is_full i added cs)
        (ok (fill is_full added (all_entries i cs)))
unfolding add_nodes fill
add_nodes-fill is_full i added [] h = refl
add_nodes-fill is_full i added ((name, n) ∷ cs) h =
    let next = entry_at i name n in
    >>=-ok _ (kind_of-kind_at (type_of n) h.0.0 h.0.1) (
      ok_if (is_full added next) added _ _
        (add_nodes-fill is_full (i + 1) (added ++ next ∷ []) cs h.1))

-- What a buffer takes of the entries, and where the rest begins.
abbrev Takes : IsFull → ℕ → List DirEntry → List (Bytes × FsNode) → List DirEntry → Type 0
Takes is_full i added cs ps =
    (fill is_full added (all_entries i cs) ≡ added ++ ps)
    × (all_entries i cs ≡ ps ++ all_entries (i + length ps) (skip (length ps) cs))
    × (next_offset i ps ≡ i + length ps)

skip_zero {ℓ} : {A : Type ℓ} (xs : List A) → skip 0 xs ≡ xs
skip_zero [] = refl
skip_zero (x ∷ xs) = refl

Takes-if :
    (b : Bool) (is_full : IsFull) (i : ℕ) (added : List DirEntry) (name : Bytes) (n : FsNode)
    (cs : List (Bytes × FsNode)) (ps : List DirEntry)
    → is_full added (entry_at i name n) ≡ b
    → Takes is_full (i + 1) (added ++ entry_at i name n ∷ []) cs ps
    → Takes is_full i added ((name, n) ∷ cs) (if b then [] else entry_at i name n ∷ ps)
unfolding fill next_offset
Takes-if true is_full i added name n cs ps full t =
    let same : i ≡ i + 0 = omega arith in
    (
      rw full (sym (append-nil added)),
      ap (λ j. entry_at j name n ∷ all_entries (j + 1) cs) same,
      same,
    )
Takes-if false is_full i added name n cs ps room t =
    let same : i + 1 + length ps ≡ i + suc (length ps) = omega arith in
    (
      rw room (t.0 ∙ append_assoc added (entry_at i name n ∷ []) ps),
      ap (λ es. entry_at i name n ∷ es)
          (t.1 ∙ ap (λ j. ps ++ all_entries j (skip (length ps) cs)) same),
      t.2 ∙ same,
    )

taken : IsFull → ℕ → List DirEntry → List (Bytes × FsNode) → List DirEntry
taken is_full i added [] = []
taken is_full i added ((name, n) ∷ cs) =
    let rest = taken is_full (i + 1) (added ++ entry_at i name n ∷ []) cs in
    if is_full added (entry_at i name n) then [] else entry_at i name n ∷ rest

taken_lem :
    (is_full : IsFull) (i : ℕ) (added : List DirEntry) (cs : List (Bytes × FsNode))
    → Takes is_full i added cs (taken is_full i added cs)
unfolding fill next_offset taken
taken_lem is_full i added [] = (sym (append-nil added), refl, omega arith)
taken_lem is_full i added ((name, n) ∷ cs) =
    Takes-if (is_full added (entry_at i name n)) is_full i added name n cs _ refl
      (taken_lem is_full (i + 1) (added ++ entry_at i name n ∷ []) cs)

skip-skip {ℓ} : {A : Type ℓ} (a b : ℕ) (xs : List A) → skip a (skip b xs) ≡ skip (b + a) xs
skip-skip a b [] = refl
skip-skip a zero (x ∷ xs) = let same : a ≡ 0 + a = omega arith in ap (λ n. skip n (x ∷ xs)) same
skip-skip a (suc b) (x ∷ xs) =
    let same : suc (b + a) ≡ suc b + a = omega arith in
    skip-skip a b xs ∙ ap (λ n. skip n (x ∷ xs)) same

length-skip {ℓ} : {A : Type ℓ} (n : ℕ) (xs : List A) → length (skip n xs) ≡ length xs - n
length-skip n [] = omega arith
length-skip zero (x ∷ xs) = omega arith
length-skip (suc n) (x ∷ xs) = omega (arith, length-skip n xs)

readdir_in-entries :
    {E : Type 0} (listed : Listed) (is_full : IsFull) (ino offset : ℕ) (fs : GrizolFs)
    (dir : FsNode)
    → get_node ino fs.fs_mem ≡ some (some dir)
    → All HasKind (skip offset (listed (children_list (children_of dir))))
    → ◌≡◌ {A = Called E DirReply} (readdir_in listed is_full ino (pos offset) fs) (
        ok (
          entries
              (taken is_full offset [] (skip offset (listed (children_list (children_of dir))))),
          fs,
        ))
readdir_in-entries {E} listed is_full ino offset fs dir found known =
    let rest = skip offset (listed (children_list (children_of dir))) in
    ap (λ r. entries_of_found {E = E} listed is_full offset r fs) found
    ∙ >>=-ok _ (add_nodes-fill is_full offset [] rest known)
        (ap (λ es. ok (entries es, fs)) (taken_lem is_full offset [] rest).0)

-- One call, with what the further calls give.
and_more-taken :
    {E : Type 0} (is_full : IsFull) (offset : ℕ) (rest : List (Bytes × FsNode))
    (more : ℕ → Outcome E (List DirEntry))
    → ((e : DirEntry) → is_full [] e ≡ false)
    → ((d : ℕ)
        → 1 ≤ d
        → 1 ≤ length rest
        → more (offset + d) ≡ ok (all_entries (offset + d) (skip d rest)))
    → and_more (entries (taken is_full offset [] rest)) more ≡ ok (all_entries offset rest)
unfolding taken next_offset
and_more-taken is_full offset [] more room ih = refl
and_more-taken is_full offset ((name, n) ∷ cs) more room ih =
    let first = entry_at offset name n in
    let ps = taken is_full (offset + 1) (first ∷ []) cs in
    let t =
      Takes-if false is_full offset [] name n cs ps (room first)
        (taken_lem is_full (offset + 1) (first ∷ []) cs) in
    rw (room first)
      (>>=-ok _ (ap more t.2 ∙ ih (suc (length ps)) (omega arith) (omega arith)) (ap ok (sym t.1)))

All-skip {ℓ κ} : {A : Type ℓ} (P : A → Type κ) (n : ℕ) (xs : List A) → All P xs → All P (skip n xs)
All-skip P n [] h = h
All-skip P zero (x ∷ xs) h = h
All-skip P (suc n) (x ∷ xs) h = All-skip P n xs h.1

-- From an offset on, the caller gets the entries that are left.
list_dir-from :
    {E : Type 0} (listed : Listed) (buffers : ℕ → IsFull) (ino : ℕ) (fs : GrizolFs) (dir : FsNode)
    (calls offset : ℕ)
    → get_node ino fs.fs_mem ≡ some (some dir)
    → All HasKind (listed (children_list (children_of dir)))
    → ((k : ℕ) (e : DirEntry) → buffers k [] e ≡ false)
    → length (skip offset (listed (children_list (children_of dir)))) < calls
    → ◌≡◌ {A = Outcome E (List DirEntry)}
        (list_dir calls listed buffers ino offset fs)
        (ok (all_entries offset (skip offset (listed (children_list (children_of dir))))))
unfolding list_dir readdir_mem folders_files
list_dir-from listed buffers ino fs dir zero offset found known room le = absurd (omega arith)
list_dir-from listed buffers ino fs dir (suc calls) offset found known room le =
    let cs = listed (children_list (children_of dir)) in
    >>=-ok _
      (readdir_in-entries listed (buffers calls) ino offset fs dir found
        (All-skip HasKind offset cs known))
      (and_more-taken (buffers calls) offset (skip offset cs) _ (room calls) (λ d pos_d left.
        list_dir-from listed buffers ino fs dir calls (offset + d) found known room (
          omega
            (arith, length-skip {0} d (skip offset cs), ap (length {0}) (skip-skip d offset cs)))
        ∙ ap (λ xs. ok (all_entries (offset + d) xs)) (sym (skip-skip d offset cs))))

-- A caller that goes on from the offset of the last entry until it gets none, whose buffers take an
-- entry at least in each call, and whose calls are more than the children, gets from readdir_mem on
-- a directory whose children have known types each child once, in order, whatever the order in which
-- the children are listed, as long as it stays the same.
pub list_dir-all_entries :
    {E : Type 0} (listed : Listed) (buffers : ℕ → IsFull) (ino : ℕ) (fs : GrizolFs) (dir : FsNode)
    (calls : ℕ)
    → get_node ino fs.fs_mem ≡ some (some dir)
    → All HasKind (listed (children_list (children_of dir)))
    → ((k : ℕ) (e : DirEntry) → buffers k [] e ≡ false)
    → length (listed (children_list (children_of dir))) < calls
    → ◌≡◌ {A = Outcome E (List DirEntry)}
        (list_dir calls listed buffers ino 0 fs)
        (ok (all_entries 0 (listed (children_list (children_of dir)))))
list_dir-all_entries listed buffers ino fs dir calls found known room le =
    let cs = listed (children_list (children_of dir)) in
    list_dir-from listed buffers ino fs dir calls 0 found known room (rw skip_zero le)
    ∙ ap (λ xs. ok (all_entries 0 xs)) (skip_zero cs)
