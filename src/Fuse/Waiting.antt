-- ===== src/Fuse/Waiting.antt =====
-- Which files of the queue of `refresh_expired_folders_files`, src/fuse.rs, can be inserted.
use grizol.Prelude.{
  ℕ, zero, suc, ◌+◌, ◌^◌, ◌≤◌, ◌≡◌, refl, sym, ap, ◌∙◌, Bool, true, false, ◌||◌, Option, none, some,
  List, [], ◌∷◌, ◌++◌, length, ltb, arith, All, All-zip, All-append, All-map,
}
use grizol.Prelude.Outcome.{Outcome, ok, >>=-ok, unwrap}
use grizol.Prelude.Keys.{nat_eq, insert}
use grizol.Prelude.Bytes.{Bytes}
use grizol.State.Tables.{any}
use grizol.State.Rows.{any-append}
use grizol.Fuse.{
  mem_of, GrizolFsMem, GrizolFileInfo, node, file, empty, as_u64, entries_start, entry_id,
  split_slash, split_path, parents, last, insert_file, insert_files,
}
use grizol.Fuse.Paths.{
  path_eq, has_path, parents-last, insert_at-some, insert_at-none, has_path-insert_at,
  has_path-insert_at_le,
}

-- Whether the parent of the file is in the tree.
abbrev pub is_ready : GrizolFsMem → GrizolFileInfo → Bool
is_ready m f = has_path (parents (split_path f)) m.root

-- Whether one of the files has the path.
abbrev pub is_path_of : List Bytes → List GrizolFileInfo → Bool
is_path_of q fs = any (λ f. path_eq.beq (split_path f) q) fs

-- The number of the file's node fits a `u64`.
abbrev pub fits : GrizolFileInfo → Bool
fits f = ltb (as_u64 f.id + entries_start) (2 ^ 64)

abbrev AreDistinct : List GrizolFileInfo → Type 0
AreDistinct [] = Unit
AreDistinct (f ∷ fs) =
    (All (λ (g : GrizolFileInfo). path_eq.beq (split_path f) (split_path g) ≡ false) fs)
    × AreDistinct fs

-- The files have different paths, none of them in the tree, and the parent of each is in the tree or one
-- of the files.
abbrev pub IsQueue : List GrizolFileInfo → GrizolFsMem → Type 0
IsQueue fs m =
    (All (λ (f : GrizolFileInfo). fits f ≡ true) fs)
    × (All (λ (f : GrizolFileInfo). (is_ready m f || is_path_of (parents (split_path f)) fs) ≡ true)
        fs)
    × (All (λ (f : GrizolFileInfo). has_path (split_path f) m.root ≡ false) fs)
    × AreDistinct fs

last-some : (x : Bytes) (xs : List Bytes) → (y : Bytes) × (last (x ∷ xs) ≡ some y)
last-some x [] = (x, refl)
last-some x (y ∷ ys) = last-some y ys

pub insert_file_ready :
    {E : Type 0} (f : GrizolFileInfo) (m : GrizolFsMem)
    → fits f ≡ true
    → is_ready m f ≡ true
    → (m' : GrizolFsMem) × (◌≡◌ {A = Outcome E (Option GrizolFsMem)}
        (insert_file f m)
        (ok (some m')))
      × (has_path (split_path f) m.root ≡ false
          → (q : List Bytes)
          → has_path q m'.root ≡ (path_eq.beq (split_path f) q || has_path q m.root))
      × ((q : List Bytes)
          → has_path q m'.root ≡ true
          → (path_eq.beq (split_path f) q || has_path q m.root) ≡ true)
unfolding insert_file entry_id
insert_file_ready {E} f m fit ready =
    let path = split_path f in
    let id = as_u64 f.id + entries_start in
    let new = node id (file f) empty in
    let (name, is_last) = last-some f.folder (split_slash f.file_info.name) in
    let (root, inserted) = insert_at-some (parents path) name new m.root ready in
    let m' : GrizolFsMem = record { root = root; nodes = insert id path m.nodes } in
    let whole = parents-last path name is_last in
    let numbered : ◌≡◌ {A = Outcome E ℕ} (entry_id f.id) (ok id) = rw fit refl in
    (
      m',
      >>=-ok _ (ap unwrap is_last) (ap (mem_of f m) inserted ∙ >>=-ok _ numbered refl),
      λ absent q.
          has_path-insert_at (parents path) name new m.root root q refl
            (ap (λ p. has_path p m.root) (sym whole) ∙ absent) inserted
          ∙ ap (λ p. path_eq.beq p q || has_path q m.root) (sym whole),
      λ q h.
          ap (λ p. path_eq.beq p q || has_path q m.root) whole
          ∙ has_path-insert_at_le (parents path) name new m.root root q refl inserted h,
    )

pub insert_file_waits :
    {E : Type 0} (f : GrizolFileInfo) (m : GrizolFsMem)
    → is_ready m f ≡ false
    → ◌≡◌ {A = Outcome E (Option GrizolFsMem)} (insert_file f m) (ok none)
unfolding insert_file entry_id
insert_file_waits f m waits =
    let path = split_path f in
    let id = as_u64 f.id + entries_start in
    let (name, is_last) = last-some f.folder (split_slash f.file_info.name) in
    >>=-ok _ (ap unwrap is_last)
      (ap (mem_of f m) (insert_at-none (parents path) name (node id (file f) empty) m.root waits))

-- The next round of the loop.
pub insert_files_ready :
    {E : Type 0} (k : ℕ) (f : GrizolFileInfo) (fs : List GrizolFileInfo) (m m' : GrizolFsMem)
    → ◌≡◌ {A = Outcome E (Option GrizolFsMem)} (insert_file f m) (ok (some m'))
    → ◌≡◌ {A = Outcome E GrizolFsMem} (insert_files (suc k) (f ∷ fs) m) (insert_files k fs m')
unfolding insert_files
insert_files_ready k f fs m m' e = >>=-ok _ e refl

pub insert_files_waits :
    {E : Type 0} (k : ℕ) (f : GrizolFileInfo) (fs : List GrizolFileInfo) (m : GrizolFsMem)
    → ◌≡◌ {A = Outcome E (Option GrizolFsMem)} (insert_file f m) (ok none)
    → ◌≡◌ {A = Outcome E GrizolFsMem}
        (insert_files (suc k) (f ∷ fs) m)
        (insert_files k (fs ++ f ∷ []) m)
unfolding insert_files
insert_files_waits k f fs m e = >>=-ok _ e refl

pub is_path_of-rotate :
    (q : List Bytes) (f : GrizolFileInfo) (fs : List GrizolFileInfo)
    → is_path_of q (fs ++ f ∷ []) ≡ is_path_of q (f ∷ fs)
is_path_of-rotate q f fs =
    ground (arith, any-append (λ f. path_eq.beq (split_path f) q) fs (f ∷ []))

AreDistinct-rotate :
    (f : GrizolFileInfo) (fs : List GrizolFileInfo)
    → All (λ (g : GrizolFileInfo). path_eq.beq (split_path f) (split_path g) ≡ false) fs
    → AreDistinct fs
    → AreDistinct (fs ++ f ∷ [])
AreDistinct-rotate f [] new d = (tt, tt)
AreDistinct-rotate f (g ∷ gs) (n, new) (h, d) = (
  All-append (λ x. path_eq.beq (split_path g) (split_path x) ≡ false) gs (f ∷ []) h
      (
        ground (
          arith,
          n,
          path_eq.beq_iff (split_path f) (split_path g),
          path_eq.beq_iff (split_path g) (split_path f),
        ),
        tt,
      ),
  AreDistinct-rotate f gs new d,
)

pub IsQueue-rotate :
    (f : GrizolFileInfo) (fs : List GrizolFileInfo) (m : GrizolFsMem)
    → IsQueue (f ∷ fs) m
    → IsQueue (fs ++ f ∷ []) m
IsQueue-rotate f fs m ((fit, all_fit), (s, supported), (a, absent), (new, distinct)) = (
  All-append (λ g. fits g ≡ true) fs (f ∷ []) all_fit (fit, tt),
  All-append (λ g. (is_ready m g || is_path_of (parents (split_path g)) (fs ++ f ∷ [])) ≡ true) fs
      (f ∷ [])
      (All-map fs
        (λ g h. ap (λ b. is_ready m g || b) (is_path_of-rotate (parents (split_path g)) f fs) ∙ h)
        supported)
      (ap (λ b. is_ready m f || b) (is_path_of-rotate (parents (split_path f)) f fs) ∙ s, tt),
  All-append (λ g. has_path (split_path g) m.root ≡ false) fs (f ∷ []) absent (a, tt),
  AreDistinct-rotate f fs new distinct,
)

-- After the first file is inserted.
pub IsQueue-insert :
    (f : GrizolFileInfo) (fs : List GrizolFileInfo) (m m' : GrizolFsMem)
    → ((q : List Bytes) → has_path q m'.root ≡ (path_eq.beq (split_path f) q || has_path q m.root))
    → IsQueue (f ∷ fs) m
    → IsQueue fs m'
IsQueue-insert f fs m m' paths ((fit, all_fit), (s, supported), (a, absent), (new, distinct)) = (
  all_fit,
  All-map fs (λ g h. ground (arith, paths (parents (split_path g)), h)) supported,
  All-zip fs (λ g h n. paths (split_path g) ∙ ground (arith, h, n)) absent new,
  distinct,
)

find_next :
    (P : GrizolFileInfo → Type 0) (q : List Bytes) (f : GrizolFileInfo) (fs : List GrizolFileInfo)
    (b : Bool)
    → path_eq.beq (split_path f) q ≡ b
    → (b || is_path_of q fs) ≡ true
    → P f
    → (is_path_of q fs ≡ true
        → (xs : List GrizolFileInfo) × (g : GrizolFileInfo) × (ys : List GrizolFileInfo) × (fs
            ≡ xs ++ g ∷ ys)
          × (split_path g ≡ q)
          × P g)
    → (xs : List GrizolFileInfo) × (g : GrizolFileInfo) × (ys : List GrizolFileInfo) × (f ∷ fs
        ≡ xs ++ g ∷ ys)
      × (split_path g ≡ q)
      × P g
find_next P q f fs true e h p next = ([], f, fs, refl, (path_eq.beq_iff (split_path f) q).0 e, p)
find_next P q f fs false e h p next =
    let (xs, g, ys, parts, same, found) = next h in
    (f ∷ xs, g, ys, ap (λ l. f ∷ l) parts, same, found)

-- A file with the path, where it stands in the queue.
find_path :
    (P : GrizolFileInfo → Type 0) (q : List Bytes) (fs : List GrizolFileInfo)
    → is_path_of q fs ≡ true
    → All P fs
    → (xs : List GrizolFileInfo) × (g : GrizolFileInfo) × (ys : List GrizolFileInfo) × (fs
        ≡ xs ++ g ∷ ys)
      × (split_path g ≡ q)
      × P g
find_path P q [] h ps = ground arith
find_path P q (f ∷ fs) h (p, ps) =
    find_next P q f fs (path_eq.beq (split_path f) q) refl h p (λ h. find_path P q fs h ps)

parents_shorter : (x : Bytes) (xs : List Bytes) → suc (length (parents (x ∷ xs))) ≡ length (x ∷ xs)
parents_shorter x [] = refl
parents_shorter x (y ∷ ys) = ap suc (parents_shorter y ys)

-- One of the files can be inserted.
abbrev HasReady : List GrizolFileInfo → GrizolFsMem → Type 0
HasReady fs m =
    (xs : List GrizolFileInfo) × (g : GrizolFileInfo) × (ys : List GrizolFileInfo) × (fs
      ≡ xs ++ g ∷ ys)
    × (is_ready m g ≡ true)

ready_or_parent :
    (b : Bool) (xs : List GrizolFileInfo) (g : GrizolFileInfo) (ys fs : List GrizolFileInfo)
    (m : GrizolFsMem)
    → is_ready m g ≡ b
    → fs ≡ xs ++ g ∷ ys
    → (b || is_path_of (parents (split_path g)) fs) ≡ true
    → (is_path_of (parents (split_path g)) fs ≡ true → HasReady fs m)
    → HasReady fs m
ready_or_parent true xs g ys fs m ready e s parent = (xs, g, ys, e, ready)
ready_or_parent false xs g ys fs m waits e s parent = parent s

-- The parent of a file has a shorter path.
pub find_ready :
    (k : ℕ) (q : List Bytes) (fs : List GrizolFileInfo) (m : GrizolFsMem)
    → length q ≤ k
    → is_path_of q fs ≡ true
    → All
        (λ (f : GrizolFileInfo). (is_ready m f || is_path_of (parents (split_path f)) fs) ≡ true)
        fs
    → HasReady fs m
find_ready zero q fs m short h supported =
    let (xs, g, ys, parts, same, s) =
      find_path (λ f. (is_ready m f || is_path_of (parents (split_path f)) fs) ≡ true) q fs h
        supported in
    let long = ap length same in ground (arith, long)
find_ready (suc k) q fs m short h supported =
    let (xs, g, ys, parts, same, s) =
      find_path (λ f. (is_ready m f || is_path_of (parents (split_path f)) fs) ≡ true) q fs h
        supported in
    let long = ap length same in
    let shorter = parents_shorter g.folder (split_slash g.file_info.name) in
    ready_or_parent (is_ready m g) xs g ys fs m refl parts s
      (λ h. find_ready k (parents (split_path g)) fs m (omega arith) h supported)
