-- ===== src/Fuse/Numbered.antt =====
-- Under which paths and numbers the tree of src/fuse.rs has the files that the loop inserted.
use grizol.Prelude.{
  ℕ, zero, suc, ◌+◌, ◌≡◌, refl, sym, ap, ◌∙◌, Bool, true, false, ◌||◌, Option, none, some, List, [],
  ◌∷◌, ◌++◌, ◌==◌, if◌then◌else◌, arith, All, All-append, All-map,
}
use grizol.Prelude.Keys.{nat_eq, lookup, insert, lookup-insert}
use grizol.Prelude.Outcome.{Outcome, ok, >>=-ok, >>=-eq-ok, unwrap}
use grizol.Prelude.Bytes.{Bytes}
use grizol.Fuse.{
  GrizolFileInfo, GrizolFsMem, FsNode, node, file, empty, as_u64, entries_start, entry_id,
  split_path, parents, last, insert_at, mem_of, insert_file, insert_files,
}
use grizol.Fuse.Paths.{path_eq, has_path, parents-last}
use grizol.Fuse.Waiting.{
  is_ready, fits, IsQueue, insert_file_ready, insert_file_waits, insert_files_ready,
  insert_files_waits, IsQueue-rotate, IsQueue-insert,
}
use grizol.Fuse.Headers.{header_at, header_at-insert_at}

-- The number of a file's node, where it fits a `u64`.
abbrev pub number : GrizolFileInfo → ℕ
number f = as_u64 f.id + entries_start

abbrev pub HaveNumbers : List GrizolFileInfo → Type 0
HaveNumbers [] = Unit
HaveNumbers (f ∷ fs) =
    (All (λ (g : GrizolFileInfo). (number f == number g) ≡ false) fs) × HaveNumbers fs

HaveNumbers-rotate :
    (f : GrizolFileInfo) (fs : List GrizolFileInfo)
    → All (λ (g : GrizolFileInfo). (number f == number g) ≡ false) fs
    → HaveNumbers fs
    → HaveNumbers (fs ++ f ∷ [])
HaveNumbers-rotate f [] new d = (tt, tt)
HaveNumbers-rotate f (g ∷ gs) (n, new) (h, d) = (
  All-append (λ x. (number g == number x) ≡ false) gs (f ∷ []) h (ground (arith, n), tt),
  HaveNumbers-rotate f gs new d,
)

-- The tree has the file under its path, and the number stands for that path.
abbrev pub Shows : GrizolFsMem → GrizolFileInfo → Type 0
Shows m f =
    (header_at (split_path f) m.root ≡ some (number f, file f))
    × (lookup (number f) m.nodes ≡ some (split_path f))

-- The rest of the tree is as before.
abbrev Keeps : List GrizolFileInfo → GrizolFsMem → GrizolFsMem → Type 0
Keeps fs m m' =
    ((q : List Bytes) → has_path q m.root ≡ true → header_at q m'.root ≡ header_at q m.root)
    × ((i : ℕ)
        → All (λ (g : GrizolFileInfo). (number g == i) ≡ false) fs
        → lookup i m'.nodes ≡ lookup i m.nodes)

-- What a file that is inserted changes.
abbrev Puts : GrizolFileInfo → GrizolFsMem → GrizolFsMem → Type 0
Puts f m m' =
    ((q : List Bytes)
      → header_at q m'.root
        ≡ (if path_eq.beq (split_path f) q then some (number f, file f) else header_at q m.root))
    × (m'.nodes ≡ insert (number f) (split_path f) m.nodes)

mem_inj :
    {E : Type 0} (a b : GrizolFsMem)
    → ◌≡◌ {A = Outcome E (Option GrizolFsMem)} (ok (some a)) (ok (some b))
    → a ≡ b
mem_inj a b e = cc

mem_of-eq-some :
    {E : Type 0} (f : GrizolFileInfo) (m m' : GrizolFsMem) (o : Option FsNode)
    → fits f ≡ true
    → ◌≡◌ {A = Outcome E (Option GrizolFsMem)} (mem_of f m o) (ok (some m'))
    → (o ≡ some m'.root) × (m'.nodes ≡ insert (number f) (split_path f) m.nodes)
unfolding mem_of entry_id
mem_of-eq-some f m m' none fit e = absurd (cc)
mem_of-eq-some {E} f m m' (some root) fit e =
    let new : GrizolFsMem = record {
      root = root;
      nodes = insert (number f) (split_path f) m.nodes;
    } in
    let numbered : ◌≡◌ {A = Outcome E ℕ} (entry_id f.id) (ok (number f)) = rw fit refl in
    let same : new ≡ m' = mem_inj new m' (sym (>>=-ok _ numbered refl) ∙ e) in
    (ap (λ (x : GrizolFsMem). some x.root) same, ap (λ (x : GrizolFsMem). x.nodes) (sym same))

name_of_unwrap :
    {E : Type 0} (o : Option Bytes) (x : Bytes)
    → ◌≡◌ {A = Outcome E Bytes} (unwrap o) (ok x)
    → o ≡ some x
name_of_unwrap none x e = absurd (cc)
name_of_unwrap (some y) x e = cc

insert_file-Puts :
    {E : Type 0} (f : GrizolFileInfo) (m m' : GrizolFsMem)
    → fits f ≡ true
    → has_path (split_path f) m.root ≡ false
    → ◌≡◌ {A = Outcome E (Option GrizolFsMem)} (insert_file f m) (ok (some m'))
    → Puts f m m'
unfolding insert_file
insert_file-Puts {E} f m m' fit absent e =
    let path = split_path f in
    let new = node (number f) (file f) empty in
    let (name, is_last, e₁) = >>=-eq-ok (unwrap {E = E} (last path)) _ e in
    let whole = parents-last path name (name_of_unwrap (last path) name is_last) in
    let (inserted, nodes) =
      mem_of-eq-some {E = E} f m m' (insert_at (parents path) name new m.root) fit e₁ in
    (
      λ q.
          header_at-insert_at (parents path) name new m.root m'.root q refl
            (ap (λ p. has_path p m.root) (sym whole) ∙ absent) inserted
          ∙ ap (λ p. if path_eq.beq p q then some (number f, file f) else header_at q m.root)
              (sym whole),
      nodes,
    )

All-rotate {ℓ κ} :
    {A : Type ℓ} (P : A → Type κ) (x : A) (xs : List A) → All P (xs ++ x ∷ []) → All P (x ∷ xs)
All-rotate P x [] h = h
All-rotate P x (y ∷ ys) (p, h) = let (q, hs) = All-rotate P x ys h in (q, (p, hs))

-- The first file of the queue, and then the others.
Shows-first :
    (f : GrizolFileInfo) (fs : List GrizolFileInfo) (m m₁ m' : GrizolFsMem)
    → ((q : List Bytes) → has_path q m₁.root ≡ (path_eq.beq (split_path f) q || has_path q m.root))
    → has_path (split_path f) m.root ≡ false
    → All (λ (g : GrizolFileInfo). (number f == number g) ≡ false) fs
    → Puts f m m₁
    → Keeps fs m₁ m'
    → Shows m' f × Keeps (f ∷ fs) m m'
Shows-first f fs m m₁ m' paths absent new (puts, nodes) (keeps, others) =
    let path = split_path f in
    let same = (path_eq.beq_iff path path).1 refl in
    (
      (
        keeps path (paths path ∙ ap (λ b. b || has_path path m.root) same)
            ∙ puts path
            ∙ ap (λ b. if b then some (number f, file f) else header_at path m.root) same,
        others (number f) (All-map fs (λ g h. ground (arith, h)) new)
            ∙ ap (lookup (number f)) nodes
            ∙ lookup-insert (number f) (number f) path m.nodes
            ∙ ground arith,
      ),
      (
        λ q h.
            keeps q (paths q ∙ ap (λ b. path_eq.beq path q || b) h ∙ ground arith)
            ∙ puts q
            ∙ ground (arith, path_eq.beq_iff path q, absent, h),
        λ i apart.
            others i apart.1
            ∙ ap (lookup i) nodes
            ∙ lookup-insert (number f) i path m.nodes
            ∙ ap (λ b. if b then some path else lookup i m.nodes) apart.0,
      ),
    )

Keeps-rotate :
    (f : GrizolFileInfo) (fs : List GrizolFileInfo) (m m' : GrizolFsMem)
    → Keeps (fs ++ f ∷ []) m m'
    → Keeps (f ∷ fs) m m'
Keeps-rotate f fs m m' (keeps, others) = (
  keeps,
  λ i apart. others i (All-append (λ g. (number g == i) ≡ false) fs (f ∷ []) apart.1 (apart.0, tt)),
)

abbrev ShowsAll : GrizolFsMem → List GrizolFileInfo → GrizolFsMem → Type 0
ShowsAll m fs m' = All (Shows m') fs × Keeps fs m m'

inserted_first :
    {E : Type 0} (f : GrizolFileInfo) (fs : List GrizolFileInfo) (m m₁ m' : GrizolFsMem)
    → IsQueue (f ∷ fs) m
    → HaveNumbers (f ∷ fs)
    → ◌≡◌ {A = Outcome E (Option GrizolFsMem)} (insert_file f m) (ok (some m₁))
    → ((q : List Bytes) → has_path q m₁.root ≡ (path_eq.beq (split_path f) q || has_path q m.root))
    → ShowsAll m₁ fs m'
    → ShowsAll m (f ∷ fs) m'
inserted_first f fs m m₁ m' queue numbers e paths (shows, keeps) =
    let (here, kept) =
      Shows-first f fs m m₁ m' paths queue.2.0 numbers.0
        (insert_file-Puts f m m₁ queue.0.0 queue.2.0 e) keeps in
    ((here, shows), kept)

-- What the loop does to any queue with `k` rounds.
abbrev ShowsFor : Type 0 → ℕ → Type 0
ShowsFor E k =
    (fs : List GrizolFileInfo) (m m' : GrizolFsMem)
    → IsQueue fs m
    → HaveNumbers fs
    → ◌≡◌ {A = Outcome E GrizolFsMem} (insert_files k fs m) (ok m')
    → ShowsAll m fs m'

next_round :
    {E : Type 0} (b : Bool) (k : ℕ) (f : GrizolFileInfo) (fs : List GrizolFileInfo)
    (m m' : GrizolFsMem)
    → ShowsFor E k
    → is_ready m f ≡ b
    → IsQueue (f ∷ fs) m
    → HaveNumbers (f ∷ fs)
    → ◌≡◌ {A = Outcome E GrizolFsMem} (insert_files (suc k) (f ∷ fs) m) (ok m')
    → ShowsAll m (f ∷ fs) m'
next_round {E} true k f fs m m' ih ready queue numbers e =
    let (m₁, inserted, paths, _) = insert_file_ready {E = E} f m queue.0.0 ready in
    let paths₁ = paths queue.2.0 in
    inserted_first f fs m m₁ m' queue numbers inserted paths₁ (
      ih fs m₁ m' (IsQueue-insert f fs m m₁ paths₁ queue) numbers.1
        (sym (insert_files_ready k f fs m m₁ inserted) ∙ e))
next_round {E} false k f fs m m' ih waits queue numbers e =
    let (shows, keeps) =
      ih (fs ++ f ∷ []) m m' (IsQueue-rotate f fs m queue)
        (HaveNumbers-rotate f fs numbers.0 numbers.1)
        (sym (insert_files_waits k f fs m (insert_file_waits f m waits)) ∙ e) in
    (All-rotate (Shows m') f fs shows, Keeps-rotate f fs m m' keeps)

pub ok_inj : {E A : Type 0} {a b : A} → ◌≡◌ {A = Outcome E A} (ok a) (ok b) → a ≡ b
ok_inj e = cc

-- The loop leaves each file under its path and its number.
pub insert_files-ShowsAll : (E : Type 0) (k : ℕ) → ShowsFor E k
unfolding insert_files
insert_files-ShowsAll E k [] m m' queue numbers e =
    let same = ok_inj e in
    (
      tt,
      (
        λ q h. ap (λ (x : GrizolFsMem). header_at q x.root) (sym same),
        λ i apart. ap (λ (x : GrizolFsMem). lookup i x.nodes) (sym same),
      ),
    )
insert_files-ShowsAll E zero (f ∷ fs) m m' queue numbers e = absurd (cc)
insert_files-ShowsAll E (suc k) (f ∷ fs) m m' queue numbers e =
    next_round (is_ready m f) k f fs m m' (insert_files-ShowsAll E k) refl queue numbers e
