-- ===== src/Fuse/Dangling.antt =====
-- The numbers of files that are gone from the state, in src/fuse.rs.
use grizol.Prelude.{
  ℕ, ◌≤◌, ◌<◌, ◌≡◌, refl, sym, ap, ◌∙◌, Bool, true, false, ◌||◌, Option, none, some, List, [], ◌∷◌,
  ◌==◌, length, if◌then◌else◌, if_false, arith, All,
}
use grizol.Prelude.Int.{ℤ}
use grizol.Prelude.Keys.{nat_eq, bytes_eq, lookup, lookup-insert}
use grizol.Prelude.Outcome.{Outcome, ok, panic, >>=-ok, >>=-eq-ok}
use grizol.Prelude.Bytes.{Bytes}
use grizol.State.Tables.{any}
use grizol.Fuse.{
  GrizolFolder, GrizolFileInfo, GrizolFsMem, FsNode, node, folder, empty, entries_start, top_dir_id,
  get_child, children_of, and_then, split_path, split_slash, insert_folder, insert_folders, refresh,
  push_byte,
}
use grizol.Fuse.Attributes.{AttrReply, node_at, has_id, upgrade, GrizolFs, folders_files}
use grizol.Fuse.Memory.{Called, attr_of_found, getattr_in, getattr_mem}
use grizol.Fuse.Paths.{some_has, has_path, get_child-put_child}
use grizol.Fuse.Waiting.{is_path_of, IsQueue}
use grizol.Fuse.Refresh.{rounds_for, insert_files-has_path}
use grizol.Fuse.Agree.{not_root}
use grizol.Fuse.Numbered.{number, HaveNumbers, insert_files-ShowsAll, ok_inj}

top_dir_id_below :
    {E : Type 0} (d_id : ℤ) (n : ℕ)
    → ◌≡◌ {A = Outcome E ℕ} (top_dir_id d_id) (ok n)
    → n < entries_start
unfolding top_dir_id
top_dir_id_below d_id n e = ground arith

no_children :
    (b : Bool) (id : ℕ) (f : GrizolFolder) (y : Bytes) (ys : List Bytes) (o : Option FsNode)
    → some_has (if b then some (node id (folder f) empty) else o) (has_path (y ∷ ys))
      ≡ (if b then false else some_has o (has_path (y ∷ ys)))
no_children true id f y ys o = refl
no_children false id f y ys o = refl

other_number : (a i : ℕ) (p q : Option (List Bytes)) → a < i → (if a == i then p else q) ≡ q
other_number a i p q h = ground arith

-- A folder that is inserted has no children, and the numbers of files stand for what they did.
insert_folder-has_path :
    {E : Type 0} (f : GrizolFolder) (m m' : GrizolFsMem) (x y : Bytes) (ys : List Bytes) (i : ℕ)
    → entries_start ≤ i
    → ◌≡◌ {A = Outcome E GrizolFsMem} (insert_folder f m) (ok m')
    → (has_path (x ∷ y ∷ ys) m'.root
        ≡ (if bytes_eq.beq f.folder.id x then false else has_path (x ∷ y ∷ ys) m.root))
      × (lookup i m'.nodes ≡ lookup i m.nodes)
unfolding insert_folder
insert_folder-has_path {E} f m m' x y ys i file_number e =
    let (id, numbered, e₁) = >>=-eq-ok (top_dir_id {E = E} f.id) _ e in
    let new = node id (folder f) empty in
    let same = ok_inj e₁ in
    let below = top_dir_id_below {E = E} f.id id numbered in
    (
      ap (λ (r : GrizolFsMem). has_path (x ∷ y ∷ ys) r.root) (sym same)
          ∙ ap (λ o. some_has o (has_path (y ∷ ys))) (get_child-put_child x f.folder.id new m.root)
          ∙ no_children (bytes_eq.beq f.folder.id x) id f y ys (get_child x (children_of m.root)),
      ap (λ (r : GrizolFsMem). lookup i r.nodes) (sym same)
          ∙ lookup-insert id i (f.folder.id ∷ []) m.nodes
          ∙ other_number id i (some (f.folder.id ∷ [])) (lookup i m.nodes) (omega arith),
    )

no_path :
    (a b p q : Bool)
    → p ≡ (if a then false else q)
    → (if b then false else p) ≡ (if a || b then false else q)
no_path a b p q e = ground arith

below_gone :
    (xs : List Bytes) (o : Option FsNode)
    → ((m : FsNode) → has_path xs m ≡ false → node_at xs m ≡ none)
    → some_has o (has_path xs) ≡ false
    → and_then o (node_at xs) ≡ none
below_gone xs none ih h = refl
below_gone xs (some m) ih h = ih m h

node_at_gone : (p : List Bytes) (n : FsNode) → has_path p n ≡ false → node_at p n ≡ none
node_at_gone [] n h = absurd (cc)
node_at_gone (x ∷ xs) n h = below_gone xs (get_child x (children_of n)) (node_at_gone xs) h

-- Whether one of the folders has the id.
abbrev pub has_folder : Bytes → List GrizolFolder → Bool
has_folder x fs = any (λ (f : GrizolFolder). bytes_eq.beq f.folder.id x) fs

insert_folders-has_path :
    {E : Type 0} (fs : List GrizolFolder) (m m' : GrizolFsMem) (x y : Bytes) (ys : List Bytes)
    (i : ℕ)
    → entries_start ≤ i
    → ◌≡◌ {A = Outcome E GrizolFsMem} (insert_folders fs m) (ok m')
    → (has_path (x ∷ y ∷ ys) m'.root
        ≡ (if has_folder x fs then false else has_path (x ∷ y ∷ ys) m.root))
      × (lookup i m'.nodes ≡ lookup i m.nodes)
insert_folders-has_path [] m m' x y ys i le e =
    let same = ok_inj e in
    (
      ap (λ (r : GrizolFsMem). has_path (x ∷ y ∷ ys) r.root) (sym same),
      ap (λ (r : GrizolFsMem). lookup i r.nodes) (sym same),
    )
insert_folders-has_path {E} (f ∷ fs) m m' x y ys i le e =
    let (m₁, first, e₁) = >>=-eq-ok (insert_folder {E = E} f m) (insert_folders fs) e in
    let (path₁, nodes₁) = insert_folder-has_path f m m₁ x y ys i le first in
    let (path, nodes) = insert_folders-has_path fs m₁ m' x y ys i le e₁ in
    (path ∙ no_path (bytes_eq.beq f.folder.id x) (has_folder x fs) _ _ path₁, nodes ∙ nodes₁)

upgrade_gone : (i : ℕ) (p : List Bytes) (n : FsNode) → has_path p n ≡ false → upgrade i p n ≡ none
upgrade_gone i p n h = ap (λ o. and_then o (has_id i)) (node_at_gone p n h)

IsCons : List Bytes → Type 0
IsCons xs = (y : Bytes) × (ys : List Bytes) × (xs ≡ y ∷ ys)

push_byte-IsCons : (c : ℕ) (ws : List Bytes) → IsCons (push_byte c ws)
unfolding IsCons
push_byte-IsCons c [] = (c ∷ [], [], refl)
push_byte-IsCons c (w ∷ ws) = (c ∷ w, ws, refl)

part_IsCons :
    (b : Bool) (c : ℕ) (rest : List Bytes) → IsCons (if b then [] ∷ rest else push_byte c rest)
unfolding IsCons
part_IsCons true c rest = ([], rest, refl)
part_IsCons false c rest = push_byte-IsCons c rest

split_slash-IsCons : (bs : Bytes) → IsCons (split_slash bs)
unfolding IsCons
split_slash-IsCons [] = ([], [], refl)
split_slash-IsCons (c ∷ cs) = part_IsCons (c == 47) c (split_slash cs)

-- If the number of a file stands for its path in the tree, and a refresh finds the folder of the
-- file again but no file of this path or this number, then getattr of that number unwinds.
pub getattr_mem-panic :
    (E : Type 0) (rounds : ℕ) (folders : List GrizolFolder) (files : List GrizolFileInfo)
    (gone : GrizolFileInfo) (fs : GrizolFs) (m : GrizolFsMem)
    → lookup (number gone) fs.fs_mem.nodes ≡ some (split_path gone)
    → has_folder gone.folder folders ≡ true
    → is_path_of (split_path gone) files ≡ false
    → All (λ (f : GrizolFileInfo). (number f == number gone) ≡ false) files
    → insert_folders {E = E} folders fs.fs_mem ≡ ok m
    → IsQueue files m
    → HaveNumbers files
    → rounds_for (length files) ≤ rounds
    → ◌≡◌ {A = Called E AttrReply}
        (getattr_mem rounds (some (folders, files)) (number gone) fs)
        panic
unfolding getattr_mem folders_files refresh IsCons
getattr_mem-panic E rounds folders files gone fs m shown listed absent other begun queue numbers
      enough =
    let i = number gone in
    let (y, ys, cons) = split_slash-IsCons gone.file_info.name in
    let whole : split_path gone ≡ gone.folder ∷ y ∷ ys = ap (λ xs. gone.folder ∷ xs) cons in
    let (cleared, kept) =
      insert_folders-has_path folders fs.fs_mem m gone.folder y ys i (omega arith) begun in
    let (m', done, paths) = insert_files-has_path {E = E} files m rounds queue enough in
    let fs' : GrizolFs = record fs { folders = folders; files = files; fs_mem = m' } in
    let (_, (_, others)) = insert_files-ShowsAll E rounds files m m' queue numbers done in
    let gone_path : has_path (split_path gone) m'.root ≡ false =
      paths (split_path gone)
      ∙ ap (λ b. b || has_path (split_path gone) m.root) absent
      ∙ ap (λ q. has_path q m.root) whole
      ∙ cleared
      ∙ ap (λ b. if b then false else has_path (gone.folder ∷ y ∷ ys) fs.fs_mem.root) listed in
    let stands : lookup i m'.nodes ≡ some (split_path gone) = others i other ∙ kept ∙ shown in
    >>=-ok (getattr_in i) (>>=-ok _ (>>=-ok _ begun done) refl) (
      if_false (i == 1) _ _ (not_root gone)
      ∙ ap (λ o. attr_of_found {E = E} (and_then o (λ p. some (upgrade i p m'.root))) fs') stands
      ∙ ap (λ r. attr_of_found {E = E} (some r) fs')
          (upgrade_gone i (split_path gone) m'.root gone_path))
