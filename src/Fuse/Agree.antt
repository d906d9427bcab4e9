-- ===== src/Fuse/Agree.antt =====
-- The two callbacks for the attributes of a file in src/fuse.rs, on the tree and on the lists.
use grizol.Prelude.{
  ℕ, ◌≤◌, ◌≡◌, refl, ap, ◌∙◌, true, false, Option, none, some, List, [], ◌∷◌, ltb, ◌==◌, length,
  if◌then◌else◌, if_false, arith, All, All-zip,
}
use grizol.Prelude.Keys.{nat_eq}
use grizol.Prelude.Outcome.{Outcome, ok, ◌>>=◌, >>=-ok}
use grizol.Fuse.{
  GrizolFolder, GrizolFileInfo, GrizolFsMem, GrizolFsFileType, file, FsNode, entries_start,
  entry_id, split_path, insert_folders, refresh, and_then,
}
use grizol.Fuse.Attributes.{
  AttrReply, attr, attr_from_file, type_of, id_of, has_id, upgrade, get_node, GrizolFs,
  folders_files,
}
use grizol.Fuse.Memory.{Called, attr_of_found, reply_attr, getattr_in, getattr_mem}
use grizol.Fuse.Database.{find_id, find_file, attr_if, getattr_of, getattr_db}
use grizol.Fuse.Waiting.{fits, IsQueue}
use grizol.Fuse.Refresh.{rounds_for, insert_files-has_path}
use grizol.Fuse.Headers.{node_at-header}
use grizol.Fuse.Numbered.{number, HaveNumbers, Shows, insert_files-ShowsAll}

entry_id-number :
    {E : Type 0} (f : GrizolFileInfo)
    → fits f ≡ true
    → ◌≡◌ {A = Outcome E ℕ} (entry_id f.id) (ok (number f))
unfolding entry_id
entry_id-number f fit = rw fit refl

-- The list has each file under its number.
find_file-some :
    (E : Type 0) (fs : List GrizolFileInfo)
    → All (λ (f : GrizolFileInfo). fits f ≡ true) fs
    → HaveNumbers fs
    → All
        (λ (f : GrizolFileInfo).
          ◌≡◌ {A = Outcome E (Option GrizolFileInfo)} (find_file (number f) fs) (ok (some f)))
        fs
unfolding find_id
find_file-some E [] fit numbers = tt
find_file-some E (f ∷ fs) (fit, all_fit) (new, numbers) = (
  >>=-ok _ (entry_id-number f fit) (ground arith),
  All-zip fs (λ g n found. >>=-ok _ (entry_id-number f fit) (rw n found)) new
      (find_file-some E fs all_fit numbers),
)

==_self : (a b : ℕ) → a ≡ b → (a == b) ≡ true
==_self a b e = ground arith

pub not_root : (f : GrizolFileInfo) → (number f == 1) ≡ false
not_root f = ground arith

not_folder : (f : GrizolFileInfo) → ltb (number f) entries_start ≡ false
not_folder f = ground arith

-- The reference under the number is valid, and the node is that of the file.
get_node-file :
    (m : GrizolFsMem) (f : GrizolFileInfo)
    → Shows m f
    → (n : FsNode) × (get_node (number f) m ≡ some (some n)) × (type_of n ≡ file f)
get_node-file m f (shown, path) =
    let (n, found, same) = node_at-header (split_path f) (number f, file f) m.root shown in
    let same_id : id_of n ≡ number f = ap (λ (h : ℕ × GrizolFsFileType). h.0) same in
    (
      n,
      ap (λ o. and_then o (λ path. some (upgrade (number f) path m.root))) path
          ∙ ap (λ o. some (and_then o (has_id (number f)))) found
          ∙ ap (λ b. some (if b then some n else none)) (==_self (id_of n) (number f) same_id),
      ap (λ (h : ℕ × GrizolFsFileType). h.1) same,
    )

abbrev reply_of : {E : Type 0} → GrizolFileInfo → GrizolFs → Called E AttrReply
reply_of f fs = attr_from_file fs.config f >>= λ a. ok (attr a, fs)

getattr_in-file :
    {E : Type 0} (fs : GrizolFs) (f : GrizolFileInfo)
    → Shows fs.fs_mem f
    → ◌≡◌ {A = Called E AttrReply} (getattr_in (number f) fs) (reply_of f fs)
getattr_in-file {E} fs f shows =
    let (n, found, same) = get_node-file fs.fs_mem f shows in
    if_false (number f == 1) _ _ (not_root f)
    ∙ ap (λ r. attr_of_found {E = E} r fs) found
    ∙ ap (λ t. reply_attr {E = E} t fs) same

getattr_of-file :
    {E : Type 0} (fs : GrizolFs) (f : GrizolFileInfo)
    → ◌≡◌ {A = Outcome E (Option GrizolFileInfo)} (find_file (number f) fs.files) (ok (some f))
    → ◌≡◌ {A = Called E AttrReply} (getattr_of (number f) fs) (reply_of f fs)
getattr_of-file {E} fs f found =
    if_false (ltb (number f) entries_start) _ _ (not_folder f)
    ∙ >>=-ok (λ (o : Option GrizolFileInfo). attr_if {E = E} (attr_from_file fs.config) o fs) found
        refl

-- On a refresh with folders that can be inserted and with files whose paths are different and not in
-- the tree, whose parents are folders or among the files, and whose numbers are different, the
-- refresh ends, and for the number of each file getattr on the tree and getattr on the lists give
-- the same: the attributes of that file.
pub getattr_mem-getattr_db :
    (E : Type 0) (rounds : ℕ) (folders : List GrizolFolder) (files : List GrizolFileInfo)
    (fs : GrizolFs) (m : GrizolFsMem)
    → insert_folders {E = E} folders fs.fs_mem ≡ ok m
    → IsQueue files m
    → HaveNumbers files
    → rounds_for (length files) ≤ rounds
    → (fs' : GrizolFs) × (◌≡◌ {A = Outcome E GrizolFs}
        (folders_files rounds (some (folders, files)) fs)
        (ok fs'))
      × (fs'.files ≡ files)
      × (All
          (λ (f : GrizolFileInfo).
            (getattr_mem {E = E} rounds (some (folders, files)) (number f) fs
              ≡ (attr_from_file fs.config f >>= λ a. ok (attr a, fs')))
            × (getattr_db {E = E} rounds (some (folders, files)) (number f) fs
                ≡ (attr_from_file fs.config f >>= λ a. ok (attr a, fs'))))
          files)
unfolding getattr_mem getattr_db folders_files refresh
getattr_mem-getattr_db E rounds folders files fs m begun queue numbers enough =
    let (m', done, paths) = insert_files-has_path {E = E} files m rounds queue enough in
    let fs' : GrizolFs = record fs { folders = folders; files = files; fs_mem = m' } in
    let refreshed : ◌≡◌ {A = Outcome E GrizolFs} (folders_files rounds (some (folders, files)) fs)
        (ok fs') =
      >>=-ok _ (>>=-ok _ begun done) refl in
    let (shows, _) = insert_files-ShowsAll E rounds files m m' queue numbers done in
    (
      fs',
      refreshed,
      refl,
      All-zip files
          (λ f shown found. (
            >>=-ok _ refreshed (getattr_in-file fs' f shown),
            if_false (number f == 1) _ _ (not_root f)
                ∙ >>=-ok _ refreshed (getattr_of-file fs' f found),
          ))
          shows (find_file-some E files queue.0 numbers),
    )
