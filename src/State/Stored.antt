-- ===== src/State/Stored.antt =====
-- What the database and the memory have of a file after `rm_replace_file_info` of src/core/bep_state.rs.
use grizol.Prelude.{
  ◌^◌, ◌≡◌, refl, sym, ap, subst, ◌∙◌, Bool, true, false, not, List, [], ◌∷◌, length, if◌then◌else◌,
  arith,
}
use grizol.Prelude.Int.{ℤ, pos, ltb_ℤ, ◌+ℤ◌, +ℤ_parts}
use grizol.Prelude.Keys.{bytes_eq}
use grizol.Prelude.Outcome.{Outcome, ok, >>=-ok}
use grizol.Prelude.Bytes.{Bytes}
use grizol.Proto.{FileInfo, Vector}
use grizol.DeviceId.{DeviceId}
use grizol.Indices.{FolderDevice, folder_device_eq, insert_file_info}
use grizol.Indices.Lookups.{file_of, last_named, file_of-insert_file_info}
use grizol.State.{BepState, file_key, in_index, replace_files, rm_replace_file_info, not_deleted}
use grizol.State.Tables.{
  FileKey, file_key_eq, FileColumns, Database, any, filter, columns_of, max_sequence,
}
use grizol.State.Numbers.{
  first_number, numbered, after_numbers, AreBelow, IsNumbered, Ascends, AreBelow-insert,
  AreBelow-filter, AreBelow_mono, filter-Ascends, numbered-Ascends, number_files-numbered,
  first_number-after_numbers, below_succ, after_files, AreBelow-IsNumbered,
}
use grizol.State.Replaced.{
  IsStorable, AreStorable, replaced, replace_file-replaced, stored_file, stored_file-replaced,
}

-- What the loop over the files has made of the database, whose numbers are below `m` then.
IsReplaced : Bytes → DeviceId → List FileInfo → ℤ → Database → Database → Type 0
IsReplaced folder device_id fs m db db' =
    AreBelow m db'.files
    × ((j : FileKey)
        → stored_file j db' ≡ (
            if in_index folder device_id j
            then last_named j.name fs (stored_file j db)
            else stored_file j db))

replace_files-IsReplaced :
    {E : Type 0} (folder : Bytes) (device_id : DeviceId) (fs : List FileInfo) (n m : ℤ)
    (db : Database)
    → any (folder_device_eq.beq (record { folder = folder; device_id = device_id })) db.indexes
      ≡ true
    → AreStorable folder device_id fs
    → Ascends n m fs
    → AreBelow n db.files
    → (db' : Database) × (◌≡◌ {A = Outcome E Database}
        (replace_files folder device_id fs db)
        (ok db'))
      × IsReplaced folder device_id fs m db db'
unfolding replace_files IsReplaced
replace_files-IsReplaced folder device_id [] n m db indexed storable a below =
    (db, refl, (AreBelow_mono n m db.files a below, λ j. ground arith))
replace_files-IsReplaced {E} folder device_id (f ∷ fs) n m db indexed ((v, s), storable) (a, rest)
      below =
    let k = file_key folder device_id f.name in
    let db₁ = replaced k f v db in
    let kept = filter (λ (row : FileKey × FileColumns). not (file_key_eq.beq k row.0)) db.files in
    let below₁ : AreBelow (f.sequence +ℤ pos 1) db₁.files =
      AreBelow-insert (f.sequence +ℤ pos 1) k (columns_of f) kept
        (below_succ f.sequence f.sequence (ground arith))
        (AreBelow-filter (f.sequence +ℤ pos 1) (λ row. not (file_key_eq.beq k row.0)) db.files
          (AreBelow_mono n (f.sequence +ℤ pos 1) db.files
            (ground (arith, +ℤ_parts f.sequence (pos 1), a)) below)) in
    let (db', e, (below', stored)) =
      replace_files-IsReplaced {E = E} folder device_id fs (f.sequence +ℤ pos 1) m db₁ indexed
        storable rest below₁ in
    (
      db',
      >>=-ok _ (replace_file-replaced k f v n db indexed s a below) e,
      (below', λ j. stored j ∙ ground (arith, stored_file-replaced j k f v db s.0 refl)),
    )

numbered-AreStorable :
    (folder : Bytes) (device_id : DeviceId) (n : ℤ) (fs : List FileInfo)
    → AreStorable folder device_id fs
    → AreStorable folder device_id (numbered n fs)
numbered-AreStorable folder device_id n [] storable = tt
numbered-AreStorable folder device_id n (f ∷ fs) (s, storable) =
    (s, numbered-AreStorable folder device_id (n +ℤ pos 1) fs storable)

AreStorable-cons :
    (b : Bool) (folder : Bytes) (device_id : DeviceId) (f : FileInfo) (fs : List FileInfo)
    → ((v : Vector) × IsStorable (file_key folder device_id f.name) f v)
    → AreStorable folder device_id fs
    → AreStorable folder device_id (if b then f ∷ fs else fs)
AreStorable-cons true folder device_id f fs s storable = (s, storable)
AreStorable-cons false folder device_id f fs s storable = storable

filter-AreStorable :
    (folder : Bytes) (device_id : DeviceId) (fs : List FileInfo)
    → AreStorable folder device_id fs
    → AreStorable folder device_id (filter not_deleted fs)
filter-AreStorable folder device_id [] storable = tt
filter-AreStorable folder device_id (f ∷ fs) (s, storable) =
    AreStorable-cons (not_deleted f) folder device_id f (filter not_deleted fs) s
      (filter-AreStorable folder device_id fs storable)

-- The files that are kept, with their numbers.
abbrev pub kept_files : List FileInfo → BepState → List FileInfo
kept_files fs s = filter not_deleted (numbered (first_number s) fs)

abbrev pub is_indexed : Bytes → DeviceId → BepState → Bool
is_indexed folder device_id s =
    any (folder_device_eq.beq (record { folder = folder; device_id = device_id })) s.db.indexes

-- On a state whose numbers are in order, with files of an index that the tables take and numbers
-- left for them, rm_replace_file_info returns a state whose numbers are in order again; the database
-- then has under each name of the folder on the device the last of the given files of that name that
-- is not deleted, with the next number, its versions and its blocks in order, or else what it had,
-- all other folders and devices keep theirs, and the indices in memory have got the same files.
pub rm_replace_file_info-stored_file :
    {E : Type 0} (folder : Bytes) (device_id : DeviceId) (fs : List FileInfo) (s : BepState)
    → IsNumbered s
    → is_indexed folder device_id s ≡ true
    → AreStorable folder device_id fs
    → ltb_ℤ (first_number s +ℤ pos (length fs)) (pos (2 ^ 63)) ≡ true
    → (s' : BepState) × (◌≡◌ {A = Outcome E BepState}
        (rm_replace_file_info folder device_id fs s)
        (ok s'))
      × IsNumbered s'
      × (s'.indices ≡ insert_file_info folder device_id (kept_files fs s) s.indices)
      × ((j : FileKey)
          → stored_file j s'.db ≡ (
              if in_index folder device_id j
              then last_named j.name (kept_files fs s) (stored_file j s.db)
              else stored_file j s.db))
unfolding rm_replace_file_info IsReplaced
rm_replace_file_info-stored_file {E} folder device_id fs s numbers indexed storable range =
    let n = first_number s in
    let m = n +ℤ pos (length fs) in
    let files = kept_files fs s in
    let (db', e, (below, stored)) =
      replace_files-IsReplaced {E = E} folder device_id files n m s.db indexed
        (filter-AreStorable folder device_id (numbered n fs)
          (numbered-AreStorable folder device_id n fs storable))
        (filter-Ascends n m (numbered n fs) (numbered-Ascends n fs)) numbers in
    let s' : BepState = record (after_numbers fs s) {
      db = db';
      indices = insert_file_info folder device_id files s.indices;
    } in
    (
      s',
      >>=-ok _ (number_files-numbered fs s range) (>>=-ok _ e refl),
      AreBelow-IsNumbered s' (after_files fs s.sequence (max_sequence s.db.files))
          (max_sequence s.db.files) refl
          (subst (λ x. AreBelow x db'.files) (sym (first_number-after_numbers fs s)) below),
      refl,
      stored,
    )

-- The memory and the database have the same files of a folder on a device.
abbrev pub IsCoherent : FolderDevice → BepState → Type 0
IsCoherent other s =
    (name : Bytes)
    → file_of other name s.indices
      ≡ stored_file (record { folder_device = other; name = name }) s.db

-- Where the indices in memory and the database have the same file, or none, under each name of a
-- folder on a device, they have so after rm_replace_file_info of any files that the tables take, of
-- the same or of another folder and device.
pub rm_replace_file_info-IsCoherent :
    {E : Type 0} (folder : Bytes) (device_id : DeviceId) (fs : List FileInfo) (s : BepState)
    (other : FolderDevice)
    → IsNumbered s
    → is_indexed folder device_id s ≡ true
    → AreStorable folder device_id fs
    → ltb_ℤ (first_number s +ℤ pos (length fs)) (pos (2 ^ 63)) ≡ true
    → IsCoherent other s
    → (s' : BepState) × (◌≡◌ {A = Outcome E BepState}
        (rm_replace_file_info folder device_id fs s)
        (ok s'))
      × IsCoherent other s'
rm_replace_file_info-IsCoherent {E} folder device_id fs s other numbers indexed storable range
      same =
    let files = kept_files fs s in
    let (s', e, _, memory, stored) =
      rm_replace_file_info-stored_file {E = E} folder device_id fs s numbers indexed storable
        range in
    (
      s',
      e,
      λ name.
          ap (file_of other name) memory
          ∙ file_of-insert_file_info folder name device_id files other s.indices
          ∙ ground (arith, same name)
          ∙ sym (stored (record { folder_device = other; name = name })),
    )
