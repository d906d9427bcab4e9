-- ===== src/State/Inserted.antt =====
-- The rows of bep_file_info after the operations of src/core/bep_state.rs that write or remove one file.
use grizol.Prelude.{
  ◌^◌, ◌≡◌, refl, sym, ap, ◌∙◌, subst, Bool, true, false, not, Option, none, some, List, [], ◌∷◌,
  ltb, if◌then◌else◌,
}
use grizol.Prelude.Int.{ℤ}
use grizol.Prelude.Keys.{bytes_eq, lookup, insert}
use grizol.Prelude.Outcome.{Outcome, ok, ◌>>◌, assert, unwrap, >>=-eq-ok}
use grizol.Prelude.Bytes.{Bytes}
use grizol.Proto.{FileInfo, BlockInfo, Counter}
use grizol.DeviceId.{DeviceId}
use grizol.Indices.{folder_device_eq, insert_file_info}
use grizol.State.{
  BepState, FileLocation, file_key, number_files, next_sequence_id, sequence_after, or_else,
  insert_file, insert_files, insert_file_infos, insert_locations, has_file, update_file_locations,
  rm_file_info,
}
use grizol.State.Tables.{
  FileKey, file_key_eq, FileColumns, VersionRow, LocationRow, Database, any, insert_or_ignore,
  same_version, same_location, same_block, block_row, known_type, sequence_taken, columns_of,
  insert_file_row, insert_versions, insert_blocks, delete_files, max_sequence,
}
use grizol.State.Reads.{file_of_row, with_row}
use grizol.State.Rows.{lookup-filter}

pub ok_inj : {E A : Type 0} (a b : A) → ◌≡◌ {A = Outcome E A} (ok a) (ok b) → a ≡ b
ok_inj a b e = cc

after_assert :
    {E A : Type 0} (b : Bool) (next : Outcome E A) (a : A) → (assert b >> next) ≡ ok a → next ≡ ok a
after_assert true next a e = e
after_assert false next a e = absurd (cc)

ok-files :
    {E : Type 0} (db db' : Database)
    → ◌≡◌ {A = Outcome E Database} (ok db) (ok db')
    → db'.files ≡ db.files
ok-files db db' e = ap (λ (d : Database). d.files) (sym (ok_inj db db' e))

insert_versions-files :
    {E : Type 0} (k : FileKey) (cs : List Counter) (db db' : Database)
    → ◌≡◌ {A = Outcome E Database} (insert_versions k cs db) (ok db')
    → db'.files ≡ db.files
unfolding insert_versions
insert_versions-files k [] db db' e = ok-files db db' e
insert_versions-files {E} k (c ∷ cs) db db' e =
    let row : VersionRow = record { file = k; id = c.id; value = c.value } in
    let db₁ = record db { versions = insert_or_ignore same_version row db.versions } in
    insert_versions-files {E = E} k cs db₁ db'
      (after_assert (ltb c.value (2 ^ 63)) (insert_versions k cs db₁) db' e)

insert_blocks-files :
    (k : FileKey) (bs : List BlockInfo) (db : Database) → (insert_blocks k bs db).files ≡ db.files
unfolding insert_blocks
insert_blocks-files k [] db = refl
insert_blocks-files k (b ∷ bs) db =
    insert_blocks-files k bs
      (record db { blocks = insert_or_ignore same_block (block_row k b) db.blocks })

insert_locations-files :
    {E : Type 0} (k : FileKey) (ls : List FileLocation) (db db' : Database)
    → ◌≡◌ {A = Outcome E Database} (insert_locations k ls db) (ok db')
    → db'.files ≡ db.files
unfolding insert_locations
insert_locations-files k [] db db' e = ok-files db db' e
insert_locations-files {E} k (l ∷ ls) db db' e =
    let row : LocationRow = record { file = k; storage_backend = l.0; location = l.1 } in
    let db₁ = record db { locations = insert_or_ignore same_location row db.locations } in
    insert_locations-files {E = E} k ls db₁ db'
      (after_assert (has_file k db) (insert_locations k ls db₁) db' e)

insert_file_row-files :
    {E : Type 0} (k : FileKey) (r : FileColumns) (db db' : Database)
    → ◌≡◌ {A = Outcome E Database} (insert_file_row k r db) (ok db')
    → db'.files ≡ insert k r db.files
unfolding insert_file_row
insert_file_row-files {E} k r db db' e =
    let new = record db { files = insert k r db.files } in
    let unique = not (sequence_taken k r.sequence db.files) in
    ok-files {E = E} new db' (
      after_assert unique (ok new) db' (
        after_assert (known_type r.type_code) (assert unique >> ok new) db' (
          after_assert (any (folder_device_eq.beq k.folder_device) db.indexes)
            (assert (known_type r.type_code) >> (assert unique >> ok new)) db' e)))

insert_file-files :
    {E : Type 0} (k : FileKey) (f : FileInfo) (db db' : Database)
    → ◌≡◌ {A = Outcome E Database} (insert_file k f db) (ok db')
    → db'.files ≡ insert k (columns_of f) db.files
unfolding insert_file
insert_file-files {E} k f db db' e =
    let (db₁, row, e₁) = >>=-eq-ok {E = E} (insert_file_row k (columns_of f) db) _ e in
    let (version, v, e₂) = >>=-eq-ok {E = E} (unwrap f.version) _ e₁ in
    let (db₂, versions, e₃) = >>=-eq-ok {E = E} (insert_versions k version.counters db₁) _ e₂ in
    ok-files {E = E} (insert_blocks k f.blocks db₂) db' e₃
    ∙ insert_blocks-files k f.blocks db₂
    ∙ insert_versions-files {E = E} k version.counters db₁ db₂ versions
    ∙ insert_file_row-files {E = E} k (columns_of f) db db₁ row

number_one :
    {E : Type 0} (f : FileInfo) (s s' : BepState) (fs : List FileInfo)
    → ◌≡◌ {A = Outcome E (List FileInfo × BepState)} (number_files (f ∷ []) s) (ok (fs, s'))
    → (n : ℤ) × (fs ≡ record f { sequence = n } ∷ []) × (s'.db ≡ s.db)
unfolding number_files next_sequence_id
number_one {E} f s s' fs e =
    let (p, id, rest) = >>=-eq-ok {E = E} (next_sequence_id {E = E} s) _ e in
    let (n, number, made) =
      >>=-eq-ok {E = E} (sequence_after {E = E} (or_else s.sequence (max_sequence s.db.files))) _
        id in
    let q = ok_inj {E = E} (record f { sequence = p.0 } ∷ [], p.1) (fs, s') rest in
    let q' = ok_inj {E = E} (n, record s { sequence = some n }) p made in
    (
      p.0,
      sym (ap (λ (x : List FileInfo × BepState). x.0) q),
      ap (λ (x : List FileInfo × BepState). x.1.db) (sym q)
          ∙ ap (λ (x : ℤ × BepState). x.1.db) (sym q'),
    )

insert_one :
    {E : Type 0} (folder : Bytes) (device_id : DeviceId) (f : FileInfo) (db db' : Database)
    → ◌≡◌ {A = Outcome E Database} (insert_files folder device_id (f ∷ []) db) (ok db')
    → db'.files ≡ insert (file_key folder device_id f.name) (columns_of f) db.files
unfolding insert_files
insert_one {E} folder device_id f db db' e =
    let (db₁, inserted, e₁) =
      >>=-eq-ok {E = E} (insert_file {E = E} (file_key folder device_id f.name) f db) _ e in
    ok-files {E = E} db₁ db' e₁
    ∙ insert_file-files {E = E} (file_key folder device_id f.name) f db db₁ inserted

pub insert_file_infos-files :
    {E : Type 0} (folder : Bytes) (device_id : DeviceId) (f : FileInfo) (s s' : BepState)
    → ◌≡◌ {A = Outcome E BepState} (insert_file_infos folder device_id (f ∷ []) s) (ok s')
    → (n : ℤ) × (s'.db.files
        ≡ insert
            (file_key folder device_id f.name)
            (columns_of (record f { sequence = n }))
            s.db.files)
unfolding insert_file_infos
insert_file_infos-files {E} folder device_id f s s' e =
    let (x, numbered, e₁) = >>=-eq-ok {E = E} (number_files {E = E} (f ∷ []) s) _ e in
    let (n, one, same) = number_one {E = E} f s x.1 x.0 numbered in
    let (db, inserted, e₂) =
      >>=-eq-ok {E = E} (insert_files {E = E} folder device_id x.0 x.1.db) _ e₁ in
    (
      n,
      ap (λ (t : BepState). t.db.files)
            (sym (
              ok_inj {E = E}
                (record x.1 {
                  db = db;
                  indices = insert_file_info folder device_id x.0 x.1.indices;
                })
                s' e₂))
          ∙ insert_one {E = E} folder device_id (record f { sequence = n }) s.db db
              (subst
                (λ fs. ◌≡◌ {A = Outcome E Database} (insert_files folder device_id fs s.db) (ok db))
                one
                (subst
                  (λ d. ◌≡◌ {A = Outcome E Database} (insert_files folder device_id x.0 d) (ok db))
                  same inserted)),
    )

pub update_file_locations-files :
    {E : Type 0} (folder : Bytes) (device_id : DeviceId) (name : Bytes) (ls : List FileLocation)
    (s s' : BepState)
    → ◌≡◌ {A = Outcome E BepState} (update_file_locations folder device_id name ls s) (ok s')
    → s'.db.files ≡ s.db.files
unfolding update_file_locations
update_file_locations-files {E} folder device_id name ls s s' e =
    let k = file_key folder device_id name in
    let (db, inserted, e₁) = >>=-eq-ok {E = E} (insert_locations {E = E} k ls s.db) _ e in
    ap (λ (t : BepState). t.db.files) (sym (ok_inj {E = E} (record s { db = db }) s' e₁))
    ∙ insert_locations-files {E = E} k ls s.db db inserted

pub with_row-columns :
    {E : Type 0} (k : FileKey) (o : Option FileColumns) (bs : List BlockInfo) (cs : List Counter)
    (f : FileInfo)
    → ◌≡◌ {A = Outcome E FileInfo} (unwrap (with_row k o bs cs)) (ok f)
    → (o ≡ some (columns_of f)) × (f.name ≡ k.name)
with_row-columns k none bs cs f e = absurd (cc)
with_row-columns {E} k (some r) bs cs f e =
    let q = ok_inj {E = E} (file_of_row k r bs cs) f e in
    (ap (λ (g : FileInfo). some (columns_of g)) q, ap (λ (g : FileInfo). g.name) (sym q))

pub rm_file_info-files :
    (folder : Bytes) (device_id : DeviceId) (name : Bytes) (s : BepState) (j : FileKey)
    → lookup j (rm_file_info folder device_id name s).db.files
      ≡ (if file_key_eq.beq (file_key folder device_id name) j then none else lookup j s.db.files)
unfolding rm_file_info delete_files
rm_file_info-files folder device_id name s j =
    lookup-filter j (file_key folder device_id name) s.db.files
