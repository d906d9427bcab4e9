-- ===== src/State/Replaced.antt =====
-- What the database has of a file that `replace_file` of src/core/bep_state.rs put there.
use grizol.Prelude.{
  ◌^◌, ◌≡◌, refl, sym, ap, subst, ◌∙◌, true, false, not, Option, some, List, [], ◌∷◌, ◌++◌,
  append-nil, map, ltb, if◌then◌else◌, arith, All,
}
use grizol.Prelude.Int.{ℤ, ltb_ℤ}
use grizol.Prelude.Keys.{bytes_eq, Dict, lookup, lookup-insert, insert}
use grizol.Prelude.Outcome.{Outcome, ok, >>=-ok, unwrap}
use grizol.Prelude.Bytes.{Bytes}
use grizol.Proto.{FileInfo, BlockInfo, Counter, Vector}
use grizol.DeviceId.{DeviceId}
use grizol.Indices.{folder_device_eq}
use grizol.State.{file_key, replace_file}
use grizol.State.Tables.{
  FileKey, file_key_eq, FileColumns, VersionRow, BlockRow, Database, any, filter, same_version,
  same_block, known_type, columns_of, insert_file_row, block_row, delete_files,
}
use grizol.State.Reads.{block_of, counter_of, blocks_of, counters_of, file_of_row, with_row}
use grizol.State.Rows.{
  version_row, AreNew, AreNew-append, filter-append, filter-filter, filter-map, insert_versions-new,
  push_blocks-new, any-version, any-block, lookup-filter,
}
use grizol.State.Numbers.{AreBelow, AreBelow-filter, AreBelow_mono, sequence_taken-AreBelow}

-- A file that the tables take: it has a version whose values fit an `i64`, no counter and no block is
-- repeated, and its type is one of the five.
abbrev pub IsStorable : FileKey → FileInfo → Vector → Type 0
IsStorable k f v =
    (f.version ≡ some v)
    × (All (λ (c : Counter). ltb c.value (2 ^ 63) ≡ true) v.counters)
    × (AreNew same_version (version_row k) v.counters [])
    × (AreNew same_block (block_row k) f.blocks [])
    × (known_type f.type_code ≡ true)

abbrev pub AreStorable : Bytes → DeviceId → List FileInfo → Type 0
AreStorable folder device_id fs =
    All (λ (f : FileInfo). (v : Vector) × IsStorable (file_key folder device_id f.name) f v) fs

-- The database with a file in place of what it had under the key.
abbrev pub replaced : FileKey → FileInfo → Vector → Database → Database
replaced k f v db = record db {
  files = insert k (columns_of f) (filter (λ row. not (file_key_eq.beq k row.0)) db.files);
  versions =
      filter (λ row. not (file_key_eq.beq k row.file)) db.versions
      ++ map (version_row k) v.counters;
  blocks = filter (λ row. not (file_key_eq.beq k row.file)) db.blocks ++ map (block_row k) f.blocks;
  locations = filter (λ row. not (file_key_eq.beq k row.file)) db.locations;
  cache = filter (λ row. not (file_key_eq.beq k row.0)) db.cache;
}

pub replace_file-replaced :
    {E : Type 0} (k : FileKey) (f : FileInfo) (v : Vector) (n : ℤ) (db : Database)
    → any (folder_device_eq.beq k.folder_device) db.indexes ≡ true
    → IsStorable k f v
    → ltb_ℤ f.sequence n ≡ false
    → AreBelow n db.files
    → ◌≡◌ {A = Outcome E Database} (replace_file k f db) (ok (replaced k f v db))
unfolding replace_file insert_file_row delete_files
replace_file-replaced {E} k f v n db indexed (has, small, counters, blocks, type_code) ge below =
    let kept = filter (λ (row : FileKey × FileColumns). not (file_key_eq.beq k row.0)) db.files in
    let free = sequence_taken-AreBelow k f.sequence kept (
      AreBelow-filter f.sequence (λ row. not (file_key_eq.beq k row.0)) db.files
        (AreBelow_mono n f.sequence db.files ge below)) in
    let db₁ : Database = record (delete_files (file_key_eq.beq k) db) {
      files = insert k (columns_of f) kept;
    } in
    let old_versions =
      filter (λ (row : VersionRow). not (file_key_eq.beq k row.file)) db.versions in
    let old_blocks = filter (λ (row : BlockRow). not (file_key_eq.beq k row.file)) db.blocks in
    let inserted : ◌≡◌ {A = Outcome E Database}
        (insert_file_row k (columns_of f) (delete_files (file_key_eq.beq k) db)) (ok db₁) =
      rw (indexed, type_code, free) refl in
    >>=-ok _ inserted (
      >>=-ok _ (ap unwrap has) (
        >>=-ok _
          (insert_versions-new k v.counters db₁ small (
            subst (AreNew same_version (version_row k) v.counters) (append-nil old_versions) (
              AreNew-append same_version (version_row k) v.counters old_versions []
                (any-version k db.versions) counters)))
          (push_blocks-new k f.blocks
            (record db₁ { versions = old_versions ++ map (version_row k) v.counters })
            (subst (AreNew same_block (block_row k) f.blocks) (append-nil old_blocks) (
              AreNew-append same_block (block_row k) f.blocks old_blocks [] (any-block k db.blocks)
                blocks)))))

-- The file that the database has under a key.
abbrev pub stored_file : FileKey → Database → Option FileInfo
stored_file k db = with_row k (lookup k db.files) (blocks_of k db) (counters_of k db)

map_version : (k : FileKey) (cs : List Counter) → map counter_of (map (version_row k) cs) ≡ cs
map_version k [] = refl
map_version k (c ∷ cs) = ap (λ rest. c ∷ rest) (map_version k cs)

map_block : (k : FileKey) (bs : List BlockInfo) → map block_of (map (block_row k) bs) ≡ bs
map_block k [] = refl
map_block k (b ∷ bs) = ap (λ rest. b ∷ rest) (map_block k bs)

counters_of-replaced :
    (j k : FileKey) (f : FileInfo) (v : Vector) (db : Database)
    → counters_of j (replaced k f v db)
      ≡ (if file_key_eq.beq k j then v.counters else counters_of j db)
counters_of-replaced j k f v db = ground (
  arith,
  filter-append (λ (row : VersionRow). file_key_eq.beq j row.file)
      (filter (λ row. not (file_key_eq.beq k row.file)) db.versions)
      (map (version_row k) v.counters),
  filter-filter (λ (row : VersionRow). row.file) j k db.versions,
  filter-map (λ (row : VersionRow). row.file) (version_row k) j k (λ c. refl) v.counters,
  map_version k v.counters,
  append-nil (filter (λ (row : VersionRow). file_key_eq.beq j row.file) db.versions),
)

blocks_of-replaced :
    (j k : FileKey) (f : FileInfo) (v : Vector) (db : Database)
    → blocks_of j (replaced k f v db) ≡ (if file_key_eq.beq k j then f.blocks else blocks_of j db)
blocks_of-replaced j k f v db = ground (
  arith,
  filter-append (λ (row : BlockRow). file_key_eq.beq j row.file)
      (filter (λ row. not (file_key_eq.beq k row.file)) db.blocks) (map (block_row k) f.blocks),
  filter-filter (λ (row : BlockRow). row.file) j k db.blocks,
  filter-map (λ (row : BlockRow). row.file) (block_row k) j k (λ b. refl) f.blocks,
  map_block k f.blocks,
  append-nil (filter (λ (row : BlockRow). file_key_eq.beq j row.file) db.blocks),
)

lookup-replaced :
    (j k : FileKey) (r : FileColumns) (rows : Dict FileKey FileColumns)
    → lookup j (insert k r (filter (λ row. not (file_key_eq.beq k row.0)) rows))
      ≡ (if file_key_eq.beq k j then some r else lookup j rows)
lookup-replaced j k r rows = ground (
  arith,
  lookup-insert k j r (filter (λ row. not (file_key_eq.beq k row.0)) rows),
  lookup-filter j k rows,
)

-- What was inserted reads back as it was.
file_of_row-columns_of :
    (k : FileKey) (f : FileInfo) (v : Vector)
    → f.version ≡ some v
    → k.name ≡ f.name
    → file_of_row k (columns_of f) f.blocks v.counters ≡ f
file_of_row-columns_of k f v e n =
    ap (λ name. record f { name = name; version = some v }) n
    ∙ ap (λ version. record f { version = version }) (sym e)

pub stored_file-replaced :
    (j k : FileKey) (f : FileInfo) (v : Vector) (db : Database)
    → f.version ≡ some v
    → k.name ≡ f.name
    → stored_file j (replaced k f v db) ≡ (if file_key_eq.beq k j then some f else stored_file j db)
stored_file-replaced j k f v db e n = ground (
  arith,
  lookup-replaced j k (columns_of f) db.files,
  blocks_of-replaced j k f v db,
  counters_of-replaced j k f v db,
  file_of_row-columns_of k f v e n,
  file_key_eq.beq_iff k j,
)
