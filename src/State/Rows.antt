-- ===== src/State/Rows.antt =====
-- The rows of a file after the statements of src/core/bep_state.rs that delete and insert them.
use grizol.Prelude.{
  ◌^◌, ◌≡◌, refl, sym, ap, subst, ◌∙◌, Bool, true, false, not, ◌||◌, none, List, [], ◌∷◌, ◌++◌, map,
  append-nil, append_assoc, ltb, if◌then◌else◌, arith, All,
}
use grizol.Prelude.Keys.{int_eq, nat_eq, bytes_eq, Dict, lookup}
use grizol.Prelude.Outcome.{Outcome, ok}
use grizol.Proto.{BlockInfo, Counter}
use grizol.State.Tables.{
  FileKey, file_key_eq, VersionRow, BlockRow, Database, any, filter, same_version, same_block,
  insert_versions, push_blocks, block_row,
}

abbrev pub version_row : FileKey → Counter → VersionRow
version_row k c = record { file = k; id = c.id; value = c.value }

module _ {A : Type 0} where
  pub any-append : (p : A → Bool) (xs ys : List A) → any p (xs ++ ys) ≡ (any p xs || any p ys)
  any-append p [] ys = refl
  any-append p (x ∷ xs) ys = ground (arith, any-append p xs ys)

  pub filter-append :
      (p : A → Bool) (xs ys : List A) → filter p (xs ++ ys) ≡ filter p xs ++ filter p ys
  filter-append p [] ys = refl
  filter-append p (x ∷ xs) ys = ground (arith, filter-append p xs ys)

  -- The rows of a file `j` after those of a file `k` were deleted.
  pub filter-filter :
      (key : A → FileKey) (j k : FileKey) (xs : List A)
      → filter (λ x. file_key_eq.beq j (key x)) (filter (λ x. not (file_key_eq.beq k (key x))) xs)
        ≡ (if file_key_eq.beq k j then [] else filter (λ x. file_key_eq.beq j (key x)) xs)
  filter-filter key j k [] = ground arith
  filter-filter key j k (x ∷ xs) = ground (
    arith,
    filter-filter key j k xs,
    file_key_eq.beq_iff k j,
    file_key_eq.beq_iff j (key x),
    file_key_eq.beq_iff k (key x),
  )

  -- The rows of a file `j` among rows that were made for a file `k`.
  pub filter-map :
      {B : Type 0} (key : A → FileKey) (row : B → A) (j k : FileKey)
      → ((b : B) → key (row b) ≡ k)
      → (bs : List B)
      → filter (λ x. file_key_eq.beq j (key x)) (map row bs)
        ≡ (if file_key_eq.beq k j then map row bs else [])
  filter-map key row j k e [] = ground arith
  filter-map key row j k e (b ∷ bs) = ground (
    arith,
    filter-map key row j k e bs,
    file_key_eq.beq_iff k j,
    file_key_eq.beq_iff j (key (row b)),
    e b,
  )

  -- No two of the rows have the same key, and none has that of one of the others.
  abbrev pub AreNew : {B : Type 0} → (A → A → Bool) → (B → A) → List B → List A → Type 0
  AreNew same row [] rows = Unit
  AreNew same row (b ∷ bs) rows =
      (any (same (row b)) rows ≡ false) × AreNew same row bs (rows ++ row b ∷ [])

  pub AreNew-append :
      {B : Type 0} (same : A → A → Bool) (row : B → A) (bs : List B) (old rows : List A)
      → ((b : B) → any (same (row b)) old ≡ false)
      → AreNew same row bs rows
      → AreNew same row bs (old ++ rows)
  AreNew-append same row [] old rows h new = tt
  AreNew-append same row (b ∷ bs) old rows h (n, new) = (
    any-append (same (row b)) old rows ∙ ground (arith, h b, n),
    subst (AreNew same row bs) (sym (append_assoc old rows (row b ∷ [])))
        (AreNew-append same row bs old (rows ++ row b ∷ []) h new),
  )

pub insert_versions-new :
    {E : Type 0} (k : FileKey) (cs : List Counter) (db : Database)
    → All (λ (c : Counter). ltb c.value (2 ^ 63) ≡ true) cs
    → AreNew same_version (version_row k) cs db.versions
    → ◌≡◌ {A = Outcome E Database}
        (insert_versions k cs db)
        (ok (record db { versions = db.versions ++ map (version_row k) cs }))
unfolding insert_versions
insert_versions-new k [] db small new =
    ap (λ rows. ok (record db { versions = rows })) (sym (append-nil db.versions))
insert_versions-new k (c ∷ cs) db (s, small) (n, new) =
    rw (s, n)
      (insert_versions-new k cs (record db { versions = db.versions ++ version_row k c ∷ [] }) small
          new
        ∙ ap (λ rows. ok (record db { versions = rows }))
            (append_assoc db.versions (version_row k c ∷ []) (map (version_row k) cs)))

pub push_blocks-new :
    {E : Type 0} (k : FileKey) (bs : List BlockInfo) (db : Database)
    → AreNew same_block (block_row k) bs db.blocks
    → ◌≡◌ {A = Outcome E Database}
        (push_blocks k bs db)
        (ok (record db { blocks = db.blocks ++ map (block_row k) bs }))
unfolding push_blocks
push_blocks-new k [] db new =
    ap (λ rows. ok (record db { blocks = rows })) (sym (append-nil db.blocks))
push_blocks-new k (b ∷ bs) db (n, new) = rw n (
    push_blocks-new k bs (record db { blocks = db.blocks ++ block_row k b ∷ [] }) new
    ∙ ap (λ rows. ok (record db { blocks = rows }))
        (append_assoc db.blocks (block_row k b ∷ []) (map (block_row k) bs)))

-- A row of a file is new to rows of which that file has none.
pub any-version :
    (k : FileKey) (rows : List VersionRow) (c : Counter)
    → any (same_version (version_row k c)) (filter (λ row. not (file_key_eq.beq k row.file)) rows)
      ≡ false
any-version k [] c = refl
any-version k (row ∷ rows) c = ground (arith, any-version k rows c)

pub any-block :
    (k : FileKey) (rows : List BlockRow) (b : BlockInfo)
    → any (same_block (block_row k b)) (filter (λ row. not (file_key_eq.beq k row.file)) rows)
      ≡ false
any-block k [] b = refl
any-block k (row ∷ rows) b = ground (arith, any-block k rows b)

pub lookup-filter :
    {V : Type 0} (j k : FileKey) (rows : Dict FileKey V)
    → lookup j (filter (λ row. not (file_key_eq.beq k row.0)) rows)
      ≡ (if file_key_eq.beq k j then none else lookup j rows)
lookup-filter j k [] = ground arith
lookup-filter j k ((i, v) ∷ rows) = ground (
  arith,
  lookup-filter j k rows,
  file_key_eq.beq_iff k j,
  file_key_eq.beq_iff i j,
  file_key_eq.beq_iff k i,
)
