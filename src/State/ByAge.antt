-- ===== src/State/ByAge.antt =====
-- The order of the cached files, and which files they are.
use grizol.Prelude.{
  ◌≡◌, refl, ap, ◌∙◌, Bool, true, false, Option, none, some, inl, inr, List, [], ◌∷◌, ◌++◌,
  if◌then◌else◌, arith, All, Bool-cases, ◌&&◌, ◌||◌, subst, sym,
}
use grizol.Prelude.Int.{ℤ, pos, ltb_ℤ}
use grizol.Prelude.Keys.{int_eq, Dict, lookup}
use grizol.State.Tables.{FileKey, file_key_eq, FileColumns, Database, any}
use grizol.State.Cache.{CachedFile, with_size, join_sizes, place_by_age, sort_by_age, cached_files}

abbrev pub is_removed : FileKey → List CachedFile → Bool
is_removed k fs = any (λ f. file_key_eq.beq f.file k) fs

-- No file is older than `f`.
abbrev pub IsOldest : CachedFile → List CachedFile → Type 0
IsOldest f fs = All (λ (g : CachedFile). ltb_ℤ g.timestamp_added f.timestamp_added ≡ false) fs

-- No file of the second list is older than one of the first.
abbrev pub AreOlder : List CachedFile → List CachedFile → Type 0
AreOlder taken kept = All (λ (f : CachedFile). IsOldest f kept) taken

abbrev IsByAge : List CachedFile → Type 0
IsByAge [] = Unit
IsByAge (f ∷ fs) = IsOldest f fs × IsByAge fs

IsOldest-trans :
    (f g : CachedFile) (fs : List CachedFile)
    → ltb_ℤ g.timestamp_added f.timestamp_added ≡ false
    → IsOldest g fs
    → IsOldest f fs
IsOldest-trans f g [] l h = tt
IsOldest-trans f g (x ∷ fs) l (h, rest) = (ground arith, IsOldest-trans f g fs l rest)

place_if-IsOldest :
    (f g : CachedFile) (fs gs : List CachedFile) (b : Bool)
    → IsOldest g (f ∷ fs)
    → IsOldest g gs
    → IsOldest g (if b then gs else f ∷ fs)
place_if-IsOldest f g fs gs true h i = i
place_if-IsOldest f g fs gs false h i = h

place_by_age-IsOldest :
    (f g : CachedFile) (fs : List CachedFile)
    → ltb_ℤ f.timestamp_added g.timestamp_added ≡ false
    → IsOldest g fs
    → IsOldest g (place_by_age f fs)
place_by_age-IsOldest f g [] l h = (l, tt)
place_by_age-IsOldest f g (x ∷ fs) l (h, rest) =
    place_if-IsOldest f g (x ∷ fs) (x ∷ place_by_age f fs)
      (ltb_ℤ x.timestamp_added f.timestamp_added) (l, (h, rest))
      (h, place_by_age-IsOldest f g fs l rest)

place_by_age-IsByAge :
    (f : CachedFile) (fs : List CachedFile) → IsByAge fs → IsByAge (place_by_age f fs)
place_by_age-IsByAge f [] h = (tt, tt)
place_by_age-IsByAge f (g ∷ fs) (h, rest) =
    elim (Bool-cases (ltb_ℤ g.timestamp_added f.timestamp_added)) [
      | inl older ↦
          subst (λ b. IsByAge (if b then g ∷ place_by_age f fs else f ∷ g ∷ fs)) (sym older)
            (place_by_age-IsOldest f g fs (ground arith) h, place_by_age-IsByAge f fs rest)
      | inr newer ↦
          subst (λ b. IsByAge (if b then g ∷ place_by_age f fs else f ∷ g ∷ fs)) (sym newer)
            ((newer, IsOldest-trans f g fs newer h), (h, rest))
    ]

sort_by_age-IsByAge : (fs : List CachedFile) → IsByAge (sort_by_age fs)
sort_by_age-IsByAge [] = tt
sort_by_age-IsByAge (f ∷ fs) = place_by_age-IsByAge f (sort_by_age fs) (sort_by_age-IsByAge fs)

IsOldest-later :
    (f : CachedFile) (taken kept : List CachedFile) → IsOldest f (taken ++ kept) → IsOldest f kept
IsOldest-later f [] kept h = h
IsOldest-later f (g ∷ taken) kept (h, rest) = IsOldest-later f taken kept rest

IsByAge-AreOlder : (taken kept : List CachedFile) → IsByAge (taken ++ kept) → AreOlder taken kept
IsByAge-AreOlder [] kept h = tt
IsByAge-AreOlder (f ∷ taken) kept (h, rest) =
    (IsOldest-later f taken kept h, IsByAge-AreOlder taken kept rest)

pub cached_files-AreOlder :
    (db : Database) (taken kept : List CachedFile)
    → taken ++ kept ≡ cached_files db
    → AreOlder taken kept
unfolding cached_files
cached_files-AreOlder db taken kept e =
    IsByAge-AreOlder taken kept
      (subst IsByAge (sym e) (sort_by_age-IsByAge (join_sizes db.files db.cache)))

-- Whether the file is in the cache and has the type `FILE`.
abbrev is_file : Option FileColumns → Bool
is_file none = false
is_file (some r) = int_eq.beq r.type_code (pos 0)

abbrev is_there : Option ℤ → Bool
is_there none = false
is_there (some t) = true

abbrev pub is_cached : FileKey → Database → Bool
is_cached k db = is_there (lookup k db.cache) && is_file (lookup k db.files)

is_removed-place :
    (k : FileKey) (f : CachedFile) (fs : List CachedFile)
    → is_removed k (place_by_age f fs) ≡ is_removed k (f ∷ fs)
is_removed-place k f [] = refl
is_removed-place k f (g ∷ fs) = ground (arith, is_removed-place k f fs)

is_removed-sort :
    (k : FileKey) (fs : List CachedFile) → is_removed k (sort_by_age fs) ≡ is_removed k fs
is_removed-sort k [] = refl
is_removed-sort k (f ∷ fs) =
    is_removed-place k f (sort_by_age fs)
    ∙ ap (λ b. file_key_eq.beq f.file k || b) (is_removed-sort k fs)

is_removed-with_size :
    (k j : FileKey) (t : ℤ) (o : Option FileColumns) (rest : List CachedFile)
    → is_removed k (with_size j t o rest)
      ≡ ((file_key_eq.beq j k && is_file o) || is_removed k rest)
is_removed-with_size k j t none rest = ground arith
is_removed-with_size k j t (some r) rest = ground arith

same_key :
    (b f g r : Bool) (t : ℤ) (o : Option ℤ)
    → b ≡ true
    → f ≡ g
    → r ≡ (is_there o && g)
    → ((b && f) || r) ≡ (is_there (if b then some t else o) && g)
same_key b f g r t none e q h = ground arith
same_key b f g r t (some u) e q h = ground arith

other_key :
    (b f g r : Bool) (t : ℤ) (o : Option ℤ)
    → b ≡ false
    → r ≡ (is_there o && g)
    → ((b && f) || r) ≡ (is_there (if b then some t else o) && g)
other_key b f g r t o e h = ground arith

is_removed-join :
    (k : FileKey) (files : Dict FileKey FileColumns) (rows : Dict FileKey ℤ)
    → is_removed k (join_sizes files rows) ≡ (is_there (lookup k rows) && is_file (lookup k files))
is_removed-join k files [] = refl
is_removed-join k files ((j, t) ∷ rows) =
    let later = is_removed-join k files rows in
    let here = is_removed-with_size k j t (lookup j files) (join_sizes files rows) in
    elim (Bool-cases (file_key_eq.beq j k)) [
      | inl same ↦
          let q : j ≡ k = (file_key_eq.beq_iff j k).0 same in
          let file = ap (λ x. is_file (lookup x files)) q in
          here
          ∙ same_key (file_key_eq.beq j k) (is_file (lookup j files)) (is_file (lookup k files))
              (is_removed k (join_sizes files rows)) t (lookup k rows) same file later
      | inr other ↦
          here
          ∙ other_key (file_key_eq.beq j k) (is_file (lookup j files)) (is_file (lookup k files))
              (is_removed k (join_sizes files rows)) t (lookup k rows) other later
    ]

pub is_removed-cached_files :
    (k : FileKey) (db : Database) → is_removed k (cached_files db) ≡ is_cached k db
unfolding cached_files
is_removed-cached_files k db =
    is_removed-sort k (join_sizes db.files db.cache) ∙ is_removed-join k db.files db.cache
