-- ===== src/State/Evicted.antt =====
-- The files that src/core/bep_state.rs takes out of the read cache to make room.
use grizol.Prelude.{
  ℕ, ◌+◌, ◌^◌, ◌≤◌, ◌<◌, ◌≡◌, refl, ap, Bool, true, false, ◌⊎◌, inl, inr, List, [], ◌∷◌, ◌++◌, leb,
  arith, All,
}
use grizol.Prelude.Int.{ℤ, pos, negsuc, pos_part, ltb_ℤ}
use grizol.Prelude.Keys.{int_eq}
use grizol.Prelude.Outcome.{Outcome, ok, >>=-ok}
use grizol.Requests.{add_usize}
use grizol.State.Tables.{file_key_eq}
use grizol.State.Cache.{CachedFile, to_u64, take_files}

-- The bytes of the files.
abbrev pub total : List CachedFile → ℕ
total [] = 0
total (f ∷ fs) = pos_part f.size + total fs

to_u64-sized :
    {E : Type 0} (size : ℤ)
    → ltb_ℤ size (pos 0) ≡ false
    → ◌≡◌ {A = Outcome E ℕ} (to_u64 size) (ok (pos_part size))
to_u64-sized (pos n) h = refl
to_u64-sized (negsuc n) h = ground arith

add_usize_small :
    {E : Type 0} (a b : ℕ) → a + b < 2 ^ 64 → ◌≡◌ {A = Outcome E ℕ} (add_usize a b) (ok (a + b))
add_usize_small a b h = ground arith

-- Each of the files is taken where the bytes that are available are not enough.
abbrev pub AreNeeded : ℕ → ℕ → List CachedFile → Type 0
AreNeeded needed available [] = Unit
AreNeeded needed available (f ∷ fs) =
    (available < needed) × AreNeeded needed (available + pos_part f.size) fs

-- The first files are taken, each of them needed, until enough bytes are available or no file is left.
abbrev pub IsTaken : ℕ → ℕ → List CachedFile → List CachedFile → List CachedFile → Type 0
IsTaken needed available fs taken kept =
    (taken ++ kept ≡ fs)
    × AreNeeded needed available taken
    × (needed ≤ available + total taken ⊎ kept ≡ [])

-- What the loop takes.
abbrev Takes : Type 0 → ℕ → ℕ → List CachedFile → Type 0
Takes E needed available fs =
    (taken : List CachedFile) × (kept : List CachedFile) × (◌≡◌ {A = Outcome E (List CachedFile)}
      (take_files needed available fs) (ok taken))
    × IsTaken needed available fs taken kept

take_one :
    {E : Type 0} (needed available : ℕ) (f : CachedFile) (fs : List CachedFile) (b : Bool)
    → leb needed available ≡ b
    → ltb_ℤ f.size (pos 0) ≡ false
    → available + total (f ∷ fs) < 2 ^ 64
    → Takes E needed (available + pos_part f.size) fs
    → Takes E needed available (f ∷ fs)
unfolding take_files
take_one needed available f fs true enough s h rest =
    ([], f ∷ fs, rw enough refl, (refl, tt, inl (ground arith)))
take_one needed available f fs false short s h (taken, kept, e, (parts, need, left)) = (
  f ∷ taken,
  kept,
  rw short (
      >>=-ok _ (to_u64-sized f.size s)
        (>>=-ok _ (add_usize_small available (pos_part f.size) (omega arith)) (>>=-ok _ e refl))),
  (ap (λ xs. f ∷ xs) parts, (ground arith, need), ground (arith, left)),
)

pub take_files-IsTaken :
    {E : Type 0} (needed available : ℕ) (fs : List CachedFile)
    → All (λ (f : CachedFile). ltb_ℤ f.size (pos 0) ≡ false) fs
    → available + total fs < 2 ^ 64
    → Takes E needed available fs
unfolding take_files
take_files-IsTaken needed available [] sized h = ([], [], refl, (refl, tt, inr refl))
take_files-IsTaken {E} needed available (f ∷ fs) (s, sized) h =
    take_one {E = E} needed available f fs (leb needed available) refl s h
      (take_files-IsTaken {E = E} needed (available + pos_part f.size) fs sized (omega arith))
