-- ===== src/Fuse/Missing.antt =====
-- The loop of `refresh_expired_folders_files`, src/fuse.rs, on a file whose parent is missing.
use grizol.Prelude.{
  ℕ, zero, suc, ◌≡◌, refl, sym, subst, ◌∙◌, Bool, true, false, ◌||◌, List, [], ◌∷◌, ◌++◌,
  append_assoc, arith, All, All-append,
}
use grizol.Prelude.Outcome.{Outcome, diverge}
use grizol.Prelude.Bytes.{Bytes}
use grizol.Fuse.{GrizolFsMem, GrizolFileInfo, split_path, parents, insert_files}
use grizol.Fuse.Paths.{path_eq, has_path}
use grizol.Fuse.Waiting.{
  is_ready, is_path_of, fits, insert_file_ready, insert_file_waits, insert_files_ready,
  insert_files_waits, is_path_of-rotate,
}

-- The path is neither in the tree nor that of a file of the queue.
abbrev pub IsMissing : List Bytes → List GrizolFileInfo → GrizolFsMem → Type 0
IsMissing q fs m = (has_path q m.root ≡ false) × (is_path_of q fs ≡ false)

abbrev Diverges : Type 0 → ℕ → List GrizolFileInfo → GrizolFsMem → Type 0
Diverges E k fs m = ◌≡◌ {A = Outcome E GrizolFsMem} (insert_files k fs m) diverge

-- That the first file is inserted does not bring the path.
still_missing :
    (q p : List Bytes) (n n' : Bool)
    → (n' ≡ true → (path_eq.beq p q || n) ≡ true)
    → path_eq.beq p q ≡ false
    → n ≡ false
    → n' ≡ false
still_missing q p n false le other h = refl
still_missing q p n true le other h = ground (arith, le refl)

Diverges-next :
    {E : Type 0} (b : Bool) (k : ℕ) (g : GrizolFileInfo) (fs : List GrizolFileInfo) (q : List Bytes)
    (m : GrizolFsMem)
    → is_ready m g ≡ b
    → fits g ≡ true
    → IsMissing q (g ∷ fs) m
    → ((m' : GrizolFsMem) → IsMissing q fs m' → Diverges E k fs m')
    → (IsMissing q (fs ++ g ∷ []) m → Diverges E k (fs ++ g ∷ []) m)
    → Diverges E (suc k) (g ∷ fs) m
Diverges-next {E} true k g fs q m ready fit (absent, others) inserted waits =
    let (m', e, _, le) = insert_file_ready {E = E} g m fit ready in
    let other : path_eq.beq (split_path g) q ≡ false = ground arith in
    let rest : is_path_of q fs ≡ false = ground arith in
    insert_files_ready k g fs m m' e
    ∙ inserted m' (
      still_missing q (split_path g) (has_path q m.root) (has_path q m'.root) (le q) other absent,
      rest,
    )
Diverges-next false k g fs q m not_ready fit (absent, others) inserted waits =
    insert_files_waits k g fs m (insert_file_waits g m not_ready)
    ∙ waits (absent, is_path_of-rotate q g fs ∙ others)

-- Where the parent of one of the files is neither in the tree nor one of the files, the loop does
-- not end in any number of rounds.
pub insert_files-diverge :
    {E : Type 0} (k : ℕ) (xs : List GrizolFileInfo) (f : GrizolFileInfo) (ys : List GrizolFileInfo)
    (m : GrizolFsMem)
    → All (λ (g : GrizolFileInfo). fits g ≡ true) (xs ++ f ∷ ys)
    → IsMissing (parents (split_path f)) (xs ++ f ∷ ys) m
    → Diverges E k (xs ++ f ∷ ys) m
unfolding insert_files
insert_files-diverge zero [] f ys m fit missing = refl
insert_files-diverge zero (g ∷ xs) f ys m fit missing = refl
insert_files-diverge (suc k) [] f ys m (fit, all_fit) missing =
    insert_files_waits k f ys m (insert_file_waits f m missing.0)
    ∙ insert_files-diverge k ys f [] m
        (All-append (λ g. fits g ≡ true) ys (f ∷ []) all_fit (fit, tt))
        (missing.0, is_path_of-rotate (parents (split_path f)) f ys ∙ missing.1)
insert_files-diverge {E} (suc k) (g ∷ xs) f ys m (fit, all_fit) missing =
    let rotated : xs ++ f ∷ ys ++ g ∷ [] ≡ xs ++ (f ∷ (ys ++ g ∷ [])) =
      append_assoc xs (f ∷ ys) (g ∷ []) in
    let all_fit' = All-append (λ g. fits g ≡ true) (xs ++ f ∷ ys) (g ∷ []) all_fit (fit, tt) in
    Diverges-next (is_ready m g) k g (xs ++ f ∷ ys) (parents (split_path f)) m refl fit missing
      (λ m' missing'. insert_files-diverge k xs f ys m' all_fit missing')
      (λ missing'.
        subst (λ fs. Diverges E k fs m) (sym rotated)
          (insert_files-diverge k xs f (ys ++ g ∷ []) m
            (subst (All (λ g. fits g ≡ true)) rotated all_fit')
            (subst (λ fs. IsMissing (parents (split_path f)) fs m) rotated missing')))
