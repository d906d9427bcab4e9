-- ===== src/Fuse/Refresh.antt =====
-- The loop of `refresh_expired_folders_files`, src/fuse.rs, that inserts the files into the tree.
use grizol.Prelude.{
  ℕ, zero, suc, ◌+◌, ◌≤◌, ◌≡◌, refl, sym, ap, subst, ◌∙◌, Bool, true, false, ◌||◌, List, [], ◌∷◌,
  ◌++◌, append_assoc, length, length-append, arith,
}
use grizol.Prelude.Outcome.{Outcome, ok}
use grizol.Prelude.Bytes.{Bytes}
use grizol.Fuse.{GrizolFsMem, GrizolFileInfo, split_path, insert_files}
use grizol.Fuse.Paths.{path_eq, has_path}
use grizol.Fuse.Waiting.{
  is_ready, is_path_of, IsQueue, insert_file_ready, insert_file_waits, insert_files_ready,
  insert_files_waits, is_path_of-rotate, IsQueue-rotate, IsQueue-insert, find_ready,
}

-- What the loop comes to.
abbrev Returns : Type 0 → ℕ → List GrizolFileInfo → GrizolFsMem → Type 0
Returns E k fs m =
    (m' : GrizolFsMem) × (◌≡◌ {A = Outcome E GrizolFsMem} (insert_files k fs m) (ok m'))
    × ((q : List Bytes) → has_path q m'.root ≡ (is_path_of q fs || has_path q m.root))

-- The loop on queues of `n` files.
abbrev ReturnsFor : Type 0 → ℕ → ℕ → Type 0
ReturnsFor E n r =
    (fs : List GrizolFileInfo) (m : GrizolFsMem) (k : ℕ)
    → length fs ≡ n
    → r ≤ k
    → IsQueue fs m
    → Returns E k fs m

Returns-next :
    {E : Type 0} (n r k : ℕ) (f : GrizolFileInfo) (fs : List GrizolFileInfo) (m : GrizolFsMem)
    → ReturnsFor E n r
    → length fs ≡ n
    → r ≤ k
    → IsQueue (f ∷ fs) m
    → is_ready m f ≡ true
    → Returns E (suc k) (f ∷ fs) m
Returns-next {E} n r k f fs m shorter e le queue ready =
    let (m₁, inserted, paths, _) = insert_file_ready {E = E} f m queue.0.0 ready in
    let paths₁ = paths queue.2.0 in
    let (m', res, paths') = shorter fs m₁ k e le (IsQueue-insert f fs m m₁ paths₁ queue) in
    (m', insert_files_ready k f fs m m₁ inserted ∙ res, λ q. paths' q ∙ ground (arith, paths₁ q))

Returns-waiting :
    {E : Type 0} (k : ℕ) (f : GrizolFileInfo) (fs : List GrizolFileInfo) (m : GrizolFsMem)
    → is_ready m f ≡ false
    → Returns E k (fs ++ f ∷ []) m
    → Returns E (suc k) (f ∷ fs) m
Returns-waiting k f fs m waits (m', res, paths) = (
  m',
  insert_files_waits k f fs m (insert_file_waits f m waits) ∙ res,
  λ q. paths q ∙ ap (λ b. b || has_path q m.root) (is_path_of-rotate q f fs),
)

Returns-either :
    {E : Type 0} (b : Bool) (n r k : ℕ) (f : GrizolFileInfo) (fs : List GrizolFileInfo)
    (m : GrizolFsMem)
    → is_ready m f ≡ b
    → ReturnsFor E n r
    → length fs ≡ n
    → r ≤ k
    → IsQueue (f ∷ fs) m
    → (IsQueue (fs ++ f ∷ []) m → Returns E k (fs ++ f ∷ []) m)
    → Returns E (suc k) (f ∷ fs) m
Returns-either true n r k f fs m ready shorter e le queue later =
    Returns-next n r k f fs m shorter e le queue ready
Returns-either false n r k f fs m waits shorter e le queue later =
    Returns-waiting k f fs m waits (later (IsQueue-rotate f fs m queue))

-- The queue comes to its file that can be inserted, unless another one is inserted before.
Returns-at :
    {E : Type 0} (n r k : ℕ) (xs : List GrizolFileInfo) (g : GrizolFileInfo)
    (ys : List GrizolFileInfo) (m : GrizolFsMem)
    → ReturnsFor E n r
    → length (xs ++ ys) ≡ n
    → length xs + suc r ≤ k
    → IsQueue (xs ++ g ∷ ys) m
    → is_ready m g ≡ true
    → Returns E k (xs ++ g ∷ ys) m
Returns-at n r zero [] g ys m shorter e le queue ready = ground arith
Returns-at n r (suc k) [] g ys m shorter e le queue ready =
    Returns-next n r k g ys m shorter e (omega arith) queue ready
Returns-at n r zero (f ∷ xs) g ys m shorter e le queue ready = ground arith
Returns-at {E} n r (suc k) (f ∷ xs) g ys m shorter e le queue ready =
    let rotated : xs ++ g ∷ ys ++ f ∷ [] ≡ xs ++ (g ∷ (ys ++ f ∷ [])) =
      append_assoc xs (g ∷ ys) (f ∷ []) in
    Returns-either (is_ready m f) n r k f (xs ++ g ∷ ys) m refl shorter
      (length-append xs (g ∷ ys) ∙ ground (arith, length-append xs ys, e)) (omega arith) queue
      (λ queue'.
        subst (λ fs. Returns E k fs m) (sym rotated)
          (Returns-at n r k xs g (ys ++ f ∷ []) m shorter
            (length-append xs (ys ++ f ∷ [])
              ∙ ground (arith, length-append xs ys, length-append ys (f ∷ []), e))
            (omega arith) (subst (λ fs. IsQueue fs m) rotated queue') ready))

length_middle :
    (xs : List GrizolFileInfo) (g : GrizolFileInfo) (ys fs : List GrizolFileInfo)
    → fs ≡ xs ++ g ∷ ys
    → length fs ≡ suc (length (xs ++ ys))
length_middle xs g ys fs e =
    ap length e ∙ length-append xs (g ∷ ys) ∙ ground (arith, length-append xs ys)

-- The rounds that the loop takes at most for `n` files.
abbrev pub rounds_for : ℕ → ℕ
rounds_for zero = 0
rounds_for (suc n) = suc n + rounds_for n

insert_files_returns : {E : Type 0} (n : ℕ) → ReturnsFor E n (rounds_for n)
unfolding insert_files
insert_files_returns zero [] m k e le queue = (m, refl, λ q. refl)
insert_files_returns zero (f ∷ fs) m k e le queue = ground arith
insert_files_returns (suc n) [] m k e le queue = ground arith
insert_files_returns {E} (suc n) (f ∷ fs) m k e le queue =
    let path = split_path f in
    let here : is_path_of path (f ∷ fs) ≡ true = ground (arith, path_eq.beq_iff path path) in
    let (xs, g, ys, parts, ready) =
      find_ready (length path) path (f ∷ fs) m (omega arith) here queue.1 in
    let size = length_middle xs g ys (f ∷ fs) parts in
    let pieces = length-append xs ys in
    subst (λ fs. Returns E k fs m) (sym parts)
      (Returns-at n (rounds_for n) k xs g ys m (insert_files_returns n) (omega arith) (omega arith)
        (subst (λ fs. IsQueue fs m) parts queue) ready)

-- Where the files have different paths that the tree does not have, and the parent of each is in the
-- tree or one of the files, the loop ends within n(n+1)/2 rounds for n files in any order, and the
-- tree has their paths and those that it had.
pub insert_files-has_path :
    {E : Type 0} (fs : List GrizolFileInfo) (m : GrizolFsMem) (rounds : ℕ)
    → IsQueue fs m
    → rounds_for (length fs) ≤ rounds
    → (m' : GrizolFsMem) × (◌≡◌ {A = Outcome E GrizolFsMem} (insert_files rounds fs m) (ok m'))
      × ((q : List Bytes) → has_path q m'.root ≡ (is_path_of q fs || has_path q m.root))
insert_files-has_path fs m rounds queue le =
    insert_files_returns (length fs) fs m rounds refl le queue
