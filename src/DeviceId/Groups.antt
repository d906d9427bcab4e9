-- ===== src/DeviceId/Groups.antt =====
-- `luhnify` and `unluhnify` of src/device_id.rs: the second undoes the first, and a group with one
-- wrong character is refused.
use grizol.Prelude.{
  ℕ, zero, suc, ◌+◌, ◌-◌, ◌*◌, ◌≡◌, refl, ap, sym, subst, ◌∙◌, some, [], ◌∷◌, ◌++◌, append-nil,
  append_assoc, length, length-append, get_elem?, take, drop, take-append-drop, length-take,
  length-drop, ◌==◌, ==_iff, arith,
}
use grizol.Prelude.Outcome.{ok, >>=-eq-ok, ensure}
use grizol.Prelude.Bytes.{Bytes, slice_middle}
use grizol.DeviceId.{IdError, luhn32, luhnify_loop, luhnify, unluhnify_loop, unluhnify}
use grizol.DeviceId.Luhn.{luhn32_substitution}

get_elem?-append : (xs ys : Bytes) (y i : ℕ) → i ≡ length xs → get_elem? (xs ++ y ∷ ys) i ≡ some y
get_elem?-append [] ys y zero h = refl
get_elem?-append [] ys y (suc i) h = absurd (omega arith)
get_elem?-append (x ∷ xs) ys y zero h = absurd (omega arith)
get_elem?-append (x ∷ xs) ys y (suc i) h = get_elem?-append xs ys y i (omega arith)

get_check_digit :
    (i l : ℕ) (before p after : Bytes)
    → length before ≡ i * 14
    → length p ≡ 13
    → get_elem? (before ++ (p ++ l ∷ after)) ((i + 1) * 14 - 1) ≡ some l
get_check_digit i l before p after hb hp =
    subst (λ s. get_elem? s ((i + 1) * 14 - 1) ≡ some l) (append_assoc before p (l ∷ after))
      (get_elem?-append (before ++ p) after l ((i + 1) * 14 - 1)
        (omega (arith, length-append before p)))

-- One round of `unluhnify` on a group with its check digit.
unluhnify_round :
    (rounds i : ℕ) (before p after res : Bytes) (l : ℕ)
    → length before ≡ i * 14
    → length p ≡ 13
    → luhn32 p ≡ ok l
    → unluhnify_loop (suc rounds) i (before ++ (p ++ l ∷ after)) res
      ≡ unluhnify_loop rounds (i + 1) (before ++ (p ++ l ∷ after)) (res ++ p)
unfolding unluhnify_loop
unluhnify_round rounds i before p after res l hb hp e = rw (
  slice_middle {E = IdError} (i * 14) ((i + 1) * 14 - 1) before p (l ∷ after) (omega arith)
      (omega arith),
  e,
  get_check_digit i l before p after hb hp,
  (==_iff l l).1 refl,
)

luhnify_round :
    (rounds i : ℕ) (before p after res t : Bytes)
    → length before ≡ i * 13
    → length p ≡ 13
    → luhnify_loop (suc rounds) i (before ++ (p ++ after)) res ≡ ok t
    → (l : ℕ) × (luhn32 p ≡ ok l)
      × (luhnify_loop rounds (i + 1) (before ++ (p ++ after)) (res ++ (p ++ l ∷ [])) ≡ ok t)
unfolding luhnify_loop
luhnify_round rounds i before p after res t hb hp e = >>=-eq-ok (luhn32 p) _ (
    rw
      (slice_middle {E = IdError} (i * 13) ((i + 1) * 13) before p after (omega arith)
        (omega arith))
      at e)

-- What the rounds of `luhnify` write behind `res` is what the rounds of `unluhnify` take back.
abbrev TakenBack : ℕ → ℕ → Bytes → Bytes → Bytes → Type 0
TakenBack rounds i rest res t =
    (u : Bytes) × (t ≡ res ++ u)
    × (length u ≡ rounds * 14)
    × ((front out : Bytes)
        → length front ≡ i * 14
        → unluhnify_loop rounds i (front ++ u) out ≡ ok (out ++ rest))

TakenBack-round :
    (rounds i : ℕ) (p rest res t : Bytes) (l : ℕ)
    → length p ≡ 13
    → luhn32 p ≡ ok l
    → TakenBack rounds (i + 1) rest (res ++ (p ++ l ∷ [])) t
    → TakenBack (suc rounds) i (p ++ rest) res t
TakenBack-round rounds i p rest res t l hp e (u, same, len, back) = (
  p ++ l ∷ u,
  same ∙ append_assoc res (p ++ l ∷ []) u ∙ ap (λ s. res ++ s) (append_assoc p (l ∷ []) u),
  omega (arith, length-append p (l ∷ u)),
  λ front out h.
      unluhnify_round rounds i front p u out l h hp e
      ∙ ap (λ s. unluhnify_loop rounds (i + 1) s (out ++ p)) (regroup front)
      ∙ back (front ++ (p ++ l ∷ [])) (out ++ p)
          (omega (arith, length-append front (p ++ l ∷ []), length-append p (l ∷ [])))
      ∙ ap ok (append_assoc out p rest),
)
  where
    regroup : (front : Bytes) → front ++ (p ++ l ∷ u) ≡ (front ++ (p ++ l ∷ [])) ++ u
    regroup front =
        ap (λ s. front ++ s) (sym (append_assoc p (l ∷ []) u))
        ∙ sym (append_assoc front (p ++ l ∷ []) u)

luhnify_loop_back :
    (rounds i : ℕ) (before rest res t : Bytes)
    → length before ≡ i * 13
    → length rest ≡ rounds * 13
    → luhnify_loop rounds i (before ++ rest) res ≡ ok t
    → TakenBack rounds i rest res t
luhnify_loop_back zero i before [] res t hb hr e = (
  [],
  unfold luhnify_loop in (cc (append-nil res)),
  refl,
  λ front out h. unfold unluhnify_loop in (ap ok (sym (append-nil out))),
)
luhnify_loop_back zero i before (c ∷ rest) res t hb hr e = absurd (omega arith)
luhnify_loop_back (suc rounds) i before rest res t hb hr e =
    let p = take 13 rest in
    let after = drop 13 rest in
    let cut : p ++ after ≡ rest = take-append-drop 13 rest in
    let hp : length p ≡ 13 = omega (arith, length-take 13 rest) in
    let (l, d, f) =
      luhnify_round rounds i before p after res t hb hp
        (subst (λ r. luhnify_loop (suc rounds) i (before ++ r) res ≡ ok t) (sym cut) e) in
    subst (λ r. TakenBack (suc rounds) i r res t) cut
      (TakenBack-round rounds i p after res t l hp d (
        luhnify_loop_back rounds (i + 1) (before ++ p) after (res ++ (p ++ l ∷ [])) t
          (omega (arith, length-append before p)) (omega (arith, length-drop 13 rest))
          (subst (λ s. luhnify_loop rounds (i + 1) s (res ++ (p ++ l ∷ [])) ≡ ok t)
            (sym (append_assoc before p after)) f)))

-- What luhnify returns has 56 characters, and unluhnify gives back the text it was called on.
pub unluhnify-luhnify : (s t : Bytes) → luhnify s ≡ ok t → (length t ≡ 56) × (unluhnify t ≡ ok s)
unfolding luhnify unluhnify
unluhnify-luhnify s t e =
    let (x, e1, e2) = >>=-eq-ok (ensure (length s == 52) IdError.unsupported_length) _ e in
    let len : length s ≡ 52 = ground arith in
    let (u, same, lu, back) = luhnify_loop_back 4 0 [] s [] t refl len e2 in
    let lt : length u ≡ 56 = lu in rw same (lt, rw ((==_iff _ _).1 lt) (back [] [] refl))

-- A round of `unluhnify` goes on only behind a group whose check digit is right.
pub unluhnify_checked :
    (rounds i : ℕ) (before p after res t : Bytes) (l : ℕ)
    → length before ≡ i * 14
    → length p ≡ 13
    → unluhnify_loop (suc rounds) i (before ++ (p ++ l ∷ after)) res ≡ ok t
    → luhn32 p ≡ ok l
unfolding unluhnify_loop
unluhnify_checked rounds i before p after res t l hb hp f =
    let g =
      rw
        (slice_middle {E = IdError} (i * 14) ((i + 1) * 14 - 1) before p (l ∷ after) (omega arith)
          (omega arith))
        at f in
    let (k, e1, e2) = >>=-eq-ok (luhn32 p) _ g in
    let e3 = rw (get_check_digit i l before p after hb hp) at e2 in
    let (x, e4, e5) = >>=-eq-ok (ensure (l == k) IdError.incorrect_check_digit) _ e3 in
    let same : l ≡ k = ground arith in e1 ∙ ap ok (sym same)

-- A group with the check digit l is refused by a round of unluhnify when one of its characters was
-- exchanged: if the rounds succeed, the characters are the same.
pub unluhnify_substitution :
    (rounds i : ℕ) (before xs ys after res t : Bytes) (c d l : ℕ)
    → length before ≡ i * 14
    → length (xs ++ c ∷ ys) ≡ 13
    → luhn32 (xs ++ c ∷ ys) ≡ ok l
    → unluhnify_loop (suc rounds) i (before ++ ((xs ++ d ∷ ys) ++ l ∷ after)) res ≡ ok t
    → c ≡ d
unluhnify_substitution rounds i before xs ys after res t c d l hb hp e f =
    luhn32_substitution xs ys c d l e (
      unluhnify_checked rounds i before (xs ++ d ∷ ys) after res t l hb
        (omega (arith, length-append xs (c ∷ ys), length-append xs (d ∷ ys))) f)
