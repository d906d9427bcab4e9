-- ===== src/DeviceId/Luhn.antt =====
-- The check digit of src/device_id.rs: which texts have one, and which errors it shows.
use grizol.Prelude.{
  ℕ, zero, suc, ◌+◌, ◌-◌, ◌*◌, ◌/◌, ◌%◌, ◌≤◌, ◌<◌, ◌≡◌, refl, ap, sym, subst, ◌∙◌, ◌⊎◌, inl, inr,
  Bool, true, false, ◌&&◌, Option, none, some, [], ◌∷◌, ◌++◌, get_elem?, ltb, leb, ◌==◌,
  if◌then◌else◌, All, arith,
}
use grizol.Prelude.Outcome.{ok, >>=-eq-ok, unwrap}
use grizol.Prelude.Bytes.{Bytes}
use grizol.DeviceId.{IdError, luhn_base32, codepoint32, luhn_sum, luhn32}

-- A character of the base 32 alphabet.
abbrev pub IsDigit : ℕ → Type 0
IsDigit c = ((b'A' ≤ c) × (c ≤ b'Z')) ⊎ ((b'2' ≤ c) × (c ≤ b'7'))

abbrev pub value : ℕ → ℕ
value c = if leb b'A' c then c - 65 else c - 24

codepoint32-IsDigit : (c : ℕ) → IsDigit c → codepoint32 c ≡ ok (value c)
unfolding codepoint32
codepoint32-IsDigit c h = ground arith

codepoint32-eq-ok : (c v : ℕ) → codepoint32 c ≡ ok v → IsDigit c × (v ≡ value c) × (v < 32)
unfolding codepoint32
codepoint32-eq-ok c v e = ground arith

holds_to : (ℕ → Bool) → ℕ → Bool
holds_to test zero = true
holds_to test (suc bound) = holds_to test bound && test bound

holds_to_lem :
    (test : ℕ → Bool) (bound i : ℕ) → i < bound → holds_to test bound ≡ true → test i ≡ true
unfolding holds_to
holds_to_lem test zero i below all = absurd (omega arith)
holds_to_lem test (suc bound) i below all = ground (arith, holds_to_lem test bound i)

abbrev holds_digit : Option ℕ → ℕ → Bool
holds_digit none i = false
holds_digit (some c) i = (c == (if ltb i 26 then i + 65 else i + 24))

alphabet_table : holds_to (λ i. holds_digit (get_elem? luhn_base32 i) i) 32 ≡ true
unfolding holds_to
alphabet_table = refl

-- The digit of every value below 32.
pub get_elem?-luhn_base32 :
    (i : ℕ) → i < 32 → get_elem? luhn_base32 i ≡ some (if ltb i 26 then i + 65 else i + 24)
get_elem?-luhn_base32 i h = from (get_elem? luhn_base32 i) (holds_to_lem _ 32 i h alphabet_table)
  where
    from : (o : Option ℕ) → holds_digit o i ≡ true → o ≡ some (if ltb i 26 then i + 65 else i + 24)
    from none e = absurd (cc)
    from (some c) e = ground arith

-- Every text of digits has a sum.
luhn_sum_total :
    (s : Bytes) (factor sum : ℕ) → All IsDigit s → (r : ℕ) × (luhn_sum factor sum s ≡ ok r)
unfolding luhn_sum
luhn_sum_total [] factor sum h = (sum, refl)
luhn_sum_total (c ∷ s) factor sum h =
    let v = factor * value c in
    let (r, e) = luhn_sum_total s (if factor == 2 then 1 else 2) (sum + (v / 32 + v % 32)) h.1 in
    (r, rw (codepoint32-IsDigit c h.0) e)

-- A text of characters of the alphabet has a check digit, which is of the alphabet.
pub luhn32_total : (s : Bytes) → All IsDigit s → (l : ℕ) × (luhn32 s ≡ ok l) × IsDigit l
unfolding luhn32
luhn32_total s h =
    let (r, e) = luhn_sum_total s 1 0 h in
    let i = (32 - r % 32) % 32 in
    (
      (if ltb i 26 then i + 65 else i + 24),
      rw (e, get_elem?-luhn_base32 i (omega arith)),
      ground arith,
    )

abbrev addend : ℕ → ℕ → ℕ
addend factor v = factor * v / 32 + factor * v % 32

-- The sum starts from its first argument.
luhn_sum_shift :
    (s : Bytes) (factor a b r q : ℕ)
    → luhn_sum factor a s ≡ ok r
    → luhn_sum factor b s ≡ ok q
    → r + b ≡ q + a
unfolding luhn_sum
luhn_sum_shift [] factor a b r q e f = ground arith
luhn_sum_shift (c ∷ s) factor a b r q e f =
    let (v, e1, e2) = >>=-eq-ok (codepoint32 c) _ e in
    let (w, f1, f2) = >>=-eq-ok (codepoint32 c) _ f in
    let same : v ≡ w = cc in
    let next : ℕ = if factor == 2 then 1 else 2 in
    omega (
      arith,
      ap (addend factor) same,
      luhn_sum_shift s next (a + addend factor v) (b + addend factor w) r q e2 f2,
    )

addend_injective :
    (factor v w : ℕ)
    → (factor ≡ 1) ⊎ (factor ≡ 2)
    → v < 32
    → w < 32
    → addend factor v % 32 ≡ addend factor w % 32
    → v ≡ w
addend_injective factor v w (inl one) a b e = ground arith
addend_injective factor v w (inr two) a b e = ground arith

value_injective : (c d : ℕ) → IsDigit c → IsDigit d → value c ≡ value d → c ≡ d
value_injective c d h k e = ground arith

abbrev next_factor : ℕ → ℕ
next_factor factor = if factor == 2 then 1 else 2

next_factor_range : (factor : ℕ) → (next_factor factor ≡ 1) ⊎ (next_factor factor ≡ 2)
next_factor_range factor = ground arith

-- Two texts that differ in one character have different sums.
luhn_sum_substitution :
    (xs ys : Bytes) (c d factor sum r q : ℕ)
    → (factor ≡ 1) ⊎ (factor ≡ 2)
    → luhn_sum factor sum (xs ++ c ∷ ys) ≡ ok r
    → luhn_sum factor sum (xs ++ d ∷ ys) ≡ ok q
    → r % 32 ≡ q % 32
    → c ≡ d
unfolding luhn_sum
luhn_sum_substitution [] ys c d factor sum r q one e f same =
    let (v, e1, e2) = >>=-eq-ok (codepoint32 c) _ e in
    let (w, f1, f2) = >>=-eq-ok (codepoint32 d) _ f in
    let (cd, cv, cb) = codepoint32-eq-ok c v e1 in
    let (dd, dv, db) = codepoint32-eq-ok d w f1 in
    let shift =
      luhn_sum_shift ys (if factor == 2 then 1 else 2) (sum + addend factor v)
        (sum + addend factor w) r q e2 f2 in
    let vw : v ≡ w = addend_injective factor v w one cb db (omega arith) in
    value_injective c d cd dd (sym cv ∙ vw ∙ dv)
luhn_sum_substitution (x ∷ xs) ys c d factor sum r q one e f same =
    let (v, e1, e2) = >>=-eq-ok (codepoint32 x) _ e in
    let (w, f1, f2) = >>=-eq-ok (codepoint32 x) _ f in
    let vw : w ≡ v = cc in
    luhn_sum_substitution xs ys c d (if factor == 2 then 1 else 2) (sum + addend factor v) r q
      (next_factor_range factor) e2
      (subst
        (λ u. luhn_sum (if factor == 2 then 1 else 2) (sum + addend factor u) (xs ++ d ∷ ys) ≡ ok q)
        vw f2)
      same

digit_injective :
    (i j : ℕ) (l : ℕ)
    → i < 32
    → j < 32
    → unwrap {E = IdError} (get_elem? luhn_base32 i) ≡ ok l
    → unwrap {E = IdError} (get_elem? luhn_base32 j) ≡ ok l
    → i ≡ j
digit_injective i j l a b e f = ground (arith, get_elem?-luhn_base32 i a, get_elem?-luhn_base32 j b)

-- A text with one character exchanged for another never has the same check digit: if both have it,
-- the characters are the same.
pub luhn32_substitution :
    (xs ys : Bytes) (c d l : ℕ)
    → luhn32 (xs ++ c ∷ ys) ≡ ok l
    → luhn32 (xs ++ d ∷ ys) ≡ ok l
    → c ≡ d
unfolding luhn32
luhn32_substitution xs ys c d l e f =
    let (r, e1, e2) = >>=-eq-ok (luhn_sum 1 0 (xs ++ c ∷ ys)) _ e in
    let (q, f1, f2) = >>=-eq-ok (luhn_sum 1 0 (xs ++ d ∷ ys)) _ f in
    let same =
      digit_injective ((32 - r % 32) % 32) ((32 - q % 32) % 32) l (omega arith) (omega arith) e2
        f2 in
    luhn_sum_substitution xs ys c d 1 0 r q (inl refl) e1 f1 (omega arith)
