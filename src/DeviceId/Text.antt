-- ===== src/DeviceId/Text.antt =====
-- The text of a device id, src/device_id.rs: `Display` and `TryFrom<&str>`.
use grizol.Prelude.{
  ℕ, zero, suc, ◌+◌, ◌*◌, min, ◌≡◌, refl, ap, sym, subst, ◌∙◌, true, some, [], ◌∷◌, ◌++◌,
  append-nil, append_assoc, map, length, length-append, take, drop, take-append-drop, length-take,
  length-drop, ltb, ==_iff, if◌then◌else◌, All, arith,
}
use mathlib.Core.Path.{ap₂}
use grizol.Prelude.Outcome.{ok, ◌>>=◌}
use grizol.Prelude.Bytes.{Bytes, slice, slice_middle}
use grizol.DeviceId.{
  IdError, DeviceId, Base32, luhn32, luhnify_loop, luhnify, unluhnify, chunkify_loop, chunkify,
  trim_end, to_upper, remove_chunks, fix_typo, is_ascii, chunkify_expected, to_text, try_from_text,
}
use grizol.DeviceId.Luhn.{IsDigit, luhn32_total}
use grizol.DeviceId.Groups.{unluhnify-luhnify}

All-append : (xs ys : Bytes) → All IsDigit xs → All IsDigit ys → All IsDigit (xs ++ ys)
All-append [] ys hx hy = hy
All-append (x ∷ xs) ys hx hy = (hx.0, All-append xs ys hx.1 hy)

All-split : (xs ys : Bytes) → All IsDigit (xs ++ ys) → All IsDigit xs × All IsDigit ys
All-split [] ys h = (tt, h)
All-split (x ∷ xs) ys h = let (a, b) = All-split xs ys h.1 in ((h.0, a), b)

luhnify_loop_total :
    (rounds i : ℕ) (before rest res : Bytes)
    → length before ≡ i * 13
    → length rest ≡ rounds * 13
    → All IsDigit rest
    → All IsDigit res
    → (t : Bytes) × (luhnify_loop rounds i (before ++ rest) res ≡ ok t) × All IsDigit t
unfolding luhnify_loop
luhnify_loop_total zero i before rest res hb hr a b = (res, refl, b)
luhnify_loop_total (suc rounds) i before rest res hb hr a b =
    let p = take 13 rest in
    let after = drop 13 rest in
    let cut : p ++ after ≡ rest = take-append-drop 13 rest in
    let (hp, ha) = All-split p after (subst (All IsDigit) (sym cut) a) in
    let (l, e, hl) = luhn32_total p hp in
    let len : length p ≡ 13 = omega (arith, length-take 13 rest) in
    let (t, f, ht) =
      luhnify_loop_total rounds (i + 1) (before ++ p) after (res ++ (p ++ l ∷ []))
        (omega (arith, length-append before p)) (omega (arith, length-drop 13 rest)) ha
        (All-append res (p ++ l ∷ []) b (All-append p (l ∷ []) hp (hl, tt))) in
    let whole : (before ++ p) ++ after ≡ before ++ rest =
      append_assoc before p after ∙ ap (λ r. before ++ r) cut in
    (
      t,
      subst
          (λ r.
            (slice (i * 13) ((i + 1) * 13) (before ++ r) >>= λ q.
            luhn32 q >>= λ k. luhnify_loop rounds (i + 1) (before ++ r) (res ++ (q ++ k ∷ [])))
            ≡ ok t)
          cut
          (rw
            (
              slice_middle {E = IdError} (i * 13) ((i + 1) * 13) before p after (omega arith)
                  (omega arith),
              e,
            )
            (subst (λ s. luhnify_loop rounds (i + 1) s (res ++ (p ++ l ∷ [])) ≡ ok t)
              (append_assoc before p after) f)),
      ht,
    )

-- Luhnify returns on every text of 52 characters of the alphabet, and what it returns is of the
-- alphabet.
pub luhnify_total :
    (s : Bytes) → length s ≡ 52 → All IsDigit s → (t : Bytes) × (luhnify s ≡ ok t) × All IsDigit t
unfolding luhnify
luhnify_total s len h = rw ((==_iff _ _).1 len) (luhnify_loop_total 4 0 [] s [] refl len h tt)

-- Chunks come apart again: upper case, without dashes and typos, they are the text.
clean : Bytes → Bytes
clean s = map fix_typo (remove_chunks (map to_upper s))

clean-digits : (s : Bytes) → All IsDigit s → clean s ≡ s
unfolding clean remove_chunks
clean-digits [] h = refl
clean-digits (c ∷ s) h = ground (arith, clean-digits s h.1)

clean-append : (xs ys : Bytes) → clean (xs ++ ys) ≡ clean xs ++ clean ys
unfolding clean remove_chunks
clean-append [] ys = refl
clean-append (c ∷ xs) ys = ground (arith, clean-append xs ys)

abbrev dash_if : ℕ → Bytes
dash_if i = if ltb 0 i then b'-' ∷ [] else []

clean-dash_if : (i : ℕ) (s : Bytes) → clean (dash_if i ++ s) ≡ clean s
unfolding clean remove_chunks
clean-dash_if i s = ground arith

is_ascii-append :
    (xs ys : Bytes) → is_ascii xs ≡ true → is_ascii ys ≡ true → is_ascii (xs ++ ys) ≡ true
unfolding is_ascii
is_ascii-append [] ys h k = k
is_ascii-append (x ∷ xs) ys h k = ground (arith, is_ascii-append xs ys)

is_ascii-digits : (s : Bytes) → All IsDigit s → is_ascii s ≡ true
unfolding is_ascii
is_ascii-digits [] h = refl
is_ascii-digits (c ∷ s) h = ground (arith, is_ascii-digits s h.1)

is_ascii-dash_if : (i : ℕ) → is_ascii (dash_if i) ≡ true
unfolding is_ascii
is_ascii-dash_if i = ground arith

chunkify_round :
    (rounds i : ℕ) (before p after res : Bytes)
    → length before ≡ i * 7
    → length p ≡ 7
    → chunkify_loop (suc rounds) i (before ++ (p ++ after)) res
      ≡ chunkify_loop rounds (i + 1) (before ++ (p ++ after)) (res ++ (dash_if i ++ p))
unfolding chunkify_loop
chunkify_round rounds i before p after res hb hp = rw (
    slice_middle {E = IdError} (i * 7) (min ((i + 1) * 7) (length (before ++ (p ++ after)))) before
      p after (omega arith)
      (omega (arith, length-append before (p ++ after), length-append p after)))

-- What the rounds of `chunkify` write is ASCII, and is the text again once it is cleaned.
chunkify_loop-clean :
    (rounds i : ℕ) (before rest res : Bytes)
    → length before ≡ i * 7
    → length rest ≡ rounds * 7
    → All IsDigit rest
    → (u : Bytes) × (chunkify_loop rounds i (before ++ rest) res ≡ ok (res ++ u))
      × (clean u ≡ rest)
      × (is_ascii u ≡ true)
chunkify_loop-clean zero i before [] res hb hr h = (
  [],
  unfold chunkify_loop in (ap ok (sym (append-nil res))),
  clean-digits [] tt,
  is_ascii-digits [] tt,
)
chunkify_loop-clean zero i before (c ∷ rest) res hb hr h = absurd (omega arith)
chunkify_loop-clean (suc rounds) i before rest res hb hr h =
    let p = take 7 rest in
    let after = drop 7 rest in
    let cut : p ++ after ≡ rest = take-append-drop 7 rest in
    let (hp, ha) = All-split p after (subst (All IsDigit) (sym cut) h) in
    let len : length p ≡ 7 = omega (arith, length-take 7 rest) in
    let (u, e, c, a) =
      chunkify_loop-clean rounds (i + 1) (before ++ p) after (res ++ (dash_if i ++ p))
        (omega (arith, length-append before p)) (omega (arith, length-drop 7 rest)) ha in
    (
      (dash_if i ++ p) ++ u,
      subst
          (λ r.
            chunkify_loop (suc rounds) i (before ++ r) res ≡ ok (res ++ ((dash_if i ++ p) ++ u)))
          cut
          (chunkify_round rounds i before p after res hb len
            ∙ ap (λ s. chunkify_loop rounds (i + 1) s (res ++ (dash_if i ++ p)))
                (sym (append_assoc before p after))
            ∙ e
            ∙ ap ok (append_assoc res (dash_if i ++ p) u)),
      clean-append (dash_if i ++ p) u
          ∙ ap₂ (λ x y. x ++ y) (clean-dash_if i p ∙ clean-digits p hp) c
          ∙ cut,
      is_ascii-append (dash_if i ++ p) u
          (is_ascii-append (dash_if i) p (is_ascii-dash_if i) (is_ascii-digits p hp)) a,
    )

abbrev pub padding : Bytes
padding = b'=' ∷ b'=' ∷ b'=' ∷ b'=' ∷ []

trim_end-padding : (s : Bytes) → All IsDigit s → trim_end (s ++ padding) ≡ s
unfolding trim_end
trim_end-padding [] h = refl
trim_end-padding (c ∷ []) h = ground arith
trim_end-padding (c ∷ d ∷ s) h =
    let rest : trim_end (d ∷ s ++ padding) ≡ d ∷ s = trim_end-padding (d ∷ s) h.1 in
    ground (arith, rest)

chunkify-clean :
    (s : Bytes)
    → length s ≡ 56
    → All IsDigit s
    → (u : Bytes) × (chunkify s ≡ ok u) × (clean u ≡ s) × (is_ascii u ≡ true)
unfolding chunkify
chunkify-clean s len h =
    let (u, e, c, a) = chunkify_loop-clean 8 0 [] s [] refl len h in (u, rw len e, c, a)

-- What the base 32 codec of 32 bytes does: 52 characters of the alphabet and four of padding, which
-- decode to the bytes again.
pub record Encodes (base32 : Base32) (d : DeviceId) (digits : Bytes) : Type 0 where
  pub encoded : base32.encode d.id ≡ digits ++ padding
  pub decoded : base32.decode (digits ++ padding) ≡ some d.id
  pub digit_count : length digits ≡ 52
  pub all_digits : All IsDigit digits
  pub byte_count : length d.id ≡ 32

try_from_clean :
    (base32 : Base32) (d : DeviceId) (digits t u : Bytes)
    → Encodes base32 d digits
    → is_ascii u ≡ true
    → clean u ≡ t
    → unluhnify t ≡ ok digits
    → try_from_text base32 u ≡ ok d
unfolding try_from_text clean
try_from_clean base32 d digits t u h a c back =
    rw (a, c, back, h.decoded, (==_iff _ _).1 h.byte_count)

-- Where the base 32 codec encodes the 32 bytes of a device id as 52 characters of its alphabet and
-- four of padding, and decodes these to the bytes, the id has a text, and reading that text gives
-- the id again.
pub try_from_text-to_text :
    (base32 : Base32) (d : DeviceId) (digits : Bytes)
    → Encodes base32 d digits
    → (text : Bytes) × (to_text base32 d ≡ ok text) × (try_from_text base32 text ≡ ok d)
unfolding to_text chunkify_expected
try_from_text-to_text base32 d digits h =
    let (t, e, td) = luhnify_total digits h.digit_count h.all_digits in
    let (len, back) = unluhnify-luhnify digits t e in
    let (u, f, c, a) = chunkify-clean t len td in
    (
      u,
      rw (h.encoded, trim_end-padding digits h.all_digits, e) f,
      try_from_clean base32 d digits t u h a c back,
    )
