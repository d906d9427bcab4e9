-- ===== src/DeviceId.antt =====
-- Device ids and their texts, src/device_id.rs. A text is its bytes, so a `char` is a number.
-- SHA-256, the certificate reader and the base 32 codec are other crates; `Base32` is what the
-- conversions call of the last.
pub mod Luhn
pub mod Groups
pub mod Text
mod Tests
use grizol.Prelude.{
  ℕ, zero, suc, ◌+◌, ◌-◌, ◌*◌, ◌/◌, ◌%◌, min, Bool, true, false, not, ◌&&◌, ◌||◌, Option, none,
  some, List, [], ◌∷◌, ◌++◌, map, length, get_elem?, take, ltb, leb, ◌==◌, if◌then◌else◌,
}
use grizol.Prelude.Outcome.{Outcome, ok, err, panic, diverge, ◌>>=◌, ◌>>◌, ensure, unwrap}
use grizol.Prelude.Bytes.{Bytes, slice, from_be_bytes}

pub data IdError : Type 0 where
  not_ascii unsupported_length invalid_char incorrect_check_digit not_base32 wrong_byte_length :
      IdError

abbrev pub device_id_len : ℕ
device_id_len = 32

pub record DeviceId : Type 0 where
  pub id : Bytes

pub record Base32 : Type 0 where
  pub encode : Bytes → Bytes
  pub decode : Bytes → Option Bytes

-- LUHN_BASE32
abbrev pub luhn_base32 : Bytes
luhn_base32 =
    65 ∷ 66 ∷ 67 ∷ 68 ∷ 69 ∷ 70 ∷ 71 ∷ 72 ∷ 73 ∷ 74 ∷ 75 ∷ 76 ∷ 77 ∷ 78 ∷ 79 ∷ 80 ∷ 81 ∷ 82 ∷ 83
    ∷ 84 ∷ 85 ∷ 86 ∷ 87 ∷ 88 ∷ 89 ∷ 90 ∷ 50 ∷ 51 ∷ 52 ∷ 53 ∷ 54 ∷ 55 ∷ []

unfoldable pub codepoint32 : ℕ → Outcome IdError ℕ
codepoint32 b =
    if leb b'A' b && leb b b'Z'
    then ok (b - b'A')
    else if leb b'2' b && leb b b'7'
    then ok (b + 26 - b'2')
    else err invalid_char

-- The loop of `luhn32` over what is left of the text.
unfoldable pub luhn_sum : ℕ → ℕ → Bytes → Outcome IdError ℕ
luhn_sum factor sum [] = ok sum
luhn_sum factor sum (c ∷ s) = do
  codepoint ← codepoint32 c
  let addend = factor * codepoint
  luhn_sum (if factor == 2 then 1 else 2) (sum + (addend / 32 + addend % 32)) s

-- The check digit of `s`. The last step indexes an array.
unfoldable pub luhn32 : Bytes → Outcome IdError ℕ
unfolding luhn_sum
luhn32 s = do
  sum ← luhn_sum 1 0 s
  let remainder = sum % 32
  unwrap (get_elem? luhn_base32 ((32 - remainder) % 32))

-- The rounds of `luhnify` from the group `i` on: a group and its check digit are written behind `res`.
unfoldable pub luhnify_loop : ℕ → ℕ → Bytes → Bytes → Outcome IdError Bytes
luhnify_loop zero i s res = ok res
luhnify_loop (suc rounds) i s res = do
  p ← slice (i * 13) ((i + 1) * 13) s
  l ← luhn32 p
  luhnify_loop rounds (i + 1) s (res ++ (p ++ l ∷ []))

unfoldable pub luhnify : Bytes → Outcome IdError Bytes
unfolding luhnify_loop
luhnify s = ensure (length s == 52) unsupported_length >> luhnify_loop 4 0 s []

-- The rounds of `unluhnify`: a group is kept if its check digit is right.
unfoldable pub unluhnify_loop : ℕ → ℕ → Bytes → Bytes → Outcome IdError Bytes
unluhnify_loop zero i s res = ok res
unluhnify_loop (suc rounds) i s res = do
  p ← slice (i * 14) ((i + 1) * 14 - 1) s
  l ← luhn32 p
  c ← unwrap (get_elem? s ((i + 1) * 14 - 1))
  ensure (c == l) incorrect_check_digit
  unluhnify_loop rounds (i + 1) s (res ++ p)

unfoldable pub unluhnify : Bytes → Outcome IdError Bytes
unfolding unluhnify_loop
unluhnify s = ensure (length s == 56) unsupported_length >> unluhnify_loop 4 0 s []

-- A dash stands in front of every chunk but the first.
unfoldable pub chunkify_loop : ℕ → ℕ → Bytes → Bytes → Outcome IdError Bytes
chunkify_loop zero i s res = ok res
chunkify_loop (suc rounds) i s res = do
  chunk ← slice (i * 7) (min ((i + 1) * 7) (length s)) s
  chunkify_loop rounds (i + 1) s (res ++ ((if ltb 0 i then b'-' ∷ [] else []) ++ chunk))

-- `chunks * 8 - 1` is below zero for a text of less than one chunk.
unfoldable pub chunkify : Bytes → Outcome IdError Bytes
unfolding chunkify_loop
chunkify s =
    let chunks = length s / 7 in
    let res = chunkify_loop chunks 0 s [] in if chunks == 0 then panic else res

-- `trim_end_matches('=')`
unfoldable pub trim_end : Bytes → Bytes
trim_end [] = []
trim_end (c ∷ s) =
    let rest = trim_end s in
    elim rest [ [] ↦ (if c == b'=' then [] else c ∷ []) | d ∷ r ↦ c ∷ d ∷ r ]

abbrev pub to_upper : ℕ → ℕ
to_upper c = if leb b'a' c && leb c b'z' then c - 32 else c

-- `replace(['-', ' '], "")`
unfoldable pub remove_chunks : Bytes → Bytes
remove_chunks [] = []
remove_chunks (c ∷ s) =
    let rest = remove_chunks s in if c == b'-' || c == b' ' then rest else c ∷ rest

-- The three `replace` of likely typos, one after the other.
abbrev pub fix_typo : ℕ → ℕ
fix_typo c =
    let c1 = if c == b'0' then b'O' else c in
    let c2 = if c1 == b'1' then b'I' else c1 in if c2 == b'8' then b'B' else c2

unfoldable pub is_ascii : Bytes → Bool
is_ascii [] = true
is_ascii (c ∷ s) = ltb c 128 && is_ascii s

-- `TryFrom<&[u8]>`
unfoldable pub try_from_bytes : Bytes → Outcome IdError DeviceId
try_from_bytes input =
    if length input == device_id_len then ok (record { id = input }) else err wrong_byte_length

-- `u64::from(&device_id)`
unfoldable pub to_u64 : DeviceId → Outcome IdError ℕ
to_u64 d = slice 0 8 d.id >>= λ s. ok (from_be_bytes s)

-- `copy_from_slice` into an array of 32.
abbrev copy_from_slice : Bytes → Outcome IdError DeviceId
copy_from_slice dec = if length dec == device_id_len then ok (record { id = dec }) else panic

abbrev or_not_base32 : Option Bytes → Outcome IdError Bytes
or_not_base32 none = err not_base32
or_not_base32 (some b) = ok b

-- The `expect` on the result of `luhnify` unwinds on its errors.
unfoldable pub chunkify_expected : Outcome IdError Bytes → Outcome IdError Bytes
chunkify_expected (ok res) = chunkify res
chunkify_expected (err e) = panic
chunkify_expected panic = panic
chunkify_expected diverge = diverge

module _ (base32 : Base32) where
  -- `Display`
  unfoldable pub to_text : DeviceId → Outcome IdError Bytes
  to_text d = chunkify_expected (luhnify (trim_end (base32.encode d.id)))

  -- `TryFrom<&str>`
  unfoldable pub try_from_text : Bytes → Outcome IdError DeviceId
  try_from_text value = do
    ensure (is_ascii value) not_ascii
    let cleaned = map fix_typo (remove_chunks (map to_upper value))
    s ← unluhnify cleaned
    dec ← or_not_base32 (base32.decode (s ++ (b'=' ∷ b'=' ∷ b'=' ∷ b'=' ∷ [])))
    copy_from_slice dec
