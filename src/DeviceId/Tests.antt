-- ===== src/DeviceId/Tests.antt =====
-- A device id of the Syncthing documentation, and an instance of each theorem on its text.
use grizol.Prelude.{ℕ, ◌≡◌, refl, some, [], ◌∷◌, ◌++◌, All, arith}
use grizol.Prelude.Outcome.{ok}
use grizol.Prelude.Bytes.{Bytes}
use grizol.DeviceId.{
  DeviceId, Base32, codepoint32, luhn_sum, luhn32, luhnify, unluhnify_loop, to_text, try_from_text,
}
use grizol.DeviceId.Luhn.{IsDigit}
use grizol.DeviceId.Groups.{unluhnify_substitution}
use grizol.DeviceId.Text.{Encodes, padding, try_from_text-to_text}

abbrev first_group : Bytes
first_group = 80 ∷ 53 ∷ 54 ∷ 73 ∷ 79 ∷ 73 ∷ 55 ∷ 77 ∷ 90 ∷ 74 ∷ 78 ∷ 85 ∷ 50 ∷ []

abbrev some_digits : Bytes
some_digits =
    80 ∷ 53 ∷ 54 ∷ 73 ∷ 79 ∷ 73 ∷ 55 ∷ 77 ∷ 90 ∷ 74 ∷ 78 ∷ 85 ∷ 50 ∷ 73 ∷ 81 ∷ 71 ∷ 68 ∷ 82 ∷ 69
    ∷ 89 ∷ 68 ∷ 77 ∷ 50 ∷ 77 ∷ 71 ∷ 84 ∷ 77 ∷ 71 ∷ 76 ∷ 51 ∷ 66 ∷ 88 ∷ 78 ∷ 80 ∷ 81 ∷ 54 ∷ 87 ∷ 53
    ∷ 66 ∷ 84 ∷ 66 ∷ 66 ∷ 90 ∷ 52 ∷ 84 ∷ 74 ∷ 88 ∷ 90 ∷ 87 ∷ 73 ∷ 67 ∷ 81 ∷ []

abbrev checked_digits : Bytes
checked_digits =
    80 ∷ 53 ∷ 54 ∷ 73 ∷ 79 ∷ 73 ∷ 55 ∷ 77 ∷ 90 ∷ 74 ∷ 78 ∷ 85 ∷ 50 ∷ 89 ∷ 73 ∷ 81 ∷ 71 ∷ 68 ∷ 82
    ∷ 69 ∷ 89 ∷ 68 ∷ 77 ∷ 50 ∷ 77 ∷ 71 ∷ 84 ∷ 73 ∷ 77 ∷ 71 ∷ 76 ∷ 51 ∷ 66 ∷ 88 ∷ 78 ∷ 80 ∷ 81 ∷ 54
    ∷ 87 ∷ 53 ∷ 66 ∷ 77 ∷ 84 ∷ 66 ∷ 66 ∷ 90 ∷ 52 ∷ 84 ∷ 74 ∷ 88 ∷ 90 ∷ 87 ∷ 73 ∷ 67 ∷ 81 ∷ 50 ∷ []

some_digits-IsDigit : All IsDigit some_digits
some_digits-IsDigit = ground arith

first_group-IsDigit : All IsDigit first_group
first_group-IsDigit = ground arith

abbrev some_id : DeviceId
some_id = record {
  id =
      1 ∷ 2 ∷ 3 ∷ 4 ∷ 5 ∷ 6 ∷ 7 ∷ 8 ∷ 9 ∷ 10 ∷ 11 ∷ 12 ∷ 13 ∷ 14 ∷ 15 ∷ 16 ∷ 17 ∷ 18 ∷ 19 ∷ 20 ∷ 21
      ∷ 22 ∷ 23 ∷ 24 ∷ 25 ∷ 26 ∷ 27 ∷ 28 ∷ 29 ∷ 30 ∷ 31 ∷ 32 ∷ [];
}

-- A codec that knows one device id.
abbrev some_base32 : Base32
some_base32 = record { encode = λ _. some_digits ++ padding; decode = λ _. some some_id.id }

some_id-Encodes : Encodes some_base32 some_id some_digits
some_id-Encodes = record {
  encoded = refl;
  decoded = refl;
  digit_count = refl;
  all_digits = some_digits-IsDigit;
  byte_count = refl;
}

first_group_digit : luhn32 first_group ≡ ok 89
unfolding luhn32 luhn_sum codepoint32
first_group_digit = refl

digits_checked : luhnify some_digits ≡ ok checked_digits
unfolding luhnify luhn32 codepoint32
digits_checked = refl

digits_unchecked : unluhnify_loop 1 0 checked_digits [] ≡ ok first_group
unfolding unluhnify_loop luhn32 codepoint32
digits_unchecked = refl

unluhnify_substitution_example : ◌≡◌ {A = ℕ} 80 80
unluhnify_substitution_example =
    unluhnify_substitution 0 0 [] []
      (53 ∷ 54 ∷ 73 ∷ 79 ∷ 73 ∷ 55 ∷ 77 ∷ 90 ∷ 74 ∷ 78 ∷ 85 ∷ 50 ∷ [])
      (73 ∷ 81 ∷ 71 ∷ 68 ∷ 82 ∷ 69 ∷ 89 ∷ 68 ∷ 77 ∷ 50 ∷ 77 ∷ 71 ∷ 84 ∷ 73 ∷ 77 ∷ 71 ∷ 76 ∷ 51 ∷ 66
        ∷ 88 ∷ 78 ∷ 80 ∷ 81 ∷ 54 ∷ 87 ∷ 53 ∷ 66 ∷ 77 ∷ 84 ∷ 66 ∷ 66 ∷ 90 ∷ 52 ∷ 84 ∷ 74 ∷ 88 ∷ 90
        ∷ 87 ∷ 73 ∷ 67 ∷ 81 ∷ 50 ∷ [])
      [] first_group 80 80 89 refl refl first_group_digit digits_unchecked

try_from_text-to_text_example :
    (text : Bytes) × (to_text some_base32 some_id ≡ ok text)
    × (try_from_text some_base32 text ≡ ok some_id)
try_from_text-to_text_example =
    try_from_text-to_text some_base32 some_id some_digits some_id-Encodes
