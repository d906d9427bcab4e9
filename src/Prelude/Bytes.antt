-- ===== src/Prelude/Bytes.antt =====
-- Byte sequences: slices and big-endian integers. Texts are their UTF-8 bytes too.
use Prim.Native.Nat.{ℕ, ◌+◌, ◌-◌, ◌*◌, ◌/◌, ◌%◌, ◌≤◌, ◌<◌}
use mathlib.Core.Path.{◌≡◌, ◌∙◌}
use mathlib.Core.Bool.{◌&&◌}
use mathlib.Core.List.{List, [], ◌∷◌, ◌++◌, foldl}
use native.Mathlib.Omega.{arith}
use grizol.Prelude.Tests.{leb, if◌then◌else◌}
use grizol.Prelude.Lists.{length, take, drop, take-append, drop-append, length-append}
use grizol.Prelude.Outcome.{Outcome, ok, panic}

abbrev pub Bytes : Type 0
Bytes = List ℕ

-- `&data[from..to]`
abbrev pub slice : {E : Type 0} → ℕ → ℕ → Bytes → Outcome E Bytes
slice from to xs =
    if leb from to && leb to (length xs) then ok (take (to - from) (drop from xs)) else panic

-- `&data[from..]`
abbrev pub slice_from : {E : Type 0} → ℕ → Bytes → Outcome E Bytes
slice_from from xs = if leb from (length xs) then ok (drop from xs) else panic

abbrev push_digit : ℕ → ℕ → ℕ
push_digit acc b = acc * 256 + b

-- `u16::from_be_bytes`, `u32::from_be_bytes`
abbrev pub from_be_bytes : Bytes → ℕ
from_be_bytes [] = 0
from_be_bytes (b ∷ bs) = foldl push_digit b bs

abbrev pub u16_to_be_bytes : ℕ → Bytes
u16_to_be_bytes n = n / 256 % 256 ∷ n % 256 ∷ []

abbrev pub u32_to_be_bytes : ℕ → Bytes
u32_to_be_bytes n = n / 16777216 % 256 ∷ n / 65536 % 256 ∷ n / 256 % 256 ∷ n % 256 ∷ []

-- The number in `k` bytes from position `at` on.
abbrev pub number_at : ℕ → ℕ → Bytes → ℕ
number_at k at xs = from_be_bytes (take k (drop at xs))

pub slice_in_range :
    {E : Type 0} (from to : ℕ) (xs : Bytes)
    → from ≤ to
    → to ≤ length xs
    → slice {E = E} from to xs ≡ ok (take (to - from) (drop from xs))
slice_in_range from to xs h k = ground arith

-- The number in the middle of three parts.
pub number_at_middle :
    (k at : ℕ) (xs ys zs : Bytes)
    → at ≡ length xs
    → k ≡ length ys
    → number_at k at (xs ++ (ys ++ zs)) ≡ from_be_bytes ys
number_at_middle k at xs ys zs h e = rw (drop-append xs (ys ++ zs) at h, take-append ys zs k e)

pub from_be_bytes-u16 : (n : ℕ) → n < 65536 → from_be_bytes (u16_to_be_bytes n) ≡ n
from_be_bytes-u16 n h = omega arith

pub from_be_bytes-u32 : (n : ℕ) → n < 4294967296 → from_be_bytes (u32_to_be_bytes n) ≡ n
from_be_bytes-u32 n h = omega arith

pub slice_from-append :
    {E : Type 0} (from : ℕ) (xs ys : Bytes)
    → from ≡ length xs
    → slice_from {E = E} from (xs ++ ys) ≡ ok ys
slice_from-append from xs ys h = ground (arith, length-append xs ys, drop-append xs ys from h)

-- The middle of three parts is a slice.
pub slice_middle :
    {E : Type 0} (from to : ℕ) (xs ys zs : Bytes)
    → from ≡ length xs
    → to ≡ length xs + length ys
    → slice {E = E} from to (xs ++ (ys ++ zs)) ≡ ok ys
slice_middle from to xs ys zs h k =
    slice_in_range from to (xs ++ (ys ++ zs)) (omega arith)
      (omega (arith, length-append xs (ys ++ zs), length-append ys zs))
    ∙ rw (drop-append xs (ys ++ zs) from h, take-append ys zs (to - from) (omega arith))
