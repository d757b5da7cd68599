-- ===== src/Types/Amount.antt =====
-- crates/mesh-types/src/amount.rs. `Amount(u64)` is a number of atomic units.
pub mod Print
use monkeymesh.Prelude.{
  ℕ, zero, suc, ◌+◌, ◌-◌, ◌*◌, ◌/◌, ◌%◌, ◌^◌, true, false, Option, none, some, List, [], ◌∷◌, ◌++◌,
  ltb, leb, ◌==◌, if◌then◌else◌, length, Result, ok, err, u64_max, saturating_mul, checked_add_u64,
  checked_mul_u64,
}
use monkeymesh.Prelude.Text.{Text, codes, trim, parse_uint, show}

abbrev pub Amount : Type 0
Amount = ℕ

pub data AmountError : Type 0 where
  overflow insufficient : AmountError

abbrev pub decimals : ℕ
decimals = 8

abbrev pub atomic_per_mesh : ℕ
atomic_per_mesh = 10 ^ 8

unfoldable pub from_mesh : ℕ → Option Amount
from_mesh mesh = checked_mul_u64 mesh atomic_per_mesh

abbrev pub checked_add : Amount → Amount → Result AmountError Amount
checked_add a b = elim (checked_add_u64 a b) [ none ↦ err overflow | some s ↦ ok s ]

abbrev pub checked_sub : Amount → Amount → Result AmountError Amount
checked_sub a b = if leb b a then ok (a - b) else err insufficient

unfoldable pub split_bps : Amount → ℕ → Amount
split_bps a bps = saturating_mul a bps / 10000

-- `s.split_once(c)`: what stands before and after the first `c`.
split_once : ℕ → Text → Option (Text × Text)
split_once sep [] = none
split_once sep (x ∷ s) = elim (x == sep) [
  | true ↦ some ([], s)
  | false ↦ elim (split_once sep s) [ none ↦ none | some (a, b) ↦ some (x ∷ a, b) ]
]

-- `frac_buf.push('0')` until the buffer has `decimals` characters
pad_right : ℕ → Text → Text
pad_right zero s = s
pad_right (suc n) [] = b'0' ∷ pad_right n []
pad_right (suc n) (x ∷ s) = x ∷ pad_right n s

whole_part : Text → Option ℕ
whole_part [] = some 0
whole_part (x ∷ s) = parse_uint u64_max (x ∷ s)

combine : Option ℕ → Option ℕ → Option Amount
combine none f = none
combine (some w) none = none
combine (some w) (some f) = elim (checked_mul_u64 w atomic_per_mesh) [
  | none ↦ none
  | some atomic ↦ checked_add_u64 atomic f
]

parse_parts : Text × Text → Option Amount
unfolding pad_right whole_part combine
parse_parts (whole, frac) =
    if ltb decimals (length frac)
    then none
    else combine (whole_part whole) (parse_uint u64_max (pad_right decimals frac))

parse_trimmed : Text → Option Amount
unfolding split_once parse_parts
parse_trimmed [] = none
parse_trimmed (x ∷ s) = elim (split_once b'.' (x ∷ s)) [
  | none ↦ parse_parts (x ∷ s, [])
  | some parts ↦ parse_parts parts
]

-- `"12"`, `"12.5"` or `"12.50000000"` into atomic units.
pub parse_mesh : Text → Option Amount
unfolding parse_trimmed
parse_mesh s = parse_trimmed (trim s)

-- `{n:08}` at `width` 8: the decimal digits, filled up with zeros on the left.
pad_left : ℕ → Text → Text
pad_left zero s = s
pad_left (suc n) s = if leb (suc n) (length s) then s else b'0' ∷ pad_left n s

-- What `Display` prints before " MESH".
pub print_number : Amount → Text
unfolding pad_left
print_number a = show (a / atomic_per_mesh) ++ b'.' ∷ pad_left decimals (show (a % atomic_per_mesh))

pub display : Amount → Text
unfolding print_number
display a = print_number a ++ codes " MESH"
