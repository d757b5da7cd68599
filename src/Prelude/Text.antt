-- ===== src/Prelude/Text.antt =====
-- Text as its bytes: splitting, prefixes, and decimal numbers as Rust prints and parses them.
use Prim.Native.Nat.{ℕ, zero, suc, ◌+◌, ◌-◌, ◌*◌, ◌/◌, ◌%◌, ◌≤◌, ◌<◌}
use Prim.Native.Char.{code}
use Prim.Native.String.{String}
use mathlib.Core.Path.{◌≡◌, refl, ◌∙◌, ap}
use mathlib.Core.Logic.{◌≢◌, inl, inr}
use mathlib.Core.Bool.{Bool, true, false, ◌&&◌, ◌||◌}
use mathlib.Core.Option.{Option, none, some}
use mathlib.Core.List.{List, [], ◌∷◌, ◌++◌}
use native.Mathlib.Omega.{arith}
use monkeymesh.Prelude.Tests.{ltb, leb, ◌==◌, if◌then◌else◌, Bool-cases}
use monkeymesh.Prelude.Lists.{All, length}

abbrev pub Text : Type 0
Text = List ℕ

-- The bytes of an ASCII literal.
abbrev pub codes : String → Text
codes String.[] = []
codes (String.◌∷◌ ch s) = code ch ∷ codes s

-- `s.strip_prefix(p)`
unfoldable pub strip_prefix : Text → Text → Option Text
strip_prefix [] s = some s
strip_prefix (x ∷ p) [] = none
strip_prefix (x ∷ p) (y ∷ s) = if x == y then strip_prefix p s else none

pub strip_prefix-append : (p s : Text) → strip_prefix p (p ++ s) ≡ some s
unfolding strip_prefix
strip_prefix-append [] s = refl
strip_prefix-append (x ∷ p) s = ground (arith, strip_prefix-append p s)

unfoldable pub starts_with : Text → Text → Bool
starts_with [] s = true
starts_with (x ∷ p) [] = false
starts_with (x ∷ p) (y ∷ s) = x == y && starts_with p s

-- `s.contains(p)`
unfoldable pub contains_text : Text → Text → Bool
unfolding starts_with
contains_text p [] = starts_with p []
contains_text p (x ∷ s) = starts_with p (x ∷ s) || contains_text p s

unfoldable pub cons_first : ℕ → List Text → List Text
cons_first x [] = (x ∷ []) ∷ []
cons_first x (w ∷ ws) = (x ∷ w) ∷ ws

-- `s.split(sep)` at a one-byte separator: always at least one piece.
unfoldable pub split : ℕ → Text → List Text
unfolding cons_first
split sep [] = [] ∷ []
split sep (x ∷ s) = let rest = split sep s in if x == sep then [] ∷ rest else cons_first x rest

-- A piece with no separator in it, before a separator, is the first one.
pub split-append :
    (sep : ℕ) (w s : Text) → All (λ x. x ≢ sep) w → split sep (w ++ sep ∷ s) ≡ w ∷ split sep s
unfolding split
split-append sep [] s h = ground arith
split-append sep (x ∷ w) s h = ground (arith, split-append sep w s h.1)

pub split-single : (sep : ℕ) (w : Text) → All (λ x. x ≢ sep) w → split sep w ≡ w ∷ []
unfolding split
split-single sep [] h = refl
split-single sep (x ∷ w) h = ground (arith, split-single sep w h.1)

unfoldable pub is_digit : ℕ → Bool
is_digit x = leb 48 x && leb x 57

-- The digits of an unsigned number, each step checked against the type's greatest value.
unfoldable pub parse_digits : ℕ → ℕ → Text → Option ℕ
unfolding is_digit
parse_digits top acc [] = some acc
parse_digits top acc (x ∷ s) =
    let acc' = acc * 10 + (x - 48) in
    let rest = parse_digits top acc' s in if is_digit x && leb acc' top then rest else none

unfoldable pub parse_signed : ℕ → Text → Option ℕ
unfolding parse_digits
parse_signed top [] = none
parse_signed top (x ∷ s) = parse_digits top 0 (x ∷ s)

-- `s.parse::<uN>()`: digits with at most one leading `+`, not empty, and no overflow.
unfoldable pub parse_uint : ℕ → Text → Option ℕ
unfolding parse_signed
parse_uint top [] = none
parse_uint top (x ∷ s) = if x == 43 then parse_signed top s else parse_signed top (x ∷ s)

unfoldable pub show_from : ℕ → ℕ → Text → Text
show_from zero n acc = acc
show_from (suc fuel) n acc =
    let digit = 48 + n % 10 in
    let more = show_from fuel (n / 10) (digit ∷ acc) in if ltb n 10 then digit ∷ acc else more

-- `n.to_string()`: a number has fewer digits than its value plus one.
unfoldable pub show : ℕ → Text
unfolding show_from
show n = show_from (suc n) n []

abbrev pub IsDigit : ℕ → Type 0
IsDigit x = (48 ≤ x) × (x ≤ 57)

show_from-IsDigit : (fuel n : ℕ) (acc : Text) → All IsDigit acc → All IsDigit (show_from fuel n acc)
unfolding show_from
show_from-IsDigit zero n acc h = h
show_from-IsDigit (suc fuel) n acc h = elim (Bool-cases (ltb n 10)) [
  | inl small ↦ rw small ((omega arith, omega arith), h)
  | inr large ↦
      rw large
        (show_from-IsDigit fuel (n / 10) ((48 + n % 10) ∷ acc) ((omega arith, omega arith), h))
]

pub show-IsDigit : (n : ℕ) → All IsDigit (show n)
unfolding show
show-IsDigit n = show_from-IsDigit (suc n) n [] tt

-- Digits are none of the separators.
pub IsDigit→ne : (sep : ℕ) → 57 < sep → (w : Text) → All IsDigit w → All (λ x. x ≢ sep) w
IsDigit→ne sep big [] h = tt
IsDigit→ne sep big (x ∷ w) h = (λ e. omega arith, IsDigit→ne sep big w h.1)

parse_digits-show_from :
    (top fuel n : ℕ) (rest : Text)
    → n < fuel
    → n ≤ top
    → parse_digits top 0 (show_from fuel n rest) ≡ parse_digits top n rest
unfolding parse_digits show_from
parse_digits-show_from top zero n rest h le = absurd (omega arith)
parse_digits-show_from top (suc fuel) n rest h le = elim (Bool-cases (ltb n 10)) [
  | inl small ↦ ground arith
  | inr large ↦ rw large (
      parse_digits-show_from top fuel (n / 10) ((48 + n % 10) ∷ rest) (ground arith) (omega arith)
      ∙ ground arith)
]

show_from-length : (fuel n : ℕ) (acc : Text) → length acc ≤ length (show_from fuel n acc)
unfolding show_from
show_from-length zero n acc = omega arith
show_from-length (suc fuel) n acc =
    ground (arith, show_from-length fuel (n / 10) ((48 + n % 10) ∷ acc))

pub show-pos : (n : ℕ) → 0 < length (show n)
unfolding show show_from
show-pos n = ground (arith, show_from-length n (n / 10) ((48 + n % 10) ∷ []))

-- The digits of a printed number, read on top of nothing.
pub parse_digits-show : (top n : ℕ) → n ≤ top → parse_digits top 0 (show n) ≡ some n
unfolding show parse_digits
parse_digits-show top n le = parse_digits-show_from top (suc n) n [] (omega arith) le

-- Leading zeros count for nothing.
pub parse_digits-zero : (top : ℕ) (s : Text) → parse_digits top 0 (48 ∷ s) ≡ parse_digits top 0 s
unfolding parse_digits
parse_digits-zero top s = ground arith

abbrev pub pow10 : ℕ → ℕ
pow10 zero = 1
pow10 (suc k) = 10 * pow10 k

pow10-pos : (k : ℕ) → 0 < pow10 k
pow10-pos zero = omega arith
pow10-pos (suc k) = omega (arith, pow10-pos k)

show_from-length-le :
    (fuel n k : ℕ) (acc : Text)
    → n < pow10 (suc k)
    → length (show_from fuel n acc) ≤ suc k + length acc
unfolding show_from
show_from-length-le zero n k acc h = omega arith
show_from-length-le (suc fuel) n zero acc h = ground arith
show_from-length-le (suc fuel) n (suc k) acc h =
    ground (arith, show_from-length-le fuel (n / 10) k ((48 + n % 10) ∷ acc))

-- A number below ten to the `k` has at most `k` digits.
pub show-length-le : (n k : ℕ) → n < pow10 (suc k) → length (show n) ≤ suc k
unfolding show
show-length-le n k h = omega (arith, show_from-length-le (suc n) n k [] h)

-- On digits alone the sign plays no part.
pub parse_uint-digits :
    (top : ℕ) (w : Text) → All IsDigit w → 0 < length w → parse_uint top w ≡ parse_digits top 0 w
unfolding parse_uint
parse_uint-digits top [] h p = absurd (omega arith)
parse_uint-digits top (x ∷ w) h p = ground arith

-- What a printed number parses to, within the type.
pub parse_uint-show : (top n : ℕ) → n ≤ top → parse_uint top (show n) ≡ some n
parse_uint-show top n le =
    parse_uint-digits top (show n) (show-IsDigit n) (show-pos n) ∙ parse_digits-show top n le

-- ASCII white space. Rust's `trim` takes off the white space of Unicode as well, whose
-- bytes beyond ASCII are kept here.
abbrev pub is_space : ℕ → Bool
is_space x = x == 32 || (leb 9 x && leb x 13)

unfoldable pub trim_start : Text → Text
trim_start [] = []
trim_start (x ∷ s) = let rest = trim_start s in if is_space x then rest else x ∷ s

unfoldable pub keep_if_text : ℕ → Text → Text
keep_if_text x [] = if is_space x then [] else x ∷ []
keep_if_text x (y ∷ s) = x ∷ y ∷ s

unfoldable pub trim_end : Text → Text
unfolding keep_if_text
trim_end [] = []
trim_end (x ∷ s) = keep_if_text x (trim_end s)

-- `s.trim()`
unfoldable pub trim : Text → Text
unfolding trim_start trim_end
trim s = trim_end (trim_start s)

-- Text without white space is left as it is.
pub trim-id : (s : Text) → All (λ x. is_space x ≡ false) s → trim s ≡ s
unfolding trim
trim-id s h = ap trim_end (start s h) ∙ end s h
  where
    start : (s : Text) → All (λ x. is_space x ≡ false) s → trim_start s ≡ s
    start [] h = refl
    start (x ∷ s) h = rw h.0

    end : (s : Text) → All (λ x. is_space x ≡ false) s → trim_end s ≡ s
    end [] h = refl
    end (x ∷ []) h = rw h.0
    end (x ∷ y ∷ s) h = rw (end (y ∷ s) h.1)

trim_end-append :
    (w : Text) (y : ℕ) (s : Text) → trim_end (y ∷ s) ≡ y ∷ s → trim_end (w ++ y ∷ s) ≡ w ++ y ∷ s
unfolding trim_end keep_if_text
trim_end-append [] y s h = h
trim_end-append (x ∷ []) y s h = rw h refl
trim_end-append (x ∷ z ∷ w) y s h = ap (keep_if_text x) (trim_end-append (z ∷ w) y s h)

-- Text that starts with a word and ends with no white space is left as it is.
pub trim-append :
    (w : Text) (y : ℕ) (s : Text)
    → All (λ x. is_space x ≡ false) w
    → 0 < length w
    → trim_end (y ∷ s) ≡ y ∷ s
    → trim (w ++ y ∷ s) ≡ w ++ y ∷ s
unfolding trim trim_start
trim-append [] y s h long end = absurd (omega arith)
trim-append (x ∷ w) y s h long end = rw h.0 (trim_end-append (x ∷ w) y s end)

-- `n.to_le_bytes()` at `count` bytes.
unfoldable pub le_bytes : ℕ → ℕ → List ℕ
le_bytes zero n = []
le_bytes (suc count) n = (n % 256) ∷ le_bytes count (n / 256)

pub length-le_bytes : (count n : ℕ) → length (le_bytes count n) ≡ count
unfolding le_bytes
length-le_bytes zero n = refl
length-le_bytes (suc count) n = ap suc (length-le_bytes count (n / 256))

-- The numbers that `count` bytes hold.
abbrev pub byte_range : ℕ → ℕ
byte_range zero = 1
byte_range (suc count) = 256 * byte_range count

-- Within their range two numbers with the same bytes are equal.
pub le_bytes-injective :
    (count m n : ℕ)
    → m < byte_range count
    → n < byte_range count
    → le_bytes count m ≡ le_bytes count n
    → m ≡ n
unfolding le_bytes
le_bytes-injective zero m n hm hn e = omega arith
le_bytes-injective (suc count) m n hm hn e =
    ground (arith, le_bytes-injective count (m / 256) (n / 256))
