-- ===== src/Types/Amount/Print.antt =====
-- The decimal text of an amount against the parser: `Display` and `parse_mesh`.
use monkeymesh.Prelude.{
  ℕ, zero, suc, ◌/◌, ◌%◌, ◌≤◌, ◌<◌, ◌≡◌, ◌≢◌, refl, ap, ◌∙◌, false, some, [], ◌∷◌, ◌++◌, arith,
  length, All, All-append, u64_max, length-append, append_assoc, none,
}
use monkeymesh.Prelude.Text.{
  Text, IsDigit, is_space, parse_digits, parse_digits-show, parse_digits-zero, parse_uint,
  parse_uint-digits, parse_uint-show, show, show-IsDigit, show-pos, show-length-le, trim-id,
  trim-append, trim, trim_end, keep_if_text, codes,
}
use monkeymesh.Types.Amount.{
  Amount, atomic_per_mesh, decimals, split_once, pad_right, pad_left, whole_part, combine,
  parse_parts, parse_trimmed, parse_mesh, print_number, display,
}

split_once-append :
    (sep : ℕ) (w s : Text) → All (λ x. x ≢ sep) w → split_once sep (w ++ sep ∷ s) ≡ some (w, s)
unfolding split_once
split_once-append sep [] s h = ground arith
split_once-append sep (x ∷ w) s h = ground (arith, split_once-append sep w s h.1)

pad_left-IsDigit : (n : ℕ) (s : Text) → All IsDigit s → All IsDigit (pad_left n s)
unfolding pad_left
pad_left-IsDigit zero s h = h
pad_left-IsDigit (suc n) s h = ground (arith, pad_left-IsDigit n s h)

pad_left-length : (n : ℕ) (s : Text) → length s ≤ n → length (pad_left n s) ≡ n
unfolding pad_left
pad_left-length zero s h = omega arith
pad_left-length (suc n) s h = ground (arith, pad_left-length n s)

parse_digits-pad_left :
    (top n : ℕ) (s : Text) → parse_digits top 0 (pad_left n s) ≡ parse_digits top 0 s
unfolding pad_left
parse_digits-pad_left top zero s = refl
parse_digits-pad_left top (suc n) s =
    ground (arith, parse_digits-pad_left top n s, parse_digits-zero top (pad_left n s))

pad_right-id : (n : ℕ) (s : Text) → length s ≡ n → pad_right n s ≡ s
unfolding pad_right
pad_right-id zero [] h = refl
pad_right-id zero (x ∷ s) h = absurd (omega arith)
pad_right-id (suc n) [] h = absurd (omega arith)
pad_right-id (suc n) (x ∷ s) h = ap (◌∷◌ x) (pad_right-id n s (omega arith))

whole_part-nonempty : (w : Text) → 0 < length w → whole_part w ≡ parse_uint u64_max w
unfolding whole_part
whole_part-nonempty [] h = absurd (omega arith)
whole_part-nonempty (x ∷ w) h = refl

whole_part-show : (n : ℕ) → n ≤ u64_max → whole_part (show n) ≡ some n
whole_part-show n le = whole_part-nonempty (show n) (show-pos n) ∙ parse_uint-show u64_max n le

abbrev fraction : Amount → Text
fraction a = pad_left decimals (show (a % atomic_per_mesh))

fraction-length : (a : Amount) → length (fraction a) ≡ decimals
fraction-length a =
    pad_left-length decimals _ (show-length-le (a % atomic_per_mesh) 7 (omega arith))

fraction-IsDigit : (a : Amount) → All IsDigit (fraction a)
fraction-IsDigit a = pad_left-IsDigit decimals _ (show-IsDigit (a % atomic_per_mesh))

fraction_value : (a : Amount) → parse_uint u64_max (fraction a) ≡ some (a % atomic_per_mesh)
fraction_value a =
    parse_uint-digits u64_max (fraction a) (fraction-IsDigit a) (omega (arith, fraction-length a))
    ∙ parse_digits-pad_left u64_max decimals (show (a % atomic_per_mesh))
    ∙ parse_digits-show u64_max (a % atomic_per_mesh) (omega arith)

parse_parts-print :
    (a : Amount) → a ≤ u64_max → parse_parts (show (a / atomic_per_mesh), fraction a) ≡ some a
unfolding parse_parts combine
parse_parts-print a le = ground (
  arith,
  fraction-length a,
  pad_right-id decimals (fraction a) (fraction-length a),
  fraction_value a,
  whole_part-show (a / atomic_per_mesh) (omega arith),
)

parse_trimmed-some :
    (s : Text) (parts : Text × Text)
    → split_once b'.' s ≡ some parts
    → parse_trimmed s ≡ parse_parts parts
unfolding parse_trimmed
parse_trimmed-some [] parts h = cc
parse_trimmed-some (x ∷ s) parts h = rw (h, parse_trimmed)

not-space : (w : Text) → All IsDigit w → All (λ x. is_space x ≡ false) w
not-space [] h = tt
not-space (x ∷ w) h = (ground arith, not-space w h.1)

before_dot : (w : Text) → All IsDigit w → All (λ x. x ≢ b'.') w
before_dot [] h = tt
before_dot (x ∷ w) h = (λ e. omega arith, before_dot w h.1)

print_number-not_space : (a : Amount) → All (λ x. is_space x ≡ false) (print_number a)
unfolding print_number
print_number-not_space a =
    All-append _ (show (a / atomic_per_mesh)) (b'.' ∷ fraction a)
      (not-space _ (show-IsDigit (a / atomic_per_mesh))) (refl, not-space _ (fraction-IsDigit a))

parse_mesh-print_number : (a : Amount) → a ≤ u64_max → parse_mesh (print_number a) ≡ some a
unfolding parse_mesh print_number
parse_mesh-print_number a le =
    ap parse_trimmed (trim-id (print_number a) (print_number-not_space a))
    ∙ parse_trimmed-some (print_number a) (show (a / atomic_per_mesh), fraction a)
        (split_once-append b'.' (show (a / atomic_per_mesh)) (fraction a)
          (before_dot _ (show-IsDigit (a / atomic_per_mesh))))
    ∙ parse_parts-print a le

abbrev unit : Text
unit = codes " MESH"

parse_parts-long : (whole frac : Text) → decimals < length frac → parse_parts (whole, frac) ≡ none
unfolding parse_parts
parse_parts-long whole frac long = ground arith

display-trimmed : (a : Amount) → trim (display a) ≡ display a
unfolding display trim trim_end keep_if_text print_number
display-trimmed a =
    let w = show (a / atomic_per_mesh) ++ b'.' ∷ fraction a in
    trim-append w b' ' (codes "MESH") (print_number-not_space a)
      (omega (arith, length-append (show (a / atomic_per_mesh)) (b'.' ∷ fraction a))) refl

display-refused : (a : Amount) → parse_mesh (display a) ≡ none
unfolding parse_mesh display print_number
display-refused a =
    let w = show (a / atomic_per_mesh) in
    let parts : split_once b'.' ((w ++ b'.' ∷ fraction a) ++ unit) ≡ some (w, fraction a ++ unit) =
      ap (split_once b'.') (append_assoc w (b'.' ∷ fraction a) unit)
      ∙ split_once-append b'.' w (fraction a ++ unit)
          (before_dot w (show-IsDigit (a / atomic_per_mesh))) in
    ap parse_trimmed (display-trimmed a)
    ∙ parse_trimmed-some ((w ++ b'.' ∷ fraction a) ++ unit) (w, fraction a ++ unit) parts
    ∙ parse_parts-long w (fraction a ++ unit)
        (omega (arith, fraction-length a, length-append (fraction a) unit))

-- What is displayed of an amount of 64 bits is a number with " MESH" behind it. The number alone is
-- parsed back to the amount; the whole text is refused.
pub parse_mesh-display :
    (a : Amount)
    → a ≤ u64_max
    → (number : Text) × (display a ≡ number ++ codes " MESH")
      × (parse_mesh number ≡ some a)
      × (parse_mesh (display a) ≡ none)
unfolding display
parse_mesh-display a le = (print_number a, refl, parse_mesh-print_number a le, display-refused a)
