-- ===== src/Jcsfloat/Format.antt =====
-- jcsfloat/format.go: the layout of digits by ECMA-262 Number::toString, steps 7 to 10.
use jcs_schubfach.Prelude.{
  ℕ, suc, ◌-◌, Bool, ◌&&◌, [], ◌∷◌, ◌++◌, ltb, ◌==◌, if◌then◌else◌, Bytes, length, take, drop,
  replicate,
}
use jcs_schubfach.Jcsfloat.Decimal.{digits_onto, word_digits}
use jcs_schubfach.Prelude.Int.{ℤ, pos, negsuc, pos_part, neg_part, ltb_ℤ, leb_ℤ, ◌-ℤ◌}

-- `isIntegerFixed`
abbrev pub is_integer_fixed : ℕ → ℤ → Bool
is_integer_fixed k n = leb_ℤ (pos k) n && leb_ℤ n (pos 21)

-- `isFractionFixed`
abbrev pub is_fraction_fixed : ℤ → Bool
is_fraction_fixed n = ltb_ℤ (pos 0) n && leb_ℤ n (pos 21)

-- `isSmallFraction`
abbrev pub is_small_fraction : ℤ → Bool
is_small_fraction n = ltb_ℤ (negsuc 5) n && leb_ℤ n (pos 0)

-- `appendIntegerFixed`
unfoldable pub append_integer_fixed : Bytes → Bytes → ℕ → ℕ → Bytes
append_integer_fixed buf digits k n = buf ++ (digits ++ replicate (n - k) b'0')

-- `appendFractionFixed`
unfoldable pub append_fraction_fixed : Bytes → Bytes → ℕ → Bytes
append_fraction_fixed buf digits n = buf ++ (take n digits ++ b'.' ∷ drop n digits)

-- `appendSmallFraction`; the zeros are -n.
unfoldable pub append_small_fraction : Bytes → Bytes → ℕ → Bytes
append_small_fraction buf digits zeros = buf ++ b'0' ∷ b'.' ∷ (replicate zeros b'0' ++ digits)

unfoldable pub append_magnitude : Bytes → ℕ → Bytes
append_magnitude buf v = if v == 0 then buf ++ b'0' ∷ [] else buf ++ digits_onto word_digits v []

-- `appendInt`
unfoldable pub append_int : Bytes → ℤ → Bytes
append_int buf (pos v) = append_magnitude buf v
append_int buf (negsuc v) = append_magnitude (buf ++ b'-' ∷ []) (suc v)

-- `appendExponential`
unfoldable pub append_exponential : Bytes → Bytes → ℕ → ℤ → Bytes
unfolding ◌-ℤ◌
append_exponential buf digits k n =
    let point = if ltb 1 k then b'.' ∷ drop 1 digits else [] in
    let mantissa = buf ++ (take 1 digits ++ (point ++ b'e' ∷ [])) in
    let exp = n -ℤ pos 1 in
    append_int (if leb_ℤ (pos 0) exp then mantissa ++ b'+' ∷ [] else mantissa) exp

-- `formatECMA`
unfoldable pub format_ecma : Bool → Bytes → ℤ → Bytes
format_ecma negative digits n =
    let k = length digits in
    let buf = if negative then b'-' ∷ [] else [] in
    if is_integer_fixed k n
    then append_integer_fixed buf digits k (pos_part n)
    else if is_fraction_fixed n
    then append_fraction_fixed buf digits (pos_part n)
    else if is_small_fraction n
    then append_small_fraction buf digits (neg_part n)
    else append_exponential buf digits k n
