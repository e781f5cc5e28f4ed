-- ===== src/Float64/Parse.antt =====
-- `strconv.ParseFloat(raw, 64)` on the literals that the number scanner lets through: the nearest
-- double, ties to even, with exact arithmetic; exponents saturate as in strconv.
pub mod Sign
use jcs_schubfach.Prelude.{
  ℕ, zero, suc, ◌+◌, ◌-◌, ◌*◌, ◌/◌, ◌%◌, ◌^◌, Bool, true, false, ◌&&◌, ◌||◌, [], ◌∷◌, Option, none,
  some, ltb, ◌==◌, if◌then◌else◌, Bytes,
}
use jcs_schubfach.Unicode.Utf8.{in_range}

-- The outcome: a syntax error, an infinity with `ErrRange`, or a double.
pub data Parsed : Type 0 where
  syntax : Parsed
  range : ℕ → Parsed
  finite : ℕ → Parsed

-- `isDigit`
abbrev pub is_digit : ℕ → Bool
is_digit b = in_range b'0' b'9' b

-- The digits in front, as a number with the digits read before it, their count, and what is left.
pub record Digits : Type 0 where
  pub val : ℕ
  pub count : ℕ
  pub left : Bytes

unfoldable pub read_digits : ℕ → ℕ → Bytes → Digits
read_digits v n [] = record { val = v; count = n; left = [] }
read_digits v n (b ∷ r) =
    let more = read_digits (v * 10 + (b - b'0')) (n + 1) r in
    if is_digit b then more else record { val = v; count = n; left = b ∷ r }

-- The exponent's digits; past 10,000 they change nothing.
unfoldable pub read_exponent : ℕ → Bytes → Option ℕ
read_exponent e [] = some e
read_exponent e (b ∷ r) =
    let more = read_exponent (if ltb e 10_000 then e * 10 + (b - b'0') else e) r in
    if is_digit b then more else none

-- The least `k` from the given one on with `n / (d * 2 ^ k) < 2 ^ 53`, and the ratio's denominator.
unfoldable pub find_scale : ℕ → ℕ → ℕ → ℕ → Option (ℕ × ℕ)
find_scale zero n d k = none
find_scale (suc f) n d k =
    let more = find_scale f n (2 * d) (k + 1) in if ltb n (d * 2 ^ 53) then some (k, d) else more

-- `n / d` rounded to an integer, ties to even.
unfoldable pub round_even : ℕ → ℕ → ℕ
round_even n d =
    let q = n / d in let r = 2 * (n % d) in if ltb d r || (r == d && q % 2 == 1) then q + 1 else q

-- The double nearest to `n / d`; `none` when that overflows.
unfoldable pub round_ratio : ℕ → ℕ → Option ℕ
round_ratio n d = elim (find_scale 2046 (n * 2 ^ 1074) d 0) [
  | none ↦ none
  | some (k, d') ↦
      let bits = k * 2 ^ 52 + round_even (n * 2 ^ 1074) d' in
      if ltb bits (2047 * 2 ^ 52) then some bits else none
]

abbrev pub sign_of : Bool → ℕ
sign_of neg = if neg then 2 ^ 63 else 0

unfoldable pub to_double : Bool → ℕ → ℕ → Parsed
to_double neg n d = elim (round_ratio n d) [
  | none ↦ range (sign_of neg + 2047 * 2 ^ 52)
  | some bits ↦ finite (sign_of neg + bits)
]

-- `± val * 10 ^ (± e) / 10 ^ fraction`
unfoldable pub scaled : Bool → ℕ → ℕ → Bool → ℕ → Parsed
scaled neg val fraction eneg e =
    if eneg
    then to_double neg val (10 ^ (fraction + e))
    else to_double neg (val * 10 ^ e) (10 ^ fraction)

-- Behind `e` or `E`.
unfoldable pub parse_exponent : Bool → ℕ → ℕ → Bytes → Parsed
parse_exponent neg val fraction [] = syntax
parse_exponent neg val fraction (b ∷ r) =
    let signed = b == b'-' || b == b'+' in
    elim (if signed then r else b ∷ r) [
      | [] ↦ syntax
      | c ∷ s ↦ elim (read_exponent 0 (c ∷ s)) [
        | none ↦ syntax
        | some e ↦ scaled neg val fraction (b == b'-') e
      ]
    ]

unfoldable pub parse_tail : Bool → ℕ → ℕ → Bytes → Parsed
parse_tail neg val fraction [] = scaled neg val fraction false 0
parse_tail neg val fraction (b ∷ r) =
    if b == b'e' || b == b'E' then parse_exponent neg val fraction r else syntax

unfoldable pub parse_fraction : Bool → Digits → Parsed
parse_fraction neg whole = elim whole.left [
  | [] ↦ parse_tail neg whole.val 0 []
  | b ∷ r ↦
      if b == b'.'
      then (let all = read_digits whole.val 0 r in parse_tail neg all.val all.count all.left)
      else parse_tail neg whole.val 0 (b ∷ r)
]

-- At least one digit stands before the point in every literal that the scanner accepts.
unfoldable pub parse_unsigned : Bool → Bytes → Parsed
parse_unsigned neg s =
    let whole = read_digits 0 0 s in if whole.count == 0 then syntax else parse_fraction neg whole

-- `strconv.ParseFloat(raw, 64)`
unfoldable pub parse_float : Bytes → Parsed
parse_float [] = syntax
parse_float (b ∷ r) = if b == b'-' then parse_unsigned true r else parse_unsigned false (b ∷ r)
