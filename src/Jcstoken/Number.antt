-- ===== src/Jcstoken/Number.antt =====
-- jcstoken/token.go: number tokens, from the scanner to the double.
pub mod Scan
pub mod Local
pub mod Anywhere
pub mod Ascii
pub mod Zero
use jcs_schubfach.Prelude.{
  ℕ, ◌+◌, ◌-◌, Bool, true, false, not, ◌&&◌, ◌||◌, none, some, [], ◌∷◌, ltb, ◌==◌, if◌then◌else◌,
  Bytes, take,
}
use jcs_schubfach.Prelude.Int.{pos}
use jcs_schubfach.Float64.{Float64, is_nan, is_inf, is_zero}
use jcs_schubfach.Float64.Parse.{is_digit, parse_float, syntax, range, finite}
use jcs_schubfach.Jcserr.{
  new, invalid_grammar, number_overflow, number_neg_zero, number_underflow, bound_exceeded,
}
use jcs_schubfach.Jcstoken.Options.{Limits}
use jcs_schubfach.Jcstoken.State.{Parser, advance, new_error, peek}
use jcs_schubfach.Result.{Result, ok, fail, reject_if, ◌>>=◌, ◌>>◌}
use jcs_schubfach.Unicode.Utf8.{in_range}

-- The byte at the position is a digit.
abbrev pub at_digit : Parser → Bool
at_digit p = elim (peek p) [ none ↦ false | some b ↦ is_digit b ]

abbrev pub at_byte : ℕ → Parser → Bool
at_byte c p = elim (peek p) [ none ↦ false | some b ↦ b == c ]

-- `tokenRepresentsZero`: the token's digits up to its exponent.
abbrev pub strip_minus : Bytes → Bytes
strip_minus [] = []
strip_minus (b ∷ r) = if b == b'-' then r else b ∷ r

unfoldable pub zero_digits : Bytes → Bool
zero_digits [] = true
zero_digits (b ∷ r) =
    let more = zero_digits r in
    if b == b'e' || b == b'E' then true else if in_range b'1' b'9' b then false else more

unfoldable pub token_represents_zero : Bytes → Bool
token_represents_zero raw = zero_digits (strip_minus raw)

abbrev pub has_minus : Bytes → Bool
has_minus [] = false
has_minus (b ∷ r) = b == b'-'

-- The checks of `buildNumberValue` on a double; the last case returns it.
unfoldable pub classify_double : ℕ → Bytes → Float64 → Result Float64
classify_double start raw f = do
  reject_if (is_nan f || is_inf f) (new number_overflow (pos start))
  reject_if (has_minus raw && token_represents_zero raw) (new number_neg_zero (pos start))
  reject_if (is_zero f && not (token_represents_zero raw)) (new number_underflow (pos start))
  ok f

-- `buildNumberValue`; `errorsIsRange` lets an out-of-range result through to the checks.
unfoldable pub build_number_value : ℕ → Bytes → Result Float64
build_number_value start raw = elim (parse_float raw) [
  | syntax ↦ fail invalid_grammar (pos start)
  | range f ↦ classify_double start raw f
  | finite f ↦ classify_double start raw f
]

module _ (lim : Limits) where
  -- The loop over digits, in `scanNonZeroIntegerDigits`, `scanFractionPart` and `scanExponentPart`.
  unfoldable pub digits_from : ℕ → Bytes → ℕ → Result (Bytes × ℕ)
  digits_from start [] n = ok ([], n)
  digits_from start (b ∷ r) n =
      let more = digits_from start r (n + 1) in
      let here =
        if ltb lim.max_number_chars (n + 1 - start)
        then fail bound_exceeded (pos start)
        else more in
      if is_digit b then here else ok (b ∷ r, n)

  abbrev pub scan_digits : ℕ → Parser → Result Parser
  scan_digits start p = do
    (r, n) ← digits_from start p.rest p.at
    ok (record p { rest = r; at = n })

  -- `scanZeroIntegerPart`
  unfoldable pub scan_zero_integer_part : Parser → Result Parser
  scan_zero_integer_part p =
      let q = advance 1 p in if at_digit q then new_error invalid_grammar q else ok q

  -- `scanIntegerPart`
  unfoldable pub scan_integer_part : ℕ → Parser → Result Parser
  scan_integer_part start p = elim (peek p) [
    | none ↦ new_error invalid_grammar p
    | some b ↦
        if b == b'0'
        then scan_zero_integer_part p
        else if ltb b b'1' || ltb b'9' b
        then new_error invalid_grammar p
        else scan_digits start p
  ]

  -- `scanFractionPart`
  unfoldable pub scan_fraction_part : ℕ → Parser → Result Parser
  scan_fraction_part start p =
      let q = advance 1 p in
      if not (at_byte b'.' p)
      then ok p
      else if not (at_digit q)
      then new_error invalid_grammar q
      else scan_digits start q

  -- `scanExponentPart`
  unfoldable pub scan_exponent_part : ℕ → Parser → Result Parser
  scan_exponent_part start p =
      let q = advance 1 p in
      let r = if at_byte b'+' q || at_byte b'-' q then advance 1 q else q in
      if not (at_byte b'e' p || at_byte b'E' p)
      then ok p
      else if not (at_digit r)
      then new_error invalid_grammar r
      else scan_digits start r

  -- `parseNumber`
  unfoldable pub parse_number : Parser → Result (Float64 × Parser)
  parse_number p = do
    a ← scan_integer_part p.at (if at_byte b'-' p then advance 1 p else p)
    b ← scan_fraction_part p.at a
    q ← scan_exponent_part p.at b
    reject_if (ltb lim.max_number_chars (q.at - p.at)) (new bound_exceeded (pos p.at))
    f ← build_number_value p.at (take (q.at - p.at) p.rest)
    ok (f, q)
