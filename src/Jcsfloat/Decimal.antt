-- ===== src/Jcsfloat/Decimal.antt =====
-- jcsfloat: the loops that print an unsigned integer in decimal. A Go word has at most 20 digits,
-- which is the fuel that the callers give.
use jcs_schubfach.Prelude.{
  ℕ, zero, suc, ◌+◌, ◌/◌, ◌%◌, Bool, true, ◌&&◌, [], ◌∷◌, ◌==◌, if◌then◌else◌, Bytes,
}

-- `for v > 0 { n--; buf[n] = '0' + v%10; v /= 10 }`: the digits of `v` in front of `out`.
unfoldable pub digits_onto : ℕ → ℕ → Bytes → Bytes
digits_onto zero v out = out
digits_onto (suc f) v out =
    let more = digits_onto f (v / 10) ((b'0' + v % 10) ∷ out) in if v == 0 then out else more

-- The length of `var buf [20]byte`.
abbrev pub word_digits : ℕ
word_digits = 20

-- A word's digits, with the single `0` for zero.
unfoldable pub render : ℕ → Bytes
render v = if v == 0 then b'0' ∷ [] else digits_onto word_digits v []

-- `for end > n+1 && buf[end-1] == '0' { end-- }`: all the zeros at the end but a leading one.
unfoldable pub all_zeros : Bytes → Bool
all_zeros [] = true
all_zeros (b ∷ r) = b == b'0' && all_zeros r

unfoldable pub trim_tail : Bytes → Bytes
trim_tail [] = []
trim_tail (b ∷ r) = let more = b ∷ trim_tail r in if all_zeros (b ∷ r) then [] else more

unfoldable pub trim_zeros : Bytes → Bytes
trim_zeros [] = []
trim_zeros (b ∷ r) = b ∷ trim_tail r

-- `formatUint`
unfoldable pub format_uint : ℕ → Bytes
format_uint v = if v == 0 then b'0' ∷ [] else trim_zeros (render v)

unfoldable pub count_loop : ℕ → ℕ → ℕ
count_loop zero v = 0
count_loop (suc f) v = let more = suc (count_loop f (v / 10)) in if v == 0 then 0 else more

-- `countDecimalDigits`
unfoldable pub count_decimal_digits : ℕ → ℕ
count_decimal_digits v = if v == 0 then 1 else count_loop word_digits v
