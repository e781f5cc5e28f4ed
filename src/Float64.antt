-- ===== src/Float64.antt =====
-- Go's float64 as its IEEE 754 bit pattern, a number below 2 ^ 64, with what the source uses of
-- package math; and `strconv.ParseFloat` on decimal literals.
pub mod Parse
use jcs_schubfach.Prelude.{
  ℕ, ◌+◌, ◌-◌, ◌*◌, ◌/◌, ◌%◌, ◌^◌, Bool, not, ◌&&◌, leb, ◌==◌, if◌then◌else◌,
}

abbrev pub Float64 : Type 0
Float64 = ℕ

-- `math.Float64bits(f) & mantMask64`
abbrev pub raw_mantissa : Float64 → ℕ
raw_mantissa f = f % 2 ^ 52

-- `math.Float64bits(f) >> mantBits64 & expMask64`
abbrev pub raw_exponent : Float64 → ℕ
raw_exponent f = f / 2 ^ 52 % 2 ^ 11

abbrev pub sign_bit : Float64 → Bool
sign_bit f = leb (2 ^ 63) f

-- `math.IsNaN`
abbrev pub is_nan : Float64 → Bool
is_nan f = raw_exponent f == 2047 && not (raw_mantissa f == 0)

-- `math.IsInf(f, 0)`
abbrev pub is_inf : Float64 → Bool
is_inf f = raw_exponent f == 2047 && raw_mantissa f == 0

-- `f == 0`, for either zero
abbrev pub is_zero : Float64 → Bool
is_zero f = f % 2 ^ 63 == 0

-- `-f` for a negative `f`
abbrev pub magnitude : Float64 → Float64
magnitude f = f % 2 ^ 63
