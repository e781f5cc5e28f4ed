-- ===== src/Jcsfloat.antt =====
-- jcsfloat/jcsfloat.go: `FormatDouble`, over the modules for its parts.
pub mod Pow10
pub mod Decimal
pub mod Format
pub mod Ryu
pub mod Shortest
use jcs_schubfach.Prelude.{[], ◌∷◌, if◌then◌else◌, Bytes}
use jcs_schubfach.Prelude.Int.{minus_one}
use jcs_schubfach.Float64.{Float64, is_nan, is_inf, is_zero, sign_bit, magnitude}
use jcs_schubfach.Jcserr.{invalid_grammar}
use jcs_schubfach.Result.{Result, ok, fail}
use Format.{format_ecma}
use Shortest.{shortest_decimal}

-- `FormatDouble`
unfoldable pub format_double : Float64 → Result Bytes
format_double f =
    if is_nan f
    then fail invalid_grammar minus_one
    else if is_zero f
    then ok (b'0' ∷ [])
    else if is_inf f
    then fail invalid_grammar minus_one
    else (let (digits, dp) = shortest_decimal (magnitude f) in
        ok (format_ecma (sign_bit f) digits dp))
