-- ===== src/Jcstoken/Number/Zero.antt =====
-- jcstoken/token.go: the zeros among the numbers that `buildNumberValue` lets through.
use jcs_schubfach.Prelude.{
  ℕ, ◌^◌, ◌<◌, ◌≡◌, ◌≢◌, inl, inr, true, false, Bool-cases, [], ◌∷◌, arith, Bytes,
}
use jcs_schubfach.Float64.{is_zero}
use jcs_schubfach.Float64.Parse.{Parsed, parse_float, syntax, range, finite}
use jcs_schubfach.Float64.Parse.Sign.{HasNoSign, parse_unsigned-HasNoSign}
use jcs_schubfach.Jcserr.{invalid_grammar}
use jcs_schubfach.Jcstoken.Number.{
  token_represents_zero, has_minus, classify_double, build_number_value,
}
use jcs_schubfach.Jcstoken.Number.Scan.{IsFinite}
use jcs_schubfach.Prelude.Int.{pos}
use jcs_schubfach.Result.{fail, Ensures, holds, rejected, Ensures-reject}

-- A token without a minus is read as a double without a sign.
parse_float-HasNoSign : (raw : Bytes) → has_minus raw ≡ false → HasNoSign (parse_float raw)
unfolding parse_float
parse_float-HasNoSign [] h = tt
parse_float-HasNoSign (b ∷ r) h = rw h (parse_unsigned-HasNoSign (b ∷ r))

-- A finite double other than the negative zero; the zero is of a token that represents zero.
pub record IsNumberOf (raw : Bytes) (f : ℕ) : Type 0 where
  pub finite_value : IsFinite f
  pub not_negative_zero : f ≢ 2 ^ 63
  pub zero_token : is_zero f ≡ true → token_represents_zero raw ≡ true

classify_double-IsNumberOf :
    (start : ℕ) (raw : Bytes) (f : ℕ)
    → (has_minus raw ≡ false → f < 2 ^ 63)
    → Ensures (IsNumberOf raw) (classify_double start raw f)
unfolding classify_double
classify_double-IsNumberOf start raw f sign = Ensures-reject _ _ λ fin. Ensures-reject _ _ λ minus.
    Ensures-reject _ _ λ zero_. holds (record {
      finite_value = fin;
      not_negative_zero = λ e. elim (Bool-cases (has_minus raw)) [
        | inl m ↦ ground (arith, m, minus, zero_, e)
        | inr m ↦ let low = sign m in omega (arith, low, e)
      ];
      zero_token = λ z. ground (arith, z, zero_);
    })

-- `buildNumberValue` ends, and a number that it accepts is finite, is not the negative zero, and is
-- zero only if its token has no digit but 0 before the exponent.
pub build_number_value-IsNumberOf :
    (start : ℕ) (raw : Bytes) → Ensures (IsNumberOf raw) (build_number_value start raw)
unfolding build_number_value
build_number_value-IsNumberOf start raw = go (parse_float raw) (parse_float-HasNoSign raw)
  where
    go :
        (p : Parsed)
        → (has_minus raw ≡ false → HasNoSign p)
        → Ensures (IsNumberOf raw) (elim p [
          | syntax ↦ fail invalid_grammar (pos start)
          | range f ↦ classify_double start raw f
          | finite f ↦ classify_double start raw f
        ])
    go syntax h = rejected
    go (range f) h = classify_double-IsNumberOf start raw f h
    go (finite f) h = classify_double-IsNumberOf start raw f h
