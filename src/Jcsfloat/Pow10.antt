-- ===== src/Jcsfloat/Pow10.antt =====
-- jcsfloat/pow10_table.go: 128-bit significands of the powers of ten from 1e-348 to 1e347.
mod First
mod Second
mod Third
mod Fourth
mod Fifth
pub mod Exact
use jcs_schubfach.Prelude.{ℕ, List, ◌++◌}
use First.{first_powers}
use Second.{second_powers}
use Third.{third_powers}
use Fourth.{fourth_powers}
use Fifth.{fifth_powers}

-- `-pow10MinExp`
abbrev pub pow10_min_exp : ℕ
pow10_min_exp = 348

abbrev pub pow10_max_exp : ℕ
pow10_max_exp = 347

-- `pow10Table`, as (low word, high word)
unfoldable pub pow10_table : List (ℕ × ℕ)
unfolding first_powers second_powers third_powers fourth_powers fifth_powers
pow10_table = first_powers ++ (second_powers ++ (third_powers ++ (fourth_powers ++ fifth_powers)))
