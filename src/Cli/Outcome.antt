-- ===== src/Cli/Outcome.antt =====
-- cmd/jcs-canon/main.go: what the commands read, and when they end with exit code 0.
use jcs_schubfach.Prelude.{ℕ, ◌≡◌, ◌≢◌, refl, arith, List, Bytes}
use jcs_schubfach.Cli.{
  Environment, World, W, write_classified_error, report_or, ensure_single_input, read_input,
}
use jcs_schubfach.Jcserr.{Error, class, exit_code, FailureClass, internal_io, internal_error}
use jcs_schubfach.Jcstoken.Options.{default_max_input_size}
use jcs_schubfach.Result.{Result, ok, err, out_of_fuel}

-- The bytes that a command reads from its input.
abbrev pub Reads : Environment → List Bytes → Bytes → Type 0
Reads env positional s =
    (ensure_single_input positional ≡ ok tt)
    × (read_input env positional default_max_input_size ≡ ok s)

exit_code-ne-zero : (c : FailureClass) → exit_code c ≢ 0
unfolding exit_code
exit_code-ne-zero internal_io = omega arith
exit_code-ne-zero internal_error = omega arith
exit_code-ne-zero _ = omega arith

pub write_classified_error-ne-zero : (e : Error) (w : World) → (write_classified_error e w).0 ≢ 0
unfolding write_classified_error
write_classified_error-ne-zero e w =
    ground (arith, exit_code-ne-zero (class e), exit_code-ne-zero internal_io)

-- A command that ends with exit code 0 has got past this check.
pub report_or-zero {ℓ} :
    {A : Type ℓ} (r : Result A) (k : A → W ℕ) (w : World)
    → (report_or r k w).0 ≡ 0
    → (a : A) × (r ≡ ok a) × ((k a w).0 ≡ 0)
unfolding report_or
report_or-zero (ok a) k w h = (a, refl, h)
report_or-zero (err e) k w h = absurd (write_classified_error-ne-zero e w h)
report_or-zero out_of_fuel k w h = absurd (exit_code-ne-zero internal_error h)
