-- ===== src/Cli/Exit.antt =====
-- cmd/jcs-canon/main.go: what the exit code says.
use jcs_schubfach.Prelude.{
  ℕ, ◌≡◌, refl, ◌⊎◌, inl, inr, Bool, true, false, not, List, [], ◌∷◌, arith, Bytes, codes, equal,
  if◌then◌else◌, ◌||◌,
}
use jcs_schubfach.Jcserr.{Error, class, exit_code, FailureClass, internal_io, internal_error}
use jcs_schubfach.Cli.{
  Environment, World, W, raw, write_stdout, write_classified_error, or_io_error, report_or,
  parse_flags, no_flags, canonical_input, cmd_canonicalize, parse_canonical_from_input,
  compare_canonical, cmd_verify, usage_error, run, is_arg,
}
use jcs_schubfach.Result.{Result, ok, err, out_of_fuel}

-- Success, a rejected input or invocation, an internal failure.
abbrev pub IsExit : ℕ → Type 0
IsExit n = (n ≡ 0) ⊎ ((n ≡ 2) ⊎ (n ≡ 10))

exit_code-cases : (c : FailureClass) → (exit_code c ≡ 2) ⊎ (exit_code c ≡ 10)
unfolding exit_code
exit_code-cases internal_io = inr refl
exit_code-cases internal_error = inr refl
exit_code-cases _ = inl refl

write_classified_error-IsExit : (e : Error) (w : World) → IsExit (write_classified_error e w).0
unfolding write_classified_error
write_classified_error-IsExit e w =
    ground (arith, exit_code-cases (class e), exit_code-cases internal_io)

or_io_error-IsExit : (r : Bool × World) (code : ℕ) → IsExit code → IsExit (or_io_error r code).0
unfolding or_io_error
or_io_error-IsExit (true, w) code h = h
or_io_error-IsExit (false, w) code h = write_classified_error-IsExit _ w

report_or-IsExit {ℓ} :
    {A : Type ℓ} (r : Result A) (k : A → W ℕ) (w : World)
    → ((a : A) → IsExit (k a w).0)
    → IsExit (report_or r k w).0
unfolding report_or
report_or-IsExit (ok a) k w h = h a
report_or-IsExit (err e) k w h = write_classified_error-IsExit e w
report_or-IsExit out_of_fuel k w h = unfold exit_code in inr (inr refl)

split-if : (b : Bool) (x y : ℕ × World) → IsExit x.0 → IsExit y.0 → IsExit (if b then x else y).0
split-if true x y h k = h
split-if false x y h k = k

compare_canonical-IsExit :
    (quiet : Bool) (r : Bytes × Bytes) (w : World) → IsExit (compare_canonical quiet r w).0
unfolding compare_canonical
compare_canonical-IsExit quiet r w =
    split-if (not (equal r.0 r.1)) _ _ (write_classified_error-IsExit _ w)
      (split-if quiet _ _ (inl refl) (or_io_error-IsExit _ 0 (inl refl)))

cmd_canonicalize-IsExit :
    (env : Environment) (args : List Bytes) (w : World) → IsExit (cmd_canonicalize env args w).0
unfolding cmd_canonicalize
cmd_canonicalize-IsExit env args w =
    report_or-IsExit (parse_flags args no_flags []) _ w λ (fl, positional).
      split-if fl.help _ _ (or_io_error-IsExit _ 0 (inl refl)) (
        report_or-IsExit (canonical_input env positional) _ w
          λ out. or_io_error-IsExit (write_stdout (raw out) w) 0 (inl refl))

cmd_verify-IsExit :
    (env : Environment) (args : List Bytes) (w : World) → IsExit (cmd_verify env args w).0
unfolding cmd_verify
cmd_verify-IsExit env args w =
    report_or-IsExit (parse_flags args no_flags []) _ w λ (fl, positional).
      split-if fl.help _ _ (or_io_error-IsExit _ 0 (inl refl)) (
        report_or-IsExit (parse_canonical_from_input env positional) (compare_canonical fl.quiet) w
          λ r. compare_canonical-IsExit fl.quiet r w)

usage_error-IsExit : (w : World) → IsExit (usage_error w).0
unfolding usage_error
usage_error-IsExit w = or_io_error-IsExit _ _ (write_classified_error-IsExit _ w)

-- Whatever the arguments, the input and the streams do, the process ends with 0, 2 or 10.
pub run-IsExit : (env : Environment) (args : List Bytes) (w : World) → IsExit (run env args w).0
unfolding run
run-IsExit env [] w = usage_error-IsExit w
run-IsExit env (a ∷ args) w =
    split-if (is_arg a (codes "--help") || is_arg a (codes "-h")) _ _
      (or_io_error-IsExit _ 0 (inl refl))
      (split-if (is_arg a (codes "--version")) _ _ (or_io_error-IsExit _ 0 (inl refl)) (
        split-if (is_arg a (codes "canonicalize")) _ _ (cmd_canonicalize-IsExit env args w) (
          split-if (is_arg a (codes "verify")) _ _ (cmd_verify-IsExit env args w)
            (usage_error-IsExit w))))
