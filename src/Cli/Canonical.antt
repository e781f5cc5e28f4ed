-- ===== src/Cli/Canonical.antt =====
-- cmd/jcs-canon/main.go: what `canonicalize` writes.
use jcs_schubfach.Prelude.{◌≡◌, refl, ap, sym, ◌∙◌, Bool, true, false, List, [], ◌∷◌, ◌++◌, Bytes}
use jcs_schubfach.Cli.{
  Environment, World, Flags, Stream, Output, raw, write_to, write_stdout, or_io_error, report_or,
  parse_flags, no_flags, ensure_single_input, read_input, canonical_input, cmd_canonicalize, put,
}
use jcs_schubfach.Cli.Outcome.{Reads, write_classified_error-ne-zero, report_or-zero}
use jcs_schubfach.Jcs.Serialize.{canonicalize}
use jcs_schubfach.Jcstoken.Options.{default_max_input_size}
use jcs_schubfach.Result.{ok, bind-eq-ok}

-- Past the write of a result, a command has exit code 0 only if the write succeeded.
or_io_error-zero :
    (r : Bool × World) → (or_io_error r 0).0 ≡ 0 → (r.0 ≡ true) × (or_io_error r 0 ≡ (0, r.1))
unfolding or_io_error
or_io_error-zero (true, w) h = (refl, refl)
or_io_error-zero (false, w) h = absurd (write_classified_error-ne-zero _ w h)

-- A write that succeeds appends.
put-written :
    (o : Output) (cs : List Bool) (s : Stream)
    → (put o cs s).0 ≡ true
    → (put o cs s).1.written ≡ s.written ++ o ∷ []
unfolding put
put-written o [] s h = refl
put-written o (true ∷ cs) s h = refl
put-written o (false ∷ cs) s h = cc

canonical_input-canonicalize :
    (env : Environment) (positional : List Bytes) {out : Bytes}
    → canonical_input env positional ≡ ok out
    → (s : Bytes) × Reads env positional s × (canonicalize s ≡ ok out)
unfolding canonical_input
canonical_input-canonicalize env positional h =
    let (_, one, h1) = bind-eq-ok (ensure_single_input positional) _ h in
    let (s, read, h2) = bind-eq-ok (read_input env positional default_max_input_size) _ h1 in
    (s, (one, read), h2)

module _ (env : Environment) (args positional : List Bytes) (fl : Flags) (w : World)
    (flags : parse_flags args no_flags [] ≡ ok (fl, positional)) (no_help : fl.help ≡ false) where
  cmd_canonicalize_lem :
      cmd_canonicalize env args w
      ≡ report_or
          (canonical_input env positional)
          (λ out v. or_io_error (write_stdout (raw out) v) 0)
          w
  unfolding cmd_canonicalize report_or
  cmd_canonicalize_lem = rw (flags, no_help) refl

  -- A `canonicalize` command whose arguments parse and do not ask for help, and that ends with exit
  -- code 0, has appended to stdout what `Canonicalize` gives for the bytes that it has read, and has
  -- left stderr as it was.
  pub cmd_canonicalize_sound :
      (cmd_canonicalize env args w).0 ≡ 0
      → (s : Bytes) × (out : Bytes) × Reads env positional s
        × (canonicalize s ≡ ok out)
        × ((cmd_canonicalize env args w).1.stdout.written ≡ w.stdout.written ++ raw out ∷ [])
        × ((cmd_canonicalize env args w).1.stderr ≡ w.stderr)
  unfolding write_stdout write_to report_or
  cmd_canonicalize_sound h =
      let (out, r, z) = report_or-zero _ _ w (ap (λ r. r.0) (sym cmd_canonicalize_lem) ∙ h) in
      let (s, reads, canonical) = canonical_input-canonicalize env positional r in
      let (wrote, last) = or_io_error-zero (write_stdout (raw out) w) z in
      let whole : cmd_canonicalize env args w ≡ (0, (write_stdout (raw out) w).1) =
        cmd_canonicalize_lem
        ∙ ap (λ m. report_or m (λ o v. or_io_error (write_stdout (raw o) v) 0) w) r
        ∙ last in
      (
        s,
        out,
        reads,
        canonical,
        ap (λ r. r.1.stdout.written) whole ∙ put-written (raw out) w.stdout.coming w.stdout wrote,
        ap (λ r. r.1.stderr) whole,
      )
