-- ===== src/Cli/Verify.antt =====
-- cmd/jcs-canon/main.go: `verify` against `Canonicalize`.
use jcs_schubfach.Prelude.{
  ◌≡◌, refl, ap, sym, ◌∙◌, inl, inr, Bool, true, false, Bool-cases, some, List, [], Bytes, equal,
  equal_iff,
}
use jcs_schubfach.Cli.{
  Environment, World, Flags, report_or, parse_flags, no_flags, ensure_single_input, read_input,
  parse_canonical_from_input, compare_canonical, cmd_verify,
}
use jcs_schubfach.Jcs.Serialize.{canonicalize, serialize}
use jcs_schubfach.Jcstoken.Options.{default_max_input_size}
use jcs_schubfach.Jcstoken.Parser.{parse}
use jcs_schubfach.Jcstoken.Value.{Value}
use jcs_schubfach.Cli.Outcome.{Reads, write_classified_error-ne-zero, report_or-zero}
use jcs_schubfach.Result.{Result, ok, bind-eq-ok}

-- `Canonicalize` is `Parse`, then `Serialize`.
parse-serialize-canonicalize :
    (s : Bytes) {c : Bytes} {v : Value}
    → parse s ≡ ok v
    → serialize (some v) ≡ ok c
    → canonicalize s ≡ ok c
unfolding canonicalize serialize
parse-serialize-canonicalize s parsed written = rw parsed written

read-eq :
    (env : Environment) (positional : List Bytes) {s t c d : Bytes}
    → Reads env positional t
    → canonicalize t ≡ ok d
    → ◌≡◌ {A = Result (Bytes × Bytes)} (ok (t, d)) (ok (s, c))
    → Reads env positional s × (canonicalize s ≡ ok c)
read-eq env positional (one, read) h e = ((one, cc), cc)

-- A canonical form is computed as `Canonicalize` does it.
parse_canonical-canonicalize :
    (env : Environment) (positional : List Bytes) {s c : Bytes}
    → parse_canonical_from_input env positional ≡ ok (s, c)
    → Reads env positional s × (canonicalize s ≡ ok c)
unfolding parse_canonical_from_input
parse_canonical-canonicalize env positional {s} {c} h =
    let (_, one, h1) = bind-eq-ok (ensure_single_input positional) _ h in
    let (input, read, h2) = bind-eq-ok (read_input env positional default_max_input_size) _ h1 in
    let (v, parsed, h3) = bind-eq-ok (parse input) _ h2 in
    let (out, written, h4) = bind-eq-ok (serialize (some v)) _ h3 in
    read-eq env positional (one, read) (parse-serialize-canonicalize input parsed written) h4

canonicalize-parse_canonical :
    (env : Environment) (positional : List Bytes) {s c : Bytes}
    → Reads env positional s
    → canonicalize s ≡ ok c
    → parse_canonical_from_input env positional ≡ ok (s, c)
unfolding parse_canonical_from_input canonicalize serialize
canonicalize-parse_canonical env positional {s} {c} (one, read) h =
    let (v, parsed, written) = bind-eq-ok (parse s) _ h in rw (one, read, parsed, written) refl

compare_canonical-zero :
    (quiet : Bool) (s c : Bytes) (w : World) → (compare_canonical quiet (s, c) w).0 ≡ 0 → s ≡ c
unfolding compare_canonical
compare_canonical-zero quiet s c w h = elim (Bool-cases (equal s c)) [
  | inl same ↦ (equal_iff s c).0 same
  | inr differ ↦ absurd (write_classified_error-ne-zero _ w (rw differ at h))
]

compare_canonical-same : (s : Bytes) (w : World) → compare_canonical true (s, s) w ≡ (0, w)
unfolding compare_canonical
compare_canonical-same s w = rw ((equal_iff s s).1 refl) refl

module _ (env : Environment) (args positional : List Bytes) (fl : Flags) (w : World)
    (flags : parse_flags args no_flags [] ≡ ok (fl, positional)) (no_help : fl.help ≡ false) where
  cmd_verify_lem :
      cmd_verify env args w
      ≡ report_or (parse_canonical_from_input env positional) (compare_canonical fl.quiet) w
  unfolding cmd_verify report_or
  cmd_verify_lem = rw (flags, no_help) refl

  -- A `verify` command whose arguments parse and do not ask for help, and that ends with exit code 0,
  -- has read bytes that `Canonicalize` maps to themselves.
  pub cmd_verify_sound :
      (cmd_verify env args w).0 ≡ 0 → (s : Bytes) × Reads env positional s × (canonicalize s ≡ ok s)
  cmd_verify_sound h =
      let ((s, c), r, z) = report_or-zero _ _ w (ap (λ r. r.0) (sym cmd_verify_lem) ∙ h) in
      let (reads, canonical) = parse_canonical-canonicalize env positional r in
      let same = compare_canonical-zero fl.quiet s c w z in (s, reads, canonical ∙ ap ok (sym same))

  -- A quiet `verify` command whose arguments parse and do not ask for help, and that reads bytes which
  -- `Canonicalize` maps to themselves, ends with exit code 0 and has written nothing.
  pub cmd_verify_complete :
      (s : Bytes)
      → fl.quiet ≡ true
      → Reads env positional s
      → canonicalize s ≡ ok s
      → cmd_verify env args w ≡ (0, w)
  unfolding report_or
  cmd_verify_complete s quiet reads same =
      cmd_verify_lem
      ∙ rw (canonicalize-parse_canonical env positional reads same, quiet)
          (compare_canonical-same s w)
