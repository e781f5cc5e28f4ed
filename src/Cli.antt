-- ===== src/Cli.antt =====
-- cmd/jcs-canon/main.go: the command line. Streams and files belong to the operating system: a write
-- succeeds or fails as the environment decides, and a source yields its bytes or an error.
pub mod Canonical
pub mod Exit
pub mod Piped
pub mod Outcome
pub mod Verify
use jcs_schubfach.Prelude.{
  ℕ, zero, suc, ◌+◌, Bool, true, false, not, ◌||◌, Option, none, some, List, [], ◌∷◌, ◌++◌, ltb,
  leb, ◌==◌, if◌then◌else◌, Bytes, codes, length, take, equal,
}
use jcs_schubfach.Prelude.Int.{pos, minus_one}
use jcs_schubfach.Jcserr.{
  Error, new, wrap, class, FailureClass, exit_code, bound_exceeded, not_canonical, cli_usage,
  internal_io, internal_error,
}
use jcs_schubfach.Jcs.Serialize.{canonicalize, serialize}
use jcs_schubfach.Jcstoken.Options.{default_max_input_size}
use jcs_schubfach.Jcstoken.Parser.{parse}
use jcs_schubfach.Result.{Result, ok, err, out_of_fuel, fail, reject_if, ◌>>=◌, ◌>>◌}

-- What is written: bytes, a line of fixed text, or the line that reports an error.
pub data Output : Type 0 where
  raw : Bytes → Output
  line : Bytes → Output
  report : Error → Output

-- `io.Writer`: what it has taken, and which of the coming writes succeed (all behind the list).
pub record Stream : Type 0 where
  pub written : List Output
  pub coming : List Bool

pub record World : Type 0 where
  pub stdout : Stream
  pub stderr : Stream

-- `io.Reader`: its bytes up to the end, or an error.
pub data Source : Type 0 where
  contents : Bytes → Source
  broken : Source

-- What the process finds: standard input, the files that `os.Open` can open, the build's version.
pub record Environment : Type 0 where
  pub stdin : Source
  pub open_file : Bytes → Option Source
  -- The link-time `version`.
  pub version : Bytes

put : Output → List Bool → Stream → Bool × Stream
put o [] s = (true, record s { written = s.written ++ o ∷ [] })
put o (true ∷ cs) s = (true, record { written = s.written ++ o ∷ []; coming = cs })
put o (false ∷ cs) s = (false, record s { coming = cs })

-- `writef` and `writeLine`; the first component says whether the write succeeded.
unfoldable pub write_to : Output → Stream → Bool × Stream
unfolding put
write_to o s = put o s.coming s

abbrev pub W : Type 0 → Type 0
W A = World → A × World

unfoldable pub write_stdout : Output → W Bool
unfolding write_to
write_stdout o w = let r = write_to o w.stdout in (r.0, record w { stdout = r.1 })

unfoldable pub write_stderr : Output → W Bool
unfolding write_to
write_stderr o w = let r = write_to o w.stderr in (r.0, record w { stderr = r.1 })

-- `writeClassifiedError`: every error that reaches it is a `*jcserr.Error`.
unfoldable pub write_classified_error : Error → W ℕ
write_classified_error e w =
    let r = write_stderr (report e) w in
    (if r.0 then exit_code (class e) else exit_code internal_io, r.1)

-- Lines one by one, up to the first that cannot be written.
unfoldable pub write_lines : (Output → W Bool) → List Bytes → W Bool
write_lines write [] w = (true, w)
write_lines write (l ∷ ls) w =
    let r = write (line l) w in
    let more = write_lines write ls r.1 in if r.0 then more else (false, r.1)

abbrev canonicalize_help : List Bytes
canonicalize_help =
    codes "usage: jcs-canon canonicalize [--quiet] [file|-]"
    ∷ codes "  Read JSON from file (or stdin), emit canonical bytes to stdout."
    ∷ codes "  --quiet   Accepted for command symmetry; canonicalize is silent on success"
    ∷ []

abbrev verify_help : List Bytes
verify_help =
    codes "usage: jcs-canon verify [--quiet] [file|-]"
    ∷ codes "  Parse, canonicalize, and compare bytes to verify canonical form."
    ∷ codes "  --quiet  Suppress success messages"
    ∷ []

abbrev global_help : List Bytes
global_help =
    codes "usage: jcs-canon <canonicalize|verify> [options] [file|-]"
    ∷ codes "       jcs-canon --help"
    ∷ codes "       jcs-canon --version"
    ∷ codes "commands: canonicalize, verify"
    ∷ codes "flags: --help, -h, --version"
    ∷ []

-- A write that has failed ends the command with an I/O error.
unfoldable pub or_io_error : Bool × World → ℕ → ℕ × World
or_io_error r code =
    if r.0 then (code, r.1) else write_classified_error (new internal_io minus_one) r.1

pub record Flags : Type 0 where
  pub quiet : Bool
  pub help : Bool

abbrev is_arg : Bytes → Bytes → Bool
is_arg a b = equal a b

abbrev has_dash : Bytes → Bool
has_dash [] = false
has_dash (b ∷ r) = b == b'-'

-- `parseFlags`
unfoldable pub parse_flags : List Bytes → Flags → List Bytes → Result (Flags × List Bytes)
parse_flags [] f positional = ok (f, positional)
parse_flags (a ∷ as') f positional =
    let more_quiet = parse_flags as' (record f { quiet = true }) positional in
    let more_help = parse_flags as' (record f { help = true }) positional in
    let more_input = parse_flags as' f (positional ++ a ∷ []) in
    if is_arg a (codes "--quiet") || is_arg a (codes "-q")
    then more_quiet
    else if is_arg a (codes "--help") || is_arg a (codes "-h")
    then more_help
    else if is_arg a (codes "-")
    then more_input
    else if has_dash a
    then fail cli_usage minus_one
    else more_input

abbrev pub no_flags : Flags
no_flags = record { quiet = false; help = false }

-- `ensureSingleInput`
unfoldable pub ensure_single_input : List Bytes → Result (Unit {0})
ensure_single_input positional = reject_if (ltb 1 (length positional)) (new cli_usage minus_one)

-- `readBounded`: at most one byte more than the limit is read.
unfoldable pub read_bounded : Source → ℕ → Result Bytes
read_bounded broken max_size = fail internal_io minus_one
read_bounded (contents s) max_size =
    let input = take (max_size + 1) s in
    if ltb max_size (length input) then fail bound_exceeded (pos 0) else ok input

-- `readInput` wraps what `readBounded` reports for a file, but for an exceeded bound.
read_error : Error → Error
read_error (new bound_exceeded o) = new bound_exceeded o
read_error (wrap bound_exceeded o e) = wrap bound_exceeded o e
read_error e = wrap cli_usage minus_one e

for_file : Result Bytes → Result Bytes
unfolding read_error
for_file (ok s) = ok s
for_file (err e) = err (read_error e)
for_file out_of_fuel = out_of_fuel

-- `readInput`
unfoldable pub read_input : Environment → List Bytes → ℕ → Result Bytes
unfolding for_file
read_input env [] max_size = read_bounded env.stdin max_size
read_input env (p ∷ _) max_size =
    if is_arg p (codes "-") then read_bounded env.stdin max_size else elim (env.open_file p) [
      | none ↦ fail cli_usage minus_one
      | some source ↦ for_file (read_bounded source max_size)
    ]

-- `if err != nil { return writeClassifiedError(stderr, err) }`; a run never ends without fuel.
unfoldable pub report_or {ℓ} : {A : Type ℓ} → Result A → (A → W ℕ) → W ℕ
report_or (ok a) k w = k a w
report_or (err e) k w = write_classified_error e w
report_or out_of_fuel k w = (exit_code internal_error, w)

-- Where `cmdCanonicalize` gets its output.
unfoldable pub canonical_input : Environment → List Bytes → Result Bytes
canonical_input env positional = do
  ensure_single_input positional
  input ← read_input env positional default_max_input_size
  canonicalize input

-- `cmdCanonicalize`
unfoldable pub cmd_canonicalize : Environment → List Bytes → W ℕ
cmd_canonicalize env args = report_or (parse_flags args no_flags []) λ (fl, positional) w.
    if fl.help
    then or_io_error (write_lines write_stdout canonicalize_help w) 0
    else report_or (canonical_input env positional)
        (λ out v. or_io_error (write_stdout (raw out) v) 0) w

-- `parseCanonicalFromInput`: the input and its canonical form.
unfoldable pub parse_canonical_from_input : Environment → List Bytes → Result (Bytes × Bytes)
parse_canonical_from_input env positional = do
  ensure_single_input positional
  input ← read_input env positional default_max_input_size
  parsed ← parse input
  canonical ← serialize (some parsed)
  ok (input, canonical)

-- `cmdVerify` behind its input.
unfoldable pub compare_canonical : Bool → Bytes × Bytes → W ℕ
compare_canonical quiet r w =
    if not (equal r.0 r.1)
    then write_classified_error (new not_canonical minus_one) w
    else if quiet
    then (0, w)
    else or_io_error (write_stderr (line (codes "ok")) w) 0

-- `cmdVerify`
unfoldable pub cmd_verify : Environment → List Bytes → W ℕ
cmd_verify env args = report_or (parse_flags args no_flags []) λ (fl, positional) w.
    if fl.help
    then or_io_error (write_lines write_stdout verify_help w) 0
    else report_or (parse_canonical_from_input env positional) (compare_canonical fl.quiet) w

-- A usage error of `run`: the report, then the help on stderr.
unfoldable pub usage_error : W ℕ
usage_error w =
    let r = write_classified_error (new cli_usage minus_one) w in
    or_io_error (write_lines write_stderr global_help r.1) r.0

-- `run`
unfoldable pub run : Environment → List Bytes → W ℕ
run env [] w = usage_error w
run env (a ∷ args) w =
    if is_arg a (codes "--help") || is_arg a (codes "-h")
    then or_io_error (write_lines write_stdout global_help w) 0
    else if is_arg a (codes "--version")
    then or_io_error (write_lines write_stdout ((codes "jcs-canon " ++ env.version) ∷ []) w) 0
    else if is_arg a (codes "canonicalize")
    then cmd_canonicalize env args w
    else if is_arg a (codes "verify")
    then cmd_verify env args w
    else usage_error w
