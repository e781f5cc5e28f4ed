-- ===== src/Worker/Vectors.antt =====
-- cmd/jcs-offline-worker/main.go: the vectors, their results, and the records that are digested.
-- Reading a file and starting the canonicalizer belong to the operating system, decoding a line to
-- encoding/json.
use jcs_schubfach.Text.Decimal.{itoa}
use jcs_schubfach.Prelude.{
  ℕ, ◌+◌, ◌==◌, Bool, true, false, not, ◌||◌, Option, none, some, List, [], ◌∷◌, ◌++◌,
  if◌then◌else◌, Bytes, codes, equal,
}
use jcs_schubfach.Prelude.Int.{ℤ, pos, eq_ℤ}
use jcs_schubfach.Replay.Config.{Env, is_empty}
use jcs_schubfach.Replay.Outcome.{Outcome, done, failed, fail_if, Check, run_checks}
use jcs_schubfach.Replay.Run.{Action, lift, ◌>>=◌, ◌>>◌}
use jcs_schubfach.Text.{trim_space, join, has_prefix, contains, sort_strings}

-- `vectorCase`
pub record VectorCase : Type 0 where
  pub id : Bytes
  pub mode : Bytes
  pub args : List Bytes
  pub input : Bytes
  pub want_stdout : Option Bytes
  pub want_stderr : Option Bytes
  pub want_stderr_contains : Option Bytes
  pub want_exit : ℤ

-- `cliResult`
pub record CliResult : Type 0 where
  pub exit_code : ℤ
  pub stdout : Bytes
  pub stderr : Bytes

-- The buffers of the four accumulators.
pub record Digests : Type 0 where
  pub canonical : Bytes
  pub verify : Bytes
  pub class : Bytes
  pub exit : Bytes

-- How `cmd.Run` ends: without an error, with an exit code that is not 0, or not at all; with what has
-- been written to the two streams.
pub data Execution : Type 0 where
  succeeded : Bytes → Bytes → Execution
  exited : ℤ → Bytes → Bytes → Execution
  not_run : Execution

-- What the worker finds around it: the lines of a vector file and whether the scan of it has failed,
-- the decoding of a line, and the execution of the binary with arguments, an input and variables over
-- those of the worker.
pub record Host (W : Type 0) : Type 0 where
  pub lines : Bytes → Outcome (List Bytes × Bool)
  pub decode : Bytes → Outcome VectorCase
  pub execute : List Bytes → Bytes → Env → W → Execution × W

-- The result of `runCLI`.
abbrev pub cli_result : Execution → Outcome CliResult
cli_result (succeeded out err) = done (record { exit_code = pos 0; stdout = out; stderr = err })
cli_result (exited code out err) = done (record { exit_code = code; stdout = out; stderr = err })
cli_result not_run = failed (codes "run %s %q: %w")

-- `runCLI`
unfoldable pub run_cli : {W : Type 0} → Host W → List Bytes → Bytes → Env → Action W CliResult
run_cli host args stdin overrides w =
    let r = host.execute args stdin overrides w in (cli_result r.0, r.1)

-- `digestAccumulator.Add`
abbrev pub record_line : List Bytes → Bytes
record_line parts = join (0x1F ∷ []) parts ++ b'\n' ∷ []

abbrev pub failure_classes : List Bytes
failure_classes =
    codes "INVALID_UTF8"
    ∷ codes "INVALID_GRAMMAR"
    ∷ codes "DUPLICATE_KEY"
    ∷ codes "LONE_SURROGATE"
    ∷ codes "NONCHARACTER"
    ∷ codes "NUMBER_OVERFLOW"
    ∷ codes "NUMBER_NEGZERO"
    ∷ codes "NUMBER_UNDERFLOW"
    ∷ codes "BOUND_EXCEEDED"
    ∷ codes "NOT_CANONICAL"
    ∷ codes "CLI_USAGE"
    ∷ codes "INTERNAL_IO"
    ∷ codes "INTERNAL_ERROR"
    ∷ []

-- The loop of `extractFailureClass`.
unfoldable pub first_contained : Bytes → List Bytes → Bytes
first_contained text [] = codes "UNKNOWN"
first_contained text (c ∷ cs) = if contains text c then c else first_contained text cs

-- `extractFailureClass`
abbrev pub extract_failure_class : Bytes → Bytes
extract_failure_class stderr = first_contained stderr failure_classes

-- `vectorArgs`
unfoldable pub vector_args : VectorCase → Outcome (List Bytes)
vector_args v =
    if not (is_empty v.args)
    then done v.args
    else if is_empty (trim_space v.mode)
    then failed (codes "vector %s:%d id=%s missing mode and args")
    else done (v.mode ∷ codes "-" ∷ [])

-- `want != nil && test(*want)`
abbrev unmet : Option Bytes → (Bytes → Bool) → Bool
unmet none test = false
unmet (some want) test = test want

abbrev pub result_checks : VectorCase → CliResult → List Check
result_checks v res =
    (not (eq_ℤ res.exit_code v.want_exit), codes "vector %s:%d id=%s exit mismatch got=%d want=%d")
    ∷ (
      unmet v.want_stdout (λ want. not (equal res.stdout want)),
      codes "vector %s:%d id=%s stdout mismatch",
    )
    ∷ (
      unmet v.want_stderr (λ want. not (equal res.stderr want)),
      codes "vector %s:%d id=%s stderr mismatch",
    )
    ∷ (
      unmet v.want_stderr_contains (λ want. not (contains res.stderr want)),
      codes "vector %s:%d id=%s stderr missing %q",
    )
    ∷ []

-- `assertVectorResult`
abbrev pub assert_vector_result : VectorCase → CliResult → Outcome (Unit {0})
assert_vector_result v res = run_checks (result_checks v res)

-- `classToken`
abbrev pub class_token : CliResult → Bytes
class_token res =
    if not (eq_ℤ res.exit_code (pos 0)) then extract_failure_class res.stderr else codes "OK"

-- `recordDigests`
unfoldable pub record_digests : Bytes → Bytes → CliResult → Digests → Digests
record_digests id mode res d =
    let exit_str = itoa res.exit_code in
    record {
      canonical =
          if equal mode (codes "canonicalize")
          then d.canonical ++ record_line (id ∷ res.stdout ∷ [])
          else d.canonical;
      verify =
          if equal mode (codes "verify")
          then d.verify ++ record_line (id ∷ exit_str ∷ res.stdout ∷ res.stderr ∷ [])
          else d.verify;
      class = d.class ++ record_line (id ∷ class_token res ∷ []);
      exit = d.exit ++ record_line (id ∷ exit_str ∷ []);
    }

-- `args[0]`, of arguments that are not empty.
abbrev pub first_arg : List Bytes → Bytes
first_arg [] = []
first_arg (a ∷ _) = a

-- A line that holds no vector.
abbrev pub is_skipped : Bytes → Bool
is_skipped line = is_empty line || has_prefix (codes "#") line

module _ {W : Type 0} (host : Host W) where
  -- `processVectorLine`
  unfoldable pub process_vector_line : Bytes → Digests → Action W Digests
  process_vector_line line d = do
    v ← lift (host.decode line)
    args ← lift (vector_args v)
    res ← run_cli host args v.input []
    lift (assert_vector_result v res)
    lift (done (record_digests v.id (first_arg args) res d))

  -- The loop of `runVectorFile`; it counts the vectors executed.
  unfoldable pub run_lines : List Bytes → Digests → Action W (Digests × ℕ)
  run_lines [] d = lift (done (d, 0))
  run_lines (l ∷ ls) d = elim (is_skipped (trim_space l)) [
    | true ↦ run_lines ls d
    | false ↦ (do
      d' ← process_vector_line (trim_space l) d
      r ← run_lines ls d'
      lift (done (r.0, r.1 + 1)))
  ]

  -- `runVectorFile`
  unfoldable pub run_vector_file : Bytes → Digests → Action W (Digests × ℕ)
  run_vector_file rel d = do
    file ← lift (host.lines rel)
    r ← run_lines file.0 d
    lift (fail_if file.1 (codes "scan vector %s: %w"))
    lift (done r)

  -- The loop of `runVectors`.
  unfoldable pub run_files : List Bytes → Digests → Action W (Digests × ℕ)
  run_files [] d = lift (done (d, 0))
  run_files (rel ∷ rels) d = do
    r ← run_vector_file rel d
    more ← run_files rels r.0
    lift (done (more.0, r.1 + more.1))

  -- `runVectors`, of the manifest's vector files.
  unfoldable pub run_vectors : List Bytes → Digests → Action W (Digests × ℕ)
  run_vectors files d = do
    r ← run_files (sort_strings files) d
    lift (fail_if (r.1 == 0) (codes "no vector cases executed"))
    lift (done r)

  -- `checkEnvironmentIndependence`
  unfoldable pub check_environment_independence : Action W (Unit {0})
  check_environment_independence = do
    let args = codes "canonicalize" ∷ codes "-" ∷ []
    let input = codes "{\"b\":1,\"a\":2}"
    base ← run_cli host args input []
    variant ←
        run_cli host args input
          ((codes "LC_ALL", codes "C") ∷ (codes "LANG", codes "C") ∷ (codes "TZ", codes "UTC") ∷ [])
    lift (
        fail_if
          (not (eq_ℤ base.exit_code variant.exit_code)
            || (not (equal base.stdout variant.stdout) || not (equal base.stderr variant.stderr)))
          (codes "output drift under env variation"))
