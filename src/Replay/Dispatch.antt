-- ===== src/Replay/Dispatch.antt =====
-- cmd/jcs-offline-replay/main.go: `run`, which gives the flags to a subcommand. The subcommands are
-- parameters that act on the world.
pub mod Exit
use jcs_schubfach.Prelude.{
  ℕ, ◌+◌, Bool, true, false, ◌||◌, Option, none, some, List, [], ◌∷◌, if◌then◌else◌, Bytes, codes,
  equal, map,
}
use jcs_schubfach.Cli.{World, W, line, write_stdout, write_stderr, write_lines}
use jcs_schubfach.Replay.Config.{Env}
use jcs_schubfach.Replay.Outcome.{Outcome, done, failed}
use jcs_schubfach.Replay.Verify.{bool_true, parse_kv_flags}
use jcs_schubfach.Text.{trim_space}
use jcs_schubfach.Unicode.Utf8.{in_range}
use jcs_schubfach.Worker.Checksums.{get_env}

abbrev pub Subcommand : Type 0
Subcommand = Env → W (Outcome (Unit {0}))

pub record Subcommands : Type 0 where
  pub prepare : Subcommand
  pub run_matrix : Subcommand
  pub preflight : Subcommand
  pub audit_summary : Subcommand
  pub run_suite : Subcommand
  pub cross_arch : Subcommand
  pub verify_evidence : Subcommand
  pub report : Subcommand
  pub inspect_matrix : Subcommand

-- The switch of `dispatchSubcommand`
unfoldable pub find_subcommand : Subcommands → Bytes → Option Subcommand
find_subcommand cs sub =
    if equal sub (codes "prepare")
    then some cs.prepare
    else if equal sub (codes "run")
    then some cs.run_matrix
    else if equal sub (codes "preflight")
    then some cs.preflight
    else if equal sub (codes "audit-summary")
    then some cs.audit_summary
    else if equal sub (codes "run-suite")
    then some cs.run_suite
    else if equal sub (codes "cross-arch")
    then some cs.cross_arch
    else if equal sub (codes "verify-evidence")
    then some cs.verify_evidence
    else if equal sub (codes "report")
    then some cs.report
    else if equal sub (codes "inspect-matrix")
    then some cs.inspect_matrix
    else none

-- `strings.EqualFold(s, "true")`; no other letter folds to one of this word.
abbrev pub is_true_word : Bytes → Bool
is_true_word s = equal (map (λ b. if in_range b'A' b'Z' b then b + 32 else b) s) bool_true

-- `helpRequested`
unfoldable pub help_requested : Env → Bool
help_requested flags =
    is_true_word (trim_space (get_env flags (codes "--help")))
    || is_true_word (trim_space (get_env flags (codes "-h")))

-- `writeUsage`
abbrev pub replay_usage : List Bytes
replay_usage =
    codes
      "usage: jcs-offline-replay <prepare|run|preflight|audit-summary|run-suite|cross-arch|verify-evidence|report|inspect-matrix> [flags]"
    ∷ codes
        "  prepare --matrix <path> --profile <path> --binary <path> --bundle <path> [--worker <path>]"
    ∷ codes
        "  run --matrix <path> --profile <path> --bundle <path> --evidence <path> [--timeout 12h] [--source-git-commit <sha>] [--source-git-tag <tag>]"
    ∷ codes "  preflight --matrix <path> [--strict] [--no-strict]"
    ∷ codes
        "  audit-summary --matrix <path> --profile <path> --evidence <path> [--output-dir <path>]"
    ∷ codes
        "  run-suite --matrix <path> --profile <path> [--output-dir <path>] [--timeout 12h] [--version v0.0.0-dev] [--skip-preflight] [--skip-release-gate]"
    ∷ codes
        "  cross-arch [--x86-matrix <path>] [--x86-profile <path>] [--arm64-matrix <path>] [--arm64-profile <path>] [--local-no-rocky] [--output-dir <path>] [--timeout 12h] [--run-official-vectors] [--run-official-es6-100m]"
    ∷ codes
        "  verify-evidence --matrix <path> --profile <path> --evidence <path> [--bundle <path>] [--control-binary <path>] [--source-git-commit <sha>] [--source-git-tag <tag>]"
    ∷ codes "  report --evidence <path>"
    ∷ codes "  inspect-matrix --matrix <path>"
    ∷ []

-- A write that can fail, as an error.
unfoldable pub written_or : Bool × World → Outcome (Unit {0}) × World
written_or r = (if r.0 then done tt else failed (codes "write stream: %w"), r.1)

-- The default of that switch.
unfoldable pub unknown_subcommand : W (ℕ × Outcome (Unit {0}))
unfolding written_or
unknown_subcommand w =
    let said = write_stderr (line (codes "error: unknown subcommand %q")) w in
    let listed = written_or (write_lines write_stderr replay_usage said.1) in
    if said.0 then ((2, listed.0), listed.1) else ((2, failed (codes "write stream: %w")), said.1)

-- `dispatchSubcommand`
unfoldable pub dispatch_subcommand : Subcommands → Bytes → Env → W (ℕ × Outcome (Unit {0}))
dispatch_subcommand cs sub flags w =
    if help_requested flags
    then (let listed = written_or (write_lines write_stdout replay_usage w) in
        ((0, listed.0), listed.1))
    else elim (find_subcommand cs sub) [
      | some cmd ↦ (let ran = cmd flags w in ((0, ran.0), ran.1))
      | none ↦ unknown_subcommand w
    ]

-- `writeErrorLine`
abbrev pub exit_with_error : W ℕ
exit_with_error w = (2, (write_stderr (line (codes "error: %v")) w).1)

-- The code of `dispatchSubcommand`, or the error that it returns.
unfoldable pub code_of : (ℕ × Outcome (Unit {0})) × World → ℕ × World
code_of ((code, done a), w) = (code, w)
code_of ((code, failed text), w) = exit_with_error w

abbrev pub usage_code : Bool × World → ℕ × World
usage_code r = (if r.0 then 0 else 2, r.1)

-- `run`
unfoldable pub run_subcommand : Subcommands → List Bytes → W ℕ
run_subcommand cs [] w = usage_code (write_lines write_stdout replay_usage w)
run_subcommand cs (sub ∷ args) w =
    if equal sub (codes "--help") || equal sub (codes "-h")
    then usage_code (write_lines write_stdout replay_usage w)
    else elim (parse_kv_flags [] args) [
      | failed text ↦ exit_with_error w
      | done flags ↦ code_of (dispatch_subcommand cs sub flags w)
    ]
