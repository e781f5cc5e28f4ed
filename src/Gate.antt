-- ===== src/Gate.antt =====
-- cmd/jcs-gate/main.go: the gates of the repository, one behind the other. Running a command belongs to
-- the operating system, and may write to the streams.
pub mod Steps
use jcs_schubfach.Text.Decimal.{decimal}
use jcs_schubfach.Prelude.{
  ℕ, ◌+◌, Bool, ◌||◌, List, [], ◌∷◌, ◌++◌, if◌then◌else◌, Bytes, codes, equal, length,
}
use jcs_schubfach.Cli.{World, Output, W, line, write_stdout, write_stderr, write_lines}

-- `gateStep`
pub record GateStep : Type 0 where
  pub label : Bytes
  pub args : List Bytes

-- `commandRunner`: the arguments of the command `go`; the result says whether it has succeeded.
abbrev pub CommandRunner : Type 0
CommandRunner = List Bytes → W Bool

abbrev step : Bytes → List Bytes → GateStep
step label args = record { label = label; args = args }

-- `requiredGateSteps`
abbrev pub required_gate_steps : List GateStep
required_gate_steps =
    step (codes "go vet") (codes "vet" ∷ codes "./..." ∷ [])
    ∷ step (codes "golangci-lint") (
        codes "run"
        ∷ codes "github.com/golangci/golangci-lint/cmd/golangci-lint@v1.64.8"
        ∷ codes "run"
        ∷ codes "--config=golangci.yml"
        ∷ [])
    ∷ step (codes "unit tests")
        (codes "test" ∷ codes "./..." ∷ codes "-count=1" ∷ codes "-timeout=20m" ∷ [])
    ∷ step (codes "race tests") (
        codes "test" ∷ codes "./..." ∷ codes "-race" ∷ codes "-count=1" ∷ codes "-timeout=25m" ∷ [])
    ∷ step (codes "conformance") (
        codes "test"
        ∷ codes "./conformance"
        ∷ codes "-count=1"
        ∷ codes "-timeout=10m"
        ∷ codes "-v"
        ∷ [])
    ∷ step (codes "offline evidence gate") (
        codes "test"
        ∷ codes "./offline/conformance"
        ∷ codes "-run"
        ∷ codes "TestOfflineReplayEvidenceReleaseGate"
        ∷ codes "-count=1"
        ∷ codes "-v"
        ∷ [])
    ∷ []

abbrev usage : List Bytes
usage =
    codes "usage: go run ./cmd/jcs-gate [--help]"
    ∷ codes "runs: vet, golangci-lint, tests, race, conformance, offline evidence gate"
    ∷ codes "offline gate uses current JCS_OFFLINE_* env vars (and may skip if unset)"
    ∷ []

-- The line that announces the step `i`.
abbrev pub step_line : ℕ → GateStep → Output
step_line i s = line (
    codes "["
    ++ (decimal i
        ++ (codes "/" ++ (decimal (length required_gate_steps) ++ (codes "] " ++ s.label)))))

-- A write behind which the program ends with `code`, or with 1 if the write fails.
abbrev end_with : ℕ → Bool × World → ℕ × World
end_with code r = (if r.0 then code else 1, r.1)

abbrev pub all_passed : Output
all_passed = line (codes "all gates passed")

-- The loop of `run` from step `i` on, and what follows it.
unfoldable pub run_steps : CommandRunner → ℕ → List GateStep → W ℕ
run_steps runner i [] w = end_with 0 (write_stdout all_passed w)
run_steps runner i (s ∷ ss) w =
    let said = write_stdout (step_line i s) w in
    let ran = runner s.args said.1 in
    let later = run_steps runner (i + 1) ss ran.1 in
    if said.0
    then (if ran.0 then later else (1, (write_stderr (line (codes "gate failed: %s: %v")) ran.1).1))
    else (1, said.1)

-- `run` of cmd/jcs-gate
unfoldable pub run_gate : List Bytes → CommandRunner → W ℕ
run_gate [] runner w = run_steps runner 1 required_gate_steps w
run_gate (a ∷ args) runner w =
    if equal a (codes "--help") || equal a (codes "-h")
    then end_with 0 (write_lines write_stdout usage w)
    else (let said = write_stderr (line (codes "error: unknown argument %q")) w in
        if said.0 then end_with 2 (write_lines write_stderr usage said.1) else (1, said.1))
