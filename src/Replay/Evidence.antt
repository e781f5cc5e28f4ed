-- ===== src/Replay/Evidence.antt =====
-- offline/replay/evidence.go: evidence bundles and their validation.
-- Reading and writing the JSON documents belongs to encoding/json and os.
pub mod Runs
pub mod Drift
pub mod Attested
use jcs_schubfach.Prelude.{
  ℕ, zero, suc, ◌+◌, Bool, true, false, not, ◌&&◌, ◌||◌, Option, none, some, List, [], ◌∷◌, ◌++◌,
  ◌==◌, if◌then◌else◌, Bytes, codes, equal, length,
}
use jcs_schubfach.Prelude.Int.{ℤ, pos, pos_part, ltb_ℤ, eq_ℤ}
use jcs_schubfach.Replay.Config.{
  NodeSpec, Matrix, Profile, is_empty, required_node_ids, required_replay_count,
}
use jcs_schubfach.Replay.Outcome.{Outcome, done, failed, fail_if, Check, run_checks, ◌>>=◌, ◌>>◌}
use jcs_schubfach.Text.{trim_space, has_blank, all_hex, join, sort_strings}

-- `EvidenceSchemaVersion`
abbrev pub evidence_schema_version : Bytes
evidence_schema_version = codes "evidence.v1"

-- `NodeRunEvidence`
pub record NodeRunEvidence : Type 0 where
  pub node_id : Bytes
  pub mode : Bytes
  pub distro : Bytes
  pub kernel_family : Bytes
  pub replay_index : ℤ
  pub session_id : Bytes
  pub started_at_utc : Bytes
  pub completed_at_utc : Bytes
  pub case_count : ℤ
  pub passed : Bool
  pub canonical_sha256 : Bytes
  pub verify_sha256 : Bytes
  pub failure_class_sha256 : Bytes
  pub exit_code_sha256 : Bytes

-- `EvidenceBundle`
pub record EvidenceBundle : Type 0 where
  pub schema_version : Bytes
  pub bundle_sha256 : Bytes
  pub control_binary_sha : Bytes
  pub matrix_sha256 : Bytes
  pub profile_sha256 : Bytes
  pub source_git_commit : Bytes
  pub source_git_tag : Bytes
  pub generated_at_utc : Bytes
  pub orchestrator : Bytes
  pub profile_name : Bytes
  pub architecture : Bytes
  pub required_suites : List Bytes
  pub hard_release_gate : Bool
  pub node_replays : List NodeRunEvidence
  pub aggregate_canonical : Bytes
  pub aggregate_verify : Bytes
  pub aggregate_class : Bytes
  pub aggregate_exit_code : Bytes

-- `EvidenceValidationOptions`
pub record EvidenceValidationOptions : Type 0 where
  pub expected_bundle_sha256 : Bytes
  pub expected_control_binary_sha256 : Bytes
  pub expected_matrix_sha256 : Bytes
  pub expected_profile_sha256 : Bytes
  pub expected_architecture : Bytes
  pub expected_source_git_commit : Bytes
  pub expected_source_git_tag : Bytes

-- What `validateSHA256Token` and `validateGitCommitToken` test, for tokens of 64 and of 40 digits.
-- Both lengths are even, so `hex.DecodeString` fails only on a byte that is no digit.
abbrev pub hex_checks : ℕ → Bytes → Bytes → List Check
hex_checks digits text value =
    (not (length (trim_space value) == digits), text)
    ∷ (not (all_hex (trim_space value)), codes "%s must be valid hex: %w")
    ∷ []

abbrev pub validate_sha256_token : Bytes → Outcome (Unit {0})
validate_sha256_token value =
    run_checks (hex_checks 64 (codes "%s must be 64 hex characters") value)

abbrev pub validate_git_commit_token : Bytes → Outcome (Unit {0})
validate_git_commit_token value =
    run_checks (hex_checks 40 (codes "%s must be 40 hex characters") value)

-- `validateGitTagToken`
abbrev pub validate_git_tag_token : Bytes → Outcome (Unit {0})
validate_git_tag_token value = run_checks (
    (is_empty (trim_space value), codes "%s must not be empty")
    ∷ (has_blank (trim_space value), codes "%s must not contain whitespace")
    ∷ [])

-- A loop that validates digests.
unfoldable pub validate_digests : List Bytes → Outcome (Unit {0})
validate_digests [] = done tt
validate_digests (d ∷ ds) = do validate_sha256_token d; validate_digests ds

-- A value against an expectation, where there is one.
abbrev pub differs : Bytes → Bytes → Bool
differs expected value = not (is_empty expected) && not (equal value expected)

-- `expectedArch`
abbrev pub expected_arch : Matrix → EvidenceValidationOptions → Bytes
expected_arch m opts =
    if is_empty (trim_space opts.expected_architecture)
    then m.architecture
    else trim_space opts.expected_architecture

-- The tests of `ValidateEvidenceBundle` before the digests, and those from the architecture to
-- the required nodes.
abbrev pub identity_checks : EvidenceBundle → Profile → List Check
identity_checks e p =
    (not (equal e.schema_version evidence_schema_version), codes "unsupported schema_version %q")
    ∷ (not (equal e.profile_name p.name), codes "profile mismatch: evidence=%q profile=%q")
    ∷ []

abbrev pub binding_checks : EvidenceBundle → Matrix → EvidenceValidationOptions → List Check
binding_checks e m opts =
    (
      not (equal e.architecture (expected_arch m opts)),
      codes "architecture mismatch: evidence=%q expected=%q",
    )
    ∷ (
      differs opts.expected_bundle_sha256 e.bundle_sha256,
      codes "bundle_sha256 mismatch: evidence=%q expected=%q",
    )
    ∷ (
      differs opts.expected_control_binary_sha256 e.control_binary_sha,
      codes "control_binary_sha256 mismatch: evidence=%q expected=%q",
    )
    ∷ (
      differs opts.expected_matrix_sha256 e.matrix_sha256,
      codes "matrix_sha256 mismatch: evidence=%q expected=%q",
    )
    ∷ (
      differs opts.expected_profile_sha256 e.profile_sha256,
      codes "profile_sha256 mismatch: evidence=%q expected=%q",
    )
    ∷ (
      differs (trim_space opts.expected_source_git_commit) e.source_git_commit,
      codes "source_git_commit mismatch: evidence=%q expected=%q",
    )
    ∷ (
      differs (trim_space opts.expected_source_git_tag) e.source_git_tag,
      codes "source_git_tag mismatch: evidence=%q expected=%q",
    )
    ∷ (not e.hard_release_gate, codes "evidence must record hard_release_gate=true")
    ∷ (is_empty e.node_replays, codes "evidence must include node_replays")
    ∷ []

abbrev pub bundle_digests : EvidenceBundle → List Bytes
bundle_digests e =
    e.bundle_sha256 ∷ e.control_binary_sha ∷ e.matrix_sha256 ∷ e.profile_sha256
    ∷ e.aggregate_canonical ∷ e.aggregate_verify ∷ e.aggregate_class ∷ e.aggregate_exit_code ∷ []

-- `matrixByID`: of two nodes with one id the later stays.
unfoldable pub matrix_by_id : Bytes → List NodeSpec → Option NodeSpec
matrix_by_id id [] = none
matrix_by_id id (n ∷ ns) = elim (matrix_by_id id ns) [
  | some later ↦ some later
  | none ↦ if equal id n.id then some n else none
]

abbrev pub run_digests : NodeRunEvidence → List Bytes
run_digests r =
    r.canonical_sha256 ∷ r.verify_sha256 ∷ r.failure_class_sha256 ∷ r.exit_code_sha256 ∷ []

-- The tests on one replay of the node `n`, up to its digests.
abbrev pub run_checks_for : NodeSpec → NodeRunEvidence → List Check
run_checks_for n r =
    (not (equal r.mode n.mode), codes "node %s mode mismatch: got=%q want=%q")
    ∷ (not (equal r.distro n.distro), codes "node %s distro mismatch: got=%q want=%q")
    ∷ (
      not (equal r.kernel_family n.kernel_family),
      codes "node %s kernel_family mismatch: got=%q want=%q",
    )
    ∷ (ltb_ℤ r.replay_index (pos 1), codes "node %s replay_index must be >=1")
    ∷ (ltb_ℤ r.case_count (pos 1), codes "node %s replay %d must have case_count >=1")
    ∷ (not r.passed, codes "node %s replay %d is marked failed")
    ∷ (is_empty (trim_space r.session_id), codes "node %s replay %d missing %s")
    ∷ (is_empty (trim_space r.started_at_utc), codes "node %s replay %d missing %s")
    ∷ (is_empty (trim_space r.completed_at_utc), codes "node %s replay %d missing %s")
    ∷ []

-- The loop over the replays, at one of them.
unfoldable pub validate_run : List NodeSpec → NodeRunEvidence → Outcome (Unit {0})
validate_run nodes r = do
  fail_if (is_empty r.node_id) (codes "node replay has empty node_id")
  elim (matrix_by_id r.node_id nodes) [
    | none ↦ failed (codes "node replay references unknown node_id %q")
    | some n ↦ (do run_checks (run_checks_for n r); validate_digests (run_digests r))
  ]

unfoldable pub validate_runs : List NodeSpec → List NodeRunEvidence → Outcome (Unit {0})
validate_runs nodes [] = done tt
validate_runs nodes (r ∷ rs) = do validate_run nodes r; validate_runs nodes rs

-- `byNode[id]`
unfoldable pub runs_of : Bytes → List NodeRunEvidence → List NodeRunEvidence
runs_of id [] = []
runs_of id (r ∷ rs) = let more = runs_of id rs in if equal r.node_id id then r ∷ more else more

-- The zero value of a node, which a map gives for an id that it does not have.
abbrev pub zero_node : NodeSpec
zero_node = record {
  id = [];
  mode = [];
  distro = [];
  kernel_family = [];
  replays = pos 0;
  runner = record { kind = []; prepare = []; replay = []; cleanup = []; env = [] };
}

abbrev pub node_or_zero : Bytes → List NodeSpec → NodeSpec
node_or_zero id nodes = elim (matrix_by_id id nodes) [ none ↦ zero_node | some n ↦ n ]

-- A replay against the baseline.
abbrev pub drift_checks : NodeRunEvidence → NodeRunEvidence → List Check
drift_checks b r =
    (
      not (equal r.canonical_sha256 b.canonical_sha256),
      codes "canonical digest drift at node %s replay %d",
    )
    ∷ (
      not (equal r.verify_sha256 b.verify_sha256),
      codes "verify digest drift at node %s replay %d",
    )
    ∷ (
      not (equal r.failure_class_sha256 b.failure_class_sha256),
      codes "failure-class digest drift at node %s replay %d",
    )
    ∷ (
      not (equal r.exit_code_sha256 b.exit_code_sha256),
      codes "exit-code digest drift at node %s replay %d",
    )
    ∷ []

-- The loop over the replays of a required node, with the baseline.
unfoldable pub check_drift :
    List NodeRunEvidence → Option NodeRunEvidence → Outcome (Option NodeRunEvidence)
check_drift [] base = done base
check_drift (r ∷ rs) none = check_drift rs (some r)
check_drift (r ∷ rs) (some b) = do run_checks (drift_checks b r); check_drift rs (some b)

-- `seenReplay[i]`
unfoldable pub seen_replay : ℕ → List NodeRunEvidence → Bool
seen_replay i [] = false
seen_replay i (r ∷ rs) = eq_ℤ r.replay_index (pos i) || seen_replay i rs

-- The loop over the indices from `i` on, with `k` of them left.
unfoldable pub check_indices : ℕ → ℕ → List NodeRunEvidence → Outcome (Unit {0})
check_indices zero i rs = done tt
check_indices (suc k) i rs = do
  fail_if (not (seen_replay i rs)) (codes "node %s missing replay index %d")
  check_indices k (i + 1) rs

-- The loop over the required nodes.
unfoldable pub check_nodes :
    EvidenceBundle
    → Matrix
    → Profile
    → List Bytes
    → Option NodeRunEvidence
    → Outcome (Option NodeRunEvidence)
check_nodes e m p [] base = done base
check_nodes e m p (id ∷ ids) base = do
  let runs = runs_of id e.node_replays
  let want = required_replay_count (node_or_zero id m.nodes) p
  fail_if (ltb_ℤ (pos (length runs)) want) (codes "node %s has %d replays, want at least %d")
  base' ← check_drift runs base
  check_indices (pos_part want) 1 runs
  check_nodes e m p ids base'

abbrev pub aggregate_checks : EvidenceBundle → NodeRunEvidence → List Check
aggregate_checks e b =
    (
      not (equal e.aggregate_canonical b.canonical_sha256),
      codes "aggregate canonical digest mismatch",
    )
    ∷ (not (equal e.aggregate_verify b.verify_sha256), codes "aggregate verify digest mismatch")
    ∷ (
      not (equal e.aggregate_class b.failure_class_sha256),
      codes "aggregate failure-class digest mismatch",
    )
    ∷ (
      not (equal e.aggregate_exit_code b.exit_code_sha256),
      codes "aggregate exit-code digest mismatch",
    )
    ∷ []

-- What follows that loop.
unfoldable pub check_aggregates : EvidenceBundle → Option NodeRunEvidence → Outcome (Unit {0})
check_aggregates e none = failed (codes "no baseline replay digest found")
check_aggregates e (some b) = run_checks (aggregate_checks e b)

abbrev pub suite_text : List Bytes → Bytes
suite_text ss = join (codes ",") (sort_strings ss)

-- `ValidateEvidenceBundle`; nil arguments are `none`.
unfoldable pub validate_evidence_bundle :
    Option EvidenceBundle
    → Option Matrix
    → Option Profile
    → EvidenceValidationOptions
    → Outcome (Unit {0})
validate_evidence_bundle none m p opts = failed (codes "evidence bundle is nil")
validate_evidence_bundle (some e) none p opts = failed (codes "matrix and profile are required")
validate_evidence_bundle (some e) (some m) none opts =
    failed (codes "matrix and profile are required")
validate_evidence_bundle (some e) (some m) (some p) opts = do
  run_checks (identity_checks e p)
  validate_digests (bundle_digests e)
  validate_git_commit_token e.source_git_commit
  validate_git_tag_token e.source_git_tag
  run_checks (binding_checks e m opts)
  ids ← required_node_ids m p
  validate_runs m.nodes e.node_replays
  base ← check_nodes e m p ids none
  check_aggregates e base
  fail_if (not (equal (suite_text e.required_suites) (suite_text p.required_suites)))
      (codes "required_suites mismatch")
