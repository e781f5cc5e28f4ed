-- ===== src/Tests/Offline.antt =====
-- The offline replay library and the gate command on concrete inputs.
use jcs_schubfach.Prelude.{
  ℕ, ◌≡◌, ◌↔◌, ◌⊎◌, refl, true, false, some, List, [], ◌∷◌, Bytes, codes, equal, All, if◌then◌else◌,
}
use jcs_schubfach.Prelude.Int.{pos}
use jcs_schubfach.Cli.{World}
use jcs_schubfach.Gate.{CommandRunner, required_gate_steps, run_gate}
use jcs_schubfach.Gate.Steps.{SucceedsFrom, run_gate_iff}
use jcs_schubfach.Jcs.Keys.{compare_units}
use jcs_schubfach.Text.Decimal.{digits_before, decimal}
use jcs_schubfach.Replay.Adapter.{command_env}
use jcs_schubfach.Replay.Adapter.Variables.{lookup_env, SetsVariables, command_env-SetsVariables}
use jcs_schubfach.Replay.Config.{
  NodeSpec, Matrix, Profile, node_ids, validate_nodes, any_node, validate_matrix, validate_profile,
  select_nodes, required_node_ids, planned_nodes, required_replay_count,
}
use jcs_schubfach.Replay.Config.Required.{IsSelection, wanted, required_node_ids-cases}
use jcs_schubfach.Replay.Config.Valid.{IsMatrix, validate_matrix_iff}
use jcs_schubfach.Replay.Evidence.{
  NodeRunEvidence, EvidenceBundle, validate_digests, matrix_by_id, validate_run, validate_runs,
  runs_of, check_drift, seen_replay, check_indices, check_nodes, check_aggregates,
  validate_evidence_bundle,
}
use jcs_schubfach.Replay.Evidence.Attested.{IsAttested, validate_evidence_bundle-IsAttested}
use jcs_schubfach.Replay.Outcome.{Outcome, done, failed, fail_if, run_checks}
use jcs_schubfach.Replay.Run.{
  RunOptions, set_env, set_all, with_global_env, empty_bundle, sort_runs, run_expectations,
  seal_sorted, seal_bundle, replay_once, replay_node, replay_nodes, in_temp, run_planned,
  run_matrix,
}
use jcs_schubfach.Replay.Run.Bundle.{IsRunTrace, run_matrix-IsRunTrace}
use jcs_schubfach.Replay.Run.Protocol.{
  Event, prepared, replayed, cleaned, Behaviour, supplied, surroundings,
}
use jcs_schubfach.Sort.{insert_by, sort_by}
use jcs_schubfach.Tests.Runs.{runs_text}
use jcs_schubfach.Text.{
  all_space, trim_left, trim_right, has_blank, all_hex, join, has_prefix, has, sort_strings,
}

unfoldable pub runs_evidence : Unit {0}
unfolding runs_text fail_if run_checks validate_digests matrix_by_id validate_run validate_runs
    runs_of check_drift seen_replay check_indices check_nodes check_aggregates
    validate_evidence_bundle validate_nodes any_node validate_matrix validate_profile select_nodes
    required_node_ids planned_nodes required_replay_count all_space trim_left trim_right has_blank
    all_hex join has_prefix has sort_strings insert_by sort_by compare_units equal
runs_evidence = tt

unfoldable pub runs_replays : Unit {0}
unfolding runs_evidence set_env set_all with_global_env sort_runs seal_sorted seal_bundle
    replay_once replay_node replay_nodes in_temp run_planned run_matrix
runs_replays = tt

abbrev pub node : Bytes → Bytes → Bytes → NodeSpec
node id mode kind = record {
  id = id;
  mode = mode;
  distro = codes "debian";
  kernel_family = codes "linux";
  replays = pos 0;
  runner = record {
    kind = kind;
    prepare = [];
    replay = codes "run.sh" ∷ [];
    cleanup = codes "clean.sh" ∷ [];
    env = (codes "JCS_NODE_ID", codes "other") ∷ (codes "TZ", codes "UTC") ∷ [];
  };
}

abbrev pub vm_node : NodeSpec
vm_node = node (codes "vm-1") (codes "vm") (codes "libvirt-vm")

abbrev pub container_node : NodeSpec
container_node = node (codes "box-1") (codes "container") (codes "container-exec")

abbrev pub two_nodes : Matrix
two_nodes = record {
  version = codes "v1";
  architecture = codes "x86_64";
  nodes = vm_node ∷ container_node ∷ [];
}

abbrev pub one_replay : Profile
one_replay = record {
  version = codes "v1";
  name = codes "release";
  required_nodes = [];
  required_suites = codes "vectors" ∷ codes "bounds" ∷ [];
  min_cold_replays = pos 1;
  hard_release_gate = true;
  evidence_required = true;
}

abbrev pub some_digest : Bytes
some_digest = codes "00112233445566778899aabbccddeeff00112233445566778899AABBCCDDEEFF"

abbrev pub some_commit : Bytes
some_commit = codes "00112233445566778899aabbccddeeff00112233"

abbrev pub run_at : NodeSpec → NodeRunEvidence
run_at n = record {
  node_id = n.id;
  mode = n.mode;
  distro = n.distro;
  kernel_family = n.kernel_family;
  replay_index = pos 1;
  session_id = codes "s";
  started_at_utc = codes "1";
  completed_at_utc = codes "2";
  case_count = pos 7;
  passed = true;
  canonical_sha256 = some_digest;
  verify_sha256 = some_digest;
  failure_class_sha256 = some_digest;
  exit_code_sha256 = some_digest;
}

abbrev pub options : RunOptions
options = record {
  bundle_path = codes "/b.tgz";
  bundle_sha256 = some_digest;
  control_binary_sha256 = some_digest;
  matrix_sha256 = some_digest;
  profile_sha256 = some_digest;
  source_git_commit = some_commit;
  source_git_tag = codes " v1.0 ";
  orchestrator = [];
  global_env = [];
}

abbrev pub sealed : EvidenceBundle
sealed = record (empty_bundle (codes "now") two_nodes one_replay options) {
  node_replays = run_at container_node ∷ run_at vm_node ∷ [];
  aggregate_canonical = some_digest;
  aggregate_verify = some_digest;
  aggregate_class = some_digest;
  aggregate_exit_code = some_digest;
}

two_nodes_valid : validate_matrix (some two_nodes) ≡ done tt
unfolding runs_evidence
two_nodes_valid = refl

two_nodes_selected :
    required_node_ids two_nodes one_replay ≡ done (codes "box-1" ∷ codes "vm-1" ∷ [])
unfolding runs_evidence
two_nodes_selected = refl

pub sealed_accepted :
    validate_evidence_bundle
      (some sealed)
      (some two_nodes)
      (some one_replay)
      (run_expectations two_nodes options)
    ≡ done tt
unfolding runs_evidence
sealed_accepted = refl

-- Suites are compared as one text each, so a comma in a name is taken for two names.
suites_joined :
    validate_evidence_bundle
      (some (record sealed { required_suites = codes "bounds,vectors" ∷ [] }))
      (some two_nodes)
      (some one_replay)
      (run_expectations two_nodes options)
    ≡ done tt
unfolding runs_evidence
suites_joined = refl

missing_replay_rejected :
    validate_evidence_bundle
      (some (record sealed { node_replays = run_at vm_node ∷ [] }))
      (some two_nodes)
      (some one_replay)
      (run_expectations two_nodes options)
    ≡ failed (codes "node %s has %d replays, want at least %d")
unfolding runs_evidence
missing_replay_rejected = refl

-- All calls succeed, and the evidence of a path is that of the node the path is named for.
abbrev willing : Behaviour
willing = record {
  verdict = λ e es. done tt;
  temp = λ es. done (codes "/tmp/r");
  read = λ path es. done (run_at (if equal path (codes "vm-1") then vm_node else container_node));
  supply = λ n. done tt;
}

abbrev path_of : Bytes → Bytes → ℕ → Bytes
path_of root id i = id

abbrev both_rounds : List Event
both_rounds =
    prepared container_node 1
    ∷ replayed container_node 1
    ∷ cleaned container_node 1
    ∷ prepared vm_node 1
    ∷ replayed vm_node 1
    ∷ cleaned vm_node 1
    ∷ []

-- As before, but the replays fail.
abbrev refusing : Behaviour
refusing = record willing {
  verdict = λ e es. elim e [
    | prepared n i ↦ done tt
    | replayed n i ↦ failed (codes "no")
    | cleaned n i ↦ done tt
  ];
}

-- A replay that fails is cleaned up, and ends the run.
failing_replay :
    ◌≡◌ {A = Outcome EvidenceBundle × List Event}
      (run_matrix
        (surroundings refusing (codes "now") path_of)
        (some two_nodes)
        (some one_replay)
        (some (supplied refusing))
        options
        [])
      (
        failed (codes "no"),
        prepared container_node 1 ∷ replayed container_node 1 ∷ cleaned container_node 1 ∷ [],
      )
unfolding runs_replays
failing_replay = refl

validate_matrix_iff_example : (validate_matrix (some two_nodes) ≡ done tt) ↔ IsMatrix two_nodes
validate_matrix_iff_example = validate_matrix_iff two_nodes

required_node_ids-cases_example :
    ((ids : List Bytes) × (required_node_ids two_nodes one_replay ≡ done ids)
      × IsSelection two_nodes one_replay ids)
    ⊎ ((text : Bytes) × (required_node_ids two_nodes one_replay ≡ failed text)
        × ¬ All (λ id. has id (node_ids two_nodes) ≡ true) (wanted two_nodes one_replay))
required_node_ids-cases_example = required_node_ids-cases two_nodes one_replay

validate_evidence_bundle-IsAttested_example :
    IsAttested sealed two_nodes one_replay (run_expectations two_nodes options)
validate_evidence_bundle-IsAttested_example =
    validate_evidence_bundle-IsAttested sealed two_nodes one_replay
      (run_expectations two_nodes options) sealed_accepted

run_matrix-IsRunTrace_example : IsRunTrace two_nodes one_replay options (
    run_matrix
      (surroundings willing (codes "now") path_of)
      (some two_nodes)
      (some one_replay)
      (some (supplied willing))
      options
      [])
run_matrix-IsRunTrace_example =
    run_matrix-IsRunTrace willing (codes "now") path_of two_nodes one_replay options

command_env-SetsVariables_example :
    SetsVariables vm_node (codes "/b.tgz") [] 10 (command_env vm_node (codes "/b.tgz") [] 10)
command_env-SetsVariables_example = command_env-SetsVariables vm_node (codes "/b.tgz") [] 10

tenth_replay :
    lookup_env (codes "JCS_REPLAY_INDEX") (command_env vm_node [] [] 10) ≡ some (codes "10")
unfolding runs_replays command_env lookup_env digits_before decimal
tenth_replay = refl

abbrev working : World
working = record {
  stdout = record { written = []; coming = [] };
  stderr = record { written = []; coming = [] };
}

-- Each command succeeds, but `golangci-lint`.
abbrev lint_fails : CommandRunner
lint_fails args w = elim args [
  | [] ↦ (true, w)
  | a ∷ as' ↦ (if equal a (codes "run") then false else true, w)
]

run_gate_iff_example :
    ((run_gate [] lint_fails working).0 ≡ 0) ↔ SucceedsFrom lint_fails 1 required_gate_steps working
run_gate_iff_example = run_gate_iff lint_fails working
