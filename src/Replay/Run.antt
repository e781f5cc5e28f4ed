-- ===== src/Replay/Run.antt =====
-- offline/replay/run.go: `RunMatrix`. Adapters, files, the clock and temporary directories belong to
-- the environment; what they do to the world is theirs.
pub mod Protocol
pub mod Bundle
use jcs_schubfach.Prelude.{
  ℕ, zero, suc, ◌+◌, Bool, true, false, ◌&&◌, ◌||◌, Option, none, some, List, [], ◌∷◌, ◌++◌,
  if◌then◌else◌, Bytes, codes, equal,
}
use jcs_schubfach.Prelude.Int.{ℤ, pos, pos_part, ltb_ℤ}
use jcs_schubfach.Jcs.Keys.{compare_units, is_less}
use jcs_schubfach.Replay.Config.{
  Env, RunnerConfig, NodeSpec, Matrix, Profile, is_empty, validate_matrix, validate_profile,
  planned_nodes, required_replay_count,
}
use jcs_schubfach.Replay.Evidence.{
  NodeRunEvidence, EvidenceBundle, EvidenceValidationOptions, evidence_schema_version, node_or_zero,
  validate_evidence_bundle,
}
use jcs_schubfach.Replay.Outcome.{Outcome, done, failed}
use jcs_schubfach.Sort.{sort_by}
use jcs_schubfach.Text.{trim_space}

-- An operation that can fail and acts on the world.
abbrev pub Action : Type 0 → Type 0 → Type 0
Action W A = W → Outcome A × W

infixl 5 ◌>>=◌ ◌>>◌
abbrev pub ◌>>=◌ : {W A B : Type 0} → Action W A → (A → Action W B) → Action W B
◌>>=◌ m f w = let r = m w in elim r.0 [ done a ↦ f a r.1 | failed text ↦ (failed text, r.1) ]

abbrev pub ◌>>◌ : {W B : Type 0} → Action W (Unit {0}) → Action W B → Action W B
m >> n = m >>= λ _. n

abbrev pub lift : {W A : Type 0} → Outcome A → Action W A
lift o w = (o, w)

-- A call whose error is looked at later.
abbrev pub attempt : {W A : Type 0} → Action W A → Action W (Outcome A)
attempt m w = let r = m w in (done r.0, r.1)

-- `NodeAdapter`
pub record NodeAdapter (W : Type 0) : Type 0 where
  pub prepare : NodeSpec → Bytes → ℕ → Action W (Unit {0})
  pub run_replay : NodeSpec → Bytes → Bytes → ℕ → Action W (Unit {0})
  pub cleanup : NodeSpec → ℕ → Action W (Unit {0})

-- `RunOptions`
pub record RunOptions : Type 0 where
  pub bundle_path : Bytes
  pub bundle_sha256 : Bytes
  pub control_binary_sha256 : Bytes
  pub matrix_sha256 : Bytes
  pub profile_sha256 : Bytes
  pub source_git_commit : Bytes
  pub source_git_tag : Bytes
  pub orchestrator : Bytes
  pub global_env : Env

-- What the run finds around it: the time as it is written, `os.MkdirTemp` and `os.RemoveAll`, the
-- evidence path of a node and a replay in a directory, and `LoadNodeRunEvidence` of a path.
pub record Surroundings (W : Type 0) : Type 0 where
  pub now : Bytes
  pub make_temp : Action W Bytes
  pub remove_temp : Bytes → W → W
  pub evidence_path : Bytes → Bytes → ℕ → Bytes
  pub load : Bytes → Action W NodeRunEvidence

-- `m[k] = v`
unfoldable pub set_env : Bytes → Bytes → Env → Env
set_env k v [] = (k, v) ∷ []
set_env k v (e ∷ env) = let rest = set_env k v env in if equal e.0 k then (k, v) ∷ env else e ∷ rest

-- `for k, v := range over { m[k] = v }`
unfoldable pub set_all : Env → Env → Env
unfolding set_env
set_all env [] = env
set_all env (e ∷ over) = set_all (set_env e.0 e.1 env) over

-- The node with the global environment over its own.
unfoldable pub with_global_env : Env → NodeSpec → NodeSpec
unfolding set_all
with_global_env over n =
    if is_empty over
    then n
    else record n { runner = record (n.runner) { env = set_all (set_all [] n.runner.env) over } }

abbrev pub or_default : Bytes → Bytes → Bytes
or_default s default = if is_empty s then default else s

abbrev pub zero_commit : Bytes
zero_commit = codes "0000000000000000000000000000000000000000"

abbrev pub source_commit : RunOptions → Bytes
source_commit opts = or_default (trim_space opts.source_git_commit) zero_commit

abbrev pub source_tag : RunOptions → Bytes
source_tag opts = or_default (trim_space opts.source_git_tag) (codes "untagged")

-- The bundle before the replays.
abbrev pub empty_bundle : Bytes → Matrix → Profile → RunOptions → EvidenceBundle
empty_bundle now m p opts = record {
  schema_version = evidence_schema_version;
  bundle_sha256 = opts.bundle_sha256;
  control_binary_sha = opts.control_binary_sha256;
  matrix_sha256 = opts.matrix_sha256;
  profile_sha256 = opts.profile_sha256;
  source_git_commit = source_commit opts;
  source_git_tag = source_tag opts;
  generated_at_utc = now;
  orchestrator = or_default opts.orchestrator (codes "jcs-offline-replay");
  profile_name = p.name;
  architecture = m.architecture;
  required_suites = p.required_suites;
  hard_release_gate = p.hard_release_gate;
  node_replays = [];
  aggregate_canonical = [];
  aggregate_verify = [];
  aggregate_class = [];
  aggregate_exit_code = [];
}

-- The order of `sort.Slice`, by node and replay.
abbrev pub run_less : NodeRunEvidence → NodeRunEvidence → Bool
run_less a b =
    if equal a.node_id b.node_id
    then ltb_ℤ a.replay_index b.replay_index
    else is_less (compare_units a.node_id b.node_id)

unfoldable pub sort_runs : List NodeRunEvidence → List NodeRunEvidence
unfolding sort_by
sort_runs = sort_by run_less

-- The options of the final validation.
abbrev pub run_expectations : Matrix → RunOptions → EvidenceValidationOptions
run_expectations m opts = record {
  expected_bundle_sha256 = opts.bundle_sha256;
  expected_control_binary_sha256 = opts.control_binary_sha256;
  expected_matrix_sha256 = opts.matrix_sha256;
  expected_profile_sha256 = opts.profile_sha256;
  expected_architecture = m.architecture;
  expected_source_git_commit = source_commit opts;
  expected_source_git_tag = source_tag opts;
}

-- The bundle with its replays, and the digests of the first of them.
abbrev pub with_replays : EvidenceBundle → NodeRunEvidence → List NodeRunEvidence → EvidenceBundle
with_replays e b bs = record e {
  node_replays = b ∷ bs;
  aggregate_canonical = b.canonical_sha256;
  aggregate_verify = b.verify_sha256;
  aggregate_class = b.failure_class_sha256;
  aggregate_exit_code = b.exit_code_sha256;
}

-- A validation, and the value that has been validated.
abbrev pub validated : Outcome (Unit {0}) → EvidenceBundle → Outcome EvidenceBundle
validated (done _) e = done e
validated (failed text) e = failed text

-- Behind the sort.
unfoldable pub seal_sorted :
    Matrix → Profile → RunOptions → EvidenceBundle → List NodeRunEvidence → Outcome EvidenceBundle
seal_sorted m p opts e [] = failed (codes "matrix execution produced no replay evidence")
seal_sorted m p opts e (b ∷ bs) =
    let sealed = with_replays e b bs in
    validated (validate_evidence_bundle (some sealed) (some m) (some p) (run_expectations m opts))
      sealed

-- From the sort on.
unfoldable pub seal_bundle :
    Matrix → Profile → RunOptions → EvidenceBundle → List NodeRunEvidence → Outcome EvidenceBundle
unfolding sort_runs seal_sorted
seal_bundle m p opts e rs = seal_sorted m p opts e (sort_runs rs)

module _ {W : Type 0} (around : Surroundings W) (root bundle_path : Bytes) where
  -- One replay: the cleanup is called also where the run has failed.
  unfoldable pub replay_once : NodeAdapter W → NodeSpec → ℕ → Action W NodeRunEvidence
  replay_once adapter node i = do
    adapter.prepare node bundle_path i
    let path = around.evidence_path root node.id i
    run ← attempt (adapter.run_replay node bundle_path path i)
    clean ← attempt (adapter.cleanup node i)
    lift run
    lift clean
    around.load path

  -- The replays of one node from `i` on, with `k` of them left.
  unfoldable pub replay_node : NodeAdapter W → NodeSpec → ℕ → ℕ → Action W (List NodeRunEvidence)
  replay_node adapter node zero i = lift (done [])
  replay_node adapter node (suc k) i = do
    r ← replay_once adapter node i
    rs ← replay_node adapter node k (i + 1)
    lift (done (r ∷ rs))

  -- The loop over the required nodes.
  unfoldable pub replay_nodes :
      Matrix
      → Profile
      → (NodeSpec → Outcome (NodeAdapter W))
      → Env
      → List Bytes
      → Action W (List NodeRunEvidence)
  replay_nodes m p factory over [] = lift (done [])
  replay_nodes m p factory over (id ∷ ids) = do
    let node = with_global_env over (node_or_zero id m.nodes)
    adapter ← lift (factory node)
    rs ← replay_node adapter node (pos_part (required_replay_count node p)) 1
    more ← replay_nodes m p factory over ids
    lift (done (rs ++ more))

-- What is deferred: the temporary directory is removed, whether the action succeeds or not, and an
-- error of the removal is dropped.
unfoldable pub in_temp : {W A : Type 0} → Surroundings W → Bytes → Action W A → Action W A
in_temp around root m w = let r = m w in (r.0, around.remove_temp root r.1)

-- `RunMatrix` behind its checks.
unfoldable pub run_planned :
    {W : Type 0}
    → Surroundings W
    → Matrix
    → Profile
    → (NodeSpec → Outcome (NodeAdapter W))
    → RunOptions
    → List Bytes
    → Action W EvidenceBundle
run_planned around m p factory opts ids = do
  root ← around.make_temp
  in_temp around root (do
    rs ← replay_nodes around root opts.bundle_path m p factory opts.global_env ids
    lift (seal_bundle m p opts (empty_bundle around.now m p opts) rs))

-- `RunMatrix`; nil arguments are `none`.
unfoldable pub run_matrix :
    {W : Type 0}
    → Surroundings W
    → Option Matrix
    → Option Profile
    → Option (NodeSpec → Outcome (NodeAdapter W))
    → RunOptions
    → Action W EvidenceBundle
run_matrix around none p factory opts = lift (failed (codes "matrix and profile are required"))
run_matrix around (some m) none factory opts =
    lift (failed (codes "matrix and profile are required"))
run_matrix around (some m) (some p) none opts = do
  lift (validate_matrix (some m))
  lift (validate_profile (some p))
  lift (failed (codes "adapter factory is required"))
run_matrix around (some m) (some p) (some factory) opts = do
  ids ← lift (planned_nodes m p)
  run_planned around m p factory opts ids
