-- ===== src/Replay/Config.antt =====
-- offline/replay/config.go: matrices and profiles, their validation, the nodes and replays required.
-- Decoding the JSON documents belongs to encoding/json.
pub mod Valid
pub mod Required
use jcs_schubfach.Prelude.{
  Bool, true, false, not, ◌||◌, Option, none, some, List, [], ◌∷◌, ◌++◌, if◌then◌else◌, Bytes,
  codes, equal, map,
}
use jcs_schubfach.Prelude.Int.{ℤ, pos, ltb_ℤ}
use jcs_schubfach.Replay.Outcome.{Outcome, done, failed, fail_if, Check, run_checks, ◌>>=◌, ◌>>◌}
use jcs_schubfach.Text.{has, sort_strings}

-- A Go map from strings to strings, as the list of its entries.
abbrev pub Env : Type 0
Env = List (Bytes × Bytes)

-- `RunnerConfig`
pub record RunnerConfig : Type 0 where
  pub kind : Bytes
  pub prepare : List Bytes
  pub replay : List Bytes
  pub cleanup : List Bytes
  pub env : Env

-- `NodeSpec`
pub record NodeSpec : Type 0 where
  pub id : Bytes
  pub mode : Bytes
  pub distro : Bytes
  pub kernel_family : Bytes
  pub replays : ℤ
  pub runner : RunnerConfig

-- `Matrix`
pub record Matrix : Type 0 where
  pub version : Bytes
  pub architecture : Bytes
  pub nodes : List NodeSpec

-- `Profile`
pub record Profile : Type 0 where
  pub version : Bytes
  pub name : Bytes
  pub required_nodes : List Bytes
  pub required_suites : List Bytes
  pub min_cold_replays : ℤ
  pub hard_release_gate : Bool
  pub evidence_required : Bool

abbrev pub node_mode_container : Bytes
node_mode_container = codes "container"

abbrev pub node_mode_vm : Bytes
node_mode_vm = codes "vm"

abbrev pub architecture_arm64 : Bytes
architecture_arm64 = codes "arm64"

-- `s == ""`, and `len(l) == 0`
abbrev pub is_empty {ℓ} : {A : Type ℓ} → List A → Bool
is_empty [] = true
is_empty (_ ∷ _) = false

abbrev pub is_container : NodeSpec → Bool
is_container n = equal n.mode node_mode_container

abbrev pub is_vm : NodeSpec → Bool
is_vm n = equal n.mode node_mode_vm

-- The tests on one node in the loop of `ValidateMatrix`, given the ids before it.
abbrev pub node_checks : List Bytes → NodeSpec → List Check
node_checks seen n =
    (is_empty n.id, codes "node[%d] id is required")
    ∷ (has n.id seen, codes "duplicate node id: %s")
    ∷ (not (is_container n || is_vm n), codes "node %s: invalid mode %q")
    ∷ (is_empty n.distro, codes "node %s: distro is required")
    ∷ (is_empty n.kernel_family, codes "node %s: kernel_family is required")
    ∷ (ltb_ℤ n.replays (pos 0), codes "node %s: replays cannot be negative")
    ∷ (is_empty n.runner.replay, codes "node %s: runner.replay command is required")
    ∷ (is_empty n.runner.kind, codes "node %s: runner.kind is required")
    ∷ []

-- That loop, with `seen`.
unfoldable pub validate_nodes : List Bytes → List NodeSpec → Outcome (Unit {0})
validate_nodes seen [] = done tt
validate_nodes seen (n ∷ ns) = do run_checks (node_checks seen n); validate_nodes (n.id ∷ seen) ns

-- `hasContainer` and `hasVM` behind the loop.
unfoldable pub any_node : (NodeSpec → Bool) → List NodeSpec → Bool
any_node test [] = false
any_node test (n ∷ ns) = test n || any_node test ns

-- The tests of `ValidateMatrix` before its loop and behind it.
abbrev pub matrix_checks : Matrix → List Check
matrix_checks m =
    (is_empty m.version, codes "matrix version is required")
    ∷ (is_empty m.architecture, codes "matrix architecture is required")
    ∷ (is_empty m.nodes, codes "matrix must include at least one node")
    ∷ []

abbrev pub lane_checks : Matrix → List Check
lane_checks m =
    (not (any_node is_container m.nodes), codes "matrix must include at least one container node")
    ∷ (not (any_node is_vm m.nodes), codes "matrix must include at least one vm node")
    ∷ []

-- `ValidateMatrix`
unfoldable pub validate_matrix : Option Matrix → Outcome (Unit {0})
validate_matrix none = failed (codes "matrix is nil")
validate_matrix (some m) = do
  run_checks (matrix_checks m)
  validate_nodes [] m.nodes
  run_checks (lane_checks m)

abbrev pub profile_checks : Profile → List Check
profile_checks p =
    (is_empty p.version, codes "profile version is required")
    ∷ (is_empty p.name, codes "profile name is required")
    ∷ (is_empty p.required_suites, codes "profile required_suites cannot be empty")
    ∷ (ltb_ℤ p.min_cold_replays (pos 1), codes "profile min_cold_replays must be >= 1")
    ∷ (not p.evidence_required, codes "profile evidence_required must be true")
    ∷ []

-- `ValidateProfile`
unfoldable pub validate_profile : Option Profile → Outcome (Unit {0})
validate_profile none = failed (codes "profile is nil")
validate_profile (some p) = run_checks (profile_checks p)

-- `ValidateReleaseArchitecture`, and `ValidatePhaseOneArchitecture`, which calls it.
unfoldable pub validate_release_architecture : Option Matrix → Outcome (Unit {0})
validate_release_architecture none = failed (codes "matrix is nil")
validate_release_architecture (some m) =
    fail_if (not (equal m.architecture (codes "x86_64") || equal m.architecture architecture_arm64))
      (codes "release architecture must be one of x86_64, %s, got %q")

abbrev pub node_ids : Matrix → List Bytes
node_ids m = map (λ n. n.id) m.nodes

-- The loop of `requiredNodeIDs` over the profile's nodes; `known` are the keys of `nodeIndex`, `kept`
-- is `ids`, which holds what `seen` does.
unfoldable pub select_nodes : List Bytes → List Bytes → List Bytes → Outcome (List Bytes)
select_nodes known kept [] = done kept
select_nodes known kept (id ∷ ids) = do
  fail_if (not (has id known)) (codes "required node %q not present in matrix")
  select_nodes known (if has id kept then kept else kept ++ id ∷ []) ids

-- `requiredNodeIDs`
unfoldable pub required_node_ids : Matrix → Profile → Outcome (List Bytes)
required_node_ids m p =
    if is_empty p.required_nodes
    then done (sort_strings (node_ids m))
    else (do ids ← select_nodes (node_ids m) [] p.required_nodes; done (sort_strings ids))

-- What `RunMatrix` of run.go asks of its arguments first, and the nodes that it then runs.
unfoldable pub planned_nodes : Matrix → Profile → Outcome (List Bytes)
planned_nodes m p = do validate_matrix (some m); validate_profile (some p); required_node_ids m p

-- `requiredReplayCount`
unfoldable pub required_replay_count : NodeSpec → Profile → ℤ
required_replay_count node p =
    if ltb_ℤ p.min_cold_replays node.replays then node.replays else p.min_cold_replays
