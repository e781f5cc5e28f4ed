-- ===== src/Replay/Adapter.antt =====
-- offline/runtime/container/runner.go and offline/runtime/libvirt/runner.go, which differ only in the
-- texts of their errors; and the choice between them.
pub mod Variables
use jcs_schubfach.Text.Decimal.{decimal}
use jcs_schubfach.Prelude.{
  ℕ, Bool, true, false, ◌||◌, List, [], ◌∷◌, ◌++◌, if◌then◌else◌, Bytes, codes, equal,
}
use jcs_schubfach.Replay.Config.{Env, NodeSpec, is_empty, is_container, is_vm}
use jcs_schubfach.Replay.Outcome.{Outcome, done, failed}
use jcs_schubfach.Replay.Run.{Action, lift, ◌>>=◌, ◌>>◌, NodeAdapter, set_env, set_all}
use jcs_schubfach.Text.{has_prefix}

-- `CommandRunner` of executil: the words of the command, and its environment; it gives the output.
abbrev pub CommandRunner : Type 0 → Type 0
CommandRunner W = List Bytes → Env → Action W Bytes

-- Which of the two packages the adapter is of.
pub data Lane : Type 0 where
  container libvirt : Lane

abbrev lane_text : Lane → Bytes → Bytes
lane_text container text = codes "container " ++ text
lane_text libvirt text = codes "libvirt " ++ text

-- A variable that is set only to a path.
abbrev pub set_path : Bytes → Bytes → Env → Env
set_path k v env = if is_empty v then env else set_env k v env

-- `commandEnv`
unfoldable pub command_env : NodeSpec → Bytes → Bytes → ℕ → Env
command_env node bundle_path evidence_path i =
    let env0 = set_all [] node.runner.env in
    let env1 = set_env (codes "JCS_NODE_ID") node.id env0 in
    let env2 = set_env (codes "JCS_NODE_MODE") node.mode env1 in
    let env3 = set_env (codes "JCS_NODE_DISTRO") node.distro env2 in
    let env4 = set_env (codes "JCS_NODE_KERNEL_FAMILY") node.kernel_family env3 in
    let env5 = set_env (codes "JCS_REPLAY_INDEX") (decimal i) env4 in
    let env6 = set_path (codes "JCS_BUNDLE_PATH") bundle_path env5 in
    set_path (codes "JCS_EVIDENCE_PATH") evidence_path env6

-- `_, err := a.runner.Run(…)`, with the error wrapped.
unfoldable pub run_command :
    {W : Type 0} → CommandRunner W → Bytes → List Bytes → Env → Action W (Unit {0})
run_command runner text argv env w =
    let r = runner argv env w in
    elim r.0 [ done _ ↦ (done tt, r.1) | failed _ ↦ (failed (text ++ codes " command: %w"), r.1) ]

-- A command that may be left out.
unfoldable pub run_optional :
    {W : Type 0} → CommandRunner W → Bytes → List Bytes → Env → Action W (Unit {0})
unfolding run_command
run_optional runner text argv env =
    if is_empty argv then lift (done tt) else run_command runner text argv env

-- `Adapter`, made by `NewAdapter` of a runner that is not nil: `Prepare`, `RunReplay`, `Cleanup`.
unfoldable pub new_adapter : {W : Type 0} → Lane → CommandRunner W → NodeAdapter W
unfolding run_optional run_command command_env
new_adapter lane runner = record {
  prepare = λ node bundle_path i.
      run_optional runner (lane_text lane (codes "prepare")) node.runner.prepare
        (command_env node bundle_path [] i);
  run_replay = λ node bundle_path evidence_path i.
      if is_empty node.runner.replay
      then lift (failed (lane_text lane (codes "replay command is required")))
      else run_command runner (lane_text lane (codes "replay")) node.runner.replay
          (command_env node bundle_path evidence_path i);
  cleanup = λ node i.
      run_optional runner (lane_text lane (codes "cleanup")) node.runner.cleanup
        (command_env node [] [] i);
}

-- `adapterFactory` of cmd/jcs-offline-replay/main.go, for a runner.
unfoldable pub adapter_factory : {W : Type 0} → CommandRunner W → NodeSpec → Outcome (NodeAdapter W)
adapter_factory runner node =
    if is_container node
    then (if has_prefix (codes "container") node.runner.kind
        then done (new_adapter container runner)
        else failed (codes "node %s mode=container requires runner.kind prefix container"))
    else if is_vm node
    then (if has_prefix (codes "libvirt") node.runner.kind
          || has_prefix (codes "vm") node.runner.kind
        then done (new_adapter libvirt runner)
        else failed (codes "node %s mode=vm requires runner.kind prefix libvirt or vm"))
    else failed (codes "node %s unsupported mode %q")
