-- ===== src/Replay/Adapter/Variables.antt =====
-- offline/runtime: the variables that a replay command finds in its environment.
use jcs_schubfach.Text.Decimal.{decimal, IsDecimal, decimal-IsDecimal}
use jcs_schubfach.Prelude.{
  ℕ, ◌≡◌, ◌≢◌, refl, ◌∙◌, false, not, ◌&&◌, or-false, Option, none, some, List, [], ◌∷◌, arith,
  if◌then◌else◌, Bytes, codes, equal, equal_iff,
}
use jcs_schubfach.Replay.Adapter.{set_path, command_env}
use jcs_schubfach.Replay.Config.{Env, NodeSpec, is_empty}
use jcs_schubfach.Replay.Run.{set_env, set_all}
use jcs_schubfach.Text.{has}

-- `m[k]`
unfoldable pub lookup_env : Bytes → Env → Option Bytes
lookup_env k [] = none
lookup_env k (e ∷ env) = if equal e.0 k then some e.1 else lookup_env k env

pub lookup-set_env :
    (j k v : Bytes) (env : Env)
    → lookup_env j (set_env k v env) ≡ (if equal k j then some v else lookup_env j env)
unfolding lookup_env set_env
lookup-set_env j k v [] = refl
lookup-set_env j k v (e ∷ env) =
    ground (arith, equal_iff e.0 k, equal_iff e.0 j, equal_iff k j, lookup-set_env j k v env)

lookup-set_path :
    (j k v : Bytes) (env : Env)
    → lookup_env j (set_path k v env)
      ≡ (if equal k j && not (is_empty v) then some v else lookup_env j env)
lookup-set_path j k [] env = ground arith
lookup-set_path j k (b ∷ v) env = ground (arith, lookup-set_env j k (b ∷ v) env)

abbrev pub variable_names : List Bytes
variable_names =
    codes "JCS_NODE_ID"
    ∷ codes "JCS_NODE_MODE"
    ∷ codes "JCS_NODE_DISTRO"
    ∷ codes "JCS_NODE_KERNEL_FAMILY"
    ∷ codes "JCS_REPLAY_INDEX"
    ∷ codes "JCS_BUNDLE_PATH"
    ∷ codes "JCS_EVIDENCE_PATH"
    ∷ []

pub record SetsVariables (node : NodeSpec) (bundle_path evidence_path : Bytes) (i : ℕ) (env : Env)
    : Type 0 where
  pub node_id : lookup_env (codes "JCS_NODE_ID") env ≡ some node.id
  pub mode : lookup_env (codes "JCS_NODE_MODE") env ≡ some node.mode
  pub distro : lookup_env (codes "JCS_NODE_DISTRO") env ≡ some node.distro
  pub kernel : lookup_env (codes "JCS_NODE_KERNEL_FAMILY") env ≡ some node.kernel_family
  pub index : (s : Bytes) × IsDecimal i s × (lookup_env (codes "JCS_REPLAY_INDEX") env ≡ some s)
  pub bundle : bundle_path ≢ [] → lookup_env (codes "JCS_BUNDLE_PATH") env ≡ some bundle_path
  pub evidence :
      evidence_path ≢ [] → lookup_env (codes "JCS_EVIDENCE_PATH") env ≡ some evidence_path
  pub others :
      (k : Bytes)
      → has k variable_names ≡ false
      → lookup_env k env ≡ lookup_env k (set_all [] node.runner.env)

-- The value of the variable `k`, if it is one of these, and the node's own otherwise.
abbrev variable_or_own : NodeSpec → Bytes → Bytes → ℕ → Bytes → Option Bytes
variable_or_own node bundle_path evidence_path i k =
    if equal (codes "JCS_EVIDENCE_PATH") k && not (is_empty evidence_path)
    then some evidence_path
    else if equal (codes "JCS_BUNDLE_PATH") k && not (is_empty bundle_path)
    then some bundle_path
    else if equal (codes "JCS_REPLAY_INDEX") k
    then some (decimal i)
    else if equal (codes "JCS_NODE_KERNEL_FAMILY") k
    then some node.kernel_family
    else if equal (codes "JCS_NODE_DISTRO") k
    then some node.distro
    else if equal (codes "JCS_NODE_MODE") k
    then some node.mode
    else if equal (codes "JCS_NODE_ID") k
    then some node.id
    else lookup_env k (set_all [] node.runner.env)

command_env-lookup :
    (node : NodeSpec) (bundle_path evidence_path : Bytes) (i : ℕ) (k : Bytes)
    → lookup_env k (command_env node bundle_path evidence_path i)
      ≡ variable_or_own node bundle_path evidence_path i k
unfolding command_env
command_env-lookup node bundle_path evidence_path i k = simp (lookup-set_path, lookup-set_env)

path_set : (v : Bytes) {A : Type 0} (a b : A) → v ≢ [] → (if not (is_empty v) then a else b) ≡ a
path_set [] a b h = absurd (h refl)
path_set (c ∷ v) a b h = refl

equal_comm : (s t : Bytes) → equal s t ≡ equal t s
equal_comm s t = ground (arith, equal_iff s t, equal_iff t s)

-- The name `t` is none of a list that `t` heads if it is none of the rest.
absent :
    (k t : Bytes) (ts : List Bytes)
    → has k (t ∷ ts) ≡ false
    → (equal t k ≡ false) × (has k ts ≡ false)
unfolding has
absent k t ts h =
    let (differs, later) = or-false (equal k t) (has k ts) h in (equal_comm t k ∙ differs, later)

unnamed :
    (node : NodeSpec) (b e : Bytes) (i : ℕ) (k : Bytes)
    → has k variable_names ≡ false
    → variable_or_own node b e i k ≡ lookup_env k (set_all [] node.runner.env)
unnamed node b e i k h =
    let (d1, h1) = absent k _ _ h in
    let (d2, h2) = absent k _ _ h1 in
    let (d3, h3) = absent k _ _ h2 in
    let (d4, h4) = absent k _ _ h3 in
    let (d5, h5) = absent k _ _ h4 in
    let (d6, h6) = absent k _ _ h5 in
    let (d7, _) = absent k _ _ h6 in rw (d1, d2, d3, d4, d5, d6, d7) refl

-- The environment of a replay command names the node, its mode, distribution and kernel, the index in
-- decimal without leading zeros, and the two paths that are not empty, whatever the node's own variables are; any other variable is
-- as the node has it.
pub command_env-SetsVariables :
    (node : NodeSpec) (bundle_path evidence_path : Bytes) (i : ℕ)
    → SetsVariables node bundle_path evidence_path i (command_env node bundle_path evidence_path i)
unfolding equal has
command_env-SetsVariables node b e i =
    let at_name = command_env-lookup node b e i in
    record {
      node_id = at_name (codes "JCS_NODE_ID");
      mode = at_name (codes "JCS_NODE_MODE");
      distro = at_name (codes "JCS_NODE_DISTRO");
      kernel = at_name (codes "JCS_NODE_KERNEL_FAMILY");
      index = (decimal i, decimal-IsDecimal i, at_name (codes "JCS_REPLAY_INDEX"));
      bundle = λ h. at_name (codes "JCS_BUNDLE_PATH") ∙ path_set b _ _ h;
      evidence = λ h. at_name (codes "JCS_EVIDENCE_PATH") ∙ path_set e _ _ h;
      others = λ k h. at_name k ∙ unnamed node b e i k h;
    }
