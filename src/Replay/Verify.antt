-- ===== src/Replay/Verify.antt =====
-- cmd/jcs-offline-replay/main.go: the flags of the command, and its subcommand verify-evidence.
pub mod Verified
use jcs_schubfach.Prelude.{
  Bool, true, false, not, ◌||◌, Option, none, some, List, [], ◌∷◌, if◌then◌else◌, Bytes, codes,
  equal,
}
use jcs_schubfach.Replay.Config.{Env, Matrix, Profile, is_empty}
use jcs_schubfach.Replay.Evidence.{
  EvidenceBundle, EvidenceValidationOptions, validate_evidence_bundle,
}
use jcs_schubfach.Replay.Outcome.{Outcome, done, failed, fail_if, ◌>>=◌, ◌>>◌}
use jcs_schubfach.Replay.Run.{set_env}
use jcs_schubfach.Text.{trim_space, has_prefix, has}
use jcs_schubfach.Worker.Arguments.{split_equals}
use jcs_schubfach.Worker.Checksums.{get_env}

-- `boolTrue`
abbrev pub bool_true : Bytes
bool_true = codes "true"

-- `boolFlags`
abbrev pub bool_flags : List Bytes
bool_flags =
    codes "--local-no-rocky"
    ∷ codes "--skip-preflight"
    ∷ codes "--skip-release-gate"
    ∷ codes "--run-official-vectors"
    ∷ codes "--run-official-es6-100m"
    ∷ codes "--strict"
    ∷ codes "--no-strict"
    ∷ []

-- How the loop of `parseKV` takes an argument.
pub data FlagArg : Type 0 where
  no_flag : FlagArg
  sets : Bytes → Bytes → FlagArg
  switch : FlagArg
  takes_value : FlagArg

unfoldable pub flag_arg_of : Bytes → FlagArg
flag_arg_of arg =
    if equal arg (codes "--help") || equal arg (codes "-h")
    then sets arg bool_true
    else if not (has_prefix (codes "--") arg)
    then no_flag
    else elim (split_equals arg) [
      | some p ↦ sets p.0 p.1
      | none ↦ if has arg bool_flags then switch else takes_value
    ]

-- `parseKV`, given the flags before.
unfoldable pub parse_kv_flags : Env → List Bytes → Outcome Env
parse_kv_flags flags [] = done flags
parse_kv_flags flags (arg ∷ []) = elim (flag_arg_of arg) [
  | no_flag ↦ failed (codes "unexpected argument %q")
  | sets k v ↦ done (set_env k v flags)
  | switch ↦ done (set_env arg bool_true flags)
  | takes_value ↦ failed (codes "flag %s requires value")
]
parse_kv_flags flags (arg ∷ value ∷ rest) = elim (flag_arg_of arg) [
  | no_flag ↦ failed (codes "unexpected argument %q")
  | sets k v ↦ parse_kv_flags (set_env k v flags) (value ∷ rest)
  | switch ↦ elim (has_prefix (codes "--") value) [
    | true ↦ parse_kv_flags (set_env arg bool_true flags) (value ∷ rest)
    | false ↦ parse_kv_flags (set_env arg value flags) rest
  ]
  | takes_value ↦ parse_kv_flags (set_env arg value flags) rest
]

-- `requireFlag`
abbrev pub require_flag : Env → Bytes → Bytes
require_flag flags name = trim_space (get_env flags name)

-- What the command uses of os, path/filepath, crypto/sha256 with encoding/hex, and of the loaders in
-- offline/replay, which read files and call encoding/json; and the write of a line to stdout.
pub record Files : Type 0 where
  pub read_file : Bytes → Outcome Bytes
  pub sha256 : Bytes → Bytes
  pub dir : Bytes → Bytes
  pub join_path : List Bytes → Bytes
  pub lookup_env : Bytes → Option Bytes
  pub load_matrix : Bytes → Outcome Matrix
  pub load_profile : Bytes → Outcome Profile
  pub load_evidence : Bytes → Outcome EvidenceBundle
  pub write_line : Bytes → Outcome (Unit {0})

-- `fmt.Errorf(text, err)`
unfoldable pub wrapped : {A : Type 0} → Bytes → Outcome A → Outcome A
wrapped text (done a) = done a
wrapped text (failed inner) = failed text

module _ (files : Files) where
  -- `fileSHA256`
  unfoldable pub digest_of_file : Bytes → Outcome Bytes
  unfolding wrapped
  digest_of_file path = do
    bytes ← wrapped (codes "read file %s: %w") (files.read_file path)
    done (files.sha256 bytes)

  -- `lookupEnvTrimmed`
  abbrev pub lookup_env_trimmed : Bytes → Bytes
  lookup_env_trimmed name = elim (files.lookup_env name) [
    | none ↦ []
    | some value ↦ trim_space value
  ]

  -- `defaultEvidenceArtifactPaths`
  abbrev pub default_evidence_artifact_paths : Bytes → Bytes × Bytes
  default_evidence_artifact_paths evidence_path =
      let base = files.dir evidence_path in
      (
        files.join_path (base ∷ codes "offline-bundle.tgz" ∷ []),
        files.join_path (base ∷ codes "bin" ∷ codes "jcs-canon" ∷ []),
      )

  abbrev pub or_else : Bytes → Bytes → Bytes
  or_else value fallback = if is_empty value then fallback else value

  -- `resolveVerifyPaths`
  abbrev pub resolve_verify_paths : Env → Bytes → Bytes × Bytes
  resolve_verify_paths flags evidence_path =
      let defaults = default_evidence_artifact_paths evidence_path in
      (
        or_else (require_flag flags (codes "--bundle")) defaults.0,
        or_else (require_flag flags (codes "--control-binary")) defaults.1,
      )

  -- `loadVerificationDigests`
  unfoldable pub load_verification_digests :
      Bytes → Bytes → Bytes → Bytes → Outcome (Bytes × Bytes × Bytes × Bytes)
  load_verification_digests bundle_path control_path matrix_path profile_path = do
    bundle ← wrapped (codes "resolve bundle sha256: %w") (digest_of_file bundle_path)
    control ← wrapped (codes "resolve control binary sha256: %w") (digest_of_file control_path)
    matrix ← wrapped (codes "resolve matrix sha256: %w") (digest_of_file matrix_path)
    profile ← wrapped (codes "resolve profile sha256: %w") (digest_of_file profile_path)
    done (bundle, control, matrix, profile)

  -- `resolveExpectedSourceIdentity`
  abbrev pub resolve_expected_source_identity : Env → Bytes × Bytes
  resolve_expected_source_identity flags = (
    trim_space (
        or_else (require_flag flags (codes "--source-git-commit"))
          (lookup_env_trimmed (codes "JCS_OFFLINE_EXPECTED_GIT_COMMIT"))),
    trim_space (
        or_else (require_flag flags (codes "--source-git-tag"))
          (lookup_env_trimmed (codes "JCS_OFFLINE_EXPECTED_GIT_TAG"))),
  )

  -- What `cmdVerifyEvidence` expects of the evidence.
  abbrev pub expectations : Env → Matrix → Bytes × Bytes × Bytes × Bytes → EvidenceValidationOptions
  expectations flags matrix digests = record {
    expected_bundle_sha256 = digests.0;
    expected_control_binary_sha256 = digests.1;
    expected_matrix_sha256 = digests.2;
    expected_profile_sha256 = digests.3;
    expected_architecture = matrix.architecture;
    expected_source_git_commit = (resolve_expected_source_identity flags).0;
    expected_source_git_tag = (resolve_expected_source_identity flags).1;
  }

  -- `cmdVerifyEvidence`
  unfoldable pub cmd_verify_evidence : Env → Outcome (Unit {0})
  cmd_verify_evidence flags = do
    let matrix_path = require_flag flags (codes "--matrix")
    let profile_path = require_flag flags (codes "--profile")
    let evidence_path = require_flag flags (codes "--evidence")
    fail_if (is_empty matrix_path || (is_empty profile_path || is_empty evidence_path))
        (codes "verify-evidence requires --matrix, --profile, --evidence")
    let paths = resolve_verify_paths flags evidence_path
    matrix ← wrapped (codes "load matrix: %w") (files.load_matrix matrix_path)
    profile ← wrapped (codes "load profile: %w") (files.load_profile profile_path)
    evidence ← wrapped (codes "load evidence: %w") (files.load_evidence evidence_path)
    digests ←
        wrapped (codes "load verification digests: %w")
          (load_verification_digests paths.0 paths.1 matrix_path profile_path)
    wrapped (codes "validate evidence bundle: %w") (
        validate_evidence_bundle (some evidence) (some matrix) (some profile)
          (expectations flags matrix digests))
    files.write_line (codes "ok")
