-- ===== src/Worker/Checksums.antt =====
-- cmd/jcs-offline-worker/main.go: the digests of an extracted bundle. The files and sha256, as
-- hexadecimal text, are parameters.
use jcs_schubfach.Prelude.{not, ◌||◌, List, [], ◌∷◌, ◌++◌, if◌then◌else◌, Bytes, codes, equal, map}
use jcs_schubfach.Replay.Config.{Env, is_empty}
use jcs_schubfach.Replay.Outcome.{Outcome, done, fail_if, ◌>>=◌, ◌>>◌}
use jcs_schubfach.Replay.Run.{set_all}
use jcs_schubfach.Text.{trim_space, join, sort_strings}

-- `replay.BundleManifest`, of which the worker uses these.
pub record BundleManifest : Type 0 where
  pub binary_path : Bytes
  pub binary_sha256 : Bytes
  pub worker_path : Bytes
  pub worker_sha256 : Bytes
  pub matrix_path : Bytes
  pub matrix_sha256 : Bytes
  pub profile_path : Bytes
  pub profile_sha256 : Bytes
  pub vector_files : List Bytes
  pub vector_sha256 : Env
  pub vector_set_sha256 : Bytes

-- The entries of the literal `checks`, in their order.
abbrev pub core_entries : BundleManifest → Env
core_entries m =
    (m.binary_path, m.binary_sha256)
    ∷ (m.worker_path, m.worker_sha256)
    ∷ (m.matrix_path, m.matrix_sha256)
    ∷ (m.profile_path, m.profile_sha256)
    ∷ []

-- The map `checks`: of two entries for one path the later stays.
unfoldable pub core_checks : BundleManifest → Env
unfolding set_all
core_checks m = set_all [] (core_entries m)

-- `m[k]`: the empty string for a key that the map does not have.
unfoldable pub get_env : Env → Bytes → Bytes
get_env [] k = []
get_env (e ∷ env) k = if equal e.0 k then e.1 else get_env env k

-- What `verifyVectorSetChecksum` digests.
abbrev pub vector_set_text : BundleManifest → Bytes
vector_set_text m =
    join (b'\n' ∷ [])
      (sort_strings (map (λ rel. rel ++ (b':' ∷ get_env m.vector_sha256 rel)) m.vector_files))

module _ (read : Bytes → Outcome Bytes) (sha256 : Bytes → Bytes) where
  -- `fileSHA256`
  unfoldable pub file_sha256 : Bytes → Outcome Bytes
  file_sha256 path = do content ← read path; done (sha256 content)

  -- The end of both loops, at one file.
  unfoldable pub check_file : Bytes → Bytes → Bytes → Outcome (Unit {0})
  unfolding file_sha256
  check_file text path want = do got ← file_sha256 path; fail_if (not (equal got want)) text

  -- The loop of `verifyCoreChecksums`.
  unfoldable pub verify_core : Env → Outcome (Unit {0})
  verify_core [] = done tt
  verify_core (e ∷ env) = do
    fail_if (is_empty (trim_space e.0) || is_empty (trim_space e.1))
        (codes "bundle manifest missing required digest for %q")
    check_file (codes "checksum mismatch for %s") e.0 e.1
    verify_core env

  -- The loop of `verifyVectorChecksums`.
  unfoldable pub verify_vectors : Env → List Bytes → Outcome (Unit {0})
  verify_vectors digests [] = done tt
  verify_vectors digests (rel ∷ rels) = do
    fail_if (is_empty (get_env digests rel)) (codes "missing vector checksum for %s")
    check_file (codes "vector checksum mismatch for %s") rel (get_env digests rel)
    verify_vectors digests rels

  -- `verifyExtractedBundle`
  unfoldable pub verify_extracted_bundle : BundleManifest → Outcome (Unit {0})
  verify_extracted_bundle m = do
    verify_core (core_checks m)
    verify_vectors m.vector_sha256 m.vector_files
    fail_if (not (equal (sha256 (vector_set_text m)) m.vector_set_sha256))
        (codes "vector_set checksum mismatch")
