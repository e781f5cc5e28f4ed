-- ===== src/Replay/Verify/Verified.antt =====
-- cmd/jcs-offline-replay/main.go: what a verify-evidence that succeeds has verified.
use mathlib.Core.Path.{subst}
use jcs_schubfach.Prelude.{◌≡◌, ◌≢◌, sym, ◌∙◌, inl, inr, ◌||◌, some, [], Bytes, codes}
use jcs_schubfach.Replay.Config.{Env, Matrix, Profile, is_empty}
use jcs_schubfach.Replay.Evidence.{EvidenceBundle, validate_evidence_bundle}
use jcs_schubfach.Replay.Evidence.Attested.{Binds, IsAttested, validate_evidence_bundle-IsAttested}
use jcs_schubfach.Replay.Outcome.{Outcome, done, failed, fail_if, chain-done, done_inj}
use jcs_schubfach.Replay.Verify.{
  Files, wrapped, require_flag, resolve_verify_paths, digest_of_file, load_verification_digests,
  expectations, cmd_verify_evidence,
}

wrapped-done :
    {A : Type 0} (text : Bytes) (m : Outcome A) {a : A} → wrapped text m ≡ done a → m ≡ done a
unfolding wrapped
wrapped-done text (done b) h = h
wrapped-done text (failed inner) h = cc

module _ (files : Files) (flags : Env) where
  -- The digest of the bytes of a file.
  abbrev pub IsDigestOf : Bytes → Bytes → Type 0
  IsDigestOf path d =
      (bytes : Bytes) × (files.read_file path ≡ done bytes) × (d ≡ files.sha256 bytes)

  -- The evidence at its path is attested against the matrix and the profile at theirs, and its four
  -- digests are those of the files at the paths of the bundle, the binary, the matrix and the profile.
  pub record IsVerified : Type 0 where
    pub matrix : Matrix
    pub profile : Profile
    pub evidence : EvidenceBundle
    pub digests : Bytes × Bytes × Bytes × Bytes
    pub matrix_loaded : files.load_matrix (require_flag flags (codes "--matrix")) ≡ done matrix
    pub profile_loaded : files.load_profile (require_flag flags (codes "--profile")) ≡ done profile
    pub evidence_loaded :
        files.load_evidence (require_flag flags (codes "--evidence")) ≡ done evidence
    pub attested : IsAttested evidence matrix profile (expectations files flags matrix digests)
    pub same_bundle :
        IsDigestOf
          (resolve_verify_paths files flags (require_flag flags (codes "--evidence"))).0
          evidence.bundle_sha256
    pub same_binary :
        IsDigestOf
          (resolve_verify_paths files flags (require_flag flags (codes "--evidence"))).1
          evidence.control_binary_sha
    pub same_matrix : IsDigestOf (require_flag flags (codes "--matrix")) evidence.matrix_sha256
    pub same_profile : IsDigestOf (require_flag flags (codes "--profile")) evidence.profile_sha256

  digest_of_file-done :
      (text path : Bytes) {d : Bytes}
      → wrapped text (digest_of_file files path) ≡ done d
      → IsDigestOf path d
  unfolding digest_of_file
  digest_of_file-done text path h =
      let (bytes, read, same) =
        chain-done (wrapped _ (files.read_file path)) _ (wrapped-done text _ h) in
      (bytes, wrapped-done _ _ read, sym (done_inj same))

  load_verification_digests-done :
      (bundle_path control_path matrix_path profile_path : Bytes)
      {ds : Bytes × Bytes × Bytes × Bytes}
      → load_verification_digests files bundle_path control_path matrix_path profile_path ≡ done ds
      → IsDigestOf bundle_path ds.0
        × IsDigestOf control_path ds.1
        × IsDigestOf matrix_path ds.2
        × IsDigestOf profile_path ds.3
  unfolding load_verification_digests
  load_verification_digests-done bundle_path control_path matrix_path profile_path {ds} h =
      let (b, bundle, h1) = chain-done (wrapped _ (digest_of_file files bundle_path)) _ h in
      let (c, control, h2) = chain-done (wrapped _ (digest_of_file files control_path)) _ h1 in
      let (m, matrix, h3) = chain-done (wrapped _ (digest_of_file files matrix_path)) _ h2 in
      let (p, profile, h4) = chain-done (wrapped _ (digest_of_file files profile_path)) _ h3 in
      subst
        (λ (t : Bytes × Bytes × Bytes × Bytes).
          IsDigestOf bundle_path t.0
          × IsDigestOf control_path t.1
          × IsDigestOf matrix_path t.2
          × IsDigestOf profile_path t.3)
        (done_inj h4)
        (
          digest_of_file-done _ bundle_path bundle,
          digest_of_file-done _ control_path control,
          digest_of_file-done _ matrix_path matrix,
          digest_of_file-done _ profile_path profile,
        )

  module _ (sums : (s : Bytes) → files.sha256 s ≢ []) where
    bound_digest :
        (path expected value : Bytes)
        → IsDigestOf path expected
        → Binds expected value
        → IsDigestOf path value
    bound_digest path expected value (bytes, read, same) (inl empty) =
        absurd (sums bytes (sym same ∙ empty))
    bound_digest path expected value (bytes, read, same) (inr bound) = (bytes, read, bound ∙ same)

    -- A verify-evidence that succeeds has loaded the matrix, the profile and the evidence that its flags
    -- name; the evidence is attested against them, and its digests of the bundle, the control binary,
    -- the matrix and the profile are those of the files at these paths. No digest is the empty text.
    pub cmd_verify_evidence-IsVerified : cmd_verify_evidence files flags ≡ done tt → IsVerified
    unfolding cmd_verify_evidence
    cmd_verify_evidence-IsVerified h =
        let matrix_path = require_flag flags (codes "--matrix") in
        let profile_path = require_flag flags (codes "--profile") in
        let evidence_path = require_flag flags (codes "--evidence") in
        let paths = resolve_verify_paths files flags evidence_path in
        let (_, _, h1) =
          chain-done
            (fail_if (is_empty matrix_path || (is_empty profile_path || is_empty evidence_path)) _)
            _ h in
        let (m, matrix, h2) = chain-done (wrapped _ (files.load_matrix matrix_path)) _ h1 in
        let (p, profile, h3) = chain-done (wrapped _ (files.load_profile profile_path)) _ h2 in
        let (e, evidence, h4) = chain-done (wrapped _ (files.load_evidence evidence_path)) _ h3 in
        let (ds, digests, h5) =
          chain-done
            (wrapped _ (load_verification_digests files paths.0 paths.1 matrix_path profile_path)) _
            h4 in
        let (_, valid, _) =
          chain-done
            (wrapped _
              (validate_evidence_bundle (some e) (some m) (some p) (expectations files flags m ds)))
            _ h5 in
        let attested = validate_evidence_bundle-IsAttested e m p _ (wrapped-done _ _ valid) in
        let (bundle, control, matrix_sum, profile_sum) =
          load_verification_digests-done paths.0 paths.1 matrix_path profile_path
            (wrapped-done _ _ digests) in
        record {
          matrix = m;
          profile = p;
          evidence = e;
          digests = ds;
          matrix_loaded = wrapped-done _ _ matrix;
          profile_loaded = wrapped-done _ _ profile;
          evidence_loaded = wrapped-done _ _ evidence;
          attested = attested;
          same_bundle = bound_digest paths.0 ds.0 e.bundle_sha256 bundle attested.bundle_bound;
          same_binary =
              bound_digest paths.1 ds.1 e.control_binary_sha control attested.binary_bound;
          same_matrix =
              bound_digest matrix_path ds.2 e.matrix_sha256 matrix_sum attested.matrix_bound;
          same_profile =
              bound_digest profile_path ds.3 e.profile_sha256 profile_sum attested.profile_bound;
        }
