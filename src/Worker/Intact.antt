-- ===== src/Worker/Intact.antt =====
-- cmd/jcs-offline-worker/main.go: what `verifyExtractedBundle` accepts.
use jcs_schubfach.Prelude.{
  ◌≡◌, ◌≢◌, ◌↔◌, ◌⊎◌, ◌++◌, map, refl, ap, ◌∙◌, Bool, false, not, not-false, ◌||◌, or-false, List,
  [], ◌∷◌, Bytes, codes, equal_iff, All,
}
use jcs_schubfach.Replay.Config.{Env, is_empty}
use jcs_schubfach.Replay.Config.Valid.{is_empty_iff}
use jcs_schubfach.Replay.Outcome.{
  Outcome, done, fail_if, fail_if_iff, then_iff, chain-done, done_inj,
}
use jcs_schubfach.Text.{trim_space, join, sort_strings}
use jcs_schubfach.Worker.Checksums.{
  BundleManifest, core_entries, core_checks, get_env, file_sha256, check_file, verify_core,
  verify_vectors, vector_set_text, verify_extracted_bundle,
}
use jcs_schubfach.Worker.Later.{filled-All}

module _ (read : Bytes → Outcome Bytes) (sha256 : Bytes → Bytes) where
  -- The file can be read and has this digest.
  abbrev pub HasDigest : Bytes → Bytes → Type 0
  HasDigest path want = (content : Bytes) × (read path ≡ done content) × (sha256 content ≡ want)

  -- Neither the path nor the digest is blank, and the file has the digest.
  abbrev pub IsRecorded : Bytes → Bytes → Type 0
  IsRecorded path want = (trim_space path ≢ []) × (trim_space want ≢ []) × HasDigest path want

  -- Each core file is recorded with its digest, unless its path is also that of a later one.
  pub record IsIntact (m : BundleManifest) : Type 0 where
    pub binary :
        (m.binary_path ≡ m.worker_path)
        ⊎ ((m.binary_path ≡ m.matrix_path)
            ⊎ ((m.binary_path ≡ m.profile_path) ⊎ IsRecorded m.binary_path m.binary_sha256))
    pub worker :
        (m.worker_path ≡ m.matrix_path)
        ⊎ ((m.worker_path ≡ m.profile_path) ⊎ IsRecorded m.worker_path m.worker_sha256)
    pub matrix : (m.matrix_path ≡ m.profile_path) ⊎ IsRecorded m.matrix_path m.matrix_sha256
    pub profile : IsRecorded m.profile_path m.profile_sha256
    pub vectors :
        All
          (λ rel. (get_env m.vector_sha256 rel ≢ []) × HasDigest rel (get_env m.vector_sha256 rel))
          m.vector_files
    pub vector_set :
        sha256 (
          join (b'\n' ∷ []) (
            sort_strings (map (λ rel. rel ++ (b':' ∷ get_env m.vector_sha256 rel)) m.vector_files)))
        ≡ m.vector_set_sha256

  check_file_iff :
      (text path want : Bytes)
      → (check_file read sha256 text path want ≡ done tt) ↔ HasDigest path want
  unfolding check_file file_sha256
  check_file_iff text path want = (there, λ (content, e, f). back content e f)
    where
      there : check_file read sha256 text path want ≡ done tt → HasDigest path want
      there h =
          let (got, e, f) = chain-done (file_sha256 read sha256 path) _ h in
          let (content, g, k) = chain-done (read path) _ e in
          let same = (equal_iff got want).0 (not-false _ ((fail_if_iff _ _).0 f)) in
          (content, g, done_inj k ∙ same)

      back :
          (content : Bytes)
          → read path ≡ done content
          → sha256 content ≡ want
          → check_file read sha256 text path want ≡ done tt
      back content e f = rw e ((fail_if_iff _ _).1 (ap not ((equal_iff (sha256 content) want).1 f)))

  verify_core_iff :
      (env : Env) → (verify_core read sha256 env ≡ done tt) ↔ All (λ e. IsRecorded e.0 e.1) env
  unfolding verify_core
  verify_core_iff [] = (λ h. tt, λ h. refl)
  verify_core_iff (e ∷ env) =
      let first = then_iff (fail_if _ _) _ in
      let second =
        then_iff (check_file read sha256 (codes "checksum mismatch for %s") e.0 e.1)
          (verify_core read sha256 env) in
      let file = check_file_iff (codes "checksum mismatch for %s") e.0 e.1 in
      let ih = verify_core_iff env in
      (
        λ h.
            let (set, rest) = first.0 h in
            let (one, more) = second.0 rest in
            let (path_set, want_set) = or-false _ _ ((fail_if_iff _ _).0 set) in
            (
              (
                (is_empty_iff (trim_space e.0)).0 path_set,
                (is_empty_iff (trim_space e.1)).0 want_set,
                file.0 one,
              ),
              ih.0 more,
            ),
        λ ((path_set, want_set, one), more). first.1 (
          (fail_if_iff _ _).1 (
              neither ((is_empty_iff (trim_space e.0)).1 path_set)
                ((is_empty_iff (trim_space e.1)).1 want_set)),
          second.1 (file.1 one, ih.1 more),
        ),
      )
    where
      neither : {a b : Bool} → a ≡ false → b ≡ false → (a || b) ≡ false
      neither h k = rw (h, k) refl

  verify_vectors_iff :
      (digests : Env) (rels : List Bytes)
      → (verify_vectors read sha256 digests rels ≡ done tt)
        ↔ All (λ rel. (get_env digests rel ≢ []) × HasDigest rel (get_env digests rel)) rels
  unfolding verify_vectors
  verify_vectors_iff digests [] = (λ h. tt, λ h. refl)
  verify_vectors_iff digests (rel ∷ rels) =
      let want = get_env digests rel in
      let first = then_iff (fail_if (is_empty want) (codes "missing vector checksum for %s")) _ in
      let second =
        then_iff (check_file read sha256 (codes "vector checksum mismatch for %s") rel want)
          (verify_vectors read sha256 digests rels) in
      let file = check_file_iff (codes "vector checksum mismatch for %s") rel want in
      let ih = verify_vectors_iff digests rels in
      (
        λ h.
            let (set, rest) = first.0 h in
            let (one, more) = second.0 rest in
            (((is_empty_iff want).0 ((fail_if_iff _ _).0 set), file.0 one), ih.0 more),
        λ ((set, one), more).
            first.1
              ((fail_if_iff _ _).1 ((is_empty_iff want).1 set), second.1 (file.1 one, ih.1 more)),
      )

  -- `verifyExtractedBundle` accepts exactly the bundles whose binary, worker, matrix and profile and
  -- whose vector files can be read and have the digests of the manifest, none of which is empty, and
  -- whose vector set has its digest. Of these four, in this order, the digest of one whose
  -- path is also that of a later one is not looked at.
  pub verify_extracted_bundle_iff :
      (m : BundleManifest) → (verify_extracted_bundle read sha256 m ≡ done tt) ↔ IsIntact m
  unfolding verify_extracted_bundle core_checks
  verify_extracted_bundle_iff m =
      let first = then_iff (verify_core read sha256 (core_checks m)) _ in
      let second = then_iff (verify_vectors read sha256 m.vector_sha256 m.vector_files) _ in
      let core = verify_core_iff (core_checks m) in
      let filled = filled-All (λ e. IsRecorded e.0 e.1) (core_entries m) in
      let vectors = verify_vectors_iff m.vector_sha256 m.vector_files in
      let set = equal_iff (sha256 (vector_set_text m)) m.vector_set_sha256 in
      (
        λ h.
            let (a, rest) = first.0 h in
            let (b, c) = second.0 rest in
            let files = filled.0 (core.0 a) in
            record {
              binary = files.0;
              worker = files.1.0;
              matrix = files.1.1.0;
              profile = files.1.1.1.0;
              vectors = vectors.0 b;
              vector_set = set.0 (not-false _ ((fail_if_iff _ _).0 c));
            },
        λ v. first.1 (
          core.1 (filled.1 (v.binary, (v.worker, (v.matrix, (v.profile, tt))))),
          second.1 (vectors.1 v.vectors, (fail_if_iff _ _).1 (ap not (set.1 v.vector_set))),
        ),
      )
