-- ===== src/Replay/Evidence/Attested.antt =====
-- offline/replay/evidence.go: what a bundle that `ValidateEvidenceBundle` accepts attests.
use jcs_schubfach.Prelude.{
  ℕ, ◌≤◌, ◌≡◌, ◌≢◌, refl, sym, ◌∙◌, ◌⊎◌, inl, inr, true, false, not-false, Option, none, some, List,
  [], ◌∷◌, Bytes, All,
}
use jcs_schubfach.Prelude.Int.{pos_part}
use jcs_schubfach.Replay.Config.{Matrix, Profile, required_node_ids, required_replay_count}
use jcs_schubfach.Replay.Config.Required.{IsSelection, required_node_ids-IsSelection}
use jcs_schubfach.Replay.Evidence.{
  NodeRunEvidence, EvidenceBundle, EvidenceValidationOptions, evidence_schema_version,
  validate_git_tag_token, validate_git_commit_token, validate_digests, differs, expected_arch,
  identity_checks, binding_checks, bundle_digests, run_digests, runs_of, node_or_zero,
  validate_runs, check_nodes, aggregate_checks, check_aggregates, suite_text,
  validate_evidence_bundle,
}
use jcs_schubfach.Replay.Evidence.Runs.{
  IsHex, IsRun, nonempty_of, same_of, IsHex-of, validate_digests-done, validate_runs-done,
}
use jcs_schubfach.Replay.Evidence.Drift.{Same, HasIndex, IsCovered, check_nodes-IsCovered}
use jcs_schubfach.Replay.Outcome.{done, fail_if_iff, run_checks, run_checks_iff, chain-done}
use jcs_schubfach.Text.{trim_space, has_blank}

abbrev pub aggregate_digests : EvidenceBundle → List Bytes
aggregate_digests e =
    e.aggregate_canonical ∷ e.aggregate_verify ∷ e.aggregate_class ∷ e.aggregate_exit_code ∷ []

-- What is recorded is what was expected, where something was.
abbrev pub Binds : Bytes → Bytes → Type 0
Binds expected value = (expected ≡ []) ⊎ (value ≡ expected)

-- A required node: all of its replays have the bundle's aggregate digests, and none is missing.
pub record IsReplayed (e : EvidenceBundle) (m : Matrix) (p : Profile) (id : Bytes) : Type 0 where
  pub agreed : All (λ r. run_digests r ≡ aggregate_digests e) (runs_of id e.node_replays)
  pub complete :
      (j : ℕ)
      → 1 ≤ j
      → j ≤ pos_part (required_replay_count (node_or_zero id m.nodes) p)
      → HasIndex j (runs_of id e.node_replays)

pub record IsAttested (e : EvidenceBundle) (m : Matrix) (p : Profile)
    (opts : EvidenceValidationOptions) : Type 0 where
  pub schema : e.schema_version ≡ evidence_schema_version
  pub profile : e.profile_name ≡ p.name
  pub digests : All (IsHex 64) (bundle_digests e)
  pub commit : IsHex 40 e.source_git_commit
  pub tag_set : trim_space e.source_git_tag ≢ []
  pub tag_unbroken : has_blank (trim_space e.source_git_tag) ≡ false
  pub architecture : e.architecture ≡ expected_arch m opts
  pub bundle_bound : Binds opts.expected_bundle_sha256 e.bundle_sha256
  pub binary_bound : Binds opts.expected_control_binary_sha256 e.control_binary_sha
  pub matrix_bound : Binds opts.expected_matrix_sha256 e.matrix_sha256
  pub profile_bound : Binds opts.expected_profile_sha256 e.profile_sha256
  pub commit_bound : Binds (trim_space opts.expected_source_git_commit) e.source_git_commit
  pub tag_bound : Binds (trim_space opts.expected_source_git_tag) e.source_git_tag
  pub gate : e.hard_release_gate ≡ true
  pub some_run : e.node_replays ≢ []
  pub runs : All (IsRun m.nodes) e.node_replays
  pub required : (ids : List Bytes) × IsSelection m p ids × All (IsReplayed e m p) ids
  pub suites : suite_text e.required_suites ≡ suite_text p.required_suites

Binds-of : (expected value : Bytes) → differs expected value ≡ false → Binds expected value
Binds-of [] value h = inl refl
Binds-of (b ∷ expected) value h = inr (same_of value (b ∷ expected) h)

aggregate-Same :
    (e : EvidenceBundle) (b : NodeRunEvidence)
    → check_aggregates e (some b) ≡ done tt
    → aggregate_digests e ≡ run_digests b
unfolding check_aggregates
aggregate-Same e b h =
    let (canonical, (verify, (class, (code, _)))) = (run_checks_iff (aggregate_checks e b)).0 h in
    let f = same_of _ _ canonical in
    let g = same_of _ _ verify in
    let k = same_of _ _ class in let l = same_of _ _ code in rw (f, g, k, l) refl

All-Same :
    (e : EvidenceBundle) (b : NodeRunEvidence) (rs : List NodeRunEvidence)
    → aggregate_digests e ≡ run_digests b
    → All (Same b) rs
    → All (λ r. run_digests r ≡ aggregate_digests e) rs
All-Same e b [] h k = tt
All-Same e b (r ∷ rs) h k = (k.0 ∙ sym h, All-Same e b rs h k.1)

All-IsReplayed :
    (e : EvidenceBundle) (m : Matrix) (p : Profile) (b : NodeRunEvidence) (ids : List Bytes)
    → aggregate_digests e ≡ run_digests b
    → All (IsCovered e m p b) ids
    → All (IsReplayed e m p) ids
All-IsReplayed e m p b [] h k = tt
All-IsReplayed e m p b (id ∷ ids) h (c, k) = (
  record { agreed = All-Same e b _ h c.agreed; complete = c.complete },
  All-IsReplayed e m p b ids h k,
)

required_of :
    (e : EvidenceBundle) (m : Matrix) (p : Profile) (ids : List Bytes)
    (base : Option NodeRunEvidence)
    → check_nodes e m p ids none ≡ done base
    → check_aggregates e base ≡ done tt
    → All (IsReplayed e m p) ids
unfolding check_aggregates
required_of e m p ids none h k = cc
required_of e m p ids (some b) h k =
    All-IsReplayed e m p b ids (aggregate-Same e b k) (check_nodes-IsCovered e m p ids none b h).1

-- A bundle that `ValidateEvidenceBundle` accepts has the schema and the profile's name, well-formed
-- digests, commit and tag, what was expected where something was, and only passed replays of nodes
-- of the matrix; for each required node, selected by `requiredNodeIDs`, the replays from 1 to the
-- number wanted are there, and all of its replays have the aggregate digests of the bundle.
pub validate_evidence_bundle-IsAttested :
    (e : EvidenceBundle) (m : Matrix) (p : Profile) (opts : EvidenceValidationOptions)
    → validate_evidence_bundle (some e) (some m) (some p) opts ≡ done tt
    → IsAttested e m p opts
unfolding validate_evidence_bundle
validate_evidence_bundle-IsAttested e m p opts h =
    let (_, identity, h1) = chain-done (run_checks (identity_checks e p)) _ h in
    let (_, digests, h2) = chain-done (validate_digests (bundle_digests e)) _ h1 in
    let (_, commit, h3) = chain-done (validate_git_commit_token e.source_git_commit) _ h2 in
    let (_, tag, h4) = chain-done (validate_git_tag_token e.source_git_tag) _ h3 in
    let (_, binding, h5) = chain-done (run_checks (binding_checks e m opts)) _ h4 in
    let (ids, selected, h6) = chain-done (required_node_ids m p) _ h5 in
    let (_, runs, h7) = chain-done (validate_runs m.nodes e.node_replays) _ h6 in
    let (base, nodes, h8) = chain-done (check_nodes e m p ids none) _ h7 in
    let (_, aggregates, suites) = chain-done (check_aggregates e base) _ h8 in
    let (schema, (profile, _)) = (run_checks_iff (identity_checks e p)).0 identity in
    let (tag_set, (unbroken, _)) = (run_checks_iff _).0 tag in
    let (arch, (bundle, (binary, (matrix, (prof, (cmt, (tg, (gate, (some_run, _))))))))) =
      (run_checks_iff (binding_checks e m opts)).0 binding in
    record {
      schema = same_of _ _ schema;
      profile = same_of _ _ profile;
      digests = validate_digests-done (bundle_digests e) digests;
      commit = IsHex-of 40 _ e.source_git_commit commit;
      tag_set = nonempty_of _ tag_set;
      tag_unbroken = unbroken;
      architecture = same_of _ _ arch;
      bundle_bound = Binds-of _ _ bundle;
      binary_bound = Binds-of _ _ binary;
      matrix_bound = Binds-of _ _ matrix;
      profile_bound = Binds-of _ _ prof;
      commit_bound = Binds-of _ _ cmt;
      tag_bound = Binds-of _ _ tg;
      gate = not-false _ gate;
      some_run = nonempty_of _ some_run;
      runs = validate_runs-done m.nodes e.node_replays runs;
      required = (
        ids,
        required_node_ids-IsSelection m p ids selected,
        required_of e m p ids base nodes aggregates,
      );
      suites = same_of _ _ ((fail_if_iff _ _).0 suites);
    }
