-- ===== src/Replay/Audit.antt =====
-- cmd/jcs-offline-replay/offline_harness.go: the audit summary of an evidence bundle, and the report
-- that compares the bundles of two architectures. Writing them belongs to encoding/json and os.
pub mod Passed
use jcs_schubfach.Prelude.{
  ℕ, Bool, true, false, ◌&&◌, List, [], ◌∷◌, ◌==◌, if◌then◌else◌, Bytes, codes, equal, length, map,
}
use jcs_schubfach.Prelude.Int.{ℤ, ltb_ℤ}
use jcs_schubfach.Replay.Config.{is_empty}
use jcs_schubfach.Replay.Evidence.{NodeRunEvidence, EvidenceBundle, runs_of}
use jcs_schubfach.Sort.{sort_by}
use jcs_schubfach.Text.{has, sort_strings}

abbrev pub result_pass : Bytes
result_pass = codes "PASS"

abbrev pub result_fail : Bytes
result_fail = codes "FAIL"

-- `set[key] = struct{}{}`
unfoldable pub add_key : Bytes → List Bytes → List Bytes
add_key k set = if has k set then set else k ∷ set

-- The loop over the replays, for the set of one digest: an empty one is left out.
unfoldable pub digest_set :
    (NodeRunEvidence → Bytes) → List NodeRunEvidence → List Bytes → List Bytes
digest_set digest [] set = set
digest_set digest (r ∷ rs) set =
    digest_set digest rs (if is_empty (digest r) then set else add_key (digest r) set)

-- The keys of `byNode`.
unfoldable pub node_keys : List NodeRunEvidence → List Bytes → List Bytes
node_keys [] ids = ids
node_keys (r ∷ rs) ids = node_keys rs (add_key r.node_id ids)

-- `sort.Slice` by the index of the replay.
unfoldable pub sort_replays : List NodeRunEvidence → List NodeRunEvidence
unfolding sort_by
sort_replays = sort_by (λ r s. ltb_ℤ r.replay_index s.replay_index)

-- `parity`, and whether all of it holds.
unfoldable pub single_digest : List Bytes → Bool
single_digest set = length set == 1

unfoldable pub all_true : List (Bytes × Bool) → Bool
all_true [] = true
all_true (c ∷ cs) = c.1 && all_true cs

-- `auditSummary`
pub record AuditSummary : Type 0 where
  pub generated_at_utc : Bytes
  pub matrix_path : Bytes
  pub profile_path : Bytes
  pub evidence_path : Bytes
  pub schema_version : Bytes
  pub profile_name : Bytes
  pub architecture : Bytes
  pub hard_release_gate : Bool
  pub node_count : ℕ
  pub run_count : ℕ
  pub required_suites : List Bytes
  pub aggregate : List (Bytes × Bytes)
  pub digest_sets : List (Bytes × List Bytes)
  pub node_replay_counts : List (Bytes × ℕ)
  pub node_replay_case_counts : List (Bytes × List ℤ)
  pub parity : List (Bytes × Bool)
  pub result : Bytes

-- The sets of the digests, in the order of the summary.
abbrev pub canonical_set : EvidenceBundle → List Bytes
canonical_set e = digest_set (λ r. r.canonical_sha256) e.node_replays []

abbrev pub verify_set : EvidenceBundle → List Bytes
verify_set e = digest_set (λ r. r.verify_sha256) e.node_replays []

abbrev pub failure_class_set : EvidenceBundle → List Bytes
failure_class_set e = digest_set (λ r. r.failure_class_sha256) e.node_replays []

abbrev pub exit_code_set : EvidenceBundle → List Bytes
exit_code_set e = digest_set (λ r. r.exit_code_sha256) e.node_replays []

abbrev pub parity_of : EvidenceBundle → List (Bytes × Bool)
parity_of e =
    (codes "canonical_single_digest", single_digest (canonical_set e))
    ∷ (codes "verify_single_digest", single_digest (verify_set e))
    ∷ (codes "failure_class_single_digest", single_digest (failure_class_set e))
    ∷ (codes "exit_code_single_digest", single_digest (exit_code_set e))
    ∷ []

-- `buildAuditSummary`; the time is given as its text.
unfoldable pub build_audit_summary : EvidenceBundle → Bytes → Bytes → Bytes → Bytes → AuditSummary
build_audit_summary e matrix_path profile_path evidence_path now =
    let ids = node_keys e.node_replays [] in
    record {
      generated_at_utc = now;
      matrix_path = matrix_path;
      profile_path = profile_path;
      evidence_path = evidence_path;
      schema_version = e.schema_version;
      profile_name = e.profile_name;
      architecture = e.architecture;
      hard_release_gate = e.hard_release_gate;
      node_count = length ids;
      run_count = length e.node_replays;
      required_suites = e.required_suites;
      aggregate =
          (codes "canonical", e.aggregate_canonical)
          ∷ (codes "verify", e.aggregate_verify)
          ∷ (codes "failure_class", e.aggregate_class)
          ∷ (codes "exit_code", e.aggregate_exit_code)
          ∷ [];
      digest_sets =
          (codes "canonical_unique", sort_strings (canonical_set e))
          ∷ (codes "verify_unique", sort_strings (verify_set e))
          ∷ (codes "failure_class_unique", sort_strings (failure_class_set e))
          ∷ (codes "exit_code_unique", sort_strings (exit_code_set e))
          ∷ [];
      node_replay_counts = map (λ id. (id, length (runs_of id e.node_replays))) ids;
      node_replay_case_counts =
          map (λ id. (id, map (λ r. r.case_count) (sort_replays (runs_of id e.node_replays)))) ids;
      parity = parity_of e;
      result = if all_true (parity_of e) then result_pass else result_fail;
    }

-- `crossArchCheck`
pub record CrossArchCheck : Type 0 where
  pub field : Bytes
  pub label : Bytes
  pub x86 : Bytes
  pub arm64 : Bytes
  pub matches : Bool

-- `crossArchReport`
pub record CrossArchReport : Type 0 where
  pub generated_at_utc : Bytes
  pub x86_evidence : Bytes
  pub arm64_evidence : Bytes
  pub result : Bytes
  pub checks : List CrossArchCheck

abbrev pub compared : Bytes → Bytes → Bytes → Bytes → CrossArchCheck
compared field label x86 arm64 = record {
  field = field;
  label = label;
  x86 = x86;
  arm64 = arm64;
  matches = equal x86 arm64;
}

abbrev pub cross_checks : EvidenceBundle → EvidenceBundle → List CrossArchCheck
cross_checks x a =
    compared (codes "aggregate_canonical_sha256") (codes "canonical") x.aggregate_canonical
      a.aggregate_canonical
    ∷ compared (codes "aggregate_verify_sha256") (codes "verify") x.aggregate_verify
        a.aggregate_verify
    ∷ compared (codes "aggregate_failure_class_sha256") (codes "failure_class") x.aggregate_class
        a.aggregate_class
    ∷ compared (codes "aggregate_exit_code_sha256") (codes "exit_code") x.aggregate_exit_code
        a.aggregate_exit_code
    ∷ []

-- `allMatch`
unfoldable pub all_match : List CrossArchCheck → Bool
all_match [] = true
all_match (c ∷ cs) = c.matches && all_match cs

-- `buildCrossArchReport`
unfoldable pub build_cross_arch_report :
    EvidenceBundle → EvidenceBundle → Bytes → Bytes → Bytes → CrossArchReport
build_cross_arch_report x a x86_path arm_path now = record {
  generated_at_utc = now;
  x86_evidence = x86_path;
  arm64_evidence = arm_path;
  result = if all_match (cross_checks x a) then result_pass else result_fail;
  checks = cross_checks x a;
}
