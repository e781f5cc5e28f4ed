-- ===== src/Replay/Audit/Passed.antt =====
-- cmd/jcs-offline-replay/offline_harness.go: when a summary and a report pass.
use mathlib.Core.Path.{subst}
use jcs_schubfach.Prelude.{
  ◌≡◌, ◌≢◌, refl, ap, sym, ◌∙◌, ◌↔◌, inl, inr, Bool, true, false, Bool-cases, and-true, some, List,
  [], ◌∷◌, arith, if◌then◌else◌, Bytes, codes, equal, equal_iff, All,
}
use jcs_schubfach.Replay.Audit.{
  result_pass, result_fail, add_key, digest_set, single_digest, all_true, build_audit_summary,
  cross_checks, all_match, build_cross_arch_report,
}
use jcs_schubfach.Replay.Config.{Matrix, Profile, is_empty}
use jcs_schubfach.Replay.Evidence.{
  NodeRunEvidence, EvidenceBundle, EvidenceValidationOptions, run_digests, runs_of,
  validate_evidence_bundle,
}
use jcs_schubfach.Replay.Evidence.Attested.{
  aggregate_digests, IsReplayed, IsAttested, validate_evidence_bundle-IsAttested,
}
use jcs_schubfach.Replay.Config.Required.{wanted}
use jcs_schubfach.Replay.Evidence.Runs.{IsHex}
use jcs_schubfach.Sort.{sort_by, insert_by}
use jcs_schubfach.Replay.Outcome.{done}
use jcs_schubfach.Text.{has, trim_left, trim_right, sort_strings}

pass_iff : (b : Bool) → ((if b then result_pass else result_fail) ≡ result_pass) ↔ (b ≡ true)
pass_iff true = (λ h. refl, λ h. refl)
pass_iff false = (λ h. ground arith, λ h. cc)

cross_checks_iff :
    (x a : EvidenceBundle)
    → (all_match (cross_checks x a) ≡ true) ↔ (aggregate_digests x ≡ aggregate_digests a)
unfolding all_match
cross_checks_iff x a = (
  λ h.
      let (canonical, h1) = and-true _ _ h in
      let (verify, h2) = and-true _ _ h1 in
      let (class, h3) = and-true _ _ h2 in
      let (code, _) = and-true _ _ h3 in
      let same = λ (s t : Bytes) (e : equal s t ≡ true). (equal_iff s t).0 e in
      λ i.
        same x.aggregate_canonical a.aggregate_canonical canonical i
        ∷ same x.aggregate_verify a.aggregate_verify verify i
        ∷ same x.aggregate_class a.aggregate_class class i
        ∷ same x.aggregate_exit_code a.aggregate_exit_code code i
        ∷ [],
  λ h.
      let same = λ (s t : Bytes) (e : s ≡ t). (equal_iff s t).1 e in
      rw
        (
          same x.aggregate_canonical a.aggregate_canonical (cc h),
          same x.aggregate_verify a.aggregate_verify (cc h),
          same x.aggregate_class a.aggregate_class (cc h),
          same x.aggregate_exit_code a.aggregate_exit_code (cc h),
        )
        refl,
)

-- The report on two bundles passes exactly if they have the same aggregate digests.
pub build_cross_arch_report_iff :
    (x a : EvidenceBundle) (x86_path arm_path now : Bytes)
    → ((build_cross_arch_report x a x86_path arm_path now).result ≡ result_pass)
      ↔ (aggregate_digests x ≡ aggregate_digests a)
unfolding build_cross_arch_report
build_cross_arch_report_iff x a x86_path arm_path now = (
  λ h. (cross_checks_iff x a).0 ((pass_iff (all_match (cross_checks x a))).0 h),
  λ h. (pass_iff (all_match (cross_checks x a))).1 ((cross_checks_iff x a).1 h),
)

add_same : (d : Bytes) → (if is_empty d then d ∷ [] else add_key d (d ∷ [])) ≡ d ∷ []
unfolding add_key has
add_same [] = refl
add_same (b ∷ d) = rw ((equal_iff (b ∷ d) (b ∷ d)).1 refl) refl

add_first : (d : Bytes) → d ≢ [] → (if is_empty d then [] else add_key d []) ≡ d ∷ []
unfolding add_key has
add_first [] ne = absurd (ne refl)
add_first (b ∷ d) ne = refl

digest_set-same :
    (digest : NodeRunEvidence → Bytes) (d : Bytes) (rs : List NodeRunEvidence)
    → All (λ r. digest r ≡ d) rs
    → digest_set digest rs (d ∷ []) ≡ d ∷ []
unfolding digest_set
digest_set-same digest d [] h = refl
digest_set-same digest d (r ∷ rs) h =
    ap (λ s. digest_set digest rs (if is_empty s then d ∷ [] else add_key s (d ∷ []))) h.0
    ∙ ap (digest_set digest rs) (add_same d)
    ∙ digest_set-same digest d rs h.1

-- Of replays that all have the digest `d`, which is not empty, the set is that digest.
digest_set-one :
    (digest : NodeRunEvidence → Bytes) (d : Bytes) (rs : List NodeRunEvidence)
    → d ≢ []
    → rs ≢ []
    → All (λ r. digest r ≡ d) rs
    → digest_set digest rs [] ≡ d ∷ []
unfolding digest_set
digest_set-one digest d [] ne some_run h = absurd (some_run refl)
digest_set-one digest d (r ∷ rs) ne some_run h =
    ap (λ s. digest_set digest rs (if is_empty s then [] else add_key s [])) h.0
    ∙ ap (digest_set digest rs) (add_first d ne)
    ∙ digest_set-same digest d rs h.1

module _ (Q : NodeRunEvidence → Type 0) where
  at_id : (P : Bytes → Type 0) (k : Bytes) (ids : List Bytes) → has k ids ≡ true → All P ids → P k
  unfolding has
  at_id P k [] h all = cc
  at_id P k (id ∷ ids) h all = elim (Bool-cases (equal k id)) [
    | inl e ↦ subst P (sym ((equal_iff k id).0 e)) all.0
    | inr e ↦ at_id P k ids (rw e at h) all.1
  ]

  own_run :
      (r : NodeRunEvidence) (rs : List NodeRunEvidence) → All Q (runs_of r.node_id (r ∷ rs)) → Q r
  unfolding runs_of
  own_run r rs h = (rw ((equal_iff r.node_id r.node_id).1 refl) at h).0

  later_runs :
      (id : Bytes) (r : NodeRunEvidence) (rs : List NodeRunEvidence)
      → All Q (runs_of id (r ∷ rs))
      → All Q (runs_of id rs)
  unfolding runs_of
  later_runs id r rs h = elim (Bool-cases (equal r.node_id id)) [
    | inl e ↦ (rw e at h).1
    | inr e ↦ rw e at h
  ]

  -- What holds of the replays of some nodes holds of all replays, if they are of these nodes.
  All-runs_of :
      (rs : List NodeRunEvidence) (ids : List Bytes)
      → All (λ id. All Q (runs_of id rs)) ids
      → All (λ r. has r.node_id ids ≡ true) rs
      → All Q rs
  All-runs_of [] ids h known = tt
  All-runs_of (r ∷ rs) ids h known = (
    own_run r rs (at_id (λ id. All Q (runs_of id (r ∷ rs))) r.node_id ids known.0 h),
    All-runs_of rs ids (shorter ids h) known.1,
  )
    where
      shorter :
          (js : List Bytes)
          → All (λ id. All Q (runs_of id (r ∷ rs))) js
          → All (λ id. All Q (runs_of id rs)) js
      shorter [] all = tt
      shorter (id ∷ js) all = (later_runs id r rs all.0, shorter js all.1)

All-map :
    {P Q : NodeRunEvidence → Type 0} (rs : List NodeRunEvidence)
    → ((r : NodeRunEvidence) → P r → Q r)
    → All P rs
    → All Q rs
All-map [] f h = tt
All-map (r ∷ rs) f h = (f r h.0, All-map rs f h.1)

-- All replays of an accepted bundle have its aggregate digests, if they are of wanted nodes.
attested_runs :
    (e : EvidenceBundle) (m : Matrix) (p : Profile) (opts : EvidenceValidationOptions)
    → IsAttested e m p opts
    → All (λ r. has r.node_id (wanted m p) ≡ true) e.node_replays
    → All (λ r. run_digests r ≡ aggregate_digests e) e.node_replays
attested_runs e m p opts attested known =
    let (ids, selection, replayed) = attested.required in
    All-runs_of (λ r. run_digests r ≡ aggregate_digests e) e.node_replays ids (agreed ids replayed)
      (All-map e.node_replays (λ r h. selection.same_ids r.node_id ∙ h) known)
  where
    agreed :
        (js : List Bytes)
        → All (IsReplayed e m p) js
        → All (λ id. All (λ r. run_digests r ≡ aggregate_digests e) (runs_of id e.node_replays)) js
    agreed [] h = tt
    agreed (id ∷ js) h = (h.0.agreed, agreed js h.1)

IsHex-nonempty : (d : Bytes) → IsHex 64 d → d ≢ []
unfolding trim_left trim_right
IsHex-nonempty [] h = absurd (omega (arith, h.0))
IsHex-nonempty (b ∷ d) h = cc

-- A bundle that `ValidateEvidenceBundle` accepts, and whose replays are all of wanted nodes, has a summary
-- that passes, and in which the set of each digest is the aggregate digest of the bundle.
pub build_audit_summary-validate_evidence_bundle :
    (e : EvidenceBundle) (m : Matrix) (p : Profile) (opts : EvidenceValidationOptions)
    (matrix_path profile_path evidence_path now : Bytes)
    → validate_evidence_bundle (some e) (some m) (some p) opts ≡ done tt
    → All (λ r. has r.node_id (wanted m p) ≡ true) e.node_replays
    → ((build_audit_summary e matrix_path profile_path evidence_path now).result ≡ result_pass)
      × ((build_audit_summary e matrix_path profile_path evidence_path now).digest_sets
          ≡ (codes "canonical_unique", e.aggregate_canonical ∷ [])
            ∷ (codes "verify_unique", e.aggregate_verify ∷ [])
            ∷ (codes "failure_class_unique", e.aggregate_class ∷ [])
            ∷ (codes "exit_code_unique", e.aggregate_exit_code ∷ [])
            ∷ [])
unfolding build_audit_summary single_digest all_true sort_strings sort_by insert_by
build_audit_summary-validate_evidence_bundle e m p opts matrix_path profile_path evidence_path now
      accepted known =
    let attested = validate_evidence_bundle-IsAttested e m p opts accepted in
    let runs = attested_runs e m p opts attested known in
    let (_, (_, (_, (_, (canonical, (verify, (class, (code, _)))))))) = attested.digests in
    let one =
      λ (digest : NodeRunEvidence → Bytes) (d : Bytes) (hex : IsHex 64 d)
          (same : (r : NodeRunEvidence) → run_digests r ≡ aggregate_digests e → digest r ≡ d).
        digest_set-one digest d e.node_replays (IsHex-nonempty d hex) attested.some_run
          (All-map e.node_replays same runs) in
    rw
      (
        one (λ r. r.canonical_sha256) e.aggregate_canonical canonical (λ r h. cc h),
        one (λ r. r.verify_sha256) e.aggregate_verify verify (λ r h. cc h),
        one (λ r. r.failure_class_sha256) e.aggregate_class class (λ r h. cc h),
        one (λ r. r.exit_code_sha256) e.aggregate_exit_code code (λ r h. cc h),
      )
      (refl, refl)
