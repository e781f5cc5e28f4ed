-- ===== src/Replay/Evidence/Runs.antt =====
-- offline/replay/evidence.go: the replays that the first loop of `ValidateEvidenceBundle` accepts.
use jcs_schubfach.Prelude.{
  ℕ, ◌≡◌, ◌≢◌, inl, inr, true, false, not, not-false, some, Option-cases, List, [], ◌∷◌, arith,
  Bytes, equal, equal_iff, ==_iff, length, All,
}
use jcs_schubfach.Prelude.Int.{pos, ◌≤ℤ◌}
use jcs_schubfach.Replay.Config.{NodeSpec, is_empty}
use jcs_schubfach.Replay.Evidence.{
  NodeRunEvidence, hex_checks, validate_sha256_token, validate_digests, matrix_by_id, run_digests,
  run_checks_for, validate_run, validate_runs,
}
use jcs_schubfach.Replay.Outcome.{done, failed, fail_if, run_checks, run_checks_iff, then_iff, ◌>>◌}
use jcs_schubfach.Text.{trim_space, all_hex}

-- So many hexadecimal digits, with white space round them.
abbrev pub IsHex : ℕ → Bytes → Type 0
IsHex digits value = (length (trim_space value) ≡ digits) × (all_hex (trim_space value) ≡ true)

-- A replay of a node of the matrix, passed, with an index and cases, times and digests.
pub record IsRun (nodes : List NodeSpec) (r : NodeRunEvidence) : Type 0 where
  pub node : NodeSpec
  pub known : matrix_by_id r.node_id nodes ≡ some node
  pub same_mode : r.mode ≡ node.mode
  pub same_distro : r.distro ≡ node.distro
  pub same_kernel : r.kernel_family ≡ node.kernel_family
  pub index_set : pos 1 ≤ℤ r.replay_index
  pub cases_set : pos 1 ≤ℤ r.case_count
  pub has_passed : r.passed ≡ true
  pub session_set : trim_space r.session_id ≢ []
  pub start_set : trim_space r.started_at_utc ≢ []
  pub end_set : trim_space r.completed_at_utc ≢ []
  pub digests_set : All (IsHex 64) (run_digests r)

-- What a test that has passed says.
pub nonempty_of {ℓ} : {A : Type ℓ} (s : List A) → is_empty s ≡ false → s ≢ []
nonempty_of [] h = cc
nonempty_of (b ∷ s) h = cc

pub same_of : (s t : Bytes) → not (equal s t) ≡ false → s ≡ t
same_of s t h = (equal_iff s t).0 (not-false _ h)

pub IsHex-of :
    (digits : ℕ) (text value : Bytes)
    → run_checks (hex_checks digits text value) ≡ done tt
    → IsHex digits value
IsHex-of digits text value h =
    let (size, (hex, _)) = (run_checks_iff (hex_checks digits text value)).0 h in
    ((==_iff (length (trim_space value)) digits).0 (not-false _ size), not-false _ hex)

pub validate_digests-done : (ds : List Bytes) → validate_digests ds ≡ done tt → All (IsHex 64) ds
unfolding validate_digests
validate_digests-done [] h = tt
validate_digests-done (d ∷ ds) h =
    let (here, later) = (then_iff (validate_sha256_token d) (validate_digests ds)).0 h in
    (IsHex-of 64 _ d here, validate_digests-done ds later)

IsRun-of :
    (nodes : List NodeSpec) (n : NodeSpec) (r : NodeRunEvidence)
    → matrix_by_id r.node_id nodes ≡ some n
    → (run_checks (run_checks_for n r) >> validate_digests (run_digests r)) ≡ done tt
    → IsRun nodes r
IsRun-of nodes n r known h =
    let (checks, digests) = (then_iff (run_checks (run_checks_for n r)) _).0 h in
    let (mode, (distro, (kernel, (index, (cases, (passed, (session, (start, (end, _))))))))) =
      (run_checks_iff (run_checks_for n r)).0 checks in
    record {
      node = n;
      known = known;
      same_mode = same_of r.mode n.mode mode;
      same_distro = same_of r.distro n.distro distro;
      same_kernel = same_of r.kernel_family n.kernel_family kernel;
      index_set = ground arith;
      cases_set = ground arith;
      has_passed = not-false _ passed;
      session_set = nonempty_of _ session;
      start_set = nonempty_of _ start;
      end_set = nonempty_of _ end;
      digests_set = validate_digests-done (run_digests r) digests;
    }

pub validate_runs-done :
    (nodes : List NodeSpec) (rs : List NodeRunEvidence)
    → validate_runs nodes rs ≡ done tt
    → All (IsRun nodes) rs
unfolding validate_runs validate_run
validate_runs-done nodes [] h = tt
validate_runs-done nodes (r ∷ rs) h =
    let (here, later) = (then_iff (validate_run nodes r) (validate_runs nodes rs)).0 h in
    let (_, found) = (then_iff (fail_if (is_empty r.node_id) _) _).0 here in
    elim (Option-cases (matrix_by_id r.node_id nodes)) [
      | inl e ↦ absurd (unknown _ (rw e at found))
      | inr (n, e) ↦ (IsRun-of nodes n r e (rw e at found), validate_runs-done nodes rs later)
    ]
  where
    unknown : (text : Bytes) → failed text ≢ done tt
    unknown text h = cc
