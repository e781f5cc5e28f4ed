-- ===== src/Worker/Run.antt =====
-- cmd/jcs-offline-worker/main.go: `run`. The clock, the temporary directory, the archive and the
-- streams belong to the environment.
use jcs_schubfach.Prelude.{ℕ, true, List, [], Bytes, codes}
use jcs_schubfach.Prelude.Int.{pos}
use jcs_schubfach.Replay.Evidence.{NodeRunEvidence}
use jcs_schubfach.Replay.Outcome.{Outcome, done, failed}
use jcs_schubfach.Replay.Run.{Action, lift, ◌>>=◌, ◌>>◌}
use jcs_schubfach.Worker.Arguments.{WorkerArgs, parse_worker_args}
use jcs_schubfach.Worker.Checksums.{BundleManifest, verify_extracted_bundle}
use jcs_schubfach.Worker.Vectors.{Digests, Host, run_vectors, check_environment_independence}

-- What the command finds around it: the time as it is written, the temporary directory, the
-- extraction of a bundle and its files, sha256 as hexadecimal text, the session's name for a node and
-- a start, the host of its vectors, the evidence file, and the streams.
pub record Site (W : Type 0) : Type 0 where
  pub now : W → Bytes × W
  pub make_temp : Action W (Unit {0})
  pub remove_temp : W → W
  pub extract_bundle : Bytes → Action W BundleManifest
  pub read_file : Bytes → Bytes → Outcome Bytes
  pub sha256 : Bytes → Bytes
  pub session : Bytes → Bytes → Bytes
  pub host : Bytes → BundleManifest → Host W
  pub write_evidence : Bytes → NodeRunEvidence → Action W (Unit {0})
  pub write_stdout : Bytes → Action W (Unit {0})
  pub write_error_line : Bytes → W → W

abbrev pub no_digests : Digests
no_digests = record { canonical = []; verify = []; class = []; exit = [] }

module _ {W : Type 0} (site : Site W) where
  abbrev pub clock : Action W Bytes
  clock w = let r = site.now w in (done r.0, r.1)

  -- The evidence that `run` writes.
  abbrev pub evidence_of : WorkerArgs → Bytes → Bytes → Digests → ℕ → NodeRunEvidence
  evidence_of cfg started completed d count = record {
    node_id = cfg.node_id;
    mode = cfg.mode;
    distro = cfg.distro;
    kernel_family = cfg.kernel_family;
    replay_index = cfg.replay_index;
    session_id = site.session cfg.node_id started;
    started_at_utc = started;
    completed_at_utc = completed;
    case_count = pos count;
    passed = true;
    canonical_sha256 = site.sha256 d.canonical;
    verify_sha256 = site.sha256 d.verify;
    failure_class_sha256 = site.sha256 d.class;
    exit_code_sha256 = site.sha256 d.exit;
  }

  -- From the replay of the vectors on, up to the writing of the evidence.
  unfoldable pub replay_bundle : WorkerArgs → Bytes → BundleManifest → Action W NodeRunEvidence
  replay_bundle cfg started m = do
    r ← run_vectors (site.host cfg.bundle_path m) m.vector_files no_digests
    check_environment_independence (site.host cfg.bundle_path m)
    completed ← clock
    let e = evidence_of cfg started completed r.0 r.1
    site.write_evidence cfg.evidence_path e
    lift (done e)

  -- From the extraction of the bundle on.
  unfoldable pub collect_evidence : WorkerArgs → Bytes → Action W NodeRunEvidence
  collect_evidence cfg started = do
    m ← site.extract_bundle cfg.bundle_path
    lift (verify_extracted_bundle (site.read_file cfg.bundle_path) site.sha256 m)
    replay_bundle cfg started m

  -- The exit code, given what has been collected.
  unfoldable pub end_run : Outcome NodeRunEvidence × W → ℕ × W
  end_run (failed text, w) = (2, site.write_error_line text w)
  end_run (done e, w) =
      let r = site.write_stdout (codes "ok node=%s replay=%d cases=%d") w in
      elim r.0 [ done _ ↦ (0, r.1) | failed _ ↦ (2, r.1) ]

  -- Inside the temporary directory, which is removed at the end.
  unfoldable pub run_in_temp : WorkerArgs → Bytes → W → ℕ × W
  unfolding end_run
  run_in_temp cfg started w =
      let r = end_run (collect_evidence cfg started w) in (r.0, site.remove_temp r.1)

  -- Behind the arguments.
  unfoldable pub run_config : WorkerArgs → W → ℕ × W
  run_config cfg w =
      let start = site.now w in
      let temp = site.make_temp start.1 in
      elim temp.0 [
        | failed text ↦ (2, site.write_error_line (codes "create temp dir: %w") temp.1)
        | done _ ↦ run_in_temp cfg start.0 temp.1
      ]

  -- `run`
  unfoldable pub run_worker : List Bytes → W → ℕ × W
  run_worker args w = elim (parse_worker_args args) [
    | failed text ↦ (2, site.write_error_line text w)
    | done cfg ↦ run_config cfg w
  ]
