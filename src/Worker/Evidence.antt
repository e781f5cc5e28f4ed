-- ===== src/Worker/Evidence.antt =====
-- cmd/jcs-offline-worker/main.go: what a worker that ends with 0 has done.
use jcs_schubfach.Prelude.{ℕ, ◌<◌, ◌≡◌, List, Bytes}
use jcs_schubfach.Replay.Evidence.{NodeRunEvidence}
use jcs_schubfach.Replay.Outcome.{Outcome, done}
use jcs_schubfach.Replay.Run.{◌>>=◌, ◌>>◌}
use jcs_schubfach.Text.{sort_strings}
use jcs_schubfach.Worker.Arguments.{WorkerArgs, parse_worker_args}
use jcs_schubfach.Worker.Checksums.{BundleManifest}
use jcs_schubfach.Worker.Intact.{IsIntact}
use jcs_schubfach.Worker.Replayed.{LinesOf, IsReplay}
use jcs_schubfach.Worker.Run.{Site, no_digests, evidence_of}
use jcs_schubfach.Worker.Vectors.{Digests}

module _ {W : Type 0} (site : Site W) where
  -- The evidence `e` is of a replay of all vectors of the manifest, and has been written.
  pub record IsReplayEvidence (cfg : WorkerArgs) (started : Bytes) (m : BundleManifest)
      (e : NodeRunEvidence) : Type 0 where
    pub lines : List Bytes
    pub digests : Digests
    pub count : ℕ
    pub before : W
    pub after : W
    pub completed : Bytes
    pub files : LinesOf (site.host cfg.bundle_path m) (sort_strings m.vector_files) lines
    pub replay : IsReplay (site.host cfg.bundle_path m) lines no_digests digests count before after
    pub some_vector : 0 < count
    pub evidence : e ≡ evidence_of site cfg started completed digests count
    pub written :
        (v : W) × (v' : W) × ◌≡◌ {A = Outcome (Unit {0}) × W}
          (site.write_evidence cfg.evidence_path e v)
          (done tt, v')

  -- What stands behind an exit code of 0.
  pub record IsWorkerRun (args : List Bytes) : Type 0 where
    pub cfg : WorkerArgs
    pub given : parse_worker_args args ≡ done cfg
    pub started : Bytes
    pub manifest : BundleManifest
    pub intact : IsIntact (site.read_file cfg.bundle_path) site.sha256 manifest
    pub evidence : NodeRunEvidence
    pub replayed : IsReplayEvidence cfg started manifest evidence
