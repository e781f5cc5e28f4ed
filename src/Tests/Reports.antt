-- ===== src/Tests/Reports.antt =====
-- Reports and the verification of evidence on concrete inputs.
use jcs_schubfach.Prelude.{
  ◌≡◌, ◌↔◌, ◌||◌, refl, true, false, none, List, [], ◌∷◌, Bytes, codes, All, equal,
}
use jcs_schubfach.Replay.Audit.{result_pass, build_audit_summary, build_cross_arch_report}
use jcs_schubfach.Replay.Audit.Passed.{
  build_cross_arch_report_iff, build_audit_summary-validate_evidence_bundle,
}
use jcs_schubfach.Replay.Config.{Env}
use jcs_schubfach.Replay.Config.Required.{wanted}
use jcs_schubfach.Replay.Evidence.Attested.{aggregate_digests}
use jcs_schubfach.Cli.{World}
use jcs_schubfach.Replay.Dispatch.{
  Subcommands, find_subcommand, help_requested, dispatch_subcommand, code_of, run_subcommand,
}
use jcs_schubfach.Replay.Dispatch.Exit.{EndsWell, run_subcommand_iff}
use jcs_schubfach.Replay.Outcome.{done, failed}
use jcs_schubfach.Replay.Run.{run_expectations}
use jcs_schubfach.Replay.Verify.{
  Files, flag_arg_of, parse_kv_flags, wrapped, digest_of_file, load_verification_digests,
  cmd_verify_evidence,
}
use jcs_schubfach.Replay.Verify.Verified.{IsVerified, cmd_verify_evidence-IsVerified}
use jcs_schubfach.Tests.Offline.{
  runs_evidence, runs_replays, some_digest, two_nodes, one_replay, options, sealed, sealed_accepted,
}
use jcs_schubfach.Text.{has}
use jcs_schubfach.Worker.Arguments.{split_equals}
use jcs_schubfach.Worker.Checksums.{get_env}

build_cross_arch_report_iff_example :
    ((build_cross_arch_report sealed
        (record sealed { aggregate_verify = codes "0" })
        (codes "x")
        (codes "a")
        (codes "now")).result
      ≡ result_pass)
    ↔ (aggregate_digests sealed
        ≡ aggregate_digests (record sealed { aggregate_verify = codes "0" }))
build_cross_arch_report_iff_example =
    build_cross_arch_report_iff sealed (record sealed { aggregate_verify = codes "0" }) (codes "x")
      (codes "a") (codes "now")

sealed_wanted : All (λ r. has r.node_id (wanted two_nodes one_replay) ≡ true) sealed.node_replays
unfolding runs_evidence
sealed_wanted = (refl, (refl, tt))

build_audit_summary-validate_evidence_bundle_example :
    ((build_audit_summary sealed (codes "m") (codes "p") (codes "e") (codes "now")).result
      ≡ result_pass)
    × ((build_audit_summary sealed (codes "m") (codes "p") (codes "e") (codes "now")).digest_sets
        ≡ (codes "canonical_unique", some_digest ∷ [])
          ∷ (codes "verify_unique", some_digest ∷ [])
          ∷ (codes "failure_class_unique", some_digest ∷ [])
          ∷ (codes "exit_code_unique", some_digest ∷ [])
          ∷ [])
build_audit_summary-validate_evidence_bundle_example =
    build_audit_summary-validate_evidence_bundle sealed two_nodes one_replay
      (run_expectations two_nodes options) (codes "m") (codes "p") (codes "e") (codes "now")
      sealed_accepted sealed_wanted

abbrev verify_args : List Bytes
verify_args =
    codes "--matrix=m"
    ∷ codes "--profile"
    ∷ codes "p"
    ∷ codes "--strict"
    ∷ codes "--evidence"
    ∷ codes "runs/e"
    ∷ []

abbrev verify_flags : Env
verify_flags =
    (codes "--matrix", codes "m")
    ∷ (codes "--profile", codes "p")
    ∷ (codes "--strict", codes "true")
    ∷ (codes "--evidence", codes "runs/e")
    ∷ []

unfoldable runs_verify : Unit {0}
unfolding runs_replays split_equals get_env flag_arg_of parse_kv_flags wrapped digest_of_file
    load_verification_digests cmd_verify_evidence
runs_verify = tt

verify_args_parsed : parse_kv_flags [] verify_args ≡ done verify_flags
unfolding runs_verify
verify_args_parsed = refl

-- All files have the same digest.
abbrev files : Files
files = record {
  read_file = λ path. done path;
  sha256 = λ bytes. some_digest;
  dir = λ path. path;
  join_path = λ parts. [];
  lookup_env = λ name. none;
  load_matrix = λ path. done two_nodes;
  load_profile = λ path. done one_replay;
  load_evidence = λ path. done sealed;
  write_line = λ text. done tt;
}

evidence_accepted : cmd_verify_evidence files verify_flags ≡ done tt
unfolding runs_verify
evidence_accepted = refl

flags_wanting :
    cmd_verify_evidence files []
    ≡ failed (codes "verify-evidence requires --matrix, --profile, --evidence")
unfolding runs_verify
flags_wanting = refl

cmd_verify_evidence-IsVerified_example : IsVerified files verify_flags
cmd_verify_evidence-IsVerified_example =
    cmd_verify_evidence-IsVerified files verify_flags (λ s e. cc e) evidence_accepted

-- Each subcommand does nothing and succeeds, but verify-evidence.
abbrev idle_subcommands : Subcommands
idle_subcommands = record {
  prepare = λ flags w. (done tt, w);
  run_matrix = λ flags w. (done tt, w);
  preflight = λ flags w. (done tt, w);
  audit_summary = λ flags w. (done tt, w);
  run_suite = λ flags w. (done tt, w);
  cross_arch = λ flags w. (done tt, w);
  verify_evidence = λ flags w. (cmd_verify_evidence files flags, w);
  report = λ flags w. (done tt, w);
  inspect_matrix = λ flags w. (done tt, w);
}

abbrev silent : World
silent = record {
  stdout = record { written = []; coming = [] };
  stderr = record { written = []; coming = [] };
}

verify_ends : (run_subcommand idle_subcommands (codes "verify-evidence" ∷ verify_args) silent).0 ≡ 0
unfolding runs_verify find_subcommand help_requested dispatch_subcommand code_of run_subcommand
verify_ends = refl

no_help :
    (equal (codes "verify-evidence") (codes "--help")
      || equal (codes "verify-evidence") (codes "-h"))
    ≡ false
unfolding equal
no_help = refl

run_subcommand_iff_example :
    ((run_subcommand idle_subcommands (codes "verify-evidence" ∷ verify_args) silent).0 ≡ 0) ↔ (
      (flags : Env) × (parse_kv_flags [] verify_args ≡ done flags)
      × EndsWell idle_subcommands (codes "verify-evidence") flags silent)
run_subcommand_iff_example =
    run_subcommand_iff idle_subcommands (codes "verify-evidence") verify_args silent no_help
