-- ===== src/Tests/Vectors.antt =====
-- The worker on a concrete bundle: one vector file with a comment and one vector.
use jcs_schubfach.Prelude.{
  ℕ, ◌<◌, ◌≡◌, ◌↔◌, refl, false, none, some, List, [], ◌∷◌, ◌++◌, Bytes, codes, equal,
  if◌then◌else◌,
}
use jcs_schubfach.Prelude.Int.{pos}
use jcs_schubfach.Replay.Outcome.{Outcome, done, failed}
use jcs_schubfach.Tests.Offline.{runs_replays}
use jcs_schubfach.Tests.Runs.{runs_float}
use jcs_schubfach.Text.{contains, sort_strings}
use jcs_schubfach.Worker.Arguments.{
  split_equals, parse_kv, digits_value, atoi, parse_index, parse_worker_args,
}
use jcs_schubfach.Worker.Checksums.{
  BundleManifest, core_checks, get_env, file_sha256, check_file, verify_core, verify_vectors,
  verify_extracted_bundle,
}
use jcs_schubfach.Worker.Intact.{IsIntact, verify_extracted_bundle_iff}
use jcs_schubfach.Text.Decimal.{digits_before, decimal, itoa}
use jcs_schubfach.Worker.Replayed.{LinesOf, IsReplay, run_vectors-IsReplay}
use jcs_schubfach.Worker.Run.{
  Site, no_digests, replay_bundle, collect_evidence, end_run, run_in_temp, run_config, run_worker,
}
use jcs_schubfach.Worker.Vectors.{
  VectorCase, Digests, Host, succeeded, run_cli, first_contained, extract_failure_class,
  vector_args, record_digests, process_vector_line, run_lines, run_vector_file, run_files,
  run_vectors, check_environment_independence,
}

unfoldable runs_worker : Unit {0}
unfolding digits_before decimal itoa run_cli runs_replays runs_float contains split_equals parse_kv
    digits_value atoi parse_index parse_worker_args core_checks get_env file_sha256 check_file
    verify_core verify_vectors verify_extracted_bundle replay_bundle collect_evidence end_run
    run_in_temp run_config run_worker first_contained vector_args record_digests process_vector_line
    run_lines run_vector_file run_files run_vectors check_environment_independence
runs_worker = tt

class_found :
    extract_failure_class (codes "error: jcserr: DUPLICATE_KEY at byte 4") ≡ codes "DUPLICATE_KEY"
unfolding runs_worker
class_found = refl

abbrev some_vector : VectorCase
some_vector = record {
  id = codes "v1";
  mode = codes "canonicalize";
  args = [];
  input = codes "[1]";
  want_stdout = some (codes "[1]");
  want_stderr = none;
  want_stderr_contains = some [];
  want_exit = pos 0;
}

-- The world is the list of the arguments that the binary has been called with.
abbrev echo : Host (List Bytes)
echo = record {
  lines = λ rel. done (codes "# note" ∷ codes " {}" ∷ [] ∷ [], false);
  decode = λ line. if equal line (codes "{}") then done some_vector else failed (codes "no");
  execute = λ args input env w. (succeeded input [], w ++ args);
}

abbrev echoed : Digests
echoed = record {
  canonical = codes "v1\u{1f}[1]\n";
  verify = [];
  class = codes "v1\u{1f}OK\n";
  exit = codes "v1\u{1f}0\n";
}

echo_run :
    ◌≡◌ {A = Outcome (Digests × ℕ) × List Bytes}
      (run_vectors echo (codes "a" ∷ []) no_digests [])
      (done (echoed, 1), codes "canonicalize" ∷ codes "-" ∷ [])
unfolding runs_worker
echo_run = refl

run_vectors-IsReplay_example :
    (ls : List Bytes) × LinesOf echo (sort_strings (codes "a" ∷ [])) ls
    × IsReplay echo ls no_digests echoed 1 [] (codes "canonicalize" ∷ codes "-" ∷ [])
    × (0 < 1)
run_vectors-IsReplay_example =
    run_vectors-IsReplay echo (codes "a" ∷ []) no_digests echoed 1 []
      (codes "canonicalize" ∷ codes "-" ∷ []) echo_run

-- A refused input: the exit code is recorded with both its digits.
refused_recorded :
    (record_digests
      (codes "v2")
      (codes "verify")
      (record {
        exit_code = pos 10;
        stdout = [];
        stderr = codes "error: jcserr: DUPLICATE_KEY at byte 4";
      })
      no_digests)
    ≡ record {
      canonical = [];
      verify = codes "v2\u{1f}10\u{1f}\u{1f}error: jcserr: DUPLICATE_KEY at byte 4\n";
      class = codes "v2\u{1f}DUPLICATE_KEY\n";
      exit = codes "v2\u{1f}10\n";
    }
unfolding runs_worker
refused_recorded = refl

abbrev marked : Bytes → Bytes
marked s = codes "h" ++ s

abbrev manifest : BundleManifest
manifest = record {
  binary_path = codes "bin";
  binary_sha256 = codes "hbin";
  worker_path = codes "worker";
  worker_sha256 = codes "hworker";
  matrix_path = codes "matrix";
  matrix_sha256 = codes "hmatrix";
  profile_path = codes "profile";
  profile_sha256 = codes "hprofile";
  vector_files = codes "a" ∷ [];
  vector_sha256 = (codes "a", codes "ha") ∷ [];
  vector_set_sha256 = codes "ha:ha";
}

manifest_accepted : verify_extracted_bundle (λ path. done path) marked manifest ≡ done tt
unfolding runs_worker
manifest_accepted = refl

-- A path named twice is checked against its later digest only.
manifest_shadowed :
    verify_extracted_bundle
      (λ path. done path)
      marked
      (record manifest {
        worker_path = codes "bin";
        worker_sha256 = codes "hbin";
        binary_sha256 = codes "x";
      })
    ≡ done tt
unfolding runs_worker
manifest_shadowed = refl

verify_extracted_bundle_iff_example :
    (verify_extracted_bundle (λ path. done path) marked manifest ≡ done tt)
    ↔ IsIntact (λ path. done path) marked manifest
verify_extracted_bundle_iff_example =
    verify_extracted_bundle_iff (λ path. done path) marked manifest

abbrev quiet_site : Site (List Bytes)
quiet_site = record {
  now = λ w. (codes "t", w);
  make_temp = λ w. (done tt, w);
  remove_temp = λ w. w;
  extract_bundle = λ path w. (done manifest, w);
  read_file = λ bundle path. done path;
  sha256 = marked;
  session = λ node start. node;
  host = λ bundle m. echo;
  write_evidence = λ path e w. (done tt, w);
  write_stdout = λ text w. (done tt, w);
  write_error_line = λ text w. w;
}

abbrev worker_arguments : List Bytes
worker_arguments =
    codes "--bundle=b"
    ∷ codes "--evidence"
    ∷ codes "e"
    ∷ codes "--node-id=vm-1"
    ∷ codes "--mode=vm"
    ∷ codes "--distro=debian"
    ∷ codes "--kernel-family=linux"
    ∷ codes "--replay-index=2"
    ∷ []
