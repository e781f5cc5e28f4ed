-- ===== src/Worker/Replayed.antt =====
-- cmd/jcs-offline-worker/main.go: what a replay of the vectors has run and recorded.
use mathlib.Core.Path.{ap₂, subst}
use jcs_schubfach.Text.Decimal.{itoa, IsInteger, itoa-IsInteger}
use jcs_schubfach.Prelude.{
  ℕ, ◌+◌, ◌<◌, ◌==◌, ◌≡◌, refl, ap, sym, ◌∙◌, inl, inr, Bool, false, Bool-cases, List, [], ◌∷◌,
  ◌++◌, arith, if◌then◌else◌, Bytes, codes, length, length-append, map,
}
use jcs_schubfach.Replay.Outcome.{Outcome, done, failed, fail_if, fail_if_iff, done_inj}
use jcs_schubfach.Replay.Run.{Action, lift, ◌>>=◌, ◌>>◌}
use jcs_schubfach.Replay.Run.Bundle.{act-done}
use jcs_schubfach.Text.{trim_space, sort_strings}
use jcs_schubfach.Worker.Records.{
  VectorRun, all_recorded, all_recorded-append, all_recorded-none, all_recorded-one,
}
use jcs_schubfach.Worker.Vectors.{
  VectorCase, CliResult, Digests, Host, run_cli, vector_args, assert_vector_result, record_digests,
  first_arg, is_skipped, process_vector_line, run_lines, run_vector_file, run_files, run_vectors,
}

-- A chain that begins with a result of its own.
pub lift-done :
    {W A B : Type 0} (o : Outcome A) (f : A → Action W B) (w : W) {b : B} {w' : W}
    → ◌≡◌ {A = Outcome B × W} ((lift o >>= f) w) (done b, w')
    → (a : A) × (o ≡ done a) × ◌≡◌ {A = Outcome B × W} (f a w) (done b, w')
lift-done (done a) f w h = (a, refl, h)
lift-done (failed text) f w h = cc

pub pair_parts :
    {A W : Type 0} {a b : A} {w v : W}
    → ◌≡◌ {A = Outcome A × W} (done a, w) (done b, v)
    → (a ≡ b) × (w ≡ v)
pair_parts h = (done_inj (ap (λ r. r.0) h), ap (λ r. r.1) h)

-- The lines of a file that hold vectors.
unfoldable pub vector_lines : List Bytes → List Bytes
vector_lines [] = []
vector_lines (l ∷ ls) =
    let more = vector_lines ls in if is_skipped (trim_space l) then more else trim_space l ∷ more

module _ {W : Type 0} (host : Host W) where
  -- The vectors of these lines are run one behind the other, from `w` to `v`, each with the result
  -- that it wants, and its exit code in decimal.
  pub data Replayed : List VectorRun → W → W → Type 0 where
    no_runs : {w : W} → Replayed [] w w
    next_run :
        {r : VectorRun} {rs : List VectorRun} {w u v : W}
        → host.decode r.line ≡ done r.vector
        → vector_args r.vector ≡ done r.args
        → ◌≡◌ {A = Outcome CliResult × W}
            (run_cli host r.args r.vector.input [] w)
            (done r.result, u)
        → assert_vector_result r.vector r.result ≡ done tt
        → IsInteger r.result.exit_code r.exit_text
        → Replayed rs u v
        → Replayed (r ∷ rs) w v

  -- The vector lines of files, none of which has failed to be read.
  pub data LinesOf : List Bytes → List Bytes → Type 0 where
    no_files : LinesOf [] []
    next_file :
        {rel : Bytes} {rels ls more : List Bytes}
        → host.lines rel ≡ done (ls, false)
        → LinesOf rels more
        → LinesOf (rel ∷ rels) (vector_lines ls ++ more)

  -- From `d` and `w`, the runs of these lines lead to `d'` and `w'`, and are `n`.
  pub record IsReplay (ls : List Bytes) (d d' : Digests) (n : ℕ) (w w' : W) : Type 0 where
    pub runs : List VectorRun
    pub replayed : Replayed runs w w'
    pub of_lines : map (λ r. r.line) runs ≡ ls
    pub digests : d' ≡ all_recorded d runs
    pub count : n ≡ length runs

  Replayed-append :
      {rs qs : List VectorRun} {w u v : W}
      → Replayed rs w u
      → Replayed qs u v
      → Replayed (rs ++ qs) w v
  Replayed-append no_runs k = k
  Replayed-append (next_run a b c d e h) k = next_run a b c d e (Replayed-append h k)

  IsReplay-none : (d : Digests) (w : W) → IsReplay [] d d 0 w w
  IsReplay-none d w = record {
    runs = [];
    replayed = no_runs;
    of_lines = refl;
    digests = sym (all_recorded-none d);
    count = refl;
  }

  IsReplay-append :
      {ls more : List Bytes} {d e f : Digests} {n k : ℕ} {w u v : W}
      → IsReplay ls d e n w u
      → IsReplay more e f k u v
      → IsReplay (ls ++ more) d f (n + k) w v
  IsReplay-append {d = d} a b = record {
    runs = a.runs ++ b.runs;
    replayed = Replayed-append a.replayed b.replayed;
    of_lines = map-append a.runs b.runs ∙ ap₂ ◌++◌ a.of_lines b.of_lines;
    digests =
        b.digests ∙ ap (λ x. all_recorded x b.runs) a.digests ∙ all_recorded-append d a.runs b.runs;
    count = ap₂ ◌+◌ a.count b.count ∙ sym (length-append a.runs b.runs);
  }
    where
      map-append :
          (rs qs : List VectorRun)
          → map (λ r. r.line) (rs ++ qs) ≡ map (λ r. r.line) rs ++ map (λ r. r.line) qs
      map-append [] qs = refl
      map-append (r ∷ rs) qs = ap (◌∷◌ r.line) (map-append rs qs)

  process_vector_line-done :
      (l : Bytes) (d d' : Digests) (w w' : W)
      → ◌≡◌ {A = Outcome Digests × W} (process_vector_line host l d w) (done d', w')
      → IsReplay (l ∷ []) d d' 1 w w'
  unfolding process_vector_line
  process_vector_line-done l d d' w w' h =
      let recording = λ (v : VectorCase) (args : List Bytes) (res : CliResult).
        lift {W = W} (done (record_digests v.id (first_arg args) res d)) in
      let asserting = λ (v : VectorCase) (args : List Bytes) (res : CliResult). (do
        lift (assert_vector_result v res)
        recording v args res) in
      let running = λ (v : VectorCase) (args : List Bytes). (do
        res ← run_cli host args v.input []
        asserting v args res) in
      let (v, decoded, h1) =
        lift-done (host.decode l) (λ v. (do args ← lift (vector_args v); running v args)) w h in
      let (args, given, h2) = lift-done (vector_args v) (running v) w h1 in
      let (res, u, ran, h3) = act-done (run_cli host args v.input []) (asserting v args) w h2 in
      let (_, met, h4) = lift-done (assert_vector_result v res) (λ _. recording v args res) u h3 in
      let (same, ended) = pair_parts h4 in
      let run : VectorRun = record {
        line = l;
        vector = v;
        args = args;
        result = res;
        exit_text = itoa res.exit_code;
      } in
      record {
        runs = run ∷ [];
        replayed =
            subst (Replayed (run ∷ []) w) ended
              (next_run decoded given ran met (itoa-IsInteger res.exit_code) no_runs);
        of_lines = refl;
        digests = sym same ∙ all_recorded-one d run;
        count = refl;
      }

  IsReplay-end :
      {ls : List Bytes} {d e f : Digests} {n k : ℕ} {w u v : W}
      → IsReplay ls d e n w u
      → ◌≡◌ {A = Outcome (Digests × ℕ) × W} (done (e, n), u) (done (f, k), v)
      → IsReplay ls d f k w v
  IsReplay-end {ls} {d} {w = w} a h =
      let (same, ended) = pair_parts h in
      subst (λ (x : (Digests × ℕ) × W). IsReplay ls d x.0.0 x.0.1 w x.1)
        (ap₂ (λ r v. (r, v)) same ended) a

  run_lines-done :
      (ls : List Bytes) (d d' : Digests) (n : ℕ) (w w' : W)
      → ◌≡◌ {A = Outcome (Digests × ℕ) × W} (run_lines host ls d w) (done (d', n), w')
      → IsReplay (vector_lines ls) d d' n w w'
  unfolding run_lines vector_lines
  run_lines-done [] d d' n w w' h = IsReplay-end (IsReplay-none d w) h
  run_lines-done (l ∷ ls) d d' n w w' h = elim (Bool-cases (is_skipped (trim_space l))) [
    | inl e ↦ rw e (run_lines-done ls d d' n w w' (rw (run_lines, e) at h))
    | inr e ↦
        let counting = λ (r : Digests × ℕ). lift {W = W} (done (r.0, r.1 + 1)) in
        let (d1, u, line, h1) =
          act-done (process_vector_line host (trim_space l) d)
            (λ d1. (do r ← run_lines host ls d1; counting r)) w (rw (run_lines, e) at h) in
        let ((d2, k), v, later, h2) = act-done (run_lines host ls d1) counting u h1 in
        let here = process_vector_line-done (trim_space l) d d1 w u line in
        let rest = run_lines-done ls d1 d2 k u v later in
        let one_more : 1 + k ≡ k + 1 = omega arith in
        rw e (
          IsReplay-end
            (subst (λ m. IsReplay (trim_space l ∷ vector_lines ls) d d2 m w v) one_more
              (IsReplay-append here rest))
            h2)
  ]

  run_vector_file-done :
      (rel : Bytes) (d d' : Digests) (n : ℕ) (w w' : W)
      → ◌≡◌ {A = Outcome (Digests × ℕ) × W} (run_vector_file host rel d w) (done (d', n), w')
      → (ls : List Bytes) × (host.lines rel ≡ done (ls, false))
        × IsReplay (vector_lines ls) d d' n w w'
  unfolding run_vector_file
  run_vector_file-done rel d d' n w w' h =
      let giving = λ (r : Digests × ℕ). lift {W = W} (done r) in
      let scanned = λ (bad : Bool) (r : Digests × ℕ). (do
        lift (fail_if bad (codes "scan vector %s: %w"))
        giving r) in
      let ((ls, bad), opened, h1) =
        lift-done (host.lines rel) (λ file. (do r ← run_lines host file.0 d; scanned file.1 r)) w
          h in
      let ((d1, k), u, ran, h2) = act-done (run_lines host ls d) (scanned bad) w h1 in
      let (_, good, h3) =
        lift-done (fail_if bad (codes "scan vector %s: %w")) (λ _. giving (d1, k)) u h2 in
      let whole = (fail_if_iff bad _).0 good in
      (
        ls,
        opened ∙ ap (λ b. done (ls, b)) whole,
        IsReplay-end (run_lines-done ls d d1 k w u ran) h3,
      )

  run_files-done :
      (rels : List Bytes) (d d' : Digests) (n : ℕ) (w w' : W)
      → ◌≡◌ {A = Outcome (Digests × ℕ) × W} (run_files host rels d w) (done (d', n), w')
      → (ls : List Bytes) × LinesOf rels ls × IsReplay ls d d' n w w'
  unfolding run_files
  run_files-done [] d d' n w w' h = ([], no_files, IsReplay-end (IsReplay-none d w) h)
  run_files-done (rel ∷ rels) d d' n w w' h =
      let adding = λ (r more : Digests × ℕ). lift {W = W} (done (more.0, r.1 + more.1)) in
      let ((d1, k), u, one, h1) =
        act-done (run_vector_file host rel d)
          (λ r. (do more ← run_files host rels r.0; adding r more)) w h in
      let ((d2, j), v, later, h2) = act-done (run_files host rels d1) (adding (d1, k)) u h1 in
      let (ls, opened, here) = run_vector_file-done rel d d1 k w u one in
      let (more, files, rest) = run_files-done rels d1 d2 j u v later in
      (vector_lines ls ++ more, next_file opened files, IsReplay-end (IsReplay-append here rest) h2)

  -- A replay that succeeds has read each vector file, in the order of their names, and run the vectors
  -- of their lines in order, at least one; each has had the result that it wants. The four buffers
  -- hold the records of these runs, with the exit codes in decimal, behind what they held, and the
  -- count is that of the runs.
  pub run_vectors-IsReplay :
      (files : List Bytes) (d d' : Digests) (n : ℕ) (w w' : W)
      → ◌≡◌ {A = Outcome (Digests × ℕ) × W} (run_vectors host files d w) (done (d', n), w')
      → (ls : List Bytes) × LinesOf (sort_strings files) ls × IsReplay ls d d' n w w' × (0 < n)
  unfolding run_vectors
  run_vectors-IsReplay files d d' n w w' h =
      let giving = λ (r : Digests × ℕ). lift {W = W} (done r) in
      let ((d1, k), u, ran, h1) =
        act-done (run_files host (sort_strings files) d)
          (λ r. (do lift (fail_if (r.1 == 0) (codes "no vector cases executed")); giving r)) w h in
      let (_, some_run, h2) =
        lift-done (fail_if (k == 0) (codes "no vector cases executed")) (λ _. giving (d1, k)) u
          h1 in
      let (ls, lines, replay) = run_files-done (sort_strings files) d d1 k w u ran in
      let positive = (fail_if_iff (k == 0) _).0 some_run in
      let counted : k ≡ n = ap (λ r. r.1) (pair_parts h2).0 in
      (ls, lines, IsReplay-end replay h2, ground (arith, positive, counted))
