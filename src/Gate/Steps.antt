-- ===== src/Gate/Steps.antt =====
-- cmd/jcs-gate/main.go: when the gates pass.
use jcs_schubfach.Prelude.{
  ℕ, ◌+◌, ◌≡◌, ◌↔◌, refl, ap, inl, inr, Bool, true, Bool-cases, List, [], ◌∷◌, arith,
}
use jcs_schubfach.Cli.{World, write_stdout}
use jcs_schubfach.Gate.{
  GateStep, CommandRunner, required_gate_steps, step_line, all_passed, run_steps, run_gate,
}

-- One gate passes: it is announced, and its command succeeds.
pub record Passed (runner : CommandRunner) (i : ℕ) (s : GateStep) (w v : World) : Type 0 where
  pub announced : (write_stdout (step_line i s) w).0 ≡ true
  pub succeeded :
      ◌≡◌ {A = Bool × World} (runner s.args (write_stdout (step_line i s) w).1) (true, v)

-- All of these pass in order, from `w` to `v`.
pub data AllPassed (runner : CommandRunner) : ℕ → List GateStep → World → World → Type 0 where
  no_more : (i : ℕ) (w : World) → AllPassed runner i [] w w
  one_more :
      {i : ℕ} {s : GateStep} {ss : List GateStep} {w v u : World}
      → Passed runner i s w v
      → AllPassed runner (i + 1) ss v u
      → AllPassed runner i (s ∷ ss) w u

-- The gates have passed, and the program has said so.
abbrev pub SucceedsFrom : CommandRunner → ℕ → List GateStep → World → Type 0
SucceedsFrom runner i ss w =
    (v : World) × AllPassed runner i ss w v × ((write_stdout all_passed v).0 ≡ true)

run_steps_sound :
    (runner : CommandRunner) (i : ℕ) (ss : List GateStep) (w : World)
    → (run_steps runner i ss w).0 ≡ 0
    → SucceedsFrom runner i ss w
unfolding run_steps
run_steps_sound runner i [] w h = elim (Bool-cases (write_stdout all_passed w).0) [
  | inl e ↦ (w, no_more i w, e)
  | inr e ↦ ground arith
]
run_steps_sound runner i (s ∷ ss) w h = elim (Bool-cases (write_stdout (step_line i s) w).0) [
  | inr e ↦ ground arith
  | inl e ↦ elim (Bool-cases (runner s.args (write_stdout (step_line i s) w).1).0) [
    | inr f ↦ ground arith
    | inl f ↦
        let (v, passed, end) =
          run_steps_sound runner (i + 1) ss (runner s.args (write_stdout (step_line i s) w).1).1
            (rw (e, f) at h) in
        (
          v,
          one_more
              (record {
                announced = e;
                succeeded =
                    ap (λ ran. (ran, (runner s.args (write_stdout (step_line i s) w).1).1)) f;
              })
              passed,
          end,
        )
  ]
]

run_steps_complete :
    (runner : CommandRunner) (i : ℕ) (ss : List GateStep) (w v : World)
    → AllPassed runner i ss w v
    → (write_stdout all_passed v).0 ≡ true
    → (run_steps runner i ss w).0 ≡ 0
unfolding run_steps
run_steps_complete runner i [] w v (no_more _ _) h = rw h refl
run_steps_complete runner i (s ∷ ss) w v (one_more p later) h =
    rw (p.announced, p.succeeded) (run_steps_complete runner (i + 1) ss _ v later h)

-- Without arguments the command ends with 0 exactly if the required gates are announced and pass, one
-- behind the other in their order, and the success is written.
pub run_gate_iff :
    (runner : CommandRunner) (w : World)
    → ((run_gate [] runner w).0 ≡ 0) ↔ SucceedsFrom runner 1 required_gate_steps w
unfolding run_gate
run_gate_iff runner w = (
  run_steps_sound runner 1 required_gate_steps w,
  λ (v, passed, end). run_steps_complete runner 1 required_gate_steps w v passed end,
)
