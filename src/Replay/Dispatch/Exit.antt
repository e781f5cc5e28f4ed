-- ===== src/Replay/Dispatch/Exit.antt =====
-- cmd/jcs-offline-replay/main.go: when the command ends with 0.
use jcs_schubfach.Prelude.{
  ℕ, ◌≡◌, ◌≢◌, ◌↔◌, inl, inr, refl, arith, Bool-cases, Option-cases, Bool, true, false, ◌||◌, some,
  List, [], ◌∷◌, Bytes, codes, equal,
}
use jcs_schubfach.Cli.{World, line, write_stderr, write_stdout, write_lines}
use jcs_schubfach.Replay.Config.{Env}
use jcs_schubfach.Replay.Dispatch.{
  Subcommand, Subcommands, find_subcommand, help_requested, replay_usage, written_or,
  unknown_subcommand, dispatch_subcommand, code_of, run_subcommand,
}
use jcs_schubfach.Replay.Outcome.{Outcome, done, failed, Outcome-cases}
use jcs_schubfach.Replay.Verify.{parse_kv_flags}

code_of-zero :
    (code : ℕ) (m : Outcome (Unit {0})) (w : World)
    → ((code_of ((code, m), w)).0 ≡ 0) ↔ ((code ≡ 0) × (m ≡ done tt))
unfolding code_of
code_of-zero code (done a) w = (λ h. (h, refl), λ h. h.0)
code_of-zero code (failed text) w = (λ h. absurd (omega (arith, h)), λ h. cc)

-- What a subcommand, or a request for help, has to do for the code 0.
pub data EndsWell (cs : Subcommands) (sub : Bytes) (flags : Env) (w : World) : Type 0 where
  helped :
      (asked : help_requested flags ≡ true)
      (listed : (write_lines write_stdout replay_usage w).0 ≡ true)
      → EndsWell cs sub flags w
  succeeded :
      {cmd : Subcommand} (not_asked : help_requested flags ≡ false)
      (found : find_subcommand cs sub ≡ some cmd) (ran : (cmd flags w).0 ≡ done tt)
      → EndsWell cs sub flags w

written_or_iff : (r : Bool × World) → ((written_or r).0 ≡ done tt) ↔ (r.0 ≡ true)
unfolding written_or
written_or_iff (true, w) = (λ h. refl, λ h. refl)
written_or_iff (false, w) = (λ h. cc, λ h. cc)

unknown_subcommand-ne-zero : (w : World) → (code_of (unknown_subcommand w)).0 ≢ 0
unfolding unknown_subcommand
unknown_subcommand-ne-zero w h =
    elim (Bool-cases (write_stderr (line (codes "error: unknown subcommand %q")) w).0) [
      | inl said ↦ absurd (two ((code_of-zero 2 _ _).0 (rw said at h)).0)
      | inr lost ↦ absurd (two ((code_of-zero 2 _ _).0 (rw lost at h)).0)
    ]
  where
    two : ◌≡◌ {A = ℕ} 2 0 → ⊥
    two e = omega (arith, e)

module _ (cs : Subcommands) (sub : Bytes) (flags : Env) (w : World) where
  EndsWell-of : (code_of (dispatch_subcommand cs sub flags w)).0 ≡ 0 → EndsWell cs sub flags w
  unfolding dispatch_subcommand
  EndsWell-of h = elim (Bool-cases (help_requested flags)) [
    | inl asked ↦ EndsWell.helped asked (
        (written_or_iff (write_lines write_stdout replay_usage w)).0
          ((code_of-zero 0 _ _).0 (rw asked at h)).1)
    | inr plain ↦ elim (Option-cases (find_subcommand cs sub)) [
      | inl missing ↦ absurd (unknown_subcommand-ne-zero w (rw missing at (rw plain at h)))
      | inr (cmd, found) ↦
          EndsWell.succeeded plain found ((code_of-zero 0 _ _).0 (rw found at (rw plain at h))).1
    ]
  ]

  EndsWell-zero : EndsWell cs sub flags w → (code_of (dispatch_subcommand cs sub flags w)).0 ≡ 0
  unfolding dispatch_subcommand
  EndsWell-zero (EndsWell.helped asked listed) = rw asked (
      (code_of-zero 0 _ _).1
        (refl, (written_or_iff (write_lines write_stdout replay_usage w)).1 listed))
  EndsWell-zero (EndsWell.succeeded plain found ran) =
      rw (plain, found) ((code_of-zero 0 _ _).1 (refl, ran))

-- With a first argument that is neither --help nor -h the command ends with 0 exactly if the flags
-- behind it can be parsed, and then either they ask for help and the usage is written, or they do not
-- and the argument is a subcommand that succeeds.
pub run_subcommand_iff :
    (cs : Subcommands) (sub : Bytes) (args : List Bytes) (w : World)
    → (equal sub (codes "--help") || equal sub (codes "-h")) ≡ false
    → ((run_subcommand cs (sub ∷ args) w).0 ≡ 0)
      ↔ ((flags : Env) × (parse_kv_flags [] args ≡ done flags) × EndsWell cs sub flags w)
unfolding run_subcommand
run_subcommand_iff cs sub args w plain = (
  λ h. elim (Outcome-cases (parse_kv_flags [] args)) [
    | inl (flags, parsed) ↦
        (flags, parsed, EndsWell-of cs sub flags w (rw parsed at (rw plain at h)))
    | inr (text, wrong) ↦ absurd (two (rw wrong at (rw plain at h)))
  ],
  λ (flags, parsed, ends). rw (plain, parsed) (EndsWell-zero cs sub flags w ends),
)
  where
    two : ◌≡◌ {A = ℕ} 2 0 → ⊥
    two e = omega (arith, e)
