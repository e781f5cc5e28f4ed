-- ===== src/Worker/Arguments.antt =====
-- cmd/jcs-offline-worker/main.go: the arguments of the worker.
use jcs_schubfach.Prelude.{
  ℕ, zero, suc, ◌+◌, ◌*◌, ◌-◌, ◌==◌, ltb, Bool, false, not, ◌||◌, Option, none, some, List, [], ◌∷◌,
  if◌then◌else◌, Bytes, codes,
}
use jcs_schubfach.Prelude.Int.{ℤ, pos, negsuc, ltb_ℤ}
use jcs_schubfach.Replay.Config.{Env, is_empty}
use jcs_schubfach.Replay.Outcome.{Outcome, done, failed, fail_if, ◌>>=◌, ◌>>◌}
use jcs_schubfach.Replay.Run.{set_env}
use jcs_schubfach.Text.{trim_space, has_prefix}
use jcs_schubfach.Unicode.Utf8.{in_range}
use jcs_schubfach.Worker.Checksums.{get_env}

-- `workerArgs`
pub record WorkerArgs : Type 0 where
  pub bundle_path : Bytes
  pub evidence_path : Bytes
  pub node_id : Bytes
  pub mode : Bytes
  pub distro : Bytes
  pub kernel_family : Bytes
  pub replay_index : ℤ

-- `strings.SplitN(arg, "=", 2)`, if there is a `=`.
unfoldable pub split_equals : Bytes → Option (Bytes × Bytes)
split_equals [] = none
split_equals (b ∷ s) =
    let more = split_equals s in
    if b == b'=' then some ([], s) else elim more [ none ↦ none | some p ↦ some (b ∷ p.0, p.1) ]

-- How the loop of `parseKV` takes an argument.
pub data Flag : Type 0 where
  not_a_flag : Flag
  assigned : Bytes → Bytes → Flag
  with_value : Flag

abbrev pub flag_of : Bytes → Flag
flag_of arg =
    if not (has_prefix (codes "--") arg)
    then not_a_flag
    else elim (split_equals arg) [ none ↦ with_value | some p ↦ assigned p.0 p.1 ]

abbrev unexpected : Outcome Env
unexpected = failed (codes "unexpected argument %q")

-- `parseKV`, given the flags before.
unfoldable pub parse_kv : Env → List Bytes → Outcome Env
parse_kv flags [] = done flags
parse_kv flags (arg ∷ []) = elim (flag_of arg) [
  | not_a_flag ↦ unexpected
  | assigned k v ↦ done (set_env k v flags)
  | with_value ↦ failed (codes "flag %s requires value")
]
parse_kv flags (arg ∷ next ∷ rest) = elim (flag_of arg) [
  | not_a_flag ↦ unexpected
  | assigned k v ↦ parse_kv (set_env k v flags) (next ∷ rest)
  | with_value ↦ parse_kv (set_env arg next flags) rest
]

-- Decimal digits behind the value `n`.
unfoldable pub digits_value : ℕ → Bytes → Option ℕ
digits_value n [] = some n
digits_value n (c ∷ s) =
    let more = digits_value (n * 10 + (c - b'0')) s in if in_range b'0' b'9' c then more else none

abbrev pub unsigned_value : Bytes → Option ℕ
unsigned_value [] = none
unsigned_value (c ∷ s) = digits_value 0 (c ∷ s)

abbrev positive_int : Bytes → Option ℤ
positive_int s = elim (unsigned_value s) [
  | none ↦ none
  | some n ↦ if ltb 0x7FFFFFFFFFFFFFFF n then none else some (pos n)
]

abbrev negated : ℕ → ℤ
negated zero = pos 0
negated (suc n) = negsuc n

abbrev negative_int : Bytes → Option ℤ
negative_int s = elim (unsigned_value s) [
  | none ↦ none
  | some n ↦ if ltb 0x8000000000000000 n then none else some (negated n)
]

-- `strconv.Atoi`, for a 64-bit `int`.
unfoldable pub atoi : Bytes → Option ℤ
atoi [] = none
atoi (c ∷ s) =
    if c == b'-' then negative_int s else if c == b'+' then positive_int s else positive_int (c ∷ s)

-- The values that `validateRequiredWorkerFlags` asks for.
abbrev pub any_empty : List Bytes → Bool
any_empty [] = false
any_empty (s ∷ ss) = is_empty s || any_empty ss

abbrev pub flag_value : Env → Bytes → Bytes
flag_value flags name = trim_space (get_env flags name)

abbrev pub required_values : Env → List Bytes
required_values flags =
    flag_value flags (codes "--bundle")
    ∷ flag_value flags (codes "--evidence")
    ∷ flag_value flags (codes "--node-id")
    ∷ flag_value flags (codes "--mode")
    ∷ flag_value flags (codes "--distro")
    ∷ flag_value flags (codes "--kernel-family")
    ∷ flag_value flags (codes "--replay-index")
    ∷ []

-- `strconv.Atoi`, and the test behind it.
unfoldable pub parse_index : Bytes → Outcome ℤ
unfolding atoi
parse_index text = elim (atoi text) [
  | none ↦ failed (codes "invalid --replay-index %q")
  | some i ↦ if ltb_ℤ i (pos 1) then failed (codes "invalid --replay-index %q") else done i
]

-- `parseWorkerArgs`
unfoldable pub parse_worker_args : List Bytes → Outcome WorkerArgs
parse_worker_args args = do
  flags ← parse_kv [] args
  fail_if (any_empty (required_values flags)) (
      codes
        "required flags: --bundle --evidence --node-id --mode --distro --kernel-family --replay-index")
  i ← parse_index (flag_value flags (codes "--replay-index"))
  done (record {
    bundle_path = flag_value flags (codes "--bundle");
    evidence_path = flag_value flags (codes "--evidence");
    node_id = flag_value flags (codes "--node-id");
    mode = flag_value flags (codes "--mode");
    distro = flag_value flags (codes "--distro");
    kernel_family = flag_value flags (codes "--kernel-family");
    replay_index = i;
  })
