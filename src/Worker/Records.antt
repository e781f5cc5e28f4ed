-- ===== src/Worker/Records.antt =====
-- cmd/jcs-offline-worker/main.go: what the replays of vectors leave in the four buffers.
use jcs_schubfach.Text.Decimal.{itoa}
use jcs_schubfach.Prelude.{
  ◌≡◌, refl, ap, sym, ◌∙◌, inl, inr, Bool, true, Bool-cases, List, [], ◌∷◌, ◌++◌, append_assoc,
  append-nil, if◌then◌else◌, Bytes, codes, equal,
}
use jcs_schubfach.Text.{join}
use jcs_schubfach.Worker.Vectors.{
  VectorCase, CliResult, Digests, class_token, record_digests, first_arg,
}

-- A vector that has been run: its line, and what it is, its arguments and its result, with the text
-- of its exit code.
pub record VectorRun : Type 0 where
  pub line : Bytes
  pub vector : VectorCase
  pub args : List Bytes
  pub result : CliResult
  pub exit_text : Bytes

-- The parts of a record, with the unit separator between them and a line feed behind them.
abbrev record_text : List Bytes → Bytes
record_text parts = join (0x1F ∷ []) parts ++ b'\n' ∷ []

-- What the runs that pass the test leave in a buffer, one record behind the other.
unfoldable pub recorded : (VectorRun → Bool) → (VectorRun → List Bytes) → List VectorRun → Bytes
recorded test parts [] = []
recorded test parts (r ∷ rs) =
    let more = recorded test parts rs in if test r then record_text (parts r) ++ more else more

abbrev pub in_mode : Bytes → VectorRun → Bool
in_mode mode r = equal (first_arg r.args) mode

abbrev pub each : VectorRun → Bool
each r = true

abbrev pub canonical_parts : VectorRun → List Bytes
canonical_parts r = r.vector.id ∷ r.result.stdout ∷ []

abbrev pub verify_parts : VectorRun → List Bytes
verify_parts r = r.vector.id ∷ r.exit_text ∷ r.result.stdout ∷ r.result.stderr ∷ []

abbrev pub class_parts : VectorRun → List Bytes
class_parts r = r.vector.id ∷ class_token r.result ∷ []

abbrev pub exit_parts : VectorRun → List Bytes
exit_parts r = r.vector.id ∷ r.exit_text ∷ []

abbrev pub all_recorded : Digests → List VectorRun → Digests
all_recorded d rs = record {
  canonical = d.canonical ++ recorded (in_mode (codes "canonicalize")) canonical_parts rs;
  verify = d.verify ++ recorded (in_mode (codes "verify")) verify_parts rs;
  class = d.class ++ recorded each class_parts rs;
  exit = d.exit ++ recorded each exit_parts rs;
}

module _ (test : VectorRun → Bool) (parts : VectorRun → List Bytes) where
  recorded-append :
      (rs qs : List VectorRun)
      → recorded test parts (rs ++ qs) ≡ recorded test parts rs ++ recorded test parts qs
  unfolding recorded
  recorded-append [] qs = refl
  recorded-append (r ∷ rs) qs = elim (Bool-cases (test r)) [
    | inr e ↦ rw e (recorded-append rs qs)
    | inl e ↦ rw e (
        ap (λ t. record_text (parts r) ++ t) (recorded-append rs qs)
        ∙ sym (append_assoc (record_text (parts r)) (recorded test parts rs) _))
  ]

  recorded-behind :
      (b : Bytes) (rs qs : List VectorRun)
      → (b ++ recorded test parts rs) ++ recorded test parts qs
        ≡ b ++ recorded test parts (rs ++ qs)
  recorded-behind b rs qs =
      append_assoc b (recorded test parts rs) (recorded test parts qs)
      ∙ ap (λ t. b ++ t) (sym (recorded-append rs qs))

  recorded-one :
      (b : Bytes) (r : VectorRun)
      → (if test r then b ++ record_text (parts r) else b) ≡ b ++ recorded test parts (r ∷ [])
  unfolding recorded
  recorded-one b r = elim (Bool-cases (test r)) [
    | inr e ↦ rw e (sym (append-nil b))
    | inl e ↦ rw e (ap (λ t. b ++ t) (sym (append-nil (record_text (parts r)))))
  ]

pub all_recorded-append :
    (d : Digests) (rs qs : List VectorRun)
    → all_recorded (all_recorded d rs) qs ≡ all_recorded d (rs ++ qs)
all_recorded-append d rs qs = λ i. record {
  canonical = recorded-behind (in_mode (codes "canonicalize")) canonical_parts d.canonical rs qs i;
  verify = recorded-behind (in_mode (codes "verify")) verify_parts d.verify rs qs i;
  class = recorded-behind each class_parts d.class rs qs i;
  exit = recorded-behind each exit_parts d.exit rs qs i;
}

pub all_recorded-none : (d : Digests) → all_recorded d [] ≡ d
unfolding recorded
all_recorded-none d = λ i. record {
  canonical = append-nil d.canonical i;
  verify = append-nil d.verify i;
  class = append-nil d.class i;
  exit = append-nil d.exit i;
}

pub all_recorded-one :
    (d : Digests) (r : VectorRun)
    → record_digests r.vector.id (first_arg r.args) r.result d
      ≡ all_recorded d ((record r { exit_text = itoa r.result.exit_code }) ∷ [])
unfolding record_digests
all_recorded-one d r' =
    let r = record r' { exit_text = itoa r'.result.exit_code } in
    λ i. record {
      canonical = recorded-one (in_mode (codes "canonicalize")) canonical_parts d.canonical r i;
      verify = recorded-one (in_mode (codes "verify")) verify_parts d.verify r i;
      class = recorded-one each class_parts d.class r i;
      exit = recorded-one each exit_parts d.exit r i;
    }
