-- ===== src/Replay/Outcome.antt =====
-- The outcome of a check or an operation below offline/: an error is the format of its message.
use jcs_schubfach.Prelude.{
  ◌≡◌, refl, ◌↔◌, ◌⊎◌, inl, inr, Bool, true, false, List, [], ◌∷◌, Bytes, All, if◌then◌else◌,
}

pub data Outcome (A : Type 0) : Type 0 where
  done : A → Outcome A
  failed : Bytes → Outcome A

infixl 5 ◌>>=◌ ◌>>◌
abbrev pub ◌>>=◌ : {A B : Type 0} → Outcome A → (A → Outcome B) → Outcome B
failed text >>= step = failed text
done a >>= step = step a

abbrev pub ◌>>◌ : {B : Type 0} → Outcome (Unit {0}) → Outcome B → Outcome B
m >> step = m >>= λ _. step

-- `if test { return fmt.Errorf(text, …) }`
unfoldable pub fail_if : Bool → Bytes → Outcome (Unit {0})
fail_if test text = if test then failed text else done tt

abbrev pub Check : Type 0
Check = Bool × Bytes

-- Such tests one behind the other.
unfoldable pub run_checks : List Check → Outcome (Unit {0})
unfolding fail_if
run_checks [] = done tt
run_checks (c ∷ cs) = do fail_if c.0 c.1; run_checks cs

abbrev pub Passes : Check → Type 0
Passes c = c.0 ≡ false

pub fail_if_iff : (b : Bool) (text : Bytes) → (fail_if b text ≡ done tt) ↔ (b ≡ false)
unfolding fail_if
fail_if_iff true text = (λ h. cc, λ h. cc)
fail_if_iff false text = (λ h. refl, λ h. refl)

pub run_checks_iff : (cs : List Check) → (run_checks cs ≡ done tt) ↔ All Passes cs
unfolding run_checks fail_if
run_checks_iff [] = (λ h. tt, λ h. refl)
run_checks_iff ((true, text) ∷ cs) = (λ h. cc, λ h. cc)
run_checks_iff ((false, text) ∷ cs) =
    (λ h. (refl, (run_checks_iff cs).0 h), λ h. (run_checks_iff cs).1 h.1)

-- A chain that succeeds has gone through each of its steps.
pub chain-done :
    {A B : Type 0} (m : Outcome A) (step : A → Outcome B) {b : B}
    → (m >>= step) ≡ done b
    → (a : A) × (m ≡ done a) × (step a ≡ done b)
chain-done (done a) step h = (a, refl, h)
chain-done (failed text) step h = cc

pub then_iff : (m n : Outcome (Unit {0})) → ((m >> n) ≡ done tt) ↔ ((m ≡ done tt) × (n ≡ done tt))
then_iff (done a) n = (λ h. (refl, h), λ h. h.1)
then_iff (failed text) n = (λ h. cc, λ h. cc)

pub done_inj : {A : Type 0} {a b : A} → done a ≡ done b → a ≡ b
done_inj h = cc

pub Outcome-cases :
    {A : Type 0} (m : Outcome A) → ((a : A) × (m ≡ done a)) ⊎ ((text : Bytes) × (m ≡ failed text))
Outcome-cases (done a) = inl (a, refl)
Outcome-cases (failed text) = inr (text, refl)
