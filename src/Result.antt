-- ===== src/Result.antt =====
-- The outcome of a fallible operation: `(value, nil)` or `(nil, error)` in Go.
-- `out_of_fuel` has no counterpart in the program.
use mathlib.Core.Path.{subst}
use jcs_schubfach.Prelude.{◌≡◌, ◌≢◌, refl, Bool, true, false, if◌then◌else◌}
use jcs_schubfach.Prelude.Int.{ℤ}
use jcs_schubfach.Jcserr.{Error, new, FailureClass}

pub data Result {ℓ} (A : Type ℓ) : Type ℓ where
  ok : A → Result A
  err : Error → Result A
  out_of_fuel : Result A

infixl 5 ◌>>=◌ ◌>>◌
abbrev pub ◌>>=◌ {ℓ κ} : {A : Type ℓ} {B : Type κ} → Result A → (A → Result B) → Result B
out_of_fuel >>= next = out_of_fuel
err e >>= next = err e
ok v >>= next = next v

abbrev pub ◌>>◌ {ℓ} : {B : Type ℓ} → Result (Unit {0}) → Result B → Result B
m >> k = m >>= λ _. k

-- `jcserr.New(class, offset, …)` as a failed outcome.
abbrev pub fail {ℓ} : {A : Type ℓ} → FailureClass → ℤ → Result A
fail c o = err (new c o)

-- `if test { return nil, err }`
unfoldable pub reject_if : Bool → Error → Result (Unit {0})
reject_if true e = err e
reject_if false e = ok tt

-- What a chain that gives a result has gone through.
pub bind-eq-ok {ℓ κ} :
    {A : Type ℓ} {B : Type κ} (r : Result A) (next : A → Result B) {out : B}
    → (r >>= next) ≡ ok out
    → (v : A) × (r ≡ ok v) × (next v ≡ ok out)
bind-eq-ok out_of_fuel next e = cc
bind-eq-ok (err _) next e = cc
bind-eq-ok (ok v) next e = (v, refl, e)

-- Behind a test that fails.
pub unless-eq-ok {ℓ} :
    {A : Type ℓ} (b : Bool) (c : FailureClass) (o : ℤ) (r : Result A) {a : A}
    → (if b then fail c o else r) ≡ ok a
    → (b ≡ false) × (r ≡ ok a)
unless-eq-ok true c o r e = cc
unless-eq-ok false c o r e = (refl, e)

pub ok_inj {ℓ} : {A : Type ℓ} {a b : A} → ok a ≡ ok b → a ≡ b
ok_inj e = cc

pub fail-ok {ℓ} : {A : Type ℓ} {c : FailureClass} {o : ℤ} {a : A} → fail c o ≡ ok a → ⊥
fail-ok e = cc

-- A run that kept within its fuel, with `P` for its value if it has one.
pub data Ensures {ℓ κ} {A : Type ℓ} (P : A → Type κ) : Result A → Type (ℓ ⊔ κ) where
  holds : {a : A} (kept : P a) → Ensures P (ok a)
  rejected : {e : Error} → Ensures P (err e)

module _ {ℓ κ} {A : Type ℓ} {P : A → Type κ} where
  pub Ensures-map {κ'} :
      {Q : A → Type κ'} {r : Result A} → Ensures P r → ((a : A) → P a → Q a) → Ensures Q r
  Ensures-map (holds {a} h) k = holds (k a h)
  Ensures-map rejected k = rejected

  pub Ensures-if :
      (b : Bool) {x y : Result A}
      → (b ≡ true → Ensures P x)
      → (b ≡ false → Ensures P y)
      → Ensures P (if b then x else y)
  Ensures-if true yes_case no_case = yes_case refl
  Ensures-if false yes_case no_case = no_case refl

  pub Ensures-out_of_fuel : {r : Result A} → Ensures P r → r ≢ out_of_fuel
  Ensures-out_of_fuel (holds h) = cc
  Ensures-out_of_fuel rejected = cc

  pub Ensures-bind {ℓ' κ'} :
      {B : Type ℓ'} {Q : B → Type κ'} {f : A → Result B} {r : Result A}
      → Ensures P r
      → ((a : A) → P a → Ensures Q (f a))
      → Ensures Q (r >>= f)
  Ensures-bind (holds {a} kept) next = next a kept
  Ensures-bind rejected next = rejected

  pub Ensures-ok : {a : A} {r : Result A} → Ensures P r → r ≡ ok a → P a
  Ensures-ok (holds kept) e = subst P (cc) kept
  Ensures-ok rejected e = cc

  pub Ensures-of : (r : Result A) → r ≢ out_of_fuel → ((a : A) → r ≡ ok a → P a) → Ensures P r
  Ensures-of (ok a) total k = holds (k a refl)
  Ensures-of (err e) total k = rejected
  Ensures-of out_of_fuel total k = absurd (total refl)

-- A guard in front of the rest of a block.
pub Ensures-reject {κ} :
    {A : Type 0} {P : A → Type κ} (b : Bool) (e : Error) {r : Result A}
    → (b ≡ false → Ensures P r)
    → Ensures P (reject_if b e >> r)
unfolding reject_if
Ensures-reject true e k = rejected
Ensures-reject false e k = k refl

pub Ensures-guard : (b : Bool) (e : Error) → Ensures (λ _. b ≡ false) (reject_if b e)
unfolding reject_if
Ensures-guard true e = rejected
Ensures-guard false e = holds refl

-- Behind a guard that a successful run has passed.
pub reject-eq-ok {ℓ} :
    {A : Type ℓ} (b : Bool) (e : Error) (r : Result A) {a : A}
    → (reject_if b e >>= λ _. r) ≡ ok a
    → (b ≡ false) × (r ≡ ok a)
unfolding reject_if
reject-eq-ok true e r h = cc
reject-eq-ok false e r h = (refl, h)

-- `P` for the value of a run that has one; nothing of a run that failed or ran out of fuel.
pub data WhenOk {ℓ κ} {A : Type ℓ} (P : A → Type κ) : Result A → Type (ℓ ⊔ κ) where
  gives : {a : A} (kept : P a) → WhenOk P (ok a)
  failed : {e : Error} → WhenOk P (err e)
  starved : WhenOk P out_of_fuel

module _ {ℓ κ} {A : Type ℓ} {P : A → Type κ} where
  pub WhenOk-ok : {a : A} {r : Result A} → WhenOk P r → r ≡ ok a → P a
  WhenOk-ok (gives kept) e = subst P (cc) kept
  WhenOk-ok failed e = cc
  WhenOk-ok starved e = cc

  pub WhenOk-Ensures : {r : Result A} → Ensures P r → WhenOk P r
  WhenOk-Ensures (holds kept) = gives kept
  WhenOk-Ensures rejected = failed

  pub WhenOk-if :
      (b : Bool) {x y : Result A} → WhenOk P x → WhenOk P y → WhenOk P (if b then x else y)
  WhenOk-if true h k = h
  WhenOk-if false h k = k

  pub WhenOk-map {κ'} :
      {Q : A → Type κ'} {r : Result A} → WhenOk P r → ((a : A) → P a → Q a) → WhenOk Q r
  WhenOk-map (gives {a} kept) k = gives (k a kept)
  WhenOk-map failed k = failed
  WhenOk-map starved k = starved

  pub WhenOk-bind {ℓ' κ'} :
      {B : Type ℓ'} {Q : B → Type κ'} {f : A → Result B} {r : Result A}
      → WhenOk P r
      → ((a : A) → P a → WhenOk Q (f a))
      → WhenOk Q (r >>= f)
  WhenOk-bind (gives {a} kept) next = next a kept
  WhenOk-bind failed next = failed
  WhenOk-bind starved next = starved
