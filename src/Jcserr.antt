-- ===== src/Jcserr.antt =====
-- jcserr/errors.go: the failure taxonomy, its exit codes, and structured errors.
-- The text of a message is left out: the class and the offset are the contract.
use jcs_schubfach.Prelude.{ℕ, Option, none, some}
use jcs_schubfach.Prelude.Int.{ℤ}

-- `FailureClass`
pub data FailureClass : Type 0 where
  invalid_utf8 invalid_grammar duplicate_key lone_surrogate noncharacter : FailureClass
  number_overflow number_neg_zero number_underflow bound_exceeded : FailureClass
  not_canonical cli_usage internal_io internal_error : FailureClass

-- `ExitCode`
unfoldable pub exit_code : FailureClass → ℕ
exit_code internal_io = 10
exit_code internal_error = 10
exit_code _ = 2

-- `Error`: made by `New` or, around a cause of the same kind, by `Wrap`.
pub data Error : Type 0 where
  new : FailureClass → ℤ → Error
  wrap : FailureClass → ℤ → Error → Error

abbrev pub class : Error → FailureClass
class (new c _) = c
class (wrap c _ _) = c

abbrev pub offset : Error → ℤ
offset (new _ o) = o
offset (wrap _ o _) = o

-- `Unwrap`
unfoldable pub unwrap : Error → Option Error
unwrap (new _ _) = none
unwrap (wrap _ _ cause) = some cause
