-- ===== src/Jcs/Validate.antt =====
-- jcs/serialize.go: the checks on a value tree before it is written.
pub mod Append
mod Counted
pub mod Parsed
pub mod Distinct
use jcs_schubfach.Prelude.{
  ℕ, suc, ◌+◌, Bool, true, not, ◌&&◌, ◌||◌, List, [], ◌∷◌, ltb, if◌then◌else◌, Bytes, codes, length,
  equal,
}
use jcs_schubfach.Prelude.Int.{minus_one}
use jcs_schubfach.Float64.{is_nan, is_inf}
use jcs_schubfach.Jcserr.{
  Error, new, wrap, class, offset, FailureClass, invalid_utf8, invalid_grammar, duplicate_key,
  lone_surrogate, noncharacter, bound_exceeded, internal_error,
}
use jcs_schubfach.Jcstoken.Options.{Limits}
use jcs_schubfach.Jcstoken.Parser.{mem_key}
use jcs_schubfach.Jcstoken.Strings.{is_noncharacter}
use jcs_schubfach.Jcstoken.Value.{
  Value, Elems, Members, null, bool, number, string, array, object, unknown, no_elems, elem,
  no_members, member, count_elems, count_members,
}
use jcs_schubfach.Result.{Result, ok, err, out_of_fuel, fail, reject_if, ◌>>=◌, ◌>>◌}
use jcs_schubfach.Unicode.Utf16.{is_surrogate}
use jcs_schubfach.Unicode.Utf8.{valid, valid_from, runes, runes_from, decode_rune}

-- An error without an offset.
abbrev pub without_offset : FailureClass → Error
without_offset c = new c minus_one

-- The loop of `validateString` over the runes
unfoldable pub validate_runes : List ℕ → Result (Unit {0})
validate_runes [] = ok tt
validate_runes (r ∷ rs) = do
  reject_if (is_noncharacter r) (without_offset noncharacter)
  reject_if (is_surrogate r) (without_offset lone_surrogate)
  validate_runes rs

-- `validateString`
unfoldable pub validate_string : Bytes → ℕ → Result (Unit {0})
validate_string s max_string_bytes = do
  reject_if (not (valid s)) (without_offset invalid_utf8)
  reject_if (ltb max_string_bytes (length s)) (without_offset bound_exceeded)
  validate_runes (runes s)

-- `jcserr.Wrap(err.Class, err.Offset, "jcs: invalid object key", err)`
abbrev pub wrap_error {ℓ} : {A : Type ℓ} → Result A → Result A
wrap_error (ok a) = ok a
wrap_error (err e) = err (wrap (class e) (offset e) e)
wrap_error out_of_fuel = out_of_fuel

-- A boolean's payload
abbrev pub is_bool_literal : Bytes → Bool
is_bool_literal s = equal s (codes "true") || equal s (codes "false")

-- `validateValueTree` takes the count of values in `state` and returns it.
module _ (lim : Limits) where
  -- The counts and bounds at the top.
  unfoldable pub enter_value : ℕ → ℕ → Result ℕ
  enter_value depth values = do
    reject_if (ltb lim.max_values (values + 1)) (without_offset bound_exceeded)
    reject_if (ltb lim.max_depth depth) (without_offset bound_exceeded)
    ok (values + 1)

  -- A member's key, against the keys before it.
  unfoldable pub validate_key : List Bytes → Bytes → Result (Unit {0})
  validate_key seen k = do
    wrap_error (validate_string k lim.max_string_bytes)
    reject_if (mem_key k seen) (without_offset duplicate_key)

  unfoldable mutual
    pub validate_value_tree : Value → ℕ → ℕ → Result ℕ
    validate_value_tree null depth values = enter_value depth values
    validate_value_tree (bool s) depth values = do
      n ← enter_value depth values
      reject_if (not (is_bool_literal s)) (without_offset invalid_grammar)
      ok n
    validate_value_tree (number f) depth values = do
      n ← enter_value depth values
      reject_if (is_nan f || is_inf f) (without_offset invalid_grammar)
      ok n
    validate_value_tree (string s) depth values = do
      n ← enter_value depth values
      validate_string s lim.max_string_bytes
      ok n
    validate_value_tree (array es) depth values = do
      n ← enter_value depth values
      reject_if (ltb lim.max_array_elements (count_elems es)) (without_offset bound_exceeded)
      validate_elems es (depth + 1) n
    validate_value_tree (object ms) depth values = do
      n ← enter_value depth values
      reject_if (ltb lim.max_object_members (count_members ms)) (without_offset bound_exceeded)
      validate_members ms [] (depth + 1) n
    validate_value_tree (unknown k) depth values = do
      _ ← enter_value depth values
      fail internal_error minus_one

    pub validate_elems : Elems → ℕ → ℕ → Result ℕ
    validate_elems no_elems depth values = ok values
    validate_elems (elem v es) depth values = do
      n ← validate_value_tree v depth values
      validate_elems es depth n

    pub validate_members : Members → List Bytes → ℕ → ℕ → Result ℕ
    validate_members no_members seen depth values = ok values
    validate_members (member k v ms) seen depth values = do
      validate_key seen k
      n ← validate_value_tree v depth values
      validate_members ms (k ∷ seen) depth n
