-- ===== src/Jcs/Serialize.antt =====
-- jcs/serialize.go: the writer, `Serialize` and `Canonicalize` with their options.
pub mod Total
pub mod Unordered
use jcs_schubfach.Prelude.{ℕ, Option, none, some, List, [], ◌∷◌, ◌++◌, Bytes, codes}
use jcs_schubfach.Prelude.Int.{minus_one}
use jcs_schubfach.Float64.{Float64}
use jcs_schubfach.Jcserr.{wrap, class, internal_error}
use jcs_schubfach.Jcsfloat.{format_double}
use jcs_schubfach.Jcstoken.Options.{Options, Limits, limits}
use jcs_schubfach.Jcstoken.Parser.{parse, parse_with_options}
use jcs_schubfach.Jcstoken.Value.{
  Value, Elems, Members, null, bool, number, string, array, object, unknown, no_elems, elem,
  no_members, member,
}
use jcs_schubfach.Jcs.Escape.{serialize_string}
use jcs_schubfach.Jcs.Keys.{SortableMember, sortable, sort_members}
use jcs_schubfach.Jcs.Validate.{validate_value_tree}
use jcs_schubfach.Result.{Result, ok, err, out_of_fuel, fail, ◌>>=◌, ◌>>◌}

-- A call that appends to the buffer.
abbrev pub Writer : Type 0
Writer = Bytes → Result Bytes

-- `jcserr.Wrap(err.Class, -1, "jcs: number serialization error", err)`
abbrev wrap_number_error : Result Bytes → Result Bytes
wrap_number_error (ok s) = ok s
wrap_number_error (err e) = err (wrap (class e) minus_one e)
wrap_number_error out_of_fuel = out_of_fuel

-- `serializeNumber`
unfoldable pub serialize_number : Float64 → Writer
serialize_number f buf = do s ← wrap_number_error (format_double f); ok (buf ++ s)

-- The loop of `serializeObject` over the sorted members, behind the first.
unfoldable pub write_members : List (SortableMember Writer) → Writer
write_members [] buf = ok buf
write_members (m ∷ ms) buf = do
  out ← m.value (serialize_string (buf ++ b',' ∷ []) m.key ++ b':' ∷ [])
  write_members ms out

-- The same loop from the first member on.
unfoldable pub write_object : List (SortableMember Writer) → Writer
write_object [] buf = ok buf
write_object (m ∷ ms) buf = do
  out ← m.value (serialize_string buf m.key ++ b':' ∷ [])
  write_members ms out

unfoldable mutual
  -- `serializeValue`
  pub serialize_value : Value → Writer
  serialize_value null buf = ok (buf ++ codes "null")
  serialize_value (bool s) buf = ok (buf ++ s)
  serialize_value (number f) buf = serialize_number f buf
  serialize_value (string s) buf = ok (serialize_string buf s)
  serialize_value (array es) buf = serialize_array es (buf ++ b'[' ∷ [])
  serialize_value (object ms) buf = do
    out ← write_object (sort_members (writers ms)) (buf ++ b'{' ∷ [])
    ok (out ++ b'}' ∷ [])
  serialize_value (unknown k) buf = fail internal_error minus_one

  -- `serializeArray` behind its opening bracket
  pub serialize_array : Elems → Writer
  serialize_array no_elems buf = ok (buf ++ b']' ∷ [])
  serialize_array (elem v es) buf = do out ← serialize_value v buf; serialize_elems es out

  -- The loop of `serializeArray` behind the first element
  pub serialize_elems : Elems → Writer
  serialize_elems no_elems buf = ok (buf ++ b']' ∷ [])
  serialize_elems (elem v es) buf = do
    out ← serialize_value v (buf ++ b',' ∷ [])
    serialize_elems es out

  -- The members of `serializeObject` with the call that writes each value
  pub writers : Members → List (SortableMember Writer)
  writers no_members = []
  writers (member k v ms) = sortable k (serialize_value v) ∷ writers ms

-- `serializeInto`; a nil value is `none`.
unfoldable pub serialize_into : Bytes → Option Value → Option Options → Result Bytes
serialize_into buf none opts = fail internal_error minus_one
serialize_into buf (some v) opts = do
  _ ← validate_value_tree (limits opts) v 0 0
  serialize_value v buf

-- `SerializeWithOptions`
unfoldable pub serialize_with_options : Option Value → Option Options → Result Bytes
serialize_with_options = serialize_into []

-- `Serialize`
unfoldable pub serialize : Option Value → Result Bytes
serialize v = serialize_into [] v none

-- `CanonicalizeWithOptions`
unfoldable pub canonicalize_with_options : Bytes → Option Options → Result Bytes
canonicalize_with_options input opts = do
  v ← parse_with_options input opts
  serialize_into [] (some v) opts

-- `Canonicalize`
unfoldable pub canonicalize : Bytes → Result Bytes
canonicalize input = do v ← parse input; serialize_into [] (some v) none
