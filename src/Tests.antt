-- ===== src/Tests.antt =====
-- Runs of the model on concrete inputs, and the theorems at such inputs.
mod Runs
mod Canonical
mod Reports
mod Offline
mod Vectors
use mathlib.Core.List.{Perm}
use mathlib.Core.List.Perm
use jcs_schubfach.Prelude.{
  ℕ, ◌+◌, ◌<◌, ◌^◌, ◌↔◌, ◌≡◌, ◌≢◌, ◌⊎◌, inl, inr, refl, arith, Bool, true, false, ◌||◌, Option,
  none, some, List, [], ◌∷◌, ◌++◌, Bytes, codes, length, get_elem?, All,
}
use jcs_schubfach.Prelude.Int.{ℤ}
use jcs_schubfach.Cli.{
  Environment, World, Stream, Source, contents, raw, Flags, no_flags, parse_flags, cmd_canonicalize,
  cmd_verify, run,
}
use jcs_schubfach.Cli.Exit.{IsExit, run-IsExit}
use jcs_schubfach.Cli.Canonical.{cmd_canonicalize_sound}
use jcs_schubfach.Cli.Outcome.{Reads}
use jcs_schubfach.Cli.Verify.{cmd_verify_sound, cmd_verify_complete}
use jcs_schubfach.Float64.{is_nan, is_inf}
use jcs_schubfach.Jcs.Escape.{serialize_string}
use jcs_schubfach.Jcs.Escape.RoundTrip.{parse_string-serialize_string}
use jcs_schubfach.Jcs.Keys.{sortable, compare_sort_keys, compare_units, utf16_key, sort_members}
use jcs_schubfach.Jcs.Keys.Sorted.{compare_sort_keys-utf16}
use jcs_schubfach.Jcs.Serialize.{canonicalize, canonicalize_with_options, serialize_value, writers}
use jcs_schubfach.Jcs.Serialize.Total.{
  Succeeds, canonicalize_with_options-total, parse_with_options-validated, parse_with_options-ends,
  serialize_value-Succeeds,
}
use jcs_schubfach.Jcs.Serialize.Unordered.{
  Alike, alike_same, alike_array, alike_object, alike_no_elems, alike_elem, alike_no_members,
  alike_member, canonicalize_with_options-Alike,
}
use jcs_schubfach.Jcs.Validate.Distinct.{entries}
use jcs_schubfach.Jcs.Validate.{validate_value_tree}
use jcs_schubfach.Jcserr.{Error}
use jcs_schubfach.Jcsfloat.{format_double}
use jcs_schubfach.Jcsfloat.Pow10.{pow10_table}
use jcs_schubfach.Jcsfloat.Pow10.Exact.{Significand, exponent_at, significand_of, pow10_table_exact}
use jcs_schubfach.Jcsfloat.Shortest.{divisible_by_power5, mul_by_log10_log2, mul_by_log2_log10}
use jcs_schubfach.Jcsfloat.Shortest.Divisible.{IsMultiple, divisible_by_power5_iff}
use jcs_schubfach.Jcsfloat.Shortest.Logarithm.{IsLog10, binary_at, mul_by_log2_log10_exact}
use jcs_schubfach.Jcstoken.Number.{build_number_value, parse_number}
use jcs_schubfach.Jcstoken.Number.Zero.{IsNumberOf, build_number_value-IsNumberOf}
use jcs_schubfach.Jcstoken.Number.Scan.{IsFinite, parse_number-Ensures}
use jcs_schubfach.Jcstoken.Options.{Options, limits, default_limits}
use jcs_schubfach.Jcstoken.Parser.{initial, parse_with_options}
use jcs_schubfach.Jcstoken.State.{Parser}
use jcs_schubfach.Jcstoken.State.Moves.{Moves}
use jcs_schubfach.Jcstoken.Strings.{is_noncharacter, parse_string}
use jcs_schubfach.Jcstoken.Strings.Clean.{Clean, IsText, IsString, parse_string-IsString}
use jcs_schubfach.Jcstoken.Value.{
  Value, null, bool, number, string, array, object, no_elems, elem, Members, no_members, member,
}
use jcs_schubfach.Unicode.Utf8.Text.{encode_runes}
use Runs.{runs_text, runs_token, runs_float, runs_writing, runs_cli}
use jcs_schubfach.Result.{Result, ok, err, out_of_fuel, Ensures}

canonicalize_object :
    canonicalize (codes "{\"b\": [2, 1e21, 0.1], \"a\" : \"x\\u0041\\n\", \"c\": -3.0}")
    ≡ ok (codes "{\"a\":\"xA\\n\",\"b\":[2,1e+21,0.1],\"c\":-3}")
unfolding runs_text runs_token runs_float runs_writing
canonicalize_object = refl

canonicalize_numbers :
    canonicalize (
      codes
        "[5e-324, 1.7976931348623157e308, 333333333.33333329, 2e-3, 1e-27,123456.789e3, 9007199254740993, 4.35, 0.000001,0.0000001,100]")
    ≡ ok (
        codes
          "[5e-324,1.7976931348623157e+308,333333333.3333333,0.002,1e-27,123456789,9007199254740992,4.35,0.000001,1e-7,100]")
unfolding runs_text runs_token runs_float runs_writing
canonicalize_numbers = refl

abbrev list_text : Bytes
list_text = codes "[1, \"a\"]"

abbrev list_value : Value
list_value = array (elem (number 0x3FF0000000000000) (elem (string (codes "a")) no_elems))

parse_list : parse_with_options list_text none ≡ ok list_value
unfolding runs_text runs_token
parse_list = refl

canonicalize_with_options-total_example :
    ((v : Value) × (out : Bytes) × (parse_with_options list_text none ≡ ok v)
      × (canonicalize_with_options list_text none ≡ ok out))
    ⊎ ((e : Error) × (parse_with_options list_text none ≡ err e)
        × (canonicalize_with_options list_text none ≡ err e))
canonicalize_with_options-total_example = canonicalize_with_options-total list_text none

parse_with_options-validated_example :
    (n : ℕ) × (validate_value_tree (limits none) list_value 0 0 ≡ ok n)
parse_with_options-validated_example =
    parse_with_options-validated list_text none list_value parse_list

parse_with_options-ends_example : parse_with_options list_text none ≢ out_of_fuel
parse_with_options-ends_example = parse_with_options-ends list_text none

list_value_valid : validate_value_tree default_limits list_value 0 0 ≡ ok 3
unfolding runs_text runs_token runs_writing
list_value_valid = refl

serialize_value-Succeeds_example : (out : Bytes) × (serialize_value list_value (codes "x") ≡ ok out)
serialize_value-Succeeds_example =
    serialize_value-Succeeds default_limits list_value (codes "x") list_value_valid

-- A quotation mark, a letter, a line feed, a control character, an accented letter and an emoji.
abbrev mixed_text : Bytes
mixed_text = 0x22 ∷ 0x41 ∷ 0x0A ∷ 0x01 ∷ 0xC3 ∷ 0xA9 ∷ 0xF0 ∷ 0x9F ∷ 0x98 ∷ 0x80 ∷ []

low-Clean : (r : ℕ) → r < 0xD800 → is_noncharacter r ≡ false → Clean r
low-Clean r h e = ((omega arith, inl h), e)

mixed_text-IsText : IsText mixed_text
unfolding runs_text runs_token encode_runes
mixed_text-IsText = (
  0x22 ∷ 0x41 ∷ 0x0A ∷ 0x01 ∷ 0xE9 ∷ 0x1F600 ∷ [],
  (
    low-Clean 0x22 (omega arith) refl,
    (
      low-Clean 0x41 (omega arith) refl,
      (
        low-Clean 0x0A (omega arith) refl,
        (
          low-Clean 0x01 (omega arith) refl,
          (low-Clean 0xE9 (omega arith) refl, (((omega arith, inr (omega arith)), refl), tt)),
        ),
      ),
    ),
  ),
  refl,
)

abbrev at_start : Parser
at_start = initial (codes "\"a\\u00e9\" ")

parse_string-serialize_string_example :
    parse_string default_limits
      (record at_start { rest = serialize_string [] mixed_text ++ codes ": 1" })
    ≡ ok (
      mixed_text,
      record at_start { rest = codes ": 1"; at = 0 + length (serialize_string [] mixed_text) },
    )
parse_string-serialize_string_example =
    parse_string-serialize_string default_limits mixed_text (codes ": 1") at_start mixed_text-IsText
      (omega arith)

parse_string-IsString_example :
    Ensures (IsString default_limits at_start) (parse_string default_limits at_start)
parse_string-IsString_example = parse_string-IsString default_limits at_start

compare_sort_keys-utf16_example :
    compare_sort_keys {A = ℕ} (sortable (codes "ab") 1) (sortable (0xC3 ∷ 0xA9 ∷ []) 2)
    ≡ compare_units (utf16_key (codes "ab")) (utf16_key (0xC3 ∷ 0xA9 ∷ []))
compare_sort_keys-utf16_example = compare_sort_keys-utf16 (codes "ab") (0xC3 ∷ 0xA9 ∷ []) 1 2

pow10_table_exact_example :
    (e : ℕ × ℕ) × (get_elem? pow10_table 400 ≡ some e)
    × Significand (exponent_at 400) (mul_by_log10_log2 (exponent_at 400)) (significand_of e)
pow10_table_exact_example = pow10_table_exact 400 (omega arith)

divisible_by_power5_iff_example : (divisible_by_power5 250 3 ≡ true) ↔ IsMultiple 250 (5 ^ 3)
divisible_by_power5_iff_example = divisible_by_power5_iff 250 3

mul_by_log2_log10_exact_example : IsLog10 (binary_at 1970) (mul_by_log2_log10 (binary_at 1970))
mul_by_log2_log10_exact_example = mul_by_log2_log10_exact 1970 (omega arith)

parse_number-Ensures_example :
    Ensures
      (λ r.
        IsFinite r.0
        × Moves (initial (codes "-1.5e3]")) r.1
        × (length r.1.rest < length (codes "-1.5e3]")))
      (parse_number default_limits (initial (codes "-1.5e3]")))
parse_number-Ensures_example = parse_number-Ensures default_limits (initial (codes "-1.5e3]"))

-- `jcs-canon verify --quiet` on a canonical standard input.
abbrev canonical_stdin : Environment
canonical_stdin = record {
  stdin = contents (codes "[1,\"a\"]");
  open_file = λ _. none;
  version = codes "v1";
}

abbrev quiet_args : List Bytes
quiet_args = codes "--quiet" ∷ codes "-" ∷ []

abbrev idle : Stream
idle = record { written = []; coming = [] }

abbrev idle_world : World
idle_world = record { stdout = idle; stderr = idle }

quiet_flags :
    parse_flags quiet_args no_flags [] ≡ ok (record { quiet = true; help = false }, codes "-" ∷ [])
unfolding runs_text runs_token runs_cli
quiet_flags = refl

verify_accepts : (cmd_verify canonical_stdin quiet_args idle_world).0 ≡ 0
unfolding runs_text runs_token runs_float runs_writing runs_cli
verify_accepts = refl

stdin_read : Reads canonical_stdin (codes "-" ∷ []) (codes "[1,\"a\"]")
unfolding runs_text runs_token runs_cli
stdin_read = (refl, refl)

stdin_canonical : canonicalize (codes "[1,\"a\"]") ≡ ok (codes "[1,\"a\"]")
unfolding runs_text runs_token runs_float runs_writing
stdin_canonical = refl

plain_flags : parse_flags (codes "-" ∷ []) no_flags [] ≡ ok (no_flags, codes "-" ∷ [])
unfolding runs_text runs_token runs_cli
plain_flags = refl

canonicalize_writes : (cmd_canonicalize canonical_stdin (codes "-" ∷ []) idle_world).0 ≡ 0
unfolding runs_text runs_token runs_float runs_writing runs_cli
canonicalize_writes = refl

cmd_canonicalize_sound_example :
    (s : Bytes) × (out : Bytes) × Reads canonical_stdin (codes "-" ∷ []) s
    × (canonicalize s ≡ ok out)
    × ((cmd_canonicalize canonical_stdin (codes "-" ∷ []) idle_world).1.stdout.written
        ≡ [] ++ raw out ∷ [])
    × ((cmd_canonicalize canonical_stdin (codes "-" ∷ []) idle_world).1.stderr ≡ idle)
cmd_canonicalize_sound_example =
    cmd_canonicalize_sound canonical_stdin (codes "-" ∷ []) (codes "-" ∷ []) no_flags idle_world
      plain_flags refl canonicalize_writes

cmd_verify_sound_example :
    (s : Bytes) × Reads canonical_stdin (codes "-" ∷ []) s × (canonicalize s ≡ ok s)
cmd_verify_sound_example =
    cmd_verify_sound canonical_stdin quiet_args (codes "-" ∷ [])
      (record { quiet = true; help = false }) idle_world quiet_flags refl verify_accepts

cmd_verify_complete_example : cmd_verify canonical_stdin quiet_args idle_world ≡ (0, idle_world)
cmd_verify_complete_example =
    cmd_verify_complete canonical_stdin quiet_args (codes "-" ∷ [])
      (record { quiet = true; help = false }) idle_world quiet_flags refl (codes "[1,\"a\"]") refl
      stdin_read stdin_canonical

run-IsExit_example : IsExit (run canonical_stdin (codes "verify" ∷ quiet_args) idle_world).0
run-IsExit_example = run-IsExit canonical_stdin (codes "verify" ∷ quiet_args) idle_world

abbrev y_then_x : Bytes
y_then_x = codes "{\"b\":null,\"a\":[{\"y\":true,\"x\":null}]}"

abbrev x_then_y : Bytes
x_then_y = codes "{\"a\":[{\"x\":null,\"y\":true}],\"b\":null}"

abbrev inner_y_x : Value
inner_y_x = object (member (codes "y") (bool (codes "true")) (member (codes "x") null no_members))

abbrev inner_x_y : Value
inner_x_y = object (member (codes "x") null (member (codes "y") (bool (codes "true")) no_members))

abbrev value_y_x : Value
value_y_x =
    object
      (member (codes "b") null (member (codes "a") (array (elem inner_y_x no_elems)) no_members))

abbrev value_x_y : Value
value_x_y =
    object
      (member (codes "a") (array (elem inner_x_y no_elems)) (member (codes "b") null no_members))

y_then_x_parsed : parse_with_options y_then_x none ≡ ok value_y_x
unfolding runs_text runs_token
y_then_x_parsed = refl

x_then_y_parsed : parse_with_options x_then_y none ≡ ok value_x_y
unfolding runs_text runs_token
x_then_y_parsed = refl

inner-Alike : Alike inner_y_x inner_x_y
unfolding entries
inner-Alike =
    alike_object (alike_member alike_same (alike_member alike_same alike_no_members))
      (Perm.swap _ _ [])

values-Alike : Alike value_y_x value_x_y
unfolding entries
values-Alike =
    alike_object
      (alike_member alike_same
        (alike_member (alike_array (alike_elem inner-Alike alike_no_elems)) alike_no_members))
      (Perm.swap _ _ [])

canonicalize_with_options-Alike_example :
    canonicalize_with_options y_then_x none ≡ canonicalize_with_options x_then_y none
canonicalize_with_options-Alike_example =
    canonicalize_with_options-Alike y_then_x x_then_y none value_y_x value_x_y y_then_x_parsed
      x_then_y_parsed values-Alike

build_number_value-IsNumberOf_example :
    Ensures (IsNumberOf (codes "-0.5e1")) (build_number_value 3 (codes "-0.5e1"))
build_number_value-IsNumberOf_example = build_number_value-IsNumberOf 3 (codes "-0.5e1")
