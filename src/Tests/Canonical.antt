-- ===== src/Tests/Canonical.antt =====
-- Runs of the canonicalizer whose output is parsed, canonicalized and verified again, and the theorems
-- at such inputs.
use jcs_schubfach.Prelude.{
  ◌≡◌, ◌+◌, ◌≤◌, ◌↔◌, ◌++◌, true, false, refl, arith, none, some, [], ◌∷◌, Bytes, codes, length,
}
use jcs_schubfach.Prelude.Int.{pos}
use jcs_schubfach.Cli.{
  Environment, World, Stream, contents, raw, Flags, no_flags, parse_flags, cmd_canonicalize,
  cmd_verify,
}
use jcs_schubfach.Cli.Outcome.{Reads}
use jcs_schubfach.Cli.Piped.{cmd_verify-cmd_canonicalize}
use jcs_schubfach.Jcs.Canon.{in_order, text, number_text}
use jcs_schubfach.Jcs.Canon.Ascending.{Ascending, canonicalize_with_options-Ascending}
use jcs_schubfach.Jcs.Canon.Fits.{Shallow}
use jcs_schubfach.Jcs.Canon.Idempotent.{
  canonicalize_with_options-text, canonicalize_with_options-idempotent,
  canonicalize_with_options_iff,
}
use jcs_schubfach.Jcs.Canon.Legible.{ReadsBack, state}
use jcs_schubfach.Jcs.Canon.Numbers.{EachNumber}
use jcs_schubfach.Jcs.Canon.Serialized.{parse_with_options-serialize_with_options}
use jcs_schubfach.Jcs.Serialize.{canonicalize_with_options, serialize_with_options}
use jcs_schubfach.Jcs.Serialize.Unordered.{Alike}
use jcs_schubfach.Jcstoken.Number.{parse_number}
use jcs_schubfach.Jcstoken.Number.Anywhere.{parse_number-relocate}
use jcs_schubfach.Jcstoken.Options.{Options, limits, default_limits}
use jcs_schubfach.Jcstoken.Parser.{parse, parse_with_options, initial}
use jcs_schubfach.Jcstoken.Value.{
  Value, null, number, string, array, object, no_elems, elem, no_members, member,
}
use jcs_schubfach.Jcserr.{new, bound_exceeded}
use jcs_schubfach.Result.{ok, err}
use jcs_schubfach.Tests.Runs.{runs_text, runs_token, runs_float, runs_writing, runs_cli}

abbrev unsorted : Bytes
unsorted = codes "{\"b\":[1.50, \"x\"], \"a\": null}"

abbrev sorted : Bytes
sorted = codes "{\"a\":null,\"b\":[1.5,\"x\"]}"

abbrev items : Value
items = array (elem (number 0x3FF8000000000000) (elem (string (codes "x")) no_elems))

abbrev unsorted_value : Value
unsorted_value = object (member (codes "b") items (member (codes "a") null no_members))

unsorted_parsed : parse_with_options unsorted none ≡ ok unsorted_value
unfolding runs_text runs_token
unsorted_parsed = refl

unsorted_written : canonicalize_with_options unsorted none ≡ ok sorted
unfolding runs_text runs_token runs_float runs_writing
unsorted_written = refl

one_and_half : ReadsBack (limits none) 0x3FF8000000000000
unfolding runs_text runs_token runs_float number_text
one_and_half = (_, refl, refl)

unsorted_numbers : EachNumber (ReadsBack (limits none)) unsorted_value
unfolding EachNumber
unsorted_numbers = ((one_and_half, (tt, tt)), (tt, tt))

unsorted-Shallow : Shallow (limits none) 0 unsorted_value
unfolding Shallow limits
unsorted-Shallow = (omega arith, ((omega arith, (tt, (tt, tt))), (tt, tt)))

sorted_short : length sorted ≤ (limits none).max_input_size
unfolding limits
sorted_short = omega arith

canonicalize_with_options-Ascending_example :
    (w : Value) × (canonicalize_with_options unsorted none ≡ ok (text w))
    × Alike unsorted_value w
    × Ascending w
canonicalize_with_options-Ascending_example =
    canonicalize_with_options-Ascending unsorted none unsorted_value unsorted_parsed

canonicalize_with_options-text_example :
    canonicalize_with_options unsorted none ≡ ok (text (in_order unsorted_value))
canonicalize_with_options-text_example =
    canonicalize_with_options-text unsorted none unsorted_value unsorted_parsed

unsorted_serialized : serialize_with_options (some unsorted_value) none ≡ ok sorted
unfolding runs_text runs_token runs_float runs_writing
unsorted_serialized = refl

parse_with_options-serialize_with_options_example :
    parse_with_options sorted none ≡ ok (in_order unsorted_value)
parse_with_options-serialize_with_options_example =
    parse_with_options-serialize_with_options unsorted_value none unsorted-Shallow sorted
      unsorted_serialized unsorted_numbers sorted_short

canonicalize_with_options-idempotent_example : canonicalize_with_options sorted none ≡ ok sorted
canonicalize_with_options-idempotent_example =
    canonicalize_with_options-idempotent unsorted none unsorted_value unsorted_parsed sorted
      unsorted_written unsorted_numbers sorted_short

abbrev renamed : Bytes
renamed = codes "{\"b\":[1.50, \"y\"], \"a\": null}"

abbrev renamed_value : Value
renamed_value = object (
    member (codes "b")
      (array (elem (number 0x3FF8000000000000) (elem (string (codes "y")) no_elems)))
      (member (codes "a") null no_members))

renamed_parsed : parse_with_options renamed none ≡ ok renamed_value
unfolding runs_text runs_token
renamed_parsed = refl

renamed_numbers : EachNumber (ReadsBack (limits none)) renamed_value
unfolding EachNumber
renamed_numbers = ((one_and_half, (tt, tt)), (tt, tt))

canonicalize_with_options_iff_example :
    (canonicalize_with_options renamed none ≡ ok sorted)
    ↔ (in_order renamed_value ≡ in_order unsorted_value)
canonicalize_with_options_iff_example =
    canonicalize_with_options_iff unsorted renamed none unsorted_value renamed_value sorted
      unsorted_parsed renamed_parsed unsorted_written unsorted_numbers renamed_numbers sorted_short

minus_ten :
    parse_number default_limits (initial (codes "-1e1")) ≡ ok (0xC024000000000000, state [] 4 0 0)
unfolding runs_text runs_token
minus_ten = refl

parse_number-relocate_example :
    parse_number default_limits (state (codes "-1e1" ++ codes ", 2]") (5 + 0) 3 7)
    ≡ ok (0xC024000000000000, state (codes ", 2]") (5 + 4) 3 7)
parse_number-relocate_example =
    parse_number-relocate default_limits (codes ", 2]") 5 3 7 (initial (codes "-1e1")) refl
      minus_ten

-- At a depth limit of 1 an empty array in an array is written, but is not parsed.
abbrev flat : Options
flat = record {
  max_depth = pos 1;
  max_input_size = pos 0;
  max_values = pos 0;
  max_object_members = pos 0;
  max_array_elements = pos 0;
  max_string_bytes = pos 0;
  max_number_chars = pos 0;
}

nested_written :
    serialize_with_options (some (array (elem (array no_elems) no_elems))) (some flat)
    ≡ ok (codes "[[]]")
unfolding runs_text runs_token runs_float runs_writing
nested_written = refl

nested_rejected : parse_with_options (codes "[[]]") (some flat) ≡ err (new bound_exceeded (pos 1))
unfolding runs_text runs_token
nested_rejected = refl

abbrev stream : Stream
stream = record { written = []; coming = [] }

abbrev world : World
world = record { stdout = stream; stderr = stream }

abbrev reading : Bytes → Environment
reading s = record { stdin = contents s; open_file = λ _. none; version = codes "v1" }

abbrev quiet_flags : Flags
quiet_flags = record { quiet = true; help = false }

flags_parsed :
    parse_flags (codes "--quiet" ∷ codes "-" ∷ []) no_flags [] ≡ ok (quiet_flags, codes "-" ∷ [])
unfolding runs_text runs_token runs_cli
flags_parsed = refl

file_parsed : parse_flags (codes "-" ∷ []) no_flags [] ≡ ok (no_flags, codes "-" ∷ [])
unfolding runs_text runs_token runs_cli
file_parsed = refl

unsorted-parse : parse unsorted ≡ ok unsorted_value
unfolding runs_text runs_token
unsorted-parse = refl

unsorted_read : Reads (reading unsorted) (codes "-" ∷ []) unsorted
unfolding runs_text runs_token runs_cli
unsorted_read = (refl, refl)

sorted_read : Reads (reading sorted) (codes "-" ∷ []) sorted
unfolding runs_text runs_token runs_cli
sorted_read = (refl, refl)

unsorted_ends : (cmd_canonicalize (reading unsorted) (codes "-" ∷ []) world).0 ≡ 0
unfolding runs_text runs_token runs_float runs_writing runs_cli
unsorted_ends = refl

unsorted_piped :
    (cmd_canonicalize (reading unsorted) (codes "-" ∷ []) world).1.stdout.written ≡ raw sorted ∷ []
unfolding runs_text runs_token runs_float runs_writing runs_cli
unsorted_piped = refl

cmd_verify-cmd_canonicalize_example :
    cmd_verify (reading sorted) (codes "--quiet" ∷ codes "-" ∷ []) world ≡ (0, world)
cmd_verify-cmd_canonicalize_example =
    cmd_verify-cmd_canonicalize (reading unsorted) (reading sorted) (codes "-" ∷ [])
      (codes "-" ∷ []) (codes "--quiet" ∷ codes "-" ∷ []) (codes "-" ∷ []) no_flags quiet_flags
      world world unsorted sorted unsorted_value file_parsed refl flags_parsed refl refl refl
      unsorted_read unsorted-parse unsorted_numbers unsorted_ends unsorted_piped sorted_read
