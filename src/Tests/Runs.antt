-- ===== src/Tests/Runs.antt =====
-- What the tests compute with: a declaration whose `unfolding` line names one of these sets can run
-- the functions of that part of the program.
use jcs_schubfach.Unicode.Utf8.{
  decode2, decode3, decode4, decode_rune, valid_from, runes_from, encode_rune,
}
use jcs_schubfach.Unicode.Utf16.{units, encode, decode_pair}
use jcs_schubfach.Float64.Parse.{
  read_digits, read_exponent, find_scale, round_even, round_ratio, to_double, scaled,
  parse_exponent, parse_tail, parse_fraction, parse_unsigned, parse_float,
}
use jcs_schubfach.Jcstoken.Options.{resolve_option, limits}
use jcs_schubfach.Jcstoken.State.{expect, skip_from, skip_whitespace, push_depth}
use jcs_schubfach.Jcstoken.Value.{snoc_elem, snoc_member}
use jcs_schubfach.Jcstoken.Strings.{
  is_noncharacter, validate_string_rune, hex_val, hex_digits, read_hex4, parse_low_surrogate,
  parse_unicode_escape, escaped_rune, parse_escape, plain_prefix, escape_step, raw_step,
  string_loop, string_body, parse_string,
}
use jcs_schubfach.Jcstoken.Number.{
  zero_digits, token_represents_zero, classify_double, build_number_value, digits_from,
  scan_zero_integer_part, scan_integer_part, scan_fraction_part, scan_exponent_part, parse_number,
}
use jcs_schubfach.Jcstoken.Parser.{
  parse_bool, parse_null, mem_key, count_value, separator, open_container, close_or_loop,
  parse_array, parse_object, parse_key, dispatch, parse_value, array_loop, object_loop,
  invalid_from, first_invalid_utf8_offset, parse_with_options, parse,
}
use jcs_schubfach.Jcsfloat.{format_double}
use jcs_schubfach.Jcsfloat.Decimal.{
  digits_onto, render, all_zeros, trim_tail, trim_zeros, format_uint, count_loop,
  count_decimal_digits,
}
use jcs_schubfach.Jcsfloat.Format.{
  append_integer_fixed, append_fraction_fixed, append_small_fraction, append_magnitude, append_int,
  append_exponential, format_ecma,
}
use jcs_schubfach.Jcsfloat.Ryu.{trim_loop, ryu_shortest}
use jcs_schubfach.Jcsfloat.Shortest.{
  zeros_below, trailing_zeros, mantissa, exponent, compute_bounds, mul_by_log2_log10,
  mul_by_log10_log2, mult_128, pow10_entry, mult_128bit_pow10, power5_loop, divisible_by_power5,
  shortest_scaled, shortest_inexact, shortest_decimal,
}
use jcs_schubfach.Jcsfloat.Pow10.{pow10_table}
use jcs_schubfach.Jcs.Escape.{
  escaped_byte, utf8_seq_len, byte_span_for_copy, escape_onto, serialize_string,
}
use jcs_schubfach.Jcs.Keys.{
  is_ascii, compare_units, sortable, compare_sort_keys, insert_member, sort_members,
}
use jcs_schubfach.Jcs.Validate.{
  validate_runes, validate_string, enter_value, validate_key, validate_value_tree, validate_elems,
  validate_members,
}
use jcs_schubfach.Jcs.Serialize.{
  serialize_number, write_members, write_object, serialize_value, serialize_array, serialize_elems,
  writers, serialize_into, serialize_with_options, serialize, canonicalize_with_options,
  canonicalize,
}
use jcs_schubfach.Cli.{
  write_to, write_stdout, write_stderr, write_classified_error, write_lines, or_io_error,
  parse_flags, ensure_single_input, read_bounded, read_input, report_or, canonical_input,
  cmd_canonicalize, parse_canonical_from_input, compare_canonical, cmd_verify, usage_error, run,
}
use jcs_schubfach.Jcserr.{exit_code}
use jcs_schubfach.Prelude.{equal}
use jcs_schubfach.Result.{reject_if}

unfoldable pub runs_text : Unit {0}
unfolding reject_if decode2 decode3 decode4 decode_rune valid_from runes_from encode_rune units
    encode decode_pair read_digits read_exponent find_scale round_even round_ratio to_double scaled
    parse_exponent parse_tail parse_fraction parse_unsigned parse_float
runs_text = tt

unfoldable pub runs_token : Unit {0}
unfolding resolve_option limits expect skip_from skip_whitespace push_depth snoc_elem snoc_member
    is_noncharacter validate_string_rune hex_val hex_digits read_hex4 parse_low_surrogate
    parse_unicode_escape escaped_rune parse_escape plain_prefix escape_step raw_step string_loop
    string_body parse_string zero_digits token_represents_zero classify_double build_number_value
    digits_from scan_zero_integer_part scan_integer_part scan_fraction_part scan_exponent_part
    parse_number parse_bool parse_null mem_key count_value separator close_or_loop open_container
    parse_array parse_object parse_key dispatch parse_value array_loop object_loop invalid_from
    first_invalid_utf8_offset parse_with_options parse equal
runs_token = tt

unfoldable pub runs_float : Unit {0}
unfolding format_double digits_onto render all_zeros trim_tail trim_zeros format_uint count_loop
    count_decimal_digits append_integer_fixed append_fraction_fixed append_small_fraction
    append_magnitude append_int append_exponential format_ecma trim_loop ryu_shortest zeros_below
    trailing_zeros mantissa exponent compute_bounds mul_by_log2_log10 mul_by_log10_log2 mult_128
    pow10_entry mult_128bit_pow10 power5_loop divisible_by_power5 shortest_scaled shortest_inexact
    shortest_decimal pow10_table
runs_float = tt

unfoldable pub runs_writing : Unit {0}
unfolding escaped_byte utf8_seq_len byte_span_for_copy escape_onto serialize_string is_ascii
    compare_units sortable compare_sort_keys insert_member sort_members validate_runes
    validate_string enter_value validate_key validate_value_tree validate_elems validate_members
    serialize_number write_members write_object serialize_value serialize_array serialize_elems
    writers serialize_into serialize_with_options serialize canonicalize_with_options canonicalize
runs_writing = tt

unfoldable pub runs_cli : Unit {0}
unfolding write_to write_stdout write_stderr write_classified_error write_lines or_io_error
    parse_flags ensure_single_input read_bounded read_input report_or canonical_input
    cmd_canonicalize parse_canonical_from_input compare_canonical cmd_verify usage_error run
    exit_code
runs_cli = tt
