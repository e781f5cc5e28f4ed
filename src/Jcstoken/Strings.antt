-- ===== src/Jcstoken/Strings.antt =====
-- jcstoken/token.go: string literals, escapes, and the policy on code points.
pub mod Escapes
pub mod Clean
use jcs_schubfach.Prelude.{
  ℕ, zero, suc, ◌+◌, ◌-◌, ◌*◌, ◌/◌, ◌%◌, Bool, false, not, ◌&&◌, ◌||◌, Option, none, some, [], ◌∷◌,
  ◌++◌, ltb, leb, ◌==◌, if◌then◌else◌, Bytes, length, take,
}
use jcs_schubfach.Prelude.Int.{pos}
use jcs_schubfach.Jcserr.{
  new, invalid_utf8, invalid_grammar, lone_surrogate, noncharacter, bound_exceeded,
}
use jcs_schubfach.Jcstoken.Options.{Limits}
use jcs_schubfach.Jcstoken.State.{Parser, advance, new_error, peek, expect}
use jcs_schubfach.Result.{Result, ok, out_of_fuel, fail, reject_if, ◌>>=◌, ◌>>◌}
use jcs_schubfach.Unicode.Utf16.{is_surrogate, decode_pair}
use jcs_schubfach.Unicode.Utf8.{rune_error, in_range, decode_rune, is_bad, encode_rune}

-- `r & 0xFFFE`
abbrev pub mask_fffe : ℕ → ℕ
mask_fffe r = r / 2 % 0x8000 * 2

-- `IsNoncharacter`
unfoldable pub is_noncharacter : ℕ → Bool
is_noncharacter r = in_range 0xFDD0 0xFDEF r || (mask_fffe r == 0xFFFE && leb r 0x10FFFF)

-- `validateStringRune`
unfoldable pub validate_string_rune : ℕ → ℕ → Result (Unit {0})
validate_string_rune r source_offset = do
  reject_if (is_noncharacter r) (new noncharacter (pos source_offset))
  reject_if (is_surrogate r) (new lone_surrogate (pos source_offset))

-- `hexVal`
unfoldable pub hex_val : ℕ → Option ℕ
hex_val b =
    if in_range b'0' b'9' b
    then some (b - b'0')
    else if in_range b'a' b'f' b
    then some (b - b'a' + 10)
    else if in_range b'A' b'F' b
    then some (b - b'A' + 10)
    else none

-- The loop of `readHex4`; `val<<4 | d` for a digit `d`.
unfoldable pub hex_digits : Bytes → ℕ → Option ℕ
hex_digits [] val = some val
hex_digits (b ∷ r) val = elim (hex_val b) [ none ↦ none | some d ↦ hex_digits r (val * 16 + d) ]

-- `readHex4`
unfoldable pub read_hex4 : ℕ → Parser → Result (ℕ × Parser)
read_hex4 source_offset p =
    if ltb (length p.rest) 4
    then fail invalid_grammar (pos source_offset)
    else elim (hex_digits (take 4 p.rest) 0) [
      | none ↦ fail invalid_grammar (pos source_offset)
      | some v ↦ ok (v, advance 4 p)
    ]

-- `p.pos+1 < len(p.data)`, with `\u` at the position.
abbrev pub at_u_escape : Bytes → Bool
at_u_escape (a ∷ b ∷ _) = a == b'\\' && b == b'u'
at_u_escape _ = false

-- The second half of `parseUnicodeEscape`: a low surrogate has to follow `r1`.
unfoldable pub parse_low_surrogate : ℕ → ℕ → Parser → Result (ℕ × Parser)
parse_low_surrogate r1 source_offset p = do
  reject_if (not (at_u_escape p.rest)) (new lone_surrogate (pos source_offset))
  (r2, q) ← read_hex4 p.at (advance 2 p)
  reject_if (ltb r2 0xDC00 || ltb 0xDFFF r2) (new lone_surrogate (pos p.at))
  reject_if (decode_pair r1 r2 == rune_error) (new lone_surrogate (pos source_offset))
  ok (decode_pair r1 r2, q)

-- `parseUnicodeEscape`
unfoldable pub parse_unicode_escape : ℕ → Parser → Result (ℕ × Parser)
parse_unicode_escape source_offset p = do
  (r1, q) ← read_hex4 source_offset p
  if not (is_surrogate r1)
      then ok (r1, q)
      else if leb 0xDC00 r1
      then fail lone_surrogate (pos source_offset)
      else parse_low_surrogate r1 source_offset q

-- `escapedRune`
unfoldable pub escaped_rune : ℕ → Option ℕ
escaped_rune b =
    if b == b'"'
    then some b'"'
    else if b == b'\\'
    then some b'\\'
    else if b == b'/'
    then some b'/'
    else if b == b'b'
    then some 8
    else if b == b'f'
    then some 12
    else if b == b'n'
    then some 10
    else if b == b'r'
    then some 13
    else if b == b't'
    then some 9
    else none

-- `parseEscape`: behind the backslash.
unfoldable pub parse_escape : ℕ → Parser → Result (ℕ × Parser)
parse_escape source_offset p = elim (peek p) [
  | none ↦ fail invalid_grammar (pos source_offset)
  | some b ↦
      if b == b'u'
      then parse_unicode_escape source_offset (advance 1 p)
      else elim (escaped_rune b) [
        | none ↦ fail invalid_grammar (pos source_offset)
        | some r ↦ ok (r, advance 1 p)
      ]
]

-- A byte that the fast path of `parseString` steps over.
abbrev pub is_plain : ℕ → Bool
is_plain b = not (b == b'"') && not (ltb b 0x20 || (b == b'\\' || leb 0x80 b))

-- What the fast path's loop steps over.
unfoldable pub plain_prefix : Bytes → Bytes
plain_prefix [] = []
plain_prefix (b ∷ r) = let more = b ∷ plain_prefix r in if is_plain b then more else []

module _ (lim : Limits) where
  -- The round of the general path for an escape.
  unfoldable pub escape_step : Bytes → Parser → Result (Bytes × Parser)
  escape_step buf p = do
    (r, q) ← parse_escape p.at (advance 1 p)
    validate_string_rune r p.at
    reject_if (ltb lim.max_string_bytes (length buf + length (encode_rune r)))
        (new bound_exceeded (pos q.at))
    ok (buf ++ encode_rune r, q)

  -- The round of the general path for a character that stands for itself.
  unfoldable pub raw_step : ℕ → Bytes → Parser → Result (Bytes × Parser)
  raw_step b buf p = do
    reject_if (ltb b 0x20) (new invalid_grammar (pos p.at))
    let d = decode_rune p.rest
    reject_if (is_bad d) (new invalid_utf8 (pos p.at))
    validate_string_rune d.0 p.at
    reject_if (ltb lim.max_string_bytes (length buf + d.1)) (new bound_exceeded (pos p.at))
    ok (buf ++ take d.1 p.rest, advance d.1 p)

  -- The general path of `parseString`; each round costs a unit of fuel.
  unfoldable pub string_loop : ℕ → Bytes → Parser → Result (Bytes × Parser)
  string_loop zero buf p = out_of_fuel
  string_loop (suc f) buf p = elim (peek p) [
    | none ↦ new_error invalid_grammar p
    | some b ↦
        let more = do
          (buf', q) ← if b == b'\\' then escape_step buf p else raw_step b buf p
          string_loop f buf' q
        in if b == b'"' then ok (buf, advance 1 p) else more
  ]

  -- `parseString` behind the opening quote, after the fast path has stepped over `pre`.
  unfoldable pub string_body : Bytes → Parser → Result (Bytes × Parser)
  string_body pre p =
      let general = string_loop (suc (length p.rest)) pre p in
      elim (peek p) [
        | none ↦ general
        | some b ↦
            if b == b'"'
            then (if ltb lim.max_string_bytes (length pre)
                then new_error bound_exceeded p
                else ok (pre, advance 1 p))
            else general
      ]

  -- `parseString`
  unfoldable pub parse_string : Parser → Result (Bytes × Parser)
  parse_string p = do
    q ← expect b'"' p
    let pre = plain_prefix q.rest
    string_body pre (advance (length pre) q)
