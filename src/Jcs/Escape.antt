-- ===== src/Jcs/Escape.antt =====
-- jcs/serialize.go: string escaping by RFC 8785, section 3.2.2.2.
pub mod Forms
mod Reading
mod Loop
pub mod RoundTrip
use jcs_schubfach.Prelude.{
  ℕ, zero, suc, ◌+◌, ◌-◌, ◌/◌, ◌%◌, Option, none, some, [], ◌∷◌, ◌++◌, ltb, ◌==◌, if◌then◌else◌,
  Bytes, length,
}

-- `hexDigit`
abbrev pub hex_digit : ℕ → ℕ
hex_digit b = if ltb b 10 then b'0' + b else b'a' + (b - 10)

abbrev pub backslashed : ℕ → Bytes
backslashed c = b'\\' ∷ c ∷ []

-- `appendEscapedByte`: what is appended for a byte that is escaped.
unfoldable pub escaped_byte : ℕ → Option Bytes
escaped_byte b =
    if b == b'"'
    then some (backslashed b'"')
    else if b == b'\\'
    then some (backslashed b'\\')
    else if b == 8
    then some (backslashed b'b')
    else if b == 9
    then some (backslashed b't')
    else if b == 10
    then some (backslashed b'n')
    else if b == 12
    then some (backslashed b'f')
    else if b == 13
    then some (backslashed b'r')
    else if ltb b 0x20
    then some (b'\\' ∷ b'u' ∷ b'0' ∷ b'0' ∷ hex_digit (b / 16) ∷ hex_digit (b % 16) ∷ [])
    else none

-- `utf8SeqLen`
unfoldable pub utf8_seq_len : ℕ → ℕ
utf8_seq_len b = if ltb b 0x80 then 1 else if ltb b 0xE0 then 2 else if ltb b 0xF0 then 3 else 4

-- `byteSpanForCopy` for the string `b ∷ r` from the index on
unfoldable pub byte_span_for_copy : ℕ → Bytes → ℕ
byte_span_for_copy b r =
    let size = utf8_seq_len b in
    if ltb b 0x80 then 1 else if ltb (suc (length r)) size then suc (length r) else size

-- The loop of `serializeString`; the first argument counts the bytes of the current span that are
-- still to be copied.
unfoldable pub escape_onto : ℕ → Bytes → Bytes → Bytes
escape_onto span buf [] = buf
escape_onto (suc k) buf (b ∷ r) = escape_onto k (buf ++ b ∷ []) r
escape_onto zero buf (b ∷ r) = elim (escaped_byte b) [
  | some out ↦ escape_onto 0 (buf ++ out) r
  | none ↦ escape_onto (byte_span_for_copy b r - 1) (buf ++ b ∷ []) r
]

-- `serializeString`
unfoldable pub serialize_string : Bytes → Bytes → Bytes
serialize_string buf s = escape_onto 0 (buf ++ b'"' ∷ []) s ++ b'"' ∷ []
