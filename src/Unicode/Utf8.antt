-- ===== src/Unicode/Utf8.antt =====
-- unicode/utf8: `DecodeRune`, `EncodeRune`, `Valid`, and the runes of a string.
pub mod RoundTrip
pub mod Text
use jcs_schubfach.Prelude.{
  ℕ, zero, suc, ◌+◌, ◌-◌, ◌*◌, ◌/◌, ◌%◌, Bool, true, false, ◌&&◌, ◌||◌, List, [], ◌∷◌, ltb, leb,
  ◌==◌, if◌then◌else◌, Bytes,
}

-- `utf8.RuneError`, `unicode.ReplacementChar`
abbrev pub rune_error : ℕ
rune_error = 0xFFFD

-- A continuation byte that lies in the given range.
abbrev pub in_range : ℕ → ℕ → ℕ → Bool
in_range lo hi b = leb lo b && leb b hi

abbrev pub is_cont : ℕ → Bool
is_cont b = in_range 0x80 0xBF b

abbrev pub bad_rune : ℕ × ℕ
bad_rune = (rune_error, 1)

unfoldable pub decode2 : ℕ → Bytes → ℕ × ℕ
decode2 b0 (b1 ∷ _) = if is_cont b1 then ((b0 - 0xC0) * 64 + (b1 - 0x80), 2) else bad_rune
decode2 b0 _ = bad_rune

-- The second byte's range keeps out overlong forms and surrogates.
unfoldable pub decode3 : ℕ → Bytes → ℕ × ℕ
decode3 b0 (b1 ∷ b2 ∷ _) =
    let lo = if b0 == 0xE0 then 0xA0 else 0x80 in
    let hi = if b0 == 0xED then 0x9F else 0xBF in
    if in_range lo hi b1 && is_cont b2
    then ((b0 - 0xE0) * 4096 + (b1 - 0x80) * 64 + (b2 - 0x80), 3)
    else bad_rune
decode3 b0 _ = bad_rune

unfoldable pub decode4 : ℕ → Bytes → ℕ × ℕ
decode4 b0 (b1 ∷ b2 ∷ b3 ∷ _) =
    let lo = if b0 == 0xF0 then 0x90 else 0x80 in
    let hi = if b0 == 0xF4 then 0x8F else 0xBF in
    if in_range lo hi b1 && (is_cont b2 && is_cont b3)
    then ((b0 - 0xF0) * 262144 + (b1 - 0x80) * 4096 + (b2 - 0x80) * 64 + (b3 - 0x80), 4)
    else bad_rune
decode4 b0 _ = bad_rune

-- `utf8.DecodeRune`: the first rune of a string, and its size in bytes.
unfoldable pub decode_rune : Bytes → ℕ × ℕ
decode_rune [] = (rune_error, 0)
decode_rune (b0 ∷ r) =
    if ltb b0 0x80
    then (b0, 1)
    else if ltb b0 0xC2
    then bad_rune
    else if ltb b0 0xE0
    then decode2 b0 r
    else if ltb b0 0xF0
    then decode3 b0 r
    else if ltb b0 0xF5
    then decode4 b0 r
    else bad_rune

-- A rune that `decode_rune` gives for bytes that are not UTF-8.
abbrev pub is_bad : ℕ × ℕ → Bool
is_bad (r, size) = r == rune_error && leb size 1

-- `utf8.Valid` and `utf8.ValidString`; the first argument counts the bytes of the current rune
-- that are still to be skipped.
unfoldable pub valid_from : ℕ → Bytes → Bool
valid_from skip [] = true
valid_from (suc k) (b ∷ r) = valid_from k r
valid_from zero (b ∷ r) =
    let d = decode_rune (b ∷ r) in if is_bad d then false else valid_from (d.1 - 1) r

abbrev pub valid : Bytes → Bool
valid = valid_from 0

-- `[]rune(s)`, and the runes that `range s` goes through.
unfoldable pub runes_from : ℕ → Bytes → List ℕ
runes_from skip [] = []
runes_from (suc k) (b ∷ r) = runes_from k r
runes_from zero (b ∷ r) = let d = decode_rune (b ∷ r) in d.0 ∷ runes_from (d.1 - 1) r

abbrev pub runes : Bytes → List ℕ
runes = runes_from 0

-- `utf8.EncodeRune`; what is no scalar value is written as `rune_error`.
unfoldable pub encode_rune : ℕ → Bytes
encode_rune r =
    if ltb r 0x80
    then r ∷ []
    else if ltb r 0x800
    then (0xC0 + r / 64) ∷ (0x80 + r % 64) ∷ []
    else if in_range 0xD800 0xDFFF r || ltb 0x10FFFF r
    then 0xEF ∷ 0xBF ∷ 0xBD ∷ []
    else if ltb r 0x10000
    then (0xE0 + r / 4096) ∷ (0x80 + r / 64 % 64) ∷ (0x80 + r % 64) ∷ []
    else (0xF0 + r / 262144) ∷ (0x80 + r / 4096 % 64) ∷ (0x80 + r / 64 % 64) ∷ (0x80 + r % 64) ∷ []
