-- ===== src/Unicode/Utf16.antt =====
-- unicode/utf16: `Encode`, `IsSurrogate`, `DecodeRune`.
pub mod Injective
use jcs_schubfach.Prelude.{
  ℕ, ◌+◌, ◌-◌, ◌*◌, ◌/◌, ◌%◌, Bool, ◌&&◌, List, [], ◌∷◌, ◌++◌, ltb, leb, if◌then◌else◌,
}
use jcs_schubfach.Unicode.Utf8.{rune_error, in_range}

-- `utf16.IsSurrogate`
abbrev pub is_surrogate : ℕ → Bool
is_surrogate r = in_range 0xD800 0xDFFF r

-- The code units of one rune.
unfoldable pub units : ℕ → List ℕ
units r =
    if is_surrogate r
    then rune_error ∷ []
    else if ltb r 0x10000
    then r ∷ []
    else if leb r 0x10FFFF
    then (0xD800 + (r - 0x10000) / 1024) ∷ (0xDC00 + (r - 0x10000) % 1024) ∷ []
    else rune_error ∷ []

-- `utf16.Encode`
unfoldable pub encode : List ℕ → List ℕ
encode [] = []
encode (r ∷ rs) = units r ++ encode rs

-- `utf16.DecodeRune`
unfoldable pub decode_pair : ℕ → ℕ → ℕ
decode_pair r1 r2 =
    if in_range 0xD800 0xDBFF r1 && in_range 0xDC00 0xDFFF r2
    then (r1 - 0xD800) * 1024 + (r2 - 0xDC00) + 0x10000
    else rune_error
