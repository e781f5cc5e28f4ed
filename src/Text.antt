-- ===== src/Text.antt =====
-- What the offline replays use of the packages strings, sort and encoding/hex.
pub mod Decimal
pub mod Sorted
use jcs_schubfach.Prelude.{
  ℕ, zero, suc, ◌-◌, Bool, true, false, ◌&&◌, ◌||◌, List, [], ◌∷◌, ◌++◌, ltb, leb, ◌==◌,
  if◌then◌else◌, Bytes, equal,
}
use jcs_schubfach.Jcs.Keys.{compare_units, is_less}
use jcs_schubfach.Sort.{sort_by}
use jcs_schubfach.Unicode.Utf8.{decode_rune, in_range}

-- `unicode.IsSpace`
abbrev pub is_space_rune : ℕ → Bool
is_space_rune r =
    in_range 9 13 r
    || (r == 32
        || (r == 0x85
            || (r == 0xA0
                || (r == 0x1680
                    || (in_range 0x2000 0x200A r
                        || (r == 0x2028
                            || (r == 0x2029 || (r == 0x202F || (r == 0x205F || r == 0x3000)))))))))

-- The first argument of these counts the bytes of the current rune that are still to be passed.
unfoldable pub all_space : ℕ → Bytes → Bool
all_space skip [] = true
all_space (suc k) (b ∷ r) = all_space k r
all_space zero (b ∷ r) = let d = decode_rune (b ∷ r) in is_space_rune d.0 && all_space (d.1 - 1) r

unfoldable pub trim_left : ℕ → Bytes → Bytes
trim_left skip [] = []
trim_left (suc k) (b ∷ r) = trim_left k r
trim_left zero (b ∷ r) =
    let d = decode_rune (b ∷ r) in
    let more = trim_left (d.1 - 1) r in if is_space_rune d.0 then more else b ∷ r

unfoldable pub trim_right : ℕ → Bytes → Bytes
trim_right skip [] = []
trim_right (suc k) (b ∷ r) = b ∷ trim_right k r
trim_right zero (b ∷ r) =
    let more = b ∷ trim_right ((decode_rune (b ∷ r)).1 - 1) r in
    if all_space 0 (b ∷ r) then [] else more

-- `strings.TrimSpace`
abbrev pub trim_space : Bytes → Bytes
trim_space s = trim_right 0 (trim_left 0 s)

-- `strings.ContainsAny(s, " \t\r\n")`
unfoldable pub has_blank : Bytes → Bool
has_blank [] = false
has_blank (b ∷ s) = (b == 32 || (b == 9 || (b == 13 || b == 10))) || has_blank s

-- A digit that `hex.DecodeString` takes.
abbrev pub is_hex_digit : ℕ → Bool
is_hex_digit c = in_range b'0' b'9' c || (in_range b'a' b'f' c || in_range b'A' b'F' c)

unfoldable pub all_hex : Bytes → Bool
all_hex [] = true
all_hex (c ∷ s) = is_hex_digit c && all_hex s

-- `strings.Join`
unfoldable pub join : Bytes → List Bytes → Bytes
join sep [] = []
join sep (s ∷ []) = s
join sep (s ∷ t ∷ ss) = s ++ (sep ++ join sep (t ∷ ss))

-- `strings.HasPrefix`
unfoldable pub has_prefix : Bytes → Bytes → Bool
has_prefix [] s = true
has_prefix (c ∷ cs) [] = false
has_prefix (c ∷ cs) (b ∷ s) = c == b && has_prefix cs s

-- `strings.Contains(s, t)`
unfoldable pub contains : Bytes → Bytes → Bool
contains [] t = has_prefix t []
contains (b ∷ s) t = has_prefix t (b ∷ s) || contains s t

-- A set of strings, as the list of what has been put in.
unfoldable pub has : Bytes → List Bytes → Bool
has s [] = false
has s (t ∷ ts) = equal s t || has s ts

-- The order of strings, by their bytes.
abbrev pub string_less : Bytes → Bytes → Bool
string_less s t = is_less (compare_units s t)

-- `sort.Strings`
unfoldable pub sort_strings : List Bytes → List Bytes
unfolding sort_by
sort_strings = sort_by string_less
