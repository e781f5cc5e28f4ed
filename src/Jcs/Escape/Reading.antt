-- ===== src/Jcs/Escape/Reading.antt =====
-- jcs/serialize.go against jcstoken/token.go: the escapes that the writer makes, as the parser reads
-- them.
use jcs_schubfach.Prelude.{
  ℕ, suc, ◌+◌, ◌*◌, ◌/◌, ◌%◌, ◌<◌, ◌≡◌, ◌≢◌, refl, ap, ◌∙◌, ◌⊎◌, inl, inr, some, false, [], ◌∷◌,
  ◌++◌, arith, Bytes, length, drop, le→ltb, ne→==,
}
use jcs_schubfach.Jcstoken.State.{Parser}
use jcs_schubfach.Jcstoken.Strings.{
  hex_val, hex_digits, read_hex4, parse_unicode_escape, escaped_rune, parse_escape,
}
use jcs_schubfach.Jcs.Escape.{backslashed, hex_digit, escaped_byte}
use jcs_schubfach.Result.{ok}
use jcs_schubfach.Unicode.Utf16.{is_surrogate}

-- The parser `p` at another place.
abbrev pub put : Parser → Bytes → ℕ → Parser
put p s n = record p { rest = s; at = n }

abbrev pub second : Bytes → ℕ
second (a ∷ b ∷ s) = b
second s = 0

-- The escapes that `serializeString` writes: a letter that `escapedRune` reads, or `\u00xx`.
pub escaped_byte-cases :
    (r : ℕ) (out : Bytes)
    → escaped_byte r ≡ some out
    → ((out ≡ backslashed (second out))
        × (escaped_rune (second out) ≡ some r)
        × (second out ≢ b'u'))
      ⊎ ((r < 0x20)
          × (out ≡ b'\\' ∷ b'u' ∷ b'0' ∷ b'0' ∷ hex_digit (r / 16) ∷ hex_digit (r % 16) ∷ []))
unfolding escaped_byte escaped_rune
escaped_byte-cases r out h = ground arith

pub hex_val-hex_digit : (d : ℕ) → d < 16 → hex_val (hex_digit d) ≡ some d
unfolding hex_val
hex_val-hex_digit d h = ground arith

pub hex_val-zero : hex_val b'0' ≡ some 0
unfolding hex_val
hex_val-zero = refl

pub hex_digits-step :
    (b d v : ℕ) (s : Bytes) → hex_val b ≡ some d → hex_digits (b ∷ s) v ≡ hex_digits s (v * 16 + d)
unfolding hex_digits
hex_digits-step b d v s e = rw (e, hex_digits)

pub hex_digits-low :
    (r : ℕ)
    → r < 0x100
    → hex_digits (b'0' ∷ b'0' ∷ hex_digit (r / 16) ∷ hex_digit (r % 16) ∷ []) 0 ≡ some r
hex_digits-low r h =
    hex_digits-step b'0' 0 0 _ hex_val-zero
    ∙ hex_digits-step b'0' 0 0 _ hex_val-zero
    ∙ hex_digits-step (hex_digit (r / 16)) (r / 16) 0 _ (hex_val-hex_digit (r / 16) (omega arith))
    ∙ hex_digits-step (hex_digit (r % 16)) (r % 16) (0 * 16 + r / 16) []
        (hex_val-hex_digit (r % 16) (omega arith))
    ∙ unfold hex_digits in ap some (omega arith)

pub read_hex4-four :
    (a b c d v off n : ℕ) (s : Bytes) (p : Parser)
    → hex_digits (a ∷ b ∷ c ∷ d ∷ []) 0 ≡ some v
    → read_hex4 off (put p (a ∷ b ∷ c ∷ d ∷ s) n) ≡ ok (v, put p s (n + 4))
unfolding read_hex4
read_hex4-four a b c d v off n s p e =
    let long = le→ltb (suc (suc (suc (suc (length s))))) 4 (omega arith) in rw (long, e, read_hex4)

pub letter_escape :
    (c r off n : ℕ) (s : Bytes) (p : Parser)
    → escaped_rune c ≡ some r
    → c ≢ b'u'
    → parse_escape off (put p (c ∷ s) n) ≡ ok (r, put p s (n + 1))
unfolding parse_escape
letter_escape c r off n s p e no_u = rw (ne→== c b'u' no_u, e, parse_escape)

pub low-not-surrogate : (r : ℕ) → r < 0x20 → is_surrogate r ≡ false
low-not-surrogate r h = ground arith

pub control :
    (r off n : ℕ) (s : Bytes) (p : Parser)
    → r < 0x20
    → parse_escape off (put p (b'u' ∷ b'0' ∷ b'0' ∷ hex_digit (r / 16) ∷ hex_digit (r % 16) ∷ s) n)
      ≡ ok (r, put p s (n + 5))
unfolding parse_escape parse_unicode_escape
control r off n s p h =
    let read =
      read_hex4-four b'0' b'0' (hex_digit (r / 16)) (hex_digit (r % 16)) r off (n + 1) s p
        (hex_digits-low r (omega arith)) in
    rw (read, low-not-surrogate r h, parse_unicode_escape)
      (ap (λ k. ok (r, put p s k)) (omega arith))

-- Behind the backslash of an escape that the writer made, the parser reads the code point.
pub parse_escape-form :
    (r off n : ℕ) (out s : Bytes) (p : Parser)
    → escaped_byte r ≡ some out
    → parse_escape off (put p (drop 1 out ++ s) n) ≡ ok (r, put p s (n + length (drop 1 out)))
unfolding parse_escape parse_unicode_escape
parse_escape-form r off n out s p h = elim (escaped_byte-cases r out h) [
  | inl (shape, letter, no_u) ↦ letter_case (second out) shape letter no_u
  | inr (low, shape) ↦ rw shape (control r off n s p low)
]
  where
    letter_case :
        (c : ℕ)
        → out ≡ backslashed c
        → escaped_rune c ≡ some r
        → c ≢ b'u'
        → parse_escape off (put p (drop 1 out ++ s) n) ≡ ok (r, put p s (n + length (drop 1 out)))
    letter_case c shape letter no_u = rw shape (letter_escape c r off n s p letter no_u)
