-- ===== src/Jcstoken/Strings/Escapes.antt =====
-- jcstoken/token.go: what the escapes of a string literal can decode to.
use jcs_schubfach.Prelude.{
  ℕ, ◌≤◌, ◌<◌, ◌≡◌, ◌≢◌, inl, inr, Option-cases, Option, true, not-false, not, leb, ◌==◌, some,
  none, [], ◌∷◌, arith, Bytes, length, take,
}
use jcs_schubfach.Jcstoken.State.{Parser, advance, peek}
use jcs_schubfach.Jcstoken.State.Moves.{Moves, Moves-trans, advance-Moves, peek-next}
use jcs_schubfach.Jcstoken.Strings.{
  at_u_escape, hex_val, hex_digits, read_hex4, parse_low_surrogate, parse_unicode_escape,
  escaped_rune, parse_escape,
}
use jcs_schubfach.Result.{
  ok, out_of_fuel, Ensures, holds, rejected, Ensures-bind, Ensures-if, Ensures-map, Ensures-of,
  fail, Ensures-reject,
}
use jcs_schubfach.Jcserr.{invalid_grammar}
use jcs_schubfach.Prelude.Int.{pos}
use jcs_schubfach.Unicode.Utf16.{is_surrogate, decode_pair}

-- A digit, if there is one, is below sixteen.
abbrev IsDigit16 : Option ℕ → Type 0
IsDigit16 none = Unit
IsDigit16 (some d) = d < 16

hex_val-IsDigit16 : (b : ℕ) → IsDigit16 (hex_val b)
unfolding hex_val
hex_val-IsDigit16 b = ground arith

hex_digits-lt : (s : Bytes) {v : ℕ} → hex_digits (take 4 s) 0 ≡ some v → v < 0x10000
unfolding hex_digits
hex_digits-lt [] h = ground arith
hex_digits-lt (a ∷ []) h = ground (arith, hex_val-IsDigit16 a)
hex_digits-lt (a ∷ b ∷ []) h = ground (arith, hex_val-IsDigit16 a, hex_val-IsDigit16 b)
hex_digits-lt (a ∷ b ∷ c ∷ []) h =
    ground (arith, hex_val-IsDigit16 a, hex_val-IsDigit16 b, hex_val-IsDigit16 c)
hex_digits-lt (a ∷ b ∷ c ∷ d ∷ s) h =
    ground
      (arith, hex_val-IsDigit16 a, hex_val-IsDigit16 b, hex_val-IsDigit16 c, hex_val-IsDigit16 d)

read_hex4-ok :
    (off : ℕ) (p : Parser) (v : ℕ) (q : Parser)
    → read_hex4 off p ≡ ok (v, q)
    → (v < 0x10000) × Moves p q
unfolding read_hex4
read_hex4-ok off p v q h = ground (arith, hex_digits-lt p.rest {v = v}, advance-Moves 4 p)

read_hex4-total : (off : ℕ) (p : Parser) → read_hex4 off p ≢ out_of_fuel
unfolding read_hex4
read_hex4-total off p = ground arith

-- What a result of the escape functions satisfies.
abbrev pub IsEscape : Parser → ℕ × Parser → Type 0
IsEscape p r = (r.0 ≤ 0x10FFFF) × Moves p r.1

read_hex4-Ensures :
    (off : ℕ) (p : Parser) → Ensures (λ r. (r.0 < 0x10000) × Moves p r.1) (read_hex4 off p)
read_hex4-Ensures off p =
    Ensures-of (read_hex4 off p) (read_hex4-total off p) (λ r h. read_hex4-ok off p r.0 r.1 h)

decode_pair-le : (r1 r2 : ℕ) → decode_pair r1 r2 ≤ 0x10FFFF
unfolding decode_pair
decode_pair-le r1 r2 = ground arith

at_u_escape-length : (s : Bytes) → at_u_escape s ≡ true → 2 ≤ length s
at_u_escape-length [] h = cc
at_u_escape-length (a ∷ []) h = cc
at_u_escape-length (a ∷ b ∷ s) h = omega arith

escaped_rune-le : (b : ℕ) {r : ℕ} → escaped_rune b ≡ some r → r ≤ 0x10FFFF
unfolding escaped_rune
escaped_rune-le b h = ground arith

parse_low_surrogate-Ensures :
    (r1 off : ℕ) (p : Parser) → Ensures (IsEscape p) (parse_low_surrogate r1 off p)
unfolding parse_low_surrogate
parse_low_surrogate-Ensures r1 off p = Ensures-reject _ _ λ escaped.
    Ensures-bind (read_hex4-Ensures p.at (advance 2 p)) λ r h. Ensures-reject _ _ λ _.
      Ensures-reject _ _ λ _.
        let behind = advance-Moves 2 p (at_u_escape-length p.rest (not-false _ escaped)) in
        holds (decode_pair-le r1 r.0, Moves-trans behind h.1)

parse_unicode_escape-Ensures :
    (off : ℕ) (p : Parser) → Ensures (IsEscape p) (parse_unicode_escape off p)
unfolding parse_unicode_escape
parse_unicode_escape-Ensures off p = Ensures-bind (read_hex4-Ensures off p) λ r h.
    Ensures-if (not (is_surrogate r.0)) (λ _. holds {a = r} (omega arith, h.1))
      λ _.
        Ensures-if (leb 0xDC00 r.0) (λ _. rejected)
          λ _.
            Ensures-map (parse_low_surrogate-Ensures r.0 off r.1) λ t k. (k.0, Moves-trans h.1 k.1)

escaped_rune-Ensures :
    (off b : ℕ) (p : Parser)
    → Moves p (advance 1 p)
    → Ensures (IsEscape p) (elim (escaped_rune b) [
      | none ↦ fail invalid_grammar (pos off)
      | some r ↦ ok (r, advance 1 p)
    ])
escaped_rune-Ensures off b p h = elim (Option-cases (escaped_rune b)) [
  | inl e ↦ rw e rejected
  | inr (r, e) ↦ rw e (holds (escaped_rune-le b e, h))
]

-- A decoded escape is a code point.
pub parse_escape-Ensures : (off : ℕ) (p : Parser) → Ensures (IsEscape p) (parse_escape off p)
unfolding parse_escape
parse_escape-Ensures off p = elim (Option-cases (peek p)) [
  | inl e ↦ rw (e, parse_escape) rejected
  | inr (b, e) ↦
      let behind = (peek-next p e).0 in
      rw (e, parse_escape)
        (Ensures-if (b == b'u')
          (λ _.
            Ensures-map (parse_unicode_escape-Ensures off (advance 1 p))
              λ t k. (k.0, Moves-trans behind k.1))
          (λ _. escaped_rune-Ensures off b p behind))
]
