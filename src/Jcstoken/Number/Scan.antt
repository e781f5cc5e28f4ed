-- ===== src/Jcstoken/Number/Scan.antt =====
-- jcstoken/token.go: how far the number scanner reads, and which doubles it lets through.
use jcs_schubfach.Prelude.{
  ℕ, ◌+◌, ◌-◌, ◌≤◌, ◌<◌, ◌≡◌, refl, inl, inr, Option-cases, Bool, true, false, not, ◌||◌,
  Bool-cases, some, [], ◌∷◌, arith, ltb, ◌==◌, if◌then◌else◌, Bytes, length, get_elem?, take,
  not-false,
}
use jcs_schubfach.Float64.{is_nan, is_inf}
use jcs_schubfach.Float64.Parse.{Parsed, is_digit, parse_float, syntax, range, finite}
use jcs_schubfach.Jcserr.{invalid_grammar}
use jcs_schubfach.Prelude.Int.{pos}
use jcs_schubfach.Jcstoken.Number.{
  at_digit, at_byte, classify_double, build_number_value, digits_from, scan_digits,
  scan_zero_integer_part, scan_integer_part, scan_fraction_part, scan_exponent_part, parse_number,
}
use jcs_schubfach.Jcstoken.Options.{Limits}
use jcs_schubfach.Jcstoken.State.{Parser, advance, peek}
use jcs_schubfach.Jcstoken.State.Moves.{Moves, Moves-refl, Moves-trans, peek-next}
use jcs_schubfach.Result.{
  fail, Ensures, holds, rejected, Ensures-bind, Ensures-if, Ensures-map, Ensures-reject,
}

-- A double that is no NaN and no infinity.
abbrev pub IsFinite : ℕ → Type 0
IsFinite f = (is_nan f || is_inf f) ≡ false

classify_double-IsFinite :
    (start : ℕ) (raw : Bytes) (f : ℕ) → Ensures IsFinite (classify_double start raw f)
unfolding classify_double
classify_double-IsFinite start raw f =
    Ensures-reject _ _ λ finite. Ensures-reject _ _ λ _. Ensures-reject _ _ λ _. holds finite

-- Every number that is accepted is finite.
pub build_number_value-IsFinite :
    (start : ℕ) (raw : Bytes) → Ensures IsFinite (build_number_value start raw)
unfolding build_number_value
build_number_value-IsFinite start raw = go (parse_float raw)
  where
    go :
        (p : Parsed)
        → Ensures IsFinite (elim p [
          | syntax ↦ fail invalid_grammar (pos start)
          | range f ↦ classify_double start raw f
          | finite f ↦ classify_double start raw f
        ])
    go syntax = rejected
    go (range f) = classify_double-IsFinite start raw f
    go (finite f) = classify_double-IsFinite start raw f

module _ (lim : Limits) (start : ℕ) where
  digits_from-end :
      (s : Bytes) (n : ℕ)
      → Ensures
          (λ r. (r.1 + length r.0 ≡ n + length s) × (length r.0 ≤ length s))
          (digits_from lim start s n)
  unfolding digits_from
  digits_from-end [] n = holds (refl, omega arith)
  digits_from-end (b ∷ s) n =
      Ensures-if (is_digit b)
        (λ _.
          Ensures-if (ltb lim.max_number_chars (n + 1 - start)) (λ _. rejected)
            λ _. Ensures-map (digits_from-end s (n + 1)) λ r h. (omega arith, omega arith))
        (λ _. holds (refl, omega arith))

  scan_digits-Moves : (p : Parser) → Ensures (Moves p) (scan_digits lim start p)
  scan_digits-Moves p = Ensures-bind (digits_from-end p.rest p.at) λ r h. holds (omega arith)

  -- Input was read.
  abbrev Reads : Parser → Parser → Type 0
  Reads p q = Moves p q × (length q.rest < length p.rest)

  -- At a digit the scanner reads at least that.
  digits_from-reads :
      (s : Bytes) (n : ℕ) {b : ℕ}
      → get_elem? s 0 ≡ some b
      → is_digit b ≡ true
      → Ensures
          (λ r. (r.1 + length r.0 ≡ n + length s) × (length r.0 < length s))
          (digits_from lim start s n)
  unfolding digits_from
  digits_from-reads [] n e d = cc
  digits_from-reads (c ∷ s) n e d =
      Ensures-if (is_digit c)
        (λ _.
          Ensures-if (ltb lim.max_number_chars (n + 1 - start)) (λ _. rejected)
            λ _. Ensures-map (digits_from-end s (n + 1)) λ r h. (omega arith, omega arith))
        (λ other. ground arith)

  scan_digits-Reads :
      (p : Parser) {b : ℕ}
      → peek p ≡ some b
      → is_digit b ≡ true
      → Ensures (Reads p) (scan_digits lim start p)
  scan_digits-Reads p e d =
      Ensures-bind (digits_from-reads p.rest p.at e d) λ r h. holds (omega arith, omega arith)

  scan_zero_integer_part-Reads :
      (p : Parser) → Reads p (advance 1 p) → Ensures (Reads p) (scan_zero_integer_part lim p)
  unfolding scan_zero_integer_part
  scan_zero_integer_part-Reads p h =
      Ensures-if (at_digit (advance 1 p)) (λ _. rejected) (λ _. holds h)

  scan_integer_part-Reads : (p : Parser) → Ensures (Reads p) (scan_integer_part lim start p)
  unfolding scan_integer_part
  scan_integer_part-Reads p = elim (Option-cases (peek p)) [
    | inl e ↦ rw (e, scan_integer_part) rejected
    | inr (b, e) ↦
        let behind = peek-next p e in
        rw (e, scan_integer_part)
          (Ensures-if (b == b'0')
            (λ _. scan_zero_integer_part-Reads p (behind.0, omega (arith, behind.1)))
            (λ _.
              Ensures-if (ltb b b'1' || ltb b'9' b) (λ _. rejected)
                λ digit. scan_digits-Reads p e (ground arith)))
  ]

  -- A test of the byte at the position that holds leaves room to step over it.
  at_byte-Moves : (c : ℕ) (p : Parser) → at_byte c p ≡ true → Moves p (advance 1 p)
  at_byte-Moves c p h = elim (Option-cases (peek p)) [
    | inl e ↦ ground arith
    | inr (b, e) ↦ (peek-next p e).0
  ]

  at_either-Moves :
      (c d : ℕ) (p : Parser) → (at_byte c p || at_byte d p) ≡ true → Moves p (advance 1 p)
  at_either-Moves c d p h = elim (Bool-cases (at_byte c p)) [
    | inl e ↦ at_byte-Moves c p e
    | inr e ↦ at_byte-Moves d p (rw e at h)
  ]

  scan_fraction_part-Moves : (p : Parser) → Ensures (Moves p) (scan_fraction_part lim start p)
  unfolding scan_fraction_part
  scan_fraction_part-Moves p =
      Ensures-if (not (at_byte b'.' p)) (λ _. holds (Moves-refl p))
        λ point.
          Ensures-if (not (at_digit (advance 1 p))) (λ _. rejected)
            λ _.
              Ensures-map (scan_digits-Moves (advance 1 p))
                λ q h. Moves-trans (at_byte-Moves b'.' p (not-false _ point)) h

  -- Over the sign of an exponent or a number, if there is one.
  step_if-Moves :
      (b : Bool) (p : Parser)
      → (b ≡ true → Moves p (advance 1 p))
      → Moves p (if b then advance 1 p else p)
  step_if-Moves true p h = h refl
  step_if-Moves false p h = Moves-refl p

  scan_exponent_part-Moves : (p : Parser) → Ensures (Moves p) (scan_exponent_part lim start p)
  unfolding scan_exponent_part
  scan_exponent_part-Moves p =
      let q = advance 1 p in
      let signed = at_byte b'+' q || at_byte b'-' q in
      let r = if signed then advance 1 q else q in
      Ensures-if (not (at_byte b'e' p || at_byte b'E' p)) (λ _. holds (Moves-refl p))
        λ mark.
          Ensures-if (not (at_digit r)) (λ _. rejected)
            λ _. Ensures-map (scan_digits-Moves r) λ t h.
              Moves-trans (at_either-Moves b'e' b'E' p (not-false _ mark))
                (Moves-trans (step_if-Moves signed q (at_either-Moves b'+' b'-' q)) h)

module _ (lim : Limits) where
  -- `parseNumber` ends. A number token that it accepts gives a finite double; the parser has moved
  -- forward by at least one byte and has kept its depth and its count of values.
  pub parse_number-Ensures :
      (p : Parser)
      → Ensures
          (λ r. IsFinite r.0 × Moves p r.1 × (length r.1.rest < length p.rest))
          (parse_number lim p)
  unfolding parse_number
  parse_number-Ensures p =
      let minus = at_byte b'-' p in
      let s = if minus then advance 1 p else p in
      let sign = step_if-Moves lim p.at minus p (at_byte-Moves lim p.at b'-' p) in
      Ensures-bind (scan_integer_part-Reads lim p.at s) λ a h.
        Ensures-bind (scan_fraction_part-Moves lim p.at a) λ b i.
          Ensures-bind (scan_exponent_part-Moves lim p.at b) λ q j. Ensures-reject _ _ λ _.
            Ensures-bind (build_number_value-IsFinite p.at (take (q.at - p.at) p.rest)) λ f k.
              let moved = Moves-trans sign (Moves-trans h.0 (Moves-trans i j)) in
              holds (k, moved, omega (arith, h.1, i.no_back, j.no_back, sign.no_back))
