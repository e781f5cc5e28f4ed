-- ===== src/Jcstoken/Number/Ascii.antt =====
-- jcstoken/token.go: the bytes that the number scanner steps over.
use mathlib.Core.Path.{subst}
use jcs_schubfach.Prelude.{
  ℕ, ◌+◌, ◌-◌, ◌<◌, ◌≡◌, refl, ap, ◌∙◌, inl, inr, Option-cases, Bool, true, false, not, ◌||◌,
  Bool-cases, some, [], ◌∷◌, arith, ltb, ◌==◌, if◌then◌else◌, Bytes, get_elem?, take, drop,
  not-false, All,
}
use jcs_schubfach.Float64.{Float64}
use jcs_schubfach.Float64.Parse.{is_digit}
use jcs_schubfach.Jcserr.{new, bound_exceeded, invalid_grammar}
use jcs_schubfach.Prelude.Int.{pos}
use jcs_schubfach.Jcstoken.Number.{
  at_digit, at_byte, build_number_value, digits_from, scan_digits, scan_zero_integer_part,
  scan_integer_part, scan_fraction_part, scan_exponent_part, parse_number,
}
use jcs_schubfach.Jcstoken.Options.{Limits}
use jcs_schubfach.Jcstoken.State.{Parser, new_error, advance, peek}
use jcs_schubfach.Result.{
  unless-eq-ok, fail-ok, Result, ok, err, out_of_fuel, WhenOk, gives, failed, starved, WhenOk-bind,
  WhenOk-map, bind-eq-ok, reject_if,
}

-- The sign or the first digit of a number.
abbrev pub starts_number : ℕ → Bool
starts_number c = c == b'-' || is_digit c

abbrev pub IsAscii : Bytes → Type 0
IsAscii s = All (λ b. b < 0x80) s

-- Between `p` and `q` stand ASCII bytes only.
abbrev AsciiTo : Parser → Parser → Type 0
AsciiTo p q = IsAscii q.rest → IsAscii p.rest

WhenOk-test :
    {A : Type 0} {P : A → Type 0} (b : Bool) {x y : Result A}
    → (b ≡ true → WhenOk P x)
    → (b ≡ false → WhenOk P y)
    → WhenOk P (if b then x else y)
WhenOk-test true h k = h refl
WhenOk-test false h k = k refl

-- Anything of a result of which nothing is asked.
WhenOk-any : {A : Type 0} (r : Result A) → WhenOk (λ _. Unit {0}) r
WhenOk-any (ok a) = gives tt
WhenOk-any (err e) = failed
WhenOk-any out_of_fuel = starved

peek-AsciiTo : (p : Parser) {b : ℕ} → peek p ≡ some b → b < 0x80 → AsciiTo p (advance 1 p)
peek-AsciiTo p {b} e low h = go p.rest e h
  where
    go : (s : Bytes) → get_elem? s 0 ≡ some b → IsAscii (drop 1 s) → IsAscii s
    go [] f k = tt
    go (c ∷ s) f k = (subst (λ x. x < 0x80) (cc f) low, k)

at_byte-AsciiTo : (c : ℕ) (p : Parser) → c < 0x80 → at_byte c p ≡ true → AsciiTo p (advance 1 p)
at_byte-AsciiTo c p low h = elim (Option-cases (peek p)) [
  | inl e ↦ absurd (ground arith)
  | inr (b, e) ↦ peek-AsciiTo p e (ground arith)
]

at_either-AsciiTo :
    (c d : ℕ) (p : Parser)
    → c < 0x80
    → d < 0x80
    → (at_byte c p || at_byte d p) ≡ true
    → AsciiTo p (advance 1 p)
at_either-AsciiTo c d p low also h = elim (Bool-cases (at_byte c p)) [
  | inl e ↦ at_byte-AsciiTo c p low e
  | inr e ↦ at_byte-AsciiTo d p also (rw e at h)
]

at_byte-peek : (c : ℕ) (p : Parser) → at_byte c p ≡ true → peek p ≡ some c
at_byte-peek c p h = elim (Option-cases (peek p)) [
  | inl e ↦ absurd (ground arith)
  | inr (b, e) ↦ e ∙ ap some (ground arith)
]

step_if-AsciiTo :
    (b : Bool) (p : Parser)
    → (b ≡ true → AsciiTo p (advance 1 p))
    → AsciiTo p (if b then advance 1 p else p)
step_if-AsciiTo true p h = h refl
step_if-AsciiTo false p h = λ k. k

module _ (lim : Limits) (start : ℕ) where
  digits_from-AsciiTo :
      (s : Bytes) (n : ℕ) → WhenOk (λ r. IsAscii r.0 → IsAscii s) (digits_from lim start s n)
  unfolding digits_from
  digits_from-AsciiTo [] n = gives λ h. h
  digits_from-AsciiTo (b ∷ s) n =
      WhenOk-test (is_digit b)
        (λ digit.
          WhenOk-test (ltb lim.max_number_chars (n + 1 - start)) (λ _. failed)
            λ _. WhenOk-map (digits_from-AsciiTo s (n + 1)) λ r h k. (ground (arith, digit), h k))
        (λ _. gives λ h. h)

  scan_digits-AsciiTo : (p : Parser) → WhenOk (AsciiTo p) (scan_digits lim start p)
  scan_digits-AsciiTo p = WhenOk-bind (digits_from-AsciiTo p.rest p.at) λ r h. gives h

  scan_zero_integer_part-AsciiTo :
      (p : Parser) → AsciiTo p (advance 1 p) → WhenOk (AsciiTo p) (scan_zero_integer_part lim p)
  unfolding scan_zero_integer_part
  scan_zero_integer_part-AsciiTo p h =
      WhenOk-test (at_digit (advance 1 p)) (λ _. failed) (λ _. gives h)

  scan_integer_part-AsciiTo : (p : Parser) → WhenOk (AsciiTo p) (scan_integer_part lim start p)
  unfolding scan_integer_part
  scan_integer_part-AsciiTo p = elim (Option-cases (peek p)) [
    | inl e ↦ rw (e, scan_integer_part) failed
    | inr (b, e) ↦
        rw (e, scan_integer_part)
          (WhenOk-test (b == b'0')
            (λ zero_. scan_zero_integer_part-AsciiTo p (peek-AsciiTo p e (ground (arith, zero_))))
            (λ _.
              WhenOk-test (ltb b b'1' || ltb b'9' b) (λ _. failed) λ digit. scan_digits-AsciiTo p))
  ]

  scan_fraction_part-AsciiTo : (p : Parser) → WhenOk (AsciiTo p) (scan_fraction_part lim start p)
  unfolding scan_fraction_part
  scan_fraction_part-AsciiTo p =
      WhenOk-test (not (at_byte b'.' p)) (λ _. gives λ h. h)
        λ point.
          WhenOk-test (not (at_digit (advance 1 p))) (λ _. failed)
            λ _.
              WhenOk-map (scan_digits-AsciiTo (advance 1 p))
                λ q h k. at_byte-AsciiTo b'.' p (omega arith) (not-false _ point) (h k)

  scan_exponent_part-AsciiTo : (p : Parser) → WhenOk (AsciiTo p) (scan_exponent_part lim start p)
  unfolding scan_exponent_part
  scan_exponent_part-AsciiTo p =
      let q = advance 1 p in
      let signed = at_byte b'+' q || at_byte b'-' q in
      let r = if signed then advance 1 q else q in
      WhenOk-test (not (at_byte b'e' p || at_byte b'E' p)) (λ _. gives λ h. h)
        λ mark.
          WhenOk-test (not (at_digit r)) (λ _. failed)
            λ _. WhenOk-map (scan_digits-AsciiTo r) λ t h k.
              at_either-AsciiTo b'e' b'E' p (omega arith) (omega arith) (not-false _ mark) (
                step_if-AsciiTo signed q (at_either-AsciiTo b'+' b'-' q (omega arith) (omega arith))
                  (h k))

module _ (lim : Limits) where
  -- A number token is in ASCII.
  pub parse_number-AsciiTo :
      (p : Parser) → WhenOk (λ r. IsAscii r.1.rest → IsAscii p.rest) (parse_number lim p)
  unfolding parse_number
  parse_number-AsciiTo p =
      let minus = at_byte b'-' p in
      let s = if minus then advance 1 p else p in
      let sign = step_if-AsciiTo minus p (at_byte-AsciiTo b'-' p (omega arith)) in
      WhenOk-bind (scan_integer_part-AsciiTo lim p.at s) λ a h.
        WhenOk-bind (scan_fraction_part-AsciiTo lim p.at a) λ b i.
          WhenOk-bind (scan_exponent_part-AsciiTo lim p.at b) λ q j.
            WhenOk-bind
              (WhenOk-any (
                reject_if (ltb lim.max_number_chars (q.at - p.at)) (new bound_exceeded (pos p.at))))
              λ _ _.
                WhenOk-bind (WhenOk-any (build_number_value p.at (take (q.at - p.at) p.rest)))
                  λ f _. gives λ k. sign (h (i (j k)))

  scan_integer_part-digit :
      (start : ℕ) (p : Parser) {q : Parser}
      → scan_integer_part lim start p ≡ ok q
      → (c : ℕ) × (peek p ≡ some c) × (is_digit c ≡ true)
  unfolding scan_integer_part
  scan_integer_part-digit start p e = elim (Option-cases (peek p)) [
    | inl none_ ↦ absurd (fail-ok (rw (none_, scan_integer_part) at e))
    | inr (c, first) ↦ (c, first, digit c (rw (first, scan_integer_part) at e))
  ]
    where
      digit :
          (c : ℕ) {q : Parser}
          → (if c == b'0'
              then scan_zero_integer_part lim p
              else if ltb c b'1' || ltb b'9' c
              then new_error invalid_grammar p
              else scan_digits lim start p)
            ≡ ok q
          → is_digit c ≡ true
      digit c h = elim (Bool-cases (c == b'0')) [
        | inl zero_ ↦ ground (arith, zero_)
        | inr other ↦
            let (fits, _) = unless-eq-ok (ltb c b'1' || ltb b'9' c) _ _ _ (rw other at h) in
            ground (arith, other, fits)
      ]

  -- `parseNumber` accepts only what starts as a number.
  pub parse_number-starts :
      (p : Parser) {r : Float64 × Parser}
      → parse_number lim p ≡ ok r
      → (c : ℕ) × (peek p ≡ some c) × (starts_number c ≡ true)
  unfolding parse_number
  parse_number-starts p e =
      let s = if at_byte b'-' p then advance 1 p else p in
      let (a, int, _) = bind-eq-ok (scan_integer_part lim p.at s) _ e in
      let (c, first, digit) = scan_integer_part-digit p.at s int in
      elim (Bool-cases (at_byte b'-' p)) [
        | inl minus ↦ (b'-', at_byte-peek b'-' p minus, refl)
        | inr other ↦ (c, unsigned c other first, ground (arith, digit))
      ]
    where
      unsigned :
          (c : ℕ)
          → at_byte b'-' p ≡ false
          → peek (if at_byte b'-' p then advance 1 p else p) ≡ some c
          → peek p ≡ some c
      unsigned c other first = rw other at first
