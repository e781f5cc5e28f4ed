-- ===== src/Jcstoken/Number/Anywhere.antt =====
-- jcstoken/token.go: a number token is read alike at any position and in front of anything that does
-- not continue it.
use jcs_schubfach.Prelude.{
  ℕ, zero, suc, ◌+◌, ◌-◌, ◌≤◌, ◌≡◌, refl, ap, ◌∙◌, not, ◌&&◌, ◌||◌, [], ◌∷◌, ◌++◌, arith, ltb,
  if◌then◌else◌, Bytes, length, take,
}
use jcs_schubfach.Float64.{Float64, is_nan, is_inf, is_zero}
use jcs_schubfach.Float64.Parse.{Parsed, parse_float, syntax, range, finite}
use jcs_schubfach.Prelude.Int.{pos}
use jcs_schubfach.Jcserr.{invalid_grammar}
use jcs_schubfach.Jcstoken.Number.{
  at_byte, token_represents_zero, has_minus, classify_double, build_number_value, scan_integer_part,
  scan_fraction_part, scan_exponent_part, parse_number,
}
use jcs_schubfach.Jcstoken.Number.Local.{
  Stops, relocate, at_byte-relocate, step_if-relocate, at_byte-pos, scan_integer_part-relocate,
  scan_fraction_part-relocate, scan_exponent_part-relocate,
}
use jcs_schubfach.Jcstoken.Number.Scan.{parse_number-Ensures}
use jcs_schubfach.Jcstoken.Options.{Limits}
use jcs_schubfach.Jcstoken.State.{Parser, advance}
use jcs_schubfach.Result.{ok_inj, Result, ok, fail, reject_if, Ensures-ok, bind-eq-ok, reject-eq-ok}

-- The position stands in the errors only.
classify_double-start :
    (s t : ℕ) (raw : Bytes) (x : Float64) {f : Float64}
    → classify_double s raw x ≡ ok f
    → classify_double t raw x ≡ ok f
unfolding classify_double reject_if
classify_double-start s t raw x e =
    let (finite_, e1) = reject-eq-ok (is_nan x || is_inf x) _ _ e in
    let (plain, e2) = reject-eq-ok (has_minus raw && token_represents_zero raw) _ _ e1 in
    let (exact, e3) = reject-eq-ok (is_zero x && not (token_represents_zero raw)) _ _ e2 in
    rw (finite_, plain, exact) e3

abbrev built : ℕ → Bytes → Parsed → Result Float64
built start raw p = elim p [
  | syntax ↦ fail invalid_grammar (pos start)
  | range x ↦ classify_double start raw x
  | finite x ↦ classify_double start raw x
]

built-start :
    (s t : ℕ) (raw : Bytes) (p : Parsed) {f : Float64} → built s raw p ≡ ok f → built t raw p ≡ ok f
built-start s t raw syntax h = cc
built-start s t raw (range x) h = classify_double-start s t raw x h
built-start s t raw (finite x) h = classify_double-start s t raw x h

build_number_value-start :
    (s t : ℕ) (raw : Bytes) {f : Float64}
    → build_number_value s raw ≡ ok f
    → build_number_value t raw ≡ ok f
unfolding build_number_value
build_number_value-start s t raw e = built-start s t raw (parse_float raw) e

take-append_le : (m : ℕ) (s t : Bytes) → m ≤ length s → take m (s ++ t) ≡ take m s
take-append_le zero s t h = refl
take-append_le (suc m) [] t h = absurd (omega arith)
take-append_le (suc m) (b ∷ s) t h = ap (◌∷◌ b) (take-append_le m s t (omega arith))

module _ (lim : Limits) where
  -- A number that `parseNumber` reads is read alike `n` bytes further, at any depth and count, and with
  -- any `rest` behind the input that is empty or starts with a byte of no number; the parser stops in
  -- front of what it stopped at before, and of `rest`.
  pub parse_number-relocate :
      (rest : Bytes) (n d k : ℕ) (p : Parser) {f : Float64} {q : Parser}
      → Stops rest
      → parse_number lim p ≡ ok (f, q)
      → parse_number lim (relocate rest n d k p) ≡ ok (f, relocate rest n d k q)
  unfolding parse_number reject_if
  parse_number-relocate rest n d k p {f} {q} stops e =
      let at_ = relocate rest n d k in
      let s = if at_byte b'-' p then advance 1 p else p in
      let start : (if at_byte b'-' (at_ p) then advance 1 (at_ p) else at_ p) ≡ at_ s =
        ap (λ b. if b then advance 1 (at_ p) else at_ p)
          (at_byte-relocate lim rest stops n d k b'-' p refl)
        ∙ step_if-relocate lim rest stops n d k (at_byte b'-' p) p
            (at_byte-pos lim rest stops n d k b'-' p) in
      let (a, int, e1) = bind-eq-ok (scan_integer_part lim p.at s) _ e in
      let (b, frac, e2) = bind-eq-ok (scan_fraction_part lim p.at a) _ e1 in
      let (c, exp, e3) = bind-eq-ok (scan_exponent_part lim p.at b) _ e2 in
      let (short, e4) = reject-eq-ok (ltb lim.max_number_chars (c.at - p.at)) _ _ e3 in
      let (x, built_, e5) = bind-eq-ok (build_number_value p.at (take (c.at - p.at) p.rest)) _ e4 in
      let (_, moved, _) = Ensures-ok (parse_number-Ensures lim p) e in
      let done = ok_inj e5 in
      let last : c ≡ q = ap (λ (r : Float64 × Parser). r.1) done in
      let room = ap (λ (r : Parser). r.at + length r.rest) last in
      let same : n + c.at - (n + p.at) ≡ c.at - p.at = omega arith in
      let raw : take (c.at - p.at) (p.rest ++ rest) ≡ take (c.at - p.at) p.rest =
        take-append_le (c.at - p.at) p.rest rest (omega (arith, moved, room)) in
      rw
        (
          start,
          scan_integer_part-relocate lim rest stops n d k p.at s int,
          scan_fraction_part-relocate lim rest stops n d k p.at a frac,
          scan_exponent_part-relocate lim rest stops n d k p.at b exp,
          same,
          short,
          raw,
          build_number_value-start p.at (n + p.at) (take (c.at - p.at) p.rest) built_,
        )
        (ap (λ (r : Float64 × Parser). ok (r.0, at_ r.1)) done)
