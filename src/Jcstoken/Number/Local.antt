-- ===== src/Jcstoken/Number/Local.antt =====
-- jcstoken/token.go: the number scanner depends on the bytes of the number only, not on its position
-- and not on what follows.
use jcs_schubfach.Prelude.{
  ℕ, ◌+◌, ◌-◌, ◌<◌, ◌≡◌, refl, ap, sym, ◌∙◌, inl, inr, Option-cases, Bool, true, false, not, ◌||◌,
  Bool-cases, none, some, [], ◌∷◌, ◌++◌, arith, ltb, ◌==◌, if◌then◌else◌, Bytes, length, get_elem?,
  drop,
}
use mathlib.Core.Path.{subst}
use jcs_schubfach.Float64.Parse.{is_digit}
use jcs_schubfach.Jcserr.{invalid_grammar}
use jcs_schubfach.Jcstoken.Number.{
  at_digit, at_byte, digits_from, scan_digits, scan_zero_integer_part, scan_integer_part,
  scan_fraction_part, scan_exponent_part,
}
use jcs_schubfach.Jcstoken.Options.{Limits}
use jcs_schubfach.Jcstoken.State.{Parser, new_error, advance, peek}
use jcs_schubfach.Jcstoken.State.Moves.{peek-some}
use jcs_schubfach.Result.{ok_inj, unless-eq-ok, fail-ok, ok, bind-eq-ok}

-- The bytes that the scanner looks for.
abbrev pub number_byte : ℕ → Bool
number_byte b = is_digit b || (b == b'.' || (b == b'e' || (b == b'E' || (b == b'+' || b == b'-'))))

abbrev pub Stops : Bytes → Type 0
Stops [] = Unit
Stops (b ∷ s) = number_byte b ≡ false

-- The parser with `rest` behind its input, `n` bytes further, at the depth `d` and the count `k`.
abbrev pub relocate : Bytes → ℕ → ℕ → ℕ → Parser → Parser
relocate rest n d k p = record { rest = p.rest ++ rest; at = n + p.at; depth = d; value_count = k }

module _ (lim : Limits) (rest : Bytes) (stops : Stops rest) (n d k : ℕ) where
  abbrev put : Parser → Parser
  put = relocate rest n d k

  test_first :
      (test : ℕ → Bool) (s : Bytes)
      → ((b : ℕ) → number_byte b ≡ false → test b ≡ false)
      → elim (get_elem? (s ++ rest) 0) [ none ↦ false | some b ↦ test b ]
        ≡ elim (get_elem? s 0) [ none ↦ false | some b ↦ test b ]
  test_first test (b ∷ s) h = refl
  test_first test [] h = at_rest rest stops
    where
      at_rest :
          (r : Bytes) → Stops r → elim (get_elem? r 0) [ none ↦ false | some b ↦ test b ] ≡ false
      at_rest [] e = refl
      at_rest (b ∷ r) e = h b e

  at_digit-relocate : (p : Parser) → at_digit (put p) ≡ at_digit p
  at_digit-relocate p = test_first is_digit p.rest λ b h. ground arith

  pub at_byte-relocate :
      (c : ℕ) (p : Parser) → number_byte c ≡ true → at_byte c (put p) ≡ at_byte c p
  at_byte-relocate c p h = test_first (λ b. b == c) p.rest λ b stop. ground (arith, h, stop)

  advance-relocate : (p : Parser) → 0 < length p.rest → advance 1 (put p) ≡ put (advance 1 p)
  advance-relocate p h =
      λ i. record { rest = dropped p.rest h i; at = there i; depth = d; value_count = k }
    where
      dropped : (s : Bytes) → 0 < length s → drop 1 (s ++ rest) ≡ drop 1 s ++ rest
      dropped [] e = absurd (omega arith)
      dropped (b ∷ s) e = refl

      there : n + p.at + 1 ≡ n + (p.at + 1)
      there = omega arith

  digits_from-Stops :
      (start : ℕ) (r : Bytes) (i : ℕ) → Stops r → digits_from lim start r i ≡ ok (r, i)
  unfolding digits_from
  digits_from-Stops start [] i h = refl
  digits_from-Stops start (b ∷ r) i h = ground (arith, h)

  digits_from-relocate :
      (start : ℕ) (s : Bytes) (i : ℕ) {t : Bytes} {m : ℕ}
      → digits_from lim start s i ≡ ok (t, m)
      → digits_from lim (n + start) (s ++ rest) (n + i) ≡ ok (t ++ rest, n + m)
  unfolding digits_from
  digits_from-relocate start [] i {t} {m} e =
      let same = ok_inj e in
      digits_from-Stops (n + start) rest (n + i) stops
      ∙ ap (λ (r : Bytes × ℕ). ok (r.0 ++ rest, n + r.1)) same
  digits_from-relocate start (b ∷ s) i {t} {m} e = elim (Bool-cases (is_digit b)) [
    | inl digit ↦
        let (fits, later) =
          unless-eq-ok (ltb lim.max_number_chars (i + 1 - start)) _ _ _ (rw digit at e) in
        let next : digits_from lim (n + start) (s ++ rest) (n + i + 1) ≡ ok (t ++ rest, n + m) =
          subst (λ j. digits_from lim (n + start) (s ++ rest) j ≡ ok (t ++ rest, n + m))
            (omega arith) (digits_from-relocate start s (i + 1) later) in
        let same : n + i + 1 - (n + start) ≡ i + 1 - start = omega arith in
        rw (digit, same, fits) next
    | inr other ↦
        let same = ok_inj (rw other at e) in
        rw other (ap (λ (r : Bytes × ℕ). ok (r.0 ++ rest, n + r.1)) same)
  ]

  scan_digits-relocate :
      (start : ℕ) (p : Parser) {q : Parser}
      → scan_digits lim start p ≡ ok q
      → scan_digits lim (n + start) (put p) ≡ ok (put q)
  scan_digits-relocate start p e =
      let (r, scanned, done) = bind-eq-ok (digits_from lim start p.rest p.at) _ e in
      rw (digits_from-relocate start p.rest p.at scanned)
        (ap (λ (s : Parser). ok (put s)) (ok_inj done))

  pub at_byte-pos : (c : ℕ) (p : Parser) → at_byte c p ≡ true → 0 < length p.rest
  at_byte-pos c p h = elim (Option-cases (peek p)) [
    | inl e ↦ ground arith
    | inr (b, e) ↦ peek-some p e
  ]

  scan_zero_integer_part-relocate :
      (p : Parser) {q : Parser}
      → 0 < length p.rest
      → scan_zero_integer_part lim p ≡ ok q
      → scan_zero_integer_part lim (put p) ≡ ok (put q)
  unfolding scan_zero_integer_part
  scan_zero_integer_part-relocate p room e =
      let (stop, done) = unless-eq-ok (at_digit (advance 1 p)) _ _ _ e in
      rw (advance-relocate p room, at_digit-relocate (advance 1 p), stop)
        (ap (λ (s : Parser). ok (put s)) (ok_inj done))

  peek-relocate : (p : Parser) {b : ℕ} → peek p ≡ some b → peek (put p) ≡ some b
  peek-relocate p e = first p.rest e
    where
      first : {b : ℕ} (s : Bytes) → get_elem? s 0 ≡ some b → get_elem? (s ++ rest) 0 ≡ some b
      first [] h = cc
      first (c ∷ s) h = h

  pub scan_integer_part-relocate :
      (start : ℕ) (p : Parser) {q : Parser}
      → scan_integer_part lim start p ≡ ok q
      → scan_integer_part lim (n + start) (put p) ≡ ok (put q)
  unfolding scan_integer_part
  scan_integer_part-relocate start p e = elim (Option-cases (peek p)) [
    | inl none_ ↦ absurd (fail-ok (rw (none_, scan_integer_part) at e))
    | inr (b, first) ↦
        let e' = rw (first, scan_integer_part) at e in
        rw (peek-relocate p first, scan_integer_part)
          (elim (Bool-cases (b == b'0')) [
            | inl zero_ ↦
                rw zero_ (scan_zero_integer_part-relocate p (peek-some p first) (rw zero_ at e'))
            | inr other ↦
                let (digit, scanned) =
                  unless-eq-ok (ltb b b'1' || ltb b'9' b) _ _ _ (rw other at e') in
                rw (other, digit) (scan_digits-relocate start p scanned)
          ])
  ]

  -- The digits that `scanFractionPart` and `scanExponentPart` require.
  required-relocate :
      (start : ℕ) (p s : Parser) {q : Parser}
      → s ≡ put p
      → (if not (at_digit p) then new_error invalid_grammar p else scan_digits lim start p) ≡ ok q
      → (if not (at_digit s) then new_error invalid_grammar s else scan_digits lim (n + start) s)
        ≡ ok (put q)
  required-relocate start p s {q} same e =
      let (digit, scanned) = unless-eq-ok (not (at_digit p)) _ _ _ e in
      subst
        (λ t.
          (if not (at_digit t) then new_error invalid_grammar t else scan_digits lim (n + start) t)
          ≡ ok (put q))
        (sym same) (rw (at_digit-relocate p, digit) (scan_digits-relocate start p scanned))

  pub scan_fraction_part-relocate :
      (start : ℕ) (p : Parser) {q : Parser}
      → scan_fraction_part lim start p ≡ ok q
      → scan_fraction_part lim (n + start) (put p) ≡ ok (put q)
  unfolding scan_fraction_part
  scan_fraction_part-relocate start p e = elim (Bool-cases (at_byte b'.' p)) [
    | inl point ↦
        rw (at_byte-relocate b'.' p refl, point)
          (required-relocate start (advance 1 p) (advance 1 (put p))
            (advance-relocate p (at_byte-pos b'.' p point)) (rw point at e))
    | inr none_ ↦
        rw (at_byte-relocate b'.' p refl, none_)
          (ap (λ (s : Parser). ok (put s)) (ok_inj (rw none_ at e)))
  ]

  at_either-pos : (c e : ℕ) (p : Parser) → (at_byte c p || at_byte e p) ≡ true → 0 < length p.rest
  at_either-pos c e p h = elim (Bool-cases (at_byte c p)) [
    | inl yes_ ↦ at_byte-pos c p yes_
    | inr no_ ↦ at_byte-pos e p (rw no_ at h)
  ]

  -- Over a sign, if there is one.
  pub step_if-relocate :
      (b : Bool) (p : Parser)
      → (b ≡ true → 0 < length p.rest)
      → (if b then advance 1 (put p) else put p) ≡ put (if b then advance 1 p else p)
  step_if-relocate true p h = advance-relocate p (h refl)
  step_if-relocate false p h = refl

  abbrev signed : Parser → Bool
  signed q = at_byte b'+' q || at_byte b'-' q

  abbrev behind_sign : Parser → Parser
  behind_sign q = if signed q then advance 1 q else q

  behind_sign-relocate :
      (p : Parser)
      → 0 < length p.rest
      → behind_sign (advance 1 (put p)) ≡ put (behind_sign (advance 1 p))
  behind_sign-relocate p room =
      let a = advance 1 p in
      let same : signed (put a) ≡ signed a =
        rw (at_byte-relocate b'+' a refl, at_byte-relocate b'-' a refl) refl in
      ap behind_sign (advance-relocate p room)
      ∙ ap (λ b. if b then advance 1 (put a) else put a) same
      ∙ step_if-relocate (signed a) a (at_either-pos b'+' b'-' a)

  pub scan_exponent_part-relocate :
      (start : ℕ) (p : Parser) {q : Parser}
      → scan_exponent_part lim start p ≡ ok q
      → scan_exponent_part lim (n + start) (put p) ≡ ok (put q)
  unfolding scan_exponent_part
  scan_exponent_part-relocate start p e = elim (Bool-cases (at_byte b'e' p || at_byte b'E' p)) [
    | inl mark ↦
        rw (at_byte-relocate b'e' p refl, at_byte-relocate b'E' p refl, mark)
          (required-relocate start (behind_sign (advance 1 p)) (behind_sign (advance 1 (put p)))
            (behind_sign-relocate p (at_either-pos b'e' b'E' p mark)) (rw mark at e))
    | inr none_ ↦
        rw (at_byte-relocate b'e' p refl, at_byte-relocate b'E' p refl, none_)
          (ap (λ (s : Parser). ok (put s)) (ok_inj (rw none_ at e)))
  ]
