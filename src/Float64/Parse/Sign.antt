-- ===== src/Float64/Parse/Sign.antt =====
-- strconv.ParseFloat: a literal without a minus has no sign bit.
use jcs_schubfach.Prelude.{
  ℕ, ◌+◌, ◌*◌, ◌^◌, ◌<◌, ◌≡◌, inl, inr, Option-cases, Bool, true, false, Bool-cases, ◌||◌, none,
  some, [], ◌∷◌, arith, ltb, ◌==◌, if◌then◌else◌, Bytes,
}
use jcs_schubfach.Float64.Parse.{
  Digits, Parsed, syntax, range, finite, read_digits, read_exponent, find_scale, round_even,
  round_ratio, to_double, scaled, parse_exponent, parse_tail, parse_fraction, parse_unsigned,
}

abbrev pub HasNoSign : Parsed → Type 0
HasNoSign syntax = Unit
HasNoSign (range f) = f < 2 ^ 63
HasNoSign (finite f) = f < 2 ^ 63

round_ratio-bound : (n d : ℕ) {bits : ℕ} → round_ratio n d ≡ some bits → bits < 2047 * 2 ^ 52
unfolding round_ratio
round_ratio-bound n d {bits} h = elim (Option-cases (find_scale 2046 (n * 2 ^ 1074) d 0)) [
  | inl e ↦ cc (rw (round_ratio, e) at h)
  | inr ((k, d'), e) ↦ within (k * 2 ^ 52 + round_even (n * 2 ^ 1074) d') (rw (round_ratio, e) at h)
]
  where
    within :
        (b : ℕ)
        → (if ltb b (2047 * 2 ^ 52) then some b else none) ≡ some bits
        → bits < 2047 * 2 ^ 52
    within b k = ground arith

to_double-HasNoSign : (n d : ℕ) → HasNoSign (to_double false n d)
unfolding to_double
to_double-HasNoSign n d = elim (Option-cases (round_ratio n d)) [
  | inl e ↦ rw (HasNoSign, e) (omega arith)
  | inr (bits, e) ↦ let bound = round_ratio-bound n d e in rw (HasNoSign, e) (omega (arith, bound))
]

scaled-HasNoSign :
    (val fraction : ℕ) (eneg : Bool) (e : ℕ) → HasNoSign (scaled false val fraction eneg e)
unfolding scaled
scaled-HasNoSign val fraction true e = to_double-HasNoSign val (10 ^ (fraction + e))
scaled-HasNoSign val fraction false e = to_double-HasNoSign (val * 10 ^ e) (10 ^ fraction)

parse_exponent-HasNoSign :
    (val fraction : ℕ) (s : Bytes) → HasNoSign (parse_exponent false val fraction s)
unfolding parse_exponent
parse_exponent-HasNoSign val fraction [] = tt
parse_exponent-HasNoSign val fraction (b ∷ r) = go (if b == b'-' || b == b'+' then r else b ∷ r)
  where
    go :
        (s : Bytes)
        → HasNoSign (elim s [
          | [] ↦ syntax
          | c ∷ t ↦ elim (read_exponent 0 (c ∷ t)) [
            | none ↦ syntax
            | some e ↦ scaled false val fraction (b == b'-') e
          ]
        ])
    go [] = tt
    go (c ∷ t) = elim (Option-cases (read_exponent 0 (c ∷ t))) [
      | inl e ↦ rw e tt
      | inr (n, e) ↦ rw e (scaled-HasNoSign val fraction (b == b'-') n)
    ]

parse_tail-HasNoSign : (val fraction : ℕ) (s : Bytes) → HasNoSign (parse_tail false val fraction s)
unfolding parse_tail
parse_tail-HasNoSign val fraction [] = scaled-HasNoSign val fraction false 0
parse_tail-HasNoSign val fraction (b ∷ r) = elim (Bool-cases (b == b'e' || b == b'E')) [
  | inl e ↦ rw e (parse_exponent-HasNoSign val fraction r)
  | inr e ↦ rw e tt
]

parse_fraction-HasNoSign : (whole : Digits) → HasNoSign (parse_fraction false whole)
unfolding parse_fraction
parse_fraction-HasNoSign whole = go whole.left
  where
    go :
        (s : Bytes)
        → HasNoSign (elim s [
          | [] ↦ parse_tail false whole.val 0 []
          | b ∷ r ↦
              if b == b'.'
              then (let all = read_digits whole.val 0 r in
                  parse_tail false all.val all.count all.left)
              else parse_tail false whole.val 0 (b ∷ r)
        ])
    go [] = parse_tail-HasNoSign whole.val 0 []
    go (b ∷ r) = elim (Bool-cases (b == b'.')) [
      | inl e ↦ rw e (parse_tail-HasNoSign _ _ _)
      | inr e ↦ rw e (parse_tail-HasNoSign whole.val 0 (b ∷ r))
    ]

pub parse_unsigned-HasNoSign : (s : Bytes) → HasNoSign (parse_unsigned false s)
unfolding parse_unsigned
parse_unsigned-HasNoSign s = elim (Bool-cases ((read_digits 0 0 s).count == 0)) [
  | inl e ↦ rw e tt
  | inr e ↦ rw e (parse_fraction-HasNoSign (read_digits 0 0 s))
]
