-- ===== src/Text/Decimal.antt =====
-- What the programs use of strconv.Itoa and of the verb %d: an integer in decimal.
use jcs_schubfach.Prelude.{
  ℕ, zero, suc, ◌+◌, ◌-◌, ◌*◌, ◌/◌, ◌%◌, ◌≤◌, ◌≡◌, refl, ◌∙◌, ap, inl, inr, Bool, true, false, ◌&&◌,
  Bool-cases, [], ◌∷◌, arith, ◌==◌, Bytes,
}
use jcs_schubfach.Prelude.Int.{ℤ, pos, negsuc}
use jcs_schubfach.Unicode.Utf8.{in_range}

-- The digits of `n` in front of `out`; `n` itself bounds the number of rounds.
unfoldable pub digits_before : ℕ → ℕ → Bytes → Bytes
digits_before zero n out = out
digits_before (suc f) n out = elim (n == 0) [
  | true ↦ out
  | false ↦ digits_before f (n / 10) ((b'0' + n % 10) ∷ out)
]

-- An integer that is not negative.
unfoldable pub decimal : ℕ → Bytes
decimal n = elim (n == 0) [ true ↦ b'0' ∷ [] | false ↦ digits_before n n [] ]

-- `strconv.Itoa`
unfoldable pub itoa : ℤ → Bytes
itoa (pos n) = decimal n
itoa (negsuc n) = b'-' ∷ decimal (suc n)

-- What a text of digits stands for, behind digits that stand for `n`.
abbrev value_behind : ℕ → Bytes → ℕ
value_behind n [] = n
value_behind n (c ∷ s) = value_behind (n * 10 + (c - b'0')) s

abbrev pub all_digits : Bytes → Bool
all_digits [] = true
all_digits (c ∷ s) = in_range b'0' b'9' c && all_digits s

-- No zero in front of a digit.
abbrev pub NoLeadingZero : Bytes → Type 0
NoLeadingZero [] = ⊥
NoLeadingZero (c ∷ []) = Unit
NoLeadingZero (c ∷ d ∷ s) = (c == b'0') ≡ false

-- The text is made of digits, without a leading zero, and stands for `n`.
pub record IsDecimal (n : ℕ) (s : Bytes) : Type 0 where
  pub value : value_behind 0 s ≡ n
  pub digits : all_digits s ≡ true
  pub shortest : NoLeadingZero s

-- The text of an integer: that of its magnitude, behind a minus sign if it is negative.
abbrev pub IsInteger : ℤ → Bytes → Type 0
IsInteger (pos n) s = IsDecimal n s
IsInteger (negsuc n) s = (t : Bytes) × (s ≡ b'-' ∷ t) × IsDecimal (suc n) t

digits_before-value :
    (f n : ℕ) (out : Bytes) → n ≤ f → value_behind 0 (digits_before f n out) ≡ value_behind n out
unfolding digits_before
digits_before-value zero zero out h = refl
digits_before-value zero (suc _) out h = elim h [ ]
digits_before-value (suc f) n out h = elim (Bool-cases (n == 0)) [
  | inl e ↦
      let none_left : 0 ≡ n = ground arith in
      rw (digits_before, e) (ap (λ k. value_behind k out) none_left)
  | inr e ↦
      let less : n / 10 ≤ f = ground arith in
      let again : n / 10 * 10 + (b'0' + n % 10 - b'0') ≡ n = omega arith in
      rw (digits_before, e)
        (digits_before-value f (n / 10) ((b'0' + n % 10) ∷ out) less
          ∙ ap (λ k. value_behind k out) again)
]

digits_before-digits :
    (f n : ℕ) (out : Bytes) → all_digits out ≡ true → all_digits (digits_before f n out) ≡ true
unfolding digits_before
digits_before-digits zero n out h = h
digits_before-digits (suc f) n out h = elim (Bool-cases (n == 0)) [
  | inl e ↦ rw (digits_before, e) h
  | inr e ↦
      let digit : in_range b'0' b'9' (b'0' + n % 10) ≡ true = ground arith in
      rw (digits_before, e) (digits_before-digits f (n / 10) ((b'0' + n % 10) ∷ out) (rw digit h))
]

-- Digits of a number that is not zero start with one that is not zero.
digits_before-shortest :
    (f n : ℕ) (out : Bytes) → n ≤ f → (n == 0) ≡ false → NoLeadingZero (digits_before f n out)
unfolding digits_before
digits_before-shortest zero zero out h k = cc
digits_before-shortest zero (suc _) out h k = elim h [ ]
digits_before-shortest (suc f) n out h k = elim (Bool-cases (n / 10 == 0)) [
  | inr e ↦
      let less : n / 10 ≤ f = ground arith in
      rw (digits_before, k) (digits_before-shortest f (n / 10) ((b'0' + n % 10) ∷ out) less e)
  | inl e ↦ rw (digits_before, k) (last f out e)
]
  where
    last :
        (f : ℕ) (out : Bytes)
        → (n / 10 == 0) ≡ true
        → NoLeadingZero (digits_before f (n / 10) ((b'0' + n % 10) ∷ out))
    last zero [] e = tt
    last zero (c ∷ s) e = ground arith
    last (suc f) [] e = rw (digits_before, e) tt
    last (suc f) (c ∷ s) e = rw (digits_before, e) (ground arith)

pub decimal-IsDecimal : (n : ℕ) → IsDecimal n (decimal n)
unfolding decimal
decimal-IsDecimal n = elim (Bool-cases (n == 0)) [
  | inl e ↦
      let none_left : 0 ≡ n = ground arith in
      rw (decimal, e) (record { value = none_left; digits = refl; shortest = tt })
  | inr e ↦
      rw (decimal, e)
        (record {
          value = digits_before-value n n [] (omega arith);
          digits = digits_before-digits n n [] refl;
          shortest = digits_before-shortest n n [] (omega arith) e;
        })
]

pub itoa-IsInteger : (i : ℤ) → IsInteger i (itoa i)
unfolding itoa
itoa-IsInteger (pos n) = decimal-IsDecimal n
itoa-IsInteger (negsuc n) = (decimal (suc n), refl, decimal-IsDecimal (suc n))
