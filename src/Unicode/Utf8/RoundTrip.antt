-- ===== src/Unicode/Utf8/RoundTrip.antt =====
-- unicode/utf8: encoding and decoding of one rune undo one another.
use jcs_schubfach.Prelude.{
  ℕ, ◌+◌, ◌-◌, ◌*◌, ◌/◌, ◌%◌, ◌≤◌, ◌<◌, ◌≡◌, refl, ◌⊎◌, inl, inr, false, [], ◌∷◌, ◌++◌, arith,
  Bytes, length, drop, ltb, Bool-cases,
}
use jcs_schubfach.Unicode.Utf8.{decode_rune, decode2, decode3, decode4, encode_rune, is_bad}

-- A Unicode scalar value: a code point that is no surrogate.
abbrev pub Scalar : ℕ → Type 0
Scalar r = (r ≤ 0x10FFFF) × ((r < 0xD800) ⊎ (0xDFFF < r))

-- What `encode_rune` writes is read back, whatever follows.
pub decode_rune-encode_rune :
    (r : ℕ) (rest : Bytes)
    → Scalar r
    → decode_rune (encode_rune r ++ rest) ≡ (r, length (encode_rune r))
unfolding decode_rune decode2 decode3 decode4 encode_rune
decode_rune-encode_rune r rest h = ground arith

abbrev Decodes : ℕ → ℕ → Bytes → Type 0
Decodes r n s = Scalar r × (n ≡ length (encode_rune r)) × (s ≡ encode_rune r ++ drop n s)

decode1-Decodes :
    (b0 : ℕ) (s : Bytes) {r n : ℕ}
    → b0 < 0x80
    → ◌≡◌ {A = ℕ × ℕ} (b0, 1) (r, n)
    → Decodes r n (b0 ∷ s)
unfolding encode_rune
decode1-Decodes b0 s lo e = ground arith

decode2-Decodes :
    (b0 : ℕ) (s : Bytes) {r n : ℕ}
    → 0xC2 ≤ b0
    → b0 < 0xE0
    → decode2 b0 s ≡ (r, n)
    → is_bad (r, n) ≡ false
    → Decodes r n (b0 ∷ s)
unfolding decode2 encode_rune
decode2-Decodes b0 [] lo hi e h = ground arith
decode2-Decodes b0 (b1 ∷ s) lo hi e h = ground arith

decode3-Decodes :
    (b0 : ℕ) (s : Bytes) {r n : ℕ}
    → 0xE0 ≤ b0
    → b0 < 0xF0
    → decode3 b0 s ≡ (r, n)
    → is_bad (r, n) ≡ false
    → Decodes r n (b0 ∷ s)
unfolding decode3 encode_rune
decode3-Decodes b0 [] lo hi e h = ground arith
decode3-Decodes b0 (b1 ∷ []) lo hi e h = ground arith
decode3-Decodes b0 (b1 ∷ b2 ∷ s) lo hi e h = ground arith

-- The number that four bytes stand for.
abbrev join4 : ℕ → ℕ → ℕ → ℕ → ℕ
join4 b0 b1 b2 b3 = (b0 - 0xF0) * 262144 + (b1 - 0x80) * 4096 + (b2 - 0x80) * 64 + (b3 - 0x80)

-- The ranges that `decode4` checks.
record Ranges4 (b0 b1 b2 b3 : ℕ) : Type 0 where
  first_low : 0xF0 ≤ b0
  first_high : b0 < 0xF5
  second_low : 0x80 ≤ b1
  second_high : b1 ≤ 0xBF
  not_overlong : b0 ≡ 0xF0 → 0x90 ≤ b1
  not_beyond : b0 ≡ 0xF4 → b1 ≤ 0x8F
  third_low : 0x80 ≤ b2
  third_high : b2 ≤ 0xBF
  fourth_low : 0x80 ≤ b3
  fourth_high : b3 ≤ 0xBF

module _ (b0 b1 b2 b3 : ℕ) where
  join4_bounds :
      Ranges4 b0 b1 b2 b3 → (0x10000 ≤ join4 b0 b1 b2 b3) × (join4 b0 b1 b2 b3 ≤ 0x10FFFF)
  join4_bounds h = ground (arith, h.not_overlong, h.not_beyond)

  join4_parts :
      (r : ℕ)
      → Ranges4 b0 b1 b2 b3
      → r ≡ join4 b0 b1 b2 b3
      → (0xF0 + r / 262144 ≡ b0)
        × (0x80 + r / 4096 % 64 ≡ b1)
        × (0x80 + r / 64 % 64 ≡ b2)
        × (0x80 + r % 64 ≡ b3)
  join4_parts r h e = (omega arith, omega arith, omega arith, omega arith)

encode_rune-supplementary :
    (r : ℕ)
    → 0x10000 ≤ r
    → r ≤ 0x10FFFF
    → encode_rune r
      ≡ (0xF0 + r / 262144) ∷ (0x80 + r / 4096 % 64) ∷ (0x80 + r / 64 % 64) ∷ (0x80 + r % 64) ∷ []
unfolding encode_rune
encode_rune-supplementary r lo hi = ground arith

encode_rune-join4 :
    (b0 b1 b2 b3 : ℕ)
    → Ranges4 b0 b1 b2 b3
    → encode_rune (join4 b0 b1 b2 b3) ≡ b0 ∷ b1 ∷ b2 ∷ b3 ∷ []
encode_rune-join4 b0 b1 b2 b3 h =
    let bounds = join4_bounds b0 b1 b2 b3 h in
    let parts = join4_parts b0 b1 b2 b3 (join4 b0 b1 b2 b3) h refl in
    cc (
      encode_rune-supplementary (join4 b0 b1 b2 b3) bounds.0 bounds.1,
      parts.0,
      parts.1,
      parts.2,
      parts.3,
    )

Decodes4 :
    (b0 b1 b2 b3 : ℕ) (s : Bytes) {r n : ℕ}
    → Ranges4 b0 b1 b2 b3
    → r ≡ join4 b0 b1 b2 b3
    → n ≡ 4
    → Decodes r n (b0 ∷ b1 ∷ b2 ∷ b3 ∷ s)
Decodes4 b0 b1 b2 b3 s h e f =
    let bounds = join4_bounds b0 b1 b2 b3 h in
    let bytes = encode_rune-join4 b0 b1 b2 b3 h in
    rw (e, f, bytes) ((bounds.1, inr (omega arith)), refl, refl)

decode4-Decodes :
    (b0 : ℕ) (s : Bytes) {r n : ℕ}
    → 0xF0 ≤ b0
    → b0 < 0xF5
    → decode4 b0 s ≡ (r, n)
    → is_bad (r, n) ≡ false
    → Decodes r n (b0 ∷ s)
unfolding decode4
decode4-Decodes b0 [] lo hi e h = ground arith
decode4-Decodes b0 (b1 ∷ []) lo hi e h = ground arith
decode4-Decodes b0 (b1 ∷ b2 ∷ []) lo hi e h = ground arith
decode4-Decodes b0 (b1 ∷ b2 ∷ b3 ∷ s) lo hi e h =
    let ranges : Ranges4 b0 b1 b2 b3 = ground arith in
    Decodes4 b0 b1 b2 b3 s ranges (ground arith) (ground arith)

-- A rune that is read without an error is a scalar value, and the bytes that it takes are those that
-- `encode_rune` writes for it: overlong forms and surrogates are refused.
pub decode_rune_sound :
    (s : Bytes) {r n : ℕ}
    → decode_rune s ≡ (r, n)
    → is_bad (r, n) ≡ false
    → Scalar r × (n ≡ length (encode_rune r)) × (s ≡ encode_rune r ++ drop n s)
unfolding decode_rune
decode_rune_sound [] e h = ground arith
decode_rune_sound (b0 ∷ s) e h = elim (Bool-cases (ltb b0 0x80)) [
  | inl ascii ↦ decode1-Decodes b0 s (ground arith) (rw ascii at e)
  | inr p ↦ elim (Bool-cases (ltb b0 0xC2)) [
    | inl bad ↦ ground arith
    | inr lo2 ↦ elim (Bool-cases (ltb b0 0xE0)) [
      | inl hi2 ↦ decode2-Decodes b0 s (ground arith) (ground arith) (rw (p, lo2, hi2) at e) h
      | inr lo3 ↦ elim (Bool-cases (ltb b0 0xF0)) [
        | inl hi3 ↦
            decode3-Decodes b0 s (ground arith) (ground arith) (rw (p, lo2, lo3, hi3) at e) h
        | inr lo4 ↦ elim (Bool-cases (ltb b0 0xF5)) [
          | inl hi4 ↦
              decode4-Decodes b0 s (ground arith) (ground arith) (rw (p, lo2, lo3, lo4, hi4) at e) h
          | inr bad ↦ ground arith
        ]
      ]
    ]
  ]
]
