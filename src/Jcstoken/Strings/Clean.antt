-- ===== src/Jcstoken/Strings/Clean.antt =====
-- jcstoken/token.go: the strings that `parseString` can return.
use jcs_schubfach.Prelude.{
  ℕ, zero, suc, ◌+◌, ◌≤◌, ◌<◌, ◌≡◌, refl, inl, inr, Option-cases, false, Bool-cases, List, some, [],
  ◌∷◌, ◌++◌, arith, ltb, ◌==◌, Bytes, length, take, drop, take-append, ap, ◌∙◌, if◌then◌else◌, All,
  length-append, length-drop, append-nil,
}
use jcs_schubfach.Jcstoken.Options.{Limits}
use jcs_schubfach.Jcstoken.State.{Parser, advance, peek}
use jcs_schubfach.Jcstoken.State.Moves.{
  Moves, Moves-trans, advance-Moves, peek-next, peek-some, expect-Ensures,
}
use jcs_schubfach.Jcstoken.Strings.{
  is_noncharacter, validate_string_rune, is_plain, plain_prefix, escape_step, raw_step, string_loop,
  string_body, parse_string,
}
use jcs_schubfach.Jcstoken.Strings.Escapes.{parse_escape-Ensures}
use jcs_schubfach.Result.{
  Ensures, holds, rejected, Ensures-bind, Ensures-if, Ensures-map, Ensures-reject, Ensures-guard,
}
use jcs_schubfach.Unicode.Utf16.{is_surrogate}
use jcs_schubfach.Unicode.Utf8.{encode_rune, decode_rune}
use jcs_schubfach.Unicode.Utf8.RoundTrip.{Scalar, decode_rune_sound}
use jcs_schubfach.Unicode.Utf8.Text.{encode_runes, encode_runes-append, length-encode_rune}

-- A code point that a string may hold: a scalar value and no noncharacter.
abbrev pub Clean : ℕ → Type 0
Clean r = Scalar r × (is_noncharacter r ≡ false)

-- The UTF-8 encoding of such code points.
abbrev pub IsText : Bytes → Type 0
IsText s = (rs : List ℕ) × All Clean rs × (s ≡ encode_runes rs)

pub All-Scalar : (rs : List ℕ) → All Clean rs → All Scalar rs
All-Scalar [] h = tt
All-Scalar (r ∷ rs) h = (h.0.0, All-Scalar rs h.1)

All-snoc : (rs : List ℕ) (r : ℕ) → All Clean rs → Clean r → All Clean (rs ++ r ∷ [])
All-snoc [] r h k = (k, tt)
All-snoc (q ∷ rs) r h k = (h.0, All-snoc rs r h.1 k)

pub IsText-snoc : (s : Bytes) (r : ℕ) → IsText s → Clean r → IsText (s ++ encode_rune r)
unfolding encode_runes
IsText-snoc s r (rs, h, e) k =
    (rs ++ r ∷ [], All-snoc rs r h k, rw (encode_runes-append, e, append-nil))

ascii-Clean : (b : ℕ) → b < 0x80 → Clean b × (encode_rune b ≡ b ∷ [])
unfolding is_noncharacter encode_rune
ascii-Clean b h = ground arith

plain_prefix-IsText : (s : Bytes) → IsText (plain_prefix s)
unfolding plain_prefix encode_runes
plain_prefix-IsText [] = ([], tt, refl)
plain_prefix-IsText (b ∷ s) = elim (Bool-cases (is_plain b)) [
  | inl plain ↦
      let (rs, h, e) = plain_prefix-IsText s in
      let ascii = ascii-Clean b (ground arith) in rw plain (b ∷ rs, (ascii.0, h), rw (e, ascii.1))
  | inr special ↦ rw special ([], tt, refl)
]

length-plain_prefix : (s : Bytes) → length (plain_prefix s) ≤ length s
unfolding plain_prefix
length-plain_prefix [] = omega arith
length-plain_prefix (b ∷ s) = ground (arith, length-plain_prefix s)

validate_string_rune-Ensures :
    (r off : ℕ)
    → Ensures
        (λ _. (is_noncharacter r ≡ false) × (is_surrogate r ≡ false))
        (validate_string_rune r off)
unfolding validate_string_rune
validate_string_rune-Ensures r off =
    Ensures-reject _ _ λ x. Ensures-map (Ensures-guard _ _) λ _ y. (x, y)

-- A string that begins with `c`.
taken : (s c : Bytes) (n : ℕ) → n ≡ length c → s ≡ c ++ drop n s → (take n s ≡ c) × (n ≤ length s)
taken s c n e split = (
  ap (take n) split ∙ rw e (take-append c _),
  omega (arith, ap length split, length-append c (drop n s)),
)

module _ (lim : Limits) where
  -- After a round of the general path: the buffer grew within its limit, and input was read.
  abbrev Stepped : Parser → Bytes × Parser → Type 0
  Stepped p r =
      IsText r.0
      × (length r.0 ≤ lim.max_string_bytes)
      × Moves p r.1
      × (length r.1.rest < length p.rest)

  appended :
      (s : Bytes) (r : ℕ)
      → IsText s
      → Scalar r
      → is_noncharacter r ≡ false
      → ltb lim.max_string_bytes (length s + length (encode_rune r)) ≡ false
      → IsText (s ++ encode_rune r) × (length (s ++ encode_rune r) ≤ lim.max_string_bytes)
  appended s r t h k e = (IsText-snoc s r t (h, k), ground (arith, length-append s (encode_rune r)))

  escape_step-Stepped :
      (buf : Bytes) (p : Parser)
      → IsText buf
      → 0 < length p.rest
      → Ensures (Stepped p) (escape_step lim buf p)
  unfolding escape_step
  escape_step-Stepped buf p t more =
      let first = advance-Moves 1 p more in
      Ensures-bind (parse_escape-Ensures p.at (advance 1 p)) λ (r, q) h.
        Ensures-bind (validate_string_rune-Ensures r p.at) λ _ v. Ensures-reject _ _ λ fits.
          let scalar : Scalar r = ground arith in
          let new = appended buf r t scalar v.0 fits in
          holds (new.0, new.1, Moves-trans first h.1, omega (arith, length-drop 1 p.rest))

  raw_step-Stepped :
      (b : ℕ) (buf : Bytes) (p : Parser) → IsText buf → Ensures (Stepped p) (raw_step lim b buf p)
  unfolding raw_step
  raw_step-Stepped b buf p t = Ensures-reject _ _ λ _. Ensures-reject _ _ λ good.
      Ensures-bind (validate_string_rune-Ensures (decode_rune p.rest).0 p.at) λ _ v.
        Ensures-reject _ _ λ fits.
          let d = decode_rune p.rest in
          let (scalar, size, split) = decode_rune_sound p.rest {r = d.0} {n = d.1} refl good in
          let chunk = taken p.rest (encode_rune d.0) d.1 size split in
          let new = appended buf d.0 t scalar v.0 (rw size at fits) in
          rw chunk.0 (
            holds (
              new.0,
              new.1,
              advance-Moves d.1 p chunk.1,
              omega (arith, length-drop d.1 p.rest, length-encode_rune d.0),
            ))

  -- What a round of the loop needs of the buffer: a closing quote accepts it as it is.
  abbrev Fits : Bytes → Parser → Type 0
  Fits buf p = peek p ≡ some b'"' → length buf ≤ lim.max_string_bytes

  -- A string that `parseString` returns: clean text within the limit, behind which the parser stands.
  abbrev pub IsString : Parser → Bytes × Parser → Type 0
  IsString p r =
      IsText r.0
      × (length r.0 ≤ lim.max_string_bytes)
      × Moves p r.1
      × (length r.1.rest < length p.rest)

  string_step-Stepped :
      (b : ℕ) (buf : Bytes) (p : Parser)
      → IsText buf
      → 0 < length p.rest
      → Ensures (Stepped p) (if b == b'\\' then escape_step lim buf p else raw_step lim b buf p)
  string_step-Stepped b buf p t more =
      Ensures-if (b == b'\\') (λ _. escape_step-Stepped buf p t more)
        (λ _. raw_step-Stepped b buf p t)

  string_loop-IsString :
      (f : ℕ) (buf : Bytes) (p : Parser)
      → length p.rest < f
      → IsText buf
      → Fits buf p
      → Ensures (IsString p) (string_loop lim f buf p)
  unfolding string_loop
  string_loop-IsString zero buf p h t fits = elim h [ ]
  string_loop-IsString (suc f) buf p h t fits = elim (Option-cases (peek p)) [
    | inl e ↦ rw (e, string_loop) rejected
    | inr (b, e) ↦
        let behind = peek-next p e in
        rw (e, string_loop)
          (Ensures-if (b == b'"')
            (λ quote. holds (t, fits (ground arith), behind.0, omega (arith, behind.1)))
            (λ _. Ensures-bind (string_step-Stepped b buf p t (peek-some p e)) λ r s.
              Ensures-map (string_loop-IsString f r.0 r.1 (omega (arith, s.3)) s.0 (λ _. s.1))
                λ w k. (k.0, k.1, Moves-trans s.2 k.2, omega (arith, k.3, s.3))))
  ]

  string_body-IsString :
      (pre : Bytes) (p : Parser) → IsText pre → Ensures (IsString p) (string_body lim pre p)
  unfolding string_body
  string_body-IsString pre p t = elim (Option-cases (peek p)) [
    | inl e ↦ rw (e, string_body) (loop (λ x. cc))
    | inr (b, e) ↦
        rw (e, string_body)
          (Ensures-if (b == b'"')
            (λ _.
              Ensures-if (ltb lim.max_string_bytes (length pre)) (λ _. rejected)
                λ fits.
                  let behind = peek-next p e in
                  holds (t, ground arith, behind.0, omega (arith, behind.1)))
            (λ other. loop (λ x. ground arith)))
  ]
    where
      loop : Fits pre p → Ensures (IsString p) (string_loop lim (suc (length p.rest)) pre p)
      loop fits = string_loop-IsString (suc (length p.rest)) pre p (omega arith) t fits

  -- A string literal that is accepted decodes to the UTF-8 encoding of scalar values without
  -- noncharacters, no longer than the limit; the parser has moved forward by at least one byte and
  -- has kept its depth and its count of values. `parseString` ends.
  pub parse_string-IsString : (p : Parser) → Ensures (IsString p) (parse_string lim p)
  unfolding parse_string
  parse_string-IsString p = Ensures-bind (expect-Ensures b'"' p) λ q h.
      let pre = plain_prefix q.rest in
      let skip = advance-Moves (length pre) q (length-plain_prefix q.rest) in
      Ensures-map (string_body-IsString pre (advance (length pre) q) (plain_prefix-IsText q.rest))
        λ r k.
          (k.0, k.1, Moves-trans h.0 (Moves-trans skip k.2), omega (arith, h.1, k.3, skip.no_back))
