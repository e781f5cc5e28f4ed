-- ===== src/Jcs/Escape/Loop.antt =====
-- jcs/serialize.go against jcstoken/token.go: the parser's loop over what the writer makes of code
-- points.
use mathlib.Core.Path.{subst}
use jcs_schubfach.Prelude.{
  ℕ, zero, suc, ◌+◌, ◌≤◌, ◌<◌, ◌≡◌, refl, ap, sym, ◌∙◌, ◌⊎◌, inl, inr, Option-cases, none, some,
  true, false, Bool-cases, List, [], ◌∷◌, ◌++◌, arith, append_assoc, append-nil, ltb, ◌==◌,
  if◌then◌else◌, Bytes, length, drop, take-append, drop-append, All, length-append, le→ltb,
}
use jcs_schubfach.Jcstoken.Options.{Limits}
use jcs_schubfach.Jcstoken.State.{Parser}
use jcs_schubfach.Jcstoken.Strings.{
  validate_string_rune, parse_escape, is_plain, escape_step, raw_step, string_loop,
}
use jcs_schubfach.Jcstoken.Strings.Clean.{Clean}
use jcs_schubfach.Jcs.Escape.{escaped_byte}
use jcs_schubfach.Jcs.Escape.Forms.{
  form, forms, ascii-encode_rune, lead, Lead-plain, form-some, form-none,
}
use jcs_schubfach.Result.{Result, ok, reject_if}
use jcs_schubfach.Unicode.Utf16.{is_surrogate}
use jcs_schubfach.Unicode.Utf8.{encode_rune}
use jcs_schubfach.Unicode.Utf8.RoundTrip.{Scalar, decode_rune-encode_rune}
use jcs_schubfach.Unicode.Utf8.Text.{encode_runes, encode_rune-not_bad}
use jcs_schubfach.Jcs.Escape.Reading.{put, parse_escape-form}

pub validate_string_rune-Clean : (r off : ℕ) → Clean r → validate_string_rune r off ≡ ok tt
unfolding validate_string_rune reject_if
validate_string_rune-Clean r off h =
    let no_surrogate : is_surrogate r ≡ false = ground (arith, h.0) in rw (h.1, no_surrogate) refl

-- An escape starts with a backslash.
pub escaped_byte-backslash :
    (r : ℕ) (out : Bytes) → escaped_byte r ≡ some out → out ≡ b'\\' ∷ drop 1 out
unfolding escaped_byte
escaped_byte-backslash r out h = ground arith

pub plain_byte :
    (b : ℕ) → escaped_byte b ≡ none → ((b == b'"') ≡ false) × ((b == b'\\') ≡ false) × (0x20 ≤ b)
unfolding escaped_byte
plain_byte b h = ground arith

-- The form of a code point is one byte that the fast path accepts, or starts with another byte that
-- is no quote.
pub form-first :
    (r : ℕ)
    → Scalar r
    → ((is_plain r ≡ true) × (form r ≡ r ∷ []) × (encode_rune r ≡ r ∷ []))
      ⊎ ((c : ℕ) × (t : Bytes) × (form r ≡ c ∷ t) × (is_plain c ≡ false) × ((c == b'"') ≡ false))
form-first r h = elim (Option-cases (escaped_byte r)) [
  | inr (out, e) ↦
      inr (b'\\', drop 1 out, form-some r e ∙ escaped_byte-backslash r out e, refl, refl)
  | inl plain ↦ elim (Bool-cases (ltb r 0x80)) [
    | inl ascii ↦
        let one = ascii-encode_rune r (ground arith) in
        inl (ground (arith, plain_byte r plain), form-none r plain ∙ one, one)
    | inr other ↦
        let (b, t, l) = lead r h in
        let high = l.high (ground arith) in
        inr (b, t, form-none r plain ∙ l.same, ground arith, ground arith)
  ]
]

pub length-form : (r : ℕ) → Scalar r → 0 < length (form r)
length-form r h = elim (form-first r h) [
  | inl (_, one, _) ↦ omega (arith, ap length one)
  | inr (c, t, e, _, _) ↦ omega (arith, ap length e)
]

-- Two descriptions of one result.
pub placed :
    (p : Parser) (s : Bytes) {x y : Bytes} {i j : ℕ}
    → x ≡ y
    → i ≡ j
    → ◌≡◌ {A = Result (Bytes × Parser)} (ok (x, put p s i)) (ok (y, put p s j))
placed p s e f = cc

pub forms-cons : (r : ℕ) (rs : List ℕ) (s : Bytes) → forms (r ∷ rs) ++ s ≡ form r ++ (forms rs ++ s)
unfolding forms
forms-cons r rs s = append_assoc (form r) (forms rs) s

pub length-forms-cons :
    (r : ℕ) (rs : List ℕ) → length (forms (r ∷ rs)) ≡ length (form r) + length (forms rs)
unfolding forms
length-forms-cons r rs = length-append (form r) (forms rs)

pub length-le-forms : (rs : List ℕ) → All Clean rs → length rs ≤ length (forms rs)
length-le-forms [] h = omega arith
length-le-forms (r ∷ rs) h =
    omega (arith, length-forms-cons r rs, length-form r h.0.0, length-le-forms rs h.1)

pub length-encode_runes-cons :
    (r : ℕ) (rs : List ℕ)
    → length (encode_runes (r ∷ rs)) ≡ length (encode_rune r) + length (encode_runes rs)
unfolding encode_runes
length-encode_runes-cons r rs = length-append (encode_rune r) (encode_runes rs)

pub append-encode_runes :
    (s : Bytes) (r : ℕ) (rs : List ℕ)
    → (s ++ encode_rune r) ++ encode_runes rs ≡ s ++ encode_runes (r ∷ rs)
unfolding encode_runes
append-encode_runes s r rs = append_assoc s (encode_rune r) (encode_runes rs)

module _ (lim : Limits) where
  -- There is room for one more code point.
  abbrev pub Room : Bytes → ℕ → Type 0
  Room buf r = length buf + length (encode_rune r) ≤ lim.max_string_bytes

  pub escape_step-tail :
      (r n : ℕ) (t buf s : Bytes) (p : Parser)
      → Clean r
      → parse_escape n (put p (t ++ s) (n + 1)) ≡ ok (r, put p s (n + 1 + length t))
      → Room buf r
      → escape_step lim buf (put p (b'\\' ∷ (t ++ s)) n)
        ≡ ok (buf ++ encode_rune r, put p s (n + suc (length t)))
  unfolding escape_step reject_if
  escape_step-tail r n t buf s p clean e room =
      rw
        (
          e,
          validate_string_rune-Clean r n clean,
          le→ltb lim.max_string_bytes (length buf + length (encode_rune r)) room,
        )
        (ap (λ k. ok (buf ++ encode_rune r, put p s k)) (omega arith))

  pub escape_step-form :
      (r n : ℕ) (out buf s : Bytes) (p : Parser)
      → Clean r
      → escaped_byte r ≡ some out
      → Room buf r
      → escape_step lim buf (put p (out ++ s) n)
        ≡ ok (buf ++ encode_rune r, put p s (n + length out))
  escape_step-form r n out buf s p clean e room =
      subst
        (λ o.
          escape_step lim buf (put p (o ++ s) n)
          ≡ ok (buf ++ encode_rune r, put p s (n + length o)))
        (sym (escaped_byte-backslash r out e))
        (escape_step-tail r n (drop 1 out) buf s p clean (parse_escape-form r n (n + 1) out s p e)
          room)

  pub raw_step-form :
      (b r n : ℕ) (buf s : Bytes) (p : Parser)
      → Clean r
      → 0x20 ≤ b
      → Room buf r
      → raw_step lim b buf (put p (encode_rune r ++ s) n)
        ≡ ok (buf ++ encode_rune r, put p s (n + length (encode_rune r)))
  unfolding raw_step reject_if
  raw_step-form b r n buf s p clean low room =
      rw
        (
          le→ltb b 0x20 low,
          decode_rune-encode_rune r s clean.0,
          encode_rune-not_bad r clean.0,
          validate_string_rune-Clean r n clean,
          le→ltb lim.max_string_bytes (length buf + length (encode_rune r)) room,
          take-append (encode_rune r) s,
          drop-append (encode_rune r) s,
        )
        refl

  -- The round of the loop at a byte that is no quote.
  abbrev pub Round : ℕ → Bytes → Parser → Bytes × Parser → Type 0
  Round b buf p r = (if b == b'\\' then escape_step lim buf p else raw_step lim b buf p) ≡ ok r

  pub string_loop-Round :
      (f b n : ℕ) (o t buf s : Bytes) (p : Parser) (r : Bytes × Parser)
      → o ≡ b ∷ t
      → (b == b'"') ≡ false
      → Round b buf (put p (o ++ s) n) r
      → string_loop lim (suc f) buf (put p (o ++ s) n) ≡ string_loop lim f r.0 r.1
  string_loop-Round f b n o t buf s p r shape open_ round =
      subst
        (λ o.
          Round b buf (put p (o ++ s) n) r
          → string_loop lim (suc f) buf (put p (o ++ s) n) ≡ string_loop lim f r.0 r.1)
        (sym shape) at_byte round
    where
      at_byte :
          Round b buf (put p (b ∷ (t ++ s)) n) r
          → string_loop lim (suc f) buf (put p (b ∷ (t ++ s)) n) ≡ string_loop lim f r.0 r.1
      at_byte e = unfold string_loop in rw (open_, e)

  -- One round of the loop reads the form of one code point.
  pub string_loop-form :
      (f r n : ℕ) (buf s : Bytes) (p : Parser)
      → Clean r
      → Room buf r
      → string_loop lim (suc f) buf (put p (form r ++ s) n)
        ≡ string_loop lim f (buf ++ encode_rune r) (put p s (n + length (form r)))
  string_loop-form f r n buf s p clean room = elim (Option-cases (escaped_byte r)) [
    | inl plain ↦
        let (b, t, l) = lead r clean.0 in
        let (quote, slash, low) = plain_byte b (Lead-plain r b t l plain) in
        rw (form-none r plain) (
          string_loop-Round f b n (encode_rune r) t buf s p
            (buf ++ encode_rune r, put p s (n + length (encode_rune r))) l.same quote
            (rw slash (raw_step-form b r n buf s p clean low room)))
    | inr (out, e) ↦ rw (form-some r e) (
        string_loop-Round f b'\\' n out (drop 1 out) buf s p
          (buf ++ encode_rune r, put p s (n + length out)) (escaped_byte-backslash r out e) refl
          (escape_step-form r n out buf s p clean e room))
  ]

  -- The loop reads forms up to the closing quote.
  pub string_loop-forms :
      (f n : ℕ) (rs : List ℕ) (buf s : Bytes) (p : Parser)
      → length rs < f
      → All Clean rs
      → length buf + length (encode_runes rs) ≤ lim.max_string_bytes
      → string_loop lim f buf (put p (forms rs ++ b'"' ∷ s) n)
        ≡ ok (buf ++ encode_runes rs, put p s (n + length (forms rs) + 1))
  string_loop-forms zero n rs buf s p h clean room = elim h [ ]
  string_loop-forms (suc f) n [] buf s p h clean room =
      unfold string_loop forms encode_runes in placed p s (sym (append-nil buf)) (omega arith)
  string_loop-forms (suc f) n (r ∷ rs) buf s p h clean room =
      let room' : Room buf r = omega (arith, length-encode_runes-cons r rs) in
      rw (forms-cons r rs (b'"' ∷ s)) (
        string_loop-form f r n buf (forms rs ++ b'"' ∷ s) p clean.0 room'
        ∙ string_loop-forms f (n + length (form r)) rs (buf ++ encode_rune r) s p (omega arith)
            clean.1
            (omega (arith, length-append buf (encode_rune r), length-encode_runes-cons r rs))
        ∙ placed p s (append-encode_runes buf r rs) (omega (arith, length-forms-cons r rs)))
