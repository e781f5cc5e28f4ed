-- ===== src/Jcs/Escape/Forms.antt =====
-- jcs/serialize.go: what `serializeString` writes for one code point.
use jcs_schubfach.Prelude.{
  ℕ, suc, ◌-◌, ◌≤◌, ◌<◌, ◌≡◌, ap, ◌∙◌, inl, inr, Option-cases, none, some, Bool-cases, List, [],
  ◌∷◌, ◌++◌, arith, append_assoc, append-nil, ltb, Bytes, length, All, length-append,
}
use jcs_schubfach.Jcs.Escape.{
  escaped_byte, utf8_seq_len, byte_span_for_copy, escape_onto, serialize_string,
}
use jcs_schubfach.Unicode.Utf8.{encode_rune}
use jcs_schubfach.Unicode.Utf8.RoundTrip.{Scalar}
use jcs_schubfach.Unicode.Utf8.Text.{encode_runes, length-encode_rune, nonempty}

-- The escape of a code point, or its own encoding.
unfoldable pub form : ℕ → Bytes
form r = elim (escaped_byte r) [ some out ↦ out | none ↦ encode_rune r ]

unfoldable pub forms : List ℕ → Bytes
forms [] = []
forms (r ∷ rs) = form r ++ forms rs

-- The first byte of an encoding, and the length that `utf8SeqLen` reads from it.
pub record Lead (r b : ℕ) (t : Bytes) : Type 0 where
  pub same : encode_rune r ≡ b ∷ t
  pub ascii : r < 0x80 → b ≡ r
  pub high : 0x80 ≤ r → 0xC2 ≤ b
  pub span : utf8_seq_len b ≡ suc (length t)

Lead-of : (r b : ℕ) (t : Bytes) → Scalar r → encode_rune r ≡ b ∷ t → Lead r b t
unfolding encode_rune utf8_seq_len
Lead-of r b t h e = record {
  same = e;
  ascii = ground arith;
  high = ground arith;
  span = ground arith;
}

pub lead : (r : ℕ) → Scalar r → (b : ℕ) × (t : Bytes) × Lead r b t
lead r h =
    let (b, t, e) = nonempty (encode_rune r) (length-encode_rune r).0 in (b, t, Lead-of r b t h e)

escaped_byte-ascii : (r : ℕ) {out : Bytes} → escaped_byte r ≡ some out → r < 0x80
unfolding escaped_byte
escaped_byte-ascii r h = ground arith

escaped_byte-high : (b : ℕ) → 0x80 ≤ b → escaped_byte b ≡ none
unfolding escaped_byte
escaped_byte-high b h = ground arith

pub ascii-encode_rune : (r : ℕ) → r < 0x80 → encode_rune r ≡ r ∷ []
unfolding encode_rune
ascii-encode_rune r h = ground arith

copy_span : (t s buf : Bytes) → escape_onto (length t) buf (t ++ s) ≡ escape_onto 0 (buf ++ t) s
unfolding escape_onto
copy_span [] s buf = rw append-nil
copy_span (b ∷ t) s buf = copy_span t s (buf ++ b ∷ []) ∙ rw append_assoc

pub form-some : (r : ℕ) {out : Bytes} → escaped_byte r ≡ some out → form r ≡ out
unfolding form
form-some r e = rw (e, form)

pub form-none : (r : ℕ) → escaped_byte r ≡ none → form r ≡ encode_rune r
unfolding form
form-none r e = rw (e, form)

byte_span-suc :
    (b : ℕ) (t s : Bytes)
    → utf8_seq_len b ≡ suc (length t)
    → byte_span_for_copy b (t ++ s) - 1 ≡ length t
unfolding byte_span_for_copy utf8_seq_len
byte_span-suc b t s h = ground (arith, length-append t s)

-- Of a code point that is written as it is, no byte is escaped.
pub Lead-plain : (r b : ℕ) (t : Bytes) → Lead r b t → escaped_byte r ≡ none → escaped_byte b ≡ none
Lead-plain r b t l plain = elim (Bool-cases (ltb r 0x80)) [
  | inl low ↦ rw (l.ascii (ground arith)) plain
  | inr high ↦ escaped_byte-high b (omega (arith, l.high (ground arith)))
]

escape_onto-plain :
    (b : ℕ) (s buf : Bytes)
    → escaped_byte b ≡ none
    → escape_onto 0 buf (b ∷ s) ≡ escape_onto (byte_span_for_copy b s - 1) (buf ++ b ∷ []) s
unfolding escape_onto
escape_onto-plain b s buf e = rw (e, escape_onto)

escape_onto-span :
    (b : ℕ) (t s buf : Bytes)
    → utf8_seq_len b ≡ suc (length t)
    → escape_onto (byte_span_for_copy b (t ++ s) - 1) (buf ++ b ∷ []) (t ++ s)
      ≡ escape_onto 0 (buf ++ b ∷ t) s
escape_onto-span b t s buf h =
    rw (byte_span-suc b t s h)
      (copy_span t s (buf ++ b ∷ []) ∙ ap (λ x. escape_onto 0 x s) (append_assoc buf (b ∷ []) t))

escape_onto-escaped :
    (b : ℕ) (s buf : Bytes) {out : Bytes}
    → escaped_byte b ≡ some out
    → escape_onto 0 buf (b ∷ s) ≡ escape_onto 0 (buf ++ out) s
unfolding escape_onto
escape_onto-escaped b s buf e = rw (e, escape_onto)

-- The loop writes the form of the code point at its position.
escape_onto-form :
    (r : ℕ) (s buf : Bytes)
    → Scalar r
    → escape_onto 0 buf (encode_rune r ++ s) ≡ escape_onto 0 (buf ++ form r) s
escape_onto-form r s buf h = elim (Option-cases (escaped_byte r)) [
  | inl plain ↦
      let (b, t, l) = lead r h in
      rw (form-none r plain, l.same)
        (escape_onto-plain b (t ++ s) buf (Lead-plain r b t l plain)
          ∙ escape_onto-span b t s buf l.span)
  | inr (out, e) ↦
      rw (form-some r e, ascii-encode_rune r (escaped_byte-ascii r e))
        (escape_onto-escaped r s buf e)
]

escape_onto-forms :
    (rs : List ℕ) (buf : Bytes)
    → All Scalar rs
    → escape_onto 0 buf (encode_runes rs) ≡ buf ++ forms rs
unfolding encode_runes forms
escape_onto-forms [] buf h = unfold escape_onto in rw append-nil
escape_onto-forms (r ∷ rs) buf h =
    escape_onto-form r (encode_runes rs) buf h.0
    ∙ escape_onto-forms rs (buf ++ form r) h.1
    ∙ append_assoc buf (form r) (forms rs)

-- The writer puts the forms of the code points between quotes.
pub serialize_string-forms :
    (buf : Bytes) (rs : List ℕ)
    → All Scalar rs
    → serialize_string buf (encode_runes rs) ≡ buf ++ b'"' ∷ (forms rs ++ b'"' ∷ [])
unfolding serialize_string
serialize_string-forms buf rs h = rw (escape_onto-forms rs (buf ++ b'"' ∷ []) h) (simp append_assoc)
