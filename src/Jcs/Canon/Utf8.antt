-- ===== src/Jcs/Canon/Utf8.antt =====
-- jcs/serialize.go: the canonical text is valid UTF-8, and no shorter than the number of its values.
use jcs_schubfach.Prelude.{
  ℕ, ◌+◌, ◌/◌, ◌%◌, Bool, false, ltb, ◌==◌, if◌then◌else◌, ◌≤◌, ◌<◌, ◌≡◌, refl, ap, ◌∙◌, inl, inr,
  true, Option, Option-cases, none, some, List, [], ◌∷◌, ◌++◌, append_assoc, append-nil, sym, codes,
  arith, Bytes, length, All, length-append,
}
use jcs_schubfach.Jcs.Escape.{backslashed, hex_digit, escaped_byte}
use jcs_schubfach.Jcs.Escape.Forms.{
  form, forms, form-some, form-none, ascii-encode_rune, serialize_string-forms,
}
use jcs_schubfach.Jcstoken.Options.{Limits}
use jcs_schubfach.Jcstoken.Strings.Clean.{All-Scalar}
use jcs_schubfach.Jcstoken.Value.{
  Value, Elems, Members, null, bool, number, string, array, object, unknown, no_elems, elem,
  no_members, member,
}
use jcs_schubfach.Jcs.Canon.{
  quoted, text, elems_text, more_elems, members_text, more_members, size, elems_size, members_size,
}
use jcs_schubfach.Jcs.Canon.Fits.{FitsString, Fits, FitsElems, FitsMembers}
use jcs_schubfach.Jcs.Canon.Legible.{Legible}
use jcs_schubfach.Jcs.Canon.Reading.{text-first, bool_literal-cases}
use jcs_schubfach.Jcs.Validate.{is_bool_literal}
use jcs_schubfach.Unicode.Utf8.{valid, valid_from}
use jcs_schubfach.Unicode.Utf8.RoundTrip.{Scalar}
use jcs_schubfach.Unicode.Utf8.Text.{valid-encode_rune}

-- Valid bytes in front of others leave these as valid as they are.
abbrev Whole : Bytes → Type 0
Whole s = (t : Bytes) → valid (s ++ t) ≡ valid t

Whole-append : (s t : Bytes) → Whole s → Whole t → Whole (s ++ t)
Whole-append s t h k u = rw (append_assoc s t u) (h (t ++ u) ∙ k u)

ascii-Whole : (s : Bytes) → All (λ b. b < 0x80) s → Whole s
ascii-Whole [] h t = refl
ascii-Whole (b ∷ s) h t =
    let first =
      rw (ascii-encode_rune b h.0) at (valid-encode_rune b (s ++ t) (ground (arith, h.0))) in
    first ∙ ascii-Whole s h.1 t

abbrev AsciiIf : Option Bytes → Type 0
AsciiIf none = Unit
AsciiIf (some out) = All (λ b. b < 0x80) out

AsciiIf-if :
    (b : Bool) (x y : Option Bytes)
    → (b ≡ true → AsciiIf x)
    → (b ≡ false → AsciiIf y)
    → AsciiIf (if b then x else y)
AsciiIf-if true x y h k = h refl
AsciiIf-if false x y h k = k refl

hex_digit-ascii : (d : ℕ) → d < 16 → hex_digit d < 0x80
hex_digit-ascii d h = ground arith

backslashed-ascii : (b : ℕ) → b < 0x80 → AsciiIf (some (backslashed b))
backslashed-ascii b h = (omega arith, (h, tt))

escaped_byte-AsciiIf : (r : ℕ) → AsciiIf (escaped_byte r)
unfolding escaped_byte
escaped_byte-AsciiIf r =
    AsciiIf-if (r == b'"') _ _ (λ _. backslashed-ascii b'"' (omega arith))
      λ _.
        AsciiIf-if (r == b'\\') _ _ (λ _. backslashed-ascii b'\\' (omega arith))
          λ _.
            AsciiIf-if (r == 8) _ _ (λ _. backslashed-ascii b'b' (omega arith))
              λ _.
                AsciiIf-if (r == 9) _ _ (λ _. backslashed-ascii b't' (omega arith))
                  λ _.
                    AsciiIf-if (r == 10) _ _ (λ _. backslashed-ascii b'n' (omega arith))
                      λ _.
                        AsciiIf-if (r == 12) _ _ (λ _. backslashed-ascii b'f' (omega arith))
                          λ _.
                            AsciiIf-if (r == 13) _ _ (λ _. backslashed-ascii b'r' (omega arith))
                              λ _.
                                AsciiIf-if (ltb r 0x20) _ _
                                  (λ low. (
                                    omega arith,
                                    (
                                      omega arith,
                                      (
                                        omega arith,
                                        (
                                          omega arith,
                                          (
                                            hex_digit-ascii (r / 16) (ground (arith, low)),
                                            (hex_digit-ascii (r % 16) (omega arith), tt),
                                          ),
                                        ),
                                      ),
                                    ),
                                  ))
                                  λ _. tt

form-Whole : (r : ℕ) → Scalar r → Whole (form r)
form-Whole r h = elim (Option-cases (escaped_byte r)) [
  | inl e ↦ rw (form-none r e) λ t. valid-encode_rune r t h
  | inr (out, e) ↦ rw (form-some r e) (ascii-Whole out (rw e at (escaped_byte-AsciiIf r)))
]

forms-Whole : (rs : List ℕ) → All Scalar rs → Whole (forms rs)
unfolding forms
forms-Whole [] h = λ t. refl
forms-Whole (r ∷ rs) h = Whole-append (form r) (forms rs) (form-Whole r h.0) (forms-Whole rs h.1)

byte_Whole : (b : ℕ) (s : Bytes) → b < 0x80 → Whole s → Whole (b ∷ s)
byte_Whole b s h = Whole-append (b ∷ []) s (ascii-Whole (b ∷ []) (h, tt))

bool_Whole : (s : Bytes) → is_bool_literal s ≡ true → Whole s
bool_Whole s h = elim (bool_literal-cases s h) [
  | inl e ↦ rw e (ascii-Whole (codes "true") (omega arith))
  | inr e ↦ rw e (ascii-Whole (codes "false") (omega arith))
]

module _ (lim : Limits) where
  quoted-Whole : (s : Bytes) → FitsString lim s → Whole (quoted s)
  quoted-Whole s ((rs, clean, e), _) =
      let scalars = All-Scalar rs clean in
      rw (e, serialize_string-forms [] rs scalars)
        (byte_Whole b'"' (forms rs ++ b'"' ∷ []) (omega arith) (
          Whole-append (forms rs) (b'"' ∷ []) (forms-Whole rs scalars)
            (ascii-Whole (b'"' ∷ []) (omega arith, tt))))

  mutual
    unfolding text elems_text more_elems members_text more_members Fits FitsElems FitsMembers

    text-Whole : (d : ℕ) (v : Value) → Fits lim (Legible lim) d v → Whole (text v)
    text-Whole d null h = ascii-Whole (codes "null") (omega arith)
    text-Whole d (bool s) h = bool_Whole s h.1
    text-Whole d (number f) h = ascii-Whole _ h.2.ascii
    text-Whole d (string s) h = quoted-Whole s h.1
    text-Whole d (array es) h = byte_Whole b'[' _ (omega arith) (elems-Whole (d + 1) es h.2).0
    text-Whole d (object ms) h = byte_Whole b'{' _ (omega arith) (members-Whole (d + 1) ms h.3).0
    text-Whole d (unknown i) h = absurd h

    elems-Whole :
        (d : ℕ) (es : Elems)
        → FitsElems lim (Legible lim) d es
        → Whole (elems_text es) × Whole (more_elems es)
    elems-Whole d no_elems h =
        (byte_Whole b']' [] (omega arith) λ t. refl, byte_Whole b']' [] (omega arith) λ t. refl)
    elems-Whole d (elem v es) h =
        let all =
          Whole-append (text v) (more_elems es) (text-Whole d v h.0) (elems-Whole d es h.1).1 in
        (all, byte_Whole b',' _ (omega arith) all)

    members-Whole :
        (d : ℕ) (ms : Members)
        → FitsMembers lim (Legible lim) d ms
        → Whole (members_text ms) × Whole (more_members ms)
    members-Whole d no_members h =
        (byte_Whole b'}' [] (omega arith) λ t. refl, byte_Whole b'}' [] (omega arith) λ t. refl)
    members-Whole d (member k v ms) h =
        let value =
          Whole-append (text v) (more_members ms) (text-Whole d v h.1) (members-Whole d ms h.2).1 in
        let all =
          Whole-append (quoted k) _ (quoted-Whole k h.0) (byte_Whole b':' _ (omega arith) value) in
        (all, byte_Whole b',' _ (omega arith) all)

  pub text-valid : (d : ℕ) (v : Value) → Fits lim (Legible lim) d v → valid (text v) ≡ true
  text-valid d v h =
      ap valid (sym (append-nil (text v))) ∙ (text-Whole d v h [] ∙ unfold valid_from in refl)

  text_pos : (d : ℕ) (v : Value) → Fits lim (Legible lim) d v → 1 ≤ length (text v)
  text_pos d v h = let (c, t, e, _) = text-first lim d v h in rw e (omega arith)

  mutual
    unfolding text elems_text more_elems members_text more_members Fits FitsElems FitsMembers size
        elems_size members_size

    -- Each value in a text takes a byte at least.
    pub size-text : (d : ℕ) (v : Value) → Fits lim (Legible lim) d v → size v ≤ length (text v)
    size-text d null h = omega arith
    size-text d (bool s) h = text_pos d (bool s) h
    size-text d (number f) h = text_pos d (number f) h
    size-text d (string s) h = text_pos d (string s) h
    size-text d (array es) h = omega (arith, (elems_size-elems_text (d + 1) es h.2).0)
    size-text d (object ms) h = omega (arith, (members_size-members_text (d + 1) ms h.3).0)
    size-text d (unknown i) h = absurd h

    elems_size-elems_text :
        (d : ℕ) (es : Elems)
        → FitsElems lim (Legible lim) d es
        → (elems_size es ≤ length (elems_text es)) × (elems_size es ≤ length (more_elems es))
    elems_size-elems_text d no_elems h = omega arith
    elems_size-elems_text d (elem v es) h = omega (
      arith,
      size-text d v h.0,
      (elems_size-elems_text d es h.1).1,
      length-append (text v) (more_elems es),
    )

    members_size-members_text :
        (d : ℕ) (ms : Members)
        → FitsMembers lim (Legible lim) d ms
        → (members_size ms ≤ length (members_text ms))
          × (members_size ms ≤ length (more_members ms))
    members_size-members_text d no_members h = omega arith
    members_size-members_text d (member k v ms) h =
        let rest = text v ++ more_members ms in
        omega (
          arith,
          size-text d v h.1,
          (members_size-members_text d ms h.2).1,
          length-append (text v) (more_members ms),
          length-append (quoted k) (b':' ∷ rest),
        )
