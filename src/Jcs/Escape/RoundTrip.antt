-- ===== src/Jcs/Escape/RoundTrip.antt =====
-- jcs/serialize.go against jcstoken/token.go: `parseString` reads back what `serializeString` writes.
use mathlib.Core.Path.{subst, ap₂}
use jcs_schubfach.Prelude.{
  ℕ, suc, ◌+◌, ◌≤◌, ◌≡◌, refl, ap, sym, ◌∙◌, inl, inr, true, false, List, [], ◌∷◌, ◌++◌, arith,
  append_assoc, append-nil, ◌==◌, Bytes, length, drop, All, length-append, le→ltb,
}
use jcs_schubfach.Jcstoken.Options.{Limits}
use jcs_schubfach.Jcstoken.State.{Parser, advance, expect}
use jcs_schubfach.Jcstoken.Strings.{is_plain, plain_prefix, string_loop, string_body, parse_string}
use jcs_schubfach.Jcstoken.Strings.Clean.{Clean, All-Scalar, IsText}
use jcs_schubfach.Jcs.Escape.{serialize_string}
use jcs_schubfach.Jcs.Escape.Forms.{forms, serialize_string-forms}
use jcs_schubfach.Result.{Result, ok}
use jcs_schubfach.Unicode.Utf8.Text.{encode_runes}
use jcs_schubfach.Jcs.Escape.Reading.{put}
use jcs_schubfach.Jcs.Escape.Loop.{
  form-first, placed, forms-cons, length-forms-cons, length-le-forms, length-encode_runes-cons,
  append-encode_runes, string_loop-forms,
}

module _ (lim : Limits) where
  -- The fast path and, behind it, the general path.
  abbrev Body : Bytes → Bytes → ℕ → Parser → Result (Bytes × Parser)
  Body pre x n p =
      string_body lim (pre ++ plain_prefix x) (advance (length (plain_prefix x)) (put p x n))

  -- A plain byte is stepped over by the fast path.
  body_plain :
      (r : ℕ) (pre y : Bytes) (n : ℕ) (p : Parser)
      → is_plain r ≡ true
      → Body pre (r ∷ y) n p ≡ Body (pre ++ r ∷ []) y (n + 1) p
  body_plain r pre y n p plain =
      unfold plain_prefix in
      rw plain (
        ap₂ (λ a k. string_body lim a (put p (drop (length (plain_prefix y)) y) k))
          (sym (append_assoc pre (r ∷ []) (plain_prefix y))) (omega arith))

  -- At any other byte but a quote the general path takes over.
  body_special :
      (c : ℕ) (pre y : Bytes) (n : ℕ) (p : Parser)
      → is_plain c ≡ false
      → (c == b'"') ≡ false
      → Body pre (c ∷ y) n p ≡ string_loop lim (suc (length (c ∷ y))) pre (put p (c ∷ y) n)
  body_special c pre y n p special open_ =
      unfold plain_prefix string_body in
      rw (special, open_, append-nil)
        (ap (λ k. string_loop lim (suc (suc (length y))) pre (put p (c ∷ y) k)) (omega arith))

  body_special_at :
      (x : Bytes) (c : ℕ) (pre y : Bytes) (n : ℕ) (p : Parser)
      → x ≡ c ∷ y
      → is_plain c ≡ false
      → (c == b'"') ≡ false
      → Body pre x n p ≡ string_loop lim (suc (length x)) pre (put p x n)
  body_special_at x c pre y n p e special open_ =
      subst (λ z. Body pre z n p ≡ string_loop lim (suc (length z)) pre (put p z n)) (sym e)
        (body_special c pre y n p special open_)

  string_body-forms :
      (rs : List ℕ) (pre s : Bytes) (n : ℕ) (p : Parser)
      → All Clean rs
      → length pre + length (encode_runes rs) ≤ lim.max_string_bytes
      → Body pre (forms rs ++ b'"' ∷ s) n p
        ≡ ok (pre ++ encode_runes rs, put p s (n + length (forms rs) + 1))
  string_body-forms [] pre s n p clean room =
      unfold plain_prefix string_body forms encode_runes in
      rw (append-nil, le→ltb lim.max_string_bytes (length pre) (unfold encode_runes in omega arith))
        (placed p s refl (omega arith))
  string_body-forms (r ∷ rs) pre s n p clean room = elim (form-first r clean.0.0) [
    | inl (plain, one, alone) ↦
        rw (forms-cons r rs (b'"' ∷ s), one)
          (body_plain r pre (forms rs ++ b'"' ∷ s) n p plain
            ∙ string_body-forms rs (pre ++ r ∷ []) s (n + 1) p clean.1 (
                omega (
                  arith,
                  length-append pre (r ∷ []),
                  length-encode_runes-cons r rs,
                  ap length alone,
                ))
            ∙ placed p s
                (ap (λ e. (pre ++ e) ++ encode_runes rs) (sym alone) ∙ append-encode_runes pre r rs)
                (omega (arith, length-forms-cons r rs, ap length one)))
    | inr (c, t, shape, special, open_) ↦
        let x = forms (r ∷ rs) ++ b'"' ∷ s in
        let e = forms-cons r rs (b'"' ∷ s) ∙ ap (λ o. o ++ (forms rs ++ b'"' ∷ s)) shape in
        body_special_at x c pre (t ++ (forms rs ++ b'"' ∷ s)) n p e special open_
        ∙ string_loop-forms lim (suc (length x)) n (r ∷ rs) pre s p
            (omega
              (arith, length-append (forms (r ∷ rs)) (b'"' ∷ s), length-le-forms (r ∷ rs) clean))
            clean room
  ]

  parse_string-forms :
      (rs : List ℕ) (rest : Bytes) (n : ℕ) (p : Parser)
      → All Clean rs
      → length (encode_runes rs) ≤ lim.max_string_bytes
      → parse_string lim (put p (b'"' ∷ (forms rs ++ b'"' ∷ rest)) n)
        ≡ ok (encode_runes rs, put p rest (n + 1 + length (forms rs) + 1))
  unfolding parse_string expect
  parse_string-forms rs rest n p clean fits =
      string_body-forms rs [] rest (n + 1) p clean (omega arith)

  -- `parseString` reads back every clean text that `serializeString` has written, whatever stands
  -- behind it, if the text is within the parser's limit; it stops behind the closing quote.
  pub parse_string-serialize_string :
      (t rest : Bytes) (p : Parser)
      → IsText t
      → length t ≤ lim.max_string_bytes
      → parse_string lim (record p { rest = serialize_string [] t ++ rest })
        ≡ ok (t, record p { rest = rest; at = p.at + length (serialize_string [] t) })
  parse_string-serialize_string t rest p (rs, clean, e) fits =
      let written : serialize_string [] t ≡ b'"' ∷ (forms rs ++ b'"' ∷ []) =
        ap (serialize_string []) e ∙ serialize_string-forms [] rs (All-Scalar rs clean) in
      let start : serialize_string [] t ++ rest ≡ b'"' ∷ (forms rs ++ b'"' ∷ rest) =
        ap (λ z. z ++ rest) written ∙ ap (◌∷◌ b'"') (append_assoc (forms rs) (b'"' ∷ []) rest) in
      ap (λ z. parse_string lim (put p z p.at)) start
      ∙ parse_string-forms rs rest p.at p clean (omega (arith, ap length e))
      ∙ placed p rest (sym e)
          (omega (arith, ap length written, length-append (forms rs) (b'"' ∷ [])))
