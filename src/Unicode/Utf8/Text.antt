-- ===== src/Unicode/Utf8/Text.antt =====
-- unicode/utf8: strings that are the encoding of a list of scalar values.
use jcs_schubfach.Prelude.{
  ℕ, suc, ◌-◌, ◌≤◌, ◌<◌, ◌≡◌, refl, ap, ◌∙◌, true, false, Bool-cases, inl, inr, sym, zero, ◌+◌,
  drop, length-append, List, [], ◌∷◌, ◌++◌, arith, append_assoc, Bytes, length, All,
}
use jcs_schubfach.Unicode.Utf8.{
  encode_rune, is_bad, valid_from, valid, runes_from, runes, decode_rune,
}
use jcs_schubfach.Unicode.Utf8.RoundTrip.{Scalar, decode_rune-encode_rune, decode_rune_sound}

-- `string(rs)`
unfoldable pub encode_runes : List ℕ → Bytes
encode_runes [] = []
encode_runes (r ∷ rs) = encode_rune r ++ encode_runes rs

pub encode_runes-append :
    (rs qs : List ℕ) → encode_runes (rs ++ qs) ≡ encode_runes rs ++ encode_runes qs
unfolding encode_runes
encode_runes-append [] qs = refl
encode_runes-append (r ∷ rs) qs = simp (encode_runes-append rs qs, append_assoc)

pub length-encode_rune : (r : ℕ) → (0 < length (encode_rune r)) × (length (encode_rune r) ≤ 4)
unfolding encode_rune
length-encode_rune r = ground arith

pub nonempty : (s : Bytes) → 0 < length s → (b : ℕ) × (t : Bytes) × (s ≡ b ∷ t)
nonempty [] h = elim h [ ]
nonempty (b ∷ t) h = (b, t, refl)

pub encode_rune-not_bad : (r : ℕ) → Scalar r → is_bad (r, length (encode_rune r)) ≡ false
unfolding encode_rune
encode_rune-not_bad r h = ground arith

valid_from-skip : (t s : Bytes) → valid_from (length t) (t ++ s) ≡ valid_from 0 s
unfolding valid_from
valid_from-skip [] s = refl
valid_from-skip (b ∷ t) s = valid_from-skip t s

runes_from-skip : (t s : Bytes) → runes_from (length t) (t ++ s) ≡ runes_from 0 s
unfolding runes_from
runes_from-skip [] s = refl
runes_from-skip (b ∷ t) s = runes_from-skip t s

suc_sub_one : (n : ℕ) → suc n - 1 ≡ n
suc_sub_one n = omega arith

module _ (r : ℕ) (s : Bytes) (scalar : Scalar r) where
  pub valid-encode_rune : valid (encode_rune r ++ s) ≡ valid s
  unfolding valid_from
  valid-encode_rune =
      let (b, t, e) = nonempty (encode_rune r) (length-encode_rune r).0 in
      let good = rw e at (encode_rune-not_bad r scalar) in
      let here = rw e at (decode_rune-encode_rune r s scalar) in
      rw (e, here, good, suc_sub_one) (valid_from-skip t s)

  pub runes-encode_rune : runes (encode_rune r ++ s) ≡ r ∷ runes s
  unfolding runes_from
  runes-encode_rune =
      let (b, t, e) = nonempty (encode_rune r) (length-encode_rune r).0 in
      let here = rw e at (decode_rune-encode_rune r s scalar) in
      rw (e, here, suc_sub_one) (ap (◌∷◌ r) (runes_from-skip t s))

pub valid-encode_runes : (rs : List ℕ) → All Scalar rs → valid (encode_runes rs) ≡ true
unfolding encode_runes
valid-encode_runes [] h = unfold valid_from in refl
valid-encode_runes (r ∷ rs) h =
    valid-encode_rune r (encode_runes rs) h.0 ∙ valid-encode_runes rs h.1

pub runes-encode_runes : (rs : List ℕ) → All Scalar rs → runes (encode_runes rs) ≡ rs
unfolding encode_runes
runes-encode_runes [] h = unfold runes_from in refl
runes-encode_runes (r ∷ rs) h =
    runes-encode_rune r (encode_runes rs) h.0 ∙ ap (◌∷◌ r) (runes-encode_runes rs h.1)

-- Valid bytes are the encoding of their runes.
pub valid_sound :
    (n : ℕ) (s : Bytes)
    → length s ≤ n
    → valid s ≡ true
    → (rs : List ℕ) × All Scalar rs × (s ≡ encode_runes rs)
unfolding encode_runes
valid_sound n [] h v = ([], tt, refl)
valid_sound zero (b ∷ s) h v = elim h [ ]
valid_sound (suc n) (b ∷ s) h v = elim (Bool-cases (is_bad (decode_rune (b ∷ s)))) [
  | inl bad ↦ absurd (bad_start bad)
  | inr good ↦
      let r = (decode_rune (b ∷ s)).0 in
      let rest = drop (decode_rune (b ∷ s)).1 (b ∷ s) in
      let (scalar, _, split) = decode_rune_sound (b ∷ s) refl good in
      let shorter : suc (length s) ≡ length (encode_rune r) + length rest =
        ap length split ∙ length-append (encode_rune r) rest in
      let (rs, scalars, same) =
        valid_sound n rest (omega (arith, h, shorter, (length-encode_rune r).0))
          (sym (valid-encode_rune r rest scalar) ∙ ap valid (sym split) ∙ v) in
      (r ∷ rs, (scalar, scalars), split ∙ ap (λ t. encode_rune r ++ t) same)
]
  where
    bad_start : is_bad (decode_rune (b ∷ s)) ≡ true → ⊥
    bad_start bad = unfold valid_from in cc (rw bad at v)
