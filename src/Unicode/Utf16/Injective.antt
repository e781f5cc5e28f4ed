-- ===== src/Unicode/Utf16/Injective.antt =====
-- unicode/utf16: different lists of scalar values have different code units.
use jcs_schubfach.Prelude.{
  ℕ, ◌+◌, ◌-◌, ◌/◌, ◌%◌, ◌<◌, ◌≡◌, ◌≢◌, ◌⊎◌, sym, inl, inr, refl, List, [], ◌∷◌, ◌++◌, arith, All,
}
use mathlib.Core.Path.{ap₂}
use jcs_schubfach.Unicode.Utf16.{units, encode}
use jcs_schubfach.Unicode.Utf8.RoundTrip.{Scalar}

abbrev high : ℕ → ℕ
high r = 0xD800 + (r - 0x10000) / 1024

abbrev low : ℕ → ℕ
low r = 0xDC00 + (r - 0x10000) % 1024

units-Scalar :
    (r : ℕ)
    → Scalar r
    → ((units r ≡ r ∷ []) × (r < 0x10000)) ⊎ ((units r ≡ high r ∷ low r ∷ []) × (0xFFFF < r))
unfolding units
units-Scalar r h = ground arith

cons_inj : {a b : ℕ} {xs ys : List ℕ} → a ∷ xs ≡ b ∷ ys → (a ≡ b) × (xs ≡ ys)
cons_inj h = (cc, cc)

-- A high unit is no scalar value, and the two units of a pair give it back.
high-Scalar : (r q : ℕ) → Scalar r → Scalar q → 0xFFFF < q → r ≡ high q → ⊥
high-Scalar r q h k big e = omega arith

pair_inj : (r q : ℕ) → 0xFFFF < r → 0xFFFF < q → high r ≡ high q → low r ≡ low q → r ≡ q
pair_inj r q h k e f = omega arith

units-inj :
    (r q : ℕ) (xs ys : List ℕ)
    → Scalar r
    → Scalar q
    → units r ++ xs ≡ units q ++ ys
    → (r ≡ q) × (xs ≡ ys)
units-inj r q xs ys h k e = elim (units-Scalar r h) [
  | inl (f, _) ↦ elim (units-Scalar q k) [
    | inl (g, _) ↦ cons_inj (rw (f, g) at e)
    | inr (g, big) ↦ absurd (high-Scalar r q h k big (cons_inj (rw (f, g) at e)).0)
  ]
  | inr (f, big) ↦ elim (units-Scalar q k) [
    | inl (g, _) ↦ absurd (high-Scalar q r k h big (sym (cons_inj (rw (f, g) at e)).0))
    | inr (g, large) ↦
        let (high_same, rest) = cons_inj (rw (f, g) at e) in
        let (low_same, tail) = cons_inj rest in (pair_inj r q big large high_same low_same, tail)
  ]
]

units-nonempty : (r : ℕ) (xs : List ℕ) → Scalar r → [] ≢ units r ++ xs
unfolding units
units-nonempty r xs h e = elim (units-Scalar r h) [
  | inl (f, _) ↦ cc (rw f at e)
  | inr (f, _) ↦ cc (rw f at e)
]

pub encode-inj : (rs qs : List ℕ) → All Scalar rs → All Scalar qs → encode rs ≡ encode qs → rs ≡ qs
unfolding encode
encode-inj [] [] h k e = refl
encode-inj [] (q ∷ qs) h k e = absurd (units-nonempty q (encode qs) k.0 e)
encode-inj (r ∷ rs) [] h k e = absurd (units-nonempty r (encode rs) h.0 (sym e))
encode-inj (r ∷ rs) (q ∷ qs) h k e =
    let (same, rest) = units-inj r q (encode rs) (encode qs) h.0 k.0 e in
    ap₂ ◌∷◌ same (encode-inj rs qs h.1 k.1 rest)
