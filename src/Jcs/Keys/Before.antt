-- ===== src/Jcs/Keys/Before.antt =====
-- jcs/serialize.go: what `compareUTF16Units` decides, described without it.
use jcs_schubfach.Prelude.{
  ℕ, ◌<◌, ◌≡◌, ◌≢◌, true, false, inl, inr, Bool-cases, List, [], ◌∷◌, arith, ltb,
}
use jcs_schubfach.Jcs.Keys.{compare_units, is_less}
use jcs_schubfach.Jcs.Keys.Unique.{below_total}

-- Of two lists of code units the one comes first that ends first, or has the lesser unit where they
-- first differ.
pub data Before : List ℕ → List ℕ → Type 0 where
  ends : {v : ℕ} {vs : List ℕ} → Before [] (v ∷ vs)
  lesser : {u v : ℕ} {us vs : List ℕ} → u < v → Before (u ∷ us) (v ∷ vs)
  later : {u v : ℕ} {us vs : List ℕ} → u ≡ v → Before us vs → Before (u ∷ us) (v ∷ vs)

pub less-Before : (us vs : List ℕ) → is_less (compare_units us vs) ≡ true → Before us vs
unfolding compare_units
less-Before [] [] h = cc
less-Before [] (v ∷ vs) h = ends
less-Before (u ∷ us) [] h = cc
less-Before (u ∷ us) (v ∷ vs) h = elim (Bool-cases (ltb u v)) [
  | inl e ↦ lesser (ground arith)
  | inr e ↦ elim (Bool-cases (ltb v u)) [
    | inl f ↦ cc (rw (compare_units, e, f) at h)
    | inr f ↦ later (ground arith) (less-Before us vs (rw (compare_units, e, f) at h))
  ]
]

-- Of two different lists, if one is not below the other, it comes behind it.
pub not_less-Before :
    (us vs : List ℕ) → us ≢ vs → is_less (compare_units us vs) ≡ false → Before vs us
not_less-Before us vs ne h = less-Before vs us (below_total us vs ne h)
