-- ===== src/Jcsfloat/Pow10/Exact.antt =====
-- Every entry of pow10_table.go against the power of ten that it stands for.
use jcs_schubfach.Prelude.{
  ℕ, zero, suc, ◌+◌, ◌*◌, ◌^◌, ◌≤◌, ◌<◌, ◌≡◌, refl, Bool, true, ◌&&◌, some, List, [], ◌∷◌, arith,
  ltb, leb, length, and-true, get_elem?,
}
use mathlib.Core.Path.{subst}
use jcs_schubfach.Prelude.Int.{ℤ, pos_part, neg_part, sub_ℕ}
use jcs_schubfach.Jcsfloat.Shortest.{word, mul_by_log10_log2}
use jcs_schubfach.Jcsfloat.Pow10.{pow10_table, pow10_min_exp}

-- `v` is 10 ^ q over 2 ^ (s - 127), rounded down, and has 128 bits.
abbrev pub Significand : ℤ → ℤ → ℕ → Type 0
Significand q s v =
    (2 ^ 127 ≤ v)
    × (v < 2 ^ 128)
    × (v * (2 ^ pos_part s * 10 ^ neg_part q) ≤ 10 ^ pos_part q * (2 ^ neg_part s * 2 ^ 127))
    × (10 ^ pos_part q * (2 ^ neg_part s * 2 ^ 127) < (v + 1) * (2 ^ pos_part s * 10 ^ neg_part q))

is_significand : ℤ → ℤ → ℕ → Bool
is_significand q s v =
    leb (2 ^ 127) v
    && (ltb v (2 ^ 128)
        && (leb (v * (2 ^ pos_part s * 10 ^ neg_part q))
              (10 ^ pos_part q * (2 ^ neg_part s * 2 ^ 127))
            && ltb (10 ^ pos_part q * (2 ^ neg_part s * 2 ^ 127))
                ((v + 1) * (2 ^ pos_part s * 10 ^ neg_part q))))

is_significand-Significand : (q s : ℤ) (v : ℕ) → is_significand q s v ≡ true → Significand q s v
unfolding is_significand
is_significand-Significand q s v h = ground arith

-- The decimal exponent of the table's index `i`.
abbrev pub exponent_at : ℕ → ℤ
exponent_at i = sub_ℕ i pow10_min_exp

-- The 128 bits of an entry
abbrev pub significand_of : ℕ × ℕ → ℕ
significand_of e = e.1 * word + e.0

abbrev ExactAt : ℕ → ℕ × ℕ → Type 0
ExactAt i e = Significand (exponent_at i) (mul_by_log10_log2 (exponent_at i)) (significand_of e)

is_exact_at : ℕ → ℕ × ℕ → Bool
unfolding is_significand mul_by_log10_log2
is_exact_at i e =
    is_significand (exponent_at i) (mul_by_log10_log2 (exponent_at i)) (significand_of e)

is_exact_at-ExactAt : (i : ℕ) (e : ℕ × ℕ) → is_exact_at i e ≡ true → ExactAt i e
unfolding is_exact_at
is_exact_at-ExactAt i e h =
    is_significand-Significand (exponent_at i) (mul_by_log10_log2 (exponent_at i))
      (significand_of e) h

all_exact : ℕ → List (ℕ × ℕ) → Bool
unfolding is_exact_at
all_exact i [] = true
all_exact i (e ∷ es) = is_exact_at i e && all_exact (i + 1) es

all_exact-ExactAt :
    (es : List (ℕ × ℕ)) (i j k : ℕ)
    → i + j ≡ k
    → all_exact i es ≡ true
    → j < length es
    → (e : ℕ × ℕ) × (get_elem? es j ≡ some e) × ExactAt k e
unfolding all_exact
all_exact-ExactAt [] i j k s h lt = elim lt [ ]
all_exact-ExactAt (e ∷ es) i zero k s h lt =
    let at_k : i ≡ k = omega arith in
    (
      e,
      refl,
      subst (λ n. ExactAt n e) at_k
          (is_exact_at-ExactAt i e (and-true (is_exact_at i e) (all_exact (i + 1) es) h).0),
    )
all_exact-ExactAt (e ∷ es) i (suc j) k s h lt =
    all_exact-ExactAt es (i + 1) j k (omega arith)
      (and-true (is_exact_at i e) (all_exact (i + 1) es) h).1 (omega arith)

length-pow10_table : length pow10_table ≡ 696
unfolding pow10_table
length-pow10_table = refl

all_exact-pow10_table : all_exact 0 pow10_table ≡ true
unfolding all_exact pow10_table
all_exact-pow10_table = refl

-- The table has an entry for each power of ten from 10 ^ -348 to 10 ^ 347, at the index that
-- `mult128bitPow10` computes. Its two words make a 128-bit number with the top bit set, which is the
-- power over 2 ^ (mulByLog10Log2(q) - 127), rounded down.
pub pow10_table_exact :
    (i : ℕ)
    → i < 696
    → (e : ℕ × ℕ) × (get_elem? pow10_table i ≡ some e)
      × Significand (exponent_at i) (mul_by_log10_log2 (exponent_at i)) (significand_of e)
pow10_table_exact i h =
    all_exact-ExactAt pow10_table 0 i i (omega arith) all_exact-pow10_table
      (rw length-pow10_table h)
