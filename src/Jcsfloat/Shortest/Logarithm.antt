-- ===== src/Jcsfloat/Shortest/Logarithm.antt =====
-- jcsfloat/jcsfloat.go: `mulByLog2Log10` against the logarithm that it estimates.
use jcs_schubfach.Prelude.{
  ℕ, zero, suc, ◌*◌, ◌^◌, ◌≤◌, ◌<◌, ◌≡◌, refl, Bool, true, ◌&&◌, inl, inr, ◌⊎◌, arith, ltb, leb,
  and-true,
}
use mathlib.Core.Path.{subst}
use jcs_schubfach.Prelude.Int.{ℤ, pos_part, neg_part, sub_ℕ}
use jcs_schubfach.Jcsfloat.Shortest.{mul_by_log2_log10}

-- `10 ^ k` is the greatest power of ten that is at most `2 ^ x`.
abbrev pub IsLog10 : ℤ → ℤ → Type 0
IsLog10 x k =
    (10 ^ pos_part k * 2 ^ neg_part x ≤ 2 ^ pos_part x * 10 ^ neg_part k)
    × (2 ^ pos_part x * 10 ^ neg_part k < 10 * (10 ^ pos_part k * 2 ^ neg_part x))

is_log10 : ℤ → ℤ → Bool
is_log10 x k =
    leb (10 ^ pos_part k * 2 ^ neg_part x) (2 ^ pos_part x * 10 ^ neg_part k)
    && ltb (2 ^ pos_part x * 10 ^ neg_part k) (10 * (10 ^ pos_part k * 2 ^ neg_part x))

is_log10-IsLog10 : (x k : ℤ) → is_log10 x k ≡ true → IsLog10 x k
unfolding is_log10
is_log10-IsLog10 x k h = ground arith

-- The binary exponent with the index `i`: from -970 on.
abbrev pub binary_at : ℕ → ℤ
binary_at i = sub_ℕ i 970

all_logs : ℕ → Bool
unfolding is_log10 mul_by_log2_log10
all_logs zero = true
all_logs (suc n) = is_log10 (binary_at n) (mul_by_log2_log10 (binary_at n)) && all_logs n

last_or_before : (i n : ℕ) → i < suc n → (n ≡ i) ⊎ (i < n)
last_or_before i n h = ground arith

all_logs-IsLog10 :
    (n i : ℕ) → all_logs n ≡ true → i < n → IsLog10 (binary_at i) (mul_by_log2_log10 (binary_at i))
unfolding all_logs
all_logs-IsLog10 zero i h lt = elim lt [ ]
all_logs-IsLog10 (suc n) i h lt =
    let (here, before) =
      and-true (is_log10 (binary_at n) (mul_by_log2_log10 (binary_at n))) (all_logs n) h in
    elim (last_or_before i n lt) [
      | inl e ↦
          subst (λ j. IsLog10 (binary_at j) (mul_by_log2_log10 (binary_at j))) e
            (is_log10-IsLog10 (binary_at n) (mul_by_log2_log10 (binary_at n)) here)
      | inr below ↦ all_logs-IsLog10 n i before below
    ]

all_logs-true : all_logs 2047 ≡ true
unfolding all_logs
all_logs-true = refl

-- For the binary exponents from -970 to 1076, the index counting from the first, `mulByLog2Log10`
-- gives the exponent of the greatest power of ten that is at most that power of two.
pub mul_by_log2_log10_exact :
    (i : ℕ) → i < 2047 → IsLog10 (binary_at i) (mul_by_log2_log10 (binary_at i))
mul_by_log2_log10_exact i h = all_logs-IsLog10 2047 i all_logs-true h
