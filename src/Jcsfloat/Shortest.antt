-- ===== src/Jcsfloat/Shortest.antt =====
-- jcsfloat/jcsfloat.go: `shortestDecimal` and its helpers. Machine words are numbers below 2 ^ 64.
pub mod Divisible
pub mod Logarithm
use jcs_schubfach.Prelude.{
  ℕ, zero, suc, ◌+◌, ◌-◌, ◌*◌, ◌/◌, ◌%◌, ◌^◌, Bool, true, false, not, ◌&&◌, ◌||◌, none, some, [],
  ◌∷◌, ltb, leb, ◌==◌, if◌then◌else◌, Bytes, get_elem?,
}
use jcs_schubfach.Float64.{Float64, raw_mantissa, raw_exponent}
use jcs_schubfach.Jcsfloat.Decimal.{format_uint, count_decimal_digits}
use jcs_schubfach.Jcsfloat.Pow10.{pow10_min_exp, pow10_max_exp, pow10_table}
use jcs_schubfach.Jcsfloat.Ryu.{ryu_shortest}
use jcs_schubfach.Prelude.Int.{
  ℤ, pos, negsuc, pos_part, neg_part, sub_ℕ, ◌+ℤ◌, ◌-ℤ◌, neg_ℤ, scale_ℤ, floor_div, ltb_ℤ, leb_ℤ,
  eq_ℤ,
}

abbrev pub word : ℕ
word = 2 ^ 64

-- `bits.TrailingZeros64` of a number that is not zero, within the fuel.
unfoldable pub zeros_below : ℕ → ℕ → ℕ
zeros_below zero m = 0
zeros_below (suc f) m = let more = suc (zeros_below f (m / 2)) in if m % 2 == 1 then 0 else more

-- `bits.TrailingZeros64`, which is 64 for zero.
unfoldable pub trailing_zeros : ℕ → ℕ
trailing_zeros m = zeros_below 64 m

-- The mantissa of `shortestDecimal`, with its hidden bit, and the exponent.
unfoldable pub mantissa : Float64 → ℕ
mantissa f = if raw_exponent f == 0 then raw_mantissa f else 2 ^ 52 + raw_mantissa f

unfoldable pub exponent : Float64 → ℤ
exponent f = if raw_exponent f == 0 then negsuc 1073 else sub_ℕ (raw_exponent f) 1075

-- The rounding interval of `computeBounds`: lower, central and upper value over 2 ^ e2.
pub record Bounds : Type 0 where
  pub lower : ℕ
  pub central : ℕ
  pub upper : ℕ
  pub e2 : ℤ

-- `computeBounds`
unfoldable pub compute_bounds : ℕ → ℤ → Bounds
unfolding ◌-ℤ◌
compute_bounds mant exp =
    if not (mant == 2 ^ 52) || eq_ℤ exp (negsuc 1073)
    then record {
      lower = 2 * mant - 1;
      central = 2 * mant;
      upper = 2 * mant + 1;
      e2 = exp -ℤ pos 1;
    }
    else record {
      lower = 4 * mant - 1;
      central = 4 * mant;
      upper = 4 * mant + 2;
      e2 = exp -ℤ pos 2;
    }

-- `mulByLog2Log10`
unfoldable pub mul_by_log2_log10 : ℤ → ℤ
unfolding scale_ℤ floor_div
mul_by_log2_log10 x = floor_div (scale_ℤ 78913 x) (2 ^ 18)

-- `mulByLog10Log2`
unfoldable pub mul_by_log10_log2 : ℤ → ℤ
unfolding scale_ℤ floor_div
mul_by_log10_log2 x = floor_div (scale_ℤ 108853 x) (2 ^ 15)

-- A result of `mult128bitPow10`: mantissa, binary exponent, exactness.
pub record Scaled : Type 0 where
  pub mant : ℕ
  pub exp : ℤ
  pub exact : Bool

-- The 64 by 128 bit product: `h1<<9 | mid>>55`, and whether the bits cut off are all zero.
unfoldable pub mult_128 : ℕ → ℕ → ℕ → ℕ × Bool
mult_128 m lo hi =
    let l0 = m * lo % word in
    let l1 = m * lo / word in
    let h0 = m * hi % word in
    let mid = (l1 + h0) % word in
    let h1 = (m * hi / word + (l1 + h0) / word) % word in
    (h1 * 2 ^ 9 % word + mid / 2 ^ 55, mid * 2 ^ 9 % word == 0 && l0 == 0)

-- The table's entry for 10 ^ q; the low word of a negative power is rounded up.
unfoldable pub pow10_entry : ℤ → ℕ × ℕ
unfolding ◌+ℤ◌
pow10_entry q = elim (get_elem? pow10_table (pos_part (q +ℤ pos pow10_min_exp))) [
  | none ↦ (0, 0)
  | some (lo, hi) ↦ (if ltb_ℤ q (pos 0) then ((lo + 1) % word, hi) else (lo, hi))
]

-- `mult128bitPow10`
unfoldable pub mult_128bit_pow10 : ℕ → ℤ → ℤ → Scaled
unfolding ◌+ℤ◌ ◌-ℤ◌ neg_ℤ
mult_128bit_pow10 m e2 q =
    let pow = pow10_entry q in
    let r = mult_128 m pow.0 pow.1 in
    if eq_ℤ q (pos 0)
    then record { mant = m * 2 ^ 8 % word; exp = e2 -ℤ pos 8; exact = true }
    else if ltb_ℤ q (neg_ℤ (pos pow10_min_exp)) || ltb_ℤ (pos pow10_max_exp) q
    then record { mant = 0; exp = pos 0; exact = false }
    else record { mant = r.0; exp = e2 +ℤ mul_by_log10_log2 q -ℤ pos 8; exact = r.1 }

-- The loop of `divisibleByPower5`
unfoldable pub power5_loop : ℕ → ℕ → Bool
power5_loop zero m = true
power5_loop (suc k) m = m % 5 == 0 && power5_loop k (m / 5)

-- `divisibleByPower5`
unfoldable pub divisible_by_power5 : ℕ → ℕ → Bool
divisible_by_power5 m k = if m == 0 then true else power5_loop k m

-- The exactness of one product, after the checks on `q`.
abbrev pub exactness : ℕ → ℤ → Bool → Bool
exactness m q exact =
    let e = if ltb_ℤ (pos 55) q then false else exact in
    if ltb_ℤ q (pos 0) && leb_ℤ (negsuc 23) q then e || divisible_by_power5 m (neg_part q) else e

-- From the three products on: removal of `extra` binary digits, the ends of the interval, and the
-- rounding of the centre. `even` is `mant&1 == 0`.
unfoldable pub shortest_scaled : Bool → ℕ → ℕ → ℕ → Bool → Bool → Bool → ℕ → ℤ → Bytes × ℤ
shortest_scaled even l c u l0 c0 u0 extra q =
    let fracl = l % 2 ^ extra in
    let fracc = c % 2 ^ extra in
    let fracu = u % 2 ^ extra in
    let dl = l / 2 ^ extra in
    let dc = c / 2 ^ extra in
    let du = u / 2 ^ extra in
    let uok = if u0 && fracu == 0 then even else not u0 || ltb 0 fracu in
    let cup =
      if c0
      then ltb (2 ^ (extra - 1)) fracc || (fracc == 2 ^ (extra - 1) && dc % 2 == 1)
      else fracc / 2 ^ (extra - 1) == 1 in
    let lok = l0 && (fracl == 0 && even) in
    ryu_shortest (if lok then dl else (dl + 1) % word) dc
      (if uok then du else (du + word - 1) % word) (c0 && fracc == 0) cup q

-- `shortestDecimal` behind the exact integers.
unfoldable pub shortest_inexact : ℕ → ℤ → Bytes × ℤ
unfolding neg_ℤ ◌+ℤ◌
shortest_inexact mant exp =
    let b = compute_bounds mant exp in
    let q = mul_by_log2_log10 (neg_ℤ b.e2) +ℤ pos 1 in
    let l = mult_128bit_pow10 b.lower b.e2 q in
    let c = mult_128bit_pow10 b.central b.e2 q in
    let u = mult_128bit_pow10 b.upper b.e2 q in
    if eq_ℤ b.e2 (pos 0)
    then ryu_shortest b.lower b.central b.upper true false (pos 0)
    else if leb_ℤ (pos 0) u.exp
    then (b'0' ∷ [], pos 0)
    else shortest_scaled (mant % 2 == 0) l.mant c.mant u.mant (exactness b.lower q l.exact)
        (exactness b.central q c.exact) (exactness b.upper q u.exact) (neg_part u.exp) q

-- The input is an integer with fewer bits than the mantissa.
abbrev pub is_exact_integer : Float64 → Bool
is_exact_integer f =
    leb_ℤ (exponent f) (pos 0) && leb (neg_part (exponent f)) (trailing_zeros (mantissa f))

-- `shortestDecimal`, on a positive finite double.
unfoldable pub shortest_decimal : Float64 → Bytes × ℤ
shortest_decimal f =
    let m = mantissa f / 2 ^ neg_part (exponent f) in
    if is_exact_integer f
    then (format_uint m, pos (count_decimal_digits m))
    else shortest_inexact (mantissa f) (exponent f)
