-- ===== src/Jcsfloat/Shortest/Divisible.antt =====
-- jcsfloat/jcsfloat.go: `divisibleByPower5` against divisibility.
use jcs_schubfach.Prelude.{
  ℕ, zero, suc, ◌*◌, ◌/◌, ◌%◌, ◌^◌, ◌==◌, ◌≡◌, refl, ap, sym, ◌∙◌, ◌↔◌, true, Bool-cases, inl, inr,
  arith, and-true,
}
use native.Mathlib.Nat.{pow-suc, mul_assoc, mul_comm}
use jcs_schubfach.Jcsfloat.Shortest.{power5_loop, divisible_by_power5}

abbrev pub IsMultiple : ℕ → ℕ → Type 0
IsMultiple m n = (t : ℕ) × (m ≡ t * n)

times_power5 : (t k : ℕ) → t * 5 ^ suc k ≡ 5 * (t * 5 ^ k)
times_power5 t k =
    ap (λ n. t * n) (pow-suc 5 k) ∙ sym (mul_assoc t (5 ^ k) 5) ∙ mul_comm (t * 5 ^ k) 5

power5_loop_sound : (k m : ℕ) → power5_loop k m ≡ true → IsMultiple m (5 ^ k)
unfolding power5_loop
power5_loop_sound zero m h = (m, omega arith)
power5_loop_sound (suc k) m h =
    let (here, more) = and-true (m % 5 == 0) (power5_loop k (m / 5)) h in
    let (t, e) = power5_loop_sound k (m / 5) more in
    let whole : m ≡ 5 * (m / 5) = ground arith in (t, omega (arith, times_power5 t k))

power5_loop_complete : (k m t : ℕ) → m ≡ t * 5 ^ k → power5_loop k m ≡ true
unfolding power5_loop
power5_loop_complete zero m t h = refl
power5_loop_complete (suc k) m t h =
    let five : m ≡ 5 * (t * 5 ^ k) = h ∙ times_power5 t k in
    let rest = power5_loop_complete k (m / 5) t (omega arith) in rw rest (ground arith)

-- `divisibleByPower5` answers true for the multiples of 5 ^ k, and for no other number.
pub divisible_by_power5_iff : (m k : ℕ) → (divisible_by_power5 m k ≡ true) ↔ IsMultiple m (5 ^ k)
unfolding divisible_by_power5
divisible_by_power5_iff m k = elim (Bool-cases (m == 0)) [
  | inl e ↦ rw e ((λ h. (0, ground arith)), (λ h. refl))
  | inr e ↦ rw e ((λ h. power5_loop_sound k m h), (λ (t, h). power5_loop_complete k m t h))
]
