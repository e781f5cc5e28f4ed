-- ===== src/Jcstoken/State/Moves.antt =====
-- jcstoken/token.go: what the primitives do to the parser's position.
use jcs_schubfach.Prelude.{
  ℕ, ◌+◌, ◌≤◌, ◌<◌, ◌≡◌, ◌≢◌, some, [], ◌∷◌, arith, Option-cases, inl, inr, get_elem?, Bytes,
  length, drop, length-drop,
}
use jcs_schubfach.Jcstoken.State.{Parser, advance, peek, expect, skip_from, skip_whitespace}
use jcs_schubfach.Result.{ok, out_of_fuel, Ensures, Ensures-of}

-- `q` stands at or behind the position of `p` in the same input; nothing is counted in between.
pub record Moves (p q : Parser) : Type 0 where
  pub same_depth : q.depth ≡ p.depth
  pub same_count : q.value_count ≡ p.value_count
  pub same_end : q.at + length q.rest ≡ p.at + length p.rest
  pub no_back : length q.rest ≤ length p.rest

pub Moves-refl : (p : Parser) → Moves p p
Moves-refl p = omega arith

pub Moves-trans : {p q r : Parser} → Moves p q → Moves q r → Moves p r
Moves-trans h k = omega arith

pub advance-Moves : (n : ℕ) (p : Parser) → n ≤ length p.rest → Moves p (advance n p)
advance-Moves n p h = omega (arith, length-drop n p.rest)

-- What `peek` finds is the first byte of the rest.
pub peek-some : (p : Parser) {b : ℕ} → peek p ≡ some b → 0 < length p.rest
peek-some p h = first p.rest h
  where
    first : {b : ℕ} (s : Bytes) → get_elem? s 0 ≡ some b → 0 < length s
    first [] e = cc
    first (c ∷ s) e = omega arith

pub peek-next :
    (p : Parser) {b : ℕ}
    → peek p ≡ some b
    → Moves p (advance 1 p) × (length (drop 1 p.rest) + 1 ≡ length p.rest)
peek-next p h =
    (advance-Moves 1 p (peek-some p h), omega (arith, peek-some p h, length-drop 1 p.rest))

-- Behind `expect b` one byte is consumed.
pub expect-Moves :
    (b : ℕ) (p : Parser) {q : Parser}
    → expect b p ≡ ok q
    → Moves p q × (length q.rest + 1 ≡ length p.rest)
unfolding expect
expect-Moves b p h = elim (Option-cases (peek p)) [
  | inl e ↦ ground arith
  | inr (c, e) ↦ ground (arith, peek-next p e)
]

skip_from-end :
    (s : Bytes) (n : ℕ)
    → ((skip_from s n).1 + length (skip_from s n).0 ≡ n + length s)
      × (length (skip_from s n).0 ≤ length s)
unfolding skip_from
skip_from-end [] n = omega arith
skip_from-end (b ∷ r) n = ground (arith, skip_from-end r (n + 1))

pub skip_whitespace-Moves : (p : Parser) → Moves p (skip_whitespace p)
unfolding skip_whitespace
skip_whitespace-Moves p = omega (arith, skip_from-end p.rest p.at)

pub expect-total : (b : ℕ) (p : Parser) → expect b p ≢ out_of_fuel
unfolding expect
expect-total b p = ground arith

pub expect-Ensures :
    (b : ℕ) (p : Parser)
    → Ensures (λ q. Moves p q × (length q.rest + 1 ≡ length p.rest)) (expect b p)
expect-Ensures b p = Ensures-of (expect b p) (expect-total b p) (λ q e. expect-Moves b p e)
