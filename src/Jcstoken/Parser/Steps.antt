-- ===== src/Jcstoken/Parser/Steps.antt =====
-- jcstoken/token.go: the parts of `parseValue`, `parseArray` and `parseObject` that do not recur.
use jcs_schubfach.Prelude.{
  ℕ, zero, suc, ◌+◌, ◌≤◌, ◌<◌, ◌≡◌, refl, ap, ◌⊎◌, inl, inr, Option-cases, true, false, [], ◌∷◌,
  arith, ltb, ◌==◌, codes, Bytes, length, take, drop, length-drop, equal, equal_iff,
}
use jcs_schubfach.Jcstoken.Options.{Limits}
use jcs_schubfach.Jcstoken.Parser.{
  parse_bool, parse_null, mem_key, count_value, separator, close_or_loop, open_container, parse_key,
}
use jcs_schubfach.Jcstoken.State.{Parser, advance, peek, push_depth, skip_whitespace}
use jcs_schubfach.Jcstoken.State.Moves.{
  Moves, Moves-trans, advance-Moves, peek-next, expect-Ensures, skip_whitespace-Moves,
}
use jcs_schubfach.Jcstoken.Strings.Clean.{IsText, parse_string-IsString}
use jcs_schubfach.Jcstoken.Value.{Members, Value, null, bool, keys}
use jcs_schubfach.Result.{
  Result, Ensures, holds, rejected, Ensures-bind, Ensures-if, Ensures-reject,
}

length-take : (n : ℕ) (s : Bytes) → length (take n s) ≤ length s
length-take zero s = omega arith
length-take (suc n) [] = omega arith
length-take (suc n) (b ∷ s) = omega (arith, length-take n s)

-- A literal at the position leaves room to step over it.
literal-Moves :
    (w : Bytes) (n : ℕ) (p : Parser)
    → n ≡ length w
    → 0 < n
    → equal (take n p.rest) w ≡ true
    → Moves p (advance n p) × (length (drop n p.rest) < length p.rest)
literal-Moves w n p e pos_n h =
    let same = ap length ((equal_iff (take n p.rest) w).0 h) in
    let room : n ≤ length p.rest = omega (arith, same, length-take n p.rest) in
    (advance-Moves n p room, omega (arith, length-drop n p.rest))

-- The values that the two literal parsers return, and where they leave the parser.
abbrev pub IsLiteral : Parser → Value × Parser → Type 0
IsLiteral p r =
    ((r.0 ≡ null) ⊎ ((r.0 ≡ bool (codes "true")) ⊎ (r.0 ≡ bool (codes "false"))))
    × Moves p r.1
    × (length r.1.rest < length p.rest)

pub parse_bool-IsLiteral : (p : Parser) → Ensures (IsLiteral p) (parse_bool p)
unfolding parse_bool
parse_bool-IsLiteral p =
    Ensures-if (equal (take 4 p.rest) (codes "true"))
      (λ e.
        let (m, s) = literal-Moves (codes "true") 4 p refl (omega arith) e in
        holds (inr (inl refl), m, s))
      λ _.
        Ensures-if (equal (take 5 p.rest) (codes "false"))
          (λ e.
            let (m, s) = literal-Moves (codes "false") 5 p refl (omega arith) e in
            holds (inr (inr refl), m, s))
          (λ _. rejected)

pub parse_null-IsLiteral : (p : Parser) → Ensures (IsLiteral p) (parse_null p)
unfolding parse_null
parse_null-IsLiteral p =
    Ensures-if (equal (take 4 p.rest) (codes "null"))
      (λ e.
        let (m, s) = literal-Moves (codes "null") 4 p refl (omega arith) e in
        holds (inl refl, m, s))
      (λ _. rejected)

-- Behind the comma or the closing byte.
pub separator-Ensures :
    (close : ℕ) (p : Parser)
    → Ensures (λ r. Moves p r.1 × (length r.1.rest < length p.rest)) (separator close p)
unfolding separator
separator-Ensures close p = elim (Option-cases (peek p)) [
  | inl e ↦ rw (e, separator) rejected
  | inr (c, e) ↦
      let behind = peek-next p e in
      rw (e, separator)
        (Ensures-if (c == close) (λ _. holds (behind.0, omega (arith, behind.1)))
          λ _.
            Ensures-if (c == b',') (λ _. holds (behind.0, omega (arith, behind.1))) (λ _. rejected))
]

-- An empty container is closed at once.
pub close_or_loop-Ensures {κ} :
    {P : Value × Parser → Type κ} (close : ℕ) (empty : Value)
    (loop : Parser → Result (Value × Parser)) (p : Parser)
    → (Moves p (advance 1 p) → length (drop 1 p.rest) < length p.rest → P (empty, advance 1 p))
    → Ensures P (loop p)
    → Ensures P (close_or_loop close empty loop p)
unfolding close_or_loop
close_or_loop-Ensures close empty loop p at_close at_loop = elim (Option-cases (peek p)) [
  | inl e ↦ rw (e, close_or_loop) rejected
  | inr (c, e) ↦
      let behind = peek-next p e in
      rw (e, close_or_loop)
        (Ensures-if (c == close) (λ _. holds (at_close behind.0 (omega (arith, behind.1))))
          (λ _. at_loop))
]

module _ (lim : Limits) where
  pub count_value-Ensures :
      (p : Parser)
      → Ensures
          (λ q.
            (q ≡ record p { value_count = p.value_count + 1 }) × (q.value_count ≤ lim.max_values))
          (count_value lim p)
  unfolding count_value
  count_value-Ensures p =
      Ensures-if (ltb lim.max_values (p.value_count + 1)) (λ _. rejected)
        (λ e. holds (refl, ground arith))

  -- Inside an array or an object.
  abbrev pub Opened : Parser → Parser → Type 0
  Opened p q =
      (q.depth ≡ p.depth + 1)
      × (q.depth ≤ lim.max_depth)
      × (q.value_count ≡ p.value_count)
      × (q.at + length q.rest ≡ p.at + length p.rest)
      × (length q.rest < length p.rest)

  pub open_container-Opened : (c : ℕ) (p : Parser) → Ensures (Opened p) (open_container lim c p)
  unfolding open_container push_depth
  open_container-Opened c p =
      let q = record p { depth = p.depth + 1 } in
      Ensures-bind {P = λ r. (r ≡ q) × (q.depth ≤ lim.max_depth)}
        (Ensures-if (ltb lim.max_depth q.depth) (λ _. rejected) (λ e. holds (refl, ground arith)))
        λ r h.
          Ensures-bind (expect-Ensures c r)
            λ s k. let skip = skip_whitespace-Moves s in holds (ground (arith, k, skip))

  -- A key of an object that has the members `ms`.
  abbrev pub IsKey : Members → Parser → Bytes × Parser → Type 0
  IsKey ms p r =
      IsText r.0
      × (length r.0 ≤ lim.max_string_bytes)
      × (mem_key r.0 (keys ms) ≡ false)
      × Moves p r.1
      × (length r.1.rest < length p.rest)

  pub parse_key-IsKey : (ms : Members) (p : Parser) → Ensures (IsKey ms p) (parse_key lim ms p)
  unfolding parse_key
  parse_key-IsKey ms p =
      let before = skip_whitespace-Moves p in
      Ensures-bind (parse_string-IsString lim (skip_whitespace p)) λ r h. Ensures-reject _ _ λ new.
        Ensures-bind (expect-Ensures b':' (skip_whitespace r.1)) λ q k.
          let behind = skip_whitespace-Moves r.1 in
          let after = skip_whitespace-Moves q in
          let moved =
            Moves-trans before (Moves-trans h.2 (Moves-trans behind (Moves-trans k.0 after))) in
          holds (
            h.0,
            h.1,
            new,
            moved,
            omega (arith, h.3, k.1, before.no_back, behind.no_back, after.no_back),
          )
