-- ===== src/Jcs/Validate/Parsed.antt =====
-- jcstoken/token.go against jcs/serialize.go: every value that the parser returns passes the checks
-- that the serializer makes under the same limits, and the parser ends.
use mathlib.Core.Path.{subst}
use jcs_schubfach.Prelude.{
  ℕ, zero, suc, ◌+◌, ◌*◌, ◌≤◌, ◌≡◌, refl, sym, ap, ◌∙◌, inl, inr, Option-cases, ◌||◌, none, some,
  [], arith, ◌==◌, length,
}
use jcs_schubfach.Jcstoken.Options.{Limits}
use jcs_schubfach.Jcstoken.Parser.{
  mem_key, closes, continues, parse_array, parse_object, dispatch, parse_value, array_loop,
  object_loop, Separator,
}
use jcs_schubfach.Jcstoken.Parser.Steps.{
  IsLiteral, parse_bool-IsLiteral, parse_null-IsLiteral, separator-Ensures, count_value-Ensures,
  open_container-Opened, close_or_loop-Ensures, parse_key-IsKey,
}
use jcs_schubfach.Jcserr.{invalid_grammar}
use jcs_schubfach.Jcstoken.State.{new_error, Parser, peek, skip_whitespace}
use jcs_schubfach.Jcstoken.State.Moves.{Moves, skip_whitespace-Moves}
use jcs_schubfach.Jcstoken.Value.{
  Value, Elems, Members, array, object, no_elems, no_members, snoc_elem, snoc_member, count_elems,
  count_members,
}
use jcs_schubfach.Jcs.Validate.{validate_value_tree, validate_elems, validate_members}
use jcs_schubfach.Jcs.Validate.Append.{
  count_elems-snoc, count_members-snoc, validate_elems-snoc, validate_members-snoc,
}
use jcs_schubfach.Result.{
  Result, ok, Ensures, holds, rejected, Ensures-bind, Ensures-if, Ensures-map, Ensures-reject,
}
use jcs_schubfach.Jcs.Validate.Counted.{
  Read, IsParsed, IsCounted, HasRoom, literal-IsCounted, parse_string-IsCounted,
  parse_number-IsCounted, IsElems, IsMembers, ValueGoal, ArrayGoal, ObjectGoal, array-IsCounted,
  object-IsCounted, Read-of,
}

module _ (lim : Limits) where
  -- The array at `p`, whose loop meets its claim.
  parse_array-IsCounted :
      (f : ℕ) (p : Parser)
      → HasRoom lim p
      → ArrayGoal lim f
      → 2 * length p.rest ≤ f
      → Ensures (IsCounted lim p) (parse_array lim (array_loop lim f) p)
  unfolding parse_array validate_elems
  parse_array-IsCounted f p room goal fuel = Ensures-bind (open_container-Opened lim b'[' p) λ q o.
      Ensures-bind {P = IsElems lim q q.value_count}
        (close_or_loop-Ensures b']' (array no_elems) (array_loop lim f no_elems) q
          (λ m s. (no_elems, refl, omega arith, ap ok (sym m.same_count), Read-of lim m s))
          (goal no_elems q q.value_count o.1 (omega (arith, o.4)) refl))
        λ r h. holds (array-IsCounted lim p q r.0 r.1 room o h)

  parse_object-IsCounted :
      (f : ℕ) (p : Parser)
      → HasRoom lim p
      → ObjectGoal lim f
      → 2 * length p.rest ≤ f
      → Ensures (IsCounted lim p) (parse_object lim (object_loop lim f) p)
  unfolding parse_object validate_members
  parse_object-IsCounted f p room goal fuel = Ensures-bind (open_container-Opened lim b'{' p) λ q o.
      Ensures-bind {P = IsMembers lim q q.value_count}
        (close_or_loop-Ensures b'}' (object no_members) (object_loop lim f no_members) q
          (λ m s. (no_members, refl, omega arith, ap ok (sym m.same_count), Read-of lim m s))
          (goal no_members q q.value_count o.1 (omega (arith, o.4)) refl))
        λ r h. holds (object-IsCounted lim p q r.0 r.1 room o h)

  dispatch-IsCounted :
      (f c : ℕ) (p : Parser)
      → HasRoom lim p
      → ArrayGoal lim f
      → ObjectGoal lim f
      → 2 * length p.rest ≤ f
      → Ensures (IsCounted lim p) (
          dispatch lim
            (parse_array lim (array_loop lim f))
            (parse_object lim (object_loop lim f))
            c
            p)
  unfolding dispatch
  dispatch-IsCounted f c p room arr obj fuel =
      Ensures-if (c == b'{') (λ _. parse_object-IsCounted f p room obj fuel)
        λ _.
          Ensures-if (c == b'[') (λ _. parse_array-IsCounted f p room arr fuel)
            λ _.
              Ensures-if (c == b'"') (λ _. parse_string-IsCounted lim p room)
                λ _.
                  Ensures-if (c == b't' || c == b'f') (λ _. literal (parse_bool-IsLiteral p))
                    λ _.
                      Ensures-if (c == b'n') (λ _. literal (parse_null-IsLiteral p))
                        λ _. parse_number-IsCounted lim p room
    where
      literal :
          {m : Result (Value × Parser)} → Ensures (IsLiteral p) m → Ensures (IsCounted lim p) m
      literal e = Ensures-map e λ r h. literal-IsCounted lim p r.0 r.1 room h

  IsCounted-step :
      (f : ℕ) (p : Parser)
      → HasRoom lim p
      → ArrayGoal lim f
      → ObjectGoal lim f
      → 2 * length p.rest ≤ f
      → Ensures (IsCounted lim p) (elim (peek p) [
        | none ↦ new_error invalid_grammar p
        | some c ↦
            dispatch lim
              (parse_array lim (array_loop lim f))
              (parse_object lim (object_loop lim f))
              c
              p
      ])
  IsCounted-step f p room arr obj fuel = elim (Option-cases (peek p)) [
    | inl e ↦ rw e rejected
    | inr (c, e) ↦ rw e (dispatch-IsCounted f c p room arr obj fuel)
  ]

  value_step : (f : ℕ) → ArrayGoal lim f → ObjectGoal lim f → ValueGoal lim (suc f)
  unfolding parse_value
  value_step f arr obj p deep fuel = Ensures-bind (count_value-Ensures lim p) λ q (same, fits).
      let depth = ap (λ (s : Parser). s.depth) same in
      let count = ap (λ (s : Parser). s.value_count) same in
      let rest = ap (λ (s : Parser). length s.rest) same in
      let end = ap (λ (s : Parser). s.at + length s.rest) same in
      let room : HasRoom lim q = omega arith in
      Ensures-map (IsCounted-step f q room arr obj (omega arith)) λ r k. (
        subst (λ d. validate_value_tree lim r.0 d p.value_count ≡ ok r.1.value_count) depth
            (k.0 p.value_count (omega arith)),
        omega (arith, k.1),
      )

  -- A shorter rest behind an element, and the count and the depth there.
  Read-next :
      {p r q : Parser} → Read lim (skip_whitespace p) r → Moves (skip_whitespace r) q → Read lim p q
  Read-next {p} {r} h k =
      let before = skip_whitespace-Moves p in
      let behind = skip_whitespace-Moves r in omega (arith, before, behind, h, k)

  Read-more : {p q s : Parser} → Read lim p q → Read lim q s → Read lim p s
  Read-more h k = omega arith

  -- Behind an element: the end of the array, or the loop again.
  array_next :
      (f : ℕ) (es : Elems) (p q : Parser) (c : ℕ) (s : Separator)
      → ArrayGoal lim f
      → p.depth ≤ lim.max_depth
      → 2 * length p.rest + 1 ≤ f
      → count_elems es ≤ lim.max_array_elements
      → validate_elems lim es p.depth c ≡ ok q.value_count
      → Read lim p q
      → Ensures
          (IsElems lim p c)
          (elim s [ closes ↦ ok (array es, q) | continues ↦ array_loop lim f es q ])
  array_next f es p q c closes goal deep fuel fits checks read =
      holds (es, refl, fits, checks, read)
  array_next f es p q c continues goal deep fuel fits checks read =
      let here =
        subst (λ d. validate_elems lim es d c ≡ ok q.value_count) (sym read.same_depth) checks in
      Ensures-map (goal es q c (omega (arith, read)) (omega (arith, read)) here) λ r h. (
        h.0,
        h.1,
        h.2,
        subst (λ d. validate_elems lim h.0 d c ≡ ok r.1.value_count) read.same_depth h.3,
        Read-more read h.4,
      )

  array_step : (f : ℕ) → ValueGoal lim f → ArrayGoal lim f → ArrayGoal lim (suc f)
  unfolding array_loop skip_whitespace
  array_step f val arr es p c deep fuel checks =
      let skip = skip_whitespace-Moves p in
      Ensures-bind (val (skip_whitespace p) deep (omega (arith, skip.no_back))) λ r parsed.
        Ensures-reject _ _ λ fits.
          Ensures-bind (separator-Ensures b']' (skip_whitespace r.1)) λ s behind.
            let checked = validate_elems-snoc lim es r.0 p.depth c checks parsed.0 in
            array_next f (snoc_elem es r.0) p s.1 c s.0 arr deep (omega arith)
              (ground (arith, count_elems-snoc es r.0)) (checked ∙ ap ok (sym behind.0.same_count))
              (Read-next parsed.1 behind.0)

  -- Behind a member: the end of the object, or the loop again.
  object_next :
      (f : ℕ) (ms : Members) (p q : Parser) (c : ℕ) (s : Separator)
      → ObjectGoal lim f
      → p.depth ≤ lim.max_depth
      → 2 * length p.rest + 1 ≤ f
      → count_members ms ≤ lim.max_object_members
      → validate_members lim ms [] p.depth c ≡ ok q.value_count
      → Read lim p q
      → Ensures
          (IsMembers lim p c)
          (elim s [ closes ↦ ok (object ms, q) | continues ↦ object_loop lim f ms q ])
  object_next f ms p q c closes goal deep fuel fits checks read =
      holds (ms, refl, fits, checks, read)
  object_next f ms p q c continues goal deep fuel fits checks read =
      let here =
        subst (λ d. validate_members lim ms [] d c ≡ ok q.value_count) (sym read.same_depth)
          checks in
      Ensures-map (goal ms q c (omega (arith, read)) (omega (arith, read)) here) λ r h. (
        h.0,
        h.1,
        h.2,
        subst (λ d. validate_members lim h.0 [] d c ≡ ok r.1.value_count) read.same_depth h.3,
        Read-more read h.4,
      )

  -- The value of a member starts where its key ends.
  value_at :
      (p q : Parser) (v : Value) (r : Parser)
      → Moves p q
      → IsParsed lim q (v, r)
      → validate_value_tree lim v p.depth p.value_count ≡ ok r.value_count
  value_at p q v r m h =
      let deep =
        subst (λ d. validate_value_tree lim v d q.value_count ≡ ok r.value_count) m.same_depth
          h.0 in
      subst (λ c. validate_value_tree lim v p.depth c ≡ ok r.value_count) m.same_count deep

  Read-member :
      {p q r s : Parser} → Moves p q → Read lim q r → Moves (skip_whitespace r) s → Read lim p s
  Read-member {r = r} m h k = omega (arith, m, skip_whitespace-Moves r, h, k)

  object_step : (f : ℕ) → ValueGoal lim f → ObjectGoal lim f → ObjectGoal lim (suc f)
  unfolding object_loop skip_whitespace
  object_step f val obj ms p c deep fuel checks = Ensures-bind (parse_key-IsKey lim ms p) λ k key.
      Ensures-bind (val k.1 (omega (arith, key.3)) (omega (arith, key.4))) λ r parsed.
        Ensures-reject _ _ λ fits.
          Ensures-bind (separator-Ensures b'}' (skip_whitespace r.1)) λ s behind.
            let here = value_at p k.1 r.0 r.1 key.3 parsed in
            let checked =
              validate_members-snoc lim ms k.0 r.0 [] p.depth c key.0 key.1 key.2
                (unfold mem_key in refl) checks here in
            object_next f (snoc_member ms k.0 r.0) p s.1 c s.0 obj deep (omega arith)
              (ground (arith, count_members-snoc ms k.0 r.0))
              (checked ∙ ap ok (sym behind.0.same_count)) (Read-member key.3 parsed.1 behind.0)

  parsed : (f : ℕ) → ValueGoal lim f × ArrayGoal lim f × ObjectGoal lim f
  parsed zero = (
    λ p deep fuel. absurd (omega arith),
    λ es p c deep fuel. absurd (omega arith),
    λ ms p c deep fuel. absurd (omega arith),
  )
  parsed (suc f) =
      let (val, arr, obj) = parsed f in
      (value_step f arr obj, array_step f val arr, object_step f val obj)

  -- With fuel above twice the length of the input `parse_value` ends; a value that it returns passes
  -- the serializer's checks at the parser's depth, and these count as many values as the parser did.
  pub parse_value-validated :
      (f : ℕ) (p : Parser)
      → p.depth ≤ lim.max_depth
      → 2 * length p.rest + 1 ≤ f
      → Ensures (IsParsed lim p) (parse_value lim f p)
  parse_value-validated f p deep fuel = (parsed f).0 p deep fuel
