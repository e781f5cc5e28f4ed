-- ===== src/Jcs/Validate/Counted.antt =====
-- jcstoken/token.go against jcs/serialize.go: one value between the parser's counters and the
-- serializer's checks, for each kind of value.
use mathlib.Core.Path.{subst}
use jcs_schubfach.Prelude.{
  ℕ, ◌+◌, ◌*◌, ◌≤◌, ◌<◌, ◌≡◌, refl, sym, ap, ◌∙◌, inl, inr, equal, [], arith, le→ltb, length,
}
use jcs_schubfach.Jcstoken.Options.{Limits}
use jcs_schubfach.Jcstoken.Parser.{parse_value, array_loop, object_loop}
use jcs_schubfach.Jcstoken.Parser.Steps.{IsLiteral, Opened}
use jcs_schubfach.Jcstoken.Number.{parse_number}
use jcs_schubfach.Jcstoken.Number.Scan.{parse_number-Ensures}
use jcs_schubfach.Jcstoken.State.{Parser, pop_depth}
use jcs_schubfach.Jcstoken.State.Moves.{Moves}
use jcs_schubfach.Jcstoken.Strings.{parse_string}
use jcs_schubfach.Jcstoken.Strings.Clean.{parse_string-IsString}
use jcs_schubfach.Jcstoken.Value.{
  Value, Elems, Members, number, string, array, object, count_elems, count_members,
}
use jcs_schubfach.Jcs.Validate.{enter_value, validate_value_tree, validate_elems, validate_members}
use jcs_schubfach.Jcs.Validate.Append.{validate_string-IsText, enter_value-ok}
use jcs_schubfach.Result.{ok, reject_if, ◌>>=◌, Ensures, holds, Ensures-bind}

module _ (lim : Limits) where
  -- From `p`, where `c` values have been counted, the parser has read something and stands at `q`
  -- again at the same depth.
  pub record Read (p q : Parser) : Type 0 where
    pub same_depth : q.depth ≡ p.depth
    pub same_end : q.at + length q.rest ≡ p.at + length p.rest
    pub shorter : length q.rest < length p.rest

  -- A value that starts at `p`, checked at the depth and the count there.
  abbrev pub IsParsed : Parser → Value × Parser → Type 0
  IsParsed p r =
      (validate_value_tree lim r.0 p.depth p.value_count ≡ ok r.1.value_count) × Read p r.1

  -- The same behind the count at the top of `parseValue`, on the value without that count.
  abbrev pub IsCounted : Parser → Value × Parser → Type 0
  IsCounted p r =
      ((c : ℕ) → c + 1 ≡ p.value_count → validate_value_tree lim r.0 p.depth c ≡ ok r.1.value_count)
      × Read p r.1

  -- Where `enterValue` finds room.
  pub record HasRoom (p : Parser) : Type 0 where
    pub depth_fits : p.depth ≤ lim.max_depth
    pub values_fit : p.value_count ≤ lim.max_values

  pub entered :
      (p : Parser) (c : ℕ)
      → HasRoom p
      → c + 1 ≡ p.value_count
      → enter_value lim p.depth c ≡ ok p.value_count
  entered p c room e =
      enter_value-ok lim p.depth c room.depth_fits (omega (arith, room.values_fit)) ∙ ap ok e

  pub Read-of : {p q : Parser} → Moves p q → length q.rest < length p.rest → Read p q
  Read-of m h = omega arith

  pub literal-IsCounted :
      (p : Parser) (v : Value) (q : Parser) → HasRoom p → IsLiteral p (v, q) → IsCounted p (v, q)
  unfolding validate_value_tree reject_if equal
  literal-IsCounted p v q room (inl e, m, s) =
      (λ c at. rw (e, entered p c room at) (ap ok (sym m.same_count)), Read-of m s)
  literal-IsCounted p v q room (inr (inl e), m, s) =
      (λ c at. rw (e, entered p c room at) (ap ok (sym m.same_count)), Read-of m s)
  literal-IsCounted p v q room (inr (inr e), m, s) =
      (λ c at. rw (e, entered p c room at) (ap ok (sym m.same_count)), Read-of m s)

  pub parse_string-IsCounted :
      (p : Parser)
      → HasRoom p
      → Ensures (IsCounted p) (parse_string lim p >>= λ r. ok (string r.0, r.1))
  unfolding validate_value_tree
  parse_string-IsCounted p room = Ensures-bind (parse_string-IsString lim p) λ r h. holds (
    λ c e. rw (entered p c room e, validate_string-IsText r.0 _ h.0 h.1, h.2.same_count) refl,
    Read-of h.2 h.3,
  )

  pub parse_number-IsCounted :
      (p : Parser)
      → HasRoom p
      → Ensures (IsCounted p) (parse_number lim p >>= λ r. ok (number r.0, r.1))
  unfolding validate_value_tree reject_if
  parse_number-IsCounted p room =
      Ensures-bind (parse_number-Ensures lim p)
        λ r h. holds (λ c e. rw (entered p c room e, h.0, h.1.same_count) refl, Read-of h.1 h.2)

  -- What the loop of `parseArray` returns: the checks on the elements, from the count `c` on.
  abbrev pub IsElems : Parser → ℕ → Value × Parser → Type 0
  IsElems p c r =
      (es : Elems) × (r.0 ≡ array es)
      × (count_elems es ≤ lim.max_array_elements)
      × (validate_elems lim es p.depth c ≡ ok r.1.value_count)
      × Read p r.1

  abbrev pub IsMembers : Parser → ℕ → Value × Parser → Type 0
  IsMembers p c r =
      (ms : Members) × (r.0 ≡ object ms)
      × (count_members ms ≤ lim.max_object_members)
      × (validate_members lim ms [] p.depth c ≡ ok r.1.value_count)
      × Read p r.1

  -- The claims for one amount of fuel.
  abbrev pub ValueGoal : ℕ → Type 0
  ValueGoal f =
      (p : Parser)
      → p.depth ≤ lim.max_depth
      → 2 * length p.rest + 1 ≤ f
      → Ensures (IsParsed p) (parse_value lim f p)

  abbrev pub ArrayGoal : ℕ → Type 0
  ArrayGoal f =
      (es : Elems) (p : Parser) (c : ℕ)
      → p.depth ≤ lim.max_depth
      → 2 * length p.rest + 2 ≤ f
      → validate_elems lim es p.depth c ≡ ok p.value_count
      → Ensures (IsElems p c) (array_loop lim f es p)

  abbrev pub ObjectGoal : ℕ → Type 0
  ObjectGoal f =
      (ms : Members) (p : Parser) (c : ℕ)
      → p.depth ≤ lim.max_depth
      → 2 * length p.rest + 2 ≤ f
      → validate_members lim ms [] p.depth c ≡ ok p.value_count
      → Ensures (IsMembers p c) (object_loop lim f ms p)

  -- Behind an opened container the count and the depth are back.
  pub Read-closed : {p q r : Parser} → Opened lim p q → Read q r → Read p (pop_depth r)
  Read-closed o h = omega arith

  pub array-IsCounted :
      (p q : Parser) (v : Value) (r : Parser)
      → HasRoom p
      → Opened lim p q
      → IsElems q q.value_count (v, r)
      → IsCounted p (v, pop_depth r)
  unfolding validate_value_tree reject_if
  array-IsCounted p q v r room o (es, e, fits, checks, read) =
      let inside =
        subst (λ d. validate_elems lim es d q.value_count ≡ ok r.value_count) o.0 checks in
      let here = subst (λ c. validate_elems lim es (p.depth + 1) c ≡ ok r.value_count) o.2 inside in
      (
        λ c at.
            rw (e, entered p c room at, le→ltb lim.max_array_elements (count_elems es) fits) here,
        Read-closed o read,
      )

  pub object-IsCounted :
      (p q : Parser) (v : Value) (r : Parser)
      → HasRoom p
      → Opened lim p q
      → IsMembers q q.value_count (v, r)
      → IsCounted p (v, pop_depth r)
  unfolding validate_value_tree reject_if
  object-IsCounted p q v r room o (ms, e, fits, checks, read) =
      let inside =
        subst (λ d. validate_members lim ms [] d q.value_count ≡ ok r.value_count) o.0 checks in
      let here =
        subst (λ c. validate_members lim ms [] (p.depth + 1) c ≡ ok r.value_count) o.2 inside in
      (
        λ c at.
            rw (e, entered p c room at, le→ltb lim.max_object_members (count_members ms) fits) here,
        Read-closed o read,
      )
