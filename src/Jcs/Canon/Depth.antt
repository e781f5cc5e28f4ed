-- ===== src/Jcs/Canon/Depth.antt =====
-- jcstoken/token.go: in a value that `parseValue` returns no container stands at the depth limit.
use jcs_schubfach.Prelude.{
  Bytes, ℕ, zero, suc, ◌≡◌, refl, ap, sym, ◌∙◌, ◌⊎◌, codes, inl, inr, Option-cases, ◌||◌, none,
  some, arith, ◌==◌,
}
use mathlib.Core.Path.{subst}
use jcs_schubfach.Jcserr.{invalid_grammar}
use jcs_schubfach.Jcstoken.Number.Scan.{parse_number-Ensures}
use jcs_schubfach.Jcstoken.Options.{Limits}
use jcs_schubfach.Jcstoken.Parser.{
  closes, continues, close_or_loop, parse_array, parse_object, dispatch, parse_value, array_loop,
  object_loop, Separator,
}
use jcs_schubfach.Jcstoken.Parser.Steps.{
  IsLiteral, parse_bool-IsLiteral, parse_null-IsLiteral, separator-Ensures, count_value-Ensures,
  open_container-Opened, parse_key-IsKey,
}
use jcs_schubfach.Jcstoken.State.{advance, new_error, Parser, peek, skip_whitespace}
use jcs_schubfach.Jcstoken.Strings.Clean.{parse_string-IsString}
use jcs_schubfach.Jcstoken.Value.{
  Value, null, bool, Elems, Members, array, object, no_elems, elem, no_members, member, snoc_elem,
  snoc_member,
}
use jcs_schubfach.Jcs.Canon.Fits.{Shallow, ShallowElems, ShallowMembers}
use jcs_schubfach.Result.{
  Result, ok, Ensures, WhenOk, gives, failed, starved, WhenOk-bind, WhenOk-map, WhenOk-if,
  WhenOk-Ensures, WhenOk-ok, Ensures-guard,
}

module _ (lim : Limits) where
  ShallowElems-snoc :
      (d : ℕ) (es : Elems) (v : Value)
      → ShallowElems lim d es
      → Shallow lim d v
      → ShallowElems lim d (snoc_elem es v)
  unfolding ShallowElems snoc_elem
  ShallowElems-snoc d no_elems v h k = (k, tt)
  ShallowElems-snoc d (elem w es) v h k = (h.0, ShallowElems-snoc d es v h.1 k)

  ShallowMembers-snoc :
      (d : ℕ) (ms : Members) (key : Bytes) (v : Value)
      → ShallowMembers lim d ms
      → Shallow lim d v
      → ShallowMembers lim d (snoc_member ms key v)
  unfolding ShallowMembers snoc_member
  ShallowMembers-snoc d no_members key v h k = (k, tt)
  ShallowMembers-snoc d (member j w ms) key v h k = (h.0, ShallowMembers-snoc d ms key v h.1 k)

  -- A value read at the depth of `p`, at which the parser stands again.
  abbrev IsShallow : Parser → Value × Parser → Type 0
  IsShallow p r = Shallow lim p.depth r.0 × (r.1.depth ≡ p.depth)

  abbrev ValueShallow : ℕ → Type 0
  ValueShallow f = (p : Parser) → WhenOk (IsShallow p) (parse_value lim f p)

  -- What the loops return: the container, whose content is shallow at the depth in it.
  abbrev IsShallowArray : Parser → Value × Parser → Type 0
  IsShallowArray p r =
      (es : Elems) × (r.0 ≡ array es) × ShallowElems lim p.depth es × (r.1.depth ≡ p.depth)

  abbrev IsShallowObject : Parser → Value × Parser → Type 0
  IsShallowObject p r =
      (ms : Members) × (r.0 ≡ object ms) × ShallowMembers lim p.depth ms × (r.1.depth ≡ p.depth)

  abbrev ArrayShallow : ℕ → Type 0
  ArrayShallow f =
      (es : Elems) (p : Parser)
      → ShallowElems lim p.depth es
      → WhenOk (IsShallowArray p) (array_loop lim f es p)

  abbrev ObjectShallow : ℕ → Type 0
  ObjectShallow f =
      (ms : Members) (p : Parser)
      → ShallowMembers lim p.depth ms
      → WhenOk (IsShallowObject p) (object_loop lim f ms p)

  close_or_loop-WhenOk :
      {P : Value × Parser → Type 0} (close : ℕ) (empty : Value)
      (loop : Parser → Result (Value × Parser)) (p : Parser)
      → P (empty, advance 1 p)
      → WhenOk P (loop p)
      → WhenOk P (close_or_loop close empty loop p)
  unfolding close_or_loop
  close_or_loop-WhenOk close empty loop p at_close at_loop = elim (Option-cases (peek p)) [
    | inl e ↦ rw (e, close_or_loop) failed
    | inr (c, e) ↦ rw (e, close_or_loop) (WhenOk-if (c == close) (gives at_close) at_loop)
  ]

  parse_array-WhenOk :
      (f : ℕ) (p : Parser)
      → ArrayShallow f
      → WhenOk (IsShallow p) (parse_array lim (array_loop lim f) p)
  unfolding parse_array ShallowElems Shallow
  parse_array-WhenOk f p goal =
      WhenOk-bind (WhenOk-Ensures (open_container-Opened lim b'[' p)) λ q o.
        WhenOk-bind {P = IsShallowArray q}
          (close_or_loop-WhenOk b']' (array no_elems) (array_loop lim f no_elems) q
            (no_elems, refl, tt, refl) (goal no_elems q tt))
          λ r h. gives (
            subst (Shallow lim p.depth) (sym h.1)
                (omega (arith, o), subst (λ d. ShallowElems lim d h.0) o.0 h.2),
            omega (arith, h, o),
          )

  parse_object-WhenOk :
      (f : ℕ) (p : Parser)
      → ObjectShallow f
      → WhenOk (IsShallow p) (parse_object lim (object_loop lim f) p)
  unfolding parse_object ShallowMembers Shallow
  parse_object-WhenOk f p goal =
      WhenOk-bind (WhenOk-Ensures (open_container-Opened lim b'{' p)) λ q o.
        WhenOk-bind {P = IsShallowObject q}
          (close_or_loop-WhenOk b'}' (object no_members) (object_loop lim f no_members) q
            (no_members, refl, tt, refl) (goal no_members q tt))
          λ r h. gives (
            subst (Shallow lim p.depth) (sym h.1)
                (omega (arith, o), subst (λ d. ShallowMembers lim d h.0) o.0 h.2),
            omega (arith, h, o),
          )

  literal-WhenOk :
      (p : Parser) (m : Result (Value × Parser)) → Ensures (IsLiteral p) m → WhenOk (IsShallow p) m
  unfolding Shallow
  literal-WhenOk p m e = WhenOk-map (WhenOk-Ensures e) λ r h. (shallow r.0 h.0, h.1.same_depth)
    where
      shallow :
          (v : Value)
          → (v ≡ null) ⊎ ((v ≡ bool (codes "true")) ⊎ (v ≡ bool (codes "false")))
          → Shallow lim p.depth v
      shallow v (inl e) = subst (Shallow lim p.depth) (sym e) tt
      shallow v (inr (inl e)) = subst (Shallow lim p.depth) (sym e) tt
      shallow v (inr (inr e)) = subst (Shallow lim p.depth) (sym e) tt

  dispatch-WhenOk :
      (f c : ℕ) (p : Parser)
      → ArrayShallow f
      → ObjectShallow f
      → WhenOk (IsShallow p) (
          dispatch lim
            (parse_array lim (array_loop lim f))
            (parse_object lim (object_loop lim f))
            c
            p)
  unfolding dispatch Shallow
  dispatch-WhenOk f c p arr obj = WhenOk-if (c == b'{') (parse_object-WhenOk f p obj) (
      WhenOk-if (c == b'[') (parse_array-WhenOk f p arr) (
        WhenOk-if (c == b'"')
          (WhenOk-bind (WhenOk-Ensures (parse_string-IsString lim p))
            λ r h. gives (tt, h.2.same_depth))
          (WhenOk-if (c == b't' || c == b'f') (literal-WhenOk p _ (parse_bool-IsLiteral p)) (
            WhenOk-if (c == b'n') (literal-WhenOk p _ (parse_null-IsLiteral p)) (
              WhenOk-bind (WhenOk-Ensures (parse_number-Ensures lim p))
                λ r h. gives (tt, h.1.same_depth))))))

  peeked-WhenOk :
      (f : ℕ) (p : Parser)
      → ArrayShallow f
      → ObjectShallow f
      → WhenOk (IsShallow p) (elim (peek p) [
        | none ↦ new_error invalid_grammar p
        | some c ↦
            dispatch lim
              (parse_array lim (array_loop lim f))
              (parse_object lim (object_loop lim f))
              c
              p
      ])
  peeked-WhenOk f p arr obj = elim (Option-cases (peek p)) [
    | inl e ↦ rw e failed
    | inr (c, e) ↦ rw e (dispatch-WhenOk f c p arr obj)
  ]

  value_step : (f : ℕ) → ArrayShallow f → ObjectShallow f → ValueShallow (suc f)
  unfolding parse_value
  value_step f arr obj p = WhenOk-bind (WhenOk-Ensures (count_value-Ensures lim p)) λ q (same, _).
      let depth = ap (λ (s : Parser). s.depth) same in
      WhenOk-map (peeked-WhenOk f q arr obj)
        λ r h. (subst (λ d. Shallow lim d r.0) depth h.0, h.1 ∙ depth)

  array_next :
      (f : ℕ) (es : Elems) (p q : Parser) (s : Separator)
      → ArrayShallow f
      → ShallowElems lim p.depth es
      → q.depth ≡ p.depth
      → WhenOk
          (IsShallowArray p)
          (elim s [ closes ↦ ok (array es, q) | continues ↦ array_loop lim f es q ])
  array_next f es p q closes goal shallow e = gives (es, refl, shallow, e)
  array_next f es p q continues goal shallow e =
      WhenOk-map (goal es q (subst (λ d. ShallowElems lim d es) (sym e) shallow))
        λ r h. (h.0, h.1, subst (λ d. ShallowElems lim d h.0) e h.2, h.3 ∙ e)

  array_step : (f : ℕ) → ValueShallow f → ArrayShallow f → ArrayShallow (suc f)
  unfolding array_loop skip_whitespace
  array_step f val arr es p shallow = WhenOk-bind (val (skip_whitespace p)) λ r h.
      WhenOk-bind (WhenOk-Ensures (Ensures-guard _ _)) λ _ _.
        WhenOk-bind (WhenOk-Ensures (separator-Ensures b']' (skip_whitespace r.1))) λ s behind.
          array_next f (snoc_elem es r.0) p s.1 s.0 arr
            (ShallowElems-snoc p.depth es r.0 shallow h.0) (behind.0.same_depth ∙ h.1)

  object_next :
      (f : ℕ) (ms : Members) (p q : Parser) (s : Separator)
      → ObjectShallow f
      → ShallowMembers lim p.depth ms
      → q.depth ≡ p.depth
      → WhenOk
          (IsShallowObject p)
          (elim s [ closes ↦ ok (object ms, q) | continues ↦ object_loop lim f ms q ])
  object_next f ms p q closes goal shallow e = gives (ms, refl, shallow, e)
  object_next f ms p q continues goal shallow e =
      WhenOk-map (goal ms q (subst (λ d. ShallowMembers lim d ms) (sym e) shallow))
        λ r h. (h.0, h.1, subst (λ d. ShallowMembers lim d h.0) e h.2, h.3 ∙ e)

  object_step : (f : ℕ) → ValueShallow f → ObjectShallow f → ObjectShallow (suc f)
  unfolding object_loop skip_whitespace
  object_step f val obj ms p shallow =
      WhenOk-bind (WhenOk-Ensures (parse_key-IsKey lim ms p)) λ k key. WhenOk-bind (val k.1) λ r h.
        WhenOk-bind (WhenOk-Ensures (Ensures-guard _ _)) λ _ _.
          WhenOk-bind (WhenOk-Ensures (separator-Ensures b'}' (skip_whitespace r.1))) λ s behind.
            let here = subst (λ d. Shallow lim d r.0) key.3.same_depth h.0 in
            object_next f (snoc_member ms k.0 r.0) p s.1 s.0 obj
              (ShallowMembers-snoc p.depth ms k.0 r.0 shallow here)
              (behind.0.same_depth ∙ h.1 ∙ key.3.same_depth)

  shallow : (f : ℕ) → ValueShallow f × ArrayShallow f × ObjectShallow f
  unfolding parse_value
  shallow zero = (λ p. starved, λ es p h. starved, λ ms p h. starved)
  shallow (suc f) =
      let (val, arr, obj) = shallow f in
      (value_step f arr obj, array_step f val arr, object_step f val obj)

  pub parse_value-Shallow :
      (f : ℕ) (p : Parser) {r : Value × Parser}
      → parse_value lim f p ≡ ok r
      → Shallow lim p.depth r.0
  parse_value-Shallow f p e = (WhenOk-ok ((shallow f).0 p) e).0
