-- ===== src/Jcs/Canon/Reading.antt =====
-- jcstoken/token.go: the parser at the first byte of the text of a value.
pub mod Loops
pub mod ElementList
pub mod MemberList
use jcs_schubfach.Prelude.{
  ℕ, zero, suc, ◌+◌, ◌-◌, ◌*◌, ◌≤◌, ◌<◌, ◌≡◌, ◌≢◌, ◌⊎◌, refl, ap, sym, ◌∙◌, inl, inr, Bool, true,
  false, ◌||◌, Bool-cases, List, [], ◌∷◌, ◌++◌, append_assoc, arith, ◌==◌, ltb, leb, le→ltb, Bytes,
  codes, length, length-append, equal, equal_iff,
}
use jcs_schubfach.Float64.{Float64}
use jcs_schubfach.Float64.Parse.{is_digit}
use jcs_schubfach.Jcstoken.Number.{parse_number}
use jcs_schubfach.Jcstoken.Options.{Limits}
use jcs_schubfach.Jcstoken.Parser.{
  parse_bool, parse_null, mem_key, count_value, separator, closes, continues, close_or_loop,
  open_container, parse_array, parse_object, parse_key, dispatch, parse_value, array_loop,
  object_loop,
}
use jcs_schubfach.Jcstoken.State.{
  Parser, is_space, expect, skip_from, skip_whitespace, push_depth, advance,
}
use jcs_schubfach.Jcstoken.Strings.{parse_string}
use jcs_schubfach.Jcstoken.Strings.Clean.{All-Scalar}
use jcs_schubfach.Jcstoken.Value.{
  Value, Elems, Members, null, bool, number, string, array, object, unknown, no_elems, elem,
  no_members, member, snoc_elem, snoc_member, count_elems, count_members, keys,
}
use jcs_schubfach.Jcs.Canon.{
  number_text, quoted, text, elems_text, more_elems, members_text, more_members, size, elems_size,
  members_size,
}
use jcs_schubfach.Jcs.Canon.Fits.{FitsString, Fits, FitsElems, FitsMembers}
use jcs_schubfach.Jcs.Canon.Legible.{state, Ends, Legible}
use jcs_schubfach.Jcstoken.Number.Ascii.{starts_number}
use jcs_schubfach.Jcs.Escape.{serialize_string}
use jcs_schubfach.Jcs.Escape.Forms.{forms, serialize_string-forms}
use jcs_schubfach.Jcs.Escape.RoundTrip.{parse_string-serialize_string}
use jcs_schubfach.Jcs.Validate.{is_bool_literal}
use jcs_schubfach.Result.{Result, ok, reject_if, ◌>>=◌, ◌>>◌}

pub skip_whitespace-state :
    (c : ℕ) (s : Bytes) (n d k : ℕ)
    → is_space c ≡ false
    → skip_whitespace (state (c ∷ s) n d k) ≡ state (c ∷ s) n d k
unfolding skip_whitespace skip_from
skip_whitespace-state c s n d k h = rw h refl

pub landed :
    {A : Type 0} {v w : A} (same : v ≡ w) (rest : Bytes) {n n' d d' k k' : ℕ}
    → n ≡ n'
    → d ≡ d'
    → k ≡ k'
    → ◌≡◌ {A = Result (A × Parser)} (ok (v, state rest n d k)) (ok (w, state rest n' d' k'))
landed same rest e f g = λ i. ok (same i, state rest (e i) (f i) (g i))

-- At a byte that it finds, `parseValue` counts a value and looks at that byte.
pub parse_value-state :
    (lim : Limits) (f : ℕ) (c : ℕ) (s : Bytes) (n d k : ℕ)
    → k + 1 ≤ lim.max_values
    → parse_value lim (suc f) (state (c ∷ s) n d k)
      ≡ dispatch lim
          (parse_array lim (array_loop lim f))
          (parse_object lim (object_loop lim f))
          c
          (state (c ∷ s) n d (k + 1))
unfolding parse_value count_value
parse_value-state lim f c s n d k h = rw (le→ltb lim.max_values (k + 1) h) refl

-- The first byte of a text, which is the only one that the parser chooses by.
abbrev pub FirstByte : ℕ → Type 0
FirstByte c = (is_space c ≡ false) × (c ≢ b']')

pub quoted-first :
    (lim : Limits) (s : Bytes) → FitsString lim s → (t : Bytes) × (quoted s ≡ b'"' ∷ t)
quoted-first lim s ((rs, clean, e), _) = (
  forms rs ++ b'"' ∷ [],
  ap (serialize_string []) e ∙ serialize_string-forms [] rs (All-Scalar rs clean),
)

pub bool_literal-cases :
    (s : Bytes) → is_bool_literal s ≡ true → (s ≡ codes "true") ⊎ (s ≡ codes "false")
bool_literal-cases s h = elim (Bool-cases (equal s (codes "true"))) [
  | inl e ↦ inl ((equal_iff s (codes "true")).0 e)
  | inr e ↦ inr ((equal_iff s (codes "false")).0 (rw e at h))
]

module _ (lim : Limits) where
  pub text-first :
      (d : ℕ) (v : Value)
      → Fits lim (Legible lim) d v
      → (c : ℕ) × (t : Bytes) × (text v ≡ c ∷ t) × FirstByte c
  unfolding text Fits
  text-first d null h = (_, _, refl, (refl, omega arith))
  text-first d (bool s) h = elim (bool_literal-cases s h.1) [
    | inl e ↦ (b't', codes "rue", e, (refl, omega arith))
    | inr e ↦ (b'f', codes "alse", e, (refl, omega arith))
  ]
  text-first d (number f) h = let (c, t, e, start) = h.2.start in (c, t, e, ground (arith, start))
  text-first d (string s) h =
      let (t, e) = quoted-first lim s h.1 in (b'"', t, e, (refl, omega arith))
  text-first d (array es) h = (_, _, refl, (refl, omega arith))
  text-first d (object ms) h = (_, _, refl, (refl, omega arith))
  text-first d (unknown k) h = absurd h

  -- Scalars.
  pub dispatch-null :
      (arr obj : Parser → Result (Value × Parser)) (rest : Bytes) (n d k : ℕ)
      → dispatch lim arr obj b'n' (state (codes "null" ++ rest) n d k)
        ≡ ok (null, state rest (n + 4) d k)
  unfolding dispatch parse_null equal
  dispatch-null arr obj rest n d k = refl

  pub dispatch-true :
      (arr obj : Parser → Result (Value × Parser)) (rest : Bytes) (n d k : ℕ)
      → dispatch lim arr obj b't' (state (codes "true" ++ rest) n d k)
        ≡ ok (bool (codes "true"), state rest (n + 4) d k)
  unfolding dispatch parse_bool equal
  dispatch-true arr obj rest n d k = refl

  pub dispatch-false :
      (arr obj : Parser → Result (Value × Parser)) (rest : Bytes) (n d k : ℕ)
      → dispatch lim arr obj b'f' (state (codes "false" ++ rest) n d k)
        ≡ ok (bool (codes "false"), state rest (n + 5) d k)
  unfolding dispatch parse_bool equal
  dispatch-false arr obj rest n d k = refl

  pub dispatch-number :
      (arr obj : Parser → Result (Value × Parser)) (c : ℕ) (p : Parser)
      → starts_number c ≡ true
      → dispatch lim arr obj c p ≡ (do (f, q) ← parse_number lim p; ok (number f, q))
  unfolding dispatch
  dispatch-number arr obj c p h = ground (arith, h)

  open_container-state :
      (c : ℕ) (s : Bytes) (n d k : ℕ)
      → d < lim.max_depth
      → open_container lim c (state (c ∷ s) n d k)
        ≡ ok (skip_whitespace (state s (n + 1) (d + 1) k))
  unfolding open_container push_depth expect
  open_container-state c s n d k h =
      rw (le→ltb lim.max_depth (d + 1) (omega (arith, h))) (ground arith)

  -- Up to the first element or member.
  pub parse_array-state :
      (loop : Elems → Parser → Result (Value × Parser)) (c : ℕ) (s : Bytes) (n d k : ℕ)
      → d < lim.max_depth
      → FirstByte c
      → parse_array lim loop (state (b'[' ∷ c ∷ s) n d k) ≡ (do
        (v, r) ← loop no_elems (state (c ∷ s) (n + 1) (d + 1) k)
        ok (v, record r { depth = r.depth - 1 }))
  unfolding parse_array close_or_loop
  parse_array-state loop c s n d k h (no_space, no_close) =
      rw
        (
          open_container-state b'[' (c ∷ s) n d k h,
          skip_whitespace-state c s (n + 1) (d + 1) k no_space,
        )
        (ground (arith, no_close))

  pub parse_array-none :
      (loop : Elems → Parser → Result (Value × Parser)) (rest : Bytes) (n d k : ℕ)
      → d < lim.max_depth
      → parse_array lim loop (state (b'[' ∷ b']' ∷ rest) n d k)
        ≡ ok (array no_elems, state rest (n + 2) d k)
  unfolding parse_array close_or_loop
  parse_array-none loop rest n d k h =
      rw
        (
          open_container-state b'[' (b']' ∷ rest) n d k h,
          skip_whitespace-state b']' rest (n + 1) (d + 1) k refl,
        )
        (landed refl rest (omega arith) (omega arith) refl)

  pub parse_object-state :
      (loop : Members → Parser → Result (Value × Parser)) (s : Bytes) (n d k : ℕ)
      → d < lim.max_depth
      → parse_object lim loop (state (b'{' ∷ b'"' ∷ s) n d k) ≡ (do
        (v, r) ← loop no_members (state (b'"' ∷ s) (n + 1) (d + 1) k)
        ok (v, record r { depth = r.depth - 1 }))
  unfolding parse_object close_or_loop
  parse_object-state loop s n d k h =
      rw
        (
          open_container-state b'{' (b'"' ∷ s) n d k h,
          skip_whitespace-state b'"' s (n + 1) (d + 1) k refl,
        )
        refl

  pub parse_object-none :
      (loop : Members → Parser → Result (Value × Parser)) (rest : Bytes) (n d k : ℕ)
      → d < lim.max_depth
      → parse_object lim loop (state (b'{' ∷ b'}' ∷ rest) n d k)
        ≡ ok (object no_members, state rest (n + 2) d k)
  unfolding parse_object close_or_loop
  parse_object-none loop rest n d k h =
      rw
        (
          open_container-state b'{' (b'}' ∷ rest) n d k h,
          skip_whitespace-state b'}' rest (n + 1) (d + 1) k refl,
        )
        (landed refl rest (omega arith) (omega arith) refl)
