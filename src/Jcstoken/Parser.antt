-- ===== src/Jcstoken/Parser.antt =====
-- jcstoken/token.go: recursive descent over values, arrays and objects, and `ParseWithOptions`.
pub mod Steps
use jcs_schubfach.Prelude.{
  ℕ, zero, suc, ◌+◌, ◌-◌, ◌*◌, Bool, false, not, ◌||◌, Option, none, some, List, [], ◌∷◌, ltb, leb,
  ◌==◌, if◌then◌else◌, Bytes, codes, length, take, equal,
}
use jcs_schubfach.Prelude.Int.{pos}
use jcs_schubfach.Jcserr.{new, invalid_utf8, invalid_grammar, duplicate_key, bound_exceeded}
use jcs_schubfach.Jcstoken.Number.{parse_number}
use jcs_schubfach.Jcstoken.Options.{Options, Limits, limits}
use jcs_schubfach.Jcstoken.State.{
  Parser, advance, new_error, peek, expect, skip_whitespace, push_depth, pop_depth,
}
use jcs_schubfach.Jcstoken.Strings.{parse_string}
use jcs_schubfach.Jcstoken.Value.{
  Value, Elems, Members, null, bool, number, string, array, object, no_elems, no_members, snoc_elem,
  snoc_member, count_elems, count_members, keys,
}
use jcs_schubfach.Result.{Result, ok, out_of_fuel, reject_if, ◌>>=◌, ◌>>◌}
use jcs_schubfach.Unicode.Utf8.{valid, decode_rune}

-- `parseBool`
unfoldable pub parse_bool : Parser → Result (Value × Parser)
parse_bool p =
    if equal (take 4 p.rest) (codes "true")
    then ok (bool (codes "true"), advance 4 p)
    else if equal (take 5 p.rest) (codes "false")
    then ok (bool (codes "false"), advance 5 p)
    else new_error invalid_grammar p

-- `parseNull`
unfoldable pub parse_null : Parser → Result (Value × Parser)
parse_null p =
    if equal (take 4 p.rest) (codes "null")
    then ok (null, advance 4 p)
    else new_error invalid_grammar p

-- `seen[key]`
unfoldable pub mem_key : Bytes → List Bytes → Bool
mem_key k [] = false
mem_key k (j ∷ js) = equal k j || mem_key k js

-- `p.valueCount++`, and its bound.
unfoldable pub count_value : Limits → Parser → Result Parser
count_value lim p =
    let q = record p { value_count = p.value_count + 1 } in
    if ltb lim.max_values q.value_count then new_error bound_exceeded q else ok q

-- What the loops of `parseArray` and `parseObject` find behind an element.
pub data Separator : Type 0 where
  closes : Separator
  continues : Separator

unfoldable pub separator : ℕ → Parser → Result (Separator × Parser)
separator close p = elim (peek p) [
  | none ↦ new_error invalid_grammar p
  | some c ↦
      if c == close
      then ok (closes, advance 1 p)
      else if c == b','
      then ok (continues, advance 1 p)
      else new_error invalid_grammar p
]

-- Behind the opening byte of `parseArray` and `parseObject`: the empty container, or the loop.
unfoldable pub close_or_loop :
    ℕ → Value → (Parser → Result (Value × Parser)) → Parser → Result (Value × Parser)
close_or_loop close empty loop p = elim (peek p) [
  | none ↦ new_error invalid_grammar p
  | some c ↦ if c == close then ok (empty, advance 1 p) else loop p
]

module _ (lim : Limits) where
  -- Up to the loop of `parseArray` and `parseObject`: depth, opening byte, white space.
  unfoldable pub open_container : ℕ → Parser → Result Parser
  open_container c p = do q ← push_depth lim p; r ← expect c q; ok (skip_whitespace r)

  -- `parseArray`, given its loop.
  unfoldable pub parse_array :
      (Elems → Parser → Result (Value × Parser)) → Parser → Result (Value × Parser)
  parse_array loop p = do
    q ← open_container b'[' p
    (v, r) ← close_or_loop b']' (array no_elems) (loop no_elems) q
    ok (v, pop_depth r)

  -- `parseObject`, given its loop.
  unfoldable pub parse_object :
      (Members → Parser → Result (Value × Parser)) → Parser → Result (Value × Parser)
  parse_object loop p = do
    q ← open_container b'{' p
    (v, r) ← close_or_loop b'}' (object no_members) (loop no_members) q
    ok (v, pop_depth r)

  -- The key, the colon and the white space round it in the loop of `parseObject`.
  unfoldable pub parse_key : Members → Parser → Result (Bytes × Parser)
  parse_key ms p = do
    let p1 = skip_whitespace p
    (key, p2) ← parse_string lim p1
    reject_if (mem_key key (keys ms)) (new duplicate_key (pos p1.at))
    p3 ← expect b':' (skip_whitespace p2)
    ok (key, skip_whitespace p3)

  -- The switch of `parseValue`; arrays and objects are parsed by the first two arguments.
  unfoldable pub dispatch :
      (Parser → Result (Value × Parser))
      → (Parser → Result (Value × Parser))
      → ℕ
      → Parser
      → Result (Value × Parser)
  dispatch arr obj c p =
      if c == b'{'
      then obj p
      else if c == b'['
      then arr p
      else if c == b'"'
      then (do (s, q) ← parse_string lim p; ok (string s, q))
      else if c == b't' || c == b'f'
      then parse_bool p
      else if c == b'n'
      then parse_null p
      else (do (f, q) ← parse_number lim p; ok (number f, q))

  unfoldable mutual
    -- `parseValue`
    pub parse_value : ℕ → Parser → Result (Value × Parser)
    parse_value zero p = out_of_fuel
    parse_value (suc f) p = do
      q ← count_value lim p
      elim (peek q) [
        | none ↦ new_error invalid_grammar q
        | some c ↦ dispatch (parse_array (array_loop f)) (parse_object (object_loop f)) c q
      ]

    -- The loop of `parseArray`
    pub array_loop : ℕ → Elems → Parser → Result (Value × Parser)
    array_loop zero es p = out_of_fuel
    array_loop (suc f) es p = do
      (v, q) ← parse_value f (skip_whitespace p)
      reject_if (leb lim.max_array_elements (count_elems es)) (new bound_exceeded (pos q.at))
      let es' = snoc_elem es v
      (s, r) ← separator b']' (skip_whitespace q)
      elim s [ closes ↦ ok (array es', r) | continues ↦ array_loop f es' r ]

    -- The loop of `parseObject`
    pub object_loop : ℕ → Members → Parser → Result (Value × Parser)
    object_loop zero ms p = out_of_fuel
    object_loop (suc f) ms p = do
      (key, p') ← parse_key ms p
      (v, q) ← parse_value f p'
      reject_if (leb lim.max_object_members (count_members ms)) (new bound_exceeded (pos q.at))
      let ms' = snoc_member ms key v
      (s, r) ← separator b'}' (skip_whitespace q)
      elim s [ closes ↦ ok (object ms', r) | continues ↦ object_loop f ms' r ]

-- `firstInvalidUTF8Offset`; the first argument counts the bytes still to be skipped.
unfoldable pub invalid_from : ℕ → ℕ → Bytes → ℕ
invalid_from skip i [] = 0
invalid_from (suc k) i (b ∷ r) = invalid_from k (i + 1) r
invalid_from zero i (b ∷ r) =
    let size = (decode_rune (b ∷ r)).1 in
    let more = invalid_from (size - 1) (i + 1) r in
    if size == 1 then (if leb 0x80 b then i else more) else more

unfoldable pub first_invalid_utf8_offset : Bytes → ℕ
first_invalid_utf8_offset = invalid_from 0 0

abbrev pub initial : Bytes → Parser
initial src = record { rest = src; at = 0; depth = 0; value_count = 0 }

-- Enough fuel for any input of this length.
abbrev pub fuel_for : Bytes → ℕ
fuel_for src = 2 * length src + 2

-- `Parse` is this with no options.
unfoldable pub parse_with_options : Bytes → Option Options → Result Value
parse_with_options src opts = do
  let lim = limits opts
  reject_if (ltb lim.max_input_size (length src)) (new bound_exceeded (pos 0))
  reject_if (not (valid src)) (new invalid_utf8 (pos (first_invalid_utf8_offset src)))
  (v, p) ← parse_value lim (fuel_for src) (skip_whitespace (initial src))
  let q = skip_whitespace p
  elim q.rest [ [] ↦ ok v | _ ∷ _ ↦ new_error invalid_grammar q ]

unfoldable pub parse : Bytes → Result Value
parse src = parse_with_options src none
