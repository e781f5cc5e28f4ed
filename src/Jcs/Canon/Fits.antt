-- ===== src/Jcs/Canon/Fits.antt =====
-- jcs/serialize.go: what `validateValueTree` asks of a value, apart from the order of its members.
use mathlib.Core.List.{Pairwise}
use jcs_schubfach.Prelude.{
  ℕ, ◌+◌, ◌≤◌, ◌<◌, ◌≡◌, ap, sym, ◌∙◌, true, ◌||◌, not, not-false, List, [], ◌∷◌, arith, ltb, Bytes,
  length, All,
}
use jcs_schubfach.Float64.{Float64, is_nan, is_inf}
use jcs_schubfach.Jcstoken.Options.{Limits}
use jcs_schubfach.Jcstoken.Number.Scan.{IsFinite}
use jcs_schubfach.Jcstoken.Strings.{is_noncharacter}
use jcs_schubfach.Jcstoken.Strings.Clean.{Clean, IsText}
use jcs_schubfach.Jcstoken.Value.{
  Value, Elems, Members, null, bool, number, string, array, object, unknown, no_elems, elem,
  no_members, member, count_elems, count_members,
}
use jcs_schubfach.Jcs.Canon.{size, elems_size, members_size}
use jcs_schubfach.Jcs.Canon.Numbers.{EachNumber, EachOfElems, EachOfMembers}
use jcs_schubfach.Jcs.Keys.Unique.{KeysDiffer}
use jcs_schubfach.Jcs.Validate.{
  is_bool_literal, validate_runes, validate_string, enter_value, validate_key, validate_value_tree,
  validate_elems, validate_members, wrap_error,
}
use jcs_schubfach.Jcs.Validate.Distinct.{entries, members-KeysDiffer}
use jcs_schubfach.Result.{ok_inj, Result, ok, err, out_of_fuel, bind-eq-ok, reject-eq-ok}
use jcs_schubfach.Unicode.Utf16.{is_surrogate}
use jcs_schubfach.Unicode.Utf8.{valid, runes}
use jcs_schubfach.Unicode.Utf8.RoundTrip.{Scalar}
use jcs_schubfach.Unicode.Utf8.Text.{valid_sound, runes-encode_runes}

-- A text within the limit.
abbrev pub FitsString : Limits → Bytes → Type 0
FitsString lim s = IsText s × (length s ≤ lim.max_string_bytes)

module _ (lim : Limits) (P : Float64 → Type 0) where
  unfoldable mutual
    -- A value at the depth `d` within the limits, also those of the parser, which opens no container at
    -- the depth limit; its numbers are finite and have the property `P`.
    pub Fits : ℕ → Value → Type 0
    Fits d null = d ≤ lim.max_depth
    Fits d (bool s) = (d ≤ lim.max_depth) × (is_bool_literal s ≡ true)
    Fits d (number f) = (d ≤ lim.max_depth) × IsFinite f × P f
    Fits d (string s) = (d ≤ lim.max_depth) × FitsString lim s
    Fits d (array es) =
        (d < lim.max_depth) × (count_elems es ≤ lim.max_array_elements) × FitsElems (d + 1) es
    Fits d (object ms) =
        (d < lim.max_depth)
        × (count_members ms ≤ lim.max_object_members)
        × Pairwise KeysDiffer (entries ms)
        × FitsMembers (d + 1) ms
    Fits d (unknown k) = ⊥

    pub FitsElems : ℕ → Elems → Type 0
    FitsElems d no_elems = Unit
    FitsElems d (elem v es) = Fits d v × FitsElems d es

    pub FitsMembers : ℕ → Members → Type 0
    FitsMembers d no_members = Unit
    FitsMembers d (member k v ms) = FitsString lim k × Fits d v × FitsMembers d ms

module _ (lim : Limits) where
  unfoldable mutual
    -- No container in a value at the depth `d` stands at the depth limit or below it.
    pub Shallow : ℕ → Value → Type 0
    Shallow d (array es) = (d < lim.max_depth) × ShallowElems (d + 1) es
    Shallow d (object ms) = (d < lim.max_depth) × ShallowMembers (d + 1) ms
    Shallow d _ = Unit

    pub ShallowElems : ℕ → Elems → Type 0
    ShallowElems d no_elems = Unit
    ShallowElems d (elem v es) = Shallow d v × ShallowElems d es

    pub ShallowMembers : ℕ → Members → Type 0
    ShallowMembers d no_members = Unit
    ShallowMembers d (member k v ms) = Shallow d v × ShallowMembers d ms

validate_runes-Clean :
    (rs : List ℕ) {u : Unit {0}} → All Scalar rs → validate_runes rs ≡ ok u → All Clean rs
unfolding validate_runes
validate_runes-Clean [] scalars h = tt
validate_runes-Clean (r ∷ rs) scalars h =
    let (clean, rest) = reject-eq-ok (is_noncharacter r) _ _ h in
    let (_, later) = reject-eq-ok (is_surrogate r) _ _ rest in
    ((scalars.0, clean), validate_runes-Clean rs scalars.1 later)

module _ (lim : Limits) where
  validate_string-FitsString :
      (s : Bytes) {u : Unit {0}} → validate_string s lim.max_string_bytes ≡ ok u → FitsString lim s
  unfolding validate_string
  validate_string-FitsString s h =
      let (valid_s, h1) = reject-eq-ok (not (valid s)) _ _ h in
      let (short, h2) = reject-eq-ok (ltb lim.max_string_bytes (length s)) _ _ h1 in
      let (rs, scalars, e) = valid_sound (length s) s (omega arith) (not-false _ valid_s) in
      let same : runes s ≡ rs = ap runes e ∙ runes-encode_runes rs scalars in
      ((rs, validate_runes-Clean rs scalars (rw same at h2), e), ground (arith, short))

  validate_key-FitsString :
      (seen : List Bytes) (k : Bytes) {u : Unit {0}}
      → validate_key lim seen k ≡ ok u
      → FitsString lim k
  unfolding validate_key
  validate_key-FitsString seen k h =
      let (_, clean, _) = bind-eq-ok (wrap_error (validate_string k lim.max_string_bytes)) _ h in
      validate_string-FitsString k (unwrapped _ clean)
    where
      unwrapped : (r : Result (Unit {0})) {v : Unit {0}} → wrap_error r ≡ ok v → r ≡ ok v
      unwrapped (ok u) e = e
      unwrapped (err x) e = cc
      unwrapped out_of_fuel e = cc

  -- The depth and the count that a value has passed.
  abbrev Entered : ℕ → ℕ → ℕ → Type 0
  Entered d c n = (d ≤ lim.max_depth) × (n ≡ c + 1) × (n ≤ lim.max_values)

  enter_value-Entered : (d c : ℕ) {n : ℕ} → enter_value lim d c ≡ ok n → Entered d c n
  unfolding enter_value
  enter_value-Entered d c h =
      let (room, h1) = reject-eq-ok (ltb lim.max_values (c + 1)) _ _ h in
      let (shallow, h2) = reject-eq-ok (ltb lim.max_depth d) _ _ h1 in
      let same = ok_inj h2 in (ground (arith, shallow), sym same, ground (arith, room, same))

  module _ (P : Float64 → Type 0) where
    -- What has been counted from `c` on.
    abbrev pub Counted : ℕ → ℕ → ℕ → Type 0
    Counted c k n = (n ≡ c + k) × (n ≤ lim.max_values)

    Counted-one : (d c : ℕ) {i n : ℕ} → Entered d c i → ok i ≡ ok n → Counted c 1 n
    Counted-one d c h e = let same = ok_inj e in omega (arith, h, same)

    mutual
      unfolding validate_value_tree validate_elems validate_members Fits FitsElems FitsMembers
          EachNumber EachOfElems EachOfMembers Shallow ShallowElems ShallowMembers size elems_size
          members_size

      pub value-Fits :
          (v : Value) (d c : ℕ) {n : ℕ}
          → validate_value_tree lim v d c ≡ ok n
          → EachNumber P v
          → Shallow lim d v
          → Fits lim P d v × Counted c (size v) n
      value-Fits null d c h each low = let e = enter_value-Entered d c h in (e.0, (e.1, e.2))
      value-Fits (bool s) d c h each low =
          let (i, entered, h1) = bind-eq-ok (enter_value lim d c) _ h in
          let e = enter_value-Entered d c entered in
          let (literal, h2) = reject-eq-ok (not (is_bool_literal s)) _ _ h1 in
          ((e.0, not-false _ literal), Counted-one d c e h2)
      value-Fits (number f) d c h each low =
          let (i, entered, h1) = bind-eq-ok (enter_value lim d c) _ h in
          let e = enter_value-Entered d c entered in
          let (finite, h2) = reject-eq-ok (is_nan f || is_inf f) _ _ h1 in
          ((e.0, finite, each), Counted-one d c e h2)
      value-Fits (string s) d c h each low =
          let (i, entered, h1) = bind-eq-ok (enter_value lim d c) _ h in
          let e = enter_value-Entered d c entered in
          let (_, clean, h2) = bind-eq-ok (validate_string s lim.max_string_bytes) _ h1 in
          ((e.0, validate_string-FitsString s clean), Counted-one d c e h2)
      value-Fits (array es) d c h each low =
          let (i, entered, h1) = bind-eq-ok (enter_value lim d c) _ h in
          let e = enter_value-Entered d c entered in
          let (few, h2) = reject-eq-ok (ltb lim.max_array_elements (count_elems es)) _ _ h1 in
          let (fit, counted) = elems-Fits es (d + 1) i h2 e.2 each low.1 in
          ((low.0, ground (arith, few), fit), omega (arith, counted, e))
      value-Fits (object ms) d c h each low =
          let (i, entered, h1) = bind-eq-ok (enter_value lim d c) _ h in
          let e = enter_value-Entered d c entered in
          let (few, h2) = reject-eq-ok (ltb lim.max_object_members (count_members ms)) _ _ h1 in
          let (_, differ) = members-KeysDiffer lim ms [] (d + 1) i h2 in
          let (fit, counted) = members-Fits ms [] (d + 1) i h2 e.2 each low.1 in
          ((low.0, ground (arith, few), differ, fit), omega (arith, counted, e))
      value-Fits (unknown k) d c h each low =
          let (i, _, h1) = bind-eq-ok (enter_value lim d c) _ h in cc

      elems-Fits :
          (es : Elems) (d c : ℕ) {n : ℕ}
          → validate_elems lim es d c ≡ ok n
          → c ≤ lim.max_values
          → EachOfElems P es
          → ShallowElems lim d es
          → FitsElems lim P d es × Counted c (elems_size es) n
      elems-Fits no_elems d c h room each low = (tt, counted_none h)
        where
          counted_none : {n : ℕ} → ok c ≡ ok n → (n ≡ c + 0) × (n ≤ lim.max_values)
          counted_none {n} e = let same : c ≡ n = cc in omega (arith, same, room)
      elems-Fits (elem v es) d c h room each low =
          let (i, first, h1) = bind-eq-ok (validate_value_tree lim v d c) _ h in
          let (fit, counted) = value-Fits v d c first each.0 low.0 in
          let (fits, rest) = elems-Fits es d i h1 counted.1 each.1 low.1 in
          ((fit, fits), omega (arith, counted, rest))

      members-Fits :
          (ms : Members) (seen : List Bytes) (d c : ℕ) {n : ℕ}
          → validate_members lim ms seen d c ≡ ok n
          → c ≤ lim.max_values
          → EachOfMembers P ms
          → ShallowMembers lim d ms
          → FitsMembers lim P d ms × Counted c (members_size ms) n
      members-Fits no_members seen d c h room each low = (tt, counted_none h)
        where
          counted_none : {n : ℕ} → ok c ≡ ok n → (n ≡ c + 0) × (n ≤ lim.max_values)
          counted_none {n} e = let same : c ≡ n = cc in omega (arith, same, room)
      members-Fits (member k v ms) seen d c h room each low =
          let (_, key, h1) = bind-eq-ok (validate_key lim seen k) _ h in
          let (i, first, h2) = bind-eq-ok (validate_value_tree lim v d c) _ h1 in
          let (fit, counted) = value-Fits v d c first each.0 low.0 in
          let (fits, rest) = members-Fits ms (k ∷ seen) d i h2 counted.1 each.1 low.1 in
          ((validate_key-FitsString seen k key, fit, fits), omega (arith, counted, rest))
