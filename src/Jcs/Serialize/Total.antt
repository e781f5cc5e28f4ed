-- ===== src/Jcs/Serialize/Total.antt =====
-- jcs/serialize.go: a value that passes the checks is written, and so is what the parser accepts.
use jcs_schubfach.Prelude.{
  ℕ, ◌+◌, ◌≡◌, ◌≢◌, ◌⊎◌, refl, Option, some, false, ◌||◌, Bool-cases, inl, inr, or-false, ltb, List,
  [], ◌∷◌, ◌++◌, arith, Bytes,
}
use jcs_schubfach.Float64.{is_nan, is_inf, is_zero}
use jcs_schubfach.Jcserr.{Error, invalid_grammar}
use jcs_schubfach.Jcsfloat.{format_double}
use jcs_schubfach.Jcstoken.Options.{Options, Limits, limits}
use jcs_schubfach.Jcstoken.Parser.{parse_with_options, initial, fuel_for}
use jcs_schubfach.Jcstoken.State.{Parser, skip_whitespace, new_error}
use jcs_schubfach.Jcstoken.State.Moves.{skip_whitespace-Moves}
use jcs_schubfach.Jcstoken.Value.{
  Value, Elems, Members, null, bool, number, string, array, object, unknown, no_elems, elem,
  no_members, member, count_elems, count_members,
}
use jcs_schubfach.Jcs.Keys.{
  SortableMember, sortable, compare_sort_keys, is_less, insert_member, sort_members,
}
use jcs_schubfach.Jcs.Serialize.{
  Writer, serialize_number, write_members, write_object, serialize_value, serialize_array,
  serialize_elems, writers, serialize_into, canonicalize_with_options,
}
use jcs_schubfach.Jcs.Validate.{
  enter_value, validate_key, validate_value_tree, validate_elems, validate_members,
}
use jcs_schubfach.Jcs.Validate.Parsed.{parse_value-validated}
use jcs_schubfach.Result.{
  Result, ok, err, out_of_fuel, ◌>>=◌, bind-eq-ok, reject-eq-ok, Ensures, Ensures-ok, Ensures-bind,
  Ensures-reject, Ensures-out_of_fuel, holds, rejected,
}

-- A run that gives a result.
abbrev pub Succeeds {ℓ} : {A : Type ℓ} → Result A → Type ℓ
Succeeds {A = A} r = (a : A) × (r ≡ ok a)

-- A writer that never fails.
abbrev pub Writes : Writer → Type 0
Writes w = (buf : Bytes) → Succeeds (w buf)

Succeeds-bind :
    {A B : Type 0} (m : Result A) (f : A → Result B)
    → Succeeds m
    → ((a : A) → Succeeds (f a))
    → Succeeds (m >>= f)
Succeeds-bind m f (a, e) k = rw e (k a)

-- A finite double has a canonical form.
pub format_double-Succeeds : (f : ℕ) → (is_nan f || is_inf f) ≡ false → Succeeds (format_double f)
unfolding format_double
format_double-Succeeds f h =
    let (no_nan, no_inf) = or-false (is_nan f) (is_inf f) h in
    elim (Bool-cases (is_zero f)) [
      | inl zero_f ↦ rw (no_nan, zero_f) (_, refl)
      | inr other ↦ rw (no_nan, other, no_inf) (_, refl)
    ]

abbrev AllWrite : List (SortableMember Writer) → Type 0
AllWrite [] = Unit
AllWrite (m ∷ ms) = Writes m.value × AllWrite ms

insert_member-AllWrite :
    (m : SortableMember Writer) (ms : List (SortableMember Writer))
    → Writes m.value
    → AllWrite ms
    → AllWrite (insert_member m ms)
unfolding insert_member
insert_member-AllWrite m [] w h = (w, tt)
insert_member-AllWrite m (n ∷ ns) w h = elim (Bool-cases (is_less (compare_sort_keys n m))) [
  | inl e ↦ rw e (h.0, insert_member-AllWrite m ns w h.1)
  | inr e ↦ rw e (w, h)
]

sort_members-AllWrite :
    (ms : List (SortableMember Writer)) → AllWrite ms → AllWrite (sort_members ms)
unfolding sort_members
sort_members-AllWrite [] h = tt
sort_members-AllWrite (m ∷ ms) h =
    insert_member-AllWrite m (sort_members ms) h.0 (sort_members-AllWrite ms h.1)

write_members-Writes : (ms : List (SortableMember Writer)) → AllWrite ms → Writes (write_members ms)
unfolding write_members
write_members-Writes [] h buf = (buf, refl)
write_members-Writes (m ∷ ms) h buf =
    Succeeds-bind (m.value _) (write_members ms) (h.0 _) (write_members-Writes ms h.1)

write_object-Writes : (ms : List (SortableMember Writer)) → AllWrite ms → Writes (write_object ms)
unfolding write_object
write_object-Writes [] h buf = (buf, refl)
write_object-Writes (m ∷ ms) h buf =
    Succeeds-bind (m.value _) (write_members ms) (h.0 _) (write_members-Writes ms h.1)

-- The checks on a value, in the order of the source, behind the count.
module _ (lim : Limits) where
  mutual
    unfolding validate_value_tree serialize_value serialize_number serialize_array serialize_elems
        writers validate_elems validate_members sortable

    value-Writes :
        (v : Value) (d c : ℕ) {n : ℕ}
        → validate_value_tree lim v d c ≡ ok n
        → Writes (serialize_value v)
    value-Writes null d c h buf = (_, refl)
    value-Writes (bool s) d c h buf = (_, refl)
    value-Writes (number f) d c h buf =
        let (i, _, later) = bind-eq-ok (enter_value lim d c) _ h in
        let finite = reject-eq-ok (is_nan f || is_inf f) _ (ok i) later in
        let (s, e) = format_double-Succeeds f finite.0 in (buf ++ s, rw e refl)
    value-Writes (string s) d c h buf = (_, refl)
    value-Writes (array es) d c h buf =
        let (i, _, later) = bind-eq-ok (enter_value lim d c) _ h in
        let within = reject-eq-ok (ltb lim.max_array_elements (count_elems es)) _ _ later in
        array-Writes es (d + 1) i within.1 _
    value-Writes (object ms) d c h buf =
        let (i, _, later) = bind-eq-ok (enter_value lim d c) _ h in
        let within = reject-eq-ok (ltb lim.max_object_members (count_members ms)) _ _ later in
        let all = sort_members-AllWrite (writers ms) (members-AllWrite ms [] (d + 1) i within.1) in
        Succeeds-bind (write_object (sort_members (writers ms)) _) _ (write_object-Writes _ all _)
          (λ out. (_, refl))
    value-Writes (unknown k) d c h buf =
        let (i, _, later) = bind-eq-ok (enter_value lim d c) _ h in cc

    array-Writes :
        (es : Elems) (d c : ℕ) {n : ℕ}
        → validate_elems lim es d c ≡ ok n
        → Writes (serialize_array es)
    array-Writes no_elems d c h buf = (_, refl)
    array-Writes (elem v es) d c h buf =
        let (i, first, later) = bind-eq-ok (validate_value_tree lim v d c) _ h in
        Succeeds-bind (serialize_value v _) (serialize_elems es) (value-Writes v d c first _)
          (elems-Writes es d i later)

    elems-Writes :
        (es : Elems) (d c : ℕ) {n : ℕ}
        → validate_elems lim es d c ≡ ok n
        → Writes (serialize_elems es)
    elems-Writes no_elems d c h buf = (_, refl)
    elems-Writes (elem v es) d c h buf =
        let (i, first, later) = bind-eq-ok (validate_value_tree lim v d c) _ h in
        Succeeds-bind (serialize_value v _) (serialize_elems es) (value-Writes v d c first _)
          (elems-Writes es d i later)

    members-AllWrite :
        (ms : Members) (seen : List Bytes) (d c : ℕ) {n : ℕ}
        → validate_members lim ms seen d c ≡ ok n
        → AllWrite (writers ms)
    members-AllWrite no_members seen d c h = tt
    members-AllWrite (member k v ms) seen d c h =
        let (_, key, later) = bind-eq-ok (validate_key lim seen k) _ h in
        let (i, first, rest) = bind-eq-ok (validate_value_tree lim v d c) _ later in
        (value-Writes v d c first, members-AllWrite ms (k ∷ seen) d i rest)

-- A value that passes `validateValueTree` is written, whatever stands in the buffer.
pub serialize_value-Succeeds :
    (lim : Limits) (v : Value) {n : ℕ} (buf : Bytes)
    → validate_value_tree lim v 0 0 ≡ ok n
    → (out : Bytes) × (serialize_value v buf ≡ ok out)
serialize_value-Succeeds lim v buf h = value-Writes lim v 0 0 h buf

-- What the whole parser gives.
parse_with_options-Ensures :
    (src : Bytes) (opts : Option Options)
    → Ensures
        (λ v. (n : ℕ) × (validate_value_tree (limits opts) v 0 0 ≡ ok n))
        (parse_with_options src opts)
unfolding parse_with_options skip_whitespace
parse_with_options-Ensures src opts =
    let lim = limits opts in
    let start = skip_whitespace (initial src) in
    let skip = skip_whitespace-Moves (initial src) in
    Ensures-reject _ _ λ _. Ensures-reject _ _ λ _.
      Ensures-bind
        (parse_value-validated lim (fuel_for src) start (omega arith) (omega (arith, skip)))
        λ r h. at_end r.0 (skip_whitespace r.1) (r.1.value_count, h.0)
  where
    at_end :
        (v : Value) (q : Parser)
        → ((n : ℕ) × (validate_value_tree (limits opts) v 0 0 ≡ ok n))
        → Ensures
            (λ w. (n : ℕ) × (validate_value_tree (limits opts) w 0 0 ≡ ok n))
            (elim q.rest [ [] ↦ ok v | _ ∷ _ ↦ new_error invalid_grammar q ])
    at_end v q h = go q.rest
      where
        go :
            (s : Bytes)
            → Ensures
                (λ w. (n : ℕ) × (validate_value_tree (limits opts) w 0 0 ≡ ok n))
                (elim s [ [] ↦ ok v | _ ∷ _ ↦ new_error invalid_grammar q ])
        go [] = holds h
        go (b ∷ s) = rejected

-- The parser ends on every input: the fuel that it is given, twice the length of the input and two
-- more, is enough.
pub parse_with_options-ends :
    (src : Bytes) (opts : Option Options) → parse_with_options src opts ≢ out_of_fuel
parse_with_options-ends src opts = Ensures-out_of_fuel (parse_with_options-Ensures src opts)

-- A value that the parser returns passes the serializer's checks under the same options.
pub parse_with_options-validated :
    (src : Bytes) (opts : Option Options) (v : Value)
    → parse_with_options src opts ≡ ok v
    → (n : ℕ) × (validate_value_tree (limits opts) v 0 0 ≡ ok n)
parse_with_options-validated src opts v h = Ensures-ok (parse_with_options-Ensures src opts) h

-- A parse that has ended, and the serializer behind it.
then_serialize :
    (opts : Option Options) (r : Result Value)
    → Ensures (λ v. (n : ℕ) × (validate_value_tree (limits opts) v 0 0 ≡ ok n)) r
    → ((v : Value) × (out : Bytes) × (r ≡ ok v)
        × ((r >>= λ v. serialize_into [] (some v) opts) ≡ ok out))
      ⊎ ((e : Error) × (r ≡ err e) × ((r >>= λ v. serialize_into [] (some v) opts) ≡ err e))
unfolding serialize_into
then_serialize opts (ok v) h =
    let (n, checks) = Ensures-ok h refl in
    let (out, e) = serialize_value-Succeeds (limits opts) v [] checks in
    inl (v, out, refl, rw checks e)
then_serialize opts (err e) h = inr (e, refl, refl)
then_serialize opts out_of_fuel h = absurd (Ensures-out_of_fuel h refl)

-- `CanonicalizeWithOptions` gives an output for every input that the parser accepts, and otherwise
-- the parser's error: the serializer adds no failure of its own.
pub canonicalize_with_options-total :
    (src : Bytes) (opts : Option Options)
    → ((v : Value) × (out : Bytes) × (parse_with_options src opts ≡ ok v)
        × (canonicalize_with_options src opts ≡ ok out))
      ⊎ ((e : Error) × (parse_with_options src opts ≡ err e)
          × (canonicalize_with_options src opts ≡ err e))
unfolding canonicalize_with_options
canonicalize_with_options-total src opts =
    then_serialize opts (parse_with_options src opts) (parse_with_options-Ensures src opts)
