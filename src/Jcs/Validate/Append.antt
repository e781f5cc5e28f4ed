-- ===== src/Jcs/Validate/Append.antt =====
-- jcs/serialize.go: the checks of `validateValueTree` on a list that grows at its end, and on text.
use mathlib.Core.Path.{subst}
use jcs_schubfach.Prelude.{
  ℕ, suc, ◌+◌, ◌≤◌, ◌≡◌, refl, sym, ap, false, List, [], ◌∷◌, arith, Bytes, length, All, le→ltb,
  or-false, equal,
}
use jcs_schubfach.Jcstoken.Options.{Limits}
use jcs_schubfach.Jcstoken.Parser.{mem_key}
use jcs_schubfach.Jcstoken.Strings.Clean.{Clean, All-Scalar, IsText}
use jcs_schubfach.Jcstoken.Value.{
  Value, Elems, Members, no_elems, elem, no_members, member, snoc_elem, snoc_member, count_elems,
  count_members, keys,
}
use jcs_schubfach.Jcs.Validate.{
  validate_runes, validate_string, enter_value, validate_key, validate_value_tree, validate_elems,
  validate_members,
}
use jcs_schubfach.Result.{ok, reject_if, bind-eq-ok}
use jcs_schubfach.Unicode.Utf16.{is_surrogate}
use jcs_schubfach.Unicode.Utf8.RoundTrip.{Scalar}
use jcs_schubfach.Unicode.Utf8.Text.{valid-encode_runes, runes-encode_runes}

Scalar-not-surrogate : (r : ℕ) → Scalar r → is_surrogate r ≡ false
Scalar-not-surrogate r h = ground arith

validate_runes-Clean : (rs : List ℕ) → All Clean rs → validate_runes rs ≡ ok tt
unfolding validate_runes reject_if
validate_runes-Clean [] h = refl
validate_runes-Clean (r ∷ rs) h =
    rw (h.0.1, Scalar-not-surrogate r h.0.0) (validate_runes-Clean rs h.1)

-- Clean text within the limit passes `validateString`.
pub validate_string-IsText :
    (s : Bytes) (n : ℕ) → IsText s → length s ≤ n → validate_string s n ≡ ok tt
unfolding validate_string reject_if
validate_string-IsText s n (rs, clean, e) h =
    let scalars = All-Scalar rs clean in
    let text = rw (← e) at (runes-encode_runes rs scalars) in
    rw (rw (← e) at (valid-encode_runes rs scalars), le→ltb n (length s) h, text)
      (validate_runes-Clean rs clean)

pub count_elems-snoc :
    (es : Elems) (v : Value) → count_elems (snoc_elem es v) ≡ suc (count_elems es)
unfolding snoc_elem
count_elems-snoc no_elems v = refl
count_elems-snoc (elem w es) v = ap suc (count_elems-snoc es v)

pub count_members-snoc :
    (ms : Members) (k : Bytes) (v : Value)
    → count_members (snoc_member ms k v) ≡ suc (count_members ms)
unfolding snoc_member
count_members-snoc no_members k v = refl
count_members-snoc (member j w ms) k v = ap suc (count_members-snoc ms k v)

ok-injective : {n m : ℕ} → ok n ≡ ok m → n ≡ m
ok-injective h = cc

module _ (lim : Limits) where
  pub enter_value-ok :
      (d c : ℕ) → d ≤ lim.max_depth → c + 1 ≤ lim.max_values → enter_value lim d c ≡ ok (c + 1)
  unfolding enter_value reject_if
  enter_value-ok d c h k = rw (le→ltb lim.max_values (c + 1) k, le→ltb lim.max_depth d h) refl

  pub validate_elems-snoc :
      (es : Elems) (v : Value) (d c : ℕ) {n m : ℕ}
      → validate_elems lim es d c ≡ ok n
      → validate_value_tree lim v d n ≡ ok m
      → validate_elems lim (snoc_elem es v) d c ≡ ok m
  unfolding validate_elems snoc_elem
  validate_elems-snoc no_elems v d c {n} {m} h k =
      let same : c ≡ n = ok-injective h in
      rw (subst (λ i. validate_value_tree lim v d i ≡ ok m) (sym same) k)
  validate_elems-snoc (elem w es) v d c h k =
      let (i, first, later) = bind-eq-ok (validate_value_tree lim w d c) _ h in
      rw first (validate_elems-snoc es v d i later k)

  pub validate_key-ok :
      (k : Bytes) (seen : List Bytes)
      → IsText k
      → length k ≤ lim.max_string_bytes
      → mem_key k seen ≡ false
      → validate_key lim seen k ≡ ok tt
  unfolding validate_key reject_if
  validate_key-ok k seen text fits new = rw (validate_string-IsText k _ text fits, new) refl

  -- The new key is neither among the members' keys nor among those seen before them.
  pub validate_members-snoc :
      (ms : Members) (k : Bytes) (v : Value) (seen : List Bytes) (d c : ℕ) {n m : ℕ}
      → IsText k
      → length k ≤ lim.max_string_bytes
      → mem_key k (keys ms) ≡ false
      → mem_key k seen ≡ false
      → validate_members lim ms seen d c ≡ ok n
      → validate_value_tree lim v d n ≡ ok m
      → validate_members lim (snoc_member ms k v) seen d c ≡ ok m
  unfolding validate_members snoc_member mem_key
  validate_members-snoc no_members k v seen d c {n} {m} text fits new unseen h val =
      let same : c ≡ n = ok-injective h in
      let val' = subst (λ i. validate_value_tree lim v d i ≡ ok m) (sym same) val in
      rw (validate_key-ok k seen text fits unseen, val') refl
  validate_members-snoc (member j w ms) k v seen d c text fits new unseen h val =
      let (_, key, later) = bind-eq-ok (validate_key lim seen j) _ h in
      let (i, first, rest) = bind-eq-ok (validate_value_tree lim w d c) _ later in
      let other = or-false (equal k j) (mem_key k (keys ms)) new in
      let still : mem_key k (j ∷ seen) ≡ false = rw (other.0, unseen) refl in
      rw (key, first) (validate_members-snoc ms k v (j ∷ seen) d i text fits other.1 still rest val)
