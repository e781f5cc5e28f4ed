-- ===== src/Jcs/Validate/Distinct.antt =====
-- jcs/serialize.go: the keys of the members that `validateValueTree` accepts have different code units.
use mathlib.Core.HLevel.{¬_prop}
use mathlib.Core.List.{Mem, Memᴰ, Pairwise}
use mathlib.Core.Logic.{∥∥₁_elim}
use mathlib.Core.Path.{subst}
use jcs_schubfach.Prelude.{
  ℕ, ◌≡◌, ap, sym, ◌∙◌, true, false, not, not-false, List, [], ◌∷◌, arith, Bytes, All, length,
  equal_iff,
}
use jcs_schubfach.Jcs.Keys.{utf16_key}
use jcs_schubfach.Jcs.Keys.Unique.{KeysDiffer}
use jcs_schubfach.Jcs.Validate.{
  validate_key, validate_string, validate_value_tree, validate_members, wrap_error,
}
use jcs_schubfach.Jcstoken.Options.{Limits}
use jcs_schubfach.Jcstoken.Parser.{mem_key}
use jcs_schubfach.Jcstoken.Value.{Value, Members, no_members, member}
use jcs_schubfach.Result.{
  Result, ok, err, out_of_fuel, bind-eq-ok, reject-eq-ok, Ensures-guard, Ensures-ok,
}
use jcs_schubfach.Unicode.Utf16.{encode}
use jcs_schubfach.Unicode.Utf16.Injective.{encode-inj}
use jcs_schubfach.Unicode.Utf8.{valid, runes}
use jcs_schubfach.Unicode.Utf8.Text.{encode_runes, valid_sound, runes-encode_runes}

-- Valid strings with the same code units are the same.
utf16_key-inj : (j k : Bytes) → valid j ≡ true → valid k ≡ true → utf16_key j ≡ utf16_key k → j ≡ k
utf16_key-inj j k h g e =
    let (rs, scalars, spelt) = valid_sound (length j) j (omega arith) h in
    let (qs, also, spelled) = valid_sound (length k) k (omega arith) g in
    let units_same : encode rs ≡ encode qs =
      ap encode (sym (ap runes spelt ∙ runes-encode_runes rs scalars))
      ∙ e
      ∙ ap encode (ap runes spelled ∙ runes-encode_runes qs also) in
    spelt ∙ ap encode_runes (encode-inj rs qs scalars also units_same) ∙ sym spelled

-- The members of an object as a list.
unfoldable pub entries : Members → List (Bytes × Value)
entries no_members = []
entries (member k v ms) = (k, v) ∷ entries ms

-- What the keys of validated members are, given the keys before them.
abbrev IsNewKey : List Bytes → Bytes → Type 0
IsNewKey seen k = (valid k ≡ true) × (mem_key k seen ≡ false)

validate_key-IsNewKey :
    (lim : Limits) (seen : List Bytes) (k : Bytes) {u : Unit {0}}
    → validate_key lim seen k ≡ ok u
    → IsNewKey seen k
unfolding validate_key validate_string
validate_key-IsNewKey lim seen k h =
    let (_, clean, new) = bind-eq-ok (wrap_error (validate_string k lim.max_string_bytes)) _ h in
    let (valid_key, _) = reject-eq-ok (not (valid k)) _ _ (unwrapped _ clean) in
    (not-false (valid k) valid_key, Ensures-ok (Ensures-guard (mem_key k seen) _) new)
  where
    unwrapped : (r : Result (Unit {0})) {v : Unit {0}} → wrap_error r ≡ ok v → r ≡ ok v
    unwrapped (ok u) e = e
    unwrapped (err x) e = cc
    unwrapped out_of_fuel e = cc

All-Mem {ℓ κ} :
    {A : Type ℓ} {P : A → Type κ}
    → ((a : A) → IsProp (P a))
    → (xs : List A) → All P xs
    → (a : A) → Mem a xs
    → P a
All-Mem {A = A} {P = P} prop xs h a m = ∥∥₁_elim m (prop a) (go xs h)
  where
    go : (ys : List A) → All P ys → Memᴰ a ys → P a
    go [] h m = elim m [ ]
    go (y ∷ ys) h (Memᴰ.head e) = subst P (sym e) h.0
    go (y ∷ ys) h (Memᴰ.tail m) = go ys h.1 m

-- Keys that are new to `k ∷ seen` are new to `seen`, and different from `k`.
keys_apart :
    (seen : List Bytes) (k : Bytes) (v : Value) (es : List (Bytes × Value))
    → valid k ≡ true
    → All (λ e. IsNewKey (k ∷ seen) e.0) es
    → All (λ e. IsNewKey seen e.0) es × All (KeysDiffer (k, v)) es
unfolding mem_key
keys_apart seen k v [] good h = (tt, tt)
keys_apart seen k v ((j, w) ∷ es) good ((fine, new), rest) =
    let (later, differ) = keys_apart seen k v es good rest in
    (((fine, ground arith), later), ((λ e. unequal (utf16_key-inj k j good fine e)), differ))
  where
    unequal : k ≡ j → ⊥
    unequal e = ground (arith, equal_iff j k, new, sym e)

pub members-KeysDiffer :
    (lim : Limits) (ms : Members) (seen : List Bytes) (depth values : ℕ) {n : ℕ}
    → validate_members lim ms seen depth values ≡ ok n
    → All (λ e. IsNewKey seen e.0) (entries ms) × Pairwise KeysDiffer (entries ms)
unfolding validate_members entries
members-KeysDiffer lim no_members seen depth values h = (tt, Pairwise.nil)
members-KeysDiffer lim (member k v ms) seen depth values h =
    let (_, key, rest) = bind-eq-ok (validate_key lim seen k) _ h in
    let (n, value, later) = bind-eq-ok (validate_value_tree lim v depth values) _ rest in
    let here = validate_key-IsNewKey lim seen k key in
    let (new, apart) = members-KeysDiffer lim ms (k ∷ seen) depth n later in
    let (also, differ) = keys_apart seen k v (entries ms) here.0 new in
    ((here, also), Pairwise.cons (All-Mem (λ e. ¬_prop) (entries ms) differ) apart)
