-- ===== src/Jcs/Canon/Ascending.antt =====
-- jcs/serialize.go with jcstoken/token.go: the order of the members in the output of
-- `CanonicalizeWithOptions`.
use jcs_schubfach.Prelude.{◌+◌, ℕ, ◌≡◌, inl, inr, Bool-cases, Option, Bytes}
use jcs_schubfach.Float64.{Float64}
use jcs_schubfach.Jcstoken.Options.{Options, Limits, limits}
use jcs_schubfach.Jcstoken.Parser.{parse_with_options}
use jcs_schubfach.Jcstoken.Value.{
  Value, Elems, Members, null, bool, number, string, array, object, unknown, no_elems, elem,
  no_members, member,
}
use jcs_schubfach.Jcs.Canon.{
  insert_entry, sort_entries, in_order, elems_in_order, values_in_order, text,
}
use jcs_schubfach.Jcs.Canon.Fits.{Fits, FitsElems, FitsMembers}
use jcs_schubfach.Jcs.Canon.Idempotent.{canonicalize_with_options-text, parse_with_options-Shallow}
use jcs_schubfach.Jcs.Canon.KeyOrder.{
  KeysAscend, entries-KeysNew, values_in_order-KeysNew, sort_entries-KeysAscend,
}
use jcs_schubfach.Jcs.Canon.Numbers.{EachNumber-all}
use jcs_schubfach.Jcs.Canon.Serialized.{validated-Fits}
use jcs_schubfach.Jcs.Canon.Order.{below, in_order-Alike}
use jcs_schubfach.Jcs.Serialize.{canonicalize_with_options}
use jcs_schubfach.Jcs.Serialize.Total.{parse_with_options-validated}
use jcs_schubfach.Jcs.Serialize.Unordered.{Alike}
use jcs_schubfach.Result.{ok}

unfoldable mutual
  -- The keys of each object in the value ascend.
  pub Ascending : Value → Type 0
  Ascending (array es) = AscendingElems es
  Ascending (object ms) = KeysAscend ms × AscendingValues ms
  Ascending _ = Unit

  pub AscendingElems : Elems → Type 0
  AscendingElems no_elems = Unit
  AscendingElems (elem v es) = Ascending v × AscendingElems es

  pub AscendingValues : Members → Type 0
  AscendingValues no_members = Unit
  AscendingValues (member k v ms) = Ascending v × AscendingValues ms

insert_entry-AscendingValues :
    (k : Bytes) (v : Value) (ms : Members)
    → Ascending v
    → AscendingValues ms
    → AscendingValues (insert_entry k v ms)
unfolding insert_entry AscendingValues
insert_entry-AscendingValues k v no_members a h = (a, tt)
insert_entry-AscendingValues k v (member j w ms) a (b, h) = elim (Bool-cases (below j k)) [
  | inl e ↦ rw e (b, insert_entry-AscendingValues k v ms a h)
  | inr e ↦ rw e (a, (b, h))
]

sort_entries-AscendingValues :
    (ms : Members) → AscendingValues ms → AscendingValues (sort_entries ms)
unfolding sort_entries AscendingValues
sort_entries-AscendingValues no_members h = tt
sort_entries-AscendingValues (member k v ms) (a, h) =
    insert_entry-AscendingValues k v (sort_entries ms) a (sort_entries-AscendingValues ms h)

module _ (lim : Limits) (P : Float64 → Type 0) where
  mutual
    unfolding Fits FitsElems FitsMembers Ascending AscendingElems AscendingValues in_order
        elems_in_order values_in_order

    in_order-Ascending : (d : ℕ) (v : Value) → Fits lim P d v → Ascending (in_order v)
    in_order-Ascending d null h = tt
    in_order-Ascending d (bool s) h = tt
    in_order-Ascending d (number f) h = tt
    in_order-Ascending d (string s) h = tt
    in_order-Ascending d (array es) (_, _, fit) = elems_in_order-Ascending (d + 1) es fit
    in_order-Ascending d (object ms) (_, _, differ, fit) = (
      sort_entries-KeysAscend (values_in_order ms)
          (values_in_order-KeysNew ms (entries-KeysNew ms differ)),
      sort_entries-AscendingValues (values_in_order ms) (values_in_order-Ascending (d + 1) ms fit),
    )
    in_order-Ascending d (unknown k) h = tt

    elems_in_order-Ascending :
        (d : ℕ) (es : Elems) → FitsElems lim P d es → AscendingElems (elems_in_order es)
    elems_in_order-Ascending d no_elems h = tt
    elems_in_order-Ascending d (elem v es) (fit, fits) =
        (in_order-Ascending d v fit, elems_in_order-Ascending d es fits)

    values_in_order-Ascending :
        (d : ℕ) (ms : Members) → FitsMembers lim P d ms → AscendingValues (values_in_order ms)
    values_in_order-Ascending d no_members h = tt
    values_in_order-Ascending d (member k v ms) (_, fit, fits) =
        (in_order-Ascending d v fit, values_in_order-Ascending d ms fits)

-- The output of `CanonicalizeWithOptions` for an input that the parser accepts is the text of a value
-- that differs from the parsed one only in the order of object members, and in which, in each object
-- at any depth, each key comes strictly before the next by its UTF-16 code units.
pub canonicalize_with_options-Ascending :
    (input : Bytes) (opts : Option Options) (v : Value)
    → parse_with_options input opts ≡ ok v
    → (w : Value) × (canonicalize_with_options input opts ≡ ok (text w)) × Alike v w × Ascending w
canonicalize_with_options-Ascending input opts v parsed =
    let (n, checks) = parse_with_options-validated input opts v parsed in
    let low = parse_with_options-Shallow input opts v parsed in
    let (fit, _) =
      validated-Fits v opts low (λ _. Unit {0}) n checks (EachNumber-all (λ _. tt) v) in
    (
      in_order v,
      canonicalize_with_options-text input opts v parsed,
      in_order-Alike v,
      in_order-Ascending (limits opts) (λ _. Unit {0}) 0 v fit,
    )
