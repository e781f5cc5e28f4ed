-- ===== src/Jcs/Serialize/Unordered.antt =====
-- jcs/serialize.go: values that differ in the order of members only are written alike.
use mathlib.Core.HLevel.{¬_prop}
use mathlib.Core.List.{Pairwise, Pairwise-map, Perm}
use mathlib.Core.Logic.{∥∥₁_elim}
use mathlib.Core.Path.{ap₂, fun_ext, subst}
use jcs_schubfach.Prelude.{
  ℕ, ◌+◌, ◌≡◌, ◌≢◌, refl, ap, sym, ◌∙◌, List, [], ◌∷◌, ◌++◌, Bytes, map, Option,
}
use jcs_schubfach.Jcs.Keys.{SortableMember, utf16_key, sortable, sort_members}
use jcs_schubfach.Jcs.Keys.Unique.{KeysDiffer, sortable_entry, sorted_entries-Permᴰ}
use jcs_schubfach.Jcs.Serialize.{
  Writer, serialize_value, serialize_array, serialize_elems, writers, write_object, serialize_into,
  canonicalize_with_options,
}
use jcs_schubfach.Jcs.Serialize.Total.{parse_with_options-validated}
use jcs_schubfach.Jcs.Validate.Distinct.{entries, members-KeysDiffer}
use jcs_schubfach.Jcs.Validate.{
  enter_value, validate_key, validate_value_tree, validate_elems, validate_members,
}
use jcs_schubfach.Jcstoken.Options.{Options, Limits, limits}
use jcs_schubfach.Jcstoken.Parser.{parse_with_options}
use jcs_schubfach.Jcstoken.Value.{
  Value, Elems, Members, array, object, no_elems, elem, no_members, member,
}
use jcs_schubfach.Result.{Result, ok, bind-eq-ok, reject-eq-ok, ◌>>=◌}

-- The same value up to the order of the members of the objects in it.
mutual
  pub data Alike : Value → Value → Type 0 where
    alike_same : {v : Value} → Alike v v
    alike_array : {es fs : Elems} → AlikeElems es fs → Alike (array es) (array fs)
    alike_object :
        {ms ks ns : Members}
        → AlikeMembers ms ks
        → Perm (entries ks) (entries ns)
        → Alike (object ms) (object ns)

  pub data AlikeElems : Elems → Elems → Type 0 where
    alike_no_elems : AlikeElems no_elems no_elems
    alike_elem :
        {v w : Value} {es fs : Elems}
        → Alike v w
        → AlikeElems es fs
        → AlikeElems (elem v es) (elem w fs)

  pub data AlikeMembers : Members → Members → Type 0 where
    alike_no_members : AlikeMembers no_members no_members
    alike_member :
        {k : Bytes} {v w : Value} {ms ns : Members}
        → Alike v w
        → AlikeMembers ms ns
        → AlikeMembers (member k v ms) (member k w ns)

bytes_result_set : IsSet (Result Bytes)
bytes_result_set = hlevel

pub writers-entries :
    (ms : Members) → writers ms ≡ map (sortable_entry serialize_value) (entries ms)
unfolding writers entries
writers-entries no_members = refl
writers-entries (member k v ms) =
    ap (λ ws. sortable k (serialize_value v) ∷ ws) (writers-entries ms)

AlikeMembers-keys :
    {ms ns : Members}
    → AlikeMembers ms ns
    → map (λ e. e.0) (entries ms) ≡ map (λ e. e.0) (entries ns)
unfolding entries
AlikeMembers-keys alike_no_members = refl
AlikeMembers-keys (alike_member {k = k} v ms) = ap (◌∷◌ k) (AlikeMembers-keys ms)

abbrev UnitsDiffer : Bytes → Bytes → Type 0
UnitsDiffer j k = utf16_key j ≢ utf16_key k

pub AlikeMembers-KeysDiffer :
    {ms ns : Members}
    → AlikeMembers ms ns
    → Pairwise KeysDiffer (entries ms)
    → Pairwise KeysDiffer (entries ns)
AlikeMembers-KeysDiffer {ms} {ns} a h = (Pairwise-map (λ _ _. ¬_prop) (λ e. e.0)).0 (
    subst (Pairwise UnitsDiffer) (AlikeMembers-keys a)
      ((Pairwise-map (λ _ _. ¬_prop) (λ e. e.0)).1 h))

-- The members of an object, written in any order.
write_object-Perm :
    (ks ns : Members)
    → Perm (entries ks) (entries ns)
    → Pairwise KeysDiffer (entries ks)
    → (buf : Bytes) → serialize_value (object ks) buf ≡ serialize_value (object ns) buf
unfolding serialize_value
write_object-Perm ks ns p h buf =
    let finish = λ (ws : List (SortableMember Writer)). (do
      out ← write_object ws (buf ++ b'{' ∷ [])
      ok (out ++ b'}' ∷ [])) in
    ap (λ ws. finish (sort_members ws)) (writers-entries ks)
    ∙ ∥∥₁_elim p (bytes_result_set _ _) (λ d. ap finish (sorted_entries-Permᴰ serialize_value d h))
    ∙ sym (ap (λ ws. finish (sort_members ws)) (writers-entries ns))

module _ (lim : Limits) where
  mutual
    unfolding serialize_value validate_value_tree

    value-Alike :
        {v w : Value}
        → Alike v w
        → (depth values : ℕ) {n : ℕ} → validate_value_tree lim v depth values ≡ ok n
        → (buf : Bytes) → serialize_value v buf ≡ serialize_value w buf
    value-Alike alike_same depth values h buf = refl
    value-Alike (alike_array {es = es} a) depth values h buf =
        let (m, _, fit) = bind-eq-ok (enter_value lim depth values) _ h in
        let (_, valid_elems) = reject-eq-ok _ _ (validate_elems lim es (depth + 1) m) fit in
        (elems-Alike a (depth + 1) m valid_elems (buf ++ b'[' ∷ [])).0
    value-Alike (alike_object {ms = ms} {ks = ks} {ns = ns} a p) depth values h buf =
        let (m, _, fit) = bind-eq-ok (enter_value lim depth values) _ h in
        let (_, valid_members) = reject-eq-ok _ _ (validate_members lim ms [] (depth + 1) m) fit in
        let (_, differ) = members-KeysDiffer lim ms [] (depth + 1) m valid_members in
        let same = members-Alike a [] (depth + 1) m valid_members in
        ap
          (λ ws. (do
            out ← write_object (sort_members ws) (buf ++ b'{' ∷ [])
            ok (out ++ b'}' ∷ [])))
          same
        ∙ write_object-Perm ks ns p (AlikeMembers-KeysDiffer a differ) buf

    elems-Alike :
        {es fs : Elems}
        → AlikeElems es fs
        → (depth values : ℕ) {n : ℕ} → validate_elems lim es depth values ≡ ok n
        → (buf : Bytes)
        → (serialize_array es buf ≡ serialize_array fs buf)
          × (serialize_elems es buf ≡ serialize_elems fs buf)
    elems-Alike alike_no_elems depth values h buf = (refl, refl)
    elems-Alike (alike_elem {v = v} {w = w} {es = es} {fs = fs} a as') depth values h buf =
        let (m, here, rest) = bind-eq-ok (validate_value_tree lim v depth values) _ h in
        let tails = λ (out : Bytes). (elems-Alike as' depth m rest out).1 in
        let step = λ (b : Bytes).
          ap (λ r. r >>= serialize_elems es) (value-Alike a depth values here b)
          ∙ ap (λ f. serialize_value w b >>= f) (fun_ext tails) in
        (step buf, step (buf ++ b',' ∷ []))

    members-Alike :
        {ms ns : Members}
        → AlikeMembers ms ns
        → (seen : List Bytes) (depth values : ℕ) {n : ℕ}
        → validate_members lim ms seen depth values ≡ ok n
        → writers ms ≡ writers ns
    members-Alike alike_no_members seen depth values h = refl
    members-Alike (alike_member {k = k} {v = v} {w = w} {ms = ms} {ns = ns} a as') seen depth values
          h =
        let (_, _, rest) = bind-eq-ok (validate_key lim seen k) _ h in
        let (m, here, later) = bind-eq-ok (validate_value_tree lim v depth values) _ rest in
        ap₂ (λ x ws. sortable k x ∷ ws) (fun_ext (value-Alike a depth values here))
          (members-Alike as' (k ∷ seen) depth m later)

-- Two inputs whose values differ in the order of object members only, at any depth, have the same
-- canonical form.
pub canonicalize_with_options-Alike :
    (input other : Bytes) (opts : Option Options) (v w : Value)
    → parse_with_options input opts ≡ ok v
    → parse_with_options other opts ≡ ok w
    → Alike v w
    → canonicalize_with_options input opts ≡ canonicalize_with_options other opts
unfolding canonicalize_with_options serialize_into
canonicalize_with_options-Alike input other opts v w h k a =
    let (_, checks) = parse_with_options-validated input opts v h in
    let (_, also) = parse_with_options-validated other opts w k in
    rw (h, k, checks, also) (value-Alike (limits opts) a 0 0 checks [])
