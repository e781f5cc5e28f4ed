-- ===== src/Jcs/Canon/Order.antt =====
-- The members in order: the same value up to their order, within the same limits.
use mathlib.Core.HLevel.{¬_prop}
use mathlib.Core.List.Perm
use mathlib.Core.List.{Perm}
use jcs_schubfach.Prelude.{
  ℕ, suc, ◌+◌, ◌≡◌, refl, sym, inl, inr, Bool, Bool-cases, [], ◌∷◌, arith, Bytes,
}
use jcs_schubfach.Float64.{Float64}
use jcs_schubfach.Jcstoken.Options.{Limits}
use jcs_schubfach.Jcstoken.Value.{
  Value, Elems, Members, null, bool, number, string, array, object, unknown, no_elems, elem,
  no_members, member, count_elems, count_members,
}
use jcs_schubfach.Jcs.Canon.{
  insert_entry, sort_entries, in_order, elems_in_order, values_in_order, size, elems_size,
  members_size,
}
use jcs_schubfach.Jcs.Canon.Fits.{FitsString, Fits, FitsElems, FitsMembers}
use jcs_schubfach.Jcs.Keys.{compare_units, utf16_key, is_less}
use jcs_schubfach.Jcs.Serialize.Unordered.{
  Alike, AlikeElems, AlikeMembers, alike_same, alike_array, alike_object, alike_no_elems,
  alike_elem, alike_no_members, alike_member, AlikeMembers-KeysDiffer,
}
use jcs_schubfach.Jcs.Validate.Distinct.{entries}

abbrev pub below : Bytes → Bytes → Bool
below j k = is_less (compare_units (utf16_key j) (utf16_key k))

insert_entry-perm :
    (k : Bytes) (v : Value) (ms : Members)
    → Perm (entries (insert_entry k v ms)) ((k, v) ∷ entries ms)
unfolding insert_entry entries
insert_entry-perm k v no_members = Perm.refl ((k, v) ∷ [])
insert_entry-perm k v (member j w ms) = elim (Bool-cases (below j k)) [
  | inl e ↦ rw e (
      Perm.trans (Perm.cons (j, w) (insert_entry-perm k v ms))
        (Perm.swap (k, v) (j, w) (entries ms)))
  | inr e ↦ rw e (Perm.refl ((k, v) ∷ (j, w) ∷ entries ms))
]

sort_entries-perm : (ms : Members) → Perm (entries (sort_entries ms)) (entries ms)
unfolding sort_entries entries
sort_entries-perm no_members = Perm.refl []
sort_entries-perm (member k v ms) =
    Perm.trans (insert_entry-perm k v (sort_entries ms)) (Perm.cons (k, v) (sort_entries-perm ms))

-- Whatever is summed up over members is kept.
insert_entry-sums :
    (k : Bytes) (v : Value) (ms : Members)
    → (count_members (insert_entry k v ms) ≡ suc (count_members ms))
      × (members_size (insert_entry k v ms) ≡ size v + members_size ms)
unfolding insert_entry members_size
insert_entry-sums k v no_members = (refl, refl)
insert_entry-sums k v (member j w ms) = elim (Bool-cases (below j k)) [
  | inl e ↦ rw e (omega (arith, insert_entry-sums k v ms))
  | inr e ↦ rw e (refl, refl)
]

sort_entries-sums :
    (ms : Members)
    → (count_members (sort_entries ms) ≡ count_members ms)
      × (members_size (sort_entries ms) ≡ members_size ms)
unfolding sort_entries members_size
sort_entries-sums no_members = (refl, refl)
sort_entries-sums (member k v ms) =
    omega (arith, insert_entry-sums k v (sort_entries ms), sort_entries-sums ms)

mutual
  unfolding in_order elems_in_order values_in_order

  pub in_order-Alike : (v : Value) → Alike v (in_order v)
  in_order-Alike null = alike_same
  in_order-Alike (bool s) = alike_same
  in_order-Alike (number f) = alike_same
  in_order-Alike (string s) = alike_same
  in_order-Alike (array es) = alike_array (elems_in_order-Alike es)
  in_order-Alike (object ms) =
      alike_object (values_in_order-Alike ms) (Perm.symm (sort_entries-perm (values_in_order ms)))
  in_order-Alike (unknown k) = alike_same

  elems_in_order-Alike : (es : Elems) → AlikeElems es (elems_in_order es)
  elems_in_order-Alike no_elems = alike_no_elems
  elems_in_order-Alike (elem v es) = alike_elem (in_order-Alike v) (elems_in_order-Alike es)

  values_in_order-Alike : (ms : Members) → AlikeMembers ms (values_in_order ms)
  values_in_order-Alike no_members = alike_no_members
  values_in_order-Alike (member k v ms) = alike_member (in_order-Alike v) (values_in_order-Alike ms)

module _ (lim : Limits) (P : Float64 → Type 0) where
  insert_entry-FitsMembers :
      (d : ℕ) (k : Bytes) (v : Value) (ms : Members)
      → FitsString lim k
      → Fits lim P d v
      → FitsMembers lim P d ms
      → FitsMembers lim P d (insert_entry k v ms)
  unfolding insert_entry FitsMembers
  insert_entry-FitsMembers d k v no_members key fit h = (key, fit, tt)
  insert_entry-FitsMembers d k v (member j w ms) key fit h = elim (Bool-cases (below j k)) [
    | inl e ↦ rw e (h.0, h.1, insert_entry-FitsMembers d k v ms key fit h.2)
    | inr e ↦ rw e (key, fit, h)
  ]

  pub sort_entries-FitsMembers :
      (d : ℕ) (ms : Members) → FitsMembers lim P d ms → FitsMembers lim P d (sort_entries ms)
  unfolding sort_entries FitsMembers
  sort_entries-FitsMembers d no_members h = tt
  sort_entries-FitsMembers d (member k v ms) h =
      insert_entry-FitsMembers d k v (sort_entries ms) h.0 h.1 (sort_entries-FitsMembers d ms h.2)

  mutual
    unfolding in_order elems_in_order values_in_order Fits FitsElems FitsMembers size elems_size
        members_size

    pub in_order-Fits :
        (d : ℕ) (v : Value)
        → Fits lim P d v
        → Fits lim P d (in_order v) × (size (in_order v) ≡ size v)
    in_order-Fits d null h = (h, refl)
    in_order-Fits d (bool s) h = (h, refl)
    in_order-Fits d (number f) h = (h, refl)
    in_order-Fits d (string s) h = (h, refl)
    in_order-Fits d (array es) (deep, few, h) =
        let (fit, count, same) = elems_in_order-Fits (d + 1) es h in
        ((deep, omega (arith, few, count), fit), omega (arith, same))
    in_order-Fits d (object ms) (deep, few, differ, h) =
        let ns = values_in_order ms in
        let (fit, count, same) = values_in_order-Fits (d + 1) ms h in
        let sums = sort_entries-sums ns in
        let apart =
          Perm.pairwise (λ a b. ¬_prop) (λ a b n e. n (sym e)) (Perm.symm (sort_entries-perm ns))
            (AlikeMembers-KeysDiffer (values_in_order-Alike ms) differ) in
        (
          (deep, omega (arith, few, count, sums), apart, sort_entries-FitsMembers (d + 1) ns fit),
          omega (arith, same, sums),
        )
    in_order-Fits d (unknown k) h = absurd h

    elems_in_order-Fits :
        (d : ℕ) (es : Elems)
        → FitsElems lim P d es
        → FitsElems lim P d (elems_in_order es)
          × (count_elems (elems_in_order es) ≡ count_elems es)
          × (elems_size (elems_in_order es) ≡ elems_size es)
    elems_in_order-Fits d no_elems h = (tt, refl, refl)
    elems_in_order-Fits d (elem v es) h =
        let (fit, same) = in_order-Fits d v h.0 in
        let (fits, count, more) = elems_in_order-Fits d es h.1 in
        ((fit, fits), omega (arith, count), omega (arith, same, more))

    pub values_in_order-Fits :
        (d : ℕ) (ms : Members)
        → FitsMembers lim P d ms
        → FitsMembers lim P d (values_in_order ms)
          × (count_members (values_in_order ms) ≡ count_members ms)
          × (members_size (values_in_order ms) ≡ members_size ms)
    values_in_order-Fits d no_members h = (tt, refl, refl)
    values_in_order-Fits d (member k v ms) h =
        let (fit, same) = in_order-Fits d v h.1 in
        let (fits, count, more) = values_in_order-Fits d ms h.2 in
        ((h.0, fit, fits), omega (arith, count), omega (arith, same, more))
