-- ===== src/Jcs/Canon/Written.antt =====
-- jcs/serialize.go: `serializeValue` writes the text of the value with its members in order.
use mathlib.Core.Path.{ap₂, fun_ext}
use jcs_schubfach.Prelude.{
  ℕ, ◌+◌, ◌≡◌, refl, ap, sym, ◌∙◌, inl, inr, Bool-cases, List, [], ◌∷◌, ◌++◌, append_assoc, Bytes,
}
use jcs_schubfach.Float64.{Float64}
use jcs_schubfach.Jcstoken.Options.{Limits}
use jcs_schubfach.Jcstoken.Strings.Clean.{All-Scalar}
use jcs_schubfach.Jcstoken.Value.{
  Value, Elems, Members, null, bool, number, string, array, object, unknown, no_elems, elem,
  no_members, member,
}
use jcs_schubfach.Jcs.Canon.{
  insert_entry, sort_entries, in_order, elems_in_order, values_in_order, number_text, quoted, text,
  elems_text, more_elems, members_text, more_members,
}
use jcs_schubfach.Jcs.Canon.Fits.{FitsString, Fits, FitsElems, FitsMembers}
use jcs_schubfach.Jcs.Canon.Order.{below, sort_entries-FitsMembers, values_in_order-Fits}
use jcs_schubfach.Jcs.Escape.{serialize_string}
use jcs_schubfach.Jcs.Escape.Forms.{serialize_string-forms}
use jcs_schubfach.Jcs.Keys.{SortableMember, sortable, is_less, insert_member, sort_members}
use jcs_schubfach.Jcs.Keys.Sorted.{compare_sort_keys-utf16}
use jcs_schubfach.Jcs.Serialize.{
  Writer, serialize_number, write_members, write_object, serialize_value, serialize_array,
  serialize_elems, writers,
}
use jcs_schubfach.Jcs.Serialize.Total.{format_double-Succeeds}
use jcs_schubfach.Result.{Result, ok, ◌>>=◌}

-- The writer of a text, and those of members that are written as they stand.
abbrev puts : Bytes → Writer
puts s buf = ok (buf ++ s)

unfoldable plain : Members → List (SortableMember Writer)
plain no_members = []
plain (member k v ms) = sortable k (puts (text v)) ∷ plain ms

insert_member-plain :
    (k : Bytes) (v : Value) (ms : Members)
    → insert_member (sortable k (puts (text v))) (plain ms) ≡ plain (insert_entry k v ms)
unfolding insert_member insert_entry plain
insert_member-plain k v no_members = refl
insert_member-plain k v (member j w ms) =
    let test = ap is_less (compare_sort_keys-utf16 j k (puts (text w)) (puts (text v))) in
    elim (Bool-cases (below j k)) [
      | inl e ↦
          rw (test, e) (ap (λ ns. sortable j (puts (text w)) ∷ ns) (insert_member-plain k v ms))
      | inr e ↦ rw (test, e) refl
    ]

sort_members-plain : (ms : Members) → sort_members (plain ms) ≡ plain (sort_entries ms)
unfolding sort_members sort_entries plain
sort_members-plain no_members = refl
sort_members-plain (member k v ms) =
    ap (insert_member (sortable k (puts (text v)))) (sort_members-plain ms)
    ∙ insert_member-plain k v (sort_entries ms)

module _ (lim : Limits) (P : Float64 → Type 0) where
  pub quoted-onto : (buf s : Bytes) → FitsString lim s → serialize_string buf s ≡ buf ++ quoted s
  quoted-onto buf s ((rs, clean, e), _) =
      let scalars = All-Scalar rs clean in
      ap (serialize_string buf) e
      ∙ serialize_string-forms buf rs scalars
      ∙ ap (λ t. buf ++ t) (sym (ap (serialize_string []) e ∙ serialize_string-forms [] rs scalars))

  abbrev closed : Result Bytes → Result Bytes
  closed r = do out ← r; ok (out ++ b'}' ∷ [])

  write_members-plain :
      (d : ℕ) (ms : Members) (buf : Bytes)
      → FitsMembers lim P d ms
      → closed (write_members (plain ms) buf) ≡ ok (buf ++ more_members ms)
  unfolding write_members plain more_members FitsMembers sortable
  write_members-plain d no_members buf h = refl
  write_members-plain d (member k v ms) buf h =
      rw (quoted-onto (buf ++ b',' ∷ []) k h.0)
        (write_members-plain d ms _ h.2 ∙ ap ok (simp append_assoc))

  write_object-plain :
      (d : ℕ) (ms : Members) (buf : Bytes)
      → FitsMembers lim P d ms
      → closed (write_object (plain ms) buf) ≡ ok (buf ++ members_text ms)
  unfolding write_object plain members_text FitsMembers sortable
  write_object-plain d no_members buf h = refl
  write_object-plain d (member k v ms) buf h =
      rw (quoted-onto buf k h.0) (write_members-plain d ms _ h.2 ∙ ap ok (simp append_assoc))

  mutual
    unfolding serialize_value serialize_number serialize_array serialize_elems writers plain
        in_order elems_in_order values_in_order text elems_text more_elems number_text Fits
        FitsElems FitsMembers

    -- A value within the limits is written as its text, behind what stands in the buffer.
    pub serialize_value-text :
        (d : ℕ) (v : Value)
        → Fits lim P d v
        → (buf : Bytes) → serialize_value v buf ≡ ok (buf ++ text (in_order v))
    serialize_value-text d null h buf = refl
    serialize_value-text d (bool s) h buf = refl
    serialize_value-text d (number f) h buf = let (s, e) = format_double-Succeeds f h.1 in rw e refl
    serialize_value-text d (string s) h buf = ap ok (quoted-onto buf s h.1)
    serialize_value-text d (array es) h buf =
        (serialize_elems-text (d + 1) es h.2 (buf ++ b'[' ∷ [])).0 ∙ ap ok (simp append_assoc)
    serialize_value-text d (object ms) h buf =
        let ns = values_in_order ms in
        let fit = (values_in_order-Fits lim P (d + 1) ms h.3).0 in
        ap (λ ws. closed (write_object (sort_members ws) (buf ++ b'{' ∷ [])))
          (writers-plain (d + 1) ms h.3)
        ∙ ap (λ ws. closed (write_object ws (buf ++ b'{' ∷ []))) (sort_members-plain ns)
        ∙ write_object-plain (d + 1) (sort_entries ns) (buf ++ b'{' ∷ [])
            (sort_entries-FitsMembers lim P (d + 1) ns fit)
        ∙ ap ok (simp append_assoc)
    serialize_value-text d (unknown k) h buf = absurd h

    serialize_elems-text :
        (d : ℕ) (es : Elems)
        → FitsElems lim P d es
        → (buf : Bytes)
        → (serialize_array es buf ≡ ok (buf ++ elems_text (elems_in_order es)))
          × (serialize_elems es buf ≡ ok (buf ++ more_elems (elems_in_order es)))
    serialize_elems-text d no_elems h buf = (refl, refl)
    serialize_elems-text d (elem v es) h buf =
        let step = λ (b : Bytes).
          ap (λ r. r >>= serialize_elems es) (serialize_value-text d v h.0 b)
          ∙ (serialize_elems-text d es h.1 (b ++ text (in_order v))).1 in
        (step buf ∙ ap ok (simp append_assoc), step (buf ++ b',' ∷ []) ∙ ap ok (simp append_assoc))

    writers-plain :
        (d : ℕ) (ms : Members) → FitsMembers lim P d ms → writers ms ≡ plain (values_in_order ms)
    writers-plain d no_members h = refl
    writers-plain d (member k v ms) h =
        ap₂ (λ w ws. sortable k w ∷ ws) (fun_ext (serialize_value-text d v h.1))
          (writers-plain d ms h.2)
