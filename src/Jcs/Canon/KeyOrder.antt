-- ===== src/Jcs/Canon/KeyOrder.antt =====
-- jcs/serialize.go: members put in order by keys of different code units.
use mathlib.Core.List.{Mem, mem-cons_self, mem-cons_of_mem, Pairwise}
use jcs_schubfach.Prelude.{◌≢◌, sym, inl, inr, Bool-cases, Bytes}
use jcs_schubfach.Jcstoken.Value.{Value, Members, no_members, member}
use jcs_schubfach.Jcs.Canon.{insert_entry, sort_entries, values_in_order}
use jcs_schubfach.Jcs.Canon.Order.{below}
use jcs_schubfach.Jcs.Keys.{utf16_key}
use jcs_schubfach.Jcs.Keys.Before.{Before, less-Before, not_less-Before}
use jcs_schubfach.Jcs.Keys.Unique.{KeysDiffer}
use jcs_schubfach.Jcs.Validate.Distinct.{entries}

-- The key comes before that of the first member.
abbrev pub BeforeFirst : Bytes → Members → Type 0
BeforeFirst k no_members = Unit
BeforeFirst k (member j w ms) = Before (utf16_key k) (utf16_key j)

-- Each key comes strictly before the next, by the UTF-16 code units.
abbrev pub KeysAscend : Members → Type 0
KeysAscend no_members = Unit
KeysAscend (member k v ms) = BeforeFirst k ms × KeysAscend ms

-- No member has the code units of this key.
abbrev pub NewKey : Bytes → Members → Type 0
NewKey k no_members = Unit
NewKey k (member j w ms) = (utf16_key k ≢ utf16_key j) × NewKey k ms

abbrev pub KeysNew : Members → Type 0
KeysNew no_members = Unit
KeysNew (member k v ms) = NewKey k ms × KeysNew ms

entries-NewKey :
    (k : Bytes) (v : Value) (ms : Members)
    → ((e : Bytes × Value) → Mem e (entries ms) → KeysDiffer (k, v) e)
    → NewKey k ms
unfolding entries
entries-NewKey k v no_members h = tt
entries-NewKey k v (member j w ms) h =
    (h (j, w) mem-cons_self, entries-NewKey k v ms (λ e m. h e (mem-cons_of_mem (j, w) m)))

pub entries-KeysNew : (ms : Members) → Pairwise KeysDiffer (entries ms) → KeysNew ms
unfolding entries
entries-KeysNew no_members h = tt
entries-KeysNew (member k v ms) (Pairwise.cons h t) =
    (entries-NewKey k v ms h, entries-KeysNew ms t)

-- The values put in order have the same keys.
values_in_order-NewKey : (k : Bytes) (ms : Members) → NewKey k ms → NewKey k (values_in_order ms)
unfolding values_in_order
values_in_order-NewKey k no_members h = tt
values_in_order-NewKey k (member j w ms) (ne, h) = (ne, values_in_order-NewKey k ms h)

pub values_in_order-KeysNew : (ms : Members) → KeysNew ms → KeysNew (values_in_order ms)
unfolding values_in_order
values_in_order-KeysNew no_members h = tt
values_in_order-KeysNew (member k v ms) (new, h) =
    (values_in_order-NewKey k ms new, values_in_order-KeysNew ms h)

insert_entry-NewKey :
    (j k : Bytes) (v : Value) (ms : Members)
    → utf16_key j ≢ utf16_key k
    → NewKey j ms
    → NewKey j (insert_entry k v ms)
unfolding insert_entry
insert_entry-NewKey j k v no_members ne h = (ne, tt)
insert_entry-NewKey j k v (member i w ms) ne (other, h) = elim (Bool-cases (below i k)) [
  | inl e ↦ rw e (other, insert_entry-NewKey j k v ms ne h)
  | inr e ↦ rw e (ne, (other, h))
]

sort_entries-NewKey : (j : Bytes) (ms : Members) → NewKey j ms → NewKey j (sort_entries ms)
unfolding sort_entries
sort_entries-NewKey j no_members h = tt
sort_entries-NewKey j (member k v ms) (ne, h) =
    insert_entry-NewKey j k v (sort_entries ms) ne (sort_entries-NewKey j ms h)

insert_entry-BeforeFirst :
    (j k : Bytes) (v : Value) (ms : Members)
    → Before (utf16_key j) (utf16_key k)
    → BeforeFirst j ms
    → BeforeFirst j (insert_entry k v ms)
unfolding insert_entry
insert_entry-BeforeFirst j k v no_members b h = b
insert_entry-BeforeFirst j k v (member i w ms) b h = elim (Bool-cases (below i k)) [
  | inl e ↦ rw e h
  | inr e ↦ rw e b
]

insert_entry-KeysAscend :
    (k : Bytes) (v : Value) (ms : Members)
    → NewKey k ms
    → KeysAscend ms
    → KeysAscend (insert_entry k v ms)
unfolding insert_entry
insert_entry-KeysAscend k v no_members new h = (tt, tt)
insert_entry-KeysAscend k v (member j w ms) (ne, new) (first, h) = elim (Bool-cases (below j k)) [
  | inl e ↦
      let b = less-Before (utf16_key j) (utf16_key k) e in
      rw e (insert_entry-BeforeFirst j k v ms b first, insert_entry-KeysAscend k v ms new h)
  | inr e ↦
      let b = not_less-Before (utf16_key j) (utf16_key k) (λ f. ne (sym f)) e in
      rw e (b, (first, h))
]

pub sort_entries-KeysAscend : (ms : Members) → KeysNew ms → KeysAscend (sort_entries ms)
unfolding sort_entries
sort_entries-KeysAscend no_members h = tt
sort_entries-KeysAscend (member k v ms) (new, h) =
    insert_entry-KeysAscend k v (sort_entries ms) (sort_entries-NewKey k ms new)
      (sort_entries-KeysAscend ms h)
