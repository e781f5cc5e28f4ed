-- ===== src/Jcs/Keys/Sorted.antt =====
-- jcs/serialize.go: the fast path for ASCII keys, and the members that the sort is given.
use mathlib.Core.Path.{ap₂}
use jcs_schubfach.Prelude.{
  ℕ, ◌<◌, ◌≡◌, refl, ap, sym, ◌∙◌, inl, inr, true, false, Bool-cases, and-true, List, [], ◌∷◌,
  arith, ltb, Bytes,
}
use jcs_schubfach.Jcs.Keys.{
  is_ascii, compare_units, utf16_key, SortableMember, sortable, units_of, compare_sort_keys,
  is_less, insert_member, sort_members,
}
use jcs_schubfach.Unicode.Utf16.{units, encode}
use jcs_schubfach.Unicode.Utf8.{decode_rune, runes_from}

decode_rune-ascii : (b : ℕ) (s : Bytes) → b < 0x80 → decode_rune (b ∷ s) ≡ (b, 1)
unfolding decode_rune
decode_rune-ascii b s h = ground arith

units-ascii : (b : ℕ) → b < 0x80 → units b ≡ b ∷ []
unfolding units
units-ascii b h = ground arith

-- The code units of an ASCII string are its bytes.
utf16_key-ascii : (k : Bytes) → is_ascii k ≡ true → utf16_key k ≡ k
unfolding is_ascii runes_from encode
utf16_key-ascii [] h = refl
utf16_key-ascii (b ∷ k) h =
    let (low, rest) = and-true (ltb b 0x80) (is_ascii k) h in
    rw (decode_rune-ascii b k (ground arith), units-ascii b (ground arith))
      (ap (◌∷◌ b) (utf16_key-ascii k rest))

-- The members that `serializeObject` sorts: the code units of a member are those of its key.
module _ {A : Type 0} where
  units_of-sortable : (k : Bytes) (v : A) → units_of (sortable k v) ≡ utf16_key k
  unfolding sortable
  units_of-sortable k v = elim (Bool-cases (is_ascii k)) [
    | inl ascii ↦ rw ascii refl
    | inr other ↦ rw other refl
  ]

  -- `compareSortKeys` compares the UTF-16 code units of the two keys, also where it looks only at
  -- their bytes.
  pub compare_sort_keys-utf16 :
      (j k : Bytes) (v w : A)
      → compare_sort_keys (sortable j v) (sortable k w) ≡ compare_units (utf16_key j) (utf16_key k)
  unfolding compare_sort_keys sortable
  compare_sort_keys-utf16 j k v w = elim (Bool-cases (is_ascii j)) [
    | inr e ↦ rw e (ap (compare_units (utf16_key j)) (units_of-sortable k w))
    | inl e ↦ elim (Bool-cases (is_ascii k)) [
      | inr f ↦ rw (e, f) refl
      | inl f ↦ rw (e, f) (sym (ap₂ compare_units (utf16_key-ascii j e) (utf16_key-ascii k f)))
    ]
  ]

-- Of two lists of code units at most one is below the other.
pub compare_units-asym :
    (us vs : List ℕ) → is_less (compare_units us vs) ≡ true → is_less (compare_units vs us) ≡ false
unfolding compare_units
compare_units-asym [] [] h = refl
compare_units-asym [] (v ∷ vs) h = refl
compare_units-asym (u ∷ us) [] h = cc
compare_units-asym (u ∷ us) (v ∷ vs) h = ground (arith, compare_units-asym us vs)

module _ {A : Type 0} where
  -- As the loop in front of the sort makes it.
  abbrev pub IsSortable : SortableMember A → Type 0
  IsSortable m = m ≡ sortable m.key m.value

  abbrev pub AllSortable : List (SortableMember A) → Type 0
  AllSortable [] = Unit
  AllSortable (m ∷ ms) = IsSortable m × AllSortable ms

  pub less-utf16 :
      (a b : SortableMember A)
      → IsSortable a
      → IsSortable b
      → compare_sort_keys a b ≡ compare_units (utf16_key a.key) (utf16_key b.key)
  less-utf16 a b e f =
      ap₂ compare_sort_keys e f ∙ compare_sort_keys-utf16 a.key b.key a.value b.value

  insert_member-AllSortable :
      (m : SortableMember A) (ms : List (SortableMember A))
      → IsSortable m
      → AllSortable ms
      → AllSortable (insert_member m ms)
  unfolding insert_member
  insert_member-AllSortable m [] e h = (e, tt)
  insert_member-AllSortable m (n ∷ ns) e h = elim (Bool-cases (is_less (compare_sort_keys n m))) [
    | inl t ↦ rw t (h.0, insert_member-AllSortable m ns e h.1)
    | inr t ↦ rw t (e, h)
  ]

  pub sort_members-AllSortable :
      (ms : List (SortableMember A)) → AllSortable ms → AllSortable (sort_members ms)
  unfolding sort_members
  sort_members-AllSortable [] h = tt
  sort_members-AllSortable (m ∷ ms) h =
      insert_member-AllSortable m (sort_members ms) h.0 (sort_members-AllSortable ms h.1)
