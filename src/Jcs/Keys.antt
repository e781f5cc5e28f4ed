-- ===== src/Jcs/Keys.antt =====
-- jcs/serialize.go: the order of object keys, by UTF-16 code units, and the sort.
pub mod Sorted
pub mod Unique
pub mod Before
use jcs_schubfach.Prelude.{
  ℕ, Bool, true, false, ◌&&◌, Option, none, some, List, [], ◌∷◌, ltb, if◌then◌else◌, Bytes,
}
use jcs_schubfach.Unicode.Utf16.{encode}
use jcs_schubfach.Unicode.Utf8.{runes, runes_from, decode_rune}

-- Go's three-way results -1, 0 and 1.
pub data Order : Type 0 where
  less same greater : Order

-- `isASCII`
unfoldable pub is_ascii : Bytes → Bool
is_ascii [] = true
is_ascii (b ∷ r) = ltb b 0x80 && is_ascii r

-- `compareUTF16Units`; Go compares strings by their bytes in the same way.
unfoldable pub compare_units : List ℕ → List ℕ → Order
compare_units [] [] = same
compare_units [] (b ∷ bs) = less
compare_units (a ∷ as') [] = greater
compare_units (a ∷ as') (b ∷ bs) =
    let more = compare_units as' bs in if ltb a b then less else if ltb b a then greater else more

-- `utf16.Encode([]rune(key))`
abbrev pub utf16_key : Bytes → List ℕ
utf16_key k = encode (runes k)

-- `sortableMember`: `key16` is nil for an ASCII key. The member's value is left abstract.
pub record SortableMember (A : Type 0) : Type 0 where
  pub key : Bytes
  pub value : A
  pub key16 : Option (List ℕ)

-- The loop in front of the sort in `serializeObject`, at one member.
unfoldable pub sortable : {A : Type 0} → Bytes → A → SortableMember A
sortable k v = record {
  key = k;
  value = v;
  key16 = if is_ascii k then none else some (utf16_key k);
}

abbrev pub is_less : Order → Bool
is_less less = true
is_less _ = false

module _ {A : Type 0} where
  -- `ak := a.key16`, encoded where it is nil.
  abbrev pub units_of : SortableMember A → List ℕ
  units_of m = elim m.key16 [ none ↦ utf16_key m.key | some us ↦ us ]

  -- `compareSortKeys`
  unfoldable pub compare_sort_keys : SortableMember A → SortableMember A → Order
  compare_sort_keys a b = elim a.key16 [
    | some us ↦ compare_units us (units_of b)
    | none ↦ elim b.key16 [
      | some vs ↦ compare_units (units_of a) vs
      | none ↦ compare_units a.key b.key
    ]
  ]

  -- `sort.Slice` with `compareSortKeys(&a, &b) < 0`. The order of members with equal
  -- keys, which the standard library leaves open, is here that of the object.
  unfoldable pub insert_member :
      SortableMember A → List (SortableMember A) → List (SortableMember A)
  insert_member m [] = m ∷ []
  insert_member m (n ∷ ns) =
      let rest = insert_member m ns in
      if is_less (compare_sort_keys n m) then n ∷ rest else m ∷ n ∷ ns

  unfoldable pub sort_members : List (SortableMember A) → List (SortableMember A)
  sort_members [] = []
  sort_members (m ∷ ms) = insert_member m (sort_members ms)
