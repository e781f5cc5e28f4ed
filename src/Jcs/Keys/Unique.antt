-- ===== src/Jcs/Keys/Unique.antt =====
-- jcs/serialize.go: members with different keys have one order.
use mathlib.Core.HLevel.{¬_prop}
use mathlib.Core.List.{mem-cons_self, Pairwise, Permᴰ}
use mathlib.Core.List.Permᴰ
use mathlib.Core.Path.{ap₂}
use jcs_schubfach.Prelude.{
  ℕ, ◌≡◌, ◌≢◌, refl, ap, sym, ◌∙◌, inl, inr, Bool, true, false, ◌||◌, Bool-cases, List, [], ◌∷◌,
  arith, ltb, Bytes, map,
}
use jcs_schubfach.Jcs.Keys.{
  compare_units, utf16_key, SortableMember, sortable, compare_sort_keys, is_less, insert_member,
  sort_members,
}
use jcs_schubfach.Jcs.Keys.Sorted.{
  compare_units-asym, IsSortable, AllSortable, less-utf16, sort_members-AllSortable,
}

abbrev below : List ℕ → List ℕ → Bool
below us vs = is_less (compare_units us vs)

-- Of two different lists of code units one is below the other.
pub below_total : (us vs : List ℕ) → us ≢ vs → below us vs ≡ false → below vs us ≡ true
unfolding compare_units
below_total [] [] ne h = absurd (ne refl)
below_total [] (v ∷ vs) ne h = cc
below_total (u ∷ us) [] ne h = refl
below_total (u ∷ us) (v ∷ vs) ne h = elim (Bool-cases (ltb v u || ltb u v)) [
  | inl e ↦ ground arith
  | inr e ↦
      let same : u ≡ v = ground arith in
      let later = below_total us vs (λ f. ne (ap₂ ◌∷◌ same f)) in ground (arith, later)
]

-- What is at most `vs` is below what `vs` is below.
below_trans : (us vs ws : List ℕ) → below vs us ≡ false → below vs ws ≡ true → below us ws ≡ true
unfolding compare_units
below_trans [] [] [] h k = k
below_trans [] [] (w ∷ ws) h k = refl
below_trans [] (v ∷ vs) (w ∷ ws) h k = refl
below_trans us (v ∷ vs) [] h k = cc
below_trans (u ∷ us) [] ws h k = cc
below_trans (u ∷ us) (v ∷ vs) (w ∷ ws) h k = ground (arith, below_trans us vs ws)

module _ {A : Type 0} where
  abbrev before : SortableMember A → SortableMember A → Bool
  before a b = is_less (compare_sort_keys a b)

  abbrev units_key : SortableMember A → List ℕ
  units_key m = utf16_key m.key

  before-below :
      (a b : SortableMember A)
      → IsSortable a
      → IsSortable b
      → before a b ≡ below (units_key a) (units_key b)
  before-below a b ha hb = ap is_less (less-utf16 a b ha hb)

  before_trans :
      (a b c : SortableMember A)
      → IsSortable a
      → IsSortable b
      → IsSortable c
      → before b a ≡ false
      → before b c ≡ true
      → before a c ≡ true
  before_trans a b c ha hb hc h k =
      before-below a c ha hc
      ∙ below_trans (units_key a) (units_key b) (units_key c) (sym (before-below b a hb ha) ∙ h)
          (sym (before-below b c hb hc) ∙ k)

  before_total :
      (a b : SortableMember A)
      → IsSortable a
      → IsSortable b
      → units_key a ≢ units_key b
      → before a b ≡ false
      → before b a ≡ true
  before_total a b ha hb ne h =
      before-below b a hb ha
      ∙ below_total (units_key a) (units_key b) ne (sym (before-below a b ha hb) ∙ h)

  before_asym :
      (a b : SortableMember A)
      → IsSortable a
      → IsSortable b
      → before a b ≡ true
      → before b a ≡ false
  before_asym a b ha hb h =
      before-below b a hb ha
      ∙ compare_units-asym (units_key a) (units_key b) (sym (before-below a b ha hb) ∙ h)

  -- Two members with different keys can be put in one after the other in either order: here where
  -- `a` belongs in front of `b`.
  insert_member_comm :
      (a b : SortableMember A) (ms : List (SortableMember A))
      → IsSortable a
      → IsSortable b
      → AllSortable ms
      → before a b ≡ true
      → insert_member a (insert_member b ms) ≡ insert_member b (insert_member a ms)
  unfolding insert_member
  insert_member_comm a b [] ha hb hs e = rw (e, before_asym a b ha hb e) refl
  insert_member_comm a b (m ∷ ms) ha hb (hm, hs) e = elim (Bool-cases (before m a)) [
    | inl ma ↦
        let mb = before_trans m a b hm ha hb (before_asym m a hm ha ma) e in
        rw (ma, mb, ma) (ap (◌∷◌ m) (insert_member_comm a b ms ha hb hs e))
    | inr am ↦ elim (Bool-cases (before m b)) [
      | inl mb ↦ rw (mb, am, e, mb) refl
      | inr bm ↦ rw (bm, am, before_asym a b ha hb e, e, bm) refl
    ]
  ]

-- Entries whose keys have different code units.
abbrev pub KeysDiffer : {B : Type 0} → Bytes × B → Bytes × B → Type 0
KeysDiffer d e = utf16_key d.0 ≢ utf16_key e.0

-- The members of an object as the loop in front of the sort makes them, for a function `f` of the
-- values.
module _ {A B : Type 0} (f : B → A) where
  abbrev pub sortable_entry : Bytes × B → SortableMember A
  sortable_entry e = sortable e.0 (f e.1)

  entries-AllSortable : (es : List (Bytes × B)) → AllSortable (map sortable_entry es)
  unfolding sortable
  entries-AllSortable [] = tt
  entries-AllSortable (e ∷ es) = (refl, entries-AllSortable es)

  abbrev sorted_entries : List (Bytes × B) → List (SortableMember A)
  sorted_entries es = sort_members (map sortable_entry es)

  swap_entries :
      (d e : Bytes × B) (es : List (Bytes × B))
      → KeysDiffer d e
      → sorted_entries (d ∷ e ∷ es) ≡ sorted_entries (e ∷ d ∷ es)
  unfolding sort_members sortable
  swap_entries d e es ne =
      let rest = sort_members-AllSortable _ (entries-AllSortable es) in
      let a = sortable_entry d in
      let b = sortable_entry e in
      elim (Bool-cases (before a b)) [
        | inl ab ↦ insert_member_comm a b _ refl refl rest ab
        | inr ba ↦ sym (insert_member_comm b a _ refl refl rest (before_total a b refl refl ne ba))
      ]

  pub sorted_entries-Permᴰ :
      {ds es : List (Bytes × B)}
      → Permᴰ ds es
      → Pairwise KeysDiffer ds
      → sorted_entries ds ≡ sorted_entries es
  unfolding sort_members
  sorted_entries-Permᴰ Permᴰ.nil h = refl
  sorted_entries-Permᴰ (Permᴰ.cons same d) (Pairwise.cons h t) =
      ap₂ (λ x xs. insert_member (sortable_entry x) xs) same (sorted_entries-Permᴰ d t)
  sorted_entries-Permᴰ (Permᴰ.swap {a = a} {b = b} {l = l} e₁ e₂) (Pairwise.cons h t) =
      swap_entries a b l (h b mem-cons_self) ∙ ap₂ (λ x y. sorted_entries (x ∷ y ∷ l)) e₂ e₁
  sorted_entries-Permᴰ (Permᴰ.trans d e) h =
      sorted_entries-Permᴰ d h
      ∙ sorted_entries-Permᴰ e (Permᴰ.pairwise (λ x y. ¬_prop) (λ x y n same. n (sym same)) d h)
