-- ===== src/Sort.antt =====
-- Package sort: `sort.Slice` and `sort.Strings` for an order given as a Boolean test, as a sort by
-- insertion that keeps the order of elements that the test does not tell apart.
use mathlib.Core.List.{Perm}
use mathlib.Core.List.Perm
use jcs_schubfach.Prelude.{
  ◌≡◌, inl, inr, Bool, true, false, Bool-cases, List, [], ◌∷◌, if◌then◌else◌,
}

module _ {A : Type 0} (less : A → A → Bool) where
  unfoldable pub insert_by : A → List A → List A
  insert_by a [] = a ∷ []
  insert_by a (b ∷ bs) = let rest = insert_by a bs in if less b a then b ∷ rest else a ∷ b ∷ bs

  unfoldable pub sort_by : List A → List A
  sort_by [] = []
  sort_by (a ∷ as') = insert_by a (sort_by as')

  abbrev pub HeadLe : A → List A → Type 0
  HeadLe a [] = Unit
  HeadLe a (b ∷ bs) = less b a ≡ false

  -- No element stands directly behind one that is greater.
  abbrev pub IsSortedBy : List A → Type 0
  IsSortedBy [] = Unit
  IsSortedBy (a ∷ as') = HeadLe a as' × IsSortedBy as'

  insert_by-perm : (a : A) (bs : List A) → Perm (insert_by a bs) (a ∷ bs)
  unfolding insert_by
  insert_by-perm a [] = Perm.refl (a ∷ [])
  insert_by-perm a (b ∷ bs) = elim (Bool-cases (less b a)) [
    | inl e ↦ rw e (Perm.trans (Perm.cons b (insert_by-perm a bs)) (Perm.swap a b bs))
    | inr e ↦ rw e (Perm.refl (a ∷ b ∷ bs))
  ]

  pub sort_by-perm : (xs : List A) → Perm (sort_by xs) xs
  unfolding sort_by
  sort_by-perm [] = Perm.refl []
  sort_by-perm (a ∷ as') =
      Perm.trans (insert_by-perm a (sort_by as')) (Perm.cons a (sort_by-perm as'))

  module _ (asym : (a b : A) → less a b ≡ true → less b a ≡ false) where
    insert_by-HeadLe :
        (b a : A) (bs : List A) → less a b ≡ false → HeadLe b bs → HeadLe b (insert_by a bs)
    unfolding insert_by
    insert_by-HeadLe b a [] h k = h
    insert_by-HeadLe b a (c ∷ cs) h k = elim (Bool-cases (less c a)) [
      | inl e ↦ rw e k
      | inr e ↦ rw e h
    ]

    insert_by-IsSortedBy : (a : A) (bs : List A) → IsSortedBy bs → IsSortedBy (insert_by a bs)
    unfolding insert_by
    insert_by-IsSortedBy a [] h = (tt, tt)
    insert_by-IsSortedBy a (b ∷ bs) h = elim (Bool-cases (less b a)) [
      | inl e ↦ rw e (insert_by-HeadLe b a bs (asym b a e) h.0, insert_by-IsSortedBy a bs h.1)
      | inr e ↦ rw e (e, h)
    ]

    pub sort_by-IsSortedBy : (xs : List A) → IsSortedBy (sort_by xs)
    unfolding sort_by
    sort_by-IsSortedBy [] = tt
    sort_by-IsSortedBy (a ∷ as') = insert_by-IsSortedBy a (sort_by as') (sort_by-IsSortedBy as')
