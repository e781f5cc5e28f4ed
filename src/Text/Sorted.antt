-- ===== src/Text/Sorted.antt =====
-- Package sort on strings: order and membership.
use jcs_schubfach.Prelude.{◌≡◌, refl, ap, ◌∙◌, ◌||◌, List, [], ◌∷◌, arith, Bytes, equal}
use jcs_schubfach.Jcs.Keys.Sorted.{compare_units-asym}
use jcs_schubfach.Sort.{insert_by, sort_by, IsSortedBy, sort_by-IsSortedBy}
use jcs_schubfach.Text.{has, string_less, sort_strings}

pub sort_strings-IsSortedBy : (ss : List Bytes) → IsSortedBy string_less (sort_strings ss)
unfolding sort_strings
sort_strings-IsSortedBy = sort_by-IsSortedBy string_less compare_units-asym

has-insert_by :
    (k s : Bytes) (ss : List Bytes) → has k (insert_by string_less s ss) ≡ (equal k s || has k ss)
unfolding has insert_by
has-insert_by k s [] = refl
has-insert_by k s (t ∷ ts) = ground (arith, has-insert_by k s ts)

-- Sorting keeps the set.
pub has-sort_strings : (k : Bytes) (ss : List Bytes) → has k (sort_strings ss) ≡ has k ss
unfolding has sort_strings sort_by
has-sort_strings k [] = refl
has-sort_strings k (s ∷ ss) =
    has-insert_by k s (sort_by string_less ss) ∙ ap (λ b. equal k s || b) (has-sort_strings k ss)
