-- ===== src/Jcstoken/Value.antt =====
-- jcstoken/token.go: JSON values. A value carries the fields that its `Kind` uses; a kind that is
-- none of the six constants is `unknown`.
use jcs_schubfach.Prelude.{ℕ, suc, Bytes, List, [], ◌∷◌}
use jcs_schubfach.Float64.{Float64}

mutual
  pub data Value : Type 0 where
    null : Value
    bool : Bytes → Value
    number : Float64 → Value
    string : Bytes → Value
    array : Elems → Value
    object : Members → Value
    unknown : ℕ → Value

  -- `Elems []Value`
  pub data Elems : Type 0 where
    no_elems : Elems
    elem : Value → Elems → Elems

  -- `Members []Member`: each `Member` is a `Key` and a `Value`.
  pub data Members : Type 0 where
    no_members : Members
    member : Bytes → Value → Members → Members

-- `append(elems, v)`
unfoldable pub snoc_elem : Elems → Value → Elems
snoc_elem no_elems v = elem v no_elems
snoc_elem (elem w es) v = elem w (snoc_elem es v)

unfoldable pub snoc_member : Members → Bytes → Value → Members
snoc_member no_members k v = member k v no_members
snoc_member (member j w ms) k v = member j w (snoc_member ms k v)

-- `len`
abbrev pub count_elems : Elems → ℕ
count_elems no_elems = 0
count_elems (elem v es) = suc (count_elems es)

abbrev pub count_members : Members → ℕ
count_members no_members = 0
count_members (member k v ms) = suc (count_members ms)

abbrev pub keys : Members → List Bytes
keys no_members = []
keys (member k v ms) = k ∷ keys ms
