-- ===== src/Jcs/Canon.antt =====
-- The canonical form, described without buffers, errors and limits: the value with the members of its
-- objects in order, and its text.
pub mod Ascending
pub mod Depth
pub mod Fits
pub mod Numbers
pub mod Order
pub mod Idempotent
pub mod KeyOrder
pub mod Legible
pub mod Reading
pub mod RoundTrip
pub mod Serialized
pub mod Utf8
pub mod Written
use jcs_schubfach.Prelude.{ℕ, ◌+◌, List, [], ◌∷◌, ◌++◌, if◌then◌else◌, Bytes, codes}
use jcs_schubfach.Float64.{Float64}
use jcs_schubfach.Jcsfloat.{format_double}
use jcs_schubfach.Jcstoken.Value.{
  Value, Elems, Members, null, bool, number, string, array, object, unknown, no_elems, elem,
  no_members, member,
}
use jcs_schubfach.Jcs.Escape.{serialize_string}
use jcs_schubfach.Jcs.Keys.{compare_units, utf16_key, is_less}
use jcs_schubfach.Result.{Result, ok, err, out_of_fuel}

-- A member put in front of the first one whose key is not below its own.
unfoldable pub insert_entry : Bytes → Value → Members → Members
insert_entry k v no_members = member k v no_members
insert_entry k v (member j w ms) =
    let rest = insert_entry k v ms in
    if is_less (compare_units (utf16_key j) (utf16_key k))
    then member j w rest
    else member k v (member j w ms)

unfoldable pub sort_entries : Members → Members
sort_entries no_members = no_members
sort_entries (member k v ms) = insert_entry k v (sort_entries ms)

unfoldable mutual
  -- The value with the members of each object in the order of the UTF-16 code units of their keys.
  pub in_order : Value → Value
  in_order null = null
  in_order (bool s) = bool s
  in_order (number f) = number f
  in_order (string s) = string s
  in_order (array es) = array (elems_in_order es)
  in_order (object ms) = object (sort_entries (values_in_order ms))
  in_order (unknown k) = unknown k

  pub elems_in_order : Elems → Elems
  elems_in_order no_elems = no_elems
  elems_in_order (elem v es) = elem (in_order v) (elems_in_order es)

  pub values_in_order : Members → Members
  values_in_order no_members = no_members
  values_in_order (member k v ms) = member k (in_order v) (values_in_order ms)

-- The text of a number that has one.
abbrev text_or_none : Result Bytes → Bytes
text_or_none (ok s) = s
text_or_none (err e) = []
text_or_none out_of_fuel = []

unfoldable pub number_text : Float64 → Bytes
number_text f = text_or_none (format_double f)

abbrev pub quoted : Bytes → Bytes
quoted s = serialize_string [] s

unfoldable mutual
  -- The text of a value, its members as they stand.
  pub text : Value → Bytes
  text null = codes "null"
  text (bool s) = s
  text (number f) = number_text f
  text (string s) = quoted s
  text (array es) = b'[' ∷ elems_text es
  text (object ms) = b'{' ∷ members_text ms
  text (unknown k) = []

  pub elems_text : Elems → Bytes
  elems_text no_elems = b']' ∷ []
  elems_text (elem v es) = text v ++ more_elems es

  -- Behind an element.
  pub more_elems : Elems → Bytes
  more_elems no_elems = b']' ∷ []
  more_elems (elem v es) = b',' ∷ (text v ++ more_elems es)

  pub members_text : Members → Bytes
  members_text no_members = b'}' ∷ []
  members_text (member k v ms) = quoted k ++ (b':' ∷ (text v ++ more_members ms))

  -- Behind a member.
  pub more_members : Members → Bytes
  more_members no_members = b'}' ∷ []
  more_members (member k v ms) = b',' ∷ (quoted k ++ (b':' ∷ (text v ++ more_members ms)))

unfoldable mutual
  -- The number of values in a value, itself included.
  pub size : Value → ℕ
  size (array es) = 1 + elems_size es
  size (object ms) = 1 + members_size ms
  size _ = 1

  pub elems_size : Elems → ℕ
  elems_size no_elems = 0
  elems_size (elem v es) = size v + elems_size es

  pub members_size : Members → ℕ
  members_size no_members = 0
  members_size (member k v ms) = size v + members_size ms
