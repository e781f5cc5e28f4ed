-- ===== src/Jcstoken/Options.antt =====
-- jcstoken/token.go: the default limits, `Options`, and their resolution.
use jcs_schubfach.Prelude.{ℕ, ◌*◌, Option, none, some, ltb, if◌then◌else◌}
use jcs_schubfach.Prelude.Int.{ℤ, pos, negsuc}

abbrev pub default_max_depth : ℕ
default_max_depth = 1000

abbrev pub default_max_input_size : ℕ
default_max_input_size = 64 * 1024 * 1024

abbrev pub default_max_values : ℕ
default_max_values = 1_000_000

abbrev pub default_max_object_members : ℕ
default_max_object_members = 250_000

abbrev pub default_max_array_elements : ℕ
default_max_array_elements = 250_000

abbrev pub default_max_string_bytes : ℕ
default_max_string_bytes = 8 * 1024 * 1024

abbrev pub default_max_number_chars : ℕ
default_max_number_chars = 4096

-- `Options`; a nil pointer is `none`.
pub record Options : Type 0 where
  pub max_depth : ℤ
  pub max_input_size : ℤ
  pub max_values : ℤ
  pub max_object_members : ℤ
  pub max_array_elements : ℤ
  pub max_string_bytes : ℤ
  pub max_number_chars : ℤ

-- `resolveOption`, and `resolveSerializeLimit` of jcs/serialize.go
unfoldable pub resolve_option : ℤ → ℕ → ℕ
resolve_option (pos n) def = if ltb 0 n then n else def
resolve_option (negsuc n) def = def

-- The limits that a parser runs under, all positive.
pub record Limits : Type 0 where
  pub max_depth : ℕ
  pub max_input_size : ℕ
  pub max_values : ℕ
  pub max_object_members : ℕ
  pub max_array_elements : ℕ
  pub max_string_bytes : ℕ
  pub max_number_chars : ℕ

abbrev pub default_limits : Limits
default_limits = record {
  max_depth = default_max_depth;
  max_input_size = default_max_input_size;
  max_values = default_max_values;
  max_object_members = default_max_object_members;
  max_array_elements = default_max_array_elements;
  max_string_bytes = default_max_string_bytes;
  max_number_chars = default_max_number_chars;
}

-- The methods `maxDepth` to `maxNumberChars` of `*Options`.
unfoldable pub limits : Option Options → Limits
limits none = default_limits
limits (some o) = record {
  max_depth = resolve_option o.max_depth default_max_depth;
  max_input_size = resolve_option o.max_input_size default_max_input_size;
  max_values = resolve_option o.max_values default_max_values;
  max_object_members = resolve_option o.max_object_members default_max_object_members;
  max_array_elements = resolve_option o.max_array_elements default_max_array_elements;
  max_string_bytes = resolve_option o.max_string_bytes default_max_string_bytes;
  max_number_chars = resolve_option o.max_number_chars default_max_number_chars;
}
