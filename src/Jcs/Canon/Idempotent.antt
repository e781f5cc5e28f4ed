-- ===== src/Jcs/Canon/Idempotent.antt =====
-- jcs/serialize.go with jcstoken/token.go: the output of `CanonicalizeWithOptions`, parsed and
-- canonicalized again.
use mathlib.Core.Path.{subst}
use jcs_schubfach.Prelude.{◌≤◌, ◌≡◌, ◌↔◌, ap, sym, ◌∙◌, not, Option, [], ◌∷◌, ltb, Bytes, length}
use jcs_schubfach.Jcstoken.Options.{Options, limits}
use jcs_schubfach.Jcstoken.Parser.{parse_value, parse_with_options, initial, fuel_for}
use jcs_schubfach.Jcstoken.State.{Parser, new_error, skip_whitespace}
use jcs_schubfach.Jcstoken.Value.{Value}
use jcs_schubfach.Jcserr.{invalid_grammar}
use jcs_schubfach.Jcs.Canon.{in_order, text}
use jcs_schubfach.Jcs.Canon.Depth.{parse_value-Shallow}
use jcs_schubfach.Jcs.Canon.Fits.{Shallow}
use jcs_schubfach.Jcs.Canon.Numbers.{EachNumber}
use jcs_schubfach.Jcs.Canon.Legible.{ReadsBack}
use jcs_schubfach.Jcs.Canon.Order.{in_order-Alike}
use jcs_schubfach.Jcs.Canon.Serialized.{
  serialize_with_options-text, parse_with_options-serialize_with_options,
}
use jcs_schubfach.Jcs.Serialize.{canonicalize_with_options, serialize_with_options, serialize_into}
use jcs_schubfach.Jcs.Serialize.Total.{parse_with_options-validated}
use jcs_schubfach.Jcs.Serialize.Unordered.{canonicalize_with_options-Alike}
use jcs_schubfach.Result.{ok_inj, ok, bind-eq-ok, reject-eq-ok}
use jcs_schubfach.Unicode.Utf8.{valid}

pub parse_with_options-Shallow :
    (input : Bytes) (opts : Option Options) (v : Value)
    → parse_with_options input opts ≡ ok v
    → Shallow (limits opts) 0 v
unfolding parse_with_options skip_whitespace
parse_with_options-Shallow input opts v h =
    let lim = limits opts in
    let (_, h1) = reject-eq-ok (ltb lim.max_input_size (length input)) _ _ h in
    let (_, h2) = reject-eq-ok (not (valid input)) _ _ h1 in
    let (r, parsed, h3) =
      bind-eq-ok (parse_value lim (fuel_for input) (skip_whitespace (initial input))) _ h2 in
    at_end r.0 (skip_whitespace r.1) (skip_whitespace r.1).rest (parse_value-Shallow lim _ _ parsed)
      h3
  where
    at_end :
        (w : Value) (q : Parser) (rest : Bytes)
        → Shallow (limits opts) 0 w
        → elim rest [ [] ↦ ok w | _ ∷ _ ↦ new_error invalid_grammar q ] ≡ ok v
        → Shallow (limits opts) 0 v
    at_end w q [] low e = subst (Shallow (limits opts) 0) (cc e) low
    at_end w q (b ∷ s) low e = cc

module _ (input : Bytes) (opts : Option Options) (v : Value)
    (parsed : parse_with_options input opts ≡ ok v) where
  -- The output of `CanonicalizeWithOptions` is the text of the parsed value with the members of each
  -- object in order.
  pub canonicalize_with_options-text : canonicalize_with_options input opts ≡ ok (text (in_order v))
  unfolding canonicalize_with_options serialize_with_options serialize_into
  canonicalize_with_options-text =
      let (n, checks) = parse_with_options-validated input opts v parsed in
      rw parsed (
        serialize_with_options-text v opts (parse_with_options-Shallow input opts v parsed) n
          checks)

  module _ (out : Bytes) (written : canonicalize_with_options input opts ≡ ok out)
      (each : EachNumber (ReadsBack (limits opts)) v)
      (short : length out ≤ (limits opts).max_input_size) where
    parse_with_options-canonicalize_with_options : parse_with_options out opts ≡ ok (in_order v)
    unfolding canonicalize_with_options serialize_with_options
    parse_with_options-canonicalize_with_options =
        parse_with_options-serialize_with_options v opts
          (parse_with_options-Shallow input opts v parsed) out (rw parsed at written) each short

    -- The output of `CanonicalizeWithOptions` is mapped to itself by it, under the same options, if the
    -- numbers of the value are read back from their texts and the output is no longer than an input
    -- may be.
    pub canonicalize_with_options-idempotent : canonicalize_with_options out opts ≡ ok out
    canonicalize_with_options-idempotent =
        sym (
          canonicalize_with_options-Alike input out opts v (in_order v) parsed
            parse_with_options-canonicalize_with_options (in_order-Alike v))
        ∙ written

-- Of two inputs that the parser accepts, whose numbers are read back from their texts, and the first of
-- which has an output no longer than an input may be, the outputs are the same exactly if the values
-- are, once the members of each object are in order.
pub canonicalize_with_options_iff :
    (input other : Bytes) (opts : Option Options) (v w : Value) (out : Bytes)
    → parse_with_options input opts ≡ ok v
    → parse_with_options other opts ≡ ok w
    → canonicalize_with_options input opts ≡ ok out
    → EachNumber (ReadsBack (limits opts)) v
    → EachNumber (ReadsBack (limits opts)) w
    → length out ≤ (limits opts).max_input_size
    → (canonicalize_with_options other opts ≡ ok out) ↔ (in_order w ≡ in_order v)
canonicalize_with_options_iff input other opts v w out parsed also written each each_w short = (
  λ same. ok_inj (
      sym (parse_with_options-canonicalize_with_options other opts w also out same each_w short)
      ∙ parse_with_options-canonicalize_with_options input opts v parsed out written each short),
  λ same.
      canonicalize_with_options-text other opts w also
      ∙ ap (λ u. ok (text u)) same
      ∙ sym (canonicalize_with_options-text input opts v parsed)
      ∙ written,
)
