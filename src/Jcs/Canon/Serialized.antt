-- ===== src/Jcs/Canon/Serialized.antt =====
-- jcs/serialize.go with jcstoken/token.go: what `SerializeWithOptions` writes, parsed again.
use jcs_schubfach.Prelude.{
  ℕ, ◌≤◌, ◌≡◌, refl, ap, sym, ◌∙◌, Option, some, [], append-nil, arith, Bytes, length, le→ltb,
}
use jcs_schubfach.Float64.{Float64}
use jcs_schubfach.Jcstoken.Options.{Options, limits}
use jcs_schubfach.Jcstoken.Parser.{parse_with_options, initial, fuel_for}
use jcs_schubfach.Jcstoken.State.{skip_from, skip_whitespace}
use jcs_schubfach.Jcstoken.Value.{Value}
use jcs_schubfach.Jcs.Canon.{in_order, text, size}
use jcs_schubfach.Jcs.Canon.Fits.{Fits, Shallow, value-Fits}
use jcs_schubfach.Jcs.Canon.Numbers.{EachNumber, EachNumber-map, EachNumber-all}
use jcs_schubfach.Jcs.Canon.Legible.{Legible, ReadsBack, ReadsBack-Legible}
use jcs_schubfach.Jcs.Canon.Order.{in_order-Fits}
use jcs_schubfach.Jcs.Canon.Reading.{text-first, skip_whitespace-state}
use jcs_schubfach.Jcs.Canon.RoundTrip.{parse_value-text}
use jcs_schubfach.Jcs.Canon.Utf8.{text-valid, size-text}
use jcs_schubfach.Jcs.Canon.Written.{serialize_value-text}
use jcs_schubfach.Jcs.Serialize.{serialize_with_options, serialize_into}
use jcs_schubfach.Jcs.Validate.{validate_value_tree}
use jcs_schubfach.Result.{ok_inj, ok, reject_if, bind-eq-ok}

-- The parser reads the text of a value within the limits back.
parse_with_options-text :
    (opts : Option Options) (v : Value)
    → Fits (limits opts) (Legible (limits opts)) 0 v
    → size v ≤ (limits opts).max_values
    → length (text v) ≤ (limits opts).max_input_size
    → parse_with_options (text v) opts ≡ ok v
unfolding parse_with_options reject_if
parse_with_options-text opts v fit few short =
    let lim = limits opts in
    let (c, t, e, first) = text-first lim 0 v fit in
    let read =
      parse_value-text lim v 0 0 0 [] fit (omega (arith, few)) tt (fuel_for (text v))
        (omega (arith, size-text lim 0 v fit)) in
    let start =
      ap skip_whitespace (ap initial e)
      ∙ skip_whitespace-state c t 0 0 0 first.0
      ∙ sym (ap initial e) in
    rw
      (
        le→ltb lim.max_input_size (length (text v)) short,
        text-valid lim 0 v fit,
        start,
        rw (append-nil (text v)) at read,
      )
      (unfold skip_whitespace skip_from in refl)

module _ (v : Value) (opts : Option Options) (low : Shallow (limits opts) 0 v) where
  -- A value that passes `validateValueTree` is within the limits, and so is its number of values.
  pub validated-Fits :
      (P : Float64 → Type 0) (n : ℕ)
      → validate_value_tree (limits opts) v 0 0 ≡ ok n
      → EachNumber P v
      → Fits (limits opts) P 0 v × (size v ≤ (limits opts).max_values)
  validated-Fits P n checks each =
      let (fit, counted) = value-Fits (limits opts) P v 0 0 checks each low in
      (fit, omega (arith, counted))

  pub serialize_with_options-text :
      (n : ℕ)
      → validate_value_tree (limits opts) v 0 0 ≡ ok n
      → serialize_with_options (some v) opts ≡ ok (text (in_order v))
  unfolding serialize_with_options serialize_into
  serialize_with_options-text n checks =
      let fit = (validated-Fits (λ _. Unit {0}) n checks (EachNumber-all (λ _. tt) v)).0 in
      rw checks (serialize_value-text (limits opts) (λ _. Unit {0}) 0 v fit [])

  -- What `SerializeWithOptions` has written of a value is parsed, under the same options, as that value
  -- with the members of each object in order, if no container in it stands at the depth limit, its
  -- numbers are read back from their texts, and the text is no longer than an input may be.
  pub parse_with_options-serialize_with_options :
      (out : Bytes)
      → serialize_with_options (some v) opts ≡ ok out
      → EachNumber (ReadsBack (limits opts)) v
      → length out ≤ (limits opts).max_input_size
      → parse_with_options out opts ≡ ok (in_order v)
  unfolding serialize_with_options serialize_into
  parse_with_options-serialize_with_options out written each short =
      let lim = limits opts in
      let (n, checks, _) = bind-eq-ok (validate_value_tree lim v 0 0) _ written in
      let same = ok_inj (sym written ∙ serialize_with_options-text n checks) in
      let legible = EachNumber-map (ReadsBack-Legible lim) v each in
      let (fit_v, few_v) = validated-Fits (Legible lim) n checks legible in
      let (fit, same_size) = in_order-Fits lim (Legible lim) 0 v fit_v in
      rw same (
        parse_with_options-text opts (in_order v) fit (omega (arith, few_v, same_size))
          (omega (arith, short, ap length same)))
