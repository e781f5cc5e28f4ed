-- ===== src/Jcs/Canon/Reading/ElementList.antt =====
-- jcstoken/token.go: the loop of `parseArray` reads the texts of elements back.
use jcs_schubfach.Prelude.{
  ℕ, zero, suc, ◌+◌, ◌*◌, ◌≤◌, ◌<◌, ◌≡◌, refl, ap, ◌∙◌, ◌∷◌, ◌++◌, append_assoc, arith, Bytes,
  length, length-append,
}
use jcs_schubfach.Jcstoken.Options.{Limits}
use jcs_schubfach.Jcstoken.Parser.{parse_value, array_loop}
use jcs_schubfach.Jcstoken.Value.{
  Value, Elems, null, array, object, no_elems, elem, snoc_elem, count_elems,
}
use jcs_schubfach.Jcs.Canon.{text, more_elems, size, elems_size}
use jcs_schubfach.Jcs.Canon.Fits.{Fits, FitsElems}
use jcs_schubfach.Jcs.Canon.Legible.{state, Ends, Legible}
use jcs_schubfach.Jcs.Canon.Reading.{landed, text-first}
use jcs_schubfach.Jcs.Canon.Reading.Loops.{array_loop-last, array_loop-next}
use jcs_schubfach.Jcs.Validate.Append.{count_elems-snoc}
use jcs_schubfach.Result.{ok}

unfoldable pub append_elems : Elems → Elems → Elems
append_elems no_elems es = es
append_elems (elem v acc) es = elem v (append_elems acc es)

append_elems-snoc :
    (acc : Elems) (v : Value) (es : Elems)
    → append_elems (snoc_elem acc v) es ≡ append_elems acc (elem v es)
unfolding append_elems snoc_elem
append_elems-snoc no_elems v es = refl
append_elems-snoc (elem w acc) v es = ap (elem w) (append_elems-snoc acc v es)

append_elems-none : (acc : Elems) (v : Value) → snoc_elem acc v ≡ append_elems acc (elem v no_elems)
unfolding append_elems snoc_elem
append_elems-none no_elems v = refl
append_elems-none (elem w acc) v = ap (elem w) (append_elems-none acc v)

pub size_pos : (v : Value) → 1 ≤ size v
unfolding size
size_pos (array es) = omega arith
size_pos (object ms) = omega arith
size_pos null = omega arith
size_pos _ = omega arith

-- What holds with one unit of fuel more than some amount that reaches the bound, holds for any fuel
-- beyond the bound.
pub given_fuel :
    {bound : ℕ} (Holds : ℕ → Type 0)
    → ((left : ℕ) → bound ≤ left → Holds (suc left))
    → (fuel : ℕ) → bound < fuel
    → Holds fuel
given_fuel {bound} Holds one zero above = absurd none_below
  where
    none_below : ⊥
    none_below = omega (arith, above)
given_fuel Holds one (suc left) above = one left (omega (arith, above))

module _ (lim : Limits) where
  abbrev pub ReadsValue : Value → Type 0
  ReadsValue v =
      (d n k : ℕ) (rest : Bytes)
      → Fits lim (Legible lim) d v
      → k + size v ≤ lim.max_values
      → Ends rest
      → (f : ℕ) → 2 * size v < f
      → parse_value lim f (state (text v ++ rest) n d k)
        ≡ ok (v, state rest (n + length (text v)) d (k + size v))

  -- The elements from `v` on, behind the elements `acc`.
  abbrev pub ReadsElems : Value → Elems → Type 0
  ReadsElems v es =
      (acc : Elems) (d n k : ℕ) (rest : Bytes)
      → Fits lim (Legible lim) d v
      → FitsElems lim (Legible lim) d es
      → count_elems acc + count_elems (elem v es) ≤ lim.max_array_elements
      → k + (size v + elems_size es) ≤ lim.max_values
      → (f : ℕ) → 2 * (size v + elems_size es) + 1 < f
      → array_loop lim f acc (state (text v ++ (more_elems es ++ rest)) n d k)
        ≡ ok (
          array (append_elems acc (elem v es)),
          state rest (n + (length (text v) + length (more_elems es))) d
              (k + (size v + elems_size es)),
        )

  pub reads_last : (v : Value) → ReadsValue v → ReadsElems v no_elems
  unfolding more_elems elems_size FitsElems
  reads_last v reads acc d n k rest fit fits few room =
      let (c, t, e, first) = text-first lim d v fit in
      given_fuel _ λ f h.
        let there = reads d n k (b']' ∷ rest) fit (omega (arith, room)) refl f (omega (arith, h)) in
        rw e (
          array_loop-last lim f acc v c (t ++ (b']' ∷ rest)) rest n _ d k _ first
            (omega (arith, few)) (rw e at there)
          ∙ landed (ap array (append_elems-none acc v)) rest (omega arith) refl (omega arith))

  pub reads_next :
      (v : Value)
      → ReadsValue v
      → (w : Value) (es : Elems) → ReadsElems w es
      → ReadsElems v (elem w es)
  unfolding more_elems elems_size FitsElems
  reads_next v reads w es others acc d n k rest fit fits few room =
      let (c, t, e, first) = text-first lim d v fit in
      let tail = text w ++ (more_elems es ++ rest) in
      given_fuel _ λ f h.
        let there =
          reads d n k (b',' ∷ tail) fit (omega (arith, room)) refl f
            (omega (arith, h, size_pos w)) in
        let later =
          others (snoc_elem acc v) d (n + length (text v) + 1) (k + size v) rest fits.0 fits.1
            (omega (arith, few, count_elems-snoc acc v)) (omega (arith, room)) f
            (omega (arith, h, size_pos v)) in
        rw (append_assoc (text w) (more_elems es) rest, e)
          (array_loop-next lim f acc v c (t ++ (b',' ∷ tail)) tail n _ d k _ first
              (omega (arith, few)) (rw e at there)
            ∙ (rw e at later)
            ∙ landed (ap array (append_elems-snoc acc v (elem w es))) rest
                (omega (arith, length-append (text w) (more_elems es))) refl (omega arith))
