-- ===== src/Jcs/Canon/RoundTrip.antt =====
-- jcstoken/token.go: `parseValue` reads the text of a value back.
use jcs_schubfach.Prelude.{
  ℕ, suc, ◌+◌, ◌≤◌, ◌≡◌, refl, ◌∙◌, inl, inr, ◌∷◌, ◌++◌, append_assoc, arith, Bytes, length-append,
}
use jcs_schubfach.Jcstoken.Options.{Limits}
use jcs_schubfach.Jcstoken.Parser.{
  mem_key, parse_array, parse_object, dispatch, parse_value, array_loop, object_loop,
}
use jcs_schubfach.Jcstoken.State.{Parser}
use jcs_schubfach.Float64.{Float64}
use jcs_schubfach.Jcstoken.Value.{
  Value, Elems, Members, null, bool, number, string, array, object, unknown, no_elems, elem,
  no_members, member,
}
use jcs_schubfach.Jcs.Canon.{
  quoted, text, elems_text, more_elems, members_text, more_members, size, elems_size, members_size,
}
use jcs_schubfach.Jcs.Canon.Fits.{Fits, FitsElems, FitsMembers}
use jcs_schubfach.Jcs.Canon.Legible.{state}
use jcs_schubfach.Jcs.Canon.Reading.{
  landed, parse_value-state, text-first, bool_literal-cases, quoted-first, dispatch-null,
  dispatch-true, dispatch-false, dispatch-number, parse_array-state, parse_array-none,
  parse_object-state, parse_object-none,
}
use jcs_schubfach.Jcs.Canon.Reading.Loops.{parse_string-quoted}
use jcs_schubfach.Result.{Result}
use jcs_schubfach.Jcs.Canon.Reading.ElementList.{
  append_elems, size_pos, given_fuel, ReadsValue, ReadsElems, reads_last, reads_next,
}
use jcs_schubfach.Jcs.Canon.Reading.MemberList.{
  append_members, ReadsMembers, Fresh-Pairwise, reads_last_member, reads_next_member,
}

module _ (lim : Limits) where
  -- A value that starts with the byte `c` is read by the branch for `c`.
  read_at :
      (v : Value) (c : ℕ) (s : Bytes) (n d k f : ℕ) {r : Result (Value × Parser)}
      → k + size v ≤ lim.max_values
      → dispatch lim
          (parse_array lim (array_loop lim f))
          (parse_object lim (object_loop lim f))
          c
          (state (c ∷ s) n d (k + 1))
        ≡ r
      → parse_value lim (suc f) (state (c ∷ s) n d k) ≡ r
  read_at v c s n d k f room e =
      parse_value-state lim f c s n d k (omega (arith, room, size_pos v)) ∙ e

  reads_null : ReadsValue lim null
  unfolding text size
  reads_null d n k rest fit room ends =
      given_fuel _ λ f h. read_at null b'n' _ n d k f room (dispatch-null lim _ _ rest n d (k + 1))

  reads_no_elems : ReadsValue lim (array no_elems)
  unfolding text elems_text size elems_size Fits FitsElems dispatch
  reads_no_elems d n k rest fit room ends = given_fuel _ λ f h.
      read_at null b'[' _ n d k f room
        (parse_array-none lim (array_loop lim f) rest n d (k + 1) fit.0)

  reads_no_members : ReadsValue lim (object no_members)
  unfolding text members_text size members_size Fits FitsMembers dispatch
  reads_no_members d n k rest fit room ends = given_fuel _ λ f h.
      read_at null b'{' _ n d k f room
        (parse_object-none lim (object_loop lim f) rest n d (k + 1) fit.0)

  reads_bool : (s : Bytes) → ReadsValue lim (bool s)
  unfolding text size Fits
  reads_bool s d n k rest fit room ends = given_fuel _ λ f h. elim (bool_literal-cases s fit.1) [
    | inl e ↦ rw e (read_at null b't' _ n d k f room (dispatch-true lim _ _ rest n d (k + 1)))
    | inr e ↦ rw e (read_at null b'f' _ n d k f room (dispatch-false lim _ _ rest n d (k + 1)))
  ]

  reads_number : (x : Float64) → ReadsValue lim (number x)
  unfolding text size Fits
  reads_number x d n k rest fit room ends = given_fuel _ λ f h.
      let (c, t, e, start) = fit.2.start in
      let there = fit.2.reads rest n d (k + 1) ends in
      rw e (
        read_at null c (t ++ rest) n d k f room (
          dispatch-number lim _ _ c (state (c ∷ (t ++ rest)) n d (k + 1)) start
          ∙ rw (rw e at there) refl))

  reads_string : (s : Bytes) → ReadsValue lim (string s)
  unfolding text size Fits dispatch
  reads_string s d n k rest fit room ends = given_fuel _ λ f h.
      let (t, e) = quoted-first lim s fit.1 in
      let there = parse_string-quoted lim s rest n d (k + 1) fit.1 in
      rw e (read_at null b'"' (t ++ rest) n d k f room (rw (rw e at there) refl))

  -- Behind the opening byte, given what the loop does.
  reads_array : (v : Value) (es : Elems) → ReadsElems lim v es → ReadsValue lim (array (elem v es))
  unfolding text elems_text size elems_size Fits FitsElems dispatch append_elems
  reads_array v es loop d n k rest fit room ends = given_fuel _ λ f h.
      let (c, t, e, first) = text-first lim (d + 1) v fit.2.0 in
      let there =
        loop no_elems (d + 1) (n + 1) (k + 1) rest fit.2.0 fit.2.1 (omega (arith, fit.1))
          (omega (arith, room)) f (omega (arith, h)) in
      rw (append_assoc (text v) (more_elems es) rest, e)
        (read_at null b'[' _ n d k f (omega (arith, room)) (
          parse_array-state lim (array_loop lim f) c (t ++ (more_elems es ++ rest)) n d (k + 1)
            fit.0 first
          ∙ rw (rw e at there) (
              landed refl rest (omega (arith, length-append (c ∷ t) (more_elems es))) (omega arith)
                (omega arith))))

  reads_object :
      (key : Bytes) (v : Value) (ms : Members)
      → ReadsMembers lim key v ms
      → ReadsValue lim (object (member key v ms))
  unfolding text members_text size members_size Fits FitsMembers dispatch append_members mem_key
  reads_object key v ms loop d n k rest fit room ends = given_fuel _ λ f h.
      let (open_, few, apart, all) = fit in
      let (t, e) = quoted-first lim key all.0 in
      let more = b':' ∷ (text v ++ more_members ms) in
      let fresh = Fresh-Pairwise lim no_members (member key v ms) (λ _ _. refl) apart in
      let there =
        loop no_members (d + 1) (n + 1) (k + 1) rest all.0 all.1 all.2 fresh (omega (arith, few))
          (omega (arith, room)) f (omega (arith, h)) in
      let behind = b':' ∷ (text v ++ (more_members ms ++ rest)) in
      rw (append_assoc (quoted key) more rest, append_assoc (text v) (more_members ms) rest, e)
        (read_at null b'{' _ n d k f (omega (arith, room)) (
          parse_object-state lim (object_loop lim f) (t ++ behind) n d (k + 1) open_
          ∙ rw (rw e at there) (
              landed refl rest
                (omega
                  (arith, length-append (b'"' ∷ t) more, length-append (text v) (more_members ms)))
                (omega arith) (omega arith))))

  mutual
    unfolding Fits

    -- In front of a comma, a closing byte or the end, `parseValue` reads the text of a value as that
    -- value, and counts its values.
    pub parse_value-text : (v : Value) → ReadsValue lim v
    parse_value-text null = reads_null
    parse_value-text (bool s) = reads_bool s
    parse_value-text (number x) = reads_number x
    parse_value-text (string s) = reads_string s
    parse_value-text (array no_elems) = reads_no_elems
    parse_value-text (array (elem v es)) =
        reads_array v es (array_loop-text v es (parse_value-text v))
    parse_value-text (object no_members) = reads_no_members
    parse_value-text (object (member key v ms)) =
        reads_object key v ms (object_loop-text key v ms (parse_value-text v))
    parse_value-text (unknown i) = λ d n k rest fit. absurd fit

    array_loop-text : (v : Value) (es : Elems) → ReadsValue lim v → ReadsElems lim v es
    array_loop-text v no_elems reads = reads_last lim v reads
    array_loop-text v (elem w es) reads =
        reads_next lim v reads w es (array_loop-text w es (parse_value-text w))

    object_loop-text :
        (key : Bytes) (v : Value) (ms : Members) → ReadsValue lim v → ReadsMembers lim key v ms
    object_loop-text key v no_members reads = reads_last_member lim key v reads
    object_loop-text key v (member next w ms) reads =
        reads_next_member lim key v reads next w ms
          (object_loop-text next w ms (parse_value-text w))
