-- ===== src/Jcs/Canon/Reading/Loops.antt =====
-- jcstoken/token.go: one round of the loops of `parseArray` and `parseObject` over the text of a value.
use jcs_schubfach.Prelude.{
  ℕ, suc, ◌+◌, ◌<◌, ◌≡◌, refl, false, [], ◌∷◌, ◌++◌, arith, leb, Bytes, length,
}
use jcs_schubfach.Jcstoken.Options.{Limits}
use jcs_schubfach.Jcstoken.Parser.{
  mem_key, separator, parse_key, parse_value, array_loop, object_loop,
}
use jcs_schubfach.Jcstoken.State.{expect, skip_whitespace}
use jcs_schubfach.Jcstoken.Strings.{parse_string}
use jcs_schubfach.Jcstoken.Value.{
  Value, Elems, Members, array, object, snoc_elem, snoc_member, count_elems, count_members, keys,
}
use jcs_schubfach.Jcs.Canon.{quoted}
use jcs_schubfach.Jcs.Canon.Fits.{FitsString}
use jcs_schubfach.Jcs.Canon.Legible.{state}
use jcs_schubfach.Jcs.Escape.RoundTrip.{parse_string-serialize_string}
use jcs_schubfach.Result.{ok, reject_if}
use jcs_schubfach.Jcs.Canon.Reading.{FirstByte, skip_whitespace-state, quoted-first}

module _ (lim : Limits) where
  not_leb : (a b : ℕ) → b < a → leb a b ≡ false
  not_leb a b h = ground arith

  -- One round of the loop of `parseArray`, at the last element and at another.
  module _ (f : ℕ) (acc : Elems) (v : Value) (c : ℕ) (s t : Bytes) (n n' d k k' : ℕ)
      (first : FirstByte c) (room : count_elems acc < lim.max_array_elements) where
    pub array_loop-last :
        parse_value lim f (state (c ∷ s) n d k) ≡ ok (v, state (b']' ∷ t) n' d k')
        → array_loop lim (suc f) acc (state (c ∷ s) n d k)
          ≡ ok (array (snoc_elem acc v), state t (n' + 1) d k')
    unfolding array_loop separator reject_if
    array_loop-last h =
        rw
          (
            skip_whitespace-state c s n d k first.0,
            h,
            not_leb _ _ room,
            skip_whitespace-state b']' t n' d k' refl,
          )
          refl

    pub array_loop-next :
        parse_value lim f (state (c ∷ s) n d k) ≡ ok (v, state (b',' ∷ t) n' d k')
        → array_loop lim (suc f) acc (state (c ∷ s) n d k)
          ≡ array_loop lim f (snoc_elem acc v) (state t (n' + 1) d k')
    unfolding array_loop separator reject_if
    array_loop-next h =
        rw
          (
            skip_whitespace-state c s n d k first.0,
            h,
            not_leb _ _ room,
            skip_whitespace-state b',' t n' d k' refl,
          )
          refl

  skip_whitespace-quoted :
      (s rest : Bytes) (n d k : ℕ)
      → FitsString lim s
      → skip_whitespace (state (quoted s ++ rest) n d k) ≡ state (quoted s ++ rest) n d k
  skip_whitespace-quoted s rest n d k fits =
      let (t, e) = quoted-first lim s fits in
      rw e (skip_whitespace-state b'"' (t ++ rest) n d k refl)

  pub parse_string-quoted :
      (s rest : Bytes) (n d k : ℕ)
      → FitsString lim s
      → parse_string lim (state (quoted s ++ rest) n d k)
        ≡ ok (s, state rest (n + length (quoted s)) d k)
  parse_string-quoted s rest n d k fits =
      parse_string-serialize_string lim s rest (state [] n d k) fits.0 fits.1

  -- The key of a member and the colon, up to the first byte of its value.
  parse_key-state :
      (acc : Members) (key : Bytes) (c : ℕ) (s : Bytes) (n d k : ℕ)
      → FitsString lim key
      → mem_key key (keys acc) ≡ false
      → FirstByte c
      → parse_key lim acc (state (quoted key ++ (b':' ∷ c ∷ s)) n d k)
        ≡ ok (key, state (c ∷ s) (n + length (quoted key) + 1) d k)
  unfolding parse_key reject_if expect
  parse_key-state acc key c s n d k fits new first =
      let m = n + length (quoted key) in
      rw
        (
          skip_whitespace-quoted key (b':' ∷ c ∷ s) n d k fits,
          parse_string-quoted key (b':' ∷ c ∷ s) n d k fits,
          new,
          skip_whitespace-state b':' (c ∷ s) m d k refl,
          skip_whitespace-state c s (m + 1) d k first.0,
        )
        refl

  -- One round of the loop of `parseObject`, at the last member and at another.
  module _ (f : ℕ) (acc : Members) (key : Bytes) (v : Value) (c : ℕ) (s t : Bytes) (n n' d k k' : ℕ)
      (fits : FitsString lim key) (new : mem_key key (keys acc) ≡ false) (first : FirstByte c)
      (room : count_members acc < lim.max_object_members)
      (value : parse_value lim f (state (c ∷ s) (n + length (quoted key) + 1) d k)
        ≡ ok (v, state t n' d k')) where
    pub object_loop-last :
        (rest : Bytes)
        → t ≡ b'}' ∷ rest
        → object_loop lim (suc f) acc (state (quoted key ++ (b':' ∷ c ∷ s)) n d k)
          ≡ ok (object (snoc_member acc key v), state rest (n' + 1) d k')
    unfolding object_loop separator reject_if
    object_loop-last rest e =
        rw
          (
            parse_key-state acc key c s n d k fits new first,
            value,
            not_leb _ _ room,
            e,
            skip_whitespace-state b'}' rest n' d k' refl,
          )
          refl

    pub object_loop-next :
        (rest : Bytes)
        → t ≡ b',' ∷ rest
        → object_loop lim (suc f) acc (state (quoted key ++ (b':' ∷ c ∷ s)) n d k)
          ≡ object_loop lim f (snoc_member acc key v) (state rest (n' + 1) d k')
    unfolding object_loop separator reject_if
    object_loop-next rest e =
        rw
          (
            parse_key-state acc key c s n d k fits new first,
            value,
            not_leb _ _ room,
            e,
            skip_whitespace-state b',' rest n' d k' refl,
          )
          refl
