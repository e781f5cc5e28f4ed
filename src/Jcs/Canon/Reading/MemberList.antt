-- ===== src/Jcs/Canon/Reading/MemberList.antt =====
-- jcstoken/token.go: the loop of `parseObject` reads the texts of members back.
use mathlib.Core.List.{Mem, Memᴰ, Pairwise, mem-cons_of_mem}
use jcs_schubfach.Prelude.{
  ℕ, ◌+◌, ◌*◌, ◌≤◌, ◌<◌, ◌≡◌, ◌≢◌, refl, ap, sym, ◌∙◌, false, ◌∷◌, ◌++◌, append_assoc, arith, Bytes,
  length, length-append, equal_iff,
}
use jcs_schubfach.Jcstoken.Options.{Limits}
use jcs_schubfach.Jcstoken.Parser.{mem_key, object_loop}
use jcs_schubfach.Jcs.Keys.{utf16_key}
use jcs_schubfach.Jcstoken.Value.{
  Value, Members, object, no_members, member, snoc_member, count_members, keys,
}
use jcs_schubfach.Jcs.Canon.{quoted, text, more_members, size, members_size}
use jcs_schubfach.Jcs.Canon.Fits.{FitsString, Fits, FitsMembers}
use jcs_schubfach.Jcs.Canon.Legible.{state, Legible}
use jcs_schubfach.Jcs.Canon.Reading.{landed, text-first}
use jcs_schubfach.Jcs.Canon.Reading.Loops.{object_loop-last, object_loop-next}
use jcs_schubfach.Jcs.Keys.Unique.{KeysDiffer}
use jcs_schubfach.Jcs.Validate.Distinct.{entries}
use jcs_schubfach.Jcs.Validate.Append.{count_members-snoc}
use jcs_schubfach.Result.{ok}
use jcs_schubfach.Jcs.Canon.Reading.ElementList.{size_pos, given_fuel, ReadsValue}

unfoldable pub append_members : Members → Members → Members
append_members no_members ms = ms
append_members (member k v acc) ms = member k v (append_members acc ms)

append_members-snoc :
    (acc : Members) (k : Bytes) (v : Value) (ms : Members)
    → append_members (snoc_member acc k v) ms ≡ append_members acc (member k v ms)
unfolding append_members snoc_member
append_members-snoc no_members k v ms = refl
append_members-snoc (member j w acc) k v ms = ap (member j w) (append_members-snoc acc k v ms)

append_members-none :
    (acc : Members) (k : Bytes) (v : Value)
    → snoc_member acc k v ≡ append_members acc (member k v no_members)
unfolding append_members snoc_member
append_members-none no_members k v = refl
append_members-none (member j w acc) k v = ap (member j w) (append_members-none acc k v)

module _ (lim : Limits) where
  -- The key of each member is new to those in front of it.
  abbrev pub Fresh : Members → Members → Type 0
  Fresh acc no_members = Unit
  Fresh acc (member k v ms) = (mem_key k (keys acc) ≡ false) × Fresh (snoc_member acc k v) ms

  -- The members from `key` on, behind the members `acc`.
  abbrev pub ReadsMembers : Bytes → Value → Members → Type 0
  ReadsMembers key v ms =
      (acc : Members) (d n k : ℕ) (rest : Bytes)
      → FitsString lim key
      → Fits lim (Legible lim) d v
      → FitsMembers lim (Legible lim) d ms
      → Fresh acc (member key v ms)
      → count_members acc + count_members (member key v ms) ≤ lim.max_object_members
      → k + (size v + members_size ms) ≤ lim.max_values
      → (f : ℕ) → 2 * (size v + members_size ms) + 1 < f
      → object_loop lim f acc
          (state (quoted key ++ (b':' ∷ (text v ++ (more_members ms ++ rest)))) n d k)
        ≡ ok (
          object (append_members acc (member key v ms)),
          state rest
              (n + (length (quoted key) + (1 + (length (text v) + length (more_members ms))))) d
              (k + (size v + members_size ms)),
        )

  pub reads_last_member :
      (key : Bytes) (v : Value) → ReadsValue lim v → ReadsMembers key v no_members
  unfolding more_members members_size
  reads_last_member key v reads acc d n k rest fits fit fit' new few room =
      let (c, t, e, first) = text-first lim d v fit in
      given_fuel _ λ f h.
        let m = n + length (quoted key) + 1 in
        let there = reads d m k (b'}' ∷ rest) fit (omega (arith, room)) refl f (omega (arith, h)) in
        rw e (
          object_loop-last lim f acc key v c (t ++ (b'}' ∷ rest)) (b'}' ∷ rest) n _ d k _ fits new.0
            first (omega (arith, few)) (rw e at there) rest refl
          ∙ landed (ap object (append_members-none acc key v)) rest (omega arith) refl
              (omega arith))

  pub reads_next_member :
      (key : Bytes) (v : Value)
      → ReadsValue lim v
      → (next : Bytes) (w : Value) (ms : Members) → ReadsMembers next w ms
      → ReadsMembers key v (member next w ms)
  unfolding more_members members_size FitsMembers
  reads_next_member key v reads next w ms others acc d n k rest fits fit fit' new few room =
      let (c, t, e, first) = text-first lim d v fit in
      let more = b':' ∷ (text w ++ more_members ms) in
      let tail = quoted next ++ (b':' ∷ (text w ++ (more_members ms ++ rest))) in
      given_fuel _ λ f h.
        let m = n + length (quoted key) + 1 in
        let there =
          reads d m k (b',' ∷ tail) fit (omega (arith, room)) refl f
            (omega (arith, h, size_pos w)) in
        let later =
          others (snoc_member acc key v) d (m + length (text v) + 1) (k + size v) rest fit'.0 fit'.1
            fit'.2 new.1 (omega (arith, few, count_members-snoc acc key v)) (omega (arith, room)) f
            (omega (arith, h, size_pos v)) in
        rw (append_assoc (quoted next) more rest, append_assoc (text w) (more_members ms) rest, e)
          (object_loop-next lim f acc key v c (t ++ (b',' ∷ tail)) (b',' ∷ tail) n _ d k _ fits
              new.0 first (omega (arith, few)) (rw e at there) tail refl
            ∙ (rw e at later)
            ∙ landed (ap object (append_members-snoc acc key v (member next w ms))) rest
                (omega (
                  arith,
                  length-append (quoted next) more,
                  length-append (text w) (more_members ms),
                ))
                refl (omega arith))

  mem_key-snoc :
      (j k : Bytes) (v : Value) (acc : Members)
      → mem_key j (keys acc) ≡ false
      → j ≢ k
      → mem_key j (keys (snoc_member acc k v)) ≡ false
  unfolding mem_key snoc_member
  mem_key-snoc j k v no_members new ne = ground (arith, equal_iff j k, ne)
  mem_key-snoc j k v (member i w acc) new ne = ground (arith, mem_key-snoc j k v acc, new, ne)

  pub Fresh-Pairwise :
      (acc ms : Members)
      → ((e : Bytes × Value) → Mem e (entries ms) → mem_key e.0 (keys acc) ≡ false)
      → Pairwise KeysDiffer (entries ms)
      → Fresh acc ms
  unfolding entries
  Fresh-Pairwise acc no_members new apart = tt
  Fresh-Pairwise acc (member k v ms) new (Pairwise.cons h t) = (
    new (k, v) ∣ Memᴰ.head refl ∣₁,
    Fresh-Pairwise (snoc_member acc k v) ms
        (λ e m.
          mem_key-snoc e.0 k v acc (new e (mem-cons_of_mem (k, v) m))
            (λ same. h e m (ap utf16_key (sym same))))
        t,
  )
