-- ===== src/Jcsfloat/Ryu.antt =====
-- jcsfloat/jcsfloat.go: `ryuShortest`, the shortest decimal in an interval of scaled integers.
use jcs_schubfach.Prelude.{
  ℕ, zero, suc, ◌+◌, ◌-◌, ◌/◌, ◌%◌, Bool, false, not, ◌&&◌, ◌||◌, ltb, ◌==◌, if◌then◌else◌, Bytes,
  length,
}
use jcs_schubfach.Jcsfloat.Decimal.{render, trim_zeros}
use jcs_schubfach.Prelude.Int.{ℤ, pos, ◌-ℤ◌}

-- The variables of the loop.
pub record Trim : Type 0 where
  pub dl : ℕ
  pub dc : ℕ
  pub du : ℕ
  pub c0 : Bool
  pub cup : Bool
  pub trimmed : ℕ
  pub next_digit : ℕ

-- The interval of `t` admits the centre above its own: `l == c+1 && c < u`.
abbrev pub centre_below : Trim → Bool
centre_below t = (t.dl + 9) / 10 == t.dc / 10 + 1 && ltb (t.dc / 10) (t.du / 10)

-- One round of the loop.
abbrev pub trim_digit : Trim → Trim
trim_digit t =
    let bump = centre_below t in
    record {
      dl = (t.dl + 9) / 10;
      dc = if bump then t.dc / 10 + 1 else t.dc / 10;
      du = t.du / 10;
      c0 = t.c0 && t.next_digit == 0;
      cup = if bump then false else t.cup;
      trimmed = t.trimmed + 1;
      next_digit = if bump then 0 else t.dc % 10;
    }

-- `for du > 0 { …; if l > u { break }; … }`
unfoldable pub trim_loop : ℕ → Trim → Trim
trim_loop zero t = t
trim_loop (suc f) t =
    let more = trim_loop f (trim_digit t) in
    if t.du == 0 || ltb (t.du / 10) ((t.dl + 9) / 10) then t else more

-- Rounding of the centre behind the loop.
abbrev pub rounds_up : Trim → Bool
rounds_up t =
    if ltb 0 t.trimmed
    then ltb 5 t.next_digit
      || ((t.next_digit == 5 && not t.c0) || (t.next_digit == 5 && (t.c0 && t.dc % 2 == 1)))
    else t.cup

abbrev pub rounded : Trim → ℕ
rounded t = if ltb t.dc t.du && rounds_up t then t.dc + 1 else t.dc

-- A word has at most 20 digits, so 20 rounds are enough.
abbrev pub trim_fuel : ℕ
trim_fuel = 20

abbrev pub start : ℕ → ℕ → ℕ → Bool → Bool → Trim
start l c u exact up = record {
  dl = l;
  dc = c;
  du = u;
  c0 = exact;
  cup = up;
  trimmed = 0;
  next_digit = 0;
}

-- `ryuShortest`: the digits, and the position of the decimal point.
unfoldable pub ryu_shortest : ℕ → ℕ → ℕ → Bool → Bool → ℤ → Bytes × ℤ
unfolding ◌-ℤ◌
ryu_shortest l c u exact up q =
    let t = trim_loop trim_fuel (start l c u exact up) in
    let whole = render (rounded t) in
    let digits = trim_zeros whole in
    (digits, pos (length whole + (t.trimmed + (length whole - length digits))) -ℤ q)
