-- ===== src/Jcs/Canon/Legible.antt =====
-- jcstoken/token.go: numbers that the parser reads back from their text, and where a value can end.
use jcs_schubfach.Prelude.{
  ℕ, ◌+◌, ◌≡◌, true, ◌||◌, some, get_elem?, arith, ap, ◌∙◌, [], ◌∷◌, ◌++◌, ◌==◌, Bytes, length,
}
use jcs_schubfach.Float64.{Float64}
use jcs_schubfach.Jcstoken.Number.{parse_number}
use jcs_schubfach.Jcstoken.Number.Anywhere.{parse_number-relocate}
use jcs_schubfach.Jcstoken.Number.Ascii.{
  IsAscii, starts_number, parse_number-AsciiTo, parse_number-starts,
}
use jcs_schubfach.Jcstoken.Number.Local.{Stops}
use jcs_schubfach.Jcstoken.Number.Scan.{parse_number-Ensures}
use jcs_schubfach.Jcstoken.Options.{Limits}
use jcs_schubfach.Jcstoken.Parser.{initial}
use jcs_schubfach.Jcstoken.State.{Parser}
use jcs_schubfach.Jcs.Canon.{number_text}
use jcs_schubfach.Result.{ok, WhenOk-ok, Ensures-ok}

abbrev pub state : Bytes → ℕ → ℕ → ℕ → Parser
state rest at_ depth count = record { rest = rest; at = at_; depth = depth; value_count = count }

-- The end of the input, or a byte that can follow a value in a text.
abbrev pub Ends : Bytes → Type 0
Ends [] = Unit
Ends (b ∷ s) = (b == b',' || (b == b']' || b == b'}')) ≡ true

-- The text of the number is in ASCII, starts as a number, and is read back in front of any end.
pub record Legible (lim : Limits) (f : Float64) : Type 0 where
  pub start : (c : ℕ) × (t : Bytes) × (number_text f ≡ c ∷ t) × (starts_number c ≡ true)
  pub ascii : IsAscii (number_text f)
  pub reads :
      (rest : Bytes) (n d k : ℕ)
      → Ends rest
      → parse_number lim (state (number_text f ++ rest) n d k)
        ≡ ok (f, state rest (n + length (number_text f)) d k)

-- The text of the number, alone, is read as that number.
abbrev pub ReadsBack : Limits → Float64 → Type 0
ReadsBack lim f =
    (q : Parser) × (q.rest ≡ []) × (parse_number lim (initial (number_text f)) ≡ ok (f, q))

Ends-Stops : (rest : Bytes) → Ends rest → Stops rest
Ends-Stops [] h = tt
Ends-Stops (b ∷ s) h = ground (arith, h)

first_byte : (s : Bytes) {c : ℕ} → get_elem? s 0 ≡ some c → (t : Bytes) × (s ≡ c ∷ t)
first_byte [] e = cc
first_byte (b ∷ s) e = (s, cc e)

-- That is enough for a number to be read back wherever it stands.
pub ReadsBack-Legible : (lim : Limits) (f : Float64) → ReadsBack lim f → Legible lim f
ReadsBack-Legible lim f (q, empty, e) = record {
  start = starts;
  ascii = WhenOk-ok (parse_number-AsciiTo lim (initial (number_text f))) e (rw empty tt);
  reads = anywhere;
}
  where
    starts : (c : ℕ) × (t : Bytes) × (number_text f ≡ c ∷ t) × (starts_number c ≡ true)
    starts =
        let (c, first, start) = parse_number-starts lim (initial (number_text f)) e in
        let (t, same) = first_byte (number_text f) first in (c, t, same, start)

    anywhere :
        (rest : Bytes) (n d k : ℕ)
        → Ends rest
        → parse_number lim (state (number_text f ++ rest) n d k)
          ≡ ok (f, state rest (n + length (number_text f)) d k)
    anywhere rest n d k ends =
        let whole = number_text f in
        let (_, moved, _) = Ensures-ok (parse_number-Ensures lim (initial whole)) e in
        let same : n ≡ n + 0 = omega arith in
        let end : q.at ≡ length whole = omega (arith, moved, ap length empty) in
        ap (λ m. parse_number lim (state (whole ++ rest) m d k)) same
        ∙ parse_number-relocate lim rest n d k (initial whole) (Ends-Stops rest ends) e
        ∙ (λ i. ok (f, state (empty i ++ rest) (n + end i) d k))
