-- ===== src/Jcstoken/State.antt =====
-- jcstoken/token.go: the parser's state and the primitives that move it.
-- `rest` is `data[pos:]`, so `pos >= len(data)` reads `rest` empty; the limits are an argument.
pub mod Moves
use mathlib.Core.Option
use jcs_schubfach.Prelude.{
  ℕ, ◌+◌, ◌-◌, Bool, ◌||◌, Option, none, some, [], ◌∷◌, ltb, ◌==◌, if◌then◌else◌, Bytes, drop,
  get_elem?,
}
use jcs_schubfach.Prelude.Int.{pos}
use jcs_schubfach.Jcserr.{FailureClass, invalid_grammar, bound_exceeded}
use jcs_schubfach.Jcstoken.Options.{Limits}
use jcs_schubfach.Result.{Result, ok, fail}

pub record Parser : Type 0 where
  pub rest : Bytes
  pub at : ℕ
  pub depth : ℕ
  pub value_count : ℕ

-- `p.pos += n`
abbrev pub advance : ℕ → Parser → Parser
advance n p = record p { rest = drop n p.rest; at = p.at + n }

-- `newError` and `newErrorf`: an error at the current position.
abbrev pub new_error {ℓ} : {A : Type ℓ} → FailureClass → Parser → Result A
new_error c p = fail c (pos p.at)

abbrev pub peek : Parser → Option ℕ
peek p = get_elem? p.rest 0

-- `next`: the byte read, and the parser behind it.
abbrev pub next : Parser → Option (ℕ × Parser)
next p = Option.map (λ b. (b, advance 1 p)) (peek p)

-- `expect`: a wrong byte is consumed before it is reported.
unfoldable pub expect : ℕ → Parser → Result Parser
expect b p = elim (next p) [
  | none ↦ new_error invalid_grammar p
  | some (c, q) ↦ if c == b then ok q else new_error invalid_grammar q
]

-- The cases of the switch in `skipWhitespace`.
abbrev pub is_space : ℕ → Bool
is_space c = c == b' ' || (c == b'\t' || (c == b'\n' || c == b'\r'))

unfoldable pub skip_from : Bytes → ℕ → Bytes × ℕ
skip_from [] n = ([], n)
skip_from (b ∷ r) n = let more = skip_from r (n + 1) in if is_space b then more else (b ∷ r, n)

unfoldable pub skip_whitespace : Parser → Parser
skip_whitespace p = let s = skip_from p.rest p.at in record p { rest = s.0; at = s.1 }

-- `pushDepth`
unfoldable pub push_depth : Limits → Parser → Result Parser
push_depth lim p =
    let q = record p { depth = p.depth + 1 } in
    if ltb lim.max_depth q.depth then new_error bound_exceeded q else ok q

-- `popDepth`
abbrev pub pop_depth : Parser → Parser
pop_depth p = record p { depth = p.depth - 1 }
