-- ===== src/Cli/Piped.antt =====
-- cmd/jcs-canon/main.go: what `canonicalize` writes, given to `verify`.
use jcs_schubfach.Prelude.{
  ℕ, ◌+◌, ◌≤◌, ◌≡◌, ap, sym, ◌∙◌, inl, inr, false, Option-cases, Bool-cases, true, none, List, [],
  ◌∷◌, ◌++◌, arith, codes, ltb, Bytes, length, take,
}
use jcs_schubfach.Cli.{
  Environment, World, Flags, Source, contents, broken, raw, is_arg, for_file, parse_flags, no_flags,
  read_bounded, read_input, cmd_canonicalize, cmd_verify,
}
use jcs_schubfach.Cli.Canonical.{cmd_canonicalize_sound}
use jcs_schubfach.Cli.Outcome.{Reads}
use jcs_schubfach.Cli.Verify.{cmd_verify_complete}
use jcs_schubfach.Jcs.Canon.Idempotent.{canonicalize_with_options-idempotent}
use jcs_schubfach.Jcs.Canon.Legible.{ReadsBack}
use jcs_schubfach.Jcs.Canon.Numbers.{EachNumber}
use jcs_schubfach.Jcs.Serialize.{canonicalize, canonicalize_with_options}
use jcs_schubfach.Jcstoken.Options.{limits}
use jcs_schubfach.Jcstoken.Parser.{parse}
use jcs_schubfach.Jcstoken.Value.{Value}
use jcs_schubfach.Result.{ok_inj, unless-eq-ok, fail-ok, Result, ok, err, out_of_fuel}

read_bounded-short :
    (source : Source) (limit : ℕ) {s : Bytes} → read_bounded source limit ≡ ok s → length s ≤ limit
unfolding read_bounded
read_bounded-short broken limit e = cc
read_bounded-short (contents t) limit e =
    let (short, same) = unless-eq-ok (ltb limit (length (take (limit + 1) t))) _ _ _ e in
    let equal_ = ap length (ok_inj same) in ground (arith, short, equal_)

for_file-ok : (r : Result Bytes) {s : Bytes} → for_file r ≡ ok s → r ≡ ok s
unfolding for_file
for_file-ok (ok t) e = e
for_file-ok (err x) e = cc
for_file-ok out_of_fuel e = cc

-- A command reads no more than the limit.
read_input-short :
    (env : Environment) (positional : List Bytes) (limit : ℕ) {s : Bytes}
    → read_input env positional limit ≡ ok s
    → length s ≤ limit
unfolding read_input
read_input-short env [] limit e = read_bounded-short env.stdin limit e
read_input-short env (p ∷ ps) limit e = elim (Bool-cases (is_arg p (codes "-"))) [
  | inl dash ↦ read_bounded-short env.stdin limit (rw dash at e)
  | inr file ↦ elim (Option-cases (env.open_file p)) [
    | inl missing ↦ absurd (fail-ok (rw (file, missing) at e))
    | inr (source, found) ↦ read_bounded-short source limit (for_file-ok _ (rw (file, found) at e))
  ]
]

-- A `canonicalize` command that ends with exit code 0 has written bytes that a quiet `verify` command
-- reading them accepts: it ends with exit code 0 and writes nothing. The numbers of the input are
-- read back from their texts, and neither command is asked for help.
pub cmd_verify-cmd_canonicalize :
    (env next : Environment) (args positional args' positional' : List Bytes) (fl fl' : Flags)
    (w w' : World) (input out : Bytes) (v : Value)
    → parse_flags args no_flags [] ≡ ok (fl, positional)
    → fl.help ≡ false
    → parse_flags args' no_flags [] ≡ ok (fl', positional')
    → fl'.help ≡ false
    → fl'.quiet ≡ true
    → w.stdout.written ≡ []
    → Reads env positional input
    → parse input ≡ ok v
    → EachNumber (ReadsBack (limits none)) v
    → (cmd_canonicalize env args w).0 ≡ 0
    → (cmd_canonicalize env args w).1.stdout.written ≡ raw out ∷ []
    → Reads next positional' out
    → cmd_verify next args' w' ≡ (0, w')
unfolding canonicalize canonicalize_with_options parse limits
cmd_verify-cmd_canonicalize env next args positional args' positional' fl fl' w w' input out v flags
      no_help flags' no_help' quiet fresh reads parsed each done wrote piped =
    let (s, o, reads_s, canonical, written, _) =
      cmd_canonicalize_sound env args positional fl w flags no_help done in
    let same_input : s ≡ input = ok_inj (sym reads_s.1 ∙ reads.1) in
    let same_out : o ≡ out = same (sym (written ∙ ap (λ ws. ws ++ raw o ∷ []) fresh) ∙ wrote) in
    let from_input : canonicalize input ≡ ok out =
      ap canonicalize (sym same_input) ∙ canonical ∙ ap ok same_out in
    let again =
      canonicalize_with_options-idempotent input none v parsed out from_input each
        (read_input-short next positional' _ piped.1) in
    cmd_verify_complete next args' positional' fl' w' flags' no_help' out quiet piped again
  where
    same : {a b : Bytes} → raw a ∷ [] ≡ raw b ∷ [] → a ≡ b
    same e = cc
