-- ===== src/Lib.antt =====
-- A model of the canonicalizer of this repository (RFC 8785, JSON Canonicalization Scheme), its
-- command line, and the offline replays by which a release is attested, with the theorems that make
-- them correct.
--
-- The program: `jcs.Canonicalize` (jcs/serialize.go) parses its input with `jcstoken.Parse`
-- (jcstoken/token.go), checks the value against the limits (`validateValueTree`), and writes it:
-- strings with the shortest escapes, the members of an object in the order of the UTF-16 code units
-- of their keys, numbers by `jcsfloat.FormatDouble` (jcsfloat/jcsfloat.go, format.go and
-- pow10_table.go). Every failure is an error of jcserr/errors.go, whose class decides the exit code of
-- the command jcs-canon (cmd/jcs-canon/main.go), which canonicalizes an input or verifies that it is
-- canonical.
--
-- Around it, jcs-gate (cmd/jcs-gate/main.go) runs the gates of the repository, and the library
-- offline/replay runs the canonicalizer on a matrix of nodes: `RunMatrix` (run.go) takes a matrix and
-- a profile (config.go), lets an adapter of offline/runtime prepare, replay and clean up each required
-- node, collects the evidence and ends with `ValidateEvidenceBundle` (evidence.go). On the node,
-- jcs-offline-worker (cmd/jcs-offline-worker/main.go) checks the bundle, runs its vectors and writes
-- the evidence. The command jcs-offline-replay (cmd/jcs-offline-replay) starts these runs, verifies
-- evidence against the files that it is about, and summarizes and compares it.
--
-- Files, with the code that they model:
--   Jcserr            jcserr/errors.go: FailureClass, ExitCode, Error (`new` and `wrap`), Unwrap
--   Jcstoken.Options  jcstoken/token.go: the defaults, Options, resolveOption, maxDepth and its like;
--                     also resolveSerializeLimits of jcs/serialize.go, which computes the same limits
--   Jcstoken.Value    Value, Kind and Member as one sum
--   Jcstoken.State    the parser's state, peek, next, expect, skipWhitespace, pushDepth, popDepth
--   Jcstoken.Strings  parseString, parseEscape, parseUnicodeEscape, readHex4, validateStringRune,
--                     IsNoncharacter
--   Jcstoken.Number   parseNumber, its scanners, buildNumberValue, tokenRepresentsZero
--   Jcstoken.Parser   parseValue, parseArray, parseObject, ParseWithOptions, Parse
--   Jcs.Escape        jcs/serialize.go: serializeString, appendEscapedByte, byteSpanForCopy
--   Jcs.Keys          sortableMember, isASCII, compareSortKeys, compareUTF16Units, the sort
--   Jcs.Validate      validateValueTree, validateString
--   Jcs.Serialize     serializeValue and its parts, Serialize, Canonicalize, and the forms with options
--   Jcs.Canon         the canonical form described without buffers, limits and errors: the value with
--                     its members in order (`in_order`) and its text (`text`), against both of these
--   Jcsfloat          jcsfloat/jcsfloat.go: FormatDouble
--   Jcsfloat.Decimal  formatUint, countDecimalDigits, and the printing of digits in ryuShortest
--   Jcsfloat.Format   jcsfloat/format.go: formatECMA and its parts
--   Jcsfloat.Ryu      ryuShortest
--   Jcsfloat.Shortest shortestDecimal, computeBounds, mult128bitPow10, divisibleByPower5
--   Jcsfloat.Pow10    jcsfloat/pow10_table.go, in five parts
--   Cli               cmd/jcs-canon/main.go: run, cmdCanonicalize, cmdVerify, parseFlags, readInput
--   Gate              cmd/jcs-gate/main.go: requiredGateSteps, run
--   Replay.Config     offline/replay/config.go: ValidateMatrix, ValidateProfile, requiredNodeIDs,
--                     requiredReplayCount, ValidateReleaseArchitecture
--   Replay.Evidence   offline/replay/evidence.go: ValidateEvidenceBundle and what it calls
--   Replay.Run        offline/replay/run.go: RunMatrix
--   Replay.Adapter    offline/runtime/container/runner.go and offline/runtime/libvirt/runner.go, and
--                     adapterFactory of cmd/jcs-offline-replay/main.go
--   Replay.Audit      cmd/jcs-offline-replay/offline_harness.go: buildAuditSummary, buildCrossArchReport
--   Replay.Verify     cmd/jcs-offline-replay/main.go: parseKV, cmdVerifyEvidence and what it calls
--   Replay.Dispatch   run and dispatchSubcommand there
--   Worker.Arguments  cmd/jcs-offline-worker/main.go: parseKV, parseWorkerArgs
--   Worker.Checksums  verifyExtractedBundle and what it calls
--   Worker.Vectors    runVectors, processVectorLine, recordDigests, extractFailureClass
--   Worker.Run        run of that command
--   Replay.Outcome    the outcomes of these, and chains of checks
--   Text, Sort        what they use of strings, strconv, unicode, encoding/hex and sort
--   Unicode, Float64  what the source uses of unicode/utf8, unicode/utf16, math and strconv
--   Prelude, Result   library names, lists, integers, Boolean tests; outcomes and chains of them
--   Tests             runs on concrete inputs
-- The modules below a component hold its proofs and are named for what they prove.
--
-- Conventions. A byte, a code point and a code unit are natural numbers; the length of a list and the
-- positions are too. A 64-bit word is a natural number below 2 ^ 64, with `% 2 ^ 64` where the source
-- can wrap; `int` is an integer without bounds. A float64 is its bit pattern. A parser holds
-- `data[pos:]` and `pos` in place of `data` and `pos`. An operation that returns `(value, error)`
-- returns `ok`, `err`, or, in the model alone, `out_of_fuel`. A nil `*Options` is `none`. The map
-- `seen` of an object is the list of the keys before. `sort.Slice` is an insertion sort.
-- `strconv.ParseFloat` is the exact rational value of the literal, rounded to the nearest double, ties
-- to even. A stream takes each write or refuses it, as its list of coming writes says; a source is its
-- bytes or is broken; a file is looked up by name.
-- Below offline/, an error is the format of its message, without what is put in or wrapped, a Go map
-- is the list of its entries, and a nil pointer or function is `none`. The world of `RunMatrix` is a
-- parameter: adapters, the factory, making and removing the temporary directory, and
-- `LoadNodeRunEvidence` are functions that act on it, and the time is a text. The order of the calls is proved for the world that records
-- them, with adapters that answer in any way. A command that an adapter or jcs-gate runs is a function
-- of its words and environment that acts on the world. For the worker, the extracted files and the
-- lines of a vector file do not change while it runs, a path stands for the file below the temporary
-- directory, sha256 is a function that gives hexadecimal text, and an execution of the binary acts on the world.
--
-- Fuel. `parse_value` and its loops call each other at most twice for a byte that is consumed, so
-- `2 * length + 2` is enough for any input. The loop of `parseString` consumes a byte in each round
-- and gets one round more than there are bytes. A 64-bit word has at most 20 digits, the fuel of the
-- loop of `ryuShortest` and of the printing of digits. An integer that strconv.Itoa prints is itself
-- the bound on the rounds.
--
-- Numbers. That `ParseFloat` gives back the double whose shortest digits `FormatDouble` has written is not
-- proved here. Where it is needed it is the hypothesis `ReadsBack` on each number of the value: its
-- text, alone, is read by `parseNumber` as that number, which can be computed for any given number.
--
-- Not modelled: the text of messages and errors of other packages inside an error, so the text that
-- the command writes for an error is the error itself; `main`, and the version lookup of `init`, whose
-- result is a field of the environment. Shifts in `shortestDecimal` are modelled for amounts below 64.
-- Of offline/replay, what reads and writes JSON documents is left to encoding/json (LoadMatrix,
-- LoadProfile, LoadEvidence and their like); of bundle.go, which packs and checks archives, only the
-- manifest is modelled. The command jcs-offline-replay, but for its dispatch, its choice of
-- the adapter, verify-evidence, the audit summary and the report that compares two architectures, runs
-- processes and writes files; `OSRunner` of offline/runtime/executil calls os/exec, and the worker's
-- extraction of an archive calls archive/tar. The conformance suites are tests.
pub mod Prelude
pub mod Result
pub mod Unicode
pub mod Float64
pub mod Jcsfloat
pub mod Jcs
pub mod Cli
pub mod Gate
pub mod Replay
pub mod Text
pub mod Worker
pub mod Sort
mod Tests
pub mod Jcserr
pub mod Jcstoken
