-- ===== src/Jcs/Canon/Numbers.antt =====
-- jcstoken/token.go: a property of the numbers in a value.
use jcs_schubfach.Float64.{Float64}
use jcs_schubfach.Jcstoken.Value.{
  Value, Elems, Members, null, bool, number, string, array, object, unknown, no_elems, elem,
  no_members, member,
}

module _ (P : Float64 → Type 0) where
  unfoldable mutual
    -- Each number in a value has the property `P`.
    pub EachNumber : Value → Type 0
    EachNumber (number f) = P f
    EachNumber (array es) = EachOfElems es
    EachNumber (object ms) = EachOfMembers ms
    EachNumber _ = Unit

    pub EachOfElems : Elems → Type 0
    EachOfElems no_elems = Unit
    EachOfElems (elem v es) = EachNumber v × EachOfElems es

    pub EachOfMembers : Members → Type 0
    EachOfMembers no_members = Unit
    EachOfMembers (member k v ms) = EachNumber v × EachOfMembers ms

module _ {P Q : Float64 → Type 0} (h : (f : Float64) → P f → Q f) where
  mutual
    unfolding EachNumber EachOfElems EachOfMembers

    pub EachNumber-map : (v : Value) → EachNumber P v → EachNumber Q v
    EachNumber-map null each = tt
    EachNumber-map (bool s) each = tt
    EachNumber-map (number f) each = h f each
    EachNumber-map (string s) each = tt
    EachNumber-map (array es) each = EachOfElems-map es each
    EachNumber-map (object ms) each = EachOfMembers-map ms each
    EachNumber-map (unknown k) each = tt

    EachOfElems-map : (es : Elems) → EachOfElems P es → EachOfElems Q es
    EachOfElems-map no_elems each = tt
    EachOfElems-map (elem v es) each = (EachNumber-map v each.0, EachOfElems-map es each.1)

    EachOfMembers-map : (ms : Members) → EachOfMembers P ms → EachOfMembers Q ms
    EachOfMembers-map no_members each = tt
    EachOfMembers-map (member k v ms) each = (EachNumber-map v each.0, EachOfMembers-map ms each.1)

module _ {P : Float64 → Type 0} (h : (f : Float64) → P f) where
  mutual
    unfolding EachNumber EachOfElems EachOfMembers

    pub EachNumber-all : (v : Value) → EachNumber P v
    EachNumber-all null = tt
    EachNumber-all (bool s) = tt
    EachNumber-all (number f) = h f
    EachNumber-all (string s) = tt
    EachNumber-all (array es) = EachOfElems-all es
    EachNumber-all (object ms) = EachOfMembers-all ms
    EachNumber-all (unknown k) = tt

    EachOfElems-all : (es : Elems) → EachOfElems P es
    EachOfElems-all no_elems = tt
    EachOfElems-all (elem v es) = (EachNumber-all v, EachOfElems-all es)

    EachOfMembers-all : (ms : Members) → EachOfMembers P ms
    EachOfMembers-all no_members = tt
    EachOfMembers-all (member k v ms) = (EachNumber-all v, EachOfMembers-all ms)
