-- ===== src/Worker/Later.antt =====
-- cmd/jcs-offline-worker/main.go: the map `checks`, in which a later entry takes the place of an
-- earlier one.
use jcs_schubfach.Prelude.{
  ◌≡◌, ◌≢◌, ◌↔◌, ◌⊎◌, sym, ◌∙◌, inl, inr, false, Bool-cases, [], ◌∷◌, Bytes, All, equal, equal_iff,
}
use jcs_schubfach.Replay.Config.{Env}
use jcs_schubfach.Replay.Run.{set_env, set_all}

-- No two entries for one key.
abbrev Apart : Env → Type 0
Apart [] = Unit
Apart (e ∷ env) = All (λ d. e.0 ≢ d.0) env × Apart env

unequal : (j k : Bytes) → equal j k ≡ false → j ≢ k
unequal j k h e = cc (h, (equal_iff j k).1 e)

set_env-differs :
    (j k v : Bytes) (env : Env)
    → j ≢ k
    → All (λ d. j ≢ d.0) env
    → All (λ d. j ≢ d.0) (set_env k v env)
unfolding set_env
set_env-differs j k v [] h a = (h, tt)
set_env-differs j k v (e ∷ env) h (b, a) = elim (Bool-cases (equal e.0 k)) [
  | inl t ↦ rw t (h, a)
  | inr t ↦ rw t (b, set_env-differs j k v env h a)
]

set_env-Apart : (k v : Bytes) (env : Env) → Apart env → Apart (set_env k v env)
unfolding set_env
set_env-Apart k v [] h = (tt, tt)
set_env-Apart k v (e ∷ env) (a, h) = elim (Bool-cases (equal e.0 k)) [
  | inl t ↦ rw t (renamed ((equal_iff e.0 k).0 t) env a, h)
  | inr t ↦ rw t (set_env-differs e.0 k v env (unequal e.0 k t) a, set_env-Apart k v env h)
]
  where
    renamed : {j i : Bytes} → j ≡ i → (es : Env) → All (λ d. j ≢ d.0) es → All (λ d. i ≢ d.0) es
    renamed e [] a = tt
    renamed e (d ∷ es) (b, a) = ((λ f. b (e ∙ f)), renamed e es a)

module _ (P : Bytes × Bytes → Type 0) where
  -- The entry has the property, or a later entry of the list has its key.
  abbrev pub Stays : Env → Bytes × Bytes → Type 0
  Stays [] e = P e
  Stays (d ∷ es) e = (e.0 ≡ d.0) ⊎ Stays es e

  set_env-All :
      (k v : Bytes) (env : Env)
      → Apart env
      → All P (set_env k v env) ↔ (P (k, v) × All (λ e. (e.0 ≡ k) ⊎ P e) env)
  unfolding set_env
  set_env-All k v [] h = (λ a. a, λ a. a)
  set_env-All k v (e ∷ env) (differ, h) = elim (Bool-cases (equal e.0 k)) [
    | inl t ↦
        let same = (equal_iff e.0 k).0 t in
        rw t (
          λ (p, ps). (p, (inl same, weaker env ps)),
          λ (p, (_, ps)). (p, others same env differ ps),
        )
    | inr t ↦
        let (there, back) = set_env-All k v env h in
        rw t (
          λ (q, qs). let (p, ps) = there qs in (p, (inr q, ps)),
          λ (p, (q, ps)). (of_other (unequal e.0 k t) q, back (p, ps)),
        )
  ]
    where
      weaker : (es : Env) → All P es → All (λ d. (d.0 ≡ k) ⊎ P d) es
      weaker [] a = tt
      weaker (d ∷ es) (p, a) = (inr p, weaker es a)

      of_other : {d : Bytes × Bytes} → d.0 ≢ k → ((d.0 ≡ k) ⊎ P d) → P d
      of_other ne (inl f) = absurd (ne f)
      of_other ne (inr p) = p

      others :
          {j : Bytes}
          → j ≡ k
          → (es : Env) → All (λ d. j ≢ d.0) es
          → All (λ d. (d.0 ≡ k) ⊎ P d) es
          → All P es
      others same [] a ps = tt
      others same (d ∷ es) (ne, a) (p, ps) =
          (of_other (λ f. ne (same ∙ sym f)) p, others same es a ps)

-- Each entry has the property, unless a later one has its key.
abbrev pub EachLast : (Bytes × Bytes → Type 0) → Env → Type 0
EachLast P [] = Unit
EachLast P (e ∷ es) = Stays P es e × EachLast P es

set_all-All :
    (P : Bytes × Bytes → Type 0) (es env : Env)
    → Apart env
    → All P (set_all env es) ↔ (All (Stays P es) env × EachLast P es)
unfolding set_all
set_all-All P [] env h = (λ a. (a, tt), λ a. a.0)
set_all-All P (e ∷ es) env h =
    let (there, back) = set_all-All P es (set_env e.0 e.1 env) (set_env-Apart e.0 e.1 env h) in
    let (into, out) = set_env-All (Stays P es) e.0 e.1 env h in
    (
      λ a. let (first, rest) = there a in let (here, kept) = into first in (kept, (here, rest)),
      λ (kept, (here, rest)). back (out (here, kept), rest),
    )

-- What holds for all entries of a map that is filled from a list.
pub filled-All : (P : Bytes × Bytes → Type 0) (es : Env) → All P (set_all [] es) ↔ EachLast P es
filled-All P es =
    let (there, back) = set_all-All P es [] tt in (λ a. (there a).1, λ a. back (tt, a))
