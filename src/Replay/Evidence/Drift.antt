-- ===== src/Replay/Evidence/Drift.antt =====
-- offline/replay/evidence.go: the replays of the required nodes agree, and none of them is missing.
use jcs_schubfach.Prelude.{
  ℕ, zero, suc, ◌+◌, ◌≤◌, ◌<◌, ◌≡◌, refl, sym, ◌⊎◌, inl, inr, true, not, Bool-cases, not-false,
  Option, none, some, List, [], ◌∷◌, arith, Bytes, length, All,
}
use jcs_schubfach.Prelude.Int.{ℤ, pos, pos_part, ltb_ℤ, eq_ℤ}
use jcs_schubfach.Replay.Config.{Matrix, Profile, required_replay_count}
use jcs_schubfach.Replay.Evidence.{
  NodeRunEvidence, EvidenceBundle, run_digests, runs_of, node_or_zero, drift_checks, check_drift,
  seen_replay, check_indices, check_nodes,
}
use jcs_schubfach.Replay.Evidence.Runs.{same_of}
use jcs_schubfach.Replay.Outcome.{
  done, fail_if, run_checks, fail_if_iff, run_checks_iff, chain-done, done_inj,
}

-- The four digests of two replays are the same.
abbrev pub Same : NodeRunEvidence → NodeRunEvidence → Type 0
Same b r = run_digests r ≡ run_digests b

drift_checks-Same : (b r : NodeRunEvidence) → run_checks (drift_checks b r) ≡ done tt → Same b r
drift_checks-Same b r h =
    let (canonical, (verify, (class, (code, _)))) = (run_checks_iff (drift_checks b r)).0 h in
    let e = same_of _ _ canonical in
    let f = same_of _ _ verify in
    let g = same_of _ _ class in let k = same_of _ _ code in rw (e, f, g, k) refl

-- All of these agree with the baseline; there is none without one.
abbrev pub Agrees : Option NodeRunEvidence → List NodeRunEvidence → Type 0
Agrees none rs = rs ≡ []
Agrees (some b) rs = All (Same b) rs

-- A baseline stays.
abbrev pub Extends : Option NodeRunEvidence → Option NodeRunEvidence → Type 0
Extends none out = Unit
Extends (some b) out = out ≡ some b

check_drift-some :
    (rs : List NodeRunEvidence) (b : NodeRunEvidence) {out : Option NodeRunEvidence}
    → check_drift rs (some b) ≡ done out
    → (out ≡ some b) × All (Same b) rs
unfolding check_drift
check_drift-some [] b h = (sym (done_inj h), tt)
check_drift-some (r ∷ rs) b h =
    let (_, here, later) = chain-done (run_checks (drift_checks b r)) _ h in
    let (e, all) = check_drift-some rs b later in (e, (drift_checks-Same b r here, all))

check_drift-Agrees :
    (rs : List NodeRunEvidence) (base : Option NodeRunEvidence) {out : Option NodeRunEvidence}
    → check_drift rs base ≡ done out
    → Agrees out rs × Extends base out
unfolding check_drift
check_drift-Agrees rs (some b) h = let (e, all) = check_drift-some rs b h in rw e (all, refl)
check_drift-Agrees [] none h = rw (← done_inj h) (refl, tt)
check_drift-Agrees (r ∷ rs) none h =
    let (e, all) = check_drift-some rs r h in rw e ((refl, all), tt)

-- A replay with this index is among them.
abbrev pub HasIndex : ℕ → List NodeRunEvidence → Type 0
HasIndex i [] = ⊥
HasIndex i (r ∷ rs) = (r.replay_index ≡ pos i) ⊎ HasIndex i rs

eq_ℤ-eq : (a b : ℤ) → eq_ℤ a b ≡ true → a ≡ b
eq_ℤ-eq a b h = ground arith

seen_replay-HasIndex : (i : ℕ) (rs : List NodeRunEvidence) → seen_replay i rs ≡ true → HasIndex i rs
unfolding seen_replay
seen_replay-HasIndex i [] h = cc
seen_replay-HasIndex i (r ∷ rs) h = elim (Bool-cases (eq_ℤ r.replay_index (pos i))) [
  | inl e ↦ inl (eq_ℤ-eq _ _ e)
  | inr e ↦ inr (seen_replay-HasIndex i rs (rw e at h))
]

at_or_after : (i j : ℕ) → i ≤ j → (i ≡ j) ⊎ (i + 1 ≤ j)
at_or_after i j h = ground arith

check_indices-HasIndex :
    (k i : ℕ) (rs : List NodeRunEvidence)
    → check_indices k i rs ≡ done tt
    → (j : ℕ) → i ≤ j
    → j < i + k
    → HasIndex j rs
unfolding check_indices
check_indices-HasIndex zero i rs h j lo hi = absurd (omega arith)
check_indices-HasIndex (suc k) i rs h j lo hi =
    let (_, here, later) = chain-done (fail_if (not (seen_replay i rs)) _) _ h in
    elim (at_or_after i j lo) [
      | inl e ↦ rw (← e) (seen_replay-HasIndex i rs (not-false _ ((fail_if_iff _ _).0 here)))
      | inr after ↦ check_indices-HasIndex k (i + 1) rs later j after (omega arith)
    ]

-- The replays of a required node: enough of them, each index up to the number wanted, the digests of
-- the baseline.
pub record IsCovered (e : EvidenceBundle) (m : Matrix) (p : Profile) (b : NodeRunEvidence)
    (id : Bytes) : Type 0 where
  pub agreed : All (Same b) (runs_of id e.node_replays)
  pub complete :
      (j : ℕ)
      → 1 ≤ j
      → j ≤ pos_part (required_replay_count (node_or_zero id m.nodes) p)
      → HasIndex j (runs_of id e.node_replays)

Agrees-Extends :
    (base : Option NodeRunEvidence) (b : NodeRunEvidence) (rs : List NodeRunEvidence)
    → Agrees base rs
    → Extends base (some b)
    → All (Same b) rs
Agrees-Extends none b rs h k = rw h tt
Agrees-Extends (some a) b rs h k = let same : a ≡ b = cc in rw (← same) h

Extends-trans :
    (x y : Option NodeRunEvidence) (b : NodeRunEvidence)
    → Extends x y
    → Extends y (some b)
    → Extends x (some b)
Extends-trans none y b h k = tt
Extends-trans (some a) y b h k = rw h at k

module _ (e : EvidenceBundle) (m : Matrix) (p : Profile) where
  pub check_nodes-IsCovered :
      (ids : List Bytes) (base : Option NodeRunEvidence) (b : NodeRunEvidence)
      → check_nodes e m p ids base ≡ done (some b)
      → Extends base (some b) × All (IsCovered e m p b) ids
  unfolding check_nodes
  check_nodes-IsCovered [] base b h = rw (done_inj h) (refl, tt)
  check_nodes-IsCovered (id ∷ ids) base b h =
      let runs = runs_of id e.node_replays in
      let want = required_replay_count (node_or_zero id m.nodes) p in
      let (_, _, h1) = chain-done (fail_if (ltb_ℤ (pos (length runs)) want) _) _ h in
      let (base', drift, h2) = chain-done (check_drift runs base) _ h1 in
      let (_, indices, h3) = chain-done (check_indices (pos_part want) 1 runs) _ h2 in
      let (kept, agreed) = check_drift-Agrees runs base drift in
      let (extends, covered) = check_nodes-IsCovered ids base' b h3 in
      (
        Extends-trans base base' b agreed extends,
        (
          record {
            agreed = Agrees-Extends base' b runs kept extends;
            complete =
                λ j lo hi. check_indices-HasIndex (pos_part want) 1 runs indices j lo (omega arith);
          },
          covered,
        ),
      )
