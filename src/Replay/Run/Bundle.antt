-- ===== src/Replay/Run/Bundle.antt =====
-- offline/replay/run.go: what `RunMatrix` gives, and the calls behind it.
use mathlib.Core.List.{Perm}
use mathlib.Core.Path.{subst}
use jcs_schubfach.Prelude.{ℕ, ◌≡◌, refl, sym, ◌∙◌, inl, inr, some, List, [], Bytes}
use jcs_schubfach.Sort.{IsSortedBy}
use jcs_schubfach.Replay.Config.{
  NodeSpec, Matrix, Profile, validate_matrix, validate_profile, required_node_ids, planned_nodes,
}
use jcs_schubfach.Replay.Config.Required.{IsSelection, required_node_ids-IsSelection}
use jcs_schubfach.Replay.Config.Valid.{IsMatrix, IsProfile}
use jcs_schubfach.Replay.Evidence.{NodeRunEvidence, EvidenceBundle}
use jcs_schubfach.Replay.Evidence.Attested.{IsAttested}
use jcs_schubfach.Replay.Outcome.{Outcome, done, failed, Outcome-cases, chain-done}
use jcs_schubfach.Replay.Run.{
  Action, ◌>>=◌, NodeAdapter, RunOptions, Surroundings, empty_bundle, run_less, run_expectations,
  seal_bundle, replay_nodes, in_temp, run_planned, run_matrix,
}
use jcs_schubfach.Replay.Run.Protocol.{
  Event, Behaviour, supplied, surroundings, Protocol, idle, schedule, IsDone, replay_nodes-Follows,
}

-- A chain of actions that succeeds has gone through each of its steps.
pub act-done :
    {W A B : Type 0} (m : Action W A) (f : A → Action W B) (w : W) {b : B} {w' : W}
    → ◌≡◌ {A = Outcome B × W} ((m >>= f) w) (done b, w')
    → (a : A) × (v : W) × ◌≡◌ {A = Outcome A × W} (m w) (done a, v)
      × ◌≡◌ {A = Outcome B × W} (f a v) (done b, w')
act-done {W} {A} {B} m f w {b} {w'} h = go (m w) h
  where
    go :
        (r : Outcome A × W)
        → ◌≡◌ {A = Outcome B × W}
            (elim r.0 [ done a ↦ f a r.1 | failed text ↦ (failed text, r.1) ])
            (done b, w')
        → (a : A) × (v : W) × ◌≡◌ {A = Outcome A × W} r (done a, v)
          × ◌≡◌ {A = Outcome B × W} (f a v) (done b, w')
    go (done a, v) h = (a, v, refl, h)
    go (failed text, v) h = cc

planned_nodes-done :
    (m : Matrix) (p : Profile) {ids : List Bytes}
    → planned_nodes m p ≡ done ids
    → (validate_matrix (some m) ≡ done tt)
      × (validate_profile (some p) ≡ done tt)
      × (required_node_ids m p ≡ done ids)
unfolding planned_nodes
planned_nodes-done m p h =
    let (_, valid, h1) = chain-done (validate_matrix (some m)) _ h in
    let (_, fit, selected) = chain-done (validate_profile (some p)) _ h1 in (valid, fit, selected)

-- What a bundle of `RunMatrix` is.
pub record IsRunResult {W : Type 0} (around : Surroundings W) (m : Matrix) (p : Profile)
    (factory : NodeSpec → Outcome (NodeAdapter W)) (opts : RunOptions) (e : EvidenceBundle)
    : Type 0 where
  pub matrix : IsMatrix m
  pub profile : IsProfile p
  pub attested : IsAttested e m p (run_expectations m opts)
  pub sorted : IsSortedBy run_less e.node_replays
  pub collected :
      (ids : List Bytes) × (root : Bytes) × (rs : List NodeRunEvidence) × (v : W) × (v' : W)
      × IsSelection m p ids
      × ◌≡◌ {A = Outcome (List NodeRunEvidence) × W}
          (replay_nodes around root opts.bundle_path m p factory opts.global_env ids v)
          (done rs, v')
      × Perm e.node_replays rs

-- Behind the replays.
last_step :
    {W A B : Type 0} (r : Outcome A × W) (f : A → Outcome B)
    → let end : Outcome B × W = elim r.0 [
      | done a ↦ (f a, r.1)
      | failed text ↦ (failed text, r.1)
    ] in
      (end.1 ≡ r.1) × (IsDone end.0 → IsDone r.0)
last_step (done a, v) f = (refl, λ _. tt)
last_step (failed text, v) f = (refl, λ h. h)

-- The calls of a run, given its outcome.
pub record IsRunTrace (m : Matrix) (p : Profile) (opts : RunOptions)
    (end : Outcome EvidenceBundle × List Event) : Type 0 where
  pub protocol : Protocol end.1
  pub planned :
      IsDone end.0
      → (ids : List Bytes) × IsSelection m p ids × (end.1 ≡ schedule m p opts.global_env ids)

module _ (b : Behaviour) (now : Bytes) (path : Bytes → Bytes → ℕ → Bytes) (m : Matrix) (p : Profile)
    (opts : RunOptions) where
  traced :
      (ids : List Bytes)
      → required_node_ids m p ≡ done ids
      → IsRunTrace m p opts (run_planned (surroundings b now path) m p (supplied b) opts ids [])
  unfolding run_planned in_temp
  traced ids selected = elim (Outcome-cases (b.temp [])) [
    | inr (text, e) ↦ rw e (record { protocol = idle; planned = λ h. absurd h })
    | inl (root, e) ↦
        let (t, trace, protocol, exact) =
          replay_nodes-Follows b now path root opts.bundle_path m p opts.global_env ids [] in
        let (same, succeeds) =
          last_step
            (replay_nodes (surroundings b now path) root opts.bundle_path m p (supplied b)
              opts.global_env ids [])
            (seal_bundle m p opts (empty_bundle now m p opts)) in
        rw e (record {
          protocol = subst Protocol (sym (same ∙ trace)) protocol;
          planned = λ h. (
            ids,
            required_node_ids-IsSelection m p ids selected,
            same ∙ trace ∙ exact (succeeds h),
          );
        })
  ]

  -- Whatever the adapters, the file system and the factory do, `RunMatrix` calls the adapters round
  -- by round: a preparation, and if it succeeds a replay and its cleanup, which follows a failed
  -- replay too; nothing follows a preparation that has failed. A run that succeeds has made exactly
  -- the rounds of the required nodes in order, for each the replays from 1 to the number wanted.
  pub run_matrix-IsRunTrace :
      IsRunTrace m p opts
        (run_matrix (surroundings b now path) (some m) (some p) (some (supplied b)) opts [])
  unfolding run_matrix
  run_matrix-IsRunTrace = elim (Outcome-cases (planned_nodes m p)) [
    | inr (text, e) ↦ rw e (record { protocol = idle; planned = λ h. absurd h })
    | inl (ids, e) ↦ rw e (traced ids (planned_nodes-done m p e).2)
  ]
