-- ===== src/Replay/Run/Protocol.antt =====
-- offline/replay/run.go: the calls that `RunMatrix` makes to the adapters, and their order.
use mathlib.Core.Path.{subst}
use jcs_schubfach.Prelude.{
  ℕ, zero, suc, ◌+◌, ◌≡◌, refl, ap, sym, ◌∙◌, inl, inr, List, [], ◌∷◌, ◌++◌, append_assoc,
  append-nil, Bytes,
}
use jcs_schubfach.Prelude.Int.{pos_part}
use jcs_schubfach.Replay.Config.{Env, NodeSpec, Matrix, Profile, required_replay_count}
use jcs_schubfach.Replay.Evidence.{NodeRunEvidence, node_or_zero}
use jcs_schubfach.Replay.Outcome.{Outcome, done, failed, Outcome-cases}
use jcs_schubfach.Replay.Run.{
  Action, ◌>>=◌, lift, NodeAdapter, Surroundings, with_global_env, replay_once, replay_node,
  replay_nodes,
}

-- The calls to an adapter.
pub data Event : Type 0 where
  prepared replayed cleaned : NodeSpec → ℕ → Event

-- What adapters, the file system and the factory do, as functions of the calls so far.
pub record Behaviour : Type 0 where
  pub verdict : Event → List Event → Outcome (Unit {0})
  pub temp : List Event → Outcome Bytes
  pub read : Bytes → List Event → Outcome NodeRunEvidence
  pub supply : NodeSpec → Outcome (Unit {0})

-- The world is the list of the calls so far.
abbrev pub called : Behaviour → Event → Action (List Event) (Unit {0})
called b e w = (b.verdict e w, w ++ e ∷ [])

abbrev pub recorder : Behaviour → NodeAdapter (List Event)
recorder b = record {
  prepare = λ n path i. called b (prepared n i);
  run_replay = λ n path out i. called b (replayed n i);
  cleanup = λ n i. called b (cleaned n i);
}

abbrev pub supplied : Behaviour → NodeSpec → Outcome (NodeAdapter (List Event))
supplied b n = elim (b.supply n) [ done _ ↦ done (recorder b) | failed text ↦ failed text ]

abbrev pub surroundings :
    Behaviour → Bytes → (Bytes → Bytes → ℕ → Bytes) → Surroundings (List Event)
surroundings b now path = record {
  now = now;
  make_temp = λ w. (b.temp w, w);
  remove_temp = λ root w. w;
  evidence_path = path;
  load = λ p w. (b.read p w, w);
}

abbrev pub round : NodeSpec → ℕ → List Event
round n i = prepared n i ∷ replayed n i ∷ cleaned n i ∷ []

-- Rounds, of which the last may have stopped behind its preparation. A replay is always cleaned up.
pub data Protocol : List Event → Type 0 where
  idle : Protocol []
  stopped : (n : NodeSpec) (i : ℕ) → Protocol (prepared n i ∷ [])
  next_round :
      (n : NodeSpec) (i : ℕ) {es : List Event}
      → Protocol es
      → Protocol (prepared n i ∷ replayed n i ∷ cleaned n i ∷ es)

-- The rounds of a node from `i` on, `k` of them, and of the nodes of a list.
unfoldable pub rounds : NodeSpec → ℕ → ℕ → List Event
rounds n zero i = []
rounds n (suc k) i = round n i ++ rounds n k (i + 1)

unfoldable pub schedule : Matrix → Profile → Env → List Bytes → List Event
schedule m p over [] = []
schedule m p over (id ∷ ids) =
    let n = with_global_env over (node_or_zero id m.nodes) in
    rounds n (pos_part (required_replay_count n p)) 1 ++ schedule m p over ids

abbrev pub IsDone : {A : Type 0} → Outcome A → Type 0
IsDone (done _) = Unit
IsDone (failed _) = ⊥

-- The calls of an action keep to the protocol, and are these if it succeeds.
abbrev pub FollowsAt : {A : Type 0} → Action (List Event) A → List Event → List Event → Type 0
FollowsAt m s w = (t : List Event) × ((m w).1 ≡ w ++ t) × Protocol t × (IsDone (m w).0 → t ≡ s)

abbrev pub Follows : {A : Type 0} → Action (List Event) A → List Event → Type 0
Follows m s = (w : List Event) → FollowsAt m s w

-- Whole rounds can be put in front.
abbrev IsWhole : List Event → Type 0
IsWhole s = (t : List Event) → Protocol t → Protocol (s ++ t)

Follows-lift : {A : Type 0} (o : Outcome A) → Follows (lift {W = List Event} o) []
Follows-lift o w = ([], sym (append-nil w), idle, λ _. refl)

-- The rest of a chain, behind an action that has given `o` and made the calls `t`.
after_step :
    {A B : Type 0} (o : Outcome A) (v w t s r : List Event) (f : A → Action (List Event) B)
    → IsWhole s
    → v ≡ w ++ t
    → Protocol t
    → (IsDone o → t ≡ s)
    → ((a : A) → Follows (f a) r)
    → FollowsAt {A = B} (λ _. elim o [ done a ↦ f a v | failed text ↦ (failed text, v) ]) (s ++ r) w
after_step (failed text) v w t s r f whole e h d k = (t, e, h, λ x. absurd x)
after_step (done a) v w t s r f whole e h d k =
    let (t', e', h', d') = k a v in
    let same : t ≡ s = d tt in
    (
      s ++ t',
      e' ∙ ap (λ z. z ++ t') (e ∙ ap (λ z. w ++ z) same) ∙ append_assoc w s t',
      whole t' h',
      λ x. ap (λ z. s ++ z) (d' x),
    )

Follows-bind :
    {A B : Type 0} (m : Action (List Event) A) (f : A → Action (List Event) B) (s r : List Event)
    → IsWhole s
    → Follows m s
    → ((a : A) → Follows (f a) r)
    → Follows (m >>= f) (s ++ r)
Follows-bind m f s r whole hm hf w =
    let (t, e, h, d) = hm w in after_step (m w).0 (m w).1 w t s r f whole e h d hf

Follows-failed :
    (A : Type 0) (text : Bytes) (s : List Event) → Follows (lift {A = A} (failed text)) s
Follows-failed A text s w = ([], sym (append-nil w), idle, λ x. absurd x)

-- An action, and a value made of its result.
Follows-map :
    {A B : Type 0} (m : Action (List Event) A) (f : A → B) (s : List Event)
    → IsWhole s
    → Follows m s
    → Follows (m >>= λ a. lift (done (f a))) s
Follows-map {A} {B} m f s whole h =
    subst (Follows (m >>= λ a. lift (done (f a)))) (append-nil s) (
      Follows-bind m (λ a. lift (done (f a))) s [] whole h (λ a. Follows-lift {A = B} (done (f a))))

rounds-IsWhole : (n : NodeSpec) (k i : ℕ) → IsWhole (rounds n k i)
unfolding rounds
rounds-IsWhole n zero i t h = h
rounds-IsWhole n (suc k) i t h = next_round n i (rounds-IsWhole n k (i + 1) t h)

round-IsWhole : (n : NodeSpec) (i : ℕ) → IsWhole (round n i)
round-IsWhole n i t h = next_round n i h

schedule-IsWhole :
    (m : Matrix) (p : Profile) (over : Env) (ids : List Bytes) → IsWhole (schedule m p over ids)
unfolding schedule
schedule-IsWhole m p over [] t h = h
schedule-IsWhole m p over (id ∷ ids) t h =
    let n = with_global_env over (node_or_zero id m.nodes) in
    let k = pos_part (required_replay_count n p) in
    subst Protocol (sym (append_assoc (rounds n k 1) (schedule m p over ids) t))
      (rounds-IsWhole n k 1 _ (schedule-IsWhole m p over ids t h))

module _ (b : Behaviour) (now : Bytes) (path : Bytes → Bytes → ℕ → Bytes)
    (root bundle : Bytes) where
  replay_once-Follows :
      (n : NodeSpec) (i : ℕ)
      → Follows (replay_once (surroundings b now path) root bundle (recorder b) n i) (round n i)
  unfolding replay_once
  replay_once-Follows n i w =
      let w1 = w ++ prepared n i ∷ [] in
      let w2 = w1 ++ replayed n i ∷ [] in
      let three : (w2 ++ cleaned n i ∷ []) ≡ w ++ round n i =
        append_assoc w1 (replayed n i ∷ []) (cleaned n i ∷ [])
        ∙ append_assoc w (prepared n i ∷ []) _ in
      elim (Outcome-cases (b.verdict (prepared n i) w)) [
        | inr (text, e) ↦ rw e (prepared n i ∷ [], refl, stopped n i, λ x. absurd x)
        | inl (_, e) ↦ elim (Outcome-cases (b.verdict (replayed n i) w1)) [
          | inr (text, f) ↦ rw (e, f) (round n i, three, next_round n i idle, λ x. absurd x)
          | inl (_, f) ↦ elim (Outcome-cases (b.verdict (cleaned n i) w2)) [
            | inr (text, g) ↦ rw (e, f, g) (round n i, three, next_round n i idle, λ x. absurd x)
            | inl (_, g) ↦ rw (e, f, g) (round n i, three, next_round n i idle, λ _. refl)
          ]
        ]
      ]

  replay_node-Follows :
      (n : NodeSpec) (k i : ℕ)
      → Follows
          (replay_node (surroundings b now path) root bundle (recorder b) n k i)
          (rounds n k i)
  unfolding replay_node rounds
  replay_node-Follows n zero i = Follows-lift {A = List NodeRunEvidence} (done [])
  replay_node-Follows n (suc k) i =
      Follows-bind (replay_once (surroundings b now path) root bundle (recorder b) n i) _
        (round n i) (rounds n k (i + 1)) (round-IsWhole n i) (replay_once-Follows n i)
        (λ r.
          Follows-map (replay_node (surroundings b now path) root bundle (recorder b) n k (i + 1))
            (λ rs. r ∷ rs) (rounds n k (i + 1)) (rounds-IsWhole n k (i + 1))
            (replay_node-Follows n k (i + 1)))

  after_supply :
      {B : Type 0} (o : Outcome (Unit {0})) (f : NodeAdapter (List Event) → Action (List Event) B)
      (s : List Event)
      → Follows (f (recorder b)) s
      → Follows (lift (elim o [ done _ ↦ done (recorder b) | failed text ↦ failed text ]) >>= f) s
  after_supply (done _) f s h = h
  after_supply {B} (failed text) f s h = Follows-failed B text s

  pub replay_nodes-Follows :
      (m : Matrix) (p : Profile) (over : Env) (ids : List Bytes)
      → Follows
          (replay_nodes (surroundings b now path) root bundle m p (supplied b) over ids)
          (schedule m p over ids)
  unfolding replay_nodes schedule
  replay_nodes-Follows m p over [] = Follows-lift {A = List NodeRunEvidence} (done [])
  replay_nodes-Follows m p over (id ∷ ids) =
      let n = with_global_env over (node_or_zero id m.nodes) in
      let k = pos_part (required_replay_count n p) in
      after_supply (b.supply n) _ (rounds n k 1 ++ schedule m p over ids) (
        Follows-bind (replay_node (surroundings b now path) root bundle (recorder b) n k 1) _
          (rounds n k 1) (schedule m p over ids) (rounds-IsWhole n k 1) (replay_node-Follows n k 1)
          (λ rs.
            Follows-map
              (replay_nodes (surroundings b now path) root bundle m p (supplied b) over ids)
              (λ more. rs ++ more) (schedule m p over ids) (schedule-IsWhole m p over ids)
              (replay_nodes-Follows m p over ids)))
