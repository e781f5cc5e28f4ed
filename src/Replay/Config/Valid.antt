-- ===== src/Replay/Config/Valid.antt =====
-- offline/replay/config.go: what `ValidateMatrix` and `ValidateProfile` accept.
use jcs_schubfach.Prelude.{
  ◌≡◌, ◌≢◌, refl, ap, not-false, ◌↔◌, ◌⊎◌, inl, inr, Bool, true, false, not, ◌||◌, Bool-cases, some,
  List, [], ◌∷◌, arith, Bytes, equal, equal_iff, All, map,
}
use jcs_schubfach.Prelude.Int.{pos, ◌≤ℤ◌}
use jcs_schubfach.Replay.Config.{
  NodeSpec, Matrix, Profile, node_mode_container, node_mode_vm, is_empty, is_container, is_vm,
  node_checks, matrix_checks, lane_checks, profile_checks, validate_nodes, any_node,
  validate_matrix, validate_profile, node_ids,
}
use jcs_schubfach.Replay.Outcome.{done, run_checks, Passes, run_checks_iff, then_iff}
use jcs_schubfach.Text.{has}

-- A lane that can be run.
pub record IsNode (n : NodeSpec) : Type 0 where
  pub named : n.id ≢ []
  pub mode_known : (n.mode ≡ node_mode_container) ⊎ (n.mode ≡ node_mode_vm)
  pub distro_set : n.distro ≢ []
  pub kernel_set : n.kernel_family ≢ []
  pub replays_set : pos 0 ≤ℤ n.replays
  pub replay_set : n.runner.replay ≢ []
  pub kind_set : n.runner.kind ≢ []

abbrev pub Any : (NodeSpec → Type 0) → List NodeSpec → Type 0
Any P [] = ⊥
Any P (n ∷ ns) = P n ⊎ Any P ns

abbrev pub AllDistinct : List Bytes → Type 0
AllDistinct [] = Unit
AllDistinct (s ∷ ss) = (has s ss ≡ false) × AllDistinct ss

pub record IsMatrix (m : Matrix) : Type 0 where
  pub version_set : m.version ≢ []
  pub architecture_set : m.architecture ≢ []
  pub each_node : All IsNode m.nodes
  pub ids_distinct : AllDistinct (node_ids m)
  pub some_container : Any (λ n. n.mode ≡ node_mode_container) m.nodes
  pub some_vm : Any (λ n. n.mode ≡ node_mode_vm) m.nodes

pub record IsProfile (p : Profile) : Type 0 where
  pub version_set : p.version ≢ []
  pub name_set : p.name ≢ []
  pub suites_set : p.required_suites ≢ []
  pub replays_set : pos 1 ≤ℤ p.min_cold_replays
  pub evidence_set : p.evidence_required ≡ true

pub is_empty_iff {ℓ} : {A : Type ℓ} (xs : List A) → (is_empty xs ≡ false) ↔ (xs ≢ [])
is_empty_iff [] = (λ h. cc, λ h. absurd (h refl))
is_empty_iff (x ∷ xs) = (λ h. cc, λ h. refl)

mode_iff :
    (n : NodeSpec)
    → (not (is_container n || is_vm n) ≡ false)
      ↔ ((n.mode ≡ node_mode_container) ⊎ (n.mode ≡ node_mode_vm))
mode_iff n = elim (Bool-cases (is_container n)) [
  | inl c ↦ rw c (λ _. inl ((equal_iff n.mode node_mode_container).0 c), λ _. refl)
  | inr d ↦ elim (Bool-cases (is_vm n)) [
    | inl v ↦ rw (d, v) (λ _. inr ((equal_iff n.mode node_mode_vm).0 v), λ _. refl)
    | inr w ↦ rw (d, w) (λ h. cc, λ h. neither d w h)
  ]
]
  where
    neither :
        is_container n ≡ false
        → is_vm n ≡ false
        → (n.mode ≡ node_mode_container) ⊎ (n.mode ≡ node_mode_vm)
        → true ≡ false
    neither d w (inl e) = cc ((equal_iff n.mode node_mode_container).1 e)
    neither d w (inr e) = cc ((equal_iff n.mode node_mode_vm).1 e)

-- The tests on one node, as what they ask for.
node_checks_iff :
    (seen : List Bytes) (n : NodeSpec)
    → All Passes (node_checks seen n) ↔ (IsNode n × (has n.id seen ≡ false))
node_checks_iff seen n = (
  λ (named, (fresh, (mode, (distro, (kernel, (replays, (replay, (kind, _)))))))). (
    record {
      named = (is_empty_iff n.id).0 named;
      mode_known = (mode_iff n).0 mode;
      distro_set = (is_empty_iff n.distro).0 distro;
      kernel_set = (is_empty_iff n.kernel_family).0 kernel;
      replays_set = ground arith;
      replay_set = (is_empty_iff n.runner.replay).0 replay;
      kind_set = (is_empty_iff n.runner.kind).0 kind;
    },
    fresh,
  ),
  λ (v, fresh). (
    (is_empty_iff n.id).1 v.named,
    (
      fresh,
      (
        (mode_iff n).1 v.mode_known,
        (
          (is_empty_iff n.distro).1 v.distro_set,
          (
            (is_empty_iff n.kernel_family).1 v.kernel_set,
            (
              ground arith,
              (
                (is_empty_iff n.runner.replay).1 v.replay_set,
                ((is_empty_iff n.runner.kind).1 v.kind_set, tt),
              ),
            ),
          ),
        ),
      ),
    ),
  ),
)

any_node_iff :
    (test : NodeSpec → Bool) (P : NodeSpec → Type 0) (ns : List NodeSpec)
    → ((n : NodeSpec) → (test n ≡ true) ↔ P n)
    → (any_node test ns ≡ true) ↔ Any P ns
unfolding any_node
any_node_iff test P [] h = (λ e. cc, λ h. absurd h)
any_node_iff test P (n ∷ ns) h =
    let ih = any_node_iff test P ns h in
    (
      found (any_node test ns) (h n).0 ih.0,
      λ k. elim k [ inl p ↦ rw ((h n).1 p) refl | inr q ↦ or_true (test n) (ih.1 q) ],
    )
  where
    found :
        (b : Bool)
        → (test n ≡ true → P n)
        → (b ≡ true → Any P ns)
        → (test n || b) ≡ true
        → P n ⊎ Any P ns
    found b f g e = elim (Bool-cases (test n)) [ inl t ↦ inl (f t) | inr u ↦ inr (g (rw u at e)) ]

    or_true : {b : Bool} (a : Bool) → b ≡ true → (a || b) ≡ true
    or_true true e = refl
    or_true false e = e

equal_sym : (s t : Bytes) → equal s t ≡ equal t s
equal_sym s t = ground (arith, equal_iff s t, equal_iff t s)

-- Ids that are new to `t ∷ seen` are new to `seen` and differ from `t`.
abbrev AllNew : List Bytes → List NodeSpec → Type 0
AllNew seen = All (λ n. has n.id seen ≡ false)

new-cons :
    (t : Bytes) (seen : List Bytes) (ns : List NodeSpec)
    → AllNew (t ∷ seen) ns ↔ ((has t (map (λ n. n.id) ns) ≡ false) × AllNew seen ns)
unfolding has
new-cons t seen [] = (λ h. (refl, tt), λ h. tt)
new-cons t seen (n ∷ ns) = (
  λ h. ground (arith, new-cons t seen ns, equal_sym t n.id),
  λ h. ground (arith, new-cons t seen ns, equal_sym t n.id),
)

validate_nodes_iff :
    (seen : List Bytes) (ns : List NodeSpec)
    → (validate_nodes seen ns ≡ done tt)
      ↔ (All IsNode ns × AllNew seen ns × AllDistinct (map (λ n. n.id) ns))
unfolding validate_nodes
validate_nodes_iff seen [] = (λ h. (tt, tt, tt), λ h. refl)
validate_nodes_iff seen (n ∷ ns) =
    let split = then_iff (run_checks (node_checks seen n)) (validate_nodes (n.id ∷ seen) ns) in
    let here = run_checks_iff (node_checks seen n) in
    let this = node_checks_iff seen n in
    let later = validate_nodes_iff (n.id ∷ seen) ns in
    let fresh = new-cons n.id seen ns in
    (
      λ h.
          let (a, b) = split.0 h in
          let (node, new) = this.0 (here.0 a) in
          let (nodes, apart, distinct) = later.0 b in
          let (unlike, rest) = fresh.0 apart in ((node, nodes), (new, rest), (unlike, distinct)),
      λ ((node, nodes), (new, rest), (unlike, distinct)).
          split.1 (here.1 (this.1 (node, new)), later.1 (nodes, fresh.1 (unlike, rest), distinct)),
    )

AllNew-none : (ns : List NodeSpec) → AllNew [] ns
unfolding has
AllNew-none [] = tt
AllNew-none (n ∷ ns) = (refl, AllNew-none ns)

Any-is_empty : (P : NodeSpec → Type 0) (ns : List NodeSpec) → Any P ns → is_empty ns ≡ false
Any-is_empty P [] h = absurd h
Any-is_empty P (n ∷ ns) h = refl

-- `ValidateMatrix` accepts a matrix exactly if its version and architecture are set, each node can be
-- run, the ids of the nodes are distinct, and there are a container and a virtual machine.
pub validate_matrix_iff : (m : Matrix) → (validate_matrix (some m) ≡ done tt) ↔ IsMatrix m
unfolding validate_matrix
validate_matrix_iff m =
    let first = then_iff (run_checks (matrix_checks m)) _ in
    let second = then_iff (validate_nodes [] m.nodes) (run_checks (lane_checks m)) in
    let nodes = validate_nodes_iff [] m.nodes in
    let container =
      any_node_iff is_container (λ n. n.mode ≡ node_mode_container) m.nodes
        (λ n. equal_iff n.mode node_mode_container) in
    let vm =
      any_node_iff is_vm (λ n. n.mode ≡ node_mode_vm) m.nodes
        (λ n. equal_iff n.mode node_mode_vm) in
    (
      λ h.
          let (head, rest) = first.0 h in
          let (version, (architecture, _)) = (run_checks_iff (matrix_checks m)).0 head in
          let (loop, lanes) = second.0 rest in
          let (each, _, distinct) = nodes.0 loop in
          let (containers, (vms, _)) = (run_checks_iff (lane_checks m)).0 lanes in
          record {
            version_set = (is_empty_iff m.version).0 version;
            architecture_set = (is_empty_iff m.architecture).0 architecture;
            each_node = each;
            ids_distinct = distinct;
            some_container = container.0 (not-false _ containers);
            some_vm = vm.0 (not-false _ vms);
          },
      λ v. first.1 (
        (run_checks_iff (matrix_checks m)).1 (
          (is_empty_iff m.version).1 v.version_set,
          (
            (is_empty_iff m.architecture).1 v.architecture_set,
            (Any-is_empty _ m.nodes v.some_vm, tt),
          ),
        ),
        second.1 (
          nodes.1 (v.each_node, AllNew-none m.nodes, v.ids_distinct),
          (run_checks_iff (lane_checks m)).1
              (ap not (container.1 v.some_container), (ap not (vm.1 v.some_vm), tt)),
        ),
      ),
    )

-- `ValidateProfile` accepts a profile exactly if version, name and suites are set, it asks for at
-- least one replay, and it requires evidence.
pub validate_profile_iff : (p : Profile) → (validate_profile (some p) ≡ done tt) ↔ IsProfile p
unfolding validate_profile
validate_profile_iff p =
    let checks = run_checks_iff (profile_checks p) in
    (
      λ h.
          let (version, (name, (suites, (replays, (evidence, _))))) = checks.0 h in
          record {
            version_set = (is_empty_iff p.version).0 version;
            name_set = (is_empty_iff p.name).0 name;
            suites_set = (is_empty_iff p.required_suites).0 suites;
            replays_set = ground arith;
            evidence_set = not-false _ evidence;
          },
      λ v. checks.1 (
        (is_empty_iff p.version).1 v.version_set,
        (
          (is_empty_iff p.name).1 v.name_set,
          (
            (is_empty_iff p.required_suites).1 v.suites_set,
            (ground arith, (ap not v.evidence_set, tt)),
          ),
        ),
      ),
    )
