-- ===== src/Replay/Config/Required.antt =====
-- offline/replay/config.go: the nodes that `requiredNodeIDs` selects.
use jcs_schubfach.Prelude.{
  ◌≡◌, refl, ap, sym, ◌∙◌, ◌⊎◌, inl, inr, Bool, true, false, not, ◌||◌, Bool-cases, not-false, List,
  [], ◌∷◌, ◌++◌, arith, if◌then◌else◌, Bytes, codes, equal, equal_iff, All,
}
use jcs_schubfach.Replay.Config.{
  Matrix, Profile, is_empty, node_ids, select_nodes, required_node_ids,
}
use jcs_schubfach.Replay.Outcome.{
  done, failed, fail_if, fail_if_iff, chain-done, done_inj, Outcome-cases,
}
use jcs_schubfach.Sort.{IsSortedBy}
use jcs_schubfach.Text.{has, string_less}
use jcs_schubfach.Text.Sorted.{sort_strings-IsSortedBy, has-sort_strings}

-- The profile's nodes, or all of the matrix where the profile names none.
abbrev pub wanted : Matrix → Profile → List Bytes
wanted m p = if is_empty p.required_nodes then node_ids m else p.required_nodes

-- A selection that succeeds: in order, of the wanted nodes, all of them in the matrix.
pub record IsSelection (m : Matrix) (p : Profile) (ids : List Bytes) : Type 0 where
  pub ordered : IsSortedBy string_less ids
  pub same_ids : (k : Bytes) → has k ids ≡ has k (wanted m p)
  pub in_matrix : All (λ id. has id (node_ids m) ≡ true) (wanted m p)

has-snoc : (k id : Bytes) (ss : List Bytes) → has k (ss ++ id ∷ []) ≡ (has k ss || equal k id)
unfolding has
has-snoc k id [] = ground arith
has-snoc k id (s ∷ ss) = ground (arith, has-snoc k id ss)

-- A node that is kept already adds nothing.
has-kept : (k id : Bytes) (ss : List Bytes) → has id ss ≡ true → has k ss ≡ (has k ss || equal k id)
has-kept k id ss h = elim (Bool-cases (equal k id)) [
  | inl e ↦ known ((equal_iff k id).0 e)
  | inr n ↦ ground arith
]
  where
    known : k ≡ id → has k ss ≡ (has k ss || equal k id)
    known e = rw (ap (λ s. has s ss) e ∙ h) refl

or_none : (b : Bool) → b ≡ (b || false)
or_none b = ground arith

or_assoc : (a b c : Bool) → ((a || b) || c) ≡ (a || (b || c))
or_assoc a b c = ground arith

select_nodes-step :
    (k id : Bytes) (kept : List Bytes)
    → has k (if has id kept then kept else kept ++ id ∷ []) ≡ (has k kept || equal k id)
select_nodes-step k id kept = elim (Bool-cases (has id kept)) [
  | inl old ↦ rw old (has-kept k id kept old)
  | inr new ↦ rw new (has-snoc k id kept)
]

select_nodes-done :
    (known kept ids : List Bytes) {out : List Bytes}
    → select_nodes known kept ids ≡ done out
    → All (λ id. has id known ≡ true) ids × ((k : Bytes) → has k out ≡ (has k kept || has k ids))
unfolding select_nodes has
select_nodes-done known kept [] h = (tt, λ k. ap (has k) (sym (done_inj h)) ∙ or_none (has k kept))
select_nodes-done known kept (id ∷ ids) h =
    let (_, present, rest) =
      chain-done (fail_if (not (has id known)) (codes "required node %q not present in matrix")) _
        h in
    let next = if has id kept then kept else kept ++ id ∷ [] in
    let (all_known, same) = select_nodes-done known next ids rest in
    (
      (not-false _ ((fail_if_iff _ _).0 present), all_known),
      λ k.
          same k
          ∙ ap (λ b. b || has k ids) (select_nodes-step k id kept)
          ∙ or_assoc (has k kept) (equal k id) (has k ids),
    )

select_nodes-total :
    (known kept ids : List Bytes)
    → All (λ id. has id known ≡ true) ids
    → (out : List Bytes) × (select_nodes known kept ids ≡ done out)
unfolding select_nodes fail_if
select_nodes-total known kept [] h = (kept, refl)
select_nodes-total known kept (id ∷ ids) (here, later) =
    rw here (select_nodes-total known (if has id kept then kept else kept ++ id ∷ []) ids later)

All-has :
    (ids ss : List Bytes)
    → ((k : Bytes) → has k ids ≡ true → has k ss ≡ true)
    → All (λ id. has id ss ≡ true) ids
unfolding has
All-has [] ss h = tt
All-has (id ∷ ids) ss h =
    (h id (ground (arith, equal_iff id id)), All-has ids ss (λ k e. h k (ground (arith, e))))

pub required_node_ids-IsSelection :
    (m : Matrix) (p : Profile) (ids : List Bytes)
    → required_node_ids m p ≡ done ids
    → IsSelection m p ids
unfolding required_node_ids has
required_node_ids-IsSelection m p ids h = elim (Bool-cases (is_empty p.required_nodes)) [
  | inl e ↦
      let all = sym (done_inj (rw e at h)) in
      record {
        ordered = rw all (sort_strings-IsSortedBy (node_ids m));
        same_ids = λ k. ap (has k) all ∙ has-sort_strings k (node_ids m) ∙ rw e refl;
        in_matrix = rw e (All-has (node_ids m) (node_ids m) (λ k t. t));
      }
  | inr e ↦
      let (kept, chosen, rest) =
        chain-done (select_nodes (node_ids m) [] p.required_nodes) _ (rw e at h) in
      let all = sym (done_inj rest) in
      let (known, same) = select_nodes-done (node_ids m) [] p.required_nodes chosen in
      record {
        ordered = rw all (sort_strings-IsSortedBy kept);
        same_ids = λ k. ap (has k) all ∙ has-sort_strings k kept ∙ same k ∙ rw e refl;
        in_matrix = rw e known;
      }
]

required_node_ids-total :
    (m : Matrix) (p : Profile)
    → All (λ id. has id (node_ids m) ≡ true) (wanted m p)
    → (ids : List Bytes) × (required_node_ids m p ≡ done ids)
unfolding required_node_ids
required_node_ids-total m p h = elim (Bool-cases (is_empty p.required_nodes)) [
  | inl e ↦ rw e (_, refl)
  | inr e ↦
      let (kept, chosen) = select_nodes-total (node_ids m) [] p.required_nodes (rw e at h) in
      rw (e, chosen) (_, refl)
]

-- `requiredNodeIDs` gives the wanted nodes in order, each of them in the matrix, or fails because one
-- of them is not there. The wanted nodes are the profile's, or the matrix's if the profile names none.
pub required_node_ids-cases :
    (m : Matrix) (p : Profile)
    → ((ids : List Bytes) × (required_node_ids m p ≡ done ids) × IsSelection m p ids)
      ⊎ ((text : Bytes) × (required_node_ids m p ≡ failed text)
          × ¬ All (λ id. has id (node_ids m) ≡ true) (wanted m p))
required_node_ids-cases m p = elim (Outcome-cases (required_node_ids m p)) [
  | inl (ids, e) ↦ inl (ids, e, required_node_ids-IsSelection m p ids e)
  | inr (text, e) ↦ inr (text, e, λ h. let (ids, ok_) = required_node_ids-total m p h in cc)
]
