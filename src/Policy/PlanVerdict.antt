-- ===== src/Policy/PlanVerdict.antt =====
-- When the policy allows a plan.
use mathlib.Core.List.{Memᴰ}
use mathlib.Core.List.Memᴰ
use agentic_harness.Base.{
  ℕ, ◌+◌, String, ◌≡◌, refl, sym, subst, ap, ◌∙◌, ◌↔◌, Bool, true, false, Option, some, List, [],
  ◌∷◌, arith, keep, elem, opt_eq, or_else, ◌=ₛ◌, unique, sort_by, Dict, put, All, eq_iff, eq_refl,
  Bool-cases, inl, inr,
}
use agentic_harness.Graph.{Arc, Order, complete, stuck, degree}
use agentic_harness.Graph.Release.{open_arcs, degree-put}
use agentic_harness.Graph.Ranks.{IsRank, IsGraph}
use agentic_harness.Graph.Acyclic.{IsOutcome, search-IsOutcome}
use agentic_harness.Graph.Degrees.{degree-nil, count-unique, count-sort_by, sort_by-nil}
use agentic_harness.Policy.{PlanRules, Decision, deny}
use agentic_harness.Policy.Plan.{
  PlanEdge, PlanInput, plan_arcs, ends, plan_degrees, sorted_left, cyclic_review_stages, has_some,
  is_self_edge, is_unresolved, is_unmaterialized, is_loose, evaluate_facts, after_search,
  evaluate_plan,
}

-- The degrees of the loop count the edges to each stage.
degree-plan_degrees :
    (arcs : List Arc) (d : Dict ℕ) (t : String)
    → degree (plan_degrees arcs d) t ≡ degree d t + open_arcs arcs [] t
unfolding plan_degrees
degree-plan_degrees [] d t = omega arith
degree-plan_degrees (a ∷ arcs) d t =
    let from = put a.source (degree d a.source) d in
    let next = put a.target (degree from a.target + 1) from in
    elim (Bool-cases (a.target =ₛ t)) [
      | inl same ↦ rw (← (eq_iff a.target t).0 same) (
          ground (
            arith,
            degree-plan_degrees arcs next a.target,
            eq_refl a.target,
            degree-put a.target a.target (degree from a.target + 1) from,
            source_kept d a.source a.target,
          ))
      | inr other ↦ ground (
        arith,
        degree-plan_degrees arcs next t,
        degree-put a.target t (degree from a.target + 1) from,
        source_kept d a.source t,
      )
    ]
  where
    source_kept : (d : Dict ℕ) (s t : String) → degree (put s (degree d s) d) t ≡ degree d t
    source_kept d s t = elim (Bool-cases (s =ₛ t)) [
      | inl same ↦
          rw (← (eq_iff s t).0 same) (ground (arith, degree-put s s (degree d s) d, eq_refl s))
      | inr other ↦ ground (arith, degree-put s t (degree d s) d)
    ]

ends-elem :
    (arcs : List Arc) (a : Arc)
    → Memᴰ a arcs
    → (elem a.source (ends arcs) ≡ true) × (elem a.target (ends arcs) ≡ true)
ends-elem [] a m = absurd (Memᴰ.not-nil m)
ends-elem (b ∷ arcs) a m = elim (Memᴰ.cases_cons m) [
  | inl same ↦ rw same (ground (arith, eq_refl b.source), ground (arith, eq_refl b.target))
  | inr later ↦ let (s, t) = ends-elem arcs a later in (ground (arith, s), ground (arith, t))
]

pub plan-IsGraph : (arcs : List Arc) → IsGraph (unique (ends arcs)) arcs (plan_degrees arcs [])
plan-IsGraph arcs = record {
  once = λ t. ground (arith, count-unique t (ends arcs));
  source_in = λ a m. ground (arith, count-unique a.source (ends arcs), (ends-elem arcs a m).0);
  target_in = λ a m. ground (arith, count-unique a.target (ends arcs), (ends-elem arcs a m).1);
  degrees = λ t. omega (arith, degree-plan_degrees arcs [] t, degree-nil t);
}

-- That a list of the search is empty says that there is a rank.
abbrev IsAcyclicIf : List Arc → List String → Type 0
IsAcyclicIf arcs left = left ≡ [] ↔ ((rank : String → ℕ) × IsRank arcs rank)

sorted_outcome :
    (by_units : String → String → Bool) (arcs : List Arc) (o : Order)
    → IsOutcome arcs o
    → (left : List String) × (sorted_left by_units (some o) ≡ some left) × IsAcyclicIf arcs left
sorted_outcome by_units arcs complete h = ([], refl, (λ _. h, λ _. refl))
sorted_outcome by_units arcs (stuck left) h = (
  sort_by by_units left,
  refl,
  (λ e. absurd (h.0 (sort_by-nil by_units left e)), λ r. absurd (h.2 r.0 r.1)),
)

cyclic_review_stages_lem :
    (by_units : String → String → Bool) (es : List PlanEdge)
    → (left : List String) × (cyclic_review_stages by_units es ≡ some left)
      × IsAcyclicIf (plan_arcs es) left
unfolding cyclic_review_stages
cyclic_review_stages_lem by_units es =
    let arcs = plan_arcs es in
    let (o, e, h) =
      search-IsOutcome (sort_by by_units) (count-sort_by by_units) arcs (unique (ends arcs))
        (plan_degrees arcs []) (plan-IsGraph arcs) in
    let (left, same, iff) = sorted_outcome by_units arcs o h in
    (left, ap (sorted_left by_units) e ∙ same, iff)

-- A filter that keeps nothing refuses every element.
none_kept :
    {A : Type 0} (p : A → Bool) (xs : List A)
    → ((has_some p xs ≡ false) → All (λ x. p x ≡ false) xs)
      × (All (λ x. p x ≡ false) xs → (has_some p xs ≡ false))
unfolding keep
none_kept p [] = (λ h. tt, λ h. ground arith)
none_kept p (x ∷ xs) = elim (Bool-cases (p x)) [
  | inl kept ↦ (λ h. absurd (ground arith), λ h. absurd (cc (kept, h.0)))
  | inr dropped ↦
      let (there, back) = none_kept p xs in
      (λ h. (dropped, there (ground arith)), λ h. ground (arith, back h.1))
]

-- What a plan must fulfil, said of each edge and each binding.
abbrev pub IsAuthorized : PlanRules → PlanInput → Type 0
IsAuthorized rules i =
    (opt_eq i.phase (some rules.required_phase) ≡ true)
    × (elem (or_else i.topology_state "refined") ("provisional" ∷ "refined" ∷ []) ≡ true)
    × All (λ e. is_self_edge e ≡ false) i.dependencies
    × ((rank : String → ℕ) × IsRank (plan_arcs i.dependencies) rank)
    × All (λ b. is_unresolved b ≡ false) i.bindings
    × ((or_else i.topology_state "refined" =ₛ "refined") ≡ true
        → All (λ b. is_unmaterialized b ≡ false) i.bindings
          × All (λ e. is_loose e ≡ false) i.dependencies)

module _ (rules : PlanRules) (i : PlanInput) where
  facts_iff : (evaluate_facts i).allowed ≡ true ↔ (
      All (λ b. is_unresolved b ≡ false) i.bindings
      × ((or_else i.topology_state "refined" =ₛ "refined") ≡ true
          → All (λ b. is_unmaterialized b ≡ false) i.bindings
            × All (λ e. is_loose e ≡ false) i.dependencies))
  unfolding evaluate_facts
  facts_iff =
      let resolved = none_kept is_unresolved i.bindings in
      let materialized = none_kept is_unmaterialized i.bindings in
      let tied = none_kept is_loose i.dependencies in
      (
        λ h. (
          resolved.0 (ground arith),
          λ refined. (materialized.0 (ground arith), tied.0 (ground arith)),
        ),
        λ h. elim (Bool-cases (or_else i.topology_state "refined" =ₛ "refined")) [
          | inl refined ↦
              ground (arith, resolved.1 h.0, materialized.1 (h.1 refined).0, tied.1 (h.1 refined).1)
          | inr provisional ↦ ground (arith, resolved.1 h.0)
        ],
      )

  abbrev IsDecided : Option Decision → Type 0
  IsDecided o = (d : Decision) × (o ≡ some d) × (d.allowed ≡ true ↔ IsAuthorized rules i)

  refused : (d : Decision) → d.allowed ≡ false → ¬ IsAuthorized rules i → IsDecided (some d)
  refused d off wrong = (d, refl, (λ h. absurd (cc (off, h)), λ a. absurd (wrong a)))

  -- After the search, where the earlier checks have passed.
  searched :
      (opt_eq i.phase (some rules.required_phase) ≡ true)
      → (elem (or_else i.topology_state "refined") ("provisional" ∷ "refined" ∷ []) ≡ true)
      → (has_some is_self_edge i.dependencies ≡ false)
      → (left : List String) → IsAcyclicIf (plan_arcs i.dependencies) left
      → IsDecided (after_search i (some left))
  searched phase state straight [] iff = (
    evaluate_facts i,
    refl,
    (
      λ h.
          let (resolved, tied) = facts_iff.0 h in
          (
            phase,
            state,
            (none_kept is_self_edge i.dependencies).0 straight,
            iff.0 refl,
            resolved,
            tied,
          ),
      λ a. let (_, _, _, _, resolved, tied) = a in facts_iff.1 (resolved, tied),
    ),
  )
  searched phase state straight (stage ∷ stages) iff =
      refused _ refl (λ a. let (_, _, _, ranked, _, _) = a in absurd (cc (iff.1 ranked)))

-- The decision on a plan is always reached, and it allows the plan exactly when the phase and the
-- state of the topology are right, no edge leads from a stage to itself, the stages of the edges can
-- be numbered so that the numbers rise along every edge (there is no cycle), no fact is unresolved
-- and, in a refined topology, all facts and edges name their tasks.
pub evaluate_plan_iff :
    (by_units : String → String → Bool) (rules : PlanRules) (i : PlanInput)
    → (d : Decision) × (evaluate_plan by_units rules i ≡ some d)
      × (d.allowed ≡ true ↔ IsAuthorized rules i)
unfolding evaluate_plan
evaluate_plan_iff by_units rules i =
    let back =
      λ (o : Option Decision) (e : evaluate_plan by_units rules i ≡ o) (h : IsDecided rules i o).
        subst (IsDecided rules i) (sym e) h in
    elim (Bool-cases (opt_eq i.phase (some rules.required_phase))) [
      | inr wrong ↦
          back (some (deny "plan" "policy_plan_phase_invalid" "plan.phase")) (rw wrong refl)
            (refused rules i _ refl (λ a. cc (wrong, a.0)))
      | inl phase ↦
          elim (Bool-cases
            (elem (or_else i.topology_state "refined") ("provisional" ∷ "refined" ∷ []))) [
              | inr wrong ↦
                  back
                    (some (deny "plan" "policy_plan_topology_state_invalid" "plan.topology-state"))
                    (rw (phase, wrong) refl)
                    (refused rules i _ refl
                      (λ a. let (_, state, _, _, _, _) = a in cc (wrong, state)))
              | inl state ↦ elim (Bool-cases (has_some is_self_edge i.dependencies)) [
                | inl loop ↦
                    back (some (deny "plan" "policy_plan_self_dependency" "plan.review-topology"))
                      (rw (phase, state, loop) refl)
                      (refused rules i _ refl (λ a.
                        let (_, _, straight, _, _, _) = a in
                        cc (loop, (none_kept is_self_edge i.dependencies).1 straight)))
                | inr straight ↦
                    let (left, e, iff) = cyclic_review_stages_lem by_units i.dependencies in
                    back (after_search i (some left)) (rw (phase, state, straight, e) refl)
                      (searched rules i phase state straight left iff)
              ]
            ]
    ]
