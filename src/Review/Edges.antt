-- ===== src/Review/Edges.antt =====
-- .agents/runtime/bootstrap-review-dependencies.mjs: the edges that the normalization gives.
use agentic_harness.Base.{
  Bool-cases, String, ◌≡◌, refl, sym, subst, ◌⊎◌, Bool, true, false, Option, none, some, List, [],
  ◌∷◌, elem, All, inl, inr, ◌=ₛ◌, is_truthy, arith,
}
use agentic_harness.Review.{
  merge_from, merge_review_dependencies, Edge, edge_key, Normalized, edges, faulty, compact_edge,
  edge_fault, add_edge, normalize_from, normalize_review_dependencies,
}

the_edges : (a b : List Edge) → edges a ≡ edges b → a ≡ b
the_edges a b h = cc

-- No key of the list stands in the seen ones or twice.
abbrev pub IsFresh : List String → List Edge → Type 0
IsFresh seen [] = Unit
IsFresh seen (e ∷ es) = (elem (edge_key e) seen ≡ false) × IsFresh (edge_key e ∷ seen) es

module _ (is_review_stage : String → Bool) where
  -- An edge between two different review stages with a decision and a rationale.
  abbrev pub IsEdge : Edge → Type 0
  IsEdge e =
      (is_review_stage e.from_stage ≡ true)
      × (is_review_stage e.to_stage ≡ true)
      × ((e.from_stage =ₛ e.to_stage) ≡ false)
      × (is_truthy e.required_decision ≡ true)
      × (is_truthy e.rationale ≡ true)

  faultless : (e : Edge) → edge_fault is_review_stage e ≡ none → IsEdge e
  faultless e h = (ground arith, ground arith, ground arith, ground arith, ground arith)

  -- What one step adds.
  added :
      (fault : Option String) (known : Bool) (e : Edge) (more skipped : Normalized) (es : List Edge)
      → add_edge is_review_stage fault known e more skipped ≡ edges es
      → (skipped ≡ edges es)
        ⊎ ((rest : List Edge) × (fault ≡ none)
            × (known ≡ false)
            × (more ≡ edges rest)
            × (es ≡ e ∷ rest))
  added (some c) known e more skipped es h = absurd (cc h)
  added none true e more skipped es h = inl h
  added none false e (edges rest) skipped es h = inr (rest, refl, refl, refl, sym (the_edges _ _ h))
  added none false e (faulty c) skipped es h = absurd (cc h)

  normalized :
      (seen : List String) (provenance : String) (raw es : List Edge)
      → normalize_from is_review_stage seen provenance raw ≡ edges es
      → All IsEdge es × IsFresh seen es
  unfolding normalize_from
  normalized seen provenance [] es h =
      subst (λ x. All IsEdge x × IsFresh seen x) (the_edges _ _ h) (tt, tt)
  normalized seen provenance (r ∷ raw) es h =
      let e = compact_edge provenance r in
      elim (added (edge_fault is_review_stage e) (elem (edge_key e) seen) e _ _ es h) [
        | inl skipped ↦ normalized seen provenance raw es skipped
        | inr (rest, sound, new, more, same) ↦
            let (valid, fresh) = normalized (edge_key e ∷ seen) provenance raw rest more in
            subst (λ x. All IsEdge x × IsFresh seen x) (sym same)
              ((faultless e sound, valid), (new, fresh))
      ]

  -- The edges that the normalization gives join two different review stages, have a decision and a
  -- rationale, and no two of them have the same key.
  pub normalize_review_dependencies_sound :
      (value es : List Edge) (provenance : String)
      → normalize_review_dependencies is_review_stage value provenance ≡ edges es
      → All IsEdge es × IsFresh [] es
  unfolding normalize_review_dependencies
  normalize_review_dependencies_sound value es provenance h = normalized [] provenance value es h

merge_from-IsFresh : (seen : List String) (es : List Edge) → IsFresh seen (merge_from seen es)
unfolding merge_from
merge_from-IsFresh seen [] = tt
merge_from-IsFresh seen (e ∷ es) = elim (Bool-cases (elem (edge_key e) seen)) [
  | inl known ↦ rw known (merge_from-IsFresh seen es)
  | inr new ↦ rw new (new, merge_from-IsFresh (edge_key e ∷ seen) es)
]

-- No two edges of a merge have the same key, whatever the groups have in common.
pub merge_review_dependencies-IsFresh :
    (groups : List (List Edge)) → IsFresh [] (merge_review_dependencies groups)
unfolding merge_review_dependencies
merge_review_dependencies-IsFresh groups = merge_from-IsFresh [] _
