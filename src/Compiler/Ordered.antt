-- ===== src/Compiler/Ordered.antt =====
-- The search by depth reports a cycle exactly where the items have one.
use agentic_harness.Base.{
  ℕ, zero, suc, ◌<◌, String, ◌≡◌, refl, ap, ◌∙◌, ◌↔◌, true, false, Option, some, List, [], ◌∷◌, map,
  arith, elem, find, is_some, length, eq_iff, eq_refl, ◌=ₛ◌, Bool-cases, Option-cases, inl, inr,
}
use agentic_harness.Graph.Ranks.{place, place-le}
use agentic_harness.Compiler.{WorkItem}
use agentic_harness.Compiler.Cycles.{
  Walk, item_of, follow, finish, visit, visit_all, cycle_issues, collect_cycle_issues,
}
use agentic_harness.Compiler.Visiting.{
  dependencies_in, Known, IsOrdered, Steps, Steps-refl, Steps-trans, visit-Steps,
}

finish_signatures :
    (id : String) (u w : Walk) → finish id (some u) ≡ some w → w.signatures ≡ u.signatures
finish_signatures id u w e = cc e

module _ (items : List WorkItem) where
  -- A number for each item that is higher than the numbers of the items it depends on.
  abbrev pub IsRank : (String → ℕ) → Type 0
  IsRank rank =
      (id d : String)
      → elem d (dependencies_in (item_of items id)) ≡ true
      → Known items d
      → rank d < rank id

  visit_all-Steps :
      (ids : List String)
      → ((id : String) → Known items id → elem id ids ≡ true)
      → (rest : List String) (v : Walk) → ((id : String) → elem id rest ≡ true → Known items id)
      → (w : Walk) × (visit_all items (length ids) rest v ≡ some w)
        × Steps items [] v w
        × ((id : String) → elem id rest ≡ true → elem id w.visited ≡ true)
  unfolding visit_all
  visit_all-Steps ids listed [] v known = (v, refl, Steps-refl items [] v, λ id h. absurd (cc h))
  visit_all-Steps ids listed (id ∷ rest) v known =
      let (u, e₁, first, there) =
        visit-Steps items ids listed (length ids) [] id v (omega arith) (λ x. omega arith)
          (known id (ground (arith, eq_refl id))) refl in
      let (w, e₂, steps, all) =
        visit_all-Steps ids listed rest u (λ x h. known x (ground (arith, h))) in
      (
        w,
        rw e₁ e₂,
        Steps-trans items [] first steps,
        λ x h. elim (Bool-cases (x =ₛ id)) [
          | inl same ↦ steps.grows x (rw ((eq_iff x id).0 same) there)
          | inr other ↦ all x (rw other at h)
        ],
      )

  -- In the order of the visits, each item comes after all it depends on.
  place-ordered :
      (done : List String) (id d : String)
      → IsOrdered items done
      → elem id done ≡ true
      → elem d (dependencies_in (item_of items id)) ≡ true
      → Known items d
      → (elem d done ≡ true) × (place done d < place done id)
  unfolding place
  place-ordered [] id d ordered h dep known = absurd (cc h)
  place-ordered (s ∷ done) id d (fresh, after, ordered) h dep known = elim (Bool-cases (s =ₛ id)) [
    | inl same ↦
        let e = (eq_iff s id).0 same in
        let there = after d (rw e dep) known in
        (ground (arith, there), ground (arith, there, fresh, place-le done d, eq_iff s d))
    | inr other ↦
        let (there, less) =
          place-ordered done id d ordered (ground (arith, eq_iff s id, eq_iff id s)) dep known in
        (ground (arith, there), ground (arith, there, less, fresh, eq_iff s d))
  ]

  module _ (rank : String → ℕ) (rises : IsRank rank) where
    -- Below all of the stack.
    abbrev Below : List String → String → Type 0
    Below stack d = (x : String) → elem x stack ≡ true → rank d < rank x

    not_on_stack : (stack : List String) (d : String) → Below stack d → elem d stack ≡ false
    not_on_stack stack d below = elim (Bool-cases (elem d stack)) [
      | inl there ↦ absurd (omega (arith, below d there))
      | inr off ↦ off
    ]

    push-Below :
        (stack : List String) (id d x : String)
        → Below stack id
        → rank d < rank id
        → elem x (id ∷ stack) ≡ true
        → rank d < rank x
    push-Below stack id d x below less on = elim (Bool-cases (x =ₛ id)) [
      | inl same ↦ rw ((eq_iff x id).0 same) less
      | inr other ↦ omega (arith, less, below x (rw other at on))
    ]

    follow-clean :
        (go : String → Walk → Option Walk) (stack ds : List String) (v w : Walk)
        → ((d : String) (v w : Walk)
            → Known items d
            → Below stack d
            → go d v ≡ some w
            → w.signatures ≡ v.signatures)
        → ((d : String) → elem d ds ≡ true → Known items d → Below stack d)
        → follow items go stack ds v ≡ some w
        → w.signatures ≡ v.signatures
    unfolding follow
    follow-clean go stack [] v w inner below e = cc e
    follow-clean go stack (d ∷ ds) v w inner below e =
        let later = λ (x : String) (h : elem x ds ≡ true) (k : Known items x).
          below x (ground (arith, h)) k in
        elim (Bool-cases (is_some (item_of items d))) [
          | inr unknown ↦ follow-clean go stack ds v w inner later (rw unknown at e)
          | inl known ↦
              let under = below d (ground (arith, eq_refl d)) known in
              let off = not_on_stack stack d under in
              elim (Option-cases (go d v)) [
                | inl stuck ↦ absurd (cc (rw (known, off, stuck) at e))
                | inr (u, first) ↦
                    follow-clean go stack ds u w inner later (rw (known, off, first) at e)
                    ∙ inner d v u known under first
              ]
        ]

    visit-clean :
        (n : ℕ) (stack : List String) (id : String) (v w : Walk)
        → Known items id
        → Below stack id
        → visit items n stack id v ≡ some w
        → w.signatures ≡ v.signatures
    unfolding visit
    visit-clean zero stack id v w known below e = elim (Bool-cases (elem id v.visited)) [
      | inl before ↦ cc (rw (before, visit) at e)
      | inr unvisited ↦ elim (Option-cases (item_of items id)) [
        | inl absent ↦ absurd (cc (known, absent))
        | inr (item, there) ↦ absurd (cc (rw (unvisited, there, visit) at e))
      ]
    ]
    visit-clean (suc n) stack id v w known below e = elim (Bool-cases (elem id v.visited)) [
      | inl before ↦ cc (rw (before, visit) at e)
      | inr unvisited ↦ elim (Option-cases (item_of items id)) [
        | inl absent ↦ absurd (cc (known, absent))
        | inr (item, there) ↦
            let inner = λ (d : String) (u : Walk). visit items n (id ∷ stack) d u in
            let under =
              λ (d : String) (h : elem d item.dependencies ≡ true) (k : Known items d) (x : String)
                  (on : elem x (id ∷ stack) ≡ true).
                push-Below stack id d x below (rises id d (rw there h) k) on in
            elim (Option-cases (follow items inner (id ∷ stack) item.dependencies v)) [
              | inl stuck ↦ absurd (cc (rw (unvisited, there, stuck, visit) at e))
              | inr (u, walked) ↦
                  finish_signatures id u w (rw (unvisited, there, walked, visit) at e)
                  ∙ follow-clean inner (id ∷ stack) item.dependencies v u
                      (λ d a b k low h. visit-clean n (id ∷ stack) d a b k low h) under walked
            ]
      ]
    ]

    visit_all-clean :
        (n : ℕ) (ids : List String) (v w : Walk)
        → ((id : String) → elem id ids ≡ true → Known items id)
        → visit_all items n ids v ≡ some w
        → w.signatures ≡ v.signatures
    unfolding visit_all
    visit_all-clean n [] v w known e = cc e
    visit_all-clean n (id ∷ ids) v w known e = elim (Option-cases (visit items n [] id v)) [
      | inl stuck ↦ absurd (cc (rw stuck at e))
      | inr (u, first) ↦
          visit_all-clean n ids u w (λ x h. known x (ground (arith, h))) (rw first at e)
          ∙ visit-clean n [] id v u (known id (ground (arith, eq_refl id))) (λ x h. absurd (cc h))
              first
    ]

abbrev ids_of : List WorkItem → List String
ids_of items = map (λ (i : WorkItem). i.id) items

listed : (items : List WorkItem) (id : String) → Known items id → elem id (ids_of items) ≡ true
unfolding item_of find
listed [] id h = absurd (cc h)
listed (i ∷ items) id h = ground (arith, listed items id, eq_iff i.id id, eq_iff id i.id)

pub listed-Known :
    (items : List WorkItem) (id : String) → elem id (ids_of items) ≡ true → Known items id
unfolding item_of find
listed-Known [] id h = absurd (cc h)
listed-Known (i ∷ items) id h =
    ground (arith, listed-Known items id, eq_iff i.id id, eq_iff id i.id)

map-nil : (f : String → String) (xs : List String) → map f xs ≡ [] → xs ≡ []
map-nil f [] h = refl
map-nil f (x ∷ xs) h = absurd (cc h)

ordered-IsRank :
    (items : List WorkItem) (w : Walk)
    → IsOrdered items w.visited
    → ((id : String) → elem id (ids_of items) ≡ true → elem id w.visited ≡ true)
    → IsRank items (place w.visited)
ordered-IsRank items w ordered all id d dep known = elim (Option-cases (item_of items id)) [
  | inl absent ↦ absurd (cc (rw absent at dep))
  | inr (item, there) ↦
      (place-ordered items w.visited id d ordered (all id (listed items id (rw there refl))) dep
        known).1
]

-- The search for cycles always ends within its fuel, one unit for each item. It reports no issue
-- exactly where the items can be numbered so that each has a higher number than the items that it
-- depends on, where identifiers that no item has do not count.
pub collect_cycle_issues_iff :
    (items : List WorkItem)
    → (issues : List String) × (collect_cycle_issues items ≡ some issues)
      × (issues ≡ [] ↔ ((rank : String → ℕ) × IsRank items rank))
unfolding collect_cycle_issues
collect_cycle_issues_iff items =
    let ids = ids_of items in
    let start : Walk = record { visited = []; signatures = [] } in
    let (w, e, steps, all) =
      visit_all-Steps items ids (listed items) ids start (listed-Known items) in
    (
      map _ w.signatures,
      ap cycle_issues e,
      (
        λ h. (
          place w.visited,
          ordered-IsRank items w (steps.ordered (map-nil _ w.signatures h) tt) all,
        ),
        λ r.
            ap (map _)
              (visit_all-clean items r.0 r.1 (length ids) ids start w (listed-Known items) e),
      ),
    )
