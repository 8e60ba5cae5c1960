-- ===== src/Compiler/Cycles.antt =====
-- .agents/runtime/dag-compiler.mjs: `collectCycleIssues`, the search for cycles by depth. The stack is
-- a list with its top first, and `visiting` has its elements.
use Prim.Native.String.{◌++◌ as text_append}
use agentic_harness.Base.{
  ℕ, zero, suc, String, true, false, not, Option, none, some, List, [], ◌∷◌, ◌++◌, map, elem, find,
  is_some, length, ◌=ₛ◌, if◌then◌else◌,
}
use agentic_harness.Compiler.{WorkItem}

-- The part of the stack down to the dependency, bottom first.
unfoldable pub stack_from : String → List String → List String
stack_from d [] = []
stack_from d (top ∷ rest) =
    let lower = stack_from d rest in if top =ₛ d then top ∷ [] else lower ++ top ∷ []

-- `cycle.join("->")`
unfoldable pub joined : List String → String
joined [] = ""
joined (x ∷ []) = x
joined (x ∷ y ∷ xs) = text_append x (text_append "->" (joined (y ∷ xs)))

-- What the search has written: the visited items, the last one first, and the signatures of the
-- cycles found, which `seenCycles` and `issues` both hold.
pub record Walk : Type 0 where
  pub visited : List String
  pub signatures : List String

unfoldable pub add_cycle : List String → String → Walk → Walk
unfolding stack_from joined
add_cycle stack d w =
    let signature = joined (stack_from d stack ++ d ∷ []) in
    if elem signature w.signatures
    then w
    else record w { signatures = w.signatures ++ signature ∷ [] }

abbrev pub then_walk : Option Walk → (Walk → Option Walk) → Option Walk
then_walk none f = none
then_walk (some w) f = f w

abbrev pub finish : String → Option Walk → Option Walk
finish id none = none
finish id (some w) = some (record w { visited = id ∷ w.visited })

module _ (items : List WorkItem) where
  -- `byId.get(id)`: the first item with this identifier.
  unfoldable pub item_of : String → Option WorkItem
  item_of id = find (λ i. i.id =ₛ id) items

  -- The loop over the dependencies of the item on the top of the stack, `go` is the recursive visit.
  unfoldable pub follow :
      (String → Walk → Option Walk) → List String → List String → Walk → Option Walk
  unfolding item_of add_cycle
  follow go stack [] w = some w
  follow go stack (d ∷ ds) w =
      let skipped = follow go stack ds w in
      let cyclic = follow go stack ds (add_cycle stack d w) in
      let deeper = then_walk (go d w) (follow go stack ds) in
      if not (is_some (item_of d)) then skipped else if elem d stack then cyclic else deeper

  -- `visit`; `none` where the fuel runs out.
  unfoldable pub visit : ℕ → List String → String → Walk → Option Walk
  unfolding follow
  visit zero stack id w =
      if elem id w.visited then some w else elim (item_of id) [ none ↦ some w | some item ↦ none ]
  visit (suc n) stack id w = elim (elem id w.visited) [
    | true ↦ some w
    | false ↦ elim (item_of id) [
      | none ↦ some w
      | some item ↦
          finish id (follow (λ d v. visit n (id ∷ stack) d v) (id ∷ stack) item.dependencies w)
    ]
  ]

  unfoldable pub visit_all : ℕ → List String → Walk → Option Walk
  unfolding visit
  visit_all fuel [] w = some w
  visit_all fuel (id ∷ ids) w = then_walk (visit fuel [] id w) (visit_all fuel ids)

abbrev pub cycle_issues : Option Walk → Option (List String)
cycle_issues none = none
cycle_issues (some w) = some (map (λ s. text_append "implementation_plan_cycle:" s) w.signatures)

-- `collectCycleIssues`; the fuel is the number of items, which the stack cannot exceed.
unfoldable pub collect_cycle_issues : List WorkItem → Option (List String)
unfolding visit_all
collect_cycle_issues items =
    let ids = map (λ (i : WorkItem). i.id) items in
    cycle_issues (visit_all items (length ids) ids (record { visited = []; signatures = [] }))
