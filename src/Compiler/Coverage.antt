-- ===== src/Compiler/Coverage.antt =====
-- What a plan without issues fulfils, item by item.
use agentic_harness.Base.{
  ℕ, ◌+◌, String, ◌≡◌, refl, sym, ◌∙◌, Bool, true, false, Option, none, some, List, [], ◌∷◌, ◌++◌,
  map, lookup, elem, keep, any, length, All, arith, ◌==◌, ◌=ₛ◌,
}
use mathlib.Core.List.{append-nil, append_assoc}
use agentic_harness.Compiler.{Criterion, WorkItem, Agent, Tools, registry_agent}
use agentic_harness.Compiler.Ownership.{implementation_roles, patterns_may_overlap, can_own_path}
use agentic_harness.Compiler.Checks.{
  Options, Claims, raise_if, each, each_from, invalid_command, owner_issues, outside, overlaps,
  multi_owner, claim, path_issues,
}
use agentic_harness.Compiler.Inspection.{is_assigned}

pub append-nil_both : (xs ys : List String) → xs ++ ys ≡ [] → (xs ≡ []) × (ys ≡ [])
append-nil_both [] ys h = (refl, h)
append-nil_both (x ∷ xs) ys h = absurd (cc h)

pub raise_if-nil : (b : Bool) (parts : List String) → raise_if b parts ≡ [] → b ≡ false
raise_if-nil true parts h = absurd (cc h)
raise_if-nil false parts h = refl

pub each-nil {ℓ} :
    {A : Type ℓ} (f : A → List String) (xs : List A) → each f xs ≡ [] → All (λ x. f x ≡ []) xs
each-nil f [] h = tt
each-nil f (x ∷ xs) h =
    let (here, later) = append-nil_both (f x) (each f xs) h in (here, each-nil f xs later)

module _ (tools : Tools) (agents : List Agent) where
  -- A pattern overlaps with none that another owner has claimed.
  abbrev pub IsFree : List (String × String) → String → String → Type 0
  IsFree claimed owner path =
      All
        (λ (prior : String × String).
          (prior.1 =ₛ owner) ≡ false → patterns_may_overlap tools prior.0 path ≡ false)
        claimed

  overlaps-IsFree :
      (item : WorkItem) (path : String) (claimed : List (String × String))
      → overlaps tools item path claimed ≡ []
      → IsFree claimed item.owner_agent_id path
  overlaps-IsFree item path [] h = tt
  overlaps-IsFree item path (prior ∷ claimed) h =
      let (here, later) = append-nil_both (raise_if _ _) (overlaps tools item path claimed) h in
      (
        λ other. let none_here = raise_if-nil _ _ here in ground arith,
        overlaps-IsFree item path claimed later,
      )

  abbrev pub claims_over : String → List String → List (String × String)
  claims_over owner paths = map (λ (path : String). (path, owner)) paths

  All-front : {A : Type 0} (P : A → Type 0) (xs ys : List A) → All P (xs ++ ys) → All P xs
  All-front P [] ys h = tt
  All-front P (x ∷ xs) ys h = (h.0, All-front P xs ys h.1)

  -- The paths that an agent may own and that no other owner has claimed.
  abbrev pub IsOwned : WorkItem → Agent → List (String × String) → List String → Type 0
  IsOwned item a claimed paths =
      All
        (λ (path : String).
          (can_own_path tools agents a path ≡ true) × IsFree claimed item.owner_agent_id path)
        paths

  pub path_issues-IsOwned :
      (item : WorkItem) (a : Agent) (paths : List String) (c : Claims tools)
      → registry_agent agents item.owner_agent_id ≡ some a
      → (path_issues tools agents item paths c).0 ≡ []
      → IsOwned item a c.claimed paths
  unfolding path_issues
  path_issues-IsOwned item a [] c found h = tt
  path_issues-IsOwned item a (path ∷ paths) c found h =
      let (out, rest₁) =
        append-nil_both (outside tools agents item path (registry_agent agents item.owner_agent_id))
          _ h in
      let (over, rest₂) = append-nil_both (overlaps tools item path c.claimed) _ rest₁ in
      let (_, rest) =
        append-nil_both (multi_owner tools item path (lookup path c.owners)) _ rest₂ in
      let may = raise_if-nil _ _ (rw found at out) in
      let later = path_issues-IsOwned item a paths (claim tools item path c) found rest in
      ((ground arith, overlaps-IsFree item path c.claimed over), drop_own item a path c paths later)
    where
      drop_own :
          (item : WorkItem) (a : Agent) (path : String) (c : Claims tools) (paths : List String)
          → IsOwned item a (c.claimed ++ (path, item.owner_agent_id) ∷ []) paths
          → IsOwned item a c.claimed paths
      drop_own item a path c [] h = tt
      drop_own item a path c (q ∷ qs) h = (
        (h.0.0, All-front _ c.claimed ((path, item.owner_agent_id) ∷ []) h.0.1),
        drop_own item a path c qs h.1,
      )

  pub path_issues-claimed :
      (item : WorkItem) (paths : List String) (c : Claims tools)
      → (path_issues tools agents item paths c).1.claimed
        ≡ c.claimed ++ claims_over item.owner_agent_id paths
  unfolding path_issues
  path_issues-claimed item [] c = sym (append-nil c.claimed)
  path_issues-claimed item (path ∷ paths) c =
      path_issues-claimed item paths (claim tools item path c)
      ∙ append_assoc c.claimed ((path, item.owner_agent_id) ∷ [])
          (claims_over item.owner_agent_id paths)

  pub owner_issues-found :
      (item : WorkItem) (found : Option Agent)
      → owner_issues tools item found ≡ []
      → (a : Agent) × (found ≡ some a) × (elem a.execution_role implementation_roles ≡ true)
  unfolding owner_issues
  owner_issues-found item none h = absurd (cc h)
  owner_issues-found item (some a) h = let may = raise_if-nil _ _ h in (a, refl, ground arith)

  module _ (o : Options) (criteria : List Criterion) where
    -- What an item fulfils, where these paths were claimed before it.
    pub record IsFit (claimed : List (String × String)) (item : WorkItem) : Type 0 where
      pub owner : Agent
      pub registered : registry_agent agents item.owner_agent_id ≡ some owner
      pub implements : elem owner.execution_role implementation_roles ≡ true
      pub owned : IsOwned item owner claimed item.owned_paths
      pub assigned : any (is_assigned tools o criteria) item.acceptance_criteria ≡ true
      pub executable : All (λ command. tools.is_executable command ≡ true) item.validation

    -- Each item with what the items before it have claimed, and identifiers that do not repeat.
    abbrev pub AllFit : List String → List (String × String) → List WorkItem → Type 0
    AllFit seen claimed [] = Unit
    AllFit seen claimed (item ∷ items) =
        (elem item.id seen ≡ false)
        × IsFit claimed item
        × AllFit (item.id ∷ seen) (claimed ++ claims_over item.owner_agent_id item.owned_paths)
            items

    pub keep-any :
        {A : Type 0} (p : A → Bool) (xs : List A)
        → (length (keep p xs) == 0) ≡ false
        → any p xs ≡ true
    unfolding keep any
    keep-any p [] h = absurd (cc h)
    keep-any p (x ∷ xs) h = ground (arith, keep-any p xs)

    pub executable_from :
        (n : ℕ) (item : WorkItem) (commands : List String)
        → each_from n (invalid_command tools item) commands ≡ []
        → All (λ command. tools.is_executable command ≡ true) commands
    executable_from n item [] h = tt
    executable_from n item (command ∷ commands) h =
        let (here, later) =
          append-nil_both _ (each_from (n + 1) (invalid_command tools item) commands) h in
        let good = raise_if-nil _ _ here in
        (ground arith, executable_from (n + 1) item commands later)
