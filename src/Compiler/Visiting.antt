-- ===== src/Compiler/Visiting.antt =====
-- The search by depth ends, and without a cycle it finishes each item after all it depends on.
use agentic_harness.Base.{
  ℕ, zero, suc, ◌+◌, ◌≤◌, String, ◌≡◌, refl, subst, ap, true, false, Option, none, some, List, [],
  ◌∷◌, ◌++◌, arith, elem, is_some, length, eq_iff, eq_refl, ◌=ₛ◌, Bool-cases, Option-cases, inl,
  inr,
}
use agentic_harness.Graph.Counts.{count, Within, length-le}
use agentic_harness.Compiler.{WorkItem}
use agentic_harness.Compiler.Cycles.{
  Walk, stack_from, joined, add_cycle, item_of, follow, finish, visit,
}

-- What the first item with the identifier depends on.
abbrev pub dependencies_in : Option WorkItem → List String
dependencies_in none = []
dependencies_in (some item) = item.dependencies

add_cycle-visited :
    (stack : List String) (d : String) (w : Walk) → (add_cycle stack d w).visited ≡ w.visited
unfolding add_cycle
add_cycle-visited stack d w = ground arith

not_last : (xs : List String) (x : String) → ¬ (xs ++ x ∷ [] ≡ [])
not_last [] x h = cc h
not_last (y ∷ ys) x h = cc h

add_cycle-signatures :
    (stack : List String) (d : String) (w : Walk) → ¬ ((add_cycle stack d w).signatures ≡ [])
unfolding add_cycle
add_cycle-signatures stack d w =
    let signature = joined (stack_from d stack ++ d ∷ []) in
    elim (Bool-cases (elem signature w.signatures)) [
      | inl known ↦ λ h. cc known
      | inr fresh ↦ λ h. not_last w.signatures signature (rw fresh at h)
    ]

module _ (items : List WorkItem) where
  abbrev pub Known : String → Type 0
  Known id = is_some (item_of items id) ≡ true

  -- Of the visited items, the last one first: each was finished once, after all it depends on.
  abbrev pub IsOrdered : List String → Type 0
  IsOrdered [] = Unit
  IsOrdered (id ∷ done) =
      (elem id done ≡ false)
      × ((d : String)
          → elem d (dependencies_in (item_of items id)) ≡ true
          → Known d
          → elem d done ≡ true)
      × IsOrdered done

  -- What a part of the search does, under a stack.
  pub record Steps (stack : List String) (v w : Walk) : Type 0 where
    pub grows : (x : String) → elem x v.visited ≡ true → elem x w.visited ≡ true
    pub avoids :
        (x : String) → elem x stack ≡ true → elem x v.visited ≡ false → elem x w.visited ≡ false
    pub clean : w.signatures ≡ [] → v.signatures ≡ []
    pub ordered : w.signatures ≡ [] → IsOrdered v.visited → IsOrdered w.visited

  pub Steps-refl : (stack : List String) (w : Walk) → Steps stack w w
  Steps-refl stack w = record {
    grows = λ x h. h;
    avoids = λ x s h. h;
    clean = λ h. h;
    ordered = λ e h. h;
  }

  pub Steps-trans :
      (stack : List String) {u v w : Walk} → Steps stack u v → Steps stack v w → Steps stack u w
  Steps-trans stack p q = record {
    grows = λ x h. q.grows x (p.grows x h);
    avoids = λ x s h. q.avoids x s (p.avoids x s h);
    clean = λ h. p.clean (q.clean h);
    ordered = λ e h. q.ordered e (p.ordered (q.clean e) h);
  }

  -- A cycle leaves a signature, and the visited items as they are.
  add_cycle-Steps :
      (stack : List String) (d : String) (w : Walk)
      → Steps stack w (add_cycle stack d w) × ¬ ((add_cycle stack d w).signatures ≡ [])
  add_cycle-Steps stack d w =
      let dirty = add_cycle-signatures stack d w in
      (
        record {
          grows = λ x h. rw add_cycle-visited h;
          avoids = λ x s h. rw add_cycle-visited h;
          clean = λ h. absurd (dirty h);
          ordered = λ e h. absurd (dirty e);
        },
        dirty,
      )

  abbrev AllVisited : List String → Walk → Type 0
  AllVisited ds w =
      w.signatures ≡ [] → (d : String) → elem d ds ≡ true → Known d → elem d w.visited ≡ true

  follow-Steps :
      (go : String → Walk → Option Walk) (stack : List String)
      → ((d : String) (v : Walk)
          → Known d
          → elem d stack ≡ false
          → (w : Walk) × (go d v ≡ some w) × Steps stack v w × (elem d w.visited ≡ true))
      → (ds : List String) (v : Walk)
      → (w : Walk) × (follow items go stack ds v ≡ some w) × Steps stack v w × AllVisited ds w
  unfolding follow
  follow-Steps go stack step [] v = (v, refl, Steps-refl stack v, λ e d h. absurd (cc h))
  follow-Steps go stack step (d ∷ ds) v = elim (Bool-cases (is_some (item_of items d))) [
    | inr unknown ↦
        let (w, e, steps, all) = follow-Steps go stack step ds v in
        (
          w,
          rw unknown e,
          steps,
          λ clean x h known. elim (Bool-cases (x =ₛ d)) [
            | inl same ↦ absurd (cc (unknown, rw ((eq_iff x d).0 same) at known))
            | inr other ↦ all clean x (rw other at h) known
          ],
        )
    | inl known ↦ elim (Bool-cases (elem d stack)) [
      | inl cycle ↦
          let (w, e, steps, all) = follow-Steps go stack step ds (add_cycle stack d v) in
          let (added, dirty) = add_cycle-Steps stack d v in
          (
            w,
            rw (known, cycle) e,
            Steps-trans stack added steps,
            λ clean. absurd (dirty (steps.clean clean)),
          )
      | inr deeper ↦
          let (u, e₁, first, there) = step d v known deeper in
          let (w, e₂, steps, all) = follow-Steps go stack step ds u in
          (
            w,
            rw (known, deeper, e₁) e₂,
            Steps-trans stack first steps,
            λ clean x h knows. elim (Bool-cases (x =ₛ d)) [
              | inl same ↦ steps.grows x (rw ((eq_iff x d).0 same) there)
              | inr other ↦ all clean x (rw other at h) knows
            ],
          )
    ]
  ]

  -- The stack grows by an item that is not on it.
  Within-push :
      (stack ids : List String) (id : String)
      → Within stack ids
      → elem id stack ≡ false
      → elem id ids ≡ true
      → Within (id ∷ stack) ids
  Within-push stack ids id within fresh there x = elim (Bool-cases (id =ₛ x)) [
    | inl same ↦
        let e = (eq_iff id x).0 same in
        let here : count x stack ≡ 0 =
          not_there x stack (subst (λ y. elem y stack ≡ false) e fresh) in
        let listed : 1 ≤ count x ids = in_list x ids (subst (λ y. elem y ids ≡ true) e there) in
        ground (arith, here, listed)
    | inr other ↦ ground (arith, within x)
  ]
    where
      not_there : (x : String) (xs : List String) → elem x xs ≡ false → count x xs ≡ 0
      not_there x [] h = refl
      not_there x (y ∷ ys) h = ground (arith, not_there x ys, eq_iff y x, eq_iff x y)

      in_list : (x : String) (xs : List String) → elem x xs ≡ true → 1 ≤ count x xs
      in_list x [] h = absurd (cc h)
      in_list x (y ∷ ys) h = ground (arith, in_list x ys, eq_iff y x, eq_iff x y)

  abbrev pub VisitsFrom : ℕ → List String → String → Walk → Type 0
  VisitsFrom n stack id v =
      (w : Walk) × (visit items n stack id v ≡ some w)
      × Steps stack v w
      × (elem id w.visited ≡ true)

  -- The visit of an item is finished.
  finished :
      (stack : List String) (id : String) (item : WorkItem) (v w : Walk)
      → item_of items id ≡ some item
      → elem id stack ≡ false
      → elem id v.visited ≡ false
      → Steps (id ∷ stack) v w
      → AllVisited item.dependencies w
      → Steps stack v (record w { visited = id ∷ w.visited })
  finished stack id item v w there fresh unvisited steps all = record {
    grows = λ x h. ground (arith, steps.grows x h);
    avoids = λ x s h.
        let other : (x =ₛ id) ≡ false = elim (Bool-cases (x =ₛ id)) [
          | inl same ↦
              absurd (cc (fresh, subst (λ y. elem y stack ≡ true) ((eq_iff x id).0 same) s))
          | inr different ↦ different
        ] in
        ground (arith, other, steps.avoids x (ground (arith, s)) h);
    clean = steps.clean;
    ordered = λ e h. (
      steps.avoids id (ground (arith, eq_refl id)) unvisited,
      λ d h known. all e d (rw there at h) known,
      steps.ordered e h,
    );
  }

  -- The fuel is at least the number of items that the stack does not hold.
  pub visit-Steps :
      (ids : List String)
      → ((id : String) → Known id → elem id ids ≡ true)
      → (n : ℕ) (stack : List String) (id : String) (v : Walk) → length ids ≤ n + length stack
      → Within stack ids
      → Known id
      → elem id stack ≡ false
      → VisitsFrom n stack id v
  unfolding visit
  visit-Steps ids listed zero stack id v enough within known fresh = absurd (
      omega (
        arith,
        length-le (id ∷ stack) ids (Within-push stack ids id within fresh (listed id known)),
      ))
  visit-Steps ids listed (suc n) stack id v enough within known fresh =
      elim (Bool-cases (elem id v.visited)) [
        | inl before ↦ (v, rw (before, visit), Steps-refl stack v, before)
        | inr unvisited ↦ elim (Option-cases (item_of items id)) [
          | inl absent ↦ absurd (cc (known, absent))
          | inr (item, there) ↦
              let inner = λ (d : String) (u : Walk). visit items n (id ∷ stack) d u in
              let (w, e, steps, all) =
                follow-Steps inner (id ∷ stack)
                  (λ d u knows off.
                    visit-Steps ids listed n (id ∷ stack) d u (omega (arith, enough))
                      (Within-push stack ids id within fresh (listed id known)) knows off)
                  item.dependencies v in
              (
                record w { visited = id ∷ w.visited },
                rw (unvisited, there, visit) (ap (finish id) e),
                finished stack id item v w there fresh unvisited steps all,
                ground (arith, eq_refl id),
              )
        ]
      ]
