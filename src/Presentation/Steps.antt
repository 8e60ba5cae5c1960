-- ===== src/Presentation/Steps.antt =====
-- The steps of the service: the calls of its methods, its microtask, and the ends of projections.
use agentic_harness.Base.{
  elem-append, ◌∙◌, ℕ, trim, is_truthy, ◌⊎◌, ◌+◌, ◌≤◌, String, ◌≡◌, refl, true, false, not, ◌&&◌,
  ◌||◌, List, [], ◌∷◌, ◌++◌, elem, keep, length, arith, eq_iff, ◌=ₛ◌, if◌then◌else◌, Bool-cases,
  inl, inr,
}
use agentic_harness.Presentation.{
  pump, start_runs, resolve_idle, Service, add_to, drop_from, schedule, notify, fire, settle,
  fail_run, clear_run, await_idle, stop,
}

pub data Action : Type 0 where
  notified settled failed cleared : String → Action
  fired awaited ended : Action

abbrev pub after : ℕ → Action → Service → Service
after limit (notified raw) s = (notify raw s).1
after limit fired s = fire limit s
after limit (settled run_id) s = settle limit run_id s
after limit (failed run_id) s = fail_run run_id s
after limit (cleared run_id) s = clear_run run_id s
after limit awaited s = await_idle s
after limit ended s = stop s

-- The microtask runs where it was queued, and only an active projection ends.
abbrev pub Enabled : Action → Service → Type 0
Enabled fired s = s.scheduled ≡ true
Enabled (settled run_id) s = elem run_id s.active ≡ true
Enabled (failed run_id) s = elem run_id s.active ≡ true
Enabled (cleared run_id) s = elem run_id s.active ≡ true
Enabled _ s = Unit

pub data Reach (limit : ℕ) (s : Service) : Service → Type 0 where
  here : Reach limit s s
  step :
      {t u : Service}
      → Reach limit s t
      → (a : Action) → Enabled a t
      → u ≡ after limit a t
      → Reach limit s u

-- A new service.
abbrev pub idle_service : Service
idle_service = record {
  pending = [];
  active = [];
  dirty = [];
  errors = [];
  started = [];
  scheduled = false;
  stopped = false;
  waiters = 0;
}

-- What `notify` does to the service.
pub notify-cases :
    (raw : String) (s : Service)
    → ((notify raw s).1 ≡ s)
      ⊎ (((s.stopped ≡ false)
            × (is_truthy (trim raw) ≡ true)
            × (elem (trim raw) s.active ≡ true)
            × ((notify raw s).1 ≡ schedule (record s { dirty = add_to (trim raw) s.dirty })))
          ⊎ ((s.stopped ≡ false)
              × (is_truthy (trim raw) ≡ true)
              × (elem (trim raw) s.active ≡ false)
              × ((notify raw s).1 ≡ schedule (record s { pending = add_to (trim raw) s.pending }))))
unfolding notify
notify-cases raw s = elim (Bool-cases s.stopped) [
  | inl over ↦ inl (refused s over)
  | inr live ↦ elim (Bool-cases (is_truthy (trim raw))) [
    | inr blank ↦ inl (unnamed s live blank)
    | inl named ↦ elim (Bool-cases (elem (trim raw) s.active)) [
      | inl projected ↦ inr (inl (live, named, projected, marked s live named projected))
      | inr waiting ↦ inr (inr (live, named, waiting, queued s live named waiting))
    ]
  ]
]
  where
    refused : (s : Service) → s.stopped ≡ true → (notify raw s).1 ≡ s
    refused s h = rw (h, notify)

    unnamed :
        (s : Service) → s.stopped ≡ false → is_truthy (trim raw) ≡ false → (notify raw s).1 ≡ s
    unnamed s h k = rw (h, k, notify)

    marked :
        (s : Service)
        → s.stopped ≡ false
        → is_truthy (trim raw) ≡ true
        → elem (trim raw) s.active ≡ true
        → (notify raw s).1 ≡ schedule (record s { dirty = add_to (trim raw) s.dirty })
    marked s h k l = rw (h, k, l, notify)

    queued :
        (s : Service)
        → s.stopped ≡ false
        → is_truthy (trim raw) ≡ true
        → elem (trim raw) s.active ≡ false
        → (notify raw s).1 ≡ schedule (record s { pending = add_to (trim raw) s.pending })
    queued s h k l = rw (h, k, l, notify)

-- What `pump` does to the service.
pub pump-cases :
    (limit : ℕ) (s : Service)
    → ((s.stopped ≡ true) × (pump limit s ≡ resolve_idle s))
      ⊎ ((s.stopped ≡ false) × (pump limit s ≡ resolve_idle (start_runs limit s.pending s)))
unfolding pump
pump-cases limit s = elim (Bool-cases s.stopped) [
  | inl over ↦ inl (over, ended_pump s over)
  | inr live ↦ inr (live, live_pump s live)
]
  where
    ended_pump : (s : Service) → s.stopped ≡ true → pump limit s ≡ resolve_idle s
    ended_pump s h = rw (h, pump)

    live_pump :
        (s : Service)
        → s.stopped ≡ false
        → pump limit s ≡ resolve_idle (start_runs limit s.pending s)
    live_pump s h = rw (h, pump)

elem-snoc : (y x : String) (xs : List String) → elem y (xs ++ x ∷ []) ≡ (elem y xs || y =ₛ x)
elem-snoc y x xs = elem-append y xs (x ∷ []) ∙ ground arith

pub elem-add_to : (y x : String) (xs : List String) → elem y (add_to x xs) ≡ (elem y xs || y =ₛ x)
elem-add_to y x xs = elim (Bool-cases (elem x xs)) [
  | inr fresh ↦ rw fresh (elem-snoc y x xs)
  | inl there ↦ elim (Bool-cases (y =ₛ x)) [
    | inl same ↦ rw (← (eq_iff y x).0 same) (ground (arith, rw (← (eq_iff y x).0 same) at there))
    | inr other ↦ ground (arith, there, other)
  ]
]

pub elem-drop_from :
    (y x : String) (xs : List String) → elem y (drop_from x xs) ≡ (elem y xs && not (y =ₛ x))
unfolding keep
elem-drop_from y x [] = ground arith
elem-drop_from y x (z ∷ xs) =
    ground (arith, elem-drop_from y x xs, eq_iff z x, eq_iff y z, eq_iff y x)

pub length-add_to : (x : String) (xs : List String) → length (add_to x xs) ≤ length xs + 1
length-add_to x xs = ground (arith, length-snoc xs)
  where
    length-snoc : (ys : List String) → length (ys ++ x ∷ []) ≡ length ys + 1
    length-snoc [] = omega arith
    length-snoc (y ∷ ys) = omega (arith, length-snoc ys)

pub length-drop_from :
    (x : String) (xs : List String)
    → length (drop_from x xs) + (if elem x xs then 1 else 0) ≤ length xs
unfolding keep
length-drop_from x [] = omega arith
length-drop_from x (y ∷ xs) = ground (arith, length-drop_from x xs, eq_iff x y, eq_iff y x)

abbrev pub IsDistinct : List String → Type 0
IsDistinct [] = Unit
IsDistinct (x ∷ xs) = (elem x xs ≡ false) × IsDistinct xs

pub add_to-IsDistinct : (x : String) (xs : List String) → IsDistinct xs → IsDistinct (add_to x xs)
add_to-IsDistinct x xs h = elim (Bool-cases (elem x xs)) [
  | inl there ↦ rw there h
  | inr fresh ↦ rw fresh (snoc x xs fresh h)
]
  where
    snoc :
        (x : String) (xs : List String)
        → elem x xs ≡ false
        → IsDistinct xs
        → IsDistinct (xs ++ x ∷ [])
    snoc x [] fresh h = (refl, tt)
    snoc x (y ∷ xs) fresh h = (
      ground (arith, elem-snoc y x xs, h.0, fresh, eq_iff x y, eq_iff y x),
      snoc x xs (ground (arith, fresh)) h.1,
    )
