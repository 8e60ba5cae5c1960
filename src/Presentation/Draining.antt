-- ===== src/Presentation/Draining.antt =====
-- The microtask and the ends of projections bring the service to rest.
use agentic_harness.Base.{
  ℕ, zero, suc, ◌+◌, ◌≤◌, ◌<◌, String, ◌≡◌, refl, sym, subst, ◌∙◌, true, false, List, [], ◌∷◌, ◌++◌,
  elem, length, ltb, arith, eq_refl, if◌then◌else◌, Bool-cases, ◌⊎◌, inl, inr,
}
use agentic_harness.Presentation.{
  Service, add_to, is_empty, is_idle, resolve_idle, start_runs, pump, fire, release_run, settle,
}
use agentic_harness.Presentation.Steps.{
  pump-cases, Action, notified, settled, failed, cleared, fired, awaited, ended, after, Enabled,
  Reach, idle_service, length-add_to, length-drop_from,
}
use agentic_harness.Presentation.Soundness.{IsSound, after-IsSound, Reach-IsSound}

-- What is left to do: runs to project, projections to end, and the microtask.
abbrev pub load : Service → ℕ
load s = length s.pending + length s.active + length s.dirty + (if s.scheduled then 1 else 0)

-- The steps that need no caller.
abbrev pub IsOwn : Action → Type 0
IsOwn fired = Unit
IsOwn (settled _) = Unit
IsOwn _ = ⊥

abbrev pub IsMovable : Service → Type 0
IsMovable u = (a : Action) × IsOwn a × Enabled a u

-- `u` is reached from `s` by `n` such steps.
pub data OwnSteps (limit : ℕ) (s : Service) : ℕ → Service → Type 0 where
  none_yet : OwnSteps limit s zero s
  one_more :
      {n : ℕ} {t u : Service}
      → OwnSteps limit s n t
      → (a : Action) → IsOwn a
      → Enabled a t
      → u ≡ after limit a t
      → OwnSteps limit s (suc n) u

-- `u` has no more to do than `s`, and is stopped where `s` is.
IsLighter : Service → Service → Type 0
IsLighter s u = (load u ≤ load s) × (u.stopped ≡ s.stopped)

resolve_idle-IsLighter : (s : Service) → IsLighter s (resolve_idle s)
unfolding resolve_idle IsLighter
resolve_idle-IsLighter s = elim (Bool-cases (is_idle s)) [
  | inl idle ↦ rw idle (omega arith, refl)
  | inr live ↦ rw live (omega arith, refl)
]

IsLighter-trans : (s t u : Service) → IsLighter s t → IsLighter t u → IsLighter s u
unfolding IsLighter
IsLighter-trans s t u p q = (omega (arith, p.0, q.0), q.1 ∙ p.1)

module _ (limit : ℕ) where
  start_runs-IsLighter :
      (rest : List String) (s : Service)
      → IsLighter (record s { pending = rest }) (start_runs limit rest s)
  unfolding start_runs IsLighter
  start_runs-IsLighter [] s = (omega arith, refl)
  start_runs-IsLighter (r ∷ rest) s = elim (Bool-cases (ltb (length s.active) limit)) [
    | inr full ↦ rw full (omega arith, refl)
    | inl free ↦
        let next =
          start_runs-IsLighter rest
            (record s { active = add_to r s.active; started = s.started ++ r ∷ [] }) in
        rw free (omega (arith, next.0, length-add_to r s.active), next.1)
  ]

  pump-IsLighter : (s : Service) → IsLighter s (pump limit s)
  pump-IsLighter s = elim (pump-cases limit s) [
    | inl (over, e) ↦ subst (IsLighter s) (sym e) (resolve_idle-IsLighter s)
    | inr (live, e) ↦ subst (IsLighter s) (sym e) (
        IsLighter-trans s _ _ (start_runs-IsLighter s.pending s)
          (resolve_idle-IsLighter (start_runs limit s.pending s)))
  ]

  release_run-load :
      (r : String) (s : Service) → elem r s.active ≡ true → load (release_run r s) < load s
  unfolding release_run
  release_run-load r s there = ground (
    arith,
    there,
    length-add_to r s.pending,
    length-drop_from r s.active,
    length-drop_from r s.dirty,
  )

  after-load :
      (a : Action) (s : Service)
      → IsOwn a
      → Enabled a s
      → (load (after limit a s) < load s) × ((after limit a s).stopped ≡ s.stopped)
  unfolding fire settle release_run IsLighter
  after-load fired s own on =
      let next = pump-IsLighter (record s { scheduled = false }) in
      (ground (arith, next.0, on), next.1)
  after-load (settled r) s own there =
      let freed = release_run-load r s there in
      let (less, same) =
        IsLighter-trans (release_run r s) (pump limit (release_run r s)) (settle limit r s)
          (pump-IsLighter (release_run r s))
          (resolve_idle-IsLighter (pump limit (release_run r s))) in
      (omega (arith, less, freed), same)
  after-load (notified r) s own on = absurd own
  after-load (failed r) s own on = absurd own
  after-load (cleared r) s own on = absurd own
  after-load awaited s own on = absurd own
  after-load ended s own on = absurd own

  OwnSteps-load :
      (s : Service) {n : ℕ} (u : Service)
      → OwnSteps limit s n u
      → (n + load u ≤ load s) × (u.stopped ≡ s.stopped)
  OwnSteps-load s u none_yet = (omega arith, refl)
  OwnSteps-load s u (one_more {n} {t} steps a own on e) =
      let before = OwnSteps-load s t steps in
      let next = after-load a t own on in
      subst (λ v. (suc n + load v ≤ load s) × (v.stopped ≡ s.stopped)) (sym e)
        (omega (arith, before.0, next.0), next.1 ∙ before.1)

  OwnSteps-IsSound :
      (s : Service)
      → IsSound limit s
      → {n : ℕ} (u : Service) → OwnSteps limit s n u
      → IsSound limit u
  OwnSteps-IsSound s sound u none_yet = sound
  OwnSteps-IsSound s sound u (one_more {n} {t} steps a own on e) =
      subst (IsSound limit) (sym e) (after-IsSound limit a t (OwnSteps-IsSound s sound t steps))

  next_step :
      (u : Service)
      → 1 ≤ limit
      → IsSound limit u
      → u.stopped ≡ false
      → (is_idle u ≡ true) ⊎ IsMovable u
  next_step u pos sound live = elim (Bool-cases u.scheduled) [
    | inl on ↦ inr (fired, tt, on)
    | inr off ↦ elim (first u.active) [
      | inr (r, there) ↦ inr (settled r, tt, there)
      | inl none ↦ elim (Bool-cases (is_empty u.pending)) [
        | inl rest ↦ inl (ground (arith, off, none, rest))
        | inr waiting ↦ absurd (ground (arith, pos, sound.busy off live waiting, none))
      ]
    ]
  ]
    where
      first :
          (xs : List String)
          → ((is_empty xs ≡ true) × (length xs ≡ 0)) ⊎ ((r : String) × (elem r xs ≡ true))
      first [] = inl (refl, refl)
      first (r ∷ xs) = inr (r, ground (arith, eq_refl r))

  -- A service is reached from its creation with a limit of at least 1, and is not stopped. Every
  -- sequence of steps from there that are the microtask or ends of projections has at most as many
  -- steps as there are pending, projected and dirty runs, and one more for a queued microtask. At its
  -- end the service is idle, or another such step is possible; so a longest sequence ends idle.
  pub OwnSteps-end :
      (s u : Service) (n : ℕ)
      → 1 ≤ limit
      → Reach limit idle_service s
      → s.stopped ≡ false
      → OwnSteps limit s n u
      → (n + load u ≤ load s) × ((is_idle u ≡ true) ⊎ IsMovable u)
  OwnSteps-end s u n pos before live steps =
      let (bound, same) = OwnSteps-load s u steps in
      let sound = OwnSteps-IsSound s (Reach-IsSound limit s before) u steps in
      (bound, next_step u pos sound (same ∙ live))
