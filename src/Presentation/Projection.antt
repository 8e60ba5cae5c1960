-- ===== src/Presentation/Projection.antt =====
-- No notification is lost: what is owed stays owed until it is projected.
use agentic_harness.Base.{
  elem-append, subst, ℕ, ◌+◌, String, ◌≡◌, refl, sym, ◌∙◌, ap, Bool, true, false, not, ◌&&◌, ◌||◌,
  List, [], ◌∷◌, ◌++◌, elem, length, ltb, trim, is_truthy, arith, eq_iff, eq_refl, ◌=ₛ◌, Bool-cases,
  inl, inr,
}
use mathlib.Core.List.{append-nil, append_assoc}
use agentic_harness.Presentation.{
  Service, add_to, is_empty, is_idle, resolve_idle, schedule, notify, start_runs, pump, fire,
  release_run, settle, fail_run, clear_run, await_idle, stop,
}
use agentic_harness.Presentation.Steps.{
  pump-cases, Action, notified, settled, failed, cleared, fired, awaited, ended, after, Reach, here,
  step, idle_service, elem-add_to, elem-drop_from, notify-cases,
}
use agentic_harness.Presentation.Soundness.{IsSound, after-IsSound, Reach-IsSound}

-- `run_id` waits for a projection.
abbrev pub is_owed : String → Service → Bool
is_owed run_id s = elem run_id s.pending || elem run_id s.dirty

-- Between `s` and `u`, `project` has been called with the id.
abbrev pub IsProjected : String → Service → Service → Type 0
IsProjected run_id s u =
    (run : List String) × (u.started ≡ s.started ++ run) × (elem run_id run ≡ true)

-- From `s` the service has come to `u`, by the projections `run`.
record Follows (x : String) (s u : Service) : Type 0 where
  run : List String
  started : u.started ≡ s.started ++ run
  alive : u.stopped ≡ false → s.stopped ≡ false
  kept : u.stopped ≡ false → is_owed x s ≡ true → (is_owed x u || elem x run) ≡ true

joined : (x : String) (s t u : Service) → Follows x s t → Follows x t u → Follows x s u
joined x s t u p q = record {
  run = p.run ++ q.run;
  started = q.started ∙ ap (λ l. l ++ q.run) p.started ∙ append_assoc s.started p.run q.run;
  alive = λ live. p.alive (q.alive live);
  kept = λ live owed. elim (Bool-cases (is_owed x t)) [
    | inl still ↦
        let served = q.kept live still in rw (elem-append x p.run q.run) (ground (arith, served))
    | inr gone ↦
        let served = p.kept (q.alive live) owed in
        rw (elem-append x p.run q.run) (ground (arith, served, gone))
  ];
}

-- Steps that project nothing.
unmoved :
    (x : String) (s u : Service)
    → u.started ≡ s.started
    → (u.stopped ≡ false → s.stopped ≡ false)
    → (u.stopped ≡ false → is_owed x s ≡ true → is_owed x u ≡ true)
    → Follows x s u
unmoved x s u started alive kept = record {
  run = [];
  started = started ∙ sym (append-nil s.started);
  alive = alive;
  kept = λ live owed. ground (arith, kept live owed);
}

module _ (limit : ℕ) where
  start_runs-Follows :
      (x : String) (rest : List String) (s : Service)
      → Follows x (record s { pending = rest }) (start_runs limit rest s)
  unfolding start_runs
  start_runs-Follows x [] s = unmoved x (record s { pending = [] }) _ refl (λ h. h) (λ _ h. h)
  start_runs-Follows x (r ∷ rest) s = elim (Bool-cases (ltb (length s.active) limit)) [
    | inr full ↦ rw full (unmoved x (record s { pending = r ∷ rest }) _ refl (λ h. h) (λ _ h. h))
    | inl free ↦ rw free (
        joined x (record s { pending = r ∷ rest })
          (record s { active = add_to r s.active; started = s.started ++ r ∷ []; pending = rest }) _
          (record {
            run = r ∷ [];
            started = refl;
            alive = λ h. h;
            kept = λ live owed. ground (arith, owed);
          })
          (start_runs-Follows x rest _))
  ]

  resolve_idle-Follows : (x : String) (s : Service) → Follows x s (resolve_idle s)
  unfolding resolve_idle
  resolve_idle-Follows x s = elim (Bool-cases (is_idle s)) [
    | inl idle ↦ rw idle (unmoved x s (record s { waiters = 0 }) refl (λ h. h) (λ _ h. h))
    | inr live ↦ rw live (unmoved x s s refl (λ h. h) (λ _ h. h))
  ]

  pump-Follows : (x : String) (s : Service) → Follows x s (pump limit s)
  pump-Follows x s = elim (pump-cases limit s) [
    | inl (over, e) ↦ subst (Follows x s) (sym e) (resolve_idle-Follows x s)
    | inr (live, e) ↦ subst (Follows x s) (sym e) (
        joined x s _ _ (start_runs-Follows x s.pending s)
          (resolve_idle-Follows x (start_runs limit s.pending s)))
  ]

  release_run-Follows : (x r : String) (s : Service) → Follows x s (release_run r s)
  unfolding release_run
  release_run-Follows x r s =
      unmoved x s _ refl (λ h. h)
        (λ live owed. elim (Bool-cases (x =ₛ r)) [
          | inl same ↦ ground (
            arith,
            live,
            owed,
            (eq_iff x r).0 same,
            elem-add_to x r s.pending,
            elem-drop_from x r s.dirty,
          )
          | inr other ↦
              ground
                (arith, live, owed, other, elem-add_to x r s.pending, elem-drop_from x r s.dirty)
        ])

  schedule-Follows : (x : String) (s : Service) → Follows x s (schedule s)
  unfolding schedule
  schedule-Follows x s = elim (Bool-cases (not s.scheduled && not s.stopped)) [
    | inl queued ↦ rw queued (unmoved x s (record s { scheduled = true }) refl (λ h. h) (λ _ h. h))
    | inr kept ↦ rw kept (unmoved x s s refl (λ h. h) (λ _ h. h))
  ]

  notify-Follows : (x raw : String) (s : Service) → Follows x s (notify raw s).1
  notify-Follows x raw s = elim (notify-cases raw s) [
    | inl same ↦ subst (Follows x s) (sym same) (unmoved x s s refl (λ h. h) (λ _ h. h))
    | inr (inl (live, named, projected, e)) ↦ subst (Follows x s) (sym e) (
        joined x s (record s { dirty = add_to (trim raw) s.dirty }) _
          (unmoved x s _ refl (λ h. h)
            (λ _ owed. ground (arith, owed, elem-add_to x (trim raw) s.dirty)))
          (schedule-Follows x _))
    | inr (inr (live, named, waiting, e)) ↦ subst (Follows x s) (sym e) (
        joined x s (record s { pending = add_to (trim raw) s.pending }) _
          (unmoved x s _ refl (λ h. h)
            (λ _ owed. ground (arith, owed, elem-add_to x (trim raw) s.pending)))
          (schedule-Follows x _))
  ]

  after-Follows : (x : String) (a : Action) (s : Service) → Follows x s (after limit a s)
  unfolding fire settle fail_run clear_run await_idle stop
  after-Follows x (notified raw) s = notify-Follows x raw s
  after-Follows x fired s =
      joined x s (record s { scheduled = false }) _ (unmoved x s _ refl (λ h. h) (λ _ h. h))
        (pump-Follows x (record s { scheduled = false }))
  after-Follows x (settled r) s = joined x s (release_run r s) _ (release_run-Follows x r s) (
      joined x (release_run r s) (pump limit (release_run r s)) _ (pump-Follows x (release_run r s))
        (resolve_idle-Follows x (pump limit (release_run r s))))
  after-Follows x (failed r) s = unmoved x s _ refl (λ h. h) (λ _ h. h)
  after-Follows x (cleared r) s = unmoved x s _ refl (λ h. h) (λ _ h. h)
  after-Follows x awaited s = elim (Bool-cases (is_idle s)) [
    | inl idle ↦ rw idle (unmoved x s s refl (λ h. h) (λ _ h. h))
    | inr live ↦
        rw live (unmoved x s (record s { waiters = s.waiters + 1 }) refl (λ h. h) (λ _ h. h))
  ]
  after-Follows x ended s =
      joined x s (record s { stopped = true; pending = []; dirty = [] }) _
        (unmoved x s _ refl (λ over. absurd (cc over)) (λ over. absurd (cc over)))
        (resolve_idle-Follows x (record s { stopped = true; pending = []; dirty = [] }))

  reached-Follows : (x : String) (s u : Service) → Reach limit s u → Follows x s u
  reached-Follows x s u here = unmoved x s s refl (λ h. h) (λ _ h. h)
  reached-Follows x s u (step {t} r a on e) =
      joined x s t u (reached-Follows x s t r) (subst (Follows x t) (sym e) (after-Follows x a t))

  reached-IsSound : (s u : Service) → IsSound limit s → Reach limit s u → IsSound limit u
  reached-IsSound s u sound here = sound
  reached-IsSound s u sound (step {t} r a on e) =
      subst (IsSound limit) (sym e) (after-IsSound limit a t (reached-IsSound s t sound r))

  idle-settled :
      (x : String) (u : Service) → IsSound limit u → is_idle u ≡ true → is_owed x u ≡ false
  idle-settled x u sound idle = elim (Bool-cases (elem x u.dirty)) [
    | inl dirty ↦ absurd (ground (arith, emptied u.active, sound.tidy.dirty_active x dirty, idle))
    | inr clean ↦ ground (arith, clean, emptied u.pending, idle)
  ]
    where
      emptied : (xs : List String) → is_empty xs ≡ true → elem x xs ≡ false
      emptied [] h = refl
      emptied (y ∷ xs) h = absurd (cc h)

  notify-owed :
      (raw : String) (s : Service)
      → s.stopped ≡ false
      → is_truthy (trim raw) ≡ true
      → ((notify raw s).1.started ≡ s.started) × (is_owed (trim raw) (notify raw s).1 ≡ true)
  unfolding notify schedule
  notify-owed raw s live named = ground (
    arith,
    eq_refl (trim raw),
    elem-add_to (trim raw) (trim raw) s.pending,
    elem-add_to (trim raw) (trim raw) s.dirty,
  )

  -- A service is reached from its creation, and `notify` is called with a run id while it is not
  -- stopped. Whenever it is idle afterwards, and has not been stopped, it has called `project` with
  -- that id after the call of `notify`, also where the run was projected at the call.
  pub notify-IsProjected :
      (raw : String) (s u : Service)
      → Reach limit idle_service s
      → s.stopped ≡ false
      → is_truthy (trim raw) ≡ true
      → Reach limit (notify raw s).1 u
      → u.stopped ≡ false
      → is_idle u ≡ true
      → IsProjected (trim raw) s u
  notify-IsProjected raw s u before live named later running idle =
      let first = Reach-IsSound limit s before in
      let next = after-IsSound limit (notified raw) s first in
      let path = reached-Follows (trim raw) (notify raw s).1 u later in
      let (started, owed) = notify-owed raw s live named in
      let settled_all =
        idle-settled (trim raw) u (reached-IsSound (notify raw s).1 u next later) idle in
      (
        path.run,
        path.started ∙ ap (λ l. l ++ path.run) started,
        ground (arith, path.kept running owed, settled_all),
      )
