-- ===== src/Presentation/Soundness.antt =====
-- What holds of the service along every sequence of its steps.
use agentic_harness.Base.{
  ℕ, ◌≤◌, ◌<◌, String, ◌≡◌, refl, sym, subst, ◌∙◌, true, false, not, ◌&&◌, List, [], ◌∷◌, elem,
  length, ltb, trim, arith, eq_iff, ◌=ₛ◌, Bool-cases, inl, inr,
}
use agentic_harness.Presentation.{
  Service, add_to, is_empty, is_idle, resolve_idle, schedule, notify, start_runs, pump, fire,
  release_run, settle, fail_run, clear_run, await_idle, stop,
}
use agentic_harness.Presentation.Steps.{
  pump-cases, Action, notified, settled, failed, cleared, fired, awaited, ended, after, Reach, here,
  step, idle_service, elem-add_to, elem-drop_from, length-add_to, length-drop_from, notify-cases,
  IsDistinct, add_to-IsDistinct,
}

module _ (limit : ℕ) where
  -- At most `limit` runs are projected; none of them is pending; only such a run is dirty.
  pub record IsTidy (s : Service) : Type 0 where
    pub bounded : length s.active ≤ limit
    pub distinct : IsDistinct s.pending
    pub apart : (x : String) → elem x s.active ≡ true → elem x s.pending ≡ false
    pub dirty_active : (x : String) → elem x s.dirty ≡ true → elem x s.active ≡ true

  -- Also, runs are pending only while a microtask is queued or as many as allowed are projected, and
  -- nobody waits for an idle service.
  pub record IsSound (s : Service) : Type 0 where
    pub tidy : IsTidy s
    pub busy :
        s.scheduled ≡ false
        → s.stopped ≡ false
        → is_empty s.pending ≡ false
        → limit ≤ length s.active
    pub woken : is_idle s ≡ true → s.waiters ≡ 0

  resolve_idle-IsSound :
      (s : Service)
      → IsTidy s
      → (s.scheduled ≡ false
          → s.stopped ≡ false
          → is_empty s.pending ≡ false
          → limit ≤ length s.active)
      → IsSound (resolve_idle s)
  unfolding resolve_idle
  resolve_idle-IsSound s tidy busy = elim (Bool-cases (is_idle s)) [
    | inl idle ↦ subst IsSound (sym (resolved s idle)) (record {
      tidy = record {
        bounded = tidy.bounded;
        distinct = tidy.distinct;
        apart = tidy.apart;
        dirty_active = tidy.dirty_active;
      };
      busy = busy;
      woken = λ _. refl;
    })
    | inr live ↦
        subst IsSound (sym (unresolved s live))
          (record { tidy = tidy; busy = busy; woken = λ idle. absurd (cc (live, idle)) })
  ]
    where
      resolved : (s : Service) → is_idle s ≡ true → resolve_idle s ≡ record s { waiters = 0 }
      resolved s h = rw (h, resolve_idle)

      unresolved : (s : Service) → is_idle s ≡ false → resolve_idle s ≡ s
      unresolved s h = rw (h, resolve_idle)

  abbrev IsFull : Service → Type 0
  IsFull s = is_empty s.pending ≡ false → limit ≤ length s.active

  start_runs-IsTidy :
      (rest : List String) (s : Service)
      → length s.active ≤ limit
      → IsDistinct rest
      → ((x : String) → elem x s.active ≡ true → elem x rest ≡ false)
      → ((x : String) → elem x s.dirty ≡ true → elem x s.active ≡ true)
      → IsTidy (start_runs limit rest s) × IsFull (start_runs limit rest s)
  unfolding start_runs
  start_runs-IsTidy [] s bounded distinct apart dirty = (
    record { bounded = bounded; distinct = tt; apart = λ x h. refl; dirty_active = dirty },
    λ h. absurd (cc h),
  )
  start_runs-IsTidy (r ∷ rest) s bounded distinct apart dirty =
      elim (Bool-cases (ltb (length s.active) limit)) [
        | inr full ↦ rw full (
          record { bounded = bounded; distinct = distinct; apart = apart; dirty_active = dirty },
          λ _. ground arith,
        )
        | inl free ↦ rw free (
            start_runs-IsTidy rest _ (omega (arith, length-add_to r s.active, below s free))
              distinct.1
              (λ x h. elim (Bool-cases (x =ₛ r)) [
                | inl same ↦ rw ((eq_iff x r).0 same) distinct.0
                | inr other ↦
                    ground
                      (arith, apart x (ground (arith, sym (elem-add_to x r s.active) ∙ h, other)))
              ])
              (λ x h. elem-add_to x r s.active ∙ ground (arith, dirty x h)))
      ]
    where
      below : (s : Service) → ltb (length s.active) limit ≡ true → length s.active < limit
      below s h = ground arith

  pump-IsSound : (s : Service) → IsTidy s → IsSound (pump limit s)
  pump-IsSound s tidy = elim (pump-cases limit s) [
    | inl (over, e) ↦
        subst IsSound (sym e) (resolve_idle-IsSound s tidy (λ _ live. absurd (cc (over, live))))
    | inr (live, e) ↦
        let (next, full) =
          start_runs-IsTidy s.pending s tidy.bounded tidy.distinct tidy.apart tidy.dirty_active in
        subst IsSound (sym e)
          (resolve_idle-IsSound (start_runs limit s.pending s) next (λ _ _. full))
  ]

  -- The same projections and pending runs.
  IsTidy-carried :
      (s t : Service)
      → t.active ≡ s.active
      → t.pending ≡ s.pending
      → t.dirty ≡ s.dirty
      → IsTidy s
      → IsTidy t
  IsTidy-carried s t active pending dirty h = record {
    bounded = rw active h.bounded;
    distinct = rw pending h.distinct;
    apart = λ x m. rw pending (h.apart x (rw active at m));
    dirty_active = λ x m. rw active (h.dirty_active x (rw dirty at m));
  }

  schedule-IsSound : (s : Service) → IsTidy s → s.stopped ≡ false → IsSound (schedule s)
  unfolding schedule
  schedule-IsSound s tidy live = elim (Bool-cases s.scheduled) [
    | inl before ↦ subst IsSound (sym (kept s before)) (record {
      tidy = tidy;
      busy = λ off. absurd (cc (before, off));
      woken = λ idle. absurd (ground (arith, before));
    })
    | inr off ↦ subst IsSound (sym (queued s off live)) (record {
      tidy = IsTidy-carried s _ refl refl refl tidy;
      busy = λ on. absurd (cc on);
      woken = λ idle. absurd (cc idle);
    })
  ]
    where
      kept : (s : Service) → s.scheduled ≡ true → schedule s ≡ s
      kept s h = rw (h, schedule)

      queued :
          (s : Service)
          → s.scheduled ≡ false
          → s.stopped ≡ false
          → schedule s ≡ record s { scheduled = true }
      queued s h k = rw (h, k, schedule)

  notify-IsSound : (raw : String) (s : Service) → IsSound s → IsSound (notify raw s).1
  notify-IsSound raw s sound = elim (notify-cases raw s) [
    | inl same ↦ subst IsSound (sym same) sound
    | inr (inl (live, _, projected, e)) ↦ subst IsSound (sym e) (
        schedule-IsSound (record s { dirty = add_to (trim raw) s.dirty })
          (record {
            bounded = sound.tidy.bounded;
            distinct = sound.tidy.distinct;
            apart = sound.tidy.apart;
            dirty_active = λ x h. elim (Bool-cases (x =ₛ trim raw)) [
              | inl same ↦ rw ((eq_iff x (trim raw)).0 same) projected
              | inr other ↦
                  sound.tidy.dirty_active x
                    (ground (arith, sym (elem-add_to x (trim raw) s.dirty) ∙ h, other))
            ];
          })
          live)
    | inr (inr (live, _, waiting, e)) ↦ subst IsSound (sym e) (
        schedule-IsSound (record s { pending = add_to (trim raw) s.pending })
          (record {
            bounded = sound.tidy.bounded;
            distinct = add_to-IsDistinct (trim raw) s.pending sound.tidy.distinct;
            apart = λ x h. elem-add_to x (trim raw) s.pending ∙ elim (Bool-cases (x =ₛ trim raw)) [
              | inl same ↦ absurd (cc (waiting, rw ((eq_iff x (trim raw)).0 same) at h))
              | inr other ↦ ground (arith, sound.tidy.apart x h, other)
            ];
            dirty_active = sound.tidy.dirty_active;
          })
          live)
  ]

  release_run-IsTidy : (r : String) (s : Service) → IsTidy s → IsTidy (release_run r s)
  unfolding release_run
  release_run-IsTidy r s tidy = record {
    bounded = omega (arith, length-drop_from r s.active, tidy.bounded);
    distinct = elim (Bool-cases (elem r s.dirty && not s.stopped)) [
      | inl again ↦ rw again (add_to-IsDistinct r s.pending tidy.distinct)
      | inr done ↦ rw done tidy.distinct
    ];
    apart = λ x h.
        let both = sym (elem-drop_from x r s.active) ∙ h in
        let absent = tidy.apart x (ground arith) in ground (arith, elem-add_to x r s.pending);
    dirty_active = λ x h.
        let both = sym (elem-drop_from x r s.dirty) ∙ h in
        elem-drop_from x r s.active ∙ ground (arith, tidy.dirty_active x (ground arith));
  }

  -- Every step keeps the service sound.
  pub after-IsSound : (a : Action) (s : Service) → IsSound s → IsSound (after limit a s)
  unfolding fire settle fail_run clear_run await_idle stop
  after-IsSound (notified raw) s sound = notify-IsSound raw s sound
  after-IsSound fired s sound =
      pump-IsSound (record s { scheduled = false }) (IsTidy-carried s _ refl refl refl sound.tidy)
  after-IsSound (settled r) s sound =
      let next = pump-IsSound (release_run r s) (release_run-IsTidy r s sound.tidy) in
      resolve_idle-IsSound (pump limit (release_run r s)) next.tidy next.busy
  after-IsSound (failed r) s sound = record {
    tidy = IsTidy-carried s _ refl refl refl sound.tidy;
    busy = sound.busy;
    woken = sound.woken;
  }
  after-IsSound (cleared r) s sound = record {
    tidy = IsTidy-carried s _ refl refl refl sound.tidy;
    busy = sound.busy;
    woken = sound.woken;
  }
  after-IsSound awaited s sound = elim (Bool-cases (is_idle s)) [
    | inl idle ↦ rw (idle, await_idle) sound
    | inr live ↦
        rw (live, await_idle)
          (record {
            tidy = IsTidy-carried s _ refl refl refl sound.tidy;
            busy = sound.busy;
            woken = λ idle. absurd (cc (live, idle));
          })
  ]
  after-IsSound ended s sound =
      resolve_idle-IsSound (record s { stopped = true; pending = []; dirty = [] })
        (record {
          bounded = sound.tidy.bounded;
          distinct = tt;
          apart = λ x h. refl;
          dirty_active = λ x h. absurd (cc h);
        })
        (λ off live. absurd (cc live))

  -- Along every sequence of steps of the service from its creation, at most `limit` runs are projected
  -- at a time, a run that is projected is not pending, and no run is pending twice; only a projected
  -- run is dirty. Runs are pending only while a microtask is queued or `limit` runs are projected, and
  -- no promise of `idle` is open while the service is idle.
  pub Reach-IsSound : (s : Service) → Reach limit idle_service s → IsSound s
  Reach-IsSound s here = record {
    tidy = record {
      bounded = omega arith;
      distinct = tt;
      apart = λ x h. refl;
      dirty_active = λ x h. absurd (cc h);
    };
    busy = λ off live full. absurd (cc full);
    woken = λ idle. refl;
  }
  Reach-IsSound s (step {t} r a on e) =
      subst IsSound (sym e) (after-IsSound a t (Reach-IsSound t r))
