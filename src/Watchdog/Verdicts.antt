-- ===== src/Watchdog/Verdicts.antt =====
-- scripts/qualification/lib/continuation-watchdog.mjs: when the watchdog ends, and how its verdicts
-- change with the time.
use agentic_harness.Base.{
  ℕ, ◌+◌, ◌<◌, ◌≤◌, String, ◌≡◌, ◌≢◌, refl, sym, ap, subst, ◌∙◌, ◌↔◌, true, false, Option, none,
  some, arith, is_truthy, or_else, elem, trim, [], ◌∷◌, Bool-cases, inl, inr,
}
use agentic_harness.Watchdog.{
  Texts, Delivery, Outbox, Inbox, Observed, Limits, Verdict, pending, has_shape, epoch, has_failed,
  by_times, observe_delivery, observe_found, evaluate_observation, evaluate_outage_deferral,
  outage_of, outage_found, deferred_by, is_published, is_deferred, normal,
  predispatch_outage_errors,
}

some_same {ℓ} : {A : Type ℓ} (a b : A) → some a ≡ some b → a ≡ b
some_same a b e = cc

module _ (texts : Texts) where
  -- The verdict of a delivery ends only where the delivery has the shape, has not failed, and was
  -- observed no sooner than it was accepted.
  abbrev pub IsSettled : Observed → Delivery → Type 0
  IsSettled o d =
      (o.delivery ≡ some d)
      × (has_shape d o.continuation_status ≡ true)
      × (has_failed texts d o.continuation_status ≡ false)
      × ((accepted : ℕ) × (observed : ℕ) × (epoch texts d.accepted_at ≡ some accepted)
          × (epoch texts d.observed_at ≡ some observed)
          × (accepted ≤ observed))

  abbrev timed : Delivery → Limits → ℕ → Verdict
  timed d l now =
      by_times texts d l now (epoch texts d.observed_at) (epoch texts d.accepted_at)
        (epoch texts d.dispatch_started_at) (epoch texts d.created_at)

  abbrev Settles : String → Delivery → Delivery → Type 0
  Settles status e d =
      (some e ≡ some d)
      × (has_shape d status ≡ true)
      × (has_failed texts d status ≡ false)
      × ((accepted : ℕ) × (observed : ℕ) × (epoch texts d.accepted_at ≡ some accepted)
          × (epoch texts d.observed_at ≡ some observed)
          × (accepted ≤ observed))

  undecided :
      (status : String) (l : Limits) (now : ℕ) (d : Delivery)
      → (observe_found texts none status l now).terminal ≡ some d
      → ⊥
  undecided status l now d h = ground arith

  times_iff :
      (d e : Delivery) (l : Limits) (now : ℕ) (o a p c : Option ℕ)
      → ((by_times texts d l now o a p c).terminal ≡ some e) ↔ (
          (d ≡ e)
          × ((accepted : ℕ) × (observed : ℕ) × (a ≡ some accepted)
              × (o ≡ some observed)
              × (accepted ≤ observed)))
  times_iff d e l now (some o) (some a) p c = (
    λ h. (ground arith, (a, o, refl, refl, ground arith)),
    λ (same, (x, y, ex, ey, le)). ground arith,
  )
  times_iff d e l now (some o) none p c = (λ h. absurd (cc h), λ h. absurd (cc h.1.2))
  times_iff d e l now none (some a) p c = (λ h. ground arith, λ h. absurd (cc h.1.3))
  times_iff d e l now none none p (some c) = (λ h. ground arith, λ h. absurd (cc h.1.3))
  times_iff d e l now none none p none = (λ h. absurd (cc h), λ h. absurd (cc h.1.3))

  delivery_iff :
      (d e : Delivery) (status : String) (l : Limits) (now : ℕ)
      → ((observe_delivery texts d status l now).terminal ≡ some e) ↔ (
          (has_shape d status ≡ true)
          × (has_failed texts d status ≡ false)
          × ((timed d l now).terminal ≡ some e))
  unfolding observe_delivery
  delivery_iff d e status l now = elim (Bool-cases (has_shape d status)) [
    | inl shaped ↦ elim (Bool-cases (has_failed texts d status)) [
      | inl failed ↦ rw (shaped, failed) (λ h. absurd (cc h), λ h. absurd (cc h.1))
      | inr going ↦ rw (shaped, going) (λ h. (refl, refl, h), λ h. h.2)
    ]
    | inr odd ↦ rw odd (λ h. absurd (cc h), λ h. absurd (cc h.0))
  ]

  found_iff :
      (found : Option Delivery) (status : String) (l : Limits) (now : ℕ) (d : Delivery)
      → ((observe_found texts found status l now).terminal ≡ some d) ↔ (
          (found ≡ some d)
          × (has_shape d status ≡ true)
          × (has_failed texts d status ≡ false)
          × ((accepted : ℕ) × (observed : ℕ) × (epoch texts d.accepted_at ≡ some accepted)
              × (epoch texts d.observed_at ≡ some observed)
              × (accepted ≤ observed)))
  found_iff none status l now d = (λ h. absurd (undecided status l now d h), λ h. absurd (cc h.0))
  found_iff (some e) status l now d =
      let outer = delivery_iff e d status l now in
      let inner =
        times_iff e d l now (epoch texts e.observed_at) (epoch texts e.accepted_at)
          (epoch texts e.dispatch_started_at) (epoch texts e.created_at) in
      (
        λ h.
            let (shaped, going, timed) = outer.0 h in
            let (same, times) = inner.0 timed in
            subst (Settles status e) same (refl, shaped, going, times),
        λ (same, shaped, going, times).
            let back = sym (some_same e d same) in
            let (_, s, g, t) = subst (Settles status e) back (same, shaped, going, times) in
            outer.1 (s, g, inner.1 (sym back, t)),
      )

  stable_times :
      (d : Delivery) (l : Limits) (now later : ℕ) (o a p c : Option ℕ)
      → now ≤ later
      → by_times texts d l now o a p c ≢ pending
      → by_times texts d l later o a p c ≡ by_times texts d l now o a p c
  stable_times d l now later (some o) a p c after decided = refl
  stable_times d l now later none (some a) p c after decided = ground arith
  stable_times d l now later none none p (some c) after decided = ground arith
  stable_times d l now later none none p none after decided = refl

  going_delivery :
      (d : Delivery) (status : String) (l : Limits) (now : ℕ)
      → has_shape d status ≡ true
      → has_failed texts d status ≡ false
      → observe_delivery texts d status l now ≡ timed d l now
  unfolding observe_delivery
  going_delivery d status l now shaped going = rw (shaped, going) refl

  found_stable :
      (found : Option Delivery) (status : String) (l : Limits) (now later : ℕ)
      → now ≤ later
      → observe_found texts found status l now ≢ pending
      → observe_found texts found status l later ≡ observe_found texts found status l now
  unfolding observe_delivery
  found_stable none status l now later after decided = ground arith
  found_stable (some d) status l now later after decided = elim (Bool-cases (has_shape d status)) [
    | inl shaped ↦ elim (Bool-cases (has_failed texts d status)) [
      | inl failed ↦ rw (shaped, failed) refl
      | inr going ↦
          let at_now = going_delivery d status l now shaped going in
          let at_later = going_delivery d status l later shaped going in
          at_later
          ∙ stable_times d l now later (epoch texts d.observed_at) (epoch texts d.accepted_at)
              (epoch texts d.dispatch_started_at) (epoch texts d.created_at) after
              (λ e. decided (at_now ∙ e))
          ∙ sym at_now
    ]
    | inr odd ↦ rw odd refl
  ]

  decided_times :
      (d : Delivery) (l : Limits) (now created : ℕ) (o a p : Option ℕ)
      → created + l.acceptance_stall_timeout_ms < now
      → ((accepted : ℕ)
          → a ≡ some accepted
          → or_else p accepted + l.completion_timeout_ms + l.settle_grace_ms < now)
      → by_times texts d l now o a p (some created) ≢ pending
  decided_times d l now created (some o) (some a) p late overdue = ground arith
  decided_times d l now created (some o) none p late overdue = ground arith
  decided_times d l now created none (some a) p late overdue =
      let over = overdue a refl in ground arith
  decided_times d l now created none none p late overdue = ground arith

  decided_delivery :
      (d : Delivery) (status : String) (l : Limits) (now created : ℕ)
      → epoch texts d.created_at ≡ some created
      → created + l.acceptance_stall_timeout_ms < now
      → ((accepted : ℕ)
          → epoch texts d.accepted_at ≡ some accepted
          → or_else (epoch texts d.dispatch_started_at) accepted
              + l.completion_timeout_ms
              + l.settle_grace_ms
            < now)
      → observe_delivery texts d status l now ≢ pending
  unfolding observe_delivery
  decided_delivery d status l now created known late overdue =
      let timed =
        decided_times d l now created (epoch texts d.observed_at) (epoch texts d.accepted_at)
          (epoch texts d.dispatch_started_at) late overdue in
      elim (Bool-cases (has_shape d status)) [
        | inl shaped ↦ elim (Bool-cases (has_failed texts d status)) [
          | inl failed ↦ rw (shaped, failed) (λ e. cc e)
          | inr going ↦ rw (shaped, going, known) timed
        ]
        | inr odd ↦ rw odd (λ e. cc e)
      ]

  -- The watchdog ends with a delivery exactly when it observes that delivery in its full shape, the
  -- delivery and its continuation have not failed, and it was observed no sooner than it was
  -- accepted; no limit and no time changes that.
  pub evaluate_observation_iff :
      (o : Observed) (l : Limits) (now : ℕ) (d : Delivery)
      → ((evaluate_observation texts o l now).terminal ≡ some d) ↔ IsSettled o d
  unfolding evaluate_observation
  evaluate_observation_iff o l now d = found_iff o.delivery o.continuation_status l now d

  -- A verdict that ends or that is a violation stays as it is at every later time, while the
  -- observation stays as it is.
  pub evaluate_observation_stable :
      (o : Observed) (l : Limits) (now later : ℕ)
      → now ≤ later
      → evaluate_observation texts o l now ≢ pending
      → evaluate_observation texts o l later ≡ evaluate_observation texts o l now
  unfolding evaluate_observation
  evaluate_observation_stable o l now later after decided =
      found_stable o.delivery o.continuation_status l now later after decided

  -- The watchdog decides in a bounded time: a delivery whose time of creation is known is no longer
  -- pending once the time to be accepted has passed since then and, where it was accepted, the time
  -- to complete and the grace have passed since its dispatch, or since it was accepted.
  pub evaluate_observation_decides :
      (o : Observed) (l : Limits) (now : ℕ) (d : Delivery) (created : ℕ)
      → o.delivery ≡ some d
      → epoch texts d.created_at ≡ some created
      → created + l.acceptance_stall_timeout_ms < now
      → ((accepted : ℕ)
          → epoch texts d.accepted_at ≡ some accepted
          → or_else (epoch texts d.dispatch_started_at) accepted
              + l.completion_timeout_ms
              + l.settle_grace_ms
            < now)
      → evaluate_observation texts o l now ≢ pending
  unfolding evaluate_observation
  evaluate_observation_decides o l now d created there known late overdue =
      rw there (decided_delivery d o.continuation_status l now created known late overdue)

  abbrev pub IsDeferred : Option Outbox → Option Inbox → Delivery → Type 0
  IsDeferred outbox inbox d =
      (d.attempts ≡ some 0)
      × (is_truthy d.dispatch_started_at ≡ false)
      × (is_truthy d.accepted_at ≡ false)
      × (is_truthy d.observed_at ≡ false)
      × (elem (normal texts d.status) ("accepted" ∷ "observed" ∷ "dead" ∷ "ambiguous" ∷ []) ≡ false)
      × (elem (trim d.last_error) predispatch_outage_errors ≡ true)
      × (is_published outbox ≡ true)
      × (is_deferred texts inbox (trim d.last_error) ≡ true)

  deferral_sound :
      (e : Delivery) (outbox : Option Outbox) (inbox : Option Inbox) (d : Delivery)
      → (deferred_by texts e outbox inbox (trim e.last_error)).terminal ≡ some d
      → (e ≡ d)
        × (elem (trim e.last_error) predispatch_outage_errors ≡ true)
        × (is_published outbox ≡ true)
        × (is_deferred texts inbox (trim e.last_error) ≡ true)
  deferral_sound e outbox inbox d h = ground arith

  untouched :
      (e : Delivery) (n : ℕ) (outbox : Option Outbox) (inbox : Option Inbox) (d : Delivery)
      → (outage_of texts e (some n) outbox inbox).terminal ≡ some d
      → (n ≡ 0)
        × (is_truthy e.dispatch_started_at ≡ false)
        × (is_truthy e.accepted_at ≡ false)
        × (is_truthy e.observed_at ≡ false)
        × (elem (normal texts e.status) ("accepted" ∷ "observed" ∷ "dead" ∷ "ambiguous" ∷ [])
            ≡ false)
        × ((deferred_by texts e outbox inbox (trim e.last_error)).terminal ≡ some d)
  untouched e n outbox inbox d h = ground arith

  outage_attempts :
      (e : Delivery) (attempts : Option ℕ) (outbox : Option Outbox) (inbox : Option Inbox)
      (d : Delivery)
      → e.attempts ≡ attempts
      → (outage_of texts e attempts outbox inbox).terminal ≡ some d
      → IsDeferred outbox inbox d
  outage_attempts e none outbox inbox d has h = ground arith
  outage_attempts e (some n) outbox inbox d has h =
      let (first, started, accepted, observed, status, deferred) = untouched e n outbox inbox d h in
      let (same, error, published, held) = deferral_sound e outbox inbox d deferred in
      subst (IsDeferred outbox inbox) same
        (has ∙ ap some first, started, accepted, observed, status, error, published, held)

  outage_sound :
      (found : Option Delivery) (outbox : Option Outbox) (inbox : Option Inbox) (d : Delivery)
      → (outage_found texts found outbox inbox).terminal ≡ some d
      → IsDeferred outbox inbox d
  outage_sound none outbox inbox d h = absurd (cc h)
  outage_sound (some e) outbox inbox d h = outage_attempts e e.attempts outbox inbox d refl h

  -- The outage is taken as deferred only where the delivery has made no attempt, was not dispatched,
  -- accepted or observed and is not dead or ambiguous, its last error is that of a session that could
  -- not be reached, the outbox has published its message, and the inbox has deferred it for that
  -- error.
  pub evaluate_outage_deferral_sound :
      (o : Observed) (d : Delivery)
      → (evaluate_outage_deferral texts o).terminal ≡ some d
      → IsDeferred o.outbox o.inbox d
  unfolding evaluate_outage_deferral
  evaluate_outage_deferral_sound o d h = outage_sound o.delivery o.outbox o.inbox d h
