-- ===== src/Store/Idempotence.antt =====
-- Effects that happen once: an event with an effect key, and the wake of a session.
use agentic_harness.Base.{
  String, ◌≡◌, refl, sym, ap, ◌∙◌, Bool, true, false, Option, none, some, arith, Json, find,
  is_truthy, ◌=ₛ◌, eq_refl, values, lookup, lookup-put, find-values-put, find-append_none,
  Bool-cases, Option-cases, inl, inr,
}
use agentic_harness.Host.{Host}
use agentic_harness.Rows.{Event, Run, Continuation, Delivery}
use agentic_harness.Continuation.{effect_event_id}
use agentic_harness.Store.Monad.{Store, Result, ok}
use agentic_harness.Store.Events.{keyed, event, keyed_row, keyed_event, event_once}
use agentic_harness.Store.Wakes.{
  Wake, woken, wake_key, new_delivery, record_wake, wake_at, wake_of, dispatch_wake, due_event,
  materialize_wake,
}

module _ (host : Host) (key : String) where
  abbrev has_id : Event → Bool
  has_id e = e.event_id =ₛ effect_event_id host key

  keyed_event_found :
      (run_id : String) (task_id : Option String) (kind : String) (payload : Json) (s : Store)
      → (e : Event) × (find has_id (keyed_event host run_id task_id kind payload key s).1.events
          ≡ some e)
  unfolding keyed_event
  keyed_event_found run_id task_id kind payload s = elim (Option-cases (find has_id s.events)) [
    | inr (e, there) ↦ (e, rw (there, keyed_event) there)
    | inl absent ↦ (
      keyed_row host run_id task_id kind payload key s,
      rw (absent, keyed_event)
          (rw (find-append_none has_id s.events _ absent)
            (unfold find in rw (eq_refl (effect_event_id host key)))),
    )
  ]

  keyed_event_again :
      (run_id : String) (task_id : Option String) (kind : String) (payload : Json) (s : Store)
      (e : Event)
      → find has_id s.events ≡ some e
      → keyed_event host run_id task_id kind payload key s
        ≡ (keyed false (effect_event_id host key), s)
  unfolding keyed_event
  keyed_event_again run_id task_id kind payload s e there = rw (there, keyed_event)

-- A second call with the same effect key, whatever its other arguments, inserts nothing, says so,
-- and leaves the store as the first call left it.
pub event_once_again :
    (host : Host) (run_id run_id' : String) (task_id task_id' : Option String) (kind kind' : String)
    (payload payload' : Json) (key : String) (s : Store)
    → is_truthy key ≡ true
    → let s' = (event_once host run_id task_id kind payload (some key) s).1 in
      event_once host run_id' task_id' kind' payload' (some key) s'
      ≡ (keyed false (effect_event_id host key), s')
unfolding event_once
event_once_again host run_id run_id' task_id task_id' kind kind' payload payload' key s set =
    let (e, there) = keyed_event_found host key run_id task_id kind payload s in
    rw (set) (keyed_event_again host key run_id' task_id' kind' payload' _ e there)

wake_injective : (a b : Wake) → ◌≡◌ {A = Result (Option Wake)} (ok (some a)) (ok (some b)) → a ≡ b
wake_injective a b h = cc

module _ (host : Host) (run_id : String) where
  abbrev has_key : String → Delivery → Bool
  has_key key d = d.effect_key =ₛ key

  -- The store after a wake has its delivery, and the continuation that is there names the same
  -- session and events.
  record SameWake (c : Continuation) (completed_at kind : String) (w : Wake) (s t : Store)
      : Type 0 where
    found :
        find (has_key (wake_key host c run_id completed_at kind)) (values t.deliveries)
        ≡ some w.delivery
    runs : t.runs ≡ s.runs
    after : Continuation
    there : lookup run_id t.continuations ≡ some after
    same_id : after.continuation_id ≡ c.continuation_id
    same_events : after.wake_events ≡ c.wake_events
    live : (after.status =ₛ "cancelled") ≡ (c.status =ₛ "cancelled")

  record_wake-SameWake :
      (c : Continuation) (completed_at kind m at : String) (s : Store)
      → lookup run_id s.continuations ≡ some c
      → (c.status =ₛ "cancelled") ≡ false
      → let key = wake_key host c run_id completed_at kind in
        let d = new_delivery host c run_id completed_at kind key m at in
        find (has_key key) (values s.deliveries) ≡ none
        → SameWake c completed_at kind
            (record { delivery = d; created = true })
            s
            (record_wake host c run_id d at s)
  unfolding record_wake woken event new_delivery
  record_wake-SameWake c completed_at kind m at s there live new = record {
    found = find-values-put _ _ _ s.deliveries new (eq_refl _);
    runs = refl;
    after =
        woken c
          (new_delivery host c run_id completed_at kind (wake_key host c run_id completed_at kind) m
            at)
          at;
    there = rw (lookup-put, eq_refl run_id);
    same_id = refl;
    same_events = refl;
    live = sym live;
  }

  wake_at-SameWake :
      (c : Continuation) (completed_at kind at : String) (s t : Store) (w : Wake)
      → lookup run_id s.continuations ≡ some c
      → (c.status =ₛ "cancelled") ≡ false
      → wake_at host c run_id completed_at kind at s ≡ (ok (some w), t)
      → SameWake c completed_at kind w s t
  unfolding wake_at
  wake_at-SameWake c completed_at kind at s t w there live h =
      let key = wake_key host c run_id completed_at kind in
      elim (Option-cases (find (has_key key) (values s.deliveries))) [
        | inr (d, old) ↦
            let e = rw (old, wake_at) at h in
            rw (← ap (λ p. p.1) e, ← wake_injective _ w (ap (λ p. p.0) e))
              (record {
                found = old;
                runs = refl;
                after = c;
                there = there;
                same_id = refl;
                same_events = refl;
                live = refl;
              })
        | inl new ↦ elim (Option-cases (host.message_id c.session_adapter_id key at)) [
          | inl unknown ↦ absurd (cc (rw (new, unknown, wake_at) at h))
          | inr (m, known) ↦
              let e = rw (new, known, wake_at) at h in
              rw (← ap (λ p. p.1) e, ← wake_injective _ w (ap (λ p. p.0) e))
                (record_wake-SameWake c completed_at kind m at s there live new)
        ]
      ]

  due_event-live :
      (c : Continuation) (run : Run) (status : Option String) (kind : String)
      → due_event (some c) (some run) status ≡ some kind
      → (c.status =ₛ "cancelled") ≡ false
  unfolding due_event
  due_event-live c run status kind h = ground arith

  due_event_same :
      (c after : Continuation) (run : Run) (status : Option String)
      → after.wake_events ≡ c.wake_events
      → (after.status =ₛ "cancelled") ≡ (c.status =ₛ "cancelled")
      → due_event (some after) (some run) status ≡ due_event (some c) (some run) status
  unfolding due_event
  due_event_same c after run status events live = ground arith

  wake_at_again :
      (c after : Continuation) (completed_at kind at : String) (t : Store) (d : Delivery)
      → after.continuation_id ≡ c.continuation_id
      → find (has_key (wake_key host c run_id completed_at kind)) (values t.deliveries) ≡ some d
      → wake_at host after run_id completed_at kind at t
        ≡ (ok (some (record { delivery = d; created = false })), t)
  unfolding wake_at wake_key
  wake_at_again c after completed_at kind at t d same found = rw (same, found, wake_at)

  materialize_wake_due :
      (c : Continuation) (run : Run) (kind at : String) (status : Option String)
      (completed : String) (t : Store)
      → lookup run_id t.continuations ≡ some c
      → lookup run_id t.runs ≡ some run
      → due_event (some c) (some run) status ≡ some kind
      → run.completed_at ≡ some completed
      → is_truthy completed ≡ true
      → materialize_wake host run_id status at t ≡ wake_at host c run_id completed kind at t
  unfolding materialize_wake dispatch_wake wake_of
  materialize_wake_due c run kind at status completed t hc hr due hcompleted set =
      rw (hc, hr) (rw due (rw hcompleted (rw set)))

  wake_of_again :
      (c : Continuation) (run : Run) (kind at at' : String) (status : Option String)
      (completed : Option String) (s t : Store) (w : Wake)
      → lookup run_id s.continuations ≡ some c
      → lookup run_id s.runs ≡ some run
      → due_event (some c) (some run) status ≡ some kind
      → run.completed_at ≡ completed
      → wake_of host c run_id completed kind at s ≡ (ok (some w), t)
      → materialize_wake host run_id status at' t ≡ (ok (some (record w { created = false })), t)
  unfolding wake_of
  wake_of_again c run kind at at' status none s t w hc hr due hcompleted h = cc
  wake_of_again c run kind at at' status (some completed) s t w hc hr due hcompleted h =
      elim (Bool-cases (is_truthy completed)) [
        | inr empty ↦ absurd (cc (rw empty at h))
        | inl set ↦
            let x =
              wake_at-SameWake c completed kind at s t w hc (due_event-live c run status kind due)
                (rw set at h) in
            materialize_wake_due x.after run kind at' status completed t x.there
              (ap (lookup run_id) x.runs ∙ hr)
              (due_event_same c x.after run status x.same_events x.live ∙ due) hcompleted set
            ∙ wake_at_again c x.after completed kind at' t w.delivery x.same_id x.found
      ]

  dispatch_again :
      (c : Option Continuation) (run : Option Run) (kind : Option String) (status : Option String)
      (at at' : String) (s t : Store) (w : Wake)
      → lookup run_id s.continuations ≡ c
      → lookup run_id s.runs ≡ run
      → due_event c run status ≡ kind
      → dispatch_wake host c run kind run_id at s ≡ (ok (some w), t)
      → materialize_wake host run_id status at' t ≡ (ok (some (record w { created = false })), t)
  unfolding dispatch_wake
  dispatch_again (some c) (some run) (some kind) status at at' s t w hc hr due h =
      wake_of_again c run kind at at' status run.completed_at s t w hc hr due refl h
  dispatch_again _ _ _ status at at' s t w hc hr due h = cc

-- Once a wake of a run has been materialized, new or found, materializing it again at any time
-- returns the same delivery, says that it is not new, and leaves the store as it is.
pub materialize_wake_again :
    (host : Host) (run_id : String) (status : Option String) (at at' : String) (s t : Store)
    (w : Wake)
    → materialize_wake host run_id status at s ≡ (ok (some w), t)
    → materialize_wake host run_id status at' t ≡ (ok (some (record w { created = false })), t)
materialize_wake_again host run_id status at at' s t w h =
    dispatch_again host run_id (lookup run_id s.continuations) (lookup run_id s.runs)
      (due_event (lookup run_id s.continuations) (lookup run_id s.runs) status) status at at' s t w
      refl refl refl (unfold materialize_wake in h)
