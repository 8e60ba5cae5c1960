-- ===== src/Store/Cancelling.antt =====
-- A cancelled continuation: its open deliveries are dead, and it wakes no more. And a continuation
-- that has woken its session cannot be bound again.
use agentic_harness.Base.{
  ◌<◌, elem, eq_iff, ◌⊎◌, ◌∙◌, if◌then◌else◌, String, ◌≡◌, refl, ap, true, false, Option, none,
  some, [], ◌∷◌, arith, Dict, length, keep, values, lookup, lookup-put, eq_refl, ◌=ₛ◌, Bool-cases,
  Option-cases, inl, inr,
}
use agentic_harness.Host.{Host}
use agentic_harness.Rows.{Run, Continuation, Delivery}
use agentic_harness.Continuation.{normalize_wake_events}
use agentic_harness.Store.Monad.{
  Store, StoreError, ok, threw, wake_event_invalid, prompt_identity_required, rebind_not_allowed,
}
use agentic_harness.Store.Events.{event}
use agentic_harness.Store.Wakes.{
  present, is_cancellable, kill, kill_all, cancelled, cancelled_row, cancel_continuation, due_event,
  dispatch_wake, materialize_wake,
}
use agentic_harness.Store.Registration.{
  Registration, rebind_refused, identity_missing, register_continuation,
}

module _ (id at error : String) where
  kill_closes : (d : Delivery) → is_cancellable id (kill at error d) ≡ false
  unfolding is_cancellable kill
  kill_closes d = ground arith

  none_open :
      (ds : Dict Delivery) → keep (is_cancellable id) (values (kill_all id at error ds).0) ≡ []
  unfolding keep values kill_all
  none_open [] = refl
  none_open ((k, d) ∷ ds) = elim (Bool-cases (is_cancellable id d)) [
    | inl was ↦ rw was (rw (kill_closes d) (none_open ds))
    | inr not_open ↦ rw not_open (rw not_open (none_open ds))
  ]

  killed_count :
      (ds : Dict Delivery)
      → (kill_all id at error ds).1 ≡ length (keep (is_cancellable id) (values ds))
  unfolding keep values kill_all
  killed_count [] = refl
  killed_count ((k, d) ∷ ds) = elim (Bool-cases (is_cancellable id d)) [
    | inl was ↦ rw was (omega (arith, killed_count ds))
    | inr not_open ↦ rw not_open (killed_count ds)
  ]

module _ (host : Host) (run_id : String) (status : Option String) (at : String) where
  due_event-none :
      (c : Continuation) (run : Option Run)
      → c.status ≡ "cancelled"
      → due_event (some c) run status ≡ none
  unfolding due_event
  due_event-none c none h = refl
  due_event-none c (some run) h = rw h

  dispatch-none :
      (c : Option Continuation) (run : Option Run) (s : Store)
      → dispatch_wake host c run none run_id at s ≡ (ok none, s)
  unfolding dispatch_wake
  dispatch-none (some c) (some run) s = refl
  dispatch-none _ _ s = refl

  no_wake :
      (s : Store) (c : Continuation)
      → lookup run_id s.continuations ≡ some c
      → c.status ≡ "cancelled"
      → materialize_wake host run_id status at s ≡ (ok none, s)
  unfolding materialize_wake
  no_wake s c there over = rw there (
      rw (due_event-none c (lookup run_id s.runs) over)
        (dispatch-none (some c) (lookup run_id s.runs) s))

-- A delivery of the continuation that is not over and that the session has not taken.
abbrev pub IsOpen : String → Delivery → Type 0
IsOpen id d =
    (d.continuation_id ≡ id)
    × (elem d.status ("pending" ∷ "claimed" ∷ "deferred" ∷ []) ≡ true)
    × (present d.accepted_at ≡ false)
    × (present d.observed_at ≡ false)

-- What becomes of a delivery: an open one is dead, and any other stays as it is.
abbrev pub IsClosedIn : String → Dict Delivery → String → Delivery → Type 0
IsClosedIn id after key d =
    (IsOpen id d
      × ((e : Delivery) × (lookup key after ≡ some e)
          × (e.status ≡ "dead")
          × (e.delivery_id ≡ d.delivery_id)
          × (e.continuation_id ≡ id)))
    ⊎ ((IsOpen id d → ⊥) × (lookup key after ≡ some d))

module _ (id at error : String) where
  cancellable-IsOpen : (d : Delivery) → is_cancellable id d ≡ true → IsOpen id d
  unfolding is_cancellable
  cancellable-IsOpen d h =
      (ground (arith, eq_iff d.continuation_id id), ground arith, ground arith, ground arith)

  kept-IsOpen : (d : Delivery) → is_cancellable id d ≡ false → IsOpen id d → ⊥
  unfolding is_cancellable
  kept-IsOpen d h (same, listed, untaken, unseen) =
      ground (arith, (eq_iff d.continuation_id id).1 same, h, listed, untaken, unseen)

  kill_all-lookup :
      (key : String) (ds : Dict Delivery) (d : Delivery)
      → lookup key ds ≡ some d
      → lookup key (kill_all id at error ds).0
        ≡ some (if is_cancellable id d then kill at error d else d)
  unfolding lookup kill_all
  kill_all-lookup key [] d h = absurd (cc h)
  kill_all-lookup key ((k, e) ∷ ds) d h = elim (Bool-cases (is_cancellable id e)) [
    | inl was ↦ rw was (ground (arith, kill_all-lookup key ds d, was, h))
    | inr spared ↦ rw spared (ground (arith, kill_all-lookup key ds d, spared, h))
  ]

  kill_all-absent :
      (key : String) (ds : Dict Delivery)
      → lookup key ds ≡ none
      → lookup key (kill_all id at error ds).0 ≡ none
  unfolding lookup kill_all
  kill_all-absent key [] h = refl
  kill_all-absent key ((k, e) ∷ ds) h = ground (arith, kill_all-absent key ds)

  kill_all-IsClosedIn :
      (key : String) (ds : Dict Delivery) (d : Delivery)
      → lookup key ds ≡ some d
      → IsClosedIn id (kill_all id at error ds).0 key d
  unfolding kill
  kill_all-IsClosedIn key ds d h = elim (Bool-cases (is_cancellable id d)) [
    | inl was ↦
        let opened = cancellable-IsOpen d was in
        inl (
          opened,
          (kill at error d, kill_all-lookup key ds d h ∙ rw was refl, refl, refl, opened.0),
        )
    | inr spared ↦ inr (kept-IsOpen d spared, kill_all-lookup key ds d h ∙ rw spared refl)
  ]

-- Cancelling a bound continuation reports how many of its deliveries were open, that is, pending,
-- claimed or deferred and neither accepted nor observed by the session. These are dead afterwards;
-- every other delivery is as before, and none is added. In the store after the call no wake of the
-- run can be materialized.
pub cancel_continuation_ends :
    (host : Host) (run_id reason at : String) (s : Store) (c : Continuation)
    → lookup run_id s.continuations ≡ some c
    → (c.status =ₛ "cancelled") ≡ false
    → let (result, t) = cancel_continuation host run_id reason at s in
      (result
        ≡ cancelled c.continuation_id
            (length (keep (is_cancellable c.continuation_id) (values s.deliveries))))
      × (keep (is_cancellable c.continuation_id) (values t.deliveries) ≡ [])
      × ((key : String) (d : Delivery)
          → lookup key s.deliveries ≡ some d
          → IsClosedIn c.continuation_id t.deliveries key d)
      × ((key : String) → lookup key s.deliveries ≡ none → lookup key t.deliveries ≡ none)
      × ((status : Option String) (at' : String)
          → materialize_wake host run_id status at' t ≡ (ok none, t))
unfolding cancel_continuation cancelled_row event
cancel_continuation_ends host run_id reason at s c there live =
    rw (there, live, cancel_continuation)
      (
        ap (cancelled c.continuation_id) (killed_count c.continuation_id at _ s.deliveries),
        none_open c.continuation_id at _ s.deliveries,
        λ key d found. kill_all-IsClosedIn c.continuation_id at _ key s.deliveries d found,
        λ key absent. kill_all-absent c.continuation_id at _ key s.deliveries absent,
        λ status at'.
            no_wake host run_id status at' _ (cancelled_row c at) (rw (lookup-put, eq_refl run_id))
              refl,
      )

-- A continuation that has woken its session (its generation is not 0) cannot be bound again: a
-- registration is refused, whatever it names, and changes nothing.
pub register_continuation_refused :
    (host : Host) (run_id : String) (r : Registration) (at : String) (s : Store) (c : Continuation)
    → lookup run_id s.continuations ≡ some c
    → 0 < c.generation
    → (e : StoreError) × (register_continuation host run_id r at s ≡ (threw e, s))
unfolding register_continuation rebind_refused
register_continuation_refused host run_id r at s c there woken =
    elim (Option-cases (normalize_wake_events r.wake_on)) [
      | inl invalid ↦ (wake_event_invalid, rw (invalid, register_continuation))
      | inr (events, valid) ↦ elim (Bool-cases (identity_missing r)) [
        | inl missing ↦ (prompt_identity_required, rw (valid, missing, register_continuation))
        | inr named ↦
            let taken : rebind_refused (some c) r events ≡ true = ground arith in
            (
              rebind_not_allowed run_id,
              rw (valid, named, register_continuation) (rw there (rw taken)),
            )
      ]
    ]
