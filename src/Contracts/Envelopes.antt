-- ===== src/Contracts/Envelopes.antt =====
-- .agents/runtime/event-driven-contracts.mjs: which envelopes are accepted.
use agentic_harness.Base.{
  ℕ, String, ◌≡◌, ◌↔◌, true, false, some, none, elem, is_some, is_blank, arith, ◌=ₛ◌, Bool-cases,
  Option-cases, inl, inr,
}
use agentic_harness.Contracts.{Envelope, assert_envelope, routing_key, message_kinds}

-- The kinds of message are those that have a routing key.
routing_key_iff : (kind : String) → is_some (routing_key kind) ≡ elem kind message_kinds
unfolding routing_key
routing_key_iff kind = ground arith

-- A message that can be routed, with the identities that its kind asks for: a task, unless it is a
-- reconcile or a wake, and for a wake the continuation, the delivery and the effect.
pub record IsAddressed (e : Envelope) : Type 0 where
  pub version : (e.schema_version =ₛ "agent-runtime-envelope/v1") ≡ true
  pub routed : is_some (routing_key e.kind) ≡ true
  pub message : is_blank e.message_id ≡ false
  pub run : is_blank e.run_id ≡ false
  pub generation : (n : ℕ) × (e.dispatch_generation ≡ some n)
  pub task :
      (e.kind =ₛ "agent.run.reconcile.v1") ≡ false
      → (e.kind =ₛ "agent.continuation.wake.v1") ≡ false
      → is_blank e.task_id ≡ false
  pub wake :
      (e.kind =ₛ "agent.continuation.wake.v1") ≡ true
      → (is_blank e.continuation_id ≡ false)
        × (is_blank e.delivery_id ≡ false)
        × (is_blank e.effect_key ≡ false)

accepted-IsAddressed : (e : Envelope) → assert_envelope e ≡ none → IsAddressed e
unfolding assert_envelope
accepted-IsAddressed e accepted = record {
  version = ground arith;
  routed = ground (arith, routing_key_iff e.kind);
  message = ground arith;
  run = ground arith;
  generation = elim (Option-cases e.dispatch_generation) [
    | inl missing ↦ absurd (ground (arith, missing))
    | inr there ↦ there
  ];
  task = λ reconcile wake. ground arith;
  wake = λ wake. (ground arith, ground arith, ground arith);
}

addressed-accepted : (e : Envelope) → IsAddressed e → assert_envelope e ≡ none
unfolding assert_envelope
addressed-accepted e a =
    let (n, generation) = a.generation in
    elim (Bool-cases (e.kind =ₛ "agent.continuation.wake.v1")) [
      | inl wake ↦
          let (continuation, delivery, effect) = a.wake wake in
          ground (arith, a.version, a.routed, routing_key_iff e.kind, a.message, a.run, generation)
      | inr other ↦ elim (Bool-cases (e.kind =ₛ "agent.run.reconcile.v1")) [
        | inl reconcile ↦
            ground
              (arith, a.version, a.routed, routing_key_iff e.kind, a.message, a.run, generation)
        | inr task ↦ ground (
          arith,
          a.version,
          a.routed,
          routing_key_iff e.kind,
          a.message,
          a.run,
          generation,
          a.task task other,
        )
      ]
    ]

-- An envelope is accepted exactly when it has the version, a kind with a routing key, the identity of
-- its message and its run and a dispatch generation, names a task, unless its kind is a reconcile or
-- a wake, and, for a wake, names its continuation, its delivery and its effect.
pub assert_envelope_iff : (e : Envelope) → (assert_envelope e ≡ none) ↔ IsAddressed e
assert_envelope_iff e = (accepted-IsAddressed e, addressed-accepted e)
