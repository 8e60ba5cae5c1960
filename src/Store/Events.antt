-- ===== src/Store/Events.antt =====
-- `event`, `eventOnce`, `listEvents`, `latestEvent` and the receipts of progress notifications: the
-- append-only event log.
use agentic_harness.Base.{
  ℕ, or_else, opt_str, bool, num, any, ◌+◌, String, Bool, true, false, Option, none, some, List, [],
  ◌∷◌, ◌++◌, Json, Fields, str, obj, end, field, ◌=ₛ◌, keep, find, is_truthy, if◌then◌else◌,
}
use agentic_harness.Host.{Host}
use agentic_harness.Rows.{Event}
use agentic_harness.Continuation.{effect_event_id, receipt_event_id}
use agentic_harness.Store.Monad.{Store}

-- What `eventOnce` returns: the row of a plain event, or for an effect key whether a row was
-- inserted and its identifier.
pub data Insertion : Type 0 where
  plain : Insertion
  keyed : Bool → String → Insertion

-- `{ ...payload, effectKey }`
abbrev with_field : String → Json → Fields → Fields
with_field k v end = field k v end
with_field k v (field j w rest) = if j =ₛ k then field j v rest else field j w (with_field k v rest)

abbrev with_effect_key : Json → String → Json
with_effect_key (obj fields) key = obj (with_field "effectKey" (str key) fields)
with_effect_key _ key = obj (field "effectKey" (str key) end)

module _ (host : Host) where
  unfoldable pub event : String → Option String → String → Json → Store → Store
  event run_id task_id event_type payload s =
      let n = s.event_sequence + 1 in
      record s {
        event_sequence = n;
        events =
            s.events
            ++ record {
              event_id = host.event_id n;
              event_sequence = n;
              run_id = run_id;
              task_id = task_id;
              event_type = event_type;
              payload = payload;
              created_at = host.event_time n;
            }
              ∷ [];
      }

  unfoldable pub keyed_row : String → Option String → String → Json → String → Store → Event
  keyed_row run_id task_id event_type payload key s = record {
    event_id = effect_event_id host key;
    event_sequence = s.event_sequence + 1;
    run_id = run_id;
    task_id = task_id;
    event_type = event_type;
    payload = with_effect_key payload key;
    created_at = host.event_time (s.event_sequence + 1);
  }

  -- The branch of `eventOnce` for an effect key that is not empty.
  unfoldable pub keyed_event :
      String → Option String → String → Json → String → Store → Insertion × Store
  unfolding keyed_row
  keyed_event run_id task_id event_type payload key s =
      let id = effect_event_id host key in
      elim (find (λ e. e.event_id =ₛ id) s.events) [
        | some _ ↦ (keyed false id, s)
        | none ↦ (
          keyed true id,
          record s {
            event_sequence = s.event_sequence + 1;
            events = s.events ++ keyed_row run_id task_id event_type payload key s ∷ [];
          },
        )
      ]

  unfoldable pub event_once :
      String → Option String → String → Json → Option String → Store → Insertion × Store
  unfolding event keyed_event
  event_once run_id task_id event_type payload none s =
      (plain, event run_id task_id event_type payload s)
  event_once run_id task_id event_type payload (some key) s =
      if is_truthy key
      then keyed_event run_id task_id event_type payload key s
      else (plain, event run_id task_id event_type payload s)

-- The metadata of `recordProgressNotificationReceipt`; a text is `none` where it is null or missing.
pub record ReceiptMetadata : Type 0 where
  pub reporter_mode : Option String
  pub reporter_model : Option String
  pub persistent_session_message : Bool
  pub toast_delivered : Bool
  pub message_id : Option String
  pub coalesced_to_source_event_id : Option String
  pub coalesced_event_count : Option ℕ
  pub checkpoint_fingerprint : Option String
  pub equivalent_checkpoint : Bool

abbrev receipt_payload : Event → ReceiptMetadata → Json
receipt_payload source m = obj (
    field "sourceEventId" (str source.event_id) (
      field "sourceEventType" (str source.event_type) (
        field "reporterMode" (str (or_else m.reporter_mode "deterministic")) (
          field "reporterModel" (opt_str m.reporter_model) (
            field "persistentSessionMessage" (bool m.persistent_session_message) (
              field "toastDelivered" (bool m.toast_delivered) (
                field "messageId" (opt_str m.message_id) (
                  field "coalescedToSourceEventId" (opt_str m.coalesced_to_source_event_id) (
                    field "coalescedEventCount" (num (or_else m.coalesced_event_count 1)) (
                      field "checkpointFingerprint" (opt_str m.checkpoint_fingerprint)
                        (field "equivalentCheckpoint" (bool m.equivalent_checkpoint) end)))))))))))

module _ (host : Host) where
  -- `hasProgressNotificationReceipt`
  unfoldable pub has_receipt : String → Store → Bool
  unfolding receipt_event_id
  has_receipt source_event_id s =
      any (λ e. e.event_id =ₛ receipt_event_id host source_event_id) s.events

  unfoldable pub receipt_row : Event → ReceiptMetadata → Store → Event
  unfolding receipt_event_id
  receipt_row source m s = record {
    event_id = receipt_event_id host source.event_id;
    event_sequence = s.event_sequence + 1;
    run_id = source.run_id;
    task_id = source.task_id;
    event_type = "progress.notification.sent";
    payload = receipt_payload source m;
    created_at = host.event_time (s.event_sequence + 1);
  }

  -- `recordProgressNotificationReceipt`
  unfoldable pub record_receipt : Event → ReceiptMetadata → Store → Bool × Store
  unfolding has_receipt receipt_row
  record_receipt source m s = if has_receipt source.event_id s then (false, s) else (
    true,
    record s {
      event_sequence = s.event_sequence + 1;
      events = s.events ++ receipt_row source m s ∷ [];
    },
  )

unfoldable pub list_events : String → Store → List Event
list_events run_id s = keep (λ e. e.run_id =ₛ run_id) s.events

abbrev last_of : List Event → Option Event
last_of [] = none
last_of (e ∷ []) = some e
last_of (e ∷ f ∷ rest) = last_of (f ∷ rest)

-- `rows.at(-1) ?? null`
unfoldable pub latest_event : String → Store → Option Event
unfolding list_events
latest_event run_id s = last_of (list_events run_id s)
