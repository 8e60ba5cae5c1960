-- ===== src/Host.antt =====
-- What the program takes from outside: the hash of node:crypto, identifiers, the clock, the text of
-- a number and of a JSON string, and the message identifiers of the session adapters.
use agentic_harness.Base.{ℕ, String, Option}

pub record Host : Type 0 where
  -- `createHash("sha256").update(text).digest("hex")`
  pub sha256 : String → String
  -- `newId("event")` and `nowIso()` for the event with this number
  pub event_id : ℕ → String
  pub event_time : ℕ → String
  -- `String(number)` and `JSON.stringify(text)`
  pub show : ℕ → String
  pub quote : String → String
  -- `sessionAdapters.buildMessageId(adapter, { effectKey, createdAt })`; `none` where it throws
  pub message_id : String → String → String → Option String
