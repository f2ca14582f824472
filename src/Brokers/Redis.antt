-- ===== src/Brokers/Redis.antt =====
-- src/django_event_bus/brokers/redis_streams.py. The client library with the server is a
-- parameter: each call is answered by a function of all the calls made up to it. Log lines are
-- left out. The library gives the names of streams as bytes that the code decodes; they are texts
-- here.
pub mod Options
pub mod Operations
pub mod Consuming
pub mod Sending
pub mod Groups
pub mod Outages
pub mod Delivering
use text.Mathlib.Text.{find?}
use django_event_bus.Prelude.{ℕ, String, ◌<>◌, List, [], ◌∷◌, Bool, true, false, Option, none, some}
use django_event_bus.Prelude.Dict.{Dict}
use django_event_bus.Exceptions.{Error, Result, ok, err, response_error, connection_lost}
use django_event_bus.Exceptions.Exec.{Exec}
use django_event_bus.Platform.{Bytes, Key}
use Options.{Config}

-- A message of a stream: its id and its fields.
pub record Entry : Type 0 where
  pub msg_id : Bytes
  pub fields : Dict Bytes Bytes

-- What the broker asks of Redis. `move` is the transaction of an `XADD` to a dead-letter stream
-- and an `XACK` on the stream of the message.
pub data Call : Type 0 where
  xadd : (stream : String) → (value : Bytes) → (maxlen : Option ℕ) → Call
  sleep : ℕ → Call
  xgroup_create : (stream group start_id : String) → Call
  xautoclaim : (stream group consumer : String) → (min_idle_time : ℕ) → Call
  xreadgroup : (group consumer : String) → (streams : List String) → (block : ℕ) → Call
  xack : (stream group : String) → (msg_id : Bytes) → Call
  xpending_range : (stream group : String) → (msg_id : Bytes) → Call
  move :
      (dlq : String)
      → (value : Bytes) → (maxlen : Option ℕ) → (stream group : String) → (msg_id : Bytes) → Call
  close_client : Call

-- `xpending_range` is answered with the `times_delivered` of each entry found, and `xreadgroup`
-- with the streams that have new messages.
pub record Client : Type 0 where
  pub on_xadd : List Call → Result (Unit {0})
  pub on_sleep : List Call → Result (Unit {0})
  pub on_xgroup_create : List Call → Result (Unit {0})
  pub on_xautoclaim : List Call → Result (List Entry)
  pub on_xreadgroup : List Call → Result (List (String × List Entry))
  pub on_xack : List Call → Result (Unit {0})
  pub on_xpending_range : List Call → Result (List ℕ)
  pub on_move : List Call → Result (Unit {0})
  pub on_close_client : List Call → Result (Unit {0})

-- `_pending`, and the calls made, the latest first.
pub record State : Type 0 where
  pub pending : Dict Key (String × Bytes)
  pub calls : List Call

abbrev pub perform {ℓ} : {A : Type ℓ} → Call → (List Call → Result A) → Exec State A
perform c answer s = (answer (c ∷ s.calls), record s { calls = c ∷ s.calls })

abbrev pub data_field : Bytes
data_field = b'd' ∷ b'a' ∷ b't' ∷ b'a' ∷ []

-- `part in text`.
unfoldable pub includes : String → String → Bool
includes text part = elim (find? text part) [ none ↦ false | some n ↦ true ]

-- `except _TRANSIENT_REDIS_ERRORS`.
abbrev pub is_transient : Error → Bool
is_transient connection_lost = true
is_transient _ = false

unfoldable pub stream_name : Config → String → String
stream_name c event_type = c.prefix <> ":" <> event_type

unfoldable pub dlq_name : Config → String → String
dlq_name c event_type = stream_name c event_type <> ":dlq"
