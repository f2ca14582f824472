-- ===== src/Brokers/Rabbit.antt =====
-- src/django_event_bus/brokers/rabbitmq.py. The client library with the server is a parameter:
-- each call is answered by a function of all the calls made up to it. Connections and channels are
-- known by the numbers that the client gives them. Log lines are left out.
pub mod Options
pub mod Operations
pub mod Consuming
pub mod Topology
pub mod Settling
use django_event_bus.Prelude.{ℕ, String, ◌<>◌, List, [], ◌∷◌, Bool, true, false, Option, none, some}
use django_event_bus.Prelude.Dict.{Dict}
use django_event_bus.Exceptions.{Error, Result, ok, err, connection_lost}
use django_event_bus.Exceptions.Exec.{Exec}
use django_event_bus.Platform.{Bytes, Key, Json}
use Options.{Config}

-- An entry of the `x-death` header.
pub record Death : Type 0 where
  pub queue : Option String
  pub reason : Option String
  pub count : Option ℕ

-- A message as a channel hands it over. A missing header is an empty list.
pub record Delivery : Type 0 where
  pub delivery_tag : ℕ
  pub deaths : List Death
  pub body : Bytes

-- The arguments that the program declares a queue with.
pub record QueueArguments : Type 0 where
  pub message_ttl : Option ℕ
  pub dead_letter : Option (String × String)

pub data Call : Type 0 where
  connect : Call
  close_connection : (connection : ℕ) → Call
  open_channel : (connection : ℕ) → Call
  exchange_declare : (channel : ℕ) → (exchange exchange_type : String) → (durable : Bool) → Call
  queue_declare : (channel : ℕ) → (queue : String) → (durable : Bool) → QueueArguments → Call
  queue_bind : (channel : ℕ) → (queue exchange routing_key : String) → Call
  basic_publish : (channel : ℕ) → (exchange : String) → (routing_key : Json) → (body : Bytes) → Call
  sleep : ℕ → Call
  basic_qos : (channel prefetch_count : ℕ) → Call
  consume_queue : (channel : ℕ) → (queue : String) → Call
  next_message : (channel : ℕ) → Call
  basic_ack : (channel delivery_tag : ℕ) → Call
  basic_nack : (channel delivery_tag : ℕ) → (requeue : Bool) → Call
  close_channel : (channel : ℕ) → Call

-- `on_next_message` answers none when nothing came within the poll interval.
pub record Client : Type 0 where
  pub on_connect : List Call → Result ℕ
  pub on_open_channel : List Call → Result ℕ
  pub on_next_message : List Call → Result (Option Delivery)
  pub on_other : List Call → Result (Unit {0})

-- A message that is not settled yet: its event type, the channel that delivered it, and itself.
pub record Unsettled : Type 0 where
  pub event_type : String
  pub channel : ℕ
  pub delivery : Delivery

-- `_connection`, `_channel`, `_consumers` (event type and dedicated channel), `_pending`, and the
-- calls made, the latest first.
pub record State : Type 0 where
  pub connection : ℕ
  pub channel : ℕ
  pub consumers : List (String × ℕ)
  pub pending : Dict Key Unsettled
  pub calls : List Call

abbrev pub perform {ℓ} : {A : Type ℓ} → Call → (List Call → Result A) → Exec State A
perform c answer s = (answer (c ∷ s.calls), record s { calls = c ∷ s.calls })

-- `except _TRANSIENT_AMQP_ERRORS`.
abbrev pub is_transient : Error → Bool
is_transient connection_lost = true
is_transient _ = false

abbrev pub retry_exchange : Config → String
retry_exchange c = c.prefix <> ".retry"

abbrev pub dlq_exchange : Config → String
dlq_exchange c = c.prefix <> ".dlq"

unfoldable pub queue_name : Config → String → String
queue_name c event_type = c.prefix <> "." <> c.service_name <> "." <> event_type

unfoldable pub retry_queue_name : Config → String → String
retry_queue_name c event_type = queue_name c event_type <> ".retry"

unfoldable pub dlq_name : Config → String → String
dlq_name c event_type = queue_name c event_type <> ".dlq"
