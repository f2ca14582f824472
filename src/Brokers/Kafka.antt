-- ===== src/Brokers/Kafka.antt =====
-- src/django_event_bus/brokers/kafka.py. The client library with the cluster behind it is a
-- parameter: each call is answered by a function of all the calls made up to it, so the answer may
-- be anything at any time. Log lines are left out.
pub mod Options
pub mod Operations
pub mod Producing
pub mod Settling
pub mod Sending
pub mod Receiving
use django_event_bus.Prelude.{
  ℕ, zero, suc, ◌+◌, ◌*◌, String, string_eq, ◌<>◌, List, [], ◌∷◌, ◌++◌, map, Bool, true, false,
  Option, none, some, ◌==◌, if◌then◌else◌, ltb, nat_beq, ◌≡◌, refl,
}
use django_event_bus.Prelude.Dict.{Dict, get, put, remove}
use django_event_bus.Exceptions.{
  Error, Result, ok, err, broker_error, assertion_error, buffer_error, is_exception,
}
use django_event_bus.Exceptions.Exec.{
  Exec, pure, raise, lift, gets, modify, for_each, try_except, ◌>>=◌, ◌>>◌,
}
use django_event_bus.Platform.{
  Platform, Bytes, Json, format, ℤ, pos, negsuc, Key, key_eq, format_key, parse_int,
}
use django_event_bus.Platform.Decimal.{show}
use django_event_bus.Envelope.{EventEnvelope, dumps, loads, hash_key}
use django_event_bus.Brokers.{BaseBroker, Flow, go_on, leave}
use Options.{Config}

-- The value of a message header.
pub data HeaderValue : Type 0 where
  text_value : String → HeaderValue
  bytes_value : Bytes → HeaderValue
  no_value : HeaderValue

abbrev pub Headers : Type 0
Headers = List (String × HeaderValue)

pub record Message : Type 0 where
  pub topic : String
  pub offset : ℕ
  pub value : Option Bytes
  pub headers : Option Headers

pub data Call : Type 0 where
  produce : String → Bytes → Headers → Call
  poll_producer : ℕ → Call
  flush : Call
  create_topics : List String → Call
  open_consumer : Call
  subscribe : List String → Call
  poll : Call
  commit : Message → Call
  close_consumer : Call

-- What `flush` brought to `on_delivery`: nothing before its time was up, a delivery, or an error.
pub data Delivery : Type 0 where
  unreported delivered refused : Delivery

pub data Polled : Type 0 where
  nothing_yet : Polled
  error_event : ℕ → Polled
  received : Message → Polled

-- How the creation of one topic ended.
pub data Creation : Type 0 where
  created already_exists : Creation
  creation_failed : Error → Creation

pub record Client : Type 0 where
  pub on_produce : List Call → Result (Unit {0})
  pub on_poll_producer : List Call → Result (Unit {0})
  pub on_flush : List Call → Result Delivery
  pub on_create_topics : List Call → Result (List Creation)
  pub on_open_consumer : List Call → Result (Unit {0})
  pub on_subscribe : List Call → Result (Unit {0})
  pub on_poll : List Call → Result Polled
  pub on_commit : List Call → Result (Unit {0})
  pub on_close_consumer : List Call → Result (Unit {0})

-- `_pending`, whether `_consumer` is set, and the calls made, the latest first.
pub record State : Type 0 where
  pub pending : Dict Key Message
  pub consumer : Bool
  pub calls : List Call

abbrev pub perform {ℓ} : {A : Type ℓ} → Call → (List Call → Result A) → Exec State A
perform c answer s = (answer (c ∷ s.calls), record s { calls = c ∷ s.calls })

abbrev pub retry_header : String
retry_header = "x-retry-count"

unfoldable pub topic_name : Config → String → String
topic_name c event_type = c.prefix <> "." <> event_type

unfoldable pub dlq_name : Config → String → String
dlq_name c event_type = topic_name c event_type <> ".dlq"

-- The headers that `_produce` writes for a retry count.
unfoldable pub retry_headers : ℤ → Headers
retry_headers (pos n) = (retry_header, bytes_value (show n)) ∷ []
retry_headers (negsuc n) = (retry_header, bytes_value (b'-' ∷ show (n + 1))) ∷ []

unfoldable pub read_retry_count : Platform → Headers → Result ℤ
read_retry_count p [] = ok (pos 0)
read_retry_count p ((key, bytes_value b) ∷ rest) =
    if key == retry_header then parse_int p b else read_retry_count p rest
read_retry_count p (header ∷ rest) = read_retry_count p rest

-- `_retry_count`.
unfoldable pub retry_count : Platform → Message → Result ℤ
retry_count p m = elim m.headers [ none ↦ read_retry_count p [] | some hs ↦ read_retry_count p hs ]

-- `n + 1` and `n < max_retries` on integers.
abbrev pub int_suc : ℤ → ℤ
int_suc (pos n) = pos (n + 1)
int_suc (negsuc zero) = pos 0
int_suc (negsuc (suc n)) = negsuc n

abbrev pub int_ltb : ℤ → ℕ → Bool
int_ltb (pos n) m = ltb n m
int_ltb (negsuc n) m = true
