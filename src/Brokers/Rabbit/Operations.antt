-- ===== src/Brokers/Rabbit/Operations.antt =====
-- The methods of `RabbitMQBroker` that do not loop over messages.
use django_event_bus.Prelude.{
  ℕ, ◌+◌, ◌*◌, String, string_eq, List, [], ◌∷◌, Bool, true, false, ◌&&◌, Option, none, some, ◌==◌,
  if◌then◌else◌, ltb,
}
use django_event_bus.Prelude.Dict.{put}
use django_event_bus.Exceptions.{Result, ok, err, is_exception}
use django_event_bus.Exceptions.Exec.{
  Exec, pure, raise, lift, gets, modify, for_each, try_except, try_finally, ◌>>=◌, ◌>>◌,
}
use django_event_bus.Platform.{Platform, Bytes, Json, str, key_eq}
use django_event_bus.Envelope.{EventEnvelope, dumps, loads, hash_key}
use django_event_bus.Brokers.Pending.{pop}
use django_event_bus.Brokers.Retry.{retry}
use django_event_bus.Brokers.Rabbit.{
  Death, Delivery, QueueArguments, Client, Unsettled, State, Call, connect, close_connection,
  open_channel, exchange_declare, queue_declare, queue_bind, basic_publish, sleep, basic_ack,
  basic_nack, close_channel, perform, is_transient, retry_exchange, dlq_exchange, queue_name,
  retry_queue_name, dlq_name,
}
use django_event_bus.Brokers.Rabbit.Options.{Config}

-- `option == text`, where None equals no text.
abbrev is_text : Option String → String → Bool
is_text none t = false
is_text (some s) t = s == t

abbrev count_or_zero : Option ℕ → ℕ
count_or_zero none = 0
count_or_zero (some n) = n

-- `_death_count`.
unfoldable pub death_count : List Death → String → ℕ
death_count [] queue = 0
death_count (death ∷ deaths) queue =
    let rest = death_count deaths queue in
    if is_text death.queue queue && is_text death.reason "rejected"
    then count_or_zero death.count
    else rest

-- `with contextlib.suppress(Exception)`.
abbrev pub suppress : Exec State (Unit {0}) → Exec State (Unit {0})
suppress m = try_except m (λ x. if is_exception x then pure tt else raise x)

module _ (p : Platform) (client : Client) (c : Config) where
  abbrev pub call : Call → Exec State (Unit {0})
  call what = perform what client.on_other

  unfoldable pub declare_exchanges : Exec State (Unit {0})
  declare_exchanges s =
      for_each (λ exchange. call (exchange_declare s.channel exchange "direct" true))
        (c.prefix ∷ retry_exchange c ∷ dlq_exchange c ∷ []) s

  -- Opens a connection with its channel, as `__init__` and `_reconnect` do.
  unfoldable pub open_connection : Exec State (Unit {0})
  open_connection = do
    connection ← perform connect client.on_connect
    modify (λ s. record s { connection = connection })
    channel ← perform (open_channel connection) client.on_open_channel
    modify (λ s. record s { channel = channel })
    declare_exchanges

  unfoldable pub reconnect : Exec State (Unit {0})
  reconnect =
      (gets (λ s. s.connection) >>= λ old. suppress (call (close_connection old)))
      >> open_connection

  abbrev pub no_arguments : QueueArguments
  no_arguments = record { message_ttl = none; dead_letter = none }

  abbrev pub main_arguments : String → QueueArguments
  main_arguments event_type = record {
    message_ttl = none;
    dead_letter = some (retry_exchange c, event_type);
  }

  abbrev pub retry_arguments : String → QueueArguments
  retry_arguments event_type = record {
    message_ttl = some c.retry_delay_ms;
    dead_letter = some (c.prefix, event_type);
  }

  -- `_declare_topology`, but for the name that it returns.
  unfoldable pub declare_topology : String → Exec State (Unit {0})
  declare_topology t s =
      let ch = s.channel in
      (call (queue_declare ch (queue_name c t) true (main_arguments t))
          >> (call (queue_bind ch (queue_name c t) c.prefix t)
              >> (call (queue_declare ch (retry_queue_name c t) true (retry_arguments t))
                  >> (call (queue_bind ch (retry_queue_name c t) (retry_exchange c) t)
                      >> (call (queue_declare ch (dlq_name c t) true no_arguments)
                          >> call (queue_bind ch (dlq_name c t) (dlq_exchange c) t))))))
        s

  -- On the channel that is current at the time.
  abbrev pub publish_once : String → Json → Bytes → Exec State (Unit {0})
  publish_once exchange routing_key body s =
      call (basic_publish s.channel exchange routing_key body) s

  abbrev pub recover : ℕ → Exec State (Unit {0})
  recover attempt = call (sleep (c.publish_retry_delay * attempt)) >> reconnect

  -- `_publish_to`.
  unfoldable pub publish_to : String → Json → EventEnvelope → Exec State (Unit {0})
  publish_to exchange routing_key e =
      let attempts = c.publish_retries + 1 in
      retry attempts is_transient (publish_once exchange routing_key (dumps p e)) recover attempts 1

  unfoldable pub publish : EventEnvelope → Exec State (Unit {0})
  publish e = publish_to c.prefix e.event_type e

  abbrev pub acknowledge : ℕ → ℕ → Exec State (Unit {0})
  acknowledge channel tag = call (basic_ack channel tag)

  -- What `_to_envelope` does with the outcome of `loads`.
  abbrev pub keep_or_skip :
      String → ℕ → Delivery → Result EventEnvelope → Exec State (Option EventEnvelope)
  keep_or_skip event_type channel d (ok e) = do
    k ← lift (hash_key e.event_id)
    let entry : Unsettled = record { event_type = event_type; channel = channel; delivery = d }
    modify (λ s. record s { pending = put k entry s.pending })
    pure (some e)
  keep_or_skip event_type channel d (err x) =
      if is_exception x then (acknowledge channel d.delivery_tag >> pure none) else raise x

  unfoldable pub to_envelope : String → ℕ → Delivery → Exec State (Option EventEnvelope)
  to_envelope event_type channel d = keep_or_skip event_type channel d (loads p d.body)

  unfoldable pub pop_pending : EventEnvelope → Exec State (Option Unsettled)
  pop_pending e = (λ s. (pop e.event_id s.pending, s)) >>= λ popped s.
      (ok popped.0, record s { pending = popped.1 })

  unfoldable pub ack : EventEnvelope → Exec State (Unit {0})
  ack e = do
    entry ← pop_pending e
    elim entry [ none ↦ pure tt | some u ↦ acknowledge u.channel u.delivery.delivery_tag ]

  -- `fail` on a message that is known.
  unfoldable pub settle_failure : EventEnvelope → Unsettled → Exec State Bool
  settle_failure e u =
      let attempt = death_count u.delivery.deaths (queue_name c u.event_type) + 1 in
      let tag = u.delivery.delivery_tag in
      if ltb attempt c.max_retries
      then (call (basic_nack u.channel tag false) >> pure false)
      else (publish_to (dlq_exchange c) (str u.event_type) e
          >> (acknowledge u.channel tag >> pure true))

  unfoldable pub fail : EventEnvelope → Exec State Bool
  fail e = do entry ← pop_pending e; elim entry [ none ↦ pure true | some u ↦ settle_failure e u ]

  unfoldable pub close : Exec State (Unit {0})
  close s =
      try_finally
        (for_each (λ consumer. suppress (call (close_channel consumer.1))) s.consumers
          >> call (close_channel s.channel))
        (call (close_connection s.connection)) s
