-- ===== src/Brokers/Kafka/Operations.antt =====
-- The methods of `KafkaBroker`.
use django_event_bus.Prelude.{
  ℕ, zero, suc, ◌+◌, ◌*◌, String, List, [], ◌++◌, map, Bool, true, false, Option, none, some,
  if◌then◌else◌,
}
use django_event_bus.Prelude.Dict.{put}
use django_event_bus.Exceptions.{
  Error, Result, ok, err, broker_error, assertion_error, buffer_error, is_exception,
}
use django_event_bus.Exceptions.Exec.{Exec, pure, raise, lift, modify, for_each, ◌>>=◌, ◌>>◌}
use django_event_bus.Platform.{Platform, Bytes, format, ℤ, pos, Key, key_eq, format_key}
use django_event_bus.Envelope.{EventEnvelope, dumps, loads, hash_key}
use django_event_bus.Brokers.{BaseBroker, Flow, go_on, leave}
use django_event_bus.Brokers.Pending.{pop}
use django_event_bus.Brokers.Retry.{retry}
use django_event_bus.Brokers.Kafka.{
  Message, Headers, Client, State, produce, poll_producer, flush, create_topics, open_consumer,
  subscribe, poll, commit, close_consumer, Delivery, unreported, delivered, refused, Polled,
  nothing_yet, error_event, received, Creation, created, already_exists, creation_failed, perform,
  topic_name, dlq_name, retry_headers, retry_count, int_suc, int_ltb,
}
use django_event_bus.Brokers.Kafka.Options.{Config}

-- `except BufferError`.
abbrev pub is_buffer_error : Error → Bool
is_buffer_error buffer_error = true
is_buffer_error _ = false

abbrev pub require_consumer : Exec State (Unit {0})
require_consumer s = if s.consumer then (ok tt, s) else (err assertion_error, s)

module _ (p : Platform) (client : Client) (c : Config) where
  abbrev pub attempts : ℕ
  attempts = c.publish_retries + 1

  module _ (topic : String) (value : Bytes) (headers : Headers) where
    abbrev pub produce_once : Exec State (Unit {0})
    produce_once = perform (produce topic value headers) client.on_produce

    -- `self._producer.poll(self.publish_retry_delay * attempt)`.
    abbrev pub wait_for_room : ℕ → Exec State (Unit {0})
    wait_for_room attempt =
        perform (poll_producer (c.publish_retry_delay * attempt)) client.on_poll_producer

    -- The loop of `_produce`.
    unfoldable pub try_produce : Exec State (Unit {0})
    try_produce = retry attempts is_buffer_error produce_once wait_for_room attempts 1

  -- What `_produce` does with the report that `on_delivery` left.
  abbrev pub check_delivery : Delivery → Exec State (Unit {0})
  check_delivery refused = raise broker_error
  check_delivery unreported = pure tt
  check_delivery delivered = pure tt

  -- `_produce`.
  unfoldable pub produce_envelope : String → EventEnvelope → ℤ → Exec State (Unit {0})
  produce_envelope topic e n =
      try_produce topic (dumps p e) (retry_headers n)
      >> (perform flush client.on_flush >>= check_delivery)

  unfoldable pub publish : EventEnvelope → Exec State (Unit {0})
  publish e = produce_envelope (topic_name c (format p e.event_type)) e (pos 0)

  abbrev pub check_creation : Creation → Exec State (Unit {0})
  check_creation created = pure tt
  check_creation already_exists = pure tt
  check_creation (creation_failed x) = raise x

  unfoldable pub ensure_topics : List String → Exec State (Unit {0})
  ensure_topics topics = do
    futures ← perform (create_topics topics) client.on_create_topics
    for_each check_creation futures

  abbrev pub commit_message : Message → Exec State (Unit {0})
  commit_message m = perform (commit m) client.on_commit

  -- `msg.value() or b""`.
  abbrev pub value_of : Message → Bytes
  value_of m = elim m.value [ none ↦ [] | some b ↦ b ]

  -- What `_to_envelope` does with the outcome of `loads`.
  abbrev pub keep_or_skip : Message → Result EventEnvelope → Exec State (Option EventEnvelope)
  keep_or_skip m (ok e) = do
    k ← lift (hash_key e.event_id)
    modify (λ s. record s { pending = put k m s.pending })
    pure (some e)
  keep_or_skip m (err x) =
      if is_exception x then (require_consumer >> (commit_message m >> pure none)) else raise x

  unfoldable pub to_envelope : Message → Exec State (Option EventEnvelope)
  to_envelope m = keep_or_skip m (loads p (value_of m))

  -- `self._pending.pop(envelope.event_id, None)`.
  unfoldable pub pop_pending : EventEnvelope → Exec State (Option Message)
  pop_pending e = (λ s. (pop e.event_id s.pending, s)) >>= λ popped s.
      (ok popped.0, record s { pending = popped.1 })

  unfoldable pub ack : EventEnvelope → Exec State (Unit {0})
  ack e = do
    entry ← pop_pending e
    elim entry [ none ↦ pure tt | some m ↦ require_consumer >> commit_message m ]

  -- `fail` on a message that is known, once its attempt is counted.
  unfoldable pub settle_failure : EventEnvelope → Message → ℤ → Exec State Bool
  settle_failure e m attempt =
      let event_type = format p e.event_type in
      if int_ltb attempt c.max_retries
      then (produce_envelope (topic_name c event_type) e attempt
          >> (commit_message m >> pure false))
      else (produce_envelope (dlq_name c event_type) e attempt >> (commit_message m >> pure true))

  unfoldable pub fail_message : EventEnvelope → Message → Exec State Bool
  fail_message e m =
      require_consumer >> (do count ← lift (retry_count p m); settle_failure e m (int_suc count))

  unfoldable pub fail : EventEnvelope → Exec State Bool
  fail e = do entry ← pop_pending e; elim entry [ none ↦ pure true | some m ↦ fail_message e m ]

  module _ (body : EventEnvelope → Exec State Flow) where
    abbrev pub hand_over : Option EventEnvelope → Exec State Flow
    hand_over none = pure go_on
    hand_over (some e) = body e

    abbrev pub on_polled : Polled → Exec State Flow
    on_polled nothing_yet = pure go_on
    on_polled (error_event code) = pure go_on
    on_polled (received m) = to_envelope m >>= hand_over

    -- One turn of the endless loop of `_consume`.
    unfoldable pub consume_turn : Exec State Flow
    consume_turn = perform poll client.on_poll >>= on_polled

    unfoldable pub consume : ℕ → Exec State Flow
    consume zero = pure go_on
    consume (suc rounds) = do
      flow ← consume_turn
      elim flow [ go_on ↦ consume rounds | leave ↦ pure leave ]

  unfoldable pub listen : ℕ → List Key → (EventEnvelope → Exec State Flow) → Exec State Flow
  listen rounds event_types body =
      let topics = map (λ t. topic_name c (format_key p t)) event_types in
      let dlq_topics = map (λ t. dlq_name c (format_key p t)) event_types in
      ensure_topics (topics ++ dlq_topics)
      >> (perform open_consumer client.on_open_consumer
          >> (modify (λ s. record s { consumer = true })
              >> (perform (subscribe topics) client.on_subscribe
                  >> (require_consumer >> consume body rounds))))

  unfoldable pub close : Exec State (Unit {0})
  close = perform flush client.on_flush >>= λ _ s.
      if s.consumer then perform close_consumer client.on_close_consumer s else (ok tt, s)

  unfoldable pub broker : BaseBroker State
  broker = record { publish = publish; listen = listen; ack = ack; fail = fail; close = close }
