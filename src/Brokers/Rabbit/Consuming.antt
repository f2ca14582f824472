-- ===== src/Brokers/Rabbit/Consuming.antt =====
-- `listen` and `_consume` of `RabbitMQBroker`. Every registered event type is a text.
use django_event_bus.Prelude.{
  ℕ, zero, suc, String, List, [], ◌∷◌, map, Option, none, some, if◌then◌else◌,
}
use django_event_bus.Exceptions.{Result, ok, err}
use django_event_bus.Exceptions.Exec.{Exec, pure, raise, gets, modify, for_each, reify, ◌>>=◌, ◌>>◌}
use django_event_bus.Platform.{Platform, Key, format_key}
use django_event_bus.Envelope.{EventEnvelope}
use django_event_bus.Brokers.{BaseBroker, Flow, go_on, leave}
use django_event_bus.Brokers.Rabbit.{
  Delivery, Client, State, open_channel, basic_qos, consume_queue, next_message, perform,
  is_transient, queue_name,
}
use django_event_bus.Brokers.Rabbit.Options.{Config}
use django_event_bus.Brokers.Rabbit.Operations.{
  call, reconnect, declare_topology, publish, to_envelope, ack, fail, close,
}

module _ (p : Platform) (client : Client) (c : Config) where
  -- `_make_consumer`.
  unfoldable pub make_consumer : String → Exec State ℕ
  make_consumer queue = do
    connection ← gets (λ s. s.connection)
    channel ← perform (open_channel connection) client.on_open_channel
    _ ← call p client c (basic_qos channel c.prefetch_count)
    _ ← call p client c (consume_queue channel queue)
    pure channel

  unfoldable pub make_consumers : List String → Exec State (List (String × ℕ))
  make_consumers [] = pure []
  make_consumers (t ∷ ts) = do
    channel ← make_consumer (queue_name c t)
    rest ← make_consumers ts
    pure ((t, channel) ∷ rest)

  -- The queues and the consumers of the types, as `listen` and a reconnection make them.
  unfoldable pub subscribe : List String → Exec State (Unit {0})
  subscribe types =
      for_each (declare_topology p client c) types
      >> (make_consumers types >>= λ consumers. modify (λ s. record s { consumers = consumers }))

  -- What a lost connection does to the loop.
  unfoldable pub resume : Exec State (Unit {0})
  resume =
      reconnect p client c
      >> (gets (λ s. map (λ (consumer : String × ℕ). consumer.0) s.consumers) >>= subscribe)

  module _ (body : EventEnvelope → Exec State Flow) where
    abbrev pub hand_over : Exec State Flow → Option EventEnvelope → Exec State Flow
    hand_over rest none = rest
    hand_over rest (some e) = do flow ← body e; elim flow [ go_on ↦ rest | leave ↦ pure leave ]

    -- What the turn for one queue does with the outcome of `next(consumer)`; `rest` is the loop
    -- over the queues behind it, which a reconnection leaves out.
    abbrev pub on_next : String × ℕ → Exec State Flow → Result (Option Delivery) → Exec State Flow
    on_next consumer rest (ok none) = rest
    on_next (t, channel) rest (ok (some d)) = to_envelope p client c t channel d >>= hand_over rest
    on_next consumer rest (err x) = if is_transient x then (resume >> pure go_on) else raise x

    unfoldable pub visit : List (String × ℕ) → Exec State Flow
    visit [] = pure go_on
    visit (consumer ∷ consumers) =
        let rest = visit consumers in
        reify (perform (next_message consumer.1) client.on_next_message) >>= on_next consumer rest

    unfoldable pub consume : ℕ → Exec State Flow
    consume zero = pure go_on
    consume (suc rounds) = do
      consumers ← gets (λ (s : State). s.consumers)
      flow ← visit consumers
      elim flow [ go_on ↦ consume rounds | leave ↦ pure leave ]

  unfoldable pub listen : ℕ → List Key → (EventEnvelope → Exec State Flow) → Exec State Flow
  listen rounds event_types body = subscribe (map (format_key p) event_types) >> consume body rounds

  unfoldable pub broker : BaseBroker State
  broker = record {
    publish = publish p client c;
    listen = listen;
    ack = ack p client c;
    fail = fail p client c;
    close = close p client c;
  }
