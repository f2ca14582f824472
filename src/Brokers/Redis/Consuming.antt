-- ===== src/Brokers/Redis/Consuming.antt =====
-- `_consume` and `listen` of `RedisStreamsBroker`.
use django_event_bus.Prelude.{
  ℕ, zero, suc, String, string_eq, List, [], ◌∷◌, ◌++◌, map, Option, none, some, if◌then◌else◌,
}
use django_event_bus.Prelude.Lists.{contains}
use django_event_bus.Exceptions.{Error, Result, ok, err, response_error}
use django_event_bus.Exceptions.Exec.{Exec, pure, raise, for_each, reify, ◌>>=◌, ◌>>◌}
use django_event_bus.Platform.{Platform, Key, format_key}
use django_event_bus.Envelope.{EventEnvelope}
use django_event_bus.Brokers.{BaseBroker, Flow, go_on, leave, for_flow}
use django_event_bus.Brokers.Redis.{
  Entry, Client, State, xautoclaim, xreadgroup, perform, is_transient, stream_name,
}
use django_event_bus.Brokers.Redis.Options.{Config}
use django_event_bus.Brokers.Redis.Operations.{
  publish, ensure_group, recover_missing_group, to_envelope, ack, fail, close,
}

-- The keys of `dict.fromkeys(xs)` after those of `seen`.
unfoldable pub from_keys : List String → List String → List String
from_keys seen [] = seen
from_keys seen (x ∷ xs) = from_keys (if contains seen x then seen else seen ++ x ∷ []) xs

-- The two `except` clauses of a reading call: `recover` is told the message of a `ResponseError`.
abbrev pub on_error : (String → Exec State (Unit {0})) → Error → Exec State Flow
on_error recover (response_error message) = recover message >> pure go_on
on_error recover x = if is_transient x then pure go_on else raise x

module _ (p : Platform) (client : Client) (c : Config)
    (body : EventEnvelope → Exec State Flow) where
  abbrev pub hand_over : Option EventEnvelope → Exec State Flow
  hand_over none = pure go_on
  hand_over (some e) = body e

  -- `for msg_id, fields in entries: ...`.
  unfoldable pub deliver_entry : String → Entry → Exec State Flow
  deliver_entry stream entry = to_envelope p client c stream entry >>= hand_over

  -- What the turn for one stream does with the outcome of `xautoclaim`.
  abbrev pub on_claimed : String → Result (List Entry) → Exec State Flow
  on_claimed stream (ok entries) = for_flow (deliver_entry stream) entries
  on_claimed stream (err x) = on_error (recover_missing_group p client c stream) x

  unfoldable pub claim_stream : String → Exec State Flow
  claim_stream stream =
      reify (
        perform (xautoclaim stream c.service_name c.consumer_name c.retry_idle_ms)
          client.on_xautoclaim)
      >>= on_claimed stream

  abbrev pub deliver_batch : String × List Entry → Exec State Flow
  deliver_batch (stream, entries) = for_flow (deliver_entry stream) entries

  abbrev pub on_read : List String → Result (List (String × List Entry)) → Exec State Flow
  on_read streams (ok batches) = for_flow deliver_batch batches
  on_read streams (err x) =
      on_error
        (λ message. for_each (λ stream. recover_missing_group p client c stream message) streams) x

  unfoldable pub read_new : List String → Exec State Flow
  read_new streams =
      reify (
        perform (xreadgroup c.service_name c.consumer_name (from_keys [] streams) c.block_ms)
          client.on_xreadgroup)
      >>= on_read streams

  -- One turn of the endless loop of `_consume`.
  unfoldable pub consume_turn : List String → Exec State Flow
  consume_turn streams = do
    flow ← for_flow claim_stream streams
    elim flow [ go_on ↦ read_new streams | leave ↦ pure leave ]

  unfoldable pub consume : ℕ → List String → Exec State Flow
  consume zero streams = pure go_on
  consume (suc rounds) streams = do
    flow ← consume_turn streams
    elim flow [ go_on ↦ consume rounds streams | leave ↦ pure leave ]

module _ (p : Platform) (client : Client) (c : Config) where
  unfoldable pub listen : ℕ → List Key → (EventEnvelope → Exec State Flow) → Exec State Flow
  listen rounds event_types body =
      let streams = map (λ t. stream_name c (format_key p t)) event_types in
      for_each (ensure_group p client c "0") streams >> consume p client c body rounds streams

  unfoldable pub broker : BaseBroker State
  broker = record {
    publish = publish p client c;
    listen = listen;
    ack = ack p client c;
    fail = fail p client c;
    close = close p client c;
  }
