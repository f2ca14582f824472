-- ===== src/Brokers/Redis/Operations.antt =====
-- The methods of `RedisStreamsBroker` that do not loop over messages.
use django_event_bus.Prelude.{
  ℕ, ◌+◌, ◌*◌, String, List, [], ◌∷◌, Bool, true, false, Option, none, some, Eq, nat_eq, ◌==◌, ◌&&◌,
  if◌then◌else◌, ltb, ◌≡◌, ◌↔◌, arith,
}
use django_event_bus.Prelude.Dict.{get, put}
use django_event_bus.Exceptions.{Error, Result, ok, err, key_error, response_error, is_exception}
use django_event_bus.Exceptions.Exec.{Exec, pure, raise, lift, modify, try_except, ◌>>=◌, ◌>>◌}
use django_event_bus.Platform.{Platform, Bytes, format, key_eq}
use django_event_bus.Envelope.{EventEnvelope, dumps, loads, hash_key}
use django_event_bus.Brokers.Pending.{pop}
use django_event_bus.Brokers.Retry.{retry}
use django_event_bus.Brokers.Redis.{
  Entry, Client, State, xadd, sleep, xgroup_create, xack, xpending_range, move, close_client,
  perform, data_field, includes, is_transient, stream_name, dlq_name,
}
use django_event_bus.Brokers.Redis.Options.{Config}

-- Equality of byte strings.
abbrev bytes_beq : Bytes → Bytes → Bool
bytes_beq [] [] = true
bytes_beq (x ∷ xs) (y ∷ ys) = x == y && bytes_beq xs ys
bytes_beq _ _ = false

pub bytes_beq_iff : (a b : Bytes) → (bytes_beq a b ≡ true) ↔ (a ≡ b)
bytes_beq_iff [] [] = ground arith
bytes_beq_iff [] (y ∷ ys) = ground arith
bytes_beq_iff (x ∷ xs) [] = ground arith
bytes_beq_iff (x ∷ xs) (y ∷ ys) = ground (arith, bytes_beq_iff xs ys)

instance abbrev pub bytes_eq : Eq Bytes
bytes_eq = record { beq = bytes_beq; beq_iff = bytes_beq_iff }

-- `self.serializer.loads(fields[b"data"])`.
unfoldable pub read_entry : Platform → Entry → Result EventEnvelope
read_entry p entry = elim (get data_field entry.fields) [
  | none ↦ err key_error
  | some b ↦ loads p b
]

-- `int(pending_info[0]["times_delivered"]) if pending_info else 1`.
abbrev pub delivery_count : List ℕ → ℕ
delivery_count [] = 1
delivery_count (times ∷ _) = times

module _ (p : Platform) (client : Client) (c : Config) where
  abbrev pub add_once : String → Bytes → Exec State (Unit {0})
  add_once stream b = perform (xadd stream b c.maxlen) client.on_xadd

  abbrev pub pause : ℕ → Exec State (Unit {0})
  pause attempt = perform (sleep (c.publish_retry_delay * attempt)) client.on_sleep

  unfoldable pub publish : EventEnvelope → Exec State (Unit {0})
  publish e =
      let attempts = c.publish_retries + 1 in
      retry attempts is_transient (add_once (stream_name c (format p e.event_type)) (dumps p e))
        pause attempts 1

  -- `except redis.ResponseError: if "BUSYGROUP" not in str(exc): raise`.
  abbrev pub allow_busy : Error → Exec State (Unit {0})
  allow_busy (response_error message) =
      if includes message "BUSYGROUP" then pure tt else raise (response_error message)
  allow_busy x = raise x

  unfoldable pub ensure_group : String → String → Exec State (Unit {0})
  ensure_group start_id stream =
      try_except (perform (xgroup_create stream c.service_name start_id) client.on_xgroup_create)
        allow_busy

  unfoldable pub recover_missing_group : String → String → Exec State (Unit {0})
  recover_missing_group stream message =
      if includes message "NOGROUP" then ensure_group "$" stream else raise (response_error message)

  abbrev pub acknowledge : String → Bytes → Exec State (Unit {0})
  acknowledge stream msg_id = perform (xack stream c.service_name msg_id) client.on_xack

  -- What `_to_envelope` does with the outcome of `loads`.
  abbrev pub keep_or_skip :
      String → Bytes → Result EventEnvelope → Exec State (Option EventEnvelope)
  keep_or_skip stream msg_id (ok e) = do
    k ← lift (hash_key e.event_id)
    modify (λ s. record s { pending = put k (stream, msg_id) s.pending })
    pure (some e)
  keep_or_skip stream msg_id (err x) =
      if is_exception x then (acknowledge stream msg_id >> pure none) else raise x

  unfoldable pub to_envelope : String → Entry → Exec State (Option EventEnvelope)
  to_envelope stream entry = keep_or_skip stream entry.msg_id (read_entry p entry)

  -- `self._pending.pop(envelope.event_id, (None, None))`.
  unfoldable pub pop_pending : EventEnvelope → Exec State (Option (String × Bytes))
  pop_pending e = (λ s. (pop e.event_id s.pending, s)) >>= λ popped s.
      (ok popped.0, record s { pending = popped.1 })

  unfoldable pub ack : EventEnvelope → Exec State (Unit {0})
  ack e = do
    entry ← pop_pending e
    elim entry [ none ↦ pure tt | some (stream, msg_id) ↦ acknowledge stream msg_id ]

  -- The end of `fail`, once the number of deliveries is known.
  unfoldable pub settle_failure : EventEnvelope → String → Bytes → ℕ → Exec State Bool
  settle_failure e stream msg_id count =
      let dlq = dlq_name c (format p e.event_type) in
      if ltb count c.max_retries
      then pure false
      else (perform (move dlq (dumps p e) c.maxlen stream c.service_name msg_id) client.on_move
          >> pure true)

  -- `fail` on a message that is known.
  unfoldable pub fail_entry : EventEnvelope → String → Bytes → Exec State Bool
  fail_entry e stream msg_id = do
    infos ← perform (xpending_range stream c.service_name msg_id) client.on_xpending_range
    settle_failure e stream msg_id (delivery_count infos)

  unfoldable pub fail : EventEnvelope → Exec State Bool
  fail e = do
    entry ← pop_pending e
    elim entry [ none ↦ pure true | some (stream, msg_id) ↦ fail_entry e stream msg_id ]

  unfoldable pub close : Exec State (Unit {0})
  close = perform close_client client.on_close_client
