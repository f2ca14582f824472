-- ===== src/Examples/OnRedis.antt =====
-- The Redis broker and a worker on it, with servers that accept whatever they are asked, have no
-- message, or have lost a group.
use django_event_bus.Prelude.{
  ℕ, nat_eq, String, string_eq, [], ◌∷◌, true, false, none, some, ◌≡◌, refl, inl, inr,
}
use django_event_bus.Prelude.Dict.{get, remove, get_or}
use django_event_bus.Exceptions.{ok, err, connection_lost, response_error}
use django_event_bus.Exceptions.Exec.{Exec, pure}
use django_event_bus.Platform.{Bytes, text, key_eq}
use django_event_bus.Envelope.{EventEnvelope, dumps, hash_key}
use django_event_bus.Registry.{Registry, get_receivers, registered_event_types}
use django_event_bus.Brokers.Pending.{pop}
use django_event_bus.Brokers.{Flow, go_on, for_flow}
use django_event_bus.Brokers.Redis.{
  Entry, Client, State, xadd, xpending_range, move, data_field, includes, stream_name, dlq_name,
}
use django_event_bus.Brokers.Redis.Options.{Config, configure}
use django_event_bus.Brokers.Redis.Operations.{
  publish, read_entry, fail, bytes_eq, fail_entry, settle_failure, pop_pending,
}
use django_event_bus.Brokers.Redis.Consuming.{deliver_entry, consume, broker}
use django_event_bus.Brokers.Redis.Sending.{Decided, fail-Decided}
use django_event_bus.Brokers.Redis.Groups.{Replays, consume-Replays}
use django_event_bus.Brokers.Redis.Delivering.{
  Handled, forget, acknowledged, for_flow-deliver_entry,
}
use django_event_bus.Brokers.Retry.{retry}
use django_event_bus.Worker.{StopFlag, work, handle}
use django_event_bus.Worker.OnRedis.{handle_quiet, work-acks}
use django_event_bus.Examples.Values.{
  platform, user_created, unhashable, loads_event, unhashable_read,
}

abbrev config : Config
config = configure "order" "host-1" (record {
  url = none;
  stream_prefix = none;
  max_retries = none;
  block_ms = none;
  retry_idle_ms = none;
  consumer_name = none;
  publish_retries = none;
  publish_retry_delay = none;
  maxlen = none;
})

-- A message has been delivered three times.
abbrev accepting : Client
accepting = record {
  on_xadd = λ calls. ok tt;
  on_sleep = λ calls. ok tt;
  on_xgroup_create = λ calls. ok tt;
  on_xautoclaim = λ calls. ok [];
  on_xreadgroup = λ calls. ok [];
  on_xack = λ calls. ok tt;
  on_xpending_range = λ calls. ok (3 ∷ []);
  on_move = λ calls. ok tt;
  on_close_client = λ calls. ok tt;
}

-- The group is missing, and the connection is lost when it is made again.
abbrev losing : Client
losing = record accepting {
  on_xautoclaim = λ calls. err (response_error "NOGROUP No such key");
  on_xgroup_create = λ calls. err connection_lost;
}

abbrev message_id : Bytes
message_id = b'7' ∷ []

abbrev entry : Entry
entry = record { msg_id = message_id; fields = (data_field, b'{' ∷ b'}' ∷ []) ∷ [] }

abbrev poison : Entry
poison = record { msg_id = message_id; fields = (data_field, b'[' ∷ b']' ∷ []) ∷ [] }

abbrev stream : String
stream = "eventbus:auth.user_created"

abbrev start : State
start = record { pending = (text "a1", (stream, message_id)) ∷ []; calls = [] }

id_key : hash_key user_created.event_id ≡ ok (text "a1")
unfolding hash_key
id_key = refl

abbrev added : State
added = record start {
  calls =
      xadd (stream_name config "auth.user_created") (dumps platform user_created) config.maxlen
      ∷ [];
}

published : publish platform accepting config user_created start ≡ (ok tt, added)
unfolding publish retry configure
published = refl

abbrev abandoned : State
abandoned = record start {
  pending = remove (text "a1") start.pending;
  calls =
      move (dlq_name config "auth.user_created") (dumps platform user_created) config.maxlen stream
        config.service_name message_id
      ∷ xpending_range stream config.service_name message_id
      ∷ [];
}

failed : fail platform accepting config user_created start ≡ (ok true, abandoned)
unfolding fail pop_pending pop fail_entry settle_failure hash_key get configure
failed = refl

is_pending : get (text "a1") start.pending ≡ some (stream, message_id)
unfolding get
is_pending = refl

fail-Decided_example :
    Decided platform accepting config user_created
      (text "a1")
      stream
      message_id
      start
      abandoned
      true
fail-Decided_example =
    fail-Decided platform accepting config user_created (text "a1") stream message_id start
      abandoned true id_key is_pending failed

abbrev receivers : Registry ℕ
receivers = (text "auth.user_created", 1 ∷ 2 ∷ []) ∷ []

abbrev flag : StopFlag State
flag = record { stopped = λ s. false; set_stop = λ b s. s }

abbrev silent : ℕ → EventEnvelope → Exec State (Unit {0})
silent h e = pure tt

found : get_receivers user_created.event_type receivers ≡ ok (1 ∷ 2 ∷ [])
unfolding get_receivers hash_key get_or get
found = refl

abbrev body : EventEnvelope → Exec State Flow
body = work flag silent receivers (broker platform accepting config)

named : includes "NOGROUP No such key" "NOGROUP" ≡ true
unfolding includes
named = refl

types : registered_event_types receivers ≡ text "auth.user_created" ∷ []
unfolding registered_event_types
types = refl

reads_event : read_entry platform entry ≡ ok user_created
unfolding read_entry get
reads_event = loads_event

reads_poison : read_entry platform poison ≡ ok unhashable
unfolding read_entry get
reads_poison = unhashable_read

abbrev handled : Handled platform accepting config body entry
handled = record {
  event = user_created;
  key = text "a1";
  reads = reads_event;
  keyed = id_key;
  ends_well = λ s.
      work-acks platform accepting config flag silent receivers user_created (1 ∷ 2 ∷ []) s refl
        found (λ h. refl);
}

for_flow-deliver_entry_example :
    for_flow (deliver_entry platform accepting config body stream) (entry ∷ []) start ≡ (
      ok go_on,
      record start {
        pending = forget platform accepting config (text "a1" ∷ []) start.pending;
        calls = acknowledged platform accepting config stream (entry ∷ []) [];
      },
    )
for_flow-deliver_entry_example =
    for_flow-deliver_entry platform accepting config body stream (entry ∷ []) start (λ calls. refl)
      (handled, tt)

consume-Replays_example :
    Replays 0
      (consume platform losing config
        (λ e. pure go_on)
        5
        (stream ∷ "eventbus:order.paid" ∷ [])
        start).1
consume-Replays_example =
    consume-Replays platform losing config 0 (λ e. pure go_on) (λ e s h. h) 5
      (stream ∷ "eventbus:order.paid" ∷ []) start refl

handle_quiet_example :
    (s' : State) × (handle flag silent receivers (pure (broker platform accepting config)) 9 start
      ≡ (ok go_on, s'))
handle_quiet_example =
    handle_quiet platform accepting config flag silent receivers (text "auth.user_created") [] types
      (λ calls. inl refl) (λ calls. inr refl) (λ calls. inr refl) 9 start
