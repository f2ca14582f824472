-- ===== src/Examples/OnKafka.antt =====
-- The Kafka broker, with a client that accepts whatever it is asked.
use django_event_bus.Prelude.{
  nat_eq, string_eq, [], ◌∷◌, true, false, not, none, some, ltb, ◌≡◌, refl,
}
use django_event_bus.Prelude.Dict.{get, remove}
use django_event_bus.Exceptions.{ok}
use django_event_bus.Platform.{pos, text, key_eq}
use django_event_bus.Envelope.{dumps, loads, hash_key}
use django_event_bus.Exceptions.Exec.{pure, ◌>>◌}
use django_event_bus.Brokers.Kafka.{
  Message, Client, State, Call, produce, flush, commit, delivered, unreported, nothing_yet,
  topic_name, retry_headers,
}
use django_event_bus.Brokers.Kafka.Options.{Options, Config, configure}
use django_event_bus.Brokers.Kafka.Operations.{fail}
use django_event_bus.Brokers.Kafka.Settling.{Settled, fail-Settled}
use django_event_bus.Brokers.Kafka.Sending.{next_topic, fail-counts}
use django_event_bus.Examples.Values.{
  platform, user_created, unhashable, loads_event, unhashable_read, unhashable_key,
}
use django_event_bus.Brokers.{go_on}
use django_event_bus.Brokers.Kafka.Receiving.{polled, consume-ack, consume-unhashable}
use django_event_bus.Brokers.Kafka.Operations.{ack, consume}
use django_event_bus.Brokers.Kafka.{poll, received}
use django_event_bus.Exceptions.{err, value_error, type_error}

abbrev no_options : Options
no_options = record {
  bootstrap_servers = none;
  topic_prefix = none;
  group_id = none;
  max_retries = none;
  poll_timeout = none;
  auto_offset_reset = none;
  client_id = none;
  num_partitions = none;
  replication_factor = none;
  publish_retries = none;
  publish_retry_delay = none;
}

abbrev config : Config
config = configure "order" "host-1" no_options

abbrev accepting : Client
accepting = record {
  on_produce = λ calls. ok tt;
  on_poll_producer = λ calls. ok tt;
  on_flush = λ calls. ok delivered;
  on_create_topics = λ calls. ok [];
  on_open_consumer = λ calls. ok tt;
  on_subscribe = λ calls. ok tt;
  on_poll = λ calls. ok nothing_yet;
  on_commit = λ calls. ok tt;
  on_close_consumer = λ calls. ok tt;
}

abbrev silent : Client
silent = record accepting { on_flush = λ calls. ok unreported }

abbrev second_try : Message
second_try = record {
  topic = "eventbus.auth.user_created";
  offset = 4;
  value = some (b'{' ∷ b'}' ∷ []);
  headers = some (retry_headers (pos 1));
}

abbrev start : State
start = record { pending = (text "a1", second_try) ∷ []; consumer = true; calls = [] }

id_key : hash_key user_created.event_id ≡ ok (text "a1")
unfolding hash_key
id_key = refl

is_pending : get (text "a1") start.pending ≡ some second_try
unfolding get
is_pending = refl

abbrev sent : Call
sent =
    produce (topic_name config "auth.user_created") (dumps platform user_created)
      (retry_headers (pos 0))

abbrev sent_again : Call
sent_again =
    produce (next_topic platform accepting config user_created 2) (dumps platform user_created)
      (retry_headers (pos 2))

abbrev after_failure : State
after_failure = record start {
  pending = remove (text "a1") start.pending;
  calls = commit second_try ∷ flush ∷ sent_again ∷ [];
}

fail-counts_example :
    fail platform accepting config user_created start
    ≡ (ok (not (ltb 2 config.max_retries)), after_failure)
fail-counts_example =
    fail-counts platform accepting config user_created (text "a1") second_try 1 delivered start
      id_key is_pending refl refl refl refl (λ same. cc) refl

goes_on : not (ltb 2 config.max_retries) ≡ false
unfolding configure
goes_on = refl

failed_once : fail platform accepting config user_created start ≡ (ok false, after_failure)
failed_once = rw goes_on at fail-counts_example

fail-Settled_example :
    Settled platform accepting config user_created (text "a1") second_try start after_failure false
fail-Settled_example =
    fail-Settled platform accepting config user_created (text "a1") second_try start after_failure
      false id_key is_pending failed_once

-- A consumer that is given the same message at every poll.
abbrev giving : Message → Client
giving m = record accepting { on_poll = λ calls. ok (received m) }

abbrev polling : State
polling = record { pending = []; consumer = true; calls = [] }

abbrev poison : Message
poison = record second_try { value = some (b'[' ∷ b']' ∷ []) }

abbrev garbage : Message
garbage = record second_try { value = none }

loads_garbage : loads platform [] ≡ err value_error
unfolding loads
loads_garbage = refl

consume-ack_example :
    consume platform
      (giving second_try)
      config
      (λ x. ack platform (giving second_try) config x >> pure go_on)
      1
      polling
    ≡ consume platform
        (giving second_try)
        config
        (λ x. ack platform (giving second_try) config x >> pure go_on)
        0
        (record polling { pending = remove (text "a1") []; calls = commit second_try ∷ poll ∷ [] })
consume-ack_example =
    consume-ack platform (giving second_try) config 0 second_try user_created (text "a1") polling
      refl loads_event id_key refl refl

consume-unhashable_example :
    consume platform (giving poison) config (λ e. pure go_on) 1 polling
    ≡ (err type_error, polled platform (giving poison) config polling)
consume-unhashable_example =
    consume-unhashable platform (giving poison) config (λ e. pure go_on) 0 poison unhashable
      type_error polling refl unhashable_read unhashable_key
