-- ===== src/Examples/OnRabbit.antt =====
-- The RabbitMQ broker, with a server that takes whatever it is asked, or is gone.
use django_event_bus.Prelude.{nat_eq, string_eq, [], ◌∷◌, true, none, some, ◌≡◌, refl}
use django_event_bus.Prelude.Dict.{get, remove}
use django_event_bus.Exceptions.{ok, err, connection_lost}
use django_event_bus.Platform.{str, text, key_eq}
use django_event_bus.Envelope.{dumps, hash_key}
use django_event_bus.Brokers.Pending.{pop}
use django_event_bus.Brokers.Retry.{retry}
use django_event_bus.Brokers.Rabbit.{
  Client, State, Unsettled, basic_publish, basic_ack, dlq_exchange, queue_name,
}
use django_event_bus.Brokers.Rabbit.Options.{Config, configure}
use django_event_bus.Brokers.Rabbit.Operations.{
  death_count, declare_topology, publish_to, pop_pending, settle_failure, fail,
}
use django_event_bus.Brokers.Rabbit.Topology.{Loops, declare_topology-Loops}
use django_event_bus.Brokers.Rabbit.Settling.{Parked, fail-Parked}
use django_event_bus.Examples.Values.{platform, user_created}

abbrev config : Config
config = configure "order" (record {
  url = none;
  exchange_prefix = none;
  max_retries = none;
  retry_delay_ms = none;
  prefetch_count = none;
  poll_interval = none;
  publish_retries = none;
  publish_retry_delay = none;
})

abbrev accepting : Client
accepting = record {
  on_connect = λ calls. ok 1;
  on_open_channel = λ calls. ok 1;
  on_next_message = λ calls. ok none;
  on_other = λ calls. ok tt;
}

abbrev gone : Client
gone = record {
  on_connect = λ calls. err connection_lost;
  on_open_channel = λ calls. err connection_lost;
  on_next_message = λ calls. err connection_lost;
  on_other = λ calls. err connection_lost;
}

-- A message that its queue has rejected twice.
abbrev third_delivery : Unsettled
third_delivery = record {
  event_type = "auth.user_created";
  channel = 4;
  delivery = record {
    delivery_tag = 12;
    deaths =
        (record {
          queue = some "eventbus.order.auth.user_created";
          reason = some "rejected";
          count = some 2;
        })
        ∷ [];
    body = b'{' ∷ b'}' ∷ [];
  };
}

abbrev start : State
start = record {
  connection = 1;
  channel = 2;
  consumers = ("auth.user_created", 4) ∷ [];
  pending = (text "a1", third_delivery) ∷ [];
  calls = [];
}

id_key : hash_key user_created.event_id ≡ ok (text "a1")
unfolding hash_key
id_key = refl

is_pending : get (text "a1") start.pending ≡ some third_delivery
unfolding get
is_pending = refl

abbrev abandoned : State
abandoned = record start {
  pending = remove (text "a1") start.pending;
  calls =
      basic_ack 4 12
      ∷ basic_publish 2 (dlq_exchange config) (str "auth.user_created")
          (dumps platform user_created)
      ∷ [];
}

failed : fail platform accepting config user_created start ≡ (ok true, abandoned)
unfolding fail pop_pending pop settle_failure publish_to retry death_count queue_name hash_key get
    configure
failed = refl

fail-Parked_example : Parked platform accepting config user_created third_delivery abandoned true
fail-Parked_example =
    fail-Parked platform accepting config user_created (text "a1") third_delivery start abandoned
      true id_key is_pending failed

declare_topology-Loops_example :
    (s' : State) × (declare_topology platform accepting config "auth.user_created" start
      ≡ (ok tt, s'))
    × Loops platform accepting config "auth.user_created" s'.calls []
declare_topology-Loops_example =
    declare_topology-Loops platform accepting config "auth.user_created" start (λ calls. refl)
