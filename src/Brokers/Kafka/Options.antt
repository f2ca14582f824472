-- ===== src/Brokers/Kafka/Options.antt =====
-- The options of the Kafka broker and their defaults. Counts are natural numbers, and times are
-- counted in milliseconds. `PRODUCER_CONFIG` and `CONSUMER_CONFIG` go to the client library as
-- they are.
use django_event_bus.Prelude.{ℕ, String, Option, none, some}

pub record Options : Type 0 where
  pub bootstrap_servers : Option String
  pub topic_prefix : Option String
  pub group_id : Option String
  pub max_retries : Option ℕ
  pub poll_timeout : Option ℕ
  pub auto_offset_reset : Option String
  pub client_id : Option String
  pub num_partitions : Option ℕ
  pub replication_factor : Option ℕ
  pub publish_retries : Option ℕ
  pub publish_retry_delay : Option ℕ

pub record Config : Type 0 where
  pub service_name : String
  pub bootstrap_servers : String
  pub prefix : String
  pub group_id : String
  pub max_retries : ℕ
  pub poll_timeout : ℕ
  pub auto_offset_reset : String
  pub client_id : String
  pub num_partitions : ℕ
  pub replication_factor : ℕ
  pub publish_retries : ℕ
  pub publish_retry_delay : ℕ

abbrev or_default {ℓ} : {A : Type ℓ} → A → Option A → A
or_default d none = d
or_default d (some a) = a

-- `KafkaBroker.__init__`; the default client name is made of the host's name and the process id.
unfoldable pub configure : String → String → Options → Config
configure service_name default_client_id o = record {
  service_name = service_name;
  bootstrap_servers = or_default "localhost:9092" o.bootstrap_servers;
  prefix = or_default "eventbus" o.topic_prefix;
  group_id = or_default service_name o.group_id;
  max_retries = or_default 3 o.max_retries;
  poll_timeout = or_default 1000 o.poll_timeout;
  auto_offset_reset = or_default "earliest" o.auto_offset_reset;
  client_id = or_default default_client_id o.client_id;
  num_partitions = or_default 1 o.num_partitions;
  replication_factor = or_default 1 o.replication_factor;
  publish_retries = or_default 2 o.publish_retries;
  publish_retry_delay = or_default 200 o.publish_retry_delay;
}
