-- ===== src/Brokers/Redis/Options.antt =====
-- The options of the Redis broker and their defaults. Counts are natural numbers, and times are
-- counted in milliseconds.
use django_event_bus.Prelude.{ℕ, String, Option, none, some}

pub record Options : Type 0 where
  pub url : Option String
  pub stream_prefix : Option String
  pub max_retries : Option ℕ
  pub block_ms : Option ℕ
  pub retry_idle_ms : Option ℕ
  pub consumer_name : Option String
  pub publish_retries : Option ℕ
  pub publish_retry_delay : Option ℕ
  pub maxlen : Option ℕ

pub record Config : Type 0 where
  pub service_name : String
  pub url : String
  pub prefix : String
  pub max_retries : ℕ
  pub block_ms : ℕ
  pub retry_idle_ms : ℕ
  pub consumer_name : String
  pub publish_retries : ℕ
  pub publish_retry_delay : ℕ
  pub maxlen : Option ℕ

abbrev or_else {ℓ} : {A : Type ℓ} → Option A → A → A
or_else none d = d
or_else (some a) d = a

-- `RedisStreamsBroker.__init__`; the default consumer is made of the host's name and the process
-- id.
unfoldable pub configure : String → String → Options → Config
configure service_name default_consumer_name o = record {
  service_name = service_name;
  url = or_else o.url "redis://localhost:6379/0";
  prefix = or_else o.stream_prefix "eventbus";
  max_retries = or_else o.max_retries 3;
  block_ms = or_else o.block_ms 5000;
  retry_idle_ms = or_else o.retry_idle_ms 30000;
  consumer_name = or_else o.consumer_name default_consumer_name;
  publish_retries = or_else o.publish_retries 2;
  publish_retry_delay = or_else o.publish_retry_delay 200;
  maxlen = o.maxlen;
}
