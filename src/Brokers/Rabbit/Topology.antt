-- ===== src/Brokers/Rabbit/Topology.antt =====
-- Where messages go in the queues that `_declare_topology` declares.
use Prim.Native.String.{len}
use text.Mathlib.TextPositions.{len-append}
use django_event_bus.Prelude.{
  true, ℕ, String, string_eq, ==_refl, ==_ne, List, [], ◌∷◌, ◌&&◌, Option, none, some, ◌==◌,
  if◌then◌else◌, ◌≡◌, ◌≢◌, arith, ap, ◌<>◌,
}
use django_event_bus.Exceptions.{ok}
use django_event_bus.Platform.{Platform}
use django_event_bus.Brokers.Rabbit.{
  QueueArguments, Client, State, Call, queue_declare, queue_bind, retry_exchange, dlq_exchange,
  queue_name, retry_queue_name, dlq_name,
}
use django_event_bus.Brokers.Rabbit.Options.{Config}
use django_event_bus.Brokers.Rabbit.Operations.{
  main_arguments, retry_arguments, no_arguments, declare_topology,
}

-- The queues that a direct exchange hands a routing key's messages to, by the bindings made.
abbrev pub routes : List Call → String → String → List String
routes [] exchange key = []
routes (queue_bind channel queue from bound ∷ calls) exchange key =
    let rest = routes calls exchange key in
    if from == exchange && bound == key then queue ∷ rest else rest
routes (_ ∷ calls) exchange key = routes calls exchange key

-- The arguments that a queue was declared with.
abbrev pub arguments_of : List Call → String → Option QueueArguments
arguments_of [] queue = none
arguments_of (queue_declare channel name durable arguments ∷ calls) queue =
    if name == queue then some arguments else arguments_of calls queue
arguments_of (_ ∷ calls) queue = arguments_of calls queue

module _ (p : Platform) (client : Client) (c : Config) (t : String) where
  -- The names are different, as those of the exchanges and of the queues are.
  pub record Distinct : Type 0 where
    pub main_retry : c.prefix ≢ retry_exchange c
    pub main_dlq : c.prefix ≢ dlq_exchange c
    pub retry_dlq : retry_exchange c ≢ dlq_exchange c
    pub queue_retry : queue_name c t ≢ retry_queue_name c t
    pub queue_dlq : queue_name c t ≢ dlq_name c t
    pub retry_queue_dlq : retry_queue_name c t ≢ dlq_name c t

  longer : (s u : String) → len u ≢ 0 → s ≢ s <> u
  longer s u some_text same = some_text (omega (arith, ap len same, len-append s u))

  other_end : (s u v : String) → len u ≢ len v → s <> u ≢ s <> v
  other_end s u v lengths same =
      lengths (omega (arith, ap len same, len-append s u, len-append s v))

  names_differ : Distinct
  unfolding queue_name retry_queue_name dlq_name
  names_differ = record {
    main_retry = longer c.prefix ".retry" (λ e. omega (arith, e));
    main_dlq = longer c.prefix ".dlq" (λ e. omega (arith, e));
    retry_dlq = other_end c.prefix ".retry" ".dlq" (λ e. omega (arith, e));
    queue_retry = longer (queue_name c t) ".retry" (λ e. omega (arith, e));
    queue_dlq = longer (queue_name c t) ".dlq" (λ e. omega (arith, e));
    retry_queue_dlq = other_end (queue_name c t) ".retry" ".dlq" (λ e. omega (arith, e));
  }

  -- The life of a message that is rejected: from the main queue to the retry queue, and from
  -- there, when its time is up, back to the main queue; the dead-letter queue keeps its messages.
  pub record Loops (calls earlier : List Call) : Type 0 where
    pub published : routes calls c.prefix t ≡ queue_name c t ∷ routes earlier c.prefix t
    pub rejected :
        arguments_of calls (queue_name c t)
        ≡ some (record { message_ttl = none; dead_letter = some (retry_exchange c, t) })
    pub parked :
        routes calls (retry_exchange c) t
        ≡ retry_queue_name c t ∷ routes earlier (retry_exchange c) t
    pub expired :
        arguments_of calls (retry_queue_name c t)
        ≡ some (record { message_ttl = some c.retry_delay_ms; dead_letter = some (c.prefix, t) })
    pub abandoned :
        routes calls (dlq_exchange c) t ≡ dlq_name c t ∷ routes earlier (dlq_exchange c) t
    pub kept :
        arguments_of calls (dlq_name c t) ≡ some (record { message_ttl = none; dead_letter = none })

  -- The calls of `_declare_topology`, the latest first.
  abbrev pub declarations : ℕ → List Call → List Call
  declarations ch calls =
      queue_bind ch (dlq_name c t) (dlq_exchange c) t
      ∷ queue_declare ch (dlq_name c t) true (no_arguments p client c)
      ∷ queue_bind ch (retry_queue_name c t) (retry_exchange c) t
      ∷ queue_declare ch (retry_queue_name c t) true (retry_arguments p client c t)
      ∷ queue_bind ch (queue_name c t) c.prefix t
      ∷ queue_declare ch (queue_name c t) true (main_arguments p client c t)
      ∷ calls

  declarations-Loops : (ch : ℕ) (calls : List Call) → Distinct → Loops (declarations ch calls) calls
  declarations-Loops ch calls d = record {
    published = ground (
      arith,
      ==_refl c.prefix,
      ==_refl t,
      ==_ne (dlq_exchange c) c.prefix,
      ==_ne (retry_exchange c) c.prefix,
    );
    rejected = ground (
      arith,
      ==_refl (queue_name c t),
      ==_ne (dlq_name c t) (queue_name c t),
      ==_ne (retry_queue_name c t) (queue_name c t),
    );
    parked = ground (
      arith,
      ==_refl (retry_exchange c),
      ==_refl t,
      ==_ne (dlq_exchange c) (retry_exchange c),
      ==_ne c.prefix (retry_exchange c),
    );
    expired =
        ground (arith, ==_refl (retry_queue_name c t), ==_ne (dlq_name c t) (retry_queue_name c t));
    abandoned = ground (
      arith,
      ==_refl (dlq_exchange c),
      ==_refl t,
      ==_ne (retry_exchange c) (dlq_exchange c),
      ==_ne c.prefix (dlq_exchange c),
    );
    kept = ground (arith, ==_refl (dlq_name c t));
  }

  -- Where the server takes every declaration, `_declare_topology` makes queues in which a rejected
  -- message of the type goes to the retry queue, comes back to the main queue after the retry
  -- delay, and a message published to the dead-letter exchange stays in the dead-letter queue; and
  -- a published event goes to the main queue.
  pub declare_topology-Loops :
      (s : State)
      → ((calls : List Call) → client.on_other calls ≡ ok tt)
      → (s' : State) × (declare_topology p client c t s ≡ (ok tt, s')) × Loops s'.calls s.calls
  unfolding declare_topology
  declare_topology-Loops s taken =
      let ch = s.channel in
      let done : declare_topology p client c t s
          ≡ (ok tt, record s { calls = declarations ch s.calls }) =
        rw (taken, taken, taken, taken, taken, taken) in
      (
        record s { calls = declarations ch s.calls },
        done,
        declarations-Loops ch s.calls names_differ,
      )
