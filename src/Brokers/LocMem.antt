-- ===== src/Brokers/LocMem.antt =====
-- src/django_event_bus/brokers/locmem.py. `Shared` is the state of the module, which every broker
-- of the process uses under one lock; an operation that holds the lock is one step here. The
-- annotations promise nothing at run time, so `publish` hashes whatever `event_type` holds.
pub mod Delivery
pub mod Subscribing
use django_event_bus.Prelude.{
  ℕ, zero, suc, String, string_eq, List, [], ◌∷◌, ◌++◌, Bool, true, false, Option, none, some, Eq,
  pair_eq, if◌then◌else◌,
}
use django_event_bus.Prelude.Lists.{contains}
use django_event_bus.Prelude.Dict.{Dict, get, get_or, put}
use django_event_bus.Exceptions.{Result, ok, err, key_error}
use django_event_bus.Exceptions.Exec.{Exec, pure, lift, modify, for_each, ◌>>=◌, ◌>>◌}
use django_event_bus.Platform.{Key, key_eq}
use django_event_bus.Envelope.{EventEnvelope, hash_key}
use django_event_bus.Brokers.{BaseBroker, Flow, go_on, leave}

abbrev pub Queues : Type 0
Queues = Dict (String × Key) (List EventEnvelope)

-- `_subscribers` and `_queues`.
pub record Shared : Type 0 where
  pub subscribers : Dict String (List Key)
  pub queues : Queues

-- `_queues[key].put(envelope)`.
unfoldable pub enqueue : String × Key → EventEnvelope → Exec Shared (Unit {0})
enqueue key e s = elim (get key s.queues) [
  | none ↦ (err key_error, s)
  | some q ↦ (ok tt, record s { queues = put key (q ++ e ∷ []) s.queues })
]

-- One turn of the loop of `publish`.
unfoldable pub deliver : EventEnvelope → String × List Key → Exec Shared (Unit {0})
deliver e (service, types) = do
  k ← lift (hash_key e.event_type)
  if contains types k then enqueue (service, k) e else pure tt

unfoldable pub publish : EventEnvelope → Exec Shared (Unit {0})
publish e s = for_each (deliver e) s.subscribers s

-- `subscribed.update(event_types)` on a set.
unfoldable pub add_types : List Key → List Key → List Key
add_types known [] = known
add_types known (t ∷ ts) = add_types (if contains known t then known else t ∷ known) ts

-- `_queues.setdefault((service, event_type), Queue())` for each type.
unfoldable pub open_queues : String → List Key → Queues → Queues
open_queues service [] q = q
open_queues service (t ∷ ts) q =
    open_queues service ts (put (service, t) (get_or (service, t) [] q) q)

-- What `listen` does before it returns the generator.
unfoldable pub subscribe : String → List Key → Shared → Shared
subscribe service types s = record {
  subscribers = put service (add_types (get_or service [] s.subscribers) types) s.subscribers;
  queues = open_queues service types s.queues;
}

module _ (service : String) (body : EventEnvelope → Exec Shared Flow) where
  -- `yield q.get(timeout=0.1)`, with what the reader of the generator does with the item.
  unfoldable pub poll : Key → Exec Shared Flow
  poll t s = elim (get (service, t) s.queues) [
    | none ↦ (err key_error, s)
    | some [] ↦ (ok go_on, s)
    | some (e ∷ q) ↦ body e (record s { queues = put (service, t) q s.queues })
  ]

  -- The `for` loop of `_consume`.
  unfoldable pub poll_types : List Key → Exec Shared Flow
  poll_types [] = pure go_on
  poll_types (t ∷ ts) = do flow ← poll t; elim flow [ go_on ↦ poll_types ts | leave ↦ pure leave ]

  -- `rounds` turns of the endless loop of `_consume`.
  unfoldable pub consume : ℕ → List Key → Exec Shared Flow
  consume zero types = pure go_on
  consume (suc rounds) types = do
    flow ← poll_types types
    elim flow [ go_on ↦ consume rounds types | leave ↦ pure leave ]

unfoldable pub listen :
    String → ℕ → List Key → (EventEnvelope → Exec Shared Flow) → Exec Shared Flow
listen service rounds types body =
    modify (subscribe service types) >> consume service body rounds types

unfoldable pub ack : EventEnvelope → Exec Shared (Unit {0})
ack e = pure tt

unfoldable pub fail : EventEnvelope → Exec Shared Bool
fail e = pure true

unfoldable pub reset : Shared → Shared
reset s = record { subscribers = []; queues = [] }

-- `LocMemBroker(service_name=service)`; `close` is the base class's, which does nothing.
unfoldable pub broker : String → BaseBroker Shared
broker service = record {
  publish = publish;
  listen = listen service;
  ack = ack;
  fail = fail;
  close = pure tt;
}
