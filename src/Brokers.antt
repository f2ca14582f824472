-- ===== src/Brokers.antt =====
-- src/django_event_bus/brokers/base.py: the interface of a broker, over the state that its
-- operations change.
pub mod Retry
pub mod Pending
pub mod LocMem
pub mod Kafka
pub mod Factory
pub mod Redis
pub mod Rabbit
use django_event_bus.Prelude.{ℕ, Bool, List, [], ◌∷◌}
use django_event_bus.Exceptions.Exec.{Exec, pure, ◌>>=◌}
use django_event_bus.Platform.{Key}
use django_event_bus.Envelope.{EventEnvelope}

-- What the body of a `for` loop asks for: the next item, or `break`.
pub data Flow : Type 0 where
  go_on leave : Flow

-- A `for` loop around a `yield`: its reader may leave it at any item.
unfoldable pub for_flow {ℓ κ} : {S : Type ℓ} {X : Type κ} → (X → Exec S Flow) → List X → Exec S Flow
for_flow body [] = pure go_on
for_flow body (x ∷ xs) = do
  flow ← body x
  elim flow [ go_on ↦ for_flow body xs | leave ↦ pure leave ]

-- A generator is written by what its reader does with each item: `listen rounds types body` is
-- `for envelope in broker.listen(types): body`, followed for `rounds` turns of the endless loop
-- inside the generator.
pub record BaseBroker (S : Type 0) : Type 0 where
  pub publish : EventEnvelope → Exec S (Unit {0})
  pub listen : ℕ → List Key → (EventEnvelope → Exec S Flow) → Exec S Flow
  pub ack : EventEnvelope → Exec S (Unit {0})
  pub fail : EventEnvelope → Exec S Bool
  pub close : Exec S (Unit {0})
