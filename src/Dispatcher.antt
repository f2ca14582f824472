-- ===== src/Dispatcher.antt =====
-- src/django_event_bus/dispatcher.py. What a receiver does is a parameter: it changes the state
-- of the process and returns or raises. The log lines are left out.
pub mod Outcomes
use django_event_bus.Prelude.{ℕ, ◌+◌, List, [], ◌∷◌, Bool, true, false, if◌then◌else◌, nat_beq}
use django_event_bus.Exceptions.{Error, Result, ok, err, is_exception}
use django_event_bus.Exceptions.Exec.{Exec, pure, raise, lift, try_except, ◌>>=◌, ◌>>◌}
use django_event_bus.Envelope.{EventEnvelope}
use django_event_bus.Registry.{Registry, get_receivers}
use django_event_bus.Brokers.{BaseBroker}

module _ {S H : Type 0} (invoke : H → EventEnvelope → Exec S (Unit {0})) where
  -- One turn of the loop: the new value of `failed_count`.
  abbrev pub run_receiver : H → EventEnvelope → ℕ → Exec S ℕ
  run_receiver h e failed =
      try_except (invoke h e >> pure failed)
        (λ x. if is_exception x then pure (failed + 1) else raise x)

  unfoldable pub run_receivers : List H → EventEnvelope → ℕ → Exec S ℕ
  run_receivers [] e failed = pure failed
  run_receivers (h ∷ hs) e failed = do failed' ← run_receiver h e failed; run_receivers hs e failed'

  -- The end of `dispatch`, once every receiver has run.
  abbrev pub settle : BaseBroker S → EventEnvelope → ℕ → Exec S Bool
  settle broker e failed =
      if nat_beq failed 0 then (broker.ack e >> pure true) else (do _ ← broker.fail e; pure false)

  unfoldable pub dispatch : Registry H → BaseBroker S → EventEnvelope → Exec S Bool
  unfolding run_receivers
  dispatch registry broker e = do
    receivers ← lift (get_receivers e.event_type registry)
    failed ← run_receivers receivers e 0
    settle broker e failed
