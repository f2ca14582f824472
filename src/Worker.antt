-- ===== src/Worker.antt =====
-- src/django_event_bus/management/commands/eventbus_worker.py, over any broker. What it writes to
-- the console is left out.
pub mod OnRedis
use django_event_bus.Prelude.{ℕ, List, [], ◌∷◌, Bool, true, false, if◌then◌else◌}
use django_event_bus.Exceptions.{Error, Result, ok, err}
use django_event_bus.Exceptions.Exec.{Exec, pure, raise, lift, modify, reify, ◌>>=◌, ◌>>◌}
use django_event_bus.Platform.{Key}
use django_event_bus.Envelope.{EventEnvelope}
use django_event_bus.Registry.{Registry, registered_event_types}
use django_event_bus.Brokers.{BaseBroker, Flow, go_on, leave}
use django_event_bus.Dispatcher.{dispatch}

-- `self._stop` in the state of the process. A signal may set it during any call.
pub record StopFlag (S : Type 0) : Type 0 where
  pub stopped : S → Bool
  pub set_stop : Bool → S → S

module _ {S H : Type 0} (flag : StopFlag S) (invoke : H → EventEnvelope → Exec S (Unit {0})) where
  -- `_request_stop`.
  unfoldable pub request_stop : Exec S (Unit {0})
  request_stop = modify (flag.set_stop true)

  -- The body of the loop of `handle`.
  unfoldable pub work : Registry H → BaseBroker S → EventEnvelope → Exec S Flow
  work registry broker e s =
      if flag.stopped s
      then (ok leave, s)
      else (dispatch invoke registry broker e >>= λ handled. pure go_on) s

  -- The end of `handle`: the loop still runs after the rounds it was followed for, or the
  -- `finally` clause closes the broker.
  abbrev pub finish : BaseBroker S → Result Flow → Exec S Flow
  finish broker (ok go_on) = pure go_on
  finish broker (ok leave) = broker.close >> pure leave
  finish broker (err x) = broker.close >> raise x

  -- What `handle` does with the registered types, where `connect` is `get_broker`.
  abbrev pub serve : Registry H → Exec S (BaseBroker S) → ℕ → List Key → Exec S Flow
  serve registry connect rounds [] = pure leave
  serve registry connect rounds (t ∷ ts) = modify (flag.set_stop false) >> (do
    broker ← connect
    ended ← reify (broker.listen rounds (t ∷ ts) (work registry broker))
    finish broker ended)

  -- `handle`. It has ended when it returns `leave` or raises.
  unfoldable pub handle : Registry H → Exec S (BaseBroker S) → ℕ → Exec S Flow
  handle registry connect rounds = serve registry connect rounds (registered_event_types registry)
