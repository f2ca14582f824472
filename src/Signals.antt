-- ===== src/Signals.antt =====
-- src/django_event_bus/signals.py. Django's transactions are a parameter: a callback that
-- publishes an envelope is known by its envelope. So are the clock and the random identifiers.
pub mod Transactions
use django_event_bus.Prelude.{String, string_eq, List, [], ◌∷◌, Eq}
use django_event_bus.Prelude.Dict.{Dict, put}
use django_event_bus.Exceptions.{Result, ok}
use django_event_bus.Exceptions.Exec.{Exec, pure, lift, ◌>>=◌, ◌>>◌}
use django_event_bus.Platform.{Json, str, obj, DateTime, pos}
use django_event_bus.Envelope.{EventEnvelope}
use django_event_bus.Registry.{Registry, register}
use django_event_bus.Remote.Resources.{as_json}

-- A call of `send`: the signal's event type, the payload (an empty dict if it is None), the
-- further arguments, and what the envelope takes from the clock and the identifiers.
pub record Message : Type 0 where
  pub event_type : String
  pub payload : Dict String Json
  pub extra : Dict String Json
  pub event_id : String
  pub occurred_at : DateTime

-- `{**payload, **extra}`.
unfoldable pub merge : Dict String Json → Dict String Json → Dict String Json
merge payload [] = payload
merge payload ((k, v) ∷ extra) = merge (put k v payload) extra

unfoldable pub envelope_of : Json → Message → EventEnvelope
envelope_of source m = record {
  event_type = str m.event_type;
  source_service = source;
  payload = obj (as_json (merge m.payload m.extra));
  event_id = str m.event_id;
  occurred_at = m.occurred_at;
  version = pos 1;
}

-- `RemoteSignal.send`, where `on_commit` is `transaction.on_commit`.
unfoldable pub send :
    {W : Type 0}
    → (on_commit : EventEnvelope → Exec W (Unit {0})) → (service_name : Result Json) → Message
    → Exec W EventEnvelope
send on_commit service_name m =
    lift service_name >>= λ source. on_commit (envelope_of source m) >> pure (envelope_of source m)

-- `receiver(event_type)(func)`.
unfoldable pub receiver : {H : Type 0} ⦃e : Eq H⦄ → String → H → Exec (Registry H) H
receiver event_type func registry = (ok func, register event_type func registry)
