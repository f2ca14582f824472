-- ===== src/Brokers/Factory/Loading.antt =====
-- src/django_event_bus/brokers/utils.py: `load_broker`. What a dotted path names and the class that
-- it gives are parameters.
use django_event_bus.Prelude.{String, List}
use django_event_bus.Exceptions.{Result}
use django_event_bus.Exceptions.Exec.{Exec, lift, ◌>>=◌}
use django_event_bus.Settings.{Value, Object, Section, get_attr}

module _ {B : Type 0} (defaults : Object) (required : List String)
    (import_string : Value → Result (Value → Value → Result B)) where
  -- The settings are read when they are needed: the class, then the name of the service, then the
  -- options.
  unfoldable pub load_broker : Exec Section B
  load_broker = get_attr defaults required "BACKEND" >>= λ backend.
      lift (import_string backend) >>= λ make.
      get_attr defaults required "SERVICE_NAME" >>= λ service_name.
      get_attr defaults required "OPTIONS" >>= λ options. lift (make service_name options)
