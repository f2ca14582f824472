-- ===== src/Registry.antt =====
-- src/django_event_bus/registry.py. A receiver is compared by `==`, which is identity for the
-- functions and partial applications that the program registers: any type with an equality.
pub mod Subscriptions
use django_event_bus.Prelude.{String, List, [], ◌∷◌, ◌++◌, Option, none, some, Eq, if◌then◌else◌}
use django_event_bus.Prelude.Lists.{contains}
use django_event_bus.Prelude.Dict.{Dict, get_or, put, keys}
use django_event_bus.Exceptions.{Result, ok, err}
use django_event_bus.Exceptions.Pure.{◌>>=◌}
use django_event_bus.Platform.{Json, Key, text, key_eq}
use django_event_bus.Envelope.{hash_key}

-- `_registry`: event type to receivers, in the order of registration.
abbrev pub Registry : Type 0 → Type 0
Registry H = Dict Key (List H)

module _ {H : Type 0} ⦃e : Eq H⦄ where
  abbrev pub add_handler : H → List H → List H
  add_handler h handlers = if contains handlers h then handlers else handlers ++ h ∷ []

  -- The lookup in a `defaultdict` makes the entry.
  unfoldable pub register : String → H → Registry H → Registry H
  register event_type h r = put (text event_type) (add_handler h (get_or (text event_type) [] r)) r

-- The lookup hashes its key, which a list or a dict has no value for.
unfoldable pub get_receivers : {H : Type 0} → Json → Registry H → Result (List H)
get_receivers event_type r = do k ← hash_key event_type; ok (get_or k [] r)

unfoldable pub registered_event_types : {H : Type 0} → Registry H → List Key
registered_event_types r = keys r

unfoldable pub clear : {H : Type 0} → Registry H → Registry H
clear r = []
