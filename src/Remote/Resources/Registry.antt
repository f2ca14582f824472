-- ===== src/Remote/Resources/Registry.antt =====
-- src/django_event_bus/remote/resources.py: the registry of the exposed classes and the resolver
-- that answers from it. `_registry_lock` makes the statements under it one step.
use django_event_bus.Prelude.{String, string_eq, [], Option, none, some, if◌then◌else◌, Eq, ◌==◌}
use django_event_bus.Prelude.Dict.{Dict, get, put}
use django_event_bus.Exceptions.{Result, ok, err, improperly_configured}
use django_event_bus.Exceptions.Exec.{Exec, pure, raise, lift, gets, modify, ◌>>=◌, ◌>>◌}
use django_event_bus.Platform.{Json}
use django_event_bus.Remote.Views.{is_not_found}
use django_event_bus.Remote.Resources.{
  Model, Serializer, Attributes, check_no_unserializable_relation_fields, get_instance,
  to_representation,
}

abbrev pub some_data : Result (Dict String Json) → Result (Option (Dict String Json))
some_data (ok d) = ok (some d)
some_data (err x) = err x

module _ {R : Type 0} where
  unfoldable pub get_registered_serializer : String → Dict String R → Option R
  get_registered_serializer resource registry = get resource registry

  abbrev pub reset_registry : Exec (Dict String R) (Unit {0})
  reset_registry = modify (λ registry. [])

module _ {R : Type 0} ⦃is : Eq R⦄ where
  abbrev pub claim : String → R → Option R → Exec (Dict String R) R
  claim resource c none = modify (put resource c) >> pure c
  claim resource c (some existing) =
      if existing == c then (modify (put resource c) >> pure c) else raise improperly_configured

module _ {R I : Type 0} ⦃is : Eq R⦄ (classes : R → Serializer I) where
  -- `expose_resource`.
  abbrev pub expose_as : R → Option (Model I) → Option String → Exec (Dict String R) R
  expose_as c none resource = raise improperly_configured
  expose_as c (some m) none = raise improperly_configured
  expose_as c (some m) (some resource) =
      lift (check_no_unserializable_relation_fields (classes c) m) >>= λ _.
      gets (get resource) >>= claim resource c

  unfoldable pub expose_resource : R → Exec (Dict String R) R
  expose_resource c = expose_as c (classes c).model (classes c).resource

  -- `registry_resolver`.
  abbrev pub on_found : Attributes I → R → Result I → Result (Option (Dict String Json))
  on_found attributes c (ok i) = some_data (to_representation attributes (classes c) i)
  on_found attributes c (err x) = if is_not_found x then ok none else err x

  abbrev pub on_registered : Attributes I → String → Option R → Result (Option (Dict String Json))
  on_registered attributes pk none = ok none
  on_registered attributes pk (some c) = on_found attributes c (get_instance (classes c) pk)

  unfoldable pub registry_resolver :
      Attributes I → Dict String R → String → String → Result (Option (Dict String Json))
  registry_resolver attributes registry resource pk =
      on_registered attributes pk (get_registered_serializer resource registry)
