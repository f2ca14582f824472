-- ===== src/Remote/Invalidation.antt =====
-- src/django_event_bus/remote/invalidation.py. Two `functools.partial` objects are equal only if
-- they are one object, so a receiver carries the number it was made with.
pub mod Refresh
pub mod Once
use django_event_bus.Prelude.{
  ℕ, ◌+◌, nat_eq, String, string_eq, List, [], ◌∷◌, Option, none, some, Eq, pair_eq, if◌then◌else◌,
}
use django_event_bus.Prelude.Lists.{contains}
use django_event_bus.Exceptions.{Result, ok, err, attribute_error}
use django_event_bus.Exceptions.Exec.{Exec, pure, raise}
use django_event_bus.Platform.{Platform, Json, null, obj, field_get}
use django_event_bus.Registry.{Registry, register}
use django_event_bus.Remote.Fields.{DataCache, World, in_cache, remote_cache_key}

-- `functools.partial(_invalidate, service, resource)`.
abbrev pub Invalidator : Type 0
Invalidator = ℕ × (String × String)

-- `_wired`, the registry, and how many partial objects were made.
pub record Wiring : Type 0 where
  pub wired : List (String × (String × String))
  pub registry : Registry Invalidator
  pub made : ℕ

-- One turn of the loop of `register_invalidation`.
unfoldable pub wire : String → String → String → Wiring → Wiring
wire service resource event_type w =
    if contains w.wired (service, (resource, event_type)) then w else record {
      wired = (service, (resource, event_type)) ∷ w.wired;
      registry = register event_type (w.made, (service, resource)) w.registry;
      made = w.made + 1;
    }

unfoldable pub register_invalidation : String → String → List String → Wiring → Wiring
register_invalidation service resource [] w = w
register_invalidation service resource (t ∷ ts) w =
    register_invalidation service resource ts (wire service resource t w)

-- `_invalidate`; a payload that is no object has no `get`.
module _ {C : Type 0} (p : Platform) (cache : DataCache C) (service resource : String) where
  abbrev pub delete_entry : Option Json → Exec (World C) (Unit {0})
  delete_entry none = pure tt
  delete_entry (some null) = pure tt
  delete_entry (some pk) = in_cache (
      cache.cache_delete
        (remote_cache_key p (record { service = service; resource = resource; pk = pk })))

  unfoldable pub invalidate : Json → Exec (World C) (Unit {0})
  invalidate (obj payload) = delete_entry (field_get "id" payload)
  invalidate _ = raise attribute_error
