-- ===== src/Remote/Resources/Resolving.antt =====
-- The resolver that the gRPC servicer uses by default answers as the HTTP view does.
use django_event_bus.Prelude.{
  ℕ, String, string_eq, Option, none, some, Eq, ◌≡◌, refl, inl, inr, Bool-cases,
}
use django_event_bus.Prelude.Dict.{Dict, get}
use django_event_bus.Exceptions.{Result, ok, err}
use django_event_bus.Exceptions.Exec.{lift, ◌>>=◌}
use django_event_bus.Platform.{Platform, Json, obj}
use django_event_bus.Remote.Views.{
  Request, Response, Site, Service, detail, is_not_found, respond, on_instance, serve,
}
use django_event_bus.Remote.Resources.{
  Serializer, Attributes, get_instance, to_representation, as_json,
}
use django_event_bus.Remote.Resources.Registry.{
  some_data, get_registered_serializer, on_found, on_registered, registry_resolver,
}

abbrev pub as_body : Result (Dict String Json) → Result Json
as_body (ok d) = ok (obj (as_json d))
as_body (err x) = err x

-- What a caller of the resolver gets, as JSON has it.
abbrev pub as_resolved : Result (Option (Dict String Json)) → Result (Option Json)
as_resolved (ok none) = ok none
as_resolved (ok (some d)) = ok (some (obj (as_json d)))
as_resolved (err x) = err x

module _ {R I : Type 0} ⦃is : Eq R⦄ (classes : R → Serializer I) (attributes : Attributes I) where
  -- `serializer_class(instance).data` as the body of a response.
  abbrev pub data_of : R → I → Result Json
  data_of c i = as_body (to_representation attributes (classes c) i)

  -- The view's service when the models behind it are these classes.
  abbrev pub exposing : {C : Type 0} → Dict String R → Service C R I → Service C R I
  exposing registry service = record service {
    registry = registry;
    get_instance = λ c pk. get_instance (classes c) pk;
    represent = data_of;
  }

  -- The response that stands for what the resolver returns.
  abbrev pub Answers :
      {C : Type 0} → Site C → Result (Option (Dict String Json)) → Result Response × Site C → Type 0
  Answers s (err x) r = r ≡ (err x, s)
  Answers s (ok none) r =
      (message : String) × (r ≡ (ok (record { status = 404; body = detail message }), s))
  Answers s (ok (some d)) r = r ≡ (ok (record { status = 200; body = obj (as_json d) }), s)

  -- For every resource and key the view serves what the default resolver returns: status 200 with
  -- its dict, 404 where it returns None, and the same exception where it raises.
  pub serve-registry_resolver :
      {C : Type 0} (p : Platform) (service : Service C R I) (now : ℕ) (request : Request)
      (registry : Dict String R) (s : Site C)
      → Answers s (registry_resolver classes attributes registry request.resource request.pk) (
          serve p
            (exposing registry service)
            now
            request
            (get_registered_serializer request.resource registry)
            s)
  unfolding registry_resolver get_registered_serializer serve
  serve-registry_resolver p service now request registry s = of (get request.resource registry)
    where
      represented :
          (r : Result (Dict String Json))
          → Answers s
              (some_data r)
              ((lift (as_body r) >>= respond p (exposing registry service) now request 200) s)
      represented (ok d) = refl
      represented (err x) = refl

      found :
          (c : R) (r : Result I)
          → Answers s
              (on_found classes attributes c r)
              (on_instance p (exposing registry service) now request c r s)
      found c (err x) = elim (Bool-cases (is_not_found x)) [
        | inl caught ↦ rw caught ("not found", refl)
        | inr escapes ↦ rw escapes refl
      ]
      found c (ok i) = represented (to_representation attributes (classes c) i)

      of :
          (o : Option R)
          → Answers s
              (on_registered classes attributes request.pk o)
              (serve p (exposing registry service) now request o s)
      of none = ("unknown resource", refl)
      of (some c) = found c (get_instance (classes c) request.pk)
