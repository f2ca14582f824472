-- ===== src/Remote/Grpc/Outcomes.antt =====
-- What a caller of the HTTP view and a caller of the gRPC server get, side by side.
use django_event_bus.Prelude.{String, string_eq, [], true, false, Option, none, some, Eq, ◌≡◌}
use django_event_bus.Prelude.Dict.{Dict}
use django_event_bus.Exceptions.{Error, Result, ok, err}
use django_event_bus.Platform.{Platform, Json}
use django_event_bus.Remote.Views.{Request, Response, Site}
use django_event_bus.Remote.Resources.{Serializer, Attributes}
use django_event_bus.Remote.Resources.Registry.{registry_resolver}
use django_event_bus.Remote.Resources.Resolving.{as_resolved}
use django_event_bus.Remote.Grpc.{
  StatusCode, resource_exhausted, unauthenticated, ResourceRequest, ResourceResponse, Context, Rpc,
  ResourceResolver,
}
use django_event_bus.Remote.Grpc.Chain.{authorization_of}

-- A response of the view beside what a client of the gRPC server gets: a message, or the status
-- of an aborted call.
pub data SameOutcome (p : Platform)
    : Result Response → Result ResourceResponse → Option (StatusCode × String) → Type 0 where
  over_limit :
      (body : Json) (x : Error) (details : String)
      → SameOutcome p
          (ok (record { status = 429; body = body }))
          (err x)
          (some (resource_exhausted, details))
  denied :
      (body : Json) (x : Error) (details : String)
      → SameOutcome p
          (ok (record { status = 401; body = body }))
          (err x)
          (some (unauthenticated, details))
  missing :
      (body : Json)
      → SameOutcome p
          (ok (record { status = 404; body = body }))
          (ok (record { found = false; data_json = [] }))
          none
  shown :
      (body : Json)
      → SameOutcome p
          (ok (record { status = 200; body = body }))
          (ok (record { found = true; data_json = p.json_dumps body }))
          none
  raised : (x : Error) → SameOutcome p (err x) (err x) none

abbrev pub Agrees :
    {C : Type 0} → Platform → Result Response × Site C → Result ResourceResponse × Rpc C → Type 0
Agrees p (h, s) (g, r) = (r.site.cache ≡ s.cache) × SameOutcome p h g r.aborted

-- The same call over HTTP.
abbrev pub http_request : ResourceRequest → Context → Request
http_request request context = record {
  remote_addr = some context.peer;
  authorization = authorization_of context;
  resource = request.resource;
  pk = request.pk;
}

-- The resolver by default, `registry_resolver`.
abbrev pub default_resolver :
    {R I : Type 0} ⦃is : Eq R⦄
    → (R → Serializer I)
    → Attributes I
    → Dict String R
    → ResourceResolver
default_resolver classes attributes registry resource pk =
    as_resolved (registry_resolver classes attributes registry resource pk)
