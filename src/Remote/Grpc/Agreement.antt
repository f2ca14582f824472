-- ===== src/Remote/Grpc/Agreement.antt =====
-- The HTTP view and the gRPC server decide alike.
use django_event_bus.Prelude.{
  ℕ, String, string_eq, [], ◌∷◌, Bool, true, false, Option, none, some, Eq, ◌≡◌, refl, sym, subst,
  Bool-cases, inl, inr,
}
use django_event_bus.Prelude.Dict.{Dict}
use django_event_bus.Exceptions.{Result, ok, err, other}
use django_event_bus.Exceptions.Exec.{lift, ◌>>=◌}
use django_event_bus.Platform.{Platform, Json, obj}
use django_event_bus.Remote.Auth.{AuthResult, BaseAuthBackend}
use django_event_bus.Remote.RateLimit.{RateLimitConfig, resolve_rate_limit_config, is_allowed}
use django_event_bus.Remote.Views as Views
use django_event_bus.Remote.Views.{
  Request, Response, Site, Service, detail, log_access, on_cache, peer_key, resource_detail,
}
use django_event_bus.Remote.Resources.{Serializer, Attributes, as_json}
use django_event_bus.Remote.Resources.Registry.{registry_resolver, get_registered_serializer}
use django_event_bus.Remote.Resources.Resolving.{
  Answers, exposing, as_resolved, serve-registry_resolver,
}
use django_event_bus.Remote.Grpc.{
  ResourceRequest, Context, Rpc, Behavior, get_resource, limited, authorized, respond_with,
  granted_entry,
}
use django_event_bus.Remote.Grpc.Server.{
  ServeOptions, Pipeline, all_interceptors, effective_backend, answer_call,
}
use django_event_bus.Remote.Grpc.Chain.{
  authorization_of, behind_limit, answer_call-all_interceptors,
}
use django_event_bus.Remote.Grpc.Outcomes.{
  over_limit, denied, missing, shown, raised, Agrees, http_request, default_resolver,
}

module _ {C R I : Type 0} ⦃is : Eq R⦄ (p : Platform) (classes : R → Serializer I)
    (attributes : Attributes I) (registry : Dict String R) (service : Service C R I) (now : ℕ)
    (request : ResourceRequest) (context : Context) where
  abbrev exposed : Service C R I
  exposed = exposing classes attributes registry service

  abbrev fresh : Site C → Rpc C
  fresh s = record { site = s; aborted = none }

  served :
      (s t : Site C) (r : Result (Option (Dict String Json))) (h : Result Response × Site C)
      → Answers classes attributes s r h
      → t.cache ≡ s.cache
      → Agrees p h (
          (lift (as_resolved r)
              >>= respond_with p (default_resolver classes attributes registry) none)
            (fresh t))
  served s t (err x) h a e = subst (λ q. Agrees p q (err x, fresh t)) (sym a) (e, raised x)
  served s t (ok none) h (message, a) e =
      subst (λ q. Agrees p q (ok (record { found = false; data_json = [] }), fresh t)) (sym a)
        (e, missing (detail message))
  served s t (ok (some d)) h a e =
      let body = obj (as_json d) in
      subst (λ q. Agrees p q (ok (record { found = true; data_json = p.json_dumps body }), fresh t))
        (sym a) (e, shown body)

  module _ (backend : BaseAuthBackend) where
    abbrev servicer : Behavior C
    servicer = get_resource p (default_resolver classes attributes registry) (some backend)

    logged : AuthResult → Site C → Site C
    logged r s = record s {
      access_log =
          Views.entry p exposed now (http_request request context) true r.caller none
          ∷ s.access_log;
    }

    logged_rpc : AuthResult → Site C → Site C
    logged_rpc r s = record s { access_log = granted_entry request context r.caller ∷ s.access_log }

    authenticated :
        (s : Site C) (auth : Result AuthResult)
        → backend (authorization_of context) ≡ auth
        → Agrees p
            ((lift auth >>= Views.on_auth p exposed now (http_request request context)) s)
            (authorized backend (authorization_of context) servicer request context (fresh s))
    unfolding authorized get_resource get_registered_serializer logged logged_rpc
    authenticated s (err x) e = rw e (refl, raised x)
    authenticated s (ok r) e = elim (Bool-cases r.granted) [
      | inr refused ↦ rw (e, refused) (refl, denied (detail "unauthorized") (other 0) _)
      | inl granted ↦
          rw (e, granted)
            (rw e (
              served (logged r s) (logged_rpc r s)
                (registry_resolver classes attributes registry request.resource request.pk) _
                (serve-registry_resolver classes attributes p service now
                  (http_request request context) registry (logged r s))
                refl))
    ]

    -- Behind the rate limit's answer.
    rated :
        (s : Site C)
        → service.backend ≡ ok backend
        → Agrees p
            (Views.on_rate p exposed now (http_request request context) true s)
            (authorized backend (authorization_of context) servicer request context (fresh s))
    unfolding Views.authenticate
    rated s e =
        subst
          (λ b.
            Agrees p
              ((lift (elim b [ err x ↦ err x | ok a ↦ a (authorization_of context) ])
                  >>= Views.on_auth p exposed now (http_request request context))
                s)
              (authorized backend (authorization_of context) servicer request context (fresh s)))
          (sym e) (authenticated s (backend (authorization_of context)) refl)

    checked :
        (s : Site C) (config : RateLimitConfig) (m : Result Bool × C)
        → is_allowed p service.cache config now (peer_key (some context.peer)) s.cache ≡ m
        → service.backend ≡ ok backend
        → Agrees p
            ((Views.on_limit p exposed now (http_request request context) (some config)
                >>= Views.on_rate p exposed now (http_request request context))
              s)
            (limited p service.cache config now
              (authorized backend (authorization_of context) servicer)
              request
              context
              (fresh s))
    unfolding limited
    checked s config (ok true, c) e e' = rw e (rated (record s { cache = c }) e')
    checked s config (ok false, c) e e' =
        rw e (refl, over_limit (detail "rate limited") (other 0) "rate limit exceeded")
    checked s config (err x, c) e e' = rw e (refl, raised x)

    -- The server that the command starts (the rate limit and the backend of the settings, no
    -- further interceptor) and the HTTP view treat the same call alike: an exhausted rate limit is
    -- the status 429 and RESOURCE_EXHAUSTED, a refused caller 401 and UNAUTHENTICATED, an unknown
    -- resource or key 404 and `found` false, and anything else 200 and `found` true with the same
    -- JSON, or the same exception; the cache is left the same.
    pub resource_detail-get_resource :
        (pipeline : Pipeline C) (o : ServeOptions C) (limit : Option RateLimitConfig) (s : Site C)
        → resolve_rate_limit_config service.rate_limit ≡ ok limit
        → service.backend ≡ ok backend
        → let o' = record o {
          rate_limit = limit;
          auth_backend = some backend;
          interceptors = [];
        } in
          Agrees p (resource_detail p exposed now (http_request request context) s) (
            answer_call pipeline
              (all_interceptors p service.cache now o')
              (get_resource p (default_resolver classes attributes registry) (effective_backend o'))
              request
              context
              (fresh s))
    unfolding resource_detail Views.check_rate effective_backend
    resource_detail-get_resource pipeline o limit s e e' =
        let o' : ServeOptions C = record o {
          rate_limit = limit;
          auth_backend = some backend;
          interceptors = [];
        } in
        subst
          (λ f.
            Agrees p (resource_detail p exposed now (http_request request context) s) (f (fresh s)))
          (sym (
            answer_call-all_interceptors p service.cache now pipeline servicer o' request context
              refl))
          (subst
            (λ raw.
              Agrees p
                (((lift raw >>= Views.on_limit p exposed now (http_request request context))
                    >>= Views.on_rate p exposed now (http_request request context))
                  s)
                (behind_limit p service.cache now limit
                  (authorized backend (authorization_of context) servicer) request context
                  (fresh s)))
            (sym e) (of limit))
      where
        of :
            (l : Option RateLimitConfig)
            → Agrees p
                ((Views.on_limit p exposed now (http_request request context) l
                    >>= Views.on_rate p exposed now (http_request request context))
                  s)
                (behind_limit p service.cache now l
                  (authorized backend (authorization_of context) servicer)
                  request
                  context
                  (fresh s))
        of none = rated s e'
        of (some config) = checked s config _ refl e'
