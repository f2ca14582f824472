-- ===== src/Remote/Grpc/Chain.antt =====
-- A call of `GetResource` passes the rate limit first, then the authentication, then the servicer.
use django_event_bus.Prelude.{
  ℕ, String, string_eq, List, [], ◌∷◌, ◌++◌, Option, none, some, ◌≡◌, ap, ◌∙◌,
}
use django_event_bus.Prelude.Dict.{get}
use django_event_bus.Exceptions.Exec.{Exec}
use django_event_bus.Platform.{Platform}
use django_event_bus.Remote.Auth.{BaseAuthBackend}
use django_event_bus.Remote.RateLimit.{Cache, RateLimitConfig}
use django_event_bus.Remote.Grpc.{
  Rpc, ResourceResponse, Behavior, ResourceRequest, Context, Continuation, ServerInterceptor,
  metadata_dict, rate_limit_interceptor, auth_interceptor, limited, authorized, wrap_unary_unary,
  unary_unary,
}
use django_event_bus.Remote.Grpc.Server.{
  Pipeline, ServeOptions, if_given, all_interceptors, effective_backend, run_handler, answer_call,
}

abbrev pub authorization_of : Context → Option String
authorization_of context = get "authorization" (metadata_dict context.metadata)

module _ {C : Type 0} (p : Platform) (cache : Cache C) (now : ℕ) where
  abbrev pub behind_limit : Option RateLimitConfig → Behavior C → Behavior C
  behind_limit none behavior = behavior
  behind_limit (some config) behavior = limited p cache config now behavior

  abbrev pub behind_auth : Option String → Option BaseAuthBackend → Behavior C → Behavior C
  behind_auth authorization none behavior = behavior
  behind_auth authorization (some backend) behavior = authorized backend authorization behavior

  -- A server without further interceptors runs these checks around its servicer.
  pub answer_call-all_interceptors :
      (pipeline : Pipeline C) (servicer : Behavior C) (o : ServeOptions C)
      (request : ResourceRequest) (context : Context)
      → o.interceptors ≡ []
      → answer_call pipeline (all_interceptors p cache now o) servicer request context
        ≡ behind_limit o.rate_limit
            (behind_auth (authorization_of context) (effective_backend o) servicer)
            request
            context
  unfolding answer_call all_interceptors wrap_unary_unary
  answer_call-all_interceptors pipeline servicer o request context plain =
      ap
        (λ l. answer (
          if_given (λ config. rate_limit_interceptor p cache config now) o.rate_limit
          ++ (if_given auth_interceptor (effective_backend o) ++ l)))
        plain
      ∙ of o.rate_limit (effective_backend o)
    where
      last : Continuation C
      last details = some (unary_unary servicer)

      answer : List (ServerInterceptor C) → Exec (Rpc C) ResourceResponse
      answer l = run_handler (pipeline.run_all l last context.metadata) request context

      through :
          {f g : Continuation C}
          → f ≡ g
          → run_handler (f context.metadata) request context
            ≡ run_handler (g context.metadata) request context
      through e = ap (λ f. run_handler (f context.metadata) request context) e

      of :
          (limit : Option RateLimitConfig) (backend : Option BaseAuthBackend)
          → answer (
              if_given (λ config. rate_limit_interceptor p cache config now) limit
              ++ (if_given auth_interceptor backend ++ []))
            ≡ behind_limit limit
                (behind_auth (authorization_of context) backend servicer)
                request
                context
      of none none = through (pipeline.run_none last)
      of none (some b) = through (
          pipeline.run_first (auth_interceptor b) [] last
          ∙ ap (auth_interceptor b) (pipeline.run_none last))
      of (some c) none = through (
          pipeline.run_first (rate_limit_interceptor p cache c now) [] last
          ∙ ap (rate_limit_interceptor p cache c now) (pipeline.run_none last))
      of (some c) (some b) = through (
          pipeline.run_first (rate_limit_interceptor p cache c now) (auth_interceptor b ∷ []) last
          ∙ ap (rate_limit_interceptor p cache c now) (
              pipeline.run_first (auth_interceptor b) [] last
              ∙ ap (auth_interceptor b) (pipeline.run_none last)))
