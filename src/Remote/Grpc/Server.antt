-- ===== src/Remote/Grpc/Server.antt =====
-- src/django_event_bus/remote/grpc_server.py: `serve`, and a call on the server that it sets up.
-- The calls that `serve` makes of the gRPC library are a list, in their order; the signals that
-- stop the server are not modelled. How the library runs interceptors is a parameter.
use django_event_bus.Prelude.{
  ℕ, String, string_eq, ◌<>◌, List, [], ◌∷◌, ◌++◌, Option, none, some, if◌then◌else◌, ◌≡◌,
}
use django_event_bus.Platform.{Platform, num, pos, format}
use django_event_bus.Remote.Auth.{BaseAuthBackend, static_token, is_set, or_empty}
use django_event_bus.Remote.RateLimit.{Cache, RateLimitConfig}
use django_event_bus.Remote.Grpc.{
  unimplemented, Behavior, RpcMethodHandler, unary_unary, streaming, Continuation,
  ServerInterceptor, abort, rate_limit_interceptor, auth_interceptor, ResourceResolver,
  get_resource,
}

-- The arguments of `serve`. A text stands for the credentials.
pub record ServeOptions (C : Type 0) : Type 0 where
  pub port : ℕ
  pub max_workers : ℕ
  pub auth_token : Option String
  pub auth_backend : Option BaseAuthBackend
  pub credentials : Option String
  pub interceptors : List (ServerInterceptor C)
  pub rate_limit : Option RateLimitConfig
  pub max_message_bytes : Option ℕ

-- The calls that set up a server, and those that run and stop it.
pub data ServerCall (C : Type 0) : Type 0 where
  create :
      (max_workers : ℕ)
      → List (ServerInterceptor C)
      → (options : Option (List (String × ℕ))) → ServerCall C
  add_servicer : Behavior C → ServerCall C
  add_secure_port : (address credentials : String) → ServerCall C
  add_insecure_port : (address : String) → ServerCall C
  start wait : ServerCall C
  stop : (grace : ℕ) → ServerCall C

module _ {C : Type 0} where
  unfoldable pub effective_backend : ServeOptions C → Option BaseAuthBackend
  effective_backend o = elim (o.auth_backend) [
    | some backend ↦ some backend
    | none ↦ if is_set o.auth_token then some (static_token (or_empty o.auth_token)) else none
  ]

  abbrev pub if_given :
      {A : Type 0} → (A → ServerInterceptor C) → Option A → List (ServerInterceptor C)
  if_given make none = []
  if_given make (some a) = make a ∷ []

module _ {C : Type 0} (p : Platform) (cache : Cache C) (now : ℕ) where
  unfoldable pub all_interceptors : ServeOptions C → List (ServerInterceptor C)
  all_interceptors o =
      if_given (λ config. rate_limit_interceptor p cache config now) o.rate_limit
      ++ (if_given auth_interceptor (effective_backend o) ++ o.interceptors)

  unfoldable pub server_options : Option ℕ → Option (List (String × ℕ))
  server_options none = none
  server_options (some n) =
      some (("grpc.max_receive_message_length", n) ∷ ("grpc.max_send_message_length", n) ∷ [])

  abbrev pub add_port : Option String → String → ServerCall C
  add_port none address = add_insecure_port address
  add_port (some credentials) address = add_secure_port address credentials

  -- `serve`.
  unfoldable pub serve : ResourceResolver → ServeOptions C → List (ServerCall C)
  serve resolve o =
      create o.max_workers (all_interceptors o) (server_options o.max_message_bytes)
      ∷ add_servicer (get_resource p resolve (effective_backend o))
      ∷ add_port o.credentials ("[::]:" <> format p (num (pos o.port)))
      ∷ start
      ∷ wait
      ∷ stop 5
      ∷ []

-- What gRPC does with the interceptors of a server: it passes on to each the rest of them.
pub record Pipeline (C : Type 0) : Type 0 where
  pub run_all : List (ServerInterceptor C) → Continuation C → Continuation C
  pub run_none : (last : Continuation C) → run_all [] last ≡ last
  pub run_first :
      (first : ServerInterceptor C) (others : List (ServerInterceptor C)) (last : Continuation C)
      → run_all (first ∷ others) last ≡ first (run_all others last)

module _ {C : Type 0} where
  -- What gRPC does with the handler that it got.
  abbrev pub run_handler : Option (RpcMethodHandler C) → Behavior C
  run_handler none request context = abort unimplemented ""
  run_handler (some streaming) request context = abort unimplemented ""
  run_handler (some (unary_unary behavior)) request context = behavior request context

module _ {C : Type 0} (pipeline : Pipeline C) where
  -- A call of `GetResource` on a server with these interceptors and this servicer.
  unfoldable pub answer_call : List (ServerInterceptor C) → Behavior C → Behavior C
  answer_call interceptors servicer request context =
      run_handler
        (pipeline.run_all interceptors (λ details. some (unary_unary servicer)) context.metadata)
        request context
