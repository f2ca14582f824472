-- ===== src/Remote/Grpc/Command.antt =====
-- src/django_event_bus/management/commands/remote_grpc_server.py. What a dotted path names is a
-- parameter.
use django_event_bus.Prelude.{
  ℕ, String, List, [], ◌∷◌, Bool, true, false, ◌&&◌, Option, none, some, if◌then◌else◌, ◌≡◌, refl,
  sym, ap, ◌∙◌, ◌<>◌, arith, Bool-cases, inl, inr,
}
use django_event_bus.Exceptions.{Result, ok, err, other}
use django_event_bus.Exceptions.Pure.{◌>>=◌, >>=-eq-ok, ok-injective}
use django_event_bus.Platform.{Platform, num, pos, format}
use django_event_bus.Remote.Auth.{BaseAuthBackend, is_set, or_empty, resolve_auth_backend}
use django_event_bus.Remote.RateLimit.{Cache, RateLimitConfig, RawLimit, resolve_rate_limit_config}
use django_event_bus.Remote.Grpc.{
  ResourceResolver, ResourceRequest, Context, ServerInterceptor, get_resource, authorized,
}
use django_event_bus.Remote.Grpc.Server.{
  ServeOptions, ServerCall, create, add_servicer, add_secure_port, add_insecure_port, serve,
  Pipeline, all_interceptors, effective_backend, server_options, answer_call,
}
use django_event_bus.Remote.Grpc.Chain.{
  authorization_of, behind_limit, answer_call-all_interceptors,
}

-- The settings of `REMOTE_DATA` that the command reads.
pub record ServerSettings : Type 0 where
  pub grpc_resolver : Option String
  pub grpc_server_credentials : Option String
  pub require_tls : Bool
  pub auth_backend : Option String
  pub auth_token : Option String
  pub rate_limit : Option RawLimit
  pub max_response_bytes : Option ℕ

abbrev pub is_none : Option String → Bool
is_none none = true
is_none (some s) = false

module _ {C : Type 0} where
  -- The ports that a server listens on, with the credentials of each.
  unfoldable pub ports : List (ServerCall C) → List (String × Option String)
  ports [] = []
  ports (add_secure_port address credentials ∷ calls) = (address, some credentials) ∷ ports calls
  ports (add_insecure_port address ∷ calls) = (address, none) ∷ ports calls
  ports (_ ∷ calls) = ports calls

module _ {C : Type 0} (p : Platform) (cache : Cache C) (now : ℕ)
    (import_resolver : String → Result ResourceResolver)
    (build_credentials : String → Result (Option String))
    (import_backend : String → Result BaseAuthBackend) (settings : ServerSettings) where
  unfoldable pub load_credentials : Result (Option String)
  load_credentials =
      if is_set settings.grpc_server_credentials
      then build_credentials (or_empty settings.grpc_server_credentials)
      else ok none

  unfoldable pub check_tls : Option String → Result (Unit {0})
  check_tls credentials =
      if settings.require_tls && is_none credentials then err (other 1) else ok tt

  abbrev pub options_for :
      (port : ℕ) → Option String → BaseAuthBackend → Option RateLimitConfig → ServeOptions C
  options_for port credentials backend limit = record {
    port = port;
    max_workers = 10;
    auth_token = none;
    auth_backend = some backend;
    credentials = credentials;
    interceptors = [];
    rate_limit = limit;
    max_message_bytes = settings.max_response_bytes;
  }

  abbrev pub start_server :
      ResourceResolver → (port : ℕ) → Option String → Result (List (ServerCall C))
  start_server resolve port credentials = do
    backend ← resolve_auth_backend import_backend settings.auth_backend settings.auth_token
    limit ← resolve_rate_limit_config settings.rate_limit
    ok (serve p cache now resolve (options_for port credentials backend limit))

  -- `handle`; CommandError is an `Exception`.
  unfoldable pub handle : (port : ℕ) → Result (List (ServerCall C))
  handle port =
      if is_set settings.grpc_resolver
      then (do
        resolve ← import_resolver (or_empty settings.grpc_resolver)
        credentials ← load_credentials
        _ ← check_tls credentials
        start_server resolve port credentials)
      else err (other 1)

  check_tls-ok :
      (credentials : Option String)
      → check_tls credentials ≡ ok tt
      → settings.require_tls ≡ true
      → is_none credentials ≡ false
  unfolding check_tls
  check_tls-ok none h required = absurd (ground (arith, required))
  check_tls-ok (some c) h required = refl

  -- A server that the command started.
  pub record Started (port : ℕ) (calls : List (ServerCall C)) : Type 0 where
    pub resolve : ResourceResolver
    pub imported : import_resolver (or_empty settings.grpc_resolver) ≡ ok resolve
    pub backend : BaseAuthBackend
    pub resolved :
        resolve_auth_backend import_backend settings.auth_backend settings.auth_token ≡ ok backend
    pub limit : Option RateLimitConfig
    pub limits : resolve_rate_limit_config settings.rate_limit ≡ ok limit
    pub credentials : Option String
    pub loaded : load_credentials ≡ ok credentials
    pub interceptors : List (ServerInterceptor C)
    pub workers : ℕ
    pub server_settings : Option (List (String × ℕ))
    pub others : List (ServerCall C)
    pub set_up :
        calls
        ≡ create workers interceptors server_settings
          ∷ add_servicer (get_resource p resolve (some backend))
          ∷ others
    -- A call on that server passes the rate limit, if there is one, then the backend, and then
    -- the servicer.
    pub answers :
        (pipeline : Pipeline C) (request : ResourceRequest) (context : Context)
        → answer_call pipeline interceptors (get_resource p resolve (some backend)) request context
          ≡ behind_limit p cache now limit
              (authorized backend
                (authorization_of context)
                (get_resource p resolve (some backend)))
              request
              context
    pub listens : ports calls ≡ ("[::]:" <> format p (num (pos port)), credentials) ∷ []
    pub encrypted : settings.require_tls ≡ true → is_none credentials ≡ false

  ports-serve :
      (resolve : ResourceResolver) (o : ServeOptions C) (credentials : Option String)
      → o.credentials ≡ credentials
      → ports (serve p cache now resolve o)
        ≡ ("[::]:" <> format p (num (pos o.port)), credentials) ∷ []
  unfolding ports serve
  ports-serve resolve o none h = rw h refl
  ports-serve resolve o (some c) h = rw h refl

  start_server-Started :
      (resolve : ResourceResolver) (port : ℕ) (credentials : Option String)
      (calls : List (ServerCall C))
      → import_resolver (or_empty settings.grpc_resolver) ≡ ok resolve
      → load_credentials ≡ ok credentials
      → check_tls credentials ≡ ok tt
      → start_server resolve port credentials ≡ ok calls
      → Started port calls
  unfolding serve effective_backend
  start_server-Started resolve port credentials calls imported loaded checked h =
      let (backend, asked, rest) =
        >>=-eq-ok (resolve_auth_backend import_backend settings.auth_backend settings.auth_token) _
          h in
      let (limit, limited, last) =
        >>=-eq-ok (resolve_rate_limit_config settings.rate_limit) _ rest in
      let served = sym (ok-injective last) in
      let o = options_for port credentials backend limit in
      record {
        resolve = resolve;
        imported = imported;
        backend = backend;
        resolved = asked;
        limit = limit;
        limits = limited;
        credentials = credentials;
        loaded = loaded;
        interceptors = all_interceptors p cache now o;
        workers = 10;
        server_settings = server_options p cache now settings.max_response_bytes;
        others = _;
        set_up = served;
        answers = λ pipeline request context.
            answer_call-all_interceptors p cache now pipeline
              (get_resource p resolve (some backend)) o request context refl;
        listens = ap ports served ∙ ports-serve resolve o credentials refl;
        encrypted = check_tls-ok credentials checked;
      }

  -- When the command starts a server, a call on that server passes the rate limit of the settings
  -- first, if they have one, then their authentication backend, then the servicer over their
  -- resolver, and no other check; it listens on one port only, with the credentials of the
  -- settings, and with some if the settings require TLS.
  pub handle-Started :
      (port : ℕ) (calls : List (ServerCall C)) → handle port ≡ ok calls → Started port calls
  unfolding handle
  handle-Started port calls h = elim (Bool-cases (is_set settings.grpc_resolver)) [
    | inr missing ↦
        let none_started : ◌≡◌ {A = Result (List (ServerCall C))} (err (other 1)) (ok calls) =
          rw missing at h in
        absurd (cc (none_started))
    | inl given ↦
        let (resolve, imported, found) =
          >>=-eq-ok (import_resolver (or_empty settings.grpc_resolver)) _ (rw given at h) in
        let (credentials, loaded, after_loading) = >>=-eq-ok load_credentials _ found in
        let (u, checked, rest) = >>=-eq-ok (check_tls credentials) _ after_loading in
        start_server-Started resolve port credentials calls imported loaded checked rest
  ]
