-- ===== src/Examples/OnGrpc.antt =====
-- The gRPC server over the exposed users.
use django_event_bus.Prelude.{
  ℕ, String, string_eq, nat_eq, List, [], ◌∷◌, true, false, none, some, ◌≡◌, refl,
}
use django_event_bus.Prelude.Dict.{Dict, get, put}
use django_event_bus.Exceptions.{ok}
use django_event_bus.Platform.{num, pos}
use django_event_bus.Remote.Auth.{
  BaseAuthBackend, static_token, compare_digest, resolve_auth_backend,
}
use django_event_bus.Remote.RateLimit.{
  RateLimitConfig, cache_key, count_call, is_allowed, resolve_rate_limit_config,
}
use django_event_bus.Remote.Views.{Service, Site, peer_key, resource_detail}
use django_event_bus.Remote.Resources.Resolving.{Answers, exposing, serve-registry_resolver}
use django_event_bus.Remote.Resources.Registry.{get_registered_serializer, registry_resolver}
use django_event_bus.Remote.Views as Views
use django_event_bus.Remote.Grpc.{
  Continuation, ServerInterceptor, ResourceRequest, ResourceResponse, Context, Rpc,
  ResourceResolver, get_resource, limited, authorized, metadata_dict, put_all, wrap_unary_unary,
}
use django_event_bus.Remote.Grpc.Server.{
  Pipeline, ServeOptions, ServerCall, all_interceptors, effective_backend, answer_call, serve,
}
use django_event_bus.Remote.Grpc.Command.{
  ServerSettings, load_credentials, check_tls, handle, Started, handle-Started,
}
use django_event_bus.Remote.Grpc.Outcomes.{Agrees, http_request, default_resolver}
use django_event_bus.Remote.Grpc.Agreement.{resource_detail-get_resource}
use django_event_bus.Remote.Grpc.Audit.{Audited, answer_call-Audited}
use django_event_bus.Examples.Values.{platform}
use django_event_bus.Examples.OnRemote.{one_counter, site}
use django_event_bus.Examples.OnResources.{classes, attributes}

unfoldable pub run_all : List (ServerInterceptor ℕ) → Continuation ℕ → Continuation ℕ
run_all [] last = last
run_all (first ∷ others) last = first (run_all others last)

pub run_none : (last : Continuation ℕ) → run_all [] last ≡ last
unfolding run_all
run_none last = refl

pub run_first :
    (first : ServerInterceptor ℕ) (others : List (ServerInterceptor ℕ)) (last : Continuation ℕ)
    → run_all (first ∷ others) last ≡ first (run_all others last)
unfolding run_all
run_first first others last = refl

abbrev pub in_order : Pipeline ℕ
in_order = record { run_all = run_all; run_none = run_none; run_first = run_first }

abbrev registry : Dict String ℕ
registry = ("users", 1) ∷ []

abbrev backend : BaseAuthBackend
backend = static_token "s3cret"

abbrev service : Service ℕ ℕ ℕ
service = record {
  cache = one_counter;
  rate_limit = some (record { limit = some 2; window_seconds = none });
  backend = ok backend;
  registry = [];
  get_instance = λ c pk. ok 0;
  represent = λ c i. ok (num (pos i));
}

abbrev request : ResourceRequest
request = record { resource = "users"; pk = "7" }

abbrev context : Context
context = record {
  peer = "ipv4:10.0.0.7:4711";
  metadata = some (("authorization", "Bearer s3cret") ∷ []);
}

abbrev limit : RateLimitConfig
limit = record { limit = 2; window_seconds = 60 }

abbrev pub options : ServeOptions ℕ
options = record {
  port = 50051;
  max_workers = 10;
  auth_token = none;
  auth_backend = some backend;
  credentials = none;
  interceptors = [];
  rate_limit = some limit;
  max_message_bytes = none;
}

two_a_minute_resolved : resolve_rate_limit_config service.rate_limit ≡ ok (some limit)
unfolding resolve_rate_limit_config
two_a_minute_resolved = refl

serve-registry_resolver_example :
    Answers classes attributes site (registry_resolver classes attributes registry "users" "7") (
      Views.serve platform
        (exposing classes attributes registry service)
        130
        (http_request request context)
        (get_registered_serializer "users" registry)
        site)
serve-registry_resolver_example =
    serve-registry_resolver classes attributes platform service 130 (http_request request context)
      registry site

resource_detail-get_resource_example :
    Agrees platform
      (resource_detail platform
        (exposing classes attributes registry service)
        130
        (http_request request context)
        site)
      (answer_call in_order
        (all_interceptors platform one_counter 130 options)
        (get_resource platform
          (default_resolver classes attributes registry)
          (effective_backend options))
        request
        context
        (record { site = site; aborted = none }))
resource_detail-get_resource_example =
    resource_detail-get_resource platform classes attributes registry service 130 request context
      backend in_order options (some limit) site two_a_minute_resolved refl

abbrev answered : Rpc ℕ
answered = record {
  site = record {
    cache = 1;
    access_log =
        (record {
          transport = "grpc";
          granted = true;
          peer = some "ipv4:10.0.0.7:4711";
          resource = some "users";
          pk = some "7";
          caller = some "shared-token";
          reason = none;
        })
        ∷ [];
  };
  aborted = none;
}

-- A resolver that knows nothing.
abbrev nowhere : ResourceResolver
nowhere resource pk = ok none

abbrev missing : ResourceResponse
missing = record { found = false; data_json = [] }

answers :
    answer_call in_order
      (all_interceptors platform one_counter 130 options)
      (get_resource platform nowhere (effective_backend options))
      request
      context
      (record { site = site; aborted = none })
    ≡ (ok missing, answered)
unfolding answer_call all_interceptors get_resource effective_backend limited authorized
    wrap_unary_unary metadata_dict put_all static_token compare_digest run_all get put is_allowed
    count_call cache_key
answers = refl

answer_call-Audited_example :
    Audited request context platform one_counter 130 nowhere options
      (record { site = site; aborted = none })
      answered
      missing
answer_call-Audited_example =
    answer_call-Audited request context platform one_counter 130 in_order nowhere options
      (record { site = site; aborted = none }) answered missing refl answers

abbrev settings : ServerSettings
settings = record {
  grpc_resolver = some "accounts.resolve";
  grpc_server_credentials = some "accounts.credentials";
  require_tls = true;
  auth_backend = none;
  auth_token = some "s3cret";
  rate_limit = none;
  max_response_bytes = none;
}

abbrev calls : List (ServerCall ℕ)
calls =
    serve platform one_counter 130 nowhere
      (record options { credentials = some "certificate"; rate_limit = none })

started :
    handle platform one_counter 130
      (λ path. ok nowhere)
      (λ path. ok (some "certificate"))
      (λ path. ok backend)
      settings
      50051
    ≡ ok calls
unfolding handle load_credentials check_tls resolve_auth_backend resolve_rate_limit_config
started = refl

handle-Started_example :
    Started platform one_counter 130
      (λ path. ok nowhere)
      (λ path. ok (some "certificate"))
      (λ path. ok backend)
      settings
      50051
      calls
handle-Started_example =
    handle-Started platform one_counter 130 (λ path. ok nowhere) (λ path. ok (some "certificate"))
      (λ path. ok backend) settings 50051 calls started
