-- ===== src/Examples/OnTransports.antt =====
-- The transports against small peers.
use django_event_bus.Prelude.{
  String, Bool, false, Option, ◌&&◌, ℕ, ◌≤◌, string_eq, List, [], ◌∷◌, true, Option, none, some,
  nat_beq, if◌then◌else◌, ◌==◌, ◌≡◌, refl, ap, arith,
}
use django_event_bus.Prelude.Lists.{length}
use django_event_bus.Prelude.Dict.{get, put}
use django_event_bus.Exceptions.{Result, ok, err, connection_lost}
use django_event_bus.Platform.{Json, Bytes, str}
use django_event_bus.Remote.Fields.{Reference}
use django_event_bus.Remote.Grpc.{ResourceResponse, ResourceResolver}
use django_event_bus.Remote.Transports.{ServiceConfig, TransportSettings, registry_entry}
use django_event_bus.Remote.Transports.Http.{HttpGet, HttpResponse, read_body}
use django_event_bus.Remote.Transports.Http as Http
use django_event_bus.Remote.Transports.Http.Bounded.{Reads, read_body-Reads}
use django_event_bus.Remote.Transports.Http.Fetching.{Sent, fetch-Sent, fetch_url-broken}
use django_event_bus.Remote.Transports.Grpc as Grpc
use django_event_bus.Remote.Transports.Grpc.{Call}
use django_event_bus.Remote.Transports.Grpc.Channels.{Fetched, fetch-Fetched}
use django_event_bus.Remote.Transports.Grpc.Opening.{Valid}
use django_event_bus.Remote.Transports.Grpc.EndToEnd.{answers_of, delivered, fetch-delivered}
use django_event_bus.Examples.Values.{platform, user_created, fields_of}
use django_event_bus.Examples.OnRemote.{one_counter, site}
use django_event_bus.Examples.OnGrpc.{in_order, options}

abbrev config : ServiceConfig
config = record {
  base_url = some "https://auth.example/api//";
  target = some "auth.example:50051";
  credentials = some "certificate";
  auth_token = some "s3cret";
  headers = none;
  timeout = none;
  max_response_bytes = some 3;
}

abbrev settings : TransportSettings
settings = record {
  service_registry = ("auth", ("http", config) ∷ ("grpc", config) ∷ []) ∷ [];
  require_tls = true;
  max_response_bytes = 2000;
  default_transport = "http";
}

abbrev user_seven : Reference
user_seven = record { service = "auth"; resource = "users"; pk = str "7" }

-- A peer that never stops sending.
abbrev endless : ℕ → Result (Option Bytes)
endless n = ok (some (65 ∷ 66 ∷ []))

endless-blocks : (n : ℕ) (chunk : Bytes) → endless n ≡ ok (some chunk) → 1 ≤ length chunk
endless-blocks n chunk h = ground (arith, h)

read_body-Reads_example :
    Reads endless 3 0 [] (read_body endless 3)
    × ((whole : Bytes) → read_body endless 3 ≡ ok whole → length whole ≤ 3)
read_body-Reads_example = read_body-Reads endless 3 endless-blocks

-- A peer whose connection breaks after the first block.
abbrev breaking : ℕ → Result (Option Bytes)
breaking n = if nat_beq n 0 then ok (some (65 ∷ [])) else err connection_lost

abbrev answer_with : (ℕ → Result (Option Bytes)) → List HttpGet → Result HttpResponse
answer_with content sent = ok (record { status_code = 200; is_ok = true; content = content })

abbrev idle : Http.Wire
idle = record { sent = []; opened = 0; closed = 0 }

fetch-Sent_example :
    Sent platform settings
      (answer_with endless)
      idle
      (Http.fetch platform settings (answer_with endless) user_seven idle).1
fetch-Sent_example = fetch-Sent platform settings (answer_with endless) user_seven idle

abbrev get_seven : HttpGet
get_seven = record { url = "https://auth.example/api/users/7/"; timeout = 3; headers = none }

breaks : read_body breaking 3 ≡ err connection_lost
unfolding Http.read_bounded
breaks = refl

fetch_url-broken_example :
    (Http.fetch_url platform settings (answer_with breaking) config get_seven idle).0
    ≡ err connection_lost
fetch_url-broken_example =
    fetch_url-broken platform settings (answer_with breaking) config get_seven idle
      (record { status_code = 200; is_ok = true; content = breaking }) connection_lost refl refl
      refl breaks

-- The slashes at the end of the base URL are stripped, and the token is in the header.
sent_to : (Http.fetch platform settings (answer_with breaking) user_seven idle).1 ≡ record {
  sent =
      (record {
        url = "https://auth.example/api/users/7/";
        timeout = 3;
        headers = some (("Authorization", "Bearer s3cret") ∷ []);
      })
      ∷ [];
  opened = 1;
  closed = 1;
}
unfolding Http.fetch Http.fetch_base Http.send_get Http.read_response Http.get_request
    Http.request_headers Http.set_default Http.strip_turns Http.read_bounded registry_entry get put
sent_to = refl

abbrev unopened : Grpc.Wire
unopened = record { channels = []; opened = []; closed = []; calls = [] }

unopened-Valid : Valid settings unopened
unfolding get
unopened-Valid = record { configured = λ service channel e. absurd (cc (e)); counted = refl }

abbrev resolver : ResourceResolver
resolver resource pk = if pk == "7" then ok (some (fields_of user_created)) else ok none

-- The server listens at one address, behind a certificate.
abbrev at_home : String → Option String → Bool
at_home target none = false
at_home target (some credentials) = target == "auth.example:50051" && credentials == "certificate"

abbrev answers : List Call → Result ResourceResponse
answers =
    answers_of platform one_counter 130 in_order resolver "ipv4:10.0.0.7:4711" site
      (record options {
        auth_token = some "s3cret";
        auth_backend = none;
        rate_limit = none;
        interceptors = [];
      })
      at_home

fetch-Fetched_example :
    Fetched settings user_seven unopened
      (Grpc.fetch platform settings answers user_seven unopened).1
fetch-Fetched_example = fetch-Fetched settings platform answers user_seven unopened unopened-Valid

decodes :
    (d : Json)
    → resolver "users" "7" ≡ ok (some d)
    → platform.json_loads (platform.json_dumps d) ≡ ok d
decodes d h = ap (λ r. or_nothing r) h
  where
    or_nothing : Result (Option Json) → Result Json
    or_nothing (ok (some v)) = ok v
    or_nothing r = err connection_lost

configured : registry_entry settings.service_registry "auth" "grpc" ≡ ok config
unfolding registry_entry get
configured = refl

fetch-delivered_example :
    (Grpc.fetch platform settings answers user_seven unopened).0 ≡ delivered (resolver "users" "7")
fetch-delivered_example =
    fetch-delivered platform one_counter 130 in_order resolver "ipv4:10.0.0.7:4711" site options
      "s3cret" refl refl at_home settings user_seven config "auth.example:50051" unopened configured
      refl refl refl refl unopened-Valid decodes
