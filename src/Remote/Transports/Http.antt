-- ===== src/Remote/Transports/Http.antt =====
-- src/django_event_bus/remote/transports/http.py. The library `requests` is a parameter: what it
-- answers, which may depend on what was sent before. Its `RequestException` is `connection_lost`.
pub mod Bounded
pub mod Fetching
use Prim.Native.String.{len, slice}
use text.Mathlib.Text.{starts_with}
use django_event_bus.Prelude.{
  ℕ, zero, suc, ◌+◌, ◌-◌, String, string_eq, ◌<>◌, List, [], ◌∷◌, ◌++◌, Bool, true, false, not,
  ◌&&◌, Option, none, some, if◌then◌else◌, ◌==◌, ltb, leb, nat_beq,
}
use django_event_bus.Prelude.Lists.{length}
use django_event_bus.Prelude.Dict.{Dict, get, put}
use django_event_bus.Exceptions.{
  Error, Result, ok, err, service_unavailable, service_misconfigured, connection_lost, other,
}
use django_event_bus.Exceptions.Exec.{
  Exec, pure, raise, lift, modify, try_except, try_finally, ◌>>=◌, ◌>>◌,
}
use django_event_bus.Platform.{Platform, Json, Bytes, format}
use django_event_bus.Remote.Auth.{bearer_prefix, is_set, or_empty}
use django_event_bus.Remote.Fields.{Reference}
use django_event_bus.Remote.Transports.{
  ServiceConfig, TransportSettings, BaseTransport, is_connection_lost, unavailable_if, decode_json,
  required, or_default, registry_entry,
}

-- `requests.get(url, timeout=timeout, headers=headers, stream=True)`.
pub record HttpGet : Type 0 where
  pub url : String
  pub timeout : ℕ
  pub headers : Option (Dict String String)

-- `status_code`, `ok`, and what the n-th turn of `iter_content` does: a block, the end, or a raise.
pub record HttpResponse : Type 0 where
  pub status_code : ℕ
  pub is_ok : Bool
  pub content : ℕ → Result (Option Bytes)

-- What was sent, the latest first, and how many responses were opened and closed.
pub record Wire : Type 0 where
  pub sent : List HttpGet
  pub opened : ℕ
  pub closed : ℕ

-- `text.rstrip("/")`, with as many turns as the text has bytes.
unfoldable pub strip_turns : ℕ → String → String
strip_turns zero s = s
strip_turns (suc turns) s =
    let rest = strip_turns turns (slice s 0 (len s - 1)) in
    if slice s (len s - 1) (len s) == "/" then rest else s

abbrev pub rstrip_slash : String → String
rstrip_slash s = strip_turns (len s) s

-- One turn of the loop of `_read_bounded`, and the loop from the n-th block on.
abbrev pub on_block :
    (max_bytes : ℕ) → Bytes → (more : Bytes → Result Bytes) → Result (Option Bytes) → Result Bytes
on_block max_bytes body more (err x) = err x
on_block max_bytes body more (ok none) = ok body
on_block max_bytes body more (ok (some chunk)) =
    let longer = body ++ chunk in
    if ltb max_bytes (length longer) then err service_unavailable else more longer

unfoldable pub read_bounded :
    (ℕ → Result (Option Bytes)) → (max_bytes fuel n : ℕ) → Bytes → Result Bytes
read_bounded content max_bytes zero n body = err (other 0)
read_bounded content max_bytes (suc fuel) n body =
    on_block max_bytes body (λ longer. read_bounded content max_bytes fuel (n + 1) longer)
      (content n)

-- One turn more than the bytes that are let through.
abbrev pub read_body : (ℕ → Result (Option Bytes)) → ℕ → Result Bytes
read_body content max_bytes = read_bounded content max_bytes (max_bytes + 1) 0 []

-- `headers.setdefault("Authorization", f"Bearer {auth_token}")`.
unfoldable pub set_default : String → String → Dict String String → Dict String String
set_default k v d = elim (get k d) [ none ↦ put k v d | some w ↦ d ]

-- `config.get("headers") or {}`.
abbrev pub given_headers : Option (Dict String String) → Dict String String
given_headers none = []
given_headers (some d) = d

unfoldable pub request_headers : ServiceConfig → Dict String String
request_headers c =
    let headers = given_headers c.headers in
    if is_set c.auth_token
    then set_default "Authorization" (bearer_prefix <> or_empty c.auth_token) headers
    else headers

-- `headers or None`.
abbrev pub or_none : Dict String String → Option (Dict String String)
or_none [] = none
or_none (h ∷ d) = some (h ∷ d)

module _ (p : Platform) (settings : TransportSettings)
    (on_get : List HttpGet → Result HttpResponse) where
  -- `requests.get`: a response that it returns is open.
  unfoldable pub send_get : HttpGet → Exec Wire HttpResponse
  send_get g = modify (λ w. record w { sent = g ∷ w.sent }) >> (λ w. elim (on_get w.sent) [
    | err x ↦ (err x, w)
    | ok response ↦ (ok response, record w { opened = w.opened + 1 })
  ])

  abbrev pub close_response : Exec Wire (Unit {0})
  close_response = modify (λ w. record w { closed = w.closed + 1 })

  -- The `try` of `fetch`; none is its `return None`.
  unfoldable pub read_response : ServiceConfig → HttpResponse → Result (Option Bytes)
  read_response c response =
      if nat_beq response.status_code 404
      then ok none
      else (if response.is_ok
          then elim (read_body response.content
              (or_default settings.max_response_bytes c.max_response_bytes)) [
                | ok body ↦ ok (some body)
                | err x ↦ err x
              ]
          else err service_unavailable)

  abbrev pub decode_body : Option Bytes → Exec Wire (Option Json)
  decode_body none = pure none
  decode_body (some body) = decode_json p body

  unfoldable pub get_request : Reference → ServiceConfig → String → HttpGet
  get_request r c base = record {
    url = base <> "/" <> r.resource <> "/" <> format p r.pk <> "/";
    timeout = or_default 3 c.timeout;
    headers = or_none (request_headers c);
  }

  abbrev pub fetch_url : ServiceConfig → HttpGet → Exec Wire (Option Json)
  fetch_url c g = try_except (send_get g) (unavailable_if is_connection_lost) >>= λ response.
      try_finally (lift (read_response c response)) close_response >>= decode_body

  unfoldable pub fetch_base : Reference → ServiceConfig → String → Exec Wire (Option Json)
  fetch_base r c base =
      if settings.require_tls && not (starts_with base "https://")
      then raise service_misconfigured
      else fetch_url c (get_request r c base)

  unfoldable pub fetch : Reference → Exec Wire (Option Json)
  fetch r = lift (registry_entry settings.service_registry r.service "http") >>= λ c.
      lift (required c.base_url) >>= λ url. fetch_base r c (rstrip_slash url)

  -- `HTTPTransport`.
  abbrev pub http_transport : BaseTransport Wire
  http_transport = record { fetch = fetch; close = pure tt }
