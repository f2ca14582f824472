-- ===== src/Remote/Views.antt =====
-- src/django_event_bus/remote/views.py, for a GET request. The models behind the resources are a
-- parameter: how a serializer class finds an instance by its key, and what it shows of it. The
-- audit log (remote/audit.py) is the list of its entries, the latest first.
pub mod Access
use django_event_bus.Prelude.{
  ℕ, String, string_eq, List, ◌∷◌, Bool, true, false, Option, none, some, if◌then◌else◌, ◌==◌,
}
use django_event_bus.Prelude.Dict.{Dict, get}
use django_event_bus.Exceptions.{
  Error, Result, ok, err, value_error, type_error, object_does_not_exist, validation_error,
}
use django_event_bus.Exceptions.Exec.{Exec, pure, raise, lift, modify, ◌>>=◌, ◌>>◌}
use django_event_bus.Platform.{Platform, Json, str, obj, end, field}
use django_event_bus.Remote.Auth.{AuthResult, BaseAuthBackend}
use django_event_bus.Remote.RateLimit.{
  Cache, RateLimitConfig, RawLimit, resolve_rate_limit_config, is_allowed,
}

pub record AccessEntry : Type 0 where
  pub transport : String
  pub granted : Bool
  pub peer : Option String
  pub resource : Option String
  pub pk : Option String
  pub caller : Option String
  pub reason : Option String

pub record Request : Type 0 where
  pub remote_addr : Option String
  pub authorization : Option String
  pub resource : String
  pub pk : String

pub record Response : Type 0 where
  pub status : ℕ
  pub body : Json

-- The cache and the audit log.
pub record Site (C : Type 0) : Type 0 where
  pub cache : C
  pub access_log : List AccessEntry

abbrev pub on_cache : {C A : Type 0} → Exec C A → Exec (Site C) A
on_cache m s = let (r, c) = m s.cache in (r, record s { cache = c })

abbrev pub log_access : {C : Type 0} → AccessEntry → Exec (Site C) (Unit {0})
log_access entry = modify (λ s. record s { access_log = entry ∷ s.access_log })

abbrev pub detail : String → Json
detail message = obj (field "detail" (str message) end)

-- The exceptions that mean "not found".
abbrev pub is_not_found : Error → Bool
is_not_found object_does_not_exist = true
is_not_found value_error = true
is_not_found type_error = true
is_not_found validation_error = true
is_not_found _ = false

-- `peer or "-"`.
abbrev pub peer_key : Option String → String
peer_key none = "-"
peer_key (some peer) = if peer == "" then "-" else peer

-- What the view looks up: the cache and the settings, the active authentication backend, the
-- exposed serializer classes, `get_queryset().get(pk=pk)` and `serializer_class(instance).data`.
pub record Service (C R I : Type 0) : Type 0 where
  pub cache : Cache C
  pub rate_limit : Option RawLimit
  pub backend : Result BaseAuthBackend
  pub registry : Dict String R
  pub get_instance : R → String → Result I
  pub represent : R → I → Result Json

module _ {C R I : Type 0} (p : Platform) (service : Service C R I) (now : ℕ)
    (request : Request) where
  abbrev pub on_limit : Option RateLimitConfig → Exec (Site C) Bool
  on_limit none = pure true
  on_limit (some c) = on_cache (is_allowed p service.cache c now (peer_key request.remote_addr))

  -- Whether the rate limit lets the request pass.
  unfoldable pub check_rate : Exec (Site C) Bool
  check_rate = lift (resolve_rate_limit_config service.rate_limit) >>= on_limit

  abbrev pub entry : Bool → Option String → Option String → AccessEntry
  entry granted caller reason = record {
    transport = "http";
    granted = granted;
    peer = request.remote_addr;
    resource = some request.resource;
    pk = some request.pk;
    caller = caller;
    reason = reason;
  }

  abbrev pub respond : ℕ → Json → Exec (Site C) Response
  respond status body = pure (record { status = status; body = body })

  abbrev pub on_instance : R → Result I → Exec (Site C) Response
  on_instance serializer (ok i) = lift (service.represent serializer i) >>= respond 200
  on_instance serializer (err x) =
      if is_not_found x then respond 404 (detail "not found") else raise x

  unfoldable pub serve : Option R → Exec (Site C) Response
  serve none = respond 404 (detail "unknown resource")
  serve (some serializer) = on_instance serializer (service.get_instance serializer request.pk)

  unfoldable pub authenticate : Result AuthResult
  authenticate = elim service.backend [ err x ↦ err x | ok b ↦ b request.authorization ]

  abbrev pub on_auth : AuthResult → Exec (Site C) Response
  on_auth r =
      if r.granted
      then (log_access (entry true r.caller none) >> serve (get request.resource service.registry))
      else (log_access (entry false none r.reason) >> respond 401 (detail "unauthorized"))

  abbrev pub on_rate : Bool → Exec (Site C) Response
  on_rate false =
      log_access (entry false none (some "rate limited")) >> respond 429 (detail "rate limited")
  on_rate true = lift authenticate >>= on_auth

  unfoldable pub resource_detail : Exec (Site C) Response
  resource_detail = check_rate >>= on_rate
