-- ===== src/Remote/Grpc.antt =====
-- src/django_event_bus/remote/grpc_server.py: the servicer and the interceptors.
pub mod Server
pub mod Command
pub mod Chain
pub mod Outcomes
pub mod Agreement
pub mod Answers
pub mod Audit
use django_event_bus.Prelude.{
  ℕ, String, string_eq, ◌<>◌, List, [], ◌∷◌, ◌++◌, Bool, true, false, not, Option, none, some,
  if◌then◌else◌, ◌==◌, ◌≡◌,
}
use django_event_bus.Prelude.Dict.{Dict, get, put}
use django_event_bus.Exceptions.{Result, ok, err, other}
use django_event_bus.Exceptions.Exec.{Exec, pure, raise, lift, ◌>>=◌, ◌>>◌}
use django_event_bus.Platform.{Platform, Json, Bytes, num, pos, format}
use django_event_bus.Remote.Auth.{
  AuthResult, BaseAuthBackend, allow_all, static_token, is_set, or_empty,
}
use django_event_bus.Remote.RateLimit.{Cache, RateLimitConfig, is_allowed}
use django_event_bus.Remote.Views.{AccessEntry, Site, on_cache, log_access, peer_key}

pub data StatusCode : Type 0 where
  resource_exhausted unauthenticated unimplemented : StatusCode

pub record ResourceRequest : Type 0 where
  pub resource : String
  pub pk : String

-- `data_json` is the text's bytes.
pub record ResourceResponse : Type 0 where
  pub found : Bool
  pub data_json : Bytes

abbrev pub Metadata : Type 0
Metadata = List (String × String)

-- `peer()` and `invocation_metadata()`.
pub record Context : Type 0 where
  pub peer : String
  pub metadata : Option Metadata

-- The cache and the audit log, and the status with which a call was aborted.
pub record Rpc (C : Type 0) : Type 0 where
  pub site : Site C
  pub aborted : Option (StatusCode × String)

-- `dict(metadata or ())`.
unfoldable pub put_all : Metadata → Dict String String → Dict String String
put_all [] d = d
put_all ((k, v) ∷ m) d = put_all m (put k v d)

unfoldable pub metadata_dict : Option Metadata → Dict String String
metadata_dict none = []
metadata_dict (some m) = put_all m []

module _ {C : Type 0} where
  abbrev pub on_site : {A : Type 0} → Exec (Site C) A → Exec (Rpc C) A
  on_site m s = let (r, t) = m s.site in (r, record s { site = t })

  -- `context.abort`, which raises an `Exception`.
  abbrev pub abort : {A : Type 0} → StatusCode → String → Exec (Rpc C) A
  abort code details s = (err (other 0), record s { aborted = some (code, details) })

abbrev pub Behavior : Type 0 → Type 0
Behavior C = ResourceRequest → Context → Exec (Rpc C) ResourceResponse

-- A handler is for a unary call, or for one that streams.
pub data RpcMethodHandler (C : Type 0) : Type 0 where
  unary_unary : Behavior C → RpcMethodHandler C
  streaming : RpcMethodHandler C

-- A function of the metadata in `handler_call_details`.
abbrev pub Continuation : Type 0 → Type 0
Continuation C = Option Metadata → Option (RpcMethodHandler C)

-- `intercept_service`.
abbrev pub ServerInterceptor : Type 0 → Type 0
ServerInterceptor C = Continuation C → Continuation C

-- `_wrap_unary_unary`.
unfoldable pub wrap_unary_unary :
    {C : Type 0}
    → Option (RpcMethodHandler C)
    → (Behavior C → Behavior C)
    → Option (RpcMethodHandler C)
wrap_unary_unary none wrapper = none
wrap_unary_unary (some streaming) wrapper = some streaming
wrap_unary_unary (some (unary_unary original)) wrapper = some (unary_unary (wrapper original))

abbrev pub refusal : (peer reason : Option String) → AccessEntry
refusal peer reason = record {
  transport = "grpc";
  granted = false;
  peer = peer;
  resource = none;
  pk = none;
  caller = none;
  reason = reason;
}

-- `result.reason or "unauthorized"`.
abbrev pub reason_or_default : Option String → String
reason_or_default none = "unauthorized"
reason_or_default (some reason) = if reason == "" then "unauthorized" else reason

module _ {C : Type 0} where
  -- `_RateLimitInterceptor`, at the time `now`.
  unfoldable pub limited : Platform → Cache C → RateLimitConfig → ℕ → Behavior C → Behavior C
  limited p cache config now original request context =
      on_site (on_cache (is_allowed p cache config now (peer_key (some context.peer))))
      >>= λ allowed.
          if allowed
          then original request context
          else (on_site
                (log_access (refusal (some (peer_key (some context.peer))) (some "rate limited")))
              >> abort resource_exhausted "rate limit exceeded")

  abbrev pub rate_limit_interceptor : Platform → Cache C → RateLimitConfig → ℕ → ServerInterceptor C
  rate_limit_interceptor p cache config now continuation details =
      wrap_unary_unary (continuation details) (limited p cache config now)

  -- `_AuthInterceptor`, with the `authorization` of the call's metadata.
  unfoldable pub authorized : BaseAuthBackend → Option String → Behavior C → Behavior C
  authorized backend authorization original request context =
      lift (backend authorization) >>= λ result.
      if result.granted
      then original request context
      else (on_site (log_access (refusal (some context.peer) result.reason))
          >> abort unauthenticated (reason_or_default result.reason))

  abbrev pub auth_interceptor : BaseAuthBackend → ServerInterceptor C
  auth_interceptor backend continuation details =
      wrap_unary_unary (continuation details)
        (authorized backend (get "authorization" (metadata_dict details)))

-- `auth_backend or AllowAllAuthBackend()`.
abbrev pub servicer_backend : Option BaseAuthBackend → BaseAuthBackend
servicer_backend none = allow_all
servicer_backend (some backend) = backend

abbrev pub ResourceResolver : Type 0
ResourceResolver = String → String → Result (Option Json)

abbrev pub granted_entry : ResourceRequest → Context → Option String → AccessEntry
granted_entry request context caller = record {
  transport = "grpc";
  granted = true;
  peer = some context.peer;
  resource = some request.resource;
  pk = some request.pk;
  caller = caller;
  reason = none;
}

module _ {C : Type 0} (p : Platform) (resolve : ResourceResolver)
    (auth_backend : Option BaseAuthBackend) where
  abbrev pub respond_with : Option Json → Exec (Rpc C) ResourceResponse
  respond_with none = pure (record { found = false; data_json = [] })
  respond_with (some d) = pure (record { found = true; data_json = p.json_dumps d })

  -- `RemoteResourceServicer.GetResource`.
  unfoldable pub get_resource : Behavior C
  get_resource request context =
      lift (servicer_backend auth_backend (get "authorization" (metadata_dict context.metadata)))
      >>= λ result.
          on_site (log_access (granted_entry request context result.caller))
          >> (lift (resolve request.resource request.pk) >>= respond_with)
