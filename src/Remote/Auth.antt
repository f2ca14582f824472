-- ===== src/Remote/Auth.antt =====
-- src/django_event_bus/remote/auth.py. PyJWT is a parameter, and so is what the setting
-- `AUTH_BACKEND` names.
pub mod Decisions
use Prim.Native.String.{len, count, slice}
use text.Mathlib.Text.{starts_with}
use django_event_bus.Prelude.{
  String, string_eq, ◌<>◌, List, [], ◌∷◌, Bool, true, false, not, ◌&&◌, Option, none, some, ◌==◌,
  nat_beq, if◌then◌else◌,
}
use django_event_bus.Exceptions.{Error, Result, ok, err, type_error}
use django_event_bus.Exceptions.Pure.{◌>>=◌}
use django_event_bus.Platform.{
  Platform, Json, null, bool, num, str, arr, obj, nil, cons, end, field, Fields, field_get, format,
  pos,
}

pub record AuthResult : Type 0 where
  pub granted : Bool
  pub caller : Option String
  pub reason : Option String

abbrev pub allow : Option String → AuthResult
allow caller = record { granted = true; caller = caller; reason = none }

abbrev pub deny : String → AuthResult
deny reason = record { granted = false; caller = none; reason = some reason }

-- `authenticate`, as a function of the header; it may raise.
abbrev pub BaseAuthBackend : Type 0
BaseAuthBackend = Option String → Result AuthResult

unfoldable pub allow_all : BaseAuthBackend
allow_all authorization = ok (allow none)

abbrev pub bearer_prefix : String
bearer_prefix = "Bearer "

-- A text is ASCII when each of its characters takes one byte in UTF-8.
abbrev pub is_ascii : String → Bool
is_ascii s = nat_beq (len s) (count s)

-- `hmac.compare_digest` on texts, which takes ASCII only.
unfoldable pub compare_digest : String → String → Result Bool
compare_digest a b = if is_ascii a && is_ascii b then ok (a == b) else err type_error

-- `authorization or ""`.
abbrev pub or_empty : Option String → String
or_empty none = ""
or_empty (some s) = s

-- `StaticTokenAuthBackend(token).authenticate`.
unfoldable pub static_token : String → BaseAuthBackend
static_token token authorization = do
  same ← compare_digest (or_empty authorization) (bearer_prefix <> token)
  ok (if same then allow (some "shared-token") else deny "invalid or missing shared token")

-- `bool(value)`.
unfoldable pub truthy : Json → Bool
truthy null = false
truthy (bool b) = b
truthy (num (pos n)) = not (nat_beq n 0)
truthy (num n) = true
truthy (str s) = not (s == "")
truthy (arr nil) = false
truthy (arr (cons _ _)) = true
truthy (obj end) = false
truthy (obj (field _ _ _)) = true

abbrev pub get_or_null : String → Fields → Json
get_or_null k d = elim (field_get k d) [ none ↦ null | some v ↦ v ]

-- What `jwt.decode` makes of a token: its claims, an `InvalidTokenError` with its text, or any
-- other exception.
pub data Decoded : Type 0 where
  claims_of : Fields → Decoded
  invalid_token : String → Decoded
  decode_failed : Error → Decoded

-- `str(caller) if caller else None`.
unfoldable pub caller_name : Platform → Json → Option String
caller_name p v = if truthy v then some (format p v) else none

module _ (p : Platform) (decode : String → Decoded) where
  -- `claims.get("sub") or claims.get("iss")`.
  abbrev pub identity_of : Fields → Json
  identity_of claims =
      let sub = get_or_null "sub" claims in if truthy sub then sub else get_or_null "iss" claims

  abbrev pub on_decoded : Decoded → Result AuthResult
  on_decoded (claims_of claims) = ok (allow (caller_name p (identity_of claims)))
  on_decoded (invalid_token message) = ok (deny ("invalid JWT: " <> message))
  on_decoded (decode_failed x) = err x

  -- `JWTAuthBackend.authenticate`. An empty header does not start with the prefix.
  unfoldable pub jwt : BaseAuthBackend
  jwt none = ok (deny "missing bearer JWT")
  jwt (some authorization) =
      if starts_with authorization bearer_prefix
      then on_decoded (decode (slice authorization (len bearer_prefix) (len authorization)))
      else ok (deny "missing bearer JWT")

-- `not value` for a setting that holds a text or None.
abbrev pub is_set : Option String → Bool
is_set none = false
is_set (some s) = not (s == "")

-- `resolve_auth_backend`, where `load` imports a dotted path and instantiates a class.
unfoldable pub resolve_auth_backend :
    (load : String → Result BaseAuthBackend)
    → (auth_backend auth_token : Option String) → Result BaseAuthBackend
resolve_auth_backend load auth_backend auth_token =
    if is_set auth_backend
    then load (or_empty auth_backend)
    else (if is_set auth_token then ok (static_token (or_empty auth_token)) else ok allow_all)
