-- ===== src/Remote/Transports.antt =====
-- src/django_event_bus/remote/transports/utils.py and base.py. What a dotted path names is a
-- parameter. A service's config is a dict whose known keys are fields here; calls of one thread.
pub mod Cached
pub mod Http
pub mod Grpc
use django_event_bus.Prelude.{
  ℕ, String, string_eq, List, [], ◌∷◌, Bool, true, false, Option, none, some, if◌then◌else◌, ◌==◌,
  ◌≡◌, refl, inl, inr, Bool-cases,
}
use django_event_bus.Prelude.Dict.{Dict, get, put, get_or}
use django_event_bus.Exceptions.{
  Error, Result, ok, err, key_error, service_misconfigured, service_unavailable, connection_lost,
}
use django_event_bus.Exceptions.Exec.{
  Exec, pure, raise, lift, gets, modify, try_except, ◌>>=◌, ◌>>◌,
}
use django_event_bus.Platform.{Platform, Json, null, Bytes}
use django_event_bus.Remote.RateLimit.{is_value_error}
use django_event_bus.Remote.Fields.{Reference}

-- `REMOTE_DATA["SERVICE_REGISTRY"][service][transport]`. A text stands for the credentials.
pub record ServiceConfig : Type 0 where
  pub base_url : Option String
  pub target : Option String
  pub credentials : Option String
  pub auth_token : Option String
  pub headers : Option (Dict String String)
  pub timeout : Option ℕ
  pub max_response_bytes : Option ℕ

-- The settings that the transports read.
pub record TransportSettings : Type 0 where
  pub service_registry : Dict String (Dict String ServiceConfig)
  pub require_tls : Bool
  pub max_response_bytes : ℕ
  pub default_transport : String

-- `config[key]`.
abbrev pub required : Option String → Result String
required none = err key_error
required (some value) = ok value

-- `config.get(key, default)`.
abbrev pub or_default : ℕ → Option ℕ → ℕ
or_default n none = n
or_default n (some m) = m

abbrev pub found_entry : {V : Type 0} → Option V → Result V
found_entry none = err service_misconfigured
found_entry (some v) = ok v

abbrev pub entry_of : {V : Type 0} → String → Option (Dict String V) → Result V
entry_of transport none = err service_misconfigured
entry_of transport (some d) = found_entry (get transport d)

unfoldable pub registry_entry :
    {V : Type 0} → Dict String (Dict String V) → (service transport : String) → Result V
registry_entry registry service transport = entry_of transport (get service registry)

-- `except requests.RequestException` or `except grpc.RpcError`, and an `except` whose handler
-- raises "service unavailable".
abbrev pub is_connection_lost : Error → Bool
is_connection_lost connection_lost = true
is_connection_lost _ = false

abbrev pub unavailable_if : {S A : Type 0} → (Error → Bool) → Error → Exec S A
unavailable_if caught x = if caught x then raise service_unavailable else raise x

-- The dict or None that `json.loads` gives: None for the JSON null.
abbrev pub none_if_null : Json → Option Json
none_if_null null = none
none_if_null v = some v

-- `json.loads` in a `try` with `except ValueError`.
abbrev pub decode_json : {S : Type 0} → Platform → Bytes → Exec S (Option Json)
decode_json p body =
    try_except (lift (p.json_loads body) >>= λ v. pure (none_if_null v))
      (unavailable_if is_value_error)

module _ {S : Type 0} where
  pub unavailable_if-still :
      (A : Type 0) (caught : Error → Bool) (x : Error) (s : S)
      → (unavailable_if {A = A} caught x s).1 ≡ s
  unavailable_if-still A caught x s = elim (Bool-cases (caught x)) [
    | inl h ↦ rw h refl
    | inr h ↦ rw h refl
  ]

  pub decode_json-still : (p : Platform) (body : Bytes) (s : S) → (decode_json p body s).1 ≡ s
  decode_json-still p body s = of (p.json_loads body)
    where
      of :
          (r : Result Json)
          → (try_except (lift r >>= λ v. pure (none_if_null v)) (unavailable_if is_value_error) s).1
            ≡ s
      of (ok v) = refl
      of (err x) = unavailable_if-still _ is_value_error x s

-- `BaseTransport`, over the state of the world that it works on.
pub record BaseTransport (W : Type 0) : Type 0 where
  pub fetch : Reference → Exec W (Option Json)
  pub close : Exec W (Unit {0})

-- The transports in use, and the world.
pub record Cache (W : Type 0) : Type 0 where
  pub transports : Dict String (BaseTransport W)
  pub world : W

abbrev pub in_world : {W A : Type 0} → Exec W A → Exec (Cache W) A
in_world m s = let (r, w) = m s.world in (r, record s { world = w })

abbrev pub builtin_transports : Dict String String
builtin_transports =
    ("http", "django_event_bus.remote.transports.http.HTTPTransport")
    ∷ ("grpc", "django_event_bus.remote.transports.grpc.GRPCTransport")
    ∷ []

-- `name or default`.
abbrev pub name_or_default : String → Option String → String
name_or_default default none = default
name_or_default default (some name) = if name == "" then default else name

abbrev pub keep_transport :
    {W : Type 0} → String → BaseTransport W → Exec (Cache W) (BaseTransport W)
keep_transport name t = modify (λ s. record s { transports = put name t s.transports }) >> pure t

module _ {W : Type 0} (instantiate : String → Exec W (BaseTransport W)) where
  abbrev pub on_cached : String → Option (BaseTransport W) → Exec (Cache W) (BaseTransport W)
  on_cached name (some t) = pure t
  on_cached name none =
      in_world (instantiate (get_or name name builtin_transports)) >>= keep_transport name

  -- `load_transport`, where `settings` is `REMOTE_DATA`.
  unfoldable pub load_transport :
      TransportSettings → Option String → Exec (Cache W) (BaseTransport W)
  load_transport settings chosen =
      let name = name_or_default settings.default_transport chosen in
      gets (λ s. get name s.transports) >>= on_cached name

-- `reset_transports`.
module _ {W : Type 0} where
  unfoldable pub close_all : Dict String (BaseTransport W) → Exec W (Unit {0})
  close_all [] = pure tt
  close_all ((name, t) ∷ d) = t.close >> close_all d

  unfoldable pub reset_transports : Exec (Cache W) (Unit {0})
  reset_transports =
      (gets (λ s. s.transports) >>= λ transports. in_world (close_all transports))
      >> modify (λ s. record s { transports = [] })

  -- `_on_setting_changed`.
  unfoldable pub on_setting_changed : String → Exec (Cache W) (Unit {0})
  on_setting_changed setting = if setting == "REMOTE_DATA" then reset_transports else pure tt
