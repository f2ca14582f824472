-- ===== src/Remote/Transports/Grpc.antt =====
-- src/django_event_bus/remote/transports/grpc.py. The gRPC library is a parameter: what the server
-- answers a call, which may depend on the calls before. An `RpcError` is `connection_lost`.
pub mod Opening
pub mod Channels
pub mod EndToEnd
use django_event_bus.Prelude.{
  ℕ, String, string_eq, ◌<>◌, List, [], ◌∷◌, ◌++◌, Bool, true, false, ◌&&◌, Option, none, some,
  if◌then◌else◌,
}
use django_event_bus.Prelude.Dict.{Dict, get, put}
use django_event_bus.Exceptions.{Error, Result, ok, err, service_unavailable, service_misconfigured}
use django_event_bus.Exceptions.Exec.{
  Exec, pure, raise, lift, gets, modify, try_except, ◌>>=◌, ◌>>◌,
}
use django_event_bus.Platform.{Platform, Json, format}
use django_event_bus.Remote.Auth.{bearer_prefix, is_set, or_empty}
use django_event_bus.Remote.Fields.{Reference}
use django_event_bus.Remote.Grpc.{ResourceRequest, ResourceResponse, Metadata}
use django_event_bus.Remote.Grpc.Command.{is_none}
use django_event_bus.Remote.Transports.{
  ServiceConfig, TransportSettings, BaseTransport, is_connection_lost, unavailable_if, decode_json,
  required, or_default, registry_entry,
}

-- `grpc.secure_channel` with credentials, `grpc.insecure_channel` without.
pub record Channel : Type 0 where
  pub target : String
  pub credentials : Option String
  pub max_receive_message_length : ℕ

-- `stub.GetResource(request, timeout=timeout, metadata=metadata)`.
pub record Call : Type 0 where
  pub channel : Channel
  pub request : ResourceRequest
  pub timeout : ℕ
  pub metadata : Option Metadata

-- The transport's channels, and what it made of the library, the latest first.
pub record Wire : Type 0 where
  pub channels : Dict String Channel
  pub opened : List Channel
  pub closed : List Channel
  pub calls : List Call

module _ (settings : TransportSettings) where
  abbrev pub new_channel : ServiceConfig → String → Channel
  new_channel c target = record {
    target = target;
    credentials = c.credentials;
    max_receive_message_length = or_default settings.max_response_bytes c.max_response_bytes;
  }

  abbrev pub open_channel : String → Channel → Exec Wire Channel
  open_channel service channel =
      modify
        (λ w. record w { channels = put service channel w.channels; opened = channel ∷ w.opened })
      >> pure channel

  abbrev pub on_channel : String → ServiceConfig → Option Channel → Exec Wire Channel
  on_channel service c (some channel) = pure channel
  on_channel service c none =
      lift (required c.target) >>= λ target. open_channel service (new_channel c target)

  -- `_channel`; a thread alone finds the same under the lock as before.
  unfoldable pub channel_for : String → ServiceConfig → Exec Wire Channel
  channel_for service c = gets (λ w. get service w.channels) >>= on_channel service c

  unfoldable pub call_metadata : ServiceConfig → Option Metadata
  call_metadata c =
      if is_set c.auth_token
      then some (("authorization", bearer_prefix <> or_empty c.auth_token) ∷ [])
      else none

module _ (p : Platform) (settings : TransportSettings)
    (on_call : List Call → Result ResourceResponse) where
  abbrev pub send_call : Call → Exec Wire ResourceResponse
  send_call g w = (on_call (g ∷ w.calls), record w { calls = g ∷ w.calls })

  abbrev pub decode_response : ResourceResponse → Exec Wire (Option Json)
  decode_response response = if response.found then decode_json p response.data_json else pure none

  abbrev pub call_for : Reference → ServiceConfig → Channel → Call
  call_for r c channel = record {
    channel = channel;
    request = record { resource = r.resource; pk = format p r.pk };
    timeout = or_default 3 c.timeout;
    metadata = call_metadata settings c;
  }

  abbrev pub fetch_on : Reference → ServiceConfig → Channel → Exec Wire (Option Json)
  fetch_on r c channel =
      try_except (send_call (call_for r c channel)) (unavailable_if is_connection_lost)
      >>= decode_response

  unfoldable pub fetch_entry : Reference → ServiceConfig → Exec Wire (Option Json)
  fetch_entry r c =
      if settings.require_tls && is_none c.credentials
      then raise service_misconfigured
      else (channel_for settings r.service c >>= fetch_on r c)

  unfoldable pub fetch : Reference → Exec Wire (Option Json)
  fetch r = lift (registry_entry settings.service_registry r.service "grpc") >>= fetch_entry r

-- `close`.
abbrev pub close_channels : Dict String Channel → List Channel → List Channel
close_channels [] closed = closed
close_channels ((service, channel) ∷ d) closed = close_channels d (channel ∷ closed)

unfoldable pub close : Exec Wire (Unit {0})
close = modify (λ w. record w { channels = []; closed = close_channels w.channels w.closed })

-- `GRPCTransport`.
abbrev pub grpc_transport :
    Platform → TransportSettings → (List Call → Result ResourceResponse) → BaseTransport Wire
grpc_transport p settings on_call = record { fetch = fetch p settings on_call; close = close }
