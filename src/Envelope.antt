-- ===== src/Envelope.antt =====
-- src/django_event_bus/envelope.py and serializers.py. What arrives off the bus is not checked
-- against the annotations: the fields of a received envelope hold whatever JSON the sender wrote,
-- so `event_type`, `event_id`, `source_service` and `payload` are JSON values.
pub mod RoundTrip
use django_event_bus.Prelude.{String, Bool, true, false, Option, none, some}
use django_event_bus.Exceptions.{Result, ok, err, key_error, attribute_error, type_error}
use django_event_bus.Exceptions.Pure.{◌>>=◌}
use django_event_bus.Platform.{
  Platform, Bytes, DateTime, Json, null, bool, num, str, arr, obj, Items, Fields, end, field,
  field_get, subscript, ℤ, pos, Key, nothing, number, text,
}

pub record EventEnvelope : Type 0 where
  pub event_type : Json
  pub source_service : Json
  pub payload : Json
  pub event_id : Json
  pub occurred_at : DateTime
  pub version : ℤ

-- `int(value)`.
unfoldable pub int_of : Platform → Json → Result ℤ
int_of p (num n) = ok n
int_of p (bool true) = ok (pos 1)
int_of p (bool false) = ok (pos 0)
int_of p (str s) = p.int_of_text s
int_of p null = err type_error
int_of p (arr xs) = err type_error
int_of p (obj d) = err type_error

-- `datetime.fromisoformat(value)`: TypeError unless `value` is a text.
unfoldable pub parse_time : Platform → Json → Result DateTime
parse_time p (str s) = p.fromisoformat s
parse_time p _ = err type_error

-- `data.get("version", 1)`.
unfoldable pub get_version : Json → Result Json
unfolding field_get
get_version (obj d) = elim (field_get "version" d) [ none ↦ ok (num (pos 1)) | some v ↦ ok v ]
get_version _ = err attribute_error

unfoldable pub to_dict : Platform → EventEnvelope → Json
to_dict p e = obj (
    field "event_id" e.event_id (
      field "event_type" e.event_type (
        field "source_service" e.source_service (
          field "payload" e.payload (
            field "occurred_at" (str (p.isoformat e.occurred_at))
              (field "version" (num e.version) end))))))

unfoldable pub from_dict : Platform → Json → Result EventEnvelope
from_dict p values = do
  event_id ← subscript values "event_id"
  event_type ← subscript values "event_type"
  source_service ← subscript values "source_service"
  payload ← subscript values "payload"
  stamp ← subscript values "occurred_at"
  occurred_at ← parse_time p stamp
  raw_version ← get_version values
  version ← int_of p raw_version
  ok (record {
    event_type = event_type;
    source_service = source_service;
    payload = payload;
    event_id = event_id;
    occurred_at = occurred_at;
    version = version;
  })

-- `JSONEventSerializer`.
unfoldable pub dumps : Platform → EventEnvelope → Bytes
dumps p e = p.json_dumps (to_dict p e)

unfoldable pub loads : Platform → Bytes → Result EventEnvelope
loads p b = do raw ← p.json_loads b; from_dict p raw

-- The key that a value makes in a `dict`: TypeError for a list or a dict, which cannot be hashed.
unfoldable pub hash_key : Json → Result Key
hash_key null = ok nothing
hash_key (bool true) = ok (number (pos 1))
hash_key (bool false) = ok (number (pos 0))
hash_key (num n) = ok (number n)
hash_key (str s) = ok (text s)
hash_key (arr xs) = err type_error
hash_key (obj d) = err type_error
