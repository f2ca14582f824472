-- ===== src/Examples/Values.antt =====
-- The platform, the events and the services of the examples.
use django_event_bus.Prelude.{nat_eq, String, string_eq, [], ◌∷◌, ◌==◌, if◌then◌else◌, ◌≡◌, refl}
use django_event_bus.Exceptions.{Result, ok, err, value_error, type_error}
use django_event_bus.Platform.{
  Platform, Bytes, subscript, field_get, Json, num, str, arr, obj, nil, end, field, DateTime, pos,
}
use django_event_bus.Envelope.{
  EventEnvelope, loads, from_dict, parse_time, get_version, int_of, hash_key,
}

abbrev pub noon : DateTime
noon = record {
  year = 2024;
  month = 5;
  day = 17;
  hour = 12;
  minute = 0;
  second = 0;
  microsecond = 0;
  utc_offset = pos 0;
}

abbrev pub noon_text : String
noon_text = "2024-05-17T12:00:00+00:00"

abbrev pub user_created : EventEnvelope
user_created = record {
  event_type = str "auth.user_created";
  source_service = str "auth";
  payload = obj (field "id" (num (pos 7)) end);
  event_id = str "a1";
  occurred_at = noon;
  version = pos 1;
}

-- The same event with an id that cannot be hashed.
abbrev pub unhashable : EventEnvelope
unhashable = record {
  event_type = str "auth.user_created";
  source_service = str "auth";
  payload = obj (field "id" (num (pos 7)) end);
  event_id = arr nil;
  occurred_at = noon;
  version = pos 1;
}

abbrev pub fields_of : EventEnvelope → Json
fields_of e = obj (
    field "event_id" e.event_id (
      field "event_type" e.event_type (
        field "source_service" e.source_service (
          field "payload" e.payload
            (field "occurred_at" (str noon_text) (field "version" (num e.version) end))))))

-- A codec of two texts: `{}` stands for the event, and `[]` for the one without a usable id.
abbrev event_bytes : Bytes
event_bytes = b'{' ∷ b'}' ∷ []

abbrev decode : Bytes → Result Json
decode [] = err value_error
decode (b ∷ bs) = elim (bs) [
  | [] ↦ err value_error
  | _ ∷ _ ↦ if b == b'{' then ok (fields_of user_created) else ok (fields_of unhashable)
]

abbrev pub platform : Platform
platform = record {
  isoformat = λ d. noon_text;
  fromisoformat = λ s. if s == noon_text then ok noon else err value_error;
  int_of_text = λ s. err value_error;
  int_of_bytes = λ b. err value_error;
  json_dumps = λ v. event_bytes;
  json_loads = decode;
  format_value = λ v. "None";
}

pub loads_event : loads platform (b'{' ∷ b'}' ∷ []) ≡ ok user_created
unfolding loads from_dict subscript field_get parse_time get_version int_of
loads_event = refl

pub unhashable_read : loads platform (b'[' ∷ b']' ∷ []) ≡ ok unhashable
unfolding loads from_dict subscript field_get parse_time get_version int_of
unhashable_read = refl

pub unhashable_key : hash_key unhashable.event_id ≡ err type_error
unfolding hash_key
unhashable_key = refl
