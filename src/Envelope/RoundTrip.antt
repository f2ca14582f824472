-- ===== src/Envelope/RoundTrip.antt =====
-- Encoding and decoding of envelopes.
use django_event_bus.Prelude.{
  String, Option, none, some, ◌≡◌, ◌↔◌, ◌⊎◌, inl, inr, refl, ap, sym, ◌∙◌, subst,
}
use django_event_bus.Exceptions.{ok, err, key_error}
use django_event_bus.Exceptions.Pure.{>>=-eq-ok, ok-injective}
use django_event_bus.Platform.{
  Platform, Bytes, Json, null, bool, num, str, arr, obj, Fields, field_get, subscript, DateTime, ℤ,
  pos,
}
use django_event_bus.Envelope.{
  EventEnvelope, int_of, parse_time, get_version, to_dict, from_dict, dumps, loads,
}

from_dict-to_dict :
    (p : Platform) (e : EventEnvelope)
    → p.fromisoformat (p.isoformat e.occurred_at) ≡ ok e.occurred_at
    → from_dict p (to_dict p e) ≡ ok e
unfolding from_dict to_dict subscript field_get parse_time get_version int_of
from_dict-to_dict p e h = rw h

-- An envelope that is encoded and decoded comes back whole, where the JSON text of its dict and
-- the ISO text of its time are read back.
pub loads-dumps :
    (p : Platform) (e : EventEnvelope)
    → p.json_loads (p.json_dumps (to_dict p e)) ≡ ok (to_dict p e)
    → p.fromisoformat (p.isoformat e.occurred_at) ≡ ok e.occurred_at
    → loads p (dumps p e) ≡ ok e
unfolding loads dumps
loads-dumps p e h k = rw h (from_dict-to_dict p e k)

-- The version that a dict holds: 1 if it has none.
abbrev pub HasVersion : Platform → Fields → ℤ → Type 0
HasVersion p d version =
    ((field_get "version" d ≡ none) × (version ≡ pos 1))
    ⊎ ((v : Json) × (field_get "version" d ≡ some v) × (int_of p v ≡ ok version))

-- What the bytes of an envelope hold, when `loads` returns it.
pub record IsReadFrom (p : Platform) (b : Bytes) (e : EventEnvelope) : Type 0 where
  pub fields : Fields
  pub decoded : p.json_loads b ≡ ok (obj fields)
  pub has_id : field_get "event_id" fields ≡ some e.event_id
  pub has_type : field_get "event_type" fields ≡ some e.event_type
  pub has_source : field_get "source_service" fields ≡ some e.source_service
  pub has_payload : field_get "payload" fields ≡ some e.payload
  pub stamp : String
  pub has_time : field_get "occurred_at" fields ≡ some (str stamp)
  pub parsed_time : p.fromisoformat stamp ≡ ok e.occurred_at
  pub has_version : HasVersion p fields e.version

subscript-ok :
    (d : Fields) (k : String) {v : Json} → subscript (obj d) k ≡ ok v → field_get k d ≡ some v
unfolding subscript
subscript-ok d k {v} h = of (field_get k d) h
  where
    of : (o : Option Json) → elim o [ none ↦ err key_error | some w ↦ ok w ] ≡ ok v → o ≡ some v
    of none e = absurd (cc (e))
    of (some w) e = ap (λ x. some x) (ok-injective e)

parse_time-ok :
    (p : Platform) (v : Json) {t : DateTime}
    → parse_time p v ≡ ok t
    → (text : String) × (v ≡ str text) × (p.fromisoformat text ≡ ok t)
unfolding parse_time
parse_time-ok p (str text) h = (text, refl, h)
parse_time-ok p null h = absurd (cc (h))
parse_time-ok p (bool b) h = absurd (cc (h))
parse_time-ok p (num n) h = absurd (cc (h))
parse_time-ok p (arr xs) h = absurd (cc (h))
parse_time-ok p (obj d) h = absurd (cc (h))

parse_time-str : (p : Platform) (text : String) → parse_time p (str text) ≡ p.fromisoformat text
unfolding parse_time
parse_time-str p text = refl

get_version-ok :
    (p : Platform) (d : Fields) {v : Json} {n : ℤ}
    → get_version (obj d) ≡ ok v
    → int_of p v ≡ ok n
    → HasVersion p d n
unfolding get_version int_of
get_version-ok p d {v} {n} h k = of (field_get "version" d) refl h
  where
    of :
        (o : Option Json)
        → field_get "version" d ≡ o
        → elim o [ none ↦ ok (num (pos 1)) | some w ↦ ok w ] ≡ ok v
        → ((field_get "version" d ≡ none) × (n ≡ pos 1))
          ⊎ ((w : Json) × (field_get "version" d ≡ some w) × (int_of p w ≡ ok n))
    of none e h' = inl (e, ok-injective (sym k ∙ ap (int_of p) (sym (ok-injective h'))))
    of (some w) e h' = inr (w, e, ap (int_of p) (ok-injective h') ∙ k)

from_dict-IsReadFrom :
    (p : Platform) (b : Bytes) (d : Fields) (e : EventEnvelope)
    → p.json_loads b ≡ ok (obj d)
    → from_dict p (obj d) ≡ ok e
    → IsReadFrom p b e
unfolding from_dict
from_dict-IsReadFrom p b d e decoded h =
    let raw : Json = obj d in
    let (i, h1, r1) = >>=-eq-ok (subscript raw "event_id") _ h in
    let (t, h2, r2) = >>=-eq-ok (subscript raw "event_type") _ r1 in
    let (s, h3, r3) = >>=-eq-ok (subscript raw "source_service") _ r2 in
    let (q, h4, r4) = >>=-eq-ok (subscript raw "payload") _ r3 in
    let (o, h5, r5) = >>=-eq-ok (subscript raw "occurred_at") _ r4 in
    let (time, h6, r6) = >>=-eq-ok (parse_time p o) _ r5 in
    let (w, h7, r7) = >>=-eq-ok (get_version raw) _ r6 in
    let (v, h8, r8) = >>=-eq-ok (int_of p w) _ r7 in
    let (stamp, is_text, parsed) = parse_time-ok p o h6 in
    subst (IsReadFrom p b) (ok-injective r8) (record {
      fields = d;
      decoded = decoded;
      has_id = subscript-ok d "event_id" h1;
      has_type = subscript-ok d "event_type" h2;
      has_source = subscript-ok d "source_service" h3;
      has_payload = subscript-ok d "payload" h4;
      stamp = stamp;
      has_time = subscript-ok d "occurred_at" h5 ∙ ap (λ x. some x) is_text;
      parsed_time = parsed;
      has_version = get_version-ok p d h7 h8;
    })

loads-IsReadFrom :
    (p : Platform) (b : Bytes) (e : EventEnvelope) → loads p b ≡ ok e → IsReadFrom p b e
unfolding loads from_dict subscript
loads-IsReadFrom p b e h =
    let (raw, decoded, rest) = >>=-eq-ok (p.json_loads b) _ h in of raw decoded rest
  where
    of : (raw : Json) → p.json_loads b ≡ ok raw → from_dict p raw ≡ ok e → IsReadFrom p b e
    of (obj d) decoded k = from_dict-IsReadFrom p b d e decoded k
    of null decoded k = absurd (cc (k))
    of (bool x) decoded k = absurd (cc (k))
    of (num n) decoded k = absurd (cc (k))
    of (str t) decoded k = absurd (cc (k))
    of (arr xs) decoded k = absurd (cc (k))

subscript-found :
    (d : Fields) (k : String) {v : Json} → field_get k d ≡ some v → subscript (obj d) k ≡ ok v
unfolding subscript
subscript-found d k h = ap (λ o. elim o [ none ↦ err key_error | some w ↦ ok w ]) h

HasVersion-int_of :
    (p : Platform) (d : Fields) (n : ℤ)
    → HasVersion p d n
    → (v : Json) × (get_version (obj d) ≡ ok v) × (int_of p v ≡ ok n)
unfolding get_version int_of
HasVersion-int_of p d n (inl (missing, one)) = (
  num (pos 1),
  ap (λ o. elim o [ none ↦ ok (num (pos 1)) | some w ↦ ok w ]) missing,
  ap (λ m. ok m) (sym one),
)
HasVersion-int_of p d n (inr (v, found, parsed)) =
    (v, ap (λ o. elim o [ none ↦ ok (num (pos 1)) | some w ↦ ok w ]) found, parsed)

IsReadFrom-loads :
    (p : Platform) (b : Bytes) (e : EventEnvelope) → IsReadFrom p b e → loads p b ≡ ok e
unfolding loads from_dict
IsReadFrom-loads p b e r =
    let d = r.fields in
    let (v, has_version, parsed_version) = HasVersion-int_of p d e.version r.has_version in
    let has_time = subscript-found d "occurred_at" r.has_time in
    let parsed_time : parse_time p (str r.stamp) ≡ ok e.occurred_at =
      parse_time-str p r.stamp ∙ r.parsed_time in
    rw (
      r.decoded,
      subscript-found d "event_id" r.has_id,
      subscript-found d "event_type" r.has_type,
      subscript-found d "source_service" r.has_source,
      subscript-found d "payload" r.has_payload,
      has_time,
      parsed_time,
      has_version,
      parsed_version,
    )

-- `loads` returns an envelope exactly when the bytes are a JSON object with the five required
-- keys, whose time is a text that is read as the envelope's time, and whose version, 1 if there is
-- none, is read as the envelope's version; the envelope holds the values of the other keys.
pub loads_iff :
    (p : Platform) (b : Bytes) (e : EventEnvelope) → (loads p b ≡ ok e) ↔ IsReadFrom p b e
loads_iff p b e = (loads-IsReadFrom p b e, IsReadFrom-loads p b e)
