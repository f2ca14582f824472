-- ===== src/Remote/Objects.antt =====
-- src/django_event_bus/remote/objects.py: what reading an attribute of a `RemoteObject` gives. An
-- instance that `copy` or `pickle` has just made has no slot set.
pub mod Identity
use django_event_bus.Prelude.{
  ℕ, suc, zero, String, string_eq, Bool, true, false, Option, none, some, if◌then◌else◌, ◌==◌, ◌≡◌,
  refl, ap, ◌∙◌, arith,
}
use django_event_bus.Exceptions.{Error, Result, ok, err, attribute_error, key_error, other}
use django_event_bus.Platform.{Json, Fields, str, obj, field_get, subscript}
use django_event_bus.Remote.Fields.{Reference, RemoteObject}

-- The slots of an instance; none for one that is not set.
pub record Slots : Type 0 where
  pub service : Option String
  pub resource : Option String
  pub pk : Option Json
  pub payload : Option Json

abbrev pub no_slot : Slots
no_slot = record { service = none; resource = none; pk = none; payload = none }

-- `RemoteObject(service=service, resource=resource, pk=pk, data=data)`.
abbrev pub slots_of : RemoteObject → Slots
slots_of o = record {
  service = some o.reference.service;
  resource = some o.reference.resource;
  pk = some o.reference.pk;
  payload = some o.payload;
}

abbrev pub as_text : Option String → Option Json
as_text none = none
as_text (some s) = some (str s)

-- The value of a slot that is set.
unfoldable pub slot : Slots → String → Option Json
slot o name =
    if name == "service"
    then as_text o.service
    else (if name == "resource"
        then as_text o.resource
        else (if name == "pk" then o.pk else (if name == "_data" then o.payload else none)))

-- RecursionError.
abbrev pub recursion_error : Error
recursion_error = other 2

abbrev pub is_key_error : Error → Bool
is_key_error key_error = true
is_key_error _ = false

abbrev pub missing_as_attribute : Result Json → Result Json
missing_as_attribute (ok v) = ok v
missing_as_attribute (err x) = if is_key_error x then err attribute_error else err x

-- `__getattr__`, with what `self._data` gave, and the slot before it.
abbrev pub get_missing : String → Result Json → Result Json
get_missing name (err x) = err x
get_missing name (ok d) = missing_as_attribute (subscript d name)

abbrev pub on_slot : Option Json → Result Json → Result Json
on_slot (some v) missing = ok v
on_slot none missing = missing

-- `getattr(o, name)` for a name that the class does not define, with so many calls left on the
-- stack: `__getattr__` runs when no slot has the name, and reads `self._data` itself.
unfoldable pub get_attribute : (depth : ℕ) → Slots → String → Result Json
get_attribute zero o name = err recursion_error
get_attribute (suc depth) o name =
    let payload = get_attribute depth o "_data" in on_slot (slot o name) (get_missing name payload)

-- `as_dict`.
abbrev pub as_dict : RemoteObject → Json
as_dict o = o.payload

slot-no_slot : (name : String) → slot no_slot name ≡ none
unfolding slot
slot-no_slot name = ground arith

get_attribute-no_slot :
    (depth : ℕ) (name : String) → get_attribute depth no_slot name ≡ err recursion_error
unfolding get_attribute
get_attribute-no_slot zero name = refl
get_attribute-no_slot (suc depth) name =
    ap (λ o. on_slot o (get_missing name (get_attribute depth no_slot "_data"))) (slot-no_slot name)
    ∙ ap (get_missing name) (get_attribute-no_slot depth "_data")

-- An item of the payload, or AttributeError.
abbrev pub item_or_error : Option Json → Result Json
item_or_error none = err attribute_error
item_or_error (some v) = ok v

subscript-obj :
    (d : Fields) (name : String)
    → missing_as_attribute (subscript (obj d) name) ≡ item_or_error (field_get name d)
unfolding subscript
subscript-obj d name = of (field_get name d)
  where
    of :
        (o : Option Json)
        → missing_as_attribute (elim o [ none ↦ err key_error | some v ↦ ok v ]) ≡ item_or_error o
    of none = refl
    of (some v) = refl

-- An attribute of a `RemoteObject` that is no slot and not of its class is the item of its payload of that name, or an
-- AttributeError if there is none. But on an instance whose slots are not set yet, as `copy` and
-- `pickle` make one before they ask it for `__setstate__`, every such read uses up the stack,
-- however deep that is, and raises a RecursionError instead of an AttributeError.
pub get_attribute_lem :
    (r : Reference) (d : Fields) (name : String) (depth : ℕ)
    → let o = slots_of (record { reference = r; payload = obj d }) in
      slot o name ≡ none
      → (get_attribute (suc (suc depth)) o name ≡ item_or_error (field_get name d))
        × (get_attribute depth no_slot name ≡ err recursion_error)
unfolding get_attribute slot
get_attribute_lem r d name depth absent =
    let o : Slots = slots_of (record { reference = r; payload = obj d }) in
    (
      ap (λ s. on_slot s (get_missing name (ok (obj d)))) absent ∙ subscript-obj d name,
      get_attribute-no_slot depth name,
    )
