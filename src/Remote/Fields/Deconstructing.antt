-- ===== src/Remote/Fields/Deconstructing.antt =====
-- src/django_event_bus/remote/fields.py: what a migration stores of a field, and the field that it
-- makes of it again.
use django_event_bus.Prelude.{ℕ, String, string_eq, List, [], Bool, Option, none, some, ◌≡◌, refl}
use django_event_bus.Prelude.Dict.{Dict, get, put, get-put}
use django_event_bus.Exceptions.{Result, ok, err, type_error}
use django_event_bus.Exceptions.Pure.{◌>>=◌}
use django_event_bus.Remote.Fields.Accessors.{RemoteForeignKey}

-- The values of keyword arguments; None is a text or a number that is none.
pub data Argument : Type 0 where
  text_or_none : Option String → Argument
  number_or_none : Option ℕ → Argument
  texts : List String → Argument
  flag : Bool → Argument

-- `deconstruct`, where `kwargs` is what Django's own field gives.
unfoldable pub deconstruct : Dict String Argument → RemoteForeignKey → Dict String Argument
deconstruct kwargs f = put "accessor_name" (text_or_none f.accessor_name) (
    put "invalidate_on" (texts f.invalidate_on) (
      put "ttl" (number_or_none f.ttl) (
        put "transport" (text_or_none f.transport_name) (
          put "resource" (text_or_none (some f.resource))
            (put "service" (text_or_none (some f.service)) kwargs)))))

-- An argument of each kind, with its default; a value of another kind is not one that a migration
-- stores.
abbrev pub required_text : Option Argument → Result String
required_text (some (text_or_none (some s))) = ok s
required_text _ = err type_error

abbrev pub text_argument : Option Argument → Result (Option String)
text_argument none = ok none
text_argument (some (text_or_none o)) = ok o
text_argument (some _) = err type_error

abbrev pub number_argument : Option Argument → Result (Option ℕ)
number_argument none = ok none
number_argument (some (number_or_none o)) = ok o
number_argument (some _) = err type_error

abbrev pub texts_argument : Option Argument → Result (List String)
texts_argument none = ok []
texts_argument (some (texts l)) = ok l
texts_argument (some _) = err type_error

-- `RemoteForeignKey.__init__(**kwargs)`.
unfoldable pub construct : Dict String Argument → Result RemoteForeignKey
construct kwargs = do
  service ← required_text (get "service" kwargs)
  resource ← required_text (get "resource" kwargs)
  transport ← text_argument (get "transport" kwargs)
  ttl ← number_argument (get "ttl" kwargs)
  invalidate_on ← texts_argument (get "invalidate_on" kwargs)
  accessor_name ← text_argument (get "accessor_name" kwargs)
  ok (record {
    service = service;
    resource = resource;
    transport_name = transport;
    ttl = ttl;
    invalidate_on = invalidate_on;
    accessor_name = accessor_name;
  })

-- The field that a migration makes of what it stored is the field itself: service, resource,
-- transport, ttl, events and accessor name.
pub construct-deconstruct :
    (kwargs : Dict String Argument) (f : RemoteForeignKey) → construct (deconstruct kwargs f) ≡ ok f
unfolding construct deconstruct
construct-deconstruct kwargs f = simp (get-put) refl
