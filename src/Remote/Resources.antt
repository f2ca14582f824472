-- ===== src/Remote/Resources.antt =====
-- src/django_event_bus/remote/resources.py. The serializer classes are the elements of a type
-- with `is`, and a parameter says what each declares; so are the models and what Django knows of
-- them. A class that overrides `get_queryset`, `get_fields` or `to_representation` is not
-- modelled; one with `get_<field>` methods is.
pub mod Registry
pub mod Exposure
pub mod Naming
pub mod Representation
pub mod Resolving
use django_event_bus.Prelude.{
  String, string_eq, List, [], ◌∷◌, Bool, true, false, not, ◌||◌, Option, none, some, if◌then◌else◌,
  Eq, ◌==◌, map,
}
use django_event_bus.Prelude.Lists.{contains}
use django_event_bus.Prelude.Dict.{Dict, get, put}
use django_event_bus.Exceptions.{
  Error, Result, ok, err, improperly_configured, attribute_error, type_error, assertion_error,
}
use django_event_bus.Exceptions.Pure.{◌>>=◌}
use django_event_bus.Platform.{Json, Fields, end, field, obj}

-- The value of an attribute: one that JSON has, or an instance of a model.
pub data Attribute : Type 0 where
  plain : Json → Attribute
  related : Attribute

pub record ModelField : Type 0 where
  pub name : String
  pub is_relation : Bool

-- A model, as Django shows it: `_meta.fields`, `_meta.get_field` (none for FieldDoesNotExist),
-- and `_default_manager.all().get(pk=pk)`.
pub record Model (I : Type 0) : Type 0 where
  pub fields : List ModelField
  pub get_field : String → Option ModelField
  pub find : String → Result I

-- `Meta.fields`.
pub data FieldNames : Type 0 where
  all_fields : FieldNames
  listed : List String → FieldNames

-- A serializer class: its `Meta`, where `queryset` is `Meta.queryset.get(pk=pk)`, and its methods
-- `get_<field>`.
pub record Serializer (I : Type 0) : Type 0 where
  pub model : Option (Model I)
  pub resource : Option String
  pub fields : FieldNames
  pub exclude : List String
  pub queryset : Option (String → Result I)
  pub methods : String → Option (I → Result Json)

-- `getattr(serializer, f"get_{name}", None)`. The base class has two such methods of its own,
-- which take no instance.
abbrev pub own_or_base : {I : Type 0} → String → Option (I → Result Json) → Option (I → Result Json)
own_or_base name (some own) = some own
own_or_base name none =
    if name == "fields" || name == "queryset" then some (λ instance_shown. err type_error) else none

unfoldable pub getter : {I : Type 0} → Serializer I → String → Option (I → Result Json)
getter c name = own_or_base name (c.methods name)

-- `[name for name in all_names if name not in exclude]`.
unfoldable pub without : List String → List String → List String
without exclude [] = []
without exclude (name ∷ names) =
    let rest = without exclude names in if contains exclude name then rest else name ∷ rest

-- `fields != "__all__" and exclude`.
abbrev pub is_empty : List String → Bool
is_empty [] = true
is_empty (x ∷ xs) = false

abbrev pub check_column : Option ModelField → Result (Unit {0})
check_column none = ok tt
check_column (some f) = if f.is_relation then err improperly_configured else ok tt

module _ {I : Type 0} where
  abbrev pub field_names : Serializer I → Model I → FieldNames → Result (List String)
  field_names c m all_fields = ok (without c.exclude (map (λ (f : ModelField). f.name) m.fields))
  field_names c m (listed names) =
      if is_empty c.exclude then ok names else err improperly_configured

  unfoldable pub get_fields : Serializer I → Result (List String)
  get_fields c = elim (c.model) [ none ↦ err assertion_error | some m ↦ field_names c m c.fields ]

  -- `get_queryset().get(pk=pk)`.
  unfoldable pub get_instance : Serializer I → String → Result I
  get_instance c pk = elim (c.queryset) [
    | some find ↦ find pk
    | none ↦ elim (c.model) [ none ↦ err assertion_error | some m ↦ m.find pk ]
  ]

  abbrev pub check_method : Model I → String → Option (I → Result Json) → Result (Unit {0})
  check_method m name (some method) = ok tt
  check_method m name none = check_column (m.get_field name)

  unfoldable pub check_field : Serializer I → Model I → String → Result (Unit {0})
  check_field c m name = check_method m name (getter c name)

  unfoldable pub check_fields : Serializer I → Model I → List String → Result (Unit {0})
  check_fields c m [] = ok tt
  check_fields c m (name ∷ names) = do _ ← check_field c m name; check_fields c m names

  abbrev pub on_field_names : Serializer I → Model I → Result (List String) → Result (Unit {0})
  on_field_names c m (ok names) = check_fields c m names
  on_field_names c m (err improperly_configured) = ok tt
  on_field_names c m (err x) = err x

  -- `_check_no_unserializable_relation_fields`.
  unfoldable pub check_no_unserializable_relation_fields :
      Serializer I → Model I → Result (Unit {0})
  check_no_unserializable_relation_fields c m = on_field_names c m (get_fields c)

-- `getattr(instance, name)`.
abbrev pub Attributes : Type 0 → Type 0
Attributes I = I → String → Result Attribute

module _ {I : Type 0} (attributes : Attributes I) where
  abbrev pub on_attribute : Result Attribute → Result Json
  on_attribute (ok (plain v)) = ok v
  on_attribute (ok related) = err improperly_configured
  on_attribute (err attribute_error) = err improperly_configured
  on_attribute (err x) = err x

  abbrev pub on_method : I → String → Option (I → Result Json) → Result Json
  on_method i name (some method) = method i
  on_method i name none = on_attribute (attributes i name)

  -- What `to_representation` shows of one field.
  unfoldable pub represent_field : Serializer I → I → String → Result Json
  represent_field c i name = on_method i name (getter c name)

  unfoldable pub represent_fields :
      Serializer I → I → List String → Dict String Json → Result (Dict String Json)
  represent_fields c i [] data_shown = ok data_shown
  represent_fields c i (name ∷ names) data_shown = do
    v ← represent_field c i name
    represent_fields c i names (put name v data_shown)

  unfoldable pub to_representation : Serializer I → I → Result (Dict String Json)
  to_representation c i = do names ← get_fields c; represent_fields c i names []

-- The dict as JSON has it.
unfoldable pub as_json : Dict String Json → Fields
as_json [] = end
as_json ((k, v) ∷ d) = field k v (as_json d)
