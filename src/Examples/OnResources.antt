-- ===== src/Examples/OnResources.antt =====
-- Exposed resources: users, of which the password is excluded, and a model with a field `fields`.
use django_event_bus.Prelude.{
  ℕ, String, string_eq, nat_eq, nat_beq, [], ◌∷◌, false, none, some, if◌then◌else◌, ◌==◌, ◌≡◌, ◌≢◌,
  refl, arith,
}
use django_event_bus.Prelude.Dict.{Dict, get, put}
use django_event_bus.Exceptions.{ok, err, object_does_not_exist, attribute_error}
use django_event_bus.Platform.{Json, num, pos}
use django_event_bus.Remote.Resources.{
  Model, ModelField, Serializer, all_fields, Attributes, plain, related, getter, without,
  check_field, check_fields, check_no_unserializable_relation_fields, get_fields, represent_field,
  represent_fields, to_representation,
}
use django_event_bus.Remote.Resources.Registry.{expose_resource}
use django_event_bus.Remote.Resources.Exposure.{Valid, expose_all, expose_all-Valid}
use django_event_bus.Remote.Resources.Representation.{
  Representation, to_representation-Representation, to_representation-reserved,
}

abbrev column : String → ModelField
column name = record { name = name; is_relation = false }

abbrev user_model : Model ℕ
user_model = record {
  fields = column "id" ∷ column "password" ∷ [];
  get_field = λ name. if name == "id" then some (column "id") else none;
  find = λ pk. if pk == "7" then ok 7 else err object_does_not_exist;
}

abbrev users : Serializer ℕ
users = record {
  model = some user_model;
  resource = some "users";
  fields = all_fields;
  exclude = "password" ∷ [];
  queryset = none;
  methods = λ name. none;
}

abbrev form_model : Model ℕ
form_model = record {
  fields = column "id" ∷ column "fields" ∷ [];
  get_field = λ name. some (column name);
  find = λ pk. ok 1;
}

abbrev forms : Serializer ℕ
forms = record users { model = some form_model; resource = some "forms"; exclude = [] }

abbrev pub classes : ℕ → Serializer ℕ
classes n = if nat_beq n 1 then users else forms

abbrev pub attributes : Attributes ℕ
attributes i name =
    if name == "id"
    then ok (plain (num (pos i)))
    else (if name == "owner" then ok related else err attribute_error)

nothing_exposed : Valid classes []
unfolding get
nothing_exposed resource c h = absurd (ground arith)

expose_all-Valid_example :
    Valid classes (expose_all classes (1 ∷ 2 ∷ 3 ∷ []) [])
    × ((resource : String) (c : ℕ)
        → get resource [] ≡ some c
        → get resource (expose_all classes (1 ∷ 2 ∷ 3 ∷ []) []) ≡ some c)
expose_all-Valid_example = expose_all-Valid classes (1 ∷ 2 ∷ 3 ∷ []) [] nothing_exposed

-- The third class claims the name of the second and is refused.
exposed : expose_all classes (1 ∷ 2 ∷ 3 ∷ []) [] ≡ ("users", 1) ∷ ("forms", 2) ∷ []
unfolding expose_all expose_resource check_no_unserializable_relation_fields get_fields without
    check_fields check_field getter get put
exposed = refl

user_seven : to_representation attributes users 7 ≡ ok (("id", num (pos 7)) ∷ [])
unfolding to_representation get_fields without represent_fields represent_field getter put
user_seven = refl

to_representation-Representation_example :
    Representation attributes users 7 (("id", num (pos 7)) ∷ [])
to_representation-Representation_example =
    to_representation-Representation attributes users 7 (("id", num (pos 7)) ∷ []) user_seven

form_fields : get_fields forms ≡ ok ("id" ∷ "fields" ∷ [])
unfolding get_fields without
form_fields = refl

to_representation-reserved_example :
    (check_field forms form_model "fields" ≡ ok tt)
    × ((d : Dict String Json) → to_representation attributes forms 1 ≢ ok d)
to_representation-reserved_example =
    to_representation-reserved attributes forms form_model 1 "fields" refl refl form_fields refl
