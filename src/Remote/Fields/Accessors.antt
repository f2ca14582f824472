-- ===== src/Remote/Fields/Accessors.antt =====
-- src/django_event_bus/remote/fields.py: the field class and its descriptor. Django's own part of
-- the field, which stores the key as an integer column, is the attribute of that name.
use Prim.Native.String.{len, slice}
use text.Mathlib.TextPositions.{len-append, slice-append_left, slice-append_right}
use django_event_bus.Prelude.{
  ℕ, ◌-◌, String, string_eq, ◌<>◌, List, [], ◌∷◌, Bool, true, false, ◌&&◌, Option, none, some, leb,
  if◌then◌else◌, ◌==◌, le→leb, ==_ne, ◌≡◌, ◌≢◌, ap, ◌∙◌, arith,
}
use django_event_bus.Prelude.Dict.{Dict, get, get_or, put, get-put, get-put_self, get_or-put_self}
use django_event_bus.Exceptions.{Result}
use django_event_bus.Exceptions.Exec.{Exec, pure}
use django_event_bus.Platform.{Platform, Json, null}
use django_event_bus.Remote.Auth.{is_set, or_empty}
use django_event_bus.Remote.Fields.{DataCache, Reference, RemoteObject, World, resolve}
use django_event_bus.Remote.Invalidation.{Wiring, register_invalidation}

-- `RemoteForeignKey`.
pub record RemoteForeignKey : Type 0 where
  pub service : String
  pub resource : String
  pub transport_name : Option String
  pub ttl : Option ℕ
  pub invalidate_on : List String
  pub accessor_name : Option String

-- `name.endswith("_id")`.
abbrev pub ends_with_id : String → Bool
ends_with_id name = leb 3 (len name) && (slice name (len name - 3) (len name) == "_id")

unfoldable pub default_accessor_name : String → String
default_accessor_name name =
    if ends_with_id name then slice name 0 (len name - 3) else name <> "_remote"

-- The attributes of a model class that the field makes: the column that Django stores, and the
-- descriptor.
pub data ClassAttribute : Type 0 where
  column : RemoteForeignKey → ClassAttribute
  descriptor : (field : RemoteForeignKey) → (attname : String) → ClassAttribute

abbrev pub accessor_of : RemoteForeignKey → String → String
accessor_of f name =
    if is_set f.accessor_name then or_empty f.accessor_name else default_accessor_name name

-- `if self.invalidate_on`.
abbrev pub wire_if_any : RemoteForeignKey → List String → Wiring → Wiring
wire_if_any f [] w = w
wire_if_any f (t ∷ ts) w = register_invalidation f.service f.resource (t ∷ ts) w

unfoldable pub contribute_to_class :
    RemoteForeignKey
    → String
    → Dict String ClassAttribute × Wiring
    → Dict String ClassAttribute × Wiring
contribute_to_class f name (attributes, w) = (
  put (accessor_of f name) (descriptor f name) (put name (column f) attributes),
  wire_if_any f f.invalidate_on w,
)

-- The attributes of an instance, with null for None.
abbrev pub Instance : Type 0
Instance = Dict String Json

-- What may be assigned to the accessor.
pub data Assigned : Type 0 where
  raw : Json → Assigned
  object : RemoteObject → Assigned

abbrev pub key_of : Assigned → Json
key_of (raw pk) = pk
key_of (object o) = o.reference.pk

-- `__set__`.
unfoldable pub set_remote : String → Assigned → Instance → Instance
set_remote attname value i = put attname (key_of value) i

module _ {C : Type 0} (p : Platform) (cache : DataCache C)
    (on_fetch : List Reference → Result (Option Json)) (default_ttl : ℕ) where
  abbrev pub resolve_key : RemoteForeignKey → Json → Exec (World C) (Option RemoteObject)
  resolve_key f null = pure none
  resolve_key f pk =
      resolve p cache on_fetch default_ttl
        (record { service = f.service; resource = f.resource; pk = pk }) f.ttl

  -- `__get__` on an instance.
  unfoldable pub get_remote :
      RemoteForeignKey → String → Instance → Exec (World C) (Option RemoteObject)
  get_remote f attname i = resolve_key f (get_or attname null i)

stem-ends_with_id : (stem : String) → ends_with_id (stem <> "_id") ≡ true
stem-ends_with_id stem =
    let longer = len-append stem "_id" in
    let start : len (stem <> "_id") - 3 ≡ len stem = omega (arith, longer) in
    let behind : slice (stem <> "_id") (len (stem <> "_id") - 3) (len (stem <> "_id")) ≡ "_id" =
      ap (λ k. slice (stem <> "_id") k (len (stem <> "_id"))) start
      ∙ ap (slice (stem <> "_id") (len stem)) longer
      ∙ slice-append_right stem "_id" in
    rw (le→leb 3 (len (stem <> "_id")) (omega (arith, longer))) (ap (λ s. s == "_id") behind)

default_accessor_name-id : (stem : String) → default_accessor_name (stem <> "_id") ≡ stem
unfolding default_accessor_name
default_accessor_name-id stem =
    let longer = len-append stem "_id" in
    let start : len (stem <> "_id") - 3 ≡ len stem = omega (arith, longer) in
    rw (stem-ends_with_id stem) (ap (slice (stem <> "_id") 0) start ∙ slice-append_left stem "_id")

stem-ne : (stem : String) → stem ≢ stem <> "_id"
stem-ne stem h = omega (arith, ap len h, len-append stem "_id")

-- A field `<stem>_id` with no accessor name of its own leaves its column under that name and puts
-- its descriptor under `<stem>`; what is assigned through it, a key or a remote object, is the key
-- that a later read resolves.
pub contribute_to_class-accessors :
    {C : Type 0} (p : Platform) (cache : DataCache C)
    (on_fetch : List Reference → Result (Option Json)) (default_ttl : ℕ) (f : RemoteForeignKey)
    (stem : String) (attributes : Dict String ClassAttribute) (w : Wiring)
    → is_set f.accessor_name ≡ false
    → let class_attributes = (contribute_to_class f (stem <> "_id") (attributes, w)).0 in
      (get (stem <> "_id") class_attributes ≡ some (column f))
      × (get stem class_attributes ≡ some (descriptor f (stem <> "_id")))
      × ((v : Assigned) (i : Instance) (world : World C)
          → get_remote p cache on_fetch default_ttl f
              (stem <> "_id")
              (set_remote (stem <> "_id") v i)
              world
            ≡ resolve_key p cache on_fetch default_ttl f (key_of v) world)
unfolding contribute_to_class get_remote set_remote
contribute_to_class-accessors p cache on_fetch default_ttl f stem attributes w plain =
    let name = stem <> "_id" in
    let accessor : accessor_of f name ≡ stem = rw plain (default_accessor_name-id stem) in
    (
      ap (λ a. get name (put a (descriptor f name) (put name (column f) attributes))) accessor
          ∙ get-put stem name (descriptor f name) (put name (column f) attributes)
          ∙ rw (==_ne stem name (stem-ne stem)) (get-put_self name (column f) attributes),
      ap (λ a. get stem (put a (descriptor f name) (put name (column f) attributes))) accessor
          ∙ get-put_self stem (descriptor f name) (put name (column f) attributes),
      λ v i world.
          ap (λ pk. resolve_key p cache on_fetch default_ttl f pk world)
            (get_or-put_self name (key_of v) null i),
    )
