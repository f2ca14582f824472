-- ===== src/Remote/Resources/Representation.antt =====
-- What `to_representation` shows of an instance.
use django_event_bus.Prelude.{
  String, string_eq, List, [], ◌∷◌, true, false, false≢true, ◌||◌, Option, none, some, ◌==◌, ==_iff,
  ◌≡◌, ◌≢◌, refl, sym, ap, ◌∙◌, inl, inr, Bool-cases, arith,
}
use django_event_bus.Prelude.Lists.{contains}
use django_event_bus.Prelude.Dict.{Dict, get, put, get-put}
use django_event_bus.Exceptions.{Result, ok, err, type_error}
use django_event_bus.Exceptions.Pure.{>>=-eq-ok, ok-injective}
use django_event_bus.Platform.{Json}
use django_event_bus.Remote.Resources.{
  Model, Serializer, Attributes, get_fields, getter, own_or_base, Attribute, plain, related,
  on_attribute, check_method, check_field, on_method, represent_field, represent_fields,
  to_representation,
}
use django_event_bus.Remote.Resources.Naming.{Declares, get_fields-Declares, Declares-excluded}

module _ {I : Type 0} where
  module _ (attributes : Attributes I) (c : Serializer I) (i : I) where
    abbrev Shown : List String → Dict String Json → Dict String Json → String → Type 0
    Shown names before d k =
        (contains names k ≡ true
          → (v : Json) × (represent_field attributes c i k ≡ ok v) × (get k d ≡ some v))
        × (contains names k ≡ false → get k d ≡ get k before)

    represent_fields-Shown :
        (names : List String) (before d : Dict String Json)
        → represent_fields attributes c i names before ≡ ok d
        → (k : String) → Shown names before d k
    unfolding represent_fields
    represent_fields-Shown [] before d h k =
        (λ e. absurd (false≢true e), λ e. ap (get k) (sym (ok-injective h)))
    represent_fields-Shown (name ∷ names) before d h k =
        let (v, e, rest) = >>=-eq-ok (represent_field attributes c i name) _ h in
        let (shown, kept) = represent_fields-Shown names (put name v before) d rest k in
        let written = get-put name k v before in
        elim (Bool-cases (contains names k)) [
          | inl later ↦ (λ _. shown later, λ none_left. absurd (ground (arith, later, none_left)))
          | inr last ↦ elim (Bool-cases (name == k)) [
            | inl same ↦
                let e' = ap (represent_field attributes c i) (sym ((==_iff name k).0 same)) ∙ e in
                (
                  λ _. (v, e', kept last ∙ written ∙ rw same refl),
                  λ gone. absurd (ground (arith, same, gone)),
                )
            | inr other ↦ (
              λ here. absurd (ground (arith, other, last, here)),
              λ _. kept last ∙ written ∙ rw other refl,
            )
          ]
        ]

    -- What a representation says under a name: what the method `get_<name>` of the class returned
    -- or, for a class without it, the value that the instance has under that name.
    pub data FieldValue (name : String) (v : Json) : Type 0 where
      by_method :
          (method : I → Result Json)
          → c.methods name ≡ some method
          → method i ≡ ok v
          → FieldValue name v
      by_attribute :
          c.methods name ≡ none
          → (name == "fields" || name == "queryset") ≡ false
          → attributes i name ≡ ok (plain v)
          → FieldValue name v

    on_attribute-plain :
        (a : Result Attribute) (v : Json) → on_attribute attributes a ≡ ok v → a ≡ ok (plain v)
    on_attribute-plain (ok (plain w)) v h = ap (λ x. ok (plain x)) (ok-injective h)
    on_attribute-plain (ok related) v h = absurd (cc (h))
    on_attribute-plain (err x) v h = absurd (ground arith)

    represent_field-FieldValue :
        (name : String) (v : Json) → represent_field attributes c i name ≡ ok v → FieldValue name v
    unfolding represent_field getter
    represent_field-FieldValue name v h = of (c.methods name) refl h
      where
        of :
            (own : Option (I → Result Json))
            → c.methods name ≡ own
            → on_method attributes i name (own_or_base name own) ≡ ok v
            → FieldValue name v
        of (some method) e k = by_method method e k
        of none e k = elim (Bool-cases (name == "fields" || name == "queryset")) [
          | inl reserved ↦ absurd (cc (rw reserved at k))
          | inr free ↦ by_attribute e free (on_attribute-plain _ v (rw free at k))
        ]

    -- What is known of a representation.
    pub record Representation (d : Dict String Json) : Type 0 where
      pub names : List String
      pub declared : get_fields c ≡ ok names
      pub described : Declares c names
      pub shown :
          (k : String) → contains names k ≡ true → (v : Json) × FieldValue k v × (get k d ≡ some v)
      pub no_more : (k : String) → contains names k ≡ false → get k d ≡ none
      pub nothing_excluded : (k : String) → contains c.exclude k ≡ true → get k d ≡ none

    -- A representation has exactly the fields of the model that `Meta` does not exclude, or those
    -- that `Meta` lists, and never one that it excludes; each holds what the class's `get_<field>` method returned or, without one, the
    -- plain value that the instance has under that name.
    pub to_representation-Representation :
        (d : Dict String Json) → to_representation attributes c i ≡ ok d → Representation d
    unfolding to_representation get
    to_representation-Representation d h =
        let (names, declared, rest) = >>=-eq-ok (get_fields c) _ h in
        let shown = represent_fields-Shown names [] d rest in
        record {
          names = names;
          declared = declared;
          described = get_fields-Declares c names declared;
          shown = λ k named.
              let (v, e, there) = (shown k).0 named in (v, represent_field-FieldValue k v e, there);
          no_more = λ k e. (shown k).1 e ∙ refl;
          nothing_excluded = λ k e.
              (shown k).1 (Declares-excluded c names k (get_fields-Declares c names declared) e)
              ∙ refl;
        }

  -- A class may declare a field of the name `fields` or `queryset`. The registration lets it
  -- through, and reading that field calls the base class's own method, which raises.
  pub check_field-reserved :
      (attributes : Attributes I) (c : Serializer I) (m : Model I) (i : I) (name : String)
      → c.methods name ≡ none
      → (name == "fields" || name == "queryset") ≡ true
      → (check_field c m name ≡ ok tt) × (represent_field attributes c i name ≡ err type_error)
  unfolding check_field represent_field getter
  check_field-reserved attributes c m i name own h =
      let base : getter c name ≡ some (λ instance_shown. err type_error) =
        ap (own_or_base name) own ∙ rw h refl in
      (ap (check_method m name) base, ap (on_method attributes i name) base)

  -- A class whose fields include the name `fields` or `queryset`, with no method of its own for
  -- it, passes the registration's check of that field; but no instance of it is ever represented.
  pub to_representation-reserved :
      (attributes : Attributes I) (c : Serializer I) (m : Model I) (i : I) (name : String)
      {names : List String}
      → c.methods name ≡ none
      → (name == "fields" || name == "queryset") ≡ true
      → get_fields c ≡ ok names
      → contains names name ≡ true
      → (check_field c m name ≡ ok tt)
        × ((d : Dict String Json) → to_representation attributes c i ≢ ok d)
  to_representation-reserved attributes c m i name own h declared named =
      let (accepted, raises) = check_field-reserved attributes c m i name own h in
      (
        accepted,
        λ d done.
            let shows = to_representation-Representation attributes c i d done in
            let same = ok-injective (sym shows.declared ∙ declared) in
            let (v, value, _) = shows.shown name (ap (λ l. contains l name) same ∙ named) in
            unreserved v value,
      )
    where
      unreserved : (v : Json) → FieldValue attributes c i name v → ⊥
      unreserved v (by_method method has_one _) = absurd (cc (own, has_one))
      unreserved v (by_attribute _ free _) = absurd (cc (h, free))
