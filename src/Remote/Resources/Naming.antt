-- ===== src/Remote/Resources/Naming.antt =====
-- Which fields a serializer class declares.
use django_event_bus.Prelude.{
  String, string_eq, List, [], ◌∷◌, true, false, not, ◌&&◌, Option, none, some, ◌==◌, ==_iff, map,
  if◌then◌else◌, ◌≡◌, refl, sym, ap, ◌∙◌, inl, inr, Bool-cases, arith,
}
use django_event_bus.Prelude.Lists.{contains}
use django_event_bus.Exceptions.{Result, ok, err, assertion_error, improperly_configured}
use django_event_bus.Exceptions.Pure.{ok-injective}
use django_event_bus.Remote.Resources.{
  Model, Serializer, FieldNames, all_fields, listed, ModelField, without, is_empty, field_names,
  get_fields,
}

contains-without :
    (exclude names : List String) (k : String)
    → contains (without exclude names) k ≡ (contains names k && not (contains exclude k))
unfolding without
contains-without exclude [] k = refl
contains-without exclude (name ∷ names) k =
    let rest = contains-without exclude names k in
    elim (Bool-cases (name == k)) [
      | inl same ↦
          let moved = ap (contains exclude) ((==_iff name k).0 same) in
          elim (Bool-cases (contains exclude k)) [
            | inl out ↦ rw (moved ∙ out, rest, same, out) (ground arith)
            | inr kept ↦ rw (moved ∙ kept, same, kept) refl
          ]
      | inr other ↦ elim (Bool-cases (contains exclude name)) [
        | inl out ↦ rw (out, rest, other) refl
        | inr kept ↦ rw (kept, other, rest) refl
      ]
    ]

abbrev pub names_of : {I : Type 0} → Model I → List String
names_of m = map (λ (f : ModelField). f.name) m.fields

-- The names are those of the model's fields but for the excluded ones, or they are listed by a
-- class that excludes none.
pub data Declares {I : Type 0} (c : Serializer I) (names : List String) : Type 0 where
  all_of_model :
      (m : Model I)
      → c.model ≡ some m
      → c.fields ≡ all_fields
      → ((k : String) → contains names k ≡ (contains (names_of m) k && not (contains c.exclude k)))
      → Declares c names
  as_listed : c.fields ≡ listed names → c.exclude ≡ [] → Declares c names

module _ {I : Type 0} (c : Serializer I) (names : List String) where
  pub get_fields-Declares : get_fields c ≡ ok names → Declares c names
  unfolding get_fields
  get_fields-Declares h = of c.model refl h
    where
      listing :
          (m : Model I) (f : FieldNames)
          → c.model ≡ some m
          → c.fields ≡ f
          → field_names c m f ≡ ok names
          → Declares c names
      listing m all_fields has e k = all_of_model m has e (λ name.
          ap (λ l. contains l name) (sym (ok-injective k))
          ∙ contains-without c.exclude (names_of m) name)
      listing m (listed some_names) has e k = only c.exclude refl k
        where
          only :
              (exclude : List String)
              → c.exclude ≡ exclude
              → ◌≡◌ {A = Result (List String)}
                  (if is_empty exclude then ok some_names else err improperly_configured)
                  (ok names)
              → Declares c names
          only [] none_out k' = as_listed (e ∙ ap (λ l. listed l) (ok-injective k')) none_out
          only (x ∷ xs) none_out k' = absurd (cc (k'))

      of :
          (o : Option (Model I))
          → c.model ≡ o
          → elim o [ none ↦ err assertion_error | some m ↦ field_names c m c.fields ] ≡ ok names
          → Declares c names
      of none has e = absurd (cc (e))
      of (some m) has e = listing m c.fields has refl e

  -- The names never hold one that is excluded.
  pub Declares-excluded :
      (k : String) → Declares c names → contains c.exclude k ≡ true → contains names k ≡ false
  Declares-excluded k (all_of_model m has e same) out = same k ∙ rw out (ground arith)
  Declares-excluded k (as_listed e none_out) out =
      absurd (cc (ap (λ l. contains l k) none_out, out))
