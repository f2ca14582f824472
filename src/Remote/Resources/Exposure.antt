-- ===== src/Remote/Resources/Exposure.antt =====
-- Which class answers for a name after any calls of `expose_resource`.
use django_event_bus.Prelude.{
  String, string_eq, List, [], ◌∷◌, Option, none, some, Eq, ◌==◌, ==_iff, ◌≡◌, refl, sym, ap, subst,
  ◌∙◌, ◌⊎◌, inl, inr, Bool-cases,
}
use django_event_bus.Prelude.Dict.{Dict, get, put, get-put}
use django_event_bus.Exceptions.{Result, ok, err}
use django_event_bus.Remote.Resources.{Model, Serializer, check_no_unserializable_relation_fields}
use django_event_bus.Remote.Resources.Registry.{claim, expose_as, expose_resource}

module _ {R I : Type 0} ⦃is : Eq R⦄ (classes : R → Serializer I) where
  -- What is known of a class under its name: it says so itself, and it shows no relation that it
  -- does not turn into a value.
  pub record Exposable (resource : String) (c : R) : Type 0 where
    pub model : Model I
    pub has_model : (classes c).model ≡ some model
    pub has_resource : (classes c).resource ≡ some resource
    pub checked : check_no_unserializable_relation_fields (classes c) model ≡ ok tt

  abbrev Claimed : R → Dict String R → Result R × Dict String R → Type 0
  Claimed c s q =
      (q.1 ≡ s)
      ⊎ ((resource : String) × Exposable resource c
          × ((get resource s ≡ none) ⊎ (get resource s ≡ some c))
          × (q.1 ≡ put resource c s))

  claim-Claimed :
      (resource : String) (c : R) (s : Dict String R)
      → Exposable resource c
      → (o : Option R) → get resource s ≡ o
      → Claimed c s (claim resource c o s)
  claim-Claimed resource c s fine none h = inr (resource, fine, inl h, refl)
  claim-Claimed resource c s fine (some existing) h = elim (Bool-cases (existing == c)) [
    | inl same ↦
        let e = (==_iff existing c).0 same in
        rw same (inr (resource, fine, inr (h ∙ ap (λ d. some d) e), refl))
    | inr other ↦ rw other (inl refl)
  ]

  expose_resource-Claimed : (c : R) (s : Dict String R) → Claimed c s (expose_resource classes c s)
  unfolding expose_resource
  expose_resource-Claimed c s = of (classes c).model refl (classes c).resource refl
    where
      checked :
          (m : Model I) (resource : String)
          → (classes c).model ≡ some m
          → (classes c).resource ≡ some resource
          → (r : Result (Unit {0})) → check_no_unserializable_relation_fields (classes c) m ≡ r
          → Claimed c s (expose_as classes c (some m) (some resource) s)
      checked m resource e e' (ok tt) h = rw h (
          claim-Claimed resource c s
            (record { model = m; has_model = e; has_resource = e'; checked = h }) (get resource s)
            refl)
      checked m resource e e' (err x) h = rw h (inl refl)

      of :
          (o : Option (Model I))
          → (classes c).model ≡ o
          → (o' : Option String) → (classes c).resource ≡ o'
          → Claimed c s (expose_as classes c o o' s)
      of none e o' e' = inl refl
      of (some m) e none e' = inl refl
      of (some m) e (some resource) e' = checked m resource e e' _ refl

  -- The registry after calls of `expose_resource` for these classes in turn, of which any may
  -- raise.
  unfoldable pub expose_all : List R → Dict String R → Dict String R
  expose_all [] s = s
  expose_all (c ∷ cs) s = expose_all cs (expose_resource classes c s).1

  abbrev pub Valid : Dict String R → Type 0
  Valid s = (resource : String) (c : R) → get resource s ≡ some c → Exposable resource c

  -- A class that a name has, or gets.
  expose_resource-kept :
      (c d : R) (resource : String) (s : Dict String R)
      → get resource s ≡ some d
      → get resource (expose_resource classes c s).1 ≡ some d
  expose_resource-kept c d resource s h = elim (expose_resource-Claimed c s) [
    | inl same ↦ ap (get resource) same ∙ h
    | inr (taken, fine, free, e) ↦
        ap (get resource) e ∙ get-put taken resource c s ∙ elim (Bool-cases (taken == resource)) [
          | inr other ↦ rw other h
          | inl same ↦
              let e' = (==_iff taken resource).0 same in
              let free' = ap (λ r. get r s) e' in
              elim free [
                | inl nobody ↦ absurd (cc (nobody, free', h))
                | inr ours ↦ rw same (cc (ours, free', h))
              ]
        ]
  ]

  expose_resource-Valid :
      (c : R) (s : Dict String R) → Valid s → Valid (expose_resource classes c s).1
  expose_resource-Valid c s fine resource d h = elim (expose_resource-Claimed c s) [
    | inl same ↦ fine resource d (sym (ap (get resource) same) ∙ h)
    | inr (taken, exposable, free, e) ↦
        let now = sym (get-put taken resource c s) ∙ sym (ap (get resource) e) ∙ h in
        elim (Bool-cases (taken == resource)) [
          | inr other ↦ fine resource d (rw other at now)
          | inl same ↦
              let e' = (==_iff taken resource).0 same in
              let same_class : some c ≡ some d = rw same at now in
              let name_of : Option R → R = λ o. elim o [ none ↦ c | some x ↦ x ] in
              subst (λ r. Exposable r d) e'
                (subst (λ x. Exposable taken x) (ap name_of same_class) exposable)
        ]
  ]

  -- After any calls of `expose_resource`, those that raise included, every class of the registry
  -- stands under the name that its own `Meta` gives, has a model and passed the check for
  -- relation fields, if that held before; and a name that a class had before still has that
  -- class.
  pub expose_all-Valid :
      (cs : List R) (s : Dict String R)
      → Valid s
      → Valid (expose_all cs s)
        × ((resource : String) (c : R)
            → get resource s ≡ some c
            → get resource (expose_all cs s) ≡ some c)
  unfolding expose_all
  expose_all-Valid [] s fine = (fine, λ resource c h. h)
  expose_all-Valid (d ∷ cs) s fine =
      let (later, kept) =
        expose_all-Valid cs (expose_resource classes d s).1 (expose_resource-Valid d s fine) in
      (later, λ resource c h. kept resource c (expose_resource-kept d c resource s h))
