-- ===== src/Remote/Objects/Identity.antt =====
-- src/django_event_bus/remote/objects.py: which remote objects are equal, and their hash. The hash
-- of a tuple is a parameter.
use django_event_bus.Prelude.{
  String, string_eq, Bool, true, false, Option, none, some, ◌&&◌, ◌==◌, ==_iff, ◌≡◌, ◌↔◌, refl, ap,
  sym, ◌∙◌, some-injective, arith,
}
use django_event_bus.Exceptions.{Result, ok, err}
use django_event_bus.Exceptions.Pure.{ok-injective}
use django_event_bus.Platform.{
  Json, null, bool, num, str, arr, obj, ℤ, pos, Key, number, text, key_eq, int_eq,
}
use django_event_bus.Platform.Comparing.{json_eq, equals_number}
use django_event_bus.Envelope.{hash_key}
use django_event_bus.Remote.Fields.{Reference, RemoteObject}

abbrev pub reference_eq : Reference → Reference → Bool
reference_eq a b = a.service == b.service && (a.resource == b.resource && json_eq a.pk b.pk)

-- `__eq__`. A value of another type is `none`, and so is NotImplemented.
unfoldable pub object_eq : RemoteObject → Option RemoteObject → Option Bool
object_eq a none = none
object_eq a (some b) = some (reference_eq a.reference b.reference)

abbrev pub hash_with : (String → String → Key → ℤ) → String → String → Result Key → Result ℤ
hash_with tuple_hash service resource (err x) = err x
hash_with tuple_hash service resource (ok k) = ok (tuple_hash service resource k)

-- `__hash__`; TypeError if `pk` is a list or a dict.
unfoldable pub object_hash : (String → String → Key → ℤ) → RemoteObject → Result ℤ
object_hash tuple_hash o =
    hash_with tuple_hash o.reference.service o.reference.resource (hash_key o.reference.pk)

hash_key-equals_number : (n : ℤ) (b : Json) → equals_number n b ≡ true → ok (number n) ≡ hash_key b
unfolding hash_key
hash_key-equals_number n null h = cc
hash_key-equals_number n (bool true) h = ap (λ m. ok (number m)) ((==_iff n (pos 1)).0 h)
hash_key-equals_number n (bool false) h = ap (λ m. ok (number m)) ((==_iff n (pos 0)).0 h)
hash_key-equals_number n (num m) h = ap (λ m. ok (number m)) ((==_iff n m).0 h)
hash_key-equals_number n (str s) h = cc
hash_key-equals_number n (arr xs) h = cc
hash_key-equals_number n (obj d) h = cc

-- Equal values are one key, or neither is a key.
hash_key-json_eq : (a b : Json) → json_eq a b ≡ true → hash_key a ≡ hash_key b
unfolding json_eq hash_key
hash_key-json_eq null null h = refl
hash_key-json_eq (bool true) b h = hash_key-equals_number (pos 1) b h
hash_key-json_eq (bool false) b h = hash_key-equals_number (pos 0) b h
hash_key-json_eq (num n) b h = hash_key-equals_number n b h
hash_key-json_eq (str s) (str t) h = ap (λ r. ok (text r)) ((==_iff s t).0 h)
hash_key-json_eq (arr xs) (arr ys) h = refl
hash_key-json_eq (obj d) (obj e) h = refl
hash_key-json_eq _ _ h = cc

equals_number-hash_key : (n : ℤ) (b : Json) → hash_key b ≡ ok (number n) → equals_number n b ≡ true
unfolding hash_key
equals_number-hash_key n null h = absurd (cc)
equals_number-hash_key n (bool true) h = (==_iff n (pos 1)).1 (cc)
equals_number-hash_key n (bool false) h = (==_iff n (pos 0)).1 (cc)
equals_number-hash_key n (num m) h = (==_iff n m).1 (cc)
equals_number-hash_key n (str s) h = absurd (cc)
equals_number-hash_key n (arr xs) h = absurd (cc)
equals_number-hash_key n (obj d) h = absurd (cc)

-- Values that are one key are equal.
json_eq-hash_key :
    (a b : Json) (k : Key) → hash_key a ≡ ok k → hash_key b ≡ ok k → json_eq a b ≡ true
unfolding json_eq hash_key
json_eq-hash_key null null k e f = refl
json_eq-hash_key (bool true) b k e f = equals_number-hash_key (pos 1) b (f ∙ sym e)
json_eq-hash_key (bool false) b k e f = equals_number-hash_key (pos 0) b (f ∙ sym e)
json_eq-hash_key (num n) b k e f = equals_number-hash_key n b (f ∙ sym e)
json_eq-hash_key (str s) (str t) k e f = (==_iff s t).1 (cc)
json_eq-hash_key null (bool true) k e f = absurd (cc)
json_eq-hash_key null (bool false) k e f = absurd (cc)
json_eq-hash_key (str s) (bool true) k e f = absurd (cc)
json_eq-hash_key (str s) (bool false) k e f = absurd (cc)
json_eq-hash_key _ _ k e f = absurd (cc)

reference_eq_iff :
    (a b : Reference)
    → (reference_eq a b ≡ true)
      ↔ (a.service ≡ b.service) × (a.resource ≡ b.resource) × (json_eq a.pk b.pk ≡ true)
reference_eq_iff a b = ground (arith, ==_iff a.service b.service, ==_iff a.resource b.resource)

-- Two remote objects that `__eq__` calls equal have the same hash, or neither can be hashed, as
-- `__hash__` promises.
pub object_hash-object_eq :
    (tuple_hash : String → String → Key → ℤ) (a b : RemoteObject)
    → object_eq a (some b) ≡ some true
    → object_hash tuple_hash a ≡ object_hash tuple_hash b
unfolding object_eq object_hash
object_hash-object_eq tuple_hash a b h =
    let (one, two, three) = (reference_eq_iff a.reference b.reference).0 (some-injective h) in
    let key = hash_key-json_eq a.reference.pk b.reference.pk three in
    ap (λ s. hash_with tuple_hash s a.reference.resource (hash_key a.reference.pk)) one
    ∙ ap (λ r. hash_with tuple_hash b.reference.service r (hash_key a.reference.pk)) two
    ∙ ap (hash_with tuple_hash b.reference.service b.reference.resource) key

-- Two remote objects that can be hashed are equal exactly if they name the same service, the same
-- resource and the same key, whatever their payloads are.
pub object_eq_iff :
    (a b : RemoteObject) (k l : Key)
    → hash_key a.reference.pk ≡ ok k
    → hash_key b.reference.pk ≡ ok l
    → (object_eq a (some b) ≡ some true)
      ↔ ◌≡◌ {A = String × String × Key}
          (a.reference.service, a.reference.resource, k)
          (b.reference.service, b.reference.resource, l)
unfolding object_eq
object_eq_iff a b k l e f = (
  λ h.
      let (one, two, three) = (reference_eq_iff a.reference b.reference).0 (some-injective h) in
      let same : k ≡ l =
        ok-injective (sym e ∙ hash_key-json_eq a.reference.pk b.reference.pk three ∙ f) in
      rw (one, two, same),
  λ h. ap some (
      (reference_eq_iff a.reference b.reference).1 (
        ap (λ q. q.0) h,
        ap (λ q. q.1) h,
        json_eq-hash_key a.reference.pk b.reference.pk k e (f ∙ ap (λ q. ok q.2) (sym h)),
      )),
)
