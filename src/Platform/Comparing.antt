-- ===== src/Platform/Comparing.antt =====
-- Python's `==` on JSON values: `True` and 1 are equal, and two `dict`s are equal whatever the
-- order of their fields.
use django_event_bus.Prelude.{
  ℕ, suc, String, string_eq, Bool, true, false, none, some, nat_beq, ◌&&◌, ◌==◌,
}
use django_event_bus.Platform.{
  Json, Items, Fields, null, bool, num, str, arr, obj, nil, cons, end, field, field_get, ℤ, pos,
}
use django_event_bus.Platform.Keys.{int_eq}

-- `int(b)`.
abbrev pub int_of_bool : Bool → ℤ
int_of_bool true = pos 1
int_of_bool false = pos 0

abbrev pub equals_null : Json → Bool
equals_null null = true
equals_null _ = false

abbrev pub equals_number : ℤ → Json → Bool
equals_number n (bool b) = n == int_of_bool b
equals_number n (num m) = n == m
equals_number _ _ = false

abbrev pub equals_text : String → Json → Bool
equals_text s (str t) = s == t
equals_text _ _ = false

abbrev pub count_fields : Fields → ℕ
count_fields end = 0
count_fields (field k v d) = suc (count_fields d)

unfoldable mutual
  pub json_eq : Json → Json → Bool
  json_eq null b = equals_null b
  json_eq (bool a) b = equals_number (int_of_bool a) b
  json_eq (num n) b = equals_number n b
  json_eq (str s) b = equals_text s b
  json_eq (arr xs) (arr ys) = items_eq xs ys
  json_eq (arr xs) _ = false
  json_eq (obj d) (obj e) = nat_beq (count_fields d) (count_fields e) && fields_eq d e
  json_eq (obj d) _ = false

  pub items_eq : Items → Items → Bool
  items_eq nil nil = true
  items_eq nil (cons y ys) = false
  items_eq (cons x xs) nil = false
  items_eq (cons x xs) (cons y ys) = json_eq x y && items_eq xs ys

  -- Every field of the first has an equal one in the second.
  pub fields_eq : Fields → Fields → Bool
  fields_eq end e = true
  fields_eq (field k v d) e =
      elim (field_get k e) [ none ↦ false | some w ↦ json_eq v w ] && fields_eq d e
