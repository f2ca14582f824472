-- ===== src/Platform.antt =====
-- What the program takes from Python's standard library: JSON values, times, and the functions
-- whose text forms it never looks into. Those functions are parameters.
mod Keys
pub mod Decimal
pub mod Comparing
pub use Keys.*
use django_event_bus.Prelude.{ℕ, String, List, [], ◌∷◌, Bool, true, false, Option, none, some}
use django_event_bus.Prelude.{◌==◌, string_eq, if◌then◌else◌}
use django_event_bus.Exceptions.{Result, ok, err, key_error, type_error}
use Keys.{ℤ, pos, Key, nothing, number, text}
use Decimal.{read_from, show, show-ne-nil, read_from-show}
use django_event_bus.Prelude.{◌≡◌, refl, subst}

abbrev pub Bytes : Type 0
Bytes = List ℕ

-- The values that `json.loads` returns, but for floats. An object is a `dict` with text keys.
mutual
  pub data Json : Type 0 where
    null : Json
    bool : Bool → Json
    num : ℤ → Json
    str : String → Json
    arr : Items → Json
    obj : Fields → Json

  pub data Items : Type 0 where
    nil : Items
    cons : Json → Items → Items

  pub data Fields : Type 0 where
    end : Fields
    field : String → Json → Fields → Fields

-- `d.get(k)` on an object's fields.
unfoldable pub field_get : String → Fields → Option Json
field_get k end = none
field_get k (field j v d) = if j == k then some v else field_get k d

-- `d[k]`: a subscript by a text on any value.
unfoldable pub subscript : Json → String → Result Json
unfolding field_get
subscript (obj d) k = elim (field_get k d) [ none ↦ err key_error | some v ↦ ok v ]
subscript _ k = err type_error

-- An aware `datetime`.
pub record DateTime : Type 0 where
  pub year : ℕ
  pub month : ℕ
  pub day : ℕ
  pub hour : ℕ
  pub minute : ℕ
  pub second : ℕ
  pub microsecond : ℕ
  pub utc_offset : ℤ

pub record Platform : Type 0 where
  -- `datetime.isoformat`, and `datetime.fromisoformat` on a text (ValueError if it is no date).
  pub isoformat : DateTime → String
  pub fromisoformat : String → Result DateTime
  -- `int(text)`: ValueError if it is no number.
  pub int_of_text : String → Result ℤ
  -- `int(text)` of bytes that are not plain digits: signs, spaces, underscores.
  pub int_of_bytes : Bytes → Result ℤ
  -- `json.dumps(value, cls=DjangoJSONEncoder).encode("utf-8")` and `json.loads`.
  pub json_dumps : Json → Bytes
  pub json_loads : Bytes → Result Json
  -- `f"{value}"` of a value that is no text.
  pub format_value : Json → String

-- `f"{value}"`.
abbrev pub format : Platform → Json → String
format p (str s) = s
format p v = p.format_value v

abbrev pub format_key : Platform → Key → String
format_key p (text s) = s
format_key p (number n) = p.format_value (num n)
format_key p nothing = p.format_value null

-- `int(value.decode())` and `str(n).encode()`.
unfoldable pub parse_int : Platform → Bytes → Result ℤ
parse_int p [] = p.int_of_bytes []
parse_int p (c ∷ cs) = elim (read_from 0 (c ∷ cs)) [
  | none ↦ p.int_of_bytes (c ∷ cs)
  | some n ↦ ok (pos n)
]

pub parse_int-show : (p : Platform) (n : ℕ) → parse_int p (show n) ≡ ok (pos n)
unfolding parse_int
parse_int-show p n =
    let (d, cs, e) = show-ne-nil n in
    let back : read_from 0 (d ∷ cs) ≡ some n =
      subst (λ l. read_from 0 l ≡ some n) e (read_from-show n) in
    rw e (rw (back, parse_int) refl)
