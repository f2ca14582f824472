-- ===== src/Settings.antt =====
-- src/django_event_bus/settings.py. A value is a scalar or a reference to a `dict`, since the
-- section copies the dicts that it hands out; the heap holds the dicts.
pub mod Caching
pub mod Sharing
use django_event_bus.Prelude.{
  ℕ, suc, String, string_eq, nat_eq, List, [], ◌∷◌, Bool, true, false, ◌&&◌, Option, none, some,
  if◌then◌else◌, ◌==◌,
}
use django_event_bus.Prelude.Lists.{contains}
use django_event_bus.Prelude.Dict.{Dict, get, get_or, put}
use django_event_bus.Exceptions.{Error, Result, ok, err, attribute_error, improperly_configured}
use django_event_bus.Exceptions.Exec.{Exec, pure, raise, gets, modify, ◌>>=◌, ◌>>◌}
use django_event_bus.Platform.{Json, null}

pub data Value : Type 0 where
  scalar : Json → Value
  dict_at : ℕ → Value

abbrev pub Object : Type 0
Object = Dict String Value

pub record Heap : Type 0 where
  pub objects : Dict ℕ Object
  pub next : ℕ

-- What `django_settings` holds under the section's name, the section's `_cache`, and the heap.
pub record Section : Type 0 where
  pub user : Option Object
  pub cache : Object
  pub heap : Heap

-- `user_settings`.
abbrev pub user_settings : Option Object → Object
user_settings none = []
user_settings (some d) = d

abbrev pub is_none : Value → Bool
is_none (scalar null) = true
is_none _ = false

-- `dict(value)` if `value` is a dict.
abbrev pub allocate : Object → Heap → Heap
allocate d h = record { objects = put h.next d h.objects; next = suc h.next }

abbrev pub copy_value : Value → Exec Section Value
copy_value (scalar v) = pure (scalar v)
copy_value (dict_at r) = λ s.
    (ok (dict_at s.heap.next), record s { heap = allocate (get_or r [] s.heap.objects) s.heap })

abbrev pub keep_value : String → Value → Exec Section Value
keep_value attr v = modify (λ s. record s { cache = put attr v s.cache }) >> pure v

module _ (defaults : Object) (required : List String) where
  abbrev pub resolve_value : String → Value → Exec Section Value
  resolve_value attr v =
      if contains required attr && is_none v
      then raise improperly_configured
      else (copy_value v >>= keep_value attr)

  abbrev pub on_cached : String → Value → Option Value → Exec Section Value
  on_cached attr default (some v) = pure v
  on_cached attr default none =
      gets (λ s. get_or attr default (user_settings s.user)) >>= resolve_value attr

  abbrev pub on_default : String → Option Value → Exec Section Value
  on_default attr none = raise attribute_error
  on_default attr (some default) = gets (λ s. get attr s.cache) >>= on_cached attr default

  -- `__getattr__`.
  unfoldable pub get_attr : String → Exec Section Value
  get_attr attr = on_default attr (get attr defaults)

-- `reload`, and `_on_setting_changed` for the section of this name.
unfoldable pub reload : Exec Section (Unit {0})
reload = modify (λ s. record s { cache = [] })

unfoldable pub on_setting_changed : (setting_name setting : String) → Exec Section (Unit {0})
on_setting_changed setting_name setting = if setting == setting_name then reload else pure tt
