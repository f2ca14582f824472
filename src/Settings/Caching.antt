-- ===== src/Settings/Caching.antt =====
-- A setting that was read keeps its value until the section is reloaded.
use django_event_bus.Prelude.{
  ℕ, String, string_eq, nat_eq, List, [], ◌∷◌, false, ◌&&◌, Option, none, some, ◌≡◌, refl, sym, ap,
  ◌∙◌, Bool-cases, ◌⊎◌, inl, inr, ◌==◌, ==_iff,
}
use django_event_bus.Prelude.Lists.{contains}
use django_event_bus.Prelude.Dict.{get, get_or, put, get-put, get-put_self}
use django_event_bus.Exceptions.{Result, ok, err, improperly_configured}
use django_event_bus.Exceptions.Pure.{ok-injective}
use django_event_bus.Exceptions.Exec.{>>=-eq-ok}
use django_event_bus.Settings.{
  Value, Object, Section, is_none, scalar, dict_at, copy_value, keep_value, resolve_value,
  on_cached, on_default, user_settings, get_attr, reload,
}

module _ (defaults : Object) (required : List String) where
  -- What a read does: it leaves the section, or caches a value under a name that had none.
  abbrev Cached : String → Section → Section → Type 0
  Cached attr s t =
      (t.user ≡ s.user)
      × ((t.cache ≡ s.cache)
          ⊎ ((v : Value) × (get attr s.cache ≡ none) × (t.cache ≡ put attr v s.cache)))

  resolve_value-Cached :
      (attr : String) (v : Value) (s : Section)
      → get attr s.cache ≡ none
      → Cached attr s (resolve_value defaults required attr v s).1
  resolve_value-Cached attr (scalar v) s absent =
      elim (Bool-cases (contains required attr && is_none (scalar v))) [
        | inl missing ↦ rw missing (refl, inl refl)
        | inr given ↦ rw given (refl, inr (scalar v, absent, refl))
      ]
  resolve_value-Cached attr (dict_at r) s absent =
      elim (Bool-cases (contains required attr && false)) [
        | inl missing ↦ rw missing (refl, inl refl)
        | inr given ↦ rw given (refl, inr (_, absent, refl))
      ]

  get_attr-Cached :
      (attr : String) (s : Section) → Cached attr s (get_attr defaults required attr s).1
  unfolding get_attr
  get_attr-Cached attr s = of (get attr defaults)
    where
      cached :
          (default : Value) (o : Option Value)
          → get attr s.cache ≡ o
          → Cached attr s (on_cached defaults required attr default o s).1
      cached default (some v) e = (refl, inl refl)
      cached default none e = resolve_value-Cached attr _ s e

      of : (o : Option Value) → Cached attr s (on_default defaults required attr o s).1
      of none = (refl, inl refl)
      of (some default) = cached default (get attr s.cache) refl

-- What may happen to a section between two reloads: an attribute is read, somebody writes into a
-- dict, the Django settings change.
pub data Event : Type 0 where
  read : String → Event
  write : (object : ℕ) → String → Value → Event
  change : Option Object → Event

-- `d[key] = value`.
abbrev pub write_item : ℕ → String → Value → Section → Section
write_item object key v s = record s {
  heap = record s.heap {
    objects = put object (put key v (get_or object [] s.heap.objects)) s.heap.objects;
  };
}

module _ (defaults : Object) (required : List String) where
  abbrev happen : Event → Section → Section
  happen (read attr) s = (get_attr defaults required attr s).1
  happen (write object key v) s = write_item object key v s
  happen (change user) s = record s { user = user }

  unfoldable pub run : List Event → Section → Section
  run [] s = s
  run (event ∷ events) s = run events (happen event s)

  read-keeps :
      (attr other : String) (s : Section) {v : Value}
      → get attr s.cache ≡ some v
      → get attr (get_attr defaults required other s).1.cache ≡ some v
  read-keeps attr other s h = elim (get_attr-Cached defaults required other s).1 [
    | inl same ↦ ap (get attr) same ∙ h
    | inr (w, absent, e) ↦
        ap (get attr) e ∙ get-put other attr w s.cache ∙ elim (Bool-cases (other == attr)) [
          | inl same ↦
              let moved = ap (λ a. get a s.cache) ((==_iff other attr).0 same) in
              absurd (cc (absent, moved, h))
          | inr differs ↦ rw differs h
        ]
  ]

  run-keeps :
      (attr : String) (v : Value) (events : List Event) (s : Section)
      → get attr s.cache ≡ some v
      → get attr (run events s).cache ≡ some v
  unfolding run
  run-keeps attr v [] s h = h
  run-keeps attr v (read other ∷ events) s h = run-keeps attr v events _ (read-keeps attr other s h)
  run-keeps attr v (write object key w ∷ events) s h = run-keeps attr v events _ h
  run-keeps attr v (change user ∷ events) s h = run-keeps attr v events _ h

  resolve_value-keeps :
      (attr : String) (w : Value) (s t : Section) (v : Value)
      → resolve_value defaults required attr w s ≡ (ok v, t)
      → get attr t.cache ≡ some v
  resolve_value-keeps attr w s t v h = elim (Bool-cases (contains required attr && is_none w)) [
    | inl missing ↦
        let raised : ◌≡◌ {A = Result Value × Section} (err improperly_configured, s) (ok v, t) =
          rw missing at h in
        absurd (cc (raised))
    | inr given ↦
        let (x, u, copied, kept) = >>=-eq-ok (copy_value w) (keep_value attr) s (rw given at h) in
        ap (λ q. get attr q.1.cache) (sym kept)
        ∙ get-put_self attr x u.cache
        ∙ ap (λ r. some r) (ok-injective (ap (λ q. q.0) kept))
  ]

  -- A read that succeeded has cached its value, and its name has a default.
  get_attr-keeps :
      (attr : String) (s t : Section) (v : Value)
      → get_attr defaults required attr s ≡ (ok v, t)
      → (default : Value) × (get attr defaults ≡ some default) × (get attr t.cache ≡ some v)
  unfolding get_attr
  get_attr-keeps attr s t v h = of (get attr defaults) refl h
    where
      cached :
          (default : Value) (o : Option Value)
          → get attr s.cache ≡ o
          → on_cached defaults required attr default o s ≡ (ok v, t)
          → get attr t.cache ≡ some v
      cached default (some w) e k =
          ap (λ q. get attr q.1.cache) (sym k)
          ∙ e
          ∙ ap (λ r. some r) (ok-injective (ap (λ q. q.0) k))
      cached default none e k = resolve_value-keeps attr _ s t v k

      of :
          (o : Option Value)
          → get attr defaults ≡ o
          → on_default defaults required attr o s ≡ (ok v, t)
          → (default : Value) × (get attr defaults ≡ some default) × (get attr t.cache ≡ some v)
      of none e k = absurd (cc (k))
      of (some default) e k = (default, e, cached default (get attr s.cache) refl k)

  reloaded :
      (attr : String) (s : Section) {default : Value}
      → get attr defaults ≡ some default
      → let fresh = (reload s).1 in
        get_attr defaults required attr fresh
        ≡ resolve_value defaults required attr
            (get_or attr default (user_settings fresh.user))
            fresh
  unfolding get_attr reload get
  reloaded attr s known = rw known refl

  cached_read :
      (attr : String) (s : Section) {default v : Value}
      → get attr defaults ≡ some default
      → get attr s.cache ≡ some v
      → get_attr defaults required attr s ≡ (ok v, s)
  unfolding get_attr
  cached_read attr s known kept = rw (known, kept) refl

  -- A read that succeeded fixes the value: whatever is read, written and changed afterwards, the
  -- attribute reads the same, until the section is reloaded. Then it is taken anew from the Django
  -- settings, or else the default.
  pub get_attr-run :
      (attr : String) (s t : Section) (v : Value) (events : List Event)
      → get_attr defaults required attr s ≡ (ok v, t)
      → (get_attr defaults required attr (run events t) ≡ (ok v, run events t))
        × ((default : Value)
            → get attr defaults ≡ some default
            → let fresh = (reload (run events t)).1 in
              get_attr defaults required attr fresh
              ≡ resolve_value defaults required attr
                  (get_or attr default (user_settings fresh.user))
                  fresh)
  get_attr-run attr s t v events h =
      let (default, known, kept) = get_attr-keeps attr s t v h in
      (
        cached_read attr (run events t) known (run-keeps attr v events t kept),
        λ default' known'. reloaded attr (run events t) known',
      )
