-- ===== src/Settings/Sharing.antt =====
-- The dicts that a section hands out are copies: writing into one changes neither the Django
-- settings nor the defaults.
use django_event_bus.Prelude.{
  ℕ, suc, ◌≤◌, ◌<◌, String, string_eq, nat_eq, List, [], ◌∷◌, false, ◌&&◌, Option, none, some,
  some-injective, ◌≡◌, refl, sym, subst, ◌∙◌, arith, Bool-cases, inl, inr, ◌==◌,
}
use django_event_bus.Prelude.Lists.{contains}
use django_event_bus.Prelude.Dict.{get, get_or, put, get-put}
use django_event_bus.Exceptions.{Result, ok, err}
use django_event_bus.Exceptions.Pure.{ok-injective}
use django_event_bus.Settings.{
  Value, Object, Section, is_none, allocate, scalar, dict_at, keep_value, resolve_value, on_cached,
  on_default, get_attr,
}
use django_event_bus.Settings.Caching.{write_item}

-- A dict that came to be at `base` or later.
abbrev pub Newer : (base next : ℕ) → Value → Type 0
Newer base next (scalar v) = Unit
Newer base next (dict_at r) = (base ≤ r) × (r < next)

pub record Apart (base : ℕ) (s : Section) : Type 0 where
  pub room : base ≤ s.heap.next
  pub cached : (attr : String) (v : Value) → get attr s.cache ≡ some v → Newer base s.heap.next v

-- The dicts that were there before are as they were.
abbrev pub Untouched : (base : ℕ) → Section → Section → Type 0
Untouched base s t = (r : ℕ) → r < base → get r t.heap.objects ≡ get r s.heap.objects

abbrev Gives : (base : ℕ) → Section → Result Value × Section → Type 0
Gives base s q =
    Apart base q.1 × Untouched base s q.1 × ((v : Value) → q.0 ≡ ok v → Newer base q.1.heap.next v)

Newer-suc : (base next : ℕ) (v : Value) → Newer base next v → Newer base (suc next) v
Newer-suc base next (scalar v) h = tt
Newer-suc base next (dict_at r) h = (h.0, ground (arith, h.1))

put-elsewhere :
    (base r object : ℕ) (d : Object) (s : Section)
    → base ≤ object
    → r < base
    → get r (put object d s.heap.objects) ≡ get r s.heap.objects
put-elsewhere base r object d s after before =
    get-put object r d s.heap.objects ∙ ground (arith, after, before)

kept_value :
    (base : ℕ) (attr : String) (v : Value) (s : Section)
    → Apart base s
    → Newer base s.heap.next v
    → Gives base s (keep_value attr v s)
kept_value base attr v s apart newer = (
  record {
    room = apart.room;
    cached = λ other w h.
        let now = sym (get-put attr other v s.cache) ∙ h in
        elim (Bool-cases (attr == other)) [
          | inr differs ↦ apart.cached other w (rw differs at now)
          | inl same ↦
              let e : some v ≡ some w = rw same at now in
              subst (λ x. Newer base s.heap.next x) (some-injective e) newer
        ];
  },
  λ r before. refl,
  λ w e. subst (λ x. Newer base s.heap.next x) (ok-injective e) newer,
)

module _ (defaults : Object) (required : List String) (base : ℕ) where
  copied :
      (attr : String) (d : Object) (s : Section)
      → Apart base s
      → Gives base s (keep_value attr (dict_at s.heap.next) (record s { heap = allocate d s.heap }))
  copied attr d s apart =
      let u : Section = record s { heap = allocate d s.heap } in
      let room : base ≤ u.heap.next = ground (arith, apart.room) in
      let apart' : Apart base u = record {
        room = room;
        cached = λ other w h. Newer-suc base s.heap.next w (apart.cached other w h);
      } in
      let (after, same, gives) =
        kept_value base attr (dict_at s.heap.next) u apart' (apart.room, omega arith) in
      (
        after,
        λ r before. same r before ∙ put-elsewhere base r s.heap.next d s apart.room before,
        gives,
      )

  resolve_value-Gives :
      (attr : String) (w : Value) (s : Section)
      → Apart base s
      → Gives base s (resolve_value defaults required attr w s)
  resolve_value-Gives attr (scalar v) s apart =
      elim (Bool-cases (contains required attr && is_none (scalar v))) [
        | inl missing ↦ rw missing (apart, (λ r before. refl), λ w e. absurd (cc (e)))
        | inr given ↦ rw given (kept_value base attr (scalar v) s apart tt)
      ]
  resolve_value-Gives attr (dict_at r) s apart =
      elim (Bool-cases (contains required attr && false)) [
        | inl missing ↦ rw missing (apart, (λ r before. refl), λ w e. absurd (cc (e)))
        | inr given ↦ rw given (copied attr (get_or r [] s.heap.objects) s apart)
      ]

  get_attr-Gives :
      (attr : String) (s : Section)
      → Apart base s
      → Gives base s (get_attr defaults required attr s)
  unfolding get_attr
  get_attr-Gives attr s apart = of (get attr defaults)
    where
      cached :
          (default : Value) (o : Option Value)
          → get attr s.cache ≡ o
          → Gives base s (on_cached defaults required attr default o s)
      cached default (some v) e = (
        apart,
        (λ r before. refl),
        λ w e'. subst (λ x. Newer base s.heap.next x) (ok-injective e') (apart.cached attr v e),
      )
      cached default none e = resolve_value-Gives attr _ s apart

      of : (o : Option Value) → Gives base s (on_default defaults required attr o s)
      of none = (apart, (λ r before. refl), λ w e. absurd (cc (e)))
      of (some default) = cached default (get attr s.cache) refl

  -- A caller reads an attribute and, if that is a dict, writes an item into it.
  abbrev write_into : Result Value → String → Value → Section → Section
  write_into (ok (dict_at object)) key v s = write_item object key v s
  write_into (ok (scalar w)) key v s = s
  write_into (err x) key v s = s

  unfoldable pub write_setting : String → String → Value → Section → Section
  write_setting attr key v s =
      let (r, t) = get_attr defaults required attr s in write_into r key v t

  unfoldable pub write_settings : List (String × String × Value) → Section → Section
  write_settings [] s = s
  write_settings ((attr, key, v) ∷ writes) s = write_settings writes (write_setting attr key v s)

  write_into-Apart :
      (r : Result Value) (key : String) (v : Value) (t : Section)
      → Apart base t
      → ((w : Value) → r ≡ ok w → Newer base t.heap.next w)
      → Apart base (write_into r key v t) × Untouched base t (write_into r key v t)
  write_into-Apart (ok (dict_at object)) key v t apart newer =
      let (after, within) = newer (dict_at object) refl in
      (
        record { room = apart.room; cached = apart.cached },
        λ r before. put-elsewhere base r object _ t after before,
      )
  write_into-Apart (ok (scalar w)) key v t apart newer = (apart, λ r before. refl)
  write_into-Apart (err x) key v t apart newer = (apart, λ r before. refl)

  write_setting-Apart :
      (attr key : String) (v : Value) (s : Section)
      → Apart base s
      → Apart base (write_setting attr key v s) × Untouched base s (write_setting attr key v s)
  unfolding write_setting
  write_setting-Apart attr key v s apart =
      let (apart', same, newer) = get_attr-Gives attr s apart in
      let (r, t) = get_attr defaults required attr s in
      let (after, still) =
        write_into-Apart (get_attr defaults required attr s).0 key v
          (get_attr defaults required attr s).1 apart' newer in
      (after, λ o before. still o before ∙ same o before)

  -- Callers that read attributes and write items into the dicts that they got leave every dict as
  -- it was that the section had not copied itself: those of the Django settings and the defaults.
  -- Each read has given a copy that the section made.
  pub write_settings-Apart :
      (writes : List (String × String × Value)) (s : Section)
      → Apart base s
      → Apart base (write_settings writes s) × Untouched base s (write_settings writes s)
  unfolding write_settings
  write_settings-Apart [] s apart = (apart, λ r before. refl)
  write_settings-Apart ((attr, key, v) ∷ writes) s apart =
      let (apart', same) = write_setting-Apart attr key v s apart in
      let (apart'', still) = write_settings-Apart writes (write_setting attr key v s) apart' in
      (apart'', λ r before. still r before ∙ same r before)
