-- ===== src/Prelude/Dict.antt =====
-- Python's `dict`: an association list in insertion order. `put` keeps the place of a key that
-- is there and appends a new one, as the language promises.
use mathlib.Core.Path.{◌≡◌, ◌∙◌, refl}
use mathlib.Core.Logic.{inl, inr}
use mathlib.Core.Option.{Option, none, some}
use mathlib.Core.List.{List, [], ◌∷◌}
use Prim.Native.Nat.{suc}
use native.Mathlib.Omega.{arith}
use django_event_bus.Prelude.Tests.{if◌then◌else◌, Bool-cases}
use django_event_bus.Prelude.Equality.{Eq, ◌==◌}
use django_event_bus.Prelude.Lists.{length}

abbrev pub Dict {ℓ κ} : Type ℓ → Type κ → Type (ℓ ⊔ κ)
Dict K V = List (K × V)

module _ {ℓ κ} {K : Type ℓ} {V : Type κ} ⦃e : Eq K⦄ where
  -- d.get(k)
  unfoldable pub get : K → Dict K V → Option V
  get k [] = none
  get k ((j, v) ∷ d) = if j == k then some v else get k d

  -- d[k] = v
  unfoldable pub put : K → V → Dict K V → Dict K V
  put k v [] = (k, v) ∷ []
  put k v ((j, w) ∷ d) = if j == k then (k, v) ∷ d else (j, w) ∷ put k v d

  -- d.pop(k, None), without the value.
  unfoldable pub remove : K → Dict K V → Dict K V
  remove k [] = []
  remove k ((j, w) ∷ d) = let rest = remove k d in if j == k then rest else (j, w) ∷ rest

  pub get-put :
      (k j : K) (v : V) (d : Dict K V) → get j (put k v d) ≡ (if k == j then some v else get j d)
  unfolding get put
  get-put k j v [] = refl
  get-put k j v ((i, w) ∷ d) =
      ground (arith, get-put k j v d, e.beq_iff i k, e.beq_iff i j, e.beq_iff k j)

  pub get-remove :
      (k j : K) (d : Dict K V) → get j (remove k d) ≡ (if k == j then none else get j d)
  unfolding get remove
  get-remove k j [] = ground arith
  get-remove k j ((i, w) ∷ d) =
      ground (arith, get-remove k j d, e.beq_iff i k, e.beq_iff i j, e.beq_iff k j)

  -- Writing back what is there changes nothing.
  pub put-get : (k : K) (v : V) (d : Dict K V) → get k d ≡ some v → put k v d ≡ d
  unfolding get put
  put-get k v [] h = ground arith
  put-get k v ((i, w) ∷ d) h = ground (arith, put-get k v d, e.beq_iff i k)

  -- d.get(k, default)
  unfoldable pub get_or : K → V → Dict K V → V
  get_or k v d = elim (get k d) [ none ↦ v | some w ↦ w ]

  pub get_or-put :
      (k j : K) (v w : V) (d : Dict K V)
      → get_or j w (put k v d) ≡ (if k == j then v else get_or j w d)
  unfolding get_or
  get_or-put k j v w d = ground (arith, get-put k j v d)

  pub get-put_self : (k : K) (v : V) (d : Dict K V) → get k (put k v d) ≡ some v
  get-put_self k v d = ground (arith, get-put k k v d, e.beq_iff k k)

  pub remove-put_self : (k : K) (v : V) (d : Dict K V) → remove k (put k v d) ≡ remove k d
  unfolding put remove
  remove-put_self k v [] = ground (arith, e.beq_iff k k)
  remove-put_self k v ((i, w) ∷ d) =
      ground (arith, remove-put_self k v d, e.beq_iff i k, e.beq_iff k k)

  -- A write loses no key.
  pub get-put-some :
      (k j : K) (v : V) (d : Dict K V) {w : V}
      → get j d ≡ some w
      → (x : V) × (get j (put k v d) ≡ some x)
  get-put-some k j v d {w} h = elim (Bool-cases (k == j)) [
    | inl same ↦ (v, get-put k j v d ∙ rw same)
    | inr other ↦ (w, get-put k j v d ∙ rw other h)
  ]

  -- A new key is one more.
  pub length-put :
      (k : K) (v : V) (d : Dict K V) → get k d ≡ none → length (put k v d) ≡ suc (length d)
  unfolding get put
  length-put k v [] h = refl
  length-put k v ((j, w) ∷ d) h = ground (arith, length-put k v d)

  pub get_or-nil : (k : K) (w : V) → get_or k w [] ≡ w
  unfolding get_or get
  get_or-nil k w = refl

  pub get_or-cons :
      (k j : K) (v w : V) (d : Dict K V)
      → get_or k w ((j, v) ∷ d) ≡ (if j == k then v else get_or k w d)
  unfolding get_or get
  get_or-cons k j v w d = ground arith

  pub get_or_cong :
      (k : K) (w : V) (d d' : Dict K V) → get k d ≡ get k d' → get_or k w d ≡ get_or k w d'
  unfolding get_or
  get_or_cong k w d d' h = rw (h, get_or)

  pub get_or_of_get : (k : K) {v : V} (w : V) (d : Dict K V) → get k d ≡ some v → get_or k w d ≡ v
  unfolding get_or
  get_or_of_get k w d h = rw (h, get_or)

  pub get_or_of_none : (k : K) (w : V) (d : Dict K V) → get k d ≡ none → get_or k w d ≡ w
  unfolding get_or
  get_or_of_none k w d h = rw (h, get_or)

  pub get_or-put_self : (k : K) (v w : V) (d : Dict K V) → get_or k w (put k v d) ≡ v
  get_or-put_self k v w d = ground (arith, get_or-put k k v w d, e.beq_iff k k)

abbrev pub keys {ℓ κ} : {K : Type ℓ} {V : Type κ} → Dict K V → List K
keys [] = []
keys ((k, v) ∷ d) = k ∷ keys d

-- No key stands twice.
abbrev pub Distinct {ℓ κ} : {K : Type ℓ} {V : Type κ} ⦃e : Eq K⦄ → Dict K V → Type κ
Distinct [] = Unit
Distinct ((k, v) ∷ d) = (get k d ≡ none) × Distinct d

module _ {ℓ κ} {K : Type ℓ} {V : Type κ} ⦃e : Eq K⦄ where
  pub put-Distinct : (k : K) (v : V) (d : Dict K V) → Distinct d → Distinct (put k v d)
  unfolding put get
  put-Distinct k v [] h = (refl, tt)
  put-Distinct k v ((i, w) ∷ d) h =
      ground (arith, get-put k i v d, put-Distinct k v d, e.beq_iff i k, e.beq_iff k i)
