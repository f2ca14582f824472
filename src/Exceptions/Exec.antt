-- ===== src/Exceptions/Exec.antt =====
-- Statements that change a state and may raise. What was written before a raise stays written,
-- so the state comes back beside the error too.
use django_event_bus.Prelude.{◌≡◌, refl, ap, sym, List, [], ◌∷◌, ◌⊎◌, inl, inr}
use django_event_bus.Exceptions.{Error, Result, ok, err}

abbrev pub Exec {ℓ κ} : Type ℓ → Type κ → Type (ℓ ⊔ κ)
Exec S A = S → Result A × S

module _ {ℓ κ} {S : Type ℓ} {A : Type κ} where
  abbrev pub pure : A → Exec S A
  pure a s = (ok a, s)

  abbrev pub raise : Error → Exec S A
  raise e s = (err e, s)

  abbrev pub lift : Result A → Exec S A
  lift r s = (r, s)

  abbrev pub gets : (S → A) → Exec S A
  gets f s = (ok (f s), s)

abbrev pub modify {ℓ} : {S : Type ℓ} → (S → S) → Exec S (Unit {0})
modify f s = (ok tt, f s)

module _ {ℓ κ ι} {S : Type ℓ} {A : Type κ} {B : Type ι} where
  abbrev pub continue : (A → Exec S B) → Result A × S → Result B × S
  continue f (ok a, s) = f a s
  continue f (err e, s) = (err e, s)

  infixl 10 ◌>>=◌
  abbrev pub ◌>>=◌ : Exec S A → (A → Exec S B) → Exec S B
  ◌>>=◌ m f s = continue f (m s)

module _ {ℓ κ} {S : Type ℓ} {A : Type κ} where
  infixl 10 ◌>>◌
  abbrev pub ◌>>◌ : Exec S (Unit {0}) → Exec S A → Exec S A
  m >> n = m >>= λ _. n

  -- `try: m` with a handler for every class of exception; a handler re-raises what it does not
  -- catch.
  abbrev pub handle_result : (Error → Exec S A) → Result A × S → Result A × S
  handle_result h (ok a, s) = (ok a, s)
  handle_result h (err e, s) = h e s

  abbrev pub try_except : Exec S A → (Error → Exec S A) → Exec S A
  try_except m h s = handle_result h (m s)

  -- `try: m finally: last`. An exception of `last` takes the place of what `m` did.
  abbrev pub keep_result : Result A → Result (Unit {0}) × S → Result A × S
  keep_result r (ok u, s) = (r, s)
  keep_result r (err e, s) = (err e, s)

  abbrev pub after : Exec S (Unit {0}) → Result A × S → Result A × S
  after last (r, s) = keep_result r (last s)

  abbrev pub try_finally : Exec S A → Exec S (Unit {0}) → Exec S A
  try_finally m last s = after last (m s)

  -- The outcome as a value, for a `try` whose `else` branch stands outside of it.
  abbrev pub reify : Exec S A → Exec S (Result A)
  reify m s = (ok (m s).0, (m s).1)

-- `for x in xs: body x`.
unfoldable pub for_each {ℓ κ} :
    {S : Type ℓ} {X : Type κ} → (X → Exec S (Unit {0})) → List X → Exec S (Unit {0})
for_each body [] = pure tt
for_each body (x ∷ xs) = body x >> for_each body xs

-- Two outcomes that are the same, part by part.
pub outcome-injective {ℓ κ} :
    {S : Type ℓ} {A : Type κ} {r r' : Result A} {s t : S}
    → ◌≡◌ {A = Result A × S} (r, s) (r', t)
    → (t ≡ s) × (r ≡ r')
outcome-injective h = (sym (ap (λ q. q.1) h), ap (λ q. q.0) h)

-- What a successful sequence did.
pub >>=-eq-ok {ℓ κ ι} :
    {S : Type ℓ} {A : Type κ} {B : Type ι} (m : Exec S A) (f : A → Exec S B) (s : S) {b : B} {t : S}
    → (m >>= f) s ≡ (ok b, t)
    → (a : A) × (u : S) × (m s ≡ (ok a, u)) × (f a u ≡ (ok b, t))
>>=-eq-ok {S = S} {A = A} {B = B} m f s {b = b} {t = t} h = of (m s) refl h
  where
    of :
        (r : Result A × S)
        → m s ≡ r
        → continue f r ≡ (ok b, t)
        → (a : A) × (u : S) × (m s ≡ (ok a, u)) × (f a u ≡ (ok b, t))
    of (ok a, u) e h' = (a, u, e, h')
    of (err x, u) e h' = cc

-- To split on what an action did, and keep the equation.
pub Exec-cases {ℓ κ} :
    {S : Type ℓ} {A : Type κ} (m : Exec S A) (s : S)
    → ((a : A) × (t : S) × (m s ≡ (ok a, t))) ⊎ ((x : Error) × (t : S) × (m s ≡ (err x, t)))
Exec-cases {S = S} {A = A} m s = of (m s) refl
  where
    of :
        (r : Result A × S)
        → m s ≡ r
        → ((a : A) × (t : S) × (m s ≡ (ok a, t))) ⊎ ((x : Error) × (t : S) × (m s ≡ (err x, t)))
    of (ok a, t) e = inl (a, t, e)
    of (err x, t) e = inr (x, t, e)
