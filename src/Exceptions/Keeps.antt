-- ===== src/Exceptions/Keeps.antt =====
-- What an action, and every action built from such actions, leaves true of the state, whether it
-- returns or raises.
use django_event_bus.Prelude.{List, [], ◌∷◌}
use django_event_bus.Exceptions.{Error, Result, ok, err}
use django_event_bus.Exceptions.Exec.{Exec, continue, handle_result, try_except, for_each, ◌>>=◌}

module _ {S : Type 0} (R : S → Type 0) where
  abbrev pub Keeps {ℓ} : {A : Type ℓ} → Exec S A → Type 0
  Keeps m = (s : S) → R s → R (m s).1

  module _ {ℓ κ} {A : Type ℓ} {B : Type κ} where
    pub Keeps->>= :
        (m : Exec S A) (f : A → Exec S B) → Keeps m → ((a : A) → Keeps (f a)) → Keeps (m >>= f)
    Keeps->>= m f hm hf s h = of (m s) (hm s h)
      where
        of : (r : Result A × S) → R r.1 → R (continue f r).1
        of (ok a, t) k = hf a t k
        of (err x, t) k = k

  pub Keeps-try_except {ℓ} :
      {A : Type ℓ} (m : Exec S A) (f : Error → Exec S A)
      → Keeps m
      → ((x : Error) → Keeps (f x))
      → Keeps (try_except m f)
  Keeps-try_except {A = A} m f hm hf s h = of (m s) (hm s h)
    where
      of : (r : Result A × S) → R r.1 → R (handle_result f r).1
      of (ok a, t) k = k
      of (err x, t) k = hf x t k

  pub Keeps-for_each {ℓ} :
      {X : Type ℓ} (body : X → Exec S (Unit {0}))
      → ((x : X) → Keeps (body x))
      → (xs : List X) → Keeps (for_each body xs)
  unfolding for_each
  Keeps-for_each body keep [] s h = h
  Keeps-for_each body keep (x ∷ xs) s h =
      Keeps->>= (body x) _ (keep x) (λ _. Keeps-for_each body keep xs) s h
