-- ===== src/Exceptions/Pure.antt =====
-- Code that may raise and changes no state: the `do` notation of `Result`.
use django_event_bus.Prelude.{◌≡◌, refl}
use django_event_bus.Exceptions.{Result, ok, err}

module _ {ℓ κ} {A : Type ℓ} {B : Type κ} where
  infixl 10 ◌>>=◌
  abbrev pub ◌>>=◌ : Result A → (A → Result B) → Result B
  err x >>= next = err x
  ok a >>= next = next a

  -- What a successful bind did.
  pub >>=-eq-ok :
      (first : Result A) (next : A → Result B) {b : B}
      → (first >>= next) ≡ ok b
      → (a : A) × (first ≡ ok a) × (next a ≡ ok b)
  >>=-eq-ok (err x) next done = cc
  >>=-eq-ok (ok a) next done = (a, refl, done)

pub ok-injective {ℓ} : {A : Type ℓ} {a b : A} → ok a ≡ ok b → a ≡ b
ok-injective h = cc
