-- ===== src/Brokers/Retry/Bounds.antt =====
-- What every run of the publishing loop keeps, and how often it acts.
use django_event_bus.Prelude.{ℕ, suc, ◌+◌, ◌≤◌, Bool, ◌≡◌, refl, sym, subst, ◌∙◌, ◌<◌, arith}
use django_event_bus.Exceptions.{Error, Result, ok}
use django_event_bus.Exceptions.Exec.{Exec}
use django_event_bus.Brokers.Retry.{
  retry, retry-Tries, Tries, returned, gave_up, not_recovered, tried_again,
}

module _ {S : Type 0} {attempts : ℕ} {transient : Error → Bool} {act : Exec S (Unit {0})}
    {recover : ℕ → Exec S (Unit {0})} where
  module _ (R : S → Type 0)
      (act_keeps : (s t : S) (r : Result (Unit {0})) → act s ≡ (r, t) → R s → R t)
      (recover_keeps : (n : ℕ) (s t : S) (r : Result (Unit {0}))
        → recover n s ≡ (r, t)
        → R s
        → R t) where
    pub Tries_keeps :
        {attempt : ℕ} {s t : S} {r : Result (Unit {0})}
        → Tries attempts transient act recover attempt s r t
        → R s
        → R t
    Tries_keeps (returned p) h = act_keeps _ _ _ p h
    Tries_keeps (gave_up x p _) h = act_keeps _ _ _ p h
    Tries_keeps (not_recovered x y p _ _ q) h = recover_keeps _ _ _ _ q (act_keeps _ _ _ p h)
    Tries_keeps (tried_again x p _ _ q rest) h =
        Tries_keeps rest (recover_keeps _ _ _ _ q (act_keeps _ _ _ p h))

    -- A run that ends well ends in a successful `act`, in a state that keeps `R`.
    pub Tries-ok :
        {attempt : ℕ} {s t : S} {r : Result (Unit {0})}
        → Tries attempts transient act recover attempt s r t
        → r ≡ ok tt
        → R s
        → (u : S) × R u × (act u ≡ (ok tt, t))
    Tries-ok (returned {s = s} p) e h = (s, h, p)
    Tries-ok (gave_up x p _) e h = absurd (cc)
    Tries-ok (not_recovered x y p _ _ q) e h = absurd (cc)
    Tries-ok (tried_again x p _ _ q rest) e h =
        Tries-ok rest e (recover_keeps _ _ _ _ q (act_keeps _ _ _ p h))

  -- Where `f` counts the calls of `act`, a run from turn `attempt` adds at most the turns left.
  pub Tries-count-le :
      (f : S → ℕ)
      → ((s t : S) (r : Result (Unit {0})) → act s ≡ (r, t) → f t ≤ f s + 1)
      → ((n : ℕ) (s t : S) (r : Result (Unit {0})) → recover n s ≡ (r, t) → f t ≤ f s)
      → {attempt : ℕ} {s t : S} {r : Result (Unit {0})} → attempt ≤ attempts
      → Tries attempts transient act recover attempt s r t
      → f t + attempt ≤ f s + suc attempts
  Tries-count-le f acts recovers h (returned p) = omega (arith, acts _ _ _ p)
  Tries-count-le f acts recovers h (gave_up x p _) = omega (arith, acts _ _ _ p)
  Tries-count-le f acts recovers h (not_recovered x y p _ _ q) =
      omega (arith, acts _ _ _ p, recovers _ _ _ _ q)
  Tries-count-le f acts recovers h (tried_again x p _ early q rest) = omega (
    arith,
    acts _ _ _ p,
    recovers _ _ _ _ q,
    Tries-count-le f acts recovers (omega (arith, early)) rest,
  )

module _ {S : Type 0} (attempts : ℕ) (transient : Error → Bool) (act : Exec S (Unit {0}))
    (recover : ℕ → Exec S (Unit {0})) (some_turn : 0 < attempts) where
  -- The whole loop, from its first turn, does as one of the runs.
  pub run_of :
      (s t : S) (r : Result (Unit {0}))
      → retry attempts transient act recover attempts 1 s ≡ (r, t)
      → Tries attempts transient act recover 1 s r t
  run_of s t r h =
      let (r', t', e, run) =
        retry-Tries attempts transient act recover attempts 1 s (omega arith) some_turn in
      let same : ◌≡◌ {A = Result (Unit {0}) × S} (r', t') (r, t) = sym e ∙ h in
      subst (λ (q : Result (Unit {0}) × S). Tries attempts transient act recover 1 s q.0 q.1) same
        run

  pub retry-count-le :
      (f : S → ℕ)
      → ((s t : S) (r : Result (Unit {0})) → act s ≡ (r, t) → f t ≤ f s + 1)
      → ((n : ℕ) (s t : S) (r : Result (Unit {0})) → recover n s ≡ (r, t) → f t ≤ f s)
      → (s : S) → f (retry attempts transient act recover attempts 1 s).1 ≤ f s + attempts
  retry-count-le f acts recovers s =
      let (r, t) = retry attempts transient act recover attempts 1 s in
      omega (arith, Tries-count-le f acts recovers some_turn (run_of s t r refl))
