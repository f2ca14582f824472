-- ===== src/Brokers/Retry.antt =====
-- The loop that the three networked brokers publish with:
--   for attempt in range(1, attempts + 1):
--       try: act; return
--       except transient: if attempt == attempts: raise; recover(attempt)
-- redis_streams.py `publish`, kafka.py `_produce` and rabbitmq.py `_publish_to` are instances.
pub mod Bounds
use django_event_bus.Prelude.{
  ℕ, zero, suc, ◌+◌, ◌≤◌, ◌<◌, Bool, true, false, not, ◌&&◌, if◌then◌else◌, nat_beq, ◌≡◌, ◌≢◌, refl,
  ap, ◌∙◌, arith, Bool-cases, ◌⊎◌, inl, inr,
}
use django_event_bus.Exceptions.{Error, Result, ok, err}
use django_event_bus.Exceptions.Exec.{
  Exec, pure, raise, handle_result, continue, try_except, Exec-cases, ◌>>=◌, ◌>>◌,
}

module _ {S : Type 0} (attempts : ℕ) (transient : Error → Bool) (act : Exec S (Unit {0}))
    (recover : ℕ → Exec S (Unit {0})) where
  -- `left` turns are left, and this is turn number `attempt`.
  unfoldable pub retry : ℕ → ℕ → Exec S (Unit {0})
  retry zero attempt = pure tt
  retry (suc left) attempt =
      let again = recover attempt >> retry left (attempt + 1) in
      try_except act (λ x.
        if transient x then (if nat_beq attempt attempts then raise x else again) else raise x)

  -- What one turn does, by the outcome of `act`.
  pub retry_returns :
      (left attempt : ℕ) (s t : S) → act s ≡ (ok tt, t) → retry (suc left) attempt s ≡ (ok tt, t)
  unfolding retry
  retry_returns left attempt s t h = rw h

  pub retry_raises :
      (left attempt : ℕ) (s t : S) (x : Error)
      → act s ≡ (err x, t)
      → (transient x && not (nat_beq attempt attempts)) ≡ false
      → retry (suc left) attempt s ≡ (err x, t)
  unfolding retry
  retry_raises left attempt s t x h stop = rw h (ground arith)

  pub retry_goes_on :
      (left attempt : ℕ) (s t : S) (x : Error)
      → act s ≡ (err x, t)
      → (transient x && not (nat_beq attempt attempts)) ≡ true
      → retry (suc left) attempt s ≡ (recover attempt >> retry left (attempt + 1)) t
  unfolding retry
  retry_goes_on left attempt s t x h more = rw h (ground arith)

  -- Runs of the loop, turn by turn.
  pub data Tries : ℕ → S → Result (Unit {0}) → S → Type 0 where
    returned : {attempt : ℕ} {s t : S} → act s ≡ (ok tt, t) → Tries attempt s (ok tt) t
    gave_up :
        {attempt : ℕ} {s t : S} (x : Error)
        → act s ≡ (err x, t)
        → (transient x ≡ false) ⊎ (attempt ≡ attempts)
        → Tries attempt s (err x) t
    not_recovered :
        {attempt : ℕ} {s t u : S} (x y : Error)
        → act s ≡ (err x, t)
        → transient x ≡ true
        → attempt ≢ attempts
        → recover attempt t ≡ (err y, u)
        → Tries attempt s (err y) u
    tried_again :
        {attempt : ℕ} {s t u v : S} {r : Result (Unit {0})} (x : Error)
        → act s ≡ (err x, t)
        → transient x ≡ true
        → attempt ≢ attempts
        → recover attempt t ≡ (ok tt, u)
        → Tries (attempt + 1) u r v
        → Tries attempt s r v

  abbrev stops : Error → ℕ → Bool
  stops x attempt = transient x && not (nat_beq attempt attempts)

  stop_cases :
      (x : Error) (attempt : ℕ)
      → ((stops x attempt ≡ false) × ((transient x ≡ false) ⊎ (attempt ≡ attempts)))
        ⊎ ((stops x attempt ≡ true) × (transient x ≡ true) × (attempt ≢ attempts))
  stop_cases x attempt = elim (Bool-cases (transient x)) [
    | inr other ↦ inl (rw other refl, inl other)
    | inl caught ↦ elim (Bool-cases (nat_beq attempt attempts)) [
      | inl last ↦ inl (rw (caught, last) refl, inr (ground arith))
      | inr early ↦ inr (rw (caught, early) refl, caught, λ same. ground arith)
    ]
  ]

  -- The loop makes such a run, with no turn left over and none too few.
  pub retry-Tries :
      (left attempt : ℕ) (s : S)
      → attempt + left ≡ suc attempts
      → 0 < left
      → (r : Result (Unit {0})) × (t : S) × (retry left attempt s ≡ (r, t)) × Tries attempt s r t
  retry-Tries zero attempt s sum h = absurd (omega arith)
  retry-Tries (suc left) attempt s sum h =
      let ih = λ (u : S) (more : attempt ≢ attempts).
        retry-Tries left (attempt + 1) u (omega arith) (omega (arith, more)) in
      elim (Exec-cases act s) [
        | inl (_, t, p) ↦ (ok tt, t, retry_returns left attempt s t p, returned p)
        | inr (x, t, p) ↦ elim (stop_cases x attempt) [
          | inl (stop, why) ↦ (err x, t, retry_raises left attempt s t x p stop, gave_up x p why)
          | inr (more, caught, early) ↦
              let step = retry_goes_on left attempt s t x p more in
              elim (Exec-cases (recover attempt) t) [
                | inr (y, u, q) ↦ (err y, u, step ∙ rw q refl, not_recovered x y p caught early q)
                | inl (_, u, q) ↦
                    let (r, v, e, rest) = ih u early in
                    (r, v, step ∙ rw q e, tried_again x p caught early q rest)
              ]
        ]
      ]
