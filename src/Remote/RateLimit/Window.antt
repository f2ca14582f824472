-- ===== src/Remote/RateLimit/Window.antt =====
-- How many calls a window lets through.
use django_event_bus.Prelude.{
  ℕ, suc, ◌+◌, ◌-◌, ◌*◌, ◌/◌, ◌<◌, String, List, [], ◌∷◌, Bool, true, false, if◌then◌else◌, nat_beq,
  leb, ltb, ◌≡◌, ◌≢◌, refl, ap, ◌∙◌, arith, Bool-cases, inl, inr,
}
use django_event_bus.Prelude.Lists.{All, length}
use django_event_bus.Exceptions.{ok}
use django_event_bus.Exceptions.Exec.{Exec, pure, ◌>>=◌}
use django_event_bus.Platform.{Platform}
use django_event_bus.Remote.RateLimit.{Cache, RateLimitConfig, cache_key, count_call, is_allowed}

-- What Django promises of a counter that does not expire meanwhile: `add` writes a missing counter
-- and leaves one that is there, and `incr` adds one to it.
pub record Counter {C : Type 0} (cache : Cache C) (k : String) (timeout : ℕ) : Type 0 where
  pub value : C → ℕ
  pub add_new :
      (s : C) → value s ≡ 0 → (t : C) × (cache.add k 1 timeout s ≡ (ok true, t)) × (value t ≡ 1)
  pub add_old : (s : C) → 0 < value s → cache.add k 1 timeout s ≡ (ok false, s)
  pub incr_old :
      (s : C)
      → 0 < value s
      → (t : C) × (cache.incr k s ≡ (ok (value s + 1), t)) × (value t ≡ value s + 1)

abbrev pub count_true : List Bool → ℕ
count_true [] = 0
count_true (true ∷ bs) = count_true bs + 1
count_true (false ∷ bs) = count_true bs

module _ {C : Type 0} (p : Platform) (cache : Cache C) (c : RateLimitConfig) (key : String) where
  -- The calls of one caller, at the times given.
  abbrev pub run_calls : List ℕ → Exec C (List Bool)
  run_calls [] = pure []
  run_calls (now ∷ times) = do
    allowed ← is_allowed p cache c now key
    rest ← run_calls times
    pure (allowed ∷ rest)

  -- How many of `n` calls pass when `used` came before them.
  abbrev pub budget : ℕ → ℕ → ℕ
  budget n used = if ltb n (c.limit - used) then n else c.limit - used

  budget-suc :
      (n used : ℕ) (passed : List Bool)
      → count_true passed ≡ budget n (used + 1)
      → count_true (leb (used + 1) c.limit ∷ passed) ≡ budget (suc n) used
  budget-suc n used passed h = elim (Bool-cases (leb (used + 1) c.limit)) [
    | inl left ↦ rw (left, h) (ground arith)
    | inr spent ↦ rw (spent, h) (ground arith)
  ]

  module _ (window : ℕ) (some_time : c.window_seconds ≢ 0)
      (counter : Counter cache (cache_key p cache c key window) (c.window_seconds * 2)) where
    count_call_lem :
        (s : C)
        → (t : C) × (count_call p cache c (cache_key p cache c key window) s
            ≡ (ok (counter.value s + 1), t))
          × (counter.value t ≡ counter.value s + 1)
    unfolding count_call
    count_call_lem s = elim (Bool-cases (nat_beq (counter.value s) 0)) [
      | inl fresh ↦
          let (t, e, v) = counter.add_new s (ground arith) in
          let one : 1 ≡ counter.value s + 1 = ground arith in
          (t, rw e (ap (λ n. (ok n, t)) one), v ∙ one)
      | inr used ↦
          let (t, e, v) = counter.incr_old s (ground arith) in
          (t, rw (counter.add_old s (ground arith), e) refl, v)
    ]

    is_allowed_lem :
        (now : ℕ) (s : C)
        → now / c.window_seconds ≡ window
        → (t : C) × (is_allowed p cache c now key s ≡ (ok (leb (counter.value s + 1) c.limit), t))
          × (counter.value t ≡ counter.value s + 1)
    unfolding is_allowed
    is_allowed_lem now s inside =
        let (t, e, v) = count_call_lem s in
        let timed : nat_beq c.window_seconds 0 ≡ false = ground (arith, some_time) in
        (t, rw (timed, inside, e) refl, v)

    -- In one window, and with a counter that does not expire in it, a caller's first calls pass
    -- until `LIMIT` calls have been made, and no later call passes: of a run of calls, as many
    -- pass as are left of the limit.
    pub run_calls-budget :
        (times : List ℕ) (s : C)
        → All (λ now. now / c.window_seconds ≡ window) times
        → (passed : List Bool) × (t : C) × (run_calls times s ≡ (ok passed, t))
          × (length passed ≡ length times)
          × (count_true passed ≡ budget (length times) (counter.value s))
          × (counter.value t ≡ counter.value s + length times)
    run_calls-budget [] s inside = ([], s, refl, refl, ground arith, omega arith)
    run_calls-budget (now ∷ times) s (first, inside) =
        let (t, e, v) = is_allowed_lem now s first in
        let (passed, u, e', l, n, w) = run_calls-budget times t inside in
        let b = leb (counter.value s + 1) c.limit in
        (
          b ∷ passed,
          u,
          rw (e, e') refl,
          ground (arith, l),
          budget-suc (length times) (counter.value s) passed (n ∙ ap (budget (length times)) v),
          omega (arith, v, w),
        )
