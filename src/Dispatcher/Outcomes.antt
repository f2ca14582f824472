-- ===== src/Dispatcher/Outcomes.antt =====
-- What `dispatch` does with the receivers of an event, whatever they do.
use django_event_bus.Prelude.{
  ℕ, zero, suc, ◌+◌, List, [], ◌∷◌, Bool, true, false, ◌≡◌, refl, ap, subst, sym, append-nil, ◌∙◌,
  ◌++◌, arith, ◌⊎◌, inl, inr, Bool-cases, nat_beq,
}
use django_event_bus.Exceptions.{Error, Result, ok, err, is_exception}
use django_event_bus.Exceptions.Exec.{Exec}
use django_event_bus.Envelope.{EventEnvelope}
use django_event_bus.Registry.{Registry, get_receivers}
use django_event_bus.Brokers.{BaseBroker}
use django_event_bus.Dispatcher.{run_receivers, settle, dispatch}

module _ {S H : Type 0} (invoke : H → EventEnvelope → Exec S (Unit {0})) (e : EventEnvelope) where
  -- Every receiver of the list ran, in order, each from the state that the one before it left,
  -- and `n` of them raised.
  pub data Runs : List H → S → ℕ → S → Type 0 where
    done : {s : S} → Runs [] s 0 s
    returned :
        {h : H} {hs : List H} {s s' t : S} {n : ℕ}
        → invoke h e s ≡ (ok tt, s')
        → Runs hs s' n t
        → Runs (h ∷ hs) s n t
    raised :
        {h : H} {hs : List H} {s s' t : S} {n : ℕ} (x : Error)
        → invoke h e s ≡ (err x, s')
        → is_exception x ≡ true
        → Runs hs s' n t
        → Runs (h ∷ hs) s (suc n) t

  -- The receivers before `h` ran, and `h` raised what `except Exception` does not catch.
  pub record Exits (hs : List H) (s : S) (x : Error) (t : S) : Type 0 where
    pub before : List H
    pub h : H
    pub behind : List H
    pub split : hs ≡ before ++ h ∷ behind
    pub failed : ℕ
    pub s' : S
    pub ran : Runs before s failed s'
    pub raises : invoke h e s' ≡ (err x, t)
    pub escapes : is_exception x ≡ false

  run_receivers-Runs :
      (rest : List H) {hs : List H} {s t : S} {n : ℕ} (failed : ℕ)
      → Runs hs s n t
      → run_receivers invoke (hs ++ rest) e failed s ≡ run_receivers invoke rest e (failed + n) t
  unfolding run_receivers
  run_receivers-Runs rest {s = s} failed done =
      let same : failed ≡ failed + 0 = omega arith in ap (λ k. run_receivers invoke rest e k s) same
  run_receivers-Runs rest failed (returned {hs = hs} p r) =
      rw p (run_receivers-Runs rest {hs = hs} failed r)
  run_receivers-Runs rest {t = t} failed (raised {hs = hs} {n = n} x p q r) =
      let shift : (failed + 1) + n ≡ failed + suc n = omega arith in
      rw (p, q)
        (run_receivers-Runs rest {hs = hs} (failed + 1) r
          ∙ ap (λ k. run_receivers invoke rest e k t) shift)

  abbrev Outcome : H → S → Type 0
  Outcome h s =
      ((s' : S) × (invoke h e s ≡ (ok tt, s')))
      ⊎ ((x : Error) × (s' : S) × (invoke h e s ≡ (err x, s')) × (is_exception x ≡ true))
      ⊎ ((x : Error) × (s' : S) × (invoke h e s ≡ (err x, s')) × (is_exception x ≡ false))

  outcome : (h : H) (s : S) → Outcome h s
  outcome h s = of (invoke h e s) refl
    where
      of : (r : Result (Unit {0}) × S) → invoke h e s ≡ r → Outcome h s
      of (ok u, s') p = inl (s', p)
      of (err x, s') p = elim (Bool-cases (is_exception x)) [
        | inl c ↦ inr (inl (x, s', p, c))
        | inr c ↦ inr (inr (x, s', p, c))
      ]

  Exits-cons :
      {hs : List H} {s s' t : S} {x : Error} (h : H) (one : ℕ)
      → ((before : List H) (n : ℕ) (u : S) → Runs before s' n u → Runs (h ∷ before) s (one + n) u)
      → Exits hs s' x t
      → Exits (h ∷ hs) s x t
  Exits-cons h one extend r = record {
    before = h ∷ r.before;
    h = r.h;
    behind = r.behind;
    split = ap (λ l. h ∷ l) r.split;
    failed = one + r.failed;
    s' = r.s';
    ran = extend r.before r.failed r.s' r.ran;
    raises = r.raises;
    escapes = r.escapes;
  }

  -- Either every receiver ran, or one of them ended the loop.
  run_cases :
      (hs : List H) (s : S)
      → ((n : ℕ) × (t : S) × Runs hs s n t) ⊎ ((x : Error) × (t : S) × Exits hs s x t)
  run_cases [] s = inl (0, s, done)
  run_cases (h ∷ hs) s = elim (outcome h s) [
    | inl (s', p) ↦ elim (run_cases hs s') [
      | inl (n, t, r) ↦ inl (n, t, returned p r)
      | inr (x, t, ex) ↦ inr (
        x,
        t,
        Exits-cons h 0 (λ b n u r. subst (λ k. Runs (h ∷ b) s k u) (omega arith) (returned p r)) ex,
      )
    ]
    | inr (inl (y, s', p, c)) ↦ elim (run_cases hs s') [
      | inl (n, t, r) ↦ inl (suc n, t, raised y p c r)
      | inr (x, t, ex) ↦ inr (
        x,
        t,
        Exits-cons h 1 (λ b n u r. subst (λ k. Runs (h ∷ b) s k u) (omega arith) (raised y p c r))
            ex,
      )
    ]
    | inr (inr (x, t, p, c)) ↦ inr (
      x,
      t,
      record {
        before = [];
        h = h;
        behind = hs;
        split = refl;
        failed = 0;
        s' = s;
        ran = done;
        raises = p;
        escapes = c;
      },
    )
  ]

  run_receivers_all :
      {hs : List H} {s t : S} {n : ℕ} → Runs hs s n t → run_receivers invoke hs e 0 s ≡ (ok n, t)
  unfolding run_receivers
  run_receivers_all {hs} {t = t} {n = n} r =
      let total : 0 + n ≡ n = omega arith in
      rw append-nil at (run_receivers-Runs [] {hs = hs} 0 r) ∙ ap (λ k. (ok k, t)) total

  run_receivers-Exits :
      {hs : List H} {s t : S} {x : Error}
      → Exits hs s x t
      → run_receivers invoke hs e 0 s ≡ (err x, t)
  unfolding run_receivers
  run_receivers-Exits r =
      rw r.split (
        run_receivers-Runs (r.h ∷ r.behind) {hs = r.before} 0 r.ran ∙ rw (r.raises, r.escapes) refl)

  settle-true :
      (broker : BaseBroker S) (n : ℕ) (t : S) {u : S}
      → settle invoke broker e n t ≡ (ok true, u)
      → (n ≡ 0) × (broker.ack e t ≡ (ok tt, u))
  settle-true broker n t p = ground arith

  -- What the broker was asked in the state that the receivers left, where `n` of them raised, and
  -- what `dispatch` made of the answer.
  pub data Settles (broker : BaseBroker S) (t : S) : ℕ → Result Bool × S → Type 0 where
    acked : {u : S} → broker.ack e t ≡ (ok tt, u) → Settles broker t 0 (ok true, u)
    ack_raised : {u : S} (x : Error) → broker.ack e t ≡ (err x, u) → Settles broker t 0 (err x, u)
    failed :
        {u : S} (n : ℕ) (abandoned : Bool)
        → broker.fail e t ≡ (ok abandoned, u)
        → Settles broker t (suc n) (ok false, u)
    fail_raised :
        {u : S} (n : ℕ) (x : Error)
        → broker.fail e t ≡ (err x, u)
        → Settles broker t (suc n) (err x, u)

  settle-Settles :
      (broker : BaseBroker S) (n : ℕ) (t : S) → Settles broker t n (settle invoke broker e n t)
  settle-Settles broker zero t = of (broker.ack e t) refl
    where
      of :
          (r : Result (Unit {0}) × S)
          → broker.ack e t ≡ r
          → Settles broker t 0 (settle invoke broker e 0 t)
      of (ok u, v) h = rw h (acked h)
      of (err x, v) h = rw h (ack_raised x h)
  settle-Settles broker (suc n) t = of (broker.fail e t) refl
    where
      some_failed : nat_beq (suc n) 0 ≡ false
      some_failed = ground arith

      of :
          (r : Result Bool × S)
          → broker.fail e t ≡ r
          → Settles broker t (suc n) (settle invoke broker e (suc n) t)
      of (ok b, v) h = rw (some_failed, h) (failed n b h)
      of (err x, v) h = rw (some_failed, h) (fail_raised n x h)

  module _ (registry : Registry H) (broker : BaseBroker S) {hs : List H} {s t : S}
      (receivers : get_receivers e.event_type registry ≡ ok hs) where
    pub dispatch-settle :
        {n : ℕ} → Runs hs s n t → dispatch invoke registry broker e s ≡ settle invoke broker e n t
    unfolding dispatch
    dispatch-settle r = rw (receivers, run_receivers_all r)

    -- Where the receivers of an event have run in the order of registration, and any number of
    -- them raised an `Exception`, `dispatch` calls the broker's `ack` if none raised, and returns
    -- true; it calls `fail` if one did, and returns false whatever `fail` says; and what the
    -- broker raises it raises.
    pub dispatch_settles :
        {n : ℕ} → Runs hs s n t → Settles broker t n (dispatch invoke registry broker e s)
    dispatch_settles {n} r =
        subst (Settles broker t n) (sym (dispatch-settle r)) (settle-Settles broker n t)

    -- What escapes `except Exception` ends the dispatch at once: no later receiver runs, and the
    -- broker's `ack` and `fail` are not called.
    pub dispatch-Exits :
        {x : Error} → Exits hs s x t → dispatch invoke registry broker e s ≡ (err x, t)
    unfolding dispatch
    dispatch-Exits r = rw (receivers, run_receivers-Exits r)

  receivers_cases :
      (r : Result (List H)) → ((hs : List H) × (r ≡ ok hs)) ⊎ ((x : Error) × (r ≡ err x))
  receivers_cases (ok hs) = inl (hs, refl)
  receivers_cases (err x) = inr (x, refl)

  dispatch_lost :
      (registry : Registry H) (broker : BaseBroker S) (s : S) {x : Error}
      → get_receivers e.event_type registry ≡ err x
      → dispatch invoke registry broker e s ≡ (err x, s)
  unfolding dispatch
  dispatch_lost registry broker s lost = rw lost

  -- `dispatch` returns true only if every receiver of the event ran and returned, and the broker
  -- then acknowledged the event.
  pub dispatch-true :
      (registry : Registry H) (broker : BaseBroker S) {s u : S}
      → dispatch invoke registry broker e s ≡ (ok true, u)
      → (hs : List H) × (t : S) × (get_receivers e.event_type registry ≡ ok hs)
        × Runs hs s 0 t
        × (broker.ack e t ≡ (ok tt, u))
  dispatch-true registry broker {s} {u} p =
      elim (receivers_cases (get_receivers e.event_type registry)) [
        | inr (x, lost) ↦ absurd (cc (dispatch_lost registry broker s lost))
        | inl (hs, found) ↦ elim (run_cases hs s) [
          | inr (x, t, ex) ↦ absurd (cc (dispatch-Exits registry broker found ex))
          | inl (n, t, r) ↦
              let (none_failed, acknowledged) =
                settle-true broker n t (sym (dispatch-settle registry broker found r) ∙ p) in
              (hs, t, found, subst (λ k. Runs hs s k t) none_failed r, acknowledged)
        ]
      ]
