-- ===== src/Brokers/Factory/Finishing.antt =====
-- Every thread can finish, with the help of the thread that holds the lock only.
use django_event_bus.Prelude.{
  ℕ, suc, ◌+◌, true, false, Option, none, some, nat_beq, ◌≡◌, ◌≢◌, refl, ap, ◌∙◌, arith,
  Option-cases, inl, inr, ◌⊎◌,
}
use django_event_bus.Brokers.Factory.{
  Pc, testing, waiting, testing_again, loading, assigning, releasing, returning, returned, raised,
  Shared, State, move, Step, test_none, test_some, acquire, test_again_none, test_again_some, load,
  assign, release, return_broker, ReachableWithResets,
}
use django_event_bus.Brokers.Factory.Lock.{inside, is_finished, ReachableWithResets-Owned}

-- At most so many steps, each of a thread that `Allowed` holds of.
pub data Run (Allowed : ℕ → Type 0) : (bound : ℕ) → State → State → Type 0 where
  stopped : {bound : ℕ} {s : State} → Run Allowed bound s s
  went :
      {bound : ℕ} {s t u : State} (i : ℕ)
      → Allowed i
      → Step i s t
      → Run Allowed bound t u
      → Run Allowed (suc bound) s u

at_move : (i : ℕ) (pc : Pc) (sh : Shared) (s : State) → (move i pc sh s).pcs i ≡ pc
at_move i pc sh s = let same : nat_beq i i ≡ true = ground arith in rw same refl

elsewhere : (i j : ℕ) (pc : Pc) (sh : Shared) (s : State) → i ≢ j → (move j pc sh s).pcs i ≡ s.pcs i
elsewhere i j pc sh s different = let other : nat_beq j i ≡ false = ground arith in rw other refl

-- What the steps make of the shared state.
abbrev unlocked : State → Shared
unlocked s = record s.shared { holder = none }

abbrev locked : ℕ → State → Shared
locked i s = record s.shared { holder = some i }

abbrev sharing : ℕ → State → Shared
sharing m s = record s.shared { broker = some m }

abbrev counted : State → Shared
counted s = record s.shared { created = s.shared.created + 1 }

module _ (Allowed : ℕ → Type 0) (i : ℕ) where
  -- Within so many steps thread `i` has returned or raised.
  abbrev Finish : ℕ → State → Type 0
  Finish n s = (t : State) × Run Allowed n s t × (is_finished (t.pcs i) ≡ true)

  after : {n : ℕ} {s t : State} (j : ℕ) → Allowed j → Step j s t → Finish n t → Finish (suc n) s
  after j allowed step (u, run, done) = (u, went j allowed step run, done)

  Run-longer : {n : ℕ} {s t : State} → Run Allowed n s t → Run Allowed (suc n) s t
  Run-longer stopped = stopped
  Run-longer (went j allowed step run) = went j allowed step (Run-longer run)

  longer : {n : ℕ} {s : State} → Finish n s → Finish (suc n) s
  longer (t, run, done) = (t, Run-longer run, done)

  module _ (mine : Allowed i) where
    from_returning : (n : ℕ) (s : State) → s.pcs i ≡ returning → Finish (suc n) s
    from_returning n s e =
        let pc = returned s.shared.broker in
        after i mine (return_broker e)
          (_, stopped {bound = n}, ap is_finished (at_move i pc s.shared s))

    from_releasing : (n : ℕ) (s : State) → s.pcs i ≡ releasing → Finish (suc (suc n)) s
    from_releasing n s e =
        after i mine (release e) (from_returning n _ (at_move i returning (unlocked s) s))

    from_assigning : (n m : ℕ) (s : State) → s.pcs i ≡ assigning m → Finish (suc (suc (suc n))) s
    from_assigning n m s e =
        after i mine (assign e) (from_releasing n _ (at_move i releasing (sharing m s) s))

    from_loading : (n : ℕ) (s : State) → s.pcs i ≡ loading → Finish (suc (suc (suc (suc n)))) s
    from_loading n s e =
        after i mine (load e) (
          from_assigning n s.shared.created _
            (at_move i (assigning s.shared.created) (counted s) s))

    from_testing_again :
        (n : ℕ) (s : State) → s.pcs i ≡ testing_again → Finish (suc (suc (suc (suc (suc n))))) s
    from_testing_again n s e = elim (Option-cases s.shared.broker) [
      | inl b ↦ after i mine (test_again_none e b) (from_loading n _ (at_move i loading s.shared s))
      | inr (m, b) ↦
          after i mine (test_again_some e b)
            (from_releasing (suc (suc n)) _ (at_move i releasing s.shared s))
    ]

    from_waiting :
        (n : ℕ) (s : State)
        → s.shared.holder ≡ none
        → s.pcs i ≡ waiting
        → Finish (suc (suc (suc (suc (suc (suc n)))))) s
    from_waiting n s free e =
        after i mine (acquire e free)
          (from_testing_again n _ (at_move i testing_again (locked i s) s))

    from_testing :
        (n : ℕ) (s : State)
        → s.shared.holder ≡ none
        → s.pcs i ≡ testing
        → Finish (suc (suc (suc (suc (suc (suc (suc n))))))) s
    from_testing n s free e = elim (Option-cases s.shared.broker) [
      | inl b ↦ after i mine (test_none e b) (from_waiting n _ free (at_move i waiting s.shared s))
      | inr (m, b) ↦
          after i mine (test_some e b)
            (from_returning (suc (suc (suc (suc (suc n))))) _ (at_move i returning s.shared s))
    ]

  -- Thread `j` gives the lock back, and then the rest follows.
  module _ (j : ℕ) (different : i ≢ j) (holders : Allowed j) (pc : Pc) (n : ℕ)
      (rest : (t : State) → t.shared.holder ≡ none → t.pcs i ≡ pc → Finish n t) where
    free_releasing : (s : State) → s.pcs j ≡ releasing → s.pcs i ≡ pc → Finish (suc n) s
    free_releasing s e still =
        after j holders (release e)
          (rest _ refl (elsewhere i j returning (unlocked s) s different ∙ still))

    free_assigning :
        (m : ℕ) (s : State) → s.pcs j ≡ assigning m → s.pcs i ≡ pc → Finish (suc (suc n)) s
    free_assigning m s e still = after j holders (assign e) (
        free_releasing _ (at_move j releasing (sharing m s) s)
          (elsewhere i j releasing (sharing m s) s different ∙ still))

    free_loading : (s : State) → s.pcs j ≡ loading → s.pcs i ≡ pc → Finish (suc (suc (suc n))) s
    free_loading s e still =
        let made = assigning s.shared.created in
        after j holders (load e) (
          free_assigning s.shared.created _ (at_move j made (counted s) s)
            (elsewhere i j made (counted s) s different ∙ still))

    free_testing_again :
        (s : State) → s.pcs j ≡ testing_again → s.pcs i ≡ pc → Finish (suc (suc (suc (suc n)))) s
    free_testing_again s e still = elim (Option-cases s.shared.broker) [
      | inl b ↦ after j holders (test_again_none e b) (
          free_loading _ (at_move j loading s.shared s)
            (elsewhere i j loading s.shared s different ∙ still))
      | inr (m, b) ↦ after j holders (test_again_some e b) (
          longer (
            longer (
              free_releasing _ (at_move j releasing s.shared s)
                (elsewhere i j releasing s.shared s different ∙ still))))
    ]

    freed :
        (s : State) (at : Pc)
        → s.pcs j ≡ at
        → inside at ≡ true
        → s.pcs i ≡ pc
        → Finish (suc (suc (suc (suc n)))) s
    freed s testing_again e within still = free_testing_again s e still
    freed s loading e within still = longer (free_loading s e still)
    freed s (assigning m) e within still = longer (longer (free_assigning m s e still))
    freed s releasing e within still = longer (longer (longer (free_releasing s e still)))
    freed s _ e within still = absurd (cc (within))

-- Thread `i`, or the thread that holds the lock.
abbrev pub Concerned : State → ℕ → ℕ → Type 0
Concerned s i k = (k ≡ i) ⊎ (s.shared.holder ≡ some k)

-- However the threads that call `get_broker` and `reset_broker` have interleaved, each thread that
-- has not returned or raised yet can finish within eleven more steps, all of them its own or of
-- the thread that holds the lock: no other thread needs to go on for it.
pub ReachableWithResets-Finishes :
    {s : State}
    → ReachableWithResets s
    → (i : ℕ) → (t : State) × Run (Concerned s i) 11 s t × (is_finished (t.pcs i) ≡ true)
ReachableWithResets-Finishes {s} reachable i = of (s.pcs i) refl
  where
    mine : Concerned s i i
    mine = inl refl

    behind_lock :
        (pc : Pc) (n : ℕ) (h : Option ℕ)
        → s.shared.holder ≡ h
        → s.pcs i ≡ pc
        → inside pc ≡ false
        → ((t : State) → t.shared.holder ≡ none → t.pcs i ≡ pc → Finish (Concerned s i) i n t)
        → Finish (Concerned s i) i (suc (suc (suc (suc n)))) s
    behind_lock pc n none free e outside rest =
        let more = λ (k : ℕ) (f : Finish (Concerned s i) i k s). longer (Concerned s i) i f in
        more _ (more _ (more _ (more _ (rest s free e))))
    behind_lock pc n (some j) taken e outside rest =
        let within = (ReachableWithResets-Owned reachable).is_inside j taken in
        let different : i ≢ j =
          λ same. absurd (cc (ap (λ k. inside (s.pcs k)) same, ap inside e, outside, within)) in
        freed (Concerned s i) i j different (inr taken) pc n rest s (s.pcs j) refl within e

    of : (pc : Pc) → s.pcs i ≡ pc → Finish (Concerned s i) i 11 s
    of testing e =
        behind_lock testing 7 s.shared.holder refl e refl (from_testing (Concerned s i) i mine 0)
    of waiting e =
        behind_lock waiting 7 s.shared.holder refl e refl (from_waiting (Concerned s i) i mine 1)
    of testing_again e = from_testing_again (Concerned s i) i mine 6 s e
    of loading e = from_loading (Concerned s i) i mine 7 s e
    of (assigning m) e = from_assigning (Concerned s i) i mine 8 m s e
    of releasing e = from_releasing (Concerned s i) i mine 9 s e
    of returning e = from_returning (Concerned s i) i mine 10 s e
    of (returned r) e = (s, stopped {bound = 11}, ap is_finished e)
    of raised e = (s, stopped {bound = 11}, ap is_finished e)
