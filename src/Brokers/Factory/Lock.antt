-- ===== src/Brokers/Factory/Lock.antt =====
-- Who holds the lock.
use django_event_bus.Prelude.{
  ℕ, ◌+◌, Bool, true, false, Option, none, some, some-injective, nat_beq, ◌≡◌, ◌≢◌, refl, ap, sym,
  ◌∙◌, subst, arith, Bool-cases, inl, inr,
}
use django_event_bus.Brokers.Factory.{
  Pc, waiting, testing_again, loading, assigning, releasing, returning, returned, raised, Shared,
  State, move, Step, test_none, test_some, acquire, test_again_none, test_again_some, load,
  load_raises, assign, release, return_broker, get_step, close_raises, reset_broker, forget,
  Reachable, started, stepped, ReachableWithResets, reset_started, reset_stepped,
}

-- A thread between `with _broker_lock` and the end of its block.
abbrev pub inside : Pc → Bool
inside testing_again = true
inside loading = true
inside (assigning n) = true
inside releasing = true
inside _ = false

-- A thread that has returned or raised.
abbrev pub is_finished : Pc → Bool
is_finished (returned r) = true
is_finished raised = true
is_finished _ = false

-- The lock is held by the thread that is in its block, and by no other.
pub record Owned (s : State) : Type 0 where
  pub holds : (j : ℕ) → inside (s.pcs j) ≡ true → s.shared.holder ≡ some j
  pub is_inside : (j : ℕ) → s.shared.holder ≡ some j → inside (s.pcs j) ≡ true

-- A predicate on the place of every thread after a move of one.
pub after_move :
    (P : ℕ → Pc → Type 0) (i : ℕ) (pc : Pc) (sh : Shared) (s : State)
    → P i pc
    → ((j : ℕ) → i ≢ j → P j (s.pcs j))
    → (j : ℕ) → P j ((move i pc sh s).pcs j)
after_move P i pc sh s here others j = elim (Bool-cases (nat_beq i j)) [
  | inl same ↦ let e : i ≡ j = ground arith in rw same (subst (λ k. P k pc) e here)
  | inr other ↦ rw other (others j (λ e. ground arith))
]

-- A step that leaves the lock alone.
still-Owned :
    (i : ℕ) (pc : Pc) (sh : Shared) (s : State)
    → inside pc ≡ inside (s.pcs i)
    → sh.holder ≡ s.shared.holder
    → Owned s
    → Owned (move i pc sh s)
still-Owned i pc sh s same still owned = record {
  holds =
      after_move (λ j x. inside x ≡ true → sh.holder ≡ some j) i pc sh s
        (λ e. still ∙ owned.holds i (sym same ∙ e)) (λ j _ e. still ∙ owned.holds j e);
  is_inside =
      after_move (λ j x. sh.holder ≡ some j → inside x ≡ true) i pc sh s
        (λ e. same ∙ owned.is_inside i (sym still ∙ e))
        (λ j _ e. owned.is_inside j (sym still ∙ e));
}

acquire-Owned :
    (i : ℕ) (s : State)
    → s.shared.holder ≡ none
    → Owned s
    → Owned (move i testing_again (record s.shared { holder = some i }) s)
acquire-Owned i s free owned = record {
  holds =
      after_move (λ j x. inside x ≡ true → some i ≡ some j) i testing_again
        (record s.shared { holder = some i }) s (λ _. refl)
        (λ j _ e. let h = owned.holds j e in absurd (cc (free, h)));
  is_inside =
      after_move (λ j x. some i ≡ some j → inside x ≡ true) i testing_again
        (record s.shared { holder = some i }) s (λ _. refl)
        (λ j different e. absurd (different (some-injective e)));
}

release-Owned :
    (i : ℕ) (pc : Pc) (s : State)
    → inside pc ≡ false
    → inside (s.pcs i) ≡ true
    → Owned s
    → Owned (move i pc (record s.shared { holder = none }) s)
release-Owned i pc s out was_inside owned = record {
  holds =
      after_move (λ j x. inside x ≡ true → none ≡ some j) i pc (record s.shared { holder = none }) s
        (λ e. absurd (cc (out, e)))
        (λ j different e.
          absurd (different (some-injective (sym (owned.holds i was_inside) ∙ owned.holds j e))));
  is_inside =
      after_move (λ j x. none ≡ some j → inside x ≡ true) i pc (record s.shared { holder = none }) s
        (λ e. absurd (cc (e))) (λ j _ e. absurd (cc (e)));
}

Step-Owned : {i : ℕ} {s t : State} → Step i s t → Owned s → Owned t
Step-Owned {i} {s} (test_none place b) =
    still-Owned i waiting s.shared s (ap inside (sym place)) refl
Step-Owned {i} {s} (test_some place b) =
    still-Owned i returning s.shared s (ap inside (sym place)) refl
Step-Owned {i} {s} (acquire place free) = acquire-Owned i s free
Step-Owned {i} {s} (test_again_none place b) =
    still-Owned i loading s.shared s (ap inside (sym place)) refl
Step-Owned {i} {s} (test_again_some place b) =
    still-Owned i releasing s.shared s (ap inside (sym place)) refl
Step-Owned {i} {s} (load place) =
    still-Owned i (assigning s.shared.created) (record s.shared { created = s.shared.created + 1 })
      s (ap inside (sym place)) refl
Step-Owned {i} {s} (load_raises place) = release-Owned i raised s refl (ap inside place)
Step-Owned {i} {s} (assign {n} place) =
    still-Owned i releasing (record s.shared { broker = some n }) s (ap inside (sym place)) refl
Step-Owned {i} {s} (release place) = release-Owned i returning s refl (ap inside place)
Step-Owned {i} {s} (return_broker place) =
    still-Owned i (returned s.shared.broker) s.shared s (ap inside (sym place)) refl

pub holder-forget : (o : Option ℕ) (sh : Shared) → (forget o sh).holder ≡ sh.holder
holder-forget none sh = refl
holder-forget (some n) sh = refl

reset-Owned : (s : State) → Owned s → Owned (record s { shared = forget s.shared.broker s.shared })
reset-Owned s owned =
    let same = holder-forget s.shared.broker s.shared in
    record {
      holds = λ j e. same ∙ owned.holds j e;
      is_inside = λ j e. owned.is_inside j (sym same ∙ e);
    }

-- Without a reset.
pub with_resets : {s : State} → Reachable s → ReachableWithResets s
with_resets started = reset_started
with_resets (stepped before i step) = reset_stepped (with_resets before) (get_step step)

pub ReachableWithResets-Owned : {s : State} → ReachableWithResets s → Owned s
ReachableWithResets-Owned reset_started = record {
  holds = λ j e. absurd (cc (e));
  is_inside = λ j e. absurd (cc (e));
}
ReachableWithResets-Owned (reset_stepped before (get_step step)) =
    Step-Owned step (ReachableWithResets-Owned before)
ReachableWithResets-Owned (reset_stepped before (close_raises free b)) =
    ReachableWithResets-Owned before
ReachableWithResets-Owned (reset_stepped {s} before (reset_broker free)) =
    reset-Owned s (ReachableWithResets-Owned before)
