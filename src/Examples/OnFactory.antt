-- ===== src/Examples/OnFactory.antt =====
-- Two threads that call `get_broker` at once: both find no broker, and one of them makes it.
use django_event_bus.Prelude.{ℕ, ◌≤◌, nat_eq, true, Option, none, some, ◌≡◌, refl, ◌⊎◌, [], arith}
use django_event_bus.Brokers.Factory.{
  waiting, testing_again, loading, assigning, releasing, returning, returned, Shared, State, move,
  start, test_none, acquire, test_again_none, test_again_some, load, assign, release, return_broker,
  Reachable, started, stepped, ReachableWithResets, reset_stepped, reset_broker, forget,
}
use django_event_bus.Prelude.Lists.{contains}
use django_event_bus.Brokers.Factory.Lock.{with_resets, is_finished}
use django_event_bus.Brokers.Factory.Finishing.{Run, Concerned, ReachableWithResets-Finishes}
use django_event_bus.Brokers.Factory.Resets.{ReachableWithResets-Kept}
use django_event_bus.Brokers.Factory.Race.{Reachable-created-le}

abbrev both_waiting : State
both_waiting = move 1 waiting start.shared (move 0 waiting start.shared start)

abbrev locked : Option ℕ → ℕ → Shared
locked broker i = record { broker = broker; holder = some i; created = 0; closed = [] }

abbrev first_loading : State
first_loading = move 0 loading (locked none 0) (move 0 testing_again (locked none 0) both_waiting)

abbrev made : Option ℕ → Option ℕ → Shared
made broker holder = record { broker = broker; holder = holder; created = 1; closed = [] }

abbrev first_releasing : State
first_releasing =
    move 0 releasing (made (some 0) (some 0))
      (move 0 (assigning 0) (made none (some 0)) first_loading)

abbrev first_done : State
first_done =
    move 0 (returned (some 0)) (made (some 0) none)
      (move 0 returning (made (some 0) none) first_releasing)

-- The second thread finds the broker of the first.
abbrev second_releasing : State
second_releasing =
    move 1 releasing (made (some 0) (some 1))
      (move 1 testing_again (made (some 0) (some 1)) first_done)

arrived : Reachable first_done
arrived =
    stepped
      (stepped
        (stepped
          (stepped
            (stepped
              (stepped (stepped (stepped started 0 (test_none refl refl)) 1 (test_none refl refl)) 0
                (acquire refl refl))
              0 (test_again_none refl refl))
            0 (load refl))
          0 (assign refl))
        0 (release refl))
      0 (return_broker refl)

reachable : Reachable second_releasing
reachable = stepped (stepped arrived 1 (acquire refl refl)) 1 (test_again_some refl refl)

Reachable-created-le_example :
    (second_releasing.shared.created ≤ 1)
    × ((j : ℕ) (r : Option ℕ)
        → second_releasing.pcs j ≡ returned r
        → (r ≡ some 0) × (second_releasing.shared.created ≡ 1))
Reachable-created-le_example = Reachable-created-le reachable

-- A reset closes the broker of the first thread before the second looks at it.
abbrev after_reset : State
after_reset = record first_done { shared = forget (some 0) first_done.shared }

reached_reset : ReachableWithResets after_reset
reached_reset = reset_stepped (with_resets arrived) (reset_broker refl)

ReachableWithResets-Kept_example :
    (contains after_reset.shared.closed 0 ≡ true)
    ⊎ (after_reset.shared.broker ≡ some 0)
    ⊎ ((j : ℕ) × (after_reset.pcs j ≡ assigning 0) × (after_reset.shared.holder ≡ some j))
ReachableWithResets-Kept_example = ReachableWithResets-Kept reached_reset 0 (omega arith)

ReachableWithResets-Finishes_example :
    (t : State) × Run (Concerned after_reset 1) 11 after_reset t × (is_finished (t.pcs 1) ≡ true)
ReachableWithResets-Finishes_example = ReachableWithResets-Finishes reached_reset 1
