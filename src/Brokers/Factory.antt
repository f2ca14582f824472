-- ===== src/Brokers/Factory.antt =====
-- src/django_event_bus/brokers/utils.py: `get_broker`, called by any number of threads whose steps
-- interleave in any order. A broker is known by its number, in the order of creation. A step is
-- what the interpreter does at once: a read or a write of `_broker`, taking or giving back the
-- lock, or `load_broker()`.
pub mod Race
pub mod Lock
pub mod Finishing
pub mod Resets
pub mod Loading
use django_event_bus.Prelude.{
  ℕ, suc, ◌+◌, List, [], ◌∷◌, Bool, Option, none, some, if◌then◌else◌, nat_beq, ◌≡◌,
}

-- Where a thread is in `get_broker`.
pub data Pc : Type 0 where
  -- Before `if _broker is None`, and before `with _broker_lock`.
  testing waiting : Pc
  -- With the lock: before the second test, before `load_broker()`, before the assignment of its
  -- result, and before the lock is given back.
  testing_again loading : Pc
  assigning : ℕ → Pc
  releasing : Pc
  -- Before the read in `return _broker`, after it, and after an exception of `load_broker`.
  returning : Pc
  returned : Option ℕ → Pc
  raised : Pc

-- `_broker`, the thread that holds `_broker_lock`, how many brokers were made, and those that were
-- closed.
pub record Shared : Type 0 where
  pub broker : Option ℕ
  pub holder : Option ℕ
  pub created : ℕ
  pub closed : List ℕ

pub record State : Type 0 where
  pub shared : Shared
  pub pcs : ℕ → Pc

abbrev pub move : ℕ → Pc → Shared → State → State
move i pc shared s = record { shared = shared; pcs = λ j. if nat_beq i j then pc else s.pcs j }

abbrev pub start : State
start = record {
  shared = record { broker = none; holder = none; created = 0; closed = [] };
  pcs = λ j. testing;
}

-- A step of thread `i`.
pub data Step (i : ℕ) (s : State) : State → Type 0 where
  test_none : s.pcs i ≡ testing → s.shared.broker ≡ none → Step i s (move i waiting s.shared s)
  test_some :
      {n : ℕ}
      → s.pcs i ≡ testing
      → s.shared.broker ≡ some n
      → Step i s (move i returning s.shared s)
  acquire :
      s.pcs i ≡ waiting
      → s.shared.holder ≡ none
      → Step i s (move i testing_again (record s.shared { holder = some i }) s)
  test_again_none :
      s.pcs i ≡ testing_again → s.shared.broker ≡ none → Step i s (move i loading s.shared s)
  test_again_some :
      {n : ℕ}
      → s.pcs i ≡ testing_again
      → s.shared.broker ≡ some n
      → Step i s (move i releasing s.shared s)
  load :
      s.pcs i ≡ loading
      → Step i s (
          move i
            (assigning s.shared.created)
            (record s.shared { created = s.shared.created + 1 })
            s)
  load_raises : s.pcs i ≡ loading → Step i s (move i raised (record s.shared { holder = none }) s)
  assign :
      {n : ℕ}
      → s.pcs i ≡ assigning n
      → Step i s (move i releasing (record s.shared { broker = some n }) s)
  release : s.pcs i ≡ releasing → Step i s (move i returning (record s.shared { holder = none }) s)
  return_broker : s.pcs i ≡ returning → Step i s (move i (returned s.shared.broker) s.shared s)

-- `reset_broker` holds the lock for all that it does, so it is one step: closing the broker, if
-- there is one, and forgetting it.
abbrev pub forget : Option ℕ → Shared → Shared
forget none sh = sh
forget (some n) sh = record sh { broker = none; closed = n ∷ sh.closed }

-- A step of thread `i`, or one of a thread that resets.
pub data ResetStep (s : State) : State → Type 0 where
  get_step : {i : ℕ} {t : State} → Step i s t → ResetStep s t
  -- An exception of `close` leaves `_broker` as it is.
  close_raises : {n : ℕ} → s.shared.holder ≡ none → s.shared.broker ≡ some n → ResetStep s s
  reset_broker :
      s.shared.holder ≡ none → ResetStep s (record s { shared = forget s.shared.broker s.shared })

-- The states that some interleaving leads to.
pub data Reachable : State → Type 0 where
  started : Reachable start
  stepped : {s t : State} → Reachable s → (i : ℕ) → Step i s t → Reachable t

-- The same with resets.
pub data ReachableWithResets : State → Type 0 where
  reset_started : ReachableWithResets start
  reset_stepped : {s t : State} → ReachableWithResets s → ResetStep s t → ReachableWithResets t
