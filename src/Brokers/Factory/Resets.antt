-- ===== src/Brokers/Factory/Resets.antt =====
-- No broker is lost, also when `reset_broker` is called beside `get_broker`.
use django_event_bus.Prelude.{
  ℕ, ◌+◌, ◌<◌, Bool, true, false, Option, none, some, some-injective, nat_eq, nat_beq, ltb, ltb→lt,
  ltb→le, ◌≡◌, ◌≢◌, refl, ap, sym, ◌∙◌, arith, Bool-cases, ◌⊎◌, inl, inr,
}
use django_event_bus.Prelude.Lists.{contains}
use django_event_bus.Brokers.Factory.{
  Pc, testing, waiting, testing_again, loading, assigning, releasing, returning, returned, raised,
  Shared, State, move, Step, test_none, test_some, acquire, test_again_none, test_again_some, load,
  load_raises, assign, release, return_broker, get_step, close_raises, reset_broker, forget,
  ReachableWithResets, reset_started, reset_stepped,
}
use django_event_bus.Brokers.Factory.Lock.{inside, Owned, after_move, ReachableWithResets-Owned}

-- A thread that has found no broker under the lock and has not shared one yet.
abbrev makes : Pc → Bool
makes loading = true
makes (assigning n) = true
makes _ = false

makes-inside : (pc : Pc) → makes pc ≡ true → inside pc ≡ true
makes-inside testing e = absurd (cc (e))
makes-inside waiting e = absurd (cc (e))
makes-inside testing_again e = refl
makes-inside loading e = refl
makes-inside (assigning n) e = refl
makes-inside releasing e = refl
makes-inside returning e = absurd (cc (e))
makes-inside (returned r) e = absurd (cc (e))
makes-inside raised e = absurd (cc (e))

assigning-injective : {m n : ℕ} → assigning m ≡ assigning n → m ≡ n
assigning-injective e = cc

-- A broker is closed, or shared, or a thread is about to share it.
abbrev Kept : State → ℕ → Type 0
Kept s n =
    (contains s.shared.closed n ≡ true)
    ⊎ (s.shared.broker ≡ some n)
    ⊎ ((j : ℕ) × (s.pcs j ≡ assigning n))

record Accounted (s : State) : Type 0 where
  vacant : (j : ℕ) → makes (s.pcs j) ≡ true → s.shared.broker ≡ none
  kept : (n : ℕ) → n < s.shared.created → Kept s n

move_here : (i : ℕ) (pc : Pc) (sh : Shared) (s : State) → (move i pc sh s).pcs i ≡ pc
move_here i pc sh s = let same : nat_beq i i ≡ true = ground arith in rw same refl

move_other :
    (i k : ℕ) (pc : Pc) (sh : Shared) (s : State) → i ≢ k → (move i pc sh s).pcs k ≡ s.pcs k
move_other i k pc sh s different =
    let other : nat_beq i k ≡ false = ground (arith, different) in rw other refl

-- A step that changes at most the holder of the lock.
holding :
    (i : ℕ) (pc : Pc) (holder : Option ℕ) (s : State)
    → (makes pc ≡ true → s.shared.broker ≡ none)
    → ((n : ℕ) → s.pcs i ≢ assigning n)
    → Accounted s
    → Accounted (move i pc (record s.shared { holder = holder }) s)
holding i pc holder s none_shared elsewhere a = record {
  vacant =
      after_move (λ j x. makes x ≡ true → s.shared.broker ≡ none) i pc
        (record s.shared { holder = holder }) s none_shared (λ j _. a.vacant j);
  kept = λ n made. elim (a.kept n made) [
    | inl closed ↦ inl closed
    | inr (inl shared) ↦ inr (inl shared)
    | inr (inr (k, place)) ↦ inr (
        inr (
          k,
          move_other i k pc (record s.shared { holder = holder }) s
                (λ e. elsewhere n (ap s.pcs e ∙ place))
              ∙ place,
        ))
  ];
}

loading-Accounted :
    (i : ℕ) (s : State)
    → s.pcs i ≡ loading
    → Accounted s
    → Accounted
        (move i (assigning s.shared.created) (record s.shared { created = s.shared.created + 1 }) s)
loading-Accounted i s place a =
    let sh : Shared = record s.shared { created = s.shared.created + 1 } in
    let pc = assigning s.shared.created in
    record {
      vacant =
          after_move (λ j x. makes x ≡ true → s.shared.broker ≡ none) i pc sh s
            (λ _. a.vacant i (ap makes place)) (λ j _. a.vacant j);
      kept = λ n made. elim (Bool-cases (ltb n s.shared.created)) [
        | inr newest ↦
            let e : s.shared.created ≡ n = omega (arith, ltb→le n s.shared.created newest, made) in
            inr (inr (i, move_here i pc sh s ∙ ap assigning e))
        | inl older ↦ elim (a.kept n (ltb→lt n s.shared.created older)) [
          | inl closed ↦ inl closed
          | inr (inl shared) ↦ inr (inl shared)
          | inr (inr (k, at_k)) ↦
              inr (inr (k, move_other i k pc sh s (λ e. let same = ap s.pcs e in cc) ∙ at_k))
        ]
      ];
    }

assigning-Accounted :
    (i n : ℕ) (s : State)
    → s.pcs i ≡ assigning n
    → Owned s
    → Accounted s
    → Accounted (move i releasing (record s.shared { broker = some n }) s)
assigning-Accounted i n s place owned a =
    let sh : Shared = record s.shared { broker = some n } in
    let ours = owned.holds i (ap inside place) in
    let vacant = a.vacant i (ap makes place) in
    record {
      vacant =
          after_move (λ j x. makes x ≡ true → some n ≡ none) i releasing sh s (λ e. absurd (cc (e)))
            (λ j different e.
              let theirs = owned.holds j (makes-inside (s.pcs j) e) in
              absurd (different (some-injective (sym ours ∙ theirs))));
      kept = λ m made. elim (a.kept m made) [
        | inl closed ↦ inl closed
        | inr (inl shared) ↦ absurd (cc (vacant, shared))
        | inr (inr (k, at_k)) ↦
            let theirs = owned.holds k (ap inside at_k) in
            let same : i ≡ k = some-injective (sym ours ∙ theirs) in
            inr (inl (ap some (assigning-injective (sym place ∙ ap s.pcs same ∙ at_k))))
      ];
    }

reset-Accounted :
    (s : State)
    → s.shared.holder ≡ none
    → Owned s
    → Accounted s
    → Accounted (record s { shared = forget s.shared.broker s.shared })
reset-Accounted s free owned a = of s.shared.broker refl
  where
    of : (o : Option ℕ) → s.shared.broker ≡ o → Accounted (record s { shared = forget o s.shared })
    of none e = record { vacant = a.vacant; kept = a.kept }
    of (some b) e = record {
      vacant = λ j _. refl;
      kept = λ n made. elim (a.kept n made) [
        | inl closed ↦ inl (ground (arith, closed))
        | inr (inl shared) ↦
            let same : b ≡ n = some-injective (sym e ∙ shared) in inl (ground (arith, same))
        | inr (inr (k, at_k)) ↦
            let theirs = owned.holds k (ap inside at_k) in absurd (cc (free, theirs))
      ];
    }

Step-Accounted : {i : ℕ} {s t : State} → Step i s t → Owned s → Accounted s → Accounted t
Step-Accounted {i} {s} (test_none place b) owned =
    holding i waiting s.shared.holder s (λ e. b) (λ n e. cc)
Step-Accounted {i} {s} (test_some place b) owned =
    holding i returning s.shared.holder s (λ e. absurd (cc (e))) (λ n e. cc)
Step-Accounted {i} {s} (acquire place free) owned =
    holding i testing_again (some i) s (λ e. absurd (cc (e))) (λ n e. cc)
Step-Accounted {i} {s} (test_again_none place b) owned =
    holding i loading s.shared.holder s (λ e. b) (λ n e. cc)
Step-Accounted {i} {s} (test_again_some place b) owned =
    holding i releasing s.shared.holder s (λ e. absurd (cc (e))) (λ n e. cc)
Step-Accounted {i} {s} (load place) owned = loading-Accounted i s place
Step-Accounted {i} {s} (load_raises place) owned =
    holding i raised none s (λ e. absurd (cc (e))) (λ n e. cc)
Step-Accounted {i} {s} (assign {n} place) owned = assigning-Accounted i n s place owned
Step-Accounted {i} {s} (release place) owned =
    holding i returning none s (λ e. absurd (cc (e))) (λ n e. cc)
Step-Accounted {i} {s} (return_broker place) owned =
    holding i (returned s.shared.broker) s.shared.holder s (λ e. absurd (cc (e))) (λ n e. cc)

ReachableWithResets-Accounted : {s : State} → ReachableWithResets s → Accounted s
ReachableWithResets-Accounted reset_started = record {
  vacant = λ j e. refl;
  kept = λ n made. absurd (omega (arith, made));
}
ReachableWithResets-Accounted (reset_stepped before (get_step step)) =
    Step-Accounted step (ReachableWithResets-Owned before) (ReachableWithResets-Accounted before)
ReachableWithResets-Accounted (reset_stepped before (close_raises free b)) =
    ReachableWithResets-Accounted before
ReachableWithResets-Accounted (reset_stepped {s} before (reset_broker free)) =
    reset-Accounted s free (ReachableWithResets-Owned before) (ReachableWithResets-Accounted before)

-- However the threads that call `get_broker` and `reset_broker` interleave, no broker is lost
-- open: each one that was made is closed by now, or is the shared one, or the thread that holds
-- the lock is about to share it.
pub ReachableWithResets-Kept :
    {s : State}
    → ReachableWithResets s
    → (n : ℕ) → n < s.shared.created
    → (contains s.shared.closed n ≡ true)
      ⊎ (s.shared.broker ≡ some n)
      ⊎ ((j : ℕ) × (s.pcs j ≡ assigning n) × (s.shared.holder ≡ some j))
ReachableWithResets-Kept {s} reachable n made =
    elim ((ReachableWithResets-Accounted reachable).kept n made) [
      | inl closed ↦ inl closed
      | inr (inl shared) ↦ inr (inl shared)
      | inr (inr (j, place)) ↦
          inr (inr (j, place, (ReachableWithResets-Owned reachable).holds j (ap inside place)))
    ]

-- A reset between the release of the lock and `return _broker` makes `get_broker` return None.
pub returning-none :
    {s : State} (j : ℕ)
    → ReachableWithResets s
    → s.pcs j ≡ returning
    → s.shared.holder ≡ none
    → (t : State) × ReachableWithResets t × (t.pcs j ≡ returned none)
returning-none {s} j reachable place free =
    let u : State = record s { shared = forget s.shared.broker s.shared } in
    (
      move j (returned u.shared.broker) u.shared u,
      reset_stepped (reset_stepped reachable (reset_broker free)) (get_step (return_broker place)),
      move_here j (returned u.shared.broker) u.shared u
          ∙ ap returned (forgotten s.shared.broker refl),
    )
  where
    forgotten : (o : Option ℕ) → s.shared.broker ≡ o → (forget o s.shared).broker ≡ none
    forgotten none e = e
    forgotten (some n) e = refl
