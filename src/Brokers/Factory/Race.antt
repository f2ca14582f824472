-- ===== src/Brokers/Factory/Race.antt =====
-- However the threads interleave, one broker is made.
use django_event_bus.Prelude.{
  ℕ, ◌+◌, ◌≤◌, true, false, Option, none, some, nat_beq, ◌≡◌, ◌≢◌, refl, ap, sym, ◌∙◌, subst, arith,
  Bool-cases, ◌⊎◌, inl, inr,
}
use django_event_bus.Brokers.Factory.{
  Pc, testing, waiting, testing_again, loading, assigning, releasing, returning, returned, raised,
  Shared, State, move, Step, test_none, test_some, acquire, test_again_none, test_again_some, load,
  load_raises, assign, release, return_broker, Reachable, started, stepped,
}

-- What is known while thread `j` is at a place.
abbrev Known : Shared → ℕ → Pc → Type 0
Known sh j testing = Unit
Known sh j waiting = Unit
Known sh j testing_again = sh.holder ≡ some j
Known sh j loading = (sh.holder ≡ some j) × (sh.broker ≡ none) × (sh.created ≡ 0)
Known sh j (assigning n) = (sh.holder ≡ some j) × (sh.broker ≡ none) × (sh.created ≡ 1) × (n ≡ 0)
Known sh j releasing = (sh.holder ≡ some j) × (sh.broker ≡ some 0)
Known sh j returning = sh.broker ≡ some 0
Known sh j (returned r) = (r ≡ some 0) × (sh.broker ≡ some 0)
Known sh j raised = Unit

-- Whether a broker was made, and whether it is shared already.
abbrev Made : State → Type 0
Made s =
    ((s.shared.broker ≡ none) × (s.shared.created ≡ 0))
    ⊎ ((s.shared.broker ≡ some 0) × (s.shared.created ≡ 1))
    ⊎ ((i : ℕ) × (s.pcs i ≡ assigning 0) × (s.shared.broker ≡ none) × (s.shared.created ≡ 1))

record IsValid (s : State) : Type 0 where
  known : (j : ℕ) → Known s.shared j (s.pcs j)
  made : Made s

-- A thread that does not hold the lock is not concerned by the steps of the others.
Known-others :
    (sh sh' : Shared) (j : ℕ) (pc : Pc)
    → sh.holder ≢ some j
    → (sh.broker ≡ some 0 → sh'.broker ≡ some 0)
    → Known sh j pc
    → Known sh' j pc
Known-others sh sh' j testing free keeps k = tt
Known-others sh sh' j waiting free keeps k = tt
Known-others sh sh' j testing_again free keeps k = absurd (free k)
Known-others sh sh' j loading free keeps k = absurd (free k.0)
Known-others sh sh' j (assigning n) free keeps k = absurd (free k.0)
Known-others sh sh' j releasing free keeps k = absurd (free k.0)
Known-others sh sh' j returning free keeps k = keeps k
Known-others sh sh' j (returned r) free keeps k = (k.0, keeps k.1)
Known-others sh sh' j raised free keeps k = tt

-- What is known after a move of thread `i`.
Known-move :
    (i : ℕ) (pc : Pc) (sh : Shared) (s : State)
    → Known sh i pc
    → ((j : ℕ) → i ≢ j → Known sh j (s.pcs j))
    → (j : ℕ) → Known sh j ((move i pc sh s).pcs j)
Known-move i pc sh s here others j = elim (Bool-cases (nat_beq i j)) [
  | inl same ↦ let eq : i ≡ j = ground arith in rw same (subst (λ k. Known sh k pc) eq here)
  | inr other ↦ rw other (others j (λ eq. ground arith))
]

at : {s : State} → IsValid s → (i : ℕ) {pc : Pc} → s.pcs i ≡ pc → Known s.shared i pc
at {s} v i e = subst (Known s.shared i) e (v.known i)

move_self : (i : ℕ) (pc : Pc) (sh : Shared) (s : State) → (move i pc sh s).pcs i ≡ pc
move_self i pc sh s = let same : nat_beq i i ≡ true = ground arith in rw same refl

move_others :
    (i k : ℕ) (pc : Pc) (sh : Shared) (s : State) → i ≢ k → (move i pc sh s).pcs k ≡ s.pcs k
move_others i k pc sh s different =
    let other : nat_beq i k ≡ false = ground (arith, different) in rw other refl

-- A step that leaves the shared variables alone.
quiet :
    (s : State) (i : ℕ) (pc : Pc)
    → IsValid s
    → Known s.shared i pc
    → s.pcs i ≢ assigning 0
    → IsValid (move i pc s.shared s)
quiet s i pc v here not_assigning = record {
  known = Known-move i pc s.shared s here (λ j _. v.known j);
  made = elim (v.made) [
    | inl nothing_yet ↦ inl nothing_yet
    | inr (inl shared_already) ↦ inr (inl shared_already)
    | inr (inr (k, place, b, c)) ↦
        let different : i ≢ k = λ eq. not_assigning (ap s.pcs eq ∙ place) in
        inr (inr (k, move_others i k pc s.shared s different ∙ place, b, c))
  ];
}

-- A step that takes the lock or gives it back: `free` says that no other thread holds it.
locking :
    (s : State) (i : ℕ) (pc : Pc) (holder : Option ℕ)
    → IsValid s
    → Known (record s.shared { holder = holder }) i pc
    → s.pcs i ≢ assigning 0
    → ((j : ℕ) → i ≢ j → s.shared.holder ≢ some j)
    → IsValid (move i pc (record s.shared { holder = holder }) s)
locking s i pc holder v here not_assigning free = record {
  known =
      Known-move i pc (record s.shared { holder = holder }) s here
        (λ j different.
          Known-others s.shared (record s.shared { holder = holder }) j (s.pcs j) (free j different)
            (λ b. b) (v.known j));
  made = elim (v.made) [
    | inl nothing_yet ↦ inl nothing_yet
    | inr (inl shared_already) ↦ inr (inl shared_already)
    | inr (inr (k, place, b, c)) ↦
        let different : i ≢ k = λ eq. not_assigning (ap s.pcs eq ∙ place) in
        inr (
          inr
            (k, move_others i k pc (record s.shared { holder = holder }) s different ∙ place, b, c))
  ];
}

-- A lock that `i` holds is held by no other thread.
held : (s : State) {i : ℕ} → s.shared.holder ≡ some i → (j : ℕ) → i ≢ j → s.shared.holder ≢ some j
held s h j different other = different (cc)

loaded :
    (s : State) (i : ℕ)
    → IsValid s
    → s.pcs i ≡ loading
    → IsValid
        (move i (assigning s.shared.created) (record s.shared { created = s.shared.created + 1 }) s)
loaded s i v place =
    let (h, b, c) = at v i place in
    let sh : Shared = record s.shared { created = s.shared.created + 1 } in
    let one : s.shared.created + 1 ≡ 1 = omega (arith, c) in
    record {
      known =
          Known-move i (assigning s.shared.created) sh s (h, b, one, c)
            (λ j different.
              Known-others s.shared sh j (s.pcs j) (held s h j different) (λ e. e) (v.known j));
      made = inr (inr (i, move_self i (assigning s.shared.created) sh s ∙ ap assigning c, b, one));
    }

assigned :
    (s : State) (i n : ℕ)
    → IsValid s
    → s.pcs i ≡ assigning n
    → IsValid (move i releasing (record s.shared { broker = some n }) s)
assigned s i n v place =
    let (h, b, c, zero_th) = at v i place in
    let now : some n ≡ some 0 = ap some zero_th in
    let sh : Shared = record s.shared { broker = some n } in
    record {
      known =
          Known-move i releasing sh s (h, now)
            (λ j different.
              Known-others s.shared sh j (s.pcs j) (held s h j different) (λ _. now) (v.known j));
      made = inr (inl (now, c));
    }

-- Where a broker is shared, it is the first.
shared_first : {s : State} {n : ℕ} → IsValid s → s.shared.broker ≡ some n → s.shared.broker ≡ some 0
shared_first v e = elim (v.made) [
  | inl (b, c) ↦ absurd (cc)
  | inr (inl (b, c)) ↦ b
  | inr (inr (k, place, b, c)) ↦ absurd (cc)
]

made_once : {s : State} → IsValid s → s.shared.broker ≡ some 0 → s.shared.created ≡ 1
made_once v e = elim (v.made) [
  | inl (b, c) ↦ absurd (cc)
  | inr (inl (b, c)) ↦ c
  | inr (inr (k, place, b, c)) ↦ c
]

none_made :
    {s : State} {i : ℕ}
    → IsValid s
    → s.pcs i ≡ testing_again
    → s.shared.broker ≡ none
    → s.shared.created ≡ 0
none_made {s} {i} v place b = elim (v.made) [
  | inl (_, c) ↦ c
  | inr (inl (other, c)) ↦ absurd (cc)
  | inr (inr (k, assigns, _, c)) ↦
      let h = at v i place in
      let h' = (at v k assigns).0 in
      let same : i ≡ k = cc in absurd (cc (sym place ∙ ap s.pcs same ∙ assigns))
]

Step-IsValid : {i : ℕ} {s t : State} → Step i s t → IsValid s → IsValid t
Step-IsValid {i} {s} (test_none place b) v = quiet s i waiting v tt (λ e. cc)
Step-IsValid {i} {s} (test_some place b) v = quiet s i returning v (shared_first v b) (λ e. cc)
Step-IsValid {i} {s} (acquire place free) v =
    locking s i testing_again (some i) v refl (λ e. cc) (λ j _ other. cc)
Step-IsValid {i} {s} (test_again_none place b) v =
    quiet s i loading v (at v i place, b, none_made v place b) (λ e. cc)
Step-IsValid {i} {s} (test_again_some place b) v =
    quiet s i releasing v (at v i place, shared_first v b) (λ e. cc)
Step-IsValid {i} {s} (load place) v = loaded s i v place
Step-IsValid {i} {s} (load_raises place) v =
    locking s i raised none v tt (λ e. cc) (held s (at v i place).0)
Step-IsValid {i} {s} (assign {n} place) v = assigned s i n v place
Step-IsValid {i} {s} (release place) v =
    locking s i returning none v (at v i place).1 (λ e. cc) (held s (at v i place).0)
Step-IsValid {i} {s} (return_broker place) v =
    quiet s i (returned s.shared.broker) v (at v i place, at v i place) (λ e. cc)

Reachable-IsValid : {s : State} → Reachable s → IsValid s
Reachable-IsValid started = record { known = λ j. tt; made = inl (refl, refl) }
Reachable-IsValid (stepped before i step) = Step-IsValid step (Reachable-IsValid before)

-- However the threads that call `get_broker` interleave, at most one broker is made, and each
-- thread that has returned was given that broker.
pub Reachable-created-le :
    {s : State}
    → Reachable s
    → (s.shared.created ≤ 1)
      × ((j : ℕ) (r : Option ℕ) → s.pcs j ≡ returned r → (r ≡ some 0) × (s.shared.created ≡ 1))
Reachable-created-le {s} reachable =
    let v = Reachable-IsValid reachable in
    (
      elim (v.made) [
        | inl (_, c) ↦ omega (arith, c)
        | inr (inl (_, c)) ↦ omega (arith, c)
        | inr (inr (k, place, b, c)) ↦ omega (arith, c)
      ],
      λ j r done. let (first, shared) = at v j done in (first, made_once v shared),
    )
