-- ===== src/Brokers/LocMem/Delivery.antt =====
-- Where a published event goes.
use django_event_bus.Prelude.{
  String, string_eq, List, [], ◌∷◌, ◌++◌, Bool, true, false, some, pair_eq, ◌==◌, if◌then◌else◌,
  ◌≡◌, refl, subst, arith, ◌&&◌, eq_iff, Bool-cases, inl, inr,
}
use django_event_bus.Prelude.Lists.{contains}
use django_event_bus.Prelude.Dict.{
  Dict, Distinct, get, get_or, get_or-nil, get_or-cons, get_or_cong, get_or_of_get, get_or_of_none,
  put, get-put, get-put-some,
}
use django_event_bus.Exceptions.{ok}
use django_event_bus.Exceptions.Exec.{for_each}
use django_event_bus.Platform.{Key, key_eq, key_beq_iff}
use django_event_bus.Envelope.{EventEnvelope, hash_key}
use django_event_bus.Brokers.LocMem.{Shared, Queues, enqueue, deliver, publish}

-- Every service of the list that is subscribed to `k` has a queue for it.
abbrev pub HasQueue : Key → Dict String (List Key) → Queues → Type 0
HasQueue k [] q = Unit
HasQueue k ((service, types) ∷ rest) q =
    (contains types k ≡ true → (l : List EventEnvelope) × (get (service, k) q ≡ some l))
    × HasQueue k rest q

pub record IsValid (s : Shared) : Type 0 where
  pub distinct : Distinct s.subscribers
  pub has_queues : (k : Key) → HasQueue k s.subscribers s.queues

-- The queues after a loop that appends `e` to the queue of each service subscribed to `k`.
spread : EventEnvelope → Key → Dict String (List Key) → Queues → Queues
spread e k [] q = q
spread e k ((service, types) ∷ rest) q =
    spread e k rest
      (if contains types k then put (service, k) (get_or (service, k) [] q ++ e ∷ []) q else q)

pub put-HasQueue :
    (k : Key) (key : String × Key) (l : List EventEnvelope) (subs : Dict String (List Key))
    (q : Queues)
    → HasQueue k subs q
    → HasQueue k subs (put key l q)
put-HasQueue k key l [] q h = tt
put-HasQueue k key l ((service, types) ∷ rest) q h =
    (λ wants. get-put-some key (service, k) l q (h.0 wants).1, put-HasQueue k key l rest q h.1)

enqueue_found :
    (key : String × Key) (e : EventEnvelope) (s : Shared) {l : List EventEnvelope}
    → get key s.queues ≡ some l
    → enqueue key e s ≡ (ok tt, record s { queues = put key (l ++ e ∷ []) s.queues })
unfolding enqueue
enqueue_found key e s h = rw (h, enqueue)

module _ (e : EventEnvelope) {k : Key} (keyed : hash_key e.event_type ≡ ok k) where
  for_each-deliver :
      (subs : Dict String (List Key)) (s : Shared)
      → HasQueue k subs s.queues
      → for_each (deliver e) subs s ≡ (ok tt, record s { queues = spread e k subs s.queues })
  unfolding for_each deliver spread
  for_each-deliver [] s h = refl
  for_each-deliver ((service, types) ∷ rest) s h = elim (Bool-cases (contains types k)) [
    | inl wants ↦
        let (l, found) = h.0 wants in
        let longer = put (service, k) (l ++ e ∷ []) s.queues in
        rw
          (
            keyed,
            wants,
            enqueue_found (service, k) e s found,
            get_or_of_get (service, k) [] s.queues found,
          )
          (for_each-deliver rest (record s { queues = longer })
            (put-HasQueue k (service, k) (l ++ e ∷ []) rest s.queues h.1))
    | inr other ↦ rw (keyed, other) (for_each-deliver rest s h.1)
  ]

  spread_step :
      (v : String) (types : List Key) (q : Queues) (service : String) (j : Key)
      → get
          (service, j)
          (if contains types k then put (v, k) (get_or (v, k) [] q ++ e ∷ []) q else q)
        ≡ (if (contains types k && v == service) && k == j
            then some (get_or (service, j) [] q ++ e ∷ [])
            else get (service, j) q)
  spread_step v types q service j = ground (
    arith,
    get-put (v, k) (service, j) (get_or (v, k) [] q ++ e ∷ []) q,
    eq_iff v service,
    key_beq_iff k j,
  )

  -- A queue grows by `e` exactly if its service is subscribed to the type of `e`.
  get-spread :
      (subs : Dict String (List Key)) (q : Queues) (service : String) (j : Key)
      → Distinct subs
      → get (service, j) (spread e k subs q) ≡ (
          if contains (get_or service [] subs) k && k == j
          then some (get_or (service, j) [] q ++ e ∷ [])
          else get (service, j) q)
  unfolding spread
  get-spread [] q service j d = rw (get_or-nil {V = List Key} service [])
  get-spread ((v, types) ∷ rest) q service j d =
      let q' = if contains types k then put (v, k) (get_or (v, k) [] q ++ e ∷ []) q else q in
      let ih = get-spread rest q' service j d.1 in
      let grown = spread_step v types q service j in
      elim (Bool-cases (v == service)) [
        | inl same ↦
            let alone : get_or service [] rest ≡ [] =
              subst (λ u. get_or u [] rest ≡ []) ((eq_iff v service).0 same)
                (get_or_of_none v [] rest d.0) in
            ground (arith, ih, grown, alone, get_or-cons service v types [] rest)
        | inr other ↦
            let here : get (service, j) q' ≡ get (service, j) q = ground (arith, grown) in
            ground (
              arith,
              ih,
              here,
              get_or_cong (service, j) [] q' q here,
              get_or-cons service v types [] rest,
            )
      ]

spread-HasQueue :
    (e : EventEnvelope) (k j : Key) (from subs : Dict String (List Key)) (q : Queues)
    → HasQueue j subs q
    → HasQueue j subs (spread e k from q)
unfolding spread
spread-HasQueue e k j [] subs q h = h
spread-HasQueue e k j ((v, types) ∷ rest) subs q h =
    spread-HasQueue e k j rest subs _ (grown (contains types k))
  where
    grown :
        (b : Bool) → HasQueue j subs (if b then put (v, k) (get_or (v, k) [] q ++ e ∷ []) q else q)
    grown true = put-HasQueue j (v, k) _ subs q h
    grown false = h

-- Publishing in a valid state succeeds. The event is appended once to the queue of each service
-- that is subscribed to its type, and every other queue, and every subscription, stays as it is.
pub publish_lem :
    (e : EventEnvelope) (s : Shared) (k : Key)
    → IsValid s
    → hash_key e.event_type ≡ ok k
    → (s' : Shared) × (publish e s ≡ (ok tt, s'))
      × (s'.subscribers ≡ s.subscribers)
      × IsValid s'
      × ((service : String) (j : Key)
          → get (service, j) s'.queues ≡ (
              if contains (get_or service [] s.subscribers) k && k == j
              then some (get_or (service, j) [] s.queues ++ e ∷ [])
              else get (service, j) s.queues))
unfolding publish
publish_lem e s k valid keyed = (
  record s { queues = spread e k s.subscribers s.queues },
  for_each-deliver e keyed s.subscribers s (valid.has_queues k),
  refl,
  record {
    distinct = valid.distinct;
    has_queues =
        λ j. spread-HasQueue e k j s.subscribers s.subscribers s.queues (valid.has_queues j);
  },
  λ service j. get-spread e keyed s.subscribers s.queues service j valid.distinct,
)
