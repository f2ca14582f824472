-- ===== src/Brokers/LocMem/Subscribing.antt =====
-- What `listen` registers before it returns.
use django_event_bus.Prelude.{
  String, string_eq, List, [], ◌∷◌, ◌++◌, true, some, pair_eq, ◌==◌, if◌then◌else◌, ◌≡◌, subst,
  ==_refl, ◌∙◌, arith, ◌||◌, eq_iff, Bool-cases, inl, inr,
}
use django_event_bus.Prelude.Lists.{contains}
use django_event_bus.Prelude.Dict.{
  Dict, get, get_or, get_or-put_self, get_or-nil, get_or-cons, put, get-put-some, get-put_self,
  put-Distinct,
}
use django_event_bus.Exceptions.{ok}
use django_event_bus.Platform.{Key, key_eq, key_beq_iff}
use django_event_bus.Envelope.{EventEnvelope, hash_key}
use django_event_bus.Brokers.LocMem.{
  Shared, Queues, publish, add_types, open_queues, subscribe, reset,
}
use django_event_bus.Brokers.LocMem.Delivery.{HasQueue, IsValid, put-HasQueue, publish_lem}

contains-add_types :
    (known types : List Key) (k : Key)
    → contains (add_types known types) k ≡ (contains known k || contains types k)
unfolding add_types
contains-add_types known [] k = ground arith
contains-add_types known (t ∷ ts) k = ground (
  arith,
  contains-add_types (if contains known t then known else t ∷ known) ts k,
  key_beq_iff t k,
)

abbrev IsOpen : String → Key → Queues → Type 0
IsOpen service k q = (l : List EventEnvelope) × (get (service, k) q ≡ some l)

open_queues_keeps :
    (service : String) (types : List Key) (q : Queues) (v : String) (k : Key)
    → IsOpen v k q
    → IsOpen v k (open_queues service types q)
unfolding open_queues
open_queues_keeps service [] q v k h = h
open_queues_keeps service (t ∷ ts) q v k h =
    open_queues_keeps service ts _ v k
      (get-put-some (service, t) (v, k) (get_or (service, t) [] q) q h.1)

open_queues_opens :
    (service : String) (types : List Key) (q : Queues) (k : Key)
    → contains types k ≡ true
    → IsOpen service k (open_queues service types q)
unfolding open_queues
open_queues_opens service [] q k h = absurd (cc)
open_queues_opens service (t ∷ ts) q k h = elim (Bool-cases (t == k)) [
  | inl same ↦ open_queues_keeps service ts _ service k (
    get_or (service, t) [] q,
    subst
        (λ j.
          get (service, j) (put (service, t) (get_or (service, t) [] q) q)
          ≡ some (get_or (service, t) [] q))
        ((key_beq_iff t k).0 same) (get-put_self (service, t) (get_or (service, t) [] q) q),
  )
  | inr other ↦ open_queues_opens service ts _ k (ground arith)
]

put-types-HasQueue :
    (k : Key) (service : String) (types : List Key) (subs : Dict String (List Key)) (q : Queues)
    → HasQueue k subs q
    → (contains types k ≡ true → IsOpen service k q)
    → HasQueue k (put service types subs) q
unfolding put
put-types-HasQueue k service types [] q h new = (new, tt)
put-types-HasQueue k service types ((v, old) ∷ rest) q h new = elim (Bool-cases (v == service)) [
  | inl same ↦ rw same ((new, h.1))
  | inr other ↦ rw other ((h.0, put-types-HasQueue k service types rest q h.1 new))
]

HasQueue-open_queues :
    (k : Key) (service : String) (types : List Key) (subs : Dict String (List Key)) (q : Queues)
    → HasQueue k subs q
    → HasQueue k subs (open_queues service types q)
unfolding open_queues
HasQueue-open_queues k service [] subs q h = h
HasQueue-open_queues k service (t ∷ ts) subs q h =
    HasQueue-open_queues k service ts subs _
      (put-HasQueue k (service, t) (get_or (service, t) [] q) subs q h)

-- The old types of a service have their queues.
HasQueue-get_or :
    (k : Key) (service : String) (subs : Dict String (List Key)) (q : Queues)
    → HasQueue k subs q
    → contains (get_or service [] subs) k ≡ true
    → IsOpen service k q
HasQueue-get_or k service [] q h wants = absurd (cc (get_or-nil {V = List Key} service []))
HasQueue-get_or k service ((v, old) ∷ rest) q h wants = elim (Bool-cases (v == service)) [
  | inl same ↦
      subst (λ u. IsOpen u k q) ((eq_iff v service).0 same)
        (h.0 (ground (arith, get_or-cons service v old [] rest)))
  | inr other ↦
      HasQueue-get_or k service rest q h.1 (ground (arith, get_or-cons service v old [] rest))
]

-- Subscribing keeps the state valid.
pub subscribe-IsValid :
    (service : String) (types : List Key) (s : Shared)
    → IsValid s
    → IsValid (subscribe service types s)
unfolding subscribe
subscribe-IsValid service types s valid = record {
  distinct = put-Distinct service _ s.subscribers valid.distinct;
  has_queues = λ k.
      let known = get_or service [] s.subscribers in
      put-types-HasQueue k service (add_types known types) s.subscribers _
        (HasQueue-open_queues k service types s.subscribers s.queues (valid.has_queues k))
        λ wants. elim (Bool-cases (contains known k)) [
          | inl before ↦
              open_queues_keeps service types s.queues service k
                (HasQueue-get_or k service s.subscribers s.queues (valid.has_queues k) before)
          | inr new ↦
              open_queues_opens service types s.queues k
                (ground (arith, contains-add_types known types k))
        ];
}

subscribe_wants :
    (service : String) (types : List Key) (s : Shared) (k : Key)
    → contains types k ≡ true
    → contains (get_or service [] (subscribe service types s).subscribers) k ≡ true
unfolding subscribe
subscribe_wants service types s k h =
    let known = get_or service [] s.subscribers in
    rw (get_or-put_self service (add_types known types) [] s.subscribers)
      (ground (arith, contains-add_types known types k))

-- An event published right after `listen` returned, and before its generator is first advanced,
-- is in the queue of that service.
pub publish-subscribe :
    (service : String) (types : List Key) (s : Shared) (e : EventEnvelope) (k : Key)
    → IsValid s
    → hash_key e.event_type ≡ ok k
    → contains types k ≡ true
    → (s' : Shared) × (publish e (subscribe service types s) ≡ (ok tt, s'))
      × (get (service, k) s'.queues
          ≡ some (get_or (service, k) [] (subscribe service types s).queues ++ e ∷ []))
publish-subscribe service types s e k valid keyed h =
    let (s', sent, _, _, grown) =
      publish_lem e (subscribe service types s) k (subscribe-IsValid service types s valid) keyed in
    (s', sent, grown service k ∙ rw (subscribe_wants service types s k h, ==_refl k))

-- The state of a new process, and after `reset`, is valid.
pub reset-IsValid : (s : Shared) → IsValid (reset s)
unfolding reset
reset-IsValid s = record { distinct = tt; has_queues = λ k. tt }
