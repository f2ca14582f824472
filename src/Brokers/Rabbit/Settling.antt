-- ===== src/Brokers/Rabbit/Settling.antt =====
-- How the RabbitMQ broker ends the processing of a message.
use django_event_bus.Prelude.{
  ℕ, suc, ◌+◌, String, List, ◌∷◌, Bool, true, false, not, some, if◌then◌else◌, ltb, ◌≡◌, refl, ap,
  sym, ◌∙◌, arith, Bool-cases, inl, inr,
}
use django_event_bus.Prelude.Dict.{get, remove}
use django_event_bus.Exceptions.{ok, err, connection_lost}
use django_event_bus.Exceptions.Pure.{ok-injective}
use django_event_bus.Exceptions.Exec.{outcome-injective, Exec, pure, ◌>>◌, >>=-eq-ok}
use django_event_bus.Platform.{Platform, str, Json, Key, key_eq}
use django_event_bus.Envelope.{EventEnvelope, dumps, hash_key}
use django_event_bus.Brokers.Pending.{pop-hash_key}
use django_event_bus.Brokers.{Flow}
use django_event_bus.Brokers.Retry.Bounds.{Tries-ok, run_of}
use django_event_bus.Brokers.Rabbit.{
  Client, State, Call, Unsettled, basic_publish, basic_ack, basic_nack, connect, close_connection,
  next_message, dlq_exchange, queue_name,
}
use django_event_bus.Brokers.Rabbit.Options.{Config}
use django_event_bus.Brokers.Rabbit.Operations.{
  call, death_count, publish_to, acknowledge, settle_failure, pop_pending, fail, reconnect,
  open_connection,
}
use django_event_bus.Brokers.Rabbit.Consuming.{resume, visit, consume}

module _ (p : Platform) (client : Client) (c : Config) where
  -- The last call was a `basic_publish` of the event that the server took.
  pub record Published (exchange : String) (routing_key : Json) (e : EventEnvelope) (t : State)
      : Type 0 where
    pub on_channel : ℕ
    pub earlier : List Call
    pub made : t.calls ≡ basic_publish on_channel exchange routing_key (dumps p e) ∷ earlier
    pub accepted :
        client.on_other (basic_publish on_channel exchange routing_key (dumps p e) ∷ earlier)
        ≡ ok tt

  -- When `_publish_to` returns, the server has taken the event in the last call made.
  pub publish_to-Published :
      (exchange : String) (routing_key : Json) (e : EventEnvelope) (s t : State)
      → publish_to p client c exchange routing_key e s ≡ (ok tt, t)
      → Published exchange routing_key e t
  unfolding publish_to
  publish_to-Published exchange routing_key e s t h =
      let (v, _, done) =
        Tries-ok (λ w. Unit {0}) (λ a b q k _. tt) (λ n a b q k _. tt)
          (run_of _ _ _ _ (omega arith) s t (ok tt) h) refl tt in
      let (made, accepted) = outcome-injective done in
      record {
        on_channel = v.channel;
        earlier = v.calls;
        made = ap (λ (w : State). w.calls) made;
        accepted = accepted;
      }

  -- What is known when `fail` returned `abandoned` for a message that it knows.
  pub record Parked (e : EventEnvelope) (u : Unsettled) (s' : State) (abandoned : Bool)
      : Type 0 where
    pub decided :
        abandoned
        ≡ not (ltb (death_count u.delivery.deaths (queue_name c u.event_type) + 1) c.max_retries)
    pub before : State
    pub last_call :
        s'.calls
        ≡ (if abandoned
            then basic_ack u.channel u.delivery.delivery_tag
            else basic_nack u.channel u.delivery.delivery_tag false)
          ∷ before.calls
    pub dead_lettered : abandoned ≡ true → Published (dlq_exchange c) (str u.event_type) e before

  settle_failure-Parked :
      (e : EventEnvelope) (u : Unsettled) (s s' : State) (b : Bool)
      → settle_failure p client c e u s ≡ (ok b, s')
      → Parked e u s' b
  unfolding settle_failure
  settle_failure-Parked e u s s' b h =
      let attempt = death_count u.delivery.deaths (queue_name c u.event_type) + 1 in
      let tag = u.delivery.delivery_tag in
      elim (Bool-cases (ltb attempt c.max_retries)) [
        | inl again ↦
            let h' : (call p client c (basic_nack u.channel tag false) >> pure false) s
                ≡ (ok b, s') =
              rw again at h in
            let (_, t, nacked, last) =
              >>=-eq-ok (call p client c (basic_nack u.channel tag false)) (λ _. pure false) s h' in
            let (made, _) = outcome-injective nacked in
            let answer : b ≡ false = ok-injective (sym (ap (λ q. q.0) last)) in
            record {
              decided = answer ∙ rw again;
              before = s;
              last_call =
                  ap (λ (w : State). w.calls) (sym (ap (λ q. q.1) last) ∙ made) ∙ rw answer refl;
              dead_lettered = λ over. absurd (cc);
            }
        | inr over ↦
            let h' : (publish_to p client c (dlq_exchange c) (str u.event_type) e
                    >> (acknowledge p client c u.channel tag >> pure true))
                  s
                ≡ (ok b, s') =
              rw over at h in
            let (_, t, published, rest) =
              >>=-eq-ok (publish_to p client c (dlq_exchange c) (str u.event_type) e)
                (λ _. acknowledge p client c u.channel tag >> pure true) s h' in
            let (_, v, acked, last) =
              >>=-eq-ok (acknowledge p client c u.channel tag) (λ _. pure true) t rest in
            let (made, _) = outcome-injective acked in
            let answer : b ≡ true = ok-injective (sym (ap (λ q. q.0) last)) in
            record {
              decided = answer ∙ rw over;
              before = t;
              last_call =
                  ap (λ (w : State). w.calls) (sym (ap (λ q. q.1) last) ∙ made) ∙ rw answer refl;
              dead_lettered =
                  λ _. publish_to-Published (dlq_exchange c) (str u.event_type) e s t published;
            }
      ]

  -- When `fail` returns for a message that was delivered and not yet settled, its last call was on
  -- the channel that delivered the message, with the message's own tag. While attempts are left
  -- that call rejects the message; after that it acknowledges it, just after the server took the
  -- event on the dead-letter exchange, and `fail` reports it.
  pub fail-Parked :
      (e : EventEnvelope) (k : Key) (u : Unsettled) (s s' : State) (b : Bool)
      → hash_key e.event_id ≡ ok k
      → get k s.pending ≡ some u
      → fail p client c e s ≡ (ok b, s')
      → Parked e u s' b
  unfolding fail pop_pending
  fail-Parked e k u s s' b keyed found h =
      settle_failure-Parked e u (record s { pending = remove k s.pending }) s' b
        (rw (pop-hash_key e.event_id s.pending keyed, found) at h)

  -- If the server can still not be reached when the loop reconnects after a lost connection, the
  -- loop ends with that error.
  pub consume_disconnected :
      (body : EventEnvelope → Exec State Flow) (rounds : ℕ) (t : String) (channel : ℕ)
      (others : List (String × ℕ)) (s : State)
      → s.consumers ≡ (t, channel) ∷ others
      → let read = next_message channel in
        let closing = close_connection s.connection in
        client.on_next_message (read ∷ s.calls) ≡ err connection_lost
        → client.on_other (closing ∷ read ∷ s.calls) ≡ err connection_lost
        → client.on_connect (connect ∷ closing ∷ read ∷ s.calls) ≡ err connection_lost
        → consume p client c body (rounds + 1) s
          ≡ (err connection_lost, record s { calls = connect ∷ closing ∷ read ∷ s.calls })
  unfolding consume visit resume reconnect open_connection
  consume_disconnected body rounds t channel others s queues lost not_closed unreachable =
      let one_more : rounds + 1 ≡ suc rounds = omega arith in
      ap (λ n. consume p client c body n s) one_more ∙ rw (queues, lost, not_closed, unreachable)
