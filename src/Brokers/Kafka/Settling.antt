-- ===== src/Brokers/Kafka/Settling.antt =====
-- How the Kafka broker ends the processing of a message.
use django_event_bus.Prelude.{
  String, List, ◌∷◌, Bool, true, false, not, some, if◌then◌else◌, ◌≡◌, ◌≢◌, refl, ap, subst, sym,
  ◌∙◌, arith, Bool-cases, inl, inr,
}
use django_event_bus.Prelude.Dict.{get, remove}
use django_event_bus.Exceptions.{ok}
use django_event_bus.Exceptions.Pure.{ok-injective}
use django_event_bus.Exceptions.Exec.{outcome-injective, pure, lift, ◌>>=◌, ◌>>◌, >>=-eq-ok}
use django_event_bus.Platform.{Platform, format, ℤ, Key, key_eq}
use django_event_bus.Envelope.{EventEnvelope, dumps, hash_key}
use django_event_bus.Brokers.Pending.{pop-hash_key}
use django_event_bus.Brokers.Kafka.{
  Message, Client, State, Call, produce, flush, commit, refused, topic_name, dlq_name,
  retry_headers, retry_count, int_suc, int_ltb,
}
use django_event_bus.Brokers.Kafka.Options.{Config}
use django_event_bus.Brokers.Kafka.Operations.{
  produce_envelope, pop_pending, commit_message, require_consumer, settle_failure, fail_message,
  fail,
}
use django_event_bus.Brokers.Kafka.Producing.{Attempts, Sent, produce_envelope-Sent}

module _ (p : Platform) (client : Client) (c : Config) where
  -- What is known when `fail` returned `abandoned` for a message that it knows.
  pub record Settled (e : EventEnvelope) (k : Key) (m : Message) (s s' : State) (abandoned : Bool)
      : Type 0 where
    pub count : ℤ
    pub counted : retry_count p m ≡ ok count
    pub decided : abandoned ≡ not (int_ltb (int_suc count) c.max_retries)
    pub topic : String
    pub named : topic ≡ (
        if abandoned
        then dlq_name c (format p e.event_type)
        else topic_name c (format p e.event_type))
    pub earlier : List Call
    pub attempts_only :
        Attempts p client c topic (dumps p e) (retry_headers (int_suc count)) s.calls earlier
    pub made : s' ≡ record s {
      pending = remove k s.pending;
      calls =
          commit m ∷ flush ∷ produce topic (dumps p e) (retry_headers (int_suc count)) ∷ earlier;
    }
    pub accepted :
        client.on_produce (produce topic (dumps p e) (retry_headers (int_suc count)) ∷ earlier)
        ≡ ok tt
    pub not_refused :
        client.on_flush
          (flush ∷ produce topic (dumps p e) (retry_headers (int_suc count)) ∷ earlier)
        ≢ ok refused

  record Ended (e : EventEnvelope) (m : Message) (topic : String) (n : ℤ) (s s' : State)
      : Type 0 where
    sent_at : State
    sent : Sent p client c topic (dumps p e) (retry_headers n) s sent_at
    made : s' ≡ record sent_at { calls = commit m ∷ sent_at.calls }

  -- The end of `fail`, on one topic.
  ended :
      (e : EventEnvelope) (m : Message) (topic : String) (n : ℤ) (answer b : Bool) (s : State)
      {s' : State}
      → (produce_envelope p client c topic e n >> (commit_message p client c m >> pure answer)) s
        ≡ (ok b, s')
      → Ended e m topic n s s' × (b ≡ answer)
  ended e m topic n answer b s {s'} h =
      let (_, u, produced, rest) =
        >>=-eq-ok (produce_envelope p client c topic e n)
          (λ _. commit_message p client c m >> pure answer) s h in
      let (_, v, committed, last) =
        >>=-eq-ok (commit_message p client c m) (λ _. pure answer) u rest in
      let (made, _) = outcome-injective committed in
      (
        record {
          sent_at = u;
          sent = produce_envelope-Sent p client c topic e n s produced;
          made = sym (ap (λ q. q.1) last) ∙ made;
        },
        ok-injective (sym (ap (λ q. q.0) last)),
      )

  pub fail_known :
      (e : EventEnvelope) (k : Key) (m : Message) (s : State)
      → hash_key e.event_id ≡ ok k
      → get k s.pending ≡ some m
      → fail p client c e s
        ≡ fail_message p client c e m (record s { pending = remove k s.pending })
  unfolding fail pop_pending
  fail_known e k m s keyed found = rw (pop-hash_key e.event_id s.pending keyed, found)

  Ended-Settled :
      (e : EventEnvelope) (k : Key) (m : Message) (s s' : State) (n : ℤ) (topic : String)
      (answer b : Bool)
      → retry_count p m ≡ ok n
      → answer ≡ not (int_ltb (int_suc n) c.max_retries)
      → topic ≡ (
          if answer
          then dlq_name c (format p e.event_type)
          else topic_name c (format p e.event_type))
      → Ended e m topic (int_suc n) (record s { pending = remove k s.pending }) s' × (b ≡ answer)
      → Settled e k m s s' b
  Ended-Settled e k m s s' n topic answer b counted decided named (end, same) =
      subst (Settled e k m s s') (sym same) (record {
        count = n;
        counted = counted;
        decided = decided;
        topic = topic;
        named = named;
        earlier = end.sent.earlier;
        attempts_only = end.sent.attempts_only;
        made = end.made ∙ ap (λ (v : State). record v { calls = commit m ∷ v.calls }) end.sent.made;
        accepted = end.sent.accepted;
        not_refused = end.sent.not_refused;
      })

  require_consumer-ok : (s v : State) {a : Unit {0}} → require_consumer s ≡ (ok a, v) → s ≡ v
  require_consumer-ok s v h = ground arith

  settle_failure-again :
      (e : EventEnvelope) (m : Message) (n : ℤ) (s : State)
      → int_ltb n c.max_retries ≡ true
      → settle_failure p client c e m n s
        ≡ (produce_envelope p client c (topic_name c (format p e.event_type)) e n
              >> (commit_message p client c m >> pure false))
            s
  unfolding settle_failure
  settle_failure-again e m n s h = rw h

  settle_failure-over :
      (e : EventEnvelope) (m : Message) (n : ℤ) (s : State)
      → int_ltb n c.max_retries ≡ false
      → settle_failure p client c e m n s
        ≡ (produce_envelope p client c (dlq_name c (format p e.event_type)) e n
              >> (commit_message p client c m >> pure true))
            s
  unfolding settle_failure
  settle_failure-over e m n s h = rw h

  -- When `fail` returns for a message that was delivered and not yet settled, it has made these
  -- calls and no others: attempts to send the event on, with its attempt counted, and waits between
  -- them; the attempt that the client accepted; a flush, which did not report the delivery as
  -- failed; and then the commit of the message. The event goes to the topic of its type while
  -- attempts are left, and to the dead-letter topic after that, which `fail` reports.
  pub fail-Settled :
      (e : EventEnvelope) (k : Key) (m : Message) (s s' : State) (b : Bool)
      → hash_key e.event_id ≡ ok k
      → get k s.pending ≡ some m
      → fail p client c e s ≡ (ok b, s')
      → Settled e k m s s' b
  unfolding fail_message
  fail-Settled e k m s s' b keyed found h =
      let u : State = record s { pending = remove k s.pending } in
      let (_, v, checked, rest) =
        >>=-eq-ok require_consumer
          (λ _. do count ← lift (retry_count p m); settle_failure p client c e m (int_suc count)) u
          (sym (fail_known e k m s keyed found) ∙ h) in
      let (n, w, counted, last) =
        >>=-eq-ok (lift (retry_count p m)) (λ count. settle_failure p client c e m (int_suc count))
          v rest in
      let same : u ≡ w = require_consumer-ok u v checked ∙ ap (λ q. q.1) counted in
      let end : settle_failure p client c e m (int_suc n) u ≡ (ok b, s') =
        ap (settle_failure p client c e m (int_suc n)) same ∙ last in
      elim (Bool-cases (int_ltb (int_suc n) c.max_retries)) [
        | inl again ↦
            Ended-Settled e k m s s' n (topic_name c (format p e.event_type)) false b
              (ap (λ q. q.0) counted) (rw again) refl
              (ended e m _ (int_suc n) false b u
                (sym (settle_failure-again e m (int_suc n) u again) ∙ end))
        | inr over ↦
            Ended-Settled e k m s s' n (dlq_name c (format p e.event_type)) true b
              (ap (λ q. q.0) counted) (rw over) refl
              (ended e m _ (int_suc n) true b u
                (sym (settle_failure-over e m (int_suc n) u over) ∙ end))
      ]
