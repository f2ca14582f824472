-- ===== src/Brokers/Kafka/Receiving.antt =====
-- Messages on their way from a poll to `ack`.
use django_event_bus.Prelude.{ℕ, suc, ◌∷◌, true, some, ◌≡◌}
use django_event_bus.Prelude.Dict.{get, put, remove, get-put_self, remove-put_self}
use django_event_bus.Exceptions.{Error, ok, err, is_exception}
use django_event_bus.Exceptions.Exec.{Exec, pure, ◌>>◌}
use django_event_bus.Platform.{Platform, Key, key_eq}
use django_event_bus.Envelope.{EventEnvelope, loads, hash_key}
use django_event_bus.Brokers.Pending.{pop-hash_key}
use django_event_bus.Brokers.{Flow, go_on}
use django_event_bus.Brokers.Kafka.{Message, Client, State, poll, commit, received}
use django_event_bus.Brokers.Kafka.Options.{Config}
use django_event_bus.Brokers.Kafka.Operations.{
  value_of, to_envelope, pop_pending, ack, consume_turn, consume,
}

module _ (p : Platform) (client : Client) (c : Config) where
  -- The state after a poll.
  abbrev pub polled : State → State
  polled s = record s { calls = poll ∷ s.calls }

  to_envelope_keeps :
      (m : Message) (e : EventEnvelope) (k : Key) (s : State)
      → loads p (value_of p client c m) ≡ ok e
      → hash_key e.event_id ≡ ok k
      → to_envelope p client c m s ≡ (ok (some e), record s { pending = put k m s.pending })
  unfolding to_envelope
  to_envelope_keeps m e k s read keyed = rw (read, keyed)

  ack_known :
      (e : EventEnvelope) (k : Key) (m : Message) (s : State)
      → hash_key e.event_id ≡ ok k
      → get k s.pending ≡ some m
      → s.consumer ≡ true
      → client.on_commit (commit m ∷ s.calls) ≡ ok tt
      → ack p client c e s
        ≡ (ok tt, record s { pending = remove k s.pending; calls = commit m ∷ s.calls })
  unfolding ack pop_pending
  ack_known e k m s keyed found ready committed =
      rw (pop-hash_key e.event_id s.pending keyed, found, ready, committed)

  -- A body that acknowledges every event: the turn of the loop that polls a readable message
  -- commits that message, whatever other message was pending under the same id, leaves nothing
  -- pending under that id, and goes on.
  pub consume-ack :
      (rounds : ℕ) (m : Message) (e : EventEnvelope) (k : Key) (s : State)
      → client.on_poll (poll ∷ s.calls) ≡ ok (received m)
      → loads p (value_of p client c m) ≡ ok e
      → hash_key e.event_id ≡ ok k
      → s.consumer ≡ true
      → client.on_commit (commit m ∷ poll ∷ s.calls) ≡ ok tt
      → let body = λ (x : EventEnvelope). ack p client c x >> pure go_on in
        consume p client c body (suc rounds) s
        ≡ consume p client c body rounds
            (record s { pending = remove k s.pending; calls = commit m ∷ poll ∷ s.calls })
  unfolding consume consume_turn
  consume-ack rounds m e k s arrived read keyed ready committed =
      let t : State = record (polled s) { pending = put k m s.pending } in
      rw (
        arrived,
        to_envelope_keeps m e k (polled s) read keyed,
        ack_known e k m t keyed (get-put_self k m s.pending) ready committed,
        remove-put_self k m s.pending,
      )

  -- An unreadable message is committed, and the loop goes on without it.
  pub consume-unreadable :
      (body : EventEnvelope → Exec State Flow) (rounds : ℕ) (m : Message) (x : Error) (s : State)
      → client.on_poll (poll ∷ s.calls) ≡ ok (received m)
      → loads p (value_of p client c m) ≡ err x
      → is_exception x ≡ true
      → s.consumer ≡ true
      → client.on_commit (commit m ∷ poll ∷ s.calls) ≡ ok tt
      → consume p client c body (suc rounds) s
        ≡ consume p client c body rounds (record s { calls = commit m ∷ poll ∷ s.calls })
  unfolding consume consume_turn to_envelope
  consume-unreadable body rounds m x s arrived unread caught ready committed =
      rw (arrived, unread, caught, ready, committed)

  -- A readable message with an id that cannot be hashed ends the loop with that error, and is not
  -- committed: it will be polled again.
  pub consume-unhashable :
      (body : EventEnvelope → Exec State Flow) (rounds : ℕ) (m : Message) (e : EventEnvelope)
      (x : Error) (s : State)
      → client.on_poll (poll ∷ s.calls) ≡ ok (received m)
      → loads p (value_of p client c m) ≡ ok e
      → hash_key e.event_id ≡ err x
      → consume p client c body (suc rounds) s ≡ (err x, polled s)
  unfolding consume consume_turn to_envelope
  consume-unhashable body rounds m e x s arrived read unhashed = rw (arrived, read, unhashed)
