-- ===== src/Brokers/Kafka/Sending.antt =====
-- Messages on their way in and out of the Kafka broker.
use django_event_bus.Prelude.{
  ℕ, suc, ◌+◌, ◌≤◌, String, List, [], ◌∷◌, true, not, some, if◌then◌else◌, ltb, ◌≡◌, ◌≢◌, refl, ap,
  ◌∙◌, arith, Bool-cases, inl, inr,
}
use django_event_bus.Prelude.Dict.{get, remove}
use django_event_bus.Exceptions.{Result, ok, err}
use django_event_bus.Exceptions.Exec.{outcome-injective, pure, continue, ◌>>=◌, ◌>>◌}
use django_event_bus.Platform.{Platform, Bytes, format, ℤ, pos, Key, key_eq}
use django_event_bus.Envelope.{EventEnvelope, dumps, hash_key}
use django_event_bus.Brokers.Retry.{retry, retry_returns}
use django_event_bus.Brokers.Retry.Bounds.{retry-count-le}
use django_event_bus.Brokers.Kafka.{
  Message, Headers, Client, State, Call, produce, flush, commit, Delivery, unreported, delivered,
  refused, perform, topic_name, dlq_name, retry_headers, retry_count,
}
use django_event_bus.Brokers.Kafka.Options.{Config}
use django_event_bus.Brokers.Kafka.Operations.{
  is_buffer_error, check_delivery, commit_message, produce_once, wait_for_room, attempts,
  try_produce, produce_envelope, publish, settle_failure, fail_message, fail,
}
use django_event_bus.Brokers.Kafka.Producing.{read_retry_count-retry_headers}
use django_event_bus.Brokers.Kafka.Settling.{fail_known}

-- How many of the calls are `produce`.
abbrev pub count_produce : List Call → ℕ
count_produce [] = 0
count_produce (produce topic value headers ∷ calls) = count_produce calls + 1
count_produce (_ ∷ calls) = count_produce calls

module _ (p : Platform) (client : Client) (c : Config) where
  try_produce-count-le :
      (topic : String) (value : Bytes) (headers : Headers) (s : State)
      → count_produce (try_produce p client c topic value headers s).1.calls
        ≤ count_produce s.calls + (c.publish_retries + 1)
  unfolding try_produce
  try_produce-count-le topic value headers s =
      retry-count-le _ is_buffer_error (produce_once p client c topic value headers)
        (wait_for_room p client c topic value headers) (omega arith) (λ t. count_produce t.calls)
        (λ u t r h.
          omega (arith, ap (λ (v : State). count_produce v.calls) (outcome-injective h).0))
        (λ n u t r h.
          omega (arith, ap (λ (v : State). count_produce v.calls) (outcome-injective h).0))
        s

  flushed-count :
      (r : Result (Unit {0}) × State)
      → count_produce
          (continue (λ _. perform flush client.on_flush >>= check_delivery p client c) r).1.calls
        ≡ count_produce r.1.calls
  flushed-count (err x, s) = refl
  flushed-count (ok u, s) = checked (client.on_flush (flush ∷ s.calls))
    where
      checked :
          (r : Result Delivery)
          → count_produce
              (continue
                (check_delivery p client c)
                (r, record s { calls = flush ∷ s.calls })).1.calls
            ≡ count_produce s.calls
      checked (ok unreported) = refl
      checked (ok delivered) = refl
      checked (ok refused) = refl
      checked (err x) = refl

  -- `publish` calls the producer at most `PUBLISH_RETRIES + 1` times, whatever it answers.
  pub publish-count-le :
      (e : EventEnvelope) (s : State)
      → count_produce (publish p client c e s).1.calls
        ≤ count_produce s.calls + (c.publish_retries + 1)
  unfolding publish produce_envelope
  publish-count-le e s =
      let topic = topic_name c (format p e.event_type) in
      omega (
        arith,
        try_produce-count-le topic (dumps p e) (retry_headers (pos 0)) s,
        flushed-count (try_produce p client c topic (dumps p e) (retry_headers (pos 0)) s),
      )

  try_produce_accepted :
      (topic : String) (value : Bytes) (headers : Headers) (s : State)
      → client.on_produce (produce topic value headers ∷ s.calls) ≡ ok tt
      → try_produce p client c topic value headers s
        ≡ (ok tt, record s { calls = produce topic value headers ∷ s.calls })
  unfolding try_produce
  try_produce_accepted topic value headers s accepted =
      let turns : c.publish_retries + 1 ≡ suc c.publish_retries = omega arith in
      let act = produce_once p client c topic value headers in
      let wait = wait_for_room p client c topic value headers in
      ap (λ left. retry (attempts p client c) is_buffer_error act wait left 1 s) turns
      ∙ retry_returns _ _ act wait c.publish_retries 1 s _ (rw accepted)

  check_delivery_fine :
      (d : Delivery) (s : State) → d ≢ refused → check_delivery p client c d s ≡ (ok tt, s)
  check_delivery_fine unreported s h = refl
  check_delivery_fine delivered s h = refl
  check_delivery_fine refused s h = absurd (h refl)

  produce_envelope_accepted :
      (topic : String) (e : EventEnvelope) (n : ℤ) (d : Delivery) (s : State)
      → client.on_produce (produce topic (dumps p e) (retry_headers n) ∷ s.calls) ≡ ok tt
      → client.on_flush (flush ∷ produce topic (dumps p e) (retry_headers n) ∷ s.calls) ≡ ok d
      → d ≢ refused
      → produce_envelope p client c topic e n s ≡ (
        ok tt,
        record s { calls = flush ∷ produce topic (dumps p e) (retry_headers n) ∷ s.calls },
      )
  unfolding produce_envelope
  produce_envelope_accepted topic e n d s accepted flushed fine =
      rw (try_produce_accepted topic (dumps p e) (retry_headers n) s accepted, flushed)
        (check_delivery_fine d _ fine)

  -- `publish` returns although no delivery was reported before the time of `flush` was up.
  pub publish-unreported :
      (e : EventEnvelope) (s : State)
      → let sent =
          produce (topic_name c (format p e.event_type)) (dumps p e) (retry_headers (pos 0)) in
        client.on_produce (sent ∷ s.calls) ≡ ok tt
        → client.on_flush (flush ∷ sent ∷ s.calls) ≡ ok unreported
        → publish p client c e s ≡ (ok tt, record s { calls = flush ∷ sent ∷ s.calls })
  unfolding publish
  publish-unreported e s accepted silent =
      produce_envelope_accepted _ e (pos 0) unreported s accepted silent (λ q. cc)

  -- The topic that `fail` sends the `n`-th failed attempt of an event to.
  abbrev pub next_topic : EventEnvelope → ℕ → String
  next_topic e n =
      if ltb n c.max_retries
      then topic_name c (format p e.event_type)
      else dlq_name c (format p e.event_type)

  -- The two branches of `settle_failure` as one.
  settle_failure_lem :
      (e : EventEnvelope) (m : Message) (n : ℕ) (s : State)
      → settle_failure p client c e m (pos n) s
        ≡ (produce_envelope p client c (next_topic e n) e (pos n)
              >> (commit_message p client c m >> pure (not (ltb n c.max_retries))))
            s
  unfolding settle_failure
  settle_failure_lem e m n s = elim (Bool-cases (ltb n c.max_retries)) [
    | inl again ↦ rw again refl
    | inr over ↦ rw over refl
  ]

  settle_failure_sends :
      (e : EventEnvelope) (m : Message) (n : ℕ) (d : Delivery) (s : State)
      → let sent = produce (next_topic e n) (dumps p e) (retry_headers (pos n)) in
        client.on_produce (sent ∷ s.calls) ≡ ok tt
        → client.on_flush (flush ∷ sent ∷ s.calls) ≡ ok d
        → d ≢ refused
        → client.on_commit (commit m ∷ flush ∷ sent ∷ s.calls) ≡ ok tt
        → settle_failure p client c e m (pos n) s
          ≡ (ok (not (ltb n c.max_retries)), record s { calls = commit m ∷ flush ∷ sent ∷ s.calls })
  settle_failure_sends e m n d s accepted flushed fine committed =
      settle_failure_lem e m n s
      ∙ rw (
        produce_envelope_accepted (next_topic e n) e (pos n) d s accepted flushed fine,
        committed,
      )

  retry_count_written :
      (m : Message) (n : ℕ)
      → m.headers ≡ some (retry_headers (pos n))
      → retry_count p m ≡ ok (pos n)
  unfolding retry_count
  retry_count_written m n h = rw h (read_retry_count-retry_headers p n)

  fail_message_counts :
      (e : EventEnvelope) (m : Message) (n : ℕ) (s : State)
      → s.consumer ≡ true
      → m.headers ≡ some (retry_headers (pos n))
      → fail_message p client c e m s ≡ settle_failure p client c e m (pos (n + 1)) s
  unfolding fail_message
  fail_message_counts e m n s ready numbered = rw (ready, retry_count_written m n numbered)

  -- `fail` on a message that `_produce` wrote with the count `n`, where the client takes the new
  -- message, flushes it without an error and commits: the event goes out again with the count
  -- `n + 1`, on its own topic while `n + 1 < MAX_RETRIES` and on the dead-letter topic otherwise;
  -- the old message is committed after that, and is forgotten; and `fail` tells which it was.
  pub fail-counts :
      (e : EventEnvelope) (k : Key) (m : Message) (n : ℕ) (d : Delivery) (s : State)
      → hash_key e.event_id ≡ ok k
      → get k s.pending ≡ some m
      → s.consumer ≡ true
      → m.headers ≡ some (retry_headers (pos n))
      → let sent = produce (next_topic e (n + 1)) (dumps p e) (retry_headers (pos (n + 1))) in
        client.on_produce (sent ∷ s.calls) ≡ ok tt
        → client.on_flush (flush ∷ sent ∷ s.calls) ≡ ok d
        → d ≢ refused
        → client.on_commit (commit m ∷ flush ∷ sent ∷ s.calls) ≡ ok tt
        → fail p client c e s ≡ (
          ok (not (ltb (n + 1) c.max_retries)),
          record s { pending = remove k s.pending; calls = commit m ∷ flush ∷ sent ∷ s.calls },
        )
  fail-counts e k m n d s keyed found ready numbered accepted flushed fine committed =
      let u : State = record s { pending = remove k s.pending } in
      fail_known p client c e k m s keyed found
      ∙ fail_message_counts e m n u ready numbered
      ∙ settle_failure_sends e m (n + 1) d u accepted flushed fine committed
