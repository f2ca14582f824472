-- ===== src/Brokers/Kafka/Producing.antt =====
-- How the Kafka broker hands a message to the client.
use django_event_bus.Prelude.{ℕ, String, List, ◌∷◌, ◌≡◌, ◌≢◌, refl, ap, sym, ◌∙◌, arith}
use django_event_bus.Exceptions.{Result, ok}
use django_event_bus.Exceptions.Pure.{ok-injective}
use django_event_bus.Exceptions.Exec.{outcome-injective, >>=-eq-ok}
use django_event_bus.Platform.{Platform, Bytes, ℤ, pos, key_eq, parse_int-show}
use django_event_bus.Envelope.{EventEnvelope, dumps}
use django_event_bus.Brokers.Retry.Bounds.{Tries-ok, run_of}
use django_event_bus.Brokers.Kafka.{
  Headers, Client, State, Call, produce, poll_producer, flush, Delivery, unreported, delivered,
  refused, perform, retry_headers, read_retry_count,
}
use django_event_bus.Brokers.Kafka.Options.{Config}
use django_event_bus.Brokers.Kafka.Operations.{try_produce, produce_envelope, check_delivery}

-- The counter that is written into a message is the one that is read from it.
pub read_retry_count-retry_headers :
    (p : Platform) (n : ℕ) → read_retry_count p (retry_headers (pos n)) ≡ ok (pos n)
unfolding read_retry_count retry_headers
read_retry_count-retry_headers p n = parse_int-show p n

module _ (p : Platform) (client : Client) (c : Config) where
  -- The calls of turns of the loop of `_produce` that failed, after those in `before`: attempts
  -- with the same message, and waits for room in the queue.
  pub data Attempts (topic : String) (value : Bytes) (headers : Headers) (before : List Call)
      : List Call → Type 0 where
    no_attempt : Attempts topic value headers before before
    attempted :
        {calls : List Call}
        → Attempts topic value headers before calls
        → Attempts topic value headers before (produce topic value headers ∷ calls)
    waited :
        {calls : List Call} (time : ℕ)
        → Attempts topic value headers before calls
        → Attempts topic value headers before (poll_producer time ∷ calls)

  -- `s` after turns of the loop.
  record Trying (topic : String) (value : Bytes) (headers : Headers) (s t : State) : Type 0 where
    calls : List Call
    attempts_only : Attempts topic value headers s.calls calls
    made : t ≡ record s { calls = calls }

  perform-Trying :
      {A : Type 0} (topic : String) (value : Bytes) (headers : Headers) (call : Call)
      (answer : List Call → Result A) (s u : State) {t : State} {r : Result A}
      → ((calls : List Call)
          → Attempts topic value headers s.calls calls
          → Attempts topic value headers s.calls (call ∷ calls))
      → perform call answer u ≡ (r, t)
      → Trying topic value headers s u
      → Trying topic value headers s t
  perform-Trying topic value headers call answer s u more h trying = record {
    calls = call ∷ trying.calls;
    attempts_only = more trying.calls trying.attempts_only;
    made =
        (outcome-injective h).0
        ∙ ap (λ (v : State). record v { calls = call ∷ v.calls }) trying.made;
  }

  -- The produce that ended the loop of `_produce`, when that loop ends well.
  record Produced (topic : String) (value : Bytes) (headers : Headers) (s t : State) : Type 0 where
    earlier : List Call
    attempts_only : Attempts topic value headers s.calls earlier
    made : t ≡ record s { calls = produce topic value headers ∷ earlier }
    accepted : client.on_produce (produce topic value headers ∷ earlier) ≡ ok tt

  try_produce-ok :
      (topic : String) (value : Bytes) (headers : Headers) (s : State) {t : State}
      → try_produce p client c topic value headers s ≡ (ok tt, t)
      → Produced topic value headers s t
  unfolding try_produce
  try_produce-ok topic value headers s {t} h =
      let (v, trying, done) =
        Tries-ok (Trying topic value headers s)
          (λ a b q k.
            perform-Trying topic value headers _ client.on_produce s a (λ _ l. attempted l) k)
          (λ n a b q k.
            perform-Trying topic value headers _ client.on_poll_producer s a (λ _ l. waited _ l) k)
          (run_of _ _ _ _ (omega arith) s t (ok tt) h) refl
          (record { calls = s.calls; attempts_only = no_attempt; made = refl }) in
      let (made, accepted) = outcome-injective done in
      record {
        earlier = trying.calls;
        attempts_only = trying.attempts_only;
        made =
            made
            ∙ ap (λ (w : State). record w { calls = produce topic value headers ∷ w.calls })
                trying.made;
        accepted =
            ap (λ (w : State). client.on_produce (produce topic value headers ∷ w.calls))
              (sym trying.made)
            ∙ accepted;
      }

  -- What is known when `_produce` returned: the message was accepted, and the queue was flushed.
  pub record Sent (topic : String) (value : Bytes) (headers : Headers) (s t : State) : Type 0 where
    pub earlier : List Call
    pub attempts_only : Attempts topic value headers s.calls earlier
    pub made : t ≡ record s { calls = flush ∷ produce topic value headers ∷ earlier }
    pub accepted : client.on_produce (produce topic value headers ∷ earlier) ≡ ok tt
    pub not_refused : client.on_flush (flush ∷ produce topic value headers ∷ earlier) ≢ ok refused

  check_delivery-ok :
      (d : Delivery) (s t : State)
      → check_delivery p client c d s ≡ (ok tt, t)
      → (t ≡ s) × (d ≢ refused)
  check_delivery-ok unreported s t h = (cc, λ e. cc)
  check_delivery-ok delivered s t h = (cc, λ e. cc)
  check_delivery-ok refused s t h = absurd (cc)

  pub produce_envelope-Sent :
      (topic : String) (e : EventEnvelope) (n : ℤ) (s : State) {t : State}
      → produce_envelope p client c topic e n s ≡ (ok tt, t)
      → Sent topic (dumps p e) (retry_headers n) s t
  unfolding produce_envelope
  produce_envelope-Sent topic e n s {t} h =
      let (_, u, tried, rest) =
        >>=-eq-ok (try_produce p client c topic (dumps p e) (retry_headers n)) _ s h in
      let first = try_produce-ok topic (dumps p e) (retry_headers n) s tried in
      let (report, w, q, checked) =
        >>=-eq-ok (perform flush client.on_flush) (check_delivery p client c) u rest in
      let (made, answer) = outcome-injective q in
      let (last, fine) = check_delivery-ok report w t checked in
      record {
        earlier = first.earlier;
        attempts_only = first.attempts_only;
        made = last ∙ made ∙ ap (λ (v : State). record v { calls = flush ∷ v.calls }) first.made;
        accepted = first.accepted;
        not_refused = λ bad. fine (
            ok-injective (
              sym answer ∙ ap (λ (v : State). client.on_flush (flush ∷ v.calls)) first.made ∙ bad));
      }
