-- ===== src/Brokers/Redis/Sending.antt =====
-- Events on their way into Redis, and out of it by `fail`.
use django_event_bus.Prelude.{
  ℕ, ◌+◌, ◌≤◌, String, List, [], ◌∷◌, Bool, true, false, not, some, if◌then◌else◌, ltb, ◌≡◌, refl,
  ap, sym, ◌∙◌, arith, Bool-cases, ◌⊎◌, inl, inr,
}
use django_event_bus.Prelude.Dict.{get, remove}
use django_event_bus.Exceptions.{Result, ok}
use django_event_bus.Exceptions.Pure.{ok-injective}
use django_event_bus.Exceptions.Exec.{outcome-injective, pure, ◌>>◌, >>=-eq-ok}
use django_event_bus.Platform.{Platform, Bytes, format, Key, key_eq}
use django_event_bus.Envelope.{EventEnvelope, dumps, hash_key}
use django_event_bus.Brokers.Pending.{pop-hash_key}
use django_event_bus.Brokers.Retry.Bounds.{Tries-ok, run_of, retry-count-le}
use django_event_bus.Brokers.Redis.{
  Client, State, Call, xadd, xpending_range, move, perform, is_transient, stream_name, dlq_name,
}
use django_event_bus.Brokers.Redis.Options.{Config}
use django_event_bus.Brokers.Redis.Operations.{
  add_once, pause, publish, delivery_count, settle_failure, fail_entry, pop_pending, fail,
}

-- How many of the calls are `XADD` outside of a transaction.
abbrev pub count_xadd : List Call → ℕ
count_xadd [] = 0
count_xadd (xadd stream b maxlen ∷ calls) = count_xadd calls + 1
count_xadd (_ ∷ calls) = count_xadd calls

module _ (p : Platform) (client : Client) (c : Config) where
  -- `publish` tries at most `PUBLISH_RETRIES + 1` times, whatever the server answers.
  pub count_xadd-publish-le :
      (e : EventEnvelope) (s : State)
      → count_xadd (publish p client c e s).1.calls ≤ count_xadd s.calls + (c.publish_retries + 1)
  unfolding publish
  count_xadd-publish-le e s =
      let act = add_once p client c (stream_name c (format p e.event_type)) (dumps p e) in
      retry-count-le (c.publish_retries + 1) is_transient act (pause p client c) (omega arith)
        (λ t. count_xadd t.calls)
        (λ u t r h. omega (arith, ap (λ (v : State). count_xadd v.calls) (outcome-injective h).0))
        (λ n u t r h. omega (arith, ap (λ (v : State). count_xadd v.calls) (outcome-injective h).0))
        s

  -- What is known when `publish` returned.
  pub record Added (e : EventEnvelope) (s s' : State) : Type 0 where
    pub earlier : List Call
    pub added : Call
    pub named : added ≡ xadd (stream_name c (format p e.event_type)) (dumps p e) c.maxlen
    pub made : s' ≡ record s { calls = added ∷ earlier }
    pub accepted : client.on_xadd (added ∷ earlier) ≡ ok tt

  abbrev Called : State → State → Type 0
  Called s t = (calls : List Call) × (t ≡ record s { calls = calls })

  perform-Called :
      {A : Type 0} (call : Call) (answer : List Call → Result A) (s u : State) {t : State}
      {r : Result A}
      → perform call answer u ≡ (r, t)
      → Called s u
      → Called s t
  perform-Called call answer s u h (calls, e) =
      let made = (outcome-injective h).0 in
      (call ∷ u.calls, made ∙ ap (λ (v : State). record v { calls = call ∷ u.calls }) e)

  -- When `publish` returns, the server has accepted the event on the stream of its type in the
  -- last call made.
  pub publish-Added :
      (e : EventEnvelope) (s s' : State) → publish p client c e s ≡ (ok tt, s') → Added e s s'
  unfolding publish
  publish-Added e s s' h =
      let (v, (earlier, ev), done) =
        Tries-ok (Called s) (λ a b q k called. perform-Called _ client.on_xadd s a k called)
          (λ n a b q k called. perform-Called _ client.on_sleep s a k called)
          (run_of _ _ _ _ (omega arith) s s' (ok tt) h) refl (s.calls, refl) in
      let (made, accepted) = outcome-injective done in
      let added = xadd (stream_name c (format p e.event_type)) (dumps p e) c.maxlen in
      record {
        earlier = v.calls;
        added = added;
        named = refl;
        made = made ∙ ap (λ (w : State). record w { calls = added ∷ v.calls }) ev;
        accepted = accepted;
      }

  -- What is known when `fail` returned `abandoned` for a message that it knows.
  pub record Decided (e : EventEnvelope) (k : Key) (stream : String) (msg_id : Bytes) (s s' : State)
      (abandoned : Bool) : Type 0 where
    pub deliveries : List ℕ
    pub asked : Call
    pub asked_as : asked ≡ xpending_range stream c.service_name msg_id
    pub answered : client.on_xpending_range (asked ∷ s.calls) ≡ ok deliveries
    pub decided : abandoned ≡ not (ltb (delivery_count deliveries) c.max_retries)
    pub moved : Call
    pub moved_as :
        moved
        ≡ move
            (dlq_name c (format p e.event_type))
            (dumps p e)
            c.maxlen
            stream
            c.service_name
            msg_id
    pub made : s' ≡ record s {
      pending = remove k s.pending;
      calls = if abandoned then moved ∷ asked ∷ s.calls else asked ∷ s.calls;
    }
    pub accepted : abandoned ≡ true → client.on_move (moved ∷ asked ∷ s.calls) ≡ ok tt

  pub fail_known :
      (e : EventEnvelope) (k : Key) (stream : String) (msg_id : Bytes) (s : State)
      → hash_key e.event_id ≡ ok k
      → get k s.pending ≡ some (stream, msg_id)
      → fail p client c e s
        ≡ fail_entry p client c e stream msg_id (record s { pending = remove k s.pending })
  unfolding fail pop_pending
  fail_known e k stream msg_id s keyed found = rw (pop-hash_key e.event_id s.pending keyed, found)

  abbrev moving : EventEnvelope → String → Bytes → Call
  moving e stream msg_id =
      move (dlq_name c (format p e.event_type)) (dumps p e) c.maxlen stream c.service_name msg_id

  settle_failure_cases :
      (e : EventEnvelope) (stream : String) (msg_id : Bytes) (count : ℕ) (s s' : State) (b : Bool)
      → settle_failure p client c e stream msg_id count s ≡ (ok b, s')
      → ((ltb count c.max_retries ≡ true) × (b ≡ false) × (s' ≡ s))
        ⊎ ((ltb count c.max_retries ≡ false)
            × (b ≡ true)
            × (s' ≡ record s { calls = moving e stream msg_id ∷ s.calls })
            × (client.on_move (moving e stream msg_id ∷ s.calls) ≡ ok tt))
  unfolding settle_failure
  settle_failure_cases e stream msg_id count s s' b h =
      elim (Bool-cases (ltb count c.max_retries)) [
        | inl again ↦
            let same : ◌≡◌ {A = Result Bool × State} (ok false, s) (ok b, s') = rw again at h in
            inl (again, ok-injective (sym (ap (λ q. q.0) same)), sym (ap (λ q. q.1) same))
        | inr over ↦
            let rest : ((perform (moving e stream msg_id) client.on_move >> pure true) s)
                ≡ (ok b, s') =
              rw over at h in
            let (_, t, moved, last) =
              >>=-eq-ok (perform (moving e stream msg_id) client.on_move) (λ _. pure true) s rest in
            let (made, accepted) = outcome-injective moved in
            inr (
              over,
              ok-injective (sym (ap (λ q. q.0) last)),
              sym (ap (λ q. q.1) last) ∙ made,
              accepted,
            )
      ]

  -- When `fail` returns for a message that was delivered and not yet settled, it has asked how
  -- often that message was delivered. If that is `MAX_RETRIES` or more, the last call is the one
  -- transaction that adds the event to the dead-letter stream and acknowledges the message, and
  -- `fail` reports it; otherwise it made no other call, so that the message stays pending.
  pub fail-Decided :
      (e : EventEnvelope) (k : Key) (stream : String) (msg_id : Bytes) (s s' : State) (b : Bool)
      → hash_key e.event_id ≡ ok k
      → get k s.pending ≡ some (stream, msg_id)
      → fail p client c e s ≡ (ok b, s')
      → Decided e k stream msg_id s s' b
  unfolding fail_entry
  fail-Decided e k stream msg_id s s' b keyed found h =
      let u : State = record s { pending = remove k s.pending } in
      let asked = xpending_range stream c.service_name msg_id in
      let (infos, v, found_infos, rest) =
        >>=-eq-ok (perform asked client.on_xpending_range)
          (λ l. settle_failure p client c e stream msg_id (delivery_count l)) u
          (sym (fail_known e k stream msg_id s keyed found) ∙ h) in
      let (made, answered) = outcome-injective found_infos in
      let rest' : settle_failure p client c e stream msg_id (delivery_count infos)
            (record u { calls = asked ∷ s.calls })
          ≡ (ok b, s') =
        ap (settle_failure p client c e stream msg_id (delivery_count infos)) (sym made) ∙ rest in
      elim (settle_failure_cases e stream msg_id (delivery_count infos) _ s' b rest') [
        | inl (again, answer, left) ↦ record {
          deliveries = infos;
          asked = asked;
          asked_as = refl;
          answered = answered;
          decided = answer ∙ rw again;
          moved = moving e stream msg_id;
          moved_as = refl;
          made = left ∙ rw answer refl;
          accepted = λ yes. absurd (cc);
        }
        | inr (over, answer, left, accepted) ↦ record {
          deliveries = infos;
          asked = asked;
          asked_as = refl;
          answered = answered;
          decided = answer ∙ rw over;
          moved = moving e stream msg_id;
          moved_as = refl;
          made = left ∙ rw answer refl;
          accepted = λ yes. accepted;
        }
      ]
