-- ===== src/Brokers/Redis/Groups.antt =====
-- The consumer groups: from where they are created, and what an outage does to the loop.
use django_event_bus.Prelude.{
  ℕ, zero, suc, ◌+◌, String, List, [], ◌∷◌, Option, none, some, if◌then◌else◌, string_eq, ◌==◌, ◌≡◌,
  Bool-cases, inl, inr, arith,
}
use django_event_bus.Exceptions.{Error, Result, ok, err, response_error, is_exception}
use django_event_bus.Exceptions.Exec.{Exec, pure, lift, modify, reify, ◌>>◌}
use django_event_bus.Exceptions.Keeps.{Keeps, Keeps->>=, Keeps-try_except, Keeps-for_each}
use django_event_bus.Prelude.Dict.{put}
use django_event_bus.Platform.{Platform, key_eq}
use django_event_bus.Envelope.{EventEnvelope, hash_key}
use django_event_bus.Brokers.{Flow, go_on, leave, for_flow}
use django_event_bus.Brokers.Redis.{
  Entry, Client, State, Call, xgroup_create, xautoclaim, xreadgroup, perform, includes,
}
use django_event_bus.Brokers.Redis.Options.{Config}
use django_event_bus.Brokers.Redis.Operations.{
  allow_busy, ensure_group, recover_missing_group, acknowledge, keep_or_skip, read_entry,
  to_envelope,
}
use django_event_bus.Brokers.Redis.Consuming.{
  on_error, from_keys, hand_over, deliver_entry, on_claimed, claim_stream, on_read, read_new,
  consume_turn, consume,
}

-- How many groups were created from the start of their stream.
abbrev pub count_replays : List Call → ℕ
count_replays [] = 0
count_replays (xgroup_create stream group start_id ∷ calls) =
    if start_id == "0" then count_replays calls + 1 else count_replays calls
count_replays (_ ∷ calls) = count_replays calls

abbrev pub Replays : ℕ → State → Type 0
Replays n s = count_replays s.calls ≡ n

-- `rest` unless the reader has left.
Keeps-Flow :
    (R : State → Type 0) (rest : Exec State Flow)
    → Keeps R rest
    → (flow : Flow) → Keeps R (elim flow [ go_on ↦ rest | leave ↦ pure leave ])
Keeps-Flow R rest keep go_on s h = keep s h
Keeps-Flow R rest keep leave s h = h

for_flow-Keeps :
    {X : Type 0} (R : State → Type 0) (body : X → Exec State Flow)
    → ((x : X) → Keeps R (body x))
    → (xs : List X) → Keeps R (for_flow body xs)
unfolding for_flow
for_flow-Keeps R body keep [] s h = h
for_flow-Keeps R body keep (x ∷ xs) s h =
    Keeps->>= R (body x) _ (keep x) (Keeps-Flow R _ (for_flow-Keeps R body keep xs)) s h

module _ (p : Platform) (client : Client) (c : Config) (n : ℕ) where
  ensure_group-Replays : (stream : String) → Keeps (Replays n) (ensure_group p client c "$" stream)
  unfolding ensure_group
  ensure_group-Replays stream =
      Keeps-try_except (Replays n)
        (perform (xgroup_create stream c.service_name "$") client.on_xgroup_create)
        (allow_busy p client c) (λ t k. k) busy
    where
      busy : (x : Error) → Keeps (Replays n) (allow_busy p client c x)
      busy x t k = ground arith

  recover-Replays :
      (stream message : String)
      → Keeps (Replays n) (recover_missing_group p client c stream message)
  unfolding recover_missing_group
  recover-Replays stream message s h = elim (Bool-cases (includes message "NOGROUP")) [
    | inl missing ↦ rw missing (ensure_group-Replays stream s h)
    | inr kept ↦ rw kept h
  ]

  on_error-Replays :
      (recover : String → Exec State (Unit {0}))
      → ((message : String) → Keeps (Replays n) (recover message))
      → (x : Error) → Keeps (Replays n) (on_error recover x)
  on_error-Replays recover keep (response_error message) s h =
      Keeps->>= (Replays n) (recover message) (λ _. pure go_on) (keep message) (λ _ t k. k) s h
  on_error-Replays recover keep x s h = ground arith

  to_envelope-Replays :
      (stream : String) (entry : Entry) → Keeps (Replays n) (to_envelope p client c stream entry)
  unfolding to_envelope
  to_envelope-Replays stream entry = of (read_entry p entry)
    where
      of :
          (r : Result EventEnvelope)
          → Keeps (Replays n) (keep_or_skip p client c stream entry.msg_id r)
      of (ok e) s h =
          Keeps->>= (Replays n) (lift (hash_key e.event_id))
            (λ key.
              modify
                (λ (t : State). record t { pending = put key (stream, entry.msg_id) t.pending })
              >> pure (some e))
            (λ t k. k) (λ key t k. k) s h
      of (err x) s h = elim (Bool-cases (is_exception x)) [
        | inl caught ↦ rw caught (
            Keeps->>= (Replays n) (acknowledge p client c stream entry.msg_id) (λ _. pure none)
              (λ t k. k) (λ _ t k. k) s h)
        | inr escapes ↦ rw escapes h
      ]

  module _ (body : EventEnvelope → Exec State Flow)
      (keep : (e : EventEnvelope) → Keeps (Replays n) (body e)) where
    deliver_entry-Replays :
        (stream : String) (entry : Entry)
        → Keeps (Replays n) (deliver_entry p client c body stream entry)
    unfolding deliver_entry
    deliver_entry-Replays stream entry =
        Keeps->>= (Replays n) (to_envelope p client c stream entry) (hand_over p client c body)
          (to_envelope-Replays stream entry) given
      where
        given : (found : Option EventEnvelope) → Keeps (Replays n) (hand_over p client c body found)
        given none s h = h
        given (some e) s h = keep e s h

    entries-Replays :
        (stream : String) (entries : List Entry)
        → Keeps (Replays n) (for_flow (deliver_entry p client c body stream) entries)
    entries-Replays stream entries =
        for_flow-Keeps (Replays n) _ (deliver_entry-Replays stream) entries

    on_claimed-Replays :
        (stream : String) (r : Result (List Entry))
        → Keeps (Replays n) (on_claimed p client c body stream r)
    on_claimed-Replays stream (ok entries) s h = entries-Replays stream entries s h
    on_claimed-Replays stream (err x) s h = on_error-Replays _ (recover-Replays stream) x s h

    claim_stream-Replays :
        (stream : String) → Keeps (Replays n) (claim_stream p client c body stream)
    unfolding claim_stream
    claim_stream-Replays stream =
        Keeps->>= (Replays n)
          (reify (
            perform (xautoclaim stream c.service_name c.consumer_name c.retry_idle_ms)
              client.on_xautoclaim))
          (on_claimed p client c body stream) (λ s h. h) (on_claimed-Replays stream)

    on_read-Replays :
        (streams : List String) (r : Result (List (String × List Entry)))
        → Keeps (Replays n) (on_read p client c body streams r)
    on_read-Replays streams (ok batches) s h =
        for_flow-Keeps (Replays n) _ (λ batch. entries-Replays batch.0 batch.1) batches s h
    on_read-Replays streams (err x) s h =
        on_error-Replays _
          (λ message.
            Keeps-for_each (Replays n) _ (λ stream. recover-Replays stream message) streams)
          x s h

    read_new-Replays :
        (streams : List String) → Keeps (Replays n) (read_new p client c body streams)
    unfolding read_new
    read_new-Replays streams =
        Keeps->>= (Replays n)
          (reify (
            perform (xreadgroup c.service_name c.consumer_name (from_keys [] streams) c.block_ms)
              client.on_xreadgroup))
          (on_read p client c body streams) (λ s h. h) (on_read-Replays streams)

    consume_turn-Replays :
        (streams : List String) → Keeps (Replays n) (consume_turn p client c body streams)
    unfolding consume_turn
    consume_turn-Replays streams =
        Keeps->>= (Replays n) (for_flow (claim_stream p client c body) streams) _
          (for_flow-Keeps (Replays n) _ claim_stream-Replays streams)
          (Keeps-Flow (Replays n) _ (read_new-Replays streams))

    -- The loop of a worker creates no group from the start of its stream, however its streams lose
    -- their groups and whatever the server answers, as long as the body of the loop creates none:
    -- old events are not delivered a second time.
    pub consume-Replays :
        (rounds : ℕ) (streams : List String)
        → Keeps (Replays n) (consume p client c body rounds streams)
    unfolding consume
    consume-Replays zero streams s h = h
    consume-Replays (suc rounds) streams s h =
        Keeps->>= (Replays n) (consume_turn p client c body streams) _
          (consume_turn-Replays streams) (Keeps-Flow (Replays n) _ (consume-Replays rounds streams))
          s h
