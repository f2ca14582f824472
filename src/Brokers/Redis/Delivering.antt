-- ===== src/Brokers/Redis/Delivering.antt =====
-- Messages on their way from a read to `ack`.
use django_event_bus.Prelude.{String, List, [], ◌∷◌, some, ◌≡◌, refl}
use django_event_bus.Prelude.Lists.{All}
use django_event_bus.Prelude.Dict.{Dict, get, put, remove, get-put_self, remove-put_self}
use django_event_bus.Exceptions.{Error, ok, err}
use django_event_bus.Exceptions.Exec.{Exec, pure, ◌>>◌}
use django_event_bus.Platform.{Platform, Bytes, Key, key_eq}
use django_event_bus.Envelope.{EventEnvelope, hash_key}
use django_event_bus.Brokers.Pending.{pop-hash_key}
use django_event_bus.Brokers.{Flow, go_on, for_flow}
use django_event_bus.Brokers.Redis.{Entry, Client, State, Call, xack}
use django_event_bus.Brokers.Redis.Options.{Config}
use django_event_bus.Brokers.Redis.Operations.{read_entry, to_envelope, pop_pending, ack}
use django_event_bus.Brokers.Redis.Consuming.{deliver_entry}

module _ (p : Platform) (client : Client) (c : Config) where
  -- A body that ends well: it acknowledges the event and goes on.
  abbrev pub acks : EventEnvelope → Exec State Flow
  acks e = ack p client c e >> pure go_on

  -- One `XACK` for each entry, in their order, on top of `calls`.
  abbrev pub acknowledged : String → List Entry → List Call → List Call
  acknowledged stream [] calls = calls
  acknowledged stream (entry ∷ entries) calls =
      acknowledged stream entries (xack stream c.service_name entry.msg_id ∷ calls)

  abbrev pub forget : List Key → Dict Key (String × Bytes) → Dict Key (String × Bytes)
  forget [] pending = pending
  forget (k ∷ ks) pending = forget ks (remove k pending)

  ack_known :
      (e : EventEnvelope) (k : Key) (stream : String) (msg_id : Bytes) (s : State)
      → hash_key e.event_id ≡ ok k
      → get k s.pending ≡ some (stream, msg_id)
      → client.on_xack (xack stream c.service_name msg_id ∷ s.calls) ≡ ok tt
      → ack p client c e s ≡ (
        ok tt,
        record s {
          pending = remove k s.pending;
          calls = xack stream c.service_name msg_id ∷ s.calls;
        },
      )
  unfolding ack pop_pending
  ack_known e k stream msg_id s keyed found acked =
      rw (pop-hash_key e.event_id s.pending keyed, found, acked)

  deliver_entry-ack :
      (stream : String) (entry : Entry) (e : EventEnvelope) (k : Key) (s : State)
      → read_entry p entry ≡ ok e
      → hash_key e.event_id ≡ ok k
      → client.on_xack (xack stream c.service_name entry.msg_id ∷ s.calls) ≡ ok tt
      → deliver_entry p client c acks stream entry s ≡ (
        ok go_on,
        record s {
          pending = remove k s.pending;
          calls = xack stream c.service_name entry.msg_id ∷ s.calls;
        },
      )
  unfolding deliver_entry to_envelope
  deliver_entry-ack stream entry e k s read keyed acked =
      let id = entry.msg_id in
      let t : State = record s { pending = put k (stream, id) s.pending } in
      rw (
        read,
        keyed,
        ack_known e k stream id t keyed (get-put_self k (stream, id) s.pending) acked,
        remove-put_self k (stream, id) s.pending,
      )

  module _ (body : EventEnvelope → Exec State Flow) where
    -- An entry that reads as an event with an id that can be hashed, on which the body ends well.
    pub record Handled (entry : Entry) : Type 0 where
      pub event : EventEnvelope
      pub key : Key
      pub reads : read_entry p entry ≡ ok event
      pub keyed : hash_key event.event_id ≡ ok key
      pub ends_well : (s : State) → body event s ≡ acks event s

    abbrev pub keys_of : (entries : List Entry) → All Handled entries → List Key
    keys_of [] handled = []
    keys_of (entry ∷ entries) (first, handled) = first.key ∷ keys_of entries handled

    deliver_entry-same :
        (stream : String) (entry : Entry) (s : State)
        → Handled entry
        → deliver_entry p client c body stream entry s
          ≡ deliver_entry p client c acks stream entry s
    unfolding deliver_entry to_envelope
    deliver_entry-same stream entry s handled = rw (handled.reads, handled.keyed, handled.ends_well)

    -- A batch of messages that the body of the loop handles and acknowledges: as long as the
    -- server takes the `XACK`s, it is asked for exactly one for each message, with the message's
    -- own id and in their order, and no message of the batch stays pending.
    pub for_flow-deliver_entry :
        (stream : String) (entries : List Entry) (s : State)
        → ((calls : List Call) → client.on_xack calls ≡ ok tt)
        → (handled : All Handled entries)
        → for_flow (deliver_entry p client c body stream) entries s ≡ (
          ok go_on,
          record s {
            pending = forget (keys_of entries handled) s.pending;
            calls = acknowledged stream entries s.calls;
          },
        )
    unfolding for_flow
    for_flow-deliver_entry stream [] s taken handled = refl
    for_flow-deliver_entry stream (entry ∷ entries) s taken (first, handled) =
        rw
          (
            deliver_entry-same stream entry s first,
            deliver_entry-ack stream entry first.event first.key s first.reads first.keyed
                (taken _),
          )
          (for_flow-deliver_entry stream entries _ taken handled)

  -- An entry with an id that cannot be hashed ends the loop with that error, and is not
  -- acknowledged; the entries behind it are not delivered.
  pub deliver_entry-unhashable :
      (body : EventEnvelope → Exec State Flow) (stream : String) (entry : Entry)
      (entries : List Entry) (e : EventEnvelope) (x : Error) (s : State)
      → read_entry p entry ≡ ok e
      → hash_key e.event_id ≡ err x
      → for_flow (deliver_entry p client c body stream) (entry ∷ entries) s ≡ (err x, s)
  unfolding for_flow deliver_entry to_envelope
  deliver_entry-unhashable body stream entry entries e x s read unhashed = rw (read, unhashed)
