-- ===== src/Worker/OnRedis.antt =====
-- A worker on Redis Streams.
use django_event_bus.Prelude.{ℕ, List, [], ◌∷◌, map, true, false, ◌≡◌, refl, ◌⊎◌, ◌∙◌}
use django_event_bus.Exceptions.{Result, ok, err, connection_lost}
use django_event_bus.Exceptions.Exec.{Exec, pure, continue, ◌>>◌}
use django_event_bus.Platform.{Platform, Key, format_key}
use django_event_bus.Envelope.{EventEnvelope}
use django_event_bus.Registry.{Registry, get_receivers, registered_event_types}
use django_event_bus.Brokers.{BaseBroker, go_on}
use django_event_bus.Dispatcher.{settle}
use django_event_bus.Dispatcher.Outcomes.{Runs, done, returned, dispatch-settle}
use django_event_bus.Brokers.Redis.{Client, State, Call, stream_name}
use django_event_bus.Brokers.Redis.Options.{Config}
use django_event_bus.Brokers.Redis.Consuming.{broker}
use django_event_bus.Brokers.Redis.Outages.{Exists, creations, listen_lem, consume_quiet}
use django_event_bus.Brokers.Redis.Delivering.{acks}
use django_event_bus.Worker.{StopFlag, work, handle}

module _ {H : Type 0} (p : Platform) (client : Client) (c : Config) (flag : StopFlag State)
    (invoke : H → EventEnvelope → Exec State (Unit {0})) (registry : Registry H) where
  -- A worker whose server can make its groups but has no message for it runs on for any number of
  -- rounds, whatever the stop flag says: the flag is only looked at when a message comes.
  pub handle_quiet :
      (t : Key) (ts : List Key)
      → registered_event_types registry ≡ t ∷ ts
      → ((calls : List Call) → Exists p client c calls)
      → ((calls : List Call)
          → (client.on_xautoclaim calls ≡ err connection_lost)
            ⊎ (client.on_xautoclaim calls ≡ ok []))
      → ((calls : List Call)
          → (client.on_xreadgroup calls ≡ err connection_lost)
            ⊎ (client.on_xreadgroup calls ≡ ok []))
      → (rounds : ℕ) (s : State)
      → (s' : State) × (handle flag invoke registry (pure (broker p client c)) rounds s
          ≡ (ok go_on, s'))
  unfolding handle broker
  handle_quiet t ts types groups quiet_claim quiet_read rounds s =
      let body = work flag invoke registry (broker p client c) in
      let u = flag.set_stop false s in
      let streams = map (λ k. stream_name c (format_key p k)) (t ∷ ts) in
      let v : State = record u { calls = creations p client c streams u.calls } in
      let (calls, running) =
        consume_quiet p client c body quiet_claim quiet_read rounds streams v in
      (
        record v { calls = calls },
        rw (types, listen_lem p client c body rounds (t ∷ ts) u groups ∙ running) refl,
      )

  -- The receivers `hs` all return, and leave the broker's state alone.
  returns-Runs :
      (e : EventEnvelope) (s : State)
      → ((h : H) → invoke h e s ≡ (ok tt, s))
      → (hs : List H) → Runs invoke e hs s 0 s
  returns-Runs e s fine [] = done
  returns-Runs e s fine (h ∷ hs) = returned (fine h) (returns-Runs e s fine hs)

  settle-acks :
      (b : BaseBroker State) (e : EventEnvelope) (s : State)
      → continue (λ handled. pure go_on) (settle invoke b e 0 s) ≡ (b.ack e >> pure go_on) s
  settle-acks b e s = of (b.ack e s)
    where
      of :
          (r : Result (Unit {0}) × State)
          → continue (λ handled. pure go_on) (continue (λ _. pure true) r)
            ≡ continue (λ _. pure go_on) r
      of (ok u, t) = refl
      of (err x, t) = refl

  -- Where no stop was requested and the receivers of the event return, the body of the worker's
  -- loop acknowledges the event and goes on.
  pub work-acks :
      (e : EventEnvelope) (hs : List H) (s : State)
      → flag.stopped s ≡ false
      → get_receivers e.event_type registry ≡ ok hs
      → ((h : H) → invoke h e s ≡ (ok tt, s))
      → work flag invoke registry (broker p client c) e s ≡ acks p client c e s
  unfolding work broker
  work-acks e hs s running found fine =
      rw
        (
          running,
          dispatch-settle invoke e registry (broker p client c) found (returns-Runs e s fine hs),
        )
        (settle-acks (broker p client c) e s)
