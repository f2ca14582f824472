-- ===== src/Brokers/Redis/Outages.antt =====
-- The loop of `_consume` when Redis cannot be reached, and the start of `listen`.
use django_event_bus.Prelude.{
  ℕ, zero, suc, String, List, [], ◌∷◌, map, true, ◌≡◌, refl, ◌⊎◌, inl, inr,
}
use django_event_bus.Exceptions.{ok, err, connection_lost, response_error}
use django_event_bus.Exceptions.Exec.{Exec, for_each}
use django_event_bus.Platform.{Platform, Key, format_key}
use django_event_bus.Envelope.{EventEnvelope}
use django_event_bus.Brokers.{Flow, go_on, for_flow}
use django_event_bus.Brokers.Redis.{
  Client, State, Call, xgroup_create, xautoclaim, xreadgroup, includes, stream_name,
}
use django_event_bus.Brokers.Redis.Options.{Config}
use django_event_bus.Brokers.Redis.Operations.{ensure_group, recover_missing_group}
use django_event_bus.Brokers.Redis.Consuming.{
  from_keys, claim_stream, read_new, consume_turn, consume, listen,
}

module _ (p : Platform) (client : Client) (c : Config) where
  module _ (body : EventEnvelope → Exec State Flow)
      (quiet_claim : (calls : List Call)
        → (client.on_xautoclaim calls ≡ err connection_lost) ⊎ (client.on_xautoclaim calls ≡ ok []))
      (quiet_read : (calls : List Call)
        → (client.on_xreadgroup calls ≡ err connection_lost)
          ⊎ (client.on_xreadgroup calls ≡ ok [])) where
    abbrev GoesOn : Exec State Flow → State → Type 0
    GoesOn m s = (calls : List Call) × (m s ≡ (ok go_on, record s { calls = calls }))

    claims_quiet :
        (streams : List String) (s : State)
        → GoesOn (for_flow (claim_stream p client c body) streams) s
    unfolding for_flow claim_stream
    claims_quiet [] s = (s.calls, refl)
    claims_quiet (stream ∷ streams) s =
        let claim = xautoclaim stream c.service_name c.consumer_name c.retry_idle_ms in
        let (calls, rest) = claims_quiet streams (record s { calls = claim ∷ s.calls }) in
        elim (quiet_claim (claim ∷ s.calls)) [
          | inl lost ↦ (calls, rw lost rest)
          | inr none_left ↦ (calls, rw none_left rest)
        ]

    turn_quiet :
        (streams : List String) (s : State) → GoesOn (consume_turn p client c body streams) s
    unfolding for_flow consume_turn read_new
    turn_quiet streams s =
        let (calls, claimed) = claims_quiet streams s in
        let read = xreadgroup c.service_name c.consumer_name (from_keys [] streams) c.block_ms in
        elim (quiet_read (read ∷ calls)) [
          | inl lost ↦ (read ∷ calls, rw (claimed, lost) refl)
          | inr none_new ↦ (read ∷ calls, rw (claimed, none_new) refl)
        ]

    -- While every reading call finds no message, or fails with a timeout or a lost connection, the
    -- loop goes on for any number of rounds: it raises nothing, gives its body nothing and forgets
    -- no pending message.
    pub consume_quiet :
        (rounds : ℕ) (streams : List String) (s : State)
        → (calls : List Call) × (consume p client c body rounds streams s
            ≡ (ok go_on, record s { calls = calls }))
    unfolding consume
    consume_quiet zero streams s = (s.calls, refl)
    consume_quiet (suc rounds) streams s =
        let (calls, turned) = turn_quiet streams s in
        let (later, rest) = consume_quiet rounds streams (record s { calls = calls }) in
        (later, rw turned rest)

  -- If the connection is lost while a missing group is created again, the loop ends with that
  -- error.
  pub consume_lost :
      (body : EventEnvelope → Exec State Flow) (rounds : ℕ) (stream : String)
      (streams : List String) (message : String) (s : State)
      → let claim = xautoclaim stream c.service_name c.consumer_name c.retry_idle_ms in
        let create = xgroup_create stream c.service_name "$" in
        client.on_xautoclaim (claim ∷ s.calls) ≡ err (response_error message)
        → includes message "NOGROUP" ≡ true
        → client.on_xgroup_create (create ∷ claim ∷ s.calls) ≡ err connection_lost
        → consume p client c body (suc rounds) (stream ∷ streams) s
          ≡ (err connection_lost, record s { calls = create ∷ claim ∷ s.calls })
  unfolding consume consume_turn for_flow claim_stream recover_missing_group ensure_group
  consume_lost body rounds stream streams message s missing named lost = rw (missing, named, lost)

  -- The calls that create the groups of the streams, on top of `calls`.
  abbrev pub creations : List String → List Call → List Call
  creations [] calls = calls
  creations (stream ∷ streams) calls =
      creations streams (xgroup_create stream c.service_name "0" ∷ calls)

  abbrev pub Exists : List Call → Type 0
  Exists calls =
      (client.on_xgroup_create calls ≡ ok tt)
      ⊎ ((message : String) × (client.on_xgroup_create calls ≡ err (response_error message))
          × (includes message "BUSYGROUP" ≡ true))

  ensure_groups :
      (exists : (calls : List Call) → Exists calls) (streams : List String) (s : State)
      → for_each (ensure_group p client c "0") streams s
        ≡ (ok tt, record s { calls = creations streams s.calls })
  unfolding for_each ensure_group
  ensure_groups exists [] s = refl
  ensure_groups exists (stream ∷ streams) s =
      let create = xgroup_create stream c.service_name "0" in
      let rest = ensure_groups exists streams (record s { calls = create ∷ s.calls }) in
      elim (exists (create ∷ s.calls)) [
        | inl made ↦ rw made rest
        | inr (message, busy, named) ↦ rw (busy, named) rest
      ]

  -- Where the server makes each group or says that it exists already, `listen` has asked for the
  -- group of every stream, from the stream's start, before the loop reads anything.
  pub listen_lem :
      (body : EventEnvelope → Exec State Flow) (rounds : ℕ) (types : List Key) (s : State)
      → ((calls : List Call) → Exists calls)
      → let streams = map (λ t. stream_name c (format_key p t)) types in
        listen p client c rounds types body s
        ≡ consume p client c body rounds streams (record s { calls = creations streams s.calls })
  unfolding listen
  listen_lem body rounds types s exists =
      let streams = map (λ t. stream_name c (format_key p t)) types in
      rw (ensure_groups exists streams s)
