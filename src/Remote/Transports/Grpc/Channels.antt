-- ===== src/Remote/Transports/Grpc/Channels.antt =====
-- The channels of `GRPCTransport`: one for a service, opened with its config, closed in the end.
use django_event_bus.Prelude.{
  ◌+◌, String, string_eq, List, [], ◌∷◌, true, false, ◌&&◌, Option, none, some, ◌≡◌, refl, sym, ap,
  subst, ◌∙◌, ◌⊎◌, inl, inr, arith, Bool-cases,
}
use django_event_bus.Prelude.Lists.{length}
use django_event_bus.Prelude.Dict.{Dict, get}
use django_event_bus.Exceptions.{Result, ok, err}
use django_event_bus.Exceptions.Pure.{ok-injective}
use django_event_bus.Exceptions.Exec.{continue, lift, ◌>>=◌}
use django_event_bus.Platform.{Platform}
use django_event_bus.Remote.Fields.{Reference}
use django_event_bus.Remote.Grpc.{ResourceResponse}
use django_event_bus.Remote.Grpc.Command.{is_none}
use django_event_bus.Remote.Transports.{
  is_connection_lost, decode_json-still, ServiceConfig, TransportSettings, registry_entry,
}
use django_event_bus.Remote.Transports.Grpc.{
  Channel, Call, Wire, channel_for, call_for, fetch_on, fetch_entry, fetch, close_channels, close,
}
use django_event_bus.Remote.Transports.Grpc.Opening.{Configured, Valid, Opened, channel_for-Opened}

credentials-given :
    (o : Option String) → is_none o ≡ false → (credentials : String) × (o ≡ some credentials)
credentials-given none h = absurd (ground arith)
credentials-given (some credentials) h = (credentials, refl)

module _ (settings : TransportSettings) where
  -- What a call of `fetch` did.
  pub record Fetched (r : Reference) (w v : Wire) : Type 0 where
    pub valid : Valid settings v
    pub asked :
        (v.calls ≡ w.calls)
        ⊎ ((g : Call) × (v.calls ≡ g ∷ w.calls)
            × Configured settings r.service g.channel
            × (settings.require_tls ≡ true → (c : String) × (g.channel.credentials ≡ some c)))
    pub reused : (channel : Channel) → get r.service w.channels ≡ some channel → v.opened ≡ w.opened

  module _ (p : Platform) (on_call : List Call → Result ResourceResponse) where
    fetch_on-still :
        (r : Reference) (c : ServiceConfig) (channel : Channel) (w : Wire)
        → (fetch_on p settings on_call r c channel w).1
          ≡ record w { calls = call_for p settings on_call r c channel ∷ w.calls }
    fetch_on-still r c channel w = of (on_call (g ∷ w.calls)) refl
      where
        g : Call
        g = call_for p settings on_call r c channel

        sent : Wire
        sent = record w { calls = g ∷ w.calls }

        of :
            (a : Result ResourceResponse)
            → on_call (g ∷ w.calls) ≡ a
            → (fetch_on p settings on_call r c channel w).1 ≡ sent
        of (err x) e = elim (Bool-cases (is_connection_lost x)) [
          | inl h ↦ rw (e, h) refl
          | inr h ↦ rw (e, h) refl
        ]
        of (ok response) e = elim (Bool-cases response.found) [
          | inl h ↦ rw (e, h) (decode_json-still p response.data_json sent)
          | inr h ↦ rw (e, h) refl
        ]

    fetched :
        (r : Reference) (c : ServiceConfig) (w : Wire) (q : Result Channel × Wire)
        → registry_entry settings.service_registry r.service "grpc" ≡ ok c
        → (settings.require_tls && is_none c.credentials) ≡ false
        → Opened settings r.service c w q
        → Fetched r w (continue (fetch_on p settings on_call r c) q).1
    fetched r c w (err x, v) entry passes opened = record {
      valid = opened.valid;
      asked = inl opened.same_calls;
      reused = opened.reused;
    }
    fetched r c w (ok channel, v) entry passes opened =
        let made = opened.made_for channel refl in
        let same_config = ok-injective (sym made.found ∙ entry) in
        let g = call_for p settings on_call r c channel in
        subst (λ x. Fetched r w x) (sym (fetch_on-still r c channel v))
          (record {
            valid = record { configured = opened.valid.configured; counted = opened.valid.counted };
            asked = inr (
              g,
              ap (λ l. g ∷ l) opened.same_calls,
              made,
              λ required_tls.
                  let (credentials, e) =
                    credentials-given c.credentials (ground (arith, passes, required_tls)) in
                  (
                    credentials,
                    ap (λ (x : Channel). x.credentials) made.made
                        ∙ ap (λ (x : ServiceConfig). x.credentials) same_config
                        ∙ e,
                  ),
            );
            reused = opened.reused;
          })

    fetch_entry-Fetched :
        (r : Reference) (c : ServiceConfig) (w : Wire)
        → registry_entry settings.service_registry r.service "grpc" ≡ ok c
        → Valid settings w
        → Fetched r w (fetch_entry p settings on_call r c w).1
    unfolding fetch_entry
    fetch_entry-Fetched r c w entry valid =
        elim (Bool-cases (settings.require_tls && is_none c.credentials)) [
          | inl refused ↦
              rw refused (record { valid = valid; asked = inl refl; reused = λ channel e. refl })
          | inr passes ↦ rw passes (
              fetched r c w (channel_for settings r.service c w) entry passes
                (channel_for-Opened settings r.service c w entry valid))
        ]

    -- Where every channel of the transport was opened with its service's config, and none was lost
    -- unclosed, the same holds after a call of `fetch`. It sends at most one request, on a channel
    -- of that service, with credentials where the settings require TLS; and a service that has a
    -- channel gets no other.
    pub fetch-Fetched :
        (r : Reference) (w : Wire) → Valid settings w → Fetched r w (fetch p settings on_call r w).1
    unfolding fetch
    fetch-Fetched r w valid = of (registry_entry settings.service_registry r.service "grpc") refl
      where
        of :
            (entry : Result ServiceConfig)
            → registry_entry settings.service_registry r.service "grpc" ≡ entry
            → Fetched r w ((lift entry >>= fetch_entry p settings on_call r) w).1
        of (err x) e = record { valid = valid; asked = inl refl; reused = λ channel e'. refl }
        of (ok c) e = fetch_entry-Fetched r c w e valid

  length-close_channels :
      (d : Dict String Channel) (closed : List Channel)
      → length (close_channels d closed) ≡ length closed + length d
  length-close_channels [] closed = omega arith
  length-close_channels ((service, channel) ∷ d) closed =
      omega (arith, length-close_channels d (channel ∷ closed))

  -- After `close` of such a transport, it has no channel, and as many were closed as opened.
  pub close-Valid :
      (w : Wire)
      → Valid settings w
      → Valid settings (close w).1 × (length (close w).1.closed ≡ length (close w).1.opened)
  unfolding close get
  close-Valid w valid =
      let all_closed = length-close_channels w.channels w.closed in
      (
        record {
          configured = λ service channel e. absurd (cc (e));
          counted = omega (arith, valid.counted, all_closed);
        },
        omega (arith, valid.counted, all_closed),
      )
