-- ===== src/Remote/Transports/Grpc/Opening.antt =====
-- How the channels of `GRPCTransport` are opened: one for a service, with its config.
use django_event_bus.Prelude.{
  ◌+◌, String, string_eq, ◌∷◌, Option, none, some, some-injective, ◌≡◌, refl, sym, ap, subst, ◌∙◌,
  inl, inr, arith, Bool-cases, ◌==◌, ==_iff,
}
use django_event_bus.Prelude.Lists.{length}
use django_event_bus.Prelude.Dict.{get, put, get-put, length-put}
use django_event_bus.Exceptions.{Result, ok}
use django_event_bus.Exceptions.Pure.{ok-injective}
use django_event_bus.Remote.Transports.{ServiceConfig, TransportSettings, registry_entry}
use django_event_bus.Remote.Transports.Grpc.{Channel, Wire, new_channel, on_channel, channel_for}

module _ (settings : TransportSettings) where
  -- A channel that the service's config stands for.
  pub record Configured (service : String) (channel : Channel) : Type 0 where
    pub config : ServiceConfig
    pub found : registry_entry settings.service_registry service "grpc" ≡ ok config
    pub address : String
    pub has_target : config.target ≡ some address
    pub made : channel ≡ new_channel settings config address

  pub record Valid (w : Wire) : Type 0 where
    pub configured :
        (service : String) (channel : Channel)
        → get service w.channels ≡ some channel
        → Configured service channel
    pub counted : length w.opened ≡ length w.closed + length w.channels

  -- What `_channel` did.
  pub record Opened (service : String) (c : ServiceConfig) (w : Wire) (q : Result Channel × Wire)
      : Type 0 where
    pub valid : Valid q.1
    pub same_calls : q.1.calls ≡ w.calls
    pub made_for : (channel : Channel) → q.0 ≡ ok channel → Configured service channel
    pub reused : (channel : Channel) → get service w.channels ≡ some channel → q.1.opened ≡ w.opened

  put-Valid :
      (service : String) (channel : Channel) (w : Wire)
      → Configured service channel
      → get service w.channels ≡ none
      → Valid w
      → Valid (record w { channels = put service channel w.channels; opened = channel ∷ w.opened })
  put-Valid service channel w made absent valid = record {
    configured = λ service' channel' h.
        let now = sym (get-put service service' channel w.channels) ∙ h in
        elim (Bool-cases (service == service')) [
          | inr other ↦ valid.configured service' channel' (rw other at now)
          | inl same ↦
              let same_channel : some channel ≡ some channel' = rw same at now in
              subst (λ s. Configured s channel') ((==_iff service service').0 same)
                (subst (λ x. Configured service x) (some-injective same_channel) made)
        ];
    counted = omega (arith, valid.counted, length-put service channel w.channels absent);
  }

  pub channel_for-Opened :
      (service : String) (c : ServiceConfig) (w : Wire)
      → registry_entry settings.service_registry service "grpc" ≡ ok c
      → Valid w
      → Opened service c w (channel_for settings service c w)
  unfolding channel_for
  channel_for-Opened service c w entry valid = of (get service w.channels) refl
    where
      fresh :
          (t : Option String)
          → c.target ≡ t
          → get service w.channels ≡ none
          → Opened service c w (on_channel settings service c none w)
      fresh none e absent = rw e (record {
        valid = valid;
        same_calls = refl;
        made_for = λ channel bad. absurd (cc (bad));
        reused = λ channel e'. refl;
      })
      fresh (some target) e absent =
          let made : Configured service (new_channel settings c target) = record {
            config = c;
            found = entry;
            address = target;
            has_target = e;
            made = refl;
          } in
          rw e (record {
            valid = put-Valid service (new_channel settings c target) w made absent valid;
            same_calls = refl;
            made_for = λ channel same. subst (λ x. Configured service x) (ok-injective same) made;
            reused = λ channel e'. absurd (cc (absent, e'));
          })

      of :
          (o : Option Channel)
          → get service w.channels ≡ o
          → Opened service c w (on_channel settings service c o w)
      of none e = fresh c.target refl e
      of (some channel) e = record {
        valid = valid;
        same_calls = refl;
        made_for = λ channel' same.
            valid.configured service channel' (e ∙ ap (λ x. some x) (ok-injective same));
        reused = λ channel' e'. refl;
      }
