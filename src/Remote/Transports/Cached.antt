-- ===== src/Remote/Transports/Cached.antt =====
-- The transports in use: one instance for a name until a reset.
use django_event_bus.Prelude.{String, string_eq, [], Option, none, some, ◌≡◌, refl, sym, ap, ◌∙◌}
use django_event_bus.Prelude.Dict.{get, get_or, get-put_self}
use django_event_bus.Exceptions.{ok}
use django_event_bus.Exceptions.Pure.{ok-injective}
use django_event_bus.Exceptions.Exec.{Exec, gets, ◌>>=◌, >>=-eq-ok}
use django_event_bus.Remote.Transports.{
  BaseTransport, Cache, TransportSettings, name_or_default, builtin_transports, in_world,
  keep_transport, on_cached, load_transport, close_all, reset_transports,
}

module _ {W : Type 0} (instantiate : String → Exec W (BaseTransport W))
    (settings : TransportSettings) (chosen : Option String) where
  abbrev name : String
  name = name_or_default settings.default_transport chosen

  -- Where the name has a transport, that one is returned.
  load_transport-cached :
      (s : Cache W) (t : BaseTransport W)
      → get name s.transports ≡ some t
      → load_transport instantiate settings chosen s ≡ (ok t, s)
  unfolding load_transport
  load_transport-cached s t h = rw h refl

  load_transport-keeps :
      (s s' : Cache W) (t : BaseTransport W)
      → load_transport instantiate settings chosen s ≡ (ok t, s')
      → get name s'.transports ≡ some t
  unfolding load_transport
  load_transport-keeps s s' t h = of (get name s.transports) refl h
    where
      of :
          (o : Option (BaseTransport W))
          → get name s.transports ≡ o
          → on_cached instantiate name o s ≡ (ok t, s')
          → get name s'.transports ≡ some t
      of (some u) e k =
          ap (λ q. get name q.1.transports) (sym k)
          ∙ e
          ∙ ap (λ r. some r) (ok-injective (ap (λ q. q.0) k))
      of none e k =
          let (u, v, made, kept) =
            >>=-eq-ok (in_world (instantiate (get_or name name builtin_transports)))
              (keep_transport name) s k in
          ap (λ q. get name q.1.transports) (sym kept)
          ∙ get-put_self name u v.transports
          ∙ ap (λ r. some r) (ok-injective (ap (λ q. q.0) kept))

  reset_transports-empty : (s u : Cache W) → reset_transports s ≡ (ok tt, u) → u.transports ≡ []
  unfolding reset_transports
  reset_transports-empty s u h =
      let (_, v, closed, emptied) =
        >>=-eq-ok (gets (λ x. x.transports) >>= λ transports. in_world (close_all transports)) _ s
          h in
      sym (ap (λ q. q.1.transports) emptied)

  -- After a call that loaded a transport, the next call for the same name returns that transport
  -- and instantiates nothing; after a reset that succeeded, it instantiates one anew.
  pub load_transport-again :
      (s s' : Cache W) (t : BaseTransport W)
      → load_transport instantiate settings chosen s ≡ (ok t, s')
      → (load_transport instantiate settings chosen s' ≡ (ok t, s'))
        × ((u : Cache W)
            → reset_transports s' ≡ (ok tt, u)
            → load_transport instantiate settings chosen u
              ≡ (in_world (instantiate (get_or name name builtin_transports))
                    >>= keep_transport name)
                  u)
  unfolding load_transport get
  load_transport-again s s' t h = (
    load_transport-cached s' t (load_transport-keeps s s' t h),
    λ u reset.
        ap (λ d. on_cached instantiate name (get name d) u) (reset_transports-empty s' u reset),
  )
