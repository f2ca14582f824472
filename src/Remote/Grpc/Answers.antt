-- ===== src/Remote/Grpc/Answers.antt =====
-- What the checks and the servicer did when they answered a call.
use django_event_bus.Prelude.{
  ℕ, String, string_eq, [], ◌∷◌, Bool, true, false, Option, none, some, ◌≡◌, refl, sym, ap, ◌∙◌,
  Bool-cases, inl, inr,
}
use django_event_bus.Exceptions.{Result, ok, err, other}
use django_event_bus.Exceptions.Pure.{ok-injective}
use django_event_bus.Exceptions.Exec.{lift, >>=-eq-ok}
use django_event_bus.Platform.{Platform, Json}
use django_event_bus.Remote.Auth.{AuthResult, BaseAuthBackend}
use django_event_bus.Remote.RateLimit.{Cache, RateLimitConfig, is_allowed}
use django_event_bus.Remote.Views.{peer_key}
use django_event_bus.Remote.Grpc.{
  ResourceRequest, ResourceResponse, Context, Rpc, Behavior, ResourceResolver, get_resource,
  limited, authorized, respond_with, granted_entry, servicer_backend,
}
use django_event_bus.Remote.Grpc.Chain.{authorization_of}

-- The message for what the resolver returned.
abbrev pub message : Platform → Option Json → ResourceResponse
message p none = record { found = false; data_json = [] }
message p (some d) = record { found = true; data_json = p.json_dumps d }

respond_with_lem :
    {C : Type 0} (p : Platform) (resolve : ResourceResolver) (b : Option BaseAuthBackend)
    (found : Option Json) (s : Rpc C)
    → respond_with p resolve b found s ≡ (ok (message p found), s)
respond_with_lem p resolve b none s = refl
respond_with_lem p resolve b (some d) s = refl

module _ {C : Type 0} (request : ResourceRequest) (context : Context) where
  pub limited-ok :
      (p : Platform) (cache : Cache C) (config : RateLimitConfig) (now : ℕ) (original : Behavior C)
      (s t : Rpc C) (r : ResourceResponse)
      → limited p cache config now original request context s ≡ (ok r, t)
      → (c : C) × (is_allowed p cache config now (peer_key (some context.peer)) s.site.cache
          ≡ (ok true, c))
        × (original request context (record s { site = record s.site { cache = c } }) ≡ (ok r, t))
  unfolding limited
  limited-ok p cache config now original s t r h = of _ refl h
    where
      of :
          (m : Result Bool × C)
          → is_allowed p cache config now (peer_key (some context.peer)) s.site.cache ≡ m
          → limited p cache config now original request context s ≡ (ok r, t)
          → (c : C) × (is_allowed p cache config now (peer_key (some context.peer)) s.site.cache
              ≡ (ok true, c))
            × (original request context (record s { site = record s.site { cache = c } })
                ≡ (ok r, t))
      of (ok true, c) e k = (c, e, rw e at k)
      of (ok false, c) e k =
          let bad : ◌≡◌ {A = Result ResourceResponse} (err (other 0)) (ok r) =
            ap (λ q. q.0) (rw e at k) in
          absurd (cc (bad))
      of (err x, c) e k =
          let bad : ◌≡◌ {A = Result ResourceResponse} (err x) (ok r) = ap (λ q. q.0) (rw e at k) in
          absurd (cc (bad))

  pub authorized-ok :
      (backend : BaseAuthBackend) (authorization : Option String) (original : Behavior C)
      (s t : Rpc C) (r : ResourceResponse)
      → authorized backend authorization original request context s ≡ (ok r, t)
      → (a : AuthResult) × (backend authorization ≡ ok a)
        × (a.granted ≡ true)
        × (original request context s ≡ (ok r, t))
  unfolding authorized
  authorized-ok backend authorization original s t r h =
      let (a, u, asked, rest) = >>=-eq-ok (lift (backend authorization)) _ s h in
      elim (Bool-cases a.granted) [
        | inl granted ↦ (
          a,
          ap (λ q. q.0) asked,
          granted,
          ap (original request context) (ap (λ q. q.1) asked) ∙ (rw granted at rest),
        )
        | inr refused ↦
            let bad : ◌≡◌ {A = Result ResourceResponse} (err (other 0)) (ok r) =
              ap (λ q. q.0) (rw refused at rest) in
            absurd (cc (bad))
      ]

  pub get_resource-ok :
      (p : Platform) (resolve : ResourceResolver) (b : Option BaseAuthBackend) (s t : Rpc C)
      (r : ResourceResponse)
      → get_resource p resolve b request context s ≡ (ok r, t)
      → (a : AuthResult) × (found : Option Json) × (servicer_backend b (authorization_of context)
          ≡ ok a)
        × (resolve request.resource request.pk ≡ ok found)
        × (r ≡ message p found)
        × (t.site ≡ record s.site {
          access_log = granted_entry request context a.caller ∷ s.site.access_log;
        })
  unfolding get_resource
  get_resource-ok p resolve b s t r h =
      let (a, u, asked, rest) =
        >>=-eq-ok (lift (servicer_backend b (authorization_of context))) _ s h in
      let logged = record u {
        site = record u.site {
          access_log = granted_entry request context a.caller ∷ u.site.access_log;
        };
      } in
      let (found, v, resolved, last) =
        >>=-eq-ok (lift (resolve request.resource request.pk)) _ logged rest in
      let answer = sym (respond_with_lem p resolve b found v) ∙ last in
      (
        a,
        found,
        ap (λ q. q.0) asked,
        ap (λ q. q.0) resolved,
        sym (ok-injective (ap (λ q. q.0) answer)),
        sym (ap (λ q. q.1.site) answer)
            ∙ sym (ap (λ q. q.1.site) resolved)
            ∙ sym (
                ap
                  (λ q. record q.1.site {
                    access_log = granted_entry request context a.caller ∷ q.1.site.access_log;
                  })
                  asked),
      )
