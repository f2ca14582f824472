-- ===== src/Remote/Grpc/Audit.antt =====
-- What an answered call tells of the access.
use django_event_bus.Prelude.{
  ℕ, string_eq, [], ◌∷◌, true, Option, none, some, some-injective, ◌≡◌, refl, sym, ap, ◌∙◌,
}
use django_event_bus.Exceptions.{ok}
use django_event_bus.Exceptions.Pure.{ok-injective}
use django_event_bus.Platform.{Platform, Json}
use django_event_bus.Remote.Auth.{AuthResult, BaseAuthBackend}
use django_event_bus.Remote.RateLimit.{Cache, RateLimitConfig, is_allowed}
use django_event_bus.Remote.Views.{Site, peer_key}
use django_event_bus.Remote.Grpc.{
  ResourceRequest, ResourceResponse, Context, Rpc, Behavior, ResourceResolver, get_resource,
  granted_entry, servicer_backend,
}
use django_event_bus.Remote.Grpc.Server.{
  ServeOptions, Pipeline, all_interceptors, effective_backend, answer_call,
}
use django_event_bus.Remote.Grpc.Chain.{
  authorization_of, behind_limit, behind_auth, answer_call-all_interceptors,
}
use django_event_bus.Remote.Grpc.Answers.{message, limited-ok, authorized-ok, get_resource-ok}

module _ {C : Type 0} (request : ResourceRequest) (context : Context) where
  -- What is known of a call that got an answer.
  pub record Audited (p : Platform) (cache : Cache C) (now : ℕ) (resolve : ResourceResolver)
      (o : ServeOptions C) (s t : Rpc C) (r : ResourceResponse) : Type 0 where
    pub decision : AuthResult
    pub within_rate :
        (config : RateLimitConfig)
        → o.rate_limit ≡ some config
        → (c : C) × (is_allowed p cache config now (peer_key (some context.peer)) s.site.cache
            ≡ (ok true, c))
    pub let_in :
        (backend : BaseAuthBackend)
        → effective_backend o ≡ some backend
        → (backend (authorization_of context) ≡ ok decision) × (decision.granted ≡ true)
    pub logged :
        t.site.access_log ≡ granted_entry request context decision.caller ∷ s.site.access_log
    pub found : Option Json
    pub resolved : resolve request.resource request.pk ≡ ok found
    pub answered : r ≡ message p found

  -- A server without further interceptors answers a call only after its rate limit, if it has one,
  -- let the call pass, and its backend, if it has one, let the caller in. It has then written one
  -- entry to the audit log, which grants access to that caller, and it answers what the resolver
  -- returned for the resource and the key.
  pub answer_call-Audited :
      (p : Platform) (cache : Cache C) (now : ℕ) (pipeline : Pipeline C)
      (resolve : ResourceResolver) (o : ServeOptions C) (s t : Rpc C) (r : ResourceResponse)
      → o.interceptors ≡ []
      → answer_call pipeline
          (all_interceptors p cache now o)
          (get_resource p resolve (effective_backend o))
          request
          context
          s
        ≡ (ok r, t)
      → Audited p cache now resolve o s t r
  answer_call-Audited p cache now pipeline resolve o s t r plain h = of o.rate_limit refl (
      ap (λ f. f s)
        (sym (
          answer_call-all_interceptors p cache now pipeline
            (get_resource p resolve (effective_backend o)) o request context plain))
      ∙ h)
    where
      servicer : Behavior C
      servicer = get_resource p resolve (effective_backend o)

      Rated : Type 0
      Rated =
          (config : RateLimitConfig)
          → o.rate_limit ≡ some config
          → (c : C) × (is_allowed p cache config now (peer_key (some context.peer)) s.site.cache
              ≡ (ok true, c))

      LetIn : AuthResult → Type 0
      LetIn a =
          (backend : BaseAuthBackend)
          → effective_backend o ≡ some backend
          → (backend (authorization_of context) ≡ ok a) × (a.granted ≡ true)

      finished :
          (u : Rpc C)
          → u.site.access_log ≡ s.site.access_log
          → Rated
          → ((a : AuthResult)
              → servicer_backend (effective_backend o) (authorization_of context) ≡ ok a
              → LetIn a)
          → servicer request context u ≡ (ok r, t)
          → Audited p cache now resolve o s t r
      finished u same rated let_in k =
          let (a, found, asked, resolved, answered, site) =
            get_resource-ok request context p resolve (effective_backend o) u t r k in
          record {
            decision = a;
            within_rate = rated;
            let_in = let_in a asked;
            logged =
                ap (λ (x : Site C). x.access_log) site
                ∙ ap (λ l. granted_entry request context a.caller ∷ l) same;
            found = found;
            resolved = resolved;
            answered = answered;
          }

      behind :
          (u : Rpc C)
          → u.site.access_log ≡ s.site.access_log
          → Rated
          → (b : Option BaseAuthBackend) → effective_backend o ≡ b
          → behind_auth p cache now (authorization_of context) b servicer request context u
            ≡ (ok r, t)
          → Audited p cache now resolve o s t r
      behind u same rated none e k =
          finished u same rated (λ a asked backend e'. absurd (cc (e, e'))) k
      behind u same rated (some b) e k =
          let (a', asked', granted, rest) =
            authorized-ok request context b (authorization_of context) servicer u t r k in
          finished u same rated
            (λ a asked backend e'.
              let one = ap (λ x. servicer_backend x (authorization_of context)) e in
              let other_one = ap (λ x. servicer_backend x (authorization_of context)) e' in
              (
                sym other_one ∙ asked,
                ap (λ (x : AuthResult). x.granted) (ok-injective (sym asked ∙ one ∙ asked'))
                    ∙ granted,
              ))
            rest

      of :
          (l : Option RateLimitConfig)
          → o.rate_limit ≡ l
          → behind_limit p cache now l
              (behind_auth p cache now (authorization_of context) (effective_backend o) servicer)
              request
              context
              s
            ≡ (ok r, t)
          → Audited p cache now resolve o s t r
      of none e k = behind s refl (λ config e'. absurd (cc (e, e'))) (effective_backend o) refl k
      of (some config) e k =
          let (c, allowed, rest) =
            limited-ok request context p cache config now
              (behind_auth p cache now (authorization_of context) (effective_backend o) servicer) s
              t r k in
          behind (record s { site = record s.site { cache = c } }) refl
            (λ config' e'. (
              c,
              ap (λ x. is_allowed p cache x now (peer_key (some context.peer)) s.site.cache)
                    (some-injective (sym e' ∙ e))
                  ∙ allowed,
            ))
            (effective_backend o) refl rest
