-- ===== src/Remote/Transports/Http/Fetching.antt =====
-- What `HTTPTransport.fetch` sends, and what it leaves open.
use text.Mathlib.Text.{starts_with}
use text.Mathlib.TextEquality.{starts_with_iff}
use text.Mathlib.TextLemmas.{append_assoc}
use django_event_bus.Prelude.{
  ℕ, ◌+◌, ◌<>◌, String, string_eq, List, ◌∷◌, true, false, not, ◌&&◌, Option, none, some, ◌≡◌, refl,
  sym, ap, subst, ◌∙◌, ◌⊎◌, inl, inr, nat_beq, arith, Bool-cases,
}
use django_event_bus.Exceptions.{Error, Result, ok, err}
use django_event_bus.Exceptions.Exec.{lift, try_finally, ◌>>=◌}
use django_event_bus.Platform.{Platform, Bytes, format}
use django_event_bus.Remote.Fields.{Reference}
use django_event_bus.Remote.Transports.{
  is_connection_lost, decode_json-still, ServiceConfig, TransportSettings, or_default, required,
  registry_entry,
}
use django_event_bus.Remote.Transports.Http.{
  read_body, HttpGet, HttpResponse, Wire, send_get, read_response, decode_body, get_request,
  fetch_url, fetch_base, fetch, close_response, rstrip_slash,
}

starts_with-append : (s t u : String) → starts_with s t ≡ true → starts_with (s <> u) t ≡ true
starts_with-append s t u h =
    let (rest, e) = (starts_with_iff s t).0 h in
    (starts_with_iff (s <> u) t).1 (rest <> u, sym (append_assoc t rest u) ∙ ap (λ v. v <> u) e)

module _ (p : Platform) (settings : TransportSettings)
    (on_get : List HttpGet → Result HttpResponse) where
  -- What the wire is left with: the responses that were opened since were closed.
  abbrev Balanced : Wire → Wire → Type 0
  Balanced w v = (n : ℕ) × (v.opened ≡ w.opened + n) × (v.closed ≡ w.closed + n)

  decode_body-still : (o : Option Bytes) (w : Wire) → (decode_body p settings on_get o w).1 ≡ w
  decode_body-still none w = refl
  decode_body-still (some body) w = decode_json-still p body w

  -- Behind the response: it is closed, whatever its body was.
  read-Balanced :
      (r : Result (Option Bytes)) (w : Wire)
      → ((try_finally (lift r) (close_response p settings on_get) >>= decode_body p settings on_get)
          w).1
        ≡ record w { closed = w.closed + 1 }
  read-Balanced (err x) w = refl
  read-Balanced (ok o) w = decode_body-still o (record w { closed = w.closed + 1 })

  fetch_url-Balanced :
      (c : ServiceConfig) (g : HttpGet) (w : Wire)
      → Balanced w (fetch_url p settings on_get c g w).1
        × ((fetch_url p settings on_get c g w).1.sent ≡ g ∷ w.sent)
  unfolding send_get
  fetch_url-Balanced c g w = of (on_get (g ∷ w.sent)) refl
    where
      ends : Wire → Type 0
      ends v = Balanced w v × (v.sent ≡ g ∷ w.sent)

      of :
          (r : Result HttpResponse)
          → on_get (g ∷ w.sent) ≡ r
          → ends (fetch_url p settings on_get c g w).1
      of (ok response) e = rw e (
          subst ends (sym (read-Balanced (read_response p settings on_get c response) _))
            ((1, refl, refl), refl))
      of (err x) e = elim (Bool-cases (is_connection_lost x)) [
        | inl h ↦ rw (e, h) ((0, omega arith, omega arith), refl)
        | inr h ↦ rw (e, h) ((0, omega arith, omega arith), refl)
      ]

  -- What a call of `fetch` did to the wire.
  pub record Sent (w v : Wire) : Type 0 where
    pub balanced : Balanced w v
    pub asked :
        (v.sent ≡ w.sent)
        ⊎ ((g : HttpGet) × (v.sent ≡ g ∷ w.sent)
            × (settings.require_tls ≡ true → starts_with g.url "https://" ≡ true))

  nothing_sent : (w v : Wire) → v ≡ w → Sent w v
  nothing_sent w v e = record {
    balanced = (0, ground (arith, e), ground (arith, e));
    asked = inl (ap (λ (x : Wire). x.sent) e);
  }

  get_request-encrypted :
      (r : Reference) (c : ServiceConfig) (base : String)
      → starts_with base "https://" ≡ true
      → starts_with (get_request p settings on_get r c base).url "https://" ≡ true
  unfolding get_request
  get_request-encrypted r c base h =
      starts_with-append base "https://" ("/" <> r.resource <> "/" <> format p r.pk <> "/") h

  fetch_base-Sent :
      (r : Reference) (c : ServiceConfig) (base : String) (w : Wire)
      → Sent w (fetch_base p settings on_get r c base w).1
  unfolding fetch_base
  fetch_base-Sent r c base w =
      elim (Bool-cases (settings.require_tls && not (starts_with base "https://"))) [
        | inl refused ↦ rw refused (nothing_sent w w refl)
        | inr passes ↦
            let (balanced, sent) =
              fetch_url-Balanced c (get_request p settings on_get r c base) w in
            rw passes (record {
              balanced = balanced;
              asked = inr (
                get_request p settings on_get r c base,
                sent,
                λ required_tls.
                    get_request-encrypted r c base (ground (arith, passes, required_tls)),
              );
            })
      ]

  -- Whatever `fetch` returns or raises, it has sent at most one request, and every response that
  -- it got is closed; where the settings require TLS, the request goes to an `https://` URL.
  pub fetch-Sent : (r : Reference) (w : Wire) → Sent w (fetch p settings on_get r w).1
  unfolding fetch
  fetch-Sent r w = of (registry_entry settings.service_registry r.service "http")
    where
      located :
          (c : ServiceConfig) (base : Result String)
          → Sent w ((lift base >>= λ url. fetch_base p settings on_get r c (rstrip_slash url)) w).1
      located c (err x) = nothing_sent w w refl
      located c (ok url) = fetch_base-Sent r c (rstrip_slash url) w

      of :
          (entry : Result ServiceConfig)
          → Sent w
              ((lift entry >>= λ c. lift (required c.base_url) >>= λ url.
                  fetch_base p settings on_get r c (rstrip_slash url))
                w).1
      of (err x) = nothing_sent w w refl
      of (ok c) = located c (required c.base_url)

  -- The body breaks off: `requests` raises while `iter_content` gives the blocks, outside of the
  -- `try` that turns its exceptions into "service unavailable", so the exception itself leaves
  -- `fetch`.
  pub fetch_url-broken :
      (c : ServiceConfig) (g : HttpGet) (w : Wire) (response : HttpResponse) (x : Error)
      → on_get (g ∷ w.sent) ≡ ok response
      → nat_beq response.status_code 404 ≡ false
      → response.is_ok ≡ true
      → read_body response.content (or_default settings.max_response_bytes c.max_response_bytes)
        ≡ err x
      → (fetch_url p settings on_get c g w).0 ≡ err x
  unfolding send_get read_response
  fetch_url-broken c g w response x e found fine broke = rw e (rw (found, fine, broke) refl)
