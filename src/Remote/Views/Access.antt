-- ===== src/Remote/Views/Access.antt =====
-- What a response of the view tells of the access.
use django_event_bus.Prelude.{
  ℕ, String, string_eq, ◌∷◌, Bool, true, false, not, ◌||◌, Option, none, some, nat_beq, ◌≡◌, refl,
  ap, sym, ◌∙◌, arith, Bool-cases, ◌⊎◌, inl, inr,
}
use django_event_bus.Prelude.Dict.{get}
use django_event_bus.Exceptions.{Result, ok, err}
use django_event_bus.Exceptions.Pure.{ok-injective}
use django_event_bus.Exceptions.Exec.{lift, ◌>>◌, ◌>>=◌, >>=-eq-ok}
use django_event_bus.Platform.{Platform, Json}
use django_event_bus.Remote.Auth.{AuthResult}
use django_event_bus.Remote.RateLimit.{RateLimitConfig, resolve_rate_limit_config}
use django_event_bus.Remote.Views.{
  AccessEntry, Request, Response, Site, Service, log_access, detail, is_not_found, check_rate,
  entry, respond, on_instance, serve, authenticate, on_auth, on_rate, on_limit, resource_detail,
}

module _ {C R I : Type 0} (p : Platform) (service : Service C R I) (now : ℕ)
    (request : Request) where
  abbrev note : Bool → Option String → Option String → AccessEntry
  note = entry p service now request

  -- The class and the instance that a body shows.
  pub record Shows (o : Option R) (body : Json) : Type 0 where
    pub serializer : R
    pub exposed : o ≡ some serializer
    pub shown_instance : I
    pub found : service.get_instance serializer request.pk ≡ ok shown_instance
    pub shown : service.represent serializer shown_instance ≡ ok body

  abbrev Answer : Option R → Response → Type 0
  Answer o r = (r.status ≡ 404) ⊎ ((r.status ≡ 200) × Shows o r.body)

  serve_cases :
      (o : Option R) (s s' : Site C) (r : Response)
      → serve p service now request o s ≡ (ok r, s')
      → (s' ≡ s) × Answer o r
  unfolding serve
  serve_cases none s s' r h = (cc, inl (ground arith))
  serve_cases (some c) s s' r h = of (service.get_instance c request.pk) refl h
    where
      of :
          (found : Result I)
          → service.get_instance c request.pk ≡ found
          → on_instance p service now request c found s ≡ (ok r, s')
          → (s' ≡ s) × Answer (some c) r
      of (ok i) e k =
          let (body, t, shown, last) = >>=-eq-ok (lift (service.represent c i)) _ s k in
          let answer : ◌≡◌ {A = Response} (record { status = 200; body = body }) r =
            ok-injective (ap (λ q. q.0) last) in
          (
            sym (ap (λ q. q.1) last) ∙ sym (ap (λ q. q.1) shown),
            inr (
              ap (λ (a : Response). a.status) (sym answer),
              record {
                serializer = c;
                exposed = refl;
                shown_instance = i;
                found = e;
                shown = ap (λ q. q.0) shown ∙ ap (λ (a : Response). ok a.body) answer;
              },
            ),
          )
      of (err x) e k = elim (Bool-cases (is_not_found x)) [
        | inl caught ↦
            let same : ◌≡◌ {A = Result Response × Site C}
                (ok (record { status = 404; body = detail "not found" }), s) (ok r, s') =
              rw caught at k in
            (
              sym (ap (λ q. q.1) same),
              inl (ap (λ (a : Response). a.status) (sym (ok-injective (ap (λ q. q.0) same)))),
            )
        | inr escapes ↦
            let raised : ◌≡◌ {A = Result Response × Site C} (err x, s) (ok r, s') =
              rw escapes at k in
            absurd (cc (raised))
      ]

  -- What is known when the view answered with the status 200.
  pub record Disclosed (s s' : Site C) (body : Json) : Type 0 where
    pub checked : Site C
    pub within_rate : check_rate p service now request s ≡ (ok true, checked)
    pub decision : AuthResult
    pub asked : authenticate p service now request ≡ ok decision
    pub let_in : decision.granted ≡ true
    pub logged :
        s' ≡ record checked { access_log = note true decision.caller none ∷ checked.access_log }
    pub shows : Shows (get request.resource service.registry) body

  -- What is known when it answered at all.
  pub record Logged (s s' : Site C) (r : Response) : Type 0 where
    pub noted : AccessEntry
    pub one_entry : s'.access_log ≡ noted ∷ s.access_log
    pub tells : noted.granted ≡ not (nat_beq r.status 429 || nat_beq r.status 401)
    pub discloses : r.status ≡ 200 → Disclosed s s' r.body

  on_limit-log :
      (limit : Option RateLimitConfig) (s : Site C)
      → (on_limit p service now request limit s).1.access_log ≡ s.access_log
  on_limit-log none s = refl
  on_limit-log (some c) s = refl

  -- The rate limit writes no entry.
  check_rate-log : (s : Site C) → (check_rate p service now request s).1.access_log ≡ s.access_log
  unfolding check_rate
  check_rate-log s = of (resolve_rate_limit_config service.rate_limit)
    where
      of :
          (r : Result (Option RateLimitConfig))
          → ((lift r >>= on_limit p service now request) s).1.access_log ≡ s.access_log
      of (err x) = refl
      of (ok limit) = on_limit-log limit s

  refused :
      (s t s' : Site C) (noted : AccessEntry) (status : ℕ) (message : String) (r : Response)
      → t.access_log ≡ s.access_log
      → noted.granted ≡ false
      → (nat_beq status 429 || nat_beq status 401) ≡ true
      → (log_access noted >> respond p service now request status (detail message)) t ≡ (ok r, s')
      → Logged s s' r
  refused s t s' noted status message r kept closed code h =
      let answer : ◌≡◌ {A = Response} (record { status = status; body = detail message }) r =
        ok-injective (ap (λ q. q.0) h) in
      let same = ap (λ (a : Response). a.status) (sym answer) in
      record {
        noted = noted;
        one_entry =
            ap (λ (q : Result Response × Site C). q.1.access_log) (sym h)
            ∙ ap (λ l. noted ∷ l) kept;
        tells = closed ∙ rw (same, code) refl;
        discloses = λ found. absurd (ground (arith, same, code));
      }

  admitted :
      (s t s' : Site C) (decision : AuthResult) (r : Response)
      → t.access_log ≡ s.access_log
      → check_rate p service now request s ≡ (ok true, t)
      → authenticate p service now request ≡ ok decision
      → decision.granted ≡ true
      → (log_access (note true decision.caller none)
            >> serve p service now request (get request.resource service.registry))
          t
        ≡ (ok r, s')
      → Logged s s' r
  admitted s t s' decision r kept rated asked yes_granted h =
      let (same, answer) = serve_cases (get request.resource service.registry) _ s' r h in
      record {
        noted = note true decision.caller none;
        one_entry =
            ap (λ (u : Site C). u.access_log) same
            ∙ ap (λ l. note true decision.caller none ∷ l) kept;
        tells = elim answer [ inl missing ↦ rw missing refl | inr (found, shows) ↦ rw found refl ];
        discloses = λ found. record {
          checked = t;
          within_rate = rated;
          decision = decision;
          asked = asked;
          let_in = yes_granted;
          logged = same;
          shows = elim answer [ inl missing ↦ absurd (ground arith) | inr (_, shows) ↦ shows ];
        };
      }

  -- Whenever the view answers, it has written exactly one entry to the audit log, which says that
  -- access was granted unless the status is 429 or 401. It answers 200 only after the rate limit
  -- let the request pass and the active backend let the caller in, and only with what the
  -- serializer exposed under the name of the resource shows of the instance with that key.
  pub resource_detail-Logged :
      (s s' : Site C) (r : Response)
      → resource_detail p service now request s ≡ (ok r, s')
      → Logged s s' r
  unfolding resource_detail
  resource_detail-Logged s s' r h =
      let (passes, t, rated, rest) =
        >>=-eq-ok (check_rate p service now request) (on_rate p service now request) s h in
      of passes t rated rest
    where
      kept :
          (t : Site C) (passes : Bool)
          → check_rate p service now request s ≡ (ok passes, t)
          → t.access_log ≡ s.access_log
      kept t passes rated =
          ap (λ (q : Result Bool × Site C). q.1.access_log) (sym rated) ∙ check_rate-log s

      decided :
          (t : Site C) (decision : AuthResult)
          → check_rate p service now request s ≡ (ok true, t)
          → authenticate p service now request ≡ ok decision
          → on_auth p service now request decision t ≡ (ok r, s')
          → Logged s s' r
      decided t decision rated asked k = elim (Bool-cases decision.granted) [
        | inl granted ↦
            admitted s t s' decision r (kept t true rated) rated asked granted (rw granted at k)
        | inr denied ↦
            refused s t s' (note false none decision.reason) 401 "unauthorized" r
              (kept t true rated) refl refl (rw denied at k)
      ]

      of :
          (passes : Bool) (t : Site C)
          → check_rate p service now request s ≡ (ok passes, t)
          → on_rate p service now request passes t ≡ (ok r, s')
          → Logged s s' r
      of false t rated k =
          refused s t s' (note false none (some "rate limited")) 429 "rate limited" r
            (kept t false rated) refl refl k
      of true t rated k =
          let (decision, u, asked, k') =
            >>=-eq-ok (lift (authenticate p service now request)) (on_auth p service now request) t
              k in
          let still = ap (λ q. q.1) asked in
          decided t decision rated (ap (λ q. q.0) asked)
            (ap (on_auth p service now request decision) still ∙ k')
