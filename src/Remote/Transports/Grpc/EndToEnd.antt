-- ===== src/Remote/Transports/Grpc/EndToEnd.antt =====
-- The transport of one service against the server of another.
use django_event_bus.Prelude.{
  ℕ, String, string_eq, ◌<>◌, List, [], ◌∷◌, Bool, true, false, ◌&&◌, if◌then◌else◌, Option, none,
  some, some-injective, ◌≡◌, refl, sym, ap, subst, ◌∙◌, ==_refl,
}
use django_event_bus.Prelude.Dict.{get, put}
use django_event_bus.Exceptions.{Result, ok, err, connection_lost, service_unavailable}
use django_event_bus.Exceptions.Pure.{ok-injective}
use django_event_bus.Exceptions.Exec.{continue, handle_result, lift, ◌>>=◌}
use django_event_bus.Platform.{Platform, Json, format}
use django_event_bus.Remote.Auth.{
  allow, bearer_prefix, is_ascii, is_set, compare_digest, static_token,
}
use django_event_bus.Remote.RateLimit.{Cache}
use django_event_bus.Remote.Views.{Site}
use django_event_bus.Remote.Fields.{Reference}
use django_event_bus.Remote.Grpc.{
  ResourceRequest, ResourceResponse, Context, Rpc, ResourceResolver, metadata_dict, put_all,
  get_resource, respond_with, authorized,
}
use django_event_bus.Remote.Grpc.Server.{
  ServeOptions, Pipeline, all_interceptors, effective_backend, answer_call,
}
use django_event_bus.Remote.Grpc.Command.{is_none}
use django_event_bus.Remote.Grpc.Chain.{authorization_of, behind_auth, answer_call-all_interceptors}
use django_event_bus.Remote.Grpc.Answers.{message}
use django_event_bus.Remote.Transports.{
  is_connection_lost, unavailable_if, ServiceConfig, TransportSettings, required, registry_entry,
  none_if_null,
}
use django_event_bus.Remote.Transports.Grpc.Opening.{Valid}
use django_event_bus.Remote.Transports.Grpc.{
  Channel, Call, Wire, call_metadata, new_channel, open_channel, on_channel, channel_for, call_for,
  decode_response, fetch_on, fetch_entry, fetch,
}

-- What the library hands the client: an exception of the server comes as an `RpcError`.
abbrev pub as_rpc : Result ResourceResponse → Result ResourceResponse
as_rpc (ok r) = ok r
as_rpc (err x) = err connection_lost

-- What `fetch` makes of what the other side's resolver returned or raised; a JSON null is None.
abbrev pub delivered : Result (Option Json) → Result (Option Json)
delivered (ok none) = ok none
delivered (ok (some d)) = ok (none_if_null d)
delivered (err x) = err service_unavailable

-- The shared token lets in who sends it.
static_token-same :
    (token : String)
    → is_ascii (bearer_prefix <> token) ≡ true
    → static_token token (some (bearer_prefix <> token)) ≡ ok (allow (some "shared-token"))
unfolding static_token compare_digest
static_token-same token h = rw (h, ==_refl (bearer_prefix <> token)) refl

module _ {C : Type 0} (p : Platform) (cache : Cache C) (now : ℕ) (pipeline : Pipeline C)
    (resolve : ResourceResolver) (peer : String) (site : Site C) (o : ServeOptions C)
    (reaches : String → Option String → Bool) where
  abbrev answer : Call → Result ResourceResponse
  answer g =
      as_rpc
        (answer_call pipeline (all_interceptors p cache now o)
          (get_resource p resolve (effective_backend o)) g.request
          (record { peer = peer; metadata = g.metadata })
          (record { site = site; aborted = none })).0

  -- The answers to the latest call: those of the server, if the call was made on a channel whose
  -- target and credentials `reaches` accepts; any other call is lost.
  abbrev pub answers_of : List Call → Result ResourceResponse
  answers_of [] = err connection_lost
  answers_of (g ∷ earlier) =
      if reaches g.channel.target g.channel.credentials then answer g else err connection_lost

module _ {C : Type 0} (p : Platform) (cache : Cache C) (now : ℕ) (pipeline : Pipeline C)
    (resolve : ResourceResolver) (peer : String) (site : Site C) (o : ServeOptions C)
    (token : String) (plain : is_ascii (bearer_prefix <> token) ≡ true)
    (given : is_set (some token) ≡ true) (reaches : String → Option String → Bool) where
  abbrev server : ServeOptions C
  server = record o {
    auth_token = some token;
    auth_backend = none;
    rate_limit = none;
    interceptors = [];
  }

  abbrev caller_context : Context
  caller_context = record {
    peer = peer;
    metadata = some (("authorization", bearer_prefix <> token) ∷ []);
  }

  effective_backend-server : effective_backend server ≡ some (static_token token)
  unfolding effective_backend
  effective_backend-server = rw given refl

  authorization_of-caller : authorization_of caller_context ≡ some (bearer_prefix <> token)
  unfolding metadata_dict put_all put get
  authorization_of-caller = refl

  abbrev respond_to : Result (Option Json) → Result ResourceResponse
  respond_to (ok found) = ok (message p found)
  respond_to (err x) = err x

  get_resource-answers :
      (request : ResourceRequest) (s : Rpc C)
      → (get_resource p resolve (some (static_token token)) request caller_context s).0
        ≡ respond_to (resolve request.resource request.pk)
  unfolding get_resource metadata_dict put_all put get
  get_resource-answers request s =
      rw (static_token-same token plain) (of (resolve request.resource request.pk) _)
    where
      of :
          (q : Result (Option Json)) (u : Rpc C)
          → ((lift q >>= respond_with p resolve (some (static_token token))) u).0 ≡ respond_to q
      of (ok none) u = refl
      of (ok (some d)) u = refl
      of (err x) u = refl

  answer_call-server :
      (request : ResourceRequest) (s : Rpc C)
      → (answer_call pipeline
          (all_interceptors p cache now server)
          (get_resource p resolve (effective_backend server))
          request
          caller_context
          s).0
        ≡ respond_to (resolve request.resource request.pk)
  unfolding authorized
  answer_call-server request s =
      ap (λ f. (f s).0)
        (answer_call-all_interceptors p cache now pipeline
          (get_resource p resolve (effective_backend server)) server request caller_context refl)
      ∙ ap
          (λ b.
            (behind_auth p cache now (authorization_of caller_context) b (get_resource p resolve b)
              request caller_context s).0)
          effective_backend-server
      ∙ rw (authorization_of-caller, static_token-same token plain) (get_resource-answers request s)

  module _ (settings : TransportSettings) where
    abbrev answers : List Call → Result ResourceResponse
    answers = answers_of p cache now pipeline resolve peer site server reaches

    call_metadata-token :
        (c : ServiceConfig)
        → c.auth_token ≡ some token
        → call_metadata settings c ≡ some (("authorization", bearer_prefix <> token) ∷ [])
    unfolding call_metadata
    call_metadata-token c holds = rw (holds, given) refl

    answers-call :
        (g : Call) (earlier : List Call)
        → g.metadata ≡ some (("authorization", bearer_prefix <> token) ∷ [])
        → reaches g.channel.target g.channel.credentials ≡ true
        → answers (g ∷ earlier) ≡ as_rpc (respond_to (resolve g.request.resource g.request.pk))
    answers-call g earlier e arrives =
        let s : Rpc C = record { site = site; aborted = none } in
        ap
          (λ b.
            if b
            then answer p cache now pipeline resolve peer site server reaches g
            else err connection_lost)
          arrives
        ∙ ap
            (λ m.
              as_rpc
                (answer_call pipeline (all_interceptors p cache now server)
                  (get_resource p resolve (effective_backend server)) g.request
                  (record { peer = peer; metadata = m }) s).0)
            e
        ∙ ap as_rpc (answer_call-server g.request s)

    -- JSON decodes what it encoded of the value.
    abbrev pub Decodes : Result (Option Json) → Type 0
    Decodes q = (d : Json) → q ≡ ok (some d) → p.json_loads (p.json_dumps d) ≡ ok d

    decoded :
        (q : Result (Option Json)) (u : Wire)
        → Decodes q
        → (continue
            (decode_response p settings answers)
            (handle_result (unavailable_if is_connection_lost) (as_rpc (respond_to q), u))).0
          ≡ delivered q
    decoded (ok none) u back = refl
    decoded (ok (some d)) u back = rw (back d refl) refl
    decoded (err x) u back = refl

    fetch_on-delivered :
        (r : Reference) (c : ServiceConfig) (channel : Channel) (w : Wire)
        → c.auth_token ≡ some token
        → reaches channel.target channel.credentials ≡ true
        → Decodes (resolve r.resource (format p r.pk))
        → (fetch_on p settings answers r c channel w).0
          ≡ delivered (resolve r.resource (format p r.pk))
    fetch_on-delivered r c channel w holds arrives back =
        let g = call_for p settings answers r c channel in
        ap
          (λ a.
            (continue (decode_response p settings answers) (
              handle_result (unavailable_if is_connection_lost)
                (a, record w { calls = g ∷ w.calls }))).0)
          (answers-call g w.calls (call_metadata-token c holds) arrives)
        ∙ decoded (resolve r.resource (format p r.pk)) (record w { calls = g ∷ w.calls }) back

    -- A server that is set up with a shared token, not empty and all ASCII, with no rate limit and no
    -- further interceptor; a service whose config for it holds that token, a target and
    -- credentials that reach the server, and credentials where the settings require TLS; and a
    -- transport whose channels were opened with the config of their services. Where the network
    -- loses no call that reaches the server, and JSON decodes what it encoded, `fetch` returns what
    -- the server's resolver returned for the resource and the key, None included, and raises
    -- "service unavailable" where the resolver raised.
    pub fetch-delivered :
        (r : Reference) (c : ServiceConfig) (target : String) (w : Wire)
        → registry_entry settings.service_registry r.service "grpc" ≡ ok c
        → c.auth_token ≡ some token
        → c.target ≡ some target
        → reaches target c.credentials ≡ true
        → (settings.require_tls && is_none c.credentials) ≡ false
        → Valid settings w
        → Decodes (resolve r.resource (format p r.pk))
        → (fetch p settings answers r w).0 ≡ delivered (resolve r.resource (format p r.pk))
    unfolding fetch fetch_entry channel_for
    fetch-delivered r c target w entry holds located arrives passes valid back =
        rw (entry, passes) (of (get r.service w.channels) refl)
      where
        of :
            (o : Option Channel)
            → get r.service w.channels ≡ o
            → ((on_channel settings r.service c o >>= fetch_on p settings answers r c) w).0
              ≡ delivered (resolve r.resource (format p r.pk))
        of none e =
            subst
              (λ t.
                (((lift t >>= λ a. open_channel settings r.service (new_channel settings c a))
                    >>= fetch_on p settings answers r c)
                  w).0
                ≡ delivered (resolve r.resource (format p r.pk)))
              (sym (ap required located)) (fetch_on-delivered r c _ _ holds arrives back)
        of (some channel) e =
            let made = valid.configured r.service channel e in
            let same = ok-injective (sym made.found ∙ entry) in
            let address : made.address ≡ target =
              some-injective
                (sym made.has_target ∙ ap (λ (x : ServiceConfig). x.target) same ∙ located) in
            let same_target : channel.target ≡ target =
              ap (λ (x : Channel). x.target) made.made ∙ address in
            let same_credentials : channel.credentials ≡ c.credentials =
              ap (λ (x : Channel). x.credentials) made.made
              ∙ ap (λ (x : ServiceConfig). x.credentials) same in
            fetch_on-delivered r c channel w holds
              (ap (λ t. reaches t channel.credentials) same_target
                ∙ ap (reaches target) same_credentials
                ∙ arrives)
              back
