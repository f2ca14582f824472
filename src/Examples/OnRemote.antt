-- ===== src/Examples/OnRemote.antt =====
-- Authentication, the rate limit and the view, with a cache of one counter.
use django_event_bus.Prelude.{
  ℕ, ◌+◌, ◌<>◌, nat_eq, String, string_eq, List, [], ◌∷◌, Bool, true, false, none, some,
  if◌then◌else◌, ◌==◌, nat_beq, ◌≡◌, ◌↔◌, refl, arith,
}
use django_event_bus.Prelude.Lists.{length}
use django_event_bus.Prelude.Dict.{get}
use django_event_bus.Exceptions.{ok, err, value_error, object_does_not_exist}
use django_event_bus.Platform.{Json, str, num, obj, field, end, pos, field_get}
use django_event_bus.Remote.Auth.{
  AuthResult, allow, bearer_prefix, or_empty, static_token, compare_digest, Decoded, claims_of,
  invalid_token, jwt, caller_name, truthy,
}
use django_event_bus.Remote.Auth.Decisions.{static_token_iff, Verified, jwt-Verified}
use django_event_bus.Remote.RateLimit.{Cache, RateLimitConfig, cache_key, resolve_rate_limit_config}
use django_event_bus.Remote.RateLimit.Window.{
  Counter, count_true, run_calls, budget, run_calls-budget,
}
use django_event_bus.Remote.Views.{
  Request, Response, Site, Service, check_rate, serve, authenticate, resource_detail,
}
use django_event_bus.Remote.Views.Access.{Logged, resource_detail-Logged}
use django_event_bus.Examples.Values.{platform}

static_token_iff_example :
    (r : AuthResult) × (static_token "s3cret" (some "Bearer s3cret") ≡ ok r)
    × ((r.granted ≡ true) ↔ (or_empty (some "Bearer s3cret") ≡ bearer_prefix <> "s3cret"))
static_token_iff_example = static_token_iff "s3cret" (some "Bearer s3cret") refl refl

abbrev decode : String → Decoded
decode token =
    if token == "abc"
    then claims_of (field "sub" (str "orders") end)
    else invalid_token "bad signature"

jwt_orders : jwt platform decode (some "Bearer abc") ≡ ok (allow (some "orders"))
unfolding jwt caller_name truthy field_get
jwt_orders = refl

jwt-Verified_example : Verified platform decode (some "Bearer abc") (allow (some "orders"))
jwt-Verified_example =
    jwt-Verified platform decode (some "Bearer abc") (allow (some "orders")) jwt_orders refl

-- A cache that holds one counter, whatever the key.
abbrev pub one_counter : Cache ℕ
one_counter = record {
  add = λ key value timeout s. if nat_beq s 0 then (ok true, value) else (ok false, s);
  incr = λ key s. if nat_beq s 0 then (err value_error, s) else (ok (s + 1), s + 1);
}

abbrev pub two_a_minute : RateLimitConfig
two_a_minute = record { limit = 2; window_seconds = 60 }

counts : (k : String) (timeout : ℕ) → Counter one_counter k timeout
counts k timeout = record {
  value = λ s. s;
  add_new = λ s h. (1, ground arith, refl);
  add_old = λ s h. ground arith;
  incr_old = λ s h. (s + 1, ground arith, refl);
}

abbrev times : List ℕ
times = 130 ∷ 131 ∷ 179 ∷ []

run_calls-budget_example :
    (passed : List Bool) × (t : ℕ) × (run_calls platform one_counter two_a_minute "10.0.0.7" times 0
      ≡ (ok passed, t))
    × (length passed ≡ length times)
    × (count_true passed
        ≡ budget platform one_counter two_a_minute "10.0.0.7"
            (length times)
            ((counts (cache_key platform one_counter two_a_minute "10.0.0.7" 2) 120).value 0))
    × ((counts (cache_key platform one_counter two_a_minute "10.0.0.7" 2) 120).value t
        ≡ (counts (cache_key platform one_counter two_a_minute "10.0.0.7" 2) 120).value 0
          + length times)
run_calls-budget_example =
    run_calls-budget platform one_counter two_a_minute "10.0.0.7" 2 (λ same. omega (arith, same))
      (counts (cache_key platform one_counter two_a_minute "10.0.0.7" 2) 120) times 0
      (refl, (refl, (refl, tt)))

abbrev users : Service ℕ String Json
users = record {
  cache = one_counter;
  rate_limit = none;
  backend = ok (static_token "s3cret");
  registry = ("users", "UserResourceSerializer") ∷ [];
  get_instance = λ serializer pk.
      if pk == "7" then ok (obj (field "id" (num (pos 7)) end)) else err object_does_not_exist;
  represent = λ serializer instance_found. ok instance_found;
}

abbrev request : Request
request = record {
  remote_addr = some "10.0.0.7";
  authorization = some "Bearer s3cret";
  resource = "users";
  pk = "7";
}

abbrev pub site : Site ℕ
site = record { cache = 0; access_log = [] }

abbrev answered : Site ℕ
answered = record {
  cache = 0;
  access_log =
      (record {
        transport = "http";
        granted = true;
        peer = some "10.0.0.7";
        resource = some "users";
        pk = some "7";
        caller = some "shared-token";
        reason = none;
      })
      ∷ [];
}

abbrev user_seven : Response
user_seven = record { status = 200; body = obj (field "id" (num (pos 7)) end) }

answers : resource_detail platform users 130 request site ≡ (ok user_seven, answered)
unfolding resource_detail check_rate authenticate serve static_token compare_digest
    resolve_rate_limit_config get
answers = refl

resource_detail-Logged_example : Logged platform users 130 request site answered user_seven
resource_detail-Logged_example =
    resource_detail-Logged platform users 130 request site answered user_seven answers
