-- ===== src/Remote/RateLimit.antt =====
-- src/django_event_bus/remote/ratelimit.py. Django's cache is a parameter. Times are whole
-- seconds.
pub mod Window
use django_event_bus.Prelude.{
  ℕ, ◌*◌, ◌/◌, String, ◌<>◌, Bool, true, false, Option, none, some, if◌then◌else◌, nat_beq, leb,
}
use django_event_bus.Exceptions.{
  Error, Result, ok, err, key_error, value_error, zero_division_error,
}
use django_event_bus.Exceptions.Exec.{Exec, pure, raise, try_except, ◌>>=◌}
use django_event_bus.Platform.{Platform, num, pos, format}

-- The methods of Django's cache that the package calls, on counters.
pub record Cache (C : Type 0) : Type 0 where
  pub add : (key : String) → (value timeout : ℕ) → Exec C Bool
  pub incr : (key : String) → Exec C ℕ

pub record RateLimitConfig : Type 0 where
  pub limit : ℕ
  pub window_seconds : ℕ

-- `REMOTE_DATA["RATE_LIMIT"]`.
pub record RawLimit : Type 0 where
  pub limit : Option ℕ
  pub window_seconds : Option ℕ

-- An empty dict is falsy, as None is.
unfoldable pub resolve_rate_limit_config : Option RawLimit → Result (Option RateLimitConfig)
resolve_rate_limit_config none = ok none
resolve_rate_limit_config (some raw) = elim (raw.limit) [
  | none ↦ elim (raw.window_seconds) [ none ↦ ok none | some w ↦ err key_error ]
  | some n ↦ ok (
      some (record {
        limit = n;
        window_seconds = elim (raw.window_seconds) [ none ↦ 60 | some w ↦ w ];
      }))
]

abbrev pub is_value_error : Error → Bool
is_value_error value_error = true
is_value_error _ = false

module _ {C : Type 0} (p : Platform) (cache : Cache C) (c : RateLimitConfig) where
  unfoldable pub cache_key : String → ℕ → String
  cache_key key window =
      "django_event_bus:remote:ratelimit" <> ":" <> key <> ":" <> format p (num (pos window))

  -- `cache.incr`, or a new counter if it is gone by then.
  abbrev pub count_again : String → Exec C ℕ
  count_again k = try_except (cache.incr k) (λ x.
      if is_value_error x then (cache.add k 1 (c.window_seconds * 2) >>= λ _. pure 1) else raise x)

  unfoldable pub count_call : String → Exec C ℕ
  count_call k =
      cache.add k 1 (c.window_seconds * 2) >>= λ added. if added then pure 1 else count_again k

  -- `is_allowed`, at the time `now`.
  unfoldable pub is_allowed : ℕ → String → Exec C Bool
  is_allowed now key =
      if nat_beq c.window_seconds 0
      then raise zero_division_error
      else (count_call (cache_key key (now / c.window_seconds)) >>= λ count.
          pure (leb count c.limit))
