-- ===== src/Exceptions.antt =====
-- src/django_event_bus/exceptions.py, and the exceptions of Python and of the client libraries
-- that the program raises, catches or lets through. An exception is a value; of the texts only
-- those that the code reads are kept.
pub mod Exec
pub mod Pure
pub mod Keeps
use django_event_bus.Prelude.{ℕ, String, Bool, true, false}

pub data Error : Type 0 where
  -- The subclasses of `EventBusError`.
  improperly_configured broker_error service_unavailable service_misconfigured : Error
  -- Python's own.
  key_error attribute_error type_error value_error assertion_error buffer_error : Error
  zero_division_error : Error
  -- Django's own.
  object_does_not_exist validation_error : Error
  -- A timeout or a lost connection, as a client library reports it.
  connection_lost : Error
  -- `redis.ResponseError` with its message.
  response_error : String → Error
  -- Any other class below `Exception`, by a number.
  other : ℕ → Error
  -- Classes that are not below `Exception`: `SystemExit`, `KeyboardInterrupt`.
  exit : ℕ → Error

-- Whether `except Exception` catches it.
abbrev pub is_exception : Error → Bool
is_exception (exit n) = false
is_exception _ = true

-- Whether `except EventBusError` catches it.
abbrev pub is_event_bus_error : Error → Bool
is_event_bus_error improperly_configured = true
is_event_bus_error broker_error = true
is_event_bus_error service_unavailable = true
is_event_bus_error service_misconfigured = true
is_event_bus_error _ = false

-- The outcome of code that may raise and changes no state.
pub data Result {ℓ} (A : Type ℓ) : Type ℓ where
  ok : A → Result A
  err : Error → Result A
