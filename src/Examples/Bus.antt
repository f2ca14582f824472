-- ===== src/Examples/Bus.antt =====
-- The envelope, the registry, the dispatcher and the in-memory broker.
use django_event_bus.Prelude.{
  ℕ, ◌+◌, nat_eq, nat_beq, String, string_eq, pair_eq, List, [], ◌∷◌, ◌++◌, true, some,
  if◌then◌else◌, ◌≡◌, refl, arith, ◌&&◌, ◌==◌, ◌↔◌,
}
use django_event_bus.Prelude.Lists.{contains}
use django_event_bus.Prelude.Dict.{get, get_or}
use django_event_bus.Exceptions.{Result, ok, err, value_error, exit, connection_lost}
use django_event_bus.Exceptions.Exec.{Exec, pure}
use django_event_bus.Platform.{str, Key, text, key_eq}
use django_event_bus.Envelope.{EventEnvelope, to_dict, dumps, loads, hash_key}
use django_event_bus.Envelope.RoundTrip.{loads-dumps, loads_iff, IsReadFrom}
use django_event_bus.Registry.{Registry, get_receivers}
use django_event_bus.Registry.Subscriptions.{
  register_all, handlers_of, fresh, get_receivers-register_all,
}
use django_event_bus.Brokers.{BaseBroker, go_on}
use django_event_bus.Dispatcher.{dispatch}
use django_event_bus.Dispatcher.Outcomes.{
  Runs, done, returned, raised, Settles, dispatch-settle, dispatch_settles, dispatch-true,
}
use django_event_bus.Brokers.LocMem.{Shared, reset, publish, subscribe}
use django_event_bus.Brokers.LocMem.Delivery.{IsValid, publish_lem}
use django_event_bus.Brokers.LocMem.Subscribing.{subscribe-IsValid, reset-IsValid}
use django_event_bus.Brokers.Retry.{retry, retry-Tries, Tries}
use django_event_bus.Examples.Values.{platform, user_created}

loads-dumps_example : loads platform (dumps platform user_created) ≡ ok user_created
unfolding to_dict
loads-dumps_example = loads-dumps platform user_created refl refl

loads_iff_example :
    (loads platform (b'{' ∷ b'}' ∷ []) ≡ ok user_created)
    ↔ IsReadFrom platform (b'{' ∷ b'}' ∷ []) user_created
loads_iff_example = loads_iff platform (b'{' ∷ b'}' ∷ []) user_created

abbrev mailer : ℕ
mailer = 2

abbrev one_receiver : Registry ℕ
one_receiver = (text "order.paid", 1 ∷ []) ∷ []

abbrev registrations : List (String × ℕ)
registrations = ("a", 1) ∷ ("b", 2) ∷ ("a", 3) ∷ ("a", 1) ∷ []

get_receivers-register_all_example :
    get_receivers (str "a") (register_all registrations [])
    ≡ ok (fresh [] (handlers_of "a" registrations))
get_receivers-register_all_example = get_receivers-register_all "a" registrations

-- Receiver 0 raises, receiver 9 exits, and any other adds its number to the state.
abbrev invoke : ℕ → EventEnvelope → Exec ℕ (Unit {0})
invoke h e s =
    if nat_beq h 0
    then (err value_error, s)
    else if nat_beq h 9
    then (err (exit 1), s)
    else (ok tt, s + h)

-- `ack` adds 100 to the state, and `fail` adds 1000.
abbrev counting : BaseBroker ℕ
counting = record {
  publish = λ e. pure tt;
  listen = λ n types body. pure go_on;
  ack = λ e s. (ok tt, s + 100);
  fail = λ e s. (ok true, s + 1000);
  close = pure tt;
}

abbrev receivers : List ℕ → Registry ℕ
receivers hs = (text "auth.user_created", hs) ∷ []

found : (hs : List ℕ) → get_receivers user_created.event_type (receivers hs) ≡ ok hs
unfolding get_receivers hash_key get_or get
found hs = refl

dispatch_settles_example :
    Settles invoke user_created counting 15 1
      (dispatch invoke (receivers (2 ∷ 0 ∷ 3 ∷ [])) counting user_created 10)
dispatch_settles_example =
    dispatch_settles invoke user_created (receivers (2 ∷ 0 ∷ 3 ∷ [])) counting
      (found (2 ∷ 0 ∷ 3 ∷ [])) (returned refl (raised value_error refl refl (returned refl done)))

acknowledged : dispatch invoke (receivers (2 ∷ 3 ∷ [])) counting user_created 10 ≡ (ok true, 115)
acknowledged =
    dispatch-settle invoke user_created (receivers (2 ∷ 3 ∷ [])) counting (found (2 ∷ 3 ∷ []))
      (returned refl (returned refl done))

dispatch-true_example :
    (hs : List ℕ) × (t : ℕ) × (get_receivers user_created.event_type (receivers (2 ∷ 3 ∷ []))
      ≡ ok hs)
    × Runs invoke user_created hs 10 0 t
    × (counting.ack user_created t ≡ (ok tt, 115))
dispatch-true_example =
    dispatch-true invoke user_created (receivers (2 ∷ 3 ∷ [])) counting acknowledged

abbrev new_process : Shared
new_process = record { subscribers = []; queues = [] }

new_process-IsValid : IsValid new_process
unfolding reset
new_process-IsValid = reset-IsValid new_process

abbrev subscribed : Shared
subscribed = subscribe "order" (text "auth.user_created" ∷ []) new_process

subscribed-IsValid : IsValid subscribed
subscribed-IsValid =
    subscribe-IsValid "order" (text "auth.user_created" ∷ []) new_process new_process-IsValid

user_created_key : hash_key user_created.event_type ≡ ok (text "auth.user_created")
unfolding hash_key
user_created_key = refl

type_found : contains {A = Key} (text "auth.user_created" ∷ []) (text "auth.user_created") ≡ true
type_found = refl

publish_lem_example :
    (s' : Shared) × (publish user_created subscribed ≡ (ok tt, s'))
    × (s'.subscribers ≡ subscribed.subscribers)
    × IsValid s'
    × ((service : String) (j : Key)
        → get (service, j) s'.queues ≡ (
            if contains (get_or service [] subscribed.subscribers) (text "auth.user_created")
              && text "auth.user_created" == j
            then some (get_or (service, j) [] subscribed.queues ++ user_created ∷ [])
            else get (service, j) subscribed.queues))
publish_lem_example =
    publish_lem user_created subscribed (text "auth.user_created") subscribed-IsValid
      user_created_key

-- An action that fails twice.
abbrev third_time : Exec ℕ (Unit {0})
third_time s = if nat_beq s 2 then (ok tt, s) else (err connection_lost, s + 1)

retry-Tries_example :
    (r : Result (Unit {0})) × (t : ℕ) × (retry 3 (λ x. true) third_time (λ n. pure tt) 3 1 0
      ≡ (r, t))
    × Tries 3 (λ x. true) third_time (λ n. pure tt) 1 0 r t
retry-Tries_example =
    retry-Tries 3 (λ x. true) third_time (λ n. pure tt) 3 1 0 (omega arith) (omega arith)
