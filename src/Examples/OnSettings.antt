-- ===== src/Examples/OnSettings.antt =====
-- The settings, the signals, and the objects of the remote fields.
use django_event_bus.Prelude.{
  String, string_eq, nat_eq, List, [], ◌∷◌, ◌++◌, map, true, Option, none, some, ◌≡◌, refl, ap,
  arith,
}
use django_event_bus.Prelude.Dict.{Dict, get, put, get_or}
use django_event_bus.Exceptions.{Result, ok, err, broker_error}
use django_event_bus.Exceptions.Exec.{Exec, for_each}
use django_event_bus.Platform.{Json, bool, str, num, pos, obj, field, end, field_get}
use django_event_bus.Platform.Comparing.{json_eq}
use django_event_bus.Envelope.{EventEnvelope}
use django_event_bus.Settings.{
  Value, Object, Section, scalar, dict_at, user_settings, resolve_value, get_attr, reload,
}
use django_event_bus.Settings.Caching.{Event, read, write, change, run, get_attr-run}
use django_event_bus.Settings.Sharing.{Apart, Untouched, write_settings, write_settings-Apart}
use django_event_bus.Signals.{Message, envelope_of}
use django_event_bus.Signals.Transactions.{Connection, Committed, send_all, send_all-commit}
use django_event_bus.Remote.Fields.{Reference, RemoteObject, World}
use django_event_bus.Remote.Fields.Accessors.{
  RemoteForeignKey, column, descriptor, contribute_to_class, Assigned, Instance, key_of, set_remote,
  resolve_key, get_remote, contribute_to_class-accessors,
}
use django_event_bus.Remote.Fields.Deconstructing.{
  construct, deconstruct, construct-deconstruct, flag,
}
use django_event_bus.Remote.Objects.{
  slots_of, slot, no_slot, get_attribute, item_or_error, recursion_error, get_attribute_lem,
}
use django_event_bus.Remote.Objects.Identity.{object_eq, object_hash, object_hash-object_eq}
use django_event_bus.Remote.Invalidation.{Wiring}
use django_event_bus.Examples.Values.{platform, noon}
use django_event_bus.Examples.OnFields.{dict_cache}

abbrev defaults : Object
defaults = ("SERVICE_NAME", scalar (str "none")) ∷ ("OPTIONS", dict_at 0) ∷ []

abbrev fresh : Section
fresh = record {
  user = some (("SERVICE_NAME", scalar (str "orders")) ∷ []);
  cache = [];
  heap = record { objects = (0, []) ∷ []; next = 1 };
}

abbrev kept : Section
kept = record fresh { cache = ("SERVICE_NAME", scalar (str "orders")) ∷ [] }

read_name :
    get_attr defaults ("SERVICE_NAME" ∷ []) "SERVICE_NAME" fresh
    ≡ (ok (scalar (str "orders")), kept)
unfolding get_attr get get_or put
read_name = refl

abbrev events : List Event
events = read "OPTIONS" ∷ change none ∷ write 1 "servers" (scalar (str "x")) ∷ []

get_attr-run_example :
    (get_attr defaults
        ("SERVICE_NAME" ∷ [])
        "SERVICE_NAME"
        (run defaults ("SERVICE_NAME" ∷ []) events kept)
      ≡ (ok (scalar (str "orders")), run defaults ("SERVICE_NAME" ∷ []) events kept))
    × ((default : Value)
        → get "SERVICE_NAME" defaults ≡ some default
        → let again = (reload (run defaults ("SERVICE_NAME" ∷ []) events kept)).1 in
          get_attr defaults ("SERVICE_NAME" ∷ []) "SERVICE_NAME" again
          ≡ resolve_value defaults
              ("SERVICE_NAME" ∷ [])
              "SERVICE_NAME"
              (get_or "SERVICE_NAME" default (user_settings again.user))
              again)
get_attr-run_example =
    get_attr-run defaults ("SERVICE_NAME" ∷ []) "SERVICE_NAME" fresh kept (scalar (str "orders"))
      events read_name

fresh-Apart : Apart 1 fresh
unfolding get
fresh-Apart = record { room = omega arith; cached = λ attr v e. absurd (cc (e)) }

abbrev writes : List (String × String × Value)
writes = ("OPTIONS", "servers", scalar (str "localhost")) ∷ []

write_settings-Apart_example :
    Apart 1 (write_settings defaults [] 1 writes fresh)
    × Untouched 1 fresh (write_settings defaults [] 1 writes fresh)
write_settings-Apart_example = write_settings-Apart defaults [] 1 writes fresh fresh-Apart

-- A connection whose transaction holds the callbacks, over a broker that takes one event only.
pub record Database : Type 0 where
  pub registered : Option (List EventEnvelope)
  pub asked : List EventEnvelope

abbrev taken_first : List EventEnvelope → Result (Unit {0})
taken_first [] = ok tt
taken_first (_ ∷ _) = err broker_error

abbrev publish_one : EventEnvelope → Exec Database (Unit {0})
publish_one e w = (taken_first w.asked, record w { asked = w.asked ++ e ∷ [] })

abbrev leave_transaction : Database → Database
leave_transaction w = record w { registered = none }

abbrev run_registered : Option (List EventEnvelope) → Exec Database (Unit {0})
run_registered none w = (ok tt, w)
run_registered (some es) w = for_each publish_one es (leave_transaction w)

abbrev keep_or_publish : EventEnvelope → Option (List EventEnvelope) → Exec Database (Unit {0})
keep_or_publish e none w = publish_one e w
keep_or_publish e (some es) w = (ok tt, record w { registered = some (es ++ e ∷ []) })

abbrev database : Connection Database
database = record {
  on_commit = λ e w. keep_or_publish e w.registered w;
  publish = publish_one;
  leave = leave_transaction;
  commit = λ w. run_registered w.registered w;
  rollback = leave_transaction;
  registered = λ w. w.registered;
  asked = λ w. w.asked;
  inside = λ e w es h. (record w { registered = some (es ++ e ∷ []) }, rw h refl, refl, refl);
  counts = λ e w. refl;
  commits = λ w es h. ap (λ o. run_registered o w) h;
  leaves = λ w. refl;
  rolls_back = λ w. refl;
}

construct-deconstruct_example :
    construct (
      deconstruct (("db_index", flag true) ∷ []) (record {
        service = "auth";
        resource = "users";
        transport_name = none;
        ttl = some 30;
        invalidate_on = "auth.user_updated" ∷ [];
        accessor_name = none;
      }))
    ≡ ok (record {
      service = "auth";
      resource = "users";
      transport_name = none;
      ttl = some 30;
      invalidate_on = "auth.user_updated" ∷ [];
      accessor_name = none;
    })
construct-deconstruct_example = construct-deconstruct (("db_index", flag true) ∷ []) (record {
  service = "auth";
  resource = "users";
  transport_name = none;
  ttl = some 30;
  invalidate_on = "auth.user_updated" ∷ [];
  accessor_name = none;
})

abbrev created : Message
created = record {
  event_type = "orders.order_created";
  payload = ("id", num (pos 1)) ∷ [];
  extra = ("total", num (pos 10)) ∷ [];
  event_id = "a1";
  occurred_at = noon;
}

abbrev in_transaction : Database
in_transaction = record { registered = some []; asked = [] }

abbrev two_messages : List Message
two_messages = created ∷ record created { event_id = "a2" } ∷ []

send_all-commit_example :
    (v : Database) × (send_all database (ok (str "orders")) two_messages in_transaction
      ≡ (ok (map (envelope_of (str "orders")) two_messages), v))
    × (v.asked ≡ [])
    × Committed database [] (map (envelope_of (str "orders")) two_messages) (database.commit v)
    × ((database.rollback v).asked ≡ [])
send_all-commit_example = send_all-commit database (str "orders") two_messages in_transaction refl

abbrev user_seven : Reference
user_seven = record { service = "auth"; resource = "users"; pk = num (pos 7) }

no_such_slot :
    slot
      (slots_of (record { reference = user_seven; payload = obj (field "email" (str "a@b") end) }))
      "email"
    ≡ none
unfolding slot
no_such_slot = refl

get_attribute_lem_example :
    (get_attribute 5
        (slots_of
          (record { reference = user_seven; payload = obj (field "email" (str "a@b") end) }))
        "email"
      ≡ item_or_error (field_get "email" (field "email" (str "a@b") end)))
    × (get_attribute 3 no_slot "email" ≡ err recursion_error)
get_attribute_lem_example =
    get_attribute_lem user_seven (field "email" (str "a@b") end) "email" 3 no_such_slot

abbrev user_true : RemoteObject
user_true = record {
  reference = record { service = "auth"; resource = "users"; pk = bool true };
  payload = obj end;
}

abbrev user_one : RemoteObject
user_one = record {
  reference = record { service = "auth"; resource = "users"; pk = num (pos 1) };
  payload = obj (field "email" (str "a@b") end);
}

one_key : object_eq user_true (some user_one) ≡ some true
unfolding object_eq json_eq
one_key = refl

object_hash-object_eq_example :
    object_hash (λ service resource k. pos 3) user_true
    ≡ object_hash (λ service resource k. pos 3) user_one
object_hash-object_eq_example =
    object_hash-object_eq (λ service resource k. pos 3) user_true user_one one_key

abbrev user_key : RemoteForeignKey
user_key = record {
  service = "auth";
  resource = "users";
  transport_name = none;
  ttl = none;
  invalidate_on = [];
  accessor_name = none;
}

abbrev nothing_wired : Wiring
nothing_wired = record { wired = []; registry = []; made = 0 }

contribute_to_class-accessors_example :
    (get "user_id" (contribute_to_class user_key "user_id" ([], nothing_wired)).0
      ≡ some (column user_key))
    × (get "user" (contribute_to_class user_key "user_id" ([], nothing_wired)).0
        ≡ some (descriptor user_key "user_id"))
    × ((v : Assigned) (i : Instance) (world : World (Dict String Json))
        → get_remote platform dict_cache
            (λ fetches. ok none)
            60
            user_key
            "user_id"
            (set_remote "user_id" v i)
            world
          ≡ resolve_key platform dict_cache (λ fetches. ok none) 60 user_key (key_of v) world)
contribute_to_class-accessors_example =
    contribute_to_class-accessors platform dict_cache (λ fetches. ok none) 60 user_key "user" []
      nothing_wired refl
