-- ===== src/Examples/OnFields.antt =====
-- Reading a remote resource over a cache that is a dictionary, and its invalidation.
use django_event_bus.Prelude.{String, string_eq, List, [], ◌∷◌, Option, some}
use django_event_bus.Prelude.Dict.{Dict, get, put, remove}
use django_event_bus.Exceptions.{Result, ok}
use django_event_bus.Platform.{Json, num, obj, field, end, pos, str, Fields}
use django_event_bus.Remote.Fields.{DataCache, Reference, World, remote_cache_key}
use django_event_bus.Remote.Invalidation.{Wiring}
use django_event_bus.Examples.Values.{platform}

abbrev pub dict_cache : DataCache (Dict String Json)
dict_cache = record {
  cache_get = λ key c. (ok (get key c), c);
  cache_set = λ key d timeout c. (ok tt, put key d c);
  cache_delete = λ key c. (ok tt, remove key c);
}

abbrev user_seven : Reference
user_seven = record { service = "auth"; resource = "users"; pk = num (pos 7) }

abbrev renamed : Json
renamed = obj (field "username" (str "new") end)

abbrev payload : Fields
payload = field "id" (num (pos 7)) end

abbrev answer : List Reference → Result (Option Json)
answer fetches = ok (some renamed)

abbrev before : World (Dict String Json)
before = record {
  cache = (remote_cache_key platform user_seven, obj (field "username" (str "old") end)) ∷ [];
  fetches = [];
}

abbrev unwired : Wiring
unwired = record { wired = []; registry = []; made = 0 }

abbrev user_events : List String
user_events = "auth.user_updated" ∷ "auth.user_deleted" ∷ []
