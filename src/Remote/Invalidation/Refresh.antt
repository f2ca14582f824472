-- ===== src/Remote/Invalidation/Refresh.antt =====
-- What an invalidated resource is read as.
use django_event_bus.Prelude.{ℕ, ◌<◌, String, none, some, ◌≡◌}
use django_event_bus.Exceptions.{ok}
use django_event_bus.Platform.{Platform, Json, Fields}
use django_event_bus.Remote.Fields.{DataCache}

-- What Django promises of one entry at one time: a deleted entry is not found, and an entry that
-- was set with a timeout above 0 is found. A timeout of 0 caches nothing.
pub record Stores {C : Type 0} (cache : DataCache C) (key : String) : Type 0 where
  pub deletes :
      (c : C)
      → (c' : C) × (cache.cache_delete key c ≡ (ok tt, c'))
        × (cache.cache_get key c' ≡ (ok none, c'))
  pub sets :
      (d : Json) (timeout : ℕ) (c : C)
      → 0 < timeout
      → (c' : C) × (cache.cache_set key d timeout c ≡ (ok tt, c'))
        × (cache.cache_get key c' ≡ (ok (some d), c'))
