-- ===== src/Remote/Fields.antt =====
-- src/django_event_bus/remote/fields.py and cache.py. Django's cache and
-- the transport are parameters. Times are whole seconds.
pub mod Accessors
pub mod Deconstructing
use django_event_bus.Prelude.{ℕ, String, string_eq, ◌<>◌, List, ◌∷◌, Option, none, some}
use django_event_bus.Exceptions.{Result}
use django_event_bus.Exceptions.Exec.{Exec, pure, ◌>>=◌, ◌>>◌}
use django_event_bus.Platform.{Platform, Json, format}

-- The methods of Django's cache that the package calls, on resources.
pub record DataCache (C : Type 0) : Type 0 where
  pub cache_get : String → Exec C (Option Json)
  pub cache_set : String → Json → (timeout : ℕ) → Exec C (Unit {0})
  pub cache_delete : String → Exec C (Unit {0})

pub record Reference : Type 0 where
  pub service : String
  pub resource : String
  pub pk : Json

pub record RemoteObject : Type 0 where
  pub reference : Reference
  pub payload : Json

-- The cache, and what the transport was asked for, the latest first.
pub record World (C : Type 0) : Type 0 where
  pub cache : C
  pub fetches : List Reference

abbrev pub in_cache : {C A : Type 0} → Exec C A → Exec (World C) A
in_cache m w = let (r, c) = m w.cache in (r, record w { cache = c })

-- `remote_cache_key`.
unfoldable pub remote_cache_key : Platform → Reference → String
remote_cache_key p r =
    "django_event_bus:remote" <> ":" <> r.service <> ":" <> r.resource <> ":" <> format p r.pk

module _ {C : Type 0} (p : Platform) (cache : DataCache C)
    (on_fetch : List Reference → Result (Option Json)) (default_ttl : ℕ) where
  -- `transport.fetch`, which may answer differently each time.
  abbrev pub fetch : Reference → Exec (World C) (Option Json)
  fetch r w = (on_fetch (r ∷ w.fetches), record w { fetches = r ∷ w.fetches })

  abbrev pub effective_ttl : Option ℕ → ℕ
  effective_ttl none = default_ttl
  effective_ttl (some ttl) = ttl

  abbrev pub wrap : Reference → Json → RemoteObject
  wrap r d = record { reference = r; payload = d }

  -- What `resolve` does with the transport's answer.
  abbrev pub keep : Reference → Option ℕ → Option Json → Exec (World C) (Option RemoteObject)
  keep r ttl none = pure none
  keep r ttl (some d) =
      in_cache (cache.cache_set (remote_cache_key p r) d (effective_ttl ttl))
      >> pure (some (wrap r d))

  abbrev pub on_cached : Reference → Option ℕ → Option Json → Exec (World C) (Option RemoteObject)
  on_cached r ttl (some d) = pure (some (wrap r d))
  on_cached r ttl none = fetch r >>= keep r ttl

  unfoldable pub resolve : Reference → Option ℕ → Exec (World C) (Option RemoteObject)
  resolve r ttl = in_cache (cache.cache_get (remote_cache_key p r)) >>= on_cached r ttl
