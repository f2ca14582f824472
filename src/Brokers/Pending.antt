-- ===== src/Brokers/Pending.antt =====
-- The events that a broker handed out, by their identifiers: the dict `_pending` of the brokers.
use django_event_bus.Prelude.{[], ◌∷◌, Option, none, ◌≡◌, refl}
use django_event_bus.Prelude.Dict.{Dict, get, remove}
use django_event_bus.Exceptions.{Result, ok}
use django_event_bus.Exceptions.Pure.{◌>>=◌}
use django_event_bus.Platform.{Json, Key, key_eq}
use django_event_bus.Envelope.{hash_key}

module _ {ℓ} {V : Type ℓ} where
  -- `d.pop(value, None)`, with what is left of the dict. An empty one does not hash the value.
  unfoldable pub pop : Json → Dict Key V → Result (Option V × Dict Key V)
  pop value [] = ok (none, [])
  pop value (entry ∷ d) = do k ← hash_key value; ok (get k (entry ∷ d), remove k (entry ∷ d))

  pub pop-hash_key :
      (value : Json) (d : Dict Key V) {k : Key}
      → hash_key value ≡ ok k
      → pop value d ≡ ok (get k d, remove k d)
  unfolding pop get remove
  pop-hash_key value [] keyed = refl
  pop-hash_key value (entry ∷ d) keyed = rw keyed refl
