-- ===== src/Remote/Invalidation/Once.antt =====
-- One receiver for each triple of a service, a resource and an event type.
use django_event_bus.Prelude.{
  String, string_eq, List, [], ◌∷◌, true, pair_eq, ◌≡◌, refl, arith, Bool-cases, inl, inr, ==_refl,
}
use django_event_bus.Prelude.Lists.{contains, All}
use django_event_bus.Remote.Invalidation.{Wiring, wire, register_invalidation}

module _ (service resource : String) where
  abbrev IsWired : Wiring → String → Type 0
  IsWired w t = contains w.wired (service, (resource, t)) ≡ true

  wire-IsWired : (t : String) (w : Wiring) → IsWired (wire service resource t w) t
  unfolding wire
  wire-IsWired t w = elim (Bool-cases (contains w.wired (service, (resource, t)))) [
    | inl old ↦ rw old old
    | inr new ↦ rw (new, ==_refl {A = String × (String × String)} (service, (resource, t))) refl
  ]

  wire_keeps : (t u : String) (w : Wiring) → IsWired w u → IsWired (wire service resource t w) u
  unfolding wire
  wire_keeps t u w h = elim (Bool-cases (contains w.wired (service, (resource, t)))) [
    | inl old ↦ rw old h
    | inr new ↦ rw new (ground (arith, h))
  ]

  register_invalidation_keeps :
      (ts : List String) (u : String) (w : Wiring)
      → IsWired w u
      → IsWired (register_invalidation service resource ts w) u
  unfolding register_invalidation
  register_invalidation_keeps [] u w h = h
  register_invalidation_keeps (t ∷ ts) u w h =
      register_invalidation_keeps ts u (wire service resource t w) (wire_keeps t u w h)

  register_invalidation-IsWired :
      (ts : List String) (w : Wiring)
      → All (IsWired (register_invalidation service resource ts w)) ts
  unfolding register_invalidation
  register_invalidation-IsWired [] w = tt
  register_invalidation-IsWired (t ∷ ts) w = (
    register_invalidation_keeps ts t (wire service resource t w) (wire-IsWired t w),
    register_invalidation-IsWired ts (wire service resource t w),
  )

  register_invalidation_wired :
      (ts : List String) (w : Wiring)
      → All (IsWired w) ts
      → register_invalidation service resource ts w ≡ w
  unfolding register_invalidation wire
  register_invalidation_wired [] w h = refl
  register_invalidation_wired (t ∷ ts) w h = rw (h.0) (register_invalidation_wired ts w h.1)

  -- A second field on the same resource, with the same event types, adds no receiver.
  pub register_invalidation_idem :
      (ts : List String) (w : Wiring)
      → register_invalidation service resource ts (register_invalidation service resource ts w)
        ≡ register_invalidation service resource ts w
  register_invalidation_idem ts w =
      register_invalidation_wired ts (register_invalidation service resource ts w)
        (register_invalidation-IsWired ts w)
