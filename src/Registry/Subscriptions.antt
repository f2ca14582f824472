-- ===== src/Registry/Subscriptions.antt =====
-- What a sequence of registrations leaves in the registry.
use django_event_bus.Prelude.{
  String, string_eq, List, [], ◌∷◌, ◌++◌, Eq, ◌==◌, if◌then◌else◌, ◌≡◌, refl, true, false, Bool,
  arith, sym, ◌∙◌, eq_iff, append-nil, append_assoc, Bool-cases,
}
use django_event_bus.Prelude.Lists.{contains, contains-append}
use django_event_bus.Prelude.Dict.{get, get_or, get-put_self, get_or-put, get_or-put_self, put-get}
use django_event_bus.Exceptions.{ok}
use django_event_bus.Platform.{str, text, key_eq}
use django_event_bus.Envelope.{hash_key}
use django_event_bus.Registry.{Registry, add_handler, register, get_receivers}

module _ {H : Type 0} ⦃e : Eq H⦄ where
  contains-add_handler : (h : H) (hs : List H) → contains (add_handler h hs) h ≡ true
  contains-add_handler h hs =
      ground (arith, contains-append hs (h ∷ []) h, e.beq_iff h h, Bool-cases (contains hs h))

  add_handler_idem : (h : H) (hs : List H) → add_handler h (add_handler h hs) ≡ add_handler h hs
  add_handler_idem h hs = rw (contains-add_handler h hs)

  -- A second registration of the same pair changes nothing.
  pub register_idem :
      (t : String) (h : H) (r : Registry H) → register t h (register t h r) ≡ register t h r
  unfolding register
  register_idem t h r =
      let hs = get_or (text t) [] r in
      rw (get_or-put_self (text t) (add_handler h hs) [] r, add_handler_idem h hs)
        (put-get (text t) _ _ (get-put_self (text t) (add_handler h hs) r))

  -- The registrations of a process, in their order.
  abbrev pub register_all : List (String × H) → Registry H → Registry H
  register_all [] r = r
  register_all ((t, h) ∷ calls) r = register_all calls (register t h r)

  -- The receivers named for a type, repetitions included.
  abbrev pub handlers_of : String → List (String × H) → List H
  handlers_of t [] = []
  handlers_of t ((u, h) ∷ calls) = if u == t then h ∷ handlers_of t calls else handlers_of t calls

  -- The items that are not in `seen` and did not come before.
  abbrev pub fresh : List H → List H → List H
  fresh seen [] = []
  fresh seen (h ∷ hs) = elim (contains seen h) [
    | true ↦ fresh seen hs
    | false ↦ h ∷ fresh (seen ++ h ∷ []) hs
  ]

  get_or-register :
      (t u : String) (h : H) (r : Registry H)
      → get_or (text t) [] (register u h r)
        ≡ (if u == t then add_handler h (get_or (text t) [] r) else get_or (text t) [] r)
  unfolding register
  get_or-register t u h r =
      ground (
        arith,
        get_or-put (text u) (text t) (add_handler h (get_or (text u) [] r)) [] r,
        eq_iff u t,
      )

  fresh-add_handler :
      (b : Bool) (m : List H) (h : H) (hs : List H)
      → (if b then add_handler h m else m) ++ fresh (if b then add_handler h m else m) hs
        ≡ m ++ fresh m (if b then h ∷ hs else hs)
  fresh-add_handler false m h hs = refl
  fresh-add_handler true m h hs = ground (arith, append_assoc m (h ∷ []) (fresh (m ++ h ∷ []) hs))

  get_or-register_all :
      (t : String) (calls : List (String × H)) (r : Registry H)
      → get_or (text t) [] (register_all calls r)
        ≡ get_or (text t) [] r ++ fresh (get_or (text t) [] r) (handlers_of t calls)
  get_or-register_all t [] r = sym (append-nil _)
  get_or-register_all t ((u, h) ∷ calls) r =
      (rw (get_or-register t u h r) at (get_or-register_all t calls (register u h r)))
      ∙ fresh-add_handler (u == t) (get_or (text t) [] r) h (handlers_of t calls)

  -- After any sequence of registrations in a new process, the receivers of a type are the
  -- handlers registered for it, each once, in the order of their first registration.
  pub get_receivers-register_all :
      (t : String) (calls : List (String × H))
      → get_receivers (str t) (register_all calls []) ≡ ok (fresh [] (handlers_of t calls))
  unfolding get_receivers hash_key get_or get
  get_receivers-register_all t calls = rw (get_or-register_all t calls [])
