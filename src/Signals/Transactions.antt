-- ===== src/Signals/Transactions.antt =====
-- Events that are sent in a transaction.
use django_event_bus.Prelude.{
  string_eq, List, [], ◌∷◌, ◌++◌, map, append-nil, append_assoc, Option, some, ◌≡◌, refl, sym, ap,
  subst, ◌∙◌,
}
use django_event_bus.Exceptions.{Error, Result, ok, err}
use django_event_bus.Exceptions.Exec.{Exec, pure, for_each, continue, ◌>>=◌}
use django_event_bus.Platform.{Json}
use django_event_bus.Envelope.{EventEnvelope}
use django_event_bus.Signals.{Message, envelope_of, send}

-- What the program relies on of Django's transactions: inside of one (`registered` is not none) a
-- callback is kept; a commit leaves the transaction and runs the callbacks in the order in which
-- they were registered, up to the first that raises; a rollback leaves it and runs none. `publish`
-- is any broker's, which may raise; `asked` is what it was called with, in order.
pub record Connection (W : Type 0) : Type 0 where
  pub on_commit : EventEnvelope → Exec W (Unit {0})
  pub publish : EventEnvelope → Exec W (Unit {0})
  pub leave : W → W
  pub commit : Exec W (Unit {0})
  pub rollback : W → W
  pub registered : W → Option (List EventEnvelope)
  pub asked : W → List EventEnvelope
  pub inside :
      (e : EventEnvelope) (w : W) (es : List EventEnvelope)
      → registered w ≡ some es
      → (v : W) × (on_commit e w ≡ (ok tt, v))
        × (registered v ≡ some (es ++ e ∷ []))
        × (asked v ≡ asked w)
  pub counts : (e : EventEnvelope) (w : W) → asked (publish e w).1 ≡ asked w ++ e ∷ []
  pub commits :
      (w : W) (es : List EventEnvelope)
      → registered w ≡ some es
      → commit w ≡ for_each publish es (leave w)
  pub leaves : (w : W) → asked (leave w) ≡ asked w
  pub rolls_back : (w : W) → asked (rollback w) ≡ asked w

module _ {W : Type 0} (connection : Connection W) where
  unfoldable pub send_all : Result Json → List Message → Exec W (List EventEnvelope)
  send_all service_name [] = pure []
  send_all service_name (m ∷ ms) = send connection.on_commit service_name m >>= λ e.
      send_all service_name ms >>= λ es. pure (e ∷ es)

  -- How the callbacks of a transaction ended that registered the events `es`, where `before` was
  -- published before: all were published, or the first whose publishing raised was the last.
  pub data Committed (before es : List EventEnvelope) : Result (Unit {0}) × W → Type 0 where
    all_published : {u : W} → connection.asked u ≡ before ++ es → Committed before es (ok tt, u)
    stopped :
        {u : W} (first : List EventEnvelope) (e : EventEnvelope) (rest : List EventEnvelope)
        (x : Error) (w : W)
        → es ≡ first ++ e ∷ rest
        → connection.publish e w ≡ (err x, u)
        → connection.asked u ≡ before ++ (first ++ e ∷ [])
        → Committed before es (err x, u)

  Committed-cons :
      (before es : List EventEnvelope) (e : EventEnvelope) (q : Result (Unit {0}) × W)
      → Committed (before ++ e ∷ []) es q
      → Committed before (e ∷ es) q
  Committed-cons before es e (ok u, v) (all_published asked) =
      all_published (asked ∙ append_assoc before (e ∷ []) es)
  Committed-cons before es e (err y, v) (stopped first last rest x w split raises asked) =
      stopped (e ∷ first) last rest x w (ap (λ l. e ∷ l) split) raises
        (asked ∙ append_assoc before (e ∷ []) (first ++ last ∷ []))

  for_each-Committed :
      (es : List EventEnvelope) (w : W)
      → Committed (connection.asked w) es (for_each connection.publish es w)
  unfolding for_each
  for_each-Committed [] w = all_published (sym (append-nil (connection.asked w)))
  for_each-Committed (e ∷ es) w =
      of (connection.publish e w) refl (connection.counts e w) (λ v. for_each-Committed es v)
    where
      of :
          (q : Result (Unit {0}) × W)
          → connection.publish e w ≡ q
          → connection.asked q.1 ≡ connection.asked w ++ e ∷ []
          → ((v : W) → Committed (connection.asked v) es (for_each connection.publish es v))
          → Committed
              (connection.asked w)
              (e ∷ es)
              (continue (λ _. for_each connection.publish es) q)
      of (ok u, v) published asked rest =
          Committed-cons (connection.asked w) es e _
            (subst (λ l. Committed l es (for_each connection.publish es v)) asked (rest v))
      of (err x, v) raised asked rest = stopped [] e es x w refl raised asked

  module _ (source : Json) where
    send_all-registered :
        (ms : List Message) (w : W) (es : List EventEnvelope)
        → connection.registered w ≡ some es
        → (v : W) × (send_all (ok source) ms w ≡ (ok (map (envelope_of source) ms), v))
          × (connection.registered v ≡ some (es ++ map (envelope_of source) ms))
          × (connection.asked v ≡ connection.asked w)
    unfolding send_all send
    send_all-registered [] w es h = (w, refl, h ∙ ap (λ l. some l) (sym (append-nil es)), refl)
    send_all-registered (m ∷ ms) w es h =
        let (u, kept, now, same) = connection.inside (envelope_of source m) w es h in
        let (v, rest, last, still) = send_all-registered ms u _ now in
        (
          v,
          rw (kept, rest) refl,
          last
              ∙ ap (λ l. some l)
                  (append_assoc es (envelope_of source m ∷ []) (map (envelope_of source) ms)),
          still ∙ same,
        )

    -- Events that are sent in a transaction are not published before it ends. When it commits,
    -- where Django runs the callbacks in the order in which they were registered and up to the
    -- first that raises, they are published in the order of the calls of `send`, each once, where
    -- the broker takes them; the first whose publishing raises ends the commit with that error, and
    -- those behind it are not published. When it is rolled back, none is.
    pub send_all-commit :
        (ms : List Message) (w : W)
        → connection.registered w ≡ some []
        → (v : W) × (send_all (ok source) ms w ≡ (ok (map (envelope_of source) ms), v))
          × (connection.asked v ≡ connection.asked w)
          × Committed (connection.asked w) (map (envelope_of source) ms) (connection.commit v)
          × (connection.asked (connection.rollback v) ≡ connection.asked w)
    send_all-commit ms w h =
        let es = map (envelope_of source) ms in
        let (v, done, registered, same) = send_all-registered ms w [] h in
        let left : connection.asked (connection.leave v) ≡ connection.asked w =
          connection.leaves v ∙ same in
        (
          v,
          done,
          same,
          subst (Committed (connection.asked w) es) (sym (connection.commits v es registered)) (
              subst (λ l. Committed l es (for_each connection.publish es (connection.leave v))) left
                (for_each-Committed es (connection.leave v))),
          connection.rolls_back v ∙ same,
        )
