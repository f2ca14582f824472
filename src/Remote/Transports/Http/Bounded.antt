-- ===== src/Remote/Transports/Http/Bounded.antt =====
-- `_read_bounded` ends, whatever the peer sends, and lets no body through that is too long.
use django_event_bus.Prelude.{
  ℕ, zero, suc, ◌+◌, ◌≤◌, ◌<◌, [], ◌++◌, Option, none, some, ltb, ◌≡◌, refl, ap, arith, Bool-cases,
  inl, inr, ltb→lt, ltb→le,
}
use django_event_bus.Prelude.Lists.{length, length-append}
use django_event_bus.Exceptions.{Error, Result, ok, err, service_unavailable}
use django_event_bus.Exceptions.Pure.{ok-injective}
use django_event_bus.Platform.{Bytes}
use django_event_bus.Remote.Transports.Http.{on_block, read_bounded, read_body}

-- How the loop of `_read_bounded` runs from the n-th block on, with the body so far, to what it
-- returns or raises.
pub data Reads (content : ℕ → Result (Option Bytes)) (max_bytes : ℕ)
    : ℕ → Bytes → Result Bytes → Type 0 where
  finished : {n : ℕ} {body : Bytes} → content n ≡ ok none → Reads content max_bytes n body (ok body)
  broken :
      {n : ℕ} {body : Bytes} {x : Error}
      → content n ≡ err x
      → Reads content max_bytes n body (err x)
  too_long :
      {n : ℕ} {body chunk : Bytes}
      → content n ≡ ok (some chunk)
      → max_bytes < length (body ++ chunk)
      → Reads content max_bytes n body (err service_unavailable)
  next :
      {n : ℕ} {body chunk : Bytes} {r : Result Bytes}
      → content n ≡ ok (some chunk)
      → length (body ++ chunk) ≤ max_bytes
      → Reads content max_bytes (n + 1) (body ++ chunk) r
      → Reads content max_bytes n body r

module _ (content : ℕ → Result (Option Bytes)) (max_bytes : ℕ)
    (blocks : (n : ℕ) (chunk : Bytes) → content n ≡ ok (some chunk) → 1 ≤ length chunk) where
  read_bounded-Reads :
      (fuel n : ℕ) (body : Bytes)
      → length body ≤ max_bytes
      → max_bytes + 1 ≤ fuel + length body
      → Reads content max_bytes n body (read_bounded content max_bytes fuel n body)
  unfolding read_bounded
  read_bounded-Reads zero n body short enough = absurd (omega (arith, short, enough))
  read_bounded-Reads (suc fuel) n body short enough =
      of
        (λ chunk e fits.
          read_bounded-Reads fuel (n + 1) (body ++ chunk) fits
            (omega (arith, enough, blocks n chunk e, length-append body chunk)))
        (content n) refl
    where
      more : Bytes → Result Bytes
      more longer = read_bounded content max_bytes fuel (n + 1) longer

      Later : Type 0
      Later =
          (chunk : Bytes)
          → content n ≡ ok (some chunk)
          → length (body ++ chunk) ≤ max_bytes
          → Reads content max_bytes (n + 1) (body ++ chunk) (more (body ++ chunk))

      of :
          Later
          → (o : Result (Option Bytes)) → content n ≡ o
          → Reads content max_bytes n body (on_block max_bytes body more (content n))
      of later (err x) e = rw e (broken e)
      of later (ok none) e = rw e (finished e)
      of later (ok (some chunk)) e = elim (Bool-cases (ltb max_bytes (length (body ++ chunk)))) [
        | inl over ↦ rw (e, over) (too_long e (ltb→lt _ _ over))
        | inr within ↦
            let fits = ltb→le _ _ within in rw (e, within) (next e fits (later chunk e fits))
      ]

-- What the loop returns is never longer than the limit.
Reads-bounded :
    (content : ℕ → Result (Option Bytes)) (max_bytes n : ℕ) (body : Bytes) (r : Result Bytes)
    → Reads content max_bytes n body r
    → length body ≤ max_bytes
    → (whole : Bytes) → r ≡ ok whole
    → length whole ≤ max_bytes
Reads-bounded content max_bytes n body r (finished e) short whole same =
    ground (arith, short, ap length (ok-injective same))
Reads-bounded content max_bytes n body r (broken e) short whole same = absurd (cc (same))
Reads-bounded content max_bytes n body r (too_long e over) short whole same = absurd (cc (same))
Reads-bounded content max_bytes n body r (next {chunk = chunk} e fits later) short whole same =
    Reads-bounded content max_bytes (n + 1) (body ++ chunk) r later fits whole same

-- If every block that the connection gives holds a byte, reading a body ends, also when the
-- blocks never do: it has returned a body that is not longer than the limit, or raised.
pub read_body-Reads :
    (content : ℕ → Result (Option Bytes)) (max_bytes : ℕ)
    → ((n : ℕ) (chunk : Bytes) → content n ≡ ok (some chunk) → 1 ≤ length chunk)
    → Reads content max_bytes 0 [] (read_body content max_bytes)
      × ((whole : Bytes) → read_body content max_bytes ≡ ok whole → length whole ≤ max_bytes)
read_body-Reads content max_bytes blocks =
    let run =
      read_bounded-Reads content max_bytes blocks (max_bytes + 1) 0 [] (omega arith)
        (omega arith) in
    (run, Reads-bounded content max_bytes 0 [] _ run (omega arith))
