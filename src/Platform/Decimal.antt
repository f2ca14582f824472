-- ===== src/Platform/Decimal.antt =====
-- Python's `str(n).encode()` and `int(text)` on decimal digits, over bytes.
use django_event_bus.Prelude.{
  ℕ, zero, suc, ◌+◌, ◌-◌, ◌*◌, ◌/◌, ◌%◌, ◌<◌, List, [], ◌∷◌, true, Option, none, some, ◌≡◌, refl,
  arith, ltb, leb, ◌&&◌, if◌then◌else◌, Bool-cases, inl, inr, ◌≤◌, ◌∙◌, ltb→lt, ltb→le,
}

abbrev digit : ℕ → ℕ
digit n = 48 + n % 10

-- The digits of `n` in front of `acc`; the fuel `n + 1` is enough, since `n / 10 < n`.
digits : ℕ → ℕ → List ℕ → List ℕ
digits zero n acc = acc
digits (suc f) n acc =
    let rest = digits f (n / 10) (digit n ∷ acc) in if ltb n 10 then digit n ∷ acc else rest

unfoldable pub show : ℕ → List ℕ
unfolding digits
show n = digits (n + 1) n []

-- The number that the digits spell behind `acc`, and `none` at a byte that is no digit.
unfoldable pub read_from : ℕ → List ℕ → Option ℕ
read_from acc [] = some acc
read_from acc (c ∷ cs) =
    let rest = read_from (acc * 10 + (c - 48)) cs in if leb 48 c && leb c 57 then rest else none

read_from-digit :
    (m n : ℕ) (acc : List ℕ) → m * 10 + n % 10 ≡ n → read_from m (digit n ∷ acc) ≡ read_from n acc
unfolding read_from
read_from-digit m n acc h =
    let shift : m * 10 + (digit n - 48) ≡ n = omega arith in
    let is_digit : (leb 48 (digit n) && leb (digit n) 57) ≡ true = ground arith in
    rw (is_digit, shift)

-- Digits in front of `acc` bring the reader to `acc` with their number.
read_from-digits : (f n : ℕ) (acc : List ℕ) → n < f → read_from 0 (digits f n acc) ≡ read_from n acc
unfolding digits read_from
read_from-digits zero n acc h = absurd (omega arith)
read_from-digits (suc f) n acc h =
    let one = λ (small : n < 10). read_from-digit 0 n acc (omega arith) in
    let more = λ (big : 10 ≤ n).
      read_from-digits f (n / 10) (digit n ∷ acc) (omega arith)
      ∙ read_from-digit (n / 10) n acc (omega arith) in
    elim (Bool-cases (ltb n 10)) [
      | inl small ↦ rw small (one (ltb→lt n 10 small))
      | inr big ↦ rw big (more (ltb→le n 10 big))
    ]

digits-ne-nil :
    (f n c : ℕ) (acc : List ℕ) → (d : ℕ) × (cs : List ℕ) × (digits f n (c ∷ acc) ≡ d ∷ cs)
unfolding digits
digits-ne-nil zero n c acc = (c, acc, refl)
digits-ne-nil (suc f) n c acc =
    let (d, cs, e) = digits-ne-nil f (n / 10) (digit n) (c ∷ acc) in
    elim (Bool-cases (ltb n 10)) [
      | inl small ↦ (digit n, c ∷ acc, rw small)
      | inr big ↦ (d, cs, rw big e)
    ]

pub show-ne-nil : (n : ℕ) → (d : ℕ) × (cs : List ℕ) × (show n ≡ d ∷ cs)
unfolding show digits
show-ne-nil n =
    let (d, cs, e) = digits-ne-nil n (n / 10) (digit n) [] in
    let step : n + 1 ≡ suc n = omega arith in
    elim (Bool-cases (ltb n 10)) [
      | inl small ↦ (digit n, [], rw (step, small))
      | inr big ↦ (d, cs, rw (step, big) e)
    ]

-- Reading what was printed gives the number back.
pub read_from-show : (n : ℕ) → read_from 0 (show n) ≡ some n
unfolding show read_from
read_from-show n = read_from-digits (n + 1) n [] (omega arith)
