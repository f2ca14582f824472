-- ===== src/Platform/Keys.antt =====
-- Signed integers, and the values that may be keys of a Python `dict`: `True` and 1 are one key.
use django_event_bus.Prelude.{
  ℕ, String, ◌≡◌, ◌↔◌, Bool, true, false, arith, Eq, ◌==◌, string_eq, eq_iff, nat_beq,
}

-- `negsuc n` is -(n + 1).
pub data ℤ : Type 0 where
  pos : ℕ → ℤ
  negsuc : ℕ → ℤ

pub data Key : Type 0 where
  nothing : Key
  number : ℤ → Key
  text : String → Key

abbrev pub int_beq : ℤ → ℤ → Bool
int_beq (pos a) (pos b) = nat_beq a b
int_beq (negsuc a) (negsuc b) = nat_beq a b
int_beq _ _ = false

pub int_beq_iff : (a b : ℤ) → (int_beq a b ≡ true) ↔ (a ≡ b)
int_beq_iff (pos a) (pos b) = ground arith
int_beq_iff (pos a) (negsuc b) = ground arith
int_beq_iff (negsuc a) (negsuc b) = ground arith
int_beq_iff (negsuc a) (pos b) = ground arith

instance abbrev pub int_eq : Eq ℤ
int_eq = record { beq = int_beq; beq_iff = int_beq_iff }

abbrev pub key_beq : Key → Key → Bool
key_beq nothing nothing = true
key_beq (number a) (number b) = int_beq a b
key_beq (text s) (text t) = s == t
key_beq _ _ = false

pub key_beq_iff : (a b : Key) → (key_beq a b ≡ true) ↔ (a ≡ b)
key_beq_iff nothing nothing = ground arith
key_beq_iff nothing (number b) = ground arith
key_beq_iff nothing (text b) = ground arith
key_beq_iff (number a) nothing = ground arith
key_beq_iff (number a) (number b) = ground (arith, int_beq_iff a b)
key_beq_iff (number a) (text b) = ground arith
key_beq_iff (text a) nothing = ground arith
key_beq_iff (text a) (number b) = ground arith
key_beq_iff (text a) (text b) = ground (arith, eq_iff a b)

instance abbrev pub key_eq : Eq Key
key_eq = record { beq = key_beq; beq_iff = key_beq_iff }
