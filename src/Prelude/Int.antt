-- ===== src/Prelude/Int.antt =====
-- Go's signed 64-bit integers, as integers: the program only compares and passes them on.
use Prim.Native.Nat.{ℕ}
use mathlib.Core.Bool.{Bool, true, false}
use mathlib.Core.Path.{◌≡◌}
use mathlib.Core.Logic.{◌↔◌}
use native.Mathlib.Omega.{arith}
use external_dns.Prelude.Base.{eqb, ltb}
use external_dns.Prelude.Equality.{Comparable}

-- `negsuc n` is -(n + 1).
pub data ℤ : Type 0 where
  pos : ℕ → ℤ
  negsuc : ℕ → ℤ

-- `a == b`
abbrev pub int_beq : ℤ → ℤ → Bool
int_beq (pos m) (pos n) = eqb m n
int_beq (pos m) (negsuc n) = false
int_beq (negsuc m) (pos n) = false
int_beq (negsuc m) (negsuc n) = eqb m n

-- `a < b`
abbrev pub int_ltb : ℤ → ℤ → Bool
int_ltb (pos m) (pos n) = ltb m n
int_ltb (pos m) (negsuc n) = false
int_ltb (negsuc m) (pos n) = true
int_ltb (negsuc m) (negsuc n) = ltb n m

pub int_beq_iff : (a b : ℤ) → (int_beq a b ≡ true) ↔ (a ≡ b)
int_beq_iff (pos m) (pos n) = ground arith
int_beq_iff (pos m) (negsuc n) = ground arith
int_beq_iff (negsuc m) (pos n) = ground arith
int_beq_iff (negsuc m) (negsuc n) = ground arith

instance abbrev pub int_eq : Comparable ℤ
int_eq = record { equals = int_beq; equals_iff = int_beq_iff }
