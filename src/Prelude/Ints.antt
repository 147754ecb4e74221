-- ===== src/Prelude/Ints.antt =====
-- Go's `int` where it may be negative.
use Prim.Native.Nat.{ℕ}
use mathlib.Core.Bool.{Bool, false}
use suse_ai_up.Prelude.Tests.{nat_eq}

pub data ℤ : Type 0 where
  pos negsuc : ℕ → ℤ

abbrev pub int_eq : ℤ → ℤ → Bool
int_eq (pos m) (pos n) = nat_eq m n
int_eq (negsuc m) (negsuc n) = nat_eq m n
int_eq (pos m) (negsuc n) = false
int_eq (negsuc m) (pos n) = false
