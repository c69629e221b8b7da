-- ===== src/Prelude/Int.antt =====
-- Go's signed integers.
use Prim.Native.Nat.{ℕ, zero, suc}
use mathlib.Core.Path.{◌≡◌, refl}
use mathlib.Core.Bool.{Bool, true, false}
use native.Mathlib.Omega.{arith}
use mongoctl.Prelude.Tests.{◌==◌}

-- `negsuc n` is -(n + 1).
pub data ℤ : Type 0 where
  pos : ℕ → ℤ
  negsuc : ℕ → ℤ

abbrev pub neg : ℕ → ℤ
neg zero = pos zero
neg (suc n) = negsuc n

abbrev pub int_eq : ℤ → ℤ → Bool
int_eq (pos a) (pos b) = a == b
int_eq (pos a) (negsuc b) = false
int_eq (negsuc a) (pos b) = false
int_eq (negsuc a) (negsuc b) = a == b

pub int_eq→≡ : (a b : ℤ) → int_eq a b ≡ true → a ≡ b
int_eq→≡ (pos a) (pos b) h = ground arith
int_eq→≡ (pos a) (negsuc b) h = cc
int_eq→≡ (negsuc a) (pos b) h = cc
int_eq→≡ (negsuc a) (negsuc b) h = ground arith

pub int_eq_self : (a : ℤ) → int_eq a a ≡ true
int_eq_self (pos a) = ground arith
int_eq_self (negsuc a) = ground arith

pub int_eq_sym : (a b : ℤ) → int_eq a b ≡ false → int_eq b a ≡ false
int_eq_sym (pos a) (pos b) h = ground arith
int_eq_sym (pos a) (negsuc b) h = refl
int_eq_sym (negsuc a) (pos b) h = refl
int_eq_sym (negsuc a) (negsuc b) h = ground arith
