-- ===== src/Prelude/Texts.antt =====
-- Go's strings: lists of bytes, with their equality and their bytewise order.
use Prim.Native.Nat.{ℕ}
use Prim.Native.Char.{code}
use Prim.Native.String.{String}
use mathlib.Core.Path.{◌≡◌, refl}
use mathlib.Core.Logic.{◌≢◌, ◌↔◌, ◌⊎◌, inl, inr}
use mathlib.Core.Bool.{Bool, true, false, ◌&&◌}
use mathlib.Core.List.{List, [], ◌∷◌}
use native.Mathlib.Omega.{arith}
use mongoctl.Prelude.Tests.{ltb, ◌==◌, if◌then◌else◌}
use mongoctl.Prelude.Lists.{All}

abbrev pub Bytes : Type 0
Bytes = List ℕ

-- The bytes of an ASCII text.
abbrev pub codes : String → Bytes
codes String.[] = []
codes (String.◌∷◌ c s) = code c ∷ codes s

abbrev pub Lacks : ℕ → Bytes → Type 0
Lacks b = All (λ c. c ≢ b)

-- `a == b` on strings.
unfoldable pub str_eq : Bytes → Bytes → Bool
str_eq [] [] = true
str_eq [] (y ∷ ys) = false
str_eq (x ∷ xs) [] = false
str_eq (x ∷ xs) (y ∷ ys) = (x == y) && str_eq xs ys

-- `a < b` on strings.
unfoldable pub str_lt : Bytes → Bytes → Bool
str_lt [] [] = false
str_lt [] (y ∷ ys) = true
str_lt (x ∷ xs) [] = false
str_lt (x ∷ xs) (y ∷ ys) = let rest = str_lt xs ys in if x == y then rest else ltb x y

pub str_eq→≡ : (a b : Bytes) → str_eq a b ≡ true → a ≡ b
unfolding str_eq
str_eq→≡ [] [] h = refl
str_eq→≡ [] (y ∷ ys) h = cc
str_eq→≡ (x ∷ xs) [] h = cc
str_eq→≡ (x ∷ xs) (y ∷ ys) h = ground (arith, str_eq→≡ xs ys)

pub str_eq_self : (a : Bytes) → str_eq a a ≡ true
unfolding str_eq
str_eq_self [] = refl
str_eq_self (x ∷ xs) = ground (arith, str_eq_self xs)

pub str_lt_irrefl : (a : Bytes) → str_lt a a ≡ false
unfolding str_lt
str_lt_irrefl [] = refl
str_lt_irrefl (x ∷ xs) = ground (arith, str_lt_irrefl xs)

pub str_lt_trans : (a b c : Bytes) → str_lt a b ≡ true → str_lt b c ≡ true → str_lt a c ≡ true
unfolding str_lt
str_lt_trans [] [] c h k = cc
str_lt_trans [] (y ∷ ys) [] h k = cc
str_lt_trans [] (y ∷ ys) (z ∷ zs) h k = refl
str_lt_trans (x ∷ xs) [] c h k = cc
str_lt_trans (x ∷ xs) (y ∷ ys) [] h k = cc
str_lt_trans (x ∷ xs) (y ∷ ys) (z ∷ zs) h k = ground (arith, str_lt_trans xs ys zs)

-- Two strings of which neither is below the other are one string.
pub str_lt_total : (a b : Bytes) → str_lt a b ≡ false → str_lt b a ≡ false → a ≡ b
unfolding str_lt
str_lt_total [] [] h k = refl
str_lt_total [] (y ∷ ys) h k = cc
str_lt_total (x ∷ xs) [] h k = cc
str_lt_total (x ∷ xs) (y ∷ ys) h k = ground (arith, str_lt_total xs ys)

-- A string between two others, or on one side of both: `<` is a weak order.
pub str_lt_weak : (a b c : Bytes) → str_lt a c ≡ true → (str_lt a b ≡ true) ⊎ (str_lt b c ≡ true)
unfolding str_lt
str_lt_weak [] [] c h = inr h
str_lt_weak [] (y ∷ ys) c h = inl refl
str_lt_weak (x ∷ xs) b [] h = cc
str_lt_weak (x ∷ xs) [] (z ∷ zs) h = inr refl
str_lt_weak (x ∷ xs) (y ∷ ys) (z ∷ zs) h = ground (arith, str_lt_weak xs ys zs)

pub str_eq_iff : (a b : Bytes) → (str_eq a b ≡ true) ↔ (a ≡ b)
str_eq_iff a b = (str_eq→≡ a b, λ e. rw e (str_eq_self b))

pub str_eq-true : {a b : Bytes} → a ≡ b → str_eq a b ≡ true
str_eq-true {a} {b} e = (str_eq_iff a b).1 e

pub str_eq-false : {a b : Bytes} → a ≢ b → str_eq a b ≡ false
str_eq-false {a} {b} n = ground (arith, str_eq_iff a b)
