-- ===== src/Prelude/Outcomes.antt =====
-- What a call gives back: a value, an error, or a panic; and calls that act on a state.
use mathlib.Core.Path.{◌≡◌, refl, ap}
use mathlib.Core.Logic.{◌⊎◌, inl, inr}
use mongoctl.Prelude.Texts.{Bytes}

-- An `error` of the program or of a library: a failed command keeps its server-side name.
pub data Error : Type 0 where
  command_error : Bytes → Error
  failure : Bytes → Error

pub data Outcome {ℓ} (A : Type ℓ) : Type ℓ where
  ok : A → Outcome A
  err : Error → Outcome A
  panic : Outcome A

-- A call on a state `W`; what it did before an error or a panic stays done.
abbrev pub Io : Type 0 → Type 0 → Type 0
Io W A = W → Outcome A × W

module _ {W A B : Type 0} where
  abbrev pub bind_with : Outcome A → (A → Io W B) → Io W B
  bind_with (ok a) f w = f a w
  bind_with (err e) f w = (err e, w)
  bind_with panic f w = (panic, w)

  infixl 5 ◌>>=◌ ◌>>◌
  abbrev pub ◌>>=◌ : Io W A → (A → Io W B) → Io W B
  ◌>>=◌ m f w = let (r, w') = m w in bind_with r f w'

  abbrev pub ◌>>◌ : Io W A → Io W B → Io W B
  ◌>>◌ m n = m >>= λ _. n

module _ {W A B : Type 0} where
  -- `if err != nil { … } else { … }`: the handler sees the error; a panic passes through.
  abbrev pub handle : Outcome A → (Error → Io W B) → (A → Io W B) → Io W B
  handle (ok a) f g w = g a w
  handle (err e) f g w = f e w
  handle panic f g w = (panic, w)

module _ {W A : Type 0} where
  abbrev pub pure : A → Io W A
  pure a w = (ok a, w)

  abbrev pub raise : Error → Io W A
  raise e w = (err e, w)

  abbrev pub abort : Io W A
  abort w = (panic, w)

module _ {ℓ} {A : Type ℓ} where
  from_ok : A → Outcome A → A
  from_ok d (ok a) = a
  from_ok d (err e) = d
  from_ok d panic = d

  pub ok-injective : {a b : A} → ok a ≡ ok b → a ≡ b
  unfolding from_ok
  ok-injective {a} p = ap (from_ok a) p

  pub Outcome-cases :
      (r : Outcome A) → ((a : A) × (r ≡ ok a)) ⊎ (((e : Error) × (r ≡ err e)) ⊎ (r ≡ panic))
  Outcome-cases (ok a) = inl (a, refl)
  Outcome-cases (err e) = inr (inl (e, refl))
  Outcome-cases panic = inr (inr refl)
