-- ===== src/Program/Laws.antt =====
-- What the package viper documents of its keys, defaults and variables.
use mongoctl.Prelude.{
  ℕ, ◌==◌, [], ◌∷◌, Bool, true, false, not, ◌&&◌, ◌||◌, ◌≡◌, refl, sym, arith, Bytes, str_eq,
  str_eq-false, if◌then◌else◌, map,
}
use mongoctl.Text.Parts.{to_lower}
use mathlib.Core.Path.{subst}
use mongoctl.Program.{Value, Viper}

-- Is the second key the first one, or one below it?
unfoldable pub within : Bytes → Bytes → Bool
within [] [] = true
within [] (y ∷ ys) = y == b'.'
within (x ∷ xs) [] = false
within (x ∷ xs) (y ∷ ys) = (x == y) && within xs ys

-- Keys that are neither one nor one below the other, whatever their case.
unfoldable pub apart : Bytes → Bytes → Bool
unfolding within
apart k k' = let l = map to_lower k in let l' = map to_lower k' in not (within l l' || within l' l)

within_self : (k : Bytes) → within k k ≡ true
unfolding within
within_self [] = refl
within_self (x ∷ xs) = ground (arith, within_self xs)

-- Keys that are apart are not one.
pub apart-str_eq :
    (k k' : Bytes) → apart k k' ≡ true → str_eq (map to_lower k) (map to_lower k') ≡ false
unfolding apart
apart-str_eq k k' h = str_eq-false (λ e. clash (
    subst (λ (l : Bytes). not (within (map to_lower k) l || within l (map to_lower k)) ≡ true)
      (sym e) h))
  where
    clash :
        not (within (map to_lower k) (map to_lower k) || within (map to_lower k) (map to_lower k))
          ≡ true
        → ⊥
    clash bad = ground (arith, within_self (map to_lower k))

abbrev pub or_default : (Bytes → Bytes) → Bytes → Bytes → Bytes
or_default env name d = if str_eq (env name) [] then d else env name

-- What the package documents, for the environment `env`, which gives an empty text where a variable
-- is not set: for a key that nothing was set for or bound to, the variable that it is bound to goes
-- before the default if it is not empty; and a key is not changed by those which are neither above
-- nor below it, where a key's case does not matter. `IsUnset` says that nothing was set for a key
-- or bound to it, nor for a key above or below it. `to_uint` converts the text of a variable.
pub record IsViper {V : Type 0} (vi : Viper V) (env : Bytes → Bytes) (to_uint : Bytes → ℕ)
    (IsUnset : Bytes → V → Type 0) : Type 0 where
  pub text_read :
      (k d e : Bytes) (v : V)
      → IsUnset k v
      → vi.get_string k (vi.bind_env k e (vi.set_default k (Value.txt d) v)) ≡ or_default env e d
  pub number_read :
      (k : Bytes) (d : ℕ) (e : Bytes) (v : V)
      → IsUnset k v
      → vi.get_uint k (vi.bind_env k e (vi.set_default k (Value.num d) v))
        ≡ (if str_eq (env e) [] then d else to_uint (env e))
  pub default_apart :
      (k k' : Bytes) (x : Value) (v : V)
      → apart k k' ≡ true
      → (vi.get_string k (vi.set_default k' x v) ≡ vi.get_string k v)
        × (vi.get_uint k (vi.set_default k' x v) ≡ vi.get_uint k v)
        × (IsUnset k v → IsUnset k (vi.set_default k' x v))
  pub env_apart :
      (k k' e : Bytes) (v : V)
      → apart k k' ≡ true
      → (vi.get_string k (vi.bind_env k' e v) ≡ vi.get_string k v)
        × (vi.get_uint k (vi.bind_env k' e v) ≡ vi.get_uint k v)
        × (IsUnset k v → IsUnset k (vi.bind_env k' e v))
