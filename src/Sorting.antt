-- ===== src/Sorting.antt =====
-- `slices.SortFunc` behind its documented contract, and `sortCandidates` of
-- internal/replset/replica.go, which calls it with the order of `store.Orderable`.
pub mod Insertion
pub mod Candidates
use mathlib.Core.List.{Perm}
use mongoctl.Prelude.{
  List, [], ◌∷◌, ◌≡◌, ◌⊎◌, Bool, true, false, if◌then◌else◌, ℤ, pos, negsuc, All,
}

abbrev pub is_neg : ℤ → Bool
is_neg (pos n) = false
is_neg (negsuc n) = true

module _ {ℓ} {A : Type ℓ} where
  -- What `SortFunc` asks of the order: strict, and weak.
  pub record IsStrictWeak (lt : A → A → Bool) : Type ℓ where
    pub irrefl : (a : A) → lt a a ≡ false
    pub trans : (a b c : A) → lt a b ≡ true → lt b c ≡ true → lt a c ≡ true
    pub weak : (a b c : A) → lt a c ≡ true → (lt a b ≡ true) ⊎ (lt b c ≡ true)

  -- No element is less than one before it.
  abbrev pub IsSorted : (A → A → Bool) → List A → Type 0
  IsSorted lt [] = Unit
  IsSorted lt (x ∷ xs) = All (λ y. lt y x ≡ false) xs × IsSorted lt xs

  -- The switch of `sortCandidates`.
  unfoldable pub compare_by : (A → A → Bool) → A → A → ℤ
  compare_by less a b = if less a b then negsuc 0 else if less b a then pos 1 else pos 0

-- The library's promise; elements that compare as equal come in any order.
pub record SortFunc {ℓ} (A : Type ℓ) : Type ℓ where
  pub sort : (A → A → ℤ) → List A → List A
  pub sort-Perm : (cmp : A → A → ℤ) (xs : List A) → Perm (sort cmp xs) xs
  pub sort-IsSorted :
      (cmp : A → A → ℤ)
      → IsStrictWeak (λ a b. is_neg (cmp a b))
      → (xs : List A) → IsSorted (λ a b. is_neg (cmp a b)) (sort cmp xs)

unfoldable pub sort_candidates {ℓ} : {A : Type ℓ} → SortFunc A → (A → A → Bool) → List A → List A
unfolding compare_by
sort_candidates slices less candidates = slices.sort (compare_by less) candidates
