-- ===== src/Sorting/Insertion.antt =====
-- The contract of `slices.SortFunc` can be met: insertion sort meets it.
use mathlib.Core.List.{Perm}
use mathlib.Core.List.Perm
use mongoctl.Prelude.{
  List, [], ◌∷◌, ◌≡◌, true, false, if◌then◌else◌, ℤ, All, Bool-cases, inl, inr, arith,
}
use mongoctl.Sorting.{is_neg, IsStrictWeak, IsSorted, SortFunc}

module _ {ℓ} {A : Type ℓ} (cmp : A → A → ℤ) where
  unfoldable pub insert : A → List A → List A
  insert x [] = x ∷ []
  insert x (y ∷ ys) = let rest = insert x ys in if is_neg (cmp x y) then x ∷ y ∷ ys else y ∷ rest

  unfoldable pub insertion_sort : List A → List A
  unfolding insert
  insertion_sort [] = []
  insertion_sort (x ∷ xs) = insert x (insertion_sort xs)

  insert-Perm : (x : A) (xs : List A) → Perm (insert x xs) (x ∷ xs)
  unfolding insert
  insert-Perm x [] = Perm.refl (x ∷ [])
  insert-Perm x (y ∷ ys) = elim (Bool-cases (is_neg (cmp x y))) [
    | inl lt ↦ rw lt (Perm.refl (x ∷ y ∷ ys))
    | inr ge ↦ rw ge (Perm.trans (Perm.cons y (insert-Perm x ys)) (Perm.swap x y ys))
  ]

  pub insertion_sort-Perm : (xs : List A) → Perm (insertion_sort xs) xs
  unfolding insertion_sort
  insertion_sort-Perm [] = Perm.refl []
  insertion_sort-Perm (x ∷ xs) =
      Perm.trans (insert-Perm x (insertion_sort xs)) (Perm.cons x (insertion_sort-Perm xs))

  All-insert : (P : A → Type 0) (x : A) (xs : List A) → P x → All P xs → All P (insert x xs)
  unfolding insert
  All-insert P x [] h hs = (h, tt)
  All-insert P x (y ∷ ys) h (hy, hs) = elim (Bool-cases (is_neg (cmp x y))) [
    | inl lt ↦ rw lt (h, (hy, hs))
    | inr ge ↦ rw ge (hy, All-insert P x ys h hs)
  ]

  module _ (order : IsStrictWeak (λ a b. is_neg (cmp a b))) where
    ge-All :
        (x y : A) (ys : List A)
        → is_neg (cmp x y) ≡ true
        → All (λ z. is_neg (cmp z y) ≡ false) ys
        → All (λ z. is_neg (cmp z x) ≡ false) ys
    ge-All x y [] h hs = tt
    ge-All x y (z ∷ zs) h (hz, hs) = (ground (arith, order.trans z x y), ge-All x y zs h hs)

    insert-IsSorted :
        (x : A) (xs : List A)
        → IsSorted (λ a b. is_neg (cmp a b)) xs
        → IsSorted (λ a b. is_neg (cmp a b)) (insert x xs)
    unfolding insert
    insert-IsSorted x [] h = (tt, tt)
    insert-IsSorted x (y ∷ ys) (hy, hs) = elim (Bool-cases (is_neg (cmp x y))) [
      | inl lt ↦
          rw lt ((ground (arith, order.trans y x y, order.irrefl y), ge-All x y ys lt hy), (hy, hs))
      | inr ge ↦ rw ge (All-insert _ x ys ge hy, insert-IsSorted x ys hs)
    ]

    pub insertion_sort-IsSorted :
        (xs : List A) → IsSorted (λ a b. is_neg (cmp a b)) (insertion_sort xs)
    unfolding insertion_sort
    insertion_sort-IsSorted [] = tt
    insertion_sort-IsSorted (x ∷ xs) =
        insert-IsSorted x (insertion_sort xs) (insertion_sort-IsSorted xs)

-- Go sorts a list of at most twelve elements so.
unfoldable pub insertion {ℓ} : {A : Type ℓ} → SortFunc A
unfolding insertion_sort
insertion = record {
  sort = insertion_sort;
  sort-Perm = insertion_sort-Perm;
  sort-IsSorted = insertion_sort-IsSorted;
}
