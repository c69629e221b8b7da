-- ===== src/Sorting/Candidates.antt =====
-- What `sortCandidates` gives: the same candidates, the best first.
use mathlib.Core.List.{List, Mem, Perm, mem-cons, mem-cons_of_mem, not-mem-nil}
use mathlib.Core.List.Perm
use mathlib.Core.Logic.Or
use mathlib.Core.Bool.{Bool-set}
use mathlib.Core.Path.{subst, fun_ext}
use mongoctl.Prelude.{ℕ, zero, suc, [], ◌∷◌, ◌≡◌, sym, Bool, false, All, take, drop, arith}
use mongoctl.Sorting.{is_neg, IsStrictWeak, IsSorted, SortFunc, compare_by, sort_candidates}

Mem_of_drop {ℓ} : {A : Type ℓ} (n : ℕ) (xs : List A) {m : A} → Mem m (drop n xs) → Mem m xs
Mem_of_drop zero xs h = h
Mem_of_drop (suc n) [] h = h
Mem_of_drop (suc n) (x ∷ xs) h = mem-cons_of_mem x (Mem_of_drop n xs h)

module _ {ℓ} {A : Type ℓ} (less : A → A → Bool) where
  is_neg-compare_by : (a b : A) → is_neg (compare_by less a b) ≡ less a b
  unfolding compare_by
  is_neg-compare_by a b = ground arith

  pub Mem-All :
      (P : A → Bool) (xs : List A) {m : A} → All (λ y. P y ≡ false) xs → Mem m xs → P m ≡ false
  Mem-All P [] h m = absurd (not-mem-nil m)
  Mem-All P (x ∷ xs) (hx, hs) m =
      Or.elim (Bool-set _ _) (mem-cons.0 m) (λ e. rw e hx) (Mem-All P xs hs)

  is_neg_of_compare_by : (λ a b. is_neg (compare_by less a b)) ≡ less
  is_neg_of_compare_by = fun_ext (λ a. fun_ext (λ b. is_neg-compare_by a b))

  pub sort_candidates-Perm :
      (slices : SortFunc A) (xs : List A) → Perm (sort_candidates slices less xs) xs
  unfolding sort_candidates
  sort_candidates-Perm slices xs = slices.sort-Perm (compare_by less) xs

  module _ (order : IsStrictWeak less) (slices : SortFunc A) where
    pub sort_candidates-IsSorted : (xs : List A) → IsSorted less (sort_candidates slices less xs)
    unfolding sort_candidates
    sort_candidates-IsSorted xs =
        subst (λ (lt : A → A → Bool). IsSorted lt (slices.sort (compare_by less) xs))
          is_neg_of_compare_by
          (slices.sort-IsSorted (compare_by less)
            (subst IsStrictWeak (sym is_neg_of_compare_by) order) xs)

    head_best :
        (p : A) (rest : List A) (m : A)
        → IsSorted less (p ∷ rest)
        → Mem m (p ∷ rest)
        → less m p ≡ false
    head_best p rest m (h, hs) mem =
        Or.elim (Bool-set _ _) (mem-cons.0 mem) (λ e. rw e (order.irrefl p))
          (Mem-All (λ y. less y p) rest h)

    -- No candidate is before the one that the sort puts first.
    pub first_is_best :
        (xs : List A) {p : A} {rest : List A}
        → sort_candidates slices less xs ≡ p ∷ rest
        → (m : A) → Mem m xs
        → less m p ≡ false
    first_is_best xs {p} {rest} e m mem =
        head_best p rest m (subst (IsSorted less) e (sort_candidates-IsSorted xs))
          (subst (Mem m) e ((Perm.mem_iff (sort_candidates-Perm slices xs)).1 mem))

    split_sorted :
        (n : ℕ) (xs : List A) (a b : A)
        → IsSorted less xs
        → Mem a (take n xs)
        → Mem b (drop n xs)
        → less b a ≡ false
    split_sorted zero xs a b h ma mb = absurd (not-mem-nil ma)
    split_sorted (suc n) [] a b h ma mb = absurd (not-mem-nil ma)
    split_sorted (suc n) (x ∷ xs) a b (hx, h) ma mb =
        Or.elim (Bool-set _ _) (mem-cons.0 ma)
          (λ e. rw e (Mem-All (λ y. less y x) xs hx (Mem_of_drop n xs mb)))
          (λ m. split_sorted n xs a b h m mb)

    -- Under a strict weak order, no candidate that the sort puts after the first `n` is before one
    -- of those.
    pub taken_before_left :
        (n : ℕ) (xs : List A) (a b : A)
        → Mem a (take n (sort_candidates slices less xs))
        → Mem b (drop n (sort_candidates slices less xs))
        → less b a ≡ false
    taken_before_left n xs a b = split_sorted n _ a b (sort_candidates-IsSorted xs)
