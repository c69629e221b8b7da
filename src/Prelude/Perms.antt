-- ===== src/Prelude/Perms.antt =====
-- Permutations: what they keep.
use mathlib.Core.List.{List, [], ◌∷◌, map, Permᴰ, Perm}
use mathlib.Core.Path.{◌≡◌, refl, sym, ap, ◌∙◌, subst}
use mathlib.Core.Logic.{∥∥₁_elim}
use mathlib.Core.HLevel.{×_prop}
use native.Mathlib.Nat.{ℕ_set}
use Prim.Native.Nat.{suc}
use mongoctl.Prelude.Lists.{length, All}

pub All-Permᴰ {ℓ κ} :
    {A : Type ℓ} (P : A → Type κ) {xs ys : List A} → Permᴰ xs ys → All P xs → All P ys
All-Permᴰ P Permᴰ.nil h = h
All-Permᴰ P (Permᴰ.cons e p) (hx, hs) = (subst P e hx, All-Permᴰ P p hs)
All-Permᴰ P (Permᴰ.swap e f) (hx, (hy, hs)) = (subst P f hy, (subst P e hx, hs))
All-Permᴰ P (Permᴰ.trans p q) h = All-Permᴰ P q (All-Permᴰ P p h)

pub length-Permᴰ {ℓ} : {A : Type ℓ} {xs ys : List A} → Permᴰ xs ys → length xs ≡ length ys
length-Permᴰ Permᴰ.nil = refl
length-Permᴰ (Permᴰ.cons e p) = ap suc (length-Permᴰ p)
length-Permᴰ (Permᴰ.swap e f) = refl
length-Permᴰ (Permᴰ.trans p q) = length-Permᴰ p ∙ length-Permᴰ q

pub map-Permᴰ {ℓ κ} :
    {A : Type ℓ} {B : Type κ} (f : A → B) {xs ys : List A}
    → Permᴰ xs ys
    → Permᴰ (map f xs) (map f ys)
map-Permᴰ f Permᴰ.nil = Permᴰ.nil
map-Permᴰ f (Permᴰ.cons e p) = Permᴰ.cons (ap f e) (map-Permᴰ f p)
map-Permᴰ f (Permᴰ.swap e g) = Permᴰ.swap (ap f e) (ap f g)
map-Permᴰ f (Permᴰ.trans p q) = Permᴰ.trans (map-Permᴰ f p) (map-Permᴰ f q)

pub Permᴰ-sym {ℓ} : {A : Type ℓ} {xs ys : List A} → Permᴰ xs ys → Permᴰ ys xs
Permᴰ-sym Permᴰ.nil = Permᴰ.nil
Permᴰ-sym (Permᴰ.cons e p) = Permᴰ.cons (sym e) (Permᴰ-sym p)
Permᴰ-sym (Permᴰ.swap e f) = Permᴰ.swap (sym f) (sym e)
Permᴰ-sym (Permᴰ.trans p q) = Permᴰ.trans (Permᴰ-sym q) (Permᴰ-sym p)

pub length-Perm {ℓ} : {A : Type ℓ} {xs ys : List A} → Perm xs ys → length xs ≡ length ys
length-Perm p = ∥∥₁_elim p (ℕ_set _ _) length-Permᴰ

pub All-prop {ℓ κ} :
    {A : Type ℓ} (P : A → Type κ) (xs : List A) → ((a : A) → IsProp (P a)) → IsProp (All P xs)
All-prop P [] h = hlevel
All-prop P (x ∷ xs) h = ×_prop (h x) (All-prop P xs h)

pub All-Perm {ℓ κ} :
    {A : Type ℓ} (P : A → Type κ) {xs ys : List A}
    → ((a : A) → IsProp (P a))
    → Perm xs ys
    → All P xs
    → All P ys
All-Perm P {xs} {ys} prop p h = ∥∥₁_elim p (All-prop P ys prop) (λ d. All-Permᴰ P d h)
