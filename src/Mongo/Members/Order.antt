-- ===== src/Mongo/Members/Order.antt =====
-- Members in another order: what a `range` over the map may give.
use mathlib.Core.List.{List, [], ◌∷◌, map, Permᴰ}
use mathlib.Core.Path.{subst, subst₂}
use mongoctl.Prelude.{◌≡◌, refl, ap, some, false, int_eq, int_eq_self, int_eq_sym, All}
use mongoctl.Prelude.Perms.{All-Permᴰ}
use mongoctl.Mongo.Types.{Member}
use mongoctl.Mongo.Members.{MemberMap, find}
use mongoctl.Mongo.Members.Laws.{IsDistinct, entries}

abbrev IsApart : Member → List Member → Type 0
IsApart v = All (λ w. int_eq v.id w.id ≡ false)

pub IsDistinct-Permᴰ : {vs ws : List Member} → Permᴰ vs ws → IsDistinct vs → IsDistinct ws
IsDistinct-Permᴰ Permᴰ.nil h = h
IsDistinct-Permᴰ (Permᴰ.cons {l₂ = l} e p) (a, h) =
    (subst (λ (v : Member). IsApart v l) e (All-Permᴰ _ p a), IsDistinct-Permᴰ p h)
IsDistinct-Permᴰ (Permᴰ.swap {a = a} {b = b} {l = l} e f) ((ab, al), (bl, h)) =
    subst₂ (λ (v w : Member). IsDistinct (v ∷ w ∷ l)) f e ((int_eq_sym a.id b.id ab, bl), (al, h))
IsDistinct-Permᴰ (Permᴰ.trans p q) h = IsDistinct-Permᴰ q (IsDistinct-Permᴰ p h)

pub map-entries : (vs : List Member) → map (λ e. e.1) (entries vs) ≡ vs
map-entries [] = refl
map-entries (v ∷ vs) = ap (λ (l : List Member). v ∷ l) (map-entries vs)

-- Each of the members that the entries hold is found.
abbrev pub IsFound : MemberMap → List Member → Type 0
IsFound m = All (λ v. find v.id m ≡ some v)

find_later :
    (v : Member) (m : MemberMap) (ws : List Member)
    → IsApart v ws
    → IsFound m ws
    → IsFound ((v.id, v) ∷ m) ws
unfolding find
find_later v m [] a h = tt
find_later v m (w ∷ ws) (aw, as') (hw, hs) = (rw aw hw, find_later v m ws as' hs)

pub find-entries : (vs : List Member) → IsDistinct vs → IsFound (entries vs) vs
unfolding find
find-entries [] h = tt
find-entries (v ∷ vs) (a, h) =
    (rw (int_eq_self v.id) refl, find_later v (entries vs) vs a (find-entries vs h))
