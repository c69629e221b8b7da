-- ===== src/Mongo/Members/Laws.antt =====
-- The laws of the map of members.
use mathlib.Core.List.{List, [], ◌∷◌, ◌++◌, map}
use mongoctl.Prelude.{
  ◌≡◌, refl, some, false, arith, if◌then◌else◌, ℤ, int_eq, int_eq→≡, int_eq_self, All, Bool-cases,
  inl, inr, All-append, append_assoc, append-nil,
}
use mongoctl.Mongo.Types.{Member}
use mongoctl.Mongo.Members.{MemberMap, put, find}

-- A lookup after a write.
pub find-put :
    (j k : ℤ) (v : Member) (m : MemberMap)
    → find j (put k v m) ≡ (if int_eq k j then some v else find j m)
unfolding find put
find-put j k v [] = refl
find-put j k v ((i, w) ∷ m) =
    ground (arith, find-put j k v m, int_eq→≡ i k, int_eq→≡ i j, int_eq→≡ k j, int_eq_self j)

-- Every entry is stored under its own identifier.
abbrev pub IsKeyed : MemberMap → Type 0
IsKeyed = All (λ e. e.1.id ≡ e.0)

pub put-IsKeyed : (v : Member) (m : MemberMap) → IsKeyed m → IsKeyed (put v.id v m)
unfolding put
put-IsKeyed v [] h = (refl, tt)
put-IsKeyed v ((j, w) ∷ m) (e, h) = elim (Bool-cases (int_eq j v.id)) [
  | inl same ↦ rw same (refl, h)
  | inr other ↦ rw other (e, put-IsKeyed v m h)
]

-- No key of the map equals `k`.
abbrev pub IsFresh : ℤ → MemberMap → Type 0
IsFresh k = All (λ e. int_eq e.0 k ≡ false)

-- A new key goes to the end.
pub put_fresh : (k : ℤ) (v : Member) (m : MemberMap) → IsFresh k m → put k v m ≡ m ++ (k, v) ∷ []
unfolding put
put_fresh k v [] h = refl
put_fresh k v ((j, w) ∷ m) (e, h) = rw (e, put_fresh k v m h)

unfoldable pub put_all : List Member → MemberMap → MemberMap
put_all [] m = m
put_all (v ∷ vs) m = put_all vs (put v.id v m)

-- No two members have one identifier.
abbrev pub IsDistinct : List Member → Type 0
IsDistinct [] = Unit
IsDistinct (v ∷ vs) = All (λ w. int_eq v.id w.id ≡ false) vs × IsDistinct vs

abbrev pub entries : List Member → MemberMap
entries = map (λ v. (v.id, v))

AllFresh : List Member → MemberMap → Type 0
AllFresh vs m = All (λ v. IsFresh v.id m) vs

AllFresh-append :
    (v : Member) (vs : List Member) (m : MemberMap)
    → All (λ w. int_eq v.id w.id ≡ false) vs
    → AllFresh vs m
    → AllFresh vs (m ++ (v.id, v) ∷ [])
unfolding AllFresh
AllFresh-append v [] m d f = tt
AllFresh-append v (w ∷ vs) m (dw, ds) (fw, fs) =
    (All-append _ m _ fw (dw, tt), AllFresh-append v vs m ds fs)

put_all_fresh :
    (vs : List Member) (m : MemberMap)
    → IsDistinct vs
    → AllFresh vs m
    → put_all vs m ≡ m ++ entries vs
unfolding put_all AllFresh
put_all_fresh [] m d f = rw append-nil
put_all_fresh (v ∷ vs) m (dv, ds) (fv, fs) = rw (
  put_fresh v.id v m fv,
  put_all_fresh vs (m ++ (v.id, v) ∷ []) ds (AllFresh-append v vs m dv fs),
  append_assoc,
)

AllFresh-nil : (vs : List Member) → AllFresh vs []
unfolding AllFresh
AllFresh-nil [] = tt
AllFresh-nil (v ∷ vs) = (tt, AllFresh-nil vs)

-- Members with distinct identifiers are all kept, in order.
pub put_all_distinct : (vs : List Member) → IsDistinct vs → put_all vs [] ≡ entries vs
put_all_distinct vs d = put_all_fresh vs [] d (AllFresh-nil vs)
