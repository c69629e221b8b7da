-- ===== src/Mongo/Primary/Decision.antt =====
-- When the primary is reconfigured: the decision, and its independence of the order of a `range`.
use mongoctl.Prelude.{
  [], ◌∷◌, ◌≡◌, ◌↔◌, refl, sym, ◌∙◌, some, Bool, true, false, arith, Bool-cases, Option-cases, inl,
  inr, All, length, str_eq_iff, ℤ,
}
use mongoctl.Mongo.Types.{Member}
use mongoctl.Mongo.Members.{MemberMap, find}
use mongoctl.Prelude.Perms.{All-Permᴰ, Permᴰ-sym}
use mongoctl.Mongo.Primary.{RangeOrder, differs, any_differs, reconf_needed}

-- The current configuration holds the entry's member, at the entry's host.
abbrev pub Holds : MemberMap → ℤ × Member → Type 0
Holds current e = (v : Member) × (find e.0 current ≡ some v) × (v.host ≡ e.1.host)

differs-false :
    (current : MemberMap) (e : ℤ × Member) → differs current e.0 e.1 ≡ false → Holds current e
unfolding differs
differs-false current (k, dv) h = elim (Option-cases (find k current)) [
  | inl missing ↦ absurd (ground arith)
  | inr (v, found) ↦ (v, found, ground (arith, str_eq_iff v.host dv.host))
]

differs-Holds :
    (current : MemberMap) (e : ℤ × Member) → Holds current e → differs current e.0 e.1 ≡ false
unfolding differs
differs-Holds current (k, dv) (v, found, same) = ground (arith, str_eq_iff v.host dv.host)

any_differs-false : (current d : MemberMap) → any_differs current d ≡ false → All (Holds current) d
unfolding any_differs
any_differs-false current [] h = tt
any_differs-false current ((k, v) ∷ rest) h = elim (Bool-cases (differs current k v)) [
  | inl t ↦ absurd (ground arith)
  | inr f ↦ (differs-false current (k, v) f, any_differs-false current rest (ground arith))
]

any_differs-Holds : (current d : MemberMap) → All (Holds current) d → any_differs current d ≡ false
unfolding any_differs
any_differs-Holds current [] h = refl
any_differs-Holds current ((k, v) ∷ rest) (h, hs) =
    rw (differs-Holds current (k, v) h, any_differs-Holds current rest hs)

reconf_needed-false :
    (r : RangeOrder) (current desired : MemberMap)
    → reconf_needed r false current desired ≡ false
    → (length current ≡ length desired) × (any_differs current (r.visit desired) ≡ false)
unfolding reconf_needed
reconf_needed-false r current desired h = ground arith

reconf_needed-agree :
    (r : RangeOrder) (current desired : MemberMap)
    → length current ≡ length desired
    → any_differs current (r.visit desired) ≡ false
    → reconf_needed r false current desired ≡ false
unfolding reconf_needed
reconf_needed-agree r current desired e h = ground arith

-- Without a stale configuration no reconfiguration is needed exactly when the current and the
-- desired members are as many, and the current ones hold each desired member at its host.
pub reconf_needed_iff :
    (r : RangeOrder) (current desired : MemberMap)
    → (reconf_needed r false current desired ≡ false)
      ↔ ((length current ≡ length desired) × All (Holds current) desired)
reconf_needed_iff r current desired =
    let p = r.visit-Perm desired in
    (
      λ h.
          let (e, f) = reconf_needed-false r current desired h in
          (e, All-Permᴰ (Holds current) p (any_differs-false current (r.visit desired) f)),
      λ (e, h).
          reconf_needed-agree r current desired e
            (any_differs-Holds current _ (All-Permᴰ (Holds current) (Permᴰ-sym p) h)),
    )

-- The decision does not depend on the order in which the desired members are visited.
pub reconf_needed_order :
    (r r' : RangeOrder) (stale : Bool) (current desired : MemberMap)
    → reconf_needed r stale current desired ≡ reconf_needed r' stale current desired
reconf_needed_order r r' true current desired = unfold reconf_needed in refl
reconf_needed_order r r' false current desired =
    let (to, from) = reconf_needed_iff r current desired in
    let (to', from') = reconf_needed_iff r' current desired in
    elim (Bool-cases (reconf_needed r false current desired)) [
      | inl y ↦ elim (Bool-cases (reconf_needed r' false current desired)) [
        | inl y' ↦ y ∙ sym y'
        | inr n' ↦ absurd (cc (y, from (to' n')))
      ]
      | inr n ↦ n ∙ sym (from' (to n))
    ]
