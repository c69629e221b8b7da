-- ===== src/Text/Parts.antt =====
-- `strings.Split` and `strings.Join` with a separator of one byte.
use mongoctl.Prelude.{
  ℕ, ◌+◌, leb, List, [], ◌∷◌, ◌++◌, ◌≡◌, ◌≢◌, refl, ap, arith, Bytes, ◌==◌, if◌then◌else◌, All,
  Lacks,
}

-- `strings.ToLower` of an ASCII text.
abbrev pub to_lower : ℕ → ℕ
to_lower c = if leb b'A' c then (if leb c b'Z' then c + 32 else c) else c

-- A byte in front of the first part.
pub grow : ℕ → List Bytes → List Bytes
grow c [] = (c ∷ []) ∷ []
grow c (p ∷ ps) = (c ∷ p) ∷ ps

unfoldable pub split : ℕ → Bytes → List Bytes
unfolding grow
split sep [] = [] ∷ []
split sep (c ∷ s) = let rest = split sep s in if c == sep then [] ∷ rest else grow c rest

unfoldable pub join : ℕ → List Bytes → Bytes
join sep [] = []
join sep (p ∷ []) = p
join sep (p ∷ q ∷ ps) = p ++ sep ∷ join sep (q ∷ ps)

-- A text without the separator is one part.
pub split_of_Lacks : (sep : ℕ) (p : Bytes) → Lacks sep p → split sep p ≡ p ∷ []
unfolding split
split_of_Lacks sep [] h = refl
split_of_Lacks sep (c ∷ p) (hc, hp) = rw (split_of_Lacks sep p hp) (ground arith)

-- The first separator ends the first part.
pub split-append :
    (sep : ℕ) (p rest : Bytes) → Lacks sep p → split sep (p ++ sep ∷ rest) ≡ p ∷ split sep rest
unfolding split
split-append sep [] rest h = ground arith
split-append sep (c ∷ p) rest (hc, hp) = rw (split-append sep p rest hp) (ground arith)

-- Parts without the separator come back from the text that joins them.
pub split-join :
    (sep : ℕ) (ps : List Bytes) → ps ≢ [] → All (Lacks sep) ps → split sep (join sep ps) ≡ ps
unfolding join
split-join sep [] h _ = absurd (h refl)
split-join sep (p ∷ []) h (hp, _) = split_of_Lacks sep p hp
split-join sep (p ∷ q ∷ ps) h (hp, hs) =
    rw (split-append sep p (join sep (q ∷ ps)) hp)
      (ap (λ l. p ∷ l) (split-join sep (q ∷ ps) (cc) hs))
