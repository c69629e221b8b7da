-- ===== src/Kafka/Properties/Escape.antt =====
-- What the escaping of html/template changes.
use mongoctl.Prelude.{
  ℕ, ◌≤◌, ◌≡◌, ◌≢◌, ◌↔◌, [], ◌∷◌, refl, arith, ap, Bytes, Lacks, All, All-append, length,
  length-append,
}
use mongoctl.Kafka.Properties.{escape_byte, escape}

-- A byte with no meaning in HTML.
abbrev pub IsPlain : ℕ → Type 0
IsPlain c = (c ≢ 0) × (c ≢ b'"') × (c ≢ b'&') × (c ≢ b'\'') × (c ≢ b'+') × (c ≢ b'<') × (c ≢ b'>')

escape_byte-IsPlain : (c : ℕ) → IsPlain c → escape_byte c ≡ c ∷ []
unfolding escape_byte
escape_byte-IsPlain c h = ground arith

length-escape_byte : (c : ℕ) → 1 ≤ length (escape_byte c)
unfolding escape_byte
length-escape_byte c = ground arith

short_byte-IsPlain : (c : ℕ) → length (escape_byte c) ≤ 1 → IsPlain c
unfolding escape_byte
short_byte-IsPlain c h = ground arith

length-escape : (s : Bytes) → length s ≤ length (escape s)
unfolding escape
length-escape [] = omega arith
length-escape (c ∷ s) =
    omega (arith, length-append (escape_byte c) (escape s), length-escape_byte c, length-escape s)

short-IsPlain : (s : Bytes) → length (escape s) ≤ length s → All IsPlain s
unfolding escape
short-IsPlain [] h = tt
short-IsPlain (c ∷ s) h = (
  short_byte-IsPlain c
      (omega (arith, h, length-append (escape_byte c) (escape s), length-escape s)),
  short-IsPlain s
      (omega (arith, h, length-append (escape_byte c) (escape s), length-escape_byte c)),
)

escape_plain : (s : Bytes) → All IsPlain s → escape s ≡ s
unfolding escape
escape_plain [] h = refl
escape_plain (c ∷ s) (p, h) = rw (escape_byte-IsPlain c p, escape_plain s h)

-- A value is written as it is exactly when none of its bytes has a meaning in HTML.
pub escape_iff : (s : Bytes) → (escape s ≡ s) ↔ All IsPlain s
escape_iff s = (λ e. short-IsPlain s (omega (arith, ap length e)), escape_plain s)

escape_byte-Lacks : (c : ℕ) → c ≢ b'\n' → Lacks b'\n' (escape_byte c)
unfolding escape_byte
escape_byte-Lacks c h = ground arith

-- The escaping brings in no line's end.
pub escape-Lacks : (s : Bytes) → Lacks b'\n' s → Lacks b'\n' (escape s)
unfolding escape
escape-Lacks [] h = tt
escape-Lacks (c ∷ s) (n, h) =
    All-append _ (escape_byte c) (escape s) (escape_byte-Lacks c n) (escape-Lacks s h)
