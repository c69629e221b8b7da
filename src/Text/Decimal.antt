-- ===== src/Text/Decimal.antt =====
-- `strconv.ParseInt(s, 10, 32)` and the verb `%d`.
pub mod RoundTrip
pub mod Range
use mongoctl.Prelude.{
  ℕ, zero, suc, ◌+◌, ◌-◌, ◌*◌, ◌/◌, ◌%◌, ◌^◌, [], ◌∷◌, ◌++◌, ◌≡◌, refl, Bool, true, false, Bytes,
  codes, ltb, ◌==◌, if◌then◌else◌, ℤ, pos, negsuc, neg,
}

-- What `ParseUint(s, 10, 32)` reports: a value, a byte that is no digit, or a value out of range.
pub data Scan : Type 0 where
  value : ℕ → Scan
  syntax : Scan
  range : Scan

abbrev pub max_u32 : ℕ
max_u32 = 2 ^ 32 - 1

abbrev pub is_digit : ℕ → Bool
is_digit c = if ltb c b'0' then false else if ltb b'9' c then false else true

-- The loop of `ParseUint`: it stops at the first byte that is no digit and at the first overflow.
unfoldable pub scan : ℕ → Bytes → Scan
scan n [] = value n
scan n (c ∷ s) =
    let m = n * 10 + (c - b'0') in
    let rest = scan m s in if is_digit c then (if ltb max_u32 m then range else rest) else syntax

unfoldable pub parse_uint : Bytes → Scan
unfolding scan
parse_uint [] = syntax
parse_uint (c ∷ s) = scan 0 (c ∷ s)

abbrev pub cutoff : ℕ
cutoff = 2 ^ 31

-- The value that `ParseInt` returns beside its error: 0 for bad syntax, the nearest bound out of range.
unfoldable pub clamp_pos : Scan → ℤ
clamp_pos (value n) = if ltb n cutoff then pos n else pos (cutoff - 1)
clamp_pos syntax = pos 0
clamp_pos range = pos (cutoff - 1)

unfoldable pub clamp_neg : Scan → ℤ
clamp_neg (value n) = if ltb cutoff n then neg cutoff else neg n
clamp_neg syntax = pos 0
clamp_neg range = neg cutoff

-- `id, _ := strconv.ParseInt(s, 10, 32)`: the program drops the error and keeps the value.
unfoldable pub parse_int : Bytes → ℤ
unfolding parse_uint clamp_pos clamp_neg
parse_int [] = pos 0
parse_int (c ∷ s) =
    if c == b'-'
    then clamp_neg (parse_uint s)
    else if c == b'+'
    then clamp_pos (parse_uint s)
    else clamp_pos (parse_uint (c ∷ s))

-- The decimal digits of `n` in front of `out`; `n < fuel` suffices.
unfoldable pub digits : ℕ → ℕ → Bytes → Bytes
digits zero n out = out
digits (suc fuel) n out =
    let d = b'0' + n % 10 in
    let more = digits fuel (n / 10) (d ∷ out) in if ltb n 10 then d ∷ out else more

unfoldable pub format_nat : ℕ → Bytes
unfolding digits
format_nat n = digits (suc n) n []

-- `fmt.Sprintf("%d", n)`.
unfoldable pub format_int : ℤ → Bytes
unfolding format_nat
format_int (pos n) = format_nat n
format_int (negsuc n) = b'-' ∷ format_nat (suc n)

parse_int_digits : parse_int (codes "2147483647") ≡ pos 2147483647
unfolding parse_int
parse_int_digits = refl

parse_int_overflow : parse_int (codes "9999999999x") ≡ pos 2147483647
unfolding parse_int
parse_int_overflow = refl

parse_int_uuid : parse_int (codes "7f3a") ≡ pos 0
unfolding parse_int
parse_int_uuid = refl

parse_int_negative : parse_int (codes "-12") ≡ negsuc 11
unfolding parse_int
parse_int_negative = refl

format_int_negative : format_int (negsuc 11) ≡ codes "-12"
unfolding format_int
format_int_negative = refl
