-- ===== src/Text/Decimal/Range.antt =====
-- The bounds of `ParseInt(s, 10, 32)`.
use mongoctl.Prelude.{suc, zero, [], ◌∷◌, Bytes, arith}
use mongoctl.Text.Decimal.{Scan, value, syntax, range, parse_uint, clamp_pos, clamp_neg, parse_int}
use mongoctl.Text.Decimal.RoundTrip.{IsInt32}

clamp_pos-IsInt32 : (s : Scan) → IsInt32 (clamp_pos s)
unfolding clamp_pos
clamp_pos-IsInt32 (value n) = ground arith
clamp_pos-IsInt32 syntax = omega arith
clamp_pos-IsInt32 range = omega arith

clamp_neg-IsInt32 : (s : Scan) → IsInt32 (clamp_neg s)
unfolding clamp_neg
clamp_neg-IsInt32 (value zero) = omega arith
clamp_neg-IsInt32 (value (suc n)) = ground arith
clamp_neg-IsInt32 syntax = omega arith
clamp_neg-IsInt32 range = omega arith

-- Whatever the text, the identifier is an int32: an overflow is cut off at the bounds.
pub parse_int-IsInt32 : (s : Bytes) → IsInt32 (parse_int s)
unfolding parse_int
parse_int-IsInt32 [] = omega arith
parse_int-IsInt32 (c ∷ s) = ground (
  arith,
  clamp_neg-IsInt32 (parse_uint s),
  clamp_pos-IsInt32 (parse_uint s),
  clamp_pos-IsInt32 (parse_uint (c ∷ s)),
)
