-- ===== src/Text/Decimal/RoundTrip.antt =====
-- Reading back what `%d` prints.
use mongoctl.Prelude.{
  ℕ, zero, suc, ◌+◌, ◌/◌, ◌%◌, ◌≤◌, ◌<◌, [], ◌∷◌, ◌≡◌, ◌≢◌, refl, Bytes, arith, ltb, ℤ, pos, negsuc,
  Bool-cases, inl, inr, All, Lacks, true,
}
use mongoctl.Text.Decimal.{
  value, max_u32, is_digit, scan, parse_uint, cutoff, clamp_pos, clamp_neg, parse_int, digits,
  format_nat, format_int,
}

scan_last : (n : ℕ) (out : Bytes) → n ≤ max_u32 → scan (n / 10) ((b'0' + n % 10) ∷ out) ≡ scan n out
unfolding scan
scan_last n out h = ground arith

scan_first : (n : ℕ) (out : Bytes) → n < 10 → scan 0 ((b'0' + n % 10) ∷ out) ≡ scan n out
unfolding scan
scan_first n out h = ground arith

scan-digits :
    (fuel n : ℕ) (out : Bytes) → n < fuel → n ≤ max_u32 → scan 0 (digits fuel n out) ≡ scan n out
unfolding digits
scan-digits zero n out f h = absurd (omega arith)
scan-digits (suc fuel) n out f h =
    ground (
      arith,
      scan_first n out,
      scan_last n out h,
      scan-digits fuel (n / 10) ((b'0' + n % 10) ∷ out),
    )

-- Every byte is a digit.
abbrev pub Digits : Bytes → Type 0
Digits = All (λ c. is_digit c ≡ true)

digits-Digits : (fuel n : ℕ) (out : Bytes) → Digits out → Digits (digits fuel n out)
unfolding digits
digits-Digits zero n out h = h
digits-Digits (suc fuel) n out h =
    let d : is_digit (b'0' + n % 10) ≡ true = ground arith in
    elim (Bool-cases (ltb n 10)) [
      | inl small ↦ rw small (d, h)
      | inr large ↦ rw large (digits-Digits fuel (n / 10) ((b'0' + n % 10) ∷ out) (d, h))
    ]

digits-ne-nil : (fuel n : ℕ) (out : Bytes) → out ≢ [] → digits fuel n out ≢ []
unfolding digits
digits-ne-nil zero n out h = h
digits-ne-nil (suc fuel) n out h =
    ground (arith, digits-ne-nil fuel (n / 10) ((b'0' + n % 10) ∷ out) (λ e. cc))

format_nat-ne-nil : (n : ℕ) → format_nat n ≢ []
unfolding format_nat digits
format_nat-ne-nil n = ground (arith, digits-ne-nil n (n / 10) ((b'0' + n % 10) ∷ []) (λ e. cc))

parse_uint-format_nat : (n : ℕ) → n ≤ max_u32 → parse_uint (format_nat n) ≡ value n
unfolding parse_uint
parse_uint-format_nat n h =
    go (format_nat n) (format_nat-ne-nil n)
      (unfold format_nat scan in scan-digits (suc n) n [] (omega arith) h)
  where
    go : (s : Bytes) → s ≢ [] → scan 0 s ≡ value n → parse_uint s ≡ value n
    go [] ne e = absurd (ne refl)
    go (c ∷ s) ne e = e

parse_int_of_Digits : (s : Bytes) → Digits s → parse_int s ≡ clamp_pos (parse_uint s)
unfolding parse_int
parse_int_of_Digits [] h = refl
parse_int_of_Digits (c ∷ s) (d, h) = ground arith

format_nat-Digits : (n : ℕ) → Digits (format_nat n)
unfolding format_nat
format_nat-Digits n = digits-Digits (suc n) n [] tt

clamp_pos_of_lt : (n : ℕ) → n < cutoff → clamp_pos (value n) ≡ pos n
unfolding clamp_pos
clamp_pos_of_lt n h = ground arith

clamp_neg_of_le : (n : ℕ) → suc n ≤ cutoff → clamp_neg (value (suc n)) ≡ negsuc n
unfolding clamp_neg
clamp_neg_of_le n h = ground arith

parse_int-format_nat : (n : ℕ) → n < cutoff → parse_int (format_nat n) ≡ pos n
parse_int-format_nat n h =
    rw (parse_int_of_Digits _ (format_nat-Digits n), parse_uint-format_nat n (omega arith))
      (clamp_pos_of_lt n h)

parse_int-format_neg : (n : ℕ) → n < cutoff → parse_int (b'-' ∷ format_nat (suc n)) ≡ negsuc n
parse_int-format_neg n h =
    unfold parse_int in rw (parse_uint-format_nat (suc n) (omega arith)) (clamp_neg_of_le n h)

-- The integers that an int32 holds.
abbrev pub IsInt32 : ℤ → Type 0
IsInt32 (pos n) = n < cutoff
IsInt32 (negsuc n) = n < cutoff

-- What `%d` prints is read back, over the whole range of an int32.
pub parse_int-format_int : (z : ℤ) → IsInt32 z → parse_int (format_int z) ≡ z
unfolding format_int
parse_int-format_int (pos n) h = parse_int-format_nat n h
parse_int-format_int (negsuc n) h = parse_int-format_neg n h

Lacks-of_Digits : (b : ℕ) (s : Bytes) → b'9' < b → Digits s → Lacks b s
Lacks-of_Digits b [] h d = tt
Lacks-of_Digits b (c ∷ s) h (d, ds) = (ground arith, Lacks-of_Digits b s h ds)

comma_of_Digits : (s : Bytes) → Digits s → Lacks b',' s
comma_of_Digits [] d = tt
comma_of_Digits (c ∷ s) (d, ds) = (ground arith, comma_of_Digits s ds)

pub format_int-Lacks_colon : (z : ℤ) → Lacks b':' (format_int z)
unfolding format_int
format_int-Lacks_colon (pos n) = Lacks-of_Digits b':' _ (omega arith) (format_nat-Digits n)
format_int-Lacks_colon (negsuc n) =
    (omega arith, Lacks-of_Digits b':' _ (omega arith) (format_nat-Digits (suc n)))

pub format_int-Lacks_comma : (z : ℤ) → Lacks b',' (format_int z)
unfolding format_int
format_int-Lacks_comma (pos n) = comma_of_Digits _ (format_nat-Digits n)
format_int-Lacks_comma (negsuc n) = (omega arith, comma_of_Digits _ (format_nat-Digits (suc n)))
