-- ===== src/Strconv/Decimal.antt =====
-- What `parse_int` accepts, and what it returns.
use Prim.Native.String.{[], ◌∷◌}
use native.Mathlib.Nat.{two-pow-succ, one-le-pow}
use cluster_api_control_plan.Prelude.{
  ℕ, zero, suc, ◌+◌, ◌-◌, ◌*◌, ◌^◌, ◌≤◌, ◌<◌, String, Char, code, Bool, true, false, ◌≡◌, ◌≢◌, refl,
  arith, ltb, if◌then◌else◌,
}
use cluster_api_control_plan.Prelude.Int.{ℤ, pos, negsuc}
use cluster_api_control_plan.Strconv.{
  Number, parsed, num_error, out_of_range, is_digit, scan, parse_uint, signed, parse_int,
}

abbrev pub IsDigits : String → Type 0
IsDigits [] = Unit
IsDigits (c ∷ s) = (is_digit c ≡ true) × IsDigits s

-- The number that digits spell behind `n`, with no bound.
abbrev pub value : ℕ → String → ℕ
value n [] = n
value n (c ∷ s) = value (n * 10 + (code c - b'0')) s

pub le-value : (s : String) (n : ℕ) → n ≤ value n s
le-value [] n = omega arith
le-value (c ∷ s) n = omega (arith, le-value s (n * 10 + (code c - b'0')))

-- On digits the loop returns their value, or reports that it does not fit.
scan_digits :
    (limit n : ℕ) (s : String)
    → n ≤ limit
    → IsDigits s
    → scan limit n s
      ≡ (if ltb limit (value n s) then num_error out_of_range else parsed (value n s))
unfolding scan
scan_digits limit n [] fits _ = ground arith
scan_digits limit n (c ∷ s) fits (hc, hs) =
    let m = n * 10 + (code c - b'0') in ground (arith, scan_digits limit m s, le-value s m)

scan_sound :
    (limit n r : ℕ) (s : String)
    → n ≤ limit
    → scan limit n s ≡ parsed r
    → IsDigits s × (r ≡ value n s) × (r ≤ limit)
unfolding scan
scan_sound limit n r [] fits h = ground arith
scan_sound limit n r (c ∷ s) fits h =
    ground (arith, scan_sound limit (n * 10 + (code c - b'0')) r s)

-- A signed number of `bits` bits.
abbrev pub InRange : ℕ → ℤ → Type 0
InRange bits (pos n) = n < 2 ^ (bits - 1)
InRange bits (negsuc n) = n < 2 ^ (bits - 1)

signed-InRange :
    (bits : ℕ) (neg : Bool) (un : Number ℕ) (z : ℤ)
    → 0 < 2 ^ (bits - 1)
    → signed (2 ^ (bits - 1)) neg un ≡ parsed z
    → InRange bits z
unfolding signed
signed-InRange bits neg (num_error e) z pos_power h = cc
signed-InRange bits true (parsed zero) (pos m) pos_power h = ground arith
signed-InRange bits true (parsed zero) (negsuc m) pos_power h = ground arith
signed-InRange bits true (parsed (suc n)) (pos m) pos_power h = ground arith
signed-InRange bits true (parsed (suc n)) (negsuc m) pos_power h = ground arith
signed-InRange bits false (parsed n) (pos m) pos_power h = ground arith
signed-InRange bits false (parsed n) (negsuc m) pos_power h = ground arith

-- On a positive magnitude of digits the tests of `ParseInt` come down to one.
signed_digits :
    (cutoff limit : ℕ) (c : Char) (s : String)
    → cutoff ≤ limit
    → IsDigits (c ∷ s)
    → signed cutoff false (parse_uint limit (c ∷ s)) ≡ (
        if ltb (value 0 (c ∷ s)) cutoff
        then parsed (pos (value 0 (c ∷ s)))
        else num_error out_of_range)
unfolding signed parse_uint
signed_digits cutoff limit c s fits all_digits =
    ground (arith, scan_digits limit 0 (c ∷ s) (omega arith) all_digits)

pow_half : (bits : ℕ) → 0 < bits → 2 ^ bits ≡ 2 ^ (bits - 1) + 2 ^ (bits - 1)
pow_half zero h = absurd (omega arith)
pow_half (suc k) h = let e : suc k - 1 ≡ k = omega arith in rw e (two-pow-succ k)

pow_pos : (n : ℕ) → 0 < 2 ^ n
pow_pos n = one-le-pow n 2 (omega arith)

-- An unsigned text of digits is parsed to its value if that is below 2^(bits-1), and is reported as
-- out of range if it is not.
pub parse_int_digits :
    (bits : ℕ) (s : String)
    → 0 < bits
    → s ≢ ""
    → IsDigits s
    → parse_int s bits ≡ (
        if ltb (value 0 s) (2 ^ (bits - 1))
        then parsed (pos (value 0 s))
        else num_error out_of_range)
parse_int_digits bits [] some_bits h _ = absurd (h refl)
parse_int_digits bits (c ∷ s) some_bits h (hc, hs) =
    let same =
      signed_digits (2 ^ (bits - 1)) (2 ^ bits - 1) c s
        (omega (arith, pow_half bits some_bits, pow_pos (bits - 1))) (hc, hs) in
    unfold parse_int in ground (arith, same)

-- A parsed number fits in `bits` bits.
pub parse_int-InRange :
    (s : String) (bits : ℕ) (z : ℤ) → parse_int s bits ≡ parsed z → InRange bits z
unfolding parse_int
parse_int-InRange [] bits z h = cc
parse_int-InRange (c ∷ s) bits z h =
    let limit = 2 ^ bits - 1 in
    let positive = pow_pos (bits - 1) in
    ground (
      arith,
      signed-InRange bits false (parse_uint limit s) z positive,
      signed-InRange bits true (parse_uint limit s) z positive,
      signed-InRange bits false (parse_uint limit (c ∷ s)) z positive,
    )
