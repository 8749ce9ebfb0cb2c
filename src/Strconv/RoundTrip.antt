-- ===== src/Strconv/RoundTrip.antt =====
-- `parse_int` reads back what `itoa` writes.
use Prim.Native.String.{◌∷◌}
use text.Mathlib.TextLemmas.{cons≢nil}
use cluster_api_control_plan.Prelude.{
  ℕ, zero, suc, ◌+◌, ◌-◌, ◌*◌, ◌/◌, ◌%◌, ◌^◌, ◌<◌, String, code, true, ◌≡◌, ◌≢◌, refl, ap, ◌∙◌,
  arith, ltb, if◌then◌else◌, Bool-cases, inl, inr,
}
use cluster_api_control_plan.Prelude.Int.{pos}
use cluster_api_control_plan.Strconv.{
  digit, digits, itoa, is_digit, parsed, num_error, out_of_range, parse_int,
}
use cluster_api_control_plan.Strconv.Decimal.{IsDigits, value, parse_int_digits}

code-digit : (d : ℕ) → d < 10 → code (digit d) ≡ b'0' + d
code-digit zero h = refl
code-digit (suc zero) h = refl
code-digit (suc (suc zero)) h = refl
code-digit (suc (suc (suc zero))) h = refl
code-digit (suc (suc (suc (suc zero)))) h = refl
code-digit (suc (suc (suc (suc (suc zero))))) h = refl
code-digit (suc (suc (suc (suc (suc (suc zero)))))) h = refl
code-digit (suc (suc (suc (suc (suc (suc (suc zero))))))) h = refl
code-digit (suc (suc (suc (suc (suc (suc (suc (suc zero)))))))) h = refl
code-digit (suc (suc (suc (suc (suc (suc (suc (suc (suc zero))))))))) h = refl
code-digit (suc (suc (suc (suc (suc (suc (suc (suc (suc (suc n)))))))))) h = absurd (omega arith)

is_digit-digit : (d : ℕ) → d < 10 → is_digit (digit d) ≡ true
is_digit-digit d h = rw (code-digit d h) (ground arith)

abbrev Spells : ℕ → String → String → Type 0
Spells n rest text = IsDigits text × (value 0 text ≡ value n rest) × (text ≢ "")

digits-Spells :
    (fuel n : ℕ) (rest : String) → n < fuel → IsDigits rest → Spells n rest (digits fuel n rest)
unfolding digits
digits-Spells zero n rest h _ = absurd (omega arith)
digits-Spells (suc fuel) n rest h hr = elim (Bool-cases (ltb n 10)) [
  | inl small ↦
      let below : n < 10 = ground arith in
      let same : 0 + (code (digit n) - b'0') ≡ n = omega (arith, code-digit n below) in
      rw small ((is_digit-digit n below, hr), ap (λ t. value t rest) same, λ e. cons≢nil e)
  | inr big ↦
      let last : n % 10 < 10 = omega arith in
      let (all_digits, spelled, is_text) =
        digits-Spells fuel (n / 10) (digit (n % 10) ∷ rest) (ground arith)
          (is_digit-digit (n % 10) last, hr) in
      let same : n / 10 * 10 + (code (digit (n % 10)) - b'0') ≡ n =
        omega (arith, code-digit (n % 10) last) in
      rw big (all_digits, spelled ∙ ap (λ t. value t rest) same, is_text)
]

pub itoa-Spells : (n : ℕ) → Spells n "" (itoa n)
unfolding itoa
itoa-Spells n = digits-Spells (suc n) n "" (omega arith) tt

-- A number below 2^(bits-1) is read back from the text that `itoa` writes, and any other number is
-- reported as out of range.
pub parse_int-itoa :
    (n bits : ℕ)
    → 0 < bits
    → parse_int (itoa n) bits
      ≡ (if ltb n (2 ^ (bits - 1)) then parsed (pos n) else num_error out_of_range)
parse_int-itoa n bits some_bits =
    let (all_digits, spelled, is_text) = itoa-Spells n in
    parse_int_digits bits (itoa n) some_bits is_text all_digits
    ∙ ap (λ v. if ltb v (2 ^ (bits - 1)) then parsed (pos v) else num_error out_of_range) spelled
