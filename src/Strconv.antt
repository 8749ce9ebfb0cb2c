-- ===== src/Strconv.antt =====
-- The parts of Go's `strconv` package that the controllers call: `Itoa` of a number that is not
-- negative, and `ParseInt` in base 10.
pub mod Decimal
pub mod RoundTrip
use Prim.Native.String.{[], ◌∷◌, ◌++◌}
use cluster_api_control_plan.Prelude.{
  ℕ, zero, suc, ◌+◌, ◌-◌, ◌*◌, ◌/◌, ◌%◌, ◌^◌, String, Char, code, Bool, true, false, not, ◌&&◌, eqb,
  ltb, leb, if◌then◌else◌,
}
use cluster_api_control_plan.Prelude.Int.{ℤ, pos, neg_ℕ}

abbrev digit : ℕ → Char
digit zero = "0"
digit (suc zero) = "1"
digit (suc (suc zero)) = "2"
digit (suc (suc (suc zero))) = "3"
digit (suc (suc (suc (suc zero)))) = "4"
digit (suc (suc (suc (suc (suc zero))))) = "5"
digit (suc (suc (suc (suc (suc (suc zero)))))) = "6"
digit (suc (suc (suc (suc (suc (suc (suc zero))))))) = "7"
digit (suc (suc (suc (suc (suc (suc (suc (suc zero)))))))) = "8"
digit _ = "9"

-- The digits of `n` before `rest`; `n + 1` rounds are enough.
pub digits : ℕ → ℕ → String → String
digits zero n rest = rest
digits (suc fuel) n rest =
    let more = digits fuel (n / 10) (digit (n % 10) ∷ rest) in
    if ltb n 10 then digit n ∷ rest else more

-- `strconv.Itoa`
unfoldable pub itoa : ℕ → String
unfolding digits
itoa n = digits (suc n) n ""

pub data NumError : Type 0 where
  syntax out_of_range : NumError

pub data Number {ℓ} (A : Type ℓ) : Type ℓ where
  parsed : A → Number A
  num_error : NumError → Number A

abbrev pub is_digit : Char → Bool
is_digit c = leb b'0' (code c) && leb (code c) b'9'

-- The loop of `ParseUint` behind `n`; `limit` is the largest value of the bit size.
unfoldable pub scan : ℕ → ℕ → String → Number ℕ
scan limit n [] = parsed n
scan limit n (c ∷ s) =
    let n' = n * 10 + (code c - b'0') in
    let rest = scan limit n' s in
    if is_digit c then if ltb limit n' then num_error out_of_range else rest else num_error syntax

-- `strconv.ParseUint`
unfoldable pub parse_uint : ℕ → String → Number ℕ
unfolding scan
parse_uint limit [] = num_error syntax
parse_uint limit (c ∷ s) = scan limit 0 (c ∷ s)

-- The tests of `ParseInt` on the magnitude, and the sign.
unfoldable pub signed : ℕ → Bool → Number ℕ → Number ℤ
signed cutoff neg (num_error e) = num_error e
signed cutoff true (parsed un) = if ltb cutoff un then num_error out_of_range else parsed (neg_ℕ un)
signed cutoff false (parsed un) = if leb cutoff un then num_error out_of_range else parsed (pos un)

-- `strconv.ParseInt(s, 10, bits)`
unfoldable pub parse_int : String → ℕ → Number ℤ
parse_int [] bits = num_error syntax
parse_int (c ∷ s) bits =
    let limit = 2 ^ bits - 1 in
    let cutoff = 2 ^ (bits - 1) in
    if eqb (code c) b'+'
    then signed cutoff false (parse_uint limit s)
    else if eqb (code c) b'-'
    then signed cutoff true (parse_uint limit s)
    else signed cutoff false (parse_uint limit (c ∷ s))
