-- ===== src/Amount.antt =====
-- Amounts of money as text (src/transaction/transaction.cpp, FormatValue and ParseValue). A text is
-- the list of its character codes, a 64-bit sum wraps around.
pub mod Parse
use cdx.Base.{
  ℕ, suc, zero, Bool, true, false, List, [], ◌∷◌, ◌++◌, ◌+◌, ◌-◌, ◌*◌, ◌/◌, ◌%◌, ◌^◌, ◌==◌, ◌||◌,
  ltb, leb, if◌then◌else◌,
}
use cdx.Base.Int.{ℤ, pos, negsuc}
use cdx.Result.{Result, ok, err, ◌>>=◌, ◌>>◌, fail_if}
use cdx.Params.{max_supply_base}

-- %llu, with as much fuel as a 64-bit number has digits.
unfoldable pub print_digits : ℕ → ℕ → List ℕ
print_digits zero n = []
print_digits (suc fuel) n =
    let more = print_digits fuel (n / 10) in
    (if n / 10 == 0 then [] else more) ++ ((48 + n % 10) ∷ [])

unfoldable pub print_nat : ℕ → List ℕ
print_nat n = print_digits 20 n

-- %08llu, for k digits.
unfoldable pub fixed_digits : ℕ → ℕ → List ℕ
fixed_digits zero n = []
fixed_digits (suc k) n = fixed_digits k (n / 10) ++ ((48 + n % 10) ∷ [])

-- while (s.back() == c) s.pop_back()
unfoldable pub pop_all : ℕ → List ℕ → List ℕ
pop_all c [] = []
pop_all c (x ∷ s) = elim (pop_all c s) as (λ y. List ℕ) [
  | [] ↦ if x == c then [] else x ∷ []
  | y ∷ t ↦ x ∷ y ∷ t
]

-- if (s.back() == c) s.pop_back()
unfoldable pub pop_one : ℕ → List ℕ → List ℕ
pop_one c [] = []
pop_one c (x ∷ []) = if x == c then [] else x ∷ []
pop_one c (x ∷ y ∷ s) = x ∷ pop_one c (y ∷ s)

unfoldable pub format_abs : ℕ → List ℕ
format_abs abs =
    let whole = abs / 100000000 in
    let frac = abs % 100000000 in
    if frac == 0
    then print_nat whole
    else pop_one 46 (pop_all 48 (print_nat whole ++ (46 ∷ fixed_digits 8 frac)))

-- FormatValue
unfoldable pub format_value : ℤ → List ℕ
format_value (pos n) = format_abs n
format_value (negsuc n) = 45 ∷ format_abs (suc n)

-- The errors of ParseValue.
pub data AmountError : Type 0 where
  empty_amount invalid_amount amount_too_large too_many_decimals exceeds_max_supply : AmountError

-- The variables of the loop.
pub record Parsed : Type 0 where
  pub whole : ℕ
  pub frac : ℕ
  pub frac_digits : ℕ
  pub in_frac : Bool

unfoldable pub parse_digit : ℕ → Parsed → Result AmountError Parsed
parse_digit d p =
    if p.in_frac
    then fail_if (leb 8 p.frac_digits) too_many_decimals
      >> ok (record p { frac = p.frac * 10 + d; frac_digits = p.frac_digits + 1 })
    else fail_if (ltb (max_supply_base + 1) (p.whole * 10 + d)) amount_too_large
      >> ok (record p { whole = p.whole * 10 + d })

-- One character.
unfoldable pub parse_char : ℕ → Parsed → Result AmountError Parsed
parse_char c p =
    if c == 46
    then fail_if p.in_frac invalid_amount >> ok (record p { in_frac = true })
    else if ltb c 48 || ltb 57 c
    then err invalid_amount
    else parse_digit (c - 48) p

unfoldable pub parse_chars : List ℕ → Parsed → Result AmountError Parsed
parse_chars [] p = ok p
parse_chars (c ∷ s) p = parse_char c p >>= parse_chars s

abbrev pub nothing_parsed : Parsed
nothing_parsed = record { whole = 0; frac = 0; frac_digits = 0; in_frac = false }

-- What follows the loop: the total in base units, with the wrap-around of uint64_t.
unfoldable pub total_of : Parsed → ℕ
total_of p = (p.whole * 100000000 + p.frac * 10 ^ (8 - p.frac_digits)) % 2 ^ 64

unfoldable pub checked_total : Parsed → Result AmountError ℕ
checked_total p = fail_if (ltb max_supply_base (total_of p)) exceeds_max_supply >> ok (total_of p)

unfoldable pub parse_abs : List ℕ → Result AmountError ℕ
parse_abs [] = err invalid_amount
parse_abs (c ∷ s) = parse_chars (c ∷ s) nothing_parsed >>= checked_total

unfoldable pub negate : ℕ → ℤ
negate zero = pos 0
negate (suc n) = negsuc n

-- ParseValue
unfoldable pub parse_value : List ℕ → Result AmountError ℤ
parse_value [] = err empty_amount
parse_value (c ∷ s) =
    if c == 45
    then parse_abs s >>= (λ n. ok (negate n))
    else if c == 43
    then parse_abs s >>= (λ n. ok (pos n))
    else parse_abs (c ∷ s) >>= (λ n. ok (pos n))
