-- ===== src/Amount/Parse.antt =====
-- What ParseValue makes of a printed whole number (src/transaction/transaction.cpp).
use cdx.Base.{
  true, ap, ◌∙◌, ◌≢◌, append-nil, append_assoc, inl, inr, ◌-◌, ◌*◌, ltb, ◌==◌, Bool-cases, ◌%◌, ◌/◌,
  ◌+◌, false, ◌^◌, ℕ, suc, zero, List, [], ◌∷◌, ◌++◌, ◌≡◌, ◌≤◌, ◌<◌, arith, refl,
}
use native.Mathlib.Nat.{pow-suc}
use cdx.Result.{ok, ◌>>=◌}
use cdx.Amount.{
  format_abs, format_value, total_of, checked_total, parse_abs, parse_value, print_nat,
  nothing_parsed, Parsed, parse_digit, print_digits, parse_char, parse_chars,
}
use cdx.Params.{max_supply_base}
use cdx.Base.Int.{pos}

parse_char-digit :
    (n : ℕ) (p : Parsed)
    → p.in_frac ≡ false
    → n ≤ max_supply_base + 1
    → p.whole ≡ n / 10
    → parse_char (48 + n % 10) p ≡ ok (record p { whole = n })
unfolding parse_char parse_digit
parse_char-digit n p outside few e =
    let dot : (48 + n % 10 == 46) ≡ false = ground arith in
    let low : ltb (48 + n % 10) 48 ≡ false = ground arith in
    let high : ltb 57 (48 + n % 10) ≡ false = ground arith in
    let value : p.whole * 10 + (48 + n % 10 - 48) ≡ n = omega arith in
    let bounded : ltb (max_supply_base + 1) n ≡ false = ground arith in
    rw (dot, low, high, outside, value, bounded) refl

parse_chars-cons :
    (c : ℕ) (s : List ℕ) (p q : Parsed)
    → parse_char c p ≡ ok q
    → parse_chars (c ∷ s) p ≡ parse_chars s q
unfolding parse_chars
parse_chars-cons c s p q e = rw e refl

parse_chars-nil : (p : Parsed) → parse_chars [] p ≡ ok p
unfolding parse_chars
parse_chars-nil p = refl

-- Reading the digits of a number puts the number into `whole`.
parse_chars-print_digits :
    (fuel n : ℕ) (rest : List ℕ)
    → n < 10 ^ fuel
    → n ≤ max_supply_base + 1
    → parse_chars (print_digits fuel n ++ rest) nothing_parsed
      ≡ parse_chars rest (record nothing_parsed { whole = n })
unfolding print_digits
parse_chars-print_digits zero n rest lt few =
    let none_left : n ≡ 0 = omega arith in rw none_left refl
parse_chars-print_digits (suc fuel) n rest lt few =
    let last = 48 + n % 10 in
    let read = λ (p : Parsed) (outside : p.in_frac ≡ false) (e : p.whole ≡ n / 10).
      parse_chars-cons last rest p (record p { whole = n }) (parse_char-digit n p outside few e) in
    elim (Bool-cases (n / 10 == 0)) [
      | inl short ↦ rw short (read nothing_parsed refl (ground arith))
      | inr long ↦
          let same = append_assoc (print_digits fuel (n / 10)) (last ∷ []) rest in
          let front =
            parse_chars-print_digits fuel (n / 10) (last ∷ rest) (omega (arith, pow-suc 10 fuel))
              (omega arith) in
          rw (long, same) (front ∙ read (record nothing_parsed { whole = n / 10 }) refl refl)
    ]

-- The first character of a printed number is a digit.
print_digits-first :
    (fuel n : ℕ)
    → 1 ≤ fuel
    → n < 10 ^ fuel
    → (c : ℕ) × (s : List ℕ) × (print_digits fuel n ≡ c ∷ s) × (48 ≤ c)
unfolding print_digits
print_digits-first zero n some lt = absurd (omega arith)
print_digits-first (suc fuel) n some lt =
    elim (Bool-cases (n / 10 == 0))
      as (λ x. (c : ℕ) × (s : List ℕ) × (print_digits (suc fuel) n ≡ c ∷ s) × (48 ≤ c)) [
        | inl short ↦ (48 + n % 10, [], rw (print_digits, short) refl, omega arith)
        | inr long ↦
            let more : 1 ≤ fuel = at_least fuel n (ground arith) lt in
            let (c, s, e, digit) =
              print_digits-first fuel (n / 10) more (omega (arith, pow-suc 10 fuel)) in
            (c, s ++ ((48 + n % 10) ∷ []), rw (print_digits, long, e) refl, digit)
      ]
  where
    at_least : (fuel n : ℕ) → n / 10 ≢ 0 → n < 10 ^ suc fuel → 1 ≤ fuel
    at_least zero n big lt = absurd (omega arith)
    at_least (suc fuel) n big lt = omega arith

parse_abs-cons :
    (c : ℕ) (s : List ℕ)
    → parse_abs (c ∷ s) ≡ (parse_chars (c ∷ s) nothing_parsed >>= checked_total)
unfolding parse_abs
parse_abs-cons c s = refl

parse_value-digit :
    (c : ℕ) (s : List ℕ) {n : ℕ}
    → 48 ≤ c
    → parse_abs (c ∷ s) ≡ ok n
    → parse_value (c ∷ s) ≡ ok (pos n)
unfolding parse_value
parse_value-digit c s digit e =
    let minus : (c == 45) ≡ false = ground arith in
    let plus : (c == 43) ≡ false = ground arith in rw (minus, plus, e) refl

checked_total-whole :
    (n : ℕ)
    → n * 100000000 % 2 ^ 64 ≤ max_supply_base
    → checked_total (record nothing_parsed { whole = n }) ≡ ok (n * 100000000 % 2 ^ 64)
unfolding checked_total total_of
checked_total-whole n fits = ground arith

-- ParseValue multiplies a whole number by 10 ^ 8 modulo 2 ^ 64: a printed number of coins of up to
-- 2100000000000001 is read as this product, if the product is at most the maximal supply. The
-- bound that the loop keeps is not small enough to exclude the wrap-around.
pub parse_value-print_nat :
    (n : ℕ)
    → n ≤ max_supply_base + 1
    → n * 100000000 % 2 ^ 64 ≤ max_supply_base
    → parse_value (print_nat n) ≡ ok (pos (n * 100000000 % 2 ^ 64))
unfolding print_nat
parse_value-print_nat n few fits =
    let (c, s, e, digit) = print_digits-first 20 n (omega arith) (omega arith) in
    let read = parse_chars-print_digits 20 n [] (omega arith) few in
    let read' = rw (append-nil, e) at read in
    let total = checked_total-whole n fits in
    let whole : parse_abs (c ∷ s) ≡ ok (n * 100000000 % 2 ^ 64) =
      rw (parse_abs-cons, read')
        (rw (parse_chars-nil (record nothing_parsed { whole = n })) total) in
    rw e (parse_value-digit c s digit whole)

format_value-whole : (n : ℕ) → format_value (pos (n * 100000000)) ≡ print_nat n
unfolding format_value format_abs
format_value-whole n =
    let whole : n * 100000000 / 100000000 ≡ n = omega arith in
    let no_frac : (n * 100000000 % 100000000 == 0) ≡ true = ground arith in rw (no_frac, whole) refl

-- ParseValue gives back every whole number of coins, up to the maximal supply, that FormatValue wrote.
pub parse_value-format_value :
    (n : ℕ)
    → n * 100000000 ≤ max_supply_base
    → parse_value (format_value (pos (n * 100000000))) ≡ ok (pos (n * 100000000))
parse_value-format_value n few =
    let low : n * 100000000 % 2 ^ 64 ≡ n * 100000000 = omega arith in
    rw (format_value-whole n)
      (parse_value-print_nat n (omega arith) (omega arith) ∙ ap (λ m. ok (pos m)) low)
