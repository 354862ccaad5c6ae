-- ===== src/Uint256/Arith.antt =====
-- Addition, subtraction, and products and quotients by a word (src/crypto/uint256.h), against
-- arithmetic modulo 2 ^ 256.
use cdx.Base.{ℕ, ◌+◌, ◌-◌, ◌*◌, ◌/◌, ◌%◌, ◌^◌, ◌≤◌, ◌<◌, ◌≡◌, arith}
use cdx.Uint256.{U256, IsWords, to_nat, add, sub, sub_word, sub_borrow, mul64, div64}
use native.Mathlib.Nat.{div-add-mod, div-lt_iff_lt-mul, mod-lt, div-le_self, mod-eq_of_lt}

-- Addition is addition modulo 2 ^ 256, and its result has 64-bit words.
pub add_lem :
    (a b : U256)
    → IsWords a
    → IsWords b
    → IsWords (add a b) × (to_nat (add a b) ≡ (to_nat a + to_nat b) % 2 ^ 256)
unfolding add
add_lem a b ha hb = omega arith

sub_word_lem :
    (w o c : ℕ)
    → w < 2 ^ 64
    → o < 2 ^ 64
    → c ≤ 1
    → (sub_word w o c < 2 ^ 64)
      × (sub_word w o c + o + c ≡ w + 2 ^ 64 * sub_borrow w o c)
      × (sub_borrow w o c ≤ 1)
unfolding sub_word sub_borrow
sub_word_lem w o c hw ho hc = ground arith

-- Subtraction is subtraction modulo 2 ^ 256, and its result has 64-bit words.
pub sub_lem :
    (a b : U256)
    → IsWords a
    → IsWords b
    → IsWords (sub a b) × (to_nat (sub a b) ≡ (to_nat a + 2 ^ 256 - to_nat b) % 2 ^ 256)
unfolding sub
sub_lem a b ha hb =
    let b0 = sub_borrow a.w0 b.w0 0 in
    let b1 = sub_borrow a.w1 b.w1 b0 in
    let b2 = sub_borrow a.w2 b.w2 b1 in
    let h0 = sub_word_lem a.w0 b.w0 0 ha.0 hb.0 (omega arith) in
    let h1 = sub_word_lem a.w1 b.w1 b0 ha.1 hb.1 h0.2 in
    let h2 = sub_word_lem a.w2 b.w2 b1 ha.2 hb.2 h1.2 in
    let h3 = sub_word_lem a.w3 b.w3 b2 ha.3 hb.3 h2.2 in omega (arith, h0, h1, h2, h3)

-- The product with a word is the product modulo 2 ^ 256, and its result has 64-bit words.
pub mul64_lem :
    (a : U256) (m : ℕ) → IsWords (mul64 a m) × (to_nat (mul64 a m) ≡ to_nat a * m % 2 ^ 256)
unfolding mul64
mul64_lem a m = omega arith

-- One digit of a long division: it is below the base when the incoming remainder is below the divisor.
digit_lem :
    (r w d : ℕ)
    → r < d
    → w < 2 ^ 64
    → ((r * 2 ^ 64 + w) / d < 2 ^ 64)
      × (d * ((r * 2 ^ 64 + w) / d) + (r * 2 ^ 64 + w) % d ≡ r * 2 ^ 64 + w)
      × ((r * 2 ^ 64 + w) % d < d)
digit_lem r w d hr hw =
    let pos : 0 < d = omega arith in
    let bound : r * 2 ^ 64 + w < 2 ^ 64 * d = omega arith in
    ((div-lt_iff_lt-mul pos).1 bound, div-add-mod (r * 2 ^ 64 + w) d, mod-lt _ pos)

-- The four digits together, over variables for the quotients and remainders.
digits_sum :
    (d w0 w1 w2 w3 q0 q1 q2 q3 r0 r1 r2 r3 : ℕ)
    → d * q3 + r3 ≡ w3
    → d * q2 + r2 ≡ r3 * 2 ^ 64 + w2
    → d * q1 + r1 ≡ r2 * 2 ^ 64 + w1
    → d * q0 + r0 ≡ r1 * 2 ^ 64 + w0
    → (q0 + 2 ^ 64 * q1 + 2 ^ 128 * q2 + 2 ^ 192 * q3) * d + r0
      ≡ w0 + 2 ^ 64 * w1 + 2 ^ 128 * w2 + 2 ^ 192 * w3
digits_sum d w0 w1 w2 w3 q0 q1 q2 q3 r0 r1 r2 r3 e3 e2 e1 e0 = omega arith

-- Division by a word d > 0 gives the quotient of the integer by d and the remainder.
pub div64_lem :
    (a : U256) (d : ℕ)
    → IsWords a
    → 0 < d
    → IsWords (div64 a d).0
      × (to_nat (div64 a d).0 * d + (div64 a d).1 ≡ to_nat a)
      × ((div64 a d).1 < d)
unfolding div64
div64_lem a d ha hd =
    let a2 = a.w3 % d * 2 ^ 64 + a.w2 in
    let a1 = a2 % d * 2 ^ 64 + a.w1 in
    let a0 = a1 % d * 2 ^ 64 + a.w0 in
    let q3 : a.w3 / d < 2 ^ 64 = omega (arith, div-le_self a.w3 d) in
    let r3 : a.w3 % d < d = mod-lt a.w3 hd in
    let h2 = digit_lem (a.w3 % d) a.w2 d r3 ha.2 in
    let h1 = digit_lem (a2 % d) a.w1 d h2.2 ha.1 in
    let h0 = digit_lem (a1 % d) a.w0 d h1.2 ha.0 in
    rw (mod-eq_of_lt h0.0, mod-eq_of_lt h1.0, mod-eq_of_lt h2.0, mod-eq_of_lt q3)
      (
        (h0.0, h1.0, h2.0, q3),
        digits_sum d a.w0 a.w1 a.w2 a.w3 _ _ _ _ (a0 % d) (a1 % d) (a2 % d) (a.w3 % d)
            (div-add-mod a.w3 d) h2.1 h1.1 h0.1,
        h0.2,
      )
