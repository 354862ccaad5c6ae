-- ===== src/Uint256.antt =====
-- The 256-bit unsigned integer (src/crypto/uint256.h, class uint256): four 64-bit words, the
-- lowest first, with the loops over the words written out. A word is a number below 2 ^ 64
-- (`IsWords`), `to_nat` is the integer that the words stand for, and every operation cuts each word
-- to 64 bits as the casts of the code do. `|` on words is the native `bit_or`.
pub mod Arith
pub mod Bytes
pub mod Compact
pub mod Division
pub mod Shift
pub mod Order
use cdx.Base.{
  ℕ, zero, suc, ◌+◌, ◌-◌, ◌*◌, ◌/◌, ◌%◌, ◌^◌, ◌<◌, Bool, true, false, not, ◌&&◌, bit_or, ltb, leb,
  ◌==◌, if◌then◌else◌,
}

pub record U256 : Type 0 where
  pub w0 : ℕ
  pub w1 : ℕ
  pub w2 : ℕ
  pub w3 : ℕ

-- The words are 64-bit words.
abbrev pub IsWords : U256 → Type 0
IsWords a = (a.w0 < 2 ^ 64) × (a.w1 < 2 ^ 64) × (a.w2 < 2 ^ 64) × (a.w3 < 2 ^ 64)

-- The integer that the words stand for.
abbrev pub to_nat : U256 → ℕ
to_nat a = a.w0 + 2 ^ 64 * a.w1 + 2 ^ 128 * a.w2 + 2 ^ 192 * a.w3

-- uint256(), clear
abbrev pub u256_zero : U256
u256_zero = record { w0 = 0; w1 = 0; w2 = 0; w3 = 0 }

-- uint256(uint64_t)
abbrev pub of_u64 : ℕ → U256
of_u64 v = record { w0 = v; w1 = 0; w2 = 0; w3 = 0 }

-- isZero
unfoldable pub is_zero : U256 → Bool
is_zero a = a.w0 == 0 && a.w1 == 0 && a.w2 == 0 && a.w3 == 0

-- operator==
abbrev pub u256_eq : U256 → U256 → Bool
u256_eq a b = a.w0 == b.w0 && a.w1 == b.w1 && a.w2 == b.w2 && a.w3 == b.w3

-- operator<, from the highest word down
unfoldable pub less : U256 → U256 → Bool
less a b =
    if not (a.w3 == b.w3)
    then ltb a.w3 b.w3
    else if not (a.w2 == b.w2)
    then ltb a.w2 b.w2
    else if not (a.w1 == b.w1)
    then ltb a.w1 b.w1
    else if not (a.w0 == b.w0)
    then ltb a.w0 b.w0
    else false

-- operator<=
unfoldable pub less_eq : U256 → U256 → Bool
unfolding less
less_eq a b = not (less b a)

-- operator+, the 128-bit sums carried from word to word
unfoldable pub add : U256 → U256 → U256
add a b =
    let s0 = a.w0 + b.w0 in
    let s1 = a.w1 + b.w1 + s0 / 2 ^ 64 in
    let s2 = a.w2 + b.w2 + s1 / 2 ^ 64 in
    let s3 = a.w3 + b.w3 + s2 / 2 ^ 64 in
    record { w0 = s0 % 2 ^ 64; w1 = s1 % 2 ^ 64; w2 = s2 % 2 ^ 64; w3 = s3 % 2 ^ 64 }

-- One word of operator-: the 128-bit difference, cut to 64 bits, and the new borrow.
unfoldable pub sub_word : ℕ → ℕ → ℕ → ℕ
sub_word w o borrow = (w + 2 ^ 128 - o - borrow) % 2 ^ 128 % 2 ^ 64

unfoldable pub sub_borrow : ℕ → ℕ → ℕ → ℕ
sub_borrow w o borrow = if ltb w (o + borrow) then 1 else 0

-- operator-
unfoldable pub sub : U256 → U256 → U256
sub a b =
    let b0 = sub_borrow a.w0 b.w0 0 in
    let b1 = sub_borrow a.w1 b.w1 b0 in
    let b2 = sub_borrow a.w2 b.w2 b1 in
    record {
      w0 = sub_word a.w0 b.w0 0;
      w1 = sub_word a.w1 b.w1 b0;
      w2 = sub_word a.w2 b.w2 b1;
      w3 = sub_word a.w3 b.w3 b2;
    }

-- mul64
unfoldable pub mul64 : U256 → ℕ → U256
mul64 a m =
    let p0 = a.w0 * m in
    let p1 = a.w1 * m + p0 / 2 ^ 64 in
    let p2 = a.w2 * m + p1 / 2 ^ 64 in
    let p3 = a.w3 * m + p2 / 2 ^ 64 in
    record { w0 = p0 % 2 ^ 64; w1 = p1 % 2 ^ 64; w2 = p2 % 2 ^ 64; w3 = p3 % 2 ^ 64 }

-- div64, the quotient and the remainder; `acc << 64 | w` is a sum, since `w` has 64 bits.
unfoldable pub div64 : U256 → ℕ → U256 × ℕ
div64 a d =
    let a3 = a.w3 in
    let a2 = a3 % d * 2 ^ 64 + a.w2 in
    let a1 = a2 % d * 2 ^ 64 + a.w1 in
    let a0 = a1 % d * 2 ^ 64 + a.w0 in
    (
      record {
        w0 = a0 / d % 2 ^ 64;
        w1 = a1 / d % 2 ^ 64;
        w2 = a2 / d % 2 ^ 64;
        w3 = a3 / d % 2 ^ 64;
      },
      a0 % d,
    )
