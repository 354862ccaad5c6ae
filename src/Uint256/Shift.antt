-- ===== src/Uint256/Shift.antt =====
-- Shifts (src/crypto/uint256.h, operator<< and operator>>).
use native.Mathlib.Nat.{div-le_self}
use cdx.Base.Bits.{bit_or-lt}
use cdx.Base.{
  bit_or, ◌&&◌, ◌==◌, not, leb, Bool-cases, arith, ltb, if◌then◌else◌, inl, inr, ℕ, zero, suc, ◌+◌,
  ◌-◌, ◌*◌, ◌/◌, ◌%◌, ◌^◌, ◌<◌,
}
use cdx.Uint256.{u256_zero, IsWords, U256}

-- w[i]
unfoldable pub word : U256 → ℕ → ℕ
word a zero = a.w0
word a (suc zero) = a.w1
word a (suc (suc zero)) = a.w2
word a (suc (suc (suc i))) = a.w3

-- Word i of a << (64 * word_shift + bit_shift).
unfoldable pub shl_word : U256 → ℕ → ℕ → ℕ → ℕ
shl_word a word_shift bit_shift i =
    let src = i - word_shift in
    let high = word a src * 2 ^ bit_shift % 2 ^ 64 in
    if ltb i word_shift
    then 0
    else if not (bit_shift == 0) && ltb 0 src
    then bit_or high (word a (src - 1) / 2 ^ (64 - bit_shift))
    else high

-- operator<<
unfoldable pub shl : U256 → ℕ → U256
shl a n = if leb 256 n then u256_zero else record {
  w0 = shl_word a (n / 64) (n % 64) 0;
  w1 = shl_word a (n / 64) (n % 64) 1;
  w2 = shl_word a (n / 64) (n % 64) 2;
  w3 = shl_word a (n / 64) (n % 64) 3;
}

-- Word i of a >> (64 * word_shift + bit_shift).
unfoldable pub shr_word : U256 → ℕ → ℕ → ℕ → ℕ
shr_word a word_shift bit_shift i =
    let src = i + word_shift in
    let low = word a src / 2 ^ bit_shift in
    if leb 4 src
    then 0
    else if not (bit_shift == 0) && ltb (src + 1) 4
    then bit_or low (word a (src + 1) * 2 ^ (64 - bit_shift) % 2 ^ 64)
    else low

-- operator>>
unfoldable pub shr : U256 → ℕ → U256
shr a n = if leb 256 n then u256_zero else record {
  w0 = shr_word a (n / 64) (n % 64) 0;
  w1 = shr_word a (n / 64) (n % 64) 1;
  w2 = shr_word a (n / 64) (n % 64) 2;
  w3 = shr_word a (n / 64) (n % 64) 3;
}

word-lt : (a : U256) (i : ℕ) → IsWords a → word a i < 2 ^ 64
unfolding word
word-lt a zero h = h.0
word-lt a (suc zero) h = h.1
word-lt a (suc (suc zero)) h = h.2
word-lt a (suc (suc (suc i))) h = h.3

shl_word-lt : (a : U256) (ws bs i : ℕ) → IsWords a → shl_word a ws bs i < 2 ^ 64
unfolding shl_word
shl_word-lt a ws bs i h =
    let src = i - ws in
    let high = word a src * 2 ^ bs % 2 ^ 64 in
    let low = word a (src - 1) / 2 ^ (64 - bs) in
    let high_lt : high < 2 ^ 64 = omega arith in
    let low_lt : low < 2 ^ 64 =
      omega (arith, div-le_self (word a (src - 1)) (2 ^ (64 - bs)), word-lt a (src - 1) h) in
    grind (arith, high_lt, bit_or-lt 64 high low high_lt low_lt)

-- A shift to the left has 64-bit words.
pub shl-IsWords : (a : U256) (n : ℕ) → IsWords a → IsWords (shl a n)
unfolding shl
shl-IsWords a n h = elim (Bool-cases (leb 256 n)) [
  | inl out ↦ rw out (omega arith)
  | inr inside ↦ rw inside (
    shl_word-lt a (n / 64) (n % 64) 0 h,
    shl_word-lt a (n / 64) (n % 64) 1 h,
    shl_word-lt a (n / 64) (n % 64) 2 h,
    shl_word-lt a (n / 64) (n % 64) 3 h,
  )
]
