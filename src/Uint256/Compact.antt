-- ===== src/Uint256/Compact.antt =====
-- The compact form of a target (src/crypto/uint256.cpp, getCompact and setCompact; src/crypto/uint256.h,
-- highestBit and getBitLength).
use cdx.Base.Bits.{bit_and-lt}
use cdx.Base.{
  Bool-cases, bit_or, refl, arith, ◌≡◌, not, ◌==◌, bit_and, leb, if◌then◌else◌, ℕ, zero, suc, ◌+◌,
  ◌-◌, ◌*◌, ◌/◌, ◌%◌, ◌^◌, ◌<◌, Option, some, none, inl, inr,
}
use native.Mathlib.Nat.{div-le_self}
use cdx.Uint256.{of_u64, IsWords, U256}
use cdx.Uint256.Shift.{shl-IsWords, shr_word, word, shl_word, shl, shr}

-- The loop of highestBit over the bits of one word, from bit b - 1 down.
unfoldable pub top_bit : ℕ → ℕ → Option ℕ
top_bit zero w = none
top_bit (suc b) w = if w / 2 ^ b % 2 == 1 then some b else top_bit b w

unfoldable pub top_bit_from : ℕ → U256 → Option ℕ
top_bit_from zero a = none
top_bit_from (suc i) a =
    let rest = top_bit_from i a in
    elim (top_bit 64 (word a i)) [ none ↦ rest | some b ↦ some (i * 64 + b) ]

-- highestBit, with none for -1
unfoldable pub highest_bit : U256 → Option ℕ
highest_bit a = top_bit_from 4 a

-- getBitLength
unfoldable pub get_bit_length : U256 → ℕ
get_bit_length a = elim (highest_bit a) [ none ↦ 0 | some b ↦ b + 1 ]

-- The mantissa of n_size bytes, before the sign bit is looked at.
unfoldable pub mantissa : U256 → ℕ → ℕ
mantissa a n_size =
    if leb n_size 3
    then a.w0 % 2 ^ 32 * 2 ^ (8 * (3 - n_size)) % 2 ^ 32
    else (shr a (8 * (n_size - 3))).w0 % 2 ^ 32

-- getCompact
unfoldable pub get_compact : U256 → ℕ
get_compact a =
    let n_size = (get_bit_length a + 7) / 8 in
    let compact = mantissa a n_size in
    if n_size == 0
    then 0
    else if not (bit_and compact 0x00800000 == 0)
    then bit_or (compact / 2 ^ 8) ((n_size + 1) * 2 ^ 24 % 2 ^ 32)
    else bit_or compact (n_size * 2 ^ 24 % 2 ^ 32)

-- setCompact
unfoldable pub set_compact : ℕ → U256
set_compact compact =
    let n_size = compact / 2 ^ 24 in
    let n_word = bit_and compact 0x007fffff in
    if leb n_size 3
    then of_u64 (n_word / 2 ^ (8 * (3 - n_size)))
    else shl (of_u64 n_word) (8 * (n_size - 3))

-- The target of 32 bits has 64-bit words.
pub set_compact-IsWords : (compact : ℕ) → compact < 2 ^ 32 → IsWords (set_compact compact)
unfolding set_compact
set_compact-IsWords compact h =
    let n_word = bit_and compact 0x007fffff in
    let bound : n_word < 2 ^ 32 = bit_and-lt 32 compact 0x007fffff h (omega arith) in
    let d = 8 * (3 - compact / 2 ^ 24) in
    elim (Bool-cases (leb (compact / 2 ^ 24) 3)) [
      | inl short ↦
          rw short (
            omega (arith, div-le_self n_word (2 ^ d), bound),
            omega arith,
            omega arith,
            omega arith,
          )
      | inr long ↦ rw long (
          shl-IsWords (of_u64 n_word) (8 * (compact / 2 ^ 24 - 3))
            (omega (arith, bound), omega arith, omega arith, omega arith))
    ]

-- The targets of the main network and of regtest, and back.
default_target : set_compact 0x1d00ffff ≡ record { w0 = 0; w1 = 0; w2 = 0; w3 = 0xffff0000 }
unfolding set_compact shl shl_word word
default_target = refl

default_bits : get_compact (set_compact 0x1d00ffff) ≡ 0x1d00ffff
unfolding get_compact get_bit_length highest_bit top_bit_from top_bit mantissa shr shr_word
    set_compact shl shl_word word
default_bits = refl

regtest_bits : get_compact (set_compact 0x207fffff) ≡ 0x207fffff
unfolding get_compact get_bit_length highest_bit top_bit_from top_bit mantissa shr shr_word
    set_compact shl shl_word word
regtest_bits = refl
