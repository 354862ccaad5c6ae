-- ===== src/Uint256/Division.antt =====
-- Division by shifting and subtracting (src/crypto/uint256.h, div, bitTest, setBit, chainWorkOfTarget
-- and pow2_256_div), and the work of a block (src/consensus/chainwork.cpp).
use cdx.Base.{◌==◌, if◌then◌else◌, ℕ, zero, suc, ◌/◌, ◌%◌, ◌^◌, Bool, bit_or}
use cdx.Uint256.{less, sub, u256_zero, of_u64, is_zero, less_eq, add, U256}
use cdx.Uint256.Shift.{shl, word}
use cdx.Uint256.Compact.{set_compact}

-- bitTest
unfoldable pub bit_test : U256 → ℕ → Bool
bit_test a n = word a (n / 64) / 2 ^ (n % 64) % 2 == 1

-- w[i] = v
unfoldable pub set_word : U256 → ℕ → ℕ → U256
set_word a zero v = record a { w0 = v }
set_word a (suc zero) v = record a { w1 = v }
set_word a (suc (suc zero)) v = record a { w2 = v }
set_word a (suc (suc (suc i))) v = record a { w3 = v }

-- setBit
unfoldable pub set_bit : U256 → ℕ → U256
set_bit a n = set_word a (n / 64) (bit_or (word a (n / 64)) (2 ^ (n % 64)))

-- if (rem >= d) { rem -= d; q.setBit(bit); }
unfoldable pub sub_if_ge : U256 → ℕ → U256 → U256 → U256 × U256
sub_if_ge d bit q rem = if less_eq d rem then (set_bit q bit, sub rem d) else (q, rem)

-- The loop of div over the bits below `bit`.
unfoldable pub div_loop : ℕ → U256 → U256 → U256 → U256 → U256
div_loop zero a d q rem = q
div_loop (suc bit) a d q rem =
    let shifted = shl rem 1 in
    let next = if bit_test a bit then record shifted { w0 = bit_or shifted.w0 1 } else shifted in
    let (q', rem') = sub_if_ge d bit q next in div_loop bit a d q' rem'

-- div
unfoldable pub div : U256 → U256 → U256
div a d =
    if is_zero d
    then u256_zero
    else if less a d
    then u256_zero
    else div_loop 256 a d u256_zero u256_zero

-- The loop of pow2_256_div over the bits below `bit`, which are all zero.
unfoldable pub pow2_loop : ℕ → U256 → U256 → U256 → U256
pow2_loop zero d q rem = q
pow2_loop (suc bit) d q rem =
    let (q', rem') = sub_if_ge d bit q (shl rem 1) in pow2_loop bit d q' rem'

-- pow2_256_div
unfoldable pub pow2_256_div : U256 → U256
pow2_256_div d = if is_zero d then u256_zero else pow2_loop 256 d u256_zero (of_u64 1)

-- chainWorkOfTarget
unfoldable pub chain_work_of_target : U256 → U256
chain_work_of_target target = pow2_256_div (add target (of_u64 1))

-- GetBlockWork, of the bits of a header
unfoldable pub get_block_work : ℕ → U256
get_block_work bits = chain_work_of_target (set_compact bits)
