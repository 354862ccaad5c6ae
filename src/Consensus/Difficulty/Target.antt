-- ===== src/Consensus/Difficulty/Target.antt =====
-- What the checks and the adjustment of the difficulty compute (src/consensus/difficulty.cpp).
use cdx.Uint256.{mul64, div64}
use cdx.Uint256.Arith.{mul64_lem, div64_lem}
use cdx.Uint256.Order.{less_eq-le, less-lt, is_zero-eq}
use native.Mathlib.Nat.{div-eq_of_lt-le}
use cdx.Base.Int.{pos, negsuc}
use cdx.Base.{
  sym, Bool-cases, arith, ltb, if◌then◌else◌, ◌↔◌, ◌≡◌, ◌<◌, ◌≤◌, inl, inr, ℕ, ◌+◌, ◌*◌, ◌/◌, ◌%◌,
  ◌^◌, true,
}
use cdx.Consensus.Difficulty.{
  target_from_bits, expected_time, actual_time, check_proof_of_work, new_target,
}
use cdx.Uint256.{to_nat, IsWords, U256}
use cdx.Base.Int.{◌-ℤ◌, ltb_ℤ, pos, ℤ}
use cdx.Params.{ChainParams}
use cdx.Uint256.Compact.{set_compact-IsWords, set_compact}
use cdx.Uint256.Arith.{div64_lem, mul64_lem}
use cdx.Uint256.Order.{is_zero-eq}

-- CheckProofOfWork accepts a hash exactly when the target of the bits is not zero and the hash, as
-- an integer, is at most the target.
pub check_proof_of_work_lem :
    (hash : U256) (bits : ℕ)
    → IsWords hash
    → bits < 2 ^ 32
    → (check_proof_of_work hash bits ≡ true)
      ↔ ((0 < to_nat (target_from_bits bits)) × (to_nat hash ≤ to_nat (target_from_bits bits)))
unfolding check_proof_of_work
check_proof_of_work_lem hash bits hw hb =
    let target = set_compact bits in
    let words = set_compact-IsWords bits hb in
    ground (arith, is_zero-eq target, less_eq-le hash target hw words)

clamp_lem :
    (lo hi : ℕ) (z : ℤ)
    → lo ≤ hi
    → (n : ℕ) × ((let raised = if ltb_ℤ z (pos lo) then pos lo else z in
          if ltb_ℤ (pos hi) raised then pos hi else raised)
        ≡ pos n)
      × (lo ≤ n)
      × (n ≤ hi)
      × ((t : ℕ) → z ≡ pos t → lo ≤ t → t ≤ hi → n ≡ t)
clamp_lem lo hi (pos t) h =
    let late = if ltb hi t then hi else t in
    elim (Bool-cases (ltb t lo)) [
      | inl early ↦ (
        lo,
        grind (arith, early),
        omega arith,
        h,
        λ u e. let same : t ≡ u = cc in λ a b. ground (arith, early),
      )
      | inr not_early ↦ (
        late,
        grind (arith, not_early),
        grind arith,
        grind arith,
        λ u e. let same : t ≡ u = cc in λ a b. ground (arith, not_early),
      )
    ]
clamp_lem lo hi (negsuc t) h = (lo, grind arith, omega arith, h, λ u e. cc)

quotient_eq : (q d r p : ℕ) → q * d + r ≡ p → r < d → p / d ≡ q
quotient_eq q d r p e h =
    let up : (q + 1) * d ≡ q * d + d = omega arith in
    div-eq_of_lt-le d (omega arith) (omega (arith, up))

-- The time that the adjustment uses lies between targetBlockTime / 4 and expectedTime * maxAdjustment
-- when these bounds are in order, and is the difference of the block times when that lies there.
pub actual_time_lem :
    (last_time first_time : ℤ) (params : ChainParams)
    → params.target_block_time / 4 ≤ expected_time params * params.max_adjustment
    → (n : ℕ) × (actual_time last_time first_time params ≡ pos n)
      × (params.target_block_time / 4 ≤ n)
      × (n ≤ expected_time params * params.max_adjustment)
      × ((t : ℕ)
          → last_time -ℤ first_time ≡ pos t
          → params.target_block_time / 4 ≤ t
          → t ≤ expected_time params * params.max_adjustment
          → n ≡ t)
unfolding actual_time
actual_time_lem last_time first_time params h =
    clamp_lem (params.target_block_time / 4) (expected_time params * params.max_adjustment)
      (last_time -ℤ first_time) h

-- The target of the next interval is target * time / expectedTime, the product cut to 256 bits,
-- but never above the target of minDifficultyBits.
pub new_target_lem :
    (actual last_bits : ℕ) (params : ChainParams)
    → 0 < expected_time params
    → params.min_difficulty_bits < 2 ^ 32
    → (to_nat (new_target actual last_bits params) ≡ (
        let scaled =
          to_nat (target_from_bits last_bits) * actual % 2 ^ 256 / expected_time params in
        let largest = to_nat (target_from_bits params.min_difficulty_bits) in
        if ltb largest scaled then largest else scaled))
unfolding new_target
new_target_lem actual last_bits params he hb =
    let target = set_compact last_bits in
    let largest = set_compact params.min_difficulty_bits in
    let product = mul64_lem target actual in
    let quotient = div64_lem (mul64 target actual) (expected_time params) product.0 he in
    let scaled = (div64 (mul64 target actual) (expected_time params)).0 in
    let value : to_nat scaled ≡ to_nat target * actual % 2 ^ 256 / expected_time params =
      rw (← product.1) (sym (quotient_eq _ _ _ _ quotient.1 quotient.2)) in
    let words = set_compact-IsWords params.min_difficulty_bits hb in
    ground (arith, less-lt largest scaled words quotient.0, value)
