-- ===== src/Consensus/Policy.antt =====
-- The fee policy (src/consensus/policy.cpp) and the last height with a subsidy
-- (src/consensus/rules.cpp). A size is a 64-bit number.
use cdx.Base.{ℕ, ◌*◌, ◌/◌, ◌%◌, ◌^◌, ◌≤◌, ◌≡◌, arith, ltb, if◌then◌else◌}
use cdx.Params.{default_fee_rate, halving_interval}
use cdx.Consensus.Rewards.{get_block_subsidy}

-- EstimateSmartFee
abbrev pub estimate_smart_fee : ℕ
estimate_smart_fee = default_fee_rate

-- GetDefaultFeeRate
abbrev pub get_default_fee_rate : ℕ
get_default_fee_rate = default_fee_rate

-- CalculateFee
unfoldable pub calculate_fee : ℕ → ℕ
calculate_fee tx_size =
    let fee = tx_size * estimate_smart_fee % 2 ^ 64 / 1000 in if ltb fee 100 then 100 else fee

-- GetMaxHeightWithSubsidy
abbrev pub get_max_height_with_subsidy : ℕ
get_max_height_with_subsidy = 64 * halving_interval

-- From this height on there is no subsidy.
pub get_block_subsidy-get_max_height_with_subsidy :
    (height : ℕ) → get_max_height_with_subsidy ≤ height → get_block_subsidy height ≡ 0
unfolding get_block_subsidy
get_block_subsidy-get_max_height_with_subsidy height h = ground arith
