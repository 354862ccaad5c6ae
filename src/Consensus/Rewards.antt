-- ===== src/Consensus/Rewards.antt =====
-- The block subsidy and the supply (src/consensus/rewards.cpp). Heights are not negative here.
pub mod Supply
use cdx.Base.{
  ℕ, zero, suc, ◌+◌, ◌-◌, ◌*◌, ◌/◌, ◌^◌, ◌&&◌, not, true, false, Bool, ltb, leb, ◌==◌,
  if◌then◌else◌,
}
use cdx.Base.Int.{ℤ, ◌+ℤ◌, leb_ℤ}
use cdx.Params.{halving_interval, initial_block_reward}

-- GetBlockSubsidy
unfoldable pub get_block_subsidy : ℕ → ℕ
get_block_subsidy height =
    let halvings = height / halving_interval in
    if leb 64 halvings then 0 else initial_block_reward / 2 ^ halvings

-- IsCoinbaseValueValid
unfoldable pub is_coinbase_value_valid : ℤ → ℤ → ℤ → Bool
is_coinbase_value_valid coinbase_value subsidy fees = leb_ℤ coinbase_value (subsidy +ℤ fees)

-- The end of the run of heights with one subsidy, cut at `height`.
unfoldable pub interval_end : ℕ → ℕ → ℕ
interval_end height h =
    let stop = (h / halving_interval + 1) * halving_interval in
    if ltb stop height then stop else height

-- The loop of GetCumulativeSupplyAt, with fuel.
unfoldable pub supply_loop : ℕ → ℕ → ℕ → ℕ → ℕ
supply_loop zero height h total = total
supply_loop (suc fuel) height h total =
    let stop = interval_end height h in
    let rest = supply_loop fuel height stop (total + get_block_subsidy h * (stop - h)) in
    if ltb h height && not (get_block_subsidy h == 0) then rest else total

-- GetCumulativeSupplyAt; the subsidy is 0 after 33 runs, so 65 rounds are enough.
unfoldable pub get_cumulative_supply_at : ℕ → ℕ
get_cumulative_supply_at height = supply_loop 65 height 0 0
