-- ===== src/Params.antt =====
-- Chain parameters (src/config/networks.h and networks.cpp): the constants of the consensus, and
-- the fields of ChainParams that the consensus reads.
pub mod Networks
use cdx.Base.{ℕ, ◌*◌, Bool, false, Option, none}
use cdx.Uint256.{U256}

abbrev pub coin : ℕ
coin = 100_000_000

abbrev pub max_supply_base : ℕ
max_supply_base = 21_000_000 * coin

abbrev pub initial_block_reward : ℕ
initial_block_reward = 50 * coin

abbrev pub halving_interval : ℕ
halving_interval = 210_000

abbrev pub coinbase_maturity : ℕ
coinbase_maturity = 120

abbrev pub default_fee_rate : ℕ
default_fee_rate = 1000

abbrev pub default_target_bits : ℕ
default_target_bits = 0x1d00ffff

abbrev pub regtest_target_bits : ℕ
regtest_target_bits = 0x207fffff

-- ChainParams; `genesis_hash` is fromHexReversed(genesisHashHex), none where that text is empty.
pub record ChainParams : Type 0 where
  pub network_magic : ℕ
  pub address_version : ℕ
  pub target_block_time : ℕ
  pub difficulty_interval : ℕ
  pub max_adjustment : ℕ
  pub pow_no_retarget : Bool
  pub min_difficulty_bits : ℕ
  pub genesis_hash : Option U256
  pub genesis_nonce : ℕ

-- TESTNET: retargets, and has no genesis hash configured.
abbrev pub testnet : ChainParams
testnet = record {
  network_magic = 0xCDA1CD02;
  address_version = 0x4F;
  target_block_time = 600;
  difficulty_interval = 2016;
  max_adjustment = 4;
  pow_no_retarget = false;
  min_difficulty_bits = default_target_bits;
  genesis_hash = none;
  genesis_nonce = 0;
}
