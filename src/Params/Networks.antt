-- ===== src/Params/Networks.antt =====
-- The three networks (src/config/networks.cpp) with the fields of ChainParams. The hashes are what
-- fromHexReversed makes of their texts.
use cdx.Base.{[], ◌∷◌, true, false, some, if◌then◌else◌}
use cdx.Bytes.{Bytes}
use cdx.Params.{ChainParams, default_target_bits, regtest_target_bits, testnet}
use cdx.Script.{bytes_eq}

-- MAINNET
abbrev pub mainnet : ChainParams
mainnet = record {
  network_magic = 0xCDA1CD01;
  address_version = 0x1E;
  target_block_time = 600;
  difficulty_interval = 2016;
  max_adjustment = 4;
  pow_no_retarget = false;
  min_difficulty_bits = default_target_bits;
  genesis_hash = some (record {
    w0 = 0xca767f4d94e01643;
    w1 = 0xaef5bcec8df70def;
    w2 = 0xc762a6b2ed57e3b6;
    w3 = 0x000000003c2ec558;
  });
  genesis_nonce = 983536281;
}

-- REGTEST
abbrev pub regtest : ChainParams
regtest = record {
  network_magic = 0xCDA1CDFF;
  address_version = 0x6F;
  target_block_time = 600;
  difficulty_interval = 2016;
  max_adjustment = 4;
  pow_no_retarget = true;
  min_difficulty_bits = regtest_target_bits;
  genesis_hash = some (record {
    w0 = 0xd9061bde3c8bcdcd;
    w1 = 0xd082a7526c3f73a0;
    w2 = 0x19c4531cc699d8bf;
    w3 = 0x6cd19df11dc9155a;
  });
  genesis_nonce = 0;
}

-- "testnet"
abbrev pub testnet_name : Bytes
testnet_name = 116 ∷ 101 ∷ 115 ∷ 116 ∷ 110 ∷ 101 ∷ 116 ∷ []

-- "regtest"
abbrev pub regtest_name : Bytes
regtest_name = 114 ∷ 101 ∷ 103 ∷ 116 ∷ 101 ∷ 115 ∷ 116 ∷ []

-- GetParams
unfoldable pub get_params : Bytes → ChainParams
get_params network =
    if bytes_eq network testnet_name
    then testnet
    else if bytes_eq network regtest_name
    then regtest
    else mainnet
