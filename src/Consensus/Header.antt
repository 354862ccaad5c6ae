-- ===== src/Consensus/Header.antt =====
-- The check of a block header (src/consensus/validation.cpp, CheckBlockHeader), with the hash of a
-- header (src/blockchain/block.cpp, CBlockHeader::GetHash).
pub mod Work
use cdx.Base.{arith, ◌^◌, leb, not, Option, some, none, ◌<◌, ◌≤◌, ◌≡◌}
use cdx.Result.{fail_if-eq-ok, fail_if-then, Result, ok, ◌>>◌, fail_if}
use cdx.Crypto.{sha256d, Openssl}
use cdx.Block.{serialize_header, BlockHeader}
use cdx.Uint256.{to_nat, IsWords, u256_eq, U256}
use cdx.Params.{ChainParams}
use cdx.Consensus.Difficulty.{target_from_bits, check_proof_of_work}
use cdx.Uint256.Order.{u256_eq_iff}
use cdx.Consensus.Difficulty.Target.{check_proof_of_work_lem}

pub data HeaderError : Type 0 where
  pow_failed prev_mismatch genesis_mismatch timestamp_not_greater : HeaderError

module _ (ssl : Openssl) where
  -- CBlockHeader::GetHash
  unfoldable pub get_hash : BlockHeader → U256
  get_hash header = sha256d ssl (serialize_header header)

  unfoldable pub check_genesis : U256 → Option U256 → Result HeaderError (Unit {0})
  check_genesis hash none = ok tt
  check_genesis hash (some expected) = fail_if (not (u256_eq hash expected)) genesis_mismatch

  -- The checks against the previous header, and for the first block those against the genesis hash.
  unfoldable pub check_prev :
      BlockHeader → Option BlockHeader → ChainParams → Result HeaderError (Unit {0})
  unfolding check_genesis
  check_prev header none params = check_genesis (get_hash header) params.genesis_hash
  check_prev header (some prev) params = do
    fail_if (not (u256_eq header.prev_block_hash (get_hash prev))) prev_mismatch
    fail_if (leb header.timestamp prev.timestamp) timestamp_not_greater

  -- CheckBlockHeader
  unfoldable pub check_block_header :
      BlockHeader → Option BlockHeader → ChainParams → Result HeaderError (Unit {0})
  unfolding check_prev
  check_block_header header prev params = do
    fail_if (not (check_proof_of_work (get_hash header) header.bits)) pow_failed
    check_prev header prev params
