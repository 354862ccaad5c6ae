-- ===== src/Mining.antt =====
-- The search for a nonce (src/mining/pow.cpp, MineBlockHeader).
pub mod Candidate
pub mod Search
use cdx.Base.{◌+◌, ◌^◌, ◌++◌, take, ℕ, zero, suc, Option, true, false, Bool, some, none}
use cdx.Block.{serialize_header, BlockHeader}
use cdx.Crypto.{sha256d, Openssl}
use cdx.Bytes.{le_bytes, Bytes}
use cdx.Uint256.{is_zero, less_eq, U256}
use cdx.Consensus.Difficulty.{target_from_bits}

-- The 80 bytes of a header with another nonce in bytes 76 to 79.
unfoldable pub set_nonce : Bytes → ℕ → Bytes
set_nonce hdr nonce = take 76 hdr ++ le_bytes 4 nonce

module _ (ssl : Openssl) where
  -- The loop over the nonces; `stop` is what stopFlag answers before each of them.
  unfoldable pub mine_loop : (ℕ → Bool) → U256 → Bytes → ℕ → ℕ → Option ℕ
  mine_loop stop target hdr zero nonce = none
  mine_loop stop target hdr (suc fuel) nonce = elim (stop nonce) [
    | true ↦ none
    | false ↦ elim (less_eq (sha256d ssl (set_nonce hdr nonce)) target) [
      | true ↦ some nonce
      | false ↦ mine_loop stop target hdr fuel (nonce + 1)
    ]
  ]

  unfoldable pub with_nonce : BlockHeader → Option ℕ → BlockHeader × Bool
  with_nonce header none = (header, false)
  with_nonce header (some nonce) = (record header { nonce = nonce }, true)

  -- MineBlockHeader, which tries the 2 ^ 32 nonces once each
  unfoldable pub mine_block_header : BlockHeader → ℕ → (ℕ → Bool) → BlockHeader × Bool
  mine_block_header header bits stop =
      let target = target_from_bits bits in
      let header' : BlockHeader = record header { bits = bits } in
      let hdr = serialize_header header' in
      elim (is_zero target) as (λ x. BlockHeader × Bool) [
        | true ↦ (header, false)
        | false ↦ with_nonce header' (mine_loop stop target hdr (2 ^ 32) 0)
      ]
