-- ===== src/Merkle.antt =====
-- The merkle tree (src/blockchain/merkle.cpp).
pub mod Levels
use cdx.Base.{ℕ, zero, suc, List, [], ◌∷◌, ◌++◌, map, length}
use cdx.Uint256.{U256, u256_zero}
use cdx.Uint256.Bytes.{get_bytes_le}
use cdx.Crypto.{Openssl, sha256d}
use cdx.Transaction.{Tx}
use cdx.Transaction.Codec.{serialize_tx}

module _ (ssl : Openssl) where
  -- GetTxID
  unfoldable pub get_tx_id : Tx → U256
  get_tx_id tx = sha256d ssl (serialize_tx tx)

  -- The hash over the bytes of two nodes.
  unfoldable pub merkle_parent : U256 → U256 → U256
  merkle_parent a b = sha256d ssl (get_bytes_le a ++ get_bytes_le b)

  -- One round of the loop: the parents of a level, the last node paired with itself if it is left over.
  unfoldable pub next_level : List U256 → List U256
  next_level [] = []
  next_level (a ∷ []) = merkle_parent a a ∷ []
  next_level (a ∷ b ∷ level) = merkle_parent a b ∷ next_level level

  -- while (level.size() > 1), with fuel
  unfoldable pub merkle_loop : ℕ → List U256 → U256
  merkle_loop fuel [] = u256_zero
  merkle_loop fuel (a ∷ []) = a
  merkle_loop zero (a ∷ b ∷ level) = a
  merkle_loop (suc fuel) (a ∷ b ∷ level) = merkle_loop fuel (next_level (a ∷ b ∷ level))

  -- ComputeMerkleRoot of hashes; a level loses at least one node in each round.
  unfoldable pub compute_merkle_root : List U256 → U256
  compute_merkle_root hashes = merkle_loop (length hashes) hashes

  -- ComputeMerkleRoot of transactions
  unfoldable pub merkle_root_of_txs : List Tx → U256
  merkle_root_of_txs txs = compute_merkle_root (map get_tx_id txs)
