-- ===== src/Storage.antt =====
-- The storage of blocks and of the state of the chain (src/storage/interface.h, class IStorage),
-- over an unknown state, and what the chain relies on.
pub mod Blocks
pub mod State
pub mod Peers
use cdx.Base.{ℕ, Option, some, ◌≡◌, List}
use cdx.Block.{Block}
use cdx.Crypto.{Openssl}
use cdx.Uint256.{U256}
use cdx.Utxo.{CoinsView}
use cdx.Consensus.Header.{get_hash}
use cdx.Base.Int.{ℤ}

-- IStorage. The callers ignore what the two writes return.
pub record Storage : Type 1 where
  pub State : Type 0
  pub write_block : Block → ℕ → State → State
  pub read_block : State → U256 → Option Block
  pub save_chain_state : CoinsView → ℤ → U256 → List U256 → State → State
  pub load_chain_state : State → Option (CoinsView × ℤ × U256 × List U256)

-- A block that is read has the hash under which it was asked for.
pub record IsStorage (ssl : Openssl) (st : Storage) : Type 0 where
  pub get_hash-read_block :
      (s : st.State) (hash : U256) (blk : Block)
      → st.read_block s hash ≡ some blk
      → get_hash ssl blk.header ≡ hash
