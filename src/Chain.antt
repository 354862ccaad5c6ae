-- ===== src/Chain.antt =====
-- The block chain (src/blockchain/blockchain.h and blockchain.cpp): the index of the blocks, the
-- active chain with its coins, and the operations of CBlockchain. A height is -1 before the first
-- block. The lock around the state and the writing of the storage to disk are left out.
pub mod Accept
pub mod Genesis
pub mod Load
pub mod Reorg
pub mod Heights
pub mod Fork
pub mod Steps
pub mod Invariant
pub mod Runs
pub mod Errors
use cdx.Base.{
  length, ◌||◌, Bool, false, get_elem?, if◌then◌else◌, List, [], ◌∷◌, some, none, ℕ, suc, zero,
  Option,
}
use cdx.Base.Int.{ltb_ℤ, ℤ, pos, negsuc}
use cdx.Utxo.{CoinsView, uint256_key}
use cdx.Uint256.{u256_eq, U256, u256_zero}
use cdx.Storage.{Storage}
use cdx.Crypto.{Openssl}
use cdx.StdMap.{contains, StdMap, find}
use cdx.Block.{Block, BlockHeader}
use cdx.Consensus.Header.{get_hash}

-- CBlockIndex
pub record BlockIndex : Type 0 where
  pub hash : U256
  pub prev_hash : U256
  pub height : ℤ
  pub bits : ℕ
  pub timestamp : ℕ
  pub chain_work : U256
  pub merkle_root : U256
  pub is_genesis : Bool

-- CBlockIndex()
abbrev pub default_index : BlockIndex
default_index = record {
  hash = u256_zero;
  prev_hash = u256_zero;
  height = negsuc 0;
  bits = 0;
  timestamp = 0;
  chain_work = u256_zero;
  merkle_root = u256_zero;
  is_genesis = false;
}

-- CChain
pub record Chain : Type 0 where
  pub view : CoinsView
  pub index : StdMap U256 BlockIndex
  pub by_height : List U256
  pub height : ℤ
  pub tip_hash : U256
  pub chain_work : U256

-- CChain()
abbrev pub empty_chain : Chain
empty_chain = record {
  view = [];
  index = [];
  by_height = [];
  height = negsuc 0;
  tip_hash = u256_zero;
  chain_work = u256_zero;
}

-- byHeight at a height, in the range of the vector
unfoldable pub hash_at : List U256 → ℤ → Option U256
hash_at by_height (pos n) = get_elem? by_height n
hash_at by_height (negsuc n) = none

-- CBlockchain: the chain and the state of its storage
pub record Blockchain (st : Storage) : Type 0 where
  pub chain : Chain
  pub stored : st.State

-- CChain::Tip
unfoldable pub tip : Chain → Option BlockIndex
tip c =
    if ltb_ℤ c.height (pos 0)
    then none
    else elim (hash_at c.by_height c.height) [ none ↦ none | some hash ↦ find hash c.index ]

module _ (ssl : Openssl) where
  -- The index entry of a block, as AcceptBlock, AddIndexEntry and the genesis block make it.
  unfoldable pub index_entry : Block → ℤ → U256 → Bool → BlockIndex
  index_entry blk height chain_work is_genesis = record {
    hash = get_hash ssl blk.header;
    prev_hash = blk.header.prev_block_hash;
    height = height;
    bits = blk.header.bits;
    timestamp = blk.header.timestamp;
    chain_work = chain_work;
    merkle_root = blk.header.merkle_root;
    is_genesis = is_genesis;
  }

module _ (st : Storage) where
  -- GetIndex
  unfoldable pub get_index : Blockchain st → U256 → Option BlockIndex
  get_index bc hash = find hash bc.chain.index

  -- HaveBlock
  unfoldable pub have_block : Blockchain st → U256 → Bool
  have_block bc hash = contains hash bc.chain.index

  -- GetBlockHashByHeight
  unfoldable pub get_block_hash_by_height : Blockchain st → ℤ → Option U256
  get_block_hash_by_height bc height =
      if ltb_ℤ height (pos 0) || ltb_ℤ bc.chain.height height
      then none
      else hash_at bc.chain.by_height height

  read_found : Blockchain st → Option U256 → Option Block
  read_found bc none = none
  read_found bc (some hash) = st.read_block bc.stored hash

  -- GetBlockByHeight
  unfoldable pub get_block_by_height : Blockchain st → ℤ → Option Block
  unfolding read_found
  get_block_by_height bc height = read_found bc (get_block_hash_by_height bc height)

  -- GetBlockHeader
  unfoldable pub get_block_header : Blockchain st → U256 → Option BlockHeader
  get_block_header bc hash = elim (st.read_block bc.stored hash) [
    | none ↦ none
    | some blk ↦ some blk.header
  ]

  -- The loop of FindForkHeight; none when it runs off the vector or out of fuel.
  unfoldable pub fork_loop : ℕ → Blockchain st → U256 → ℤ → Option ℤ
  fork_loop zero bc cur h = none
  fork_loop (suc fuel) bc cur h =
      let next : Option ℤ = elim (find cur bc.chain.index) [
        | none ↦ some (negsuc 0)
        | some idx ↦ elim (find idx.prev_hash bc.chain.index) [
          | none ↦ some (negsuc 0)
          | some before ↦ fork_loop fuel bc idx.prev_hash before.height
        ]
      ] in
      if ltb_ℤ h (pos 0) then some (negsuc 0) else elim (hash_at bc.chain.by_height h) [
        | none ↦ none
        | some hash ↦ if u256_eq hash cur then some h else next
      ]

  -- FindForkHeight, with as much fuel as there are entries; -1 when there is no fork point
  unfoldable pub find_fork_height : Blockchain st → U256 → Option ℤ
  find_fork_height bc hash = elim (find hash bc.chain.index) [
    | none ↦ some (negsuc 0)
    | some idx ↦
        fork_loop (suc (length bc.chain.index)) bc hash
          (if ltb_ℤ bc.chain.height idx.height then bc.chain.height else idx.height)
  ]
