-- ===== src/Chain/Load.antt =====
-- Init and LoadFromStorage (src/blockchain/blockchain.cpp).
use cdx.Base.{◌+◌, ℕ, zero, suc, List, [], ◌∷◌, some, none, true, false}
use cdx.Base.Int.{ℤ, pos}
use cdx.Utxo.{CoinsView, uint256_key}
use cdx.Result.{Result, ok}
use cdx.Chain.{default_index, Chain, BlockIndex, index_entry, Blockchain}
use cdx.Uint256.{add, U256}
use cdx.Crypto.{Openssl}
use cdx.StdMap.{insert, find, StdMap}
use cdx.Storage.{Storage}
use cdx.Params.{ChainParams}
use cdx.Block.{Block}
use cdx.Chain.Genesis.{apply_genesis, GenesisError}
use cdx.Consensus.Header.{get_hash}
use cdx.Uint256.Division.{get_block_work}

-- index[hash], which makes an entry where there is none: the entry and the index after it.
unfoldable pub index_at : U256 → StdMap U256 BlockIndex → BlockIndex × StdMap U256 BlockIndex
index_at hash index = elim (find hash index) as (λ x. BlockIndex × StdMap U256 BlockIndex) [
  | some entry ↦ (entry, index)
  | none ↦ (default_index, insert hash default_index index)
]

module _ (ssl : Openssl) (st : Storage) (params : ChainParams) where
  -- The entry of a block that was read, number i of the vector.
  unfoldable pub load_entry : ℕ → Block → StdMap U256 BlockIndex → StdMap U256 BlockIndex
  load_entry zero blk index =
      insert (get_hash ssl blk.header)
        (index_entry ssl blk (pos 0) (get_block_work blk.header.bits) true) index
  load_entry (suc i) blk index =
      let (prev, index') = index_at blk.header.prev_block_hash index in
      insert (get_hash ssl blk.header)
        (index_entry ssl blk (pos (suc i)) (add prev.chain_work (get_block_work blk.header.bits))
          false)
        index'

  -- The loop that rebuilds the index from the blocks number i and on.
  unfoldable pub load_loop :
      st.State → ℕ → List U256 → StdMap U256 BlockIndex → StdMap U256 BlockIndex
  load_loop stored i [] index = index
  load_loop stored i (hash ∷ by_height) index =
      load_loop stored (i + 1) by_height
        (elim (st.read_block stored hash) as (λ x. StdMap U256 BlockIndex) [
          | none ↦ index
          | some blk ↦ load_entry i blk index
        ])

  -- The chain that LoadChainState and the rebuilt index give.
  unfoldable pub loaded_chain :
      Chain → CoinsView × ℤ × U256 × List U256 → StdMap U256 BlockIndex → Chain
  loaded_chain c (view, height, tip_hash, by_height) index = record {
    view = view;
    index = index;
    by_height = by_height;
    height = height;
    tip_hash = tip_hash;
    chain_work = c.chain_work;
  }

  -- What follows the loop: the work of the tip, or the genesis block if there is no entry.
  unfoldable pub finish_load : Blockchain st → Blockchain st × Result GenesisError (Unit {0})
  finish_load bc = elim bc.chain.index as (λ x. Blockchain st × Result GenesisError (Unit {0})) [
    | [] ↦ apply_genesis ssl st params bc
    | _ ∷ _ ↦
        let (entry, index) = index_at bc.chain.tip_hash bc.chain.index in
        (
          record bc { chain = record bc.chain { index = index; chain_work = entry.chain_work } },
          ok tt,
        )
  ]

  -- LoadFromStorage, which is all that Init does
  unfoldable pub load_from_storage : Blockchain st → Blockchain st × Result GenesisError (Unit {0})
  load_from_storage bc =
      elim (st.load_chain_state bc.stored)
        as (λ x. Blockchain st × Result GenesisError (Unit {0})) [
          | none ↦ apply_genesis ssl st params bc
          | some (view, height, tip_hash, by_height) ↦ finish_load (record bc {
            chain =
                loaded_chain bc.chain (view, height, tip_hash, by_height)
                  (load_loop bc.stored 0 by_height bc.chain.index);
          })
        ]
