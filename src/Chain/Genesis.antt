-- ===== src/Chain/Genesis.antt =====
-- The genesis block (src/blockchain/genesis.h, genesis.cpp) and ApplyGenesis
-- (src/blockchain/blockchain.cpp).
use cdx.Base.{◌%◌, length, ◌+◌, ℕ, zero, suc, [], ◌∷◌, some, none, Option, true, false}
use cdx.Base.Int.{ℤ, pos}
use cdx.Utxo.{CoinsView, uint256_key}
use cdx.Result.{Result, ok, err, ◌>>=◌}
use cdx.Chain.{BlockIndex, index_entry, Blockchain}
use cdx.Bytes.{Bytes}
use cdx.Consensus.Validation.{check_block, Error}
use cdx.Crypto.{Openssl}
use cdx.Block.{Block, BlockHeader}
use cdx.Params.{initial_block_reward, ChainParams}
use cdx.Storage.{Storage}
use cdx.Transaction.{Tx}
use cdx.Consensus.Difficulty.{check_proof_of_work}
use cdx.Consensus.Header.{get_hash, check_block_header}
use cdx.Uint256.{u256_zero}
use cdx.Uint256.Division.{get_block_work}
use cdx.StdMap.{insert}
use cdx.Merkle.{merkle_root_of_txs}

-- GetGenesisMessage: "CDX Genesis - Codex Coin, 21,000,000 CDX, SHA-256d PoW, UTXO, P2P"
abbrev pub get_genesis_message : Bytes
get_genesis_message =
    67 ∷ 68 ∷ 88 ∷ 32 ∷ 71 ∷ 101 ∷ 110 ∷ 101 ∷ 115 ∷ 105 ∷ 115 ∷ 32 ∷ 45 ∷ 32 ∷ 67 ∷ 111 ∷ 100 ∷ 101
    ∷ 120 ∷ 32 ∷ 67 ∷ 111 ∷ 105 ∷ 110 ∷ 44 ∷ 32 ∷ 50 ∷ 49 ∷ 44 ∷ 48 ∷ 48 ∷ 48 ∷ 44 ∷ 48 ∷ 48 ∷ 48
    ∷ 32 ∷ 67 ∷ 68 ∷ 88 ∷ 44 ∷ 32 ∷ 83 ∷ 72 ∷ 65 ∷ 45 ∷ 50 ∷ 53 ∷ 54 ∷ 100 ∷ 32 ∷ 80 ∷ 111 ∷ 87 ∷ 44
    ∷ 32 ∷ 85 ∷ 84 ∷ 88 ∷ 79 ∷ 44 ∷ 32 ∷ 80 ∷ 50 ∷ 80 ∷ []

-- CDX_GENESIS_TIMESTAMP
abbrev pub genesis_timestamp : ℕ
genesis_timestamp = 1717200000

-- The errors of ApplyGenesis.
pub data GenesisError : Type 0 where
  could_not_mine : GenesisError
  genesis_invalid : Error → GenesisError

module _ (ssl : Openssl) where
  -- CreateGenesisBlock
  unfoldable pub create_genesis_block : ℕ → ℤ → ℕ → Bytes → ℕ → Block
  create_genesis_block bits reward_base timestamp message nonce =
      let coinbase : Tx = record {
        version = pos 1;
        vin =
            record {
              prevout = record { hash = u256_zero; n = 0xffffffff };
              script_sig = (length message % 256) ∷ message;
              sequence = 0xffffffff;
            }
            ∷ [];
        vout = record { value = reward_base; script_pub_key = 0x51 ∷ [] } ∷ [];
        lock_time = 0;
      } in
      record {
        header = record {
          version = pos 1;
          prev_block_hash = u256_zero;
          merkle_root = merkle_root_of_txs ssl (coinbase ∷ []);
          timestamp = timestamp;
          bits = bits;
          nonce = nonce;
        };
        vtx = coinbase ∷ [];
      }

  -- GetGenesisBlock
  unfoldable pub get_genesis_block : ChainParams → Block
  get_genesis_block params =
      create_genesis_block params.min_difficulty_bits (pos initial_block_reward) genesis_timestamp
        get_genesis_message params.genesis_nonce

  -- The search of ApplyGenesis for a nonce, over as many nonces as there is fuel.
  unfoldable pub search_nonce : ℕ → ℕ → BlockHeader → Option BlockHeader
  search_nonce zero nonce header = none
  search_nonce (suc fuel) nonce header =
      let tried : BlockHeader = record header { nonce = nonce } in
      elim (check_proof_of_work (get_hash ssl tried) tried.bits) [
        | true ↦ some tried
        | false ↦ search_nonce fuel (nonce + 1) header
      ]

  -- The genesis block with the nonce that ApplyGenesis settles on.
  unfoldable pub mined_genesis : ChainParams → Result GenesisError Block
  mined_genesis params =
      let genesis = get_genesis_block params in
      elim (check_block_header ssl genesis.header none params) as (λ x. Result GenesisError Block) [
        | ok _ ↦ ok genesis
        | err _ ↦
            elim (search_nonce 0xffffffff 0 genesis.header) as (λ x. Result GenesisError Block) [
              | none ↦ err could_not_mine
              | some header ↦ ok (record genesis { header = header })
            ]
      ]

  unfoldable pub as_genesis : {A : Type 0} → Result Error A → Result GenesisError A
  as_genesis (ok a) = ok a
  as_genesis (err e) = err (genesis_invalid e)

module _ (ssl : Openssl) (st : Storage) (params : ChainParams) where
  -- The checks of ApplyGenesis: the genesis block and the coins after it.
  unfoldable pub check_genesis_block : Result GenesisError (Block × CoinsView)
  check_genesis_block = do
    genesis ← mined_genesis ssl params
    checked ← as_genesis ssl (check_block ssl genesis 0 [])
    ok (genesis, checked.0)

  -- The new state of ApplyGenesis; the index keeps the entries that it has.
  unfoldable pub start_chain : Block → CoinsView → Blockchain st → Blockchain st
  start_chain genesis view bc =
      let hash = get_hash ssl genesis.header in
      let work = get_block_work genesis.header.bits in
      let entry : BlockIndex = record (index_entry ssl genesis (pos 0) work true) {
        prev_hash = u256_zero;
      } in
      record {
        chain = record {
          view = view;
          index = insert hash entry bc.chain.index;
          by_height = hash ∷ [];
          height = pos 0;
          tip_hash = hash;
          chain_work = work;
        };
        stored =
            st.save_chain_state view (pos 0) hash (hash ∷ []) (st.write_block genesis 0 bc.stored);
      }

  unfoldable pub genesis_checked :
      Blockchain st
      → Result GenesisError (Block × CoinsView)
      → Blockchain st × Result GenesisError (Unit {0})
  genesis_checked bc (err could_not_mine) = (bc, err could_not_mine)
  genesis_checked bc (err (genesis_invalid e)) =
      (record bc { chain = record bc.chain { view = [] } }, err (genesis_invalid e))
  genesis_checked bc (ok (genesis, view)) = (start_chain genesis view bc, ok tt)

  -- ApplyGenesis; an invalid genesis block leaves an empty coin set behind.
  unfoldable pub apply_genesis : Blockchain st → Blockchain st × Result GenesisError (Unit {0})
  apply_genesis bc = genesis_checked bc check_genesis_block
