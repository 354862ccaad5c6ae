-- ===== src/Tests/Node.antt =====
-- The theorems on the block chain, on a chain of two blocks over a storage in memory.
use cdx.Base.{
  ◌≤◌, false, suc, ◌⊎◌, if◌then◌else◌, ◌+◌, ◌%◌, true, refl, ◌≡◌, arith, [], ◌∷◌, some, none, List,
  Option, ℕ,
}
use cdx.Base.Int.{◌≤ℤ◌, pos, ◌-ℤ◌, ◌+ℤ◌, ℤ}
use cdx.Utxo.{
  total_value, spend_coin, add_coin, is_spendable, get_coin, uint256_key, outpoint_key, CoinsView,
}
use cdx.Result.{err, ok}
use cdx.Uint256.Compact.{set_compact}
use cdx.Crypto.{sha256d_bytes, sha256d, Openssl}
use cdx.Chain.{have_block, BlockIndex, index_entry, empty_chain, Blockchain}
use cdx.Bytes.{as_int64, le_bytes, of_le, Bytes}
use cdx.Block.{serialize_header, Block}
use cdx.Storage.{Storage, IsStorage}
use cdx.Chain.Genesis.{
  genesis_timestamp, start_chain, as_genesis, create_genesis_block, get_genesis_block,
  mined_genesis, check_genesis_block, genesis_checked, apply_genesis,
}
use cdx.Ripemd160.{zeros}
use cdx.Uint256.{u256_zero, less, less_eq, is_zero, u256_eq, U256}
use cdx.Params.{max_supply_base, ChainParams, testnet}
use cdx.Consensus.Header.{check_prev, check_genesis, check_block_header, get_hash}
use cdx.Uint256.Order.{u256_eq_iff}
use cdx.Consensus.Difficulty.{get_next_work_required, next_height, check_proof_of_work}
use cdx.Consensus.Validation.{
  spends, has_null_prevout, check_script_sigs, check_outputs, has_duplicate_inputs, sum_outputs,
  check_input, check_inputs, check_tx_inputs, spend_inputs, add_outputs, check_transaction,
  connect_coinbase, connect_tx, connect_txs, check_block_txs, check_block,
}
use cdx.Merkle.{
  get_tx_id, merkle_parent, next_level, merkle_loop, compute_merkle_root, merkle_root_of_txs,
}
use cdx.Uint256.Bytes.{get_bytes_le, set_bytes_le}
use cdx.Transaction.{Tx, is_coinbase}
use cdx.StdMap.{contains, erase, insert, find}
use cdx.Consensus.Rewards.{get_cumulative_supply_at, is_coinbase_value_valid, get_block_subsidy}
use cdx.Serializer.{write_var_str, write_var_int, write_all, write_uint256}
use cdx.Transaction.Codec.{write_tx_out, write_tx_in, serialize_tx}
use cdx.Uint256.Shift.{word, shl_word, shl}
use cdx.Chain.Runs.{Reach-supply, offered, started, Reach-IsValid, Reach}
use cdx.Chain.Reorg.{extended, Connected, try_child, try_accept_block}
use cdx.Chain.Steps.{IsValid}
use cdx.Chain.Errors.{IsPastEnd, try_accept_block-IsAtomic, accept_block_at_interval, IsAtomic}
use cdx.Chain.Accept.{
  connect_block, as_block, as_header, some_or, first_time, check_accept, accept_checked,
  index_out_of_range, accept_block,
}
use cdx.Uint256.Division.{get_block_work}
use cdx.Chain.Invariant.{apply_genesis-IsValid}
use cdx.Mining.{mine_block_header}
use cdx.Mining.Search.{mine_block_header-good, mine_block_header-finds}
use cdx.Tests.{big, small}
use cdx.Merkle.Levels.{level_rounds, compute_merkle_root-level_rounds, compute_merkle_root-last}

-- The sum of a list of bytes stands for its digest.
unfoldable pub sum_of : Bytes → ℕ
sum_of [] = 0
sum_of (b ∷ bs) = b + sum_of bs

abbrev pub sum_ssl : Openssl
sum_ssl = record {
  sha256_oneshot = λ m. (sum_of m % 256) ∷ zeros 31;
  ec_oct2point = λ b. some b;
  d2i_ecdsa_sig = λ b. some b;
  ecdsa_do_verify = λ hash32 sig point. true;
}

-- The blocks in memory.
unfoldable pub read_memory : List Block → U256 → Option Block
read_memory [] hash = none
read_memory (blk ∷ blks) hash =
    if u256_eq (get_hash sum_ssl blk.header) hash then some blk else read_memory blks hash

abbrev pub memory : Storage
memory = record {
  State = List Block × Option (CoinsView × ℤ × U256 × List U256);
  write_block = λ blk height s. (blk ∷ s.0, s.1);
  read_block = λ s hash. read_memory s.0 hash;
  save_chain_state = λ view height tip by_height s. (s.0, some (view, height, tip, by_height));
  load_chain_state = λ s. s.1;
}

read_memory-hash :
    (blks : List Block) (hash : U256) (blk : Block)
    → read_memory blks hash ≡ some blk
    → get_hash sum_ssl blk.header ≡ hash
unfolding read_memory
read_memory-hash [] hash blk e = cc
read_memory-hash (b ∷ blks) hash blk e =
    ground (arith, u256_eq_iff (get_hash sum_ssl b.header) hash, read_memory-hash blks hash blk)

pub memory-IsStorage : IsStorage sum_ssl memory
memory-IsStorage = record { get_hash-read_block = λ s hash blk e. read_memory-hash s.0 hash blk e }

abbrev pub empty : Blockchain memory
empty = record { chain = empty_chain; stored = ([], none) }

abbrev pub started_chain : Blockchain memory
started_chain = (apply_genesis sum_ssl memory testnet empty).0

pub genesis_good : apply_genesis sum_ssl memory testnet empty ≡ (started_chain, ok tt)
unfolding apply_genesis genesis_checked check_genesis_block mined_genesis get_genesis_block
    create_genesis_block as_genesis check_block_header check_proof_of_work check_genesis check_prev
    get_hash sum_of zeros check_block check_block_txs connect_txs connect_tx connect_coinbase
    check_transaction add_outputs spend_inputs merkle_root_of_txs compute_merkle_root merkle_loop
    next_level merkle_parent get_tx_id sha256d sha256d_bytes set_bytes_le check_tx_inputs
    is_coinbase is_zero check_inputs as_int64 check_input get_coin find is_spendable sum_outputs
    of_le has_duplicate_inputs check_outputs check_script_sigs has_null_prevout get_block_subsidy
    is_coinbase_value_valid add_coin insert spend_coin erase contains spends ◌+ℤ◌ ◌-ℤ◌
    serialize_header write_uint256 serialize_tx get_bytes_le le_bytes set_compact write_all
    write_var_int less_eq shl shl_word word less write_var_str write_tx_in write_tx_out
genesis_good = refl

pub reached : Reach sum_ssl memory testnet started_chain
reached = started empty started_chain genesis_good

abbrev pub genesis : Block
genesis = get_genesis_block sum_ssl testnet

-- A block on the genesis block.
abbrev reward : Tx
reward = record {
  version = pos 1;
  vin =
      record {
        prevout = record { hash = u256_zero; n = 0xffffffff };
        script_sig = 1 ∷ 2 ∷ [];
        sequence = 0;
      }
      ∷ [];
  vout = record { value = pos 5_000_000_000; script_pub_key = 0x51 ∷ [] } ∷ [];
  lock_time = 0;
}

abbrev pub child : Block
child = record {
  header = record {
    version = pos 1;
    prev_block_hash = get_hash sum_ssl genesis.header;
    merkle_root = merkle_root_of_txs sum_ssl (reward ∷ []);
    timestamp = genesis_timestamp + 1;
    bits = 0x1d00ffff;
    nonce = 0;
  };
  vtx = reward ∷ [];
}

abbrev pub next_chain : Blockchain memory
next_chain = (try_accept_block sum_ssl memory testnet child started_chain).0

pub child_accepted : next_chain.chain.height ≡ pos 1
unfolding apply_genesis genesis_checked check_genesis_block mined_genesis get_genesis_block
    create_genesis_block as_genesis check_block_header check_proof_of_work check_genesis check_prev
    get_hash sum_of zeros check_block check_block_txs connect_txs connect_tx connect_coinbase
    check_transaction add_outputs spend_inputs merkle_root_of_txs compute_merkle_root merkle_loop
    next_level merkle_parent get_tx_id sha256d sha256d_bytes set_bytes_le check_tx_inputs
    is_coinbase is_zero check_inputs as_int64 check_input get_coin find is_spendable sum_outputs
    of_le has_duplicate_inputs check_outputs check_script_sigs has_null_prevout get_block_subsidy
    is_coinbase_value_valid add_coin insert spend_coin erase contains spends ◌+ℤ◌ ◌-ℤ◌
    serialize_header write_uint256 serialize_tx get_bytes_le le_bytes set_compact write_all
    write_var_int less_eq shl shl_word word less write_var_str write_tx_in write_tx_out start_chain
    index_entry get_block_work try_accept_block try_child extended accept_block accept_checked
    check_accept first_time some_or as_header as_block connect_block have_block next_height
    get_next_work_required read_memory
child_accepted = refl

Reach-IsValid_example : (n : ℕ) × IsValid next_chain.chain n
Reach-IsValid_example =
    Reach-IsValid sum_ssl memory testnet memory-IsStorage next_chain
      (offered started_chain child reached)

Reach-supply_example :
    (n : ℕ) × (next_chain.chain.height ≡ pos n)
    × (total_value next_chain.chain.view ≤ℤ pos (get_cumulative_supply_at (suc n)))
    × (total_value next_chain.chain.view ≤ℤ pos max_supply_base)
Reach-supply_example =
    Reach-supply sum_ssl memory testnet memory-IsStorage next_chain
      (offered started_chain child reached)

try_accept_block-IsAtomic_example :
    IsAtomic sum_ssl memory testnet child started_chain
      (try_accept_block sum_ssl memory testnet child started_chain)
    ⊎ (((try_accept_block sum_ssl memory testnet child started_chain).1 ≡ err index_out_of_range)
        × IsPastEnd sum_ssl memory testnet child started_chain)
    ⊎ ((have_block memory started_chain (get_hash sum_ssl child.header) ≡ true)
        × (next_chain ≡ started_chain)
        × (c : Connected) × ((try_accept_block sum_ssl memory testnet child started_chain).1
            ≡ ok c))
try_accept_block-IsAtomic_example =
    try_accept_block-IsAtomic sum_ssl memory testnet child started_chain

-- The test network with an interval of one block.
abbrev short : ChainParams
short = record testnet { difficulty_interval = 1 }

abbrev genesis_entry : BlockIndex
genesis_entry = record (index_entry sum_ssl genesis (pos 0) (get_block_work 0x1d00ffff) true) {
  prev_hash = u256_zero;
}

entry_found : find child.header.prev_block_hash started_chain.chain.index ≡ some genesis_entry
unfolding apply_genesis genesis_checked check_genesis_block mined_genesis get_genesis_block
    create_genesis_block as_genesis check_block_header check_proof_of_work check_genesis check_prev
    get_hash sum_of zeros check_block check_block_txs connect_txs connect_tx connect_coinbase
    check_transaction add_outputs spend_inputs merkle_root_of_txs compute_merkle_root merkle_loop
    next_level merkle_parent get_tx_id sha256d sha256d_bytes set_bytes_le check_tx_inputs
    is_coinbase is_zero check_inputs as_int64 check_input get_coin find is_spendable sum_outputs
    of_le has_duplicate_inputs check_outputs check_script_sigs has_null_prevout get_block_subsidy
    is_coinbase_value_valid add_coin insert spend_coin erase contains spends ◌+ℤ◌ ◌-ℤ◌
    serialize_header write_uint256 serialize_tx get_bytes_le le_bytes set_compact write_all
    write_var_int less_eq shl shl_word word less write_var_str write_tx_in write_tx_out start_chain
    index_entry get_block_work
entry_found = refl

entry_height : genesis_entry.height ≡ pos 0
unfolding index_entry
entry_height = refl

genesis_read : memory.read_block started_chain.stored child.header.prev_block_hash ≡ some genesis
unfolding apply_genesis genesis_checked check_genesis_block mined_genesis get_genesis_block
    create_genesis_block as_genesis check_block_header check_proof_of_work check_genesis check_prev
    get_hash sum_of zeros check_block check_block_txs connect_txs connect_tx connect_coinbase
    check_transaction add_outputs spend_inputs merkle_root_of_txs compute_merkle_root merkle_loop
    next_level merkle_parent get_tx_id sha256d sha256d_bytes set_bytes_le check_tx_inputs
    is_coinbase is_zero check_inputs as_int64 check_input get_coin find is_spendable sum_outputs
    of_le has_duplicate_inputs check_outputs check_script_sigs has_null_prevout get_block_subsidy
    is_coinbase_value_valid add_coin insert spend_coin erase contains spends ◌+ℤ◌ ◌-ℤ◌
    serialize_header write_uint256 serialize_tx get_bytes_le le_bytes set_compact write_all
    write_var_int less_eq shl shl_word word less write_var_str write_tx_in write_tx_out start_chain
    index_entry get_block_work read_memory
genesis_read = refl

child_header_good : check_block_header sum_ssl child.header (some genesis.header) short ≡ ok tt
unfolding apply_genesis genesis_checked check_genesis_block mined_genesis get_genesis_block
    create_genesis_block as_genesis check_block_header check_proof_of_work check_genesis check_prev
    get_hash sum_of zeros check_block check_block_txs connect_txs connect_tx connect_coinbase
    check_transaction add_outputs spend_inputs merkle_root_of_txs compute_merkle_root merkle_loop
    next_level merkle_parent get_tx_id sha256d sha256d_bytes set_bytes_le check_tx_inputs
    is_coinbase is_zero check_inputs as_int64 check_input get_coin find is_spendable sum_outputs
    of_le has_duplicate_inputs check_outputs check_script_sigs has_null_prevout get_block_subsidy
    is_coinbase_value_valid add_coin insert spend_coin erase contains spends ◌+ℤ◌ ◌-ℤ◌
    serialize_header write_uint256 serialize_tx get_bytes_le le_bytes set_compact write_all
    write_var_int less_eq shl shl_word word less write_var_str write_tx_in write_tx_out start_chain
    index_entry get_block_work
child_header_good = refl

accept_block_at_interval_example :
    accept_block sum_ssl memory short child 1 started_chain
    ≡ (started_chain, err index_out_of_range)
accept_block_at_interval_example =
    accept_block_at_interval sum_ssl memory short child 0 started_chain genesis_entry genesis
      (apply_genesis-IsValid sum_ssl memory testnet empty started_chain genesis_good).0
      (omega arith) entry_found entry_height genesis_read child_header_good

nonce_good :
    check_proof_of_work
      (get_hash sum_ssl (record child.header { bits = 0x1d00ffff; nonce = 3 }))
      0x1d00ffff
    ≡ true
unfolding apply_genesis genesis_checked check_genesis_block mined_genesis get_genesis_block
    create_genesis_block as_genesis check_block_header check_proof_of_work check_genesis check_prev
    get_hash sum_of zeros check_block check_block_txs connect_txs connect_tx connect_coinbase
    check_transaction add_outputs spend_inputs merkle_root_of_txs compute_merkle_root merkle_loop
    next_level merkle_parent get_tx_id sha256d sha256d_bytes set_bytes_le check_tx_inputs
    is_coinbase is_zero check_inputs as_int64 check_input get_coin find is_spendable sum_outputs
    of_le has_duplicate_inputs check_outputs check_script_sigs has_null_prevout get_block_subsidy
    is_coinbase_value_valid add_coin insert spend_coin erase contains spends ◌+ℤ◌ ◌-ℤ◌
    serialize_header write_uint256 serialize_tx get_bytes_le le_bytes set_compact write_all
    write_var_int less_eq shl shl_word word less write_var_str write_tx_in write_tx_out start_chain
    index_entry get_block_work
nonce_good = refl

mine_block_header-finds_example :
    ((mine_block_header sum_ssl child.header 0x1d00ffff (λ i. false)).1 ≡ true)
    × ((mine_block_header sum_ssl child.header 0x1d00ffff (λ i. false)).0.nonce ≤ 3)
mine_block_header-finds_example =
    mine_block_header-finds sum_ssl child.header 0x1d00ffff (λ i. false) 3 (omega arith)
      (λ i le. refl) nonce_good

mined : (mine_block_header sum_ssl child.header 0x1d00ffff (λ i. false)).1 ≡ true
mined =
    (mine_block_header-finds sum_ssl child.header 0x1d00ffff (λ i. false) 3 (omega arith)
      (λ i le. refl) nonce_good).0

mine_block_header-good_example :
    (nonce : ℕ) × ((mine_block_header sum_ssl child.header 0x1d00ffff (λ i. false)).0
      ≡ record child.header { bits = 0x1d00ffff; nonce = nonce })
    × (check_proof_of_work
          (get_hash sum_ssl (mine_block_header sum_ssl child.header 0x1d00ffff (λ i. false)).0)
          0x1d00ffff
        ≡ true)
mine_block_header-good_example =
    mine_block_header-good sum_ssl child.header 0x1d00ffff (λ i. false) mined

compute_merkle_root-level_rounds_example :
    (k : ℕ) × (k ≤ 2)
    × (level_rounds sum_ssl k (small ∷ big ∷ small ∷ [])
        ≡ compute_merkle_root sum_ssl (small ∷ big ∷ small ∷ []) ∷ [])
compute_merkle_root-level_rounds_example =
    compute_merkle_root-level_rounds sum_ssl small (big ∷ small ∷ [])

compute_merkle_root-last_example :
    compute_merkle_root sum_ssl (small ∷ big ∷ u256_zero ∷ [])
    ≡ compute_merkle_root sum_ssl (small ∷ big ∷ u256_zero ∷ u256_zero ∷ [])
compute_merkle_root-last_example =
    compute_merkle_root-last sum_ssl small big [] u256_zero 0 (omega arith)
