-- ===== src/Tests/Mature.antt =====
-- A node that has mined until a coinbase output is mature, and a transaction that spends it.
use cdx.Uint256.Order.{u256_eq_iff}
use cdx.Node.Runs.{Run_lem, Run}
use cdx.Base.{
  ◌≡◌, ◌^◌, ◌-◌, ◌%◌, List, ℕ, Option, Bool, some, none, zero, suc, true, false, [], ◌∷◌, refl,
  arith, if◌then◌else◌,
}
use cdx.Base.Int.{◌-ℤ◌, ◌+ℤ◌, ◌≤ℤ◌, ℤ, pos, eq_ℤ}
use cdx.Block.{serialize_header, Block}
use cdx.Bytes.{as_int64, Bytes, of_le, le_bytes}
use cdx.Chain.{
  hash_at, get_block_hash_by_height, get_block_by_height, tip, have_block, index_entry, Blockchain,
  empty_chain,
}
use cdx.Chain.Genesis.{
  start_chain, as_genesis, create_genesis_block, get_genesis_block, mined_genesis,
  check_genesis_block, genesis_checked, apply_genesis,
}
use cdx.Consensus.Header.{check_prev, check_genesis, check_block_header, get_hash}
use cdx.Crypto.{verify_parsed, verify_signature, sha256d_bytes, sha256d, Openssl, hash160}
use cdx.Address.{split_payload, decode_address, hash160_to_address}
use cdx.Node.Miner.{
  block_time, miner_first_time, miner_bits, mine_rounds, block_mined, mined_header, mine_on,
  mine_round, MinerCounts,
}
use cdx.Node.Relay.{accept_tx}
use cdx.Node.State.{Node}
use cdx.Params.{max_supply_base, testnet}
use cdx.Ripemd160.{
  rmd160_final, rmd160_update, update_loop, rmd160_transform, words, rounds, line_step, f1of, rol,
  ripemd160, zeros,
}
use cdx.Storage.{IsStorage, Storage}
use cdx.Transaction.{is_coinbase, Tx, OutPoint}
use cdx.Uint256.{less, less_eq, is_zero, U256, u256_eq, u256_zero}
use cdx.Utxo.{
  outpoint_less, uint256_key, spend_coin, add_coin, is_spendable, get_coin, total_value, CoinsView,
}
use cdx.Result.{ok}
use cdx.Mempool.{
  insert_prev_outs, add_unchecked, as_mempool, has_double_spend, check_tx, remove_all, to_remove,
  remove_spent, has_invalid_input, Entry,
}
use cdx.StdMap.{contains, erase, insert, find}
use cdx.Consensus.Validation.{
  signature_hash, has_null_prevout, check_script_sigs, check_outputs, has_duplicate_inputs,
  sum_outputs, check_input, check_inputs, check_tx_inputs, spend_inputs, add_outputs,
  check_transaction, connect_coinbase, connect_tx, connect_txs, check_block_txs, check_block,
  spends,
}
use cdx.Consensus.Difficulty.{get_next_work_required, next_height, check_proof_of_work}
use cdx.Merkle.{
  get_tx_id, merkle_parent, next_level, merkle_loop, compute_merkle_root, merkle_root_of_txs,
}
use cdx.Uint256.Bytes.{get_bytes_le, set_bytes_le}
use cdx.Consensus.Rewards.{is_coinbase_value_valid, get_block_subsidy}
use cdx.Serializer.{write_var_str, write_var_int, write_all, write_uint256}
use cdx.Transaction.Codec.{write_tx_out, write_tx_in, serialize_tx}
use cdx.Uint256.Compact.{set_compact}
use cdx.Uint256.Shift.{word, shl_word, shl}
use cdx.Uint256.Division.{get_block_work}
use cdx.Chain.Reorg.{add_index_entry, extended, try_child, try_accept_block}
use cdx.Chain.Accept.{
  connect_block, as_block, as_header, some_or, first_time, check_accept, accept_checked,
  accept_block,
}
use cdx.Node.Blocks.{clean_pool}
use cdx.Mining.Candidate.{
  trim, last_byte, get_txs, push_height, coinbase_script, miner_hash, pick_txs, candidate_coinbase,
  create_candidate_block,
}
use cdx.Mining.{set_nonce}
use cdx.Script.{
  bytes_eq, last_push, get_script_sig_pub_key, extract_p2pkh_hash, is_p2pkh_script,
  build_p2pkh_script, exec_op, is_false, parse_push, eval_loop, eval_script, verify_script,
}
use cdx.Encoding.Base58.{
  decode_base58_check, check_payload, encode_base58_check, decode_base58, reversed, decode_loop,
  push_carry, mul_pass, encode_base58, or_one, map_chars, encode_loop, div_pass, repeat,
  count_leading, char_at, base58_index, index_of,
}

-- A stand-in for OpenSSL whose digests of different blocks differ.
abbrev mix_ssl : Openssl
mix_ssl = record {
  sha256_oneshot = λ m. le_bytes 32 (of_le m % (2 ^ 127 - 1));
  ec_oct2point = λ b. some b;
  d2i_ecdsa_sig = λ b. some b;
  ecdsa_do_verify = λ hash32 sig point. true;
}

unfoldable read_mixed : List Block → U256 → Option Block
read_mixed [] hash = none
read_mixed (blk ∷ blks) hash =
    if u256_eq (get_hash mix_ssl blk.header) hash then some blk else read_mixed blks hash

abbrev mixed : Storage
mixed = record {
  State = List Block × Option (CoinsView × ℤ × U256 × List U256);
  write_block = λ blk height s. (blk ∷ s.0, s.1);
  read_block = λ s hash. read_mixed s.0 hash;
  save_chain_state = λ view height tip by_height s. (s.0, some (view, height, tip, by_height));
  load_chain_state = λ s. s.1;
}

abbrev first_chain : Blockchain mixed
first_chain =
    (apply_genesis mix_ssl mixed testnet (record { chain = empty_chain; stored = ([], none) })).0

abbrev first_node : Node mixed
first_node = record {
  bc = first_chain;
  pool = record { map_tx = []; map_prev_out = [] };
  history = [];
  peers = [];
}

abbrev address : Bytes
address = hash160_to_address mix_ssl (hash160 mix_ssl (zeros 33)) testnet.address_version

abbrev no_counts : MinerCounts
no_counts = record { blocks_found = 0; last_height_mined = pos 0; immature_reward = pos 0 }

unfoldable mine_blocks : ℕ → Node mixed → Node mixed
mine_blocks zero s = s
mine_blocks (suc n) s =
    (mine_round mix_ssl mixed testnet (zeros 20) address 0 3 no_counts (mine_blocks n s)).state

unfoldable coin_at : ℤ → CoinsView → OutPoint
coin_at height [] = record { hash = u256_zero; n = 0 }
coin_at height ((out, c) ∷ view) =
    let rest = coin_at height view in if eq_ℤ c.height height then out else rest

abbrev ripe_node : ℕ → Node mixed
ripe_node n = mine_blocks n first_node

abbrev spend_of : Node mixed → Tx
spend_of s = record {
  version = pos 1;
  vin =
      record {
        prevout = coin_at (pos 1) s.bc.chain.view;
        script_sig = 2 ∷ 0 ∷ 1 ∷ 33 ∷ zeros 33;
        sequence = 0;
      }
      ∷ [];
  vout = record { value = pos 4000; script_pub_key = 1 ∷ 1 ∷ [] } ∷ [];
  lock_time = 0;
}

unfoldable is_some : Option (Node mixed) → Bool
is_some none = false
is_some (some s) = true

unfoldable node_of : Option (Node mixed) → Node mixed
node_of none = first_node
node_of (some s) = s

node_of_lem : (o : Option (Node mixed)) → is_some o ≡ true → o ≡ some (node_of o)
unfolding is_some node_of
node_of_lem none h = absurd (cc)
node_of_lem (some s) h = refl

abbrev spent_reward : Option (Node mixed)
spent_reward = accept_tx mix_ssl mixed (pos 0) (spend_of (ripe_node 121)) (ripe_node 121)

first_good :
    apply_genesis mix_ssl mixed testnet (record { chain = empty_chain; stored = ([], none) })
    ≡ (first_chain, ok tt)
unfolding apply_genesis genesis_checked check_genesis_block mined_genesis get_genesis_block
    create_genesis_block as_genesis check_block_header check_proof_of_work check_genesis check_prev
    get_hash zeros check_block check_block_txs connect_txs connect_tx connect_coinbase
    check_transaction add_outputs spend_inputs merkle_root_of_txs compute_merkle_root merkle_loop
    next_level merkle_parent get_tx_id sha256d sha256d_bytes set_bytes_le check_tx_inputs
    is_coinbase is_zero check_inputs as_int64 check_input get_coin find is_spendable sum_outputs
    of_le has_duplicate_inputs check_outputs check_script_sigs has_null_prevout get_block_subsidy
    is_coinbase_value_valid add_coin insert spend_coin erase contains spends ◌+ℤ◌ ◌-ℤ◌
    serialize_header write_uint256 serialize_tx get_bytes_le le_bytes set_compact write_all
    write_var_int less_eq shl shl_word word less write_var_str write_tx_in write_tx_out
first_good = refl

reward_spent : is_some spent_reward ≡ true
unfolding last_byte trim outpoint_less apply_genesis genesis_checked check_genesis_block
    mined_genesis get_genesis_block create_genesis_block as_genesis check_block_header
    check_proof_of_work check_genesis check_prev get_hash zeros check_block check_block_txs
    connect_txs connect_tx connect_coinbase check_transaction add_outputs spend_inputs
    merkle_root_of_txs compute_merkle_root merkle_loop next_level merkle_parent get_tx_id sha256d
    sha256d_bytes set_bytes_le check_tx_inputs is_coinbase is_zero check_inputs as_int64 check_input
    get_coin find is_spendable sum_outputs of_le has_duplicate_inputs check_outputs
    check_script_sigs has_null_prevout get_block_subsidy is_coinbase_value_valid add_coin insert
    spend_coin erase contains spends ◌+ℤ◌ ◌-ℤ◌ serialize_header write_uint256 serialize_tx
    get_bytes_le le_bytes set_compact write_all write_var_int less_eq shl shl_word word less
    write_var_str write_tx_in write_tx_out index_entry get_block_work try_accept_block try_child
    extended accept_block accept_checked check_accept first_time some_or as_header as_block
    connect_block have_block next_height get_next_work_required read_mixed mine_blocks mine_round
    mine_on mined_header block_mined mine_rounds miner_bits miner_first_time block_time clean_pool
    remove_spent to_remove remove_all create_candidate_block candidate_coinbase pick_txs miner_hash
    coinbase_script push_height get_txs set_nonce start_chain coin_at is_some accept_tx check_tx
    has_double_spend as_mempool add_unchecked insert_prev_outs signature_hash verify_script
    eval_script eval_loop parse_push is_false exec_op verify_signature verify_parsed
    build_p2pkh_script is_p2pkh_script extract_p2pkh_hash get_script_sig_pub_key last_push bytes_eq
    hash160 ripemd160 rol f1of line_step rounds words rmd160_transform update_loop rmd160_update
    rmd160_final hash160_to_address decode_address split_payload index_of base58_index char_at
    count_leading repeat div_pass encode_loop map_chars or_one encode_base58 mul_pass push_carry
    decode_loop reversed decode_base58 encode_base58_check check_payload decode_base58_check tip
    add_index_entry get_block_by_height get_block_hash_by_height hash_at
reward_spent = refl

read_mixed-hash :
    (blks : List Block) (hash : U256) (blk : Block)
    → read_mixed blks hash ≡ some blk
    → get_hash mix_ssl blk.header ≡ hash
unfolding read_mixed
read_mixed-hash [] hash blk e = absurd (cc)
read_mixed-hash (b ∷ blks) hash blk e =
    ground (arith, u256_eq_iff (get_hash mix_ssl b.header) hash, read_mixed-hash blks hash blk)

mixed-IsStorage : IsStorage mix_ssl mixed
mixed-IsStorage = record { get_hash-read_block = λ s hash blk e. read_mixed-hash s.0 hash blk e }

mine_blocks-Run : (n : ℕ) → Run mix_ssl mixed testnet (ripe_node n)
unfolding mine_blocks
mine_blocks-Run zero =
    Run.started (record { chain = empty_chain; stored = ([], none) }) first_chain [] [] first_good
mine_blocks-Run (suc n) =
    Run.mined (zeros 20) address 0 3 no_counts (ripe_node n) (mine_blocks-Run n)

-- The node that has mined 121 blocks, with the transaction that spends the reward of the first.
abbrev spender : Node mixed
spender = node_of spent_reward

spender-Run : Run mix_ssl mixed testnet spender
spender-Run =
    Run.sent (pos 0) (spend_of (ripe_node 121)) (ripe_node 121) spender (mine_blocks-Run 121)
      (node_of_lem spent_reward reward_spent)

Run_lem_example :
    (n : ℕ) × (spender.bc.chain.height ≡ pos n)
    × (total_value spender.bc.chain.view ≤ℤ pos max_supply_base)
    × ((out : OutPoint) (a b : U256) (e f : Entry)
        → find a spender.pool.map_tx ≡ some e
        → find b spender.pool.map_tx ≡ some f
        → spends out e.tx.vin ≡ true
        → spends out f.tx.vin ≡ true
        → a ≡ b)
    × ((txid : U256) (e : Entry)
        → find txid spender.pool.map_tx ≡ some e
        → has_invalid_input spender.bc.chain.view n e.tx.vin ≡ false)
Run_lem_example = Run_lem mix_ssl mixed testnet mixed-IsStorage spender spender-Run
