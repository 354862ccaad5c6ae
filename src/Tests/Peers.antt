-- ===== src/Tests/Peers.antt =====
-- The theorems on the node and its peers, on the chains of one and of two blocks.
use cdx.Base.{
  arith, ◌<◌, ◌+◌, get_elem?, ◌≤◌, ◌∙◌, length, sym, true, ap, List, ℕ, [], ◌∷◌, some, zero, suc,
  ◌≡◌, refl,
}
use cdx.Base.Int.{◌-ℤ◌, ◌+ℤ◌, pos_part, pos}
use cdx.Chain.Runs.{Reach-IsValid, offered}
use mathlib.Core.Path.{subst}
use cdx.Utxo.{spend_coin, add_coin, is_spendable, get_coin, uint256_key, outpoint_key}
use cdx.P2p.Server.{send_to, new_peer, Peer}
use cdx.Node.State.{locator_from, chain_locator, Node}
use cdx.Tests.Node.{
  genesis, read_memory, sum_of, child_accepted, reached, child, genesis_good, memory-IsStorage,
  empty, started_chain, next_chain, memory, sum_ssl,
}
use cdx.Chain.Heights.{IsActive}
use cdx.Chain.Genesis.{
  start_chain, as_genesis, create_genesis_block, get_genesis_block, mined_genesis,
  check_genesis_block, genesis_checked, apply_genesis,
}
use cdx.P2p.Sync.{parse_get_headers_payload, build_headers_payload, build_get_headers_payload}
use cdx.Uint256.{less, less_eq, is_zero, u256_zero, U256}
use cdx.Params.{testnet}
use cdx.Chain.Invariant.{apply_genesis-IsValid}
use cdx.Block.{Block, serialize_header, BlockHeader}
use cdx.Node.Headers.{handle_get_headers}
use cdx.Transaction.{is_coinbase}
use cdx.Node.Command.{headers_command}
use cdx.StdMap.{contains, erase, insert, find}
use cdx.Consensus.Validation.{
  has_null_prevout, check_script_sigs, check_outputs, has_duplicate_inputs, sum_outputs,
  check_input, check_inputs, check_tx_inputs, spend_inputs, add_outputs, check_transaction,
  connect_coinbase, connect_tx, connect_txs, check_block_txs, check_block, spends,
}
use cdx.Consensus.Header.{get_hash, check_prev, check_genesis, check_block_header}
use cdx.Consensus.Difficulty.{get_next_work_required, next_height, check_proof_of_work}
use cdx.Chain.{hash_at, get_block_by_height, have_block, index_entry, get_block_hash_by_height}
use cdx.Ripemd160.{zeros}
use cdx.Node.Served.{handle_get_headers_lem}
use cdx.Merkle.{
  get_tx_id, merkle_parent, next_level, merkle_loop, compute_merkle_root, merkle_root_of_txs,
}
use cdx.Crypto.{sha256d_bytes, sha256d}
use cdx.Uint256.Bytes.{get_bytes_le, set_bytes_le}
use cdx.Bytes.{as_int64, le_bytes, of_le}
use cdx.Consensus.Rewards.{is_coinbase_value_valid, get_block_subsidy}
use cdx.Serializer.{write_var_str, write_var_int, write_all, write_uint256}
use cdx.Transaction.Codec.{write_tx_out, write_tx_in, serialize_tx}
use cdx.Uint256.Compact.{set_compact}
use cdx.Uint256.Shift.{word, shl_word, shl}
use cdx.Uint256.Division.{get_block_work}
use cdx.Chain.Reorg.{extended, try_child, try_accept_block}
use cdx.Chain.Accept.{
  connect_block, as_block, as_header, some_or, first_time, check_accept, accept_checked,
  accept_block,
}
use cdx.P2p.Sync.RoundTrip.{parse_get_headers_payload-build}

-- A peer, and a node on the genesis block that has received a byte from it.
abbrev peer : Peer
peer = new_peer (pos 7) [] true

abbrev fresh_node : Node memory
fresh_node = record {
  bc = started_chain;
  pool = record { map_tx = []; map_prev_out = [] };
  history = [];
  peers = [];
}

-- A node with two blocks, and a peer whose tip is the genesis block.
abbrev longer : Node memory
longer = record fresh_node { bc = next_chain }

pos_injective : {a b : ℕ} → pos a ≡ pos b → a ≡ b
pos_injective e = ap pos_part e

first_IsActive : IsActive started_chain.chain 0
first_IsActive = (apply_genesis-IsValid sum_ssl memory testnet empty started_chain genesis_good).0

next_IsActive : IsActive next_chain.chain 1
next_IsActive =
    let (n, v) =
      Reach-IsValid sum_ssl memory testnet memory-IsStorage next_chain
        (offered started_chain child reached) in
    let same = pos_injective (sym v.0.0 ∙ child_accepted) in
    subst (IsActive next_chain.chain) same v.0

shared_tip : get_elem? next_chain.chain.by_height 0 ≡ some started_chain.chain.tip_hash
unfolding apply_genesis genesis_checked check_genesis_block mined_genesis get_genesis_block
    create_genesis_block as_genesis check_block_header check_proof_of_work check_genesis check_prev
    get_hash sum_of zeros check_block check_block_txs connect_txs connect_tx connect_coinbase
    check_transaction add_outputs spend_inputs merkle_root_of_txs compute_merkle_root merkle_loop
    next_level merkle_parent get_tx_id sha256d sha256d_bytes set_bytes_le check_tx_inputs
    is_coinbase is_zero check_inputs as_int64 check_input get_coin find is_spendable sum_outputs
    of_le has_duplicate_inputs check_outputs check_script_sigs has_null_prevout get_block_subsidy
    is_coinbase_value_valid add_coin insert spend_coin erase contains spends ◌+ℤ◌ ◌-ℤ◌
    serialize_header write_uint256 serialize_tx get_bytes_le le_bytes set_compact write_all
    write_var_int less_eq shl shl_word word less write_var_str write_tx_in write_tx_out start_chain
    index_entry get_block_work try_accept_block try_child extended accept_block accept_checked
    check_accept first_time some_or as_header as_block connect_block have_block next_height
    get_next_work_required read_memory
shared_tip = refl

read_blocks :
    (k : ℕ) → k ≤ 1 → (blk : Block) × (get_block_by_height memory next_chain (pos k) ≡ some blk)
unfolding apply_genesis genesis_checked check_genesis_block mined_genesis get_genesis_block
    create_genesis_block as_genesis check_block_header check_proof_of_work check_genesis check_prev
    get_hash sum_of zeros check_block check_block_txs connect_txs connect_tx connect_coinbase
    check_transaction add_outputs spend_inputs merkle_root_of_txs compute_merkle_root merkle_loop
    next_level merkle_parent get_tx_id sha256d sha256d_bytes set_bytes_le check_tx_inputs
    is_coinbase is_zero check_inputs as_int64 check_input get_coin find is_spendable sum_outputs
    of_le has_duplicate_inputs check_outputs check_script_sigs has_null_prevout get_block_subsidy
    is_coinbase_value_valid add_coin insert spend_coin erase contains spends ◌+ℤ◌ ◌-ℤ◌
    serialize_header write_uint256 serialize_tx get_bytes_le le_bytes set_compact write_all
    write_var_int less_eq shl shl_word word less write_var_str write_tx_in write_tx_out start_chain
    index_entry get_block_work try_accept_block try_child extended accept_block accept_checked
    check_accept first_time some_or as_header as_block connect_block have_block next_height
    get_next_work_required read_memory get_block_by_height get_block_hash_by_height hash_at
read_blocks zero h = (genesis, refl)
read_blocks (suc zero) h = (child, refl)
read_blocks (suc (suc k)) h = absurd (omega arith)

abbrev locator : List U256
locator = chain_locator memory started_chain

asked :
    parse_get_headers_payload (build_get_headers_payload locator u256_zero)
    ≡ some (locator, u256_zero)
unfolding apply_genesis genesis_checked check_genesis_block mined_genesis get_genesis_block
    create_genesis_block as_genesis check_block_header check_proof_of_work check_genesis check_prev
    get_hash sum_of zeros check_block check_block_txs connect_txs connect_tx connect_coinbase
    check_transaction add_outputs spend_inputs merkle_root_of_txs compute_merkle_root merkle_loop
    next_level merkle_parent get_tx_id sha256d sha256d_bytes set_bytes_le check_tx_inputs
    is_coinbase is_zero check_inputs as_int64 check_input get_coin find is_spendable sum_outputs
    of_le has_duplicate_inputs check_outputs check_script_sigs has_null_prevout get_block_subsidy
    is_coinbase_value_valid add_coin insert spend_coin erase contains spends ◌+ℤ◌ ◌-ℤ◌
    serialize_header write_uint256 serialize_tx get_bytes_le le_bytes set_compact write_all
    write_var_int less_eq shl shl_word word less write_var_str write_tx_in write_tx_out start_chain
    index_entry get_block_work try_accept_block try_child extended accept_block accept_checked
    check_accept first_time some_or as_header as_block connect_block have_block next_height
    get_next_work_required read_memory chain_locator locator_from get_block_hash_by_height hash_at
asked = parse_get_headers_payload-build locator u256_zero (omega arith) (omega arith) (omega arith)

handle_get_headers_lem_example :
    let payload = build_get_headers_payload locator u256_zero in
    (out : List BlockHeader) × (handle_get_headers sum_ssl memory payload peer longer ≡ record {
      state = longer;
      node = peer;
      actions = send_to headers_command (build_headers_payload out) ∷ [];
    })
    × (length out ≤ 2000)
    × ((i : ℕ) (hdr : BlockHeader)
        → get_elem? out i ≡ some hdr
        → get_block_hash_by_height memory next_chain (pos (suc 0 + i))
          ≡ some (get_hash sum_ssl hdr))
    × ((i : ℕ) → i < 2000 → suc 0 + i ≤ 1 → (hdr : BlockHeader) × (get_elem? out i ≡ some hdr))
handle_get_headers_lem_example =
    handle_get_headers_lem sum_ssl memory memory-IsStorage longer started_chain 1 0
      (build_get_headers_payload locator u256_zero) peer next_IsActive first_IsActive shared_tip
      read_blocks asked
