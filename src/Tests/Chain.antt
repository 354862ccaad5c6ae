-- ===== src/Tests/Chain.antt =====
-- The theorems on coins, blocks, headers and the mempool, on a block that spends one coin.
use cdx.Base.{none, length, List, ◌≤◌, ◌<◌, true, All, refl, false, ◌≡◌, arith, [], ◌∷◌, some}
use cdx.Utxo.{outpoint_less, is_spendable, CoinsView, get_coin, Coin, outpoint_key, uint256_key}
use cdx.Result.{ok}
use cdx.Tests.{zero_ssl-IsOpenssl, header, zero_ssl}
use cdx.Consensus.Validation.{
  max_money, has_null_prevout, spends, check_script_sigs, check_outputs, has_duplicate_inputs,
  check_transaction, sum_outputs, check_input, check_inputs, check_tx_inputs,
}
use cdx.Transaction.{Tx, OutPoint, is_coinbase}
use cdx.Base.Int.{◌-ℤ◌, ◌≤ℤ◌, ◌+ℤ◌, pos}
use cdx.Tests.{true_script, spending_tx, spent}
use cdx.StdMap.{erase, insert, contains, find}
use cdx.Uint256.{less_eq, to_nat, U256, u256_zero, is_zero}
use cdx.Script.{is_false, parse_push, eval_loop, eval_script, verify_script}
use cdx.Consensus.Validation.Inputs.{HasMoney, check_tx_inputs_lem, sum_inputs, IsUsable}
use cdx.Consensus.Rewards.{is_coinbase_value_valid, get_block_subsidy}
use cdx.Mempool.{
  insert_prev_outs, is_owner, compares_again, erase_prev_outs_at, remove_entry_at, remove_owner_at,
  remove_conflicting, as_mempool, has_double_spend, has_invalid_input, Entry, remove_conflicts,
  add_unchecked, remove_spent, check_tx, Mempool,
}
use cdx.Mempool.Consistency.{IsConsistent}
use cdx.Block.{BlockHeader}
use cdx.Consensus.Header.{get_hash, check_block_header}
use cdx.Mempool.Conflicts.{HasOneInput, remove_conflicts_lem, check_tx-add_unchecked}
use cdx.Crypto.{sha256d_bytes, sha256d}
use cdx.Uint256.Bytes.{set_bytes_le}
use cdx.Bytes.{as_int64, of_le}
use cdx.Consensus.Difficulty.{check_proof_of_work, target_from_bits}
use cdx.Mempool.Spent.{remove_spent_lem}
use cdx.Ripemd160.{zeros}
use cdx.Consensus.Header.Work.{check_block_header_lem}
use cdx.Uint256.Compact.{set_compact}
use cdx.Params.{testnet}
use cdx.Uint256.Shift.{word, shl_word, shl}
use cdx.Merkle.{get_tx_id, merkle_root_of_txs}
use cdx.Script.{build_p2pkh_script}
use cdx.Mining.Candidate.{create_candidate_block}
use cdx.Mining.Candidate.Fees.{create_candidate_block_lem, HasFees}

abbrev spent_coin : Coin
spent_coin = record {
  value = pos 5000;
  script_pub_key = true_script;
  height = pos 1;
  is_coinbase = false;
}

abbrev view : CoinsView
view = (spent, spent_coin) ∷ []

found : get_coin spent view ≡ some spent_coin
unfolding get_coin find
found = refl

view-HasMoney : HasMoney view
unfolding get_coin find
view-HasMoney out c e = ground arith

spending_good : check_transaction spending_tx ≡ ok tt
unfolding check_transaction is_coinbase is_zero has_duplicate_inputs check_outputs check_script_sigs
    has_null_prevout spends ◌+ℤ◌
spending_good = refl

inputs_good : check_tx_inputs zero_ssl spending_tx view 5 ≡ ok (pos 1000)
unfolding check_tx_inputs is_coinbase is_zero check_inputs as_int64 check_input get_coin find
    is_spendable verify_script eval_script eval_loop parse_push is_false sum_outputs ◌+ℤ◌ ◌-ℤ◌
inputs_good = refl

check_tx_inputs_lem_example :
    (is_coinbase spending_tx ≡ false)
    × All (IsUsable view 5) spending_tx.vin
    × (pos 1000 ≡ sum_inputs view spending_tx.vin -ℤ sum_outputs spending_tx.vout)
    × (pos 0 ≤ℤ pos 1000)
    × (pos 1000 ≤ℤ max_money)
check_tx_inputs_lem_example =
    check_tx_inputs_lem zero_ssl spending_tx view 5 (pos 1000) view-HasMoney spending_good
      inputs_good

-- The view after the block: both outputs have the identifier zero, so that the coinbase's stays.
abbrev after : CoinsView
after =
    (
      record { hash = u256_zero; n = 0 },
      record {
        value = pos 5000000900;
        script_pub_key = true_script;
        height = pos 5;
        is_coinbase = true;
      },
    )
    ∷ []

abbrev empty_pool : Mempool
empty_pool = record { map_tx = []; map_prev_out = [] }

empty_pool-IsConsistent : IsConsistent empty_pool
unfolding find
empty_pool-IsConsistent = (λ out txid q. cc, λ out txid e q s. cc)

accepted : check_tx zero_ssl spending_tx empty_pool view 5 ≡ ok (pos 1000)
unfolding check_tx check_transaction check_tx_inputs is_coinbase is_zero check_inputs as_int64
    check_input get_coin find is_spendable verify_script eval_script eval_loop parse_push is_false
    sum_outputs has_duplicate_inputs check_outputs check_script_sigs has_null_prevout spends
    has_double_spend contains as_mempool ◌+ℤ◌ ◌-ℤ◌
accepted = refl

check_tx-add_unchecked_example :
    IsConsistent (add_unchecked zero_ssl spending_tx (pos 1000) 5 (pos 0) empty_pool).0
    × (pos 100 ≤ℤ pos 1000)
    × ((out : OutPoint) (txid : U256) (e : Entry)
        → find txid empty_pool.map_tx ≡ some e
        → spends out spending_tx.vin ≡ true
        → spends out e.tx.vin ≡ false)
check_tx-add_unchecked_example =
    check_tx-add_unchecked zero_ssl spending_tx empty_pool view 5 (pos 1000) (pos 0)
      empty_pool-IsConsistent accepted

-- The mempool with the spending transaction.
abbrev pool : Mempool
pool = (add_unchecked zero_ssl spending_tx (pos 1000) 5 (pos 0) empty_pool).0

pool-IsConsistent : IsConsistent pool
pool-IsConsistent =
    (check_tx-add_unchecked zero_ssl spending_tx empty_pool view 5 (pos 1000) (pos 0)
      empty_pool-IsConsistent accepted).0

remove_conflicts_lem_example :
    ((pool' : Mempool)
      → remove_conflicts spending_tx pool ≡ some pool'
      → IsConsistent pool'
        × ((out : OutPoint) (txid : U256) (e : Entry)
            → find txid pool'.map_tx ≡ some e
            → spends out spending_tx.vin ≡ true
            → spends out e.tx.vin ≡ false))
    × (HasOneInput pool → (pool' : Mempool) × (remove_conflicts spending_tx pool ≡ some pool'))
remove_conflicts_lem_example = remove_conflicts_lem spending_tx pool pool-IsConsistent

pool-HasOneInput : HasOneInput pool
unfolding add_unchecked find insert contains
pool-HasOneInput txid e q = ground arith

conflict_removed : remove_conflicts spending_tx pool ≡ some empty_pool
unfolding remove_conflicting remove_owner_at remove_entry_at erase_prev_outs_at compares_again
    is_owner add_unchecked insert_prev_outs find insert erase contains get_tx_id sha256d
    sha256d_bytes set_bytes_le of_le zeros
conflict_removed = refl

-- A transaction of the mempool with a second input: removing it for the first one reads an identifier
-- that was erased.
abbrev two_inputs : Tx
two_inputs = record spending_tx {
  vin =
      record { prevout = spent; script_sig = []; sequence = 0 }
      ∷ record { prevout = record spent { n = 1 }; script_sig = []; sequence = 0 }
      ∷ [];
}

conflict_undefined :
    remove_conflicts spending_tx
      (add_unchecked zero_ssl two_inputs (pos 1000) 5 (pos 0) empty_pool).0
    ≡ none
unfolding remove_conflicting remove_owner_at remove_entry_at erase_prev_outs_at compares_again
    is_owner add_unchecked insert_prev_outs find insert erase contains get_tx_id sha256d
    sha256d_bytes set_bytes_le of_le zeros outpoint_less
conflict_undefined = refl

remove_spent_lem_example :
    IsConsistent (remove_spent after 6 pool).0
    × ((txid : U256) (e : Entry)
        → find txid (remove_spent after 6 pool).0.map_tx ≡ some e
        → (find txid pool.map_tx ≡ some e) × (has_invalid_input after 6 e.tx.vin ≡ false))
remove_spent_lem_example = remove_spent_lem after 6 pool pool-IsConsistent

-- A header on top of another one, whose hash is zero.
abbrev next_header : BlockHeader
next_header = record {
  version = pos 1;
  prev_block_hash = u256_zero;
  merkle_root = u256_zero;
  timestamp = 1700000600;
  bits = 0x1d00ffff;
  nonce = 5;
}

header_good : check_block_header zero_ssl next_header (some header) testnet ≡ ok tt
unfolding check_block_header get_hash sha256d sha256d_bytes set_bytes_le of_le zeros
    check_proof_of_work is_zero less_eq set_compact shl shl_word word
header_good = refl

check_block_header_lem_example :
    (next_header.prev_block_hash ≡ get_hash zero_ssl header)
    × (header.timestamp < next_header.timestamp)
    × (0 < to_nat (target_from_bits next_header.bits))
    × (to_nat (get_hash zero_ssl next_header) ≤ to_nat (target_from_bits next_header.bits))
check_block_header_lem_example =
    check_block_header_lem zero_ssl zero_ssl-IsOpenssl next_header header testnet (omega arith)
      header_good

-- A coinbase coin of height 5 and an older coin that pay to one hash.
abbrev two_coins : CoinsView
two_coins =
    (spent, record spent_coin { script_pub_key = build_p2pkh_script (zeros 20) })
    ∷ (
      record { hash = u256_zero; n = 1 },
      record {
        value = pos 900;
        script_pub_key = build_p2pkh_script (zeros 20);
        height = pos 5;
        is_coinbase = true;
      },
    )
    ∷ []

create_candidate_block_lem_example :
    let made =
      create_candidate_block zero_ssl
        (zeros 20)
        5
        0x1d00ffff
        1700000001
        u256_zero
        pool
        view
        []
        30 in
    (coinbase : Tx) × (txs : List Tx) × (made.0.vtx ≡ coinbase ∷ txs)
    × (is_coinbase coinbase ≡ true)
    × (sum_outputs coinbase.vout ≡ pos (get_block_subsidy 5) +ℤ made.1)
    × (is_coinbase_value_valid (sum_outputs coinbase.vout) (pos (get_block_subsidy 5)) made.1
        ≡ true)
    × HasFees zero_ssl view 5 txs made.1
    × (length txs ≤ 500)
    × (made.0.header.merkle_root ≡ merkle_root_of_txs zero_ssl made.0.vtx)
create_candidate_block_lem_example =
    create_candidate_block_lem zero_ssl (zeros 20) 5 0x1d00ffff 1700000001 u256_zero pool view [] 30
