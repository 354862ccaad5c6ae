-- ===== src/Consensus/Validation.antt =====
-- Validation of transactions and blocks (src/consensus/validation.cpp). A check that the code makes
-- by writing `error` and returning false is a step that fails with that error.
pub mod Outputs
pub mod Inputs
pub mod Supply
use cdx.Base.{
  ℕ, zero, suc, ◌+◌, ◌%◌, ◌^◌, Bool, true, false, not, ◌&&◌, ◌||◌, Option, none, some, List, [],
  ◌∷◌, ◌++◌, map, length, ltb, leb, ◌==◌, if◌then◌else◌,
}
use cdx.Base.Int.{ℤ, pos, ◌+ℤ◌, ◌-ℤ◌, ltb_ℤ}
use cdx.Bytes.{as_int64, Bytes}
use cdx.Uint256.{U256, is_zero, u256_eq}
use cdx.Uint256.Bytes.{get_bytes_le}
use cdx.Crypto.{Openssl, sha256d}
use cdx.Params.{max_supply_base}
use cdx.Result.{Result, ok, err, ◌>>=◌, ◌>>◌, fail_if}
use cdx.Script
use cdx.Script.{ScriptError, verify_script}
use cdx.Transaction.{OutPoint, TxIn, TxOut, Tx, outpoint_eq, is_coinbase}
use cdx.Transaction.Codec.{serialize_tx}
use cdx.Utxo.{Coin, CoinsView, is_spendable, get_coin, add_coin, spend_coin}
use cdx.Block.{Block}
use cdx.Merkle.{get_tx_id, merkle_root_of_txs}
use cdx.Consensus.Rewards.{get_block_subsidy, is_coinbase_value_valid}

pub data Error : Type 0 where
  no_inputs no_outputs too_many_inputs too_many_outputs duplicate_inputs : Error
  negative_output output_exceeds_max_money total_output_exceeds_max_money : Error
  coinbase_script_sig_size null_prevout : Error
  coinbase_has_no_inputs input_not_found coinbase_not_mature input_sum_overflow : Error
  signature_failed : ScriptError → Error
  inputs_lt_outputs coinbase_not_allowed : Error
  first_not_coinbase multiple_coinbases too_many_transactions merkle_mismatch : Error
  double_spend coinbase_value : Error

-- MAX_TX_COUNT_PER_BLOCK, which also bounds the inputs and the outputs
abbrev pub max_tx_count_per_block : ℕ
max_tx_count_per_block = 10000

-- MAX_MONEY
abbrev pub max_money : ℤ
max_money = pos max_supply_base

unfoldable pub spends : OutPoint → List TxIn → Bool
spends out [] = false
spends out (i ∷ vin) = outpoint_eq out i.prevout || spends out vin

-- The two loops over the pairs of inputs.
unfoldable pub has_duplicate_inputs : List TxIn → Bool
unfolding spends
has_duplicate_inputs [] = false
has_duplicate_inputs (i ∷ vin) = spends i.prevout vin || has_duplicate_inputs vin

-- The loop over the outputs; its result is the total.
unfoldable pub check_outputs : ℤ → List TxOut → Result Error ℤ
check_outputs total [] = ok total
check_outputs total (o ∷ vout) =
    fail_if (ltb_ℤ o.value (pos 0)) negative_output
    >> (fail_if (ltb_ℤ max_money o.value) output_exceeds_max_money
        >> (fail_if (ltb_ℤ max_money (total +ℤ o.value)) total_output_exceeds_max_money
            >> check_outputs (total +ℤ o.value) vout))

script_sig_size : List TxIn → ℕ
script_sig_size [] = 0
script_sig_size (i ∷ _) = length i.script_sig

unfoldable pub has_null_prevout : List TxIn → Bool
has_null_prevout [] = false
has_null_prevout (i ∷ vin) = is_zero i.prevout.hash || has_null_prevout vin

-- The last test of CheckTransaction.
unfoldable pub check_script_sigs : Tx → Result Error (Unit {0})
unfolding script_sig_size
check_script_sigs tx =
    if is_coinbase tx
    then fail_if (ltb (script_sig_size tx.vin) 2 || ltb 100 (script_sig_size tx.vin))
        coinbase_script_sig_size
    else fail_if (has_null_prevout tx.vin) null_prevout

-- CheckTransaction
unfoldable pub check_transaction : Tx → Result Error (Unit {0})
check_transaction tx = do
  fail_if (length tx.vin == 0) no_inputs
  fail_if (length tx.vout == 0) no_outputs
  fail_if (ltb max_tx_count_per_block (length tx.vin)) too_many_inputs
  fail_if (ltb max_tx_count_per_block (length tx.vout)) too_many_outputs
  fail_if (has_duplicate_inputs tx.vin) duplicate_inputs
  _ ← check_outputs (pos 0) tx.vout
  check_script_sigs tx

clear_script_sig : TxIn → TxIn
clear_script_sig i = record i { script_sig = [] }

-- vin[i].scriptSig = script
set_script_sig : List TxIn → ℕ → Bytes → List TxIn
set_script_sig [] i script = []
set_script_sig (x ∷ vin) zero script = record x { script_sig = script } ∷ vin
set_script_sig (x ∷ vin) (suc i) script = x ∷ set_script_sig vin i script

-- for (const auto& out : vout) sum += out.value
unfoldable pub sum_outputs : List TxOut → ℤ
sum_outputs [] = pos 0
sum_outputs (o ∷ vout) = o.value +ℤ sum_outputs vout

-- The outputs of a transaction become coins, with the index cast to 32 bits.
unfoldable pub add_outputs : U256 → ℕ → ℕ → List TxOut → CoinsView → CoinsView
add_outputs txid height j [] view = view
add_outputs txid height j (o ∷ vout) view = add_outputs txid height (j + 1) vout (
    add_coin (record { hash = txid; n = j % 2 ^ 32 })
      (record {
        value = o.value;
        script_pub_key = o.script_pub_key;
        height = pos height;
        is_coinbase = false;
      })
      view)

-- The loop that spends the inputs of a transaction.
unfoldable pub spend_inputs : List TxIn → CoinsView → Result Error CoinsView
spend_inputs [] view = ok view
spend_inputs (i ∷ vin) view =
    let (view', spent) = spend_coin i.prevout view in
    fail_if (not spent) double_spend >> spend_inputs vin view'

module _ (ssl : Openssl) where
  -- SignatureHash
  unfoldable pub signature_hash : Tx → ℕ → Bytes → U256
  unfolding clear_script_sig set_script_sig
  signature_hash tx i script =
      let cleared = record tx { vin = set_script_sig (map clear_script_sig tx.vin) i script } in
      sha256d ssl (serialize_tx cleared ++ (0x01 ∷ 0x00 ∷ 0x00 ∷ 0x00 ∷ []))

  check_signature : Bytes → Bytes → Bytes → Result Error (Unit {0})
  check_signature script_sig script_pub_key hash32 =
      elim (verify_script ssl script_sig script_pub_key hash32) [
        | Script.ok _ ↦ ok tt
        | Script.err e ↦ err (signature_failed e)
      ]

  -- The checks of one input, whose coin was looked up; the result is the value of the coin.
  unfoldable pub check_input : Tx → ℕ → ℕ → TxIn → Option Coin → Result Error ℤ
  unfolding check_signature
  check_input tx height i input none = err input_not_found
  check_input tx height i input (some coin) = do
    fail_if (not (is_spendable coin (pos height))) coinbase_not_mature
    check_signature input.script_sig coin.script_pub_key
        (get_bytes_le (signature_hash tx i coin.script_pub_key))
    ok coin.value

  -- The loop over the inputs from number i on; its result is inSum, an int64_t.
  unfoldable pub check_inputs : Tx → CoinsView → ℕ → ℕ → ℤ → List TxIn → Result Error ℤ
  check_inputs tx view height i in_sum [] = ok in_sum
  check_inputs tx view height i in_sum (input ∷ vin) =
      check_input tx height i input (get_coin input.prevout view) >>= λ value.
      fail_if (ltb_ℤ max_money (as_int64 (in_sum +ℤ value))) input_sum_overflow
      >> check_inputs tx view height (i + 1) (as_int64 (in_sum +ℤ value)) vin

  -- CheckTxInputs; the result is the fee. Its sums are int64_t and wrap around; for
  -- outSum, which nothing is compared with on the way, this is the whole sum, wrapped.
  unfoldable pub check_tx_inputs : Tx → CoinsView → ℕ → Result Error ℤ
  check_tx_inputs tx view height = do
    fail_if (is_coinbase tx) coinbase_has_no_inputs
    in_sum ← check_inputs tx view height 0 (pos 0) tx.vin
    let out_sum = as_int64 (sum_outputs tx.vout)
    fail_if (ltb_ℤ in_sum out_sum) inputs_lt_outputs
    ok (as_int64 (in_sum -ℤ out_sum))

  validate_inputs : Tx → CoinsView → ℕ → ℤ → Bool → Result Error ℤ
  validate_inputs tx view height fee check_coinbase =
      if check_coinbase && is_coinbase tx
      then ok fee
      else if is_coinbase tx
      then err coinbase_not_allowed
      else check_tx_inputs tx view height

  -- ValidateTransaction; a coinbase that passes with `check_coinbase` leaves the fee alone.
  unfoldable pub validate_transaction : Tx → CoinsView → ℕ → ℤ → Bool → Result Error ℤ
  unfolding validate_inputs
  validate_transaction tx view height fee check_coinbase = do
    check_transaction tx
    validate_inputs tx view height fee check_coinbase

  -- Pass 1 of CheckBlock for one transaction: the view and the fees.
  unfoldable pub connect_tx : ℕ → Tx → CoinsView → ℤ → Result Error (CoinsView × ℤ)
  connect_tx height tx view fees = do
    check_transaction tx
    fee ← check_tx_inputs tx view height
    spent ← spend_inputs tx.vin view
    ok (add_outputs (get_tx_id ssl tx) height 0 tx.vout spent, fees +ℤ fee)

  unfoldable pub connect_txs : ℕ → List Tx → CoinsView → ℤ → Result Error (CoinsView × ℤ)
  connect_txs height [] view fees = ok (view, fees)
  connect_txs height (tx ∷ txs) view fees =
      connect_tx height tx view fees >>= λ r. connect_txs height txs r.0 r.1

  first_script : List TxOut → Bytes
  first_script [] = []
  first_script (o ∷ _) = o.script_pub_key

  -- Pass 2 of CheckBlock: the coinbase, whose outputs become one coin.
  unfoldable pub connect_coinbase : ℕ → Tx → CoinsView → ℤ → Result Error CoinsView
  unfolding first_script
  connect_coinbase height tx view fees =
      let value = sum_outputs tx.vout in
      check_transaction tx
      >> (fail_if (not (is_coinbase_value_valid value (pos (get_block_subsidy height)) fees))
            coinbase_value
          >> ok (
              add_coin (record { hash = get_tx_id ssl tx; n = 0 })
                (record {
                  value = value;
                  script_pub_key = first_script tx.vout;
                  height = pos height;
                  is_coinbase = true;
                })
                view))

  has_coinbase : List Tx → Bool
  has_coinbase [] = false
  has_coinbase (tx ∷ txs) = is_coinbase tx || has_coinbase txs

  -- CheckBlock behind the test for the coinbase.
  unfoldable pub check_block_txs :
      U256 → Tx → List Tx → ℕ → CoinsView → Result Error (CoinsView × ℤ)
  unfolding has_coinbase
  check_block_txs merkle_root coinbase txs height view = do
    fail_if (not (is_coinbase coinbase)) first_not_coinbase
    fail_if (has_coinbase txs) multiple_coinbases
    fail_if (ltb max_tx_count_per_block (length txs + 1)) too_many_transactions
    fail_if (not (u256_eq (merkle_root_of_txs ssl (coinbase ∷ txs)) merkle_root)) merkle_mismatch
    passed ← connect_txs height txs view (pos 0)
    final ← connect_coinbase height coinbase passed.0 passed.1
    ok (final, passed.1)

  check_vtx : U256 → List Tx → ℕ → CoinsView → Result Error (CoinsView × ℤ)
  check_vtx merkle_root [] height view = err first_not_coinbase
  check_vtx merkle_root (coinbase ∷ txs) height view =
      check_block_txs merkle_root coinbase txs height view

  -- CheckBlock; the result is the view after the block and the fees.
  unfoldable pub check_block : Block → ℕ → CoinsView → Result Error (CoinsView × ℤ)
  unfolding check_vtx
  check_block blk height view = check_vtx blk.header.merkle_root blk.vtx height view
