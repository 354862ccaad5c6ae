-- ===== src/Mempool.antt =====
-- The mempool (src/mempool/mempool.h and mempool.cpp): class CTxMemPool, the transactions by their
-- identifiers and the outpoints they spend, and its operations.
pub mod Consistency
pub mod Conflicts
pub mod Spent
pub mod Spendable
use cdx.Base.{
  ◌&&◌, not, some, none, ◌||◌, length, false, true, if◌then◌else◌, Bool, ℕ, Option, List, [], ◌∷◌,
}
use cdx.Utxo.{is_spendable, get_coin, Coin, CoinsView, outpoint_key, uint256_key}
use cdx.Result.{Result, ok, err, ◌>>=◌, ◌>>◌, fail_if}
use cdx.Transaction.{outpoint_eq, is_coinbase, OutPoint, TxIn, Tx}
use cdx.StdMap.{contains, erase, insert, find, StdMap}
use cdx.Consensus.Validation.{check_tx_inputs, check_transaction, Error}
use cdx.Uint256.{u256_eq, U256}
use cdx.Crypto.{Openssl}
use cdx.Base.Int.{ltb_ℤ, ◌+ℤ◌, pos, ℤ}
use cdx.Merkle.{get_tx_id}
use cdx.Transaction.Codec.{serialize_tx}

-- CTxMemPoolEntry
pub record Entry : Type 0 where
  pub tx : Tx
  pub fee : ℤ
  pub time : ℤ
  pub size_bytes : ℕ
  pub height : ℕ

-- CTxMemPool
pub record Mempool : Type 0 where
  pub map_tx : StdMap U256 Entry
  pub map_prev_out : StdMap OutPoint U256

-- The errors of CheckTx.
pub data MempoolError : Type 0 where
  coinbase_in_mempool already_in_mempool low_fee : MempoolError
  invalid : Error → MempoolError

-- The loop of AddUnchecked over the inputs.
unfoldable pub insert_prev_outs : U256 → List TxIn → StdMap OutPoint U256 → StdMap OutPoint U256
insert_prev_outs txid [] m = m
insert_prev_outs txid (input ∷ vin) m = insert_prev_outs txid vin (insert input.prevout txid m)

-- Whether a found identifier is txid.
unfoldable pub is_owner : U256 → Option U256 → Bool
is_owner txid none = false
is_owner txid (some other) = u256_eq other txid

-- The loop of RemoveTx over the inputs.
unfoldable pub erase_prev_outs : U256 → List TxIn → StdMap OutPoint U256 → StdMap OutPoint U256
erase_prev_outs txid [] m = m
erase_prev_outs txid (input ∷ vin) m =
    erase_prev_outs txid vin
      (if is_owner txid (find input.prevout m) then erase input.prevout m else m)

unfoldable pub remove_entry : U256 → Option Entry → Mempool → Mempool
remove_entry txid none pool = pool
remove_entry txid (some e) pool = record {
  map_tx = erase txid pool.map_tx;
  map_prev_out = erase_prev_outs txid e.tx.vin pool.map_prev_out;
}

-- RemoveTx
unfoldable pub remove_tx : U256 → Mempool → Mempool
unfolding remove_entry
remove_tx txid pool = remove_entry txid (find txid pool.map_tx) pool

-- Whether RemoveTx would compare an identifier for one of the inputs.
unfoldable pub compares_again : List TxIn → StdMap OutPoint U256 → Bool
compares_again [] m = false
compares_again (input ∷ vin) m = contains input.prevout m || compares_again vin m

-- The loop of RemoveTx when its argument is a reference to the identifier that mapPrevOut has at an
-- outpoint, as in RemoveConflicts: none where that node is erased and the reference is read again, after
-- which the program has no defined behaviour.
unfoldable pub erase_prev_outs_at :
    OutPoint → U256 → List TxIn → StdMap OutPoint U256 → Option (StdMap OutPoint U256)
erase_prev_outs_at at txid [] m = some m
erase_prev_outs_at at txid (input ∷ vin) m =
    let owner = is_owner txid (find input.prevout m) in
    let m' = if owner then erase input.prevout m else m in
    let rest = erase_prev_outs_at at txid vin m' in
    if owner && outpoint_eq input.prevout at
    then if compares_again vin m' then none else some m'
    else rest

unfoldable pub remove_entry_at : OutPoint → U256 → Option Entry → Mempool → Option Mempool
remove_entry_at at txid none pool = some pool
remove_entry_at at txid (some e) pool =
    elim (erase_prev_outs_at at txid e.tx.vin pool.map_prev_out) as (λ x. Option Mempool) [
      | none ↦ none
      | some m ↦ some (record { map_tx = erase txid pool.map_tx; map_prev_out = m })
    ]

-- RemoveTx(it->second), if mapPrevOut has an identifier at the outpoint
unfoldable pub remove_owner_at : OutPoint → Option U256 → Mempool → Option Mempool
remove_owner_at at none pool = some pool
remove_owner_at at (some txid) pool = remove_entry_at at txid (find txid pool.map_tx) pool

-- The loop of RemoveConflicts over the inputs.
unfoldable pub remove_conflicting : List TxIn → Mempool → Option Mempool
remove_conflicting [] pool = some pool
remove_conflicting (input ∷ vin) pool =
    elim (remove_owner_at input.prevout (find input.prevout pool.map_prev_out) pool)
      as (λ x. Option Mempool) [ none ↦ none | some pool' ↦ remove_conflicting vin pool' ]

-- RemoveConflicts; none where it reads an identifier that it has erased
abbrev pub remove_conflicts : Tx → Mempool → Option Mempool
remove_conflicts tx pool = remove_conflicting tx.vin pool

-- Whether CheckTx finds an input that the mempool spends already.
unfoldable pub has_double_spend : List TxIn → Mempool → Bool
has_double_spend [] pool = false
has_double_spend (input ∷ vin) pool =
    contains input.prevout pool.map_prev_out || has_double_spend vin pool

unfoldable pub as_mempool : {A : Type 0} → Result Error A → Result MempoolError A
as_mempool (ok a) = ok a
as_mempool (err e) = err (invalid e)

module _ (ssl : Openssl) where
  -- AddUnchecked
  unfoldable pub add_unchecked : Tx → ℤ → ℕ → ℤ → Mempool → Mempool × Bool
  add_unchecked tx fee height now pool =
      let txid = get_tx_id ssl tx in
      let entry : Entry = record {
        tx = tx;
        fee = fee;
        time = now;
        size_bytes = length (serialize_tx tx);
        height = height;
      } in
      if contains txid pool.map_tx then (pool, false) else (
        record {
          map_tx = insert txid entry pool.map_tx;
          map_prev_out = insert_prev_outs txid tx.vin pool.map_prev_out;
        },
        true,
      )

  -- CheckTx
  unfoldable pub check_tx : Tx → Mempool → CoinsView → ℕ → Result MempoolError ℤ
  check_tx tx pool view height = do
    fail_if (is_coinbase tx) coinbase_in_mempool
    as_mempool (check_transaction tx)
    fail_if (has_double_spend tx.vin pool) already_in_mempool
    fee ← as_mempool (check_tx_inputs ssl tx view height)
    fail_if (ltb_ℤ fee (pos 100)) low_fee
    ok fee

unfoldable pub sum_fees : StdMap U256 Entry → ℤ
sum_fees [] = pos 0
sum_fees ((_, e) ∷ m) = e.fee +ℤ sum_fees m

-- GetTotalFees
abbrev pub get_total_fees : Mempool → ℤ
get_total_fees pool = sum_fees pool.map_tx

-- Whether RemoveSpent finds an input without a spendable coin.
unfoldable pub is_coin_unspendable : ℕ → Option Coin → Bool
is_coin_unspendable height none = true
is_coin_unspendable height (some coin) = not (is_spendable coin (pos height))

unfoldable pub has_invalid_input : CoinsView → ℕ → List TxIn → Bool
unfolding is_coin_unspendable
has_invalid_input view height [] = false
has_invalid_input view height (input ∷ vin) =
    is_coin_unspendable height (get_coin input.prevout view) || has_invalid_input view height vin

unfoldable pub to_remove : CoinsView → ℕ → StdMap U256 Entry → List U256
to_remove view height [] = []
to_remove view height ((txid, e) ∷ m) =
    let rest = to_remove view height m in
    if has_invalid_input view height e.tx.vin then txid ∷ rest else rest

unfoldable pub remove_all : List U256 → Mempool → Mempool
remove_all [] pool = pool
remove_all (txid ∷ ids) pool = remove_all ids (remove_tx txid pool)

-- RemoveSpent, with the identifiers it removed
unfoldable pub remove_spent : CoinsView → ℕ → Mempool → Mempool × List U256
remove_spent view height pool =
    let ids = to_remove view height pool.map_tx in (remove_all ids pool, ids)
