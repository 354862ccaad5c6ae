-- ===== src/Consensus/Validation/Supply.antt =====
-- No block creates money beyond the subsidy of its height (src/consensus/validation.cpp, CheckBlock).
use mathlib.Core.Path.{subst}
use cdx.Base.{length, ltb, ◌+◌, false, ◌^◌, ◌%◌, not, true, ℕ, some, ◌≡◌, List, [], ◌∷◌, All, arith}
use cdx.Base.Int.{ℤ, pos, ◌+ℤ◌, ◌≤ℤ◌, int_laws}
use cdx.Utxo.{outpoint_key, add_coin, total_value, get_coin, spend_coin, Coin, CoinsView}
use cdx.Result.{ok_injective, ok, >>=-eq-ok, fail_if-then}
use cdx.Transaction.{is_coinbase, TxIn, TxOut, Tx, OutPoint}
use cdx.Consensus.Validation.{
  merkle_mismatch, too_many_transactions, multiple_coinbases, has_coinbase, first_not_coinbase,
  max_tx_count_per_block, coinbase_value, check_vtx, check_block_txs, check_tx_inputs, check_block,
  connect_coinbase, connect_txs, connect_tx, sum_outputs, check_transaction, add_outputs,
  spend_inputs,
}
use cdx.Consensus.Validation.Inputs.{check_tx_inputs_le, coin_value-some, coin_value, sum_inputs}
use cdx.Consensus.Validation.Outputs.{check_transaction_nonneg, sum_outputs_nonneg}
use cdx.Utxo.Value.{get_coin_nonneg}
use cdx.StdMap.Laws.{contains-find, find-erase}
use cdx.Uint256.{u256_eq, U256}
use cdx.Utxo.Value.{
  total_value_nonneg, total_value-add_coin, add_coin-IsNonneg, total_value-spend_coin,
  spend_coin-IsNonneg, IsNonneg,
}
use cdx.Crypto.{Openssl}
use cdx.Block.{Block}
use cdx.Consensus.Rewards.{is_coinbase_value_valid, get_block_subsidy}
use cdx.Merkle.{merkle_root_of_txs, get_tx_id}

-- Every coin of the first view is a coin of the second one.
abbrev pub IsSubview : CoinsView → CoinsView → Type 0
IsSubview v w = (out : OutPoint) (c : Coin) → get_coin out v ≡ some c → get_coin out w ≡ some c

spend_coin-IsSubview :
    (out : OutPoint) (v w : CoinsView) → IsSubview v w → IsSubview (spend_coin out v).0 w
unfolding spend_coin get_coin
spend_coin-IsSubview out v w h j c e = ground (arith, find-erase out j v, h j c)

-- A spend that succeeds met a coin.
spend_coin_found :
    (out : OutPoint) (v : CoinsView)
    → (spend_coin out v).1 ≡ true
    → (c : Coin) × (get_coin out v ≡ some c)
unfolding spend_coin get_coin
spend_coin_found out v e = contains-find out v e

-- Spending inputs takes at least the value of their coins out of the view.
spend_inputs_lem :
    (vin : List TxIn) (v w v' : CoinsView)
    → IsSubview v w
    → IsNonneg v
    → spend_inputs vin v ≡ ok v'
    → IsNonneg v' × (total_value v' +ℤ sum_inputs w vin ≤ℤ total_value v)
unfolding spend_inputs sum_inputs
spend_inputs_lem [] v w v' sub h e = let same = ok_injective e in rw (← same) (h, omega int_laws)
spend_inputs_lem (i ∷ vin) v w v' sub h e =
    let (good, rest) = fail_if-then (not (spend_coin i.prevout v).1) _ _ e in
    let (c, found) = spend_coin_found i.prevout v (ground arith) in
    let h' = spend_coin-IsNonneg i.prevout v h in
    let (nonneg, less) =
      spend_inputs_lem vin (spend_coin i.prevout v).0 w v' (spend_coin-IsSubview i.prevout v w sub)
        h' rest in
    let value : coin_value w i.prevout ≡ c.value =
      coin_value-some w i.prevout c (sub i.prevout c found) in
    (nonneg, rw value (omega (int_laws, total_value-spend_coin i.prevout c v h found)))

-- Adding outputs adds at most their value.
add_outputs_lem :
    (txid : U256) (height j : ℕ) (vout : List TxOut) (v : CoinsView)
    → IsNonneg v
    → All (λ o. pos 0 ≤ℤ o.value) vout
    → IsNonneg (add_outputs txid height j vout v)
      × (total_value (add_outputs txid height j vout v) ≤ℤ total_value v +ℤ sum_outputs vout)
unfolding add_outputs sum_outputs
add_outputs_lem txid height j [] v h p = (h, omega int_laws)
add_outputs_lem txid height j (o ∷ vout) v h p =
    let out : OutPoint = record { hash = txid; n = j % 2 ^ 32 } in
    let c : Coin = record {
      value = o.value;
      script_pub_key = o.script_pub_key;
      height = pos height;
      is_coinbase = false;
    } in
    let (nonneg, bound) =
      add_outputs_lem txid height (j + 1) vout (add_coin out c v) (add_coin-IsNonneg out c v h p.0)
        p.1 in
    (nonneg, omega (int_laws, total_value-add_coin out c v h))

value_bound :
    (value subsidy fees : ℤ)
    → not (is_coinbase_value_valid value subsidy fees) ≡ false
    → value ≤ℤ subsidy +ℤ fees
unfolding is_coinbase_value_valid
value_bound value subsidy fees h = ground arith

-- What CheckBlock leaves of a view, and the fees.
abbrev Conserves : CoinsView → ℕ → CoinsView → ℤ → Type 0
Conserves view height v' fees =
    IsNonneg v'
    × (total_value v' ≤ℤ total_value view +ℤ pos (get_block_subsidy height))
    × (pos 0 ≤ℤ fees)
    × (fees ≤ℤ total_value view)

-- The value of a view and the fees together.
abbrev NotMore : CoinsView → ℤ → CoinsView → ℤ → Type 0
NotMore view fees v' f' =
    IsNonneg v' × (total_value v' +ℤ f' ≤ℤ total_value view +ℤ fees) × (fees ≤ℤ f')

module _ (ssl : Openssl) where
  -- A transaction keeps the value of the view and the fees together from growing.
  connect_tx_lem :
      (height : ℕ) (tx : Tx) (view : CoinsView) (fees : ℤ) (v' : CoinsView) (f' : ℤ)
      → IsNonneg view
      → connect_tx ssl height tx view fees ≡ ok (v', f')
      → NotMore view fees v' f'
  unfolding connect_tx
  connect_tx_lem height tx view fees v' f' h e =
      let (_, e0, e1) = >>=-eq-ok (check_transaction tx) _ e in
      let (fee, ef, e2) = >>=-eq-ok (check_tx_inputs ssl tx view height) _ e1 in
      let (spent, es, e3) = >>=-eq-ok (spend_inputs tx.vin view) _ e2 in
      let (paid, pos_fee) =
        check_tx_inputs_le ssl tx view height fee (λ out c. get_coin_nonneg out c view h) e0 ef in
      let (h1, less) = spend_inputs_lem tx.vin view view spent (λ out c p. p) h es in
      let (h2, more) =
        add_outputs_lem (get_tx_id ssl tx) height 0 tx.vout spent h1
          (check_transaction_nonneg tx e0) in
      subst (λ p. NotMore view fees p.0 p.1) (ok_injective e3) (h2, omega int_laws, omega int_laws)

  connect_txs_lem :
      (height : ℕ) (txs : List Tx) (view : CoinsView) (fees : ℤ) (v' : CoinsView) (f' : ℤ)
      → IsNonneg view
      → connect_txs ssl height txs view fees ≡ ok (v', f')
      → NotMore view fees v' f'
  unfolding connect_txs
  connect_txs_lem height [] view fees v' f' h e =
      subst (λ p. NotMore view fees p.0 p.1) (ok_injective e) (h, omega arith, omega arith)
  connect_txs_lem height (tx ∷ txs) view fees v' f' h e =
      let (r, e0, e1) = >>=-eq-ok (connect_tx ssl height tx view fees) _ e in
      let (h1, less1, grow1) = connect_tx_lem height tx view fees r.0 r.1 h e0 in
      let (h2, less2, grow2) = connect_txs_lem height txs r.0 r.1 v' f' h1 e1 in
      (h2, omega int_laws, omega int_laws)

  connect_coinbase_lem :
      (height : ℕ) (tx : Tx) (view : CoinsView) (fees : ℤ) (v' : CoinsView)
      → IsNonneg view
      → connect_coinbase ssl height tx view fees ≡ ok v'
      → IsNonneg v'
        × (total_value v' ≤ℤ total_value view +ℤ (pos (get_block_subsidy height) +ℤ fees))
  unfolding connect_coinbase
  connect_coinbase_lem height tx view fees v' h e =
      let value = sum_outputs tx.vout in
      let out : OutPoint = record { hash = get_tx_id ssl tx; n = 0 } in
      let (_, e0, e1) = >>=-eq-ok (check_transaction tx) _ e in
      let (valid, e2) =
        fail_if-then (not (is_coinbase_value_valid value (pos (get_block_subsidy height)) fees))
          coinbase_value _ e1 in
      let bound = value_bound value (pos (get_block_subsidy height)) fees valid in
      let nonneg = sum_outputs_nonneg tx.vout (check_transaction_nonneg tx e0) in
      let same : add_coin out _ view ≡ v' = ok_injective e2 in
      rw (← same)
        (add_coin-IsNonneg out _ view h nonneg, omega (int_laws, total_value-add_coin out _ view h))

  check_block_txs_lem :
      (root : U256) (coinbase : Tx) (txs : List Tx) (height : ℕ) (view : CoinsView) (v' : CoinsView)
      (fees : ℤ)
      → IsNonneg view
      → check_block_txs ssl root coinbase txs height view ≡ ok (v', fees)
      → Conserves view height v' fees
  unfolding check_block_txs
  check_block_txs_lem root coinbase txs height view v' fees h e =
      let same_root = u256_eq (merkle_root_of_txs ssl (coinbase ∷ txs)) root in
      let (_, e1) = fail_if-then (not (is_coinbase coinbase)) first_not_coinbase _ e in
      let (_, e2) = fail_if-then (has_coinbase ssl txs) multiple_coinbases _ e1 in
      let (_, e3) =
        fail_if-then (ltb max_tx_count_per_block (length txs + 1)) too_many_transactions _ e2 in
      let (_, e4) = fail_if-then (not same_root) merkle_mismatch _ e3 in
      let (r, er, e5) = >>=-eq-ok (connect_txs ssl height txs view (pos 0)) _ e4 in
      let (final, ef, e6) = >>=-eq-ok (connect_coinbase ssl height coinbase r.0 r.1) _ e5 in
      let (h1, less, grow) = connect_txs_lem height txs view (pos 0) r.0 r.1 h er in
      let (h2, more) = connect_coinbase_lem height coinbase r.0 r.1 final h1 ef in
      let left = total_value_nonneg r.0 h1 in
      subst (λ p. Conserves view height p.0 p.1) (ok_injective e6)
        (h2, omega int_laws, grow, omega int_laws)

  pub check_block_supply :
      (blk : Block) (height : ℕ) (view : CoinsView) (v' : CoinsView) (fees : ℤ)
      → IsNonneg view
      → check_block ssl blk height view ≡ ok (v', fees)
      → IsNonneg v'
        × (total_value v' ≤ℤ total_value view +ℤ pos (get_block_subsidy height))
        × (pos 0 ≤ℤ fees)
        × (fees ≤ℤ total_value view)
  check_block_supply blk height view v' fees h e = by_txs blk.vtx (unfold check_block in e)
    where
      by_txs :
          (vtx : List Tx)
          → check_vtx ssl blk.header.merkle_root vtx height view ≡ ok (v', fees)
          → Conserves view height v' fees
      by_txs [] x = unfold check_vtx in cc
      by_txs (coinbase ∷ txs) x =
          check_block_txs_lem blk.header.merkle_root coinbase txs height view v' fees h
            (unfold check_vtx in x)
