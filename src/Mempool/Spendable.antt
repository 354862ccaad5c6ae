-- ===== src/Mempool/Spendable.antt =====
-- The transactions of the mempool spend coins that are there (src/mempool/mempool.cpp, CheckTx,
-- AddUnchecked and RemoveSpent).
use cdx.Base.{length, arith, Bool-cases, refl, inl, inr, ◌∷◌, []}
use cdx.Utxo.{CoinsView, outpoint_key, uint256_key}
use cdx.Result.{>>=-eq-ok, fail_if-then, ok_injective, Result, ok, err}
use cdx.Mempool.{
  has_double_spend, as_mempool, Entry, Mempool, add_unchecked, check_tx, is_coin_unspendable,
  has_invalid_input,
}
use cdx.Crypto.{Openssl}
use cdx.Base.{ap, ◌⊎◌, some, false, All, ◌≡◌, List, ℕ}
use cdx.Transaction.{is_coinbase, TxIn, Tx}
use cdx.Base.Int.{ℤ}
use cdx.Uint256.{U256}
use cdx.Consensus.Validation.{check_transaction, Error, check_tx_inputs}
use cdx.Consensus.Validation.Inputs.{IsUsable, check_tx_inputs-IsUsable}
use cdx.StdMap.{contains, find}
use cdx.Merkle.{get_tx_id}
use cdx.StdMap.Laws.{find-insert}
use cdx.Transaction.Codec.{serialize_tx}

-- Every input of every transaction of the mempool has a coin of the view that is spendable at the
-- height.
abbrev pub IsClean : CoinsView → ℕ → Mempool → Type 0
IsClean view height pool =
    (txid : U256) (e : Entry)
    → find txid pool.map_tx ≡ some e
    → has_invalid_input view height e.tx.vin ≡ false

usable_inputs :
    (view : CoinsView) (height : ℕ) (vin : List TxIn)
    → All (IsUsable view height) vin
    → has_invalid_input view height vin ≡ false
unfolding has_invalid_input is_coin_unspendable
usable_inputs view height [] h = refl
usable_inputs view height (input ∷ vin) ((c, found, ripe), rest) =
    rw (found, ripe) (usable_inputs view height vin rest)

module _ (ssl : Openssl) where
  check_tx-inputs :
      (tx : Tx) (pool : Mempool) (view : CoinsView) (height : ℕ) (fee : ℤ)
      → check_tx ssl tx pool view height ≡ ok fee
      → (paid : ℤ) × (check_tx_inputs ssl tx view height ≡ ok paid)
  unfolding check_tx
  check_tx-inputs tx pool view height fee e =
      let (_, e1) = fail_if-then (is_coinbase tx) _ _ e in
      let (_, _, e2) = >>=-eq-ok (as_mempool (check_transaction tx)) _ e1 in
      let (_, e3) = fail_if-then (has_double_spend tx.vin pool) _ _ e2 in
      let (paid, e4, _) = >>=-eq-ok (as_mempool (check_tx_inputs ssl tx view height)) _ e3 in
      (paid, as_mempool-ok _ e4)
    where
      as_mempool-ok : {A : Type 0} {a : A} (r : Result Error A) → as_mempool r ≡ ok a → r ≡ ok a
      as_mempool-ok (ok a) q = unfold as_mempool in ap ok (ok_injective q)
      as_mempool-ok (err x) q = unfold as_mempool in cc

  add_unchecked-find :
      (tx : Tx) (fee : ℤ) (height : ℕ) (now : ℤ) (pool : Mempool) (id : U256) (e : Entry)
      → find id (add_unchecked ssl tx fee height now pool).0.map_tx ≡ some e
      → (find id pool.map_tx ≡ some e) ⊎ (e.tx ≡ tx)
  unfolding add_unchecked
  add_unchecked-find tx fee height now pool id e q =
      elim (Bool-cases (contains (get_tx_id ssl tx) pool.map_tx)) [
        | inl known ↦ inl (rw (add_unchecked, known) at q)
        | inr new ↦ ground (
          arith,
          new,
          q,
          find-insert (get_tx_id ssl tx) id
              (record {
                tx = tx;
                fee = fee;
                time = now;
                size_bytes = length (serialize_tx tx);
                height = height;
              })
              pool.map_tx,
        )
      ]

  -- AddUnchecked of a transaction that CheckTx accepts.
  pub add_unchecked-IsClean :
      (tx : Tx) (pool : Mempool) (view : CoinsView) (height : ℕ) (fee now : ℤ)
      → IsClean view height pool
      → check_tx ssl tx pool view height ≡ ok fee
      → IsClean view height (add_unchecked ssl tx fee height now pool).0
  add_unchecked-IsClean tx pool view height fee now clean e txid entry found =
      let (paid, q) = check_tx-inputs tx pool view height fee e in
      let usable = check_tx_inputs-IsUsable ssl tx view height paid q in
      elim (add_unchecked-find tx fee height now pool txid entry found) [
        | inl old ↦ clean txid entry old
        | inr new ↦ rw new (usable_inputs view height tx.vin usable)
      ]
