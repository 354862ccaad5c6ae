-- ===== src/Wallet/Created.antt =====
-- What CreateTransaction gives, whatever its attempts (src/wallet/wallet.cpp).
use cdx.Wallet.Send.{
  sum_selected, WalletError, select_coins, approx_size, estimate_fee, Attempt, Payment,
  create_transaction, payment_loop, attempt_payment, Selected, again, done,
}
use cdx.Base.{
  Option-cases, arith, Bool-cases, refl, ◌∙◌, ap, ◌+◌, ◌≡◌, ℕ, List, some, zero, suc, ◌∷◌, true,
  false, inl, inr,
}
use cdx.Result.{Result, ok}
use cdx.Crypto.{Openssl}
use cdx.Crypto.Keys.{Curve}
use cdx.Wallet.Keystore.{Cipher}
use cdx.Bytes.{Bytes}
use cdx.Wallet.Account.{Wallet}
use cdx.Utxo.{CoinsView}
use cdx.Base.Int.{◌+ℤ◌, leb_ℤ, int_laws, ◌≤ℤ◌, pos, ℤ}
use cdx.Wallet.Payment.{
  with_change-IsPayment, take_enough-enough, estimate_bounds, IsChange, IsPayment, IsEstimated,
}
use cdx.Address.{decode_address}
use cdx.Transaction.{TxOut}
use cdx.Script.{build_p2pkh_script}
use cdx.Merkle.{get_tx_id}
use cdx.Consensus.Validation.{validate_transaction}

module _ (ssl : Openssl) (sort : List Selected → List Selected) (c : Curve) (ci : Cipher)
    (rounds : ℕ) where
  attempt-IsPayment :
      (random : List Bytes) (iv : Bytes) (now : ℕ) (w w' : Wallet) (view : CoinsView) (height : ℕ)
      (to_hash : Bytes) (amount : ℤ) (attempt : ℕ) (p : Payment)
      → attempt_payment ssl sort c ci rounds random iv now w view height to_hash amount attempt
        ≡ done w' (ok p)
      → IsPayment ssl c ci rounds view height to_hash amount
          (pos (estimate_fee (approx_size attempt)))
          p
  unfolding attempt_payment
  attempt-IsPayment random iv now w w' view height to_hash amount attempt p e =
      let fee = pos (estimate_fee (approx_size attempt)) in
      elim (Bool-cases (select_coins ssl sort view height (amount +ℤ fee) w).1) [
        | inl enough ↦
            with_change-IsPayment ssl c ci rounds random iv now w w' view height _ to_hash amount
              fee p (selected_enough view height (amount +ℤ fee) w enough) (ground (arith, enough))
        | inr short ↦ absurd (ground (arith, short))
      ]
    where
      selected_enough :
          (view : CoinsView) (height : ℕ) (needed : ℤ) (w : Wallet)
          → (select_coins ssl sort view height needed w).1 ≡ true
          → needed ≤ℤ sum_selected (select_coins ssl sort view height needed w).0
      selected_enough view height needed w h =
          unfold select_coins in
          (let e = take_enough-enough needed (pos 0) _ h in omega (int_laws, e))

  -- A payment that the loop makes is the payment of one of its attempts.
  payment_loop-IsPayment :
      (random : ℕ → List Bytes) (ivs : ℕ → Bytes) (now : ℕ) (view : CoinsView) (height : ℕ)
      (to_hash : Bytes) (amount : ℤ) (left attempt : ℕ) (w w' : Wallet) (p : Payment)
      → payment_loop ssl sort c ci rounds random ivs now view height to_hash amount left attempt w
        ≡ (w', ok p)
      → IsEstimated ssl c ci rounds view height to_hash amount p
  unfolding payment_loop
  payment_loop-IsPayment random ivs now view height to_hash amount zero attempt w w' p e =
      absurd (cc)
  payment_loop-IsPayment random ivs now view height to_hash amount (suc left) attempt w w' p e =
      by_attempt
        (attempt_payment ssl sort c ci rounds (random attempt) (ivs attempt) now w view height
          to_hash amount attempt)
        refl
        (λ w2.
          payment_loop-IsPayment random ivs now view height to_hash amount left (attempt + 1) w2 w'
            p)
    where
      by_attempt :
          (a : Attempt)
          → attempt_payment ssl sort c ci rounds
              (random attempt)
              (ivs attempt)
              now
              w
              view
              height
              to_hash
              amount
              attempt
            ≡ a
          → ((w2 : Wallet)
              → payment_loop ssl sort c ci rounds random ivs now view height to_hash amount left
                  (attempt + 1)
                  w2
                ≡ (w', ok p)
              → IsEstimated ssl c ci rounds view height to_hash amount p)
          → IsEstimated ssl c ci rounds view height to_hash amount p
      by_attempt (again w2) q later = later w2 (rw (payment_loop, q) at e)
      by_attempt (done w2 r) q later =
          let same : (w2, r) ≡ (w', ok p) = rw (payment_loop, q) at e in
          let result : r ≡ ok p = ap (λ (x : Wallet × Result WalletError Payment). x.1) same in
          let (lo, hi) = estimate_bounds attempt in
          (
            estimate_fee (approx_size attempt),
            lo,
            hi,
            attempt-IsPayment _ _ now w w2 view height to_hash amount attempt p
                (q ∙ ap (done w2) result),
          )

  -- If CreateTransaction succeeds, the wallet was open, the recipient is an address and the amount is
  -- positive; the transaction's first output pays the amount to the recipient's hash, any other is one
  -- output of at least 1000; the fee that it reports is at least 530 and at most 1679, whatever the
  -- number of inputs; txid is the transaction's identifier, and ValidateTransaction accepts it.
  pub create_transaction_lem :
      (random : ℕ → List Bytes) (ivs : ℕ → Bytes) (now : ℕ) (view : CoinsView) (height : ℕ)
      (to_address : Bytes) (amount : ℤ) (w w' : Wallet) (p : Payment)
      → create_transaction ssl sort c ci rounds random ivs now view height to_address amount w
        ≡ (w', ok p)
      → (w.keystore.locked ≡ false)
        × (version : ℕ) × (to_hash : Bytes) × (decode_address ssl to_address
            ≡ some (version, to_hash))
        × (pos 1 ≤ℤ amount)
        × (rest : List TxOut) × (p.tx.vout
            ≡ record { value = amount; script_pub_key = build_p2pkh_script to_hash } ∷ rest)
        × IsChange rest
        × (pos 530 ≤ℤ p.fee)
        × (p.fee ≤ℤ pos 1679)
        × (p.txid ≡ get_tx_id ssl p.tx)
        × (paid : ℤ) × (validate_transaction ssl p.tx view height (pos 0) false ≡ ok paid)
  unfolding create_transaction
  create_transaction_lem random ivs now view height to_address amount w w' p e =
      elim (Bool-cases w.keystore.locked) [
        | inl closed ↦ absurd (ground (arith, closed))
        | inr opened ↦ elim (Option-cases (decode_address ssl to_address)) [
          | inl bad ↦ absurd (ground (arith, opened, bad))
          | inr ((version, to_hash), decoded) ↦ elim (Bool-cases (leb_ℤ amount (pos 0))) [
            | inl small ↦ absurd (ground (arith, opened, decoded, small))
            | inr positive ↦
                let made =
                  payment_loop-IsPayment random ivs now view height to_hash amount 8 0 w w' p
                    (ground (arith, opened, decoded, positive)) in
                let (fee, lo, hi, (rest, outs, change, least, most, id, v, valid)) = made in
                (
                  opened,
                  version,
                  to_hash,
                  decoded,
                  not_leb amount positive,
                  rest,
                  outs,
                  change,
                  omega (int_laws, lo, least),
                  omega (int_laws, hi, most),
                  id,
                  v,
                  valid,
                )
          ]
        ]
      ]
    where
      not_leb : (a : ℤ) → leb_ℤ a (pos 0) ≡ false → pos 1 ≤ℤ a
      not_leb a h = ground arith
