-- ===== src/Wallet/Send.antt =====
-- Sending from the wallet (src/wallet/wallet.cpp, SelectCoins, EstimateFee and CreateTransaction).
-- Amounts are integers; std::sort is a parameter, of which the order of coins with one value is not
-- known.
use cdx.Base.{
  ltb, ◌/◌, ◌&&◌, ◌^◌, ◌++◌, ◌%◌, not, ◌==◌, if◌then◌else◌, ◌*◌, ◌+◌, Bool, List, ℕ, some, none,
  zero, suc, [], ◌∷◌, true, false,
}
use cdx.Result.{fail_if, ◌>>◌, Result, ok, err, ◌>>=◌}
use cdx.Transaction.{TxOut, TxIn, OutPoint, Tx}
use cdx.Wallet.Signer.{sign_inputs, SignError}
use cdx.Bytes.{Bytes}
use cdx.Base.Int.{◌-ℤ◌, ltb_ℤ, leb_ℤ, ◌+ℤ◌, pos, ℤ}
use cdx.Crypto.{Openssl}
use cdx.Wallet.Account.{generate_new_address, pubkey_of, own_hash, Wallet}
use cdx.Utxo.{is_spendable, Coin, CoinsView}
use cdx.Consensus.Validation.{validate_transaction, sum_outputs, Error}
use cdx.Uint256.{U256}
use cdx.Crypto.Keys.{Curve}
use cdx.Params.{default_fee_rate}
use cdx.Wallet.Keystore.{get_key, get_addresses, Cipher}
use cdx.Balance.{pays_to}
use cdx.Address.{decode_address}
use cdx.Script.{build_p2pkh_script}
use cdx.Merkle.{get_tx_id}

-- CWallet::SelectedInput
pub record Selected : Type 0 where
  pub outpoint : OutPoint
  pub coin : Coin
  pub address : Bytes

-- The errors of CreateTransaction; a call in which OpenSSL throws is `thrown`.
pub data WalletError : Type 0 where
  wallet_locked invalid_recipient amount_not_positive insufficient_funds : WalletError
  negative_fee missing_private_key could_not_construct thrown : WalletError
  sign_failed : SignError → WalletError
  invalid : Error → WalletError

-- txOut, txid and feeOut
pub record Payment : Type 0 where
  pub tx : Tx
  pub txid : U256
  pub fee : ℤ

-- The coins of the view that pay to a hash and are spendable.
unfoldable pub own_coins : Bytes → Bytes → ℕ → CoinsView → List Selected
own_coins address hash height [] = []
own_coins address hash height ((out, c) ∷ view) =
    let rest = own_coins address hash height view in
    if pays_to hash c.script_pub_key && is_spendable c (pos height)
    then record { outpoint = out; coin = c; address = address } ∷ rest
    else rest

unfoldable pub sum_selected : List Selected → ℤ
sum_selected [] = pos 0
sum_selected (s ∷ l) = s.coin.value +ℤ sum_selected l

-- The loop over the sorted coins: what is taken, and whether it is enough.
unfoldable pub take_enough : ℤ → ℤ → List Selected → List Selected × Bool
take_enough needed total [] = ([], false)
take_enough needed total (s ∷ l) =
    let (taken, enough) = take_enough needed (total +ℤ s.coin.value) l in
    if leb_ℤ needed (total +ℤ s.coin.value) then (s ∷ [], true) else (s ∷ taken, enough)

-- EstimateFee
unfoldable pub estimate_fee : ℕ → ℕ
estimate_fee size =
    let fee = size * default_fee_rate % 2 ^ 64 / 1000 in if ltb fee 100 then 100 else fee

-- The size that CreateTransaction reckons with, at an attempt.
unfoldable pub approx_size : ℕ → ℕ
approx_size attempt =
    10 + 3 * (32 + 4 + 110 + 4) + 2 * (8 + 25) + 4 + (if attempt == 0 then 0 else 150)

-- The inputs of the transaction before they are signed.
unfoldable pub unsigned_inputs : List Selected → List TxIn
unsigned_inputs [] = []
unsigned_inputs (s ∷ l) =
    record { prevout = s.outpoint; script_sig = []; sequence = 0xffffffff } ∷ unsigned_inputs l

unfoldable pub as_signed : {A : Type 0} → Result SignError A → Result WalletError A
as_signed (ok a) = ok a
as_signed (err e) = err (sign_failed e)

unfoldable pub as_valid : {A : Type 0} → Result Error A → Result WalletError A
as_valid (ok a) = ok a
as_valid (err e) = err (invalid e)

module _ (ssl : Openssl) (sort : List Selected → List Selected) where
  unfoldable pub wallet_coins : ℕ → ℕ → CoinsView → List Bytes → List Selected
  wallet_coins version height view [] = []
  wallet_coins version height view (a ∷ addrs) =
      elim (own_hash ssl version a) as (λ x. List Selected) [
        | none ↦ []
        | some hash ↦ own_coins a hash height view
      ]
      ++ wallet_coins version height view addrs

  -- SelectCoins
  unfoldable pub select_coins : CoinsView → ℕ → ℤ → Wallet → List Selected × Bool
  select_coins view height needed w =
      take_enough needed (pos 0)
        (sort (wallet_coins w.version_byte height view (get_addresses w.keystore)))

-- What one attempt of CreateTransaction ends with: another attempt, or a result.
pub data Attempt : Type 0 where
  again : Wallet → Attempt
  done : Wallet → Result WalletError Payment → Attempt

module _ (ssl : Openssl) (c : Curve) (ci : Cipher) (rounds : ℕ) where
  -- The keys of the selected coins, with the scripts that they sign.
  unfoldable pub signing_keys :
      Wallet → List Selected → Result WalletError (List (ℕ × Bytes × Bytes))
  signing_keys w [] = ok []
  signing_keys w (s ∷ l) =
      let rest = signing_keys w l in
      elim (get_key c ci s.address w.keystore)
        as (λ x. Result WalletError (List (ℕ × Bytes × Bytes))) [
          | none ↦ err missing_private_key
          | some d ↦ rest >>= λ keys. ok ((d, pubkey_of ssl c d, s.coin.script_pub_key) ∷ keys)
        ]

  -- The end of an attempt: the check of the fee, the signatures and the check of the transaction.
  unfoldable pub finish :
      Wallet → CoinsView → ℕ → List Selected → List TxOut → Result WalletError Payment
  finish w view height selected vout = do
    let tx : Tx = record {
      version = pos 1;
      vin = unsigned_inputs selected;
      vout = vout;
      lock_time = 0;
    }
    let fee = sum_selected selected -ℤ sum_outputs vout
    fail_if (ltb_ℤ fee (pos 0)) negative_fee
    keys ← signing_keys w selected
    signed ← as_signed (sign_inputs ssl c rounds tx 0 keys)
    paid ← as_valid (validate_transaction ssl signed view height (pos 0) false)
    ok (record { tx = signed; txid = get_tx_id ssl signed; fee = fee })

  -- The output for the change: a dust amount is left to the fee.
  unfoldable pub with_change :
      List Bytes → Bytes → ℕ → Wallet → CoinsView → ℕ → List Selected → ℤ → TxOut → Attempt
  with_change random iv now w view height selected change out =
      if ltb_ℤ change (pos 1000)
      then done w (finish w view height selected (out ∷ []))
      else elim (generate_new_address ssl c ci random iv now w) as (λ x. Attempt) [
        | none ↦ done w (err thrown)
        | some (w', kp) ↦ elim (decode_address ssl kp.address) as (λ x. Attempt) [
          | none ↦ again w'
          | some (_, hash) ↦ done w' (
              finish w' view height selected
                (out ∷ record { value = change; script_pub_key = build_p2pkh_script hash } ∷ []))
        ]
      ]

module _ (ssl : Openssl) (sort : List Selected → List Selected) (c : Curve) (ci : Cipher)
    (rounds : ℕ) where
  -- One round of the loop of CreateTransaction.
  unfoldable pub attempt_payment :
      List Bytes → Bytes → ℕ → Wallet → CoinsView → ℕ → Bytes → ℤ → ℕ → Attempt
  attempt_payment random iv now w view height to_hash amount attempt =
      let needed = amount +ℤ pos (estimate_fee (approx_size attempt)) in
      let (selected, enough) = select_coins ssl sort view height needed w in
      if not enough
      then done w (err insufficient_funds)
      else with_change ssl c ci rounds random iv now w view height selected
          (sum_selected selected -ℤ needed)
          (record { value = amount; script_pub_key = build_p2pkh_script to_hash })

  -- The loop, with the attempts left; `random` and `ivs` are what RAND_bytes gives in each.
  unfoldable pub payment_loop :
      (ℕ → List Bytes)
      → (ℕ → Bytes)
      → ℕ
      → CoinsView
      → ℕ
      → Bytes
      → ℤ
      → ℕ
      → ℕ
      → Wallet
      → Wallet × Result WalletError Payment
  payment_loop random ivs now view height to_hash amount zero attempt w =
      (w, err could_not_construct)
  payment_loop random ivs now view height to_hash amount (suc left) attempt w =
      elim (attempt_payment (random attempt) (ivs attempt) now w view height to_hash amount attempt)
        as (λ x. Wallet × Result WalletError Payment) [
          | again w' ↦ payment_loop random ivs now view height to_hash amount left (attempt + 1) w'
          | done w' r ↦ (w', r)
        ]

  -- CreateTransaction
  unfoldable pub create_transaction :
      (ℕ → List Bytes)
      → (ℕ → Bytes)
      → ℕ
      → CoinsView
      → ℕ
      → Bytes
      → ℤ
      → Wallet
      → Wallet × Result WalletError Payment
  create_transaction random ivs now view height to_address amount w =
      if w.keystore.locked
      then (w, err wallet_locked)
      else elim (decode_address ssl to_address) as (λ x. Wallet × Result WalletError Payment) [
        | none ↦ (w, err invalid_recipient)
        | some (_, to_hash) ↦
            if leb_ℤ amount (pos 0)
            then (w, err amount_not_positive)
            else payment_loop random ivs now view height to_hash amount 8 0 w
      ]
