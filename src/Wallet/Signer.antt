-- ===== src/Wallet/Signer.antt =====
-- The signatures of the inputs of a transaction (src/wallet/signer.cpp). `rounds` bounds the search
-- for the nonce of a signature.
use cdx.Base.{
  map, ◌==◌, not, leb, if◌then◌else◌, ◌++◌, ◌%◌, ◌+◌, length, ℕ, List, some, none, zero, suc, [],
  ◌∷◌,
}
use cdx.Result.{◌>>=◌, Result, ok, err}
use cdx.Crypto.{Openssl}
use cdx.Transaction.{Tx, TxIn}
use cdx.Crypto.Keys.{sign, Curve}
use cdx.Bytes.{Bytes}
use cdx.Uint256.Bytes.{get_bytes_le}
use cdx.Consensus.Validation.{signature_hash}

-- The errors of SignInput and SignTransaction.
pub data SignError : Type 0 where
  index_out_of_range signing_failed script_count : SignError

-- tx.vin[i].scriptSig = script
unfoldable pub put_script_sig : List TxIn → ℕ → Bytes → List TxIn
put_script_sig [] i script = []
put_script_sig (input ∷ vin) zero script = record input { script_sig = script } ∷ vin
put_script_sig (input ∷ vin) (suc i) script = input ∷ put_script_sig vin i script

module _ (ssl : Openssl) (c : Curve) (rounds : ℕ) where
  -- The script with a signature and its public key.
  unfoldable pub signed_script : Bytes → Bytes → Bytes
  signed_script sig pubkey = ((length sig + 1) % 256) ∷ (sig ++ (0x01 ∷ 33 ∷ pubkey))

  -- SignInput
  unfoldable pub sign_input : Tx → ℕ → ℕ → Bytes → Bytes → Result SignError Tx
  sign_input tx i d pubkey script =
      let hash32 = get_bytes_le (signature_hash ssl tx i script) in
      if leb (length tx.vin) i
      then err index_out_of_range
      else elim (sign c rounds d hash32) as (λ x. Result SignError Tx) [
        | none ↦ err signing_failed
        | some sig ↦ ok (record tx { vin = put_script_sig tx.vin i (signed_script sig pubkey) })
      ]

  -- The loop of SignTransaction and of CreateTransaction from input i on: the private key, the public
  -- key and the script of each input.
  unfoldable pub sign_inputs : Tx → ℕ → List (ℕ × Bytes × Bytes) → Result SignError Tx
  sign_inputs tx i [] = ok tx
  sign_inputs tx i ((d, pubkey, script) ∷ keys) =
      sign_input tx i d pubkey script >>= λ tx'. sign_inputs tx' (i + 1) keys

  -- SignTransaction, with one key for all inputs
  unfoldable pub sign_transaction : Tx → ℕ → Bytes → List Bytes → Result SignError Tx
  sign_transaction tx d pubkey scripts =
      if not (length scripts == length tx.vin)
      then err script_count
      else sign_inputs tx 0 (map (λ (script : Bytes). (d, pubkey, script)) scripts)
