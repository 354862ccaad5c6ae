-- ===== src/Wallet/Recovery.antt =====
-- The scan of the chain for the payments to a wallet (src/wallet/recovery.cpp).
use cdx.Base.{
  if◌then◌else◌, some, none, zero, suc, [], ◌∷◌, true, false, length, ◌++◌, Bool, ℕ, List,
}
use cdx.Bytes.{Bytes}
use cdx.Storage.{Storage, Storage}
use cdx.Transaction.{is_coinbase, Tx, TxOut}
use cdx.Chain.{get_block_by_height, Blockchain}
use cdx.Wallet.Account.{Wallet}
use cdx.Script.{extract_p2pkh_hash}
use cdx.Base.Int.{◌+ℤ◌, pos, ℤ}
use cdx.Node.State.{TxRecord}
use cdx.Wallet.Keystore.{get_addresses}
use cdx.Consensus.Difficulty.{next_height}
use cdx.Address.{decode_address}
use cdx.P2p.Protocol.{is_among}
use cdx.Merkle.{get_tx_id}
use cdx.Crypto.{Openssl}

-- The hashes of the wallet's addresses.
unfoldable pub own_hashes : Openssl → List Bytes → List Bytes
own_hashes ssl [] = []
own_hashes ssl (a ∷ addrs) =
    let rest = own_hashes ssl addrs in
    elim (decode_address ssl a) [ none ↦ rest | some (_, hash) ↦ hash ∷ rest ]

-- isOwn
unfoldable pub is_own : List Bytes → Bytes → Bool
is_own hashes script = elim (extract_p2pkh_hash script) [
  | none ↦ false
  | some hash ↦ is_among hash hashes
]

-- Whether an output pays to the wallet, and the sum of those that do.
unfoldable pub own_amount : List Bytes → List TxOut → Bool × ℤ
own_amount hashes [] = (false, pos 0)
own_amount hashes (out ∷ vout) =
    let (relevant, amount) = own_amount hashes vout in
    if is_own hashes out.script_pub_key then (true, out.value +ℤ amount) else (relevant, amount)

module _ (ssl : Openssl) (hashes : List Bytes) where
  -- The records of the transactions of a block that pay to the wallet.
  unfoldable pub block_payments : ℕ → ℤ → List Tx → List TxRecord
  block_payments h timestamp [] = []
  block_payments h timestamp (tx ∷ txs) =
      let rest = block_payments h timestamp txs in
      let (relevant, amount) = own_amount hashes tx.vout in
      let paid : TxRecord = record {
        txid = get_tx_id ssl tx;
        height = pos h;
        amount = amount;
        fee = pos 0;
        timestamp = timestamp;
        is_coinbase = is_coinbase tx;
      } in
      if relevant then paid ∷ rest else rest

module _ (ssl : Openssl) (st : Storage) where
  -- The loop over so many heights from h on; a block that cannot be read is left out.
  unfoldable pub scan_heights : List Bytes → Blockchain st → ℕ → ℕ → List TxRecord
  scan_heights hashes bc h zero = []
  scan_heights hashes bc h (suc left) =
      elim (get_block_by_height st bc (pos h)) as (λ x. List TxRecord) [
        | none ↦ []
        | some blk ↦ block_payments ssl hashes h (pos blk.header.timestamp) blk.vtx
      ]
      ++ scan_heights hashes bc (suc h) left

  -- WalletRescan: the records behind those of the wallet, and how many are new
  unfoldable pub wallet_rescan : Wallet → List TxRecord → Blockchain st → List TxRecord × ℕ
  wallet_rescan w history bc =
      let found =
        scan_heights (own_hashes ssl (get_addresses w.keystore)) bc 0
          (next_height bc.chain.height) in
      (history ++ found, length found)
