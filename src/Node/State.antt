-- ===== src/Node/State.antt =====
-- What the node's handler refers to, and the locator of its chain (bin/cdxd.cpp, class
-- CNodeHandler).
use cdx.Base.{
  leb, ◌||◌, ltb, if◌then◌else◌, ◌+◌, false, List, true, Bool, ℕ, some, none, zero, suc, [], ◌∷◌,
}
use cdx.Base.Int.{ltb_ℤ, ◌-ℤ◌, ℤ, pos}
use cdx.Utxo.{uint256_key}
use cdx.P2p.Server.{Action, send_to}
use cdx.Chain.Reorg.{
  ReorgError, need_sync, lower_chain_work, cannot_read_chain_block, rejected, fork_header,
  fork_block,
}
use cdx.Chain.Accept.{unknown_prev_block}
use cdx.Uint256.{u256_zero, U256}
use cdx.Storage.{Storage}
use cdx.Chain.{get_block_hash_by_height, Blockchain}
use cdx.Mempool.{Mempool}
use cdx.Bytes.{Bytes}
use cdx.Consensus.Difficulty.{next_height}
use cdx.P2p.Sync.{build_get_headers_payload}
use cdx.P2p.Protocol.{serialize_inv, Inv}
use cdx.Node.Command.{getdata_command, getheaders_command}

-- WalletTxRecord, without its address, which nothing here sets
pub record TxRecord : Type 0 where
  pub txid : U256
  pub height : ℤ
  pub amount : ℤ
  pub fee : ℤ
  pub timestamp : ℤ
  pub is_coinbase : Bool

-- What CNodeHandler refers to; `peers` is what GetPeerList of the server lists.
pub record Node (st : Storage) : Type 0 where
  pub bc : Blockchain st
  pub pool : Mempool
  pub history : List TxRecord
  pub peers : List (Bytes × Bool)

-- InvType::TX and InvType::BLOCK
abbrev pub inv_tx : ℕ
inv_tx = 1

abbrev pub inv_block : ℕ
inv_block = 2

-- Whether r.error.find("unknown prev") finds something: the two errors that say it.
unfoldable pub is_unknown_prev : ReorgError → Bool
is_unknown_prev need_sync = true
is_unknown_prev lower_chain_work = false
is_unknown_prev cannot_read_chain_block = false
is_unknown_prev (rejected unknown_prev_block) = true
is_unknown_prev (rejected _) = false
is_unknown_prev (fork_header _) = false
is_unknown_prev (fork_block _) = false

-- A getdata message for what is wanted.
unfoldable pub ask_data : List Inv → List Action
ask_data [] = []
ask_data (i ∷ want) = send_to getdata_command (serialize_inv (i ∷ want)) ∷ []

module _ (st : Storage) where
  -- The loop that fills a locator from height h down, with `size` entries pushed before.
  unfoldable pub locator_from : ℕ → Blockchain st → ℕ → ℤ → List U256
  locator_from zero bc size h = []
  locator_from (suc fuel) bc size h =
      let found = get_block_hash_by_height st bc h in
      let size' = elim found as (λ x. ℕ) [ none ↦ size | some _ ↦ size + 1 ] in
      let rest = locator_from fuel bc size' (h -ℤ pos (if ltb 10 size' then 2 else 1)) in
      if ltb_ℤ h (pos 0) || leb 32 size
      then []
      else elim found [ none ↦ rest | some hash ↦ hash ∷ rest ]

  -- The locator of a getheaders message: a round for each height is fuel enough.
  unfoldable pub chain_locator : Blockchain st → List U256
  chain_locator bc = locator_from (suc (next_height bc.chain.height)) bc 0 bc.chain.height

  unfoldable pub ask_headers : Blockchain st → Action
  ask_headers bc =
      send_to getheaders_command (build_get_headers_payload (chain_locator bc) u256_zero)
