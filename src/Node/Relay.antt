-- ===== src/Node/Relay.antt =====
-- Inventories and transactions from a peer (bin/cdxd.cpp, HandleInv, HandleGetData, HandleTx).
use cdx.Base.{
  false, not, ◌++◌, leb, ◌+◌, ◌==◌, if◌then◌else◌, Bool, Option, ℕ, List, some, none, [], ◌∷◌,
}
use cdx.Result.{ok, err}
use cdx.Base.Int.{pos_part, ℤ, negsuc}
use cdx.Utxo.{uint256_key}
use cdx.P2p.Server.{punish, Handled, Peer, Action, send_to, broadcast_message}
use cdx.Crypto.{Openssl}
use cdx.Storage.{Storage}
use cdx.Node.State.{ask_data, inv_tx, inv_block, Node}
use cdx.Bytes.{Bytes}
use cdx.Transaction.{Tx}
use cdx.P2p.Protocol.{deserialize_inv, Inv}
use cdx.Transaction.Codec.{serialize_tx}
use cdx.Mempool.{add_unchecked, check_tx}
use cdx.StdMap.{find, contains}
use cdx.P2p.Sync.{parse_tx_payload}
use cdx.Merkle.{get_tx_id}
use cdx.Block.{serialize_block}
use cdx.Chain.{have_block}
use cdx.Node.Command.{block_command, tx_command}

module _ (st : Storage) where
  -- Whether HandleInv asks for an item.
  unfoldable pub is_wanted : Node st → Inv → Bool
  is_wanted s i =
      if i.type == inv_tx
      then not (contains i.hash s.pool.map_tx)
      else if i.type == inv_block
      then not (have_block st s.bc i.hash)
      else false

  -- The loop of HandleInv, which stops at 500 items.
  unfoldable pub want_items : Node st → ℕ → List Inv → List Inv
  want_items s n [] = []
  want_items s n (i ∷ inv) =
      let n' = if is_wanted s i then n + 1 else n in
      let rest = want_items s n' inv in
      let later = if leb 500 n' then [] else rest in if is_wanted s i then i ∷ later else later

  -- HandleInv
  unfoldable pub handle_inv : Bytes → Peer → Node st → Handled (Node st)
  handle_inv payload node s = elim (deserialize_inv payload) as (λ x. Handled (Node st)) [
    | none ↦ record { state = s; node = punish 10 node; actions = [] }
    | some inv ↦ record { state = s; node = node; actions = ask_data (want_items s 0 inv) }
  ]

  -- The transactions and the blocks that HandleGetData answers with.
  unfoldable pub txs_of : Node st → List Inv → List Action
  txs_of s [] = []
  txs_of s (i ∷ inv) =
      let rest = txs_of s inv in
      if i.type == inv_tx
      then elim (find i.hash s.pool.map_tx) [
        | none ↦ rest
        | some e ↦ send_to tx_command (serialize_tx e.tx) ∷ rest
      ]
      else rest

  unfoldable pub blocks_of : Node st → List Inv → List Action
  blocks_of s [] = []
  blocks_of s (i ∷ inv) =
      let rest = blocks_of s inv in
      if i.type == inv_block
      then elim (st.read_block s.bc.stored i.hash) [
        | none ↦ rest
        | some blk ↦ send_to block_command (serialize_block blk) ∷ rest
      ]
      else rest

  -- HandleGetData
  unfoldable pub handle_get_data : Bytes → Peer → Node st → Handled (Node st)
  handle_get_data payload node s = elim (deserialize_inv payload) as (λ x. Handled (Node st)) [
    | none ↦ record { state = s; node = punish 10 node; actions = [] }
    | some inv ↦ record { state = s; node = node; actions = txs_of s inv ++ blocks_of s inv }
  ]

-- RelayTx
unfoldable pub relay_tx : Tx → Action
relay_tx tx = broadcast_message tx_command (serialize_tx tx) (negsuc 0)

module _ (ssl : Openssl) (st : Storage) where
  -- CheckTx, AddUnchecked and the relay of a transaction; the chain has a block, so its height is
  -- not negative
  unfoldable pub accept_tx : ℤ → Tx → Node st → Option (Node st)
  accept_tx now tx s =
      let height = pos_part s.bc.chain.height in
      elim (check_tx ssl tx s.pool s.bc.chain.view height) as (λ x. Option (Node st)) [
        | err _ ↦ none
        | ok fee ↦ some (record s { pool = (add_unchecked ssl tx fee height now s.pool).0 })
      ]

  -- HandleTx behind its parser
  unfoldable pub take_tx : ℤ → Tx → Peer → Node st → Handled (Node st)
  take_tx now tx node s =
      if contains (get_tx_id ssl tx) s.pool.map_tx
      then record { state = s; node = node; actions = [] }
      else elim (accept_tx now tx s) as (λ x. Handled (Node st)) [
        | none ↦ record { state = s; node = punish 5 node; actions = [] }
        | some s' ↦ record { state = s'; node = node; actions = relay_tx tx ∷ [] }
      ]

  -- HandleTx
  unfoldable pub handle_tx : ℤ → Bytes → Peer → Node st → Handled (Node st)
  handle_tx now payload node s = elim (parse_tx_payload payload) as (λ x. Handled (Node st)) [
    | none ↦ record { state = s; node = punish 10 node; actions = [] }
    | some tx ↦ take_tx now tx node s
  ]
