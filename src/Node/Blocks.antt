-- ===== src/Node/Blocks.antt =====
-- Blocks from a peer (bin/cdxd.cpp, HandleBlock).
use cdx.Chain.Accept.{Fault, fails, index_out_of_range}
use cdx.Base.{if◌then◌else◌, ◌++◌, List, some, none, [], ◌∷◌}
use cdx.Result.{Result, ok, err}
use cdx.Base.Int.{ltb_ℤ, pos_part, ℤ, pos}
use cdx.Utxo.{uint256_key}
use cdx.P2p.Server.{punish, Handled, Peer, broadcast_message}
use cdx.Crypto.{Openssl}
use cdx.Storage.{Storage}
use cdx.Params.{ChainParams}
use cdx.Node.State.{is_unknown_prev, ask_headers, inv_block, TxRecord, Node}
use cdx.Block.{Block}
use cdx.Bytes.{Bytes}
use cdx.Mempool.{remove_spent}
use cdx.Chain.{have_block, Blockchain, get_index}
use cdx.Consensus.Header.{get_hash}
use cdx.Transaction.{is_coinbase, Tx}
use cdx.P2p.Sync.{parse_block_payload}
use cdx.Chain.Reorg.{try_accept_block, Connected, ReorgError}
use cdx.Merkle.{get_tx_id}
use cdx.P2p.Protocol.{serialize_inv, Inv}
use cdx.Node.Command.{inv_command}

module _ (ssl : Openssl) (st : Storage) where
  -- What is left of the mempool once the chain has changed.
  unfoldable pub clean_pool : Node st → Node st
  clean_pool s = record s {
    pool = (remove_spent s.bc.chain.view (pos_part s.bc.chain.height) s.pool).0;
  }

  -- The wallet's records of the transactions of a block.
  unfoldable pub block_records : Block → ℤ → List Tx → List TxRecord
  block_records blk height [] = []
  block_records blk height (tx ∷ txs) =
      record {
        txid = get_tx_id ssl tx;
        height = height;
        amount = pos 0;
        fee = pos 0;
        timestamp = pos blk.header.timestamp;
        is_coinbase = is_coinbase tx;
      }
      ∷ block_records blk height txs

  unfoldable pub record_block : Block → Node st → Node st
  record_block blk s = elim (get_index st s.bc (get_hash ssl blk.header)) as (λ x. Node st) [
    | none ↦ s
    | some idx ↦ record s { history = s.history ++ block_records blk idx.height blk.vtx }
  ]

  -- HandleBlock behind TryAcceptBlock, which has left the chain `bc`. After index_out_of_range the
  -- program has no defined behaviour; the model stops there.
  unfoldable pub block_taken :
      Block
      → Peer
      → Node st
      → Blockchain st × Result (Fault ReorgError) Connected
      → Handled (Node st)
  block_taken blk node s (bc, ok _) =
      let s' = clean_pool (record s { bc = bc }) in
      let known : Inv = record { type = inv_block; hash = get_hash ssl blk.header } in
      record {
        state = record_block blk s';
        node = node;
        actions =
            broadcast_message inv_command (serialize_inv (known ∷ [])) node.fd
            ∷ (if ltb_ℤ bc.chain.height node.their_version.start_height
                then ask_headers st bc ∷ []
                else []);
      }
  block_taken blk node s (bc, err index_out_of_range) = record {
    state = record s { bc = bc };
    node = node;
    actions = [];
  }
  block_taken blk node s (bc, err (fails e)) =
      let s' = record s { bc = bc } in
      if is_unknown_prev e
      then record { state = s'; node = node; actions = ask_headers st bc ∷ [] }
      else record { state = s'; node = punish 10 node; actions = [] }

module _ (ssl : Openssl) (st : Storage) (params : ChainParams) where
  -- HandleBlock behind its parser
  unfoldable pub take_block : Block → Peer → Node st → Handled (Node st)
  take_block blk node s =
      if have_block st s.bc (get_hash ssl blk.header)
      then record { state = s; node = node; actions = [] }
      else block_taken ssl st blk node s (try_accept_block ssl st params blk s.bc)

  -- HandleBlock
  unfoldable pub handle_block : Bytes → Peer → Node st → Handled (Node st)
  handle_block payload node s = elim (parse_block_payload payload) as (λ x. Handled (Node st)) [
    | none ↦ record { state = s; node = punish 10 node; actions = [] }
    | some blk ↦ take_block blk node s
  ]
