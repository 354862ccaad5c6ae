-- ===== src/Node.antt =====
-- The node's handler of messages (bin/cdxd.cpp, class CNodeHandler) over the chain, the mempool
-- and the wallet's history. The time is an argument, and what the handler sends is a list of actions
-- for the server, in their order; a write that fails only ends the connection.
pub mod Command
pub mod State
pub mod Relay
pub mod Blocks
pub mod Headers
pub mod Miner
pub mod Invariant
pub mod Runs
pub mod Served
use cdx.Base.{◌^◌, true, ◌++◌, if◌then◌else◌, length, Bool, List, some, none, zero, suc, [], ◌∷◌}
use cdx.Result.{ok, err}
use cdx.Base.Int.{ltb_ℤ, pos, negsuc}
use cdx.Utxo.{uint256_key}
use cdx.P2p.Server.{
  default_version, mark_disconnected, Handled, Action, Peer, NodeHandler, send_to,
  broadcast_message,
}
use cdx.Crypto.{Openssl}
use cdx.Storage.{Storage}
use cdx.Params.{ChainParams}
use cdx.Bytes.{to_bits, of_bits, Bytes}
use cdx.Node.State.{ask_headers, Node}
use cdx.Serializer.{write_all, write_var_int}
use cdx.P2p.Protocol.{serialize_version, VersionMessage, deserialize_version}
use cdx.Script.{bytes_eq}
use cdx.Ripemd160.{zeros}
use cdx.Node.Relay.{handle_tx, handle_get_data, handle_inv}
use cdx.Node.Blocks.{handle_block}
use cdx.Node.Headers.{handle_headers, handle_get_headers}
use cdx.Node.Command.{
  addr_command, getaddr_command, pong_command, ping_command, headers_command, getheaders_command,
  block_command, tx_command, getdata_command, inv_command, verack_command, version_command,
}

-- The answer to getaddr: 26 zero bytes for each peer.
unfoldable pub addr_payload : List (Bytes × Bool) → Bytes
addr_payload peers =
    write_var_int (length peers) ++ write_all (λ (p : Bytes × Bool). zeros 26) peers

module _ (st : Storage) where
  -- HandleVersion
  unfoldable pub handle_version : Bytes → Peer → Node st → Handled (Node st)
  handle_version payload node s = elim (deserialize_version payload) as (λ x. Handled (Node st)) [
    | none ↦ record { state = s; node = mark_disconnected node; actions = [] }
    | some v ↦
        let mine : VersionMessage = record default_version {
          start_height = of_bits 32 (2 ^ 31) (to_bits 32 s.bc.chain.height);
        } in
        let greeting =
          if node.inbound then send_to version_command (serialize_version mine) ∷ [] else [] in
        if ltb_ℤ v.version (pos 10001)
        then record { state = s; node = mark_disconnected node; actions = [] }
        else record {
          state = s;
          node = record node { their_version = v; handshake_done = true };
          actions = greeting ++ (send_to verack_command [] ∷ ask_headers st s.bc ∷ []);
        }
  ]

module _ (ssl : Openssl) (st : Storage) (params : ChainParams) where
  -- OnMessage
  unfoldable pub on_message : NodeHandler (Node st)
  on_message now msg node s =
      let unchanged = λ (node : Peer) (actions : List Action).
        let r : Handled (Node st) = record { state = s; node = node; actions = actions } in r in
      if bytes_eq msg.command version_command
      then handle_version st msg.payload node s
      else if bytes_eq msg.command verack_command
      then unchanged (record node { verack_received = true }) []
      else if bytes_eq msg.command inv_command
      then handle_inv st msg.payload node s
      else if bytes_eq msg.command getdata_command
      then handle_get_data st msg.payload node s
      else if bytes_eq msg.command tx_command
      then handle_tx ssl st now msg.payload node s
      else if bytes_eq msg.command block_command
      then handle_block ssl st params msg.payload node s
      else if bytes_eq msg.command getheaders_command
      then handle_get_headers ssl st msg.payload node s
      else if bytes_eq msg.command headers_command
      then handle_headers ssl st msg.payload node s
      else if bytes_eq msg.command ping_command
      then unchanged node (send_to pong_command msg.payload ∷ [])
      else if bytes_eq msg.command pong_command
      then unchanged (record node { last_ping_time = now }) []
      else if bytes_eq msg.command getaddr_command
      then unchanged node (send_to addr_command (addr_payload s.peers) ∷ [])
      else unchanged node []
