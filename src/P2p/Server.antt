-- ===== src/P2p/Server.antt =====
-- A connection and the server around it (src/p2p/peer.h, server.cpp): class CNode, and what
-- CNetServer does with received bytes and with its list of peers. Sockets, threads and the lock are
-- left out: received bytes, the time and whether a write succeeds are arguments.
pub mod Buffer
use cdx.Base.Int.{eq_ℤ, pos, ℤ}
use cdx.P2p.Protocol.{
  Parsed, build_message, is_among, incomplete, malformed, message, parse_message, NetMessage,
  VersionMessage,
}
use cdx.Base.{
  some, none, not, map, zero, ◌||◌, take, ◌&&◌, length, suc, false, leb, ◌+◌, [], ◌∷◌,
  if◌then◌else◌, Bool, ◌++◌, ℕ, true, List,
}
use cdx.Bytes.{Bytes}
use cdx.Crypto.{Openssl}
use cdx.Ripemd160.{zeros}
use cdx.Script.{bytes_eq}

-- CNode, the fields that the program reads
pub record Peer : Type 0 where
  pub fd : ℤ
  pub addr : Bytes
  pub inbound : Bool
  pub handshake_done : Bool
  pub verack_received : Bool
  pub their_version : VersionMessage
  pub last_message_time : ℤ
  pub last_ping_time : ℤ
  pub misbehavior_score : ℕ
  pub disconnected : Bool
  pub recv_buffer : Bytes

-- CVersionMessage(), with the user agent "/CDX:0.1.0/"
abbrev pub default_version : VersionMessage
default_version = record {
  version = pos 10001;
  services = pos 0;
  timestamp = pos 0;
  addr_me = zeros 26;
  addr_you = zeros 26;
  nonce = 0;
  user_agent = 47 ∷ 67 ∷ 68 ∷ 88 ∷ 58 ∷ 48 ∷ 46 ∷ 49 ∷ 46 ∷ 48 ∷ 47 ∷ [];
  start_height = pos 0;
  relay = true;
}

-- CNode(fd, addr, inbound)
unfoldable pub new_peer : ℤ → Bytes → Bool → Peer
new_peer fd addr inbound = record {
  fd = fd;
  addr = addr;
  inbound = inbound;
  handshake_done = false;
  verack_received = false;
  their_version = default_version;
  last_message_time = pos 0;
  last_ping_time = pos 0;
  misbehavior_score = 0;
  disconnected = false;
  recv_buffer = [];
}

-- MarkDisconnected
unfoldable pub mark_disconnected : Peer → Peer
mark_disconnected node = record node { disconnected = true }

-- node.misbehaviorScore += n
unfoldable pub punish : ℕ → Peer → Peer
punish n node = record node { misbehavior_score = node.misbehavior_score + n }

-- What the code asks the server to send: SendTo the peer that it handles, BroadcastMessage with
-- excludeFd, and WriteTo of raw bytes to that peer.
pub data Action : Type 0 where
  send_to : Bytes → Bytes → Action
  broadcast_message : Bytes → Bytes → ℤ → Action
  write_to : Bytes → Action

-- The state behind a handler, the peer and what is to be sent, after a call.
pub record Handled (S : Type 0) : Type 0 where
  pub state : S
  pub node : Peer
  pub actions : List Action

-- INodeHandler::OnMessage, at a time
abbrev pub NodeHandler : Type 0 → Type 0
NodeHandler S = ℤ → NetMessage → Peer → S → Handled S

-- httpMethods: "GET ", "POST ", "HEAD ", "PUT ", "OPTIONS ", "DELETE ", "PATCH "
abbrev pub http_methods : List Bytes
http_methods =
    (71 ∷ 69 ∷ 84 ∷ 32 ∷ [])
    ∷ (80 ∷ 79 ∷ 83 ∷ 84 ∷ 32 ∷ [])
    ∷ (72 ∷ 69 ∷ 65 ∷ 68 ∷ 32 ∷ [])
    ∷ (80 ∷ 85 ∷ 84 ∷ 32 ∷ [])
    ∷ (79 ∷ 80 ∷ 84 ∷ 73 ∷ 79 ∷ 78 ∷ 83 ∷ 32 ∷ [])
    ∷ (68 ∷ 69 ∷ 76 ∷ 69 ∷ 84 ∷ 69 ∷ 32 ∷ [])
    ∷ (80 ∷ 65 ∷ 84 ∷ 67 ∷ 72 ∷ 32 ∷ [])
    ∷ []

-- Whether the buffer starts with one of the methods.
unfoldable pub is_http : List Bytes → Bytes → Bool
is_http [] buffer = false
is_http (m ∷ methods) buffer =
    (leb (length m) (length buffer) && bytes_eq (take (length m) buffer) m)
    || is_http methods buffer

-- The answer to an HTTP request: "HTTP/1.1 200 OK", the headers, and "ok".
abbrev pub ok_response : Bytes
ok_response =
    72 ∷ 84 ∷ 84 ∷ 80 ∷ 47 ∷ 49 ∷ 46 ∷ 49 ∷ 32 ∷ 50 ∷ 48 ∷ 48 ∷ 32 ∷ 79 ∷ 75 ∷ 13 ∷ 10 ∷ 67 ∷ 111
    ∷ 110 ∷ 116 ∷ 101 ∷ 110 ∷ 116 ∷ 45 ∷ 84 ∷ 121 ∷ 112 ∷ 101 ∷ 58 ∷ 32 ∷ 116 ∷ 101 ∷ 120 ∷ 116 ∷ 47
    ∷ 112 ∷ 108 ∷ 97 ∷ 105 ∷ 110 ∷ 13 ∷ 10 ∷ 67 ∷ 111 ∷ 110 ∷ 116 ∷ 101 ∷ 110 ∷ 116 ∷ 45 ∷ 76 ∷ 101
    ∷ 110 ∷ 103 ∷ 116 ∷ 104 ∷ 58 ∷ 32 ∷ 50 ∷ 13 ∷ 10 ∷ 67 ∷ 111 ∷ 110 ∷ 110 ∷ 101 ∷ 99 ∷ 116 ∷ 105
    ∷ 111 ∷ 110 ∷ 58 ∷ 32 ∷ 99 ∷ 108 ∷ 111 ∷ 115 ∷ 101 ∷ 13 ∷ 10 ∷ 13 ∷ 10 ∷ 111 ∷ 107 ∷ []

module _ {S : Type 0} (ssl : Openssl) (magic : ℕ) (on_message : NodeHandler S) where
  -- A frame that is no message: the score, the cleared buffer, and the end of the connection at 200.
  unfoldable pub reject_buffer : Peer → Peer
  reject_buffer node =
      let node' = record (punish 100 node) { recv_buffer = [] } in
      if leb 200 node'.misbehavior_score then mark_disconnected node' else node'

  -- What follows the call of ParseMessage; `later` is the loop after a message.
  unfoldable pub process_parsed : ℤ → (Peer → S → Handled S) → Parsed → Peer → S → Handled S
  process_parsed now later incomplete node s = record { state = s; node = node; actions = [] }
  process_parsed now later malformed node s = record {
    state = s;
    node = reject_buffer node;
    actions = [];
  }
  process_parsed now later (message msg rest) node s =
      let here =
        on_message now msg (record node { recv_buffer = rest; last_message_time = now }) s in
      let end = later here.node here.state in record end { actions = here.actions ++ end.actions }

  -- The loop of ProcessBuffer over the messages of the buffer.
  unfoldable pub process_messages : ℕ → ℤ → Peer → S → Handled S
  process_messages zero now node s = record { state = s; node = node; actions = [] }
  process_messages (suc fuel) now node s =
      process_parsed now (process_messages fuel now) (parse_message ssl magic node.recv_buffer) node
        s

  -- ProcessBuffer: a message has at least 24 bytes, so the bytes of the buffer are fuel enough
  unfoldable pub process_buffer : ℤ → Peer → S → Handled S
  process_buffer now node s =
      if is_http http_methods node.recv_buffer
      then record { state = s; node = mark_disconnected node; actions = write_to ok_response ∷ [] }
      else process_messages (suc (length node.recv_buffer)) now node s

  -- ReadLoop when recv gives some bytes
  unfoldable pub receive : ℤ → Bytes → Peer → S → Handled S
  receive now bytes node s =
      process_buffer now
        (record node { recv_buffer = node.recv_buffer ++ bytes; last_message_time = now }) s

-- BuildMessage's frame, written to a peer: none when there is no frame or the peer is unknown;
-- `write` tells whether WriteTo of the frame succeeds. A peer that cannot be written to is marked.
-- The peers are a map with fd as its key.
module _ (ssl : Openssl) (magic : ℕ) (write : ℤ → Bytes → Bool) where
  written : Bytes → Peer → Peer
  written frame node = if write node.fd frame then node else mark_disconnected node

  write_frame : ℤ → Bytes → List Peer → List Peer × Bool
  write_frame fd frame [] = ([], false)
  write_frame fd frame (node ∷ peers) =
      let (rest, sent) = write_frame fd frame peers in
      if eq_ℤ node.fd fd
      then (written frame node ∷ peers, write node.fd frame)
      else (node ∷ rest, sent)

  -- SendTo
  unfoldable pub send : ℤ → Bytes → Bytes → List Peer → List Peer × Bool
  unfolding write_frame written
  send fd command payload peers = elim (build_message ssl magic command payload) [
    | none ↦ (peers, false)
    | some frame ↦ write_frame fd frame peers
  ]

  write_all_peers : ℤ → Bytes → List Peer → List Peer
  write_all_peers exclude frame [] = []
  write_all_peers exclude frame (node ∷ peers) =
      (if eq_ℤ node.fd exclude || not node.handshake_done then node else written frame node)
      ∷ write_all_peers exclude frame peers

  -- BroadcastMessage
  unfoldable pub broadcast : Bytes → Bytes → ℤ → List Peer → List Peer
  unfolding write_all_peers written
  broadcast command payload exclude peers = elim (build_message ssl magic command payload) [
    | none ↦ peers
    | some frame ↦ write_all_peers exclude frame peers
  ]

-- The end of AcceptLoop and of ConnectTo: a new connection, refused when there are 32.
unfoldable pub add_connection : Peer → List Peer → List Peer × Bool
add_connection node peers = if leb 32 (length peers) then (peers, false) else (node ∷ peers, true)

-- AddTarget, without its call of ConnectTo: the targets, and whether the target is new
unfoldable pub add_target : Bytes → List Bytes → List Bytes × Bool
add_target t targets = if is_among t targets then (targets, false) else (targets ++ (t ∷ []), true)

-- HasTargetConnection
unfoldable pub has_target_connection : Bytes → List Peer → Bool
has_target_connection target [] = false
has_target_connection target (n ∷ peers) =
    (not n.inbound && (bytes_eq n.addr target && not n.disconnected))
    || has_target_connection target peers

-- GetPeerCount
unfoldable pub get_peer_count : List Peer → ℕ
get_peer_count [] = 0
get_peer_count (n ∷ peers) = (if n.disconnected then 0 else 1) + get_peer_count peers

-- GetPeerList
unfoldable pub get_peer_list : List Peer → List (Bytes × Bool)
get_peer_list peers = map (λ (n : Peer). (n.addr, n.handshake_done)) peers
