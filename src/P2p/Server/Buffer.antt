-- ===== src/P2p/Server/Buffer.antt =====
-- What ProcessBuffer does to the state of its handler (src/p2p/server.cpp).
use cdx.Base.{inl, inr, ◌++◌, Bool-cases, ℕ, suc, zero}
use cdx.P2p.Protocol.{Parsed, parse_message, NetMessage, incomplete, malformed, message}
use cdx.Crypto.{Openssl}
use cdx.P2p.Server.{
  http_methods, is_http, process_buffer, Handled, process_messages, receive, process_parsed, Peer,
  NodeHandler,
}
use cdx.Base.Int.{ℤ}
use cdx.Bytes.{Bytes}

module _ {S : Type 0} (ssl : Openssl) (magic : ℕ) (on_message : NodeHandler S) (P : S → Type 0)
    (keep : (now : ℤ) (msg : NetMessage) (node : Peer) (s : S)
      → P s
      → P (on_message now msg node s).state) where
  process_parsed-keep :
      (now : ℤ) (later : Peer → S → Handled S)
      → ((node : Peer) (s : S) → P s → P (later node s).state)
      → (p : Parsed) (node : Peer) (s : S) → P s
      → P (process_parsed ssl magic on_message now later p node s).state
  unfolding process_parsed
  process_parsed-keep now later h incomplete node s q = q
  process_parsed-keep now later h malformed node s q = q
  process_parsed-keep now later h (message msg rest) node s q = h _ _ (keep now msg _ s q)

  process_messages-keep :
      (fuel : ℕ) (now : ℤ) (node : Peer) (s : S)
      → P s
      → P (process_messages ssl magic on_message fuel now node s).state
  unfolding process_messages
  process_messages-keep zero now node s h = h
  process_messages-keep (suc fuel) now node s h =
      process_parsed-keep now (process_messages ssl magic on_message fuel now)
        (process_messages-keep fuel now) (parse_message ssl magic node.recv_buffer) node s h

  -- What every message keeps, any bytes keep.
  pub receive-keep :
      (now : ℤ) (bytes : Bytes) (node : Peer) (s : S)
      → P s
      → P (receive ssl magic on_message now bytes node s).state
  unfolding receive process_buffer
  receive-keep now bytes node s h =
      elim (Bool-cases (is_http http_methods (node.recv_buffer ++ bytes))) [
        | inl http ↦ rw http h
        | inr other ↦ rw other (process_messages-keep _ now _ s h)
      ]
