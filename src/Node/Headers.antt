-- ===== src/Node/Headers.antt =====
-- Headers for a peer and from it (bin/cdxd.cpp, HandleGetHeaders and HandleHeaders).
use cdx.Base.{
  length, leb, ◌||◌, not, ◌&&◌, ◌++◌, if◌then◌else◌, true, Bool, List, ℕ, some, none, zero, suc, [],
  ◌∷◌,
}
use cdx.Base.Int.{ltb_ℤ, ◌+ℤ◌, ℤ, pos}
use cdx.Utxo.{uint256_key}
use cdx.P2p.Server.{punish, Handled, Peer, send_to}
use cdx.Crypto.{Openssl}
use cdx.Storage.{Storage}
use cdx.Chain.{get_block_by_height, have_block, get_index, Blockchain}
use cdx.Bytes.{Bytes}
use cdx.Uint256.{u256_eq, is_zero, U256}
use cdx.Block.{BlockHeader}
use cdx.Node.State.{ask_data, ask_headers, inv_block, Node}
use cdx.P2p.Protocol.{Inv}
use cdx.Consensus.Header.{get_hash}
use cdx.P2p.Sync.{build_headers_payload, parse_headers_payload, parse_get_headers_payload}
use cdx.Node.Command.{headers_command}

module _ (ssl : Openssl) (st : Storage) where
  -- The height behind the first entry of a locator that the index has.
  unfoldable pub start_height : Blockchain st → List U256 → ℤ
  start_height bc [] = pos 0
  start_height bc (h ∷ locator) =
      let rest = start_height bc locator in
      elim (get_index st bc h) [ none ↦ rest | some idx ↦ idx.height +ℤ pos 1 ]

  -- The loop of HandleGetHeaders, with `room` for so many headers.
  unfoldable pub headers_from : ℕ → Blockchain st → U256 → ℤ → List BlockHeader
  headers_from zero bc hash_stop h = []
  headers_from (suc room) bc hash_stop h =
      let rest = headers_from room bc hash_stop (h +ℤ pos 1) in
      if ltb_ℤ bc.chain.height h then [] else elim (get_block_by_height st bc h) [
        | none ↦ []
        | some blk ↦
            blk.header
            ∷ (if not (is_zero hash_stop) && u256_eq (get_hash ssl blk.header) hash_stop
                then []
                else rest)
      ]

  -- HandleGetHeaders
  unfoldable pub handle_get_headers : Bytes → Peer → Node st → Handled (Node st)
  handle_get_headers payload node s =
      elim (parse_get_headers_payload payload) as (λ x. Handled (Node st)) [
        | none ↦ record { state = s; node = punish 10 node; actions = [] }
        | some (locator, hash_stop) ↦
            let out = headers_from 2000 s.bc hash_stop (start_height s.bc locator) in
            record {
              state = s;
              node = node;
              actions = send_to headers_command (build_headers_payload out) ∷ [];
            }
      ]

  -- The loop of HandleHeaders: up to `room` blocks to ask for.
  unfoldable pub want_blocks : Blockchain st → ℕ → List BlockHeader → List Inv
  want_blocks bc room [] = []
  want_blocks bc zero (h ∷ headers) = []
  want_blocks bc (suc room) (h ∷ headers) =
      let hash = get_hash ssl h in
      let rest = want_blocks bc (if have_block st bc hash then suc room else room) headers in
      if have_block st bc hash then rest else record { type = inv_block; hash = hash } ∷ rest

  -- haveAll
  unfoldable pub have_all : Blockchain st → List BlockHeader → Bool
  have_all bc [] = true
  have_all bc (h ∷ headers) = have_block st bc (get_hash ssl h) && have_all bc headers

  -- HandleHeaders behind its parser
  unfoldable pub take_headers : List BlockHeader → Peer → Node st → Handled (Node st)
  take_headers [] node s = record { state = s; node = node; actions = [] }
  take_headers (h ∷ headers) node s = record {
    state = s;
    node = node;
    actions =
        ask_data (want_blocks s.bc 100 (h ∷ headers))
        ++ (if not (have_all s.bc (h ∷ headers)) || leb 2000 (length (h ∷ headers))
            then ask_headers st s.bc ∷ []
            else []);
  }

  -- HandleHeaders
  unfoldable pub handle_headers : Bytes → Peer → Node st → Handled (Node st)
  handle_headers payload node s = elim (parse_headers_payload payload) as (λ x. Handled (Node st)) [
    | none ↦ record { state = s; node = punish 10 node; actions = [] }
    | some headers ↦ take_headers headers node s
  ]
