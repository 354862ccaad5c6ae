-- ===== src/Node/Runs.antt =====
-- The runs of a node from its genesis block on (bin/cdxd.cpp): whatever its peers send.
use cdx.Chain.Runs.{Reach-supply, Reach}
use cdx.Chain.Accept.{Fault}
use cdx.Base.{
  some_injective, ◌∙◌, sym, false, true, Option, inl, inr, ℕ, Bool, Bool-cases, List, refl, ◌≡◌,
  some, none, [],
}
use cdx.Result.{Result, ok, err}
use cdx.Utxo.{total_value, uint256_key}
use cdx.Crypto.{Openssl}
use cdx.Storage.{IsStorage, Storage}
use cdx.Params.{max_supply_base, ChainParams}
use cdx.P2p.Server.{receive, punish, Peer, Handled}
use cdx.Node.Blocks.{clean_pool, take_block, handle_block}
use cdx.Node.Relay.{accept_tx, take_tx, handle_tx}
use cdx.Node.{on_message}
use cdx.Node.Miner.{mine_on, mined_header, mine_round, MinerCounts, block_mined}
use cdx.Node.State.{TxRecord, Node}
use cdx.Bytes.{Bytes}
use cdx.Base.Int.{◌≤ℤ◌, pos, ℤ}
use cdx.Block.{BlockHeader, Block}
use cdx.P2p.Protocol.{NetMessage}
use cdx.Node.Invariant.{
  offered_clean, accept_tx-IsSound, headers-state, get_headers-state, take_block-IsSound,
  take_tx-IsSound, get_data-state, inv-state, version-state, IsSound,
}
use cdx.Chain.{BlockIndex, tip, Blockchain}
use cdx.P2p.Sync.{parse_block_payload, parse_tx_payload}
use cdx.Chain.Reorg.{try_accept_block, Connected, ReorgError}
use cdx.Script.{bytes_eq}
use cdx.Chain.Genesis.{apply_genesis}
use cdx.Transaction.{OutPoint, Tx}
use cdx.P2p.Server.Buffer.{receive-keep}
use cdx.Chain.Errors.{try_accept_block-kept}
use cdx.StdMap.{find}
use cdx.Uint256.{U256}
use cdx.Mempool.{has_invalid_input, Entry}
use cdx.Consensus.Validation.{spends}
use cdx.Node.Command.{
  getaddr_command, pong_command, ping_command, headers_command, getheaders_command, block_command,
  tx_command, getdata_command, inv_command, verack_command, version_command,
}

module _ (ssl : Openssl) (st : Storage) (params : ChainParams) where
  block-IsSound :
      (payload : Bytes) (node : Peer) (s : Node st)
      → IsSound ssl st params s
      → IsSound ssl st params (handle_block ssl st params payload node s).state
  unfolding handle_block
  block-IsSound payload node s v =
      elim (parse_block_payload payload)
        as (λ o.
          IsSound ssl st params
            (elim o as (λ x. Handled (Node st)) [
              | none ↦ record { state = s; node = punish 10 node; actions = [] }
              | some blk ↦ take_block ssl st params blk node s
            ]).state) [ none ↦ v | some blk ↦ take_block-IsSound ssl st params blk node s v ]

  tx-IsSound :
      (now : ℤ) (payload : Bytes) (node : Peer) (s : Node st)
      → IsSound ssl st params s
      → IsSound ssl st params (handle_tx ssl st now payload node s).state
  unfolding handle_tx
  tx-IsSound now payload node s v =
      elim (parse_tx_payload payload)
        as (λ o.
          IsSound ssl st params
            (elim o as (λ x. Handled (Node st)) [
              | none ↦ record { state = s; node = punish 10 node; actions = [] }
              | some tx ↦ take_tx ssl st now tx node s
            ]).state) [ none ↦ v | some tx ↦ take_tx-IsSound ssl st params now tx node s v ]

  -- Every message keeps the node sound.
  on_message-IsSound :
      (now : ℤ) (msg : NetMessage) (node : Peer) (s : Node st)
      → IsSound ssl st params s
      → IsSound ssl st params (on_message ssl st params now msg node s).state
  unfolding on_message
  on_message-IsSound now msg node s v = elim (Bool-cases (bytes_eq msg.command version_command)) [
    | inl e ↦ rw e (rw (version-state ssl st params msg.payload node s) v)
    | inr e ↦ rw e (elim (Bool-cases (bytes_eq msg.command verack_command)) [
      | inl e ↦ rw e (v)
      | inr e ↦ rw e (elim (Bool-cases (bytes_eq msg.command inv_command)) [
        | inl e ↦ rw e (rw (inv-state ssl st params msg.payload node s) v)
        | inr e ↦ rw e (elim (Bool-cases (bytes_eq msg.command getdata_command)) [
          | inl e ↦ rw e (rw (get_data-state ssl st params msg.payload node s) v)
          | inr e ↦ rw e (elim (Bool-cases (bytes_eq msg.command tx_command)) [
            | inl e ↦ rw e (tx-IsSound now msg.payload node s v)
            | inr e ↦ rw e (elim (Bool-cases (bytes_eq msg.command block_command)) [
              | inl e ↦ rw e (block-IsSound msg.payload node s v)
              | inr e ↦ rw e (elim (Bool-cases (bytes_eq msg.command getheaders_command)) [
                | inl e ↦ rw e (rw (get_headers-state ssl st params msg.payload node s) v)
                | inr e ↦ rw e (elim (Bool-cases (bytes_eq msg.command headers_command)) [
                  | inl e ↦ rw e (rw (headers-state ssl st params msg.payload node s) v)
                  | inr e ↦ rw e (elim (Bool-cases (bytes_eq msg.command ping_command)) [
                    | inl e ↦ rw e (v)
                    | inr e ↦ rw e (elim (Bool-cases (bytes_eq msg.command pong_command)) [
                      | inl e ↦ rw e (v)
                      | inr e ↦ rw e (elim (Bool-cases (bytes_eq msg.command getaddr_command)) [
                        | inl e ↦ rw e (v)
                        | inr e ↦ rw e (v)
                      ])
                    ])
                  ])
                ])
              ])
            ])
          ])
        ])
      ])
    ])
  ]

  block_mined-IsSound :
      (blk : Block) (fees : ℤ) (counts : MinerCounts) (s : Node st)
      (r : Blockchain st × Result (Fault ReorgError) Connected)
      → IsSound ssl st params (clean_pool ssl st (record s { bc = r.0 }))
      → ((e : Fault ReorgError) → r.1 ≡ err e → IsSound ssl st params (record s { bc = r.0 }))
      → IsSound ssl st params (block_mined ssl st params blk fees counts s r).state
  unfolding block_mined
  block_mined-IsSound blk fees counts s (bc, ok c) good bad = good
  block_mined-IsSound blk fees counts s (bc, err e) good bad = bad e refl

  -- A refused block leaves the chain as it was.
  refused :
      (blk : Block) (s : Node st) (e : Fault ReorgError)
      → IsSound ssl st params s
      → (try_accept_block ssl st params blk s.bc).1 ≡ err e
      → IsSound ssl st params (record s { bc = (try_accept_block ssl st params blk s.bc).0 })
  refused blk s e v q = rw (try_accept_block-kept ssl st params blk s.bc e q) v

  mined_header-IsSound :
      (vtx : List Tx) (fees : ℤ) (counts : MinerCounts) (s : Node st) (o : Option BlockHeader)
      → IsSound ssl st params s
      → IsSound ssl st params (mined_header ssl st params vtx fees counts s o).state
  unfolding mined_header
  mined_header-IsSound vtx fees counts s none v = v
  mined_header-IsSound vtx fees counts s (some header) v =
      block_mined-IsSound _ fees counts s _ (offered_clean ssl st params _ s v)
        (λ e q. refused _ s e v q)

  mine_on-IsSound :
      (stack address : Bytes) (now hashes : ℕ) (counts : MinerCounts) (s : Node st)
      (o : Option BlockIndex)
      → IsSound ssl st params s
      → IsSound ssl st params (mine_on ssl st params stack address now hashes counts s o).state
  unfolding mine_on
  mine_on-IsSound stack address now hashes counts s none v = v
  mine_on-IsSound stack address now hashes counts s (some t) v =
      mined_header-IsSound _ _ counts s _ v

  -- The runs of a node that starts at ApplyGenesis with an empty mempool: any peer sends any bytes; the
  -- miner does a round; the wallet's command sendtoaddress adds a transaction that CheckTx accepts;
  -- connections come and go.
  pub data Run : Node st → Type 0 where
    started :
        (bc bc' : Blockchain st) (history : List TxRecord) (peers : List (Bytes × Bool))
        → apply_genesis ssl st params bc ≡ (bc', ok tt)
        → Run (record {
          bc = bc';
          pool = record { map_tx = []; map_prev_out = [] };
          history = history;
          peers = peers;
        })
    received :
        (now : ℤ) (bytes : Bytes) (node : Peer) (s : Node st)
        → Run s
        → Run (receive ssl params.network_magic (on_message ssl st params) now bytes node s).state
    mined :
        (stack address : Bytes) (now hashes : ℕ) (counts : MinerCounts) (s : Node st)
        → Run s
        → Run (mine_round ssl st params stack address now hashes counts s).state
    sent :
        (now : ℤ) (tx : Tx) (s s' : Node st) → Run s → accept_tx ssl st now tx s ≡ some s' → Run s'
    connections :
        (peers : List (Bytes × Bool)) (s : Node st) → Run s → Run (record s { peers = peers })

  empty-IsSound :
      (s : Node st)
      → Reach ssl st params s.bc
      → s.pool ≡ record { map_tx = []; map_prev_out = [] }
      → IsSound ssl st params s
  unfolding find
  empty-IsSound s r e = record {
    chain = r;
    consistent = rw e (λ out txid q. absurd (cc), λ out txid entry q _. absurd (cc));
    clean = rw e (λ txid entry q. absurd (cc));
  }

  pub Run-IsSound : (s : Node st) → Run s → IsSound ssl st params s
  unfolding mine_round
  Run-IsSound s (started bc bc' history peers e) = empty-IsSound _ (Reach.started bc bc' e) refl
  Run-IsSound s (received now bytes node before r) =
      receive-keep ssl params.network_magic (on_message ssl st params) (IsSound ssl st params)
        on_message-IsSound now bytes node before (Run-IsSound before r)
  Run-IsSound s (mined stack address now hashes counts before r) =
      mine_on-IsSound stack address now hashes counts before (tip before.bc.chain)
        (Run-IsSound before r)
  Run-IsSound s (sent now tx before _ r e) =
      accept_tx-IsSound ssl st params now tx before s (Run-IsSound before r) e
  Run-IsSound s (connections peers before r) =
      let v = Run-IsSound before r in
      record { chain = v.chain; consistent = v.consistent; clean = v.clean }

  -- In every run of a node that starts at ApplyGenesis with an empty mempool, not at a stored chain, and
  -- with a storage that reads a block only under its own hash: the chain has a block, its coins are worth at most 21 million; no two transactions of the mempool spend one
  -- outpoint, and every input of each has a coin of the chain that is spendable at the chain's height.
  pub Run_lem :
      (store : IsStorage ssl st) (s : Node st)
      → Run s
      → (n : ℕ) × (s.bc.chain.height ≡ pos n)
        × (total_value s.bc.chain.view ≤ℤ pos max_supply_base)
        × ((out : OutPoint) (a b : U256) (e f : Entry)
            → find a s.pool.map_tx ≡ some e
            → find b s.pool.map_tx ≡ some f
            → spends out e.tx.vin ≡ true
            → spends out f.tx.vin ≡ true
            → a ≡ b)
        × ((txid : U256) (e : Entry)
            → find txid s.pool.map_tx ≡ some e
            → has_invalid_input s.bc.chain.view n e.tx.vin ≡ false)
  Run_lem store s r =
      let v = Run-IsSound s r in
      let (n, at_n, _, supply) = Reach-supply ssl st params store s.bc v.chain in
      (
        n,
        at_n,
        supply,
        λ out a b e f p q x y.
            some_injective (sym (v.consistent.1 out a e p x) ∙ v.consistent.1 out b f q y),
        λ txid e q. rw at_n at (v.clean txid e q),
      )
