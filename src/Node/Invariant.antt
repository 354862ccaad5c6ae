-- ===== src/Node/Invariant.antt =====
-- What each message to the node, and each round of its miner, keeps (bin/cdxd.cpp).
use cdx.Base.{
  some_injective, true, if◌then◌else◌, List, Bool, Bool-cases, ◌++◌, Option, refl, arith, false,
  ◌≡◌, inl, inr, some, none, [], ◌∷◌,
}
use cdx.Result.{Result, ok, err}
use cdx.Utxo.{uint256_key}
use mathlib.Core.Path.{subst}
use cdx.Crypto.{Openssl}
use cdx.Storage.{Storage}
use cdx.Params.{ChainParams}
use cdx.Node.State.{is_unknown_prev, Node}
use cdx.Node.Blocks.{block_records, take_block, block_taken, record_block, clean_pool}
use cdx.Node.Relay.{relay_tx, take_tx, handle_get_data, handle_inv, accept_tx}
use cdx.Block.{BlockHeader, Block}
use cdx.Chain.Runs.{offered, Reach}
use cdx.Base.Int.{pos_part, ℤ}
use cdx.Chain.{get_index, have_block, Blockchain}
use cdx.Mempool.Consistency.{IsConsistent}
use cdx.Transaction.{Tx}
use cdx.Chain.Reorg.{Connected, try_accept_block, ReorgError}
use cdx.Mempool.Spendable.{add_unchecked-IsClean, IsClean}
use cdx.Mempool.Spent.{remove_spent_lem}
use cdx.Consensus.Header.{get_hash}
use cdx.Mempool.{add_unchecked, check_tx, MempoolError}
use cdx.Chain.Errors.{try_accept_block-kept}
use cdx.Chain.Accept.{Fault, fails, index_out_of_range}
use cdx.Mempool.Conflicts.{check_tx-add_unchecked}
use cdx.P2p.Server.{punish, Handled, Peer}
use cdx.Node.{handle_version}
use cdx.Node.Headers.{handle_get_headers, take_headers, handle_headers}
use cdx.Bytes.{Bytes}
use cdx.P2p.Sync.{parse_headers_payload}
use cdx.StdMap.{contains}
use cdx.Merkle.{get_tx_id}

module _ (ssl : Openssl) (st : Storage) (params : ChainParams) where
  -- The chain is one that TryAcceptBlock reaches from the genesis block, the maps of the mempool
  -- agree, and its transactions spend coins of the chain that are spendable at its height.
  pub record IsSound (s : Node st) : Type 0 where
    pub chain : Reach ssl st params s.bc
    pub consistent : IsConsistent s.pool
    pub clean : IsClean s.bc.chain.view (pos_part s.bc.chain.height) s.pool

  pub clean_pool-IsSound :
      (s : Node st) → Reach ssl st params s.bc → IsConsistent s.pool → IsSound (clean_pool ssl st s)
  unfolding clean_pool
  clean_pool-IsSound s r h =
      let (consistent, left) =
        remove_spent_lem s.bc.chain.view (pos_part s.bc.chain.height) s.pool h in
      record { chain = r; consistent = consistent; clean = λ txid e q. (left txid e q).1 }

  pub accept_tx-IsSound :
      (now : ℤ) (tx : Tx) (s s' : Node st)
      → IsSound s
      → accept_tx ssl st now tx s ≡ some s'
      → IsSound s'
  unfolding accept_tx
  accept_tx-IsSound now tx s s' v e =
      by_check (check_tx ssl tx s.pool s.bc.chain.view (pos_part s.bc.chain.height)) refl
    where
      by_check :
          (r : Result MempoolError ℤ)
          → check_tx ssl tx s.pool s.bc.chain.view (pos_part s.bc.chain.height) ≡ r
          → IsSound s'
      by_check (err x) q = absurd (ground (arith, q))
      by_check (ok fee) q =
          let (consistent, _, _) =
            check_tx-add_unchecked ssl tx s.pool s.bc.chain.view (pos_part s.bc.chain.height) fee
              now v.consistent q in
          let clean =
            add_unchecked-IsClean ssl tx s.pool s.bc.chain.view (pos_part s.bc.chain.height) fee now
              v.clean q in
          let pool' = (add_unchecked ssl tx fee (pos_part s.bc.chain.height) now s.pool).0 in
          let same : some (record s { pool = pool' }) ≡ some s' = rw (accept_tx, q) at e in
          subst IsSound (some_injective same)
            (record { chain = v.chain; consistent = consistent; clean = clean })

  pub if-IsSound :
      (b : Bool) (x y : Handled (Node st))
      → IsSound x.state
      → IsSound y.state
      → IsSound (if b then x else y).state
  if-IsSound true x y h k = h
  if-IsSound false x y h k = k

  -- Whatever an accepted or refused block leaves is sound: the node's state `s`, its chain replaced.
  pub offered_clean :
      (blk : Block) (s : Node st)
      → IsSound s
      → IsSound (clean_pool ssl st (record s { bc = (try_accept_block ssl st params blk s.bc).0 }))
  offered_clean blk s v = clean_pool-IsSound _ (offered s.bc blk v.chain) v.consistent

  record_block-IsSound :
      (blk : Block) (s : Node st) → IsSound s → IsSound (record_block ssl st blk s)
  unfolding record_block
  record_block-IsSound blk s v =
      elim (get_index st s.bc (get_hash ssl blk.header))
        as (λ o. IsSound (elim o as (λ x. Node st) [
          | none ↦ s
          | some idx ↦ record s {
            history = s.history ++ block_records ssl st blk idx.height blk.vtx;
          }
        ])) [
          | none ↦ v
          | some idx ↦ record { chain = v.chain; consistent = v.consistent; clean = v.clean }
        ]

  block_taken-IsSound :
      (blk : Block) (node : Peer) (s : Node st)
      (r : Blockchain st × Result (Fault ReorgError) Connected)
      → IsSound s
      → ((c : Connected) → r.1 ≡ ok c → IsSound (clean_pool ssl st (record s { bc = r.0 })))
      → ((f : Fault ReorgError) → r.1 ≡ err f → r.0 ≡ s.bc)
      → IsSound (block_taken ssl st blk node s r).state
  unfolding block_taken
  block_taken-IsSound blk node s (bc, ok c) v good bad = record_block-IsSound blk _ (good c refl)
  block_taken-IsSound blk node s (bc, err index_out_of_range) v good bad = rw (bad _ refl) v
  block_taken-IsSound blk node s (bc, err (fails e)) v good bad =
      if-IsSound (is_unknown_prev e) _ _ unchanged unchanged
    where
      unchanged : IsSound (record s { bc = bc })
      unchanged = rw (bad (fails e) refl) v

  pub take_block-IsSound :
      (blk : Block) (node : Peer) (s : Node st)
      → IsSound s
      → IsSound (take_block ssl st params blk node s).state
  unfolding take_block
  take_block-IsSound blk node s v =
      elim (Bool-cases (have_block st s.bc (get_hash ssl blk.header))) [
        | inl known ↦ rw known v
        | inr fresh ↦ rw fresh (
            block_taken-IsSound blk node s _ v (λ c _. offered_clean blk s v)
              (λ f q. try_accept_block-kept ssl st params blk s.bc f q))
      ]

  pub take_tx-IsSound :
      (now : ℤ) (tx : Tx) (node : Peer) (s : Node st)
      → IsSound s
      → IsSound (take_tx ssl st now tx node s).state
  unfolding take_tx
  take_tx-IsSound now tx node s v =
      if-IsSound (contains (get_tx_id ssl tx) s.pool.map_tx) _ _ v
        (taken (accept_tx ssl st now tx s) refl)
    where
      taken :
          (o : Option (Node st))
          → accept_tx ssl st now tx s ≡ o
          → IsSound
              (elim (accept_tx ssl st now tx s) as (λ x. Handled (Node st)) [
                | none ↦ record { state = s; node = punish 5 node; actions = [] }
                | some s' ↦ record { state = s'; node = node; actions = relay_tx tx ∷ [] }
              ]).state
      taken none q = rw q v
      taken (some s') q = rw q (accept_tx-IsSound now tx s s' v q)

  pub version-state :
      (payload : Bytes) (node : Peer) (s : Node st) → (handle_version st payload node s).state ≡ s
  unfolding handle_version
  version-state payload node s = ground arith

  pub inv-state :
      (payload : Bytes) (node : Peer) (s : Node st) → (handle_inv st payload node s).state ≡ s
  unfolding handle_inv
  inv-state payload node s = ground arith

  pub get_data-state :
      (payload : Bytes) (node : Peer) (s : Node st) → (handle_get_data st payload node s).state ≡ s
  unfolding handle_get_data
  get_data-state payload node s = ground arith

  pub get_headers-state :
      (payload : Bytes) (node : Peer) (s : Node st)
      → (handle_get_headers ssl st payload node s).state ≡ s
  unfolding handle_get_headers
  get_headers-state payload node s = ground arith

  take_headers-state :
      (headers : List BlockHeader) (node : Peer) (s : Node st)
      → (take_headers ssl st headers node s).state ≡ s
  unfolding take_headers
  take_headers-state [] node s = refl
  take_headers-state (h ∷ headers) node s = refl

  pub headers-state :
      (payload : Bytes) (node : Peer) (s : Node st)
      → (handle_headers ssl st payload node s).state ≡ s
  unfolding handle_headers
  headers-state payload node s =
      elim (parse_headers_payload payload)
        as (λ o.
          (elim o as (λ x. Handled (Node st)) [
            | none ↦ record { state = s; node = punish 10 node; actions = [] }
            | some headers ↦ take_headers ssl st headers node s
          ]).state
          ≡ s) [ none ↦ refl | some headers ↦ take_headers-state headers node s ]
