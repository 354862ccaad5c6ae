-- ===== src/Node/Miner.antt =====
-- The miner of the node (bin/cdxd.cpp, RunMinerLoop): one round of its loop. The clock, the number
-- of hashes that are tried before the miner is stopped, and what minerHash holds before it is set are
-- arguments.
use cdx.Chain.Accept.{Fault}
use cdx.Base.{
  ◌==◌, true, false, ◌^◌, ltb, ◌*◌, ◌%◌, ◌/◌, ◌+◌, Option, leb, if◌then◌else◌, List, ℕ, some, none,
  zero, suc, [], ◌∷◌,
}
use cdx.Result.{Result, ok, err}
use cdx.Base.Int.{pos_part, ◌+ℤ◌, ℤ, pos, negsuc}
use cdx.P2p.Server.{Action, broadcast_message}
use cdx.Storage.{Storage}
use cdx.Crypto.{sha256d, Openssl}
use cdx.Node.State.{inv_block, Node}
use cdx.Chain.{get_block_by_height, tip, Blockchain, BlockIndex}
use cdx.Uint256.{less_eq, U256}
use cdx.Params.{ChainParams}
use cdx.Block.{serialize_header, BlockHeader, Block}
use cdx.Bytes.{Bytes}
use cdx.Transaction.{Tx}
use cdx.Consensus.Difficulty.{target_from_bits, next_height, get_next_work_required}
use cdx.Chain.Reorg.{Connected, try_accept_block, ReorgError}
use cdx.Mining.Candidate.{create_candidate_block}
use cdx.Mining.{set_nonce}
use cdx.P2p.Protocol.{serialize_inv, Inv}
use cdx.Merkle.{merkle_root_of_txs}
use cdx.Consensus.Header.{get_hash}
use cdx.Node.Blocks.{clean_pool}
use cdx.Consensus.Rewards.{get_block_subsidy}
use cdx.Node.Command.{inv_command}

-- The counters of CMiner.
pub record MinerCounts : Type 0 where
  pub blocks_found : ℕ
  pub last_height_mined : ℤ
  pub immature_reward : ℤ

-- What a round leaves.
pub record Mined (st : Storage) : Type 0 where
  pub state : Node st
  pub counts : MinerCounts
  pub actions : List Action

-- timestamp: the clock, or one second behind the tip
unfoldable pub block_time : ℕ → BlockIndex → ℕ
block_time now tip = if leb now tip.timestamp then (tip.timestamp + 1) % 2 ^ 32 else now

module _ (ssl : Openssl) where
  -- The loop over the nonces for `fuel` hashes: the header that was found. After the last nonce the
  -- timestamp grows and the merkle root is computed again.
  unfoldable pub mine_rounds : ℕ → U256 → List Tx → BlockHeader → ℕ → Option BlockHeader
  mine_rounds zero target vtx header nonce = none
  mine_rounds (suc fuel) target vtx header nonce =
      let hash = sha256d ssl (set_nonce (serialize_header header) nonce) in
      let later : BlockHeader = record header {
        timestamp = (header.timestamp + 1) % 2 ^ 32;
        merkle_root = merkle_root_of_txs ssl vtx;
      } in
      let nonce' = (nonce + 1) % 2 ^ 32 in
      elim (less_eq hash target) as (λ x. Option BlockHeader) [
        | true ↦ some (record header { nonce = nonce })
        | false ↦ mine_rounds fuel target vtx (if nonce' == 0 then later else header) nonce'
      ]

module _ (st : Storage) (params : ChainParams) where
  -- firstTime
  unfoldable pub miner_first_time : Blockchain st → BlockIndex → ℕ
  miner_first_time bc tip =
      let height = next_height tip.height in
      let start = (height / params.difficulty_interval) * params.difficulty_interval in
      if ltb 0 start
      then elim (get_block_by_height st bc (pos start)) as (λ x. ℕ) [
        | none ↦ tip.timestamp
        | some blk ↦ blk.header.timestamp
      ]
      else tip.timestamp

  unfoldable pub miner_bits : Blockchain st → BlockIndex → ℕ
  miner_bits bc tip =
      get_next_work_required (pos tip.timestamp) tip.height tip.bits (pos (miner_first_time bc tip))
        params

module _ (ssl : Openssl) (st : Storage) (params : ChainParams) where
  -- What the miner does with the result of TryAcceptBlock on its block.
  unfoldable pub block_mined :
      Block
      → ℤ
      → MinerCounts
      → Node st
      → Blockchain st × Result (Fault ReorgError) Connected
      → Mined st
  block_mined blk fees counts s (bc, err f) = record {
    state = record s { bc = bc };
    counts = counts;
    actions = [];
  }
  block_mined blk fees counts s (bc, ok _) =
      let known : Inv = record { type = inv_block; hash = get_hash ssl blk.header } in
      record {
        state = clean_pool ssl st (record s { bc = bc });
        counts = record {
          blocks_found = counts.blocks_found + 1;
          last_height_mined = bc.chain.height;
          immature_reward =
              counts.immature_reward
              +ℤ (pos (get_block_subsidy (pos_part bc.chain.height)) +ℤ fees);
        };
        actions = broadcast_message inv_command (serialize_inv (known ∷ [])) (negsuc 0) ∷ [];
      }

  unfoldable pub mined_header : List Tx → ℤ → MinerCounts → Node st → Option BlockHeader → Mined st
  mined_header vtx fees counts s none = record { state = s; counts = counts; actions = [] }
  mined_header vtx fees counts s (some header) =
      let blk : Block = record { header = header; vtx = vtx } in
      block_mined blk fees counts s (try_accept_block ssl st params blk s.bc)

  unfoldable pub mine_on :
      Bytes → Bytes → ℕ → ℕ → MinerCounts → Node st → Option BlockIndex → Mined st
  mine_on stack address now hashes counts s none = record {
    state = s;
    counts = counts;
    actions = [];
  }
  mine_on stack address now hashes counts s (some tip) =
      let bits = miner_bits st params s.bc tip in
      let (blk, fees) =
        create_candidate_block ssl stack (next_height tip.height) bits (block_time now tip)
          s.bc.chain.tip_hash s.pool s.bc.chain.view address params.address_version in
      mined_header blk.vtx fees counts s
        (mine_rounds ssl hashes (target_from_bits bits) blk.vtx blk.header 0)

  -- One round of RunMinerLoop.
  unfoldable pub mine_round : Bytes → Bytes → ℕ → ℕ → MinerCounts → Node st → Mined st
  mine_round stack address now hashes counts s =
      mine_on stack address now hashes counts s (tip s.bc.chain)
