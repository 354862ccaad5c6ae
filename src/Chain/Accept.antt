-- ===== src/Chain/Accept.antt =====
-- AcceptBlock (src/blockchain/blockchain.cpp).
use cdx.Base.{
  false, not, get_elem?, ◌*◌, ◌==◌, if◌then◌else◌, ◌/◌, [], ◌∷◌, ◌++◌, some, none, ℕ, Option,
}
use cdx.Base.Int.{ℤ, pos}
use cdx.Utxo.{CoinsView, uint256_key}
use cdx.Result.{Result, ok, err, ◌>>=◌, ◌>>◌, fail_if}
use cdx.Consensus.Header.{check_block_header, get_hash, HeaderError}
use cdx.Consensus.Validation.{check_block, Error}
use cdx.Crypto.{Openssl}
use cdx.Storage.{Storage}
use cdx.Params.{ChainParams}
use cdx.Consensus.Difficulty.{get_next_work_required, next_height}
use cdx.Chain.{index_entry, BlockIndex, Blockchain}
use cdx.Block.{Block}
use cdx.StdMap.{insert, find}
use cdx.Uint256.{add}
use cdx.Uint256.Division.{get_block_work}

-- The errors of AcceptBlock.
pub data ChainError : Type 0 where
  unknown_prev_block cannot_read_prev incorrect_bits : ChainError
  header_error : HeaderError → ChainError
  block_error : Error → ChainError

-- How a call ends without success: with an error that it reports, or in the read behind the end of
-- byHeight. That read is no error: the program has no defined behaviour from there on, and the state
-- that stands beside `index_out_of_range` is only the last one before it.
pub data Fault (E : Type 0) : Type 0 where
  fails : E → Fault E
  index_out_of_range : Fault E

unfoldable pub some_or : {A : Type 0} → ChainError → Option A → Result (Fault ChainError) A
some_or e none = err (fails e)
some_or e (some a) = ok a

unfoldable pub as_header : {A : Type 0} → Result HeaderError A → Result (Fault ChainError) A
as_header (ok a) = ok a
as_header (err e) = err (fails (header_error e))

unfoldable pub as_block : {A : Type 0} → Result Error A → Result (Fault ChainError) A
as_block (ok a) = ok a
as_block (err e) = err (fails (block_error e))

module _ (ssl : Openssl) (st : Storage) (params : ChainParams) where
  -- The height at which the interval of the block after `height` starts.
  abbrev pub interval_start : ℤ → ℕ
  interval_start height =
      next_height height / params.difficulty_interval * params.difficulty_interval

  -- The time of the first block of the interval, or that of the previous block.
  unfoldable pub first_time : Blockchain st → ℤ → ℕ → Result (Fault ChainError) ℕ
  first_time bc prev_height prev_time =
      if interval_start prev_height == 0
      then ok prev_time
      else elim (get_elem? bc.chain.by_height (interval_start prev_height)) [
        | none ↦ err index_out_of_range
        | some hash ↦ elim (st.read_block bc.stored hash) [
          | none ↦ ok prev_time
          | some blk ↦ ok blk.header.timestamp
        ]
      ]

  -- The checks of AcceptBlock, which change nothing: the index entry of the previous block, and the
  -- coins after the block.
  unfoldable pub check_accept :
      Block → ℕ → Blockchain st → Result (Fault ChainError) (BlockIndex × CoinsView)
  check_accept blk height bc = do
    prev_idx ← some_or unknown_prev_block (find blk.header.prev_block_hash bc.chain.index)
    prev ← some_or cannot_read_prev (st.read_block bc.stored blk.header.prev_block_hash)
    as_header (check_block_header ssl blk.header (some prev.header) params)
    first ← first_time bc prev_idx.height prev.header.timestamp
    fail_if
        (not (
          blk.header.bits
          == get_next_work_required (pos prev.header.timestamp) prev_idx.height prev.header.bits
              (pos first) params))
        (fails incorrect_bits)
    checked ← as_block (check_block ssl blk height bc.chain.view)
    ok (prev_idx, checked.0)

  -- The new state of AcceptBlock.
  unfoldable pub connect_block : Block → ℕ → BlockIndex → CoinsView → Blockchain st → Blockchain st
  connect_block blk height prev_idx view bc =
      let hash = get_hash ssl blk.header in
      let work = add prev_idx.chain_work (get_block_work blk.header.bits) in
      let by_height = bc.chain.by_height ++ (hash ∷ []) in
      record {
        chain = record {
          view = view;
          index = insert hash (index_entry ssl blk (pos height) work false) bc.chain.index;
          by_height = by_height;
          height = pos height;
          tip_hash = hash;
          chain_work = work;
        };
        stored =
            st.save_chain_state view (pos height) hash by_height
              (st.write_block blk height bc.stored);
      }

  unfoldable pub accept_checked :
      Block
      → ℕ
      → Blockchain st
      → Result (Fault ChainError) (BlockIndex × CoinsView)
      → Blockchain st × Result (Fault ChainError) (Unit {0})
  accept_checked blk height bc (err f) = (bc, err f)
  accept_checked blk height bc (ok (prev_idx, view)) =
      (connect_block blk height prev_idx view bc, ok tt)

  -- AcceptBlock
  unfoldable pub accept_block :
      Block → ℕ → Blockchain st → Blockchain st × Result (Fault ChainError) (Unit {0})
  accept_block blk height bc = accept_checked blk height bc (check_accept blk height bc)
