-- ===== src/Chain/Reorg.antt =====
-- TryAcceptBlock (src/blockchain/reorg.cpp), with AddIndexEntry (src/blockchain/blockchain.cpp).
use cdx.Base.{
  ◌==◌, length, map, if◌then◌else◌, ◌+◌, List, [], ◌∷◌, ◌++◌, some, none, ℕ, suc, zero, Option,
}
use cdx.Base.Int.{ℤ, pos, negsuc}
use cdx.Utxo.{CoinsView, uint256_key}
use cdx.Result.{Result, ok, err, ◌>>=◌, ◌>>◌, fail_if}
use cdx.Chain.Accept.{accept_block, fails, index_out_of_range, Fault, ChainError}
use cdx.Uint256.{add, u256_eq, less_eq, u256_zero, U256}
use cdx.Consensus.Header.{get_hash, check_block_header, HeaderError}
use cdx.Consensus.Validation.{check_block, Error}
use cdx.Crypto.{Openssl}
use cdx.Storage.{Storage}
use cdx.Params.{ChainParams}
use cdx.Block.{BlockHeader, Block}
use cdx.Chain.{index_entry, have_block, get_block_by_height, BlockIndex, Blockchain}
use cdx.StdMap.{insert, find}
use cdx.Uint256.Division.{get_block_work}
use cdx.Consensus.Difficulty.{next_height}

-- The errors of TryAcceptBlock.
pub data ReorgError : Type 0 where
  need_sync lower_chain_work cannot_read_chain_block : ReorgError
  rejected : ChainError → ReorgError
  fork_header : HeaderError → ReorgError
  fork_block : Error → ReorgError

-- A ReorgResult with ok set: the fork height, -1 without a reorganisation, and the connected blocks
pub record Connected : Type 0 where
  pub fork_height : ℤ
  pub connected : List U256

unfoldable pub some_blocks : Option (List Block) → Result ReorgError (List Block)
some_blocks none = err cannot_read_chain_block
some_blocks (some l) = ok l

unfoldable pub as_fork_header : {A : Type 0} → Result HeaderError A → Result ReorgError A
as_fork_header (ok a) = ok a
as_fork_header (err e) = err (fork_header e)

unfoldable pub as_fork_block : {A : Type 0} → Result Error A → Result ReorgError A
as_fork_block (ok a) = ok a
as_fork_block (err e) = err (fork_block e)

module _ (ssl : Openssl) (st : Storage) (params : ChainParams) where
  -- AddIndexEntry, with writeDisk
  unfoldable pub add_index_entry : Block → ℕ → Blockchain st → Blockchain st
  add_index_entry blk height bc =
      let prev_work = elim (find blk.header.prev_block_hash bc.chain.index) as (λ x. U256) [
        | none ↦ u256_zero
        | some prev ↦ prev.chain_work
      ] in
      let work = add prev_work (get_block_work blk.header.bits) in
      let entry = index_entry ssl blk (pos height) work (height == 0) in
      record {
        chain = record bc.chain { index = insert (get_hash ssl blk.header) entry bc.chain.index };
        stored = st.write_block blk height bc.stored;
      }

  -- The blocks of the active chain at the n heights from h on.
  unfoldable pub read_chain : ℕ → ℕ → Blockchain st → Option (List Block)
  read_chain zero h bc = some []
  read_chain (suc n) h bc =
      let rest = read_chain n (h + 1) bc in
      elim (get_block_by_height st bc (pos h)) [
        | none ↦ none
        | some blk ↦ elim rest [ none ↦ none | some blks ↦ some (blk ∷ blks) ]
      ]

  -- The check of the fork from height h on: the coins behind it.
  unfoldable pub validate_fork :
      List Block → Option BlockHeader → ℕ → CoinsView → Result ReorgError CoinsView
  validate_fork [] prev h view = ok view
  validate_fork (blk ∷ blks) prev h view = do
    as_fork_header (check_block_header ssl blk.header prev params)
    checked ← as_fork_block (check_block ssl blk h view)
    validate_fork blks (some blk.header) (h + 1) checked.0

  -- The state after a reorganisation onto the blocks `blks` and then `blk`.
  unfoldable pub replace_chain : Block → List Block → CoinsView → Blockchain st → Blockchain st
  replace_chain blk blks view bc =
      let hashes = map (λ (b : Block). get_hash ssl b.header) (blks ++ (blk ∷ [])) in
      add_index_entry blk (length blks) (record bc {
        chain = record bc.chain {
          view = view;
          height = pos (length blks);
          tip_hash = get_hash ssl blk.header;
          by_height = hashes;
        };
      })

  -- The checks of a reorganisation onto a block whose parent has the index entry `prev`.
  unfoldable pub check_fork :
      Block → BlockIndex → Blockchain st → Result ReorgError (List Block × CoinsView)
  check_fork blk prev bc = do
    fail_if (less_eq (add prev.chain_work (get_block_work blk.header.bits)) bc.chain.chain_work)
        lower_chain_work
    blks ← some_blocks (read_chain (next_height prev.height) 0 bc)
    view ← validate_fork (blks ++ (blk ∷ [])) none 0 []
    ok (blks, view)

  unfoldable pub fork_checked :
      Block
      → BlockIndex
      → Blockchain st
      → Result ReorgError (List Block × CoinsView)
      → Blockchain st × Result (Fault ReorgError) Connected
  fork_checked blk prev bc (err e) = (bc, err (fails e))
  fork_checked blk prev bc (ok (blks, view)) =
      let bc' = replace_chain blk blks view bc in
      (bc', ok (record { fork_height = prev.height; connected = bc'.chain.by_height }))

  -- What TryAcceptBlock makes of the result of AcceptBlock.
  unfoldable pub extended :
      U256
      → Blockchain st × Result (Fault ChainError) (Unit {0})
      → Blockchain st × Result (Fault ReorgError) Connected
  extended hash (bc, ok _) = (bc, ok (record { fork_height = negsuc 0; connected = hash ∷ [] }))
  extended hash (bc, err (fails e)) = (bc, err (fails (rejected e)))
  extended hash (bc, err index_out_of_range) = (bc, err index_out_of_range)

  unfoldable pub try_child :
      Block
      → Option BlockIndex
      → Blockchain st
      → Blockchain st × Result (Fault ReorgError) Connected
  try_child blk none bc = (bc, err (fails need_sync))
  try_child blk (some prev) bc =
      if u256_eq blk.header.prev_block_hash bc.chain.tip_hash
      then extended (get_hash ssl blk.header)
          (accept_block ssl st params blk (next_height prev.height) bc)
      else fork_checked blk prev bc (check_fork blk prev bc)

  -- TryAcceptBlock
  unfoldable pub try_accept_block :
      Block → Blockchain st → Blockchain st × Result (Fault ReorgError) Connected
  try_accept_block blk bc =
      if have_block st bc (get_hash ssl blk.header)
      then (bc, ok (record { fork_height = negsuc 0; connected = [] }))
      else try_child blk (find blk.header.prev_block_hash bc.chain.index) bc
