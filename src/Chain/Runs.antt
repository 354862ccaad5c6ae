-- ===== src/Chain/Runs.antt =====
-- The runs of the block chain from its genesis block on, and what holds in all of them
-- (src/blockchain/blockchain.cpp, reorg.cpp).
use mathlib.Core.Path.{subst}
use cdx.Base.{
  Bool-cases, ◌∙◌, sym, Option, false, refl, length, ℕ, suc, List, [], ◌∷◌, ◌++◌, ◌≡◌, some, none,
  arith, inl, inr,
}
use cdx.Base.Int.{int_laws, pos, ◌≤ℤ◌}
use cdx.Uint256.{u256_eq, add, less_eq, U256}
use cdx.Utxo.{total_value, CoinsView, uint256_key}
use cdx.Result.{ok_injective, Result, fail_if-then, >>=-eq-ok, ok, err}
use cdx.Chain.{BlockIndex, have_block, Blockchain}
use cdx.Crypto.{Openssl}
use cdx.Storage.{IsStorage, Storage}
use cdx.Params.{max_supply_base, ChainParams}
use cdx.Chain.Genesis.{apply_genesis}
use cdx.Chain.Reorg.{
  ReorgError, extended, fork_checked, read_chain, some_blocks, try_child, check_fork,
  try_accept_block, validate_fork, replace_chain,
}
use cdx.Block.{Block}
use cdx.StdMap.{find, contains}
use cdx.Chain.Fork.{some_blocks-ok, read_chain_lem}
use cdx.Consensus.Header.{get_hash}
use cdx.Chain.Steps.{next_height-pos, accept_block-IsValid, accept_block-cases, IsValid}
use cdx.Consensus.Rewards.Supply.{get_cumulative_supply_at-le, get_cumulative_supply_at-subsidies}
use cdx.Uint256.Division.{get_block_work}
use cdx.Consensus.Difficulty.{next_height}
use cdx.Chain.Accept.{fails, index_out_of_range, Fault, ChainError, accept_block}
use cdx.Chain.Invariant.{replace_chain-IsValid, apply_genesis-IsValid}
use cdx.Consensus.Rewards.{get_cumulative_supply_at}
use cdx.Uint256.Order.{u256_eq_iff}

module _ (ssl : Openssl) (st : Storage) (params : ChainParams) where
  -- The states of the chain: after ApplyGenesis, and after any number of calls of TryAcceptBlock. A
  -- call that reads behind the end of byHeight has no state after it, and counts as no call.
  pub data Reach : Blockchain st → Type 0 where
    started : (bc bc' : Blockchain st) → apply_genesis ssl st params bc ≡ (bc', ok tt) → Reach bc'
    offered :
        (bc : Blockchain st) (blk : Block)
        → Reach bc
        → Reach (try_accept_block ssl st params blk bc).0

  have_block-none :
      (bc : Blockchain st) (hash : U256)
      → have_block st bc hash ≡ false
      → find hash bc.chain.index ≡ none
  unfolding have_block contains
  have_block-none bc hash e = by_find (find hash bc.chain.index) refl e
    where
      by_find :
          (o : Option BlockIndex)
          → find hash bc.chain.index ≡ o
          → have_block st bc hash ≡ false
          → find hash bc.chain.index ≡ none
      by_find none q h = q
      by_find (some x) q h = absurd (ground (arith, q))

  extended-state :
      (hash : U256) (r : Blockchain st × Result (Fault ChainError) (Unit {0}))
      → (extended ssl st params hash r).0 ≡ r.0
  unfolding extended
  extended-state hash (bc, ok _) = refl
  extended-state hash (bc, err (fails e)) = refl
  extended-state hash (bc, err index_out_of_range) = refl

module _ (ssl : Openssl) (st : Storage) (params : ChainParams) (store : IsStorage ssl st) where
  -- The blocks of a fork that passes its check are blocks of the active chain.
  check_fork-IsValid :
      (blk : Block) (n : ℕ) (prev : BlockIndex) (bc : Blockchain st) (blks : List Block)
      (view : CoinsView)
      → IsValid bc.chain n
      → find (get_hash ssl blk.header) bc.chain.index ≡ none
      → check_fork ssl st params blk prev bc ≡ ok (blks, view)
      → IsValid (replace_chain ssl st params blk blks view bc).chain (length blks)
  unfolding check_fork
  check_fork-IsValid blk n prev bc blks view valid fresh e =
      let (_, e1) =
        fail_if-then
          (less_eq (add prev.chain_work (get_block_work blk.header.bits)) bc.chain.chain_work) _ _
          e in
      let (l, e2, e3) =
        >>=-eq-ok (some_blocks (read_chain ssl st params (next_height prev.height) 0 bc)) _ e1 in
      let (v, e4, e5) = >>=-eq-ok (validate_fork ssl st params (l ++ (blk ∷ [])) none 0 []) _ e3 in
      let (_, same) =
        read_chain_lem ssl st params store (next_height prev.height) 0 bc l (some_blocks-ok _ e2) in
      subst (λ p. IsValid (replace_chain ssl st params blk p.0 p.1 bc).chain (length p.0))
        (ok_injective e5)
        (replace_chain-IsValid ssl st params blk l (next_height prev.height) v bc valid.0.3 fresh
          same e4)

  -- The checked fork, or the chain as it was.
  fork_checked-IsValid :
      (blk : Block) (n : ℕ) (prev : BlockIndex) (bc : Blockchain st)
      → IsValid bc.chain n
      → find (get_hash ssl blk.header) bc.chain.index ≡ none
      → (r : Result ReorgError (List Block × CoinsView)) → check_fork ssl st params blk prev bc ≡ r
      → (m : ℕ) × IsValid (fork_checked ssl st params blk prev bc r).0.chain m
  unfolding fork_checked
  fork_checked-IsValid blk n prev bc valid fresh (err x) q = (n, valid)
  fork_checked-IsValid blk n prev bc valid fresh (ok (blks, view)) q =
      (length blks, check_fork-IsValid blk n prev bc blks view valid fresh q)

  -- A block on the tip, accepted or not.
  extended-IsValid :
      (blk : Block) (n : ℕ) (prev : BlockIndex) (bc : Blockchain st)
      → IsValid bc.chain n
      → find (get_hash ssl blk.header) bc.chain.index ≡ none
      → blk.header.prev_block_hash ≡ bc.chain.tip_hash
      → find blk.header.prev_block_hash bc.chain.index ≡ some prev
      → (m : ℕ) × IsValid (accept_block ssl st params blk (next_height prev.height) bc).0.chain m
  extended-IsValid blk n prev bc valid fresh on_tip found =
      let (entry, entry_found, at_n, _) = valid.0.3 n bc.chain.tip_hash valid.0.2 in
      let same : some entry ≡ some prev = sym entry_found ∙ (rw (← on_tip) found) in
      let same_entry : entry ≡ prev = cc in
      let prev_at : prev.height ≡ pos n = rw (← same_entry) at_n in
      let next : next_height prev.height ≡ suc n = rw prev_at next_height-pos in
      rw next (elim (accept_block-cases ssl st params blk (suc n) bc) [
        | inl (unchanged, _, _) ↦ (n, rw unchanged valid)
        | inr good ↦ (suc n, accept_block-IsValid ssl st params blk n bc valid fresh on_tip good)
      ])

  child_IsValid :
      (blk : Block) (n : ℕ) (bc : Blockchain st)
      → IsValid bc.chain n
      → find (get_hash ssl blk.header) bc.chain.index ≡ none
      → (o : Option BlockIndex) → find blk.header.prev_block_hash bc.chain.index ≡ o
      → (m : ℕ) × IsValid (try_child ssl st params blk o bc).0.chain m
  unfolding try_child
  child_IsValid blk n bc valid fresh none q = (n, valid)
  child_IsValid blk n bc valid fresh (some prev) q =
      elim (Bool-cases (u256_eq blk.header.prev_block_hash bc.chain.tip_hash))
        as (λ x. (m : ℕ) × IsValid (try_child ssl st params blk (some prev) bc).0.chain m) [
          | inl top ↦
              let on_tip = (u256_eq_iff blk.header.prev_block_hash bc.chain.tip_hash).0 top in
              rw (top, extended-state ssl st params (get_hash ssl blk.header) _)
                (extended-IsValid blk n prev bc valid fresh on_tip q)
          | inr side ↦ rw side (fork_checked-IsValid blk n prev bc valid fresh _ refl)
        ]

  -- Every call of TryAcceptBlock on a valid chain leaves a valid chain.
  try_accept_block-IsValid :
      (blk : Block) (n : ℕ) (bc : Blockchain st)
      → IsValid bc.chain n
      → (m : ℕ) × IsValid (try_accept_block ssl st params blk bc).0.chain m
  unfolding try_accept_block try_child
  try_accept_block-IsValid blk n bc valid =
      elim (Bool-cases (have_block st bc (get_hash ssl blk.header)))
        as (λ x. (m : ℕ) × IsValid (try_accept_block ssl st params blk bc).0.chain m) [
          | inl known ↦ rw known (n, valid)
          | inr fresh ↦ rw fresh (
              child_IsValid blk n bc valid (have_block-none ssl st params bc _ fresh)
                (find blk.header.prev_block_hash bc.chain.index) refl)
        ]

  -- In every state that the chain reaches from its genesis block, with a storage that reads a block
  -- only under its own hash: the blocks of the vector up to the height are all in the index, each
  -- with its height and with the hash of the block below it, and the vector ends with the tip; no
  -- coin is negative; and the coins are worth at most the subsidies of the blocks up to the height.
  pub Reach-IsValid : (bc : Blockchain st) → Reach ssl st params bc → (n : ℕ) × IsValid bc.chain n
  Reach-IsValid bc (started before _ e) = (0, apply_genesis-IsValid ssl st params before bc e)
  Reach-IsValid bc (offered before blk r) =
      let (n, valid) = Reach-IsValid before r in try_accept_block-IsValid blk n before valid

  -- In every such state the coins are worth at most the supply that GetCumulativeSupplyAt gives for
  -- the heights up to the chain's, and so at most 21 million coins.
  pub Reach-supply :
      (bc : Blockchain st)
      → Reach ssl st params bc
      → (n : ℕ) × (bc.chain.height ≡ pos n)
        × (total_value bc.chain.view ≤ℤ pos (get_cumulative_supply_at (suc n)))
        × (total_value bc.chain.view ≤ℤ pos max_supply_base)
  Reach-supply bc r =
      let (n, (active, _, supply)) = Reach-IsValid bc r in
      let exact = get_cumulative_supply_at-subsidies (suc n) in
      (
        n,
        active.0,
        omega (int_laws, supply, exact),
        omega (int_laws, supply, exact, get_cumulative_supply_at-le (suc n)),
      )
