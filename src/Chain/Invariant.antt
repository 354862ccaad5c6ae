-- ===== src/Chain/Invariant.antt =====
-- The states that the genesis block and a reorganisation leave (src/blockchain/blockchain.cpp,
-- reorg.cpp).
use mathlib.Core.Path.{subst}
use cdx.Base.{
  length-map, map-snoc, ◌∙◌, sym, get_elem?-last, length-append, take, get_elem?, refl, ap, length,
  map, ℕ, suc, List, [], ◌∷◌, ◌++◌, ◌≡◌, some, none, arith,
}
use cdx.Base.Int.{int_laws, ℤ, pos}
use cdx.Uint256.{U256}
use cdx.Utxo.{total_value, CoinsView, uint256_key}
use cdx.Result.{ok_injective, Result, >>=-eq-ok, ok, err}
use cdx.Chain.{index_entry, Blockchain}
use cdx.Crypto.{Openssl}
use cdx.Storage.{Storage}
use cdx.Params.{ChainParams}
use cdx.Chain.Genesis.{
  could_not_mine, genesis_invalid, genesis_checked, GenesisError, mined_genesis, as_genesis,
  check_genesis_block, start_chain, apply_genesis,
}
use cdx.Chain.Reorg.{as_fork_block, as_fork_header, add_index_entry, validate_fork, replace_chain}
use cdx.Block.{Block}
use cdx.StdMap.{find}
use cdx.Chain.Fork.{
  last_hash, last_hash-get_elem?, validate_fork-link, validate_fork-supply, hash_of,
}
use cdx.Chain.Heights.{single-IsIndexed, snoc-IsIndexed, take-IsIndexed, IsIndexed}
use cdx.Consensus.Header.{check_block_header, get_hash}
use cdx.Chain.Steps.{IsValid}
use cdx.Consensus.Validation.{Error, check_block}
use cdx.Consensus.Validation.Supply.{check_block_supply}
use cdx.Consensus.Rewards.Supply.{subsidies-suc}

total_value_nil : total_value [] ≡ pos 0
unfolding total_value
total_value_nil = refl

as_genesis-ok :
    {A : Type 0} {a : A} (ssl : Openssl) (r : Result Error A) → as_genesis ssl r ≡ ok a → r ≡ ok a
unfolding as_genesis
as_genesis-ok ssl (ok a) e = ap ok (ok_injective e)
as_genesis-ok ssl (err x) e = cc

module _ (ssl : Openssl) (st : Storage) (params : ChainParams) where
  -- The new block of a reorganisation names the last of the blocks under it.
  fork-link :
      (blks : List Block) (blk : Block) (view : CoinsView)
      → validate_fork ssl st params (blks ++ (blk ∷ [])) none 0 [] ≡ ok view
      → (i : ℕ) (prev : U256) → length (map (hash_of ssl) blks) ≡ suc i
      → get_elem? (map (hash_of ssl) blks) i ≡ some prev
      → blk.header.prev_block_hash ≡ prev
  unfolding validate_fork
  fork-link [] blk view e i prev q p = cc
  fork-link (b ∷ blks) blk view e i prev q p =
      let (_, _, e1) =
        >>=-eq-ok (as_fork_header (check_block_header ssl b.header none params)) _ e in
      let (checked, _, e2) = >>=-eq-ok (as_fork_block (check_block ssl b 0 [])) _ e1 in
      let named = validate_fork-link ssl st params blks blk b.header 1 checked.0 view e2 in
      let last = last_hash-get_elem? (get_hash ssl b.header) (map (hash_of ssl) blks) in
      let top : i ≡ length (map (hash_of ssl) blks) = omega arith in
      let p' = rw top at p in
      let same : last_hash (get_hash ssl b.header) (map (hash_of ssl) blks) ≡ prev = cc in
      named ∙ same

  -- A reorganisation onto blocks of the active chain leaves a valid chain.
  pub replace_chain-IsValid :
      (blk : Block) (blks : List Block) (k : ℕ) (view : CoinsView) (bc : Blockchain st)
      → IsIndexed bc.chain.index bc.chain.by_height
      → find (get_hash ssl blk.header) bc.chain.index ≡ none
      → map (hash_of ssl) blks ≡ take k bc.chain.by_height
      → validate_fork ssl st params (blks ++ (blk ∷ [])) none 0 [] ≡ ok view
      → IsValid (replace_chain ssl st params blk blks view bc).chain (length blks)
  unfolding replace_chain add_index_entry index_entry
  replace_chain-IsValid blk blks k view bc indexed fresh same e =
      let hash = get_hash ssl blk.header in
      let hashes = map (hash_of ssl) blks in
      let snoc = map-snoc (hash_of ssl) blks blk in
      let len = length-map (hash_of ssl) blks in
      let old : IsIndexed bc.chain.index hashes =
        rw same (take-IsIndexed bc.chain.index bc.chain.by_height k indexed) in
      let (nonneg, supply) =
        validate_fork-supply ssl st params (blks ++ (blk ∷ [])) none 0 [] view tt e in
      let total : length (blks ++ (blk ∷ [])) ≡ suc (length blks) =
        omega (arith, length-append blks (blk ∷ [])) in
      let supply' = rw (total_value_nil, total) at supply in
      (
        (
          refl,
          rw snoc (omega (arith, len, length-append hashes (hash ∷ []))),
          rw (snoc, ← len) (get_elem?-last hashes hash),
          rw snoc (
              snoc-IsIndexed bc.chain.index hashes hash _ fresh (ap pos (sym len))
                (fork-link blks blk view e) old),
        ),
        nonneg,
        omega (int_laws, supply'),
      )

  start_chain-IsValid :
      (genesis : Block) (view : CoinsView) (fees : ℤ) (bc : Blockchain st)
      → check_block ssl genesis 0 [] ≡ ok (view, fees)
      → IsValid (start_chain ssl st params genesis view bc).chain 0
  unfolding start_chain index_entry
  start_chain-IsValid genesis view fees bc e =
      let hash = get_hash ssl genesis.header in
      let (nonneg, supply, _, _) = check_block_supply ssl genesis 0 [] view fees tt e in
      let supply' = rw total_value_nil at supply in
      (
        (refl, refl, refl, single-IsIndexed bc.chain.index hash _ refl),
        nonneg,
        omega (int_laws, supply', subsidies-suc 0),
      )

  check_genesis_block-ok :
      (genesis : Block) (view : CoinsView)
      → check_genesis_block ssl st params ≡ ok (genesis, view)
      → (fees : ℤ) × (check_block ssl genesis 0 [] ≡ ok (view, fees))
  unfolding check_genesis_block
  check_genesis_block-ok genesis view e =
      let (mined, _, e1) = >>=-eq-ok (mined_genesis ssl params) _ e in
      let (checked, e2, e3) = >>=-eq-ok (as_genesis ssl (check_block ssl mined 0 [])) _ e1 in
      subst (λ p. (fees : ℤ) × (check_block ssl p.0 0 [] ≡ ok (p.1, fees))) (ok_injective e3)
        (checked.1, as_genesis-ok ssl _ e2)

  genesis_checked-IsValid :
      (bc bc' : Blockchain st) (r : Result GenesisError (Block × CoinsView))
      → check_genesis_block ssl st params ≡ r
      → genesis_checked ssl st params bc r ≡ (bc', ok tt)
      → IsValid bc'.chain 0
  unfolding genesis_checked
  genesis_checked-IsValid bc bc' (err could_not_mine) q h =
      let bad : ◌≡◌ {A = Result GenesisError (Unit {0})} _ (ok tt) = ap (λ p. p.1) h in cc
  genesis_checked-IsValid bc bc' (err (genesis_invalid x)) q h =
      let bad : ◌≡◌ {A = Result GenesisError (Unit {0})} _ (ok tt) = ap (λ p. p.1) h in cc
  genesis_checked-IsValid bc bc' (ok (genesis, view)) q h =
      let (fees, checked) = check_genesis_block-ok genesis view q in
      let same : (start_chain ssl st params genesis view bc).chain ≡ bc'.chain =
        ap (λ p. p.0.chain) h in
      subst (λ c. IsValid c 0) same (start_chain-IsValid genesis view fees bc checked)

  pub apply_genesis-IsValid :
      (bc bc' : Blockchain st) → apply_genesis ssl st params bc ≡ (bc', ok tt) → IsValid bc'.chain 0
  unfolding apply_genesis
  apply_genesis-IsValid bc bc' e =
      genesis_checked-IsValid bc bc' (check_genesis_block ssl st params) refl e
