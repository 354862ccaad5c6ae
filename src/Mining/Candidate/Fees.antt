-- ===== src/Mining/Candidate/Fees.antt =====
-- The fees and the reward of a candidate block (src/mining/miner.cpp, CreateCandidateBlock).
use cdx.Base.{ℕ, suc, zero, true, List, [], ◌∷◌, ◌≡◌, ◌≤◌, length, arith, refl}
use cdx.Base.Int.{ℤ, pos, ◌+ℤ◌, int_laws}
use cdx.Result.{Result, ok, err}
use cdx.Crypto.{Openssl}
use cdx.Utxo.{CoinsView}
use cdx.Mining.Candidate.{miner_hash, get_txs, pick_txs, candidate_coinbase, create_candidate_block}
use cdx.Consensus.Rewards.{get_block_subsidy, is_coinbase_value_valid}
use cdx.Transaction.{Tx, is_coinbase}
use cdx.Consensus.Validation.{Error, check_tx_inputs, sum_outputs}
use cdx.Bytes.{Bytes}
use cdx.Uint256.{U256, is_zero}
use cdx.Mempool.{Mempool}
use cdx.Merkle.{merkle_root_of_txs}

module _ (ssl : Openssl) (view : CoinsView) (height : ℕ) where
  -- CheckTxInputs accepts each of the transactions at the height, and their fees have this sum.
  abbrev pub HasFees : List Tx → ℤ → Type 0
  HasFees [] fees = fees ≡ pos 0
  HasFees (tx ∷ txs) fees =
      (fee : ℤ) × (others : ℤ) × (check_tx_inputs ssl tx view height ≡ ok fee)
      × HasFees txs others
      × (fees ≡ fee +ℤ others)

  abbrev IsPicked : ℕ → List Tx → Type 0
  IsPicked room txs =
      HasFees (pick_txs ssl room txs view height).1 (pick_txs ssl room txs view height).0
      × (length (pick_txs ssl room txs view height).1 ≤ room)

  next-IsPicked :
      (room : ℕ) (tx : Tx) (txs : List Tx) (r : Result Error ℤ)
      → check_tx_inputs ssl tx view height ≡ r
      → IsPicked (suc room) txs
      → IsPicked room txs
      → IsPicked (suc room) (tx ∷ txs)
  unfolding pick_txs
  next-IsPicked room tx txs (err e) q left taken = rw (pick_txs, q) left
  next-IsPicked room tx txs (ok fee) q left (rest, few) =
      rw (pick_txs, q) ((fee, _, q, rest, refl), omega (arith, few))

  pick_txs-IsPicked : (room : ℕ) (txs : List Tx) → IsPicked room txs
  unfolding pick_txs
  pick_txs-IsPicked room [] = (refl, omega arith)
  pick_txs-IsPicked zero (tx ∷ txs) = (refl, omega arith)
  pick_txs-IsPicked (suc room) (tx ∷ txs) =
      next-IsPicked room tx txs (check_tx_inputs ssl tx view height) refl
        (pick_txs-IsPicked (suc room) txs) (pick_txs-IsPicked room txs)

candidate_value :
    (ssl : Openssl) (height : ℕ) (fees : ℤ) (hash : Bytes)
    → sum_outputs (candidate_coinbase ssl height fees hash).vout
      ≡ pos (get_block_subsidy height) +ℤ fees
unfolding candidate_coinbase sum_outputs
candidate_value ssl height fees hash = omega int_laws

is_coinbase-candidate_coinbase :
    (ssl : Openssl) (height : ℕ) (fees : ℤ) (hash : Bytes)
    → is_coinbase (candidate_coinbase ssl height fees hash) ≡ true
unfolding candidate_coinbase is_coinbase is_zero
is_coinbase-candidate_coinbase ssl height fees hash = refl

value_valid : (subsidy fees : ℤ) → is_coinbase_value_valid (subsidy +ℤ fees) subsidy fees ≡ true
unfolding is_coinbase_value_valid
value_valid subsidy fees = ground arith

-- A candidate block starts with its only coinbase, which pays exactly the subsidy of the height and
-- the reported fees and so keeps the bound on what a coinbase may pay; CheckTxInputs accepts each of
-- the other transactions, at most 500, and the reported fees are the sum of theirs; and the merkle
-- root of the header is that of the transactions.
pub create_candidate_block_lem :
    (ssl : Openssl) (stack : Bytes) (height bits timestamp : ℕ) (prev_hash : U256) (pool : Mempool)
    (view : CoinsView) (address : Bytes) (version : ℕ)
    → let made =
        create_candidate_block ssl stack height bits timestamp prev_hash pool view address
          version in
      (coinbase : Tx) × (txs : List Tx) × (made.0.vtx ≡ coinbase ∷ txs)
      × (is_coinbase coinbase ≡ true)
      × (sum_outputs coinbase.vout ≡ pos (get_block_subsidy height) +ℤ made.1)
      × (is_coinbase_value_valid (sum_outputs coinbase.vout) (pos (get_block_subsidy height)) made.1
          ≡ true)
      × HasFees ssl view height txs made.1
      × (length txs ≤ 500)
      × (made.0.header.merkle_root ≡ merkle_root_of_txs ssl made.0.vtx)
unfolding create_candidate_block
create_candidate_block_lem ssl stack height bits timestamp prev_hash pool view address version =
    let (paid, few) = pick_txs-IsPicked ssl view height 500 (get_txs ssl pool) in
    let fees = (pick_txs ssl 500 (get_txs ssl pool) view height).0 in
    let hash = miner_hash ssl stack address version in
    let value = candidate_value ssl height fees hash in
    (
      _,
      _,
      refl,
      is_coinbase-candidate_coinbase ssl height fees hash,
      value,
      rw value (value_valid (pos (get_block_subsidy height)) fees),
      paid,
      few,
      refl,
    )
