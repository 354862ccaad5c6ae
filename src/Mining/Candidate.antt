-- ===== src/Mining/Candidate.antt =====
-- The block that a miner works on (src/mining/miner.cpp, CreateCandidateBlock).
pub mod Fees
use cdx.Base.{ltb, map, ℕ, suc, zero, some, none, List, [], ◌∷◌, ◌++◌, ◌==◌, length, if◌then◌else◌}
use cdx.Base.Int.{ℤ, pos, ◌+ℤ◌}
use cdx.Bytes.{Bytes}
use cdx.Result.{ok, err}
use cdx.Crypto.{Openssl}
use cdx.Serializer.{write_u64}
use cdx.Address.{decode_address}
use cdx.Transaction.{Tx}
use cdx.Mempool.{Entry, Mempool}
use cdx.Uint256.{u256_zero, U256}
use cdx.Utxo.{CoinsView}
use cdx.Consensus.Validation.{check_tx_inputs}
use cdx.Consensus.Rewards.{get_block_subsidy}
use cdx.Block.{Block}
use cdx.Script.{build_p2pkh_script}
use cdx.Merkle.{merkle_root_of_txs}

-- while (n > 1 && le[n - 1] == 0) --n
unfoldable pub trim : Bytes → Bytes
trim [] = []
trim (x ∷ s) = elim (trim s) as (λ y. Bytes) [
  | [] ↦ if x == 0 then [] else x ∷ []
  | y ∷ t ↦ x ∷ y ∷ t
]

unfoldable pub last_byte : Bytes → ℕ
last_byte [] = 0
last_byte (x ∷ []) = x
last_byte (x ∷ y ∷ s) = last_byte (y ∷ s)

-- The height as a minimal push, with a zero byte behind a set high bit.
unfoldable pub push_height : ℕ → Bytes
push_height h =
    let le = trim (write_u64 h) in
    let num = if ltb (last_byte le) 128 then le else le ++ (0 ∷ []) in
    if h == 0 then 0 ∷ [] else length num ∷ num

-- "CDX Miner"
abbrev pub miner_data : Bytes
miner_data = 67 ∷ 68 ∷ 88 ∷ 32 ∷ 77 ∷ 105 ∷ 110 ∷ 101 ∷ 114 ∷ []

-- The script of the coinbase: the height, four bytes of nonce and the data.
unfoldable pub coinbase_script : ℕ → Bytes
coinbase_script h = push_height h ++ (4 ∷ 0 ∷ 0 ∷ 0 ∷ 0 ∷ (length miner_data ∷ miner_data))

unfoldable pub clear_first : Bytes → Bytes
clear_first [] = []
clear_first (x ∷ s) = 0 ∷ s

module _ (ssl : Openssl) where
  -- minerHash: the hash of the address, or with its first byte cleared what is there otherwise; `stack`
  -- is what the array holds before DecodeAddress.
  unfoldable pub miner_hash : Bytes → Bytes → ℕ → Bytes
  miner_hash stack address version = elim (decode_address ssl address) as (λ x. Bytes) [
    | none ↦ clear_first stack
    | some (ver, hash) ↦ if ver == version then hash else clear_first hash
  ]

  -- The loop over the mempool: the fees and the transactions, at most `room` of them.
  unfoldable pub pick_txs : ℕ → List Tx → CoinsView → ℕ → ℤ × List Tx
  pick_txs room [] view height = (pos 0, [])
  pick_txs zero (tx ∷ txs) view height = (pos 0, [])
  pick_txs (suc room) (tx ∷ txs) view height =
      elim (check_tx_inputs ssl tx view height) as (λ x. ℤ × List Tx) [
        | err _ ↦ pick_txs (suc room) txs view height
        | ok fee ↦ let (fees, picked) = pick_txs room txs view height in (fee +ℤ fees, tx ∷ picked)
      ]

  -- GetTxs
  unfoldable pub get_txs : Mempool → List Tx
  get_txs pool = map (λ (e : U256 × Entry). e.1.tx) pool.map_tx

  -- The coinbase that pays the subsidy and the fees to the hash of a miner.
  unfoldable pub candidate_coinbase : ℕ → ℤ → Bytes → Tx
  candidate_coinbase height fees hash = record {
    version = pos 1;
    vin =
        record {
          prevout = record { hash = u256_zero; n = 0xffffffff };
          script_sig = coinbase_script height;
          sequence = 0xffffffff;
        }
        ∷ [];
    vout =
        record {
          value = pos (get_block_subsidy height) +ℤ fees;
          script_pub_key = build_p2pkh_script hash;
        }
        ∷ [];
    lock_time = 0;
  }

  -- CreateCandidateBlock: the block and feesOut
  unfoldable pub create_candidate_block :
      Bytes → ℕ → ℕ → ℕ → U256 → Mempool → CoinsView → Bytes → ℕ → Block × ℤ
  create_candidate_block stack height bits timestamp prev_hash pool view address version =
      let (fees, txs) = pick_txs 500 (get_txs pool) view height in
      let vtx = candidate_coinbase height fees (miner_hash stack address version) ∷ txs in
      (
        record {
          header = record {
            version = pos 1;
            prev_block_hash = prev_hash;
            merkle_root = merkle_root_of_txs ssl vtx;
            timestamp = timestamp;
            bits = bits;
            nonce = 0;
          };
          vtx = vtx;
        },
        fees,
      )
